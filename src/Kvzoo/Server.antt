-- ===== src/Kvzoo/Server.antt =====
-- kvzoo/server/service.go: a server's tables and transactions, over the interface of a database that
-- kvzoo/db.go declares, which is a parameter here. Requests are served one after the other; that two of
-- them begin transactions at once, between whose tests and counts the lock is given back, is left out.
-- The protocol (kvzoo/proto) only carries requests and answers.
pub mod Table
pub mod Requests
pub mod Transactions
use gao_cloud.Prelude.{
  ℕ, zero, suc, ◌+◌, Bool, true, false, not, ◌||◌, Option, none, some, String, ◌==◌, List, [], ◌∷◌,
  any, keep, length, ltb, nat_eq, if◌then◌else◌, Result, ok, err, ◌>>=◌,
}
use gao_cloud.Kvzoo.{KvError}

-- `DB`, `Table` and `Transaction`. A transaction is what it will write, and changes the database when
-- it is committed.
pub record KvDb (V : Type 0) : Type 1 where
  pub Db : Type 0
  pub Tx : Type 0
  pub create_or_get_table : String → Db → Result KvError Db
  pub delete_table : String → Db → Result KvError Db
  pub checksum : Db → Result KvError String
  pub close : Db → Result KvError Db
  pub destroy : Db → Result KvError Db
  pub begin : String → Db → Result KvError Tx
  pub tx_commit : Tx → Db → Result KvError Db
  pub tx_rollback : Tx → Db → Result KvError Db
  pub tx_add : String → V → Tx → Result KvError Tx
  pub tx_delete : String → Tx → Result KvError Tx
  pub tx_update : String → V → Tx → Result KvError Tx
  pub tx_get : String → Tx → Result KvError V
  pub tx_list : Tx → Result KvError (List (String × V))

abbrev pub max_open_tx_count : ℕ
max_open_tx_count = 2000

pub data ServiceError : Type 0 where
  table_missing invalid_name : String → ServiceError
  too_many_transactions invalid_transaction unavailable : ServiceError
  kv : KvError → ServiceError

-- The map of the open transactions, by their numbers.
module _ {Tx : Type 0} where
  unfoldable pub find_tx : ℕ → List (ℕ × Tx) → Option Tx
  find_tx id [] = none
  find_tx id (entry ∷ txs) = if nat_eq entry.0 id then some entry.1 else find_tx id txs

  unfoldable pub remove_tx : ℕ → List (ℕ × Tx) → List (ℕ × Tx)
  remove_tx id [] = []
  remove_tx id (entry ∷ txs) =
      let rest = remove_tx id txs in if nat_eq entry.0 id then rest else entry ∷ rest

  -- The transaction is changed through its pointer.
  unfoldable pub set_tx : ℕ → Tx → List (ℕ × Tx) → List (ℕ × Tx)
  set_tx id tx [] = []
  set_tx id tx (entry ∷ txs) =
      let rest = set_tx id tx txs in if nat_eq entry.0 id then (id, tx) ∷ rest else entry ∷ rest

module _ {V : Type 0} (kvdb : KvDb V) where
  open kvdb use {
    Db, Tx, create_or_get_table, delete_table, checksum, close, destroy, begin, tx_commit,
    tx_rollback, tx_add, tx_delete, tx_update, tx_get, tx_list,
  }

  pub record KvService : Type 0 where
    pub db : Db
    pub next_tx_id : ℕ
    pub opened_tables : List String
    pub opened_txs : List (ℕ × Tx)

  -- What a request is answered with, and the service after it.
  abbrev pub Served : Type 0 → Type 0
  Served A = Result ServiceError A × KvService

  unfoldable pub new_kv_service : Db → KvService
  new_kv_service db = record { db = db; next_tx_id = 0; opened_tables = []; opened_txs = [] }

  -- A call of the database that gives a new one.
  abbrev on_db : Result KvError Db → KvService → Served (Unit {0})
  on_db (ok db) s = (ok tt, record s { db = db })
  on_db (err e) s = (err (kv e), s)

  unfoldable pub get_checksum : KvService → Served String
  get_checksum s = elim (checksum s.db) [ ok cs ↦ (ok cs, s) | err e ↦ (err (kv e), s) ]

  unfoldable pub destroy_service : KvService → Served (Unit {0})
  destroy_service s =
      let s' : KvService = record s { opened_tables = []; opened_txs = [] } in
      elim (close s.db) [
        | err e ↦ (err (kv e), s')
        | ok db ↦ on_db (destroy db) (record s' { db = db })
      ]

  -- `NewTableName` is given as a test.
  unfoldable pub open_table : (String → Bool) → String → KvService → Served (Unit {0})
  open_table is_table_name name s =
      if any (λ t. t == name) s.opened_tables
      then (ok tt, s)
      else if not (is_table_name name)
      then (err (invalid_name name), s)
      else elim (create_or_get_table name s.db) [
        | err e ↦ (err (kv e), s)
        | ok db ↦ (ok tt, record s { db = db; opened_tables = name ∷ s.opened_tables })
      ]

  unfoldable pub drop_table : (String → Bool) → String → KvService → Served (Unit {0})
  drop_table is_table_name name s =
      let s' : KvService = record s {
        opened_tables = keep (λ t. not (t == name)) s.opened_tables;
      } in
      if is_table_name name
      then on_db (delete_table name s.db) s'
      else (err (invalid_name name), s')

  -- `atomic.AddInt64` gives the next number; it does not wrap here.
  unfoldable pub begin_transaction : String → KvService → Served ℕ
  begin_transaction name s =
      if not (any (λ t. t == name) s.opened_tables)
      then (err (table_missing name), s)
      else if ltb max_open_tx_count (length s.opened_txs)
      then (err too_many_transactions, s)
      else elim (begin name s.db) [
        | err e ↦ (err (kv e), s)
        | ok tx ↦ (
          ok (suc s.next_tx_id),
          record s {
            next_tx_id = suc s.next_tx_id;
            opened_txs = (suc s.next_tx_id, tx) ∷ s.opened_txs;
          },
        )
      ]

  -- The transaction is forgotten whether or not its commit succeeds.
  unfoldable pub commit_transaction : ℕ → KvService → Served (Unit {0})
  unfolding find_tx remove_tx
  commit_transaction id s = elim (find_tx id s.opened_txs) [
    | none ↦ (err invalid_transaction, s)
    | some tx ↦ on_db (tx_commit tx s.db) (record s { opened_txs = remove_tx id s.opened_txs })
  ]

  unfoldable pub rollback_transaction : ℕ → KvService → Served (Unit {0})
  unfolding find_tx remove_tx
  rollback_transaction id s = elim (find_tx id s.opened_txs) [
    | none ↦ (err invalid_transaction, s)
    | some tx ↦ on_db (tx_rollback tx s.db) (record s { opened_txs = remove_tx id s.opened_txs })
  ]

  -- A write through an open transaction.
  unfoldable pub with_tx : (Tx → Result KvError Tx) → ℕ → KvService → Served (Unit {0})
  with_tx change id s = elim (find_tx id s.opened_txs) [
    | none ↦ (err invalid_transaction, s)
    | some tx ↦ elim (change tx) [
      | err e ↦ (err (kv e), s)
      | ok tx' ↦ (ok tt, record s { opened_txs = set_tx id tx' s.opened_txs })
    ]
  ]

  unfoldable pub add : String → V → ℕ → KvService → Served (Unit {0})
  unfolding with_tx
  add key value = with_tx (tx_add key value)

  unfoldable pub delete : String → ℕ → KvService → Served (Unit {0})
  unfolding with_tx
  delete key = with_tx (tx_delete key)

  unfoldable pub update : String → V → ℕ → KvService → Served (Unit {0})
  unfolding with_tx
  update key value = with_tx (tx_update key value)

  -- A read through an open transaction.
  abbrev read_tx : {A : Type 0} → (Tx → Result KvError A) → ℕ → KvService → Served A
  read_tx look id s = elim (find_tx id s.opened_txs) [
    | none ↦ (err invalid_transaction, s)
    | some tx ↦ elim (look tx) [ err e ↦ (err (kv e), s) | ok a ↦ (ok a, s) ]
  ]

  unfoldable pub get : String → ℕ → KvService → Served V
  get key = read_tx (tx_get key)

  unfoldable pub list_all : ℕ → KvService → Served (List (String × V))
  list_all = read_tx tx_list
