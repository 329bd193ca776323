-- ===== src/Kvzoo/Server/Requests.antt =====
-- The requests that change a server, and what each may do to its open transactions.
use gao_cloud.Prelude.{
  ℕ, suc, ◌≤◌, ◌≡◌, inl, inr, refl, Bool, not, String, ◌==◌, List, [], ◌∷◌, arith, any, length, ltb,
  Result, Result-cases, Option-cases, Bool-cases, ltb-ge,
}
use gao_cloud.Kvzoo.{KvError}
use gao_cloud.Kvzoo.Server
use gao_cloud.Kvzoo.Server.{
  KvDb, KvService, find_tx, remove_tx, set_tx, max_open_tx_count, destroy_service, open_table,
  drop_table, begin_transaction, commit_transaction, rollback_transaction, with_tx,
}

-- The requests that change a server.
pub data Request (V : Type 0) : Type 0 where
  opens drops begins : String → Request V
  commits rolls_back : ℕ → Request V
  adds updates : String → V → ℕ → Request V
  deletes : String → ℕ → Request V
  destroys : Request V

module _ {V : Type 0} (kvdb : KvDb V) (is_table_name : String → Bool) where
  unfoldable pub serve : Request V → KvService kvdb → KvService kvdb
  unfolding Server.add Server.update Server.delete
  serve (opens name) s = (open_table kvdb is_table_name name s).1
  serve (drops name) s = (drop_table kvdb is_table_name name s).1
  serve (begins name) s = (begin_transaction kvdb name s).1
  serve (commits id) s = (commit_transaction kvdb id s).1
  serve (rolls_back id) s = (rollback_transaction kvdb id s).1
  serve (adds key value id) s = (Server.add kvdb key value id s).1
  serve (updates key value id) s = (Server.update kvdb key value id s).1
  serve (deletes key id) s = (Server.delete kvdb key id s).1
  serve destroys s = (destroy_service kvdb s).1

  unfoldable pub serve_all : List (Request V) → KvService kvdb → KvService kvdb
  serve_all [] s = s
  serve_all (r ∷ rs) s = serve_all rs (serve r s)

  -- What a request that touches the transactions at most by a write or an end leaves.
  pub data Touch (s s' : KvService kvdb) : Type 0 where
    same : s'.opened_txs ≡ s.opened_txs → s'.next_tx_id ≡ s.next_tx_id → Touch s s'
    cleared : s'.opened_txs ≡ [] → s'.next_tx_id ≡ s.next_tx_id → Touch s s'
    ended :
        (id : ℕ)
        → s'.opened_txs ≡ remove_tx id s.opened_txs
        → s'.next_tx_id ≡ s.next_tx_id
        → Touch s s'
    wrote :
        (id : ℕ) (tx : kvdb.Tx)
        → s'.opened_txs ≡ set_tx id tx s.opened_txs
        → s'.next_tx_id ≡ s.next_tx_id
        → Touch s s'
    began :
        (tx : kvdb.Tx)
        → length s.opened_txs ≤ max_open_tx_count
        → s'.opened_txs ≡ (suc s.next_tx_id, tx) ∷ s.opened_txs
        → s'.next_tx_id ≡ suc s.next_tx_id
        → Touch s s'

  with_tx-Touch :
      (change : kvdb.Tx → Result KvError kvdb.Tx) (id : ℕ) (s : KvService kvdb)
      → Touch s (with_tx kvdb change id s).1
  unfolding with_tx
  with_tx-Touch change id s = elim (Option-cases (find_tx id s.opened_txs)) [
    | inl unknown ↦ rw (unknown, with_tx) (same refl refl)
    | inr (tx, known) ↦ elim (Result-cases (change tx)) [
      | inl (e, failed) ↦ rw (known, with_tx, failed) (same refl refl)
      | inr (tx', done) ↦ rw (known, with_tx, done) (wrote id tx' refl refl)
    ]
  ]

  begin-Touch : (name : String) (s : KvService kvdb) → Touch s (begin_transaction kvdb name s).1
  unfolding begin_transaction
  begin-Touch name s = elim (Bool-cases (not (any (λ t. t == name) s.opened_tables))) [
    | inl missing ↦ rw (missing, begin_transaction) (same refl refl)
    | inr open_one ↦ elim (Bool-cases (ltb max_open_tx_count (length s.opened_txs))) [
      | inl full ↦ rw (open_one, begin_transaction, full) (same refl refl)
      | inr room ↦ elim (Result-cases (kvdb.begin name s.db)) [
        | inl (e, failed) ↦ rw (open_one, begin_transaction, room, failed) (same refl refl)
        | inr (tx, done) ↦
            rw (open_one, begin_transaction, room, done)
              (began tx (ltb-ge max_open_tx_count (length s.opened_txs) room) refl refl)
      ]
    ]
  ]

  commit-Touch : (id : ℕ) (s : KvService kvdb) → Touch s (commit_transaction kvdb id s).1
  unfolding commit_transaction
  commit-Touch id s = elim (Option-cases (find_tx id s.opened_txs)) [
    | inl unknown ↦ rw (unknown, commit_transaction) (same refl refl)
    | inr (tx, known) ↦ elim (Result-cases (kvdb.tx_commit tx s.db)) [
      | inl (e, failed) ↦ rw (known, commit_transaction, failed) (ended id refl refl)
      | inr (db, done) ↦ rw (known, commit_transaction, done) (ended id refl refl)
    ]
  ]

  rollback-Touch : (id : ℕ) (s : KvService kvdb) → Touch s (rollback_transaction kvdb id s).1
  unfolding rollback_transaction
  rollback-Touch id s = elim (Option-cases (find_tx id s.opened_txs)) [
    | inl unknown ↦ rw (unknown, rollback_transaction) (same refl refl)
    | inr (tx, known) ↦ elim (Result-cases (kvdb.tx_rollback tx s.db)) [
      | inl (e, failed) ↦ rw (known, rollback_transaction, failed) (ended id refl refl)
      | inr (db, done) ↦ rw (known, rollback_transaction, done) (ended id refl refl)
    ]
  ]

  pub serve-Touch : (r : Request V) (s : KvService kvdb) → Touch s (serve r s)
  unfolding serve Server.add Server.update Server.delete open_table drop_table destroy_service
  serve-Touch (adds key value id) s = with_tx-Touch (kvdb.tx_add key value) id s
  serve-Touch (updates key value id) s = with_tx-Touch (kvdb.tx_update key value) id s
  serve-Touch (deletes key id) s = with_tx-Touch (kvdb.tx_delete key) id s
  serve-Touch (opens name) s = same (ground arith) (ground arith)
  serve-Touch (drops name) s = same (ground arith) (ground arith)
  serve-Touch (begins name) s = begin-Touch name s
  serve-Touch (commits id) s = commit-Touch id s
  serve-Touch (rolls_back id) s = rollback-Touch id s
  serve-Touch destroys s = cleared (ground arith) (ground arith)
