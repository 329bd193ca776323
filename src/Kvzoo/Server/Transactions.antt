-- ===== src/Kvzoo/Server/Transactions.antt =====
-- The transactions of a server under any requests: how many are open, and that the number of one that
-- has ended is never open again.
use gao_cloud.Prelude.{
  ℕ, suc, ◌≤◌, ◌≡◌, ◌∙◌, inl, inr, refl, ap, sym, Bool, none, some, String, List, [], ◌∷◌, arith,
  length, nat_eq, Result-cases, if_both,
}
use mathlib.Core.Path.{subst}
use gao_cloud.Kvzoo.Server.Table.{
  UpTo, UpTo-weaken, UpTo-remove_tx, UpTo-set_tx, length-remove_tx, length-set_tx, find_tx-UpTo,
  find_tx-remove_tx, none-set_tx,
}
use gao_cloud.Kvzoo.Server.{
  KvDb, KvService, find_tx, remove_tx, set_tx, max_open_tx_count, commit_transaction,
}
use gao_cloud.Kvzoo.Server.Requests.{
  Request, serve, serve_all, Touch, same, cleared, ended, wrote, began, serve-Touch,
}

module _ {V : Type 0} (kvdb : KvDb V) (is_table_name : String → Bool) where
  -- The open numbers have been given, and there are at most as many as the server allows.
  pub record IsService (s : KvService kvdb) : Type 0 where
    pub given : UpTo s.next_tx_id s.opened_txs
    pub bounded : length s.opened_txs ≤ suc max_open_tx_count

  IsService-of :
      (s' : KvService kvdb) (txs : List (ℕ × kvdb.Tx)) (n : ℕ)
      → s'.opened_txs ≡ txs
      → s'.next_tx_id ≡ n
      → UpTo n txs
      → length txs ≤ suc max_open_tx_count
      → IsService s'
  IsService-of s' txs n e e' u l = record {
    given = subst (UpTo s'.next_tx_id) (sym e) (subst (λ k. UpTo k txs) (sym e') u);
    bounded = omega (arith, ap length e);
  }

  Touch-IsService :
      (s s' : KvService kvdb) → Touch kvdb is_table_name s s' → IsService s → IsService s'
  Touch-IsService s s' (same e e') h =
      IsService-of s' s.opened_txs s.next_tx_id e e' h.given h.bounded
  Touch-IsService s s' (cleared e e') h = IsService-of s' [] s.next_tx_id e e' tt (omega arith)
  Touch-IsService s s' (ended id e e') h =
      IsService-of s' (remove_tx id s.opened_txs) s.next_tx_id e e'
        (UpTo-remove_tx s.next_tx_id id s.opened_txs h.given)
        (omega (arith, length-remove_tx id s.opened_txs, h.bounded))
  Touch-IsService s s' (wrote id tx e e') h =
      IsService-of s' (set_tx id tx s.opened_txs) s.next_tx_id e e'
        (UpTo-set_tx s.next_tx_id id tx s.opened_txs h.given)
        (omega (arith, length-set_tx id tx s.opened_txs, h.bounded))
  Touch-IsService s s' (began tx room e e') h =
      IsService-of s' ((suc s.next_tx_id, tx) ∷ s.opened_txs) (suc s.next_tx_id) e e'
        (
          omega arith,
          UpTo-weaken s.next_tx_id (suc s.next_tx_id) s.opened_txs (omega arith) h.given,
        )
        (omega arith)

  -- From such a state, and whatever the requests that it serves one after the other, a server never has
  -- more than one transaction above its limit open, and every open transaction has a number that was
  -- given.
  pub serve_all-IsService :
      (rs : List (Request V)) (s : KvService kvdb)
      → IsService s
      → IsService (serve_all kvdb is_table_name rs s)
  unfolding serve_all
  serve_all-IsService [] s h = h
  serve_all-IsService (r ∷ rs) s h =
      serve_all-IsService rs (serve kvdb is_table_name r s)
        (Touch-IsService s (serve kvdb is_table_name r s) (serve-Touch kvdb is_table_name r s) h)

  -- A number that was given, and is not open.
  pub record HasEnded (id : ℕ) (s : KvService kvdb) : Type 0 where
    pub was_given : id ≤ s.next_tx_id
    pub not_open : find_tx id s.opened_txs ≡ none

  HasEnded-of :
      (id : ℕ) (s' : KvService kvdb) (txs : List (ℕ × kvdb.Tx)) (n : ℕ)
      → s'.opened_txs ≡ txs
      → s'.next_tx_id ≡ n
      → id ≤ n
      → find_tx id txs ≡ none
      → HasEnded id s'
  HasEnded-of id s' txs n e e' p h = record {
    was_given = omega arith;
    not_open = ap (find_tx id) e ∙ h;
  }

  Touch-HasEnded :
      (id : ℕ) (s s' : KvService kvdb)
      → Touch kvdb is_table_name s s'
      → HasEnded id s
      → HasEnded id s'
  unfolding find_tx
  Touch-HasEnded id s s' (same e e') h =
      HasEnded-of id s' s.opened_txs s.next_tx_id e e' h.was_given h.not_open
  Touch-HasEnded id s s' (cleared e e') h = HasEnded-of id s' [] s.next_tx_id e e' h.was_given refl
  Touch-HasEnded id s s' (ended other e e') h =
      HasEnded-of id s' (remove_tx other s.opened_txs) s.next_tx_id e e' h.was_given
        (find_tx-remove_tx other id s.opened_txs ∙ if_both (nat_eq other id) refl h.not_open)
  Touch-HasEnded id s s' (wrote other tx e e') h =
      HasEnded-of id s' (set_tx other tx s.opened_txs) s.next_tx_id e e' h.was_given
        (none-set_tx other id tx s.opened_txs h.not_open)
  Touch-HasEnded id s s' (began tx room e e') h =
      HasEnded-of id s' ((suc s.next_tx_id, tx) ∷ s.opened_txs) (suc s.next_tx_id) e e'
        (omega (arith, h.was_given)) (ground (arith, h.was_given, h.not_open))

  serve_all-HasEnded :
      (id : ℕ) (rs : List (Request V)) (s : KvService kvdb)
      → HasEnded id s
      → HasEnded id (serve_all kvdb is_table_name rs s)
  unfolding serve_all
  serve_all-HasEnded id [] s h = h
  serve_all-HasEnded id (r ∷ rs) s h =
      serve_all-HasEnded id rs (serve kvdb is_table_name r s)
        (Touch-HasEnded id s (serve kvdb is_table_name r s) (serve-Touch kvdb is_table_name r s) h)

  known-le :
      (id : ℕ) (s : KvService kvdb) {tx : kvdb.Tx}
      → IsService s
      → find_tx id s.opened_txs ≡ some tx
      → id ≤ s.next_tx_id
  known-le id s h known = ground (arith, find_tx-UpTo s.next_tx_id id s.opened_txs h.given, known)

  removed-HasEnded :
      (id : ℕ) (s : KvService kvdb) {tx : kvdb.Tx} (db : kvdb.Db)
      → IsService s
      → find_tx id s.opened_txs ≡ some tx
      → HasEnded id (record s { db = db; opened_txs = remove_tx id s.opened_txs })
  removed-HasEnded id s db h known = record {
    was_given = known-le id s h known;
    not_open = ground (arith, find_tx-remove_tx id id s.opened_txs);
  }

  commit_transaction-HasEnded :
      (id : ℕ) (s : KvService kvdb) {tx : kvdb.Tx}
      → IsService s
      → find_tx id s.opened_txs ≡ some tx
      → HasEnded id (commit_transaction kvdb id s).1
  unfolding commit_transaction
  commit_transaction-HasEnded id s {tx = tx} h known =
      elim (Result-cases (kvdb.tx_commit tx s.db)) [
        | inl (e, failed) ↦
            rw (known, commit_transaction, failed) (removed-HasEnded id s s.db h known)
        | inr (db, done) ↦ rw (known, commit_transaction, done) (removed-HasEnded id s db h known)
      ]

  -- A commit of an open transaction ends it, whether or not the database takes it: after any later
  -- requests, of any clients, its number is not open.
  commit_transaction-ends :
      (id : ℕ) (s : KvService kvdb) (tx : kvdb.Tx) (rs : List (Request V))
      → IsService s
      → find_tx id s.opened_txs ≡ some tx
      → find_tx id (serve_all kvdb is_table_name rs (commit_transaction kvdb id s).1).opened_txs
        ≡ none
  commit_transaction-ends id s tx rs h known =
      (serve_all-HasEnded id rs (commit_transaction kvdb id s).1
        (commit_transaction-HasEnded id s h known)).not_open
