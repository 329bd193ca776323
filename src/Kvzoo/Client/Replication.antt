-- ===== src/Kvzoo/Client/Replication.antt =====
-- Slaves that start with the master's data and can be reached have it again after a transaction.
use gao_cloud.Prelude.{
  ℕ, suc, ◌≡◌, ◌≤◌, ◌∙◌, sym, ap, inl, inr, refl, true, not, Option, none, some, String, ◌==◌, List,
  [], ◌∷◌, arith, any, length, ok, Result, Result-cases, le→ltb, ltb, Bool-cases,
}
use gao_cloud.Kvzoo.{KvError}
use gao_cloud.Kvzoo.Server.{
  KvDb, KvService, find_tx, with_tx, begin_transaction, commit_transaction, max_open_tx_count,
}
use gao_cloud.Kvzoo.Server.Table.{find_tx-set_tx}
use gao_cloud.Kvzoo.Client.{Link, up, rpc, through_slaves, begin_slaves}

module _ {V : Type 0} (kvdb : KvDb V) where
  -- The two servers have the same data, and the same transaction under the two numbers.
  pub record Mirror (mid : ℕ) (m : KvService kvdb) (sid : ℕ) (s : KvService kvdb) : Type 0 where
    pub same_db : s.db ≡ m.db
    pub tx : kvdb.Tx
    pub of_master : find_tx mid m.opened_txs ≡ some tx
    pub of_slave : find_tx sid s.opened_txs ≡ some tx

  abbrev pub AllMirror : ℕ → KvService kvdb → List (Option ℕ) → List (KvService kvdb) → Type 0
  AllMirror mid m [] [] = Unit
  AllMirror mid m (some sid ∷ ids) (s ∷ ss) = Mirror mid m sid s × AllMirror mid m ids ss
  AllMirror _ _ _ _ = ⊥

  abbrev pub AllSame : kvdb.Db → List (KvService kvdb) → Type 0
  AllSame db [] = Unit
  AllSame db (s ∷ ss) = (s.db ≡ db) × AllSame db ss

  -- A server with the data can begin a transaction on the table.
  pub record CanBegin (name : String) (db : kvdb.Db) (s : KvService kvdb) : Type 0 where
    pub has_db : s.db ≡ db
    pub is_open : any (λ t. t == name) s.opened_tables ≡ true
    pub has_room : length s.opened_txs ≤ max_open_tx_count

  abbrev pub AllCanBegin : String → kvdb.Db → List (KvService kvdb) → Type 0
  AllCanBegin name db [] = Unit
  AllCanBegin name db (s ∷ ss) = CanBegin name db s × AllCanBegin name db ss

  with_tx-Mirror :
      (change : kvdb.Tx → Result KvError kvdb.Tx) (mid sid : ℕ) (m s : KvService kvdb)
      → Mirror mid m sid s
      → (with_tx kvdb change mid m).0 ≡ ok tt
      → Mirror mid (with_tx kvdb change mid m).1 sid (with_tx kvdb change sid s).1
  unfolding with_tx
  with_tx-Mirror change mid sid m s h done = elim (Result-cases (change h.tx)) [
    | inl (e, failed) ↦ cc (rw (h.of_master, with_tx, failed) at done)
    | inr (tx', changed) ↦
        rw (h.of_master, h.of_slave, with_tx, changed)
          (record {
            same_db = h.same_db;
            tx = tx';
            of_master = find_tx-set_tx mid tx' m.opened_txs h.of_master;
            of_slave = find_tx-set_tx sid tx' s.opened_txs h.of_slave;
          })
  ]

  pub through_slaves-Mirror :
      (links : ℕ → Link kvdb) (i : ℕ) (change : kvdb.Tx → Result KvError kvdb.Tx) (mid : ℕ)
      (m : KvService kvdb) (ids : List (Option ℕ)) (ss : List (KvService kvdb))
      → ((k : ℕ) → links k ≡ up)
      → AllMirror mid m ids ss
      → (with_tx kvdb change mid m).0 ≡ ok tt
      → AllMirror mid
          (with_tx kvdb change mid m).1
          ids
          (through_slaves kvdb links i (with_tx kvdb change) ids ss)
  unfolding through_slaves rpc
  through_slaves-Mirror links i change mid m [] [] reach h done = tt
  through_slaves-Mirror links i change mid m [] (s ∷ ss) reach h done = elim h [ ]
  through_slaves-Mirror links i change mid m (none ∷ ids) ss reach h done = elim h [ ]
  through_slaves-Mirror links i change mid m (some sid ∷ ids) [] reach h done = elim h [ ]
  through_slaves-Mirror links i change mid m (some sid ∷ ids) (s ∷ ss) reach h done =
      rw (reach i, rpc)
        (
          with_tx-Mirror change mid sid m s h.0 done,
          through_slaves-Mirror links (suc i) change mid m ids ss reach h.1 done,
        )

  commit-Mirror :
      (mid sid : ℕ) (m s : KvService kvdb)
      → Mirror mid m sid s
      → (commit_transaction kvdb mid m).0 ≡ ok tt
      → (commit_transaction kvdb sid s).1.db ≡ (commit_transaction kvdb mid m).1.db
  unfolding commit_transaction
  commit-Mirror mid sid m s h done = elim (Result-cases (kvdb.tx_commit h.tx m.db)) [
    | inl (e, failed) ↦ cc (rw (h.of_master, commit_transaction, failed) at done)
    | inr (db, fine) ↦ rw (h.of_master, h.of_slave, commit_transaction, h.same_db, fine) refl
  ]

  pub commit_slaves-AllSame :
      (links : ℕ → Link kvdb) (i mid : ℕ) (m : KvService kvdb) (ids : List (Option ℕ))
      (ss : List (KvService kvdb))
      → ((k : ℕ) → links k ≡ up)
      → AllMirror mid m ids ss
      → (commit_transaction kvdb mid m).0 ≡ ok tt
      → AllSame
          (commit_transaction kvdb mid m).1.db
          (through_slaves kvdb links i (commit_transaction kvdb) ids ss)
  unfolding through_slaves rpc
  commit_slaves-AllSame links i mid m [] [] reach h done = tt
  commit_slaves-AllSame links i mid m [] (s ∷ ss) reach h done = elim h [ ]
  commit_slaves-AllSame links i mid m (none ∷ ids) ss reach h done = elim h [ ]
  commit_slaves-AllSame links i mid m (some sid ∷ ids) [] reach h done = elim h [ ]
  commit_slaves-AllSame links i mid m (some sid ∷ ids) (s ∷ ss) reach h done =
      rw (reach i, rpc)
        (
          commit-Mirror mid sid m s h.0 done,
          commit_slaves-AllSame links (suc i) mid m ids ss reach h.1 done,
        )

  -- What a `Begin` that succeeds has done.
  pub record Began (name : String) (m : KvService kvdb) (mid : ℕ) : Type 0 where
    pub tx : kvdb.Tx
    pub begun : kvdb.begin name m.db ≡ ok tx
    pub number : mid ≡ suc m.next_tx_id
    pub after : (begin_transaction kvdb name m).1 ≡ record m {
      next_tx_id = suc m.next_tx_id;
      opened_txs = (suc m.next_tx_id, tx) ∷ m.opened_txs;
    }

  pub begin_transaction-Began :
      (name : String) (m : KvService kvdb) {mid : ℕ}
      → (begin_transaction kvdb name m).0 ≡ ok mid
      → Began name m mid
  unfolding begin_transaction
  begin_transaction-Began name m {mid = mid} h =
      elim (Bool-cases (not (any (λ t. t == name) m.opened_tables))) [
        | inl missing ↦ cc (rw (missing, begin_transaction) at h)
        | inr there ↦ elim (Bool-cases (ltb max_open_tx_count (length m.opened_txs))) [
          | inl full ↦ cc (rw (there, begin_transaction, full) at h)
          | inr room ↦ elim (Result-cases (kvdb.begin name m.db)) [
            | inl (e, failed) ↦ cc (rw (there, begin_transaction, room, failed) at h)
            | inr (tx, done) ↦
                let e = rw (there, begin_transaction, room, done) at h in
                record {
                  tx = tx;
                  begun = done;
                  number = cc e;
                  after = rw (there, begin_transaction, room, done) refl;
                }
          ]
        ]
      ]

  pub CanBegin-begun :
      (name : String) (db : kvdb.Db) (s : KvService kvdb) {tx : kvdb.Tx}
      → CanBegin name db s
      → kvdb.begin name db ≡ ok tx
      → begin_transaction kvdb name s ≡ (
        ok (suc s.next_tx_id),
        record s {
          next_tx_id = suc s.next_tx_id;
          opened_txs = (suc s.next_tx_id, tx) ∷ s.opened_txs;
        },
      )
  unfolding begin_transaction
  CanBegin-begun name db s {tx = tx} h done =
      let begun : kvdb.begin name s.db ≡ ok tx = ap (kvdb.begin name) h.has_db ∙ done in
      rw
        (
          h.is_open,
          begin_transaction,
          le→ltb max_open_tx_count (length s.opened_txs) h.has_room,
          begun,
        )
        refl

  pub begin_slaves-AllMirror :
      (links : ℕ → Link kvdb) (i : ℕ) (name : String) (m : KvService kvdb) (mid : ℕ)
      (ss : List (KvService kvdb))
      → ((k : ℕ) → links k ≡ up)
      → Began name m mid
      → AllCanBegin name m.db ss
      → AllMirror mid
          (begin_transaction kvdb name m).1
          (begin_slaves kvdb links i name ss).0
          (begin_slaves kvdb links i name ss).1
  unfolding begin_slaves rpc find_tx
  begin_slaves-AllMirror links i name m mid [] reach b h = tt
  begin_slaves-AllMirror links i name m mid (s ∷ ss) reach b h =
      rw (reach i, rpc, CanBegin-begun name m.db s h.0 b.begun)
        (
          record {
            same_db = h.0.has_db ∙ ap (λ x. x.db) (sym b.after);
            tx = b.tx;
            of_master = rw (b.after, b.number) (ground arith);
            of_slave = ground arith;
          },
          begin_slaves-AllMirror links (suc i) name m mid ss reach b h.1,
        )
