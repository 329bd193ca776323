-- ===== src/Kvzoo.antt =====
-- kvzoo/db.go: the contract of a table and of its transactions. The interface says nothing of a key
-- that is there or missing; that is as kvzoo/backend/bolt/bolt.go answers it. A table is a finite map of the values that its users store; their JSON form is not modelled.
-- The database may refuse to begin, to write or to commit: that is the environment's choice, and a
-- transaction that is not committed leaves no trace.
pub mod Bolt
pub mod Server
pub mod Client
use gao_cloud.Prelude.{
  Bool, ◌&&◌, Option, none, some, String, Result, ok, err, guard, or_err, ◌>>=◌, ◌>>◌, Map, lookup,
  insert, remove,
}

pub data KvError : Type 0 where
  begin_failed write_failed commit_failed duplicate not_found : KvError

-- What the database does with one transaction.
pub record Faults : Type 0 where
  pub begins : Bool
  pub writes : Bool
  pub commits : Bool

-- Nothing goes wrong in the transaction.
abbrev pub fine : Faults → Bool
fine f = f.begins && (f.writes && f.commits)

module _ {V : Type 0} where
  unfoldable pub add : Faults → String → V → Map V → Result KvError (Map V)
  add f key value t = elim (lookup key t) [
    | some v ↦ err duplicate
    | none ↦ do guard f.writes write_failed; ok (insert key value t)
  ]

  -- A key that is not there is no error.
  unfoldable pub delete : Faults → String → Map V → Result KvError (Map V)
  delete f key t = do guard f.writes write_failed; ok (remove key t)

  unfoldable pub update : Faults → String → V → Map V → Result KvError (Map V)
  update f key value t = elim (lookup key t) [
    | none ↦ err not_found
    | some v ↦ do guard f.writes write_failed; ok (insert key value t)
  ]

  unfoldable pub get : String → Map V → Result KvError V
  get key t = or_err (lookup key t) not_found

  -- `tx := Begin(); defer tx.Rollback(); …; tx.Commit()`: the table after a commit, or an error,
  -- and then the table is what it was.
  abbrev pub transact : Faults → (Map V → Result KvError (Map V)) → Map V → Result KvError (Map V)
  transact f body t = do
    guard f.begins begin_failed
    t' ← body t
    guard f.commits commit_failed
    ok t'
