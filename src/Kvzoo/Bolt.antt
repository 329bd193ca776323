-- ===== src/Kvzoo/Bolt.antt =====
-- kvzoo/backend/bolt/bolt.go: the transaction of a table over a bucket of bbolt, which is a
-- parameter with its documented behaviour, and the proof that it keeps the contract of kvzoo/db.go.
mod Examples
use gao_cloud.Prelude.{
  ◌≡◌, refl, Bool, true, false, Option, none, some, String, ◌==◌, if◌then◌else◌, List, [], ◌∷◌,
  arith, Result, ok, err, or_err, guard, ◌>>◌, ◌>>=◌, sym, ◌∙◌, is_some, Map, lookup, insert,
  remove, lookup-insert, lookup-remove, Option-cases, inl, inr,
}
use gao_cloud.Kvzoo
use gao_cloud.Kvzoo.{
  KvError, Faults, write_failed, duplicate, not_found, begin_failed, commit_failed,
}

-- A bucket: `Put` and `Delete` may be refused (`none`), else they change the one key; `Delete` of a
-- key that is not there succeeds.
pub record Bbolt (V : Type 0) : Type 1 where
  pub Bucket : Type 0
  pub bucket_get : Bucket → String → Option V
  pub bucket_put : Bucket → String → V → Option Bucket
  pub bucket_delete : Bucket → String → Option Bucket
  pub get-put :
      (b : Bucket) (k j : String) (v : V) {b' : Bucket}
      → bucket_put b k v ≡ some b'
      → bucket_get b' j ≡ (if k == j then some v else bucket_get b j)
  pub get-delete :
      (b : Bucket) (k j : String) {b' : Bucket}
      → bucket_delete b k ≡ some b'
      → bucket_get b' j ≡ (if k == j then none else bucket_get b j)

module _ {V : Type 0} (bbolt : Bbolt V) where
  open bbolt use {Bucket, bucket_get, bucket_put, bucket_delete}

  unfoldable pub add : Bucket → String → V → Result KvError Bucket
  add b key value = elim (bucket_get b key) [
    | some v ↦ err duplicate
    | none ↦ or_err (bucket_put b key value) write_failed
  ]

  unfoldable pub delete : Bucket → String → Result KvError Bucket
  delete b key = or_err (bucket_delete b key) write_failed

  unfoldable pub update : Bucket → String → V → Result KvError Bucket
  update b key value = elim (bucket_get b key) [
    | none ↦ err not_found
    | some v ↦ or_err (bucket_put b key value) write_failed
  ]

  unfoldable pub get : Bucket → String → Result KvError V
  get b key = elim (bucket_get b key) [ some v ↦ ok v | none ↦ err not_found ]

  -- The bucket holds what the table of the contract holds.
  abbrev pub Represents : Bucket → Map V → Type 0
  Represents b t = (k : String) → bucket_get b k ≡ lookup k t

  -- The two results agree: the same error, or two states of which one represents the other.
  abbrev pub Agree : Result KvError Bucket → Result KvError (Map V) → Type 0
  Agree (ok b) (ok t) = Represents b t
  Agree (err x) (err y) = x ≡ y
  Agree (ok b) (err y) = ⊥
  Agree (err x) (ok t) = ⊥

  -- Whether bbolt takes the write, as the contract's environment has it.
  abbrev pub takes : Option Bucket → Faults
  takes o = record { begins = true; writes = is_some o; commits = true }

  put-Agree :
      (b : Bucket) (t : Map V) (key : String) (value : V)
      → Represents b t
      → (o : Option Bucket) → bucket_put b key value ≡ o
      → Agree (or_err o write_failed) (guard (is_some o) write_failed >> ok (insert key value t))
  put-Agree b t key value r none e = refl
  put-Agree b t key value r (some b') e =
      λ k. bbolt.get-put b key k value e ∙ rw (r k) (sym (lookup-insert key k value t))

  -- Over a bucket that holds what a table holds, `add` gives the error that the contract's `add`
  -- gives for the table, or a bucket that holds what the contract's new table holds; the write
  -- fails in the contract where bbolt refuses it.
  pub add-Agree :
      (b : Bucket) (t : Map V) (key : String) (value : V)
      → Represents b t
      → Agree (add b key value) (Kvzoo.add (takes (bucket_put b key value)) key value t)
  unfolding add Kvzoo.add
  add-Agree b t key value r = elim (Option-cases (lookup key t)) [
    | inl free ↦
        rw (r key ∙ free, add, free, Kvzoo.add)
          (put-Agree b t key value r (bucket_put b key value) refl)
    | inr (v, taken) ↦ rw (r key ∙ taken, add, taken, Kvzoo.add) refl
  ]

  -- Over a bucket that holds what a table holds, `update` gives the error that the contract's
  -- `update` gives for the table, or a bucket that holds what the contract's new table holds; the
  -- write fails in the contract where bbolt refuses it.
  pub update-Agree :
      (b : Bucket) (t : Map V) (key : String) (value : V)
      → Represents b t
      → Agree (update b key value) (Kvzoo.update (takes (bucket_put b key value)) key value t)
  unfolding update Kvzoo.update
  update-Agree b t key value r = elim (Option-cases (lookup key t)) [
    | inl free ↦ rw (r key ∙ free, update, free, Kvzoo.update) refl
    | inr (v, taken) ↦
        rw (r key ∙ taken, update, taken, Kvzoo.update)
          (put-Agree b t key value r (bucket_put b key value) refl)
  ]

  delete_of :
      (b : Bucket) (t : Map V) (key : String)
      → Represents b t
      → (o : Option Bucket) → bucket_delete b key ≡ o
      → Agree (or_err o write_failed) (guard (is_some o) write_failed >> ok (remove key t))
  delete_of b t key r none e = refl
  delete_of b t key r (some b') e =
      λ k. bbolt.get-delete b key k e ∙ rw (r k) (sym (lookup-remove key k t))

  -- Over a bucket that holds what a table holds, `delete` gives the error that the contract's
  -- `delete` gives for the table, or a bucket that holds what the contract's new table holds; the
  -- write fails in the contract where bbolt refuses it.
  pub delete-Agree :
      (b : Bucket) (t : Map V) (key : String)
      → Represents b t
      → Agree (delete b key) (Kvzoo.delete (takes (bucket_delete b key)) key t)
  unfolding delete Kvzoo.delete
  delete-Agree b t key r = delete_of b t key r (bucket_delete b key) refl

  -- `Get` keeps the contract: the same value, or the same error.
  pub get-eq :
      (b : Bucket) (t : Map V) (key : String) → Represents b t → get b key ≡ Kvzoo.get key t
  unfolding get Kvzoo.get
  get-eq b t key r = ground (arith, r key)
