-- ===== src/Kvzoo/Bolt/Examples.antt =====
-- A bucket that is an association list and takes every write.
use gao_cloud.Prelude.{
  ◌≡◌, refl, sym, ap, ◌∙◌, ℕ, some, [], ◌∷◌, Map, lookup, insert, remove, lookup-insert,
  lookup-remove,
}
use gao_cloud.Kvzoo
use gao_cloud.Kvzoo.Bolt
use gao_cloud.Kvzoo.Bolt.{Bbolt, Agree, takes, add-Agree, update-Agree, delete-Agree, get-eq}

some-inj : {V : Type 0} {a b : V} → some a ≡ some b → a ≡ b
some-inj e = cc

abbrev list_bbolt : Bbolt ℕ
list_bbolt = record {
  Bucket = Map ℕ;
  bucket_get = λ b k. lookup k b;
  bucket_put = λ b k v. some (insert k v b);
  bucket_delete = λ b k. some (remove k b);
  get-put = λ b k j v e. ap (lookup j) (sym (some-inj e)) ∙ lookup-insert k j v b;
  get-delete = λ b k j e. ap (lookup j) (sym (some-inj e)) ∙ lookup-remove k j b;
}

abbrev users : Map ℕ
users = ("admin", 1) ∷ ("gao", 2) ∷ []

add-Agree_example :
    Agree list_bbolt
      (Bolt.add list_bbolt users "li" 3)
      (Kvzoo.add (takes list_bbolt (some (insert "li" 3 users))) "li" 3 users)
add-Agree_example = add-Agree list_bbolt users users "li" 3 (λ k. refl)
