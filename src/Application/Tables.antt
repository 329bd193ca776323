-- ===== src/Application/Tables.antt =====
-- Go's `map[string]map[string]T`, with an inner map that is made when it is missing.
use gao_cloud.Prelude.{
  ◌≡◌, refl, ap, inl, inr, ◌&&◌, Option, none, some, String, ◌==◌, [], if◌then◌else◌, Map, lookup,
  insert, remove, lookup-insert, lookup-remove, arith, eq_iff, Option-cases, Bool-cases,
}

module _ {V : Type 0} where
  unfoldable pub inner : String → Map (Map V) → Map V
  inner a m = elim (lookup a m) [ none ↦ [] | some t ↦ t ]

  -- `m[a][b]`
  unfoldable pub lookup2 : String → String → Map (Map V) → Option V
  unfolding inner
  lookup2 a b m = lookup b (inner a m)

  unfoldable pub insert2 : String → String → V → Map (Map V) → Map (Map V)
  unfolding inner
  insert2 a b v m = insert a (insert b v (inner a m)) m

  -- `delete(m[a], b)`, which does nothing when there is no inner map.
  unfoldable pub remove2 : String → String → Map (Map V) → Map (Map V)
  remove2 a b m = elim (lookup a m) [ none ↦ m | some t ↦ insert a (remove b t) m ]

  inner-insert :
      (a a' : String) (t : Map V) (m : Map (Map V))
      → inner a' (insert a t m) ≡ (if a == a' then t else inner a' m)
  unfolding inner
  inner-insert a a' t m = ground (arith, lookup-insert a a' t m)

  inner-none : (a : String) (m : Map (Map V)) → lookup a m ≡ none → inner a m ≡ []
  unfolding inner
  inner-none a m h = rw (h, inner) refl

  inner-some : (a : String) (t : Map V) (m : Map (Map V)) → lookup a m ≡ some t → inner a m ≡ t
  unfolding inner
  inner-some a t m h = rw (h, inner) refl

  lookup-nil : (b : String) → let nothing : Map V = [] in lookup b nothing ≡ none
  unfolding lookup
  lookup-nil b = refl

  pub lookup2-insert2 :
      (a b a' b' : String) (v : V) (m : Map (Map V))
      → lookup2 a' b' (insert2 a b v m) ≡ (if a == a' && b == b' then some v else lookup2 a' b' m)
  unfolding lookup2 insert2
  lookup2-insert2 a b a' b' v m = elim (Bool-cases (a == a')) [
    | inl same ↦
        let e : a ≡ a' = (eq_iff a a').0 same in
        ground (
          arith,
          same,
          ap (lookup b') (inner-insert a a' (insert b v (inner a m)) m),
          lookup-insert b b' v (inner a m),
          ap (λ x. lookup b' (inner x m)) e,
        )
    | inr other ↦
        ground (arith, other, ap (lookup b') (inner-insert a a' (insert b v (inner a m)) m))
  ]

  pub lookup2-remove2 :
      (a b a' b' : String) (m : Map (Map V))
      → lookup2 a' b' (remove2 a b m) ≡ (if a == a' && b == b' then none else lookup2 a' b' m)
  unfolding lookup2 remove2
  lookup2-remove2 a b a' b' m = elim (Option-cases (lookup a m)) [
    | inl missing ↦
        rw (missing, remove2)
          (elim (Bool-cases (a == a')) [
            | inl same ↦
                let e : a ≡ a' = (eq_iff a a').0 same in
                ground (
                  arith,
                  same,
                  ap (λ x. lookup b' (inner x m)) e,
                  ap (lookup b') (inner-none a m missing),
                  lookup-nil b',
                )
            | inr other ↦ ground (arith, other)
          ])
    | inr (t, there) ↦
        rw (there, remove2)
          (elim (Bool-cases (a == a')) [
            | inl same ↦
                let e : a ≡ a' = (eq_iff a a').0 same in
                ground (
                  arith,
                  same,
                  ap (lookup b') (inner-insert a a' (remove b t) m),
                  lookup-remove b b' t,
                  ap (λ x. lookup b' (inner x m)) e,
                  ap (lookup b') (inner-some a t m there),
                )
            | inr other ↦ ground (arith, other, ap (lookup b') (inner-insert a a' (remove b t) m))
          ])
  ]
