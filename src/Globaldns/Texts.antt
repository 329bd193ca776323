-- ===== src/Globaldns/Texts.antt =====
-- pkg/globaldns/clusterdnssyncer.go: lists of texts, of which the first that is equal is removed.

use gao_cloud.Prelude.{
  ◌≡◌, refl, ◌∙◌, inl, inr, Bool, true, false, not, ◌&&◌, ◌||◌, String, ◌==◌, List, [], ◌∷◌, ◌++◌,
  any, arith, eq_iff, Distinct, Bool-cases,
}
use gao_cloud.Globaldns.Syncer.{remove_first, remove_each}

-- The text is among those of the list.
abbrev pub has : String → List String → Bool
has d xs = any (λ x. x == d) xs

pub has-append : (d : String) (xs ys : List String) → has d (xs ++ ys) ≡ (has d xs || has d ys)
has-append d [] ys = refl
has-append d (x ∷ xs) ys = ground (arith, has-append d xs ys)

-- The two directions of the comparison.
pub has_flip : (x : String) (xs : List String) → any (λ y. x == y) xs ≡ has x xs
has_flip x [] = refl
has_flip x (y ∷ ys) = ground (arith, has_flip x ys, eq_iff x y, eq_iff y x)

has_same : (x d : String) (xs : List String) → (x == d) ≡ true → has x xs ≡ has d xs
has_same x d xs h = let e : x ≡ d = (eq_iff x d).0 h in rw e refl

pub has_one : (x d : String) (xs : List String) → has d (x ∷ []) ≡ true → has d xs ≡ has x xs
has_one x d xs h = let e : x ≡ d = (eq_iff x d).0 (ground (arith, h)) in rw e refl

pub has-remove_first :
    (x d : String) (xs : List String)
    → Distinct xs
    → has d (remove_first x xs) ≡ (has d xs && not (x == d))
unfolding remove_first
has-remove_first x d [] h = refl
has-remove_first x d (y ∷ ys) h = ground (
  arith,
  has-remove_first x d ys h.1,
  has_flip y ys,
  has_same y d ys,
  eq_iff x d,
  eq_iff y d,
  eq_iff y x,
)

pub remove_first-Distinct :
    (x : String) (xs : List String) → Distinct xs → Distinct (remove_first x xs)
unfolding remove_first
remove_first-Distinct x [] h = h
remove_first-Distinct x (y ∷ ys) h = elim (Bool-cases (y == x)) [
  | inl same ↦ rw same h.1
  | inr other ↦
      let kept : any (λ z. y == z) (remove_first x ys) ≡ false =
        has_flip y (remove_first x ys)
        ∙ ground (arith, has-remove_first x y ys h.1, has_flip y ys) in
      rw other (kept, remove_first-Distinct x ys h.1)
]

pub has-remove_each :
    (ds : List String) (d : String) (xs : List String)
    → Distinct xs
    → (has d (remove_each ds xs) ≡ (has d xs && not (has d ds))) × Distinct (remove_each ds xs)
unfolding remove_each
has-remove_each [] d xs h = (ground arith, h)
has-remove_each (x ∷ ds) d xs h =
    let first = has-remove_first x d xs h in
    let rest = has-remove_each ds d (remove_first x xs) (remove_first-Distinct x xs h) in
    (ground (arith, first, rest.0), rest.1)

pub append-Distinct :
    (xs ys : List String)
    → Distinct xs
    → Distinct ys
    → ((d : String) → has d ys ≡ true → has d xs ≡ false)
    → Distinct (xs ++ ys)
append-Distinct [] ys hx hy apart = hy
append-Distinct (x ∷ xs) ys hx hy apart =
    let same : (x == x) ≡ true = (eq_iff x x).1 refl in
    let not_there : has x (xs ++ ys) ≡ false =
      ground (arith, has-append x xs ys, has_flip x xs, apart x, same, hx.0) in
    (
      has_flip x (xs ++ ys) ∙ not_there,
      append-Distinct xs ys hx.1 hy (λ d h. ground (arith, apart d h)),
    )
