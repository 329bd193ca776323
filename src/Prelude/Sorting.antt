-- ===== src/Prelude/Sorting.antt =====
-- `sort.Sort` on a slice whose elements compare by a number, and the order that it leaves.
use Prim.Native.Nat.{ℕ, ◌<◌}
use mathlib.Core.Path.{◌≡◌, refl, ap, ◌∙◌}
use mathlib.Core.List.{List, [], ◌∷◌, ◌++◌}
use native.Mathlib.Omega.{arith}
use gao_cloud.Prelude.Tests.{if◌then◌else◌, leb}

module _ {A : Type 0} (key : A → ℕ) where
  abbrev pub insert_by : A → List A → List A
  insert_by x [] = x ∷ []
  insert_by x (y ∷ ys) =
      let rest = insert_by x ys in if leb (key x) (key y) then x ∷ y ∷ ys else y ∷ rest

  abbrev pub sort_by : List A → List A
  sort_by [] = []
  sort_by (x ∷ xs) = insert_by x (sort_by xs)

  -- Every key of the list is below a number.
  abbrev pub AllBelow : ℕ → List A → Type 0
  AllBelow n [] = Unit
  AllBelow n (x ∷ xs) = (key x < n) × AllBelow n xs

  -- The keys fall from the head on.
  abbrev pub Falling : List A → Type 0
  Falling [] = Unit
  Falling (x ∷ xs) = AllBelow (key x) xs × Falling xs

  pub AllBelow-append_one :
      (n : ℕ) (xs : List A) (x : A) → AllBelow n xs → key x < n → AllBelow n (xs ++ x ∷ [])
  AllBelow-append_one n [] x h p = (p, tt)
  AllBelow-append_one n (y ∷ ys) x h p = (h.0, AllBelow-append_one n ys x h.1 p)

  insert_by-last : (x : A) (xs : List A) → AllBelow (key x) xs → insert_by x xs ≡ xs ++ x ∷ []
  insert_by-last x [] h = refl
  insert_by-last x (y ∷ ys) h = ground (arith, insert_by-last x ys h.1)

  abbrev pub turned : List A → List A
  turned [] = []
  turned (x ∷ xs) = turned xs ++ x ∷ []

  turned-AllBelow : (n : ℕ) (xs : List A) → AllBelow n xs → AllBelow n (turned xs)
  turned-AllBelow n [] h = tt
  turned-AllBelow n (x ∷ xs) h = AllBelow-append_one n (turned xs) x (turned-AllBelow n xs h.1) h.0

  -- A slice whose keys fall is sorted by turning it round.
  pub sort_by-Falling : (xs : List A) → Falling xs → sort_by xs ≡ turned xs
  sort_by-Falling [] h = refl
  sort_by-Falling (x ∷ xs) h =
      ap (insert_by x) (sort_by-Falling xs h.1)
      ∙ insert_by-last x (turned xs) (turned-AllBelow (key x) xs h.0)
