-- ===== src/Prelude/Checks.antt =====
-- Checks that a Go function makes one after the other, returning the first error.
use Prim.Native.Nat.{ℕ, zero, suc, ◌+◌}
use mathlib.Core.Path.{◌≡◌, refl, sym, ap, subst, ◌∙◌}
use mathlib.Core.Logic.{◌↔◌, inl, inr}
use mathlib.Core.Bool.{Bool, true, false}
use mathlib.Core.Option.{Option, none, some}
use mathlib.Core.List.{List, [], ◌∷◌, Memᴰ}
use native.Mathlib.Omega.{arith}
use text.Mathlib.Text.{◌==◌}
use Prim.Native.String.{String}
use gao_cloud.Prelude.Results.{Result, ok, err, guard, ◌>>◌}
use gao_cloud.Prelude.Lists.{any}
use gao_cloud.Prelude.Tests.{Bool-cases}

abbrev pub get_elem? {ℓ} : {A : Type ℓ} → List A → ℕ → Option A
get_elem? [] n = none
get_elem? (x ∷ xs) zero = some x
get_elem? (x ∷ xs) (suc n) = get_elem? xs n

-- The test passes.
abbrev pub Passes : {E : Type 0} → Result E (Unit {0}) → Type 0
Passes r = r ≡ ok tt

pub Passes-guard : {E : Type 0} (t : Bool) (e : E) → Passes (guard t e) ↔ (t ≡ true)
Passes-guard t e = ground arith

pub Passes-then : {E : Type 0} (r s : Result E (Unit {0})) → Passes (r >> s) ↔ (Passes r × Passes s)
Passes-then (ok tt) s = (λ h. (refl, h), λ h. h.1)
Passes-then (err e) s = (λ h. cc h, λ h. cc h.0)

module _ {E A : Type 0} where
  -- `for _, x := range xs { if err := check(x); err != nil { return err } }`
  unfoldable pub each : (A → Result E (Unit {0})) → List A → Result E (Unit {0})
  each check [] = ok tt
  each check (x ∷ xs) = let rest = each check xs in check x >> rest

  -- The same, with the place of the element.
  unfoldable pub each_at : (ℕ → A → Result E (Unit {0})) → ℕ → List A → Result E (Unit {0})
  each_at check i [] = ok tt
  each_at check i (x ∷ xs) = let rest = each_at check (suc i) xs in check i x >> rest

  each-Memᴰ :
      (check : A → Result E (Unit {0})) (xs : List A) (y : A)
      → Passes (each check xs)
      → Memᴰ y xs
      → Passes (check y)
  unfolding each
  each-Memᴰ check [] y h m = elim m [ ]
  each-Memᴰ check (x ∷ xs) y h (Memᴰ.head e) =
      subst (λ z. Passes (check z)) (sym e) ((Passes-then (check x) (each check xs)).0 h).0
  each-Memᴰ check (x ∷ xs) y h (Memᴰ.tail m) =
      each-Memᴰ check xs y ((Passes-then (check x) (each check xs)).0 h).1 m

  -- All pass where each does.
  pub Passes-each :
      (check : A → Result E (Unit {0})) (xs : List A)
      → Passes (each check xs) ↔ ((x : A) → Memᴰ x xs → Passes (check x))
  unfolding each
  Passes-each check [] = (λ h x m. elim m [ ], λ h. refl)
  Passes-each check (x ∷ xs) = (
    λ h y m. each-Memᴰ check (x ∷ xs) y h m,
    λ h.
        (Passes-then (check x) (each check xs)).1
          (h x (Memᴰ.head refl), (Passes-each check xs).1 (λ y m. h y (Memᴰ.tail m))),
  )

  each_at-get_elem? :
      (check : ℕ → A → Result E (Unit {0})) (i : ℕ) (xs : List A) (k : ℕ) (y : A)
      → Passes (each_at check i xs)
      → get_elem? xs k ≡ some y
      → Passes (check (i + k) y)
  unfolding each_at
  each_at-get_elem? check i [] k y h e = cc e
  each_at-get_elem? check i (x ∷ xs) zero y h e =
      let first = ((Passes-then (check i x) (each_at check (suc i) xs)).0 h).0 in
      let same : x ≡ y = cc e in
      let here : i ≡ i + 0 = omega arith in
      subst (λ n. Passes (check n y)) here (subst (λ z. Passes (check i z)) same first)
  each_at-get_elem? check i (x ∷ xs) (suc k) y h e =
      let rest = ((Passes-then (check i x) (each_at check (suc i) xs)).0 h).1 in
      let next : suc i + k ≡ i + suc k = omega arith in
      subst (λ n. Passes (check n y)) next (each_at-get_elem? check (suc i) xs k y rest e)

  Passes-each_at :
      (check : ℕ → A → Result E (Unit {0})) (i : ℕ) (xs : List A)
      → Passes (each_at check i xs)
        ↔ ((k : ℕ) (x : A) → get_elem? xs k ≡ some x → Passes (check (i + k) x))
  unfolding each_at
  Passes-each_at check i [] = (λ h k x e. cc e, λ h. refl)
  Passes-each_at check i (x ∷ xs) = (
    λ h k y e. each_at-get_elem? check i (x ∷ xs) k y h e,
    λ h. (Passes-then (check i x) (each_at check (suc i) xs)).1 (
      (let here : i + 0 ≡ i = omega arith in subst (λ n. Passes (check n x)) here (h 0 x refl)),
      (Passes-each_at check (suc i) xs).1 (λ k y e.
          let next : i + suc k ≡ suc i + k = omega arith in
          subst (λ n. Passes (check n y)) next (h (suc k) y e)),
    ),
  )

  pub Passes-each_place :
      (check : ℕ → A → Result E (Unit {0})) (xs : List A)
      → Passes (each_at check 0 xs)
        ↔ ((k : ℕ) (x : A) → get_elem? xs k ≡ some x → Passes (check k x))
  Passes-each_place check xs =
      let place : (k : ℕ) → 0 + k ≡ k = λ k. omega arith in
      (
        λ h k x e.
            subst (λ n. Passes (check n x)) (place k) ((Passes-each_at check 0 xs).0 h k x e),
        λ h.
            (Passes-each_at check 0 xs).1
              (λ k x e. subst (λ n. Passes (check n x)) (sym (place k)) (h k x e)),
      )

-- Texts of which no two are equal.
abbrev pub Distinct : List String → Type 0
Distinct [] = Unit
Distinct (x ∷ xs) = (any (λ y. x == y) xs ≡ false) × Distinct xs

-- A test of the elements finds one that has it.
pub any-Memᴰ :
    {A : Type 0} (p : A → Bool) (xs : List A)
    → any p xs ≡ true
    → (x : A) × (Memᴰ x xs × (p x ≡ true))
any-Memᴰ p [] h = cc h
any-Memᴰ p (x ∷ xs) h = elim (Bool-cases (p x)) [
  | inl hit ↦ (x, (Memᴰ.head refl, hit))
  | inr miss ↦ let r = any-Memᴰ p xs (rw miss at h) in (r.0, (Memᴰ.tail r.1.0, r.1.1))
]

pub any-some :
    {A : Type 0} (p : A → Bool) (xs : List A) (x : A) → Memᴰ x xs → p x ≡ true → any p xs ≡ true
any-some p [] x m h = elim m [ ]
any-some p (y ∷ xs) x (Memᴰ.head e) h = let here : p y ≡ true = ap p (sym e) ∙ h in rw here refl
any-some p (y ∷ xs) x (Memᴰ.tail m) h = ground (arith, any-some p xs x m h)

pub any-found :
    {A : Type 0} (p : A → Bool) (xs : List A)
    → (x : A) × (Memᴰ x xs × (p x ≡ true))
    → any p xs ≡ true
any-found p xs found = any-some p xs found.0 found.1.0 found.1.1
