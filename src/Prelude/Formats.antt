-- ===== src/Prelude/Formats.antt =====
-- `strconv.FormatUint(id, 10)`, by which the tables' keys are made: a parameter that gives two
-- numbers two texts.
use Prim.Native.Nat.{ℕ}
use Prim.Native.String.{String}
use mathlib.Core.Path.{◌≡◌, ap, sym, ◌∙◌}
use mathlib.Core.Bool.{true, false}
use mathlib.Core.Logic.{inl, inr}
use native.Mathlib.Omega.{arith}
use text.Mathlib.Text.{◌==◌}
use text.Mathlib.TextEquality.{eq_iff}
use gao_cloud.Prelude.Tests.{nat_eq, nat_eq_iff, Bool-cases, if◌then◌else◌, is_some}
use gao_cloud.Prelude.Maps.{Map, lookup, insert, remove, lookup-insert, lookup-remove}

-- `FormatUint` gives two numbers two texts.
abbrev pub IsFormat : (ℕ → String) → Type 0
IsFormat uint_to_str = (a b : ℕ) → uint_to_str a ≡ uint_to_str b → a ≡ b

module _ {uint_to_str : ℕ → String} (format : IsFormat uint_to_str) where
  pub same_key : (a b : ℕ) → (uint_to_str a == uint_to_str b) ≡ nat_eq a b
  same_key a b = elim (Bool-cases (nat_eq a b)) [
    | inl e ↦
        rw e ((eq_iff (uint_to_str a) (uint_to_str b)).1 (ap uint_to_str ((nat_eq_iff a b).0 e)))
    | inr n ↦ elim (Bool-cases (uint_to_str a == uint_to_str b)) [
      | inl e ↦
          absurd (ground (arith, n, format a b ((eq_iff (uint_to_str a) (uint_to_str b)).0 e)))
      | inr ne ↦ ne ∙ sym n
    ]
  ]

  pub inserted :
      {V : Type 0} (id other : ℕ) (v : V) (m : Map V)
      → is_some (lookup (uint_to_str other) (insert (uint_to_str id) v m))
        ≡ (if nat_eq id other then true else is_some (lookup (uint_to_str other) m))
  inserted id other v m =
      ground (arith, lookup-insert (uint_to_str id) (uint_to_str other) v m, same_key id other)

  pub removed :
      {V : Type 0} (id other : ℕ) (m : Map V)
      → is_some (lookup (uint_to_str other) (remove (uint_to_str id) m))
        ≡ (if nat_eq id other then false else is_some (lookup (uint_to_str other) m))
  removed id other m =
      ground (arith, lookup-remove (uint_to_str id) (uint_to_str other) m, same_key id other)
