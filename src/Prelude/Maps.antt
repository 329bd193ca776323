-- ===== src/Prelude/Maps.antt =====
-- Go's `map[string]T`, and a key-value table, as an association list with one entry for a key.
use Prim.Native.String.{String}
use mathlib.Core.Path.{◌≡◌, refl}
use mathlib.Core.Option.{Option, none, some}
use mathlib.Core.List.{List, [], ◌∷◌}
use native.Mathlib.Omega.{arith}
use text.Mathlib.Text.{◌==◌}
use text.Mathlib.TextEquality.{eq_iff}
use gao_cloud.Prelude.Tests.{if◌then◌else◌}

abbrev pub Map {ℓ} : Type ℓ → Type ℓ
Map V = List (String × V)

module _ {ℓ} {V : Type ℓ} where
  -- `m[key]`, with Go's second result.
  unfoldable pub lookup : String → Map V → Option V
  lookup key [] = none
  lookup key (entry ∷ m) = if entry.0 == key then some entry.1 else lookup key m

  -- `delete(m, key)`
  unfoldable pub remove : String → Map V → Map V
  remove key [] = []
  remove key (entry ∷ m) = let rest = remove key m in if entry.0 == key then rest else entry ∷ rest

  -- `m[key] = value`, in the place of an entry that is there, else at the end.
  unfoldable pub insert : String → V → Map V → Map V
  insert key value [] = (key, value) ∷ []
  insert key value (entry ∷ m) =
      if entry.0 == key then (key, value) ∷ m else entry ∷ insert key value m

  pub lookup-remove :
      (key other : String) (m : Map V)
      → lookup other (remove key m) ≡ (if key == other then none else lookup other m)
  unfolding lookup remove
  lookup-remove key other [] = ground arith
  lookup-remove key other (entry ∷ m) =
      let rest = lookup-remove key other m in
      ground (arith, rest, eq_iff entry.0 key, eq_iff entry.0 other, eq_iff key other)

  pub lookup-insert :
      (key other : String) (value : V) (m : Map V)
      → lookup other (insert key value m) ≡ (if key == other then some value else lookup other m)
  unfolding lookup insert
  lookup-insert key other value [] = refl
  lookup-insert key other value (entry ∷ m) =
      let rest = lookup-insert key other value m in
      ground (arith, rest, eq_iff entry.0 key, eq_iff entry.0 other, eq_iff key other)

pub ruleset map_laws = (lookup-insert, lookup-remove)
