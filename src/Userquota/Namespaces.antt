-- ===== src/Userquota/Namespaces.antt =====
-- The test of a namespace's name, which compares a count of matches with a count of bytes.
use gao_cloud.Prelude.{
  ℕ, ◌≤◌, ◌≡◌, ◌↔◌, refl, Bool, true, ◌&&◌, String, List, [], ◌∷◌, arith, nat_eq_iff,
}
use gao_cloud.Userquota.Quota.{
  code_points, matches, bytes, is_namespace_char, utf8_size, is_valid_namespace,
}

abbrev pub all_allowed : List ℕ → Bool
all_allowed [] = true
all_allowed (c ∷ cs) = is_namespace_char c && all_allowed cs

matches-le-bytes : (cs : List ℕ) → matches cs ≤ bytes cs
unfolding matches bytes utf8_size
matches-le-bytes [] = omega arith
matches-le-bytes (c ∷ cs) = ground (arith, matches-le-bytes cs)

utf8_size-allowed : (c : ℕ) → is_namespace_char c ≡ true → utf8_size c ≡ 1
unfolding is_namespace_char utf8_size
utf8_size-allowed c h = ground arith

utf8_size-pos : (c : ℕ) → 1 ≤ utf8_size c
unfolding utf8_size
utf8_size-pos c = ground arith

matches-eq-bytes : (cs : List ℕ) → (matches cs ≡ bytes cs) ↔ (all_allowed cs ≡ true)
unfolding matches bytes
matches-eq-bytes [] = (λ h. refl, λ h. refl)
matches-eq-bytes (c ∷ cs) =
    let below = matches-le-bytes cs in
    let pos = utf8_size-pos c in
    let one = utf8_size-allowed c in
    let rest = matches-eq-bytes cs in
    (λ h. ground (arith, below, pos, one, rest), λ h. ground (arith, one, rest))

-- A name passes the test exactly where each of its characters is a lower-case letter, a digit or a
-- dash; the empty name passes.
is_valid_namespace_iff :
    (s : String) → (is_valid_namespace s ≡ true) ↔ (all_allowed (code_points s) ≡ true)
unfolding is_valid_namespace
is_valid_namespace_iff s =
    let counts = matches-eq-bytes (code_points s) in
    let test = nat_eq_iff (matches (code_points s)) (bytes (code_points s)) in
    (λ h. counts.0 (test.0 h), λ h. test.1 (counts.1 h))
