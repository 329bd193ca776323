-- ===== src/Zke/Validation/Equal.antt =====
-- Two sets that `Equal` finds equal have the same elements: it compares their sizes, and looks for the
-- elements of the one in the other only.
use gao_cloud.Prelude.{
  ◌≤◌, ◌<◌, ◌≡◌, ◌∙◌, sym, ap, inl, inr, refl, true, false, not, String, ◌==◌, eq_iff, List, [],
  ◌∷◌, arith, any, length, Bool-cases, lookup, insert, remove, lookup-remove,
}
use gao_cloud.Zke.Validation.{Node, StringSet, add_all, member, has_role, is_node_roles_chanage}
use gao_cloud.Zke.Validation.Sets.{member-insert, member-add_all}

abbrev NoRepeat : StringSet → Type 0
NoRepeat [] = Unit
NoRepeat (entry ∷ set) = (member entry.0 set ≡ false) × NoRepeat set

NoRepeat-insert : (x : String) (set : StringSet) → NoRepeat set → NoRepeat (insert x tt set)
unfolding insert lookup
NoRepeat-insert x [] h = (refl, tt)
NoRepeat-insert x (entry ∷ set) h = elim (Bool-cases (entry.0 == x)) [
  | inl hit ↦ rw hit (
      let same : entry.0 ≡ x = (eq_iff entry.0 x).0 hit in
      (ap (λ y. member y set) (sym same) ∙ h.0, h.1))
  | inr miss ↦ rw miss (
    ground (arith, h.0, member-insert x entry.0 set, miss, eq_iff entry.0 x, eq_iff x entry.0),
    NoRepeat-insert x set h.1,
  )
]

NoRepeat-add_all : (xs : List String) (set : StringSet) → NoRepeat set → NoRepeat (add_all xs set)
unfolding add_all
NoRepeat-add_all [] set h = h
NoRepeat-add_all (x ∷ xs) set h = NoRepeat-add_all xs (insert x tt set) (NoRepeat-insert x set h)

length-remove-le : (y : String) (set : StringSet) → length (remove y set) ≤ length set
unfolding remove
length-remove-le y [] = omega arith
length-remove-le y (entry ∷ set) = ground (arith, length-remove-le y set)

length-remove :
    (y : String) (set : StringSet) → member y set ≡ true → length (remove y set) < length set
unfolding remove lookup
length-remove y [] h = cc h
length-remove y (entry ∷ set) h = elim (Bool-cases (entry.0 == y)) [
  | inl hit ↦ ground (arith, hit, length-remove-le y set)
  | inr miss ↦ ground (arith, miss, length-remove y set (rw miss at h))
]

-- Every element of the one is in the other.
abbrev Within : StringSet → StringSet → Type 0
Within set other = (y : String) → member y set ≡ true → member y other ≡ true

Within-remove :
    (x : String) (set other : StringSet)
    → member x set ≡ false
    → Within set other
    → Within set (remove x other)
Within-remove x set other fresh h y m =
    let apart : (x == y) ≡ false = elim (Bool-cases (x == y)) [
      | inr miss ↦ miss
      | inl hit ↦ cc (ap (λ z. member z set) ((eq_iff x y).0 hit), fresh, m)
    ] in
    rw (lookup-remove x y other, apart) (h y m)

length-Within :
    (set other : StringSet) → NoRepeat set → Within set other → length set ≤ length other
unfolding lookup
length-Within [] other h w = omega arith
length-Within (entry ∷ set) other h w =
    let first : member entry.0 other ≡ true = w entry.0 (ground (arith, eq_iff entry.0 entry.0)) in
    let rest : Within set other = λ y m. w y (ground (arith, m)) in
    let r =
      length-Within set (remove entry.0 other) h.1 (Within-remove entry.0 set other h.0 rest) in
    omega (arith, r, length-remove entry.0 other first)

any-Within :
    (set other : StringSet)
    → any (λ entry. not (member entry.0 other)) set ≡ false
    → Within set other
unfolding lookup
any-Within [] other h y m = cc m
any-Within (entry ∷ set) other h y m = elim (Bool-cases (entry.0 == y)) [
  | inl hit ↦
      let same : entry.0 ≡ y = (eq_iff entry.0 y).0 hit in
      ap (λ z. member z other) (sym same) ∙ ground (arith, h)
  | inr miss ↦ any-Within set other (ground (arith, h)) y (rw miss at m)
]

-- A set without an element of another that it is within is smaller.
member-Within :
    (set other : StringSet) (y : String)
    → NoRepeat set
    → Within set other
    → length set ≡ length other
    → member y set ≡ member y other
member-Within set other y h w same = elim (Bool-cases (member y set)) [
  | inl there ↦ there ∙ sym (w y there)
  | inr fresh ↦ elim (Bool-cases (member y other)) [
    | inr none_there ↦ fresh ∙ sym none_there
    | inl extra ↦ absurd (
        omega (
          arith,
          length-Within set (remove y other) h (Within-remove y set other fresh w),
          length-remove y other extra,
          same,
        ))
  ]
]

-- Two nodes whose roles have not changed have the same roles.
pub is_node_roles_chanage-has_role :
    (old new : Node) (role : String)
    → is_node_roles_chanage old new ≡ false
    → has_role role new ≡ has_role role old
unfolding is_node_roles_chanage has_role lookup
is_node_roles_chanage-has_role old new role h =
    let new_set = add_all new.roles [] in
    let old_set = add_all old.roles [] in
    let same : length new_set ≡ length old_set = ground (arith, h) in
    let within = any-Within new_set old_set (ground (arith, h)) in
    let r = member-Within new_set old_set role (NoRepeat-add_all new.roles [] tt) within same in
    ground (arith, r, member-add_all role new.roles [], member-add_all role old.roles [])
