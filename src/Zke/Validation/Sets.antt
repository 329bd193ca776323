-- ===== src/Zke/Validation/Sets.antt =====
-- The sets of texts that the validation builds: what is in them, and when they are as large as the
-- list they are made of.
use gao_cloud.Prelude.{
  suc, ◌+◌, ◌≤◌, ◌≡◌, ◌↔◌, inl, inr, refl, false, ◌||◌, ◌&&◌, String, ◌==◌, List, [], ◌∷◌, arith,
  any, length, if◌then◌else◌, Bool-cases, lookup, insert, lookup-insert, Distinct,
}
use gao_cloud.Zke.Validation.{
  Node, StringSet, add_all, member, has_role, role_control_plane, is_node_role_duplicate,
}
use gao_cloud.Zke.Validation.Change.{cp_hosts}

pub member-insert :
    (x y : String) (set : StringSet) → member y (insert x tt set) ≡ (x == y || member y set)
member-insert x y set = elim (Bool-cases (x == y)) [
  | inl hit ↦ rw (lookup-insert x y tt set, hit) refl
  | inr miss ↦ rw (lookup-insert x y tt set, miss) refl
]

pub member-add_all :
    (y : String) (xs : List String) (set : StringSet)
    → member y (add_all xs set) ≡ (any (λ x. x == y) xs || member y set)
unfolding add_all
member-add_all y [] set = refl
member-add_all y (x ∷ xs) set =
    ground (arith, member-add_all y xs (insert x tt set), member-insert x y set)

length-insert :
    (x : String) (set : StringSet)
    → length (insert x tt set) ≡ (if member x set then length set else suc (length set))
unfolding insert lookup
length-insert x [] = refl
length-insert x (entry ∷ set) = ground (arith, length-insert x set)

length-add_all-le :
    (xs : List String) (set : StringSet) → length (add_all xs set) ≤ length set + length xs
unfolding add_all
length-add_all-le [] set = omega arith
length-add_all-le (x ∷ xs) set =
    ground (arith, length-add_all-le xs (insert x tt set), length-insert x set)

-- None of these is in the set.
abbrev Fresh : StringSet → List String → Type 0
Fresh set [] = Unit
Fresh set (x ∷ xs) = (member x set ≡ false) × Fresh set xs

Fresh-insert :
    (x : String) (set : StringSet) (xs : List String)
    → Fresh (insert x tt set) xs ↔ (Fresh set xs × (any (λ y. x == y) xs ≡ false))
Fresh-insert x set [] = (λ h. (tt, refl), λ h. tt)
Fresh-insert x set (y ∷ xs) = (
  λ h.
      let rest = (Fresh-insert x set xs).0 h.1 in
      (
        (ground (arith, h.0, member-insert x y set), rest.0),
        ground (arith, h.0, member-insert x y set, rest.1),
      ),
  λ h.
      let rest = (Fresh-insert x set xs).1 (h.0.1, ground (arith, h.1)) in
      (ground (arith, h.0.0, h.1, member-insert x y set), rest),
)

Fresh-empty : (xs : List String) → Fresh [] xs
unfolding lookup
Fresh-empty [] = tt
Fresh-empty (x ∷ xs) = (refl, Fresh-empty xs)

length-add_all :
    (xs : List String) (set : StringSet)
    → (length (add_all xs set) ≡ length set + length xs) ↔ (Fresh set xs × Distinct xs)
unfolding add_all
length-add_all [] set = (λ h. (tt, tt), λ h. omega arith)
length-add_all (x ∷ xs) set = elim (Bool-cases (member x set)) [
  | inl there ↦ (
    λ h.
        absurd
          (ground (arith, h, there, length-add_all-le xs (insert x tt set), length-insert x set)),
    λ h. cc h.0.0,
  )
  | inr fresh ↦
      let more : length (insert x tt set) ≡ suc (length set) =
        ground (arith, fresh, length-insert x set) in
      let ih = length-add_all xs (insert x tt set) in
      (
        λ h.
            let r = ih.0 (omega (arith, h, more)) in
            let f = (Fresh-insert x set xs).0 r.0 in ((fresh, f.0), (f.1, r.1)),
        λ h.
            let r = ih.1 ((Fresh-insert x set xs).1 (h.0.1, h.1.0), h.1.1) in
            omega (arith, r, more),
      )
]

pub is_node_role_duplicate_iff : (n : Node) → (is_node_role_duplicate n ≡ false) ↔ Distinct n.roles
unfolding is_node_role_duplicate
is_node_role_duplicate_iff n = (
  λ h. ((length-add_all n.roles []).0 (ground (arith, h))).1,
  λ h. ground (arith, (length-add_all n.roles []).1 (Fresh-empty n.roles, h)),
)

pub member-cp_hosts :
    (a : String) (ns : List Node)
    → member a (cp_hosts ns) ≡ any (λ n. has_role role_control_plane n && (n.address == a)) ns
unfolding cp_hosts lookup
member-cp_hosts a [] = refl
member-cp_hosts a (n ∷ ns) =
    ground (arith, member-cp_hosts a ns, member-insert n.address a (cp_hosts ns))
