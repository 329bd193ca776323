-- ===== src/Zke/Validation/Nodes.antt =====
-- What the nodes of an accepted configuration satisfy.
use gao_cloud.Prelude.{
  ℕ, ◌≡◌, ◌≢◌, ◌↔◌, inl, inr, refl, true, some, eq_iff, List, arith, nat_eq, nat_eq_iff, Bool-cases,
  Distinct, Passes, Passes-each_place, get_elem?, each_at,
}
use gao_cloud.Zke.Validation.{
  Node, ApiCluster, Parsers, has_role, role_control_plane, role_worker, validate_node,
  validate_duplicate_nodes, check_pair,
}
use gao_cloud.Zke.Validation.Sets.{is_node_role_duplicate_iff}

-- No two nodes have an address or a name in common.
abbrev pub AreApart : List Node → Type 0
AreApart nodes =
    (i j : ℕ) (m n : Node)
    → get_elem? nodes i ≡ some m
    → get_elem? nodes j ≡ some n
    → i ≢ j
    → (m.address ≢ n.address) × (m.name ≢ n.name)

check_pair_iff :
    (i j : ℕ) (m n : Node)
    → Passes (check_pair i m j n) ↔ (i ≢ j → (m.address ≢ n.address) × (m.name ≢ n.name))
check_pair_iff i j m n =
    let address = eq_iff m.address n.address in
    let name = eq_iff m.name n.name in
    let place = nat_eq_iff i j in
    (
      λ h apart. (ground (arith, h, apart, address, place), ground (arith, h, apart, name, place)),
      λ h. elim (Bool-cases (nat_eq i j)) [
        | inl same ↦ rw same refl
        | inr apart ↦
            let r = h (λ e. cc (place.1 e, apart)) in ground (arith, apart, address, name, r.0, r.1)
      ],
    )

pub validate_duplicate_nodes_iff :
    (c : ApiCluster) → Passes (validate_duplicate_nodes c) ↔ AreApart c.nodes
unfolding validate_duplicate_nodes
validate_duplicate_nodes_iff c =
    let row = λ (i : ℕ) (m : Node). each_at (check_pair i m) 0 c.nodes in
    (
      λ h i j m n e e' apart.
          (check_pair_iff i j m n).0
            ((Passes-each_place (check_pair i m) c.nodes).0
              ((Passes-each_place row c.nodes).0 h i m e) j n e')
            apart,
      λ h. (Passes-each_place row c.nodes).1 (λ i m e.
          (Passes-each_place (check_pair i m) c.nodes).1
            (λ j n e'. (check_pair_iff i j m n).1 (h i j m n e e'))),
    )

module _ (parsers : Parsers) where
  open parsers use {is_ipv4, is_cidr_v4, is_cidr_v4_contains, split_colon, atoi}

  -- A node has one of the two roles, no role twice, and an address.
  pub record IsNode (n : Node) : Type 0 where
    pub one_role : has_role role_control_plane n ≢ has_role role_worker n
    pub distinct_roles : Distinct n.roles
    pub has_address : is_ipv4 n.address ≡ true

  pub validate_node_iff : (n : Node) → Passes (validate_node parsers n) ↔ IsNode n
  unfolding validate_node
  validate_node_iff n =
      let dup = is_node_role_duplicate_iff n in
      (
        λ h. record {
          one_role = ground (arith, h);
          distinct_roles = dup.0 (ground (arith, h));
          has_address = ground (arith, h);
        },
        λ h. ground (arith, h.one_role, dup.1 h.distinct_roles, h.has_address),
      )
