-- ===== src/Zke/Validation/Updates.antt =====
-- What an accepted update does to the nodes of a cluster.
use gao_cloud.Prelude.{
  ◌≡◌, ◌∙◌, ◌↔◌, sym, ap, inl, inr, Bool, true, false, not, ◌&&◌, Option, some, String, ◌==◌,
  eq_iff, List, [], ◌∷◌, arith, any, map, keep, Result, if◌then◌else◌, Bool-cases, Passes,
  Passes-each, any-Memᴰ, each, guard, ok, ◌>>◌, lookup,
}
use mathlib.Core.List.{Memᴰ}
use mathlib.Core.Path.{subst}
use gao_cloud.Zke.Validation.{
  Node, ApiCluster, Parsers, has_role, role_control_plane, is_node_roles_chanage, member,
  create_validators, add_all, control_plane_lost, role_changed, name_changed,
}
use gao_cloud.Zke.Validation.Change.{
  cp_hosts, get_to_delete_nodes, validate_cannot_delete_node, validate_nodes_role_chanage,
  validate_nodes_name_chanage, validate_to_delete_storage_nodes, validate_config_for_update,
  check_storage,
}
use gao_cloud.Zke.Validation.Sets.{member-cp_hosts, member-add_all}
use gao_cloud.Zke.Validation.Accepted.{IsConfig, create_validators_iff}
use gao_cloud.Zke.Validation.Equal.{is_node_roles_chanage-has_role}

five_checks :
    {E : Type 0} (a b c d e : Result E (Unit {0}))
    → Passes (do a; b; c; d; e) ↔ (Passes a × (Passes b × (Passes c × (Passes d × Passes e))))
five_checks a b c d e = ground arith

-- A control-plane node is still one.
cannot_delete :
    (old new : ApiCluster) (m : Node)
    → Passes (validate_cannot_delete_node old new)
    → Memᴰ m old.nodes
    → has_role role_control_plane m ≡ true
    → (n : Node) × (Memᴰ n new.nodes
        × ((has_role role_control_plane n && (n.address == m.address)) ≡ true))
unfolding validate_cannot_delete_node
cannot_delete old new m h there cp =
    let check = λ (n : Node).
      if has_role role_control_plane n
      then guard (member n.address (cp_hosts new.nodes)) (control_plane_lost n.address)
      else ok tt in
    let passed = (Passes-each check old.nodes).0 h m there in
    let hosts = member-cp_hosts m.address new.nodes in
    any-Memᴰ (λ n. has_role role_control_plane n && (n.address == m.address)) new.nodes
      (ground (arith, passed, cp, hosts))

module _ (old new : ApiCluster) (m n : Node) (from : Memᴰ m old.nodes) (to : Memᴰ n new.nodes)
    (same : m.address ≡ n.address) where
  keeps_name : Passes (validate_nodes_name_chanage old new) → m.name ≡ n.name
  unfolding validate_nodes_name_chanage
  keeps_name h =
      let check = λ (a b : Node).
        if a.address == b.address
        then guard (a.name == b.name) (name_changed a.address)
        else ok tt in
      let row = (Passes-each (λ a. each (check a) new.nodes) old.nodes).0 h m from in
      let cell = (Passes-each (check m) new.nodes).0 row n to in
      ground (arith, cell, same, eq_iff m.address n.address, eq_iff m.name n.name)

  keeps_roles :
      (role : String)
      → Passes (validate_nodes_role_chanage old new)
      → has_role role n ≡ has_role role m
  unfolding validate_nodes_role_chanage
  keeps_roles role h =
      let check = λ (a b : Node).
        if a.address == b.address
        then guard (not (is_node_roles_chanage a b)) (role_changed a.address)
        else ok tt in
      let row = (Passes-each (λ a. each (check a) new.nodes) old.nodes).0 h m from in
      let cell = (Passes-each (check m) new.nodes).0 row n to in
      is_node_roles_chanage-has_role m n role
        (ground (arith, cell, same, eq_iff m.address n.address))

Memᴰ-map-keep :
    {A B : Type 0} (f : A → B) (p : A → Bool) (xs : List A) (x : A)
    → Memᴰ x xs
    → p x ≡ true
    → Memᴰ (f x) (map f (keep p xs))
Memᴰ-map-keep f p [] x m h = elim m [ ]
Memᴰ-map-keep f p (y ∷ xs) x (Memᴰ.head e) h =
    let here : p y ≡ true = ap p (sym e) ∙ h in rw here (Memᴰ.head (ap f e))
Memᴰ-map-keep f p (y ∷ xs) x (Memᴰ.tail m) h = elim (Bool-cases (p y)) [
  | inl kept ↦ rw kept (Memᴰ.tail (Memᴰ-map-keep f p xs x m h))
  | inr dropped ↦ rw dropped (Memᴰ-map-keep f p xs x m h)
]

-- A node whose name is gone is not used by a storage.
to_delete :
    (is_storage_node : String → Option Bool) (old new : ApiCluster) (m : Node)
    → Passes (validate_to_delete_storage_nodes is_storage_node true old new)
    → Memᴰ m old.nodes
    → any (λ name. name == m.name) (map (λ n. n.name) new.nodes) ≡ false
    → is_storage_node m.name ≡ some false
unfolding validate_to_delete_storage_nodes get_to_delete_nodes lookup
to_delete is_storage_node old new m h there gone =
    let names = add_all (map (λ n. n.name) new.nodes) [] in
    let absent = λ (n : Node). not (member n.name names) in
    let chosen =
      Memᴰ-map-keep (λ n. n.name) absent old.nodes m there
        (ground (arith, gone, member-add_all m.name (map (λ n. n.name) new.nodes) [])) in
    let passed =
      (Passes-each (check_storage is_storage_node) (get_to_delete_nodes old new)).0 h m.name
        chosen in
    ground (arith, passed)

module _ (parsers : Parsers) (is_storage_node : String → Option Bool) (has_client : Bool)
    (old new : ApiCluster) where
  passed_all : Passes (validate_config_for_update parsers is_storage_node has_client old new) ↔ (
      Passes (create_validators parsers new)
      × (Passes (validate_cannot_delete_node old new)
          × (Passes (validate_nodes_role_chanage old new)
              × (Passes (validate_nodes_name_chanage old new)
                  × Passes (validate_to_delete_storage_nodes is_storage_node has_client old new)))))
  unfolding validate_config_for_update
  passed_all =
      five_checks (create_validators parsers new) (validate_cannot_delete_node old new)
        (validate_nodes_role_chanage old new) (validate_nodes_name_chanage old new)
        (validate_to_delete_storage_nodes is_storage_node has_client old new)

  -- An accepted update is to a configuration that a creation accepts, but for the key.
  pub validate_config_for_update-IsConfig :
      Passes (validate_config_for_update parsers is_storage_node has_client old new)
      → IsConfig parsers new
  validate_config_for_update-IsConfig h = (create_validators_iff parsers new).0 (passed_all.0 h).0

  -- An accepted update keeps every control-plane node of the cluster, under its address and name,
  -- as a control-plane node.
  pub validate_config_for_update-control_plane :
      (m : Node)
      → Passes (validate_config_for_update parsers is_storage_node has_client old new)
      → Memᴰ m old.nodes
      → has_role role_control_plane m ≡ true
      → (n : Node) × (Memᴰ n new.nodes
          × ((n.address ≡ m.address)
              × ((n.name ≡ m.name) × (has_role role_control_plane n ≡ true))))
  validate_config_for_update-control_plane m h there cp =
      let r = passed_all.0 h in
      let kept = cannot_delete old new m r.1.0 there cp in
      let same : kept.0.address ≡ m.address =
        (eq_iff kept.0.address m.address).0 (ground (arith, kept.1.1)) in
      (
        kept.0,
        (
          kept.1.0,
          (
            same,
            (
              sym (keeps_name old new m kept.0 there kept.1.0 (sym same) r.1.1.1.0),
              ground (arith, kept.1.1),
            ),
          ),
        ),
      )

  -- A node that an accepted update leaves at its address keeps its name and its roles, and one that
  -- it takes out of a cluster with a client is not used by a storage.
  pub validate_config_for_update-nodes :
      (m : Node)
      → Passes (validate_config_for_update parsers is_storage_node has_client old new)
      → Memᴰ m old.nodes
      → ((n : Node)
          → Memᴰ n new.nodes
          → m.address ≡ n.address
          → (m.name ≡ n.name) × ((role : String) → has_role role n ≡ has_role role m))
        × (has_client ≡ true
            → any (λ name. name == m.name) (map (λ n. n.name) new.nodes) ≡ false
            → is_storage_node m.name ≡ some false)
  validate_config_for_update-nodes m h there =
      let r = passed_all.0 h in
      (
        λ n to same. (
          keeps_name old new m n there to same r.1.1.1.0,
          λ role. keeps_roles old new m n there to same role r.1.1.0,
        ),
        λ client gone.
            to_delete is_storage_node old new m
              (subst (λ b. Passes (validate_to_delete_storage_nodes is_storage_node b old new))
                client r.1.1.1.1)
              there gone,
      )
