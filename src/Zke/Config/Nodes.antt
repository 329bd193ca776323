-- ===== src/Zke/Config/Nodes.antt =====
-- The nodes of a cluster on their way to the engine and back, and through an update.
use mathlib.Core.List.{Memᴰ}
use mathlib.Core.Path.{subst}
use gao_cloud.Prelude.{
  ◌≡◌, sym, ap, inl, inr, refl, Bool, true, false, not, String, ◌==◌, eq_iff, Option, List, [], ◌∷◌,
  map, keep, any, arith, Bool-cases, Passes,
}
use gao_cloud.Zke.Validation.{ApiCluster, Node, Parsers, has_role, role_control_plane}
use gao_cloud.Zke.Validation.Change.{validate_config_for_update}
use gao_cloud.Zke.Validation.Updates.{validate_config_for_update-control_plane}
use gao_cloud.Zke.Config.{
  ZkeConfigNode, role_etcd, with_etcd, sc_cluster_to_zke_nodes, gen_zke_config,
  gen_zke_config_for_update, to_node, to_zke_node, to_sc_cluster,
}

-- No node is given the role of etcd by the user.
abbrev pub HasNoEtcd : List Node → Type 0
HasNoEtcd [] = Unit
HasNoEtcd (n ∷ ns) = (has_role role_etcd n ≡ false) × HasNoEtcd ns

keep-with_etcd :
    (roles : List String)
    → any (λ r. r == role_etcd) roles ≡ false
    → keep (λ r. not (r == role_etcd)) (with_etcd roles) ≡ roles
unfolding with_etcd
keep-with_etcd [] h = refl
keep-with_etcd (role ∷ roles) h = elim (Bool-cases (role == role_control_plane)) [
  | inl cp ↦
      let role_of : role ≡ role_control_plane = (eq_iff role role_control_plane).0 cp in
      let apart : (role == role_etcd) ≡ false = ap (λ r. r == role_etcd) role_of in
      rw (cp, apart) (ap (λ l. role ∷ l) (keep-with_etcd roles (rw apart at h)))
  | inr other ↦ elim (Bool-cases (role == role_etcd)) [
    | inl etcd ↦ cc (rw etcd at h)
    | inr apart ↦ rw (other, apart) (ap (λ l. role ∷ l) (keep-with_etcd roles (rw apart at h)))
  ]
]

map-to_node : (ns : List Node) → HasNoEtcd ns → map to_node (map to_zke_node ns) ≡ ns
unfolding to_node has_role
map-to_node [] h = refl
map-to_node (n ∷ ns) h = λ i.
    record { name = n.name; address = n.address; roles = keep-with_etcd n.roles h.0 i }
    ∷ map-to_node ns h.1 i

-- The API's nodes come back from the engine's configuration as they were, where none has the role of
-- etcd.
pub nodes-to_sc_cluster :
    (c : ApiCluster) → HasNoEtcd c.nodes → (to_sc_cluster (gen_zke_config c)).nodes ≡ c.nodes
unfolding to_sc_cluster gen_zke_config sc_cluster_to_zke_nodes
nodes-to_sc_cluster c h = map-to_node c.nodes h

any-with_etcd :
    (roles : List String)
    → any (λ r. r == role_control_plane) roles ≡ true
    → (any (λ r. r == role_control_plane) (with_etcd roles) ≡ true)
      × (any (λ r. r == role_etcd) (with_etcd roles) ≡ true)
unfolding with_etcd
any-with_etcd [] h = cc h
any-with_etcd (role ∷ roles) h = elim (Bool-cases (role == role_control_plane)) [
  | inl cp ↦ rw cp (ground arith, ground arith)
  | inr other ↦
      let rest = any-with_etcd roles (rw other at h) in
      rw other (ground (arith, rest.0), ground (arith, rest.1))
]

Memᴰ-map : {A B : Type 0} (f : A → B) (xs : List A) (x : A) → Memᴰ x xs → Memᴰ (f x) (map f xs)
Memᴰ-map f [] x m = elim m [ ]
Memᴰ-map f (y ∷ xs) x (Memᴰ.head e) = Memᴰ.head (ap f e)
Memᴰ-map f (y ∷ xs) x (Memᴰ.tail m) = Memᴰ.tail (Memᴰ-map f xs x m)

-- A cluster that was set up from the API's cluster `c`, in which no node has the role of etcd, and is
-- then updated: where the update is accepted, each control-plane node of `c` is in the engine's new
-- configuration, under its name and address, and runs the control plane and etcd.
pub gen_zke_config_for_update-control_plane :
    (parsers : Parsers) (is_storage_node : String → Option Bool) (has_client : Bool)
    (c new : ApiCluster) (m : Node)
    → HasNoEtcd c.nodes
    → Passes (
        validate_config_for_update parsers is_storage_node has_client
          (to_sc_cluster (gen_zke_config c))
          new)
    → Memᴰ m c.nodes
    → has_role role_control_plane m ≡ true
    → (n : ZkeConfigNode) × (Memᴰ n (gen_zke_config_for_update (gen_zke_config c) new).nodes
        × ((n.node_name ≡ m.name)
            × ((n.address ≡ m.address)
                × ((any (λ r. r == role_control_plane) n.role ≡ true)
                    × (any (λ r. r == role_etcd) n.role ≡ true)))))
unfolding gen_zke_config_for_update sc_cluster_to_zke_nodes has_role
gen_zke_config_for_update-control_plane parsers is_storage_node has_client c new m bare passed there
      cp =
    let old = to_sc_cluster (gen_zke_config c) in
    let known : Memᴰ m old.nodes = subst (Memᴰ m) (sym (nodes-to_sc_cluster c bare)) there in
    let kept =
      validate_config_for_update-control_plane parsers is_storage_node has_client old new m passed
        known cp in
    let n = kept.0 in
    let roles = any-with_etcd n.roles kept.1.1.1.1 in
    (
      to_zke_node n,
      (Memᴰ-map to_zke_node new.nodes n kept.1.0, (kept.1.1.1.0, (kept.1.1.0, roles))),
    )
