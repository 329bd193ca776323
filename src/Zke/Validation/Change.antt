-- ===== src/Zke/Validation/Change.antt =====
-- pkg/zke/validation.go: what an update of a cluster may not change.
use gao_cloud.Prelude.{
  Bool, not, Option, none, some, String, ◌==◌, List, [], ◌∷◌, if◌then◌else◌, Result, ok, err, guard,
  ◌>>◌, insert, each, map, keep,
}
use gao_cloud.Zke.Validation.{
  Node, ApiCluster, Parsers, ConfigError, control_plane_lost, role_changed, name_changed,
  listener_failed, used_by_storage, StringSet, add_all, member, has_role, role_control_plane,
  is_node_roles_chanage, create_validators,
}

-- `cpHosts` of `validateCannotDeleteNode`.
unfoldable pub cp_hosts : List Node → StringSet
unfolding insert has_role
cp_hosts [] = []
cp_hosts (n ∷ ns) =
    let rest = cp_hosts ns in
    if has_role role_control_plane n then insert n.address tt rest else rest

unfoldable pub validate_cannot_delete_node : ApiCluster → ApiCluster → Result ConfigError (Unit {0})
unfolding each has_role cp_hosts
validate_cannot_delete_node old new =
    each
      (λ n.
        if has_role role_control_plane n
        then guard (member n.address (cp_hosts new.nodes)) (control_plane_lost n.address)
        else ok tt)
      old.nodes

unfoldable pub validate_nodes_role_chanage : ApiCluster → ApiCluster → Result ConfigError (Unit {0})
unfolding each is_node_roles_chanage
validate_nodes_role_chanage old new =
    each
      (λ m.
        each
          (λ n.
            if m.address == n.address
            then guard (not (is_node_roles_chanage m n)) (role_changed m.address)
            else ok tt)
          new.nodes)
      old.nodes

unfoldable pub validate_nodes_name_chanage : ApiCluster → ApiCluster → Result ConfigError (Unit {0})
unfolding each
validate_nodes_name_chanage old new =
    each
      (λ m.
        each
          (λ n.
            if m.address == n.address
            then guard (m.name == n.name) (name_changed m.address)
            else ok tt)
          new.nodes)
      old.nodes

-- `getToDeleteNodes`: the names of the old nodes that no new one has.
unfoldable pub get_to_delete_nodes : ApiCluster → ApiCluster → List String
unfolding add_all
get_to_delete_nodes old new =
    map (λ n. n.name)
      (keep (λ n. not (member n.name (add_all (map (λ m. m.name) new.nodes) []))) old.nodes)

-- The listener is asked whether a node that goes is used by a storage; `none` is its error.
abbrev pub check_storage : (String → Option Bool) → String → Result ConfigError (Unit {0})
check_storage is_storage_node name = elim (is_storage_node name) [
  | none ↦ err listener_failed
  | some used ↦ guard (not used) (used_by_storage name)
]

-- Without a client of the cluster nothing is asked.
unfoldable pub validate_to_delete_storage_nodes :
    (String → Option Bool) → Bool → ApiCluster → ApiCluster → Result ConfigError (Unit {0})
unfolding each get_to_delete_nodes
validate_to_delete_storage_nodes is_storage_node has_client old new =
    if not has_client
    then ok tt
    else each (check_storage is_storage_node) (get_to_delete_nodes old new)

module _ (parsers : Parsers) where
  -- The new configuration is validated as for a creation, but for the key.
  unfoldable pub validate_config_for_update :
      (String → Option Bool) → Bool → ApiCluster → ApiCluster → Result ConfigError (Unit {0})
  unfolding create_validators validate_cannot_delete_node validate_nodes_role_chanage
      validate_nodes_name_chanage validate_to_delete_storage_nodes
  validate_config_for_update is_storage_node has_client old new = do
    create_validators parsers new
    validate_cannot_delete_node old new
    validate_nodes_role_chanage old new
    validate_nodes_name_chanage old new
    validate_to_delete_storage_nodes is_storage_node has_client old new
