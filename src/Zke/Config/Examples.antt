-- ===== src/Zke/Config/Examples.antt =====
-- The sample clusters in the engine's configuration.
use gao_cloud.Prelude.{◌≡◌, refl, true, ◌==◌, any, Passes, each, each_at, lookup, insert}
use mathlib.Core.List.{Memᴰ}
use gao_cloud.Zke.Validation.{
  has_role, role_control_plane, add_all, is_node_roles_chanage, is_node_role_duplicate,
  validate_duplicate_nodes, validate_node_count, is_ipv4_host, validate_node,
  validate_node_name_role_and_address, validate_gao_cloud_address, validate_lb_config,
  validate_cluster_cidr_and_ips, create_validators,
}
use gao_cloud.Zke.Validation.Change.{
  cp_hosts, validate_cannot_delete_node, validate_nodes_role_chanage, validate_nodes_name_chanage,
  get_to_delete_nodes, validate_to_delete_storage_nodes, validate_config_for_update,
}
use gao_cloud.Zke.Validation.Samples.{parsers, master, small, moved, no_storage}
use gao_cloud.Zke.Config.{
  ZkeConfigNode, role_etcd, with_etcd, sc_cluster_to_zke_nodes, gen_zke_config,
  gen_zke_config_for_update, to_node, to_sc_cluster,
}
use gao_cloud.Zke.Config.Nodes.{gen_zke_config_for_update-control_plane}

accepted-Passes : Passes (
    validate_config_for_update parsers no_storage true (to_sc_cluster (gen_zke_config small)) moved)
unfolding to_sc_cluster to_node gen_zke_config sc_cluster_to_zke_nodes with_etcd each each_at lookup
    insert has_role add_all is_node_roles_chanage is_node_role_duplicate validate_duplicate_nodes
    validate_node_count cp_hosts is_ipv4_host validate_node validate_node_name_role_and_address
    validate_gao_cloud_address validate_lb_config validate_cluster_cidr_and_ips create_validators
    validate_cannot_delete_node validate_nodes_role_chanage validate_nodes_name_chanage
    get_to_delete_nodes validate_to_delete_storage_nodes validate_config_for_update
accepted-Passes = refl

gen_zke_config_for_update-control_plane_example :
    (n : ZkeConfigNode) × (Memᴰ n (gen_zke_config_for_update (gen_zke_config small) moved).nodes
      × ((n.node_name ≡ "n1")
          × ((n.address ≡ "10.0.0.1")
              × ((any (λ r. r == role_control_plane) n.role ≡ true)
                  × (any (λ r. r == role_etcd) n.role ≡ true)))))
unfolding has_role
gen_zke_config_for_update-control_plane_example =
    gen_zke_config_for_update-control_plane parsers no_storage true small moved master
      (refl, (refl, tt)) accepted-Passes (Memᴰ.head refl) refl
