-- ===== src/Zke/Validation/Samples.antt =====
-- A cluster of two nodes, and an update that moves the worker. The parsers know the few texts that
-- are used here.
use gao_cloud.Prelude.{
  refl, Bool, true, false, Option, some, none, String, ◌==◌, List, [], ◌∷◌, any, if◌then◌else◌,
  Passes, each, each_at, lookup, insert,
}
use gao_cloud.Zke.Validation.{
  Node, ApiCluster, Parsers, has_role, role_control_plane, role_worker, add_all,
  is_node_roles_chanage, is_node_role_duplicate, validate_duplicate_nodes, validate_node_count,
  is_ipv4_host, validate_node, validate_node_name_role_and_address, validate_gao_cloud_address,
  validate_lb_config, validate_cluster_cidr_and_ips, create_validators,
}
use gao_cloud.Zke.Validation.Change.{
  cp_hosts, validate_cannot_delete_node, validate_nodes_role_chanage, validate_nodes_name_chanage,
  get_to_delete_nodes, validate_to_delete_storage_nodes, validate_config_for_update,
}

abbrev pub addresses : List String
addresses = "10.0.0.1" ∷ "10.0.0.2" ∷ "10.0.0.3" ∷ "10.0.0.9" ∷ "10.43.0.10" ∷ []

abbrev pub parsers : Parsers
parsers = record {
  is_ipv4 = λ s. any (λ a. a == s) addresses;
  is_cidr_v4 = λ s. any (λ a. a == s) ("10.42.0.0/16" ∷ "10.43.0.0/16" ∷ []);
  is_cidr_v4_contains = λ network ip. network == "10.43.0.0/16";
  split_colon = λ s. if s == "10.0.0.9:80" then "10.0.0.9" ∷ "80" ∷ [] else s ∷ [];
  atoi = λ s. if s == "80" then some 80 else none;
}

abbrev pub master : Node
master = record { name = "n1"; address = "10.0.0.1"; roles = role_control_plane ∷ [] }

abbrev pub worker : Node
worker = record { name = "n2"; address = "10.0.0.2"; roles = role_worker ∷ [] }

abbrev pub other_worker : Node
other_worker = record { name = "n3"; address = "10.0.0.3"; roles = role_worker ∷ [] }

abbrev pub cluster : List Node → ApiCluster
cluster nodes = record {
  nodes = nodes;
  load_balance = record {
    enable = false;
    master_server = "";
    backup_server = "";
    user = "";
    password = "";
  };
  gao_cloud_address = "10.0.0.9:80";
  cluster_cidr = "10.42.0.0/16";
  service_cidr = "10.43.0.0/16";
  cluster_dns_service_ip = "10.43.0.10";
  cluster_upstream_dns = [];
  ssh_user = "zcloud";
  ssh_port = "22";
  ssh_key = "key";
  name = "beijing";
  network = record { plugin = "flannel"; iface = "" };
  cluster_domain = "cluster.local";
}

abbrev pub small : ApiCluster
small = cluster (master ∷ worker ∷ [])

-- The update replaces the worker by another.
abbrev pub moved : ApiCluster
moved = cluster (other_worker ∷ master ∷ [])

abbrev pub no_storage : String → Option Bool
no_storage name = some false

-- The update is accepted.
pub moved-Passes : Passes (validate_config_for_update parsers no_storage true small moved)
unfolding each each_at lookup insert has_role add_all is_node_roles_chanage is_node_role_duplicate
    validate_duplicate_nodes validate_node_count cp_hosts is_ipv4_host validate_node
    validate_node_name_role_and_address validate_gao_cloud_address validate_lb_config
    validate_cluster_cidr_and_ips create_validators validate_cannot_delete_node
    validate_nodes_role_chanage validate_nodes_name_chanage get_to_delete_nodes
    validate_to_delete_storage_nodes validate_config_for_update
moved-Passes = refl
