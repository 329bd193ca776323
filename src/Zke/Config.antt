-- ===== src/Zke/Config.antt =====
-- pkg/zke/zke.go and `ToScCluster` of pkg/zke/cluster.go: the engine's configuration of a cluster, made
-- of the API's cluster, and back. A control-plane node of the API runs etcd in the engine.
pub mod Nodes
mod Examples
use gao_cloud.Prelude.{
  Bool, true, false, not, String, ◌==◌, List, [], ◌∷◌, map, keep, if◌then◌else◌,
}
use gao_cloud.Zke.Validation.{
  ApiCluster, Node, ClusterNetwork, ClusterLoadBalance, role_control_plane,
}

abbrev pub role_etcd : String
role_etcd = "etcd"

pub record ZkeConfigOption : Type 0 where
  pub ssh_user : String
  pub ssh_port : String
  pub ssh_key : String
  pub cluster_cidr : String
  pub service_cidr : String
  pub cluster_domain : String
  pub cluster_dns_service_ip : String
  pub cluster_upstream_dns : List String

pub record ZkeConfigNode : Type 0 where
  pub node_name : String
  pub address : String
  pub role : List String

pub record ZkeConfig : Type 0 where
  pub cluster_name : String
  pub option : ZkeConfigOption
  pub network : ClusterNetwork
  pub load_balance : ClusterLoadBalance
  pub gao_cloud_address : String
  pub nodes : List ZkeConfigNode

-- The roles of a node in the engine: etcd follows the control plane.
unfoldable pub with_etcd : List String → List String
with_etcd [] = []
with_etcd (role ∷ roles) =
    let rest = with_etcd roles in
    if role == role_control_plane then role ∷ role_etcd ∷ rest else role ∷ rest

abbrev pub to_zke_node : Node → ZkeConfigNode
to_zke_node n = record { node_name = n.name; address = n.address; role = with_etcd n.roles }

unfoldable pub sc_cluster_to_zke_nodes : ApiCluster → List ZkeConfigNode
sc_cluster_to_zke_nodes sc = map to_zke_node sc.nodes

unfoldable pub gen_zke_config : ApiCluster → ZkeConfig
unfolding sc_cluster_to_zke_nodes
gen_zke_config c = record {
  cluster_name = c.name;
  option = record {
    ssh_user = c.ssh_user;
    ssh_port = c.ssh_port;
    ssh_key = c.ssh_key;
    cluster_cidr = c.cluster_cidr;
    service_cidr = c.service_cidr;
    cluster_domain = c.cluster_domain;
    cluster_dns_service_ip = c.cluster_dns_service_ip;
    cluster_upstream_dns = c.cluster_upstream_dns;
  };
  network = c.network;
  load_balance = c.load_balance;
  gao_cloud_address = c.gao_cloud_address;
  nodes = sc_cluster_to_zke_nodes c;
}

-- An update keeps the key where it gives none, and the networks and the load balancer always.
unfoldable pub gen_zke_config_for_update : ZkeConfig → ApiCluster → ZkeConfig
unfolding sc_cluster_to_zke_nodes
gen_zke_config_for_update config sc = record config {
  option = record config.option {
    ssh_user = sc.ssh_user;
    ssh_port = sc.ssh_port;
    ssh_key = if not (sc.ssh_key == "") then sc.ssh_key else config.option.ssh_key;
  };
  gao_cloud_address = sc.gao_cloud_address;
  nodes = sc_cluster_to_zke_nodes sc;
}

unfoldable pub to_node : ZkeConfigNode → Node
to_node n = record {
  name = n.node_name;
  address = n.address;
  roles = keep (λ r. not (r == role_etcd)) n.role;
}

-- The key and the load balancer are not given back; status, version and times are left out here.
unfoldable pub to_sc_cluster : ZkeConfig → ApiCluster
unfolding to_node
to_sc_cluster config = record {
  nodes = map to_node config.nodes;
  load_balance = record {
    enable = false;
    master_server = "";
    backup_server = "";
    user = "";
    password = "";
  };
  gao_cloud_address = config.gao_cloud_address;
  cluster_cidr = config.option.cluster_cidr;
  service_cidr = config.option.service_cidr;
  cluster_dns_service_ip = config.option.cluster_dns_service_ip;
  cluster_upstream_dns = config.option.cluster_upstream_dns;
  ssh_user = config.option.ssh_user;
  ssh_port = config.option.ssh_port;
  ssh_key = "";
  name = config.cluster_name;
  network = config.network;
  cluster_domain = config.option.cluster_domain;
}
