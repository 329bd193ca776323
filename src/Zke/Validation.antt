-- ===== src/Zke/Validation.antt =====
-- pkg/zke/validation.go and validation_util.go: what a cluster's configuration must satisfy before
-- the manager accepts it. The tests of addresses rest on Go's net package and are parameters, as is
-- the question whether a node is used by a storage.
pub mod Change
pub mod Sets
pub mod Equal
pub mod Nodes
pub mod Accepted
pub mod Updates
pub mod Samples
mod Examples
use gao_cloud.Prelude.{
  ℕ, zero, suc, ◌+◌, Bool, true, false, not, ◌&&◌, ◌||◌, Option, none, some, is_some, String, ◌==◌,
  List, [], ◌∷◌, any, length, nat_eq, leb, ltb, if◌then◌else◌, Result, ok, err, guard, ◌>>◌, ◌>>=◌,
  Map, lookup, insert, each, each_at, map, keep,
}

-- The roles of a node, `RoleControlPlane` and `RoleWorker`.
abbrev pub role_control_plane : String
role_control_plane = "controlplane"

abbrev pub role_worker : String
role_worker = "worker"

pub record Node : Type 0 where
  pub name : String
  pub address : String
  pub roles : List String

pub record ClusterLoadBalance : Type 0 where
  pub enable : Bool
  pub master_server : String
  pub backup_server : String
  pub user : String
  pub password : String

pub record ClusterNetwork : Type 0 where
  pub plugin : String
  pub iface : String

-- The fields of the API's cluster that are validated, or go into the engine's configuration.
pub record ApiCluster : Type 0 where
  pub nodes : List Node
  pub load_balance : ClusterLoadBalance
  pub gao_cloud_address : String
  pub cluster_cidr : String
  pub service_cidr : String
  pub cluster_dns_service_ip : String
  pub cluster_upstream_dns : List String
  pub ssh_user : String
  pub ssh_port : String
  pub ssh_key : String
  pub name : String
  pub network : ClusterNetwork
  pub cluster_domain : String

-- Go's `net.ParseIP`, `net.ParseCIDR`, `strings.Split(s, ":")` and `strconv.Atoi`, the last with
-- `none` for a number below 0, which is refused like a text that is no number.
pub record Parsers : Type 0 where
  pub is_ipv4 : String → Bool
  pub is_cidr_v4 : String → Bool
  pub is_cidr_v4_contains : String → String → Bool
  pub split_colon : String → List String
  pub atoi : String → Option ℕ

pub data ConfigError : Type 0 where
  bad_dns_service_ip bad_upstream_dns bad_cluster_cidr bad_service_cidr dns_service_ip_outside :
      ConfigError
  duplicate_address duplicate_name : String → ConfigError
  role_missing : ConfigError
  no_role two_roles duplicate_role bad_address : String → ConfigError
  bad_gao_cloud_address gao_cloud_is_node : ConfigError
  bad_master_server bad_backup_server no_user : ConfigError
  no_ssh_key : ConfigError
  control_plane_lost role_changed name_changed : String → ConfigError
  listener_failed : ConfigError
  used_by_storage : String → ConfigError

-- `StringSet`: a map to an empty struct.
abbrev pub StringSet : Type 0
StringSet = Map (Unit {0})

unfoldable pub add_all : List String → StringSet → StringSet
unfolding insert
add_all [] set = set
add_all (x ∷ xs) set = add_all xs (insert x tt set)

abbrev pub member : String → StringSet → Bool
member x set = is_some (lookup x set)

-- `Equal`: as many elements, and each of the one is in the other.
abbrev pub equal : StringSet → StringSet → Bool
equal set other =
    nat_eq (length set) (length other) && not (any (λ entry. not (member entry.0 other)) set)

unfoldable pub has_role : String → Node → Bool
has_role role n = any (λ r. r == role) n.roles

unfoldable pub is_node_roles_chanage : Node → Node → Bool
is_node_roles_chanage old new = not (equal (add_all new.roles []) (add_all old.roles []))

unfoldable pub is_node_role_duplicate : Node → Bool
unfolding add_all
is_node_role_duplicate n = not (nat_eq (length (add_all n.roles [])) (length n.roles))

-- The body of the two loops of `validateDuplicateNodes`.
abbrev pub check_pair : ℕ → Node → ℕ → Node → Result ConfigError (Unit {0})
check_pair i m j n = if nat_eq i j then ok tt else (do
  guard (not (m.address == n.address)) (duplicate_address m.address)
  guard (not (m.name == n.name)) (duplicate_name m.name))

unfoldable pub validate_duplicate_nodes : ApiCluster → Result ConfigError (Unit {0})
unfolding each_at
validate_duplicate_nodes c = each_at (λ i m. each_at (check_pair i m) 0 c.nodes) 0 c.nodes

unfoldable pub validate_node_count : ApiCluster → Result ConfigError (Unit {0})
unfolding has_role
validate_node_count c =
    guard (any (has_role role_control_plane) c.nodes && any (has_role role_worker) c.nodes)
      role_missing

unfoldable pub validate_cluster_ssh_key_not_empty : ApiCluster → Result ConfigError (Unit {0})
validate_cluster_ssh_key_not_empty c = guard (not (c.ssh_key == "")) no_ssh_key

-- `[0]`; a split has at least one part.
abbrev pub host_of : List String → String
host_of [] = ""
host_of (ip ∷ rest) = ip

module _ (parsers : Parsers) where
  open parsers use {is_ipv4, is_cidr_v4, is_cidr_v4_contains, split_colon, atoi}

  unfoldable pub is_ipv4_host : String → Bool
  is_ipv4_host input = elim (split_colon input) [
    | [] ↦ false
    | ip ∷ rest ↦ elim rest [
      | [] ↦ false
      | port ∷ more ↦ elim more [
        | _ ∷ _ ↦ false
        | [] ↦ elim (atoi port) [ none ↦ false | some n ↦ is_ipv4 ip && (ltb 0 n && leb n 65535) ]
      ]
    ]
  ]

  unfoldable pub validate_node : Node → Result ConfigError (Unit {0})
  unfolding has_role is_node_role_duplicate
  validate_node n = do
    guard (has_role role_control_plane n || has_role role_worker n) (no_role n.name)
    guard (not (has_role role_control_plane n && has_role role_worker n)) (two_roles n.name)
    guard (not (is_node_role_duplicate n)) (duplicate_role n.name)
    guard (is_ipv4 n.address) (bad_address n.address)

  unfoldable pub validate_node_name_role_and_address : ApiCluster → Result ConfigError (Unit {0})
  unfolding each validate_node
  validate_node_name_role_and_address c = each validate_node c.nodes

  unfoldable pub validate_gao_cloud_address : ApiCluster → Result ConfigError (Unit {0})
  unfolding each is_ipv4_host
  validate_gao_cloud_address c = do
    guard (is_ipv4_host c.gao_cloud_address) bad_gao_cloud_address
    each
        (λ n.
          guard (not (n.address == host_of (split_colon c.gao_cloud_address))) gao_cloud_is_node)
        c.nodes

  unfoldable pub validate_lb_config : ApiCluster → Result ConfigError (Unit {0})
  unfolding is_ipv4_host
  validate_lb_config c = if not c.load_balance.enable then ok tt else (do
    guard (is_ipv4 c.load_balance.master_server || is_ipv4_host c.load_balance.master_server)
        bad_master_server
    guard
        (c.load_balance.backup_server == ""
          || (is_ipv4 c.load_balance.backup_server || is_ipv4_host c.load_balance.backup_server))
        bad_backup_server
    guard (not (c.load_balance.user == "")) no_user)

  unfoldable pub validate_cluster_cidr_and_ips : ApiCluster → Result ConfigError (Unit {0})
  unfolding each
  validate_cluster_cidr_and_ips c = do
    guard (is_ipv4 c.cluster_dns_service_ip) bad_dns_service_ip
    each (λ ns. guard (is_ipv4 ns) bad_upstream_dns) c.cluster_upstream_dns
    guard (is_cidr_v4 c.cluster_cidr) bad_cluster_cidr
    guard (is_cidr_v4 c.service_cidr) bad_service_cidr
    guard (is_cidr_v4_contains c.service_cidr c.cluster_dns_service_ip) dns_service_ip_outside

  -- `createValidators`, in their order.
  unfoldable pub create_validators : ApiCluster → Result ConfigError (Unit {0})
  unfolding validate_cluster_cidr_and_ips validate_duplicate_nodes validate_node_count
      validate_node_name_role_and_address validate_gao_cloud_address validate_lb_config
  create_validators c = do
    validate_cluster_cidr_and_ips c
    validate_duplicate_nodes c
    validate_node_count c
    validate_node_name_role_and_address c
    validate_gao_cloud_address c
    validate_lb_config c

  unfoldable pub validate_config_for_create : ApiCluster → Result ConfigError (Unit {0})
  unfolding create_validators validate_cluster_ssh_key_not_empty
  validate_config_for_create c = do create_validators c; validate_cluster_ssh_key_not_empty c
