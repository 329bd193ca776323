-- ===== src/Globaldns.antt =====
-- pkg/globaldns: the records that a DNS server holds for the ingresses of the clusters. The server,
-- which is reached by commands over HTTP, and the domain names of g53 are parameters; a name stands
-- for its canonical text, as `String(false)` prints it and `Equals` compares it.
pub mod Proxy
pub mod Syncer
pub mod Texts
pub mod Domains
pub mod Records
pub mod Sync
pub mod Ingresses
pub mod Manager
pub mod Zones
pub mod Clusters
pub mod Hosts
pub mod Lost
mod Examples
use gao_cloud.Prelude.{String, Bool, Option, List, Map}

-- `g53.NameFromString`, and `IsSubDomain` of a name and a zone.
pub record NameLib : Type 0 where
  pub name_from_string : String → Option String
  pub is_sub_domain : String → String → Bool

-- The fields of a Kubernetes node and of an ingress that are read.
pub record NodeAddress : Type 0 where
  pub address_type : String
  pub address : String

pub record NodeCondition : Type 0 where
  pub condition_type : String
  pub status : String

pub record Node : Type 0 where
  pub labels : Map String
  pub addresses : List NodeAddress
  pub conditions : List NodeCondition

-- The hosts of the rules.
pub record Ingress : Type 0 where
  pub hosts : List String

pub record ClusterDnsSyncer : Type 0 where
  pub zone_name : String
  pub edge_node_ips : List String
  pub ingress_domains : List String
