-- ===== src/Globaldns/Manager.antt =====
-- pkg/globaldns/globaldns.go, and the start of a syncer in clusterdnssyncer.go: one syncer for each
-- cluster. The cluster's cache answers with its edge nodes and its configuration map; the JSON reader
-- is a parameter. The events of Kubernetes reach a syncer until its channel is closed, when the
-- manager forgets it.
use gao_cloud.Prelude.{
  Bool, true, false, Option, none, some, String, ◌==◌, List, [], ◌∷◌, any, if◌then◌else◌, Map,
  lookup, insert, remove, Result, ok, err, or_err, ◌>>=◌, ◌>>◌, guard, not,
}
use gao_cloud.Globaldns.{NameLib, Node, ClusterDnsSyncer}
use gao_cloud.Globaldns.Proxy.{DnsServer, add_zone, delete_zone}
use gao_cloud.Globaldns.Syncer.{on_new_node, K8sEvent, on_event}

abbrev pub cluster_config : String
cluster_config = "cluster-config"

-- What `List` of the edge nodes and `Get` of the configuration map give, `none` for an error.
pub record KubeCache : Type 0 where
  pub edge_nodes : Option (List Node)
  pub config_data : Option (Map String)

pub data SyncerError : Type 0 where
  duplicate_cluster get_config_failed unmarshal_failed empty_zone invalid_zone : SyncerError
  duplicate_zone list_nodes_failed add_zone_failed : SyncerError

-- `Data[ClusterConfig]`, the empty text for a missing key.
unfoldable pub config_text : Map String → String
config_text m = elim (lookup cluster_config m) [ none ↦ "" | some text ↦ text ]

-- The zone of a new cluster: `unmarshal` reads the domain from the configuration.
unfoldable pub cluster_zone :
    NameLib → (String → Option String) → KubeCache → Result SyncerError String
unfolding config_text
cluster_zone names unmarshal cache = do
  m ← or_err cache.config_data get_config_failed
  domain ← or_err (unmarshal (config_text m)) unmarshal_failed
  guard (not (domain == "")) empty_zone
  or_err (names.name_from_string domain) invalid_zone

-- The syncers, and the server's state.
abbrev pub GlobalDns : Type 0 → Type 0
GlobalDns W = Map ClusterDnsSyncer × W

abbrev pub new_syncer : String → ClusterDnsSyncer
new_syncer zone = record { zone_name = zone; edge_node_ips = []; ingress_domains = [] }

module _ {W : Type 0} (server : DnsServer W) where
  unfoldable pub on_new_nodes : List Node → ClusterDnsSyncer → W → ClusterDnsSyncer × W
  unfolding on_new_node
  on_new_nodes [] c w = (c, w)
  on_new_nodes (n ∷ ns) c w =
      let r : ClusterDnsSyncer × W = on_new_node server n c w in on_new_nodes ns r.0 r.1

  -- After `AddAuthZone`, whose answer is the Boolean.
  unfoldable pub with_zone :
      String
      → String
      → List Node
      → Map ClusterDnsSyncer
      → W × Bool
      → Result SyncerError (Unit {0}) × GlobalDns W
  unfolding on_new_nodes
  with_zone name zone nodes m (w, false) = (err add_zone_failed, (m, w))
  with_zone name zone nodes m (w, true) =
      let r : ClusterDnsSyncer × W = on_new_nodes nodes (new_syncer zone) w in
      (ok tt, (insert name r.0 m, r.1))

  -- `newClusterDNSSyncer` and `initClusterDNSSyncer`
  unfoldable pub start_syncer :
      String
      → String
      → Option (List Node)
      → GlobalDns W
      → Result SyncerError (Unit {0}) × GlobalDns W
  unfolding with_zone add_zone
  start_syncer name zone none g = (err list_nodes_failed, g)
  start_syncer name zone (some nodes) g = with_zone name zone nodes g.0 (add_zone server zone g.1)

  unfoldable pub start_apart :
      String
      → KubeCache
      → GlobalDns W
      → Result SyncerError String
      → Result SyncerError (Unit {0}) × GlobalDns W
  unfolding start_syncer
  start_apart name cache g (err e) = (err e, g)
  start_apart name cache g (ok zone) =
      if any (λ entry. entry.1.zone_name == zone) g.0
      then (err duplicate_zone, g)
      else start_syncer name zone cache.edge_nodes g

  -- `newClusterDNSSyncer` of the manager.
  unfoldable pub new_cluster_dns_syncer :
      NameLib
      → (String → Option String)
      → String
      → KubeCache
      → GlobalDns W
      → Result SyncerError (Unit {0}) × GlobalDns W
  unfolding start_apart cluster_zone
  new_cluster_dns_syncer names unmarshal name cache g = elim (lookup name g.0) [
    | some c ↦ (err duplicate_cluster, g)
    | none ↦ start_apart name cache g (cluster_zone names unmarshal cache)
  ]

  -- `Stop`, and the removal from the map.
  unfoldable pub stop_syncer : String → GlobalDns W → GlobalDns W
  unfolding delete_zone
  stop_syncer name g = elim (lookup name g.0) [
    | none ↦ g
    | some c ↦ (remove name g.0, (delete_zone server c.zone_name g.1).0)
  ]

  unfoldable pub cluster_event : NameLib → String → K8sEvent → GlobalDns W → GlobalDns W
  unfolding on_event
  cluster_event names name ev g = elim (lookup name g.0) [
    | none ↦ g
    | some c ↦
        let r : ClusterDnsSyncer × W = on_event names server ev c g.1 in (insert name r.0 g.0, r.1)
  ]

-- The events of the bus, and those of a cluster's Kubernetes.
pub data Arrival : Type 0 where
  cluster_created : String → KubeCache → Arrival
  cluster_deleted : String → Arrival
  from_k8s : String → K8sEvent → Arrival

-- One round of `eventLoop`, or one call of a syncer's handler.
unfoldable pub arrive :
    NameLib
    → (String → Option String)
    → {W : Type 0} → DnsServer W
    → Arrival
    → GlobalDns W
    → GlobalDns W
unfolding new_cluster_dns_syncer stop_syncer cluster_event
arrive names unmarshal server (cluster_created name cache) g =
    (new_cluster_dns_syncer server names unmarshal name cache g).1
arrive names unmarshal server (cluster_deleted name) g = stop_syncer server name g
arrive names unmarshal server (from_k8s name ev) g = cluster_event server names name ev g
