-- ===== src/Globaldns/Syncer.antt =====
-- pkg/globaldns/clusterdnssyncer.go: the domains of a cluster's ingresses and the addresses of its
-- edge nodes. What the server answers to the commands for records is only logged.
use gao_cloud.Prelude.{
  Bool, true, false, not, ◌&&◌, ◌||◌, Option, none, some, String, ◌==◌, List, [], ◌∷◌, ◌++◌, any,
  if◌then◌else◌, lookup, Result, ok, err,
}
use gao_cloud.Globaldns.{NameLib, NodeAddress, Node, Ingress, ClusterDnsSyncer}
use gao_cloud.Globaldns.Proxy.{DnsServer, add_rrs, delete_rrs, update_rrs, is_empty}

abbrev pub edge_node_label : String
edge_node_label = "node-role.kubernetes.io/edge"

-- `Labels[EdgeNodeLabel] == "true"`; a label that is missing reads as the empty text.
unfoldable pub is_edge : Node → Bool
is_edge n = elim (lookup edge_node_label n.labels) [ none ↦ false | some value ↦ value == "true" ]

unfoldable pub is_node_ready : Node → Bool
is_node_ready n = any (λ c. c.condition_type == "Ready" && c.status == "True") n.conditions

unfoldable pub first_address : List NodeAddress → String
first_address [] = ""
first_address (a ∷ rest) =
    let more = first_address rest in
    if (a.address_type == "InternalIP" || a.address_type == "ExternalIP") && not (a.address == "")
    then a.address
    else more

unfoldable pub get_k8s_node_ip : Node → String
unfolding first_address
get_k8s_node_ip n = first_address n.addresses

-- `append(xs[:i], xs[i+1:]...)` at the first place of the text.
unfoldable pub remove_first : String → List String → List String
remove_first x [] = []
remove_first x (y ∷ ys) = let rest = remove_first x ys in if y == x then ys else y ∷ rest

unfoldable pub has_ingress_domain : ClusterDnsSyncer → String → Bool
has_ingress_domain c domain = any (λ d. d == domain) c.ingress_domains

unfoldable pub remove_each : List String → List String → List String
unfolding remove_first
remove_each [] xs = xs
remove_each (d ∷ ds) xs = remove_each ds (remove_first d xs)

unfoldable pub delete_ingress_domains : List String → ClusterDnsSyncer → ClusterDnsSyncer
unfolding remove_each
delete_ingress_domains ds c = record c { ingress_domains = remove_each ds c.ingress_domains }

pub data HostError : Type 0 where
  invalid_name not_in_zone : HostError

-- One round of the loops of `OnNewIngress` and `OnDeleteIngress`: the domain is taken if the
-- syncer has it as wanted, a host outside the zone is passed over, and an invalid one is `none`,
-- at which they return.
unfoldable pub take_domain :
    Bool → Result HostError (String × Bool) → Option (List String) → Option (List String)
take_domain wanted (err invalid_name) more = none
take_domain wanted (err not_in_zone) more = more
take_domain true (ok (domain, true)) (some ds) = some (domain ∷ ds)
take_domain false (ok (domain, false)) (some ds) = some (domain ∷ ds)
take_domain true (ok (domain, false)) more = more
take_domain false (ok (domain, true)) more = more
take_domain true (ok (domain, true)) none = none
take_domain false (ok (domain, false)) none = none

module _ (names : NameLib) where
  unfoldable pub k8s_ingress_host_to_sc_domain :
      String → ClusterDnsSyncer → Result HostError (String × Bool)
  unfolding has_ingress_domain
  k8s_ingress_host_to_sc_domain host c = elim (names.name_from_string host) [
    | none ↦ err invalid_name
    | some domain ↦
        if not (names.is_sub_domain domain c.zone_name)
        then err not_in_zone
        else ok (domain, has_ingress_domain c domain)
  ]

  unfoldable pub rule_domains : Bool → List String → ClusterDnsSyncer → Option (List String)
  unfolding take_domain k8s_ingress_host_to_sc_domain
  rule_domains wanted [] c = some []
  rule_domains wanted (host ∷ rest) c =
      take_domain wanted (k8s_ingress_host_to_sc_domain host c) (rule_domains wanted rest c)

  unfoldable pub diff_k8s_ingress_rules :
      List String → List String → Bool → ClusterDnsSyncer → Option (List String)
  unfolding take_domain k8s_ingress_host_to_sc_domain
  diff_k8s_ingress_rules [] rules2 need_exist c = some []
  diff_k8s_ingress_rules (host ∷ rest) rules2 need_exist c =
      let more = diff_k8s_ingress_rules rest rules2 need_exist c in
      if any (λ h. host == h) rules2
      then more
      else take_domain need_exist (k8s_ingress_host_to_sc_domain host c) more

module _ {W : Type 0} (server : DnsServer W) where
  unfoldable pub add_node : Node → ClusterDnsSyncer → W → ClusterDnsSyncer × W
  unfolding get_k8s_node_ip add_rrs
  add_node n c w =
      let ip : String = get_k8s_node_ip n in
      if ip == "" then (c, w) else if any (λ k. k == ip) c.edge_node_ips then (c, w) else (
        record c { edge_node_ips = c.edge_node_ips ++ ip ∷ [] },
        (add_rrs server c.zone_name c.ingress_domains (ip ∷ []) w).0,
      )

  unfoldable pub delete_node : Node → ClusterDnsSyncer → W → ClusterDnsSyncer × W
  unfolding get_k8s_node_ip remove_first delete_rrs
  delete_node n c w =
      let ip : String = get_k8s_node_ip n in
      if ip == "" then (c, w) else if not (any (λ k. k == ip) c.edge_node_ips) then (c, w) else (
        record c { edge_node_ips = remove_first ip c.edge_node_ips },
        (delete_rrs server c.zone_name c.ingress_domains (ip ∷ []) w).0,
      )

  unfoldable pub on_new_node : Node → ClusterDnsSyncer → W → ClusterDnsSyncer × W
  unfolding is_node_ready add_node
  on_new_node n c w = if not (is_node_ready n) then (c, w) else add_node n c w

  unfoldable pub on_delete_node : Node → ClusterDnsSyncer → W → ClusterDnsSyncer × W
  unfolding is_node_ready delete_node
  on_delete_node n c w = if not (is_node_ready n) then (c, w) else delete_node n c w

  -- Only a change of the readiness counts.
  unfoldable pub on_update_node : Node → Node → ClusterDnsSyncer → W → ClusterDnsSyncer × W
  unfolding is_node_ready add_node delete_node
  on_update_node old new c w =
      if is_node_ready new
      then (if is_node_ready old then (c, w) else add_node new c w)
      else (if is_node_ready old then delete_node new c w else (c, w))

  -- The domains that the new rules add are found before those of the old ones are deleted.
  unfoldable pub replace_domains :
      List String → List String → ClusterDnsSyncer → W → ClusterDnsSyncer × W
  unfolding delete_ingress_domains update_rrs
  replace_domains olds news c w = if is_empty olds && is_empty news then (c, w) else (
    record c { ingress_domains = (delete_ingress_domains olds c).ingress_domains ++ news },
    (update_rrs server c.zone_name olds news c.edge_node_ips w).0,
  )

-- `OnCreate`, `OnUpdate`, `OnDelete` and `OnGeneric` on the objects that are watched.
pub data K8sEvent : Type 0 where
  node_created node_deleted : Node → K8sEvent
  node_updated : Node → Node → K8sEvent
  ingress_created ingress_deleted : Ingress → K8sEvent
  ingress_updated : Ingress → Ingress → K8sEvent
  generic : K8sEvent

module _ (names : NameLib) {W : Type 0} (server : DnsServer W) where
  unfoldable pub on_new_ingress : Ingress → ClusterDnsSyncer → W → ClusterDnsSyncer × W
  unfolding rule_domains add_rrs
  on_new_ingress ing c w = elim (rule_domains names false ing.hosts c) [
    | none ↦ (c, w)
    | some ds ↦ (
      record c { ingress_domains = c.ingress_domains ++ ds },
      (add_rrs server c.zone_name ds c.edge_node_ips w).0,
    )
  ]

  unfoldable pub on_delete_ingress : Ingress → ClusterDnsSyncer → W → ClusterDnsSyncer × W
  unfolding rule_domains delete_ingress_domains delete_rrs
  on_delete_ingress ing c w = elim (rule_domains names true ing.hosts c) [
    | none ↦ (c, w)
    | some ds ↦
        (delete_ingress_domains ds c, (delete_rrs server c.zone_name ds c.edge_node_ips w).0)
  ]

  unfoldable pub on_update_ingress : Ingress → Ingress → ClusterDnsSyncer → W → ClusterDnsSyncer × W
  unfolding diff_k8s_ingress_rules replace_domains
  on_update_ingress old new c w = elim (diff_k8s_ingress_rules names old.hosts new.hosts true c) [
    | none ↦ (c, w)
    | some olds ↦ elim (diff_k8s_ingress_rules names new.hosts old.hosts false c) [
      | none ↦ (c, w)
      | some news ↦ replace_domains server olds news c w
    ]
  ]

  unfoldable pub on_event : K8sEvent → ClusterDnsSyncer → W → ClusterDnsSyncer × W
  unfolding is_edge on_new_node on_update_node on_delete_node on_new_ingress on_update_ingress
      on_delete_ingress
  on_event (node_created n) c w = if is_edge n then on_new_node server n c w else (c, w)
  on_event (node_updated old new) c w =
      if is_edge new then on_update_node server old new c w else (c, w)
  on_event (node_deleted n) c w = if is_edge n then on_delete_node server n c w else (c, w)
  on_event (ingress_created ing) c w = on_new_ingress ing c w
  on_event (ingress_updated old new) c w = on_update_ingress old new c w
  on_event (ingress_deleted ing) c w = on_delete_ingress ing c w
  on_event generic c w = (c, w)
