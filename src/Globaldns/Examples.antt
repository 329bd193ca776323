-- ===== src/Globaldns/Examples.antt =====
-- A cluster with one edge node and one ingress, and servers that carry out every command or none.
use gao_cloud.Prelude.{
  ◌≡◌, refl, Bool, true, false, not, ◌&&◌, none, some, ◌==◌, [], ◌∷◌, if◌then◌else◌, lookup,
}
use gao_cloud.Globaldns.{NameLib, Node, Ingress, ClusterDnsSyncer}
use gao_cloud.Globaldns.Proxy.{AuthRr, DnsServer, gen_auth_rr}
use gao_cloud.Globaldns.Syncer.{
  edge_node_label, is_node_ready, get_k8s_node_ip, on_new_node, on_new_ingress, on_delete_ingress,
  on_update_ingress, ingress_created,
}
use gao_cloud.Globaldns.Texts.{has}
use gao_cloud.Globaldns.Records.{effect}
use gao_cloud.Globaldns.Manager.{GlobalDns, from_k8s, arrive}
use gao_cloud.Globaldns.Hosts.{on_delete_ingress-on_new_ingress, on_delete_ingress-shared}
use gao_cloud.Globaldns.Lost.{on_new_node-lost}

-- The texts are the names; one host is invalid, and one lies outside every zone.
abbrev names : NameLib
names = record {
  name_from_string = λ s. if s == "-" then none else some s;
  is_sub_domain = λ d zone. not (d == "elsewhere");
}

-- A new zone has the address of its name server.
abbrev basic : AuthRr → Bool
basic rr = rr.name == "ns" && rr.rdata == "127.0.0.1"

abbrev obedient : DnsServer (AuthRr → Bool)
obedient = record {
  handle = λ cmd w. (λ rr. effect basic cmd rr (w rr), true);
  holds = λ w rr. w rr;
}

abbrev refusing : DnsServer (AuthRr → Bool)
refusing = record { handle = λ cmd w. (w, false); holds = λ w rr. w rr }

abbrev worker : Node
worker = record {
  labels = (edge_node_label, "true") ∷ [];
  addresses = record { address_type = "InternalIP"; address = "10.0.0.1" } ∷ [];
  conditions = record { condition_type = "Ready"; status = "True" } ∷ [];
}

abbrev shop : Ingress
shop = record { hosts = "shop" ∷ "elsewhere" ∷ [] }

abbrev shop_and_blog : Ingress
shop_and_blog = record { hosts = "shop" ∷ "blog" ∷ [] }

abbrev local : ClusterDnsSyncer
local = record { zone_name = "local"; edge_node_ips = "10.0.0.1" ∷ []; ingress_domains = [] }

abbrev empty : AuthRr → Bool
empty rr = false

abbrev clusters : GlobalDns (AuthRr → Bool)
clusters = (("c1", local) ∷ [], empty)

-- The record is there after the event.
arrive-shop :
    (arrive names some obedient (from_k8s "c1" (ingress_created shop)) clusters).1
      (gen_auth_rr "local" "shop" "10.0.0.1")
    ≡ true
unfolding arrive gen_auth_rr effect lookup
arrive-shop = refl

on_delete_ingress-on_new_ingress_example :
    (has "shop"
      (on_delete_ingress names obedient shop
        (on_new_ingress names obedient shop local empty).0
        empty).0.ingress_domains)
    ≡ false
on_delete_ingress-on_new_ingress_example =
    on_delete_ingress-on_new_ingress names obedient shop local empty empty "shop" tt
      (refl, (refl, tt)) (λ h. refl)

on_delete_ingress-shared_example :
    let c' = (on_new_ingress names obedient shop local empty).0 in
    let c'' = (on_delete_ingress names obedient shop_and_blog c' empty).0 in
    (has "shop" c'.ingress_domains ≡ true)
    × ((has "shop" c''.ingress_domains ≡ false)
        × (on_update_ingress names obedient shop shop c'' empty ≡ (c'', empty)))
on_delete_ingress-shared_example =
    on_delete_ingress-shared names obedient shop shop_and_blog local empty empty empty "shop" tt
      (refl, (refl, tt)) refl refl

abbrev without_nodes : ClusterDnsSyncer
without_nodes = record { zone_name = "local"; edge_node_ips = []; ingress_domains = "shop" ∷ [] }

on_new_node-lost_example :
    let r = on_new_node refusing worker without_nodes empty in
    (r.1 ≡ empty)
    × ((has "10.0.0.1" r.0.edge_node_ips ≡ true)
        × ((w' : AuthRr → Bool) → on_new_node refusing worker r.0 w' ≡ (r.0, w')))
unfolding is_node_ready get_k8s_node_ip
on_new_node-lost_example =
    on_new_node-lost refusing worker without_nodes empty refl refl refl (λ cmd. refl)

-- An invalid host, and the ingress is passed over; else the host outside the zone alone is.
new_ingress :
    ((on_new_ingress names obedient (record { hosts = "shop" ∷ "-" ∷ [] }) local empty).0 ≡ local)
    × ((on_new_ingress names obedient shop local empty).0.ingress_domains ≡ "shop" ∷ [])
unfolding on_new_ingress
new_ingress = (refl, refl)
