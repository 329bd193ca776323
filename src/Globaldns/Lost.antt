-- ===== src/Globaldns/Lost.antt =====
-- pkg/globaldns/clusterdnssyncer.go: what a refused command leaves.
use mathlib.Core.Path.{subst}
use gao_cloud.Prelude.{
  ◌≡◌, refl, sym, ap, ◌∙◌, inl, inr, true, false, ◌||◌, String, ◌==◌, List, [], ◌∷◌, ◌++◌, arith,
  eq_refl, Bool-cases,
}
use gao_cloud.Globaldns.{Node, ClusterDnsSyncer}
use gao_cloud.Globaldns.Proxy.{Command, DnsServer, add_rrs, is_empty}
use gao_cloud.Globaldns.Syncer.{get_k8s_node_ip, is_node_ready, add_node, on_new_node}
use gao_cloud.Globaldns.Texts.{has, has-append}

module _ {W : Type 0} (server : DnsServer W) where
  add_rrs-refused :
      (zone : String) (domains ips : List String) (w : W)
      → ((cmd : Command) → (server.handle cmd w).0 ≡ w)
      → (add_rrs server zone domains ips w).0 ≡ w
  unfolding add_rrs
  add_rrs-refused zone domains ips w refused =
      elim (Bool-cases (is_empty domains || is_empty ips)) [
        | inl nothing ↦ rw nothing refl
        | inr something ↦ rw something (refused _)
      ]

  new_node_added :
      (n : Node) (c : ClusterDnsSyncer) (w : W)
      → is_node_ready n ≡ true
      → (get_k8s_node_ip n == "") ≡ false
      → has (get_k8s_node_ip n) c.edge_node_ips ≡ false
      → on_new_node server n c w ≡ (
        record c { edge_node_ips = c.edge_node_ips ++ get_k8s_node_ip n ∷ [] },
        (add_rrs server c.zone_name c.ingress_domains (get_k8s_node_ip n ∷ []) w).0,
      )
  unfolding on_new_node add_node
  new_node_added n c w ready address new_one = rw (ready, address, new_one) refl

  -- On a server that carries out no command, a new node that is ready, with an address that is not
  -- known, comes into memory and the server stays as it was; the same node again changes neither, in
  -- whatever state the server is then.
  pub on_new_node-lost :
      (n : Node) (c : ClusterDnsSyncer) (w : W)
      → is_node_ready n ≡ true
      → (get_k8s_node_ip n == "") ≡ false
      → has (get_k8s_node_ip n) c.edge_node_ips ≡ false
      → ((cmd : Command) → (server.handle cmd w).0 ≡ w)
      → let r = on_new_node server n c w in
        (r.1 ≡ w)
        × ((has (get_k8s_node_ip n) r.0.edge_node_ips ≡ true)
            × ((w' : W) → on_new_node server n r.0 w' ≡ (r.0, w')))
  unfolding on_new_node add_node
  on_new_node-lost n c w ready address new_one refused =
      let ip : String = get_k8s_node_ip n in
      let first = new_node_added n c w ready address new_one in
      let c' : ClusterDnsSyncer = record c { edge_node_ips = c.edge_node_ips ++ ip ∷ [] } in
      let known : has ip c'.edge_node_ips ≡ true =
        ground (arith, has-append ip c.edge_node_ips (ip ∷ []), eq_refl ip) in
      (
        ap (λ r. r.1) first ∙ add_rrs-refused c.zone_name c.ingress_domains (ip ∷ []) w refused,
        (
          ap (λ r. has ip r.0.edge_node_ips) first ∙ known,
          λ w'.
              subst (λ r. on_new_node server n r.0 w' ≡ (r.0, w')) (sym first)
                (rw (ready, address, known) refl),
        ),
      )
