-- ===== src/Globaldns/Sync.antt =====
-- pkg/globaldns/clusterdnssyncer.go: the records of the server follow the lists in memory.
use gao_cloud.Prelude.{
  ◌≡◌, refl, ◌∙◌, inl, inr, Bool, false, ◌&&◌, String, ◌==◌, [], ◌∷◌, any, arith, eq_refl, Distinct,
  Bool-cases,
}
use gao_cloud.Globaldns.{Node, ClusterDnsSyncer}
use gao_cloud.Globaldns.Proxy.{AuthRr, DnsServer, gen_auth_rr}
use gao_cloud.Globaldns.Syncer.{
  get_k8s_node_ip, is_node_ready, add_node, delete_node, on_new_node, on_update_node,
  on_delete_node,
}
use gao_cloud.Globaldns.Texts.{
  has, has_one, has-append, has-remove_first, remove_first-Distinct, append-Distinct,
}
use gao_cloud.Globaldns.Records.{CarriesOut, add_rrs_lem, delete_rrs_lem}

-- No domain and no address is in its list twice.
abbrev pub NoRepeats : ClusterDnsSyncer → Type 0
NoRepeats c = Distinct c.ingress_domains × Distinct c.edge_node_ips

-- The server holds the record of the domain and the address exactly if both are in the lists.
abbrev pub Served : {W : Type 0} → DnsServer W → String → String → ClusterDnsSyncer → W → Type 0
Served server d ip c w =
    server.holds w (gen_auth_rr c.zone_name d ip)
    ≡ (has d c.ingress_domains && has ip c.edge_node_ips)

-- What a handler does with the syncer and the server: `c` and `w` before it, `c'` and `w'` after it.
pub record Keeps {W : Type 0} (server : DnsServer W) (c : ClusterDnsSyncer) (w : W)
    (c' : ClusterDnsSyncer) (w' : W) : Type 0 where
  pub zone_kept : c'.zone_name ≡ c.zone_name
  pub no_repeats : NoRepeats c'
  pub served : (d ip : String) → Served server d ip c w → Served server d ip c' w'
  pub others :
      (zone d ip : String)
      → (c.zone_name == zone) ≡ false
      → server.holds w' (gen_auth_rr zone d ip) ≡ server.holds w (gen_auth_rr zone d ip)

module _ {W : Type 0} (basic : AuthRr → Bool) (server : DnsServer W) (c : ClusterDnsSyncer) (w : W)
    (carries : CarriesOut basic server w) (apart : NoRepeats c) where
  pub nothing-Keeps : Keeps server c w c w
  nothing-Keeps = record {
    zone_kept = refl;
    no_repeats = apart;
    served = λ d ip h. h;
    others = λ zone d ip h. refl;
  }

  pub add_node-Keeps : (n : Node) → let r = add_node server n c w in Keeps server c w r.0 r.1
  unfolding add_node
  add_node-Keeps n = elim (Bool-cases (get_k8s_node_ip n == "")) [
    | inl empty ↦ rw (empty, add_node) nothing-Keeps
    | inr address ↦ elim (Bool-cases (any (λ k. k == get_k8s_node_ip n) c.edge_node_ips)) [
      | inl known ↦ rw (address, add_node, known) nothing-Keeps
      | inr fresh ↦
          rw (address, add_node, fresh)
            (record {
              zone_kept = refl;
              no_repeats = (
                apart.0,
                append-Distinct c.edge_node_ips (get_k8s_node_ip n ∷ []) apart.1 (refl, tt)
                    (λ d h. has_one (get_k8s_node_ip n) d c.edge_node_ips h ∙ fresh),
              );
              served = λ d ip h. ground (
                arith,
                h,
                eq_refl c.zone_name,
                add_rrs_lem basic server w carries c.zone_name c.zone_name d ip c.ingress_domains
                    (get_k8s_node_ip n ∷ []),
                has-append ip c.edge_node_ips (get_k8s_node_ip n ∷ []),
              );
              others = λ zone d ip h. ground (
                arith,
                h,
                add_rrs_lem basic server w carries c.zone_name zone d ip c.ingress_domains
                    (get_k8s_node_ip n ∷ []),
              );
            })
    ]
  ]

  pub delete_node-Keeps : (n : Node) → let r = delete_node server n c w in Keeps server c w r.0 r.1
  unfolding delete_node
  delete_node-Keeps n = elim (Bool-cases (get_k8s_node_ip n == "")) [
    | inl empty ↦ rw (empty, delete_node) nothing-Keeps
    | inr address ↦ elim (Bool-cases (any (λ k. k == get_k8s_node_ip n) c.edge_node_ips)) [
      | inr unknown ↦ rw (address, delete_node, unknown) nothing-Keeps
      | inl known ↦
          rw (address, delete_node, known)
            (record {
              zone_kept = refl;
              no_repeats =
                  (apart.0, remove_first-Distinct (get_k8s_node_ip n) c.edge_node_ips apart.1);
              served = λ d ip h. ground (
                arith,
                h,
                eq_refl c.zone_name,
                delete_rrs_lem basic server w carries c.zone_name c.zone_name d ip c.ingress_domains
                    (get_k8s_node_ip n ∷ []),
                has-remove_first (get_k8s_node_ip n) ip c.edge_node_ips apart.1,
              );
              others = λ zone d ip h. ground (
                arith,
                h,
                delete_rrs_lem basic server w carries c.zone_name zone d ip c.ingress_domains
                    (get_k8s_node_ip n ∷ []),
              );
            })
    ]
  ]

  pub on_update_node-Keeps :
      (old new : Node) → let r = on_update_node server old new c w in Keeps server c w r.0 r.1
  unfolding on_update_node
  on_update_node-Keeps old new = elim (Bool-cases (is_node_ready new)) [
    | inl up ↦ elim (Bool-cases (is_node_ready old)) [
      | inl same ↦ rw (up, same) nothing-Keeps
      | inr came ↦ rw (up, came) (add_node-Keeps new)
    ]
    | inr down ↦ elim (Bool-cases (is_node_ready old)) [
      | inl left ↦ rw (down, left) (delete_node-Keeps new)
      | inr same ↦ rw (down, same) nothing-Keeps
    ]
  ]

  pub on_new_node-Keeps : (n : Node) → let r = on_new_node server n c w in Keeps server c w r.0 r.1
  unfolding on_new_node
  on_new_node-Keeps n = elim (Bool-cases (is_node_ready n)) [
    | inl ready ↦ rw ready (add_node-Keeps n)
    | inr down ↦ rw down nothing-Keeps
  ]

  pub on_delete_node-Keeps :
      (n : Node) → let r = on_delete_node server n c w in Keeps server c w r.0 r.1
  unfolding on_delete_node
  on_delete_node-Keeps n = elim (Bool-cases (is_node_ready n)) [
    | inl ready ↦ rw ready (delete_node-Keeps n)
    | inr down ↦ rw down nothing-Keeps
  ]
