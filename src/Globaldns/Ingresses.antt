-- ===== src/Globaldns/Ingresses.antt =====
-- pkg/globaldns/clusterdnssyncer.go: the handlers of ingresses and all events of one cluster keep the
-- records of the server and the lists in memory together.
use gao_cloud.Prelude.{
  ◌≡◌, refl, sym, ◌∙◌, inl, inr, Bool, true, false, not, ◌&&◌, some, String, ◌==◌, List, [], any,
  keep, arith, eq_refl, Distinct, Bool-cases, Option-cases,
}
use gao_cloud.Globaldns.{NameLib, Ingress, ClusterDnsSyncer}
use gao_cloud.Globaldns.Proxy.{AuthRr, DnsServer, is_empty}
use gao_cloud.Globaldns.Syncer.{
  is_edge, remove_each, on_new_node, on_delete_node, on_new_ingress, on_update_ingress,
  on_delete_ingress, rule_domains, diff_k8s_ingress_rules, delete_ingress_domains, replace_domains,
  K8sEvent, node_created, node_updated, node_deleted, ingress_created, ingress_updated,
  ingress_deleted, generic, on_event,
}
use gao_cloud.Globaldns.Texts.{has, has-append, has-remove_each, append-Distinct}
use gao_cloud.Globaldns.Domains.{
  host_names, host_names-keep-Distinct, rule_domains-has, rule_domains-Distinct,
  diff_k8s_ingress_rules_lem,
}
use gao_cloud.Globaldns.Records.{CarriesOut, add_rrs_lem, delete_rrs_lem, update_rrs_lem}
use gao_cloud.Globaldns.Sync.{
  NoRepeats, Keeps, nothing-Keeps, on_new_node-Keeps, on_delete_node-Keeps, on_update_node-Keeps,
}

module _ (names : NameLib) {W : Type 0} (basic : AuthRr → Bool) (server : DnsServer W)
    (c : ClusterDnsSyncer) (w : W) (carries : CarriesOut basic server w) (apart : NoRepeats c) where
  on_new_ingress-Keeps :
      (ing : Ingress)
      → Distinct (host_names names ing.hosts)
      → let r = on_new_ingress names server ing c w in Keeps server c w r.0 r.1
  unfolding on_new_ingress
  on_new_ingress-Keeps ing distinct = elim (Option-cases (rule_domains names false ing.hosts c)) [
    | inl invalid ↦ rw (invalid, on_new_ingress) (nothing-Keeps basic server c w carries apart)
    | inr (ds, taken) ↦
        rw (taken, on_new_ingress)
          (record {
            zone_kept = refl;
            no_repeats = (
              append-Distinct c.ingress_domains ds apart.0
                  (rule_domains-Distinct names false c ing.hosts ds taken distinct)
                  (λ d h. ground (arith, h, rule_domains-has names false c ing.hosts ds d taken)),
              apart.1,
            );
            served = λ d ip h. ground (
              arith,
              h,
              eq_refl c.zone_name,
              add_rrs_lem basic server w carries c.zone_name c.zone_name d ip ds c.edge_node_ips,
              has-append d c.ingress_domains ds,
            );
            others = λ zone d ip h. ground (
              arith,
              h,
              add_rrs_lem basic server w carries c.zone_name zone d ip ds c.edge_node_ips,
            );
          })
  ]

  on_delete_ingress-Keeps :
      (ing : Ingress) → let r = on_delete_ingress names server ing c w in Keeps server c w r.0 r.1
  unfolding on_delete_ingress delete_ingress_domains
  on_delete_ingress-Keeps ing = elim (Option-cases (rule_domains names true ing.hosts c)) [
    | inl invalid ↦ rw (invalid, on_delete_ingress) (nothing-Keeps basic server c w carries apart)
    | inr (ds, taken) ↦
        rw (taken, on_delete_ingress)
          (record {
            zone_kept = refl;
            no_repeats = ((has-remove_each ds "" c.ingress_domains apart.0).1, apart.1);
            served = λ d ip h. ground (
              arith,
              h,
              eq_refl c.zone_name,
              delete_rrs_lem basic server w carries c.zone_name c.zone_name d ip ds c.edge_node_ips,
              (has-remove_each ds d c.ingress_domains apart.0).0,
            );
            others = λ zone d ip h. ground (
              arith,
              h,
              delete_rrs_lem basic server w carries c.zone_name zone d ip ds c.edge_node_ips,
            );
          })
  ]

  replace_domains-Keeps :
      (olds news : List String)
      → Distinct news
      → ((d : String) → has d news ≡ true → has d c.ingress_domains ≡ false)
      → let r = replace_domains server olds news c w in Keeps server c w r.0 r.1
  unfolding replace_domains delete_ingress_domains
  replace_domains-Keeps olds news distinct fresh =
      elim (Bool-cases (is_empty olds && is_empty news)) [
        | inl nothing ↦ rw (nothing, replace_domains) (nothing-Keeps basic server c w carries apart)
        | inr something ↦
            rw (something, replace_domains)
              (record {
                zone_kept = refl;
                no_repeats = (
                  append-Distinct (remove_each olds c.ingress_domains) news
                      (has-remove_each olds "" c.ingress_domains apart.0).1 distinct
                      (λ d h.
                        ground
                          (arith, fresh d h, (has-remove_each olds d c.ingress_domains apart.0).0)),
                  apart.1,
                );
                served = λ d ip h. ground (
                  arith,
                  h,
                  eq_refl c.zone_name,
                  update_rrs_lem basic server w carries c.zone_name c.zone_name d ip olds news
                      c.edge_node_ips,
                  (has-remove_each olds d c.ingress_domains apart.0).0,
                  has-append d (remove_each olds c.ingress_domains) news,
                );
                others = λ zone d ip h. ground (
                  arith,
                  h,
                  update_rrs_lem basic server w carries c.zone_name zone d ip olds news
                      c.edge_node_ips,
                );
              })
      ]

  on_update_ingress-Keeps :
      (old new : Ingress)
      → Distinct (host_names names new.hosts)
      → let r = on_update_ingress names server old new c w in Keeps server c w r.0 r.1
  unfolding on_update_ingress
  on_update_ingress-Keeps old new distinct =
      elim (Option-cases (diff_k8s_ingress_rules names old.hosts new.hosts true c)) [
        | inl invalid ↦
            rw (invalid, on_update_ingress) (nothing-Keeps basic server c w carries apart)
        | inr (olds, gone) ↦
            elim (Option-cases (diff_k8s_ingress_rules names new.hosts old.hosts false c)) [
              | inl invalid ↦
                  rw (gone, on_update_ingress, invalid)
                    (nothing-Keeps basic server c w carries apart)
              | inr (news, come) ↦
                  let kept : List String =
                    keep (λ host. not (any (λ h. host == h) old.hosts)) new.hosts in
                  let come' : rule_domains names false kept c ≡ some news =
                    sym (diff_k8s_ingress_rules_lem names false c new.hosts old.hosts) ∙ come in
                  rw (gone, on_update_ingress, come)
                    (replace_domains-Keeps olds news
                      (rule_domains-Distinct names false c kept news come' (
                        host_names-keep-Distinct names
                          (λ host. not (any (λ h. host == h) old.hosts)) new.hosts distinct))
                      (λ d h. ground (arith, h, rule_domains-has names false c kept news d come')))
            ]
      ]

-- The hosts that an event brings.
abbrev pub new_hosts : K8sEvent → List String
new_hosts (ingress_created ing) = ing.hosts
new_hosts (ingress_updated old new) = new.hosts
new_hosts _ = []

module _ (names : NameLib) {W : Type 0} (basic : AuthRr → Bool) (server : DnsServer W)
    (c : ClusterDnsSyncer) (w : W) (carries : CarriesOut basic server w) (apart : NoRepeats c) where
  pub on_event-Keeps :
      (ev : K8sEvent)
      → Distinct (host_names names (new_hosts ev))
      → let r = on_event names server ev c w in Keeps server c w r.0 r.1
  unfolding on_event on_new_node on_delete_node
  on_event-Keeps (node_created n) distinct = elim (Bool-cases (is_edge n)) [
    | inl edge ↦ rw edge (on_new_node-Keeps basic server c w carries apart n)
    | inr other ↦ rw other (nothing-Keeps basic server c w carries apart)
  ]
  on_event-Keeps (node_updated old new) distinct = elim (Bool-cases (is_edge new)) [
    | inl edge ↦ rw edge (on_update_node-Keeps basic server c w carries apart old new)
    | inr other ↦ rw other (nothing-Keeps basic server c w carries apart)
  ]
  on_event-Keeps (node_deleted n) distinct = elim (Bool-cases (is_edge n)) [
    | inl edge ↦ rw edge (on_delete_node-Keeps basic server c w carries apart n)
    | inr other ↦ rw other (nothing-Keeps basic server c w carries apart)
  ]
  on_event-Keeps (ingress_created ing) distinct =
      on_new_ingress-Keeps names basic server c w carries apart ing distinct
  on_event-Keeps (ingress_deleted ing) distinct =
      on_delete_ingress-Keeps names basic server c w carries apart ing
  on_event-Keeps (ingress_updated old new) distinct =
      on_update_ingress-Keeps names basic server c w carries apart old new distinct
  on_event-Keeps generic distinct = nothing-Keeps basic server c w carries apart
