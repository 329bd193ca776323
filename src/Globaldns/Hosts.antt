-- ===== src/Globaldns/Hosts.antt =====
-- pkg/globaldns/clusterdnssyncer.go: the domains that an ingress brings and takes.

use gao_cloud.Prelude.{
  ◌≡◌, refl, ap, ◌∙◌, inl, inr, Bool, true, false, not, ◌&&◌, ◌||◌, Option, some, is_some, String,
  ◌==◌, List, [], ◌∷◌, any, keep, arith, eq_refl, Distinct, Option-cases,
}
use gao_cloud.Globaldns.{NameLib, Ingress, ClusterDnsSyncer}
use gao_cloud.Globaldns.Proxy.{DnsServer}
use gao_cloud.Globaldns.Syncer.{
  on_new_ingress, on_delete_ingress, rule_domains, diff_k8s_ingress_rules, replace_domains,
  on_update_ingress, delete_ingress_domains, take_domain, k8s_ingress_host_to_sc_domain,
}
use gao_cloud.Globaldns.Texts.{has, has_flip, has-append, has-remove_each, append-Distinct}
use gao_cloud.Globaldns.Domains.{
  host_names, rule_domains-has, rule_domains-Distinct, diff_k8s_ingress_rules_lem,
}

-- Every host has a name.
abbrev pub all_named : NameLib → List String → Bool
all_named names [] = true
all_named names (host ∷ rest) = is_some (names.name_from_string host) && all_named names rest

-- The domains of an ingress in the zone; one invalid host, and the ingress is passed over.
abbrev pub domains_of : NameLib → ClusterDnsSyncer → Ingress → String → Bool
domains_of names c ing d =
    all_named names ing.hosts
    && (has d (host_names names ing.hosts) && names.is_sub_domain d c.zone_name)

module _ (names : NameLib) (wanted : Bool) (c : ClusterDnsSyncer) where
  take_domain-is_some :
      (host : String) (more : Option (List String))
      → is_some (take_domain wanted (k8s_ingress_host_to_sc_domain names host c) more)
        ≡ (is_some (names.name_from_string host) && is_some more)
  unfolding take_domain k8s_ingress_host_to_sc_domain
  take_domain-is_some host more = ground arith

  rule_domains-is_some :
      (hosts : List String) → is_some (rule_domains names wanted hosts c) ≡ all_named names hosts
  unfolding rule_domains
  rule_domains-is_some [] = refl
  rule_domains-is_some (host ∷ hosts) = ground (
    arith,
    take_domain-is_some host (rule_domains names wanted hosts c),
    rule_domains-is_some hosts,
  )

-- The rules of `old` that `new` has not: none, when `new` has them all.
none_new :
    (hosts rules : List String)
    → ((h : String) → has h hosts ≡ true → any (λ k. h == k) rules ≡ true)
    → keep (λ host. not (any (λ k. host == k) rules)) hosts ≡ []
none_new [] rules all = refl
none_new (h ∷ hosts) rules all =
    let here : any (λ k. h == k) rules ≡ true = all h (ground (arith, eq_refl h)) in
    rw here (none_new hosts rules (λ k e. all k (ground (arith, e))))

diff-same :
    (names : NameLib) (wanted : Bool) (c : ClusterDnsSyncer) (hosts : List String)
    → diff_k8s_ingress_rules names hosts hosts wanted c ≡ some []
unfolding rule_domains
diff-same names wanted c hosts =
    diff_k8s_ingress_rules_lem names wanted c hosts hosts
    ∙ ap (λ hs. rule_domains names wanted hs c) (none_new hosts hosts (λ h e. has_flip h hosts ∙ e))

module _ (names : NameLib) {W : Type 0} (server : DnsServer W) where
  pub on_new_ingress_lem :
      (ing : Ingress) (c : ClusterDnsSyncer) (w : W) (d : String)
      → has d (on_new_ingress names server ing c w).0.ingress_domains
        ≡ (has d c.ingress_domains || domains_of names c ing d)
  unfolding on_new_ingress
  on_new_ingress_lem ing c w d = elim (Option-cases (rule_domains names false ing.hosts c)) [
    | inl invalid ↦
        rw (invalid, on_new_ingress) ground
          (arith, rule_domains-is_some names false c ing.hosts, ap is_some invalid)
    | inr (ds, taken) ↦
        rw (taken, on_new_ingress) ground
          (
            arith,
            rule_domains-is_some names false c ing.hosts,
            ap is_some taken,
            has-append d c.ingress_domains ds,
            rule_domains-has names false c ing.hosts ds d taken,
          )
  ]

  pub on_delete_ingress_lem :
      (ing : Ingress) (c : ClusterDnsSyncer) (w : W) (d : String)
      → Distinct c.ingress_domains
      → has d (on_delete_ingress names server ing c w).0.ingress_domains
        ≡ (has d c.ingress_domains && not (domains_of names c ing d))
  unfolding on_delete_ingress delete_ingress_domains
  on_delete_ingress_lem ing c w d apart =
      elim (Option-cases (rule_domains names true ing.hosts c)) [
        | inl invalid ↦
            rw (invalid, on_delete_ingress) ground
              (arith, rule_domains-is_some names true c ing.hosts, ap is_some invalid)
        | inr (ds, taken) ↦
            rw (taken, on_delete_ingress) ground
              (
                arith,
                rule_domains-is_some names true c ing.hosts,
                ap is_some taken,
                (has-remove_each ds d c.ingress_domains apart).0,
                rule_domains-has names true c ing.hosts ds d taken,
              )
      ]

  on_new_ingress-zone :
      (ing : Ingress) (c : ClusterDnsSyncer) (w : W)
      → (on_new_ingress names server ing c w).0.zone_name ≡ c.zone_name
  unfolding on_new_ingress
  on_new_ingress-zone ing c w = elim (Option-cases (rule_domains names false ing.hosts c)) [
    | inl invalid ↦ rw (invalid, on_new_ingress) refl
    | inr (ds, taken) ↦ rw (taken, on_new_ingress) refl
  ]

  on_new_ingress-Distinct :
      (ing : Ingress) (c : ClusterDnsSyncer) (w : W)
      → Distinct (host_names names ing.hosts)
      → Distinct c.ingress_domains
      → Distinct (on_new_ingress names server ing c w).0.ingress_domains
  unfolding on_new_ingress
  on_new_ingress-Distinct ing c w distinct apart =
      elim (Option-cases (rule_domains names false ing.hosts c)) [
        | inl invalid ↦ rw (invalid, on_new_ingress) apart
        | inr (ds, taken) ↦
            rw (taken, on_new_ingress)
              (append-Distinct c.ingress_domains ds apart
                (rule_domains-Distinct names false c ing.hosts ds taken distinct)
                (λ d h. ground (arith, h, rule_domains-has names false c ing.hosts ds d taken)))
      ]

  -- The deletion of an ingress after its creation leaves a domain in the list or out of it as it was
  -- before both, whatever the server does. The hosts of the ingress have different names, the list is
  -- without repetitions, and the domain was not in it if it is one of the ingress.
  pub on_delete_ingress-on_new_ingress :
      (ing : Ingress) (c : ClusterDnsSyncer) (w w' : W) (d : String)
      → Distinct c.ingress_domains
      → Distinct (host_names names ing.hosts)
      → (domains_of names c ing d ≡ true → has d c.ingress_domains ≡ false)
      → let c' = (on_new_ingress names server ing c w).0 in
        has d (on_delete_ingress names server ing c' w').0.ingress_domains ≡ has d c.ingress_domains
  on_delete_ingress-on_new_ingress ing c w w' d apart distinct fresh =
      let c' : ClusterDnsSyncer = (on_new_ingress names server ing c w).0 in
      ground (
        arith,
        fresh,
        on_delete_ingress_lem ing c' w' d (on_new_ingress-Distinct ing c w distinct apart),
        on_new_ingress_lem ing c w d,
        ap (λ z. names.is_sub_domain d z) (on_new_ingress-zone ing c w),
      )

  on_update_ingress-same :
      (ing : Ingress) (c : ClusterDnsSyncer) (w : W)
      → on_update_ingress names server ing ing c w ≡ (c, w)
  unfolding on_update_ingress replace_domains
  on_update_ingress-same ing c w =
      rw (diff-same names true c ing.hosts, on_update_ingress, diff-same names false c ing.hosts)
        refl

  -- A domain of two ingresses is in the list after the creation of the one, gone after the deletion
  -- of the other, and an update of the first that leaves its hosts as they are changes nothing. The
  -- list is without repetitions, and the hosts of the first have different names.
  pub on_delete_ingress-shared :
      (kept gone : Ingress) (c : ClusterDnsSyncer) (w w' w'' : W) (d : String)
      → Distinct c.ingress_domains
      → Distinct (host_names names kept.hosts)
      → domains_of names c kept d ≡ true
      → domains_of names c gone d ≡ true
      → let c' = (on_new_ingress names server kept c w).0 in
        let c'' = (on_delete_ingress names server gone c' w').0 in
        (has d c'.ingress_domains ≡ true)
        × ((has d c''.ingress_domains ≡ false)
            × (on_update_ingress names server kept kept c'' w'' ≡ (c'', w'')))
  on_delete_ingress-shared kept gone c w w' w'' d apart distinct in_kept in_gone =
      let c' : ClusterDnsSyncer = (on_new_ingress names server kept c w).0 in
      (
        ground (arith, on_new_ingress_lem kept c w d, in_kept),
        (
          ground (
            arith,
            on_delete_ingress_lem gone c' w' d (on_new_ingress-Distinct kept c w distinct apart),
            ap (λ z. names.is_sub_domain d z) (on_new_ingress-zone kept c w),
            in_gone,
          ),
          on_update_ingress-same kept (on_delete_ingress names server gone c' w').0 w'',
        ),
      )
