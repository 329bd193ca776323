-- ===== src/Globaldns/Domains.antt =====
-- pkg/globaldns/clusterdnssyncer.go: which domains the loops over an ingress's rules take, and what
-- the deletions leave of a list.
use mathlib.Core.Path.{subst}
use gao_cloud.Prelude.{
  ◌≡◌, refl, sym, ap, ◌∙◌, inl, inr, Bool, true, false, not, ◌&&◌, ◌||◌, Option, none, some, String,
  ◌==◌, List, [], ◌∷◌, any, keep, if◌then◌else◌, arith, eq_iff, Distinct, Bool-cases, Option-cases,
  Result, ok, err,
}
use gao_cloud.Globaldns.{NameLib, ClusterDnsSyncer}
use gao_cloud.Globaldns.Syncer.{
  has_ingress_domain, take_domain, rule_domains, diff_k8s_ingress_rules, HostError,
  k8s_ingress_host_to_sc_domain, invalid_name, not_in_zone,
}
use gao_cloud.Globaldns.Texts.{has, has_flip}

abbrev pub with_name : Option String → List String → List String
with_name none rest = rest
with_name (some domain) rest = domain ∷ rest

-- The names of the hosts that have one.
abbrev pub host_names : NameLib → List String → List String
host_names names [] = []
host_names names (host ∷ rest) = with_name (names.name_from_string host) (host_names names rest)

-- The syncer has the domain as wanted.
abbrev pub as_wanted : Bool → Bool → Bool
as_wanted true there = there
as_wanted false there = not there

or_and : (a b c : Bool) → ((a && c) || (b && c)) ≡ ((a || b) && c)
or_and a b c = ground arith

if-Distinct :
    (x : String) (xs : List String) (t : Bool)
    → any (λ y. x == y) xs ≡ false
    → Distinct xs
    → Distinct (if t then x ∷ xs else xs)
if-Distinct x xs true fresh h = (fresh, h)
if-Distinct x xs false fresh h = h

module _ (names : NameLib) (wanted : Bool) (c : ClusterDnsSyncer) where
  -- What one round does with a host whose name is valid.
  take_domain_lem :
      (host domain : String) (rest : List String)
      → names.name_from_string host ≡ some domain
      → take_domain wanted (k8s_ingress_host_to_sc_domain names host c) (some rest)
        ≡ some (
            if names.is_sub_domain domain c.zone_name
              && as_wanted wanted (has domain c.ingress_domains)
            then domain ∷ rest
            else rest)
  unfolding take_domain k8s_ingress_host_to_sc_domain has_ingress_domain
  take_domain_lem host domain rest h = elim wanted [
    | true ↦ ground (arith, h)
    | false ↦ ground (arith, h)
  ]

  taken-has :
      (host domain d : String) (rest : List String)
      → names.name_from_string host ≡ some domain
      → has d (
          if names.is_sub_domain domain c.zone_name
            && as_wanted wanted (has domain c.ingress_domains)
          then domain ∷ rest
          else rest)
        ≡ (((domain == d)
              && (names.is_sub_domain d c.zone_name && as_wanted wanted (has d c.ingress_domains)))
            || has d rest)
  taken-has host domain d rest h = elim (Bool-cases (domain == d)) [
    | inl same ↦
        let e : domain ≡ d = (eq_iff domain d).0 same in
        ground (
          arith,
          same,
          ap (λ x. names.is_sub_domain x c.zone_name) e,
          ap (λ x. as_wanted wanted (has x c.ingress_domains)) e,
        )
    | inr other ↦ ground (arith, other)
  ]

  take_domain-none : (r : Result HostError (String × Bool)) → take_domain wanted r none ≡ none
  unfolding take_domain
  take_domain-none (err invalid_name) = refl
  take_domain-none (err not_in_zone) = refl
  take_domain-none (ok (domain, there)) = ground arith

  -- A round that does not end the loop: the host has a name, and the rest of the loop a result.
  round :
      (host : String) (more : Option (List String)) (ds : List String)
      → take_domain wanted (k8s_ingress_host_to_sc_domain names host c) more ≡ some ds
      → (domain : String) × ((rest : List String) × ((names.name_from_string host ≡ some domain)
            × ((more ≡ some rest)
                × (ds ≡ (
                    if names.is_sub_domain domain c.zone_name
                      && as_wanted wanted (has domain c.ingress_domains)
                    then domain ∷ rest
                    else rest)))))
  unfolding take_domain k8s_ingress_host_to_sc_domain
  round host none ds h = cc (h, take_domain-none (k8s_ingress_host_to_sc_domain names host c))
  round host (some rest) ds h = elim (Option-cases (names.name_from_string host)) [
    | inl invalid ↦ cc (rw (invalid, k8s_ingress_host_to_sc_domain) at h)
    | inr (domain, valid) ↦
        (domain, (rest, (valid, (refl, cc (h, take_domain_lem host domain rest valid)))))
  ]

  -- The domains that the loop takes are the names of hosts that lie in the zone and that the syncer
  -- has as wanted.
  pub rule_domains-has :
      (hosts ds : List String) (d : String)
      → rule_domains names wanted hosts c ≡ some ds
      → has d ds ≡ (
          has d (host_names names hosts)
          && (names.is_sub_domain d c.zone_name && as_wanted wanted (has d c.ingress_domains)))
  unfolding rule_domains
  rule_domains-has [] ds d h = let e : [] ≡ ds = cc h in rw (sym e) refl
  rule_domains-has (host ∷ hosts) ds d h =
      let (domain, (rest, (valid, (more, e)))) =
        round host (rule_domains names wanted hosts c) ds h in
      let fit : Bool =
        names.is_sub_domain d c.zone_name && as_wanted wanted (has d c.ingress_domains) in
      ap (has d) e
      ∙ taken-has host domain d rest valid
      ∙ ap (λ b. ((domain == d) && fit) || b) (rule_domains-has hosts rest d more)
      ∙ or_and (domain == d) (has d (host_names names hosts)) fit
      ∙ ap (λ o. has d (with_name o (host_names names hosts)) && fit) (sym valid)

  -- Hosts with different names give different domains.
  pub rule_domains-Distinct :
      (hosts ds : List String)
      → rule_domains names wanted hosts c ≡ some ds
      → Distinct (host_names names hosts)
      → Distinct ds
  unfolding rule_domains
  rule_domains-Distinct [] ds h apart = let e : [] ≡ ds = cc h in rw (sym e) tt
  rule_domains-Distinct (host ∷ hosts) ds h apart =
      let (domain, (rest, (valid, (more, e)))) =
        round host (rule_domains names wanted hosts c) ds h in
      let apart' : Distinct (domain ∷ host_names names hosts) =
        subst (λ o. Distinct (with_name o (host_names names hosts))) valid apart in
      let rest-Distinct = rule_domains-Distinct hosts rest more apart'.1 in
      let fresh : any (λ y. domain == y) rest ≡ false =
        has_flip domain rest
        ∙ ground (
          arith,
          rule_domains-has hosts rest domain more,
          has_flip domain (host_names names hosts),
          apart'.0,
        ) in
      subst Distinct (sym e) (
        if-Distinct domain rest
          (names.is_sub_domain domain c.zone_name
            && as_wanted wanted (has domain c.ingress_domains))
          fresh rest-Distinct)

  -- The difference of two lists of rules is the loop over the hosts that the second has not.
  pub diff_k8s_ingress_rules_lem :
      (rules1 rules2 : List String)
      → diff_k8s_ingress_rules names rules1 rules2 wanted c
        ≡ rule_domains names wanted (keep (λ host. not (any (λ h. host == h) rules2)) rules1) c
  unfolding diff_k8s_ingress_rules rule_domains
  diff_k8s_ingress_rules_lem [] rules2 = refl
  diff_k8s_ingress_rules_lem (host ∷ rest) rules2 =
      let more = diff_k8s_ingress_rules_lem rest rules2 in
      elim (Bool-cases (any (λ h. host == h) rules2)) [
        | inl found ↦ rw found more
        | inr new_one ↦ rw (new_one, more) refl
      ]

host_names-keep :
    (names : NameLib) (p : String → Bool) (hosts : List String) (d : String)
    → has d (host_names names hosts) ≡ false
    → has d (host_names names (keep p hosts)) ≡ false
host_names-keep names p [] d h = refl
host_names-keep names p (host ∷ hosts) d h =
    let name : Option String = names.name_from_string host in
    let rest = host_names-keep names p hosts d in
    elim (Option-cases (names.name_from_string host)) [
      | inl invalid ↦ ground (
        arith,
        rest,
        ap (λ o. has d (with_name o (host_names names hosts))) invalid,
        ap (λ o. has d (with_name o (host_names names (keep p hosts)))) invalid,
      )
      | inr (domain, valid) ↦ ground (
        arith,
        rest,
        ap (λ o. has d (with_name o (host_names names hosts))) valid,
        ap (λ o. has d (with_name o (host_names names (keep p hosts)))) valid,
      )
    ]

with_name-rest : (o : Option String) (xs : List String) → Distinct (with_name o xs) → Distinct xs
with_name-rest none xs h = h
with_name-rest (some d) xs h = h.1

with_name-Distinct :
    (o : Option String) (xs ys : List String)
    → Distinct (with_name o xs)
    → Distinct ys
    → ((d : String) → has d xs ≡ false → has d ys ≡ false)
    → Distinct (with_name o ys)
with_name-Distinct none xs ys h rest fewer = rest
with_name-Distinct (some d) xs ys h rest fewer =
    (has_flip d ys ∙ fewer d (sym (has_flip d xs) ∙ h.0), rest)

pub host_names-keep-Distinct :
    (names : NameLib) (p : String → Bool) (hosts : List String)
    → Distinct (host_names names hosts)
    → Distinct (host_names names (keep p hosts))
host_names-keep-Distinct names p [] h = h
host_names-keep-Distinct names p (host ∷ hosts) h =
    let name : Option String = names.name_from_string host in
    let rest : Distinct (host_names names (keep p hosts)) =
      host_names-keep-Distinct names p hosts (with_name-rest name (host_names names hosts) h) in
    elim (Bool-cases (p host)) [
      | inr skipped ↦ rw skipped rest
      | inl kept ↦ rw kept (
          with_name-Distinct name (host_names names hosts) (host_names names (keep p hosts)) h rest
            (host_names-keep names p hosts))
    ]
