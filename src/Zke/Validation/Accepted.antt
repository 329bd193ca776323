-- ===== src/Zke/Validation/Accepted.antt =====
-- Which configurations a creation accepts.
use gao_cloud.Prelude.{
  ◌≡◌, ◌≢◌, ◌↔◌, inl, inr, true, not, ◌||◌, String, ◌==◌, eq_iff, arith, any, Bool-cases, Passes,
  Passes-guard, any-Memᴰ, any-found, Passes-then, Result, Passes-each, each, guard, ◌>>◌,
}
use mathlib.Core.List.{Memᴰ}
use gao_cloud.Zke.Validation.{
  Node, ApiCluster, Parsers, has_role, role_control_plane, role_worker, is_ipv4_host, host_of,
  validate_node, validate_duplicate_nodes, validate_node_count, validate_node_name_role_and_address,
  validate_gao_cloud_address, validate_lb_config, validate_cluster_cidr_and_ips, create_validators,
  validate_config_for_create, validate_cluster_ssh_key_not_empty, bad_gao_cloud_address,
  gao_cloud_is_node, bad_upstream_dns,
}
use gao_cloud.Zke.Validation.Nodes.{
  AreApart, validate_duplicate_nodes_iff, IsNode, validate_node_iff,
}

-- The six validators pass where each does.
six_checks :
    {E : Type 0} (a b c d e f : Result E (Unit {0}))
    → Passes (do a; b; c; d; e; f)
      ↔ (Passes a × (Passes b × (Passes c × (Passes d × (Passes e × Passes f)))))
six_checks a b c d e f = ground arith

module _ (parsers : Parsers) where
  open parsers use {is_ipv4, is_cidr_v4, is_cidr_v4_contains, split_colon, atoi}

  -- The address of the platform is that of a host, which is no node.
  pub record IsOutside (c : ApiCluster) : Type 0 where
    pub is_host : is_ipv4_host parsers c.gao_cloud_address ≡ true
    pub no_node :
        (n : Node) → Memᴰ n c.nodes → n.address ≢ host_of (split_colon c.gao_cloud_address)

  validate_gao_cloud_address_iff :
      (c : ApiCluster) → Passes (validate_gao_cloud_address parsers c) ↔ IsOutside c
  unfolding validate_gao_cloud_address
  validate_gao_cloud_address_iff c =
      let host = host_of (split_colon c.gao_cloud_address) in
      let check = λ (n : Node). guard (not (n.address == host)) gao_cloud_is_node in
      let all = Passes-each check c.nodes in
      let both =
        Passes-then (guard (is_ipv4_host parsers c.gao_cloud_address) bad_gao_cloud_address)
          (each check c.nodes) in
      let own = Passes-guard (is_ipv4_host parsers c.gao_cloud_address) bad_gao_cloud_address in
      (
        λ h. record {
          is_host = own.0 (both.0 h).0;
          no_node = λ n m.
              let passed = all.0 (both.0 h).1 n m in ground (arith, passed, eq_iff n.address host);
        },
        λ h.
            both.1 (
              own.1 h.is_host,
              all.1 (λ n m. ground (arith, h.no_node n m, eq_iff n.address host)),
            ),
      )

  -- Where it is asked for, the load balancer has a master, a backup or none, and a user.
  pub record IsBalanced (c : ApiCluster) : Type 0 where
    pub has_master :
        c.load_balance.enable ≡ true
        → (is_ipv4 c.load_balance.master_server
            || is_ipv4_host parsers c.load_balance.master_server)
          ≡ true
    pub has_backup :
        c.load_balance.enable ≡ true
        → c.load_balance.backup_server ≢ ""
        → (is_ipv4 c.load_balance.backup_server
            || is_ipv4_host parsers c.load_balance.backup_server)
          ≡ true
    pub has_user : c.load_balance.enable ≡ true → c.load_balance.user ≢ ""

  validate_lb_config_iff : (c : ApiCluster) → Passes (validate_lb_config parsers c) ↔ IsBalanced c
  unfolding validate_lb_config
  validate_lb_config_iff c =
      let backup = eq_iff c.load_balance.backup_server "" in
      let user = eq_iff c.load_balance.user "" in
      (
        λ h. record {
          has_master = λ on. ground (arith, h, on);
          has_backup = λ on some_one. ground (arith, h, on, some_one, backup);
          has_user = λ on. ground (arith, h, on, user);
        },
        λ h. elim (Bool-cases c.load_balance.enable) [
          | inr off ↦ ground (arith, off)
          | inl on ↦ elim (Bool-cases (c.load_balance.backup_server == "")) [
            | inl alone ↦ ground (arith, on, alone, h.has_master on, h.has_user on, user)
            | inr backed ↦
                let pair = h.has_backup on (λ e. cc (backup.1 e, backed)) in
                ground (arith, on, backed, pair, h.has_master on, h.has_user on, user)
          ]
        ],
      )

  pub record IsAddressed (c : ApiCluster) : Type 0 where
    pub dns_service : is_ipv4 c.cluster_dns_service_ip ≡ true
    pub upstream : (ns : String) → Memᴰ ns c.cluster_upstream_dns → is_ipv4 ns ≡ true
    pub cluster : is_cidr_v4 c.cluster_cidr ≡ true
    pub service : is_cidr_v4 c.service_cidr ≡ true
    pub contains : is_cidr_v4_contains c.service_cidr c.cluster_dns_service_ip ≡ true

  validate_cluster_cidr_and_ips_iff :
      (c : ApiCluster) → Passes (validate_cluster_cidr_and_ips parsers c) ↔ IsAddressed c
  unfolding validate_cluster_cidr_and_ips
  validate_cluster_cidr_and_ips_iff c =
      let check = λ (ns : String). guard (is_ipv4 ns) bad_upstream_dns in
      let all = Passes-each check c.cluster_upstream_dns in
      (
        λ h. record {
          dns_service = ground (arith, h);
          upstream = λ ns m.
              let passed : Passes (each check c.cluster_upstream_dns) = ground (arith, h) in
              ground (arith, all.0 passed ns m);
          cluster = ground (arith, h);
          service = ground (arith, h);
          contains = ground (arith, h);
        },
        λ h.
            let passed = all.1 (λ ns m. ground (arith, h.upstream ns m)) in
            ground (arith, passed, h.dns_service, h.cluster, h.service, h.contains),
      )

  -- What a cluster must satisfy before it is set up.
  pub record IsConfig (c : ApiCluster) : Type 0 where
    pub addressed : IsAddressed c
    pub apart : AreApart c.nodes
    pub control_plane : (n : Node) × (Memᴰ n c.nodes × (has_role role_control_plane n ≡ true))
    pub worker : (n : Node) × (Memᴰ n c.nodes × (has_role role_worker n ≡ true))
    pub each_node : (n : Node) → Memᴰ n c.nodes → IsNode parsers n
    pub outside : IsOutside c
    pub balanced : IsBalanced c

  validate_node_count_iff :
      (c : ApiCluster)
      → Passes (validate_node_count c)
        ↔ (any (has_role role_control_plane) c.nodes ≡ true)
          × (any (has_role role_worker) c.nodes ≡ true)
  unfolding validate_node_count
  validate_node_count_iff c = ground arith

  pub create_validators_iff : (c : ApiCluster) → Passes (create_validators parsers c) ↔ IsConfig c
  unfolding create_validators validate_node_name_role_and_address
  create_validators_iff c =
      let addressed = validate_cluster_cidr_and_ips_iff c in
      let apart = validate_duplicate_nodes_iff c in
      let count = validate_node_count_iff c in
      let nodes = Passes-each (validate_node parsers) c.nodes in
      let outside = validate_gao_cloud_address_iff c in
      let balanced = validate_lb_config_iff c in
      let six =
        six_checks (validate_cluster_cidr_and_ips parsers c) (validate_duplicate_nodes c)
          (validate_node_count c) (validate_node_name_role_and_address parsers c)
          (validate_gao_cloud_address parsers c) (validate_lb_config parsers c) in
      (
        λ h.
            let r = six.0 h in
            record {
              addressed = addressed.0 r.0;
              apart = apart.0 r.1.0;
              control_plane = any-Memᴰ (has_role role_control_plane) c.nodes (count.0 r.1.1.0).0;
              worker = any-Memᴰ (has_role role_worker) c.nodes (count.0 r.1.1.0).1;
              each_node = λ n m. (validate_node_iff parsers n).0 (nodes.0 r.1.1.1.0 n m);
              outside = outside.0 r.1.1.1.1.0;
              balanced = balanced.0 r.1.1.1.1.1;
            },
        λ h. six.1 (
          addressed.1 h.addressed,
          (
            apart.1 h.apart,
            (
              count.1 (
                any-found (has_role role_control_plane) c.nodes h.control_plane,
                any-found (has_role role_worker) c.nodes h.worker,
              ),
              (
                nodes.1 (λ n m. (validate_node_iff parsers n).1 (h.each_node n m)),
                (outside.1 h.outside, balanced.1 h.balanced),
              ),
            ),
          ),
        ),
      )

  pub validate_config_for_create_iff :
      (c : ApiCluster)
      → Passes (validate_config_for_create parsers c) ↔ (IsConfig c × (c.ssh_key ≢ ""))
  unfolding validate_config_for_create validate_cluster_ssh_key_not_empty
  validate_config_for_create_iff c =
      let both = Passes-then (create_validators parsers c) (validate_cluster_ssh_key_not_empty c) in
      let config = create_validators_iff c in
      let key = eq_iff c.ssh_key "" in
      (
        λ h. (config.0 (both.0 h).0, let r = (both.0 h).1 in ground (arith, r, key)),
        λ h. both.1 (config.1 h.0, ground (arith, h.1, key)),
      )
