-- ===== src/Globaldns/Zones.antt =====
-- pkg/globaldns/globaldns.go: the zones of the clusters side by side on one server, when the map of
-- the syncers changes.
use mathlib.Core.Path.{subst}
use gao_cloud.Prelude.{
  ◌≡◌, sym, ap, ◌∙◌, inl, inr, ◌⊎◌, true, false, some, String, ◌==◌, [], ◌∷◌, any, Map, lookup,
  insert, remove, lookup-insert, lookup-remove, arith, eq_iff, Bool-cases,
}
use gao_cloud.Globaldns.{ClusterDnsSyncer}
use gao_cloud.Globaldns.Proxy.{DnsServer, gen_auth_rr, default_view}
use gao_cloud.Globaldns.Records.{in_zone}
use gao_cloud.Globaldns.Sync.{NoRepeats, Served, Keeps}
use gao_cloud.Globaldns.Manager.{GlobalDns}

-- For every cluster's syncer: its lists are without repetitions, the server holds the record of the
-- domain and the address exactly if both are in them, and no other cluster has its zone.
pub record AllServed {W : Type 0} (server : DnsServer W) (d ip : String) (g : GlobalDns W)
    : Type 0 where
  pub no_repeats : (n : String) (c : ClusterDnsSyncer) → lookup n g.0 ≡ some c → NoRepeats c
  pub served :
      (n : String) (c : ClusterDnsSyncer) → lookup n g.0 ≡ some c → Served server d ip c g.1
  pub zones_apart :
      (n n' : String) (c c' : ClusterDnsSyncer)
      → lookup n g.0 ≡ some c
      → lookup n' g.0 ≡ some c'
      → (n == n') ≡ false
      → (c.zone_name == c'.zone_name) ≡ false

pub zone_fresh :
    (zone n : String) (c : ClusterDnsSyncer) (m : Map ClusterDnsSyncer)
    → any (λ entry. entry.1.zone_name == zone) m ≡ false
    → lookup n m ≡ some c
    → (c.zone_name == zone) ≡ false
unfolding lookup
zone_fresh zone n c [] fresh h = cc h
zone_fresh zone n c (entry ∷ m) fresh h = elim (Bool-cases (entry.0 == n)) [
  | inl here ↦
      let e : entry.1 ≡ c = cc (rw here at h) in
      ap (λ x. x.zone_name == zone) (sym e) ∙ ground (arith, fresh)
  | inr there ↦ zone_fresh zone n c m (ground (arith, fresh)) (rw there at h)
]

pub Keeps-trans :
    {W : Type 0} {server : DnsServer W} {c c' c'' : ClusterDnsSyncer} {w w' w'' : W}
    → Keeps server c w c' w'
    → Keeps server c' w' c'' w''
    → Keeps server c w c'' w''
Keeps-trans k k' = record {
  zone_kept = k'.zone_kept ∙ k.zone_kept;
  no_repeats = k'.no_repeats;
  served = λ d ip h. k'.served d ip (k.served d ip h);
  others = λ zone d ip h.
      k'.others zone d ip (ap (λ z. z == zone) k.zone_kept ∙ h) ∙ k.others zone d ip h;
}

inserted :
    (name n : String) (c x : ClusterDnsSyncer) (m : Map ClusterDnsSyncer)
    → lookup n (insert name c m) ≡ some x
    → (((name == n) ≡ true) × (x ≡ c)) ⊎ (((name == n) ≡ false) × (lookup n m ≡ some x))
inserted name n c x m h = elim (Bool-cases (name == n)) [
  | inl same ↦ inl (same, ground (arith, h, same, lookup-insert name n c m))
  | inr other ↦ inr (other, ground (arith, h, other, lookup-insert name n c m))
]

removed :
    (name n : String) (x : ClusterDnsSyncer) (m : Map ClusterDnsSyncer)
    → lookup n (remove name m) ≡ some x
    → ((name == n) ≡ false) × (lookup n m ≡ some x)
removed name n x m h = ground (arith, h, lookup-remove name n m)

pub in_zone_gen :
    (zone zone' d ip : String)
    → in_zone default_view zone (gen_auth_rr zone' d ip) ≡ (zone == zone')
unfolding gen_auth_rr
in_zone_gen zone zone' d ip = ground arith

pub zone_flip : (a b : String) → (a == b) ≡ false → (b == a) ≡ false
zone_flip a b h = ground (arith, h, eq_iff a b, eq_iff b a)

module _ {W : Type 0} {server : DnsServer W} {d ip : String} where
  -- The entry of one cluster is replaced or added, and its handler does not touch other zones.
  pub insert-AllServed :
      (name : String) (c : ClusterDnsSyncer) (m : Map ClusterDnsSyncer) (w w' : W)
      → NoRepeats c
      → Served server d ip c w'
      → ((n : String) (x : ClusterDnsSyncer)
          → lookup n m ≡ some x
          → (name == n) ≡ false
          → (c.zone_name == x.zone_name) ≡ false)
      → ((zone : String)
          → (c.zone_name == zone) ≡ false
          → server.holds w' (gen_auth_rr zone d ip) ≡ server.holds w (gen_auth_rr zone d ip))
      → AllServed server d ip (m, w)
      → AllServed server d ip (insert name c m, w')
  insert-AllServed name c m w w' apart good fresh others h = record {
    no_repeats = λ n x e. elim (inserted name n c x m e) [
      | inl (same, here) ↦ subst NoRepeats (sym here) apart
      | inr (other, there) ↦ h.no_repeats n x there
    ];
    served = λ n x e. elim (inserted name n c x m e) [
      | inl (same, here) ↦ subst (λ y. Served server d ip y w') (sym here) good
      | inr (other, there) ↦ others x.zone_name (fresh n x there other) ∙ h.served n x there
    ];
    zones_apart = λ n n' x x' e e' differ. elim (inserted name n c x m e) [
      | inl (same, here) ↦ elim (inserted name n' c x' m e') [
        | inl (same', here') ↦
            let both : (n == n') ≡ true =
              ground (arith, same, same', eq_iff name n, eq_iff name n', eq_iff n n') in
            cc (differ, both)
        | inr (other', there') ↦
            ap (λ y. y.zone_name == x'.zone_name) here ∙ fresh n' x' there' other'
      ]
      | inr (other, there) ↦ elim (inserted name n' c x' m e') [
        | inl (same', here') ↦
            ap (λ y. x.zone_name == y.zone_name) here'
            ∙ zone_flip c.zone_name x.zone_name (fresh n x there other)
        | inr (other', there') ↦ h.zones_apart n n' x x' there there' differ
      ]
    ];
  }

  pub remove-AllServed :
      (name : String) (c : ClusterDnsSyncer) (m : Map ClusterDnsSyncer) (w w' : W)
      → lookup name m ≡ some c
      → ((zone : String)
          → (c.zone_name == zone) ≡ false
          → server.holds w' (gen_auth_rr zone d ip) ≡ server.holds w (gen_auth_rr zone d ip))
      → AllServed server d ip (m, w)
      → AllServed server d ip (remove name m, w')
  remove-AllServed name c m w w' known others h = record {
    no_repeats = λ n x e. h.no_repeats n x (removed name n x m e).1;
    served = λ n x e.
        let r = removed name n x m e in
        others x.zone_name (h.zones_apart name n c x known r.1 r.0) ∙ h.served n x r.1;
    zones_apart = λ n n' x x' e e' differ.
        h.zones_apart n n' x x' (removed name n x m e).1 (removed name n' x' m e').1 differ;
  }
