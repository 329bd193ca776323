-- ===== src/Globaldns/Records.antt =====
-- pkg/globaldns/proxy.go: the records that the server holds after the commands, when it carries them
-- out.
use gao_cloud.Prelude.{
  ◌≡◌, refl, inl, inr, Bool, true, false, not, ◌&&◌, ◌||◌, String, ◌==◌, List, [], ◌∷◌, ◌++◌, map,
  any, if◌then◌else◌, arith, Bool-cases,
}
use gao_cloud.Globaldns.Texts.{has}
use gao_cloud.Globaldns.Proxy.{
  AuthRr, Command, ping, add_auth_zone, delete_auth_zone, add_auth_rrs, delete_auth_rrs,
  update_auth_rrs, DnsServer, gen_auth_rr, gen_auth_rrs, add_rrs, delete_rrs, update_rrs, is_empty,
}

unfoldable pub same_rr : AuthRr → AuthRr → Bool
same_rr a b =
    a.zone == b.zone
    && (a.name == b.name
        && (a.rdata == b.rdata && (a.view == b.view && (a.ttl == b.ttl && a.rr_type == b.rr_type))))

unfoldable pub among : AuthRr → List AuthRr → Bool
unfolding same_rr
among rr rrs = any (λ r. same_rr r rr) rrs

abbrev pub in_zone : String → String → AuthRr → Bool
in_zone view zone rr = view == rr.view && zone == rr.zone

-- Whether a record is held after a command that the server carries out, from whether it was before;
-- a new zone has the records of `basic`.
unfoldable pub effect : (AuthRr → Bool) → Command → AuthRr → Bool → Bool
unfolding among
effect basic ping rr held = held
effect basic (add_auth_zone view zone) rr held = if in_zone view zone rr then basic rr else held
effect basic (delete_auth_zone view zone) rr held = held && not (in_zone view zone rr)
effect basic (add_auth_rrs rrs) rr held = held || among rr rrs
effect basic (delete_auth_rrs rrs) rr held = held && not (among rr rrs)
effect basic (update_auth_rrs olds news) rr held = (held && not (among rr olds)) || among rr news

-- In the state `w` the server carries out any command, as it does where it has the zones of the
-- command's records.
abbrev pub CarriesOut : {W : Type 0} → (AuthRr → Bool) → DnsServer W → W → Type 0
CarriesOut basic server w =
    (cmd : Command) (rr : AuthRr)
    → server.holds (server.handle cmd w).0 rr ≡ effect basic cmd rr (server.holds w rr)

same_gen :
    (zone zone' d d' ip ip' : String)
    → same_rr (gen_auth_rr zone d ip) (gen_auth_rr zone' d' ip')
      ≡ ((zone == zone') && ((d == d') && (ip == ip')))
unfolding same_rr gen_auth_rr
same_gen zone zone' d d' ip ip' = ground arith

among-append :
    (rr : AuthRr) (rrs rrs' : List AuthRr)
    → among rr (rrs ++ rrs') ≡ (among rr rrs || among rr rrs')
unfolding among
among-append rr [] rrs' = refl
among-append rr (r ∷ rrs) rrs' = ground (arith, among-append rr rrs rrs')

among-map :
    (zone zone' d d' ip' : String) (ips : List String)
    → among (gen_auth_rr zone' d' ip') (map (λ ip. gen_auth_rr zone d ip) ips)
      ≡ ((zone == zone') && ((d == d') && has ip' ips))
unfolding among
among-map zone zone' d d' ip' [] = ground arith
among-map zone zone' d d' ip' (ip ∷ ips) =
    ground (arith, same_gen zone zone' d d' ip ip', among-map zone zone' d d' ip' ips)

-- The generated records are those of the zone, the domains and the addresses.
pub among-gen_auth_rrs :
    (zone zone' d ip : String) (domains ips : List String)
    → among (gen_auth_rr zone' d ip) (gen_auth_rrs zone domains ips)
      ≡ ((zone == zone') && (has d domains && has ip ips))
unfolding gen_auth_rrs among
among-gen_auth_rrs zone zone' d ip [] ips = ground arith
among-gen_auth_rrs zone zone' d ip (x ∷ domains) ips =
    let rr = gen_auth_rr zone' d ip in
    ground (
      arith,
      among-append rr (map (λ k. gen_auth_rr zone x k) ips) (gen_auth_rrs zone domains ips),
      among-map zone zone' x d ip ips,
      among-gen_auth_rrs zone zone' d ip domains ips,
    )

is_empty-has : (d : String) (xs : List String) → is_empty xs ≡ true → has d xs ≡ false
is_empty-has d [] h = refl
is_empty-has d (x ∷ xs) h = cc h

module _ {W : Type 0} (basic : AuthRr → Bool) (server : DnsServer W) (w : W)
    (carries : CarriesOut basic server w) (zone zone' d ip : String) where
  pub add_rrs_lem :
      (domains ips : List String)
      → server.holds (add_rrs server zone domains ips w).0 (gen_auth_rr zone' d ip) ≡ (
          server.holds w (gen_auth_rr zone' d ip)
          || ((zone == zone') && (has d domains && has ip ips)))
  unfolding add_rrs effect
  add_rrs_lem domains ips = elim (Bool-cases (is_empty domains || is_empty ips)) [
    | inl nothing ↦ rw nothing ground (arith, nothing, is_empty-has d domains, is_empty-has ip ips)
    | inr something ↦
        rw
          (
            something,
            carries (add_auth_rrs (gen_auth_rrs zone domains ips)) (gen_auth_rr zone' d ip),
            among-gen_auth_rrs zone zone' d ip domains ips,
          )
          refl
  ]

  pub delete_rrs_lem :
      (domains ips : List String)
      → server.holds (delete_rrs server zone domains ips w).0 (gen_auth_rr zone' d ip) ≡ (
          server.holds w (gen_auth_rr zone' d ip)
          && not ((zone == zone') && (has d domains && has ip ips)))
  unfolding delete_rrs effect
  delete_rrs_lem domains ips = elim (Bool-cases (is_empty domains || is_empty ips)) [
    | inl nothing ↦ rw nothing ground (arith, nothing, is_empty-has d domains, is_empty-has ip ips)
    | inr something ↦
        rw
          (
            something,
            carries (delete_auth_rrs (gen_auth_rrs zone domains ips)) (gen_auth_rr zone' d ip),
            among-gen_auth_rrs zone zone' d ip domains ips,
          )
          refl
  ]

  pub update_rrs_lem :
      (olds news ips : List String)
      → server.holds (update_rrs server zone olds news ips w).0 (gen_auth_rr zone' d ip) ≡ (
          (server.holds w (gen_auth_rr zone' d ip)
            && not ((zone == zone') && (has d olds && has ip ips)))
          || ((zone == zone') && (has d news && has ip ips)))
  unfolding update_rrs effect
  update_rrs_lem olds news ips =
      elim (Bool-cases ((is_empty olds && is_empty news) || is_empty ips)) [
        | inl nothing ↦
            rw nothing ground
              (arith, nothing, is_empty-has d olds, is_empty-has d news, is_empty-has ip ips)
        | inr something ↦
            rw
              (
                something,
                carries (update_auth_rrs (gen_auth_rrs zone olds ips) (gen_auth_rrs zone news ips))
                    (gen_auth_rr zone' d ip),
                among-gen_auth_rrs zone zone' d ip olds ips,
                among-gen_auth_rrs zone zone' d ip news ips,
              )
              refl
      ]
