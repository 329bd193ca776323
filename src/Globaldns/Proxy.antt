-- ===== src/Globaldns/Proxy.antt =====
-- pkg/globaldns/proxy.go: the commands for the DNS server.
use gao_cloud.Prelude.{
  ℕ, Bool, true, false, ◌&&◌, ◌||◌, Option, String, List, [], ◌∷◌, ◌++◌, map, if◌then◌else◌, Result,
  ok, err, guard, or_err, ◌>>=◌, ◌>>◌,
}

abbrev pub default_ttl : String
default_ttl = "3600"

-- `g53.RR_A.String()` and `view.DefaultView`
abbrev pub type_a : String
type_a = "A"

abbrev pub default_view : String
default_view = "default"

pub record AuthRr : Type 0 where
  pub view : String
  pub zone : String
  pub name : String
  pub ttl : String
  pub rr_type : String
  pub rdata : String

pub data Command : Type 0 where
  ping : Command
  add_auth_zone delete_auth_zone : String → String → Command
  add_auth_rrs delete_auth_rrs : List AuthRr → Command
  update_auth_rrs : List AuthRr → List AuthRr → Command

-- The server in the state `W`: what it does with a command and whether it answers without an error,
-- and whether it holds a record.
pub record DnsServer (W : Type 0) : Type 0 where
  pub handle : Command → W → W × Bool
  pub holds : W → AuthRr → Bool

unfoldable pub gen_auth_rr : String → String → String → AuthRr
gen_auth_rr zone domain ip = record {
  view = default_view;
  zone = zone;
  name = domain;
  ttl = default_ttl;
  rr_type = type_a;
  rdata = ip;
}

unfoldable pub gen_auth_rrs : String → List String → List String → List AuthRr
unfolding gen_auth_rr
gen_auth_rrs zone [] ips = []
gen_auth_rrs zone (d ∷ domains) ips =
    map (λ ip. gen_auth_rr zone d ip) ips ++ gen_auth_rrs zone domains ips

abbrev pub is_empty : List String → Bool
is_empty [] = true
is_empty (x ∷ xs) = false

pub data ProxyError : Type 0 where
  addr_invalid port_invalid proxy_failed ping_failed : ProxyError

-- `newDnsProxy`, with `strings.Split` at the colons, `strconv.Atoi` and `httpcmd.GetProxy` as
-- parameters; the proxy is the address it is made for.
module _ {W : Type 0} (server : DnsServer W) (split : String → List String)
    (atoi : String → Option ℕ) (get_proxy : String → ℕ → Bool) where
  unfoldable pub new_dns_proxy : String → W → Result ProxyError (String × ℕ)
  new_dns_proxy addr w = elim (split addr) [
    | [] ↦ err addr_invalid
    | ip ∷ [] ↦ err addr_invalid
    | ip ∷ port ∷ [] ↦ do
      n ← or_err (atoi port) port_invalid
      guard (get_proxy ip n) proxy_failed
      guard (server.handle ping w).1 ping_failed
      ok (ip, n)
    | ip ∷ port ∷ more ∷ rest ↦ err addr_invalid
  ]

module _ {W : Type 0} (server : DnsServer W) where
  -- `AddAuthZone`: the answer to the deletion before it is not looked at.
  unfoldable pub add_zone : String → W → W × Bool
  add_zone zone w =
      let w' : W = (server.handle (delete_auth_zone default_view zone) w).0 in
      server.handle (add_auth_zone default_view zone) w'

  unfoldable pub delete_zone : String → W → W × Bool
  delete_zone zone w = server.handle (delete_auth_zone default_view zone) w

  unfoldable pub add_rrs : String → List String → List String → W → W × Bool
  unfolding gen_auth_rrs
  add_rrs zone domains ips w =
      if is_empty domains || is_empty ips
      then (w, true)
      else server.handle (add_auth_rrs (gen_auth_rrs zone domains ips)) w

  unfoldable pub delete_rrs : String → List String → List String → W → W × Bool
  unfolding gen_auth_rrs
  delete_rrs zone domains ips w =
      if is_empty domains || is_empty ips
      then (w, true)
      else server.handle (delete_auth_rrs (gen_auth_rrs zone domains ips)) w

  unfoldable pub update_rrs : String → List String → List String → List String → W → W × Bool
  unfolding gen_auth_rrs
  update_rrs zone old_domains new_domains ips w =
      if (is_empty old_domains && is_empty new_domains) || is_empty ips
      then (w, true)
      else server.handle
          (update_auth_rrs (gen_auth_rrs zone old_domains ips) (gen_auth_rrs zone new_domains ips))
          w
