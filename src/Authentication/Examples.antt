-- ===== src/Authentication/Examples.antt =====
-- One user, tokens in place of which their user's name stands, and a table that takes every write.
use gao_cloud.Prelude.{
  ◌≡◌, ◌≤◌, ◌<◌, refl, none, some, String, ◌==◌, List, [], ◌∷◌, arith, ok, err, lookup, Option,
  if◌then◌else◌, nat_eq, ◌&&◌, inl, inr, Option-cases, Bool-cases, eq_iff, sym, ap, ◌∙◌,
}
use gao_cloud.Samples.{all_fine}
use gao_cloud.Authentication.{
  Claims, JwtLib, IsJwt, Authenticator, HttpRequest, expired_token, login, create_token, sign_token,
  authenticate_jwt, from_cas,
}
use gao_cloud.Authentication.Sync.{InSync, adds, authenticates, call_all, call_all-InSync}
use gao_cloud.Authentication.Sessions.{login-authenticate, from_cas-create_token}

-- A library that signs the claims of one user at one time.
abbrev alice_claims : Claims
alice_claims = record { user = some "alice"; expire_at = some 86400 }

abbrev sign : Claims → Option String
sign c = elim c.user [
  | none ↦ none
  | some user ↦ elim c.expire_at [
    | none ↦ none
    | some expire ↦ if user == "alice" && nat_eq expire 86400 then some "alice-token" else none
  ]
]

abbrev jwt : JwtLib
jwt = record { sign = sign; parse = λ t. if t == "alice-token" then some alice_claims else none }

sign-alice :
    (c : Claims) (t : String)
    → sign c ≡ some t
    → (t ≡ "alice-token") × ((c.user ≡ some "alice") × (c.expire_at ≡ some 86400))
sign-alice c t h = elim (Option-cases c.user) [
  | inl absent ↦ cc (rw absent at h)
  | inr (user, there) ↦ elim (Option-cases c.expire_at) [
    | inl absent ↦ cc (rw (there, absent) at h)
    | inr (expire, until) ↦ elim (Bool-cases (user == "alice" && nat_eq expire 86400)) [
      | inr other ↦ cc (rw (there, until, other) at h)
      | inl hit ↦
          let name : user ≡ "alice" = (eq_iff user "alice").0 (ground (arith, hit)) in
          let time : expire ≡ 86400 = ground (arith, hit) in
          let token : "alice-token" ≡ t = cc (rw (there, until, hit) at h) in
          (sym token, (there ∙ ap some name, until ∙ ap some time))
    ]
  ]
]

jwt-IsJwt : IsJwt jwt
jwt-IsJwt c t h =
    let r = sign-alice c t h in
    let same : alice_claims ≡ c = λ i. record { user = sym r.1.0 i; expire_at = sym r.1.1 i } in
    (rw r.0 (ap some same), λ empty. cc (empty, r.0))

abbrev split_bearer : String → List String
split_bearer header = header ∷ []

abbrev one : Authenticator
one = record { users = ("alice", "secret") ∷ []; table = ("alice", "secret") ∷ []; sessions = [] }

call_all-InSync_example : InSync (
    call_all jwt split_bearer
      (adds all_fine "bob" "pw"
        ∷ authenticates 5 all_fine
            (some (ok "carol"))
            (record { cookie = none; authorization = "" })
        ∷ [])
      one)
call_all-InSync_example =
    call_all-InSync jwt split_bearer
      (adds all_fine "bob" "pw"
        ∷ authenticates 5 all_fine (some (ok "carol"))
            (record { cookie = none; authorization = "" })
        ∷ [])
      one (λ name. refl)

-- After the login of the user at time 0, its cookie is good until the second 86400.
login-authenticate_example :
    let a' = (login jwt 0 "cookie" "alice" "secret" one).1 in
    let req : HttpRequest = record { cookie = some "cookie"; authorization = "" } in
    (7 ≤ 86400000000000 → authenticate_jwt jwt split_bearer 7 req a' ≡ ok "alice")
    × (86400000000000 < 7 → authenticate_jwt jwt split_bearer 7 req a' ≡ err expired_token)
unfolding login create_token sign_token lookup
login-authenticate_example =
    login-authenticate jwt split_bearer 0 7 "cookie" "alice" "secret" "" one jwt-IsJwt (λ e. cc e)
      refl

from_cas-create_token_example :
    create_token jwt 0 "bob" "" (from_cas all_fine (some (ok "bob")) one).1 ≡ sign_token jwt 0 "bob"
unfolding lookup
from_cas-create_token_example =
    from_cas-create_token jwt all_fine 0 "bob" one (λ e. cc e) refl refl refl
