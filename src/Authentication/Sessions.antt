-- ===== src/Authentication/Sessions.antt =====
-- What a login gives, and what takes it away.

use gao_cloud.Prelude.{
  ◌≡◌, ◌≢◌, ◌≤◌, ◌<◌, ◌∙◌, sym, ℕ, ◌+◌, ◌*◌, ◌/◌, inl, inr, refl, ap, Bool, true, false, not, none,
  some, String, ◌==◌, eq_iff, eq_refl, List, arith, lookup, lookup-insert, lookup-remove,
  Bool-cases, Option-cases, ok, err, le→ltb, lt→ltb,
}
use gao_cloud.Kvzoo.{Faults, fine}
use gao_cloud.Kvzoo
use gao_cloud.Authentication.{
  expired_token, wrong_password, Authenticator, HttpRequest, JwtLib, IsJwt, second,
  token_valid_duration, add_user, reset_password, commit_user, login, clear_session,
  authenticate_jwt, create_token, sign_token, parse_token, add_session, get_session,
  get_from_header, has_user, from_cas,
}

reset_password-lookup :
    (f : Faults) (name old new : String) (force : Bool) (a : Authenticator)
    → (reset_password f name old new force a).0 ≡ none
    → lookup name (reset_password f name old new force a).1.users ≡ some new
unfolding reset_password commit_user
reset_password-lookup f name old new force a h =
    ground (arith, h, lookup-insert name name new a.users, eq_refl name)

from_cas-lookup :
    (f : Faults) (name : String) (a : Authenticator)
    → name ≢ ""
    → lookup name a.users ≡ none
    → lookup name a.table ≡ none
    → fine f ≡ true
    → lookup name (from_cas f (some (ok name)) a).1.users ≡ some ""
unfolding from_cas add_user commit_user has_user Kvzoo.add
from_cas-lookup f name a named unknown absent works = ground (
  arith,
  named,
  eq_iff name "",
  unknown,
  absent,
  works,
  lookup-insert name name "" a.users,
  eq_refl name,
)

module _ (jwt : JwtLib) (split_bearer : String → List String) where
  -- A login that gives a session has the password, and a token signed for the user.
  record Login (now : ℕ) (key name password : String) (a : Authenticator) : Type 0 where
    token : String
    has_password : lookup name a.users ≡ some password
    signed :
        jwt.sign
          (record { user = some name; expire_at = some ((now + token_valid_duration) / second) })
        ≡ some token
    after : (login jwt now key name password a).1 ≡ add_session key token a

  login-Login :
      (now : ℕ) (key name password : String) (a : Authenticator)
      → (login jwt now key name password a).0 ≡ none
      → Login now key name password a
  unfolding login create_token sign_token
  login-Login now key name password a h = elim (Option-cases (lookup name a.users)) [
    | inl unknown ↦ cc (rw (unknown, login) at h)
    | inr (known, there) ↦ elim (Bool-cases (not (password == known))) [
      | inl wrong ↦ cc (rw (there, login, wrong) at h)
      | inr right ↦
          elim (Option-cases (
            jwt.sign (record {
              user = some name;
              expire_at = some ((now + token_valid_duration) / second);
            }))) [
              | inl failed ↦ cc (rw (there, login, right, failed) at h)
              | inr (token, done) ↦ record {
                token = token;
                has_password =
                    there ∙ ap some (sym ((eq_iff password known).0 (ground (arith, right))));
                signed = done;
                after = rw (there, login, right, done) refl;
              }
            ]
    ]
  ]

  get_session-add_session :
      (key token header : String) (a : Authenticator)
      → get_session (record { cookie = some key; authorization = header }) (add_session key token a)
        ≡ token
  unfolding get_session add_session
  get_session-add_session key token header a =
      ground (arith, lookup-insert key key token a.sessions, eq_refl key)

  -- The token of the request's session is parsed.
  authenticate_jwt-get_session :
      (later : ℕ) (req : HttpRequest) (a : Authenticator) {token : String}
      → get_session req a ≡ token
      → token ≢ ""
      → authenticate_jwt jwt split_bearer later req a ≡ parse_token jwt later token
  unfolding authenticate_jwt
  authenticate_jwt-get_session later req a {token = token} e filled =
      ground (arith, e, filled, eq_iff token "")

  parse_token-live :
      (later expire : ℕ) (name token : String)
      → jwt.parse token ≡ some (record { user = some name; expire_at = some expire })
      → name ≢ ""
      → later ≤ expire * second
      → parse_token jwt later token ≡ ok name
  unfolding parse_token
  parse_token-live later expire name token parsed named live =
      let filled : (name == "") ≡ false = ground (arith, named, eq_iff name "") in
      rw (parsed, parse_token, le→ltb (expire * second) later live, filled) refl

  parse_token-over :
      (later expire : ℕ) (name token : String)
      → jwt.parse token ≡ some (record { user = some name; expire_at = some expire })
      → expire * second < later
      → parse_token jwt later token ≡ err expired_token
  unfolding parse_token
  parse_token-over later expire name token parsed over =
      rw (parsed, parse_token, lt→ltb (expire * second) later over) refl

  -- A session that a login gave is its user's for a day: a request with its cookie is answered with
  -- the name, until the token's second of expiry is over, and as expired after that. The name is not
  -- empty, and tokens that are signed are parsed.
  pub login-authenticate :
      (now later : ℕ) (key name password : String) (header : String) (a : Authenticator)
      → IsJwt jwt
      → name ≢ ""
      → (login jwt now key name password a).0 ≡ none
      → let a' = (login jwt now key name password a).1 in
        let req : HttpRequest = record { cookie = some key; authorization = header } in
        let end : ℕ = (now + token_valid_duration) / second * second in
        (later ≤ end → authenticate_jwt jwt split_bearer later req a' ≡ ok name)
        × (end < later → authenticate_jwt jwt split_bearer later req a' ≡ err expired_token)
  login-authenticate now later key name password header a works named h =
      let l = login-Login now key name password a h in
      let expire : ℕ = (now + token_valid_duration) / second in
      let req : HttpRequest = record { cookie = some key; authorization = header } in
      let token = works (record { user = some name; expire_at = some expire }) l.token l.signed in
      let asked : authenticate_jwt jwt split_bearer later req (login jwt now key name password a).1
          ≡ parse_token jwt later l.token =
        ap (authenticate_jwt jwt split_bearer later req) l.after
        ∙ authenticate_jwt-get_session later req (add_session key l.token a)
            (get_session-add_session key l.token header a) token.1 in
      (
        λ live. asked ∙ parse_token-live later expire name l.token token.0 named live,
        λ over. asked ∙ parse_token-over later expire name l.token token.0 over,
      )

  get_session-clear_session :
      (req : HttpRequest) (a : Authenticator) → get_session req (clear_session req a) ≡ ""
  unfolding get_session clear_session
  get_session-clear_session req a = elim (Option-cases req.cookie) [
    | inl absent ↦ rw (absent, get_session) refl
    | inr (key, there) ↦ ground (arith, there, lookup-remove key key a.sessions, eq_refl key)
  ]

  -- After a logout the request's cookie stands for no user; the request has no token in its header.
  pub clear_session-authenticate :
      (later : ℕ) (req : HttpRequest) (a : Authenticator)
      → get_from_header split_bearer req ≡ ""
      → authenticate_jwt jwt split_bearer later req (clear_session req a) ≡ ok ""
  unfolding authenticate_jwt
  clear_session-authenticate later req a bare =
      rw (get_session-clear_session req a, authenticate_jwt, bare) refl

module _ (jwt : JwtLib) where
  -- A reset that succeeds changes what the user logs in with: a later login with the new password is
  -- not refused for the password, and one with any other is.
  pub reset_password-create_token :
      (f : Faults) (now : ℕ) (name old new other : String) (force : Bool) (a : Authenticator)
      → (reset_password f name old new force a).0 ≡ none
      → let a' = (reset_password f name old new force a).1 in
        (create_token jwt now name new a' ≡ sign_token jwt now name)
        × (other ≢ new → create_token jwt now name other a' ≡ err wrong_password)
  unfolding create_token
  reset_password-create_token f now name old new other force a h =
      let stored = reset_password-lookup f name old new force a h in
      (
        ground (arith, stored, eq_refl new),
        λ wrong. ground (arith, stored, wrong, eq_iff other new),
      )

  -- A named user that only the CAS server knows is added with an empty password: after such a request the
  -- empty password gives a token for the user to anyone. The database takes the user.
  pub from_cas-create_token :
      (f : Faults) (now : ℕ) (name : String) (a : Authenticator)
      → name ≢ ""
      → lookup name a.users ≡ none
      → lookup name a.table ≡ none
      → fine f ≡ true
      → create_token jwt now name "" (from_cas f (some (ok name)) a).1 ≡ sign_token jwt now name
  unfolding create_token
  from_cas-create_token f now name a named unknown absent works =
      let stored = from_cas-lookup f name a named unknown absent works in ground (arith, stored)
