-- ===== src/Authentication.antt =====
-- pkg/authentication: the users' passwords in memory and in the table, the tokens that a login gives,
-- and the sessions that keep them (jwt/authenticator.go, jwt/db.go, jwt/token.go,
-- session/session.go), with the fall-back on a CAS server (authenticator.go). The library of the
-- tokens is a parameter, and so are the fresh key of a session and what the CAS server answers. Times
-- are in nanoseconds.
pub mod Sync
pub mod Sessions
mod Examples
use gao_cloud.Prelude.{
  ◌≡◌, ◌≢◌, ℕ, ◌+◌, ◌*◌, ◌/◌, Bool, true, false, not, ◌&&◌, Option, none, some, is_some, String,
  ◌==◌, List, [], ◌∷◌, ltb, if◌then◌else◌, Map, lookup, insert, remove, Result, ok, err, guard,
  ◌>>=◌, ◌>>◌,
}
use gao_cloud.Kvzoo
use gao_cloud.Kvzoo.{KvError, Faults, transact}
use gao_cloud.Authorization.{administrator}

abbrev pub admin_passwd : String
admin_passwd = "0192309fba8c6f0929b5b00867ebccac9a39e34e"

abbrev pub second : ℕ
second = 1000000000

-- `tokenValidDuration`
abbrev pub token_valid_duration : ℕ
token_valid_duration = 24 * 3600 * second

-- The claims of a token; a claim that is missing, or is of another type, is `none`.
pub record Claims : Type 0 where
  pub user : Option String
  pub expire_at : Option ℕ

-- github.com/dgrijalva/jwt-go with the platform's secret: `SignedString`, and `Parse` of a token that
-- is valid under the secret.
pub record JwtLib : Type 0 where
  pub sign : Claims → Option String
  pub parse : String → Option Claims

-- A token that was signed is parsed to its claims, and is not empty.
abbrev pub IsJwt : JwtLib → Type 0
IsJwt jwt = (c : Claims) (t : String) → jwt.sign c ≡ some t → (jwt.parse t ≡ some c) × (t ≢ "")

pub data AuthError : Type 0 where
  invalid_token expired_token : AuthError
  user_exists user_missing admin_kept : AuthError
  wrong_password empty_password no_token : AuthError
  cas_failed : AuthError
  db : KvError → AuthError

pub record Authenticator : Type 0 where
  pub users : Map String
  pub table : Map String
  pub sessions : Map String

-- What a request carries: the session's cookie, and the text of its header `Authorization`.
pub record HttpRequest : Type 0 where
  pub cookie : Option String
  pub authorization : String

unfoldable pub get_session : HttpRequest → Authenticator → String
get_session req a = elim req.cookie [
  | none ↦ ""
  | some key ↦ elim (lookup key a.sessions) [ none ↦ "" | some session ↦ session ]
]

unfoldable pub add_session : String → String → Authenticator → Authenticator
add_session key value a = record a { sessions = insert key value a.sessions }

unfoldable pub clear_session : HttpRequest → Authenticator → Authenticator
clear_session req a = elim req.cookie [
  | none ↦ a
  | some key ↦ record a { sessions = remove key a.sessions }
]

-- `strings.Split(reqToken, "Bearer ")` is a parameter.
unfoldable pub get_from_header : (String → List String) → HttpRequest → String
get_from_header split_bearer req =
    if req.authorization == "" then "" else elim (split_bearer req.authorization) [
      | [] ↦ ""
      | first ∷ rest ↦ elim rest [ [] ↦ "" | token ∷ more ↦ elim more [ [] ↦ token | _ ∷ _ ↦ "" ] ]
    ]

unfoldable pub has_user : String → Authenticator → Bool
has_user name a = is_some (lookup name a.users)

-- A change of the table, and of the memory after it.
unfoldable pub commit_user :
    Result KvError (Map String) → Map String → Authenticator → Option AuthError × Authenticator
commit_user (err e) users a = (some (db e), a)
commit_user (ok t) users a = (none, record a { users = users; table = t })

unfoldable pub add_user :
    Faults → String → String → Authenticator → Option AuthError × Authenticator
unfolding Kvzoo.add commit_user
add_user f name password a =
    if is_some (lookup name a.users)
    then (some user_exists, a)
    else commit_user (transact f (Kvzoo.add f name password) a.table) (insert name password a.users)
        a

unfoldable pub delete_user : Faults → String → Authenticator → Option AuthError × Authenticator
unfolding Kvzoo.delete commit_user
delete_user f name a =
    if name == administrator
    then (some admin_kept, a)
    else if is_some (lookup name a.users)
    then commit_user (transact f (Kvzoo.delete f name) a.table) (remove name a.users) a
    else (some user_missing, a)

unfoldable pub reset_password :
    Faults → String → String → String → Bool → Authenticator → Option AuthError × Authenticator
unfolding Kvzoo.update commit_user
reset_password f name old new force a = elim (lookup name a.users) [
  | none ↦ (some user_missing, a)
  | some password ↦
      if not force && not (password == old)
      then (some wrong_password, a)
      else if new == ""
      then (some empty_password, a)
      else commit_user (transact f (Kvzoo.update f name new) a.table) (insert name new a.users) a
]

-- `loadUsers`, and the administrator where there is none; an error of that addition is not looked at.
unfoldable pub new_authenticator : Bool → Faults → Map String → Result KvError Authenticator
unfolding add_user
new_authenticator begins f t = do
  guard begins Kvzoo.begin_failed
  let a : Authenticator = record { users = t; table = t; sessions = [] } in
      if is_some (lookup administrator a.users)
      then ok a
      else ok (add_user f administrator admin_passwd a).1

-- The end of `Authenticate`. A user that only the CAS server knows is added, and the error of that is
-- not looked at.
unfoldable pub from_cas :
    Faults
    → Option (Result AuthError String)
    → Authenticator
    → Result AuthError String × Authenticator
unfolding has_user add_user
from_cas f none a = (ok "", a)
from_cas f (some (err e)) a = (err e, a)
from_cas f (some (ok user)) a =
    if not (user == "") && not (has_user user a)
    then (ok user, (add_user f user "" a).1)
    else (ok user, a)

module _ (jwt : JwtLib) where
  unfoldable pub sign_token : ℕ → String → Result AuthError String
  sign_token now user =
      elim (jwt.sign
        (record { user = some user; expire_at = some ((now + token_valid_duration) / second) })) [
          | none ↦ err no_token
          | some token ↦ ok token
        ]

  -- `TokenRepo.ParseToken`
  unfoldable pub parse_token : ℕ → String → Result AuthError String
  parse_token now raw = elim (jwt.parse raw) [
    | none ↦ err invalid_token
    | some claims ↦ elim claims.expire_at [
      | none ↦ err invalid_token
      | some expire ↦ if ltb (expire * second) now then err expired_token else elim claims.user [
        | none ↦ err invalid_token
        | some user ↦ if user == "" then err invalid_token else ok user
      ]
    ]
  ]

  -- `Authenticator.CreateToken`
  unfoldable pub create_token : ℕ → String → String → Authenticator → Result AuthError String
  unfolding sign_token
  create_token now name password a = elim (lookup name a.users) [
    | none ↦ err user_missing
    | some known ↦ if not (password == known) then err wrong_password else sign_token now name
  ]

  unfoldable pub login :
      ℕ → String → String → String → Authenticator → Option AuthError × Authenticator
  unfolding create_token add_session
  login now key name password a = elim (create_token now name password a) [
    | err e ↦ (some e, a)
    | ok token ↦ (none, add_session key token a)
  ]

  -- The user of a request by its token, or the empty text.
  unfoldable pub authenticate_jwt :
      (String → List String) → ℕ → HttpRequest → Authenticator → Result AuthError String
  unfolding get_session get_from_header parse_token
  authenticate_jwt split_bearer now req a =
      let session : String = get_session req a in
      let token : String = if session == "" then get_from_header split_bearer req else session in
      if token == "" then ok "" else parse_token now token

  -- `Authenticator.Authenticate`, with the CAS server's answer where there is one.
  unfoldable pub authenticate :
      (String → List String)
      → ℕ
      → Faults
      → Option (Result AuthError String)
      → HttpRequest
      → Authenticator
      → Result AuthError String × Authenticator
  unfolding authenticate_jwt from_cas
  authenticate split_bearer now f cas req a = elim (authenticate_jwt split_bearer now req a) [
    | err e ↦ (err e, a)
    | ok user ↦ if not (user == "") then (ok user, a) else from_cas f cas a
  ]
