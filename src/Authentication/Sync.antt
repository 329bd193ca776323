-- ===== src/Authentication/Sync.antt =====
-- The passwords in memory and those in the table stay the same.

use gao_cloud.Prelude.{
  ◌≡◌, ℕ, inl, inr, refl, Bool, not, ◌&&◌, none, some, Option, is_some, String, ◌==◌, List, [], ◌∷◌,
  arith, Map, lookup, insert, remove, lookup-insert, lookup-remove, Bool-cases, Option-cases,
  Result-cases, Result, ok, err, if◌then◌else◌,
}
use gao_cloud.Kvzoo
use gao_cloud.Kvzoo.{KvError, Faults, transact}
use gao_cloud.Authorization.{administrator}
use gao_cloud.Authentication.{
  AuthError, Authenticator, HttpRequest, JwtLib, commit_user, add_user, delete_user, reset_password,
  login, clear_session, authenticate, authenticate_jwt, create_token, add_session, has_user,
  from_cas,
}

-- Memory and table hold the same passwords.
abbrev pub InSync : Authenticator → Type 0
InSync a = (name : String) → lookup name a.users ≡ lookup name a.table

commit_user-InSync :
    (r : Result KvError (Map String)) (users : Map String) (a : Authenticator)
    → InSync a
    → ((t : Map String) → r ≡ ok t → (n : String) → lookup n users ≡ lookup n t)
    → InSync (commit_user r users a).1
unfolding commit_user
commit_user-InSync (ok t) users a h same n = same t refl n
commit_user-InSync (err e) users a h same n = h n

added :
    (f : Faults) (name password other : String) (t : Map String) {t' : Map String}
    → transact f (Kvzoo.add f name password) t ≡ ok t'
    → lookup other t' ≡ (if name == other then some password else lookup other t)
unfolding Kvzoo.add
added f name password other t h = ground (arith, lookup-insert name other password t)

updated :
    (f : Faults) (name password other : String) (t : Map String) {t' : Map String}
    → transact f (Kvzoo.update f name password) t ≡ ok t'
    → lookup other t' ≡ (if name == other then some password else lookup other t)
unfolding Kvzoo.update
updated f name password other t h = ground (arith, lookup-insert name other password t)

deleted :
    (f : Faults) (name other : String) (t : Map String) {t' : Map String}
    → transact f (Kvzoo.delete f name) t ≡ ok t'
    → lookup other t' ≡ (if name == other then none else lookup other t)
unfolding Kvzoo.delete
deleted f name other t h = ground (arith, lookup-remove name other t)

add_user-InSync :
    (f : Faults) (name password : String) (a : Authenticator)
    → InSync a
    → InSync (add_user f name password a).1
unfolding add_user
add_user-InSync f name password a h = elim (Bool-cases (is_some (lookup name a.users))) [
  | inl known ↦ rw (known, add_user) h
  | inr fresh ↦
      rw (fresh, add_user)
        (commit_user-InSync (transact f (Kvzoo.add f name password) a.table)
          (insert name password a.users) a h
          (λ t e n.
            ground (
              arith,
              h n,
              lookup-insert name n password a.users,
              added f name password n a.table e,
            )))
]

delete_user-InSync :
    (f : Faults) (name : String) (a : Authenticator) → InSync a → InSync (delete_user f name a).1
unfolding delete_user
delete_user-InSync f name a h = elim (Bool-cases (name == administrator)) [
  | inl admin ↦ rw (admin, delete_user) h
  | inr other ↦ elim (Bool-cases (is_some (lookup name a.users))) [
    | inr unknown ↦ rw (other, delete_user, unknown) h
    | inl known ↦
        rw (other, delete_user, known)
          (commit_user-InSync (transact f (Kvzoo.delete f name) a.table) (remove name a.users) a h
            (λ t e n.
              ground (arith, h n, lookup-remove name n a.users, deleted f name n a.table e)))
  ]
]

reset_password-InSync :
    (f : Faults) (name old new : String) (force : Bool) (a : Authenticator)
    → InSync a
    → InSync (reset_password f name old new force a).1
unfolding reset_password
reset_password-InSync f name old new force a h = elim (Option-cases (lookup name a.users)) [
  | inl unknown ↦ rw (unknown, reset_password) h
  | inr (password, known) ↦ elim (Bool-cases (not force && not (password == old))) [
    | inl refused ↦ rw (known, reset_password, refused) h
    | inr passed ↦ elim (Bool-cases (new == "")) [
      | inl empty ↦ rw (known, reset_password, passed, empty) h
      | inr good ↦
          rw (known, reset_password, passed, good)
            (commit_user-InSync (transact f (Kvzoo.update f name new) a.table)
              (insert name new a.users) a h
              (λ t e n.
                ground
                  (arith, h n, lookup-insert name n new a.users, updated f name new n a.table e)))
    ]
  ]
]

from_cas-InSync :
    (f : Faults) (cas : Option (Result AuthError String)) (a : Authenticator)
    → InSync a
    → InSync (from_cas f cas a).1
unfolding from_cas
from_cas-InSync f none a h = h
from_cas-InSync f (some (err e)) a h = h
from_cas-InSync f (some (ok user)) a h =
    elim (Bool-cases (not (user == "") && not (has_user user a))) [
      | inl new_one ↦ rw (new_one, from_cas) (add_user-InSync f user "" a h)
      | inr known ↦ rw (known, from_cas) h
    ]

module _ (jwt : JwtLib) (split_bearer : String → List String) where
  -- What the handlers do to the authenticator.
  pub data Call : Type 0 where
    adds : Faults → String → String → Call
    deletes : Faults → String → Call
    resets : Faults → String → String → String → Bool → Call
    logs_in : ℕ → String → String → String → Call
    logs_out : HttpRequest → Call
    authenticates : ℕ → Faults → Option (Result AuthError String) → HttpRequest → Call

  unfoldable pub call : Call → Authenticator → Authenticator
  unfolding add_user delete_user reset_password login clear_session authenticate
  call (adds f name password) a = (add_user f name password a).1
  call (deletes f name) a = (delete_user f name a).1
  call (resets f name old new force) a = (reset_password f name old new force a).1
  call (logs_in now key name password) a = (login jwt now key name password a).1
  call (logs_out req) a = clear_session req a
  call (authenticates now f cas req) a = (authenticate jwt split_bearer now f cas req a).1

  unfoldable pub call_all : List Call → Authenticator → Authenticator
  call_all [] a = a
  call_all (c ∷ cs) a = call_all cs (call c a)

  login-InSync :
      (now : ℕ) (key name password : String) (a : Authenticator)
      → InSync a
      → InSync (login jwt now key name password a).1
  unfolding login add_session
  login-InSync now key name password a h =
      elim (Result-cases (create_token jwt now name password a)) [
        | inl (e, refused) ↦ rw (refused, login) h
        | inr (token, given) ↦ rw (given, login) h
      ]

  clear_session-InSync :
      (req : HttpRequest) (a : Authenticator) → InSync a → InSync (clear_session req a)
  unfolding clear_session
  clear_session-InSync req a h = elim (Option-cases req.cookie) [
    | inl absent ↦ rw (absent, clear_session) h
    | inr (key, there) ↦ rw (there, clear_session) h
  ]

  authenticate-InSync :
      (now : ℕ) (f : Faults) (cas : Option (Result AuthError String)) (req : HttpRequest)
      (a : Authenticator)
      → InSync a
      → InSync (authenticate jwt split_bearer now f cas req a).1
  unfolding authenticate
  authenticate-InSync now f cas req a h =
      elim (Result-cases (authenticate_jwt jwt split_bearer now req a)) [
        | inl (e, failed) ↦ rw (failed, authenticate) h
        | inr (user, found) ↦ elim (Bool-cases (not (user == ""))) [
          | inl named ↦ rw (found, authenticate, named) h
          | inr unnamed ↦ rw (found, authenticate, unnamed) (from_cas-InSync f cas a h)
        ]
      ]

  call-InSync : (c : Call) (a : Authenticator) → InSync a → InSync (call c a)
  unfolding call
  call-InSync (adds f name password) a h = add_user-InSync f name password a h
  call-InSync (deletes f name) a h = delete_user-InSync f name a h
  call-InSync (resets f name old new force) a h = reset_password-InSync f name old new force a h
  call-InSync (logs_in now key name password) a h = login-InSync now key name password a h
  call-InSync (logs_out req) a h = clear_session-InSync req a h
  call-InSync (authenticates now f cas req) a h = authenticate-InSync now f cas req a h

  -- Where memory and table hold the same passwords, they do so after any calls of the handlers,
  -- whatever these return and whatever the database does.
  pub call_all-InSync : (cs : List Call) (a : Authenticator) → InSync a → InSync (call_all cs a)
  unfolding call_all
  call_all-InSync [] a h = h
  call_all-InSync (c ∷ cs) a h = call_all-InSync cs (call c a) (call-InSync c a h)
