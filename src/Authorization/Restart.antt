-- ===== src/Authorization/Restart.antt =====
-- pkg/authorization/authorizer.go: `UpdateUser` changes the memory before the table, and a restart reads
-- the table.
use mathlib.Core.Option.{some-injective}
use gao_cloud.Prelude.{
  ◌≡◌, ◌≢◌, ◌∙◌, sym, inl, inr, refl, Bool, true, false, none, some, String, ◌==◌, eq_iff, arith,
  Map, lookup, lookup-insert, Bool-cases, ap,
}
use gao_cloud.Kvzoo.{KvError, Faults}
use gao_cloud.Authorization.{
  ApiUser, User, Authorizer, add_user, update_user, commit_users, update_found, db_error, authorize,
  administrator, new, has_user, admin_user,
}
use gao_cloud.Authorization.Sync.{InSync, users-update_user}

authorize-lookup :
    (a b : Authorizer) (name cluster namespace : String)
    → lookup name a.users ≡ lookup name b.users
    → authorize a name cluster namespace ≡ authorize b name cluster namespace
unfolding authorize
authorize-lookup a b name cluster namespace same = rw same refl

add_user-lookup :
    (f : Faults) (u : ApiUser) (a : Authorizer) (name : String)
    → (u.id == name) ≡ false
    → lookup name (add_user f u a).0.users ≡ lookup name a.users
unfolding add_user commit_users
add_user-lookup f u a name other = ground (
  arith,
  lookup-insert u.id name
      (record {
        projects = u.projects;
        creation_timestamp = u.creation_timestamp;
        deletion_timestamp = 0;
      })
      a.users,
  other,
)

-- A restart reads the users from the table, all but perhaps the administrator.
new-lookup :
    (readable : Bool) (f : Faults) (t : Map User) (b : Authorizer) (name : String)
    → name ≢ administrator
    → new readable f t ≡ some b
    → lookup name b.users ≡ lookup name t
unfolding new
new-lookup false f t b name other h = cc h
new-lookup true f t b name other h =
    let a : Authorizer = record { users = t; db = t } in
    let apart : (administrator == name) ≡ false =
      ground (arith, eq_iff administrator name, other) in
    elim (Bool-cases (has_user a administrator)) [
      | inl there ↦
          let same : a ≡ b = some-injective _ _ (rw there at h) in
          ap (λ x. lookup name x.users) (sym same)
      | inr missing ↦
          let same : (add_user f admin_user a).0 ≡ b = some-injective _ _ (rw missing at h) in
          ap (λ x. lookup name x.users) (sym same) ∙ add_user-lookup f admin_user a name apart
    ]

db-update_user :
    (f : Faults) (u : ApiUser) (a : Authorizer) {e : KvError}
    → (update_user f u a).1 ≡ some (db_error e)
    → (update_user f u a).0.db ≡ a.db
unfolding update_user update_found
db-update_user f u a h = ground (arith, h)

-- Where memory and table hold the same users, an `update_user` of a known user, not the administrator,
-- that returns the database's error decides every later request of the user as one that returns no
-- error does; after a restart that can read the table, the requests are decided as before the update.
pub authorize-update_user :
    (f g start : Faults) (readable : Bool) (u : ApiUser) (user : User) (a b : Authorizer)
    (cluster namespace : String) {e : KvError}
    → InSync a
    → u.id ≢ administrator
    → lookup u.id a.users ≡ some user
    → (update_user f u a).1 ≡ some (db_error e)
    → (update_user g u a).1 ≡ none
    → new readable start (update_user f u a).0.db ≡ some b
    → (authorize (update_user f u a).0 u.id cluster namespace
        ≡ authorize (update_user g u a).0 u.id cluster namespace)
      × (authorize b u.id cluster namespace ≡ authorize a u.id cluster namespace)
authorize-update_user f g start readable u user a b cluster namespace h other known refused taken
      restarted =
    let refused_db : (update_user f u a).0.db ≡ a.db = db-update_user f u a refused in
    (
      authorize-lookup (update_user f u a).0 (update_user g u a).0 u.id cluster namespace
          (users-update_user f u a user known ∙ sym (users-update_user g u a user known)),
      authorize-lookup b a u.id cluster namespace (
          new-lookup readable start (update_user f u a).0.db b u.id other restarted
          ∙ ap (lookup u.id) refused_db
          ∙ sym (h u.id)),
    )
