-- ===== src/Authorization/Sync.antt =====
-- The users in memory and the table: which operations keep them the same.
use mathlib.Core.Path.{subst}
use mathlib.Core.Option.{some-injective}
use gao_cloud.Prelude.{
  ◌≡◌, ◌≢◌, inl, inr, refl, Bool, true, false, ◌&&◌, none, some, String, ◌==◌, eq_iff, eq_refl,
  arith, Map, lookup, insert, remove, lookup-insert, lookup-remove, Option-cases, Bool-cases,
  Result, ok, err, if◌then◌else◌,
}
use gao_cloud.Kvzoo
use gao_cloud.Kvzoo.{KvError, Faults}
use gao_cloud.Authorization.{
  ApiUser, User, Authorizer, add_user, delete_user, update_user, add_user_db, delete_user_db,
  update_user_db, commit_users, update_found, authorize, administrator, new, has_user, admin_user,
  zcloud_start_time,
}

-- Memory and table hold the same users.
abbrev pub InSync : Authorizer → Type 0
InSync a = (name : String) → lookup name a.users ≡ lookup name a.db

-- What a committed transaction leaves in the table.
add_user_db-lookup :
    (f : Faults) (name other : String) (user : User) (t : Map User) {t' : Map User}
    → add_user_db f name user t ≡ ok t'
    → lookup other t' ≡ (if name == other then some user else lookup other t)
unfolding add_user_db Kvzoo.add
add_user_db-lookup f name other user t h = ground (arith, lookup-insert name other user t)

update_user_db-lookup :
    (f : Faults) (name other : String) (user : User) (t : Map User) {t' : Map User}
    → update_user_db f name user t ≡ ok t'
    → lookup other t' ≡ (if name == other then some user else lookup other t)
unfolding update_user_db Kvzoo.update
update_user_db-lookup f name other user t h = ground (arith, lookup-insert name other user t)

delete_user_db-lookup :
    (f : Faults) (name other : String) (t : Map User) {t' : Map User}
    → delete_user_db f name t ≡ ok t'
    → lookup other t' ≡ (if name == other then none else lookup other t)
unfolding delete_user_db Kvzoo.delete
delete_user_db-lookup f name other t h = ground (arith, lookup-remove name other t)

commit_users-InSync :
    (a : Authorizer) (users : Map User) (r : Result KvError (Map User))
    → InSync a
    → ((t : Map User) → r ≡ ok t → (n : String) → lookup n users ≡ lookup n t)
    → InSync (commit_users a users r).0
unfolding commit_users
commit_users-InSync a users (ok t) h same n = same t refl n
commit_users-InSync a users (err e) h same n = h n

-- Where memory and table hold the same users, they do so after `add_user`, whatever it returns and
-- whatever the database does.
pub add_user-InSync :
    (f : Faults) (u : ApiUser) (a : Authorizer) → InSync a → InSync (add_user f u a).0
unfolding add_user
add_user-InSync f u a h = elim (Option-cases (lookup u.id a.users)) [
  | inl fresh ↦
      let user : User = record {
        projects = u.projects;
        creation_timestamp = u.creation_timestamp;
        deletion_timestamp = 0;
      } in
      rw (fresh, add_user)
        (commit_users-InSync a (insert u.id user a.users) (add_user_db f u.id user a.db) h (λ t e n.
          ground (
            arith,
            h n,
            lookup-insert u.id n user a.users,
            add_user_db-lookup f u.id n user a.db e,
          )))
  | inr (user, known) ↦ rw (known, add_user) h
]

-- Where memory and table hold the same users, they do so after `delete_user`, whatever it returns
-- and whatever the database does.
pub delete_user-InSync :
    (f : Faults) (name : String) (a : Authorizer) → InSync a → InSync (delete_user f name a).0
unfolding delete_user
delete_user-InSync f name a h = elim (Option-cases (lookup name a.users)) [
  | inl unknown ↦ rw (unknown, delete_user) h
  | inr (user, known) ↦
      rw (known, delete_user)
        (commit_users-InSync a (remove name a.users) (delete_user_db f name a.db) h (λ t e n.
          ground (arith, h n, lookup-remove name n a.users, delete_user_db-lookup f name n a.db e)))
]

module _ (f : Faults) (u : ApiUser) (a : Authorizer) where
  -- The user that `UpdateUser` changes, with the new projects.
  abbrev pub updated : User → User
  updated user = record user { projects = u.projects }

  update_found-InSync :
      (user : User) (r : Result KvError (Map User))
      → InSync a
      → update_user_db f u.id (updated user) a.db ≡ r
      → (update_found a (insert u.id (updated user) a.users) r).1 ≡ none
      → InSync (update_found a (insert u.id (updated user) a.users) r).0
  unfolding update_found
  update_found-InSync user (err x) h e done = cc done
  update_found-InSync user (ok t) h e done = λ n. ground (
    arith,
    h n,
    lookup-insert u.id n (updated user) a.users,
    update_user_db-lookup f u.id n (updated user) a.db e,
  )

  -- Where memory and table hold the same users, they do so after an `update_user` that returns no
  -- error.
  pub update_user-InSync : InSync a → (update_user f u a).1 ≡ none → InSync (update_user f u a).0
  unfolding update_user
  update_user-InSync h done = elim (Option-cases (lookup u.id a.users)) [
    | inl unknown ↦ rw (unknown, update_user) h
    | inr (user, known) ↦
        rw (known, update_user)
          (update_found-InSync user (update_user_db f u.id (updated user) a.db) h refl
            (rw (known, update_user) at done))
  ]

-- After a `delete_user` that returns no error, its user is authorised for nothing, unless it is the
-- administrator.
pub authorize-delete_user :
    (f : Faults) (name : String) (a : Authorizer) (cluster namespace : String)
    → name ≢ administrator
    → (delete_user f name a).1 ≡ none
    → authorize (delete_user f name a).0 name cluster namespace ≡ false
unfolding authorize delete_user
authorize-delete_user f name a cluster namespace other done =
    ground (arith, eq_iff name administrator, lookup-remove name name a.users, eq_refl name)

abbrev admin_record : User
admin_record = record {
  projects = admin_user.projects;
  creation_timestamp = zcloud_start_time;
  deletion_timestamp = 0;
}

loaded-InSync : (t : Map User) → InSync (record { users = t; db = t })
loaded-InSync t n = refl

-- Where `new` succeeds, memory and table hold the same users, whatever the database does with the
-- addition of the administrator.
pub new-InSync :
    (readable : Bool) (f : Faults) (t : Map User) {a : Authorizer}
    → new readable f t ≡ some a
    → InSync a
unfolding new
new-InSync true f t h =
    let a : Authorizer = record { users = t; db = t } in
    subst InSync (some-injective _ _ h) (elim (Bool-cases (has_user a administrator)) [
      | inl there ↦ rw there (loaded-InSync t)
      | inr missing ↦ rw missing (add_user-InSync f admin_user a (loaded-InSync t))
    ])
new-InSync false f t h = cc h

-- Where `new` succeeds and the database does not fail, the administrator is a user.
pub has_user-new :
    (f : Faults) (t : Map User) {a : Authorizer}
    → (f.begins && f.writes && f.commits) ≡ true
    → new true f t ≡ some a
    → has_user a administrator ≡ true
unfolding new has_user add_user Kvzoo.add
has_user-new f t whole h =
    ground (arith, lookup-insert administrator administrator admin_record t, eq_refl administrator)

-- Whether or not the table takes the write, a known user has the new projects in memory.
pub users-update_user :
    (f : Faults) (u : ApiUser) (a : Authorizer) (user : User)
    → lookup u.id a.users ≡ some user
    → lookup u.id (update_user f u a).0.users ≡ some (record user { projects = u.projects })
unfolding update_user
users-update_user f u a user known = ground (
  arith,
  known,
  lookup-insert u.id u.id (record user { projects = u.projects }) a.users,
  eq_refl u.id,
)
