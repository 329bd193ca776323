-- ===== src/Authorization.antt =====
-- pkg/authorization: who may use which namespace of which cluster (authorizer.go), and the table
-- that the users are kept in (db.go). The lock makes each method one step.
pub mod Access
pub mod Sync
pub mod Restart
mod Examples
use gao_cloud.Prelude.{
  ℕ, Bool, true, false, ◌&&◌, ◌||◌, Option, none, some, String, ◌==◌, List, [], ◌∷◌, map, Result,
  ok, err, ◌>>=◌, if◌then◌else◌, Map, lookup, insert, remove, is_some, any,
}
use gao_cloud.Kvzoo
use gao_cloud.Kvzoo.{KvError, Faults, transact}

-- pkg/types/user.go
abbrev pub administrator : String
administrator = "admin"

pub record Project : Type 0 where
  pub cluster : String
  pub namespace : String

-- A user as the API has it: a resource with an identifier and times.
pub record ApiUser : Type 0 where
  pub id : String
  pub name : String
  pub projects : List Project
  pub creation_timestamp : ℕ
  pub deletion_timestamp : ℕ

abbrev pub all_namespaces : String
all_namespaces = "_all_namespaces"

abbrev pub all_clusters : String
all_clusters = "_all_clusters"

-- 2019-02-28T00:00:00Z, in seconds of the Unix epoch.
abbrev pub zcloud_start_time : ℕ
zcloud_start_time = 1_551_312_000

abbrev pub admin_user : ApiUser
admin_user = record {
  id = administrator;
  name = administrator;
  projects = record { cluster = all_clusters; namespace = all_namespaces } ∷ [];
  creation_timestamp = zcloud_start_time;
  deletion_timestamp = 0;
}

pub record User : Type 0 where
  pub projects : List Project
  pub creation_timestamp : ℕ
  pub deletion_timestamp : ℕ

-- The users in memory, and the table.
pub record Authorizer : Type 0 where
  pub users : Map User
  pub db : Map User

pub data AuthError : Type 0 where
  user_exists user_missing : String → AuthError
  db_error : KvError → AuthError

-- `*Authorizer` and `error` of a method that changes it.
abbrev pub Outcome : Type 0
Outcome = Authorizer × Option AuthError

abbrev covers : String → String → Project → Bool
covers cluster namespace p =
    (p.cluster == all_clusters || p.cluster == cluster)
    && (namespace == "" || (p.namespace == all_namespaces || p.namespace == namespace))

unfoldable pub authorize : Authorizer → String → String → String → Bool
authorize a user_name cluster namespace =
    if user_name == administrator then true else elim (lookup user_name a.users) [
      | none ↦ false
      | some user ↦ any (covers cluster namespace) user.projects
    ]

-- The three functions of db.go that write: one transaction each.
unfoldable pub add_user_db : Faults → String → User → Map User → Result KvError (Map User)
add_user_db f name user = transact f (Kvzoo.add f name user)

unfoldable pub delete_user_db : Faults → String → Map User → Result KvError (Map User)
delete_user_db f name = transact f (Kvzoo.delete f name)

unfoldable pub update_user_db : Faults → String → User → Map User → Result KvError (Map User)
update_user_db f name user = transact f (Kvzoo.update f name user)

-- Memory and table where the table took the write, else as they were, with the error.
commit_users : Authorizer → Map User → Result KvError (Map User) → Outcome
commit_users a users (ok t) = (record { users = users; db = t }, none)
commit_users a users (err e) = (a, some (db_error e))

unfoldable pub add_user : Faults → ApiUser → Authorizer → Outcome
unfolding add_user_db commit_users
add_user f u a = elim (lookup u.id a.users) [
  | some _ ↦ (a, some (user_exists u.id))
  | none ↦
      let user : User = record {
        projects = u.projects;
        creation_timestamp = u.creation_timestamp;
        deletion_timestamp = 0;
      } in
      commit_users a (insert u.id user a.users) (add_user_db f u.id user a.db)
]

unfoldable pub has_user : Authorizer → String → Bool
has_user a name = is_some (lookup name a.users)

unfoldable pub to_api : String → User → ApiUser
to_api name user = record {
  id = name;
  name = name;
  projects = user.projects;
  creation_timestamp = user.creation_timestamp;
  deletion_timestamp = user.deletion_timestamp;
}

unfoldable pub get_user : Authorizer → String → Option ApiUser
unfolding to_api
get_user a name = elim (lookup name a.users) [ none ↦ none | some user ↦ some (to_api name user) ]

-- Go's map has no order: here, that of the association list.
unfoldable pub list_user : Authorizer → List ApiUser
unfolding to_api
list_user a = map (λ entry. to_api entry.0 entry.1) a.users

unfoldable pub delete_user : Faults → String → Authorizer → Outcome
unfolding delete_user_db commit_users
delete_user f name a = elim (lookup name a.users) [
  | none ↦ (a, some (user_missing name))
  | some _ ↦ commit_users a (remove name a.users) (delete_user_db f name a.db)
]

-- The user in memory is changed through its pointer before the table is written, and stays changed
-- where that fails.
update_found : Authorizer → Map User → Result KvError (Map User) → Outcome
update_found a users (ok t) = (record { users = users; db = t }, none)
update_found a users (err e) = (record a { users = users }, some (db_error e))

unfoldable pub update_user : Faults → ApiUser → Authorizer → Outcome
unfolding update_user_db update_found
update_user f u a = elim (lookup u.id a.users) [
  | none ↦ (a, some (user_missing u.id))
  | some user ↦
      let changed : User = record user { projects = u.projects } in
      update_found a (insert u.id changed a.users) (update_user_db f u.id changed a.db)
]

-- `New`: the users are read from the table, and the administrator is added where it is missing; the
-- error of that addition is dropped. The flag is whether the table could be opened and read.
unfoldable pub load_users : Bool → Map User → Option Authorizer
load_users true t = some (record { users = t; db = t })
load_users false t = none

unfoldable pub new : Bool → Faults → Map User → Option Authorizer
unfolding load_users
new readable f t = elim (load_users readable t) [
  | none ↦ none
  | some a ↦ some (if has_user a administrator then a else (add_user f admin_user a).0)
]
