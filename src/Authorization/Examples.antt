-- ===== src/Authorization/Examples.antt =====
-- Two users, of whom one is not the administrator, and a table that takes every write but one.
use gao_cloud.Prelude.{◌≡◌, ◌↔◌, refl, true, false, String, [], ◌∷◌, Map, lookup, insert}
use gao_cloud.Kvzoo
use gao_cloud.Kvzoo.{Faults, commit_failed}
use gao_cloud.Authorization.{
  ApiUser, User, Authorizer, update_user_db, all_namespaces, all_clusters, authorize, delete_user,
  update_user, new, has_user,
}
use gao_cloud.Authorization.Access.{Allowed, authorize_iff}
use gao_cloud.Authorization.Sync.{authorize-delete_user}
use gao_cloud.Authorization.Restart.{authorize-update_user}

abbrev all_fine : Faults
all_fine = record { begins = true; writes = true; commits = true }

abbrev no_commit : Faults
no_commit = record { begins = true; writes = true; commits = false }

abbrev two_users : Map User
two_users =
    (
      "admin",
      record {
        projects = record { cluster = all_clusters; namespace = all_namespaces } ∷ [];
        creation_timestamp = 0;
        deletion_timestamp = 0;
      },
    )
    ∷ (
      "gao",
      record {
        projects = record { cluster = "beijing"; namespace = "web" } ∷ [];
        creation_timestamp = 7;
        deletion_timestamp = 0;
      },
    )
    ∷ []

abbrev both : Authorizer
both = record { users = two_users; db = two_users }

abbrev api_user : String → ApiUser
api_user name = record {
  id = name;
  name = name;
  projects = record { cluster = "local"; namespace = "db" } ∷ [];
  creation_timestamp = 9;
  deletion_timestamp = 0;
}

authorize_iff_example :
    (authorize both "gao" "beijing" "web" ≡ true) ↔ Allowed both "gao" "beijing" "web"
authorize_iff_example = authorize_iff both "gao" "beijing" "web"

-- The new projects of `gao` allow a request that the old ones do not.
authorize-update_user_example :
    (authorize (update_user no_commit (api_user "gao") both).0 "gao" "local" "db"
      ≡ authorize (update_user all_fine (api_user "gao") both).0 "gao" "local" "db")
    × (authorize both "gao" "local" "db" ≡ authorize both "gao" "local" "db")
unfolding update_user lookup update_user_db Kvzoo.update new has_user
authorize-update_user_example =
    authorize-update_user no_commit all_fine all_fine true (api_user "gao")
      (record {
        projects = record { cluster = "beijing"; namespace = "web" } ∷ [];
        creation_timestamp = 7;
        deletion_timestamp = 0;
      })
      both both "local" "db" (λ name. refl) (λ e. cc e) refl refl refl refl

drifted :
    (authorize (update_user no_commit (api_user "gao") both).0 "gao" "local" "db" ≡ true)
    × (authorize both "gao" "local" "db" ≡ false)
unfolding authorize update_user lookup insert update_user_db Kvzoo.update
drifted = (refl, refl)

authorize-delete_user_example :
    authorize (delete_user all_fine "gao" both).0 "gao" "beijing" "web" ≡ false
unfolding delete_user lookup Kvzoo.delete
authorize-delete_user_example =
    authorize-delete_user all_fine "gao" both "beijing" "web" (λ e. cc e) refl
