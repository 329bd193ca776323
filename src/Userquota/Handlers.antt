-- ===== src/Userquota/Handlers.antt =====
-- pkg/handler/userquota_manager.go: the handlers. What Kubernetes answers, the time, and what the
-- database does with a transaction are the environment's; the calls that a handler makes to change
-- a cluster are kept in order, whatever their answers. A handler gives its error, and the new state.
use gao_cloud.Prelude.{
  ℕ, Bool, not, ◌&&◌, ◌||◌, Option, none, some, String, ◌==◌, List, [], ◌∷◌, ◌++◌, map, Map, Result,
  ok, err, if◌then◌else◌, guard, ◌>>=◌, ◌>>◌, keep,
}
use gao_cloud.Kvzoo
use gao_cloud.Kvzoo.{Faults, KvError, begin_failed, commit_failed, not_found}
use gao_cloud.Authorization.{Authorizer, Project, get_user, update_user}
use gao_cloud.Userquota.Quota.{
  UserQuota, processing, type_create, type_update, is_admin, set_user_quota,
  check_user_quota_params_valid,
}

pub data K8sCall : Type 0 where
  create_namespace delete_namespace : String → String → K8sCall
  create_quota update_quota : String → String → String → K8sCall
  restore_quota : String → String → K8sCall

pub data Deletion : Type 0 where
  deleted missing failed : Deletion

pub record Env : Type 0 where
  pub is_quantity : String → Bool
  pub has_cluster : String → Bool
  pub has_namespace : Bool
  pub creates_namespace : Bool
  pub creates_quota : Bool
  pub updates_quota : Bool
  pub deletion : Deletion
  pub now : ℕ
  pub tx : Faults
  pub auth_tx : Faults

pub record World : Type 0 where
  pub quotas : Map UserQuota
  pub auth : Authorizer
  pub calls : List K8sCall

pub data QuotaError : Type 0 where
  empty_user invalid_params wrong_owner is_processing immutable_field : QuotaError
  no_cluster no_namespace_deletion no_namespace_creation no_quota : QuotaError
  permission_denied invalid_action invalid_format not_processing not_visible : QuotaError
  db : KvError → QuotaError

abbrev pub Reply : Type 0
Reply = Option QuotaError × World

abbrev pub call : K8sCall → World → World
call k w = record w { calls = w.calls ++ k ∷ [] }

-- `tx.Commit()` after a write: the new table, or an error and the old one.
abbrev pub committed : Faults → Result KvError (Map UserQuota) → Result KvError (Map UserQuota)
committed f r = do t ← r; guard f.commits commit_failed; ok t

-- `m.db.Begin()` and `getUserQuotaFromDB`.
abbrev pub begin_get : Faults → String → Map UserQuota → Result KvError UserQuota
begin_get f id t = do guard f.begins begin_failed; Kvzoo.get id t

abbrev pub finish : Result KvError (Map UserQuota) → World → Reply
finish (ok t) w = (none, record w { quotas = t })
finish (err e) w = (some (db e), w)

unfoldable pub create : Env → String → UserQuota → World → Reply
unfolding Kvzoo.add
create env user q w =
    if user == ""
    then (some empty_user, w)
    else if not (check_user_quota_params_valid env.is_quantity q)
    then (some invalid_params, w)
    else let q' = set_user_quota q user type_create env.now in
      finish
        (do guard env.tx.begins begin_failed; committed env.tx (Kvzoo.add env.tx q'.id q' w.quotas))
        w

-- Without the order of the answer, which is sorted by time, user and name.
unfoldable pub list : Env → String → World → Result QuotaError (List UserQuota)
list env user w =
    if env.tx.begins
    then ok (keep (λ q. is_admin user || q.user_name == user) (map (λ entry. entry.1) w.quotas))
    else err (db begin_failed)

unfoldable pub get : Env → String → String → World → Result QuotaError UserQuota
unfolding Kvzoo.get
get env user id w = elim (begin_get env.tx id w.quotas) [
  | err e ↦ err (db e)
  | ok q ↦ if not (is_admin user) && not (q.user_name == user) then err not_visible else ok q
]

unfoldable pub update : Env → String → UserQuota → World → Reply
unfolding Kvzoo.get Kvzoo.update
update env user q w =
    if user == ""
    then (some empty_user, w)
    else if not (check_user_quota_params_valid env.is_quantity q)
    then (some invalid_params, w)
    else elim (begin_get env.tx q.id w.quotas) [
      | err e ↦ (some (db e), w)
      | ok old ↦ if not (old.user_name == user) then (some wrong_owner, w) else elim old.status [
        | processing ↦ (some is_processing, w)
        | _ ↦
            if not (old.namespace == q.namespace) || not (old.cluster_name == q.cluster_name)
            then (some immutable_field, w)
            else let q' = set_user_quota q user type_update old.creation_timestamp in
              finish (committed env.tx (Kvzoo.update env.tx q'.id q' w.quotas)) w
      ]
    ]

-- The first project of a user on the namespace of the cluster is taken away.
unfoldable pub without_project : String → String → List Project → List Project
without_project cluster namespace [] = []
without_project cluster namespace (p ∷ ps) =
    if p.cluster == cluster && p.namespace == namespace
    then ps
    else p ∷ without_project cluster namespace ps

-- A change of a user's projects, if there is such a user; its error is dropped.
abbrev pub change_projects : Env → String → (List Project → List Project) → World → World
change_projects env name change w = elim (get_user w.auth name) [
  | none ↦ w
  | some u ↦ record w {
    auth = (update_user env.auth_tx (record u { projects = change u.projects }) w.auth).0;
  }
]

-- The end of `Delete`, from the write to the table.
unfoldable pub delete_found : Env → String → UserQuota → World → Reply
unfolding Kvzoo.delete without_project
delete_found env id q w = elim (committed env.tx (Kvzoo.delete env.tx id w.quotas)) [
  | err e ↦ (some (db e), w)
  | ok t ↦
      let w' : World = record w { quotas = t } in
      (
        none,
        if q.cluster_name == ""
            then w'
            else change_projects env q.user_name (without_project q.cluster_name q.namespace) w',
      )
]

unfoldable pub delete : Env → String → String → World → Reply
unfolding Kvzoo.get delete_found
delete env user id w =
    if user == "" then (some empty_user, w) else elim (begin_get env.tx id w.quotas) [
      | err e ↦ (some (db e), w)
      | ok q ↦
          if not (is_admin user) && not (q.user_name == user)
          then (some wrong_owner, w)
          else elim q.status [
            | processing ↦ (some is_processing, w)
            | _ ↦
                if q.cluster_name == ""
                then delete_found env id q w
                else if not (env.has_cluster q.cluster_name)
                then (some no_cluster, w)
                else let w' = call (delete_namespace q.cluster_name q.namespace) w in
                  elim env.deletion [
                    | failed ↦ (some no_namespace_deletion, w')
                    | _ ↦ delete_found env id q w'
                  ]
          ]
    ]
