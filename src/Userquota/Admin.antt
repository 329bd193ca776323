-- ===== src/Userquota/Admin.antt =====
-- pkg/handler/userquota_manager.go: the actions of the administrator.
use gao_cloud.Prelude.{not, Option, none, some, String, ◌==◌, [], ◌∷◌, ◌++◌, ok, err, if◌then◌else◌}
use gao_cloud.Kvzoo
use gao_cloud.Kvzoo.{begin_failed, commit_failed}
use gao_cloud.Userquota.Quota.{
  UserQuota, processing, approval, rejection, is_admin, set_user_quota_by_admin,
}
use gao_cloud.Userquota.Handlers.{
  K8sCall, create_namespace, delete_namespace, create_quota, update_quota, restore_quota, Env,
  World, db, no_cluster, no_namespace_creation, no_quota, permission_denied, invalid_action,
  invalid_format, not_processing, Reply, call, committed, begin_get, finish, change_projects,
}

-- The end of `approval`, when the cluster has been prepared; `rollback` undoes that.
unfoldable pub approve_prepared : Env → String → String → UserQuota → K8sCall → World → Reply
unfolding Kvzoo.update
approve_prepared env id cluster q rollback w =
    let q' = set_user_quota_by_admin q cluster "" approval env.now in
    elim (committed env.tx (Kvzoo.update env.tx id q' w.quotas)) [
      | err e ↦ (some (db e), call rollback w)
      | ok t ↦
          let w' : World = record w { quotas = t } in
          (
            none,
            if env.has_namespace
                then w'
                else change_projects env q.user_name
                    (λ ps. ps ++ record { cluster = cluster; namespace = q.namespace } ∷ []) w',
          )
    ]

unfoldable pub approve_found : Env → String → String → UserQuota → World → Reply
unfolding approve_prepared
approve_found env id cluster q w =
    if env.has_namespace
    then (let w' = call (update_quota cluster q.namespace q.storage) w in
        if env.updates_quota
        then approve_prepared env id cluster q (restore_quota cluster q.namespace) w'
        else (some no_quota, w'))
    else (let w' = call (create_namespace cluster q.namespace) w in
        if not env.creates_namespace
        then (some no_namespace_creation, w')
        else let w'' = call (create_quota cluster q.namespace q.storage) w' in
          if env.creates_quota
          then approve_prepared env id cluster q (delete_namespace cluster q.namespace) w''
          else (some no_quota, call (delete_namespace cluster q.namespace) w''))

unfoldable pub approve : Env → String → String → World → Reply
unfolding Kvzoo.get approve_found
approve env id cluster w =
    if cluster == ""
    then (some invalid_format, w)
    else if not (env.has_cluster cluster)
    then (some no_cluster, w)
    else elim (begin_get env.tx id w.quotas) [
      | err e ↦ (some (db e), w)
      | ok q ↦ elim q.status [
        | processing ↦ approve_found env id cluster q w
        | _ ↦ (some not_processing, w)
      ]
    ]

unfoldable pub reject : Env → String → String → World → Reply
unfolding Kvzoo.get Kvzoo.update
reject env id reason w =
    if reason == "" then (some invalid_format, w) else elim (begin_get env.tx id w.quotas) [
      | err e ↦ (some (db e), w)
      | ok q ↦ elim q.status [
        | processing ↦
            finish
              (committed env.tx (
                Kvzoo.update env.tx id
                  (set_user_quota_by_admin q q.cluster_name reason rejection env.now) w.quotas))
              w
        | _ ↦ (some not_processing, w)
      ]
    ]

-- The input of an action: its name decides what it must be, and `none` is an input of another type.
pub data QuotaAction : Type 0 where
  approval_action rejection_action : Option String → QuotaAction
  other_action : QuotaAction

unfoldable pub action : Env → String → String → QuotaAction → World → Reply
unfolding approve reject
action env user id a w = if not (is_admin user) then (some permission_denied, w) else elim a [
  | approval_action none ↦ (some invalid_format, w)
  | approval_action (some cluster) ↦ approve env id cluster w
  | rejection_action none ↦ (some invalid_format, w)
  | rejection_action (some reason) ↦ reject env id reason w
  | other_action ↦ (some invalid_action, w)
]
