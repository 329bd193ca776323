-- ===== src/Userquota/Lifecycle.antt =====
-- What each request makes of a quota, and that a refused one changes nothing.
use gao_cloud.Prelude.{
  ◌≡◌, ◌≢◌, inl, inr, true, false, ◌||◌, none, some, String, ◌==◌, eq_iff, arith, lookup, insert,
  lookup-insert, lookup-remove, if◌then◌else◌, Option-cases,
}
use gao_cloud.Userquota.Quota.{
  UserQuota, processing, rejection, type_create, type_update, is_admin, set_user_quota,
  set_user_quota_by_admin,
}
use gao_cloud.Userquota.Handlers.{Env, World, QuotaError, create, update, delete}
use gao_cloud.Userquota.Admin.{QuotaAction, action, reject}

module _ (env : Env) (user : String) (w : World) {e : QuotaError} where
  -- A request for a quota that is refused changes nothing: not the table, not the users, not the
  -- calls to a cluster.
  pub create-refused :
      (q : UserQuota) → (create env user q w).0 ≡ some e → (create env user q w).1 ≡ w
  unfolding create
  create-refused q h = ground arith

  -- An update of a quota that is refused changes nothing: not the table, not the users, not the
  -- calls to a cluster.
  pub update-refused :
      (q : UserQuota) → (update env user q w).0 ≡ some e → (update env user q w).1 ≡ w
  unfolding update
  update-refused q h = ground arith

  -- A rejection that is refused changes nothing: not the table, not the users, not the
  -- calls to a cluster.
  pub reject-refused :
      (id reason : String) → (reject env id reason w).0 ≡ some e → (reject env id reason w).1 ≡ w
  unfolding reject
  reject-refused id reason h = ground arith

-- A `create` that returns no error: the namespace had no quota, and has the one that was asked for,
-- in the user's name, waiting for the administrator. No other quota, no user and no cluster is
-- touched.
pub create_lem :
    (env : Env) (user : String) (q : UserQuota) (w : World) (other : String)
    → (create env user q w).0 ≡ none
    → let w' = (create env user q w).1 in
      (lookup q.namespace w.quotas ≡ none)
      × (lookup other w'.quotas ≡ (
          if q.namespace == other
          then some (set_user_quota q user type_create env.now)
          else lookup other w.quotas))
      × (w'.auth ≡ w.auth)
      × (w'.calls ≡ w.calls)
unfolding create set_user_quota
create_lem env user q w other h =
    let put =
      lookup-insert q.namespace other (set_user_quota q user type_create env.now) w.quotas in
    (ground arith, ground (arith, put), ground arith, ground arith)

-- An `update` that returns no error: the quota is the user's own and was not waiting, the namespace
-- and the cluster asked for are the old ones, and the table has the new quota, waiting, with the
-- old time of creation.
pub update_lem :
    (env : Env) (user : String) (q : UserQuota) (w : World)
    → (update env user q w).0 ≡ none
    → (old : UserQuota) × (lookup q.id w.quotas ≡ some old)
      × (old.user_name ≡ user)
      × (old.status ≢ processing)
      × (old.namespace ≡ q.namespace)
      × (old.cluster_name ≡ q.cluster_name)
      × ((update env user q w).1.quotas
          ≡ insert q.namespace (set_user_quota q user type_update old.creation_timestamp) w.quotas)
unfolding update set_user_quota
update_lem env user q w h = elim (Option-cases (lookup q.id w.quotas)) [
  | inl unknown ↦ absurd (ground arith)
  | inr (old, known) ↦ (
    old,
    known,
    ground (arith, eq_iff old.user_name user),
    ground arith,
    ground (arith, eq_iff old.namespace q.namespace),
    ground (arith, eq_iff old.cluster_name q.cluster_name),
    ground arith,
  )
]

-- Only the administrator's actions are taken, and any other user's changes nothing.
pub action-denied :
    (env : Env) (user id : String) (a : QuotaAction) (w : World)
    → is_admin user ≡ false
    → action env user id a w ≡ (some QuotaError.permission_denied, w)
unfolding action
action-denied env user id a w h = ground arith

-- A `reject` that returns no error was of a quota that waited, which then is rejected for the
-- reason given; no other quota, no user and no cluster is touched.
pub reject_lem :
    (env : Env) (id reason other : String) (w : World)
    → (reject env id reason w).0 ≡ none
    → (q : UserQuota) × (lookup id w.quotas ≡ some q)
      × (q.status ≡ processing)
      × (lookup other (reject env id reason w).1.quotas ≡ (
          if id == other
          then some (set_user_quota_by_admin q q.cluster_name reason rejection env.now)
          else lookup other w.quotas))
      × ((reject env id reason w).1.auth ≡ w.auth)
      × ((reject env id reason w).1.calls ≡ w.calls)
unfolding reject
reject_lem env id reason other w h = elim (Option-cases (lookup id w.quotas)) [
  | inl unknown ↦ absurd (ground arith)
  | inr (q, known) ↦
      let q' = set_user_quota_by_admin q q.cluster_name reason rejection env.now in
      let put = lookup-insert id other q' w.quotas in
      (q, known, ground arith, ground (arith, put), ground arith, ground arith)
]

-- A `delete` that returns no error is by the owner or an administrator, of a quota that was not
-- waiting; the quota is gone, and the other quotas stay.
pub delete_lem :
    (env : Env) (user id other : String) (w : World)
    → (delete env user id w).0 ≡ none
    → (q : UserQuota) × (lookup id w.quotas ≡ some q)
      × ((is_admin user || q.user_name == user) ≡ true)
      × (q.status ≢ processing)
      × (lookup other (delete env user id w).1.quotas
          ≡ (if id == other then none else lookup other w.quotas))
unfolding delete
delete_lem env user id other w h = elim (Option-cases (lookup id w.quotas)) [
  | inl unknown ↦ absurd (ground arith)
  | inr (q, known) ↦
      let gone = lookup-remove id other w.quotas in
      (q, known, ground arith, ground arith, ground (arith, gone))
]
