-- ===== src/Userquota/Compensation.antt =====
-- The administrator's approval across the table, the users and the cluster: what it grants, and
-- that a failed one is undone; and what a deletion may reach.
use mathlib.Core.List.{Memᴰ}
use mathlib.Core.Path.{subst}
use gao_cloud.Prelude.{
  ◌≡◌, ◌∙◌, refl, sym, ap, inl, inr, Bool, true, false, Option, none, some, String, ◌==◌, eq_refl,
  arith, List, [], ◌∷◌, ◌++◌, lookup, lookup-insert, if◌then◌else◌, Option-cases,
}
use gao_cloud.Authorization.{Project, User, ApiUser, authorize, get_user, update_user}
use gao_cloud.Authorization.Access.{Grant, authorize_iff}
use gao_cloud.Authorization.Sync.{users-update_user}
use gao_cloud.Userquota.Quota.{
  UserQuota, processing, approval, rejection, type_create, set_user_quota, set_user_quota_by_admin,
}
use gao_cloud.Userquota.Handlers.{
  Env, World, QuotaError, create, delete, K8sCall, create_namespace, delete_namespace, create_quota,
  update_quota, restore_quota, change_projects,
}
use gao_cloud.Userquota.Lifecycle.{create_lem, reject_lem}
use gao_cloud.Userquota.Admin.{approve, reject}

-- The namespace as the cluster has it: whether it is there, and the limit on its storage.
pub record Prepared : Type 0 where
  pub exists : Bool
  pub limit : Option String

-- What a call makes of it, as the environment answers; `old` is the limit that a restoration brings
-- back.
abbrev pub effect : Env → Option String → Prepared → K8sCall → Prepared
effect env old p (create_namespace c n) =
    if env.creates_namespace then record { exists = true; limit = none } else p
effect env old p (delete_namespace c n) = record { exists = false; limit = none }
effect env old p (create_quota c n s) = if env.creates_quota then record p { limit = some s } else p
effect env old p (update_quota c n s) = if env.updates_quota then record p { limit = some s } else p
effect env old p (restore_quota c n) = record p { limit = old }

abbrev pub effects : Env → Option String → Prepared → List K8sCall → Prepared
effects env old p [] = p
effects env old p (k ∷ ks) = effects env old (effect env old p k) ks

-- Where `approve` returns an error, the table and the users are as they were, and the calls that it
-- made leave the namespace as it was. The calls are read from none on, `has_namespace` says whether
-- the namespace is there, a namespace that is not there has no limit, and the calls that undo are
-- answered.
pub approve-refused :
    (env : Env) (id cluster : String) (w : World) (p : Prepared) {e : QuotaError}
    → (approve env id cluster w).0 ≡ some e
    → w.calls ≡ []
    → p.exists ≡ env.has_namespace
    → (env.has_namespace ≡ false → p.limit ≡ none)
    → ((approve env id cluster w).1.quotas ≡ w.quotas)
      × ((approve env id cluster w).1.auth ≡ w.auth)
      × (effects env p.limit p (approve env id cluster w).1.calls ≡ p)
unfolding approve
approve-refused env id cluster w p h fresh there bare = (ground arith, ground arith, ground arith)

Memᴰ-append_last : {A : Type 0} (xs : List A) (x : A) → Memᴰ x (xs ++ x ∷ [])
Memᴰ-append_last [] x = Memᴰ.head refl
Memᴰ-append_last (y ∷ xs) x = Memᴰ.tail (Memᴰ-append_last xs x)

-- A user to whom a project is added is authorised for its namespace.
authorize-change_projects :
    (env : Env) (w : World) (name cluster namespace : String) (user : User)
    → lookup name w.auth.users ≡ some user
    → authorize
        (change_projects env name
          (λ ps. ps ++ record { cluster = cluster; namespace = namespace } ∷ [])
          w).auth
        name
        cluster
        namespace
      ≡ true
unfolding get_user
authorize-change_projects env w name cluster namespace user known =
    let p : Project = record { cluster = cluster; namespace = namespace } in
    let u : ApiUser = record {
      id = name;
      name = name;
      projects = user.projects ++ p ∷ [];
      creation_timestamp = user.creation_timestamp;
      deletion_timestamp = user.deletion_timestamp;
    } in
    let grant : Grant (update_user env.auth_tx u w.auth).0 name cluster namespace = record {
      user = record user { projects = u.projects };
      known = users-update_user env.auth_tx u w.auth user known;
      project = p;
      held = Memᴰ-append_last user.projects p;
      covered = record { on_cluster = inr refl; on_namespace = inr (inr refl) };
    } in
    let changed : (change_projects env name (λ ps. ps ++ p ∷ []) w).auth
        ≡ (update_user env.auth_tx u w.auth).0 =
      ground (arith, known) in
    subst (λ a. authorize a name cluster namespace ≡ true) (sym changed)
      ((authorize_iff (update_user env.auth_tx u w.auth).0 name cluster namespace).1 (inr grant))

-- An `approve` that returns no error was of a quota that waited, which then is approved for the
-- cluster, and no other quota is touched.
approve_lem :
    (env : Env) (id cluster other : String) (w : World)
    → (approve env id cluster w).0 ≡ none
    → (q : UserQuota) × (lookup id w.quotas ≡ some q)
      × (q.status ≡ processing)
      × (lookup other (approve env id cluster w).1.quotas ≡ (
          if id == other
          then some (set_user_quota_by_admin q cluster "" approval env.now)
          else lookup other w.quotas))
unfolding approve
approve_lem env id cluster other w h = elim (Option-cases (lookup id w.quotas)) [
  | inl unknown ↦ absurd (ground arith)
  | inr (q, known) ↦
      let q' = set_user_quota_by_admin q cluster "" approval env.now in
      let put = lookup-insert id other q' w.quotas in (q, known, ground arith, ground (arith, put))
]

-- An `approve` that returns no error, for a cluster that lacks the namespace, authorises the
-- quota's user, where it is known, for that namespace of that cluster.
pub authorize-approve :
    (env : Env) (id cluster : String) (w : World) (q : UserQuota) (user : User)
    → (approve env id cluster w).0 ≡ none
    → lookup id w.quotas ≡ some q
    → env.has_namespace ≡ false
    → lookup q.user_name w.auth.users ≡ some user
    → authorize (approve env id cluster w).1.auth q.user_name cluster q.namespace ≡ true
unfolding approve
authorize-approve env id cluster w q user h known new there =
    let granted = authorize-change_projects env w q.user_name cluster q.namespace user there in
    ground (arith, granted)

-- A deletion by the owner of a quota that names a cluster asks for the deletion of the namespace.
calls-delete :
    (env : Env) (user id : String) (q : UserQuota) (w : World)
    → (user == "") ≡ false
    → env.tx.begins ≡ true
    → lookup id w.quotas ≡ some q
    → (q.user_name == user) ≡ true
    → q.status ≡ rejection
    → (q.cluster_name == "") ≡ false
    → env.has_cluster q.cluster_name ≡ true
    → (delete env user id w).1.calls ≡ w.calls ++ delete_namespace q.cluster_name q.namespace ∷ []
unfolding delete
calls-delete env user id q w named begins known own status clustered there = ground arith

-- After a `create` for a quota that names a cluster and a `reject` of it, both without an error,
-- the user's `delete` asks that cluster for the deletion of the namespace, though nothing was
-- granted. The user has a name, the cluster is known, and the deletion's transaction begins.
pub delete-rejected :
    (env : Env) (user reason : String) (q : UserQuota) (w w' w'' : World)
    → (user == "") ≡ false
    → (q.cluster_name == "") ≡ false
    → env.has_cluster q.cluster_name ≡ true
    → env.tx.begins ≡ true
    → create env user q w ≡ (none, w')
    → reject env q.namespace reason w' ≡ (none, w'')
    → (delete env user q.namespace w'').1.calls
      ≡ w.calls ++ delete_namespace q.cluster_name q.namespace ∷ []
unfolding set_user_quota set_user_quota_by_admin
delete-rejected env user reason q w w' w'' named clustered there begins created rejected =
    let (free, made, users, calls) = create_lem env user q w q.namespace (ap (λ r. r.0) created) in
    let (q', known, held, put, users', calls') =
      reject_lem env q.namespace reason q.namespace w' (ap (λ r. r.0) rejected) in
    let q1 : UserQuota = set_user_quota q user type_create env.now in
    let q2 : UserQuota = set_user_quota_by_admin q1 q1.cluster_name reason rejection env.now in
    let stored : lookup q.namespace w'.quotas ≡ some q1 =
      ground (arith, created, made, eq_refl q.namespace) in
    let same : q' ≡ q1 = ground (arith, known, stored) in
    let now_there : lookup q.namespace w''.quotas ≡ some q2 =
      ground (arith, eq_refl q.namespace, rejected, same, put) in
    let untouched : w''.calls ≡ w.calls = ground (arith, created, rejected, calls, calls') in
    calls-delete env user q.namespace q2 w'' named begins now_there (eq_refl user) refl clustered
      there
    ∙ ap (λ l. l ++ delete_namespace q.cluster_name q.namespace ∷ []) untouched
