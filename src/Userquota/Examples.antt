-- ===== src/Userquota/Examples.antt =====
-- A user's quota on its way from the request to the approval, or to the rejection.
use gao_cloud.Prelude.{
  ◌≡◌, refl, Bool, true, false, not, ◌==◌, String, some, none, [], ◌∷◌, Map, lookup, insert,
}
use gao_cloud.Kvzoo
use gao_cloud.Kvzoo.{Faults, duplicate}
use gao_cloud.Authorization.{User, authorize}
use gao_cloud.Userquota.Quota.{
  UserQuota, QuotaStatus, processing, type_create, is_valid_namespace,
  check_user_quota_params_valid, set_user_quota,
}
use gao_cloud.Userquota.Handlers.{
  Env, World, deleted, create, delete, delete_namespace, permission_denied, no_quota,
}
use gao_cloud.Userquota.Admin.{approve, reject, action, approval_action}
use gao_cloud.Userquota.Lifecycle.{action-denied}
use gao_cloud.Userquota.Compensation.{
  Prepared, effects, approve-refused, authorize-approve, delete-rejected,
}

abbrev all_fine : Faults
all_fine = record { begins = true; writes = true; commits = true }

-- The cluster is asked for what it lacks, and gives all but, where it is told so, the quota.
abbrev env : Bool → Env
env quota = record {
  is_quantity = λ s. not (s == "");
  has_cluster = λ c. c == "beijing";
  has_namespace = false;
  creates_namespace = true;
  creates_quota = quota;
  updates_quota = true;
  deletion = deleted;
  now = 100;
  tx = all_fine;
  auth_tx = all_fine;
}

abbrev quota : String → QuotaStatus → UserQuota
quota cluster status = record {
  id = "web";
  creation_timestamp = 100;
  name = "web";
  cluster_name = cluster;
  namespace = "web";
  user_name = "gao";
  cpu = "1";
  memory = "1Gi";
  storage = "10Gi";
  request_type = type_create;
  status = status;
  purpose = "";
  requestor = "";
  telephone = "";
  rejection_reason = "";
  response_timestamp = 0;
}

abbrev gao : User
gao = record { projects = []; creation_timestamp = 1; deletion_timestamp = 0 }

abbrev world : Map UserQuota → World
world quotas = record {
  quotas = quotas;
  auth = record { users = ("gao", gao) ∷ []; db = ("gao", gao) ∷ [] };
  calls = [];
}

abbrev waiting : World
waiting = world (("web", quota "" processing) ∷ [])

action-denied_example :
    action (env true) "gao" "web" (approval_action (some "beijing")) waiting
    ≡ (some permission_denied, waiting)
action-denied_example =
    action-denied (env true) "gao" "web" (approval_action (some "beijing")) waiting refl

abbrev bare : Prepared
bare = record { exists = false; limit = none }

approve-refused_example :
    ((approve (env false) "web" "beijing" waiting).1.quotas ≡ waiting.quotas)
    × ((approve (env false) "web" "beijing" waiting).1.auth ≡ waiting.auth)
    × (effects (env false) none bare (approve (env false) "web" "beijing" waiting).1.calls ≡ bare)
unfolding approve lookup Kvzoo.get
approve-refused_example =
    approve-refused (env false) "web" "beijing" waiting bare {e = no_quota} refl refl refl
      (λ h. refl)

authorize-approve_example :
    authorize (approve (env true) "web" "beijing" waiting).1.auth "gao" "beijing" "web" ≡ true
unfolding approve lookup Kvzoo.update Kvzoo.get
authorize-approve_example =
    authorize-approve (env true) "web" "beijing" waiting (quota "" processing) gao refl refl refl
      refl

abbrev asked : World
asked = (create (env true) "gao" (quota "beijing" processing) (world [])).1

abbrev turned_down : World
turned_down = (reject (env true) "web" "no" asked).1

delete-rejected_example :
    (delete (env true) "gao" "web" turned_down).1.calls ≡ delete_namespace "beijing" "web" ∷ []
unfolding create reject is_valid_namespace check_user_quota_params_valid set_user_quota lookup
    insert Kvzoo.add Kvzoo.get Kvzoo.update
delete-rejected_example =
    delete-rejected (env true) "gao" "no" (quota "beijing" processing) (world []) asked turned_down
      refl refl refl refl refl refl
