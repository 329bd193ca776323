-- ===== src/Application/Manager.antt =====
-- application-operator/pkg/controller/applicationmanager.go: the events of Kubernetes, by the objects
-- they are about. The errors of the handlers are only logged.
use gao_cloud.Prelude.{
  ℕ, Bool, false, not, ◌&&◌, Option, none, some, String, List, [], ◌∷◌, nat_eq, if◌then◌else◌,
  or_old,
}
use gao_cloud.Application.{AppResource, Application, Client, ApplicationCache}
use gao_cloud.Application.Cache.{add, on_create_app_resource, on_delete_app_resource}
use gao_cloud.Application.Install.{Env}
use gao_cloud.Application.Lifecycle.{Crd, on_create_application, on_delete_application}

pub record ObjectMeta : Type 0 where
  pub namespace : String
  pub name : String
  pub creation_timestamp : ℕ

-- The objects that are watched: a workload has its replicas and those that are ready, an application
-- whether it is being deleted.
pub data K8sObject : Type 0 where
  an_application : Bool → Application → K8sObject
  deployment daemon_set stateful_set : ObjectMeta → ℕ → ℕ → K8sObject
  service ingress config_map secret job cron_job : ObjectMeta → K8sObject

unfoldable pub resource_of : String → ObjectMeta → ℕ → ℕ → AppResource
resource_of typ meta replicas ready = record {
  namespace = meta.namespace;
  name = meta.name;
  resource_type = typ;
  exists = false;
  replicas = replicas;
  ready_replicas = ready;
  creation_timestamp = meta.creation_timestamp;
}

unfoldable pub created_resource : K8sObject → Option AppResource
unfolding resource_of
created_resource (an_application deleting app) = none
created_resource (deployment m n k) = some (resource_of "deployment" m n k)
created_resource (daemon_set m n k) = some (resource_of "daemonset" m n k)
created_resource (stateful_set m n k) = some (resource_of "statefulset" m n k)
created_resource (service m) = some (resource_of "service" m 0 0)
created_resource (ingress m) = some (resource_of "ingress" m 0 0)
created_resource (config_map m) = some (resource_of "configmap" m 0 0)
created_resource (secret m) = some (resource_of "secret" m 0 0)
created_resource (job m) = some (resource_of "job" m 0 0)
created_resource (cron_job m) = some (resource_of "cronjob" m 0 0)

-- The ready replicas of an object, and whether it is being deleted.
unfoldable pub ready_of : K8sObject → ℕ
ready_of (deployment m n k) = k
ready_of (daemon_set m n k) = k
ready_of (stateful_set m n k) = k
ready_of _ = 0

unfoldable pub is_deleting : K8sObject → Bool
is_deleting (an_application deleting app) = deleting
is_deleting _ = false

-- The resource of a workload whose ready replicas have changed.
unfoldable pub updated_resource : K8sObject → K8sObject → Option AppResource
unfolding ready_of created_resource
updated_resource old new =
    if nat_eq (ready_of old) (ready_of new) then none else created_resource new

-- The resource that a deletion tells of has no numbers and no time.
unfoldable pub deleted_resource : K8sObject → Option AppResource
unfolding created_resource
deleted_resource object = elim (created_resource object) [
  | none ↦ none
  | some r ↦ some (record r { replicas = 0; ready_replicas = 0; creation_timestamp = 0 })
]

-- `initApplicationManager`, with the applications of each namespace.
unfoldable pub add_all : List Application → ApplicationCache → ApplicationCache
unfolding add
add_all [] ac = ac
add_all (app ∷ apps) ac = add_all apps (add app ac)

module _ (env : Env) (listed : ℕ → Option (List Crd)) {W : Type 0} (client : Client W) where
  unfoldable pub on_resource : Option AppResource → ApplicationCache → W → ApplicationCache × W
  unfolding on_create_app_resource
  on_resource none ac w = (ac, w)
  on_resource (some r) ac w = (ac, or_old (on_create_app_resource client r ac w) w)

  unfoldable pub on_create : K8sObject → ApplicationCache → W → ApplicationCache × W
  unfolding on_create_application on_resource created_resource
  on_create (an_application deleting app) ac w =
      (on_create_application env client listed app ac w).1
  on_create object ac w = on_resource (created_resource object) ac w

  unfoldable pub on_update : K8sObject → K8sObject → ApplicationCache → W → ApplicationCache × W
  unfolding on_delete_application on_resource updated_resource is_deleting
  on_update old (an_application deleting app) ac w =
      if not (is_deleting old) && deleting
      then (on_delete_application env client app ac w).1
      else (ac, w)
  on_update old new ac w = on_resource (updated_resource old new) ac w

  unfoldable pub on_delete : K8sObject → ApplicationCache → W → ApplicationCache × W
  unfolding on_delete_app_resource deleted_resource
  on_delete object ac w = elim (deleted_resource object) [
    | none ↦ (ac, w)
    | some r ↦ (on_delete_app_resource client r ac w).1
  ]
