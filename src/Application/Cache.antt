-- ===== src/Application/Cache.antt =====
-- application-operator/pkg/controller/applicationcache.go: the resources of the applications in
-- memory, and what an event of a resource does to the status of its application. The warnings that
-- are recorded are not modelled.
use Prim.Native.String
use gao_cloud.Prelude.{
  ℕ, Bool, true, false, not, ◌&&◌, Option, none, some, String, ◌==◌, List, [], ◌∷◌, any, nat_eq,
  ltb, leb, if◌then◌else◌, Result, ok, err,
}
use gao_cloud.Window.{add64, sub64}
use gao_cloud.Application.{
  AppResource, AppStatus, ApplicationInfo, Application, Client, ApplicationCache,
  support_workload_types,
}
use gao_cloud.Application.Tables.{lookup2, insert2, remove2}

unfoldable pub gen_resource_id : String → String → String
gen_resource_id resource_type name = String.◌++◌ resource_type (String.◌++◌ "/" name)

unfoldable pub get_app_resources : ApplicationCache → ApplicationInfo → Option (List AppResource)
unfolding lookup2
get_app_resources ac info = lookup2 info.namespace info.name ac.ns_and_applications

-- `getAppInfo`, for the type, the namespace and the name of a resource.
unfoldable pub get_app_info : ApplicationCache → AppResource → Option ApplicationInfo
unfolding lookup2 gen_resource_id
get_app_info ac r =
    lookup2 r.namespace (gen_resource_id r.resource_type r.name) ac.ns_and_app_resources

unfoldable pub index_resources :
    ApplicationInfo → List AppResource → ApplicationCache → ApplicationCache
unfolding insert2 gen_resource_id
index_resources info [] ac = ac
index_resources info (r ∷ rs) ac = index_resources info rs (record ac {
  ns_and_app_resources =
      insert2 r.namespace (gen_resource_id r.resource_type r.name) info ac.ns_and_app_resources;
})

-- `Add`
unfoldable pub add : Application → ApplicationCache → ApplicationCache
unfolding insert2 index_resources
add app ac = index_resources app.info app.status.app_resources (record ac {
  ns_and_applications =
      insert2 app.info.namespace app.info.name app.status.app_resources ac.ns_and_applications;
})

unfoldable pub is_workload : AppResource → Bool
is_workload r = any (λ t. t == r.resource_type) support_workload_types

unfoldable pub is_ready : AppResource → Bool
is_ready r = not (nat_eq r.ready_replicas 0) && leb r.replicas r.ready_replicas

unfoldable pub same_resource : AppResource → AppResource → Bool
same_resource r s =
    r.namespace == s.namespace && (r.resource_type == s.resource_type && r.name == s.name)

unfoldable pub put_before :
    AppResource → Option (Bool × List AppResource) → Option (Bool × List AppResource)
put_before r none = none
put_before r (some (ready, rs)) = some (ready, r ∷ rs)

unfoldable pub with_replicas : AppResource → AppResource → AppResource
with_replicas resource r = record r {
  replicas = resource.replicas;
  ready_replicas = resource.ready_replicas;
  creation_timestamp = resource.creation_timestamp;
}

-- `updateAppResources`: whether the resource was ready before, and the new list.
unfoldable pub update_app_resources :
    AppResource → List AppResource → Option (Bool × List AppResource)
unfolding same_resource is_ready put_before with_replicas
update_app_resources resource [] = none
update_app_resources resource (r ∷ rs) =
    let rest = update_app_resources resource rs in
    if same_resource r resource
    then some (is_ready r, with_replicas resource r ∷ rs)
    else put_before r rest

-- The count of the ready workloads, an `int`, after an update and after a deletion.
unfoldable pub count_updated : AppResource → Bool → ℕ → ℕ
unfolding is_workload
count_updated resource was_ready n =
    if is_workload resource
    then (if ltb resource.ready_replicas resource.replicas
        then (if was_ready then sub64 n 1 else n)
        else (if was_ready then n else add64 n 1))
    else n

unfoldable pub count_deleted : AppResource → Bool → ℕ → ℕ
unfolding is_workload
count_deleted resource was_ready n = if is_workload resource && was_ready then sub64 n 1 else n

unfoldable pub counted :
    (AppResource → Bool → ℕ → ℕ)
    → AppResource
    → AppStatus
    → Option (Bool × List AppResource)
    → Option AppStatus
counted count resource s none = none
counted count resource s (some (was_ready, rs)) = some (record s {
  app_resources = rs;
  ready_workload_count = count resource was_ready s.ready_workload_count;
})

-- The status that the event of a resource leaves, `none` when the application has no such resource.
unfoldable pub status_updated : AppResource → AppStatus → Option AppStatus
unfolding counted count_updated update_app_resources
status_updated resource s =
    counted count_updated resource s (update_app_resources resource s.app_resources)

unfoldable pub status_deleted : AppResource → AppStatus → Option AppStatus
unfolding counted count_deleted update_app_resources
status_deleted resource s =
    counted count_deleted resource s (update_app_resources resource s.app_resources)

pub data Reason : Type 0 where
  create_resources_failed create_crd_failed update_app_status_failed add_finalizer_failed : Reason
  delete_finalizer_failed delete_resources_failed no_found_app no_found_app_resource : Reason

-- The first of the list that is the resource is taken out.
unfoldable pub remove_resource : AppResource → List AppResource → List AppResource
unfolding same_resource
remove_resource resource [] = []
remove_resource resource (r ∷ rs) =
    let rest = remove_resource resource rs in if same_resource r resource then rs else r ∷ rest

unfoldable pub forget : ApplicationInfo → ApplicationCache → ApplicationCache
unfolding remove2
forget info ac = record ac {
  ns_and_applications = remove2 info.namespace info.name ac.ns_and_applications;
}

abbrev pub none_left : Option (List AppResource) → Bool
none_left (some (r ∷ rs)) = false
none_left _ = true

unfoldable pub without_resource :
    AppResource → ApplicationInfo → List AppResource → ApplicationCache → ApplicationCache
unfolding insert2 remove2 gen_resource_id
without_resource resource info rs ac = record {
  ns_and_applications = insert2 info.namespace info.name rs ac.ns_and_applications;
  ns_and_app_resources =
      remove2 resource.namespace (gen_resource_id resource.resource_type resource.name)
        ac.ns_and_app_resources;
}

module _ {W : Type 0} (client : Client W) where
  unfoldable pub write_status : Application → AppStatus → W → Result Reason W
  write_status app s w = elim (client.update_status (record app { status = s }) w) [
    | none ↦ err update_app_status_failed
    | some w' ↦ ok w'
  ]

  unfoldable pub update_app_status : AppResource → ApplicationInfo → W → Result Reason W
  unfolding status_updated write_status
  update_app_status resource info w = elim (client.get info w) [
    | none ↦ err no_found_app
    | some app ↦ elim (status_updated resource app.status) [
      | none ↦ err no_found_app_resource
      | some s ↦ write_status app s w
    ]
  ]

  -- `onCreateAppResource`, for the creation and for an update.
  unfoldable pub on_create_app_resource : AppResource → ApplicationCache → W → Result Reason W
  unfolding get_app_info update_app_status
  on_create_app_resource resource ac w = elim (get_app_info ac resource) [
    | none ↦ ok w
    | some info ↦ update_app_status resource info w
  ]

  -- `deleteApplication`: the finalizer goes, and the application is forgotten, when no resource is
  -- left.
  unfoldable pub delete_finalizer : Application → W → Option W
  delete_finalizer app w =
      if app.finalizer then client.update (record app { finalizer = false }) w else some w

  unfoldable pub delete_application :
      Application → ApplicationCache → W → Result Reason (Unit {0}) × (ApplicationCache × W)
  unfolding get_app_resources delete_finalizer forget
  delete_application app ac w =
      if none_left (get_app_resources ac app.info)
      then (elim (delete_finalizer app w) [
        | none ↦ (err delete_finalizer_failed, (ac, w))
        | some w' ↦ (ok tt, (forget app.info ac, w'))
      ])
      else (ok tt, (ac, w))

  -- The status after the deletion of a resource; that the application has it not is only logged.
  unfoldable pub write_deleted : AppResource → Application → W → Result Reason (Application × W)
  unfolding status_deleted
  write_deleted resource app w = elim (status_deleted resource app.status) [
    | none ↦ ok (app, w)
    | some s ↦ elim (client.update_status (record app { status = s }) w) [
      | none ↦ err update_app_status_failed
      | some w' ↦ ok (record app { status = s }, w')
    ]
  ]

  unfoldable pub forget_resource :
      AppResource
      → ApplicationInfo
      → List AppResource
      → ApplicationCache
      → W
      → Result Reason (Application × W)
      → Result Reason (Unit {0}) × (ApplicationCache × W)
  unfolding without_resource delete_application
  forget_resource resource info rs ac w (err e) = (err e, (ac, w))
  forget_resource resource info rs ac w (ok (app, w')) =
      delete_application app (without_resource resource info rs ac) w'

  -- `onDeleteAppResource`
  unfoldable pub delete_resource :
      AppResource
      → ApplicationInfo
      → List AppResource
      → ApplicationCache
      → W
      → Result Reason (Unit {0}) × (ApplicationCache × W)
  unfolding write_deleted forget_resource
  delete_resource resource info rs ac w = elim (client.get info w) [
    | none ↦ (err no_found_app, (ac, w))
    | some app ↦ forget_resource resource info rs ac w (write_deleted resource app w)
  ]

  -- `OnDeleteAppResource`
  unfoldable pub on_delete_app_resource :
      AppResource → ApplicationCache → W → Result Reason (Unit {0}) × (ApplicationCache × W)
  unfolding get_app_info get_app_resources remove_resource delete_resource
  on_delete_app_resource resource ac w = elim (get_app_info ac resource) [
    | none ↦ (ok tt, (ac, w))
    | some info ↦ elim (get_app_resources ac info) [
      | none ↦ (ok tt, (ac, w))
      | some rs ↦ delete_resource resource info (remove_resource resource rs) ac w
    ]
  ]
