-- ===== src/Application/Examples.antt =====
-- One application with a deployment and a service, on an API server that has one application.
use mathlib.Core.List.{Memᴰ}
use gao_cloud.Prelude.{
  none, map, nat_eq, ℕ, ◌≡◌, ◌⊎◌, inl, inr, Bool-cases, refl, ap, sym, ◌∙◌, ◌==◌, if◌then◌else◌,
  true, false, not, Option, some, String, [], ◌∷◌, arith,
}
use gao_cloud.Window.{add64}
use gao_cloud.Application.{
  AppResource, AppStatus, ApplicationInfo, Application, Client, ApplicationCache, state_succeed,
}
use gao_cloud.Application.Cache.{
  gen_resource_id, remove_resource, same_resource, add, is_workload, is_ready, status_updated,
  update_app_status,
}
use gao_cloud.Application.Counting.{IsCounted}
use gao_cloud.Application.Status.{IsClient, update_app_status-IsCounted}
use gao_cloud.Application.Scaled.{status_updated-scaled, scaled}
use gao_cloud.Application.Index.{Apart, same_key, deletion_of}
use gao_cloud.Application.Steps.{Accepts, Released}
use gao_cloud.Application.Deletion.{Order, all_deleted, next, delete_all, delete_all-add}
use gao_cloud.Application.Install.{Env, done, failed, create_app_resources}
use gao_cloud.Application.Lifecycle.{Crd, wait_crds_ready}
use gao_cloud.Application.Own.{made_elsewhere, create_app_resources-own}

abbrev resource : String → String → ℕ → AppResource
resource typ name n = record {
  namespace = "shop";
  name = name;
  resource_type = typ;
  exists = true;
  replicas = n;
  ready_replicas = n;
  creation_timestamp = 0;
}

abbrev web : AppResource
web = resource "deployment" "web" 2

abbrev front : AppResource
front = resource "service" "front" 0

abbrev status : AppStatus
status = record {
  state = state_succeed;
  workload_count = 1;
  ready_workload_count = 1;
  app_resources = web ∷ front ∷ [];
}

abbrev info : ApplicationInfo
info = record { namespace = "shop"; name = "app" }

abbrev app : Application
app = record {
  info = info;
  finalizer = true;
  inject_service_mesh = false;
  created_by_admin = false;
  manifests = [];
  crd_manifests = [];
  status = status;
}

-- The server has at most one application, under every name. It is being deleted: once it is written
-- without the finalizer, it is gone.
abbrev renamed : ApplicationInfo → Application → Application
renamed i w = record w { info = i }

abbrev with_status : AppStatus → Option Application → Option Application
with_status s none = none
with_status s (some w) = some (record w { status = s })

abbrev under : ApplicationInfo → Option Application → Option Application
under i none = none
under i (some w) = some (renamed i w)

abbrev write_status : Application → Option Application → Option (Option Application)
write_status a none = none
write_status a (some w) = some (some (record w { status = a.status }))

abbrev write : Application → Option Application → Option (Option Application)
write a none = none
write a (some w) = if a.finalizer then some (some (record a { status = w.status })) else some none

abbrev api : Client (Option Application)
api = record { get = under; update_status = write_status; update = write }

api-got :
    (i : ApplicationInfo) (a : Application) (w : Option Application)
    → under i w ≡ some a
    → a.info ≡ i
api-got i a none e = cc e
api-got i a (some w) e = let q : renamed i w ≡ a = cc e in ap (λ x. x.info) (sym q)

api-status_written :
    (a s : Application) (w w' : Option Application)
    → write_status a w ≡ some w'
    → under a.info w ≡ some s
    → under a.info w' ≡ some (record s { status = a.status })
api-status_written a s none w' e g = cc e
api-status_written a s (some w) w' e g =
    let q : some (record w { status = a.status }) ≡ w' = cc e in
    ap (under a.info) (sym q) ∙ ap (with_status a.status) g

api-IsClient : IsClient api
api-IsClient = record { got = api-got; status_written = api-status_written }

api-accepts_status :
    (a s : Application) (w : Option Application)
    → under a.info w ≡ some s
    → (w' : Option Application) × (write_status a w ≡ some w')
api-accepts_status a s none g = cc g
api-accepts_status a s (some w) g = (some (record w { status = a.status }), refl)

abbrev put_status : Application → Option Application → Option Application
put_status a none = none
put_status a (some w) = some (record a { status = w.status })

api-accepts :
    (a s : Application) (w : Option Application)
    → under a.info w ≡ some s
    → (w' : Option Application) × ((write a w ≡ some w')
        × (((a.finalizer ≡ false) × (under a.info w' ≡ none))
            ⊎ (under a.info w' ≡ some (record a { status = s.status }))))
api-accepts a s none g = cc g
api-accepts a s (some w) g = elim (Bool-cases a.finalizer) [
  | inl bound ↦ (some (record a { status = w.status }), (rw bound refl, inr (ap (put_status a) g)))
  | inr free ↦ (none, (rw free refl, inl (free, refl)))
]

api-Accepts : Accepts api
api-Accepts = record { accepts_status = api-accepts_status; accepts = api-accepts }

abbrev nothing : ApplicationCache
nothing = record { ns_and_applications = []; ns_and_app_resources = [] }

only_front : (s : AppResource) → Memᴰ s (front ∷ []) → s ≡ front
only_front s (Memᴰ.head e) = e
only_front s (Memᴰ.tail m) = elim m [ ]

web_and_front-Apart : Apart (web ∷ front ∷ [])
unfolding same_key gen_resource_id
web_and_front-Apart = (λ s m. ap (same_key web) (only_front s m), (λ s m. elim m [ ], tt))

-- The service first.
front_first : Order (web ∷ front ∷ []) (front ∷ web ∷ [])
unfolding remove_resource deletion_of same_resource
front_first = next (Memᴰ.tail (Memᴰ.head refl)) (next (Memᴰ.head refl) all_deleted)

delete_all-add_example :
    let g = delete_all api (front ∷ web ∷ []) (add app nothing) (some app) in
    Released api info g.0 g.1
delete_all-add_example =
    delete_all-add api-IsClient api-Accepts web (front ∷ []) (front ∷ web ∷ []) app app nothing
      (some app) refl web_and_front-Apart refl front_first

status_updated-scaled_example :
    (s2 s3 : AppStatus) × ((status_updated (scaled 0 0 web) status ≡ some s2)
      × ((status_updated web s2 ≡ some s3)
          × ((s3.app_resources ≡ status.app_resources) × (s3.ready_workload_count ≡ add64 1 1))))
unfolding is_workload status_updated
status_updated-scaled_example =
    status_updated-scaled web status status refl (omega arith) (omega arith) refl

-- One of two replicas is lost.
abbrev web_half : AppResource
web_half = scaled 2 1 web

abbrev status_half : AppStatus
status_half = record status { ready_workload_count = 0; app_resources = web_half ∷ front ∷ [] }

update_app_status-IsCounted_example :
    (app' : Application) × ((api.get info (some (record app { status = status_half })) ≡ some app')
      × IsCounted app'.status)
unfolding is_workload is_ready update_app_status status_updated
update_app_status-IsCounted_example =
    update_app_status-IsCounted api-IsClient web_half info app (some app)
      (some (record app { status = status_half })) (λ h. omega arith) refl (refl, omega arith) refl

-- Every text is one object of its own kind and name, a cluster role lies in no namespace, and the API
-- server makes all but a `job`.
abbrev env : Env
env = record {
  objects_of = λ content. (
    record {
      kind = content;
      namespaced = not (content == "clusterrole");
      has_meta = true;
      namespace = "";
      name = content;
      workload = false;
      is_crd = false;
      annotations = [];
    }
        ∷ [],
    true,
  );
  to_lower = λ s. s;
  creates = λ obj. if obj.kind == "job" then failed else done;
  deletes = λ obj. done;
}

abbrev new_app : Application
new_app = record app {
  manifests =
      record { file = "r"; content = "clusterrole"; duplicate = false }
      ∷ record { file = "a"; content = "service"; duplicate = false }
      ∷ record { file = "b"; content = "job"; duplicate = false }
      ∷ [];
}

create_app_resources-own_example :
    made_elsewhere "shop" (create_app_resources env new_app).1.0 ≡ false
create_app_resources-own_example = create_app_resources-own env new_app refl

-- The cluster role and the service are made, and the service is in the status; the job is refused, and the creation ends with an error.
created_app :
    let r = create_app_resources env new_app in
    (map (λ obj. obj.name) r.1.0 ≡ "service" ∷ "clusterrole" ∷ [])
    × ((r.1.1 ≡ false)
        × (map (λ x. x.name) r.0.status.app_resources ≡ "web" ∷ "front" ∷ "service" ∷ []))
unfolding create_app_resources
created_app = (refl, (refl, refl))

-- A definition counts once its names are accepted or refused, and not before.
abbrev crd : String → String → Crd
crd typ status = record {
  name = "meshes";
  conditions = record { condition_type = typ; status = status } ∷ [];
}

waited :
    (wait_crds_ready
        (λ i. if nat_eq i 2 then some (crd "Established" "True" ∷ []) else none)
        3
        0
        ("meshes" ∷ [])
      ≡ true)
    × (wait_crds_ready (λ i. some (crd "NamesAccepted" "True" ∷ [])) 3 0 ("meshes" ∷ []) ≡ false)
unfolding wait_crds_ready
waited = (refl, refl)
