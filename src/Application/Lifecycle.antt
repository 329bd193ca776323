-- ===== src/Application/Lifecycle.antt =====
-- application-operator/pkg/controller/applicationcache.go: the custom resource definitions of an
-- application, its creation and its deletion. What the API server lists of the definitions at each
-- try is the environment's.
use gao_cloud.Prelude.{
  ℕ, zero, suc, Bool, true, false, ◌&&◌, ◌||◌, Option, none, some, String, ◌==◌, List, [], ◌∷◌,
  ◌++◌, any, if◌then◌else◌, Result, ok, err,
}
use gao_cloud.Application.{
  state_create, state_succeed, state_failed, Manifest, Application, Client, ApplicationCache,
  AppState,
}
use gao_cloud.Application.Cache.{
  Reason, create_resources_failed, create_crd_failed, update_app_status_failed,
  add_finalizer_failed, delete_resources_failed, add, get_app_resources, delete_application,
}
use gao_cloud.Application.Install.{
  Object, done, already_exists, Env, create_app_resources, delete_app_resources,
}

pub record CrdCondition : Type 0 where
  pub condition_type : String
  pub status : String

pub record Crd : Type 0 where
  pub name : String
  pub conditions : List CrdCondition

abbrev pub crd_check_times : ℕ
crd_check_times = 30

unfoldable pub is_crd_ready : Crd → Bool
is_crd_ready crd =
    any
      (λ c.
        (c.condition_type == "Established" && c.status == "True")
        || (c.condition_type == "NamesAccepted" && c.status == "False"))
      crd.conditions

-- The first of the listed definitions that has the name is the one that counts.
unfoldable pub required_ready : List Crd → String → Bool
unfolding is_crd_ready
required_ready [] name = false
required_ready (crd ∷ crds) name =
    let rest = required_ready crds name in if crd.name == name then is_crd_ready crd else rest

unfoldable pub is_crds_ready : Option (List Crd) → List String → Bool
unfolding required_ready
is_crds_ready none required = false
is_crds_ready (some crds) [] = true
is_crds_ready (some crds) (name ∷ names) =
    required_ready crds name && is_crds_ready (some crds) names

-- `waitCRDsReady`, with the tries that are left and the number of the next.
unfoldable pub wait_crds_ready : (ℕ → Option (List Crd)) → ℕ → ℕ → List String → Bool
unfolding is_crds_ready
wait_crds_ready listed zero i required = false
wait_crds_ready listed (suc left) i required =
    is_crds_ready (listed i) required || wait_crds_ready listed left (suc i) required

module _ (env : Env) where
  unfoldable pub create_crd : Object → Bool
  create_crd obj =
      obj.is_crd && (elim (env.creates obj) [ done ↦ true | already_exists ↦ true | _ ↦ false ])

  -- The names of the definitions of a manifest, `none` when one is not created.
  unfoldable pub create_crds : List Object → Bool → Option (List String)
  unfolding create_crd
  create_crds [] readable = if readable then some [] else none
  create_crds (obj ∷ rest) readable = elim (create_crds rest readable) [
    | none ↦ none
    | some names ↦ if create_crd obj then some (obj.name ∷ names) else none
  ]

  unfoldable pub crds_of : List Manifest → Option (List String)
  unfolding create_crds
  crds_of [] = some []
  crds_of (m ∷ ms) =
      let objs : List Object × Bool = env.objects_of m.content in
      elim (create_crds objs.0 objs.1) [
        | none ↦ none
        | some names ↦ elim (crds_of ms) [ none ↦ none | some more ↦ some (names ++ more) ]
      ]

  -- `preInstallChartCRDs`
  unfoldable pub pre_install_chart_crds : (ℕ → Option (List Crd)) → List Manifest → Bool
  unfolding crds_of wait_crds_ready
  pre_install_chart_crds listed [] = true
  pre_install_chart_crds listed (m ∷ ms) = elim (crds_of (m ∷ ms)) [
    | none ↦ false
    | some names ↦ wait_crds_ready listed crd_check_times 0 names
  ]

abbrev pub in_state : AppState → Application → Application
in_state state app = record app { status = record app.status { state = state } }

-- The new state of the API server, the old one when it answers with an error.
abbrev pub or_same : {W : Type 0} → Option W → W → W
or_same none w = w
or_same (some w') w = w'

module _ (env : Env) {W : Type 0} (client : Client W) where
  -- What follows `createAppResources`, with its application and whether it had no error; `Add` is
  -- deferred, and runs with the application as it is at the end.
  unfoldable pub with_resources :
      Application → Bool → ApplicationCache → W → Result Reason (Unit {0}) × (ApplicationCache × W)
  unfolding add
  with_resources app false ac w =
      let app' : Application = in_state state_failed app in
      (err create_resources_failed, (add app' ac, or_same (client.update_status app' w) w))
  with_resources app true ac w =
      let app' : Application = in_state state_succeed app in
      elim (client.update_status app' w) [
        | none ↦ (err update_app_status_failed, (add app' ac, w))
        | some w' ↦ (ok tt, (add app' ac, w'))
      ]

  unfoldable pub with_finalizer :
      Application → ApplicationCache → W → Result Reason (Unit {0}) × (ApplicationCache × W)
  unfolding with_resources create_app_resources
  with_finalizer app ac w =
      let app' : Application = record app { finalizer = true } in
      elim (client.update app' w) [
        | none ↦ (err add_finalizer_failed, (ac, w))
        | some w' ↦
            let r : Application × (List Object × Bool) = create_app_resources env app' in
            with_resources r.0 r.1.1 ac w'
      ]

  -- `OnCreateApplication` and `onCreateApplication`
  unfoldable pub on_create_application :
      (ℕ → Option (List Crd))
      → Application
      → ApplicationCache
      → W
      → Result Reason (Unit {0}) × (ApplicationCache × W)
  unfolding with_finalizer pre_install_chart_crds get_app_resources
  on_create_application listed app ac w = elim (get_app_resources ac app.info) [
    | some rs ↦ (ok tt, (ac, w))
    | none ↦
        let app' : Application = in_state state_create app in
        elim (client.update_status app' w) [
          | none ↦ (err update_app_status_failed, (ac, w))
          | some w' ↦
              if pre_install_chart_crds env listed app.crd_manifests
              then with_finalizer app' ac w'
              else (err create_crd_failed, (ac, w'))
        ]
  ]

  -- `OnDeleteApplication` and `onDeleteApplication`
  unfoldable pub on_delete_application :
      Application → ApplicationCache → W → Result Reason (Unit {0}) × (ApplicationCache × W)
  unfolding delete_app_resources delete_application get_app_resources
  on_delete_application app ac w = elim (get_app_resources ac app.info) [
    | none ↦ (ok tt, (ac, w))
    | some rs ↦ if delete_app_resources env app ac then delete_application client app ac w else (
      err delete_resources_failed,
      (ac, or_same (client.update_status (in_state state_failed app) w) w),
    )
  ]
