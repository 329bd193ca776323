-- ===== src/Zke/Manager.antt =====
-- pkg/zke/manager.go: the requests that the manager serves. The lock makes each one step. What
-- pkg/zke/validation.go and the generation of a configuration do is a parameter, `Hooks`; `now` and
-- the version are the environment's. A request that starts a goroutine returns the state that the
-- goroutine is started with.
pub mod Names
pub mod Requests
pub mod Steps
pub mod Kept
use gao_cloud.Prelude.{
  ℕ, Bool, true, false, not, ◌&&◌, Option, none, some, String, ◌==◌, List, [], ◌∷◌, ◌++◌, Result,
  ok, err, if◌then◌else◌, keep, Map,
}
use gao_cloud.Kvzoo.{Faults, KvError}
use gao_cloud.Zke.Fsm.{
  Status, FsmLib, running, unreachable, creating, create_failed, update, continute_create, delete,
}
use gao_cloud.Zke.Store.{
  ClusterState, Cluster, Zke, resource_create, resource_delete, get_cluster, save, publish,
}
use gao_cloud.Zke.Cluster.{
  Bare, moved, refused, argument_panic, CancelError, is_ready, bare_event, can, cancel,
}

pub record Hooks (Api Config : Type 0) : Type 0 where
  pub name_of : Api → String
  pub validate_for_create : Api → Option String
  pub validate_for_update : Cluster Config → Api → Option String
  pub gen_config : Api → Config
  pub gen_config_for_update : Config → Api → Config

pub data ApiError : Type 0 where
  duplicate_resource not_found event_refused : ApiError
  invalid_option : String → ApiError
  permission_denied : Status → ApiError
  cancel_denied : CancelError → ApiError
  server_error : KvError → ApiError

module _ {Config : Type 0} where
  -- `get`: the first cluster of the name.
  unfoldable pub find : String → List (Cluster Config) → Option (Cluster Config)
  find name [] = none
  find name (c ∷ cs) = if c.name == name then some c else find name cs

  -- The write through the pointer that `get` gave.
  unfoldable pub put_back : Cluster Config → List (Cluster Config) → List (Cluster Config)
  put_back c [] = []
  put_back c (d ∷ ds) = if d.name == c.name then c ∷ ds else d ∷ put_back c ds

  unfoldable pub new_cluster : String → Status → Config → ℕ → String → Cluster Config
  new_cluster name status config create_time version = record {
    name = name;
    status = status;
    is_canceled = false;
    config = config;
    create_time = create_time;
    delete_time = 0;
    sc_version = version;
    connected = false;
  }

module _ {Config FullState : Type 0} where
  unfoldable pub get : String → Zke Config FullState → Option (Cluster Config)
  unfolding find
  get id m = find id m.clusters

  unfoldable pub get_ready : String → Zke Config FullState → Option (Cluster Config)
  unfolding find
  get_ready id m = elim (find id m.clusters) [
    | none ↦ none
    | some c ↦ if is_ready c then some c else none
  ]

  unfoldable pub list_ready : Zke Config FullState → List (Cluster Config)
  list_ready m = keep is_ready m.clusters

  unfoldable pub write : Cluster Config → Zke Config FullState → Zke Config FullState
  unfolding put_back
  write c m = record m { clusters = put_back c m.clusters }

  module _ {Api : Type 0} (hooks : Hooks Api Config) where
    open hooks use {
      name_of, validate_for_create, validate_for_update, gen_config, gen_config_for_update,
    }

    -- The state that `Create` stores and starts the goroutine with.
    abbrev pub first_state : ℕ → String → FullState → Api → ClusterState Config FullState
    first_state now version empty api = record {
      full_state = empty;
      config = gen_config api;
      create_time = now;
      delete_time = 0;
      created = false;
      sc_version = version;
    }

    unfoldable pub create :
        Faults
        → ℕ
        → String
        → FullState
        → Api
        → Zke Config FullState
        → Result ApiError (ClusterState Config FullState) × Zke Config FullState
    unfolding find new_cluster
    create f now version empty api m = elim (find (name_of api) m.clusters) [
      | some c ↦ (err duplicate_resource, m)
      | none ↦ elim (validate_for_create api) [
        | some message ↦ (err (invalid_option message), m)
        | none ↦
            let state = first_state now version empty api in
            elim (save f (name_of api) state m.db) [
              | err e ↦ (err (server_error e), m)
              | ok db ↦
                  let c = new_cluster (name_of api) creating state.config now version in
                  (ok state, record m { clusters = m.clusters ++ c ∷ []; db = db })
            ]
      ]
    ]

    module _ (lib : FsmLib) where
      -- `Update`, from the read of the stored state. The configuration is changed in memory, and then
      -- in the table, before the event that may be refused.
      unfoldable pub update_stored :
          Faults
          → Api
          → Cluster Config
          → ClusterState Config FullState
          → Zke Config FullState
          → Result ApiError (ClusterState Config FullState) × Zke Config FullState
      unfolding write bare_event can
      update_stored f api c state m =
          if state.created && not (can lib update c)
          then (err (permission_denied c.status), m)
          else let config = gen_config_for_update c.config api in
            let state' = record state { config = config } in
            let c' = record c { config = config } in
            let m' = write c' m in
            elim (save f (name_of api) state' m.db) [
              | err e ↦ (err (server_error e), m')
              | ok db ↦
                  let m'' = record m' { db = db } in
                  elim (bare_event lib (if state.created then update else continute_create) c') [
                    | moved c'' ↦ (ok state', write c'' m'')
                    | refused ↦ (err event_refused, m'')
                    | argument_panic ↦ (err event_refused, m'')
                  ]
            ]

      unfoldable pub update_cluster :
          Bool
          → Faults
          → Api
          → Zke Config FullState
          → Result ApiError (ClusterState Config FullState) × Zke Config FullState
      unfolding find get_cluster update_stored
      update_cluster begins f api m = elim (find (name_of api) m.clusters) [
        | none ↦ (err not_found, m)
        | some c ↦ elim (validate_for_update c api) [
          | some message ↦ (err (invalid_option message), m)
          | none ↦ elim (get_cluster begins (name_of api) m.db) [
            | err e ↦ (err (server_error e), m)
            | ok state ↦ update_stored f api c state m
          ]
        ]
      ]

  module _ (lib : FsmLib) where
    -- `Delete`, from the read of the stored state. The error of the event is not looked at, and a
    -- failed write leaves the cluster in its new status with no goroutine.
    unfoldable pub delete_stored :
        Faults
        → ℕ
        → String
        → Cluster Config
        → ClusterState Config FullState
        → Zke Config FullState
        → Result ApiError (ClusterState Config FullState) × Zke Config FullState
    unfolding write bare_event publish
    delete_stored f now id c state m =
        let c' : Cluster Config = elim (bare_event lib delete c) [
          | moved d ↦ d
          | refused ↦ c
          | argument_panic ↦ c
        ] in
        let m' = if state.created then publish (resource_delete c.name) m else m in
        let m'' = write (record c' { delete_time = now }) m' in
        let state' = record state { delete_time = now } in
        elim (save f id state' m''.db) [
          | err e ↦ (err (server_error e), m'')
          | ok db ↦ (ok state', record m'' { db = db })
        ]

    unfoldable pub delete_cluster :
        Bool
        → Faults
        → ℕ
        → String
        → Zke Config FullState
        → Result ApiError (ClusterState Config FullState) × Zke Config FullState
    unfolding find get_cluster delete_stored can
    delete_cluster begins f now id m = elim (find id m.clusters) [
      | none ↦ (err not_found, m)
      | some c ↦
          if not (can lib delete c)
          then (err (permission_denied c.status), m)
          else elim (get_cluster begins c.name m.db) [
            | err e ↦ (err (server_error e), m)
            | ok state ↦ delete_stored f now id c state m
          ]
    ]

  unfoldable pub cancel_cluster :
      String → Zke Config FullState → Result ApiError (Unit {0}) × Zke Config FullState
  unfolding find write cancel
  cancel_cluster id m = elim (find id m.clusters) [
    | none ↦ (err not_found, m)
    | some c ↦ elim (cancel c) [ err e ↦ (err (cancel_denied e), m) | ok c' ↦ (ok tt, write c' m) ]
  ]

  -- `loadDB`: one cluster for each stored state; `inits` is whether `Init` succeeds for a name.
  unfoldable pub load_cluster :
      (String → Bool)
      → String
      → ClusterState Config FullState
      → Zke Config FullState
      → Zke Config FullState
  unfolding new_cluster publish
  load_cluster inits id s m =
      if s.created
      then (if inits id
          then publish (resource_create id) (record m {
            clusters =
                m.clusters
                ++ record (new_cluster id running s.config s.create_time s.sc_version) {
                  connected = true;
                }
                  ∷ [];
          })
          else m)
      else record m {
        clusters =
            m.clusters ++ new_cluster id create_failed s.config s.create_time s.sc_version ∷ [];
      }

  unfoldable pub load_db :
      (String → Bool)
      → Map (ClusterState Config FullState)
      → Zke Config FullState
      → Zke Config FullState
  load_db inits [] m = m
  load_db inits ((id, s) ∷ t) m = load_db inits t (load_cluster inits id s m)
