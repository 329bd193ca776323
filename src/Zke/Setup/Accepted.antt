-- ===== src/Zke/Setup/Accepted.antt =====
-- Every cluster of the manager has the nodes of a configuration that was accepted.
use gao_cloud.Prelude.{
  ℕ, ◌≡◌, ◌⊎◌, sym, refl, inl, inr, Bool, not, ◌&&◌, Option, none, String, ◌==◌, List, [], ◌∷◌,
  ◌++◌, arith, Result, ok, err, Result-cases, Option-cases, Bool-cases, if◌then◌else◌, Passes,
}
use mathlib.Core.Path.{subst}
use gao_cloud.Kvzoo.{Faults}
use gao_cloud.Zke.Fsm.{FsmLib, EventName, creating, update, continute_create}
use gao_cloud.Zke.Store.{Cluster, ClusterState, Zke, save, get_cluster}
use gao_cloud.Zke.Cluster.{bare_event, Bare, moved, refused, argument_panic, can}
use gao_cloud.Zke.Validation.{ApiCluster, ConfigError, Parsers, validate_config_for_create}
use gao_cloud.Zke.Validation.Change.{validate_config_for_update}
use gao_cloud.Zke.Validation.Accepted.{IsConfig, validate_config_for_create_iff}
use gao_cloud.Zke.Validation.Updates.{validate_config_for_update-IsConfig}
use gao_cloud.Zke.Config.{
  ZkeConfig, gen_zke_config, gen_zke_config_for_update, sc_cluster_to_zke_nodes, to_sc_cluster,
}
use gao_cloud.Zke.Manager.{
  create, update_cluster, update_stored, find, put_back, write, new_cluster, first_state,
}
use gao_cloud.Zke.Setup.{message, cluster_hooks, Setup, creates, updates, set_up, set_up_all}

Bare-cases :
    {A : Type 0} (b : Bare A) → ((a : A) × (b ≡ moved a)) ⊎ ((b ≡ refused) ⊎ (b ≡ argument_panic))
Bare-cases (moved a) = inl (a, refl)
Bare-cases refused = inr (inl refl)
Bare-cases argument_panic = inr (inr refl)

-- An event changes the status only.
bare_event-config :
    (lib : FsmLib) (e : EventName) (c d : Cluster ZkeConfig)
    → bare_event lib e c ≡ moved d
    → d.config ≡ c.config
unfolding bare_event
bare_event-config lib e c d h = ground (arith, h)

module _ (parsers : Parsers) where
  -- The engine's nodes are those of a configuration that was accepted.
  pub record IsSetUp (config : ZkeConfig) : Type 0 where
    pub api : ApiCluster
    pub accepted : IsConfig parsers api
    pub same_nodes : config.nodes ≡ sc_cluster_to_zke_nodes api

  abbrev pub AllSetUp : List (Cluster ZkeConfig) → Type 0
  AllSetUp [] = Unit
  AllSetUp (c ∷ cs) = IsSetUp c.config × AllSetUp cs

  AllSetUp-append :
      (c : Cluster ZkeConfig) (cs : List (Cluster ZkeConfig))
      → AllSetUp cs
      → IsSetUp c.config
      → AllSetUp (cs ++ c ∷ [])
  AllSetUp-append c [] h new = (new, tt)
  AllSetUp-append c (d ∷ ds) h new = (h.0, AllSetUp-append c ds h.1 new)

  AllSetUp-put_back :
      (c : Cluster ZkeConfig) (cs : List (Cluster ZkeConfig))
      → AllSetUp cs
      → IsSetUp c.config
      → AllSetUp (put_back c cs)
  unfolding put_back
  AllSetUp-put_back c [] h new = tt
  AllSetUp-put_back c (d ∷ ds) h new = elim (Bool-cases (d.name == c.name)) [
    | inl hit ↦ rw hit (new, h.1)
    | inr miss ↦ rw miss (h.0, AllSetUp-put_back c ds h.1 new)
  ]

  message-none :
      (text : ConfigError → String) (r : Result ConfigError (Unit {0}))
      → message text r ≡ none
      → Passes r
  message-none text (ok tt) h = refl
  message-none text (err e) h = cc h

  module _ (is_storage_node : String → Option Bool) (text : ConfigError → String)
      {FullState : Type 0} where
    create-AllSetUp :
        (f : Faults) (now : ℕ) (version : String) (empty : FullState) (api : ApiCluster)
        (m : Zke ZkeConfig FullState)
        → AllSetUp m.clusters
        → AllSetUp
            (create
              (cluster_hooks parsers is_storage_node text)
              f
              now
              version
              empty
              api
              m).1.clusters
    unfolding create new_cluster gen_zke_config
    create-AllSetUp f now version empty api m h = elim (Option-cases (find api.name m.clusters)) [
      | inr (c, taken) ↦ rw (taken, create) h
      | inl free ↦ elim (Option-cases (message text (validate_config_for_create parsers api))) [
        | inr (e, bad) ↦ rw (free, create, bad) h
        | inl good ↦
            let state =
              first_state (cluster_hooks parsers is_storage_node text) now version empty api in
            let passed = message-none text (validate_config_for_create parsers api) good in
            elim (Result-cases (save f api.name state m.db)) [
              | inl (e, failed) ↦ rw (free, create, good, failed) h
              | inr (db, done) ↦
                  rw (free, create, good, done)
                    (AllSetUp-append (new_cluster api.name creating state.config now version)
                      m.clusters h
                      (record {
                        api = api;
                        accepted = ((validate_config_for_create_iff parsers api).0 passed).0;
                        same_nodes = refl;
                      }))
            ]
      ]
    ]

    module _ (lib : FsmLib) where
      update_stored-AllSetUp :
          (f : Faults) (api : ApiCluster) (c : Cluster ZkeConfig)
          (state : ClusterState ZkeConfig FullState) (m : Zke ZkeConfig FullState)
          → AllSetUp m.clusters
          → IsConfig parsers api
          → AllSetUp
              (update_stored
                (cluster_hooks parsers is_storage_node text)
                lib
                f
                api
                c
                state
                m).1.clusters
      unfolding update_stored write gen_zke_config_for_update
      update_stored-AllSetUp f api c state m h good =
          let config = gen_zke_config_for_update c.config api in
          let c' : Cluster ZkeConfig = record c { config = config } in
          let new : IsSetUp config = record { api = api; accepted = good; same_nodes = refl } in
          let kept = AllSetUp-put_back c' m.clusters h new in
          elim (Bool-cases (state.created && not (can lib update c))) [
            | inl barred ↦ rw (barred, update_stored) h
            | inr free ↦
                elim (Result-cases (save f api.name (record state { config = config }) m.db)) [
                  | inl (e, failed) ↦ rw (free, update_stored, failed) kept
                  | inr (db, done) ↦
                      elim (Bare-cases
                        (bare_event lib (if state.created then update else continute_create) c')) [
                          | inl (d, went) ↦
                              let same =
                                bare_event-config lib
                                  (if state.created then update else continute_create) c' d went in
                              rw (free, update_stored, done, went)
                                (AllSetUp-put_back d (put_back c' m.clusters) kept
                                  (subst IsSetUp (sym same) new))
                          | inr (inl stays) ↦ rw (free, update_stored, done, stays) kept
                          | inr (inr panics) ↦ rw (free, update_stored, done, panics) kept
                        ]
                ]
          ]

      update_cluster-AllSetUp :
          (begins : Bool) (f : Faults) (api : ApiCluster) (m : Zke ZkeConfig FullState)
          → AllSetUp m.clusters
          → AllSetUp
              (update_cluster
                (cluster_hooks parsers is_storage_node text)
                lib
                begins
                f
                api
                m).1.clusters
      unfolding update_cluster
      update_cluster-AllSetUp begins f api m h = elim (Option-cases (find api.name m.clusters)) [
        | inl absent ↦ rw (absent, update_cluster) h
        | inr (c, there) ↦
            let checked =
              validate_config_for_update parsers is_storage_node c.connected
                (to_sc_cluster c.config) api in
            elim (Option-cases (message text checked)) [
              | inr (e, bad) ↦ rw (there, update_cluster, bad) h
              | inl good ↦ elim (Result-cases (get_cluster begins api.name m.db)) [
                | inl (e, failed) ↦ rw (there, update_cluster, good, failed) h
                | inr (state, read) ↦
                    rw (there, update_cluster, good, read)
                      (update_stored-AllSetUp f api c state m h (
                        validate_config_for_update-IsConfig parsers is_storage_node c.connected
                          (to_sc_cluster c.config) api (message-none text checked good)))
              ]
            ]
      ]

      set_up-AllSetUp :
          (s : Setup parsers is_storage_node text FullState) (m : Zke ZkeConfig FullState)
          → AllSetUp m.clusters
          → AllSetUp (set_up parsers is_storage_node text lib s m).clusters
      unfolding set_up
      set_up-AllSetUp (creates f now version empty api) m h =
          create-AllSetUp f now version empty api m h
      set_up-AllSetUp (updates begins f api) m h = update_cluster-AllSetUp begins f api m h

      -- Whatever clusters are created and updated, and whatever these requests and the database answer,
      -- the engine's nodes of every cluster of the manager are those of a configuration that the
      -- validation accepts, where they were so before.
      pub set_up_all-AllSetUp :
          (ss : List (Setup parsers is_storage_node text FullState)) (m : Zke ZkeConfig FullState)
          → AllSetUp m.clusters
          → AllSetUp (set_up_all parsers is_storage_node text lib ss m).clusters
      unfolding set_up_all
      set_up_all-AllSetUp [] m h = h
      set_up_all-AllSetUp (s ∷ ss) m h =
          set_up_all-AllSetUp ss (set_up parsers is_storage_node text lib s m)
            (set_up-AllSetUp s m h)
