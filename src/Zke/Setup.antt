-- ===== src/Zke/Setup.antt =====
-- pkg/zke/manager.go with the validation and the configuration that it calls: the manager's `Hooks` are
-- those of Zke/Validation and Zke/Config.
pub mod Accepted
mod Examples
use gao_cloud.Prelude.{ℕ, Bool, Option, none, some, String, List, [], ◌∷◌, Result, ok, err}
use gao_cloud.Kvzoo.{Faults}
use gao_cloud.Zke.Fsm.{FsmLib}
use gao_cloud.Zke.Store.{Cluster, Zke}
use gao_cloud.Zke.Validation.{ApiCluster, ConfigError, Parsers, validate_config_for_create}
use gao_cloud.Zke.Validation.Change.{validate_config_for_update}
use gao_cloud.Zke.Config.{ZkeConfig, gen_zke_config, gen_zke_config_for_update, to_sc_cluster}
use gao_cloud.Zke.Manager.{Hooks, create, update_cluster}

-- The error's text, if there is an error.
abbrev pub message : (ConfigError → String) → Result ConfigError (Unit {0}) → Option String
message text (ok u) = none
message text (err e) = some (text e)

module _ (parsers : Parsers) (is_storage_node : String → Option Bool)
    (text : ConfigError → String) where
  abbrev pub cluster_hooks : Hooks ApiCluster ZkeConfig
  cluster_hooks = record {
    name_of = λ api. api.name;
    validate_for_create = λ api. message text (validate_config_for_create parsers api);
    validate_for_update = λ c api. message text (
        validate_config_for_update parsers is_storage_node c.connected (to_sc_cluster c.config)
          api);
    gen_config = gen_zke_config;
    gen_config_for_update = gen_zke_config_for_update;
  }

  -- The two requests that give a cluster its configuration.
  pub data Setup (FullState : Type 0) : Type 0 where
    creates : Faults → ℕ → String → FullState → ApiCluster → Setup FullState
    updates : Bool → Faults → ApiCluster → Setup FullState

  module _ {FullState : Type 0} (lib : FsmLib) where
    unfoldable pub set_up : Setup FullState → Zke ZkeConfig FullState → Zke ZkeConfig FullState
    unfolding create update_cluster
    set_up (creates f now version empty api) m = (create cluster_hooks f now version empty api m).1
    set_up (updates begins f api) m = (update_cluster cluster_hooks lib begins f api m).1

    unfoldable pub set_up_all :
        List (Setup FullState) → Zke ZkeConfig FullState → Zke ZkeConfig FullState
    set_up_all [] m = m
    set_up_all (s ∷ ss) m = set_up_all ss (set_up s m)
