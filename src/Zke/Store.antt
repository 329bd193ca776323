-- ===== src/Zke/Store.antt =====
-- pkg/zke/db.go: the state of a cluster in the table, and the state that the parts of pkg/zke share:
-- the manager's clusters, its table and its logs, and what it publishes. A configuration and the
-- state that the engine keeps are parameters: nothing here looks into them.
pub mod Laws
use gao_cloud.Prelude.{
  ℕ, Bool, true, false, Option, none, some, String, List, [], ◌∷◌, ◌++◌, Result, ok, err, or_old,
  Map, lookup, guard, ◌>>=◌, ◌>>◌, or_err,
}
use gao_cloud.Kvzoo
use gao_cloud.Kvzoo.{KvError, Faults, transact, begin_failed}
use gao_cloud.Zkelog.{LogManager}
use gao_cloud.Zke.Fsm.{Status}

pub record ClusterState (Config FullState : Type 0) : Type 0 where
  pub full_state : FullState
  pub config : Config
  pub create_time : ℕ
  pub delete_time : ℕ
  pub created : Bool
  pub sc_version : String

-- pkg/zke/cluster.go: a cluster in memory. `connected` stands for the client, the cache and the
-- channel that `Init` and `setCache` set together.
pub record Cluster (Config : Type 0) : Type 0 where
  pub name : String
  pub status : Status
  pub is_canceled : Bool
  pub config : Config
  pub create_time : ℕ
  pub delete_time : ℕ
  pub sc_version : String
  pub connected : Bool

-- The events on the bus and the alarms, in the order of their publication.
pub data Published : Type 0 where
  resource_create resource_delete : String → Published
  alarm : String → String → String → Published

pub record Zke (Config FullState : Type 0) : Type 0 where
  pub clusters : List (Cluster Config)
  pub db : Map (ClusterState Config FullState)
  pub logs : LogManager
  pub published : List Published

abbrev pub Table : Type 0 → Type 0 → Type 0
Table Config FullState = Map (ClusterState Config FullState)

module _ {Config FullState : Type 0} where
  unfoldable pub get_cluster :
      Bool → String → Table Config FullState → Result KvError (ClusterState Config FullState)
  unfolding Kvzoo.get
  get_cluster begins id t = do guard begins begin_failed; Kvzoo.get id t

  unfoldable pub save :
      Faults
      → String
      → ClusterState Config FullState
      → Table Config FullState
      → Result KvError (Table Config FullState)
  unfolding Kvzoo.add Kvzoo.update
  save f id s =
      transact f
        (λ t. elim (lookup id t) [ none ↦ Kvzoo.add f id s t | some _ ↦ Kvzoo.update f id s t ])

  unfoldable pub drop :
      Faults → String → Table Config FullState → Result KvError (Table Config FullState)
  unfolding Kvzoo.delete
  drop f id = transact f (Kvzoo.delete f id)

  unfoldable pub publish : Published → Zke Config FullState → Zke Config FullState
  publish p m = record m { published = m.published ++ p ∷ [] }
