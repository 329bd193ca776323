-- ===== src/Zke/Cluster.antt =====
-- pkg/zke/cluster.go and the callbacks of pkg/zke/fsm.go: what an event does to a cluster and to
-- the manager's state, and how a goroutine that creates, updates or destroys a cluster ends. The
-- engine's run (`upZKECluster`, `removeZKECluster`) and `setCache` are the environment's: their
-- results are arguments. Each function takes the cluster that the goroutine holds, and the manager's
-- state, and gives both back; the manager writes the cluster back (Zke/Manager.antt).
pub mod Outcome
pub mod Cancel
use gao_cloud.Prelude.{
  Bool, true, false, not, Option, none, some, String, ◌==◌, List, [], ◌∷◌, Result, ok, err, or_old,
  if◌then◌else◌,
}
use gao_cloud.Kvzoo.{Faults}
use gao_cloud.Zkelog
use gao_cloud.Zke.Fsm.{
  Status, EventName, FsmLib, cluster_events, has_callback, running, unreachable, creating,
  create_failed, updating, deleting, deleted, create_succeed, create_failed_event, create_canceled,
  continute_create, update, update_completed, update_canceled, get_info_failed, get_info_succeed,
  delete, delete_completed,
}
use gao_cloud.Zke.Store
use gao_cloud.Zke.Store.{
  ClusterState, Cluster, Zke, Published, resource_create, alarm, save, drop, publish,
}

abbrev pub is_ready_status : Status → Bool
is_ready_status running = true
is_ready_status unreachable = true
is_ready_status _ = false

abbrev pub is_busy_status : Status → Bool
is_busy_status creating = true
is_busy_status updating = true
is_busy_status _ = false

-- How a run of the engine ended: by a panic, or with its state, its error and the error of the
-- `setCache` that may follow.
pub data Run (FullState : Type 0) : Type 0 where
  panicked : String → Run FullState
  finished : FullState → Option String → Option String → Run FullState

pub data CancelError : Type 0 where
  already_canceling : CancelError
  wrong_status : Status → CancelError

-- What `Event` with no arguments does: a callback would read an argument that is not there.
pub data Bare (C : Type 0) : Type 0 where
  moved : C → Bare C
  refused : Bare C
  argument_panic : Bare C

module _ {Config : Type 0} where
  unfoldable pub is_ready : Cluster Config → Bool
  is_ready c = is_ready_status c.status

  -- `ZKEManager.Remove`: the first cluster of the name.
  unfoldable pub remove_first : String → List (Cluster Config) → List (Cluster Config)
  remove_first name [] = []
  remove_first name (c ∷ cs) = if c.name == name then cs else c ∷ remove_first name cs

  unfoldable pub cancel : Cluster Config → Result CancelError (Cluster Config)
  cancel c =
      if is_busy_status c.status
      then (if c.is_canceled then err already_canceling else ok (record c { is_canceled = true }))
      else err (wrong_status c.status)

  module _ (lib : FsmLib) where
    -- `Cluster.Event`: an event with no arguments.
    unfoldable pub bare_event : EventName → Cluster Config → Bare (Cluster Config)
    bare_event e c = elim (lib.fire cluster_events c.status e) [
      | none ↦ refused
      | some dst ↦ if has_callback e then argument_panic else moved (record c { status = dst })
    ]

    unfoldable pub can : EventName → Cluster Config → Bool
    can e c = lib.can cluster_events c.status e

    -- One round of `connectionCheckLoop`: whether the version of the server could be read.
    unfoldable pub connection_check : Bool → Cluster Config → Bare (Cluster Config)
    unfolding bare_event
    connection_check true c = bare_event get_info_succeed c
    connection_check false c = bare_event get_info_failed c

module _ {Config FullState : Type 0} where
  -- A write to the table whose error is only logged.
  unfoldable pub save_logged :
      Faults → String → ClusterState Config FullState → Zke Config FullState → Zke Config FullState
  save_logged f name s m = record m { db = or_old (save f name s m.db) m.db }

  unfoldable pub drop_logged : Faults → String → Zke Config FullState → Zke Config FullState
  drop_logged f name m = record m { db = or_old (drop f name m.db) m.db }

  unfoldable pub close_log : String → Zke Config FullState → Zke Config FullState
  close_log name m = record m { logs = or_old (Zkelog.delete m.logs name) m.logs }

  unfoldable pub alarm_if : String → String → String → Zke Config FullState → Zke Config FullState
  unfolding publish
  alarm_if name reason message m =
      if message == "" then m else publish (alarm name reason message) m

  -- The end of a deletion up to the write of the table, which comes without the manager's lock.
  unfoldable pub remove_deleted :
      String → Cluster Config → Zke Config FullState → Zke Config FullState
  unfolding alarm_if publish
  remove_deleted message c m =
      let m' = alarm_if c.name "deleteFailed" message m in
      record m' { clusters = remove_first c.name m'.clusters }

  -- The callback of an accepted event, which runs when the machine is in its new state.
  unfoldable pub callback :
      Faults
      → EventName
      → ClusterState Config FullState
      → String
      → Cluster Config × Zke Config FullState
      → Cluster Config × Zke Config FullState
  unfolding save_logged drop_logged close_log alarm_if publish remove_deleted
  callback f create_succeed s message (c, m) =
      (c, publish (resource_create c.name) (save_logged f c.name s (close_log c.name m)))
  callback f create_failed_event s message (c, m) =
      (c, save_logged f c.name s (alarm_if c.name "createFailed" message m))
  callback f create_canceled s message (c, m) =
      (record c { is_canceled = false }, save_logged f c.name s m)
  callback f update_completed s message (c, m) =
      (c, save_logged f c.name s (alarm_if c.name "updateFailed" message (close_log c.name m)))
  callback f update_canceled s message (c, m) =
      (record c { is_canceled = false }, save_logged f c.name s m)
  callback f delete_completed s message (c, m) =
      (c, drop_logged f c.name (remove_deleted message c m))
  callback f _ s message w = w

  module _ (lib : FsmLib) where
    -- `Cluster.event`: an event with the callback's arguments; a refusal is only logged.
    unfoldable pub event :
        Faults
        → EventName
        → ClusterState Config FullState
        → String
        → Cluster Config × Zke Config FullState
        → Cluster Config × Zke Config FullState
    event f e s message (c, m) = elim (lib.fire cluster_events c.status e) [
      | none ↦ (c, m)
      | some dst ↦ callback f e s message (record c { status = dst }, m)
    ]

    -- `Create`, from the end of the engine's run.
    unfoldable pub create_finish :
        Faults
        → Run FullState
        → ClusterState Config FullState
        → Cluster Config × Zke Config FullState
        → Cluster Config × Zke Config FullState
    create_finish f (panicked message) s w = event f create_failed_event s message w
    create_finish f (finished full error cache_error) s (c, m) =
        let s' = record s { full_state = full } in
        if c.is_canceled then event f create_canceled s' "" (c, m) else elim error [
          | some message ↦ event f create_failed_event s' message (c, m)
          | none ↦ elim cache_error [
            | some message ↦
                event f create_failed_event s' message (record c { connected = true }, m)
            | none ↦
                event f create_succeed (record s' { created = true }) ""
                  (record c { connected = true }, m)
          ]
        ]

    -- `Update`, from the end of the engine's run. The event of a failed `setCache` is not followed by
    -- a return: `createSucceed` is sent all the same.
    unfoldable pub update_finish :
        Faults
        → Run FullState
        → ClusterState Config FullState
        → Cluster Config × Zke Config FullState
        → Cluster Config × Zke Config FullState
    update_finish f (panicked message) s w = event f update_completed s message w
    update_finish f (finished full error cache_error) s (c, m) =
        let s' = record s { full_state = full } in
        let s'' = record s' { created = true } in
        if c.is_canceled
        then event f (if s.created then update_canceled else create_canceled) s' "" (c, m)
        else elim error [
          | some message ↦
              event f (if s.created then update_completed else create_failed_event) s' message
                (c, m)
          | none ↦ if s.created then event f update_completed s' "" (c, m) else elim cache_error [
            | some message ↦
                event f create_succeed s'' ""
                  (event f create_failed_event s' message (record c { connected = true }, m))
            | none ↦ event f create_succeed s'' "" (record c { connected = true }, m)
          ]
        ]

    -- `Destroy`, from the end of the engine's run; a panic is reported as its error is. The state
    -- that the event carries is the zero value, and its callback does not read it.
    unfoldable pub destroy_finish :
        Faults
        → Option String
        → ClusterState Config FullState
        → Cluster Config × Zke Config FullState
        → Cluster Config × Zke Config FullState
    destroy_finish f (some message) zero_state w = event f delete_completed zero_state message w
    destroy_finish f none zero_state w = event f delete_completed zero_state "" w

  -- `Create` and `Update` open a log before they start the engine.
  unfoldable pub open_log : String → Zke Config FullState → Zke Config FullState
  open_log name m = record m { logs = Zkelog.add_or_update m.logs name }
