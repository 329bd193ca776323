-- ===== src/Zke/Fsm/Graph.antt =====
-- The documented behaviour of the library `cement/fsm`. A table that declares a transition from a state
-- to itself, which the library answers with an error, does not occur: fsm.go has none.
use gao_cloud.Prelude.{
  ◌≡◌, Bool, true, false, Option, none, some, List, [], ◌∷◌, if◌then◌else◌, any, is_some,
}
use gao_cloud.Zke.Fsm.{
  Status, EventName, EventDesc, FsmLib, running, unreachable, creating, create_failed, updating,
  deleting, deleted, create_succeed, create_failed_event, create_canceled, continute_create, update,
  update_completed, update_canceled, get_info_failed, get_info_succeed, delete, delete_completed,
}

abbrev pub same_status : Status → Status → Bool
same_status running running = true
same_status unreachable unreachable = true
same_status creating creating = true
same_status create_failed create_failed = true
same_status updating updating = true
same_status deleting deleting = true
same_status deleted deleted = true
same_status _ _ = false

abbrev pub same_event : EventName → EventName → Bool
same_event create_succeed create_succeed = true
same_event create_failed_event create_failed_event = true
same_event create_canceled create_canceled = true
same_event continute_create continute_create = true
same_event update update = true
same_event update_completed update_completed = true
same_event update_canceled update_canceled = true
same_event get_info_failed get_info_failed = true
same_event get_info_succeed get_info_succeed = true
same_event delete delete = true
same_event delete_completed delete_completed = true
same_event _ _ = false

abbrev or_else : Option Status → Option Status → Option Status
or_else (some s) o = some s
or_else none o = o

-- The transitions that a table declares; of two entries for one state the later counts.
abbrev pub declared : List EventDesc → Status → EventName → Option Status
declared [] s e = none
declared (d ∷ ds) s e =
    or_else (declared ds s e) (
      if same_event d.name e
      then (if any (same_status s) d.src then some d.dst else none)
      else none)

-- What the library promises.
pub record IsFsm (lib : FsmLib) : Type 0 where
  pub fire_lem : (t : List EventDesc) (s : Status) (e : EventName) → lib.fire t s e ≡ declared t s e
  pub can_lem :
      (t : List EventDesc) (s : Status) (e : EventName) → lib.can t s e ≡ is_some (declared t s e)
