-- ===== src/Zke/Fsm.antt =====
-- pkg/zke/fsm.go: the transitions of a cluster, and the call of the state machine library
-- (cement/fsm, a copy of looplab/fsm), which is a parameter.
pub mod Graph
use gao_cloud.Prelude.{
  ◌≡◌, Bool, true, false, Option, none, some, List, [], ◌∷◌, if◌then◌else◌, any, is_some,
}

-- pkg/types/cluster.go
pub data Status : Type 0 where
  running unreachable creating create_failed updating deleting deleted : Status

pub data EventName : Type 0 where
  create_succeed create_failed_event create_canceled continute_create update update_completed :
      EventName
  update_canceled get_info_failed get_info_succeed delete delete_completed : EventName

pub record EventDesc : Type 0 where
  pub name : EventName
  pub src : List Status
  pub dst : Status

abbrev pub cluster_events : List EventDesc
cluster_events =
    record { name = create_succeed; src = creating ∷ []; dst = running }
    ∷ record { name = create_failed_event; src = creating ∷ []; dst = create_failed }
    ∷ record { name = create_canceled; src = creating ∷ []; dst = create_failed }
    ∷ record { name = continute_create; src = create_failed ∷ []; dst = creating }
    ∷ record { name = update; src = running ∷ []; dst = updating }
    ∷ record { name = update_completed; src = updating ∷ []; dst = running }
    ∷ record { name = update_canceled; src = updating ∷ []; dst = running }
    ∷ record { name = get_info_failed; src = running ∷ []; dst = unreachable }
    ∷ record { name = get_info_succeed; src = unreachable ∷ []; dst = running }
    ∷ record { name = delete; src = running ∷ create_failed ∷ unreachable ∷ []; dst = deleting }
    ∷ record { name = delete_completed; src = deleting ∷ []; dst = deleted }
    ∷ []

-- The events for which the machine of a cluster has a callback, which reads the event's arguments.
abbrev pub has_callback : EventName → Bool
has_callback create_succeed = true
has_callback create_failed_event = true
has_callback create_canceled = true
has_callback update_completed = true
has_callback update_canceled = true
has_callback delete_completed = true
has_callback _ = false

-- The library: `fire` is the new state of `Event`, or `none` where it returns an error and the
-- machine stays; `can` is `Can`. Both go by the table that `NewFSM` is given.
pub record FsmLib : Type 0 where
  pub fire : List EventDesc → Status → EventName → Option Status
  pub can : List EventDesc → Status → EventName → Bool
