-- ===== src/K8seventwatcher/Manager.antt =====
-- pkg/k8seventwatcher/watchermanager.go: the watchers of all clusters, which follow the events of
-- the bus. Whether a watcher can be set up over a cluster's cache is the environment's choice.
use gao_cloud.Prelude.{
  ◌≡◌, refl, Bool, false, ◌||◌, none, some, String, ◌==◌, eq_iff, List, [], ◌∷◌, arith,
  if◌then◌else◌, is_some, Map, lookup, insert, remove, lookup-insert, lookup-remove,
}
use gao_cloud.Window.{Watcher}
use gao_cloud.K8seventwatcher.{new_event_watcher, max_event_count}

-- The Boolean is whether `NewEventWatcher` succeeds.
pub data BusEvent : Type 0 where
  resource_create : String → Bool → BusEvent
  resource_delete : String → BusEvent

-- Whether a cluster is watched, read from the events alone.
abbrev pub watched : String → Bool → List BusEvent → Bool
watched name now [] = now
watched name now (resource_create other sets_up ∷ es) =
    watched name (if other == name then now || sets_up else now) es
watched name now (resource_delete other ∷ es) =
    watched name (if other == name then false else now) es

module _ {K8sEvent : Type 0} where
  unfoldable pub on_bus_event : Map (Watcher K8sEvent) → BusEvent → Map (Watcher K8sEvent)
  on_bus_event ws (resource_create name sets_up) = elim (lookup name ws) [
    | some w ↦ ws
    | none ↦ if sets_up then insert name (new_event_watcher max_event_count) ws else ws
  ]
  on_bus_event ws (resource_delete name) = elim (lookup name ws) [
    | some w ↦ remove name ws
    | none ↦ ws
  ]

  unfoldable pub event_loop : Map (Watcher K8sEvent) → List BusEvent → Map (Watcher K8sEvent)
  event_loop ws [] = ws
  event_loop ws (e ∷ es) = event_loop (on_bus_event ws e) es

  created-watched :
      (name other : String) (sets_up : Bool) (ws : Map (Watcher K8sEvent))
      → is_some (lookup name (on_bus_event ws (resource_create other sets_up)))
        ≡ (if other == name then is_some (lookup name ws) || sets_up else is_some (lookup name ws))
  unfolding on_bus_event
  created-watched name other sets_up ws =
      let put = lookup-insert other name (new_event_watcher max_event_count) ws in
      ground (arith, put, eq_iff other name)

  deleted-watched :
      (name other : String) (ws : Map (Watcher K8sEvent))
      → is_some (lookup name (on_bus_event ws (resource_delete other)))
        ≡ (if other == name then false else is_some (lookup name ws))
  unfolding on_bus_event
  deleted-watched name other ws = ground (arith, lookup-remove other name ws, eq_iff other name)

  -- After any events of the bus a cluster has a watcher exactly where the events, read one by one,
  -- say so: a creation gives it one if it can be set up and keeps one that is there, a deletion takes
  -- it away, and the events of other clusters do not matter.
  pub event_loop-watched :
      (name : String) (es : List BusEvent) (ws : Map (Watcher K8sEvent))
      → is_some (lookup name (event_loop ws es)) ≡ watched name (is_some (lookup name ws)) es
  unfolding event_loop
  event_loop-watched name [] ws = refl
  event_loop-watched name (resource_create other sets_up ∷ es) ws =
      rw (← created-watched name other sets_up ws)
        (event_loop-watched name es (on_bus_event ws (resource_create other sets_up)))
  event_loop-watched name (resource_delete other ∷ es) ws =
      rw (← deleted-watched name other ws)
        (event_loop-watched name es (on_bus_event ws (resource_delete other)))
