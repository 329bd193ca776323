-- ===== src/K8seventwatcher.antt =====
-- pkg/k8seventwatcher/eventwatcher.go: the watcher of one cluster's events, over the shared list of
-- numbered items. The Kubernetes event is a parameter. `on_create` and `on_update` are what the
-- controller calls, and `none` is an object that is no event.
pub mod History
pub mod Manager
mod Examples
use gao_cloud.Prelude.{ℕ, ◌/◌, Option, none, some, List, [], ◌∷◌}
use gao_cloud.Window
use gao_cloud.Window.{Watcher}

pub data Notice (K8sEvent : Type 0) : Type 0 where
  create update delete generic : Option K8sEvent → Notice K8sEvent

-- `AddListener` starts a listener at 0; its loop serves batches of a quarter of the bound.
abbrev pub first_seen : ℕ
first_seen = 0

-- The bound that the manager of the watchers gives to each.
abbrev pub max_event_count : ℕ
max_event_count = 4096

module _ {K8sEvent : Type 0} where
  unfoldable pub new_event_watcher : ℕ → Watcher K8sEvent
  new_event_watcher size = record { last_id = 1; max_size = size; entries = [] }

  unfoldable pub on_create : Watcher K8sEvent → Option K8sEvent → Watcher K8sEvent
  on_create w none = w
  on_create w (some event) = Window.add w event

  unfoldable pub on_update : Watcher K8sEvent → Option K8sEvent → Watcher K8sEvent
  on_update w none = w
  on_update w (some event) = Window.add w event

  -- The four handlers of the controller; the last two do nothing.
  unfoldable pub handle : Watcher K8sEvent → Notice K8sEvent → Watcher K8sEvent
  unfolding on_create on_update
  handle w (Notice.create object) = on_create w object
  handle w (Notice.update object) = on_update w object
  handle w (Notice.delete object) = w
  handle w (Notice.generic object) = w

  unfoldable pub run : Watcher K8sEvent → List (Notice K8sEvent) → Watcher K8sEvent
  run w [] = w
  run w (n ∷ ns) = run (handle w n) ns

  unfoldable pub publish_event : ℕ → ℕ → Watcher K8sEvent → Option (ℕ × List K8sEvent)
  publish_event fuel id w = Window.publish fuel id (w.max_size / 4) w
