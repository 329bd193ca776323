-- ===== src/Zkelog.antt =====
-- pkg/zke/zkelog/log_manager.go: the logs of the clusters that are being set up, one bounded list
-- of numbered lines for each, over the shared list of numbered items. The channel that feeds a
-- watcher is the list of the lines that were sent on it.
pub mod Content
mod Examples
use gao_cloud.Prelude.{
  ℕ, ◌/◌, String, Bool, Option, none, some, List, [], ◌∷◌, Result, ok, err, Map, lookup, insert,
  remove,
}
use gao_cloud.Window
use gao_cloud.Window.{Watcher}

abbrev pub max_log_size : ℕ
max_log_size = 100

abbrev pub LogWatcher : Type 0
LogWatcher = Watcher String

unfoldable pub new_log_watcher : LogWatcher
new_log_watcher = record { last_id = 0; max_size = max_log_size; entries = [] }

unfoldable pub add : LogWatcher → String → LogWatcher
add lw line = Window.add lw line

-- The goroutine of a watcher, for the lines that the channel has brought so far.
unfoldable pub receive : LogWatcher → List String → LogWatcher
receive lw [] = lw
receive lw (line ∷ lines) = receive (add lw line) lines

unfoldable pub get_logs_after_id : LogWatcher → ℕ → ℕ → Option (ℕ × List String)
get_logs_after_id lw id batch = Window.after_id id batch lw

-- The loop that serves a listener, until it waits. `addListener` starts one at 0.
abbrev pub first_seen : ℕ
first_seen = 0

unfoldable pub publish_log : ℕ → ℕ → LogWatcher → Option (ℕ × List String)
publish_log fuel id lw = Window.publish fuel id (max_log_size / 4) lw

pub record LogManager : Type 0 where
  pub watchers : Map LogWatcher

pub data LogError : Type 0 where
  no_exist : String → LogError

unfoldable pub new : LogManager
new = record { watchers = [] }

unfoldable pub add_or_update : LogManager → String → LogManager
add_or_update lm name = record { watchers = insert name new_log_watcher lm.watchers }

delete_watcher : LogManager → String → Option LogWatcher → Result LogError LogManager
delete_watcher lm name none = err (no_exist name)
delete_watcher lm name (some lw) = ok (record { watchers = remove name lm.watchers })

unfoldable pub delete : LogManager → String → Result LogError LogManager
unfolding delete_watcher
delete lm name = delete_watcher lm name (lookup name lm.watchers)

unfoldable pub get : LogManager → String → Option LogWatcher
get lm name = lookup name lm.watchers
