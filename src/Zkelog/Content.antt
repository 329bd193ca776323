-- ===== src/Zkelog/Content.antt =====
-- What a log holds and sends, and what the manager's operations do to the logs of all clusters.
use gao_cloud.Prelude.{
  ℕ, ◌<◌, ◌≡◌, ◌⊎◌, refl, String, true, none, some, List, [], ◌∷◌, arith, length, ok, err, ◌==◌,
  if◌then◌else◌, lookup, remove, lookup-insert, lookup-remove, Option-cases, inl, inr, is_some,
}
use gao_cloud.Window.{u64}
use gao_cloud.Window.Numbered.{IsWindow}
use gao_cloud.Window.History.{newest, add_all, publish-from_start}
use gao_cloud.Zkelog.{
  LogWatcher, LogManager, no_exist, max_log_size, new_log_watcher, receive, add, publish_log,
  first_seen, add_or_update, delete, get,
}

receive-eq-add_all : (lw : LogWatcher) (lines : List String) → receive lw lines ≡ add_all lw lines
unfolding receive add add_all
receive-eq-add_all lw [] = refl
receive-eq-add_all lw (line ∷ lines) = receive-eq-add_all (add lw line) lines

new-IsWindow : IsWindow 1 new_log_watcher
unfolding new_log_watcher
new-IsWindow = record { numbered = tt; ends = omega arith; bounded = omega arith }

-- A listener that is opened when a log has received fewer than 2^64 lines is sent exactly the last
-- 100 of them, in order, and its loop comes to wait, given more fuel than there were lines.
pub publish_log-receive :
    (fuel : ℕ) (lines : List String)
    → length lines < u64
    → length lines < fuel
    → (last : ℕ) × (publish_log fuel first_seen (receive new_log_watcher lines)
        ≡ some (last, newest max_log_size lines))
unfolding publish_log new_log_watcher
publish_log-receive fuel lines p q =
    let (last, e) =
      publish-from_start fuel 24 0 new_log_watcher lines new-IsWindow refl (omega arith) q in
    (last, rw (receive-eq-add_all new_log_watcher lines) e)

-- `AddOrUpdate` gives a cluster an empty log in place of any that it had, and touches no other.
pub get-add_or_update :
    (lm : LogManager) (name other : String)
    → get (add_or_update lm name) other
      ≡ (if name == other then some new_log_watcher else get lm other)
unfolding get add_or_update
get-add_or_update lm name other = lookup-insert name other new_log_watcher lm.watchers

-- `delete` fails where the cluster has no log, with an error that names it; else it succeeds, that
-- log is gone, and the log of any other name is what it was.
pub get-delete :
    (lm : LogManager) (name other : String)
    → ((get lm name ≡ none) × (delete lm name ≡ err (no_exist name)))
      ⊎ ((lm' : LogManager) × (is_some (get lm name) ≡ true)
          × (delete lm name ≡ ok lm')
          × (get lm' other ≡ (if name == other then none else get lm other)))
unfolding get delete
get-delete lm name other = elim (Option-cases (lookup name lm.watchers)) [
  | inl missing ↦ inl (missing, rw missing refl)
  | inr (lw, found) ↦ inr (
    record { watchers = remove name lm.watchers },
    rw found refl,
    rw found refl,
    lookup-remove name other lm.watchers,
  )
]
