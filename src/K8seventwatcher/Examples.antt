-- ===== src/K8seventwatcher/Examples.antt =====
-- A watcher with room for four events.
use gao_cloud.Prelude.{ℕ, ◌≡◌, some, none, List, [], ◌∷◌, arith}
use gao_cloud.K8seventwatcher.{Notice, new_event_watcher, run, publish_event, first_seen}
use gao_cloud.K8seventwatcher.History.{publish_event-run}

abbrev five : List (Notice ℕ)
five =
    Notice.create (some 10)
    ∷ Notice.update (some 20)
    ∷ Notice.delete (some 99)
    ∷ Notice.create none
    ∷ Notice.update (some 30)
    ∷ Notice.create (some 40)
    ∷ Notice.create (some 50)
    ∷ []

publish_event-run_example :
    (last : ℕ) × (publish_event 6 first_seen (run (new_event_watcher 4) five)
      ≡ some (last, 20 ∷ 30 ∷ 40 ∷ 50 ∷ []))
publish_event-run_example = publish_event-run 6 4 five (omega arith) (omega arith) (omega arith)
