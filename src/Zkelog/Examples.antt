-- ===== src/Zkelog/Examples.antt =====
-- The logs of two clusters.
use gao_cloud.Prelude.{ℕ, ◌≡◌, some, [], ◌∷◌, arith}
use gao_cloud.Zkelog.{new_log_watcher, receive, publish_log, first_seen}
use gao_cloud.Zkelog.Content.{publish_log-receive}

publish_log-receive_example :
    (last : ℕ) × (publish_log 3 first_seen (receive new_log_watcher ("started" ∷ "done" ∷ []))
      ≡ some (last, "started" ∷ "done" ∷ []))
publish_log-receive_example =
    publish_log-receive 3 ("started" ∷ "done" ∷ []) (omega arith) (omega arith)
