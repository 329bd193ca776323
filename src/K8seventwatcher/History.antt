-- ===== src/K8seventwatcher/History.antt =====
-- The watcher after any notices of the controller: what it holds and what a new listener is sent.
use gao_cloud.Prelude.{
  ℕ, suc, ◌+◌, ◌-◌, ◌/◌, ◌≤◌, ◌<◌, ◌≡◌, ◌∙◌, ap, refl, some, none, List, [], ◌∷◌, arith, length,
}
use gao_cloud.Window.{Watcher, add, u64}
use gao_cloud.Window.Numbered.{IsWindow}
use gao_cloud.Window.Delivery.{contents}
use gao_cloud.Window.History.{
  newest, add_all, max_size-add_all, contents-add_all, publish-from_start,
}
use gao_cloud.K8seventwatcher.{Notice, new_event_watcher, handle, run, publish_event, first_seen}

quarter : (size : ℕ) → 4 ≤ size → size / 4 ≡ suc (size / 4 - 1)
quarter size h = omega arith

module _ {K8sEvent : Type 0} where
  -- The events that the notices bring.
  abbrev pub events_of : List (Notice K8sEvent) → List K8sEvent
  events_of [] = []
  events_of (Notice.create (some e) ∷ ns) = e ∷ events_of ns
  events_of (Notice.update (some e) ∷ ns) = e ∷ events_of ns
  events_of (_ ∷ ns) = events_of ns

  run-eq-add_all :
      (w : Watcher K8sEvent) (ns : List (Notice K8sEvent)) → run w ns ≡ add_all w (events_of ns)
  unfolding run handle add_all
  run-eq-add_all w [] = refl
  run-eq-add_all w (Notice.create (some e) ∷ ns) = run-eq-add_all (add w e) ns
  run-eq-add_all w (Notice.update (some e) ∷ ns) = run-eq-add_all (add w e) ns
  run-eq-add_all w (Notice.create none ∷ ns) = run-eq-add_all w ns
  run-eq-add_all w (Notice.update none ∷ ns) = run-eq-add_all w ns
  run-eq-add_all w (Notice.delete o ∷ ns) = run-eq-add_all w ns
  run-eq-add_all w (Notice.generic o ∷ ns) = run-eq-add_all w ns

  new-IsWindow : (size : ℕ) → IsWindow {A = K8sEvent} 2 (new_event_watcher size)
  unfolding new_event_watcher
  new-IsWindow size = record { numbered = tt; ends = omega arith; bounded = omega arith }

  -- After notices with fewer than 2^64 - 1 events, a new watcher of a bound `size` holds the newest
  -- `size` events that they brought, in order.
  pub contents-run :
      (size : ℕ) (ns : List (Notice K8sEvent))
      → 1 + length (events_of ns) < u64
      → contents (run (new_event_watcher size) ns).entries ≡ newest size (events_of ns)
  unfolding new_event_watcher
  contents-run size ns h =
      ap (λ w. contents w.entries) (run-eq-add_all (new_event_watcher size) ns)
      ∙ contents-add_all 2 (new_event_watcher size) (events_of ns) (new-IsWindow size) h

  -- After notices with fewer than 2^64 - 1 events, a new listener of a watcher with a bound of at
  -- least 4 is sent exactly the newest events that the bound allows, in order, and its loop comes
  -- to wait, given more fuel than there were events.
  pub publish_event-run :
      (fuel size : ℕ) (ns : List (Notice K8sEvent))
      → 4 ≤ size
      → 1 + length (events_of ns) < u64
      → length (events_of ns) < fuel
      → (last : ℕ) × (publish_event fuel first_seen (run (new_event_watcher size) ns)
          ≡ some (last, newest size (events_of ns)))
  unfolding publish_event new_event_watcher
  publish_event-run fuel size ns h p q =
      let w = new_event_watcher {K8sEvent = K8sEvent} size in
      let (last, e) =
        publish-from_start fuel (size / 4 - 1) 1 w (events_of ns) (new-IsWindow size)
          (unfold new_event_watcher in refl) p q in
      let batch : (add_all w (events_of ns)).max_size / 4 ≡ suc (size / 4 - 1) =
        ap (λ m. m / 4) (max_size-add_all w (events_of ns)) ∙ quarter size h in
      (last, rw (run-eq-add_all w ns, batch) e)
