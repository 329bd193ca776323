-- ===== src/Zke/Cluster/Outcome.antt =====
-- How a goroutine ends: the status, the flag, the table and what is published, on every branch.
use gao_cloud.Prelude.{
  ◌≡◌, ◌∙◌, refl, ap, Bool, true, false, ◌||◌, none, some, String, arith, if◌then◌else◌, lookup,
}
use gao_cloud.Kvzoo.{Faults}
use gao_cloud.Zke.Fsm.{
  Status, EventName, FsmLib, cluster_events, running, creating, create_failed, updating,
  create_succeed, create_failed_event, create_canceled, update_completed, update_canceled,
}
use gao_cloud.Zke.Fsm.Graph.{IsFsm, declared}
use gao_cloud.Zke.Store.{ClusterState, Cluster, Zke}
use gao_cloud.Zke.Store.Laws.{fine, saved-lookup}
use gao_cloud.Zke.Cluster.{Run, panicked, finished, event, callback, create_finish, update_finish}

-- Only a run without an error, of a creation that nobody has canceled, is a success.
abbrev pub succeeds : {FullState : Type 0} → Bool → Run FullState → Bool
succeeds false (finished full none none) = true
succeeds _ _ = false

-- The state that the end of a creation leaves in the table.
abbrev pub stored_state :
    {Config FullState : Type 0}
    → Bool
    → Run FullState
    → ClusterState Config FullState
    → ClusterState Config FullState
stored_state canceled (panicked message) s = s
stored_state canceled (finished full error cache_error) s = record s {
  full_state = full;
  created = s.created || succeeds canceled (finished full error cache_error);
}

module _ {Config FullState : Type 0} (lib : FsmLib) (law : IsFsm lib) where
  -- An event that the table declares moves the cluster and runs the callback.
  pub event-along :
      (f : Faults) (s : ClusterState Config FullState) (c : Cluster Config)
      (m : Zke Config FullState) (e : EventName) (message : String) {st d : Status}
      → c.status ≡ st
      → declared cluster_events st e ≡ some d
      → event lib f e s message (c, m) ≡ callback f e s message (record c { status = d }, m)
  unfolding event
  event-along f s c m e message at edge =
      rw
        (
          law.fire_lem cluster_events c.status e ∙ ap (λ x. declared cluster_events x e) at ∙ edge,
          event,
        )
        refl

  -- The end of a creation, branch by branch.
  module _ (f : Faults) (s : ClusterState Config FullState) (c : Cluster Config)
      (m : Zke Config FullState) (busy : c.status ≡ creating) where
    fires :
        (e : EventName) → lib.fire cluster_events c.status e ≡ declared cluster_events creating e
    fires e = law.fire_lem cluster_events c.status e ∙ ap (λ x. declared cluster_events x e) busy

    create_finish-status :
        (run : Run FullState)
        → (create_finish lib f run s (c, m)).0.status
          ≡ (if succeeds c.is_canceled run then running else create_failed)
    unfolding create_finish event callback
    create_finish-status run =
        ground (arith, fires create_failed_event, fires create_canceled, fires create_succeed)

    create_finish-stored :
        (run : Run FullState)
        → s.created ≡ false
        → fine f ≡ true
        → lookup c.name (create_finish lib f run s (c, m)).1.db
          ≡ some (stored_state c.is_canceled run s)
    unfolding create_finish event callback
    create_finish-stored (panicked message) new whole =
        ground (arith, fires create_failed_event, saved-lookup f c.name s m.db)
    create_finish-stored (finished full error cache_error) new whole = ground (
      arith,
      fires create_failed_event,
      fires create_canceled,
      fires create_succeed,
      saved-lookup f c.name (record s { full_state = full }) m.db,
      saved-lookup f c.name (record s { full_state = full; created = true }) m.db,
    )

    -- The goroutine that creates a cluster ends it in `running` exactly where the run had no error
    -- and was not canceled, else in `create_failed`; the table then holds the state of the run,
    -- marked as created exactly in the first case. The machine is one that goes by its table, the
    -- cluster is in `creating`, its state is not yet marked as created, and the table takes the
    -- write.
    pub create_finish_lem :
        (run : Run FullState)
        → s.created ≡ false
        → fine f ≡ true
        → ((create_finish lib f run s (c, m)).0.status
            ≡ (if succeeds c.is_canceled run then running else create_failed))
          × (lookup c.name (create_finish lib f run s (c, m)).1.db
              ≡ some (stored_state c.is_canceled run s))
    create_finish_lem run new whole = (create_finish-status run, create_finish-stored run new whole)

    -- A panic of `Create` leaves the mark of a cancellation on the cluster, which every other end
    -- takes away.
    pub is_canceled-create_finish :
        (run : Run FullState)
        → (create_finish lib f run s (c, m)).0.is_canceled
          ≡ elim run [ panicked message ↦ c.is_canceled | finished full error cache_error ↦ false ]
    unfolding create_finish event callback
    is_canceled-create_finish (panicked message) = ground (arith, fires create_failed_event)
    is_canceled-create_finish (finished full error cache_error) =
        ground (arith, fires create_failed_event, fires create_canceled, fires create_succeed)

    -- A goroutine that goes on with a failed creation and panics changes nothing, and so leaves the
    -- cluster in `creating`: the event that it sends is for an update, and is refused. The machine
    -- goes by its table.
    pub update_finish-panicked :
        (message : String) → update_finish lib f (panicked message) s (c, m) ≡ (c, m)
    unfolding update_finish event
    update_finish-panicked message = ground (arith, fires update_completed)

  -- The end of an update of a created cluster.
  module _ (f : Faults) (s : ClusterState Config FullState) (c : Cluster Config)
      (m : Zke Config FullState) (busy : c.status ≡ updating) where
    fires_updating :
        (e : EventName) → lib.fire cluster_events c.status e ≡ declared cluster_events updating e
    fires_updating e =
        law.fire_lem cluster_events c.status e ∙ ap (λ x. declared cluster_events x e) busy

    -- Whatever the run was, the goroutine that updates a created cluster ends it in `running`, and
    -- the table holds the state of the run, still marked as created, with the engine's state of a
    -- run that did not panic. The machine goes by its table, the cluster is in `updating`, and the
    -- table takes the write.
    update_finish_lem :
        (run : Run FullState)
        → s.created ≡ true
        → fine f ≡ true
        → ((update_finish lib f run s (c, m)).0.status ≡ running)
          × (lookup c.name (update_finish lib f run s (c, m)).1.db
              ≡ some (stored_state c.is_canceled run s))
    unfolding update_finish event callback
    update_finish_lem (panicked message) new whole = (
      ground (arith, fires_updating update_completed),
      ground (arith, fires_updating update_completed, saved-lookup f c.name s m.db),
    )
    update_finish_lem (finished full error cache_error) new whole = (
      ground (arith, fires_updating update_completed, fires_updating update_canceled),
      ground (
        arith,
        fires_updating update_completed,
        fires_updating update_canceled,
        saved-lookup f c.name (record s { full_state = full }) m.db,
      ),
    )
