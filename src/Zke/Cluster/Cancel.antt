-- ===== src/Zke/Cluster/Cancel.antt =====
-- A cancellation: what it does to the goroutine that it meets, and what it does when it is late.
use gao_cloud.Prelude.{◌≡◌, true, false, Option, String, arith, ok, err}
use gao_cloud.Kvzoo.{Faults}
use gao_cloud.Zke.Fsm.{
  FsmLib, cluster_events, running, creating, create_failed, updating, create_succeed,
  create_canceled, update_canceled,
}
use gao_cloud.Zke.Fsm.Graph.{IsFsm}
use gao_cloud.Zke.Store.{ClusterState, Cluster, Zke}
use gao_cloud.Zke.Cluster.{
  finished, already_canceling, cancel, event, callback, create_finish, update_finish,
}

module _ {Config FullState : Type 0} (lib : FsmLib) (law : IsFsm lib) (f : Faults)
    (s : ClusterState Config FullState) (c c' : Cluster Config) (m : Zke Config FullState)
    (accepted : cancel c ≡ ok c') where
  -- Where `cancel` accepts a cluster in `creating`, the end of a run without a panic leaves it in
  -- `create_failed`, whatever the run brought, with nothing else changed and free to be canceled
  -- again. The machine goes by its table.
  pub create_finish-cancel :
      (full : FullState) (error cache_error : Option String)
      → c.status ≡ creating
      → (create_finish lib f (finished full error cache_error) s (c', m)).0
        ≡ record c { status = create_failed; is_canceled = false }
  unfolding cancel create_finish event callback
  create_finish-cancel full error cache_error at =
      ground (arith, law.fire_lem cluster_events c.status create_canceled)

  -- Where `cancel` accepts a cluster in `updating` whose state is marked as created, the end of a
  -- run without a panic leaves it in `running`, whatever the run brought, with nothing else changed
  -- and free to be canceled again. The machine goes by its table.
  pub update_finish-cancel :
      (full : FullState) (error cache_error : Option String)
      → c.status ≡ updating
      → s.created ≡ true
      → (update_finish lib f (finished full error cache_error) s (c', m)).0
        ≡ record c { status = running; is_canceled = false }
  unfolding cancel update_finish event callback
  update_finish-cancel full error cache_error at created =
      ground (arith, law.fire_lem cluster_events c.status update_canceled)

  -- Where `cancel` accepts a cluster in `creating` after the goroutine has looked at the mark, and
  -- before its event of a success, the cluster is left in `running` and marked, and a later update
  -- of it cannot be canceled. The machine goes by its table.
  pub cancel-late :
      c.status ≡ creating
      → let (d, m') = event lib f create_succeed s "" (c', m) in
        (d.status ≡ running)
        × (d.is_canceled ≡ true)
        × (cancel (record d { status = updating }) ≡ err already_canceling)
  unfolding cancel event callback
  cancel-late at =
      let fires = law.fire_lem cluster_events c.status create_succeed in
      (ground (arith, fires), ground (arith, fires), ground (arith, fires))
