-- ===== src/Zke/Manager/Steps.antt =====
-- The manager as a step relation: the requests, and the ends of the goroutines, in any order. The
-- goroutines run without the manager's lock, and what the engine and the database do is free. The end
-- of a deletion is two steps: `Remove` takes the lock, and the table is written after it is released.
-- The end of a creation or an update is one step.
use gao_cloud.Prelude.{
  ◌≡◌, sym, ℕ, Bool, true, some, String, ◌==◌, List, [], ◌∷◌, any, if◌then◌else◌, arith, inl, inr,
}
use mathlib.Core.Path.{subst}
use gao_cloud.Kvzoo.{Faults}
use gao_cloud.Zke.Fsm.{Status, FsmLib, cluster_events, delete_completed}
use gao_cloud.Zke.Store.{ClusterState, Cluster, Zke}
use gao_cloud.Zke.Cluster.{
  Run, event, callback, create_finish, update_finish, remove_first, open_log, connection_check,
  moved, alarm_if, remove_deleted, drop_logged,
}
use gao_cloud.Zke.Manager.{
  Hooks, find, write, create, update_cluster, delete_cluster, cancel_cluster, new_cluster,
}
use gao_cloud.Zke.Manager.Names.{
  Unique, names-cancel_cluster, names-delete_cluster, names-update_cluster, clusters-create,
  Unique-names, remove_first-Unique, append-Unique, put_back-Unique,
}

-- The goroutine of a cluster writes through its pointer.
abbrev pub wrote :
    {Config FullState : Type 0} → Cluster Config × Zke Config FullState → Zke Config FullState
wrote (c, m) = write c m

-- The manager, and the names of the deletions that have removed their cluster from memory and have
-- still to delete its state from the table.
pub record System (Config FullState : Type 0) : Type 0 where
  pub zke : Zke Config FullState
  pub dropping : List String

abbrev pub outstanding : String → List String → Bool
outstanding name dropping = any (λ n. n == name) dropping

unfoldable pub take_out : String → List String → List String
take_out name [] = []
take_out name (n ∷ ns) = let rest = take_out name ns in if n == name then ns else n ∷ rest

module _ {Config FullState Api : Type 0} (hooks : Hooks Api Config) (lib : FsmLib) where
  pub data Step : System Config FullState → System Config FullState → Type 0 where
    creates :
        (f : Faults) (now : ℕ) (version : String) (empty : FullState) (api : Api)
        (w : System Config FullState)
        → Step w (record w { zke = (create hooks f now version empty api w.zke).1 })
    updates :
        (begins : Bool) (f : Faults) (api : Api) (w : System Config FullState)
        → Step w (record w { zke = (update_cluster hooks lib begins f api w.zke).1 })
    deletes :
        (begins : Bool) (f : Faults) (now : ℕ) (id : String) (w : System Config FullState)
        → Step w (record w { zke = (delete_cluster lib begins f now id w.zke).1 })
    cancels :
        (id : String) (w : System Config FullState)
        → Step w (record w { zke = (cancel_cluster id w.zke).1 })
    starts :
        (id : String) (w : System Config FullState) → Step w (record w { zke = open_log id w.zke })
    create_ends :
        (f : Faults) (run : Run FullState) (s : ClusterState Config FullState) (c : Cluster Config)
        (w : System Config FullState)
        → find c.name w.zke.clusters ≡ some c
        → Step w (record w { zke = wrote (create_finish lib f run s (c, w.zke)) })
    update_ends :
        (f : Faults) (run : Run FullState) (s : ClusterState Config FullState) (c : Cluster Config)
        (w : System Config FullState)
        → find c.name w.zke.clusters ≡ some c
        → Step w (record w { zke = wrote (update_finish lib f run s (c, w.zke)) })
    destroy_removes :
        (message : String) (c : Cluster Config) (dst : Status) (w : System Config FullState)
        → find c.name w.zke.clusters ≡ some c
        → lib.fire cluster_events c.status delete_completed ≡ some dst
        → Step w (record { zke = remove_deleted message c w.zke; dropping = c.name ∷ w.dropping })
    destroy_drops :
        (f : Faults) (name : String) (w : System Config FullState)
        → outstanding name w.dropping ≡ true
        → Step w (record { zke = drop_logged f name w.zke; dropping = take_out name w.dropping })
    checks :
        (reached : Bool) (c c' : Cluster Config) (w : System Config FullState)
        → find c.name w.zke.clusters ≡ some c
        → connection_check lib reached c ≡ moved c'
        → Step w (record w { zke = write c' w.zke })

  pub data Reach (w : System Config FullState) : System Config FullState → Type 0 where
    here : Reach w w
    next : {a b : System Config FullState} → Reach w a → Step a b → Reach w b

  pub clusters-create_finish :
      (f : Faults) (run : Run FullState) (s : ClusterState Config FullState) (c : Cluster Config)
      (m : Zke Config FullState)
      → (create_finish lib f run s (c, m)).1.clusters ≡ m.clusters
  unfolding create_finish event callback
  clusters-create_finish f run s c m = ground arith

  pub clusters-update_finish :
      (f : Faults) (run : Run FullState) (s : ClusterState Config FullState) (c : Cluster Config)
      (m : Zke Config FullState)
      → (update_finish lib f run s (c, m)).1.clusters ≡ m.clusters
  unfolding update_finish event callback
  clusters-update_finish f run s c m = ground arith

  pub clusters-remove_deleted :
      (message : String) (c : Cluster Config) (m : Zke Config FullState)
      → (remove_deleted message c m).clusters ≡ remove_first c.name m.clusters
  unfolding remove_deleted alarm_if
  clusters-remove_deleted message c m = ground arith

  wrote-Unique :
      (w : Cluster Config × Zke Config FullState) → Unique w.1.clusters → Unique (wrote w).clusters
  unfolding write
  wrote-Unique (c, m) h = put_back-Unique c m.clusters h

  Step-Unique :
      {a b : System Config FullState} → Step a b → Unique a.zke.clusters → Unique b.zke.clusters
  unfolding new_cluster
  Step-Unique (creates f now version empty api w) h =
      elim (clusters-create hooks f now version empty api w.zke) [
        | inl same ↦ subst Unique (sym same) h
        | inr (fresh, added) ↦ subst Unique (sym added) (append-Unique w.zke.clusters _ h fresh)
      ]
  Step-Unique (updates begins f api w) h =
      Unique-names _ w.zke.clusters (names-update_cluster hooks lib begins f api w.zke) h
  Step-Unique (deletes begins f now id w) h =
      Unique-names _ w.zke.clusters (names-delete_cluster lib begins f now id w.zke) h
  Step-Unique (cancels id w) h = Unique-names _ w.zke.clusters (names-cancel_cluster id w.zke) h
  Step-Unique (starts id w) h = unfold open_log in h
  Step-Unique (create_ends f run s c w known) h =
      wrote-Unique (create_finish lib f run s (c, w.zke))
        (subst Unique (sym (clusters-create_finish f run s c w.zke)) h)
  Step-Unique (update_ends f run s c w known) h =
      wrote-Unique (update_finish lib f run s (c, w.zke))
        (subst Unique (sym (clusters-update_finish f run s c w.zke)) h)
  Step-Unique (destroy_removes message c dst w known fired) h =
      subst Unique (sym (clusters-remove_deleted message c w.zke))
        (remove_first-Unique c.name w.zke.clusters h)
  Step-Unique (destroy_drops f name w there) h = unfold drop_logged in h
  Step-Unique (checks reached c c' w known to) h = wrote-Unique (c', w.zke) h

  -- From a state in which a name stands for at most one cluster, every state that is reached by
  -- requests, ends of goroutines and checks, in any order, is one in which a name stands for at
  -- most one cluster. The end of a deletion is two steps, between which any other may come.
  pub Reach-Unique :
      {a b : System Config FullState} → Unique a.zke.clusters → Reach a b → Unique b.zke.clusters
  Reach-Unique h here = h
  Reach-Unique h (next r step) = Step-Unique step (Reach-Unique h r)
