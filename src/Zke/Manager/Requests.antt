-- ===== src/Zke/Manager/Requests.antt =====
-- What a request changes, and what its refusal leaves.
use gao_cloud.Prelude.{
  ◌≡◌, ◌∙◌, refl, ap, ℕ, Bool, true, false, Option, none, some, String, ◌==◌, eq_refl, arith, [],
  ◌∷◌, err, lookup, lookup-insert, lookup-remove, if◌then◌else◌,
}
use gao_cloud.Kvzoo.{Faults}
use gao_cloud.Zke.Fsm.{
  Status, FsmLib, cluster_events, running, unreachable, creating, create_failed, deleting, deleted,
  delete, continute_create, delete_completed,
}
use gao_cloud.Zke.Fsm.Graph.{IsFsm, declared}
use gao_cloud.Zke.Store.{ClusterState, Cluster, Zke}
use gao_cloud.Zke.Store.Laws.{fine, save-fine, drop-fine}
use gao_cloud.Zke.Cluster.{Run, callback, event, create_finish, destroy_finish}
use gao_cloud.Zke.Cluster.Outcome.{stored_state, succeeds, create_finish_lem}
use gao_cloud.Zke.Manager.{
  Hooks, ApiError, permission_denied, event_refused, find, new_cluster, create, update_stored,
  delete_cluster, load_cluster,
}
use gao_cloud.Zke.Manager.Names.{
  Unique, find-remove_first, find-remove_first_other, name-find, find-put_back,
}

-- The statuses in which a cluster may be deleted.
abbrev pub is_deletable : Status → Bool
is_deletable running = true
is_deletable create_failed = true
is_deletable unreachable = true
is_deletable _ = false

declared-delete :
    (s : Status)
    → declared cluster_events s delete ≡ (if is_deletable s then some deleting else none)
declared-delete running = refl
declared-delete _ = refl

module _ {Config FullState : Type 0} where
  -- A deletion is denied exactly where the cluster is known and is being created, updated or
  -- deleted, or is deleted; then nothing changes.
  pub delete_cluster-denied :
      (lib : FsmLib) (begins : Bool) (f : Faults) (now : ℕ) (id : String) (m : Zke Config FullState)
      (c : Cluster Config)
      → IsFsm lib
      → find id m.clusters ≡ some c
      → is_deletable c.status ≡ false
      → delete_cluster lib begins f now id m ≡ (err (permission_denied c.status), m)
  unfolding delete_cluster
  delete_cluster-denied lib begins f now id m c law known busy =
      ground (arith, law.can_lem cluster_events c.status delete, declared-delete c.status)

  -- A failed creation changes nothing.
  pub create-failed :
      {Api : Type 0} (hooks : Hooks Api Config) (f : Faults) (now : ℕ) (version : String)
      (empty : FullState) (api : Api) (m : Zke Config FullState) {e : ApiError}
      → (create hooks f now version empty api m).0 ≡ err e
      → (create hooks f now version empty api m).1 ≡ m
  unfolding create
  create-failed hooks f now version empty api m h = ground arith

  -- The end of a destruction, with or without an error: the cluster's name is free, in memory and
  -- in the table, and another name stands for what it stood for. The machine goes by its table, the
  -- cluster is in `deleting`, a name stands for at most one cluster, and the table takes the write.
  destroy_finish_lem :
      (lib : FsmLib) (f : Faults) (error : Option String) (s : ClusterState Config FullState)
      (c : Cluster Config) (m : Zke Config FullState) (other : String)
      → IsFsm lib
      → c.status ≡ deleting
      → Unique m.clusters
      → fine f ≡ true
      → (c.name == other) ≡ false
      → let m' = (destroy_finish lib f error s (c, m)).1 in
        (find c.name m'.clusters ≡ none)
        × (lookup c.name m'.db ≡ none)
        × (find other m'.clusters ≡ find other m.clusters)
        × (lookup other m'.db ≡ lookup other m.db)
  unfolding destroy_finish event callback
  destroy_finish_lem lib f error s c m other law at unique whole apart =
      let fires : lib.fire cluster_events c.status delete_completed ≡ some deleted =
        law.fire_lem cluster_events c.status delete_completed
        ∙ ap (λ x. declared cluster_events x delete_completed) at in
      let gone = find-remove_first c.name m.clusters unique in
      let kept = find-remove_first_other c.name other m.clusters apart in
      let dropped = drop-fine f c.name m.db whole in
      let cleared = lookup-remove c.name c.name m.db in
      let other_state = lookup-remove c.name other m.db in
      (
        ground (arith, fires, gone),
        ground (arith, fires, dropped, cleared, eq_refl c.name),
        ground (arith, fires, kept),
        ground (arith, fires, dropped, other_state, apart),
      )

  -- An update of a cluster in `creating`, whose state is not marked as created, is refused by the
  -- state machine, and yet the new configuration is in memory and in the table. The machine goes by
  -- its table, and the table takes the write.
  pub update_stored-not_atomic :
      {Api : Type 0} (hooks : Hooks Api Config) (lib : FsmLib) (f : Faults) (api : Api)
      (c : Cluster Config) (s : ClusterState Config FullState) (m : Zke Config FullState)
      → IsFsm lib
      → c.status ≡ creating
      → s.created ≡ false
      → fine f ≡ true
      → find (hooks.name_of api) m.clusters ≡ some c
      → let config = hooks.gen_config_for_update c.config api in
        let r = update_stored hooks lib f api c s m in
        (r.0 ≡ err event_refused)
        × (lookup (hooks.name_of api) r.1.db ≡ some (record s { config = config }))
        × (find c.name r.1.clusters ≡ some (record c { config = config }))
  unfolding update_stored
  update_stored-not_atomic hooks lib f api c s m law at new whole known =
      let config = hooks.gen_config_for_update c.config api in
      let s' = record s { config = config } in
      let refusal : lib.fire cluster_events c.status continute_create ≡ none =
        law.fire_lem cluster_events c.status continute_create
        ∙ ap (λ x. declared cluster_events x continute_create) at in
      let saved = save-fine f (hooks.name_of api) s' m.db whole in
      let stored = lookup-insert (hooks.name_of api) (hooks.name_of api) s' m.db in
      let named = name-find (hooks.name_of api) m.clusters c known in
      let written =
        find-put_back (record c { config = config }) m.clusters c
          (ap (λ n. find n m.clusters) named ∙ known) in
      (
        ground (arith, refusal, saved),
        ground (arith, refusal, saved, stored, eq_refl (hooks.name_of api)),
        ground (arith, refusal, saved, written),
      )

  created-stored_state :
      (canceled : Bool) (run : Run FullState) (s : ClusterState Config FullState)
      → s.created ≡ false
      → (stored_state canceled run s).created ≡ succeeds canceled run
  created-stored_state canceled run s new = ground arith

  -- The cluster that a restart makes of a stored state.
  abbrev loaded_cluster : String → ClusterState Config FullState → Cluster Config
  loaded_cluster id s =
      if s.created
      then record (new_cluster id running s.config s.create_time s.sc_version) { connected = true }
      else new_cluster id create_failed s.config s.create_time s.sc_version

  -- A restart: the state that the end of a creation leaves in the table makes one cluster, with the
  -- status in which the creation left it. The machine goes by its table, the cluster was in
  -- `creating` and not marked as created, the table takes the write, and the connection to a
  -- created cluster can be set up.
  status-load_cluster :
      (lib : FsmLib) (f : Faults) (run : Run FullState) (s : ClusterState Config FullState)
      (c : Cluster Config) (m empty : Zke Config FullState)
      → IsFsm lib
      → c.status ≡ creating
      → s.created ≡ false
      → fine f ≡ true
      → empty.clusters ≡ []
      → let (c', m') = create_finish lib f run s (c, m) in
        (s' : ClusterState Config FullState) × (d : Cluster Config) × (lookup c.name m'.db
          ≡ some s')
        × ((load_cluster (λ id. true) c.name s' empty).clusters ≡ d ∷ [])
        × (d.status ≡ c'.status)
  unfolding load_cluster
  status-load_cluster lib f run s c m empty law at new whole none_yet =
      let (ended, stored) = create_finish_lem lib law f s c m at run new whole in
      let s' = stored_state c.is_canceled run s in
      let mark : s'.created ≡ succeeds c.is_canceled run =
        created-stored_state c.is_canceled run s new in
      (s', loaded_cluster c.name s', stored, ground (arith, none_yet), ground (arith, ended, mark))
