-- ===== src/Zke/Examples.antt =====
-- A state machine that goes by its table, a cluster that is being created, and one that is updated.
use gao_cloud.Prelude.{
  ℕ, ◌≡◌, refl, Bool, true, false, String, some, none, List, [], ◌∷◌, Map, arith, eq_iff, lookup,
  err, is_some,
}
use gao_cloud.Kvzoo.{Faults}
use gao_cloud.Zke.Fsm.{
  FsmLib, Status, running, creating, create_failed, updating, deleting, deleted, create_succeed,
}
use gao_cloud.Zke.Fsm.Graph.{IsFsm, declared}
use gao_cloud.Zke.Store.{ClusterState, Cluster, Zke, save}
use gao_cloud.Zke.Cluster.{
  panicked, finished, already_canceling, cancel, event, create_finish, remove_deleted, remove_first,
  drop_logged,
}
use gao_cloud.Zke.Cluster.Outcome.{create_finish_lem, is_canceled-create_finish}
use gao_cloud.Zke.Cluster.Cancel.{create_finish-cancel, cancel-late}
use gao_cloud.Zke.Manager.{
  Hooks, duplicate_resource, permission_denied, event_refused, find, create, update_stored,
  delete_cluster, first_state,
}
use gao_cloud.Zke.Manager.Names.{Unique}
use gao_cloud.Zke.Manager.Requests.{delete_cluster-denied, create-failed, update_stored-not_atomic}
use gao_cloud.Zke.Manager.Kept.{Kept, Reach-Kept, create-dropped}
use gao_cloud.Zke.Manager.Steps.{
  System, take_out, Reach, here, next, creates, destroy_removes, destroy_drops, Reach-Unique,
}

abbrev table_lib : FsmLib
table_lib = record { fire = declared; can = λ t s e. is_some (declared t s e) }

table_lib-IsFsm : IsFsm table_lib
table_lib-IsFsm = record { fire_lem = λ t s e. refl; can_lem = λ t s e. refl }

abbrev all_fine : Faults
all_fine = record { begins = true; writes = true; commits = true }

abbrev cluster : String → Status → Bool → Cluster ℕ
cluster name status canceled = record {
  name = name;
  status = status;
  is_canceled = canceled;
  config = 5;
  create_time = 1;
  delete_time = 0;
  sc_version = "v1";
  connected = false;
}

abbrev state : Bool → ClusterState ℕ ℕ
state created = record {
  full_state = 0;
  config = 5;
  create_time = 1;
  delete_time = 0;
  created = created;
  sc_version = "v1";
}

abbrev manager : List (Cluster ℕ) → Map (ClusterState ℕ ℕ) → Zke ℕ ℕ
manager cs t = record { clusters = cs; db = t; logs = record { watchers = [] }; published = [] }

-- A request is the cluster's name; its configuration is a number.
abbrev hooks : Hooks String ℕ
hooks = record {
  name_of = λ api. api;
  validate_for_create = λ api. none;
  validate_for_update = λ c api. none;
  gen_config = λ api. 5;
  gen_config_for_update = λ old api. 6;
}

abbrev one : Zke ℕ ℕ
one = manager (cluster "beijing" creating false ∷ []) (("beijing", state false) ∷ [])

create_finish_lem_example :
    ((create_finish table_lib all_fine
        (finished 9 none none)
        (state false)
        (cluster "beijing" creating false, one)).0.status
      ≡ running)
    × (lookup "beijing"
          (create_finish table_lib all_fine
            (finished 9 none none)
            (state false)
            (cluster "beijing" creating false, one)).1.db
        ≡ some (record (state true) { full_state = 9 }))
create_finish_lem_example =
    create_finish_lem table_lib table_lib-IsFsm all_fine (state false)
      (cluster "beijing" creating false) one refl (finished 9 none none) refl refl

is_canceled-create_finish_example :
    (create_finish table_lib all_fine
      (panicked "engine")
      (state false)
      (cluster "beijing" creating true, one)).0.is_canceled
    ≡ true
is_canceled-create_finish_example =
    is_canceled-create_finish table_lib table_lib-IsFsm all_fine (state false)
      (cluster "beijing" creating true) one refl (panicked "engine")

create_finish-cancel_example :
    (create_finish table_lib all_fine
      (finished 9 none none)
      (state false)
      (cluster "beijing" creating true, one)).0
    ≡ cluster "beijing" create_failed false
unfolding cancel
create_finish-cancel_example =
    create_finish-cancel table_lib table_lib-IsFsm all_fine (state false)
      (cluster "beijing" creating false) (cluster "beijing" creating true) one refl 9 none none refl

cancel-late_example :
    let (d, m') =
      event table_lib all_fine create_succeed
        (state true)
        ""
        (cluster "beijing" creating true, one) in
    (d.status ≡ running)
    × (d.is_canceled ≡ true)
    × (cancel (record d { status = updating }) ≡ err already_canceling)
unfolding cancel
cancel-late_example =
    cancel-late table_lib table_lib-IsFsm all_fine (state true) (cluster "beijing" creating false)
      (cluster "beijing" creating true) one refl refl

delete_cluster-denied_example :
    delete_cluster table_lib true all_fine 3 "beijing" one ≡ (err (permission_denied creating), one)
unfolding find
delete_cluster-denied_example =
    delete_cluster-denied table_lib true all_fine 3 "beijing" one (cluster "beijing" creating false)
      table_lib-IsFsm refl refl

create-failed_example : (create hooks all_fine 3 "v1" 0 "beijing" one).1 ≡ one
unfolding create find
create-failed_example =
    create-failed hooks all_fine 3 "v1" 0 "beijing" one {e = duplicate_resource} refl

abbrev two : Zke ℕ ℕ
two =
    manager (cluster "beijing" deleting false ∷ cluster "local" running false ∷ [])
      (("beijing", state true) ∷ ("local", state true) ∷ [])

update_stored-not_atomic_example :
    let r =
      update_stored hooks table_lib all_fine "beijing"
        (cluster "beijing" creating false)
        (state false)
        one in
    (r.0 ≡ err event_refused)
    × (lookup "beijing" r.1.db ≡ some (record (state false) { config = 6 }))
    × (find "beijing" r.1.clusters
        ≡ some (record (cluster "beijing" creating false) { config = 6 }))
unfolding find
update_stored-not_atomic_example =
    update_stored-not_atomic hooks table_lib all_fine "beijing" (cluster "beijing" creating false)
      (state false) one table_lib-IsFsm refl refl refl refl

abbrev after_two : Zke ℕ ℕ
after_two = (create hooks all_fine 3 "v1" 0 "test" one).1

abbrev at_rest : Zke ℕ ℕ → System ℕ ℕ
at_rest m = record { zke = m; dropping = [] }

-- The deletion of `beijing` removes it from memory, `test` is created, and the deletion completes.
abbrev started : System ℕ ℕ
started = at_rest two

abbrev removed : System ℕ ℕ
removed = record {
  zke = remove_deleted "" (cluster "beijing" deleting false) two;
  dropping = "beijing" ∷ [];
}

abbrev between : System ℕ ℕ
between = record removed { zke = (create hooks all_fine 3 "v1" 0 "test" removed.zke).1 }

abbrev ended : System ℕ ℕ
ended = record {
  zke = drop_logged all_fine "beijing" between.zke;
  dropping = take_out "beijing" between.dropping;
}

run : Reach hooks table_lib started ended
unfolding find remove_first
run =
    next
      (next
        (next here
          (destroy_removes "" (cluster "beijing" deleting false) deleted started refl refl))
        (creates all_fine 3 "v1" 0 "test" removed))
      (destroy_drops all_fine "beijing" between refl)

Reach-Unique_example : Unique ended.zke.clusters
unfolding find
Reach-Unique_example = Reach-Unique hooks table_lib {a = started} {b = ended} (refl, (refl, tt)) run

two-Kept : Kept two
unfolding find lookup
two-Kept name h = ground (arith, eq_iff "beijing" name, eq_iff "local" name)

Reach-Kept_example : Kept ended.zke
unfolding find run
Reach-Kept_example =
    Reach-Kept hooks table_lib {a = started} {b = ended} run refl refl (refl, (refl, tt)) two-Kept

create-dropped_example :
    let m' =
      drop_logged all_fine "beijing" (create hooks all_fine 3 "v1" 0 "beijing" removed.zke).1 in
    (is_some (find "beijing" m'.clusters) ≡ true) × (lookup "beijing" m'.db ≡ none)
unfolding create find remove_deleted remove_first save lookup
create-dropped_example =
    create-dropped hooks all_fine all_fine 3 "v1" 0 "beijing" "" (cluster "beijing" deleting false)
      two {s = first_state hooks 3 "v1" 0 "beijing"} refl refl refl
