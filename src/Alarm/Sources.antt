-- ===== src/Alarm/Sources.antt =====
-- pkg/alarm/eventcache.go, zcloudcache.go and alarmmanager.go: where the alarms come from. The
-- Kubernetes events of a cluster become alarms by its event cache, and the platform's own alarms come
-- from the bus. A channel's events are handled one by one.
use gao_cloud.Prelude.{
  ℕ, ◌≡◌, Bool, true, false, ◌&&◌, Option, none, some, String, ◌==◌, List, [], ◌∷◌, any, inl, inr,
  ◌+◌, ◌<◌, Option-cases, IsFormat, ltb, nat_eq, if◌then◌else◌, Map, insert, remove,
}
use gao_cloud.Kvzoo.{Faults}
use gao_cloud.Window.{u64}
use gao_cloud.Alarm.Store.{Runs, add-Runs}
use gao_cloud.Alarm.{
  Alarm, no_type, event_type, zcloud_type, AlarmCache, add, delete_alarm_for_cluster,
}

abbrev pub resource_monitor_source : String
resource_monitor_source = "resource-monitor"

abbrev pub cluster_agent_collector_source : String
cluster_agent_collector_source = "cluster-agent-collector"

abbrev pub support_event_source : List String
support_event_source = resource_monitor_source ∷ cluster_agent_collector_source ∷ []

-- The fields of a Kubernetes event that are read.
pub record K8sEvent : Type 0 where
  pub last_timestamp : ℕ
  pub component : String
  pub object_namespace : String
  pub object_kind : String
  pub object_name : String
  pub reason : String
  pub message : String

pub record EventCache : Type 0 where
  pub cluster : String
  pub start_time : ℕ

unfoldable pub check_event_type_and_kind : K8sEvent → Bool
check_event_type_and_kind e = any (λ s. s == e.component) support_event_source

unfoldable pub k8s_event_to_alarm : EventCache → K8sEvent → Alarm
k8s_event_to_alarm ec e = record {
  id = "";
  uid = 0;
  time = e.last_timestamp;
  cluster = ec.cluster;
  alarm_type =
      if e.component == cluster_agent_collector_source
      then zcloud_type
      else if e.component == resource_monitor_source
      then event_type
      else no_type;
  namespace = e.object_namespace;
  kind = e.object_kind;
  name = e.object_name;
  reason = e.reason;
  message = e.message;
  acknowledged = false;
}

-- The alarm that `OnCreate` and `OnUpdate` add for an object, which may be no event.
unfoldable pub alarm_of : EventCache → Option K8sEvent → Option Alarm
unfolding check_event_type_and_kind k8s_event_to_alarm
alarm_of ec none = none
alarm_of ec (some e) =
    if ltb ec.start_time e.last_timestamp && check_event_type_and_kind e
    then some (k8s_event_to_alarm ec e)
    else none

-- What the database does with the transactions of one event, and a month ago.
pub record Env : Type 0 where
  pub tx : Faults
  pub deletions : ℕ → Faults
  pub month_ago : ℕ
  pub now : ℕ

pub record AlarmManager : Type 0 where
  pub cache : AlarmCache
  pub cluster_event_cache : Map EventCache

-- The events that reach the manager: of Kubernetes, at the event cache of a cluster, and of the bus for
-- alarms and clusters. An event cache handles what its channel holds, whether or not the manager still
-- has it.
pub data Arrival : Type 0 where
  k8s_create k8s_update : EventCache → Option K8sEvent → Arrival
  alarm_published : Alarm → Arrival
  cluster_created cluster_deleted : String → Arrival

module _ (uint_to_str : ℕ → String) where
  unfoldable pub on_k8s_event : Env → EventCache → Option K8sEvent → AlarmManager → AlarmManager
  unfolding alarm_of add
  on_k8s_event env ec object m = elim (alarm_of ec object) [
    | none ↦ m
    | some a ↦ record m { cache = add uint_to_str env.tx env.deletions env.month_ago a m.cache }
  ]

  unfoldable pub arrive : Env → Arrival → AlarmManager → AlarmManager
  unfolding on_k8s_event add delete_alarm_for_cluster
  arrive env (k8s_create ec object) m = on_k8s_event env ec object m
  arrive env (k8s_update ec object) m = on_k8s_event env ec object m
  arrive env (alarm_published a) m = record m {
    cache =
        add uint_to_str env.tx env.deletions env.month_ago (record a { alarm_type = zcloud_type })
          m.cache;
  }
  arrive env (cluster_created name) m = record m {
    cluster_event_cache =
        insert name (record { cluster = name; start_time = env.now }) m.cluster_event_cache;
  }
  arrive env (cluster_deleted name) m = record m {
    cluster_event_cache = remove name m.cluster_event_cache;
    cache = delete_alarm_for_cluster uint_to_str env.deletions name m.cache;
  }

-- An alarm of the number is in the list.
abbrev pub has_uid : ℕ → List Alarm → Bool
has_uid id alarms = any (λ a. nat_eq a.uid id) alarms

-- Whether an arrival is the end of a cluster.
abbrev pub is_cluster_deleted : Arrival → Bool
is_cluster_deleted (cluster_deleted name) = true
is_cluster_deleted _ = false

module _ {uint_to_str : ℕ → String} (format : IsFormat uint_to_str) where
  on_k8s_event-Runs :
      (env : Env) (ec : EventCache) (object : Option K8sEvent) (m : AlarmManager)
      → Runs uint_to_str m.cache
      → m.cache.event_id + 2 < u64
      → Runs uint_to_str (on_k8s_event uint_to_str env ec object m).cache
  unfolding on_k8s_event
  on_k8s_event-Runs env ec object m (first, h) p = elim (Option-cases (alarm_of ec object)) [
    | inl nothing ↦ rw (on_k8s_event, nothing) (first, h)
    | inr (a, found) ↦
        rw (on_k8s_event, found)
          (add-Runs format env.tx env.deletions env.month_ago first a m.cache h p)
  ]

  -- Whatever arrives but the end of a cluster, and whatever the database does, the numbers of the
  -- alarms stay consecutive up to the counter, and list and table have the same numbers, while the
  -- counter does not wrap.
  pub arrive-Runs :
      (env : Env) (arrival : Arrival) (m : AlarmManager)
      → is_cluster_deleted arrival ≡ false
      → Runs uint_to_str m.cache
      → m.cache.event_id + 2 < u64
      → Runs uint_to_str (arrive uint_to_str env arrival m).cache
  unfolding arrive
  arrive-Runs env (k8s_create ec object) m not_end h p = on_k8s_event-Runs env ec object m h p
  arrive-Runs env (k8s_update ec object) m not_end h p = on_k8s_event-Runs env ec object m h p
  arrive-Runs env (alarm_published a) m not_end (first, h) p =
      add-Runs format env.tx env.deletions env.month_ago first
        (record a { alarm_type = zcloud_type }) m.cache h p
  arrive-Runs env (cluster_created name) m not_end h p = h
  arrive-Runs env (cluster_deleted name) m not_end h p = cc not_end
