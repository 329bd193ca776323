-- ===== src/Alarm.antt =====
-- pkg/alarm/alarmcache.go, table.go and unackcache.go: the alarms in memory, in the order of their
-- numbers, and their table. A transaction's faults are the environment's, and so is the time. The
-- lock makes each method one step, in `Add` with the count of the number that follows it; `strconv.FormatUint` is a parameter. The mail that `Add` sends
-- at its end is not modelled, and changes nothing here.
pub mod Store
pub mod Oldest
pub mod Delivery
pub mod Sources
mod Examples
use mathlib.Core.List.{reverse}
use gao_cloud.Prelude.{
  ℕ, zero, suc, ◌+◌, Bool, true, false, not, ◌&&◌, ◌||◌, Option, none, some, String, ◌==◌, List, [],
  ◌∷◌, ◌++◌, map, keep, any, length, head?, last?, ltb, leb, nat_eq, if◌then◌else◌, Map, Result, ok,
  err, guard, ◌>>=◌, ◌>>◌, sort_by,
}
use gao_cloud.Kvzoo
use gao_cloud.Kvzoo.{KvError, Faults, transact, begin_failed}
use gao_cloud.Window.{u64, add64, sub64}

-- pkg/types/alarm.go
pub data AlarmType : Type 0 where
  no_type event_type zcloud_type : AlarmType

pub record Alarm : Type 0 where
  pub id : String
  pub uid : ℕ
  pub time : ℕ
  pub cluster : String
  pub alarm_type : AlarmType
  pub namespace : String
  pub kind : String
  pub name : String
  pub reason : String
  pub message : String
  pub acknowledged : Bool

pub record AlarmCache : Type 0 where
  pub alarms_table : Map Alarm
  pub alarm_list : List Alarm
  pub event_id : ℕ

-- pkg/alarm/alarmmanager.go
abbrev pub max_alarm_count : ℕ
max_alarm_count = 1000

-- pkg/alarm/mail.go
abbrev pub cluster_kinds : List String
cluster_kinds = "Node" ∷ "node" ∷ "Cluster" ∷ "cluster" ∷ []

unfoldable pub is_repeat : Alarm → Alarm → Bool
is_repeat last new =
    last.cluster == new.cluster
    && (last.namespace == new.namespace
        && (last.kind == new.kind
            && (last.reason == new.reason
                && (last.message == new.message && last.name == new.name))))

unfoldable pub get_alarms_from_db : Bool → Map Alarm → Result KvError (List Alarm)
get_alarms_from_db begins t = do
  guard begins begin_failed
  ok (sort_by (λ a. a.uid) (map (λ entry. entry.1) t))

-- `initFromDB`
unfoldable pub init_from_db : Bool → Map Alarm → Result KvError AlarmCache
unfolding get_alarms_from_db
init_from_db begins t = do
  alarms ← get_alarms_from_db begins t
  ok (record {
    alarms_table = t;
    alarm_list = alarms;
    event_id = elim (last? alarms) [ none ↦ 0 | some a ↦ a.uid ];
  })

-- The walk from the back, over the reversed list, while the numbers are above `id`.
unfoldable pub newer_than : ℕ → List Alarm → List Alarm
newer_than id [] = []
newer_than id (a ∷ rest) = let more = newer_than id rest in if ltb id a.uid then a ∷ more else []

unfoldable pub get_alarms_after_id : ℕ → AlarmCache → List Alarm
unfolding newer_than
get_alarms_after_id id c = sort_by (λ a. a.uid) (newer_than id (reverse c.alarm_list))

-- One round of `publishEvent`: the listener's new `lastID`, which counts what it is sent, and that.
unfoldable pub publish_event : ℕ → AlarmCache → ℕ × List Alarm
unfolding get_alarms_after_id
publish_event last_id c =
    let alarms : List Alarm = get_alarms_after_id last_id c in
    (add64 last_id (length alarms), alarms)

-- `AddListener`
unfoldable pub add_listener : AlarmCache → ℕ
add_listener c = c.event_id

unfoldable pub find_uid : ℕ → List Alarm → Option Alarm
find_uid id [] = none
find_uid id (a ∷ rest) = if nat_eq a.uid id then some a else find_uid id rest

-- The nearer end is where the walk starts; the outer `none` is the panic of a look at the ends of
-- an empty list.
unfoldable pub get_alarm_from_list : ℕ → AlarmCache → Option (Option Alarm)
unfolding find_uid
get_alarm_from_list id c = elim (head? c.alarm_list) [
  | none ↦ none
  | some front ↦ elim (last? c.alarm_list) [
    | none ↦ none
    | some back ↦ some (
        if ltb (sub64 id front.uid) (sub64 back.uid id)
        then find_uid id c.alarm_list
        else find_uid id (reverse c.alarm_list))
  ]
]

unfoldable pub get_un_ack_number : AlarmCache → ℕ
get_un_ack_number c = length (keep (λ a. not a.acknowledged) (reverse c.alarm_list))

-- `a.Acknowledged = true`, through the pointer to the alarm of that number.
unfoldable pub acknowledge : ℕ → List Alarm → List Alarm
acknowledge id [] = []
acknowledge id (a ∷ rest) =
    if nat_eq a.uid id then record a { acknowledged = true } ∷ rest else a ∷ acknowledge id rest

-- How many `deleteoldest` deletes: the front, and what follows it and is a month old.
unfoldable pub del_num : ℕ → List Alarm → ℕ
del_num month_ago [] = 0
del_num month_ago (a ∷ rest) =
    let more = del_num month_ago rest in if ltb month_ago a.time then 0 else suc more

-- An alarm of a node or of a cluster has no namespace.
abbrev pub in_scope : Alarm → Alarm
in_scope a = if any (λ k. k == a.kind) cluster_kinds then record a { namespace = "" } else a

module _ (uint_to_str : ℕ → String) where
  unfoldable pub add_alarm_to_db : Faults → Alarm → Map Alarm → Result KvError (Map Alarm)
  unfolding Kvzoo.add
  add_alarm_to_db f a t = transact f (Kvzoo.add f (uint_to_str a.uid) a) t

  unfoldable pub update_alarm_to_db : Faults → Alarm → Map Alarm → Result KvError (Map Alarm)
  unfolding Kvzoo.update
  update_alarm_to_db f a t = transact f (Kvzoo.update f (uint_to_str a.uid) a) t

  unfoldable pub delete_alarm_from_db : Faults → ℕ → Map Alarm → Result KvError (Map Alarm)
  unfolding Kvzoo.delete
  delete_alarm_from_db f id t = transact f (Kvzoo.delete f (uint_to_str id)) t

  -- The loop of `deleteoldest`: the key is counted up from the first number, and the front is what
  -- leaves the list. An error ends it.
  unfoldable pub delete_loop : (ℕ → Faults) → ℕ → ℕ → AlarmCache → AlarmCache
  unfolding delete_alarm_from_db
  delete_loop faults zero key c = c
  delete_loop faults (suc n) key c = elim (delete_alarm_from_db (faults key) key c.alarms_table) [
    | err e ↦ c
    | ok t ↦ elim c.alarm_list [
      | [] ↦ c
      | a ∷ rest ↦
          delete_loop faults n (add64 key 1) (record c { alarms_table = t; alarm_list = rest })
    ]
  ]

  unfoldable pub delete_oldest : (ℕ → Faults) → ℕ → AlarmCache → AlarmCache
  unfolding del_num delete_loop
  delete_oldest faults month_ago c = elim c.alarm_list [
    | [] ↦ c
    | front ∷ rest ↦ delete_loop faults (suc (del_num month_ago rest)) front.uid c
  ]

  -- `Add`, when the alarm is not a repetition of the last.
  unfoldable pub add_new : Faults → (ℕ → Faults) → ℕ → Alarm → AlarmCache → AlarmCache
  unfolding add_alarm_to_db delete_oldest
  add_new f faults month_ago a c =
      let uid : ℕ = add64 c.event_id 1 in
      let a' : Alarm = record a { uid = uid; id = uint_to_str uid } in
      elim (add_alarm_to_db f a' c.alarms_table) [
        | err e ↦ c
        | ok t ↦
            let c' : AlarmCache = record c {
              alarms_table = t;
              alarm_list = c.alarm_list ++ a' ∷ [];
            } in
            let c'' : AlarmCache =
              if ltb max_alarm_count (length c'.alarm_list)
              then delete_oldest faults month_ago c'
              else c' in
            record c'' { event_id = uid }
      ]

  unfoldable pub add : Faults → (ℕ → Faults) → ℕ → Alarm → AlarmCache → AlarmCache
  unfolding is_repeat add_new
  add f faults month_ago a c =
      let a' : Alarm = in_scope a in
      elim (last? c.alarm_list) [
        | some last ↦ if is_repeat last a' then c else add_new f faults month_ago a' c
        | none ↦ add_new f faults month_ago a' c
      ]

  -- `Update`: the table takes the client's alarm before the list is looked at. The Boolean is
  -- whether it is found in the list; the outer `none` is the panic on an empty list.
  unfoldable pub update : Faults → Alarm → AlarmCache → Option (Result KvError Bool × AlarmCache)
  unfolding update_alarm_to_db get_alarm_from_list acknowledge
  update f a c = elim (update_alarm_to_db f a c.alarms_table) [
    | err e ↦ some (err e, c)
    | ok t ↦
        let c' : AlarmCache = record c { alarms_table = t } in
        elim (get_alarm_from_list a.uid c') [
          | none ↦ none
          | some none ↦ some (ok false, c')
          | some (some found) ↦
              some (ok true, record c' { alarm_list = acknowledge a.uid c'.alarm_list })
        ]
  ]

  -- `deleteAlarmForCluster`: an alarm whose deletion fails stays in the list.
  unfoldable pub delete_alarms :
      (ℕ → Faults) → String → List Alarm → Map Alarm → List Alarm × Map Alarm
  unfolding delete_alarm_from_db
  delete_alarms faults cluster [] t = ([], t)
  delete_alarms faults cluster (a ∷ rest) t =
      let deleted : Option (Map Alarm) =
        if a.cluster == cluster
        then (elim (delete_alarm_from_db (faults a.uid) a.uid t) [ err e ↦ none | ok t' ↦ some t' ])
        else none in
      elim deleted [
        | some t' ↦ delete_alarms faults cluster rest t'
        | none ↦
            let r : List Alarm × Map Alarm = delete_alarms faults cluster rest t in (a ∷ r.0, r.1)
      ]

  unfoldable pub delete_alarm_for_cluster : (ℕ → Faults) → String → AlarmCache → AlarmCache
  unfolding delete_alarms
  delete_alarm_for_cluster faults cluster c =
      let r : List Alarm × Map Alarm = delete_alarms faults cluster c.alarm_list c.alarms_table in
      record c { alarm_list = r.0; alarms_table = r.1 }
