-- ===== src/Alarm/Oldest.antt =====
-- What leaves the list: the oldest alarms when it is full, and the alarms of a deleted cluster.
use gao_cloud.Prelude.{
  ℕ, zero, suc, ◌+◌, ◌-◌, ◌≤◌, ◌<◌, ◌≡◌, ◌∙◌, inl, inr, refl, true, not, ◌&&◌, String, ◌==◌, List,
  [], ◌∷◌, ◌++◌, arith, length, length-append, nat_eq, is_some, Map, lookup, remove, ok,
  Option-cases, Bool-cases, Result-cases, IsFormat, removed, last?, keep, any,
}
use gao_cloud.Kvzoo.{Faults, fine}
use gao_cloud.Window.{u64, add64}
use gao_cloud.Alarm.{
  Alarm, AlarmCache, del_num, add_alarm_to_db, delete_alarm_from_db, delete_loop, delete_oldest,
  add_new, add, in_scope, is_repeat, max_alarm_count, delete_alarms, delete_alarm_for_cluster,
}

module _ (uint_to_str : ℕ → String) where
  delete_alarm_from_db-fine :
      (f : Faults) (id : ℕ) (t : Map Alarm)
      → fine f ≡ true
      → delete_alarm_from_db uint_to_str f id t ≡ ok (remove (uint_to_str id) t)
  unfolding delete_alarm_from_db
  delete_alarm_from_db-fine f id t h = ground arith

  length-delete_loop :
      (faults : ℕ → Faults) (count key e : ℕ) (t : Map Alarm) (alarms : List Alarm)
      → ((k : ℕ) → fine (faults k) ≡ true)
      → length
          (delete_loop uint_to_str faults count key
            (record { alarms_table = t; alarm_list = alarms; event_id = e })).alarm_list
        ≡ length alarms - count
  unfolding delete_loop
  length-delete_loop faults zero key e t alarms good = omega arith
  length-delete_loop faults (suc count) key e t [] good =
      rw (delete_alarm_from_db-fine (faults key) key t (good key), delete_loop) (omega arith)
  length-delete_loop faults (suc count) key e t (a ∷ rest) good =
      rw (delete_alarm_from_db-fine (faults key) key t (good key), delete_loop)
        (length-delete_loop faults count (add64 key 1) e (remove (uint_to_str key) t) rest good
          ∙ omega arith)

  length-delete_oldest :
      (faults : ℕ → Faults) (month_ago e : ℕ) (t : Map Alarm) (alarms : List Alarm)
      → ((k : ℕ) → fine (faults k) ≡ true)
      → length
          (delete_oldest uint_to_str faults month_ago
            (record { alarms_table = t; alarm_list = alarms; event_id = e })).alarm_list
        ≤ length alarms - 1
  unfolding delete_oldest
  length-delete_oldest faults month_ago e t [] good = omega arith
  length-delete_oldest faults month_ago e t (a ∷ rest) good =
      omega
        (arith, length-delete_loop faults (suc (del_num month_ago rest)) a.uid e t (a ∷ rest) good)

  length-add_new :
      (f : Faults) (faults : ℕ → Faults) (month_ago : ℕ) (a : Alarm) (c : AlarmCache)
      → ((k : ℕ) → fine (faults k) ≡ true)
      → length c.alarm_list ≤ max_alarm_count
      → length (add_new uint_to_str f faults month_ago a c).alarm_list ≤ max_alarm_count
  unfolding add_new
  length-add_new f faults month_ago a c good h =
      let uid : ℕ = add64 c.event_id 1 in
      let a' : Alarm = record a { uid = uid; id = uint_to_str uid } in
      let more = length-append c.alarm_list (a' ∷ []) in
      elim (Result-cases (add_alarm_to_db uint_to_str f a' c.alarms_table)) [
        | inl (x, failed) ↦ rw (failed, add_new) h
        | inr (t, done) ↦
            let less =
              length-delete_oldest faults month_ago c.event_id t (c.alarm_list ++ a' ∷ []) good in
            rw (done, add_new) (ground (arith, less, more))
      ]

  -- A list within the bound is never taken past it by an `add`, where the deletions of the oldest
  -- succeed.
  length-add :
      (f : Faults) (faults : ℕ → Faults) (month_ago : ℕ) (a : Alarm) (c : AlarmCache)
      → ((k : ℕ) → fine (faults k) ≡ true)
      → length c.alarm_list ≤ max_alarm_count
      → length (add uint_to_str f faults month_ago a c).alarm_list ≤ max_alarm_count
  unfolding add
  length-add f faults month_ago a c good h =
      let new = length-add_new f faults month_ago (in_scope a) c good h in
      elim (Option-cases (last? c.alarm_list)) [
        | inl empty ↦ rw (empty, add) new
        | inr (last, there) ↦ elim (Bool-cases (is_repeat last (in_scope a))) [
          | inl again ↦ rw (there, add, again) h
          | inr other ↦ rw (there, add, other) new
        ]
      ]

  -- Two alarms a month old whose numbers have a gap between them, at the front of the list: both
  -- leave the list, and the second stays in the table where it was, since the keys are counted up by
  -- one. The alarm after them is not old, the numbers do not wrap, two numbers have two keys, and the
  -- database does what it is asked.
  pub delete_oldest-gap :
      (faults : ℕ → Faults) (month_ago e : ℕ) (t : Map Alarm) (a b : Alarm) (rest : List Alarm)
      → IsFormat uint_to_str
      → ((k : ℕ) → fine (faults k) ≡ true)
      → b.time ≤ month_ago
      → del_num month_ago rest ≡ 0
      → a.uid + 1 < b.uid
      → b.uid < u64
      → is_some (lookup (uint_to_str b.uid) t) ≡ true
      → let c' =
          delete_oldest uint_to_str faults month_ago
            (record { alarms_table = t; alarm_list = a ∷ b ∷ rest; event_id = e }) in
        (c'.alarm_list ≡ rest) × (is_some (lookup (uint_to_str b.uid) c'.alarms_table) ≡ true)
  unfolding delete_oldest delete_loop del_num
  delete_oldest-gap faults month_ago e t a b rest format good old young gap fits there =
      let first = delete_alarm_from_db-fine (faults a.uid) a.uid t (good a.uid) in
      let next : add64 a.uid 1 ≡ suc a.uid = omega arith in
      let t' = remove (uint_to_str a.uid) t in
      let second =
        delete_alarm_from_db-fine (faults (suc a.uid)) (suc a.uid) t' (good (suc a.uid)) in
      let kept = removed format a.uid b.uid t in
      let kept' = removed format (suc a.uid) b.uid t' in
      (ground (arith, first, next, second), ground (arith, first, next, second, kept, kept'))

  alarm_list-delete_alarms :
      (faults : ℕ → Faults) (cluster : String) (alarms : List Alarm) (t : Map Alarm)
      → ((k : ℕ) → fine (faults k) ≡ true)
      → (delete_alarms uint_to_str faults cluster alarms t).0
        ≡ keep (λ a. not (a.cluster == cluster)) alarms
  unfolding delete_alarms
  alarm_list-delete_alarms faults cluster [] t good = refl
  alarm_list-delete_alarms faults cluster (a ∷ alarms) t good = ground (
    arith,
    delete_alarm_from_db-fine (faults a.uid) a.uid t (good a.uid),
    alarm_list-delete_alarms faults cluster alarms t good,
    alarm_list-delete_alarms faults cluster alarms (remove (uint_to_str a.uid) t) good,
  )

  stored-delete_alarms :
      (faults : ℕ → Faults) (cluster : String) (alarms : List Alarm) (t : Map Alarm) (id : ℕ)
      → IsFormat uint_to_str
      → ((k : ℕ) → fine (faults k) ≡ true)
      → is_some (lookup (uint_to_str id) (delete_alarms uint_to_str faults cluster alarms t).1) ≡ (
          is_some (lookup (uint_to_str id) t)
          && not (any (λ a. a.cluster == cluster && nat_eq a.uid id) alarms))
  unfolding delete_alarms
  stored-delete_alarms faults cluster [] t id format good = ground arith
  stored-delete_alarms faults cluster (a ∷ alarms) t id format good = ground (
    arith,
    delete_alarm_from_db-fine (faults a.uid) a.uid t (good a.uid),
    stored-delete_alarms faults cluster alarms t id format good,
    stored-delete_alarms faults cluster alarms (remove (uint_to_str a.uid) t) id format good,
    removed format a.uid id t,
  )

  -- When a cluster is deleted, its alarms leave the list and the table, and no other does, where the
  -- database does what it is asked and two numbers have two keys.
  pub delete_alarm_for_cluster_lem :
      (faults : ℕ → Faults) (cluster : String) (c : AlarmCache) (id : ℕ)
      → IsFormat uint_to_str
      → ((k : ℕ) → fine (faults k) ≡ true)
      → let c' = delete_alarm_for_cluster uint_to_str faults cluster c in
        (c'.alarm_list ≡ keep (λ a. not (a.cluster == cluster)) c.alarm_list)
        × (is_some (lookup (uint_to_str id) c'.alarms_table) ≡ (
            is_some (lookup (uint_to_str id) c.alarms_table)
            && not (any (λ a. a.cluster == cluster && nat_eq a.uid id) c.alarm_list)))
  unfolding delete_alarm_for_cluster
  delete_alarm_for_cluster_lem faults cluster c id format good = (
    alarm_list-delete_alarms faults cluster c.alarm_list c.alarms_table good,
    stored-delete_alarms faults cluster c.alarm_list c.alarms_table id format good,
  )
