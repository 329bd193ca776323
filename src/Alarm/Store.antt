-- ===== src/Alarm/Store.antt =====
-- The alarms while none is deleted for its cluster: their numbers are consecutive, and list and
-- table have the same ones.
use gao_cloud.Prelude.{
  ℕ, zero, suc, ◌+◌, ◌<◌, ◌≡◌, inl, inr, refl, sym, Bool, true, false, ◌&&◌, String, List, [], ◌∷◌,
  ◌++◌, arith, length, length-append, leb, ltb, nat_eq, is_some, Map, lookup, ok, Result-cases,
  Option-cases, Bool-cases, if◌then◌else◌, IsFormat, inserted, removed, last?,
}
use mathlib.Core.Path.{subst}
use gao_cloud.Kvzoo.{Faults}
use gao_cloud.Window.{u64, add64}
use gao_cloud.Alarm.{
  Alarm, AlarmCache, del_num, in_scope, is_repeat, add_alarm_to_db, delete_alarm_from_db,
  delete_loop, delete_oldest, add_new, add, max_alarm_count,
}

abbrev pub Numbered : ℕ → List Alarm → Type 0
Numbered n [] = Unit
Numbered n (a ∷ rest) = (a.uid ≡ n) × Numbered (suc n) rest

abbrev pub within : ℕ → ℕ → ℕ → Bool
within first count id = leb first id && ltb id (first + count)

-- The alarms are numbered from `first` to the counter, and the table has exactly those keys.
pub record IsRun (uint_to_str : ℕ → String) (first : ℕ) (c : AlarmCache) : Type 0 where
  pub numbered : Numbered first c.alarm_list
  pub ends : first + length c.alarm_list ≡ suc c.event_id
  pub stored :
      (id : ℕ)
      → is_some (lookup (uint_to_str id) c.alarms_table) ≡ within first (length c.alarm_list) id

-- Some number is the first.
abbrev pub Runs : (ℕ → String) → AlarmCache → Type 0
Runs uint_to_str c = (first : ℕ) × IsRun uint_to_str first c

Numbered-append :
    (n : ℕ) (alarms : List Alarm) (a : Alarm)
    → Numbered n alarms
    → a.uid ≡ n + length alarms
    → Numbered n (alarms ++ a ∷ [])
Numbered-append n [] a h p = (omega arith, tt)
Numbered-append n (x ∷ alarms) a h p = (h.0, Numbered-append (suc n) alarms a h.1 (omega arith))

module _ {uint_to_str : ℕ → String} (format : IsFormat uint_to_str) where
  deleted-stored :
      (f : Faults) (id other : ℕ) (t : Map Alarm) {t' : Map Alarm}
      → delete_alarm_from_db uint_to_str f id t ≡ ok t'
      → is_some (lookup (uint_to_str other) t')
        ≡ (if nat_eq id other then false else is_some (lookup (uint_to_str other) t))
  unfolding delete_alarm_from_db
  deleted-stored f id other t h = ground (arith, removed format id other t)

  added-stored :
      (f : Faults) (a : Alarm) (other : ℕ) (t : Map Alarm) {t' : Map Alarm}
      → add_alarm_to_db uint_to_str f a t ≡ ok t'
      → is_some (lookup (uint_to_str other) t')
        ≡ (if nat_eq a.uid other then true else is_some (lookup (uint_to_str other) t))
  unfolding add_alarm_to_db
  added-stored f a other t h = ground (arith, inserted format a.uid other a t)

  delete_loop-Runs :
      (faults : ℕ → Faults) (count first e : ℕ) (t : Map Alarm) (alarms : List Alarm)
      → IsRun uint_to_str first (record { alarms_table = t; alarm_list = alarms; event_id = e })
      → first + length alarms < u64
      → Runs uint_to_str (
          delete_loop uint_to_str faults count first
            (record { alarms_table = t; alarm_list = alarms; event_id = e }))
  unfolding delete_loop
  delete_loop-Runs faults zero first e t alarms h p = (first, h)
  delete_loop-Runs faults (suc count) first e t [] h p =
      elim (Result-cases (delete_alarm_from_db uint_to_str (faults first) first t)) [
        | inl (x, failed) ↦ rw (failed, delete_loop) (first, h)
        | inr (t', done) ↦ rw (done, delete_loop) (first, h)
      ]
  delete_loop-Runs faults (suc count) first e t (a ∷ alarms) h p =
      elim (Result-cases (delete_alarm_from_db uint_to_str (faults first) first t)) [
        | inl (x, failed) ↦ rw (failed, delete_loop) (first, h)
        | inr (t', done) ↦
            let next : add64 first 1 ≡ suc first = omega arith in
            rw (done, delete_loop, next)
              (delete_loop-Runs faults count (suc first) e t' alarms
                (record {
                  numbered = h.numbered.1;
                  ends = omega (arith, h.ends);
                  stored = λ id.
                      ground (arith, deleted-stored (faults first) first id t done, h.stored id);
                })
                (omega arith))
      ]

  -- The loop does not look at the counter.
  delete_loop-event :
      (faults : ℕ → Faults) (count key e e' : ℕ) (t : Map Alarm) (alarms : List Alarm)
      → record (delete_loop uint_to_str faults count key
          (record { alarms_table = t; alarm_list = alarms; event_id = e })) { event_id = e' }
        ≡ delete_loop uint_to_str faults count key
            (record { alarms_table = t; alarm_list = alarms; event_id = e' })
  unfolding delete_loop
  delete_loop-event faults zero key e e' t alarms = refl
  delete_loop-event faults (suc count) key e e' t [] = ground arith
  delete_loop-event faults (suc count) key e e' t (a ∷ alarms) =
      elim (Result-cases (delete_alarm_from_db uint_to_str (faults key) key t)) [
        | inl (x, failed) ↦ rw (failed, delete_loop) refl
        | inr (t', done) ↦
            rw (done, delete_loop) (delete_loop-event faults count (add64 key 1) e e' t' alarms)
      ]

  delete_oldest-Runs :
      (faults : ℕ → Faults) (month_ago first e : ℕ) (t : Map Alarm) (alarms : List Alarm)
      → IsRun uint_to_str first (record { alarms_table = t; alarm_list = alarms; event_id = e })
      → first + length alarms < u64
      → Runs uint_to_str (
          delete_oldest uint_to_str faults month_ago
            (record { alarms_table = t; alarm_list = alarms; event_id = e }))
  unfolding delete_oldest
  delete_oldest-Runs faults month_ago first e t [] h p = (first, h)
  delete_oldest-Runs faults month_ago first e t (a ∷ rest) h p =
      subst
        (λ key. Runs uint_to_str (
          delete_loop uint_to_str faults (suc (del_num month_ago rest)) key
            (record { alarms_table = t; alarm_list = a ∷ rest; event_id = e })))
        (sym h.numbered.0)
        (delete_loop-Runs faults (suc (del_num month_ago rest)) first e t (a ∷ rest) h p)

  delete_oldest-event :
      (faults : ℕ → Faults) (month_ago e e' : ℕ) (t : Map Alarm) (alarms : List Alarm)
      → record (delete_oldest uint_to_str faults month_ago
          (record { alarms_table = t; alarm_list = alarms; event_id = e })) { event_id = e' }
        ≡ delete_oldest uint_to_str faults month_ago
            (record { alarms_table = t; alarm_list = alarms; event_id = e' })
  unfolding delete_oldest
  delete_oldest-event faults month_ago e e' t [] = refl
  delete_oldest-event faults month_ago e e' t (a ∷ rest) =
      delete_loop-event faults (suc (del_num month_ago rest)) a.uid e e' t (a ∷ rest)

  add_new-Runs :
      (f : Faults) (faults : ℕ → Faults) (month_ago first : ℕ) (a : Alarm) (c : AlarmCache)
      → IsRun uint_to_str first c
      → c.event_id + 2 < u64
      → Runs uint_to_str (add_new uint_to_str f faults month_ago a c)
  unfolding add_new
  add_new-Runs f faults month_ago first a c h p =
      let uid : ℕ = add64 c.event_id 1 in
      let up : uid ≡ suc c.event_id = omega arith in
      let a' : Alarm = record a { uid = uid; id = uint_to_str uid } in
      let more = length-append c.alarm_list (a' ∷ []) in
      elim (Result-cases (add_alarm_to_db uint_to_str f a' c.alarms_table)) [
        | inl (x, failed) ↦ rw (failed, add_new) (first, h)
        | inr (t, done) ↦
            let added : IsRun uint_to_str first (record {
              alarms_table = t;
              alarm_list = c.alarm_list ++ a' ∷ [];
              event_id = uid;
            }) =
              record {
                numbered = Numbered-append first c.alarm_list a' h.numbered (omega (arith, h.ends));
                ends = omega (arith, h.ends);
                stored = λ id.
                    ground
                      (arith, added-stored f a' id c.alarms_table done, h.stored id, more, h.ends);
              } in
            elim (Bool-cases (ltb max_alarm_count (length (c.alarm_list ++ a' ∷ [])))) [
              | inl over ↦
                  rw
                    (
                      done,
                      add_new,
                      over,
                      delete_oldest-event faults month_ago c.event_id uid t
                          (c.alarm_list ++ a' ∷ []),
                    )
                    (delete_oldest-Runs faults month_ago first uid t (c.alarm_list ++ a' ∷ []) added
                      (omega (arith, h.ends)))
              | inr room ↦ rw (done, add_new, room) (first, added)
            ]
      ]

  -- Whatever the database does, `add` keeps the numbers consecutive up to the counter, and keeps list
  -- and table at the same numbers, while the counter does not wrap.
  pub add-Runs :
      (f : Faults) (faults : ℕ → Faults) (month_ago first : ℕ) (a : Alarm) (c : AlarmCache)
      → IsRun uint_to_str first c
      → c.event_id + 2 < u64
      → Runs uint_to_str (add uint_to_str f faults month_ago a c)
  unfolding add
  add-Runs f faults month_ago first a c h p = elim (Option-cases (last? c.alarm_list)) [
    | inl empty ↦ rw (empty, add) (add_new-Runs f faults month_ago first (in_scope a) c h p)
    | inr (last, there) ↦ elim (Bool-cases (is_repeat last (in_scope a))) [
      | inl again ↦ rw (there, add, again) (first, h)
      | inr new ↦ rw (there, add, new) (add_new-Runs f faults month_ago first (in_scope a) c h p)
    ]
  ]
