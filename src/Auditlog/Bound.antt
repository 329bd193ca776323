-- ===== src/Auditlog/Bound.antt =====
-- The records that the log keeps: consecutive, up to the last number, and at most as many as the
-- bound.
use gao_cloud.Prelude.{
  ℕ, suc, ◌+◌, ◌≤◌, ◌<◌, ◌≡◌, inl, inr, Bool, true, false, ◌&&◌, none, some, String, eq_refl, arith,
  leb, ltb, is_some, if◌then◌else◌, Map, lookup, ok, lookup-insert, Bool-cases, nat_eq, IsFormat,
  inserted, removed, Result-cases,
}
use gao_cloud.Kvzoo.{Faults}
use gao_cloud.Window.{u64, add64, sub64}
use gao_cloud.Auditlog.{AuditLog, DefaultDriver, delete_from_db, add_to_db, add_record, add_log}

abbrev pub between : ℕ → ℕ → ℕ → Bool
between first last id = leb 1 id && (leb first id && leb id last)

-- The records are those from the first number to the last, and are at most as many as the bound.
-- Numbers start at 1.
pub record IsLog (uint_to_str : ℕ → String) (d : DefaultDriver) : Type 0 where
  pub kept :
      (id : ℕ) → is_some (lookup (uint_to_str id) d.table) ≡ between d.first_id d.current_id id
  pub ordered : d.first_id ≤ d.current_id
  pub bounded : d.current_id < d.first_id + d.max_record_count

-- The driver counts one number up, and has the record under it.
abbrev pub Recorded : (ℕ → String) → DefaultDriver → AuditLog → DefaultDriver → Type 0
Recorded uint_to_str d a d' =
    (d'.current_id ≡ suc d.current_id)
    × (lookup (uint_to_str (suc d.current_id)) d'.table
        ≡ some (record a { uid = suc d.current_id; id = uint_to_str (suc d.current_id) }))

module _ {uint_to_str : ℕ → String} (format : IsFormat uint_to_str) where
  delete_from_db-kept :
      (f : Faults) (id other : ℕ) (t : Map AuditLog) {t' : Map AuditLog}
      → delete_from_db uint_to_str f id t ≡ ok t'
      → is_some (lookup (uint_to_str other) t')
        ≡ (if nat_eq id other then false else is_some (lookup (uint_to_str other) t))
  unfolding delete_from_db
  delete_from_db-kept f id other t h = ground (arith, removed format id other t)

  add_to_db-kept :
      (f : Faults) (id other : ℕ) (a : AuditLog) (t : Map AuditLog) {t' : Map AuditLog}
      → add_to_db uint_to_str f (record a { uid = id; id = uint_to_str id }) t ≡ ok t'
      → is_some (lookup (uint_to_str other) t')
        ≡ (if nat_eq id other then true else is_some (lookup (uint_to_str other) t))
  unfolding add_to_db
  add_to_db-kept f id other a t h =
      ground (arith, inserted format id other (record a { uid = id; id = uint_to_str id }) t)

  add_record-IsLog :
      (f : Faults) (a : AuditLog) (d : DefaultDriver)
      → IsLog uint_to_str d
      → d.current_id + 1 < u64
      → d.current_id + 1 < d.first_id + d.max_record_count
      → IsLog uint_to_str (add_record uint_to_str f a d).1
  unfolding add_record
  add_record-IsLog f a d h p room =
      let uid : ℕ = add64 d.current_id 1 in
      let up : uid ≡ suc d.current_id = omega arith in
      let new : AuditLog = record a { uid = uid; id = uint_to_str uid } in
      elim (Result-cases (add_to_db uint_to_str f new d.table)) [
        | inl (e, failed) ↦ rw (failed, add_record) h
        | inr (t, done) ↦
            rw (done, add_record)
              (record {
                kept = λ other.
                    ground
                      (arith, add_to_db-kept f uid other a d.table done, h.kept other, h.ordered);
                ordered = omega (arith, h.ordered);
                bounded = omega arith;
              })
      ]

  drop_first-IsLog :
      (f : Faults) (d : DefaultDriver) {t : Map AuditLog}
      → IsLog uint_to_str d
      → d.first_id < d.current_id
      → d.current_id < u64
      → delete_from_db uint_to_str f d.first_id d.table ≡ ok t
      → IsLog uint_to_str (record d { table = t; first_id = add64 d.first_id 1 })
  drop_first-IsLog f d h p q done = record {
    kept =
        λ other. ground (arith, delete_from_db-kept f d.first_id other d.table done, h.kept other);
    ordered = omega arith;
    bounded = omega (arith, h.bounded);
  }

  -- Whatever the database does, `add_log` keeps the log one whose records are consecutive and at most
  -- as many as the bound, which is at least 2, as long as the numbers do not wrap.
  pub add_log-IsLog :
      (f_delete f_add : Faults) (a : AuditLog) (d : DefaultDriver)
      → IsLog uint_to_str d
      → 2 ≤ d.max_record_count
      → d.max_record_count < u64
      → d.current_id + 1 < u64
      → IsLog uint_to_str (add_log uint_to_str f_delete f_add a d).1
  unfolding add_log
  add_log-IsLog f_delete f_add a d h two fits up =
      elim (Bool-cases (ltb (sub64 d.max_record_count 2) (sub64 d.current_id d.first_id))) [
        | inl full ↦ elim (Result-cases (delete_from_db uint_to_str f_delete d.first_id d.table)) [
          | inl (e, failed) ↦ rw (full, add_log, failed) h
          | inr (t, done) ↦
              let over : d.first_id < d.current_id = ground (arith, full, h.ordered) in
              rw (full, add_log, done)
                (add_record-IsLog f_add a (record d { table = t; first_id = add64 d.first_id 1 })
                  (drop_first-IsLog f_delete d h over (omega arith) done) up
                  (omega (arith, h.bounded)))
        ]
        | inr fits' ↦
            rw (fits', add_log) (add_record-IsLog f_add a d h up (ground (arith, fits', h.ordered)))
      ]

  add_record-Recorded :
      (f : Faults) (a : AuditLog) (d : DefaultDriver)
      → d.current_id + 1 < u64
      → (add_record uint_to_str f a d).0 ≡ none
      → Recorded uint_to_str d a (add_record uint_to_str f a d).1
  unfolding add_record add_to_db
  add_record-Recorded f a d up h =
      let next : add64 d.current_id 1 ≡ suc d.current_id = omega arith in
      let key = uint_to_str (suc d.current_id) in
      let put = lookup-insert key key (record a { uid = suc d.current_id; id = key }) d.table in
      (ground arith, ground (arith, next, put, eq_refl key))

  -- An `add_log` that succeeds counts one number up, and the table then has the record under that
  -- number. The number does not wrap.
  pub add_log-Recorded :
      (f_delete f_add : Faults) (a : AuditLog) (d : DefaultDriver)
      → d.current_id + 1 < u64
      → (add_log uint_to_str f_delete f_add a d).0 ≡ none
      → Recorded uint_to_str d a (add_log uint_to_str f_delete f_add a d).1
  unfolding add_log
  add_log-Recorded f_delete f_add a d up h =
      elim (Bool-cases (ltb (sub64 d.max_record_count 2) (sub64 d.current_id d.first_id))) [
        | inl full ↦ elim (Result-cases (delete_from_db uint_to_str f_delete d.first_id d.table)) [
          | inl (e, failed) ↦ cc (rw (full, add_log, failed) at h)
          | inr (t, done) ↦
              let d' : DefaultDriver = record d { table = t; first_id = add64 d.first_id 1 } in
              rw (full, add_log, done)
                (add_record-Recorded f_add a d' up (rw (full, add_log, done) at h))
        ]
        | inr fits ↦ rw (fits, add_log) (add_record-Recorded f_add a d up (rw (fits, add_log) at h))
      ]
