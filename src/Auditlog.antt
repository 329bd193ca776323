-- ===== src/Auditlog.antt =====
-- pkg/auditlog/storage/storage.go and `List` of pkg/auditlog/auditlog.go: the log of what users did,
-- which keeps a bounded number of records in a table. `strconv.FormatUint` is a parameter.
pub mod Bound
mod Examples
use gao_cloud.Prelude.{
  ℕ, ◌%◌, Bool, true, false, Option, none, some, String, ◌==◌, List, [], ◌∷◌, map, keep, head?,
  last?, ltb, if◌then◌else◌, Map, lookup, insert, remove, Result, ok, err, guard, ◌>>=◌, ◌>>◌,
  sort_by,
}
use mathlib.Core.List.{reverse}
use gao_cloud.Kvzoo
use gao_cloud.Kvzoo.{KvError, Faults, transact, begin_failed}
use gao_cloud.Authorization.{administrator}
use gao_cloud.Window.{u64, add64, sub64}

-- pkg/types/auditlog.go
pub record AuditLog : Type 0 where
  pub id : String
  pub uid : ℕ
  pub user : String
  pub source_address : String
  pub operation : String
  pub resource_kind : String
  pub resource_path : String
  pub detail : String

pub record DefaultDriver : Type 0 where
  pub max_record_count : ℕ
  pub table : Map AuditLog
  pub first_id : ℕ
  pub current_id : ℕ

abbrev pub max_audit_log_count : ℕ
max_audit_log_count = 1000

unfoldable pub list_from_db : Bool → Map AuditLog → Result KvError (List AuditLog)
list_from_db begins t = do guard begins begin_failed; ok (map (λ entry. entry.1) t)

-- `initDB`: the first and the last number of the sorted records.
unfoldable pub init_db : List AuditLog → DefaultDriver → DefaultDriver
init_db logs d = elim (head? (sort_by (λ a. a.uid) logs)) [
  | none ↦ d
  | some front ↦ elim (last? (sort_by (λ a. a.uid) logs)) [
    | none ↦ d
    | some back ↦ record d { first_id = front.uid; current_id = back.uid }
  ]
]

unfoldable pub new_default_driver : Bool → Map AuditLog → ℕ → Result KvError DefaultDriver
unfolding list_from_db init_db
new_default_driver begins t max = do
  logs ← list_from_db begins t
  ok (init_db logs (record { max_record_count = max; table = t; first_id = 0; current_id = 0 }))

-- `AuditLogger.List`: the newest first, and for a user other than the administrator its own.
unfoldable pub list_logs : Bool → String → DefaultDriver → Result KvError (List AuditLog)
unfolding list_from_db
list_logs begins user d = do
  logs ← list_from_db begins d.table
  ok (
      let sorted : List AuditLog = reverse (sort_by (λ a. a.uid) logs) in
      if user == administrator then sorted else keep (λ a. a.user == user) sorted)

module _ (uint_to_str : ℕ → String) where
  unfoldable pub delete_from_db : Faults → ℕ → Map AuditLog → Result KvError (Map AuditLog)
  unfolding Kvzoo.delete
  delete_from_db f id t = transact f (Kvzoo.delete f (uint_to_str id)) t

  unfoldable pub add_to_db : Faults → AuditLog → Map AuditLog → Result KvError (Map AuditLog)
  unfolding Kvzoo.add
  add_to_db f a t = transact f (Kvzoo.add f a.id a) t

  -- The end of `Add`, when there is room.
  unfoldable pub add_record : Faults → AuditLog → DefaultDriver → Option KvError × DefaultDriver
  unfolding add_to_db
  add_record f a d =
      let uid : ℕ = add64 d.current_id 1 in
      elim (add_to_db f (record a { uid = uid; id = uint_to_str uid }) d.table) [
        | err e ↦ (some e, d)
        | ok t ↦ (none, record d { table = t; current_id = uid })
      ]

  -- The oldest record goes first where the log is full: two transactions.
  unfoldable pub add_log :
      Faults → Faults → AuditLog → DefaultDriver → Option KvError × DefaultDriver
  unfolding delete_from_db add_record
  add_log f_delete f_add a d =
      if ltb (sub64 d.max_record_count 2) (sub64 d.current_id d.first_id)
      then elim (delete_from_db f_delete d.first_id d.table) [
        | err e ↦ (some e, d)
        | ok t ↦ add_record f_add a (record d { table = t; first_id = add64 d.first_id 1 })
      ]
      else add_record f_add a d
