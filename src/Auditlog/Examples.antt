-- ===== src/Auditlog/Examples.antt =====
-- A full log of two records, under unary keys.
use gao_cloud.Prelude.{ℕ, [], ◌∷◌, arith, lookup, same_key}
use gao_cloud.Samples.{unary, unary-IsFormat, all_fine}
use gao_cloud.Auditlog.{AuditLog, DefaultDriver, add_log}
use gao_cloud.Auditlog.Bound.{IsLog, add_log-IsLog}

abbrev log_of : ℕ → AuditLog
log_of uid = record {
  id = unary uid;
  uid = uid;
  user = "gao";
  source_address = "";
  operation = "create";
  resource_kind = "cluster";
  resource_path = "/";
  detail = "";
}

abbrev full : DefaultDriver
full = record {
  max_record_count = 2;
  table = (unary 1, log_of 1) ∷ (unary 2, log_of 2) ∷ [];
  first_id = 1;
  current_id = 2;
}

full-IsLog : IsLog unary full
unfolding lookup
full-IsLog = record {
  kept = λ id. ground (arith, same_key unary-IsFormat 1 id, same_key unary-IsFormat 2 id);
  ordered = omega arith;
  bounded = omega arith;
}

add_log-IsLog_example : IsLog unary (add_log unary all_fine all_fine (log_of 9) full).1
add_log-IsLog_example =
    add_log-IsLog unary-IsFormat all_fine all_fine (log_of 9) full full-IsLog (omega arith)
      (omega arith) (omega arith)
