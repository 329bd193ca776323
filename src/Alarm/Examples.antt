-- ===== src/Alarm/Examples.antt =====
-- Three alarms of two clusters, under unary keys.
use gao_cloud.Prelude.{
  ℕ, ◌≡◌, ◌<◌, refl, true, false, String, [], ◌∷◌, arith, lookup, is_some, length, same_key,
}
use gao_cloud.Samples.{unary, unary-IsFormat, all_fine}
use gao_cloud.Alarm.{Alarm, AlarmCache, no_type, del_num, delete_oldest, publish_event}
use gao_cloud.Alarm.Store.{IsRun, Runs}
use gao_cloud.Alarm.Oldest.{delete_oldest-gap}
use gao_cloud.Alarm.Delivery.{newer, publish_event-caught_up, publish_event-again}
use gao_cloud.Alarm.Sources.{Env, AlarmManager, alarm_published, arrive, arrive-Runs}

abbrev alarm : ℕ → String → Alarm
alarm uid cluster = record {
  id = unary uid;
  uid = uid;
  time = 10;
  cluster = cluster;
  alarm_type = no_type;
  namespace = "";
  kind = "Node";
  name = "n1";
  reason = "lost";
  message = "";
  acknowledged = false;
}

abbrev stored : ℕ → String → String × Alarm
stored uid cluster = (unary uid, alarm uid cluster)

abbrev three : AlarmCache
three = record {
  alarms_table = stored 4 "local" ∷ stored 5 "test" ∷ stored 6 "local" ∷ [];
  alarm_list = alarm 4 "local" ∷ alarm 5 "test" ∷ alarm 6 "local" ∷ [];
  event_id = 6;
}

three-IsRun : IsRun unary 4 three
unfolding lookup
three-IsRun = record {
  numbered = (refl, (refl, (refl, tt)));
  ends = refl;
  stored = λ id. ground (
    arith,
    same_key unary-IsFormat 4 id,
    same_key unary-IsFormat 5 id,
    same_key unary-IsFormat 6 id,
  );
}

abbrev manager : AlarmManager
manager = record {
  cache = three;
  cluster_event_cache = ("local", record { cluster = "local"; start_time = 1 }) ∷ [];
}

abbrev env : Env
env = record { tx = all_fine; deletions = λ k. all_fine; month_ago = 20; now = 50 }

arrive-Runs_example : Runs unary (arrive unary env (alarm_published (alarm 0 "test")) manager).cache
arrive-Runs_example =
    arrive-Runs unary-IsFormat env (alarm_published (alarm 0 "test")) manager refl (4, three-IsRun)
      (omega arith)

delete_oldest-gap_example :
    let c' =
      delete_oldest unary
        (λ k. all_fine)
        20
        (record {
          alarms_table = stored 4 "local" ∷ stored 6 "local" ∷ [];
          alarm_list = alarm 4 "local" ∷ alarm 6 "local" ∷ [];
          event_id = 6;
        }) in
    (c'.alarm_list ≡ []) × (is_some (lookup (unary 6) c'.alarms_table) ≡ true)
unfolding del_num lookup
delete_oldest-gap_example =
    delete_oldest-gap unary (λ k. all_fine) 20 6 (stored 4 "local" ∷ stored 6 "local" ∷ [])
      (alarm 4 "local") (alarm 6 "local") [] unary-IsFormat (λ k. refl) (omega arith) refl
      (omega arith) (omega arith) refl

publish_event-caught_up_example : publish_event 4 three ≡ (6, alarm 5 "test" ∷ alarm 6 "local" ∷ [])
publish_event-caught_up_example =
    publish_event-caught_up 4 4 three three-IsRun (omega arith) (omega arith) (omega arith)

publish_event-again_example :
    let (id', sent) = publish_event 1 three in
    let (id'', again) = publish_event id' three in
    (sent ≡ three.alarm_list)
    × (id' < 6)
    × (again ≡ newer id' three.alarm_list)
    × (0 < length again)
publish_event-again_example =
    publish_event-again 1 4 three three-IsRun (omega arith) (omega arith) (omega arith)
