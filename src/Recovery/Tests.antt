-- ===== src/Recovery/Tests.antt =====
-- orchestration/dagster/commerce_dagster: small inputs, and the theorems at them.
use ai_native_governed_data.Prelude.{
  ◌≤◌, ◌≡◌, ◌≢◌, ◌↔◌, refl, true, false, none, some, List, [], ◌∷◌, strip, string_discrete,
}
use ai_native_governed_data.Prelude.Dict.{lookup}
use ai_native_governed_data.Recovery.Failure.{
  data_contract, parse_class, value_of, RawResult, mapping, other, DbtFailureObservation,
  DbtFailureClassification, dbt_artifact, reads, failed_test, failed_tests, classify_results,
  classify_dbt_failure, allow_step_retry,
}
use ai_native_governed_data.Recovery.Failure.Proven.{classify_dbt_failure-proven}
use ai_native_governed_data.Recovery.Policy.{
  auto_replay, observe, decide_recovery, decide_by_class, should_auto_replay, recovery_run_key,
  decimal,
}
use ai_native_governed_data.Recovery.Policy.Replay.{MayReplay, decide_recovery-auto_replay_iff}
use ai_native_governed_data.Recovery.State.{
  DagsterRun, RunStatus, Facts, is_auto, is_active, is_failed, is_success, failure_class_from_run,
  state_of, collect_partition_recovery_state,
}
use ai_native_governed_data.Recovery.Tags.{
  failure_class_tags, source_value, failure_class_tags-read,
}
use ai_native_governed_data.Recovery.Sensor.{launch, evaluate_from, shopify_daily_recovery_sensor}
use ai_native_governed_data.Recovery.Sensor.Bounded.{
  Happening, evaluate, other_run, new_status, live, happen, on_evaluation, unborn, launches-le_one,
}

program : Unit {0}
unfolding failure_class_tags source_value reads failed_test failed_tests classify_results
    classify_dbt_failure allow_step_retry parse_class value_of strip string_discrete lookup observe
    decide_recovery decide_by_class should_auto_replay recovery_run_key decimal is_auto is_active
    is_failed is_success failure_class_from_run state_of collect_partition_recovery_state
    shopify_daily_recovery_sensor evaluate_from live happen on_evaluation
program = tt

abbrev test_run : DbtFailureObservation
test_run = record {
  command_name = " Build";
  command_succeeded = false;
  run_results = some (
      mapping (some "model.m") (some "error")
      ∷ other
      ∷ mapping (some " test.orders_unique ") (some "FAIL ")
      ∷ mapping none (some "fail")
      ∷ []);
}

abbrev test_failed : DbtFailureClassification
test_failed = record {
  failure_class = data_contract;
  source = dbt_artifact;
  reason_code = "dbt_data_test_failed";
  failed_test_ids = "test.orders_unique" ∷ [];
}

classified_test : classify_dbt_failure test_run ≡ some test_failed
unfolding program
classified_test = refl

classify_dbt_failure-proven_example :
    (allow_step_retry data_contract ≡ false)
    × ((data_contract ≡ data_contract) ↔ (
        (test_run.command_succeeded ≡ false)
        × (reads test_run.command_name "parse" ≡ false)
        × ((results : List RawResult) × (test_run.run_results ≡ some results)
            × (failed_tests results ≢ [])
            × (test_failed.failed_test_ids ≡ failed_tests results))))
classify_dbt_failure-proven_example =
    classify_dbt_failure-proven test_run test_failed classified_test

abbrev broken_run : DagsterRun
broken_run = record {
  run_id = "r1";
  status = RunStatus.failure;
  tags = ("commerce/failure_class", "transient_runtime") ∷ [];
}

abbrev day : Facts
day = record {
  partition_key = "2026-08-02";
  is_materialized = λ key. false;
  runs = broken_run ∷ [];
  freshness_overdue = true;
  infrastructure_healthy = true;
  missed_schedule_eligible = false;
}

launched :
    shopify_daily_recovery_sensor (day ∷ [])
    ≡ launch (record {
      run_key = "shopify-daily-recovery:2026-08-02:attempt-1";
      partition_key = "2026-08-02";
      tags =
          ("commerce/automation", "recovery-sensor")
          ∷ ("commerce/recovery", "auto")
          ∷ ("commerce/recovery_attempt", "1")
          ∷ ("commerce/recovery_reason", "transient_failure_after_runtime_recovered")
          ∷ [];
    })
unfolding program
launched = refl

decimal_number : decimal 1205 ≡ "1205"
unfolding program
decimal_number = refl

decide_recovery-auto_replay_iff_example :
    ((decide_recovery (state_of day).observation 1).action ≡ auto_replay)
    ↔ MayReplay (state_of day).observation 1
decide_recovery-auto_replay_iff_example =
    decide_recovery-auto_replay_iff (state_of day).observation 1

abbrev twice : List Happening
twice =
    other_run broken_run
    ∷ evaluate (λ key. false) true true false
    ∷ new_status 0 RunStatus.failure
    ∷ evaluate (λ key. false) true true false
    ∷ []

launched_once : (live "2026-08-02" unborn twice).launches ≡ 1
unfolding program
launched_once = refl

launches-le_one_example : (live "2026-08-02" unborn twice).launches ≤ 1
unfolding program
launches-le_one_example = launches-le_one "2026-08-02" twice (refl, (tt, (tt, (tt, tt))))

abbrev tagged_run : DagsterRun
tagged_run = record {
  run_id = "r9";
  status = RunStatus.failure;
  tags =
      ("commerce/failure_class", "data_contract")
      ∷ ("commerce/failure_class_source", "dbt_artifact")
      ∷ ("commerce/failure_component", "dbt")
      ∷ ("commerce/failure_reason", "dbt_data_test_failed")
      ∷ ("commerce/failure_stage", "build")
      ∷ [];
}

failure_class_tags-read_example :
    (failure_class_from_run (some tagged_run) ≡ data_contract)
    × (lookup string_discrete "commerce/failure_class_source" tagged_run.tags ≡ some "dbt_artifact")
    × (lookup string_discrete "commerce/failure_component" tagged_run.tags ≡ some "dbt")
    × (lookup string_discrete "commerce/failure_reason" tagged_run.tags
        ≡ some "dbt_data_test_failed")
    × (lookup string_discrete "commerce/failure_stage" tagged_run.tags ≡ some "build")
unfolding program
failure_class_tags-read_example =
    failure_class_tags-read data_contract dbt_artifact "dbt" "dbt_data_test_failed" "build"
      tagged_run.tags [] tagged_run refl refl refl refl
