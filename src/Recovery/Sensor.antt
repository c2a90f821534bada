-- ===== src/Recovery/Sensor.antt =====
-- orchestration/dagster/commerce_dagster/sensors.py: one evaluation of the recovery sensor. The
-- candidate partitions and Dagster's records of them are arguments.
pub mod Bounded
use ai_native_governed_data.Prelude.{
  ℕ, ◌+◌, String, Bool, true, false, Option, none, some, List, [], ◌∷◌, if◌then◌else◌, null, ◌++◌,
}
use ai_native_governed_data.Recovery.Policy.{
  RecoveryDecision, decide_recovery, should_auto_replay, default_max_auto_replays, recovery_run_key,
  decimal,
}
use ai_native_governed_data.Recovery.State.{
  Facts, RecoveryRuntimeState, collect_partition_recovery_state,
}

-- `dg.RunRequest`
pub record RunRequest : Type 0 where
  pub run_key : String
  pub partition_key : String
  pub tags : List (String × String)

-- A skip carries the summaries of the partitions that were looked at.
pub data Evaluation : Type 0 where
  launch : RunRequest → Evaluation
  skip : List (String × String) → Evaluation
  failed : Evaluation

abbrev pub request_of : String → String → ℕ → RecoveryDecision → RunRequest
request_of run_key partition_key attempt decision = record {
  run_key = run_key;
  partition_key = partition_key;
  tags =
      ("commerce/automation", "recovery-sensor")
      ∷ ("commerce/recovery", "auto")
      ∷ ("commerce/recovery_attempt", decimal attempt)
      ∷ ("commerce/recovery_reason", decision.reason_code)
      ∷ [];
}

abbrev pub launch_or_fail : String → ℕ → RecoveryDecision → Option String → Evaluation
launch_or_fail partition_key attempt decision none = failed
launch_or_fail partition_key attempt decision (some run_key) =
    launch (request_of run_key partition_key attempt decision)

-- The loop over the candidates. `ValueError` for an empty key ends the evaluation.
unfoldable pub evaluate_from : List (String × String) → List Facts → Evaluation
evaluate_from summaries [] = skip summaries
evaluate_from summaries (facts ∷ candidates) = elim (collect_partition_recovery_state facts) [
  | none ↦ failed
  | some state ↦
      let decision = decide_recovery state.observation default_max_auto_replays in
      let attempt = state.observation.auto_replay_attempts + 1 in
      let rest =
        evaluate_from (summaries ++ (facts.partition_key, decision.reason_code) ∷ []) candidates in
      if should_auto_replay decision
      then launch_or_fail facts.partition_key attempt decision
          (recovery_run_key facts.partition_key attempt)
      else rest
]

unfoldable pub shopify_daily_recovery_sensor : List Facts → Evaluation
unfolding evaluate_from
shopify_daily_recovery_sensor candidates = evaluate_from [] candidates
