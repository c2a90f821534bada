-- ===== src/Recovery/Policy.antt =====
-- orchestration/dagster/commerce_dagster/recovery_policy.py: the pure recovery decision. Counts are
-- natural numbers, so the two checks for negative ones have no counterpart.
pub mod Replay
use ai_native_governed_data.Prelude.{
  ℕ, ◌+◌, String, Bool, true, false, not, ◌&&◌, Option, none, some, leb, ltb, ◌==◌, if◌then◌else◌,
  is_empty, ◌/◌, ◌%◌, zero, suc,
}
use ai_native_governed_data.Recovery.Failure.{
  FailureClass, no_failure, transient_runtime, infrastructure_unavailable, deterministic_code,
  data_contract, unknown,
}
use Prim.Native.String

pub data RecoveryAction : Type 0 where
  no_action : RecoveryAction
  wait : RecoveryAction
  auto_replay : RecoveryAction
  alert_and_wait : RecoveryAction
  alert_manual : RecoveryAction

unfoldable pub action_value : RecoveryAction → String
action_value no_action = "no_action"
action_value wait = "wait"
action_value auto_replay = "auto_replay"
action_value alert_and_wait = "alert_and_wait"
action_value alert_manual = "alert_manual"

pub record RecoveryObservation : Type 0 where
  pub partition_key : String
  pub freshness_overdue : Bool
  pub materialized : Bool
  pub active_run : Bool
  pub failed_run : Bool
  pub successful_run : Bool
  pub failure_class : FailureClass
  pub infrastructure_healthy : Bool
  pub auto_replay_attempts : ℕ
  pub missed_schedule_eligible : Bool

-- `__post_init__`: `ValueError` is `none`.
unfoldable pub observe : RecoveryObservation → Option RecoveryObservation
observe observation = if is_empty observation.partition_key then none else some observation

pub record RecoveryDecision : Type 0 where
  pub action : RecoveryAction
  pub reason_code : String
  pub explanation : String

unfoldable pub should_auto_replay : RecoveryDecision → Bool
should_auto_replay decision = elim decision.action [ auto_replay ↦ true | _ ↦ false ]

abbrev pub default_max_auto_replays : ℕ
default_max_auto_replays = 1

abbrev decision : RecoveryAction → String → String → RecoveryDecision
decision action reason_code explanation = record {
  action = action;
  reason_code = reason_code;
  explanation = explanation;
}

-- The end of `decide_recovery`, by the class of the latest failed run.
unfoldable pub decide_by_class : FailureClass → RecoveryDecision
decide_by_class transient_runtime =
    decision auto_replay "transient_failure_after_runtime_recovered"
      "Transient failure and current infrastructure is healthy."
decide_by_class infrastructure_unavailable =
    decision auto_replay "infrastructure_failure_after_runtime_recovered"
      "Historical infrastructure failure is now recoverable because current infrastructure is healthy."
decide_by_class deterministic_code =
    decision alert_manual "deterministic_code_failure"
      "Repeating deterministic code failure will not repair it."
decide_by_class data_contract =
    decision alert_manual "data_contract_failure"
      "Investigate/quarantine the contract failure before replay."
decide_by_class _ =
    decision alert_manual "unknown_failure_class"
      "Root cause is not proven replay-safe; fail closed."

unfoldable pub decide_recovery : RecoveryObservation → ℕ → RecoveryDecision
decide_recovery observation max_auto_replays =
    if observation.materialized
    then decision no_action "partition_already_materialized" "Exact consumer partition is complete."
    else if not observation.freshness_overdue
    then decision wait "within_freshness_budget" "Consumer deadline has not been breached."
    else if observation.active_run
    then decision wait "active_run_owns_partition" "A run already owns this partition."
    else if not observation.infrastructure_healthy
    then decision alert_and_wait "infrastructure_unhealthy"
        "Current infrastructure is still unavailable."
    else if leb max_auto_replays observation.auto_replay_attempts
    then decision alert_manual "auto_replay_budget_exhausted"
        "Automatic cross-run replay budget is exhausted."
    else if observation.successful_run && not observation.materialized
    then decision alert_manual "successful_run_without_complete_partition"
        "A successful run exists but the exact consumer partition is incomplete."
    else if not observation.failed_run
    then (if observation.missed_schedule_eligible
        then decision auto_replay "missed_schedule_or_no_run"
            "Newest overdue partition has no run owner; launch one bounded replay."
        else decision alert_manual "historical_no_run_requires_manual_backfill"
            "No historical run does not prove a missed schedule; require explicit backfill.")
    else decide_by_class observation.failure_class

-- A number in decimal digits, as `f"{n}"` writes it; `n + 1` rounds are enough for `n`.
digit : ℕ → String
digit n =
    if n == 0
    then "0"
    else if n == 1
    then "1"
    else if n == 2
    then "2"
    else if n == 3
    then "3"
    else if n == 4
    then "4"
    else if n == 5
    then "5"
    else if n == 6
    then "6"
    else if n == 7
    then "7"
    else if n == 8
    then "8"
    else "9"

decimal_from : ℕ → ℕ → String
decimal_from zero n = ""
decimal_from (suc rounds) n =
    let rest = decimal_from rounds (n / 10) in
    if ltb n 10 then digit n else String.◌++◌ rest (digit (n % 10))

unfoldable pub decimal : ℕ → String
unfolding digit decimal_from
decimal n = decimal_from (n + 1) n

-- `none` where the source raises `ValueError`.
unfoldable pub recovery_run_key : String → ℕ → Option String
recovery_run_key partition_key attempt =
    if is_empty partition_key
    then none
    else if ltb attempt 1
    then none
    else some (
        String.◌++◌ "shopify-daily-recovery:"
          (String.◌++◌ partition_key (String.◌++◌ ":attempt-" (decimal attempt))))
