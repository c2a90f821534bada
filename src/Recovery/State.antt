-- ===== src/Recovery/State.antt =====
-- orchestration/dagster/commerce_dagster/recovery_state_current.py: the facts of one partition, from
-- Dagster's records. The records are arguments: which asset has a materialization for the
-- partition, and the runs of the daily job for it, newest first.
use ai_native_governed_data.Prelude.{
  String, Bool, true, false, not, Option, none, some, List, [], ◌∷◌, keep, null, length, map,
  string_discrete, ite,
}
use ai_native_governed_data.Prelude.Dict.{lookup}
use ai_native_governed_data.Recovery.Failure.{FailureClass, no_failure, unknown, parse_class}
use ai_native_governed_data.Recovery.Policy.{RecoveryObservation, observe}

-- `dg.DagsterRunStatus`, by the members that the source names.
pub data RunStatus : Type 0 where
  not_started : RunStatus
  queued : RunStatus
  starting : RunStatus
  started : RunStatus
  managed : RunStatus
  canceling : RunStatus
  failure : RunStatus
  canceled : RunStatus
  success : RunStatus

unfoldable pub is_active : RunStatus → Bool
is_active failure = false
is_active canceled = false
is_active success = false
is_active _ = true

unfoldable pub is_failed : RunStatus → Bool
is_failed failure = true
is_failed canceled = true
is_failed _ = false

unfoldable pub is_success : RunStatus → Bool
is_success success = true
is_success _ = false

pub record DagsterRun : Type 0 where
  pub run_id : String
  pub status : RunStatus
  pub tags : List (String × String)

-- `run.tags.get(RECOVERY_TAG) == AUTO_RECOVERY_TAG_VALUE`
abbrev pub says_auto : Option String → Bool
says_auto none = false
says_auto (some v) = ite (string_discrete v "auto") true false

unfoldable pub is_auto : DagsterRun → Bool
is_auto run = says_auto (lookup string_discrete "commerce/recovery" run.tags)

abbrev pub class_of_tag : Option String → FailureClass
class_of_tag none = unknown
class_of_tag (some raw) = elim (parse_class raw) [ none ↦ unknown | some c ↦ c ]

unfoldable pub failure_class_from_run : Option DagsterRun → FailureClass
failure_class_from_run none = no_failure
failure_class_from_run (some run) =
    class_of_tag (lookup string_discrete "commerce/failure_class" run.tags)

pub record RecoveryRuntimeState : Type 0 where
  pub observation : RecoveryObservation
  pub missing_mart_asset_keys : List String
  pub run_ids : List String
  pub active_run_ids : List String
  pub failed_run_ids : List String
  pub successful_run_ids : List String
  pub latest_failed_run_id : Option String

-- consumer_sla.py
abbrev pub shopify_daily_mart_asset_keys : List String
shopify_daily_mart_asset_keys =
    "orders" ∷ "order_lifecycle_snapshot" ∷ "order_items" ∷ "payment_transactions" ∷ "refunds"
    ∷ "refund_items" ∷ "fulfillments" ∷ "fulfillment_items" ∷ "fulfillment_events" ∷ []

abbrev pub head : {A : Type 0} → List A → Option A
head [] = none
head (x ∷ xs) = some x

abbrev pub ids : List DagsterRun → List String
ids = map (λ run. run.run_id)

abbrev pub active_runs : List DagsterRun → List DagsterRun
active_runs = keep (λ run. is_active run.status)

abbrev pub failed_runs : List DagsterRun → List DagsterRun
failed_runs = keep (λ run. is_failed run.status)

abbrev pub successful_runs : List DagsterRun → List DagsterRun
successful_runs = keep (λ run. is_success run.status)

-- Dagster's records of one partition, and the verdicts that the caller brings.
pub record Facts : Type 0 where
  pub partition_key : String
  pub is_materialized : String → Bool
  pub runs : List DagsterRun
  pub freshness_overdue : Bool
  pub infrastructure_healthy : Bool
  pub missed_schedule_eligible : Bool

unfoldable pub state_of : Facts → RecoveryRuntimeState
state_of facts =
    let missing = keep (λ key. not (facts.is_materialized key)) shopify_daily_mart_asset_keys in
    let latest_failed = head (failed_runs facts.runs) in
    record {
      observation = record {
        partition_key = facts.partition_key;
        freshness_overdue = facts.freshness_overdue;
        materialized = null missing;
        active_run = not (null (active_runs facts.runs));
        failed_run = not (null (failed_runs facts.runs));
        successful_run = not (null (successful_runs facts.runs));
        failure_class = failure_class_from_run latest_failed;
        infrastructure_healthy = facts.infrastructure_healthy;
        auto_replay_attempts = length (keep is_auto facts.runs);
        missed_schedule_eligible = facts.missed_schedule_eligible;
      };
      missing_mart_asset_keys = missing;
      run_ids = ids facts.runs;
      active_run_ids = ids (active_runs facts.runs);
      failed_run_ids = ids (failed_runs facts.runs);
      successful_run_ids = ids (successful_runs facts.runs);
      latest_failed_run_id = elim latest_failed [ none ↦ none | some run ↦ some run.run_id ];
    }

-- `ValueError` for an empty partition key is `none`.
unfoldable pub collect_partition_recovery_state : Facts → Option RecoveryRuntimeState
unfolding state_of observe
collect_partition_recovery_state facts =
    let state = state_of facts in
    elim (observe state.observation) [ none ↦ none | some o ↦ some state ]
