-- ===== src/Incident/Planner.antt =====
-- agent/incident_response/planner.py: the advisory plan. The gate's variable, its value and the
-- limit come from the environment and the policy file, so they are arguments.
use ai_native_governed_data.Prelude.{
  ℕ, String, false, not, ◌||◌, Option, none, some, List, [], ◌∷◌, ◌++◌, ◌+◌, length, if◌then◌else◌,
  null, says,
}
use ai_native_governed_data.Incident.{
  FailedRunEvidence, PartitionIncidentEvidence, IncidentResponseStatus, IncidentResponseStep,
  PartitionResponsePlan, ResponseActionKind, close_incident, wait_for_freshness_deadline,
  wait_for_active_run, wait_for_active_recovery, delegate_auto_replay,
  verify_exact_partition_completion, restore_infrastructure, reevaluate_recovery_policy,
  investigate_data_contract, fix_deterministic_code, investigate_unknown_failure,
  investigate_replay_exhaustion, validate_success_with_incomplete_partition,
  review_historical_no_run, approve_manual_backfill, manual_incident_review, ResponseAuthority,
  nobody, dagster_recovery_sensor, dagster_run_owner, human_data_operator, platform_operator,
  ApprovalBoundary, no_boundary, automation_policy_owned, human_required,
}
use Prim.Native.String

abbrev advise :
    ℕ → ResponseActionKind → ResponseAuthority → ApprovalBoundary → String → IncidentResponseStep
advise seq kind authority boundary rationale = record {
  sequence = seq;
  action = kind;
  authority = authority;
  approval_boundary = boundary;
  rationale = rationale;
  executable_by_agent = false;
}

abbrev plan_of :
    PartitionIncidentEvidence
    → IncidentResponseStatus
    → List IncidentResponseStep
    → PartitionResponsePlan
plan_of item status steps = record {
  partition_key = item.partition_key;
  status = status;
  policy_action = item.recovery.action;
  policy_reason = item.recovery.reason_code;
  steps = steps;
}

unfoldable pub blocked_plan : PartitionIncidentEvidence → String → PartitionResponsePlan
blocked_plan item rationale =
    plan_of item IncidentResponseStatus.blocked
      (advise 1 manual_incident_review human_data_operator human_required rationale ∷ [])

unfoldable pub wait_plan : PartitionIncidentEvidence → PartitionResponsePlan
unfolding blocked_plan
wait_plan item =
    if not (null item.recovery.active_recovery_run_ids)
    then plan_of item IncidentResponseStatus.waiting (
        advise 1 wait_for_active_recovery dagster_recovery_sensor automation_policy_owned
          "An active recovery run already owns this partition; do not create a duplicate replay."
        ∷ advise 2 verify_exact_partition_completion dagster_recovery_sensor automation_policy_owned
            "Re-evaluate exact-partition completeness after the existing recovery run finishes."
        ∷ [])
    else if not (null item.recovery.active_run_ids)
    then plan_of item IncidentResponseStatus.waiting (
        advise 1 wait_for_active_run dagster_run_owner automation_policy_owned
          "An active Dagster run owns this partition; wait instead of launching another run."
        ∷ advise 2 verify_exact_partition_completion dagster_run_owner automation_policy_owned
            "Verify exact-partition completeness after the active run finishes."
        ∷ [])
    else if says item.recovery.reason_code "within_freshness_budget"
    then plan_of item IncidentResponseStatus.waiting (
        advise 1 wait_for_freshness_deadline nobody no_boundary
          "The consumer freshness deadline has not been breached; intervention is not yet authorized."
        ∷ [])
    else blocked_plan item
        "WAIT policy has no active owner and is not explained by the freshness budget."

abbrev class_of : Option FailedRunEvidence → String
class_of none = "unknown"
class_of (some run) = run.failure_class

-- The first step of a manual plan, by the policy's reason and the latest failed run's class.
unfoldable pub cause_step : String → String → IncidentResponseStep
cause_step reason failure_class =
    if says reason "data_contract_failure" || says failure_class "data_contract"
    then advise 1 investigate_data_contract human_data_operator human_required
        "Inspect the structured dbt/data-contract failure, correct or quarantine the invalid data, and re-run validation before backfill."
    else if says reason "deterministic_code_failure" || says failure_class "deterministic_code"
    then advise 1 fix_deterministic_code human_data_operator human_required
        "Fix and validate the deterministic code defect before replaying the same partition."
    else if says reason "auto_replay_budget_exhausted"
    then advise 1 investigate_replay_exhaustion human_data_operator human_required
        "Automatic replay budget is exhausted; inspect repeated failures before any additional execution."
    else if says reason "successful_run_without_complete_partition"
    then advise 1 validate_success_with_incomplete_partition human_data_operator human_required
        "A SUCCESS run exists but exact consumer partition remains incomplete; reconcile asset materialization truth before backfill."
    else if says reason "historical_no_run_requires_manual_backfill"
    then advise 1 review_historical_no_run human_data_operator human_required
        "No historical run does not prove a missed schedule; confirm the historical gap really requires backfill."
    else if says reason "unknown_failure_class"
        || (says failure_class "unknown" || says failure_class "none")
    then advise 1 investigate_unknown_failure human_data_operator human_required
        "Failure is not proven replay-safe; establish a structured cause before any replay/backfill."
    else advise 1 manual_incident_review human_data_operator human_required
        "Phase 3C requires manual handling; inspect structured incident evidence before authorizing execution."

-- `steps.append(step(len(steps) + 1, …))`, a human operator's step.
unfoldable pub append_step :
    List IncidentResponseStep → ResponseActionKind → String → List IncidentResponseStep
append_step steps kind rationale =
    steps ++ advise (length steps + 1) kind human_data_operator human_required rationale ∷ []

unfoldable pub manual_plan : PartitionIncidentEvidence → PartitionResponsePlan
unfolding cause_step append_step
manual_plan item =
    let steps = cause_step item.recovery.reason_code (class_of item.latest_failed_run) ∷ [] in
    let approved =
      append_step steps approve_manual_backfill
        "Only after remediation/validation may a human explicitly authorize manual backfill; the Agent does not launch it." in
    plan_of item IncidentResponseStatus.human_action_required (
      append_step approved verify_exact_partition_completion
        "Close the incident only after all required consumer marts are complete for the exact partition.")

unfoldable pub plan_partition : PartitionIncidentEvidence → PartitionResponsePlan
unfolding blocked_plan wait_plan manual_plan
plan_partition item =
    if item.exact_partition_complete
    then plan_of item IncidentResponseStatus.no_action
        (advise 1 close_incident nobody no_boundary "Exact partition is already complete." ∷ [])
    else if says item.recovery.action "wait"
    then wait_plan item
    else if says item.recovery.action "auto_replay"
    then plan_of item IncidentResponseStatus.delegated (
        advise 1 delegate_auto_replay dagster_recovery_sensor automation_policy_owned
          "Phase 3C policy permits one bounded replay; the existing Dagster recovery sensor owns execution, not the Agent."
        ∷ advise 2 verify_exact_partition_completion dagster_recovery_sensor automation_policy_owned
            "After replay, require exact consumer partition completion before closing the incident."
        ∷ [])
    else if says item.recovery.action "alert_and_wait"
    then plan_of item IncidentResponseStatus.human_action_required (
        advise 1 restore_infrastructure platform_operator human_required
          "Current infrastructure is unhealthy; restore runtime dependencies before any replay is considered."
        ∷ advise 2 reevaluate_recovery_policy human_data_operator human_required
            "After infrastructure health is restored, re-read current partition truth and re-evaluate Phase 3C recovery policy."
        ∷ [])
    else if not (says item.recovery.action "alert_manual")
    then blocked_plan item
        (String.◌++◌ "Unrecognized Phase 3C recovery action: " item.recovery.action)
    else manual_plan item
