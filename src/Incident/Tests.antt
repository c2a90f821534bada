-- ===== src/Incident/Tests.antt =====
-- Runs of the incident drilldown and the response planner at concrete records.
use ai_native_governed_data.Prelude.{
  says, if◌then◌else◌, String, true, false, Option, none, some, List, keep, [], ◌∷◌, ◌≡◌, ◌↔◌, refl,
  map, All, arith, string_discrete,
}
use ai_native_governed_data.Prelude.Dict.{lookup}
use ai_native_governed_data.Recovery.Failure.{parse_class, value_of}
use ai_native_governed_data.Recovery.Policy.{
  observe, default_max_auto_replays, decide_recovery, decide_by_class, action_value, decimal,
}
use ai_native_governed_data.Recovery.State.{
  shopify_daily_mart_asset_keys, Facts, DagsterRun, RunStatus, is_auto, is_active, is_failed,
  is_success, failure_class_from_run, state_of, collect_partition_recovery_state,
}
use ai_native_governed_data.Incident.{
  PartitionIncidentEvidence, IncidentDrilldownResult, IncidentDrilldownStatus,
  IncidentResponseStatus, IncidentResponseStep, PartitionResponsePlan, is_human_required,
  human_approval_required,
}
use ai_native_governed_data.Incident.Evidence.{
  latest_failed_run_evidence, run_tag, evidence_of, collect, deferred, result_of, inspect,
}
use ai_native_governed_data.Incident.Planner.{
  cause_step, blocked_plan, wait_plan, manual_plan, append_step, plan_partition,
}
use ai_native_governed_data.Incident.Aggregate.{
  distinct, is_blocked, is_human_action, is_delegated, is_waiting, is_no_action, overall,
  plan_incomplete, plan_complete, plan_by_status, plan,
}
use ai_native_governed_data.Incident.Plans.{
  AsksHuman, status_for, human_approval_required_iff, plan_partition-follows_policy,
}
use ai_native_governed_data.Prelude.Words.{member}
use ai_native_governed_data.Incident.Drilldown.{
  is_settled, is_recognised, first_unrecognised, check_classes, execute, Settled, execute-Settled,
}
use ai_native_governed_data.Incident.Followed.{Follows, plan-inspect}
use ai_native_governed_data.Incident.Covered.{is_due, keys_of, days_of, plan-covers}
use ai_native_governed_data.Incident.Uniform.{plan-uniform}

program : Unit {0}
unfolding is_due lookup string_discrete parse_class value_of observe decide_recovery decide_by_class
    action_value decimal is_auto is_active is_failed is_success failure_class_from_run state_of
    collect_partition_recovery_state is_human_required human_approval_required
    latest_failed_run_evidence run_tag evidence_of collect deferred result_of inspect cause_step
    blocked_plan wait_plan manual_plan append_step plan_partition distinct is_blocked
    is_human_action is_delegated is_waiting is_no_action overall plan_incomplete plan_complete
    plan_by_status plan member is_recognised first_unrecognised check_classes execute
program = tt

abbrev a_run : String → RunStatus → String → DagsterRun
a_run run_id status failure_class = record {
  run_id = run_id;
  status = status;
  tags = ("commerce/failure_class", failure_class) ∷ [];
}

abbrev a_day : String → DagsterRun → Facts
a_day key run = record {
  partition_key = key;
  is_materialized = λ asset. false;
  runs = run ∷ [];
  freshness_overdue = true;
  infrastructure_healthy = true;
  missed_schedule_eligible = false;
}

abbrev contract_run : DagsterRun
contract_run = a_run "r1" RunStatus.failure "data_contract"

abbrev running : DagsterRun
running = a_run "r2" RunStatus.started "unknown"

abbrev get_run : String → Option DagsterRun
get_run run_id = if says run_id "r1" then some contract_run else none

abbrev text_of : RunStatus → String
text_of status = elim status [ RunStatus.failure ↦ "FAILURE" | _ ↦ "STARTED" ]

abbrev two_days : List Facts
two_days = a_day "2026-08-01" contract_run ∷ a_day "2026-08-02" running ∷ []

abbrev incident : IncidentDrilldownResult
unfolding program
incident = inspect get_run text_of "unreadable" two_days

found : incident.status ≡ IncidentDrilldownStatus.complete
unfolding program
found = refl

mixed : (plan "GATE" true 7 incident).status ≡ IncidentResponseStatus.partial
unfolding program
mixed = refl

parts_of :
    map (λ (part : PartitionResponsePlan). part.status) (plan "GATE" true 7 incident).partitions
    ≡ IncidentResponseStatus.human_action_required ∷ IncidentResponseStatus.waiting ∷ []
unfolding program
parts_of = refl

too_many : (plan "GATE" true 1 incident).status ≡ IncidentResponseStatus.blocked
unfolding program
too_many = refl

plan-inspect_example :
    All
      (Follows two_days)
      (plan "GATE" true 7 (inspect get_run text_of "unreadable" two_days)).partitions
plan-inspect_example = plan-inspect get_run text_of "unreadable" two_days "GATE" true 7

-- One day more, on which everything is materialized.
abbrev three_days : List Facts
three_days = record (a_day "2026-07-31" running) { is_materialized = λ asset. true } ∷ two_days

abbrev evidence : List PartitionIncidentEvidence
unfolding program
evidence = (inspect get_run text_of "unreadable" three_days).partitions

plan-covers_example :
    keys_of (plan "GATE" true 7 (inspect get_run text_of "unreadable" three_days)).partitions
    ≡ days_of (keep is_due three_days)
unfolding program
plan-covers_example =
    plan-covers get_run text_of "unreadable" three_days evidence "GATE" 7 refl (omega arith)

both_due : days_of (keep is_due three_days) ≡ "2026-08-01" ∷ "2026-08-02" ∷ []
unfolding program
both_due = refl

abbrev one_failure : IncidentDrilldownResult
unfolding program
one_failure = inspect get_run text_of "unreadable" (a_day "2026-08-01" contract_run ∷ [])

plan-uniform_example :
    All
      (λ (part : PartitionResponsePlan). part.status ≡ (plan "GATE" true 7 one_failure).status)
      (plan "GATE" true 7 one_failure).partitions
unfolding program
plan-uniform_example =
    plan-uniform "GATE" true 7 one_failure ((λ h. ground arith), (λ h. ground arith))

abbrev item : PartitionIncidentEvidence
item = record {
  partition_key = "2026-08-01";
  freshness_overdue = true;
  exact_partition_complete = false;
  missing_mart_asset_keys = shopify_daily_mart_asset_keys;
  run_ids = "r1" ∷ [];
  failed_run_ids = "r1" ∷ [];
  successful_run_ids = [];
  latest_failed_run = some (record {
    run_id = "r1";
    status = "FAILURE";
    failure_class = "data_contract";
    failure_source = none;
    failure_component = none;
    failure_reason = none;
    failure_stage = none;
  });
  recovery = record {
    action = "alert_manual";
    reason_code = "data_contract_failure";
    explanation = "Investigate/quarantine the contract failure before replay.";
    observed_auto_replay_attempts = 0;
    active_run_ids = [];
    active_recovery_run_ids = [];
  };
  infrastructure_healthy = true;
}

numbered :
    map (λ (step : IncidentResponseStep). step.sequence) (plan_partition item).steps
    ≡ 1 ∷ 2 ∷ 3 ∷ []
unfolding program
numbered = refl

human_approval_required_iff_example :
    (human_approval_required (plan_partition item) ≡ true) ↔ AsksHuman (plan_partition item).status
human_approval_required_iff_example = human_approval_required_iff item

plan_partition-follows_policy_example :
    (plan_partition item).status
    ≡ status_for
        (decide_recovery
          (state_of (a_day "2026-08-01" contract_run)).observation
          default_max_auto_replays).action
unfolding program
plan_partition-follows_policy_example =
    plan_partition-follows_policy get_run text_of (a_day "2026-08-01" contract_run)
      (state_of (a_day "2026-08-01" contract_run)) item refl refl

settled : is_settled (execute 31 100 101 incident).status ≡ true
unfolding program incident
settled = refl

execute-Settled_example : Settled 31 100 101 incident (execute 31 100 101 incident)
execute-Settled_example = execute-Settled 31 100 101 incident settled

too_long : (execute 31 100 131 incident).validation ≡ "INCIDENT_PARTITION_LIMIT_EXCEEDED"
unfolding program
too_long = refl
