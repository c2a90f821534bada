-- ===== src/Incident.antt =====
-- agent/incident_drilldown/contracts.py and agent/incident_response/contracts.py: the evidence of an
-- incident, and the response plan that is made of it.
pub mod Evidence
pub mod Planner
pub mod Plans
pub mod Followed
pub mod Covered
pub mod Aggregate
pub mod Uniform
pub mod Drilldown
mod Tests
use ai_native_governed_data.Prelude.{
  ℕ, String, Bool, true, false, Option, none, some, List, [], ◌∷◌, any,
}
use ai_native_governed_data.Prelude.Json.{Json, null, bool, num, text, dict, list_of, text_or_null}

pub data IncidentDrilldownStatus : Type 0 where
  complete : IncidentDrilldownStatus
  partial : IncidentDrilldownStatus
  no_incident : IncidentDrilldownStatus
  deferred : IncidentDrilldownStatus
  blocked : IncidentDrilldownStatus
  error : IncidentDrilldownStatus

pub record FailedRunEvidence : Type 0 where
  pub run_id : String
  pub status : String
  pub failure_class : String
  pub failure_source : Option String
  pub failure_component : Option String
  pub failure_reason : Option String
  pub failure_stage : Option String

pub record RecoveryPolicySnapshot : Type 0 where
  pub action : String
  pub reason_code : String
  pub explanation : String
  pub observed_auto_replay_attempts : ℕ
  pub active_run_ids : List String
  pub active_recovery_run_ids : List String

pub record PartitionIncidentEvidence : Type 0 where
  pub partition_key : String
  pub freshness_overdue : Bool
  pub exact_partition_complete : Bool
  pub missing_mart_asset_keys : List String
  pub run_ids : List String
  pub failed_run_ids : List String
  pub successful_run_ids : List String
  pub latest_failed_run : Option FailedRunEvidence
  pub recovery : RecoveryPolicySnapshot
  pub infrastructure_healthy : Bool

pub record IncidentDrilldownResult : Type 0 where
  pub status : IncidentDrilldownStatus
  pub evidence : String
  pub partitions : List PartitionIncidentEvidence
  pub warnings : List String
  pub validation : String

pub data IncidentResponseStatus : Type 0 where
  no_action : IncidentResponseStatus
  waiting : IncidentResponseStatus
  delegated : IncidentResponseStatus
  human_action_required : IncidentResponseStatus
  partial : IncidentResponseStatus
  deferred : IncidentResponseStatus
  blocked : IncidentResponseStatus
  error : IncidentResponseStatus

-- `NONE` is `nobody` here, and `no_boundary` below.
pub data ResponseAuthority : Type 0 where
  nobody : ResponseAuthority
  dagster_recovery_sensor : ResponseAuthority
  dagster_run_owner : ResponseAuthority
  human_data_operator : ResponseAuthority
  platform_operator : ResponseAuthority

pub data ApprovalBoundary : Type 0 where
  no_boundary : ApprovalBoundary
  automation_policy_owned : ApprovalBoundary
  human_required : ApprovalBoundary

pub data ResponseActionKind : Type 0 where
  close_incident : ResponseActionKind
  wait_for_freshness_deadline : ResponseActionKind
  wait_for_active_run : ResponseActionKind
  wait_for_active_recovery : ResponseActionKind
  delegate_auto_replay : ResponseActionKind
  verify_exact_partition_completion : ResponseActionKind
  restore_infrastructure : ResponseActionKind
  reevaluate_recovery_policy : ResponseActionKind
  investigate_data_contract : ResponseActionKind
  fix_deterministic_code : ResponseActionKind
  investigate_unknown_failure : ResponseActionKind
  investigate_replay_exhaustion : ResponseActionKind
  validate_success_with_incomplete_partition : ResponseActionKind
  review_historical_no_run : ResponseActionKind
  approve_manual_backfill : ResponseActionKind
  manual_incident_review : ResponseActionKind

pub record IncidentResponseStep : Type 0 where
  pub sequence : ℕ
  pub action : ResponseActionKind
  pub authority : ResponseAuthority
  pub approval_boundary : ApprovalBoundary
  pub rationale : String
  pub executable_by_agent : Bool

pub record PartitionResponsePlan : Type 0 where
  pub partition_key : String
  pub status : IncidentResponseStatus
  pub policy_action : String
  pub policy_reason : String
  pub steps : List IncidentResponseStep

pub record IncidentResponsePlan : Type 0 where
  pub status : IncidentResponseStatus
  pub evidence : String
  pub partitions : List PartitionResponsePlan
  pub warnings : List String
  pub validation : String

unfoldable pub is_human_required : IncidentResponseStep → Bool
is_human_required step = elim step.approval_boundary [ human_required ↦ true | _ ↦ false ]

unfoldable pub human_approval_required : PartitionResponsePlan → Bool
human_approval_required plan = any is_human_required plan.steps

-- The enumerations' values.
unfoldable pub status_value : IncidentResponseStatus → String
status_value IncidentResponseStatus.no_action = "NO_ACTION"
status_value IncidentResponseStatus.waiting = "WAITING"
status_value IncidentResponseStatus.delegated = "DELEGATED"
status_value IncidentResponseStatus.human_action_required = "HUMAN_ACTION_REQUIRED"
status_value IncidentResponseStatus.partial = "PARTIAL"
status_value IncidentResponseStatus.deferred = "DEFERRED"
status_value IncidentResponseStatus.blocked = "BLOCKED"
status_value IncidentResponseStatus.error = "ERROR"

unfoldable pub authority_value : ResponseAuthority → String
authority_value nobody = "NONE"
authority_value dagster_recovery_sensor = "DAGSTER_RECOVERY_SENSOR"
authority_value dagster_run_owner = "DAGSTER_RUN_OWNER"
authority_value human_data_operator = "HUMAN_DATA_OPERATOR"
authority_value platform_operator = "PLATFORM_OPERATOR"

unfoldable pub boundary_value : ApprovalBoundary → String
boundary_value no_boundary = "NONE"
boundary_value automation_policy_owned = "AUTOMATION_POLICY_OWNED"
boundary_value human_required = "HUMAN_REQUIRED"

unfoldable pub kind_value : ResponseActionKind → String
kind_value close_incident = "CLOSE_INCIDENT"
kind_value wait_for_freshness_deadline = "WAIT_FOR_FRESHNESS_DEADLINE"
kind_value wait_for_active_run = "WAIT_FOR_ACTIVE_RUN"
kind_value wait_for_active_recovery = "WAIT_FOR_ACTIVE_RECOVERY"
kind_value delegate_auto_replay = "DELEGATE_AUTO_REPLAY"
kind_value verify_exact_partition_completion = "VERIFY_EXACT_PARTITION_COMPLETION"
kind_value restore_infrastructure = "RESTORE_INFRASTRUCTURE"
kind_value reevaluate_recovery_policy = "REEVALUATE_RECOVERY_POLICY"
kind_value investigate_data_contract = "INVESTIGATE_DATA_CONTRACT"
kind_value fix_deterministic_code = "FIX_DETERMINISTIC_CODE"
kind_value investigate_unknown_failure = "INVESTIGATE_UNKNOWN_FAILURE"
kind_value investigate_replay_exhaustion = "INVESTIGATE_REPLAY_EXHAUSTION"
kind_value validate_success_with_incomplete_partition = "VALIDATE_SUCCESS_WITH_INCOMPLETE_PARTITION"
kind_value review_historical_no_run = "REVIEW_HISTORICAL_NO_RUN"
kind_value approve_manual_backfill = "APPROVE_MANUAL_BACKFILL"
kind_value manual_incident_review = "MANUAL_INCIDENT_REVIEW"

-- The `to_dict` methods.
unfoldable pub failed_run_to_dict : FailedRunEvidence → Json
failed_run_to_dict e = dict (
    ("run_id", text e.run_id)
    ∷ ("status", text e.status)
    ∷ ("failure_class", text e.failure_class)
    ∷ ("failure_source", text_or_null e.failure_source)
    ∷ ("failure_component", text_or_null e.failure_component)
    ∷ ("failure_reason", text_or_null e.failure_reason)
    ∷ ("failure_stage", text_or_null e.failure_stage)
    ∷ [])

unfoldable pub snapshot_to_dict : RecoveryPolicySnapshot → Json
snapshot_to_dict r = dict (
    ("action", text r.action)
    ∷ ("reason_code", text r.reason_code)
    ∷ ("explanation", text r.explanation)
    ∷ ("observed_auto_replay_attempts", num r.observed_auto_replay_attempts)
    ∷ ("active_run_ids", list_of text r.active_run_ids)
    ∷ ("active_recovery_run_ids", list_of text r.active_recovery_run_ids)
    ∷ [])

abbrev failed_run_or_null : Option FailedRunEvidence → Json
failed_run_or_null none = null
failed_run_or_null (some e) = failed_run_to_dict e

unfoldable pub evidence_to_dict : PartitionIncidentEvidence → Json
unfolding failed_run_to_dict snapshot_to_dict
evidence_to_dict p = dict (
    ("partition_key", text p.partition_key)
    ∷ ("freshness_overdue", bool p.freshness_overdue)
    ∷ ("exact_partition_complete", bool p.exact_partition_complete)
    ∷ ("missing_mart_asset_keys", list_of text p.missing_mart_asset_keys)
    ∷ ("run_ids", list_of text p.run_ids)
    ∷ ("failed_run_ids", list_of text p.failed_run_ids)
    ∷ ("successful_run_ids", list_of text p.successful_run_ids)
    ∷ ("latest_failed_run", failed_run_or_null p.latest_failed_run)
    ∷ ("recovery", snapshot_to_dict p.recovery)
    ∷ ("infrastructure_healthy", bool p.infrastructure_healthy)
    ∷ [])

unfoldable pub step_to_dict : IncidentResponseStep → Json
unfolding kind_value authority_value boundary_value
step_to_dict step = dict (
    ("sequence", num step.sequence)
    ∷ ("action", text (kind_value step.action))
    ∷ ("authority", text (authority_value step.authority))
    ∷ ("approval_boundary", text (boundary_value step.approval_boundary))
    ∷ ("rationale", text step.rationale)
    ∷ ("executable_by_agent", bool step.executable_by_agent)
    ∷ [])

unfoldable pub plan_to_dict : PartitionResponsePlan → Json
unfolding status_value human_approval_required step_to_dict
plan_to_dict plan = dict (
    ("partition_key", text plan.partition_key)
    ∷ ("status", text (status_value plan.status))
    ∷ ("policy_action", text plan.policy_action)
    ∷ ("policy_reason", text plan.policy_reason)
    ∷ ("human_approval_required", bool (human_approval_required plan))
    ∷ ("steps", list_of step_to_dict plan.steps)
    ∷ [])
