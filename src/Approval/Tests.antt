-- ===== src/Approval/Tests.antt =====
-- One approval case from its request to its use, and the theorems at it. The digest writes the value
-- out, so that different values have different digests here.
use ai_native_governed_data.Prelude.{
  ℕ, ◌+◌, ◌-◌, ◌*◌, String, true, false, none, some, List, [], ◌∷◌, ◌≡◌, ◌↔◌, refl, arith,
  string_discrete, strip, is_space, map, length, ◌≤◌, All,
}
use ai_native_governed_data.Prelude.Dict.{pop, lookup, insert}
use ai_native_governed_data.Prelude.Json.{Json, Items, Fields}
use ai_native_governed_data.Recovery.Policy.{decimal}
use ai_native_governed_data.Incident.{
  PartitionIncidentEvidence, PartitionResponsePlan, IncidentResponseStatus, IncidentResponseStep,
  IncidentDrilldownResult, IncidentDrilldownStatus, IncidentResponsePlan, ResponseActionKind,
  ResponseAuthority, ApprovalBoundary, kind_value, authority_value, boundary_value, status_value,
  is_human_required, human_approval_required, failed_run_to_dict, snapshot_to_dict,
  evidence_to_dict, step_to_dict, plan_to_dict,
}
use ai_native_governed_data.Approval.{
  eligible_for_external_execution, pending, approved, approval_status_value, event_type_value,
  actor_type_value, approved_event, human_operator, agent, ApprovalActor, ApprovalAuditEvent,
  ApprovalCase, ApprovalAuthorizationCheck, case_status, request_body, event_body,
}
use ai_native_governed_data.Approval.Chain.{
  Services, done, refused, check_event, check_events, assert_integrity, make_event, extended,
  append_event, fingerprint, new_request, create_case,
}
use ai_native_governed_data.Approval.Workflow.{
  validate_human_actor, unexpected, is_pending, decide_before, human_decision, approve, reject,
  expire, find_current_fingerprint, compare_evidence, answer_by_status,
  validate_for_external_execution,
}
use ai_native_governed_data.Approval.Lifecycle.{MayDecide, approve_iff}
use ai_native_governed_data.Approval.Lifetime.{
  Attempt, to_approve, to_reject, to_expire, attempt, live, Lives, live-created, live-decided,
}
use ai_native_governed_data.Approval.Prepare.{
  ApprovalWorkflowBundle, by_partition, collect_steps, open_requests, prepare,
}
use ai_native_governed_data.Approval.Prepare.Requests.{subject_of, human_actions, prepare-requests}
use ai_native_governed_data.Approval.Store.{
  JsonlApprovalAuditStore, stored, append_new_case, append_event_line, value_error,
}
use ai_native_governed_data.Approval.Store.Appended.{
  Call, new_case, event_of, call, calls, Appended,
}
use ai_native_governed_data.Approval.Eligible.{Counts, eligible_iff}
use Prim.Native.Char.{code}
use Prim.Native.String

mutual
  digest : Json → String
  digest Json.null = "-"
  digest (Json.bool true) = "t"
  digest (Json.bool false) = "f"
  digest (Json.num n) = decimal n
  digest (Json.text s) = String.◌++◌ "'" s
  digest (Json.arr xs) = String.◌++◌ "[" (digest_items xs)
  digest (Json.obj xs) = String.◌++◌ "{" (digest_fields xs)

  digest_items : Items → String
  digest_items Items.nil = "]"
  digest_items (Items.cons x xs) = String.◌++◌ (digest x) (digest_items xs)

  digest_fields : Fields → String
  digest_fields Fields.end = "}"
  digest_fields (Fields.field k x xs) = String.◌++◌ k (String.◌++◌ (digest x) (digest_fields xs))

read_from : ℕ → String → ℕ
read_from n String.[] = n
read_from n (String.◌∷◌ c s) = read_from (n * 10 + (code c - 48)) s

abbrev services : Services
services = record { sha256 = digest; iso = decimal; parse_iso = λ s. some (read_from 0 s) }

program : Unit {0}
unfolding append_new_case append_event_line call calls by_partition collect_steps open_requests
    prepare lookup insert digest read_from string_discrete strip is_space pop decimal kind_value
    authority_value boundary_value status_value is_human_required human_approval_required
    failed_run_to_dict snapshot_to_dict evidence_to_dict step_to_dict plan_to_dict
    approval_status_value event_type_value actor_type_value case_status request_body event_body
    check_event check_events assert_integrity make_event extended append_event fingerprint
    new_request create_case validate_human_actor unexpected is_pending decide_before human_decision
    approve reject expire find_current_fingerprint compare_evidence answer_by_status
    validate_for_external_execution attempt live
program = tt

abbrev part : PartitionIncidentEvidence
part = record {
  partition_key = "2026-08-01";
  freshness_overdue = true;
  exact_partition_complete = false;
  missing_mart_asset_keys = "orders" ∷ [];
  run_ids = [];
  failed_run_ids = [];
  successful_run_ids = [];
  latest_failed_run = none;
  recovery = record {
    action = "alert_manual";
    reason_code = "historical_no_run_requires_manual_backfill";
    explanation = "No historical run does not prove a missed schedule; require explicit backfill.";
    observed_auto_replay_attempts = 0;
    active_run_ids = [];
    active_recovery_run_ids = [];
  };
  infrastructure_healthy = true;
}

abbrev backfill : IncidentResponseStep
backfill = record {
  sequence = 1;
  action = ResponseActionKind.approve_manual_backfill;
  authority = ResponseAuthority.human_data_operator;
  approval_boundary = ApprovalBoundary.human_required;
  rationale = "";
  executable_by_agent = false;
}

abbrev response : PartitionResponsePlan
response = record {
  partition_key = "2026-08-01";
  status = IncidentResponseStatus.human_action_required;
  policy_action = "alert_manual";
  policy_reason = "historical_no_run_requires_manual_backfill";
  steps = backfill ∷ [];
}

abbrev opened : ApprovalCase
opened = create_case services part response backfill 100 160

abbrev operator : ApprovalActor
operator = record {
  subject_id = "alice";
  actor_type = human_operator;
  authenticated = true;
  identity_source = "AUTHENTICATED_UPSTREAM";
}

abbrev robot : ApprovalActor
robot = record {
  subject_id = "agent-1";
  actor_type = agent;
  authenticated = true;
  identity_source = "AUTHENTICATED_UPSTREAM";
}

abbrev trusted : List String
trusted = "AUTHENTICATED_UPSTREAM" ∷ []

self_approval :
    approve services trusted opened robot 120 "ok" none
    ≡ refused "Only HUMAN_OPERATOR may approve/reject a human approval request"
unfolding program
self_approval = refl

abbrev story : List Attempt
story =
    to_approve robot 120 "ok" none ∷ to_approve operator 130 " checked " none ∷ to_expire 200 ∷ []

abbrev closed : ApprovalCase
closed = live services trusted opened story

closed_status : case_status closed ≡ some approved
unfolding program
closed_status = refl

approve_iff_example :
    ((d : ApprovalCase) × (approve services trusted opened operator 130 "checked" none ≡ done d))
    ↔ MayDecide services trusted opened operator 130 "checked" none
approve_iff_example = approve_iff services trusted opened operator 130 "checked" none

live-created_example : Lives services trusted opened.request closed
unfolding program
live-created_example = live-created services trusted part response backfill 100 160 story

live-decided_example : live services trusted closed (to_reject operator 140 "no" none ∷ []) ≡ closed
live-decided_example =
    live-decided services trusted closed (to_reject operator 140 "no" none ∷ [])
      (λ h. ground (arith, closed_status))

abbrev verdict : ApprovalAuthorizationCheck
verdict = record {
  status = eligible_for_external_execution;
  approval_id = closed.request.approval_id;
  eligible_for_external_execution = true;
  agent_execution_allowed = false;
  reason =
      "Human approval is valid for the unchanged governed action package. External execution authority must still re-read current truth and execute outside the Agent.";
}

eligible_iff_example :
    ((verdict.eligible_for_external_execution ≡ true)
      ↔ Counts services closed (part ∷ []) (response ∷ []))
    × (verdict.agent_execution_allowed ≡ false)
unfolding program
eligible_iff_example = eligible_iff services closed (part ∷ []) (response ∷ []) 500 verdict refl

abbrev incident : IncidentDrilldownResult
incident = record {
  status = IncidentDrilldownStatus.complete;
  evidence = "RUNTIME_VERIFIED";
  partitions = part ∷ [];
  warnings = [];
  validation = "STRUCTURED_INCIDENT_EVIDENCE_COLLECTED";
}

abbrev response_plan : IncidentResponsePlan
response_plan = record {
  status = IncidentResponseStatus.human_action_required;
  evidence = "RUNTIME_VERIFIED";
  partitions = response ∷ [];
  warnings = [];
  validation = "ADVISORY_RESPONSE_PLAN_BUILT_NO_AGENT_EXECUTION_AUTHORITY";
}

abbrev bundle : ApprovalWorkflowBundle
bundle = prepare services "GATE" true 5 60 100 incident response_plan

prepare-requests_example :
    (map subject_of bundle.cases ≡ human_actions (response ∷ []))
    × (length bundle.cases ≤ 5)
    × All (λ c. (assert_integrity services c ≡ none) × (case_status c ≡ some pending)) bundle.cases
unfolding program
prepare-requests_example =
    prepare-requests services "GATE" true 5 60 100 incident response_plan refl

abbrev decision : ApprovalAuditEvent
decision =
    make_event services 2 opened.request approved_event (some "PENDING") approved 130 operator
      "checked" "hash"

abbrev empty_store : JsonlApprovalAuditStore
empty_store = record { is_allowed = true; lines = [] }

first_line : (append_new_case empty_store opened).1 ≡ stored
unfolding program
first_line = refl

-- The case stored, then its approval twice: under its request's hash, and under another.
abbrev requests : List Call
requests =
    new_case opened
    ∷ event_of opened.request.request_hash decision
    ∷ event_of "another hash" decision
    ∷ []

endings : (calls empty_store requests).1 ≡ stored ∷ stored ∷ value_error ∷ []
unfolding program
endings = refl
