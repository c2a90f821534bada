-- ===== src/Approval/Workflow.antt =====
-- agent/approval_workflow/workflow.py: the decisions on an approval case and the check before an
-- external execution. The point in time, and the identity sources that the policy file trusts, are
-- arguments.
use ai_native_governed_data.Prelude.{
  ℕ, String, Bool, true, false, not, Option, none, some, List, if◌then◌else◌, leb, any, find_first,
  is_empty, strip, ◌&&◌,
}
use ai_native_governed_data.Incident.{
  PartitionIncidentEvidence, PartitionResponsePlan, IncidentResponseStep, is_human_required,
  kind_value, authority_value,
}
use ai_native_governed_data.Approval.{
  ApprovalStatus, pending, approved, rejected, expired, approval_status_value, ApprovalEventType,
  approved_event, rejected_event, expired_event, ApprovalActorType, human_operator, system,
  ApprovalActor, ApprovalRequest, ApprovalCase, ApprovalAuthorizationCheck,
  ApprovalAuthorizationStatus, eligible_for_external_execution, not_approved, authorization_expired,
  evidence_changed, action_no_longer_present, invalid_audit_chain, case_status,
}
use ai_native_governed_data.Approval.Chain.{
  Services, Checked, refused, same, assert_integrity, append_event, fingerprint,
}
use Prim.Native.String

abbrev is_human : ApprovalActorType → Bool
is_human t = elim t [ human_operator ↦ true | _ ↦ false ]

-- `none`, or the message of the error that is raised.
unfoldable pub validate_human_actor : List String → ApprovalActor → Option String
validate_human_actor trusted actor =
    if not (is_human actor.actor_type)
    then some "Only HUMAN_OPERATOR may approve/reject a human approval request"
    else if not actor.authenticated
    then some "Approval actor must be authenticated by a trusted upstream identity provider"
    else if not (any (same actor.identity_source) trusted)
    then some "Approval actor identity source is not trusted by policy"
    else if is_empty (strip actor.subject_id)
    then some "Approval actor subject_id must be non-empty"
    else none

-- `expected and expected != fingerprint`
unfoldable pub unexpected : Option String → String → Bool
unexpected none fingerprint = false
unexpected (some expected) fingerprint = not (is_empty expected) && not (same expected fingerprint)

unfoldable pub is_pending : ApprovalStatus → Bool
is_pending s = elim s [ pending ↦ true | _ ↦ false ]

module _ (services : Services) where
  -- The checks of a pending request, once the expiry is read.
  unfoldable pub decide_before :
      List String
      → ApprovalCase
      → ApprovalEventType
      → ApprovalStatus
      → ApprovalActor
      → ℕ
      → String
      → Option String
      → ℕ
      → Checked ApprovalCase
  decide_before trusted c event_type target actor at reason expected expires_at =
      if leb expires_at at
      then refused "Approval request is expired and cannot be approved/rejected"
      else elim (validate_human_actor trusted actor) [
        | some m ↦ refused m
        | none ↦
            if is_empty (strip reason)
            then refused "Human approval/rejection reason must be non-empty"
            else if unexpected expected c.request.evidence_fingerprint
            then refused "Caller expected evidence fingerprint does not match approval request"
            else append_event services c event_type target actor at (strip reason)
      ]

  unfoldable pub human_decision :
      List String
      → ApprovalCase
      → ApprovalEventType
      → ApprovalStatus
      → ApprovalActor
      → ℕ
      → String
      → Option String
      → Checked ApprovalCase
  human_decision trusted c event_type target actor at reason expected =
      elim (assert_integrity services c) [
        | some m ↦ refused m
        | none ↦ elim (case_status c) [
          | none ↦ refused "tuple index out of range"
          | some s ↦
              if not (is_pending s)
              then refused (
                  String.◌++◌ "Approval terminal state is immutable; current status="
                    (approval_status_value s))
              else elim (services.parse_iso c.request.expires_at) [
                | none ↦ refused "Invalid isoformat string"
                | some expires_at ↦
                    decide_before trusted c event_type target actor at reason expected expires_at
              ]
        ]
      ]

  unfoldable pub approve :
      List String → ApprovalCase → ApprovalActor → ℕ → String → Option String → Checked ApprovalCase
  approve trusted c = human_decision trusted c approved_event approved

  unfoldable pub reject :
      List String → ApprovalCase → ApprovalActor → ℕ → String → Option String → Checked ApprovalCase
  reject trusted c = human_decision trusted c rejected_event rejected

  abbrev pub expiry_policy : ApprovalActor
  expiry_policy = record {
    subject_id = "phase6f-expiry-policy";
    actor_type = system;
    authenticated = true;
    identity_source = "SYSTEM_POLICY";
  }

  unfoldable pub expire : ApprovalCase → ℕ → Checked ApprovalCase
  expire c at = elim (assert_integrity services c) [
    | some m ↦ refused m
    | none ↦ elim (case_status c) [
      | none ↦ refused "tuple index out of range"
      | some s ↦
          if not (is_pending s)
          then refused (
              String.◌++◌ "Only PENDING approval can expire; current status="
                (approval_status_value s))
          else elim (services.parse_iso c.request.expires_at) [
            | none ↦ refused "Invalid isoformat string"
            | some expires_at ↦
                if leb expires_at at
                then append_event services c expired_event expired expiry_policy at
                    "approval_ttl_expired"
                else refused "Approval is not yet due for expiry"
          ]
    ]
  ]

  abbrev pub wanted_step : ApprovalRequest → IncidentResponseStep → Bool
  wanted_step request x =
      same (kind_value x.action) request.action
      && (same (authority_value x.authority) request.authority && is_human_required x)

  unfoldable pub find_current_fingerprint :
      ApprovalRequest → List PartitionIncidentEvidence → List PartitionResponsePlan → Option String
  find_current_fingerprint request incident response_plan =
      elim (find_first (λ x. same x.partition_key request.partition_key) incident) [
        | none ↦ none
        | some incident_part ↦
            elim (find_first (λ x. same x.partition_key request.partition_key) response_plan) [
              | none ↦ none
              | some partition_plan ↦ elim (find_first (wanted_step request) partition_plan.steps) [
                | none ↦ none
                | some step ↦ some (fingerprint services incident_part partition_plan step)
              ]
            ]
      ]

  abbrev pub answer :
      ApprovalCase → ApprovalAuthorizationStatus → Bool → String → ApprovalAuthorizationCheck
  answer c status is_eligible reason = record {
    status = status;
    approval_id = c.request.approval_id;
    eligible_for_external_execution = is_eligible;
    agent_execution_allowed = false;
    reason = reason;
  }

  -- The comparison of an approved request with the current evidence.
  unfoldable pub compare_evidence : ApprovalCase → Option String → ApprovalAuthorizationCheck
  compare_evidence c none =
      answer c action_no_longer_present false
        "The exact partition/action is no longer present in the current governed response plan."
  compare_evidence c (some current) =
      if same current c.request.evidence_fingerprint
      then answer c eligible_for_external_execution true
          "Human approval is valid for the unchanged governed action package. External execution authority must still re-read current truth and execute outside the Agent."
      else answer c evidence_changed false
          "Current incident/response evidence differs from the evidence approved by the human operator."

  abbrev pub pending_answer : ApprovalCase → ℕ → ℕ → ApprovalAuthorizationCheck
  pending_answer c at expires_at =
      if leb expires_at at
      then answer c authorization_expired false
          "Approval TTL has elapsed; pending approval cannot authorize an external action."
      else answer c not_approved false "Approval is still PENDING."

  -- The result is `none` where reading the expiry raises.
  unfoldable pub answer_by_status :
      ApprovalCase → Option String → ℕ → ApprovalStatus → Option ApprovalAuthorizationCheck
  answer_by_status c current at pending = elim (services.parse_iso c.request.expires_at) [
    | none ↦ none
    | some expires_at ↦ some (pending_answer c at expires_at)
  ]
  answer_by_status c current at expired =
      some (answer c authorization_expired false "Approval is EXPIRED.")
  answer_by_status c current at rejected =
      some (answer c not_approved false "Approval is REJECTED, not APPROVED.")
  answer_by_status c current at approved = some (compare_evidence c current)

  unfoldable pub validate_for_external_execution :
      ApprovalCase
      → List PartitionIncidentEvidence
      → List PartitionResponsePlan
      → ℕ
      → Option ApprovalAuthorizationCheck
  validate_for_external_execution c incident response_plan at = elim (assert_integrity services c) [
    | some m ↦ some (answer c invalid_audit_chain false m)
    | none ↦ elim (case_status c) [
      | none ↦ none
      | some s ↦ answer_by_status c (find_current_fingerprint c.request incident response_plan) at s
    ]
  ]
