-- ===== src/Approval/Chain.antt =====
-- agent/approval_workflow/workflow.py: the hash chain of an approval case. SHA-256 over canonical
-- JSON and the texts of points in time come from Python's library, so they are parameters; a point
-- in time is its number of microseconds.
use ai_native_governed_data.Prelude.{
  ℕ, zero, suc, ◌+◌, String, Bool, true, false, Option, none, some, List, [], ◌∷◌, ◌++◌,
  if◌then◌else◌, ◌==◌, length, string_discrete, ite,
}
use ai_native_governed_data.Prelude.Json.{Json, bool, text, dict}
use Prim.Native.String
use ai_native_governed_data.Incident.{
  PartitionIncidentEvidence, PartitionResponsePlan, IncidentResponseStep, evidence_to_dict,
  plan_to_dict, step_to_dict, kind_value, authority_value,
}
use ai_native_governed_data.Approval.{
  ApprovalStatus, pending, approval_status_value, ApprovalEventType, requested_event, system,
  ApprovalActor, ApprovalRequest, ApprovalAuditEvent, ApprovalCase, last, request_body, event_body,
}

pub record Services : Type 0 where
  pub sha256 : Json → String
  pub iso : ℕ → String
  -- `none` where `datetime.fromisoformat` raises.
  pub parse_iso : String → Option ℕ

-- An operation's result: a value, or the message of an `ApprovalTransitionError`.
pub data Checked (A : Type 0) : Type 0 where
  done : A → Checked A
  refused : String → Checked A

-- `s[:n]`
abbrev prefix : ℕ → String → String
prefix zero s = ""
prefix (suc n) String.[] = ""
prefix (suc n) (String.◌∷◌ c s) = String.◌∷◌ c (prefix n s)

abbrev pub is_requested : ApprovalEventType → Bool
is_requested t = elim t [ requested_event ↦ true | _ ↦ false ]

abbrev same_status : Option String → Option String → Bool
same_status none none = true
same_status (some s) (some t) = ite (string_discrete s t) true false
same_status _ _ = false

-- `event.request_hash == case.request.request_hash`, and the like.
abbrev pub same : String → String → Bool
same s t = ite (string_discrete s t) true false

module _ (services : Services) where
  -- The checks of one event, in order; `none` where all pass.
  unfoldable pub check_event :
      String → ℕ → String → Option String → ApprovalAuditEvent → Option String
  check_event request_hash expected_sequence previous_hash previous_status e =
      if e.sequence == expected_sequence
      then (if same e.request_hash request_hash
          then (if same e.previous_event_hash previous_hash
              then (if same_status e.previous_status previous_status
                  then (if same e.event_hash (services.sha256 (event_body e))
                      then none
                      else some "Approval audit event hash mismatch")
                  else some "Approval audit previous_status chain mismatch")
              else some "Approval audit hash chain previous hash mismatch")
          else some "Approval audit event references a different request hash")
      else some "Approval audit event sequence is not contiguous"

  -- The loop over the events, with its `previous_hash` and `previous_status`.
  unfoldable pub check_events :
      String → ℕ → String → Option String → List ApprovalAuditEvent → Option String
  check_events request_hash n previous_hash previous_status [] = none
  check_events request_hash n previous_hash previous_status (e ∷ es) =
      let rest =
        check_events request_hash (n + 1) e.event_hash (some (approval_status_value e.new_status))
          es in
      elim (check_event request_hash n previous_hash previous_status e) [
        | none ↦ rest
        | some m ↦ some m
      ]

  abbrev pub starts_with_request : List ApprovalAuditEvent → Option String
  starts_with_request [] = some "Approval case must start with REQUESTED event"
  starts_with_request (e ∷ es) =
      if is_requested e.event_type
      then none
      else some "Approval case must start with REQUESTED event"

  -- `none`, or the message of the error that is raised.
  unfoldable pub assert_integrity : ApprovalCase → Option String
  assert_integrity c =
      if same (services.sha256 (request_body c.request)) c.request.request_hash
      then elim (check_events c.request.request_hash 1 "" none c.events) [
        | none ↦ starts_with_request c.events
        | some m ↦ some m
      ]
      else some "Approval request hash mismatch"

  abbrev pub prototype :
      ℕ
      → ApprovalRequest
      → ApprovalEventType
      → Option String
      → ApprovalStatus
      → ℕ
      → ApprovalActor
      → String
      → String
      → String
      → ApprovalAuditEvent
  prototype sequence request event_type previous_status target occurred_at actor reason
        previous_event_hash event_hash =
      record {
        sequence = sequence;
        approval_id = request.approval_id;
        event_type = event_type;
        previous_status = previous_status;
        new_status = target;
        occurred_at = services.iso occurred_at;
        actor = actor;
        reason = reason;
        request_hash = request.request_hash;
        previous_event_hash = previous_event_hash;
        event_hash = event_hash;
      }

  unfoldable pub make_event :
      ℕ
      → ApprovalRequest
      → ApprovalEventType
      → Option String
      → ApprovalStatus
      → ℕ
      → ApprovalActor
      → String
      → String
      → ApprovalAuditEvent
  make_event sequence request event_type previous_status target occurred_at actor reason
        previous_event_hash =
      prototype sequence request event_type previous_status target occurred_at actor reason
        previous_event_hash
        (services.sha256 (
          event_body (
            prototype sequence request event_type previous_status target occurred_at actor reason
              previous_event_hash "")))

  -- The case with the event added, before it is checked.
  unfoldable pub extended :
      ApprovalCase
      → ApprovalAuditEvent
      → ApprovalEventType
      → ApprovalStatus
      → ApprovalActor
      → ℕ
      → String
      → ApprovalCase
  extended c previous event_type target actor at reason = record {
    request = c.request;
    events =
        c.events
        ++ make_event (length c.events + 1) c.request event_type
            (some (approval_status_value previous.new_status)) target at actor reason
            previous.event_hash
          ∷ [];
  }

  abbrev pub checked : ApprovalCase → Option String → Checked ApprovalCase
  checked c none = done c
  checked c (some m) = refused m

  -- `IndexError` where there is no event; the callers have checked that there is one.
  unfoldable pub append_event :
      ApprovalCase
      → ApprovalEventType
      → ApprovalStatus
      → ApprovalActor
      → ℕ
      → String
      → Checked ApprovalCase
  append_event c event_type target actor at reason = elim (last c.events) [
    | none ↦ refused "tuple index out of range"
    | some previous ↦
        checked (extended c previous event_type target actor at reason)
          (assert_integrity (extended c previous event_type target actor at reason))
  ]

  unfoldable pub fingerprint :
      PartitionIncidentEvidence → PartitionResponsePlan → IncidentResponseStep → String
  fingerprint incident_part partition_plan step = services.sha256 (
      dict (
        ("incident_partition", evidence_to_dict incident_part)
        ∷ ("partition_response_plan", plan_to_dict partition_plan)
        ∷ ("approval_step", step_to_dict step)
        ∷ []))

  abbrev pub seed :
      PartitionIncidentEvidence
      → PartitionResponsePlan
      → IncidentResponseStep
      → ℕ
      → ℕ
      → List (String × Json)
  seed incident_part partition_plan step requested_at expires_at =
      ("partition_key", text partition_plan.partition_key)
      ∷ ("action", text (kind_value step.action))
      ∷ ("authority", text (authority_value step.authority))
      ∷ ("policy_action", text partition_plan.policy_action)
      ∷ ("policy_reason", text partition_plan.policy_reason)
      ∷ ("evidence_fingerprint", text (fingerprint incident_part partition_plan step))
      ∷ ("requested_at", text (services.iso requested_at))
      ∷ ("expires_at", text (services.iso expires_at))
      ∷ ("execution_authorized_by_agent", bool false)
      ∷ []

  unfoldable pub new_request :
      PartitionIncidentEvidence
      → PartitionResponsePlan
      → IncidentResponseStep
      → ℕ
      → ℕ
      → ApprovalRequest
  new_request incident_part partition_plan step requested_at expires_at =
      let base = seed incident_part partition_plan step requested_at expires_at in
      let approval_id = String.◌++◌ "approval_" (prefix 20 (services.sha256 (dict base))) in
      record {
        approval_id = approval_id;
        partition_key = partition_plan.partition_key;
        action = kind_value step.action;
        authority = authority_value step.authority;
        policy_action = partition_plan.policy_action;
        policy_reason = partition_plan.policy_reason;
        evidence_fingerprint = fingerprint incident_part partition_plan step;
        request_hash = services.sha256 (dict (("approval_id", text approval_id) ∷ base));
        requested_at = services.iso requested_at;
        expires_at = services.iso expires_at;
        execution_authorized_by_agent = false;
      }

  abbrev pub workflow_actor : ApprovalActor
  workflow_actor = record {
    subject_id = "phase6f-approval-workflow";
    actor_type = system;
    authenticated = true;
    identity_source = "SYSTEM_POLICY";
  }

  unfoldable pub create_case :
      PartitionIncidentEvidence
      → PartitionResponsePlan
      → IncidentResponseStep
      → ℕ
      → ℕ
      → ApprovalCase
  create_case incident_part partition_plan step requested_at expires_at =
      let request = new_request incident_part partition_plan step requested_at expires_at in
      record {
        request = request;
        events =
            make_event 1 request requested_event none pending requested_at workflow_actor
              "human_required_response_step_created" ""
            ∷ [];
      }
