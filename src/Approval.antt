-- ===== src/Approval.antt =====
-- agent/approval_workflow/contracts.py: approval requests, their audit events and their cases.
pub mod Chain
pub mod Workflow
pub mod Intact
pub mod Lifecycle
pub mod Lifetime
pub mod Eligible
pub mod Store
pub mod Prepare
mod Tests
use ai_native_governed_data.Prelude.{
  ℕ, String, Bool, Option, none, some, List, [], ◌∷◌, string_discrete,
}
use ai_native_governed_data.Prelude.Dict.{pop}
use ai_native_governed_data.Prelude.Json.{Json, bool, num, text, dict, text_or_null}

pub data ApprovalStatus : Type 0 where
  pending : ApprovalStatus
  approved : ApprovalStatus
  rejected : ApprovalStatus
  expired : ApprovalStatus

pub data ApprovalEventType : Type 0 where
  requested_event : ApprovalEventType
  approved_event : ApprovalEventType
  rejected_event : ApprovalEventType
  expired_event : ApprovalEventType

pub data ApprovalActorType : Type 0 where
  human_operator : ApprovalActorType
  system : ApprovalActorType
  agent : ApprovalActorType

pub data ApprovalAuthorizationStatus : Type 0 where
  eligible_for_external_execution : ApprovalAuthorizationStatus
  not_approved : ApprovalAuthorizationStatus
  authorization_expired : ApprovalAuthorizationStatus
  evidence_changed : ApprovalAuthorizationStatus
  action_no_longer_present : ApprovalAuthorizationStatus
  invalid_audit_chain : ApprovalAuthorizationStatus

unfoldable pub approval_status_value : ApprovalStatus → String
approval_status_value pending = "PENDING"
approval_status_value approved = "APPROVED"
approval_status_value rejected = "REJECTED"
approval_status_value expired = "EXPIRED"

unfoldable pub event_type_value : ApprovalEventType → String
event_type_value requested_event = "REQUESTED"
event_type_value approved_event = "APPROVED"
event_type_value rejected_event = "REJECTED"
event_type_value expired_event = "EXPIRED"

unfoldable pub actor_type_value : ApprovalActorType → String
actor_type_value human_operator = "HUMAN_OPERATOR"
actor_type_value system = "SYSTEM"
actor_type_value agent = "AGENT"

pub record ApprovalActor : Type 0 where
  pub subject_id : String
  pub actor_type : ApprovalActorType
  pub authenticated : Bool
  pub identity_source : String

pub record ApprovalRequest : Type 0 where
  pub approval_id : String
  pub partition_key : String
  pub action : String
  pub authority : String
  pub policy_action : String
  pub policy_reason : String
  pub evidence_fingerprint : String
  pub request_hash : String
  pub requested_at : String
  pub expires_at : String
  pub execution_authorized_by_agent : Bool

pub record ApprovalAuditEvent : Type 0 where
  pub sequence : ℕ
  pub approval_id : String
  pub event_type : ApprovalEventType
  pub previous_status : Option String
  pub new_status : ApprovalStatus
  pub occurred_at : String
  pub actor : ApprovalActor
  pub reason : String
  pub request_hash : String
  pub previous_event_hash : String
  pub event_hash : String

pub record ApprovalCase : Type 0 where
  pub request : ApprovalRequest
  pub events : List ApprovalAuditEvent

pub record ApprovalAuthorizationCheck : Type 0 where
  pub status : ApprovalAuthorizationStatus
  pub approval_id : String
  pub eligible_for_external_execution : Bool
  pub agent_execution_allowed : Bool
  pub reason : String

abbrev pub last : {A : Type 0} → List A → Option A
last [] = none
last (x ∷ xs) = let rest = last xs in elim rest [ none ↦ some x | some y ↦ some y ]

-- `self.events[-1].new_status`; `none` where there is no event.
unfoldable pub case_status : ApprovalCase → Option ApprovalStatus
case_status c = elim (last c.events) [ none ↦ none | some e ↦ some e.new_status ]

abbrev pub actor_to_dict : ApprovalActor → Json
actor_to_dict actor = dict (
    ("subject_id", text actor.subject_id)
    ∷ ("actor_type", text (actor_type_value actor.actor_type))
    ∷ ("authenticated", bool actor.authenticated)
    ∷ ("identity_source", text actor.identity_source)
    ∷ [])

abbrev pub request_fields : ApprovalRequest → List (String × Json)
request_fields r =
    ("approval_id", text r.approval_id)
    ∷ ("partition_key", text r.partition_key)
    ∷ ("action", text r.action)
    ∷ ("authority", text r.authority)
    ∷ ("policy_action", text r.policy_action)
    ∷ ("policy_reason", text r.policy_reason)
    ∷ ("evidence_fingerprint", text r.evidence_fingerprint)
    ∷ ("request_hash", text r.request_hash)
    ∷ ("requested_at", text r.requested_at)
    ∷ ("expires_at", text r.expires_at)
    ∷ ("execution_authorized_by_agent", bool r.execution_authorized_by_agent)
    ∷ []

abbrev pub event_fields : ApprovalAuditEvent → List (String × Json)
event_fields e =
    ("sequence", num e.sequence)
    ∷ ("approval_id", text e.approval_id)
    ∷ ("event_type", text (event_type_value e.event_type))
    ∷ ("previous_status", text_or_null e.previous_status)
    ∷ ("new_status", text (approval_status_value e.new_status))
    ∷ ("occurred_at", text e.occurred_at)
    ∷ ("actor", actor_to_dict e.actor)
    ∷ ("reason", text e.reason)
    ∷ ("request_hash", text e.request_hash)
    ∷ ("previous_event_hash", text e.previous_event_hash)
    ∷ ("event_hash", text e.event_hash)
    ∷ []

-- What the hashes cover: the dictionary without its own hash.
unfoldable pub request_body : ApprovalRequest → Json
unfolding pop string_discrete
request_body r = dict (pop string_discrete "request_hash" (request_fields r))

unfoldable pub event_body : ApprovalAuditEvent → Json
unfolding pop string_discrete
event_body e = dict (pop string_discrete "event_hash" (event_fields e))
