-- ===== src/Approval/Prepare.antt =====
-- agent/approval_workflow/workflow.py, `prepare`: the approval requests of an incident's response plan.
-- The gate's variable and value, the limit and the time to live come from the environment and the
-- policy file, so they are arguments.
pub mod Requests
use ai_native_governed_data.Prelude.{
  ℕ, ◌+◌, String, Bool, true, false, not, ◌&&◌, Option, none, some, List, [], ◌∷◌, ◌++◌, map,
  if◌then◌else◌, ltb, length, keep, null, string_discrete,
}
use ai_native_governed_data.Prelude.Dict.{lookup, insert}
use ai_native_governed_data.Recovery.Policy.{decimal}
use ai_native_governed_data.Incident.{
  PartitionIncidentEvidence, IncidentDrilldownResult, PartitionResponsePlan, IncidentResponsePlan,
  IncidentResponseStep, is_human_required,
}
use ai_native_governed_data.Approval.{ApprovalCase}
use ai_native_governed_data.Approval.Chain.{Services, same, create_case}
use Prim.Native.String

pub data ApprovalWorkflowStatus : Type 0 where
  no_approval_required : ApprovalWorkflowStatus
  approval_pending : ApprovalWorkflowStatus
  partial : ApprovalWorkflowStatus
  deferred : ApprovalWorkflowStatus
  blocked : ApprovalWorkflowStatus
  error : ApprovalWorkflowStatus

pub record ApprovalWorkflowBundle : Type 0 where
  pub status : ApprovalWorkflowStatus
  pub evidence : String
  pub cases : List ApprovalCase
  pub warnings : List String
  pub validation : String

-- A step with the partition's evidence and plan.
pub record PendingStep : Type 0 where
  pub incident_part : PartitionIncidentEvidence
  pub partition_plan : PartitionResponsePlan
  pub human_step : IncidentResponseStep

-- `{item.partition_key: item for item in incident.partitions}`: a later item takes the key's place.
unfoldable pub by_partition :
    List (String × PartitionIncidentEvidence)
    → List PartitionIncidentEvidence
    → List (String × PartitionIncidentEvidence)
by_partition d [] = d
by_partition d (item ∷ items) =
    by_partition (insert string_discrete item.partition_key item d) items

abbrev pub steps_of : PartitionIncidentEvidence → PartitionResponsePlan → List PendingStep
steps_of incident_part partition_plan =
    map
      (λ step. record {
        incident_part = incident_part;
        partition_plan = partition_plan;
        human_step = step;
      })
      (keep is_human_required partition_plan.steps)

-- The key of the first plan without evidence, or all the steps that need a human.
pub data Collected : Type 0 where
  mismatch : String → Collected
  steps : List PendingStep → Collected

abbrev pub before_rest : List PendingStep → Collected → Collected
before_rest xs (mismatch key) = mismatch key
before_rest xs (steps ys) = steps (xs ++ ys)

unfoldable pub collect_steps :
    List (String × PartitionIncidentEvidence) → List PartitionResponsePlan → Collected
collect_steps d [] = steps []
collect_steps d (partition_plan ∷ plans) =
    let rest = collect_steps d plans in
    elim (lookup string_discrete partition_plan.partition_key d) [
      | none ↦ mismatch partition_plan.partition_key
      | some incident_part ↦ before_rest (steps_of incident_part partition_plan) rest
    ]

abbrev pub bare : ApprovalWorkflowStatus → String → List String → String → ApprovalWorkflowBundle
bare status evidence warnings validation = record {
  status = status;
  evidence = evidence;
  cases = [];
  warnings = warnings;
  validation = validation;
}

module _ (services : Services) where
  abbrev pub cases_of : ℕ → ℕ → List PendingStep → List ApprovalCase
  cases_of ttl now = map (λ (p : PendingStep).
      create_case services p.incident_part p.partition_plan p.human_step now (now + ttl))

  unfoldable pub open_requests : ℕ → ℕ → ℕ → Collected → ApprovalWorkflowBundle
  open_requests limit ttl now (mismatch key) =
      bare ApprovalWorkflowStatus.blocked "RUNTIME_VERIFIED"
        (String.◌++◌ "Response partition "
            (String.◌++◌ key " has no matching Phase 6D incident evidence.")
          ∷ [])
        "INCIDENT_RESPONSE_PARTITION_MISMATCH"
  open_requests limit ttl now (steps pending_steps) =
      if null pending_steps
      then bare no_approval_required "RUNTIME_VERIFIED" [] "NO_HUMAN_REQUIRED_RESPONSE_STEP"
      else if ltb limit (length pending_steps)
      then bare ApprovalWorkflowStatus.blocked "RUNTIME_VERIFIED"
          (String.◌++◌ "Approval bundle supports at most "
              (String.◌++◌ (decimal limit) " human-required actions.")
            ∷ [])
          "APPROVAL_REQUEST_LIMIT_EXCEEDED"
      else record {
        status = approval_pending;
        evidence = "RUNTIME_VERIFIED";
        cases = cases_of ttl now pending_steps;
        warnings = [];
        validation = "PENDING_APPROVAL_REQUESTS_CREATED_NO_PRODUCTION_ACTION_EXECUTED";
      }

  unfoldable pub prepare :
      String
      → Bool
      → ℕ
      → ℕ
      → ℕ
      → IncidentDrilldownResult
      → IncidentResponsePlan
      → ApprovalWorkflowBundle
  prepare gate is_allowed limit ttl now incident response_plan =
      if not is_allowed
      then bare ApprovalWorkflowStatus.deferred "STATIC_CONTRACT"
          (String.◌++◌ "Approval workflow is disabled; set "
              (String.◌++◌ gate "=true only in the intended approval service.")
            ∷ [])
          "NOT_EXECUTED"
      else if not (
          same incident.evidence "RUNTIME_VERIFIED"
          && same response_plan.evidence "RUNTIME_VERIFIED")
      then bare ApprovalWorkflowStatus.deferred "STATIC_CONTRACT"
          ("Approval requests require RUNTIME_VERIFIED incident evidence and a RUNTIME_VERIFIED Phase 6E response plan."
            ∷ [])
          "RUNTIME_EVIDENCE_REQUIRED"
      else open_requests limit ttl now
          (collect_steps (by_partition [] incident.partitions) response_plan.partitions)
