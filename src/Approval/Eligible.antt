-- ===== src/Approval/Eligible.antt =====
-- agent/approval_workflow/workflow.py, `validate_for_external_execution`: when an approval counts.
-- What the current evidence is, is said without the code's own search.
use ai_native_governed_data.Prelude.{
  ℕ, String, true, false, none, some, List, ◌≡◌, ◌↔◌, arith, find_first, Option-cases, inl, inr,
}
use ai_native_governed_data.Prelude.Search.{FirstWith, find_first_iff}
use ai_native_governed_data.Incident.{
  PartitionIncidentEvidence, PartitionResponsePlan, IncidentResponseStep, kind_value,
  authority_value, human_required, is_human_required,
}
use ai_native_governed_data.Approval.{
  approved, ApprovalCase, ApprovalAuthorizationCheck, case_status, ApprovalRequest,
}
use ai_native_governed_data.Approval.Chain.{Services, assert_integrity, fingerprint, same}
use ai_native_governed_data.Approval.Workflow.{
  find_current_fingerprint, compare_evidence, answer_by_status, validate_for_external_execution,
  wanted_step,
}

-- The step of the request's action and authority that needs a human.
pub record Wanted (request : ApprovalRequest) (step : IncidentResponseStep) : Type 0 where
  pub action : kind_value step.action ≡ request.action
  pub authority : authority_value step.authority ≡ request.authority
  pub boundary : step.approval_boundary ≡ human_required

same_iff : (s t : String) → (same s t ≡ true) ↔ (s ≡ t)
same_iff s t = (λ h. ground arith, λ h. ground arith)

wanted_step_iff :
    (services : Services) (request : ApprovalRequest) (step : IncidentResponseStep)
    → (wanted_step services request step ≡ true) ↔ Wanted request step
unfolding is_human_required
wanted_step_iff services request step = (
  λ h. record { action = ground arith; authority = ground arith; boundary = ground arith },
  λ w. ground (arith, w.action, w.authority, w.boundary),
)

module _ (services : Services) where
  -- The action package that the current evidence has for a request: the first evidence and the first plan
  -- of its partition, and that plan's first step that is wanted.
  pub record Current (request : ApprovalRequest) (incident : List PartitionIncidentEvidence)
      (plans : List PartitionResponsePlan) (print : String) : Type 0 where
    pub incident_part : PartitionIncidentEvidence
    pub partition_plan : PartitionResponsePlan
    pub step : IncidentResponseStep
    pub of_partition :
        FirstWith (λ x. x.partition_key ≡ request.partition_key) incident_part incident
    pub planned : FirstWith (λ x. x.partition_key ≡ request.partition_key) partition_plan plans
    pub wanted : FirstWith (Wanted request) step partition_plan.steps
    pub is_package : fingerprint services incident_part partition_plan step ≡ print

  find_current_fingerprint-Current :
      (request : ApprovalRequest) (incident : List PartitionIncidentEvidence)
      (plans : List PartitionResponsePlan) (print : String)
      → find_current_fingerprint services request incident plans ≡ some print
      → Current request incident plans print
  unfolding find_current_fingerprint
  find_current_fingerprint-Current request incident plans print h =
      elim (Option-cases (find_first (λ x. same x.partition_key request.partition_key) incident)) [
        | inl absent ↦ ground arith
        | inr (part, e) ↦
            elim (Option-cases
              (find_first (λ x. same x.partition_key request.partition_key) plans)) [
                | inl absent ↦ ground arith
                | inr (plan, f) ↦
                    elim (Option-cases (find_first (wanted_step services request) plan.steps)) [
                      | inl absent ↦ ground arith
                      | inr (step, g) ↦ record {
                        incident_part = part;
                        partition_plan = plan;
                        step = step;
                        of_partition =
                            (find_first_iff _ _
                                (λ x. same_iff x.partition_key request.partition_key) incident
                                part).0
                              e;
                        planned =
                            (find_first_iff _ _
                                (λ x. same_iff x.partition_key request.partition_key) plans plan).0
                              f;
                        wanted =
                            (find_first_iff _ _ (wanted_step_iff services request) plan.steps
                                step).0
                              g;
                        is_package = ground arith;
                      }
                    ]
              ]
      ]

  Current-find_current_fingerprint :
      (request : ApprovalRequest) (incident : List PartitionIncidentEvidence)
      (plans : List PartitionResponsePlan) (print : String)
      → Current request incident plans print
      → find_current_fingerprint services request incident plans ≡ some print
  unfolding find_current_fingerprint
  Current-find_current_fingerprint request incident plans print c =
      let e =
        (find_first_iff _ _
            (λ (x : PartitionIncidentEvidence). same_iff x.partition_key request.partition_key)
            incident c.incident_part).1
          c.of_partition in
      let f =
        (find_first_iff _ _
            (λ (x : PartitionResponsePlan). same_iff x.partition_key request.partition_key) plans
            c.partition_plan).1
          c.planned in
      let g =
        (find_first_iff _ _ (wanted_step_iff services request) c.partition_plan.steps c.step).1
          c.wanted in
      ground (arith, e, f, g, c.is_package)

  -- What makes an approval count at the current evidence.
  pub record Counts (c : ApprovalCase) (incident : List PartitionIncidentEvidence)
      (plans : List PartitionResponsePlan) : Type 0 where
    pub intact : assert_integrity services c ≡ none
    pub is_approved : case_status c ≡ some approved
    pub unchanged : Current c.request incident plans c.request.evidence_fingerprint

  only_if :
      (c : ApprovalCase) (incident : List PartitionIncidentEvidence)
      (plans : List PartitionResponsePlan) (at : ℕ) (check : ApprovalAuthorizationCheck)
      → validate_for_external_execution services c incident plans at ≡ some check
      → check.eligible_for_external_execution ≡ true
      → Counts c incident plans
  unfolding validate_for_external_execution answer_by_status compare_evidence
  only_if c incident plans at check h e = record {
    intact = ground arith;
    is_approved = ground arith;
    unchanged = find_current_fingerprint-Current _ _ _ _ (ground arith);
  }

  if_only :
      (c : ApprovalCase) (incident : List PartitionIncidentEvidence)
      (plans : List PartitionResponsePlan) (at : ℕ) (check : ApprovalAuthorizationCheck)
      → validate_for_external_execution services c incident plans at ≡ some check
      → Counts c incident plans
      → check.eligible_for_external_execution ≡ true
  unfolding validate_for_external_execution answer_by_status compare_evidence
  if_only c incident plans at check h counts = ground (
    arith,
    counts.intact,
    counts.is_approved,
    Current-find_current_fingerprint c.request incident plans c.request.evidence_fingerprint
        counts.unchanged,
  )

  not_the_agent :
      (c : ApprovalCase) (incident : List PartitionIncidentEvidence)
      (plans : List PartitionResponsePlan) (at : ℕ) (check : ApprovalAuthorizationCheck)
      → validate_for_external_execution services c incident plans at ≡ some check
      → check.agent_execution_allowed ≡ false
  unfolding validate_for_external_execution answer_by_status compare_evidence
  not_the_agent c incident plans at check h = ground arith

  -- A check before an external execution, where it answers, says that the approval is eligible exactly
  -- when the case passes the integrity check, is APPROVED, and the package of the first current
  -- evidence and the first current plan of the request's partition, with that plan's first step that
  -- has the request's action and authority and needs a human, has the fingerprint that was approved;
  -- it never allows the agent to execute.
  pub eligible_iff :
      (c : ApprovalCase) (incident : List PartitionIncidentEvidence)
      (plans : List PartitionResponsePlan) (at : ℕ) (check : ApprovalAuthorizationCheck)
      → validate_for_external_execution services c incident plans at ≡ some check
      → ((check.eligible_for_external_execution ≡ true) ↔ Counts c incident plans)
        × (check.agent_execution_allowed ≡ false)
  eligible_iff c incident plans at check h = (
    (only_if c incident plans at check h, if_only c incident plans at check h),
    not_the_agent c incident plans at check h,
  )
