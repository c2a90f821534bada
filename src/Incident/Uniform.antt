-- ===== src/Incident/Uniform.antt =====
-- agent/incident_response/planner.py, `plan`: what the overall status says of the partitions.
use ai_native_governed_data.Prelude.{
  says, ℕ, ltb, length, null, String, Bool, true, false, not, List, [], ◌∷◌, map, if◌then◌else◌,
  any, sym, subst, ◌⊎◌, ◌≡◌, ◌≢◌, refl, arith, All, inl, inr,
}
use ai_native_governed_data.Incident.{
  PartitionIncidentEvidence, IncidentDrilldownStatus, IncidentDrilldownResult,
  IncidentResponseStatus, PartitionResponsePlan, IncidentResponsePlan,
}
use ai_native_governed_data.Incident.Planner.{plan_partition}
use ai_native_governed_data.Incident.Aggregate.{
  incomplete_of, nothing_to_do, over_limit, switched_off, not_verified, overall, plan_incomplete,
  plan_complete, plan_by_status, plan, is_human_action, is_delegated, is_waiting, is_no_action,
}

-- A status that the aggregate reports for every partition alike.
abbrev pub IsUniform : IncidentResponseStatus → Type 0
IsUniform s = (s ≢ IncidentResponseStatus.partial) × (s ≢ IncidentResponseStatus.blocked)

any-false :
    (test : IncidentResponseStatus → Bool) (target : IncidentResponseStatus)
    (xs : List IncidentResponseStatus)
    → ((x : IncidentResponseStatus) → not (test x) ≡ false → x ≡ target)
    → any (λ s. not (test s)) xs ≡ false
    → All (λ x. x ≡ target) xs
any-false test target [] only h = tt
any-false test target (x ∷ xs) only h =
    (only x (ground arith), any-false test target xs only (ground arith))

-- The status that the set `statuses` is reduced to, where it is.
abbrev Uniformly :
    (IncidentResponseStatus → Bool) → IncidentResponseStatus → List IncidentResponseStatus → Type 0
Uniformly test target statuses =
    (overall statuses ≡ target) × (any (λ s. not (test s)) statuses ≡ false)

overall-cases :
    (statuses : List IncidentResponseStatus)
    → IsUniform (overall statuses)
    → Uniformly is_human_action IncidentResponseStatus.human_action_required statuses
      ⊎ (Uniformly is_delegated IncidentResponseStatus.delegated statuses
          ⊎ (Uniformly is_waiting IncidentResponseStatus.waiting statuses
              ⊎ Uniformly is_no_action IncidentResponseStatus.no_action statuses))
unfolding overall
overall-cases statuses uniform = ground arith

of_Uniformly :
    (test : IncidentResponseStatus → Bool) (target : IncidentResponseStatus)
    (statuses : List IncidentResponseStatus)
    → ((x : IncidentResponseStatus) → not (test x) ≡ false → x ≡ target)
    → Uniformly test target statuses
    → All (λ s. s ≡ overall statuses) statuses
of_Uniformly test target statuses only h =
    subst (λ t. All (λ s. s ≡ t) statuses) (sym h.0) (any-false test target statuses only h.1)

overall-uniform :
    (statuses : List IncidentResponseStatus)
    → IsUniform (overall statuses)
    → All (λ s. s ≡ overall statuses) statuses
unfolding is_human_action is_delegated is_waiting is_no_action
overall-uniform statuses uniform = elim (overall-cases statuses uniform) [
  | inl h ↦ of_Uniformly is_human_action _ statuses (λ x e. ground arith) h
  | inr (inl h) ↦ of_Uniformly is_delegated _ statuses (λ x e. ground arith) h
  | inr (inr (inl h)) ↦ of_Uniformly is_waiting _ statuses (λ x e. ground arith) h
  | inr (inr (inr h)) ↦ of_Uniformly is_no_action _ statuses (λ x e. ground arith) h
]

All-map :
    (P : IncidentResponseStatus → Type 0) (plans : List PartitionResponsePlan)
    → All P (map (λ (part : PartitionResponsePlan). part.status) plans)
    → All (λ (part : PartitionResponsePlan). P part.status) plans
All-map P [] h = tt
All-map P (part ∷ plans) h = (h.0, All-map P plans h.1)

-- The partitions of a plan agree with its status, where the status is uniform.
record Agrees (p : IncidentResponsePlan) : Type 0 where
  agree :
      IsUniform p.status
      → All (λ (part : PartitionResponsePlan). part.status ≡ p.status) p.partitions

plan_incomplete-Agrees :
    (incomplete : List PartitionIncidentEvidence) → Agrees (plan_incomplete incomplete)
unfolding plan_incomplete
plan_incomplete-Agrees incomplete = record {
  agree = λ uniform.
      All-map
        (λ s.
          s
          ≡ overall
              (map (λ (part : PartitionResponsePlan). part.status) (map plan_partition incomplete)))
        (map plan_partition incomplete)
        (overall-uniform
          (map (λ (part : PartitionResponsePlan). part.status) (map plan_partition incomplete))
          uniform);
}

if-Agrees :
    (b : Bool) (p q : IncidentResponsePlan) → Agrees p → Agrees q → Agrees (if b then p else q)
if-Agrees true p q hp hq = hp
if-Agrees false p q hp hq = hq

empty-Agrees : (p : IncidentResponsePlan) → p.partitions ≡ [] → Agrees p
empty-Agrees p none_ = record {
  agree = λ uniform.
      subst (All (λ (part : PartitionResponsePlan). part.status ≡ p.status)) (sym none_) tt;
}

plan_complete-Agrees :
    (max_partitions : ℕ) (partitions : List PartitionIncidentEvidence)
    → Agrees (plan_complete max_partitions partitions)
unfolding plan_complete
plan_complete-Agrees max_partitions partitions =
    if-Agrees (null (incomplete_of partitions)) nothing_to_do
      (if ltb max_partitions (length (incomplete_of partitions))
        then over_limit max_partitions
        else plan_incomplete (incomplete_of partitions))
      (empty-Agrees nothing_to_do refl)
      (if-Agrees (ltb max_partitions (length (incomplete_of partitions)))
        (over_limit max_partitions) (plan_incomplete (incomplete_of partitions))
        (empty-Agrees (over_limit max_partitions) refl)
        (plan_incomplete-Agrees (incomplete_of partitions)))

plan_by_status-Agrees :
    (max_partitions : ℕ) (incident : IncidentDrilldownResult) (status : IncidentDrilldownStatus)
    → Agrees (plan_by_status max_partitions incident status)
unfolding plan_by_status
plan_by_status-Agrees max_partitions incident IncidentDrilldownStatus.no_incident =
    empty-Agrees _ refl
plan_by_status-Agrees max_partitions incident IncidentDrilldownStatus.deferred = empty-Agrees _ refl
plan_by_status-Agrees max_partitions incident IncidentDrilldownStatus.blocked = empty-Agrees _ refl
plan_by_status-Agrees max_partitions incident IncidentDrilldownStatus.error = empty-Agrees _ refl
plan_by_status-Agrees max_partitions incident IncidentDrilldownStatus.partial = empty-Agrees _ refl
plan_by_status-Agrees max_partitions incident IncidentDrilldownStatus.complete =
    plan_complete-Agrees max_partitions incident.partitions

plan-Agrees :
    (gate : String) (is_allowed : Bool) (max_partitions : ℕ) (incident : IncidentDrilldownResult)
    → Agrees (plan gate is_allowed max_partitions incident)
unfolding plan
plan-Agrees gate is_allowed max_partitions incident =
    if-Agrees (not is_allowed) (switched_off gate)
      (if not (says incident.evidence "RUNTIME_VERIFIED")
        then not_verified incident
        else plan_by_status max_partitions incident incident.status)
      (empty-Agrees (switched_off gate) refl)
      (if-Agrees (not (says incident.evidence "RUNTIME_VERIFIED")) (not_verified incident)
        (plan_by_status max_partitions incident incident.status)
        (empty-Agrees (not_verified incident) refl)
        (plan_by_status-Agrees max_partitions incident incident.status))

-- If the overall status of a plan is neither PARTIAL nor BLOCKED, then every partition of the plan has
-- that status.
pub plan-uniform :
    (gate : String) (is_allowed : Bool) (max_partitions : ℕ) (incident : IncidentDrilldownResult)
    → IsUniform (plan gate is_allowed max_partitions incident).status
    → All
        (λ (part : PartitionResponsePlan).
          part.status ≡ (plan gate is_allowed max_partitions incident).status)
        (plan gate is_allowed max_partitions incident).partitions
plan-uniform gate is_allowed max_partitions incident uniform =
    (plan-Agrees gate is_allowed max_partitions incident).agree uniform
