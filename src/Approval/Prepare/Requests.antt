-- ===== src/Approval/Prepare/Requests.antt =====
-- agent/approval_workflow/workflow.py, `prepare`: which requests are opened.
use ai_native_governed_data.Prelude.{
  Option-cases, ℕ, ◌+◌, ◌≤◌, String, Bool, List, [], ◌∷◌, ◌++◌, map, ◌≡◌, refl, ap, sym, subst, ◌∙◌,
  arith, All, length, keep, inl, inr, some, none, string_discrete,
}
use ai_native_governed_data.Prelude.Dict.{lookup}
use ai_native_governed_data.Incident.{
  PartitionIncidentEvidence, IncidentDrilldownResult, PartitionResponsePlan, IncidentResponsePlan,
  IncidentResponseStep, is_human_required, kind_value,
}
use ai_native_governed_data.Approval.{ApprovalCase, pending, case_status}
use ai_native_governed_data.Approval.Chain.{
  Services, assert_integrity, create_case, new_request, make_event,
}
use ai_native_governed_data.Approval.Intact.{create_case-intact}
use ai_native_governed_data.Approval.Prepare.{
  approval_pending, PendingStep, Collected, mismatch, steps, before_rest, steps_of, collect_steps,
  by_partition, cases_of, open_requests, prepare,
}

-- The partition and the action of a request, and of each step of a plan that needs a human.
abbrev pub subject_of : ApprovalCase → String × String
subject_of c = (c.request.partition_key, c.request.action)

abbrev pub human_actions : List PartitionResponsePlan → List (String × String)
human_actions [] = []
human_actions (p ∷ plans) =
    map (λ (step : IncidentResponseStep). (p.partition_key, kind_value step.action))
      (keep is_human_required p.steps)
    ++ human_actions plans

abbrev action_of : PendingStep → String × String
action_of p = (p.partition_plan.partition_key, kind_value p.human_step.action)

map-append : {A B : Type 0} (f : A → B) (xs ys : List A) → map f (xs ++ ys) ≡ map f xs ++ map f ys
map-append f [] ys = refl
map-append f (x ∷ xs) ys = ap (λ zs. f x ∷ zs) (map-append f xs ys)

map-map :
    {A B C : Type 0} (f : A → B) (g : B → C) (h : A → C) (xs : List A)
    → ((x : A) → g (f x) ≡ h x)
    → map g (map f xs) ≡ map h xs
map-map f g h [] e = refl
map-map f g h (x ∷ xs) e = rw (e x, map-map f g h xs e)

length-map : {A B : Type 0} (f : A → B) (xs : List A) → length (map f xs) ≡ length xs
length-map f [] = refl
length-map f (x ∷ xs) = rw (length-map f xs)

before_rest-steps :
    (xs : List PendingStep) (r : Collected) (found : List PendingStep)
    → before_rest xs r ≡ steps found
    → (ys : List PendingStep) × (r ≡ steps ys) × (found ≡ xs ++ ys)
before_rest-steps xs (mismatch key) found h = ground arith
before_rest-steps xs (steps ys) found h = (ys, refl, ground arith)

append-both : {A : Type 0} {xs ys us vs : List A} → xs ≡ us → ys ≡ vs → xs ++ ys ≡ us ++ vs
append-both e f = cc

collect_steps-actions :
    (d : List (String × PartitionIncidentEvidence)) (plans : List PartitionResponsePlan)
    (found : List PendingStep)
    → collect_steps d plans ≡ steps found
    → map action_of found ≡ human_actions plans
unfolding collect_steps
collect_steps-actions d [] found h = ground arith
collect_steps-actions d (p ∷ plans) found h =
    elim (Option-cases (lookup string_discrete p.partition_key d)) [
      | inl e ↦ ground arith
      | inr (part, e) ↦
          let s =
            before_rest-steps (steps_of part p) (collect_steps d plans) found (ground arith) in
          subst (λ zs. map action_of zs ≡ human_actions (p ∷ plans)) (sym s.2)
            (map-append action_of (steps_of part p) s.0
              ∙ append-both (map-map _ action_of _ (keep is_human_required p.steps) (λ step. refl))
                  (collect_steps-actions d plans s.0 s.1))
    ]

module _ (services : Services) where
  cases_of_sound :
      (ttl now : ℕ) (found : List PendingStep)
      → All
          (λ c. (assert_integrity services c ≡ none) × (case_status c ≡ some pending))
          (cases_of services ttl now found)
  unfolding create_case case_status make_event
  cases_of_sound ttl now [] = tt
  cases_of_sound ttl now (p ∷ found) = (
    (
      create_case-intact services p.incident_part p.partition_plan p.human_step now (now + ttl),
      refl,
    ),
    cases_of_sound ttl now found,
  )

  subject_of-created :
      (ttl now : ℕ) (p : PendingStep)
      → subject_of
          (create_case services p.incident_part p.partition_plan p.human_step now (now + ttl))
        ≡ action_of p
  unfolding create_case new_request
  subject_of-created ttl now p = refl

  open_requests-opened :
      (limit ttl now : ℕ) (r : Collected)
      → (open_requests services limit ttl now r).status ≡ approval_pending
      → (found : List PendingStep) × (r ≡ steps found)
        × (length found ≤ limit)
        × ((open_requests services limit ttl now r).cases ≡ cases_of services ttl now found)
  unfolding open_requests
  open_requests-opened limit ttl now (mismatch key) h = ground arith
  open_requests-opened limit ttl now (steps found) h = (found, refl, ground arith, ground arith)

  prepare-open_requests :
      (gate : String) (is_allowed : Bool) (limit ttl now : ℕ) (incident : IncidentDrilldownResult)
      (response_plan : IncidentResponsePlan)
      → (prepare services gate is_allowed limit ttl now incident response_plan).status
        ≡ approval_pending
      → prepare services gate is_allowed limit ttl now incident response_plan
        ≡ open_requests services limit ttl now
            (collect_steps (by_partition [] incident.partitions) response_plan.partitions)
  unfolding prepare
  prepare-open_requests gate is_allowed limit ttl now incident response_plan h = ground arith

  prepare-opened :
      (gate : String) (is_allowed : Bool) (limit ttl now : ℕ) (incident : IncidentDrilldownResult)
      (response_plan : IncidentResponsePlan)
      → (prepare services gate is_allowed limit ttl now incident response_plan).status
        ≡ approval_pending
      → (found : List PendingStep) × (collect_steps
            (by_partition [] incident.partitions)
            response_plan.partitions
          ≡ steps found)
        × (length found ≤ limit)
        × ((prepare services gate is_allowed limit ttl now incident response_plan).cases
            ≡ cases_of services ttl now found)
  prepare-opened gate is_allowed limit ttl now incident response_plan h =
      let r = collect_steps (by_partition [] incident.partitions) response_plan.partitions in
      let same = prepare-open_requests gate is_allowed limit ttl now incident response_plan h in
      let opened = open_requests-opened limit ttl now r (rw same at h) in
      (opened.0, opened.1, opened.2, rw (same, opened.3))

  -- If `prepare` answers PENDING, it has opened exactly one request for each step of the response plan
  -- that needs a human, in the plan's order and with its partition and action; they are no more than
  -- the limit, and each case is pending and passes the integrity check.
  pub prepare-requests :
      (gate : String) (is_allowed : Bool) (limit ttl now : ℕ) (incident : IncidentDrilldownResult)
      (response_plan : IncidentResponsePlan)
      → (prepare services gate is_allowed limit ttl now incident response_plan).status
        ≡ approval_pending
      → (map subject_of
            (prepare services gate is_allowed limit ttl now incident response_plan).cases
          ≡ human_actions response_plan.partitions)
        × (length (prepare services gate is_allowed limit ttl now incident response_plan).cases
            ≤ limit)
        × All
            (λ c. (assert_integrity services c ≡ none) × (case_status c ≡ some pending))
            (prepare services gate is_allowed limit ttl now incident response_plan).cases
  prepare-requests gate is_allowed limit ttl now incident response_plan h =
      let shape = prepare-opened gate is_allowed limit ttl now incident response_plan h in
      let found = shape.0 in
      (
        subst (λ cs. map subject_of cs ≡ human_actions response_plan.partitions) (sym shape.3)
            (map-map _ subject_of action_of found (subject_of-created ttl now)
              ∙ collect_steps-actions _ response_plan.partitions found shape.1),
        subst (λ cs. length cs ≤ limit) (sym shape.3)
            (omega (
              arith,
              shape.2,
              length-map
                  (λ (p : PendingStep).
                    create_case services p.incident_part p.partition_plan p.human_step now
                      (now + ttl))
                  found,
            )),
        subst (All (λ c. (assert_integrity services c ≡ none) × (case_status c ≡ some pending)))
            (sym shape.3) (cases_of_sound ttl now found),
      )
