-- ===== src/Approval/Lifetime.antt =====
-- agent/approval_workflow/workflow.py: the life of an approval case, under any sequence of attempts
-- to approve, reject or expire it. A refused attempt leaves the case as it is.
use ai_native_governed_data.Prelude.{
  ℕ, ◌+◌, String, Option, none, some, List, [], ◌∷◌, ◌≡◌, ◌≢◌, ◌⊎◌, inl, inr, refl, ap, subst, ◌∙◌,
  arith, length, length-append, strip,
}
use ai_native_governed_data.Incident.{
  PartitionIncidentEvidence, PartitionResponsePlan, IncidentResponseStep,
}
use ai_native_governed_data.Approval.{
  ApprovalStatus, pending, approved, rejected, expired, ApprovalEventType, approved_event,
  rejected_event, expired_event, ApprovalActor, ApprovalRequest, ApprovalAuditEvent, ApprovalCase,
  case_status,
}
use ai_native_governed_data.Approval.Chain.{
  Services, Checked, done, refused, assert_integrity, make_event, extended, append_event,
  create_case,
}
use ai_native_governed_data.Approval.Workflow.{is_pending, approve, reject, expire, expiry_policy}
use ai_native_governed_data.Approval.Intact.{create_case-intact, extended-intact}
use ai_native_governed_data.Approval.Lifecycle.{
  append_event-done, human_decision-inv, decide_before-inv, case_status-extended, status-last,
}

pub data Attempt : Type 0 where
  to_approve : ApprovalActor → ℕ → String → Option String → Attempt
  to_reject : ApprovalActor → ℕ → String → Option String → Attempt
  to_expire : ℕ → Attempt

abbrev pub kept : ApprovalCase → Checked ApprovalCase → ApprovalCase
kept c (done d) = d
kept c (refused m) = c

kept-same :
    (c : ApprovalCase) (r : Checked ApprovalCase) → ((d : ApprovalCase) → r ≢ done d) → kept c r ≡ c
kept-same c (done d) never = ground (arith, never d refl)
kept-same c (refused m) never = refl

module _ (services : Services) (trusted : List String) where
  unfoldable pub attempt : ApprovalCase → Attempt → Checked ApprovalCase
  attempt c (to_approve actor at reason expected) =
      approve services trusted c actor at reason expected
  attempt c (to_reject actor at reason expected) =
      reject services trusted c actor at reason expected
  attempt c (to_expire at) = expire services c at

  unfoldable pub live : ApprovalCase → List Attempt → ApprovalCase
  live c [] = c
  live c (a ∷ attempts) = live (kept c (attempt c a)) attempts

  -- Either the request is still pending and has its first event only, or it is decided and has one
  -- event more.
  pub record Lives (request : ApprovalRequest) (c : ApprovalCase) : Type 0 where
    pub request_kept : c.request ≡ request
    pub intact : assert_integrity services c ≡ none
    pub stage :
        ((case_status c ≡ some pending) × (length c.events ≡ 1))
        ⊎ ((s : ApprovalStatus) × (case_status c ≡ some s) × (s ≢ pending) × (length c.events ≡ 2))

  -- The event that an accepted attempt adds.
  record Grew (c d : ApprovalCase) : Type 0 where
    was_pending : case_status c ≡ some pending
    was_intact : assert_integrity services c ≡ none
    event_type : ApprovalEventType
    target : ApprovalStatus
    actor : ApprovalActor
    at : ℕ
    reason : String
    decided : target ≢ pending
    grown : append_event services c event_type target actor at reason ≡ done d

  attempt-Grew :
      (c : ApprovalCase) (a : Attempt) (d : ApprovalCase) → attempt c a ≡ done d → Grew c d
  unfolding attempt approve reject expire is_pending
  attempt-Grew c (to_approve actor at reason expected) d h =
      let i =
        human_decision-inv services trusted c approved_event approved actor at reason expected d
          h in
      let j =
        decide_before-inv services trusted c approved_event approved actor at reason expected i.2.0
          d i.2.2 in
      record {
        was_pending = i.1;
        was_intact = i.0;
        event_type = approved_event;
        target = approved;
        actor = actor;
        at = at;
        reason = strip reason;
        decided = ground arith;
        grown = j.4;
      }
  attempt-Grew c (to_reject actor at reason expected) d h =
      let i =
        human_decision-inv services trusted c rejected_event rejected actor at reason expected d
          h in
      let j =
        decide_before-inv services trusted c rejected_event rejected actor at reason expected i.2.0
          d i.2.2 in
      record {
        was_pending = i.1;
        was_intact = i.0;
        event_type = rejected_event;
        target = rejected;
        actor = actor;
        at = at;
        reason = strip reason;
        decided = ground arith;
        grown = j.4;
      }
  attempt-Grew c (to_expire at) d h = record {
    was_pending = ground arith;
    was_intact = ground arith;
    event_type = expired_event;
    target = expired;
    actor = expiry_policy services;
    at = at;
    reason = "approval_ttl_expired";
    decided = ground arith;
    grown = ground arith;
  }

  extended-shape :
      (c : ApprovalCase) (e : ApprovalAuditEvent) (t : ApprovalEventType) (s : ApprovalStatus)
      (actor : ApprovalActor) (at : ℕ) (reason : String)
      → ((extended services c e t s actor at reason).request ≡ c.request)
        × (length (extended services c e t s actor at reason).events ≡ length c.events + 1)
  unfolding extended
  extended-shape c e t s actor at reason = (refl, length-append {0} c.events _)

  one_event :
      (request : ApprovalRequest) (c : ApprovalCase)
      → Lives request c
      → case_status c ≡ some pending
      → length c.events ≡ 1
  one_event request c l open_status = ground (arith, l.stage)

  grown-Lives :
      (request : ApprovalRequest) (c d : ApprovalCase)
      → Lives request c
      → Grew c d
      → Lives request d
  grown-Lives request c d l g =
      let found = status-last services c pending g.was_pending in
      let here = extended services c found.0 g.event_type g.target g.actor g.at g.reason in
      let shape = extended-shape c found.0 g.event_type g.target g.actor g.at g.reason in
      let added =
        append_event-done services c found.0 g.event_type g.target g.actor g.at g.reason l.intact
          found.1 in
      let status =
        case_status-extended services c found.0 g.event_type g.target g.actor g.at g.reason in
      let length_one = one_event request c l g.was_pending in
      let same : here ≡ d = ground (arith, added, g.grown) in
      subst (Lives request) same (record {
        request_kept = shape.0 ∙ l.request_kept;
        intact =
            extended-intact services c found.0 g.event_type g.target g.actor g.at g.reason l.intact
              found.1;
        stage = inr (g.target, status, g.decided, omega (arith, shape.1, length_one));
      })

  kept-Lives :
      (request : ApprovalRequest) (c : ApprovalCase) (r : Checked ApprovalCase)
      → Lives request c
      → ((d : ApprovalCase) → r ≡ done d → Lives request d)
      → Lives request (kept c r)
  kept-Lives request c (done d) l grows = grows d refl
  kept-Lives request c (refused m) l grows = l

  attempt-Lives :
      (request : ApprovalRequest) (c : ApprovalCase) (a : Attempt)
      → Lives request c
      → Lives request (kept c (attempt c a))
  attempt-Lives request c a l =
      kept-Lives request c (attempt c a) l (λ d h. grown-Lives request c d l (attempt-Grew c a d h))

  live-Lives :
      (request : ApprovalRequest) (c : ApprovalCase) (attempts : List Attempt)
      → Lives request c
      → Lives request (live c attempts)
  unfolding live
  live-Lives request c [] l = l
  live-Lives request c (a ∷ attempts) l =
      live-Lives request (kept c (attempt c a)) attempts (attempt-Lives request c a l)

  created-Lives :
      (incident_part : PartitionIncidentEvidence) (partition_plan : PartitionResponsePlan)
      (step : IncidentResponseStep) (requested_at expires_at : ℕ)
      → Lives
          (create_case services incident_part partition_plan step requested_at expires_at).request
          (create_case services incident_part partition_plan step requested_at expires_at)
  unfolding create_case case_status make_event
  created-Lives incident_part partition_plan step requested_at expires_at = record {
    request_kept = refl;
    intact = create_case-intact services incident_part partition_plan step requested_at expires_at;
    stage = inl (refl, refl);
  }

  -- After any sequence of attempts to approve, reject or expire it, a new case keeps its request and
  -- passes the integrity check, and either it is pending with its first event only, or it is decided
  -- with exactly one event more.
  pub live-created :
      (incident_part : PartitionIncidentEvidence) (partition_plan : PartitionResponsePlan)
      (step : IncidentResponseStep) (requested_at expires_at : ℕ) (attempts : List Attempt)
      → Lives
          (create_case services incident_part partition_plan step requested_at expires_at).request
          (live
            (create_case services incident_part partition_plan step requested_at expires_at)
            attempts)
  live-created incident_part partition_plan step requested_at expires_at attempts =
      live-Lives _ _ attempts
        (created-Lives incident_part partition_plan step requested_at expires_at)

  -- A decided case refuses every attempt.
  attempt-decided :
      (c : ApprovalCase) (a : Attempt) → case_status c ≢ some pending → kept c (attempt c a) ≡ c
  attempt-decided c a decided =
      kept-same c (attempt c a) (λ d h. decided (attempt-Grew c a d h).was_pending)

  -- A case that is not pending is left as it is by any sequence of attempts.
  pub live-decided :
      (c : ApprovalCase) (attempts : List Attempt)
      → case_status c ≢ some pending
      → live c attempts ≡ c
  unfolding live
  live-decided c [] decided = refl
  live-decided c (a ∷ attempts) decided =
      ap (λ d. live d attempts) (attempt-decided c a decided) ∙ live-decided c attempts decided
