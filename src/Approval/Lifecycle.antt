-- ===== src/Approval/Lifecycle.antt =====
-- agent/approval_workflow/workflow.py: when a decision is accepted, and the life of a case under any
-- sequence of attempts to approve, reject or expire it.
use ai_native_governed_data.Prelude.{
  ℕ, ◌+◌, ◌<◌, String, true, false, Option, none, some, List, [], ◌∷◌, ◌++◌, ◌≡◌, ◌↔◌, inl, inr,
  refl, arith, length, any, is_empty, strip, Option-cases,
}
use ai_native_governed_data.Approval.{
  ApprovalStatus, pending, approved, approval_status_value, ApprovalEventType, approved_event,
  human_operator, ApprovalActor, ApprovalAuditEvent, ApprovalCase, last, case_status,
}
use ai_native_governed_data.Approval.Chain.{
  Services, done, same, assert_integrity, make_event, extended, append_event,
}
use ai_native_governed_data.Approval.Workflow.{
  validate_human_actor, unexpected, is_pending, decide_before, human_decision, approve,
}
use ai_native_governed_data.Approval.Intact.{extended-intact}

last-snoc : (es : List ApprovalAuditEvent) (e : ApprovalAuditEvent) → last (es ++ e ∷ []) ≡ some e
last-snoc [] e = refl
last-snoc (x ∷ es) e = ground (arith, last-snoc es e)

module _ (services : Services) where
  -- What the source asks of a human decision.
  pub record MayDecide (trusted : List String) (c : ApprovalCase) (actor : ApprovalActor) (at : ℕ)
      (reason : String) (expected : Option String) : Type 0 where
    pub intact : assert_integrity services c ≡ none
    pub open_status : case_status c ≡ some pending
    pub in_time :
        (expires_at : ℕ) × (services.parse_iso c.request.expires_at ≡ some expires_at)
        × (at < expires_at)
    pub human : actor.actor_type ≡ human_operator
    pub authenticated : actor.authenticated ≡ true
    pub source : any (same actor.identity_source) trusted ≡ true
    pub named : is_empty (strip actor.subject_id) ≡ false
    pub reasoned : is_empty (strip reason) ≡ false
    pub expected_evidence : unexpected expected c.request.evidence_fingerprint ≡ false

  -- A new event is the last one, and gives the case its status.
  pub case_status-extended :
      (c : ApprovalCase) (previous : ApprovalAuditEvent) (t : ApprovalEventType)
      (target : ApprovalStatus) (actor : ApprovalActor) (at : ℕ) (reason : String)
      → case_status (extended services c previous t target actor at reason) ≡ some target
  unfolding case_status extended make_event
  case_status-extended c previous t target actor at reason = ground (
    arith,
    last-snoc c.events (
        make_event services (length c.events + 1) c.request t
          (some (approval_status_value previous.new_status)) target at actor reason
          previous.event_hash),
  )

  pub status-last :
      (c : ApprovalCase) (s : ApprovalStatus)
      → case_status c ≡ some s
      → (e : ApprovalAuditEvent) × (last c.events ≡ some e)
  unfolding case_status
  status-last c s h = elim (Option-cases (last c.events)) [
    | inl e ↦ ground arith
    | inr (x, e) ↦ (x, e)
  ]

  pub append_event-done :
      (c : ApprovalCase) (previous : ApprovalAuditEvent) (t : ApprovalEventType)
      (target : ApprovalStatus) (actor : ApprovalActor) (at : ℕ) (reason : String)
      → assert_integrity services c ≡ none
      → last c.events ≡ some previous
      → append_event services c t target actor at reason
        ≡ done (extended services c previous t target actor at reason)
  unfolding append_event
  append_event-done c previous t target actor at reason ok found =
      ground (arith, extended-intact services c previous t target actor at reason ok found)

  validate_human_actor-inv :
      (trusted : List String) (actor : ApprovalActor)
      → validate_human_actor trusted actor ≡ none
      → (actor.actor_type ≡ human_operator)
        × (actor.authenticated ≡ true)
        × (any (same actor.identity_source) trusted ≡ true)
        × (is_empty (strip actor.subject_id) ≡ false)
  unfolding validate_human_actor
  validate_human_actor-inv trusted actor h = ground arith

  validate_human_actor-none :
      (trusted : List String) (actor : ApprovalActor)
      → actor.actor_type ≡ human_operator
      → actor.authenticated ≡ true
      → any (same actor.identity_source) trusted ≡ true
      → is_empty (strip actor.subject_id) ≡ false
      → validate_human_actor trusted actor ≡ none
  unfolding validate_human_actor
  validate_human_actor-none trusted actor h i j k = ground arith

  pub decide_before-inv :
      (trusted : List String) (c : ApprovalCase) (t : ApprovalEventType) (target : ApprovalStatus)
      (actor : ApprovalActor) (at : ℕ) (reason : String) (expected : Option String) (expires_at : ℕ)
      (d : ApprovalCase)
      → decide_before services trusted c t target actor at reason expected expires_at ≡ done d
      → (at < expires_at)
        × (validate_human_actor trusted actor ≡ none)
        × (is_empty (strip reason) ≡ false)
        × (unexpected expected c.request.evidence_fingerprint ≡ false)
        × (append_event services c t target actor at (strip reason) ≡ done d)
  unfolding decide_before
  decide_before-inv trusted c t target actor at reason expected expires_at d h = ground arith

  pub human_decision-inv :
      (trusted : List String) (c : ApprovalCase) (t : ApprovalEventType) (target : ApprovalStatus)
      (actor : ApprovalActor) (at : ℕ) (reason : String) (expected : Option String)
      (d : ApprovalCase)
      → human_decision services trusted c t target actor at reason expected ≡ done d
      → (assert_integrity services c ≡ none)
        × (case_status c ≡ some pending)
        × ((expires_at : ℕ) × (services.parse_iso c.request.expires_at ≡ some expires_at)
            × (decide_before services trusted c t target actor at reason expected expires_at
                ≡ done d))
  unfolding human_decision is_pending
  human_decision-inv trusted c t target actor at reason expected d h =
      elim (Option-cases (services.parse_iso c.request.expires_at)) [
        | inl e ↦ ground arith
        | inr (x, e) ↦ (ground arith, ground arith, (x, e, ground arith))
      ]

  human_decision-done :
      (trusted : List String) (c : ApprovalCase) (t : ApprovalEventType) (target : ApprovalStatus)
      (actor : ApprovalActor) (at : ℕ) (reason : String) (expected : Option String)
      (previous : ApprovalAuditEvent)
      → MayDecide trusted c actor at reason expected
      → last c.events ≡ some previous
      → human_decision services trusted c t target actor at reason expected
        ≡ done (extended services c previous t target actor at (strip reason))
  unfolding human_decision is_pending decide_before
  human_decision-done trusted c t target actor at reason expected previous h found = ground (
    arith,
    h.intact,
    h.open_status,
    h.in_time.1,
    h.in_time.2,
    validate_human_actor-none trusted actor h.human h.authenticated h.source h.named,
    h.reasoned,
    h.expected_evidence,
    append_event-done c previous t target actor at (strip reason) h.intact found,
  )

  human_decision_iff :
      (trusted : List String) (c : ApprovalCase) (t : ApprovalEventType) (target : ApprovalStatus)
      (actor : ApprovalActor) (at : ℕ) (reason : String) (expected : Option String)
      → ((d : ApprovalCase) × (human_decision services trusted c t target actor at reason expected
            ≡ done d))
        ↔ MayDecide trusted c actor at reason expected
  human_decision_iff trusted c t target actor at reason expected = (
    λ (d, h).
        let i = human_decision-inv trusted c t target actor at reason expected d h in
        let j = decide_before-inv trusted c t target actor at reason expected i.2.0 d i.2.2 in
        let k = validate_human_actor-inv trusted actor j.1 in
        record {
          intact = i.0;
          open_status = i.1;
          in_time = (i.2.0, i.2.1, j.0);
          human = k.0;
          authenticated = k.1;
          source = k.2;
          named = k.3;
          reasoned = j.2;
          expected_evidence = j.3;
        },
    λ h.
        let found = status-last c pending h.open_status in
        (
          extended services c found.0 t target actor at (strip reason),
          human_decision-done trusted c t target actor at reason expected found.0 h found.1,
        ),
  )

  -- An approval is accepted exactly when the case passes the integrity check and is pending, the
  -- request has not reached its expiry, the actor is an authenticated human operator with a name and
  -- from a trusted identity source, the reason is not blank, and the expected evidence fingerprint, if
  -- one is given, is the request's.
  pub approve_iff :
      (trusted : List String) (c : ApprovalCase) (actor : ApprovalActor) (at : ℕ) (reason : String)
      (expected : Option String)
      → ((d : ApprovalCase) × (approve services trusted c actor at reason expected ≡ done d))
        ↔ MayDecide trusted c actor at reason expected
  unfolding approve
  approve_iff trusted c actor at reason expected =
      human_decision_iff trusted c approved_event approved actor at reason expected
