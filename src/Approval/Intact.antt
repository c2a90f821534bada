-- ===== src/Approval/Intact.antt =====
-- agent/approval_workflow/workflow.py: new and extended cases pass the integrity check.
use ai_native_governed_data.Prelude.{
  ℕ, ◌+◌, String, true, Option, none, some, List, [], ◌∷◌, ◌++◌, ◌≡◌, refl, arith, length,
}
use ai_native_governed_data.Incident.{
  PartitionIncidentEvidence, PartitionResponsePlan, IncidentResponseStep,
}
use ai_native_governed_data.Approval.{
  ApprovalStatus, pending, approval_status_value, ApprovalEventType, ApprovalActor, ApprovalRequest,
  ApprovalAuditEvent, ApprovalCase, last, request_body, event_body, requested_event,
}
use ai_native_governed_data.Approval.Chain.{
  Services, same, check_event, check_events, assert_integrity, starts_with_request, make_event,
  extended, new_request, create_case, workflow_actor,
}

same_refl : (s : String) → same s s ≡ true
same_refl s = ground arith

last-some :
    (y : ApprovalAuditEvent) (es : List ApprovalAuditEvent)
    → (z : ApprovalAuditEvent) × (last (y ∷ es) ≡ some z)
last-some y [] = (y, refl)
last-some y (z ∷ es) = ((last-some z es).0, ground (arith, last-some z es))

last-cons :
    (x y : ApprovalAuditEvent) (es : List ApprovalAuditEvent) (e : ApprovalAuditEvent)
    → last (x ∷ y ∷ es) ≡ some e
    → last (y ∷ es) ≡ some e
last-cons x y es e found = ground (arith, last-some y es)

module _ (services : Services) where
  check_event-none :
      (r : String) (n : ℕ) (h : String) (s : Option String) (e : ApprovalAuditEvent)
      → e.sequence ≡ n
      → e.request_hash ≡ r
      → e.previous_event_hash ≡ h
      → e.previous_status ≡ s
      → e.event_hash ≡ services.sha256 (event_body e)
      → check_event services r n h s e ≡ none
  unfolding check_event
  check_event-none r n h s e sequence request previous status hash = ground arith

  make_event-checks :
      (n : ℕ) (request : ApprovalRequest) (t : ApprovalEventType) (s : Option String)
      (target : ApprovalStatus) (at : ℕ) (actor : ApprovalActor) (reason h : String)
      → check_event services request.request_hash n h s
          (make_event services n request t s target at actor reason h)
        ≡ none
  unfolding make_event event_body
  make_event-checks n request t s target at actor reason h =
      check_event-none request.request_hash n h s
        (make_event services n request t s target at actor reason h) refl refl refl refl refl

  -- The loop's variables after some events.
  abbrev hash_after : String → List ApprovalAuditEvent → String
  hash_after h [] = h
  hash_after h (e ∷ es) = hash_after e.event_hash es

  abbrev status_after : Option String → List ApprovalAuditEvent → Option String
  status_after s [] = s
  status_after s (e ∷ es) = status_after (some (approval_status_value e.new_status)) es

  check_events-append :
      (r : String) (n : ℕ) (h : String) (s : Option String) (es : List ApprovalAuditEvent)
      (e : ApprovalAuditEvent)
      → check_events services r n h s es ≡ none
      → check_event services r (n + length es) (hash_after h es) (status_after s es) e ≡ none
      → check_events services r n h s (es ++ e ∷ []) ≡ none
  unfolding check_events
  check_events-append r n h s [] e ok last_ok = ground arith
  check_events-append r n h s (x ∷ es) e ok last_ok = ground (
    arith,
    check_events-append r (n + 1) x.event_hash (some (approval_status_value x.new_status)) es e,
  )

  after-last :
      (h : String) (s : Option String) (es : List ApprovalAuditEvent) (e : ApprovalAuditEvent)
      → last es ≡ some e
      → (hash_after h es ≡ e.event_hash)
        × (status_after s es ≡ some (approval_status_value e.new_status))
  after-last h s [] e found = ground arith
  after-last h s (x ∷ []) e found = ground arith
  after-last h s (x ∷ y ∷ es) e found =
      after-last x.event_hash (some (approval_status_value x.new_status)) (y ∷ es) e
        (last-cons x y es e found)

  -- What `assert_integrity` asks for.
  pub record Intact (c : ApprovalCase) : Type 0 where
    pub request_hash : services.sha256 (request_body c.request) ≡ c.request.request_hash
    pub chain : check_events services c.request.request_hash 1 "" none c.events ≡ none
    pub start : starts_with_request services c.events ≡ none

  pub intact : (c : ApprovalCase) → Intact c → assert_integrity services c ≡ none
  unfolding assert_integrity
  intact c h = ground (arith, h.request_hash, h.chain, h.start)

  pub Intact-inv : (c : ApprovalCase) → assert_integrity services c ≡ none → Intact c
  unfolding assert_integrity
  Intact-inv c h = record {
    request_hash = ground arith;
    chain = ground arith;
    start = ground arith;
  }

  new_request-hash :
      (incident_part : PartitionIncidentEvidence) (partition_plan : PartitionResponsePlan)
      (step : IncidentResponseStep) (requested_at expires_at : ℕ)
      → services.sha256 (
          request_body
            (create_case services incident_part partition_plan step requested_at
              expires_at).request)
        ≡ (create_case services incident_part partition_plan step requested_at
            expires_at).request.request_hash
  unfolding create_case new_request request_body
  new_request-hash incident_part partition_plan step requested_at expires_at = refl

  created-chain :
      (incident_part : PartitionIncidentEvidence) (partition_plan : PartitionResponsePlan)
      (step : IncidentResponseStep) (requested_at expires_at : ℕ)
      → check_events services
          (create_case services incident_part partition_plan step requested_at
            expires_at).request.request_hash
          1
          ""
          none
          (create_case services incident_part partition_plan step requested_at expires_at).events
        ≡ none
  unfolding create_case check_events
  created-chain incident_part partition_plan step requested_at expires_at = ground (
    arith,
    make_event-checks 1
        (new_request services incident_part partition_plan step requested_at expires_at)
        requested_event none pending requested_at (workflow_actor services)
        "human_required_response_step_created" "",
  )

  created-start :
      (incident_part : PartitionIncidentEvidence) (partition_plan : PartitionResponsePlan)
      (step : IncidentResponseStep) (requested_at expires_at : ℕ)
      → starts_with_request services
          (create_case services incident_part partition_plan step requested_at expires_at).events
        ≡ none
  unfolding create_case make_event
  created-start incident_part partition_plan step requested_at expires_at = refl

  pub create_case-intact :
      (incident_part : PartitionIncidentEvidence) (partition_plan : PartitionResponsePlan)
      (step : IncidentResponseStep) (requested_at expires_at : ℕ)
      → assert_integrity services
          (create_case services incident_part partition_plan step requested_at expires_at)
        ≡ none
  create_case-intact incident_part partition_plan step requested_at expires_at =
      intact (create_case services incident_part partition_plan step requested_at expires_at)
        (record {
          request_hash = new_request-hash incident_part partition_plan step requested_at expires_at;
          chain = created-chain incident_part partition_plan step requested_at expires_at;
          start = created-start incident_part partition_plan step requested_at expires_at;
        })

  starts-append :
      (es : List ApprovalAuditEvent) (e : ApprovalAuditEvent)
      → starts_with_request services es ≡ none
      → starts_with_request services (es ++ e ∷ []) ≡ none
  starts-append es e h = ground arith

  extension-checks :
      (c : ApprovalCase) (previous : ApprovalAuditEvent) (t : ApprovalEventType)
      (target : ApprovalStatus) (actor : ApprovalActor) (at : ℕ) (reason : String)
      → (hash_after "" c.events ≡ previous.event_hash)
        × (status_after none c.events ≡ some (approval_status_value previous.new_status))
      → check_event services c.request.request_hash
          (1 + length c.events)
          (hash_after "" c.events)
          (status_after none c.events)
          (make_event services
            (length c.events + 1)
            c.request
            t
            (some (approval_status_value previous.new_status))
            target
            at
            actor
            reason
            previous.event_hash)
        ≡ none
  extension-checks c previous t target actor at reason after =
      let plus_one : 1 + length c.events ≡ length c.events + 1 = omega arith in
      rw (after.0, after.1, plus_one, make_event-checks _ c.request t _ target at actor reason _)

  pub extended-intact :
      (c : ApprovalCase) (previous : ApprovalAuditEvent) (t : ApprovalEventType)
      (target : ApprovalStatus) (actor : ApprovalActor) (at : ℕ) (reason : String)
      → assert_integrity services c ≡ none
      → last c.events ≡ some previous
      → assert_integrity services (extended services c previous t target actor at reason) ≡ none
  unfolding extended
  extended-intact c previous t target actor at reason ok found =
      let h = Intact-inv c ok in
      let after = after-last "" none c.events previous found in
      intact _ (record {
        request_hash = h.request_hash;
        chain =
            check_events-append c.request.request_hash 1 "" none c.events _ h.chain
              ((extension-checks c previous t target actor at reason after));
        start = starts-append c.events _ h.start;
      })
