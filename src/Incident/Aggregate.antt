-- ===== src/Incident/Aggregate.antt =====
-- agent/incident_response/planner.py, `plan`: the plan of a whole incident, and its overall status.
use ai_native_governed_data.Prelude.{
  says, ℕ, String, Bool, true, false, not, ◌&&◌, List, [], ◌∷◌, ◌++◌, map, if◌then◌else◌, ltb,
  length, keep, any, null,
}
use ai_native_governed_data.Recovery.Policy.{decimal}
use ai_native_governed_data.Incident.{
  PartitionIncidentEvidence, IncidentDrilldownStatus, IncidentDrilldownResult,
  IncidentResponseStatus, PartitionResponsePlan, IncidentResponsePlan,
}
use ai_native_governed_data.Incident.Planner.{plan_partition}
use Prim.Native.String

-- `list(dict.fromkeys(texts))`
unfoldable pub distinct : List String → List String
distinct [] = []
distinct (text ∷ texts) = text ∷ keep (λ other. not (says other text)) (distinct texts)

unfoldable pub is_blocked : IncidentResponseStatus → Bool
is_blocked s = elim s [ IncidentResponseStatus.blocked ↦ true | _ ↦ false ]

unfoldable pub is_human_action : IncidentResponseStatus → Bool
is_human_action s = elim s [ IncidentResponseStatus.human_action_required ↦ true | _ ↦ false ]

unfoldable pub is_delegated : IncidentResponseStatus → Bool
is_delegated s = elim s [ IncidentResponseStatus.delegated ↦ true | _ ↦ false ]

unfoldable pub is_waiting : IncidentResponseStatus → Bool
is_waiting s = elim s [ IncidentResponseStatus.waiting ↦ true | _ ↦ false ]

unfoldable pub is_no_action : IncidentResponseStatus → Bool
is_no_action s = elim s [ IncidentResponseStatus.no_action ↦ true | _ ↦ false ]

-- The set `statuses` has one element, that `test` picks out: some status passes and none fails.
abbrev pub is_only : (IncidentResponseStatus → Bool) → List IncidentResponseStatus → Bool
is_only test statuses = any test statuses && not (any (λ s. not (test s)) statuses)

unfoldable pub overall : List IncidentResponseStatus → IncidentResponseStatus
overall statuses =
    if any is_blocked statuses
    then IncidentResponseStatus.blocked
    else if any is_human_action statuses
    then (if is_only is_human_action statuses
        then IncidentResponseStatus.human_action_required
        else IncidentResponseStatus.partial)
    else if any is_delegated statuses
    then (if is_only is_delegated statuses
        then IncidentResponseStatus.delegated
        else IncidentResponseStatus.partial)
    else if any is_waiting statuses
    then (if is_only is_waiting statuses
        then IncidentResponseStatus.waiting
        else IncidentResponseStatus.partial)
    else if is_only is_no_action statuses
    then IncidentResponseStatus.no_action
    else IncidentResponseStatus.partial

abbrev pub bare : IncidentResponseStatus → String → List String → String → IncidentResponsePlan
bare status evidence warnings validation = record {
  status = status;
  evidence = evidence;
  partitions = [];
  warnings = warnings;
  validation = validation;
}

abbrev blocked_warning : PartitionResponsePlan → String
blocked_warning part = String.◌++◌ "Partition " (
    String.◌++◌ part.partition_key
      " has a fail-closed recovery state that cannot be translated into an advisory response plan.")

unfoldable pub plan_incomplete : List PartitionIncidentEvidence → IncidentResponsePlan
unfolding overall distinct
plan_incomplete incomplete =
    let plans = map plan_partition incomplete in
    record {
      status = overall (map (λ (part : PartitionResponsePlan). part.status) plans);
      evidence = "RUNTIME_VERIFIED";
      partitions = plans;
      warnings = distinct (map blocked_warning (keep (λ part. is_blocked part.status) plans));
      validation = "ADVISORY_RESPONSE_PLAN_BUILT_NO_AGENT_EXECUTION_AUTHORITY";
    }

abbrev pub incomplete_of : List PartitionIncidentEvidence → List PartitionIncidentEvidence
incomplete_of = keep (λ item. not item.exact_partition_complete)

abbrev pub nothing_to_do : IncidentResponsePlan
nothing_to_do =
    bare IncidentResponseStatus.no_action "RUNTIME_VERIFIED" []
      "NO_INCOMPLETE_PARTITION_NO_RESPONSE_ACTION"

abbrev pub over_limit : ℕ → IncidentResponsePlan
over_limit max_partitions =
    bare IncidentResponseStatus.blocked "RUNTIME_VERIFIED"
      (String.◌++◌ "Incident response supports at most "
          (String.◌++◌ (decimal max_partitions) " incomplete partitions per plan.")
        ∷ [])
      "INCIDENT_RESPONSE_PARTITION_LIMIT_EXCEEDED"

-- A complete incident with runtime evidence.
unfoldable pub plan_complete : ℕ → List PartitionIncidentEvidence → IncidentResponsePlan
unfolding plan_incomplete
plan_complete max_partitions partitions =
    if null (incomplete_of partitions)
    then nothing_to_do
    else if ltb max_partitions (length (incomplete_of partitions))
    then over_limit max_partitions
    else plan_incomplete (incomplete_of partitions)

abbrev not_complete : IncidentDrilldownResult → IncidentResponseStatus → IncidentResponsePlan
not_complete incident status =
    bare status incident.evidence incident.warnings "INCIDENT_DRILLDOWN_NOT_COMPLETE"

unfoldable pub plan_by_status :
    ℕ → IncidentDrilldownResult → IncidentDrilldownStatus → IncidentResponsePlan
unfolding plan_complete
plan_by_status max_partitions incident IncidentDrilldownStatus.no_incident = nothing_to_do
plan_by_status max_partitions incident IncidentDrilldownStatus.deferred =
    not_complete incident IncidentResponseStatus.deferred
plan_by_status max_partitions incident IncidentDrilldownStatus.blocked =
    not_complete incident IncidentResponseStatus.blocked
plan_by_status max_partitions incident IncidentDrilldownStatus.error =
    not_complete incident IncidentResponseStatus.error
plan_by_status max_partitions incident IncidentDrilldownStatus.partial =
    not_complete incident IncidentResponseStatus.partial
plan_by_status max_partitions incident IncidentDrilldownStatus.complete =
    plan_complete max_partitions incident.partitions

abbrev pub switched_off : String → IncidentResponsePlan
switched_off gate =
    bare IncidentResponseStatus.deferred "STATIC_CONTRACT"
      (String.◌++◌ "Incident-response planning is disabled; set "
          (String.◌++◌ gate "=true only in the intended runtime environment.")
        ∷ [])
      "NOT_EXECUTED"

abbrev pub not_verified : IncidentDrilldownResult → IncidentResponsePlan
unfolding distinct
not_verified incident =
    bare IncidentResponseStatus.deferred incident.evidence
      (distinct (
        incident.warnings
        ++ "Incident-response planning requires RUNTIME_VERIFIED Phase 6D structured incident evidence."
          ∷ []))
      "INCIDENT_EVIDENCE_NOT_RUNTIME_VERIFIED"

unfoldable pub plan : String → Bool → ℕ → IncidentDrilldownResult → IncidentResponsePlan
unfolding plan_by_status
plan gate is_allowed max_partitions incident =
    if not is_allowed
    then switched_off gate
    else if not (says incident.evidence "RUNTIME_VERIFIED")
    then not_verified incident
    else plan_by_status max_partitions incident incident.status
