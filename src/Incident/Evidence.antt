-- ===== src/Incident/Evidence.antt =====
-- agent/incident_drilldown/provider_current.py: the evidence of the partitions of a query's days.
-- Dagster's records of each day are arguments, and so are its lookup of a run by id and the text of
-- a run's status.
use ai_native_governed_data.Prelude.{
  String, Bool, true, false, not, Option, none, some, List, [], ◌∷◌, if◌then◌else◌, keep, any, null,
  is_empty, string_discrete,
}
use ai_native_governed_data.Prelude.Dict.{lookup}
use ai_native_governed_data.Recovery.Policy.{
  decide_recovery, action_value, default_max_auto_replays,
}
use ai_native_governed_data.Recovery.State.{
  Facts, DagsterRun, RunStatus, says_auto, collect_partition_recovery_state,
}
use ai_native_governed_data.Incident.{
  FailedRunEvidence, PartitionIncidentEvidence, IncidentDrilldownResult, IncidentDrilldownStatus,
}

abbrev or_unknown : Option String → String
or_unknown none = "unknown"
or_unknown (some v) = v

module _ (get_run_by_id : String → Option DagsterRun) (status_text : RunStatus → String) where
  abbrev failed_run_evidence : String → DagsterRun → FailedRunEvidence
  failed_run_evidence run_id run =
      let tag = λ (key : String). lookup string_discrete key run.tags in
      record {
        run_id = run_id;
        status = status_text run.status;
        failure_class = or_unknown (tag "commerce/failure_class");
        failure_source = tag "commerce/failure_class_source";
        failure_component = tag "commerce/failure_component";
        failure_reason = tag "commerce/failure_reason";
        failure_stage = tag "commerce/failure_stage";
      }

  unfoldable pub latest_failed_run_evidence : Option String → Option FailedRunEvidence
  latest_failed_run_evidence none = none
  latest_failed_run_evidence (some run_id) =
      if is_empty run_id then none else elim (get_run_by_id run_id) [
        | none ↦ none
        | some run ↦ some (failed_run_evidence run_id run)
      ]

  unfoldable pub run_tag : String → String → Option String
  run_tag run_id tag = elim (get_run_by_id run_id) [
    | none ↦ none
    | some run ↦ lookup string_discrete tag run.tags
  ]

  -- One turn of the loop over the days; `none` where reading the records raises.
  unfoldable pub evidence_of : Facts → Option PartitionIncidentEvidence
  unfolding run_tag
  evidence_of facts = elim (collect_partition_recovery_state facts) [
    | none ↦ none
    | some state ↦
        let decision = decide_recovery state.observation default_max_auto_replays in
        some (record {
          partition_key = facts.partition_key;
          freshness_overdue = facts.freshness_overdue;
          exact_partition_complete = state.observation.materialized;
          missing_mart_asset_keys = state.missing_mart_asset_keys;
          run_ids = state.run_ids;
          failed_run_ids = state.failed_run_ids;
          successful_run_ids = state.successful_run_ids;
          latest_failed_run = latest_failed_run_evidence state.latest_failed_run_id;
          recovery = record {
            action = action_value decision.action;
            reason_code = decision.reason_code;
            explanation = decision.explanation;
            observed_auto_replay_attempts = state.observation.auto_replay_attempts;
            active_run_ids = state.active_run_ids;
            active_recovery_run_ids =
                keep (λ run_id. says_auto (run_tag run_id "commerce/recovery"))
                  state.active_run_ids;
          };
          infrastructure_healthy = facts.infrastructure_healthy;
        })
  ]

  unfoldable pub collect : List Facts → Option (List PartitionIncidentEvidence)
  collect [] = some []
  collect (facts ∷ days) =
      let rest = collect days in
      elim (evidence_of facts) [
        | none ↦ none
        | some item ↦ elim rest [ none ↦ none | some items ↦ some (item ∷ items) ]
      ]

  unfoldable pub deferred : String → IncidentDrilldownResult
  deferred detail = record {
    status = IncidentDrilldownStatus.deferred;
    evidence = "DEFERRED";
    partitions = [];
    warnings = detail ∷ [];
    validation = "RUNTIME_EVIDENCE_UNAVAILABLE";
  }

  abbrev lacks_failed_run : PartitionIncidentEvidence → Bool
  lacks_failed_run item = elim item.latest_failed_run [ none ↦ true | some e ↦ false ]

  unfoldable pub result_of : List PartitionIncidentEvidence → IncidentDrilldownResult
  result_of partitions =
      let incomplete =
        keep (λ (item : PartitionIncidentEvidence). not item.exact_partition_complete) partitions in
      if null incomplete
      then record {
        status = IncidentDrilldownStatus.no_incident;
        evidence = "RUNTIME_VERIFIED";
        partitions = partitions;
        warnings = [];
        validation = "ALL_QUERIED_PARTITIONS_COMPLETE";
      }
      else record {
        status = IncidentDrilldownStatus.complete;
        evidence = "RUNTIME_VERIFIED";
        partitions = partitions;
        warnings =
            if any lacks_failed_run incomplete
            then "At least one incomplete partition has no structured failed-run evidence; do not invent a failure cause from absence of a run."
              ∷ []
            else [];
        validation = "STRUCTURED_INCIDENT_EVIDENCE_COLLECTED";
      }

  -- The end of `inspect`, where the runtime is there and the window is parsed. The text of the
  -- exception is an argument.
  unfoldable pub inspect : String → List Facts → IncidentDrilldownResult
  unfolding collect deferred result_of
  inspect read_failure days = elim (collect days) [
    | none ↦ deferred read_failure
    | some partitions ↦ result_of partitions
  ]
