-- ===== src/Incident/Plans.antt =====
-- agent/incident_response/planner.py with provider_current.py: what a partition's plan contains.
use ai_native_governed_data.Prelude.{
  ◌≡◌, ◌≢◌, ◌↔◌, ◌⊎◌, refl, String, true, false, Option, some, List, [], ◌∷◌, arith, sym, subst, ap,
  ◌∙◌, string_discrete, map, null, not,
}
use ai_native_governed_data.Recovery.Policy.{
  RecoveryAction, no_action, wait, auto_replay, alert_and_wait, alert_manual, observe,
  RecoveryObservation, decide_recovery, default_max_auto_replays, decide_by_class, action_value,
}
use ai_native_governed_data.Recovery.State.{
  RecoveryRuntimeState, active_runs, Facts, DagsterRun, RunStatus, collect_partition_recovery_state,
  state_of,
}
use ai_native_governed_data.Incident.{
  PartitionIncidentEvidence, IncidentResponseStatus, is_human_required, human_approval_required,
}
use ai_native_governed_data.Incident.Evidence.{evidence_of}
use ai_native_governed_data.Incident.Planner.{
  plan_partition, wait_plan, manual_plan, blocked_plan, cause_step, append_step,
}

-- The plan waits for a human, that is, for an operator or the fail-closed review.
abbrev pub AsksHuman : IncidentResponseStatus → Type 0
AsksHuman status =
    (status ≡ IncidentResponseStatus.human_action_required)
    ⊎ (status ≡ IncidentResponseStatus.blocked)

-- A partition's plan asks for a human's approval exactly when its status is HUMAN_ACTION_REQUIRED or
-- BLOCKED.
pub human_approval_required_iff :
    (item : PartitionIncidentEvidence)
    → (human_approval_required (plan_partition item) ≡ true)
      ↔ AsksHuman (plan_partition item).status
unfolding plan_partition wait_plan manual_plan append_step blocked_plan cause_step
    human_approval_required is_human_required
human_approval_required_iff item = ground arith

-- The plan's status for each action of the recovery policy.
abbrev pub status_for : RecoveryAction → IncidentResponseStatus
status_for no_action = IncidentResponseStatus.no_action
status_for wait = IncidentResponseStatus.waiting
status_for auto_replay = IncidentResponseStatus.delegated
status_for alert_and_wait = IncidentResponseStatus.human_action_required
status_for alert_manual = IncidentResponseStatus.human_action_required

-- What the planner reads of the policy's decision.
record Explained (o : RecoveryObservation) (action : RecoveryAction) (reason : String)
    : Type 0 where
  closed : o.materialized ≡ true → action ≡ no_action
  open_ : o.materialized ≡ false → action ≢ no_action
  waits : action ≡ wait → (o.active_run ≡ true) ⊎ (reason ≡ "within_freshness_budget")

decide_recovery-Explained :
    (o : RecoveryObservation)
    → Explained o (decide_recovery o 1).action (decide_recovery o 1).reason_code
unfolding decide_recovery decide_by_class
decide_recovery-Explained o = record {
  closed = ground arith;
  open_ = ground arith;
  waits = ground arith;
}

null-map : {A B : Type 0} (f : A → B) (xs : List A) → null (map f xs) ≡ null xs
null-map f [] = refl
null-map f (x ∷ xs) = refl

pub collect-state :
    (facts : Facts) (state : RecoveryRuntimeState)
    → collect_partition_recovery_state facts ≡ some state
    → state ≡ state_of facts
unfolding collect_partition_recovery_state observe
collect-state facts state h = ground arith

state_of-owner :
    (facts : Facts)
    → (state_of facts).observation.active_run ≡ not (null (state_of facts).active_run_ids)
unfolding state_of
state_of-owner facts =
    ground (arith, null-map (λ (run : DagsterRun). run.run_id) (active_runs facts.runs))

wait_plan-status :
    (item : PartitionIncidentEvidence)
    → (null item.recovery.active_run_ids ≡ false)
      ⊎ (item.recovery.reason_code ≡ "within_freshness_budget")
    → (wait_plan item).status ≡ IncidentResponseStatus.waiting
unfolding wait_plan blocked_plan
wait_plan-status item h = ground arith

acting-incomplete :
    (item : PartitionIncidentEvidence) (o : RecoveryObservation) (chosen : RecoveryAction)
    → (o.materialized ≡ true → chosen ≡ no_action)
    → chosen ≢ no_action
    → item.exact_partition_complete ≡ o.materialized
    → item.exact_partition_complete ≡ false
acting-incomplete item o chosen closed acts complete = ground arith

-- A partition's plan from a decision's fields.
plan_partition-of_action :
    (item : PartitionIncidentEvidence) (o : RecoveryObservation) (action : RecoveryAction)
    → Explained o action item.recovery.reason_code
    → item.recovery.action ≡ action_value action
    → item.exact_partition_complete ≡ o.materialized
    → o.active_run ≡ not (null item.recovery.active_run_ids)
    → (plan_partition item).status ≡ status_for action
unfolding plan_partition manual_plan append_step action_value string_discrete
plan_partition-of_action item o no_action x named complete owner = ground (arith, x.open_)
plan_partition-of_action item o wait x named complete owner =
    ground (arith, x.closed, x.waits refl, wait_plan-status item)
plan_partition-of_action item o auto_replay x named complete owner =
    rw (acting-incomplete item o _ x.closed (ground arith) complete, named)
plan_partition-of_action item o alert_and_wait x named complete owner =
    rw (acting-incomplete item o _ x.closed (ground arith) complete, named)
plan_partition-of_action item o alert_manual x named complete owner =
    rw (acting-incomplete item o _ x.closed (ground arith) complete, named)

state-owner :
    (facts : Facts) (state : RecoveryRuntimeState)
    → collect_partition_recovery_state facts ≡ some state
    → state.observation.active_run ≡ not (null state.active_run_ids)
state-owner facts state h =
    subst (λ (s : RecoveryRuntimeState). s.observation.active_run ≡ not (null s.active_run_ids))
      (sym (collect-state facts state h)) (state_of-owner facts)

module _ (get_run_by_id : String → Option DagsterRun) (status_text : RunStatus → String) where
  -- The fields of the evidence that the planner reads.
  record Reads (item : PartitionIncidentEvidence) (state : RecoveryRuntimeState) : Type 0 where
    reason :
        item.recovery.reason_code
        ≡ (decide_recovery state.observation default_max_auto_replays).reason_code
    action :
        item.recovery.action
        ≡ action_value (decide_recovery state.observation default_max_auto_replays).action
    complete : item.exact_partition_complete ≡ state.observation.materialized
    owners : item.recovery.active_run_ids ≡ state.active_run_ids

  evidence_of-Reads :
      (facts : Facts) (state : RecoveryRuntimeState) (item : PartitionIncidentEvidence)
      → collect_partition_recovery_state facts ≡ some state
      → evidence_of get_run_by_id status_text facts ≡ some item
      → Reads item state
  unfolding evidence_of
  evidence_of-Reads facts state item collected built = record {
    reason = ground arith;
    action = ground arith;
    complete = ground arith;
    owners = ground arith;
  }

  -- The plan for the evidence that the drilldown collects of a partition has the status that belongs
  -- to the action of the recovery policy, so that such a plan is never BLOCKED.
  pub plan_partition-follows_policy :
      (facts : Facts) (state : RecoveryRuntimeState) (item : PartitionIncidentEvidence)
      → collect_partition_recovery_state facts ≡ some state
      → evidence_of get_run_by_id status_text facts ≡ some item
      → (plan_partition item).status
        ≡ status_for (decide_recovery state.observation default_max_auto_replays).action
  plan_partition-follows_policy facts state item collected built =
      let reads = evidence_of-Reads facts state item collected built in
      plan_partition-of_action item state.observation _
        (subst (Explained state.observation _) (sym reads.reason)
          (decide_recovery-Explained state.observation))
        reads.action reads.complete
        (state-owner facts state collected ∙ ap (λ xs. not (null xs)) (sym reads.owners))
