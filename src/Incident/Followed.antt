-- ===== src/Incident/Followed.antt =====
-- The drilldown, the recovery policy and the planner together: where a whole response plan comes from.
use ai_native_governed_data.Prelude.{
  ℕ, String, Bool, true, false, not, Option, some, List, [], ◌∷◌, map, ◌≡◌, ◌⊎◌, ◌↔◌, inl, inr,
  refl, sym, subst, ◌∙◌, arith, All, Option-cases, Bool-cases, keep,
}
use ai_native_governed_data.Recovery.Policy.{
  RecoveryAction, alert_and_wait, alert_manual, no_action, wait, auto_replay, decide_recovery,
  default_max_auto_replays,
}
use ai_native_governed_data.Recovery.State.{
  Facts, DagsterRun, RunStatus, RecoveryRuntimeState, collect_partition_recovery_state,
}
use ai_native_governed_data.Incident.{
  PartitionIncidentEvidence, PartitionResponsePlan, IncidentDrilldownResult,
  human_approval_required,
}
use ai_native_governed_data.Incident.Evidence.{evidence_of, collect, deferred, result_of, inspect}
use ai_native_governed_data.Incident.Planner.{plan_partition, wait_plan, manual_plan, blocked_plan}
use ai_native_governed_data.Incident.Plans.{
  AsksHuman, status_for, plan_partition-follows_policy, human_approval_required_iff,
}
use ai_native_governed_data.Incident.Aggregate.{
  incomplete_of, plan_incomplete, plan_complete, plan_by_status, plan,
}

pub data OneOf {A : Type 0} (x : A) : List A → Type 0 where
  first : {xs : List A} → OneOf x (x ∷ xs)
  later : {y : A} {xs : List A} → OneOf x xs → OneOf x (y ∷ xs)

-- The actions of the recovery policy that call for a human.
abbrev pub Alerts : RecoveryAction → Type 0
Alerts action = (action ≡ alert_and_wait) ⊎ (action ≡ alert_manual)

status_for-Alerts : (action : RecoveryAction) → AsksHuman (status_for action) ↔ Alerts action
status_for-Alerts no_action = (λ h. ground arith, λ h. ground arith)
status_for-Alerts wait = (λ h. ground arith, λ h. ground arith)
status_for-Alerts auto_replay = (λ h. ground arith, λ h. ground arith)
status_for-Alerts alert_and_wait = (λ h. inl refl, λ h. inl refl)
status_for-Alerts alert_manual = (λ h. inr refl, λ h. inl refl)

-- The action that the policy chooses for a partition's state.
abbrev pub policy_action : RecoveryRuntimeState → RecoveryAction
policy_action state = (decide_recovery state.observation default_max_auto_replays).action

-- A partition's plan that answers the recovery state of one of the days.
pub record Follows (days : List Facts) (part : PartitionResponsePlan) : Type 0 where
  pub facts : Facts
  pub state : RecoveryRuntimeState
  pub is_day : OneOf facts days
  pub collected : collect_partition_recovery_state facts ≡ some state
  pub same_key : part.partition_key ≡ facts.partition_key
  pub incomplete : state.observation.materialized ≡ false
  pub follows : part.status ≡ status_for (policy_action state)
  pub asks : (human_approval_required part ≡ true) ↔ Alerts (policy_action state)

pub plan_partition-key :
    (item : PartitionIncidentEvidence) → (plan_partition item).partition_key ≡ item.partition_key
unfolding plan_partition wait_plan manual_plan blocked_plan
plan_partition-key item = ground arith

keep-All :
    {A : Type 0} (test : A → Bool) (P : A → Type 0) (xs : List A)
    → All P xs
    → All (λ x. P x × (test x ≡ true)) (keep test xs)
keep-All test P [] all = tt
keep-All {A} test P (x ∷ xs) all =
    let rest = keep-All test P xs all.1 in
    elim (Bool-cases (test x)) [
      | inl e ↦
          let same : x ∷ keep test xs ≡ keep test (x ∷ xs) = ground arith in
          subst (All (λ (y : A). P y × (test y ≡ true))) same ((all.0, e), rest)
      | inr e ↦
          let same : keep test xs ≡ keep test (x ∷ xs) = ground arith in
          subst (All (λ (y : A). P y × (test y ≡ true))) same rest
    ]

map-All :
    {A B : Type 0} (f : A → B) (P : A → Type 0) (Q : B → Type 0) (xs : List A)
    → ((x : A) → P x → Q (f x))
    → All P xs
    → All Q (map f xs)
map-All f P Q [] step all = tt
map-All f P Q (x ∷ xs) step all = (step x all.0, map-All f P Q xs step all.1)

-- The plans of a response plan are those of the incomplete partitions, or there is none.
plan-partitions :
    (gate : String) (is_allowed : Bool) (max_partitions : ℕ) (incident : IncidentDrilldownResult)
    → ((plan gate is_allowed max_partitions incident).partitions ≡ [])
      ⊎ ((plan gate is_allowed max_partitions incident).partitions
          ≡ map plan_partition (incomplete_of incident.partitions))
unfolding plan plan_by_status plan_complete plan_incomplete
plan-partitions gate is_allowed max_partitions incident = ground arith

module _ (get_run_by_id : String → Option DagsterRun) (status_text : RunStatus → String) where
  -- Evidence that was collected of one of the days.
  record Evidenced (days : List Facts) (item : PartitionIncidentEvidence) : Type 0 where
    facts : Facts
    state : RecoveryRuntimeState
    is_day : OneOf facts days
    collected : collect_partition_recovery_state facts ≡ some state
    built : evidence_of get_run_by_id status_text facts ≡ some item

  pub evidence_of-collected :
      (facts : Facts) (item : PartitionIncidentEvidence)
      → evidence_of get_run_by_id status_text facts ≡ some item
      → (state : RecoveryRuntimeState) × (collect_partition_recovery_state facts ≡ some state)
        × (item.partition_key ≡ facts.partition_key)
        × (item.exact_partition_complete ≡ state.observation.materialized)
  unfolding evidence_of
  evidence_of-collected facts item h =
      elim (Option-cases (collect_partition_recovery_state facts)) [
        | inl failed ↦ ground arith
        | inr (state, e) ↦ (state, e, ground arith, ground arith)
      ]

  collect-Evidenced :
      (days whole : List Facts) (items : List PartitionIncidentEvidence)
      → ((facts : Facts) → OneOf facts days → OneOf facts whole)
      → collect get_run_by_id status_text days ≡ some items
      → All (Evidenced whole) items
  unfolding collect
  collect-Evidenced [] whole items inside h =
      let same : ◌≡◌ {A = List PartitionIncidentEvidence} [] items = ground arith in
      subst (λ xs. All (Evidenced whole) xs) same tt
  collect-Evidenced (facts ∷ days) whole items inside h =
      elim (Option-cases (evidence_of get_run_by_id status_text facts)) [
        | inl failed ↦ ground arith
        | inr (item, e) ↦ elim (Option-cases (collect get_run_by_id status_text days)) [
          | inl failed ↦ ground arith
          | inr (rest, f) ↦
              let (state, collected, key, complete) = evidence_of-collected facts item e in
              let same : item ∷ rest ≡ items = ground arith in
              subst (λ xs. All (Evidenced whole) xs) same
                (
                  record {
                    facts = facts;
                    state = state;
                    is_day = inside facts first;
                    collected = collected;
                    built = e;
                  },
                  collect-Evidenced days whole rest (λ g m. inside g (later m)) f,
                )
        ]
      ]

  inspect-Evidenced :
      (read_failure : String) (days : List Facts)
      → All (Evidenced days) (inspect get_run_by_id status_text read_failure days).partitions
  unfolding inspect deferred result_of
  inspect-Evidenced read_failure days =
      elim (Option-cases (collect get_run_by_id status_text days)) [
        | inl failed ↦
            let same : [] ≡ (inspect get_run_by_id status_text read_failure days).partitions =
              ground arith in
            subst (λ xs. All (Evidenced days) xs) same tt
        | inr (items, e) ↦
            let same : items ≡ (inspect get_run_by_id status_text read_failure days).partitions =
              ground arith in
            subst (λ xs. All (Evidenced days) xs) same
              (collect-Evidenced days days items (λ facts m. m) e)
      ]

  plan_partition-Follows :
      (days : List Facts) (item : PartitionIncidentEvidence)
      → Evidenced days item × (not item.exact_partition_complete ≡ true)
      → Follows days (plan_partition item)
  plan_partition-Follows days item (x, open_) =
      let (state, collected, key, complete) = evidence_of-collected x.facts item x.built in
      let follows =
        plan_partition-follows_policy get_run_by_id status_text x.facts state item collected
          x.built in
      let asks = human_approval_required_iff item in
      let alerts = status_for-Alerts (policy_action state) in
      record {
        facts = x.facts;
        state = state;
        is_day = x.is_day;
        collected = collected;
        same_key = plan_partition-key item ∙ key;
        incomplete = ground arith;
        follows = follows;
        asks = (
          λ h. alerts.0 (subst AsksHuman follows (asks.0 h)),
          λ a. asks.1 (subst AsksHuman (sym follows) (alerts.1 a)),
        );
      }

  -- Every partition's plan in the response plan that the planner makes of the drilldown's result, under
  -- any gate and any limit, is about one of the days that were drilled into: that day's recovery state
  -- is incomplete, the plan has the day's partition key and the status that belongs to the action the
  -- recovery policy chooses for the state, and it asks for a human exactly when that action is
  -- ALERT_AND_WAIT or ALERT_MANUAL.
  pub plan-inspect :
      (read_failure : String) (days : List Facts) (gate : String) (is_allowed : Bool)
      (max_partitions : ℕ)
      → All
          (Follows days)
          (plan gate is_allowed max_partitions
            (inspect get_run_by_id status_text read_failure days)).partitions
  plan-inspect read_failure days gate is_allowed max_partitions =
      let incident = inspect get_run_by_id status_text read_failure days in
      elim (plan-partitions gate is_allowed max_partitions incident) [
        | inl none_made ↦ subst (λ xs. All (Follows days) xs) (sym none_made) tt
        | inr made ↦
            subst (λ xs. All (Follows days) xs) (sym made)
              (map-All plan_partition
                (λ item. Evidenced days item × (not item.exact_partition_complete ≡ true))
                (Follows days) (incomplete_of incident.partitions) (plan_partition-Follows days)
                (keep-All (λ item. not item.exact_partition_complete) (Evidenced days)
                  incident.partitions (inspect-Evidenced read_failure days)))
      ]
