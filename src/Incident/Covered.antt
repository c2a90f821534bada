-- ===== src/Incident/Covered.antt =====
-- The drilldown and the planner together: each incomplete day has its plan.
use ai_native_governed_data.Prelude.{
  ℕ, ◌≤◌, String, Bool, true, not, Option, some, List, [], ◌∷◌, map, ◌≡◌, refl, subst, ap, ◌∙◌,
  arith, Option-cases, Bool-cases, keep, any, null, null-eq, length, inl, inr, string_discrete,
}
use ai_native_governed_data.Recovery.State.{
  Facts, DagsterRun, RunStatus, RecoveryRuntimeState, state_of, shopify_daily_mart_asset_keys,
}
use ai_native_governed_data.Incident.{PartitionIncidentEvidence, PartitionResponsePlan}
use ai_native_governed_data.Incident.Evidence.{evidence_of, collect, result_of, inspect}
use ai_native_governed_data.Incident.Planner.{plan_partition}
use ai_native_governed_data.Incident.Plans.{collect-state}
use ai_native_governed_data.Incident.Followed.{plan_partition-key, evidence_of-collected}
use ai_native_governed_data.Incident.Aggregate.{
  incomplete_of, plan_incomplete, plan_complete, plan_by_status, plan,
}

-- A day on which some consumer mart is not materialized.
unfoldable pub is_due : Facts → Bool
is_due facts = any (λ key. not (facts.is_materialized key)) shopify_daily_mart_asset_keys

abbrev pub keys_of : List PartitionResponsePlan → List String
keys_of = map (λ part. part.partition_key)

abbrev pub days_of : List Facts → List String
days_of = map (λ facts. facts.partition_key)

null-keep : {A : Type 0} (test : A → Bool) (xs : List A) → null (keep test xs) ≡ not (any test xs)
null-keep test [] = refl
null-keep test (x ∷ xs) = ground (arith, null-keep test xs)

state_of-is_due : (facts : Facts) → not (state_of facts).observation.materialized ≡ is_due facts
unfolding state_of is_due
state_of-is_due facts = ground (
  arith,
  null-keep (λ (key : String). not (facts.is_materialized key)) shopify_daily_mart_asset_keys,
)

keys-plan_partition :
    (items : List PartitionIncidentEvidence)
    → keys_of (map plan_partition items) ≡ map (λ item. item.partition_key) items
keys-plan_partition [] = refl
keys-plan_partition (item ∷ items) =
    ground (arith, plan_partition-key item, keys-plan_partition items)

length-map : {A B : Type 0} (f : A → B) (xs : List A) → length (map f xs) ≡ length xs
length-map f [] = refl
length-map f (x ∷ xs) = ap (λ n. ℕ.suc n) (length-map f xs)

abbrev keys_of_incomplete : List PartitionIncidentEvidence → List String
keys_of_incomplete items = map (λ item. item.partition_key) (incomplete_of items)

next_due :
    (facts : Facts) (item : PartitionIncidentEvidence) (days : List Facts)
    (items : List PartitionIncidentEvidence)
    → item.partition_key ≡ facts.partition_key
    → not item.exact_partition_complete ≡ is_due facts
    → keys_of_incomplete items ≡ days_of (keep is_due days)
    → keys_of_incomplete (item ∷ items) ≡ days_of (keep is_due (facts ∷ days))
next_due facts item days items key due rest = ground arith

module _ (get_run_by_id : String → Option DagsterRun) (status_text : RunStatus → String) where
  item-is_due :
      (facts : Facts) (item : PartitionIncidentEvidence)
      → evidence_of get_run_by_id status_text facts ≡ some item
      → (item.partition_key ≡ facts.partition_key)
        × (not item.exact_partition_complete ≡ is_due facts)
  item-is_due facts item h =
      let (state, collected, key, complete) =
        evidence_of-collected get_run_by_id status_text facts item h in
      (
        key,
        ap (λ b. not b)
              (complete
                ∙ ap (λ (s : RecoveryRuntimeState). s.observation.materialized)
                    (collect-state facts state collected))
            ∙ state_of-is_due facts,
      )

  collect-due :
      (days : List Facts) (items : List PartitionIncidentEvidence)
      → collect get_run_by_id status_text days ≡ some items
      → map (λ item. item.partition_key) (incomplete_of items) ≡ days_of (keep is_due days)
  unfolding collect
  collect-due [] items h =
      let same : ◌≡◌ {A = List PartitionIncidentEvidence} [] items = ground arith in
      subst
        (λ xs.
          map (λ (item : PartitionIncidentEvidence). item.partition_key) (incomplete_of xs) ≡ [])
        same refl
  collect-due (facts ∷ days) items h =
      elim (Option-cases (evidence_of get_run_by_id status_text facts)) [
        | inl failed ↦ ground arith
        | inr (item, e) ↦ elim (Option-cases (collect get_run_by_id status_text days)) [
          | inl failed ↦ ground arith
          | inr (rest, f) ↦
              let (key, due) = item-is_due facts item e in
              let same : item ∷ rest ≡ items = ground arith in
              subst (λ xs. keys_of_incomplete xs ≡ days_of (keep is_due (facts ∷ days))) same
                (next_due facts item days rest key due (collect-due days rest f))
        ]
      ]

  inspect-collected :
      (read_failure : String) (items : List PartitionIncidentEvidence) (days : List Facts)
      → collect get_run_by_id status_text days ≡ some items
      → inspect get_run_by_id status_text read_failure days
        ≡ result_of get_run_by_id status_text items
  unfolding inspect
  inspect-collected read_failure items days h = ground arith

  plan-result_of :
      (gate : String) (max_partitions : ℕ) (items : List PartitionIncidentEvidence)
      → length (incomplete_of items) ≤ max_partitions
      → (plan gate true max_partitions (result_of get_run_by_id status_text items)).partitions
        ≡ map plan_partition (incomplete_of items)
  unfolding plan plan_by_status plan_complete plan_incomplete result_of string_discrete
  plan-result_of gate max_partitions items le = elim (Bool-cases (null (incomplete_of items))) [
    | inl empty ↦
        let nothing = null-eq (incomplete_of items) empty in ground (arith, empty, nothing)
    | inr there ↦ ground (arith, there, le)
  ]

  -- When the planner is permitted, the drilldown could collect the evidence of all its days, and no more
  -- of them than the limit are incomplete, then the response plan has exactly one partition's plan for
  -- each day on which some consumer mart is not materialized, in the order of the days.
  pub plan-covers :
      (read_failure : String) (days : List Facts) (items : List PartitionIncidentEvidence)
      (gate : String) (max_partitions : ℕ)
      → collect get_run_by_id status_text days ≡ some items
      → length (keep is_due days) ≤ max_partitions
      → keys_of
          (plan gate true max_partitions
            (inspect get_run_by_id status_text read_failure days)).partitions
        ≡ days_of (keep is_due days)
  plan-covers read_failure days items gate max_partitions h le =
      let due = collect-due days items h in
      let few : length (incomplete_of items) ≤ max_partitions = omega (
        arith,
        le,
        ap length due,
        length-map (λ (item : PartitionIncidentEvidence). item.partition_key) (incomplete_of items),
        length-map (λ (facts : Facts). facts.partition_key) (keep is_due days),
      ) in
      ap (λ incident. keys_of (plan gate true max_partitions incident).partitions)
        (inspect-collected read_failure items days h)
      ∙ ap keys_of (plan-result_of gate max_partitions items few)
      ∙ keys-plan_partition (incomplete_of items)
      ∙ due
