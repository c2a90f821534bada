-- ===== src/SemanticQuery/Execute/Guarded.antt =====
-- What a run of the executor did, from its result and the command lines it ran.
use ai_native_governed_data.Prelude.{
  ◌≤◌, true, Option, none, some, [], ◌∷◌, ◌≡◌, ◌⊎◌, inl, inr, refl, sym, subst, ap, ◌∙◌, null,
  null-eq, length, ltb, arith, Bool-cases,
}
use ai_native_governed_data.Prelude.Integers.{pos, is_zero, is_zero-eq}
use ai_native_governed_data.Prelude.Words.{except, Subset, except-Subset}
use ai_native_governed_data.SemanticQuery.{
  complete, blocked, SemanticQuerySpec, metric_names, QueryWarning, note, execution_disabled,
  cli_missing, SemanticQueryPlan, SemanticQueryResult,
}
use ai_native_governed_data.SemanticQuery.Commands.{command_args}
use ai_native_governed_data.SemanticQuery.Execute.{
  Trace, deferred_result, Artifact, CompletedProcess, Surroundings, run, check_artifact,
  explain_cmd, query_cmd, complete_result, after_query, explain_then_query, execute_scoped,
}

check_artifact-evidence :
    (plan : SemanticQueryPlan) (spec : SemanticQuerySpec) (found : Artifact)
    → (check_artifact plan spec found).evidence ≡ "RUNTIME_VERIFIED"
unfolding check_artifact
check_artifact-evidence plan spec found = ground arith

after_query-evidence :
    (plan : SemanticQueryPlan) (spec : SemanticQuerySpec) (queried : CompletedProcess)
    (found : Option Artifact)
    → (after_query plan spec queried found).evidence ≡ "RUNTIME_VERIFIED"
unfolding after_query
after_query-evidence plan spec queried none = ground arith
after_query-evidence plan spec queried (some artifact) =
    ground (arith, check_artifact-evidence plan spec artifact)

abbrev pub previewed : SemanticQueryPlan → SemanticQuerySpec → SemanticQueryPlan
previewed plan spec = record plan { command_preview = command_args spec }

-- Nothing was run, or every gate was open.
pub execute_scoped-cases :
    (around : Surroundings) (plan : SemanticQueryPlan) (spec : SemanticQuerySpec)
    → ((reason : QueryWarning) × (execute_scoped around plan spec
          ≡ (deferred_result (previewed plan spec) reason, [])))
      ⊎ ((around.gate_open ≡ true)
          × (execute_scoped around plan spec
              ≡ explain_then_query around (previewed plan spec) spec))
unfolding execute_scoped
execute_scoped-cases around plan spec = elim (Bool-cases around.gate_open) [
  | inr closed ↦ inl (execution_disabled around.gate_variable, rw closed)
  | inl gate ↦ elim (Bool-cases around.binary_exists) [
    | inr absent ↦ inl (cli_missing around.binary, rw (gate, absent))
    | inl binary ↦ elim (Bool-cases around.generated_spec_exists) [
      | inr absent ↦ inl (
        note "Generated MetricFlow compatibility semantic spec is missing.",
        rw (gate, binary, absent),
      )
      | inl there ↦ inr (gate, rw (gate, binary, there))
    ]
  ]
]

-- The query is run exactly where the explain command succeeded.
pub explain_then_query-cases :
    (around : Surroundings) (plan : SemanticQueryPlan) (spec : SemanticQuerySpec)
    → (((explain_then_query around plan spec).1 ≡ explain_cmd around spec ∷ [])
        × ((explain_then_query around plan spec).0.status ≡ blocked)
        × ((explain_then_query around plan spec).0.evidence ≡ "RUNTIME_VERIFIED"))
      ⊎ (((run around [] (explain_cmd around spec)).returncode ≡ pos 0)
          × (explain_then_query around plan spec ≡ (
            after_query plan spec
                (run around (explain_cmd around spec ∷ []) (query_cmd around spec))
                (around.artifact (explain_cmd around spec ∷ query_cmd around spec ∷ [])),
            explain_cmd around spec ∷ query_cmd around spec ∷ [],
          )))
unfolding explain_then_query
explain_then_query-cases around plan spec =
    elim (Bool-cases (is_zero (run around [] (explain_cmd around spec)).returncode)) [
      | inr failed ↦ inl (rw failed, rw failed, rw failed)
      | inl fine ↦ inr (is_zero-eq _ fine, rw fine)
    ]

check_artifact-complete :
    (plan : SemanticQueryPlan) (spec : SemanticQuerySpec) (found : Artifact)
    → (check_artifact plan spec found).status ≡ complete
    → (length (check_artifact plan spec found).rows ≤ spec.limit)
      × Subset (metric_names spec) (check_artifact plan spec found).columns
unfolding check_artifact
check_artifact-complete plan spec found h = elim (Bool-cases (ltb spec.limit (length found.rows))) [
  | inl over ↦ ground arith
  | inr fits ↦ elim (Bool-cases (null (except (metric_names spec) found.columns))) [
    | inr missing ↦ ground arith
    | inl there ↦
        let e : check_artifact plan spec found ≡ complete_result plan found = ground arith in
        (
          subst (λ (r : SemanticQueryResult). length r.rows ≤ spec.limit) (sym e) (ground arith),
          subst (λ (r : SemanticQueryResult). Subset (metric_names spec) r.columns) (sym e)
              (except-Subset (metric_names spec) found.columns (null-eq _ there)),
        )
  ]
]

-- A complete run of a specification.
pub record CompleteRun (around : Surroundings) (spec : SemanticQuerySpec)
    (outcome : SemanticQueryResult × Trace) : Type 0 where
  gate : around.gate_open ≡ true
  commands : outcome.1 ≡ explain_cmd around spec ∷ query_cmd around spec ∷ []
  explained : (run around [] (explain_cmd around spec)).returncode ≡ pos 0
  queried : (run around (explain_cmd around spec ∷ []) (query_cmd around spec)).returncode ≡ pos 0
  within_limit : length outcome.0.rows ≤ spec.limit
  columns_there : Subset (metric_names spec) outcome.0.columns

after_query-complete :
    (plan : SemanticQueryPlan) (spec : SemanticQuerySpec) (queried : CompletedProcess)
    (found : Option Artifact)
    → (after_query plan spec queried found).status ≡ complete
    → (queried.returncode ≡ pos 0)
      × (length (after_query plan spec queried found).rows ≤ spec.limit)
      × Subset (metric_names spec) (after_query plan spec queried found).columns
unfolding after_query
after_query-complete plan spec queried none h = ground arith
after_query-complete plan spec queried (some artifact) h =
    elim (Bool-cases (is_zero queried.returncode)) [
      | inr failed ↦ ground arith
      | inl fine ↦
          let e : after_query plan spec queried (some artifact)
              ≡ check_artifact plan spec artifact =
            rw fine in
          let (few, there) =
            check_artifact-complete plan spec artifact
              (sym (ap (λ (r : SemanticQueryResult). r.status) e) ∙ h) in
          (
            is_zero-eq _ fine,
            subst (λ (r : SemanticQueryResult). length r.rows ≤ spec.limit) (sym e) few,
            subst (λ (r : SemanticQueryResult). Subset (metric_names spec) r.columns) (sym e) there,
          )
    ]

explain_then_query-CompleteRun :
    (around : Surroundings) (plan : SemanticQueryPlan) (spec : SemanticQuerySpec)
    → around.gate_open ≡ true
    → (explain_then_query around plan spec).0.status ≡ complete
    → CompleteRun around spec (explain_then_query around plan spec)
explain_then_query-CompleteRun around plan spec gate h =
    elim (explain_then_query-cases around plan spec) [
      | inl (one, refused, said) ↦ cc
      | inr (explained, e) ↦
          let (queried, few, there) =
            after_query-complete plan spec _ _
              (sym (ap (λ (o : SemanticQueryResult × Trace). o.0.status) e) ∙ h) in
          subst (CompleteRun around spec) (sym e) (record {
            gate = gate;
            commands = refl;
            explained = explained;
            queried = queried;
            within_limit = few;
            columns_there = there;
          })
    ]

pub execute_scoped-CompleteRun :
    (around : Surroundings) (plan : SemanticQueryPlan) (spec : SemanticQuerySpec)
    → (execute_scoped around plan spec).0.status ≡ complete
    → CompleteRun around spec (execute_scoped around plan spec)
unfolding execute_scoped
execute_scoped-CompleteRun around plan spec h = elim (execute_scoped-cases around plan spec) [
  | inl (reason, e) ↦ cc
  | inr (gate, e) ↦ subst (CompleteRun around spec) (sym e) (
      explain_then_query-CompleteRun around (previewed plan spec) spec gate
        (sym (ap (λ (o : SemanticQueryResult × Trace). o.0.status) e) ∙ h))
]
