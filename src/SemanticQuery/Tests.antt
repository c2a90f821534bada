-- ===== src/SemanticQuery/Tests.antt =====
-- Runs of the command lines and the executor.
use ai_native_governed_data.Prelude.{
  String, true, false, none, some, List, [], ◌∷◌, ◌≡◌, refl, string_discrete, strip, null,
}
use ai_native_governed_data.Prelude.Dict.{lookup}
use ai_native_governed_data.Prelude.Integers.{pos, negsuc}
use ai_native_governed_data.Prelude.Words.{member, distinct_after}
use ai_native_governed_data.Prelude.Sorting.{text_lt, insert_sorted, sorted, sorted_set}
use ai_native_governed_data.Recovery.Policy.{decimal}
use ai_native_governed_data.Tenancy.{RequestContext, DimensionScope, local_compat}
use ai_native_governed_data.Tenancy.Scope.{
  ScopePolicy, outside_of, requested_dimensions, object_scope_warning, add_value, add_single,
  add_scope, merge_scopes, apply_to, apply,
}
use ai_native_governed_data.Tenancy.Scope.Guarded.{Scoped}
use ai_native_governed_data.SemanticQuery.{
  ready, complete, eq, SemanticDimensionFilter, SemanticQuerySpec, metric_names, SemanticQueryPlan,
}
use ai_native_governed_data.SemanticQuery.Commands.{
  join_commas, double_quotes, filter_expression, command_args, explain_args,
}
use ai_native_governed_data.SemanticQuery.Execute.{
  CompletedProcess, RunnerOutcome, completed, timed_out, Trace, Surroundings, run, remove_nul,
  text_length, last_chars, bounded_error, check_artifact, after_query, explain_then_query,
  execute_scoped, execute,
}
use ai_native_governed_data.SemanticQuery.Execute.Guarded.{CompleteRun}
use ai_native_governed_data.SemanticQuery.Execute.Served.{
  RunUnder, execute-RunUnder, execute-complete,
}

program : Unit {0}
unfolding string_discrete strip lookup member distinct_after text_lt insert_sorted sorted sorted_set
    decimal outside_of requested_dimensions object_scope_warning add_value add_single add_scope
    merge_scopes apply_to apply metric_names join_commas double_quotes filter_expression
    command_args explain_args run remove_nul text_length last_chars bounded_error check_artifact
    after_query explain_then_query execute_scoped execute
program = tt

abbrev west : DimensionScope
west = record { dimension = "store__region"; values = "West" ∷ [] }

abbrev analyst : RequestContext
analyst = record local_compat { tenant_id = "acme"; dimension_scopes = west ∷ [] }

abbrev scope_policy : ScopePolicy
scope_policy = record {
  max_dimension_scopes = 2;
  max_total_semantic_filters = 4;
  structured_filter_dimensions = "store__region" ∷ [];
  canonical_values = ("store__region", "West" ∷ "East" ∷ []) ∷ [];
}

abbrev spec : SemanticQuerySpec
spec = record {
  metric = "net_sales";
  start_time = "2026-07-01";
  end_time = "2026-07-31";
  metrics = [];
  group_by = "metric_time__day" ∷ [];
  filters = [];
  limit = 20;
}

abbrev plan : SemanticQueryPlan
plan = record {
  status = ready;
  question = "net sales in July";
  spec = some spec;
  warnings = [];
  command_preview = [];
  continuation_spec = none;
  clarification = none;
}

abbrev fine : CompletedProcess
fine = record { returncode = pos 0; stdout = ""; stderr = "" }

abbrev around_with : (Trace → List String → RunnerOutcome) → Surroundings
around_with runner = record {
  gate_variable = "AGENT_ALLOW_METRICFLOW_EXECUTION";
  gate_open = true;
  binary = "/venv/bin/mf";
  binary_exists = true;
  generated_spec_exists = true;
  csv_path = "/tmp/result.csv";
  runner = runner;
  artifact = λ trace. some (record {
    rows = (("net_sales", "12") ∷ []) ∷ [];
    columns = "metric_time__day" ∷ "net_sales" ∷ [];
  });
}

abbrev around : Surroundings
around = around_with (λ trace cmd. completed fine)

-- The query command times out.
abbrev slow : Surroundings
slow = around_with (λ trace cmd. elim trace [ [] ↦ completed fine | _ ↦ timed_out "" ])

done : (execute scope_policy around (some analyst) plan).0.status ≡ complete
unfolding program
done = refl

-- The explain command is killed by a signal, which is a negative return code.
abbrev killed : Surroundings
killed =
    around_with
      (λ trace cmd. completed (record { returncode = negsuc 8; stdout = ""; stderr = "" }))

refused :
    (execute scope_policy killed (some analyst) plan).0.validation ≡ "METRICFLOW_EXPLAIN_REJECTED"
unfolding program
refused = refl

late : (execute scope_policy slow (some analyst) plan).0.validation ≡ "QUERY_FAILED"
unfolding program
late = refl

both_run : null (execute scope_policy slow (some analyst) plan).1 ≡ false
unfolding program
both_run = refl

execute-RunUnder_example :
    (scoped : SemanticQuerySpec) × Scoped scope_policy spec analyst scoped
    × RunUnder slow scoped (execute scope_policy slow (some analyst) plan).1
execute-RunUnder_example = execute-RunUnder scope_policy slow analyst plan spec refl refl both_run

execute-complete_example :
    (scoped : SemanticQuerySpec) × Scoped scope_policy spec analyst scoped
    × CompleteRun around scoped (execute scope_policy around (some analyst) plan)
execute-complete_example = execute-complete scope_policy around analyst plan spec refl refl done

abbrev quoted : SemanticDimensionFilter
quoted = record {
  dimension = "store__city";
  operator = eq;
  value = "Coeur d'Alene";
  source = "user";
}

escaped : filter_expression quoted ≡ "{{ Dimension('store__city') }} = 'Coeur d''Alene'"
unfolding program
escaped = refl

no_message : bounded_error fine ≡ "MetricFlow command failed"
unfolding program
no_message = refl
