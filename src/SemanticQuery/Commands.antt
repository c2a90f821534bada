-- ===== src/SemanticQuery/Commands.antt =====
-- agent/semantic_query/planner.py: the MetricFlow command lines of a query.
use Prim.Native.Char.{code}
use Prim.Native.String
use ai_native_governed_data.Prelude.{String, List, [], ◌∷◌, ◌++◌, null, ◌==◌, if◌then◌else◌}
use ai_native_governed_data.Recovery.Policy.{decimal}
use ai_native_governed_data.SemanticQuery.{SemanticDimensionFilter, SemanticQuerySpec, metric_names}

-- `",".join(xs)`
unfoldable pub join_commas : List String → String
join_commas [] = ""
join_commas (x ∷ xs) =
    let rest = join_commas xs in if null xs then x else String.◌++◌ x (String.◌++◌ "," rest)

-- `value.replace("'", "''")`
unfoldable pub double_quotes : String → String
double_quotes String.[] = String.[]
double_quotes (String.◌∷◌ c s) =
    let rest = double_quotes s in
    if code c == 39 then String.◌∷◌ c (String.◌∷◌ c rest) else String.◌∷◌ c rest

-- "EQ" is the only operator, so no filter raises.
unfoldable pub filter_expression : SemanticDimensionFilter → String
filter_expression item = String.◌++◌ "{{ Dimension('" (
    String.◌++◌ item.dimension
      (String.◌++◌ "') }} = '" (String.◌++◌ (double_quotes item.value) "'")))

abbrev pub where_args : List SemanticDimensionFilter → List String
where_args [] = []
where_args (item ∷ items) = "--where" ∷ filter_expression item ∷ where_args items

unfoldable pub command_args : SemanticQuerySpec → List String
command_args spec =
    "mf"
    ∷ "query"
    ∷ "--metrics"
    ∷ join_commas (metric_names spec)
    ∷ ((if null spec.group_by then [] else ("--group-by" ∷ join_commas spec.group_by ∷ []))
        ++ where_args spec.filters
        ++ ("--start-time"
            ∷ spec.start_time
            ∷ "--end-time"
            ∷ spec.end_time
            ∷ "--limit"
            ∷ decimal spec.limit
            ∷ []))

unfoldable pub explain_args : SemanticQuerySpec → List String
explain_args spec = command_args spec ++ ("--explain" ∷ "--show-dataflow-plan" ∷ [])
