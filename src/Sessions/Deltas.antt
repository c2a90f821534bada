-- ===== src/Sessions/Deltas.antt =====
-- agent/analysis_session/session.py: the three deltas of a specification. What a text names is an
-- argument: the metrics by their aliases, the filter dimensions, the value and what it resolves to.
use Prim.Native.String
use ai_native_governed_data.Prelude.{
  String, Bool, not, Option, none, some, List, [], ◌∷◌, ◌++◌, map, keep, any, if◌then◌else◌,
  or_else, says,
}
use ai_native_governed_data.Prelude.Words.{except, distinct_after}
use ai_native_governed_data.SemanticQuery.{
  SemanticDimensionFilter, eq, SemanticQuerySpec, metric_names,
}
use ai_native_governed_data.Sessions.{
  SessionDeltaKind, add_metric, add_filter, replace_filter, remove_filter,
}

pub record Delta : Type 0 where
  pub kind : SessionDeltaKind
  pub spec : SemanticQuerySpec
  pub summary : String

-- A resolved value, and the source text of its filter.
pub record Resolved : Type 0 where
  pub dimension : String
  pub value : String
  pub source : String

-- What the recognisers read in a follow-up.
pub record Reading : Type 0 where
  pub wants_addition : Bool
  pub metrics_named : List String
  pub wants_removal : Bool
  pub dimensions_named : List String
  pub resolved : Option Resolved

-- The only element of a list.
unfoldable pub only : List String → Option String
only [] = none
only (x ∷ []) = some x
only (_ ∷ _ ∷ _) = none

abbrev pub add_metric_to : SemanticQuerySpec → String → Delta
add_metric_to spec metric = record {
  kind = add_metric;
  spec = record spec { metrics = metric_names spec ++ metric ∷ [] };
  summary =
      String.◌++◌ "Added governed metric "
        (String.◌++◌ metric " while preserving time/grain/filters.");
}

-- `_metric_delta`
unfoldable pub metric_delta : SemanticQuerySpec → Reading → Option Delta
metric_delta spec reading =
    let found = except (distinct_after [] reading.metrics_named) (metric_names spec) in
    if reading.wants_addition
    then elim (only found) [ none ↦ none | some metric ↦ some (add_metric_to spec metric) ]
    else none

abbrev pub without_dimension : String → List SemanticDimensionFilter → List SemanticDimensionFilter
without_dimension dimension filters =
    keep (λ (f : SemanticDimensionFilter). not (says f.dimension dimension)) filters

abbrev pub has_dimension : String → List SemanticDimensionFilter → Bool
has_dimension dimension filters =
    any (λ (f : SemanticDimensionFilter). says f.dimension dimension) filters

abbrev pub remove_dimension : SemanticQuerySpec → String → Delta
remove_dimension spec dimension = record {
  kind = remove_filter;
  spec = record spec { filters = without_dimension dimension spec.filters };
  summary =
      String.◌++◌ "Removed filter "
        (String.◌++◌ dimension " while preserving the rest of the analysis state.");
}

-- `_remove_filter_delta`
unfoldable pub remove_filter_delta : SemanticQuerySpec → Reading → Option Delta
remove_filter_delta spec reading =
    if reading.wants_removal
    then elim (only (distinct_after [] reading.dimensions_named)) [
      | none ↦ none
      | some dimension ↦
          if has_dimension dimension spec.filters
          then some (remove_dimension spec dimension)
          else none
    ]
    else none

abbrev pub replaced :
    SemanticDimensionFilter → List SemanticDimensionFilter → List SemanticDimensionFilter
replaced filter filters =
    map (λ (f : SemanticDimensionFilter). if says f.dimension filter.dimension then filter else f)
      filters

abbrev pub filter_summary : String → Resolved → String
filter_summary verb r = String.◌++◌ verb (
    String.◌++◌ " filter " (
      String.◌++◌ r.dimension
        (String.◌++◌ "=" (String.◌++◌ r.value " while preserving metric/time/grain."))))

-- `_filter_delta`, once a value is resolved.
unfoldable pub set_filter : SemanticQuerySpec → Resolved → Delta
set_filter spec r =
    let filter : SemanticDimensionFilter = record {
      dimension = r.dimension;
      operator = eq;
      value = r.value;
      source = r.source;
    } in
    if has_dimension r.dimension spec.filters
    then record {
      kind = replace_filter;
      spec = record spec { filters = replaced filter spec.filters };
      summary = filter_summary "Replaced" r;
    }
    else record {
      kind = add_filter;
      spec = record spec { filters = spec.filters ++ filter ∷ [] };
      summary = filter_summary "Added" r;
    }

unfoldable pub filter_delta : SemanticQuerySpec → Reading → Option Delta
filter_delta spec reading = elim reading.resolved [
  | none ↦ none
  | some r ↦ some (set_filter spec r)
]

-- The three in turn, as `apply_follow_up` tries them.
unfoldable pub delta_of : SemanticQuerySpec → Reading → Option Delta
delta_of spec reading =
    or_else (metric_delta spec reading)
      (or_else (remove_filter_delta spec reading) (filter_delta spec reading))
