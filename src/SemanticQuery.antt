-- ===== src/SemanticQuery.antt =====
-- agent/semantic_query/contracts.py: the structured query, its plan and its result. The children
-- hold the command lines of planner.py and the executor.
pub mod Commands
pub mod Execute
mod Tests
use ai_native_governed_data.Prelude.{
  ℕ, String, Option, none, some, List, [], ◌∷◌, Bool, true, false, if◌then◌else◌, null,
}
use ai_native_governed_data.Prelude.Json.{Json, num, text, dict, list_of}

pub data SemanticQueryStatus : Type 0 where
  ready : SemanticQueryStatus
  complete : SemanticQueryStatus
  deferred : SemanticQueryStatus
  blocked : SemanticQueryStatus
  error : SemanticQueryStatus
  clarification_required : SemanticQueryStatus

abbrev pub is_ready : SemanticQueryStatus → Bool
is_ready status = elim status [ ready ↦ true | _ ↦ false ]

pub data SemanticFilterOperator : Type 0 where
  eq : SemanticFilterOperator

pub record SemanticDimensionFilter : Type 0 where
  pub dimension : String
  pub operator : SemanticFilterOperator
  pub value : String
  pub source : String

pub record SemanticQuerySpec : Type 0 where
  pub metric : String
  pub start_time : String
  pub end_time : String
  pub metrics : List String
  pub group_by : List String
  pub filters : List SemanticDimensionFilter
  pub limit : ℕ

-- `self.metrics or (self.metric,)`
unfoldable pub metric_names : SemanticQuerySpec → List String
metric_names spec = if null spec.metrics then spec.metric ∷ [] else spec.metrics

pub record SemanticQueryClarification : Type 0 where
  pub kind : String
  pub raw_value : String
  pub dimension_hint : Option String
  pub candidates : List Json
  pub evidence : String
  pub source_mode : String
  pub prompt : String

-- A warning: a fixed text, or one that is formatted, by what it names.
pub data QueryWarning : Type 0 where
  note : String → QueryWarning
  metrics_outside : List String → QueryWarning
  dimensions_outside : List String → QueryWarning
  too_many_scopes : ℕ → ℕ → QueryWarning
  ungoverned_dimension : String → QueryWarning
  multi_value_scope : String → QueryWarning
  not_canonical : String → String → QueryWarning
  conflicts_with_scope : String → QueryWarning
  too_many_filters : ℕ → ℕ → QueryWarning
  execution_disabled : String → QueryWarning
  cli_missing : String → QueryWarning
  columns_missing : List String → QueryWarning

pub record SemanticQueryPlan : Type 0 where
  pub status : SemanticQueryStatus
  pub question : String
  pub spec : Option SemanticQuerySpec
  pub warnings : List QueryWarning
  pub command_preview : List String
  pub continuation_spec : Option SemanticQuerySpec
  pub clarification : Option SemanticQueryClarification

pub record SemanticQueryResult : Type 0 where
  pub status : SemanticQueryStatus
  pub evidence : String
  pub plan : SemanticQueryPlan
  pub rows : List (List (String × String))
  pub columns : List String
  pub warnings : List QueryWarning
  pub validation : String

abbrev operator_value : SemanticFilterOperator → String
operator_value eq = "EQ"

unfoldable pub filter_to_dict : SemanticDimensionFilter → Json
filter_to_dict f = dict (
    ("dimension", text f.dimension)
    ∷ ("operator", text (operator_value f.operator))
    ∷ ("value", text f.value)
    ∷ ("source", text f.source)
    ∷ [])

unfoldable pub spec_to_dict : SemanticQuerySpec → Json
unfolding metric_names filter_to_dict
spec_to_dict spec = dict (
    ("metric", text spec.metric)
    ∷ ("metrics", list_of text (metric_names spec))
    ∷ ("start_time", text spec.start_time)
    ∷ ("end_time", text spec.end_time)
    ∷ ("group_by", list_of text spec.group_by)
    ∷ ("filters", list_of filter_to_dict spec.filters)
    ∷ ("limit", num spec.limit)
    ∷ [])
