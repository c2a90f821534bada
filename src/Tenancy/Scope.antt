-- ===== src/Tenancy/Scope.antt =====
-- agent/tenancy/semantic_scope.py: the check of a ready plan against the request context, and the
-- mandatory filters that it is given. The policy and the canonical values, read from CSV files,
-- are a record.
pub mod Enforced
pub mod Guarded
use Prim.Native.String
use text.Mathlib.Text.{starts_with}
use ai_native_governed_data.Prelude.{
  ℕ, String, Bool, true, false, not, ◌||◌, Option, none, some, List, [], ◌∷◌, ◌++◌, map, null,
  length, keep, any, ltb, if◌then◌else◌, string_discrete, says,
}
use ai_native_governed_data.Prelude.Dict.{lookup}
use ai_native_governed_data.Prelude.Words.{member, except, distinct_after}
use ai_native_governed_data.Prelude.Sorting.{sorted_set}
use ai_native_governed_data.Prelude.Results.{Result, ok, err, ◌>>=◌}
use ai_native_governed_data.Tenancy.{RequestContext, DimensionScope}
use ai_native_governed_data.SemanticQuery.{
  SemanticQueryStatus, is_ready, eq, SemanticDimensionFilter, SemanticQuerySpec, metric_names,
  SemanticQueryPlan, QueryWarning, metrics_outside, dimensions_outside, too_many_scopes,
  ungoverned_dimension, multi_value_scope, not_canonical, conflicts_with_scope, too_many_filters,
}

pub record ScopePolicy : Type 0 where
  pub max_dimension_scopes : ℕ
  pub max_total_semantic_filters : ℕ
  pub structured_filter_dimensions : List String
  pub canonical_values : List (String × List String)

unfoldable pub outside_of : List String → List String → List String
outside_of requested allowed =
    if null requested || member "*" allowed then [] else sorted_set (except requested allowed)

abbrev pub dimensions_of : List SemanticDimensionFilter → List String
dimensions_of filters = map (λ (item : SemanticDimensionFilter). item.dimension) filters

unfoldable pub requested_dimensions : SemanticQuerySpec → RequestContext → List String
requested_dimensions spec context = distinct_after [] (
    keep (λ item. not (starts_with item "metric_time__")) spec.group_by
    ++ dimensions_of spec.filters
    ++ map (λ (item : DimensionScope). item.dimension) context.dimension_scopes)

unfoldable pub object_scope_warning : SemanticQuerySpec → RequestContext → Option QueryWarning
object_scope_warning spec context =
    let denied_metrics = outside_of (metric_names spec) context.allowed_metrics in
    let denied_dimensions =
      outside_of (requested_dimensions spec context) context.allowed_dimensions in
    if not (null denied_metrics)
    then some (metrics_outside denied_metrics)
    else if not (null denied_dimensions)
    then some (dimensions_outside denied_dimensions)
    else none

abbrev pub values_of : ScopePolicy → String → List String
values_of policy dimension = elim (lookup string_discrete dimension policy.canonical_values) [
  | none ↦ []
  | some vs ↦ vs
]

abbrev pub scope_filter : String → String → String → SemanticDimensionFilter
scope_filter source dimension value = record {
  dimension = dimension;
  operator = eq;
  value = value;
  source = source;
}

abbrev pub on_dimension : String → List SemanticDimensionFilter → List SemanticDimensionFilter
on_dimension dimension filters =
    keep (λ (item : SemanticDimensionFilter). says item.dimension dimension) filters

abbrev pub has_other_value : String → List SemanticDimensionFilter → Bool
has_other_value value filters =
    any (λ (item : SemanticDimensionFilter). not (says item.value value)) filters

module _ (policy : ScopePolicy) (source : String) where
  -- The rest of one turn of the loop, once the scope has its one value.
  unfoldable pub add_value :
      String
      → String
      → List SemanticDimensionFilter
      → Result QueryWarning (List SemanticDimensionFilter)
  add_value dimension value filters =
      let existing = on_dimension dimension filters in
      if not (member value (values_of policy dimension))
      then err (not_canonical dimension value)
      else if null existing
      then ok (filters ++ scope_filter source dimension value ∷ [])
      else if has_other_value value existing
      then err (conflicts_with_scope dimension)
      else ok filters

  -- The test for exactly one value.
  unfoldable pub add_single :
      String
      → List String
      → List SemanticDimensionFilter
      → Result QueryWarning (List SemanticDimensionFilter)
  add_single dimension [] filters = err (multi_value_scope dimension)
  add_single dimension (value ∷ []) filters = add_value dimension value filters
  add_single dimension (_ ∷ _ ∷ _) filters = err (multi_value_scope dimension)

  unfoldable pub add_scope :
      DimensionScope
      → List SemanticDimensionFilter
      → Result QueryWarning (List SemanticDimensionFilter)
  add_scope scope filters =
      if not (member scope.dimension policy.structured_filter_dimensions)
      then err (ungoverned_dimension scope.dimension)
      else add_single scope.dimension scope.values filters

  unfoldable pub merge_scopes :
      List DimensionScope
      → List SemanticDimensionFilter
      → Result QueryWarning (List SemanticDimensionFilter)
  merge_scopes [] filters = ok filters
  merge_scopes (scope ∷ scopes) filters = do
    more ← add_scope scope filters
    merge_scopes scopes more

abbrev pub with_filters :
    SemanticQueryPlan → SemanticQuerySpec → List SemanticDimensionFilter → SemanticQueryPlan
with_filters plan spec filters = record plan { spec = some (record spec { filters = filters }) }

-- The end of `apply`: the loop's result and the limit on all filters.
abbrev pub scoped_plan :
    ScopePolicy
    → SemanticQueryPlan
    → SemanticQuerySpec
    → Result QueryWarning (List SemanticDimensionFilter)
    → SemanticQueryPlan × Option QueryWarning
scoped_plan policy plan spec (err warning) = (plan, some warning)
scoped_plan policy plan spec (ok filters) =
    if ltb policy.max_total_semantic_filters (length filters)
    then (plan, some (too_many_filters (length filters) policy.max_total_semantic_filters))
    else (with_filters plan spec filters, none)

-- `f"tenant_scope:{request_context.tenant_id}"`
abbrev pub scope_source : RequestContext → String
scope_source context = String.◌++◌ "tenant_scope:" context.tenant_id

unfoldable pub apply_to :
    ScopePolicy
    → SemanticQueryPlan
    → SemanticQuerySpec
    → RequestContext
    → SemanticQueryPlan × Option QueryWarning
apply_to policy plan spec context =
    let scopes = context.dimension_scopes in
    elim (object_scope_warning spec context) [
      | some warning ↦ (plan, some warning)
      | none ↦
          if null scopes
          then (plan, none)
          else if ltb policy.max_dimension_scopes (length scopes)
          then (plan, some (too_many_scopes (length scopes) policy.max_dimension_scopes))
          else scoped_plan policy plan spec
              (merge_scopes policy (scope_source context) scopes spec.filters)
    ]

unfoldable pub apply :
    ScopePolicy
    → SemanticQueryPlan
    → Option RequestContext
    → SemanticQueryPlan × Option QueryWarning
apply policy plan none = (plan, none)
apply policy plan (some context) =
    if is_ready plan.status
    then elim plan.spec [ none ↦ (plan, none) | some spec ↦ apply_to policy plan spec context ]
    else (plan, none)
