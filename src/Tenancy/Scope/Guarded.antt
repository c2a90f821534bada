-- ===== src/Tenancy/Scope/Guarded.antt =====
-- What a plan that `apply` lets pass satisfies, with the plan's own objects in the allow-lists.
use mathlib.Core.List.{append-nil}
use ai_native_governed_data.Prelude.{
  ◌≤◌, String, true, none, some, List, [], ◌∷◌, ◌++◌, ◌≡◌, ap, ◌∙◌, sym, subst, ◌⊎◌, inl, inr, refl,
  length, ltb, arith, All, null, null-eq, Bool-cases, Option-cases,
}
use ai_native_governed_data.Prelude.Words.{member, except, Within, except-Within, Within-of_star}
use ai_native_governed_data.Prelude.Sorting.{null-sorted_set}
use ai_native_governed_data.Prelude.Results.{Result, ok, err}
use ai_native_governed_data.Tenancy.{RequestContext}
use ai_native_governed_data.SemanticQuery.{
  ready, SemanticDimensionFilter, SemanticQuerySpec, metric_names, SemanticQueryPlan, QueryWarning,
}
use ai_native_governed_data.Tenancy.Scope.{
  ScopePolicy, outside_of, requested_dimensions, object_scope_warning, merge_scopes, scope_source,
  scoped_plan, with_filters, apply_to, apply,
}
use ai_native_governed_data.Tenancy.Scope.Enforced.{
  Enforced, merge_scopes-Enforced, merge_scopes-extends,
}

outside_of-Within :
    (requested allowed : List String)
    → null (outside_of requested allowed) ≡ true
    → Within allowed requested
unfolding outside_of
outside_of-Within [] allowed h = tt
outside_of-Within (x ∷ xs) allowed h =
    let n = null-sorted_set (except (x ∷ xs) allowed) in
    elim (Bool-cases (member "*" allowed)) [
      | inl star ↦ Within-of_star allowed (x ∷ xs) star
      | inr no_star ↦
          except-Within allowed (x ∷ xs) (null-eq (except (x ∷ xs) allowed) (ground (arith, n)))
    ]

-- The plan that runs: its specification is the planned one but for the filters, which start with
-- the planned ones, hold every mandatory scope, and name only allowed metrics and dimensions.
pub record Scoped (policy : ScopePolicy) (spec : SemanticQuerySpec) (context : RequestContext)
    (scoped : SemanticQuerySpec) : Type 0 where
  added : List SemanticDimensionFilter
  extended : scoped ≡ record spec { filters = spec.filters ++ added }
  enforced : All (Enforced scoped.filters) context.dimension_scopes
  metrics_allowed : Within context.allowed_metrics (metric_names spec)
  dimensions_allowed : Within context.allowed_dimensions (requested_dimensions spec context)
  bounded :
      (null context.dimension_scopes ≡ true)
      ⊎ (length scoped.filters ≤ policy.max_total_semantic_filters)

-- The last part of `apply` lets the merged filters pass, within the limit.
scoped_plan-cases :
    (policy : ScopePolicy) (plan : SemanticQueryPlan) (spec : SemanticQuerySpec)
    (merged : Result QueryWarning (List SemanticDimensionFilter))
    → (scoped_plan policy plan spec merged).1 ≡ none
    → (filters : List SemanticDimensionFilter) × (merged ≡ ok filters)
      × (length filters ≤ policy.max_total_semantic_filters)
      × ((scoped_plan policy plan spec merged).0 ≡ with_filters plan spec filters)
scoped_plan-cases policy plan spec (err warning) h = cc
scoped_plan-cases policy plan spec (ok filters) h =
    elim (Bool-cases (ltb policy.max_total_semantic_filters (length filters))) [
      | inl over ↦ ground arith
      | inr fits ↦ (filters, refl, ground arith, rw fits)
    ]

object_scope_warning-Within :
    (spec : SemanticQuerySpec) (context : RequestContext)
    → object_scope_warning spec context ≡ none
    → Within context.allowed_metrics (metric_names spec)
      × Within context.allowed_dimensions (requested_dimensions spec context)
unfolding object_scope_warning
object_scope_warning-Within spec context h = (
  outside_of-Within (metric_names spec) context.allowed_metrics (ground arith),
  outside_of-Within (requested_dimensions spec context) context.allowed_dimensions (ground arith),
)

abbrev nothing_enforced :
    (context : RequestContext) (filters : List SemanticDimensionFilter)
    → null context.dimension_scopes ≡ true
    → All (Enforced filters) context.dimension_scopes
nothing_enforced context filters h =
    subst (λ scopes. All (Enforced filters) scopes) (sym (null-eq context.dimension_scopes h)) tt

abbrev merged_filters :
    ScopePolicy
    → SemanticQuerySpec
    → RequestContext
    → Result QueryWarning (List SemanticDimensionFilter)
merged_filters policy spec context =
    merge_scopes policy (scope_source context) context.dimension_scopes spec.filters

-- The two ways through `apply` without a warning.
apply_to-cases :
    (policy : ScopePolicy) (plan : SemanticQueryPlan) (spec : SemanticQuerySpec)
    (context : RequestContext)
    → (apply_to policy plan spec context).1 ≡ none
    → (object_scope_warning spec context ≡ none)
      × (((null context.dimension_scopes ≡ true)
            × (apply_to policy plan spec context ≡ (plan, none)))
          ⊎ (apply_to policy plan spec context
              ≡ scoped_plan policy plan spec (merged_filters policy spec context)))
unfolding apply_to
apply_to-cases policy plan spec context h =
    elim (Option-cases (object_scope_warning spec context)) [
      | inr (warning, w) ↦ ground arith
      | inl clear ↦ elim (Bool-cases (null context.dimension_scopes)) [
        | inl free ↦ (clear, inl (free, ground arith))
        | inr bound ↦ (clear, inr (ground arith))
      ]
    ]

pub apply_to-Scoped :
    (policy : ScopePolicy) (plan : SemanticQueryPlan) (spec : SemanticQuerySpec)
    (context : RequestContext)
    → plan.spec ≡ some spec
    → (apply_to policy plan spec context).1 ≡ none
    → (scoped : SemanticQuerySpec) × ((apply_to policy plan spec context).0
        ≡ record plan { spec = some scoped })
      × Scoped policy spec context scoped
apply_to-Scoped policy plan spec context e h =
    let (clear, ways) = apply_to-cases policy plan spec context h in
    let within = object_scope_warning-Within spec context clear in
    let source = scope_source context in
    let scopes = context.dimension_scopes in
    elim ways [
      | inl (free, result) ↦ (
        spec,
        ap (λ r. r.0) result ∙ ap (λ s. record plan { spec = s }) e,
        record {
          added = [];
          extended = ap (λ fs. record spec { filters = fs }) (sym (append-nil spec.filters));
          enforced = nothing_enforced context spec.filters free;
          metrics_allowed = within.0;
          dimensions_allowed = within.1;
          bounded = inl free;
        },
      )
      | inr result ↦
          let merged = merged_filters policy spec context in
          let (filters, m, fits, last) =
            scoped_plan-cases policy plan spec merged (sym (ap (λ r. r.1) result) ∙ h) in
          let (added, grown) = merge_scopes-extends policy source scopes spec.filters m in
          (
            record spec { filters = filters },
            ap (λ r. r.0) result ∙ last,
            record {
              added = added;
              extended = ap (λ fs. record spec { filters = fs }) grown;
              enforced = merge_scopes-Enforced policy source scopes spec.filters m;
              metrics_allowed = within.0;
              dimensions_allowed = within.1;
              bounded = inr fits;
            },
          )
    ]

apply-ready :
    (policy : ScopePolicy) (plan : SemanticQueryPlan) (spec : SemanticQuerySpec)
    (context : RequestContext)
    → plan.status ≡ ready
    → plan.spec ≡ some spec
    → apply policy plan (some context) ≡ apply_to policy plan spec context
unfolding apply
apply-ready policy plan spec context r e = ground arith

-- When the plan is ready and `apply` returns no warning for a context, the plan it returns is the
-- given one but for the filters: these start with the planned ones, hold for every dimension scope
-- of the context a filter with its one value, and none with another value on that dimension, are
-- at most the policy's number where there are scopes, and the query's metrics, and its dimensions
-- and those of the scopes, are in the context's allow-lists.
pub apply-Scoped :
    (policy : ScopePolicy) (plan : SemanticQueryPlan) (spec : SemanticQuerySpec)
    (context : RequestContext)
    → plan.status ≡ ready
    → plan.spec ≡ some spec
    → (apply policy plan (some context)).1 ≡ none
    → (scoped : SemanticQuerySpec) × ((apply policy plan (some context)).0
        ≡ record plan { spec = some scoped })
      × Scoped policy spec context scoped
apply-Scoped policy plan spec context r e h =
    let go = apply-ready policy plan spec context r e in
    subst
      (λ x.
        (scoped : SemanticQuerySpec) × (x.0 ≡ record plan { spec = some scoped })
        × Scoped policy spec context scoped)
      (sym go) (apply_to-Scoped policy plan spec context e (sym (ap (λ x. x.1) go) ∙ h))
