-- ===== src/Tenancy/Authorize.antt =====
-- agent/tenancy/authorizer.py: the authorization of a route before any context is loaded or tool
-- run. The policy file's table of scopes by intent and the environment's answer are arguments.
pub mod Exact
use ai_native_governed_data.Prelude.{
  String, Bool, true, false, not, ◌&&◌, ◌||◌, Option, none, some, List, [], ◌∷◌, map, null, keep,
  if◌then◌else◌, or_else, string_discrete, says, is_empty,
}
use ai_native_governed_data.Prelude.Dict.{lookup}
use ai_native_governed_data.Prelude.Words.{member, except, comma_words}
use ai_native_governed_data.Prelude.Sorting.{sorted_set}
use ai_native_governed_data.Tenancy.{
  RequestContext, DimensionScope, local_compat, AccessWarning, context_required, missing_scopes,
  outside, AuthorizationDecision,
}

-- What the authorizer reads of a route: the metrics of each step's arguments, the empty list
-- where a step names none.
pub record Route : Type 0 where
  pub intent : String
  pub target_kind : String
  pub target_id : String
  pub step_metrics : List (List String)

-- `resolve`, given `strict` and the compatibility switch.
unfoldable pub resolve : Bool → Bool → Option RequestContext → Option RequestContext
resolve strict allow_implicit (some context) = some context
resolve true allow_implicit none = none
resolve false true none = some local_compat
resolve false false none = none

unfoldable pub allow_objects : List String → List String → String → Option AccessWarning
allow_objects objects allowed label =
    if null objects
    then none
    else if member "*" allowed
    then none
    else (let denied = sorted_set (except objects allowed) in
        if null denied then none else some (outside label denied))

-- `policy.get("intent_required_scopes", {}).get(intent, ())`
unfoldable pub required_scopes_of : List (String × List String) → String → List String
required_scopes_of table intent = elim (lookup string_discrete intent table) [
  | none ↦ []
  | some scopes ↦ scopes
]

-- The loop over the steps of a dimension-value route: the first warning ends it.
unfoldable pub steps_warning : List (List String) → List String → Option AccessWarning
steps_warning [] allowed = none
steps_warning (metrics ∷ steps) allowed =
    or_else (allow_objects metrics allowed "metric") (steps_warning steps allowed)

-- The checks of the target by its kind; the kinds exclude each other.
unfoldable pub target_warning : Route → RequestContext → Option AccessWarning
target_warning route context =
    let kind = route.target_kind in
    let target = route.target_id in
    if is_empty target
    then none
    else if says kind "metric" || says kind "metric_set"
    then allow_objects (comma_words target) context.allowed_metrics "metric"
    else if says kind "dataset"
    then allow_objects (target ∷ []) context.allowed_datasets "dataset"
    else if says kind "entity"
    then allow_objects (target ∷ []) context.allowed_entities "entity"
    else if says kind "dimension"
    then or_else (allow_objects (target ∷ []) context.allowed_dimensions "dimension")
        (steps_warning route.step_metrics context.allowed_metrics)
    else if says kind "knowledge"
    then allow_objects (comma_words target) context.allowed_knowledge_scopes "knowledge scope"
    else none

abbrev pub denied : List String → AccessWarning → AuthorizationDecision
denied required warning = record {
  allowed = false;
  required_scopes = required;
  warnings = warning ∷ [];
}

abbrev pub scope_dimensions : RequestContext → List String
scope_dimensions context = map (λ (item : DimensionScope). item.dimension) context.dimension_scopes

-- After the capability check: the target's warning, then that of the dimension scopes.
unfoldable pub decide_objects : List String → Route → RequestContext → AuthorizationDecision
decide_objects required route context =
    let outside_scope =
      allow_objects (scope_dimensions context) context.allowed_dimensions "dimension scope" in
    elim (or_else (target_warning route context) outside_scope) [
      | some warning ↦ denied required warning
      | none ↦ record { allowed = true; required_scopes = required; warnings = [] }
    ]

unfoldable pub authorize :
    List (String × List String) → Route → Option RequestContext → AuthorizationDecision
authorize table route none = denied [] context_required
authorize table route (some context) =
    let required = required_scopes_of table route.intent in
    let missing = sorted_set (except required context.scopes) in
    if null missing
    then decide_objects required route context
    else denied required (missing_scopes missing)
