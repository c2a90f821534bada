-- ===== src/Tenancy/Tests.antt =====
-- Runs of the claims mapper, the authorizer and the scope check.
use ai_native_governed_data.Prelude.{
  String, true, false, none, some, List, [], ◌∷◌, ◌≡◌, ◌↔◌, refl, string_discrete, strip,
}
use ai_native_governed_data.Prelude.Dict.{lookup}
use ai_native_governed_data.Prelude.Words.{member, distinct_after, split_commas}
use ai_native_governed_data.Prelude.Sorting.{text_lt, insert_sorted, sorted, sorted_set}
use ai_native_governed_data.Prelude.Results.{ok, err}
use ai_native_governed_data.Tenancy.{RequestContext, DimensionScope, local_compat, outside}
use ai_native_governed_data.Tenancy.Claims.{
  null_value, text, array, value, object, Claims, IdentityPolicy, subject_mismatch, not_one_value,
  claim_at, text_at, add_word, collect, string_values, object_allowlist, dimension_scope,
  scopes_loop, dimension_scopes_of, check_subject, check_tenant, map_claims,
}
use ai_native_governed_data.Tenancy.Claims.Admitted.{Admitted, map_claims-Admitted}
use ai_native_governed_data.Tenancy.Authorize.{
  Route, allow_objects, required_scopes_of, steps_warning, target_warning, decide_objects,
  authorize,
}
use ai_native_governed_data.Tenancy.Authorize.Exact.{Grants, authorize-exact}
use ai_native_governed_data.Tenancy.Denied.{absent_allowlist-denied}
use ai_native_governed_data.Tenancy.Scope.{
  ScopePolicy, outside_of, requested_dimensions, object_scope_warning, add_value, add_single,
  add_scope, merge_scopes, apply_to, apply,
}
use ai_native_governed_data.Tenancy.Scope.Guarded.{Scoped, apply-Scoped}
use ai_native_governed_data.SemanticQuery.{
  ready, eq, SemanticDimensionFilter, SemanticQuerySpec, metric_names, SemanticQueryPlan,
  conflicts_with_scope,
}

program : Unit {0}
unfolding string_discrete strip lookup member distinct_after split_commas text_lt insert_sorted
    sorted sorted_set claim_at text_at add_word collect string_values object_allowlist
    dimension_scope scopes_loop dimension_scopes_of check_subject check_tenant map_claims
    allow_objects required_scopes_of steps_warning target_warning decide_objects authorize
    outside_of requested_dimensions object_scope_warning add_value add_single add_scope merge_scopes
    apply_to apply metric_names
program = tt

abbrev identity_policy : IdentityPolicy
identity_policy = record {
  tenant_claim = "tenant_id";
  roles_claim = "roles";
  metrics_claim = "allowed_metrics";
  datasets_claim = "allowed_datasets";
  entities_claim = "allowed_entities";
  dimensions_claim = "allowed_dimensions";
  knowledge_claim = "allowed_knowledge_scopes";
  scopes_claim = "dimension_scopes";
  max_roles = 16;
  max_object_allowlist_items = 128;
  max_dimension_scopes = 2;
}

abbrev west : DimensionScope
west = record { dimension = "store__region"; values = "West" ∷ [] }

abbrev claims : Claims
claims =
    ("tenant_id", value (text " acme "))
    ∷ ("allowed_dimensions", value (text "store__region"))
    ∷ ("dimension_scopes", object "{}" (("store__region", text "West") ∷ []))
    ∷ []

abbrev context : RequestContext
context = record {
  tenant_id = "acme";
  subject = "alice";
  scopes = "commerce:semantic:read" ∷ [];
  roles = [];
  allowed_metrics = [];
  allowed_datasets = [];
  allowed_entities = [];
  allowed_dimensions = "store__region" ∷ [];
  allowed_knowledge_scopes = [];
  dimension_scopes = west ∷ [];
  implicit_local = false;
}

mapped :
    map_claims identity_policy "alice" ("commerce:semantic:read" ∷ " " ∷ []) claims ≡ ok context
unfolding program
mapped = refl

map_claims-Admitted_example : Admitted identity_policy "alice" claims context
map_claims-Admitted_example =
    map_claims-Admitted identity_policy "alice" ("commerce:semantic:read" ∷ " " ∷ []) claims context
      mapped

impostor :
    map_claims identity_policy "alice" [] (("sub", value (text "bob")) ∷ claims)
    ≡ err subject_mismatch
unfolding program
impostor = refl

many_values :
    dimension_scopes_of identity_policy
      (object "{}" (("store__region", array "[]" (some "West" ∷ some " West " ∷ [])) ∷ []))
    ≡ ok (west ∷ [])
unfolding program
many_values = refl

no_value :
    dimension_scopes_of identity_policy (object "{}" (("store__region", array "[]" []) ∷ []))
    ≡ err (not_one_value "store__region")
unfolding program
no_value = refl

abbrev table : List (String × List String)
table = ("METRIC_QUERY", "commerce:semantic:read" ∷ []) ∷ []

abbrev metric_route : Route
metric_route = record {
  intent = "METRIC_QUERY";
  target_kind = "metric";
  target_id = "net_sales,orders";
  step_metrics = [];
}

local_may : (authorize table metric_route (some local_compat)).allowed ≡ true
unfolding program
local_may = refl

refused :
    (authorize table metric_route (some context)).warnings
    ≡ outside "metric" ("net_sales" ∷ "orders" ∷ []) ∷ []
unfolding program
refused = refl

authorize-exact_example :
    ((authorize table metric_route (some context)).allowed ≡ true)
    ↔ Grants table metric_route context
authorize-exact_example = authorize-exact table metric_route context

absent : claim_at claims "allowed_metrics" ≡ value null_value
unfolding program
absent = refl

absent_allowlist-denied_example : (authorize table metric_route (some context)).allowed ≡ false
unfolding program
absent_allowlist-denied_example =
    absent_allowlist-denied identity_policy "alice" ("commerce:semantic:read" ∷ " " ∷ []) claims
      context table metric_route mapped absent refl refl

abbrev scope_policy : ScopePolicy
scope_policy = record {
  max_dimension_scopes = 2;
  max_total_semantic_filters = 4;
  structured_filter_dimensions = "store__region" ∷ [];
  canonical_values = ("store__region", "West" ∷ "East" ∷ []) ∷ [];
}

abbrev analyst : RequestContext
analyst = record context { allowed_metrics = "*" ∷ [] }

abbrev spec_with : List SemanticDimensionFilter → SemanticQuerySpec
spec_with filters = record {
  metric = "net_sales";
  start_time = "2026-07-01";
  end_time = "2026-07-31";
  metrics = [];
  group_by = "metric_time__day" ∷ [];
  filters = filters;
  limit = 20;
}

abbrev plan_with : List SemanticDimensionFilter → SemanticQueryPlan
plan_with filters = record {
  status = ready;
  question = "net sales in July";
  spec = some (spec_with filters);
  warnings = [];
  command_preview = [];
  continuation_spec = none;
  clarification = none;
}

abbrev filter_on : String → String → SemanticDimensionFilter
filter_on region source = record {
  dimension = "store__region";
  operator = eq;
  value = region;
  source = source;
}

scoped :
    apply scope_policy (plan_with []) (some analyst)
    ≡ (plan_with (filter_on "West" "tenant_scope:acme" ∷ []), none)
unfolding program
scoped = refl

conflict :
    (apply scope_policy (plan_with (filter_on "East" "user" ∷ [])) (some analyst)).1
    ≡ some (conflicts_with_scope "store__region")
unfolding program
conflict = refl

clear : (apply scope_policy (plan_with []) (some analyst)).1 ≡ none
unfolding program
clear = refl

apply-Scoped_example :
    (scoped_spec : SemanticQuerySpec) × ((apply scope_policy (plan_with []) (some analyst)).0
      ≡ record (plan_with []) { spec = some scoped_spec })
    × Scoped scope_policy (spec_with []) analyst scoped_spec
apply-Scoped_example =
    apply-Scoped scope_policy (plan_with []) (spec_with []) analyst refl refl clear
