-- ===== src/Tenancy/Authorize/Exact.antt =====
-- What `authorize` lets pass, described by the collections that a route demands.
use ai_native_governed_data.Prelude.{
  String, Bool, true, false, ◌||◌, none, some, List, [], ◌∷◌, ◌≡◌, ◌↔◌, inl, inr, refl, null,
  null-eq, All, if◌then◌else◌, or_else, or_else_iff, arith, says, is_empty, Bool-cases,
}
use ai_native_governed_data.Prelude.Words.{
  member, except, comma_words, Within, Subset, except-Within, Within-of_star, Within-except,
  except-Subset, Subset-except,
}
use ai_native_governed_data.Prelude.Sorting.{sorted_set, null-sorted_set}
use ai_native_governed_data.Tenancy.{RequestContext}
use ai_native_governed_data.Tenancy.Authorize.{
  Route, allow_objects, required_scopes_of, steps_warning, target_warning, scope_dimensions,
  decide_objects, authorize,
}

allow_objects-Within :
    (objects allowed : List String) (label : String)
    → (allow_objects objects allowed label ≡ none) ↔ Within allowed objects
unfolding allow_objects
allow_objects-Within [] allowed label = (λ _. tt, λ _. refl)
allow_objects-Within (x ∷ xs) allowed label =
    let n = null-sorted_set (except (x ∷ xs) allowed) in
    elim (Bool-cases (member "*" allowed)) [
      | inl star ↦ (λ _. Within-of_star allowed (x ∷ xs) star, λ _. ground arith)
      | inr no_star ↦ (
        λ h. except-Within allowed (x ∷ xs) (null-eq (except (x ∷ xs) allowed) (ground (arith, n))),
        λ w. ground (arith, n, Within-except allowed (x ∷ xs) no_star w),
      )
    ]

-- The collections that a route demands, each with the allow-list that it must lie in.
abbrev pub Demand : Type 0
Demand = List String × List String

abbrev pub step_demands : RequestContext → List (List String) → List Demand
step_demands context [] = []
step_demands context (metrics ∷ steps) =
    (context.allowed_metrics, metrics) ∷ step_demands context steps

abbrev pub target_demands : Route → RequestContext → List Demand
target_demands route context =
    let kind = route.target_kind in
    let target = route.target_id in
    if is_empty target
    then []
    else if says kind "metric" || says kind "metric_set"
    then ((context.allowed_metrics, comma_words target) ∷ [])
    else if says kind "dataset"
    then ((context.allowed_datasets, target ∷ []) ∷ [])
    else if says kind "entity"
    then ((context.allowed_entities, target ∷ []) ∷ [])
    else if says kind "dimension"
    then ((context.allowed_dimensions, target ∷ []) ∷ step_demands context route.step_metrics)
    else if says kind "knowledge"
    then ((context.allowed_knowledge_scopes, comma_words target) ∷ [])
    else []

abbrev pub Met : Demand → Type 0
Met d = Within d.0 d.1

steps_warning-Met :
    (context : RequestContext) (steps : List (List String))
    → (steps_warning steps context.allowed_metrics ≡ none) ↔ All Met (step_demands context steps)
unfolding steps_warning
steps_warning-Met context [] = (λ _. tt, λ _. refl)
steps_warning-Met context (metrics ∷ steps) =
    or_else_iff (allow_objects metrics context.allowed_metrics "metric")
      (steps_warning steps context.allowed_metrics)
      (allow_objects-Within metrics context.allowed_metrics "metric")
      (steps_warning-Met context steps)

one_demand :
    (objects allowed : List String) (label : String)
    → (allow_objects objects allowed label ≡ none) ↔ All Met ((allowed, objects) ∷ [])
one_demand objects allowed label =
    let e = allow_objects-Within objects allowed label in (λ h. (e.0 h, tt), λ h. e.1 h.0)

-- The two chains of tests side by side, for any outcome of the tests.
branches :
    (route : Route) (context : RequestContext)
    (empty metric dataset entity dimension knowledge : Bool)
    → ((if empty
          then none
          else if metric
          then allow_objects (comma_words route.target_id) context.allowed_metrics "metric"
          else if dataset
          then allow_objects (route.target_id ∷ []) context.allowed_datasets "dataset"
          else if entity
          then allow_objects (route.target_id ∷ []) context.allowed_entities "entity"
          else if dimension
          then or_else
              (allow_objects (route.target_id ∷ []) context.allowed_dimensions "dimension")
              (steps_warning route.step_metrics context.allowed_metrics)
          else if knowledge
          then allow_objects
              (comma_words route.target_id)
              context.allowed_knowledge_scopes
              "knowledge scope"
          else none)
        ≡ none)
      ↔ All Met (
          if empty
          then []
          else if metric
          then ((context.allowed_metrics, comma_words route.target_id) ∷ [])
          else if dataset
          then ((context.allowed_datasets, route.target_id ∷ []) ∷ [])
          else if entity
          then ((context.allowed_entities, route.target_id ∷ []) ∷ [])
          else if dimension
          then ((context.allowed_dimensions, route.target_id ∷ [])
              ∷ step_demands context route.step_metrics)
          else if knowledge
          then ((context.allowed_knowledge_scopes, comma_words route.target_id) ∷ [])
          else [])
branches route context true _ _ _ _ _ = (λ _. tt, λ _. refl)
branches route context false true _ _ _ _ = one_demand _ _ _
branches route context false false true _ _ _ = one_demand _ _ _
branches route context false false false true _ _ = one_demand _ _ _
branches route context false false false false true _ =
    or_else_iff _ _ (allow_objects-Within _ _ _) (steps_warning-Met context _)
branches route context false false false false false true = one_demand _ _ _
branches route context false false false false false false = (λ _. tt, λ _. refl)

target_warning-Met :
    (route : Route) (context : RequestContext)
    → (target_warning route context ≡ none) ↔ All Met (target_demands route context)
unfolding target_warning
target_warning-Met route context =
    let kind = route.target_kind in
    branches route context (is_empty route.target_id) (says kind "metric" || says kind "metric_set")
      (says kind "dataset") (says kind "entity") (says kind "dimension") (says kind "knowledge")

-- What a context must hold for a route to pass.
pub record Grants (table : List (String × List String)) (route : Route) (context : RequestContext)
    : Type 0 where
  scopes_held : Subset (required_scopes_of table route.intent) context.scopes
  pub targets_met : All Met (target_demands route context)
  scope_dimensions_met : Within context.allowed_dimensions (scope_dimensions context)

decide_objects_iff :
    (required : List String) (route : Route) (context : RequestContext)
    → ((decide_objects required route context).allowed ≡ true) ↔ (
        All Met (target_demands route context)
        × Within context.allowed_dimensions (scope_dimensions context))
unfolding decide_objects
decide_objects_iff required route context =
    let e = or_else_iff _ _ (target_warning-Met route context) (
      allow_objects-Within (scope_dimensions context) context.allowed_dimensions
        "dimension scope") in
    (λ h. e.0 (ground arith), λ w. ground (arith, e.1 w))

-- `authorize` allows a route with a context exactly when the context holds every scope that the
-- intent requires, and every object that the route demands, and the dimension of every mandatory
-- dimension scope, is in its allow-list or that list has "*".
pub authorize-exact :
    (table : List (String × List String)) (route : Route) (context : RequestContext)
    → ((authorize table route (some context)).allowed ≡ true) ↔ Grants table route context
unfolding authorize
authorize-exact table route context =
    let required = required_scopes_of table route.intent in
    let n = null-sorted_set (except required context.scopes) in
    let e = decide_objects_iff required route context in
    elim (Bool-cases (null (sorted_set (except required context.scopes)))) [
      | inl held ↦ (
        λ h.
            let w = e.0 (ground arith) in
            record {
              scopes_held =
                  except-Subset required context.scopes
                    (null-eq (except required context.scopes) (ground (arith, n)));
              targets_met = w.0;
              scope_dimensions_met = w.1;
            },
        λ g. ground (arith, e.1 (g.targets_met, g.scope_dimensions_met)),
      )
      | inr missing ↦ (
        λ h. ground arith,
        λ g. ground (arith, n, Subset-except required context.scopes g.scopes_held),
      )
    ]
