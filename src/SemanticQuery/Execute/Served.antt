-- ===== src/SemanticQuery/Execute/Served.antt =====
-- The executor and the scope check together: what a run did is bound by the request's scope.
use ai_native_governed_data.Prelude.{
  true, false, Option, none, some, [], ◌∷◌, ◌≡◌, ◌⊎◌, inl, inr, refl, sym, subst, ap, ◌∙◌, null,
  arith, Option-cases,
}
use ai_native_governed_data.Prelude.Integers.{pos}
use ai_native_governed_data.Tenancy.{RequestContext}
use ai_native_governed_data.Tenancy.Scope.{ScopePolicy, apply}
use ai_native_governed_data.Tenancy.Scope.Guarded.{Scoped, apply-Scoped}
use ai_native_governed_data.SemanticQuery.{
  ready, complete, blocked, SemanticQuerySpec, SemanticQueryPlan, QueryWarning, SemanticQueryResult,
}
use ai_native_governed_data.SemanticQuery.Execute.{
  Trace, Surroundings, static_result, run, explain_cmd, query_cmd, execute_scoped, after_scope,
  execute,
}
use ai_native_governed_data.SemanticQuery.Execute.Guarded.{
  CompleteRun, execute_scoped-cases, explain_then_query-cases, execute_scoped-CompleteRun,
  previewed,
}

after_scope-clear :
    (around : Surroundings) (plan : SemanticQueryPlan)
    (answer : SemanticQueryPlan × Option QueryWarning) (spec : SemanticQuerySpec)
    → answer.1 ≡ none
    → answer.0.spec ≡ some spec
    → after_scope around plan answer ≡ execute_scoped around answer.0 spec
after_scope-clear around plan (scoped, none) spec h e = ground (arith, e)
after_scope-clear around plan (scoped, some warning) spec h e = cc

after_scope-rejected :
    (around : Surroundings) (plan : SemanticQueryPlan)
    (answer : SemanticQueryPlan × Option QueryWarning) (warning : QueryWarning)
    → answer.1 ≡ some warning
    → after_scope around plan answer
      ≡ (static_result blocked plan (warning ∷ []) "TENANT_SCOPE_REJECTED", [])
after_scope-rejected around plan (scoped, none) warning h = cc
after_scope-rejected around plan (scoped, some other) warning h = ground (arith, h)

execute-ready :
    (policy : ScopePolicy) (around : Surroundings) (context : RequestContext)
    (plan : SemanticQueryPlan) (spec : SemanticQuerySpec)
    → plan.status ≡ ready
    → plan.spec ≡ some spec
    → execute policy around (some context) plan
      ≡ after_scope around plan (apply policy plan (some context))
unfolding execute
execute-ready policy around context plan spec r e = ground (arith, r, e)

-- A ready plan is refused, or it is run as the scope check returned it.
record Refused (plan : SemanticQueryPlan) (outcome : SemanticQueryResult × Trace) : Type 0 where
  refused : outcome.0.status ≡ blocked
  idle : outcome.1 ≡ []

record Served (policy : ScopePolicy) (around : Surroundings) (context : RequestContext)
    (plan : SemanticQueryPlan) (spec : SemanticQuerySpec) (outcome : SemanticQueryResult × Trace)
    : Type 0 where
  scoped : SemanticQuerySpec
  holds : Scoped policy spec context scoped
  ran : outcome ≡ execute_scoped around (record plan { spec = some scoped }) scoped

execute-cases :
    (policy : ScopePolicy) (around : Surroundings) (context : RequestContext)
    (plan : SemanticQueryPlan) (spec : SemanticQuerySpec)
    → plan.status ≡ ready
    → plan.spec ≡ some spec
    → Refused plan (execute policy around (some context) plan)
      ⊎ Served policy around context plan spec (execute policy around (some context) plan)
execute-cases policy around context plan spec r e =
    let answer = apply policy plan (some context) in
    let go = execute-ready policy around context plan spec r e in
    elim (Option-cases answer.1) [
      | inr (warning, w) ↦ inl (
          subst (Refused plan) (sym (go ∙ after_scope-rejected around plan answer warning w))
            (record { refused = refl; idle = refl }))
      | inl clear ↦
          let (scoped, result, holds) = apply-Scoped policy plan spec context r e clear in
          inr (record {
            scoped = scoped;
            holds = holds;
            ran =
                go
                ∙ after_scope-clear around plan answer scoped clear
                    (ap (λ (p : SemanticQueryPlan). p.spec) result)
                ∙ ap (λ p. execute_scoped around p scoped) result;
          })
    ]

-- The command lines of a run under one specification: explain, and query after its success.
pub record RunUnder (around : Surroundings) (spec : SemanticQuerySpec) (trace : Trace)
    : Type 0 where
  gate : around.gate_open ≡ true
  explain_first :
      (trace ≡ explain_cmd around spec ∷ [])
      ⊎ (((run around [] (explain_cmd around spec)).returncode ≡ pos 0)
          × (trace ≡ explain_cmd around spec ∷ query_cmd around spec ∷ []))

execute_scoped-RunUnder :
    (around : Surroundings) (plan : SemanticQueryPlan) (spec : SemanticQuerySpec)
    → null (execute_scoped around plan spec).1 ≡ false
    → RunUnder around spec (execute_scoped around plan spec).1
unfolding execute_scoped
execute_scoped-RunUnder around plan spec h = elim (execute_scoped-cases around plan spec) [
  | inl (reason, e) ↦ cc
  | inr (gate, e) ↦
      subst (λ (o : SemanticQueryResult × Trace). RunUnder around spec o.1) (sym e)
        (record {
          gate = gate;
          explain_first = elim (explain_then_query-cases around (previewed plan spec) spec) [
            | inl (one, refused, said) ↦ inl one
            | inr (explained, ran) ↦
                inr (explained, ap (λ (o : SemanticQueryResult × Trace). o.1) ran)
          ];
        })
]

-- When a ready plan is executed for a request context and a command is run, the runtime gate is
-- open and one specification, which is the plan's under the context's scope (its filters hold
-- every mandatory one), is behind every command line: first its explain, and then, only where
-- that succeeded, its query.
pub execute-RunUnder :
    (policy : ScopePolicy) (around : Surroundings) (context : RequestContext)
    (plan : SemanticQueryPlan) (spec : SemanticQuerySpec)
    → plan.status ≡ ready
    → plan.spec ≡ some spec
    → null (execute policy around (some context) plan).1 ≡ false
    → (scoped : SemanticQuerySpec) × Scoped policy spec context scoped
      × RunUnder around scoped (execute policy around (some context) plan).1
execute-RunUnder policy around context plan spec r e h =
    elim (execute-cases policy around context plan spec r e) [
      | inl refusal ↦ ground (arith, refusal.idle, h)
      | inr served ↦ (
        served.scoped,
        served.holds,
        subst (λ (o : SemanticQueryResult × Trace). RunUnder around served.scoped o.1)
            (sym served.ran)
            (execute_scoped-RunUnder around _ served.scoped
              (sym (ap (λ (o : SemanticQueryResult × Trace). null o.1) served.ran) ∙ h)),
      )
    ]

-- When the execution of a ready plan for a request context is complete, the gate was open, the
-- explain and the query command of one specification, the plan's under the context's scope, were
-- run in this order and both succeeded, the rows are within its limit and every metric it names
-- is a column of the result.
pub execute-complete :
    (policy : ScopePolicy) (around : Surroundings) (context : RequestContext)
    (plan : SemanticQueryPlan) (spec : SemanticQuerySpec)
    → plan.status ≡ ready
    → plan.spec ≡ some spec
    → (execute policy around (some context) plan).0.status ≡ complete
    → (scoped : SemanticQuerySpec) × Scoped policy spec context scoped
      × CompleteRun around scoped (execute policy around (some context) plan)
execute-complete policy around context plan spec r e h =
    elim (execute-cases policy around context plan spec r e) [
      | inl refusal ↦ ground (arith, refusal.refused, h)
      | inr served ↦ (
        served.scoped,
        served.holds,
        subst (CompleteRun around served.scoped) (sym served.ran) (
            execute_scoped-CompleteRun around _ served.scoped
              (sym (ap (λ (o : SemanticQueryResult × Trace). o.0.status) served.ran) ∙ h)),
      )
    ]
