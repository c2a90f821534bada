-- ===== src/Sessions/Budget.antt =====
-- A conversation: a session that was started, and any follow-ups, each on the state of the last.
use ai_native_governed_data.Prelude.{
  ◌≤◌, String, Bool, Option, none, some, List, [], ◌∷◌, ◌≡◌, ap, refl, sym, subst, length,
  length-append, arith, inl, inr, Option-cases, Bool-cases,
}
use ai_native_governed_data.SemanticQuery.{SemanticQuerySpec, SemanticQueryPlan}
use ai_native_governed_data.Sessions.{
  SessionDeltaKind, AnalysisSessionState, SessionPolicy, sealed, validate, first_state, start,
}
use ai_native_governed_data.SemanticQuery.{is_ready}
use ai_native_governed_data.Sessions.FollowUp.{Services, apply_follow_up}
use ai_native_governed_data.Sessions.Kept.{
  Advanced, refusal, commitment, sealed-validate, apply_follow_up-Outcome,
}

some-inj : {A : Type 0} {x y : A} → ◌≡◌ {A = Option A} (some x) (some y) → x ≡ y
some-inj h = cc h

module _ (services : Services) (policy : SessionPolicy) where
  -- Each follow-up is a question with its flag for execution.
  unfoldable pub converse : List (String × Bool) → AnalysisSessionState → AnalysisSessionState
  converse [] state = state
  converse ((question, execute) ∷ rest) state =
      converse rest (apply_follow_up services policy state question execute).state

  pub record Sound (state : AnalysisSessionState) : Type 0 where
    pub valid : validate services.checksum policy state ≡ none
    pub recorded : length state.history ≡ state.turn_count
    pub in_budget : state.turn_count ≤ policy.max_turns

  advance-Sound :
      (state after : AnalysisSessionState) {kind : SessionDeltaKind}
      → Sound state
      → Advanced services policy state kind after
      → Sound after
  advance-Sound state after s a = record {
    valid = a.valid;
    recorded = omega (
      arith,
      ap length a.recorded,
      length-append state.history (a.turn ∷ []),
      s.recorded,
      a.counted,
    );
    in_budget = a.in_budget;
  }

  follow_up-Sound :
      (state : AnalysisSessionState) (question : String) (execute : Bool)
      → Sound state
      → Sound (apply_follow_up services policy state question execute).state
  follow_up-Sound state question execute s =
      elim (apply_follow_up-Outcome services policy state question execute) [
        | refusal r ↦ subst Sound (sym r.unchanged) s
        | commitment c ↦ advance-Sound state _ s c.advanced
      ]

  converse-Sound :
      (rest : List (String × Bool)) (state : AnalysisSessionState)
      → Sound state
      → Sound (converse rest state)
  unfolding converse
  converse-Sound [] state s = s
  converse-Sound ((question, execute) ∷ rest) state s =
      converse-Sound rest _ (follow_up-Sound state question execute s)

  first-Sound :
      (question : String) (spec : SemanticQuerySpec)
      → 1 ≤ policy.max_turns
      → Sound (sealed services.checksum policy (first_state services.checksum policy question spec))
  unfolding sealed first_state
  first-Sound question spec one = record {
    valid =
        sealed-validate services policy (first_state services.checksum policy question spec) refl;
    recorded = refl;
    in_budget = one;
  }

  start-Sound :
      (plan : SemanticQueryPlan) (state : AnalysisSessionState)
      → 1 ≤ policy.max_turns
      → start services.checksum policy plan ≡ some state
      → Sound state
  unfolding start
  start-Sound plan state one h = elim (Option-cases plan.spec) [
    | inl absent ↦ ground arith
    | inr (spec, there) ↦ elim (Bool-cases (is_ready plan.status)) [
      | inr unready ↦ ground arith
      | inl ready ↦
          let first =
            sealed services.checksum policy
              (first_state services.checksum policy plan.question spec) in
          let e : first ≡ state = some-inj (ground (arith, h, there, ready)) in
          subst Sound e (first-Sound plan.question spec one)
    ]
  ]

-- A session that `start` made of a plan, under a budget of at least one turn, and any follow-ups:
-- its state passes the integrity check, has one recorded turn for each counted one, and never more
-- turns than the budget.
pub converse-start :
    (services : Services) (policy : SessionPolicy) (plan : SemanticQueryPlan)
    (state : AnalysisSessionState) (rest : List (String × Bool))
    → 1 ≤ policy.max_turns
    → start services.checksum policy plan ≡ some state
    → Sound services policy (converse services policy rest state)
converse-start services policy plan state rest one h =
    converse-Sound services policy rest state (start-Sound services policy plan state one h)
