-- ===== src/Sessions/Kept.antt =====
-- What a follow-up does to a session: it is refused and changes nothing, or it adds one turn.
use ai_native_governed_data.Prelude.{
  ◌+◌, ◌≤◌, ◌<◌, String, Bool, true, false, not, Option, none, some, List, [], ◌∷◌, ◌++◌, ◌≡◌, ◌⊎◌,
  inl, inr, refl, length, leb, leb→lt, ltb, if◌then◌else◌, arith, says_refl, strip, is_empty,
}
use ai_native_governed_data.SemanticQuery.{SemanticQuerySpec, metric_names}
use ai_native_governed_data.Sessions.{
  AnalysisSessionStatus, SessionDeltaKind, set_comparison, compute_comparison, clear_comparison,
  SessionTurn, TimeComparisonContext, AnalysisSessionState, AnalysisSessionResult, SessionPolicy,
  sealed, fingerprint, validate, state_with_turn, map_status,
}
use ai_native_governed_data.SemanticQuery.{is_ready}
use ai_native_governed_data.Sessions.Deltas.{Delta}
use ai_native_governed_data.Sessions.FollowUp.{
  Services, Answer, refuse, commit, finish, turned, commit_planned, set_comparison_to,
  comparison_compute, breakdown_follow_up, apply_delta, follow_in, clear, set_or_follow,
  follow_checked, apply_follow_up, is_grouped, is_compare, kind_of_mode, BreakdownAnalysisMode,
}

module _ (services : Services) (policy : SessionPolicy) where
  -- The limits on a specification that a delta makes.
  abbrev pub WithinLimits : SemanticQuerySpec → Type 0
  WithinLimits spec =
      (length (metric_names spec) ≤ policy.max_metrics) × (length spec.filters ≤ policy.max_filters)

  -- One turn more, of a kind, within the budget; the specification is the old one or within limits.
  pub record Advanced (state : AnalysisSessionState) (kind : SessionDeltaKind)
      (after : AnalysisSessionState) : Type 0 where
    pub turn : SessionTurn
    pub recorded : after.history ≡ state.history ++ turn ∷ []
    pub turn_kind : turn.delta_kind ≡ kind
    pub turn_revision : turn.revision ≡ after.revision
    pub counted : after.turn_count ≡ state.turn_count + 1
    pub in_budget : after.turn_count ≤ policy.max_turns
    pub valid : validate services.checksum policy after ≡ none
    pub same_session : after.session_id ≡ state.session_id
    pub same_question : after.original_question ≡ state.original_question
    pub spec_kept : (after.current_spec ≡ state.current_spec) ⊎ WithinLimits after.current_spec

  pub record Refused (state : AnalysisSessionState) (result : AnalysisSessionResult) : Type 0 where
    pub unchanged : result.state ≡ state
    pub no_delta : result.delta_kind ≡ none

  pub record Committed (state : AnalysisSessionState) (result : AnalysisSessionResult)
      : Type 0 where
    pub kind : SessionDeltaKind
    pub delta : result.delta_kind ≡ some kind
    pub advanced : Advanced state kind result.state

  pub data Outcome (state : AnalysisSessionState) (result : AnalysisSessionResult) : Type 0 where
    refusal : Refused state result → Outcome state result
    commitment : Committed state result → Outcome state result

  refused :
      (state : AnalysisSessionState) (status : AnalysisSessionStatus) (question : String)
      (warnings : List String)
      → Outcome state (refuse status state question warnings)
  refused state status question warnings = refusal (record { unchanged = refl; no_delta = refl })

  validate_counts :
      (state : AnalysisSessionState)
      → validate services.checksum policy state ≡ none
      → state.revision ≡ state.turn_count
  unfolding validate
  validate_counts state h = ground arith

  pub sealed-validate :
      (state : AnalysisSessionState)
      → state.revision ≡ state.turn_count
      → validate services.checksum policy (sealed services.checksum policy state) ≡ none
  unfolding validate sealed fingerprint
  sealed-validate state e =
      let versioned : AnalysisSessionState = record state { contract_version = policy.version } in
      ground (arith, says_refl (services.checksum (fingerprint versioned)), e)

  module _ (state : AnalysisSessionState) where
    state_with_turn-Advanced :
        (question : String) (kind : SessionDeltaKind) (summary : String) (spec : SemanticQuerySpec)
        (comparison : Option TimeComparisonContext)
        → validate services.checksum policy state ≡ none
        → state.turn_count < policy.max_turns
        → (spec ≡ state.current_spec) ⊎ WithinLimits spec
        → Advanced state kind
            (state_with_turn services.checksum policy state question kind summary spec comparison)
    unfolding state_with_turn sealed
    state_with_turn-Advanced question kind summary spec comparison v room kept =
        let counts = validate_counts state v in
        let turn : SessionTurn = record {
          revision = state.revision + 1;
          question = question;
          delta_kind = kind;
          summary = summary;
        } in
        let next : AnalysisSessionState = record state {
          current_spec = spec;
          revision = state.revision + 1;
          turn_count = state.turn_count + 1;
          last_question = question;
          history = state.history ++ turn ∷ [];
          comparison = comparison;
        } in
        record {
          turn = turn;
          recorded = refl;
          turn_kind = refl;
          turn_revision = refl;
          counted = refl;
          in_budget = omega (arith, room);
          valid = sealed-validate next (omega (arith, counts));
          same_session = refl;
          same_question = refl;
          spec_kept = kept;
        }

    either :
        (test : Bool) (x y : AnalysisSessionResult)
        → Outcome state x
        → Outcome state y
        → Outcome state (if test then x else y)
    either true x y p q = p
    either false x y p q = q

    -- The same, where a branch needs the test's outcome.
    by_test :
        (test : Bool) (x y : AnalysisSessionResult)
        → (test ≡ true → Outcome state x)
        → (test ≡ false → Outcome state y)
        → Outcome state (if test then x else y)
    by_test true x y p q = p refl
    by_test false x y p q = q refl

    committed :
        (status : AnalysisSessionStatus) (after : AnalysisSessionState) (question : String)
        (kind : SessionDeltaKind) (warnings : List String)
        → Advanced state kind after
        → Outcome state (commit status after question kind warnings)
    committed status after question kind warnings a =
        commitment (record { kind = kind; delta = refl; advanced = a })

    finish-Outcome :
        (execute : Bool) (after : AnalysisSessionState) (question : String)
        (kind : SessionDeltaKind) (ran : Answer)
        → Advanced state kind after
        → Outcome state (finish services policy execute after question kind ran)
    unfolding finish
    finish-Outcome execute after question kind ran a =
        either (not execute) _ _ (committed AnalysisSessionStatus.ready after question kind [] a) (
          either (not services.runtime_enabled) _ _
            (committed AnalysisSessionStatus.deferred after question kind
              (services.gate_warning ∷ []) a)
            (committed (map_status ran.status) after question kind ran.warnings a))

    module _ (v : validate services.checksum policy state ≡ none)
        (room : state.turn_count < policy.max_turns) where
      turned-Advanced :
          (question : String) (kind : SessionDeltaKind) (summary : String)
          (comparison : Option TimeComparisonContext)
          → Advanced state kind (turned services policy state question kind summary comparison)
      turned-Advanced question kind summary comparison =
          state_with_turn-Advanced question kind summary state.current_spec comparison v room
            (inl refl)

      commit_planned-Outcome :
          (question : String) (kind : SessionDeltaKind) (summary : String)
          (context : TimeComparisonContext) (plan ran : Answer) (execute : Bool)
          → Outcome state
              (commit_planned services policy state question kind summary context plan ran execute)
      unfolding commit_planned
      commit_planned-Outcome question kind summary context plan ran execute =
          either (is_ready plan.status) _ _
            (finish-Outcome execute
              (turned services policy state question kind summary (some context)) question kind ran
              (turned-Advanced question kind summary (some context)))
            (refused state (map_status plan.status) question plan.warnings)

      set_comparison_to-Outcome :
          (question : String) (context : TimeComparisonContext) (execute : Bool)
          → Outcome state (set_comparison_to services policy state question context execute)
      unfolding set_comparison_to
      set_comparison_to-Outcome question context execute =
          either (is_grouped state.current_spec) _ _
            (commit_planned-Outcome question set_comparison _ context _ _ execute)
            (commit_planned-Outcome question set_comparison _ context _ _ execute)

      comparison_compute-Outcome :
          (question : String) (context : TimeComparisonContext) (execute : Bool)
          → Outcome state (comparison_compute services policy state question context execute)
      unfolding comparison_compute
      comparison_compute-Outcome question context execute =
          either (is_grouped state.current_spec) _ _
            (commit_planned-Outcome question compute_comparison _ context _ _ execute)
            (commit_planned-Outcome question compute_comparison _ context _ _ execute)

      breakdown_follow_up-Outcome :
          (question : String) (kind : SessionDeltaKind) (mode : BreakdownAnalysisMode)
          (context : TimeComparisonContext) (execute : Bool)
          → Outcome state
              (breakdown_follow_up services policy state question kind mode context execute)
      unfolding breakdown_follow_up
      breakdown_follow_up-Outcome question kind mode context execute =
          commit_planned-Outcome question kind _ context _ _ execute

      apply_delta-Outcome :
          (question trimmed : String) (delta : Option Delta) (execute : Bool)
          → Outcome state (apply_delta services policy state question trimmed delta execute)
      unfolding apply_delta
      apply_delta-Outcome question trimmed none execute =
          refused state AnalysisSessionStatus.clarification_required question _
      apply_delta-Outcome question trimmed (some delta) execute =
          let after =
            state_with_turn services.checksum policy state trimmed delta.kind delta.summary
              delta.spec state.comparison in
          by_test (ltb policy.max_metrics (length (metric_names delta.spec))) _ _
            (λ many. refused state AnalysisSessionStatus.blocked question _)
            (λ few.
              by_test (ltb policy.max_filters (length delta.spec.filters)) _ _
                (λ many. refused state AnalysisSessionStatus.blocked question _)
                (λ little.
                  finish-Outcome execute after trimmed delta.kind (services.run_query delta.spec) (
                    state_with_turn-Advanced trimmed delta.kind delta.summary delta.spec
                      state.comparison v room (inr (ground arith, ground arith)))))

      follow_in-Outcome :
          (comparison : Option TimeComparisonContext) (question trimmed : String) (execute : Bool)
          → Outcome state (follow_in services policy comparison state question trimmed execute)
      unfolding follow_in
      follow_in-Outcome none question trimmed execute =
          either (services.is_change_request trimmed) _ _
            (refused state AnalysisSessionStatus.clarification_required question _)
            (apply_delta-Outcome question trimmed _ execute)
      follow_in-Outcome (some context) question trimmed execute =
          let mode = services.infer_mode trimmed in
          either (not (is_compare services policy mode)) _ _
            (breakdown_follow_up-Outcome trimmed (kind_of_mode services policy mode) mode context
              execute)
            (either (services.is_change_request trimmed) _ _
              (comparison_compute-Outcome trimmed context execute)
              (apply_delta-Outcome question trimmed _ execute))

      clear-Outcome :
          (comparison : Option TimeComparisonContext) (question trimmed : String)
          → Outcome state (clear services policy comparison state question trimmed)
      unfolding clear
      clear-Outcome none question trimmed =
          refused state AnalysisSessionStatus.clarification_required question _
      clear-Outcome (some context) question trimmed =
          committed AnalysisSessionStatus.ready _ trimmed clear_comparison []
            (turned-Advanced trimmed clear_comparison _ none)

      set_or_follow-Outcome :
          (context : Option TimeComparisonContext) (question trimmed : String) (execute : Bool)
          → Outcome state (set_or_follow services policy context state question trimmed execute)
      unfolding set_or_follow
      set_or_follow-Outcome (some context) question trimmed execute =
          set_comparison_to-Outcome trimmed context execute
      set_or_follow-Outcome none question trimmed execute =
          follow_in-Outcome state.comparison question trimmed execute

    follow_checked-Outcome :
        (question : String) (execute : Bool)
        → validate services.checksum policy state ≡ none
        → Outcome state (follow_checked services policy state question execute)
    unfolding follow_checked
    follow_checked-Outcome question execute v =
        let trimmed = strip question in
        by_test (leb policy.max_turns state.turn_count) _ _
          (λ over. refused state AnalysisSessionStatus.blocked question _)
          (λ under.
            let room = leb→lt policy.max_turns state.turn_count under in
            either (is_empty trimmed) _ _
              (refused state AnalysisSessionStatus.clarification_required question _)
              (either (services.raw_query_surface trimmed) _ _
                (refused state AnalysisSessionStatus.blocked question _)
                (either (services.is_clear_comparison trimmed) _ _
                  (clear-Outcome v room state.comparison question trimmed)
                  (set_or_follow-Outcome v room (services.comparison_context trimmed) question
                    trimmed execute))))

    by_check :
        (question : String) (execute : Bool) (check : Option String)
        → validate services.checksum policy state ≡ check
        → Outcome state (elim check [
          | some failure ↦ refuse AnalysisSessionStatus.blocked state question (failure ∷ [])
          | none ↦ follow_checked services policy state question execute
        ])
    by_check question execute none v = follow_checked-Outcome question execute v
    by_check question execute (some failure) v =
        refused state AnalysisSessionStatus.blocked question (failure ∷ [])

-- A follow-up, whatever its text reads as and whatever the services answer, is refused, and then
-- the session's state is the given one and no delta is reported; or it is committed, and then the
-- new state has exactly one turn more, of the reported kind and numbered by the new revision,
-- within the turn budget; it passes the integrity check and keeps the session and its first
-- question; and its specification is the old one or within the limits on metrics and filters.
pub apply_follow_up-Outcome :
    (services : Services) (policy : SessionPolicy) (state : AnalysisSessionState)
    (question : String) (execute : Bool)
    → Outcome services policy state (apply_follow_up services policy state question execute)
unfolding apply_follow_up
apply_follow_up-Outcome services policy state question execute =
    by_check services policy state question execute (validate services.checksum policy state) refl
