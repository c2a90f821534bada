-- ===== src/Sessions/FollowUp.antt =====
-- agent/analysis_session/session.py: `apply_follow_up` and the methods that it ends in.
use Prim.Native.String
use ai_native_governed_data.Prelude.{
  String, Bool, true, false, not, Option, none, some, List, [], ◌∷◌, keep, length, leb, ltb, ◌==◌,
  if◌then◌else◌, strip, is_empty,
}
use ai_native_governed_data.Prelude.Json.{Json}
use text.Mathlib.Text.{starts_with}
use ai_native_governed_data.SemanticQuery.{SemanticQueryStatus, SemanticQuerySpec, metric_names}
use ai_native_governed_data.Sessions.{
  AnalysisSessionStatus, SessionDeltaKind, set_comparison, clear_comparison, compute_comparison,
  rank_breakdown, contribution_analysis, ComparisonMode, previous_period, year_over_year,
  TimeComparisonContext, comparison_mode_value, AnalysisSessionState, AnalysisSessionResult,
  SessionPolicy, validate, state_with_turn, map_status,
}
use ai_native_governed_data.SemanticQuery.{is_ready}
use ai_native_governed_data.Sessions.Deltas.{Delta, Reading, delta_of}

pub data BreakdownAnalysisMode : Type 0 where
  compare : BreakdownAnalysisMode
  top_absolute_change : BreakdownAnalysisMode
  top_growth_rate : BreakdownAnalysisMode
  contribution : BreakdownAnalysisMode

abbrev pub breakdown_mode_value : BreakdownAnalysisMode → String
breakdown_mode_value compare = "COMPARE"
breakdown_mode_value top_absolute_change = "TOP_ABSOLUTE_CHANGE"
breakdown_mode_value top_growth_rate = "TOP_GROWTH_RATE"
breakdown_mode_value contribution = "CONTRIBUTION"

-- The status and the warnings of a plan or of a result, and the mode of a breakdown's plan.
pub record Answer : Type 0 where
  pub status : SemanticQueryStatus
  pub warnings : List String
  pub mode : BreakdownAnalysisMode

-- What a session calls: the recognisers of a text, the comparator, the breakdown, the executor.
pub record Services : Type 0 where
  pub checksum : Json → String
  pub runtime_enabled : Bool
  pub gate_warning : String
  pub raw_query_surface : String → Bool
  pub is_clear_comparison : String → Bool
  pub comparison_context : String → Option TimeComparisonContext
  pub infer_mode : String → BreakdownAnalysisMode
  pub is_change_request : String → Bool
  pub read : SemanticQuerySpec → String → Reading
  pub plan_comparison : SemanticQuerySpec → TimeComparisonContext → String → Answer
  pub plan_breakdown :
      SemanticQuerySpec → TimeComparisonContext → String → BreakdownAnalysisMode → Answer
  pub run_comparison : Answer → Answer
  pub run_breakdown : Answer → Answer
  pub run_query : SemanticQuerySpec → Answer

abbrev pub refuse :
    AnalysisSessionStatus → AnalysisSessionState → String → List String → AnalysisSessionResult
refuse status state question warnings = record {
  status = status;
  state = state;
  question = question;
  delta_kind = none;
  warnings = warnings;
}

abbrev pub commit :
    AnalysisSessionStatus
    → AnalysisSessionState
    → String
    → SessionDeltaKind
    → List String
    → AnalysisSessionResult
commit status state question kind warnings = record (refuse status state question warnings) {
  delta_kind = some kind;
}

-- `context.mode.value.lower()`
abbrev pub mode_lower : ComparisonMode → String
mode_lower previous_period = "previous_period"
mode_lower year_over_year = "year_over_year"

abbrev pub breakdown_summary : SessionDeltaKind → BreakdownAnalysisMode → String
breakdown_summary kind mode = elim kind [
  | rank_breakdown ↦
      String.◌++◌ "Prepared governed "
        (String.◌++◌ (breakdown_mode_value mode) " ranking over existing comparison context.")
  | contribution_analysis ↦
      "Prepared governed contribution analysis over existing comparison context."
  | compute_comparison ↦ "Reused governed comparison context for grouped change analysis."
  | _ ↦ "Prepared governed comparative breakdown."
]

-- One grouping beside those by time.
abbrev pub is_grouped : SemanticQuerySpec → Bool
is_grouped spec = length (keep (λ g. not (starts_with g "metric_time__")) spec.group_by) == 1

module _ (services : Services) (policy : SessionPolicy) where
  -- The end of every committing branch: the gates, and the run's answer.
  unfoldable pub finish :
      Bool → AnalysisSessionState → String → SessionDeltaKind → Answer → AnalysisSessionResult
  finish execute new_state question kind ran =
      if not execute
      then commit AnalysisSessionStatus.ready new_state question kind []
      else if not services.runtime_enabled
      then commit AnalysisSessionStatus.deferred new_state question kind
          (services.gate_warning ∷ [])
      else commit (map_status ran.status) new_state question kind ran.warnings

  abbrev pub turned :
      AnalysisSessionState
      → String
      → SessionDeltaKind
      → String
      → Option TimeComparisonContext
      → AnalysisSessionState
  turned state question kind summary comparison =
      state_with_turn services.checksum policy state question kind summary state.current_spec
        comparison

  -- A plan that is not ready refuses; one that is ready commits its turn and may run.
  unfoldable pub commit_planned :
      AnalysisSessionState
      → String
      → SessionDeltaKind
      → String
      → TimeComparisonContext
      → Answer
      → Answer
      → Bool
      → AnalysisSessionResult
  commit_planned state question kind summary context plan ran execute =
      if is_ready plan.status
      then finish execute (turned state question kind summary (some context)) question kind ran
      else refuse (map_status plan.status) state question plan.warnings

  -- `_set_comparison`
  unfoldable pub set_comparison_to :
      AnalysisSessionState → String → TimeComparisonContext → Bool → AnalysisSessionResult
  set_comparison_to state question context execute =
      let summary =
        String.◌++◌ "Set " (String.◌++◌ (mode_lower context.mode) " comparison context.") in
      let breakdown = services.plan_breakdown state.current_spec context question compare in
      let comparison = services.plan_comparison state.current_spec context question in
      if is_grouped state.current_spec
      then commit_planned state question set_comparison summary context breakdown
          (services.run_breakdown breakdown) execute
      else commit_planned state question set_comparison summary context comparison
          (services.run_comparison comparison) execute

  -- `_comparison_compute`, given the state's comparison.
  unfoldable pub comparison_compute :
      AnalysisSessionState → String → TimeComparisonContext → Bool → AnalysisSessionResult
  comparison_compute state question context execute =
      let breakdown = services.plan_breakdown state.current_spec context question compare in
      let comparison = services.plan_comparison state.current_spec context question in
      let summary = String.◌++◌ "Reused governed " (
        String.◌++◌ (comparison_mode_value context.mode)
          " comparison context to compute change.") in
      if is_grouped state.current_spec
      then commit_planned state question compute_comparison
          (breakdown_summary compute_comparison breakdown.mode) context breakdown
          (services.run_breakdown breakdown) execute
      else commit_planned state question compute_comparison summary context comparison
          (services.run_comparison comparison) execute

  -- `_breakdown_follow_up`
  unfoldable pub breakdown_follow_up :
      AnalysisSessionState
      → String
      → SessionDeltaKind
      → BreakdownAnalysisMode
      → TimeComparisonContext
      → Bool
      → AnalysisSessionResult
  breakdown_follow_up state question kind mode context execute =
      let plan = services.plan_breakdown state.current_spec context question mode in
      commit_planned state question kind (breakdown_summary kind plan.mode) context plan
        (services.run_breakdown plan) execute

  -- The limits on a delta, and its commit.
  unfoldable pub apply_delta :
      AnalysisSessionState → String → String → Option Delta → Bool → AnalysisSessionResult
  apply_delta state question trimmed none execute =
      refuse AnalysisSessionStatus.clarification_required state question (
        "Follow-up did not resolve to one governed metric/filter delta. State was not changed."
        ∷ [])
  apply_delta state question trimmed (some delta) execute =
      if ltb policy.max_metrics (length (metric_names delta.spec))
      then refuse AnalysisSessionStatus.blocked state question
          ("Follow-up would exceed the governed metric-set limit." ∷ [])
      else if ltb policy.max_filters (length delta.spec.filters)
      then refuse AnalysisSessionStatus.blocked state question
          ("Follow-up would exceed the governed filter limit." ∷ [])
      else finish execute
          (state_with_turn services.checksum policy state trimmed delta.kind delta.summary
            delta.spec state.comparison)
          trimmed delta.kind (services.run_query delta.spec)

  abbrev pub delta_follow_up : AnalysisSessionState → String → String → Bool → AnalysisSessionResult
  delta_follow_up state question trimmed execute =
      apply_delta state question trimmed
        (delta_of state.current_spec (services.read state.current_spec trimmed)) execute

  abbrev pub kind_of_mode : BreakdownAnalysisMode → SessionDeltaKind
  kind_of_mode mode = elim mode [ contribution ↦ contribution_analysis | _ ↦ rank_breakdown ]

  abbrev pub is_compare : BreakdownAnalysisMode → Bool
  is_compare mode = elim mode [ compare ↦ true | _ ↦ false ]

  -- What follows a text that sets no comparison, by the state's comparison.
  unfoldable pub follow_in :
      Option TimeComparisonContext
      → AnalysisSessionState
      → String
      → String
      → Bool
      → AnalysisSessionResult
  follow_in none state question trimmed execute =
      if services.is_change_request trimmed
      then refuse AnalysisSessionStatus.clarification_required state question (
          "No governed comparison context exists; request previous-period or year-over-year comparison first."
          ∷ [])
      else delta_follow_up state question trimmed execute
  follow_in (some context) state question trimmed execute =
      let mode = services.infer_mode trimmed in
      if not (is_compare mode)
      then breakdown_follow_up state trimmed (kind_of_mode mode) mode context execute
      else if services.is_change_request trimmed
      then comparison_compute state trimmed context execute
      else delta_follow_up state question trimmed execute

  -- The request to clear the comparison.
  unfoldable pub clear :
      Option TimeComparisonContext → AnalysisSessionState → String → String → AnalysisSessionResult
  clear none state question trimmed =
      refuse AnalysisSessionStatus.clarification_required state question
        ("No governed comparison context exists to clear." ∷ [])
  clear (some context) state question trimmed =
      commit AnalysisSessionStatus.ready
        (turned state trimmed clear_comparison
          "Cleared governed comparison context while preserving semantic-query state." none)
        trimmed clear_comparison []

  unfoldable pub set_or_follow :
      Option TimeComparisonContext
      → AnalysisSessionState
      → String
      → String
      → Bool
      → AnalysisSessionResult
  set_or_follow (some context) state question trimmed execute =
      set_comparison_to state trimmed context execute
  set_or_follow none state question trimmed execute =
      follow_in state.comparison state question trimmed execute

  -- After the integrity check: the budget, the text's form, and the branches.
  unfoldable pub follow_checked : AnalysisSessionState → String → Bool → AnalysisSessionResult
  follow_checked state question execute =
      let trimmed = strip question in
      if leb policy.max_turns state.turn_count
      then refuse AnalysisSessionStatus.blocked state question
          ("Analysis session turn budget is exhausted." ∷ [])
      else if is_empty trimmed
      then refuse AnalysisSessionStatus.clarification_required state question
          ("A non-empty follow-up is required." ∷ [])
      else if services.raw_query_surface trimmed
      then refuse AnalysisSessionStatus.blocked state question
          ("Raw SQL / raw where syntax is not allowed in governed analysis-session deltas." ∷ [])
      else if services.is_clear_comparison trimmed
      then clear state.comparison state question trimmed
      else set_or_follow (services.comparison_context trimmed) state question trimmed execute

  -- `apply_follow_up`
  unfoldable pub apply_follow_up : AnalysisSessionState → String → Bool → AnalysisSessionResult
  apply_follow_up state question execute = elim (validate services.checksum policy state) [
    | some failure ↦ refuse AnalysisSessionStatus.blocked state question (failure ∷ [])
    | none ↦ follow_checked state question execute
  ]
