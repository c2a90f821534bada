-- ===== src/Sessions.antt =====
-- agent/analysis_session/contracts.py and session.py: the turns of a governed analysis. The texts'
-- recognisers (regular expressions and marker lists of the policies), the resolver of values, the
-- comparator, the breakdown and the executor are arguments, as is SHA-256 over canonical JSON.
pub mod Deltas
pub mod FollowUp
pub mod Kept
pub mod Budget
pub mod Filters
mod Tests
use Prim.Native.String
use ai_native_governed_data.Prelude.{
  ℕ, zero, suc, ◌+◌, String, Bool, true, false, Option, none, some, List, [], ◌∷◌, ◌++◌, ◌==◌,
  if◌then◌else◌, not, says,
}
use ai_native_governed_data.Prelude.Json.{Json, null, num, text, dict, list_of}
use ai_native_governed_data.SemanticQuery.{
  SemanticQueryStatus, is_ready, SemanticQuerySpec, spec_to_dict, SemanticQueryPlan,
}

pub data AnalysisSessionStatus : Type 0 where
  active : AnalysisSessionStatus
  ready : AnalysisSessionStatus
  complete : AnalysisSessionStatus
  deferred : AnalysisSessionStatus
  clarification_required : AnalysisSessionStatus
  blocked : AnalysisSessionStatus
  error : AnalysisSessionStatus

pub data SessionDeltaKind : Type 0 where
  add_metric : SessionDeltaKind
  add_filter : SessionDeltaKind
  replace_filter : SessionDeltaKind
  remove_filter : SessionDeltaKind
  set_comparison : SessionDeltaKind
  clear_comparison : SessionDeltaKind
  compute_comparison : SessionDeltaKind
  compute_breakdown : SessionDeltaKind
  rank_breakdown : SessionDeltaKind
  contribution_analysis : SessionDeltaKind
  noop : SessionDeltaKind

abbrev pub delta_kind_value : SessionDeltaKind → String
delta_kind_value add_metric = "ADD_METRIC"
delta_kind_value add_filter = "ADD_FILTER"
delta_kind_value replace_filter = "REPLACE_FILTER"
delta_kind_value remove_filter = "REMOVE_FILTER"
delta_kind_value set_comparison = "SET_COMPARISON"
delta_kind_value clear_comparison = "CLEAR_COMPARISON"
delta_kind_value compute_comparison = "COMPUTE_COMPARISON"
delta_kind_value compute_breakdown = "COMPUTE_BREAKDOWN"
delta_kind_value rank_breakdown = "RANK_BREAKDOWN"
delta_kind_value contribution_analysis = "CONTRIBUTION_ANALYSIS"
delta_kind_value noop = "NOOP"

pub record SessionTurn : Type 0 where
  pub revision : ℕ
  pub question : String
  pub delta_kind : SessionDeltaKind
  pub summary : String

abbrev pub turn_to_dict : SessionTurn → Json
turn_to_dict turn = dict (
    ("revision", num turn.revision)
    ∷ ("question", text turn.question)
    ∷ ("delta_kind", text (delta_kind_value turn.delta_kind))
    ∷ ("summary", text turn.summary)
    ∷ [])

pub data ComparisonMode : Type 0 where
  previous_period : ComparisonMode
  year_over_year : ComparisonMode

abbrev pub comparison_mode_value : ComparisonMode → String
comparison_mode_value previous_period = "PREVIOUS_PERIOD"
comparison_mode_value year_over_year = "YEAR_OVER_YEAR"

pub record TimeComparisonContext : Type 0 where
  pub mode : ComparisonMode
  pub requested_days : Option ℕ
  pub label : String

abbrev pub num_or_null : Option ℕ → Json
num_or_null none = null
num_or_null (some n) = num n

abbrev pub comparison_to_dict : Option TimeComparisonContext → Json
comparison_to_dict none = null
comparison_to_dict (some context) = dict (
    ("mode", text (comparison_mode_value context.mode))
    ∷ ("requested_days", num_or_null context.requested_days)
    ∷ ("label", text context.label)
    ∷ [])

pub record AnalysisSessionState : Type 0 where
  pub session_id : String
  pub contract_version : ℕ
  pub original_question : String
  pub current_spec : SemanticQuerySpec
  pub revision : ℕ
  pub turn_count : ℕ
  pub last_question : String
  pub history : List SessionTurn
  pub integrity_checksum : String
  pub comparison : Option TimeComparisonContext

-- `AnalysisSessionResult`, without the plans and results that it passes on to its reader.
pub record AnalysisSessionResult : Type 0 where
  pub status : AnalysisSessionStatus
  pub state : AnalysisSessionState
  pub question : String
  pub delta_kind : Option SessionDeltaKind
  pub warnings : List String

-- `version` and `limits` of the policy.
pub record SessionPolicy : Type 0 where
  pub version : ℕ
  pub max_turns : ℕ
  pub max_metrics : ℕ
  pub max_filters : ℕ

-- `_fingerprint`; its `integrity_checksum` is not read.
unfoldable pub fingerprint : AnalysisSessionState → Json
fingerprint state = dict (
    ("session_id", text state.session_id)
    ∷ ("original_question", text state.original_question)
    ∷ ("spec", spec_to_dict state.current_spec)
    ∷ ("revision", num state.revision)
    ∷ ("turn_count", num state.turn_count)
    ∷ ("last_question", text state.last_question)
    ∷ ("history", list_of turn_to_dict state.history)
    ∷ ("comparison", comparison_to_dict state.comparison)
    ∷ [])

module _ (checksum : Json → String) (policy : SessionPolicy) where
  -- `_state`: the contract version and the checksum are filled in.
  unfoldable pub sealed : AnalysisSessionState → AnalysisSessionState
  sealed state =
      let versioned : AnalysisSessionState = record state { contract_version = policy.version } in
      record versioned { integrity_checksum = checksum (fingerprint versioned) }

  -- `_validate`
  unfoldable pub validate : AnalysisSessionState → Option String
  validate state =
      if not (state.contract_version == policy.version)
      then some "Analysis-session contract version mismatch."
      else if not (says (checksum (fingerprint state)) state.integrity_checksum)
      then some "Analysis-session integrity checksum mismatch; refuse mutated state."
      else if not (state.revision == state.turn_count)
      then some "Analysis-session revision/turn count mismatch."
      else none

  -- `_state_with_turn`, with the specification and the comparison of the new state.
  unfoldable pub state_with_turn :
      AnalysisSessionState
      → String
      → SessionDeltaKind
      → String
      → SemanticQuerySpec
      → Option TimeComparisonContext
      → AnalysisSessionState
  state_with_turn state question kind summary spec comparison =
      let turn : SessionTurn = record {
        revision = state.revision + 1;
        question = question;
        delta_kind = kind;
        summary = summary;
      } in
      sealed (record state {
        current_spec = spec;
        revision = state.revision + 1;
        turn_count = state.turn_count + 1;
        last_question = question;
        history = state.history ++ turn ∷ [];
        comparison = comparison;
      })

-- `text[:n]`
unfoldable pub first_chars : ℕ → String → String
first_chars zero s = String.[]
first_chars (suc n) String.[] = String.[]
first_chars (suc n) (String.◌∷◌ c s) = String.◌∷◌ c (first_chars n s)

-- The state that `start` seals.
unfoldable pub first_state :
    (Json → String) → SessionPolicy → String → SemanticQuerySpec → AnalysisSessionState
first_state checksum policy question spec =
    let seed = dict (
      ("original_question", text question)
      ∷ ("spec", spec_to_dict spec)
      ∷ ("contract_version", num policy.version)
      ∷ []) in
    let turn : SessionTurn = record {
      revision = 1;
      question = question;
      delta_kind = noop;
      summary = "Initial governed semantic query state";
    } in
    record {
      session_id = String.◌++◌ "sess_" (first_chars 16 (checksum seed));
      contract_version = policy.version;
      original_question = question;
      current_spec = spec;
      revision = 1;
      turn_count = 1;
      last_question = question;
      history = turn ∷ [];
      integrity_checksum = "";
      comparison = none;
    }

-- `start`; `none` where it raises ValueError.
unfoldable pub start :
    (Json → String) → SessionPolicy → SemanticQueryPlan → Option AnalysisSessionState
start checksum policy plan = elim plan.spec [
  | none ↦ none
  | some spec ↦
      if is_ready plan.status
      then some (sealed checksum policy (first_state checksum policy plan.question spec))
      else none
]

-- `_map_status`
abbrev pub map_status : SemanticQueryStatus → AnalysisSessionStatus
map_status SemanticQueryStatus.complete = AnalysisSessionStatus.complete
map_status SemanticQueryStatus.deferred = AnalysisSessionStatus.deferred
map_status SemanticQueryStatus.blocked = AnalysisSessionStatus.blocked
map_status SemanticQueryStatus.error = AnalysisSessionStatus.error
map_status SemanticQueryStatus.clarification_required = AnalysisSessionStatus.clarification_required
map_status SemanticQueryStatus.ready = AnalysisSessionStatus.ready
