-- ===== src/Sessions/Tests.antt =====
-- Runs of sessions with fixed services.
use ai_native_governed_data.Prelude.{
  String, Bool, true, false, none, some, List, [], ◌∷◌, ◌≡◌, refl, arith, says, string_discrete,
  strip, if◌then◌else◌,
}
use ai_native_governed_data.Prelude.Words.{member, distinct_after}
use ai_native_governed_data.SemanticQuery.{
  SemanticQueryStatus, eq, SemanticQuerySpec, SemanticQueryPlan, metric_names, filter_to_dict,
  spec_to_dict,
}
use ai_native_governed_data.Sessions.{
  SessionDeltaKind, AnalysisSessionState, SessionPolicy, previous_period, fingerprint, sealed,
  validate, state_with_turn, first_chars, first_state, start,
}
use ai_native_governed_data.Sessions.Deltas.{
  Delta, Resolved, Reading, only, metric_delta, remove_filter_delta, set_filter, filter_delta,
  delta_of,
}
use ai_native_governed_data.Sessions.FollowUp.{
  BreakdownAnalysisMode, Answer, Services, finish, commit_planned, set_comparison_to,
  comparison_compute, breakdown_follow_up, apply_delta, follow_in, clear, set_or_follow,
  follow_checked, apply_follow_up,
}
use ai_native_governed_data.Sessions.Kept.{Outcome, apply_follow_up-Outcome}
use ai_native_governed_data.Sessions.Budget.{converse, Sound, converse-start}
use ai_native_governed_data.Sessions.Filters.{OneEach, delta_of-OneEach}

program : Unit {0}
unfolding string_discrete strip member distinct_after metric_names filter_to_dict spec_to_dict
    fingerprint sealed validate state_with_turn first_chars first_state start only metric_delta
    remove_filter_delta set_filter filter_delta delta_of finish commit_planned set_comparison_to
    comparison_compute breakdown_follow_up apply_delta follow_in clear set_or_follow follow_checked
    apply_follow_up converse
program = tt

abbrev policy : SessionPolicy
policy = record { version = 1; max_turns = 3; max_metrics = 3; max_filters = 2 }

abbrev fine : Answer
fine = record {
  status = SemanticQueryStatus.ready;
  warnings = [];
  mode = BreakdownAnalysisMode.compare;
}

abbrev region : Resolved
region = record { dimension = "store__region"; value = "West"; source = "session_followup" }

abbrev reading : Reading
reading = record {
  wants_addition = false;
  metrics_named = [];
  wants_removal = false;
  dimensions_named = [];
  resolved = some region;
}

abbrev services : Services
services = record {
  checksum = λ payload. "digest-of-the-session";
  runtime_enabled = false;
  gate_warning = "Session execution is disabled.";
  raw_query_surface = λ question. says question "select 1";
  is_clear_comparison = λ question. says question "clear comparison";
  comparison_context = λ question.
      if says question "previous period"
      then some
          (record { mode = previous_period; requested_days = none; label = "previous_period" })
      else none;
  infer_mode = λ question. BreakdownAnalysisMode.compare;
  is_change_request = λ question. says question "change";
  read = λ spec question. reading;
  plan_comparison = λ spec context question. fine;
  plan_breakdown = λ spec context question mode. fine;
  run_comparison = λ plan. plan;
  run_breakdown = λ plan. plan;
  run_query = λ spec. fine;
}

abbrev spec : SemanticQuerySpec
spec = record {
  metric = "net_sales";
  start_time = "2026-07-01";
  end_time = "2026-07-31";
  metrics = [];
  group_by = "metric_time__day" ∷ [];
  filters =
      record { dimension = "store__region"; operator = eq; value = "East"; source = "user" } ∷ [];
  limit = 20;
}

abbrev plan : SemanticQueryPlan
plan = record {
  status = SemanticQueryStatus.ready;
  question = "net sales in July";
  spec = some spec;
  warnings = [];
  command_preview = [];
  continuation_spec = none;
  clarification = none;
}

abbrev first : AnalysisSessionState
first =
    sealed services.checksum policy (first_state services.checksum policy "net sales in July" spec)

started : start services.checksum policy plan ≡ some first
unfolding program
started = refl

follow_ups : List (String × Bool)
follow_ups =
    ("previous period", false)
    ∷ ("select 1", true)
    ∷ ("only West", true)
    ∷ ("clear comparison", false)
    ∷ []

budget_used : (converse services policy follow_ups first).turn_count ≡ 3
unfolding program follow_ups
budget_used = refl

converse-start_example : Sound services policy (converse services policy follow_ups first)
converse-start_example = converse-start services policy plan first follow_ups (omega arith) started

replaced_kind :
    (apply_follow_up services policy first "only West" false).delta_kind
    ≡ some SessionDeltaKind.replace_filter
unfolding program
replaced_kind = refl

apply_follow_up-Outcome_example :
    Outcome services policy first (apply_follow_up services policy first "only West" false)
apply_follow_up-Outcome_example = apply_follow_up-Outcome services policy first "only West" false

abbrev to_west : Delta
unfolding program
to_west = set_filter spec region

west : delta_of spec reading ≡ some to_west
unfolding program
west = refl

one_filter : OneEach spec
unfolding program
one_filter = record { distinct = (refl, tt) }

delta_of-OneEach_example : OneEach to_west.spec
delta_of-OneEach_example = delta_of-OneEach spec reading to_west one_filter west
