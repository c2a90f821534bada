-- ===== src/SemanticQuery/Execute.antt =====
-- agent/semantic_query/executor.py: explain, then query, under the request's scope. The runner,
-- the environment, the file tests and the CSV artefact are arguments; the runner is given the
-- command lines run before, so that its answers may differ. Beside the result `execute` returns
-- the command lines that it ran.
pub mod Guarded
pub mod Served
use Prim.Native.String
use ai_native_governed_data.Prelude.{
  ℕ, ◌-◌, suc, String, Bool, true, false, not, Option, none, some, List, [], ◌∷◌, ◌++◌, map, null,
  length, ltb, ◌==◌, if◌then◌else◌, strip, is_empty,
}
use Prim.Native.Char.{Char, code}
use ai_native_governed_data.Prelude.Integers.{ℤ, pos, is_zero}
use ai_native_governed_data.Prelude.Words.{member, except}
use ai_native_governed_data.Tenancy.{RequestContext}
use ai_native_governed_data.Tenancy.Scope.{ScopePolicy, apply}
use ai_native_governed_data.SemanticQuery.{is_ready}
use ai_native_governed_data.SemanticQuery.{
  SemanticQueryStatus, complete, deferred, blocked, error, SemanticQuerySpec, metric_names,
  QueryWarning, note, execution_disabled, cli_missing, columns_missing, SemanticQueryPlan,
  SemanticQueryResult,
}
use ai_native_governed_data.SemanticQuery.Commands.{command_args, explain_args}

pub record CompletedProcess : Type 0 where
  pub returncode : ℤ
  pub stdout : String
  pub stderr : String

-- What a call of the runner comes to; `timed_out` has the output so far.
pub data RunnerOutcome : Type 0 where
  completed : CompletedProcess → RunnerOutcome
  timed_out : String → RunnerOutcome

pub record Artifact : Type 0 where
  pub rows : List (List (String × String))
  pub columns : List String

abbrev pub Trace : Type 0
Trace = List (List String)

-- What the executor reads of its surroundings.
pub record Surroundings : Type 0 where
  pub gate_variable : String
  pub gate_open : Bool
  pub binary : String
  pub binary_exists : Bool
  pub generated_spec_exists : Bool
  pub csv_path : String
  pub runner : Trace → List String → RunnerOutcome
  pub artifact : Trace → Option Artifact

-- `_run`
unfoldable pub run : Surroundings → Trace → List String → CompletedProcess
run around trace cmd = elim (around.runner trace cmd) [
  | completed process ↦ process
  | timed_out stdout ↦ record {
    returncode = pos 124;
    stdout = stdout;
    stderr = "MetricFlow command timed out";
  }
]

unfoldable pub remove_nul : String → String
remove_nul String.[] = String.[]
remove_nul (String.◌∷◌ c s) =
    let rest = remove_nul s in if code c == 0 then rest else String.◌∷◌ c rest

unfoldable pub text_length : String → ℕ
text_length String.[] = 0
text_length (String.◌∷◌ c s) = suc (text_length s)

-- `text[-n:]`
unfoldable pub last_chars : ℕ → String → String
last_chars n String.[] = String.[]
last_chars n (String.◌∷◌ c s) =
    let rest = last_chars n s in if ltb n (suc (text_length s)) then rest else String.◌∷◌ c s

unfoldable pub bounded_error : CompletedProcess → String
bounded_error process =
    let message =
      if not (is_empty process.stderr)
      then process.stderr
      else if not (is_empty process.stdout)
      then process.stdout
      else "MetricFlow command failed" in
    last_chars 1200 (remove_nul (strip message))

abbrev pub static_result :
    SemanticQueryStatus → SemanticQueryPlan → List QueryWarning → String → SemanticQueryResult
static_result status plan warnings validation = record {
  status = status;
  evidence = "STATIC_CONTRACT";
  plan = plan;
  rows = [];
  columns = [];
  warnings = warnings;
  validation = validation;
}

abbrev pub runtime_result :
    SemanticQueryStatus → SemanticQueryPlan → List QueryWarning → String → SemanticQueryResult
runtime_result status plan warnings validation =
    record (static_result status plan warnings validation) { evidence = "RUNTIME_VERIFIED" }

abbrev pub deferred_result : SemanticQueryPlan → QueryWarning → SemanticQueryResult
deferred_result plan reason = static_result deferred plan (reason ∷ []) "NOT_EXECUTED"

abbrev pub complete_result : SemanticQueryPlan → Artifact → SemanticQueryResult
complete_result plan found =
    record (runtime_result complete plan [] "METRICFLOW_EXPLAIN_AND_QUERY_PASS") {
      rows = found.rows;
      columns = found.columns;
    }

-- The checks of the rows and columns that the query wrote.
unfoldable pub check_artifact :
    SemanticQueryPlan → SemanticQuerySpec → Artifact → SemanticQueryResult
check_artifact plan spec found =
    let missing = except (metric_names spec) found.columns in
    if ltb spec.limit (length found.rows)
    then runtime_result error plan
        (note "MetricFlow returned more rows than the governed query limit." ∷ [])
        "ROW_LIMIT_VIOLATION"
    else if not (null missing)
    then record (runtime_result error plan (columns_missing missing ∷ [])
        "MISSING_METRIC_COLUMNS") { rows = found.rows; columns = found.columns }
    else complete_result plan found

-- `[str(mf), *args[1:]]`
abbrev pub with_binary : String → List String → List String
with_binary binary [] = binary ∷ []
with_binary binary (first ∷ args) = binary ∷ args

abbrev pub explain_cmd : Surroundings → SemanticQuerySpec → List String
explain_cmd around spec = with_binary around.binary (explain_args spec)

abbrev pub query_cmd : Surroundings → SemanticQuerySpec → List String
query_cmd around spec =
    with_binary around.binary (command_args spec) ++ ("--csv" ∷ around.csv_path ∷ [])

-- After the query: its return code, then its artefact.
unfoldable pub after_query :
    SemanticQueryPlan → SemanticQuerySpec → CompletedProcess → Option Artifact → SemanticQueryResult
after_query plan spec queried found =
    if not (is_zero queried.returncode)
    then runtime_result error plan
        (note "MetricFlow query failed after explain succeeded."
          ∷ note (bounded_error queried)
          ∷ [])
        "QUERY_FAILED"
    else elim found [
      | none ↦
          runtime_result error plan
            (note "MetricFlow reported success but did not create the requested CSV result." ∷ [])
            "MISSING_RESULT_ARTIFACT"
      | some artifact ↦ check_artifact plan spec artifact
    ]

unfoldable pub explain_then_query :
    Surroundings → SemanticQueryPlan → SemanticQuerySpec → SemanticQueryResult × Trace
explain_then_query around plan spec =
    let explain = explain_cmd around spec in
    let query = query_cmd around spec in
    let explained = run around [] explain in
    let queried = run around (explain ∷ []) query in
    if not (is_zero explained.returncode)
    then (
      runtime_result blocked plan
          (note "MetricFlow explain rejected the semantic query; the data query was not executed."
            ∷ note (bounded_error explained)
            ∷ [])
          "METRICFLOW_EXPLAIN_REJECTED",
      explain ∷ [],
    )
    else (
      after_query plan spec queried (around.artifact (explain ∷ query ∷ [])),
      explain ∷ query ∷ [],
    )

-- The gates of the environment, for a plan that passed the scope check.
unfoldable pub execute_scoped :
    Surroundings → SemanticQueryPlan → SemanticQuerySpec → SemanticQueryResult × Trace
execute_scoped around scoped spec =
    let plan : SemanticQueryPlan = record scoped { command_preview = command_args spec } in
    if not around.gate_open
    then (deferred_result plan (execution_disabled around.gate_variable), [])
    else if not around.binary_exists
    then (deferred_result plan (cli_missing around.binary), [])
    else if not around.generated_spec_exists
    then (
      deferred_result plan (note "Generated MetricFlow compatibility semantic spec is missing."),
      [],
    )
    else explain_then_query around plan spec

abbrev pub unready : SemanticQueryPlan → SemanticQueryResult × Trace
unready plan = (static_result plan.status plan plan.warnings "", [])

-- The scope check's answer; the scoped plan of a ready one has a specification.
abbrev pub after_scope :
    Surroundings
    → SemanticQueryPlan
    → SemanticQueryPlan × Option QueryWarning
    → SemanticQueryResult × Trace
after_scope around plan (scoped, some warning) =
    (static_result blocked plan (warning ∷ []) "TENANT_SCOPE_REJECTED", [])
after_scope around plan (scoped, none) = elim scoped.spec [
  | none ↦ unready scoped
  | some spec ↦ execute_scoped around scoped spec
]

unfoldable pub execute :
    ScopePolicy
    → Surroundings
    → Option RequestContext
    → SemanticQueryPlan
    → SemanticQueryResult × Trace
execute policy around context plan =
    if is_ready plan.status
    then elim plan.spec [
      | none ↦ unready plan
      | some spec ↦ after_scope around plan (apply policy plan context)
    ]
    else unready plan
