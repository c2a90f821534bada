-- ===== src/Recovery/Failure.antt =====
-- orchestration/dagster/commerce_dagster/failure_classification.py: failure classes, and what the
-- structured evidence of a command or of dbt proves.
pub mod Proven
use Prim.Native.Char.{code}
use ai_native_governed_data.Prelude.{
  ℕ, ◌+◌, String, Bool, true, false, not, ◌&&◌, ◌||◌, Option, none, some, List, [], ◌∷◌, leb, ◌==◌,
  null, if◌then◌else◌, is_empty, strip,
}
use text.Mathlib.Text.{◌==◌ as str_eq, starts_with}

-- `NONE` is `no_failure` here.
pub data FailureClass : Type 0 where
  no_failure : FailureClass
  transient_runtime : FailureClass
  infrastructure_unavailable : FailureClass
  deterministic_code : FailureClass
  data_contract : FailureClass
  unknown : FailureClass

pub data FailureClassSource : Type 0 where
  execution_adapter : FailureClassSource
  dbt_artifact : FailureClassSource
  dbt_command : FailureClassSource
  explicit_application : FailureClassSource
  unknown_source : FailureClassSource

-- The enumeration's values, and `FailureClass(raw_value)`: `none` where it raises `ValueError`.
unfoldable pub value_of : FailureClass → String
value_of no_failure = "none"
value_of transient_runtime = "transient_runtime"
value_of infrastructure_unavailable = "infrastructure_unavailable"
value_of deterministic_code = "deterministic_code"
value_of data_contract = "data_contract"
value_of unknown = "unknown"

unfoldable pub parse_class : String → Option FailureClass
parse_class raw =
    if str_eq raw "none"
    then some no_failure
    else if str_eq raw "transient_runtime"
    then some transient_runtime
    else if str_eq raw "infrastructure_unavailable"
    then some infrastructure_unavailable
    else if str_eq raw "deterministic_code"
    then some deterministic_code
    else if str_eq raw "data_contract"
    then some data_contract
    else if str_eq raw "unknown"
    then some unknown
    else none

pub record CommandFailureObservation : Type 0 where
  pub command_available : Bool
  pub timed_out : Bool
  pub service_running : Bool
  pub return_code : Option ℕ

unfoldable pub classify_command_failure : CommandFailureObservation → FailureClass
classify_command_failure observation =
    if not observation.command_available || not observation.service_running
    then infrastructure_unavailable
    else if observation.timed_out
    then transient_runtime
    else unknown

-- An entry of `run_results["results"]`: a mapping, whose two keys may be missing, or something else.
pub data RawResult : Type 0 where
  mapping : (unique_id status : Option String) → RawResult
  other : RawResult

pub record DbtFailureObservation : Type 0 where
  pub command_name : String
  pub command_succeeded : Bool
  pub run_results : Option (List RawResult)

pub record DbtFailureClassification : Type 0 where
  pub failure_class : FailureClass
  pub source : FailureClassSource
  pub reason_code : String
  pub failed_test_ids : List String

abbrev or_empty : Option String → String
or_empty none = ""
or_empty (some s) = s

-- `str.lower` on the code points of a text. Only `A` to `Z` are mapped: no other character has a
-- letter of the words that it is compared with for its lower case.
lower_codes : String → List ℕ
lower_codes String.[] = []
lower_codes (String.◌∷◌ c s) =
    (if leb b'A' (code c) && leb (code c) b'Z' then code c + 32 else code c) ∷ lower_codes s

codes_eq : List ℕ → List ℕ → Bool
codes_eq [] [] = true
codes_eq (a ∷ s) (b ∷ t) = a == b && codes_eq s t
codes_eq _ _ = false

-- `text.strip().lower() == word`, for a word in lower case.
unfoldable pub reads : String → String → Bool
unfolding lower_codes codes_eq
reads text word = codes_eq (lower_codes (strip text)) (lower_codes word)

-- A data test that failed: `_dbt_unique_id` starts with `test.`, and `_dbt_result_status` is `fail`.
unfoldable pub failed_test : RawResult → Option String
unfolding reads
failed_test (mapping unique_id status) =
    let id = strip (or_empty unique_id) in
    if starts_with id "test." && reads (or_empty status) "fail" then some id else none
failed_test other = none

unfoldable pub failed_tests : List RawResult → List String
failed_tests [] = []
failed_tests (r ∷ results) =
    let rest = failed_tests results in elim (failed_test r) [ some id ↦ id ∷ rest | none ↦ rest ]

abbrev classified :
    FailureClass → FailureClassSource → String → List String → DbtFailureClassification
classified failure_class source reason_code failed_test_ids = record {
  failure_class = failure_class;
  source = source;
  reason_code = reason_code;
  failed_test_ids = failed_test_ids;
}

-- The part of `classify_dbt_failure` that reads the results.
unfoldable pub classify_results : List RawResult → DbtFailureClassification
classify_results results =
    let failed = failed_tests results in
    if null failed
    then classified unknown dbt_artifact "dbt_nonzero_without_replay_safe_class" []
    else classified data_contract dbt_artifact "dbt_data_test_failed" failed

-- `ValueError` of `__post_init__` is `none`.
unfoldable pub classify_dbt_failure : DbtFailureObservation → Option DbtFailureClassification
classify_dbt_failure observation =
    if is_empty observation.command_name
    then none
    else if observation.command_succeeded
    then some (classified no_failure dbt_command "dbt_command_succeeded" [])
    else if reads observation.command_name "parse"
    then some (classified deterministic_code dbt_command "dbt_parse_failed" [])
    else elim observation.run_results [
      | none ↦
          if reads observation.command_name "compile"
          then some (
              classified unknown dbt_command "dbt_compile_failed_without_deterministic_evidence" [])
          else some (classified unknown dbt_command "dbt_failed_without_run_results" [])
      | some results ↦ some (classify_results results)
    ]

unfoldable pub allow_step_retry : FailureClass → Bool
allow_step_retry transient_runtime = true
allow_step_retry infrastructure_unavailable = true
allow_step_retry _ = false
