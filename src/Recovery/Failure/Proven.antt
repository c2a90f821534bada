-- ===== src/Recovery/Failure/Proven.antt =====
-- failure_classification.py: what a classification proves, and a failure class read back.
use ai_native_governed_data.Prelude.{◌≡◌, ◌≢◌, ◌↔◌, refl, false, some, List, [], arith}
use ai_native_governed_data.Recovery.Failure.{
  FailureClass, no_failure, transient_runtime, infrastructure_unavailable, deterministic_code,
  data_contract, unknown, value_of, parse_class, RawResult, DbtFailureObservation,
  DbtFailureClassification, failed_tests, classify_results, classify_dbt_failure, allow_step_retry,
  reads,
}

pub parse_class-value_of : (c : FailureClass) → parse_class (value_of c) ≡ some c
unfolding parse_class value_of
parse_class-value_of no_failure = refl
parse_class-value_of transient_runtime = refl
parse_class-value_of infrastructure_unavailable = refl
parse_class-value_of deterministic_code = refl
parse_class-value_of data_contract = refl
parse_class-value_of unknown = refl

-- Whatever dbt reports, its classification never permits a step retry, and it is a data-contract
-- failure exactly when dbt did not succeed at a command other than parse, left run results, and at
-- least one of them is a failed data test; these tests are then the ones that it names.
pub classify_dbt_failure-proven :
    (o : DbtFailureObservation) (c : DbtFailureClassification)
    → classify_dbt_failure o ≡ some c
    → (allow_step_retry c.failure_class ≡ false)
      × ((c.failure_class ≡ data_contract) ↔ (
          (o.command_succeeded ≡ false)
          × (reads o.command_name "parse" ≡ false)
          × ((results : List RawResult) × (o.run_results ≡ some results)
              × (failed_tests results ≢ [])
              × (c.failed_test_ids ≡ failed_tests results))))
unfolding classify_dbt_failure classify_results allow_step_retry
classify_dbt_failure-proven o c h = (
  ground arith,
  (
    λ e. ground arith,
    λ (unsuccessful, no_parse, (results, left, some_failed, named)). ground arith,
  ),
)
