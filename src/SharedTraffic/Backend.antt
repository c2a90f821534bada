-- ===== src/SharedTraffic/Backend.antt =====
-- agent/api/redis_traffic.py: RedisSharedTrafficBackend and the guard's `acquire`. A call of the
-- server may be lost before the script runs or after it: `Delivery` says which. SHA-256 is a
-- parameter.
use Prim.Native.String
use ai_native_governed_data.Prelude.{
  ℕ, ◌*◌, max, String, Bool, true, false, ◌||◌, Option, none, some, List, [], ◌∷◌, ◌==◌,
  if◌then◌else◌, strip, is_empty,
}
use ai_native_governed_data.Prelude.Results.{Result, ok, err}
use ai_native_governed_data.Traffic.{TrafficLimits}
use ai_native_governed_data.SharedTraffic.{
  subject_rate, tenant_rate, tenant_concurrency, global_concurrency, Redis, AdmissionKeys,
  AdmissionArgs, admission_lua, renew_lua, release_lua,
}

-- What a call of `client.eval` comes to.
pub data Delivery : Type 0 where
  delivered : Delivery
  request_lost : Delivery
  reply_lost : Delivery

-- `TrafficGuardUnavailable`
pub data TrafficGuardUnavailable : Type 0 where
  eval_failed : TrafficGuardUnavailable
  invalid_response : TrafficGuardUnavailable
  unknown_code : TrafficGuardUnavailable

pub record SharedAdmissionDecision : Type 0 where
  pub admitted : Bool
  pub code : String
  pub retry_after_seconds : ℕ

abbrev pub code_of_reason : ℕ → Option String
code_of_reason reason =
    if reason == 1
    then some "SUBJECT_RATE_LIMITED"
    else if reason == 2
    then some "TENANT_RATE_LIMITED"
    else if reason == 3
    then some "TENANT_CONCURRENCY_LIMIT"
    else if reason == 4
    then some "GLOBAL_CONCURRENCY_LIMIT"
    else none

-- `_parse_admission` of a reply's numbers; none is below zero.
unfoldable pub parse_admission : List ℕ → Result TrafficGuardUnavailable SharedAdmissionDecision
parse_admission [] = err invalid_response
parse_admission (_ ∷ []) = err invalid_response
parse_admission (_ ∷ _ ∷ []) = err invalid_response
parse_admission (first ∷ reason ∷ retry ∷ _) =
    if first == 1
    then ok (record { admitted = true; code = "ADMITTED"; retry_after_seconds = 0 })
    else elim (code_of_reason reason) [
      | none ↦ err unknown_code
      | some code ↦ ok (record { admitted = false; code = code; retry_after_seconds = max 1 retry })
    ]

-- `bool(values and int(values[0]) == 1)`
unfoldable pub parse_renewal : List ℕ → Bool
parse_renewal [] = false
parse_renewal (first ∷ _) = first == 1

-- `limits.…` in the script's order of arguments.
abbrev pub admission_args : TrafficLimits → ℕ → String → AdmissionArgs
admission_args limits lease_ttl_ms lease_id = record {
  subject_limit = limits.subject_rpm;
  tenant_limit = limits.tenant_rpm;
  tenant_concurrency_limit = limits.tenant_concurrency;
  global_concurrency_limit = limits.global_concurrency;
  window_ms = limits.window_seconds * 1000;
  lease_ttl_ms = lease_ttl_ms;
  lease_id = lease_id;
}

module _ (redis : Redis) (digest : String → String) where
  -- `_admission_keys`: the subject's digest is of the tenant, a NUL and the subject.
  abbrev pub admission_keys : String → String → AdmissionKeys
  admission_keys tenant_id subject = record {
    subject_rate_key = subject_rate (digest (String.◌++◌ tenant_id (String.◌++◌ "\0" subject)));
    tenant_rate_key = tenant_rate (digest tenant_id);
    tenant_key = tenant_concurrency (digest tenant_id);
    global_key = global_concurrency;
  }

  unfoldable pub admit :
      Delivery
      → ℕ
      → String
      → String
      → TrafficLimits
      → ℕ
      → String
      → redis.Store
      → redis.Store × Result TrafficGuardUnavailable SharedAdmissionDecision
  admit delivery now tenant_id subject limits lease_ttl_ms lease_id s =
      let ran =
        admission_lua redis now (admission_keys tenant_id subject)
          (admission_args limits lease_ttl_ms lease_id) s in
      elim delivery [
        | request_lost ↦ (s, err eval_failed)
        | reply_lost ↦ (ran.0, err eval_failed)
        | delivered ↦ (ran.0, parse_admission ran.1)
      ]

  unfoldable pub renew :
      Delivery
      → ℕ
      → String
      → String
      → ℕ
      → redis.Store
      → redis.Store × Result TrafficGuardUnavailable Bool
  renew delivery now tenant_id lease_id lease_ttl_ms s =
      let ran =
        renew_lua redis now (tenant_concurrency (digest tenant_id)) global_concurrency lease_ttl_ms
          lease_id s in
      elim delivery [
        | request_lost ↦ (s, err eval_failed)
        | reply_lost ↦ (ran.0, err eval_failed)
        | delivered ↦ (ran.0, ok (parse_renewal ran.1))
      ]

  unfoldable pub release :
      Delivery
      → String
      → String
      → redis.Store
      → redis.Store × Result TrafficGuardUnavailable (Unit {0})
  release delivery tenant_id lease_id s =
      let ran =
        release_lua redis (tenant_concurrency (digest tenant_id)) global_concurrency lease_id s in
      elim delivery [
        | request_lost ↦ (s, err eval_failed)
        | reply_lost ↦ (ran, err eval_failed)
        | delivered ↦ (ran, ok tt)
      ]

-- What the guard's `acquire` returns or raises: a lease by its tenant and its id.
pub data Acquired : Type 0 where
  leased : String → String → Acquired
  rejected : String → ℕ → Acquired
  unavailable : TrafficGuardUnavailable → Acquired

abbrev pub acquired_of :
    String → String → Result TrafficGuardUnavailable SharedAdmissionDecision → Acquired
acquired_of tenant_id lease_id (err failure) = unavailable failure
acquired_of tenant_id lease_id (ok decision) =
    if decision.admitted
    then leased tenant_id lease_id
    else rejected decision.code decision.retry_after_seconds

module _ (redis : Redis) (digest : String → String) where
  unfoldable pub acquire :
      Delivery
      → ℕ
      → String
      → String
      → TrafficLimits
      → ℕ
      → String
      → redis.Store
      → redis.Store × Acquired
  acquire delivery now tenant subject limits lease_ttl_ms lease_id s =
      let tenant_id = strip tenant in
      let name = strip subject in
      if is_empty tenant_id || is_empty name
      then (s, rejected "INVALID_REQUEST_CONTEXT" 1)
      else (let answer =
            admit redis digest delivery now tenant_id name limits lease_ttl_ms lease_id s in
          (answer.0, acquired_of tenant_id lease_id answer.1))
