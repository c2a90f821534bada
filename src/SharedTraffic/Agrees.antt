-- ===== src/SharedTraffic/Agrees.antt =====
-- The admission script against the process-local guard's decision, and its reply's reading.
use ai_native_governed_data.Prelude.{
  ℕ, max, String, true, false, not, ◌≡◌, refl, inl, inr, length, leb, arith, Bool-cases,
}
use ai_native_governed_data.Prelude.Results.{Result, ok, err}
use ai_native_governed_data.Traffic.{
  Code, invalid_request_context, rate_limit_tracking_capacity, subject_rate_limited,
  tenant_rate_limited, tenant_concurrency_limit, global_concurrency_limit, TrafficGuard, Admission,
  admitted, rejected, reject, subject_window, tenant_window, active_of, decide,
}
use ai_native_governed_data.SharedTraffic.{
  Redis, AdmissionKeys, AdmissionArgs, prune_sets, retry_seconds, decide_admission, admission_lua,
}
use ai_native_governed_data.SharedTraffic.Backend.{
  TrafficGuardUnavailable, SharedAdmissionDecision, parse_admission, admission_args,
}

-- The texts of the codes that the local guard raises.
unfoldable pub code_text : Code → String
code_text invalid_request_context = "INVALID_REQUEST_CONTEXT"
code_text rate_limit_tracking_capacity = "RATE_LIMIT_TRACKING_CAPACITY"
code_text subject_rate_limited = "SUBJECT_RATE_LIMITED"
code_text tenant_rate_limited = "TENANT_RATE_LIMITED"
code_text tenant_concurrency_limit = "TENANT_CONCURRENCY_LIMIT"
code_text global_concurrency_limit = "GLOBAL_CONCURRENCY_LIMIT"

abbrev pub admission_text : Admission → String
admission_text (admitted tenant_id) = "ADMITTED"
admission_text (rejected r) = code_text r.code

abbrev pub parsed_text : Result TrafficGuardUnavailable SharedAdmissionDecision → String
parsed_text (err failure) = "UNAVAILABLE"
parsed_text (ok decision) = decision.code

-- The sorted sets of a request, once pruned, count what the local guard's windows and slots count.
pub record CountsAgree (redis : Redis) (keys : AdmissionKeys) (s : redis.Store)
    (guard : TrafficGuard) (tenant_id subject : String) : Type 0 where
  pub subject_count :
      redis.zcard keys.subject_rate_key s ≡ length (subject_window guard (tenant_id, subject))
  pub tenant_count : redis.zcard keys.tenant_rate_key s ≡ length (tenant_window guard tenant_id)
  pub tenant_leases : redis.zcard keys.tenant_key s ≡ active_of guard tenant_id
  pub global_leases : redis.zcard keys.global_key s ≡ guard.global_active

decide_admission-decide :
    (redis : Redis) (now ttl ticks : ℕ) (lease_id : String) (keys : AdmissionKeys) (s : redis.Store)
    (guard : TrafficGuard) (tenant_id subject : String)
    → CountsAgree redis keys s guard tenant_id subject
    → parsed_text (
        parse_admission
          (decide_admission redis now keys (admission_args guard.limits ttl lease_id) s).1)
      ≡ admission_text (decide guard tenant_id subject ticks).1
unfolding decide_admission decide parse_admission reject code_text
decide_admission-decide redis now ttl ticks lease_id keys s guard tenant_id subject agree =
    ground
      (arith, agree.subject_count, agree.tenant_count, agree.tenant_leases, agree.global_leases)

-- Where the pruned sorted sets of a request count what the local guard's pruned windows and slots
-- count, the script's reply, as it is parsed, has the code that the local guard decides: the same
-- tests in the same order.
pub admission_lua-decide :
    (redis : Redis) (now ttl ticks : ℕ) (lease_id : String) (keys : AdmissionKeys) (s : redis.Store)
    (guard : TrafficGuard) (tenant_id subject : String)
    → CountsAgree redis keys
        (prune_sets redis now keys (admission_args guard.limits ttl lease_id) s)
        guard
        tenant_id
        subject
    → parsed_text (
        parse_admission
          (admission_lua redis now keys (admission_args guard.limits ttl lease_id) s).1)
      ≡ admission_text (decide guard tenant_id subject ticks).1
unfolding admission_lua
admission_lua-decide redis now ttl ticks lease_id keys s guard tenant_id subject agree =
    decide_admission-decide redis now ttl ticks lease_id keys _ guard tenant_id subject agree

-- A decision that the script's reply stands for: refusals say to wait.
pub record Answered (answer : Result TrafficGuardUnavailable SharedAdmissionDecision) : Type 0 where
  decision : SharedAdmissionDecision
  understood : answer ≡ ok decision
  waits : leb 1 decision.retry_after_seconds ≡ not decision.admitted

leb-max : (n : ℕ) → leb 1 (max 1 n) ≡ true
leb-max n = ground arith

abbrev refusal : String → ℕ → SharedAdmissionDecision
refusal code retry = record { admitted = false; code = code; retry_after_seconds = max 1 retry }

refused_Answered :
    (code : String) (retry : ℕ) {answer : Result TrafficGuardUnavailable SharedAdmissionDecision}
    → answer ≡ ok (refusal code retry)
    → Answered answer
refused_Answered code retry e = record {
  decision = refusal code retry;
  understood = e;
  waits = leb-max retry;
}

decide_admission-Answered :
    (redis : Redis) (now : ℕ) (keys : AdmissionKeys) (args : AdmissionArgs) (s : redis.Store)
    → Answered (parse_admission (decide_admission redis now keys args s).1)
unfolding decide_admission parse_admission
decide_admission-Answered redis now keys args s =
    elim (Bool-cases (leb args.subject_limit (redis.zcard keys.subject_rate_key s))) [
      | inl full ↦
          refused_Answered "SUBJECT_RATE_LIMITED"
            (retry_seconds redis now args.window_ms (redis.oldest_score keys.subject_rate_key s))
            (rw full)
      | inr room1 ↦ elim (Bool-cases (leb args.tenant_limit (redis.zcard keys.tenant_rate_key s))) [
        | inl full ↦
            refused_Answered "TENANT_RATE_LIMITED"
              (retry_seconds redis now args.window_ms (redis.oldest_score keys.tenant_rate_key s))
              (rw (room1, full))
        | inr room2 ↦
            elim (Bool-cases (leb args.tenant_concurrency_limit (redis.zcard keys.tenant_key s))) [
              | inl full ↦ refused_Answered "TENANT_CONCURRENCY_LIMIT" 1 (rw (room1, room2, full))
              | inr room3 ↦
                  elim (Bool-cases
                    (leb args.global_concurrency_limit (redis.zcard keys.global_key s))) [
                      | inl full ↦
                          refused_Answered "GLOBAL_CONCURRENCY_LIMIT" 1
                            (rw (room1, room2, room3, full))
                      | inr room4 ↦ record {
                        decision = record {
                          admitted = true;
                          code = "ADMITTED";
                          retry_after_seconds = 0;
                        };
                        understood = rw (room1, room2, room3, room4);
                        waits = refl;
                      }
                    ]
            ]
      ]
    ]

-- The reply of the admission script is always understood: parsing it never raises, and the
-- decision has a wait of at least a second exactly where it refuses.
pub admission_lua-Answered :
    (redis : Redis) (now : ℕ) (keys : AdmissionKeys) (args : AdmissionArgs) (s : redis.Store)
    → Answered (parse_admission (admission_lua redis now keys args s).1)
unfolding admission_lua
admission_lua-Answered redis now keys args s =
    decide_admission-Answered redis now keys args (prune_sets redis now keys args s)
