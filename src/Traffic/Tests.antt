-- ===== src/Traffic/Tests.antt =====
-- agent/api/traffic.py: small runs, and the theorems at concrete inputs.
use ai_native_governed_data.Prelude.{
  ℕ, ◌+◌, ◌*◌, ◌≤◌, ◌≡◌, refl, max, String, List, [], ◌∷◌, length, strip, string_discrete, arith,
}
use ai_native_governed_data.Prelude.Dict.{lookup, insert, pop}
use ai_native_governed_data.Traffic.{
  TrafficLimits, SubjectKey, admitted, Code, Admission, reject, prune, retry_after, cleanup,
  cleanup_stale_windows, count_admission, ensure_tracking_capacity, open_windows, take_slot, decide,
  acquire_locked, acquire, release_now, release, init, tracked, active_of, ticks_per_second,
  subject_key_discrete,
}
use ai_native_governed_data.Traffic.Serving.{
  Event, request, release_lease, run, start, held, held_by, times_of_subject, times_of_tenant,
}
use ai_native_governed_data.Traffic.Counters.{run-counters}
use ai_native_governed_data.Traffic.Rate.{recent}
use ai_native_governed_data.Traffic.Limits.{admissions-le_limits}
use ai_native_governed_data.Traffic.Retry.{retry_after_lem}
use ai_native_governed_data.Traffic.Tracking.{acquire-tracked}

program : Unit {0}
unfolding run prune retry_after cleanup cleanup_stale_windows count_admission
    ensure_tracking_capacity open_windows take_slot decide acquire_locked acquire release_now
    release init lookup insert pop strip string_discrete subject_key_discrete reject
program = tt

abbrev limits : TrafficLimits
limits = record {
  global_concurrency = 2;
  tenant_concurrency = 2;
  subject_rpm = 2;
  tenant_rpm = 3;
  max_tracked_keys = 3;
  window_seconds = 60;
}

abbrev second : ℕ → ℕ
second n = n * ticks_per_second

abbrev answer : List Event → String → String → ℕ → Admission
answer events tenant subject now = (acquire (run (start limits) events).guard tenant subject now).1

abbrev two : List Event
two = request "acme" "ann" (second 1) ∷ request " acme " "ann" (second 2) ∷ []

abbrev released : List Event
released =
    request "acme" "ann" (second 1)
    ∷ request " acme " "ann" (second 2)
    ∷ release_lease 0
    ∷ release_lease 0
    ∷ release_lease 1
    ∷ []

first : answer [] "acme" "ann" (second 1) ≡ admitted "acme"
unfolding program
first = refl

blank : answer [] "  " "ann" (second 1) ≡ reject Code.invalid_request_context 1
unfolding program
blank = refl

over_subject : answer two "acme" "ann" (second 3) ≡ reject Code.subject_rate_limited 59
unfolding program
over_subject = refl

over_tenant_slots : answer two "acme" "bob" (second 3) ≡ reject Code.tenant_concurrency_limit 1
unfolding program
over_tenant_slots = refl

after_release : answer released "acme" "bob" (second 3) ≡ admitted "acme"
unfolding program
after_release = refl

after_window : answer released "acme" "ann" (second 61) ≡ admitted "acme"
unfolding program
after_window = refl

-- With two of three keys tracked, a new tenant and subject take the guard to four.
one_key_too_many :
    tracked (run (start limits) (request "acme" "ann" 0 ∷ request "zeta" "bob" 1 ∷ [])).guard ≡ 4
unfolding program
one_key_too_many = refl

run-counters_example :
    ((run (start limits) released).guard.global_active ≡ held (run (start limits) released).leases)
    × ((t : String)
        → active_of (run (start limits) released).guard t
          ≡ held_by t (run (start limits) released).leases)
    × (held (run (start limits) released).leases ≤ 2)
    × ((t : String) → held_by t (run (start limits) released).leases ≤ 2)
run-counters_example = run-counters limits released

admissions-le_limits_example :
    ((key : SubjectKey)
      → length (
          recent
            (second 60)
            (second 30)
            (times_of_subject key (run (start limits) released).history))
        ≤ 2)
    × ((t : String)
        → length (
            recent
              (second 60)
              (second 30)
              (times_of_tenant t (run (start limits) released).history))
          ≤ 3)
unfolding program
admissions-le_limits_example =
    admissions-le_limits limits released (second 30) (omega arith) (omega arith)

retry_after_lem_example :
    (1 ≤ retry_after (second 60) (second 3) (second 1 ∷ []))
    × (prune
          (second 60)
          (second 3 + retry_after (second 60) (second 3) (second 1 ∷ []) * ticks_per_second)
          (second 1 ∷ [])
        ≡ prune
            (second 60)
            (second 3 + retry_after (second 60) (second 3) (second 1 ∷ []) * ticks_per_second)
            [])
    × (second 3 + retry_after (second 60) (second 3) (second 1 ∷ []) * ticks_per_second
        ≤ second 1 + second 60 + ticks_per_second)
retry_after_lem_example = retry_after_lem (second 60) (second 3) (second 1) [] (omega arith)

acquire-tracked_example :
    tracked (acquire (run (start limits) two).guard "zeta" "bob" (second 3)).0
    ≤ max
        (tracked (run (start limits) two).guard)
        ((run (start limits) two).guard.limits.max_tracked_keys + 1)
acquire-tracked_example = acquire-tracked (run (start limits) two).guard "zeta" "bob" (second 3)
