-- ===== src/SharedTraffic/Tests.antt =====
-- Runs of the shared guard on the server in memory.
use ai_native_governed_data.Prelude.{
  ℕ, ◌≤◌, String, false, true, ◌↔◌, List, [], ◌∷◌, ◌≡◌, refl, arith, string_discrete, strip,
}
use ai_native_governed_data.Prelude.Dict.{lookup, insert, pop}
use ai_native_governed_data.Prelude.Results.{Result, ok}
use ai_native_governed_data.Traffic.{
  TrafficLimits, TrafficGuard, subject_key_discrete, prune, retry_after, cleanup,
  cleanup_stale_windows, count_admission, ensure_tracking_capacity, open_windows, take_slot, decide,
  reject, init,
}
use ai_native_governed_data.SharedTraffic.{
  global_concurrency, key_discrete, AdmissionKeys, prune_sets, retry_seconds, record_admission,
  decide_admission, admission_lua, renew_lua, release_lua,
}
use ai_native_governed_data.SharedTraffic.Backend.{
  Delivery, TrafficGuardUnavailable, delivered, reply_lost, parse_admission, parse_renewal,
  admission_args, admission_keys, admit, renew, release, acquire,
}
use ai_native_governed_data.SharedTraffic.Lease.{
  RedisAdmissionLease, started, is_healthy, is_renewed, after_renewal, beat, beats, release_async,
  AllRenewed, beats-AllRenewed, release_async-release_async,
}
use ai_native_governed_data.SharedTraffic.Memory.{
  MemoryStore, put, on, newer, rescore, lowest, without, memory, empty,
}
use ai_native_governed_data.SharedTraffic.Serving.{
  Move, acquires, renews, releases, step, serve, serve-Bounded,
}
use ai_native_governed_data.SharedTraffic.Agrees.{
  code_text, admission_text, parsed_text, CountsAgree, Answered, admission_lua-decide,
  admission_lua-Answered,
}

program : Unit {0}
unfolding string_discrete strip lookup insert pop subject_key_discrete prune retry_after cleanup
    cleanup_stale_windows count_admission ensure_tracking_capacity open_windows take_slot decide
    reject init key_discrete prune_sets retry_seconds record_admission decide_admission
    admission_lua renew_lua release_lua parse_admission parse_renewal admit renew release acquire
    is_healthy is_renewed after_renewal beat beats release_async put on newer rescore lowest without
    step serve code_text
program = tt

abbrev limits : TrafficLimits
limits = record {
  global_concurrency = 2;
  tenant_concurrency = 2;
  subject_rpm = 1;
  tenant_rpm = 4;
  max_tracked_keys = 100;
  window_seconds = 60;
}

abbrev same_text : String → String
same_text s = s

abbrev moves : List Move
moves =
    acquires delivered 100_000 "acme" "alice" "lease-1"
    ∷ acquires reply_lost 100_500 "acme" "bob" "lease-2"
    ∷ acquires delivered 101_000 "acme" "carol" "lease-3"
    ∷ renews delivered 110_000 "acme" "lease-1"
    ∷ releases delivered "acme" "lease-2"
    ∷ []

one_left : memory.zcard global_concurrency (serve memory same_text limits 30_000 moves empty) ≡ 1
unfolding program
one_left = refl

serve-Bounded_example :
    memory.zcard global_concurrency (serve memory same_text limits 30_000 moves empty) ≤ 2
serve-Bounded_example =
    serve-Bounded memory same_text limits 30_000 global_concurrency moves empty (omega arith)

abbrev keys : AdmissionKeys
keys = admission_keys memory same_text "acme" "alice"

abbrev once : MemoryStore
unfolding program
once = (admission_lua memory 100_000 keys (admission_args limits 30_000 "lease-1") empty).0

abbrev local : TrafficGuard
unfolding program
local = take_slot (init limits) "acme" "alice" 7

agree :
    CountsAgree memory keys
      (prune_sets memory 101_000 keys (admission_args limits 30_000 "lease-9") once)
      local
      "acme"
      "alice"
unfolding program
agree = record {
  subject_count = refl;
  tenant_count = refl;
  tenant_leases = refl;
  global_leases = refl;
}

admission_lua-decide_example :
    parsed_text (
      parse_admission
        (admission_lua memory 101_000 keys (admission_args limits 30_000 "lease-9") once).1)
    ≡ admission_text (decide local "acme" "alice" 8).1
unfolding local
admission_lua-decide_example =
    admission_lua-decide memory 101_000 30_000 8 "lease-9" keys once local "acme" "alice" agree

both_limited : admission_text (decide local "acme" "alice" 8).1 ≡ "SUBJECT_RATE_LIMITED"
unfolding program
both_limited = refl

admission_lua-Answered_example : Answered (
    parse_admission
      (admission_lua memory 101_000 keys (admission_args limits 30_000 "lease-9") once).1)
admission_lua-Answered_example =
    admission_lua-Answered memory 101_000 keys (admission_args limits 30_000 "lease-9") once

lost_lease : (renew memory same_text delivered 150_000 "acme" "lease-2" 30_000 once).1 ≡ ok false
unfolding program
lost_lease = refl

abbrev two_beats : List (Delivery × ℕ)
two_beats = (delivered, 110_000) ∷ (reply_lost, 120_000) ∷ []

beats-AllRenewed_example :
    (is_healthy (beats memory same_text 30_000 two_beats (started "acme" "lease-1") once).0 ≡ true)
    ↔ AllRenewed memory same_text 30_000 "acme" "lease-1" two_beats once
beats-AllRenewed_example = beats-AllRenewed memory same_text 30_000 two_beats "acme" "lease-1" once

-- The second renewal's reply was lost, so that the lease is not trusted any more.
unhealthy :
    is_healthy (beats memory same_text 30_000 two_beats (started "acme" "lease-1") once).0 ≡ false
unfolding program once
unhealthy = refl

abbrev good_beats : List (Delivery × ℕ)
good_beats = (delivered, 110_000) ∷ (delivered, 120_000) ∷ []

healthy :
    is_healthy (beats memory same_text 30_000 good_beats (started "acme" "lease-1") once).0 ≡ true
unfolding program once
healthy = refl

abbrev once_released : RedisAdmissionLease × MemoryStore × Result TrafficGuardUnavailable (Unit {0})
once_released = release_async memory same_text 30_000 reply_lost (started "acme" "lease-1") once

release_async-release_async_example :
    release_async memory same_text 30_000 delivered once_released.0 once_released.1
    ≡ (once_released.0, once_released.1, ok tt)
release_async-release_async_example =
    release_async-release_async memory same_text 30_000 reply_lost delivered
      (started "acme" "lease-1") once
