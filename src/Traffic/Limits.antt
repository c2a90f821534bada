-- ===== src/Traffic/Limits.antt =====
-- agent/api/traffic.py: no run of requests and releases passes the rate limits.
use ai_native_governed_data.Prelude.{
  ℕ, ◌≤◌, ◌≡◌, refl, String, true, Option, none, some, List, [], ◌∷◌, arith, length, Bool-cases,
  inl, inr,
}
use ai_native_governed_data.Prelude.Dict.{lookup}
use ai_native_governed_data.Traffic.{
  TrafficLimits, SubjectKey, subject_window, tenant_window, window_ticks, acquire, release_now,
  init, AdmissionLease,
}
use ai_native_governed_data.Traffic.Windows.{Drops, Drops-refl}
use ai_native_governed_data.Traffic.Outcome.{refuses, admits, acquire-Outcome}
use ai_native_governed_data.Traffic.Counters.{release_done, release_held, limits-run-start}
use ai_native_governed_data.Traffic.Counters.Held.{release_now-IsDistinct, set_same}
use ai_native_governed_data.Traffic.Rate.{
  IsLimited, on_quiet, on_admits, recent, recent_old, length-recent-le, Drops-later,
}
use ai_native_governed_data.Traffic.Serving.{
  World, Event, request, release_lease, get_elem?, set, on_answer, on_release, step, run, start,
  InOrder, times_of_subject, times_of_tenant,
}

on_held :
    (w : World) (u : String) (leases : List AdmissionLease)
    → IsLimited w
    → IsLimited (record w { guard = release_now w.guard u; leases = leases })
unfolding release_now
on_held w u leases c = record {
  distinct = release_now-IsDistinct w.guard u c.distinct;
  subjects = c.subjects;
  tenants = c.tenants;
  subject_rpm = c.subject_rpm;
  tenant_rpm = c.tenant_rpm;
}

on_release-IsLimited :
    (w : World) (i : ℕ) (found : Option AdmissionLease)
    → get_elem? w.leases i ≡ found
    → IsLimited w
    → IsLimited (on_release w i found) × ((on_release w i found).clock ≡ w.clock)
unfolding on_release
on_release-IsLimited w i none h c = (c, refl)
on_release-IsLimited w i (some lease) h c = elim (Bool-cases lease.released) [
  | inl done ↦ (rw (release_done w.guard lease done, set_same w.leases i lease h) c, refl)
  | inr unreleased ↦ (
    rw (release_held w.guard lease unreleased)
        (on_held w lease.tenant_id (set w.leases i (record lease { released = true })) c),
    refl,
  )
]

step_request-IsLimited :
    (w : World) (tenant subject : String) (now : ℕ)
    → w.clock ≤ now
    → IsLimited w
    → IsLimited (step w (request tenant subject now))
      × ((step w (request tenant subject now)).clock ≡ now)
unfolding step
step_request-IsLimited w tenant subject now le c =
    let after = (acquire w.guard tenant subject now).0 in
    elim (acquire-Outcome w.guard tenant subject now c.distinct) [
      | refuses r e quiet ↦ (rw (e, on_answer) (on_quiet w after now le quiet c), rw (e, on_answer))
      | admits e a ↦ (rw e (on_admits w tenant subject after now a le c), rw (e, on_answer))
    ]

run_from-IsLimited :
    (events : List Event) (w : World)
    → InOrder w.clock events
    → IsLimited w
    → IsLimited (run w events)
unfolding run step
run_from-IsLimited [] w h c = c
run_from-IsLimited (request tenant subject now ∷ events) w h c =
    let (kept, clock) = step_request-IsLimited w tenant subject now h.0 c in
    run_from-IsLimited events (step w (request tenant subject now)) (rw clock h.1) kept
run_from-IsLimited (release_lease i ∷ events) w h c =
    let (kept, clock) = on_release-IsLimited w i (get_elem? w.leases i) refl c in
    run_from-IsLimited events (step w (release_lease i)) (rw clock h) kept

start-IsLimited : (limits : TrafficLimits) → IsLimited (start limits)
unfolding init lookup
start-IsLimited limits = record {
  distinct = record { subjects = tt; tenants = tt; actives = tt };
  subjects = λ key. Drops-refl (window_ticks limits) 0 [];
  tenants = λ t. Drops-refl (window_ticks limits) 0 [];
  subject_rpm = λ key. omega arith;
  tenant_rpm = λ t. omega arith;
}

pub run-IsLimited :
    (limits : TrafficLimits) (events : List Event)
    → InOrder 0 events
    → IsLimited (run (start limits) events)
run-IsLimited limits events h = run_from-IsLimited events (start limits) h (start-IsLimited limits)

length-recent-Drops-le :
    (span clock now cap : ℕ) (history window : List ℕ)
    → clock ≤ now
    → Drops span clock history window
    → length window ≤ cap
    → length (recent span now history) ≤ cap
length-recent-Drops-le span clock now cap history window le d h =
    let (old, e, stale) = Drops-later span clock now history window le d in
    rw (e, recent_old span now old window stale)
      (omega (arith, length-recent-le span now window, h))

-- At any moment of any run with a clock that does not run backwards, the requests of a subject
-- that were admitted within the last window, and the requests of a tenant that were admitted
-- within it, are no more than the limits that the guard was built with allow.
pub admissions-le_limits :
    (limits : TrafficLimits) (events : List Event) (now : ℕ)
    → InOrder 0 events
    → (run (start limits) events).clock ≤ now
    → ((key : SubjectKey)
        → length (
            recent
              (window_ticks limits)
              now
              (times_of_subject key (run (start limits) events).history))
          ≤ limits.subject_rpm)
      × ((t : String)
          → length (
              recent
                (window_ticks limits)
                now
                (times_of_tenant t (run (start limits) events).history))
            ≤ limits.tenant_rpm)
admissions-le_limits limits events now order later =
    let w = run (start limits) events in
    let c = run-IsLimited limits events order in
    let same = limits-run-start limits events in
    let span = window_ticks limits in
    (
      λ key.
          length-recent-Drops-le span w.clock now limits.subject_rpm
            (times_of_subject key w.history) (subject_window w.guard key) later
            (rw same at (c.subjects key)) (rw same at (c.subject_rpm key)),
      λ t.
          length-recent-Drops-le span w.clock now limits.tenant_rpm (times_of_tenant t w.history)
            (tenant_window w.guard t) later (rw same at (c.tenants t))
            (rw same at (c.tenant_rpm t)),
    )
