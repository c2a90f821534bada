-- ===== src/Traffic/Counters.antt =====
-- agent/api/traffic.py: the concurrency counters count the leases that are held.
pub mod Held
use ai_native_governed_data.Prelude.{
  ℕ, zero, suc, ◌+◌, ◌-◌, ◌≤◌, ◌<◌, ◌≡◌, ◌∙◌, ap, subst, refl, String, true, false, Option, none,
  some, List, [], ◌∷◌, ◌++◌, ite, strip, string_discrete, arith, ◌==◌, Bool-cases, inl, inr,
}
use ai_native_governed_data.Prelude.Dict.{
  lookup, lookup-insert, lookup-pop, insert-IsDict, pop-IsDict, IsDict,
}
use ai_native_governed_data.Traffic.{
  TrafficLimits, TrafficGuard, subject_key_discrete, admitted, active_of, count_or_zero,
  AdmissionLease, acquire, release, release_now, take_slot, init,
}
use ai_native_governed_data.Traffic.Outcome.{
  IsDistinct, IsQuiet, refuses, admits, Admits, acquire-Outcome,
}
use ai_native_governed_data.Traffic.Serving.{
  World, Event, request, release_lease, get_elem?, set, on_answer, on_release, step, run, start,
  held_by, held,
}
use ai_native_governed_data.Traffic.Counters.Held.{
  held_by-append, held-append, held_by-set, held-set, set_same, active_of-take_slot,
  active_of-release_now, global_active-release_now, limits-release_now, release_now-IsDistinct,
  take_slot-IsDistinct,
}

-- The counters agree with the leases, and both limits hold.
pub record IsCounted (w : World) : Type 0 where
  pub distinct : IsDistinct w.guard
  pub by_tenant : (t : String) → active_of w.guard t ≡ held_by t w.leases
  pub in_all : w.guard.global_active ≡ held w.leases
  pub tenant_limit : (t : String) → held_by t w.leases ≤ w.guard.limits.tenant_concurrency
  pub global_limit : held w.leases ≤ w.guard.limits.global_concurrency

-- A request that is refused.
on_quiet :
    (w : World) (guard : TrafficGuard) (now : ℕ)
    → IsQuiet now w.guard guard
    → IsCounted w
    → IsCounted (record w { guard = guard; clock = now })
on_quiet w guard now q c = record {
  distinct = q.distinct c.distinct;
  by_tenant = λ t. rw q.tenant_active (c.by_tenant t);
  in_all = q.global_active ∙ c.in_all;
  tenant_limit = λ t. rw q.limits (c.tenant_limit t);
  global_limit = rw q.limits c.global_limit;
}

module _ (w : World) (tenant subject : String) (guard : TrafficGuard) (now : ℕ)
    (a : Admits w.guard (strip tenant) (strip subject) now guard) where
  pub same_limits : guard.limits ≡ w.guard.limits
  unfolding take_slot
  same_limits = ap (λ (g : TrafficGuard). g.limits) a.taken ∙ a.quiet.limits

  one_more : guard.global_active ≡ w.guard.global_active + 1
  unfolding take_slot
  one_more =
      ap (λ (g : TrafficGuard). g.global_active) a.taken
      ∙ ap (λ (n : ℕ). n + 1) a.quiet.global_active

  one_more_of :
      (t : String)
      → active_of guard t ≡ active_of w.guard t + ite (string_discrete t (strip tenant)) 1 0
  one_more_of t = rw a.taken (
      active_of-take_slot a.ready t (strip tenant) (strip subject) now
      ∙ ap
          (λ d.
            count_or_zero (lookup string_discrete t d) + ite (string_discrete t (strip tenant)) 1 0)
          a.quiet.tenant_active)

  slot_free : active_of w.guard (strip tenant) < w.guard.limits.tenant_concurrency
  slot_free =
      subst (λ d. d < w.guard.limits.tenant_concurrency)
        (ap (λ d. count_or_zero (lookup string_discrete (strip tenant) d)) a.quiet.tenant_active)
        (subst (λ (l : TrafficLimits). active_of a.ready (strip tenant) < l.tenant_concurrency)
          a.quiet.limits a.tenant_slot)

  room_free : w.guard.global_active < w.guard.limits.global_concurrency
  room_free = ground (arith, a.quiet.limits, a.quiet.global_active, a.global_slot)

  -- A request that is admitted.
  on_admits :
      IsCounted w → IsCounted (on_answer w tenant subject now guard (admitted (strip tenant)))
  unfolding on_answer
  on_admits c = record {
    distinct = rw a.taken (
        take_slot-IsDistinct a.ready (strip tenant) (strip subject) now
          (a.quiet.distinct c.distinct));
    by_tenant =
        λ t. omega (arith, one_more_of t, held_by-append t (strip tenant) w.leases, c.by_tenant t);
    in_all = omega (arith, one_more, held-append (strip tenant) w.leases, c.in_all);
    tenant_limit = λ t. rw same_limits (
        ground (
          arith,
          held_by-append t (strip tenant) w.leases,
          c.by_tenant t,
          c.by_tenant (strip tenant),
          c.tenant_limit t,
          slot_free,
        ));
    global_limit =
        rw same_limits (omega (arith, held-append (strip tenant) w.leases, c.in_all, room_free));
  }

-- A held lease is given back.
on_held :
    (w : World) (i : ℕ) (lease : AdmissionLease)
    → get_elem? w.leases i ≡ some lease
    → lease.released ≡ false
    → IsCounted w
    → IsCounted (record w {
      guard = release_now w.guard lease.tenant_id;
      leases = set w.leases i (record lease { released = true });
    })
on_held w i lease found unreleased c =
    let u = lease.tenant_id in
    record {
      distinct = release_now-IsDistinct w.guard u c.distinct;
      by_tenant = λ t. omega (
        arith,
        active_of-release_now w.guard t u c.distinct.actives,
        held_by-set t w.leases i lease found unreleased,
        c.by_tenant t,
      );
      in_all = omega (
        arith,
        global_active-release_now w.guard u,
        held-set w.leases i lease found unreleased,
        c.in_all,
      );
      tenant_limit = λ t.
          rw limits-release_now
            (omega (arith, held_by-set t w.leases i lease found unreleased, c.tenant_limit t));
      global_limit =
          rw limits-release_now
            (omega (arith, held-set w.leases i lease found unreleased, c.global_limit));
    }

pub release_done :
    (guard : TrafficGuard) (lease : AdmissionLease)
    → lease.released ≡ true
    → release guard lease ≡ (guard, lease)
unfolding release
release_done guard lease h = ground arith

pub release_held :
    (guard : TrafficGuard) (lease : AdmissionLease)
    → lease.released ≡ false
    → release guard lease ≡ (release_now guard lease.tenant_id, record lease { released = true })
unfolding release
release_held guard lease h = ground arith

on_release-IsCounted :
    (w : World) (i : ℕ) (found : Option AdmissionLease)
    → get_elem? w.leases i ≡ found
    → IsCounted w
    → IsCounted (on_release w i found)
unfolding on_release
on_release-IsCounted w i none h c = c
on_release-IsCounted w i (some lease) h c = elim (Bool-cases lease.released) [
  | inl done ↦ rw (release_done w.guard lease done, set_same w.leases i lease h) c
  | inr unreleased ↦ rw (release_held w.guard lease unreleased) (on_held w i lease h unreleased c)
]

limits-on_release :
    (w : World) (i : ℕ) (found : Option AdmissionLease)
    → (on_release w i found).guard.limits ≡ w.guard.limits
unfolding on_release release release_now
limits-on_release w i none = refl
limits-on_release w i (some lease) = ground arith

step-IsCounted : (w : World) (e : Event) → IsCounted w → IsCounted (step w e)
unfolding step
step-IsCounted w (request tenant subject now) c =
    let after = (acquire w.guard tenant subject now).0 in
    elim (acquire-Outcome w.guard tenant subject now c.distinct) [
      | refuses r e quiet ↦ rw (e, on_answer) (on_quiet w after now quiet c)
      | admits e a ↦ rw e (on_admits w tenant subject after now a c)
    ]
step-IsCounted w (release_lease i) c = on_release-IsCounted w i (get_elem? w.leases i) refl c

start-IsCounted : (limits : TrafficLimits) → IsCounted (start limits)
unfolding init lookup
start-IsCounted limits = record {
  distinct = record { subjects = tt; tenants = tt; actives = tt };
  by_tenant = λ t. refl;
  in_all = refl;
  tenant_limit = λ t. omega arith;
  global_limit = omega arith;
}

run_from-IsCounted : (events : List Event) (w : World) → IsCounted w → IsCounted (run w events)
unfolding run
run_from-IsCounted [] w c = c
run_from-IsCounted (e ∷ events) w c = run_from-IsCounted events (step w e) (step-IsCounted w e c)

limits-step : (w : World) (e : Event) → IsCounted w → (step w e).guard.limits ≡ w.guard.limits
unfolding step
limits-step w (request tenant subject now) c =
    let after = (acquire w.guard tenant subject now).0 in
    elim (acquire-Outcome w.guard tenant subject now c.distinct) [
      | refuses r e quiet ↦ rw (e, on_answer) quiet.limits
      | admits e a ↦ rw (e, on_answer) (same_limits w tenant subject after now a)
    ]
limits-step w (release_lease i) c = limits-on_release w i (get_elem? w.leases i)

limits-run :
    (events : List Event) (w : World) → IsCounted w → (run w events).guard.limits ≡ w.guard.limits
unfolding run
limits-run [] w c = refl
limits-run (e ∷ events) w c =
    limits-run events (step w e) (step-IsCounted w e c) ∙ limits-step w e c

-- The guard keeps the limits that it was built with.
pub limits-run-start :
    (limits : TrafficLimits) (events : List Event)
    → (run (start limits) events).guard.limits ≡ limits
unfolding init
limits-run-start limits events = limits-run events (start limits) (start-IsCounted limits)

-- Whatever requests arrive and whatever leases are released, in any order and however often, the
-- guard's counters are the numbers of leases held, in all and by each tenant, and the numbers of
-- leases held never pass the two concurrency limits that the guard was built with.
pub run-counters :
    (limits : TrafficLimits) (events : List Event)
    → ((run (start limits) events).guard.global_active ≡ held (run (start limits) events).leases)
      × ((t : String)
          → active_of (run (start limits) events).guard t
            ≡ held_by t (run (start limits) events).leases)
      × (held (run (start limits) events).leases ≤ limits.global_concurrency)
      × ((t : String) → held_by t (run (start limits) events).leases ≤ limits.tenant_concurrency)
run-counters limits events =
    let c = run_from-IsCounted events (start limits) (start-IsCounted limits) in
    let same = limits-run-start limits events in
    (c.in_all, c.by_tenant, rw same at c.global_limit, λ t. rw same at (c.tenant_limit t))
