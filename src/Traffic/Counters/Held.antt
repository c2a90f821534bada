-- ===== src/Traffic/Counters/Held.antt =====
-- agent/api/traffic.py: the leases held and the guard's counters, at a release and at an admission.
use ai_native_governed_data.Prelude.{
  ℕ, zero, suc, ◌+◌, ◌-◌, ◌≡◌, refl, String, true, false, some, List, [], ◌∷◌, ◌++◌, ite,
  string_discrete, arith, ◌==◌, Bool-cases, inl, inr,
}
use ai_native_governed_data.Prelude.Dict.{
  lookup-insert, lookup-pop, insert-IsDict, pop-IsDict, IsDict,
}
use ai_native_governed_data.Traffic.{
  TrafficGuard, subject_key_discrete, active_of, AdmissionLease, release_now, take_slot,
}
use ai_native_governed_data.Traffic.Outcome.{IsDistinct}
use ai_native_governed_data.Traffic.Serving.{get_elem?, set, held_by, held}

abbrev fresh : String → AdmissionLease
fresh t = record { tenant_id = t; released = false }

pub held_by-append :
    (t u : String) (leases : List AdmissionLease)
    → held_by t (leases ++ fresh u ∷ []) ≡ held_by t leases + ite (string_discrete t u) 1 0
held_by-append t u [] = ground arith
held_by-append t u (lease ∷ leases) = ground (arith, held_by-append t u leases)

pub held-append :
    (u : String) (leases : List AdmissionLease) → held (leases ++ fresh u ∷ []) ≡ held leases + 1
held-append u [] = omega arith
held-append u (lease ∷ leases) = ground (arith, held-append u leases)

-- Releasing the lease at `i`, which is held.
pub held_by-set :
    (t : String) (leases : List AdmissionLease) (i : ℕ) (lease : AdmissionLease)
    → get_elem? leases i ≡ some lease
    → lease.released ≡ false
    → held_by t (set leases i (record lease { released = true }))
        + ite (string_discrete t lease.tenant_id) 1 0
      ≡ held_by t leases
held_by-set t [] i lease h r = cc
held_by-set t (x ∷ leases) zero lease h r = ground arith
held_by-set t (x ∷ leases) (suc i) lease h r = ground (arith, held_by-set t leases i lease h r)

pub held-set :
    (leases : List AdmissionLease) (i : ℕ) (lease : AdmissionLease)
    → get_elem? leases i ≡ some lease
    → lease.released ≡ false
    → held (set leases i (record lease { released = true })) + 1 ≡ held leases
held-set [] i lease h r = cc
held-set (x ∷ leases) zero lease h r = ground arith
held-set (x ∷ leases) (suc i) lease h r = ground (arith, held-set leases i lease h r)

pub set_same :
    (leases : List AdmissionLease) (i : ℕ) (lease : AdmissionLease)
    → get_elem? leases i ≡ some lease
    → set leases i lease ≡ leases
set_same [] i lease h = refl
set_same (x ∷ leases) zero lease h = cc
set_same (x ∷ leases) (suc i) lease h = cc (set_same leases i lease h)

pub active_of-take_slot :
    (guard : TrafficGuard) (t u subject : String) (now : ℕ)
    → active_of (take_slot guard u subject now) t
      ≡ active_of guard t + ite (string_discrete t u) 1 0
unfolding take_slot
active_of-take_slot guard t u subject now =
    rw (lookup-insert string_discrete t u (active_of guard u + 1) guard.tenant_active)
      (elim (string_discrete t u) [ yes p ↦ ground arith | no n ↦ ground arith ])

pub active_of-release_now :
    (guard : TrafficGuard) (t u : String)
    → IsDict string_discrete guard.tenant_active
    → active_of (release_now guard u) t ≡ active_of guard t - ite (string_discrete t u) 1 0
unfolding release_now
active_of-release_now guard t u d =
    let active = active_of guard u - 1 in
    ground (
      arith,
      lookup-insert string_discrete t u active guard.tenant_active,
      lookup-pop string_discrete t u guard.tenant_active d,
    )

pub global_active-release_now :
    (guard : TrafficGuard) (u : String)
    → (release_now guard u).global_active ≡ guard.global_active - 1
unfolding release_now
global_active-release_now guard u = refl

pub limits-release_now :
    (guard : TrafficGuard) (u : String) → (release_now guard u).limits ≡ guard.limits
unfolding release_now
limits-release_now guard u = refl

pub release_now-IsDistinct :
    (guard : TrafficGuard) (u : String) → IsDistinct guard → IsDistinct (release_now guard u)
unfolding release_now
release_now-IsDistinct guard u d = record {
  subjects = d.subjects;
  tenants = d.tenants;
  actives = elim (Bool-cases (active_of guard u - 1 == 0)) [
    | inl e ↦ rw e (pop-IsDict string_discrete u guard.tenant_active d.actives)
    | inr e ↦
        rw e (insert-IsDict string_discrete u (active_of guard u - 1) guard.tenant_active d.actives)
  ];
}

pub take_slot-IsDistinct :
    (guard : TrafficGuard) (u subject : String) (now : ℕ)
    → IsDistinct guard
    → IsDistinct (take_slot guard u subject now)
unfolding take_slot
take_slot-IsDistinct guard u subject now d = record {
  subjects = insert-IsDict subject_key_discrete (u, subject) _ guard.subject_windows d.subjects;
  tenants = insert-IsDict string_discrete u _ guard.tenant_windows d.tenants;
  actives = insert-IsDict string_discrete u _ guard.tenant_active d.actives;
}
