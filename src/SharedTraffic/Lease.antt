-- ===== src/SharedTraffic/Lease.antt =====
-- agent/api/redis_traffic.py: RedisAdmissionLease, its heartbeat and its release. `beating` says that
-- the heartbeat task runs. A cancelled task beats no more.
use ai_native_governed_data.Prelude.{
  ℕ, String, Bool, true, false, not, ◌&&◌, List, [], ◌∷◌, ◌≡◌, refl, ap, sym, subst, ◌∙◌, ◌↔◌,
  if◌then◌else◌, arith,
}
use ai_native_governed_data.Prelude.Results.{Result, ok, err}
use ai_native_governed_data.SharedTraffic.{Redis}
use ai_native_governed_data.SharedTraffic.Backend.{
  Delivery, TrafficGuardUnavailable, renew, release,
}

pub record RedisAdmissionLease : Type 0 where
  pub tenant_id : String
  pub lease_id : String
  pub released : Bool
  pub healthy : Bool
  pub beating : Bool

-- A lease as `acquire` returns it, its heartbeat started.
abbrev pub started : String → String → RedisAdmissionLease
started tenant_id lease_id = record {
  tenant_id = tenant_id;
  lease_id = lease_id;
  released = false;
  healthy = true;
  beating = true;
}

-- The property `healthy`.
unfoldable pub is_healthy : RedisAdmissionLease → Bool
is_healthy lease = lease.healthy && not lease.released

-- A renewal's answer: `renewed`, or a lost lease, or an exception.
unfoldable pub is_renewed : Result TrafficGuardUnavailable Bool → Bool
is_renewed (ok answer) = answer
is_renewed (err failure) = false

-- What the heartbeat does with the answer.
unfoldable pub after_renewal :
    Result TrafficGuardUnavailable Bool → RedisAdmissionLease → RedisAdmissionLease
after_renewal answer lease =
    if is_renewed answer then lease else record lease { healthy = false; beating = false }

module _ (redis : Redis) (digest : String → String) (ttl : ℕ) where
  -- One turn of the loop of `_heartbeat`, after its sleep: the server is called only by a running
  -- task of a lease that is not released.
  unfoldable pub beat :
      Delivery → ℕ → RedisAdmissionLease → redis.Store → RedisAdmissionLease × redis.Store
  beat delivery now lease s =
      let answer = renew redis digest delivery now lease.tenant_id lease.lease_id ttl s in
      if not lease.beating
      then (lease, s)
      else if lease.released
      then (record lease { beating = false }, s)
      else (after_renewal answer.1 lease, answer.0)

  unfoldable pub beats :
      List (Delivery × ℕ) → RedisAdmissionLease → redis.Store → RedisAdmissionLease × redis.Store
  beats [] lease s = (lease, s)
  beats ((how, now) ∷ rest) lease s = let turn = beat how now lease s in beats rest turn.0 turn.1

  -- `release_async`; a failure of the server's call is raised after the lease is marked.
  unfoldable pub release_async :
      Delivery
      → RedisAdmissionLease
      → redis.Store
      → RedisAdmissionLease × redis.Store × Result TrafficGuardUnavailable (Unit {0})
  release_async delivery lease s =
      let answer = release redis digest delivery lease.tenant_id lease.lease_id s in
      if lease.released
      then (lease, s, ok tt)
      else (record lease { released = true; beating = false }, answer.0, answer.1)

  -- Every turn's renewal, on the store that the one before it left, is answered and the answer is
  -- that the lease was there and is renewed.
  pub data AllRenewed (tenant_id lease_id : String)
      : List (Delivery × ℕ) → redis.Store → Type 0 where
    none_due : {s : redis.Store} → AllRenewed tenant_id lease_id [] s
    renewed :
        {how : Delivery} {now : ℕ} {rest : List (Delivery × ℕ)} {s next : redis.Store}
        → renew redis digest how now tenant_id lease_id ttl s ≡ (next, ok true)
        → AllRenewed tenant_id lease_id rest next
        → AllRenewed tenant_id lease_id ((how, now) ∷ rest) s

  beat-stopped :
      (how : Delivery) (now : ℕ) (lease : RedisAdmissionLease) (s : redis.Store)
      → lease.beating ≡ false
      → beat how now lease s ≡ (lease, s)
  unfolding beat
  beat-stopped how now lease s h = ground (arith, h)

  beats-stopped :
      (turns : List (Delivery × ℕ)) (lease : RedisAdmissionLease) (s : redis.Store)
      → lease.beating ≡ false
      → beats turns lease s ≡ (lease, s)
  unfolding beats
  beats-stopped [] lease s h = refl
  beats-stopped ((how, now) ∷ turns) lease s h =
      subst (λ turn. beats turns turn.0 turn.1 ≡ (lease, s)) (sym (beat-stopped how now lease s h))
        (beats-stopped turns lease s h)

  abbrev lost : RedisAdmissionLease → RedisAdmissionLease
  lost lease = record lease { healthy = false; beating = false }

  beats-lost :
      (turns : List (Delivery × ℕ)) (lease : RedisAdmissionLease) (s : redis.Store)
      → is_healthy (beats turns (lost lease) s).0 ≡ false
  unfolding is_healthy
  beats-lost turns lease s =
      ap (λ (r : RedisAdmissionLease × redis.Store). r.0.healthy && not r.0.released)
        (beats-stopped turns (lost lease) s refl)

  -- A first turn goes on with the same lease if its renewal said so, and else the lease is lost.
  beats-renewed :
      (how : Delivery) (now : ℕ) (turns : List (Delivery × ℕ)) (tenant_id lease_id : String)
      (s next : redis.Store)
      → renew redis digest how now tenant_id lease_id ttl s ≡ (next, ok true)
      → beats ((how, now) ∷ turns) (started tenant_id lease_id) s
        ≡ beats turns (started tenant_id lease_id) next
  unfolding beats beat after_renewal is_renewed
  beats-renewed how now turns tenant_id lease_id s next h = rw h refl

  beats-not_renewed :
      (how : Delivery) (now : ℕ) (turns : List (Delivery × ℕ)) (tenant_id lease_id : String)
      (s next : redis.Store) (answer : Result TrafficGuardUnavailable Bool)
      → renew redis digest how now tenant_id lease_id ttl s ≡ (next, answer)
      → is_renewed answer ≡ false
      → beats ((how, now) ∷ turns) (started tenant_id lease_id) s
        ≡ beats turns (lost (started tenant_id lease_id)) next
  unfolding beats beat after_renewal
  beats-not_renewed how now turns tenant_id lease_id s next answer h failed = rw (h, failed) refl

  abbrev healthy_after : List (Delivery × ℕ) → RedisAdmissionLease → redis.Store → Bool
  healthy_after turns lease s = is_healthy (beats turns lease s).0

  healthy-AllRenewed :
      (turns : List (Delivery × ℕ)) (tenant_id lease_id : String) (s : redis.Store)
      → is_healthy (beats turns (started tenant_id lease_id) s).0 ≡ true
      → AllRenewed tenant_id lease_id turns s
  unfolding is_renewed
  healthy-AllRenewed [] tenant_id lease_id s h = none_due
  healthy-AllRenewed ((how, now) ∷ turns) tenant_id lease_id s h =
      first_turn (renew redis digest how now tenant_id lease_id ttl s) refl
        (healthy-AllRenewed turns tenant_id lease_id)
    where
      lost_after :
          (next : redis.Store) (answer : Result TrafficGuardUnavailable Bool)
          → renew redis digest how now tenant_id lease_id ttl s ≡ (next, answer)
          → is_renewed answer ≡ false
          → AllRenewed tenant_id lease_id ((how, now) ∷ turns) s
      lost_after next answer e failed =
          let p = beats-not_renewed how now turns tenant_id lease_id s next answer e failed in
          let q = beats-lost turns (started tenant_id lease_id) next in
          let r : healthy_after ((how, now) ∷ turns) (started tenant_id lease_id) s ≡ false =
            ap (λ (r : RedisAdmissionLease × redis.Store). is_healthy r.0) p ∙ q in
          cc

      first_turn :
          (answer : redis.Store × Result TrafficGuardUnavailable Bool)
          → renew redis digest how now tenant_id lease_id ttl s ≡ answer
          → ((next : redis.Store)
              → healthy_after turns (started tenant_id lease_id) next ≡ true
              → AllRenewed tenant_id lease_id turns next)
          → AllRenewed tenant_id lease_id ((how, now) ∷ turns) s
      first_turn (next, ok true) e ih =
          let p = beats-renewed how now turns tenant_id lease_id s next e in
          renewed e
            (ih next (sym (ap (λ (r : RedisAdmissionLease × redis.Store). is_healthy r.0) p) ∙ h))
      first_turn (next, ok false) e ih = lost_after next (ok false) e refl
      first_turn (next, err failure) e ih = lost_after next (err failure) e refl

  AllRenewed-healthy :
      (turns : List (Delivery × ℕ)) (tenant_id lease_id : String) (s : redis.Store)
      → AllRenewed tenant_id lease_id turns s
      → is_healthy (beats turns (started tenant_id lease_id) s).0 ≡ true
  unfolding is_healthy beats
  AllRenewed-healthy [] tenant_id lease_id s none_due = refl
  AllRenewed-healthy ((how, now) ∷ turns) tenant_id lease_id s (renewed {next = next} e rest) =
      ap (λ (r : RedisAdmissionLease × redis.Store). is_healthy r.0)
        (beats-renewed how now turns tenant_id lease_id s next e)
      ∙ AllRenewed-healthy turns tenant_id lease_id next rest

  -- A lease that was started and not released is healthy after any turns of its heartbeat exactly
  -- where every one of its renewals, each on the store of the one before, was answered and found the
  -- lease: a lost lease or a failed call is never forgotten.
  pub beats-AllRenewed :
      (turns : List (Delivery × ℕ)) (tenant_id lease_id : String) (s : redis.Store)
      → (is_healthy (beats turns (started tenant_id lease_id) s).0 ≡ true)
        ↔ AllRenewed tenant_id lease_id turns s
  beats-AllRenewed turns tenant_id lease_id s =
      (healthy-AllRenewed turns tenant_id lease_id s, AllRenewed-healthy turns tenant_id lease_id s)

  release_async-marks :
      (how : Delivery) (lease : RedisAdmissionLease) (s : redis.Store)
      → (release_async how lease s).0.released ≡ true
  unfolding release_async
  release_async-marks how lease s = ground arith

  release_async-marked :
      (how : Delivery) (lease : RedisAdmissionLease) (s : redis.Store)
      → lease.released ≡ true
      → release_async how lease s ≡ (lease, s, ok tt)
  unfolding release_async
  release_async-marked how lease s h = ground (arith, h)

  -- Releasing a lease again calls the server no more: whatever the first call came to, the second
  -- leaves the lease and the store as they are and raises nothing.
  pub release_async-release_async :
      (first second : Delivery) (lease : RedisAdmissionLease) (s : redis.Store)
      → release_async second (release_async first lease s).0 (release_async first lease s).1
        ≡ ((release_async first lease s).0, (release_async first lease s).1, ok tt)
  release_async-release_async first second lease s =
      release_async-marked second _ _ (release_async-marks first lease s)
