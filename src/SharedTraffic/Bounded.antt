-- ===== src/SharedTraffic/Bounded.antt =====
-- The sorted sets of the shared guard stay within the limits, whatever is lost on the way.
use ai_native_governed_data.Prelude.{
  ℕ, ◌+◌, ◌-◌, ◌*◌, ◌≤◌, ◌<◌, String, subst, inl, inr, leb, leb→lt, arith, Bool-cases, Option-cases,
}
use ai_native_governed_data.Traffic.{TrafficLimits}
use ai_native_governed_data.SharedTraffic.{
  RedisKey, subject_rate, tenant_rate, tenant_concurrency, global_concurrency, Redis, AdmissionKeys,
  AdmissionArgs, prune_sets, record_admission, decide_admission, key_discrete, renew_lua,
}
use ai_native_governed_data.SharedTraffic.Backend.{admission_args}

-- The limit on the set of a key.
abbrev pub limit_of : TrafficLimits → RedisKey → ℕ
limit_of limits (subject_rate _) = limits.subject_rpm
limit_of limits (tenant_rate _) = limits.tenant_rpm
limit_of limits (tenant_concurrency _) = limits.tenant_concurrency
limit_of limits global_concurrency = limits.global_concurrency

abbrev pub keys_of : String → String → AdmissionKeys
keys_of sd td = record {
  subject_rate_key = subject_rate sd;
  tenant_rate_key = tenant_rate td;
  tenant_key = tenant_concurrency td;
  global_key = global_concurrency;
}

module _ (redis : Redis) where
  pub prune_sets-le :
      (now : ℕ) (keys : AdmissionKeys) (args : AdmissionArgs) (k : RedisKey) (s : redis.Store)
      → redis.zcard k (prune_sets redis now keys args s) ≤ redis.zcard k s
  unfolding prune_sets
  prune_sets-le now keys args k s =
      let cutoff = now - args.window_ms in
      let a = redis.zremrangebyscore keys.subject_rate_key cutoff s in
      let b = redis.zremrangebyscore keys.tenant_rate_key cutoff a in
      let c = redis.zremrangebyscore keys.tenant_key now b in
      omega (
        arith,
        redis.zcard-zremrangebyscore k keys.subject_rate_key cutoff s,
        redis.zcard-zremrangebyscore k keys.tenant_rate_key cutoff a,
        redis.zcard-zremrangebyscore k keys.tenant_key now b,
        redis.zcard-zremrangebyscore k keys.global_key now c,
      )

  module _ (limits : TrafficLimits) where
    -- An addition to a set with room keeps every set within its limit.
    zadd-Bounded :
        (j k : RedisKey) (score : ℕ) (member : String) (s : redis.Store)
        → redis.zcard k s ≤ limit_of limits k
        → redis.zcard j s < limit_of limits j
        → redis.zcard k (redis.zadd j score member s) ≤ limit_of limits k
    zadd-Bounded j k score member s h room = elim (key_discrete j k) [
      | no apart ↦ omega (arith, redis.zcard-zadd_other k j score member s apart, h)
      | yes same ↦
          subst (λ x. redis.zcard x (redis.zadd j score member s) ≤ limit_of limits x) same
            (omega (arith, redis.zcard-zadd j score member s, room))
    ]

    record_admission-Bounded :
        (now ttl : ℕ) (lease_id sd td : String) (k : RedisKey) (s : redis.Store)
        → redis.zcard k s ≤ limit_of limits k
        → redis.zcard (subject_rate sd) s < limits.subject_rpm
        → redis.zcard (tenant_rate td) s < limits.tenant_rpm
        → redis.zcard (tenant_concurrency td) s < limits.tenant_concurrency
        → redis.zcard global_concurrency s < limits.global_concurrency
        → redis.zcard k
            (record_admission redis now (keys_of sd td) (admission_args limits ttl lease_id) s)
          ≤ limit_of limits k
    unfolding record_admission
    record_admission-Bounded now ttl lease_id sd td k s h room1 room2 room3 room4 =
        let sr = subject_rate sd in
        let tr = tenant_rate td in
        let tc = tenant_concurrency td in
        let gc = global_concurrency in
        let expiry = now + ttl in
        let window = limits.window_seconds * 1000 + 1000 in
        let s1 = redis.zadd sr now lease_id s in
        let s2 = redis.zadd tr now lease_id s1 in
        let s3 = redis.pexpire sr window s2 in
        let s4 = redis.pexpire tr window s3 in
        let s5 = redis.zadd tc expiry lease_id s4 in
        let s6 = redis.zadd gc expiry lease_id s5 in
        let s7 = redis.pexpire tc (ttl * 2) s6 in
        let h1 = zadd-Bounded sr k now lease_id s h room1 in
        let h2 =
          zadd-Bounded tr k now lease_id s1 h1
            (omega (arith, redis.zcard-zadd_other tr sr now lease_id s (λ p. cc p), room2)) in
        let h4 : redis.zcard k s4 ≤ limit_of limits k =
          omega
            (arith, redis.zcard-pexpire k sr window s2, redis.zcard-pexpire k tr window s3, h2) in
        let h5 = zadd-Bounded tc k expiry lease_id s4 h4 (
          omega (
            arith,
            redis.zcard-zadd_other tc sr now lease_id s (λ p. cc p),
            redis.zcard-zadd_other tc tr now lease_id s1 (λ p. cc p),
            redis.zcard-pexpire tc sr window s2,
            redis.zcard-pexpire tc tr window s3,
            room3,
          )) in
        let h6 = zadd-Bounded gc k expiry lease_id s5 h5 (
          omega (
            arith,
            redis.zcard-zadd_other gc sr now lease_id s (λ p. cc p),
            redis.zcard-zadd_other gc tr now lease_id s1 (λ p. cc p),
            redis.zcard-pexpire gc sr window s2,
            redis.zcard-pexpire gc tr window s3,
            redis.zcard-zadd_other gc tc expiry lease_id s4 (λ p. cc p),
            room4,
          )) in
        omega
          (arith, redis.zcard-pexpire k tc (ttl * 2) s6, redis.zcard-pexpire k gc (ttl * 2) s7, h6)

    pub decide_admission-Bounded :
        (now ttl : ℕ) (lease_id sd td : String) (k : RedisKey) (s : redis.Store)
        → redis.zcard k s ≤ limit_of limits k
        → redis.zcard k
            (decide_admission redis now (keys_of sd td) (admission_args limits ttl lease_id) s).0
          ≤ limit_of limits k
    unfolding decide_admission
    decide_admission-Bounded now ttl lease_id sd td k s h =
        elim (Bool-cases (leb limits.subject_rpm (redis.zcard (subject_rate sd) s))) [
          | inl full ↦ rw full h
          | inr room1 ↦ elim (Bool-cases (leb limits.tenant_rpm (redis.zcard (tenant_rate td) s))) [
            | inl full ↦ rw (room1, full) h
            | inr room2 ↦
                elim (Bool-cases
                  (leb limits.tenant_concurrency (redis.zcard (tenant_concurrency td) s))) [
                    | inl full ↦ rw (room1, room2, full) h
                    | inr room3 ↦
                        elim (Bool-cases
                          (leb limits.global_concurrency (redis.zcard global_concurrency s))) [
                            | inl full ↦ rw (room1, room2, room3, full) h
                            | inr room4 ↦
                                rw (room1, room2, room3, room4)
                                  (record_admission-Bounded now ttl lease_id sd td k s h
                                    (leb→lt _ _ room1) (leb→lt _ _ room2) (leb→lt _ _ room3)
                                    (leb→lt _ _ room4))
                          ]
                  ]
          ]
        ]

    pub renew_lua-le :
        (now : ℕ) (tk gk : RedisKey) (ttl : ℕ) (lease_id : String) (k : RedisKey) (s : redis.Store)
        → redis.zcard k (renew_lua redis now tk gk ttl lease_id s).0 ≤ redis.zcard k s
    unfolding renew_lua
    renew_lua-le now tk gk ttl lease_id k s =
        let expiry = now + ttl in
        let s1 = redis.zadd_existing tk expiry lease_id s in
        let s2 = redis.zadd_existing gk expiry lease_id s1 in
        let s3 = redis.pexpire tk (ttl * 2) s2 in
        let renewed : redis.zcard k (redis.pexpire gk (ttl * 2) s3) ≤ redis.zcard k s = omega (
          arith,
          redis.zcard-zadd_existing k tk expiry lease_id s,
          redis.zcard-zadd_existing k gk expiry lease_id s1,
          redis.zcard-pexpire k tk (ttl * 2) s2,
          redis.zcard-pexpire k gk (ttl * 2) s3,
        ) in
        elim (Option-cases (redis.zscore tk lease_id s)) [
          | inl gone ↦ rw (gone, renew_lua) (omega arith)
          | inr (a, there) ↦ elim (Option-cases (redis.zscore gk lease_id s)) [
            | inl gone ↦ rw (there, gone, renew_lua) (omega arith)
            | inr (b, both) ↦ rw (there, both, renew_lua) renewed
          ]
        ]
