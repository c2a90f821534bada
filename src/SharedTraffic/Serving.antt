-- ===== src/SharedTraffic/Serving.antt =====
-- agent/api/redis_traffic.py: a Redis server that any number of workers call, in any order.
use ai_native_governed_data.Prelude.{
  ℕ, ◌≤◌, String, ◌||◌, List, [], ◌∷◌, inl, inr, arith, strip, is_empty, Bool-cases,
}
use ai_native_governed_data.Traffic.{TrafficLimits}
use ai_native_governed_data.SharedTraffic.{
  RedisKey, tenant_concurrency, global_concurrency, Redis, prune_sets, admission_lua, release_lua,
}
use ai_native_governed_data.SharedTraffic.Backend.{
  Delivery, delivered, request_lost, reply_lost, admission_args, admission_keys, admit, renew,
  release, acquire,
}
use ai_native_governed_data.SharedTraffic.Bounded.{
  limit_of, prune_sets-le, decide_admission-Bounded, renew_lua-le,
}

-- A call of a worker, with the server's time, or the server's own dropping of expired keys.
pub data Move : Type 0 where
  acquires : Delivery → ℕ → String → String → String → Move
  renews : Delivery → ℕ → String → String → Move
  releases : Delivery → String → String → Move
  passes : ℕ → Move

module _ (redis : Redis) (digest : String → String) (limits : TrafficLimits) (ttl : ℕ) where
  unfoldable pub step : Move → redis.Store → redis.Store
  step (acquires delivery now tenant subject lease_id) s =
      (acquire redis digest delivery now tenant subject limits ttl lease_id s).0
  step (renews delivery now tenant_id lease_id) s =
      (renew redis digest delivery now tenant_id lease_id ttl s).0
  step (releases delivery tenant_id lease_id) s =
      (release redis digest delivery tenant_id lease_id s).0
  step (passes now) s = redis.drop_expired now s

  unfoldable pub serve : List Move → redis.Store → redis.Store
  serve [] s = s
  serve (move ∷ moves) s = serve moves (step move s)

  module _ (k : RedisKey) where
    admission_lua-Bounded :
        (now : ℕ) (tenant_id subject lease_id : String) (s : redis.Store)
        → redis.zcard k s ≤ limit_of limits k
        → redis.zcard k
            (admission_lua redis now
              (admission_keys redis digest tenant_id subject)
              (admission_args limits ttl lease_id)
              s).0
          ≤ limit_of limits k
    unfolding admission_lua
    admission_lua-Bounded now tenant_id subject lease_id s h =
        let keys = admission_keys redis digest tenant_id subject in
        let args = admission_args limits ttl lease_id in
        decide_admission-Bounded redis limits now ttl lease_id _ _ k
          (prune_sets redis now keys args s)
          (omega (arith, prune_sets-le redis now keys args k s, h))

    admit-Bounded :
        (delivery : Delivery) (now : ℕ) (tenant_id subject lease_id : String) (s : redis.Store)
        → redis.zcard k s ≤ limit_of limits k
        → redis.zcard k (admit redis digest delivery now tenant_id subject limits ttl lease_id s).0
          ≤ limit_of limits k
    unfolding admit
    admit-Bounded request_lost now tenant_id subject lease_id s h = h
    admit-Bounded reply_lost now tenant_id subject lease_id s h =
        admission_lua-Bounded now tenant_id subject lease_id s h
    admit-Bounded delivered now tenant_id subject lease_id s h =
        admission_lua-Bounded now tenant_id subject lease_id s h

    acquire-Bounded :
        (delivery : Delivery) (now : ℕ) (tenant subject lease_id : String) (s : redis.Store)
        → redis.zcard k s ≤ limit_of limits k
        → redis.zcard k (acquire redis digest delivery now tenant subject limits ttl lease_id s).0
          ≤ limit_of limits k
    unfolding acquire
    acquire-Bounded delivery now tenant subject lease_id s h =
        elim (Bool-cases (is_empty (strip tenant) || is_empty (strip subject))) [
          | inl blank ↦ rw blank h
          | inr named ↦
              rw named (admit-Bounded delivery now (strip tenant) (strip subject) lease_id s h)
        ]

    renew-Bounded :
        (delivery : Delivery) (now : ℕ) (tenant_id lease_id : String) (s : redis.Store)
        → redis.zcard k s ≤ limit_of limits k
        → redis.zcard k (renew redis digest delivery now tenant_id lease_id ttl s).0
          ≤ limit_of limits k
    unfolding renew
    renew-Bounded request_lost now tenant_id lease_id s h = h
    renew-Bounded reply_lost now tenant_id lease_id s h = omega (
      arith,
      renew_lua-le redis limits now (tenant_concurrency (digest tenant_id)) global_concurrency ttl
          lease_id k s,
      h,
    )
    renew-Bounded delivered now tenant_id lease_id s h = omega (
      arith,
      renew_lua-le redis limits now (tenant_concurrency (digest tenant_id)) global_concurrency ttl
          lease_id k s,
      h,
    )

    release_lua-Bounded :
        (tk gk : RedisKey) (lease_id : String) (s : redis.Store)
        → redis.zcard k s ≤ limit_of limits k
        → redis.zcard k (release_lua redis tk gk lease_id s) ≤ limit_of limits k
    unfolding release_lua
    release_lua-Bounded tk gk lease_id s h = omega (
      arith,
      redis.zcard-zrem k tk lease_id s,
      redis.zcard-zrem k gk lease_id (redis.zrem tk lease_id s),
      h,
    )

    release-Bounded :
        (delivery : Delivery) (tenant_id lease_id : String) (s : redis.Store)
        → redis.zcard k s ≤ limit_of limits k
        → redis.zcard k (release redis digest delivery tenant_id lease_id s).0 ≤ limit_of limits k
    unfolding release
    release-Bounded request_lost tenant_id lease_id s h = h
    release-Bounded reply_lost tenant_id lease_id s h = release_lua-Bounded _ _ lease_id s h
    release-Bounded delivered tenant_id lease_id s h = release_lua-Bounded _ _ lease_id s h

    step-Bounded :
        (move : Move) (s : redis.Store)
        → redis.zcard k s ≤ limit_of limits k
        → redis.zcard k (step move s) ≤ limit_of limits k
    unfolding step
    step-Bounded (acquires delivery now tenant subject lease_id) s h =
        acquire-Bounded delivery now tenant subject lease_id s h
    step-Bounded (renews delivery now tenant_id lease_id) s h =
        renew-Bounded delivery now tenant_id lease_id s h
    step-Bounded (releases delivery tenant_id lease_id) s h =
        release-Bounded delivery tenant_id lease_id s h
    step-Bounded (passes now) s h = omega (arith, redis.zcard-drop_expired k now s, h)

    -- Whatever the calls of the workers, whichever of them are lost before or after their script
    -- runs, and whenever keys expire: a sorted set that starts within its limit (the rate of a
    -- subject or a tenant, the leases of a tenant or of all) is within it after every sequence.
    pub serve-Bounded :
        (moves : List Move) (s : redis.Store)
        → redis.zcard k s ≤ limit_of limits k
        → redis.zcard k (serve moves s) ≤ limit_of limits k
    unfolding serve
    serve-Bounded [] s h = h
    serve-Bounded (move ∷ moves) s h = serve-Bounded moves (step move s) (step-Bounded move s h)
