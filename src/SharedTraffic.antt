-- ===== src/SharedTraffic.antt =====
-- agent/api/redis_traffic.py: the traffic guard whose counts are sorted sets of a Redis server. The
-- server is a parameter, `Redis`, with the documented laws of its commands that the limits rest on;
-- a Lua script is one function from store to store, since the server runs it as one step.
pub mod Backend
pub mod Bounded
pub mod Serving
pub mod Lease
pub mod Agrees
mod Memory
mod Tests
use ai_native_governed_data.Prelude.{
  ℕ, ◌+◌, ◌-◌, ◌*◌, ◌/◌, ◌≤◌, max, String, Option, none, some, List, [], ◌∷◌, ◌≡◌, ◌≢◌, refl, ap,
  string_discrete, leb, if◌then◌else◌,
}

-- The four forms of a key, each with the digest that its text ends in. They differ after the
-- namespace and the hash tag, which all keys of a guard share.
pub data RedisKey : Type 0 where
  subject_rate : String → RedisKey
  tenant_rate : String → RedisKey
  tenant_concurrency : String → RedisKey
  global_concurrency : RedisKey

unfoldable pub key_discrete : Discrete RedisKey
key_discrete (subject_rate d) (subject_rate e) = elim (string_discrete d e) [
  | yes p ↦ yes (ap subject_rate p)
  | no n ↦ no (λ q. n (cc q))
]
key_discrete (tenant_rate d) (tenant_rate e) = elim (string_discrete d e) [
  | yes p ↦ yes (ap tenant_rate p)
  | no n ↦ no (λ q. n (cc q))
]
key_discrete (tenant_concurrency d) (tenant_concurrency e) = elim (string_discrete d e) [
  | yes p ↦ yes (ap tenant_concurrency p)
  | no n ↦ no (λ q. n (cc q))
]
key_discrete global_concurrency global_concurrency = yes refl
key_discrete (subject_rate _) (tenant_rate _) = no (λ q. cc q)
key_discrete (subject_rate _) (tenant_concurrency _) = no (λ q. cc q)
key_discrete (subject_rate _) global_concurrency = no (λ q. cc q)
key_discrete (tenant_rate _) (subject_rate _) = no (λ q. cc q)
key_discrete (tenant_rate _) (tenant_concurrency _) = no (λ q. cc q)
key_discrete (tenant_rate _) global_concurrency = no (λ q. cc q)
key_discrete (tenant_concurrency _) (subject_rate _) = no (λ q. cc q)
key_discrete (tenant_concurrency _) (tenant_rate _) = no (λ q. cc q)
key_discrete (tenant_concurrency _) global_concurrency = no (λ q. cc q)
key_discrete global_concurrency (subject_rate _) = no (λ q. cc q)
key_discrete global_concurrency (tenant_rate _) = no (λ q. cc q)
key_discrete global_concurrency (tenant_concurrency _) = no (λ q. cc q)

-- The commands that the scripts call, and what they do to the size of a sorted set.
pub record Redis : Type 1 where
  pub Store : Type 0
  pub zcard : RedisKey → Store → ℕ
  pub zscore : RedisKey → String → Store → Option ℕ
  pub oldest_score : RedisKey → Store → Option ℕ
  pub zremrangebyscore : RedisKey → ℕ → Store → Store
  pub zadd : RedisKey → ℕ → String → Store → Store
  pub zadd_existing : RedisKey → ℕ → String → Store → Store
  pub zrem : RedisKey → String → Store → Store
  pub pexpire : RedisKey → ℕ → Store → Store
  -- The server drops the keys whose time to live has run out.
  pub drop_expired : ℕ → Store → Store
  pub zcard-zremrangebyscore :
      (k j : RedisKey) (cutoff : ℕ) (s : Store) → zcard k (zremrangebyscore j cutoff s) ≤ zcard k s
  pub zcard-zadd :
      (k : RedisKey) (score : ℕ) (member : String) (s : Store)
      → zcard k (zadd k score member s) ≤ zcard k s + 1
  pub zcard-zadd_other :
      (k j : RedisKey) (score : ℕ) (member : String) (s : Store)
      → j ≢ k
      → zcard k (zadd j score member s) ≤ zcard k s
  pub zcard-zadd_existing :
      (k j : RedisKey) (score : ℕ) (member : String) (s : Store)
      → zcard k (zadd_existing j score member s) ≤ zcard k s
  pub zcard-zrem :
      (k j : RedisKey) (member : String) (s : Store) → zcard k (zrem j member s) ≤ zcard k s
  pub zcard-pexpire : (k j : RedisKey) (ttl : ℕ) (s : Store) → zcard k (pexpire j ttl s) ≤ zcard k s
  pub zcard-drop_expired :
      (k : RedisKey) (now : ℕ) (s : Store) → zcard k (drop_expired now s) ≤ zcard k s

-- The keys of one request, and the arguments of the admission script.
pub record AdmissionKeys : Type 0 where
  pub subject_rate_key : RedisKey
  pub tenant_rate_key : RedisKey
  pub tenant_key : RedisKey
  pub global_key : RedisKey

pub record AdmissionArgs : Type 0 where
  pub subject_limit : ℕ
  pub tenant_limit : ℕ
  pub tenant_concurrency_limit : ℕ
  pub global_concurrency_limit : ℕ
  pub window_ms : ℕ
  pub lease_ttl_ms : ℕ
  pub lease_id : String

module _ (redis : Redis) where
  -- The script's first four calls. The server's clock is later than one window after its origin.
  unfoldable pub prune_sets : ℕ → AdmissionKeys → AdmissionArgs → redis.Store → redis.Store
  prune_sets now keys args s = redis.zremrangebyscore keys.global_key now (
      redis.zremrangebyscore keys.tenant_key now (
        redis.zremrangebyscore keys.tenant_rate_key (now - args.window_ms)
          (redis.zremrangebyscore keys.subject_rate_key (now - args.window_ms) s)))

  -- `math.max(1, math.ceil((oldest + window_ms - now_ms) / 1000))`, or 1 for an empty set.
  unfoldable pub retry_seconds : ℕ → ℕ → Option ℕ → ℕ
  retry_seconds now window_ms none = 1
  retry_seconds now window_ms (some oldest) = max 1 ((oldest + window_ms - now + 999) / 1000)

  -- The script's writes, once all four tests passed.
  unfoldable pub record_admission : ℕ → AdmissionKeys → AdmissionArgs → redis.Store → redis.Store
  record_admission now keys args s =
      let expiry = now + args.lease_ttl_ms in
      let rated = redis.pexpire keys.tenant_rate_key (args.window_ms + 1000) (
        redis.pexpire keys.subject_rate_key (args.window_ms + 1000) (
          redis.zadd keys.tenant_rate_key now args.lease_id
            (redis.zadd keys.subject_rate_key now args.lease_id s))) in
      redis.pexpire keys.global_key (args.lease_ttl_ms * 2) (
        redis.pexpire keys.tenant_key (args.lease_ttl_ms * 2) (
          redis.zadd keys.global_key expiry args.lease_id
            (redis.zadd keys.tenant_key expiry args.lease_id rated)))

  -- The script after the pruning: the store, and the three numbers that it returns.
  unfoldable pub decide_admission :
      ℕ → AdmissionKeys → AdmissionArgs → redis.Store → redis.Store × List ℕ
  decide_admission now keys args s =
      if leb args.subject_limit (redis.zcard keys.subject_rate_key s)
      then (
        s,
        0 ∷ 1 ∷ retry_seconds now args.window_ms (redis.oldest_score keys.subject_rate_key s) ∷ [],
      )
      else if leb args.tenant_limit (redis.zcard keys.tenant_rate_key s)
      then (
        s,
        0 ∷ 2 ∷ retry_seconds now args.window_ms (redis.oldest_score keys.tenant_rate_key s) ∷ [],
      )
      else if leb args.tenant_concurrency_limit (redis.zcard keys.tenant_key s)
      then (s, 0 ∷ 3 ∷ 1 ∷ [])
      else if leb args.global_concurrency_limit (redis.zcard keys.global_key s)
      then (s, 0 ∷ 4 ∷ 1 ∷ [])
      else (record_admission now keys args s, 1 ∷ 0 ∷ 0 ∷ [])

  -- `ADMISSION_LUA`
  unfoldable pub admission_lua :
      ℕ → AdmissionKeys → AdmissionArgs → redis.Store → redis.Store × List ℕ
  admission_lua now keys args s = decide_admission now keys args (prune_sets now keys args s)

  -- `RENEW_LUA`
  unfoldable pub renew_lua :
      ℕ → RedisKey → RedisKey → ℕ → String → redis.Store → redis.Store × List ℕ
  renew_lua now tenant_key global_key lease_ttl_ms lease_id s =
      let expiry = now + lease_ttl_ms in
      let renewed = redis.pexpire global_key (lease_ttl_ms * 2) (
        redis.pexpire tenant_key (lease_ttl_ms * 2) (
          redis.zadd_existing global_key expiry lease_id
            (redis.zadd_existing tenant_key expiry lease_id s))) in
      elim (redis.zscore tenant_key lease_id s) [
        | none ↦ (s, 0 ∷ 0 ∷ [])
        | some _ ↦ elim (redis.zscore global_key lease_id s) [
          | none ↦ (s, 0 ∷ 0 ∷ [])
          | some _ ↦ (renewed, 1 ∷ expiry ∷ [])
        ]
      ]

  -- `RELEASE_LUA`
  unfoldable pub release_lua : RedisKey → RedisKey → String → redis.Store → redis.Store
  release_lua tenant_key global_key lease_id s =
      redis.zrem global_key lease_id (redis.zrem tenant_key lease_id s)
