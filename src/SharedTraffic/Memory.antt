-- ===== src/SharedTraffic/Memory.antt =====
-- A server in memory, which has the laws of `Redis`: a function from keys to sorted sets.
use ai_native_governed_data.Prelude.{
  ℕ, ◌+◌, ◌≤◌, String, not, Option, none, some, List, [], ◌∷◌, ◌++◌, length-append, ◌≢◌, leb,
  length, keep, length-keep-le, if◌then◌else◌, arith, string_discrete, says, ite,
}
use ai_native_governed_data.Prelude.Dict.{lookup}
use ai_native_governed_data.SharedTraffic.{RedisKey, key_discrete, Redis}

abbrev pub SortedSet : Type 0
SortedSet = List (String × ℕ)

-- The member's new score, at the end.
unfoldable pub put : String → ℕ → SortedSet → SortedSet
put member score set = keep (λ (e : String × ℕ). not (says e.0 member)) set ++ (member, score) ∷ []

abbrev pub MemoryStore : Type 0
MemoryStore = RedisKey → SortedSet

unfoldable pub on : RedisKey → (SortedSet → SortedSet) → MemoryStore → MemoryStore
on j change s k = ite (key_discrete j k) (change (s k)) (s k)

unfoldable pub newer : ℕ → SortedSet → SortedSet
newer cutoff set = keep (λ (e : String × ℕ). not (leb e.1 cutoff)) set

unfoldable pub rescore : String → ℕ → SortedSet → SortedSet
rescore member score [] = []
rescore member score ((m, old) ∷ set) =
    let rest = rescore member score set in (m, if says m member then score else old) ∷ rest

unfoldable pub lowest : SortedSet → Option ℕ
lowest [] = none
lowest ((m, score) ∷ set) = elim (lowest set) [
  | none ↦ some score
  | some other ↦ some (if leb score other then score else other)
]

unfoldable pub without : String → SortedSet → SortedSet
without member set = keep (λ (e : String × ℕ). not (says e.0 member)) set

pub without-le : (member : String) (set : SortedSet) → length (without member set) ≤ length set
unfolding without
without-le member set = length-keep-le (λ (e : String × ℕ). not (says e.0 member)) set

pub newer-le : (cutoff : ℕ) (set : SortedSet) → length (newer cutoff set) ≤ length set
unfolding newer
newer-le cutoff set = length-keep-le (λ (e : String × ℕ). not (leb e.1 cutoff)) set

length-put-le : (m : String) (n : ℕ) (set : SortedSet) → length (put m n set) ≤ length set + 1
unfolding put
length-put-le m n set =
    let others = keep (λ (e : String × ℕ). not (says e.0 m)) set in
    omega (
      arith,
      length-append others ((m, n) ∷ []),
      length-keep-le (λ (e : String × ℕ). not (says e.0 m)) set,
    )

pub length-rescore : (m : String) (n : ℕ) (set : SortedSet) → length (rescore m n set) ≤ length set
unfolding rescore
length-rescore m n [] = omega arith
length-rescore m n ((x, old) ∷ set) = omega (arith, length-rescore m n set)

pub on-le :
    (j k : RedisKey) (change : SortedSet → SortedSet) (s : MemoryStore)
    → length (change (s k)) ≤ length (s k)
    → length (on j change s k) ≤ length (s k)
unfolding on
on-le j k change s h =
    elim (key_discrete j k) as (λ d. length (ite d (change (s k)) (s k)) ≤ length (s k)) [
      | yes p ↦ h
      | no n ↦ omega arith
    ]

pub on-put :
    (k : RedisKey) (score : ℕ) (member : String) (s : MemoryStore)
    → length (on k (put member score) s k) ≤ length (s k) + 1
unfolding on
on-put k score member s =
    elim (key_discrete k k)
      as (λ d. length (ite d (put member score (s k)) (s k)) ≤ length (s k) + 1) [
        | yes p ↦ length-put-le member score (s k)
        | no n ↦ omega arith
      ]

pub on-put_other :
    (k j : RedisKey) (score : ℕ) (member : String) (s : MemoryStore)
    → j ≢ k
    → length (on j (put member score) s k) ≤ length (s k)
unfolding on
on-put_other k j score member s apart =
    elim (key_discrete j k) as (λ d. length (ite d (put member score (s k)) (s k)) ≤ length (s k)) [
      | yes p ↦ elim (apart p) [ ]
      | no n ↦ omega arith
    ]

-- A key's time to live is not kept: this server drops no key.
abbrev pub memory : Redis
memory = record {
  Store = MemoryStore;
  zcard = λ k s. length (s k);
  zscore = λ k member s. lookup string_discrete member (s k);
  oldest_score = λ k s. lowest (s k);
  zremrangebyscore = λ k cutoff s. on k (newer cutoff) s;
  zadd = λ k score member s. on k (put member score) s;
  zadd_existing = λ k score member s. on k (rescore member score) s;
  zrem = λ k member s. on k (without member) s;
  pexpire = λ k ttl s. s;
  drop_expired = λ now s. s;
  zcard-zremrangebyscore = λ k j cutoff s. on-le j k (newer cutoff) s (newer-le cutoff (s k));
  zcard-zadd = λ k score member s. on-put k score member s;
  zcard-zadd_other = λ k j score member s apart. on-put_other k j score member s apart;
  zcard-zadd_existing =
      λ k j score member s. on-le j k (rescore member score) s (length-rescore member score (s k));
  zcard-zrem = λ k j member s. on-le j k (without member) s (without-le member (s k));
  zcard-pexpire = λ k j ttl s. omega arith;
  zcard-drop_expired = λ k now s. omega arith;
}

abbrev pub empty : MemoryStore
empty k = []
