-- ===== src/Traffic.antt =====
-- agent/api/traffic.py: the process-local traffic guard. A call of `acquire` or of a lease's
-- `release` runs under the guard's lock (or without a suspension point), so it is one function
-- from the state before to the state after. The clock reading `now` is an argument, in ticks.
pub mod Windows
pub mod Counters
pub mod Serving
pub mod Outcome
pub mod Rate
pub mod Limits
pub mod Retry
pub mod Tracking
mod Tests
use ai_native_governed_data.Prelude.{
  ℕ, zero, suc, ◌+◌, ◌-◌, ◌*◌, ◌/◌, ◌%◌, max, String, Bool, true, false, ◌||◌, ◌&&◌, Option, none,
  some, List, [], ◌∷◌, ◌++◌, leb, ◌==◌, null, if◌then◌else◌, length, is_empty, strip,
  string_discrete,
}
use ai_native_governed_data.Prelude.Dict.{lookup, insert, pop}

-- `TrafficLimits`, without the request timeout, which the guard only passes on to its caller.
pub record TrafficLimits : Type 0 where
  pub global_concurrency : ℕ
  pub tenant_concurrency : ℕ
  pub subject_rpm : ℕ
  pub tenant_rpm : ℕ
  pub max_tracked_keys : ℕ
  pub window_seconds : ℕ

-- The clock's resolution: `time.monotonic` counts nanoseconds.
abbrev pub ticks_per_second : ℕ
ticks_per_second = 1_000_000_000

abbrev pub window_ticks : TrafficLimits → ℕ
window_ticks limits = limits.window_seconds * ticks_per_second

-- The codes of `AdmissionRejected`.
pub data Code : Type 0 where
  invalid_request_context : Code
  rate_limit_tracking_capacity : Code
  subject_rate_limited : Code
  tenant_rate_limited : Code
  tenant_concurrency_limit : Code
  global_concurrency_limit : Code

pub record AdmissionRejected : Type 0 where
  pub code : Code
  pub retry_after_seconds : ℕ

abbrev pub SubjectKey : Type 0
SubjectKey = String × String

pub SubjectKey_discrete_by_parts : Discrete String → Discrete SubjectKey
SubjectKey_discrete_by_parts d = hlevel d

-- The keys of `_subject_windows`: a tenant and a subject.
unfoldable pub subject_key_discrete : Discrete SubjectKey
unfolding SubjectKey_discrete_by_parts string_discrete
subject_key_discrete = SubjectKey_discrete_by_parts string_discrete

-- `GovernedTrafficGuard`: a window is the times of the admissions that it holds, oldest first.
pub record TrafficGuard : Type 0 where
  pub limits : TrafficLimits
  pub subject_windows : List (SubjectKey × List ℕ)
  pub tenant_windows : List (String × List ℕ)
  pub global_active : ℕ
  pub tenant_active : List (String × ℕ)
  pub admissions : ℕ

-- What `acquire` returns or raises. A lease is returned unreleased.
pub data Admission : Type 0 where
  admitted : String → Admission
  rejected : AdmissionRejected → Admission

unfoldable pub reject : Code → ℕ → Admission
reject code seconds = rejected (record { code = code; retry_after_seconds = seconds })

-- `_prune`: `window[0] <= now - window_seconds`, without going below zero.
unfoldable pub prune : ℕ → ℕ → List ℕ → List ℕ
prune span now [] = []
prune span now (t ∷ window) = elim (leb (t + span) now) [
  | true ↦ prune span now window
  | false ↦ t ∷ window
]

-- `_retry_after`; `int` drops the fraction of a second.
unfoldable pub retry_after : ℕ → ℕ → List ℕ → ℕ
retry_after span now [] = 1
retry_after span now (t ∷ window) = max 1 ((t + span - now) / ticks_per_second + 1)

abbrev pub window_or_empty : Option (List ℕ) → List ℕ
window_or_empty none = []
window_or_empty (some window) = window

-- One of the two loops of `_cleanup_stale_windows`: it prunes each window, and pops the empty ones.
unfoldable pub cleanup : {K : Type 0} → ℕ → ℕ → List (K × List ℕ) → List (K × List ℕ)
cleanup span now [] = []
cleanup span now ((k, window) ∷ windows) =
    let rest = cleanup span now windows in
    let kept = prune span now window in if null kept then rest else (k, kept) ∷ rest

unfoldable pub cleanup_stale_windows : TrafficGuard → ℕ → TrafficGuard
cleanup_stale_windows guard now = record guard {
  subject_windows = cleanup (window_ticks guard.limits) now guard.subject_windows;
  tenant_windows = cleanup (window_ticks guard.limits) now guard.tenant_windows;
}

-- The admission counter, and the clean-up at every hundredth call.
unfoldable pub count_admission : TrafficGuard → ℕ → TrafficGuard
count_admission guard now =
    let counted = record guard { admissions = guard.admissions + 1 } in
    if counted.admissions % 100 == 0 then cleanup_stale_windows counted now else counted

abbrev pub has : {A : Type 0} → Option A → Bool
has none = false
has (some x) = true

abbrev pub tracked : TrafficGuard → ℕ
tracked guard = length guard.subject_windows + length guard.tenant_windows

-- `_ensure_tracking_capacity`: the state after it, and what it raises.
unfoldable pub ensure_tracking_capacity :
    TrafficGuard → String → String → ℕ → TrafficGuard × Option Admission
ensure_tracking_capacity guard tenant_id subject now =
    if has (lookup subject_key_discrete (tenant_id, subject) guard.subject_windows)
      && has (lookup string_discrete tenant_id guard.tenant_windows)
    then (guard, none)
    else let cleaned = cleanup_stale_windows guard now in
      if leb guard.limits.max_tracked_keys (tracked cleaned)
      then (cleaned, some (reject rate_limit_tracking_capacity guard.limits.window_seconds))
      else (cleaned, none)

-- `setdefault` and `_prune` of the two windows of a request.
unfoldable pub open_windows : TrafficGuard → String → String → ℕ → TrafficGuard
open_windows guard tenant_id subject now =
    let span = window_ticks guard.limits in
    record guard {
      subject_windows =
          insert subject_key_discrete (tenant_id, subject)
            (prune span now (
              window_or_empty
                (lookup subject_key_discrete (tenant_id, subject) guard.subject_windows)))
            guard.subject_windows;
      tenant_windows =
          insert string_discrete tenant_id
            (prune span now
              (window_or_empty (lookup string_discrete tenant_id guard.tenant_windows)))
            guard.tenant_windows;
    }

-- The two windows of a request, and the slots that its tenant holds.
abbrev pub subject_window : TrafficGuard → SubjectKey → List ℕ
subject_window guard key = window_or_empty (lookup subject_key_discrete key guard.subject_windows)

abbrev pub tenant_window : TrafficGuard → String → List ℕ
tenant_window guard tenant_id =
    window_or_empty (lookup string_discrete tenant_id guard.tenant_windows)

abbrev pub count_or_zero : Option ℕ → ℕ
count_or_zero none = 0
count_or_zero (some n) = n

abbrev pub active_of : TrafficGuard → String → ℕ
active_of guard tenant_id = count_or_zero (lookup string_discrete tenant_id guard.tenant_active)

-- The state after an admission: both windows, both counters.
unfoldable pub take_slot : TrafficGuard → String → String → ℕ → TrafficGuard
take_slot guard tenant_id subject now = record guard {
  subject_windows =
      insert subject_key_discrete (tenant_id, subject)
        (subject_window guard (tenant_id, subject) ++ now ∷ []) guard.subject_windows;
  tenant_windows =
      insert string_discrete tenant_id (tenant_window guard tenant_id ++ now ∷ [])
        guard.tenant_windows;
  global_active = guard.global_active + 1;
  tenant_active =
      insert string_discrete tenant_id (active_of guard tenant_id + 1) guard.tenant_active;
}

-- The four tests on the pruned windows and the counters, and the admission.
unfoldable pub decide : TrafficGuard → String → String → ℕ → TrafficGuard × Admission
decide guard tenant_id subject now =
    let limits = guard.limits in
    let span = window_ticks limits in
    let by_subject = subject_window guard (tenant_id, subject) in
    let by_tenant = tenant_window guard tenant_id in
    if leb limits.subject_rpm (length by_subject)
    then (guard, reject subject_rate_limited (retry_after span now by_subject))
    else if leb limits.tenant_rpm (length by_tenant)
    then (guard, reject tenant_rate_limited (retry_after span now by_tenant))
    else if leb limits.tenant_concurrency (active_of guard tenant_id)
    then (guard, reject tenant_concurrency_limit 1)
    else if leb limits.global_concurrency guard.global_active
    then (guard, reject global_concurrency_limit 1)
    else (take_slot guard tenant_id subject now, admitted tenant_id)

-- What `acquire` does once it holds the lock.
unfoldable pub acquire_locked : TrafficGuard → String → String → ℕ → TrafficGuard × Admission
acquire_locked guard tenant_id subject now =
    let (ensured, failure) =
      ensure_tracking_capacity (count_admission guard now) tenant_id subject now in
    elim failure [
      | some raised ↦ (ensured, raised)
      | none ↦ decide (open_windows ensured tenant_id subject now) tenant_id subject now
    ]

unfoldable pub acquire : TrafficGuard → String → String → ℕ → TrafficGuard × Admission
acquire guard tenant subject now =
    let tenant_id = strip tenant in
    let name = strip subject in
    if is_empty tenant_id || is_empty name
    then (guard, reject invalid_request_context 1)
    else acquire_locked guard tenant_id name now

-- `_release_now`; `max(0, n - 1)` is the truncated `n - 1`.
unfoldable pub release_now : TrafficGuard → String → TrafficGuard
release_now guard tenant_id =
    let active = active_of guard tenant_id - 1 in
    record guard {
      global_active = guard.global_active - 1;
      tenant_active =
          if active == 0
          then pop string_discrete tenant_id guard.tenant_active
          else insert string_discrete tenant_id active guard.tenant_active;
    }

-- `AdmissionLease`: its `release` is idempotent.
pub record AdmissionLease : Type 0 where
  pub tenant_id : String
  pub released : Bool

unfoldable pub release : TrafficGuard → AdmissionLease → TrafficGuard × AdmissionLease
release guard lease =
    if lease.released
    then (guard, lease)
    else (release_now guard lease.tenant_id, record lease { released = true })

-- The constructor: no windows, no slots taken.
unfoldable pub init : TrafficLimits → TrafficGuard
init limits = record {
  limits = limits;
  subject_windows = [];
  tenant_windows = [];
  global_active = 0;
  tenant_active = [];
  admissions = 0;
}
