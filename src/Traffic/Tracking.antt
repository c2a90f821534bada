-- ===== src/Traffic/Tracking.antt =====
-- agent/api/traffic.py: how many identity keys the guard tracks.
use ai_native_governed_data.Prelude.{
  ℕ, ◌+◌, ◌≤◌, ◌<◌, ◌≡◌, refl, max, List, [], ◌∷◌, leb, leb→lt, Bool-cases, inl, inr, arith, true,
  String, none, some, strip, ◌&&◌, string_discrete, Option, Option-cases, ◌⊎◌, ap, if_pos, ◌∙◌,
  ◌++◌,
}
use ai_native_governed_data.Prelude.Dict.{
  lookup, insert, length-insert-le, length-insert_old, lookup-insert,
}
use ai_native_governed_data.Traffic.{
  TrafficLimits, TrafficGuard, tracked, cleanup_stale_windows, count_admission,
  ensure_tracking_capacity, open_windows, take_slot, decide, acquire_locked, acquire,
  subject_key_discrete, has, prune, window_or_empty, window_ticks, subject_window, tenant_window,
  Admission,
}
use ai_native_governed_data.Traffic.Windows.{length-cleanup-le}

tracked-cleanup-le :
    (guard : TrafficGuard) (now : ℕ) → tracked (cleanup_stale_windows guard now) ≤ tracked guard
unfolding cleanup_stale_windows
tracked-cleanup-le guard now = omega (
  arith,
  length-cleanup-le subject_key_discrete (window_ticks guard.limits) now guard.subject_windows,
  length-cleanup-le string_discrete (window_ticks guard.limits) now guard.tenant_windows,
)

tracked-count_admission-le :
    (guard : TrafficGuard) (now : ℕ) → tracked (count_admission guard now) ≤ tracked guard
unfolding count_admission
tracked-count_admission-le guard now =
    ground (arith, tracked-cleanup-le (record guard { admissions = guard.admissions + 1 }) now)

-- Both windows of a request are there.
abbrev IsKnown : TrafficGuard → String → String → Type 0
IsKnown guard t s =
    ((w : List ℕ) × (lookup subject_key_discrete (t, s) guard.subject_windows ≡ some w))
    × ((w : List ℕ) × (lookup string_discrete t guard.tenant_windows ≡ some w))

has-some : {A : Type 0} (o : Option A) → has o ≡ true → (a : A) × (o ≡ some a)
has-some none h = cc
has-some (some a) h = (a, refl)

lookup-insert_self :
    {K V : Type 0} (dec : Discrete K) (k : K) (v : V) (d : List (K × V))
    → lookup dec k (insert dec k v d) ≡ some v
lookup-insert_self dec k v d = lookup-insert dec k k v d ∙ if_pos (dec k k) refl _ _

tracked-open_windows-le :
    (guard : TrafficGuard) (t s : String) (now : ℕ)
    → tracked (open_windows guard t s now) ≤ tracked guard + 2
unfolding open_windows
tracked-open_windows-le guard t s now = omega (
  arith,
  length-insert-le subject_key_discrete (t, s)
      (pruned (lookup subject_key_discrete (t, s) guard.subject_windows)) guard.subject_windows,
  length-insert-le string_discrete t (pruned (lookup string_discrete t guard.tenant_windows))
      guard.tenant_windows,
)
  where
    pruned : Option (List ℕ) → List ℕ
    pruned o = prune (window_ticks guard.limits) now (window_or_empty o)

tracked-open_windows_known :
    (guard : TrafficGuard) (t s : String) (now : ℕ)
    → IsKnown guard t s
    → tracked (open_windows guard t s now) ≡ tracked guard
unfolding open_windows
tracked-open_windows_known guard t s now ((w, e), (v, f)) = omega (
  arith,
  length-insert_old subject_key_discrete (t, s)
      (pruned (lookup subject_key_discrete (t, s) guard.subject_windows)) w guard.subject_windows e,
  length-insert_old string_discrete t (pruned (lookup string_discrete t guard.tenant_windows)) v
      guard.tenant_windows f,
)
  where
    pruned : Option (List ℕ) → List ℕ
    pruned o = prune (window_ticks guard.limits) now (window_or_empty o)

open_windows-IsKnown :
    (guard : TrafficGuard) (t s : String) (now : ℕ) → IsKnown (open_windows guard t s now) t s
unfolding open_windows
open_windows-IsKnown guard t s now = (
  (_, lookup-insert_self subject_key_discrete (t, s) _ guard.subject_windows),
  (_, lookup-insert_self string_discrete t _ guard.tenant_windows),
)

tracked-take_slot :
    (guard : TrafficGuard) (t s : String) (now : ℕ)
    → IsKnown guard t s
    → tracked (take_slot guard t s now) ≡ tracked guard
unfolding take_slot
tracked-take_slot guard t s now ((w, e), (v, f)) = omega (
  arith,
  length-insert_old subject_key_discrete (t, s) (subject_window guard (t, s) ++ now ∷ []) w
      guard.subject_windows e,
  length-insert_old string_discrete t (tenant_window guard t ++ now ∷ []) v guard.tenant_windows f,
)

tracked-decide :
    (guard : TrafficGuard) (t s : String) (now : ℕ)
    → IsKnown guard t s
    → tracked (decide guard t s now).0 ≡ tracked guard
unfolding decide
tracked-decide guard t s now known = ground (arith, tracked-take_slot guard t s now known)

-- After the check, either the windows are there and nothing has grown, or room was found for one.
ensure_cases :
    (guard : TrafficGuard) (t s : String) (now : ℕ)
    → (tracked (ensure_tracking_capacity guard t s now).0 ≤ tracked guard)
      × ((IsKnown (ensure_tracking_capacity guard t s now).0 t s)
          ⊎ ((a : Admission) × ((ensure_tracking_capacity guard t s now).1 ≡ some a))
          ⊎ (tracked (ensure_tracking_capacity guard t s now).0 < guard.limits.max_tracked_keys))
unfolding ensure_tracking_capacity
ensure_cases guard t s now = elim (Bool-cases (has subject && has tenant)) [
  | inl old ↦
      rw (old, ensure_tracking_capacity)
        (omega arith, inl (has-some subject (ground arith), has-some tenant (ground arith)))
  | inr new ↦
      elim (Bool-cases
        (leb guard.limits.max_tracked_keys (tracked (cleanup_stale_windows guard now)))) [
          | inl full ↦
              rw (new, full, ensure_tracking_capacity)
                (tracked-cleanup-le guard now, inr (inl (_, refl)))
          | inr room ↦
              rw (new, room, ensure_tracking_capacity)
                (tracked-cleanup-le guard now, inr (inr (leb→lt _ _ room)))
        ]
]
  where
    subject : Option (List ℕ)
    subject = lookup subject_key_discrete (t, s) guard.subject_windows

    tenant : Option (List ℕ)
    tenant = lookup string_discrete t guard.tenant_windows

limits-count_admission :
    (guard : TrafficGuard) (now : ℕ) → (count_admission guard now).limits ≡ guard.limits
unfolding count_admission cleanup_stale_windows
limits-count_admission guard now = ground arith

acquire_locked-tracked :
    (guard : TrafficGuard) (t s : String) (now : ℕ)
    → tracked (acquire_locked guard t s now).0
      ≤ max (tracked guard) (guard.limits.max_tracked_keys + 1)
unfolding acquire_locked
acquire_locked-tracked guard t s now =
    let counted = count_admission guard now in
    let ensured = (ensure_tracking_capacity counted t s now).0 in
    let opened = open_windows ensured t s now in
    let smaller = tracked-count_admission-le guard now in
    let decided = tracked-decide opened t s now (open_windows-IsKnown ensured t s now) in
    let (kept, how) = ensure_cases counted t s now in
    let same = ap (λ (l : TrafficLimits). l.max_tracked_keys) (limits-count_admission guard now) in
    elim (Option-cases (ensure_tracking_capacity counted t s now).1) [
      | inr (a, raised) ↦ rw (raised, acquire_locked) (omega (arith, kept, smaller))
      | inl fits ↦
          rw (fits, acquire_locked)
            (elim how [
              | inl known ↦
                  omega (
                    arith,
                    kept,
                    smaller,
                    decided,
                    tracked-open_windows_known ensured t s now known,
                  )
              | inr (inl (a, raised)) ↦ absurd (cc fits)
              | inr (inr room) ↦
                  omega (arith, same, room, decided, tracked-open_windows-le ensured t s now)
            ])
    ]

-- A call of `acquire`, whatever it answers, leaves at most as many tracked keys as there were, or
-- one more than `max_tracked_keys`.
pub acquire-tracked :
    (guard : TrafficGuard) (tenant subject : String) (now : ℕ)
    → tracked (acquire guard tenant subject now).0
      ≤ max (tracked guard) (guard.limits.max_tracked_keys + 1)
unfolding acquire
acquire-tracked guard tenant subject now =
    ground (arith, acquire_locked-tracked guard (strip tenant) (strip subject) now)
