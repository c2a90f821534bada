-- ===== src/Traffic/Outcome.antt =====
-- agent/api/traffic.py: the outcome of one call of `acquire`. A rejected call drops stale window
-- entries at most; an admitted one has passed the four tests, and takes one slot.
pub mod Quiet
use ai_native_governed_data.Prelude.{
  ℕ, ◌+◌, ◌<◌, ◌≡◌, refl, ◌∙◌, String, Bool, inl, inr, some, List, leb, leb→lt, Bool-cases, length,
  arith, string_discrete, strip, is_empty, ◌||◌, ◌&&◌, Option-cases, ◌%◌, ◌==◌, if_pos, if_neg,
}
use ai_native_governed_data.Prelude.Dict.{lookup, insert, IsDict, lookup-insert, insert-IsDict}
use ai_native_governed_data.Traffic.{
  has, tracked, TrafficLimits, TrafficGuard, SubjectKey, subject_key_discrete, Admission,
  AdmissionRejected, admitted, rejected, reject, window_ticks, window_or_empty, subject_window,
  tenant_window, active_of, prune, cleanup_stale_windows, count_admission, ensure_tracking_capacity,
  open_windows, take_slot, decide, acquire_locked, acquire,
}
use ai_native_governed_data.Traffic.Windows.{
  Drops, Drops-refl, Drops-trans, prune-Drops, lookup-cleanup, cleanup-IsDict,
}
pub use ai_native_governed_data.Traffic.Outcome.Quiet.{
  IsDistinct, IsQuiet, IsQuiet-refl, IsQuiet-trans, count_admission-IsQuiet,
  ensure_tracking_capacity-IsQuiet, open_windows-IsQuiet,
}

-- An admission: the state just before it, which every test allows, and the slot that is taken.
pub record Admits (guard : TrafficGuard) (tenant_id subject : String) (now : ℕ)
    (after : TrafficGuard) : Type 0 where
  pub ready : TrafficGuard
  pub quiet : IsQuiet now guard ready
  pub subject_free : length (subject_window ready (tenant_id, subject)) < ready.limits.subject_rpm
  pub tenant_free : length (tenant_window ready tenant_id) < ready.limits.tenant_rpm
  pub tenant_slot : active_of ready tenant_id < ready.limits.tenant_concurrency
  pub global_slot : ready.global_active < ready.limits.global_concurrency
  pub taken : after ≡ take_slot ready tenant_id subject now

-- The two ways in which a call of `acquire` can end.
pub data Outcome (guard : TrafficGuard) (tenant_id subject : String) (now : ℕ)
    (after : TrafficGuard) (answer : Admission) : Type 0 where
  refuses :
      (r : AdmissionRejected)
      → answer ≡ rejected r
      → IsQuiet now guard after
      → Outcome guard tenant_id subject now after answer
  admits :
      answer ≡ admitted tenant_id
      → Admits guard tenant_id subject now after
      → Outcome guard tenant_id subject now after answer

abbrev Ends : TrafficGuard → String → String → ℕ → TrafficGuard × Admission → Type 0
Ends guard tenant_id subject now result = Outcome guard tenant_id subject now result.0 result.1

decide-Outcome :
    (guard ready : TrafficGuard) (tenant_id subject : String) (now : ℕ)
    → IsQuiet now guard ready
    → Ends guard tenant_id subject now (decide ready tenant_id subject now)
unfolding decide reject
decide-Outcome guard ready tenant_id subject now quiet =
    elim (Bool-cases
      (leb limits.subject_rpm (length (subject_window ready (tenant_id, subject))))) [
        | inl e ↦ rw (e, decide) (refuses _ refl quiet)
        | inr subject_free ↦
            elim (Bool-cases (leb limits.tenant_rpm (length (tenant_window ready tenant_id)))) [
              | inl e ↦ rw (subject_free, e, decide) (refuses _ refl quiet)
              | inr tenant_free ↦
                  elim (Bool-cases (leb limits.tenant_concurrency (active_of ready tenant_id))) [
                    | inl e ↦ rw (subject_free, tenant_free, e, decide) (refuses _ refl quiet)
                    | inr tenant_slot ↦
                        elim (Bool-cases (leb limits.global_concurrency ready.global_active)) [
                          | inl e ↦
                              rw (subject_free, tenant_free, tenant_slot, e, decide)
                                (refuses _ refl quiet)
                          | inr global_slot ↦
                              rw (subject_free, tenant_free, tenant_slot, global_slot, decide)
                                (admits refl (record {
                                  ready = ready;
                                  quiet = quiet;
                                  subject_free = leb→lt _ _ subject_free;
                                  tenant_free = leb→lt _ _ tenant_free;
                                  tenant_slot = leb→lt _ _ tenant_slot;
                                  global_slot = leb→lt _ _ global_slot;
                                  taken = refl;
                                }))
                        ]
                  ]
            ]
      ]
  where
    limits : TrafficLimits
    limits = ready.limits

ensure-failure :
    (guard : TrafficGuard) (tenant_id subject : String) (now : ℕ) (a : Admission)
    → (ensure_tracking_capacity guard tenant_id subject now).1 ≡ some a
    → (r : AdmissionRejected) × (a ≡ rejected r)
unfolding ensure_tracking_capacity reject
ensure-failure guard tenant_id subject now a h = ground arith

acquire_locked-Outcome :
    (guard : TrafficGuard) (tenant_id subject : String) (now : ℕ)
    → IsDistinct guard
    → Ends guard tenant_id subject now (acquire_locked guard tenant_id subject now)
unfolding acquire_locked
acquire_locked-Outcome guard tenant_id subject now d =
    let counted = count_admission guard now in
    let counting = count_admission-IsQuiet guard now d in
    let ensured = (ensure_tracking_capacity counted tenant_id subject now).0 in
    let quiet : IsQuiet now guard ensured =
      IsQuiet-trans now guard counted ensured counting
        (ensure_tracking_capacity-IsQuiet counted tenant_id subject now (counting.distinct d)) in
    elim (Option-cases (ensure_tracking_capacity counted tenant_id subject now).1) [
      | inl fits ↦
          rw (fits, acquire_locked)
            (decide-Outcome guard (open_windows ensured tenant_id subject now) tenant_id subject now
              (IsQuiet-trans now guard ensured (open_windows ensured tenant_id subject now) quiet
                (open_windows-IsQuiet ensured tenant_id subject now)))
      | inr (a, raised) ↦
          let (r, e) = ensure-failure counted tenant_id subject now a raised in
          rw (raised, acquire_locked) (refuses r e quiet)
    ]

pub acquire-Outcome :
    (guard : TrafficGuard) (tenant subject : String) (now : ℕ)
    → IsDistinct guard
    → Outcome guard
        (strip tenant)
        (strip subject)
        now
        (acquire guard tenant subject now).0
        (acquire guard tenant subject now).1
unfolding acquire reject
acquire-Outcome guard tenant subject now d =
    elim (Bool-cases (is_empty (strip tenant) || is_empty (strip subject))) [
      | inl e ↦ rw (e, acquire) (refuses _ refl (IsQuiet-refl now guard))
      | inr e ↦ rw (e, acquire) (acquire_locked-Outcome guard (strip tenant) (strip subject) now d)
    ]
