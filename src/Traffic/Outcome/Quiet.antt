-- ===== src/Traffic/Outcome/Quiet.antt =====
-- agent/api/traffic.py: what the calls inside `acquire` leave of a guard that has not admitted yet.
use ai_native_governed_data.Prelude.{
  ℕ, ◌+◌, ◌≡◌, refl, ◌∙◌, String, Bool, inl, inr, List, leb, Bool-cases, string_discrete, ◌&&◌, ◌%◌,
  ◌==◌, if_pos, if_neg,
}
use ai_native_governed_data.Prelude.Dict.{lookup, insert, IsDict, lookup-insert, insert-IsDict}
use ai_native_governed_data.Traffic.{
  has, tracked, TrafficGuard, SubjectKey, subject_key_discrete, window_ticks, window_or_empty,
  subject_window, tenant_window, prune, cleanup_stale_windows, count_admission,
  ensure_tracking_capacity, open_windows,
}
use ai_native_governed_data.Traffic.Windows.{
  Drops, Drops-refl, Drops-trans, prune-Drops, lookup-cleanup, cleanup-IsDict,
}

-- No dictionary holds a key twice.
pub record IsDistinct (guard : TrafficGuard) : Type 0 where
  pub subjects : IsDict subject_key_discrete guard.subject_windows
  pub tenants : IsDict string_discrete guard.tenant_windows
  pub actives : IsDict string_discrete guard.tenant_active

-- From one state to the other, windows lose stale entries at most, and no slot changes hands.
pub record IsQuiet (now : ℕ) (before after : TrafficGuard) : Type 0 where
  pub limits : after.limits ≡ before.limits
  pub global_active : after.global_active ≡ before.global_active
  pub tenant_active : after.tenant_active ≡ before.tenant_active
  pub subjects :
      (key : SubjectKey)
      → Drops
          (window_ticks before.limits)
          now
          (subject_window before key)
          (subject_window after key)
  pub tenants :
      (tenant_id : String)
      → Drops
          (window_ticks before.limits)
          now
          (tenant_window before tenant_id)
          (tenant_window after tenant_id)
  pub distinct : IsDistinct before → IsDistinct after

pub IsQuiet-refl : (now : ℕ) (guard : TrafficGuard) → IsQuiet now guard guard
IsQuiet-refl now guard = record {
  limits = refl;
  global_active = refl;
  tenant_active = refl;
  subjects = λ key. Drops-refl (window_ticks guard.limits) now (subject_window guard key);
  tenants = λ t. Drops-refl (window_ticks guard.limits) now (tenant_window guard t);
  distinct = λ d. d;
}

pub IsQuiet-trans :
    (now : ℕ) (a b c : TrafficGuard) → IsQuiet now a b → IsQuiet now b c → IsQuiet now a c
IsQuiet-trans now a b c p q = record {
  limits = q.limits ∙ p.limits;
  global_active = q.global_active ∙ p.global_active;
  tenant_active = q.tenant_active ∙ p.tenant_active;
  subjects = λ key.
      Drops-trans (window_ticks a.limits) now (subject_window a key) (subject_window b key)
        (subject_window c key) (p.subjects key) (rw p.limits at (q.subjects key));
  tenants = λ t.
      Drops-trans (window_ticks a.limits) now (tenant_window a t) (tenant_window b t)
        (tenant_window c t) (p.tenants t) (rw p.limits at (q.tenants t));
  distinct = λ d. q.distinct (p.distinct d);
}

cleanup_stale_windows-IsQuiet :
    (guard : TrafficGuard) (now : ℕ)
    → IsDistinct guard
    → IsQuiet now guard (cleanup_stale_windows guard now)
unfolding cleanup_stale_windows
cleanup_stale_windows-IsQuiet guard now d = record {
  limits = refl;
  global_active = refl;
  tenant_active = refl;
  subjects = λ key.
      rw (lookup-cleanup subject_key_discrete span now key guard.subject_windows d.subjects)
        (prune-Drops span now (subject_window guard key));
  tenants = λ t.
      rw (lookup-cleanup string_discrete span now t guard.tenant_windows d.tenants)
        (prune-Drops span now (tenant_window guard t));
  distinct = λ d. record {
    subjects = cleanup-IsDict subject_key_discrete span now guard.subject_windows d.subjects;
    tenants = cleanup-IsDict string_discrete span now guard.tenant_windows d.tenants;
    actives = d.actives;
  };
}
  where
    span : ℕ
    span = window_ticks guard.limits

pub count_admission-IsQuiet :
    (guard : TrafficGuard) (now : ℕ)
    → IsDistinct guard
    → IsQuiet now guard (count_admission guard now)
unfolding count_admission
count_admission-IsQuiet guard now d =
    let counted : TrafficGuard = record guard { admissions = guard.admissions + 1 } in
    let counting : IsQuiet now guard counted = record {
      limits = refl;
      global_active = refl;
      tenant_active = refl;
      subjects = λ key. Drops-refl (window_ticks guard.limits) now (subject_window guard key);
      tenants = λ t. Drops-refl (window_ticks guard.limits) now (tenant_window guard t);
      distinct = λ e. record { subjects = e.subjects; tenants = e.tenants; actives = e.actives };
    } in
    elim (Bool-cases ((guard.admissions + 1) % 100 == 0)) [
      | inl due ↦
          rw (due, count_admission)
            (IsQuiet-trans now guard counted (cleanup_stale_windows counted now) counting
              (cleanup_stale_windows-IsQuiet counted now (counting.distinct d)))
      | inr early ↦ rw (early, count_admission) counting
    ]

pub ensure_tracking_capacity-IsQuiet :
    (guard : TrafficGuard) (tenant_id subject : String) (now : ℕ)
    → IsDistinct guard
    → IsQuiet now guard (ensure_tracking_capacity guard tenant_id subject now).0
unfolding ensure_tracking_capacity
ensure_tracking_capacity-IsQuiet guard tenant_id subject now d =
    let refreshed = cleanup_stale_windows-IsQuiet guard now d in
    let same = IsQuiet-refl now guard in
    elim (Bool-cases known) [
      | inl old ↦ rw (old, ensure_tracking_capacity) same
      | inr new ↦ elim (Bool-cases full) [
        | inl f ↦ rw (new, f, ensure_tracking_capacity) refreshed
        | inr f ↦ rw (new, f, ensure_tracking_capacity) refreshed
      ]
    ]
  where
    known : Bool
    known =
        has (lookup subject_key_discrete (tenant_id, subject) guard.subject_windows)
        && has (lookup string_discrete tenant_id guard.tenant_windows)

    full : Bool
    full = leb guard.limits.max_tracked_keys (tracked (cleanup_stale_windows guard now))

-- A window that is replaced by its pruned form has dropped stale entries; the others are untouched.
Drops-insert-prune :
    {K : Type 0} (dec : Discrete K) (span now : ℕ) (k j : K) (windows : List (K × List ℕ))
    → Drops span now (window_or_empty (lookup dec j windows)) (
        window_or_empty (
          lookup dec j
            (insert dec k (prune span now (window_or_empty (lookup dec k windows))) windows)))
Drops-insert-prune dec span now k j windows =
    rw (lookup-insert dec j k (prune span now (window_or_empty (lookup dec k windows))) windows)
      (elim (dec j k) [
        | yes p ↦
            rw (if_pos _ p) (rw p (prune-Drops span now (window_or_empty (lookup dec k windows))))
        | no n ↦ rw (if_neg _ n) (Drops-refl span now (window_or_empty (lookup dec j windows)))
      ])

pub open_windows-IsQuiet :
    (guard : TrafficGuard) (tenant_id subject : String) (now : ℕ)
    → IsQuiet now guard (open_windows guard tenant_id subject now)
unfolding open_windows
open_windows-IsQuiet guard tenant_id subject now = record {
  limits = refl;
  global_active = refl;
  tenant_active = refl;
  subjects = λ key.
      Drops-insert-prune subject_key_discrete span now (tenant_id, subject) key
        guard.subject_windows;
  tenants = λ t. Drops-insert-prune string_discrete span now tenant_id t guard.tenant_windows;
  distinct = λ d. record {
    subjects =
        insert-IsDict subject_key_discrete (tenant_id, subject) _ guard.subject_windows d.subjects;
    tenants = insert-IsDict string_discrete tenant_id _ guard.tenant_windows d.tenants;
    actives = d.actives;
  };
}
  where
    span : ℕ
    span = window_ticks guard.limits
