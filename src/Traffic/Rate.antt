-- ===== src/Traffic/Rate.antt =====
-- agent/api/traffic.py: the sliding-window rate limits, against the history of admissions.
use ai_native_governed_data.Prelude.{
  ℕ, ◌+◌, ◌≤◌, ◌<◌, ◌≡◌, ◌∙◌, ap, sym, refl, String, List, [], ◌∷◌, ◌++◌, ite, if_pos, if_neg,
  strip, string_discrete, arith, ltb, keep, length, length-append, All,
}
use ai_native_governed_data.Prelude.Dict.{lookup, insert, lookup-insert}
use ai_native_governed_data.Traffic.{
  TrafficGuard, SubjectKey, subject_key_discrete, admitted, window_ticks, window_or_empty,
  subject_window, tenant_window, take_slot,
}
use ai_native_governed_data.Traffic.Windows.{IsStale, Drops, Drops-trans}
use ai_native_governed_data.Traffic.Outcome.{IsDistinct, IsQuiet, Admits}
use ai_native_governed_data.Traffic.Counters.{same_limits}
use ai_native_governed_data.Traffic.Counters.Held.{take_slot-IsDistinct}
use ai_native_governed_data.Traffic.Serving.{
  Entry, World, on_answer, times_of_subject, times_of_tenant,
}
use mathlib.Core.List.{append_assoc, append-nil}

-- The admissions that count at time `now`.
abbrev pub recent : ℕ → ℕ → List ℕ → List ℕ
recent span now = keep (λ t. ltb now (t + span))

pub recent_old :
    (span now : ℕ) (old window : List ℕ)
    → All (IsStale span now) old
    → recent span now (old ++ window) ≡ recent span now window
recent_old span now [] window h = refl
recent_old span now (t ∷ old) window h = ground (arith, recent_old span now old window h.1)

pub length-recent-le :
    (span now : ℕ) (window : List ℕ) → length (recent span now window) ≤ length window
length-recent-le span now [] = omega arith
length-recent-le span now (t ∷ window) = ground (arith, length-recent-le span now window)

All-later :
    (span clock now : ℕ) (old : List ℕ)
    → clock ≤ now
    → All (IsStale span clock) old
    → All (IsStale span now) old
All-later span clock now [] le h = tt
All-later span clock now (t ∷ old) le h =
    (omega (arith, le, h.0), All-later span clock now old le h.1)

pub Drops-later :
    (span clock now : ℕ) (before after : List ℕ)
    → clock ≤ now
    → Drops span clock before after
    → Drops span now before after
Drops-later span clock now before after le (old, e, h) = (old, e, All-later span clock now old le h)

Drops-append :
    (span now : ℕ) (before after more : List ℕ)
    → Drops span now before after
    → Drops span now (before ++ more) (after ++ more)
Drops-append span now before after more (old, e, h) =
    (old, ap (λ l. l ++ more) e ∙ append_assoc old after more, h)

abbrev pub span_of : World → ℕ
span_of w = window_ticks w.guard.limits

-- The windows hold the admissions of the history but for stale ones, and no more than the limits.
pub record IsLimited (w : World) : Type 0 where
  pub distinct : IsDistinct w.guard
  pub subjects :
      (key : SubjectKey)
      → Drops (span_of w) w.clock (times_of_subject key w.history) (subject_window w.guard key)
  pub tenants :
      (t : String)
      → Drops (span_of w) w.clock (times_of_tenant t w.history) (tenant_window w.guard t)
  pub subject_rpm :
      (key : SubjectKey) → length (subject_window w.guard key) ≤ w.guard.limits.subject_rpm
  pub tenant_rpm : (t : String) → length (tenant_window w.guard t) ≤ w.guard.limits.tenant_rpm

pub length-Drops-le :
    (span now : ℕ) (before after : List ℕ)
    → Drops span now before after
    → length after ≤ length before
length-Drops-le span now before after (old, e, h) =
    omega (arith, ap (length {0}) e, length-append {0} old after)

pub on_quiet :
    (w : World) (guard : TrafficGuard) (now : ℕ)
    → w.clock ≤ now
    → IsQuiet now w.guard guard
    → IsLimited w
    → IsLimited (record w { guard = guard; clock = now })
on_quiet w guard now le q c = record {
  distinct = q.distinct c.distinct;
  subjects = λ key. rw q.limits (
      Drops-trans (span_of w) now (times_of_subject key w.history) (subject_window w.guard key)
        (subject_window guard key) (Drops-later (span_of w) w.clock now _ _ le (c.subjects key))
        (q.subjects key));
  tenants = λ t. rw q.limits (
      Drops-trans (span_of w) now (times_of_tenant t w.history) (tenant_window w.guard t)
        (tenant_window guard t) (Drops-later (span_of w) w.clock now _ _ le (c.tenants t))
        (q.tenants t));
  subject_rpm = λ key.
      rw q.limits (omega (arith, length-Drops-le _ _ _ _ (q.subjects key), c.subject_rpm key));
  tenant_rpm =
      λ t. rw q.limits (omega (arith, length-Drops-le _ _ _ _ (q.tenants t), c.tenant_rpm t));
}

abbrev entry : String → String → ℕ → Entry
entry tenant subject now = record { tenant_id = tenant; subject = subject; time = now }

times_of_subject-snoc :
    (key : SubjectKey) (history : List Entry) (u s : String) (now : ℕ)
    → times_of_subject key (history ++ entry u s now ∷ [])
      ≡ times_of_subject key history ++ ite (subject_key_discrete key (u, s)) (now ∷ []) []
times_of_subject-snoc key [] u s now = refl
times_of_subject-snoc key (e ∷ history) u s now =
    ground (arith, times_of_subject-snoc key history u s now)

times_of_tenant-snoc :
    (t : String) (history : List Entry) (u s : String) (now : ℕ)
    → times_of_tenant t (history ++ entry u s now ∷ [])
      ≡ times_of_tenant t history ++ ite (string_discrete t u) (now ∷ []) []
times_of_tenant-snoc t [] u s now = refl
times_of_tenant-snoc t (e ∷ history) u s now =
    ground (arith, times_of_tenant-snoc t history u s now)

-- An admission is written at the end of its own window, and nowhere else.
window-insert :
    {K : Type 0} (dec : Discrete K) (j k : K) (t : ℕ) (windows : List (K × List ℕ))
    → window_or_empty
        (lookup dec j (insert dec k (window_or_empty (lookup dec k windows) ++ t ∷ []) windows))
      ≡ window_or_empty (lookup dec j windows) ++ ite (dec j k) (t ∷ []) []
window-insert dec j k t windows = ground (
  arith,
  lookup-insert dec j k (window_or_empty (lookup dec k windows) ++ t ∷ []) windows,
  append-nil (window_or_empty (lookup dec j windows)),
)

subject_window-take_slot :
    (guard : TrafficGuard) (key : SubjectKey) (u s : String) (now : ℕ)
    → subject_window (take_slot guard u s now) key
      ≡ subject_window guard key ++ ite (subject_key_discrete key (u, s)) (now ∷ []) []
unfolding take_slot
subject_window-take_slot guard key u s now =
    window-insert subject_key_discrete key (u, s) now guard.subject_windows

tenant_window-take_slot :
    (guard : TrafficGuard) (t u s : String) (now : ℕ)
    → tenant_window (take_slot guard u s now) t
      ≡ tenant_window guard t ++ ite (string_discrete t u) (now ∷ []) []
unfolding take_slot
tenant_window-take_slot guard t u s now = window-insert string_discrete t u now guard.tenant_windows

length-snoc-le :
    {K : Type 0} (dec : Discrete K) (window : K → List ℕ) (cap now : ℕ) (j k : K)
    → length (window k) < cap
    → length (window j) ≤ cap
    → length (window j ++ ite (dec j k) (now ∷ []) []) ≤ cap
length-snoc-le dec window cap now j k free h = elim (dec j k) [
  | yes p ↦
      rw (if_pos (dec j k) p (now ∷ []) [])
        (omega (arith, length-append {0} (window j) (now ∷ []), rw (sym p) at free))
  | no n ↦ rw (if_neg (dec j k) n (now ∷ []) []) (omega (arith, length-append {0} (window j) [], h))
]

module _ (w : World) (tenant subject : String) (guard : TrafficGuard) (now : ℕ)
    (a : Admits w.guard (strip tenant) (strip subject) now guard) where
  -- A request that is admitted.
  pub on_admits :
      w.clock ≤ now
      → IsLimited w
      → IsLimited (on_answer w tenant subject now guard (admitted (strip tenant)))
  unfolding on_answer
  on_admits le c = record {
    distinct = rw a.taken (take_slot-IsDistinct a.ready u s now (a.quiet.distinct c.distinct));
    subjects = λ key.
        rw
          (
            same_limits w tenant subject guard now a,
            times_of_subject-snoc key w.history u s now,
            a.taken,
            subject_window-take_slot a.ready key u s now,
          )
          (Drops-append (span_of w) now (times_of_subject key w.history)
            (subject_window a.ready key) (ite (subject_key_discrete key (u, s)) (now ∷ []) [])
            (rw a.quiet.limits at ((on_quiet w a.ready now le a.quiet c).subjects key)));
    tenants = λ t.
        rw
          (
            same_limits w tenant subject guard now a,
            times_of_tenant-snoc t w.history u s now,
            a.taken,
            tenant_window-take_slot a.ready t u s now,
          )
          (Drops-append (span_of w) now (times_of_tenant t w.history) (tenant_window a.ready t)
            (ite (string_discrete t u) (now ∷ []) [])
            (rw a.quiet.limits at ((on_quiet w a.ready now le a.quiet c).tenants t)));
    subject_rpm = λ key.
        rw
          (
            same_limits w tenant subject guard now a,
            a.taken,
            subject_window-take_slot a.ready key u s now,
          )
          (length-snoc-le subject_key_discrete (subject_window a.ready) w.guard.limits.subject_rpm
            now key (u, s) (rw a.quiet.limits at a.subject_free)
            (rw a.quiet.limits at ((on_quiet w a.ready now le a.quiet c).subject_rpm key)));
    tenant_rpm = λ t.
        rw
          (
            same_limits w tenant subject guard now a,
            a.taken,
            tenant_window-take_slot a.ready t u s now,
          )
          (length-snoc-le string_discrete (tenant_window a.ready) w.guard.limits.tenant_rpm now t u
            (rw a.quiet.limits at a.tenant_free)
            (rw a.quiet.limits at ((on_quiet w a.ready now le a.quiet c).tenant_rpm t)));
  }
    where
      u : String
      u = strip tenant

      s : String
      s = strip subject
