-- ===== src/Traffic/Windows.antt =====
-- agent/api/traffic.py: what pruning and cleaning up do to a window. They only drop entries from
-- the front that have left the sliding window.
use ai_native_governed_data.Prelude.{
  ℕ, ◌+◌, ◌≤◌, ◌≡◌, refl, ap, ◌∙◌, sym, none, List, [], ◌∷◌, ◌++◌, leb, leb→le, Bool-cases, inl,
  inr, length, All, All-append, arith,
}
use ai_native_governed_data.Prelude.Dict.{lookup, IsDict}
use ai_native_governed_data.Traffic.{prune, cleanup, window_or_empty}
use mathlib.Core.List.{append_assoc}

-- An admission at time `t` no longer counts at time `now`.
abbrev pub IsStale : ℕ → ℕ → ℕ → Type 0
IsStale span now t = t + span ≤ now

-- The second window is the first without some stale entries at its front.
abbrev pub Drops : ℕ → ℕ → List ℕ → List ℕ → Type 0
Drops span now before after = (old : List ℕ) × (before ≡ old ++ after) × All (IsStale span now) old

pub Drops-refl : (span now : ℕ) (window : List ℕ) → Drops span now window window
Drops-refl span now window = ([], refl, tt)

pub Drops-trans :
    (span now : ℕ) (a b c : List ℕ) → Drops span now a b → Drops span now b c → Drops span now a c
Drops-trans span now a b c (old, e, h) (more, f, k) = (
  old ++ more,
  e ∙ ap (◌++◌ old) f ∙ sym (append_assoc old more c),
  All-append (IsStale span now) old more h k,
)

pub prune-Drops : (span now : ℕ) (window : List ℕ) → Drops span now window (prune span now window)
unfolding prune
prune-Drops span now [] = ([], refl, tt)
prune-Drops span now (t ∷ window) = elim (Bool-cases (leb (t + span) now)) [
  | inl stale ↦
      let (old, e, h) = prune-Drops span now window in
      rw (stale, prune) (t ∷ old, ap (◌∷◌ t) e, (leb→le _ _ stale, h))
  | inr fresh ↦ rw (fresh, prune) ([], refl, tt)
]

pub length-prune-le :
    (span now : ℕ) (window : List ℕ) → length (prune span now window) ≤ length window
unfolding prune
length-prune-le span now [] = omega arith
length-prune-le span now (t ∷ window) = ground (arith, length-prune-le span now window)

module _ {K : Type 0} (dec : Discrete K) (span now : ℕ) where
  -- Cleaning up prunes every window, and keeps the windows that are not empty then.
  pub lookup-cleanup :
      (k : K) (windows : List (K × List ℕ))
      → IsDict dec windows
      → window_or_empty (lookup dec k (cleanup span now windows))
        ≡ prune span now (window_or_empty (lookup dec k windows))
  unfolding cleanup lookup prune
  lookup-cleanup k [] h = refl
  lookup-cleanup k ((j, w) ∷ windows) h = ground (arith, lookup-cleanup k windows h.1)

  pub length-cleanup-le :
      (windows : List (K × List ℕ)) → length (cleanup span now windows) ≤ length windows
  unfolding cleanup
  length-cleanup-le [] = omega arith
  length-cleanup-le ((j, w) ∷ windows) = ground (arith, length-cleanup-le windows)

  lookup-cleanup-eq-none :
      (k : K) (windows : List (K × List ℕ))
      → lookup dec k windows ≡ none
      → lookup dec k (cleanup span now windows) ≡ none
  unfolding cleanup lookup
  lookup-cleanup-eq-none k [] h = refl
  lookup-cleanup-eq-none k ((j, w) ∷ windows) h = ground (arith, lookup-cleanup-eq-none k windows)

  pub cleanup-IsDict :
      (windows : List (K × List ℕ)) → IsDict dec windows → IsDict dec (cleanup span now windows)
  unfolding cleanup lookup
  cleanup-IsDict [] h = tt
  cleanup-IsDict ((j, w) ∷ windows) h =
      ground (arith, cleanup-IsDict windows h.1, lookup-cleanup-eq-none j windows h.0)
