-- ===== src/Traffic/Retry.antt =====
-- agent/api/traffic.py: the retry hint, and what a refusal for the subject's rate means.
use ai_native_governed_data.Prelude.{ℕ, ◌+◌, ◌*◌, ◌≤◌, ◌<◌, ◌≡◌, List, ◌∷◌, arith}
use ai_native_governed_data.Traffic.{prune, retry_after, ticks_per_second}

-- If the oldest admission of a window still counts, the hint of `_retry_after` is at least a
-- second, after that many seconds the admission has left the window, and the hint is at most one
-- second longer than the time until it leaves.
pub retry_after_lem :
    (span now t : ℕ) (window : List ℕ)
    → now < t + span
    → (1 ≤ retry_after span now (t ∷ window))
      × (prune span (now + retry_after span now (t ∷ window) * ticks_per_second) (t ∷ window)
          ≡ prune span (now + retry_after span now (t ∷ window) * ticks_per_second) window)
      × (now + retry_after span now (t ∷ window) * ticks_per_second ≤ t + span + ticks_per_second)
unfolding retry_after prune
retry_after_lem span now t window h = (omega arith, ground arith, omega arith)
