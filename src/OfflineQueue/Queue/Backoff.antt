-- ===== src/OfflineQueue/Queue/Backoff.antt =====
-- The ceiling of the retry delay (packages/browser/src/queue/queue.ts).
use native.Mathlib.Nat.{pow-suc}
use ironflow_js.Prelude.{ℕ, suc, ◌*◌, ◌^◌, ◌≤◌, ◌≡◌, arith}
use ironflow_js.OfflineQueue.Queue.{Options, retry_ceiling}

doubled : (b a : ℕ) → b * 2 ^ suc a ≡ 2 * (b * 2 ^ a)
doubled b a = rw pow-suc (omega arith)

-- The ceiling is at most `backoffMaxMs`, never falls from one attempt to the next, and at most
-- doubles.
pub retry_ceiling_bounds :
    (o : Options) (a : ℕ)
    → (retry_ceiling o a ≤ o.backoff_max_ms)
      × (retry_ceiling o a ≤ retry_ceiling o (suc a))
      × (retry_ceiling o (suc a) ≤ 2 * retry_ceiling o a)
unfolding retry_ceiling
retry_ceiling_bounds o a = rw (doubled o.backoff_initial_ms a) (omega arith)
