-- ===== src/OfflineQueue/Queue/Triage.antt =====
-- What the drainer sends, and how it reads a failure (packages/browser/src/queue/queue.ts).
use ironflow_js.Prelude.{
  ℕ, ◌-◌, ◌≤◌, ◌≡◌, ◌≢◌, ◌↔◌, ◌⊎◌, String, Bool, false, Option, none, some, eq_iff, arith,
}
use ironflow_js.OfflineQueue.Types.{QueuedWrite}
use ironflow_js.OfflineQueue.Queue.{
  Options, Destination, Verdict, triage, ironflow_error, Disposition, classify_failure,
}

-- The head is sent to `path` exactly when this build can read it, it was queued under the current
-- identity, within the retention time, for the current server and environment, and `path` is the
-- endpoint of its kind.
pub triage-send_iff :
    (o : Options) (identity : String) (now : ℕ) (dest : Destination) (w : QueuedWrite)
    (path : String)
    → (triage o identity now dest w ≡ Verdict.send path) ↔ (
        (w.v ≤ 1)
        × (w.identity ≡ identity)
        × (now - w.enqueued_at ≤ o.max_retention_ms)
        × (w.server_url ≡ dest.server_url)
        × (w.environment ≡ dest.environment)
        × (o.resolve_path w.kind ≡ some path))
unfolding triage
triage-send_iff o identity now dest w path = ground (
  arith,
  eq_iff w.identity identity,
  eq_iff w.server_url dest.server_url,
  eq_iff w.environment dest.environment,
)

-- The queue pauses for a new login exactly on status 401 or code "unauthenticated", whatever the
-- other says; without these a failure is poison exactly when it is an IronflowError that is not
-- retryable.
pub classify_failure_iff :
    (status : Option ℕ) (code text : String) (retryable : Bool)
    → let d = classify_failure (ironflow_error status code retryable text) in
      ((d ≡ Disposition.auth) ↔ ((status ≡ some 401) ⊎ (code ≡ "unauthenticated")))
      × ((d ≡ Disposition.poison)
          ↔ ((status ≢ some 401) × (code ≢ "unauthenticated") × (retryable ≡ false)))
unfolding classify_failure
classify_failure_iff none code text retryable = ground (arith, eq_iff code "unauthenticated")
classify_failure_iff (some n) code text retryable = ground (arith, eq_iff code "unauthenticated")
