-- ===== src/OfflineQueue/System/Counters/Calls.antt =====
-- The calls of `enqueue` keep the counters in step with the store.
use ironflow_js.Prelude.{arith}
use ironflow_js.OfflineQueue.Queue.{Options}
use ironflow_js.OfflineQueue.Enqueue
use ironflow_js.OfflineQueue.Enqueue.{EnqueueInput}
use ironflow_js.OfflineQueue.State.{System}
use ironflow_js.OfflineQueue.System.Counters.Invariant.{IsCounted, store_laws}

pub enqueue-IsCounted :
    (o : Options) (i : EnqueueInput) (s : System)
    → IsCounted s
    → IsCounted ((Enqueue.enqueue o i s).0)
unfolding Enqueue.enqueue
enqueue-IsCounted o i s h = grind (arith, store_laws)

pub append_commits-IsCounted : (s : System) → IsCounted s → IsCounted (Enqueue.append_commits s)
unfolding Enqueue.append_commits
append_commits-IsCounted s h = grind (arith, store_laws)

pub append_aborts-IsCounted : (s : System) → IsCounted s → IsCounted (Enqueue.append_aborts s)
unfolding Enqueue.append_aborts
append_aborts-IsCounted s h = grind (arith, store_laws)

pub append_settles-IsCounted : (s : System) → IsCounted s → IsCounted (Enqueue.append_settles s)
unfolding Enqueue.append_settles
append_settles-IsCounted s h = grind (arith, store_laws)
