-- ===== src/OfflineQueue/System/Stopped.antt =====
-- A stopped queue at rest stays at rest.
use ironflow_js.Prelude.{◌≡◌, true, List, [], ◌∷◌, arith}
use ironflow_js.OfflineQueue.Queue.{Options}
use ironflow_js.OfflineQueue.State
use ironflow_js.OfflineQueue.State.{System, resting}
use ironflow_js.OfflineQueue.Enqueue
use ironflow_js.OfflineQueue.Letters
use ironflow_js.OfflineQueue.Drain
use ironflow_js.OfflineQueue.System.{Event, step, run}

pub record IsStopped (s : System) : Type 0 where
  pub stopped : s.queue.stopped ≡ true
  pub at_rest : s.drainer ≡ resting

step-IsStopped :
    (o : Options) (e : Event) (s : System)
    → IsStopped s
    → IsStopped (step o e s)
      × ((step o e s).accepted ≡ s.accepted)
      × ((step o e s).lettered ≡ s.lettered)
unfolding step Enqueue.enqueue Enqueue.append_commits Enqueue.append_aborts Enqueue.append_settles
    State.request_drain State.flush State.timer_fires State.stop State.close Drain.lock_answers
    Drain.head_reads Drain.head_fails Drain.head_decides Drain.send_succeeds Drain.send_fails
    Drain.remove_commits Drain.remove_aborts Drain.remove_settles Drain.retire_commits
    Drain.retire_continues Drain.trim_commits Drain.trim_continues Drain.tally_settles
    Drain.retire_aborts Drain.reauthenticates State.request_refresh State.refresh_reads
    State.refresh_commits State.refresh_fails Letters.retry Letters.requeue_commits
    Letters.requeue_aborts Letters.requeue_counts Letters.requeue_settles Letters.discard
    Letters.discard_commits Letters.discard_aborts Letters.discard_settles Letters.miss_settles
step-IsStopped o (Event.enqueue i) s h = ground arith
step-IsStopped o _ s h = ground arith

-- Once `stop` was called and no drain is suspended, no later event sends a write, moves one to the
-- dead letters or starts a drain again.
pub stop_is_final :
    (o : Options) (es : List Event) (s : System)
    → IsStopped s
    → IsStopped (run o es s)
      × ((run o es s).accepted ≡ s.accepted)
      × ((run o es s).lettered ≡ s.lettered)
unfolding run
stop_is_final o [] s h = ground arith
stop_is_final o (e ∷ es) s h =
    ground
      (arith, step-IsStopped o e s h, stop_is_final o es (step o e s) (step-IsStopped o e s h).0)
