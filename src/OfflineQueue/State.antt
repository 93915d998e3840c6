-- ===== src/OfflineQueue/State.antt =====
-- The whole of one tab: the queue, its database, and every call of queue.ts that is suspended at an
-- await. A step of the system is one IndexedDB transaction, or the code between two awaits.
use ironflow_js.Prelude.{ℕ, String, Bool, true, false, not, ◌||◌, Option, List, [], if◌then◌else◌}
use ironflow_js.OfflineQueue.Types.{
  NewQueuedWrite, QueuedWrite, DeadLetteredWrite, paused, blocked, idle, WriteStatus,
}
use ironflow_js.OfflineQueue.Db.{Db, Usage, usage, count_dead_lettered, has_future_records}
use ironflow_js.OfflineQueue.Queue.{
  Queue, new_queue, Mark, counter_mark, schedule_retry, clear_retry, commit_refresh,
}

-- Where `drain` and `drainSession` are suspended. `reading` and `got` are before and behind the read
-- of the head, `removing` and `removed` before and behind the commit of `db.remove`, and so on.
pub data Drainer : Type 0 where
  resting locking reauthenticating : Drainer
  reading : Mark → Drainer
  got : Mark → Option QueuedWrite → Drainer
  sending removing removed : QueuedWrite → Drainer
  retiring retired trimming trimmed tallying : DeadLetteredWrite → Drainer

-- Where `refreshCounters` is suspended.
pub data Refresher : Type 0 where
  quiet : Refresher
  marked : Mark → Refresher
  measured : Mark → Usage → Refresher

-- What the watchers of a localId and `onWriteLost` are told.
pub data Notice : Type 0 where
  notify : String → WriteStatus → Notice
  write_lost : DeadLetteredWrite → Notice

pub record System : Type 0 where
  pub queue : Queue
  pub db : Db
  -- calls of `enqueue` before and behind the commit of their `append`
  pub appending : List NewQueuedWrite
  pub appended : ℕ
  -- calls of `retry`: the requeue is issued, its counters are due, its count is due
  pub requeuing : List String
  pub counting : List QueuedWrite
  pub requeued : ℕ
  -- calls of `discard` before and behind their commit
  pub discarding : List String
  pub discarded : ℕ
  -- calls of `retry` and `discard` that found nothing
  pub missed : ℕ
  pub drainer : Drainer
  pub may_reauthenticate : Bool
  pub refresher : Refresher
  -- what the server has accepted, what was moved to the dead letters, and what the application was
  -- told, oldest first
  pub accepted : List QueuedWrite
  pub lettered : List QueuedWrite
  pub notices : List Notice

-- The part of `drain()` before its first await.
unfoldable pub request_drain : System → System
request_drain s =
    let q = s.queue in
    if q.stopped || not q.started
    then s
    else if q.draining
    then record s { queue = record q { drain_requested = true } }
    else record s {
      queue = record q { draining = true; session_total = q.pending; drain_requested = false };
      may_reauthenticate = true;
      drainer = locking;
    }

-- `return` from `drain`, with its `finally`.
unfoldable pub rest : System → System
rest s = record s { queue = record (s.queue) { draining = false }; drainer = resting }

unfoldable pub back_off : System → System
unfolding rest schedule_retry
back_off s = rest (record s { queue = schedule_retry s.queue })

-- The `catch` of `drain`.
unfoldable pub fail : System → System
unfolding back_off
fail s = back_off (record s { queue = record (s.queue) { state = paused } })

-- `start`, once the database is open and its counters are read.
unfoldable pub start : String → Db → System
unfolding request_drain new_queue usage count_dead_lettered has_future_records
start identity db = request_drain (record {
  queue = record (new_queue identity) {
    started = true;
    pending = (usage db).count;
    bytes = (usage db).bytes;
    dead_lettered = count_dead_lettered db;
    state = if has_future_records db then blocked else idle;
  };
  db = db;
  appending = [];
  appended = 0;
  requeuing = [];
  counting = [];
  requeued = 0;
  discarding = [];
  discarded = 0;
  missed = 0;
  drainer = resting;
  may_reauthenticate = true;
  refresher = quiet;
  accepted = [];
  lettered = [];
  notices = [];
})

-- The timer of `scheduleRetry`.
unfoldable pub timer_fires : System → System
unfolding request_drain
timer_fires s =
    if s.queue.retry_armed
    then request_drain (record s { queue = record (s.queue) { retry_armed = false } })
    else s

unfoldable pub flush : System → System
unfolding request_drain clear_retry
flush s = request_drain (record s { queue = record (clear_retry s.queue) { attempt = 0 } })

-- `stop` up to its wait, and behind it.
unfoldable pub stop : System → System
unfolding clear_retry
stop s = record s { queue = clear_retry (record (s.queue) { stopped = true }) }

unfoldable pub close : System → System
close s = if s.queue.stopped then record s { queue = record (s.queue) { started = false } } else s

-- `requestRefresh` and the start of `refreshCounters`.
unfoldable pub request_refresh : System → System
unfolding counter_mark
request_refresh s =
    let q = s.queue in
    if q.stopped || (not q.started || q.refresh_queued) then s else record s {
      queue = record q { refresh_queued = true };
      refresher = marked (counter_mark q);
    }

unfoldable pub refresh_reads : System → System
unfolding usage
refresh_reads s = elim s.refresher [
  | quiet ↦ s
  | marked m ↦ record s { refresher = measured m (usage s.db) }
  | measured m u ↦ s
]

-- The rest of the pass, with the `finally` of `requestRefresh`.
unfoldable pub drain_if_blocked : System → System
unfolding request_drain
drain_if_blocked s = elim s.queue.state [ blocked ↦ request_drain s | _ ↦ s ]

unfoldable pub commit_at : Refresher → System → System
unfolding commit_refresh count_dead_lettered drain_if_blocked
commit_at (measured m u) s = drain_if_blocked (record s {
  queue = record (commit_refresh m u (count_dead_lettered s.db) s.queue) { refresh_queued = false };
  refresher = quiet;
})
commit_at _ s = s

unfoldable pub refresh_commits : System → System
unfolding commit_at
refresh_commits s = commit_at s.refresher s

-- A read of the pass fails: only the `finally` runs.
unfoldable pub refresh_fails : System → System
unfolding drain_if_blocked
refresh_fails s =
    drain_if_blocked
      (record s { queue = record (s.queue) { refresh_queued = false }; refresher = quiet })
