-- ===== src/OfflineQueue/System/Caps.antt =====
-- The cap on items holds over every schedule: only the requeue of a dead letter passes it.
use ironflow_js.Prelude.{ℕ, ◌+◌, ◌≤◌, ◌≡◌, String, List, [], ◌∷◌, length, arith}
use ironflow_js.OfflineQueue.Db.{Db, bytes_of}
use ironflow_js.OfflineQueue.Queue.{Options}
use ironflow_js.OfflineQueue.State
use ironflow_js.OfflineQueue.State.{System, start}
use ironflow_js.OfflineQueue.Enqueue
use ironflow_js.OfflineQueue.Letters
use ironflow_js.OfflineQueue.Drain
use ironflow_js.OfflineQueue.System.{Event, step, run}
use ironflow_js.OfflineQueue.System.Counters.{
  IsCounted, bytes_of_none, step-IsCounted, run-IsCounted, start-IsCounted,
}

-- The number of requeued dead letters that a schedule counts.
abbrev pub recount : Event → ℕ
recount Event.requeue_counts = 1
recount _ = 0

abbrev pub recounts : List Event → ℕ
recounts [] = 0
recounts (e ∷ es) = recount e + recounts es

step-pending-le :
    (o : Options) (e : Event) (s : System) (n : ℕ)
    → o.max_items ≤ n
    → IsCounted s
    → s.queue.pending ≤ n
    → (step o e s).queue.pending ≤ n + recount e
unfolding step Enqueue.enqueue Enqueue.append_commits Enqueue.append_aborts Enqueue.append_settles
    State.request_drain State.flush State.timer_fires State.stop State.close Drain.lock_answers
    Drain.head_reads Drain.head_fails Drain.head_decides Drain.send_succeeds Drain.send_fails
    Drain.remove_commits Drain.remove_aborts Drain.remove_settles Drain.retire_commits
    Drain.retire_continues Drain.trim_commits Drain.trim_continues Drain.tally_settles
    Drain.retire_aborts Drain.reauthenticates State.request_refresh State.refresh_reads
    State.refresh_commits State.refresh_fails Letters.retry Letters.requeue_commits
    Letters.requeue_aborts Letters.requeue_counts Letters.requeue_settles Letters.discard
    Letters.discard_commits Letters.discard_aborts Letters.discard_settles Letters.miss_settles
step-pending-le o (Event.enqueue i) s n m h k = ground arith
step-pending-le o _ s n m h k = ground arith

run-pending-le :
    (o : Options) (es : List Event) (s : System) (n : ℕ)
    → o.max_items ≤ n
    → IsCounted s
    → s.queue.pending ≤ n
    → (run o es s).queue.pending ≤ n + recounts es
unfolding run
run-pending-le o [] s n m h k = omega arith
run-pending-le o (e ∷ es) s n m h k = omega (
  arith,
  run-pending-le o es (step o e s) (n + recount e) (omega arith) (step-IsCounted o e s h)
      (step-pending-le o e s n m h k),
)

start-pending : (identity : String) (db : Db) → (start identity db).queue.pending ≡ length db.outbox
unfolding start
start-pending identity db = ground arith

-- From the start on a database that is within the cap, after any events, the outbox holds at most
-- `maxItems` records, plus one for each requeued dead letter.
pub outbox_capped :
    (o : Options) (identity : String) (db : Db) (es : List Event)
    → length db.outbox ≤ o.max_items
    → let s = run o es (start identity db) in
      length s.db.outbox ≤ o.max_items + recounts es + length s.counting
outbox_capped o identity db es h = omega (
  arith,
  run-IsCounted o es (start identity db) (start-IsCounted identity db),
  run-pending-le o es (start identity db) o.max_items (omega arith) (start-IsCounted identity db)
      (omega (arith, start-pending identity db)),
)

step-bytes-le :
    (o : Options) (e : Event) (s : System)
    → IsCounted s
    → recount e ≡ 0
    → s.queue.bytes ≤ o.max_bytes
    → (step o e s).queue.bytes ≤ o.max_bytes
unfolding step-pending-le
step-bytes-le o (Event.enqueue i) s h f k = ground arith
step-bytes-le o _ s h f k = ground (arith, bytes_of_none s.counting)

run-bytes-le :
    (o : Options) (es : List Event) (s : System)
    → IsCounted s
    → recounts es ≡ 0
    → s.queue.bytes ≤ o.max_bytes
    → (run o es s).queue.bytes ≤ o.max_bytes
unfolding run
run-bytes-le o [] s h f k = k
run-bytes-le o (e ∷ es) s h f k =
    run-bytes-le o es (step o e s) (step-IsCounted o e s h) (omega arith)
      (step-bytes-le o e s h (omega arith) k)

start-bytes : (identity : String) (db : Db) → (start identity db).queue.bytes ≡ bytes_of db.outbox
unfolding start
start-bytes identity db = ground arith

-- From the start on a database that is within the cap, after any events that count no requeued dead
-- letter, the bodies in the outbox have at most `maxBytes` bytes, plus those of the requeued records
-- whose counters are due.
pub bytes_capped :
    (o : Options) (identity : String) (db : Db) (es : List Event)
    → bytes_of db.outbox ≤ o.max_bytes
    → recounts es ≡ 0
    → let s = run o es (start identity db) in
      bytes_of s.db.outbox ≤ o.max_bytes + bytes_of s.counting
bytes_capped o identity db es h f = omega (
  arith,
  run-IsCounted o es (start identity db) (start-IsCounted identity db),
  run-bytes-le o es (start identity db) (start-IsCounted identity db) f
      (omega (arith, start-bytes identity db)),
)
