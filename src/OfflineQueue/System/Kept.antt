-- ===== src/OfflineQueue/System/Kept.antt =====
-- No write is lost on the way: it is stored, accepted by the server, or moved to the dead letters.
use ironflow_js.Prelude.{ℕ, ◌≤◌, ◌<◌, ◌≡◌, true, ◌||◌, String, List, [], ◌∷◌, arith}
use ironflow_js.OfflineQueue.Types.{QueuedWrite}
use ironflow_js.OfflineQueue.Db.{Db}
use ironflow_js.OfflineQueue.Db.Order.{has_seq, has_seq-append, has_seq-without_seq}
use ironflow_js.OfflineQueue.Queue.{Options}
use ironflow_js.OfflineQueue.State
use ironflow_js.OfflineQueue.State.{System, Drainer, removing, start}
use ironflow_js.OfflineQueue.Enqueue
use ironflow_js.OfflineQueue.Letters
use ironflow_js.OfflineQueue.Drain
use ironflow_js.OfflineQueue.System.{Event, step, run}

-- A record is removed only behind its acceptance.
abbrev WasAccepted : Drainer → List QueuedWrite → Type 0
WasAccepted (removing w) l = has_seq w.seq l ≡ true
WasAccepted _ l = Unit {0}

record IsKept (first : ℕ) (s : System) : Type 0 where
  accepted_first : WasAccepted s.drainer s.accepted
  kept :
      (k : ℕ)
      → first ≤ k
      → k < s.db.next_key
      → (has_seq k s.db.outbox || (has_seq k s.accepted || has_seq k s.lettered)) ≡ true

module _ (first : ℕ) where
  append_commits-IsKept : (s : System) → IsKept first s → IsKept first (Enqueue.append_commits s)
  unfolding Enqueue.append_commits
  append_commits-IsKept s h = grind (arith, has_seq-append)

  requeue_commits-IsKept :
      (now : ℕ) (s : System) → IsKept first s → IsKept first (Letters.requeue_commits now s)
  unfolding Letters.requeue_commits
  requeue_commits-IsKept now s h = grind (arith, has_seq-append)

  send_succeeds-IsKept : (s : System) → IsKept first s → IsKept first (Drain.send_succeeds s)
  unfolding Drain.send_succeeds
  send_succeeds-IsKept s h = grind (arith, has_seq-append)

  remove_commits-IsKept : (s : System) → IsKept first s → IsKept first (Drain.remove_commits s)
  unfolding Drain.remove_commits
  remove_commits-IsKept s h = grind (arith, has_seq-without_seq)

  retire_commits-IsKept : (s : System) → IsKept first s → IsKept first (Drain.retire_commits s)
  unfolding Drain.retire_commits
  retire_commits-IsKept s h = grind (arith, has_seq-append, has_seq-without_seq)

  step-IsKept : (o : Options) (e : Event) (s : System) → IsKept first s → IsKept first (step o e s)
  unfolding step Enqueue.enqueue Enqueue.append_aborts Enqueue.append_settles State.request_drain
      State.flush State.timer_fires State.stop State.close Drain.lock_answers Drain.head_reads
      Drain.head_fails Drain.head_decides Drain.send_fails Drain.remove_aborts Drain.remove_settles
      Drain.retire_continues Drain.trim_commits Drain.trim_continues Drain.tally_settles
      Drain.retire_aborts Drain.reauthenticates State.request_refresh State.refresh_reads
      State.refresh_commits State.refresh_fails Letters.retry Letters.requeue_aborts
      Letters.requeue_counts Letters.requeue_settles Letters.discard Letters.discard_commits
      Letters.discard_aborts Letters.discard_settles Letters.miss_settles
  step-IsKept o Event.append_commits s h = append_commits-IsKept s h
  step-IsKept o (Event.requeue_commits now) s h = requeue_commits-IsKept now s h
  step-IsKept o Event.send_succeeds s h = send_succeeds-IsKept s h
  step-IsKept o Event.remove_commits s h = remove_commits-IsKept s h
  step-IsKept o Event.retire_commits s h = retire_commits-IsKept s h
  step-IsKept o _ s h = grind arith

  run-IsKept :
      (o : Options) (es : List Event) (s : System) → IsKept first s → IsKept first (run o es s)
  unfolding run
  run-IsKept o [] s h = h
  run-IsKept o (e ∷ es) s h = run-IsKept o es (step o e s) (step-IsKept o e s h)

start-IsKept : (identity : String) (db : Db) → IsKept db.next_key (start identity db)
unfolding start
start-IsKept identity db = grind arith

-- From the start on any database, after any events, failures of storage included: each key that the
-- queue has given since the start belongs to a record that is still in the outbox, that the server
-- has accepted, or that was moved to the dead letters.
pub no_write_vanishes :
    (o : Options) (identity : String) (db : Db) (es : List Event) (k : ℕ)
    → let s = run o es (start identity db) in
      db.next_key ≤ k
      → k < s.db.next_key
      → (has_seq k s.db.outbox || (has_seq k s.accepted || has_seq k s.lettered)) ≡ true
no_write_vanishes o identity db es k =
    (run-IsKept db.next_key o es (start identity db) (start-IsKept identity db)).kept k
