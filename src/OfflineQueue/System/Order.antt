-- ===== src/OfflineQueue/System/Order.antt =====
-- First in, first out: the server accepts writes in the order of their keys.
use ironflow_js.Prelude.{ℕ, String, List, [], ◌∷◌, arith}
use ironflow_js.OfflineQueue.Db.{Db}
use ironflow_js.OfflineQueue.Db.Order.{
  Between, Climbs, last_seq, Between-lower, Between-append, Between-without_seq, Between-head,
  Climbs-append, last_seq-append,
}
use ironflow_js.OfflineQueue.Queue.{Options}
use ironflow_js.OfflineQueue.State
use ironflow_js.OfflineQueue.State.{System, start}
use ironflow_js.OfflineQueue.Enqueue
use ironflow_js.OfflineQueue.Letters
use ironflow_js.OfflineQueue.Drain
use ironflow_js.OfflineQueue.System.{Event, step, run}
use ironflow_js.OfflineQueue.System.Counters.{IsCounted, step-IsCounted, start-IsCounted}

-- The accepted keys never fall, and what is stored comes behind them, in strict order.
pub record IsOrdered (s : System) : Type 0 where
  pub sent : Climbs 0 s.accepted
  pub stored : Between (last_seq 0 s.accepted) s.db.next_key s.db.outbox

ruleset order_laws = (
  Between-lower, Between-append, Between-without_seq, Between-head, Climbs-append, last_seq-append,
)

append_commits-IsOrdered : (s : System) → IsOrdered s → IsOrdered (Enqueue.append_commits s)
unfolding Enqueue.append_commits
append_commits-IsOrdered s h = grind (arith, order_laws)

requeue_commits-IsOrdered :
    (now : ℕ) (s : System) → IsOrdered s → IsOrdered (Letters.requeue_commits now s)
unfolding Letters.requeue_commits
requeue_commits-IsOrdered now s h = grind (arith, order_laws)

send_succeeds-IsOrdered :
    (s : System) → IsCounted s → IsOrdered s → IsOrdered (Drain.send_succeeds s)
unfolding Drain.send_succeeds
send_succeeds-IsOrdered s c h = grind (arith, order_laws)

remove_commits-IsOrdered : (s : System) → IsOrdered s → IsOrdered (Drain.remove_commits s)
unfolding Drain.remove_commits
remove_commits-IsOrdered s h = grind (arith, order_laws)

retire_commits-IsOrdered : (s : System) → IsOrdered s → IsOrdered (Drain.retire_commits s)
unfolding Drain.retire_commits
retire_commits-IsOrdered s h = grind (arith, order_laws)

step-IsOrdered :
    (o : Options) (e : Event) (s : System) → IsCounted s → IsOrdered s → IsOrdered (step o e s)
unfolding step Enqueue.enqueue Enqueue.append_aborts Enqueue.append_settles State.request_drain
    State.flush State.timer_fires State.stop State.close Drain.lock_answers Drain.head_reads
    Drain.head_fails Drain.head_decides Drain.send_fails Drain.remove_aborts Drain.remove_settles
    Drain.retire_continues Drain.trim_commits Drain.trim_continues Drain.tally_settles
    Drain.retire_aborts Drain.reauthenticates State.request_refresh State.refresh_reads
    State.refresh_commits State.refresh_fails Letters.retry Letters.requeue_aborts
    Letters.requeue_counts Letters.requeue_settles Letters.discard Letters.discard_commits
    Letters.discard_aborts Letters.discard_settles Letters.miss_settles
step-IsOrdered o Event.append_commits s c h = append_commits-IsOrdered s h
step-IsOrdered o (Event.requeue_commits now) s c h = requeue_commits-IsOrdered now s h
step-IsOrdered o Event.send_succeeds s c h = send_succeeds-IsOrdered s c h
step-IsOrdered o Event.remove_commits s c h = remove_commits-IsOrdered s h
step-IsOrdered o Event.retire_commits s c h = retire_commits-IsOrdered s h
step-IsOrdered o _ s c h = ground arith

pub run-IsOrdered :
    (o : Options) (es : List Event) (s : System)
    → IsCounted s
    → IsOrdered s
    → IsOrdered (run o es s)
unfolding run
run-IsOrdered o [] s c h = h
run-IsOrdered o (e ∷ es) s c h =
    run-IsOrdered o es (step o e s) (step-IsCounted o e s c) (step-IsOrdered o e s c h)

start-IsOrdered :
    (identity : String) (db : Db) → Between 0 db.next_key db.outbox → IsOrdered (start identity db)
unfolding start
start-IsOrdered identity db h = ground arith

-- From the start on a database whose records are in the order of their keys, after any events, the
-- writes that the server has accepted have keys that never fall, and the records still stored have
-- strictly growing keys from the last accepted one on: no write passes an earlier one.
pub sent_in_order :
    (o : Options) (identity : String) (db : Db) (es : List Event)
    → Between 0 db.next_key db.outbox
    → let s = run o es (start identity db) in
      Climbs 0 s.accepted × Between (last_seq 0 s.accepted) s.db.next_key s.db.outbox
sent_in_order o identity db es h =
    let r =
      run-IsOrdered o es (start identity db) (start-IsCounted identity db)
        (start-IsOrdered identity db h) in
    (r.sent, r.stored)
