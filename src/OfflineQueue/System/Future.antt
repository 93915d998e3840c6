-- ===== src/OfflineQueue/System/Future.antt =====
-- Records of a newer build are left alone.
use ironflow_js.Prelude.{
  ℕ, ◌≤◌, ◌≡◌, refl, none, some, String, List, [], ◌∷◌, All, All-append, arith,
}
use ironflow_js.OfflineQueue.Types.{QueuedWrite}
use ironflow_js.OfflineQueue.Db.{Db}
use ironflow_js.OfflineQueue.Queue.{Options, Destination, triage}
use ironflow_js.OfflineQueue.State
use ironflow_js.OfflineQueue.State.{System, Drainer, got, sending, removing, retiring, start}
use ironflow_js.OfflineQueue.Enqueue
use ironflow_js.OfflineQueue.Letters
use ironflow_js.OfflineQueue.Drain
use ironflow_js.OfflineQueue.System.{Event, step, run}

abbrev pub IsReadable : QueuedWrite → Type 0
IsReadable w = w.v ≤ 1

-- What the drainer is about to send, remove or retire.
abbrev Handles : Drainer → Type 0
Handles (sending w) = IsReadable w
Handles (removing w) = IsReadable w
Handles (retiring e) = IsReadable e.write
Handles _ = Unit {0}

record IsCareful (s : System) : Type 0 where
  handled : Handles s.drainer
  accepted_readable : All IsReadable s.accepted
  lettered_readable : All IsReadable s.lettered

decide_at-IsCareful :
    (o : Options) (now : ℕ) (dest : Destination) (d : Drainer) (s : System)
    → s.drainer ≡ d
    → IsCareful s
    → IsCareful (Drain.decide_at o now dest d s)
unfolding Drain.decide_at triage
decide_at-IsCareful o now dest (got m none) s e h = ground arith
decide_at-IsCareful o now dest (got m (some w)) s e h = ground arith
decide_at-IsCareful o now dest _ s e h = h

send_succeeds-IsCareful : (s : System) → IsCareful s → IsCareful (Drain.send_succeeds s)
unfolding Drain.send_succeeds
send_succeeds-IsCareful s h = grind (arith, All-append IsReadable)

retire_commits-IsCareful : (s : System) → IsCareful s → IsCareful (Drain.retire_commits s)
unfolding Drain.retire_commits
retire_commits-IsCareful s h = grind (arith, All-append IsReadable)

step-IsCareful : (o : Options) (e : Event) (s : System) → IsCareful s → IsCareful (step o e s)
unfolding step Enqueue.enqueue Enqueue.append_commits Enqueue.append_aborts Enqueue.append_settles
    State.request_drain State.flush State.timer_fires State.stop State.close Drain.lock_answers
    Drain.head_reads Drain.head_fails Drain.send_fails Drain.head_decides Drain.remove_commits
    Drain.remove_aborts Drain.remove_settles Drain.retire_continues Drain.trim_commits
    Drain.trim_continues Drain.tally_settles Drain.retire_aborts Drain.reauthenticates
    State.request_refresh State.refresh_reads State.refresh_commits State.refresh_fails
    Letters.retry Letters.requeue_commits Letters.requeue_aborts Letters.requeue_counts
    Letters.requeue_settles Letters.discard Letters.discard_commits Letters.discard_aborts
    Letters.discard_settles Letters.miss_settles
step-IsCareful o (Event.head_decides now dest) s h =
    decide_at-IsCareful o now dest s.drainer s refl h
step-IsCareful o Event.send_succeeds s h = send_succeeds-IsCareful s h
step-IsCareful o Event.retire_commits s h = retire_commits-IsCareful s h
step-IsCareful o _ s h = ground arith

run-IsCareful : (o : Options) (es : List Event) (s : System) → IsCareful s → IsCareful (run o es s)
unfolding run
run-IsCareful o [] s h = h
run-IsCareful o (e ∷ es) s h = run-IsCareful o es (step o e s) (step-IsCareful o e s h)

start-IsCareful : (identity : String) (db : Db) → IsCareful (start identity db)
unfolding start
start-IsCareful identity db = ground arith

-- From the start on any database, after any events, nothing that the server has accepted and nothing
-- that was moved to the dead letters has a record version above 1.
pub future_records_untouched :
    (o : Options) (identity : String) (db : Db) (es : List Event)
    → let s = run o es (start identity db) in All IsReadable s.accepted × All IsReadable s.lettered
future_records_untouched o identity db es =
    let h = run-IsCareful o es (start identity db) (start-IsCareful identity db) in
    (h.accepted_readable, h.lettered_readable)
