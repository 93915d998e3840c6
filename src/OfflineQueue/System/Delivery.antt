-- ===== src/OfflineQueue/System/Delivery.antt =====
-- A drain with no fault on its way empties the outbox, in order.
use ironflow_js.Prelude.{
  ℕ, suc, ◌≤◌, ◌≡◌, refl, true, false, List, [], ◌∷◌, ◌++◌, String, arith, All,
}
use mathlib.Core.List.{append_assoc, append-nil}
use ironflow_js.OfflineQueue.Types.{QueuedWrite, idle}
use ironflow_js.OfflineQueue.Db.{Db, without_seq}
use ironflow_js.OfflineQueue.Db.Order.{Between}
use ironflow_js.OfflineQueue.Queue.{Options, Destination, Verdict, triage}
use ironflow_js.OfflineQueue.State.{System, Drainer, reading, start}
use ironflow_js.OfflineQueue.Drain
use ironflow_js.OfflineQueue.System.{Event, step, run}

-- The events by which one write is delivered, and those by which a session finds the store empty.
abbrev pub round : ℕ → Destination → List Event
round now dest =
    Event.head_reads
    ∷ Event.head_decides now dest
    ∷ Event.send_succeeds
    ∷ Event.remove_commits
    ∷ Event.remove_settles
    ∷ []

abbrev pub rounds : ℕ → Destination → List QueuedWrite → List Event
rounds now dest [] = Event.head_reads ∷ Event.head_decides now dest ∷ []
rounds now dest (w ∷ ws) = round now dest ++ rounds now dest ws

abbrev IsReading : Drainer → Type 0
IsReading (reading m) = Unit {0}
IsReading _ = ⊥

-- A drain at the top of its loop, with nothing asked for in between.
record IsReady (identity : String) (outbox accepted : List QueuedWrite) (s : System) : Type 0 where
  at_head : IsReading s.drainer
  running : s.queue.stopped ≡ false
  unasked : s.queue.drain_requested ≡ false
  same_identity : s.queue.identity ≡ identity
  stored : s.db.outbox ≡ outbox
  delivered : s.accepted ≡ accepted

without_seq-above :
    (s k n : ℕ) (l : List QueuedWrite) → suc s ≤ k → Between k n l → without_seq s l ≡ l
without_seq-above s k n [] h b = refl
without_seq-above s k n (w ∷ ws) h b =
    ground (arith, without_seq-above s (suc w.seq) n ws (omega arith) b.1)

abbrev pub IsSendable : Options → String → ℕ → Destination → QueuedWrite → Type 0
IsSendable o identity now dest w =
    (path : String) × (triage o identity now dest w ≡ Verdict.send path)

module _ (o : Options) (identity : String) (now : ℕ) (dest : Destination) where
  round-IsReady :
      (w : QueuedWrite) (ws accepted : List QueuedWrite) (s : System) (path : String)
      → triage o identity now dest w ≡ Verdict.send path
      → without_seq w.seq ws ≡ ws
      → IsReady identity (w ∷ ws) accepted s
      → IsReady identity ws (accepted ++ w ∷ []) (run o (round now dest) s)
  unfolding run step Drain.head_reads Drain.head_decides Drain.send_succeeds Drain.remove_commits
      Drain.remove_settles
  round-IsReady w ws accepted s path t f h = ground arith

run-append :
    (o : Options) (es fs : List Event) (s : System) → run o (es ++ fs) s ≡ run o fs (run o es s)
unfolding run
run-append o [] fs s = refl
run-append o (e ∷ es) fs s = run-append o es fs (step o e s)

-- What a finished drain leaves.
pub record IsDelivered (writes : List QueuedWrite) (s : System) : Type 0 where
  pub empty : s.db.outbox ≡ []
  pub all_accepted : s.accepted ≡ writes
  pub idle_again : s.queue.state ≡ idle
  pub ended : s.queue.draining ≡ false

module _ (o : Options) (identity : String) (now : ℕ) (dest : Destination) where
  last-IsDelivered :
      (accepted : List QueuedWrite) (s : System)
      → IsReady identity [] accepted s
      → IsDelivered accepted (run o (rounds now dest []) s)
  unfolding run step Drain.head_reads Drain.head_decides
  last-IsDelivered accepted s h = ground arith

  rounds-IsDelivered :
      (k n : ℕ) (ws accepted : List QueuedWrite) (s : System)
      → Between k n ws
      → All (IsSendable o identity now dest) ws
      → IsReady identity ws accepted s
      → IsDelivered (accepted ++ ws) (run o (rounds now dest ws) s)
  rounds-IsDelivered k n [] accepted s b a h =
      rw (append-nil accepted) (last-IsDelivered accepted s h)
  rounds-IsDelivered k n (w ∷ ws) accepted s b a h =
      let step_one =
        round-IsReady o identity now dest w ws accepted s a.0.0 a.0.1
          (without_seq-above w.seq (suc w.seq) n ws (omega arith) b.1) h in
      let rest =
        rounds-IsDelivered (suc w.seq) n ws (accepted ++ w ∷ []) (run o (round now dest) s) b.1 a.1
          step_one in
      rw run-append (rw append_assoc at rest)

start-IsReady :
    (o : Options) (identity : String) (db : Db)
    → IsReady identity db.outbox [] (step o (Event.lock_answers true) (start identity db))
unfolding step start Drain.lock_answers
start-IsReady o identity db = ground arith

-- A queue that starts on any outbox in key order whose records are all sendable, gets the lock, and
-- meets no failure, delivers: one round of events for each record leaves the outbox empty, every
-- record accepted in order, and the queue idle.
pub drain_delivers :
    (o : Options) (identity : String) (now : ℕ) (dest : Destination) (db : Db)
    → Between 0 db.next_key db.outbox
    → All (IsSendable o identity now dest) db.outbox
    → IsDelivered db.outbox
        (run o (Event.lock_answers true ∷ rounds now dest db.outbox) (start identity db))
unfolding run
drain_delivers o identity now dest db b a =
    rounds-IsDelivered o identity now dest 0 db.next_key db.outbox [] _ b a
      (start-IsReady o identity db)
