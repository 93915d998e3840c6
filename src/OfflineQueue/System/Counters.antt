-- ===== src/OfflineQueue/System/Counters.antt =====
-- The counters of the queue against what is stored, over every schedule of events.
mod Invariant
mod Calls
mod Dead
mod Sessions
mod Rounds
pub use Invariant.*
use ironflow_js.Prelude.{ℕ, ◌+◌, ◌≤◌, ◌≡◌, refl, false, String, List, [], ◌∷◌, length, max, arith}
use ironflow_js.OfflineQueue.Db.{Db, Usage, usage, bytes_of}
use ironflow_js.OfflineQueue.Queue.{Options, Mark, counter_raced}
use ironflow_js.OfflineQueue.State.{System, start, measured, refresh_commits}
use ironflow_js.OfflineQueue.System.{Event, step, run}

pub step-IsCounted : (o : Options) (e : Event) (s : System) → IsCounted s → IsCounted (step o e s)
unfolding step
step-IsCounted o (Event.enqueue i) s h = Calls.enqueue-IsCounted o i s h
step-IsCounted o Event.append_commits s h = Calls.append_commits-IsCounted s h
step-IsCounted o Event.append_aborts s h = Calls.append_aborts-IsCounted s h
step-IsCounted o Event.append_settles s h = Calls.append_settles-IsCounted s h
step-IsCounted o (Event.retry id) s h = Dead.retry-IsCounted id s h
step-IsCounted o (Event.requeue_commits now) s h = Dead.requeue_commits-IsCounted now s h
step-IsCounted o Event.requeue_aborts s h = Dead.requeue_aborts-IsCounted s h
step-IsCounted o Event.requeue_counts s h = Dead.requeue_counts-IsCounted s h
step-IsCounted o Event.requeue_settles s h = Dead.requeue_settles-IsCounted s h
step-IsCounted o Event.miss_settles s h = Dead.miss_settles-IsCounted s h
step-IsCounted o (Event.discard id) s h = Dead.discard-IsCounted id s h
step-IsCounted o Event.discard_commits s h = Dead.discard_commits-IsCounted s h
step-IsCounted o Event.discard_aborts s h = Dead.discard_aborts-IsCounted s h
step-IsCounted o Event.discard_settles s h = Dead.discard_settles-IsCounted s h
step-IsCounted o (Event.lock_answers granted) s h = Sessions.lock_answers-IsCounted granted s h
step-IsCounted o Event.head_reads s h = Sessions.head_reads-IsCounted s h
step-IsCounted o Event.head_fails s h = Sessions.head_fails-IsCounted s h
step-IsCounted o (Event.head_decides now dest) s h = Sessions.head_decides-IsCounted o now dest s h
step-IsCounted o Event.send_succeeds s h = Sessions.send_succeeds-IsCounted s h
step-IsCounted o (Event.send_fails now f) s h = Sessions.send_fails-IsCounted o now f s h
step-IsCounted o Event.remove_commits s h = Sessions.remove_commits-IsCounted s h
step-IsCounted o Event.remove_aborts s h = Sessions.remove_aborts-IsCounted s h
step-IsCounted o Event.remove_settles s h = Sessions.remove_settles-IsCounted s h
step-IsCounted o Event.retire_commits s h = Sessions.retire_commits-IsCounted s h
step-IsCounted o Event.retire_continues s h = Sessions.retire_continues-IsCounted o s h
step-IsCounted o Event.trim_commits s h = Sessions.trim_commits-IsCounted o s h
step-IsCounted o Event.trim_continues s h = Sessions.trim_continues-IsCounted s h
step-IsCounted o Event.tally_settles s h = Sessions.tally_settles-IsCounted s h
step-IsCounted o Event.retire_aborts s h = Sessions.retire_aborts-IsCounted s h
step-IsCounted o (Event.reauthenticates r) s h = Sessions.reauthenticates-IsCounted r s h
step-IsCounted o Event.request_drain s h = Rounds.request_drain-IsCounted s h
step-IsCounted o Event.flush s h = Rounds.flush-IsCounted s h
step-IsCounted o Event.timer_fires s h = Rounds.timer_fires-IsCounted s h
step-IsCounted o Event.stop s h = Rounds.stop-IsCounted s h
step-IsCounted o Event.close s h = Rounds.close-IsCounted s h
step-IsCounted o Event.request_refresh s h = Rounds.request_refresh-IsCounted s h
step-IsCounted o Event.refresh_reads s h = Rounds.refresh_reads-IsCounted s h
step-IsCounted o Event.refresh_commits s h = Rounds.refresh_commits-IsCounted s h
step-IsCounted o Event.refresh_fails s h = Rounds.refresh_fails-IsCounted s h

pub run-IsCounted :
    (o : Options) (es : List Event) (s : System) → IsCounted s → IsCounted (run o es s)
unfolding run
run-IsCounted o [] s h = h
run-IsCounted o (e ∷ es) s h = run-IsCounted o es (step o e s) (step-IsCounted o e s h)

pub start-IsCounted : (identity : String) (db : Db) → IsCounted (start identity db)
unfolding start
start-IsCounted identity db = ground arith

-- From the start on any database, after any events: every record that is stored, every reserved
-- write whose append is under way and every removed record that is still to be deducted is counted in
-- `pending` and `bytes`, short only of the requeued records whose counters are due.
pub counters_cover_store :
    (o : Options) (identity : String) (db : Db) (es : List Event)
    → let s = run o es (start identity db) in
      (length s.db.outbox + length s.appending + owed s.drainer
        ≤ s.queue.pending + length s.counting)
      × (bytes_of s.db.outbox + new_bytes s.appending + owed_bytes s.drainer
          ≤ s.queue.bytes + bytes_of s.counting)
counters_cover_store o identity db es =
    let h = run-IsCounted o es (start identity db) (start-IsCounted identity db) in
    (h.items, h.bytes)

refresh_commits_exact :
    (s : System) (m : Mark) (u : Usage)
    → s.refresher ≡ measured m u
    → counter_raced m s.queue ≡ false
    → IsCounted s
    → ((refresh_commits s).queue.pending ≡ length s.db.outbox)
      × ((refresh_commits s).queue.bytes ≡ bytes_of s.db.outbox)
      × (length s.appending + owed s.drainer + length s.counting ≡ 0)
unfolding refresh_commits
refresh_commits_exact s m u e r h = ground arith

-- Where a refresh is not discarded, the counters it writes are those of the store at that moment,
-- with no append, removal or requeue under way, whatever happened between its reads and its commit.
pub refresh_exact :
    (o : Options) (identity : String) (db : Db) (es : List Event) (m : Mark) (u : Usage)
    → let s = run o es (start identity db) in
      s.refresher ≡ measured m u
      → counter_raced m s.queue ≡ false
      → ((refresh_commits s).queue.pending ≡ length s.db.outbox)
        × ((refresh_commits s).queue.bytes ≡ bytes_of s.db.outbox)
        × (length s.appending + owed s.drainer + length s.counting ≡ 0)
refresh_exact o identity db es m u e r =
    let h = run-IsCounted o es (start identity db) (start-IsCounted identity db) in
    refresh_commits_exact (run o es (start identity db)) m u e r h
