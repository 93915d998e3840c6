-- ===== src/OfflineQueue/System/Counters/Rounds.antt =====
-- The timers, the refresh and the life of the queue keep the counters in step with the store.
use ironflow_js.Prelude.{ℕ, false, ◌≡◌, refl, arith}
use ironflow_js.OfflineQueue.Db.{Usage, count_dead_lettered}
use ironflow_js.OfflineQueue.Queue.{Mark, commit_refresh}
use ironflow_js.OfflineQueue.State
use ironflow_js.OfflineQueue.State.{System, Refresher, quiet, measured}
use ironflow_js.OfflineQueue.System.Counters.Invariant.{IsCounted, new_bytes_none}

pub request_drain-IsCounted : (s : System) → IsCounted s → IsCounted (State.request_drain s)
unfolding State.request_drain
request_drain-IsCounted s h = ground arith

pub flush-IsCounted : (s : System) → IsCounted s → IsCounted (State.flush s)
unfolding State.flush
flush-IsCounted s h = ground arith

pub timer_fires-IsCounted : (s : System) → IsCounted s → IsCounted (State.timer_fires s)
unfolding State.timer_fires
timer_fires-IsCounted s h = ground arith

pub stop-IsCounted : (s : System) → IsCounted s → IsCounted (State.stop s)
unfolding State.stop
stop-IsCounted s h = ground arith

pub close-IsCounted : (s : System) → IsCounted s → IsCounted (State.close s)
unfolding State.close
close-IsCounted s h = ground arith

pub request_refresh-IsCounted : (s : System) → IsCounted s → IsCounted (State.request_refresh s)
unfolding State.request_refresh
request_refresh-IsCounted s h = ground arith

pub refresh_reads-IsCounted : (s : System) → IsCounted s → IsCounted (State.refresh_reads s)
unfolding State.refresh_reads
refresh_reads-IsCounted s h = ground arith

drain_if_blocked-IsCounted : (s : System) → IsCounted s → IsCounted (State.drain_if_blocked s)
unfolding State.drain_if_blocked
drain_if_blocked-IsCounted s h = ground arith

-- Reading the counters again is right: a read that a mutation overlapped is discarded.
measured-IsCounted :
    (m : Mark) (u : Usage) (dead : ℕ) (s : System)
    → s.refresher ≡ measured m u
    → IsCounted s
    → IsCounted (record s {
      queue = record (commit_refresh m u dead s.queue) { refresh_queued = false };
      refresher = quiet;
    })
unfolding commit_refresh
measured-IsCounted m u dead s e h = ground (arith, new_bytes_none s.appending)

commit_at-IsCounted :
    (r : Refresher) (s : System) → s.refresher ≡ r → IsCounted s → IsCounted (State.commit_at r s)
unfolding State.commit_at
commit_at-IsCounted (measured m u) s e h =
    drain_if_blocked-IsCounted _ (measured-IsCounted m u (count_dead_lettered s.db) s e h)
commit_at-IsCounted _ s e h = h

pub refresh_commits-IsCounted : (s : System) → IsCounted s → IsCounted (State.refresh_commits s)
unfolding State.refresh_commits
refresh_commits-IsCounted s h = commit_at-IsCounted s.refresher s refl h

pub refresh_fails-IsCounted : (s : System) → IsCounted s → IsCounted (State.refresh_fails s)
unfolding State.refresh_fails
refresh_fails-IsCounted s h = ground arith
