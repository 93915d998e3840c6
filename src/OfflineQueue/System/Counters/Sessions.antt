-- ===== src/OfflineQueue/System/Counters/Sessions.antt =====
-- The drainer keep the counters in step with the store.
use ironflow_js.Prelude.{ℕ, Bool, ◌≡◌, refl, none, some, arith}
use ironflow_js.OfflineQueue.Types.{QueuedWrite}
use ironflow_js.OfflineQueue.Queue.{Options, Mark, Destination, Verdict, triage, Failure}
use ironflow_js.OfflineQueue.Drain
use ironflow_js.OfflineQueue.Drain.{AuthResult}
use ironflow_js.OfflineQueue.State.{System, Drainer, got}
use ironflow_js.OfflineQueue.System.Counters.Invariant.{IsCounted, new_bytes_none, store_laws}

pub lock_answers-IsCounted :
    (granted : Bool) (s : System) → IsCounted s → IsCounted (Drain.lock_answers granted s)
unfolding Drain.lock_answers
lock_answers-IsCounted granted s h = grind (arith, store_laws)

pub head_reads-IsCounted : (s : System) → IsCounted s → IsCounted (Drain.head_reads s)
unfolding Drain.head_reads
head_reads-IsCounted s h = grind (arith, store_laws)

pub head_fails-IsCounted : (s : System) → IsCounted s → IsCounted (Drain.head_fails s)
unfolding Drain.head_fails
head_fails-IsCounted s h = grind (arith, store_laws)

found_empty-IsCounted :
    (m : Mark) (s : System)
    → s.drainer ≡ got m none
    → IsCounted s
    → IsCounted (Drain.found_empty m s)
unfolding Drain.found_empty
found_empty-IsCounted m s e h = ground (arith, new_bytes_none s.appending)

obey-IsCounted :
    (now : ℕ) (m : Mark) (w : QueuedWrite) (v : Verdict) (s : System)
    → s.drainer ≡ got m (some w)
    → IsCounted s
    → IsCounted (Drain.obey now w v s)
unfolding Drain.obey
obey-IsCounted now m w Verdict.block s e h = ground arith
obey-IsCounted now m w (Verdict.retire reason message) s e h = ground arith
obey-IsCounted now m w (Verdict.send path) s e h = ground arith

decide_at-IsCounted :
    (o : Options) (now : ℕ) (dest : Destination) (d : Drainer) (s : System)
    → s.drainer ≡ d
    → IsCounted s
    → IsCounted (Drain.decide_at o now dest d s)
unfolding Drain.decide_at
decide_at-IsCounted o now dest (got m none) s e h = found_empty-IsCounted m s e h
decide_at-IsCounted o now dest (got m (some w)) s e h =
    obey-IsCounted now m w (triage o s.queue.identity now dest w) s e h
decide_at-IsCounted o now dest _ s e h = h

pub head_decides-IsCounted :
    (o : Options) (now : ℕ) (dest : Destination) (s : System)
    → IsCounted s
    → IsCounted (Drain.head_decides o now dest s)
unfolding Drain.head_decides
head_decides-IsCounted o now dest s h = decide_at-IsCounted o now dest s.drainer s refl h

pub send_succeeds-IsCounted : (s : System) → IsCounted s → IsCounted (Drain.send_succeeds s)
unfolding Drain.send_succeeds
send_succeeds-IsCounted s h = grind (arith, store_laws)

pub send_fails-IsCounted :
    (o : Options) (now : ℕ) (f : Failure) (s : System)
    → IsCounted s
    → IsCounted (Drain.send_fails o now f s)
unfolding Drain.send_fails
send_fails-IsCounted o now f s h = grind (arith, store_laws)

pub remove_commits-IsCounted : (s : System) → IsCounted s → IsCounted (Drain.remove_commits s)
unfolding Drain.remove_commits
remove_commits-IsCounted s h = grind (arith, store_laws)

pub remove_aborts-IsCounted : (s : System) → IsCounted s → IsCounted (Drain.remove_aborts s)
unfolding Drain.remove_aborts
remove_aborts-IsCounted s h = grind (arith, store_laws)

pub remove_settles-IsCounted : (s : System) → IsCounted s → IsCounted (Drain.remove_settles s)
unfolding Drain.remove_settles
remove_settles-IsCounted s h = grind (arith, store_laws)

pub retire_commits-IsCounted : (s : System) → IsCounted s → IsCounted (Drain.retire_commits s)
unfolding Drain.retire_commits
retire_commits-IsCounted s h = grind (arith, store_laws)

pub retire_continues-IsCounted :
    (o : Options) (s : System) → IsCounted s → IsCounted (Drain.retire_continues o s)
unfolding Drain.retire_continues
retire_continues-IsCounted o s h = grind (arith, store_laws)

pub trim_commits-IsCounted :
    (o : Options) (s : System) → IsCounted s → IsCounted (Drain.trim_commits o s)
unfolding Drain.trim_commits
trim_commits-IsCounted o s h = grind (arith, store_laws)

pub trim_continues-IsCounted : (s : System) → IsCounted s → IsCounted (Drain.trim_continues s)
unfolding Drain.trim_continues
trim_continues-IsCounted s h = grind (arith, store_laws)

pub tally_settles-IsCounted : (s : System) → IsCounted s → IsCounted (Drain.tally_settles s)
unfolding Drain.tally_settles
tally_settles-IsCounted s h = grind (arith, store_laws)

pub retire_aborts-IsCounted : (s : System) → IsCounted s → IsCounted (Drain.retire_aborts s)
unfolding Drain.retire_aborts
retire_aborts-IsCounted s h = grind (arith, store_laws)

pub reauthenticates-IsCounted :
    (r : AuthResult) (s : System) → IsCounted s → IsCounted (Drain.reauthenticates r s)
unfolding Drain.reauthenticates
reauthenticates-IsCounted r s h = grind (arith, store_laws)
