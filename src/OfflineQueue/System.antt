-- ===== src/OfflineQueue/System.antt =====
-- The events of one tab (packages/browser/src/queue/queue.ts) and the system that they drive: the
-- calls of the application, the answers of IndexedDB, of the lock, of the server and of the login,
-- and the timers, in any order.
use ironflow_js.Prelude.{ℕ, String, Bool, List, [], ◌∷◌}
use ironflow_js.OfflineQueue.Types.{QueuedWrite}
use ironflow_js.OfflineQueue.Queue.{Options, Destination, Failure}
use ironflow_js.OfflineQueue.State
use ironflow_js.OfflineQueue.State.{System}
use ironflow_js.OfflineQueue.Enqueue
use ironflow_js.OfflineQueue.Enqueue.{EnqueueInput}
use ironflow_js.OfflineQueue.Drain
use ironflow_js.OfflineQueue.Drain.{AuthResult}
use ironflow_js.OfflineQueue.Letters
pub mod Counters
pub mod Caps
pub mod Order
pub mod Kept
pub mod Future
pub mod Delivery
pub mod Stopped

pub data Event : Type 0 where
  enqueue : EnqueueInput → Event
  append_commits append_aborts append_settles : Event
  request_drain flush timer_fires stop close : Event
  lock_answers : Bool → Event
  head_reads head_fails : Event
  head_decides : ℕ → Destination → Event
  send_succeeds : Event
  send_fails : ℕ → Failure → Event
  remove_commits remove_aborts remove_settles : Event
  retire_commits retire_continues trim_commits trim_continues tally_settles retire_aborts : Event
  reauthenticates : AuthResult → Event
  request_refresh refresh_reads refresh_commits refresh_fails : Event
  retry : String → Event
  requeue_commits : ℕ → Event
  requeue_aborts requeue_counts requeue_settles : Event
  discard : String → Event
  discard_commits discard_aborts discard_settles miss_settles : Event

unfoldable pub step : Options → Event → System → System
step o (enqueue i) s = (Enqueue.enqueue o i s).0
step o append_commits s = Enqueue.append_commits s
step o append_aborts s = Enqueue.append_aborts s
step o append_settles s = Enqueue.append_settles s
step o request_drain s = State.request_drain s
step o flush s = State.flush s
step o timer_fires s = State.timer_fires s
step o stop s = State.stop s
step o close s = State.close s
step o (lock_answers granted) s = Drain.lock_answers granted s
step o head_reads s = Drain.head_reads s
step o head_fails s = Drain.head_fails s
step o (head_decides now dest) s = Drain.head_decides o now dest s
step o send_succeeds s = Drain.send_succeeds s
step o (send_fails now f) s = Drain.send_fails o now f s
step o remove_commits s = Drain.remove_commits s
step o remove_aborts s = Drain.remove_aborts s
step o remove_settles s = Drain.remove_settles s
step o retire_commits s = Drain.retire_commits s
step o retire_continues s = Drain.retire_continues o s
step o trim_commits s = Drain.trim_commits o s
step o trim_continues s = Drain.trim_continues s
step o tally_settles s = Drain.tally_settles s
step o retire_aborts s = Drain.retire_aborts s
step o (reauthenticates r) s = Drain.reauthenticates r s
step o request_refresh s = State.request_refresh s
step o refresh_reads s = State.refresh_reads s
step o refresh_commits s = State.refresh_commits s
step o refresh_fails s = State.refresh_fails s
step o (retry local_id) s = Letters.retry local_id s
step o (requeue_commits now) s = Letters.requeue_commits now s
step o requeue_aborts s = Letters.requeue_aborts s
step o requeue_counts s = Letters.requeue_counts s
step o requeue_settles s = Letters.requeue_settles s
step o (discard local_id) s = Letters.discard local_id s
step o discard_commits s = Letters.discard_commits s
step o discard_aborts s = Letters.discard_aborts s
step o discard_settles s = Letters.discard_settles s
step o miss_settles s = Letters.miss_settles s

unfoldable pub run : Options → List Event → System → System
run o [] s = s
run o (e ∷ es) s = run o es (step o e s)
