-- ===== src/Worker/Jobs.antt =====
-- The life cycle of packages/node/src/worker.ts: start, connect, pollForJobs, processJob, drain and
-- stop of a worker that has functions, as pieces of code between awaits.
pub mod Distinct
pub mod Within
pub mod Closing
mod Tests
use ironflow_js.Prelude.{
  ℕ, ◌+◌, ◌-◌, Bool, true, false, not, ◌&&◌, ◌||◌, List, [], ◌∷◌, any, filter, length, ◌==◌, leb,
  if◌then◌else◌,
}
use ironflow_js.Durable.Text.{Text, text_eq}

pub data WorkerState : Type 0 where
  idle : WorkerState
  connecting : WorkerState
  connected : WorkerState
  draining : WorkerState
  stopped : WorkerState

-- Where `start` stands: not called, at the head of its loop or in the pause behind an error, in
-- connect's requests, at the head of the poll's loop or in a pause there, in a poll that has asked
-- for so many jobs, or behind the loop.
pub data Doing : Type 0 where
  unstarted : Doing
  outside : Doing
  registering : Doing
  at_poll : Doing
  asking : ℕ → Doing
  left : Doing

-- An execution of a job: its key in activeJobs, and a number for the object.
pub record Execution : Type 0 where
  pub key : Text
  pub number : ℕ

-- `executing` are the executions that have not settled, of which `active` are those in activeJobs;
-- the next has the number `started`.
pub record Worker : Type 0 where
  pub state : WorkerState
  pub doing : Doing
  pub active : List Execution
  pub executing : List Execution
  pub started : ℕ
  pub drain_called : Bool

abbrev pub new_worker : Worker
new_worker = record {
  state = WorkerState.idle;
  doing = Doing.unstarted;
  active = [];
  executing = [];
  started = 0;
  drain_called = false;
}

abbrev pub is_idle : WorkerState → Bool
is_idle WorkerState.idle = true
is_idle _ = false

abbrev pub is_connecting : WorkerState → Bool
is_connecting WorkerState.connecting = true
is_connecting _ = false

abbrev pub is_connected : WorkerState → Bool
is_connected WorkerState.connected = true
is_connected _ = false

abbrev pub is_stopped : WorkerState → Bool
is_stopped WorkerState.stopped = true
is_stopped _ = false

abbrev pub is_closing : WorkerState → Bool
is_closing WorkerState.draining = true
is_closing WorkerState.stopped = true
is_closing _ = false

abbrev pub has_key : Text → List Execution → Bool
unfolding text_eq
has_key key l = any (λ e. text_eq key e.key) l

unfoldable pub start_worker : Worker → Worker
start_worker w =
    if is_idle w.state
    then record w { state = WorkerState.connecting; doing = Doing.outside }
    else w

-- The loop of `start` and the head of connect.
unfoldable pub begin_connect : Worker → Worker
begin_connect w =
    if is_closing w.state
    then record w { doing = Doing.left }
    else record w { state = WorkerState.connecting; doing = Doing.registering }

-- connect behind its requests: it goes on only if it is still connecting.
unfoldable pub connect_done : Worker → Worker
connect_done w =
    if is_connecting w.state
    then record w { state = WorkerState.connected; doing = Doing.at_poll }
    else record w { doing = Doing.outside }

unfoldable pub stop_worker : Worker → Worker
stop_worker w = record w { state = WorkerState.stopped; active = [] }

-- The catch of `start`: on a fatal error the worker is stopped.
unfoldable pub connect_failed : Bool → Worker → Worker
unfolding stop_worker
connect_failed fatal w =
    if is_stopped w.state
    then record w { doing = Doing.left }
    else if fatal
    then record (stop_worker w) { doing = Doing.left }
    else record w { doing = Doing.outside }

unfoldable pub poll : ℕ → Worker → Worker
poll max_jobs w =
    if is_connected w.state
    then (if leb max_jobs (length w.active)
        then w
        else record w { doing = Doing.asking (max_jobs - length w.active) })
    else record w { doing = Doing.outside }

unfoldable pub process_job : Text → Worker → Worker
unfolding has_key
process_job key w =
    if has_key key w.active
    then w
    else (let e : Execution = record { key = key; number = w.started } in
        record w { active = e ∷ w.active; executing = e ∷ w.executing; started = w.started + 1 })

-- The loop over the jobs of an answer, which are their keys here.
unfoldable pub process_jobs : List Text → Worker → Worker
unfolding process_job
process_jobs [] w = w
process_jobs (key ∷ keys) w =
    let rest = process_jobs keys (process_job key w) in if is_connected w.state then rest else w

-- What comes of a poll.
pub data Polled : Type 0 where
  jobs : List Text → Polled
  no_jobs : Polled
  not_found : Polled
  unauthorized : Polled
  broken : Polled

unfoldable pub poll_done : Polled → Worker → Worker
unfolding process_jobs connect_failed
poll_done (Polled.jobs keys) w = record (process_jobs keys w) { doing = Doing.at_poll }
poll_done Polled.no_jobs w = record w { doing = Doing.at_poll }
poll_done Polled.not_found w =
    if is_connected w.state
    then record w { state = WorkerState.connecting; doing = Doing.outside }
    else record w { doing = Doing.outside }
poll_done Polled.unauthorized w =
    if is_connected w.state then connect_failed true w else record w { doing = Doing.outside }
poll_done Polled.broken w =
    if is_connected w.state
    then record w { doing = Doing.at_poll }
    else record w { doing = Doing.outside }

-- The `finally` of an execution: activeJobs forgets it if it still holds this very one.
unfoldable pub job_settled : ℕ → Worker → Worker
job_settled n w = record w {
  active = filter (λ e. not (e.number == n)) w.active;
  executing = filter (λ e. not (e.number == n)) w.executing;
}

unfoldable pub drain : Worker → Worker
drain w =
    if is_stopped w.state || is_idle w.state || w.drain_called
    then w
    else record w { state = WorkerState.draining; drain_called = true }

-- Behind the wait of drain: the jobs are done, or its time is up.
unfoldable pub drain_done : Worker → Worker
unfolding stop_worker
drain_done w = if w.drain_called then stop_worker w else w

pub data Event : Type 0 where
  starts : Event
  goes_on : Event
  registers : Event
  fails : Bool → Event
  polls : Polled → Event
  settles : ℕ → Event
  drains : Event
  drained : Event
  stops : Event

-- What `start` does next where it does not wait for an answer.
unfoldable pub go_on : ℕ → Doing → Worker → Worker
unfolding begin_connect poll
go_on max_jobs Doing.outside w = begin_connect w
go_on max_jobs Doing.at_poll w = poll max_jobs w
go_on max_jobs _ w = w

unfoldable pub register_done : Doing → Worker → Worker
unfolding connect_done
register_done Doing.registering w = connect_done w
register_done _ w = w

unfoldable pub register_failed : Bool → Doing → Worker → Worker
unfolding connect_failed
register_failed fatal Doing.registering w = connect_failed fatal w
register_failed fatal _ w = w

unfoldable pub poll_answered : Polled → Doing → Worker → Worker
unfolding poll_done
poll_answered p (Doing.asking n) w = poll_done p w
poll_answered p _ w = w

unfoldable pub step : ℕ → Event → Worker → Worker
unfolding start_worker go_on register_done register_failed poll_answered job_settled drain
    drain_done stop_worker
step max_jobs Event.starts w = start_worker w
step max_jobs Event.goes_on w = go_on max_jobs w.doing w
step max_jobs Event.registers w = register_done w.doing w
step max_jobs (Event.fails fatal) w = register_failed fatal w.doing w
step max_jobs (Event.polls p) w = poll_answered p w.doing w
step max_jobs (Event.settles n) w = job_settled n w
step max_jobs Event.drains w = drain w
step max_jobs Event.drained w = drain_done w
step max_jobs Event.stops w = stop_worker w

unfoldable pub run : ℕ → List Event → Worker → Worker
unfolding step
run max_jobs [] w = w
run max_jobs (e ∷ es) w = run max_jobs es (step max_jobs e w)
