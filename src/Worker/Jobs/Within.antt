-- ===== src/Worker/Jobs/Within.antt =====
-- A worker executes no more jobs at a time than it may (packages/node/src/worker.ts).
use ironflow_js.Prelude.{
  ℕ, ◌+◌, ◌≤◌, refl, ap, Bool, true, not, List, [], ◌∷◌, ◌||◌, ◌==◌, if_split, leb, length,
  length-filter-le, arith,
}
use ironflow_js.Durable.Text.{Text}
use ironflow_js.Worker.Jobs.{
  Doing, Execution, Worker, new_worker, is_idle, is_connecting, is_connected, is_stopped,
  is_closing, has_key, start_worker, begin_connect, connect_done, stop_worker, connect_failed, poll,
  process_job, process_jobs, Polled, poll_done, job_settled, drain, drain_done, Event, go_on,
  register_done, register_failed, poll_answered, step, run,
}
use ironflow_js.Worker.Jobs.Distinct.{Tracked, connected_runs, step-Tracked}

-- An answer with no more jobs than were asked for.
abbrev pub Answers : Doing → Event → Type 0
Answers (Doing.asking n) (Event.polls (Polled.jobs keys)) = length keys ≤ n
Answers _ _ = Unit

-- The server never answers a poll with more.
unfoldable pub Polite : ℕ → List Event → Worker → Type 0
unfolding step
Polite max_jobs [] w = Unit
Polite max_jobs (e ∷ es) w = Answers w.doing e × Polite max_jobs es (step max_jobs e w)

-- So many executions, and those that have been asked for.
abbrev Fits : ℕ → ℕ → Doing → Type 0
Fits max_jobs n (Doing.asking k) = n + k ≤ max_jobs
Fits max_jobs n _ = n ≤ max_jobs

abbrev IsWithin : ℕ → Worker → Type 0
IsWithin max_jobs w = Fits max_jobs (length w.executing) w.doing

Fits-fewer : (max_jobs n k : ℕ) (d : Doing) → k ≤ n → Fits max_jobs n d → Fits max_jobs k d
Fits-fewer max_jobs n k (Doing.asking a) le h = omega (arith, le, h)
Fits-fewer max_jobs n k Doing.unstarted le h = omega (arith, le, h)
Fits-fewer max_jobs n k Doing.outside le h = omega (arith, le, h)
Fits-fewer max_jobs n k Doing.registering le h = omega (arith, le, h)
Fits-fewer max_jobs n k Doing.at_poll le h = omega (arith, le, h)
Fits-fewer max_jobs n k Doing.left le h = omega (arith, le, h)

Fits-le : (max_jobs n : ℕ) (d : Doing) → Fits max_jobs n d → n ≤ max_jobs
Fits-le max_jobs n (Doing.asking a) h = omega (arith, h)
Fits-le max_jobs n Doing.unstarted h = h
Fits-le max_jobs n Doing.outside h = h
Fits-le max_jobs n Doing.registering h = h
Fits-le max_jobs n Doing.at_poll h = h
Fits-le max_jobs n Doing.left h = h

length-process_job :
    (key : Text) (w : Worker) → length (process_job key w).executing ≤ length w.executing + 1
unfolding process_job
length-process_job key w =
    if_split (λ (v : Worker). length v.executing ≤ length w.executing + 1) (has_key key w.active) _
      _ (λ e. omega arith) (λ e. omega arith)

length-process_jobs :
    (keys : List Text) (w : Worker)
    → length (process_jobs keys w).executing ≤ length w.executing + length keys
unfolding process_jobs
length-process_jobs [] w = omega arith
length-process_jobs (key ∷ keys) w =
    if_split (λ (v : Worker). length v.executing ≤ length w.executing + length (key ∷ keys))
      (is_connected w.state) _ _
      (λ e. omega (arith, length-process_jobs keys (process_job key w), length-process_job key w))
      (λ e. omega arith)

-- A poll that is not under way.
connect_failed-IsWithin :
    (max_jobs : ℕ) (fatal : Bool) (w : Worker)
    → length w.executing ≤ max_jobs
    → IsWithin max_jobs (connect_failed fatal w)
unfolding connect_failed stop_worker
connect_failed-IsWithin max_jobs fatal w h =
    if_split (IsWithin max_jobs) (is_stopped w.state) _ _ (λ e. h)
      (λ e. if_split (IsWithin max_jobs) fatal _ _ (λ f. h) (λ f. h))

poll_done-IsWithin :
    (max_jobs n : ℕ) (p : Polled) (w : Worker)
    → Answers (Doing.asking n) (Event.polls p)
    → length w.executing + n ≤ max_jobs
    → IsWithin max_jobs (poll_done p w)
unfolding poll_done
poll_done-IsWithin max_jobs n (Polled.jobs keys) w a h =
    omega (arith, a, h, length-process_jobs keys w)
poll_done-IsWithin max_jobs n Polled.no_jobs w a h = omega (arith, h)
poll_done-IsWithin max_jobs n Polled.not_found w a h =
    if_split (IsWithin max_jobs) (is_connected w.state) _ _ (λ e. omega (arith, h))
      (λ e. omega (arith, h))
poll_done-IsWithin max_jobs n Polled.unauthorized w a h =
    if_split (IsWithin max_jobs) (is_connected w.state) _ _
      (λ e. connect_failed-IsWithin max_jobs true w (omega (arith, h))) (λ e. omega (arith, h))
poll_done-IsWithin max_jobs n Polled.broken w a h =
    if_split (IsWithin max_jobs) (is_connected w.state) _ _ (λ e. omega (arith, h))
      (λ e. omega (arith, h))

go_on-IsWithin :
    (max_jobs : ℕ) (d : Doing) (w : Worker)
    → Tracked w
    → IsWithin max_jobs w
    → IsWithin max_jobs (go_on max_jobs d w)
unfolding go_on begin_connect poll
go_on-IsWithin max_jobs Doing.outside w t h =
    let some_room = Fits-le max_jobs (length w.executing) w.doing h in
    if_split (IsWithin max_jobs) (is_closing w.state) _ _ (λ e. some_room) (λ e. some_room)
go_on-IsWithin max_jobs Doing.at_poll w t h =
    let some_room = Fits-le max_jobs (length w.executing) w.doing h in
    if_split (IsWithin max_jobs) (is_connected w.state) _ _
      (λ e.
        let same = ap (λ (l : List Execution). length l) (t.same (connected_runs w.state e)) in
        if_split (IsWithin max_jobs) (leb max_jobs (length w.active)) _ _ (λ f. h)
          (λ f. omega (arith, some_room, same)))
      (λ e. some_room)
go_on-IsWithin max_jobs Doing.unstarted w t h = h
go_on-IsWithin max_jobs Doing.registering w t h = h
go_on-IsWithin max_jobs (Doing.asking k) w t h = h
go_on-IsWithin max_jobs Doing.left w t h = h

register_done-IsWithin :
    (max_jobs : ℕ) (d : Doing) (w : Worker)
    → IsWithin max_jobs w
    → IsWithin max_jobs (register_done d w)
unfolding register_done connect_done
register_done-IsWithin max_jobs Doing.registering w h =
    let some_room = Fits-le max_jobs (length w.executing) w.doing h in
    if_split (IsWithin max_jobs) (is_connecting w.state) _ _ (λ e. some_room) (λ e. some_room)
register_done-IsWithin max_jobs Doing.unstarted w h = h
register_done-IsWithin max_jobs Doing.outside w h = h
register_done-IsWithin max_jobs Doing.at_poll w h = h
register_done-IsWithin max_jobs (Doing.asking k) w h = h
register_done-IsWithin max_jobs Doing.left w h = h

register_failed-IsWithin :
    (max_jobs : ℕ) (fatal : Bool) (d : Doing) (w : Worker)
    → IsWithin max_jobs w
    → IsWithin max_jobs (register_failed fatal d w)
unfolding register_failed
register_failed-IsWithin max_jobs fatal Doing.registering w h =
    connect_failed-IsWithin max_jobs fatal w (Fits-le max_jobs (length w.executing) w.doing h)
register_failed-IsWithin max_jobs fatal Doing.unstarted w h = h
register_failed-IsWithin max_jobs fatal Doing.outside w h = h
register_failed-IsWithin max_jobs fatal Doing.at_poll w h = h
register_failed-IsWithin max_jobs fatal (Doing.asking k) w h = h
register_failed-IsWithin max_jobs fatal Doing.left w h = h

poll_answered-IsWithin :
    (max_jobs : ℕ) (p : Polled) (d : Doing) (w : Worker)
    → Answers d (Event.polls p)
    → Fits max_jobs (length w.executing) d
    → IsWithin max_jobs w
    → IsWithin max_jobs (poll_answered p d w)
unfolding poll_answered
poll_answered-IsWithin max_jobs p (Doing.asking n) w a f h = poll_done-IsWithin max_jobs n p w a f
poll_answered-IsWithin max_jobs p Doing.unstarted w a f h = h
poll_answered-IsWithin max_jobs p Doing.outside w a f h = h
poll_answered-IsWithin max_jobs p Doing.registering w a f h = h
poll_answered-IsWithin max_jobs p Doing.at_poll w a f h = h
poll_answered-IsWithin max_jobs p Doing.left w a f h = h

step-IsWithin :
    (max_jobs : ℕ) (e : Event) (w : Worker)
    → Tracked w
    → Answers w.doing e
    → IsWithin max_jobs w
    → IsWithin max_jobs (step max_jobs e w)
unfolding step start_worker job_settled drain drain_done stop_worker
step-IsWithin max_jobs Event.starts w t a h =
    if_split (IsWithin max_jobs) (is_idle w.state) _ _
      (λ e. Fits-le max_jobs (length w.executing) w.doing h) (λ e. h)
step-IsWithin max_jobs Event.goes_on w t a h = go_on-IsWithin max_jobs w.doing w t h
step-IsWithin max_jobs Event.registers w t a h = register_done-IsWithin max_jobs w.doing w h
step-IsWithin max_jobs (Event.fails fatal) w t a h =
    register_failed-IsWithin max_jobs fatal w.doing w h
step-IsWithin max_jobs (Event.polls p) w t a h = poll_answered-IsWithin max_jobs p w.doing w a h h
step-IsWithin max_jobs (Event.settles n) w t a h =
    Fits-fewer max_jobs (length w.executing) _ w.doing
      (length-filter-le (λ (x : Execution). not (x.number == n)) w.executing) h
step-IsWithin max_jobs Event.drains w t a h =
    if_split (IsWithin max_jobs) (is_stopped w.state || is_idle w.state || w.drain_called) _ _
      (λ e. h) (λ e. h)
step-IsWithin max_jobs Event.drained w t a h =
    if_split (IsWithin max_jobs) w.drain_called _ _ (λ e. h) (λ e. h)
step-IsWithin max_jobs Event.stops w t a h = h

run-IsWithin :
    (max_jobs : ℕ) (es : List Event) (w : Worker)
    → Polite max_jobs es w
    → Tracked w
    → IsWithin max_jobs w
    → IsWithin max_jobs (run max_jobs es w)
unfolding run Polite
run-IsWithin max_jobs [] w p t h = h
run-IsWithin max_jobs (e ∷ es) w p t h =
    run-IsWithin max_jobs es (step max_jobs e w) p.1 (step-Tracked max_jobs e w t)
      (step-IsWithin max_jobs e w t p.0 h)

-- Where the server never answers a poll with more jobs than it asked for, a worker has at most
-- `max_jobs` executions that have not settled at a time, those that a stop has cancelled included.
pub executions_bounded :
    (max_jobs : ℕ) (es : List Event)
    → Polite max_jobs es new_worker
    → length (run max_jobs es new_worker).executing ≤ max_jobs
executions_bounded max_jobs es polite =
    let w = run max_jobs es new_worker in
    Fits-le max_jobs (length w.executing) w.doing (
      run-IsWithin max_jobs es new_worker polite (record { same = λ e. refl; distinct = tt })
        (omega arith))
