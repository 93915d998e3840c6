-- ===== src/Worker/Jobs/Distinct.antt =====
-- The executions of a worker have distinct keys (packages/node/src/worker.ts).
use ironflow_js.Prelude.{
  ℕ, ◌≡◌, refl, ap, Bool, true, false, not, List, [], ◌∷◌, ◌||◌, filter, ◌==◌, if_split, leb,
  length, arith,
}
use ironflow_js.Durable.Text.{Text}
use ironflow_js.Worker.Jobs.{
  WorkerState, Doing, Execution, Worker, new_worker, is_idle, is_connecting, is_connected,
  is_stopped, is_closing, has_key, start_worker, begin_connect, connect_done, stop_worker,
  connect_failed, poll, process_job, process_jobs, Polled, poll_done, job_settled, drain,
  drain_done, Event, go_on, register_done, register_failed, poll_answered, step, run,
}

abbrev pub Distinct : List Execution → Type 0
Distinct [] = Unit
Distinct (e ∷ l) = (has_key e.key l ≡ false) × Distinct l

-- Up to the stop, activeJobs holds every execution.
pub record IsTracked (state : WorkerState) (active executing : List Execution) : Type 0 where
  pub same : is_stopped state ≡ false → active ≡ executing
  pub distinct : Distinct executing

abbrev pub Tracked : Worker → Type 0
Tracked w = IsTracked w.state w.active w.executing

pub connected_runs : (s : WorkerState) → is_connected s ≡ true → is_stopped s ≡ false
connected_runs WorkerState.connected e = refl
connected_runs WorkerState.idle e = absurd (cc e)
connected_runs WorkerState.connecting e = absurd (cc e)
connected_runs WorkerState.draining e = absurd (cc e)
connected_runs WorkerState.stopped e = absurd (cc e)

has_key-filter :
    (key : Text) (n : ℕ) (l : List Execution)
    → has_key key l ≡ false
    → has_key key (filter (λ e. not (e.number == n)) l) ≡ false
unfolding has_key
has_key-filter key n [] h = h
has_key-filter key n (e ∷ l) h = ground (arith, has_key-filter key n l)

Distinct-filter :
    (n : ℕ) (l : List Execution) → Distinct l → Distinct (filter (λ e. not (e.number == n)) l)
Distinct-filter n [] h = tt
Distinct-filter n (e ∷ l) h =
    if_split Distinct (not (e.number == n)) _ _
      (λ f. (has_key-filter e.key n l h.0, Distinct-filter n l h.1)) (λ f. Distinct-filter n l h.1)

-- A change of the state that does not leave `stopped`.
moved :
    (w : Worker) (s : WorkerState)
    → (is_stopped s ≡ false → is_stopped w.state ≡ false)
    → Tracked w
    → IsTracked s w.active w.executing
moved w s f h = record { same = λ e. h.same (f e); distinct = h.distinct }

behind_stop : (w : Worker) → Tracked w → IsTracked WorkerState.stopped [] w.executing
behind_stop w h = record { same = λ e. absurd (cc e); distinct = h.distinct }

process_job-Tracked :
    (key : Text) (w : Worker)
    → is_connected w.state ≡ true
    → Tracked w
    → Tracked (process_job key w)
unfolding process_job
process_job-Tracked key w e h =
    let same = h.same (connected_runs w.state e) in
    if_split Tracked (has_key key w.active) _ _ (λ f. h)
      (λ f. record {
        same = λ g. ap (λ (l : List Execution). record { key = key; number = w.started } ∷ l) same;
        distinct = (rw same at f, h.distinct);
      })

process_jobs-Tracked : (keys : List Text) (w : Worker) → Tracked w → Tracked (process_jobs keys w)
unfolding process_jobs
process_jobs-Tracked [] w h = h
process_jobs-Tracked (key ∷ keys) w h =
    if_split Tracked (is_connected w.state) _ _
      (λ e. process_jobs-Tracked keys (process_job key w) (process_job-Tracked key w e h)) (λ e. h)

connect_failed-Tracked : (fatal : Bool) (w : Worker) → Tracked w → Tracked (connect_failed fatal w)
unfolding connect_failed stop_worker
connect_failed-Tracked fatal w h =
    if_split Tracked (is_stopped w.state) _ _ (λ e. h)
      (λ e. if_split Tracked fatal _ _ (λ f. behind_stop w h) (λ f. h))

poll_done-Tracked : (p : Polled) (w : Worker) → Tracked w → Tracked (poll_done p w)
unfolding poll_done
poll_done-Tracked (Polled.jobs keys) w h = process_jobs-Tracked keys w h
poll_done-Tracked Polled.no_jobs w h = h
poll_done-Tracked Polled.not_found w h =
    if_split Tracked (is_connected w.state) _ _
      (λ e. moved w WorkerState.connecting (λ f. connected_runs w.state e) h) (λ e. h)
poll_done-Tracked Polled.unauthorized w h =
    if_split Tracked (is_connected w.state) _ _ (λ e. connect_failed-Tracked true w h) (λ e. h)
poll_done-Tracked Polled.broken w h = if_split Tracked (is_connected w.state) _ _ (λ e. h) (λ e. h)

open_runs : (s : WorkerState) → is_closing s ≡ false → is_stopped s ≡ false
open_runs WorkerState.stopped e = absurd (cc e)
open_runs WorkerState.idle e = refl
open_runs WorkerState.connecting e = refl
open_runs WorkerState.connected e = refl
open_runs WorkerState.draining e = refl

connecting_runs : (s : WorkerState) → is_connecting s ≡ true → is_stopped s ≡ false
connecting_runs WorkerState.connecting e = refl
connecting_runs WorkerState.idle e = absurd (cc e)
connecting_runs WorkerState.connected e = absurd (cc e)
connecting_runs WorkerState.draining e = absurd (cc e)
connecting_runs WorkerState.stopped e = absurd (cc e)

idle_runs : (s : WorkerState) → is_idle s ≡ true → is_stopped s ≡ false
idle_runs WorkerState.idle e = refl
idle_runs WorkerState.connecting e = absurd (cc e)
idle_runs WorkerState.connected e = absurd (cc e)
idle_runs WorkerState.draining e = absurd (cc e)
idle_runs WorkerState.stopped e = absurd (cc e)

go_on-Tracked : (max_jobs : ℕ) (d : Doing) (w : Worker) → Tracked w → Tracked (go_on max_jobs d w)
unfolding go_on begin_connect poll
go_on-Tracked max_jobs Doing.outside w h =
    if_split Tracked (is_closing w.state) _ _ (λ e. h)
      (λ e. moved w WorkerState.connecting (λ f. open_runs w.state e) h)
go_on-Tracked max_jobs Doing.at_poll w h =
    if_split Tracked (is_connected w.state) _ _
      (λ e. if_split Tracked (leb max_jobs (length w.active)) _ _ (λ f. h) (λ f. h)) (λ e. h)
go_on-Tracked max_jobs Doing.unstarted w h = h
go_on-Tracked max_jobs Doing.registering w h = h
go_on-Tracked max_jobs (Doing.asking k) w h = h
go_on-Tracked max_jobs Doing.left w h = h

register_done-Tracked : (d : Doing) (w : Worker) → Tracked w → Tracked (register_done d w)
unfolding register_done connect_done
register_done-Tracked Doing.registering w h =
    if_split Tracked (is_connecting w.state) _ _
      (λ e. moved w WorkerState.connected (λ f. connecting_runs w.state e) h) (λ e. h)
register_done-Tracked Doing.unstarted w h = h
register_done-Tracked Doing.outside w h = h
register_done-Tracked Doing.at_poll w h = h
register_done-Tracked (Doing.asking k) w h = h
register_done-Tracked Doing.left w h = h

register_failed-Tracked :
    (fatal : Bool) (d : Doing) (w : Worker) → Tracked w → Tracked (register_failed fatal d w)
unfolding register_failed
register_failed-Tracked fatal Doing.registering w h = connect_failed-Tracked fatal w h
register_failed-Tracked fatal Doing.unstarted w h = h
register_failed-Tracked fatal Doing.outside w h = h
register_failed-Tracked fatal Doing.at_poll w h = h
register_failed-Tracked fatal (Doing.asking k) w h = h
register_failed-Tracked fatal Doing.left w h = h

poll_answered-Tracked :
    (p : Polled) (d : Doing) (w : Worker) → Tracked w → Tracked (poll_answered p d w)
unfolding poll_answered
poll_answered-Tracked p (Doing.asking k) w h = poll_done-Tracked p w h
poll_answered-Tracked p Doing.unstarted w h = h
poll_answered-Tracked p Doing.outside w h = h
poll_answered-Tracked p Doing.registering w h = h
poll_answered-Tracked p Doing.at_poll w h = h
poll_answered-Tracked p Doing.left w h = h

pub step-Tracked : (max_jobs : ℕ) (e : Event) (w : Worker) → Tracked w → Tracked (step max_jobs e w)
unfolding step start_worker job_settled drain drain_done stop_worker
step-Tracked max_jobs Event.starts w h =
    if_split Tracked (is_idle w.state) _ _
      (λ e. moved w WorkerState.connecting (λ f. idle_runs w.state e) h) (λ e. h)
step-Tracked max_jobs Event.goes_on w h = go_on-Tracked max_jobs w.doing w h
step-Tracked max_jobs Event.registers w h = register_done-Tracked w.doing w h
step-Tracked max_jobs (Event.fails fatal) w h = register_failed-Tracked fatal w.doing w h
step-Tracked max_jobs (Event.polls p) w h = poll_answered-Tracked p w.doing w h
step-Tracked max_jobs (Event.settles n) w h = record {
  same = λ e. ap (filter (λ x. not (x.number == n))) (h.same e);
  distinct = Distinct-filter n w.executing h.distinct;
}
step-Tracked max_jobs Event.drains w h =
    if_split Tracked (is_stopped w.state || is_idle w.state || w.drain_called) _ _ (λ e. h)
      (λ e. moved w WorkerState.draining (λ f. ground (arith, e)) h)
step-Tracked max_jobs Event.drained w h =
    if_split Tracked w.drain_called _ _ (λ e. behind_stop w h) (λ e. h)
step-Tracked max_jobs Event.stops w h = behind_stop w h

run-Tracked :
    (max_jobs : ℕ) (es : List Event) (w : Worker) → Tracked w → Tracked (run max_jobs es w)
unfolding run
run-Tracked max_jobs [] w h = h
run-Tracked max_jobs (e ∷ es) w h =
    run-Tracked max_jobs es (step max_jobs e w) (step-Tracked max_jobs e w h)

-- After any events, no two executions of jobs that have not settled have the same key, also those
-- that a stop has cancelled; and up to the stop activeJobs holds just these executions.
pub keys_unshared :
    (max_jobs : ℕ) (es : List Event)
    → let w = run max_jobs es new_worker in
      Distinct w.executing × (is_stopped w.state ≡ false → w.active ≡ w.executing)
keys_unshared max_jobs es =
    let h = run-Tracked max_jobs es new_worker (record { same = λ e. refl; distinct = tt }) in
    (h.distinct, h.same)
