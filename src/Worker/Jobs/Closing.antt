-- ===== src/Worker/Jobs/Closing.antt =====
-- A worker that drains or has stopped starts no more jobs (packages/node/src/worker.ts).
use ironflow_js.Prelude.{ℕ, ◌≡◌, refl, Bool, true, false, List, [], ◌∷◌, ◌||◌, if_split}
use ironflow_js.Durable.Text.{Text}
use ironflow_js.Worker.Jobs.{
  WorkerState, Doing, Worker, is_idle, is_connecting, is_connected, is_stopped, is_closing,
  start_worker, begin_connect, connect_done, stop_worker, connect_failed, poll, process_jobs,
  Polled, poll_done, job_settled, drain, drain_done, Event, go_on, register_done, register_failed,
  poll_answered, step, run,
}

-- No job more has been started.
abbrev IsClosed : ℕ → Worker → Type 0
IsClosed n w = (is_closing w.state ≡ true) × (w.started ≡ n)

closing_not_connected :
    (s : WorkerState)
    → is_closing s ≡ true
    → (is_connected s ≡ false) × (is_connecting s ≡ false) × (is_idle s ≡ false)
closing_not_connected WorkerState.idle e = absurd (cc e)
closing_not_connected WorkerState.connecting e = absurd (cc e)
closing_not_connected WorkerState.connected e = absurd (cc e)
closing_not_connected WorkerState.draining e = (refl, refl, refl)
closing_not_connected WorkerState.stopped e = (refl, refl, refl)

process_jobs-IsClosed :
    (n : ℕ) (keys : List Text) (w : Worker) → IsClosed n w → IsClosed n (process_jobs keys w)
unfolding process_jobs
process_jobs-IsClosed n [] w h = h
process_jobs-IsClosed n (key ∷ keys) w h =
    let other = (closing_not_connected w.state h.0).0 in
    if_split (IsClosed n) (is_connected w.state) _ _ (λ e. absurd (cc (e, other))) (λ e. h)

connect_failed-IsClosed :
    (n : ℕ) (fatal : Bool) (w : Worker) → IsClosed n w → IsClosed n (connect_failed fatal w)
unfolding connect_failed stop_worker
connect_failed-IsClosed n fatal w h =
    if_split (IsClosed n) (is_stopped w.state) _ _ (λ e. h)
      (λ e. if_split (IsClosed n) fatal _ _ (λ f. (refl, h.1)) (λ f. h))

poll_done-IsClosed : (n : ℕ) (p : Polled) (w : Worker) → IsClosed n w → IsClosed n (poll_done p w)
unfolding poll_done
poll_done-IsClosed n (Polled.jobs keys) w h = process_jobs-IsClosed n keys w h
poll_done-IsClosed n Polled.no_jobs w h = h
poll_done-IsClosed n Polled.not_found w h =
    let other = (closing_not_connected w.state h.0).0 in
    if_split (IsClosed n) (is_connected w.state) _ _ (λ e. absurd (cc (e, other))) (λ e. h)
poll_done-IsClosed n Polled.unauthorized w h =
    if_split (IsClosed n) (is_connected w.state) _ _ (λ e. connect_failed-IsClosed n true w h)
      (λ e. h)
poll_done-IsClosed n Polled.broken w h =
    if_split (IsClosed n) (is_connected w.state) _ _ (λ e. h) (λ e. h)

go_on-IsClosed :
    (max_jobs n : ℕ) (d : Doing) (w : Worker) → IsClosed n w → IsClosed n (go_on max_jobs d w)
unfolding go_on begin_connect poll
go_on-IsClosed max_jobs n Doing.outside w h =
    if_split (IsClosed n) (is_closing w.state) _ _ (λ e. h) (λ e. absurd (cc (e, h.0)))
go_on-IsClosed max_jobs n Doing.at_poll w h =
    let other = (closing_not_connected w.state h.0).0 in
    if_split (IsClosed n) (is_connected w.state) _ _ (λ e. absurd (cc (e, other))) (λ e. h)
go_on-IsClosed max_jobs n Doing.unstarted w h = h
go_on-IsClosed max_jobs n Doing.registering w h = h
go_on-IsClosed max_jobs n (Doing.asking k) w h = h
go_on-IsClosed max_jobs n Doing.left w h = h

register_done-IsClosed :
    (n : ℕ) (d : Doing) (w : Worker) → IsClosed n w → IsClosed n (register_done d w)
unfolding register_done connect_done
register_done-IsClosed n Doing.registering w h =
    let other = (closing_not_connected w.state h.0).1 in
    if_split (IsClosed n) (is_connecting w.state) _ _ (λ e. absurd (cc (e, other))) (λ e. h)
register_done-IsClosed n Doing.unstarted w h = h
register_done-IsClosed n Doing.outside w h = h
register_done-IsClosed n Doing.at_poll w h = h
register_done-IsClosed n (Doing.asking k) w h = h
register_done-IsClosed n Doing.left w h = h

register_failed-IsClosed :
    (n : ℕ) (fatal : Bool) (d : Doing) (w : Worker)
    → IsClosed n w
    → IsClosed n (register_failed fatal d w)
unfolding register_failed
register_failed-IsClosed n fatal Doing.registering w h = connect_failed-IsClosed n fatal w h
register_failed-IsClosed n fatal Doing.unstarted w h = h
register_failed-IsClosed n fatal Doing.outside w h = h
register_failed-IsClosed n fatal Doing.at_poll w h = h
register_failed-IsClosed n fatal (Doing.asking k) w h = h
register_failed-IsClosed n fatal Doing.left w h = h

poll_answered-IsClosed :
    (n : ℕ) (p : Polled) (d : Doing) (w : Worker) → IsClosed n w → IsClosed n (poll_answered p d w)
unfolding poll_answered
poll_answered-IsClosed n p (Doing.asking k) w h = poll_done-IsClosed n p w h
poll_answered-IsClosed n p Doing.unstarted w h = h
poll_answered-IsClosed n p Doing.outside w h = h
poll_answered-IsClosed n p Doing.registering w h = h
poll_answered-IsClosed n p Doing.at_poll w h = h
poll_answered-IsClosed n p Doing.left w h = h

step-IsClosed :
    (max_jobs n : ℕ) (e : Event) (w : Worker) → IsClosed n w → IsClosed n (step max_jobs e w)
unfolding step start_worker job_settled drain drain_done stop_worker
step-IsClosed max_jobs n Event.starts w h =
    let other = (closing_not_connected w.state h.0).2 in
    if_split (IsClosed n) (is_idle w.state) _ _ (λ e. absurd (cc (e, other))) (λ e. h)
step-IsClosed max_jobs n Event.goes_on w h = go_on-IsClosed max_jobs n w.doing w h
step-IsClosed max_jobs n Event.registers w h = register_done-IsClosed n w.doing w h
step-IsClosed max_jobs n (Event.fails fatal) w h = register_failed-IsClosed n fatal w.doing w h
step-IsClosed max_jobs n (Event.polls p) w h = poll_answered-IsClosed n p w.doing w h
step-IsClosed max_jobs n (Event.settles k) w h = h
step-IsClosed max_jobs n Event.drains w h =
    if_split (IsClosed n) (is_stopped w.state || is_idle w.state || w.drain_called) _ _ (λ e. h)
      (λ e. (refl, h.1))
step-IsClosed max_jobs n Event.drained w h =
    if_split (IsClosed n) w.drain_called _ _ (λ e. (refl, h.1)) (λ e. h)
step-IsClosed max_jobs n Event.stops w h = (refl, h.1)

run-IsClosed :
    (max_jobs n : ℕ) (es : List Event) (w : Worker) → IsClosed n w → IsClosed n (run max_jobs es w)
unfolding run
run-IsClosed max_jobs n [] w h = h
run-IsClosed max_jobs n (e ∷ es) w h =
    run-IsClosed max_jobs n es (step max_jobs e w) (step-IsClosed max_jobs n e w h)

-- A worker that drains or has stopped does so whatever comes after: it neither connects again nor
-- starts a job, also not one of a poll that is answered later.
pub closing_starts_none :
    (max_jobs : ℕ) (es : List Event) (w : Worker)
    → is_closing w.state ≡ true
    → (is_closing (run max_jobs es w).state ≡ true) × ((run max_jobs es w).started ≡ w.started)
closing_starts_none max_jobs es w closing = run-IsClosed max_jobs w.started es w (closing, refl)
