-- ===== src/Worker/Jobs/Tests.antt =====
-- A concrete worker (packages/node/src/worker.ts).
use ironflow_js.Prelude.{◌≤◌, ◌≡◌, refl, false, true, List, [], ◌∷◌, length, arith}
use ironflow_js.Durable.Text.{Text, text_eq}
use ironflow_js.Worker.Jobs.{
  new_worker, is_closing, is_stopped, Event, Polled, run, step, start_worker, go_on, begin_connect,
  register_done, connect_done, poll, poll_answered, poll_done, process_jobs, process_job, has_key,
  drain, job_settled,
}
use ironflow_js.Worker.Jobs.Distinct.{Distinct, keys_unshared}
use ironflow_js.Worker.Jobs.Within.{Polite, executions_bounded}
use ironflow_js.Worker.Jobs.Closing.{closing_starts_none}

abbrev first_job : Text
first_job = b'a' ∷ []

abbrev second_job : Text
second_job = b'b' ∷ []

-- Of three jobs that it may execute the worker gets one, then the same one and another.
abbrev day : List Event
day =
    Event.starts
    ∷ Event.goes_on
    ∷ Event.registers
    ∷ Event.goes_on
    ∷ Event.polls (Polled.jobs (first_job ∷ []))
    ∷ Event.goes_on
    ∷ Event.polls (Polled.jobs (first_job ∷ second_job ∷ []))
    ∷ Event.goes_on
    ∷ Event.drains
    ∷ Event.settles 0
    ∷ []

keys_unshared_example :
    let w = run 3 day new_worker in
    Distinct w.executing × (is_stopped w.state ≡ false → w.active ≡ w.executing)
keys_unshared_example = keys_unshared 3 day

executions_bounded_example : length (run 3 day new_worker).executing ≤ 3
unfolding step start_worker go_on begin_connect register_done connect_done poll poll_answered
    poll_done process_jobs process_job has_key text_eq drain job_settled Polite
executions_bounded_example =
    executions_bounded 3 day
      (tt, (tt, (tt, (tt, (omega arith, (tt, (omega arith, (tt, (tt, (tt, tt))))))))))

one_goes_on : (run 3 day new_worker).executing ≡ record { key = second_job; number = 1 } ∷ []
unfolding run step start_worker go_on begin_connect register_done connect_done poll poll_answered
    poll_done process_jobs process_job has_key text_eq drain job_settled
one_goes_on = refl

-- The poll that was under way is answered behind the drain.
closing_starts_none_example :
    (is_closing
        (run 3 (Event.polls (Polled.jobs (first_job ∷ [])) ∷ []) (run 3 day new_worker)).state
      ≡ true)
    × ((run 3 (Event.polls (Polled.jobs (first_job ∷ [])) ∷ []) (run 3 day new_worker)).started
        ≡ (run 3 day new_worker).started)
unfolding run step start_worker go_on begin_connect register_done connect_done poll poll_answered
    poll_done process_jobs process_job has_key text_eq drain job_settled
closing_starts_none_example =
    closing_starts_none 3 (Event.polls (Polled.jobs (first_job ∷ [])) ∷ []) (run 3 day new_worker)
      refl
