-- ===== src/Worker/Checkpoint/Tests.antt =====
-- A concrete job with checkpoints (packages/node/src/worker.ts).
use ironflow_js.Prelude.{
  ℕ, ◌+◌, ◌≡◌, refl, Bool, true, some, List, [], ◌∷◌, ◌++◌, length, All, AllSome, ◌==◌, not,
}
use ironflow_js.Worker.Checkpoint.{
  start_checkpointer, Reply, Event, step, run, step_recorded, schedule_checkpoint, fire_checkpoint,
  start_checkpoint, pending_steps, encodable_steps, begin_checkpoint, reply_checkpoint,
  answer_checkpoint, begin_finish, end_finish,
}
use ironflow_js.Worker.Checkpoint.Sliced.{reported_steps, NumberedFrom, IsSendable}
use ironflow_js.Worker.Checkpoint.Once.{steps_reported_once}

-- Steps are numbers, of which JSON cannot encode 13.
abbrev writable : ℕ → Bool
writable s = not (s == 13)

-- A checkpoint whose answer is lost, one that is taken, and one under way when the job finishes.
abbrev job_events : List (Event ℕ)
job_events =
    Event.records 1
    ∷ Event.fires
    ∷ Event.starts
    ∷ Event.replies Reply.failed
    ∷ Event.records 2
    ∷ Event.fires
    ∷ Event.starts
    ∷ Event.replies Reply.taken
    ∷ Event.records 3
    ∷ Event.records 13
    ∷ Event.fires
    ∷ Event.starts
    ∷ Event.records 5
    ∷ Event.finishes
    ∷ Event.replies Reply.taken
    ∷ Event.ends
    ∷ []

steps_reported_once_example :
    let c = run writable 7 job_events (start_checkpointer true) in
    (rest : List ℕ) × (c.steps ≡ reported_steps c.accepted ++ rest)
    × NumberedFrom 7 c.accepted
    × All (λ (e : ℕ × List ℕ). IsSendable writable e.1) c.accepted
    × AllSome
        (λ (t : List ℕ × ℕ).
          (t.1 ≡ 7 + length (reported_steps c.accepted))
          × ((later : List ℕ) × (rest ≡ t.0 ++ later)))
        c.tail
steps_reported_once_example = steps_reported_once writable 7 true job_events

job_reports :
    let c = run writable 7 job_events (start_checkpointer true) in
    (c.accepted ≡ (7, 1 ∷ 2 ∷ []) ∷ (9, 3 ∷ []) ∷ []) × (c.tail ≡ some (13 ∷ 5 ∷ [], 10))
unfolding run step step_recorded schedule_checkpoint fire_checkpoint start_checkpoint pending_steps
    encodable_steps begin_checkpoint reply_checkpoint answer_checkpoint begin_finish end_finish
job_reports = (refl, refl)
