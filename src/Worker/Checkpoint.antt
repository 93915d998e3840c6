-- ===== src/Worker/Checkpoint.antt =====
-- startCheckpointer of packages/node/src/worker.ts, for one execution of a job: the steps that it
-- records are sent in checkpoints while it runs, and the rest in its last update.
pub mod Sliced
pub mod Reported
pub mod Once
mod Tests
use ironflow_js.Prelude.{
  ℕ, zero, suc, ◌+◌, ◌-◌, Bool, true, false, not, ◌&&◌, ◌||◌, Option, none, some, List, [], ◌∷◌,
  ◌++◌, take, length, ltb, if◌then◌else◌,
}

-- DEFAULT_WORKER.MAX_CHECKPOINT_STEPS.
abbrev pub max_checkpoint_steps : ℕ
max_checkpoint_steps = 500

-- `steps` are those of the context, `armed` is the timer, `chain` counts the flushes that have not
-- settled, `sending` are the steps of the one under way, `finishing` is how many of them a call of
-- finish still awaits, and `tail` its answer. `accepted` is a history: the offset and the steps of
-- each checkpoint that was answered with success.
pub record Checkpointer (S : Type 0) : Type 0 where
  pub steps : List S
  pub cursor : ℕ
  pub armed : Bool
  pub stopped : Bool
  pub listening : Bool
  pub failures : ℕ
  pub chain : ℕ
  pub sending : Option (List S)
  pub finishing : Option ℕ
  pub tail : Option (List S × ℕ)
  pub aborted : Bool
  pub accepted : List (ℕ × List S)

-- Without an interval there are no checkpoints.
abbrev pub start_checkpointer : {S : Type 0} → Bool → Checkpointer S
start_checkpointer has_interval = record {
  steps = [];
  cursor = 0;
  armed = false;
  stopped = not has_interval;
  listening = true;
  failures = 0;
  chain = 0;
  sending = none;
  finishing = none;
  tail = none;
  aborted = false;
  accepted = [];
}

pub data Reply : Type 0 where
  taken : Reply
  stale : Reply
  rejected : Reply
  failed : Reply

abbrev pub less : Option ℕ → Option ℕ
less none = none
less (some n) = some (n - 1)

abbrev pub is_waiting_none : {S : Type 0} → Option (List S) → Bool
is_waiting_none none = true
is_waiting_none (some p) = false

-- The code of `finish` behind its await is due.
abbrev pub is_due : {S : Type 0} → Option ℕ → Option (List S × ℕ) → Bool
is_due (some zero) none = true
is_due _ _ = false

module _ {S : Type 0} where
  abbrev pub drop : ℕ → List S → List S
  drop zero l = l
  drop (suc n) [] = []
  drop (suc n) (s ∷ l) = drop n l

  -- The longest prefix that JSON can encode (encode-guard.ts).
  unfoldable pub encodable_steps : (S → Bool) → List S → List S
  encodable_steps encodable [] = []
  encodable_steps encodable (s ∷ l) =
      let rest = encodable_steps encodable l in if encodable s then s ∷ rest else []

  unfoldable pub schedule_checkpoint : Checkpointer S → Checkpointer S
  schedule_checkpoint c = if c.stopped || c.armed then c else record c { armed = true }

  -- The job records a step, which calls onStepRecorded.
  unfoldable pub step_recorded : S → Checkpointer S → Checkpointer S
  unfolding schedule_checkpoint
  step_recorded s c =
      let d : Checkpointer S = record c { steps = c.steps ++ s ∷ [] } in
      if c.listening then schedule_checkpoint d else d

  unfoldable pub fire_checkpoint : Checkpointer S → Checkpointer S
  fire_checkpoint c = if c.armed then record c { armed = false; chain = c.chain + 1 } else c

  abbrev pub settle_checkpoint : Checkpointer S → Checkpointer S
  settle_checkpoint c = record c {
    chain = c.chain - 1;
    finishing = less c.finishing;
    sending = none;
  }

  unfoldable pub begin_checkpoint : List S → Checkpointer S → Checkpointer S
  begin_checkpoint [] c = settle_checkpoint c
  begin_checkpoint (s ∷ l) c = record c { sending = some (s ∷ l) }

  abbrev pub pending_steps : (S → Bool) → Checkpointer S → List S
  unfolding encodable_steps
  pending_steps encodable c =
      encodable_steps encodable (take max_checkpoint_steps (drop c.cursor c.steps))

  -- The first flush of the chain begins, behind the code that awaited those before it.
  unfoldable pub start_checkpoint : (S → Bool) → Checkpointer S → Checkpointer S
  unfolding begin_checkpoint
  start_checkpoint encodable c =
      if ltb 0 c.chain && is_waiting_none c.sending && not (is_due c.finishing c.tail)
      then (if c.stopped
          then settle_checkpoint c
          else begin_checkpoint (pending_steps encodable c) c)
      else c

  abbrev pub cancel : Checkpointer S → Checkpointer S
  cancel c = record c { armed = false; stopped = true; listening = false }

  unfoldable pub answer_checkpoint : ℕ → Reply → List S → Checkpointer S → Checkpointer S
  answer_checkpoint base Reply.taken p c = settle_checkpoint (record c {
    cursor = c.cursor + length p;
    failures = 0;
    accepted = c.accepted ++ (base + c.cursor, p) ∷ [];
  })
  answer_checkpoint base Reply.stale p c = settle_checkpoint (cancel (record c { aborted = true }))
  answer_checkpoint base Reply.rejected p c = settle_checkpoint (record c { stopped = true })
  answer_checkpoint base Reply.failed p c =
      settle_checkpoint (record c { failures = c.failures + 1 })

  -- The answer to a checkpoint, or the failure of its request.
  unfoldable pub reply_checkpoint : ℕ → Reply → Checkpointer S → Checkpointer S
  unfolding answer_checkpoint
  reply_checkpoint base r c = elim c.sending [ none ↦ c | some p ↦ answer_checkpoint base r p c ]

  -- The job's signal, which cancels the checkpoints.
  unfoldable pub abort : Checkpointer S → Checkpointer S
  abort c = cancel (record c { aborted = true })

  -- `finish` up to its await.
  unfoldable pub begin_finish : Checkpointer S → Checkpointer S
  begin_finish c = elim c.finishing [
    | none ↦ record c { armed = false; finishing = some c.chain }
    | some n ↦ c
  ]

  unfoldable pub end_finish : ℕ → Checkpointer S → Checkpointer S
  end_finish base c =
      if is_due c.finishing c.tail
      then record c {
        stopped = true;
        listening = false;
        tail = some (drop c.cursor c.steps, base + c.cursor);
      }
      else c

pub data Event (S : Type 0) : Type 0 where
  records : S → Event S
  fires : Event S
  starts : Event S
  replies : Reply → Event S
  aborts : Event S
  finishes : Event S
  ends : Event S

-- `base` is the job's step_sequence_base.
module _ {S : Type 0} (encodable : S → Bool) (base : ℕ) where
  unfoldable pub step : Event S → Checkpointer S → Checkpointer S
  unfolding step_recorded fire_checkpoint start_checkpoint reply_checkpoint abort begin_finish
      end_finish
  step (Event.records s) c = step_recorded s c
  step Event.fires c = fire_checkpoint c
  step Event.starts c = start_checkpoint encodable c
  step (Event.replies r) c = reply_checkpoint base r c
  step Event.aborts c = abort c
  step Event.finishes c = begin_finish c
  step Event.ends c = end_finish base c

  unfoldable pub run : List (Event S) → Checkpointer S → Checkpointer S
  unfolding step
  run [] c = c
  run (e ∷ es) c = run es (step e c)
