-- ===== src/Worker/Checkpoint/Once.antt =====
-- Each step of a job is reported once, under its number (packages/node/src/worker.ts).
use ironflow_js.Prelude.{
  ℕ, zero, suc, ◌+◌, ◌-◌, ◌<◌, ◌≡◌, refl, ap, ◌∙◌, Bool, true, false, not, ◌&&◌, ◌||◌, Option, none,
  some, Option-split, if_split, List, [], ◌∷◌, ◌++◌, length, ltb, All, AllSome, arith,
}
use ironflow_js.Worker.Checkpoint.{
  Checkpointer, start_checkpointer, Reply, less, is_waiting_none, is_due, drop, encodable_steps,
  schedule_checkpoint, step_recorded, fire_checkpoint, begin_checkpoint, pending_steps,
  start_checkpoint, answer_checkpoint, reply_checkpoint, abort, begin_finish, end_finish, Event,
  step, run,
}
use ironflow_js.Worker.Checkpoint.Sliced.{
  AllSome-map, reported_steps, NumberedFrom, IsSendable, pending_front,
}
use ironflow_js.Worker.Checkpoint.Reported.{
  IsDone, IsReported-grown, IsReported-queued, IsReported-settled, IsReported-stopped,
  IsReported-sending, IsReported-taken, IsReported-finishing, IsReported-ended, tail_none,
}

not_due :
    {S : Type 0} (finishing : Option ℕ) (tail : Option (List S × ℕ))
    → is_due finishing tail ≡ false
    → tail ≡ none
    → AllSome (λ n. 0 < n) finishing
not_due none tail e f = tt
not_due (some zero) tail e f = absurd (ground (arith, e, f))
not_due (some (suc n)) tail e f = omega arith

module _ {S : Type 0} (encodable : S → Bool) (base : ℕ) where
  schedule_checkpoint-IsDone :
      (c : Checkpointer S) → IsDone encodable base c → IsDone encodable base (schedule_checkpoint c)
  unfolding schedule_checkpoint
  schedule_checkpoint-IsDone c h =
      if_split (IsDone encodable base) (c.stopped || c.armed) _ _ (λ e. h) (λ e. h)

  step_recorded-IsDone :
      (s : S) (c : Checkpointer S)
      → IsDone encodable base c
      → IsDone encodable base (step_recorded s c)
  unfolding step_recorded
  step_recorded-IsDone s c h =
      let d : Checkpointer S = record c { steps = c.steps ++ s ∷ [] } in
      let g = IsReported-grown h s in
      if_split (IsDone encodable base) c.listening _ _ (λ e. schedule_checkpoint-IsDone d g)
        (λ e. g)

  fire_checkpoint-IsDone :
      (c : Checkpointer S) → IsDone encodable base c → IsDone encodable base (fire_checkpoint c)
  unfolding fire_checkpoint
  fire_checkpoint-IsDone c h =
      if_split (IsDone encodable base) c.armed _ _ (λ e. IsReported-queued h) (λ e. h)

  begin_checkpoint-IsDone :
      (p : List S) (c : Checkpointer S)
      → IsDone encodable base c
      → c.stopped ≡ false
      → 0 < c.chain
      → AllSome (λ n. 0 < n) c.finishing
      → (more : List S) × (drop c.cursor c.steps ≡ p ++ more) × IsSendable encodable p
      → IsDone encodable base (begin_checkpoint p c)
  unfolding begin_checkpoint
  begin_checkpoint-IsDone [] c h runs some_flush awaited front =
      IsReported-settled h c.stopped (c.chain - 1) (less c.finishing) (λ e. e)
  begin_checkpoint-IsDone (s ∷ l) c h runs some_flush awaited front =
      IsReported-sending h (s ∷ l) runs some_flush awaited front

  start_checkpoint-IsDone :
      (c : Checkpointer S)
      → IsDone encodable base c
      → IsDone encodable base (start_checkpoint encodable c)
  unfolding start_checkpoint pending_steps encodable_steps
  start_checkpoint-IsDone c h =
      if_split (IsDone encodable base)
        (ltb 0 c.chain && is_waiting_none c.sending && not (is_due c.finishing c.tail)) _ _
        (λ e.
          if_split (IsDone encodable base) c.stopped _ _
            (λ stopped. IsReported-settled h c.stopped (c.chain - 1) (less c.finishing) (λ f. f))
            (λ runs.
              begin_checkpoint-IsDone (pending_steps encodable c) c h runs (ground (arith, e))
                (not_due c.finishing c.tail (ground (arith, e)) (tail_none h runs))
                (pending_front encodable (drop c.cursor c.steps))))
        (λ e. h)

  answer_checkpoint-IsDone :
      (r : Reply) (p : List S) (c : Checkpointer S)
      → c.sending ≡ some p
      → IsDone encodable base c
      → IsDone encodable base (answer_checkpoint base r p c)
  unfolding answer_checkpoint
  answer_checkpoint-IsDone Reply.taken p c e h =
      IsReported-taken h p (c.chain - 1) (less c.finishing) e
  answer_checkpoint-IsDone Reply.stale p c e h =
      IsReported-settled h true (c.chain - 1) (less c.finishing) (λ f. refl)
  answer_checkpoint-IsDone Reply.rejected p c e h =
      IsReported-settled h true (c.chain - 1) (less c.finishing) (λ f. refl)
  answer_checkpoint-IsDone Reply.failed p c e h =
      IsReported-settled h c.stopped (c.chain - 1) (less c.finishing) (λ f. f)

  reply_checkpoint-IsDone :
      (r : Reply) (c : Checkpointer S)
      → IsDone encodable base c
      → IsDone encodable base (reply_checkpoint base r c)
  unfolding reply_checkpoint
  reply_checkpoint-IsDone r c h =
      Option-split (IsDone encodable base) c.sending _ _ (λ e. h)
        (λ p e. answer_checkpoint-IsDone r p c e h)

  begin_finish-IsDone :
      (c : Checkpointer S) → IsDone encodable base c → IsDone encodable base (begin_finish c)
  unfolding begin_finish
  begin_finish-IsDone c h =
      Option-split (IsDone encodable base) c.finishing _ _ (λ e. IsReported-finishing h e)
        (λ n e. h)

  end_finish-IsDone :
      (c : Checkpointer S) → IsDone encodable base c → IsDone encodable base (end_finish base c)
  unfolding end_finish
  end_finish-IsDone c h =
      if_split (IsDone encodable base) (is_due c.finishing c.tail) _ _ (λ e. IsReported-ended h e)
        (λ e. h)

  step-IsDone :
      (e : Event S) (c : Checkpointer S)
      → IsDone encodable base c
      → IsDone encodable base (step encodable base e c)
  unfolding step abort
  step-IsDone (Event.records s) c h = step_recorded-IsDone s c h
  step-IsDone Event.fires c h = fire_checkpoint-IsDone c h
  step-IsDone Event.starts c h = start_checkpoint-IsDone c h
  step-IsDone (Event.replies r) c h = reply_checkpoint-IsDone r c h
  step-IsDone Event.aborts c h = IsReported-stopped h
  step-IsDone Event.finishes c h = begin_finish-IsDone c h
  step-IsDone Event.ends c h = end_finish-IsDone c h

  run-IsDone :
      (es : List (Event S)) (c : Checkpointer S)
      → IsDone encodable base c
      → IsDone encodable base (run encodable base es c)
  unfolding run
  run-IsDone [] c h = h
  run-IsDone (e ∷ es) c h = run-IsDone es (step encodable base e c) (step-IsDone e c h)

  start-IsDone : (has_interval : Bool) → IsDone encodable base (start_checkpointer has_interval)
  start-IsDone has_interval = record {
    rest = [];
    split = refl;
    reached = refl;
    sent = tt;
    busy = λ e. absurd (cc e);
    numbered = tt;
    sendable = tt;
    ended = tt;
  }

-- However the checkpoints of a job are timed, answered, broken off or aborted: those that were
-- taken hold the job's first steps, each under its number from `base` on, no more than 500 at a time
-- and only such as JSON can encode; and where `finish` has answered, its steps are the next ones,
-- under their number.
pub steps_reported_once :
    {S : Type 0} (encodable : S → Bool) (base : ℕ) (has_interval : Bool) (es : List (Event S))
    → let c = run encodable base es (start_checkpointer has_interval) in
      (rest : List S) × (c.steps ≡ reported_steps c.accepted ++ rest)
      × NumberedFrom base c.accepted
      × All (λ (e : ℕ × List S). IsSendable encodable e.1) c.accepted
      × AllSome
          (λ (t : List S × ℕ).
            (t.1 ≡ base + length (reported_steps c.accepted))
            × ((later : List S) × (rest ≡ t.0 ++ later)))
          c.tail
steps_reported_once encodable base has_interval es =
    let c = run encodable base es (start_checkpointer has_interval) in
    let h =
      run-IsDone encodable base es (start_checkpointer has_interval)
        (start-IsDone encodable base has_interval) in
    (
      h.rest,
      h.split,
      h.numbered,
      h.sendable,
      AllSome-map _ _ (λ t q. (q.2 ∙ ap (λ n. base + n) h.reached, q.3)) c.tail h.ended,
    )
