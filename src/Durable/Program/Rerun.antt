-- ===== src/Durable/Program/Rerun.antt =====
-- What has completed is not done again (packages/node/src/step.ts, internal/context.ts).
use ironflow_js.Prelude.{
  if_split, AllSome, AllSome-then, ◌≡◌, refl, Bool, true, false, Option, List, [], ◌∷◌, ◌++◌, All,
  All-append, arith,
}
use ironflow_js.Durable.Text.{Text}
use ironflow_js.Durable.StepId.{compensate_ns, publish_ns}
use ironflow_js.Durable.Context.{
  Result, Context, CompletedStep, StepResult, completed_in, record_step, new_context, ResumeContext,
  YieldInfo, yield_with, Outcome,
}
use ironflow_js.Durable.Context
use ironflow_js.Durable.Step
use ironflow_js.Durable.Step.{Operation, perform, EventFilter}
use ironflow_js.Durable.Compensate.{execute_compensations, compensate_all, compensate_one}
use ironflow_js.Durable.Compensate
use ironflow_js.Durable.Program.{Program, run_program}

-- The rows an invocation received, and the records it made: none under the id of a completed row.
pub record IsOpen (m : List (Text × CompletedStep)) (c : Context) : Type 0 where
  pub same_rows : c.completed_steps ≡ m
  pub none_completed : All (λ (r : StepResult). completed_in m r.id ≡ false) c.executed_steps

record_step-IsOpen :
    (m : List (Text × CompletedStep)) (c : Context) (r : StepResult)
    → IsOpen m c
    → completed_in m r.id ≡ false
    → IsOpen m (record_step c r)
unfolding record_step
record_step-IsOpen m c r h e = record {
  same_rows = h.same_rows;
  none_completed =
      All-append (λ (r : StepResult). completed_in m r.id ≡ false) c.executed_steps (r ∷ [])
        h.none_completed (e, tt);
}

moved-IsOpen :
    (m : List (Text × CompletedStep)) (c d : Context)
    → IsOpen m c
    → d.completed_steps ≡ c.completed_steps
    → d.executed_steps ≡ c.executed_steps
    → IsOpen m d
moved-IsOpen m c d h e f = record {
  same_rows = cc (e, h.same_rows);
  none_completed = rw f h.none_completed;
}

call_step-IsOpen :
    (m : List (Text × CompletedStep)) (c : Context) (id name : Text) (fn : Outcome)
    → IsOpen m c
    → completed_in m id ≡ false
    → IsOpen m (Step.call_step c id name fn).1
unfolding Step.call_step Step.succeed Step.fail Context.note_pending
call_step-IsOpen m c id name (Outcome.throws e) h k = record_step-IsOpen m c _ h k
call_step-IsOpen m c id name (Outcome.signals info) h k = h
call_step-IsOpen m c id name (Outcome.returns output) h k =
    if_split (λ (p : Result × Context). IsOpen m p.1) c.pending _ _
      (λ _. record_step-IsOpen m (Context.note_pending c) _ (moved-IsOpen m c _ h refl refl) k)
      (λ _. record_step-IsOpen m c _ h k)

execute_step-IsOpen :
    (m : List (Text × CompletedStep)) (c : Context) (name : Text) (fn : Outcome) (yields : Bool)
    → IsOpen m c
    → IsOpen m (Step.execute_step c name fn yields).1
unfolding Step.execute_step Context.should_skip_step Step.overlap Context.counted
    Context.note_pending
execute_step-IsOpen m c name fn yields h =
    if_split (λ (p : Result × Context). IsOpen m p.1) (Context.guard_throws c) _ _
      (λ _. moved-IsOpen m c _ h refl refl)
      (λ _.
        if_split (λ (p : Result × Context). IsOpen m p.1) c.signal_aborted _ _ (λ _. h)
          (λ _.
            if_split (λ (p : Result × Context). IsOpen m p.1)
              (completed_in c.completed_steps (Context.generated_id c name)) _ _
              (λ _. moved-IsOpen m c _ h refl refl)
              (λ e.
                call_step-IsOpen m _ (Context.generated_id c name) name fn
                  (moved-IsOpen m c _ h refl refl) (cc (h.same_rows, e)))))

-- The operations that call no function of the application record nothing.
is_quiet : Operation → Bool
is_quiet (Operation.run name fn yields) = false
is_quiet (Operation.publish topic fn yields) = false
is_quiet _ = true

wait_resumed-quiet :
    (c : Context) (id : Text) (f : EventFilter)
    → ((Step.wait_resumed c id f).1.completed_steps ≡ c.completed_steps)
      × ((Step.wait_resumed c id f).1.executed_steps ≡ c.executed_steps)
unfolding Step.wait_for Step.wait_resumed Step.wait_memoized Context.yield_with
    Context.mark_resume_processed
wait_resumed-quiet c id f = ground arith

perform-quiet :
    (c : Context) (op : Operation)
    → is_quiet op ≡ true
    → ((perform op c).1.completed_steps ≡ c.completed_steps)
      × ((perform op c).1.executed_steps ≡ c.executed_steps)
unfolding is_quiet perform Step.execute_sleep Step.execute_sleep_until Step.execute_wait_for_event
    Step.execute_invoke Step.execute_invoke_async Step.compensate Context.note_pending
    Step.sleep_for Step.sleep_to Context.yield_with Context.counted Context.mark_resume_processed
    Context.register_compensation
perform-quiet c (Operation.wait_for_event name f) q =
    ground (arith, wait_resumed-quiet (Context.counted c name) (Context.generated_id c name) f)
perform-quiet c op q = ground arith

perform-IsOpen :
    (m : List (Text × CompletedStep)) (c : Context) (op : Operation)
    → IsOpen m c
    → IsOpen m (perform op c).1
unfolding perform Step.execute_publish is_quiet
perform-IsOpen m c (Operation.run name fn yields) h = execute_step-IsOpen m c name fn yields h
perform-IsOpen m c (Operation.publish name fn yields) h =
    execute_step-IsOpen m c (publish_ns ++ name) fn yields h
perform-IsOpen m c op h =
    moved-IsOpen m c _ h (perform-quiet c op refl).0 (perform-quiet c op refl).1

run_program-IsOpen :
    (m : List (Text × CompletedStep)) (c : Context) (p : Program)
    → IsOpen m c
    → IsOpen m (run_program p c)
unfolding run_program
run_program-IsOpen m c Program.finish h = h
run_program-IsOpen m c (Program.ask op next) h =
    run_program-IsOpen m (perform op c).1 (next (perform op c).0) (perform-IsOpen m c op h)

compensate_one-IsOpen :
    (m : List (Text × CompletedStep)) (c : Context) (name : Text) (fn : Outcome)
    → IsOpen m c
    → AllSome (IsOpen m) (compensate_one c name fn)
unfolding compensate_one Context.should_skip_step Context.counted
compensate_one-IsOpen m c name fn h =
    if_split (AllSome (IsOpen m)) c.signal_aborted _ _ (λ _. tt)
      (λ _.
        if_split (AllSome (IsOpen m))
          (completed_in c.completed_steps (Context.generated_id c (compensate_ns ++ name))) _ _
          (λ _. moved-IsOpen m c _ h refl refl)
          (λ e. record_step-IsOpen m _ _ (moved-IsOpen m c _ h refl refl) (cc (h.same_rows, e))))

compensate_all-IsOpen :
    (m : List (Text × CompletedStep)) (c : Context) (todo : List (Text × Outcome))
    → IsOpen m c
    → AllSome (IsOpen m) (compensate_all c todo)
unfolding compensate_all
compensate_all-IsOpen m c [] h = h
compensate_all-IsOpen m c ((name, fn) ∷ more) h =
    AllSome-then (IsOpen m) (IsOpen m) (λ d. compensate_all d more) (compensate_one c name fn)
      (compensate_one-IsOpen m c name fn h) (λ d k. compensate_all-IsOpen m d more k)

-- Neither a program nor the compensations after it record a step under the id of a row that the
-- invocation received as completed: what has completed is not done again.
pub completed_never_rerun :
    (run_id : Text) (rows : List CompletedStep) (resume : Option ResumeContext) (p : Program)
    → let c = new_context run_id rows resume false in
      IsOpen c.completed_steps (run_program p c)
      × AllSome (IsOpen c.completed_steps) (execute_compensations (run_program p c))
unfolding execute_compensations new_context
completed_never_rerun run_id rows resume p =
    let c = new_context run_id rows resume false in
    let ran =
      run_program-IsOpen c.completed_steps c p (record { same_rows = refl; none_completed = tt }) in
    (
      ran,
      compensate_all-IsOpen c.completed_steps (run_program p c)
          (Compensate.compensations_in_reverse (run_program p c)) ran,
    )
