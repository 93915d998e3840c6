-- ===== src/Durable/Program.antt =====
-- A function of the application as the SDK sees it: the operations it asks for, each depending on
-- what the earlier ones answered, errors and yields included, which it may catch
-- (packages/node/src/step.ts).
pub mod Rerun
use ironflow_js.Prelude.{
  ℕ, ◌≡◌, refl, Bool, true, false, Option, none, some, List, [], ◌∷◌, ◌++◌, All, All-append, arith,
  if◌then◌else◌, not, ◌||◌, zero, suc,
}
use ironflow_js.Durable.Text.{Text}
use ironflow_js.Durable.StepId.{compensate_ns, publish_ns}
use ironflow_js.Durable.Context.{
  Result, Context, CompletedStep, StepResult, completed_in, record_step, new_context, ResumeContext,
  YieldInfo, yield_with, Outcome,
}
use ironflow_js.Durable.Context
use ironflow_js.Durable.Step
use ironflow_js.Durable.Step.{Operation, perform, EventFilter}
use ironflow_js.Durable.Compensate.{execute_compensations, compensate_all, compensate_one}
use ironflow_js.Durable.Compensate

pub data Program : Type 0 where
  finish : Program
  ask : Operation → (Result → Program) → Program

unfoldable pub run_program : Program → Context → Context
unfolding perform
run_program Program.finish c = c
run_program (Program.ask op next) c = let p = perform op c in run_program (next p.0) p.1

-- Whether an operation can only yield: it calls no function of the application.
abbrev pub is_wait : Operation → Bool
is_wait (Operation.run name fn yields) = false
is_wait (Operation.publish topic fn yields) = false
is_wait (Operation.compensate_with name fn) = false
is_wait _ = true

-- What no operation changes any more once the scope has yielded.
pub record IsHalted (c d : Context) : Type 0 where
  pub still_pending : d.pending ≡ true
  pub same_executed : d.executed_steps ≡ c.executed_steps
  pub same_counters : d.step_counters ≡ c.step_counters
  pub same_registry : d.compensation_registry ≡ c.compensation_registry
  pub same_resume : d.resume_processed ≡ c.resume_processed

perform-IsHalted : (b c : Context) (op : Operation) → IsHalted b c → IsHalted b (perform op c).1
unfolding perform Step.execute_step Step.execute_sleep Step.execute_sleep_until
    Step.execute_wait_for_event Step.execute_invoke Step.execute_invoke_async Step.execute_publish
    Step.compensate Context.guard_throws Context.note_pending
perform-IsHalted b c (Operation.run name fn yields) h = ground arith
perform-IsHalted b c (Operation.compensate_with name fn) h = ground arith
perform-IsHalted b c (Operation.publish name fn yields) h = ground arith
perform-IsHalted b c op h = ground arith

run_program-IsHalted : (b c : Context) (p : Program) → IsHalted b c → IsHalted b (run_program p c)
unfolding run_program
run_program-IsHalted b c Program.finish h = h
run_program-IsHalted b c (Program.ask op next) h =
    run_program-IsHalted b (perform op c).1 (next (perform op c).0) (perform-IsHalted b c op h)

perform-yields :
    (c : Context) (op : Operation) (info : YieldInfo)
    → is_wait op ≡ true
    → (perform op c).0 ≡ Result.yielded info
    → (perform op c).1.pending ≡ true
unfolding perform Step.execute_sleep Step.execute_sleep_until Step.execute_wait_for_event
    Step.execute_invoke Step.execute_invoke_async Context.guard_throws Context.note_pending
    Step.sleep_for Step.sleep_to Step.wait_resumed Step.wait_memoized Step.wait_for
    Step.event_result Step.invoke_failure Step.run_started Context.yield_with
perform-yields c op info w e = ground arith

-- Once a sleep, sleepUntil, waitForEvent, invoke or invokeAsync of the scope has yielded, no program
-- that goes on, whatever it caught, records a step, takes a step index, registers a compensation or
-- consumes the resume.
pub yield_is_final :
    (c : Context) (op : Operation) (info : YieldInfo) (p : Program)
    → is_wait op ≡ true
    → (perform op c).0 ≡ Result.yielded info
    → IsHalted (perform op c).1 (run_program p (perform op c).1)
yield_is_final c op info p w e = run_program-IsHalted (perform op c).1 (perform op c).1 p (record {
  still_pending = perform-yields c op info w e;
  same_executed = refl;
  same_counters = refl;
  same_registry = refl;
  same_resume = refl;
})
