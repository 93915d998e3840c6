-- ===== src/Durable/Tests.antt =====
-- Concrete invocations of durable functions (packages/node/src/step.ts).
use ironflow_js.Prelude.{AllSome, ◌≡◌, refl, true, false, none, some, [], ◌∷◌, ◌++◌}
use ironflow_js.Durable.Text.{Text, strip_prefix}
use ironflow_js.Durable.StepId.{Scope, segment, scope_id}
use ironflow_js.Durable.Distinct.{ids_of, IsApart, step_ids_never_repeat}
use ironflow_js.Durable.StepId.Unique.{step_ids_unique}
use ironflow_js.Durable.Context.{
  Payload, Status, CompletedStep, ErrorInfo, StepResult, Outcome, Result, YieldInfo, Context,
  new_context, branch_context, generated_id, ResumeContext,
}
use ironflow_js.Durable.Context
use ironflow_js.Durable.Step.{Operation, perform, execute_step}
use ironflow_js.Durable.Step
use ironflow_js.Durable.Compensate.{reverse, execute_compensations}
use ironflow_js.Durable.Compensate.Runs.{every_compensation_runs, compensated, all_names}
use ironflow_js.Durable.Legacy.{completed_row}
use ironflow_js.Durable.Program.{Program, run_program, yield_is_final, IsHalted}
use ironflow_js.Durable.Program.Rerun.{completed_never_rerun, IsOpen}

abbrev r1 : Text
r1 = b'r' ∷ []

abbrev a : Text
a = b'a' ∷ []

abbrev b : Text
b = b'b' ∷ []

abbrev paid : Payload
paid = Payload.truthy (b'1' ∷ [])

abbrev fresh : Context
fresh = new_context r1 [] none false

abbrev nested : Scope
nested = (a, 2) ∷ (b'x' ∷ b':' ∷ [], 0) ∷ []

step_ids_unique_example : nested ≡ nested
unfolding strip_prefix
step_ids_unique_example =
    step_ids_unique r1 nested nested ((refl, refl), ((refl, refl), tt))
      ((refl, refl), ((refl, refl), tt)) refl

-- Two steps, a compensation for each, a failing step at last.
abbrev order_program : Program
order_program = Program.ask (Operation.run a (Outcome.returns paid) false) (λ _.
    Program.ask
      (Operation.compensate_with a (Outcome.throws (record { message = []; retryable = true })))
      (λ _. Program.ask (Operation.run b (Outcome.returns paid) false) (λ _.
        Program.ask (Operation.compensate_with b (Outcome.returns Payload.undefined))
          (λ _. Program.finish))))

-- The function goes on after its sleep has yielded.
abbrev nap : Operation
nap = Operation.sleep a 100 (some 5)

yield_is_final_example :
    IsHalted (perform nap fresh).1 (run_program order_program (perform nap fresh).1)
unfolding perform Step.execute_sleep new_context Context.guard_throws Context.is_resuming_from
    Context.should_skip_step Context.completed_in Context.map_get Step.sleep_for Context.yield_with
    Context.store_completed
yield_is_final_example =
    yield_is_final fresh nap (YieldInfo.sleep_until (generated_id fresh a) 105) order_program refl
      refl

abbrev first_row : CompletedStep
first_row = completed_row (r1 ++ segment a 0) paid

completed_never_rerun_example :
    let c = new_context r1 (first_row ∷ []) none false in
    IsOpen c.completed_steps (run_program order_program c)
    × AllSome (IsOpen c.completed_steps) (execute_compensations (run_program order_program c))
completed_never_rerun_example = completed_never_rerun r1 (first_row ∷ []) none order_program

abbrev ended : Context
ended = run_program order_program fresh

every_compensation_runs_example :
    (e : Context) × (execute_compensations ended ≡ some e)
    × (compensated e.executed_steps
        ≡ compensated ended.executed_steps ++ all_names (reverse ended.compensation_registry))
unfolding run_program perform execute_step Step.compensate new_context Context.register_compensation
    Step.call_step Step.succeed Step.overlap Context.counted Context.record_step
    Context.guard_throws Context.should_skip_step Context.completed_in Context.map_get
    Context.map_has Context.store_completed Context.map_set
every_compensation_runs_example = every_compensation_runs r1 order_program refl

abbrev in_branch : Context
in_branch = branch_context fresh a 2

step_ids_never_repeat_example : IsApart (ids_of in_branch (b ∷ a ∷ b ∷ []))
unfolding strip_prefix branch_context new_context Context.store_completed scope_id
step_ids_never_repeat_example =
    step_ids_never_repeat r1 ((a, 2) ∷ []) in_branch (b ∷ a ∷ b ∷ []) refl refl ((refl, refl), tt)
      ((refl, refl), ((refl, refl), ((refl, refl), tt)))
