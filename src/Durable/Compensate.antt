-- ===== src/Durable/Compensate.antt =====
-- executeCompensations (packages/node/src/step.ts): the registered compensations, in reverse
-- order, each of them a durable step of its own.
pub mod Order
pub mod Runs
use ironflow_js.Prelude.{
  Bool, true, false, Option, none, some, List, [], ◌∷◌, ◌++◌, map, if◌then◌else◌,
}
use ironflow_js.Durable.Text.{Text}
use ironflow_js.Durable.StepId.{compensate_ns}
use ironflow_js.Durable.Context.{
  Payload, ErrorInfo, StepType, StepResult, Outcome, Context, map_get, generated_id, counted,
  should_skip_step, record_step,
}

unfoldable pub reverse {ℓ} : {A : Type ℓ} → List A → List A
reverse [] = []
reverse (a ∷ s) = reverse s ++ a ∷ []

-- getCompensationsInReverse: names without a function are filtered out.
unfoldable pub with_functions : Context → List Text → List (Text × Outcome)
unfolding map_get
with_functions c [] = []
with_functions c (name ∷ names) =
    let more = with_functions c names in
    elim (map_get name c.compensation_registry) [ none ↦ more | some fn ↦ (name, fn) ∷ more ]

unfoldable pub compensations_in_reverse : Context → List (Text × Outcome)
unfolding reverse with_functions
compensations_in_reverse c = with_functions c (reverse c.compensation_order)

-- What a compensation is recorded with: a failed one is not retryable.
unfoldable pub compensation_outcome : Outcome → Option ErrorInfo
compensation_outcome (Outcome.returns p) = none
compensation_outcome (Outcome.throws e) = some (record { message = e.message; retryable = false })
compensation_outcome (Outcome.signals info) = some (record { message = []; retryable = false })

unfoldable pub compensation_result : Text → Text → Outcome → StepResult
unfolding compensation_outcome
compensation_result id name fn = record {
  id = id;
  name = compensate_ns ++ name;
  type = StepType.compensate;
  outcome = compensation_outcome fn;
  output = Payload.undefined;
  compensation_for = some name;
}

-- The loop's body; `none` where generateStepId throws, the job being cancelled.
unfoldable pub compensate_one : Context → Text → Outcome → Option Context
unfolding generated_id counted should_skip_step record_step compensation_result
compensate_one c name fn =
    let id = generated_id c (compensate_ns ++ name) in
    let after = counted c (compensate_ns ++ name) in
    if c.signal_aborted
    then none
    else if should_skip_step c id
    then some after
    else some (record_step after (compensation_result id name fn))

unfoldable pub compensate_all : Context → List (Text × Outcome) → Option Context
unfolding compensate_one
compensate_all c [] = some c
compensate_all c ((name, fn) ∷ more) = elim (compensate_one c name fn) [
  | none ↦ none
  | some d ↦ compensate_all d more
]

unfoldable pub execute_compensations : Context → Option Context
unfolding compensations_in_reverse compensate_all
execute_compensations c = compensate_all c (compensations_in_reverse c)
