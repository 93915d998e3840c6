-- ===== src/Durable/Parallel/Tests.antt =====
-- executeParallel of packages/node/src/step.ts at work.
use ironflow_js.Prelude.{
  ℕ, ◌≡◌, ◌≤◌, refl, Bool, false, Option, none, some, List, [], ◌∷◌, length, arith,
}
use ironflow_js.Durable.Text.{codes}
use ironflow_js.Durable.Context.{Payload, Result}
use ironflow_js.Durable.Parallel.{
  Options, OnError, Answer, ended, Ending, Event, run, open_parallel,
}
use ironflow_js.Durable.Parallel.Limit.{concurrency_limit}
use ironflow_js.Durable.Parallel.Sound.{IsComplete}
use ironflow_js.Durable.Parallel.Complete.{results-IsComplete}

-- Three branches, two at a time, all to be settled; the second fails.
abbrev two : Options
two = record { concurrency = 2; on_error = OnError.all_settled }

abbrev late : ℕ → Option (Result × Bool)
late i = none

abbrev failure : Result
failure = Result.invoke_error (codes "b") Payload.undefined

abbrev schedule : List Event
schedule =
    Event.settles 1 failure false
    ∷ Event.removes 1
    ∷ Event.resumes
    ∷ Event.settles 2 (Result.ok Payload.undefined) false
    ∷ Event.settles 0 (Result.ok Payload.null) false
    ∷ Event.removes 0
    ∷ Event.removes 2
    ∷ Event.joins
    ∷ []

abbrev answers : List (Option Ending)
answers =
    some (Ending.value Payload.null)
    ∷ some (Ending.error failure)
    ∷ some (Ending.value Payload.undefined)
    ∷ []

ended_with_all :
    (run two 3 late schedule (open_parallel two 3 late false false)).phase
    ≡ ended (Answer.values answers)
unfolding run open_parallel
ended_with_all = refl

-- The same schedule, failing fast: the third branch is passed over and the error is thrown.
fast_fails :
    let fast = record two { on_error = OnError.fail_fast } in
    (run fast 3 late schedule (open_parallel fast 3 late false false)).phase
    ≡ ended (Answer.failed failure)
unfolding run open_parallel
fast_fails = refl

concurrency_limit_example :
    length (run two 3 late schedule (open_parallel two 3 late false false)).pending ≤ 2
concurrency_limit_example = concurrency_limit two 3 late false false schedule (omega arith)

results-IsComplete_example :
    IsComplete two 3 (run two 3 late schedule (open_parallel two 3 late false false)) answers
results-IsComplete_example =
    results-IsComplete two 3 late false false schedule answers ended_with_all
