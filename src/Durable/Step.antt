-- ===== src/Durable/Step.antt =====
-- The operations of the step client (packages/node/src/step.ts). A time is a number of
-- milliseconds, `now` the clock's. What a step's function does is given as an Outcome, a timeout
-- being a throw, together with whether another operation of the scope yielded while it ran.
use ironflow_js.Prelude.{
  ℕ, zero, suc, ◌+◌, Bool, false, ◌||◌, Option, none, some, [], ◌∷◌, ◌++◌, leb, if◌then◌else◌,
}
use ironflow_js.Durable.Text.{Text}
use ironflow_js.Durable.StepId.{publish_ns}
use ironflow_js.Durable.Context.{
  Payload, ErrorInfo, StepType, ResumeType, YieldInfo, Outcome, Result, Context, generated_id,
  counted, should_skip_step, get_memoized_output, get_failed_step, is_step_timed_out,
  is_resuming_from, get_resume_data, mark_resume_processed, record_step, register_compensation,
  note_pending, guard_throws, yield_with,
}

-- The error that the guard throws, a SwallowedYieldError, which is not retryable; the texts of
-- messages that the SDK writes are left out.
abbrev pub swallowed_error : ErrorInfo
swallowed_error = record { message = []; retryable = false }

unfoldable pub succeed : Context → Text → Text → Payload → Result × Context
unfolding record_step
succeed c id name output = (
  Result.ok output,
  record_step c (record {
    id = id;
    name = name;
    type = StepType.invoke;
    outcome = none;
    output = output;
    compensation_for = none;
  }),
)

unfoldable pub fail : Context → Text → Text → ErrorInfo → Result × Context
unfolding record_step
fail c id name e = (
  Result.step_error id e,
  record_step c (record {
    id = id;
    name = name;
    type = StepType.invoke;
    outcome = some e;
    output = Payload.undefined;
    compensation_for = none;
  }),
)

-- The body of executeStep behind the memo: call the function, then record and answer.
unfoldable pub call_step : Context → Text → Text → Outcome → Result × Context
unfolding succeed fail note_pending
call_step c id name (Outcome.returns output) =
    if c.pending then fail (note_pending c) id name swallowed_error else succeed c id name output
call_step c id name (Outcome.throws e) = fail c id name e
call_step c id name (Outcome.signals info) = (Result.yielded info, c)

unfoldable pub overlap : Bool → Context → Context
overlap yields c = record c { pending = yields || c.pending }

unfoldable pub execute_step : Context → Text → Outcome → Bool → Result × Context
unfolding generated_id counted should_skip_step get_memoized_output guard_throws note_pending
    call_step overlap
execute_step c name fn yields =
    let id = generated_id c name in
    if guard_throws c
    then (Result.swallowed, note_pending c)
    else if c.signal_aborted
    then (Result.aborted, c)
    else if should_skip_step c id
    then (Result.ok (get_memoized_output c id), counted c name)
    else call_step (overlap yields (counted c name)) id name fn

-- `none` is a duration that does not parse, or is not a finite number of at least 0.
unfoldable pub sleep_for : Context → Text → ℕ → Option ℕ → Result × Context
unfolding yield_with
sleep_for c id now none = (Result.invalid, c)
sleep_for c id now (some zero) = (Result.invalid, c)
sleep_for c id now (some (suc ms)) = yield_with c (YieldInfo.sleep_until id (now + suc ms))

unfoldable pub execute_sleep : Context → Text → ℕ → Option ℕ → Result × Context
unfolding generated_id counted should_skip_step is_resuming_from mark_resume_processed guard_throws
    note_pending sleep_for
execute_sleep c name now duration =
    let id = generated_id c name in
    if guard_throws c
    then (Result.swallowed, note_pending c)
    else if c.signal_aborted
    then (Result.aborted, c)
    else if is_resuming_from c id ResumeType.sleep
    then (Result.ok Payload.undefined, mark_resume_processed (counted c name))
    else if should_skip_step c id
    then (Result.ok Payload.undefined, counted c name)
    else sleep_for (counted c name) id now duration

-- `none` is an invalid date.
unfoldable pub sleep_to : Context → Text → ℕ → Option ℕ → Result × Context
unfolding yield_with
sleep_to c id now none = (Result.invalid, c)
sleep_to c id now (some wake) =
    if leb wake now then (Result.invalid, c) else yield_with c (YieldInfo.sleep_until id wake)

unfoldable pub execute_sleep_until : Context → Text → ℕ → Option ℕ → Result × Context
unfolding generated_id counted should_skip_step is_resuming_from mark_resume_processed guard_throws
    note_pending sleep_to
execute_sleep_until c name now until =
    let id = generated_id c name in
    if guard_throws c
    then (Result.swallowed, note_pending c)
    else if c.signal_aborted
    then (Result.aborted, c)
    else if is_resuming_from c id ResumeType.sleep
    then (Result.ok Payload.undefined, mark_resume_processed (counted c name))
    else if should_skip_step c id
    then (Result.ok Payload.undefined, counted c name)
    else sleep_to (counted c name) id now until

-- The filter of a wait: its trimmed event name, whether onTimeout is "return-null", and whether
-- onTimeout and timeout are among the values that are accepted.
pub record EventFilter : Type 0 where
  pub event : Text
  pub return_null : Bool
  pub options_valid : Bool

-- What a wait makes of the value that it resumed with or finds memoized; otherwise it goes on.
unfoldable pub event_result : Text → EventFilter → Payload → Option Result
event_result id f Payload.null =
    some (if f.return_null then Result.ok Payload.null else Result.step_error id swallowed_error)
event_result id f (Payload.truthy t) = some (Result.ok (Payload.truthy t))
event_result id f (Payload.run_of o) = some (Result.ok (Payload.run_of o))
event_result id f _ = none

unfoldable pub wait_for : Context → Text → EventFilter → Result × Context
unfolding yield_with
wait_for c id f = elim f.event [
  | [] ↦ (Result.invalid, c)
  | a ∷ s ↦
      if f.options_valid
      then yield_with c (YieldInfo.wait_event id (a ∷ s))
      else (Result.invalid, c)
]

unfoldable pub wait_memoized : Context → Text → EventFilter → Result × Context
unfolding should_skip_step get_memoized_output event_result wait_for
wait_memoized c id f =
    if should_skip_step c id
    then elim (event_result id f (get_memoized_output c id)) [
      | some r ↦ (r, c)
      | none ↦ wait_for c id f
    ]
    else wait_for c id f

unfoldable pub wait_resumed : Context → Text → EventFilter → Result × Context
unfolding is_resuming_from get_resume_data mark_resume_processed event_result wait_memoized
wait_resumed c id f =
    if is_resuming_from c id ResumeType.wait_for_event
    then elim (event_result id f (get_resume_data c)) [
      | some r ↦ (r, mark_resume_processed c)
      | none ↦ wait_memoized (mark_resume_processed c) id f
    ]
    else wait_memoized c id f

unfoldable pub execute_wait_for_event : Context → Text → EventFilter → Result × Context
unfolding generated_id counted guard_throws note_pending wait_resumed
execute_wait_for_event c name f =
    if guard_throws c
    then (Result.swallowed, note_pending c)
    else if c.signal_aborted
    then (Result.aborted, c)
    else wait_resumed (counted c name) (generated_id c name) f

-- What a failed row of an invoked function makes the invoke answer.
unfoldable pub invoke_failure : Text → Payload → Option Result
invoke_failure function_id Payload.undefined = none
invoke_failure function_id e = some (Result.invoke_error function_id e)

unfoldable pub execute_invoke : Context → Text → ℕ → Result × Context
unfolding generated_id counted should_skip_step get_memoized_output get_failed_step
    is_step_timed_out guard_throws note_pending invoke_failure yield_with
execute_invoke c function_id timeout_ms =
    let id = generated_id c function_id in
    let after = counted c function_id in
    if guard_throws c
    then (Result.swallowed, note_pending c)
    else if c.signal_aborted
    then (Result.aborted, c)
    else if should_skip_step c id
    then (Result.ok (get_memoized_output c id), after)
    else elim (invoke_failure function_id (get_failed_step c id)) [
      | some r ↦ (r, after)
      | none ↦
          if is_step_timed_out c id
          then (Result.invoke_error function_id Payload.undefined, after)
          else yield_with after (YieldInfo.invoke_function id function_id timeout_ms)
    ]

-- `{ runId: output.run_id }`, which throws where there is no output.
unfoldable pub run_started : Payload → Result
run_started Payload.undefined = Result.type_error
run_started Payload.null = Result.type_error
run_started output = Result.ok (Payload.run_of output)

unfoldable pub execute_invoke_async : Context → Text → Result × Context
unfolding generated_id counted should_skip_step get_memoized_output get_failed_step guard_throws
    note_pending invoke_failure yield_with run_started
execute_invoke_async c function_id =
    let id = generated_id c function_id in
    let after = counted c function_id in
    if guard_throws c
    then (Result.swallowed, note_pending c)
    else if c.signal_aborted
    then (Result.aborted, c)
    else if should_skip_step c id
    then (run_started (get_memoized_output c id), after)
    else elim (invoke_failure function_id (get_failed_step c id)) [
      | some r ↦ (r, after)
      | none ↦ yield_with after (YieldInfo.invoke_function_async id function_id)
    ]

unfoldable pub execute_publish : Context → Text → Outcome → Bool → Result × Context
unfolding execute_step
execute_publish c topic fn yields = execute_step c (publish_ns ++ topic) fn yields

-- StepClient.compensate: it asks for the scope's own guard only.
unfoldable pub compensate : Context → Text → Outcome → Result × Context
unfolding note_pending register_compensation
compensate c name fn =
    if c.signal_aborted
    then (Result.aborted, c)
    else if c.pending
    then (Result.swallowed, note_pending c)
    else elim (register_compensation c name fn) [
      | none ↦ (Result.invalid, c)
      | some d ↦ (Result.ok Payload.undefined, d)
    ]

pub data Operation : Type 0 where
  run : Text → Outcome → Bool → Operation
  sleep : Text → ℕ → Option ℕ → Operation
  sleep_until : Text → ℕ → Option ℕ → Operation
  wait_for_event : Text → EventFilter → Operation
  invoke : Text → ℕ → Operation
  invoke_async : Text → Operation
  publish : Text → Outcome → Bool → Operation
  compensate_with : Text → Outcome → Operation

-- createStepClient: the client's operations.
unfoldable pub perform : Operation → Context → Result × Context
unfolding execute_step execute_sleep execute_sleep_until execute_wait_for_event execute_invoke
    execute_invoke_async execute_publish compensate
perform (Operation.run name fn yields) c = execute_step c name fn yields
perform (Operation.sleep name now duration) c = execute_sleep c name now duration
perform (Operation.sleep_until name now until) c = execute_sleep_until c name now until
perform (Operation.wait_for_event name f) c = execute_wait_for_event c name f
perform (Operation.invoke function_id timeout_ms) c = execute_invoke c function_id timeout_ms
perform (Operation.invoke_async function_id) c = execute_invoke_async c function_id
perform (Operation.publish topic fn yields) c = execute_publish c topic fn yields
perform (Operation.compensate_with name fn) c = compensate c name fn
