-- ===== src/Durable/Context.antt =====
-- The state of one invocation of a function (packages/node/src/internal/context.ts) and the guard
-- of a yielded scope (packages/node/src/internal/errors.ts).
use ironflow_js.Prelude.{
  ℕ, ◌+◌, Bool, true, false, ◌||◌, Option, none, some, List, [], ◌∷◌, ◌++◌, if◌then◌else◌,
}
use ironflow_js.Durable.Text.{Text, text_eq}
use ironflow_js.Durable.StepId.{segment, escape_step_id_part}

-- An `unknown` value: the text is its JSON, and `falsy` and `truthy` say what an `if` makes of it.
-- `run_of output` is the object `{ runId: output.run_id }`.
pub data Payload : Type 0 where
  undefined : Payload
  null : Payload
  falsy : Text → Payload
  truthy : Text → Payload
  run_of : Payload → Payload

pub data Status : Type 0 where
  completed : Status
  failed : Status
  timed_out : Status

pub record CompletedStep : Type 0 where
  pub id : Text
  pub status : Status
  pub output : Payload
  pub error : Payload

pub record ErrorInfo : Type 0 where
  pub message : Text
  pub retryable : Bool

pub data StepType : Type 0 where
  invoke : StepType
  compensate : StepType

-- The times of a record are left out.
pub record StepResult : Type 0 where
  pub id : Text
  pub name : Text
  pub type : StepType
  pub outcome : Option ErrorInfo
  pub output : Payload
  pub compensation_for : Option Text

pub data ResumeType : Type 0 where
  sleep : ResumeType
  wait_for_event : ResumeType
  invoke_function : ResumeType
  invoke_function_async : ResumeType

pub record ResumeContext : Type 0 where
  pub step_id : Text
  pub type : ResumeType
  pub data_of : Payload

pub data YieldInfo : Type 0 where
  sleep_until : Text → ℕ → YieldInfo
  wait_event : Text → Text → YieldInfo
  invoke_function : Text → Text → ℕ → YieldInfo
  invoke_function_async : Text → Text → YieldInfo

-- What a step's function, or a compensation, does when it is called.
pub data Outcome : Type 0 where
  returns : Payload → Outcome
  throws : ErrorInfo → Outcome
  signals : YieldInfo → Outcome

-- What an operation of the step client answers.
pub data Result : Type 0 where
  ok : Payload → Result
  aborted : Result
  swallowed : Result
  yielded : YieldInfo → Result
  step_error : Text → ErrorInfo → Result
  invoke_error : Text → Payload → Result
  invalid : Result
  type_error : Result

-- One scope, the function's own or a parallel branch's, and what all scopes of the invocation
-- share. `pending` is the scope's YieldGuard, `invocation_failed` the flag its guards share.
pub record Context : Type 0 where
  pub scope_prefix : Text
  pub legacy_scope_prefix : Text
  pub step_counters : List (Text × ℕ)
  pub pending : Bool
  pub invocation_failed : Bool
  pub signal_aborted : Bool
  pub completed_steps : List (Text × CompletedStep)
  pub executed_steps : List StepResult
  pub resume_context : Option ResumeContext
  pub resume_processed : Bool
  pub compensation_registry : List (Text × Outcome)
  pub compensation_order : List Text

-- A Map with text keys: `get`, `set`.
unfoldable pub map_get : {A : Type 0} → Text → List (Text × A) → Option A
map_get key [] = none
map_get key ((k, a) ∷ rest) = let more = map_get key rest in if text_eq key k then some a else more

unfoldable pub map_set : {A : Type 0} → Text → A → List (Text × A) → List (Text × A)
map_set key a [] = (key, a) ∷ []
map_set key a ((k, b) ∷ rest) =
    let more = map_set key a rest in if text_eq key k then (k, a) ∷ rest else (k, b) ∷ more

unfoldable pub map_has : {A : Type 0} → Text → List (Text × A) → Bool
unfolding map_get
map_has key m = elim (map_get key m) [ none ↦ false | some a ↦ true ]

-- The constructor's loop over the request's steps: a later row of an id replaces an earlier one.
unfoldable pub store_completed :
    List (Text × CompletedStep) → List CompletedStep → List (Text × CompletedStep)
unfolding map_set
store_completed m [] = m
store_completed m (step ∷ steps) = store_completed (map_set step.id step m) steps

unfoldable pub new_context : Text → List CompletedStep → Option ResumeContext → Bool → Context
unfolding store_completed
new_context run_id steps resume is_aborted = record {
  scope_prefix = run_id;
  legacy_scope_prefix = run_id;
  step_counters = [];
  pending = false;
  invocation_failed = false;
  signal_aborted = is_aborted;
  completed_steps = store_completed [] steps;
  executed_steps = [];
  resume_context = resume;
  resume_processed = false;
  compensation_registry = [];
  compensation_order = [];
}

-- createBranchContext: the branch has counters and a guard of its own, and shares the rest.
unfoldable pub branch_context : Context → Text → ℕ → Context
unfolding escape_step_id_part
branch_context c name index = record c {
  scope_prefix = c.scope_prefix ++ segment (escape_step_id_part name) index;
  legacy_scope_prefix = c.legacy_scope_prefix ++ segment name index;
  step_counters = [];
  pending = false;
}

unfoldable pub prefer_legacy_step_id : Context → Text → Text → Text
unfolding text_eq map_has
prefer_legacy_step_id c id legacy =
    if text_eq legacy id
    then id
    else if map_has id c.completed_steps
    then id
    else if map_has legacy c.completed_steps
    then legacy
    else id

unfoldable pub next_index : Context → Text → ℕ
unfolding map_get
next_index c name = elim (map_get name c.step_counters) [ none ↦ 0 | some n ↦ n ]

-- The id that generateStepId answers, and the context after it; it throws first on an abort.
unfoldable pub generated_id : Context → Text → Text
unfolding prefer_legacy_step_id next_index
generated_id c name =
    prefer_legacy_step_id c
      (c.scope_prefix ++ segment (escape_step_id_part name) (next_index c name))
      (c.legacy_scope_prefix ++ segment name (next_index c name))

unfoldable pub counted : Context → Text → Context
unfolding map_set next_index
counted c name = record c { step_counters = map_set name (next_index c name + 1) c.step_counters }

unfoldable pub status_is_completed : Status → Bool
status_is_completed completed = true
status_is_completed _ = false

unfoldable pub completed_in : List (Text × CompletedStep) → Text → Bool
unfolding map_get status_is_completed
completed_in m id = elim (map_get id m) [ none ↦ false | some s ↦ status_is_completed s.status ]

unfoldable pub should_skip_step : Context → Text → Bool
unfolding completed_in
should_skip_step c id = completed_in c.completed_steps id

unfoldable pub output_of : CompletedStep → Payload
output_of s = elim s.status [ completed ↦ s.output | _ ↦ undefined ]

unfoldable pub get_memoized_output : Context → Text → Payload
unfolding map_get output_of
get_memoized_output c id = elim (map_get id c.completed_steps) [
  | none ↦ undefined
  | some s ↦ output_of s
]

unfoldable pub error_of : CompletedStep → Payload
error_of s = elim s.status [ failed ↦ s.error | _ ↦ undefined ]

-- An error that the row holds as JSON text is the value it stands for.
unfoldable pub get_failed_step : Context → Text → Payload
unfolding map_get error_of
get_failed_step c id = elim (map_get id c.completed_steps) [
  | none ↦ undefined
  | some s ↦ error_of s
]

unfoldable pub status_is_timed_out : Status → Bool
status_is_timed_out timed_out = true
status_is_timed_out _ = false

unfoldable pub is_step_timed_out : Context → Text → Bool
unfolding map_get status_is_timed_out
is_step_timed_out c id = elim (map_get id c.completed_steps) [
  | none ↦ false
  | some s ↦ status_is_timed_out s.status
]

unfoldable pub resume_type_eq : ResumeType → ResumeType → Bool
resume_type_eq sleep sleep = true
resume_type_eq wait_for_event wait_for_event = true
resume_type_eq _ _ = false

unfoldable pub is_resuming_from : Context → Text → ResumeType → Bool
unfolding text_eq resume_type_eq
is_resuming_from c id type = elim c.resume_context [
  | none ↦ false
  | some r ↦ if text_eq r.step_id id then resume_type_eq r.type type else false
]

unfoldable pub get_resume_data : Context → Payload
get_resume_data c = elim c.resume_context [ none ↦ undefined | some r ↦ r.data_of ]

unfoldable pub mark_resume_processed : Context → Context
mark_resume_processed c = record c { resume_processed = true }

unfoldable pub record_step : Context → StepResult → Context
record_step c result = record c { executed_steps = c.executed_steps ++ result ∷ [] }

-- Answers none where it throws, the step having a compensation already.
unfoldable pub register_compensation : Context → Text → Outcome → Option Context
unfolding map_has map_set
register_compensation c name fn =
    if map_has name c.compensation_registry
    then none
    else some (record c {
      compensation_registry = map_set name fn c.compensation_registry;
      compensation_order = c.compensation_order ++ name ∷ [];
    })

-- YieldGuard.assertReturned and assertClear: whether they throw, and the flag that the first sets.
unfoldable pub note_pending : Context → Context
note_pending c = record c { invocation_failed = c.pending || c.invocation_failed }

unfoldable pub guard_throws : Context → Bool
guard_throws c = c.pending || c.invocation_failed

-- YieldGuard.yield.
unfoldable pub yield_with : Context → YieldInfo → Result × Context
yield_with c info = (yielded info, record c { pending = true })
