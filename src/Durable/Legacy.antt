-- ===== src/Durable/Legacy.antt =====
-- The lookup of a step under the id that SDKs before escaping wrote
-- (packages/node/src/internal/context.ts).
use ironflow_js.Prelude.{ℕ, ◌≡◌, refl, ◌∙◌, Bool, false, none, some, [], ◌∷◌, ◌++◌, arith}
use mathlib.Core.List.{append_assoc}
use ironflow_js.Durable.Text.{Text, colon, decimal, text_eq_iff}
use ironflow_js.Durable.StepId.{escape_step_id_part, segment}
use ironflow_js.Durable.Context.{
  Payload, Status, CompletedStep, Outcome, Result, Context, new_context, branch_context,
  generated_id, map_get,
}
use ironflow_js.Durable.Context
use ironflow_js.Durable.Step.{execute_step}

abbrev pub completed_row : Text → Payload → CompletedStep
completed_row id output = record {
  id = id;
  status = Status.completed;
  output = output;
  error = Payload.undefined;
}

-- The name `p:i:n` of a step.
abbrev pub joined_name : Text → ℕ → Text → Text
joined_name p i n = p ++ colon ∷ decimal i ++ colon ∷ n

pub escaped_id :
    (c : Context) (name : Text)
    → c.completed_steps ≡ []
    → generated_id c name
      ≡ c.scope_prefix ++ segment (escape_step_id_part name) (Context.next_index c name)
unfolding generated_id Context.prefer_legacy_step_id map_get Context.map_has
escaped_id c name h = ground arith

branch_id :
    (run p n : Text) (i : ℕ)
    → escape_step_id_part p ≡ p
    → escape_step_id_part n ≡ n
    → generated_id (branch_context (new_context run [] none false) p i) n
      ≡ run ++ segment (joined_name p i n) 0
unfolding branch_context new_context Context.next_index map_get Context.store_completed
branch_id run p n i ep en =
    let made = escaped_id (branch_context (new_context run [] none false) p i) n refl in
    let flat : (run ++ segment (escape_step_id_part p) i) ++ segment (escape_step_id_part n) 0
        ≡ run ++ segment (joined_name p i n) 0 =
      simp (ep, en, append_assoc) in
    made ∙ flat

legacy_id :
    (run name : Text) (output : Payload)
    → generated_id
        (new_context run (completed_row (run ++ segment name 0) output ∷ []) none false)
        name
      ≡ run ++ segment name 0
unfolding generated_id new_context Context.prefer_legacy_step_id Context.next_index map_get
    Context.map_has Context.store_completed Context.map_set
legacy_id run name output = ground (
  arith,
  text_eq_iff (run ++ segment name 0) (run ++ segment (escape_step_id_part name) 0),
  text_eq_iff (run ++ segment (escape_step_id_part name) 0) (run ++ segment name 0),
  text_eq_iff (run ++ segment name 0) (run ++ segment name 0),
)

memoized_result :
    (c : Context) (name : Text) (fn : Outcome) (yields : Bool) (output : Payload)
    → Context.guard_throws c ≡ false
    → c.signal_aborted ≡ false
    → map_get (generated_id c name) c.completed_steps
      ≡ some (completed_row (generated_id c name) output)
    → (execute_step c name fn yields).0 ≡ Result.ok output
unfolding execute_step Context.should_skip_step Context.completed_in Context.get_memoized_output
    Context.output_of Context.status_is_completed
memoized_result c name fn yields output g a m = ground arith

-- A run's only row being that of step `n` in branch `i` of the parallel `p`, a step of the
-- function itself that is called `p:i:n` takes that row for its own: it is not run and answers
-- the branch step's output. Neither `p` nor `n` has a character that is escaped.
pub legacy_lookup_takes_branch_row :
    (run p n : Text) (i : ℕ) (output : Payload) (fn : Outcome)
    → escape_step_id_part p ≡ p
    → escape_step_id_part n ≡ n
    → let id = generated_id (branch_context (new_context run [] none false) p i) n in
      (execute_step
        (new_context run (completed_row id output ∷ []) none false)
        (joined_name p i n)
        fn
        false).0
      ≡ Result.ok output
unfolding new_context map_get Context.store_completed Context.map_set Context.guard_throws
legacy_lookup_takes_branch_row run p n i output fn ep en =
    let same = branch_id run p n i ep en in
    let id = run ++ segment (joined_name p i n) 0 in
    let c = new_context run (completed_row id output ∷ []) none false in
    let taken = legacy_id run (joined_name p i n) output in
    let row : map_get (generated_id c (joined_name p i n)) c.completed_steps
        ≡ some (completed_row (generated_id c (joined_name p i n)) output) =
      rw taken (ground (arith, text_eq_iff id id)) in
    rw same (memoized_result c (joined_name p i n) fn false output refl refl row)
