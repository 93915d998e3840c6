-- ===== src/Durable/Compensate/Runs.antt =====
-- Every registered compensation runs (packages/node/src/step.ts).
use ironflow_js.Prelude.{◌≡◌, refl, ap, sym, false, Option, none, some, List, [], ◌∷◌, ◌++◌, arith}
use mathlib.Core.List.{append_assoc, append-nil}
use ironflow_js.Durable.Text.{Text}
use ironflow_js.Durable.StepId.{compensate_ns}
use ironflow_js.Durable.Context.{
  Outcome, Context, CompletedStep, StepResult, map_get, map_set, map_has, new_context,
  ResumeContext,
}
use ironflow_js.Durable.Context
use ironflow_js.Durable.Compensate.{
  reverse, with_functions, compensations_in_reverse, execute_compensations, compensate_all,
  compensate_one,
}
use ironflow_js.Durable.Compensate
use ironflow_js.Durable.Program.{Program, run_program}
use ironflow_js.Durable.Program.Rerun.{completed_never_rerun}
use ironflow_js.Durable.Compensate.Order.{compensations_reverse_registration}

-- The steps that compensations were recorded for.
abbrev pub compensated : List StepResult → List (Option Text)
compensated [] = []
compensated (r ∷ rs) = r.compensation_for ∷ compensated rs

compensated-append : (a b : List StepResult) → compensated (a ++ b) ≡ compensated a ++ compensated b
compensated-append [] b = refl
compensated-append (r ∷ a) b =
    ap (λ (l : List (Option Text)). r.compensation_for ∷ l) (compensated-append a b)

abbrev pub all_names : List (Text × Outcome) → List (Option Text)
all_names [] = []
all_names ((k, f) ∷ entries) = some k ∷ all_names entries

-- The context after a compensation that is not memoized.
abbrev after_one : Context → Text → Outcome → Context
after_one c name fn =
    Context.record_step (Context.counted c (compensate_ns ++ name))
      (Compensate.compensation_result (Context.generated_id c (compensate_ns ++ name)) name fn)

compensate_one-runs :
    (c : Context) (name : Text) (fn : Outcome)
    → c.signal_aborted ≡ false
    → c.completed_steps ≡ []
    → compensate_one c name fn ≡ some (after_one c name fn)
unfolding compensate_one Context.should_skip_step Context.completed_in map_get
compensate_one-runs c name fn live fresh = ground arith

compensate_all-runs :
    (c : Context) (todo : List (Text × Outcome))
    → c.signal_aborted ≡ false
    → c.completed_steps ≡ []
    → (d : Context) × (compensate_all c todo ≡ some d)
      × (compensated d.executed_steps ≡ compensated c.executed_steps ++ all_names todo)
unfolding compensate_all Context.counted Context.record_step Compensate.compensation_result
compensate_all-runs c [] live fresh = (c, refl, sym (append-nil (compensated c.executed_steps)))
compensate_all-runs c ((name, fn) ∷ more) live fresh =
    let one = after_one c name fn in
    let rest = compensate_all-runs one more live fresh in
    let first = compensate_one-runs c name fn live fresh in
    let recorded = compensated-append c.executed_steps (
      Compensate.compensation_result (Context.generated_id c (compensate_ns ++ name)) name fn
      ∷ []) in
    (
      rest.0,
      rw (first, compensate_all) rest.1,
      cc (
        rest.2,
        recorded,
        append_assoc (compensated c.executed_steps) (some name ∷ []) (all_names more),
      ),
    )

-- In an invocation that received no rows and is not cancelled, every registered compensation runs
-- and is recorded, in the reverse of the order of registration, whatever each of them does.
pub every_compensation_runs :
    (run_id : Text) (p : Program)
    → let d = run_program p (new_context run_id [] none false) in
      d.signal_aborted ≡ false
      → (e : Context) × (execute_compensations d ≡ some e)
        × (compensated e.executed_steps
            ≡ compensated d.executed_steps ++ all_names (reverse d.compensation_registry))
unfolding execute_compensations new_context
every_compensation_runs run_id p live =
    let d = run_program p (new_context run_id [] none false) in
    let order = compensations_reverse_registration run_id [] none p in
    let fresh = (completed_never_rerun run_id [] none p).0.same_rows in
    rw (← order) (compensate_all-runs d (compensations_in_reverse d) live fresh)
