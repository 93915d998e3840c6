-- ===== src/Durable/Compensate/Order.antt =====
-- Compensations run in the reverse of the order in which they were registered, each of them,
-- whatever another one does (packages/node/src/step.ts, internal/context.ts).
use ironflow_js.Prelude.{
  ◌≡◌, refl, ◌⊎◌, inl, inr, ap, Bool, true, false, Option, none, some, List, [], ◌∷◌, ◌++◌, All,
  All-append, arith,
}
use ironflow_js.Durable.Text.{Text, text_eq_iff}
use ironflow_js.Durable.StepId.{publish_ns}
use ironflow_js.Durable.Context.{
  Outcome, Context, CompletedStep, StepResult, map_get, map_set, map_has, new_context,
  ResumeContext,
}
use ironflow_js.Durable.Context
use ironflow_js.Durable.Step
use ironflow_js.Durable.Step.{Operation, perform}
use ironflow_js.Durable.Compensate.{reverse, with_functions, compensations_in_reverse}
use ironflow_js.Durable.Program.{Program, run_program}

module _ {A : Type 0} where
  map_set-absent :
      (k : Text) (a : A) (m : List (Text × A))
      → map_get k m ≡ none
      → map_set k a m ≡ m ++ (k, a) ∷ []
  unfolding map_get map_set
  map_set-absent k a [] h = refl
  map_set-absent k a ((j, b) ∷ m) h = ground (arith, map_set-absent k a m)

  map_get-append :
      (k : Text) (a : A) (m n : List (Text × A))
      → map_get k m ≡ some a
      → map_get k (m ++ n) ≡ some a
  unfolding map_get
  map_get-append k a [] n h = ground arith
  map_get-append k a ((j, b) ∷ m) n h = ground (arith, map_get-append k a m n)

  map_get-new :
      (k : Text) (a : A) (m : List (Text × A))
      → map_get k m ≡ none
      → map_get k (m ++ (k, a) ∷ []) ≡ some a
  unfolding map_get
  map_get-new k a [] h = ground (arith, text_eq_iff k k)
  map_get-new k a ((j, b) ∷ m) h = ground (arith, map_get-new k a m)

-- Each registered entry is the one found under its name.
abbrev AllFound : List (Text × Outcome) → List (Text × Outcome) → Type 0
AllFound all entries = All (λ (p : Text × Outcome). map_get p.0 all ≡ some p.1) entries

AllFound-append :
    (all more entries : List (Text × Outcome))
    → AllFound all entries
    → AllFound (all ++ more) entries
AllFound-append all more [] h = tt
AllFound-append all more ((k, f) ∷ entries) h =
    (map_get-append k f all more h.0, AllFound-append all more entries h.1)

names : List (Text × Outcome) → List Text
names [] = []
names ((k, f) ∷ entries) = k ∷ names entries

names-append : (a b : List (Text × Outcome)) → names (a ++ b) ≡ names a ++ names b
unfolding names
names-append [] b = refl
names-append ((k, f) ∷ a) b = ap (λ (l : List Text). k ∷ l) (names-append a b)

record IsMirrored (c : Context) : Type 0 where
  same_order : c.compensation_order ≡ names c.compensation_registry
  found : AllFound c.compensation_registry c.compensation_registry

moved-IsMirrored :
    (c d : Context)
    → IsMirrored c
    → d.compensation_order ≡ c.compensation_order
    → d.compensation_registry ≡ c.compensation_registry
    → IsMirrored d
moved-IsMirrored c d h e f = record { same_order = cc (e, f, h.same_order); found = rw f h.found }

-- What the registration of a name without a compensation makes of the two.
added-IsMirrored :
    (c d : Context) (name : Text) (fn : Outcome)
    → IsMirrored c
    → map_get name c.compensation_registry ≡ none
    → d.compensation_order ≡ c.compensation_order ++ name ∷ []
    → d.compensation_registry ≡ map_set name fn c.compensation_registry
    → IsMirrored d
unfolding names
added-IsMirrored c d name fn h absent e f =
    let m = c.compensation_registry in
    let g : d.compensation_registry ≡ m ++ (name, fn) ∷ [] =
      cc (f, map_set-absent name fn m absent) in
    record {
      same_order = cc (e, g, h.same_order, names-append m ((name, fn) ∷ []));
      found = rw g (
          All-append (λ (p : Text × Outcome). map_get p.0 (m ++ (name, fn) ∷ []) ≡ some p.1) m
            ((name, fn) ∷ []) (AllFound-append m ((name, fn) ∷ []) m h.found)
            (map_get-new name fn m absent, tt));
    }

with_functions-append :
    (c : Context) (a b : List Text)
    → with_functions c (a ++ b) ≡ with_functions c a ++ with_functions c b
unfolding with_functions
with_functions-append c [] b = refl
with_functions-append c (k ∷ a) b = ground (arith, with_functions-append c a b)

with_functions-reverse :
    (c : Context) (entries : List (Text × Outcome))
    → AllFound c.compensation_registry entries
    → with_functions c (reverse (names entries)) ≡ reverse entries
unfolding names reverse with_functions
with_functions-reverse c [] h = refl
with_functions-reverse c ((k, f) ∷ entries) h =
    let split = with_functions-append c (reverse (names entries)) (k ∷ []) in
    let front = with_functions-reverse c entries h.1 in let found = h.0 in ground arith

compensate-cases :
    (c : Context) (name : Text) (fn : Outcome)
    → (((Step.compensate c name fn).1.compensation_order ≡ c.compensation_order)
        × ((Step.compensate c name fn).1.compensation_registry ≡ c.compensation_registry))
      ⊎ ((map_get name c.compensation_registry ≡ none)
          × ((Step.compensate c name fn).1.compensation_order ≡ c.compensation_order ++ name ∷ [])
          × ((Step.compensate c name fn).1.compensation_registry
              ≡ map_set name fn c.compensation_registry))
unfolding Step.compensate Context.register_compensation Context.note_pending map_has
compensate-cases c name fn = ground arith

compensate-IsMirrored :
    (c : Context) (name : Text) (fn : Outcome)
    → IsMirrored c
    → IsMirrored (Step.compensate c name fn).1
compensate-IsMirrored c name fn h = elim (compensate-cases c name fn) [
  | inl same ↦ moved-IsMirrored c _ h same.0 same.1
  | inr added ↦ added-IsMirrored c _ name fn h added.0 added.1 added.2
]

execute_step-registry :
    (c : Context) (name : Text) (fn : Outcome) (yields : Bool)
    → ((Step.execute_step c name fn yields).1.compensation_order ≡ c.compensation_order)
      × ((Step.execute_step c name fn yields).1.compensation_registry ≡ c.compensation_registry)
unfolding Step.execute_step Step.call_step Step.succeed Step.fail Step.overlap Context.counted
    Context.note_pending Context.record_step
execute_step-registry c name fn yields = ground arith

wait_resumed-registry :
    (c : Context) (id : Text) (f : Step.EventFilter)
    → ((Step.wait_resumed c id f).1.compensation_order ≡ c.compensation_order)
      × ((Step.wait_resumed c id f).1.compensation_registry ≡ c.compensation_registry)
unfolding Step.wait_for Step.wait_resumed Step.wait_memoized Context.yield_with
    Context.mark_resume_processed
wait_resumed-registry c id f = ground arith

is_registration : Operation → Bool
is_registration (Operation.compensate_with name fn) = true
is_registration _ = false

perform-registry :
    (c : Context) (op : Operation)
    → is_registration op ≡ false
    → ((perform op c).1.compensation_order ≡ c.compensation_order)
      × ((perform op c).1.compensation_registry ≡ c.compensation_registry)
unfolding is_registration perform Step.execute_publish Step.execute_sleep Step.execute_sleep_until
    Step.execute_wait_for_event Step.execute_invoke Step.execute_invoke_async Context.note_pending
    Step.sleep_for Step.sleep_to Context.yield_with Context.counted Context.mark_resume_processed
perform-registry c (Operation.run name fn yields) q = execute_step-registry c name fn yields
perform-registry c (Operation.publish name fn yields) q =
    execute_step-registry c (publish_ns ++ name) fn yields
perform-registry c (Operation.wait_for_event name f) q =
    ground (arith, wait_resumed-registry (Context.counted c name) (Context.generated_id c name) f)
perform-registry c op q = ground arith

perform-IsMirrored : (c : Context) (op : Operation) → IsMirrored c → IsMirrored (perform op c).1
unfolding perform is_registration
perform-IsMirrored c (Operation.compensate_with name fn) h = compensate-IsMirrored c name fn h
perform-IsMirrored c op h =
    moved-IsMirrored c _ h (perform-registry c op refl).0 (perform-registry c op refl).1

run_program-IsMirrored : (c : Context) (p : Program) → IsMirrored c → IsMirrored (run_program p c)
unfolding run_program
run_program-IsMirrored c Program.finish h = h
run_program-IsMirrored c (Program.ask op next) h =
    run_program-IsMirrored (perform op c).1 (next (perform op c).0) (perform-IsMirrored c op h)

-- After any program, the compensations that run are those registered, with their functions, in
-- the reverse of the order of their registration.
pub compensations_reverse_registration :
    (run_id : Text) (rows : List CompletedStep) (resume : Option ResumeContext) (p : Program)
    → let d = run_program p (new_context run_id rows resume false) in
      compensations_in_reverse d ≡ reverse d.compensation_registry
unfolding new_context compensations_in_reverse names
compensations_reverse_registration run_id rows resume p =
    let c = new_context run_id rows resume false in
    let h = run_program-IsMirrored c p (record { same_order = refl; found = tt }) in
    let d = run_program p c in
    cc (ap reverse h.same_order, with_functions-reverse d d.compensation_registry h.found)
