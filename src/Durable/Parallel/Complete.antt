-- ===== src/Durable/Parallel/Complete.antt =====
-- executeParallel answers results only when every branch has one (packages/node/src/step.ts).
use ironflow_js.Prelude.{
  ℕ, ◌<◌, ◌≡◌, ◌⊎◌, inl, inr, refl, sym, Bool, true, false, ◌||◌, Option, List, [], ◌∷◌, any, ◌==◌,
  arith, Bool-cases,
}
use mathlib.Core.Path.{subst}
use ironflow_js.Durable.Context.{Result}
use ironflow_js.Durable.Parallel.{
  Options, Answer, Phase, racing, woken, awaiting_all, ended, Fan, Ending, halted, opened,
  open_parallel, join_branches, Event, step, run, slots_from, is_fast, is_swallowed, joined,
}
use ironflow_js.Durable.Parallel.Slots.{
  is_signal, is_error, has, has-allowed, slots_from-at, any_bad, joined-Seen,
}
use ironflow_js.Durable.Parallel.Sound.{
  IsSound, IsComplete, AtPhase, phase-IsSound, launch-IsSound, settle-IsSound, remove-IsSound,
  resume-IsSound,
}

module _ (o : Options) (n : ℕ) (at_once : ℕ → Option (Result × Bool)) where
  -- Where nothing is awaited and no branch was passed over, every slot is filled.
  filled :
      (s : Fan) (i : ℕ)
      → IsSound o n s
      → s.pending ≡ []
      → halted o s ≡ false
      → s.next ≡ n
      → i < n
      → has (s.slots i) ≡ true
  filled s i h none_left going all low =
      let begun : any (λ j. j == i) s.pending || s.done i ≡ true = h.started i (omega arith) in
      let over : s.done i ≡ true = rw none_left at begun in ground (arith, h.told i over)

  joined-IsComplete :
      (s : Fan) (l : List (Option Ending))
      → IsSound o n s
      → s.pending ≡ []
      → (s.next ≡ n) ⊎ (halted o s ≡ true)
      → joined o.on_error (slots_from 0 n s.slots) ≡ Answer.values l
      → IsComplete o n s l
  joined-IsComplete s l h none_left over e =
      let seen = joined-Seen o.on_error (slots_from 0 n s.slots) l e in
      let going : halted o s ≡ false = ground (
        arith,
        seen.no_error,
        h.bad,
        any_bad (slots_from 0 n s.slots) seen.unswallowed seen.unsignalled,
      ) in
      let all : s.next ≡ n = ground arith in
      record {
        same = sym seen.same;
        every = λ i low.
            has-allowed o.on_error (s.slots i) (filled s i h none_left going all low)
              (slots_from-at is_swallowed i 0 n s.slots seen.unswallowed (omega arith)
                (omega arith))
              (slots_from-at is_signal i 0 n s.slots seen.unsignalled (omega arith) (omega arith))
              (elim (Bool-cases (is_fast o.on_error)) [
                | inl fast ↦
                    let clear : is_error (s.slots i) ≡ false =
                      slots_from-at is_error i 0 n s.slots (ground (arith, seen.no_error))
                        (omega arith) (omega arith) in
                    ground arith
                | inr slow ↦ ground arith
              ]);
      }

  ended-AtPhase :
      (a : Answer) (s : Fan)
      → s.pending ≡ []
      → ((l : List (Option Ending)) → a ≡ Answer.values l → IsComplete o n s l)
      → AtPhase o n (ended a) s
  ended-AtPhase (Answer.values l) s e f = (e, f l refl)
  ended-AtPhase (Answer.failed r) s e f = e
  ended-AtPhase Answer.swallowed s e f = e
  ended-AtPhase (Answer.yielded info) s e f = e

  join-IsSound :
      (p : Phase) (l : List ℕ) (s : Fan)
      → s.phase ≡ p
      → s.pending ≡ l
      → IsSound o n s
      → AtPhase o n s.phase s
      → IsSound o n (join_branches o n at_once p l s)
        × AtPhase o n (join_branches o n at_once p l s).phase (join_branches o n at_once p l s)
  unfolding join_branches
  join-IsSound awaiting_all [] s e none_left h at_phase =
      let a = ended (joined o.on_error (slots_from 0 n s.slots)) in
      let over : (s.next ≡ n) ⊎ (halted o s ≡ true) =
        subst (λ (q : Phase). AtPhase o n q s) e at_phase in
      (
        phase-IsSound o n at_once a s h,
        ended-AtPhase _ (record s { phase = a }) none_left
            (λ l f.
              let c = joined-IsComplete s l h none_left over f in
              record { same = c.same; every = c.every }),
      )
  join-IsSound awaiting_all (i ∷ l) s e none_left h at_phase = (h, at_phase)
  join-IsSound racing l s e none_left h at_phase = (h, at_phase)
  join-IsSound woken l s e none_left h at_phase = (h, at_phase)
  join-IsSound (ended a) l s e none_left h at_phase = (h, at_phase)

  opened-IsSound : (p : Phase) → IsSound o n (record (opened o n at_once) { phase = p })
  opened-IsSound p = record {
    started = λ j l. ground arith;
    told = λ j d. cc;
    stays = λ j d. cc;
    bad = λ b. cc;
    few = λ j w. cc;
    room = omega arith;
  }

  open-IsSound :
      (aborted guard : Bool)
      → IsSound o n (open_parallel o n at_once aborted guard)
        × AtPhase o n
            (open_parallel o n at_once aborted guard).phase
            (open_parallel o n at_once aborted guard)
  unfolding open_parallel
  open-IsSound true guard = (opened-IsSound _, refl)
  open-IsSound false true = (opened-IsSound _, refl)
  open-IsSound false false =
      launch-IsSound o n at_once n (opened o n at_once) (omega arith) (opened-IsSound _)

  step-IsSound :
      (e : Event) (s : Fan)
      → IsSound o n s
      → AtPhase o n s.phase s
      → IsSound o n (step o n at_once e s)
        × AtPhase o n (step o n at_once e s).phase (step o n at_once e s)
  unfolding step
  step-IsSound (Event.settles i r guard) s h at_phase =
      settle-IsSound o n at_once i r guard s h at_phase
  step-IsSound (Event.removes i) s h at_phase = remove-IsSound o n at_once i s h at_phase
  step-IsSound Event.resumes s h at_phase = resume-IsSound o n at_once s.phase s refl h at_phase
  step-IsSound Event.joins s h at_phase = join-IsSound s.phase s.pending s refl refl h at_phase

  run-IsSound :
      (es : List Event) (s : Fan)
      → IsSound o n s
      → AtPhase o n s.phase s
      → IsSound o n (run o n at_once es s)
        × AtPhase o n (run o n at_once es s).phase (run o n at_once es s)
  unfolding run
  run-IsSound [] s h at_phase = (h, at_phase)
  run-IsSound (e ∷ es) s h at_phase =
      let next = step-IsSound e s h at_phase in run-IsSound es (step o n at_once e s) next.0 next.1

-- Whatever the branches do and in whichever order they end: where executeParallel answers results,
-- they are those of all branches in the branches' order, each of a branch that has ended, none of
-- them an error unless it is to settle all, and none a yield or a swallowed yield.
pub results-IsComplete :
    (o : Options) (n : ℕ) (at_once : ℕ → Option (Result × Bool)) (aborted guard : Bool)
    (es : List Event) (l : List (Option Ending))
    → let s = run o n at_once es (open_parallel o n at_once aborted guard) in
      s.phase ≡ ended (Answer.values l) → IsComplete o n s l
results-IsComplete o n at_once aborted guard es l e =
    let s = run o n at_once es (open_parallel o n at_once aborted guard) in
    let begun = open-IsSound o n at_once aborted guard in
    let reached = run-IsSound o n at_once es _ begun.0 begun.1 in
    (subst (λ (q : Phase). AtPhase o n q s) e reached.1).1
