-- ===== src/Durable/Parallel/Sound.antt =====
-- The branches of executeParallel that have started and ended, between the steps
-- (packages/node/src/step.ts).
use ironflow_js.Prelude.{
  ℕ, zero, suc, ◌+◌, ◌-◌, ◌<◌, ◌≤◌, ◌≡◌, ◌⊎◌, inl, inr, refl, Bool, true, false, not, ◌&&◌, ◌||◌,
  Option, none, some, List, [], ◌∷◌, ◌++◌, any, filter, length, ◌==◌, leb, ltb, arith, if_split,
  Option-split, Bool-cases, of_false_eq_true,
}
use mathlib.Core.Path.{subst}
use ironflow_js.Durable.Context.{Result}
use ironflow_js.Durable.Parallel.{
  Options, Answer, Phase, racing, woken, awaiting_all, ended, Fan, Ending, ending, end_branch,
  halted, run_branch, start_branch, launch, settle_branch, wake, remove_branch, resume_loop,
  slots_from,
}
use ironflow_js.Durable.Parallel.Slots.{
  is_bad, has, is_allowed, cancels-bad, any-put_hit, any-put_keep,
}

any-append : (f : ℕ → Bool) (a b : List ℕ) → any f (a ++ b) ≡ (any f a || any f b)
any-append f [] b = refl
any-append f (q ∷ a) b = ground (arith, any-append f a b)

any-filter_other :
    (i k : ℕ) (l : List ℕ)
    → any (λ j. j == k) (filter (λ j. not (j == i)) l) ≡ (not (k == i) && any (λ j. j == k) l)
any-filter_other i k [] = ground arith
any-filter_other i k (j ∷ l) = ground (arith, any-filter_other i k l)

abbrev pub waits : ℕ → Fan → Bool
waits i s = any (λ j. j == i) s.pending

-- Between the steps: which branches have started, ended and left a slot, and why the rest stopped.
pub record IsSound (o : Options) (n : ℕ) (s : Fan) : Type 0 where
  pub started : (i : ℕ) → i < s.next → (waits i s || s.done i) ≡ true
  pub told : (i : ℕ) → s.done i ≡ true → (has (s.slots i) || halted o s) ≡ true
  pub stays : (i : ℕ) → has (s.slots i) ≡ true → s.done i ≡ true
  pub bad : halted o s ≡ true → any is_bad (slots_from 0 n s.slots) ≡ true
  pub few : (i : ℕ) → waits i s ≡ true → i < s.next
  pub room : s.next ≤ n

-- All results are there, each of a branch that has ended.
pub record IsComplete (o : Options) (n : ℕ) (s : Fan) (l : List (Option Ending)) : Type 0 where
  pub same : l ≡ slots_from 0 n s.slots
  pub every : (i : ℕ) → i < n → is_allowed o.on_error (s.slots i) ≡ true

abbrev pub AtPhase : Options → ℕ → Phase → Fan → Type 0
AtPhase o n racing s = s.next < n
AtPhase o n woken s = s.next < n
AtPhase o n awaiting_all s = (s.next ≡ n) ⊎ (halted o s ≡ true)
AtPhase o n (ended (Answer.values l)) s = (s.pending ≡ []) × IsComplete o n s l
AtPhase o n (ended (Answer.failed r)) s = s.pending ≡ []
AtPhase o n (ended Answer.swallowed) s = s.pending ≡ []
AtPhase o n (ended (Answer.yielded info)) s = s.pending ≡ []

has_none_bad : (e : Option Ending) → has e ≡ false → is_bad e ≡ false
has_none_bad none h = refl
has_none_bad (some e) h = cc

module _ (o : Options) (n : ℕ) (at_once : ℕ → Option (Result × Bool)) where
  settled-AtPhase :
      (i : ℕ) (e : Ending) (p : Phase) (s : Fan)
      → waits i s ≡ true
      → AtPhase o n p s
      → AtPhase o n p (end_branch o.on_error i e s)
  unfolding end_branch
  settled-AtPhase i e racing s w h = h
  settled-AtPhase i e woken s w h = h
  settled-AtPhase i e awaiting_all s w h = elim h [
    | inl all ↦ inl all
    | inr stop ↦ inr (ground arith)
  ]
  settled-AtPhase i e (ended (Answer.values l)) s w h = of_false_eq_true (rw h.0 at w)
  settled-AtPhase i e (ended (Answer.failed r)) s w h = h
  settled-AtPhase i e (ended Answer.swallowed) s w h = h
  settled-AtPhase i e (ended (Answer.yielded info)) s w h = h

  pub phase-IsSound : (p : Phase) (s : Fan) → IsSound o n s → IsSound o n (record s { phase = p })
  phase-IsSound p s h = record {
    started = h.started;
    told = h.told;
    stays = h.stays;
    bad = h.bad;
    few = h.few;
    room = h.room;
  }

  end_branch-IsSound :
      (i : ℕ) (e : Ending) (s : Fan)
      → i < n
      → (halted o s ≡ true → s.done i ≡ false)
      → IsSound o n s
      → IsSound o n (end_branch o.on_error i e s)
  unfolding end_branch
  end_branch-IsSound i e s low fresh h = record {
    started = λ j l. ground (arith, h.started j);
    told = λ j d. ground (arith, h.told j);
    stays = λ j d. ground (arith, h.stays j);
    bad = λ b. elim (Bool-cases (halted o s)) [
      | inl was ↦
          any-put_keep i 0 n s.slots (some e)
            (has_none_bad (s.slots i) (ground (arith, fresh was, h.stays i))) (h.bad was)
      | inr new ↦
          any-put_hit i 0 n s.slots (some e)
            (cancels-bad o.on_error e (ground arith) (ground arith)) (omega arith) (omega arith)
    ];
    few = h.few;
    room = h.room;
  }

  run_branch-IsSound :
      (i : ℕ) (s : Fan) → i < n → IsSound o n s → IsSound o n (run_branch o n at_once i s)
  unfolding run_branch
  run_branch-IsSound i s low h =
      if_split (IsSound o n) (halted o s) _ _
        (λ stop. record {
          started = λ j l. ground (arith, h.started j);
          told = λ j d. ground arith;
          stays = λ j d. ground (arith, h.stays j);
          bad = h.bad;
          few = h.few;
          room = h.room;
        })
        (λ go.
          Option-split (IsSound o n) (at_once i) _ _ (λ _. h)
            (λ (r, guard) _. end_branch-IsSound i (ending guard r) s low (λ stop. cc) h))

  run_branch-next :
      (i : ℕ) (s : Fan)
      → ((run_branch o n at_once i s).next ≡ s.next)
        × ((run_branch o n at_once i s).pending ≡ s.pending)
  unfolding run_branch end_branch
  run_branch-next i s = ground arith

  push-IsSound :
      (s : Fan) (m : ℕ) (p : List ℕ)
      → s.next ≡ m
      → s.pending ≡ p
      → m < n
      → IsSound o n s
      → IsSound o n (record s { next = m + 1; pending = p ++ m ∷ [] })
  push-IsSound s m p same_next same_pending low h = record {
    started = λ j l. ground (arith, h.started j, any-append (λ k. k == j) p (m ∷ []));
    told = h.told;
    stays = h.stays;
    bad = h.bad;
    few = λ j w. ground (arith, h.few j, any-append (λ k. k == j) p (m ∷ []));
    room = omega arith;
  }

  start_branch-IsSound :
      (s : Fan) → s.next < n → IsSound o n s → IsSound o n (start_branch o n at_once s)
  unfolding start_branch
  start_branch-IsSound s low h =
      let kept = run_branch-next s.next s in
      push-IsSound (run_branch o n at_once s.next s) s.next s.pending kept.0 kept.1 low
        (run_branch-IsSound s.next s low h)

  start_branch-next : (s : Fan) → (start_branch o n at_once s).next ≡ s.next + 1
  unfolding start_branch
  start_branch-next s = refl

  pub launch-IsSound :
      (k : ℕ) (s : Fan)
      → s.next + k ≡ n
      → IsSound o n s
      → IsSound o n (launch o n at_once k s)
        × AtPhase o n (launch o n at_once k s).phase (launch o n at_once k s)
  unfolding launch
  launch-IsSound zero s e h = (phase-IsSound awaiting_all s h, inl (omega arith))
  launch-IsSound (suc k) s e h =
      if_split (λ t. IsSound o n t × AtPhase o n t.phase t) (ltb 0 o.concurrency && halted o s) _ _
        (λ stop. (phase-IsSound awaiting_all s h, inr (ground arith)))
        (λ _.
          if_split (λ t. IsSound o n t × AtPhase o n t.phase t)
            (ltb 0 o.concurrency && leb o.concurrency (length s.pending)) _ _
            (λ _. (phase-IsSound racing s h, omega arith))
            (λ _.
              launch-IsSound k (start_branch o n at_once s) (omega (arith, start_branch-next s))
                (start_branch-IsSound s (omega arith) h)))

  pub settle-IsSound :
      (i : ℕ) (r : Result) (guard : Bool) (s : Fan)
      → IsSound o n s
      → AtPhase o n s.phase s
      → IsSound o n (settle_branch o n at_once i r guard s)
        × AtPhase o n
            (settle_branch o n at_once i r guard s).phase
            (settle_branch o n at_once i r guard s)
  unfolding settle_branch
  settle-IsSound i r guard s h at_phase =
      if_split (λ t. IsSound o n t × AtPhase o n t.phase t) (waits i s && not (s.done i)) _ _
        (λ e. (
          end_branch-IsSound i (ending guard r) s (ground (arith, h.few i, h.room))
              (λ _. ground arith) h,
          settled-AtPhase i (ending guard r) s.phase s (ground arith) at_phase,
        ))
        (λ _. (h, at_phase))

  removed-AtPhase :
      (i : ℕ) (p : Phase) (s : Fan)
      → waits i s ≡ true
      → AtPhase o n p s
      → AtPhase o n (wake o n at_once p) (record s {
        pending = filter (λ j. not (j == i)) s.pending;
        phase = wake o n at_once s.phase;
      })
  unfolding wake
  removed-AtPhase i racing s w h = h
  removed-AtPhase i woken s w h = h
  removed-AtPhase i awaiting_all s w h = h
  removed-AtPhase i (ended (Answer.values l)) s w h = of_false_eq_true (rw h.0 at w)
  removed-AtPhase i (ended (Answer.failed r)) s w h = of_false_eq_true (rw h at w)
  removed-AtPhase i (ended Answer.swallowed) s w h = of_false_eq_true (rw h at w)
  removed-AtPhase i (ended (Answer.yielded info)) s w h = of_false_eq_true (rw h at w)

  pub remove-IsSound :
      (i : ℕ) (s : Fan)
      → IsSound o n s
      → AtPhase o n s.phase s
      → IsSound o n (remove_branch o n at_once i s)
        × AtPhase o n (remove_branch o n at_once i s).phase (remove_branch o n at_once i s)
  unfolding remove_branch
  remove-IsSound i s h at_phase =
      if_split (λ t. IsSound o n t × AtPhase o n t.phase t) (waits i s && s.done i) _ _
        (λ e. (
          record {
            started = λ j l. ground (arith, h.started j, any-filter_other i j s.pending);
            told = h.told;
            stays = h.stays;
            bad = h.bad;
            few = λ j w. ground (arith, h.few j, any-filter_other i j s.pending);
            room = h.room;
          },
          removed-AtPhase i s.phase s (ground arith) at_phase,
        ))
        (λ _. (h, at_phase))

  pub resume-IsSound :
      (p : Phase) (s : Fan)
      → s.phase ≡ p
      → IsSound o n s
      → AtPhase o n s.phase s
      → IsSound o n (resume_loop o n at_once p s)
        × AtPhase o n (resume_loop o n at_once p s).phase (resume_loop o n at_once p s)
  unfolding resume_loop
  resume-IsSound woken s e h at_phase =
      let low : s.next < n = subst (λ (q : Phase). AtPhase o n q s) e at_phase in
      launch-IsSound (n - (s.next + 1)) (start_branch o n at_once s)
        (omega (arith, start_branch-next s)) (start_branch-IsSound s low h)
  resume-IsSound racing s e h at_phase = (h, at_phase)
  resume-IsSound awaiting_all s e h at_phase = (h, at_phase)
  resume-IsSound (ended a) s e h at_phase = (h, at_phase)
