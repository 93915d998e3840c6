-- ===== src/Durable/Parallel/Limit.antt =====
-- No more branches run at a time than executeParallel is told (packages/node/src/step.ts).
use ironflow_js.Prelude.{
  ℕ, zero, suc, ◌+◌, ◌-◌, ◌<◌, ◌≤◌, ◌≡◌, refl, Bool, true, false, not, ◌&&◌, Option, List, [], ◌∷◌,
  ◌++◌, any, filter, length, ◌==◌, leb, ltb, arith, if_split,
}
use ironflow_js.Durable.Context.{Result}
use ironflow_js.Durable.Parallel.{
  Options, Phase, racing, woken, awaiting_all, ended, Fan, end_branch, halted, start_branch, launch,
  opened, open_parallel, waits_for, settle_branch, remove_branch, resume_loop, join_branches, Event,
  step, run,
}

length-snoc {ℓ} : {A : Type ℓ} (l : List A) (a : A) → length (l ++ a ∷ []) ≡ length l + 1
length-snoc [] a = refl
length-snoc (b ∷ l) a = ground (arith, length-snoc l a)

length-filter : (f : ℕ → Bool) (l : List ℕ) → length (filter f l) ≤ length l
length-filter f [] = omega arith
length-filter f (j ∷ l) = ground (arith, length-filter f l)

length-filter_less :
    (i : ℕ) (l : List ℕ)
    → any (λ j. j == i) l ≡ true
    → length (filter (λ j. not (j == i)) l) < length l
length-filter_less i [] h = cc
length-filter_less i (j ∷ l) h =
    ground (arith, length-filter (λ k. not (k == i)) l, length-filter_less i l)

-- At most so many wait, and fewer behind a race.
record IsLimited (o : Options) (s : Fan) : Type 0 where
  pub within : length s.pending ≤ o.concurrency
  pub behind : s.phase ≡ woken → length s.pending < o.concurrency

module _ (o : Options) (n : ℕ) (at_once : ℕ → Option (Result × Bool)) where
  start_branch-length :
      (s : Fan) → length (start_branch o n at_once s).pending ≡ length s.pending + 1
  unfolding start_branch
  start_branch-length s = length-snoc s.pending s.next

  launch-IsLimited :
      (k : ℕ) (s : Fan)
      → 0 < o.concurrency
      → length s.pending ≤ o.concurrency
      → IsLimited o (launch o n at_once k s)
  unfolding launch
  launch-IsLimited zero s some_limit h = record { within = h; behind = λ e. cc }
  launch-IsLimited (suc k) s some_limit h =
      if_split (IsLimited o) (ltb 0 o.concurrency && halted o s) _ _
        (λ _. record { within = h; behind = λ e. cc })
        (λ _.
          if_split (IsLimited o) (ltb 0 o.concurrency && leb o.concurrency (length s.pending)) _ _
            (λ _. record { within = h; behind = λ e. cc })
            (λ room.
              launch-IsLimited k (start_branch o n at_once s) some_limit
                (ground (arith, start_branch-length s))))

  settle-IsLimited :
      (i : ℕ) (r : Result) (guard : Bool) (s : Fan)
      → IsLimited o s
      → IsLimited o (settle_branch o n at_once i r guard s)
  unfolding settle_branch end_branch
  settle-IsLimited i r guard s h =
      if_split (IsLimited o) (waits_for o n at_once i s && not (s.done i)) _ _
        (λ _. record { within = h.within; behind = h.behind }) (λ _. h)

  remove-IsLimited : (i : ℕ) (s : Fan) → IsLimited o s → IsLimited o (remove_branch o n at_once i s)
  unfolding remove_branch
  remove-IsLimited i s h =
      if_split (IsLimited o) (waits_for o n at_once i s && s.done i) _ _
        (λ e.
          let less = length-filter_less i s.pending (ground arith) in
          record { within = ground (arith, h.within); behind = λ q. ground (arith, h.within) })
        (λ _. h)

  resume-IsLimited :
      (p : Phase) (s : Fan)
      → s.phase ≡ p
      → 0 < o.concurrency
      → IsLimited o s
      → IsLimited o (resume_loop o n at_once p s)
  unfolding resume_loop
  resume-IsLimited woken s e some_limit h =
      launch-IsLimited (n - (s.next + 1)) (start_branch o n at_once s) some_limit
        (ground (arith, start_branch-length s, h.behind e))
  resume-IsLimited racing s e some_limit h = h
  resume-IsLimited awaiting_all s e some_limit h = h
  resume-IsLimited (ended a) s e some_limit h = h

  join-IsLimited :
      (p : Phase) (l : List ℕ) (s : Fan)
      → IsLimited o s
      → IsLimited o (join_branches o n at_once p l s)
  unfolding join_branches
  join-IsLimited awaiting_all [] s h = record { within = h.within; behind = λ e. cc }
  join-IsLimited awaiting_all (i ∷ l) s h = h
  join-IsLimited racing l s h = h
  join-IsLimited woken l s h = h
  join-IsLimited (ended a) l s h = h

  step-IsLimited :
      (e : Event) (s : Fan) → 0 < o.concurrency → IsLimited o s → IsLimited o (step o n at_once e s)
  unfolding step
  step-IsLimited (Event.settles i r guard) s some_limit h = settle-IsLimited i r guard s h
  step-IsLimited (Event.removes i) s some_limit h = remove-IsLimited i s h
  step-IsLimited Event.resumes s some_limit h = resume-IsLimited s.phase s refl some_limit h
  step-IsLimited Event.joins s some_limit h = join-IsLimited s.phase s.pending s h

  run-IsLimited :
      (es : List Event) (s : Fan)
      → 0 < o.concurrency
      → IsLimited o s
      → IsLimited o (run o n at_once es s)
  unfolding run
  run-IsLimited [] s some_limit h = h
  run-IsLimited (e ∷ es) s some_limit h =
      run-IsLimited es (step o n at_once e s) some_limit (step-IsLimited e s some_limit h)

  open-IsLimited :
      (aborted guard : Bool)
      → 0 < o.concurrency
      → IsLimited o (open_parallel o n at_once aborted guard)
  unfolding open_parallel
  open-IsLimited true guard some_limit = record { within = omega arith; behind = λ e. cc }
  open-IsLimited false true some_limit = record { within = omega arith; behind = λ e. cc }
  open-IsLimited false false some_limit =
      launch-IsLimited n (opened o n at_once) some_limit (omega arith)

-- With a positive `concurrency`, whatever the branches do and in whichever order they end, no more
-- than that many wait to end at a time.
pub concurrency_limit :
    (o : Options) (n : ℕ) (at_once : ℕ → Option (Result × Bool)) (aborted guard : Bool)
    (es : List Event)
    → 0 < o.concurrency
    → length (run o n at_once es (open_parallel o n at_once aborted guard)).pending ≤ o.concurrency
concurrency_limit o n at_once aborted guard es some_limit =
    (run-IsLimited o n at_once es (open_parallel o n at_once aborted guard) some_limit
      (open-IsLimited o n at_once aborted guard some_limit)).within
