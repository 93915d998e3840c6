-- ===== src/Projection/Stream/Flushes.antt =====
-- The flushes keep what was received in order (packages/node/src/projection-runner.ts).
use ironflow_js.Prelude.{
  ◌<◌, ◌≡◌, refl, Bool, true, false, not, ◌&&◌, ◌||◌, none, some, List, [], ◌∷◌, ◌++◌, ◌==◌, ltb,
  arith, if_split, Option-split, Option-cases, inl, inr,
}
use mathlib.Core.List.{append_assoc}
use ironflow_js.Projection.Runner.{Frame, Flight, Runner, is_ending, is_none}
use ironflow_js.Projection.Stream.{
  drop_pending, pass_marks, begin_chained, start_flush, commit_flight, commit_flush, fail_flush,
}
use mathlib.Core.Path.{subst}
use ironflow_js.Projection.Stream.Sound.{events_of-append, max_seq-append, Fits, IsSound}
use ironflow_js.Projection.Stream.Pending.{
  settled-IsSound, drop_pending-IsSound, idle-none, pass_marks-IsSound, taken-IsSound,
}

-- Where events wait, no last flush is under way.
last_idle :
    (s : Runner) (f : Frame) (fs : List Frame)
    → s.pending ≡ f ∷ fs
    → IsSound s
    → is_none s.final ≡ true
last_idle s f fs e h = elim (Option-cases s.final) [
  | inl none_final ↦ ground arith
  | inr (g, some_final) ↦
      let empty : s.waiting ≡ [] = (h.alone (ground arith)).1 in ground (arith, h.held)
]

-- The first flush of the chain, if it may begin.
begin_chained-IsSound :
    (s : Runner) (events : List Frame)
    → s.pending ≡ events
    → is_none s.busy ≡ true
    → 0 < s.chain
    → (is_ending s.phase ≡ true → 0 < s.blocked)
    → IsSound s
    → IsSound (begin_chained events s)
unfolding begin_chained
begin_chained-IsSound s [] e idle more blocks h =
    if_split IsSound s.flush_failed _ _
      (λ failed. settled-IsSound (drop_pending s) idle (drop_pending-IsSound s failed h))
      (λ going. settled-IsSound (pass_marks s) idle (pass_marks-IsSound s going idle e h))
begin_chained-IsSound s (f ∷ fs) e idle more blocks h =
    if_split IsSound s.flush_failed _ _
      (λ failed. settled-IsSound (drop_pending s) idle (drop_pending-IsSound s failed h))
      (λ going. taken-IsSound s going idle (last_idle s f fs e h) more blocks h)

pub start_flush-IsSound : (s : Runner) → IsSound s → IsSound (start_flush s)
unfolding start_flush
start_flush-IsSound s h =
    if_split IsSound (ltb 0 s.chain && is_none s.busy && not (is_ending s.phase && s.blocked == 0))
      _ _
      (λ e.
        begin_chained-IsSound s s.pending refl (ground arith) (ground arith)
          (λ at_end. ground arith) h)
      (λ _. h)

committed-IsSound :
    (s : Runner) (f : Flight)
    → s.busy ≡ some f
    → IsSound s
    → IsSound (record (commit_flight f s) { busy = none })
unfolding commit_flight
committed-IsSound s f e h =
    let going : s.flush_failed ≡ false = ground (arith, h.clean) in
    let last : is_none s.final ≡ true = ground (arith, h.alone) in
    let none_final = idle-none s.final last in
    let all : s.received ≡ s.committed ++ (f.frames ++ s.waiting) = ground (arith, h.kept going) in
    let fit : Fits (some f) = subst Fits e h.fits in
    record {
      kept = λ k. ground (arith, append_assoc s.committed f.frames s.waiting);
      tail = s.waiting;
      ahead = ground (arith, append_assoc s.committed f.frames s.waiting);
      clean = λ k. going;
      alone = λ k. cc;
      at_end = h.at_end;
      awaited = λ a k. cc;
      chained = λ k. cc;
      fits = tt;
      fits_final = h.fits_final;
      held = h.held;
      marked = h.marked;
      reached = omega (arith, h.reached, fit.1, max_seq-append s.committed f.frames);
      stored = ground (arith, h.stored, fit.0, events_of-append s.committed f.frames);
    }

pub commit_flush-IsSound : (s : Runner) → IsSound s → IsSound (commit_flush s)
unfolding commit_flush
commit_flush-IsSound s h =
    Option-split IsSound s.busy _ _ (λ _. h)
      (λ f e.
        settled-IsSound (record (commit_flight f s) { busy = none }) refl
          (committed-IsSound s f e h))

-- A batch of the chain has failed: what came in is no longer all kept.
failed-IsSound :
    (s : Runner) (f : Flight) (lost : Bool)
    → s.busy ≡ some f
    → IsSound s
    → IsSound (record s {
      busy = none;
      flush_failed = true;
      pending = [];
      mark = 0;
      waiting = [];
      lost = lost;
    })
failed-IsSound s f lost e h =
    let last : is_none s.final ≡ true = ground (arith, h.alone) in
    record {
      kept = λ k. cc;
      tail = h.tail;
      ahead = h.ahead;
      clean = λ k. ground arith;
      alone = λ k. ground arith;
      at_end = h.at_end;
      awaited = λ a k. cc;
      chained = λ k. cc;
      fits = tt;
      fits_final = h.fits_final;
      held = refl;
      marked = refl;
      reached = h.reached;
      stored = h.stored;
    }

pub fail_flush-IsSound : (lease : Bool) (s : Runner) → IsSound s → IsSound (fail_flush lease s)
unfolding fail_flush
fail_flush-IsSound lease s h =
    Option-split IsSound s.busy _ _ (λ _. h)
      (λ f e. settled-IsSound _ refl (failed-IsSound s f (lease || s.lost) e h))
