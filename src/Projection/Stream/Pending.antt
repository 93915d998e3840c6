-- ===== src/Projection/Stream/Pending.antt =====
-- What waits for a flush, and what a flush takes, keeps what was received in order
-- (packages/node/src/projection-runner.ts).
use ironflow_js.Prelude.{
  ℕ, ◌+◌, ◌<◌, ◌≤◌, ◌≡◌, refl, sym, ◌∙◌, ap, Bool, true, false, Option, none, some, List, [], ◌++◌,
  arith, if_split,
}
use mathlib.Core.List.{append-nil}
use ironflow_js.Projection.Runner.{
  Frame, Flight, Phase, reading, ending, flushing, behind, Runner, is_ending, is_flushing, is_none,
}
use ironflow_js.Projection.Stream.{
  fire_timer, drop_pending, pass_marks, flight_of, take_pending, settle_flush,
}
use ironflow_js.Projection.Stream.Sound.{
  events_of, events_of-append, max_seq-append, frames_of, IsSound,
}

-- The timer and a longer chain change nothing of this.
pub scheduled-IsSound :
    (s : Runner) (timer : Bool) (chain : ℕ)
    → s.chain ≤ chain
    → IsSound s
    → IsSound (record s { timer = timer; chain = chain })
scheduled-IsSound s timer chain more h = record {
  kept = h.kept;
  tail = h.tail;
  ahead = h.ahead;
  clean = h.clean;
  alone = h.alone;
  at_end = h.at_end;
  awaited = h.awaited;
  chained = λ k. omega (arith, h.chained k);
  fits = h.fits;
  fits_final = h.fits_final;
  held = h.held;
  marked = h.marked;
  reached = h.reached;
  stored = h.stored;
}

pub fire_timer-IsSound : (s : Runner) → IsSound s → IsSound (fire_timer s)
unfolding fire_timer
fire_timer-IsSound s h =
    if_split IsSound s.timer _ _ (λ _. scheduled-IsSound s false (s.chain + 1) (omega arith) h)
      (λ _. h)

-- A flush of the chain is settled while no batch of the chain is under way.
pub settled-IsSound : (s : Runner) → is_none s.busy ≡ true → IsSound s → IsSound (settle_flush s)
unfolding settle_flush
settled-IsSound s idle h = record {
  kept = h.kept;
  tail = h.tail;
  ahead = h.ahead;
  clean = h.clean;
  alone = h.alone;
  at_end = h.at_end;
  awaited = λ e k. cc;
  chained = λ k. cc;
  fits = h.fits;
  fits_final = h.fits_final;
  held = h.held;
  marked = h.marked;
  reached = h.reached;
  stored = h.stored;
}

pub drop_pending-IsSound :
    (s : Runner) → s.flush_failed ≡ true → IsSound s → IsSound (drop_pending s)
unfolding drop_pending
drop_pending-IsSound s failed h = record {
  kept = λ k. cc;
  tail = h.tail;
  ahead = h.ahead;
  clean = h.clean;
  alone = λ k. ((h.alone k).0, refl);
  at_end = h.at_end;
  awaited = h.awaited;
  chained = h.chained;
  fits = h.fits;
  fits_final = h.fits_final;
  held = refl;
  marked = refl;
  reached = h.reached;
  stored = h.stored;
}

pub idle-none : (o : Option Flight) → is_none o ≡ true → o ≡ none
idle-none none h = refl
idle-none (some f) h = cc

pub passed :
    (c w : List Frame) (o : Option Flight)
    → (is_none o ≡ false → w ≡ [])
    → c ++ (frames_of o ++ w) ≡ (c ++ w) ++ (frames_of o ++ [])
passed c w none h = sym (append-nil (c ++ w))
passed c w (some f) h =
    rw (h refl) (ap (λ (l : List Frame). l ++ (f.frames ++ [])) (sym (append-nil c)))

-- Marks are passed while no batch of the chain is under way and no event waits.
pub pass_marks-IsSound :
    (s : Runner)
    → s.flush_failed ≡ false
    → is_none s.busy ≡ true
    → s.pending ≡ []
    → IsSound s
    → IsSound (pass_marks s)
unfolding pass_marks
pass_marks-IsSound s going idle empty h =
    let none_busy = idle-none s.busy idle in
    let all : s.received ≡ s.committed ++ (frames_of s.final ++ s.waiting) =
      ground (arith, h.kept going) in
    let gone = all ∙ passed s.committed s.waiting s.final (λ k. (h.alone k).1) in
    record {
      kept = λ k. ground (arith, gone);
      tail = frames_of s.final ++ [];
      ahead = gone;
      clean = h.clean;
      alone = λ k. ((h.alone k).0, refl);
      at_end = h.at_end;
      awaited = h.awaited;
      chained = h.chained;
      fits = h.fits;
      fits_final = h.fits_final;
      held = refl;
      marked = refl;
      reached = omega (arith, h.reached, h.marked, max_seq-append s.committed s.waiting);
      stored = ground (
        arith,
        h.stored,
        h.held,
        events_of-append s.committed s.waiting,
        append-nil (events_of s.committed),
      );
    }

-- What waits becomes the batch of the chain, or that of the last flush.
pub taken-IsSound :
    (s : Runner)
    → s.flush_failed ≡ false
    → is_none s.busy ≡ true
    → is_none s.final ≡ true
    → 0 < s.chain
    → (is_ending s.phase ≡ true → 0 < s.blocked)
    → IsSound s
    → IsSound (record (take_pending s) { busy = some (flight_of s) })
taken-IsSound s going idle last more blocks h =
    let none_busy = idle-none s.busy idle in
    let none_final = idle-none s.final last in
    let all : s.received ≡ s.committed ++ s.waiting = ground (arith, h.kept going) in
    record {
      kept = λ k. ground (arith, append-nil s.waiting);
      tail = h.tail;
      ahead = h.ahead;
      clean = λ k. going;
      alone = λ k. cc;
      at_end = h.at_end;
      awaited = λ e k. blocks e;
      chained = λ k. more;
      fits = (h.held, h.marked);
      fits_final = h.fits_final;
      held = refl;
      marked = refl;
      reached = h.reached;
      stored = h.stored;
    }

pub taken_final-IsSound :
    (s : Runner)
    → s.flush_failed ≡ false
    → is_none s.busy ≡ true
    → is_none s.final ≡ true
    → IsSound s
    → IsSound (record (take_pending s) { final = some (flight_of s); phase = flushing })
taken_final-IsSound s going idle last h =
    let none_busy = idle-none s.busy idle in
    let none_final = idle-none s.final last in
    let all : s.received ≡ s.committed ++ s.waiting = ground (arith, h.kept going) in
    record {
      kept = λ k. ground (arith, append-nil s.waiting);
      tail = h.tail;
      ahead = h.ahead;
      clean = λ k. going;
      alone = λ k. (none_busy, refl);
      at_end = λ k. refl;
      awaited = λ e k. cc;
      chained = h.chained;
      fits = h.fits;
      fits_final = (h.held, h.marked);
      held = refl;
      marked = refl;
      reached = h.reached;
      stored = h.stored;
    }

pub only_ending : (p : Phase) → is_ending p ≡ true → is_flushing p ≡ false
only_ending reading h = cc
only_ending ending h = refl
only_ending flushing h = cc
only_ending behind h = cc
