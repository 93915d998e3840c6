-- ===== src/Projection/Stream/Ends.antt =====
-- The end of a stream, and all steps, keep what was received in order (packages/node/src/projection-runner.ts).
use ironflow_js.Prelude.{
  ℕ, ◌<◌, ◌≡◌, refl, Bool, true, false, ◌&&◌, none, some, List, [], ◌∷◌, ◌++◌, ◌==◌, arith,
  if_split, Option-split,
}
use mathlib.Core.List.{append-nil}
use ironflow_js.Projection.Runner.{
  Frame, Phase, behind, Runner, is_reading, is_ending, is_behind, is_none,
}
use ironflow_js.Projection.Stream.{
  drop_pending, pass_marks, commit_flight, end_stream, begin_final, start_final, commit_final,
  fail_final, lose_lease, reconnect, Event, step, run,
}
use mathlib.Core.Path.{subst}
use ironflow_js.Projection.Stream.Sound.{
  events_of-append, max_seq-append, Fits, IsSound, opened-IsSound, only_reading, receive-IsSound,
}
use ironflow_js.Projection.Stream.Pending.{
  fire_timer-IsSound, drop_pending-IsSound, pass_marks-IsSound, taken_final-IsSound, only_ending,
}
use ironflow_js.Projection.Stream.Flushes.{
  start_flush-IsSound, commit_flush-IsSound, fail_flush-IsSound,
}

-- A change of phase in which no last flush is under way.
phase-IsSound :
    (s : Runner) (p : Phase) (blocked : ℕ)
    → is_none s.final ≡ true
    → (is_ending p ≡ true → is_none s.busy ≡ false → 0 < blocked)
    → IsSound s
    → IsSound (record s { phase = p; blocked = blocked })
phase-IsSound s p blocked last waits h = record {
  kept = h.kept;
  tail = h.tail;
  ahead = h.ahead;
  clean = h.clean;
  alone = h.alone;
  at_end = λ k. cc;
  awaited = waits;
  chained = h.chained;
  fits = h.fits;
  fits_final = h.fits_final;
  held = h.held;
  marked = h.marked;
  reached = h.reached;
  stored = h.stored;
}

end_stream-IsSound : (s : Runner) → IsSound s → IsSound (end_stream s)
unfolding end_stream
end_stream-IsSound s h =
    if_split IsSound (is_reading s.phase) _ _
      (λ now.
        phase-IsSound s _ s.chain (ground (arith, only_reading s.phase now, h.at_end))
          (λ _ k. h.chained k) h)
      (λ _. h)

begin_final-IsSound :
    (s : Runner) (events : List Frame)
    → s.pending ≡ events
    → is_none s.busy ≡ true
    → is_none s.final ≡ true
    → IsSound s
    → IsSound (begin_final events s)
unfolding begin_final
begin_final-IsSound s [] e idle last h =
    if_split IsSound s.flush_failed _ _
      (λ failed.
        phase-IsSound (drop_pending s) behind s.blocked last (λ k. cc)
          (drop_pending-IsSound s failed h))
      (λ going.
        phase-IsSound (pass_marks s) behind s.blocked last (λ k. cc)
          (pass_marks-IsSound s going idle e h))
begin_final-IsSound s (f ∷ fs) e idle last h =
    if_split IsSound s.flush_failed _ _
      (λ failed.
        phase-IsSound (drop_pending s) behind s.blocked last (λ k. cc)
          (drop_pending-IsSound s failed h))
      (λ going. taken_final-IsSound s going idle last h)

start_final-IsSound : (s : Runner) → IsSound s → IsSound (start_final s)
unfolding start_final
start_final-IsSound s h =
    if_split IsSound (is_ending s.phase && s.blocked == 0) _ _
      (λ e.
        let last : is_none s.final ≡ true = ground (arith, only_ending s.phase, h.at_end) in
        let idle : is_none s.busy ≡ true = ground (arith, h.awaited) in
        if_split IsSound s.lost _ _ (λ _. phase-IsSound s behind s.blocked last (λ k. cc) h)
          (λ _. begin_final-IsSound s s.pending refl idle last h))
      (λ _. h)

commit_final-IsSound : (s : Runner) → IsSound s → IsSound (commit_final s)
unfolding commit_final commit_flight
commit_final-IsSound s h =
    Option-split IsSound s.final _ _ (λ _. h)
      (λ f e.
        let going : s.flush_failed ≡ false = ground (arith, h.clean) in
        let others : (s.busy ≡ none) × (s.waiting ≡ []) = h.alone (ground arith) in
        let all : s.received ≡ s.committed ++ (f.frames ++ []) =
          ground (arith, h.kept going, others.0, others.1) in
        let fit : Fits (some f) = subst Fits e h.fits_final in
        let gone : s.received ≡ s.committed ++ f.frames = ground (arith, append-nil f.frames) in
        record {
          kept = λ k. ground (arith, append-nil (s.committed ++ f.frames), others.0, others.1);
          tail = [];
          ahead = ground (arith, append-nil (s.committed ++ f.frames));
          clean = λ k. going;
          alone = λ k. cc;
          at_end = λ k. cc;
          awaited = λ a k. cc;
          chained = h.chained;
          fits = h.fits;
          fits_final = tt;
          held = h.held;
          marked = h.marked;
          reached = omega (arith, h.reached, fit.1, max_seq-append s.committed f.frames);
          stored = ground (arith, h.stored, fit.0, events_of-append s.committed f.frames);
        })

fail_final-IsSound : (lease : Bool) (s : Runner) → IsSound s → IsSound (fail_final lease s)
unfolding fail_final
fail_final-IsSound lease s h =
    Option-split IsSound s.final _ _ (λ _. h)
      (λ f e.
        let others : (s.busy ≡ none) × (s.waiting ≡ []) = h.alone (ground arith) in
        record {
          kept = λ k. cc;
          tail = h.tail;
          ahead = h.ahead;
          clean = λ k. ground (arith, others.0);
          alone = λ k. cc;
          at_end = λ k. cc;
          awaited = λ a k. cc;
          chained = h.chained;
          fits = h.fits;
          fits_final = tt;
          held = h.held;
          marked = h.marked;
          reached = h.reached;
          stored = h.stored;
        })

lose_lease-IsSound : (s : Runner) → IsSound s → IsSound (lose_lease s)
unfolding lose_lease
lose_lease-IsSound s h = record {
  kept = h.kept;
  tail = h.tail;
  ahead = h.ahead;
  clean = h.clean;
  alone = h.alone;
  at_end = h.at_end;
  awaited = h.awaited;
  chained = h.chained;
  fits = h.fits;
  fits_final = h.fits_final;
  held = h.held;
  marked = h.marked;
  reached = h.reached;
  stored = h.stored;
}

reconnect-IsSound : (s : Runner) → IsSound s → IsSound (reconnect s)
unfolding reconnect
reconnect-IsSound s h =
    if_split IsSound (is_behind s.phase && s.chain == 0) _ _ (λ _. opened-IsSound _) (λ _. h)

step-IsSound : (b : ℕ) (e : Event) (s : Runner) → IsSound s → IsSound (step b e s)
unfolding step
step-IsSound b (Event.receives f) s h = receive-IsSound b f s h
step-IsSound b Event.fires s h = fire_timer-IsSound s h
step-IsSound b Event.flush_starts s h = start_flush-IsSound s h
step-IsSound b Event.flush_commits s h = commit_flush-IsSound s h
step-IsSound b (Event.flush_fails lease) s h = fail_flush-IsSound lease s h
step-IsSound b Event.ends s h = end_stream-IsSound s h
step-IsSound b Event.final_starts s h = start_final-IsSound s h
step-IsSound b Event.final_commits s h = commit_final-IsSound s h
step-IsSound b (Event.final_fails lease) s h = fail_final-IsSound lease s h
step-IsSound b Event.loses s h = lose_lease-IsSound s h
step-IsSound b Event.reconnects s h = reconnect-IsSound s h

pub run-IsSound : (b : ℕ) (es : List Event) (s : Runner) → IsSound s → IsSound (run b es s)
unfolding run
run-IsSound b [] s h = h
run-IsSound b (e ∷ es) s h = run-IsSound b es (step b e s) (step-IsSound b e s h)
