-- ===== src/Projection/Stream/Bounded.antt =====
-- The reader stays at most one batch ahead of the flush (packages/node/src/projection-runner.ts).
use ironflow_js.Prelude.{
  ℕ, ◌*◌, ◌<◌, ◌≤◌, ◌≡◌, ◌⊎◌, Bool, true, false, List, [], ◌∷◌, length, length-append, arith,
}
use ironflow_js.Projection.Runner.{Frame, Runner, opened, is_reading, is_none}
use ironflow_js.Projection.Stream.{
  receive, fire_timer, start_flush, commit_flight, commit_flush, fail_flush, end_stream,
  start_final, commit_final, fail_final, lose_lease, reconnect, Event, step, run,
}

-- Two batches wait at most, fewer where the reader goes on; and the last flush that it awaits has
-- not begun, or nothing waits.
record IsBounded (b : ℕ) (s : Runner) : Type 0 where
  pub within : length s.pending ≤ 2 * b
  pub free : is_reading s.phase ≡ true → s.blocked ≡ 0 → length s.pending < 2 * b
  pub last :
      is_reading s.phase ≡ true
      → 0 < s.blocked
      → is_none s.busy ≡ false
      → (length s.pending ≡ 0) ⊎ (1 < s.blocked)
  pub chained : is_none s.busy ≡ false → 0 < s.chain

opened-IsBounded : (b n : ℕ) → 0 < b → IsBounded b (opened n)
opened-IsBounded b n some_size = record {
  within = omega arith;
  free = λ r e. omega arith;
  last = λ r e k. cc;
  chained = λ k. cc;
}

module _ (b : ℕ) (some_size : 0 < b) where
  receive-IsBounded : (f : Frame) (s : Runner) → IsBounded b s → IsBounded b (receive b f s)
  unfolding receive
  receive-IsBounded f s h = record {
    within = ground (arith, h.within, h.free, length-append {0} s.pending (f ∷ []));
    free = λ r e. ground (arith, h.within, h.free, length-append {0} s.pending (f ∷ []));
    last = λ r e k. ground (arith, h.last, h.chained);
    chained = λ k. ground (arith, h.chained);
  }

  fire_timer-IsBounded : (s : Runner) → IsBounded b s → IsBounded b (fire_timer s)
  unfolding fire_timer
  fire_timer-IsBounded s h = record {
    within = ground (arith, h.within, h.free);
    free = λ r e. ground (arith, h.within, h.free, h.last);
    last = λ r e k. ground (arith, h.last, h.chained);
    chained = λ k. ground (arith, h.chained);
  }

  start_flush-IsBounded : (s : Runner) → IsBounded b s → IsBounded b (start_flush s)
  unfolding start_flush
  start_flush-IsBounded s h = record {
    within = ground (arith, h.within, h.free);
    free = λ r e. ground (arith, h.within, h.free, h.last);
    last = λ r e k. ground (arith, h.last, h.chained);
    chained = λ k. ground (arith, h.chained);
  }

  commit_flush-IsBounded : (s : Runner) → IsBounded b s → IsBounded b (commit_flush s)
  unfolding commit_flush
  commit_flush-IsBounded s h = record {
    within = ground (arith, h.within, h.free);
    free = λ r e. ground (arith, h.within, h.free, h.last);
    last = λ r e k. ground (arith, h.last, h.chained);
    chained = λ k. ground (arith, h.chained);
  }

  fail_flush-IsBounded :
      (lease : Bool) (s : Runner) → IsBounded b s → IsBounded b (fail_flush lease s)
  unfolding fail_flush
  fail_flush-IsBounded lease s h = record {
    within = ground (arith, h.within, h.free);
    free = λ r e. ground (arith, h.within, h.free, h.last);
    last = λ r e k. ground (arith, h.last, h.chained);
    chained = λ k. ground (arith, h.chained);
  }

  end_stream-IsBounded : (s : Runner) → IsBounded b s → IsBounded b (end_stream s)
  unfolding end_stream
  end_stream-IsBounded s h = record {
    within = ground (arith, h.within, h.free);
    free = λ r e. ground (arith, h.within, h.free, h.last);
    last = λ r e k. ground (arith, h.last, h.chained);
    chained = λ k. ground (arith, h.chained);
  }

  start_final-IsBounded : (s : Runner) → IsBounded b s → IsBounded b (start_final s)
  unfolding start_final
  start_final-IsBounded s h = record {
    within = ground (arith, h.within, h.free);
    free = λ r e. ground (arith, h.within, h.free, h.last);
    last = λ r e k. ground (arith, h.last, h.chained);
    chained = λ k. ground (arith, h.chained);
  }

  commit_final-IsBounded : (s : Runner) → IsBounded b s → IsBounded b (commit_final s)
  unfolding commit_final commit_flight
  commit_final-IsBounded s h = record {
    within = ground (arith, h.within, h.free);
    free = λ r e. ground (arith, h.within, h.free, h.last);
    last = λ r e k. ground (arith, h.last, h.chained);
    chained = λ k. ground (arith, h.chained);
  }

  fail_final-IsBounded :
      (lease : Bool) (s : Runner) → IsBounded b s → IsBounded b (fail_final lease s)
  unfolding fail_final
  fail_final-IsBounded lease s h = record {
    within = ground (arith, h.within, h.free);
    free = λ r e. ground (arith, h.within, h.free, h.last);
    last = λ r e k. ground (arith, h.last, h.chained);
    chained = λ k. ground (arith, h.chained);
  }

  lose_lease-IsBounded : (s : Runner) → IsBounded b s → IsBounded b (lose_lease s)
  unfolding lose_lease
  lose_lease-IsBounded s h = record {
    within = ground (arith, h.within, h.free);
    free = λ r e. ground (arith, h.within, h.free, h.last);
    last = λ r e k. ground (arith, h.last, h.chained);
    chained = λ k. ground (arith, h.chained);
  }

  reconnect-IsBounded : (s : Runner) → IsBounded b s → IsBounded b (reconnect s)
  unfolding reconnect
  reconnect-IsBounded s h = record {
    within = ground (arith, h.within, h.free);
    free = λ r e. ground (arith, h.within, h.free, h.last);
    last = λ r e k. ground (arith, h.last, h.chained);
    chained = λ k. ground (arith, h.chained);
  }

  step-IsBounded : (e : Event) (s : Runner) → IsBounded b s → IsBounded b (step b e s)
  unfolding step
  step-IsBounded (Event.receives f) s h = receive-IsBounded f s h
  step-IsBounded Event.fires s h = fire_timer-IsBounded s h
  step-IsBounded Event.flush_starts s h = start_flush-IsBounded s h
  step-IsBounded Event.flush_commits s h = commit_flush-IsBounded s h
  step-IsBounded (Event.flush_fails lease) s h = fail_flush-IsBounded lease s h
  step-IsBounded Event.ends s h = end_stream-IsBounded s h
  step-IsBounded Event.final_starts s h = start_final-IsBounded s h
  step-IsBounded Event.final_commits s h = commit_final-IsBounded s h
  step-IsBounded (Event.final_fails lease) s h = fail_final-IsBounded lease s h
  step-IsBounded Event.loses s h = lose_lease-IsBounded s h
  step-IsBounded Event.reconnects s h = reconnect-IsBounded s h

  run-IsBounded : (es : List Event) (s : Runner) → IsBounded b s → IsBounded b (run b es s)
  unfolding run
  run-IsBounded [] s h = h
  run-IsBounded (e ∷ es) s h = run-IsBounded es (step b e s) (step-IsBounded e s h)

-- Whatever comes in, fails or is lost in which order, no more than two batches of events wait to be
-- flushed, for a batch size that is not zero.
pub pending_bounded :
    (batch_size : ℕ) (es : List Event) (position : ℕ)
    → 0 < batch_size
    → length (run batch_size es (opened position)).pending ≤ 2 * batch_size
pending_bounded batch_size es position some_size =
    (run-IsBounded batch_size some_size es (opened position)
      (opened-IsBounded batch_size position some_size)).within
