-- ===== src/Projection/Stream/Sound.antt =====
-- Between the steps of the streaming mode: what was received is what is behind the flushes, in
-- them, and before them (packages/node/src/projection-runner.ts).
use ironflow_js.Prelude.{
  ℕ, ◌+◌, ◌*◌, max, ◌<◌, ◌≤◌, ◌≡◌, refl, ◌∙◌, ap, Bool, true, false, ◌&&◌, Option, none, some, List,
  [], ◌∷◌, ◌++◌, filter, length, ◌==◌, leb, arith, if_split,
}
use mathlib.Core.List.{append-nil, append_assoc}
use ironflow_js.Projection.Runner.{
  Frame, Flight, Phase, reading, ending, flushing, behind, Runner, opened, is_reading, is_ending,
  is_flushing, is_none,
}
use ironflow_js.Projection.Stream.{hold_event, arm, hold_back, receive}

abbrev pub events_of : List Frame → List Frame
events_of fs = filter (λ f. f.is_event) fs

abbrev pub max_seq : List Frame → ℕ
max_seq [] = 0
max_seq (f ∷ fs) = max f.seq (max_seq fs)

pub events_of-append : (a b : List Frame) → events_of (a ++ b) ≡ events_of a ++ events_of b
events_of-append [] b = refl
events_of-append (f ∷ a) b = ground (arith, events_of-append a b)

pub max_seq-append : (a b : List Frame) → max_seq (a ++ b) ≡ max (max_seq a) (max_seq b)
max_seq-append [] b = omega arith
max_seq-append (f ∷ a) b = omega (arith, max_seq-append a b)

abbrev pub frames_of : Option Flight → List Frame
frames_of none = []
frames_of (some f) = f.frames

-- A flight's events and mark are those of its frames.
abbrev pub Fits : Option Flight → Type 0
Fits none = Unit
Fits (some f) = (f.events ≡ events_of f.frames) × (f.mark ≡ max_seq f.frames)

-- What has come in and is not behind a flush.
abbrev pub rest : Runner → List Frame
rest s = frames_of s.busy ++ (frames_of s.final ++ s.waiting)

pub record IsSound (s : Runner) : Type 0 where
  pub kept : s.flush_failed ≡ false → s.received ≡ s.committed ++ rest s
  pub tail : List Frame
  pub ahead : s.received ≡ s.committed ++ tail
  pub clean : (is_none s.busy && is_none s.final) ≡ false → s.flush_failed ≡ false
  pub alone : is_none s.final ≡ false → (s.busy ≡ none) × (s.waiting ≡ [])
  pub at_end : is_none s.final ≡ false → is_flushing s.phase ≡ true
  pub awaited : is_ending s.phase ≡ true → is_none s.busy ≡ false → 0 < s.blocked
  pub chained : is_none s.busy ≡ false → 0 < s.chain
  pub fits : Fits s.busy
  pub fits_final : Fits s.final
  pub held : s.pending ≡ events_of s.waiting
  pub marked : s.mark ≡ max_seq s.waiting
  pub reached : s.position ≡ max s.base (max_seq s.committed)
  pub stored : s.saved ≡ events_of s.committed

pub opened-IsSound : (n : ℕ) → IsSound (opened n)
opened-IsSound n = record {
  kept = λ e. refl;
  tail = [];
  ahead = refl;
  clean = λ e. cc;
  alone = λ e. cc;
  at_end = λ e. cc;
  awaited = λ e f. cc;
  chained = λ e. cc;
  fits = tt;
  fits_final = tt;
  held = refl;
  marked = refl;
  reached = omega arith;
  stored = refl;
}

pub only_reading :
    (p : Phase) → is_reading p ≡ true → (is_flushing p ≡ false) × (is_ending p ≡ false)
only_reading reading h = (refl, refl)
only_reading ending h = cc
only_reading flushing h = cc
only_reading behind h = cc

snoc_rest :
    (c a b w : List Frame) (f : Frame)
    → (c ++ (a ++ (b ++ w))) ++ f ∷ [] ≡ c ++ (a ++ (b ++ (w ++ f ∷ [])))
snoc_rest c a b w f = rw (append_assoc, append_assoc, append_assoc) refl

-- A frame joins what waits, whatever becomes of the timer, the chain and the reader.
joined-IsSound :
    (f : Frame) (s : Runner) (timer : Bool) (chain blocked : ℕ) (pending : List Frame)
    → is_reading s.phase ≡ true
    → s.chain ≤ chain
    → pending ≡ events_of (s.waiting ++ f ∷ [])
    → IsSound s
    → IsSound (record s {
      pending = pending;
      mark = max s.mark f.seq;
      timer = timer;
      chain = chain;
      blocked = blocked;
      received = s.received ++ f ∷ [];
      waiting = s.waiting ++ f ∷ [];
    })
joined-IsSound f s timer chain blocked pending now more e h = record {
  kept = λ k.
      ap (λ (l : List Frame). l ++ f ∷ []) (h.kept k)
      ∙ snoc_rest s.committed (frames_of s.busy) (frames_of s.final) s.waiting f;
  tail = h.tail ++ f ∷ [];
  ahead = ap (λ (l : List Frame). l ++ f ∷ []) h.ahead ∙ append_assoc s.committed h.tail (f ∷ []);
  clean = h.clean;
  alone = λ k. ground (arith, only_reading s.phase now, h.at_end k);
  at_end = h.at_end;
  awaited = λ k. ground (arith, only_reading s.phase now);
  chained = λ k. omega (arith, h.chained k);
  fits = h.fits;
  fits_final = h.fits_final;
  held = e;
  marked = omega (arith, h.marked, max_seq-append s.waiting (f ∷ []));
  reached = h.reached;
  stored = h.stored;
}

arm-reading :
    (b : ℕ) (f : Frame) (s : Runner)
    → is_reading s.phase ≡ true
    → is_reading (arm b (hold_event f s)).phase ≡ true
unfolding arm hold_event
arm-reading b f s now = ground arith

arm-IsSound :
    (b : ℕ) (f : Frame) (s : Runner)
    → is_reading s.phase ≡ true
    → s.pending ++ f ∷ [] ≡ events_of (s.waiting ++ f ∷ [])
    → IsSound s
    → IsSound (arm b (hold_event f s))
unfolding arm hold_event
arm-IsSound b f s now joins h =
    if_split IsSound (leb b (length (s.pending ++ f ∷ []))) _ _
      (λ _. joined-IsSound f s s.timer (s.chain + 1) s.blocked _ now (omega arith) joins h)
      (λ _. joined-IsSound f s true s.chain s.blocked _ now (omega arith) joins h)

hold_back-IsSound :
    (b : ℕ) (s : Runner) → is_reading s.phase ≡ true → IsSound s → IsSound (hold_back b s)
unfolding hold_back
hold_back-IsSound b s now h =
    if_split IsSound (leb (2 * b) (length s.pending)) _ _
      (λ _. record {
        kept = h.kept;
        tail = h.tail;
        ahead = h.ahead;
        clean = h.clean;
        alone = h.alone;
        at_end = h.at_end;
        awaited = λ k. ground (arith, only_reading s.phase now);
        chained = h.chained;
        fits = h.fits;
        fits_final = h.fits_final;
        held = h.held;
        marked = h.marked;
        reached = h.reached;
        stored = h.stored;
      })
      (λ _. h)

pub receive-IsSound : (b : ℕ) (f : Frame) (s : Runner) → IsSound s → IsSound (receive b f s)
unfolding receive
receive-IsSound b f s h =
    if_split IsSound (is_reading s.phase && s.blocked == 0) _ _
      (λ e.
        let now : is_reading s.phase ≡ true = ground arith in
        if_split IsSound f.is_event _ _
          (λ is_event.
            let joins : s.pending ++ f ∷ [] ≡ events_of (s.waiting ++ f ∷ []) =
              ground (arith, h.held, events_of-append s.waiting (f ∷ [])) in
            let armed = arm-IsSound b f s now joins h in
            hold_back-IsSound b (arm b (hold_event f s)) (arm-reading b f s now) armed)
          (λ mark.
            let joins : s.pending ≡ events_of (s.waiting ++ f ∷ []) = ground (
              arith,
              h.held,
              events_of-append s.waiting (f ∷ []),
              append-nil (events_of s.waiting),
            ) in
            joined-IsSound f s true s.chain s.blocked s.pending now (omega arith) joins h))
      (λ _. h)
