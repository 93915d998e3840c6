-- ===== src/Projection/Stream/Covered.antt =====
-- The delivery position never covers an event that is not saved
-- (packages/node/src/projection-runner.ts).
use ironflow_js.Prelude.{
  ℕ, max, ap, ◌<◌, ◌≤◌, ◌≡◌, refl, sym, ◌∙◌, ◌⊎◌, inl, inr, true, List, [], ◌∷◌, ◌++◌, arith,
}
use ironflow_js.Projection.Runner.{Frame, Runner, opened}
use ironflow_js.Projection.Stream.{Event, run}
use ironflow_js.Projection.Stream.Sound.{
  events_of, max_seq, events_of-append, max_seq-append, opened-IsSound,
}
use ironflow_js.Projection.Stream.Ends.{run-IsSound}

-- What a stream's frames, its position and its saved events have to do with each other.
pub record IsInOrder (s : Runner) : Type 0 where
  pub tail : List Frame
  pub ahead : s.received ≡ s.committed ++ tail
  pub reached : s.position ≡ max s.base (max_seq s.committed)
  pub stored : s.saved ≡ events_of s.committed

-- Whatever comes in, fails or is lost in which order: the frames behind which the flushes have gone
-- are the first of those that the stream has received, the position is the highest of their seqs
-- and of the position that was sent, and the events of the batches that committed are the events
-- among them, in their order.
pub run-IsInOrder :
    (batch_size : ℕ) (es : List Event) (position : ℕ)
    → IsInOrder (run batch_size es (opened position))
run-IsInOrder batch_size es position =
    let h = run-IsSound batch_size es (opened position) (opened-IsSound position) in
    record { tail = h.tail; ahead = h.ahead; reached = h.reached; stored = h.stored }

-- Each event's seq is above the position that was sent and all seqs before it.
abbrev pub Ascends : ℕ → List Frame → Type 0
Ascends m [] = Unit
Ascends m (f ∷ fs) = (f.is_event ≡ true → m < f.seq) × Ascends (max m f.seq) fs

Ascends-at :
    (m : ℕ) (front back : List Frame) (f : Frame)
    → Ascends m (front ++ f ∷ back)
    → f.is_event ≡ true
    → max m (max_seq front) < f.seq
Ascends-at m [] back f h e = omega (arith, h.0 e)
Ascends-at m (g ∷ front) back f h e = omega (arith, Ascends-at (max m g.seq) front back f h.1 e)

-- Where two cuts of one list stand to each other.
two_cuts :
    (c t front back : List Frame) (f : Frame)
    → c ++ t ≡ front ++ f ∷ back
    → ((y : List Frame) × (c ≡ front ++ f ∷ y)) ⊎ ((x : List Frame) × (front ≡ c ++ x))
two_cuts [] t front back f e = inr (front, refl)
two_cuts (g ∷ c) t [] back f e = inl (c, cc)
two_cuts (g ∷ c) t (k ∷ front) back f e = elim (two_cuts c t front back f (cc)) [
  | inl (y, p) ↦ inl (y, cc)
  | inr (x, p) ↦ inr (x, cc)
]

-- Whatever comes in, fails or is lost in which order: where each event that the stream has sent has
-- a seq above the position and all seqs before it, an event whose seq the position has reached is
-- one of a batch that committed.
pub position_covers_saved :
    (batch_size : ℕ) (es : List Event) (position : ℕ) (front back : List Frame) (f : Frame)
    → let s = run batch_size es (opened position) in
      Ascends s.base s.received
      → s.received ≡ front ++ f ∷ back
      → f.is_event ≡ true
      → f.seq ≤ s.position
      → (x : List Frame) × (y : List Frame) × (s.saved ≡ x ++ f ∷ y)
position_covers_saved batch_size es position front back f up split event below =
    let s = run batch_size es (opened position) in
    let h = run-IsInOrder batch_size es position in
    elim (two_cuts s.committed h.tail front back f (sym h.ahead ∙ split)) [
      | inl (y, early) ↦
          (events_of front, events_of y, ground (arith, h.stored, events_of-append front (f ∷ y)))
      | inr (x, late) ↦
          let above : max s.base (max_seq front) < f.seq =
            Ascends-at s.base front back f (rw split at up) event in
          absurd (omega (arith, h.reached, ap max_seq late, max_seq-append s.committed x))
    ]
