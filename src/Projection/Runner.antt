-- ===== src/Projection/Runner.antt =====
-- The state of ProjectionRunner in streaming mode, packages/node/src/projection-runner.ts.
use ironflow_js.Prelude.{ℕ, Bool, true, false, Option, none, some, List, []}

-- A frame behind OPEN: an event, or a heartbeat with the server's watermark.
pub record Frame : Type 0 where
  pub name : ℕ
  pub seq : ℕ
  pub is_event : Bool

-- A flush that waits for its batch: what it took of `pendingEvents` and `pendingMark`. `frames` is
-- what these came from.
pub record Flight : Type 0 where
  pub events : List Frame
  pub mark : ℕ
  pub frames : List Frame

-- The stream is read; its end waits for the flush chain; its last flush runs; all is flushed.
pub data Phase : Type 0 where
  reading : Phase
  ending : Phase
  flushing : Phase
  behind : Phase

-- `chain` counts the flushes of `flushChain` that are not settled, `busy` is the batch of the first
-- of them, `final` that of the flush behind the stream, and `blocked` counts the flushes that the
-- reader awaits. The last four are a history since the stream was opened: its frames, those that no
-- flush has taken, those behind which a flush has gone, and the events of the batches that
-- committed; `base` is the position that was sent.
pub record Runner : Type 0 where
  pub pending : List Frame
  pub mark : ℕ
  pub position : ℕ
  pub timer : Bool
  pub chain : ℕ
  pub busy : Option Flight
  pub final : Option Flight
  pub flush_failed : Bool
  pub blocked : ℕ
  pub lost : Bool
  pub phase : Phase
  pub base : ℕ
  pub received : List Frame
  pub waiting : List Frame
  pub committed : List Frame
  pub saved : List Frame

abbrev pub opened : ℕ → Runner
opened position = record {
  pending = [];
  mark = 0;
  position = position;
  timer = false;
  chain = 0;
  busy = none;
  final = none;
  flush_failed = false;
  blocked = 0;
  lost = false;
  phase = reading;
  base = position;
  received = [];
  waiting = [];
  committed = [];
  saved = [];
}

abbrev pub is_reading : Phase → Bool
is_reading reading = true
is_reading _ = false

abbrev pub is_ending : Phase → Bool
is_ending ending = true
is_ending _ = false

abbrev pub is_flushing : Phase → Bool
is_flushing flushing = true
is_flushing _ = false

abbrev pub is_behind : Phase → Bool
is_behind behind = true
is_behind _ = false

abbrev pub is_none : Option Flight → Bool
is_none none = true
is_none (some f) = false
