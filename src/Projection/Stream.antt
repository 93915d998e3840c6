-- ===== src/Projection/Stream.antt =====
-- The streaming mode of packages/node/src/projection-runner.ts: frames are gathered into batches,
-- flushed one after the other, and the delivery position rises behind each.
pub mod Sound
pub mod Pending
pub mod Flushes
pub mod Ends
pub mod Covered
pub mod Bounded
mod Tests
use ironflow_js.Prelude.{
  ℕ, zero, suc, ◌+◌, ◌-◌, ◌*◌, max, Bool, true, false, not, ◌&&◌, ◌||◌, Option, none, some, List,
  [], ◌∷◌, ◌++◌, filter, length, ◌==◌, leb, ltb, if◌then◌else◌,
}
use ironflow_js.Projection.Runner.{
  Frame, Flight, Phase, reading, ending, flushing, behind, Runner, opened, is_reading, is_ending,
  is_flushing, is_behind, is_none,
}

unfoldable pub schedule_flush : Runner → Runner
schedule_flush s = record s { chain = s.chain + 1 }

-- enqueueEvent up to its test, and enqueueMark: the frame joins what waits.
unfoldable pub hold_event : Frame → Runner → Runner
hold_event f s = record s {
  pending = s.pending ++ f ∷ [];
  mark = max s.mark f.seq;
  received = s.received ++ f ∷ [];
  waiting = s.waiting ++ f ∷ [];
}

unfoldable pub enqueue_mark : Frame → Runner → Runner
enqueue_mark f s = record s {
  mark = max s.mark f.seq;
  timer = true;
  received = s.received ++ f ∷ [];
  waiting = s.waiting ++ f ∷ [];
}

-- A batch that is full is flushed at once, another when the timer fires.
unfoldable pub arm : ℕ → Runner → Runner
unfolding schedule_flush
arm batch_size s =
    if leb batch_size (length s.pending) then schedule_flush s else record s { timer = true }

-- The reader awaits the flushes in the chain when two batches wait.
unfoldable pub hold_back : ℕ → Runner → Runner
hold_back batch_size s =
    if leb (2 * batch_size) (length s.pending) then record s { blocked = s.chain } else s

unfoldable pub receive : ℕ → Frame → Runner → Runner
unfolding hold_event enqueue_mark arm hold_back
receive batch_size f s =
    if is_reading s.phase && s.blocked == 0
    then (if f.is_event
        then hold_back batch_size (arm batch_size (hold_event f s))
        else enqueue_mark f s)
    else s

unfoldable pub fire_timer : Runner → Runner
unfolding schedule_flush
fire_timer s = if s.timer then schedule_flush (record s { timer = false }) else s

-- flushPending where a batch has failed: what waits is dropped.
unfoldable pub drop_pending : Runner → Runner
drop_pending s = record s { timer = false; pending = []; mark = 0; waiting = [] }

-- flushPending without events: the marks are reached.
unfoldable pub pass_marks : Runner → Runner
pass_marks s = record s {
  timer = false;
  pending = [];
  mark = 0;
  position = max s.position s.mark;
  committed = s.committed ++ s.waiting;
  waiting = [];
}

abbrev pub flight_of : Runner → Flight
flight_of s = record { events = s.pending; mark = s.mark; frames = s.waiting }

abbrev pub take_pending : Runner → Runner
take_pending s = record s { timer = false; pending = []; mark = 0; waiting = [] }

-- A flush of the chain is settled.
unfoldable pub settle_flush : Runner → Runner
settle_flush s = record s { chain = s.chain - 1; blocked = s.blocked - 1 }

unfoldable pub begin_chained : List Frame → Runner → Runner
unfolding drop_pending pass_marks settle_flush
begin_chained events s = if s.flush_failed then settle_flush (drop_pending s) else elim events [
  | [] ↦ settle_flush (pass_marks s)
  | f ∷ fs ↦ record (take_pending s) { busy = some (flight_of s) }
]

-- The first flush of the chain begins. The code behind the end of the stream, which awaits the
-- flushes that were in the chain then, runs before any later one.
unfoldable pub start_flush : Runner → Runner
unfolding begin_chained
start_flush s =
    if ltb 0 s.chain && is_none s.busy && not (is_ending s.phase && s.blocked == 0)
    then begin_chained s.pending s
    else s

-- Behind its batch.
unfoldable pub commit_flight : Flight → Runner → Runner
commit_flight f s = record s {
  position = max s.position f.mark;
  committed = s.committed ++ f.frames;
  saved = s.saved ++ f.events;
}

unfoldable pub commit_flush : Runner → Runner
unfolding commit_flight settle_flush
commit_flush s = elim s.busy [
  | none ↦ s
  | some f ↦ settle_flush (record (commit_flight f s) { busy = none })
]

-- The catch of scheduleFlush; `lease` is a lost lease, and any error aborts the stream.
unfoldable pub fail_flush : Bool → Runner → Runner
unfolding settle_flush
fail_flush lease s = elim s.busy [
  | none ↦ s
  | some f ↦ settle_flush (record s {
    busy = none;
    flush_failed = true;
    pending = [];
    mark = 0;
    waiting = [];
    lost = lease || s.lost;
  })
]

-- The reader's loop is left; frames of a lost lease are not flushed.
unfoldable pub end_stream : Runner → Runner
end_stream s =
    if is_reading s.phase
    then record s { phase = if s.lost then behind else ending; blocked = s.chain }
    else s

unfoldable pub begin_final : List Frame → Runner → Runner
unfolding drop_pending pass_marks
begin_final events s =
    if s.flush_failed then record (drop_pending s) { phase = behind } else elim events [
      | [] ↦ record (pass_marks s) { phase = behind }
      | f ∷ fs ↦ record (take_pending s) { final = some (flight_of s); phase = flushing }
    ]

-- The flush behind the stream, once the awaited flushes are settled.
unfoldable pub start_final : Runner → Runner
unfolding begin_final
start_final s =
    if is_ending s.phase && s.blocked == 0
    then (if s.lost then record s { phase = behind } else begin_final s.pending s)
    else s

unfoldable pub commit_final : Runner → Runner
unfolding commit_flight
commit_final s = elim s.final [
  | none ↦ s
  | some f ↦ record (commit_flight f s) { final = none; phase = behind }
]

unfoldable pub fail_final : Bool → Runner → Runner
fail_final lease s = elim s.final [
  | none ↦ s
  | some f ↦ record s { final = none; phase = behind; flush_failed = true; lost = lease || s.lost }
]

unfoldable pub lose_lease : Runner → Runner
lose_lease s = record s { lost = true }

-- The next stream, from the position; or the next grant, which has none yet.
unfoldable pub reconnect : Runner → Runner
reconnect s =
    if is_behind s.phase && s.chain == 0 then opened (if s.lost then 0 else s.position) else s

pub data Event : Type 0 where
  receives : Frame → Event
  fires : Event
  flush_starts : Event
  flush_commits : Event
  flush_fails : Bool → Event
  ends : Event
  final_starts : Event
  final_commits : Event
  final_fails : Bool → Event
  loses : Event
  reconnects : Event

unfoldable pub step : ℕ → Event → Runner → Runner
unfolding receive fire_timer start_flush commit_flush fail_flush end_stream start_final commit_final
    fail_final lose_lease reconnect
step batch_size (Event.receives f) s = receive batch_size f s
step batch_size Event.fires s = fire_timer s
step batch_size Event.flush_starts s = start_flush s
step batch_size Event.flush_commits s = commit_flush s
step batch_size (Event.flush_fails lease) s = fail_flush lease s
step batch_size Event.ends s = end_stream s
step batch_size Event.final_starts s = start_final s
step batch_size Event.final_commits s = commit_final s
step batch_size (Event.final_fails lease) s = fail_final lease s
step batch_size Event.loses s = lose_lease s
step batch_size Event.reconnects s = reconnect s

unfoldable pub run : ℕ → List Event → Runner → Runner
unfolding step
run batch_size [] s = s
run batch_size (e ∷ es) s = run batch_size es (step batch_size e s)
