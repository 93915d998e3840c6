-- ===== src/Projection/Stream/Tests.antt =====
-- The streaming mode of packages/node/src/projection-runner.ts at work.
use ironflow_js.Prelude.{ℕ, ◌*◌, ◌≤◌, ◌≡◌, refl, true, false, List, [], ◌∷◌, ◌++◌, length, arith}
use ironflow_js.Projection.Runner.{Frame, Runner, opened}
use ironflow_js.Projection.Stream.{Event, run}
use ironflow_js.Projection.Stream.Covered.{IsInOrder, run-IsInOrder, Ascends, position_covers_saved}
use ironflow_js.Projection.Stream.Bounded.{pending_bounded}

abbrev event : ℕ → Frame
event n = record { name = n; seq = n; is_event = true }

abbrev heartbeat : ℕ → Frame
heartbeat n = record { name = 0; seq = n; is_event = false }

-- Batches of two from position 3: one commits, a heartbeat and an event wait for the timer, and
-- their batch fails.
abbrev schedule : List Event
schedule =
    Event.receives (event 4)
    ∷ Event.receives (event 5)
    ∷ Event.flush_starts
    ∷ Event.receives (heartbeat 8)
    ∷ Event.flush_commits
    ∷ Event.receives (event 9)
    ∷ Event.fires
    ∷ Event.flush_starts
    ∷ Event.flush_fails false
    ∷ []

abbrev after : Runner
after = run 2 schedule (opened 3)

after_position : after.position ≡ 5
unfolding run
after_position = refl

-- The reconnect asks for what lies behind the batch that committed.
after_reconnect : (run 2 (Event.ends ∷ Event.final_starts ∷ Event.reconnects ∷ []) after).base ≡ 5
unfolding run
after_reconnect = refl

run-IsInOrder_example : IsInOrder (run 2 schedule (opened 3))
run-IsInOrder_example = run-IsInOrder 2 schedule 3

after_received : after.received ≡ (event 4 ∷ []) ++ event 5 ∷ (heartbeat 8 ∷ event 9 ∷ [])
unfolding run
after_received = refl

after_Ascends : Ascends after.base after.received
unfolding run
after_Ascends = ground arith

after_reached : 5 ≤ after.position
unfolding run
after_reached = omega arith

position_covers_saved_example :
    (x : List Frame) × (y : List Frame) × (after.saved ≡ x ++ event 5 ∷ y)
position_covers_saved_example =
    position_covers_saved 2 schedule 3 (event 4 ∷ []) (heartbeat 8 ∷ event 9 ∷ []) (event 5)
      after_Ascends after_received refl after_reached

pending_bounded_example : length (run 2 schedule (opened 3)).pending ≤ 2 * 2
pending_bounded_example = pending_bounded 2 schedule 3 (omega arith)
