-- ===== src/Projection/External/Tests.antt =====
-- Concrete batches of an external projection (packages/node/src/projection-runner.ts).
use ironflow_js.Prelude.{ℕ, ◌≡◌, refl, false, some, none, List, [], ◌∷◌, ◌==◌}
use ironflow_js.Durable.Text.{codes}
use ironflow_js.Projection.Batch.{PollEvent, last_event}
use ironflow_js.Projection.External.{process_external, handle_events, ack_of}
use ironflow_js.Projection.External.Acknowledged.{IsAcknowledged, process_external-IsAcknowledged}

abbrev event_at : ℕ → PollEvent ℕ
event_at n = record { id = codes "e"; body = n; seq = n; timestamp = none; partition = none }

abbrev three_events : List (PollEvent ℕ)
three_events = event_at 4 ∷ event_at 7 ∷ event_at 9 ∷ []

-- The handler throws on the second.
process_external-IsAcknowledged_example :
    IsAcknowledged
      (λ n. false)
      (λ n. n == 1)
      false
      three_events
      (process_external (λ n. false) (λ n. n == 1) false three_events)
process_external-IsAcknowledged_example =
    process_external-IsAcknowledged (λ n. false) (λ n. n == 1) false three_events

ends_behind_first :
    (process_external (λ n. false) (λ n. n == 1) false three_events).handled ≡ event_at 4 ∷ []
unfolding process_external handle_events
ends_behind_first = refl

acks_last :
    (process_external (λ n. false) (λ n. false) false three_events).acked ≡ some (codes "e", 9)
unfolding process_external handle_events ack_of last_event
acks_last = refl
