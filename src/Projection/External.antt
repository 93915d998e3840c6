-- ===== src/Projection/External.antt =====
-- processExternalBatch of packages/node/src/projection-runner.ts: the handler of an external
-- projection has effects of its own, and the batch is acknowledged behind the last of its events.
pub mod Acknowledged
mod Tests
use ironflow_js.Prelude.{
  ℕ, ◌+◌, Bool, true, false, Option, none, some, List, [], ◌∷◌, ◌++◌, if◌then◌else◌,
}
use ironflow_js.Durable.Text.{Text}
use ironflow_js.Projection.Batch.{PollEvent, Outcome, last_event}

-- `handled` are the events behind which the handler has returned.
pub record External (B : Type 0) : Type 0 where
  pub handled : List (PollEvent B)
  pub acked : Option (Text × ℕ)
  pub outcome : Outcome

-- The id and the seq that ackEvents sends, those of the last event.
unfoldable pub ack_of : {B : Type 0} → List (PollEvent B) → Text × ℕ
unfolding last_event
ack_of events = elim (last_event events) [ none ↦ ([], 0) | some e ↦ (e.id, e.seq) ]

-- `lost n` and `throws n`: the lease is known to be lost at the check behind the first `n` events,
-- and the handler throws on the next. `fails` is an ack that fails.
module _ {B : Type 0} (lost throws : ℕ → Bool) (fails : Bool) where
  unfoldable pub handle_events : ℕ → List (PollEvent B) → List (PollEvent B) → External B
  unfolding ack_of
  handle_events n handled [] =
      if lost n
      then record { handled = handled; acked = none; outcome = Outcome.lease_lost }
      else if fails
      then record { handled = handled; acked = none; outcome = Outcome.save_failed }
      else record { handled = handled; acked = some (ack_of handled); outcome = Outcome.committed }
  handle_events n handled (e ∷ es) = elim (lost n) [
    | true ↦ record { handled = handled; acked = none; outcome = Outcome.lease_lost }
    | false ↦ elim (throws n) [
      | true ↦ record { handled = handled; acked = none; outcome = Outcome.handler_threw }
      | false ↦ handle_events (n + 1) (handled ++ e ∷ []) es
    ]
  ]

  unfoldable pub process_external : List (PollEvent B) → External B
  unfolding handle_events
  process_external events = handle_events 0 [] events
