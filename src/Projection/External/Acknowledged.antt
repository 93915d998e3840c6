-- ===== src/Projection/External/Acknowledged.antt =====
-- What a batch of an external projection leaves behind (packages/node/src/projection-runner.ts).
use mathlib.Core.List.{append_assoc, append-nil}
use ironflow_js.Prelude.{
  ℕ, ◌+◌, ◌<◌, ◌≡◌, ◌∙◌, refl, sym, ap, Bool, true, false, Option, none, some, List, [], ◌∷◌, ◌++◌,
  length, length-append, if_split, Bool-split, arith, ◌⊎◌, inl, inr,
}
use ironflow_js.Durable.Text.{Text}
use ironflow_js.Projection.Batch.{PollEvent, Outcome}
use ironflow_js.Projection.External.{External, ack_of, handle_events, process_external}

-- Up to here the lease was not known to be lost and the handler threw nothing.
abbrev pub Clear : (ℕ → Bool) → (ℕ → Bool) → ℕ → Type 0
Clear lost throws n = (k : ℕ) → k < n → (lost k ≡ false) × (throws k ≡ false)

-- Why a batch has come to its end behind so many of its events.
abbrev pub Reason : (ℕ → Bool) → (ℕ → Bool) → Bool → ℕ → Outcome → Type 0
Reason lost throws fails n Outcome.lease_lost = lost n ≡ true
Reason lost throws fails n Outcome.handler_threw = (lost n ≡ false) × (throws n ≡ true)
Reason lost throws fails n Outcome.save_failed = (lost n ≡ false) × (fails ≡ true)
Reason lost throws fails n Outcome.committed = (lost n ≡ false) × (fails ≡ false)
Reason lost throws fails n Outcome.load_failed = ⊥

-- What is acknowledged, and whether all events are handled then.
abbrev pub Acks :
    {B : Type 0} → List (PollEvent B) → List (PollEvent B) → Outcome → Option (Text × ℕ) → Type 0
Acks events left Outcome.committed a = (a ≡ some (ack_of events)) × (left ≡ [])
Acks events left Outcome.save_failed a = (a ≡ none) × (left ≡ [])
Acks {B} events left Outcome.handler_threw a =
    (a ≡ none) × ((e : PollEvent B) × (es : List (PollEvent B)) × (left ≡ e ∷ es))
Acks events left _ a = a ≡ none

pub record IsAcknowledged {B : Type 0} (lost throws : ℕ → Bool) (fails : Bool)
    (events : List (PollEvent B)) (x : External B) : Type 0 where
  pub left : List (PollEvent B)
  pub split : events ≡ x.handled ++ left
  pub clear : Clear lost throws (length x.handled)
  pub reason : Reason lost throws fails (length x.handled) x.outcome
  pub acks : Acks events left x.outcome x.acked

one_more :
    (lost throws : ℕ → Bool) (n : ℕ)
    → lost n ≡ false
    → throws n ≡ false
    → Clear lost throws n
    → Clear lost throws (n + 1)
one_more lost throws n e f h k less =
    let before : (k < n) ⊎ (k ≡ n) = ground (arith, less) in
    elim before [ inl earlier ↦ h k earlier | inr now ↦ (ap lost now ∙ e, ap throws now ∙ f) ]

module _ {B : Type 0} (lost throws : ℕ → Bool) (fails : Bool) where
  handle_events-IsAcknowledged :
      (events handled rest : List (PollEvent B))
      → events ≡ handled ++ rest
      → Clear lost throws (length handled)
      → IsAcknowledged lost throws fails events
          (handle_events lost throws fails (length handled) handled rest)
  unfolding handle_events
  handle_events-IsAcknowledged events handled [] e h =
      let all : events ≡ handled = e ∙ append-nil handled in
      if_split (IsAcknowledged lost throws fails events) (lost (length handled)) _ _
        (λ f. record { left = []; split = e; clear = h; reason = f; acks = refl })
        (λ f.
          if_split (IsAcknowledged lost throws fails events) fails _ _
            (λ g. record { left = []; split = e; clear = h; reason = (f, g); acks = (refl, refl) })
            (λ g. record {
              left = [];
              split = e;
              clear = h;
              reason = (f, g);
              acks = (ap (λ (l : List (PollEvent B)). some (ack_of l)) (sym all), refl);
            }))
  handle_events-IsAcknowledged events handled (x ∷ rest) e h =
      Bool-split (IsAcknowledged lost throws fails events) (lost (length handled)) _ _
        (λ f. record { left = x ∷ rest; split = e; clear = h; reason = f; acks = refl })
        (λ f.
          Bool-split (IsAcknowledged lost throws fails events) (throws (length handled)) _ _
            (λ g. record {
              left = x ∷ rest;
              split = e;
              clear = h;
              reason = (f, g);
              acks = (refl, (x, rest, refl));
            })
            (λ g.
              let longer : length (handled ++ x ∷ []) ≡ length handled + 1 =
                length-append handled (x ∷ []) in
              rw (sym longer) (
                handle_events-IsAcknowledged events (handled ++ x ∷ []) rest
                  (e ∙ sym (append_assoc handled (x ∷ []) rest))
                  (rw longer (one_more lost throws (length handled) f g h)))))

-- Whatever goes wrong in a batch of an external projection: the handler has returned from the first
-- of its events, at none of which the lease was known to be lost, and from no other; the outcome is
-- what came behind them, and the last event is acknowledged exactly where all are handled, the lease
-- is not known to be lost and the ack does not fail.
pub process_external-IsAcknowledged :
    {B : Type 0} (lost throws : ℕ → Bool) (fails : Bool) (events : List (PollEvent B))
    → IsAcknowledged lost throws fails events (process_external lost throws fails events)
unfolding process_external
process_external-IsAcknowledged lost throws fails events =
    handle_events-IsAcknowledged lost throws fails events [] events refl
      (λ k less. absurd (omega (arith, less)))
