-- ===== src/Dedup/Rounds.antt =====
-- A claim ends after three rounds (packages/node/src/command-dedup.ts).
use ironflow_js.Prelude.{ℕ, ◌*◌, ◌-◌, ◌<◌, Bool, List, [], ◌∷◌, arith}
use ironflow_js.Durable.Text.{Text}
use ironflow_js.Dedup.{
  Entry, Bucket, Phase, creating, reading, Network, System, begin, begin_at, create_answers,
  create_at, read_answers, read_at, next_round, finalize, finalize_at, release, release_at, leave,
  leave_at, Event, step, run, start, claim_attempts,
}

-- The answers that a claim still waits for, at most.
abbrev pub remaining : Phase → ℕ
remaining (creating n) = 2 * (claim_attempts - n)
remaining (reading n) = 2 * (claim_attempts - n) - 1
remaining _ = 0

abbrev pub InRange : Phase → Type 0
InRange (creating n) = n < claim_attempts
InRange (reading n) = n < claim_attempts
InRange _ = Unit {0}

step-InRange :
    (b : Bucket) (is_owner : ℕ → Entry → Bool) (e : Event) (s : System b.State) (j : ℕ)
    → ((i : ℕ) → InRange (s.phase i))
    → InRange ((step b is_owner e s).phase j)
unfolding step begin begin_at create_answers create_at read_answers read_at next_round finalize
    finalize_at release release_at leave leave_at
step-InRange b is_owner (Event.begins i a) s j h = ground (arith, h j)
step-InRange b is_owner (Event.creates i claim w) s j h = ground (arith, h j, h i)
step-InRange b is_owner e s j h = ground (arith, h j)

run-InRange :
    (b : Bucket) (is_owner : ℕ → Entry → Bool) (es : List Event) (s : System b.State)
    → ((i : ℕ) → InRange (s.phase i))
    → (j : ℕ) → InRange ((run b is_owner es s).phase j)
unfolding run
run-InRange b is_owner [] s h j = h j
run-InRange b is_owner (e ∷ es) s h j =
    run-InRange b is_owner es (step b is_owner e s) (λ i. step-InRange b is_owner e s i h) j

-- After any events, a caller that is in tryClaim is in one of three rounds, and an answer to its
-- create with one to its get brings it nearer to the end.
pub claim_settles :
    (b : Bucket) (is_owner : ℕ → Entry → Bool) (es : List Event) (i : ℕ) (claim : Text)
    (w v : Network) (gone : Bool)
    → let s = run b is_owner es (start b) in
      0 < remaining (s.phase i)
      → InRange (s.phase i)
        × (remaining ((read_answers b is_owner i v gone (create_answers b i claim w s)).phase i)
            < remaining (s.phase i))
unfolding create_answers create_at read_answers read_at next_round
claim_settles b is_owner es i claim w v gone h =
    let s = run b is_owner es (start b) in
    let range = run-InRange b is_owner es (start b) (λ j. tt) i in ground arith
