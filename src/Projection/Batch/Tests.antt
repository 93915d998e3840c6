-- ===== src/Projection/Batch/Tests.antt =====
-- Batches of packages/node/src/projection-runner.ts at work.
use ironflow_js.Prelude.{
  ℕ, ◌+◌, ◌≡◌, refl, Bool, false, Option, none, some, List, [], ◌∷◌, ◌==◌, if◌then◌else◌, map,
}
use ironflow_js.Durable.Text.{Text, codes}
use ironflow_js.Projection.Batch.{
  PollEvent, Save, Batch, Outcome, sort_events, global_state, loaded_state, process_managed,
}
use ironflow_js.Projection.Batch.Prefix.{IsPrefix, process_managed-IsPrefix}

-- The sum of the bodies; 99 is refused.
abbrev add_body : ℕ → PollEvent ℕ → Option ℕ
add_body s e = if e.body == 99 then none else some (s + e.body)

abbrev saved_sums : Text → Option ℕ
saved_sums pk = some 100

abbrev is_zero : ℕ → Bool
is_zero s = s == 0

abbrev event : ℕ → Option Text → ℕ → PollEvent ℕ
event seq partition body = record {
  id = codes "e";
  seq = seq;
  partition = partition;
  timestamp = none;
  body = body;
}

abbrev five : List (PollEvent ℕ)
five =
    event 3 none 1
    ∷ event 1 none 2
    ∷ event 2 (some (codes "a")) 4
    ∷ event 5 (some (codes "a")) 8
    ∷ event 4 none 16
    ∷ []

-- The third save fails: the events up to seq 2 are saved, those behind it are not.
abbrev half : Batch ℕ ℕ
half = process_managed add_body saved_sums is_zero 0 (λ n. false) (λ n. n == 2) none (some 7) five

half_saves : map (λ (s : Save ℕ). s.last_event_seq) half.saves ≡ 1 ∷ 2 ∷ []
unfolding process_managed
half_saves = refl

half_states : map (λ (s : Save ℕ). s.state) half.saves ≡ 9 ∷ 104 ∷ []
unfolding process_managed
half_states = refl

half_outcome : half.outcome ≡ Outcome.save_failed
unfolding process_managed
half_outcome = refl

process_managed-IsPrefix_example :
    IsPrefix add_body
      (loaded_state saved_sums 0 (global_state is_zero 0 none (some 7)))
      (some 7)
      (sort_events five)
      half
process_managed-IsPrefix_example =
    process_managed-IsPrefix add_body saved_sums is_zero 0 (λ n. false) (λ n. n == 2) none (some 7)
      five
