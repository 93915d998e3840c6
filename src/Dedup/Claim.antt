-- ===== src/Dedup/Claim.antt =====
-- The race for a command is an atomic claim (packages/node/src/command-dedup.ts).
use ironflow_js.Prelude.{ℕ, ◌≡◌, Bool, Option, none, some, List, arith, ◌⊎◌, inl, inr}
use ironflow_js.Durable.Text.{Text}
use ironflow_js.Dedup.{
  Entry, Bucket, BucketAnswer, Network, System, begin, begin_at, create_answers, create_at,
  read_answers, read_at, finalize, finalize_at, release, release_at, leave, leave_at, Event, step,
  run, start,
}
use ironflow_js.Dedup.Exclusion.{
  OwnsOnly, holder, IsExclusive, entry-cases, create-answer, reached-IsExclusive,
}

-- The atomic claim: taken while it is free, and freed by whom it was taken.
pub data Move : Event → Option ℕ → Option ℕ → Type 0 where
  keep : {e : Event} {h k : Option ℕ} → k ≡ h → Move e h k
  take :
      {h k : Option ℕ} {claim : Text} {w : Network} (i : ℕ)
      → h ≡ none
      → k ≡ some i
      → Move (Event.creates i claim w) h k
  free :
      {h k : Option ℕ} {w : Network} (i : ℕ) → h ≡ some i → k ≡ none → Move (Event.releases i w) h k

module _ (b : Bucket) where
  create-holder :
      (i : ℕ) (claim : Text) (w : Network) (s : System b.State)
      → (holder b (create_answers b i claim w s) ≡ holder b s)
        ⊎ ((holder b s ≡ none) × (holder b (create_answers b i claim w s) ≡ some i))
  unfolding create_answers create_at
  create-holder i claim w s = elim (create-answer b i claim s.bucket) [
    | inl (refused, same) ↦ ground arith
    | inr (made, absent, held) ↦ ground arith
  ]

  release-holder :
      (i : ℕ) (w : Network) (s : System b.State)
      → IsExclusive b s
      → (holder b (release b i w s) ≡ holder b s)
        ⊎ ((holder b s ≡ some i) × (holder b (release b i w s) ≡ none))
  unfolding release release_at
  release-holder i w s h = ground (arith, h i, b.remove-stored s.bucket)

  finalize-holder :
      (i : ℕ) (result : Text) (w : Network) (s : System b.State)
      → IsExclusive b s
      → holder b (finalize b i result w s) ≡ holder b s
  unfolding finalize finalize_at
  finalize-holder i result w s h =
      ground (arith, h i, b.put-stored (record { value = result; author = i }) s.bucket)

  read-holder :
      (is_owner : ℕ → Entry → Bool) (i : ℕ) (w : Network) (gone : Bool) (s : System b.State)
      → holder b (read_answers b is_owner i w gone s) ≡ holder b s
  unfolding read_answers read_at
  read-holder is_owner i w gone s = elim (entry-cases (b.stored s.bucket)) [
    | inl absent ↦ ground arith
    | inr (e, taken) ↦ ground arith
  ]

  begin-holder :
      (i : ℕ) (a : BucketAnswer) (s : System b.State) → holder b (begin b i a s) ≡ holder b s
  unfolding begin begin_at
  begin-holder i a s = ground arith

  leave-holder : (i : ℕ) (s : System b.State) → holder b (leave b i s) ≡ holder b s
  unfolding leave leave_at
  leave-holder i s = ground arith

  step-Move :
      (is_owner : ℕ → Entry → Bool) (e : Event) (s : System b.State)
      → IsExclusive b s
      → Move e (holder b s) (holder b (step b is_owner e s))
  unfolding step
  step-Move is_owner (Event.begins i a) s h = Move.keep (begin-holder i a s)
  step-Move is_owner (Event.creates i claim w) s h = elim (create-holder i claim w s) [
    | inl same ↦ Move.keep same
    | inr (was, is) ↦ Move.take i was is
  ]
  step-Move is_owner (Event.reads i w gone) s h = Move.keep (read-holder is_owner i w gone s)
  step-Move is_owner (Event.finalizes i result w) s h = Move.keep (finalize-holder i result w s h)
  step-Move is_owner (Event.releases i w) s h = elim (release-holder i w s h) [
    | inl same ↦ Move.keep same
    | inr (was, is) ↦ Move.free i was is
  ]
  step-Move is_owner (Event.leaves i) s h = Move.keep (leave-holder i s)

-- After any events, each further one leaves whose claim the entry is as it was, or is a create by
-- which a free command is taken by its caller, or a release by which it is freed by its holder,
-- where `isOwner` passes own claims only.
pub step-Move_reached :
    (b : Bucket) (is_owner : ℕ → Entry → Bool) (es : List Event) (e : Event)
    → OwnsOnly is_owner
    → Move e
        (holder b (run b is_owner es (start b)))
        (holder b (step b is_owner e (run b is_owner es (start b))))
step-Move_reached b is_owner es e own =
    step-Move b is_owner e (run b is_owner es (start b)) (reached-IsExclusive b is_owner es own)
