-- ===== src/Dedup/Exclusion.antt =====
-- A command has one winner at a time (packages/node/src/command-dedup.ts).
use ironflow_js.Prelude.{
  ℕ, ◌≡◌, refl, Bool, true, false, Option, none, some, List, [], ◌∷◌, arith, ◌⊎◌, inl, inr,
}
use ironflow_js.Durable.Text.{Text}
use ironflow_js.Dedup.{
  Entry, Bucket, won, BucketAnswer, Network, System, begin, begin_at, create_answers, create_at,
  read_answers, read_at, finalize, finalize_at, release, release_at, leave, leave_at, Event, step,
  run, start,
}

-- A test that passes only entries of the caller's own.
abbrev pub OwnsOnly : (ℕ → Entry → Bool) → Type 0
OwnsOnly is_owner = (i : ℕ) (e : Entry) → is_owner i e ≡ true → e.author ≡ i

abbrev pub author_of : Option Entry → Option ℕ
author_of none = none
author_of (some e) = some e.author

pub entry-cases : (o : Option Entry) → (o ≡ none) ⊎ ((e : Entry) × (o ≡ some e))
entry-cases none = inl refl
entry-cases (some e) = inr (e, refl)

module _ (b : Bucket) where
  -- Whose claim the entry is.
  abbrev pub holder : System b.State → Option ℕ
  holder s = author_of (b.stored s.bucket)

  -- A caller that has won holds the claim.
  abbrev pub IsExclusive : System b.State → Type 0
  IsExclusive s = (i : ℕ) → s.phase i ≡ won → holder s ≡ some i

  pub create-answer :
      (i : ℕ) (claim : Text) (s : b.State)
      → ((b.create (record { value = claim; author = i }) s).1 ≡ false)
          × ((b.create (record { value = claim; author = i }) s).0 ≡ s)
        ⊎ ((b.create (record { value = claim; author = i }) s).1 ≡ true)
          × (b.stored s ≡ none)
          × (b.stored (b.create (record { value = claim; author = i }) s).0
              ≡ some (record { value = claim; author = i }))
  create-answer i claim s = elim (entry-cases (b.stored s)) [
    | inl absent ↦
        let made = b.create_free (record { value = claim; author = i }) s absent in
        inr (made.0, absent, made.1)
    | inr (f, taken) ↦
        let same = b.create_taken (record { value = claim; author = i }) f s taken in
        inl (λ i. (same i).1, λ i. (same i).0)
  ]

  create-IsExclusive :
      (i : ℕ) (claim : Text) (w : Network) (s : System b.State)
      → IsExclusive s
      → IsExclusive (create_answers b i claim w s)
  unfolding create_answers create_at
  create-IsExclusive i claim w s h j = elim (create-answer i claim s.bucket) [
    | inl (refused, same) ↦ ground (arith, h j)
    | inr (made, absent, held) ↦ ground (arith, h j)
  ]

  finalize-IsExclusive :
      (i : ℕ) (result : Text) (w : Network) (s : System b.State)
      → IsExclusive s
      → IsExclusive (finalize b i result w s)
  unfolding finalize finalize_at
  finalize-IsExclusive i result w s h j =
      ground (arith, h j, h i, b.put-stored (record { value = result; author = i }) s.bucket)

  release-IsExclusive :
      (i : ℕ) (w : Network) (s : System b.State) → IsExclusive s → IsExclusive (release b i w s)
  unfolding release release_at
  release-IsExclusive i w s h j = ground (arith, h j, h i, b.remove-stored s.bucket)

  begin-IsExclusive :
      (i : ℕ) (a : BucketAnswer) (s : System b.State) → IsExclusive s → IsExclusive (begin b i a s)
  unfolding begin begin_at
  begin-IsExclusive i a s h j = ground (arith, h j)

  read-IsExclusive :
      (is_owner : ℕ → Entry → Bool) (i : ℕ) (w : Network) (gone : Bool) (s : System b.State)
      → OwnsOnly is_owner
      → IsExclusive s
      → IsExclusive (read_answers b is_owner i w gone s)
  unfolding read_answers read_at
  read-IsExclusive is_owner i w gone s own h j = elim (entry-cases (b.stored s.bucket)) [
    | inl absent ↦ ground (arith, h j)
    | inr (e, taken) ↦ ground (arith, h j, own i e)
  ]

  leave-IsExclusive : (i : ℕ) (s : System b.State) → IsExclusive s → IsExclusive (leave b i s)
  unfolding leave leave_at
  leave-IsExclusive i s h j = ground (arith, h j)

  module _ (is_owner : ℕ → Entry → Bool) (own : OwnsOnly is_owner) where
    step-IsExclusive :
        (e : Event) (s : System b.State) → IsExclusive s → IsExclusive (step b is_owner e s)
    unfolding step
    step-IsExclusive (Event.begins i a) s h = begin-IsExclusive i a s h
    step-IsExclusive (Event.creates i claim w) s h = create-IsExclusive i claim w s h
    step-IsExclusive (Event.reads i w gone) s h = read-IsExclusive is_owner i w gone s own h
    step-IsExclusive (Event.finalizes i result w) s h = finalize-IsExclusive i result w s h
    step-IsExclusive (Event.releases i w) s h = release-IsExclusive i w s h
    step-IsExclusive (Event.leaves i) s h = leave-IsExclusive i s h

    run-IsExclusive :
        (es : List Event) (s : System b.State) → IsExclusive s → IsExclusive (run b is_owner es s)
    unfolding run
    run-IsExclusive [] s h = h
    run-IsExclusive (e ∷ es) s h = run-IsExclusive es (step b is_owner e s) (step-IsExclusive e s h)

  start-IsExclusive : IsExclusive (start b)
  start-IsExclusive i e = cc

  pub reached-IsExclusive :
      (is_owner : ℕ → Entry → Bool) (es : List Event)
      → OwnsOnly is_owner
      → IsExclusive (run b is_owner es (start b))
  reached-IsExclusive is_owner es own = run-IsExclusive is_owner own es (start b) start-IsExclusive

-- Whatever the callers do and whichever requests break, two callers that have both won the command
-- and neither finalized nor released it are one, where `isOwner` passes own claims only.
pub one_winner :
    (b : Bucket) (is_owner : ℕ → Entry → Bool) (es : List Event) (i j : ℕ)
    → OwnsOnly is_owner
    → (run b is_owner es (start b)).phase i ≡ won
    → (run b is_owner es (start b)).phase j ≡ won
    → i ≡ j
one_winner b is_owner es i j own first second =
    let held = reached-IsExclusive b is_owner es own in cc (held i first, held j second)
