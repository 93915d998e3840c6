-- ===== src/Dedup.antt =====
-- packages/node/src/command-dedup.ts: callers that race to claim one command in a key-value bucket.
pub mod Exclusion
pub mod Claim
pub mod Rounds
mod Tests
use ironflow_js.Prelude.{
  ◌≡◌, ℕ, zero, suc, ◌+◌, Bool, true, false, not, ◌&&◌, ◌||◌, Option, none, some, List, [], ◌∷◌,
  ◌==◌, ltb, if◌then◌else◌,
}
use ironflow_js.Durable.Text.{Text}

abbrev pub claim_attempts : ℕ
claim_attempts = 3

-- What stands under the command's key: its text, and whose claim it is, which only the claim's
-- content can tell the callers.
pub record Entry : Type 0 where
  pub value : Text
  pub author : ℕ

-- A caller of tryClaim: outside of it, awaiting the answer to a create or to a get in some round,
-- or behind it. `settled` is behind finalize.
pub data Phase : Type 0 where
  outside : Phase
  creating : ℕ → Phase
  reading : ℕ → Phase
  won : Phase
  lost : Entry → Phase
  raced : Phase
  failed : Phase
  settled : Phase

-- How the bucket answers createBucket, and what a request meets on its way: nothing, an error
-- before the bucket is changed, or one behind the change.
pub data BucketAnswer : Type 0 where
  made : BucketAnswer
  conflict : BucketAnswer
  refused : BucketAnswer

pub data Network : Type 0 where
  sound : Network
  breaks_before : Network
  breaks_behind : Network

-- The key-value bucket, at the command's key: what a get shows, a create that answers whether it
-- made an entry or failed with 412, a put and a delete.
pub record Bucket : Type 1 where
  pub State : Type 0
  pub empty : State
  pub stored : State → Option Entry
  pub create : Entry → State → State × Bool
  pub put : Entry → State → State
  pub remove : State → State
  pub empty-stored : stored empty ≡ none
  pub create_taken : (e f : Entry) (s : State) → stored s ≡ some f → create e s ≡ (s, false)
  pub create_free :
      (e : Entry) (s : State)
      → stored s ≡ none
      → ((create e s).1 ≡ true) × (stored (create e s).0 ≡ some e)
  pub put-stored : (e : Entry) (s : State) → stored (put e s) ≡ some e
  pub remove-stored : (s : State) → stored (remove s) ≡ none

-- The bucket's state, and for each caller its phase and whether its object has the bucket ready.
pub record System (S : Type 0) : Type 0 where
  pub bucket : S
  pub phase : ℕ → Phase
  pub bucket_ready : ℕ → Bool

abbrev pub update {ℓ} : {A : Type ℓ} → (ℕ → A) → ℕ → A → ℕ → A
update f i a j = if j == i then a else f j

pub data Event : Type 0 where
  begins : ℕ → BucketAnswer → Event
  creates : ℕ → Text → Network → Event
  reads : ℕ → Network → Bool → Event
  finalizes : ℕ → Text → Network → Event
  releases : ℕ → Network → Event
  leaves : ℕ → Event

module _ (b : Bucket) where
  abbrev pub set_phase : ℕ → Phase → System b.State → System b.State
  set_phase i p s = record s { phase = update s.phase i p }

  -- `ensureBucket`: a conflict is as good as a new bucket, and an error leaves it unready.
  unfoldable pub bucket_made : BucketAnswer → Bool
  bucket_made BucketAnswer.made = true
  bucket_made BucketAnswer.conflict = true
  bucket_made BucketAnswer.refused = false

  unfoldable pub begin_at : Phase → ℕ → BucketAnswer → System b.State → System b.State
  unfolding bucket_made
  begin_at outside i a s =
      if s.bucket_ready i
      then set_phase i (creating 0) s
      else if bucket_made a
      then record s {
        phase = update s.phase i (creating 0);
        bucket_ready = update s.bucket_ready i true;
      }
      else set_phase i failed s
  begin_at _ i a s = s

  unfoldable pub begin : ℕ → BucketAnswer → System b.State → System b.State
  unfolding begin_at
  begin i a s = begin_at (s.phase i) i a s

  -- `bucket.create`, which fails with 412 where there is an entry.
  unfoldable pub create_at : Phase → ℕ → Text → Network → System b.State → System b.State
  create_at (creating n) i claim breaks_before s = set_phase i failed s
  create_at (creating n) i claim sound s =
      let made = b.create (record { value = claim; author = i }) s.bucket in
      if made.1
      then record s { bucket = made.0; phase = update s.phase i won }
      else record s { bucket = made.0; phase = update s.phase i (reading n) }
  create_at (creating n) i claim breaks_behind s = record s {
    bucket = (b.create (record { value = claim; author = i }) s.bucket).0;
    phase = update s.phase i failed;
  }
  create_at _ i claim w s = s

  unfoldable pub create_answers : ℕ → Text → Network → System b.State → System b.State
  unfolding create_at
  create_answers i claim w s = create_at (s.phase i) i claim w s

  -- `continue`: the next round, or the error behind the last one.
  unfoldable pub next_round : ℕ → Phase
  next_round n = if ltb (n + 1) claim_attempts then creating (n + 1) else raced

  -- The read-back; `gone` is an entry without a value. `is_owner` is the caller's own test.
  unfoldable pub read_at :
      (ℕ → Entry → Bool) → Phase → ℕ → Network → Bool → System b.State → System b.State
  unfolding next_round
  read_at is_owner (reading n) i sound gone s = elim (b.stored s.bucket) [
    | none ↦ set_phase i (next_round n) s
    | some e ↦
        if gone
        then set_phase i (next_round n) s
        else if is_owner i e
        then set_phase i won s
        else set_phase i (lost e) s
  ]
  read_at is_owner (reading n) i w gone s = set_phase i failed s
  read_at is_owner _ i w gone s = s

  unfoldable pub read_answers :
      (ℕ → Entry → Bool) → ℕ → Network → Bool → System b.State → System b.State
  unfolding read_at
  read_answers is_owner i w gone s = read_at is_owner (s.phase i) i w gone s

  -- `finalize`, by a caller that has won.
  unfoldable pub finalize_at : Phase → ℕ → Text → Network → System b.State → System b.State
  finalize_at won i result sound s = record s {
    bucket = b.put (record { value = result; author = i }) s.bucket;
    phase = update s.phase i settled;
  }
  finalize_at won i result breaks_behind s = record s {
    bucket = b.put (record { value = result; author = i }) s.bucket;
  }
  finalize_at _ i result w s = s

  unfoldable pub finalize : ℕ → Text → Network → System b.State → System b.State
  unfolding finalize_at
  finalize i result w s = finalize_at (s.phase i) i result w s

  -- `release`, by a caller that has won and has not finalized; a missing entry is no error.
  unfoldable pub release_at : Phase → ℕ → Network → System b.State → System b.State
  release_at won i sound s = record s {
    bucket = b.remove s.bucket;
    phase = update s.phase i outside;
  }
  release_at won i breaks_behind s = record s {
    bucket = b.remove s.bucket;
    phase = update s.phase i failed;
  }
  release_at _ i w s = s

  unfoldable pub release : ℕ → Network → System b.State → System b.State
  unfolding release_at
  release i w s = release_at (s.phase i) i w s

  -- A caller that is behind its tryClaim may call it again.
  unfoldable pub leave_at : Phase → ℕ → System b.State → System b.State
  leave_at failed i s = set_phase i outside s
  leave_at raced i s = set_phase i outside s
  leave_at (lost e) i s = set_phase i outside s
  leave_at settled i s = set_phase i outside s
  leave_at _ i s = s

  unfoldable pub leave : ℕ → System b.State → System b.State
  unfolding leave_at
  leave i s = leave_at (s.phase i) i s

  unfoldable pub step : (ℕ → Entry → Bool) → Event → System b.State → System b.State
  unfolding begin create_answers read_answers finalize release leave
  step is_owner (begins i a) s = begin i a s
  step is_owner (creates i claim w) s = create_answers i claim w s
  step is_owner (reads i w gone) s = read_answers is_owner i w gone s
  step is_owner (finalizes i result w) s = finalize i result w s
  step is_owner (releases i w) s = release i w s
  step is_owner (leaves i) s = leave i s

  unfoldable pub run : (ℕ → Entry → Bool) → List Event → System b.State → System b.State
  unfolding step
  run is_owner [] s = s
  run is_owner (e ∷ es) s = run is_owner es (step is_owner e s)

  abbrev pub start : System b.State
  start = record { bucket = b.empty; phase = λ i. outside; bucket_ready = λ i. false }
