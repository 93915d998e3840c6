-- ===== src/Dedup/Tests.antt =====
-- packages/node/src/command-dedup.ts at work: a bucket that holds at most one entry.
use ironflow_js.Prelude.{
  ℕ, ◌≡◌, refl, Bool, true, false, Option, none, some, List, [], ◌∷◌, ◌==◌, ◌<◌, arith,
}
use ironflow_js.Durable.Text.{codes}
use ironflow_js.Dedup.{
  Entry, Bucket, won, BucketAnswer, Network, System, Event, step, run, start, read_answers,
  create_answers,
}
use ironflow_js.Dedup.Exclusion.{OwnsOnly, one_winner, holder}
use ironflow_js.Dedup.Claim.{Move, step-Move_reached}
use ironflow_js.Dedup.Rounds.{InRange, remaining, claim_settles}

unfoldable cell_create : Entry → Option Entry → Option Entry × Bool
cell_create e none = (some e, true)
cell_create e (some f) = (some f, false)

cell_create_taken : (e f : Entry) (s : Option Entry) → s ≡ some f → cell_create e s ≡ (s, false)
unfolding cell_create
cell_create_taken e f none h = cc
cell_create_taken e f (some g) h = refl

cell_create_free :
    (e : Entry) (s : Option Entry)
    → s ≡ none
    → ((cell_create e s).1 ≡ true) × ((cell_create e s).0 ≡ some e)
unfolding cell_create
cell_create_free e none h = (refl, refl)
cell_create_free e (some g) h = cc

abbrev cell : Bucket
cell = record {
  State = Option Entry;
  empty = none;
  stored = λ s. s;
  create = cell_create;
  put = λ e s. some e;
  remove = λ s. none;
  empty-stored = refl;
  create_taken = cell_create_taken;
  create_free = cell_create_free;
  put-stored = λ e s. refl;
  remove-stored = λ s. refl;
}

-- Each caller's own entry, by its author.
abbrev authors : ℕ → Entry → Bool
authors i e = e.author == i

authors-OwnsOnly : OwnsOnly authors
authors-OwnsOnly i e h = ground arith

-- Caller 1 creates and its answer is lost; it tries again and finds its own entry.
abbrev recovered : List Event
recovered =
    Event.begins 1 BucketAnswer.made
    ∷ Event.creates 1 (codes "a") Network.breaks_behind
    ∷ Event.leaves 1
    ∷ Event.begins 1 BucketAnswer.refused
    ∷ Event.creates 1 (codes "a") Network.sound
    ∷ Event.reads 1 Network.sound false
    ∷ []

recovered_phase : (run cell authors recovered (start cell)).phase 1 ≡ won
unfolding run cell_create
recovered_phase = refl

one_winner_example : ◌≡◌ {A = ℕ} 1 1
one_winner_example =
    one_winner cell authors recovered 1 1 authors-OwnsOnly recovered_phase recovered_phase

step-Move_reached_example :
    Move (Event.releases 1 Network.sound) (holder cell (run cell authors recovered (start cell))) (
      holder cell (
        step cell authors
          (Event.releases 1 Network.sound)
          (run cell authors recovered (start cell))))
step-Move_reached_example =
    step-Move_reached cell authors recovered (Event.releases 1 Network.sound) authors-OwnsOnly

abbrev begun : System cell.State
begun = run cell authors (Event.begins 0 BucketAnswer.made ∷ []) (start cell)

begun_waits : 0 < remaining (begun.phase 0)
unfolding run
begun_waits = omega arith

claim_settles_example :
    InRange (begun.phase 0)
    × (remaining (
          (read_answers cell authors 0 Network.sound true
              (create_answers cell 0 (codes "a") Network.sound begun)).phase
            0)
        < remaining (begun.phase 0))
claim_settles_example =
    claim_settles cell authors (Event.begins 0 BucketAnswer.made ∷ []) 0 (codes "a") Network.sound
      Network.sound true begun_waits
