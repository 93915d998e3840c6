-- ===== src/Projection/Batch/Partitions.antt =====
-- The events of one partition, and what a list of saves has stored
-- (packages/node/src/projection-runner.ts).
use ironflow_js.Prelude.{
  ℕ, ◌≡◌, refl, ◌∙◌, Bool, true, ◌||◌, Option, none, some, List, [], ◌∷◌, ◌++◌, All, arith,
  if◌then◌else◌, filter, any, of_false_eq_true,
}
use ironflow_js.Durable.Text.{Text, text_eq, text_eq_iff}
use ironflow_js.Projection.Batch.{PollEvent, Run, Save, partition_of, last_event, save_of}
use ironflow_js.Projection.Batch.Runs.{InPartition}

abbrev pub of_partition : {B : Type 0} → Text → List (PollEvent B) → List (PollEvent B)
of_partition pk es = filter (λ e. text_eq pk (partition_of e)) es

-- The state that the last save of a partition has stored.
abbrev pub last_saved : {S : Type 0} → Text → List (Save S) → Option S
last_saved pk [] = none
last_saved pk (s ∷ l) = elim (last_saved pk l) [
  | some t ↦ some t
  | none ↦ if text_eq s.pk pk then some s.state else none
]

-- The cursor: the seq of the last save.
abbrev pub cursor : {S : Type 0} → List (Save S) → Option ℕ
cursor [] = none
cursor (s ∷ []) = some s.last_event_seq
cursor (s ∷ t ∷ l) = cursor (t ∷ l)

abbrev pub last_seq : {B : Type 0} → List (PollEvent B) → Option ℕ
last_seq [] = none
last_seq (e ∷ []) = some e.seq
last_seq (e ∷ f ∷ es) = last_seq (f ∷ es)

module _ {B : Type 0} where
  pub of_partition-append :
      (pk : Text) (a b : List (PollEvent B))
      → of_partition pk (a ++ b) ≡ of_partition pk a ++ of_partition pk b
  of_partition-append pk [] b = refl
  of_partition-append pk (e ∷ a) b = ground (arith, of_partition-append pk a b)

  pub of_partition_run :
      (pk q : Text) (es : List (PollEvent B))
      → All (InPartition q) es
      → of_partition pk es ≡ (if text_eq q pk then es else [])
  of_partition_run pk q [] h = ground arith
  of_partition_run pk q (e ∷ es) h = ground (
    arith,
    text_eq_iff q (partition_of e),
    text_eq_iff pk (partition_of e),
    text_eq_iff q pk,
    of_partition_run pk q es h.1,
  )

  pub any-append :
      (f : PollEvent B → Bool) (a b : List (PollEvent B)) → any f (a ++ b) ≡ (any f a || any f b)
  any-append f [] b = refl
  any-append f (e ∷ a) b = ground (arith, any-append f a b)

  pub any_run :
      (pk q : Text) (es : List (PollEvent B))
      → any (λ e. true) es ≡ true
      → All (InPartition q) es
      → any (λ e. text_eq pk (partition_of e)) es ≡ text_eq q pk
  any_run pk q [] h k = cc
  any_run pk q (e ∷ []) h k =
      ground
        (arith, text_eq_iff q (partition_of e), text_eq_iff pk (partition_of e), text_eq_iff q pk)
  any_run pk q (e ∷ f ∷ es) h k = ground (
    arith,
    text_eq_iff q (partition_of e),
    text_eq_iff pk (partition_of e),
    text_eq_iff q pk,
    any_run pk q (f ∷ es) refl k.1,
  )

  last_seq-append :
      (a : List (PollEvent B)) (e : PollEvent B) (b : List (PollEvent B))
      → last_seq (a ++ e ∷ b) ≡ last_seq (e ∷ b)
  last_seq-append [] e b = refl
  last_seq-append (f ∷ []) e b = refl
  last_seq-append (f ∷ g ∷ a) e b = last_seq-append (g ∷ a) e b

last_event-last_seq :
    {B : Type 0} (done es : List (PollEvent B)) (e : PollEvent B)
    → last_event es ≡ some e
    → last_seq (done ++ es) ≡ some e.seq
unfolding last_event
last_event-last_seq done [] e h = cc
last_event-last_seq done (f ∷ []) e h = ground (arith, last_seq-append done f [])
last_event-last_seq done (f ∷ g ∷ es) e h =
    last_seq-append done f (g ∷ es) ∙ last_event-last_seq [] (g ∷ es) e h

last_event-some :
    {B : Type 0} (es : List (PollEvent B))
    → any (λ e. true) es ≡ true
    → (e : PollEvent B) × (last_event es ≡ some e)
unfolding last_event
last_event-some [] h = of_false_eq_true h
last_event-some (e ∷ []) h = (e, refl)
last_event-some (e ∷ f ∷ es) h = last_event-some (f ∷ es) refl

-- What a save of a run sends.
pub save_of_run :
    {S B : Type 0} (r : Run B) (s : S) (done : List (PollEvent B))
    → any (λ e. true) r.events ≡ true
    → ((save_of r s).pk ≡ r.pk)
      × ((save_of r s).state ≡ s)
      × (some (save_of r s).last_event_seq ≡ last_seq (done ++ r.events))
unfolding save_of
save_of_run r s done h =
    let last = last_event-some r.events h in
    let seq = last_event-last_seq done r.events last.0 last.1 in ground (arith, last.1)

pub last_saved-append :
    {S : Type 0} (pk : Text) (a : List (Save S)) (s : Save S)
    → last_saved pk (a ++ s ∷ []) ≡ (if text_eq s.pk pk then some s.state else last_saved pk a)
last_saved-append pk [] s = refl
last_saved-append pk (t ∷ a) s = ground (arith, last_saved-append pk a s)

pub cursor-append :
    {S : Type 0} (a : List (Save S)) (s : Save S) → cursor (a ++ s ∷ []) ≡ some s.last_event_seq
cursor-append [] s = refl
cursor-append (t ∷ []) s = refl
cursor-append (t ∷ u ∷ a) s = cursor-append (u ∷ a) s
