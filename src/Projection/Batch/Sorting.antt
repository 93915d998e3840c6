-- ===== src/Projection/Batch/Sorting.antt =====
-- The order of a batch (packages/node/src/projection-runner.ts): the sort rearranges the events and
-- leaves their seqs ascending.
use ironflow_js.Prelude.{ℕ, ◌≤◌, List, [], ◌∷◌, ◌++◌, All, arith, ltb, if_split}
use mathlib.Core.List.{Perm, perm_middle, append-nil}
use mathlib.Core.List.Perm
use ironflow_js.Projection.Batch.{PollEvent, insert_event, sort_into, sort_events}

module _ {B : Type 0} where
  -- Each event's seq is at most those of the events behind it.
  abbrev pub IsAscending : List (PollEvent B) → Type 0
  IsAscending [] = Unit
  IsAscending (e ∷ es) = All (λ (f : PollEvent B). e.seq ≤ f.seq) es × IsAscending es

  insert_event-All :
      (n : ℕ) (e : PollEvent B) (l : List (PollEvent B))
      → n ≤ e.seq
      → All (λ (f : PollEvent B). n ≤ f.seq) l
      → All (λ (f : PollEvent B). n ≤ f.seq) (insert_event e l)
  unfolding insert_event
  insert_event-All n e [] h k = (h, tt)
  insert_event-All n e (f ∷ l) h k =
      if_split (All (λ (g : PollEvent B). n ≤ g.seq)) (ltb e.seq f.seq) (e ∷ f ∷ l) _ (λ _. (h, k))
        (λ _. (k.0, insert_event-All n e l h k.1))

  All-le :
      (m n : ℕ) (l : List (PollEvent B))
      → m ≤ n
      → All (λ (f : PollEvent B). n ≤ f.seq) l
      → All (λ (f : PollEvent B). m ≤ f.seq) l
  All-le m n [] h k = tt
  All-le m n (f ∷ l) h k = (omega arith, All-le m n l h k.1)

  insert_event-IsAscending :
      (e : PollEvent B) (l : List (PollEvent B)) → IsAscending l → IsAscending (insert_event e l)
  unfolding insert_event
  insert_event-IsAscending e [] h = (tt, tt)
  insert_event-IsAscending e (f ∷ l) h =
      if_split IsAscending (ltb e.seq f.seq) (e ∷ f ∷ l) _
        (λ less.
          let below : e.seq ≤ f.seq = ground arith in ((below, All-le e.seq f.seq l below h.0), h))
        (λ more. (insert_event-All f.seq e l (ground arith) h.0, insert_event-IsAscending e l h.1))

  insert_event-perm : (e : PollEvent B) (l : List (PollEvent B)) → Perm (insert_event e l) (e ∷ l)
  unfolding insert_event
  insert_event-perm e [] = Perm.rfl
  insert_event-perm e (f ∷ l) =
      if_split (λ (m : List (PollEvent B)). Perm m (e ∷ f ∷ l)) (ltb e.seq f.seq) _ _
        (λ _. Perm.rfl) (λ _. Perm.trans (Perm.cons f (insert_event-perm e l)) (Perm.swap e f l))

  sort_into-IsAscending :
      (out es : List (PollEvent B)) → IsAscending out → IsAscending (sort_into out es)
  unfolding sort_into
  sort_into-IsAscending out [] h = h
  sort_into-IsAscending out (e ∷ es) h =
      sort_into-IsAscending (insert_event e out) es (insert_event-IsAscending e out h)

  sort_into-perm : (out es : List (PollEvent B)) → Perm (sort_into out es) (es ++ out)
  unfolding sort_into
  sort_into-perm out [] = Perm.rfl
  sort_into-perm out (e ∷ es) =
      Perm.trans (sort_into-perm (insert_event e out) es)
        (Perm.trans (Perm.append_left es (insert_event-perm e out)) (perm_middle es out))

  -- The events of a batch are rearranged, their seqs ascending.
  pub sort_events-IsAscending :
      (es : List (PollEvent B)) → IsAscending (sort_events es) × Perm (sort_events es) es
  unfolding sort_events
  sort_events-IsAscending es =
      (sort_into-IsAscending [] es tt, rw append-nil at (sort_into-perm [] es))
