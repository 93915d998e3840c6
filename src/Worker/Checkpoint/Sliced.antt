-- ===== src/Worker/Checkpoint/Sliced.antt =====
-- What checkpoints cut off the steps of a job (packages/node/src/worker.ts).
use mathlib.Core.List.{append_assoc, append-nil}
use ironflow_js.Prelude.{
  ℕ, zero, suc, ◌+◌, ◌≤◌, ◌≡◌, refl, sym, ap, ◌∙◌, Bool, true, Option, none, some, List, [], ◌∷◌,
  ◌++◌, take, length, length-append, All, AllSome, if_split, arith,
}
use ironflow_js.Worker.Checkpoint.{drop, encodable_steps, max_checkpoint_steps}

abbrev pub reported_steps : {S : Type 0} → List (ℕ × List S) → List S
reported_steps [] = []
reported_steps ((offset, p) ∷ l) = p ++ reported_steps l

-- Each slice stands under the number of its first step.
abbrev pub NumberedFrom : {S : Type 0} → ℕ → List (ℕ × List S) → Type 0
NumberedFrom n [] = Unit
NumberedFrom n ((offset, p) ∷ l) = (offset ≡ n) × NumberedFrom (n + length p) l

-- A checkpoint that the server accepts: no more steps than it takes, each of which JSON can encode.
abbrev pub IsSendable : {S : Type 0} → (S → Bool) → List S → Type 0
IsSendable encodable p = (length p ≤ max_checkpoint_steps) × All (λ s. encodable s ≡ true) p

pub AllSome-map :
    {A : Type 0} (P Q : A → Type 0)
    → ((a : A) → P a → Q a)
    → (o : Option A) → AllSome P o
    → AllSome Q o
AllSome-map P Q f none h = tt
AllSome-map P Q f (some a) h = f a h

module _ {S : Type 0} where
  pub drop-length : (a r : List S) → drop (length a) (a ++ r) ≡ r
  drop-length [] r = refl
  drop-length (s ∷ a) r = drop-length a r

  pub reported_steps-append :
      (l : List (ℕ × List S)) (n : ℕ) (p : List S)
      → reported_steps (l ++ (n, p) ∷ []) ≡ reported_steps l ++ p
  reported_steps-append [] n p = append-nil p
  reported_steps-append ((m, q) ∷ l) n p =
      ap (λ (r : List S). q ++ r) (reported_steps-append l n p)
      ∙ sym (append_assoc q (reported_steps l) p)

  pub NumberedFrom-append :
      (m : ℕ) (l : List (ℕ × List S)) (n : ℕ) (p : List S)
      → NumberedFrom m l
      → n ≡ m + length (reported_steps l)
      → NumberedFrom m (l ++ (n, p) ∷ [])
  NumberedFrom-append m [] n p h e = (omega (arith, e), tt)
  NumberedFrom-append m ((o, q) ∷ l) n p h e = (
    h.0,
    NumberedFrom-append (m + length q) l n p h.1
        (omega (arith, e, length-append q (reported_steps l))),
  )

  take_front : (n : ℕ) (l : List S) → (more : List S) × (l ≡ take n l ++ more)
  take_front zero l = (l, refl)
  take_front (suc n) [] = ([], refl)
  take_front (suc n) (s ∷ l) = let t = take_front n l in (t.0, ap (λ (r : List S). s ∷ r) t.1)

  length-take-le : (n : ℕ) (l : List S) → length (take n l) ≤ n
  length-take-le zero l = omega arith
  length-take-le (suc n) [] = omega arith
  length-take-le (suc n) (s ∷ l) = omega (arith, length-take-le n l)

  encodable_front :
      (f : S → Bool) (l : List S)
      → (more : List S) × (l ≡ encodable_steps f l ++ more)
        × All (λ s. f s ≡ true) (encodable_steps f l)
  unfolding encodable_steps
  encodable_front f [] = ([], refl, tt)
  encodable_front f (s ∷ l) =
      let t = encodable_front f l in
      if_split
        (λ (r : List S).
          (more : List S) × (◌≡◌ {A = List S} (s ∷ l) (r ++ more)) × All (λ q. f q ≡ true) r)
        (f s) (s ∷ encodable_steps f l) [] (λ e. (t.0, ap (λ (r : List S). s ∷ r) t.1, (e, t.2)))
        (λ e. (s ∷ l, refl, tt))

  -- What a checkpoint takes stands in front of what is left.
  pub pending_front :
      (f : S → Bool) (l : List S)
      → let p = encodable_steps f (take max_checkpoint_steps l) in
        (more : List S) × (l ≡ p ++ more) × IsSendable f p
  pending_front f l =
      let t = take_front max_checkpoint_steps l in
      let e = encodable_front f (take max_checkpoint_steps l) in
      let p = encodable_steps f (take max_checkpoint_steps l) in
      let fits : length p ≤ max_checkpoint_steps = omega (
        arith,
        length-append p e.0,
        ap (λ (r : List S). length r) e.1,
        length-take-le max_checkpoint_steps l,
      ) in
      (e.0 ++ t.0, t.1 ∙ ap (λ (r : List S). r ++ t.0) e.1 ∙ append_assoc p e.0 t.0, (fits, e.2))
