-- ===== src/Durable/Parallel/Slots.antt =====
-- The slots of the branches of executeParallel, and what their join answers
-- (packages/node/src/step.ts).
use ironflow_js.Prelude.{
  ℕ, zero, suc, ◌+◌, ◌<◌, ◌≤◌, ◌≡◌, refl, Bool, true, false, not, ◌&&◌, ◌||◌, Option, none, some,
  List, [], ◌∷◌, any, arith, if_split, Option-split,
}
use ironflow_js.Durable.Parallel.{
  OnError, Answer, Ending, put, is_fast, is_swallowed, first_signal, first_error, joined,
  slots_from, cancels,
}

abbrev pub is_signal : Option Ending → Bool
is_signal (some (Ending.signal info)) = true
is_signal _ = false

abbrev pub is_error : Option Ending → Bool
is_error (some (Ending.error r)) = true
is_error _ = false

abbrev pub is_bad : Option Ending → Bool
is_bad e = is_swallowed e || (is_signal e || is_error e)

abbrev pub has : Option Ending → Bool
has none = false
has (some e) = true

-- A result, or an error where executeParallel is to settle all.
abbrev pub is_allowed : OnError → Option Ending → Bool
is_allowed o none = false
is_allowed o (some (Ending.value p)) = true
is_allowed o (some (Ending.error r)) = not (is_fast o)
is_allowed o (some Ending.swallowed) = false
is_allowed o (some (Ending.signal info)) = false

pub has-allowed :
    (o : OnError) (e : Option Ending)
    → has e ≡ true
    → is_swallowed e ≡ false
    → is_signal e ≡ false
    → (is_fast o && is_error e) ≡ false
    → is_allowed o e ≡ true
has-allowed o none h sw sg er = cc
has-allowed o (some (Ending.value p)) h sw sg er = refl
has-allowed o (some (Ending.error r)) h sw sg er = ground arith
has-allowed o (some Ending.swallowed) h sw sg er = cc
has-allowed o (some (Ending.signal info)) h sw sg er = cc

pub cancels-bad :
    (o : OnError) (e : Ending) → cancels o e ≡ true → is_fast o ≡ true → is_bad (some e) ≡ true
unfolding cancels
cancels-bad o (Ending.value p) h f = cc
cancels-bad o (Ending.error r) h f = refl
cancels-bad o Ending.swallowed h f = refl
cancels-bad o (Ending.signal info) h f = refl

pub any-put_hit :
    (i j k : ℕ) (f : ℕ → Option Ending) (e : Option Ending)
    → is_bad e ≡ true
    → j ≤ i
    → i < j + k
    → any is_bad (slots_from j k (put f i e)) ≡ true
unfolding slots_from
any-put_hit i j zero f e b low high = ground arith
any-put_hit i j (suc k) f e b low high = ground (arith, any-put_hit i (j + 1) k f e b)

pub any-put_keep :
    (i j k : ℕ) (f : ℕ → Option Ending) (e : Option Ending)
    → is_bad (f i) ≡ false
    → any is_bad (slots_from j k f) ≡ true
    → any is_bad (slots_from j k (put f i e)) ≡ true
unfolding slots_from
any-put_keep i j zero f e b h = h
any-put_keep i j (suc k) f e b h = grind (arith, any-put_keep i (j + 1) k f e b)

pub slots_from-at :
    (p : Option Ending → Bool) (i j k : ℕ) (f : ℕ → Option Ending)
    → any p (slots_from j k f) ≡ false
    → j ≤ i
    → i < j + k
    → p (f i) ≡ false
unfolding slots_from
slots_from-at p i j zero f h low high = ground arith
slots_from-at p i j (suc k) f h low high = grind (arith, slots_from-at p i (j + 1) k f)

any_signal : (l : List (Option Ending)) → first_signal l ≡ none → any is_signal l ≡ false
unfolding first_signal
any_signal [] h = refl
any_signal (some (Ending.signal info) ∷ l) h = cc
any_signal (some (Ending.value p) ∷ l) h = any_signal l h
any_signal (some (Ending.error r) ∷ l) h = any_signal l h
any_signal (some Ending.swallowed ∷ l) h = any_signal l h
any_signal (none ∷ l) h = any_signal l h

any_error : (l : List (Option Ending)) → first_error l ≡ none → any is_error l ≡ false
unfolding first_error
any_error [] h = refl
any_error (some (Ending.error r) ∷ l) h = cc
any_error (some (Ending.value p) ∷ l) h = any_error l h
any_error (some (Ending.signal info) ∷ l) h = any_error l h
any_error (some Ending.swallowed ∷ l) h = any_error l h
any_error (none ∷ l) h = any_error l h

pub any_bad :
    (l : List (Option Ending))
    → any is_swallowed l ≡ false
    → any is_signal l ≡ false
    → any is_error l ≡ false
    → any is_bad l ≡ false
any_bad [] a b c = refl
any_bad (e ∷ l) a b c = ground (arith, any_bad l)

-- What a join that answers results has seen.
pub record Seen (o : OnError) (l vs : List (Option Ending)) : Type 0 where
  pub same : l ≡ vs
  pub unswallowed : any is_swallowed l ≡ false
  pub unsignalled : any is_signal l ≡ false
  pub no_error : (is_fast o && any is_error l) ≡ false

pub joined-Seen :
    (o : OnError) (l vs : List (Option Ending)) → joined o l ≡ Answer.values vs → Seen o l vs
unfolding joined
joined-Seen o l vs =
    if_split (λ (a : Answer). a ≡ Answer.values vs → Seen o l vs) (any is_swallowed l) _ _
      (λ _ e. cc)
      (λ sw.
        Option-split (λ (a : Answer). a ≡ Answer.values vs → Seen o l vs) (first_signal l) _ _
          (λ sg.
            if_split (λ (a : Answer). a ≡ Answer.values vs → Seen o l vs) (is_fast o) _ _
              (λ fast.
                Option-split (λ (a : Answer). a ≡ Answer.values vs → Seen o l vs) (first_error l) _
                  _
                  (λ er e. record {
                    same = cc;
                    unswallowed = sw;
                    unsignalled = any_signal l sg;
                    no_error = ground (arith, any_error l er);
                  })
                  (λ r er e. cc))
              (λ slow e. record {
                same = cc;
                unswallowed = sw;
                unsignalled = any_signal l sg;
                no_error = ground arith;
              }))
          (λ info sg e. cc))
