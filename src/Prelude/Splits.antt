-- ===== src/Prelude/Splits.antt =====
-- Case splits as rules: a predicate holds of a branching term if it holds of each branch under what
-- leads there.
use mathlib.Core.Path.{◌≡◌, refl, subst}
use mathlib.Core.Bool.{Bool, true, false}
use mathlib.Core.Option.{Option, none, some}
use ironflow_js.Prelude.Tests.{if◌then◌else◌}

pub if_split {ℓ κ} :
    {A : Type ℓ} (P : A → Type κ) (b : Bool) (x y : A)
    → (b ≡ true → P x)
    → (b ≡ false → P y)
    → P (if b then x else y)
if_split P true x y f g = f refl
if_split P false x y f g = g refl

-- A case of `elim` on a truth value.
pub Bool-split {ℓ κ} :
    {A : Type ℓ} (P : A → Type κ) (b : Bool) (x y : A)
    → (b ≡ true → P x)
    → (b ≡ false → P y)
    → P (elim b [ true ↦ x | false ↦ y ])
Bool-split P true x y f g = f refl
Bool-split P false x y f g = g refl

pub Option-split {ℓ κ μ} :
    {A : Type ℓ} {B : Type κ} (P : B → Type μ) (o : Option A) (n : B) (f : A → B)
    → (o ≡ none → P n)
    → ((a : A) → o ≡ some a → P (f a))
    → P (elim o [ none ↦ n | some a ↦ f a ])
Option-split P none n f hn hf = hn refl
Option-split P (some a) n f hn hf = hf a refl

-- A predicate on the value of an Option, if there is one.
abbrev pub AllSome {ℓ κ} : {A : Type ℓ} → (A → Type κ) → Option A → Type κ
AllSome P none = Unit
AllSome P (some a) = P a

pub AllSome-at {ℓ κ} :
    {A : Type ℓ} (P : A → Type κ) (o : Option A) (a : A) → AllSome P o → o ≡ some a → P a
AllSome-at P none a h e = cc
AllSome-at P (some b) a h e = let q : b ≡ a = cc in subst P q h

pub AllSome-then {ℓ κ μ} :
    {A : Type ℓ} {B : Type κ} (P : A → Type μ) (Q : B → Type μ) (f : A → Option B) (o : Option A)
    → AllSome P o
    → ((a : A) → P a → AllSome Q (f a))
    → AllSome Q (elim o [ none ↦ none | some a ↦ f a ])
AllSome-then P Q f none h k = tt
AllSome-then P Q f (some a) h k = k a h

-- Nothing equates the two truth values.
pub of_false_eq_true {ℓ} : {A : Type ℓ} → false ≡ true → A
of_false_eq_true h = cc
