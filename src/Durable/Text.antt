-- ===== src/Durable/Text.antt =====
-- Text as a list of character codes, and what the SDK does with it: comparison, replacement of a
-- character, prefixes, and the decimal form of a number.
use Prim.Native.Char.{code}
use Prim.Native.String.{String}
use ironflow_js.Prelude.{
  ℕ, zero, suc, ◌+◌, ◌-◌, ◌*◌, ◌/◌, ◌%◌, ◌<◌, ◌≡◌, refl, Bool, true, false, ◌&&◌, ◌↔◌, Option, none,
  some, List, [], ◌∷◌, ◌++◌, ltb, ◌==◌, if◌then◌else◌, arith,
}

abbrev pub Text : Type 0
Text = List ℕ

-- The codes of a text that is written out.
abbrev pub codes : String → Text
codes String.[] = []
codes (String.◌∷◌ c s) = code c ∷ codes s

abbrev pub colon : ℕ
colon = 58

abbrev pub backslash : ℕ
backslash = 92

unfoldable pub text_eq : Text → Text → Bool
text_eq [] [] = true
text_eq (a ∷ s) (b ∷ t) = (a == b) && text_eq s t
text_eq _ _ = false

pub text_eq_iff : (s t : Text) → (text_eq s t ≡ true) ↔ (s ≡ t)
unfolding text_eq
text_eq_iff [] [] = ground arith
text_eq_iff [] (b ∷ t) = ground arith
text_eq_iff (a ∷ s) [] = ground arith
text_eq_iff (a ∷ s) (b ∷ t) = ground (arith, text_eq_iff s t)

-- `s.replace(/c/g, "\\c")`: a backslash before each `c`.
unfoldable pub prefix_each : ℕ → Text → Text
prefix_each c [] = []
prefix_each c (a ∷ s) =
    let rest = prefix_each c s in if a == c then backslash ∷ a ∷ rest else a ∷ rest

-- What stands behind the prefix, if the text starts with it.
unfoldable pub strip_prefix : Text → Text → Option Text
strip_prefix [] s = some s
strip_prefix (p ∷ ps) [] = none
strip_prefix (p ∷ ps) (a ∷ s) = if p == a then strip_prefix ps s else none

unfoldable pub decimal_fuel : ℕ → ℕ → Text
decimal_fuel zero n = []
decimal_fuel (suc f) n =
    let front = decimal_fuel f (n / 10) in
    if ltb n 10 then (48 + n) ∷ [] else front ++ (48 + n % 10) ∷ []

-- `${n}` for a natural number; a number has fewer digits than `n + 1`.
unfoldable pub decimal : ℕ → Text
unfolding decimal_fuel
decimal n = decimal_fuel (suc n) n

-- The number that a text of digits stands for.
abbrev number_from : ℕ → Text → ℕ
number_from acc [] = acc
number_from acc (c ∷ s) = number_from (acc * 10 + (c - 48)) s

number_from-append :
    (acc c : ℕ) (s : Text) → number_from acc (s ++ c ∷ []) ≡ number_from acc s * 10 + (c - 48)
number_from-append acc c [] = refl
number_from-append acc c (d ∷ s) = number_from-append (acc * 10 + (d - 48)) c s

number_from-decimal_fuel : (f n : ℕ) → n < f → number_from 0 (decimal_fuel f n) ≡ n
unfolding decimal_fuel
number_from-decimal_fuel zero n h = absurd (omega arith)
number_from-decimal_fuel (suc f) n h = ground (
  arith,
  number_from-append 0 (48 + n % 10) (decimal_fuel f (n / 10)),
  number_from-decimal_fuel f (n / 10),
)

pub decimal-injective : (m n : ℕ) → decimal m ≡ decimal n → m ≡ n
unfolding decimal
decimal-injective m n e = cc (
  number_from-decimal_fuel (suc m) m (omega arith),
  number_from-decimal_fuel (suc n) n (omega arith),
)
