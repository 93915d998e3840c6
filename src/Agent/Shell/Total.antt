-- ===== src/Agent/Shell/Total.antt =====
-- The loop of parseWords ends: each round reads a character at least
-- (packages/agent/src/bashPolicy.ts).
use ironflow_js.Prelude.{
  ℕ, zero, suc, ◌+◌, ◌≤◌, ◌≡◌, ◌≢◌, refl, Option, none, some, [], ◌∷◌, length, arith, sym,
  Option-cases, inl, inr, ◌⊎◌,
}
use ironflow_js.Durable.Text.{Text, strip_prefix}
use ironflow_js.Agent.Shell.{
  Pipelines, Scan, Round, Parsed, split_at, single_quote, double_quote, bar, ampersand, semicolon,
  go_if, end_pipeline, read_char, round, stderr_drop, stripped_drop, scan, parse_words, empty_scan,
  finish,
}

-- What a round leaves is at most so long.
abbrev pub Leaves : ℕ → Round → Type 0
Leaves n (Round.go_on more s) = length more ≤ n
Leaves n _ = Unit {0}

abbrev length_behind : Option (Text × Text) → ℕ
length_behind none = 0
length_behind (some (inner, rest)) = length rest

split_at-length : (q : ℕ) (s : Text) → length_behind (split_at q s) ≤ length s
unfolding split_at
split_at-length q [] = omega arith
split_at-length q (c ∷ s) = ground (arith, split_at-length q s)

strip_prefix-length :
    (d s rest : Text) → strip_prefix d s ≡ some rest → length rest + length d ≡ length s
unfolding strip_prefix
strip_prefix-length [] s rest e = ground arith
strip_prefix-length (c ∷ d) [] rest e = ground arith
strip_prefix-length (c ∷ d) (a ∷ s) rest e = ground (arith, strip_prefix-length d s rest)

stripped_drop-length :
    (c : ℕ) (d s rest : Text) → stripped_drop (c ∷ d) s ≡ some rest → length rest + 1 ≤ length s
unfolding stripped_drop
stripped_drop-length c d s rest e = ground (arith, strip_prefix-length (c ∷ d) s rest)

go_if-Leaves : (n : ℕ) (rest : Text) (s : Option Scan) → length rest ≤ n → Leaves n (go_if rest s)
unfolding go_if
go_if-Leaves n rest none h = tt
go_if-Leaves n rest (some s) h = h

single_quote-Leaves : (rest : Text) (s : Scan) → Leaves (length rest) (single_quote rest s)
unfolding single_quote
single_quote-Leaves rest s = ground (arith, split_at-length 39 rest)

double_quote-Leaves : (rest : Text) (s : Scan) → Leaves (length rest) (double_quote rest s)
unfolding double_quote
double_quote-Leaves rest s = ground (arith, split_at-length 34 rest)

bar-Leaves : (rest : Text) (s : Scan) → Leaves (length rest) (bar rest s)
unfolding bar go_if
bar-Leaves [] s = ground arith
bar-Leaves (c ∷ rest) s = ground arith

ampersand-Leaves : (rest : Text) (s : Scan) → Leaves (length rest) (ampersand rest s)
unfolding ampersand go_if
ampersand-Leaves [] s = tt
ampersand-Leaves (c ∷ rest) s = ground arith

semicolon-Leaves : (rest : Text) (s : Scan) → Leaves (length rest) (semicolon rest s)
unfolding semicolon
semicolon-Leaves rest s = ground arith

read_char-Leaves : (c : ℕ) (rest : Text) (s : Scan) → Leaves (length rest) (read_char c rest s)
unfolding read_char
read_char-Leaves c rest s = ground (
  arith,
  single_quote-Leaves rest s,
  double_quote-Leaves rest s,
  bar-Leaves rest s,
  ampersand-Leaves rest s,
  semicolon-Leaves rest s,
)

length_left : Option Text → ℕ
length_left none = 0
length_left (some rest) = length rest

stderr_drop-length :
    (c : ℕ) (s rest : Text) → stderr_drop (c ∷ s) ≡ some rest → length rest ≤ length s
unfolding stderr_drop
stderr_drop-length c s rest e = ground (
  arith,
  stripped_drop-length b'2'
      (b'>' ∷ b'/' ∷ b'd' ∷ b'e' ∷ b'v' ∷ b'/' ∷ b'n' ∷ b'u' ∷ b'l' ∷ b'l' ∷ []) (c ∷ s) rest,
  stripped_drop-length b'2' (b'>' ∷ b'&' ∷ b'1' ∷ []) (c ∷ s) rest,
)

pub round-Leaves : (c : ℕ) (rest : Text) (s : Scan) → Leaves (length rest) (round c rest s)
unfolding round
round-Leaves c rest s = elim (Option-cases (stderr_drop (c ∷ rest))) [
  | inl no_drop ↦ ground (arith, read_char-Leaves c rest s)
  | inr (more, drop) ↦ ground (arith, read_char-Leaves c rest s, stderr_drop-length c rest more)
]

-- The runs of the loop, whatever the fuel.
pub data Scans : Text → Scan → Parsed → Type 0 where
  ends : {s : Scan} {r : Parsed} → r ≡ finish (end_pipeline s) → Scans [] s r
  stops :
      {c : ℕ} {rest : Text} {s : Scan}
      → round c rest s ≡ Round.refuse
      → Scans (c ∷ rest) s Parsed.refused
  answers :
      {c : ℕ} {rest : Text} {s : Scan} {ps : Pipelines}
      → round c rest s ≡ Round.answer ps
      → Scans (c ∷ rest) s (Parsed.parsed ps)
  goes :
      {c : ℕ} {rest more : Text} {s t : Scan} {r : Parsed}
      → round c rest s ≡ Round.go_on more t
      → Scans more t r
      → Scans (c ∷ rest) s r

pub round_leaves :
    (c : ℕ) (rest more : Text) (s t : Scan)
    → round c rest s ≡ Round.go_on more t
    → length more ≤ length rest
round_leaves c rest more s t e = rw e at (round-Leaves c rest s)

pub Scans-scan :
    {command : Text} {s : Scan} {r : Parsed} (fuel : ℕ)
    → Scans command s r
    → length command ≤ fuel
    → scan fuel command s ≡ r
unfolding scan
Scans-scan zero (Scans.ends e) h = sym e
Scans-scan (suc fuel) (Scans.ends e) h = sym e
Scans-scan zero (Scans.stops e) h = absurd (omega arith)
Scans-scan (suc fuel) (Scans.stops e) h = ground arith
Scans-scan zero (Scans.answers e) h = absurd (omega arith)
Scans-scan (suc fuel) (Scans.answers e) h = ground arith
Scans-scan zero (Scans.goes e rest) h = absurd (omega arith)
Scans-scan (suc fuel) (Scans.goes {c} {rest} {more} {s} {t} e run) h =
    ground (arith, round_leaves c rest more s t e, Scans-scan fuel run)

pub Round-cases :
    (r : Round)
    → (r ≡ Round.refuse)
      ⊎ (((ps : Pipelines) × (r ≡ Round.answer ps))
          ⊎ ((more : Text) × (t : Scan) × (r ≡ Round.go_on more t)))
Round-cases Round.refuse = inl refl
Round-cases (Round.answer ps) = inr (inl (ps, refl))
Round-cases (Round.go_on more t) = inr (inr (more, t, refl))

scan-ne-out_of_fuel :
    (fuel : ℕ) (command : Text) (s : Scan)
    → length command ≤ fuel
    → scan fuel command s ≢ Parsed.out_of_fuel
unfolding scan finish
scan-ne-out_of_fuel zero [] s h = ground arith
scan-ne-out_of_fuel (suc fuel) [] s h = ground arith
scan-ne-out_of_fuel zero (c ∷ rest) s h = absurd (omega arith)
scan-ne-out_of_fuel (suc fuel) (c ∷ rest) s h = elim (Round-cases (round c rest s)) [
  | inl e ↦ ground arith
  | inr (inl (ps, e)) ↦ ground arith
  | inr (inr (more, t, e)) ↦
      ground (arith, round_leaves c rest more s t e, scan-ne-out_of_fuel fuel more t)
]

-- The parse of every command ends: with its pipelines or with a refusal.
pub parse_words-ne-out_of_fuel : (command : Text) → parse_words command ≢ Parsed.out_of_fuel
unfolding parse_words
parse_words-ne-out_of_fuel command =
    scan-ne-out_of_fuel (length command) command empty_scan (omega arith)
