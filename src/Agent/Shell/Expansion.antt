-- ===== src/Agent/Shell/Expansion.antt =====
-- A command in which the shell could expand something is refused
-- (packages/agent/src/bashPolicy.ts).
use ironflow_js.Prelude.{
  ℕ, zero, suc, ◌≤◌, ◌≡◌, refl, Bool, true, false, ◌||◌, Option, none, some, [], ◌∷◌, any, length,
  ◌==◌, arith, Option-cases, inl, inr,
}
use ironflow_js.Durable.Text.{Text, strip_prefix}
use ironflow_js.Agent.Shell.{
  Scan, Round, Parsed, split_at, double_quote, bar, ampersand, semicolon, go_if, read_char, round,
  stderr_drop, stripped_drop, scan, parse_words, empty_scan, double_refused, is_blank, drop_null,
  drop_out,
}
use ironflow_js.Agent.Shell.Total.{Round-cases, round_leaves}

-- `$` or a backquote; a single quote.
abbrev expands : ℕ → Bool
expands c = c == 36 || c == 96

abbrev is_single : ℕ → Bool
is_single c = c == 39

-- Text with an expansion and no single quote.
abbrev pub IsExpanding : Text → Type 0
IsExpanding s = (any expands s ≡ true) × (any is_single s ≡ false)

abbrev Keeps : Round → Type 0
Keeps Round.refuse = Unit {0}
Keeps (Round.answer ps) = ⊥
Keeps (Round.go_on more t) = IsExpanding more

any_behind : (f : ℕ → Bool) (q : ℕ) → Option (Text × Text) → Bool → Bool
any_behind f q none b = b
any_behind f q (some (inner, rest)) b = any f inner || (f q || any f rest)

split_at-any : (f : ℕ → Bool) (q : ℕ) (s : Text) → any_behind f q (split_at q s) (any f s) ≡ any f s
unfolding split_at any_behind
split_at-any f q [] = refl
split_at-any f q (c ∷ s) = ground (arith, split_at-any f q s)

strip_prefix-any :
    (f : ℕ → Bool) (d s rest : Text)
    → strip_prefix d s ≡ some rest
    → any f s ≡ (any f d || any f rest)
unfolding strip_prefix
strip_prefix-any f [] s rest e = ground arith
strip_prefix-any f (c ∷ d) [] rest e = ground arith
strip_prefix-any f (c ∷ d) (a ∷ s) rest e = ground (arith, strip_prefix-any f d s rest)

stripped_drop-any :
    (f : ℕ → Bool) (d s rest : Text)
    → stripped_drop d s ≡ some rest
    → any f s ≡ (any f d || any f rest)
unfolding stripped_drop
stripped_drop-any f d s rest e = ground (arith, strip_prefix-any f d s rest)

stderr_drop-IsExpanding :
    (s rest : Text) → stderr_drop s ≡ some rest → IsExpanding s → IsExpanding rest
unfolding stderr_drop
stderr_drop-IsExpanding s rest e h = ground (
  arith,
  stripped_drop-any expands drop_null s rest,
  stripped_drop-any expands drop_out s rest,
  stripped_drop-any is_single drop_null s rest,
  stripped_drop-any is_single drop_out s rest,
)

is_blank-any : (s : Text) → is_blank s ≡ true → any expands s ≡ false
unfolding is_blank
is_blank-any [] h = refl
is_blank-any (c ∷ s) h = ground (arith, is_blank-any s)

double_quote-Keeps : (rest : Text) (s : Scan) → IsExpanding rest → Keeps (double_quote rest s)
unfolding double_quote double_refused any_behind
double_quote-Keeps rest s h =
    ground (arith, split_at-any expands 34 rest, split_at-any is_single 34 rest)

bar-Keeps : (rest : Text) (s : Scan) → IsExpanding rest → Keeps (bar rest s)
unfolding bar go_if
bar-Keeps [] s h = ground arith
bar-Keeps (c ∷ rest) s h = ground arith

ampersand-Keeps : (rest : Text) (s : Scan) → IsExpanding rest → Keeps (ampersand rest s)
unfolding ampersand go_if
ampersand-Keeps [] s h = tt
ampersand-Keeps (c ∷ rest) s h = ground arith

semicolon-Keeps : (rest : Text) (s : Scan) → IsExpanding rest → Keeps (semicolon rest s)
unfolding semicolon
semicolon-Keeps rest s h = ground (arith, is_blank-any rest)

read_char-Keeps :
    (c : ℕ) (rest : Text) (s : Scan) → IsExpanding (c ∷ rest) → Keeps (read_char c rest s)
unfolding read_char
read_char-Keeps c rest s h = ground (
  arith,
  double_quote-Keeps rest s,
  bar-Keeps rest s,
  ampersand-Keeps rest s,
  semicolon-Keeps rest s,
)

round-Keeps : (c : ℕ) (rest : Text) (s : Scan) → IsExpanding (c ∷ rest) → Keeps (round c rest s)
unfolding round
round-Keeps c rest s h = elim (Option-cases (stderr_drop (c ∷ rest))) [
  | inl no_drop ↦ ground (arith, read_char-Keeps c rest s h)
  | inr (more, drop) ↦
      ground (arith, read_char-Keeps c rest s h, stderr_drop-IsExpanding (c ∷ rest) more drop h)
]

scan_expanding :
    (fuel : ℕ) (command : Text) (s : Scan)
    → length command ≤ fuel
    → IsExpanding command
    → scan fuel command s ≡ Parsed.refused
unfolding scan
scan_expanding zero [] s le h = ground arith
scan_expanding (suc fuel) [] s le h = ground arith
scan_expanding zero (c ∷ rest) s le h = absurd (omega arith)
scan_expanding (suc fuel) (c ∷ rest) s le h = elim (Round-cases (round c rest s)) [
  | inl e ↦ ground arith
  | inr (inl (ps, e)) ↦ elim (rw e at (round-Keeps c rest s h)) [ ]
  | inr (inr (more, t, e)) ↦
      let kept : IsExpanding more = rw e at (round-Keeps c rest s h) in
      ground (arith, round_leaves c rest more s t e, scan_expanding fuel more t)
]

-- A command with `$` or a backquote anywhere, and no single quote, is refused.
pub expansion_refused :
    (command : Text) → IsExpanding command → parse_words command ≡ Parsed.refused
unfolding parse_words
expansion_refused command h = scan_expanding (length command) command empty_scan (omega arith) h
