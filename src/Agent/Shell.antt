-- ===== src/Agent/Shell.antt =====
-- parseWords and parseCommand of packages/agent/src/bashPolicy.ts: a command becomes pipelines of
-- simple commands of words, or is refused.
pub mod Total
pub mod RoundTrip
pub mod Expansion
use ironflow_js.Prelude.{
  ℕ, zero, suc, Bool, true, false, not, ◌&&◌, ◌||◌, Option, none, some, List, [], ◌∷◌, ◌++◌, map,
  any, length, ◌==◌, if◌then◌else◌,
}
use ironflow_js.Durable.Text.{Text, strip_prefix}

pub record Word : Type 0 where
  pub text : Text
  pub glob : Bool
  pub quoted : Bool

abbrev pub Pipelines : Type 0
Pipelines = List (List (List Word))

-- The variables of the loop.
pub record Scan : Type 0 where
  pub pipelines : Pipelines
  pub pipeline : List (List Word)
  pub words : List Word
  pub word : Text
  pub glob : Bool
  pub quoted : Bool
  pub in_word : Bool

abbrev pub one_of : ℕ → Text → Bool
one_of c s = any (λ d. d == c) s

-- `$ ` > < ( ) { } \ ~ # ! [ ]`, newline, carriage return, vertical tab, form feed.
abbrev pub unquoted_refused : Text
unquoted_refused =
    36 ∷ 96 ∷ 62 ∷ 60 ∷ 40 ∷ 41 ∷ 123 ∷ 125 ∷ 92 ∷ 126 ∷ 35 ∷ 33 ∷ 91 ∷ 93 ∷ 10 ∷ 13 ∷ 11 ∷ 12 ∷ []

-- "2>/dev/null" and "2>&1".
abbrev pub drop_null : Text
drop_null = b'2' ∷ b'>' ∷ b'/' ∷ b'd' ∷ b'e' ∷ b'v' ∷ b'/' ∷ b'n' ∷ b'u' ∷ b'l' ∷ b'l' ∷ []

abbrev pub drop_out : Text
drop_out = b'2' ∷ b'>' ∷ b'&' ∷ b'1' ∷ []

unfoldable pub end_word : Scan → Scan
end_word s =
    if s.in_word
    then record s {
      words = s.words ++ record { text = s.word; glob = s.glob; quoted = s.quoted } ∷ [];
      word = [];
      glob = false;
      quoted = false;
      in_word = false;
    }
    else s

-- `endCommand` behind `endWord`: none where it answers false.
unfoldable pub push_command : Scan → List Word → Option Scan
push_command s [] = none
push_command s (w ∷ ws) = some (record s { pipeline = s.pipeline ++ (w ∷ ws) ∷ []; words = [] })

unfoldable pub end_command : Scan → Option Scan
unfolding end_word push_command
end_command s = push_command (end_word s) (end_word s).words

unfoldable pub push_pipeline : Scan → Scan
push_pipeline s = record s { pipelines = s.pipelines ++ s.pipeline ∷ []; pipeline = [] }

unfoldable pub end_pipeline : Scan → Option Scan
unfolding end_command push_pipeline
end_pipeline s = elim (end_command s) [ none ↦ none | some t ↦ some (push_pipeline t) ]

-- `indexOf`: what stands before the next such character, and what stands behind it.
unfoldable pub split_at : ℕ → Text → Option (Text × Text)
split_at q [] = none
split_at q (c ∷ s) =
    let more = split_at q s in
    if c == q
    then some ([], s)
    else elim more [ none ↦ none | some (inner, rest) ↦ some (c ∷ inner, rest) ]

-- `/^[ \t|;&]?$/` on the character behind a redirect.
unfoldable pub ends_drop : Text → Bool
ends_drop [] = true
ends_drop (c ∷ s) = one_of c (32 ∷ 9 ∷ b'|' ∷ b';' ∷ b'&' ∷ [])

unfoldable pub stripped_drop : Text → Text → Option Text
unfolding strip_prefix ends_drop
stripped_drop d s = elim (strip_prefix d s) [
  | none ↦ none
  | some rest ↦ if ends_drop rest then some rest else none
]

unfoldable pub stderr_drop : Text → Option Text
unfolding stripped_drop
stderr_drop s = elim (stripped_drop drop_null s) [
  | some rest ↦ some rest
  | none ↦ stripped_drop drop_out s
]

-- `/\\([$`"\\\n]|$)/`.
unfoldable pub has_escape : Text → Bool
has_escape [] = false
has_escape (c ∷ []) = c == 92
has_escape (c ∷ d ∷ s) = (c == 92 && one_of d (36 ∷ 96 ∷ 34 ∷ 92 ∷ 10 ∷ [])) || has_escape (d ∷ s)

unfoldable pub double_refused : Text → Bool
unfolding has_escape
double_refused inner = any (λ c. c == 36 || c == 96) inner || has_escape inner

unfoldable pub append_quoted : Text → Scan → Scan
append_quoted inner s = record s { word = s.word ++ inner; in_word = true; quoted = true }

unfoldable pub append_char : ℕ → Scan → Scan
append_char c s = record s {
  word = s.word ++ c ∷ [];
  in_word = true;
  glob = s.glob || (c == b'*' || c == b'?');
}

unfoldable pub is_blank : Text → Bool
is_blank s = not (any (λ c. not (c == 32 || c == 9)) s)

-- What a round of the loop leads to: `return null`, `return pipelines`, or the next round.
pub data Round : Type 0 where
  refuse : Round
  answer : Pipelines → Round
  go_on : Text → Scan → Round

unfoldable pub go_if : Text → Option Scan → Round
go_if rest none = Round.refuse
go_if rest (some s) = Round.go_on rest s

unfoldable pub single_quote : Text → Scan → Round
unfolding split_at append_quoted
single_quote rest s = elim (split_at 39 rest) [
  | none ↦ Round.refuse
  | some (inner, more) ↦ Round.go_on more (append_quoted inner s)
]

unfoldable pub double_quote : Text → Scan → Round
unfolding split_at append_quoted double_refused
double_quote rest s = elim (split_at 34 rest) [
  | none ↦ Round.refuse
  | some (inner, more) ↦
      if double_refused inner then Round.refuse else Round.go_on more (append_quoted inner s)
]

unfoldable pub bar : Text → Scan → Round
unfolding end_command go_if
bar [] s = go_if [] (end_command s)
bar (c ∷ rest) s = if c == b'|' || c == b'&' then Round.refuse else go_if (c ∷ rest) (end_command s)

unfoldable pub ampersand : Text → Scan → Round
unfolding end_pipeline go_if
ampersand [] s = Round.refuse
ampersand (c ∷ rest) s = if c == b'&' then go_if rest (end_pipeline s) else Round.refuse

unfoldable pub semicolon : Text → Scan → Round
unfolding end_pipeline is_blank
semicolon rest s = elim (end_pipeline s) [
  | none ↦ Round.refuse
  | some t ↦ if is_blank rest then Round.answer t.pipelines else Round.go_on rest t
]

-- The loop's body behind the test for a redirect.
unfoldable pub read_char : ℕ → Text → Scan → Round
unfolding single_quote double_quote end_word bar ampersand semicolon append_char
read_char c rest s =
    if c == 39
    then single_quote rest s
    else if c == 34
    then double_quote rest s
    else if c == 32 || c == 9
    then Round.go_on rest (end_word s)
    else if c == b'|'
    then bar rest s
    else if c == b'&'
    then ampersand rest s
    else if c == b';'
    then semicolon rest s
    else if one_of c unquoted_refused
    then Round.refuse
    else Round.go_on rest (append_char c s)

unfoldable pub round : ℕ → Text → Scan → Round
unfolding stderr_drop read_char
round c rest s = if s.in_word then read_char c rest s else elim (stderr_drop (c ∷ rest)) [
  | some more ↦ Round.go_on more s
  | none ↦ read_char c rest s
]

pub data Parsed : Type 0 where
  refused : Parsed
  parsed : Pipelines → Parsed
  out_of_fuel : Parsed

unfoldable pub finish : Option Scan → Parsed
finish none = Parsed.refused
finish (some s) = Parsed.parsed s.pipelines

unfoldable pub scan : ℕ → Text → Scan → Parsed
unfolding end_pipeline round finish
scan fuel [] s = finish (end_pipeline s)
scan zero (c ∷ rest) s = Parsed.out_of_fuel
scan (suc fuel) (c ∷ rest) s = elim (round c rest s) [
  | refuse ↦ Parsed.refused
  | answer ps ↦ Parsed.parsed ps
  | go_on more t ↦ scan fuel more t
]

abbrev pub empty_scan : Scan
empty_scan = record {
  pipelines = [];
  pipeline = [];
  words = [];
  word = [];
  glob = false;
  quoted = false;
  in_word = false;
}

-- A round for each character is enough.
unfoldable pub parse_words : Text → Parsed
unfolding scan
parse_words command = scan (length command) command empty_scan

unfoldable pub has_glob : Pipelines → Bool
has_glob ps = any (λ p. any (λ c. any (λ (w : Word). w.glob) c) p) ps

unfoldable pub texts_of : Pipelines → List (List (List Text))
texts_of ps = map (λ p. map (λ c. map (λ (w : Word). w.text) c) p) ps

-- A command with a glob gets no grant.
unfoldable pub parse_command : Text → Option (List (List (List Text)))
unfolding parse_words has_glob texts_of
parse_command command = elim (parse_words command) [
  | parsed ps ↦ if has_glob ps then none else some (texts_of ps)
  | _ ↦ none
]
