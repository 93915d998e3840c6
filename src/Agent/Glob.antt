-- ===== src/Agent/Glob.antt =====
-- expand of packages/agent/src/bashPolicy.ts: the words that will run where a word is a glob.
use ironflow_js.Prelude.{
  ℕ, Bool, true, false, not, ◌&&◌, ◌||◌, Option, none, some, List, [], ◌∷◌, ◌++◌, map, any, filter,
  ◌==◌, leb, ltb, if◌then◌else◌,
}
use ironflow_js.Durable.Text.{Text}
use ironflow_js.Agent.Shell.{Word}
use ironflow_js.Agent.Paths.{
  FilePath, FileSystem, Lookup, Place, dot, slash, split_path, starts_with, resolve, inside,
}
use ironflow_js.Agent.Flags.{dash}

-- The expression of a part with `*` and `?`: neither matches a slash.
unfoldable pub glob_matches : Text → Text → Bool
glob_matches [] [] = true
glob_matches [] (c ∷ s) = false
glob_matches (g ∷ p) [] = if g == b'*' then glob_matches p [] else false
glob_matches (g ∷ p) (c ∷ s) =
    let shorter = glob_matches p (c ∷ s) in
    let longer = glob_matches (g ∷ p) s in
    let next = glob_matches p s in
    if g == b'*'
    then shorter || (not (c == slash) && longer)
    else if g == b'?'
    then not (c == slash) && next
    else g == c && next

abbrev pub is_printable : ℕ → Bool
is_printable c = leb 32 c && leb c 126

-- `/^[\x20-\x7e]+$/`.
unfoldable pub printable_name : Text → Bool
printable_name [] = false
printable_name (c ∷ s) = not (any (λ d. not (is_printable d)) (c ∷ s))

unfoldable pub text_le : Text → Text → Bool
text_le [] t = true
text_le (a ∷ s) [] = false
text_le (a ∷ s) (b ∷ t) = ltb a b || (a == b && text_le s t)

unfoldable pub insert_name : Text → List Text → List Text
unfolding text_le
insert_name n [] = n ∷ []
insert_name n (m ∷ names) =
    let rest = insert_name n names in if text_le n m then n ∷ m ∷ names else m ∷ rest

-- `names.sort()`.
unfoldable pub sort_names : List Text → List Text
unfolding insert_name
sort_names [] = []
sort_names (n ∷ names) = insert_name n (sort_names names)

abbrev pub has_wild : Text → Bool
has_wild part = any (λ c. c == b'*' || c == b'?') part

abbrev pub or_dot : Text → Text
or_dot [] = dot
or_dot (c ∷ s) = c ∷ s

unfoldable pub names_below : Text → Text → List Text → List Text
unfolding glob_matches sort_names
names_below prefix part names =
    map (λ n. prefix ++ n)
      (filter (λ n. not (starts_with b'.' n) && glob_matches part n) (sort_names names))

-- What one prefix becomes; none where a name is not printable.
unfoldable pub expand_prefix : FileSystem → FilePath → Text → Text → Option (List Text)
unfolding names_below printable_name resolve
expand_prefix fs base part prefix =
    if not (has_wild part)
    then some ((prefix ++ part) ∷ [])
    else elim (fs.read_dir (resolve base (or_dot prefix))) [
      | none ↦ some []
      | some names ↦
          if any (λ n. not (printable_name n)) names
          then none
          else some (names_below prefix part names)
    ]

unfoldable pub expand_prefixes : FileSystem → FilePath → Text → List Text → Option (List Text)
unfolding expand_prefix
expand_prefixes fs base part [] = some []
expand_prefixes fs base part (prefix ∷ more) = elim (expand_prefix fs base part prefix) [
  | none ↦ none
  | some here ↦ elim (expand_prefixes fs base part more) [
    | none ↦ none
    | some rest ↦ some (here ++ rest)
  ]
]

-- The loop over the parts of a glob.
unfoldable pub expand_parts : FileSystem → FilePath → List Text → List Text → Option (List Text)
unfolding expand_prefixes
expand_parts fs base prefixes [] = some prefixes
expand_parts fs base prefixes (part ∷ []) = expand_prefixes fs base part prefixes
expand_parts fs base prefixes (part ∷ next ∷ parts) = elim (expand_prefixes fs base part prefixes) [
  | none ↦ none
  | some found ↦ expand_parts fs base (map (λ p. p ++ slash ∷ []) found) (next ∷ parts)
]

unfoldable pub is_there : Lookup → Bool
is_there (Lookup.found p) = true
is_there _ = false

unfoldable pub existing : FileSystem → FilePath → List Text → List Text
unfolding is_there resolve
existing fs base found = filter (λ m. is_there (fs.lstat (resolve base m))) found

unfoldable pub is_safe_match : FileSystem → Place → FilePath → Text → Bool
unfolding inside
is_safe_match fs w base m = not (starts_with dash m) && inside fs w base m

unfoldable pub matches_or_pattern :
    FileSystem → Place → FilePath → Text → List Text → Option (List Text)
unfolding is_safe_match
matches_or_pattern fs w base text [] = some (text ∷ [])
matches_or_pattern fs w base text (m ∷ ms) =
    if any (λ n. not (is_safe_match fs w base n)) (m ∷ ms) then none else some (m ∷ ms)

unfoldable pub refused_glob : Word → Bool
unfolding split_path
refused_glob word =
    word.quoted
    || (starts_with slash word.text || any (λ p. starts_with b'.' p) (split_path word.text))

unfoldable pub expand_word : FileSystem → Place → FilePath → Word → Option (List Text)
unfolding refused_glob expand_parts existing matches_or_pattern split_path
expand_word fs w base word =
    if not word.glob
    then some (word.text ∷ [])
    else if refused_glob word
    then none
    else elim (expand_parts fs base ([] ∷ []) (split_path word.text)) [
      | none ↦ none
      | some found ↦ matches_or_pattern fs w base word.text (existing fs base found)
    ]

unfoldable pub expand : FileSystem → Place → FilePath → List Word → Option (List Text)
unfolding expand_word
expand fs w base [] = some []
expand fs w base (word ∷ words) = elim (expand_word fs w base word) [
  | none ↦ none
  | some here ↦ elim (expand fs w base words) [ none ↦ none | some rest ↦ some (here ++ rest) ]
]
