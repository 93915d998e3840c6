-- ===== src/Agent/Flags.antt =====
-- splitArgs and the arguments of find, of packages/agent/src/bashPolicy.ts.
pub mod Listed
use ironflow_js.Prelude.{
  ℕ, Bool, true, false, not, ◌&&◌, ◌||◌, Option, none, some, List, [], ◌∷◌, ◌++◌, any, ◌==◌, leb,
  ltb, length, if◌then◌else◌,
}
use ironflow_js.Durable.Text.{Text, codes, text_eq, strip_prefix}
use ironflow_js.Durable.Context.{map_get}
use ironflow_js.Agent.Shell.{one_of}
use ironflow_js.Agent.Paths.{starts_with}
use ironflow_js.Agent.Specs.{
  object_prototype, Property, property, Operands, Recursive, Spec, plain_spec, grep_long, rg_long,
  specs, spec_of, find_primaries, own, inherited, absent,
}

abbrev pub dash : ℕ
dash = b'-'

unfoldable pub runs_recursively : Recursive → Text → Bool
runs_recursively Recursive.never flags = false
runs_recursively (Recursive.with_flag c) flags = one_of c flags
runs_recursively Recursive.always flags = true

abbrev pub is_digit : ℕ → Bool
is_digit c = leb b'0' c && leb c b'9'

-- `/^[0-9]+$/`.
unfoldable pub is_number : Text → Bool
is_number [] = false
is_number (c ∷ s) = not (any (λ d. not (is_digit d)) (c ∷ s))

-- What an argument is: an operand, `--`, a flag, a flag that takes the next argument too, or not
-- allowed; with the letters that it adds to `flags`.
pub data Argument : Type 0 where
  operand : Argument
  end_mark : Argument
  flag : Text → Argument
  flag_next : Text → Argument
  refused : Argument

unfoldable pub cluster : Spec → Text → Text → Argument
cluster spec [] flags = Argument.flag flags
cluster spec (c ∷ s) flags =
    let more = cluster spec s (flags ++ c ∷ []) in
    if one_of c spec.chars
    then more
    else if one_of c spec.vals
    then elim s [ [] ↦ Argument.flag_next flags | d ∷ t ↦ Argument.flag flags ]
    else Argument.refused

-- Up to the first `=`, and whether there is one.
unfoldable pub before_equals : Text → Text × Bool
before_equals [] = ([], false)
before_equals (c ∷ s) =
    let rest = before_equals s in if c == b'=' then ([], true) else (c ∷ rest.0, rest.1)

unfoldable pub long_known : Bool → Bool → Argument
long_known true true = Argument.flag []
long_known true false = Argument.flag_next []
long_known false true = Argument.refused
long_known false false = Argument.flag []

-- An inherited property is truthy: it passes for a flag that takes a value.
unfoldable pub long_flag : Spec → Text × Bool → Argument
unfolding property long_known
long_flag spec (name, has_value) = elim spec.long [
  | none ↦ Argument.refused
  | some table ↦ elim (property name table) [
    | own takes ↦ long_known takes has_value
    | inherited ↦ long_known true has_value
    | absent ↦ Argument.refused
  ]
]

unfoldable pub argument : Spec → Bool → Text → Argument
unfolding text_eq strip_prefix is_number cluster long_flag before_equals
argument spec ended w =
    if ended || (text_eq w (dash ∷ []) || not (starts_with dash w))
    then Argument.operand
    else if text_eq w (dash ∷ dash ∷ [])
    then Argument.end_mark
    else elim (strip_prefix (dash ∷ dash ∷ []) w) [
      | some body ↦ long_flag spec (before_equals body)
      | none ↦ elim w [
        | [] ↦ Argument.operand
        | d ∷ letters ↦
            if spec.count && is_number letters then Argument.flag [] else cluster spec letters []
      ]
    ]

pub record Split : Type 0 where
  pub flags : Text
  pub operands : List Text

abbrev pub add_flags : Text → Split → Split
add_flags letters s = record s { flags = letters ++ s.flags }

abbrev pub add_operand : Text → Split → Split
add_operand w s = record s { operands = w ∷ s.operands }

abbrev pub after : (Split → Split) → Option Split → Option Split
after f none = none
after f (some s) = some (f s)

-- The loop of `splitArgs`, from an argument on.
unfoldable pub split_from : Spec → Bool → List Text → Option Split
unfolding argument
split_from spec ended [] = some (record { flags = []; operands = [] })
split_from spec ended (w ∷ []) = elim (argument spec ended w) [
  | operand ↦ some (record { flags = []; operands = w ∷ [] })
  | end_mark ↦ some (record { flags = []; operands = [] })
  | flag letters ↦ some (record { flags = letters; operands = [] })
  | flag_next letters ↦ none
  | refused ↦ none
]
split_from spec ended (w ∷ v ∷ rest) = elim (argument spec ended w) [
  | operand ↦ after (add_operand w) (split_from spec ended (v ∷ rest))
  | end_mark ↦ split_from spec true (v ∷ rest)
  | flag letters ↦ after (add_flags letters) (split_from spec ended (v ∷ rest))
  | flag_next letters ↦ after (add_flags letters) (split_from spec ended rest)
  | refused ↦ none
]

unfoldable pub split_args : Spec → List Text → Option Split
unfolding split_from
split_args spec args = split_from spec false args

-- The folders that find starts from, and what follows them.
unfoldable pub find_starts : List Text → List Text × List Text
find_starts [] = ([], [])
find_starts (w ∷ args) =
    let rest = find_starts args in
    if starts_with dash w then ([], w ∷ args) else (w ∷ rest.0, rest.1)

-- The index of a loop: where it started counting from, or NaN.
pub data Index : Type 0 where
  at : ℕ → Index
  not_a_number : Index

-- `i + n + 1` at an argument. A function in place of a number makes `i` a text, and `i++` NaN.
unfoldable pub advanced : Property Bool → Index
advanced (Property.own takes) = Index.at (if takes then 2 else 1)
advanced _ = Index.not_a_number

-- `i < args.length`, which NaN never is.
unfoldable pub index_below : Index → ℕ → Bool
index_below (Index.at i) n = ltb i n
index_below Index.not_a_number n = false

-- The second loop of `findReadOnly`; it goes on while the index is below the number of arguments.
unfoldable pub find_allowed : List Text → Bool
unfolding property advanced index_below
find_allowed [] = true
find_allowed (w ∷ []) = elim (property w find_primaries) [
  | own takes ↦ not takes
  | inherited ↦ not (index_below (advanced Property.inherited) 1)
  | absent ↦ false
]
find_allowed (w ∷ v ∷ rest) = elim (property w find_primaries) [
  | own takes ↦ elim takes [ true ↦ find_allowed rest | false ↦ find_allowed (v ∷ rest) ]
  | inherited ↦ not (index_below (advanced Property.inherited) (length (w ∷ v ∷ rest)))
  | absent ↦ false
]
