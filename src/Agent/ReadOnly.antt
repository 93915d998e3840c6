-- ===== src/Agent/ReadOnly.antt =====
-- isReadOnly of packages/agent/src/bashPolicy.ts: which commands run without asking.
pub mod Contained
pub mod Searched
pub mod Walk
use ironflow_js.Prelude.{
  ℕ, zero, suc, Bool, true, false, not, ◌&&◌, ◌||◌, Option, none, some, List, [], ◌∷◌, ◌++◌, map,
  any, length, filter, ◌==◌, leb, ltb, if◌then◌else◌,
}
use ironflow_js.Durable.Text.{Text, codes, text_eq}
use ironflow_js.Agent.Shell.{Word, Pipelines, Parsed, one_of, parse_words, parsed}
use ironflow_js.Agent.Paths.{
  FilePath, FileSystem, Lookup, Place, dot, dot_dot, slash, split_path, starts_with, resolve,
  inside, enterable,
}
use ironflow_js.Agent.Specs.{Spec, Operands, spec_of}
use ironflow_js.Agent.Flags.{
  Split, Argument, dash, split_args, runs_recursively, is_digit, find_starts, find_allowed,
}
use ironflow_js.Agent.Glob.{expand}

-- `/^[0-9]+(,[0-9]+)?p$/`: at least a digit, then a comma and at least a digit at most, then `p`.
unfoldable pub sed_print_from : Bool → Bool → Text → Bool
sed_print_from comma digit [] = false
sed_print_from comma digit (c ∷ s) =
    let more = sed_print_from comma true s in
    let second = sed_print_from true false s in
    if is_digit c
    then more
    else if c == b','
    then digit && (not comma && second)
    else c == b'p' && (digit && text_eq s [])

unfoldable pub sed_print : Text → Bool
unfolding sed_print_from
sed_print w = sed_print_from false false w

abbrev pub rest_of {ℓ} : {A : Type ℓ} → List A → List A
rest_of [] = []
rest_of (w ∷ ws) = ws

abbrev pub is_dash : Text → Bool
is_dash w = text_eq w (dash ∷ [])

-- The operands of sed behind its script; none where the script may do more than print.
unfoldable pub sed_operands : Split → Option (List Text)
unfolding sed_print
sed_operands s = elim s.operands [
  | [] ↦ none
  | script ∷ files ↦ if one_of b'n' s.flags && sed_print script then some files else none
]

unfoldable pub all_inside : FileSystem → Place → FilePath → List Text → Bool
unfolding inside
all_inside fs w base operands =
    not (any (λ a. not (is_dash a) && not (inside fs w base a)) operands)

unfoldable pub path_operands : Operands → List Text → List Text
path_operands Operands.pattern_first operands = rest_of operands
path_operands _ operands = operands

unfoldable pub is_none : Operands → Bool
is_none Operands.no_operands = true
is_none _ = false

-- The checks on the operands behind those of sed.
unfoldable pub operands_allowed :
    FileSystem → Place → FilePath → Text → Spec → Text → List Text → Bool
unfolding all_inside path_operands runs_recursively inside
operands_allowed fs w base program spec flags operands =
    if text_eq program (codes "uniq") && ltb 1 (length operands)
    then false
    else if not (all_inside fs w base operands)
    then false
    else if not (any (λ a. not (is_dash a)) (path_operands spec.operands operands))
        && runs_recursively spec.recursive flags
    then inside fs w base dot
    else true

unfoldable pub program_allowed : FileSystem → Place → FilePath → Text → Spec → Split → Bool
unfolding is_none sed_operands operands_allowed
program_allowed fs w base program spec s =
    if text_eq program (codes "echo") || text_eq program (codes "which")
    then true
    else if is_none spec.operands && any (λ o. true) s.operands
    then false
    else if text_eq program (codes "sed")
    then elim (sed_operands s) [
      | none ↦ false
      | some files ↦ operands_allowed fs w base program spec s.flags files
    ]
    else operands_allowed fs w base program spec s.flags s.operands

unfoldable pub find_read_only : FileSystem → Place → FilePath → List Text → Bool
unfolding find_starts find_allowed inside
find_read_only fs w base args =
    find_allowed (find_starts args).1
    && not (
        any (λ p. not (inside fs w base p))
          (elim ((find_starts args).0) [ [] ↦ dot ∷ [] | p ∷ ps ↦ p ∷ ps ]))

-- The folder that `cd` leads to.
unfoldable pub changed_base : FileSystem → Place → FilePath → Bool → List Text → Option FilePath
unfolding enterable
changed_base fs w base alone [] = none
changed_base fs w base alone (p ∷ []) =
    if not alone || starts_with dash p then none else enterable fs w base p
changed_base fs w base alone (p ∷ q ∷ args) = none

unfoldable pub keep_if : Bool → FilePath → Option FilePath
keep_if true base = some base
keep_if false base = none

-- A command's words; the folder in which the next one runs, or none where isReadOnly answers false.
unfoldable pub checked_words : FileSystem → Place → FilePath → Bool → List Text → Option FilePath
unfolding changed_base find_read_only spec_of split_args program_allowed keep_if
checked_words fs w base alone [] = none
checked_words fs w base alone (program ∷ args) =
    if text_eq program (codes "cd")
    then changed_base fs w base alone args
    else if text_eq program (codes "find")
    then keep_if (find_read_only fs w base args) base
    else elim (spec_of program) [
      | none ↦ none
      | some spec ↦ elim (split_args spec args) [
        | none ↦ none
        | some s ↦ keep_if (program_allowed fs w base program spec s) base
      ]
    ]

unfoldable pub checked_segments :
    FileSystem → Place → Bool → FilePath → List (List Word) → Option FilePath
unfolding expand checked_words
checked_segments fs w alone base [] = some base
checked_segments fs w alone base (segment ∷ segments) = elim (expand fs w base segment) [
  | none ↦ none
  | some words ↦ elim (checked_words fs w base alone words) [
    | none ↦ none
    | some next ↦ checked_segments fs w alone next segments
  ]
]

unfoldable pub checked_pipelines : FileSystem → Place → FilePath → Pipelines → Option FilePath
unfolding checked_segments
checked_pipelines fs w base [] = some base
checked_pipelines fs w base (pipeline ∷ pipelines) =
    elim (checked_segments fs w (not (any (λ s. true) (rest_of pipeline))) base pipeline) [
      | none ↦ none
      | some next ↦ checked_pipelines fs w next pipelines
    ]

unfoldable pub is_read_only : FileSystem → Place → Text → Bool
unfolding parse_words checked_pipelines
is_read_only fs w command = elim (parse_words command) [
  | parsed ps ↦ elim (checked_pipelines fs w w.workspace ps) [ none ↦ false | some base ↦ true ]
  | _ ↦ false
]
