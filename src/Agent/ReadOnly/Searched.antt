-- ===== src/Agent/ReadOnly/Searched.antt =====
-- What find searches and sed reads in an approved command (packages/agent/src/bashPolicy.ts).
use ironflow_js.Prelude.{
  ◌≡◌, refl, sym, Bool, true, false, not, ◌&&◌, some, List, [], ◌∷◌, any, arith, Option-split,
  AllSome, of_false_eq_true,
}
use ironflow_js.Durable.Text.{Text, codes, text_eq}
use ironflow_js.Agent.Paths.{FilePath, FileSystem, Place, dot, inside}
use ironflow_js.Agent.Paths.Contained.{RealpathIsPlain}
use ironflow_js.Agent.Specs.{Spec, plain_spec}
use ironflow_js.Agent.Flags.{Split, split_args, find_starts, find_allowed}
use ironflow_js.Agent.ReadOnly.{
  checked_words, program_allowed, all_inside, is_dash, sed_operands, find_read_only,
}
use ironflow_js.Agent.ReadOnly.Contained.{
  LeadsInside, inside-LeadsInside, keep_if-AllSome, not-true, any-none, past_guard,
  operands_allowed-inside, all_inside-one,
}

and_right : (a b : Bool) → (a && b) ≡ true → b ≡ true
and_right a b h = ground arith

pub of_not : (b : Bool) → not b ≡ false → b ≡ true
of_not true h = refl
of_not false h = sym h

-- The folders that find searches.
abbrev pub find_roots : List Text → List Text
find_roots args = elim ((find_starts args).0) [ [] ↦ dot ∷ [] | p ∷ ps ↦ p ∷ ps ]

abbrev pub SearchesInside : FileSystem → Place → FilePath → List Text → Type 0
SearchesInside fs w base args =
    (a : Text) → any (text_eq a) (find_roots args) ≡ true → LeadsInside fs w base a

find_read_only-SearchesInside :
    (fs : FileSystem) (w : Place) (base : FilePath) (args : List Text)
    → RealpathIsPlain fs
    → find_read_only fs w base args ≡ true
    → SearchesInside fs w base args
unfolding find_read_only
find_read_only-SearchesInside fs w base args clean h a m =
    let none_outside = not-true _ (and_right (find_allowed (find_starts args).1) _ h) in
    let not_outside =
      any-none (λ (p : Text). not (inside fs w base p)) a (find_roots args) none_outside m in
    inside-LeadsInside fs w base a clean (of_not _ not_outside)

pub checked_words-SearchesInside :
    (fs : FileSystem) (w : Place) (base : FilePath) (alone : Bool) (args : List Text)
    → RealpathIsPlain fs
    → AllSome
        (λ (next : FilePath). SearchesInside fs w base args)
        (checked_words fs w base alone (codes "find" ∷ args))
unfolding checked_words text_eq
checked_words-SearchesInside fs w base alone args clean =
    keep_if-AllSome (λ (next : FilePath). SearchesInside fs w base args)
      (find_read_only fs w base args) base (find_read_only-SearchesInside fs w base args clean)

abbrev pub sed_spec : Spec
sed_spec = plain_spec (codes "n") []

-- The files of sed, behind a script that prints lines only.
abbrev pub PrintsInside : FileSystem → Place → FilePath → List Text → Type 0
PrintsInside fs w base args =
    (s : Split) × (files : List Text) × (split_args sed_spec args ≡ some s)
    × (sed_operands s ≡ some files)
    × ((a : Text) → any (text_eq a) files ≡ true → is_dash a ≡ false → LeadsInside fs w base a)

sed_allowed-inside :
    (fs : FileSystem) (w : Place) (base : FilePath) (spec : Spec) (s : Split)
    → program_allowed fs w base (codes "sed") spec s ≡ true
    → (files : List Text) × (sed_operands s ≡ some files) × (all_inside fs w base files ≡ true)
unfolding program_allowed text_eq
sed_allowed-inside fs w base spec s h =
    let P : Bool → Type 0 = λ b.
      b ≡ true
      → (files : List Text) × (sed_operands s ≡ some files) × (all_inside fs w base files ≡ true) in
    Option-split P (sed_operands s) _ _ (λ _ q. of_false_eq_true q)
      (λ files e q.
        (files, e, operands_allowed-inside fs w base (codes "sed") spec s.flags files q))
      (past_guard _ _ h)

pub checked_words-PrintsInside :
    (fs : FileSystem) (w : Place) (base : FilePath) (alone : Bool) (args : List Text)
    → RealpathIsPlain fs
    → AllSome
        (λ (next : FilePath). PrintsInside fs w base args)
        (checked_words fs w base alone (codes "sed" ∷ args))
unfolding checked_words text_eq
checked_words-PrintsInside fs w base alone args clean =
    let P : FilePath → Type 0 = λ next. PrintsInside fs w base args in
    Option-split (AllSome P) (split_args sed_spec args) _ _ (λ _. tt)
      (λ s f.
        keep_if-AllSome P (program_allowed fs w base (codes "sed") sed_spec s) base (λ allowed.
          let read = sed_allowed-inside fs w base sed_spec s allowed in
          (
            s,
            read.0,
            f,
            read.1,
            (λ a m d.
                inside-LeadsInside fs w base a clean
                  (all_inside-one fs w base a read.0 m d read.2)),
          )))
