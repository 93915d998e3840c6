-- ===== src/Agent/ReadOnly/Contained.antt =====
-- What an approved command reads lies in the workspace (packages/agent/src/bashPolicy.ts,
-- sandbox/contain.ts).
use ironflow_js.Prelude.{
  ◌≡◌, ◌∙◌, refl, sym, Bool, true, false, not, ◌&&◌, ◌||◌, some, List, [], ◌∷◌, any, arith,
  if◌then◌else◌, if_split, Option-split, AllSome, ltb, length, of_false_eq_true,
}
use ironflow_js.Durable.Text.{Text, codes, text_eq, text_eq_iff}
use ironflow_js.Agent.Paths.{
  FilePath, FileSystem, Place, dot, dot_dot, split_path, inside, resolve, resolve_inside_at,
}
use ironflow_js.Agent.Paths.Contained.{RealpathIsPlain, Under, resolve_inside_at-Under}
use ironflow_js.Agent.Specs.{Spec, spec_of}
use ironflow_js.Agent.Flags.{runs_recursively, Split, split_args}
use ironflow_js.Agent.ReadOnly.{
  checked_words, program_allowed, path_operands, operands_allowed, all_inside, is_dash, keep_if,
}

-- The programs whose operands are not all read as they stand.
abbrev pub special : List Text
special = codes "cd" ∷ codes "find" ∷ codes "echo" ∷ codes "which" ∷ codes "sed" ∷ []

abbrev pub is_special : Text → Bool
is_special program = any (text_eq program) special

none_of_five :
    (a b c d e : Bool)
    → (a || (b || (c || (d || (e || false))))) ≡ false
    → (a ≡ false) × (b ≡ false) × (c ≡ false) × (d ≡ false) × (e ≡ false)
none_of_five a b c d e h = ground arith

is_special-parts :
    (program : Text)
    → is_special program ≡ false
    → (text_eq program (codes "cd") ≡ false)
      × (text_eq program (codes "find") ≡ false)
      × (text_eq program (codes "echo") ≡ false)
      × (text_eq program (codes "which") ≡ false)
      × (text_eq program (codes "sed") ≡ false)
is_special-parts program h = none_of_five _ _ _ _ _ h

pub keep_if-AllSome {ℓ} :
    (P : FilePath → Type ℓ) (b : Bool) (base : FilePath)
    → (b ≡ true → P base)
    → AllSome P (keep_if b base)
unfolding keep_if
keep_if-AllSome P true base h = h refl
keep_if-AllSome P false base h = tt

pub past_guard : (x o : Bool) → (if x then false else o) ≡ true → o ≡ true
past_guard x o h = ground arith

past_guards :
    (u i r d : Bool)
    → (if u then false else if not i then false else if r then d else true) ≡ true
    → i ≡ true
past_guards u i r d h = ground arith

pub operands_allowed-inside :
    (fs : FileSystem) (w : Place) (base : FilePath) (program : Text) (spec : Spec) (flags : Text)
    (operands : List Text)
    → operands_allowed fs w base program spec flags operands ≡ true
    → all_inside fs w base operands ≡ true
unfolding operands_allowed
operands_allowed-inside fs w base program spec flags operands h =
    past_guards (text_eq program (codes "uniq") && ltb 1 (length operands))
      (all_inside fs w base operands)
      (not (any (λ a. not (is_dash a)) (path_operands spec.operands operands))
        && runs_recursively spec.recursive flags)
      (inside fs w base dot) h

program_allowed-inside :
    (fs : FileSystem) (w : Place) (base : FilePath) (program : Text) (spec : Spec) (s : Split)
    → text_eq program (codes "echo") ≡ false
    → text_eq program (codes "which") ≡ false
    → text_eq program (codes "sed") ≡ false
    → program_allowed fs w base program spec s ≡ true
    → all_inside fs w base s.operands ≡ true
unfolding program_allowed
program_allowed-inside fs w base program spec s no_echo no_which no_sed h =
    operands_allowed-inside fs w base program spec s.flags s.operands
      (past_guard _ _ (rw (no_echo, no_which, no_sed) at h))

pub not-true : (b : Bool) → not b ≡ true → b ≡ false
not-true b h = ground arith

inside_of_tests : (d i : Bool) → d ≡ false → (not d && not i) ≡ false → i ≡ true
inside_of_tests d i h k = ground arith

pub any-none :
    (f : Text → Bool) (a : Text) (l : List Text)
    → any f l ≡ false
    → any (text_eq a) l ≡ true
    → f a ≡ false
any-none f a [] h m = ground arith
any-none f a (b ∷ l) h m = ground (arith, text_eq_iff a b, any-none f a l)

pub all_inside-one :
    (fs : FileSystem) (w : Place) (base : FilePath) (a : Text) (operands : List Text)
    → any (text_eq a) operands ≡ true
    → is_dash a ≡ false
    → all_inside fs w base operands ≡ true
    → inside fs w base a ≡ true
unfolding all_inside
all_inside-one fs w base a operands m d h =
    let at_a =
      any-none (λ (b : Text). not (is_dash b) && not (inside fs w base b)) a operands (not-true _ h)
        m in
    inside_of_tests _ _ d at_a

-- The path has no "..", and it leads to the folder that the workspace really is, or below it.
abbrev pub LeadsInside : FileSystem → Place → FilePath → Text → Type 0
LeadsInside fs w base a =
    (any (text_eq dot_dot) (split_path a) ≡ false)
    × ((t : FilePath) × Under fs w.workspace (resolve base a) t)

pub inside-LeadsInside :
    (fs : FileSystem) (w : Place) (base : FilePath) (a : Text)
    → RealpathIsPlain fs
    → inside fs w base a ≡ true
    → LeadsInside fs w base a
unfolding inside
inside-LeadsInside fs w base a clean h =
    let P : Bool → Type 0 = λ b. b ≡ true → LeadsInside fs w base a in
    if_split P (any (text_eq dot_dot) (split_path a)) _ _ (λ _ q. of_false_eq_true q)
      (λ no_dots.
        Option-split P (resolve_inside_at fs w.workspace (resolve base a) w.home true) _ _
          (λ _ q. of_false_eq_true q)
          (λ t e q. (
            no_dots,
            (t, resolve_inside_at-Under fs clean w.workspace (resolve base a) w.home true t e),
          )))
      h

-- What is left of the arguments beside the flags leads into the workspace.
abbrev pub OperandsInside : FileSystem → Place → FilePath → Text → List Text → Type 0
OperandsInside fs w base program args =
    (spec : Spec) × (s : Split) × (spec_of program ≡ some spec)
    × (split_args spec args ≡ some s)
    × ((a : Text) → any (text_eq a) s.operands ≡ true → is_dash a ≡ false → LeadsInside fs w base a)

pub checked_words-OperandsInside :
    (fs : FileSystem) (w : Place) (base : FilePath) (alone : Bool) (program : Text)
    (args : List Text)
    → RealpathIsPlain fs
    → is_special program ≡ false
    → AllSome
        (λ (next : FilePath). OperandsInside fs w base program args)
        (checked_words fs w base alone (program ∷ args))
unfolding checked_words
checked_words-OperandsInside fs w base alone program args clean ordinary =
    let no = is_special-parts program ordinary in
    let P : FilePath → Type 0 = λ next. OperandsInside fs w base program args in
    if_split (AllSome P) (text_eq program (codes "cd")) _ _
      (λ yes. of_false_eq_true (sym no.0 ∙ yes))
      (λ _.
        if_split (AllSome P) (text_eq program (codes "find")) _ _
          (λ yes. of_false_eq_true (sym no.1 ∙ yes))
          (λ _.
            Option-split (AllSome P) (spec_of program) _ _ (λ _. tt)
              (λ spec e.
                Option-split (AllSome P) (split_args spec args) _ _ (λ _. tt)
                  (λ s f.
                    keep_if-AllSome P (program_allowed fs w base program spec s) base (λ allowed.
                      let all =
                        program_allowed-inside fs w base program spec s no.2 no.3 no.4 allowed in
                      (
                        spec,
                        s,
                        e,
                        f,
                        (λ a m d.
                            inside-LeadsInside fs w base a clean
                              (all_inside-one fs w base a s.operands m d all)),
                      ))))))
