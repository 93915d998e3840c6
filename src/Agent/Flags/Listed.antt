-- ===== src/Agent/Flags/Listed.antt =====
-- Only listed flags pass splitArgs (packages/agent/src/bashPolicy.ts).
use ironflow_js.Prelude.{
  ℕ, ◌≡◌, refl, Bool, true, false, not, ◌&&◌, ◌||◌, Option, none, some, List, [], ◌∷◌, ◌++◌, All,
  any, arith, ◌==◌, if◌then◌else◌, AllSome, AllSome-at, if_split, Option-split,
}
use ironflow_js.Durable.Text.{Text, text_eq, strip_prefix}
use ironflow_js.Agent.Shell.{one_of}
use ironflow_js.Agent.Paths.{starts_with}
use ironflow_js.Agent.Specs.{Spec, property}
use ironflow_js.Agent.Flags.{
  Argument, Split, dash, cluster, argument, split_from, split_args, add_flags, add_operand, after,
  long_flag, long_known, is_number, before_equals, operand, end_mark, flag, flag_next, refused,
}

cluster-refused :
    (spec : Spec) (before rest flags : Text) (c : ℕ)
    → All (λ (d : ℕ). one_of d spec.chars ≡ true) before
    → one_of c spec.chars ≡ false
    → one_of c spec.vals ≡ false
    → cluster spec (before ++ c ∷ rest) flags ≡ Argument.refused
unfolding cluster
cluster-refused spec [] rest flags c listed no_char no_val = ground arith
cluster-refused spec (d ∷ before) rest flags c listed no_char no_val =
    ground (arith, cluster-refused spec before rest (flags ++ d ∷ []) c listed.1)

short_flag :
    (spec : Spec) (d : ℕ) (letters : Text)
    → (d == dash) ≡ false
    → spec.count ≡ false
    → argument spec false (dash ∷ d ∷ letters) ≡ cluster spec (d ∷ letters) []
unfolding argument text_eq strip_prefix
short_flag spec d letters other plain = ground arith

split_from-refused :
    (spec : Spec) (w : Text) (args : List Text)
    → argument spec false w ≡ Argument.refused
    → split_from spec false (w ∷ args) ≡ none
unfolding split_from
split_from-refused spec w [] e = ground arith
split_from-refused spec w (v ∷ args) e = ground arith

-- An argument of letters that the program's flags hold, and then a letter that neither its flags
-- nor its flags with a value hold, makes splitArgs answer null, whatever follows in it or behind
-- it, for a program without line counts and a first letter other than `-`.
pub unlisted_flag_refused :
    (spec : Spec) (d c : ℕ) (before rest letters : Text) (args : List Text)
    → d ∷ letters ≡ before ++ c ∷ rest
    → (d == dash) ≡ false
    → spec.count ≡ false
    → All (λ (e : ℕ). one_of e spec.chars ≡ true) before
    → one_of c spec.chars ≡ false
    → one_of c spec.vals ≡ false
    → split_args spec ((dash ∷ d ∷ letters) ∷ args) ≡ none
unfolding split_args
unlisted_flag_refused spec d c before rest letters args e other plain listed no_char no_val =
    let found = cluster-refused spec before rest [] c listed no_char no_val in
    let short = short_flag spec d letters other plain in
    let all : argument spec false (dash ∷ d ∷ letters) ≡ Argument.refused = cc in
    split_from-refused spec (dash ∷ d ∷ letters) args all

-- Whether each letter of a text is a flag of the program.
abbrev pub all_listed : Spec → Text → Bool
all_listed spec s = not (any (λ c. not (one_of c spec.chars)) s)

abbrev Listed : Spec → Argument → Type 0
Listed spec (Argument.flag letters) = all_listed spec letters ≡ true
Listed spec (Argument.flag_next letters) = all_listed spec letters ≡ true
Listed spec _ = Unit {0}

all_listed-append :
    (spec : Spec) (a b : Text) → all_listed spec (a ++ b) ≡ (all_listed spec a && all_listed spec b)
all_listed-append spec [] b = refl
all_listed-append spec (c ∷ a) b = ground (arith, all_listed-append spec a b)

cluster-Listed :
    (spec : Spec) (s flags : Text)
    → all_listed spec flags ≡ true
    → Listed spec (cluster spec s flags)
unfolding cluster
cluster-Listed spec [] flags h = h
cluster-Listed spec (c ∷ s) flags h =
    ground (arith, all_listed-append spec flags (c ∷ []), cluster-Listed spec s (flags ++ c ∷ []))

long_flag-Listed : (spec : Spec) (f : Text × Bool) → Listed spec (long_flag spec f)
unfolding long_flag long_known property
long_flag-Listed spec (name, has_value) = ground arith

short_argument-Listed :
    (spec : Spec) (w : Text)
    → Listed spec (elim w [
      | [] ↦ Argument.operand
      | d ∷ letters ↦
          if spec.count && is_number letters then Argument.flag [] else cluster spec letters []
    ])
short_argument-Listed spec [] = tt
short_argument-Listed spec (d ∷ letters) =
    if_split (Listed spec) (spec.count && is_number letters) _ _ (λ _. refl)
      (λ _. cluster-Listed spec letters [] refl)

argument-Listed : (spec : Spec) (ended : Bool) (w : Text) → Listed spec (argument spec ended w)
unfolding argument
argument-Listed spec ended w =
    if_split (Listed spec) (ended || (text_eq w (dash ∷ []) || not (starts_with dash w))) _ _
      (λ _. tt)
      (λ _.
        if_split (Listed spec) (text_eq w (dash ∷ dash ∷ [])) _ _ (λ _. tt)
          (λ _.
            Option-split (Listed spec) (strip_prefix (dash ∷ dash ∷ []) w) _ _
              (λ _. short_argument-Listed spec w)
              (λ body _. long_flag-Listed spec (before_equals body))))

-- The letters that splitArgs collects are flags of the program that take no value.
AllListed : Spec → Split → Type 0
AllListed spec s = all_listed spec s.flags ≡ true

after_flags :
    (spec : Spec) (letters : Text) (o : Option Split)
    → all_listed spec letters ≡ true
    → AllSome (AllListed spec) o
    → AllSome (AllListed spec) (after (add_flags letters) o)
unfolding AllListed
after_flags spec letters none h k = tt
after_flags spec letters (some s) h k = ground (arith, all_listed-append spec letters s.flags)

after_operand :
    (spec : Spec) (w : Text) (o : Option Split)
    → AllSome (AllListed spec) o
    → AllSome (AllListed spec) (after (add_operand w) o)
unfolding AllListed
after_operand spec w none k = tt
after_operand spec w (some s) k = k

split_last :
    (spec : Spec) (w : Text) (a : Argument)
    → Listed spec a
    → AllSome (AllListed spec) (elim a [
      | operand ↦ some (record { flags = []; operands = w ∷ [] })
      | end_mark ↦ some (record { flags = []; operands = [] })
      | flag letters ↦ some (record { flags = letters; operands = [] })
      | flag_next letters ↦ none
      | refused ↦ none
    ])
unfolding AllListed
split_last spec w Argument.operand h = refl
split_last spec w Argument.end_mark h = refl
split_last spec w (Argument.flag letters) h = h
split_last spec w (Argument.flag_next letters) h = tt
split_last spec w Argument.refused h = tt

split_next :
    (spec : Spec) (w : Text) (a : Argument) (here ended rest : Option Split)
    → Listed spec a
    → AllSome (AllListed spec) here
    → AllSome (AllListed spec) ended
    → AllSome (AllListed spec) rest
    → AllSome (AllListed spec) (elim a [
      | operand ↦ after (add_operand w) here
      | end_mark ↦ ended
      | flag letters ↦ after (add_flags letters) here
      | flag_next letters ↦ after (add_flags letters) rest
      | refused ↦ none
    ])
split_next spec w Argument.operand here ended rest h a b c = after_operand spec w here a
split_next spec w Argument.end_mark here ended rest h a b c = b
split_next spec w (Argument.flag letters) here ended rest h a b c =
    after_flags spec letters here h a
split_next spec w (Argument.flag_next letters) here ended rest h a b c =
    after_flags spec letters rest h c
split_next spec w Argument.refused here ended rest h a b c = tt

split_from-AllListed :
    (spec : Spec) (ended : Bool) (args : List Text)
    → AllSome (AllListed spec) (split_from spec ended args)
unfolding split_from AllListed
split_from-AllListed spec ended [] = refl
split_from-AllListed spec ended (w ∷ []) =
    split_last spec w (argument spec ended w) (argument-Listed spec ended w)
split_from-AllListed spec ended (w ∷ v ∷ rest) =
    split_next spec w (argument spec ended w) _ _ _ (argument-Listed spec ended w)
      (split_from-AllListed spec ended (v ∷ rest)) (split_from-AllListed spec true (v ∷ rest))
      (split_from-AllListed spec ended rest)

-- The letters that splitArgs collects are all flags of the program that take no value.
pub split_args_listed :
    (spec : Spec) (args : List Text) (s : Split)
    → split_args spec args ≡ some s
    → all_listed spec s.flags ≡ true
unfolding split_args AllListed
split_args_listed spec args s e =
    AllSome-at (AllListed spec) (split_args spec args) s (split_from-AllListed spec false args) e
