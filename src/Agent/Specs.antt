-- ===== src/Agent/Specs.antt =====
-- The tables of packages/agent/src/bashPolicy.ts, SPECS and FIND_PRIMARIES, and how a lookup in an
-- object literal reads them.
use ironflow_js.Prelude.{
  ℕ, Bool, true, false, Option, none, some, List, [], ◌∷◌, any, if◌then◌else◌,
}
use ironflow_js.Durable.Text.{Text, codes, text_eq}
use ironflow_js.Durable.Context.{map_get}

-- What every object literal inherits.
abbrev pub object_prototype : List Text
object_prototype =
    codes "constructor"
    ∷ codes "toString"
    ∷ codes "valueOf"
    ∷ codes "hasOwnProperty"
    ∷ codes "isPrototypeOf"
    ∷ codes "propertyIsEnumerable"
    ∷ codes "toLocaleString"
    ∷ codes "__proto__"
    ∷ codes "__defineGetter__"
    ∷ codes "__defineSetter__"
    ∷ codes "__lookupGetter__"
    ∷ codes "__lookupSetter__"
    ∷ []

-- `table[name]` of an object literal.
pub data Property (A : Type 0) : Type 0 where
  own : A → Property A
  inherited : Property A
  absent : Property A

unfoldable pub property : {A : Type 0} → Text → List (Text × A) → Property A
unfolding map_get text_eq
property name table = elim (map_get name table) [
  | some a ↦ Property.own a
  | none ↦ if any (text_eq name) object_prototype then Property.inherited else Property.absent
]

pub data Operands : Type 0 where
  paths : Operands
  pattern_first : Operands
  no_operands : Operands

pub data Recursive : Type 0 where
  never : Recursive
  with_flag : ℕ → Recursive
  always : Recursive

pub record Spec : Type 0 where
  pub chars : Text
  pub vals : Text
  pub long : Option (List (Text × Bool))
  pub count : Bool
  pub operands : Operands
  pub recursive : Recursive

abbrev pub plain_spec : Text → Text → Spec
plain_spec chars vals = record {
  chars = chars;
  vals = vals;
  long = none;
  count = false;
  operands = Operands.paths;
  recursive = Recursive.never;
}

abbrev pub grep_long : List (Text × Bool)
grep_long = (codes "include", true) ∷ (codes "exclude", true) ∷ (codes "exclude-dir", true) ∷ []

abbrev pub rg_long : List (Text × Bool)
rg_long =
    (codes "glob", true)
    ∷ (codes "type", true)
    ∷ (codes "files", false)
    ∷ (codes "hidden", false)
    ∷ (codes "no-heading", false)
    ∷ (codes "fixed-strings", false)
    ∷ (codes "ignore-case", false)
    ∷ (codes "line-number", false)
    ∷ []

abbrev pub specs : List (Text × Spec)
specs =
    (
      codes "ls",
      record (plain_spec (codes "alhtrSdF1AGR") []) { recursive = Recursive.with_flag b'R' },
    )
    ∷ (codes "cat", plain_spec (codes "nbs") [])
    ∷ (codes "head", record (plain_spec [] (codes "n")) { count = true })
    ∷ (codes "tail", record (plain_spec [] (codes "n")) { count = true })
    ∷ (codes "wc", plain_spec (codes "lwcm") [])
    ∷ (
      codes "grep",
      record (plain_spec (codes "nrilvcEFwoHhsqxLI") (codes "ABCm")) {
        long = some grep_long;
        operands = Operands.pattern_first;
        recursive = Recursive.with_flag b'r';
      },
    )
    ∷ (
      codes "rg",
      record (plain_spec (codes "nilvcwoHFSsuN") (codes "gtABCm")) {
        long = some rg_long;
        operands = Operands.pattern_first;
        recursive = Recursive.always;
      },
    )
    ∷ (codes "sort", plain_spec (codes "rnufbdhV") (codes "kt"))
    ∷ (codes "uniq", plain_spec (codes "cdui") [])
    ∷ (codes "cut", plain_spec [] (codes "dfc"))
    ∷ (codes "sed", plain_spec (codes "n") [])
    ∷ (codes "pwd", record (plain_spec [] []) { operands = Operands.no_operands })
    ∷ (codes "which", record (plain_spec [] []) { operands = Operands.no_operands })
    ∷ (codes "echo", record (plain_spec [] []) { operands = Operands.no_operands })
    ∷ []

-- `SPECS[program]`: what is inherited is an object without any of a Spec's fields.
unfoldable pub spec_of : Text → Option Spec
unfolding property
spec_of program = elim (property program specs) [
  | own s ↦ some s
  | inherited ↦ some (plain_spec [] [])
  | absent ↦ none
]

-- Whether a primary of find takes a value.
abbrev pub find_primaries : List (Text × Bool)
find_primaries =
    (codes "-name", true)
    ∷ (codes "-iname", true)
    ∷ (codes "-path", true)
    ∷ (codes "-ipath", true)
    ∷ (codes "-type", true)
    ∷ (codes "-maxdepth", true)
    ∷ (codes "-mindepth", true)
    ∷ (codes "-size", true)
    ∷ (codes "-print", false)
    ∷ (codes "-o", false)
    ∷ (codes "-a", false)
    ∷ (codes "-not", false)
    ∷ []
