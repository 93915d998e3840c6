-- ===== src/Upcaster.antt =====
-- packages/core/src/upcaster.ts, and isRedacted of packages/core/src/utils.ts: bringing the data of
-- an event from one version of its schema to a later one. A number of JSON is its text.
pub mod Chain
pub mod Registered
pub mod Definitions
mod Tests
use ironflow_js.Prelude.{
  ℕ, zero, suc, ◌-◌, Bool, true, false, ◌||◌, Option, none, some, List, [], ◌∷◌, ◌==◌, leb, max,
  if◌then◌else◌,
}
use ironflow_js.Durable.Text.{Text, text_eq}
use ironflow_js.Durable.Context.{map_get, map_set}

mutual
  pub data Json : Type 0 where
    null : Json
    bool : Bool → Json
    number : Text → Json
    string : Text → Json
    array : Elements → Json
    object : Fields → Json

  pub data Elements : Type 0 where
    nil : Elements
    cons : Json → Elements → Elements

  pub data Fields : Type 0 where
    end : Fields
    field : Text → Json → Fields → Fields

-- "$redacted".
abbrev pub redacted_marker_key : Text
redacted_marker_key = b'$' ∷ b'r' ∷ b'e' ∷ b'd' ∷ b'a' ∷ b'c' ∷ b't' ∷ b'e' ∷ b'd' ∷ []

unfoldable pub is_true : Json → Bool
is_true (Json.bool b) = b
is_true _ = false

unfoldable pub has_marker : Fields → Bool
unfolding is_true text_eq
has_marker Fields.end = false
has_marker (Fields.field key value more) =
    let rest = has_marker more in if text_eq key redacted_marker_key then is_true value else rest

unfoldable pub is_redacted : Json → Bool
unfolding has_marker
is_redacted (Json.object fields) = has_marker fields
is_redacted _ = false

-- `fn` answers none where it throws.
pub record Upcaster : Type 0 where
  pub to_version : ℕ
  pub fn : Json → Option Json

abbrev pub Upcasters : Type 0
Upcasters = List (ℕ × Upcaster)

abbrev pub Registry : Type 0
Registry = List (Text × Upcasters)

unfoldable pub find_upcaster : ℕ → Upcasters → Option Upcaster
find_upcaster v [] = none
find_upcaster v ((from, u) ∷ m) = let rest = find_upcaster v m in if from == v then some u else rest

unfoldable pub set_upcaster : ℕ → Upcaster → Upcasters → Upcasters
set_upcaster v u [] = (v, u) ∷ []
set_upcaster v u ((from, t) ∷ m) =
    let rest = set_upcaster v u m in if from == v then (v, u) ∷ m else (from, t) ∷ rest

-- `this.upcasters.get(eventName)`, an event without upcasters having an empty map.
unfoldable pub upcasters_of : Text → Registry → Upcasters
unfolding map_get
upcasters_of event r = elim (map_get event r) [ none ↦ [] | some m ↦ m ]

unfoldable pub register : Text → ℕ → Upcaster → Registry → Registry
unfolding map_set upcasters_of set_upcaster
register event from u r = map_set event (set_upcaster from u (upcasters_of event r)) r

-- What `upcast` does: it returns, throws at the version that lacks an upcaster, lets out what the
-- upcaster of a version threw, or goes on.
pub data Upcasted : Type 0 where
  done : Json → Upcasted
  broken : ℕ → Upcasted
  threw : ℕ → Upcasted
  unfinished : Upcasted

-- The loop, for at most the given number of rounds.
unfoldable pub upcast_rounds : ℕ → Upcasters → Json → ℕ → ℕ → Upcasted
unfolding find_upcaster
upcast_rounds zero m data_now version target =
    if leb target version then Upcasted.done data_now else Upcasted.unfinished
upcast_rounds (suc rounds) m data_now version target =
    if leb target version then Upcasted.done data_now else elim (find_upcaster version m) [
      | none ↦ Upcasted.broken version
      | some u ↦ elim (u.fn data_now) [
        | none ↦ Upcasted.threw version
        | some next ↦ upcast_rounds rounds m next u.to_version target
      ]
    ]

-- With as many rounds as there are versions between the two.
unfoldable pub upcast : Registry → Text → Json → ℕ → ℕ → Upcasted
unfolding is_redacted upcasters_of upcast_rounds
upcast r event payload from target =
    if leb target from
    then Upcasted.done payload
    else if is_redacted payload
    then Upcasted.done payload
    else upcast_rounds (target - from) (upcasters_of event r) payload from target

unfoldable pub highest_version : Upcasters → ℕ
highest_version [] = 0
highest_version ((from, u) ∷ m) = max (highest_version m) (max from u.to_version)

unfoldable pub get_latest_version : Registry → Text → Option ℕ
unfolding upcasters_of highest_version
get_latest_version r event = elim (upcasters_of event r) [
  | [] ↦ none
  | entry ∷ m ↦ some (highest_version (entry ∷ m))
]
