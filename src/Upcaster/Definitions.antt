-- ===== src/Upcaster/Definitions.antt =====
-- packages/core/src/event-definition.ts: the definitions of events, each version of one with the
-- upcast from the version before it.
pub mod Migrated
mod Tests
use ironflow_js.Prelude.{
  ℕ, ◌-◌, max, Bool, true, false, Option, none, some, List, [], ◌∷◌, ◌++◌, leb, if◌then◌else◌,
}
use ironflow_js.Durable.Text.{Text}
use ironflow_js.Durable.Context.{map_get, map_set}
use ironflow_js.Upcaster.{Json, Upcaster, Registry, Upcasted, register, upcast}

pub record EventDefinition : Type 0 where
  pub name : Text
  pub version : ℕ
  pub upcast_fn : Option (Json → Option Json)

pub record EventDefinitionRegistry : Type 0 where
  pub upcaster_registry : Registry
  pub versions : List (Text × List ℕ)

abbrev pub create_event_definition_registry : EventDefinitionRegistry
create_event_definition_registry = record { upcaster_registry = []; versions = [] }

unfoldable pub versions_of : Text → EventDefinitionRegistry → List ℕ
unfolding map_get
versions_of name r = elim (map_get name r.versions) [ none ↦ [] | some vs ↦ vs ]

unfoldable pub register_upcast : EventDefinition → Registry → Registry
unfolding register
register_upcast d r = elim d.upcast_fn [
  | none ↦ r
  | some f ↦
      if leb 2 d.version
      then register d.name (d.version - 1) (record { to_version = d.version; fn = f }) r
      else r
]

unfoldable pub register_definition :
    EventDefinition → EventDefinitionRegistry → EventDefinitionRegistry
unfolding map_set versions_of register_upcast
register_definition d r = record {
  upcaster_registry = register_upcast d r.upcaster_registry;
  versions = map_set d.name (versions_of d.name r ++ d.version ∷ []) r.versions;
}

unfoldable pub max_of : List ℕ → ℕ
max_of [] = 0
max_of (v ∷ vs) = max v (max_of vs)

unfoldable pub latest_of : List ℕ → Option ℕ
unfolding max_of
latest_of [] = none
latest_of (v ∷ vs) = some (max_of (v ∷ vs))

unfoldable pub latest_version : Text → EventDefinitionRegistry → Option ℕ
unfolding versions_of latest_of
latest_version name r = latest_of (versions_of name r)

unfoldable pub upcast_event : EventDefinitionRegistry → Text → Json → ℕ → Upcasted
unfolding latest_version upcast
upcast_event r name payload from = elim (latest_version name r) [
  | none ↦ Upcasted.done payload
  | some latest ↦
      if leb latest from
      then Upcasted.done payload
      else upcast r.upcaster_registry name payload from latest
]

-- One definition after the other.
unfoldable pub register_all :
    List EventDefinition → EventDefinitionRegistry → EventDefinitionRegistry
unfolding register_definition
register_all [] r = r
register_all (d ∷ ds) r = register_all ds (register_definition d r)
