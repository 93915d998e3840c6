-- ===== src/Upcaster/Definitions/Tests.antt =====
-- Concrete definitions (packages/core/src/event-definition.ts).
use ironflow_js.Prelude.{◌-◌, ◌≡◌, refl, Option, none, some, List, [], ◌∷◌}
use ironflow_js.Durable.Text.{Text, text_eq}
use ironflow_js.Durable.Context.{map_get, map_set}
use ironflow_js.Upcaster.{
  Json, Elements, Upcasted, upcast, upcasters_of, find_upcaster, set_upcaster, register,
  is_redacted, upcast_rounds,
}
use ironflow_js.Upcaster.Definitions.{
  EventDefinition, create_event_definition_registry, upcast_event, register_all, latest_of,
  register_definition, register_upcast, versions_of, latest_version, max_of,
}
use ironflow_js.Upcaster.Definitions.Migrated.{defined_versions, migrated, upcast_event-migrated}

abbrev placed : Text
placed = b'o' ∷ b'p' ∷ []

abbrev wrapping : Json → Option Json
wrapping d = some (Json.array (Elements.cons d Elements.nil))

-- The second version is defined twice, the third has no upcast.
abbrev definitions : List EventDefinition
definitions =
    record { name = placed; version = 2; upcast_fn = some (λ d. some d) }
    ∷ record { name = placed; version = 1; upcast_fn = none }
    ∷ record { name = placed; version = 4; upcast_fn = some wrapping }
    ∷ record { name = placed; version = 2; upcast_fn = some wrapping }
    ∷ []

abbrev old : Json
old = Json.string placed

upcast_event-migrated_example :
    upcast_event (register_all definitions create_event_definition_registry) placed old 1
    ≡ elim (latest_of (defined_versions placed definitions)) [
      | none ↦ Upcasted.done old
      | some latest ↦ migrated placed definitions (latest - 1) 1 old
    ]
unfolding is_redacted
upcast_event-migrated_example = upcast_event-migrated definitions placed old 1 refl

stops_at_gap :
    upcast_event (register_all definitions create_event_definition_registry) placed old 1
    ≡ Upcasted.broken 2
unfolding upcast_event register_all register_definition register_upcast versions_of latest_version
    latest_of max_of text_eq map_get map_set upcast upcasters_of find_upcaster set_upcaster register
    is_redacted upcast_rounds
stops_at_gap = refl
