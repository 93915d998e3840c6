-- ===== src/Upcaster/Definitions/Migrated.antt =====
-- What definitions make of the data of an event (packages/core/src/event-definition.ts).
use mathlib.Core.List.{append_assoc, append-nil}
use ironflow_js.Prelude.{
  ℕ, zero, suc, ◌-◌, ◌+◌, ◌≡◌, ◌∙◌, refl, sym, false, ◌&&◌, Option, none, some, List, [], ◌∷◌, ◌++◌,
  ◌==◌, leb, Option-cases, inl, inr, if◌then◌else◌, arith,
}
use ironflow_js.Durable.Text.{Text, text_eq, text_eq_iff}
use ironflow_js.Upcaster.{
  Json, Upcaster, Upcasters, Upcasted, find_upcaster, upcasters_of, upcast_rounds, is_redacted,
}
use ironflow_js.Upcaster.Chain.{upcast-rounds, below_or_reached}
use ironflow_js.Upcaster.Registered.{register_replaces, map_get-map_set, map_get-map_set_other}
use ironflow_js.Upcaster.Definitions.{
  EventDefinition, EventDefinitionRegistry, create_event_definition_registry, versions_of,
  register_upcast, register_definition, latest_of, latest_version, upcast_event, register_all,
}

-- The upcast to a version above 1: that of the last definition of the event's version that has one.
abbrev pub last_upcast : Text → ℕ → List EventDefinition → Option (Json → Option Json)
last_upcast name v [] = none
last_upcast name v (d ∷ ds) = elim (last_upcast name v ds) [
  | some f ↦ some f
  | none ↦ if text_eq name d.name && d.version == v && leb 2 v then d.upcast_fn else none
]

-- The versions that are defined of an event.
abbrev pub defined_versions : Text → List EventDefinition → List ℕ
defined_versions name [] = []
defined_versions name (d ∷ ds) =
    let rest = defined_versions name ds in if text_eq name d.name then d.version ∷ rest else rest

-- One version after the other, as far as each has an upcast and none throws.
abbrev pub migrated : Text → List EventDefinition → ℕ → ℕ → Json → Upcasted
migrated name ds zero v d = Upcasted.done d
migrated name ds (suc n) v d = elim (last_upcast name (suc v) ds) [
  | none ↦ Upcasted.broken v
  | some f ↦ elim (f d) [ none ↦ Upcasted.threw v | some e ↦ migrated name ds n (suc v) e ]
]

abbrev to_next : ℕ → (Json → Option Json) → Upcaster
to_next v f = record { to_version = suc v; fn = f }

abbrev upcast_at : Text → ℕ → EventDefinitionRegistry → Option Upcaster
upcast_at name v r = find_upcaster v (upcasters_of name r.upcaster_registry)

abbrev or_before : ℕ → Option (Json → Option Json) → Option Upcaster → Option Upcaster
or_before v none before = before
or_before v (some f) before = some (to_next v f)

upcast_at-register_definition :
    (name : Text) (v : ℕ) (d : EventDefinition) (r : EventDefinitionRegistry)
    → upcast_at name v (register_definition d r)
      ≡ or_before v
          (if text_eq name d.name && d.version == suc v && leb 2 (suc v) then d.upcast_fn else none)
          (upcast_at name v r)
unfolding register_definition register_upcast
upcast_at-register_definition name v d r = elim (Option-cases d.upcast_fn) [
  | inl gone ↦ ground (arith, gone)
  | inr (f, given) ↦
      let replaced =
        register_replaces d.name name (d.version - 1) v (record { to_version = d.version; fn = f })
          r.upcaster_registry in
      ground (arith, replaced.0, replaced.1, text_eq_iff name d.name, given)
]

upcast_at-register_all :
    (name : Text) (v : ℕ) (ds : List EventDefinition) (r : EventDefinitionRegistry)
    → upcast_at name v (register_all ds r)
      ≡ or_before v (last_upcast name (suc v) ds) (upcast_at name v r)
unfolding register_all
upcast_at-register_all name v [] r = refl
upcast_at-register_all name v (d ∷ ds) r =
    upcast_at-register_all name v ds (register_definition d r)
    ∙ ground (arith, upcast_at-register_definition name v d r)

versions_of-register_definition :
    (name : Text) (d : EventDefinition) (r : EventDefinitionRegistry)
    → versions_of name (register_definition d r)
      ≡ versions_of name r ++ (if text_eq name d.name then d.version ∷ [] else [])
unfolding versions_of register_definition
versions_of-register_definition name d r = ground (
  arith,
  text_eq_iff name d.name,
  map_get-map_set d.name (versions_of d.name r ++ d.version ∷ []) r.versions,
  map_get-map_set_other name d.name (versions_of d.name r ++ d.version ∷ []) r.versions,
  append-nil (versions_of name r),
)

versions_of-register_all :
    (name : Text) (ds : List EventDefinition) (r : EventDefinitionRegistry)
    → versions_of name (register_all ds r) ≡ versions_of name r ++ defined_versions name ds
unfolding register_all
versions_of-register_all name [] r = sym (append-nil (versions_of name r))
versions_of-register_all name (d ∷ ds) r = ground (
  arith,
  versions_of-register_all name ds (register_definition d r),
  versions_of-register_definition name d r,
  append_assoc (versions_of name r) (d.version ∷ []) (defined_versions name ds),
  append-nil (versions_of name r),
)

upcast_rounds-migrated :
    (name : Text) (ds : List EventDefinition) (m : Upcasters) (n v target : ℕ) (payload : Json)
    → ((w : ℕ) → find_upcaster w m ≡ or_before w (last_upcast name (suc w) ds) none)
    → v + n ≡ target
    → upcast_rounds n m payload v target ≡ migrated name ds n v payload
unfolding upcast_rounds
upcast_rounds-migrated name ds m zero v target payload h e = ground arith
upcast_rounds-migrated name ds m (suc n) v target payload h e =
    elim (Option-cases (last_upcast name (suc v) ds)) [
      | inl gone ↦ ground (arith, h v, gone)
      | inr (f, found) ↦ elim (Option-cases (f payload)) [
        | inl throws ↦ ground (arith, h v, found, throws)
        | inr (next, made) ↦
            let more = upcast_rounds-migrated name ds m n (suc v) target next h (omega arith) in
            ground (arith, h v, found, made, more)
      ]
    ]

-- What definitions, registered one after the other, make of the data of an event that is not
-- redacted: without a definition of the event nothing, and else the data is brought from its
-- version to the highest that is defined, one version at a time, each by the upcast to the next
-- version that was registered last; at the first version behind which there is none it throws, and
-- where one of them throws, that is let out. Data of the highest version and above stays.
pub upcast_event-migrated :
    (ds : List EventDefinition) (name : Text) (payload : Json) (from : ℕ)
    → is_redacted payload ≡ false
    → upcast_event (register_all ds create_event_definition_registry) name payload from
      ≡ elim (latest_of (defined_versions name ds)) [
        | none ↦ Upcasted.done payload
        | some latest ↦ migrated name ds (latest - from) from payload
      ]
unfolding upcast_event latest_version
upcast_event-migrated ds name payload from plain =
    let r = register_all ds create_event_definition_registry in
    let versions : versions_of name r ≡ defined_versions name ds =
      versions_of-register_all name ds create_event_definition_registry in
    elim (Option-cases (latest_of (defined_versions name ds))) [
      | inl gone ↦ ground (arith, versions, gone)
      | inr (latest, found) ↦
          let rounds = upcast-rounds r.upcaster_registry name payload from latest plain in
          elim (below_or_reached latest from) [
            | inl over ↦
                let none_left : latest - from ≡ 0 = omega arith in
                ground (arith, versions, found, none_left)
            | inr below ↦
                let same =
                  upcast_rounds-migrated name ds (upcasters_of name r.upcaster_registry)
                    (latest - from) from latest payload
                    (λ w. upcast_at-register_all name w ds create_event_definition_registry)
                    (omega arith) in
                ground (arith, versions, found, rounds, same)
          ]
    ]
