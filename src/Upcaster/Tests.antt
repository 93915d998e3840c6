-- ===== src/Upcaster/Tests.antt =====
-- Concrete registries (packages/core/src/upcaster.ts).
use ironflow_js.Prelude.{◌≡◌, refl, none, some, [], ◌∷◌, arith}
use ironflow_js.Durable.Text.{Text, text_eq}
use ironflow_js.Durable.Context.{map_get}
use ironflow_js.Upcaster.{
  Json, Elements, Fields, Upcaster, Registry, Upcasted, upcasters_of, upcast, find_upcaster,
  is_redacted, upcast_rounds,
}
use ironflow_js.Upcaster.Chain.{Ends, upcast-Ends}

abbrev placed : Text
placed = b'o' ∷ b'p' ∷ []

abbrev shipped : Text
shipped = b'o' ∷ b's' ∷ []

abbrev wrap : Upcaster
wrap = record { to_version = 2; fn = λ d. some (Json.array (Elements.cons d Elements.nil)) }

abbrev jump : Upcaster
jump = record { to_version = 4; fn = λ d. some (Json.object (Fields.field placed d Fields.end)) }

abbrev known : Registry
known = (placed, (1, wrap) ∷ (2, jump) ∷ []) ∷ []

abbrev old : Json
old = Json.string shipped

upcast-Ends_example : Ends (upcasters_of placed known) old 1 3 (upcast known placed old 1 3)
unfolding upcasters_of map_get text_eq is_redacted
upcast-Ends_example = upcast-Ends known placed old 1 3 (omega arith, (omega arith, tt)) refl

abbrev jumped : Json
jumped = Json.object (Fields.field placed (Json.array (Elements.cons old Elements.nil)) Fields.end)

-- The second upcaster goes past the target.
upcast_past : upcast known placed old 1 3 ≡ Upcasted.done jumped
unfolding upcast upcasters_of map_get text_eq is_redacted upcast_rounds find_upcaster
upcast_past = refl

abbrev throwing : Upcaster
throwing = record { to_version = 2; fn = λ d. none }

abbrev refusing : Registry
refusing = (placed, (1, throwing) ∷ []) ∷ []

upcast_throws : upcast refusing placed old 1 3 ≡ Upcasted.threw 1
unfolding upcast upcasters_of map_get text_eq is_redacted upcast_rounds find_upcaster
upcast_throws = refl
