-- ===== src/Upcaster/Registered.antt =====
-- What registration changes (packages/core/src/upcaster.ts).
use ironflow_js.Prelude.{ℕ, ◌≡◌, true, false, some, List, [], ◌∷◌, ◌==◌, if◌then◌else◌, arith}
use ironflow_js.Durable.Text.{Text, text_eq, text_eq_iff}
use ironflow_js.Durable.Context.{map_get, map_set}
use ironflow_js.Upcaster.{
  Upcaster, Upcasters, Registry, find_upcaster, set_upcaster, upcasters_of, register,
}

find_upcaster-set_upcaster :
    (v from : ℕ) (u : Upcaster) (m : Upcasters)
    → find_upcaster v (set_upcaster from u m) ≡ (if from == v then some u else find_upcaster v m)
unfolding find_upcaster set_upcaster
find_upcaster-set_upcaster v from u [] = ground arith
find_upcaster-set_upcaster v from u ((w, t) ∷ m) =
    ground (arith, find_upcaster-set_upcaster v from u m)

text_eq_other : (a b c : Text) → text_eq a b ≡ true → text_eq c a ≡ false → text_eq c b ≡ false
text_eq_other a b c e f = ground (arith, text_eq_iff a b, text_eq_iff c a, text_eq_iff c b)

pub map_get-map_set :
    {A : Type 0} (event : Text) (m : A) (r : List (Text × A))
    → map_get event (map_set event m r) ≡ some m
unfolding map_get map_set
map_get-map_set event m [] = ground (arith, text_eq_iff event event)
map_get-map_set event m ((key, n) ∷ r) =
    ground (arith, text_eq_iff event event, map_get-map_set event m r)

pub map_get-map_set_other :
    {A : Type 0} (other event : Text) (m : A) (r : List (Text × A))
    → text_eq other event ≡ false
    → map_get other (map_set event m r) ≡ map_get other r
unfolding map_get map_set
map_get-map_set_other other event m [] h = ground arith
map_get-map_set_other other event m ((key, n) ∷ r) h =
    ground (arith, text_eq_other event key other, map_get-map_set_other other event m r h)

upcasters_of-register :
    (event : Text) (from : ℕ) (u : Upcaster) (r : Registry)
    → upcasters_of event (register event from u r) ≡ set_upcaster from u (upcasters_of event r)
unfolding register upcasters_of
upcasters_of-register event from u r =
    ground (arith, map_get-map_set event (set_upcaster from u (upcasters_of event r)) r)

upcasters_of-register_other :
    (other event : Text) (from : ℕ) (u : Upcaster) (r : Registry)
    → text_eq other event ≡ false
    → upcasters_of other (register event from u r) ≡ upcasters_of other r
unfolding register upcasters_of
upcasters_of-register_other other event from u r h =
    ground
      (arith, map_get-map_set_other other event (set_upcaster from u (upcasters_of event r)) r h)

-- After a registration the event's upcaster from that version is the registered one, those from
-- its other versions are as before, and so are the upcasters of every other event.
pub register_replaces :
    (event other : Text) (from v : ℕ) (u : Upcaster) (r : Registry)
    → (find_upcaster v (upcasters_of event (register event from u r))
        ≡ (if from == v then some u else find_upcaster v (upcasters_of event r)))
      × (text_eq other event ≡ false
          → upcasters_of other (register event from u r) ≡ upcasters_of other r)
register_replaces event other from v u r = (
  rw (upcasters_of-register event from u r)
      (find_upcaster-set_upcaster v from u (upcasters_of event r)),
  upcasters_of-register_other other event from u r,
)
