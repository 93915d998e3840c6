-- ===== src/Upcaster/Chain.antt =====
-- The chain of upcasters that `upcast` follows, and when it ends (packages/core/src/upcaster.ts).
use ironflow_js.Prelude.{
  ℕ, zero, suc, ◌-◌, ◌<◌, ◌≤◌, ◌≡◌, ◌⊎◌, inl, inr, false, none, some, [], ◌∷◌, Option-cases, All,
  arith,
}
use ironflow_js.Durable.Text.{Text}
use ironflow_js.Upcaster.{
  Json, Upcaster, Upcasters, Registry, Upcasted, find_upcaster, upcasters_of, upcast_rounds, upcast,
  is_redacted,
}

-- Data at a version leads to data at another by the registered upcasters, each of them applied
-- below the target only.
pub data Chain (m : Upcasters) (target : ℕ) : ℕ → Json → ℕ → Json → Type 0 where
  here : {v : ℕ} {d : Json} → Chain m target v d v d
  via :
      {v w : ℕ} {d e f : Json} (u : Upcaster)
      → v < target
      → find_upcaster v m ≡ some u
      → u.fn d ≡ some e
      → Chain m target u.to_version e w f
      → Chain m target v d w f

-- Every upcaster raises the version.
abbrev pub IsRising : Upcasters → Type 0
IsRising m = All (λ (p : ℕ × Upcaster). p.0 < p.1.to_version) m

find_upcaster-rises :
    (v : ℕ) (m : Upcasters) (u : Upcaster)
    → IsRising m
    → find_upcaster v m ≡ some u
    → v < u.to_version
unfolding find_upcaster
find_upcaster-rises v [] u h e = ground arith
find_upcaster-rises v ((from, t) ∷ m) u h e = ground (arith, find_upcaster-rises v m u h.1)

-- How an upcast ends: at the end of a chain that reached the target, or at a version below it
-- that the chain reached and that has no upcaster, or one that throws on the data there.
abbrev pub Ends : Upcasters → Json → ℕ → ℕ → Upcasted → Type 0
Ends m d v target r =
    ((w : ℕ) × (e : Json) × (r ≡ Upcasted.done e) × (target ≤ w) × Chain m target v d w e)
    ⊎ (((w : ℕ) × (e : Json) × (r ≡ Upcasted.broken w)
          × (w < target)
          × (find_upcaster w m ≡ none)
          × Chain m target v d w e)
        ⊎ ((w : ℕ) × (e : Json) × (u : Upcaster) × (r ≡ Upcasted.threw w)
            × (w < target)
            × (find_upcaster w m ≡ some u)
            × (u.fn e ≡ none)
            × Chain m target v d w e))

Ends-via :
    (m : Upcasters) (d n : Json) (v target : ℕ) (u : Upcaster) (r : Upcasted)
    → v < target
    → find_upcaster v m ≡ some u
    → u.fn d ≡ some n
    → Ends m n u.to_version target r
    → Ends m d v target r
Ends-via m d n v target u r lt found made (inl (w, e, q, le, c)) =
    inl (w, e, q, le, Chain.via u lt found made c)
Ends-via m d n v target u r lt found made (inr (inl (w, e, q, less, gone, c))) =
    inr (inl (w, e, q, less, gone, Chain.via u lt found made c))
Ends-via m d n v target u r lt found made (inr (inr (w, e, t, q, less, there, throws, c))) =
    inr (inr (w, e, t, q, less, there, throws, Chain.via u lt found made c))

upcast_rounds-reached :
    (rounds : ℕ) (m : Upcasters) (d : Json) (v target : ℕ)
    → target ≤ v
    → upcast_rounds rounds m d v target ≡ Upcasted.done d
unfolding upcast_rounds
upcast_rounds-reached zero m d v target le = ground arith
upcast_rounds-reached (suc rounds) m d v target le = ground arith

upcast_rounds-broken :
    (rounds : ℕ) (m : Upcasters) (d : Json) (v target : ℕ)
    → v < target
    → find_upcaster v m ≡ none
    → upcast_rounds (suc rounds) m d v target ≡ Upcasted.broken v
unfolding upcast_rounds
upcast_rounds-broken rounds m d v target lt gone = ground arith

upcast_rounds-threw :
    (rounds : ℕ) (m : Upcasters) (d : Json) (v target : ℕ) (u : Upcaster)
    → v < target
    → find_upcaster v m ≡ some u
    → u.fn d ≡ none
    → upcast_rounds (suc rounds) m d v target ≡ Upcasted.threw v
unfolding upcast_rounds
upcast_rounds-threw rounds m d v target u lt found throws = ground arith

upcast_rounds-goes :
    (rounds : ℕ) (m : Upcasters) (d n : Json) (v target : ℕ) (u : Upcaster)
    → v < target
    → find_upcaster v m ≡ some u
    → u.fn d ≡ some n
    → upcast_rounds (suc rounds) m d v target ≡ upcast_rounds rounds m n u.to_version target
unfolding upcast_rounds
upcast_rounds-goes rounds m d n v target u lt found made = ground arith

pub below_or_reached : (target v : ℕ) → (target ≤ v) ⊎ (v < target)
below_or_reached target v = ground arith

upcast_rounds-Ends :
    (rounds : ℕ) (m : Upcasters) (d : Json) (v target : ℕ)
    → IsRising m
    → target - v ≤ rounds
    → Ends m d v target (upcast_rounds rounds m d v target)
upcast_rounds-Ends zero m d v target rising enough =
    inl (v, d, upcast_rounds-reached zero m d v target (omega arith), omega arith, Chain.here)
upcast_rounds-Ends (suc rounds) m d v target rising enough = elim (below_or_reached target v) [
  | inl le ↦ inl (v, d, upcast_rounds-reached (suc rounds) m d v target le, le, Chain.here)
  | inr lt ↦ elim (Option-cases (find_upcaster v m)) [
    | inl gone ↦
        inr (inl (v, d, upcast_rounds-broken rounds m d v target lt gone, lt, gone, Chain.here))
    | inr (u, found) ↦ elim (Option-cases (u.fn d)) [
      | inl throws ↦
          let thrown = upcast_rounds-threw rounds m d v target u lt found throws in
          inr (inr (v, d, u, thrown, lt, found, throws, Chain.here))
      | inr (n, made) ↦
          let rises = find_upcaster-rises v m u rising found in
          rw (upcast_rounds-goes rounds m d n v target u lt found made) (
            Ends-via m d n v target u _ lt found made
              (upcast_rounds-Ends rounds m n u.to_version target rising (omega arith)))
    ]
  ]
]

pub upcast-rounds :
    (r : Registry) (event : Text) (d : Json) (from target : ℕ)
    → is_redacted d ≡ false
    → upcast r event d from target
      ≡ upcast_rounds (target - from) (upcasters_of event r) d from target
unfolding upcast
upcast-rounds r event d from target plain =
    ground (arith, upcast_rounds-reached (target - from) (upcasters_of event r) d from target)

-- Where every upcaster of the event raises the version, the upcast of data that is not redacted
-- ends: with what a chain of the event's upcasters makes of the data, at the target or above, or
-- at a version below the target that a chain reaches and that has no upcaster, or whose upcaster
-- throws on the data there.
pub upcast-Ends :
    (r : Registry) (event : Text) (d : Json) (from target : ℕ)
    → IsRising (upcasters_of event r)
    → is_redacted d ≡ false
    → Ends (upcasters_of event r) d from target (upcast r event d from target)
upcast-Ends r event d from target rising plain =
    rw (upcast-rounds r event d from target plain)
      (upcast_rounds-Ends (target - from) (upcasters_of event r) d from target rising (omega arith))

-- An upcaster registered from a version below the target to the same version, and that throws on
-- nothing, keeps the loop going for any number of rounds.
pub upcast_never_ends :
    (rounds : ℕ) (m : Upcasters) (u : Upcaster) (f : Json → Json) (d : Json) (v target : ℕ)
    → find_upcaster v m ≡ some u
    → ((e : Json) → u.fn e ≡ some (f e))
    → u.to_version ≡ v
    → v < target
    → upcast_rounds rounds m d v target ≡ Upcasted.unfinished
unfolding upcast_rounds
upcast_never_ends zero m u f d v target found total same lt = ground arith
upcast_never_ends (suc rounds) m u f d v target found total same lt =
    let next = upcast_never_ends rounds m u f (f d) v target found total same lt in
    let goes = upcast_rounds-goes rounds m d (f d) v target u lt found (total d) in cc
