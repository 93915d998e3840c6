-- ===== src/Agent/Paths/Within.antt =====
-- What lies within a folder, and where resolveInside can lead
-- (packages/agent/src/sandbox/contain.ts).
use ironflow_js.Prelude.{
  of_false_eq_true, ◌≡◌, refl, sym, ap, ◌∙◌, true, false, List, [], ◌∷◌, ◌++◌, All, All-append,
  arith, Bool-cases, inl, inr,
}
use mathlib.Core.Path.{subst}
use mathlib.Core.List.{reverse, reverse-append, reverse-reverse}
use ironflow_js.Durable.Text.{Text, text_eq, text_eq_iff}
use ironflow_js.Agent.Paths.{FilePath, dot_dot, relative, up, stays, within, enter, parent}

-- A path without "..".
abbrev pub IsPlain : FilePath → Type 0
IsPlain p = All (λ (name : Text). text_eq name dot_dot ≡ false) p

stays-relative :
    (root p : List Text) → stays (relative root p) ≡ true → (rest : List Text) × (p ≡ root ++ rest)
unfolding relative stays up
stays-relative [] p h = (p, refl)
stays-relative (a ∷ root) [] h = of_false_eq_true h
stays-relative (a ∷ root) (b ∷ p) h = elim (Bool-cases (text_eq a b)) [
  | inl same ↦
      let behind = stays-relative root p (rw same at h) in
      let equal = (text_eq_iff a b).0 same in (behind.0, cc (behind.1, equal))
  | inr other ↦ of_false_eq_true (rw other at h)
]

relative-append : (root rest : List Text) → relative root (root ++ rest) ≡ rest
unfolding relative
relative-append [] rest = refl
relative-append (a ∷ root) rest = ground (arith, text_eq_iff a a, relative-append root rest)

IsPlain-stays : (p : FilePath) → IsPlain p → stays p ≡ true
unfolding stays
IsPlain-stays [] h = refl
IsPlain-stays (name ∷ p) h = ground arith

IsPlain-append : (p q : FilePath) → IsPlain p → IsPlain q → IsPlain (p ++ q)
IsPlain-append p q hp hq = All-append (λ (name : Text). text_eq name dot_dot ≡ false) p q hp hq

IsPlain-reverse : (p : FilePath) → IsPlain p → IsPlain (reverse p)
IsPlain-reverse [] h = tt
IsPlain-reverse (name ∷ p) h =
    subst IsPlain (sym (reverse-append (name ∷ []) p))
      (IsPlain-append (reverse p) (name ∷ []) (IsPlain-reverse p h.1) (h.0, tt))

IsPlain-front : (p q : FilePath) → IsPlain (p ++ q) → IsPlain p
IsPlain-front [] q h = tt
IsPlain-front (name ∷ p) q h = (h.0, IsPlain-front p q h.1)

-- A path without ".." is within a folder exactly when it is the folder's path with names below it.
pub within_iff :
    (root p : FilePath)
    → IsPlain p
    → (within root p ≡ true → (rest : FilePath) × (p ≡ rest ++ root))
      × ((rest : FilePath) → p ≡ rest ++ root → within root p ≡ true)
unfolding within
within_iff root p plain = (
  (λ h.
      let behind = stays-relative (reverse root) (reverse p) h in
      (
        reverse behind.0,
        sym (reverse-reverse p)
            ∙ ap reverse behind.1
            ∙ reverse-append (reverse root) behind.0
            ∙ ap (λ (l : FilePath). reverse behind.0 ++ l) (reverse-reverse root),
      )),
  (λ rest e.
      rw (e, reverse-append rest root, relative-append (reverse root) (reverse rest))
        (IsPlain-stays (reverse rest)
          (IsPlain-reverse rest (IsPlain-front rest root (subst IsPlain e plain))))),
)

pub enter-IsPlain : (p : FilePath) (name : Text) → IsPlain p → IsPlain (enter p name)
unfolding enter parent
enter-IsPlain [] name h = ground arith
enter-IsPlain (n ∷ p) name h = ground arith
