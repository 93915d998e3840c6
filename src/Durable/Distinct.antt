-- ===== src/Durable/Distinct.antt =====
-- The ids that the steps of a run's scopes get (packages/node/src/internal/context.ts).
use ironflow_js.Prelude.{
  ℕ, Option, none, some, ◌+◌, ◌<◌, ◌≤◌, ◌≡◌, ◌≢◌, refl, ◌∙◌, sym, ap, false, inl, inr, Bool-cases,
  List, [], ◌∷◌, ◌++◌, All, arith,
}
use ironflow_js.Durable.Text.{Text, text_eq, text_eq_iff}
use ironflow_js.Durable.StepId.{Scope, segment, scope_id, escape_step_id_part}
use ironflow_js.Durable.StepId.Unique.{IsPlainName, step_ids_unique}
use ironflow_js.Durable.Context.{Context, generated_id, next_index, counted}
use ironflow_js.Upcaster.Registered.{map_get-map_set, map_get-map_set_other}
use ironflow_js.Durable.Legacy.{escaped_id}

scope_id-last :
    (prefix name : Text) (index : ℕ) (p : Scope)
    → scope_id prefix (p ++ (name, index) ∷ [])
      ≡ scope_id prefix p ++ segment (escape_step_id_part name) index
unfolding scope_id
scope_id-last prefix name index [] = refl
scope_id-last prefix name index ((n, i) ∷ p) =
    scope_id-last (prefix ++ segment (escape_step_id_part n) i) name index p

-- Where a step stands: its scope, with its own name and the index it gets.
abbrev place : Scope → Context → Text → Scope
place p c name = p ++ (name, next_index c name) ∷ []

generated_id-place :
    (run name : Text) (c : Context) (p : Scope)
    → c.completed_steps ≡ []
    → c.scope_prefix ≡ scope_id run p
    → generated_id c name ≡ scope_id run (place p c name)
generated_id-place run name c p fresh at =
    let made = escaped_id c name fresh in
    let last = scope_id-last run name (next_index c name) p in cc

-- In two scopes of a run without rows, or in one at two times, generateStepId answers the same id
-- only for the same scope, name and index, the names of the steps and of the parallels around them
-- beginning with neither "compensate:" nor "publish:".
generated_ids_distinct :
    (run n m : Text) (c d : Context) (p q : Scope)
    → c.completed_steps ≡ []
    → d.completed_steps ≡ []
    → c.scope_prefix ≡ scope_id run p
    → d.scope_prefix ≡ scope_id run q
    → All IsPlainName (place p c n)
    → All IsPlainName (place q d m)
    → generated_id c n ≡ generated_id d m
    → place p c n ≡ place q d m
generated_ids_distinct run n m c d p q fresh_c fresh_d at_c at_d plain_c plain_d e =
    step_ids_unique run (place p c n) (place q d m) plain_c plain_d (
      sym (generated_id-place run n c p fresh_c at_c)
      ∙ e
      ∙ generated_id-place run m d q fresh_d at_d)

-- The ids of steps that are started one after the other in a scope.
abbrev pub ids_of : Context → List Text → List Text
ids_of c [] = []
ids_of c (name ∷ names) = generated_id c name ∷ ids_of (counted c name) names

-- No element is among those behind it.
abbrev pub IsApart : List Text → Type 0
IsApart [] = Unit
IsApart (id ∷ ids) = All (λ (other : Text). id ≢ other) ids × IsApart ids

abbrev pub IsPlainText : Text → Type 0
IsPlainText name = IsPlainName (name, 0)

next_index-counted :
    (c : Context) (name : Text)
    → (next_index (counted c name) name ≡ next_index c name + 1)
      × ((other : Text)
          → text_eq other name ≡ false
          → next_index (counted c name) other ≡ next_index c other)
unfolding next_index counted
next_index-counted c name =
    let index : Option ℕ → ℕ = λ o. elim o [ none ↦ 0 | some n ↦ n ] in
    (
      ap index (map_get-map_set name (next_index c name + 1) c.step_counters),
      (λ other e.
          ap index (map_get-map_set_other other name (next_index c name + 1) c.step_counters e)),
    )

counted_grows : (c : Context) (name n : Text) → next_index c n ≤ next_index (counted c name) n
counted_grows c name n = elim (Bool-cases (text_eq n name)) [
  | inl same ↦
      let equal = (text_eq_iff n name).0 same in
      rw equal (let more = (next_index-counted c name).0 in omega arith)
  | inr other ↦ let kept = (next_index-counted c name).1 n other in omega arith
]

abbrev last_of : Scope → Text × ℕ
last_of [] = ([], 0)
last_of (x ∷ []) = x
last_of (x ∷ y ∷ p) = last_of (y ∷ p)

last_of-append : (p : Scope) (x : Text × ℕ) → last_of (p ++ x ∷ []) ≡ x
last_of-append [] x = refl
last_of-append (y ∷ []) x = refl
last_of-append (y ∷ z ∷ p) x = last_of-append (z ∷ p) x

place-IsPlain :
    (p : Scope) (c : Context) (n : Text)
    → All IsPlainName p
    → IsPlainText n
    → All IsPlainName (place p c n)
place-IsPlain [] c n h plain = (plain, tt)
place-IsPlain (x ∷ p) c n h plain = (h.0, place-IsPlain p c n h.1 plain)

-- A scope of a run without rows.
abbrev pub IsFresh : Text → Scope → Context → Type 0
IsFresh run p c = (c.completed_steps ≡ []) × (c.scope_prefix ≡ scope_id run p)

counted-IsFresh :
    (run : Text) (p : Scope) (c : Context) (n : Text)
    → IsFresh run p c
    → IsFresh run p (counted c n)
unfolding counted
counted-IsFresh run p c n h = h

module _ (run : Text) (p : Scope) (plain_p : All IsPlainName p) where
  later_ids_other :
      (n : Text) (c d : Context) (names : List Text)
      → IsPlainText n
      → IsFresh run p c
      → IsFresh run p d
      → next_index c n < next_index d n
      → All IsPlainText names
      → All (λ (other : Text). generated_id c n ≢ other) (ids_of d names)
  later_ids_other n c d [] plain at_c at_d less h = tt
  later_ids_other n c d (m ∷ names) plain at_c at_d less h = (
    (λ e.
        let placed =
          generated_ids_distinct run n m c d p p at_c.0 at_d.0 at_c.1 at_d.1
            (place-IsPlain p c n plain_p plain) (place-IsPlain p d m plain_p h.0) e in
        let ends : (n, next_index c n) ≡ (m, next_index d m) =
          sym (last_of-append p (n, next_index c n))
          ∙ ap last_of placed
          ∙ last_of-append p (m, next_index d m) in
        let name : n ≡ m = ap (λ (x : Text × ℕ). x.0) ends in
        let index : next_index c n ≡ next_index d m = ap (λ (x : Text × ℕ). x.1) ends in
        let same : next_index d n ≡ next_index d m = ap (next_index d) name in
        absurd (omega arith)),
    later_ids_other n c (counted d m) names plain at_c (counted-IsFresh run p d m at_d)
        (let grows = counted_grows d m n in omega arith) h.1,
  )

-- In a scope of a run without rows, the ids of any steps that are started one after the other
-- differ from one another, also those of steps with the same name, where neither their names nor
-- those of the parallels around them begin with "compensate:" or "publish:".
pub step_ids_never_repeat :
    (run : Text) (p : Scope) (c : Context) (names : List Text)
    → c.completed_steps ≡ []
    → c.scope_prefix ≡ scope_id run p
    → All IsPlainName p
    → All IsPlainText names
    → IsApart (ids_of c names)
step_ids_never_repeat run p c [] fresh at plain h = tt
step_ids_never_repeat run p c (n ∷ names) fresh at plain h =
    let later = counted-IsFresh run p c n (fresh, at) in
    (
      later_ids_other run p plain n c (counted c n) names h.0 (fresh, at) later
          (let more = (next_index-counted c n).0 in omega arith) h.1,
      step_ids_never_repeat run p (counted c n) names later.0 later.1 plain h.1,
    )
