-- ===== src/Durable/StepId.antt =====
-- Step ids (packages/node/src/internal/context.ts): `run:name:index`, with a scope
-- `parallel:branch` for each parallel branch in between, each name escaped.
pub mod Unique
use ironflow_js.Prelude.{ℕ, Option, none, some, List, [], ◌∷◌, ◌++◌}
use ironflow_js.Durable.Text.{Text, colon, backslash, prefix_each, strip_prefix, decimal}

unfoldable pub escape_raw : Text → Text
unfolding prefix_each
escape_raw part = prefix_each colon (prefix_each backslash part)

-- "compensate:" and "publish:".
abbrev pub compensate_ns : Text
compensate_ns = b'c' ∷ b'o' ∷ b'm' ∷ b'p' ∷ b'e' ∷ b'n' ∷ b's' ∷ b'a' ∷ b't' ∷ b'e' ∷ b':' ∷ []

abbrev pub publish_ns : Text
publish_ns = b'p' ∷ b'u' ∷ b'b' ∷ b'l' ∷ b'i' ∷ b's' ∷ b'h' ∷ b':' ∷ []

abbrev pub step_id_namespaces : List Text
step_id_namespaces = compensate_ns ∷ publish_ns ∷ []

unfoldable pub escape_in : List Text → Text → Text
unfolding escape_raw strip_prefix
escape_in [] part = escape_raw part
escape_in (ns ∷ more) part =
    let rest = escape_in more part in
    elim (strip_prefix ns part) [ some leaf ↦ ns ++ escape_raw leaf | none ↦ rest ]

unfoldable pub escape_step_id_part : Text → Text
unfolding escape_in
escape_step_id_part part = escape_in step_id_namespaces part

-- A scope: the names and branch indices of the parallels around a step.
abbrev pub Scope : Type 0
Scope = List (Text × ℕ)

abbrev pub segment : Text → ℕ → Text
segment name index = colon ∷ name ++ colon ∷ decimal index

-- `${prefix}:${escape(name)}:${index}` from the run's prefix on, a segment for each level.
unfoldable pub scope_id : Text → Scope → Text
unfolding escape_step_id_part decimal
scope_id prefix [] = prefix
scope_id prefix ((name, index) ∷ inner) =
    scope_id (prefix ++ segment (escape_step_id_part name) index) inner

-- The same without escaping, as a run wrote it that began before escaping was introduced.
unfoldable pub legacy_scope_id : Text → Scope → Text
unfolding decimal
legacy_scope_id prefix [] = prefix
legacy_scope_id prefix ((name, index) ∷ inner) =
    legacy_scope_id (prefix ++ segment name index) inner
