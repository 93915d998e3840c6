-- ===== src/Agent/Paths.antt =====
-- packages/agent/src/sandbox/contain.ts, and `inside` and `enterable` of bashPolicy.ts: where a path
-- really leads. Paths are POSIX.
pub mod Within
pub mod Leads
pub mod Contained
use ironflow_js.Prelude.{
  ℕ, zero, suc, Bool, true, false, not, ◌&&◌, ◌||◌, Option, none, some, List, [], ◌∷◌, ◌++◌, any,
  ◌==◌, if◌then◌else◌,
}
use mathlib.Core.List.{reverse}
use ironflow_js.Durable.Text.{Text, text_eq}

-- An absolute path: its names, the innermost first. Where it has not been normalised they may be `.`
-- and `..`.
abbrev pub FilePath : Type 0
FilePath = List Text

abbrev pub slash : ℕ
slash = b'/'

abbrev pub dot : Text
dot = b'.' ∷ []

abbrev pub dot_dot : Text
dot_dot = b'.' ∷ b'.' ∷ []

-- What `realpath` and `lstat` answer: a path, ENOENT, or another error.
pub data Lookup : Type 0 where
  found : FilePath → Lookup
  missing : Lookup
  failing : Lookup

-- The file system, as node:fs/promises shows it. `can_enter` is `stat(p).isDirectory()` with
-- `access(p, X_OK)`, neither of them failing; `read_link` and `read_dir` may fail.
pub record FileSystem : Type 0 where
  pub realpath : FilePath → Lookup
  pub lstat : FilePath → Lookup
  pub read_link : FilePath → Option Text
  pub can_enter : FilePath → Bool
  pub read_dir : FilePath → Option (List Text)

-- `p.split('/')`.
unfoldable pub split_path : Text → List Text
split_path [] = [] ∷ []
split_path (c ∷ s) =
    let rest = split_path s in
    if c == slash
    then [] ∷ rest
    else elim rest [ [] ↦ (c ∷ []) ∷ [] | part ∷ parts ↦ (c ∷ part) ∷ parts ]

abbrev pub starts_with : ℕ → Text → Bool
starts_with c [] = false
starts_with c (d ∷ s) = d == c

unfoldable pub parent : FilePath → FilePath
parent [] = []
parent (name ∷ p) = p

-- One name of a path that is being resolved.
unfoldable pub enter : FilePath → Text → FilePath
unfolding text_eq parent
enter p name =
    if text_eq name [] || text_eq name dot
    then p
    else if text_eq name dot_dot
    then parent p
    else name ∷ p

unfoldable pub enter_all : FilePath → List Text → FilePath
unfolding enter
enter_all p [] = p
enter_all p (name ∷ names) = enter_all (enter p name) names

-- `resolve(base, p)` of node:path.
unfoldable pub resolve : FilePath → Text → FilePath
unfolding split_path enter_all
resolve base p = enter_all (if starts_with slash p then [] else base) (split_path p)

-- `realpathLoose`, with the hops that are left; `join(q, name)` is `enter q name`.
unfoldable pub realpath_loose : FileSystem → ℕ → FilePath → Option FilePath
unfolding resolve enter
realpath_loose fs zero [] = elim (fs.realpath []) [
  | found q ↦ some q
  | failing ↦ none
  | missing ↦ elim (fs.lstat []) [ found q ↦ none | failing ↦ none | missing ↦ some [] ]
]
realpath_loose fs zero (name ∷ p) = elim (fs.realpath (name ∷ p)) [
  | found q ↦ some q
  | failing ↦ none
  | missing ↦ elim (fs.lstat (name ∷ p)) [
    | found q ↦ none
    | failing ↦ none
    | missing ↦ elim (realpath_loose fs zero p) [ none ↦ none | some q ↦ some (enter q name) ]
  ]
]
realpath_loose fs (suc hops) [] = elim (fs.realpath []) [
  | found q ↦ some q
  | failing ↦ none
  | missing ↦ elim (fs.lstat []) [
    | failing ↦ none
    | missing ↦ some []
    | found q ↦ elim (realpath_loose fs hops []) [
      | none ↦ none
      | some base ↦ elim (fs.read_link []) [
        | none ↦ none
        | some link ↦ realpath_loose fs hops (resolve base link)
      ]
    ]
  ]
]
realpath_loose fs (suc hops) (name ∷ p) = elim (fs.realpath (name ∷ p)) [
  | found q ↦ some q
  | failing ↦ none
  | missing ↦ elim (fs.lstat (name ∷ p)) [
    | failing ↦ none
    | missing ↦ elim (realpath_loose fs (suc hops) p) [ none ↦ none | some q ↦ some (enter q name) ]
    | found q ↦ elim (realpath_loose fs hops p) [
      | none ↦ none
      | some base ↦ elim (fs.read_link (name ∷ p)) [
        | none ↦ none
        | some link ↦ realpath_loose fs hops (resolve base link)
      ]
    ]
  ]
]

abbrev pub max_link_hops : ℕ
max_link_hops = 40

-- `..` for each name, in front of the rest.
unfoldable pub up : List Text → List Text → List Text
up [] rest = rest
up (name ∷ names) rest = dot_dot ∷ up names rest

-- `relative` of node:path, the names from the outermost on.
unfoldable pub relative : List Text → List Text → List Text
unfolding text_eq up
relative [] p = p
relative (a ∷ root) [] = up (a ∷ root) []
relative (a ∷ root) (b ∷ p) = if text_eq a b then relative root p else up (a ∷ root) (b ∷ p)

unfoldable pub stays : List Text → Bool
unfolding text_eq
stays [] = true
stays (name ∷ rest) = not (text_eq name dot_dot)

unfoldable pub within : FilePath → FilePath → Bool
unfolding relative stays
within root p = stays (relative (reverse root) (reverse p))

-- The checks of `resolveInside` on the agent's home; none where it throws.
unfoldable pub outside_home : FileSystem → Option FilePath → Bool → FilePath → Option FilePath
unfolding realpath_loose within
outside_home fs none search target = some target
outside_home fs (some home) search target = elim (realpath_loose fs max_link_hops home) [
  | none ↦ none
  | some h ↦ if within h target || (search && within target h) then none else some target
]

-- `resolveInside` on an absolute path, as it stands; none where it throws.
unfoldable pub resolve_inside_at :
    FileSystem → FilePath → FilePath → Option FilePath → Bool → Option FilePath
unfolding realpath_loose within outside_home
resolve_inside_at fs cwd p home search = elim (fs.realpath cwd) [
  | found root ↦ elim (realpath_loose fs max_link_hops p) [
    | none ↦ none
    | some target ↦ if within root target then outside_home fs home search target else none
  ]
  | _ ↦ none
]

-- The names of an absolute path as they stand. An empty one, between two slashes, is left out.
unfoldable pub names_from : FilePath → List Text → FilePath
unfolding text_eq
names_from p [] = p
names_from p (name ∷ names) = names_from (if text_eq name [] then p else name ∷ p) names

-- `isAbsolute(p) ? p : resolve(cwd, p)`.
unfoldable pub asked_path : FilePath → Text → FilePath
unfolding split_path names_from resolve
asked_path cwd p = if starts_with slash p then names_from [] (split_path p) else resolve cwd p

unfoldable pub resolve_inside :
    FileSystem → FilePath → Text → Option FilePath → Bool → Option FilePath
unfolding asked_path resolve_inside_at
resolve_inside fs cwd p home search = resolve_inside_at fs cwd (asked_path cwd p) home search

-- What the agent works in: `workspace` and `home`.
pub record Place : Type 0 where
  pub workspace : FilePath
  pub home : Option FilePath

unfoldable pub inside : FileSystem → Place → FilePath → Text → Bool
unfolding split_path text_eq resolve resolve_inside_at
inside fs w base p =
    if any (text_eq dot_dot) (split_path p)
    then false
    else elim (resolve_inside_at fs w.workspace (resolve base p) w.home true) [
      | none ↦ false
      | some target ↦ true
    ]

unfoldable pub enterable : FileSystem → Place → FilePath → Text → Option FilePath
unfolding inside resolve
enterable fs w base p =
    if not (inside fs w base p)
    then none
    else if fs.can_enter (resolve base p)
    then some (resolve base p)
    else none
