-- ===== src/Agent/Tests.antt =====
-- packages/agent/src at work: permissions.ts, bashPolicy.ts and sandbox/contain.ts on concrete
-- commands, calls and a small file system.
use ironflow_js.Prelude.{ℕ, ◌≡◌, ◌≢◌, refl, true, false, none, some, List, [], ◌∷◌, if◌then◌else◌}
use ironflow_js.Durable.Text.{Text, codes, text_eq}
use ironflow_js.Agent.Shell.{Parsed, parse_words}
use ironflow_js.Agent.Shell.Total.{parse_words-ne-out_of_fuel}
use ironflow_js.Agent.Shell.RoundTrip.{
  write_pipelines, pipelines_of, IsCommandLine, parse_words-write_pipelines,
}
use ironflow_js.Agent.Shell.Expansion.{expansion_refused}
use ironflow_js.Agent.Paths.{
  FilePath, FileSystem, Lookup, found, missing, failing, Place, resolve_inside, realpath_loose,
  inside, max_link_hops, dot,
}
use ironflow_js.Agent.Paths.Within.{IsPlain}
use ironflow_js.Agent.Paths.Leads.{Leads}
use ironflow_js.Agent.Specs.{Spec, plain_spec, property, Property, find_primaries}
use ironflow_js.Agent.Flags.{Split, split_args}
use ironflow_js.Agent.ReadOnly.{is_read_only}
use ironflow_js.Agent.Gate.{Request, Outcome, Event, run, new_gate, bash}
use ironflow_js.Agent.Gate.Grants.{IsJustified}
use ironflow_js.Agent.Gate.Runs.{calls-IsJustified}

parse_words-ne-out_of_fuel_example : parse_words (codes "ls -l") ≢ Parsed.out_of_fuel
parse_words-ne-out_of_fuel_example = parse_words-ne-out_of_fuel (codes "ls -l")

-- 'ls' 'a;b' | 'wc' && 'pwd'
abbrev listed : List (List (List Text))
listed = ((codes "ls" ∷ codes "a;b" ∷ []) ∷ (codes "wc" ∷ []) ∷ []) ∷ ((codes "pwd" ∷ []) ∷ []) ∷ []

listed-IsCommandLine : IsCommandLine listed
listed-IsCommandLine = (((refl, (refl, tt)), ((refl, tt), tt)), (((refl, tt), tt), tt))

parse_words-write_pipelines_example :
    parse_words (write_pipelines listed) ≡ Parsed.parsed (pipelines_of listed)
parse_words-write_pipelines_example = parse_words-write_pipelines listed listed-IsCommandLine

expansion_refused_example : parse_words (codes "cat \"$HOME\"") ≡ Parsed.refused
expansion_refused_example = expansion_refused (codes "cat \"$HOME\"") (refl, refl)

-- A folder `work` in which `link` leads to `home`, and a folder `home`, at the root.
abbrev work : FilePath
work = codes "work" ∷ []

abbrev home_folder : FilePath
home_folder = codes "home" ∷ []

abbrev link : FilePath
link = codes "link" ∷ work

unfoldable real_path : FilePath → Lookup
unfolding text_eq
real_path [] = found []
real_path (name ∷ []) =
    if text_eq name (codes "work")
    then found work
    else if text_eq name (codes "home")
    then found home_folder
    else missing
real_path (name ∷ folder ∷ []) = if text_eq name (codes "link") then found home_folder else missing
real_path (name ∷ folder ∷ up ∷ p) = missing

abbrev disk : FileSystem
disk = record {
  realpath = real_path;
  lstat = λ p. elim (real_path p) [ found q ↦ found p | missing ↦ missing | failing ↦ failing ];
  read_link = λ p. some (codes "/home");
  can_enter = λ p. true;
  read_dir = λ p. some [];
}

-- A folder's real path has plain names only.
abbrev IsPlainFound : Lookup → Type 0
IsPlainFound (found q) = IsPlain q
IsPlainFound missing = Unit
IsPlainFound failing = Unit

abbrev file : FilePath
file = codes "file" ∷ work

work-IsPlain : IsPlain work
unfolding text_eq
work-IsPlain = (refl, tt)

home-IsPlain : IsPlain home_folder
unfolding text_eq
home-IsPlain = (refl, tt)

link_refused : resolve_inside disk work (codes "link") none false ≡ none
unfolding resolve_inside real_path
link_refused = refl

-- `..` in an absolute path that is taken as it stands leads up.
up_refused : resolve_inside disk work (codes "/work/../home") none false ≡ none
unfolding resolve_inside real_path
up_refused = refl

home_found : realpath_loose disk max_link_hops home_folder ≡ some home_folder
unfolding realpath_loose real_path
home_found = refl

-- `sort -ro`: -o writes a file.
abbrev sort_spec : Spec
sort_spec = plain_spec (codes "rnufbdhV") (codes "kt")

abbrev sort_split : Split
sort_split = record { flags = codes "rn"; operands = codes "file" ∷ [] }

sort_splits : split_args sort_spec (codes "-r" ∷ codes "-n" ∷ codes "file" ∷ []) ≡ some sort_split
unfolding split_args
sort_splits = refl

abbrev place : Place
place = record { workspace = work; home = some home_folder }

constructor_inherited : property (codes "constructor") find_primaries ≡ Property.inherited
unfolding property
constructor_inherited = refl

work-inside : inside disk place work dot ≡ true
unfolding inside real_path
work-inside = refl

-- A name that every object literal inherits passes for a primary and ends the loop over the others.
find_inherited_approved : is_read_only disk place (codes "find -print constructor -delete") ≡ true
unfolding is_read_only real_path
find_inherited_approved = refl

find_delete_refused : is_read_only disk place (codes "find -print -delete") ≡ false
unfolding is_read_only real_path
find_delete_refused = refl

-- The file is read with cat and its lines are sorted, and nothing outside of the folder.
abbrev line : Text
line = codes "cd . && cat file | sort -n && ls"

link_asked : is_read_only disk place (codes "cat link") ≡ false
unfolding is_read_only real_path
link_asked = refl

-- A command of bash is allowed for the session and then asked for again; a write is refused.
abbrev deploy : ℕ → Request
deploy n = record { id = n; tool = bash; command = some (codes "make deploy") }

abbrev write_call : Request
write_call = record { id = 3; tool = codes "write"; command = none }

abbrev history : List Event
history =
    Event.checks (deploy 1)
    ∷ Event.judges false (deploy 1)
    ∷ Event.answers Outcome.allow_always (deploy 1)
    ∷ Event.checks (deploy 2)
    ∷ Event.judges false (deploy 2)
    ∷ Event.checks write_call
    ∷ Event.cancels
    ∷ []

granted_once : (run history new_gate).allowed ≡ deploy 1 ∷ deploy 2 ∷ []
unfolding run
granted_once = refl

calls-IsJustified_example : IsJustified (run history new_gate)
calls-IsJustified_example = calls-IsJustified history
