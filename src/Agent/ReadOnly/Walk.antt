-- ===== src/Agent/ReadOnly/Walk.antt =====
-- What an approved command line reads, command after command (packages/agent/src/bashPolicy.ts).
use ironflow_js.Prelude.{◌≡◌, Bool, true, false, not, ◌||◌, some, List, [], ◌∷◌, any}
use ironflow_js.Durable.Text.{Text, codes, text_eq}
use ironflow_js.Agent.Shell.{Word, Pipelines}
use ironflow_js.Agent.Paths.{FilePath, FileSystem, Place, resolve, starts_with}
use ironflow_js.Agent.Flags.{dash}
use ironflow_js.Agent.Glob.{expand}
use ironflow_js.Agent.ReadOnly.{rest_of}
use ironflow_js.Agent.ReadOnly.Contained.{is_special, LeadsInside, OperandsInside}
use ironflow_js.Agent.ReadOnly.Searched.{SearchesInside, PrintsInside}

-- find searches folders that lead into the workspace. sed prints lines of files that lead there. Of
-- another program, but cd, echo and which, the arguments split, and every operand but `-` leads there.
abbrev pub ReadsInside : FileSystem → Place → FilePath → List Text → Type 0
ReadsInside fs w base words =
    (program : Text) (args : List Text)
    → words ≡ program ∷ args
    → (is_special program ≡ false → OperandsInside fs w base program args)
      × (program ≡ codes "find" → SearchesInside fs w base args)
      × (program ≡ codes "sed" → PrintsInside fs w base args)

-- The folder that the shell is in behind a command. Only `cd` with one operand, which is no flag,
-- changes it, alone in its pipeline, to a folder that leads into the workspace and can be entered.
pub data Goes (fs : FileSystem) (w : Place) (alone : Bool)
    : FilePath → List Text → FilePath → Type 0 where
  changes :
      {base : FilePath} {program p : Text}
      → text_eq program (codes "cd") ≡ true
      → (not alone || starts_with dash p) ≡ false
      → LeadsInside fs w base p
      → fs.can_enter (resolve base p) ≡ true
      → Goes fs w alone base (program ∷ p ∷ []) (resolve base p)
  remains :
      {base : FilePath} {program : Text} {args : List Text}
      → text_eq program (codes "cd") ≡ false
      → Goes fs w alone base (program ∷ args) base

-- The commands one after the other, each in the folder to which those in front of it have led.
pub data Walk (fs : FileSystem) (w : Place) (alone : Bool)
    : FilePath → List (List Word) → FilePath → Type 0 where
  stays : {base : FilePath} → Walk fs w alone base [] base
  runs :
      {base next last : FilePath} {segment : List Word} {segments : List (List Word)}
      (words : List Text)
      → expand fs w base segment ≡ some words
      → ReadsInside fs w base words
      → Goes fs w alone base words next
      → Walk fs w alone next segments last
      → Walk fs w alone base (segment ∷ segments) last

-- A pipeline of one command.
abbrev pub is_alone : List (List Word) → Bool
is_alone pipeline = not (any (λ s. true) (rest_of pipeline))

pub data Walks (fs : FileSystem) (w : Place) : FilePath → Pipelines → Type 0 where
  ends : {base : FilePath} → Walks fs w base []
  goes :
      {base next : FilePath} {pipeline : List (List Word)} {pipelines : Pipelines}
      → Walk fs w (is_alone pipeline) base pipeline next
      → Walks fs w next pipelines
      → Walks fs w base (pipeline ∷ pipelines)
