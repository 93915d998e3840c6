-- ===== src/Durable/Parallel.antt =====
-- executeParallel of packages/node/src/step.ts: branches that run at the same time, and how their
-- ends become one answer.
pub mod Limit
mod Slots
mod Sound
pub mod Complete
mod Tests
use ironflow_js.Prelude.{
  ℕ, zero, suc, ◌+◌, ◌-◌, Bool, true, false, not, ◌&&◌, ◌||◌, Option, none, some, List, [], ◌∷◌,
  ◌++◌, any, filter, length, ◌==◌, leb, ltb, if◌then◌else◌,
}
use ironflow_js.Durable.Context.{Payload, YieldInfo, Result}

pub data OnError : Type 0 where
  fail_fast : OnError
  all_settled : OnError

-- `concurrency` is 0 where the option is none, 0 or negative.
pub record Options : Type 0 where
  pub concurrency : ℕ
  pub on_error : OnError

-- What executeBranch keeps of a branch: its result, an error, or a YieldSignal. A result that is
-- itself an Error counts as an error.
pub data Ending : Type 0 where
  value : Payload → Ending
  error : Result → Ending
  swallowed : Ending
  signal : YieldInfo → Ending

pub data Answer : Type 0 where
  values : List (Option Ending) → Answer
  failed : Result → Answer
  swallowed : Answer
  yielded : YieldInfo → Answer

-- In the loop behind the await of a race, in it, in the await of all promises, or behind it.
pub data Phase : Type 0 where
  racing : Phase
  woken : Phase
  awaiting_all : Phase
  ended : Answer → Phase

-- `slots` are `results` and `yieldSignals`, `done` says whose promise is settled, and `pending` are
-- the promises that the loop or the await of all of them waits for.
pub record Fan : Type 0 where
  pub slots : ℕ → Option Ending
  pub done : ℕ → Bool
  pub next : ℕ
  pub pending : List ℕ
  pub cancelled : Bool
  pub phase : Phase

abbrev pub put {ℓ} : {A : Type ℓ} → (ℕ → A) → ℕ → A → ℕ → A
put f i a j = if j == i then a else f j

-- What a branch function returned or threw, with whether its scope's guard throws behind it.
unfoldable pub ending : Bool → Result → Ending
ending guard (Result.yielded info) = Ending.signal info
ending true r = Ending.swallowed
ending false (Result.ok p) = Ending.value p
ending false Result.swallowed = Ending.swallowed
ending false Result.aborted = Ending.error Result.aborted
ending false Result.invalid = Ending.error Result.invalid
ending false Result.type_error = Ending.error Result.type_error
ending false (Result.step_error id e) = Ending.error (Result.step_error id e)
ending false (Result.invoke_error id e) = Ending.error (Result.invoke_error id e)

abbrev pub is_fast : OnError → Bool
is_fast OnError.fail_fast = true
is_fast OnError.all_settled = false

unfoldable pub cancels : OnError → Ending → Bool
cancels o (Ending.value p) = false
cancels o (Ending.error r) = is_fast o
cancels o Ending.swallowed = is_fast o
cancels o (Ending.signal info) = true

unfoldable pub end_branch : OnError → ℕ → Ending → Fan → Fan
unfolding cancels
end_branch o i e s = record s {
  slots = put s.slots i (some e);
  done = put s.done i true;
  cancelled = cancels o e || s.cancelled;
}

abbrev pub is_swallowed : Option Ending → Bool
is_swallowed (some Ending.swallowed) = true
is_swallowed _ = false

unfoldable pub first_signal : List (Option Ending) → Option YieldInfo
first_signal [] = none
first_signal (some (Ending.signal info) ∷ l) = some info
first_signal (_ ∷ l) = first_signal l

unfoldable pub first_error : List (Option Ending) → Option Result
first_error [] = none
first_error (some (Ending.error r) ∷ l) = some r
first_error (_ ∷ l) = first_error l

-- The answer behind the await of all branches.
unfoldable pub joined : OnError → List (Option Ending) → Answer
unfolding first_signal first_error
joined o l = if any is_swallowed l then Answer.swallowed else elim (first_signal l) [
  | some info ↦ Answer.yielded info
  | none ↦
      if is_fast o
      then elim (first_error l) [ some r ↦ Answer.failed r | none ↦ Answer.values l ]
      else Answer.values l
]

-- The slots of so many branches, from one on.
unfoldable pub slots_from : ℕ → ℕ → (ℕ → Option Ending) → List (Option Ending)
slots_from i zero f = []
slots_from i (suc k) f = f i ∷ slots_from (i + 1) k f

abbrev pub halted : Options → Fan → Bool
halted o s = s.cancelled && is_fast o.on_error

pub data Event : Type 0 where
  settles : ℕ → Result → Bool → Event
  removes : ℕ → Event
  resumes : Event
  joins : Event

-- `n` branches; `at_once` says of a branch how it ends where it ends without an await, an abort
-- included.
module _ (o : Options) (n : ℕ) (at_once : ℕ → Option (Result × Bool)) where
  -- executeBranch up to its first await.
  unfoldable pub run_branch : ℕ → Fan → Fan
  unfolding ending end_branch
  run_branch i s = if halted o s then record s { done = put s.done i true } else elim (at_once i) [
    | none ↦ s
    | some (r, guard) ↦ end_branch o.on_error i (ending guard r) s
  ]

  unfoldable pub start_branch : Fan → Fan
  unfolding run_branch
  start_branch s = record (run_branch s.next s) {
    next = s.next + 1;
    pending = s.pending ++ s.next ∷ [];
  }

  -- The loop over the branches that are left; without a limit, `branches.map`.
  unfoldable pub launch : ℕ → Fan → Fan
  unfolding start_branch
  launch zero s = record s { phase = awaiting_all }
  launch (suc k) s =
      let more = launch k (start_branch s) in
      if ltb 0 o.concurrency && halted o s
      then record s { phase = awaiting_all }
      else if ltb 0 o.concurrency && leb o.concurrency (length s.pending)
      then record s { phase = racing }
      else more

  abbrev pub opened : Fan
  opened = record {
    slots = λ i. none;
    done = λ i. false;
    next = 0;
    pending = [];
    cancelled = false;
    phase = awaiting_all;
  }

  -- `throwIfAborted` and `assertClear` in front of it.
  unfoldable pub open_parallel : Bool → Bool → Fan
  unfolding launch
  open_parallel aborted guard =
      if aborted
      then record opened { phase = ended (Answer.failed Result.aborted) }
      else if guard
      then record opened { phase = ended Answer.swallowed }
      else launch n opened

  abbrev pub waits_for : ℕ → Fan → Bool
  waits_for i s = any (λ j. j == i) s.pending

  unfoldable pub settle_branch : ℕ → Result → Bool → Fan → Fan
  unfolding ending end_branch
  settle_branch i r guard s =
      if waits_for i s && not (s.done i) then end_branch o.on_error i (ending guard r) s else s

  unfoldable pub wake : Phase → Phase
  wake racing = woken
  wake p = p

  -- `finally`: a settled promise leaves `pending`, which ends a race.
  unfoldable pub remove_branch : ℕ → Fan → Fan
  unfolding wake
  remove_branch i s =
      if waits_for i s && s.done i
      then record s { pending = filter (λ j. not (j == i)) s.pending; phase = wake s.phase }
      else s

  -- The loop goes on behind the race, whether or not a branch has been cancelled meanwhile.
  unfoldable pub resume_loop : Phase → Fan → Fan
  unfolding launch start_branch
  resume_loop woken s = launch (n - (s.next + 1)) (start_branch s)
  resume_loop _ s = s

  unfoldable pub join_branches : Phase → List ℕ → Fan → Fan
  unfolding joined slots_from
  join_branches awaiting_all [] s = record s {
    phase = ended (joined o.on_error (slots_from 0 n s.slots));
  }
  join_branches _ _ s = s

  unfoldable pub step : Event → Fan → Fan
  unfolding settle_branch remove_branch resume_loop join_branches
  step (Event.settles i r guard) s = settle_branch i r guard s
  step (Event.removes i) s = remove_branch i s
  step Event.resumes s = resume_loop s.phase s
  step Event.joins s = join_branches s.phase s.pending s

  unfoldable pub run : List Event → Fan → Fan
  unfolding step
  run [] s = s
  run (e ∷ es) s = run es (step e s)
