-- ===== src/Projection/Batch.antt =====
-- processManagedBatch of packages/node/src/projection-runner.ts: a batch is reduced and saved one run
-- of events of the same partition at a time.
pub mod Sorting
pub mod Runs
pub mod Partitions
pub mod Prefix
mod Tests
use ironflow_js.Prelude.{
  ℕ, ◌+◌, ◌≡◌, Bool, true, false, not, ◌&&◌, ◌||◌, Option, none, some, List, [], ◌∷◌, ◌++◌, any,
  filter, map, length, ◌==◌, ltb, if◌then◌else◌,
}
use ironflow_js.Durable.Text.{Text, codes, text_eq}

abbrev pub global_key : Text
global_key = codes "__global__"

-- `partition` is `metadata.__partition`, `body` the rest of the event.
pub record PollEvent (B : Type 0) : Type 0 where
  pub id : Text
  pub seq : ℕ
  pub partition : Option Text
  pub timestamp : Option Text
  pub body : B

pub record Run (B : Type 0) : Type 0 where
  pub pk : Text
  pub events : List (PollEvent B)

-- What saveState sends.
pub record Save (S : Type 0) : Type 0 where
  pub pk : Text
  pub state : S
  pub last_event_id : Text
  pub last_event_seq : ℕ
  pub last_event_time : Option Text

pub data Outcome : Type 0 where
  committed : Outcome
  load_failed : Outcome
  handler_threw : Outcome
  lease_lost : Outcome
  save_failed : Outcome

-- What a batch has done: the saves that were acknowledged, the states in memory, `managedState`,
-- and the runs that it has not reached.
pub record Batch (S B : Type 0) : Type 0 where
  pub saves : List (Save S)
  pub states : Text → S
  pub managed : Option S
  pub left : List (Run B)
  pub outcome : Outcome

module _ {B : Type 0} where
  unfoldable pub partition_of : PollEvent B → Text
  partition_of e = elim e.partition [
    | none ↦ global_key
    | some p ↦ elim p [ [] ↦ global_key | c ∷ s ↦ c ∷ s ]
  ]

  -- `[...events].sort((a, b) => a.seq - b.seq)`, a stable sort.
  unfoldable pub insert_event : PollEvent B → List (PollEvent B) → List (PollEvent B)
  insert_event e [] = e ∷ []
  insert_event e (f ∷ l) =
      let rest = insert_event e l in if ltb e.seq f.seq then e ∷ f ∷ l else f ∷ rest

  unfoldable pub sort_into : List (PollEvent B) → List (PollEvent B) → List (PollEvent B)
  unfolding insert_event
  sort_into out [] = out
  sort_into out (e ∷ es) = sort_into (insert_event e out) es

  unfoldable pub sort_events : List (PollEvent B) → List (PollEvent B)
  unfolding sort_into
  sort_events es = sort_into [] es

  -- An event joins the last run where that is of its partition.
  unfoldable pub add_event : List (Run B) → PollEvent B → List (Run B)
  unfolding partition_of text_eq
  add_event [] e = record { pk = partition_of e; events = e ∷ [] } ∷ []
  add_event (r ∷ []) e =
      if text_eq r.pk (partition_of e)
      then record { pk = r.pk; events = r.events ++ e ∷ [] } ∷ []
      else r ∷ record { pk = partition_of e; events = e ∷ [] } ∷ []
  add_event (r ∷ q ∷ rs) e = r ∷ add_event (q ∷ rs) e

  unfoldable pub runs_into : List (Run B) → List (PollEvent B) → List (Run B)
  unfolding add_event
  runs_into runs [] = runs
  runs_into runs (e ∷ es) = runs_into (add_event runs e) es

  unfoldable pub last_event : List (PollEvent B) → Option (PollEvent B)
  last_event [] = none
  last_event (e ∷ []) = some e
  last_event (e ∷ f ∷ es) = last_event (f ∷ es)

abbrev pub put : {S : Type 0} → (Text → S) → Text → S → Text → S
put f pk s q = if text_eq pk q then s else f q

-- Behind a run, what saveState sends; an id or seq that no event has set is empty.
unfoldable pub save_of : {S B : Type 0} → Run B → S → Save S
unfolding last_event
save_of r s = elim (last_event r.events) [
  | none ↦ record {
    pk = r.pk;
    state = s;
    last_event_id = [];
    last_event_seq = 0;
    last_event_time = none;
  }
  | some e ↦ record {
    pk = r.pk;
    state = s;
    last_event_id = e.id;
    last_event_seq = e.seq;
    last_event_time = e.timestamp;
  }
]

-- Behind a save: only then is the state kept in memory.
unfoldable pub saved : {S B : Type 0} → Run B → S → Batch S B → Batch S B
unfolding save_of text_eq
saved r s b = record b {
  saves = b.saves ++ save_of r s ∷ [];
  states = put b.states r.pk s;
  managed = if text_eq r.pk global_key then some s else b.managed;
}

-- `handler` is none where it throws.
module _ {S B : Type 0} (handler : S → PollEvent B → Option S) where
  unfoldable pub reduce : S → List (PollEvent B) → Option S
  reduce s [] = some s
  reduce s (e ∷ es) = elim (handler s e) [ none ↦ none | some t ↦ reduce t es ]

  -- `lost n` and `fails n`: the lease is known to be lost before the save behind the first `n`, and
  -- that save fails.
  unfoldable pub process_runs : (ℕ → Bool) → (ℕ → Bool) → Batch S B → List (Run B) → Batch S B
  unfolding reduce saved
  process_runs lost fails b [] = record b { left = []; outcome = Outcome.committed }
  process_runs lost fails b (r ∷ rs) = elim (reduce (b.states r.pk) r.events) [
    | none ↦ record b { left = r ∷ rs; outcome = Outcome.handler_threw }
    | some s ↦ elim (lost (length b.saves)) [
      | true ↦ record b { left = r ∷ rs; outcome = Outcome.lease_lost }
      | false ↦ elim (fails (length b.saves)) [
        | true ↦ record b { left = r ∷ rs; outcome = Outcome.save_failed }
        | false ↦ process_runs lost fails (saved r s b) rs
      ]
    ]
  ]

-- `load` is what the server answers on a partition's state, none where that fails.
unfoldable pub all_loaded : {S B : Type 0} → (Text → Option S) → List (Run B) → Bool
unfolding text_eq
all_loaded load [] = true
all_loaded load (r ∷ rs) =
    (text_eq r.pk global_key || elim (load r.pk) [ none ↦ false | some s ↦ true ])
    && all_loaded load rs

-- `is_empty` is null or an object without keys, which is no state; `initial` is initialState() or
-- an empty object.
abbrev pub or_initial : {S : Type 0} → (S → Bool) → S → S → S
or_initial is_empty initial s = if is_empty s then initial else s

-- `globalState` of the poll, or else the state in memory.
unfoldable pub global_state : {S : Type 0} → (S → Bool) → S → Option S → Option S → S
global_state is_empty initial given managed = elim given [
  | some s ↦ or_initial is_empty initial s
  | none ↦ elim managed [ none ↦ initial | some s ↦ or_initial is_empty initial s ]
]

unfoldable pub loaded_state : {S : Type 0} → (Text → Option S) → S → S → Text → S
unfolding text_eq
loaded_state load initial global pk =
    if text_eq pk global_key then global else elim (load pk) [ none ↦ initial | some s ↦ s ]

-- The batch before its first save: every partition is loaded, or one of them is not.
unfoldable pub loaded :
    {S B : Type 0}
    → (Text → Option S)
    → (S → Bool)
    → S
    → Option S
    → Option S
    → List (Run B)
    → Batch S B
unfolding global_state loaded_state
loaded load is_empty initial given managed runs = record {
  saves = [];
  states = loaded_state load initial (global_state is_empty initial given managed);
  managed = managed;
  left = runs;
  outcome = Outcome.load_failed;
}

module _ {S B : Type 0} (handler : S → PollEvent B → Option S) (load : Text → Option S)
    (is_empty : S → Bool) (initial : S) where
  unfoldable pub process_managed :
      (ℕ → Bool) → (ℕ → Bool) → Option S → Option S → List (PollEvent B) → Batch S B
  unfolding sort_events runs_into all_loaded loaded process_runs
  process_managed lost fails given managed events =
      let runs = runs_into [] (sort_events events) in
      let b = loaded load is_empty initial given managed runs in
      if all_loaded load runs then process_runs handler lost fails b runs else b
