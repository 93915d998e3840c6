-- ===== src/Projection/Batch/Prefix.antt =====
-- What a batch leaves behind, whatever goes wrong in it (packages/node/src/projection-runner.ts).
use ironflow_js.Prelude.{
  Bool-split, ℕ, ◌≡◌, refl, ◌∙◌, ap, Bool, Option, none, some, List, [], ◌∷◌, ◌++◌, All, arith,
  if◌then◌else◌, if_split, Option-cases, Option-split, Bool-cases, inl, inr, any, length,
}
use mathlib.Core.List.{append_assoc}
use mathlib.Core.Path.{subst}
use ironflow_js.Durable.Text.{Text, text_eq, text_eq_iff}
use ironflow_js.Projection.Batch.{
  PollEvent, Run, Batch, Outcome, global_key, partition_of, sort_events, runs_into, put, reduce,
  save_of, saved, process_runs, all_loaded, global_state, loaded_state, loaded, process_managed,
}
use ironflow_js.Projection.Batch.Runs.{
  events_of, InPartition, IsRun, runs_into-IsRun, events_of-runs,
}
use ironflow_js.Projection.Batch.Partitions.{
  of_partition, last_saved, cursor, last_seq, of_partition-append, of_partition_run, any-append,
  any_run, last_saved-append, cursor-append, save_of_run,
}

module _ {S B : Type 0} (handler : S → PollEvent B → Option S) where
  reduce-append :
      (s : S) (a b : List (PollEvent B)) (t : S)
      → reduce handler s a ≡ some t
      → reduce handler s (a ++ b) ≡ reduce handler t b
  unfolding reduce
  reduce-append s [] b t h = ground arith
  reduce-append s (e ∷ a) b t h = elim (Option-cases (handler s e)) [
    | inl threw ↦ ground arith
    | inr (u, went) ↦ ground (arith, reduce-append u a b t)
  ]

  -- What is saved and in memory when the events `done` are behind a batch that began in `start`:
  -- each partition's state is what the handler makes of its events among them.
  pub record Follows (start : Text → S) (managed : Option S) (done : List (PollEvent B))
      (b : Batch S B) : Type 0 where
    pub reduced :
        (pk : Text) → reduce handler (start pk) (of_partition pk done) ≡ some (b.states pk)
    pub stored :
        (pk : Text)
        → last_saved pk b.saves
          ≡ (if any (λ e. text_eq pk (partition_of e)) done then some (b.states pk) else none)
    pub reached : cursor b.saves ≡ last_seq done
    pub kept : b.managed ≡ (
        if any (λ e. text_eq global_key (partition_of e)) done
        then some (b.states global_key)
        else managed)

  of_one_run :
      (pk : Text) (r : Run B) (b : Batch S B) (s : S)
      → All (InPartition r.pk) r.events
      → reduce handler (b.states r.pk) r.events ≡ some s
      → reduce handler (b.states pk) (of_partition pk r.events) ≡ some (put b.states r.pk s pk)
  unfolding reduce
  of_one_run pk r b s one e = elim (Bool-cases (text_eq r.pk pk)) [
    | inl same ↦
        let eq = (text_eq_iff r.pk pk).0 same in
        let all : of_partition pk r.events ≡ r.events =
          ground (arith, of_partition_run pk r.pk r.events one) in
        ground arith
    | inr other ↦
        let none_of : of_partition pk r.events ≡ [] =
          ground (arith, of_partition_run pk r.pk r.events one) in
        rw none_of (ground arith)
  ]

  saved-Follows :
      (start : Text → S) (managed : Option S) (done : List (PollEvent B)) (b : Batch S B)
      (r : Run B) (s : S)
      → IsRun r
      → Follows start managed done b
      → reduce handler (b.states r.pk) r.events ≡ some s
      → Follows start managed (done ++ r.events) (saved r s b)
  unfolding saved
  saved-Follows start managed done b r s one h e =
      let sent = save_of_run r s done one.0 in
      record {
        reduced = λ pk.
            let before =
              reduce-append (start pk) (of_partition pk done) (of_partition pk r.events)
                (b.states pk) (h.reduced pk) in
            ap (reduce handler (start pk)) (of_partition-append pk done r.events)
            ∙ before
            ∙ of_one_run pk r b s one.1 e;
        stored = λ pk. ground (
          arith,
          last_saved-append pk b.saves (save_of r s),
          h.stored pk,
          sent.0,
          sent.1,
          any-append (λ f. text_eq pk (partition_of f)) done r.events,
          any_run pk r.pk r.events one.0 one.1,
        );
        reached = cursor-append b.saves (save_of r s) ∙ sent.2;
        kept = ground (
          arith,
          h.kept,
          text_eq_iff r.pk global_key,
          any-append (λ f. text_eq global_key (partition_of f)) done r.events,
          any_run global_key r.pk r.events one.0 one.1,
        );
      }

  stopped-Follows :
      (start : Text → S) (managed : Option S) (done : List (PollEvent B)) (b : Batch S B)
      (left : List (Run B)) (o : Outcome)
      → Follows start managed done b
      → Follows start managed done (record b { left = left; outcome = o })
  stopped-Follows start managed done b left o h = record {
    reduced = h.reduced;
    stored = h.stored;
    reached = h.reached;
    kept = h.kept;
  }

  -- A batch has got through the first of its events, and has not begun with the rest.
  pub record IsPrefix (start : Text → S) (managed : Option S) (events : List (PollEvent B))
      (b : Batch S B) : Type 0 where
    pub done : List (PollEvent B)
    pub split : events ≡ done ++ events_of b.left
    pub follows : Follows start managed done b
    pub whole : b.outcome ≡ Outcome.committed → b.left ≡ []

  stopped-IsPrefix :
      (start : Text → S) (managed : Option S) (done : List (PollEvent B)) (b : Batch S B)
      (rs : List (Run B)) (o : Outcome)
      → Follows start managed done b
      → (o ≡ Outcome.committed → rs ≡ [])
      → IsPrefix start managed (done ++ events_of rs) (record b { left = rs; outcome = o })
  stopped-IsPrefix start managed done b rs o h w = record {
    done = done;
    split = refl;
    follows = stopped-Follows start managed done b rs o h;
    whole = w;
  }

  process_runs-IsPrefix :
      (lost fails : ℕ → Bool) (start : Text → S) (managed : Option S) (done : List (PollEvent B))
      (b : Batch S B) (rs : List (Run B))
      → All IsRun rs
      → Follows start managed done b
      → IsPrefix start managed (done ++ events_of rs) (process_runs handler lost fails b rs)
  unfolding process_runs
  process_runs-IsPrefix lost fails start managed done b [] one h =
      stopped-IsPrefix start managed done b [] Outcome.committed h (λ _. refl)
  process_runs-IsPrefix lost fails start managed done b (r ∷ rs) one h =
      let P = IsPrefix start managed (done ++ (r.events ++ events_of rs)) in
      Option-split P (reduce handler (b.states r.pk) r.events) _ _
        (λ _. stopped-IsPrefix start managed done b (r ∷ rs) _ h (λ e. cc))
        (λ s e.
          Bool-split P (lost (length b.saves)) _ _
            (λ _. stopped-IsPrefix start managed done b (r ∷ rs) _ h (λ f. cc))
            (λ _.
              Bool-split P (fails (length b.saves)) _ _
                (λ _. stopped-IsPrefix start managed done b (r ∷ rs) _ h (λ f. cc))
                (λ _.
                  let on = saved-Follows start managed done b r s one.0 h e in
                  subst
                    (λ (l : List (PollEvent B)).
                      IsPrefix start managed l (process_runs handler lost fails (saved r s b) rs))
                    (append_assoc done r.events (events_of rs))
                    (process_runs-IsPrefix lost fails start managed (done ++ r.events) (saved r s b)
                      rs one.1 on))))

begun-Follows :
    {S B : Type 0} (handler : S → PollEvent B → Option S) (load : Text → Option S)
    (is_empty : S → Bool) (initial : S) (given managed : Option S) (runs : List (Run B))
    → Follows handler
        (loaded_state load initial (global_state is_empty initial given managed))
        managed
        []
        (loaded load is_empty initial given managed runs)
unfolding loaded reduce
begun-Follows handler load is_empty initial given managed runs = record {
  reduced = λ pk. refl;
  stored = λ pk. refl;
  reached = refl;
  kept = refl;
}

-- Whatever fails in a batch of a managed projection, and wherever the lease is found lost: the
-- batch has got through the first of its events in the order of their seqs and not begun with the
-- rest, and it has got through all where it commits. Each partition's state in memory is what the
-- handler makes of the partition's events among them from the loaded state on, and it is what the
-- partition's last save has stored, where there are such events, with no save otherwise; the last
-- save's seq is that of the last of them; and `managedState` is the global state so saved, or what
-- it was.
pub process_managed-IsPrefix :
    {S B : Type 0} (handler : S → PollEvent B → Option S) (load : Text → Option S)
    (is_empty : S → Bool) (initial : S) (lost fails : ℕ → Bool) (given managed : Option S)
    (events : List (PollEvent B))
    → IsPrefix handler
        (loaded_state load initial (global_state is_empty initial given managed))
        managed
        (sort_events events)
        (process_managed handler load is_empty initial lost fails given managed events)
unfolding process_managed
process_managed-IsPrefix handler load is_empty initial lost fails given managed events =
    let runs = runs_into [] (sort_events events) in
    let start = loaded_state load initial (global_state is_empty initial given managed) in
    let b = loaded load is_empty initial given managed runs in
    let begun = begun-Follows handler load is_empty initial given managed runs in
    subst
      (λ l.
        IsPrefix handler start managed l
          (if all_loaded load runs then process_runs handler lost fails b runs else b))
      (events_of-runs (sort_events events))
      (if_split (IsPrefix handler start managed (events_of runs)) (all_loaded load runs) _ _
        (λ _.
          process_runs-IsPrefix handler lost fails start managed [] b runs
            (runs_into-IsRun [] (sort_events events) tt) begun)
        (λ _. record { done = []; split = refl; follows = begun; whole = λ e. cc }))
