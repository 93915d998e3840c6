-- ===== src/Projection/Batch/Runs.antt =====
-- The runs of a batch (packages/node/src/projection-runner.ts): one after the other they are its
-- events, and each is of one partition.
use ironflow_js.Prelude.{
  ◌≡◌, refl, sym, ◌∙◌, ap, true, List, [], ◌∷◌, ◌++◌, All, All-append, if_split, any,
}
use mathlib.Core.List.{append-nil, append_assoc}
use ironflow_js.Durable.Text.{Text, text_eq, text_eq_iff}
use ironflow_js.Projection.Batch.{PollEvent, Run, partition_of, add_event, runs_into}

pub text_eq_self : (s : Text) → text_eq s s ≡ true
text_eq_self s = (text_eq_iff s s).1 refl

module _ {B : Type 0} where
  abbrev pub events_of : List (Run B) → List (PollEvent B)
  events_of [] = []
  events_of (r ∷ rs) = r.events ++ events_of rs

  abbrev pub InPartition : Text → PollEvent B → Type 0
  InPartition pk e = text_eq pk (partition_of e) ≡ true

  -- A run has events, all of its partition.
  abbrev pub IsRun : Run B → Type 0
  IsRun r = (any (λ e. true) r.events ≡ true) × All (InPartition r.pk) r.events

  any_snoc : (es : List (PollEvent B)) (e : PollEvent B) → any (λ f. true) (es ++ e ∷ []) ≡ true
  any_snoc [] e = refl
  any_snoc (f ∷ es) e = refl

  add_event-events :
      (rs : List (Run B)) (e : PollEvent B) → events_of (add_event rs e) ≡ events_of rs ++ e ∷ []
  unfolding add_event
  add_event-events [] e = refl
  add_event-events (r ∷ []) e =
      if_split (λ (l : List (Run B)). events_of l ≡ (r.events ++ []) ++ e ∷ [])
        (text_eq r.pk (partition_of e)) _ _
        (λ _.
          append-nil (r.events ++ e ∷ [])
          ∙ ap (λ (l : List (PollEvent B)). l ++ e ∷ []) (sym (append-nil r.events)))
        (λ _. ap (λ (l : List (PollEvent B)). l ++ e ∷ []) (sym (append-nil r.events)))
  add_event-events (r ∷ q ∷ rs) e = rw (append_assoc, add_event-events (q ∷ rs) e) refl

  add_event-IsRun :
      (rs : List (Run B)) (e : PollEvent B) → All IsRun rs → All IsRun (add_event rs e)
  unfolding add_event
  add_event-IsRun [] e h = ((refl, (text_eq_self (partition_of e), tt)), tt)
  add_event-IsRun (r ∷ []) e h =
      if_split (All IsRun) (text_eq r.pk (partition_of e)) _ _
        (λ same. (
          (any_snoc r.events e, All-append (InPartition r.pk) r.events (e ∷ []) h.0.1 (same, tt)),
          tt,
        ))
        (λ _. (h.0, ((refl, (text_eq_self (partition_of e), tt)), tt)))
  add_event-IsRun (r ∷ q ∷ rs) e h = (h.0, add_event-IsRun (q ∷ rs) e h.1)

  runs_into-events :
      (rs : List (Run B)) (es : List (PollEvent B))
      → events_of (runs_into rs es) ≡ events_of rs ++ es
  unfolding runs_into
  runs_into-events rs [] = sym (append-nil (events_of rs))
  runs_into-events rs (e ∷ es) =
      runs_into-events (add_event rs e) es
      ∙ rw (add_event-events rs e) (append_assoc (events_of rs) (e ∷ []) es)

  pub runs_into-IsRun :
      (rs : List (Run B)) (es : List (PollEvent B)) → All IsRun rs → All IsRun (runs_into rs es)
  unfolding runs_into
  runs_into-IsRun rs [] h = h
  runs_into-IsRun rs (e ∷ es) h = runs_into-IsRun (add_event rs e) es (add_event-IsRun rs e h)

  -- The runs are the events, none left out and in their order.
  pub events_of-runs : (es : List (PollEvent B)) → events_of (runs_into [] es) ≡ es
  events_of-runs es = runs_into-events [] es
