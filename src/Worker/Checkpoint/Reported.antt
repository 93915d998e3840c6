-- ===== src/Worker/Checkpoint/Reported.antt =====
-- What a checkpointer keeps true of the steps that it has reported (packages/node/src/worker.ts).
use mathlib.Core.List.{append_assoc, append-nil}
use ironflow_js.Prelude.{
  ℕ, zero, suc, ◌+◌, ◌<◌, ◌≡◌, inl, inr, refl, sym, ap, ◌∙◌, Bool, true, false, Option, none, some,
  Option-cases, Bool-cases, List, [], ◌∷◌, ◌++◌, length, length-append, All, All-append, AllSome,
  AllSome-at, arith,
}
use ironflow_js.Worker.Checkpoint.{Checkpointer, is_waiting_none, is_due, drop}
use ironflow_js.Worker.Checkpoint.Sliced.{
  AllSome-map, reported_steps, NumberedFrom, IsSendable, drop-length, reported_steps-append,
  NumberedFrom-append,
}

-- `rest` are the steps behind the cursor.
pub record IsReported {S : Type 0} (encodable : S → Bool) (base : ℕ) (steps : List S) (cursor : ℕ)
    (stopped : Bool) (chain : ℕ) (sending : Option (List S)) (finishing : Option ℕ)
    (tail : Option (List S × ℕ)) (accepted : List (ℕ × List S)) : Type 0 where
  pub rest : List S
  pub split : steps ≡ reported_steps accepted ++ rest
  pub reached : cursor ≡ length (reported_steps accepted)
  pub sent : AllSome (λ p. ((more : List S) × (rest ≡ p ++ more)) × IsSendable encodable p) sending
  pub busy : is_waiting_none sending ≡ false → (0 < chain) × AllSome (λ n. 0 < n) finishing
  pub numbered : NumberedFrom base accepted
  pub sendable : All (λ (e : ℕ × List S). IsSendable encodable e.1) accepted
  pub ended :
      AllSome
        (λ (t : List S × ℕ).
          (stopped ≡ true)
          × (is_waiting_none sending ≡ true)
          × (t.1 ≡ base + cursor)
          × ((later : List S) × (rest ≡ t.0 ++ later)))
        tail

abbrev pub IsDone : {S : Type 0} → (S → Bool) → ℕ → Checkpointer S → Type 0
IsDone encodable base c =
    IsReported encodable base c.steps c.cursor c.stopped c.chain c.sending c.finishing c.tail
      c.accepted

-- What grows at its end still begins so.
grown :
    {S : Type 0} (rest p : List S) (s : S)
    → ((more : List S) × (rest ≡ p ++ more))
    → (more : List S) × (rest ++ s ∷ [] ≡ p ++ more)
grown rest p s h =
    (h.0 ++ s ∷ [], ap (λ (r : List _). r ++ s ∷ []) h.1 ∙ append_assoc p h.0 (s ∷ []))

due_awaits_none :
    {S A : Type 0} (finishing : Option ℕ) (tail : Option (List S × ℕ))
    → is_due finishing tail ≡ true
    → AllSome (λ n. 0 < n) finishing
    → A
due_awaits_none none tail e h = absurd (cc e)
due_awaits_none (some zero) tail e h = absurd (omega (arith, h))
due_awaits_none (some (suc n)) tail e h = absurd (cc e)

module _ {S : Type 0} {encodable : S → Bool} {base : ℕ} {steps : List S} {cursor : ℕ}
    {stopped : Bool} {chain : ℕ} {sending : Option (List S)} {finishing : Option ℕ}
    {tail : Option (List S × ℕ)} {accepted : List (ℕ × List S)}
    (h : IsReported encodable base steps cursor stopped chain sending finishing tail accepted) where
  pub left : drop cursor steps ≡ h.rest
  left = rw (h.split, h.reached) (drop-length (reported_steps accepted) h.rest)

  pub IsReported-grown :
      (s : S)
      → IsReported encodable base
          (steps ++ s ∷ [])
          cursor
          stopped
          chain
          sending
          finishing
          tail
          accepted
  IsReported-grown s = record {
    rest = h.rest ++ s ∷ [];
    split =
        ap (λ (r : List S). r ++ s ∷ []) h.split
        ∙ append_assoc (reported_steps accepted) h.rest (s ∷ []);
    reached = h.reached;
    sent = AllSome-map _ _ (λ p q. (grown h.rest p s q.0, q.1)) sending h.sent;
    busy = h.busy;
    numbered = h.numbered;
    sendable = h.sendable;
    ended = AllSome-map _ _ (λ t q. (q.0, q.1, q.2, grown h.rest t.0 s q.3)) tail h.ended;
  }

  pub IsReported-queued :
      IsReported encodable base steps cursor stopped (chain + 1) sending finishing tail accepted
  IsReported-queued = record {
    rest = h.rest;
    split = h.split;
    reached = h.reached;
    sent = h.sent;
    busy = λ e. (omega arith, (h.busy e).1);
    numbered = h.numbered;
    sendable = h.sendable;
    ended = h.ended;
  }

  -- A flush is settled without success, and the checkpoints may be stopped.
  pub IsReported-settled :
      (stopped' : Bool) (chain' : ℕ) (finishing' : Option ℕ)
      → (stopped ≡ true → stopped' ≡ true)
      → IsReported encodable base steps cursor stopped' chain' none finishing' tail accepted
  IsReported-settled stopped' chain' finishing' stays = record {
    rest = h.rest;
    split = h.split;
    reached = h.reached;
    sent = tt;
    busy = λ e. absurd (cc e);
    numbered = h.numbered;
    sendable = h.sendable;
    ended = AllSome-map _ _ (λ t q. (stays q.0, refl, q.2, q.3)) tail h.ended;
  }

  pub IsReported-stopped :
      IsReported encodable base steps cursor true chain sending finishing tail accepted
  IsReported-stopped = record {
    rest = h.rest;
    split = h.split;
    reached = h.reached;
    sent = h.sent;
    busy = h.busy;
    numbered = h.numbered;
    sendable = h.sendable;
    ended = AllSome-map _ _ (λ t q. (refl, q.1, q.2, q.3)) tail h.ended;
  }

  pub tail_none : stopped ≡ false → tail ≡ none
  tail_none e = elim (Option-cases tail) [
    | inl gone ↦ gone
    | inr (t, given) ↦ absurd (cc (e, (AllSome-at _ tail t h.ended given).0))
  ]

  pub IsReported-sending :
      (p : List S)
      → stopped ≡ false
      → 0 < chain
      → AllSome (λ n. 0 < n) finishing
      → (more : List S) × (drop cursor steps ≡ p ++ more) × IsSendable encodable p
      → IsReported encodable base steps cursor stopped chain (some p) finishing tail accepted
  IsReported-sending p runs some_flush awaited front = record {
    rest = h.rest;
    split = h.split;
    reached = h.reached;
    sent = ((front.0, sym left ∙ front.1), front.2);
    busy = λ e. (some_flush, awaited);
    numbered = h.numbered;
    sendable = h.sendable;
    ended = rw (tail_none runs) tt;
  }

  -- The answer that the steps are taken.
  pub IsReported-taken :
      (p : List S) (chain' : ℕ) (finishing' : Option ℕ)
      → sending ≡ some p
      → IsReported encodable base steps
          (cursor + length p)
          stopped
          chain'
          none
          finishing'
          tail
          (accepted ++ (base + cursor, p) ∷ [])
  IsReported-taken p chain' finishing' under_way =
      let q = AllSome-at _ sending p h.sent under_way in
      record {
        rest = q.0.0;
        split =
            h.split
            ∙ ap (λ (r : List S). reported_steps accepted ++ r) q.0.1
            ∙ sym (append_assoc (reported_steps accepted) p q.0.0)
            ∙ ap (λ (r : List S). r ++ q.0.0)
                (sym (reported_steps-append accepted (base + cursor) p));
        reached = omega (
          arith,
          h.reached,
          length-append (reported_steps accepted) p,
          ap (λ (r : List S). length r) (reported_steps-append accepted (base + cursor) p),
        );
        sent = tt;
        busy = λ e. absurd (cc e);
        numbered =
            NumberedFrom-append base accepted (base + cursor) p h.numbered
              (omega (arith, h.reached));
        sendable = All-append _ accepted ((base + cursor, p) ∷ []) h.sendable (q.1, tt);
        ended = elim (Option-cases tail) [
          | inl gone ↦ rw gone tt
          | inr (t, given) ↦
              let idle = (AllSome-at _ tail t h.ended given).1 in
              absurd (ground (arith, idle, under_way))
        ];
      }

  pub IsReported-finishing :
      finishing ≡ none
      → IsReported encodable base steps cursor stopped chain sending (some chain) tail accepted
  IsReported-finishing e = record {
    rest = h.rest;
    split = h.split;
    reached = h.reached;
    sent = h.sent;
    busy = λ f. ((h.busy f).0, (h.busy f).0);
    numbered = h.numbered;
    sendable = h.sendable;
    ended = h.ended;
  }

  pub idle_when_due : is_due finishing tail ≡ true → is_waiting_none sending ≡ true
  idle_when_due due = elim (Bool-cases (is_waiting_none sending)) [
    | inl idle ↦ idle
    | inr under_way ↦ due_awaits_none finishing tail due (h.busy under_way).1
  ]

  pub IsReported-ended :
      is_due finishing tail ≡ true
      → IsReported encodable base steps cursor true chain sending finishing
          (some (drop cursor steps, base + cursor))
          accepted
  IsReported-ended due = record {
    rest = h.rest;
    split = h.split;
    reached = h.reached;
    sent = h.sent;
    busy = h.busy;
    numbered = h.numbered;
    sendable = h.sendable;
    ended = (
      refl,
      idle_when_due due,
      refl,
      ([], sym (ap (λ (r : List S). r ++ []) left ∙ append-nil h.rest)),
    );
  }
