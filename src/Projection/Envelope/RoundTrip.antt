-- ===== src/Projection/Envelope/RoundTrip.antt =====
-- Envelopes survive the way through the stream, however it cuts them into chunks
-- (packages/node/src/projection-runner.ts).
use ironflow_js.Prelude.{
  ℕ, zero, suc, ◌+◌, ◌-◌, ◌*◌, ◌/◌, ◌%◌, ◌^◌, ◌<◌, ◌≤◌, ◌≡◌, refl, sym, ◌∙◌, ap, List, [], ◌∷◌,
  ◌++◌, take, length, length-append, All, map, ◌==◌, ltb, arith, Bool-split,
}
use mathlib.Core.List.{append-nil, append_assoc}
use ironflow_js.Projection.Envelope.{
  Bytes, Envelope, drop, encode_envelope, take_envelopes, read_buffer, read_chunks,
}

-- A payload whose length has four bytes.
abbrev pub Fits : Bytes → Type 0
Fits payload = length payload < 2 ^ 32

abbrev pub envelope : Bytes → Envelope
envelope payload = record { flags = 0; payload = payload }

abbrev pub encode_all : List Bytes → Bytes
encode_all [] = []
encode_all (p ∷ ps) = encode_envelope p ++ encode_all ps

length_field :
    (n : ℕ)
    → n < 2 ^ 32
    → ((n / 2 ^ 24 % 256 * 256 + n / 2 ^ 16 % 256) * 256 + n / 2 ^ 8 % 256) * 256 + n % 256 ≡ n
length_field n h = omega arith

take_front :
    (p s t q : Bytes)
    → s ++ t ≡ p ++ q
    → length p ≤ length s
    → (take (length p) s ≡ p) × (drop (length p) s ++ t ≡ q)
take_front [] s t q e h = (refl, e)
take_front (x ∷ p) [] t q e h = absurd (omega arith)
take_front (x ∷ p) (y ∷ s) t q e h = ground (arith, take_front p s t q)

length-drop : (n : ℕ) (s : Bytes) → n ≤ length s → length (drop n s) ≡ length s - n
length-drop zero s h = omega arith
length-drop (suc n) [] h = absurd (omega arith)
length-drop (suc n) (b ∷ s) h = omega (arith, length-drop n s)

-- Less than the first of the envelopes that are still to come.
abbrev pub IsPartial : Bytes → List Bytes → Type 0
IsPartial b [] = Unit
IsPartial b (p ∷ ps) = length b < 5 + length p

-- What a buffer shows of a stream of envelopes: the first of them, and a beginning of the others.
pub record IsRead (ps : List Bytes) (b t : Bytes) (r : List Envelope × Bytes) : Type 0 where
  pub whole : List Bytes
  pub others : List Bytes
  pub split : ps ≡ whole ++ others
  pub taken : r.0 ≡ map envelope whole
  pub left : r.1 ++ t ≡ encode_all others
  pub partial : IsPartial r.1 others

short :
    (ps : List Bytes) (b t : Bytes)
    → b ++ t ≡ encode_all ps
    → IsPartial b ps
    → IsRead ps b t ([], b)
short ps b t e h = record {
  whole = [];
  others = ps;
  split = refl;
  taken = refl;
  left = e;
  partial = h;
}

below_five : (b : Bytes) (ps : List Bytes) → length b < 5 → IsPartial b ps
below_five b [] h = tt
below_five b (p ∷ ps) h = omega arith

-- The first five bytes of what is written, and what stands behind them.
header :
    (f a b c d : ℕ) (s t p q : Bytes)
    → Fits p
    → f ∷ a ∷ b ∷ c ∷ d ∷ (s ++ t) ≡ encode_envelope p ++ q
    → (f ≡ 0) × (((a * 256 + b) * 256 + c) * 256 + d ≡ length p) × (s ++ t ≡ p ++ q)
unfolding encode_envelope
header f a b c d s t p q h e =
    let n = length p in
    let ea : a ≡ n / 2 ^ 24 % 256 = cc in
    let eb : b ≡ n / 2 ^ 16 % 256 = cc in
    let ec : c ≡ n / 2 ^ 8 % 256 = cc in
    let ed : d ≡ n % 256 = cc in (cc, omega (arith, length_field n h), cc)

-- One more envelope in front of those that are read.
one_more :
    (p : Bytes) (ps : List Bytes) (b c t : Bytes) (e : Envelope) (r : List Envelope × Bytes)
    → e ≡ envelope p
    → IsRead ps c t r
    → IsRead (p ∷ ps) b t (e ∷ r.0, r.1)
one_more p ps b c t e r first h = record {
  whole = p ∷ h.whole;
  others = h.others;
  split = ap (λ (l : List Bytes). p ∷ l) h.split;
  taken = cc (first, h.taken);
  left = h.left;
  partial = h.partial;
}

take_envelopes-IsRead :
    (fuel : ℕ) (ps : List Bytes) (b t : Bytes)
    → length b ≤ fuel
    → All Fits ps
    → b ++ t ≡ encode_all ps
    → IsRead ps b t (take_envelopes fuel b)
unfolding take_envelopes
take_envelopes-IsRead zero ps b t f h e = short ps b t e (below_five b ps (omega arith))
take_envelopes-IsRead (suc fuel) ps [] t g h e = short ps _ t e (below_five [] ps (omega arith))
take_envelopes-IsRead (suc fuel) ps (f ∷ []) t g h e =
    short ps _ t e (below_five (f ∷ []) ps (omega arith))
take_envelopes-IsRead (suc fuel) ps (f ∷ a ∷ []) t g h e =
    short ps _ t e (below_five (f ∷ a ∷ []) ps (omega arith))
take_envelopes-IsRead (suc fuel) ps (f ∷ a ∷ b ∷ []) t g h e =
    short ps _ t e (below_five (f ∷ a ∷ b ∷ []) ps (omega arith))
take_envelopes-IsRead (suc fuel) ps (f ∷ a ∷ b ∷ c ∷ []) t g h e =
    short ps _ t e (below_five (f ∷ a ∷ b ∷ c ∷ []) ps (omega arith))
take_envelopes-IsRead (suc fuel) [] (f ∷ a ∷ b ∷ c ∷ d ∷ s) t g h e = absurd (cc e)
take_envelopes-IsRead (suc fuel) (p ∷ ps) (f ∷ a ∷ b ∷ c ∷ d ∷ s) t g h e =
    let n = ((a * 256 + b) * 256 + c) * 256 + d in
    let P = IsRead (p ∷ ps) (f ∷ a ∷ b ∷ c ∷ d ∷ s) t in
    let first = header f a b c d s t p (encode_all ps) h.0 e in
    Bool-split P (ltb (length s) n) _ _
      (λ partial.
        let below : length s < length p = ground (arith, first.1, partial) in
        short (p ∷ ps) _ t e (omega (arith, below)))
      (λ whole.
        let enough : length p ≤ length s = ground (arith, first.1) in
        let parts = take_front p s t (encode_all ps) first.2 enough in
        let taken : take n s ≡ p = rw first.1 parts.0 in
        let behind : drop n s ++ t ≡ encode_all ps = rw first.1 parts.1 in
        let shorter : length (drop n s) ≤ fuel = omega (arith, length-drop n s, first.1) in
        Bool-split P (f / 2 % 2 == 1) _ _ (λ trailer. absurd (ground (arith, first.0)))
          (λ _.
            one_more p ps _ (drop n s) t _ (take_envelopes fuel (drop n s)) (cc (first.0, taken))
              (take_envelopes-IsRead fuel ps (drop n s) t shorter h.1 behind)))

All-others : (a b : List Bytes) → All Fits (a ++ b) → All Fits b
All-others [] b h = h
All-others (p ∷ a) b h = All-others a b h.1

abbrev pub join : List Bytes → Bytes
join [] = []
join (c ∷ cs) = c ++ join cs

map-append_envelope : (a b : List Bytes) → map envelope (a ++ b) ≡ map envelope a ++ map envelope b
map-append_envelope [] b = refl
map-append_envelope (p ∷ a) b = ap (λ (l : List Envelope). envelope p ∷ l) (map-append_envelope a b)

length-encode_envelope : (p : Bytes) → length (encode_envelope p) ≡ 5 + length p
unfolding encode_envelope
length-encode_envelope p = omega arith

nothing_left :
    (b : Bytes) (ps : List Bytes) → IsPartial b ps → b ≡ encode_all ps → (ps ≡ []) × (b ≡ [])
nothing_left b [] h e = (refl, e)
nothing_left b (p ∷ ps) h e = absurd (
    omega (
      arith,
      ap (length {0}) e,
      length-append {0} (encode_envelope p) (encode_all ps),
      length-encode_envelope p,
    ))

read_chunks-from :
    (chunks : List Bytes) (buffer : Bytes) (ps : List Bytes)
    → All Fits ps
    → IsPartial buffer ps
    → buffer ++ join chunks ≡ encode_all ps
    → read_chunks buffer chunks ≡ (map envelope ps, [])
unfolding read_chunks read_buffer
read_chunks-from [] buffer ps h k e =
    let none_left = nothing_left buffer ps k (sym (append-nil buffer) ∙ e) in
    cc (ap (map envelope) none_left.0, none_left.1)
read_chunks-from (c ∷ cs) buffer ps h k e =
    let r =
      take_envelopes-IsRead (length (buffer ++ c)) ps (buffer ++ c) (join cs) (omega arith) h
        (append_assoc buffer c (join cs) ∙ e) in
    let fit : All Fits r.others = All-others r.whole r.others (rw r.split at h) in
    let more =
      read_chunks-from cs (take_envelopes (length (buffer ++ c)) (buffer ++ c)).1 r.others fit
        r.partial r.left in
    let all : map envelope ps ≡ map envelope r.whole ++ map envelope r.others =
      ap (map envelope) r.split ∙ map-append_envelope r.whole r.others in
    cc (r.taken, more, all)

-- Payloads of less than 2^32 bytes that are written as envelopes one after the other, and arrive in
-- chunks that cut them anywhere, are read as these payloads in their order, with no flags, and
-- nothing is left in the buffer.
pub read_chunks-encode_envelope :
    (payloads chunks : List Bytes)
    → All Fits payloads
    → join chunks ≡ encode_all payloads
    → read_chunks [] chunks ≡ (map envelope payloads, [])
read_chunks-encode_envelope payloads chunks h e =
    read_chunks-from chunks [] payloads h (below_five [] payloads (omega arith)) e
