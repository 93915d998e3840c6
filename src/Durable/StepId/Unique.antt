-- ===== src/Durable/StepId/Unique.antt =====
-- Escaped step ids are unique.
use ironflow_js.Prelude.{
  false, ℕ, zero, suc, ◌+◌, ◌<◌, ◌%◌, ◌/◌, ◌≡◌, refl, ap, sym, none, [], ◌∷◌, ◌++◌, ◌==◌,
  if◌then◌else◌, All, All-append, arith,
}
use mathlib.Core.List.{append_assoc, append-nil}
use ironflow_js.Durable.Text.{
  Text, colon, backslash, strip_prefix, decimal, decimal_fuel, decimal-injective,
}
use ironflow_js.Durable.StepId.{
  escape_raw, compensate_ns, publish_ns, escape_step_id_part, Scope, segment, scope_id,
}

-- Reading a part back: up to a colon that no backslash precedes.
abbrev read_part : Text → Text × Text
read_part [] = ([], [])
read_part (c ∷ []) = if c == colon then ([], c ∷ []) else (c ∷ [], [])
read_part (c ∷ d ∷ s) =
    let escaped = read_part s in
    let plain = read_part (d ∷ s) in
    if c == colon
    then ([], c ∷ d ∷ s)
    else if c == backslash
    then (d ∷ escaped.0, escaped.1)
    else (c ∷ plain.0, plain.1)

-- What a part may be followed by.
abbrev Stops : Text → Type 0
Stops [] = Unit {0}
Stops (c ∷ s) = c ≡ colon

read_part-Stops : (s : Text) → Stops s → read_part s ≡ ([], s)
read_part-Stops [] h = refl
read_part-Stops (c ∷ []) h = ground arith
read_part-Stops (c ∷ d ∷ s) h = ground arith

read_part-plain :
    (c : ℕ) (s : Text)
    → (c == colon) ≡ false
    → (c == backslash) ≡ false
    → read_part (c ∷ s) ≡ (c ∷ (read_part s).0, (read_part s).1)
read_part-plain c [] h k = ground arith
read_part-plain c (d ∷ s) h k = ground arith

read_part-escape_raw : (a r : Text) → Stops r → read_part (escape_raw a ++ r) ≡ (a, r)
unfolding escape_raw
read_part-escape_raw [] r h = read_part-Stops r h
read_part-escape_raw (c ∷ s) r h =
    ground (arith, read_part-escape_raw s r h, read_part-plain c (escape_raw s ++ r))

abbrev IsDigit : ℕ → Type 0
IsDigit c = c < colon

read_part-digits : (d r : Text) → All IsDigit d → Stops r → read_part (d ++ r) ≡ (d, r)
read_part-digits [] r a h = read_part-Stops r h
read_part-digits (c ∷ s) r a h =
    ground (arith, read_part-digits s r a.1 h, read_part-plain c (s ++ r))

decimal_fuel-digits : (f n : ℕ) → All IsDigit (decimal_fuel f n)
unfolding decimal_fuel
decimal_fuel-digits zero n = tt
decimal_fuel-digits (suc f) n = ground (
  arith,
  decimal_fuel-digits f (n / 10),
  All-append IsDigit (decimal_fuel f (n / 10)) ((48 + n % 10) ∷ []) (decimal_fuel-digits f (n / 10))
      (omega arith, tt),
)

decimal-digits : (n : ℕ) → All IsDigit (decimal n)
unfolding decimal
decimal-digits n = decimal_fuel-digits (suc n) n

-- The segments of a scope behind the run's prefix.
abbrev tail_id : Scope → Text
tail_id [] = []
tail_id ((name, index) ∷ inner) =
    colon ∷ (escape_step_id_part name ++ (colon ∷ (decimal index ++ tail_id inner)))

tail_id-Stops : (p : Scope) → Stops (tail_id p)
tail_id-Stops [] = tt
tail_id-Stops ((name, index) ∷ inner) = refl

scope_id-eq : (prefix : Text) (p : Scope) → scope_id prefix p ≡ prefix ++ tail_id p
unfolding scope_id
scope_id-eq prefix [] = sym (append-nil prefix)
scope_id-eq prefix ((name, index) ∷ inner) =
    simp (scope_id-eq (prefix ++ segment (escape_step_id_part name) index) inner, append_assoc)

-- A name that neither namespace of the SDK begins.
abbrev pub IsPlainName : Text × ℕ → Type 0
IsPlainName (name, index) =
    (strip_prefix compensate_ns name ≡ none) × (strip_prefix publish_ns name ≡ none)

escape_plain :
    (name : Text) (index : ℕ)
    → IsPlainName (name, index)
    → escape_step_id_part name ≡ escape_raw name
unfolding escape_step_id_part
escape_plain name index h = ground arith

part_injective :
    (a b r s : Text) → Stops r → Stops s → escape_raw a ++ r ≡ escape_raw b ++ s → (a ≡ b) × (r ≡ s)
part_injective a b r s hr hs e =
    let pairs : ◌≡◌ {A = Text × Text} (a, r) (b, s) =
      cc (read_part-escape_raw a r hr, read_part-escape_raw b s hs, ap read_part e) in
    (ap (λ (x : Text × Text). x.0) pairs, ap (λ (x : Text × Text). x.1) pairs)

digits_injective :
    (a b r s : Text)
    → All IsDigit a
    → All IsDigit b
    → Stops r
    → Stops s
    → a ++ r ≡ b ++ s
    → (a ≡ b) × (r ≡ s)
digits_injective a b r s ha hb hr hs e =
    let pairs : ◌≡◌ {A = Text × Text} (a, r) (b, s) =
      cc (read_part-digits a r ha hr, read_part-digits b s hb hs, ap read_part e) in
    (ap (λ (x : Text × Text). x.0) pairs, ap (λ (x : Text × Text). x.1) pairs)

behind : Text → Text
behind [] = []
behind (c ∷ s) = s

append_cancel : (run a b : Text) → run ++ a ≡ run ++ b → a ≡ b
unfolding behind
append_cancel [] a b e = e
append_cancel (c ∷ run) a b e = append_cancel run a b (ap behind e)

plain_part_injective :
    (n m r s : Text) (i j : ℕ)
    → Stops r
    → Stops s
    → IsPlainName (n, i)
    → IsPlainName (m, j)
    → escape_step_id_part n ++ r ≡ escape_step_id_part m ++ s
    → (n ≡ m) × (r ≡ s)
plain_part_injective n m r s i j hr hs hn hm e =
    let raw : escape_raw n ++ r ≡ escape_raw m ++ s =
      cc (escape_plain n i hn, escape_plain m j hm, e) in
    part_injective n m r s hr hs raw

tail_id-injective :
    (p q : Scope) → All IsPlainName p → All IsPlainName q → tail_id p ≡ tail_id q → p ≡ q
unfolding behind
tail_id-injective [] [] hp hq e = refl
tail_id-injective [] ((m, j) ∷ q) hp hq e = cc
tail_id-injective ((n, i) ∷ p) [] hp hq e = cc
tail_id-injective ((n, i) ∷ p) ((m, j) ∷ q) hp hq e =
    let names =
      plain_part_injective n m (colon ∷ (decimal i ++ tail_id p)) (colon ∷ (decimal j ++ tail_id q))
        i j refl refl hp.0 hq.0 (ap behind e) in
    let indices =
      digits_injective (decimal i) (decimal j) (tail_id p) (tail_id q) (decimal-digits i)
        (decimal-digits j) (tail_id-Stops p) (tail_id-Stops q) (ap behind names.1) in
    let rest = tail_id-injective p q hp.1 hq.1 indices.1 in
    let index = decimal-injective i j indices.0 in let name = names.0 in cc

-- Two steps of one run whose names, and whose scopes' names, begin with neither "compensate:" nor
-- "publish:" have the same id only if they have the same scopes, name and indices.
pub step_ids_unique :
    (run : Text) (p q : Scope)
    → All IsPlainName p
    → All IsPlainName q
    → scope_id run p ≡ scope_id run q
    → p ≡ q
step_ids_unique run p q hp hq e =
    tail_id-injective p q hp hq
      (append_cancel run (tail_id p) (tail_id q) (rw (← scope_id-eq run p, ← scope_id-eq run q) e))
