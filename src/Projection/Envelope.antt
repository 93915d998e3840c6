-- ===== src/Projection/Envelope.antt =====
-- encodeConnectEnvelope of packages/node/src/projection-runner.ts, and the reader of its stream,
-- which takes frames off a buffer that grows by chunks. A byte is a number.
pub mod RoundTrip
mod Tests
use ironflow_js.Prelude.{
  ℕ, zero, suc, ◌+◌, ◌-◌, ◌*◌, ◌/◌, ◌%◌, ◌^◌, Bool, true, false, List, [], ◌∷◌, ◌++◌, take, length,
  ◌==◌, ltb, if◌then◌else◌,
}

abbrev pub Bytes : Type 0
Bytes = List ℕ

-- `view.setUint32(1, n, false)`, behind the flags.
unfoldable pub encode_envelope : Bytes → Bytes
encode_envelope payload =
    let n = length payload in
    0 ∷ n / 2 ^ 24 % 256 ∷ n / 2 ^ 16 % 256 ∷ n / 2 ^ 8 % 256 ∷ n % 256 ∷ payload

pub record Envelope : Type 0 where
  pub flags : ℕ
  pub payload : Bytes

abbrev pub drop : ℕ → Bytes → Bytes
drop zero s = s
drop (suc n) [] = []
drop (suc n) (b ∷ s) = drop n s

-- `flags & 0x02`: the trailer that ends the stream.
abbrev pub is_trailer : Envelope → Bool
is_trailer e = e.flags / 2 % 2 == 1

-- The inner loop: the envelopes that are whole, and what is left of the buffer. It is left behind a
-- trailer too.
unfoldable pub take_envelopes : ℕ → Bytes → List Envelope × Bytes
take_envelopes (suc fuel) (f ∷ a ∷ b ∷ c ∷ d ∷ s) =
    let n = ((a * 256 + b) * 256 + c) * 256 + d in
    let e : Envelope = record { flags = f; payload = take n s } in
    elim (ltb (length s) n) [
      | true ↦ ([], f ∷ a ∷ b ∷ c ∷ d ∷ s)
      | false ↦ elim (is_trailer e) [
        | true ↦ (e ∷ [], drop n s)
        | false ↦ let more = take_envelopes fuel (drop n s) in (e ∷ more.0, more.1)
      ]
    ]
take_envelopes fuel s = ([], s)

-- An envelope takes five bytes at least, so as many rounds as there are bytes are enough.
unfoldable pub read_buffer : Bytes → List Envelope × Bytes
unfolding take_envelopes
read_buffer s = take_envelopes (length s) s

-- The outer loop, from a buffer on: each chunk is appended, and what is whole is taken.
unfoldable pub read_chunks : Bytes → List Bytes → List Envelope × Bytes
unfolding read_buffer
read_chunks buffer [] = ([], buffer)
read_chunks buffer (chunk ∷ chunks) =
    let taken = read_buffer (buffer ++ chunk) in
    let more = read_chunks taken.1 chunks in (taken.0 ++ more.0, more.1)
