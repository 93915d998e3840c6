-- ===== src/Projection/Envelope/Tests.antt =====
-- Envelopes of packages/node/src/projection-runner.ts at work.
use ironflow_js.Prelude.{◌≡◌, refl, List, [], ◌∷◌, All, map, arith}
use ironflow_js.Projection.Envelope.{Bytes, encode_envelope, read_chunks}
use ironflow_js.Projection.Envelope.RoundTrip.{
  Fits, envelope, encode_all, join, read_chunks-encode_envelope,
}

abbrev two : List Bytes
two = (1 ∷ 2 ∷ 3 ∷ []) ∷ [] ∷ []

-- The first chunk ends in the length of the first envelope.
abbrev cut : List Bytes
cut = (0 ∷ 0 ∷ 0 ∷ []) ∷ (0 ∷ 3 ∷ 1 ∷ 2 ∷ []) ∷ (3 ∷ 0 ∷ 0 ∷ 0 ∷ 0 ∷ []) ∷ (0 ∷ []) ∷ []

two_fit : All Fits two
two_fit = omega arith

split_read : join cut ≡ encode_all two
unfolding encode_envelope
split_read = refl

-- What stands behind a trailer waits for the next chunk.
trailer_stops :
    read_chunks [] ((2 ∷ 0 ∷ 0 ∷ 0 ∷ 0 ∷ 0 ∷ 0 ∷ 0 ∷ 0 ∷ 0 ∷ []) ∷ [])
    ≡ (record { flags = 2; payload = [] } ∷ [], 0 ∷ 0 ∷ 0 ∷ 0 ∷ 0 ∷ [])
unfolding read_chunks
trailer_stops = refl

read_chunks-encode_envelope_example : read_chunks [] cut ≡ (map envelope two, [])
read_chunks-encode_envelope_example = read_chunks-encode_envelope two cut two_fit split_read
