-- ===== src/Block/Varint/RoundTrip.antt =====
-- Decoding what the encoder wrote.
use risinglight.Prelude.{
  ℕ, zero, suc, ◌+◌, ◌*◌, ◌^◌, ◌≤◌, ◌<◌, ◌≡◌, ◌≢◌, refl, inl, inr, List, [], ◌∷◌, ◌++◌, arith, ok,
  err, All, leb, lt→ltb, tests, true, ◌∙◌, length, length-append, drop-length-append, flat_map,
  ◌>>=◌,
}
use risinglight.Block.Varint.{
  invalid_varint, encode_32, decode_u32_slice, decode_loop, decode_u32, u32_mod,
}
use risinglight.Block.Varint.Encode.{
  size_cases, encode_32-one, encode_32-two, encode_32-three, encode_32-four, encode_32-five,
}
use risinglight.Block.Varint.Decode.{
  decode-one, decode-two, decode-three, decode-four, decode-five, decode-overlong,
}

-- Every value below 2 ^ 32 takes one to five bytes, and each is a byte.
pub encode_32_bounds :
    (v : ℕ)
    → v < u32_mod
    → (1 ≤ length (encode_32 v)) × (length (encode_32 v) ≤ 5) × All (λ b. b < 256) (encode_32 v)
encode_32_bounds v h = elim (size_cases v) [
  | inl c ↦ rw (encode_32-one v c) (omega arith)
  | inr (inl c) ↦ rw (encode_32-two v c.0 c.1) (omega arith)
  | inr (inr (inl c)) ↦ rw (encode_32-three v c.0 c.1) (omega arith)
  | inr (inr (inr (inl c))) ↦ rw (encode_32-four v c.0 c.1) (omega arith)
  | inr (inr (inr (inr c))) ↦ rw (encode_32-five v c (omega arith)) (omega arith)
]

-- The encoding of a value below 15 * 2 ^ 28 decodes to that value and its own length, whatever bytes
-- follow it.
pub decode_u32_slice-encode_32 :
    (v : ℕ) (rest : List ℕ)
    → v < 15 * 2 ^ 28
    → decode_u32_slice (encode_32 v ++ rest) ≡ ok (v, length (encode_32 v))
decode_u32_slice-encode_32 v rest h = elim (size_cases v) [
  | inl c ↦ rw (encode_32-one v c) (decode-one v rest c)
  | inr (inl c) ↦ rw (encode_32-two v c.0 c.1) (decode-two v rest c.0 c.1)
  | inr (inr (inl c)) ↦ rw (encode_32-three v c.0 c.1) (decode-three v rest c.0 c.1)
  | inr (inr (inr (inl c))) ↦ rw (encode_32-four v c.0 c.1) (decode-four v rest c.0 c.1)
  | inr (inr (inr (inr c))) ↦ rw (encode_32-five v c (omega arith)) (decode-five v rest c h)
]

-- The decoder fails on the encoding of every `u32` from 15 * 2 ^ 28 on.
pub decode_u32_slice-encode_32_large :
    (v : ℕ) (rest : List ℕ)
    → 15 * 2 ^ 28 ≤ v
    → v < u32_mod
    → decode_u32_slice (encode_32 v ++ rest) ≡ err invalid_varint
decode_u32_slice-encode_32_large v rest l h =
    rw (encode_32-five v (omega arith) (omega arith)) (decode-overlong v rest l h)

-- One round of the loop reads one value.
decode_loop-encode_32 :
    (fuel v : ℕ) (bytes : List ℕ) (tot len : ℕ)
    → v < 15 * 2 ^ 28
    → tot < len
    → decode_loop (suc fuel) (encode_32 v ++ bytes) tot len
      ≡ (decode_loop fuel bytes (tot + length (encode_32 v)) len >>= λ values. ok (v ∷ values))
unfolding decode_loop
decode_loop-encode_32 fuel v bytes tot len h more =
    rw (lt→ltb _ _ more, decode_u32_slice-encode_32 v bytes h, fits, drop-length-append)
  where
    fits : leb (length (encode_32 v)) (length (encode_32 v ++ bytes)) ≡ true
    fits = omega (tests, length-append (encode_32 v) bytes)

-- The loop reads back a whole run of encodings.
decode_loop-flat_map :
    (values : List ℕ) (fuel tot len : ℕ)
    → All (λ v. v < 15 * 2 ^ 28) values
    → tot + length (flat_map encode_32 values) ≡ len
    → length (flat_map encode_32 values) ≤ fuel
    → decode_loop fuel (flat_map encode_32 values) tot len ≡ ok values
unfolding decode_loop
decode_loop-flat_map [] zero tot len small e f = ground arith
decode_loop-flat_map [] (suc fuel) tot len small e f = ground arith
decode_loop-flat_map (v ∷ values) zero tot len small e f = absurd (
    omega (
      arith,
      length-append (encode_32 v) (flat_map encode_32 values),
      (encode_32_bounds v (omega arith)).0,
    ))
decode_loop-flat_map (v ∷ values) (suc fuel) tot len small e f =
    decode_loop-encode_32 fuel v (flat_map encode_32 values) tot len small.0
      (omega (arith, sizes, head))
    ∙ rw (
        decode_loop-flat_map values fuel (tot + length (encode_32 v)) len small.1
          (omega (arith, sizes)) (omega (arith, sizes, head)))
  where
    sizes :
        length (encode_32 v ++ flat_map encode_32 values)
        ≡ length (encode_32 v) + length (flat_map encode_32 values)
    sizes = length-append (encode_32 v) (flat_map encode_32 values)

    head : 1 ≤ length (encode_32 v)
    head = (encode_32_bounds v (omega arith)).0

-- A nonempty list of values below 15 * 2 ^ 28 is read back from the concatenation of its encodings.
pub decode_u32-flat_map :
    (values : List ℕ)
    → values ≢ []
    → All (λ v. v < 15 * 2 ^ 28) values
    → decode_u32 (flat_map encode_32 values) ≡ ok values
unfolding decode_u32
decode_u32-flat_map [] n small = absurd (n refl)
decode_u32-flat_map (v ∷ values) n small =
    let bytes = flat_map encode_32 (v ∷ values) in
    let more : 0 < length bytes = omega (
      arith,
      length-append (encode_32 v) (flat_map encode_32 values),
      (encode_32_bounds v (omega arith)).0,
    ) in
    rw (lt→ltb _ _ more) (
      decode_loop-flat_map (v ∷ values) (length bytes) 0 (length bytes) small (omega arith)
        (omega arith))
