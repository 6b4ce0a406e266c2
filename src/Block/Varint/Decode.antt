-- ===== src/Block/Varint/Decode.antt =====
-- The decoder on the bytes of a value.
use risinglight.Prelude.{ℕ, ◌*◌, ◌^◌, ◌≤◌, ◌<◌, ◌≡◌, List, ◌++◌, arith, ok, err}
use risinglight.Block.Varint.{invalid_varint, decode_u32_slice, u32_mod}
use risinglight.Block.Varint.Encode.{tail_bytes}

module _ (v : ℕ) (rest : List ℕ) where
  pub decode-one : v < 2 ^ 7 → decode_u32_slice (tail_bytes 0 v ++ rest) ≡ ok (v, 1)
  unfolding decode_u32_slice
  decode-one h = ground arith

  pub decode-two : 2 ^ 7 ≤ v → v < 2 ^ 14 → decode_u32_slice (tail_bytes 1 v ++ rest) ≡ ok (v, 2)
  unfolding decode_u32_slice
  decode-two l h = ground arith

  pub decode-three : 2 ^ 14 ≤ v → v < 2 ^ 21 → decode_u32_slice (tail_bytes 2 v ++ rest) ≡ ok (v, 3)
  unfolding decode_u32_slice
  decode-three l h = ground arith

  pub decode-four : 2 ^ 21 ≤ v → v < 2 ^ 28 → decode_u32_slice (tail_bytes 3 v ++ rest) ≡ ok (v, 4)
  unfolding decode_u32_slice
  decode-four l h = ground arith

  pub decode-five :
      2 ^ 28 ≤ v → v < 15 * 2 ^ 28 → decode_u32_slice (tail_bytes 4 v ++ rest) ≡ ok (v, 5)
  unfolding decode_u32_slice
  decode-five l h = ground arith

  pub decode-overlong :
      15 * 2 ^ 28 ≤ v → v < u32_mod → decode_u32_slice (tail_bytes 4 v ++ rest) ≡ err invalid_varint
  unfolding decode_u32_slice
  decode-overlong l h = ground arith
