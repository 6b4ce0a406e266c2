-- ===== src/Block/Varint/Tests.antt =====
-- Runs of the variable-length integers, and the theorems at values of each length.
use risinglight.Prelude.{
  ◌≤◌, ◌<◌, ◌≡◌, refl, List, [], ◌∷◌, ◌++◌, arith, ok, err, length, flat_map, All, ℕ, ◌≢◌,
}
use risinglight.Block.Varint.{encode_32, decode_u32_slice, decode_u32, invalid_varint}
use risinglight.Block.Varint.RoundTrip.{
  encode_32_bounds, decode_u32_slice-encode_32, decode_u32_slice-encode_32_large,
  decode_u32-flat_map,
}

encode_300 : encode_32 300 ≡ 0xac ∷ 0x02 ∷ []
unfolding encode_32
encode_300 = refl

decode_truncated_payload : decode_u32_slice (0xac ∷ 0x02 ∷ 0x07 ∷ []) ≡ ok (300, 2)
unfolding decode_u32_slice
decode_truncated_payload = refl

decode_empty : decode_u32 [] ≡ err invalid_varint
unfolding decode_u32
decode_empty = refl

abbrev counts : List ℕ
counts = 3 ∷ 300 ∷ 268435455 ∷ []

encode_32_bounds_example :
    (1 ≤ length (encode_32 4294967295))
    × (length (encode_32 4294967295) ≤ 5)
    × All (λ b. b < 256) (encode_32 4294967295)
encode_32_bounds_example = encode_32_bounds 4294967295 (omega arith)

decode_u32_slice-encode_32_example :
    decode_u32_slice (encode_32 300 ++ 7 ∷ []) ≡ ok (300, length (encode_32 300))
decode_u32_slice-encode_32_example = decode_u32_slice-encode_32 300 (7 ∷ []) (omega arith)

decode_u32_slice-encode_32_large_example :
    decode_u32_slice (encode_32 4294967295 ++ []) ≡ err invalid_varint
decode_u32_slice-encode_32_large_example =
    decode_u32_slice-encode_32_large 4294967295 [] (omega arith) (omega arith)

counts-ne-nil : counts ≢ []
counts-ne-nil h = cc

decode_u32-flat_map_example : decode_u32 (flat_map encode_32 counts) ≡ ok counts
decode_u32-flat_map_example = decode_u32-flat_map counts counts-ne-nil (omega arith)
