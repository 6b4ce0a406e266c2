-- ===== src/Block/Varint.antt =====
-- storage/secondary/block/rle_block_builder.rs: the variable-length integers of the run lengths.
-- A byte is a number below 256, and a slice of bytes is a list.
pub mod Encode
pub mod Decode
pub mod RoundTrip
mod Tests
use mathlib.Core.Logic.{dite}
use mathlib.Core.WellFounded.{Acc}
use risinglight.Prelude.{
  ℕ, zero, suc, ◌+◌, ◌-◌, ◌*◌, ◌/◌, ◌%◌, ◌^◌, ◌<◌, bit_or, List, [], ◌∷◌, ◌++◌, Result, ok, err,
  panic, ◌>>=◌, ◌>>◌, assert, unwrap, arith, dec_lt, ltb, leb, if◌then◌else◌, length, get_elem?,
  drop,
}
use risinglight.Prelude.Order.{lt_wf}

pub data DecodeError : Type 0 where
  invalid_varint : DecodeError

-- Arithmetic of `u32`, which wraps.
abbrev pub u32_mod : ℕ
u32_mod = 2 ^ 32

abbrev pub add32 : ℕ → ℕ → ℕ
add32 a b = (a + b) % u32_mod

abbrev pub sub32 : ℕ → ℕ → ℕ
sub32 a b = (a + u32_mod - b) % u32_mod

abbrev pub shl32 : ℕ → ℕ → ℕ
shl32 a k = a * 2 ^ k % u32_mod

pub shift_shrinks : (v : ℕ) → ¬ (v < 0x80) → v / 128 < v
shift_shrinks v h = omega arith

-- `value & 0x7F` is `value % 128` and `value >>= 7` is `value / 128`. No fuel: the value shrinks.
encode_loop : (value : ℕ) → Acc ◌<◌ value → List ℕ
encode_loop value (Acc.intro _ smaller) =
    dite (dec_lt value 0x80) (λ _. value % 256 ∷ [])
      (λ more.
        bit_or (value % 128) 0x80 % 256
        ∷ encode_loop (value / 128) (smaller (value / 128) (shift_shrinks value more)))

unfoldable pub encode_32 : ℕ → List ℕ
unfolding encode_loop lt_wf dec_lt
encode_32 value = encode_loop value (lt_wf.apply value)

-- A read past the end of the slice (`get_unchecked`) is undefined; it is a panic here.
pub decode_u32_slice : List ℕ → Result DecodeError (ℕ × ℕ)
decode_u32_slice bytes = do
  b0 ← unwrap (get_elem? bytes 0)
  let part0 = b0
  if ltb b0 0x80 then ok (part0, 1) else do
    let part1 = sub32 part0 0x80
    b1 ← unwrap (get_elem? bytes 1)
    let part2 = add32 part1 (shl32 b1 7)
    if ltb b1 0x80 then ok (part2, 2) else do
      let part3 = sub32 part2 (shl32 0x80 7)
      b2 ← unwrap (get_elem? bytes 2)
      let part4 = add32 part3 (shl32 b2 14)
      if ltb b2 0x80 then ok (part4, 3) else do
        let part5 = sub32 part4 (shl32 0x80 14)
        b3 ← unwrap (get_elem? bytes 3)
        let part6 = add32 part5 (shl32 b3 21)
        if ltb b3 0x80 then ok (part6, 4) else do
          let part7 = sub32 part6 (shl32 0x80 21)
          b4 ← unwrap (get_elem? bytes 4)
          if ltb b4 0x0f then ok (add32 part7 (shl32 b4 28), 5) else err invalid_varint

-- The loop of `decode_u32`: `bytes` is what is left of the buffer, of which `tot` bytes are read.
-- Each round reads a byte at least, so the length of the buffer is fuel enough.
pub decode_loop : ℕ → List ℕ → ℕ → ℕ → Result DecodeError (List ℕ)
decode_loop zero bytes tot len = if ltb tot len then panic else ok []
decode_loop (suc fuel) bytes tot len =
    if ltb tot len
    then (do
      (value, advance) ← decode_u32_slice bytes
      assert (leb advance (length bytes))
      values ← decode_loop fuel (drop advance bytes) (tot + advance) len
      ok (value ∷ values))
    else ok []

pub decode_u32 : List ℕ → Result DecodeError (List ℕ)
unfolding decode_loop
decode_u32 bytes =
    let len = length bytes in if ltb 0 len then decode_loop len bytes 0 len else err invalid_varint
