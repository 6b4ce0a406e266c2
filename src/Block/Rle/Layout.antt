-- ===== src/Block/Rle/Layout.antt =====
-- The bytes of a run-length encoded block, and what the iterator over them holds.
use risinglight.Prelude.{
  PartialEq, ℕ, ◌+◌, ◌-◌, ◌*◌, ◌%◌, ◌≤◌, ◌<◌, ◌≡◌, false, List, [], ◌∷◌, ◌++◌, arith, ok, length,
  length-append, drop, take, flat_map, drop-length-append, drop-add, take-length-append,
  take-length, ◌==◌,
}
use risinglight.Block.Interface.{BlockBuilder, FixedWidth, IsFixedWidth}
use risinglight.Block.Varint.{u32_mod, encode_32}
use risinglight.Block.Rle.Builder.{RleBlockBuilder, finish}
use risinglight.Block.Rle.Iterator.{slice, decode_rle_block}

-- The layout: two fixed-width numbers, the bytes of the counts, the inner block.
abbrev pub layout : FixedWidth → List ℕ → List ℕ → List ℕ → List ℕ
layout c counts encoded body =
    c.put_u32_le (length counts) ++ (c.put_u32_le (length encoded) ++ (encoded ++ body))

slice_lem :
    (from to : ℕ) (l : List ℕ)
    → from ≤ to
    → to ≤ length l
    → slice from to l ≡ ok (take (to - from) (drop from l))
unfolding slice
slice_lem from to l h k = ground arith

module _ (c : FixedWidth) (law : IsFixedWidth c) where
  module _ (counts encoded body : List ℕ) where
    drop-layout : drop (4 * 2) (layout c counts encoded body) ≡ encoded ++ body
    drop-layout =
        let number = c.put_u32_le (length counts) in
        let size = c.put_u32_le (length encoded) in
        let e : 4 * 2 ≡ length number + length size =
          omega (arith, law.length-put (length counts), law.length-put (length encoded)) in
        rw (e, drop-add, drop-length-append, drop-length-append)

    length-layout : length (layout c counts encoded body) ≡ 4 * 2 + length encoded + length body
    length-layout = omega (
      arith,
      length-append (c.put_u32_le (length counts))
          (c.put_u32_le (length encoded) ++ (encoded ++ body)),
      length-append (c.put_u32_le (length encoded)) (encoded ++ body),
      length-append encoded body,
      law.length-put (length counts),
      law.length-put (length encoded),
    )

    pub decode_rle_block-layout :
        length counts < u32_mod
        → length encoded < u32_mod
        → decode_rle_block c (layout c counts encoded body) ≡ ok (length counts, encoded, body)
    unfolding decode_rle_block
    decode_rle_block-layout few small = rw (
      law.get-put (length counts) _ few,
      law.get-put (length encoded) _ small,
      slice_lem (4 * 2) (4 * 2 + length encoded) (layout c counts encoded body) (omega arith)
          (omega (arith, length-layout)),
      slice_lem (4 * 2 + length encoded) (length (layout c counts encoded body))
          (layout c counts encoded body) (omega (arith, length-layout)) (omega arith),
      drop-add,
      drop-layout,
      drop-length-append,
      length-layout,
      middle,
      end,
      take-length-append,
      take-length,
    )
      where
        middle : 4 * 2 + length encoded - 4 * 2 ≡ length encoded
        middle = omega arith

        end : 4 * 2 + length encoded + length body - (4 * 2 + length encoded) ≡ length body
        end = omega arith

  module _ {A : Type 0} (p : PartialEq A) (B : BlockBuilder A) where
    pub finish-layout :
        (s : RleBlockBuilder B.State A) (counts : List ℕ)
        → 1 ≤ s.cur_count
        → counts ≡ s.rle_counts ++ s.cur_count ∷ []
        → length counts < u32_mod
        → length (flat_map encode_32 counts) < u32_mod
        → finish p B c s ≡ layout c counts (flat_map encode_32 counts) (B.finish s.block_builder)
    unfolding finish
    finish-layout s counts some_items e few small = rw (
      started,
      ← e,
      number,
      take-length-append,
      size,
      fits,
      drop-add,
      drop-length-append,
      four,
      drop-length-append,
    )
      where
        bytes : List ℕ
        bytes = flat_map encode_32 counts

        started : (s.cur_count == 0) ≡ false
        started = ground arith

        number : length counts % u32_mod ≡ length counts
        number = omega arith

        fits : length bytes % u32_mod ≡ length bytes
        fits = omega arith

        four : 4 ≡ length (c.put_u32_le 0xffff_ffff)
        four = omega (arith, law.length-put 0xffff_ffff)

        size :
            length (c.put_u32_le (length counts) ++ (c.put_u32_le 0xffff_ffff ++ bytes))
              - length (c.put_u32_le (length counts))
              - 4
            ≡ length bytes
        size = omega (
          arith,
          length-append (c.put_u32_le (length counts)) (c.put_u32_le 0xffff_ffff ++ bytes),
          length-append (c.put_u32_le 0xffff_ffff) bytes,
          law.length-put 0xffff_ffff,
        )
