-- ===== src/Block/Rle/Builder.antt =====
-- storage/secondary/block/rle_block_builder.rs: `RleBlockBuilder`, over any inner block builder.
pub mod Runs
use risinglight.Prelude.{
  ℕ, zero, suc, ◌+◌, ◌-◌, ◌*◌, ◌^◌, ◌%◌, ◌≡◌, ◌↔◌, Bool, true, false, not, ◌||◌, Option, none, some,
  List, [], ◌∷◌, ◌++◌, Result, ok, err, panic, Never, ◌>>=◌, if◌then◌else◌, ◌==◌, length, take,
  drop, flat_map, leb, PartialEq,
}
use risinglight.Block.Interface.{BlockBuilder, FixedWidth}
use risinglight.Block.Varint.{encode_32, u32_mod}

-- `==` on optional items
pub same_item : {A : Type 0} → PartialEq A → Option A → Option A → Bool
same_item p none none = true
same_item p (some a) (some b) = p.eq a b
same_item p _ _ = false

pub record RleBlockBuilder (S A : Type 0) : Type 0 where
  pub block_builder : S
  pub rle_counts : List ℕ
  pub previous_value : Option A
  pub cur_count : ℕ

module _ {A : Type 0} (p : PartialEq A) (B : BlockBuilder A) where
  unfoldable pub new : B.State → RleBlockBuilder B.State A
  new b = record { block_builder = b; rle_counts = []; previous_value = none; cur_count = 0 }

  pub append : Option A → RleBlockBuilder B.State A → RleBlockBuilder B.State A
  append item s =
      if s.cur_count == 0
      then record s {
        previous_value = item;
        block_builder = B.append item s.block_builder;
        cur_count = 1;
      }
      else (if not (same_item p item s.previous_value) || s.cur_count == u32_mod - 1
          then record s {
            previous_value = item;
            block_builder = B.append item s.block_builder;
            rle_counts = s.rle_counts ++ s.cur_count ∷ [];
            cur_count = 1;
          }
          else record s { cur_count = s.cur_count + 1 })

  unfoldable pub append_all :
      List (Option A) → RleBlockBuilder B.State A → RleBlockBuilder B.State A
  unfolding append same_item
  append_all [] s = s
  append_all (item ∷ items) s = append_all items (append item s)

  -- `size_of::<u16>()` is 2 and `size_of::<u32>()` is 4
  pub estimated_size : RleBlockBuilder B.State A → ℕ
  estimated_size s =
      B.estimated_size s.block_builder
      + length s.rle_counts * 2
      + 4
      + (if s.cur_count == 0 then 0 else 2)

  pub should_finish : Option A → RleBlockBuilder B.State A → Bool
  should_finish next_item s = B.should_finish next_item s.block_builder

  -- The run counts follow two fixed-width numbers: how many there are, and how many bytes they
  -- take, which is written over its placeholder once it is known.
  unfoldable pub finish : FixedWidth → RleBlockBuilder B.State A → List ℕ
  finish c s =
      if s.cur_count == 0
      then []
      else (let counts = s.rle_counts ++ s.cur_count ∷ [] in
          let number = c.put_u32_le (length counts % u32_mod) in
          let offset = length number in
          let placeholder = c.put_u32_le 0xffff_ffff in
          let encoded = number ++ (placeholder ++ flat_map encode_32 counts) in
          let block_length = c.put_u32_le ((length encoded - offset - 4) % u32_mod) in
          take offset encoded
          ++ (block_length ++ (drop (offset + 4) encoded ++ B.finish s.block_builder)))

  abbrev pub interface : FixedWidth → BlockBuilder A
  interface c = record {
    State = RleBlockBuilder B.State A;
    append = append;
    estimated_size = estimated_size;
    should_finish = should_finish;
    finish = finish c;
  }
