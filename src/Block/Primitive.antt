-- ===== src/Block/Primitive.antt =====
-- storage/secondary/encode.rs and block/primitive_block_builder.rs, primitive_block_iterator.rs:
-- plain blocks of values of one width.
pub mod Laws
mod Tests
use risinglight.Prelude.{
  ℕ, zero, suc, ◌+◌, ◌-◌, ◌*◌, ◌≤◌, ◌<◌, ◌≡◌, Bool, true, false, not, ◌&&◌, Option, none, some,
  List, [], ◌∷◌, ◌++◌, Result, ok, panic, Never, ◌>>=◌, ◌>>◌, assert, checked_sub, if◌then◌else◌,
  ltb, leb, length, drop,
}
use risinglight.Block.Interface.{BlockBuilder, BlockIterator}

-- The trait, for a type `T` of values.
pub record PrimitiveFixedWidthEncode (T : Type 0) : Type 0 where
  pub width : ℕ
  pub default_value : T
  pub encode : T → List ℕ
  pub decode : List ℕ → Result Never (T × List ℕ)

pub record IsFixedWidthEncode {T : Type 0} (c : PrimitiveFixedWidthEncode T) : Type 0 where
  pub length-encode : (x : T) → length (c.encode x) ≡ c.width
  pub decode-encode : (x : T) (rest : List ℕ) → c.decode (c.encode x ++ rest) ≡ ok (x, rest)

-- `bool` is one byte.
abbrev pub bool_encode : PrimitiveFixedWidthEncode Bool
bool_encode = record {
  width = 1;
  default_value = false;
  encode = λ b. (if b then 1 else 0) ∷ [];
  decode = elim [ [] ↦ panic | byte ∷ rest ↦ ok (ltb 0 byte, rest) ];
}

pub record PlainPrimitiveBlockBuilder : Type 0 where
  pub contents : List ℕ
  pub target_size : ℕ

pub record PlainPrimitiveBlockIterator : Type 0 where
  pub block : List ℕ
  pub row_count : ℕ
  pub next_row : ℕ

module _ {T : Type 0} (c : PrimitiveFixedWidthEncode T) where
  unfoldable pub new_builder : ℕ → PlainPrimitiveBlockBuilder
  new_builder target_size = record { contents = []; target_size = target_size }

  pub append_value : T → PlainPrimitiveBlockBuilder → PlainPrimitiveBlockBuilder
  append_value item s = record s { contents = s.contents ++ c.encode item }

  pub append_default : PlainPrimitiveBlockBuilder → PlainPrimitiveBlockBuilder
  append_default s = record s { contents = s.contents ++ c.encode c.default_value }

  unfoldable pub append : Option T → PlainPrimitiveBlockBuilder → PlainPrimitiveBlockBuilder
  unfolding append_value append_default
  append (some item) s = append_value item s
  append none s = append_default s

  pub estimated_size : PlainPrimitiveBlockBuilder → ℕ
  estimated_size s = length s.contents

  pub estimated_size_with_next_item : Option T → PlainPrimitiveBlockBuilder → ℕ
  unfolding estimated_size
  estimated_size_with_next_item next_item s = estimated_size s + c.width

  pub is_empty : PlainPrimitiveBlockBuilder → Bool
  is_empty s = elim s.contents [ [] ↦ true | _ ∷ _ ↦ false ]

  pub should_finish : Option T → PlainPrimitiveBlockBuilder → Bool
  unfolding is_empty estimated_size_with_next_item
  should_finish next_item s =
      not (is_empty s) && ltb s.target_size (estimated_size_with_next_item next_item s)

  unfoldable pub finish : PlainPrimitiveBlockBuilder → List ℕ
  finish s = s.contents

  abbrev pub builder_interface : BlockBuilder T
  builder_interface = record {
    State = PlainPrimitiveBlockBuilder;
    append = append;
    estimated_size = estimated_size;
    should_finish = should_finish;
    finish = finish;
  }

  unfoldable pub new_iterator : List ℕ → ℕ → PlainPrimitiveBlockIterator
  new_iterator block row_count = record { block = block; row_count = row_count; next_row = 0 }

  -- The loop of `next_batch_non_null`, over the rest of the block's bytes. Each round but the last
  -- reads a row, so one round more than there are rows is fuel enough.
  pub read_loop :
      ℕ
      → Option ℕ
      → ℕ
      → List (Option T)
      → List ℕ
      → PlainPrimitiveBlockIterator
      → Result Never (ℕ × List (Option T) × PlainPrimitiveBlockIterator)
  read_loop zero expected_size cnt builder buffer s = panic
  read_loop (suc fuel) expected_size cnt builder buffer s = do
    full ← elim expected_size [ none ↦ ok false | some e ↦ assert (ltb 0 e) >> ok (leb e cnt) ]
    if full
        then ok (cnt, builder, s)
        else (if leb s.row_count s.next_row then ok (cnt, builder, s) else (do
          (item, buffer') ← c.decode buffer
          read_loop fuel expected_size (cnt + 1) (builder ++ some item ∷ []) buffer'
              (record s { next_row = s.next_row + 1 })))

  pub next_batch_non_null :
      Option ℕ
      → List (Option T)
      → PlainPrimitiveBlockIterator
      → Result Never (ℕ × List (Option T) × PlainPrimitiveBlockIterator)
  next_batch_non_null expected_size builder s =
      if leb s.row_count s.next_row then ok (0, builder, s) else (do
        assert (leb (s.next_row * c.width) (length s.block))
        read_loop (s.row_count - s.next_row + 1) expected_size 0 builder
            (drop (s.next_row * c.width) s.block) s)

  pub skip : ℕ → PlainPrimitiveBlockIterator → Result Never PlainPrimitiveBlockIterator
  skip cnt s = ok (record s { next_row = s.next_row + cnt })

  pub remaining_items : PlainPrimitiveBlockIterator → Result Never ℕ
  remaining_items s = checked_sub s.row_count s.next_row

  abbrev pub iterator_interface : BlockIterator T
  iterator_interface = record {
    State = PlainPrimitiveBlockIterator;
    next_batch = next_batch_non_null;
    skip = skip;
    remaining_items = remaining_items;
  }
