-- ===== src/Block/Rle/Tests.antt =====
-- Run-length encoded blocks of `bool`, and the theorems at them.
use risinglight.Prelude.{
  PartialEq, ℕ, ◌+◌, ◌*◌, ◌/◌, ◌%◌, ◌≡◌, ◌↔◌, refl, ap, Bool, true, false, Option, some, List, [],
  ◌∷◌, ◌++◌, ok, panic, arith,
}
use risinglight.Block.Interface.{FixedWidth, IsFixedWidth}
use risinglight.Block.Primitive.{
  PrimitiveFixedWidthEncode, bool_encode, IsFixedWidthEncode, PlainPrimitiveBlockIterator,
  builder_interface, iterator_interface, new_builder, new_iterator,
}
use risinglight.Block.Primitive
use risinglight.Block.Varint.{encode_32}
use risinglight.Block.Primitive.Laws.{plain_contract}
use risinglight.Block.Rle.Builder
use risinglight.Block.Rle.Builder.{append_all}
use risinglight.Block.Rle.Builder.Runs.{Encodes, append_all-Encodes}
use risinglight.Block.Rle.Iterator.{
  RleBlockIterator, decode_rle_block, new, next_batch, skip, remaining_items,
}
use risinglight.Block.Rle.Contract.{
  HoldsRuns, next_batch-HoldsRuns, skip-HoldsRuns, remaining_items-HoldsRuns,
}
use risinglight.Block.Rle.Plain.{rle_plain_round_trip}

bool_decode :
    (b : Bool) (rest : List ℕ) → bool_encode.decode (bool_encode.encode b ++ rest) ≡ ok (b, rest)
bool_decode true rest = refl
bool_decode false rest = refl

bool_law : IsFixedWidthEncode bool_encode
bool_law = record { length-encode = λ b. refl; decode-encode = bool_decode }

-- A codec that does what the crate documents.
little_endian : FixedWidth
little_endian = record {
  put_u32_le = λ v. v % 256 ∷ v / 256 % 256 ∷ v / 65536 % 256 ∷ v / 16777216 % 256 ∷ [];
  get_u32_le = elim [
    | a ∷ b ∷ c ∷ d ∷ rest ↦ ok (a + b * 256 + c * 65536 + d * 16777216, rest)
    | _ ↦ panic
  ];
}

little_endian_law : IsFixedWidth little_endian
unfolding little_endian
little_endian_law = record {
  length-put = λ v. refl;
  get-put = λ v rest h. ap (λ (t : ℕ). ok (t, rest)) (omega arith);
}

bool_eq : Bool → Bool → Bool
bool_eq true b = b
bool_eq false true = false
bool_eq false false = true

bool_eq_iff : (a b : Bool) → (bool_eq a b ≡ true) ↔ (a ≡ b)
unfolding bool_eq
bool_eq_iff a b = ground arith

abbrev bools : PartialEq Bool
bools = record { eq = bool_eq; eq_iff = bool_eq_iff }

abbrev items : List (Option Bool)
items = some true ∷ some false ∷ some false ∷ []

abbrev Iter : Type 0
Iter = RleBlockIterator PlainPrimitiveBlockIterator Bool

abbrev Holds : Iter → List (Option Bool) → Type 0
Holds = HoldsRuns (iterator_interface bool_encode) (plain_contract bool_encode bool_law)

append_all-Encodes_example :
    (closed : List (Option Bool)) × Encodes
      (builder_interface bool_encode)
      (new_builder bool_encode 16)
      (append_all bools
        (builder_interface bool_encode)
        (some true ∷ items)
        (Builder.new bools (builder_interface bool_encode) (new_builder bool_encode 16)))
      (some true ∷ items)
      closed
append_all-Encodes_example =
    append_all-Encodes bools (builder_interface bool_encode) (new_builder bool_encode 16)
      (some true) items

rle_plain_round_trip_example :
    (n : ℕ) × (bytes body : List ℕ) × (s : Iter) × (decode_rle_block little_endian (
        Builder.finish bools (builder_interface bool_encode) little_endian (
          append_all bools
            (builder_interface bool_encode)
            (some true ∷ items)
            (Builder.new bools (builder_interface bool_encode) (new_builder bool_encode 16))))
      ≡ ok (n, bytes, body))
    × (new (iterator_interface bool_encode) (new_iterator bool_encode body n) bytes n ≡ ok s)
    × Holds s (some true ∷ items)
rle_plain_round_trip_example =
    rle_plain_round_trip bool_encode bool_law bools little_endian little_endian_law 16 (some true)
      items (omega arith) (tt, (tt, (tt, (tt, tt))))

abbrev sample : Iter
sample = rle_plain_round_trip_example.3

next_batch-HoldsRuns_example :
    (s : Iter) × (next_batch (iterator_interface bool_encode) (some 3) [] sample
      ≡ ok (3, some true ∷ some true ∷ some false ∷ [], s))
    × Holds s (some false ∷ [])
next_batch-HoldsRuns_example =
    next_batch-HoldsRuns (iterator_interface bool_encode) (plain_contract bool_encode bool_law) 3
      sample (some true ∷ items) (omega arith) rle_plain_round_trip_example.6

skip-HoldsRuns_example :
    (s : Iter) × (skip (iterator_interface bool_encode) 3 sample ≡ ok s) × Holds s (some false ∷ [])
skip-HoldsRuns_example =
    skip-HoldsRuns (iterator_interface bool_encode) (plain_contract bool_encode bool_law) 3 sample
      (some true ∷ items) (omega arith) rle_plain_round_trip_example.6

remaining_items-HoldsRuns_example : remaining_items (iterator_interface bool_encode) sample ≡ ok 4
remaining_items-HoldsRuns_example =
    remaining_items-HoldsRuns (iterator_interface bool_encode) (plain_contract bool_encode bool_law)
      sample (some true ∷ items) rle_plain_round_trip_example.6

-- Two runs: the counts 2 and 2 take a byte each, and the inner block holds two items.
block_of_items :
    Builder.finish bools (builder_interface bool_encode) little_endian (
      append_all bools
        (builder_interface bool_encode)
        (some true ∷ items)
        (Builder.new bools (builder_interface bool_encode) (new_builder bool_encode 16)))
    ≡ 2 ∷ 0 ∷ 0 ∷ 0 ∷ 2 ∷ 0 ∷ 0 ∷ 0 ∷ 2 ∷ 2 ∷ 1 ∷ 0 ∷ []
unfolding Builder.finish append_all Builder.new new_builder Primitive.append Primitive.finish
    encode_32 little_endian bool_eq
block_of_items = refl
