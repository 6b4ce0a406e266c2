-- ===== src/Block/Primitive/Tests.antt =====
-- Plain blocks of `bool`, and the theorems at them.
use risinglight.Prelude.{
  ℕ, ◌+◌, ◌<◌, ◌≡◌, ◌≢◌, ◌↔◌, refl, Bool, true, false, Option, none, some, List, [], ◌∷◌, ◌++◌, map,
  ok, arith, length,
}
use risinglight.Block.Primitive.{
  IsFixedWidthEncode, bool_encode, new_builder, finish, new_iterator, next_batch_non_null,
  read_loop, should_finish, PlainPrimitiveBlockBuilder, PlainPrimitiveBlockIterator, skip,
}
use risinglight.Block.Primitive.Laws.{
  append_all, HoldsRows, written, finish-HoldsRows, next_batch-HoldsRows, skip-HoldsRows,
  should_finish_lem,
}

bool_decode :
    (b : Bool) (rest : List ℕ) → bool_encode.decode (bool_encode.encode b ++ rest) ≡ ok (b, rest)
bool_decode true rest = refl
bool_decode false rest = refl

bool_law : IsFixedWidthEncode bool_encode
bool_law = record { length-encode = λ b. refl; decode-encode = bool_decode }

two_rows :
    next_batch_non_null bool_encode (some 2) [] (new_iterator bool_encode (1 ∷ 0 ∷ 1 ∷ []) 3)
    ≡ ok (
      2,
      some true ∷ some false ∷ [],
      record (new_iterator bool_encode (1 ∷ 0 ∷ 1 ∷ []) 3) { next_row = 2 },
    )
unfolding next_batch_non_null read_loop new_iterator
two_rows = refl

abbrev items : List (Option Bool)
items = some true ∷ none ∷ some false ∷ []

three_rows :
    HoldsRows bool_encode
      (new_iterator bool_encode
        (finish bool_encode (append_all bool_encode items (new_builder bool_encode 16)))
        3)
      (map (λ o. some (written bool_encode o)) items)
three_rows = finish-HoldsRows bool_encode bool_law items 16

next_batch-HoldsRows_example :
    (s : PlainPrimitiveBlockIterator) × (next_batch_non_null bool_encode (some 2) [] (
        new_iterator bool_encode
          (finish bool_encode (append_all bool_encode items (new_builder bool_encode 16)))
          3)
      ≡ ok (2, some true ∷ some false ∷ [], s))
    × HoldsRows bool_encode s (some false ∷ [])
next_batch-HoldsRows_example =
    next_batch-HoldsRows bool_encode bool_law 2 _ (map (λ o. some (written bool_encode o)) items)
      (omega arith) three_rows

skip-HoldsRows_example :
    (s : PlainPrimitiveBlockIterator) × (skip bool_encode 2 (
        new_iterator bool_encode
          (finish bool_encode (append_all bool_encode items (new_builder bool_encode 16)))
          3)
      ≡ ok s)
    × HoldsRows bool_encode s (some false ∷ [])
skip-HoldsRows_example =
    skip-HoldsRows bool_encode bool_law 2 _ (map (λ o. some (written bool_encode o)) items)
      (omega arith) three_rows

finish-HoldsRows_example :
    HoldsRows bool_encode
      (new_iterator bool_encode
        (finish bool_encode (append_all bool_encode items (new_builder bool_encode 16)))
        3)
      (map (λ o. some (written bool_encode o)) items)
finish-HoldsRows_example = finish-HoldsRows bool_encode bool_law items 16

abbrev full : PlainPrimitiveBlockBuilder
full = record { contents = 1 ∷ 0 ∷ []; target_size = 2 }

should_finish_lem_example :
    (should_finish bool_encode (some true) full ≡ true)
    ↔ ((full.contents ≢ []) × (full.target_size < length full.contents + bool_encode.width))
should_finish_lem_example = should_finish_lem bool_encode bool_law (some true) full
