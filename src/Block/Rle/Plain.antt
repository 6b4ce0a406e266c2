-- ===== src/Block/Rle/Plain.antt =====
-- Run-length encoding over plain blocks of fixed-width values.
use risinglight.Prelude.{
  PartialEq, ℕ, ◌^◌, ◌<◌, ◌*◌, ◌≡◌, refl, subst, ap, Option, none, some, List, [], ◌∷◌, map, ok,
  length, All,
}
use risinglight.Block.Interface.{FixedWidth, IsFixedWidth}
use risinglight.Block.Primitive.{
  PrimitiveFixedWidthEncode, IsFixedWidthEncode, PlainPrimitiveBlockBuilder,
  PlainPrimitiveBlockIterator, builder_interface, iterator_interface, new_builder, new_iterator,
}
use risinglight.Block.Primitive.Laws
use risinglight.Block.Primitive.Laws.{plain_contract, written, finish-HoldsRows}
use risinglight.Block.Rle.Builder
use risinglight.Block.Rle.Builder.{append_all}
use risinglight.Block.Rle.Builder.Runs.{append_inner}
use risinglight.Block.Rle.Iterator.{decode_rle_block, RleBlockIterator, new}
use risinglight.Block.Rle.Contract.{HoldsRuns}
use risinglight.Block.Rle.RoundTrip.{ReadsBack, rle_round_trip}

abbrev pub IsPresent : {T : Type 0} → Option T → Type 0
IsPresent none = ⊥
IsPresent (some x) = Unit

module _ {T : Type 0} (e : PrimitiveFixedWidthEncode T) (el : IsFixedWidthEncode e) where
  append_inner-plain :
      (items : List (Option T)) (s : PlainPrimitiveBlockBuilder)
      → append_inner (builder_interface e) items s ≡ Laws.append_all e items s
  unfolding append_inner Laws.append_all
  append_inner-plain [] s = refl
  append_inner-plain (item ∷ items) s = append_inner-plain items _

  written_present :
      (items : List (Option T)) → All IsPresent items → map (λ o. some (written e o)) items ≡ items
  written_present [] h = refl
  written_present (none ∷ items) h = absurd h.0
  written_present (some x ∷ items) h = ap (◌∷◌ (some x)) (written_present items h.1)

  plain_ReadsBack :
      (p : PartialEq T) (c : FixedWidth) (law : IsFixedWidth c) (target_size : ℕ)
      → ReadsBack p
          (builder_interface e)
          c
          law
          (iterator_interface e)
          (plain_contract e el)
          IsPresent
          (new_builder e target_size)
          (new_iterator e)
  unfolding plain_contract
  plain_ReadsBack p c law target_size heads present =
      let e1 = append_inner-plain heads (new_builder e target_size) in
      rw e1 (
        subst (Laws.HoldsRows e _) (written_present heads present)
          (finish-HoldsRows e el heads target_size))

  -- Run-length encoding over plain blocks: fewer than 3 * 2 ^ 28 items, none of them null, come back
  -- from the bytes of the block as they were appended.
  pub rle_plain_round_trip :
      (p : PartialEq T) (c : FixedWidth)
      → IsFixedWidth c
      → (target_size : ℕ) (item : Option T) (items : List (Option T))
      → length (item ∷ items) < 3 * 2 ^ 28
      → All IsPresent (item ∷ items)
      → (n : ℕ) × (bytes body : List ℕ) × (s : RleBlockIterator PlainPrimitiveBlockIterator T)
        × (decode_rle_block c (
              Builder.finish p (builder_interface e) c (
                append_all p
                  (builder_interface e)
                  (item ∷ items)
                  (Builder.new p (builder_interface e) (new_builder e target_size))))
            ≡ ok (n, bytes, body))
        × (new (iterator_interface e) (new_iterator e body n) bytes n ≡ ok s)
        × HoldsRuns (iterator_interface e) (plain_contract e el) s (item ∷ items)
  rle_plain_round_trip p c law target_size =
      rle_round_trip p (builder_interface e) c law (iterator_interface e) (plain_contract e el)
        IsPresent (new_builder e target_size) (new_iterator e) (plain_ReadsBack p c law target_size)
