-- ===== src/Block/Rle/RoundTrip.antt =====
-- From the items that are appended to the rows that are read, through the bytes of the block.
use risinglight.Prelude.{
  PartialEq, ℕ, zero, suc, ◌*◌, ◌^◌, ◌≤◌, ◌<◌, ◌≡◌, ◌≢◌, refl, sym, ap, ◌∙◌, Option, List, [], ◌∷◌,
  ◌++◌, arith, ok, length, length-append, flat_map, unroll, unroll-snoc, replicate,
  length-replicate, All, All-append, All-mono, ◌-◌,
}
use risinglight.Block.Interface.{
  BlockBuilder, BlockIterator, IsBlockIterator, FixedWidth, IsFixedWidth,
}
use risinglight.Block.Varint.{encode_32}
use risinglight.Block.Varint.RoundTrip.{decode_u32-flat_map, encode_32_bounds}
use risinglight.Block.Rle.Builder
use risinglight.Block.Rle.Builder.{RleBlockBuilder, finish, append_all}
use risinglight.Block.Rle.Builder.Runs.{Encodes, append_inner, append_all-Encodes, IsCount}
use risinglight.Block.Rle.Iterator.{decode_rle_block, RleBlockIterator, new}
use risinglight.Block.Rle.Iterator.New.{new-Tracks}
use risinglight.Block.Rle.Contract.{HoldsRuns}
use risinglight.Block.Rle.Layout.{decode_rle_block-layout, finish-layout}

-- Every run count is at most the number of rows, and so is the number of runs.
counts_small :
    {X : Type 0} (xs : List X) (ns : List ℕ) (bound : ℕ)
    → length xs ≡ length ns
    → All IsCount ns
    → length (unroll xs ns) < bound
    → All (λ n. n < bound) ns × (length ns < bound)
counts_small [] [] bound h k l = (tt, l)
counts_small [] (n ∷ ns) bound h k l = absurd (omega arith)
counts_small (x ∷ xs) [] bound h k l = absurd (omega arith)
counts_small (x ∷ xs) (n ∷ ns) bound h k l =
    let sizes = length-append (replicate n x) (unroll xs ns) in
    let copies = length-replicate n x in
    let (below, few) =
      counts_small xs ns (bound - n) (omega arith) k.1 (omega (arith, sizes, copies)) in
    ((omega (arith, sizes, copies), All-mono (λ m h. omega arith) ns below), omega (arith, k.0))

All-drop-append : {X : Type 0} (P : X → Type 0) (xs ys : List X) → All P (xs ++ ys) → All P ys
All-drop-append P [] ys h = h
All-drop-append P (x ∷ xs) ys h = All-drop-append P xs ys h.1

All-heads :
    {X : Type 0} (P : X → Type 0) (xs : List X) (ns : List ℕ)
    → length xs ≡ length ns
    → All IsCount ns
    → All P (unroll xs ns)
    → All P xs
All-heads P [] ns h k l = tt
All-heads P (x ∷ xs) [] h k l = absurd (omega arith)
All-heads P (x ∷ xs) (zero ∷ ns) h k l = absurd (omega (arith, k.0))
All-heads P (x ∷ xs) (suc n ∷ ns) h k l = (
  l.0,
  All-heads P xs ns (omega arith) k.1 (All-drop-append P (replicate n x) (unroll xs ns) l.1),
)

snoc-ne-nil : {X : Type 0} (xs : List X) (x : X) → xs ++ x ∷ [] ≢ []
snoc-ne-nil [] x h = cc
snoc-ne-nil (y ∷ xs) x h = cc

encoded_small :
    (ns : List ℕ) → All (λ n. n < 15 * 2 ^ 28) ns → length (flat_map encode_32 ns) ≤ 5 * length ns
encoded_small [] h = omega arith
encoded_small (n ∷ ns) h = omega (
  arith,
  length-append (encode_32 n) (flat_map encode_32 ns),
  (encode_32_bounds n (omega arith)).1,
  encoded_small ns h.1,
)

module _ {A : Type 0} (p : PartialEq A) (B : BlockBuilder A) (c : FixedWidth) (law : IsFixedWidth c)
    (I : BlockIterator A) (L : IsBlockIterator I) (Fits : Option A → Type 0) where
  -- The blocks of the inner encoding read back, for the items that it can represent: `open_inner`
  -- makes an iterator of a block's bytes and its number of items.
  abbrev pub ReadsBack : B.State → (List ℕ → ℕ → I.State) → Type 0
  ReadsBack b open_inner =
      (heads : List (Option A))
      → All Fits heads
      → L.Holds (open_inner (B.finish (append_inner B heads b)) (length heads)) heads

  module _ (b : B.State) (open_inner : List ℕ → ℕ → I.State) (reads : ReadsBack b open_inner) where
    reopen :
        (s : RleBlockBuilder B.State A) (items closed : List (Option A))
        → Encodes B b s items closed
        → length items < 3 * 2 ^ 28
        → All Fits items
        → (n : ℕ) × (bytes body : List ℕ) × (s' : RleBlockIterator I.State A) × (decode_rle_block c
              (finish p B c s)
            ≡ ok (n, bytes, body))
          × (new I (open_inner body n) bytes n ≡ ok s')
          × HoldsRuns I L s' items
    reopen s items closed e short fit =
        let heads = closed ++ s.previous_value ∷ [] in
        let counts = s.rle_counts ++ s.cur_count ∷ [] in
        let bytes = flat_map encode_32 counts in
        let body = B.finish s.block_builder in
        let rows : unroll heads counts ≡ items =
          unroll-snoc closed s.rle_counts s.previous_value s.cur_count e.aligned ∙ sym e.rows in
        let aligned : length heads ≡ length counts = omega (
          arith,
          length-append closed (s.previous_value ∷ []),
          length-append s.rle_counts (s.cur_count ∷ []),
          e.aligned,
        ) in
        let nonzero : All IsCount counts =
          All-append IsCount s.rle_counts _ e.closed_runs (e.open_run, tt) in
        let small : All (λ n. n < 15 * 2 ^ 28) counts =
          (counts_small heads counts (15 * 2 ^ 28) aligned nonzero
            (omega (arith, ap length rows))).0 in
        let few =
          (counts_small heads counts (3 * 2 ^ 28) aligned nonzero
            (omega (arith, ap length rows))).1 in
        let size : length bytes ≤ 5 * length counts = encoded_small counts small in
        let block_lem =
          finish-layout c law p B s counts e.open_run.0 refl (omega arith) (omega arith) in
        let holds : L.Holds (open_inner body (length counts)) heads =
          rw (← aligned, e.inner)
            (reads heads (All-heads Fits heads counts aligned nonzero (rw (← rows) at fit))) in
        let (s', made, tracks, left) =
          new-Tracks I L (open_inner body (length counts)) bytes heads counts
            (decode_u32-flat_map counts (snoc-ne-nil s.rle_counts s.cur_count) small) aligned
            holds in
        (
          length counts,
          bytes,
          body,
          s',
          rw block_lem
              (decode_rle_block-layout c law counts bytes body (omega arith) (omega arith)),
          made,
          record { heads = heads; counts = counts; tracks = tracks; left = left ∙ rows },
        )

    -- A run-length encoded block of fewer than 3 * 2 ^ 28 items reads back, through its bytes, as
    -- exactly the items that were appended, if the blocks of the inner encoding read back and the inner
    -- encoding can represent these items.
    pub rle_round_trip :
        (item : Option A) (items : List (Option A))
        → length (item ∷ items) < 3 * 2 ^ 28
        → All Fits (item ∷ items)
        → (n : ℕ) × (bytes body : List ℕ) × (s : RleBlockIterator I.State A) × (decode_rle_block c
              (finish p B c (append_all p B (item ∷ items) (Builder.new p B b)))
            ≡ ok (n, bytes, body))
          × (new I (open_inner body n) bytes n ≡ ok s)
          × HoldsRuns I L s (item ∷ items)
    rle_round_trip item items short fit =
        let (closed, e) = append_all-Encodes p B b item items in
        reopen _ (item ∷ items) closed e short fit
