-- ===== src/Block/Rle/Iterator/New.antt =====
-- A fresh iterator holds the runs that its counts and its inner iterator describe.
use risinglight.Prelude.{
  ℕ, ◌≡◌, refl, ap, true, Option, none, List, [], ◌∷◌, arith, ok, length, length-append,
  length-replicate, replicate, unroll,
}
use risinglight.Block.Interface.{BlockIterator, IsBlockIterator}
use risinglight.Block.Varint.{decode_u32}
use risinglight.Block.Rle.Iterator.{RleBlockIterator, new, sum}
use risinglight.Block.Rle.Iterator.View.{Tracks, pending, pending-zero, InRun}

sum-unroll :
    {X : Type 0} (xs : List X) (ns : List ℕ)
    → length xs ≡ length ns
    → sum ns ≡ length (unroll xs ns)
sum-unroll [] [] h = refl
sum-unroll [] (n ∷ ns) h = absurd (omega arith)
sum-unroll (x ∷ xs) [] h = absurd (omega arith)
sum-unroll (x ∷ xs) (n ∷ ns) h = omega (
  arith,
  sum-unroll xs ns (omega arith),
  length-append (replicate n x) (unroll xs ns),
  length-replicate n x,
)

InRun-start : (ns : List ℕ) → InRun 0 ns
InRun-start [] = tt
InRun-start (n ∷ ns) = omega arith

module _ {A : Type 0} (I : BlockIterator A) (L : IsBlockIterator I) where
  -- `RleBlockIterator::new` succeeds on bytes that decode to the run counts, and the new iterator
  -- has all the runs to read.
  pub new-Tracks :
      (inner : I.State) (bytes : List ℕ) (heads : List (Option A)) (counts : List ℕ)
      → decode_u32 bytes ≡ ok counts
      → length heads ≡ length counts
      → L.Holds inner heads
      → (s : RleBlockIterator I.State A) × (new I inner bytes (length counts) ≡ ok s)
        × Tracks I L s heads counts
        × (pending s.cur_scanned_count heads counts ≡ unroll heads counts)
  unfolding new
  new-Tracks inner bytes heads counts decoded aligned holds = (
    record {
      block_iter = inner;
      rle_block = counts;
      cur_row = 0;
      cur_scanned_count = 0;
      rle_row_count = length counts;
      cur_element = none;
      row_scanned_count = 0;
      row_count = sum counts;
      never_used = true;
    },
    rw decoded,
    record {
      runs = refl;
      at_row = refl;
      inside = omega arith;
      aligned = aligned;
      inner = holds;
      current = tt;
      scanned = InRun-start counts;
      total = omega (arith, sum-unroll heads counts aligned, ap length (pending-zero heads counts));
    },
    pending-zero heads counts,
  )
