-- ===== src/Block/Rle/Contract.antt =====
-- A run-length iterator keeps the contract of a block iterator if its inner iterator does.
use native.Mathlib.Nat.{zero-add}
use risinglight.Prelude.{
  ℕ, ◌-◌, ◌≤◌, ◌<◌, min, ◌≡◌, ap, ◌∙◌, Option, some, List, [], arith, ok, length, take, drop,
  take-min-length, drop-min-length,
}
use risinglight.Block.Interface.{BlockIterator, IsBlockIterator}
use risinglight.Block.Rle.Iterator.{RleBlockIterator, next_batch, skip, remaining_items, interface}
use risinglight.Block.Rle.Iterator.View.{Tracks, pending}
use risinglight.Block.Rle.Iterator.NextBatch.{next_batch-Reads}
use risinglight.Block.Rle.Iterator.Skip.{skip-Skipped}

module _ {A : Type 0} (I : BlockIterator A) (L : IsBlockIterator I) where
  -- The iterator has exactly `rows` left to read.
  pub record HoldsRuns (s : RleBlockIterator I.State A) (rows : List (Option A)) : Type 0 where
    pub heads : List (Option A)
    pub counts : List ℕ
    pub tracks : Tracks I L s heads counts
    pub left : pending s.cur_scanned_count heads counts ≡ rows

  -- A batch reads the next rows, as many as are asked for or as there are, whatever runs they lie
  -- in, and leaves the rows behind them, if the inner iterator keeps its contract.
  pub next_batch-HoldsRuns :
      (e : ℕ) (s : RleBlockIterator I.State A) (rows : List (Option A))
      → 0 < e
      → HoldsRuns s rows
      → (s' : RleBlockIterator I.State A) × (next_batch I (some e) [] s
          ≡ ok (min e (length rows), take e rows, s'))
        × HoldsRuns s' (drop e rows)
  next_batch-HoldsRuns e s rows pos h =
      let r = next_batch-Reads I L (some e) [] s h.heads h.counts pos h.tracks in
      let all : e - 0 ≡ e = omega arith in
      (
        r.after,
        r.outcome ∙ rw (all, zero-add, take-min-length, h.left),
        record {
          heads = r.heads;
          counts = r.counts;
          tracks = r.tracks;
          left = r.rest ∙ rw (all, drop-min-length, h.left);
        },
      )

  -- `skip` within the rows that are left passes over just that many, if the inner iterator keeps its
  -- contract.
  pub skip-HoldsRuns :
      (k : ℕ) (s : RleBlockIterator I.State A) (rows : List (Option A))
      → k ≤ length rows
      → HoldsRuns s rows
      → (s' : RleBlockIterator I.State A) × (skip I k s ≡ ok s') × HoldsRuns s' (drop k rows)
  skip-HoldsRuns k s rows few h =
      let r = skip-Skipped I L k s h.heads h.counts h.tracks (omega (arith, ap length h.left)) in
      (
        r.after,
        r.outcome,
        record {
          heads = r.heads;
          counts = r.counts;
          tracks = r.tracks;
          left = r.rest ∙ ap (drop k) h.left;
        },
      )

  -- `remaining_items` is the number of rows that are left.
  pub remaining_items-HoldsRuns :
      (s : RleBlockIterator I.State A) (rows : List (Option A))
      → HoldsRuns s rows
      → remaining_items I s ≡ ok (length rows)
  unfolding remaining_items
  remaining_items-HoldsRuns s rows h = ground (arith, h.tracks.total, ap length h.left)

  unfoldable pub rle_contract : IsBlockIterator (interface I)
  rle_contract = record {
    Holds = HoldsRuns;
    next_some = next_batch-HoldsRuns;
    skip_rows = skip-HoldsRuns;
    remaining = remaining_items-HoldsRuns;
  }
