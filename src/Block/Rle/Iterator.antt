-- ===== src/Block/Rle/Iterator.antt =====
-- storage/secondary/block/rle_block_iterator.rs: `decode_rle_block` and `RleBlockIterator`, over any
-- inner block iterator.
pub mod View
pub mod Read
pub mod NextBatch
pub mod Pass
pub mod Skip
pub mod New
use risinglight.Prelude.{
  ℕ, zero, suc, ◌+◌, ◌-◌, ◌*◌, ◌^◌, ◌≤◌, ◌≡◌, Bool, true, false, ◌&&◌, Option, none, some, List, [],
  ◌∷◌, ◌++◌, Result, ok, err, panic, Never, ◌>>=◌, ◌>>◌, assert, unwrap, checked_sub, if◌then◌else◌,
  ◌==◌, ltb, leb, length, get_elem?, take, drop,
}
use risinglight.Block.Interface.{BlockIterator, FixedWidth}
use risinglight.Block.Varint.{decode_u32}

-- `data.slice(from..to)`, which panics out of range
unfoldable pub slice : ℕ → ℕ → List ℕ → Result Never (List ℕ)
slice from to bytes =
    if leb from to && leb to (length bytes) then ok (take (to - from) (drop from bytes)) else panic

-- The number of runs, the bytes of their counts, and the block of the inner builder.
unfoldable pub decode_rle_block : FixedWidth → List ℕ → Result Never (ℕ × List ℕ × List ℕ)
unfolding slice
decode_rle_block c block = do
  (rle_num, buffer) ← c.get_u32_le block
  (bytes_of_counts, buffer') ← c.get_u32_le buffer
  let rle_length = 4 * 2 + bytes_of_counts
  rle_data ← slice (4 * 2) rle_length block
  block_data ← slice rle_length (length block) block
  ok (rle_num, rle_data, block_data)

pub record RleBlockIterator (S A : Type 0) : Type 0 where
  pub block_iter : S
  pub rle_block : List ℕ
  pub cur_row : ℕ
  pub cur_scanned_count : ℕ
  pub rle_row_count : ℕ
  pub cur_element : Option A
  pub row_scanned_count : ℕ
  pub row_count : ℕ
  pub never_used : Bool

abbrev pub sum : List ℕ → ℕ
sum [] = 0
sum (n ∷ ns) = n + sum ns

-- `Result::unwrap`
abbrev unwrap_result : {E A : Type 0} → Result E A → Result Never A
unwrap_result (ok a) = ok a
unwrap_result (err e) = panic
unwrap_result panic = panic

-- `cnt >= expected_size`, after the assertion
pub is_full : Option ℕ → ℕ → Result Never Bool
is_full none cnt = ok false
is_full (some expected_size) cnt = assert (ltb 0 expected_size) >> ok (leb expected_size cnt)

module _ {A : Type 0} (I : BlockIterator A) where
  pub new : I.State → List ℕ → ℕ → Result Never (RleBlockIterator I.State A)
  new block_iter rle_block rle_row_count = do
    counts ← unwrap_result (decode_u32 rle_block)
    ok (record {
      block_iter = block_iter;
      rle_block = counts;
      cur_row = 0;
      cur_scanned_count = 0;
      rle_row_count = rle_row_count;
      cur_element = none;
      row_scanned_count = 0;
      row_count = sum counts;
      never_used = true;
    })

  pub get_cur_rle_count : RleBlockIterator I.State A → Result Never ℕ
  get_cur_rle_count s = unwrap (get_elem? s.rle_block s.cur_row)

  -- the next item of the inner iterator, if it has one, and the inner iterator afterwards
  pub get_next_element : I.State → Result Never (Option (Option A) × I.State)
  get_next_element inner = do
    (n, array, inner') ← I.next_batch (some 1) [] inner
    if n == 0
        then ok (none, inner')
        else (do item ← unwrap (get_elem? array 0); ok (some item, inner'))

  -- The loop of `next_batch`. Each round pushes a row or ends a run, so the rows and the runs that
  -- are left are fuel enough (`next_batch_fuel`).
  pub next_loop :
      ℕ
      → Option ℕ
      → ℕ
      → ℕ
      → List (Option A)
      → RleBlockIterator I.State A
      → Result Never (ℕ × List (Option A) × RleBlockIterator I.State A)
  next_loop zero expected_size cnt cur_rle_count builder s = panic
  next_loop (suc fuel) expected_size cnt cur_rle_count builder s = do
    full ← is_full expected_size cnt
    if full
        then ok (cnt, builder, s)
        else (if ltb s.cur_scanned_count cur_rle_count
            then next_loop fuel expected_size (cnt + 1) cur_rle_count
                (builder ++ s.cur_element ∷ [])
                (record s {
                  cur_scanned_count = s.cur_scanned_count + 1;
                  row_scanned_count = s.row_scanned_count + 1;
                })
            else (let s1 = record s { cur_row = s.cur_row + 1; cur_scanned_count = 0 } in
                if leb s1.rle_row_count s1.cur_row then ok (cnt, builder, s1) else (do
                  (found, inner) ← get_next_element s1.block_iter
                  elim found [
                    | none ↦ ok (cnt, builder, record s1 { block_iter = inner })
                    | some element ↦ do
                      let s2 = record s1 { block_iter = inner; cur_element = element }
                      count ← get_cur_rle_count s2
                      next_loop fuel expected_size cnt count builder s2
                  ])))

  pub next_batch_fuel : RleBlockIterator I.State A → ℕ
  next_batch_fuel s = s.row_count + s.rle_row_count + 1

  -- `next_batch` once the first element is there
  pub resume :
      Option ℕ
      → List (Option A)
      → RleBlockIterator I.State A
      → Result Never (ℕ × List (Option A) × RleBlockIterator I.State A)
  resume expected_size builder s = do
    count ← get_cur_rle_count s
    next_loop (next_batch_fuel s) expected_size 0 count builder s

  pub next_batch :
      Option ℕ
      → List (Option A)
      → RleBlockIterator I.State A
      → Result Never (ℕ × List (Option A) × RleBlockIterator I.State A)
  next_batch expected_size builder s =
      if leb s.rle_row_count s.cur_row
      then ok (0, builder, s)
      else (if s.never_used
          then (do
            (found, inner) ← get_next_element s.block_iter
            let s1 = record s { never_used = false; block_iter = inner }
            elim found [
              | none ↦ ok (0, builder, s1)
              | some element ↦ resume expected_size builder (record s1 { cur_element = element })
            ])
          else resume expected_size builder s)

  -- The loop of `skip`: the rows that are left to skip, and the runs that are used up so far. Each
  -- round but the last uses up a run.
  pub skip_loop :
      ℕ → ℕ → ℕ → RleBlockIterator I.State A → Result Never (ℕ × RleBlockIterator I.State A)
  skip_loop zero cnt skip_count s = if ltb 0 cnt then panic else ok (skip_count, s)
  skip_loop (suc fuel) cnt skip_count s =
      if ltb 0 cnt
      then (do
        cur_rle_count ← get_cur_rle_count s
        cur_left ← checked_sub cur_rle_count s.cur_scanned_count
        if ltb cnt cur_left
            then ok (
              skip_count,
              record s {
                cur_scanned_count = s.cur_scanned_count + cnt;
                row_scanned_count = s.row_scanned_count + cnt;
              },
            )
            else (let s1 = record s {
              row_scanned_count = s.row_scanned_count + cur_left;
              cur_scanned_count = 0;
              cur_row = s.cur_row + 1;
            } in
                if leb s1.rle_row_count s1.cur_row
                then ok (skip_count + 1, s1)
                else skip_loop fuel (cnt - cur_left) (skip_count + 1) s1))
      else ok (skip_count, s)

  pub skip : ℕ → RleBlockIterator I.State A → Result Never (RleBlockIterator I.State A)
  skip cnt s = do
    (skip_count, s1) ← skip_loop (s.rle_row_count + 1) cnt 0 s
    if ltb 0 skip_count
        then (do
          inner ← I.skip (skip_count - 1) s1.block_iter
          (found, inner') ← get_next_element inner
          elim found [
            | none ↦ ok (record s1 { block_iter = inner' })
            | some element ↦ ok (record s1 { block_iter = inner'; cur_element = element })
          ])
        else ok s1

  unfoldable pub remaining_items : RleBlockIterator I.State A → Result Never ℕ
  remaining_items s = checked_sub s.row_count s.row_scanned_count

  abbrev pub interface : BlockIterator A
  interface = record {
    State = RleBlockIterator I.State A;
    next_batch = next_batch;
    skip = skip;
    remaining_items = remaining_items;
  }
