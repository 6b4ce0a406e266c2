-- ===== src/Executor/Builder.antt =====
-- array/data_chunk_builder.rs as the executors use it: `DataChunkBuilder` on whole rows, and the loop
-- that pushes rows and yields each chunk that fills up. A row is the list of its values.
pub mod Laws
use risinglight.Prelude.{
  ℕ, ◌+◌, ◌-◌, ◌^◌, Bool, Option, none, some, List, [], ◌∷◌, ◌++◌, ◌==◌, if◌then◌else◌,
}
use risinglight.Executor.Stream.{Stream}

-- `PROCESSING_WINDOW_SIZE`
abbrev pub processing_window_size : ℕ
processing_window_size = 1024

pub record DataChunkBuilder (R : Type 0) : Type 0 where
  pub buffer : List R
  pub size : ℕ
  pub capacity : ℕ

module _ {R : Type 0} where
  unfoldable pub new : ℕ → DataChunkBuilder R
  new capacity = record { buffer = []; size = 0; capacity = capacity }

  -- `usize::MAX` stands for no bound.
  unfoldable pub unbounded : DataChunkBuilder R
  unbounded = record { buffer = []; size = 0; capacity = 2 ^ 64 - 1 }

  unfoldable pub take : DataChunkBuilder R → Option (List R) × DataChunkBuilder R
  take b = (if b.size == 0 then none else some b.buffer, record b { buffer = []; size = 0 })

  unfoldable pub push_row : R → DataChunkBuilder R → Option (List R) × DataChunkBuilder R
  unfolding take
  push_row row b =
      let pushed = record b { buffer = b.buffer ++ row ∷ []; size = b.size + 1 } in
      if pushed.size == pushed.capacity then take pushed else (none, pushed)

  -- `if let Some(chunk) = … { yield chunk; }`
  abbrev pub emit : {E : Type 0} → Option (List R) → Stream E (List R) → Stream E (List R)
  emit none rest = rest
  emit (some chunk) rest = Stream.yielded chunk rest

  -- A loop over `rows` that pushes each of them, before the code `k`.
  unfoldable pub push_rows :
      {E : Type 0}
      → List R
      → DataChunkBuilder R
      → (DataChunkBuilder R → Stream E (List R))
      → Stream E (List R)
  unfolding push_row
  push_rows [] b k = k b
  push_rows (row ∷ rows) b k = let (chunk, b') = push_row row b in emit chunk (push_rows rows b' k)

  -- `if let Some(chunk) = builder.take() { yield chunk; }` at the end of the stream
  unfoldable pub flush : {E : Type 0} → DataChunkBuilder R → Stream E (List R)
  unfolding take
  flush b = emit (take b).0 Stream.done
