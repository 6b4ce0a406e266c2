-- ===== src/Executor/Builder/Laws.antt =====
-- The rows that come out of a chunk builder, and the sizes of its chunks.
use risinglight.Prelude.{
  ℕ, ◌+◌, ◌≤◌, ◌<◌, ◌≡◌, refl, Option, none, some, List, [], ◌∷◌, ◌++◌, arith, inl, inr, Bool-cases,
  ◌==◌, length, length-append, append_assoc, Result, ok, ◌∙◌, ◌⊎◌, ◌≢◌,
}
use risinglight.Executor.Stream.{Stream, rows, ending}
use risinglight.Executor.Builder.{take, DataChunkBuilder, new, push_row, emit, push_rows, flush}

pub new-capacity : (R : Type 0) (capacity : ℕ) → (new {R = R} capacity).capacity ≡ capacity
unfolding new
new-capacity R capacity = refl

module _ {R : Type 0} where
  pub record IsValid (b : DataChunkBuilder R) : Type 0 where
    pub counted : b.size ≡ length b.buffer
    pub room : b.size < b.capacity

  pub new-IsValid : (capacity : ℕ) → 0 < capacity → IsValid (new capacity)
  unfolding new
  new-IsValid capacity h = ground arith

  pub push_row-IsValid : (row : R) (b : DataChunkBuilder R) → IsValid b → IsValid (push_row row b).1
  unfolding push_row
  push_row-IsValid row b v = ground (arith, length-append b.buffer (row ∷ []))

  pub push_row-capacity :
      (row : R) (b : DataChunkBuilder R) → (push_row row b).1.capacity ≡ b.capacity
  unfolding push_row
  push_row-capacity row b = ground arith

  pub push_row-cases :
      (row : R) (b : DataChunkBuilder R)
      → (push_row row b ≡ (some (b.buffer ++ row ∷ []), record b { buffer = []; size = 0 }))
          × (b.size + 1 ≡ b.capacity)
        ⊎ (push_row row b ≡ (none, record b { buffer = b.buffer ++ row ∷ []; size = b.size + 1 }))
          × (b.size + 1 ≢ b.capacity)
  unfolding push_row
  push_row-cases row b = ground arith

empty_buffer : {R : Type 0} (l : List R) → length l ≡ 0 → [] ≡ l ++ []
empty_buffer [] h = refl
empty_buffer (x ∷ l) h = absurd (omega arith)

module _ {R E : Type 0} where
  -- Every chunk has a row at least, and at most `capacity`.
  abbrev pub Sized : ℕ → Stream E (List R) → Type 0
  Sized capacity Stream.done = Unit {0}
  Sized capacity (Stream.failed e) = Unit {0}
  Sized capacity Stream.panicked = Unit {0}
  Sized capacity (Stream.yielded chunk rest) =
      (0 < length chunk) × (length chunk ≤ capacity) × Sized capacity rest

  pub rows-emit :
      (row : R) (b : DataChunkBuilder R) (rest : Stream E (List R)) (ys : List R)
      → rows rest ≡ (push_row row b).1.buffer ++ ys
      → rows (emit (push_row row b).0 rest) ≡ b.buffer ++ row ∷ ys
  rows-emit row b rest ys h = elim (push_row-cases row b) [
    | inl full ↦ let h' : rows rest ≡ ys = rw full.0 at h in rw (full.0, h', append_assoc)
    | inr free ↦
        let h' : rows rest ≡ (b.buffer ++ row ∷ []) ++ ys = rw free.0 at h in
        rw (free.0, h', append_assoc)
  ]

  ending-emit :
      (chunk : Option (List R)) (rest : Stream E (List R)) → ending (emit chunk rest) ≡ ending rest
  ending-emit none rest = refl
  ending-emit (some chunk) rest = refl

  Sized-emit :
      (capacity : ℕ) (row : R) (b : DataChunkBuilder R) (rest : Stream E (List R))
      → IsValid b
      → b.capacity ≡ capacity
      → Sized capacity rest
      → Sized capacity (emit (push_row row b).0 rest)
  Sized-emit capacity row b rest v c h =
      let size = length-append b.buffer (row ∷ []) in
      elim (push_row-cases row b) [
        | inl full ↦ rw full.0 (omega (arith, size, v.counted), omega (arith, size, v.counted), h)
        | inr free ↦ rw free.0 h
      ]

  -- What a builder holds comes out before what the code after the loop yields.
  pub rows-push_rows :
      (rs : List R) (b : DataChunkBuilder R) (k : DataChunkBuilder R → Stream E (List R))
      (ys : List R)
      → IsValid b
      → ((b' : DataChunkBuilder R) → IsValid b' → rows (k b') ≡ b'.buffer ++ ys)
      → rows (push_rows rs b k) ≡ b.buffer ++ (rs ++ ys)
  unfolding push_rows
  rows-push_rows [] b k ys v h = h b v
  rows-push_rows (r ∷ rs) b k ys v h =
      rows-emit r b (push_rows rs (push_row r b).1 k) (rs ++ ys)
        (rows-push_rows rs (push_row r b).1 k ys (push_row-IsValid r b v) h)

  pub ending-push_rows :
      (rs : List R) (b : DataChunkBuilder R) (k : DataChunkBuilder R → Stream E (List R))
      (r : Result E (Unit {0}))
      → ((b' : DataChunkBuilder R) → ending (k b') ≡ r)
      → ending (push_rows rs b k) ≡ r
  unfolding push_rows
  ending-push_rows [] b k r h = h b
  ending-push_rows (x ∷ rs) b k r h =
      ending-emit (push_row x b).0 (push_rows rs (push_row x b).1 k)
      ∙ ending-push_rows rs (push_row x b).1 k r h

  pub Sized-push_rows :
      (capacity : ℕ) (rs : List R) (b : DataChunkBuilder R)
      (k : DataChunkBuilder R → Stream E (List R))
      → IsValid b
      → b.capacity ≡ capacity
      → ((b' : DataChunkBuilder R) → IsValid b' → b'.capacity ≡ capacity → Sized capacity (k b'))
      → Sized capacity (push_rows rs b k)
  unfolding push_rows
  Sized-push_rows capacity [] b k v c h = h b v c
  Sized-push_rows capacity (r ∷ rs) b k v c h =
      Sized-emit capacity r b (push_rows rs (push_row r b).1 k) v c (
        Sized-push_rows capacity rs (push_row r b).1 k (push_row-IsValid r b v)
          (push_row-capacity r b ∙ c) h)

-- An empty builder, or one with something to take.
pub take-cases :
    {R : Type 0} (b : DataChunkBuilder R)
    → IsValid b
    → (take b ≡ (none, record b { buffer = []; size = 0 })) × (b.buffer ≡ [])
      ⊎ (take b ≡ (some b.buffer, record b { buffer = []; size = 0 }))
unfolding take
take-cases b v = elim (Bool-cases (b.size == 0)) [
  | inl empty ↦ inl (rw empty, nothing b.buffer (ground (arith, v.counted, empty)))
  | inr more ↦ inr (rw more)
]
  where
    nothing : {R : Type 0} (l : List R) → length l ≡ 0 → l ≡ []
    nothing [] h = refl
    nothing (x ∷ l) h = absurd (omega arith)

module _ (E : Type 0) {R : Type 0} where
  pub rows-flush : (b : DataChunkBuilder R) → IsValid b → rows (flush {E = E} b) ≡ b.buffer ++ []
  unfolding flush
  rows-flush b v = elim (Bool-cases (b.size == 0)) [
    | inl empty ↦ rw empty (ground (arith, empty_buffer b.buffer, v.counted))
    | inr more ↦ rw more
  ]

  pub ending-flush : (b : DataChunkBuilder R) → ending (flush {E = E} b) ≡ ok tt
  unfolding flush
  ending-flush b = ending-emit _ Stream.done

  pub Sized-flush :
      (capacity : ℕ) (b : DataChunkBuilder R)
      → IsValid b
      → b.capacity ≡ capacity
      → Sized capacity (flush {E = E} b)
  unfolding flush
  Sized-flush capacity b v c = ground arith

module _ {E R : Type 0} where
  -- What is taken from a builder comes before the rest.
  pub rows-emit-take :
      (b : DataChunkBuilder R) (rest : Stream E (List R))
      → IsValid b
      → rows (emit (take b).0 rest) ≡ b.buffer ++ rows rest
  rows-emit-take b rest v = elim (take-cases b v) [
    | inl (nothing, empty) ↦ rw (nothing, empty)
    | inr something ↦ rw something
  ]
