-- ===== src/Executor/Group/Window.antt =====
-- Window functions: each row with the results of the aggregations over it and all rows before it.
use risinglight.Prelude.{
  ℕ, suc, ◌+◌, ◌<◌, ◌≡◌, ◌≢◌, refl, ◌∙◌, none, some, List, [], ◌∷◌, ◌++◌, length, ok, PartialEq,
  append_assoc, append-nil, inl, inr, arith, err≢ok, panic≢ok,
}
use risinglight.Executor.Stream.{Stream, rows, ending}
use risinglight.Executor.Builder.{DataChunkBuilder, new, take}
use risinglight.Executor.Builder.Laws.{push_row-cases}
use risinglight.Executor.Aggregate.{Scalar, DataValue, AggState}
use risinglight.Executor.Group.{
  Row, AggExecutor, agg_list_result, window_rows, window_loop, row_concat, execute_window,
}
use risinglight.Executor.Group.States.{
  final, agg_list_append-final, final-nil, Finishes, Finishes-prefix, Finishes-assoc,
}

-- Every chunk of a stream has a row.
abbrev pub NoEmptyChunk : {E A : Type 0} → Stream E (List A) → Type 0
NoEmptyChunk Stream.done = Unit {0}
NoEmptyChunk (Stream.failed e) = Unit {0}
NoEmptyChunk Stream.panicked = Unit {0}
NoEmptyChunk (Stream.yielded chunk rest) = (chunk ≢ []) × NoEmptyChunk rest

module _ {E T : Type 0} (s : Scalar T) (p : PartialEq (DataValue T)) (self : AggExecutor E T) where
  abbrev results_at : List (Row T) → Row T
  results_at seen = agg_list_result s (final s p self.aggs seen)

  abbrev results : List (Row T) → List (Row T) → List (Row T)
  results seen [] = []
  results seen (row ∷ chunk) = results_at (seen ++ row ∷ []) ∷ results (seen ++ row ∷ []) chunk

  -- Each row, followed by the results over the rows up to it.
  abbrev pub running : List (Row T) → List (Row T) → List (Row T)
  running seen [] = []
  running seen (row ∷ chunk) =
      (row ++ results_at (seen ++ row ∷ [])) ∷ running (seen ++ row ∷ []) chunk

  running-append :
      (seen xs ys : List (Row T))
      → running seen (xs ++ ys) ≡ running seen xs ++ running (seen ++ xs) ys
  running-append seen [] ys = rw (append-nil seen)
  running-append seen (x ∷ xs) ys =
      rw (running-append (seen ++ x ∷ []) xs ys, append_assoc seen (x ∷ []) xs)

  concat-results :
      (seen chunk : List (Row T))
      → row_concat {E = E} chunk (results seen chunk) ≡ ok (running seen chunk)
  concat-results seen [] = refl
  concat-results seen (row ∷ chunk) = rw (concat-results (seen ++ row ∷ []) chunk)

  window_rows_lem :
      (seen chunk : List (Row T)) (b : DataChunkBuilder (Row T))
      → b.size + length chunk < b.capacity
      → Finishes s p self.aggs (seen ++ chunk)
      → window_rows s p self (final s p self.aggs seen) chunk b
        ≡ ok (
          final s p self.aggs (seen ++ chunk),
          record b { buffer = b.buffer ++ results seen chunk; size = b.size + length chunk },
        )
  unfolding window_rows
  window_rows_lem seen [] b h f =
      let e : b.size + 0 ≡ b.size = omega arith in rw (append-nil seen, e, append-nil b.buffer)
  window_rows_lem seen (row ∷ chunk) b h f =
      let f' = Finishes-assoc s p self.aggs seen row chunk f in
      let now = Finishes-prefix s p self.aggs (seen ++ row ∷ []) chunk f' in
      let out = results_at (seen ++ row ∷ []) in
      let more : DataChunkBuilder (Row T) = record b {
        buffer = b.buffer ++ out ∷ [];
        size = b.size + 1;
      } in
      let size : b.size + 1 + length chunk ≡ b.size + suc (length chunk) = omega arith in
      elim (push_row-cases out b) [
        | inl (_, full) ↦ absurd (omega arith)
        | inr (free, _) ↦
            rw (agg_list_append-final s p self.aggs seen row now, free)
              (window_rows_lem (seen ++ row ∷ []) chunk more (omega arith) f'
                ∙ rw (
                  append_assoc seen (row ∷ []) chunk,
                  append_assoc b.buffer (out ∷ []) (results (seen ++ row ∷ []) chunk),
                  size,
                ))
      ]

  take-full : (b : DataChunkBuilder (Row T)) → 0 < b.size → (take b).0 ≡ some b.buffer
  unfolding take
  take-full b h = ground arith

  rows-window_loop :
      (child : Stream E (List (Row T))) (seen : List (Row T))
      → NoEmptyChunk child
      → ending child ≡ ok tt
      → Finishes s p self.aggs (seen ++ rows child)
      → (rows (window_loop s p self (final s p self.aggs seen) child) ≡ running seen (rows child))
        × (ending (window_loop s p self (final s p self.aggs seen) child) ≡ ok tt)
  unfolding window_loop new
  rows-window_loop Stream.done seen n e f = (refl, refl)
  rows-window_loop (Stream.failed x) seen n e f = absurd (err≢ok e)
  rows-window_loop Stream.panicked seen n e f = absurd (panic≢ok e)
  rows-window_loop (Stream.yielded [] child) seen n e f = absurd (n.0 refl)
  rows-window_loop (Stream.yielded (row ∷ chunk) child) seen n e f =
      let f' : Finishes s p self.aggs ((seen ++ row ∷ chunk) ++ rows child) =
        rw (append_assoc seen (row ∷ chunk) (rows child)) f in
      let now = Finishes-prefix s p self.aggs (seen ++ row ∷ chunk) (rows child) f' in
      let b : DataChunkBuilder (Row T) = new (length (row ∷ chunk) + 1) in
      let filled = window_rows_lem seen (row ∷ chunk) b (omega arith) now in
      let (again, ends) = rows-window_loop child (seen ++ row ∷ chunk) n.1 e f' in
      let after : DataChunkBuilder (Row T) = record b {
        buffer = results seen (row ∷ chunk);
        size = 0 + suc (length chunk);
      } in
      let taken = take-full after (omega arith) in
      (
        rw (
          filled,
          taken,
          concat-results seen (row ∷ chunk),
          again,
          running-append (seen ++ row ∷ []) chunk (rows child),
          append_assoc seen (row ∷ []) chunk,
        ),
        rw (filled, taken, concat-results seen (row ∷ chunk)) ends,
      )

  -- Window functions give each row of the child with the results of the aggregations over all rows up
  -- to it, across chunks, and no panic, if the child ends without an error and has no empty chunk, and
  -- the aggregations over all of its rows do not panic.
  pub rows-execute_window :
      (child : Stream E (List (Row T)))
      → NoEmptyChunk child
      → ending child ≡ ok tt
      → Finishes s p self.aggs (rows child)
      → (rows (execute_window s p self child) ≡ running [] (rows child))
        × (ending (execute_window s p self child) ≡ ok tt)
  unfolding execute_window
  rows-execute_window child n e f = rw (← final-nil s p self.aggs) (rows-window_loop child [] n e f)

  take_nothing : (capacity : ℕ) → (take (new {R = Row T} capacity)).0 ≡ none
  unfolding take new
  take_nothing capacity = ground arith

  -- A chunk without a row makes window functions panic, whatever comes after it.
  pub empty_chunk_panics :
      (states : List (AggState T)) (child : Stream E (List (Row T)))
      → window_loop s p self states (Stream.yielded [] child) ≡ Stream.panicked
  unfolding window_loop window_rows
  empty_chunk_panics states child = rw (take_nothing (0 + 1))
