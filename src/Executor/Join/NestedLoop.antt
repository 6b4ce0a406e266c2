-- ===== src/Executor/Join/NestedLoop.antt =====
-- executor/nested_loop_join.rs: `NestedLoopJoinExecutor`. A condition is what evaluating it on a chunk
-- gives.
pub mod Cross
pub mod Matched
pub mod Laws
use risinglight.Prelude.{
  ℕ, zero, suc, ◌+◌, Bool, true, false, not, ◌||◌, Option, none, some, List, [], ◌∷◌, ◌++◌, map,
  flat_map, length, get_elem?, Result, ok, err, panic, ◌>>=◌, unwrap, if◌then◌else◌,
}
use risinglight.Executor.Stream.{Stream, run}
use risinglight.Executor.Evaluate.{ArrayImpl, as_bool, true_array, is_true, filter}
use risinglight.Executor.Builder.{
  DataChunkBuilder, new, take, push_row, emit, flush, processing_window_size,
}
use risinglight.Executor.Join.{JoinType, pad}

pub record NestedLoopJoinExecutor (E D V : Type 0) : Type 0 where
  pub op : JoinType
  pub condition : List (List V) → Result E (ArrayImpl V)
  pub left_types : List D
  pub right_types : List D

-- `try_collect`
unfoldable pub collect : {E B : Type 0} → Stream E B → Result E (List B)
collect Stream.done = ok []
collect (Stream.failed e) = err e
collect Stream.panicked = panic
collect (Stream.yielded b rest) = do bs ← collect rest; ok (b ∷ bs)

-- `chunks.iter().flat_map(|chunk| chunk.rows())`
abbrev pub rows_of : {A : Type 0} → List (List A) → List A
rows_of chunks = flat_map (λ chunk. chunk) chunks

-- The rows of the cross product for some rows of the right side.
abbrev pub cross : {V : Type 0} → List (List V) → List (List V) → List (List V)
cross left right = flat_map (λ right_row. map (λ left_row. left_row ++ right_row) left) right

-- `matched` after the loop: one of `rounds` bits of the filter, the first at `i`, each `step` further on.
pub any_match : {E : Type 0} → List (Bool × Bool) → ℕ → ℕ → ℕ → Result E Bool
any_match filter_ i step zero = ok false
any_match filter_ i step (suc rounds) = do
  bit ← unwrap (get_elem? filter_ i)
  others ← any_match filter_ (i + step) step rounds
  ok (is_true bit || others)

-- Other joins than these two are not implemented (`todo!`).
abbrev pub is_supported : JoinType → Bool
is_supported JoinType.inner = true
is_supported JoinType.left_outer = true
is_supported _ = false

module _ {E D V : Type 0} (null : V) (self : NestedLoopJoinExecutor E D V) where
  -- A chunk is yielded as far as the condition holds, and its bits go to the filter.
  pub yield_filtered :
      List (List V)
      → List (Bool × Bool)
      → (List (Bool × Bool) → Stream E (List (List V)))
      → Stream E (List (List V))
  yield_filtered chunk filter_ k =
      run (self.condition chunk >>= as_bool)
        (λ a. Stream.yielded (filter (true_array a) chunk) (k (filter_ ++ a)))

  -- The rows of the cross product for one chunk of the right side, before the code `k`.
  pub cross_rows :
      List (List V)
      → DataChunkBuilder (List V)
      → List (Bool × Bool)
      → (DataChunkBuilder (List V) → List (Bool × Bool) → Stream E (List (List V)))
      → Stream E (List (List V))
  cross_rows [] builder filter_ k = k builder filter_
  cross_rows (row ∷ rows) builder filter_ k =
      let (full, builder') = push_row row builder in
      elim full [
        | none ↦ cross_rows rows builder' filter_ k
        | some chunk ↦ yield_filtered chunk filter_ (λ filter'. cross_rows rows builder' filter' k)
      ]

  -- The rows of the left side without a match, from the one with the index `i` on.
  pub push_unmatched :
      ℕ
      → List (List V)
      → ℕ
      → ℕ
      → List (Bool × Bool)
      → DataChunkBuilder (List V)
      → Stream E (List (List V))
  push_unmatched i [] left_row_num right_row_num filter_ builder = flush builder
  push_unmatched i (left_row ∷ rest) left_row_num right_row_num filter_ builder =
      let next : DataChunkBuilder (List V) → Stream E (List (List V)) =
        push_unmatched (i + 1) rest left_row_num right_row_num filter_ in
      run (any_match filter_ i left_row_num right_row_num) (λ matched.
        if matched
        then next builder
        else (let (full, builder') = push_row (left_row ++ pad null self.right_types) builder in
            emit full (next builder')))

  pub outer :
      List (List V) → ℕ → List (Bool × Bool) → DataChunkBuilder (List V) → Stream E (List (List V))
  outer left_rows right_row_num filter_ builder = elim self.op [
    | JoinType.left_outer ↦
        push_unmatched 0 left_rows (length left_rows) right_row_num filter_ builder
    | _ ↦ flush builder
  ]

  -- the end of the executor, after the right side
  pub finish :
      List (List V) → ℕ → DataChunkBuilder (List V) → List (Bool × Bool) → Stream E (List (List V))
  finish left_rows right_row_num builder filter_ =
      let (chunk, builder') = take builder in
      elim chunk [
        | none ↦ outer left_rows right_row_num filter_ builder'
        | some rest ↦
            yield_filtered rest filter_ (λ filter'. outer left_rows right_row_num filter' builder')
      ]

  pub right_loop :
      List (List V)
      → Stream E (List (List V))
      → ℕ
      → DataChunkBuilder (List V)
      → List (Bool × Bool)
      → Stream E (List (List V))
  right_loop left_rows Stream.done right_row_num builder filter_ =
      finish left_rows right_row_num builder filter_
  right_loop left_rows (Stream.failed e) right_row_num builder filter_ = Stream.failed e
  right_loop left_rows Stream.panicked right_row_num builder filter_ = Stream.panicked
  right_loop left_rows (Stream.yielded chunk right) right_row_num builder filter_ =
      cross_rows (cross left_rows chunk) builder filter_
        (right_loop left_rows right (right_row_num + length chunk))

  unfoldable pub execute :
      Stream E (List (List V)) → Stream E (List (List V)) → Stream E (List (List V))
  unfolding collect right_loop cross_rows yield_filtered finish outer push_unmatched any_match
      push_row take flush new
  execute left right =
      if is_supported self.op
      then run (collect left)
          (λ left_chunks. right_loop (rows_of left_chunks) right 0 (new processing_window_size) [])
      else Stream.panicked
