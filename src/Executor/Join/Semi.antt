-- ===== src/Executor/Join/Semi.antt =====
-- `HashSemiJoinExecutor` of executor/hash_join.rs and `NestedLoopSemiJoinExecutor` of
-- executor/nested_loop_join.rs: the rows of the left side with a match, or without one (`anti`).
pub mod Laws
pub mod Agree
use risinglight.Prelude.{
  Bool, true, false, not, ◌&&◌, ◌||◌, List, [], ◌∷◌, ◌++◌, map, Result, ok, err, panic, ◌>>=◌,
  if◌then◌else◌, PartialEq,
}
use risinglight.Prelude.KeyMap.{contains}
use risinglight.Executor.Stream.{Stream, run}
use risinglight.Executor.Evaluate.{ArrayImpl, as_bool, true_array, filter}
use risinglight.Executor.Builder.{
  DataChunkBuilder, new, push_row, emit, flush, processing_window_size,
}
use risinglight.Executor.Join.NestedLoop.{collect}

-- `a ^ b`
abbrev pub xor : Bool → Bool → Bool
xor true b = not b
xor false b = b

pub record HashSemiJoinExecutor (E V : Type 0) : Type 0 where
  pub left_keys : List (List V) → Result E (List (List V))
  pub right_keys : List (List V) → Result E (List (List V))
  pub anti : Bool

module _ {E V : Type 0} (p : PartialEq (List V)) (self : HashSemiJoinExecutor E V) where
  -- `key_set.insert(…)` for each key of a chunk
  pub insert_keys : List (List V) → List (List V) → List (List V)
  insert_keys [] key_set = key_set
  insert_keys (key ∷ keys) key_set =
      insert_keys keys (if contains p key key_set then key_set else key ∷ key_set)

  pub build : Stream E (List (List V)) → List (List V) → Result E (List (List V))
  build Stream.done key_set = ok key_set
  build (Stream.failed e) key_set = err e
  build Stream.panicked key_set = panic
  build (Stream.yielded chunk right) key_set = do
    keys_chunk ← self.right_keys chunk
    build right (insert_keys keys_chunk key_set)

  pub probe : List (List V) → Stream E (List (List V)) → Stream E (List (List V))
  probe key_set Stream.done = Stream.done
  probe key_set (Stream.failed e) = Stream.failed e
  probe key_set Stream.panicked = Stream.panicked
  probe key_set (Stream.yielded chunk left) =
      let rest = probe key_set left in
      run (self.left_keys chunk) (λ keys_chunk.
        let exists = map (λ key. xor (contains p key key_set) self.anti) keys_chunk in
        Stream.yielded (filter exists chunk) rest)

  unfoldable pub execute_hash :
      Stream E (List (List V)) → Stream E (List (List V)) → Stream E (List (List V))
  unfolding build insert_keys probe
  execute_hash left right = run (build right []) (λ key_set. probe key_set left)

pub record NestedLoopSemiJoinExecutor (E V : Type 0) : Type 0 where
  pub anti : Bool
  pub condition : List (List V) → Result E (ArrayImpl V)

-- `.iter().any(|v| *v)`
abbrev pub any : List Bool → Bool
any [] = false
any (b ∷ bs) = b || any bs

module _ {E V : Type 0} (self : NestedLoopSemiJoinExecutor E V) where
  -- Whether a row of the left side is pushed: at once at a match of a semi join, or after all chunks
  -- of the right side. The row stands beside each row of a chunk (`left_row_to_chunk`, `row_concat`).
  pub is_pushed : List V → Bool → List (List (List V)) → Result E Bool
  is_pushed left_row exists [] = ok (xor exists self.anti)
  is_pushed left_row exists (right_chunk ∷ right_chunks) = do
    a ← self.condition (map (λ right_row. left_row ++ right_row) right_chunk) >>= as_bool
    let exists' = exists || any (true_array a)
    let later = is_pushed left_row exists' right_chunks
    if exists' && not self.anti then ok true else later

  -- The rows of one chunk of the left side, before the code `k`.
  pub select_rows :
      List (List (List V))
      → List (List V)
      → DataChunkBuilder (List V)
      → (DataChunkBuilder (List V) → Stream E (List (List V)))
      → Stream E (List (List V))
  select_rows right_chunks [] builder k = k builder
  select_rows right_chunks (left_row ∷ rest) builder k =
      let next : DataChunkBuilder (List V) → Stream E (List (List V)) =
        λ b. select_rows right_chunks rest b k in
      run (is_pushed left_row false right_chunks) (λ pushed.
        if pushed
        then (let (full, builder') = push_row left_row builder in emit full (next builder'))
        else next builder)

  pub left_loop :
      List (List (List V))
      → Stream E (List (List V))
      → DataChunkBuilder (List V)
      → Stream E (List (List V))
  left_loop right_chunks Stream.done builder = flush builder
  left_loop right_chunks (Stream.failed e) builder = Stream.failed e
  left_loop right_chunks Stream.panicked builder = Stream.panicked
  left_loop right_chunks (Stream.yielded left_chunk left) builder =
      select_rows right_chunks left_chunk builder (left_loop right_chunks left)

  unfoldable pub execute_nested_loop :
      Stream E (List (List V)) → Stream E (List (List V)) → Stream E (List (List V))
  unfolding left_loop select_rows is_pushed new
  execute_nested_loop left right =
      run (collect right) (λ right_chunks. left_loop right_chunks left (new processing_window_size))
