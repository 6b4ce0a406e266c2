-- ===== src/Executor/Join/Merge.antt =====
-- executor/merge_join.rs: `MergeJoinExecutor` and `group_by_keys`. What a side has still to give begins with
-- its current group.
pub mod Groups
pub mod Pairs
pub mod Steps
pub mod Laws
pub mod Agree
mod Tests
use risinglight.Prelude.{
  Bool, not, List, [], ◌∷◌, ◌++◌, map, flat_map, Result, if◌then◌else◌, true, false,
}
use risinglight.Prelude.Ord.{Ord}
use risinglight.Executor.Stream.{Stream, run}
use risinglight.Executor.Evaluate.{zip}
use risinglight.Executor.Builder.{DataChunkBuilder, processing_window_size, push_rows, flush, new}
use risinglight.Executor.Join.{JoinType, keeps_left, keeps_right, pad}

-- The expressions are what evaluating them on a chunk gives.
pub record MergeJoinExecutor (E D V : Type 0) : Type 0 where
  pub left_keys : List (List V) → Result E (List (List V))
  pub right_keys : List (List V) → Result E (List (List V))
  pub left_types : List D
  pub right_types : List D

-- The keys of a group and its rows.
abbrev pub Group : Type 0 → Type 0
Group V = List V × List (List V)

abbrev pub is_empty : {A : Type 0} → List A → Bool
is_empty [] = true
is_empty (x ∷ xs) = false

module _ {E V : Type 0} (o : Ord (List V)) where
  -- The rows of one chunk with their keys, before the code `k`.
  pub group_rows :
      List (List V × List V)
      → List V
      → List (List V)
      → (List V → List (List V) → Stream E (Group V))
      → Stream E (Group V)
  group_rows [] current_key output_rows k = k current_key output_rows
  group_rows ((row, keys) ∷ rest) current_key output_rows k =
      let same = group_rows rest current_key (output_rows ++ row ∷ []) k in
      let changed = group_rows rest keys (row ∷ []) k in
      if not (o.equality.eq keys current_key)
      then if not (is_empty current_key)
        then Stream.yielded (current_key, output_rows) changed
        else changed
      else same

  pub group_finish : List V → List (List V) → Stream E (Group V)
  group_finish current_key output_rows =
      if not (is_empty current_key)
      then Stream.yielded (current_key, output_rows) Stream.done
      else Stream.done

  pub group_loop :
      (List (List V) → Result E (List (List V)))
      → Stream E (List (List V))
      → List V
      → List (List V)
      → Stream E (Group V)
  group_loop keys_expr Stream.done current_key output_rows = group_finish current_key output_rows
  group_loop keys_expr (Stream.failed e) current_key output_rows = Stream.failed e
  group_loop keys_expr Stream.panicked current_key output_rows = Stream.panicked
  group_loop keys_expr (Stream.yielded input stream) current_key output_rows =
      run (keys_expr input)
        (λ keys. group_rows (zip input keys) current_key output_rows (group_loop keys_expr stream))

  unfoldable pub group_by_keys :
      (List (List V) → Result E (List (List V))) → Stream E (List (List V)) → Stream E (Group V)
  unfolding group_loop group_rows group_finish
  group_by_keys keys_expr stream = group_loop keys_expr stream [] []

-- The cross join of two groups, the rows of the left one outside.
abbrev pub cross_groups : {V : Type 0} → List (List V) → List (List V) → List (List V)
cross_groups lchunk rchunk =
    flat_map (λ left_row. map (λ right_row. left_row ++ right_row) rchunk) lchunk

module _ {E D V : Type 0} (null : V) (t : JoinType) (self : MergeJoinExecutor E D V) where
  -- The rows of a group of the left side whose keys the right side does not have.
  abbrev pub left_only : List (List V) → List (List V)
  left_only lchunk =
      if keeps_left t then map (λ left_row. left_row ++ pad null self.right_types) lchunk else []

  -- The rows of a group of the right side whose keys the left side does not have.
  abbrev pub right_only : List (List V) → List (List V)
  right_only rchunk =
      if keeps_right t then map (λ right_row. pad null self.left_types ++ right_row) rchunk else []

module _ {E D V : Type 0} (null : V) (o : Ord (List V)) (t : JoinType)
    (self : MergeJoinExecutor E D V) where
  -- An error of the left side comes first: its next group is awaited before that of the right side.
  pub merge_loop :
      Stream E (Group V) → Stream E (Group V) → DataChunkBuilder (List V) → Stream E (List (List V))
  merge_loop (Stream.failed e) right builder = Stream.failed e
  merge_loop Stream.panicked right builder = Stream.panicked
  merge_loop Stream.done (Stream.failed e) builder = Stream.failed e
  merge_loop Stream.done Stream.panicked builder = Stream.panicked
  merge_loop Stream.done Stream.done builder = flush builder
  merge_loop Stream.done (Stream.yielded (rkey, rchunk) right) builder =
      push_rows (right_only null t self rchunk) builder (merge_loop Stream.done right)
  merge_loop (Stream.yielded l left) (Stream.failed e) builder = Stream.failed e
  merge_loop (Stream.yielded l left) Stream.panicked builder = Stream.panicked
  merge_loop (Stream.yielded (lkey, lchunk) left) Stream.done builder =
      push_rows (left_only null t self lchunk) builder (merge_loop left Stream.done)
  merge_loop (Stream.yielded (lkey, lchunk) left) (Stream.yielded (rkey, rchunk) right) builder =
      let both = merge_loop left right in
      let next_left = merge_loop left (Stream.yielded (rkey, rchunk) right) in
      let next_right = merge_loop (Stream.yielded (lkey, lchunk) left) right in
      if o.equality.eq lkey rkey
      then push_rows (cross_groups lchunk rchunk) builder both
      else if o.lt lkey rkey
      then push_rows (left_only null t self lchunk) builder next_left
      else if o.lt rkey lkey
      then push_rows (right_only null t self rchunk) builder next_right
      else flush builder

  unfoldable pub execute :
      Stream E (List (List V)) → Stream E (List (List V)) → Stream E (List (List V))
  unfolding merge_loop group_by_keys push_rows flush new
  execute left right =
      merge_loop (group_by_keys o self.left_keys left) (group_by_keys o self.right_keys right)
        (new processing_window_size)
