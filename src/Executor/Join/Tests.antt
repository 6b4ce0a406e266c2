-- ===== src/Executor/Join/Tests.antt =====
-- Joins of two small tables with the key in their first column; a null is 0.
use mathlib.Core.List.{Perm}
use mathlib.Core.List.Perm
use risinglight.Prelude.{
  ℕ, ◌≡◌, refl, Bool, true, List, [], ◌∷◌, ◌++◌, map, flat_map, take, get_or, Result, ok, err,
  arith, ◌==◌, ◌>>=◌,
}
use risinglight.Prelude.Equality.{number_eq, list_eq}
use risinglight.Executor.Stream.{Stream, rows, ending}
use risinglight.Executor.Evaluate.{ArrayImpl, IsCondition}
use risinglight.Executor.Builder.{processing_window_size}
use risinglight.Executor.Builder.Laws.{Sized}
use risinglight.Executor.Join.{JoinType}
use risinglight.Executor.Join.Hash
use risinglight.Executor.Join.Hash.{HashJoinExecutor, HashMap}
use risinglight.Executor.Join.Hash.Probe.{joined}
use risinglight.Executor.Join.Hash.Laws.{rows-execute_hash, left_alone}
use risinglight.Executor.Join.Hash.Ending.{ending-execute_hash, Sized-execute_hash}
use risinglight.Executor.Join.NestedLoop
use risinglight.Executor.Join.Semi.{HashSemiJoinExecutor, execute_hash, execute_nested_loop}
use risinglight.Executor.Join.Semi.Agree.{semi_joins_agree}
use risinglight.Executor.Join.Agree.{
  inner_joins_agree, left_outer_joins_agree, nested_loop, IsKeyEquality,
}

abbrev first_column : List ℕ → List ℕ
first_column row = take 1 row

abbrev key_columns : HashJoinExecutor ℕ ℕ ℕ
key_columns = record {
  left_keys = λ chunk. ok (map first_column chunk);
  right_keys = λ chunk. ok (map first_column chunk);
  left_types = 0 ∷ 0 ∷ [];
  right_types = 0 ∷ 0 ∷ [];
}

abbrev equal_columns : List ℕ → Bool
equal_columns row = get_or row 2 0 == get_or row 0 0

abbrev condition : List (List ℕ) → Result ℕ (ArrayImpl ℕ)
condition chunk = ok (ArrayImpl.bool (map (λ row. (equal_columns row, true)) chunk))

abbrev people : Stream ℕ (List (List ℕ))
people =
    Stream.yielded ((1 ∷ 11 ∷ []) ∷ (2 ∷ 12 ∷ []) ∷ [])
      (Stream.yielded ((3 ∷ 13 ∷ []) ∷ (1 ∷ 14 ∷ []) ∷ []) Stream.done)

abbrev orders : Stream ℕ (List (List ℕ))
orders =
    Stream.yielded ((3 ∷ 21 ∷ []) ∷ [])
      (Stream.yielded ((1 ∷ 22 ∷ []) ∷ (4 ∷ 23 ∷ []) ∷ []) Stream.done)

abbrev same_order : HashMap ℕ → HashMap ℕ
same_order m = m

full_join :
    rows
      (Hash.execute 0 (list_eq number_eq) JoinType.full_outer same_order key_columns people orders)
    ≡ (3 ∷ 13 ∷ 3 ∷ 21 ∷ [])
      ∷ (1 ∷ 11 ∷ 1 ∷ 22 ∷ [])
      ∷ (1 ∷ 14 ∷ 1 ∷ 22 ∷ [])
      ∷ (0 ∷ 0 ∷ 4 ∷ 23 ∷ [])
      ∷ (2 ∷ 12 ∷ 0 ∷ 0 ∷ [])
      ∷ []
unfolding Hash.execute
full_join = refl

condition-IsCondition : IsCondition condition equal_columns
condition-IsCondition = record {
  value = λ row. (equal_columns row, true);
  evaluates = λ chunk. refl;
  held = λ row. refl;
  cleared = λ row. ground arith;
}

rows-execute_hash_example :
    (alone : List (List ℕ)) × (rows (
        Hash.execute 0 (list_eq number_eq) JoinType.full_outer same_order key_columns people orders)
      ≡ flat_map
          (joined 0
            (list_eq number_eq)
            JoinType.full_outer
            key_columns
            first_column
            first_column
            (rows people))
          (rows orders)
        ++ alone)
    × Perm alone (
        left_alone 0
          (list_eq number_eq)
          key_columns
          first_column
          first_column
          JoinType.full_outer
          (rows people)
          (rows orders))
rows-execute_hash_example =
    rows-execute_hash 0 (list_eq number_eq) key_columns first_column first_column
      JoinType.full_outer same_order (λ chunk. refl) (λ chunk. refl) (λ m. Perm.rfl) people orders
      refl refl

-- The keys of a chunk that has a row without a value cannot be evaluated.
abbrev checked_keys : List (List ℕ) → Result ℕ (List (List ℕ))
checked_keys [] = ok []
checked_keys ([] ∷ chunk) = err 8
checked_keys (row ∷ chunk) = do keys ← checked_keys chunk; ok (first_column row ∷ keys)

abbrev fallible_columns : HashJoinExecutor ℕ ℕ ℕ
fallible_columns = record key_columns { left_keys = checked_keys; right_keys = checked_keys }

ending-execute_hash_example :
    ending (
      Hash.execute 0
        (list_eq number_eq)
        JoinType.inner
        same_order
        fallible_columns
        people
        (Stream.yielded ((3 ∷ 21 ∷ []) ∷ [] ∷ []) (Stream.failed 7)))
    ≡ err 8
ending-execute_hash_example =
    ending-execute_hash 0 (list_eq number_eq) JoinType.inner same_order fallible_columns people
      (Stream.yielded ((3 ∷ 21 ∷ []) ∷ [] ∷ []) (Stream.failed 7))

Sized-execute_hash_example :
    Sized processing_window_size
      (Hash.execute 0 (list_eq number_eq) JoinType.inner same_order key_columns people orders)
Sized-execute_hash_example =
    Sized-execute_hash 0 (list_eq number_eq) JoinType.inner same_order key_columns people orders

same_keys :
    IsKeyEquality
      (list_eq number_eq)
      first_column
      first_column
      equal_columns
      (rows people)
      (rows orders)
same_keys = (
  (refl, (refl, (refl, (refl, tt)))),
  ((refl, (refl, (refl, (refl, tt)))), ((refl, (refl, (refl, (refl, tt)))), tt)),
)

inner_joins_agree_example :
    rows (Hash.execute 0 (list_eq number_eq) JoinType.inner same_order key_columns people orders)
    ≡ rows (NestedLoop.execute 0 (nested_loop key_columns condition JoinType.inner) people orders)
inner_joins_agree_example =
    inner_joins_agree 0 (list_eq number_eq) key_columns condition first_column first_column
      equal_columns same_order (λ m. Perm.rfl) (λ chunk. refl) (λ chunk. refl) condition-IsCondition
      people orders same_keys refl refl

left_outer_joins_agree_example :
    Perm
      (rows (
        Hash.execute 0
          (list_eq number_eq)
          JoinType.left_outer
          same_order
          key_columns
          people
          orders))
      (rows (
        NestedLoop.execute 0 (nested_loop key_columns condition JoinType.left_outer) people orders))
left_outer_joins_agree_example =
    left_outer_joins_agree 0 (list_eq number_eq) key_columns condition first_column first_column
      equal_columns same_order (λ m. Perm.rfl) (λ chunk. refl) (λ chunk. refl) condition-IsCondition
      people orders same_keys refl refl

abbrev anti_join : HashSemiJoinExecutor ℕ ℕ
anti_join = record {
  left_keys = λ chunk. ok (map first_column chunk);
  right_keys = λ chunk. ok (map first_column chunk);
  anti = true;
}

without_order : rows (execute_hash (list_eq number_eq) anti_join people orders) ≡ (2 ∷ 12 ∷ []) ∷ []
unfolding execute_hash
without_order = refl

semi_joins_agree_example :
    rows (execute_hash (list_eq number_eq) anti_join people orders)
    ≡ rows (execute_nested_loop (record { anti = true; condition = condition }) people orders)
semi_joins_agree_example =
    semi_joins_agree (list_eq number_eq) anti_join condition first_column first_column equal_columns
      people orders (λ chunk. refl) (λ chunk. refl) condition-IsCondition same_keys refl refl
