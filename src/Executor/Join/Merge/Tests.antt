-- ===== src/Executor/Join/Merge/Tests.antt =====
-- Merge joins of two small tables that stand in the order of their first column; a null is 0.
use mathlib.Core.List.{Perm}
use mathlib.Core.List.Perm
use risinglight.Prelude.{ℕ, ◌≡◌, refl, List, [], ◌∷◌, map, get_or, ok}
use risinglight.Prelude.Ord.{Ord, number_ord, list_ord}
use risinglight.Executor.Stream.{Stream, rows}
use risinglight.Executor.Join.{JoinType}
use risinglight.Executor.Join.Hash
use risinglight.Executor.Join.Hash.{HashJoinExecutor, HashMap}
use risinglight.Executor.Join.Merge
use risinglight.Executor.Join.Merge.Groups.{IsSorted}
use risinglight.Executor.Join.Merge.Steps.{join_rows}
use risinglight.Executor.Join.Merge.Laws.{rows-execute_merge}
use risinglight.Executor.Join.Merge.Agree.{merge_of, merge_joins_agree}

abbrev first_column : List ℕ → List ℕ
first_column row = get_or row 0 0 ∷ []

abbrev key_columns : HashJoinExecutor ℕ ℕ ℕ
key_columns = record {
  left_keys = λ chunk. ok (map first_column chunk);
  right_keys = λ chunk. ok (map first_column chunk);
  left_types = 0 ∷ 0 ∷ [];
  right_types = 0 ∷ 0 ∷ [];
}

abbrev people : Stream ℕ (List (List ℕ))
people =
    Stream.yielded ((1 ∷ 11 ∷ []) ∷ (1 ∷ 12 ∷ []) ∷ [])
      (Stream.yielded ((1 ∷ 13 ∷ []) ∷ (2 ∷ 14 ∷ []) ∷ []) Stream.done)

abbrev orders : Stream ℕ (List (List ℕ))
orders =
    Stream.yielded ((1 ∷ 21 ∷ []) ∷ [])
      (Stream.yielded ((1 ∷ 22 ∷ []) ∷ (3 ∷ 23 ∷ []) ∷ []) Stream.done)

abbrev by_columns : Ord (List ℕ)
by_columns = list_ord number_ord

abbrev same_order : HashMap ℕ → HashMap ℕ
same_order m = m

full_merge_join :
    rows (Merge.execute 0 by_columns JoinType.full_outer (merge_of key_columns) people orders)
    ≡ (1 ∷ 11 ∷ 1 ∷ 21 ∷ [])
      ∷ (1 ∷ 11 ∷ 1 ∷ 22 ∷ [])
      ∷ (1 ∷ 12 ∷ 1 ∷ 21 ∷ [])
      ∷ (1 ∷ 12 ∷ 1 ∷ 22 ∷ [])
      ∷ (1 ∷ 13 ∷ 1 ∷ 21 ∷ [])
      ∷ (1 ∷ 13 ∷ 1 ∷ 22 ∷ [])
      ∷ (2 ∷ 14 ∷ 0 ∷ 0 ∷ [])
      ∷ (0 ∷ 0 ∷ 3 ∷ 23 ∷ [])
      ∷ []
unfolding Merge.execute
full_merge_join = refl

people-IsSorted : IsSorted by_columns first_column (rows people)
people-IsSorted = ((refl, (refl, (refl, tt))), ((refl, (refl, tt)), ((refl, tt), (tt, tt))))

orders-IsSorted : IsSorted by_columns first_column (rows orders)
orders-IsSorted = ((refl, (refl, tt)), ((refl, tt), (tt, tt)))

rows-execute_merge_example :
    Perm
      (rows (Merge.execute 0 by_columns JoinType.full_outer (merge_of key_columns) people orders))
      (join_rows 0 by_columns JoinType.full_outer
        (merge_of key_columns)
        first_column
        first_column
        (rows people)
        (rows orders))
rows-execute_merge_example =
    rows-execute_merge 0 by_columns JoinType.full_outer (merge_of key_columns) first_column
      first_column people orders (λ row. refl) (λ row. refl) (λ chunk. refl) (λ chunk. refl) refl
      refl people-IsSorted orders-IsSorted

merge_joins_agree_example :
    Perm
      (rows (Merge.execute 0 by_columns JoinType.full_outer (merge_of key_columns) people orders))
      (rows (
        Hash.execute 0 by_columns.equality JoinType.full_outer same_order key_columns people
          orders))
merge_joins_agree_example =
    merge_joins_agree 0 by_columns JoinType.full_outer key_columns first_column first_column
      same_order people orders (λ m. Perm.rfl) (λ row. refl) (λ row. refl) (λ chunk. refl)
      (λ chunk. refl) refl refl people-IsSorted orders-IsSorted
