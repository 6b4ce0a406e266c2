-- ===== src/Executor/Order/Tests.antt =====
-- An order and a top-n of a small table, by its first column in descending order.
use risinglight.Prelude.{ℕ, ◌≡◌, refl, true, List, [], ◌∷◌, map, take, drop, get_or, ok, arith}
use risinglight.Prelude.Ord.{number_ord, cmp}
use risinglight.Executor.Stream.{Stream, rows}
use risinglight.Executor.Order.{OrderExecutor, TopNExecutor, cmp_rows, execute_order, execute_top_n}
use risinglight.Executor.Order.Keys.{IsOrdering}
use risinglight.Executor.Order.Laws.{execute_order-IsOrdering, rows-execute_top_n}
use risinglight.Executor.Order.Reference.{reference_sort, reference_heap, insertion_sort}

abbrev first_column : List ℕ → List ℕ
first_column row = get_or row 0 0 ∷ []

abbrev by_first_column : OrderExecutor ℕ ℕ
by_first_column = record { order_keys = λ chunk. ok (map first_column chunk); orders = true ∷ [] }

abbrev second_and_third : TopNExecutor ℕ ℕ
second_and_third = record {
  offset = 1;
  limit = 2;
  order_keys = λ chunk. ok (map first_column chunk);
  orders = true ∷ [];
}

abbrev scores : Stream ℕ (List (List ℕ))
scores =
    Stream.yielded ((3 ∷ 11 ∷ []) ∷ (7 ∷ 12 ∷ []) ∷ [])
      (Stream.yielded ((5 ∷ 13 ∷ []) ∷ (9 ∷ 14 ∷ []) ∷ (1 ∷ 15 ∷ []) ∷ []) Stream.done)

best :
    rows (execute_top_n number_ord second_and_third (reference_heap number_ord (true ∷ [])) scores)
    ≡ (7 ∷ 12 ∷ []) ∷ (5 ∷ 13 ∷ []) ∷ []
unfolding execute_top_n insertion_sort cmp_rows cmp
best = refl

execute_order-IsOrdering_example :
    IsOrdering number_ord (true ∷ []) first_column (rows scores) (
      rows
        (execute_order number_ord by_first_column (reference_sort number_ord (true ∷ [])) scores))
execute_order-IsOrdering_example =
    execute_order-IsOrdering number_ord first_column by_first_column
      (reference_sort number_ord (true ∷ [])) scores (λ row. refl) (λ chunk. refl) refl

rows-execute_top_n_example :
    (out : List (List ℕ)) × IsOrdering number_ord (true ∷ []) first_column (rows scores) out
    × (rows
          (execute_top_n number_ord second_and_third (reference_heap number_ord (true ∷ [])) scores)
        ≡ take 2 (drop 1 out))
rows-execute_top_n_example =
    rows-execute_top_n number_ord first_column second_and_third
      (reference_heap number_ord (true ∷ [])) (reference_sort number_ord (true ∷ [])) scores
      (λ row. refl) (λ chunk. refl) refl (omega arith) (omega arith)
