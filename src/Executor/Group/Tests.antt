-- ===== src/Executor/Group/Tests.antt =====
-- Aggregations of a small table: the key in its first column, the number to add up in its second.
use mathlib.Core.List.{Perm}
use mathlib.Core.List.Perm
use risinglight.Prelude.{
  ℕ, ◌+◌, ◌≡◌, refl, min, max, true, some, List, [], ◌∷◌, map, take, drop, Result, ok, PartialEq,
  arith,
}
use risinglight.Prelude.Equality.{number_eq, option_eq, list_eq}
use risinglight.Executor.Stream.{Stream, rows, ending}
use risinglight.Executor.Aggregate.{Scalar, DataValue, Array, Agg, agg_append, init_agg_state}
use risinglight.Executor.Group.{Row, AggExecutor, execute_hash, execute_sort, execute_window}
use risinglight.Executor.Aggregate.Laws.{IsScalar}
use risinglight.Executor.Group.States.{Finishes, AddsList-Finishes}
use risinglight.Executor.Group.Sort.{Run, row_of}
use risinglight.Executor.Group.Hash.{AreRuns}
use risinglight.Executor.Group.Agree.{aggregations_agree}
use risinglight.Executor.Group.Window.{running, rows-execute_window}

abbrev numbers : Scalar ℕ
numbers = record {
  int32 = λ n. n;
  zero = some 0;
  sum_add = λ a b. a + b;
  add = λ a b. some (a + b);
  min = λ a b. min a b;
  max = λ a b. max a b;
}

numbers-IsScalar : IsScalar numbers
numbers-IsScalar = record {
  int32_add = λ m n. refl;
  min_assoc = λ a b c. omega arith;
  max_assoc = λ a b c. omega arith;
}

abbrev value_eq : PartialEq (DataValue ℕ)
value_eq = option_eq number_eq

abbrev key : Row ℕ → Row ℕ
key row = take 1 row

abbrev arg : Row ℕ → Row ℕ
arg row = drop 1 row

abbrev second_column : List (Row ℕ) → Result ℕ (Array ℕ)
second_column chunk = ok (map (λ row. (0, true)) chunk)

abbrev totals : AggExecutor ℕ ℕ
totals = record {
  keys = λ chunk. ok (map key chunk);
  args = λ chunk. ok (map arg chunk);
  aggs = Agg.sum second_column ∷ [];
}

finishes : (rows_ : List (Row ℕ)) → Finishes numbers value_eq totals.aggs rows_
finishes rows_ =
    AddsList-Finishes numbers value_eq numbers-IsScalar totals.aggs ((λ a b. (a + b, refl)), tt)
      rows_

abbrev sales : Stream ℕ (List (Row ℕ))
sales =
    Stream.yielded ((some 1 ∷ some 10 ∷ []) ∷ (some 1 ∷ some 5 ∷ []) ∷ [])
      (Stream.yielded ((some 2 ∷ some 7 ∷ []) ∷ []) Stream.done)

by_key :
    rows (execute_sort numbers value_eq (list_eq value_eq) totals sales)
    ≡ (some 1 ∷ some 15 ∷ []) ∷ (some 2 ∷ some 7 ∷ []) ∷ []
unfolding execute_sort agg_append init_agg_state
by_key = refl

abbrev runs : List (Run numbers value_eq (list_eq value_eq) totals)
runs = (some 1 ∷ [], (some 10 ∷ []) ∷ (some 5 ∷ []) ∷ []) ∷ (some 2 ∷ [], (some 7 ∷ []) ∷ []) ∷ []

runs-AreRuns : AreRuns numbers value_eq (list_eq value_eq) totals runs
runs-AreRuns = (λ h. cc, (refl, tt), (λ h. cc, tt, tt))

aggregations_agree_example :
    Perm
      (rows (execute_hash numbers value_eq (list_eq value_eq) totals (λ m. m) sales))
      (rows (execute_sort numbers value_eq (list_eq value_eq) totals sales))
    × (rows (execute_sort numbers value_eq (list_eq value_eq) totals sales)
        ≡ map (row_of numbers value_eq (list_eq value_eq) totals) runs)
aggregations_agree_example =
    aggregations_agree numbers value_eq (list_eq value_eq) totals (λ m. m) key arg sales runs
      (λ m. Perm.rfl) (λ chunk. refl) (λ chunk. refl) refl runs-AreRuns
      (finishes ((some 10 ∷ []) ∷ (some 5 ∷ []) ∷ []), (finishes ((some 7 ∷ []) ∷ []), tt)) refl

rows-execute_window_example :
    (rows (execute_window numbers value_eq totals sales)
      ≡ running numbers value_eq totals [] (rows sales))
    × (ending (execute_window numbers value_eq totals sales) ≡ ok tt)
rows-execute_window_example =
    rows-execute_window numbers value_eq totals sales (λ h. cc, (λ h. cc, tt)) refl
      (finishes (rows sales))
