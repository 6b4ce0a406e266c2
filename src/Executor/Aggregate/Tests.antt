-- ===== src/Executor/Aggregate/Tests.antt =====
-- Aggregations of numbers, with and without nulls.
use risinglight.Prelude.{
  ℕ, ◌+◌, ◌≡◌, refl, min, max, Bool, true, false, none, some, List, [], ◌∷◌, ◌++◌, Result, ok,
  arith, ◌>>=◌, panic, some-injective,
}
use risinglight.Prelude.Equality.{number_eq, option_eq}
use risinglight.Executor.Aggregate.{
  Scalar, Array, Agg, AggState, eval_agg, array_min, sum_from, array_sum, agg_append,
}
use risinglight.Executor.Aggregate.Sums.{IsSummable, append_values, values_of}
use risinglight.Executor.Aggregate.Laws.{IsScalar, eval_agg-append_values, sum_forgets}

abbrev numbers : Scalar ℕ
numbers = record {
  int32 = λ n. n;
  zero = some 0;
  sum_add = λ a b. a + b;
  add = λ a b. some (a + b);
  min = λ a b. min a b;
  max = λ a b. max a b;
}

numbers-IsScalar : IsScalar numbers
numbers-IsScalar = record {
  int32_add = λ m n. refl;
  min_assoc = λ a b c. omega arith;
  max_assoc = λ a b c. omega arith;
}

-- Each number is summable.
numbers-IsSummable : IsSummable numbers (λ _. Unit {0})
numbers-IsSummable = record {
  zero_add = λ zero a h d. let e : 0 ≡ zero = some-injective h in omega arith;
  closed = λ a b da db. tt;
  assoc = λ a b c da db dc. omega arith;
  adds = λ a b da db. refl;
}

-- `Int16`: an array has a sum, but `+` panics.
abbrev small : Scalar ℕ
small = record {
  int32 = λ n. n;
  zero = some 0;
  sum_add = λ a b. a + b;
  add = λ a b. none;
  min = λ a b. min a b;
  max = λ a b. max a b;
}

abbrev column : Array ℕ
column = (7, true) ∷ (0, false) ∷ (4, true) ∷ []

abbrev full_column : Array ℕ
full_column = (7, true) ∷ (4, true) ∷ []

-- A chunk of numbers is its own column here.
abbrev argument : List (ℕ × Bool) → Result ℕ (Array ℕ)
argument chunk = ok chunk

least :
    eval_agg numbers (option_eq number_eq) (Agg.min_ argument) (AggState.value none) column
    ≡ ok (AggState.value (some 4))
unfolding eval_agg array_min
least = refl

total_by_chunk :
    eval_agg numbers (option_eq number_eq) (Agg.sum argument) (AggState.value none) column
    ≡ ok (AggState.value (some 11))
unfolding eval_agg array_sum sum_from
total_by_chunk = refl

eval_agg-append_values_example :
    eval_agg numbers (option_eq number_eq) (Agg.sum argument) (AggState.value (some 9)) full_column
    ≡ append_values numbers
        (option_eq number_eq)
        (Agg.sum argument)
        (AggState.value (some 9))
        (values_of full_column)
eval_agg-append_values_example =
    eval_agg-append_values numbers (option_eq number_eq) numbers-IsScalar (λ _. Unit {0})
      numbers-IsSummable (Agg.sum argument) (AggState.value (some 9)) full_column full_column
      (some 9, refl, refl, (0, refl), tt, ((refl, tt), ((refl, tt), tt)), (λ h. cc))

small_total_by_chunk :
    eval_agg small (option_eq number_eq) (Agg.sum argument) (AggState.value none) full_column
    ≡ ok (AggState.value (some 11))
unfolding eval_agg array_sum sum_from
small_total_by_chunk = refl

small_total_by_row :
    append_values small
      (option_eq number_eq)
      (Agg.sum argument)
      (AggState.value none)
      (values_of full_column)
    ≡ panic
unfolding append_values agg_append
small_total_by_row = refl

sum_forgets_example :
    append_values numbers
      (option_eq number_eq)
      (Agg.sum argument)
      (AggState.value none)
      ((some 7 ∷ []) ++ none ∷ some 4 ∷ [])
    ≡ (append_values numbers
          (option_eq number_eq)
          (Agg.sum argument)
          (AggState.value none)
          (some 7 ∷ [])
        >>= λ _.
            append_values numbers
              (option_eq number_eq)
              (Agg.sum argument)
              (AggState.value none)
              (some 4 ∷ []))
sum_forgets_example =
    sum_forgets numbers (option_eq number_eq) argument (some 7 ∷ []) (some 4 ∷ []) none
