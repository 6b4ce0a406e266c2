-- ===== src/Executor/Aggregate/Laws.antt =====
-- An aggregation by chunks against the same aggregation row by row.
use risinglight.Prelude.{
  ℕ, suc, ◌+◌, ◌≡◌, refl, sym, ap, ◌∙◌, true, false, none, some, List, [], ◌∷◌, ◌++◌, length,
  Result, ok, ◌>>=◌, PartialEq, arith, inl, inr, All, length-map, ◌≢◌, Result-cases,
}
use risinglight.Executor.Aggregate.{
  Scalar, DataValue, Array, value_of, nonnull, add, min, max, array_count, array_min, array_max,
  Agg, AggState, agg_append, insert, insert_all, eval_agg,
}
use risinglight.Executor.Aggregate.Sums.{
  IsSummable, NullOr, ValidIn, values_of, append_values, array-sum,
}

-- What the aggregations rely on of the arithmetic and the order.
pub record IsScalar {T : Type 0} (s : Scalar T) : Type 0 where
  pub int32_add : (m n : ℕ) → s.add (s.int32 m) (s.int32 n) ≡ some (s.int32 (m + n))
  pub min_assoc : (a b c : T) → s.min (s.min a b) c ≡ s.min a (s.min b c)
  pub max_assoc : (a b c : T) → s.max (s.max a b) c ≡ s.max a (s.max b c)

module _ {T : Type 0} (s : Scalar T) where
  min_lem : IsScalar s → (a b c : DataValue T) → min s (min s a b) c ≡ min s a (min s b c)
  min_lem l none b c = refl
  min_lem l (some x) none c = refl
  min_lem l (some x) (some y) none = refl
  min_lem l (some x) (some y) (some z) = ap some (l.min_assoc x y z)

  max_lem : IsScalar s → (a b c : DataValue T) → max s (max s a b) c ≡ max s a (max s b c)
  max_lem l none b c = refl
  max_lem l (some x) none c = refl
  max_lem l (some x) (some y) none = refl
  max_lem l (some x) (some y) (some z) = ap some (l.max_assoc x y z)

  none_right_min : (a : DataValue T) → min s a none ≡ a
  none_right_min none = refl
  none_right_min (some x) = refl

  none_right_max : (a : DataValue T) → max s a none ≡ a
  none_right_max none = refl
  none_right_max (some x) = refl

module _ {E R T : Type 0} (s : Scalar T) (p : PartialEq (DataValue T)) where
  module _ (l : IsScalar s) where
    append-row_count :
        (chunk : List R) (values : List (DataValue T)) (n : ℕ)
        → length chunk ≡ length values
        → append_values {E = E} {R = R} s p Agg.row_count (AggState.value (some (s.int32 n))) values
          ≡ ok (AggState.value (some (s.int32 (n + length chunk))))
    unfolding append_values agg_append
    append-row_count [] [] n h = let e : n + 0 ≡ n = omega arith in rw e
    append-row_count [] (v ∷ values) n h = absurd (omega arith)
    append-row_count (x ∷ chunk) [] n h = absurd (omega arith)
    append-row_count (x ∷ chunk) (v ∷ values) n h =
        let e : n + 1 + length chunk ≡ n + suc (length chunk) = omega arith in
        rw (l.int32_add n 1, append-row_count chunk values (n + 1) (omega arith), e)

    append-count :
        (a : List R → Result E (Array T)) (array : Array T) (n : ℕ)
        → append_values s p (Agg.count a) (AggState.value (some (s.int32 n))) (values_of array)
          ≡ ok (AggState.value (some (s.int32 (n + array_count array))))
    unfolding append_values agg_append
    append-count a [] n = let e : n + 0 ≡ n = omega arith in rw e
    append-count a ((d, true) ∷ array) n =
        let e : n + 1 + array_count array ≡ n + suc (array_count array) = omega arith in
        rw (l.int32_add n 1, append-count a array (n + 1), e)
    append-count a ((d, false) ∷ array) n =
        let e : n + 0 ≡ n = omega arith in rw (l.int32_add n 0, append-count a array (n + 0), e)

    append-min :
        (a : List R → Result E (Array T)) (array : Array T) (state : DataValue T)
        → append_values s p (Agg.min_ a) (AggState.value state) (values_of array)
          ≡ ok (AggState.value (min s state (array_min s (nonnull array))))
    unfolding append_values agg_append array_min
    append-min a [] state = rw (none_right_min s state)
    append-min a ((d, true) ∷ array) state = rw (
      append-min a array (min s state (some d)),
      min_lem s l state (some d) (array_min s (nonnull array)),
    )
    append-min a ((d, false) ∷ array) state = rw (none_right_min s state) (append-min a array state)

    append-max :
        (a : List R → Result E (Array T)) (array : Array T) (state : DataValue T)
        → append_values s p (Agg.max_ a) (AggState.value state) (values_of array)
          ≡ ok (AggState.value (max s state (array_max s (nonnull array))))
    unfolding append_values agg_append array_max
    append-max a [] state = rw (none_right_max s state)
    append-max a ((d, true) ∷ array) state = rw (
      append-max a array (max s state (some d)),
      max_lem s l state (some d) (array_max s (nonnull array)),
    )
    append-max a ((d, false) ∷ array) state = rw (none_right_max s state) (append-max a array state)

  append-count_distinct :
      (a : List R → Result E (Array T)) (array : Array T) (values : List (DataValue T))
      → append_values s p (Agg.count_distinct a) (AggState.distinct_value values) (values_of array)
        ≡ ok (AggState.distinct_value (insert_all p array values))
  unfolding append_values agg_append insert_all
  append-count_distinct a [] values = refl
  append-count_distinct a (entry ∷ array) values =
      append-count_distinct a array (insert p (value_of entry) values)

  -- The states and columns on which an aggregation by rows is one by chunks: a count has a number for
  -- its state, and a sum has a row, a sum to begin with, and in each row and in its state a value of `D`
  -- (no null, but for the first state).
  abbrev pub RowsSuffice : (T → Type 0) → Agg E R T → AggState T → List R → Array T → Type 0
  RowsSuffice D Agg.row_count state chunk array =
      (n : ℕ) × (state ≡ AggState.value (some (s.int32 n))) × (length chunk ≡ length array)
  RowsSuffice D (Agg.count a) state chunk array =
      (n : ℕ) × (state ≡ AggState.value (some (s.int32 n))) × (a chunk ≡ ok array)
  RowsSuffice D (Agg.sum a) state chunk array =
      (v : DataValue T) × (state ≡ AggState.value v)
      × (a chunk ≡ ok array)
      × ((zero : T) × (s.zero ≡ some zero))
      × NullOr D v
      × All (ValidIn D) array
      × (array ≢ [])
  RowsSuffice D (Agg.min_ a) state chunk array =
      (v : DataValue T) × (state ≡ AggState.value v) × (a chunk ≡ ok array)
  RowsSuffice D (Agg.max_ a) state chunk array =
      (v : DataValue T) × (state ≡ AggState.value v) × (a chunk ≡ ok array)
  RowsSuffice D (Agg.count_distinct a) state chunk array =
      (values : List (DataValue T)) × (state ≡ AggState.distinct_value values)
      × (a chunk ≡ ok array)
  RowsSuffice D _ state chunk array = ⊥

  -- Counts, distinct counts, minima and maxima of a chunk are those of its rows one after the other,
  -- and so are sums of a chunk with a row at least and no null, of a type whose `+` is associative and
  -- there for two values (not SMALLINT, intervals or floats).
  pub eval_agg-append_values :
      IsScalar s
      → (D : T → Type 0) → IsSummable s D
      → (agg : Agg E R T) (state : AggState T) (chunk : List R) (array : Array T)
      → RowsSuffice D agg state chunk array
      → eval_agg s p agg state chunk ≡ append_values s p agg state (values_of array)
  unfolding eval_agg
  eval_agg-append_values l D sums Agg.row_count state chunk array (n, e, size) =
      rw (e, l.int32_add n (length chunk))
        (sym
          (append-row_count l chunk (values_of array) n (size ∙ sym (length-map array value_of))))
  eval_agg-append_values l D sums Agg.row_number state chunk array h = absurd h
  eval_agg-append_values l D sums (Agg.count a) state chunk array (n, e, got) =
      rw (e, got, l.int32_add n (array_count array)) (sym (append-count l a array n))
  eval_agg-append_values l D sums (Agg.sum a) state chunk array
        (v, e, got, (zero, z), ds, valid, nonempty) =
      rw (e, got) (sym (array-sum s p D sums a array v zero z ds valid nonempty))
  eval_agg-append_values l D sums (Agg.min_ a) state chunk array (v, e, got) =
      rw (e, got) (sym (append-min l a array v))
  eval_agg-append_values l D sums (Agg.max_ a) state chunk array (v, e, got) =
      rw (e, got) (sym (append-max l a array v))
  eval_agg-append_values l D sums (Agg.first a) state chunk array h = absurd h
  eval_agg-append_values l D sums (Agg.last a) state chunk array h = absurd h
  eval_agg-append_values l D sums (Agg.count_distinct a) state chunk array (values, e, got) =
      rw (e, got) (sym (append-count_distinct a array values))
  eval_agg-append_values l D sums (Agg.over window) state chunk array h = absurd h

  pub append_values-append :
      (agg : Agg E R T) (state : AggState T) (xs ys : List (DataValue T))
      → append_values s p agg state (xs ++ ys)
        ≡ (append_values s p agg state xs >>= λ next. append_values s p agg next ys)
  unfolding append_values
  append_values-append agg state [] ys = refl
  append_values-append agg state (x ∷ xs) ys = elim (Result-cases (agg_append s p agg state x)) [
    | inl (next, e) ↦ rw e (append_values-append agg next xs ys)
    | inr (inl (x', e)) ↦ rw e
    | inr (inr e) ↦ rw e
  ]

  -- A sum row by row forgets all that comes before a null: the rows before it give no more than their
  -- panic, if `+` has no arm for two of their values.
  pub sum_forgets :
      (a : List R → Result E (Array T)) (xs ys : List (DataValue T)) (state : DataValue T)
      → append_values s p (Agg.sum a) (AggState.value state) (xs ++ none ∷ ys) ≡ (
          append_values s p (Agg.sum a) (AggState.value state) xs >>= λ _.
          append_values s p (Agg.sum a) (AggState.value none) ys)
  unfolding append_values agg_append
  sum_forgets a [] ys none = refl
  sum_forgets a [] ys (some v) = refl
  sum_forgets a (x ∷ xs) ys state = elim (Result-cases (add s {E = E} state x)) [
    | inl (total, e) ↦ rw e (sum_forgets a xs ys total)
    | inr (inl (x', e)) ↦ rw e
    | inr (inr e) ↦ rw e
  ]
