-- ===== src/Executor/Aggregate/Sums.antt =====
-- Sums of a column, as a whole (`ArrayImpl::sum`) and row by row (`+`).
use risinglight.Prelude.{
  ◌≡◌, refl, ◌∙◌, Bool, true, none, some, List, [], ◌∷◌, map, Result, ok, ◌>>=◌, PartialEq, All,
  ◌≢◌,
}
use risinglight.Executor.Aggregate.{
  Scalar, DataValue, Array, value_of, add, Agg, AggState, agg_append, sum_from, array_sum,
}

-- What the sum of a column relies on, for the values in `D`: `+` has an arm for two of them, which adds as
-- an array's sum does, and adds up in any grouping. `i32` and `i64` are such values where overflow wraps.
-- `i16` and intervals are not, for want of the arm, and floats are not, for want of associativity: for
-- them `D` is empty.
pub record IsSummable {T : Type 0} (s : Scalar T) (D : T → Type 0) : Type 0 where
  pub zero_add : (zero a : T) → s.zero ≡ some zero → D a → s.sum_add zero a ≡ a
  pub closed : (a b : T) → D a → D b → D (s.sum_add a b)
  pub assoc :
      (a b c : T) → D a → D b → D c → s.sum_add (s.sum_add a b) c ≡ s.sum_add a (s.sum_add b c)
  pub adds : (a b : T) → D a → D b → s.add a b ≡ some (s.sum_add a b)

-- A value of the column is null or in `D`, and an entry of it is valid and has its data in `D`.
abbrev pub NullOr : {T : Type 0} → (T → Type 0) → DataValue T → Type 0
NullOr D none = Unit {0}
NullOr D (some v) = D v

abbrev pub ValidIn : {T : Type 0} → (T → Type 0) → T × Bool → Type 0
ValidIn D (data_, valid) = (valid ≡ true) × D data_

-- The values of a column, row by row.
abbrev pub values_of : {T : Type 0} → Array T → List (DataValue T)
values_of a = map value_of a

module _ {T : Type 0} (s : Scalar T) where
  module _ (D : T → Type 0) (l : IsSummable s D) where
    sum_from-closed :
        (array : Array T) (b : T) → D b → All (ValidIn D) array → D (sum_from s b array)
    unfolding sum_from
    sum_from-closed [] b db h = db
    sum_from-closed ((d, valid) ∷ array) b db h =
        sum_from-closed array (s.sum_add b d) (l.closed b d db h.0.1) h.1

    add-sum_from :
        (array : Array T) (a b : T)
        → D a
        → D b
        → All (ValidIn D) array
        → s.sum_add a (sum_from s b array) ≡ sum_from s (s.sum_add a b) array
    unfolding sum_from
    add-sum_from [] a b da db h = refl
    add-sum_from ((d, valid) ∷ array) a b da db h =
        add-sum_from array a (s.sum_add b d) da (l.closed b d db h.0.1) h.1
        ∙ rw (l.assoc a b d da db h.0.1)

module _ {E R T : Type 0} (s : Scalar T) (p : PartialEq (DataValue T)) where
  -- The state after the values of several rows.
  unfoldable pub append_values : Agg E R T → AggState T → List (DataValue T) → Result E (AggState T)
  append_values agg state [] = ok state
  append_values agg state (v ∷ values) = do
    next ← agg_append s p agg state v
    append_values agg next values

  module _ (D : T → Type 0) (l : IsSummable s D) (a : List R → Result E (Array T)) where
    -- The sum of data that are all valid, row by row.
    append-sum :
        (array : Array T) (total : T)
        → D total
        → All (ValidIn D) array
        → append_values (Agg.sum a) (AggState.value (some total)) (values_of array)
          ≡ ok (AggState.value (some (sum_from s total array)))
    unfolding append_values agg_append sum_from
    append-sum [] total dt h = refl
    append-sum ((d, valid) ∷ array) total dt h =
        rw (h.0.0, l.adds total d dt h.0.1)
          (append-sum array (s.sum_add total d) (l.closed total d dt h.0.1) h.1)

    pub array-sum :
        (array : Array T) (state : DataValue T) (zero : T)
        → s.zero ≡ some zero
        → NullOr D state
        → All (ValidIn D) array
        → array ≢ []
        → append_values (Agg.sum a) (AggState.value state) (values_of array)
          ≡ (array_sum s array >>= λ part. add s state part >>= λ total. ok (AggState.value total))
    unfolding append_values agg_append array_sum sum_from
    array-sum [] state zero z ds h n = absurd (n refl)
    array-sum ((d, valid) ∷ array) none zero z ds h n =
        rw (h.0.0, z, l.zero_add zero d z h.0.1) (append-sum array d h.0.1 h.1)
    array-sum ((d, valid) ∷ array) (some t) zero z ds h n =
        rw
          (
            h.0.0,
            z,
            l.zero_add zero d z h.0.1,
            l.adds t d ds h.0.1,
            l.adds t (sum_from s d array) ds (sum_from-closed s D l array d h.0.1 h.1),
            add-sum_from s D l array t d ds h.0.1 h.1,
          )
          (append-sum array (s.sum_add t d) (l.closed t d ds h.0.1) h.1)
