-- ===== src/Executor/Aggregate.antt =====
-- The aggregations of executor/evaluator.rs: what a state becomes by one more row (`agg_append`) and by
-- a whole chunk (`eval_agg`, with the aggregations of an array in array/ops.rs). A column has values
-- of one type `T`, whose arithmetic and order are the parameter `Scalar`. `DataValue`'s `+` is not
-- there for each type that an array has a sum of, and panics where it is not.
pub mod Sums
pub mod Laws
mod Tests
use risinglight.Prelude.{
  ℕ, ◌+◌, ◌<◌, Bool, true, false, not, Option, none, some, List, [], ◌∷◌, ◌++◌, length, map, Result,
  ok, err, panic, ◌>>=◌, if◌then◌else◌, PartialEq, ◌≡◌, unwrap,
}
use risinglight.Prelude.KeyMap.{contains}

-- Machine arithmetic and the order of one type of values; `int32` makes a count a value. `zero` and
-- `sum_add` are the `Sum` of an array's data, `none` for a type on which `ArrayImpl::sum` panics. `add` is
-- the arm of `DataValue`'s `+` for two values (overflow is that of the machine type), `none` if it has no arm for them, as for two `Int16` or
-- two `Interval`. `min` and `max` compare two values of the one type.
pub record Scalar (T : Type 0) : Type 0 where
  pub int32 : ℕ → T
  pub zero : Option T
  pub sum_add : T → T → T
  pub add : T → T → Option T
  pub min : T → T → T
  pub max : T → T → T

-- `DataValue`: `none` is `DataValue::Null`.
abbrev pub DataValue : Type 0 → Type 0
DataValue T = Option T

-- An array: the data of each entry and whether it is valid. A null has data too.
abbrev pub Array : Type 0 → Type 0
Array T = List (T × Bool)

module _ {T : Type 0} where
  abbrev pub value_of : T × Bool → DataValue T
  value_of (data_, valid) = if valid then some data_ else none

  -- `nonnull_iter`
  abbrev pub nonnull : Array T → List T
  nonnull [] = []
  nonnull ((data_, valid) ∷ a) = if valid then data_ ∷ nonnull a else nonnull a

  -- `Ext::or`
  abbrev pub or : DataValue T → DataValue T → DataValue T
  or none other = other
  or (some v) other = some v

  module _ (s : Scalar T) where
    -- `+` of two values, which panics if there is no arm for their variants
    abbrev pub plus : {E : Type 0} → DataValue T → DataValue T → Result E (DataValue T)
    plus none b = ok none
    plus (some a) none = ok none
    plus (some a) (some b) = do total ← unwrap (s.add a b); ok (some total)

    -- `Ext::add`
    abbrev pub add : {E : Type 0} → DataValue T → DataValue T → Result E (DataValue T)
    add none other = ok other
    add (some a) other = plus (some a) other

    -- `DataValue::min` and `DataValue::max`
    abbrev pub min : DataValue T → DataValue T → DataValue T
    min none b = b
    min (some a) none = some a
    min (some a) (some b) = some (s.min a b)

    abbrev pub max : DataValue T → DataValue T → DataValue T
    max none b = b
    max (some a) none = some a
    max (some a) (some b) = some (s.max a b)

    -- `ArrayImpl::sum` adds the data of all entries (`raw_iter`).
    unfoldable pub sum_from : T → Array T → T
    sum_from total [] = total
    sum_from total ((data_, valid) ∷ a) = sum_from (s.sum_add total data_) a

    unfoldable pub array_sum : {E : Type 0} → Array T → Result E (DataValue T)
    unfolding sum_from
    array_sum a = do zero ← unwrap s.zero; ok (some (sum_from zero a))

    -- `min()` and `max()` of the iterator over the valid entries
    unfoldable pub array_min : List T → DataValue T
    array_min [] = none
    array_min (x ∷ xs) = min (some x) (array_min xs)

    unfoldable pub array_max : List T → DataValue T
    array_max [] = none
    array_max (x ∷ xs) = max (some x) (array_max xs)

  -- `ArrayImpl::count`
  abbrev pub array_count : Array T → ℕ
  array_count a = length (nonnull a)

  abbrev pub array_first : Array T → DataValue T
  array_first [] = none
  array_first (entry ∷ a) = value_of entry

  abbrev pub array_last : Array T → DataValue T
  array_last [] = none
  array_last (entry ∷ []) = value_of entry
  array_last (entry ∷ next ∷ a) = array_last (next ∷ a)

-- The nodes for aggregations. An argument is what evaluating it on a chunk of rows gives.
pub data Agg (E R T : Type 0) : Type 0 where
  row_count : Agg E R T
  row_number : Agg E R T
  count : (List R → Result E (Array T)) → Agg E R T
  sum : (List R → Result E (Array T)) → Agg E R T
  min_ : (List R → Result E (Array T)) → Agg E R T
  max_ : (List R → Result E (Array T)) → Agg E R T
  first : (List R → Result E (Array T)) → Agg E R T
  last : (List R → Result E (Array T)) → Agg E R T
  count_distinct : (List R → Result E (Array T)) → Agg E R T
  over : Agg E R T → Agg E R T

-- A `HashSet` is a list without duplicates.
pub data AggState (T : Type 0) : Type 0 where
  value : DataValue T → AggState T
  distinct_value : List (DataValue T) → AggState T

-- `!value.is_null() as _`
abbrev pub one_if_valid : {T : Type 0} → DataValue T → ℕ
one_if_valid none = 0
one_if_valid (some v) = 1

module _ {T : Type 0} (p : PartialEq (DataValue T)) where
  -- `values.insert(value)`
  abbrev pub insert : DataValue T → List (DataValue T) → List (DataValue T)
  insert v values = if contains p v values then values else values ++ v ∷ []

  -- `for value in array.iter() { values.insert(value); }`
  unfoldable pub insert_all : Array T → List (DataValue T) → List (DataValue T)
  insert_all [] values = values
  insert_all (entry ∷ a) values = insert_all a (insert (value_of entry) values)

-- `AggState::result` and `into_result`
abbrev pub result : {T : Type 0} → Scalar T → AggState T → DataValue T
result s (AggState.value v) = v
result s (AggState.distinct_value values) = some (s.int32 (length values))

module _ {E R T : Type 0} (s : Scalar T) (p : PartialEq (DataValue T)) where
  unfoldable pub init_agg_state : Agg E R T → AggState T
  init_agg_state (Agg.over window) = init_agg_state window
  init_agg_state (Agg.count_distinct a) = AggState.distinct_value []
  init_agg_state Agg.row_count = AggState.value (some (s.int32 0))
  init_agg_state Agg.row_number = AggState.value (some (s.int32 0))
  init_agg_state (Agg.count a) = AggState.value (some (s.int32 0))
  init_agg_state (Agg.sum a) = AggState.value none
  init_agg_state (Agg.min_ a) = AggState.value none
  init_agg_state (Agg.max_ a) = AggState.value none
  init_agg_state (Agg.first a) = AggState.value none
  init_agg_state (Agg.last a) = AggState.value none

  unfoldable pub agg_append : Agg E R T → AggState T → DataValue T → Result E (AggState T)
  agg_append (Agg.over window) state v = agg_append window state v
  agg_append agg (AggState.distinct_value values) v =
      ok (AggState.distinct_value (insert p v values))
  agg_append Agg.row_count (AggState.value state) v = do
    total ← add s state (some (s.int32 1))
    ok (AggState.value total)
  agg_append Agg.row_number (AggState.value state) v = do
    total ← add s state (some (s.int32 1))
    ok (AggState.value total)
  agg_append (Agg.count a) (AggState.value state) v = do
    total ← add s state (some (s.int32 (one_if_valid v)))
    ok (AggState.value total)
  agg_append (Agg.sum a) (AggState.value state) v = do
    total ← add s state v
    ok (AggState.value total)
  agg_append (Agg.min_ a) (AggState.value state) v = ok (AggState.value (min s state v))
  agg_append (Agg.max_ a) (AggState.value state) v = ok (AggState.value (max s state v))
  agg_append (Agg.first a) (AggState.value state) v = ok (AggState.value (or state v))
  agg_append (Agg.last a) (AggState.value state) v = ok (AggState.value v)
  agg_append (Agg.count_distinct a) (AggState.value state) v = panic

  unfoldable pub eval_agg : Agg E R T → AggState T → List R → Result E (AggState T)
  eval_agg Agg.row_count (AggState.value state) chunk = do
    total ← add s state (some (s.int32 (length chunk)))
    ok (AggState.value total)
  eval_agg (Agg.count a) (AggState.value state) chunk = do
    array ← a chunk
    total ← add s state (some (s.int32 (array_count array)))
    ok (AggState.value total)
  eval_agg (Agg.sum a) (AggState.value state) chunk = do
    array ← a chunk
    part ← array_sum s array
    total ← add s state part
    ok (AggState.value total)
  eval_agg (Agg.min_ a) (AggState.value state) chunk = do
    array ← a chunk
    ok (AggState.value (min s state (array_min s (nonnull array))))
  eval_agg (Agg.max_ a) (AggState.value state) chunk = do
    array ← a chunk
    ok (AggState.value (max s state (array_max s (nonnull array))))
  eval_agg (Agg.first a) (AggState.value state) chunk = do
    array ← a chunk
    ok (AggState.value (or state (array_first array)))
  eval_agg (Agg.last a) (AggState.value state) chunk = do
    array ← a chunk
    ok (AggState.value (or (array_last array) state))
  eval_agg (Agg.count_distinct a) (AggState.distinct_value values) chunk = do
    array ← a chunk
    ok (AggState.distinct_value (insert_all p array values))
  eval_agg _ _ chunk = panic
