-- ===== src/Executor/Group/States.antt =====
-- The states of a list of aggregations over the rows of a group, and when they are there: always, but for
-- a sum of two values that `DataValue`'s `+` has no arm for.
use risinglight.Prelude.{
  ℕ, ◌+◌, ◌≡◌, refl, ◌∙◌, some, none, List, [], ◌∷◌, ◌++◌, Result, ok, ◌>>=◌, PartialEq, ok_or, sym,
  Result-cases, inl, inr, err≢ok, panic≢ok, append_assoc,
}
use risinglight.Executor.Aggregate.{
  Scalar, DataValue, Agg, AggState, init_agg_state, agg_append, add, one_if_valid, insert, min, max,
  or,
}
use risinglight.Executor.Aggregate.Laws.{IsScalar}
use risinglight.Executor.Group.{Row, init_agg_states, agg_list_append}

-- `+` has an arm for any two values.
abbrev AddsAll : {T : Type 0} → Scalar T → Type 0
AddsAll {T} s = (a b : T) → (total : T) × (s.add a b ≡ some total)

module _ {E T : Type 0} (s : Scalar T) (p : PartialEq (DataValue T)) where
  module _ (aggs : List (Agg E (Row T) T)) where
    -- The states after the rows of a group.
    pub append_all : List (AggState T) → List (Row T) → Result E (List (AggState T))
    append_all states [] = ok states
    append_all states (args ∷ rest) = do
      next ← agg_list_append s p aggs states args
      append_all next rest

    pub final : List (Row T) → List (AggState T)
    final rows_ = ok_or [] (append_all (init_agg_states s p aggs) rows_)

    -- The aggregations over the rows do not panic.
    abbrev pub Finishes : List (Row T) → Type 0
    Finishes rows_ =
        (states : List (AggState T)) × (append_all (init_agg_states s p aggs) rows_ ≡ ok states)

    append_all-append :
        (xs ys : List (Row T)) (states : List (AggState T))
        → append_all states (xs ++ ys) ≡ (append_all states xs >>= λ next. append_all next ys)
    unfolding append_all
    append_all-append [] ys states = refl
    append_all-append (x ∷ xs) ys states = elim (Result-cases (agg_list_append s p aggs states x)) [
      | inl (next, e) ↦ rw e (append_all-append xs ys next)
      | inr (inl (x', e)) ↦ rw e
      | inr (inr e) ↦ rw e
    ]

    one_more :
        (states : List (AggState T)) (args : Row T)
        → append_all states (args ∷ []) ≡ agg_list_append s p aggs states args
    unfolding append_all
    one_more states args = elim (Result-cases (agg_list_append s p aggs states args)) [
      | inl (next, e) ↦ rw e
      | inr (inl (x', e)) ↦ rw e
      | inr (inr e) ↦ rw e
    ]

    -- Fewer rows do not panic either.
    pub Finishes-prefix : (xs ys : List (Row T)) → Finishes (xs ++ ys) → Finishes xs
    Finishes-prefix xs ys (states, all) =
        let split = sym (append_all-append xs ys (init_agg_states s p aggs)) ∙ all in
        elim (Result-cases (append_all (init_agg_states s p aggs) xs)) [
          | inl (next, e) ↦ (next, e)
          | inr (inl (x, e)) ↦ absurd (err≢ok (rw e at split))
          | inr (inr e) ↦ absurd (panic≢ok (rw e at split))
        ]

    pub Finishes-assoc :
        (xs : List (Row T)) (x : Row T) (ys : List (Row T))
        → Finishes (xs ++ x ∷ ys)
        → Finishes ((xs ++ x ∷ []) ++ ys)
    Finishes-assoc xs x ys h = rw (append_assoc xs (x ∷ []) ys) h

    append_all-final :
        (rows_ : List (Row T))
        → Finishes rows_
        → append_all (init_agg_states s p aggs) rows_ ≡ ok (final rows_)
    unfolding final
    append_all-final rows_ (states, e) = rw e

    -- One more row of a group.
    pub agg_list_append-final :
        (rows_ : List (Row T)) (args : Row T)
        → Finishes (rows_ ++ args ∷ [])
        → agg_list_append s p aggs (final rows_) args ≡ ok (final (rows_ ++ args ∷ []))
    agg_list_append-final rows_ args h =
        let before = append_all-final rows_ (Finishes-prefix rows_ (args ∷ []) h) in
        sym (
          append_all-append rows_ (args ∷ []) (init_agg_states s p aggs)
          ∙ rw before (one_more (final rows_) args))
        ∙ append_all-final (rows_ ++ args ∷ []) h

    pub final-nil : final [] ≡ init_agg_states s p aggs
    unfolding final append_all
    final-nil = refl

  -- Only a sum needs that.
  abbrev pub Adds : Agg E (Row T) T → Type 0
  Adds (Agg.over window) = Adds window
  Adds (Agg.sum a) = AddsAll s
  Adds _ = Unit {0}

  abbrev pub AddsList : List (Agg E (Row T) T) → Type 0
  AddsList [] = Unit {0}
  AddsList (agg ∷ aggs) = Adds agg × AddsList aggs

  -- The states of an aggregation: a count has a number for its state.
  abbrev Fits : Agg E (Row T) T → AggState T → Type 0
  Fits (Agg.over window) state = Fits window state
  Fits (Agg.count_distinct a) state =
      (values : List (DataValue T)) × (state ≡ AggState.distinct_value values)
  Fits Agg.row_count state = (n : ℕ) × (state ≡ AggState.value (some (s.int32 n)))
  Fits Agg.row_number state = (n : ℕ) × (state ≡ AggState.value (some (s.int32 n)))
  Fits (Agg.count a) state = (n : ℕ) × (state ≡ AggState.value (some (s.int32 n)))
  Fits _ state = (v : DataValue T) × (state ≡ AggState.value v)

  abbrev FitsAll : List (Agg E (Row T) T) → List (AggState T) → Type 0
  FitsAll [] [] = Unit {0}
  FitsAll (agg ∷ aggs) (state ∷ states) = Fits agg state × FitsAll aggs states
  FitsAll _ _ = ⊥

  init_agg_state-Fits : (agg : Agg E (Row T) T) → Fits agg (init_agg_state s p agg)
  unfolding init_agg_state
  init_agg_state-Fits (Agg.over window) = init_agg_state-Fits window
  init_agg_state-Fits (Agg.count_distinct a) = ([], refl)
  init_agg_state-Fits Agg.row_count = (0, refl)
  init_agg_state-Fits Agg.row_number = (0, refl)
  init_agg_state-Fits (Agg.count a) = (0, refl)
  init_agg_state-Fits (Agg.sum a) = (none, refl)
  init_agg_state-Fits (Agg.min_ a) = (none, refl)
  init_agg_state-Fits (Agg.max_ a) = (none, refl)
  init_agg_state-Fits (Agg.first a) = (none, refl)
  init_agg_state-Fits (Agg.last a) = (none, refl)

  init_agg_states-Fits : (aggs : List (Agg E (Row T) T)) → FitsAll aggs (init_agg_states s p aggs)
  unfolding init_agg_states
  init_agg_states-Fits [] = tt
  init_agg_states-Fits (agg ∷ aggs) = (init_agg_state-Fits agg, init_agg_states-Fits aggs)

  add-AddsAll :
      AddsAll s → (a b : DataValue T) → (total : DataValue T) × (add s {E = E} a b ≡ ok total)
  add-AddsAll h none b = (b, refl)
  add-AddsAll h (some x) none = (none, refl)
  add-AddsAll h (some x) (some y) = let (total, e) = h x y in (some total, rw e)

  module _ (l : IsScalar s) where
    agg_append-Fits :
        (agg : Agg E (Row T) T) (state : AggState T) (v : DataValue T)
        → Adds agg
        → Fits agg state
        → (next : AggState T) × (agg_append s p agg state v ≡ ok next) × Fits agg next
    unfolding agg_append
    agg_append-Fits (Agg.over window) state v adds h = agg_append-Fits window state v adds h
    agg_append-Fits (Agg.count_distinct a) state v adds (values, e) =
        (AggState.distinct_value (insert p v values), rw e, (insert p v values, refl))
    agg_append-Fits Agg.row_count state v adds (n, e) =
        (AggState.value (some (s.int32 (n + 1))), rw (e, l.int32_add n 1), (n + 1, refl))
    agg_append-Fits Agg.row_number state v adds (n, e) =
        (AggState.value (some (s.int32 (n + 1))), rw (e, l.int32_add n 1), (n + 1, refl))
    agg_append-Fits (Agg.count a) state v adds (n, e) =
        let m = n + one_if_valid v in
        (AggState.value (some (s.int32 m)), rw (e, l.int32_add n (one_if_valid v)), (m, refl))
    agg_append-Fits (Agg.sum a) state v adds (w, e) =
        let (total, e') = add-AddsAll adds w v in (AggState.value total, rw (e, e'), (total, refl))
    agg_append-Fits (Agg.min_ a) state v adds (w, e) =
        (AggState.value (min s w v), rw e, (min s w v, refl))
    agg_append-Fits (Agg.max_ a) state v adds (w, e) =
        (AggState.value (max s w v), rw e, (max s w v, refl))
    agg_append-Fits (Agg.first a) state v adds (w, e) =
        (AggState.value (or w v), rw e, (or w v, refl))
    agg_append-Fits (Agg.last a) state v adds (w, e) = (AggState.value v, rw e, (v, refl))

    agg_list_append-Fits :
        (aggs : List (Agg E (Row T) T)) (states : List (AggState T)) (values : Row T)
        → AddsList aggs
        → FitsAll aggs states
        → (next : List (AggState T)) × (agg_list_append s p aggs states values ≡ ok next)
          × FitsAll aggs next
    unfolding agg_list_append
    agg_list_append-Fits [] [] values adds h = ([], refl, tt)
    agg_list_append-Fits [] (state ∷ states) values adds h = absurd h
    agg_list_append-Fits (agg ∷ aggs) [] values adds h = absurd h
    agg_list_append-Fits (agg ∷ aggs) (state ∷ states) [] adds h = (state ∷ states, refl, h)
    agg_list_append-Fits (agg ∷ aggs) (state ∷ states) (v ∷ values) adds h =
        let (next, e, fits) = agg_append-Fits agg state v adds.0 h.0 in
        let (rest, e', fits') = agg_list_append-Fits aggs states values adds.1 h.1 in
        (next ∷ rest, rw (e, e'), (fits, fits'))

    append_all-Fits :
        (aggs : List (Agg E (Row T) T))
        → AddsList aggs
        → (rows_ : List (Row T)) (states : List (AggState T)) → FitsAll aggs states
        → (last : List (AggState T)) × (append_all aggs states rows_ ≡ ok last)
    unfolding append_all
    append_all-Fits aggs adds [] states h = (states, refl)
    append_all-Fits aggs adds (args ∷ rest) states h =
        let (next, e, fits) = agg_list_append-Fits aggs states args adds h in
        let (last, e') = append_all-Fits aggs adds rest next fits in (last, rw e e')

    -- Aggregations do not panic, if `+` has an arm for any two values where there is a sum.
    pub AddsList-Finishes :
        (aggs : List (Agg E (Row T) T))
        → AddsList aggs
        → (rows_ : List (Row T)) → Finishes aggs rows_
    AddsList-Finishes aggs adds rows_ =
        append_all-Fits aggs adds rows_ (init_agg_states s p aggs) (init_agg_states-Fits aggs)
