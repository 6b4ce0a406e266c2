-- ===== src/Executor/Group/Sort.antt =====
-- The rows of a sort aggregation: a row for each run of equal keys.
use risinglight.Prelude.{
  ◌+◌, ◌≡◌, refl, ◌∙◌, Option, none, some, List, [], ◌∷◌, ◌++◌, map, map-append, ok, PartialEq,
  if◌then◌else◌, append-nil, inl, inr, Bool-cases, arith, err≢ok, panic≢ok,
}
use risinglight.Executor.Stream.{Stream, rows, ending}
use risinglight.Executor.Evaluate.{IsRowWise, zip}
use risinglight.Executor.Builder.{DataChunkBuilder, new, processing_window_size}
use risinglight.Executor.Builder.Laws.{
  IsValid, rows-push_rows, rows-flush, new-IsValid, push_row-IsValid, push_row-cases,
}
use risinglight.Executor.Aggregate.{Scalar, DataValue, AggState}
use risinglight.Executor.Group.{
  Row, AggExecutor, init_agg_states, agg_list_append, keyed, group_row, sort_rows, sort_finish,
  sort_loop, execute_sort,
}
use risinglight.Executor.Group.States.{
  final, agg_list_append-final, final-nil, Finishes, Finishes-prefix,
}

-- The keys and arguments of a row.
abbrev pub pair_of : {T : Type 0} → (Row T → Row T) → (Row T → Row T) → Row T → Row T × Row T
pair_of key arg row = (key row, arg row)

zip-map :
    {T : Type 0} (key arg : Row T → Row T) (chunk : List (Row T))
    → zip (map key chunk) (map arg chunk) ≡ map (pair_of key arg) chunk
zip-map key arg [] = refl
zip-map key arg (row ∷ chunk) = rw (zip-map key arg chunk)

module _ {E T : Type 0} (s : Scalar T) (p : PartialEq (DataValue T)) (self : AggExecutor E T) where
  pub keyed_lem :
      (key arg : Row T → Row T)
      → IsRowWise self.keys key
      → IsRowWise self.args arg
      → (chunk : List (Row T)) → keyed s p self chunk ≡ ok (map (pair_of key arg) chunk)
  unfolding keyed
  keyed_lem key arg key_wise arg_wise chunk =
      rw (key_wise chunk, arg_wise chunk, zip-map key arg chunk)

module _ {E T : Type 0} (s : Scalar T) (p : PartialEq (DataValue T)) (q : PartialEq (Row T))
    (self : AggExecutor E T) where
  -- A run: its keys, and the arguments of its rows so far.
  abbrev pub Run : Type 0
  Run = Row T × List (Row T)

  -- The row that a run gives.
  abbrev pub row_of : Run → Row T
  row_of (keys, args) = group_row s p q self (keys, final s p self.aggs args)

  -- The rows of the runs, the first of which may have begun before.
  abbrev pub run_rows : Option Run → List (Row T × Row T) → List (Row T)
  run_rows none [] = []
  run_rows (some current) [] = row_of current ∷ []
  run_rows none ((keys, args) ∷ rest) = run_rows (some (keys, args ∷ [])) rest
  run_rows (some (last, seen)) ((keys, args) ∷ rest) =
      if q.eq keys last
      then run_rows (some (last, seen ++ args ∷ [])) rest
      else row_of (last, seen) ∷ run_rows (some (keys, args ∷ [])) rest

  -- The run that is open after some rows.
  abbrev open_run : Option Run → List (Row T × Row T) → Option Run
  open_run current [] = current
  open_run none ((keys, args) ∷ rest) = open_run (some (keys, args ∷ [])) rest
  open_run (some (last, seen)) ((keys, args) ∷ rest) =
      if q.eq keys last
      then open_run (some (last, seen ++ args ∷ [])) rest
      else open_run (some (keys, args ∷ [])) rest

  abbrev last_of : Option Run → Option (Row T)
  last_of none = none
  last_of (some current) = some current.0

  abbrev states_of : Option Run → List (AggState T)
  states_of none = init_agg_states s p self.aggs
  states_of (some current) = final s p self.aggs current.1

  -- The aggregations over the rows of each run do not panic.
  abbrev pub RunsFinish : Option Run → List (Row T × Row T) → Type 0
  RunsFinish none [] = Unit {0}
  RunsFinish (some current) [] = Finishes s p self.aggs current.1
  RunsFinish none ((keys, args) ∷ rest) = RunsFinish (some (keys, args ∷ [])) rest
  RunsFinish (some (last, seen)) ((keys, args) ∷ rest) =
      if q.eq keys last
      then RunsFinish (some (last, seen ++ args ∷ [])) rest
      else (Finishes s p self.aggs seen × RunsFinish (some (keys, args ∷ [])) rest)

  RunsFinish-open :
      (last : Row T) (seen : List (Row T)) (pairs : List (Row T × Row T))
      → RunsFinish (some (last, seen)) pairs
      → Finishes s p self.aggs seen
  RunsFinish-open last seen [] f = f
  RunsFinish-open last seen ((keys, args) ∷ pairs) f = elim (Bool-cases (q.eq keys last)) [
    | inl same ↦
        Finishes-prefix s p self.aggs seen (args ∷ [])
          (RunsFinish-open last (seen ++ args ∷ []) pairs (rw same at f))
    | inr differ ↦ (rw differ at f).0
  ]

  RunsFinish-rest :
      (pairs rest : List (Row T × Row T)) (current : Option Run)
      → RunsFinish current (pairs ++ rest)
      → RunsFinish (open_run current pairs) rest
  RunsFinish-rest [] rest current f = f
  RunsFinish-rest ((keys, args) ∷ pairs) rest none f =
      RunsFinish-rest pairs rest (some (keys, args ∷ [])) f
  RunsFinish-rest ((keys, args) ∷ pairs) rest (some (last, seen)) f =
      elim (Bool-cases (q.eq keys last)) [
        | inl same ↦
            rw same (RunsFinish-rest pairs rest (some (last, seen ++ args ∷ [])) (rw same at f))
        | inr differ ↦
            rw differ (RunsFinish-rest pairs rest (some (keys, args ∷ [])) (rw differ at f).1)
      ]

  begin :
      (args : Row T)
      → Finishes s p self.aggs (args ∷ [])
      → agg_list_append s p self.aggs (init_agg_states s p self.aggs) args
        ≡ ok (final s p self.aggs (args ∷ []))
  begin args f = rw (← final-nil s p self.aggs) (agg_list_append-final s p self.aggs [] args f)

  -- Before the first row the builder is empty.
  abbrev Started : Option Run → DataChunkBuilder (Row T) → Type 0
  Started none b = b.buffer ≡ []
  Started (some current) b = Unit {0}

  Continues :
      Option Run → (DataChunkBuilder (Row T) → Stream E (List (Row T))) → List (Row T) → Type 0
  Continues current k ys =
      (b : DataChunkBuilder (Row T)) → IsValid b → Started current b → rows (k b) ≡ b.buffer ++ ys

  rows-sort_rows :
      (pairs rest : List (Row T × Row T)) (current : Option Run) (b : DataChunkBuilder (Row T))
      (k : Option (Row T) → List (AggState T) → DataChunkBuilder (Row T) → Stream E (List (Row T)))
      → IsValid b
      → Started current b
      → Continues
          (open_run current pairs)
          (k (last_of (open_run current pairs)) (states_of (open_run current pairs)))
          (run_rows (open_run current pairs) rest)
      → RunsFinish current (pairs ++ rest)
      → rows (sort_rows s p q self pairs (last_of current) (states_of current) b k)
        ≡ b.buffer ++ run_rows current (pairs ++ rest)
  unfolding sort_rows Continues
  rows-sort_rows [] rest current b k v h next f = next b v h
  rows-sort_rows ((keys, args) ∷ pairs) rest none b k v h next f =
      rw (begin args (RunsFinish-open keys (args ∷ []) (pairs ++ rest) f))
        (rows-sort_rows pairs rest (some (keys, args ∷ [])) b k v tt next f)
  rows-sort_rows ((keys, args) ∷ pairs) rest (some (last, seen)) b k v h next f =
      elim (Bool-cases (q.eq keys last)) [
        | inl same ↦
            let f' : RunsFinish (some (last, seen ++ args ∷ [])) (pairs ++ rest) = rw same at f in
            let more = RunsFinish-open last (seen ++ args ∷ []) (pairs ++ rest) f' in
            rw (same, agg_list_append-final s p self.aggs seen args more)
              (rows-sort_rows pairs rest (some (last, seen ++ args ∷ [])) b k v tt (rw same at next)
                f')
        | inr differ ↦
            let f' : RunsFinish (some (keys, args ∷ [])) (pairs ++ rest) = (rw differ at f).1 in
            let more = RunsFinish-open keys (args ∷ []) (pairs ++ rest) f' in
            rw differ (
              rows-push_rows (row_of (last, seen) ∷ []) b _
                (run_rows (some (keys, args ∷ [])) (pairs ++ rest)) v
                (λ b' v'. rw (begin args more) (
                  rows-sort_rows pairs rest (some (keys, args ∷ [])) b' k v' tt (rw differ at next)
                    f')))
      ]

  rows-sort_finish :
      (current : Option Run) (b : DataChunkBuilder (Row T))
      → IsValid b
      → Started current b
      → rows (sort_finish s p q self (last_of current) (states_of current) b)
        ≡ b.buffer ++ run_rows current []
  unfolding sort_finish
  rows-sort_finish none b v h = rw h
  rows-sort_finish (some (keys, args)) b v h = elim (push_row-cases (row_of (keys, args)) b) [
    | inl (full, _) ↦ rw (full, sort_finish) (append-nil (b.buffer ++ row_of (keys, args) ∷ []))
    | inr (free, _) ↦
        let pushed = push_row-IsValid (row_of (keys, args)) b v in
        let valid : IsValid
            (record b { buffer = b.buffer ++ row_of (keys, args) ∷ []; size = b.size + 1 }) =
          rw free at pushed in
        rw (free, sort_finish, free) (rows-flush E _ valid ∙ append-nil _)
  ]

  module _ (key arg : Row T → Row T) (key_wise : IsRowWise self.keys key)
      (arg_wise : IsRowWise self.args arg) where
    rows-sort_loop :
        (child : Stream E (List (Row T))) (current : Option Run) (b : DataChunkBuilder (Row T))
        → IsValid b
        → Started current b
        → ending child ≡ ok tt
        → RunsFinish current (map (pair_of key arg) (rows child))
        → rows (sort_loop s p q self child (last_of current) (states_of current) b)
          ≡ b.buffer ++ run_rows current (map (pair_of key arg) (rows child))
    unfolding sort_loop Continues
    rows-sort_loop Stream.done current b v h e f = rows-sort_finish current b v h
    rows-sort_loop (Stream.failed x) current b v h e f = absurd (err≢ok e)
    rows-sort_loop Stream.panicked current b v h e f = absurd (panic≢ok e)
    rows-sort_loop (Stream.yielded chunk child) current b v h e f =
        let pairs = map (pair_of key arg) chunk in
        let f' : RunsFinish current (pairs ++ map (pair_of key arg) (rows child)) =
          rw (map-append (pair_of key arg) chunk (rows child)) at f in
        rw
          (
            keyed_lem s p self key arg key_wise arg_wise chunk,
            map-append (pair_of key arg) chunk (rows child),
          )
          (rows-sort_rows pairs (map (pair_of key arg) (rows child)) current b
            (sort_loop s p q self child) v h
            (λ b' v' h'.
              rows-sort_loop child (open_run current pairs) b' v' h' e
                (RunsFinish-rest pairs (map (pair_of key arg) (rows child)) current f'))
            f')

    -- A sort aggregation gives a row for each run of rows with equal keys, in their order: the keys, and
    -- the results of the aggregations over the rows of the run, if these do not panic.
    pub rows-execute_sort :
        (child : Stream E (List (Row T)))
        → ending child ≡ ok tt
        → RunsFinish none (map (pair_of key arg) (rows child))
        → rows (execute_sort s p q self child) ≡ run_rows none (map (pair_of key arg) (rows child))
    unfolding execute_sort new
    rows-execute_sort child e f =
        rows-sort_loop child none (new processing_window_size)
          (new-IsValid processing_window_size (omega arith)) refl e f
