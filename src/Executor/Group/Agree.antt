-- ===== src/Executor/Group/Agree.antt =====
-- A sort aggregation against the hash aggregation of the same rows.
use mathlib.Core.List.{Perm}
use mathlib.Core.List.Perm
use risinglight.Prelude.{
  ◌≡◌, refl, ap, ◌∙◌, false, none, some, List, [], ◌∷◌, ◌++◌, map, length, ok, PartialEq, All,
  append_assoc, append-nil, arith, ◌≤◌,
}
use risinglight.Prelude.KeyMap.{eq_refl}
use risinglight.Prelude.Permutation.{Perm-length}
use risinglight.Executor.Stream.{Stream, rows, ending}
use risinglight.Executor.Evaluate.{IsRowWise}
use risinglight.Executor.Aggregate.{Scalar, DataValue, AggState}
use risinglight.Executor.Group.{Row, AggExecutor, group_row, execute_hash, execute_sort}
use risinglight.Executor.Group.Sort.{Run, row_of, run_rows, pair_of, rows-execute_sort, RunsFinish}
use risinglight.Executor.Group.Hash.{
  AreRuns, expand, group_of, Absent, add_groups-expand, group_loop_lem, rows-batches, AllFinish,
}
use risinglight.Executor.Group.States.{Finishes}

module _ {E T : Type 0} (s : Scalar T) (p : PartialEq (DataValue T)) (q : PartialEq (Row T))
    (self : AggExecutor E T) where
  -- The keys of the next run differ from this one's.
  abbrev Changes : Row T → List (Run s p q self) → Type 0
  Changes key runs = All (λ (r : Row T × List (Row T)). q.eq r.0 key ≡ false) runs

  continue-run :
      (key : Row T) (seen args : List (Row T)) (rest : List (Row T × Row T))
      → run_rows s p q self (some (key, seen)) (map (λ a. (key, a)) args ++ rest)
        ≡ run_rows s p q self (some (key, seen ++ args)) rest
  continue-run key seen [] rest = rw (append-nil seen)
  continue-run key seen (a ∷ args) rest =
      rw (eq_refl q key, ← append_assoc seen (a ∷ []) args)
        (continue-run key (seen ++ a ∷ []) args rest)

  run_rows-open :
      (key : Row T) (seen : List (Row T)) (runs : List (Run s p q self))
      → Changes key runs
      → AreRuns s p q self runs
      → run_rows s p q self (some (key, seen)) (expand s p q self runs)
        ≡ row_of s p q self (key, seen) ∷ map (row_of s p q self) runs
  run_rows-open key seen [] c h = refl
  run_rows-open key seen ((k, []) ∷ runs) c h = absurd (h.0 refl)
  run_rows-open key seen ((k, a ∷ args) ∷ runs) c h = rw (
    c.0,
    continue-run k (a ∷ []) args (expand s p q self runs),
    run_rows-open k (a ∷ args) runs h.1 h.2,
  )

  pub run_rows-expand :
      (runs : List (Run s p q self))
      → AreRuns s p q self runs
      → run_rows s p q self none (expand s p q self runs) ≡ map (row_of s p q self) runs
  run_rows-expand [] h = refl
  run_rows-expand ((k, []) ∷ runs) h = absurd (h.0 refl)
  run_rows-expand ((k, a ∷ args) ∷ runs) h =
      continue-run k (a ∷ []) args (expand s p q self runs)
      ∙ run_rows-open k (a ∷ args) runs h.1 h.2

  continue-RunsFinish :
      (key : Row T) (seen args : List (Row T)) (rest : List (Row T × Row T))
      → RunsFinish s p q self (some (key, seen ++ args)) rest
      → RunsFinish s p q self (some (key, seen)) (map (λ a. (key, a)) args ++ rest)
  continue-RunsFinish key seen [] rest f = rw (append-nil seen) at f
  continue-RunsFinish key seen (a ∷ args) rest f =
      let f' : RunsFinish s p q self (some (key, (seen ++ a ∷ []) ++ args)) rest =
        rw (append_assoc seen (a ∷ []) args) f in
      rw (eq_refl q key) (continue-RunsFinish key (seen ++ a ∷ []) args rest f')

  RunsFinish-expand_open :
      (key : Row T) (seen : List (Row T)) (runs : List (Run s p q self))
      → Changes key runs
      → AreRuns s p q self runs
      → Finishes s p self.aggs seen
      → AllFinish s p q self runs
      → RunsFinish s p q self (some (key, seen)) (expand s p q self runs)
  RunsFinish-expand_open key seen [] c h g f = g
  RunsFinish-expand_open key seen ((k, []) ∷ runs) c h g f = absurd (h.0 refl)
  RunsFinish-expand_open key seen ((k, a ∷ args) ∷ runs) c h g f = rw c.0 (
    g,
    continue-RunsFinish k (a ∷ []) args (expand s p q self runs)
        (RunsFinish-expand_open k (a ∷ args) runs h.1 h.2 f.0 f.1),
  )

  RunsFinish-expand :
      (runs : List (Run s p q self))
      → AreRuns s p q self runs
      → AllFinish s p q self runs
      → RunsFinish s p q self none (expand s p q self runs)
  RunsFinish-expand [] h f = tt
  RunsFinish-expand ((k, []) ∷ runs) h f = absurd (h.0 refl)
  RunsFinish-expand ((k, a ∷ args) ∷ runs) h f =
      continue-RunsFinish k (a ∷ []) args (expand s p q self runs)
        (RunsFinish-expand_open k (a ∷ args) runs h.1 h.2 f.0 f.1)

  map-group_of :
      (runs : List (Run s p q self))
      → map (group_row s p q self) (map (group_of s p q self) runs) ≡ map (row_of s p q self) runs
  map-group_of [] = refl
  map-group_of (r ∷ runs) =
      ap (◌∷◌ (group_row s p q self (group_of s p q self r))) (map-group_of runs)

  all-Absent :
      (runs : List (Run s p q self))
      → All (λ (r : Row T × List (Row T)). Absent {V = List (AggState T)} q r.0 []) runs
  all-Absent [] = tt
  all-Absent (r ∷ runs) = (tt, all-Absent runs)

  -- On rows that stand in runs with distinct keys, a hash aggregation gives a permutation of what a sort
  -- aggregation gives: the keys of each run, with the results of the aggregations over its rows, if
  -- the aggregations over each run do not panic.
  pub aggregations_agree :
      (order : List (Row T × List (AggState T)) → List (Row T × List (AggState T)))
      (key arg : Row T → Row T) (child : Stream E (List (Row T))) (runs : List (Run s p q self))
      → ((m : List (Row T × List (AggState T))) → Perm (order m) m)
      → IsRowWise self.keys key
      → IsRowWise self.args arg
      → ending child ≡ ok tt
      → AreRuns s p q self runs
      → AllFinish s p q self runs
      → map (pair_of key arg) (rows child) ≡ expand s p q self runs
      → Perm (rows (execute_hash s p q self order child)) (rows (execute_sort s p q self child))
        × (rows (execute_sort s p q self child) ≡ map (row_of s p q self) runs)
  unfolding execute_hash
  aggregations_agree order key arg child runs permutes key_wise arg_wise e h f split =
      let groups = map (group_of s p q self) runs in
      let looped = group_loop_lem s p q self key arg key_wise arg_wise child [] e in
      let grouped = add_groups-expand s p q self runs [] h (all-Absent runs) f in
      let sorted : rows (execute_sort s p q self child) ≡ map (row_of s p q self) runs =
        rows-execute_sort s p q self key arg key_wise arg_wise child e
          (rw split (RunsFinish-expand runs h f))
        ∙ rw split (run_rows-expand runs h) in
      let size : length (order groups) ≤ length groups =
        omega (arith, Perm-length (permutes groups)) in
      (
        rw
            (
              looped,
              split,
              grouped,
              sorted,
              rows-batches s p q self (length groups) (order groups) size,
              ← map-group_of runs,
            )
            (Perm.map (group_row s p q self) (permutes groups)),
        sorted,
      )
