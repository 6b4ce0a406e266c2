-- ===== src/Executor/Group/Hash.antt =====
-- The groups of a hash aggregation over runs of rows with distinct keys.
use risinglight.Prelude.{
  ℕ, zero, suc, ◌≤◌, ◌≡◌, ◌≢◌, refl, sym, ap, ◌∙◌, false, none, some, List, [], ◌∷◌, ◌++◌, map,
  map-append, flat_map, length, length-drop, take, drop, take-append-drop, ok, ◌>>=◌, PartialEq,
  append_assoc, append-nil, inl, inr, arith, err≢ok, panic≢ok, All, All-append, Result-cases,
  unwrap_or,
}
use risinglight.Prelude.KeyMap.{lookup, upsert, eq_refl}
use risinglight.Executor.Stream.{Stream, rows, ending}
use risinglight.Executor.Evaluate.{IsRowWise}
use risinglight.Executor.Builder.{DataChunkBuilder, new, processing_window_size}
use risinglight.Executor.Builder.Laws.{rows-push_rows, rows-emit-take, new-IsValid}
use risinglight.Executor.Aggregate.{Scalar, DataValue, AggState}
use risinglight.Executor.Group.{
  Row, AggExecutor, init_agg_states, agg_list_append, group_row, add_groups, group_loop, batches,
}
use risinglight.Executor.Group.States.{
  final, agg_list_append-final, final-nil, Finishes, Finishes-prefix, Finishes-assoc,
}
use risinglight.Executor.Group.Sort.{pair_of, keyed_lem, Run}

module _ {K V : Type 0} (q : PartialEq K) where
  -- No entry has the key.
  abbrev pub Absent : K → List (K × V) → Type 0
  Absent key m = All (λ (e : K × V). q.eq key e.0 ≡ false) m

  lookup-Absent : (key : K) (m : List (K × V)) → Absent key m → lookup q key m ≡ none
  lookup-Absent key [] h = refl
  lookup-Absent key (e ∷ m) h = rw h.0 (lookup-Absent key m h.1)

  upsert-Absent :
      (key : K) (v : V) (f : V → V) (m : List (K × V))
      → Absent key m
      → upsert q key v f m ≡ m ++ (key, f v) ∷ []
  upsert-Absent key v f [] h = refl
  upsert-Absent key v f (e ∷ m) h = rw h.0 (ap (◌∷◌ e) (upsert-Absent key v f m h.1))

  lookup_last :
      (key : K) (w : V) (m : List (K × V))
      → Absent key m
      → lookup q key (m ++ (key, w) ∷ []) ≡ some w
  lookup_last key w [] h = rw (eq_refl q key)
  lookup_last key w (e ∷ m) h = rw h.0 (lookup_last key w m h.1)

  upsert_last :
      (key : K) (w v : V) (f : V → V) (m : List (K × V))
      → Absent key m
      → upsert q key v f (m ++ (key, w) ∷ []) ≡ m ++ (key, f w) ∷ []
  upsert_last key w v f [] h = rw (eq_refl q key)
  upsert_last key w v f (e ∷ m) h = rw h.0 (ap (◌∷◌ e) (upsert_last key w v f m h.1))

module _ {E T : Type 0} (s : Scalar T) (p : PartialEq (DataValue T)) (q : PartialEq (Row T))
    (self : AggExecutor E T) where
  abbrev Runs : Type 0
  Runs = List (Run s p q self)

  -- The rows of some runs, one run after the other.
  abbrev pub expand : List (Run s p q self) → List (Row T × Row T)
  expand runs = flat_map (λ (r : Row T × List (Row T)). map (λ args. (r.0, args)) r.1) runs

  -- Each run has a row, and a key of its own.
  abbrev pub AreRuns : List (Run s p q self) → Type 0
  AreRuns [] = Unit {0}
  AreRuns (r ∷ runs) =
      (r.1 ≢ []) × All (λ (r' : Row T × List (Row T)). q.eq r'.0 r.0 ≡ false) runs × AreRuns runs

  abbrev pub group_of : Run s p q self → Row T × List (AggState T)
  group_of (keys, args) = (keys, final s p self.aggs args)

  add-run :
      (key : Row T) (seen args : List (Row T)) (rest : List (Row T × Row T))
      (groups : List (Row T × List (AggState T)))
      → Absent q key groups
      → Finishes s p self.aggs (seen ++ args)
      → add_groups s p q self
          (map (λ a. (key, a)) args ++ rest)
          (groups ++ group_of (key, seen) ∷ [])
        ≡ add_groups s p q self rest (groups ++ group_of (key, seen ++ args) ∷ [])
  unfolding add_groups
  add-run key seen [] rest groups h f = rw (append-nil seen)
  add-run key seen (a ∷ args) rest groups h f =
      let f' = Finishes-assoc s p self.aggs seen a args f in
      rw
        (
          lookup_last q key (final s p self.aggs seen) groups h,
          agg_list_append-final s p self.aggs seen a
              (Finishes-prefix s p self.aggs (seen ++ a ∷ []) args f'),
          upsert_last q key (final s p self.aggs seen) (final s p self.aggs (seen ++ a ∷ []))
              (λ _. final s p self.aggs (seen ++ a ∷ [])) groups h,
          ← append_assoc seen (a ∷ []) args,
        )
        (add-run key (seen ++ a ∷ []) args rest groups h f')

  start-run :
      (key a : Row T) (args : List (Row T)) (rest : List (Row T × Row T))
      (groups : List (Row T × List (AggState T)))
      → Absent q key groups
      → Finishes s p self.aggs (a ∷ args)
      → add_groups s p q self (map (λ x. (key, x)) (a ∷ args) ++ rest) groups
        ≡ add_groups s p q self rest (groups ++ group_of (key, a ∷ args) ∷ [])
  unfolding add_groups
  start-run key a args rest groups h f =
      rw
        (
          lookup-Absent q key groups h,
          ← final-nil s p self.aggs,
          agg_list_append-final s p self.aggs [] a (Finishes-prefix s p self.aggs (a ∷ []) args f),
          upsert-Absent q key (final s p self.aggs (a ∷ [])) (λ _. final s p self.aggs (a ∷ []))
              groups h,
        )
        (add-run key (a ∷ []) args rest groups h f)

  still-Absent :
      (key : Row T) (states : List (AggState T)) (groups : List (Row T × List (AggState T)))
      (runs : List (Run s p q self))
      → All (λ (r : Row T × List (Row T)). q.eq r.0 key ≡ false) runs
      → All (λ (r : Row T × List (Row T)). Absent q r.0 groups) runs
      → All (λ (r : Row T × List (Row T)). Absent q r.0 (groups ++ (key, states) ∷ [])) runs
  still-Absent key states groups [] h k = tt
  still-Absent key states groups (r ∷ runs) h k =
      (All-append _ groups _ k.0 (h.0, tt), still-Absent key states groups runs h.1 k.1)

  -- The aggregations over the rows of each run do not panic.
  abbrev pub AllFinish : List (Run s p q self) → Type 0
  AllFinish runs = All (λ (r : Row T × List (Row T)). Finishes s p self.aggs r.1) runs

  pub add_groups-expand :
      (runs : List (Run s p q self)) (groups : List (Row T × List (AggState T)))
      → AreRuns runs
      → All (λ (r : Row T × List (Row T)). Absent q r.0 groups) runs
      → AllFinish runs
      → add_groups s p q self (expand runs) groups ≡ ok (groups ++ map group_of runs)
  unfolding add_groups
  add_groups-expand [] groups h absent f = rw (append-nil groups)
  add_groups-expand ((key, []) ∷ runs) groups h absent f = absurd (h.0 refl)
  add_groups-expand ((key, a ∷ args) ∷ runs) groups h absent f =
      start-run key a args (expand runs) groups absent.0 f.0
      ∙ add_groups-expand runs (groups ++ group_of (key, a ∷ args) ∷ []) h.2
          (still-Absent key (final s p self.aggs (a ∷ args)) groups runs h.1 absent.1) f.1
      ∙ ap ok (append_assoc groups (group_of (key, a ∷ args) ∷ []) (map group_of runs))

  add_groups-append :
      (xs ys : List (Row T × Row T)) (groups : List (Row T × List (AggState T)))
      → add_groups s p q self (xs ++ ys) groups
        ≡ (add_groups s p q self xs groups >>= λ next. add_groups s p q self ys next)
  unfolding add_groups
  add_groups-append [] ys groups = refl
  add_groups-append ((keys, args) ∷ xs) ys groups =
      let before = unwrap_or (init_agg_states s p self.aggs) (lookup q keys groups) in
      elim (Result-cases (agg_list_append s p self.aggs before args)) [
        | inl (after, e) ↦ rw e (add_groups-append xs ys (upsert q keys after (λ _. after) groups))
        | inr (inl (x, e)) ↦ rw e
        | inr (inr e) ↦ rw e
      ]

  pub group_loop_lem :
      (key arg : Row T → Row T)
      → IsRowWise self.keys key
      → IsRowWise self.args arg
      → (child : Stream E (List (Row T))) (groups : List (Row T × List (AggState T)))
      → ending child ≡ ok tt
      → group_loop s p q self child groups
        ≡ add_groups s p q self (map (pair_of key arg) (rows child)) groups
  unfolding group_loop
  group_loop_lem key arg key_wise arg_wise Stream.done groups e = unfold add_groups in refl
  group_loop_lem key arg key_wise arg_wise (Stream.failed x) groups e = absurd (err≢ok e)
  group_loop_lem key arg key_wise arg_wise Stream.panicked groups e = absurd (panic≢ok e)
  group_loop_lem key arg key_wise arg_wise (Stream.yielded chunk child) groups e =
      let pairs = map (pair_of key arg) chunk in
      rw
        (
          keyed_lem s p self key arg key_wise arg_wise chunk,
          map-append (pair_of key arg) chunk (rows child),
          add_groups-append pairs (map (pair_of key arg) (rows child)) groups,
        )
        (elim (Result-cases (add_groups s p q self pairs groups)) [
          | inl (next, e') ↦ rw e' (group_loop_lem key arg key_wise arg_wise child next e)
          | inr (inl (x, e')) ↦ rw e'
          | inr (inr e') ↦ rw e'
        ])

  -- The batches give the rows of all groups, in their order.
  pub rows-batches :
      (fuel : ℕ) (groups : List (Row T × List (AggState T)))
      → length groups ≤ fuel
      → rows (batches s p q self fuel groups) ≡ map (group_row s p q self) groups
  unfolding batches
  rows-batches zero [] h = refl
  rows-batches zero (g ∷ groups) h = absurd (omega arith)
  rows-batches (suc fuel) groups h =
      let now = take processing_window_size groups in
      let later = drop processing_window_size groups in
      let split : map (group_row s p q self) now ++ map (group_row s p q self) later
          ≡ map (group_row s p q self) groups =
        sym (map-append (group_row s p q self) now later)
        ∙ ap (map (group_row s p q self)) (take-append-drop processing_window_size groups) in
      let start : DataChunkBuilder (Row T) = new processing_window_size in
      rows-push_rows (map (group_row s p q self) now) start _ (map (group_row s p q self) later)
        (new-IsValid processing_window_size (omega arith))
        (λ b v.
          rows-emit-take b (batches s p q self fuel later) v
          ∙ ap (λ (l : List (Row T)). b.buffer ++ l)
              (rows-batches fuel later (omega (arith, length-drop processing_window_size groups))))
      ∙ unfold new in split
