-- ===== src/Executor/Group.antt =====
-- executor/simple_agg.rs, hash_agg.rs, sort_agg.rs and window.rs, with the lists of aggregations of
-- executor/evaluator.rs. The order in which the hash map is gone through is the parameter `order`.
pub mod States
pub mod Sort
pub mod Hash
pub mod Agree
pub mod Window
mod Tests
use risinglight.Prelude.{
  ℕ, zero, suc, ◌+◌, Bool, true, false, Option, none, some, List, [], ◌∷◌, ◌++◌, map, length, take,
  drop, Result, ok, err, panic, ◌>>=◌, if◌then◌else◌, PartialEq, unwrap_or, unwrap,
}
use risinglight.Prelude.KeyMap.{lookup, upsert}
use risinglight.Executor.Stream.{Stream, run}
use risinglight.Executor.Evaluate.{zip}
use risinglight.Executor.Builder
use risinglight.Executor.Builder.{
  DataChunkBuilder, new, push_row, push_rows, emit, flush, processing_window_size,
}
use risinglight.Executor.Aggregate.{
  Scalar, DataValue, Agg, AggState, init_agg_state, agg_append, eval_agg, result,
}

abbrev pub Row : Type 0 → Type 0
Row T = List (DataValue T)

module _ {E T : Type 0} (s : Scalar T) (p : PartialEq (DataValue T)) where
  pub init_agg_states : List (Agg E (Row T) T) → List (AggState T)
  init_agg_states aggs = map (init_agg_state s p) aggs

  pub eval_agg_list :
      List (Agg E (Row T) T) → List (AggState T) → List (Row T) → Result E (List (AggState T))
  eval_agg_list (agg ∷ aggs) (state ∷ states) chunk = do
    next ← eval_agg s p agg state chunk
    rest ← eval_agg_list aggs states chunk
    ok (next ∷ rest)
  eval_agg_list aggs states chunk = ok states

  pub agg_list_append :
      List (Agg E (Row T) T) → List (AggState T) → Row T → Result E (List (AggState T))
  agg_list_append (agg ∷ aggs) (state ∷ states) (v ∷ values) = do
    next ← agg_append s p agg state v
    rest ← agg_list_append aggs states values
    ok (next ∷ rest)
  agg_list_append aggs states values = ok states

-- `agg_list_take_result` and `agg_list_get_result`
abbrev pub agg_list_result : {T : Type 0} → Scalar T → List (AggState T) → Row T
agg_list_result s states = map (result s) states

-- `chunk.row_concat(other)`, which asserts that the two have as many rows
abbrev pub row_concat : {E V : Type 0} → List (List V) → List (List V) → Result E (List (List V))
row_concat [] [] = ok []
row_concat (row ∷ chunk) (row' ∷ other) = do
  rest ← row_concat chunk other
  ok ((row ++ row') ∷ rest)
row_concat chunk other = panic

-- The expressions are what evaluating them on a chunk gives: `keys`, and the arguments of `aggs`.
pub record AggExecutor (E T : Type 0) : Type 0 where
  pub keys : List (Row T) → Result E (List (Row T))
  pub args : List (Row T) → Result E (List (Row T))
  pub aggs : List (Agg E (Row T) T)

module _ {E T : Type 0} (s : Scalar T) (p : PartialEq (DataValue T)) (self : AggExecutor E T) where
  -- `SimpleAggExecutor`
  pub simple_loop : List (AggState T) → Stream E (List (Row T)) → Stream E (List (Row T))
  simple_loop states Stream.done =
      run (unwrap (push_row (agg_list_result s states) (new 1)).0)
        (λ chunk. Stream.yielded chunk Stream.done)
  simple_loop states (Stream.failed e) = Stream.failed e
  simple_loop states Stream.panicked = Stream.panicked
  simple_loop states (Stream.yielded chunk child) =
      run (eval_agg_list s p self.aggs states chunk) (λ next. simple_loop next child)

  unfoldable pub execute_simple : Stream E (List (Row T)) → Stream E (List (Row T))
  unfolding simple_loop init_agg_states eval_agg_list push_row Builder.take new
  execute_simple child = simple_loop (init_agg_states s p self.aggs) child

  -- `WindowExecutor`: the states go on from chunk to chunk, and the results after each row go to the
  -- builder. The arguments are the values of the row itself.
  pub window_rows :
      List (AggState T)
      → List (Row T)
      → DataChunkBuilder (Row T)
      → Result E (List (AggState T) × DataChunkBuilder (Row T))
  window_rows states [] builder = ok (states, builder)
  window_rows states (row ∷ chunk) builder = do
    next ← agg_list_append s p self.aggs states row
    window_rows next chunk (push_row (agg_list_result s next) builder).1

  pub window_loop : List (AggState T) → Stream E (List (Row T)) → Stream E (List (Row T))
  window_loop states Stream.done = Stream.done
  window_loop states (Stream.failed e) = Stream.failed e
  window_loop states Stream.panicked = Stream.panicked
  window_loop states (Stream.yielded chunk child) =
      run (window_rows states chunk (new (length chunk + 1))) (λ after.
        run (unwrap (Builder.take after.1).0) (λ window_chunk.
          run (row_concat chunk window_chunk)
            (λ out. Stream.yielded out (window_loop after.0 child))))

  unfoldable pub execute_window : Stream E (List (Row T)) → Stream E (List (Row T))
  unfolding window_loop window_rows init_agg_states agg_list_append push_row Builder.take new
  execute_window child = window_loop (init_agg_states s p self.aggs) child

  -- The keys and arguments of the rows of a chunk.
  pub keyed : List (Row T) → Result E (List (Row T × Row T))
  keyed chunk = do
    keys_chunk ← self.keys chunk
    args_chunk ← self.args chunk
    ok (zip keys_chunk args_chunk)

module _ {E T : Type 0} (s : Scalar T) (p : PartialEq (DataValue T)) (q : PartialEq (Row T))
    (self : AggExecutor E T) where
  -- `HashAggExecutor`
  pub add_groups :
      List (Row T × Row T)
      → List (Row T × List (AggState T))
      → Result E (List (Row T × List (AggState T)))
  add_groups [] states = ok states
  add_groups ((keys, args) ∷ rest) states = do
    let before = unwrap_or (init_agg_states s p self.aggs) (lookup q keys states)
    after ← agg_list_append s p self.aggs before args
    add_groups rest (upsert q keys after (λ _. after) states)

  pub group_loop :
      Stream E (List (Row T))
      → List (Row T × List (AggState T))
      → Result E (List (Row T × List (AggState T)))
  group_loop Stream.done states = ok states
  group_loop (Stream.failed e) states = err e
  group_loop Stream.panicked states = panic
  group_loop (Stream.yielded chunk child) states = do
    pairs ← keyed s p self chunk
    next ← add_groups pairs states
    group_loop child next

  abbrev pub group_row : Row T × List (AggState T) → Row T
  group_row (keys, states) = keys ++ agg_list_result s states

  -- A builder for each batch of `PROCESSING_WINDOW_SIZE` groups. The number of groups is fuel enough.
  pub batches : ℕ → List (Row T × List (AggState T)) → Stream E (List (Row T))
  batches zero groups = Stream.done
  batches (suc fuel) groups =
      push_rows (map group_row (take processing_window_size groups)) (new processing_window_size)
        (λ builder.
          emit (Builder.take builder).0 (batches fuel (drop processing_window_size groups)))

  unfoldable pub execute_hash :
      (List (Row T × List (AggState T)) → List (Row T × List (AggState T)))
      → Stream E (List (Row T))
      → Stream E (List (Row T))
  unfolding group_loop add_groups batches keyed agg_list_append init_agg_states push_rows
      Builder.take new
  execute_hash order child =
      run (group_loop child []) (λ states. batches (length states) (order states))

  -- `SortAggExecutor`: the rows of one chunk, before the code `k`.
  pub sort_rows :
      List (Row T × Row T)
      → Option (Row T)
      → List (AggState T)
      → DataChunkBuilder (Row T)
      → (Option (Row T) → List (AggState T) → DataChunkBuilder (Row T) → Stream E (List (Row T)))
      → Stream E (List (Row T))
  sort_rows [] last_keys states builder k = k last_keys states builder
  sort_rows ((keys, args) ∷ rest) last_keys states builder k =
      let start : List (AggState T)
          → Option (Row T)
          → DataChunkBuilder (Row T)
          → Stream E (List (Row T)) =
        λ before last b.
          run (agg_list_append s p self.aggs before args)
            (λ after. sort_rows rest last after b k) in
      elim last_keys [
        | none ↦ start (init_agg_states s p self.aggs) (some keys) builder
        | some last ↦
            if q.eq keys last
            then start states (some last) builder
            else push_rows (group_row (last, states) ∷ []) builder
                (λ b. start (init_agg_states s p self.aggs) (some keys) b)
      ]

  pub sort_finish :
      Option (Row T) → List (AggState T) → DataChunkBuilder (Row T) → Stream E (List (Row T))
  sort_finish none states builder = Stream.done
  sort_finish (some keys) states builder =
      let (full, builder') = push_row (group_row (keys, states)) builder in
      elim full [ some chunk ↦ Stream.yielded chunk Stream.done | none ↦ flush builder' ]

  pub sort_loop :
      Stream E (List (Row T))
      → Option (Row T)
      → List (AggState T)
      → DataChunkBuilder (Row T)
      → Stream E (List (Row T))
  sort_loop Stream.done last_keys states builder = sort_finish last_keys states builder
  sort_loop (Stream.failed e) last_keys states builder = Stream.failed e
  sort_loop Stream.panicked last_keys states builder = Stream.panicked
  sort_loop (Stream.yielded chunk child) last_keys states builder =
      run (keyed s p self chunk)
        (λ pairs. sort_rows pairs last_keys states builder (sort_loop child))

  unfoldable pub execute_sort : Stream E (List (Row T)) → Stream E (List (Row T))
  unfolding sort_loop sort_rows sort_finish keyed agg_list_append init_agg_states push_rows push_row
      Builder.take flush new
  execute_sort child =
      sort_loop child none (init_agg_states s p self.aggs) (new processing_window_size)
