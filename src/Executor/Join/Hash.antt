-- ===== src/Executor/Join/Hash.antt =====
-- executor/hash_join.rs: `HashJoinExecutor`. The order in which the hash map is gone through at the end
-- is the parameter `order`.
pub mod Probe
pub mod Rows
pub mod Outer
pub mod Marks
pub mod Laws
pub mod Ending
use risinglight.Prelude.{
  Bool, true, false, not, Option, none, some, List, [], ◌∷◌, ◌++◌, map, flat_map, Result, ok, err,
  panic, ◌>>=◌, if◌then◌else◌, PartialEq,
}
use risinglight.Prelude.KeyMap.{lookup, upsert, alter}
use risinglight.Executor.Stream.{Stream, run}
use risinglight.Executor.Evaluate.{zip}
use risinglight.Executor.Builder.{DataChunkBuilder, processing_window_size, push_rows, flush, new}
use risinglight.Executor.Join.{JoinType, keeps_left, keeps_right, pad}

pub record LeftKeyInfo (V : Type 0) : Type 0 where
  pub rows : List (List V)
  pub matched : Bool

-- `LeftKeyInfo::default()`
abbrev pub no_rows : {V : Type 0} → LeftKeyInfo V
no_rows = record { rows = []; matched = false }

-- `left_rows.matched = true`
abbrev pub set_matched : {V : Type 0} → LeftKeyInfo V → LeftKeyInfo V
set_matched info = record info { matched = true }

-- The expressions are what evaluating them on a chunk gives.
pub record HashJoinExecutor (E D V : Type 0) : Type 0 where
  pub left_keys : List (List V) → Result E (List (List V))
  pub right_keys : List (List V) → Result E (List (List V))
  pub left_types : List D
  pub right_types : List D

abbrev pub HashMap : Type 0 → Type 0
HashMap V = List (List V × LeftKeyInfo V)

module _ {V : Type 0} (p : PartialEq (List V)) where
  -- The rows of one chunk with their keys.
  pub add_rows : List (List V × List V) → HashMap V → HashMap V
  add_rows [] hash_map = hash_map
  add_rows ((row, keys) ∷ rest) hash_map =
      add_rows rest
        (upsert p keys no_rows (λ info. record info { rows = info.rows ++ row ∷ [] }) hash_map)

module _ {E D V : Type 0} (null : V) (p : PartialEq (List V)) where
  -- The rows that one row of the right side gives, and what becomes of the map.
  pub probe_row :
      JoinType → HashJoinExecutor E D V → List V → List V → HashMap V → List (List V) × HashMap V
  probe_row t self right_row keys hash_map = elim (lookup p keys hash_map) [
    | some left_rows ↦
        (map (λ left_row. left_row ++ right_row) left_rows.rows, alter p keys set_matched hash_map)
    | none ↦ (if keeps_right t then (pad null self.left_types ++ right_row) ∷ [] else [], hash_map)
  ]

  module _ (t : JoinType) (self : HashJoinExecutor E D V) where
    -- The rows of one chunk of the right side, before the code `k`.
    pub probe_rows :
        List (List V × List V)
        → HashMap V
        → DataChunkBuilder (List V)
        → (HashMap V → DataChunkBuilder (List V) → Stream E (List (List V)))
        → Stream E (List (List V))
    probe_rows [] hash_map builder k = k hash_map builder
    probe_rows ((right_row, keys) ∷ rest) hash_map builder k =
        let (out, hash_map') = probe_row t self right_row keys hash_map in
        push_rows out builder (λ builder'. probe_rows rest hash_map' builder' k)

  module _ (t : JoinType) (order : HashMap V → HashMap V) (self : HashJoinExecutor E D V) where
    -- The rows of the left side that met no key.
    pub unmatched_rows : HashMap V → List (List V)
    unmatched_rows hash_map =
        flat_map
          (λ (e : List V × LeftKeyInfo V).
            if e.1.matched then [] else map (λ row. row ++ pad null self.right_types) e.1.rows)
          (order hash_map)

    -- the end of the executor, after the probes
    pub finish : HashMap V → DataChunkBuilder (List V) → Stream E (List (List V))
    finish hash_map builder =
        push_rows (if keeps_left t then unmatched_rows hash_map else []) builder flush

    pub probe :
        Stream E (List (List V)) → HashMap V → DataChunkBuilder (List V) → Stream E (List (List V))
    probe Stream.done hash_map builder = finish hash_map builder
    probe (Stream.failed e) hash_map builder = Stream.failed e
    probe Stream.panicked hash_map builder = Stream.panicked
    probe (Stream.yielded chunk right) hash_map builder =
        run (self.right_keys chunk)
          (λ keys_chunk. probe_rows t self (zip chunk keys_chunk) hash_map builder (probe right))

  pub build : HashJoinExecutor E D V → Stream E (List (List V)) → HashMap V → Result E (HashMap V)
  build self Stream.done hash_map = ok hash_map
  build self (Stream.failed e) hash_map = err e
  build self Stream.panicked hash_map = panic
  build self (Stream.yielded chunk left) hash_map = do
    keys_chunk ← self.left_keys chunk
    build self left (add_rows p (zip chunk keys_chunk) hash_map)

  unfoldable pub execute :
      JoinType
      → (HashMap V → HashMap V)
      → HashJoinExecutor E D V
      → Stream E (List (List V))
      → Stream E (List (List V))
      → Stream E (List (List V))
  unfolding build probe probe_rows probe_row add_rows unmatched_rows finish push_rows flush new
  execute t order self left right =
      run (build self left [])
        (λ hash_map. probe t order self right hash_map (new processing_window_size))
