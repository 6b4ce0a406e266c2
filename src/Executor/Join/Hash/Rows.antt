-- ===== src/Executor/Join/Hash/Rows.antt =====
-- The rows of a hash join, by the rows of its two sides.
use risinglight.Prelude.{
  ◌≡◌, List, [], ◌∷◌, ◌++◌, map, ok, if◌then◌else◌, PartialEq, append_assoc, flat_map,
  flat_map-append, map-append, err≢ok, panic≢ok,
}
use risinglight.Prelude.KeyMap.{alter}
use risinglight.Executor.Stream.{Stream, rows, ending}
use risinglight.Executor.Evaluate.{zip, IsRowWise}
use risinglight.Executor.Builder.{DataChunkBuilder, flush}
use risinglight.Executor.Builder.Laws.{IsValid, rows-push_rows, rows-flush}
use risinglight.Executor.Join.{JoinType, keeps_left}
use risinglight.Executor.Join.Hash.{
  set_matched, HashJoinExecutor, HashMap, probe_rows, probe, unmatched_rows, finish,
}
use risinglight.Executor.Join.Hash.Probe.{
  Holds, joined, marked, marked-append, marked-Holds, alter-Holds, probe_row_lem,
}

module _ {E D V : Type 0} (null : V) (p : PartialEq (List V)) (t : JoinType)
    (self : HashJoinExecutor E D V) (left_key right_key : List V → List V) where
  abbrev joins : List (List V) → List V → List (List V)
  joins left = joined null p t self left_key right_key left

  -- The rows of one chunk come out as the probes give them, before what comes next.
  rows-probe_rows :
      (chunk left ys : List (List V)) (hash_map : HashMap V) (b : DataChunkBuilder (List V))
      (k : HashMap V → DataChunkBuilder (List V) → Stream E (List (List V)))
      → Holds p left_key hash_map left
      → IsValid b
      → ((b' : DataChunkBuilder (List V))
          → IsValid b'
          → rows (k (marked p (map right_key chunk) hash_map) b') ≡ b'.buffer ++ ys)
      → rows (probe_rows null p t self (zip chunk (map right_key chunk)) hash_map b k)
        ≡ b.buffer ++ (flat_map (joins left) chunk ++ ys)
  unfolding probe_rows
  rows-probe_rows [] left ys hash_map b k h v rest = rest b v
  rows-probe_rows (row ∷ chunk) left ys hash_map b k h v rest =
      rw
        (
          probe_row_lem null p t self left_key right_key left row hash_map h,
          append_assoc (joins left row) (flat_map (joins left) chunk) ys,
        )
        (rows-push_rows (joins left row) b _ (flat_map (joins left) chunk ++ ys) v (λ b' v'.
          rows-probe_rows chunk left ys (alter p (right_key row) set_matched hash_map) b' k
            (alter-Holds p left_key (right_key row) hash_map left h) v' rest))

  module _ (order : HashMap V → HashMap V)
      (right_row_wise : IsRowWise self.right_keys right_key) where
    -- What comes at the end: the rows of the left side that met no key, if the join keeps them.
    abbrev pub rest_of : HashMap V → List (List V)
    rest_of hash_map =
        if keeps_left t then unmatched_rows {E = E} null p t order self hash_map else []

    rows-finish :
        (hash_map : HashMap V) (b : DataChunkBuilder (List V))
        → IsValid b
        → rows (finish {E = E} null p t order self hash_map b)
          ≡ b.buffer ++ (rest_of hash_map ++ [])
    unfolding finish
    rows-finish hash_map b v = rows-push_rows (rest_of hash_map) b flush [] v (rows-flush E)

    pub rows-probe :
        (right : Stream E (List (List V))) (left : List (List V)) (hash_map : HashMap V)
        (b : DataChunkBuilder (List V))
        → Holds p left_key hash_map left
        → IsValid b
        → ending right ≡ ok tt
        → rows (probe null p t order self right hash_map b)
          ≡ b.buffer
            ++ (flat_map (joins left) (rows right)
                ++ (rest_of (marked p (map right_key (rows right)) hash_map) ++ []))
    unfolding probe
    rows-probe Stream.done left hash_map b h v e = rows-finish hash_map b v
    rows-probe (Stream.failed x) left hash_map b h v e = absurd (err≢ok e)
    rows-probe Stream.panicked left hash_map b h v e = absurd (panic≢ok e)
    rows-probe (Stream.yielded chunk right) left hash_map b h v e =
        rw
          (
            right_row_wise chunk,
            flat_map-append (joins left) chunk (rows right),
            map-append right_key chunk (rows right),
            marked-append p (map right_key chunk) (map right_key (rows right)) hash_map,
            append_assoc (flat_map (joins left) chunk) (flat_map (joins left) (rows right)),
          )
          (rows-probe_rows chunk left _ hash_map b (probe null p t order self right) h v (λ b' v'.
            rows-probe right left (marked p (map right_key chunk) hash_map) b'
              (marked-Holds p left_key (map right_key chunk) hash_map left h) v' e))
