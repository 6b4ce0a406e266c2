-- ===== src/Executor/Join/Hash/Ending.antt =====
-- How a hash join ends, and the sizes of its chunks.
use risinglight.Prelude.{
  ◌≡◌, refl, ap, ◌∙◌, List, [], ◌∷◌, Result, ok, err, panic, PartialEq, arith, ◌>>=◌, ◌>>◌,
  Result-cases, inl, inr,
}
use risinglight.Executor.Stream.{Stream, ending, ending-run}
use risinglight.Executor.Evaluate.{zip}
use risinglight.Executor.Builder.{DataChunkBuilder, new, processing_window_size, flush}
use risinglight.Executor.Builder.Laws.{
  IsValid, Sized, new-IsValid, new-capacity, ending-push_rows, ending-flush, Sized-push_rows,
  Sized-flush,
}
use risinglight.Executor.Join.{JoinType}
use risinglight.Executor.Join.Hash.{
  HashJoinExecutor, HashMap, build, add_rows, probe_row, probe_rows, probe, finish, execute,
}

-- How a side ends whose keys are evaluated chunk by chunk.
abbrev pub keys_ending :
    {E A K : Type 0} → (List A → Result E K) → Stream E (List A) → Result E (Unit {0})
keys_ending keys Stream.done = ok tt
keys_ending keys (Stream.failed e) = err e
keys_ending keys Stream.panicked = panic
keys_ending keys (Stream.yielded chunk rest) = keys chunk >>= λ _. keys_ending keys rest

module _ {E D V : Type 0} (null : V) (p : PartialEq (List V)) (t : JoinType)
    (order : HashMap V → HashMap V) (self : HashJoinExecutor E D V) where
  ending-probe_rows :
      (pairs : List (List V × List V)) (hash_map : HashMap V) (b : DataChunkBuilder (List V))
      (k : HashMap V → DataChunkBuilder (List V) → Stream E (List (List V)))
      (r : Result E (Unit {0}))
      → ((m : HashMap V) (b' : DataChunkBuilder (List V)) → ending (k m b') ≡ r)
      → ending (probe_rows null p t self pairs hash_map b k) ≡ r
  unfolding probe_rows
  ending-probe_rows [] hash_map b k r h = h hash_map b
  ending-probe_rows ((row, keys) ∷ pairs) hash_map b k r h =
      ending-push_rows _ b _ r
        (λ b'. ending-probe_rows pairs (probe_row null p t self row keys hash_map).1 b' k r h)

  Sized-probe_rows :
      (pairs : List (List V × List V)) (hash_map : HashMap V) (b : DataChunkBuilder (List V))
      (k : HashMap V → DataChunkBuilder (List V) → Stream E (List (List V)))
      → IsValid b
      → b.capacity ≡ processing_window_size
      → ((m : HashMap V) (b' : DataChunkBuilder (List V))
          → IsValid b'
          → b'.capacity ≡ processing_window_size
          → Sized processing_window_size (k m b'))
      → Sized processing_window_size (probe_rows null p t self pairs hash_map b k)
  unfolding probe_rows
  Sized-probe_rows [] hash_map b k v c h = h hash_map b v c
  Sized-probe_rows ((row, keys) ∷ pairs) hash_map b k v c h =
      Sized-push_rows processing_window_size _ b _ v c (λ b' v' c'.
        Sized-probe_rows pairs (probe_row null p t self row keys hash_map).1 b' k v' c' h)

  ending-probe :
      (right : Stream E (List (List V))) (hash_map : HashMap V) (b : DataChunkBuilder (List V))
      → ending (probe null p t order self right hash_map b) ≡ keys_ending self.right_keys right
  unfolding probe finish
  ending-probe Stream.done hash_map b = ending-push_rows _ b flush (ok tt) (ending-flush E)
  ending-probe (Stream.failed e) hash_map b = refl
  ending-probe Stream.panicked hash_map b = refl
  ending-probe (Stream.yielded chunk right) hash_map b =
      elim (Result-cases (self.right_keys chunk)) [
        | inl (keys, e) ↦ rw e (
            ending-probe_rows (zip chunk keys) hash_map b (probe null p t order self right)
              (keys_ending self.right_keys right) (ending-probe right))
        | inr (inl (x, e)) ↦ rw e
        | inr (inr e) ↦ rw e
      ]

  Sized-probe :
      (right : Stream E (List (List V))) (hash_map : HashMap V) (b : DataChunkBuilder (List V))
      → IsValid b
      → b.capacity ≡ processing_window_size
      → Sized processing_window_size (probe null p t order self right hash_map b)
  unfolding probe finish
  Sized-probe Stream.done hash_map b v c =
      Sized-push_rows processing_window_size _ b flush v c (Sized-flush E processing_window_size)
  Sized-probe (Stream.failed e) hash_map b v c = tt
  Sized-probe Stream.panicked hash_map b v c = tt
  Sized-probe (Stream.yielded chunk right) hash_map b v c =
      elim (Result-cases (self.right_keys chunk)) [
        | inl (keys, e) ↦
            rw e (Sized-probe_rows (zip chunk keys) hash_map b _ v c (Sized-probe right))
        | inr (inl (x, e)) ↦ rw e tt
        | inr (inr e) ↦ rw e tt
      ]

  ending-build :
      (left : Stream E (List (List V))) (hash_map : HashMap V)
      → (build null p self left hash_map >>= λ _. ok tt) ≡ keys_ending self.left_keys left
  unfolding build
  ending-build Stream.done hash_map = refl
  ending-build (Stream.failed e) hash_map = refl
  ending-build Stream.panicked hash_map = refl
  ending-build (Stream.yielded chunk left) hash_map = elim (Result-cases (self.left_keys chunk)) [
    | inl (keys, e) ↦ rw e (ending-build left (add_rows p (zip chunk keys) hash_map))
    | inr (inl (x, e)) ↦ rw e
    | inr (inr e) ↦ rw e
  ]

  -- A hash join ends as its left side does, which it reads first, or else as its right side does. A side
  -- ends at its own error or panic, or before that at the first of its chunks whose keys cannot be
  -- evaluated, with the error or panic of their evaluation.
  pub ending-execute_hash :
      (left right : Stream E (List (List V)))
      → ending (execute null p t order self left right)
        ≡ (keys_ending self.left_keys left >> keys_ending self.right_keys right)
  unfolding execute
  ending-execute_hash left right =
      ending-run (build null p self left []) _ (keys_ending self.right_keys right)
        (λ hash_map. ending-probe right hash_map (new processing_window_size))
      ∙ ap (λ (r : Result E (Unit {0})). r >> keys_ending self.right_keys right)
          (ending-build left [])

  -- Every chunk of a hash join has between one row and `PROCESSING_WINDOW_SIZE` rows, whatever its
  -- sides give.
  pub Sized-execute_hash :
      (left right : Stream E (List (List V)))
      → Sized processing_window_size (execute null p t order self left right)
  unfolding execute
  Sized-execute_hash left right = elim (Result-cases (build null p self left [])) [
    | inl (hash_map, e) ↦ rw e (
        Sized-probe right hash_map _ (new-IsValid processing_window_size (omega arith))
          (new-capacity (List V) processing_window_size))
    | inr (inl (x, e)) ↦ rw e tt
    | inr (inr e) ↦ rw e tt
  ]
