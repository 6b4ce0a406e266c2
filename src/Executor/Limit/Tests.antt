-- ===== src/Executor/Limit/Tests.antt =====
-- Runs of the limit on chunks of numbers.
use risinglight.Prelude.{ℕ, ◌≡◌, refl, List, [], ◌∷◌, ok, arith}
use risinglight.Executor.Stream.{Stream, rows, ending}
use risinglight.Executor.Limit.{LimitExecutor, execute, execute_loop}
use risinglight.Executor.Limit.Laws.{rows-execute, ending-execute}

abbrev four_rows : LimitExecutor
four_rows = record { offset = 1; limit = 4 }

abbrev three_chunks : Stream ℕ (List ℕ)
three_chunks =
    Stream.yielded (0 ∷ 1 ∷ [])
      (Stream.yielded (2 ∷ 3 ∷ []) (Stream.yielded (4 ∷ 5 ∷ []) (Stream.failed 7)))

cut_chunks :
    execute four_rows three_chunks
    ≡ Stream.yielded (1 ∷ []) (Stream.yielded (2 ∷ 3 ∷ []) (Stream.yielded (4 ∷ []) Stream.done))
unfolding execute execute_loop
cut_chunks = refl

rows-execute_example : rows (execute four_rows three_chunks) ≡ 1 ∷ 2 ∷ 3 ∷ 4 ∷ []
rows-execute_example = rows-execute four_rows three_chunks (omega arith) (omega arith)

ending-execute_example : ending (execute four_rows three_chunks) ≡ ok tt
ending-execute_example =
    ending-execute four_rows three_chunks (omega arith) (omega arith) (omega arith)
