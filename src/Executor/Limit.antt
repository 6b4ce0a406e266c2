-- ===== src/Executor/Limit.antt =====
-- executor/limit.rs: `LimitExecutor`.
use risinglight.Prelude.{
  ℕ, ◌+◌, ◌-◌, min, max, Bool, true, false, ◌&&◌, List, length, take, drop, ◌==◌, leb,
  if◌then◌else◌, Result, ok, panic, checked_add, checked_sub,
}
use risinglight.Executor.Stream.{Stream, run}
mod Step
mod Laws
mod Tests

pub record LimitExecutor : Type 0 where
  pub offset : ℕ
  pub limit : ℕ

module _ {E A : Type 0} where
  -- `batch.slice(start..end)`, out of bounds a panic
  abbrev pub slice : ℕ → ℕ → List A → Result E (List A)
  slice start end batch =
      if leb start end && leb end (length batch)
      then ok (take (end - start) (drop start batch))
      else panic

  -- The rest of the loop's body, once the two ends of the range are known.
  abbrev pub emit : LimitExecutor → ℕ → ℕ → ℕ → List A → Stream E (List A) → Stream E (List A)
  emit self processed start end batch rest =
      if leb end start
      then rest
      else run (if (start == 0) && (end == length batch) then ok batch else slice start end batch)
          (λ out.
            run (checked_add 64 self.offset self.limit)
              (λ last. Stream.yielded out (if leb last processed then Stream.done else rest)))

  unfoldable pub execute_loop : LimitExecutor → ℕ → Stream E (List A) → Stream E (List A)
  execute_loop self processed Stream.done = Stream.done
  execute_loop self processed (Stream.failed e) =
      if self.limit == 0 then Stream.done else Stream.failed e
  execute_loop self processed Stream.panicked = Stream.panicked
  execute_loop self processed (Stream.yielded batch child) =
      let rest = execute_loop self (processed + length batch) child in
      if self.limit == 0
      then Stream.done
      else run (checked_sub (max processed self.offset) processed) (λ start.
        run (checked_add 64 processed (length batch)) (λ after.
          run (checked_add 64 self.offset self.limit) (λ last.
            run (checked_sub (min after last) processed)
              (λ end. emit self after start end batch rest))))

  unfoldable pub execute : LimitExecutor → Stream E (List A) → Stream E (List A)
  unfolding execute_loop
  execute self child = execute_loop self 0 child
