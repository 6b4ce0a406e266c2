-- ===== src/Executor/Limit/Laws.antt =====
-- What a limit yields, and how it ends.
use risinglight.Prelude.{
  ℕ, ◌+◌, ◌-◌, ◌^◌, ◌<◌, max, ◌≡◌, refl, sym, ◌∙◌, inl, inr, true, false, List, [], ◌++◌, arith,
  length, length-append, take, drop, ℕ_discrete, tests, leb, if◌then◌else◌, ok, ◌==◌, Bool-cases,
}
use risinglight.Executor.Stream.{Stream, rows, ending}
use risinglight.Executor.Limit.{LimitExecutor, execute, execute_loop}
use risinglight.Executor.Limit.Step.{slice_step, nothing_left, rest_of, execute_loop_step}

module _ {E A : Type 0} where
  rows-execute_loop :
      (self : LimitExecutor) (p : ℕ) (child : Stream E (List A))
      → 0 < self.limit
      → self.offset + self.limit < 2 ^ 64
      → p < self.offset + self.limit
      → p + length (rows child) < 2 ^ 64
      → rows (execute_loop self p child)
        ≡ take (self.offset + self.limit - max p self.offset) (drop (self.offset - p) (rows child))
  unfolding execute_loop
  rows-execute_loop self p Stream.done pos small before long = nothing_left self p
  rows-execute_loop self p (Stream.failed e) pos small before long =
      let some_limit : (self.limit == 0) ≡ false = ground arith in
      rw some_limit (nothing_left self p)
  rows-execute_loop self p Stream.panicked pos small before long = nothing_left self p
  rows-execute_loop self p (Stream.yielded batch child) pos small before long =
      let total : length (batch ++ rows child) ≡ length batch + length (rows child) =
        length-append batch (rows child) in
      let after : rows (rest_of self (p + length batch) child)
          ≡ take (self.offset + self.limit - max (p + length batch) self.offset)
              (drop (self.offset - (p + length batch)) (rows child)) =
        elim (Bool-cases (leb (self.offset + self.limit) (p + length batch))) [
          | inl full ↦
              let none_left : self.offset + self.limit - max (p + length batch) self.offset ≡ 0 =
                omega tests in
              rw (full, none_left) refl
          | inr more ↦ rw more (
              rows-execute_loop self (p + length batch) child pos small (ground arith)
                (omega (arith, total)))
        ] in
      (execute_loop_step self p batch child pos small before (omega (arith, total))).0
      ∙ rw after (sym (slice_step self p batch (rows child) pos before))

  rows-no_limit :
      (self : LimitExecutor) (child : Stream E (List A))
      → self.limit ≡ 0
      → rows (execute_loop self 0 child) ≡ []
  unfolding execute_loop
  rows-no_limit self Stream.done h = refl
  rows-no_limit self (Stream.failed e) h = rw h refl
  rows-no_limit self Stream.panicked h = refl
  rows-no_limit self (Stream.yielded batch child) h = rw h refl

  ending-execute_loop :
      (self : LimitExecutor) (p : ℕ) (child : Stream E (List A))
      → 0 < self.limit
      → self.offset + self.limit < 2 ^ 64
      → p < self.offset + self.limit
      → p + length (rows child) < 2 ^ 64
      → ending (execute_loop self p child)
        ≡ (if leb (self.offset + self.limit) (p + length (rows child)) then ok tt else ending child)
  unfolding execute_loop
  ending-execute_loop self p Stream.done pos small before long = ground arith
  ending-execute_loop self p (Stream.failed e) pos small before long = ground arith
  ending-execute_loop self p Stream.panicked pos small before long = ground arith
  ending-execute_loop self p (Stream.yielded batch child) pos small before long =
      let total : length (batch ++ rows child) ≡ length batch + length (rows child) =
        length-append batch (rows child) in
      (execute_loop_step self p batch child pos small before (omega (arith, total))).1
      ∙ elim (Bool-cases (leb (self.offset + self.limit) (p + length batch))) [
        | inl full ↦
            let past : leb (self.offset + self.limit) (p + length (batch ++ rows child)) ≡ true =
              omega (tests, total) in
            rw (full, past) refl
        | inr more ↦
            let same : p + length (batch ++ rows child) ≡ p + length batch + length (rows child) =
              omega (arith, total) in
            rw (more, same)
              (ending-execute_loop self (p + length batch) child pos small (ground arith)
                (omega (arith, total)))
      ]

  -- A limit yields `limit` rows after the first `offset` rows that its child produced before it
  -- ended, or as many as there are, however the rows are cut into chunks, also where the child
  -- fails or panics. It is stated where `offset + limit` and the number of rows fit in 64 bits.
  pub rows-execute :
      (self : LimitExecutor) (child : Stream E (List A))
      → self.offset + self.limit < 2 ^ 64
      → length (rows child) < 2 ^ 64
      → rows (execute self child) ≡ take self.limit (drop self.offset (rows child))
  unfolding execute
  rows-execute self child small long = elim (ℕ_discrete self.limit 0) [
    | Dec.yes none_wanted ↦ rows-no_limit self child none_wanted ∙ rw none_wanted refl
    | Dec.no wanted ↦
        let m : self.offset + self.limit - max 0 self.offset ≡ self.limit = omega arith in
        let k : self.offset - 0 ≡ self.offset = omega arith in
        rows-execute_loop self 0 child (omega (arith, wanted)) small (omega (arith, wanted))
          (omega arith)
        ∙ rw (m, k) refl
  ]

  -- A limit of at least one row ends well as soon as the child has produced `offset + limit` rows,
  -- whatever would come after them; otherwise it ends as the child does, with the child's error or
  -- panic. It never panics of itself where `offset + limit` and the number of rows fit in 64 bits.
  pub ending-execute :
      (self : LimitExecutor) (child : Stream E (List A))
      → 0 < self.limit
      → self.offset + self.limit < 2 ^ 64
      → length (rows child) < 2 ^ 64
      → ending (execute self child)
        ≡ (if leb (self.offset + self.limit) (length (rows child)) then ok tt else ending child)
  unfolding execute
  ending-execute self child pos small long =
      let e : 0 + length (rows child) ≡ length (rows child) = omega arith in
      rw e at (ending-execute_loop self 0 child pos small (omega arith) (omega arith))
