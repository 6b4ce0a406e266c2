-- ===== src/Executor/Limit/Step.antt =====
-- One round of the limit's loop.
use risinglight.Prelude.{
  ℕ, ◌+◌, ◌-◌, ◌^◌, ◌≤◌, ◌<◌, min, max, ◌≡◌, refl, sym, ap, ◌∙◌, inl, inr, true, false, List, [],
  ◌++◌, arith, length, take, drop, slice-append, take-past, take-nil, drop_nil, take-min-length,
  length-drop, tests, leb, if◌then◌else◌, ok, checked_add-fits, checked_sub-fits, ◌==◌, Bool-cases,
  ◌&&◌,
}
use risinglight.Executor.Stream.{Stream, rows, ending}
use risinglight.Executor.Limit.{LimitExecutor, execute_loop, emit, slice}

-- The range of a batch that the limit lets through, on numbers that do not overflow.
abbrev lower : LimitExecutor → ℕ → ℕ
lower self processed = self.offset - processed

abbrev upper : LimitExecutor → ℕ → ℕ → ℕ
upper self processed n = min n (self.offset + self.limit - processed)

-- One batch: what it gives, then what comes after it.
pub slice_step :
    {A : Type 0} (self : LimitExecutor) (p : ℕ) (batch more : List A)
    → 0 < self.limit
    → p < self.offset + self.limit
    → take (self.offset + self.limit - max p self.offset) (drop (self.offset - p) (batch ++ more))
      ≡ take (upper self p (length batch) - lower self p) (drop (lower self p) batch)
        ++ take
            (self.offset + self.limit - max (p + length batch) self.offset)
            (drop (self.offset - (p + length batch)) more)
slice_step self p batch more pos before =
    let m = self.offset + self.limit - max p self.offset in
    let k = lower self p in
    let left : m - (length batch - k)
        ≡ self.offset + self.limit - max (p + length batch) self.offset =
      omega arith in
    let skipped : k - length batch ≡ self.offset - (p + length batch) = omega arith in
    let kept : min m (length (drop k batch)) ≡ upper self p (length batch) - k =
      omega (arith, length-drop k batch) in
    let first : take m (drop k batch) ≡ take (upper self p (length batch) - k) (drop k batch) =
      sym (take-min-length m (drop k batch)) ∙ ap (λ i. take i (drop k batch)) kept in
    rw (slice-append m k batch more, left, skipped, first)

empty_range :
    {A : Type 0} (self : LimitExecutor) (p : ℕ) (batch : List A)
    → leb (upper self p (length batch)) (lower self p) ≡ true
    → take (upper self p (length batch) - lower self p) (drop (lower self p) batch) ≡ []
empty_range self p batch empty =
    let zero_rows : upper self p (length batch) - lower self p ≡ 0 = omega tests in rw zero_rows

pub nothing_left :
    {A : Type 0} (self : LimitExecutor) (p : ℕ)
    → [] ≡ take {A = A} (self.offset + self.limit - max p self.offset) (drop (self.offset - p) [])
nothing_left {A} self p =
    sym (take-nil (self.offset + self.limit - max p self.offset))
    ∙ rw (drop_nil {A = A} (self.offset - p)) refl

module _ {E A : Type 0} where
  abbrev pub rest_of : LimitExecutor → ℕ → Stream E (List A) → Stream E (List A)
  rest_of self after child =
      if leb (self.offset + self.limit) after then Stream.done else execute_loop self after child

  execute_loop-yielded :
      (self : LimitExecutor) (p : ℕ) (batch : List A) (child : Stream E (List A))
      → 0 < self.limit
      → self.offset + self.limit < 2 ^ 64
      → p < self.offset + self.limit
      → p + length batch < 2 ^ 64
      → execute_loop self p (Stream.yielded batch child)
        ≡ emit self
            (p + length batch)
            (lower self p)
            (upper self p (length batch))
            batch
            (execute_loop self (p + length batch) child)
  unfolding execute_loop
  execute_loop-yielded self p batch child pos small before after =
      let lo : max p self.offset - p ≡ lower self p = omega arith in
      let hi : min (p + length batch) (self.offset + self.limit) - p ≡ upper self p (length batch) =
        omega arith in
      let some_limit : (self.limit == 0) ≡ false = ground arith in
      rw (
        some_limit,
        checked_sub-fits (max p self.offset) (p) (omega arith),
        checked_add-fits (64) (p) (length batch) after,
        checked_add-fits (64) (self.offset) (self.limit) small,
        checked_sub-fits (min (p + length batch) (self.offset + self.limit)) (p) (omega arith),
        lo,
        hi,
      )

  slice-fits :
      (start end : ℕ) (batch : List A)
      → start ≤ end
      → end ≤ length batch
      → slice {E = E} start end batch ≡ ok (take (end - start) (drop start batch))
  slice-fits start end batch h k = ground arith

  -- A batch that the limit lets through whole is the slice of all of it.
  chosen-ok :
      (start end : ℕ) (batch : List A)
      → start ≤ end
      → end ≤ length batch
      → (if (start == 0) && (end == length batch) then ok batch else slice {E = E} start end batch)
        ≡ ok (take (end - start) (drop start batch))
  chosen-ok start end batch h k = elim (Bool-cases ((start == 0) && (end == length batch))) [
    | inr cut ↦ rw cut (slice-fits start end batch h k)
    | inl whole ↦
        let at_0 : start ≡ 0 = ground arith in
        let at_end : length batch ≤ end = ground arith in
        let all : take (end - start) (drop start batch) ≡ batch =
          rw at_0 (take-past (end - 0) batch (omega arith)) in
        rw whole (ap ok (sym all))
  ]

  -- What is left of the loop's body, where the range is that of the limit.
  emit_lem :
      (self : LimitExecutor) (p : ℕ) (batch : List A) (rest : Stream E (List A))
      → 0 < self.limit
      → self.offset + self.limit < 2 ^ 64
      → p < self.offset + self.limit
      → let s = lower self p in
        let e = upper self p (length batch) in
        let tail =
          if leb (self.offset + self.limit) (p + length batch) then Stream.done else rest in
        emit self (p + length batch) s e batch rest
        ≡ (if leb e s then tail else Stream.yielded (take (e - s) (drop s batch)) tail)
  emit_lem self p batch rest pos small before =
      elim (Bool-cases (leb (upper self p (length batch)) (lower self p))) [
        | inl empty ↦
            let more : leb (self.offset + self.limit) (p + length batch) ≡ false = ground arith in
            rw (empty, more)
        | inr some_rows ↦ rw (
          some_rows,
          chosen-ok (lower self p) (upper self p (length batch)) batch (ground arith) (omega arith),
          checked_add-fits 64 self.offset self.limit small,
        )
      ]

  pub execute_loop_step :
      (self : LimitExecutor) (p : ℕ) (batch : List A) (child : Stream E (List A))
      → 0 < self.limit
      → self.offset + self.limit < 2 ^ 64
      → p < self.offset + self.limit
      → p + length batch < 2 ^ 64
      → (rows (execute_loop self p (Stream.yielded batch child))
          ≡ take (upper self p (length batch) - lower self p) (drop (lower self p) batch)
            ++ rows (rest_of self (p + length batch) child))
        × (ending (execute_loop self p (Stream.yielded batch child))
            ≡ ending (rest_of self (p + length batch) child))
  execute_loop_step self p batch child pos small before after =
      let step =
        execute_loop-yielded self p batch child pos small before after
        ∙ emit_lem self p batch (execute_loop self (p + length batch) child) pos small before in
      elim (Bool-cases (leb (upper self p (length batch)) (lower self p))) [
        | inl empty ↦ (rw (step, empty, empty_range self p batch empty) refl, rw (step, empty) refl)
        | inr some_rows ↦ (rw (step, some_rows) refl, rw (step, some_rows) refl)
      ]
