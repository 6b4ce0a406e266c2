-- ===== src/DeleteVector/Laws.antt =====
-- A delete vector hides exactly the rows that it was made of.
use risinglight.Prelude.{
  ℕ, suc, ◌+◌, ◌^◌, ◌≤◌, ◌<◌, ◌≡◌, refl, sym, ap, subst, ◌∙◌, Bool, true, false, not, ◌&&◌, ◌||◌,
  List, [], ◌∷◌, ◌==◌, leb, ltb, length, drop, arith, tests, inl, inr, Bool-cases,
}
use risinglight.Prelude.Map.{contains}
use risinglight.DeleteVector.{
  insert_sorted, sort, dedup_after, dedup, partition_point, new, apply_loop, apply_to,
}

-- The bitmap without the rows of a list, from a row on.
abbrev pub without : List ℕ → ℕ → List Bool → List Bool
without rows row [] = []
without rows row (bit ∷ bits) = (bit && not (contains row rows)) ∷ without rows (row + 1) bits

without-ext :
    (xs ys : List ℕ) (row : ℕ) (bits : List Bool)
    → ((r : ℕ) → row ≤ r → contains r xs ≡ contains r ys)
    → without xs row bits ≡ without ys row bits
without-ext xs ys row [] h = refl
without-ext xs ys row (bit ∷ bits) h =
    rw (h row (omega arith), without-ext xs ys (row + 1) bits (λ r le. h r (omega arith))) refl

-- Ascending from a bound on, strictly or not.
abbrev Above : ℕ → List ℕ → Type 0
Above n [] = Unit
Above n (x ∷ xs) = (n ≤ x) × Above (suc x) xs

abbrev Sorted : ℕ → List ℕ → Type 0
Sorted n [] = Unit
Sorted n (x ∷ xs) = (n ≤ x) × Sorted x xs

insert_sorted-Sorted : (n x : ℕ) (xs : List ℕ) → n ≤ x → Sorted n xs → Sorted n (insert_sorted x xs)
insert_sorted-Sorted n x [] le h = (le, tt)
insert_sorted-Sorted n x (y ∷ ys) le h = elim (Bool-cases (leb x y)) [
  | inl small ↦ rw small (le, (omega tests, h.1))
  | inr large ↦ rw large (h.0, insert_sorted-Sorted y x ys (ground arith) h.1)
]

sort-Sorted : (xs : List ℕ) → Sorted 0 (sort xs)
sort-Sorted [] = tt
sort-Sorted (x ∷ xs) = insert_sorted-Sorted 0 x (sort xs) (omega arith) (sort-Sorted xs)

dedup_after-Above : (x : ℕ) (xs : List ℕ) → Sorted x xs → Above (suc x) (dedup_after x xs)
dedup_after-Above x [] h = tt
dedup_after-Above x (y ∷ ys) h = elim (Bool-cases (y == x)) [
  | inl same ↦ let e : y ≡ x = ground arith in rw same (dedup_after-Above x ys (rw e at h.1))
  | inr other ↦ rw other (ground arith, dedup_after-Above y ys h.1)
]

dedup-Above : (n : ℕ) (xs : List ℕ) → Sorted n xs → Above n (dedup xs)
dedup-Above n [] h = tt
dedup-Above n (x ∷ xs) h = (h.0, dedup_after-Above x xs h.1)

contains-insert_sorted :
    (r x : ℕ) (xs : List ℕ) → contains r (insert_sorted x xs) ≡ (r == x) || contains r xs
contains-insert_sorted r x [] = refl
contains-insert_sorted r x (y ∷ ys) = ground (arith, contains-insert_sorted r x ys)

contains-sort : (r : ℕ) (xs : List ℕ) → contains r (sort xs) ≡ contains r xs
contains-sort r [] = refl
contains-sort r (x ∷ xs) = contains-insert_sorted r x (sort xs) ∙ rw (contains-sort r xs) refl

contains-dedup_after :
    (r x : ℕ) (xs : List ℕ) → (r == x) || contains r (dedup_after x xs) ≡ (r == x) || contains r xs
contains-dedup_after r x [] = refl
contains-dedup_after r x (y ∷ ys) =
    ground (arith, contains-dedup_after r x ys, contains-dedup_after r y ys)

contains-dedup : (r : ℕ) (xs : List ℕ) → contains r (dedup xs) ≡ contains r xs
contains-dedup r [] = refl
contains-dedup r (x ∷ xs) = contains-dedup_after r x xs

contains-skipped :
    (limit r : ℕ) (xs : List ℕ)
    → limit ≤ r
    → contains r (drop (partition_point limit xs) xs) ≡ contains r xs
contains-skipped limit r [] h = refl
contains-skipped limit r (x ∷ xs) h = ground (arith, contains-skipped limit r xs h)

skipped-Above :
    (n limit : ℕ) (xs : List ℕ) → Above n xs → Above limit (drop (partition_point limit xs) xs)
skipped-Above n limit [] h = tt
skipped-Above n limit (x ∷ xs) h = elim (Bool-cases (ltb x limit)) [
  | inl small ↦ rw small (skipped-Above (suc x) limit xs h.1)
  | inr large ↦ rw large (ground arith, h.1)
]

contains-Above : (r n : ℕ) (xs : List ℕ) → r < n → Above n xs → contains r xs ≡ false
contains-Above r n [] lt h = refl
contains-Above r n (x ∷ xs) lt h =
    ground (arith, contains-Above r (suc x) xs (omega (arith, h.0)) h.1, h.0)

and_true : (b : Bool) → b && true ≡ b
and_true true = refl
and_true false = refl

and_false : (b : Bool) → b && false ≡ false
and_false true = refl
and_false false = refl

apply_loop-done : (row : ℕ) (iter : List ℕ) → apply_loop row iter [] ≡ []
unfolding apply_loop
apply_loop-done row iter = refl

apply_loop-nil : (row : ℕ) (bits : List Bool) → apply_loop row [] bits ≡ bits
unfolding apply_loop
apply_loop-nil row [] = refl
apply_loop-nil row (bit ∷ bits) = rw (apply_loop-nil (row + 1) bits) refl

without-nil : (row : ℕ) (bits : List Bool) → without [] row bits ≡ bits
without-nil row [] = refl
without-nil row (bit ∷ bits) = rw (without-nil (row + 1) bits) (ap (λ b. b ∷ bits) (and_true bit))

-- The loop's step where the next deletion is of this row, and where it is not.
apply_loop-hit :
    (row : ℕ) (iter : List ℕ) (bit : Bool) (bits : List Bool)
    → row < 2 ^ 32
    → apply_loop row (row ∷ iter) (bit ∷ bits) ≡ false ∷ apply_loop (row + 1) iter bits
unfolding apply_loop
apply_loop-hit row iter bit bits small = ground arith

apply_loop-miss :
    (row u : ℕ) (iter : List ℕ) (bit : Bool) (bits : List Bool)
    → row < 2 ^ 32
    → row < u
    → apply_loop row (u ∷ iter) (bit ∷ bits) ≡ bit ∷ apply_loop (row + 1) (u ∷ iter) bits
unfolding apply_loop
apply_loop-miss row u iter bit bits small later = ground arith

apply_loop-without :
    (row : ℕ) (iter : List ℕ) (bits : List Bool)
    → Above row iter
    → row + length bits ≤ 2 ^ 32
    → apply_loop row iter bits ≡ without iter row bits
apply_loop-without row [] bits h fits = apply_loop-nil row bits ∙ sym (without-nil row bits)
apply_loop-without row (u ∷ iter) [] h fits = apply_loop-done row (u ∷ iter)
apply_loop-without row (u ∷ iter) (bit ∷ bits) h fits = elim (Bool-cases (u == row)) [
  | inl same ↦
      let e : u ≡ row = ground arith in
      let rest =
        apply_loop-without (row + 1) iter bits
          (subst (λ n. Above n iter) (let n : suc u ≡ row + 1 = omega arith in n) h.1)
          (omega arith) in
      let there : contains row (u ∷ iter) ≡ true = ground arith in
      let tail : without iter (row + 1) bits ≡ without (u ∷ iter) (row + 1) bits =
        without-ext iter (u ∷ iter) (row + 1) bits
          (λ r le. let past : (r == u) ≡ false = ground arith in rw past refl) in
      ap (λ w. apply_loop row (w ∷ iter) (bit ∷ bits)) e
      ∙ apply_loop-hit row iter bit bits (omega arith)
      ∙ rw (there, and_false bit) (ap (λ l. false ∷ l) (rest ∙ tail))
  | inr other ↦
      let later : row < u = ground (arith, h.0) in
      let absent : contains row (u ∷ iter) ≡ false =
        contains-Above row (row + 1) (u ∷ iter) (omega arith) (omega arith, h.1) in
      apply_loop-miss row u iter bit bits (omega arith) later
      ∙ rw (absent, apply_loop-without (row + 1) (u ∷ iter) bits (omega arith, h.1) (omega arith))
          (ap (λ b. b ∷ without (u ∷ iter) (row + 1) bits) (sym (and_true bit)))
]

-- A delete vector hides from a bitmap that starts at a row exactly the rows that it was made of,
-- in whatever order and how often they were given, and leaves the other bits as they are. It is
-- stated where the rows of the bitmap fit in 32 bits.
pub apply_to-without :
    (dv_id rowset_id : ℕ) (deletes : List ℕ) (bits : List Bool) (offset_row_id : ℕ)
    → offset_row_id + length bits ≤ 2 ^ 32
    → apply_to (new dv_id rowset_id deletes) bits offset_row_id ≡ without deletes offset_row_id bits
unfolding apply_to new
apply_to-without dv_id rowset_id deletes bits offset_row_id fits =
    let rows = dedup (sort deletes) in
    apply_loop-without offset_row_id (drop (partition_point offset_row_id rows) rows) bits
      (skipped-Above 0 offset_row_id rows (dedup-Above 0 (sort deletes) (sort-Sorted deletes))) fits
    ∙ without-ext (drop (partition_point offset_row_id rows) rows) deletes offset_row_id bits
        (λ r le.
          contains-skipped offset_row_id r rows le
          ∙ contains-dedup r (sort deletes)
          ∙ contains-sort r deletes)
