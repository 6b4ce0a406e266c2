-- ===== src/Executor/Join/NestedLoop/Matched.antt =====
-- The rows of the left side without a match, found by their bits in the filter.
use risinglight.Prelude.{
  ℕ, zero, suc, ◌+◌, ◌≡◌, refl, ◌∙◌, Bool, false, not, ◌||◌, some, List, [], ◌∷◌, ◌++◌, map,
  map-append, length, length-append, length-map, get_elem?, ok, append_assoc, inl, inr, Bool-cases,
  arith,
}
use risinglight.Executor.Stream.{rows}
use risinglight.Executor.Evaluate.{IsCondition}
use risinglight.Executor.Builder.{DataChunkBuilder, push_row}
use risinglight.Executor.Builder.Laws.{IsValid, push_row-IsValid, rows-emit, rows-flush}
use risinglight.Executor.Join.{pad}
use risinglight.Executor.Join.NestedLoop.{NestedLoopJoinExecutor, cross, any_match, push_unmatched}
use risinglight.Executor.Join.NestedLoop.Cross.{bits, keep}

module _ {A : Type 0} where
  get_elem?-append_right :
      (xs ys : List A) (i : ℕ) → get_elem? (xs ++ ys) (length xs + i) ≡ get_elem? ys i
  get_elem?-append_right [] ys i = let e : 0 + i ≡ i = omega arith in rw e
  get_elem?-append_right (x ∷ xs) ys i =
      let e : suc (length xs) + i ≡ suc (length xs + i) = omega arith in
      rw e (get_elem?-append_right xs ys i)

  get_elem?-append_left :
      (xs ys : List A) (i : ℕ) (x : A) → get_elem? xs i ≡ some x → get_elem? (xs ++ ys) i ≡ some x
  get_elem?-append_left [] ys i x h = cc
  get_elem?-append_left (y ∷ xs) ys zero x h = h
  get_elem?-append_left (y ∷ xs) ys (suc i) x h = get_elem?-append_left xs ys i x h

get_elem?-middle :
    {A : Type 0} (xs : List A) (x : A) (ys : List A) → get_elem? (xs ++ x ∷ ys) (length xs) ≡ some x
get_elem?-middle [] x ys = refl
get_elem?-middle (y ∷ xs) x ys = get_elem?-middle xs x ys

get_elem?-map :
    {A B : Type 0} (f : A → B) (xs : List A) (i : ℕ) (x : A)
    → get_elem? xs i ≡ some x
    → get_elem? (map f xs) i ≡ some (f x)
get_elem?-map f [] i x h = cc
get_elem?-map f (y ∷ xs) zero x h = ground (arith, h)
get_elem?-map f (y ∷ xs) (suc i) x h = get_elem?-map f xs i x h

any_match-skip :
    {E : Type 0} (xs ys : List (Bool × Bool)) (rounds i step : ℕ)
    → any_match {E = E} (xs ++ ys) (length xs + i) step rounds ≡ any_match ys i step rounds
unfolding any_match
any_match-skip {E} xs ys zero i step = refl
any_match-skip {E} xs ys (suc rounds) i step =
    let e : length xs + i + step ≡ length xs + (i + step) = omega arith in
    rw (get_elem?-append_right xs ys i, e, any_match-skip {E = E} xs ys rounds (i + step) step)

-- One of the rows of the right side passes the condition beside this row.
abbrev pub some_match : {V : Type 0} → (List V → Bool) → List (List V) → List V → Bool
some_match holds [] left_row = false
some_match holds (right_row ∷ right) left_row =
    holds (left_row ++ right_row) || some_match holds right left_row

module _ {E D V : Type 0} (null : V) (self : NestedLoopJoinExecutor E D V) {holds : List V → Bool}
    (c : IsCondition self.condition holds) where
  any_match-cross :
      (left right : List (List V)) (i : ℕ) (left_row : List V)
      → get_elem? left i ≡ some left_row
      → any_match {E = E} (bits null self c (cross left right)) i (length left) (length right)
        ≡ ok (some_match holds right left_row)
  unfolding any_match
  any_match-cross left [] i left_row h = refl
  any_match-cross left (right_row ∷ right) i left_row h =
      let here : List (List V) = map (λ l. l ++ right_row) left in
      let at_i : get_elem? (bits null self c here) i ≡ some (c.value (left_row ++ right_row)) =
        get_elem?-map c.value here i (left_row ++ right_row)
          (get_elem?-map (λ l. l ++ right_row) left i left_row h) in
      let size : length (bits null self c here) ≡ length left =
        length-map here c.value ∙ length-map left (λ l. l ++ right_row) in
      let next : i + length left ≡ length (bits null self c here) + i = omega (arith, size) in
      let there : List (Bool × Bool) = bits null self c (cross left right) in
      let split : bits null self c (cross left (right_row ∷ right))
          ≡ bits null self c here ++ there =
        map-append c.value here (cross left right) in
      let bit : get_elem? (bits null self c (cross left (right_row ∷ right))) i
          ≡ some (c.value (left_row ++ right_row)) =
        rw split (get_elem?-append_left (bits null self c here) there i _ at_i) in
      let others : any_match {E = E} (bits null self c (cross left (right_row ∷ right)))
            (i + length left) (length left) (length right)
          ≡ ok (some_match holds right left_row) =
        rw (split, next)
          (any_match-skip (bits null self c here) there (length right) i (length left)
            ∙ any_match-cross left right i left_row h) in
      rw (bit, others, c.cleared (left_row ++ right_row))

  -- The rows of the left side that no row of the right side matches, each beside nulls.
  abbrev pub alone : List (List V) → List (List V) → List (List V)
  alone left right =
      map (λ left_row. left_row ++ pad null self.right_types)
        (keep (λ left_row. not (some_match holds right left_row)) left)

  pub rows-push_unmatched :
      (rest before right : List (List V)) (b : DataChunkBuilder (List V))
      → IsValid b
      → rows (
          push_unmatched null self
            (length before)
            rest
            (length (before ++ rest))
            (length right)
            (bits null self c (cross (before ++ rest) right))
            b)
        ≡ b.buffer ++ alone rest right
  unfolding push_unmatched
  rows-push_unmatched [] before right b v = rows-flush E b v
  rows-push_unmatched (left_row ∷ rest) before right b v =
      let left : List (List V) = before ++ left_row ∷ rest in
      let row = left_row ++ pad null self.right_types in
      let size : length (before ++ left_row ∷ []) ≡ length before + 1 =
        length-append before (left_row ∷ []) in
      let found : get_elem? left (length before) ≡ some left_row =
        get_elem?-middle before left_row rest in
      let matched = any_match-cross left right (length before) left_row found in
      let again : (b' : DataChunkBuilder (List V))
          → IsValid b'
          → rows (
              push_unmatched null self (length before + 1) rest (length left) (length right)
                (bits null self c (cross left right)) b')
            ≡ b'.buffer ++ alone rest right =
        λ b' v'.
          rw (← size, ← append_assoc before (left_row ∷ []) rest)
            (rows-push_unmatched rest (before ++ left_row ∷ []) right b' v') in
      rw matched (elim (Bool-cases (some_match holds right left_row)) [
        | inl yes_ ↦ rw yes_ (again b v)
        | inr no_ ↦ rw no_ (
            rows-emit row b _ (alone rest right)
              (again (push_row row b).1 (push_row-IsValid row b v)))
      ])
