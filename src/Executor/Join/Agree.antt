-- ===== src/Executor/Join/Agree.antt =====
-- A hash join against the nested loop join with the equality of the keys for its condition.
use mathlib.Core.List.{Perm}
use mathlib.Core.List.Perm
use risinglight.Prelude.{
  ◌≡◌, refl, Bool, false, not, List, [], ◌∷◌, ◌++◌, map, flat_map, Result, ok, PartialEq, inl, inr,
  Bool-cases, All, All-mono,
}
use risinglight.Executor.Stream.{Stream, rows, ending}
use risinglight.Executor.Evaluate.{ArrayImpl, IsRowWise, IsCondition}
use risinglight.Executor.Join.{JoinType, keeps_right}
use risinglight.Executor.Join.Hash
use risinglight.Executor.Join.Hash.{HashJoinExecutor, HashMap}
use risinglight.Executor.Join.Hash.Probe.{joined, matches, or_else}
use risinglight.Executor.Join.Hash.Outer.{met, unmet}
use risinglight.Executor.Join.Hash.Laws.{rows-execute_hash}
use risinglight.Executor.Join.NestedLoop
use risinglight.Executor.Join.NestedLoop.{NestedLoopJoinExecutor, cross, is_supported}
use risinglight.Executor.Join.NestedLoop.Cross.{keep, keep-append}
use risinglight.Executor.Join.NestedLoop.Matched.{some_match}
use risinglight.Executor.Join.NestedLoop.Laws.{rows-execute_nested_loop}

or_else-nil : {A : Type 0} (xs : List A) → or_else xs [] ≡ xs
or_else-nil [] = refl
or_else-nil (x ∷ xs) = refl

module _ {V : Type 0} (p : PartialEq (List V)) (left_key right_key : List V → List V)
    (holds : List V → Bool) where
  -- The condition holds of a row of each side exactly if their keys are equal.
  abbrev pub ComparesKeys : List V → List V → Type 0
  ComparesKeys r l = holds (l ++ r) ≡ p.eq (right_key r) (left_key l)

  abbrev pub IsKeyEquality : List (List V) → List (List V) → Type 0
  IsKeyEquality left right = All (λ r. All (ComparesKeys r) left) right

  keep-matches :
      (r : List V) (left : List (List V))
      → All (ComparesKeys r) left
      → keep holds (map (λ l. l ++ r) left)
        ≡ map (λ l. l ++ r) (matches p left_key (right_key r) left)
  keep-matches r [] h = refl
  keep-matches r (l ∷ left) h = elim (Bool-cases (p.eq (right_key r) (left_key l))) [
    | inl same ↦ rw (h.0, same, keep-matches r left h.1)
    | inr differ ↦ rw (h.0, differ, keep-matches r left h.1)
  ]

  pub keep-cross :
      (left right : List (List V))
      → IsKeyEquality left right
      → keep holds (cross left right)
        ≡ flat_map (λ r. map (λ l. l ++ r) (matches p left_key (right_key r) left)) right
  keep-cross left [] h = refl
  keep-cross left (r ∷ right) h = rw (
    keep-append holds (map (λ l. l ++ r) left) (cross left right),
    keep-matches r left h.0,
    keep-cross left right h.1,
  )

  met-some_match :
      (right : List (List V)) (l : List V)
      → All (λ r. ComparesKeys r l) right
      → met p left_key (map right_key right) (left_key l) ≡ some_match holds right l
  met-some_match [] l h = refl
  met-some_match (r ∷ right) l h = rw (h.0, met-some_match right l h.1)

  pub unmet-keep :
      (left right : List (List V))
      → IsKeyEquality left right
      → unmet p left_key (map right_key right) left
        ≡ keep (λ l. not (some_match holds right l)) left
  unmet-keep [] right h = refl
  unmet-keep (l ∷ left) right h =
      let met_lem = met-some_match right l (All-mono (λ r hs. hs.0) right h) in
      let rest = unmet-keep left right (All-mono (λ r hs. hs.1) right h) in
      elim (Bool-cases (some_match holds right l)) [
        | inl found ↦ rw (met_lem, found, rest)
        | inr missing ↦ rw (met_lem, missing, rest)
      ]

module _ {E D V : Type 0} (self : HashJoinExecutor E D V)
    (condition : List (List V) → Result E (ArrayImpl V)) where
  -- The nested loop join of the same two sides with a condition.
  abbrev pub nested_loop : JoinType → NestedLoopJoinExecutor E D V
  nested_loop t = record {
    op = t;
    condition = condition;
    left_types = self.left_types;
    right_types = self.right_types;
  }

module _ {E D V : Type 0} (null : V) (p : PartialEq (List V)) (self : HashJoinExecutor E D V)
    (condition : List (List V) → Result E (ArrayImpl V)) (left_key right_key : List V → List V)
    (holds : List V → Bool) where
  joined-matches :
      (t : JoinType) (left right : List (List V))
      → keeps_right t ≡ false
      → flat_map (joined null p t self left_key right_key left) right
        ≡ flat_map (λ r. map (λ l. l ++ r) (matches p left_key (right_key r) left)) right
  joined-matches t left [] inner = refl
  joined-matches t left (r ∷ right) inner = rw (
    inner,
    or_else-nil (map (λ l. l ++ r) (matches p left_key (right_key r) left)),
    joined-matches t left right inner,
  )

  module _ (order : HashMap V → HashMap V) (permutes : (m : HashMap V) → Perm (order m) m)
      (left_wise : IsRowWise self.left_keys left_key)
      (right_wise : IsRowWise self.right_keys right_key) (c : IsCondition condition holds)
      (left right : Stream E (List (List V)))
      (same_keys : IsKeyEquality p left_key right_key holds (rows left) (rows right))
      (left_ends : ending left ≡ ok tt) (right_ends : ending right ≡ ok tt) where
    -- An inner hash join gives the same rows in the same order as the inner nested loop join, if its
    -- condition holds exactly of two rows with equal keys and both sides end without an error.
    pub inner_joins_agree :
        rows (Hash.execute null p JoinType.inner order self left right)
        ≡ rows (NestedLoop.execute null (nested_loop self condition JoinType.inner) left right)
    inner_joins_agree =
        let (rest, found, permuted) =
          rows-execute_hash null p self left_key right_key JoinType.inner order left_wise right_wise
            permutes left right left_ends right_ends in
        rw (
          found,
          Perm.eq-nil permuted,
          joined-matches JoinType.inner (rows left) (rows right) refl,
          rows-execute_nested_loop null (nested_loop self condition JoinType.inner) c left right
              refl left_ends right_ends,
          keep-cross p left_key right_key holds (rows left) (rows right) same_keys,
        )

    -- A left outer hash join gives a permutation of the rows of the left outer nested loop join, if
    -- its condition holds exactly of two rows with equal keys and both sides end without an error.
    pub left_outer_joins_agree :
        Perm (rows (Hash.execute null p JoinType.left_outer order self left right)) (
          rows
            (NestedLoop.execute null (nested_loop self condition JoinType.left_outer) left right))
    left_outer_joins_agree =
        let (alone_, found, permuted) =
          rows-execute_hash null p self left_key right_key JoinType.left_outer order left_wise
            right_wise permutes left right left_ends right_ends in
        rw
          (
            found,
            joined-matches JoinType.left_outer (rows left) (rows right) refl,
            rows-execute_nested_loop null (nested_loop self condition JoinType.left_outer) c left
                right refl left_ends right_ends,
            keep-cross p left_key right_key holds (rows left) (rows right) same_keys,
          )
          (Perm.append_left _ (
            rw (unmet-keep p left_key right_key holds (rows left) (rows right) same_keys) at
              permuted))
