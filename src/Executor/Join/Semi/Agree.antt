-- ===== src/Executor/Join/Semi/Agree.antt =====
-- A hash semi join against the nested loop semi join with the equality of the keys for its condition.
use risinglight.Prelude.{
  ◌≡◌, refl, sym, ◌∙◌, Bool, List, [], ◌∷◌, map, Result, ok, PartialEq, All, All-mono,
}
use risinglight.Prelude.KeyMap.{contains, eq_sym}
use risinglight.Executor.Stream.{Stream, rows, ending}
use risinglight.Executor.Evaluate.{ArrayImpl, IsRowWise, IsCondition}
use risinglight.Executor.Join.Agree.{ComparesKeys, IsKeyEquality}
use risinglight.Executor.Join.NestedLoop.Cross.{keep}
use risinglight.Executor.Join.NestedLoop.Matched.{some_match}
use risinglight.Executor.Join.Semi.{xor, HashSemiJoinExecutor, execute_hash, execute_nested_loop}
use risinglight.Executor.Join.Semi.Laws.{rows-execute_hash_semi, rows-execute_nested_loop_semi}

module _ {V : Type 0} (p : PartialEq (List V)) (left_key right_key : List V → List V)
    (holds : List V → Bool) where
  contains-some_match :
      (l : List V) (right : List (List V))
      → All (λ r. ComparesKeys p left_key right_key holds r l) right
      → contains p (left_key l) (map right_key right) ≡ some_match holds right l
  contains-some_match l [] h = refl
  contains-some_match l (r ∷ right) h =
      rw (h.0, eq_sym p (left_key l) (right_key r), contains-some_match l right h.1)

  keep-contains :
      (anti : Bool) (left right : List (List V))
      → IsKeyEquality p left_key right_key holds left right
      → keep (λ l. xor (contains p (left_key l) (map right_key right)) anti) left
        ≡ keep (λ l. xor (some_match holds right l) anti) left
  keep-contains anti [] right h = refl
  keep-contains anti (l ∷ left) right h = rw (
    contains-some_match l right (All-mono (λ r hs. hs.0) right h),
    keep-contains anti left right (All-mono (λ r hs. hs.1) right h),
  )

-- A hash semi join or anti join gives the same rows in the same order as the nested loop one whose
-- condition holds exactly of two rows with equal keys, if both sides end without an error.
pub semi_joins_agree :
    {E V : Type 0} (p : PartialEq (List V)) (self : HashSemiJoinExecutor E V)
    (condition : List (List V) → Result E (ArrayImpl V)) (left_key right_key : List V → List V)
    (holds : List V → Bool) (left right : Stream E (List (List V)))
    → IsRowWise self.left_keys left_key
    → IsRowWise self.right_keys right_key
    → IsCondition condition holds
    → IsKeyEquality p left_key right_key holds (rows left) (rows right)
    → ending left ≡ ok tt
    → ending right ≡ ok tt
    → rows (execute_hash p self left right)
      ≡ rows (execute_nested_loop (record { anti = self.anti; condition = condition }) left right)
semi_joins_agree p self condition left_key right_key holds left right left_wise right_wise c
      same_keys el er =
    rows-execute_hash_semi p self left_key right_key left_wise right_wise left right er
    ∙ keep-contains p left_key right_key holds self.anti (rows left) (rows right) same_keys
    ∙ sym (
        rows-execute_nested_loop_semi (record { anti = self.anti; condition = condition }) c left
          right el er)
