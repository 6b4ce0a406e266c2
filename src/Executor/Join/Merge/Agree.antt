-- ===== src/Executor/Join/Merge/Agree.antt =====
-- A merge join against the hash join of the same two sides.
use mathlib.Core.List.{Perm, perm_append_comm}
use mathlib.Core.List.Perm
use risinglight.Prelude.{
  ◌≡◌, ◌≢◌, refl, true, false, List, [], ◌∷◌, ◌++◌, map, flat_map, ok, if◌then◌else◌, PartialEq,
  append_assoc, arith, inl, inr, Bool-cases,
}
use risinglight.Prelude.KeyMap.{eq_sym}
use risinglight.Prelude.Ord.{Ord}
use risinglight.Prelude.Permutation.{Perm-front}
use risinglight.Executor.Stream.{Stream, rows, ending}
use risinglight.Executor.Evaluate.{IsRowWise}
use risinglight.Executor.Join.{JoinType, keeps_right, pad}
use risinglight.Executor.Join.Hash
use risinglight.Executor.Join.Hash.{HashJoinExecutor, HashMap}
use risinglight.Executor.Join.Hash.Probe.{joined, matches, or_else-map}
use risinglight.Executor.Join.Hash.Outer.{met}
use risinglight.Executor.Join.Hash.Laws.{left_alone, rows-execute_hash}
use risinglight.Executor.Join.Merge
use risinglight.Executor.Join.Merge.{MergeJoinExecutor, is_empty, right_only}
use risinglight.Executor.Join.Merge.Groups.{IsSorted}
use risinglight.Executor.Join.Merge.Pairs.{alone, pairs, beside}
use risinglight.Executor.Join.Merge.Steps.{right_only-append}
use risinglight.Executor.Join.Merge.Laws.{rows-execute_merge}

module _ {V : Type 0} (p : PartialEq (List V)) (key : List V → List V) where
  unmet-matches :
      (k : List V) (rs : List (List V)) → met p key (map key rs) k ≡ false → matches p key k rs ≡ []
  unmet-matches k [] h = refl
  unmet-matches k (row ∷ rs) h = elim (Bool-cases (p.eq (key row) k)) [
    | inl same ↦ absurd (ground (arith, same))
    | inr differ ↦ rw (eq_sym p k (key row), differ) (unmet-matches k rs (rw differ at h))
  ]

  met-matches :
      (k : List V) (rs : List (List V)) → met p key (map key rs) k ≡ true → matches p key k rs ≢ []
  met-matches k [] h = λ e. cc
  met-matches k (row ∷ rs) h = elim (Bool-cases (p.eq (key row) k)) [
    | inl same ↦ rw (eq_sym p k (key row), same) (λ e. cc)
    | inr differ ↦ rw (eq_sym p k (key row), differ) (met-matches k rs (rw differ at h))
  ]

module _ {E D V : Type 0} where
  -- The merge join with the keys and the columns of a hash join.
  abbrev pub merge_of : HashJoinExecutor E D V → MergeJoinExecutor E D V
  merge_of self = record {
    left_keys = self.left_keys;
    right_keys = self.right_keys;
    left_types = self.left_types;
    right_types = self.right_types;
  }

module _ {E D V : Type 0} (null : V) (o : Ord (List V)) (t : JoinType)
    (self : HashJoinExecutor E D V) (left_key right_key : List V → List V) where
  abbrev right_alone : List (List V) → List (List V) → List (List V)
  right_alone left right =
      right_only null t (merge_of self) (alone o.equality right_key left_key right left)

  -- The pairs and the rows of the right side without a match, as they come one by one.
  joined-pairs :
      (left right : List (List V))
      → Perm
          (pairs o.equality left_key right_key left right ++ right_alone left right)
          (flat_map (joined null o.equality t self left_key right_key left) right)
  joined-pairs left [] = elim (Bool-cases (keeps_right t)) [
    | inl keeps ↦ rw keeps Perm.rfl
    | inr drops ↦ rw drops Perm.rfl
  ]
  joined-pairs left (r ∷ right) =
      let pairs_ = pairs o.equality left_key right_key left right in
      let here = beside o.equality left_key right_key left r in
      elim (Bool-cases (met o.equality left_key (map left_key left) (right_key r))) [
        | inl met_ ↦
            rw
              (
                met_,
                or_else-map (λ l. l ++ r) (matches o.equality left_key (right_key r) left)
                    (if keeps_right t then (pad null self.left_types ++ r) ∷ [] else [])
                    (met-matches o.equality left_key (right_key r) left met_),
                append_assoc here pairs_ (right_alone left right),
              )
              (Perm.append_left here (joined-pairs left right))
        | inr unmet_ ↦
            let mine = right_only null t (merge_of self) (r ∷ []) in
            rw
              (
                unmet_,
                unmet-matches o.equality left_key (right_key r) left unmet_,
                right_only-append null o t (merge_of self) (r ∷ [])
                    (alone o.equality right_key left_key right left),
              )
              (Perm.trans (Perm-front pairs_ mine (right_alone left right))
                (Perm.append_left mine (joined-pairs left right)))
      ]

  -- A merge join gives a permutation of what the hash join of the same sides gives, for each of the
  -- four types of join, if both sides end without an error, their rows stand in ascending order of
  -- their keys and no key is the empty list, whatever the order in which the hash map is gone through.
  pub merge_joins_agree :
      (order : HashMap V → HashMap V) (left right : Stream E (List (List V)))
      → ((m : HashMap V) → Perm (order m) m)
      → ((row : List V) → is_empty (left_key row) ≡ false)
      → ((row : List V) → is_empty (right_key row) ≡ false)
      → IsRowWise self.left_keys left_key
      → IsRowWise self.right_keys right_key
      → ending left ≡ ok tt
      → ending right ≡ ok tt
      → IsSorted o left_key (rows left)
      → IsSorted o right_key (rows right)
      → Perm
          (rows (Merge.execute null o t (merge_of self) left right))
          (rows (Hash.execute null o.equality t order self left right))
  merge_joins_agree order left right permutes left_some right_some left_wise right_wise el er ls
        rs =
      let (alone_, found, permuted) =
        rows-execute_hash null o.equality self left_key right_key t order left_wise right_wise
          permutes left right el er in
      let merged =
        rows-execute_merge null o t (merge_of self) left_key right_key left right left_some
          right_some left_wise right_wise el er ls rs in
      let pairs_ = pairs o.equality left_key right_key (rows left) (rows right) in
      let mine = left_alone null o.equality self left_key right_key t (rows left) (rows right) in
      rw found (
        Perm.trans merged (
          Perm.trans {l₂ = (pairs_ ++ right_alone (rows left) (rows right)) ++ mine}
            (rw (append_assoc pairs_ (right_alone (rows left) (rows right)) mine)
              (Perm.append_left pairs_ (perm_append_comm mine _)))
            (Perm.trans (Perm.append_right mine (joined-pairs (rows left) (rows right)))
              (Perm.append_left _ (Perm.symm permuted)))))
