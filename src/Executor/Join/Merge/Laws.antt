-- ===== src/Executor/Join/Merge/Laws.antt =====
-- What a merge join gives, by the rows of its two sides.
use mathlib.Core.List.{Perm}
use mathlib.Core.List.Perm
use risinglight.Prelude.{
  ◌≡◌, refl, sym, Bool, true, false, List, [], ◌∷◌, ◌++◌, ok, if◌then◌else◌, inl, inr, Bool-cases,
  arith, subst,
}
use risinglight.Prelude.Ord.{Ord}
use risinglight.Executor.Stream.{Stream, rows, ending}
use risinglight.Executor.Evaluate.{IsRowWise}
use risinglight.Executor.Builder.{DataChunkBuilder, new, processing_window_size}
use risinglight.Executor.Builder.Laws.{IsValid, new-IsValid, rows-push_rows, rows-flush}
use risinglight.Executor.Join.{JoinType, keeps_left, keeps_right}
use risinglight.Executor.Join.Merge.{
  MergeJoinExecutor, Group, is_empty, cross_groups, left_only, right_only, merge_loop, execute,
}
use risinglight.Executor.Join.Merge.Groups.{
  of_list, flat, groups_of, Above, Ascending, IsSorted, flat-groups_of, groups_of-Ascending,
  group_by_keys_lem,
}
use risinglight.Executor.Join.Merge.Pairs.{Keyed}
use risinglight.Executor.Join.Merge.Steps.{
  Above-Missing, head-Missing, join_rows, join_rows-both, join_rows-left, join_rows-right,
}

if_nil : (V : Type 0) (b : Bool) → if◌then◌else◌ {A = List (List V)} b [] [] ≡ []
if_nil V true = refl
if_nil V false = refl

module _ {E D V : Type 0} (null : V) (o : Ord (List V)) (t : JoinType)
    (self : MergeJoinExecutor E D V) where
  -- The rows that the loop gives for the groups that are left.
  merged : List (Group V) → List (Group V) → List (List V)
  merged [] [] = []
  merged [] ((rkey, rchunk) ∷ right) = right_only null t self rchunk ++ merged [] right
  merged ((lkey, lchunk) ∷ left) [] = left_only null t self lchunk ++ merged left []
  merged ((lkey, lchunk) ∷ left) ((rkey, rchunk) ∷ right) =
      let both = merged left right in
      let next_left = merged left ((rkey, rchunk) ∷ right) in
      let next_right = merged ((lkey, lchunk) ∷ left) right in
      if o.equality.eq lkey rkey
      then cross_groups lchunk rchunk ++ both
      else if o.lt lkey rkey
      then left_only null t self lchunk ++ next_left
      else if o.lt rkey lkey
      then right_only null t self rchunk ++ next_right
      else []

  rows-merge_loop :
      (left right : List (Group V)) (b : DataChunkBuilder (List V))
      → IsValid b
      → rows (merge_loop null o t self (of_list left) (of_list right) b)
        ≡ b.buffer ++ merged left right
  unfolding merge_loop merged
  rows-merge_loop [] [] b v = rows-flush E b v
  rows-merge_loop [] ((rkey, rchunk) ∷ right) b v =
      rows-push_rows (right_only null t self rchunk) b _ (merged [] right) v
        (λ b' v'. rows-merge_loop [] right b' v')
  rows-merge_loop ((lkey, lchunk) ∷ left) [] b v =
      rows-push_rows (left_only null t self lchunk) b _ (merged left []) v
        (λ b' v'. rows-merge_loop left [] b' v')
  rows-merge_loop ((lkey, lchunk) ∷ left) ((rkey, rchunk) ∷ right) b v =
      elim (Bool-cases (o.equality.eq lkey rkey)) [
        | inl same ↦ rw same (
            rows-push_rows (cross_groups lchunk rchunk) b _ (merged left right) v
              (λ b' v'. rows-merge_loop left right b' v'))
        | inr differ ↦ elim (Bool-cases (o.lt lkey rkey)) [
          | inl less ↦
              rw (differ, less)
                (rows-push_rows (left_only null t self lchunk) b _
                  (merged left ((rkey, rchunk) ∷ right)) v
                  (λ b' v'. rows-merge_loop left ((rkey, rchunk) ∷ right) b' v'))
          | inr more ↦
              rw (differ, more, o.lt_total lkey rkey differ more)
                (rows-push_rows (right_only null t self rchunk) b _
                  (merged ((lkey, lchunk) ∷ left) right) v
                  (λ b' v'. rows-merge_loop ((lkey, lchunk) ∷ left) right b' v'))
        ]
      ]

  module _ (left_key right_key : List V → List V) where
    -- Groups in ascending order of their keys give the rows of the join.
    merged-join_rows :
        (left right : List (Group V))
        → Ascending o left_key left
        → Ascending o right_key right
        → Perm
            (merged left right)
            (join_rows null o t self left_key right_key (flat left) (flat right))
    unfolding merged
    merged-join_rows [] [] la ra = rw (if_nil V (keeps_left t), if_nil V (keeps_right t)) Perm.rfl
    merged-join_rows [] ((rkey, rchunk) ∷ right) la ra =
        Perm.trans (Perm.append_left _ (merged-join_rows [] right la ra.3))
          (join_rows-right null o t self left_key right_key rkey rchunk [] (flat right) ra.0 tt)
    merged-join_rows ((lkey, lchunk) ∷ left) [] la ra =
        Perm.trans (Perm.append_left _ (merged-join_rows left [] la.3 ra))
          (join_rows-left null o t self left_key right_key lkey lchunk (flat left) [] la.0 tt)
    merged-join_rows ((lkey, lchunk) ∷ left) ((rkey, rchunk) ∷ right) la ra =
        elim (Bool-cases (o.equality.eq lkey rkey)) [
          | inl same ↦
              let e : rkey ≡ lkey = sym ((o.equality.eq_iff lkey rkey).0 same) in
              let rkeyed : Keyed o.equality right_key lkey rchunk =
                subst (λ k. Keyed o.equality right_key k rchunk) e ra.0 in
              let rabove : Above o right_key lkey right =
                subst (λ k. Above o right_key k right) e ra.2 in
              rw same (
                Perm.trans (Perm.append_left _ (merged-join_rows left right la.3 ra.3)) (
                  join_rows-both null o t self left_key right_key lkey lchunk (flat left) rchunk
                    (flat right) la.0 rkeyed la.1 ra.1
                    (Above-Missing o left_key lkey left la.2 la.3)
                    (Above-Missing o right_key lkey right rabove ra.3)))
          | inr differ ↦ elim (Bool-cases (o.lt lkey rkey)) [
            | inl less ↦
                rw (differ, less)
                  (Perm.trans
                    (Perm.append_left _ (merged-join_rows left ((rkey, rchunk) ∷ right) la.3 ra))
                    (join_rows-left null o t self left_key right_key lkey lchunk (flat left)
                      (rchunk ++ flat right) la.0
                      (head-Missing o right_key lkey rkey rchunk right less ra)))
            | inr more ↦
                let less = o.lt_total lkey rkey differ more in
                rw (differ, more, less)
                  (Perm.trans
                    (Perm.append_left _ (merged-join_rows ((lkey, lchunk) ∷ left) right la ra.3))
                    (join_rows-right null o t self left_key right_key rkey rchunk
                      (lchunk ++ flat left) (flat right) ra.0
                      (head-Missing o left_key rkey lkey lchunk left less la)))
          ]
        ]

    -- A merge join of two sides that end without an error, whose rows stand in ascending order of
    -- their keys, the keys not the empty list, gives a permutation of the following rows: for each row
    -- of the right side the rows of the left side with its keys, each beside it; if the join keeps the
    -- left side, its rows whose keys the right side lacks, beside nulls; and if it keeps the right
    -- side, its rows whose keys the left side lacks, beside nulls.
    pub rows-execute_merge :
        (left right : Stream E (List (List V)))
        → ((row : List V) → is_empty (left_key row) ≡ false)
        → ((row : List V) → is_empty (right_key row) ≡ false)
        → IsRowWise self.left_keys left_key
        → IsRowWise self.right_keys right_key
        → ending left ≡ ok tt
        → ending right ≡ ok tt
        → IsSorted o left_key (rows left)
        → IsSorted o right_key (rows right)
        → Perm
            (rows (execute null o t self left right))
            (join_rows null o t self left_key right_key (rows left) (rows right))
    unfolding execute new
    rows-execute_merge left right left_some right_some left_wise right_wise el er ls rs =
        let lgroups = groups_of o left_key (rows left) in
        let rgroups = groups_of o right_key (rows right) in
        let joined : Perm (merged lgroups rgroups)
            (join_rows null o t self left_key right_key (flat lgroups) (flat rgroups)) =
          merged-join_rows lgroups rgroups (groups_of-Ascending o left_key (rows left) ls)
            (groups_of-Ascending o right_key (rows right) rs) in
        rw
          (
            group_by_keys_lem o left_key left_some self.left_keys left_wise left el,
            group_by_keys_lem o right_key right_some self.right_keys right_wise right er,
            rows-merge_loop lgroups rgroups (new processing_window_size)
                (new-IsValid processing_window_size (omega arith)),
          )
          (rw (flat-groups_of o left_key (rows left), flat-groups_of o right_key (rows right)) at
            joined)
