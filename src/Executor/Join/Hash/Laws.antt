-- ===== src/Executor/Join/Hash/Laws.antt =====
-- What a hash join gives, by the rows of its two sides.
use mathlib.Core.List.{Perm}
use mathlib.Core.List.Perm
use risinglight.Prelude.{
  ◌≡◌, refl, ap, ◌∙◌, List, [], ◌++◌, map, ok, if◌then◌else◌, PartialEq, append_assoc, append-nil,
  arith, flat_map, All, err≢ok, panic≢ok, inl, inr, Bool-cases,
}
use risinglight.Executor.Stream.{Stream, rows, ending}
use risinglight.Executor.Evaluate.{IsRowWise}
use risinglight.Executor.Builder.{new, processing_window_size}
use risinglight.Executor.Builder.Laws.{new-IsValid}
use risinglight.Executor.Join.{JoinType, keeps_left, pad}
use risinglight.Executor.Join.Hash.{HashJoinExecutor, HashMap, build, unmatched_rows, execute}
use risinglight.Executor.Join.Hash.Probe.{Holds, joined, marked, add_rows-Holds}
use risinglight.Executor.Join.Hash.Outer.{unmet, leftover, leftover-add_rows}
use risinglight.Executor.Join.Hash.Marks.{IsFresh, add_rows-IsFresh, unmatched_rows-marked}
use risinglight.Executor.Join.Hash.Rows.{rows-probe}

module _ {E D V : Type 0} (null : V) (p : PartialEq (List V)) (self : HashJoinExecutor E D V)
    (left_key right_key : List V → List V) where
  -- The table that has the rows `rows`, before any probe.
  record Built (hash_map : HashMap V) (rows : List (List V)) : Type 0 where
    holds : Holds p left_key hash_map rows
    fresh : All IsFresh hash_map
    left_over :
        (keys : List (List V))
        → Perm (flat_map (leftover p left_key keys) hash_map) (unmet p left_key keys rows)

  build-Built :
      IsRowWise self.left_keys left_key
      → (left : Stream E (List (List V))) (before : List (List V)) (hash_map : HashMap V)
      → Built hash_map before
      → ending left ≡ ok tt
      → (built : HashMap V) × (build null p self left hash_map ≡ ok built)
        × Built built (before ++ rows left)
  unfolding build
  build-Built row_wise Stream.done before hash_map h e = (hash_map, refl, rw (append-nil before) h)
  build-Built row_wise (Stream.failed x) before hash_map h e = absurd (err≢ok e)
  build-Built row_wise Stream.panicked before hash_map h e = absurd (panic≢ok e)
  build-Built row_wise (Stream.yielded chunk left) before hash_map h e =
      rw (row_wise chunk, ← append_assoc before chunk (rows left))
        (build-Built row_wise left (before ++ chunk) _
          (record {
            holds = add_rows-Holds p left_key chunk before hash_map h.holds;
            fresh = add_rows-IsFresh p left_key chunk hash_map h.fresh;
            left_over =
                λ keys. leftover-add_rows p left_key keys chunk before hash_map (h.left_over keys);
          })
          e)

  empty-Built : Built [] []
  empty-Built = record { holds = λ key. refl; fresh = tt; left_over = λ keys. Perm.rfl }

  -- The rows that a join gives for the left side alone at the end.
  abbrev pub left_alone : JoinType → List (List V) → List (List V) → List (List V)
  left_alone t left right =
      if keeps_left t
      then map (λ row. row ++ pad null self.right_types)
          (unmet p left_key (map right_key right) left)
      else []

  -- A hash join of two sides that end without an error gives the matches of each row of the right side,
  -- in the order of the right side, with the rows of the left side for each of them in their own
  -- order, and nulls beside a row without a match if the join keeps the right side. Behind them come, if
  -- the join keeps the left side, the rows of the left side without a match beside nulls, in some
  -- order.
  pub rows-execute_hash :
      (t : JoinType) (order : HashMap V → HashMap V)
      → IsRowWise self.left_keys left_key
      → IsRowWise self.right_keys right_key
      → ((m : HashMap V) → Perm (order m) m)
      → (left right : Stream E (List (List V))) → ending left ≡ ok tt
      → ending right ≡ ok tt
      → (alone : List (List V)) × (rows (execute null p t order self left right)
          ≡ flat_map (joined null p t self left_key right_key (rows left)) (rows right) ++ alone)
        × Perm alone (left_alone t (rows left) (rows right))
  unfolding execute
  rows-execute_hash t order left_wise right_wise permutes left right el er =
      let (hash_map, built, b) = build-Built left_wise left [] [] empty-Built el in
      let keys = map right_key (rows right) in
      let matched = flat_map (joined null p t self left_key right_key (rows left)) (rows right) in
      let alone : List (List V) =
        if keeps_left t then unmatched_rows null p t order self (marked p keys hash_map) else [] in
      (
        alone,
        rw built (
            rows-probe null p t self left_key right_key order right_wise right (rows left) hash_map
              (new processing_window_size) b.holds
              (new-IsValid processing_window_size (omega arith)) er
            ∙ ap (λ (ys : List (List V)). matched ++ ys) (append-nil alone)),
        elim (Bool-cases (keeps_left t)) [
          | inl keeps ↦ rw keeps (
              Perm.trans
                (unmatched_rows-marked p left_key null self t order keys hash_map permutes b.fresh)
                (Perm.map _ (b.left_over keys)))
          | inr drops ↦ rw drops Perm.rfl
        ],
      )
