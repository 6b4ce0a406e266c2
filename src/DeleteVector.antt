-- ===== src/DeleteVector.antt =====
-- storage/secondary/delete_vector.rs: `DeleteVector`, the deleted rows of a rowset, and how it
-- hides them from a bitmap of visible rows.
use risinglight.Prelude.{
  ℕ, suc, ◌+◌, ◌%◌, ◌^◌, Bool, true, false, List, [], ◌∷◌, ◌==◌, leb, ltb, if◌then◌else◌, drop,
}
mod Laws
mod Tests

pub record DeleteVector : Type 0 where
  pub dv_id : ℕ
  pub rowset_id : ℕ
  pub deletes : List ℕ

-- `sort_unstable` on numbers: the order of equal ones does not show.
abbrev pub insert_sorted : ℕ → List ℕ → List ℕ
insert_sorted x [] = x ∷ []
insert_sorted x (y ∷ ys) = if leb x y then x ∷ y ∷ ys else y ∷ insert_sorted x ys

abbrev pub sort : List ℕ → List ℕ
sort [] = []
sort (x ∷ xs) = insert_sorted x (sort xs)

-- `dedup`: an element equal to the last one that is kept goes.
abbrev pub dedup_after : ℕ → List ℕ → List ℕ
dedup_after last [] = []
dedup_after last (x ∷ xs) = if x == last then dedup_after last xs else x ∷ dedup_after x xs

abbrev pub dedup : List ℕ → List ℕ
dedup [] = []
dedup (x ∷ xs) = x ∷ dedup_after x xs

-- `partition_point(|x| *x < limit)` of a list in which those come first
abbrev pub partition_point : ℕ → List ℕ → ℕ
partition_point limit [] = 0
partition_point limit (x ∷ xs) = if ltb x limit then suc (partition_point limit xs) else 0

-- The deletions are given by their row ids.
unfoldable pub new : ℕ → ℕ → List ℕ → DeleteVector
new dv_id rowset_id deletes = record {
  dv_id = dv_id;
  rowset_id = rowset_id;
  deletes = dedup (sort deletes);
}

-- The loop over the bitmap, with the deletions that the iterator has left.
unfoldable pub apply_loop : ℕ → List ℕ → List Bool → List Bool
apply_loop row_id iter [] = []
apply_loop row_id [] (bit ∷ data_left) = bit ∷ apply_loop (row_id + 1) [] data_left
apply_loop row_id (unset_row_id ∷ iter) (bit ∷ data_left) =
    let hidden = apply_loop (row_id + 1) iter data_left in
    let seen = apply_loop (row_id + 1) (unset_row_id ∷ iter) data_left in
    if unset_row_id == row_id % 2 ^ 32 then false ∷ hidden else bit ∷ seen

unfoldable pub apply_to : DeleteVector → List Bool → ℕ → List Bool
unfolding apply_loop
apply_to self bits offset_row_id =
    let pos = partition_point offset_row_id self.deletes in
    apply_loop offset_row_id (drop pos self.deletes) bits
