-- ===== src/Version/Manager/Guarded.antt =====
-- What keeps the objects of a snapshot in the pools: the invariant over the snapshots in use.
use risinglight.Prelude.{is_some, ℕ, ◌≤◌, ◌≡◌, Bool, true, false, ◌||◌, List, [], ◌∷◌, All}
use risinglight.Version.Snapshot.{Snapshot}
use risinglight.Version.Snapshot.Laws.{has_rowset, has_dv}
use risinglight.Version.Manager.{VersionManagerInner, Version, Commit, Pool, EpochOp, same_id}

-- The ids of all rowsets that were ever added.
abbrev pub Ids : Type 0
Ids = ℕ → ℕ → Bool

abbrev pub Gone : Snapshot → ℕ × ℕ → Type 0
Gone s d = has_rowset s d.0 d.1 ≡ false

abbrev pub Known : Ids → Snapshot → Type 0
Known used s = (t r : ℕ) → has_rowset s t r ≡ true → used t r ≡ true

module _ {Rowset Dv : Type 0} where
  -- The pools have every object that the snapshot names.
  pub record Live (rowsets : Pool Rowset) (dvs : Pool Dv) (s : Snapshot) : Type 0 where
    pub live_rowset : (t r : ℕ) → has_rowset s t r ≡ true → is_some (rowsets t r) ≡ true
    pub live_dv : (t r d : ℕ) → has_dv s t r d ≡ true → is_some (dvs t d) ≡ true

-- A recorded deletion is of a rowset that no snapshot from its epoch on has.
abbrev pub IsDeletion : Ids → List Version → ℕ → ℕ × ℕ → Type 0
IsDeletion used versions k d =
    (used d.0 d.1 ≡ true) × All (λ v. k ≤ v.epoch → Gone v.snapshot d) versions

abbrev pub IsEntry : Ids → List Version → ℕ → ℕ × List (ℕ × ℕ) → Type 0
IsEntry used versions epoch entry =
    (entry.0 ≤ epoch) × All (IsDeletion used versions entry.0) entry.1

module _ {Rowset Dv : Type 0} where
  -- The snapshots in use, `versions`, are safe.
  pub record Guarded (inner : VersionManagerInner Rowset Dv) (used : Ids) (versions : List Version)
      : Type 0 where
    pub live : All (λ v. Live inner.rowsets inner.dvs v.snapshot) versions
    pub known : All (λ v. Known used v.snapshot) versions
    pub bound : All (λ v. v.epoch ≤ inner.epoch) versions
    pub gone : All (IsEntry used versions inner.epoch) inner.rowset_deletion_to_apply

-- The code's new rowsets have ids that are new, and it deletes rowsets that were added once.
module _ {Create Drop Rowset Dv : Type 0} where
  abbrev pub IsFresh : Ids → EpochOp Create Drop Rowset Dv → Type 0
  IsFresh used (EpochOp.add_row_set entry rowset) = used entry.table_id entry.rowset_id ≡ false
  IsFresh used (EpochOp.delete_row_set entry) = used entry.table_id entry.rowset_id ≡ true
  IsFresh used op = Unit

  abbrev pub mark : Ids → EpochOp Create Drop Rowset Dv → Ids
  mark used (EpochOp.add_row_set entry rowset) =
      λ t r. same_id entry.table_id entry.rowset_id t r || used t r
  mark used op = used

  abbrev pub AreFresh : Ids → List (EpochOp Create Drop Rowset Dv) → Type 0
  AreFresh used [] = Unit
  AreFresh used (op ∷ ops) = IsFresh used op × AreFresh (mark used op) ops

  abbrev pub mark_all : Ids → List (EpochOp Create Drop Rowset Dv) → Ids
  mark_all used [] = used
  mark_all used (op ∷ ops) = mark_all (mark used op) ops

-- The committer's own list of deletions.
abbrev pub AreDeletions : {Create Drop : Type 0} → Ids → Commit Create Drop → Type 0
AreDeletions used c = All (λ d. (used d.0 d.1 ≡ true) × Gone c.snapshot d) c.deletions
