-- ===== src/Version/Manager.antt =====
-- storage/secondary/version_manager.rs: `VersionManager`. Each critical section of the inner lock is
-- one function on the inner state. The objects of rowsets and delete vectors and the entries of
-- the catalog are parameters: the manager only stores and hands on what it gets.
use risinglight.Prelude.{
  ℕ, suc, ◌+◌, min, ◌≤◌, Bool, true, false, not, ◌&&◌, ◌||◌, ◌==◌, leb, if◌then◌else◌, Option, none,
  some, List, [], ◌∷◌, ◌++◌, Result, Never, ok, panic, unwrap, unwrap_or, assert, checked_sub,
  ◌>>=◌, ◌>>◌,
}
use risinglight.Prelude.Map.{lookup, insert, remove}
mod Guarded
mod Frames
mod ApplyRowSet
mod Apply
mod Vacuum
mod System
mod Invariant
mod Counts
mod Steps
mod Safety
mod Tests
use risinglight.Version.Snapshot.{
  Snapshot, default, add_rowset, delete_rowset, add_dv as add_dv_to, delete_dv as delete_dv_from,
}

-- storage/secondary/manifest.rs: the entries. Of a `TableRefId` only the id of the table is kept: the
-- manager uses no more of it.
pub record AddRowSetEntry : Type 0 where
  pub table_id : ℕ
  pub rowset_id : ℕ

pub record DeleteRowsetEntry : Type 0 where
  pub table_id : ℕ
  pub rowset_id : ℕ

pub record AddDvEntry : Type 0 where
  pub table_id : ℕ
  pub dv_id : ℕ
  pub rowset_id : ℕ

pub record DeleteDvEntry : Type 0 where
  pub table_id : ℕ
  pub dv_id : ℕ
  pub rowset_id : ℕ

pub data ManifestOperation (Create Drop : Type 0) : Type 0 where
  create_table : Create → ManifestOperation Create Drop
  drop_table : Drop → ManifestOperation Create Drop
  add_row_set : AddRowSetEntry → ManifestOperation Create Drop
  delete_row_set : DeleteRowsetEntry → ManifestOperation Create Drop
  add_dv : AddDvEntry → ManifestOperation Create Drop
  delete_dv : DeleteDvEntry → ManifestOperation Create Drop
  begin : ManifestOperation Create Drop
  end : ManifestOperation Create Drop

pub data EpochOp (Create Drop Rowset Dv : Type 0) : Type 0 where
  create_table : Create → EpochOp Create Drop Rowset Dv
  drop_table : Drop → EpochOp Create Drop Rowset Dv
  add_row_set : AddRowSetEntry → Rowset → EpochOp Create Drop Rowset Dv
  delete_row_set : DeleteRowsetEntry → EpochOp Create Drop Rowset Dv
  add_dv : AddDvEntry → Dv → EpochOp Create Drop Rowset Dv
  delete_dv : DeleteDvEntry → EpochOp Create Drop Rowset Dv

-- A map whose keys are pairs of ids is a function.
abbrev pub Pool : Type 0 → Type 0
Pool V = ℕ → ℕ → Option V

abbrev pub same_id : ℕ → ℕ → ℕ → ℕ → Bool
same_id t r t' r' = (t' == t) && (r' == r)

abbrev pub pool_insert : {V : Type 0} → ℕ → ℕ → V → Pool V → Pool V
pool_insert t r v pool = λ t' r'. if same_id t r t' r' then some v else pool t' r'

abbrev pub pool_remove : {V : Type 0} → ℕ → ℕ → Pool V → Pool V
pool_remove t r pool = λ t' r'. if same_id t r t' r' then none else pool t' r'

pub record VersionManagerInner (Rowset Dv : Type 0) : Type 0 where
  pub status : List (ℕ × Snapshot)
  pub rowsets : Pool Rowset
  pub dvs : Pool Dv
  pub ref_cnt : List (ℕ × ℕ)
  pub rowset_deletion_to_apply : List (ℕ × List (ℕ × ℕ))
  pub epoch : ℕ

pub record Version : Type 0 where
  pub epoch : ℕ
  pub snapshot : Snapshot

-- The local variables of `commit_changes_with_custom_manifest` between its two critical sections.
pub record Commit (Create Drop : Type 0) : Type 0 where
  pub current_epoch : ℕ
  pub snapshot : Snapshot
  pub entries : List (ManifestOperation Create Drop)
  pub deletions : List (ℕ × ℕ)

module _ {Rowset Dv : Type 0} where
  -- `status.get(&current_epoch).map(..).unwrap_or_default()`
  abbrev pub current_snapshot : VersionManagerInner Rowset Dv → Snapshot
  current_snapshot inner = unwrap_or default (lookup inner.epoch inner.status)

module _ {Create Drop Rowset Dv : Type 0} where
  -- The body of the loop over the operations. It changes the pools of the inner state, and the
  -- snapshot, entries and deletions that are still the committer's own.
  unfoldable pub apply_op :
      EpochOp Create Drop Rowset Dv
      → VersionManagerInner Rowset Dv × Commit Create Drop
      → Result Never (VersionManagerInner Rowset Dv × Commit Create Drop)
  apply_op (EpochOp.create_table entry) (inner, c) =
      ok (inner, record c { entries = c.entries ++ ManifestOperation.create_table entry ∷ [] })
  apply_op (EpochOp.drop_table entry) (inner, c) =
      ok (inner, record c { entries = c.entries ++ ManifestOperation.drop_table entry ∷ [] })
  apply_op (EpochOp.add_row_set entry rowset) (inner, c) = ok (
    record inner { rowsets = pool_insert entry.table_id entry.rowset_id rowset inner.rowsets },
    record c {
      snapshot = add_rowset c.snapshot entry.table_id entry.rowset_id;
      entries = c.entries ++ ManifestOperation.add_row_set entry ∷ [];
    },
  )
  apply_op (EpochOp.delete_row_set entry) (inner, c) = do
    snapshot ← delete_rowset c.snapshot entry.table_id entry.rowset_id
    ok (
      inner,
      record c {
        snapshot = snapshot;
        entries = c.entries ++ ManifestOperation.delete_row_set entry ∷ [];
        deletions = c.deletions ++ (entry.table_id, entry.rowset_id) ∷ [];
      },
    )
  apply_op (EpochOp.add_dv entry dv) (inner, c) = ok (
    record inner { dvs = pool_insert entry.table_id entry.dv_id dv inner.dvs },
    record c {
      snapshot = add_dv_to c.snapshot entry.table_id entry.rowset_id entry.dv_id;
      entries = c.entries ++ ManifestOperation.add_dv entry ∷ [];
    },
  )
  apply_op (EpochOp.delete_dv entry) (inner, c) = do
    snapshot ← delete_dv_from c.snapshot entry.table_id entry.rowset_id entry.dv_id
    ok (
      inner,
      record c {
        snapshot = snapshot;
        entries = c.entries ++ ManifestOperation.delete_dv entry ∷ [];
      },
    )

  unfoldable pub apply_ops :
      List (EpochOp Create Drop Rowset Dv)
      → VersionManagerInner Rowset Dv × Commit Create Drop
      → Result Never (VersionManagerInner Rowset Dv × Commit Create Drop)
  unfolding apply_op
  apply_ops [] s = ok s
  apply_ops (op ∷ ops) s = apply_op op s >>= λ s'. apply_ops ops s'

  -- The first critical section of `commit_changes_with_custom_manifest`.
  unfoldable pub begin_commit :
      List (EpochOp Create Drop Rowset Dv)
      → VersionManagerInner Rowset Dv
      → Result Never (VersionManagerInner Rowset Dv × Commit Create Drop)
  unfolding apply_ops
  begin_commit ops inner = apply_ops ops (
    inner,
    record {
      current_epoch = inner.epoch;
      snapshot = current_snapshot inner;
      entries = [];
      deletions = [];
    },
  )

  -- Its second critical section, once the manifest holds the entries.
  unfoldable pub end_commit :
      Commit Create Drop
      → VersionManagerInner Rowset Dv
      → Result Never (VersionManagerInner Rowset Dv × ℕ)
  end_commit c inner = do
    assert (inner.epoch == c.current_epoch)
    let epoch = inner.epoch + 1
    ok (
      record inner {
        epoch = epoch;
        status = insert epoch c.snapshot inner.status;
        rowset_deletion_to_apply = insert epoch c.deletions inner.rowset_deletion_to_apply;
      },
      epoch,
    )

-- `self.tx.send(()).unwrap()`; `listening` tells whether the receiver of the channel is still there.
abbrev pub notify : Bool → Result Never Bool
notify true = ok true
notify false = panic

module _ {Rowset Dv : Type 0} where
  unfoldable pub pin :
      VersionManagerInner Rowset Dv → Result Never (VersionManagerInner Rowset Dv × Version)
  pin inner = do
    let epoch = inner.epoch
    let count = unwrap_or 0 (lookup epoch inner.ref_cnt)
    snapshot ← unwrap (lookup epoch inner.status)
    ok (
      record inner { ref_cnt = insert epoch (count + 1) inner.ref_cnt },
      record { epoch = epoch; snapshot = snapshot },
    )

  -- `drop` of a `Version`. The count is written before the vacuum is notified, so its panic leaves the
  -- state changed: the result is that state beside whether the vacuum was notified, or the panic.
  unfoldable pub unpin :
      Bool
      → Version
      → VersionManagerInner Rowset Dv
      → Result Never (VersionManagerInner Rowset Dv × Result Never Bool)
  unpin listening version inner = do
    count ← unwrap (lookup version.epoch inner.ref_cnt)
    left ← checked_sub count 1
    ok (
        if left == 0
        then (
          record inner { ref_cnt = remove version.epoch inner.ref_cnt },
          if not (version.epoch == inner.epoch) then notify listening else ok false,
        )
        else (record inner { ref_cnt = insert version.epoch left inner.ref_cnt }, ok false))

  unfoldable pub get_rowset : VersionManagerInner Rowset Dv → ℕ → ℕ → Result Never Rowset
  get_rowset inner table_id rowset_id = unwrap (inner.rowsets table_id rowset_id)

  unfoldable pub get_dv : VersionManagerInner Rowset Dv → ℕ → ℕ → Result Never Dv
  get_dv inner table_id dv_id = unwrap (inner.dvs table_id dv_id)

-- `ref_cnt.keys().min()`
abbrev pub min_key : {V : Type 0} → List (ℕ × V) → Option ℕ
min_key [] = none
min_key ((k, v) ∷ m) = elim (min_key m) [ none ↦ some k | some n ↦ some (min k n) ]

abbrev pub can_apply : ℕ → ℕ → Bool
can_apply epoch vacuum_epoch = leb epoch vacuum_epoch

-- The deletions to apply, and those that are kept.
abbrev pub applied : ℕ → List (ℕ × List (ℕ × ℕ)) → List (ℕ × ℕ)
applied vacuum_epoch [] = []
applied vacuum_epoch ((epoch, deletion) ∷ m) =
    if can_apply epoch vacuum_epoch
    then deletion ++ applied vacuum_epoch m
    else applied vacuum_epoch m

abbrev pub retained : ℕ → List (ℕ × List (ℕ × ℕ)) → List (ℕ × List (ℕ × ℕ))
retained vacuum_epoch [] = []
retained vacuum_epoch ((epoch, deletion) ∷ m) =
    if can_apply epoch vacuum_epoch
    then retained vacuum_epoch m
    else (epoch, deletion) ∷ retained vacuum_epoch m

-- Each deleted rowset leaves the pool. `shared` tells of which rowsets someone else holds the
-- object: `Arc::try_unwrap` fails for these. A rowset that is no longer there is only logged.
unfoldable pub remove_rowsets :
    {Rowset : Type 0} → (ℕ → ℕ → Bool) → List (ℕ × ℕ) → Pool Rowset → Result Never (Pool Rowset)
remove_rowsets shared [] pool = ok pool
remove_rowsets shared ((t, r) ∷ deletions) pool = elim (pool t r) [
  | none ↦ remove_rowsets shared deletions pool
  | some rowset ↦
      if shared t r then panic else remove_rowsets shared deletions (pool_remove t r pool)
]

module _ {Rowset Dv : Type 0} where
  unfoldable pub find_vacuum :
      (ℕ → ℕ → Bool)
      → VersionManagerInner Rowset Dv
      → Result Never (VersionManagerInner Rowset Dv × List (ℕ × ℕ))
  unfolding remove_rowsets
  find_vacuum shared inner = do
    let vacuum_epoch = unwrap_or inner.epoch (min_key inner.ref_cnt)
    let deletions = applied vacuum_epoch inner.rowset_deletion_to_apply
    rowsets ← remove_rowsets shared deletions inner.rowsets
    ok (
      record inner {
        rowsets = rowsets;
        rowset_deletion_to_apply = retained vacuum_epoch inner.rowset_deletion_to_apply;
      },
      deletions,
    )
