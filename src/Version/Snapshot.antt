-- ===== src/Version/Snapshot.antt =====
-- storage/secondary/version_manager.rs: `Snapshot`, the rowsets and delete vectors of one epoch by
-- their ids.
use risinglight.Prelude.{
  ℕ, Bool, true, false, Option, none, some, List, [], Result, Never, ok, unwrap, ◌>>=◌,
  if◌then◌else◌,
}
use risinglight.Prelude.Map.{lookup, insert, remove, contains, add_to, remove_from, is_empty}
pub mod Laws
mod Tests

pub record Snapshot : Type 0 where
  pub rowsets : List (ℕ × List ℕ)
  pub dvs : List (ℕ × List (ℕ × List ℕ))

-- `Snapshot::default()`
abbrev pub default : Snapshot
default = record { rowsets = []; dvs = [] }

-- `entry(..).or_default()`
abbrev pub or_default {ℓ} : {A : Type ℓ} → Option (List A) → List A
or_default none = []
or_default (some s) = s

-- A map in which an entry that has become empty is removed.
abbrev pub put_or_remove : {A : Type 0} → ℕ → List A → List (ℕ × List A) → List (ℕ × List A)
put_or_remove key s m = if is_empty s then remove key m else insert key s m

unfoldable pub add_rowset : Snapshot → ℕ → ℕ → Snapshot
add_rowset s table_id rowset_id = record {
  rowsets = insert table_id (add_to rowset_id (or_default (lookup table_id s.rowsets))) s.rowsets;
  dvs = s.dvs;
}

unfoldable pub delete_rowset : Snapshot → ℕ → ℕ → Result Never Snapshot
delete_rowset s table_id rowset_id = do
  table ← unwrap (lookup table_id s.rowsets)
  ok (record {
    rowsets = put_or_remove table_id (remove_from rowset_id table) s.rowsets;
    dvs = s.dvs;
  })

unfoldable pub add_dv : Snapshot → ℕ → ℕ → ℕ → Snapshot
add_dv s table_id rowset_id dv_id =
    let table = or_default (lookup table_id s.dvs) in
    record {
      rowsets = s.rowsets;
      dvs =
          insert table_id
            (insert rowset_id (add_to dv_id (or_default (lookup rowset_id table))) table) s.dvs;
    }

unfoldable pub delete_dv : Snapshot → ℕ → ℕ → ℕ → Result Never Snapshot
delete_dv s table_id rowset_id dv_id = do
  table ← unwrap (lookup table_id s.dvs)
  dvs ← unwrap (lookup rowset_id table)
  ok (record {
    rowsets = s.rowsets;
    dvs = put_or_remove table_id (put_or_remove rowset_id (remove_from dv_id dvs) table) s.dvs;
  })

unfoldable pub get_dvs_of : Snapshot → ℕ → ℕ → Option (List ℕ)
get_dvs_of s table_id rowset_id = elim (lookup table_id s.dvs) [
  | none ↦ none
  | some table ↦ lookup rowset_id table
]

unfoldable pub get_rowsets_of : Snapshot → ℕ → Option (List ℕ)
get_rowsets_of s table_id = lookup table_id s.rowsets
