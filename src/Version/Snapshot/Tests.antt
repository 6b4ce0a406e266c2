-- ===== src/Version/Snapshot/Tests.antt =====
-- A snapshot of two tables.
use risinglight.Prelude.{◌≡◌, refl, ◌==◌, ◌&&◌, not, [], ◌∷◌}
use risinglight.Version.Snapshot.{Snapshot, delete_rowset, delete_dv}
use risinglight.Version.Snapshot.Laws.{
  has_rowset, has_dv, has_rowset-delete_rowset, has_dv-delete_dv,
}

abbrev two_tables : Snapshot
two_tables = record {
  rowsets = (0, 4 ∷ []) ∷ (1, 6 ∷ 5 ∷ []) ∷ [];
  dvs = (1, (5, 9 ∷ []) ∷ (6, 8 ∷ 7 ∷ []) ∷ []) ∷ [];
}

abbrev one_table : Snapshot
one_table = record two_tables { rowsets = (1, 6 ∷ 5 ∷ []) ∷ [] }

has_rowset-delete_rowset_example :
    has_rowset one_table 1 5 ≡ not ((1 == 0) && (5 == 4)) && has_rowset two_tables 1 5
unfolding delete_rowset
has_rowset-delete_rowset_example = has_rowset-delete_rowset two_tables 0 4 one_table refl 1 5

abbrev fewer_dvs : Snapshot
fewer_dvs = record two_tables { dvs = (1, (6, 8 ∷ 7 ∷ []) ∷ []) ∷ [] }

has_dv-delete_dv_example :
    has_dv fewer_dvs 1 6 7 ≡ not ((1 == 1) && ((6 == 5) && (7 == 9))) && has_dv two_tables 1 6 7
unfolding delete_dv
has_dv-delete_dv_example = has_dv-delete_dv two_tables 1 5 9 fewer_dvs refl 1 6 7
