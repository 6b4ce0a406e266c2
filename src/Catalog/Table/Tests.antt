-- ===== src/Catalog/Table/Tests.antt =====
-- A table with two columns, and one whose column has the name that the catalog keeps for itself.
use Prim.Native.String.{String}
use risinglight.Prelude.{is_ok, ℕ, ◌≡◌, refl, false, some, none, List, [], ◌∷◌, ok_or, arith}
use risinglight.Catalog.Table.{
  ColumnCatalog, TableCatalog, TableKind, new, new_kind, add_columns, add_column,
  get_column_id_by_name, all_columns,
}
use risinglight.Catalog.Table.Laws.{new_kind-clashes}

abbrev column : ℕ → String → ColumnCatalog ℕ
column id name = record {
  id = id;
  desc = record { name = name; data_type = 4; is_nullable = false; is_primary = false };
}

abbrev two_columns : List (ColumnCatalog ℕ)
two_columns = column 0 "a" ∷ column 1 "b" ∷ []

abbrev no_table : TableCatalog ℕ ℕ
no_table = record {
  id = 0;
  name = "";
  column_idxs = [];
  columns = [];
  kind = TableKind.table;
  next_column_id = 0;
  primary_key = [];
}

abbrev made : TableCatalog ℕ ℕ
unfolding new new_kind add_columns add_column
made = ok_or no_table (new 8 0 "t" two_columns [])

finds_b : get_column_id_by_name made "b" ≡ some 1
unfolding made get_column_id_by_name
finds_b = refl

finds_no_c : get_column_id_by_name made "c" ≡ none
unfolding made get_column_id_by_name
finds_no_c = refl

hides_row_id : all_columns made ≡ (0, column 0 "a") ∷ (1, column 1 "b") ∷ []
unfolding made all_columns
hides_row_id = refl

new_kind-clashes_example :
    is_ok
      (new_kind {RecExpr = ℕ} 8 0 "t" (column 0 "a" ∷ column 1 "_rowid_" ∷ []) TableKind.table [])
    ≡ false
new_kind-clashes_example =
    new_kind-clashes 8 0 "t" (column 0 "a" ∷ column 1 "_rowid_" ∷ []) TableKind.table []
      (omega arith)
