-- ===== src/Catalog/Schema/Tests.antt =====
-- A schema in which a table is made and dropped.
use risinglight.Prelude.{ℕ, ◌≡◌, refl, true, false, none, List, [], ◌∷◌, ok, ok_or}
use risinglight.Catalog.Table.{
  ColumnCatalog, TableCatalog, TableKind, new, new_kind, add_columns, add_column,
}
use risinglight.Catalog.Schema.{
  SchemaCatalog, new_schema, add_table, delete_table, get_table_by_name, get_table_by_id,
}
use risinglight.Catalog.Schema.Laws.{IsConsistent}
use risinglight.Catalog.Schema.Enter.{IsEntered}
use risinglight.Catalog.Schema.Reach.{
  Reachable, Reachable-IsConsistent, add_table_lem, delete_table_lem,
}

abbrev Schema0 : Type 0
Schema0 = SchemaCatalog ℕ ℕ ℕ

abbrev columns : List (ColumnCatalog ℕ)
columns =
    record {
      id = 0;
      desc = record { name = "a"; data_type = 4; is_nullable = false; is_primary = true };
    }
    ∷ []

abbrev fresh : Schema0
unfolding new_schema
fresh = new_schema 1 "postgres"

abbrev added : Schema0 × ℕ
unfolding add_table new new_kind add_columns add_column fresh new_schema
added = ok_or (fresh, 9) (add_table 8 "t" columns (0 ∷ []) fresh)

added-Reachable : Reachable {RecExpr = ℕ} {IndexType = ℕ} 8 added.0
unfolding add_table new new_kind add_columns add_column fresh added new_schema
added-Reachable = Reachable.table_added "t" columns (0 ∷ []) (Reachable.start 1 "postgres") refl

Reachable-IsConsistent_example : IsConsistent added.0
Reachable-IsConsistent_example = Reachable-IsConsistent 8 added.0 added-Reachable

add_table_lem_example : IsEntered fresh added.0 "t" 0
unfolding add_table new new_kind add_columns add_column fresh added new_schema
add_table_lem_example =
    add_table_lem 8 "t" columns (0 ∷ []) fresh added.0 0 (Reachable.start 1 "postgres") refl

abbrev the_table : TableCatalog ℕ ℕ
unfolding new new_kind add_columns add_column
the_table =
    ok_or
      (record {
        id = 0;
        name = "";
        column_idxs = [];
        columns = [];
        kind = TableKind.table;
        next_column_id = 0;
        primary_key = [];
      })
      (new 8 0 "t" columns (0 ∷ []))

delete_table_lem_example :
    (s' : Schema0) × (delete_table 0 added.0 ≡ ok s')
    × (get_table_by_id s' 0 ≡ none)
    × (get_table_by_name s' the_table.name ≡ none)
unfolding add_table new new_kind add_columns add_column fresh added new_schema the_table
    get_table_by_id
delete_table_lem_example = delete_table_lem 8 0 added.0 the_table added-Reachable refl
