-- ===== src/Catalog/Table.antt =====
-- catalog/table.rs and catalog/column.rs: `TableCatalog`. Types of data and queries of views are
-- parameters; `u32::MAX` is the id of the column of row ids.
use Prim.Native.String.{String}
use risinglight.Prelude.{
  ℕ, ◌+◌, ◌-◌, ◌^◌, Bool, true, false, Option, none, some, List, [], ◌∷◌, Result, Never, ok, err,
  panic, ◌>>=◌, checked_add,
}
use risinglight.Prelude.Map.{lookup, insert, remove}
use risinglight.Catalog.Names.{get, put}
pub mod Laws
mod Tests

pub record ColumnDesc (DataType : Type 0) : Type 0 where
  pub name : String
  pub data_type : DataType
  pub is_nullable : Bool
  pub is_primary : Bool

pub record ColumnCatalog (DataType : Type 0) : Type 0 where
  pub id : ℕ
  pub desc : ColumnDesc DataType

pub data CatalogError : Type 0 where
  not_found : String → String → CatalogError
  duplicated : String → String → CatalogError

pub data TableKind (RecExpr : Type 0) : Type 0 where
  table : TableKind RecExpr
  view : RecExpr → TableKind RecExpr

pub record TableCatalog (DataType RecExpr : Type 0) : Type 0 where
  pub id : ℕ
  pub name : String
  pub column_idxs : List (String × ℕ)
  pub columns : List (ℕ × ColumnCatalog DataType)
  pub kind : TableKind RecExpr
  pub next_column_id : ℕ
  pub primary_key : List ℕ

abbrev pub row_id_column : ℕ
row_id_column = 2 ^ 32 - 1

-- `r.unwrap()`
abbrev pub unwrap_result : {E A : Type 0} → Result E A → Result Never A
unwrap_result (ok a) = ok a
unwrap_result (err e) = panic
unwrap_result panic = panic

module _ {DataType RecExpr : Type 0} where
  unfoldable pub add_column :
      ColumnCatalog DataType
      → TableCatalog DataType RecExpr
      → Result CatalogError (TableCatalog DataType RecExpr × ℕ)
  add_column col_catalog self = elim (get col_catalog.desc.name self.column_idxs) [
    | some id ↦ err (CatalogError.duplicated "column" col_catalog.desc.name)
    | none ↦ do
      next_column_id ← checked_add 32 self.next_column_id 1
      ok (
        record self {
          next_column_id = next_column_id;
          column_idxs = put col_catalog.desc.name col_catalog.id self.column_idxs;
          columns = insert col_catalog.id col_catalog self.columns;
        },
        col_catalog.id,
      )
  ]

  unfoldable pub add_columns :
      List (ColumnCatalog DataType)
      → TableCatalog DataType RecExpr
      → Result Never (TableCatalog DataType RecExpr)
  unfolding add_column
  add_columns [] self = ok self
  add_columns (col_catalog ∷ columns) self =
      unwrap_result (add_column col_catalog self) >>= λ added. add_columns columns added.0

abbrev pub rowid : {DataType : Type 0} → DataType → ColumnCatalog DataType
rowid int64 = record {
  id = row_id_column;
  desc = record { name = "_rowid_"; data_type = int64; is_nullable = false; is_primary = false };
}

module _ {DataType RecExpr : Type 0} (int64 : DataType) where
  unfoldable pub new_kind :
      ℕ
      → String
      → List (ColumnCatalog DataType)
      → TableKind RecExpr
      → List ℕ
      → Result Never (TableCatalog DataType RecExpr)
  unfolding add_columns
  new_kind id name columns kind primary_key = add_columns (rowid int64 ∷ columns) (record {
    id = id;
    name = name;
    column_idxs = [];
    columns = [];
    kind = kind;
    next_column_id = 0;
    primary_key = primary_key;
  })

  unfoldable pub new :
      ℕ
      → String
      → List (ColumnCatalog DataType)
      → List ℕ
      → Result Never (TableCatalog DataType RecExpr)
  unfolding new_kind
  new id name columns primary_key = new_kind id name columns TableKind.table primary_key

  unfoldable pub new_view :
      ℕ
      → String
      → List (ColumnCatalog DataType)
      → RecExpr
      → Result Never (TableCatalog DataType RecExpr)
  unfolding new_kind
  new_view id name columns query = new_kind id name columns (TableKind.view query) []

module _ {DataType RecExpr : Type 0} (self : TableCatalog DataType RecExpr) where
  unfoldable pub all_columns : List (ℕ × ColumnCatalog DataType)
  all_columns = remove row_id_column self.columns

  unfoldable pub get_column_id_by_name : String → Option ℕ
  get_column_id_by_name name = get name self.column_idxs

  unfoldable pub get_column_by_id : ℕ → Option (ColumnCatalog DataType)
  get_column_by_id id = lookup id self.columns

  unfoldable pub get_column_by_name : String → Option (ColumnCatalog DataType)
  get_column_by_name name = elim (get name self.column_idxs) [
    | none ↦ none
    | some id ↦ lookup id self.columns
  ]
