-- ===== src/Catalog/Schema.antt =====
-- catalog/schema.rs: `SchemaCatalog`, tables, views, indexes and functions by name and by id.
use Prim.Native.String.{String}
use risinglight.Prelude.{
  ℕ, ◌+◌, ◌==◌, Bool, true, false, Option, none, some, List, [], ◌∷◌, Result, Never, ok, err, panic,
  ◌>>=◌, checked_add, unwrap, if◌then◌else◌,
}
use risinglight.Prelude.Map.{lookup, insert, remove}
use risinglight.Catalog.Names.{get, put, delete}
use risinglight.Catalog.Table.{ColumnCatalog, TableCatalog, CatalogError, new, new_view}
pub mod Laws
pub mod Enter
pub mod Indexes
pub mod Reach
mod Tests

-- catalog/index.rs and catalog/function.rs
pub record IndexCatalog (IndexType : Type 0) : Type 0 where
  pub id : ℕ
  pub name : String
  pub table_id : ℕ
  pub column_idxs : List ℕ
  pub index_type : IndexType

pub record FunctionCatalog (DataType : Type 0) : Type 0 where
  pub name : String
  pub arg_types : List DataType
  pub arg_names : List String
  pub return_type : DataType
  pub language : String
  pub body : String

pub record SchemaCatalog (DataType RecExpr IndexType : Type 0) : Type 0 where
  pub id : ℕ
  pub name : String
  pub table_idxs : List (String × ℕ)
  pub tables : List (ℕ × TableCatalog DataType RecExpr)
  pub indexes_idxs : List (String × ℕ)
  pub indexes : List (ℕ × IndexCatalog IndexType)
  pub next_id : ℕ
  pub functions : List (String × FunctionCatalog DataType)

-- A result of code that panics otherwise, where the caller returns errors of its own.
abbrev pub lift : {E A : Type 0} → Result Never A → Result E A
lift (ok a) = ok a
lift (err e) = panic
lift panic = panic

module _ {DataType RecExpr IndexType : Type 0} where
  unfoldable pub new_schema : ℕ → String → SchemaCatalog DataType RecExpr IndexType
  new_schema id name = record {
    id = id;
    name = name;
    table_idxs = [];
    tables = [];
    indexes_idxs = [];
    indexes = [];
    next_id = 0;
    functions = [];
  }

  -- What `add_table` and `add_view` share: the table is made under the next id and entered under
  -- its name and id.
  abbrev pub enter :
      String
      → (ℕ → Result Never (TableCatalog DataType RecExpr))
      → SchemaCatalog DataType RecExpr IndexType
      → Result CatalogError (SchemaCatalog DataType RecExpr IndexType × ℕ)
  enter name make self = do
    let table_id = self.next_id
    next_id ← checked_add 32 self.next_id 1
    table ← lift (make table_id)
    ok (
      record self {
        next_id = next_id;
        table_idxs = put name table_id self.table_idxs;
        tables = insert table_id table self.tables;
      },
      table_id,
    )

  unfoldable pub add_table :
      DataType
      → String
      → List (ColumnCatalog DataType)
      → List ℕ
      → SchemaCatalog DataType RecExpr IndexType
      → Result CatalogError (SchemaCatalog DataType RecExpr IndexType × ℕ)
  add_table int64 name columns ordered_pk_ids self = elim (get name self.table_idxs) [
    | some id ↦ err (CatalogError.duplicated "table" name)
    | none ↦ enter name (λ id. new int64 id name columns ordered_pk_ids) self
  ]

  unfoldable pub add_view :
      DataType
      → String
      → List (ColumnCatalog DataType)
      → RecExpr
      → SchemaCatalog DataType RecExpr IndexType
      → Result CatalogError (SchemaCatalog DataType RecExpr IndexType × ℕ)
  add_view int64 name columns query self = elim (get name self.table_idxs) [
    | some id ↦ err (CatalogError.duplicated "view" name)
    | none ↦ enter name (λ id. new_view int64 id name columns query) self
  ]

  unfoldable pub add_index :
      String
      → ℕ
      → List ℕ
      → IndexType
      → SchemaCatalog DataType RecExpr IndexType
      → Result CatalogError (SchemaCatalog DataType RecExpr IndexType × ℕ)
  add_index name table_id columns index_type self = elim (get name self.indexes_idxs) [
    | some id ↦ err (CatalogError.duplicated "index" name)
    | none ↦ do
      let index_id = self.next_id
      next_id ← checked_add 32 self.next_id 1
      ok (
        record self {
          next_id = next_id;
          indexes_idxs = put name index_id self.indexes_idxs;
          indexes =
              insert index_id
                (record {
                  id = index_id;
                  name = name;
                  table_id = table_id;
                  column_idxs = columns;
                  index_type = index_type;
                })
                self.indexes;
        },
        index_id,
      )
  ]

  unfoldable pub delete_table :
      ℕ
      → SchemaCatalog DataType RecExpr IndexType
      → Result Never (SchemaCatalog DataType RecExpr IndexType)
  delete_table id self = do
    catalog ← unwrap (lookup id self.tables)
    removed ← unwrap (get catalog.name self.table_idxs)
    ok (record self {
      tables = remove id self.tables;
      table_idxs = delete catalog.name self.table_idxs;
    })

  unfoldable pub create_function :
      String
      → List DataType
      → List String
      → DataType
      → String
      → String
      → SchemaCatalog DataType RecExpr IndexType
      → SchemaCatalog DataType RecExpr IndexType
  create_function name arg_types arg_names return_type language body self = record self {
    functions =
        put name
          (record {
            name = name;
            arg_types = arg_types;
            arg_names = arg_names;
            return_type = return_type;
            language = language;
            body = body;
          })
          self.functions;
  }

module _ {DataType RecExpr IndexType : Type 0}
    (self : SchemaCatalog DataType RecExpr IndexType) where
  unfoldable pub get_table_id_by_name : String → Option ℕ
  get_table_id_by_name name = get name self.table_idxs

  unfoldable pub get_table_by_id : ℕ → Option (TableCatalog DataType RecExpr)
  get_table_by_id table_id = lookup table_id self.tables

  unfoldable pub get_table_by_name : String → Option (TableCatalog DataType RecExpr)
  get_table_by_name name = elim (get name self.table_idxs) [
    | none ↦ none
    | some id ↦ lookup id self.tables
  ]

  abbrev on_table : ℕ → List (ℕ × IndexCatalog IndexType) → List ℕ
  on_table table_id [] = []
  on_table table_id ((id, index) ∷ indexes) =
      let rest = on_table table_id indexes in if index.table_id == table_id then id ∷ rest else rest

  unfoldable pub get_indexes_on_table : ℕ → List ℕ
  get_indexes_on_table table_id = on_table table_id self.indexes

  unfoldable pub get_index_by_id : ℕ → Option (IndexCatalog IndexType)
  get_index_by_id index_id = lookup index_id self.indexes

  unfoldable pub get_function_by_name : String → Option (FunctionCatalog DataType)
  get_function_by_name name = get name self.functions
