-- ===== src/Catalog/Root.antt =====
-- catalog/root.rs: `RootCatalog`, the schemas by name and by id, and the operations that it hands
-- on to them. Each operation holds the lock on the inner state from its first line to its last.
use Prim.Native.String.{String}
use risinglight.Prelude.{
  ℕ, ◌+◌, Option, none, some, List, [], ◌∷◌, Result, Never, ok, err, panic, ◌>>=◌, checked_add,
  unwrap,
}
use risinglight.Prelude.Map.{lookup, insert}
use risinglight.Catalog.Names.{get, put}
use risinglight.Catalog.Table.{ColumnCatalog, TableCatalog, CatalogError}
use risinglight.Catalog.Schema
use risinglight.Catalog.Schema.{SchemaCatalog, IndexCatalog, FunctionCatalog, new_schema, lift}
mod Laws
mod Tests

pub record TableRefId : Type 0 where
  pub schema_id : ℕ
  pub table_id : ℕ

pub record Inner (DataType RecExpr IndexType : Type 0) : Type 0 where
  pub schema_idxs : List (String × ℕ)
  pub schemas : List (ℕ × SchemaCatalog DataType RecExpr IndexType)
  pub next_schema_id : ℕ

module _ {DataType RecExpr IndexType : Type 0} where
  unfoldable pub add_schema :
      String
      → Inner DataType RecExpr IndexType
      → Result CatalogError (Inner DataType RecExpr IndexType × ℕ)
  add_schema name self = elim (get name self.schema_idxs) [
    | some id ↦ err (CatalogError.duplicated "schema" name)
    | none ↦ do
      let schema_id = self.next_schema_id
      next_schema_id ← checked_add 32 self.next_schema_id 1
      ok (
        record self {
          next_schema_id = next_schema_id;
          schema_idxs = put name schema_id self.schema_idxs;
          schemas = insert schema_id (new_schema schema_id name) self.schemas;
        },
        schema_id,
      )
  ]

  -- `schemas.get_mut(&schema_id).unwrap()` and a change of that schema
  abbrev pub change :
      ℕ
      → (SchemaCatalog DataType RecExpr IndexType
          → Result CatalogError (SchemaCatalog DataType RecExpr IndexType × ℕ))
      → Inner DataType RecExpr IndexType
      → Result CatalogError (Inner DataType RecExpr IndexType × ℕ)
  change schema_id operation self = do
    schema ← unwrap (lookup schema_id self.schemas)
    (schema', id) ← operation schema
    ok (record self { schemas = insert schema_id schema' self.schemas }, id)

  unfoldable pub add_table :
      DataType
      → ℕ
      → String
      → List (ColumnCatalog DataType)
      → List ℕ
      → Inner DataType RecExpr IndexType
      → Result CatalogError (Inner DataType RecExpr IndexType × ℕ)
  add_table int64 schema_id name columns ordered_pk_ids =
      change schema_id (Schema.add_table int64 name columns ordered_pk_ids)

  unfoldable pub add_view :
      DataType
      → ℕ
      → String
      → List (ColumnCatalog DataType)
      → RecExpr
      → Inner DataType RecExpr IndexType
      → Result CatalogError (Inner DataType RecExpr IndexType × ℕ)
  add_view int64 schema_id name columns query =
      change schema_id (Schema.add_view int64 name columns query)

  unfoldable pub add_index :
      ℕ
      → String
      → ℕ
      → List ℕ
      → IndexType
      → Inner DataType RecExpr IndexType
      → Result CatalogError (Inner DataType RecExpr IndexType × ℕ)
  add_index schema_id index_name table_id column_idxs index_type =
      change schema_id (Schema.add_index index_name table_id column_idxs index_type)

  unfoldable pub drop_table :
      TableRefId
      → Inner DataType RecExpr IndexType
      → Result Never (Inner DataType RecExpr IndexType)
  drop_table ref self = do
    schema ← unwrap (lookup ref.schema_id self.schemas)
    schema' ← Schema.delete_table ref.table_id schema
    ok (record self { schemas = insert ref.schema_id schema' self.schemas })

module _ {DataType RecExpr IndexType : Type 0} (self : Inner DataType RecExpr IndexType) where
  unfoldable pub get_schema_id_by_name : String → Option ℕ
  get_schema_id_by_name name = get name self.schema_idxs

  unfoldable pub get_schema_by_id : ℕ → Option (SchemaCatalog DataType RecExpr IndexType)
  get_schema_by_id schema_id = lookup schema_id self.schemas

  unfoldable pub get_schema_by_name : String → Option (SchemaCatalog DataType RecExpr IndexType)
  get_schema_by_name name = elim (get name self.schema_idxs) [
    | none ↦ none
    | some id ↦ lookup id self.schemas
  ]

  unfoldable pub get_table : TableRefId → Option (TableCatalog DataType RecExpr)
  unfolding get_schema_by_id
  get_table ref = elim (get_schema_by_id ref.schema_id) [
    | none ↦ none
    | some schema ↦ Schema.get_table_by_id schema ref.table_id
  ]

  unfoldable pub get_table_id_by_name : String → String → Option TableRefId
  unfolding get_schema_by_name
  get_table_id_by_name schema_name table_name = elim (get_schema_by_name schema_name) [
    | none ↦ none
    | some schema ↦ elim (Schema.get_table_by_name schema table_name) [
      | none ↦ none
      | some table ↦ some (record { schema_id = schema.id; table_id = table.id })
    ]
  ]

  unfoldable pub get_index_on_table : ℕ → ℕ → Result Never (List ℕ)
  get_index_on_table schema_id table_id = do
    schema ← unwrap (lookup schema_id self.schemas)
    ok (Schema.get_indexes_on_table schema table_id)

  unfoldable pub get_index_by_id : ℕ → ℕ → Result Never (Option (IndexCatalog IndexType))
  get_index_by_id schema_id index_id = do
    schema ← unwrap (lookup schema_id self.schemas)
    ok (Schema.get_index_by_id schema index_id)

  unfoldable pub get_function_by_name : String → String → Option (FunctionCatalog DataType)
  unfolding get_schema_by_name
  get_function_by_name schema_name function_name = elim (get_schema_by_name schema_name) [
    | none ↦ none
    | some schema ↦ Schema.get_function_by_name schema function_name
  ]
