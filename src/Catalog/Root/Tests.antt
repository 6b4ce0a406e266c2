-- ===== src/Catalog/Root/Tests.antt =====
-- A catalog with the default schema, and a table that is added to it.
use risinglight.Prelude.{
  ℕ, ◌≡◌, refl, true, false, some, List, [], ◌∷◌, ok_or, arith, inl, inr, Bool-cases, ◌==◌,
  none≢some, some-injective, subst,
}
use risinglight.Prelude.Map
use risinglight.Catalog.Names.{same_text}
use risinglight.Catalog.Table.{ColumnCatalog, new, new_kind, add_columns, add_column}
use risinglight.Catalog.Schema
use risinglight.Catalog.Schema.{SchemaCatalog, new_schema}
use risinglight.Catalog.Schema.Reach.{Reachable}
use risinglight.Catalog.Root.{Inner, add_table}
use risinglight.Catalog.Root.Laws.{IsSound, LeadsTo, get_table_id_by_name-add_table}

abbrev default_schema : SchemaCatalog ℕ ℕ ℕ
unfolding new_schema
default_schema = new_schema 1 "postgres"

abbrev catalog : Inner ℕ ℕ ℕ
catalog = record {
  schema_idxs = ("postgres", 1) ∷ [];
  schemas = (1, default_schema) ∷ [];
  next_schema_id = 2;
}

abbrev columns : List (ColumnCatalog ℕ)
columns =
    record {
      id = 0;
      desc = record { name = "a"; data_type = 4; is_nullable = false; is_primary = true };
    }
    ∷ []

catalog-IsSound : IsSound 8 catalog
unfolding default_schema new_schema
catalog-IsSound = record {
  indexed = λ name id e. elim (Bool-cases (same_text name "postgres")) [
    | inl same ↦ (
      default_schema,
      subst (λ i. Map.lookup i catalog.schemas ≡ some default_schema)
          (some-injective (rw same at e)) refl,
    )
    | inr other ↦ absurd (none≢some (rw other at e))
  ];
  made = λ id s e. elim (Bool-cases (id == 1)) [
    | inl same ↦
        let this : default_schema ≡ s = some-injective (rw same at e) in
        let at : 1 ≡ id = ground arith in
        subst (λ x. (x.id ≡ id) × Reachable 8 x) this (at, Reachable.start 1 "postgres")
    | inr other ↦ absurd (none≢some (rw other at e))
  ];
}

abbrev added : Inner ℕ ℕ ℕ × ℕ
unfolding add_table Schema.add_table new new_kind add_columns add_column default_schema new_schema
added = ok_or (catalog, 9) (add_table 8 1 "t" columns (0 ∷ []) catalog)

get_table_id_by_name-add_table_example : LeadsTo 8 "postgres" "t" 1 0 added.0
unfolding add_table Schema.add_table new new_kind add_columns add_column default_schema new_schema
    added
get_table_id_by_name-add_table_example =
    get_table_id_by_name-add_table 8 "postgres" "t" 1 columns (0 ∷ []) catalog added.0 0
      catalog-IsSound refl refl
