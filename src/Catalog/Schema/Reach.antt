-- ===== src/Catalog/Schema/Reach.antt =====
-- The schemas that the operations can make, and what holds in all of them.
use Prim.Native.String.{String}
use text.Mathlib.TextEquality.{eq_iff}
use risinglight.Prelude.{
  ℕ, ◌≡◌, refl, sym, ◌∙◌, subst, true, none, some, List, ok, arith, Option-cases, inl, inr,
  ok-injective, panic≢ok, none≢some, panic,
}
use risinglight.Prelude.Map.{lookup, lookup-remove}
use risinglight.Catalog.Names.{get-delete, same_text}
use risinglight.Catalog.Table.{ColumnCatalog, TableCatalog}
use risinglight.Catalog.Schema.{
  SchemaCatalog, new_schema, add_table, add_view, add_index, delete_table, create_function,
  get_table_by_name, get_table_by_id,
}
use risinglight.Catalog.Schema.Laws.{IsConsistent, without_table-IsConsistent}
use risinglight.Catalog.Schema.Enter.{
  IsEntered, enter-IsConsistent, add_table-ok, add_view-ok, delete_table-there, new-IsMaker,
  new_view-IsMaker, get_table_by_name-none,
}
use risinglight.Catalog.Schema.Indexes.{add_index-IsConsistent}

module _ {DataType RecExpr IndexType : Type 0} (int64 : DataType) where
  pub data Reachable : SchemaCatalog DataType RecExpr IndexType → Type 0 where
    start : (id : ℕ) (name : String) → Reachable (new_schema id name)
    table_added :
        {s s' : SchemaCatalog DataType RecExpr IndexType} {id : ℕ} (name : String)
        (columns : List (ColumnCatalog DataType)) (pks : List ℕ)
        → Reachable s
        → add_table int64 name columns pks s ≡ ok (s', id)
        → Reachable s'
    view_added :
        {s s' : SchemaCatalog DataType RecExpr IndexType} {id : ℕ} (name : String)
        (columns : List (ColumnCatalog DataType)) (query : RecExpr)
        → Reachable s
        → add_view int64 name columns query s ≡ ok (s', id)
        → Reachable s'
    index_added :
        {s s' : SchemaCatalog DataType RecExpr IndexType} {id : ℕ} (name : String) (table_id : ℕ)
        (columns : List ℕ) (index_type : IndexType)
        → Reachable s
        → add_index name table_id columns index_type s ≡ ok (s', id)
        → Reachable s'
    table_deleted :
        {s s' : SchemaCatalog DataType RecExpr IndexType} (id : ℕ)
        → Reachable s
        → delete_table id s ≡ ok s'
        → Reachable s'
    function_created :
        {s : SchemaCatalog DataType RecExpr IndexType} (name : String) (arg_types : List DataType)
        (arg_names : List String) (return_type : DataType) (language body : String)
        → Reachable s
        → Reachable (create_function name arg_types arg_names return_type language body s)

module _ {DataType RecExpr IndexType : Type 0} where
  delete_table-missing :
      (id : ℕ) (s : SchemaCatalog DataType RecExpr IndexType)
      → lookup id s.tables ≡ none
      → delete_table id s ≡ panic
  unfolding delete_table
  delete_table-missing id s missing = rw missing refl

  delete_table-IsConsistent :
      (id : ℕ) (s s' : SchemaCatalog DataType RecExpr IndexType)
      → delete_table id s ≡ ok s'
      → IsConsistent s
      → IsConsistent s'
  delete_table-IsConsistent id s s' e w = elim (Option-cases (lookup id s.tables)) [
    | inl missing ↦ absurd (panic≢ok (sym (delete_table-missing id s missing) ∙ e))
    | inr (table, there) ↦
        subst IsConsistent (ok-injective (sym (delete_table-there id table s there w) ∙ e))
          (without_table-IsConsistent id table s there w)
  ]

module _ {DataType RecExpr IndexType : Type 0} (int64 : DataType) where
  -- In every schema that the operations can make, a name and an id lead to the same table: each
  -- name in the index leads to a table of that name, and each table's name leads to its id, which
  -- is below the next one.
  pub Reachable-IsConsistent :
      (s : SchemaCatalog DataType RecExpr IndexType) → Reachable int64 s → IsConsistent s
  unfolding new_schema create_function
  Reachable-IsConsistent s (Reachable.start id name) = record {
    named = λ n i e. absurd (none≢some e);
    entered = λ i t e. absurd (none≢some e);
  }
  Reachable-IsConsistent s (Reachable.table_added {s = s0} {id} name columns pks before e) =
      let (free, entered) = add_table-ok int64 name columns pks s0 s id e in
      (enter-IsConsistent name _ s0 s id (new-IsMaker RecExpr int64 name columns pks) free entered
        (Reachable-IsConsistent s0 before)).0
  Reachable-IsConsistent s (Reachable.view_added {s = s0} {id} name columns query before e) =
      let (free, entered) = add_view-ok int64 name columns query s0 s id e in
      (enter-IsConsistent name _ s0 s id (new_view-IsMaker int64 name columns query) free entered
        (Reachable-IsConsistent s0 before)).0
  Reachable-IsConsistent s
        (Reachable.index_added {s = s0} {id} name table_id columns index_type before e) =
      add_index-IsConsistent name table_id columns index_type s0 s id e
        (Reachable-IsConsistent s0 before)
  Reachable-IsConsistent s (Reachable.table_deleted {s = s0} id before e) =
      delete_table-IsConsistent id s0 s e (Reachable-IsConsistent s0 before)
  Reachable-IsConsistent s
        (Reachable.function_created {s = s0} name arg_types arg_names return_type language body
          before) =
      let w = Reachable-IsConsistent s0 before in record { named = w.named; entered = w.entered }

  -- A table that is added gets an id that no table has, and is found afterwards by its name and by
  -- its id, as a table of that name and id.
  pub add_table_lem :
      (name : String) (columns : List (ColumnCatalog DataType)) (pks : List ℕ)
      (s s' : SchemaCatalog DataType RecExpr IndexType) (id : ℕ)
      → Reachable int64 s
      → add_table int64 name columns pks s ≡ ok (s', id)
      → IsEntered s s' name id
  add_table_lem name columns pks s s' id reached e =
      let (free, entered) = add_table-ok int64 name columns pks s s' id e in
      (enter-IsConsistent name _ s s' id (new-IsMaker RecExpr int64 name columns pks) free entered
        (Reachable-IsConsistent s reached)).1

  -- A table that is there can be deleted, without a panic, and is then found neither by its id nor
  -- by its name.
  pub delete_table_lem :
      (id : ℕ) (s : SchemaCatalog DataType RecExpr IndexType) (t : TableCatalog DataType RecExpr)
      → Reachable int64 s
      → get_table_by_id s id ≡ some t
      → (s' : SchemaCatalog DataType RecExpr IndexType) × (delete_table id s ≡ ok s')
        × (get_table_by_id s' id ≡ none)
        × (get_table_by_name s' t.name ≡ none)
  unfolding get_table_by_id
  delete_table_lem id s t reached there =
      let same : same_text t.name t.name ≡ true = (eq_iff t.name t.name).1 refl in
      (
        _,
        delete_table-there id t s there (Reachable-IsConsistent s reached),
        lookup-remove id s.tables id ∙ ground arith,
        get_table_by_name-none _ t.name (get-delete t.name s.table_idxs t.name ∙ rw same refl),
      )
