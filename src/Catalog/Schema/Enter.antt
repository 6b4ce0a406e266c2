-- ===== src/Catalog/Schema/Enter.antt =====
-- Tables and views enter a schema, and tables leave it.
use Prim.Native.String.{String}
use text.Mathlib.TextEquality.{eq_iff}
use risinglight.Prelude.{
  Returns-ok, ℕ, ◌+◌, ◌^◌, ◌≡◌, refl, sym, ap, ◌∙◌, subst, true, none, some, List, [], Result,
  Never, ok, err, panic, arith, inl, inr, Option-cases, ok-injective, dec_lt, checked_add-fits,
  checked_add-over, panic≢ok, err≢ok, ◌⊎◌,
}
use risinglight.Prelude.Map.{lookup, insert, remove, lookup-insert}
use risinglight.Catalog.Names.{get, put, delete, get-put, same_text}
use risinglight.Catalog.Table.{ColumnCatalog, TableCatalog, CatalogError, new, new_view}
use risinglight.Catalog.Table.Laws.{new_kind-same}
use risinglight.Catalog.Schema.{
  SchemaCatalog, enter, add_table, add_view, delete_table, get_table_by_name, get_table_by_id,
}
use risinglight.Catalog.Schema.Laws.{IsConsistent, with_table, with_table-IsConsistent}

Never-cases : {A : Type 0} (m : Result Never A) → ((a : A) × (m ≡ ok a)) ⊎ (m ≡ panic)
Never-cases (ok a) = inl (a, refl)
Never-cases (err e) = elim e [ ]
Never-cases panic = inr refl

abbrev IsMaker :
    {DataType RecExpr : Type 0}
    → String
    → (ℕ → Result Never (TableCatalog DataType RecExpr))
    → Type 0
IsMaker {DataType} {RecExpr} name make =
    (i : ℕ) (t : TableCatalog DataType RecExpr) → make i ≡ ok t → (t.id ≡ i) × (t.name ≡ name)

pub new-IsMaker :
    {DataType : Type 0} (RecExpr : Type 0) (int64 : DataType) (name : String)
    (columns : List (ColumnCatalog DataType)) (pks : List ℕ)
    → IsMaker {RecExpr = RecExpr} name (λ i. new int64 i name columns pks)
unfolding new
new-IsMaker RecExpr int64 name columns pks i t e =
    Returns-ok (λ t. (t.id ≡ i) × (t.name ≡ name)) _ t e (new_kind-same int64 i name columns _ pks)

pub new_view-IsMaker :
    {DataType RecExpr : Type 0} (int64 : DataType) (name : String)
    (columns : List (ColumnCatalog DataType)) (query : RecExpr)
    → IsMaker name (λ i. new_view int64 i name columns query)
unfolding new_view
new_view-IsMaker int64 name columns query i t e =
    Returns-ok (λ t. (t.id ≡ i) × (t.name ≡ name)) _ t e (new_kind-same int64 i name columns _ [])

module _ {DataType RecExpr IndexType : Type 0} where
  -- A table that is entered was made under the next id.
  pub enter-ok :
      (name : String) (make : ℕ → Result Never (TableCatalog DataType RecExpr))
      (s s' : SchemaCatalog DataType RecExpr IndexType) (id : ℕ)
      → enter name make s ≡ ok (s', id)
      → (table : TableCatalog DataType RecExpr) × (make s.next_id ≡ ok table)
        × (with_table name table s ≡ s')
        × (s.next_id ≡ id)
  enter-ok name make s s' id e = elim (dec_lt (s.next_id + 1) (2 ^ 32)) [
    | Dec.no large ↦ absurd (panic≢ok (rw (checked_add-over 32 s.next_id 1 large) at e))
    | Dec.yes small ↦ elim (Never-cases (make s.next_id)) [
      | inr broken ↦ absurd (panic≢ok (rw (checked_add-fits 32 s.next_id 1 small, broken) at e))
      | inl (table, made) ↦
          let same = ok-injective (rw (checked_add-fits 32 s.next_id 1 small, made) at e) in
          (table, made, ap (λ x. x.0) same, ap (λ x. x.1) same)
    ]
  ]

  add_table-taken :
      (int64 : DataType) (name : String) (columns : List (ColumnCatalog DataType)) (pks : List ℕ)
      (s : SchemaCatalog DataType RecExpr IndexType) (other : ℕ)
      → get name s.table_idxs ≡ some other
      → add_table int64 name columns pks s ≡ err (CatalogError.duplicated "table" name)
  unfolding add_table
  add_table-taken int64 name columns pks s other taken = ground arith

  add_table-free :
      (int64 : DataType) (name : String) (columns : List (ColumnCatalog DataType)) (pks : List ℕ)
      (s : SchemaCatalog DataType RecExpr IndexType)
      → get name s.table_idxs ≡ none
      → add_table int64 name columns pks s ≡ enter name (λ i. new int64 i name columns pks) s
  unfolding add_table
  add_table-free int64 name columns pks s free = ground arith

  -- A table that is added: its name was free.
  pub add_table-ok :
      (int64 : DataType) (name : String) (columns : List (ColumnCatalog DataType)) (pks : List ℕ)
      (s s' : SchemaCatalog DataType RecExpr IndexType) (id : ℕ)
      → add_table int64 name columns pks s ≡ ok (s', id)
      → (get name s.table_idxs ≡ none)
        × (enter name (λ i. new int64 i name columns pks) s ≡ ok (s', id))
  add_table-ok int64 name columns pks s s' id e = elim (Option-cases (get name s.table_idxs)) [
    | inl free ↦ (free, sym (add_table-free int64 name columns pks s free) ∙ e)
    | inr (other, taken) ↦
        absurd (err≢ok (sym (add_table-taken int64 name columns pks s other taken) ∙ e))
  ]

  add_view-taken :
      (int64 : DataType) (name : String) (columns : List (ColumnCatalog DataType)) (query : RecExpr)
      (s : SchemaCatalog DataType RecExpr IndexType) (other : ℕ)
      → get name s.table_idxs ≡ some other
      → add_view int64 name columns query s ≡ err (CatalogError.duplicated "view" name)
  unfolding add_view
  add_view-taken int64 name columns query s other taken = ground arith

  add_view-free :
      (int64 : DataType) (name : String) (columns : List (ColumnCatalog DataType)) (query : RecExpr)
      (s : SchemaCatalog DataType RecExpr IndexType)
      → get name s.table_idxs ≡ none
      → add_view int64 name columns query s
        ≡ enter name (λ i. new_view int64 i name columns query) s
  unfolding add_view
  add_view-free int64 name columns query s free = ground arith

  pub add_view-ok :
      (int64 : DataType) (name : String) (columns : List (ColumnCatalog DataType)) (query : RecExpr)
      (s s' : SchemaCatalog DataType RecExpr IndexType) (id : ℕ)
      → add_view int64 name columns query s ≡ ok (s', id)
      → (get name s.table_idxs ≡ none)
        × (enter name (λ i. new_view int64 i name columns query) s ≡ ok (s', id))
  add_view-ok int64 name columns query s s' id e = elim (Option-cases (get name s.table_idxs)) [
    | inl free ↦ (free, sym (add_view-free int64 name columns query s free) ∙ e)
    | inr (other, taken) ↦
        absurd (err≢ok (sym (add_view-taken int64 name columns query s other taken) ∙ e))
  ]

  -- What becomes of a name and an id under which a table is entered.
  abbrev pub IsEntered :
      SchemaCatalog DataType RecExpr IndexType
      → SchemaCatalog DataType RecExpr IndexType
      → String
      → ℕ
      → Type 0
  IsEntered s s' name id =
      (get_table_by_id s id ≡ none)
      × ((t : TableCatalog DataType RecExpr) × (get_table_by_name s' name ≡ some t)
          × (get_table_by_id s' id ≡ some t)
          × (t.id ≡ id)
          × (t.name ≡ name))

  get_table_by_name-found :
      (s : SchemaCatalog DataType RecExpr IndexType) (name : String) (id : ℕ)
      → get name s.table_idxs ≡ some id
      → get_table_by_name s name ≡ lookup id s.tables
  unfolding get_table_by_name
  get_table_by_name-found s name id e = ground arith

  pub get_table_by_name-none :
      (s : SchemaCatalog DataType RecExpr IndexType) (name : String)
      → get name s.table_idxs ≡ none
      → get_table_by_name s name ≡ none
  unfolding get_table_by_name
  get_table_by_name-none s name e = ground arith

  with_table-IsEntered :
      (name : String) (table : TableCatalog DataType RecExpr)
      (s : SchemaCatalog DataType RecExpr IndexType)
      → (table.id ≡ s.next_id) × (table.name ≡ name)
      → IsConsistent s
      → IsEntered s (with_table name table s) name s.next_id
  unfolding get_table_by_id
  with_table-IsEntered name table s made w =
      let fresh : lookup s.next_id s.tables ≡ none =
        elim (Option-cases (lookup s.next_id s.tables)) [
          | inl free ↦ free
          | inr (t, there) ↦ absurd (omega (arith, (w.entered s.next_id t there).1))
        ] in
      let by_id : lookup s.next_id (insert s.next_id table s.tables) ≡ some table =
        lookup-insert s.next_id table s.tables s.next_id ∙ ground arith in
      let same : same_text name name ≡ true = (eq_iff name name).1 refl in
      let by_name : get name (put name s.next_id s.table_idxs) ≡ some s.next_id =
        get-put name s.next_id s.table_idxs name ∙ rw same refl in
      (
        fresh,
        (
          table,
          get_table_by_name-found (with_table name table s) name s.next_id by_name ∙ by_id,
          by_id,
          made.0,
          made.1,
        ),
      )

  pub enter-IsConsistent :
      (name : String) (make : ℕ → Result Never (TableCatalog DataType RecExpr))
      (s s' : SchemaCatalog DataType RecExpr IndexType) (id : ℕ)
      → IsMaker name make
      → get name s.table_idxs ≡ none
      → enter name make s ≡ ok (s', id)
      → IsConsistent s
      → IsConsistent s' × IsEntered s s' name id
  enter-IsConsistent name make s s' id maker free e w =
      let (table, made, same, same_id) = enter-ok name make s s' id e in
      (
        subst IsConsistent same
            (with_table-IsConsistent name table s free (maker s.next_id table made).1 w),
        subst (λ x. IsEntered s x name id) same
            (subst (IsEntered s (with_table name table s) name) same_id
              (with_table-IsEntered name table s (maker s.next_id table made) w)),
      )

  pub delete_table-there :
      (id : ℕ) (table : TableCatalog DataType RecExpr)
      (s : SchemaCatalog DataType RecExpr IndexType)
      → lookup id s.tables ≡ some table
      → IsConsistent s
      → delete_table id s
        ≡ ok (record s { tables = remove id s.tables; table_idxs = delete table.name s.table_idxs })
  unfolding delete_table
  delete_table-there id table s there w = rw (there, (w.entered id table there).0) refl
