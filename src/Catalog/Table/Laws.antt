-- ===== src/Catalog/Table/Laws.antt =====
-- When the catalog of a table can be made.
use Prim.Native.String.{String}
use mathlib.Core.Bool.{true≢false}
use risinglight.Prelude.{
  is_ok, not, is_some, dec_lt, Returns, ℕ, ◌+◌, ◌^◌, ◌<◌, ◌≡◌, refl, sym, ap, ◌∙◌, Bool, true,
  false, ◌||◌, none, some, List, [], ◌∷◌, length, ok, err, panic, arith, inl, inr, Bool-cases,
  Option-cases, ◌>>=◌,
}
use risinglight.Prelude.Map.{insert}
use risinglight.Catalog.Names.{get, put, get-put, same_text}
use risinglight.Catalog.Table.{
  ColumnCatalog, TableCatalog, TableKind, CatalogError, rowid, unwrap_result, add_column,
  add_columns, new_kind,
}

abbrev pub member : String → List String → Bool
member name [] = false
member name (x ∷ xs) = same_text name x || member name xs

-- Two columns of one name, or one that is taken already.
abbrev pub clashes : {DataType : Type 0} → List String → List (ColumnCatalog DataType) → Bool
clashes seen [] = false
clashes seen (c ∷ columns) = member c.desc.name seen || clashes (c.desc.name ∷ seen) columns

module _ {DataType RecExpr : Type 0} where
  abbrev with_column :
      ColumnCatalog DataType → TableCatalog DataType RecExpr → TableCatalog DataType RecExpr
  with_column c self = record self {
    next_column_id = self.next_column_id + 1;
    column_idxs = put c.desc.name c.id self.column_idxs;
    columns = insert c.id c self.columns;
  }

  add_column-taken :
      (c : ColumnCatalog DataType) (self : TableCatalog DataType RecExpr) (id : ℕ)
      → get c.desc.name self.column_idxs ≡ some id
      → add_column c self ≡ err (CatalogError.duplicated "column" c.desc.name)
  unfolding add_column
  add_column-taken c self id h = ground arith

  add_column-free :
      (c : ColumnCatalog DataType) (self : TableCatalog DataType RecExpr)
      → get c.desc.name self.column_idxs ≡ none
      → self.next_column_id + 1 < 2 ^ 32
      → add_column c self ≡ ok (with_column c self, c.id)
  unfolding add_column
  add_column-free c self h small = ground arith

  add_columns-taken :
      (c : ColumnCatalog DataType) (columns : List (ColumnCatalog DataType))
      (self : TableCatalog DataType RecExpr) (id : ℕ)
      → get c.desc.name self.column_idxs ≡ some id
      → add_columns (c ∷ columns) self ≡ panic
  unfolding add_columns
  add_columns-taken c columns self id h =
      ap (λ r. unwrap_result r >>= λ added. add_columns columns added.0)
        (add_column-taken c self id h)

  add_columns-free :
      (c : ColumnCatalog DataType) (columns : List (ColumnCatalog DataType))
      (self : TableCatalog DataType RecExpr)
      → get c.desc.name self.column_idxs ≡ none
      → self.next_column_id + 1 < 2 ^ 32
      → add_columns (c ∷ columns) self ≡ add_columns columns (with_column c self)
  unfolding add_columns
  add_columns-free c columns self h small =
      ap (λ r. unwrap_result r >>= λ added. add_columns columns added.0)
        (add_column-free c self h small)

  add_column-full :
      (c : ColumnCatalog DataType) (self : TableCatalog DataType RecExpr)
      → get c.desc.name self.column_idxs ≡ none
      → ¬ (self.next_column_id + 1 < 2 ^ 32)
      → add_column c self ≡ panic
  unfolding add_column
  add_column-full c self h large = ground arith

  add_columns-full :
      (c : ColumnCatalog DataType) (columns : List (ColumnCatalog DataType))
      (self : TableCatalog DataType RecExpr)
      → get c.desc.name self.column_idxs ≡ none
      → ¬ (self.next_column_id + 1 < 2 ^ 32)
      → add_columns (c ∷ columns) self ≡ panic
  unfolding add_columns
  add_columns-full c columns self h large =
      ap (λ r. unwrap_result r >>= λ added. add_columns columns added.0)
        (add_column-full c self h large)

  add_columns-nil : (self : TableCatalog DataType RecExpr) → add_columns [] self ≡ ok self
  unfolding add_columns
  add_columns-nil self = refl

  -- The names that are taken are those of the index.
  abbrev Taken : List String → TableCatalog DataType RecExpr → Type 0
  Taken seen self = (name : String) → is_some (get name self.column_idxs) ≡ member name seen

  with_column-Taken :
      (c : ColumnCatalog DataType) (self : TableCatalog DataType RecExpr) (seen : List String)
      → Taken seen self
      → Taken (c.desc.name ∷ seen) (with_column c self)
  with_column-Taken c self seen h name =
      ap is_some (get-put c.desc.name c.id self.column_idxs name)
      ∙ elim (Bool-cases (same_text name c.desc.name)) [
        | inl same ↦ rw same refl
        | inr other ↦ rw other (h name)
      ]

  add_columns-clashes :
      (columns : List (ColumnCatalog DataType)) (self : TableCatalog DataType RecExpr)
      (seen : List String)
      → Taken seen self
      → self.next_column_id + length columns < 2 ^ 32
      → (clashes seen columns ≡ false
          → (t : TableCatalog DataType RecExpr) × (add_columns columns self ≡ ok t)
            × (t.id ≡ self.id)
            × (t.name ≡ self.name))
        × (clashes seen columns ≡ true → add_columns columns self ≡ panic)
  add_columns-clashes [] self seen h fits =
      ((λ fine. (self, add_columns-nil self, refl, refl)), λ bad. absurd (true≢false (sym bad)))
  add_columns-clashes (c ∷ columns) self seen h fits =
      elim (Option-cases (get c.desc.name self.column_idxs)) [
        | inr (id, there) ↦
            let taken : member c.desc.name seen ≡ true = sym (h c.desc.name) ∙ rw there refl in
            (
              (λ fine. absurd (true≢false (sym (rw taken refl) ∙ fine))),
              λ bad. add_columns-taken c columns self id there,
            )
        | inl free ↦
            let new : member c.desc.name seen ≡ false = sym (h c.desc.name) ∙ rw free refl in
            let step = add_columns-free c columns self free (omega arith) in
            let rest =
              add_columns-clashes columns (with_column c self) (c.desc.name ∷ seen)
                (with_column-Taken c self seen h) (omega arith) in
            (
              (λ fine. let (t, e, i, n) = rest.0 (rw new at fine) in (t, step ∙ e, i, n)),
              λ bad. step ∙ rest.1 (rw new at bad),
            )
      ]

  -- The catalog of a table or view is made exactly if no two of its columns have the same name and
  -- none is called `_rowid_`, the name of the column that is added first; otherwise making it
  -- panics. It is stated for fewer than 2 ^ 32 - 1 columns.
  pub new_kind-clashes :
      (int64 : DataType) (id : ℕ) (name : String) (columns : List (ColumnCatalog DataType))
      (kind : TableKind RecExpr) (primary_key : List ℕ)
      → length columns + 1 < 2 ^ 32
      → is_ok (new_kind int64 id name columns kind primary_key)
        ≡ not (clashes ("_rowid_" ∷ []) columns)
  unfolding new_kind
  new_kind-clashes int64 id name columns kind primary_key few =
      let cases =
        add_columns-clashes (rowid int64 ∷ columns)
          (record {
            id = id;
            name = name;
            column_idxs = [];
            columns = [];
            kind = kind;
            next_column_id = 0;
            primary_key = primary_key;
          })
          [] (λ n. refl) (omega arith) in
      elim (Bool-cases (clashes ("_rowid_" ∷ []) columns)) [
        | inl bad ↦ ap is_ok (cases.1 bad) ∙ rw bad refl
        | inr fine ↦ let (t, made, i, n) = cases.0 fine in ap is_ok made ∙ rw fine refl
      ]

  -- Adding columns leaves the id and the name of a table alone.
  add_columns-same :
      (columns : List (ColumnCatalog DataType)) (self : TableCatalog DataType RecExpr)
      → Returns (λ t. (t.id ≡ self.id) × (t.name ≡ self.name)) (add_columns columns self)
  add_columns-same [] self = rw (add_columns-nil self) (refl, refl)
  add_columns-same (c ∷ columns) self = elim (Option-cases (get c.desc.name self.column_idxs)) [
    | inr (id, there) ↦ rw (add_columns-taken c columns self id there) tt
    | inl free ↦ elim (dec_lt (self.next_column_id + 1) (2 ^ 32)) [
      | Dec.yes small ↦
          rw (add_columns-free c columns self free small)
            (add_columns-same columns (with_column c self))
      | Dec.no large ↦ rw (add_columns-full c columns self free large) tt
    ]
  ]

  pub new_kind-same :
      (int64 : DataType) (id : ℕ) (name : String) (columns : List (ColumnCatalog DataType))
      (kind : TableKind RecExpr) (primary_key : List ℕ)
      → Returns
          (λ t. (t.id ≡ id) × (t.name ≡ name))
          (new_kind int64 id name columns kind primary_key)
  unfolding new_kind
  new_kind-same int64 id name columns kind primary_key =
      add_columns-same (rowid int64 ∷ columns) (record {
        id = id;
        name = name;
        column_idxs = [];
        columns = [];
        kind = kind;
        next_column_id = 0;
        primary_key = primary_key;
      })
