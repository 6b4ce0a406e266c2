-- ===== src/Catalog/Schema/Laws.antt =====
-- The two maps of tables, by name and by id, agree in every schema that the operations can make.
use mathlib.Core.Bool.{true≢false}
use Prim.Native.String.{String}
use text.Mathlib.TextEquality.{eq_iff}
use risinglight.Prelude.{
  ℕ, ◌+◌, ◌<◌, ◌≡◌, refl, sym, ap, ◌∙◌, subst, true, false, ◌==◌, none, some, arith, inl, inr,
  Bool-cases, some-injective, none≢some,
}
use risinglight.Prelude.Map.{lookup, insert, remove, lookup-insert, lookup-remove}
use risinglight.Catalog.Names.{get, put, delete, get-put, get-delete, get-differs, same_text}
use risinglight.Catalog.Table.{TableCatalog}
use risinglight.Catalog.Schema.{SchemaCatalog}

module _ {DataType RecExpr IndexType : Type 0} where
  pub record IsConsistent (s : SchemaCatalog DataType RecExpr IndexType) : Type 0 where
    pub named :
        (name : String) (id : ℕ)
        → get name s.table_idxs ≡ some id
        → (t : TableCatalog DataType RecExpr) × (lookup id s.tables ≡ some t) × (t.name ≡ name)
    pub entered :
        (id : ℕ) (t : TableCatalog DataType RecExpr)
        → lookup id s.tables ≡ some t
        → (get t.name s.table_idxs ≡ some id) × (id < s.next_id)

  -- A new table under a new name.
  abbrev pub with_table :
      String
      → TableCatalog DataType RecExpr
      → SchemaCatalog DataType RecExpr IndexType
      → SchemaCatalog DataType RecExpr IndexType
  with_table name table s = record s {
    next_id = s.next_id + 1;
    table_idxs = put name s.next_id s.table_idxs;
    tables = insert s.next_id table s.tables;
  }

  pub with_table-IsConsistent :
      (name : String) (table : TableCatalog DataType RecExpr)
      (s : SchemaCatalog DataType RecExpr IndexType)
      → get name s.table_idxs ≡ none
      → table.name ≡ name
      → IsConsistent s
      → IsConsistent (with_table name table s)
  with_table-IsConsistent name table s new_name same_name w = record {
    named = λ other id e.
        let found = sym (get-put name s.next_id s.table_idxs other) ∙ e in
        elim (Bool-cases (same_text other name)) [
          | inl same ↦
              let this : s.next_id ≡ id = some-injective (rw same at found) in
              (
                table,
                subst (λ i. lookup i (insert s.next_id table s.tables) ≡ some table) this
                    (lookup-insert s.next_id table s.tables s.next_id ∙ ground arith),
                same_name ∙ sym ((eq_iff other name).0 same),
              )
          | inr differs ↦
              let (t, there, named) = w.named other id (rw differs at found) in
              let old : (id == s.next_id) ≡ false = ground (arith, (w.entered id t there).1) in
              (t, lookup-insert s.next_id table s.tables id ∙ rw old there, named)
        ];
    entered = λ id t e.
        let found = sym (lookup-insert s.next_id table s.tables id) ∙ e in
        elim (Bool-cases (id == s.next_id)) [
          | inl same ↦
              let this : table ≡ t = some-injective (rw same at found) in
              let at : id ≡ s.next_id = ground arith in
              let taken : same_text t.name name ≡ true =
                (eq_iff t.name name).1 (ap (λ x. x.name) (sym this) ∙ same_name) in
              (get-put name s.next_id s.table_idxs t.name ∙ rw (taken, at) refl, omega arith)
          | inr differs ↦
              let (there, small) = w.entered id t (rw differs at found) in
              let unlike : same_text t.name name ≡ false =
                get-differs name t.name s.table_idxs new_name there in
              (get-put name s.next_id s.table_idxs t.name ∙ rw unlike there, omega arith)
        ];
  }

  pub without_table-IsConsistent :
      (id : ℕ) (table : TableCatalog DataType RecExpr)
      (s : SchemaCatalog DataType RecExpr IndexType)
      → lookup id s.tables ≡ some table
      → IsConsistent s
      → IsConsistent
          (record s { tables = remove id s.tables; table_idxs = delete table.name s.table_idxs })
  without_table-IsConsistent id table s there w = record {
    named = λ other id' e.
        let found = sym (get-delete table.name s.table_idxs other) ∙ e in
        elim (Bool-cases (same_text other table.name)) [
          | inl same ↦ absurd (none≢some (rw same at found))
          | inr differs ↦
              let (t, here, named) = w.named other id' (rw differs at found) in
              let apart : (id' == id) ≡ false = elim (Bool-cases (id' == id)) [
                | inr other_id ↦ other_id
                | inl equal ↦
                    let at : id' ≡ id = ground arith in
                    let one : t ≡ table =
                      some-injective (sym here ∙ ap (λ i. lookup i s.tables) at ∙ there) in
                    absurd (
                      true≢false (
                        sym ((eq_iff other table.name).1 (sym named ∙ ap (λ x. x.name) one))
                        ∙ differs))
              ] in
              (t, lookup-remove id s.tables id' ∙ rw apart here, named)
        ];
    entered = λ id' t e.
        let found = sym (lookup-remove id s.tables id') ∙ e in
        elim (Bool-cases (id' == id)) [
          | inl same ↦ absurd (none≢some (rw same at found))
          | inr differs ↦
              let (named, small) = w.entered id' t (rw differs at found) in
              let unlike : same_text t.name table.name ≡ false =
                elim (Bool-cases (same_text t.name table.name)) [
                  | inr other ↦ other
                  | inl same ↦
                      let one : id ≡ id' = some-injective (
                        sym (w.entered id table there).0
                        ∙ ap (λ n. get n s.table_idxs) (sym ((eq_iff t.name table.name).0 same))
                        ∙ named) in
                      ground (arith, one, differs)
                ] in
              (get-delete table.name s.table_idxs t.name ∙ rw unlike named, small)
        ];
  }
