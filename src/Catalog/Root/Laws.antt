-- ===== src/Catalog/Root/Laws.antt =====
-- The root catalog leads names to the tables that its schemas have.
use Prim.Native.String.{String}
use risinglight.Prelude.{
  ℕ, ◌≡◌, refl, sym, ap, ◌∙◌, subst, some, List, Result, ok, err, panic, ◌>>=◌, inl, inr,
  Bool-cases, arith, ok-injective, some-injective, panic≢ok, err≢ok, ◌==◌,
}
use risinglight.Prelude.Map.{lookup, insert, lookup-insert}
use risinglight.Catalog.Names.{get}
use risinglight.Catalog.Table.{new, ColumnCatalog, TableCatalog, CatalogError}
use risinglight.Catalog.Schema
use risinglight.Catalog.Schema.{SchemaCatalog}
use risinglight.Catalog.Schema.Enter.{enter-ok, add_table-ok}
use risinglight.Catalog.Schema.Reach.{Reachable, add_table_lem}
use risinglight.Catalog.Root.{
  Inner, TableRefId, change, add_table, get_schema_by_id, get_schema_by_name, get_table_id_by_name,
  get_table,
}

abbrev pass : {E A B : Type 0} → (A → B) → A × ℕ → Result E (B × ℕ)
pass f x = ok (f x.0, x.1)

-- A result that is passed on was a result.
passed_on :
    {E A B : Type 0} (r : Result E (A × ℕ)) (f : A → B) (b : B) (id : ℕ)
    → (r >>= pass f) ≡ ok (b, id)
    → (a : A) × (r ≡ ok (a, id)) × (f a ≡ b)
passed_on (ok (a, i)) f b id e =
    let same = ok-injective e in (a, ap (λ j. ok (a, j)) (ap (λ x. x.1) same), ap (λ x. x.0) same)
passed_on (err x) f b id e = absurd (err≢ok e)
passed_on panic f b id e = absurd (panic≢ok e)

ref_eq :
    {a b c d : ℕ}
    → a ≡ b
    → c ≡ d
    → ◌≡◌ {A = TableRefId}
        (record { schema_id = a; table_id = c })
        (record { schema_id = b; table_id = d })
ref_eq p q = rw (p, q) refl

module _ {DataType RecExpr IndexType : Type 0} where
  change-ok :
      (schema_id : ℕ)
      (operation : SchemaCatalog DataType RecExpr IndexType
        → Result CatalogError (SchemaCatalog DataType RecExpr IndexType × ℕ))
      (self self' : Inner DataType RecExpr IndexType) (id : ℕ)
      (schema : SchemaCatalog DataType RecExpr IndexType)
      → lookup schema_id self.schemas ≡ some schema
      → change schema_id operation self ≡ ok (self', id)
      → (schema' : SchemaCatalog DataType RecExpr IndexType) × (operation schema ≡ ok (schema', id))
        × (record self { schemas = insert schema_id schema' self.schemas } ≡ self')
  change-ok schema_id operation self self' id schema there e =
      passed_on (operation schema) (λ s. record self { schemas = insert schema_id s self.schemas })
        self' id (rw there at e)

  -- The index of schemas leads to schemas, and each of them was made by the operations on schemas.
  pub record IsSound (int64 : DataType) (self : Inner DataType RecExpr IndexType) : Type 0 where
    pub indexed :
        (name : String) (id : ℕ)
        → get name self.schema_idxs ≡ some id
        → (s : SchemaCatalog DataType RecExpr IndexType) × (lookup id self.schemas ≡ some s)
    pub made :
        (id : ℕ) (s : SchemaCatalog DataType RecExpr IndexType)
        → lookup id self.schemas ≡ some s
        → (s.id ≡ id) × Reachable int64 s

  add_table-change :
      (int64 : DataType) (schema_id : ℕ) (name : String) (columns : List (ColumnCatalog DataType))
      (pks : List ℕ) (self self' : Inner DataType RecExpr IndexType) (id : ℕ)
      (schema : SchemaCatalog DataType RecExpr IndexType)
      → lookup schema_id self.schemas ≡ some schema
      → add_table int64 schema_id name columns pks self ≡ ok (self', id)
      → (schema' : SchemaCatalog DataType RecExpr IndexType) × (Schema.add_table int64 name columns
            pks schema
          ≡ ok (schema', id))
        × (record self { schemas = insert schema_id schema' self.schemas } ≡ self')
  unfolding add_table
  add_table-change int64 schema_id name columns pks self self' id schema there e =
      change-ok schema_id (Schema.add_table int64 name columns pks) self self' id schema there e

  same_schema_id :
      (int64 : DataType) (name : String) (columns : List (ColumnCatalog DataType)) (pks : List ℕ)
      (s s' : SchemaCatalog DataType RecExpr IndexType) (id : ℕ)
      → Schema.add_table int64 name columns pks s ≡ ok (s', id)
      → s'.id ≡ s.id
  same_schema_id int64 name columns pks s s' id e =
      let (free, entered) = add_table-ok int64 name columns pks s s' id e in
      let (table, made, same, same_id) =
        enter-ok name (λ i. new int64 i name columns pks) s s' id entered in
      sym (ap (λ x. x.id) same)

  found_by_name :
      (self : Inner DataType RecExpr IndexType) (schema_name name : String) (schema_id : ℕ)
      (schema : SchemaCatalog DataType RecExpr IndexType) (t : TableCatalog DataType RecExpr)
      → get schema_name self.schema_idxs ≡ some schema_id
      → lookup schema_id self.schemas ≡ some schema
      → Schema.get_table_by_name schema name ≡ some t
      → get_table_id_by_name self schema_name name
        ≡ some (record { schema_id = schema.id; table_id = t.id })
  unfolding get_table_id_by_name get_schema_by_name
  found_by_name self schema_name name schema_id schema t named there found = ground arith

  changed-IsSound :
      (int64 : DataType) (self : Inner DataType RecExpr IndexType) (schema_id : ℕ)
      (schema : SchemaCatalog DataType RecExpr IndexType)
      → IsSound int64 self
      → (schema.id ≡ schema_id) × Reachable int64 schema
      → IsSound int64 (record self { schemas = insert schema_id schema self.schemas })
  changed-IsSound int64 self schema_id schema sound good = record {
    indexed = λ name id e.
        let found = lookup-insert schema_id schema self.schemas id in
        elim (Bool-cases (id == schema_id)) [
          | inl same ↦ (schema, found ∙ rw same refl)
          | inr other ↦ let (s, there) = sound.indexed name id e in (s, found ∙ rw other there)
        ];
    made = λ id s e.
        let found = sym (lookup-insert schema_id schema self.schemas id) ∙ e in
        elim (Bool-cases (id == schema_id)) [
          | inl same ↦
              let this : schema ≡ s = some-injective (rw same at found) in
              let at : schema_id ≡ id = ground arith in
              subst (λ x. (x.id ≡ id) × Reachable int64 x) this (good.0 ∙ at, good.1)
          | inr other ↦ sound.made id s (rw other at found)
        ];
  }

  get_table-found :
      (self : Inner DataType RecExpr IndexType) (schema_id id : ℕ)
      (schema : SchemaCatalog DataType RecExpr IndexType)
      → lookup schema_id self.schemas ≡ some schema
      → get_table self (record { schema_id = schema_id; table_id = id })
        ≡ Schema.get_table_by_id schema id
  unfolding get_table get_schema_by_id
  get_table-found self schema_id id schema there = ground arith

  -- How the names of a schema and a table lead to the table.
  abbrev pub LeadsTo :
      DataType → String → String → ℕ → ℕ → Inner DataType RecExpr IndexType → Type 0
  LeadsTo int64 schema_name name schema_id id self' =
      IsSound int64 self'
      × (get_table_id_by_name self' schema_name name
          ≡ some (record { schema_id = schema_id; table_id = id }))
      × ((t : TableCatalog DataType RecExpr) × (get_table self'
              (record { schema_id = schema_id; table_id = id })
            ≡ some t)
          × (t.name ≡ name))

  -- A table that is added to a schema under a name is found by the names of the schema and the table
  -- afterwards, as the id that was returned, and by that id, as a table of that name; and the
  -- catalog stays sound. It is stated for a sound catalog, where the schema's name leads to its id.
  pub get_table_id_by_name-add_table :
      (int64 : DataType) (schema_name name : String) (schema_id : ℕ)
      (columns : List (ColumnCatalog DataType)) (pks : List ℕ)
      (self self' : Inner DataType RecExpr IndexType) (id : ℕ)
      → IsSound int64 self
      → get schema_name self.schema_idxs ≡ some schema_id
      → add_table int64 schema_id name columns pks self ≡ ok (self', id)
      → LeadsTo int64 schema_name name schema_id id self'
  get_table_id_by_name-add_table int64 schema_name name schema_id columns pks self self' id sound
        named e =
      let (schema, there) = sound.indexed schema_name schema_id named in
      let (schema', added, same) =
        add_table-change int64 schema_id name columns pks self self' id schema there e in
      let (same_id, reached) = sound.made schema_id schema there in
      let (fresh, (t, by_name, by_id, t_id, t_name)) =
        add_table_lem int64 name columns pks schema schema' id reached added in
      let s_id : schema'.id ≡ schema_id =
        same_schema_id int64 name columns pks schema schema' id added ∙ same_id in
      let here : lookup schema_id (insert schema_id schema' self.schemas) ≡ some schema' =
        lookup-insert schema_id schema' self.schemas schema_id ∙ ground arith in
      let after : Inner DataType RecExpr IndexType = record self {
        schemas = insert schema_id schema' self.schemas;
      } in
      let result : LeadsTo int64 schema_name name schema_id id after = (
        changed-IsSound int64 self schema_id schema' sound
            (s_id, Reachable.table_added name columns pks reached added),
        found_by_name after schema_name name schema_id schema' t named here by_name
            ∙ ap some (ref_eq s_id t_id),
        (t, get_table-found after schema_id id schema' here ∙ by_id, t_name),
      ) in
      subst (LeadsTo int64 schema_name name schema_id id) same result
