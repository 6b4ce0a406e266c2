-- ===== src/Catalog/Schema/Indexes.antt =====
-- Indexes enter a schema, and leave its tables alone.
use Prim.Native.String.{String}
use risinglight.Prelude.{
  ℕ, ◌+◌, ◌^◌, ◌<◌, ◌≡◌, sym, ap, ◌∙◌, subst, none, some, List, ok, err, panic, arith, inl, inr,
  Option-cases, ok-injective, dec_lt, panic≢ok, err≢ok,
}
use risinglight.Prelude.Map.{insert}
use risinglight.Catalog.Names.{get, put}
use risinglight.Catalog.Table.{CatalogError}
use risinglight.Catalog.Schema.{SchemaCatalog, add_index}
use risinglight.Catalog.Schema.Laws.{IsConsistent}

module _ {DataType RecExpr IndexType : Type 0} where
  -- An index takes an id, and leaves the tables alone.
  abbrev with_index :
      String
      → ℕ
      → List ℕ
      → IndexType
      → SchemaCatalog DataType RecExpr IndexType
      → SchemaCatalog DataType RecExpr IndexType
  with_index name table_id columns index_type s = record s {
    next_id = s.next_id + 1;
    indexes_idxs = put name s.next_id s.indexes_idxs;
    indexes =
        insert s.next_id
          (record {
            id = s.next_id;
            name = name;
            table_id = table_id;
            column_idxs = columns;
            index_type = index_type;
          })
          s.indexes;
  }

  add_index-taken :
      (name : String) (table_id : ℕ) (columns : List ℕ) (index_type : IndexType)
      (s : SchemaCatalog DataType RecExpr IndexType) (other : ℕ)
      → get name s.indexes_idxs ≡ some other
      → add_index name table_id columns index_type s ≡ err (CatalogError.duplicated "index" name)
  unfolding add_index
  add_index-taken name table_id columns index_type s other taken = ground arith

  add_index-over :
      (name : String) (table_id : ℕ) (columns : List ℕ) (index_type : IndexType)
      (s : SchemaCatalog DataType RecExpr IndexType)
      → get name s.indexes_idxs ≡ none
      → ¬ (s.next_id + 1 < 2 ^ 32)
      → add_index name table_id columns index_type s ≡ panic
  unfolding add_index
  add_index-over name table_id columns index_type s free large = ground arith

  add_index-free :
      (name : String) (table_id : ℕ) (columns : List ℕ) (index_type : IndexType)
      (s : SchemaCatalog DataType RecExpr IndexType)
      → get name s.indexes_idxs ≡ none
      → s.next_id + 1 < 2 ^ 32
      → add_index name table_id columns index_type s
        ≡ ok (with_index name table_id columns index_type s, s.next_id)
  unfolding add_index
  add_index-free name table_id columns index_type s free small = ground arith

  add_index-ok :
      (name : String) (table_id : ℕ) (columns : List ℕ) (index_type : IndexType)
      (s s' : SchemaCatalog DataType RecExpr IndexType) (id : ℕ)
      → add_index name table_id columns index_type s ≡ ok (s', id)
      → with_index name table_id columns index_type s ≡ s'
  add_index-ok name table_id columns index_type s s' id e =
      elim (Option-cases (get name s.indexes_idxs)) [
        | inr (other, taken) ↦
            absurd
              (err≢ok (sym (add_index-taken name table_id columns index_type s other taken) ∙ e))
        | inl free ↦ elim (dec_lt (s.next_id + 1) (2 ^ 32)) [
          | Dec.no large ↦
              absurd
                (panic≢ok (sym (add_index-over name table_id columns index_type s free large) ∙ e))
          | Dec.yes small ↦
              ap (λ x. x.0)
                (ok-injective
                  (sym (add_index-free name table_id columns index_type s free small) ∙ e))
        ]
      ]

  pub add_index-IsConsistent :
      (name : String) (table_id : ℕ) (columns : List ℕ) (index_type : IndexType)
      (s s' : SchemaCatalog DataType RecExpr IndexType) (id : ℕ)
      → add_index name table_id columns index_type s ≡ ok (s', id)
      → IsConsistent s
      → IsConsistent s'
  add_index-IsConsistent name table_id columns index_type s s' id e w =
      subst IsConsistent (add_index-ok name table_id columns index_type s s' id e) (record {
        named = w.named;
        entered = λ i t there. let (named, small) = w.entered i t there in (named, omega arith);
      })
