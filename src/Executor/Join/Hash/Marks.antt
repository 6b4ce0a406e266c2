-- ===== src/Executor/Join/Hash/Marks.antt =====
-- The flags that the probes leave in the table, and what the end of the join makes of them.
use mathlib.Core.List.{Perm}
use risinglight.Prelude.{
  ◌≡◌, refl, sym, ◌∙◌, false, List, [], ◌∷◌, ◌++◌, map, if◌then◌else◌, PartialEq, inl, inr,
  Bool-cases, arith, flat_map, map-append, All,
}
use risinglight.Prelude.KeyMap.{upsert, alter}
use risinglight.Prelude.Permutation.{Perm-flat_map}
use risinglight.Executor.Evaluate.{zip}
use risinglight.Executor.Join.{JoinType, pad}
use risinglight.Executor.Join.Hash.{
  LeftKeyInfo, no_rows, set_matched, HashJoinExecutor, HashMap, add_rows, unmatched_rows,
}
use risinglight.Executor.Join.Hash.Probe.{marked}
use risinglight.Executor.Join.Hash.Outer.{met, leftover}

abbrev pub IsFresh : {V : Type 0} → List V × LeftKeyInfo V → Type 0
IsFresh e = e.1.matched ≡ false

module _ {V : Type 0} (p : PartialEq (List V)) (left_key : List V → List V) where
  upsert-IsFresh :
      (row key : List V) (hash_map : HashMap V)
      → All IsFresh hash_map
      → All IsFresh
          (upsert p key no_rows (λ info. record info { rows = info.rows ++ row ∷ [] }) hash_map)
  upsert-IsFresh row key [] h = (refl, tt)
  upsert-IsFresh row key ((k, info) ∷ hash_map) h = elim (Bool-cases (p.eq key k)) [
    | inl same ↦ rw same h
    | inr differ ↦ rw differ (h.0, upsert-IsFresh row key hash_map h.1)
  ]

  pub add_rows-IsFresh :
      (chunk : List (List V)) (hash_map : HashMap V)
      → All IsFresh hash_map
      → All IsFresh (add_rows p (zip chunk (map left_key chunk)) hash_map)
  unfolding add_rows
  add_rows-IsFresh [] hash_map h = h
  add_rows-IsFresh (row ∷ chunk) hash_map h =
      add_rows-IsFresh chunk _ (upsert-IsFresh row (left_key row) hash_map h)

  module _ (f : List V → List V) where
    -- what an entry gives at the end, after probes with `keys`
    abbrev out : List (List V) → List V × LeftKeyInfo V → List (List V)
    out keys (key, info) =
        if info.matched then [] else if met p left_key keys key then [] else map f info.rows

    out-alter :
        (k : List V) (keys : List (List V)) (hash_map : HashMap V)
        → flat_map (out keys) (alter p k set_matched hash_map) ≡ flat_map (out (k ∷ keys)) hash_map
    out-alter k keys [] = refl
    out-alter k keys ((key, info) ∷ hash_map) = ground (arith, out-alter k keys hash_map)

    out-marked :
        (keys : List (List V)) (hash_map : HashMap V)
        → flat_map (out []) (marked p keys hash_map) ≡ flat_map (out keys) hash_map
    out-marked [] hash_map = refl
    out-marked (k ∷ keys) hash_map =
        out-marked keys (alter p k set_matched hash_map) ∙ out-alter k keys hash_map

    out-IsFresh :
        (keys : List (List V)) (hash_map : HashMap V)
        → All IsFresh hash_map
        → flat_map (out keys) hash_map ≡ map f (flat_map (leftover p left_key keys) hash_map)
    out-IsFresh keys [] h = refl
    out-IsFresh keys ((key, info) ∷ hash_map) h = elim (Bool-cases (met p left_key keys key)) [
      | inl found ↦ rw (h.0, found, out-IsFresh keys hash_map h.1)
      | inr missing ↦
          rw (h.0, missing, out-IsFresh keys hash_map h.1)
            (sym (map-append f info.rows (flat_map (leftover p left_key keys) hash_map)))
    ]

  module _ {E D : Type 0} (null : V) (self : HashJoinExecutor E D V) where
    -- The end of the join gives the rows whose keys no probe met, each with nulls behind it.
    pub unmatched_rows-marked :
        (t : JoinType) (order : HashMap V → HashMap V) (keys : List (List V)) (hash_map : HashMap V)
        → ((m : HashMap V) → Perm (order m) m)
        → All IsFresh hash_map
        → Perm (unmatched_rows null p t order self (marked p keys hash_map)) (
            map
              (λ row. row ++ pad null self.right_types)
              (flat_map (leftover p left_key keys) hash_map))
    unfolding unmatched_rows
    unmatched_rows-marked t order keys hash_map permutes fresh =
        let f : List V → List V = λ row. row ++ pad null self.right_types in
        rw (← out-IsFresh f keys hash_map fresh, ← out-marked f keys hash_map)
          (Perm-flat_map (out f []) (permutes (marked p keys hash_map)))
