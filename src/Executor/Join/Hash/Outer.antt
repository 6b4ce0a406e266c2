-- ===== src/Executor/Join/Hash/Outer.antt =====
-- The rows of the left side that no row of the right side meets, in some order.
use mathlib.Core.List.{Perm}
use mathlib.Core.List.Perm
use risinglight.Prelude.{
  ◌≡◌, refl, Bool, false, ◌||◌, List, [], ◌∷◌, ◌++◌, map, if◌then◌else◌, PartialEq, append_assoc,
  append-nil, inl, inr, Bool-cases, flat_map,
}
use risinglight.Prelude.KeyMap.{upsert}
use risinglight.Prelude.Permutation.{Perm-move}
use risinglight.Executor.Evaluate.{zip}
use risinglight.Executor.Join.Hash.{LeftKeyInfo, no_rows, HashMap, add_rows}

module _ {V : Type 0} (p : PartialEq (List V)) (left_key : List V → List V) where
  -- One of the keys is this one.
  abbrev pub met : List (List V) → List V → Bool
  met [] key = false
  met (k ∷ keys) key = p.eq k key || met keys key

  -- The rows of the left side whose key is none of `keys`.
  abbrev pub unmet : List (List V) → List (List V) → List (List V)
  unmet keys [] = []
  unmet keys (row ∷ rows) =
      if met keys (left_key row) then unmet keys rows else row ∷ unmet keys rows

  pub unmet-append :
      (keys xs ys : List (List V)) → unmet keys (xs ++ ys) ≡ unmet keys xs ++ unmet keys ys
  unmet-append keys [] ys = refl
  unmet-append keys (x ∷ xs) ys = elim (Bool-cases (met keys (left_key x))) [
    | inl yes_ ↦ rw (yes_, unmet-append keys xs ys)
    | inr no_ ↦ rw (no_, unmet-append keys xs ys)
  ]

  -- What is left of an entry after probes with `keys`.
  abbrev pub leftover : List (List V) → List V × LeftKeyInfo V → List (List V)
  leftover keys (key, info) = if met keys key then [] else info.rows

  leftover-upsert :
      (keys : List (List V)) (row key : List V) (hash_map : HashMap V)
      → Perm
          (flat_map
            (leftover keys)
            (upsert p key no_rows (λ info. record info { rows = info.rows ++ row ∷ [] }) hash_map))
          (flat_map (leftover keys) hash_map ++ (if met keys key then [] else row ∷ []))
  leftover-upsert keys row key [] = elim (Bool-cases (met keys key)) [
    | inl yes_ ↦ rw yes_ Perm.rfl
    | inr no_ ↦ rw no_ Perm.rfl
  ]
  leftover-upsert keys row key ((k, info) ∷ hash_map) = elim (Bool-cases (p.eq key k)) [
    | inl same ↦
        let e : key ≡ k = (p.eq_iff key k).0 same in
        rw (same, e)
          (elim (Bool-cases (met keys k)) [
            | inl yes_ ↦ rw (yes_, append-nil (flat_map (leftover keys) hash_map)) Perm.rfl
            | inr no_ ↦ rw no_ (Perm-move info.rows (row ∷ []) (flat_map (leftover keys) hash_map))
          ])
    | inr differ ↦
        rw (differ, append_assoc (leftover keys (k, info)) (flat_map (leftover keys) hash_map))
          (Perm.append_left (leftover keys (k, info)) (leftover-upsert keys row key hash_map))
  ]

  pub leftover-add_rows :
      (keys chunk rows : List (List V)) (hash_map : HashMap V)
      → Perm (flat_map (leftover keys) hash_map) (unmet keys rows)
      → Perm
          (flat_map (leftover keys) (add_rows p (zip chunk (map left_key chunk)) hash_map))
          (unmet keys (rows ++ chunk))
  unfolding add_rows
  leftover-add_rows keys [] rows hash_map h = rw (append-nil rows) h
  leftover-add_rows keys (row ∷ chunk) rows hash_map h = rw (← append_assoc rows (row ∷ []) chunk) (
      leftover-add_rows keys chunk (rows ++ row ∷ []) _ (
        rw (unmet-append keys rows (row ∷ []))
          (Perm.trans (leftover-upsert keys row (left_key row) hash_map) (Perm.append_right _ h))))
