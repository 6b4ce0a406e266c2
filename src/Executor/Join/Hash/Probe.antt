-- ===== src/Executor/Join/Hash/Probe.antt =====
-- The table that is built from the left side, and what the probes with the right side give.
use risinglight.Prelude.{
  ◌≡◌, ◌≢◌, refl, sym, ap, Bool, true, false, Option, none, some, List, [], ◌∷◌, ◌++◌, map,
  if◌then◌else◌, PartialEq, append_assoc, append-nil, inl, inr, Bool-cases, unwrap_or, Option-cases,
  subst, none≢some,
}
use mathlib.Core.Option
use risinglight.Prelude.KeyMap.{lookup, upsert, alter, lookup-upsert, lookup-alter}
use risinglight.Executor.Evaluate.{zip}
use risinglight.Executor.Join.{JoinType, keeps_right, pad}
use risinglight.Executor.Join.Hash.{
  LeftKeyInfo, no_rows, set_matched, HashJoinExecutor, HashMap, add_rows, probe_row,
}

-- `first`, or `second` if there is nothing in it
abbrev pub or_else : {A : Type 0} → List A → List A → List A
or_else [] second = second
or_else (x ∷ first) second = x ∷ first

pub or_else-map :
    {A B : Type 0} (f : A → B) (xs : List A) (second : List B)
    → xs ≢ []
    → or_else (map f xs) second ≡ map f xs
or_else-map f [] second h = absurd (h refl)
or_else-map f (x ∷ xs) second h = refl

module _ {V : Type 0} (p : PartialEq (List V)) where
  -- The table after probes with some keys.
  abbrev pub marked : List (List V) → HashMap V → HashMap V
  marked [] hash_map = hash_map
  marked (key ∷ keys) hash_map = marked keys (alter p key set_matched hash_map)

  pub marked-append :
      (keys keys' : List (List V)) (hash_map : HashMap V)
      → marked (keys ++ keys') hash_map ≡ marked keys' (marked keys hash_map)
  marked-append [] keys' hash_map = refl
  marked-append (key ∷ keys) keys' hash_map =
      marked-append keys keys' (alter p key set_matched hash_map)

module _ {V : Type 0} (p : PartialEq (List V)) (key_of : List V → List V) where
  -- The rows with a key, in their order.
  abbrev pub matches : List V → List (List V) → List (List V)
  matches key [] = []
  matches key (row ∷ rows) =
      if p.eq key (key_of row) then row ∷ matches key rows else matches key rows

  pub matches-append :
      (key : List V) (xs ys : List (List V))
      → matches key (xs ++ ys) ≡ matches key xs ++ matches key ys
  matches-append key [] ys = refl
  matches-append key (x ∷ xs) ys = elim (Bool-cases (p.eq key (key_of x))) [
    | inl same ↦ rw (same, matches-append key xs ys)
    | inr differ ↦ rw (differ, matches-append key xs ys)
  ]

  -- What the table has at a key whose rows are `rows`.
  abbrev pub Entry : Option (LeftKeyInfo V) → List (List V) → Type 0
  Entry none rows = rows ≡ []
  Entry (some info) rows = (info.rows ≡ rows) × (rows ≢ [])

  -- The table has the rows `rows`.
  abbrev pub Holds : HashMap V → List (List V) → Type 0
  Holds hash_map rows = (key : List V) → Entry (lookup p key hash_map) (matches key rows)

  snoc-ne-nil : (rows : List (List V)) (row : List V) → rows ++ row ∷ [] ≢ []
  snoc-ne-nil [] row h = cc
  snoc-ne-nil (x ∷ rows) row h = cc

  Entry-push :
      (row : List V) (o : Option (LeftKeyInfo V)) (rows : List (List V))
      → Entry o rows
      → ((unwrap_or no_rows o).rows ++ row ∷ [] ≡ rows ++ row ∷ []) × (rows ++ row ∷ [] ≢ [])
  Entry-push row none rows h = (rw h, snoc-ne-nil rows row)
  Entry-push row (some info) rows h = (rw h.0, snoc-ne-nil rows row)

  pub upsert-Holds :
      (row : List V) (hash_map : HashMap V) (rows : List (List V))
      → Holds hash_map rows
      → Holds
          (upsert p
            (key_of row)
            no_rows
            (λ info. record info { rows = info.rows ++ row ∷ [] })
            hash_map)
          (rows ++ row ∷ [])
  upsert-Holds row hash_map rows h key =
      rw
        (
          lookup-upsert p (key_of row) no_rows
              (λ info. record info { rows = info.rows ++ row ∷ [] }) hash_map key,
          matches-append key rows (row ∷ []),
        )
        (elim (Bool-cases (p.eq key (key_of row))) [
          | inl same ↦
              let e : key ≡ key_of row = (p.eq_iff key (key_of row)).0 same in
              rw (same, e)
                (Entry-push row (lookup p (key_of row) hash_map) (matches (key_of row) rows)
                  (h (key_of row)))
          | inr differ ↦ rw (differ, append-nil (matches key rows)) (h key)
        ])

  pub add_rows-Holds :
      (chunk rows : List (List V)) (hash_map : HashMap V)
      → Holds hash_map rows
      → Holds (add_rows p (zip chunk (map key_of chunk)) hash_map) (rows ++ chunk)
  unfolding add_rows
  add_rows-Holds [] rows hash_map h = rw (append-nil rows) h
  add_rows-Holds (row ∷ chunk) rows hash_map h =
      rw (← append_assoc rows (row ∷ []) chunk)
        (add_rows-Holds chunk (rows ++ row ∷ []) _ (upsert-Holds row hash_map rows h))

  Entry-set_matched :
      (b : Bool) (o : Option (LeftKeyInfo V)) (rows : List (List V))
      → Entry o rows
      → Entry (Option.map (λ info. if b then set_matched info else info) o) rows
  Entry-set_matched b none rows h = h
  Entry-set_matched true (some info) rows h = h
  Entry-set_matched false (some info) rows h = h

  pub alter-Holds :
      (keys : List V) (hash_map : HashMap V) (rows : List (List V))
      → Holds hash_map rows
      → Holds (alter p keys set_matched hash_map) rows
  alter-Holds keys hash_map rows h key =
      rw (lookup-alter p keys set_matched hash_map key)
        (Entry-set_matched (p.eq keys key) (lookup p key hash_map) (matches key rows) (h key))

  pub marked-Holds :
      (keys : List (List V)) (hash_map : HashMap V) (left : List (List V))
      → Holds hash_map left
      → Holds (marked p keys hash_map) left
  marked-Holds [] hash_map left h = h
  marked-Holds (key ∷ keys) hash_map left h =
      marked-Holds keys (alter p key set_matched hash_map) left (alter-Holds key hash_map left h)

  alter-absent :
      (keys : List V) (f : LeftKeyInfo V → LeftKeyInfo V) (hash_map : HashMap V)
      → lookup p keys hash_map ≡ none
      → alter p keys f hash_map ≡ hash_map
  alter-absent keys f [] h = refl
  alter-absent keys f ((k, info) ∷ hash_map) h = elim (Bool-cases (p.eq keys k)) [
    | inl same ↦ absurd (none≢some (sym (rw same at h)))
    | inr differ ↦ rw differ (ap (◌∷◌ (k, info)) (alter-absent keys f hash_map (rw differ at h)))
  ]

module _ {E D V : Type 0} (null : V) (p : PartialEq (List V)) (t : JoinType)
    (self : HashJoinExecutor E D V) (left_key : List V → List V) where
  -- What a row of the right side gives: itself beside each row of the left side with its key. A join
  -- that keeps the right side gives it with nulls if there is none.
  abbrev pub joined : (right_key : List V → List V) → List (List V) → List V → List (List V)
  joined right_key left right_row =
      or_else
        (map (λ left_row. left_row ++ right_row) (matches p left_key (right_key right_row) left))
        (if keeps_right t then (pad null self.left_types ++ right_row) ∷ [] else [])

  pub probe_row_lem :
      (right_key : List V → List V) (left : List (List V)) (right_row : List V)
      (hash_map : HashMap V)
      → Holds p left_key hash_map left
      → probe_row null p t self right_row (right_key right_row) hash_map
        ≡ (joined right_key left right_row, alter p (right_key right_row) set_matched hash_map)
  unfolding probe_row
  probe_row_lem right_key left right_row hash_map h =
      let key = right_key right_row in
      elim (Option-cases (lookup p key hash_map)) [
        | inl absent ↦
            let nothing : matches p left_key key left ≡ [] =
              subst (λ o. Entry p left_key o (matches p left_key key left)) absent (h key) in
            rw (absent, probe_row, nothing, alter-absent p left_key key set_matched hash_map absent)
        | inr (info, found) ↦
            let entry : (info.rows ≡ matches p left_key key left)
                × (matches p left_key key left ≢ []) =
              subst (λ o. Entry p left_key o (matches p left_key key left)) found (h key) in
            rw (found, probe_row, entry.0)
              (ap (λ (out : List (List V)). (out, alter p key set_matched hash_map))
                (sym (
                  or_else-map (λ left_row. left_row ++ right_row) (matches p left_key key left) _
                    entry.1)))
      ]
