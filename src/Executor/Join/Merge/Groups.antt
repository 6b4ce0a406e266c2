-- ===== src/Executor/Join/Merge/Groups.antt =====
-- The groups of a side: `group_by_keys` gives the runs of rows with equal keys.
use risinglight.Prelude.{
  ◌≡◌, ◌≢◌, refl, ap, ◌∙◌, true, false, List, [], ◌∷◌, ◌++◌, map, flat_map, ok, All, if◌then◌else◌,
  append_assoc, inl, inr, Bool-cases, err≢ok, panic≢ok, Result, subst,
}
use risinglight.Prelude.KeyMap.{eq_refl}
use risinglight.Prelude.Ord.{Ord}
use risinglight.Executor.Stream.{Stream, rows, ending}
use risinglight.Executor.Evaluate.{IsRowWise, zip}
use risinglight.Executor.Join.Merge.{
  Group, is_empty, group_rows, group_finish, group_loop, group_by_keys,
}

-- A stream of some items that ends without an error.
abbrev pub of_list : {E B : Type 0} → List B → Stream E B
of_list [] = Stream.done
of_list (x ∷ xs) = Stream.yielded x (of_list xs)

-- The rows of some groups.
abbrev pub flat : {V : Type 0} → List (Group V) → List (List V)
flat groups = flat_map (λ (g : Group _). g.1) groups

module _ {V : Type 0} (o : Ord (List V)) (key : List V → List V) where
  -- A group that is followed by others: the first of them may be its continuation.
  abbrev pub attach : Group V → List (Group V) → List (Group V)
  attach g [] = g ∷ []
  attach (k, c) ((k', c') ∷ gs) =
      if o.equality.eq k' k then (k, c ++ c') ∷ gs else (k, c) ∷ (k', c') ∷ gs

  -- The runs of rows with equal keys.
  abbrev pub groups_of : List (List V) → List (Group V)
  groups_of [] = []
  groups_of (row ∷ rs) = attach (key row, row ∷ []) (groups_of rs)

  -- Every row has the key.
  abbrev pub Keyed : List V → List (List V) → Type 0
  Keyed k c = All (λ row. key row ≡ k) c

  -- Every group comes behind the key.
  abbrev pub Above : List V → List (Group V) → Type 0
  Above k gs = All (λ (g : Group V). o.lt k g.0 ≡ true) gs

  -- Groups in ascending order of their keys.
  abbrev pub Ascending : List (Group V) → Type 0
  Ascending [] = Unit {0}
  Ascending ((k, c) ∷ gs) = Keyed k c × (c ≢ []) × Above k gs × Ascending gs

  -- No row comes behind a row with a greater key.
  abbrev pub IsSorted : List (List V) → Type 0
  IsSorted [] = Unit {0}
  IsSorted (row ∷ rs) = All (λ next. o.lt (key next) (key row) ≡ false) rs × IsSorted rs

  pub Above-trans :
      (k k' : List V) (gs : List (Group V)) → o.lt k k' ≡ true → Above k' gs → Above k gs
  Above-trans k k' [] h a = tt
  Above-trans k k' (g ∷ gs) h a = (o.lt_trans k k' g.0 h a.0, Above-trans k k' gs h a.1)

  flat-attach :
      (k : List V) (c : List (List V)) (gs : List (Group V))
      → flat (attach (k, c) gs) ≡ c ++ flat gs
  flat-attach k c [] = refl
  flat-attach k c ((k', c') ∷ gs) = elim (Bool-cases (o.equality.eq k' k)) [
    | inl same ↦ rw (same, append_assoc c c' (flat gs))
    | inr differ ↦ rw differ
  ]

  pub flat-groups_of : (rs : List (List V)) → flat (groups_of rs) ≡ rs
  flat-groups_of [] = refl
  flat-groups_of (row ∷ rs) =
      flat-attach (key row) (row ∷ []) (groups_of rs) ∙ ap (◌∷◌ row) (flat-groups_of rs)

  first_key :
      (row : List V) (k : List V) (c : List (List V)) (rest : List (List V))
      → Keyed k c
      → c ≢ []
      → All (λ next. o.lt (key next) (key row) ≡ false) (c ++ rest)
      → o.lt k (key row) ≡ false
  first_key row k [] rest keyed some_ h = absurd (some_ refl)
  first_key row k (r ∷ c) rest keyed some_ h = rw (← keyed.0) h.0

  attach-Ascending :
      (row : List V) (gs : List (Group V))
      → Ascending gs
      → All (λ next. o.lt (key next) (key row) ≡ false) (flat gs)
      → Ascending (attach (key row, row ∷ []) gs)
  attach-Ascending row [] a h = ((refl, tt), (λ e. cc), tt, tt)
  attach-Ascending row ((k, c) ∷ gs) a h = elim (Bool-cases (o.equality.eq k (key row))) [
    | inl same ↦
        let e : k ≡ key row = (o.equality.eq_iff k (key row)).0 same in
        let keyed : Keyed (key row) c = subst (λ k'. Keyed k' c) e a.0 in
        let above : Above (key row) gs = subst (λ k'. Above k' gs) e a.2 in
        rw same ((refl, keyed), (λ e'. cc), above, a.3)
    | inr differ ↦
        let before = first_key row k c (flat gs) a.0 a.1 h in
        let less = o.lt_total k (key row) differ before in
        rw differ ((refl, tt), (λ e. cc), (less, Above-trans (key row) k gs less a.2), a)
  ]

  pub groups_of-Ascending : (rs : List (List V)) → IsSorted rs → Ascending (groups_of rs)
  groups_of-Ascending [] h = tt
  groups_of-Ascending (row ∷ rs) h =
      attach-Ascending row (groups_of rs) (groups_of-Ascending rs h.1) (rw (flat-groups_of rs) h.0)

  attach-step :
      (k : List V) (c : List (List V)) (row : List V) (gs : List (Group V))
      → key row ≡ k
      → attach (k, c ++ row ∷ []) gs ≡ attach (k, c) (attach (key row, row ∷ []) gs)
  attach-step k c row [] e = rw (e, eq_refl o.equality k)
  attach-step k c row ((k', c') ∷ gs) e = elim (Bool-cases (o.equality.eq k' k)) [
    | inl same ↦ rw (e, same, eq_refl o.equality k, append_assoc c (row ∷ []) c')
    | inr differ ↦ rw (e, differ, eq_refl o.equality k)
  ]

  attach-break :
      (k : List V) (c : List (List V)) (row : List V) (gs : List (Group V))
      → o.equality.eq (key row) k ≡ false
      → attach (k, c) (attach (key row, row ∷ []) gs) ≡ (k, c) ∷ attach (key row, row ∷ []) gs
  attach-break k c row [] differ = rw differ
  attach-break k c row ((k', c') ∷ gs) differ = elim (Bool-cases (o.equality.eq k' (key row))) [
    | inl same ↦ rw (same, differ)
    | inr other ↦ rw (other, differ)
  ]

module _ {V : Type 0} (key : List V → List V) where
  abbrev keyed_row : List V → List V × List V
  keyed_row row = (row, key row)

  zip-keys : (rs : List (List V)) → zip rs (map key rs) ≡ map keyed_row rs
  zip-keys [] = refl
  zip-keys (row ∷ rs) = rw (zip-keys rs)

module _ {E V : Type 0} (o : Ord (List V)) (key : List V → List V)
    (has_key : (row : List V) → is_empty (key row) ≡ false) where
  -- What is still to come with some rows ahead: at the beginning there is no current group.
  abbrev grouped : List V → List (List V) → List (List V) → Stream E (Group V)
  grouped k c rs =
      if is_empty k
      then of_list (groups_of o key rs)
      else of_list (attach o key (k, c) (groups_of o key rs))

  group_rows_lem :
      (rs rest : List (List V)) (k : List V) (c : List (List V))
      (next : List V → List (List V) → Stream E (Group V))
      → ((k' : List V) (c' : List (List V)) → next k' c' ≡ grouped k' c' rest)
      → group_rows o (map (keyed_row key) rs) k c next ≡ grouped k c (rs ++ rest)
  unfolding group_rows
  group_rows_lem [] rest k c next h = h k c
  group_rows_lem (row ∷ rs) rest k c next h =
      let gs = groups_of o key (rs ++ rest) in
      let changed : group_rows o (map (keyed_row key) rs) (key row) (row ∷ []) next
          ≡ of_list (attach o key (key row, row ∷ []) gs) =
        group_rows_lem rs rest (key row) (row ∷ []) next h ∙ rw (has_key row) in
      elim (Bool-cases (o.equality.eq (key row) k)) [
        | inl same ↦
            let e : key row ≡ k = (o.equality.eq_iff (key row) k).0 same in
            let full : is_empty k ≡ false = subst (λ k. is_empty k ≡ false) e (has_key row) in
            rw same (
              group_rows_lem rs rest k (c ++ row ∷ []) next h
              ∙ rw (full, attach-step o key k c row gs e))
        | inr differ ↦ elim (Bool-cases (is_empty k)) [
          | inl none_ ↦ rw (differ, none_, changed)
          | inr some_ ↦ rw (differ, some_, changed, attach-break o key k c row gs differ)
        ]
      ]

  group_finish_lem : (k : List V) (c : List (List V)) → group_finish o k c ≡ grouped k c []
  unfolding group_finish
  group_finish_lem k c = elim (Bool-cases (is_empty k)) [
    | inl none_ ↦ rw none_
    | inr some_ ↦ rw some_
  ]

  module _ (keys_expr : List (List V) → Result E (List (List V)))
      (row_wise : IsRowWise keys_expr key) where
    group_loop_lem :
        (stream : Stream E (List (List V))) (k : List V) (c : List (List V))
        → ending stream ≡ ok tt
        → group_loop o keys_expr stream k c ≡ grouped k c (rows stream)
    unfolding group_loop
    group_loop_lem Stream.done k c e = group_finish_lem k c
    group_loop_lem (Stream.failed x) k c e = absurd (err≢ok e)
    group_loop_lem Stream.panicked k c e = absurd (panic≢ok e)
    group_loop_lem (Stream.yielded chunk stream) k c e =
        rw (row_wise chunk, zip-keys key chunk)
          (group_rows_lem chunk (rows stream) k c (group_loop o keys_expr stream)
            (λ k' c'. group_loop_lem stream k' c' e))

    -- The groups are the runs of rows with equal keys.
    pub group_by_keys_lem :
        (stream : Stream E (List (List V)))
        → ending stream ≡ ok tt
        → group_by_keys o keys_expr stream ≡ of_list (groups_of o key (rows stream))
    unfolding group_by_keys
    group_by_keys_lem stream e = group_loop_lem stream [] [] e
