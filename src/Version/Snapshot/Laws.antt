-- ===== src/Version/Snapshot/Laws.antt =====
-- A snapshot as a set of rowsets and a set of delete vectors.
use risinglight.Prelude.{
  ℕ, ◌≡◌, refl, Bool, not, ◌&&◌, ◌||◌, ◌==◌, Option, none, some, List, [], ◌∷◌, arith, Option-cases,
  ok, inl, inr, Bool-cases, if◌then◌else◌, ap, subst, ◌∙◌, ok-injective,
}
use risinglight.Prelude.Map.{
  lookup, insert, contains, add_to, remove_from, lookup-insert, lookup-remove, contains-add_to,
  contains-remove_from,
}
use risinglight.Version.Snapshot.{
  Snapshot, or_default, put_or_remove, add_rowset, delete_rowset, add_dv, delete_dv, get_dvs_of,
  get_rowsets_of,
}

-- The set of rowsets, and that of delete vectors.
abbrev pub has_rowset : Snapshot → ℕ → ℕ → Bool
has_rowset s table_id rowset_id = contains rowset_id (or_default (get_rowsets_of s table_id))

abbrev pub has_dv : Snapshot → ℕ → ℕ → ℕ → Bool
has_dv s table_id rowset_id dv_id = contains dv_id (or_default (get_dvs_of s table_id rowset_id))

lookup-put_or_remove :
    {A : Type 0} (key : ℕ) (s : List A) (m : List (ℕ × List A)) (key' : ℕ)
    → or_default (lookup key' (put_or_remove key s m))
      ≡ (if key' == key then s else or_default (lookup key' m))
lookup-put_or_remove key [] m key' =
    rw (lookup-remove key m key')
      (elim (Bool-cases (key' == key)) [ inl same ↦ rw same refl | inr other ↦ rw other refl ])
lookup-put_or_remove key (x ∷ s) m key' =
    rw (lookup-insert key (x ∷ s) m key')
      (elim (Bool-cases (key' == key)) [ inl same ↦ rw same refl | inr other ↦ rw other refl ])

-- A lookup under a test of the key.
choose_add :
    (m : List (ℕ × List ℕ)) (t r t' r' : ℕ)
    → contains r'
        (or_default (if t' == t then some (add_to r (or_default (lookup t m))) else lookup t' m))
      ≡ ((t' == t) && (r' == r)) || contains r' (or_default (lookup t' m))
choose_add m t r t' r' = elim (Bool-cases (t' == t)) [
  | inl same ↦
      let e : t' ≡ t = ground arith in
      rw same (contains-add_to r (or_default (lookup t m)) r' ∙ rw e refl)
  | inr other ↦ rw other refl
]

choose_remove :
    (m : List (ℕ × List ℕ)) (t r t' r' : ℕ) (table : List ℕ)
    → lookup t m ≡ some table
    → contains r' (if t' == t then remove_from r table else or_default (lookup t' m))
      ≡ not ((t' == t) && (r' == r)) && contains r' (or_default (lookup t' m))
choose_remove m t r t' r' table found = elim (Bool-cases (t' == t)) [
  | inl same ↦
      let e : t' ≡ t = ground arith in
      rw same (contains-remove_from r table r' ∙ rw (e, found) refl)
  | inr other ↦ rw other refl
]

-- Adding a rowset adds it to the set of rowsets.
pub has_rowset-add_rowset :
    (s : Snapshot) (t r t' r' : ℕ)
    → has_rowset (add_rowset s t r) t' r' ≡ ((t' == t) && (r' == r)) || has_rowset s t' r'
unfolding add_rowset get_rowsets_of
has_rowset-add_rowset s t r t' r' =
    ap (λ o. contains r' (or_default o)) (lookup-insert t _ s.rowsets t')
    ∙ choose_add s.rowsets t r t' r'

-- Deleting a rowset takes this one out of the set of rowsets of the snapshot and no other, where
-- the deletion returns; a table without rowsets is the same as no table.
pub has_rowset-delete_rowset :
    (s : Snapshot) (t r : ℕ) (s' : Snapshot)
    → delete_rowset s t r ≡ ok s'
    → (t' r' : ℕ) → has_rowset s' t' r' ≡ not ((t' == t) && (r' == r)) && has_rowset s t' r'
unfolding delete_rowset get_rowsets_of
has_rowset-delete_rowset s t r s' e t' r' = elim (Option-cases (lookup t s.rowsets)) [
  | inl none_there ↦ ground (arith, rw none_there at e)
  | inr (table, found) ↦
      let result = ok-injective (rw found at e) in
      subst (λ x. has_rowset x t' r' ≡ not ((t' == t) && (r' == r)) && has_rowset s t' r') result
        (ap (contains r') (lookup-put_or_remove t (remove_from r table) s.rowsets t')
          ∙ choose_remove s.rowsets t r t' r' table found)
]

-- The delete vectors of a rowset, where a table that is not there has none.
abbrev dvs_in : List (ℕ × List (ℕ × List ℕ)) → ℕ → ℕ → List ℕ
dvs_in m t r = or_default (lookup r (or_default (lookup t m)))

in_table :
    (o : Option (List (ℕ × List ℕ))) (r : ℕ)
    → or_default (elim o [ none ↦ none | some table ↦ lookup r table ])
      ≡ or_default (lookup r (or_default o))
in_table none r = refl
in_table (some table) r = refl

get_dvs_of-dvs_in : (s : Snapshot) (t r : ℕ) → or_default (get_dvs_of s t r) ≡ dvs_in s.dvs t r
unfolding get_dvs_of
get_dvs_of-dvs_in s t r = in_table (lookup t s.dvs) r

-- Adding a delete vector adds it to the set of delete vectors.
pub has_dv-add_dv :
    (s : Snapshot) (t r d t' r' d' : ℕ)
    → has_dv (add_dv s t r d) t' r' d'
      ≡ ((t' == t) && ((r' == r) && (d' == d))) || has_dv s t' r' d'
unfolding add_dv
has_dv-add_dv s t r d t' r' d' =
    let table = or_default (lookup t s.dvs) in
    rw
      (
        get_dvs_of-dvs_in (add_dv s t r d) t' r',
        get_dvs_of-dvs_in s t' r',
        lookup-insert t (insert r (add_to d (or_default (lookup r table))) table) s.dvs t',
      )
      (elim (Bool-cases (t' == t)) [
        | inl same ↦
            let e : t' ≡ t = ground arith in
            rw same (
              ap (λ o. contains d' (or_default o)) (lookup-insert r _ table r')
              ∙ choose_add table r d r' d'
              ∙ rw e refl)
        | inr other ↦ rw other refl
      ])

choose_dv :
    (m : List (ℕ × List (ℕ × List ℕ))) (t r d t' r' d' : ℕ) (table : List (ℕ × List ℕ))
    (dvs : List ℕ)
    → lookup t m ≡ some table
    → lookup r table ≡ some dvs
    → contains d' (
        or_default (
          lookup r' (
            if t' == t
            then put_or_remove r (remove_from d dvs) table
            else or_default (lookup t' m))))
      ≡ not ((t' == t) && ((r' == r) && (d' == d))) && contains d' (dvs_in m t' r')
choose_dv m t r d t' r' d' table dvs found found_dvs = elim (Bool-cases (t' == t)) [
  | inl same ↦
      let e : t' ≡ t = ground arith in
      rw same (
        ap (contains d') (lookup-put_or_remove r (remove_from d dvs) table r')
        ∙ choose_remove table r d r' d' dvs found_dvs
        ∙ rw (e, found) refl)
  | inr other ↦ rw other refl
]

-- Deleting a delete vector takes this one out of the set of delete vectors of the snapshot and no
-- other, where the deletion returns; entries that have become empty do not show.
pub has_dv-delete_dv :
    (s : Snapshot) (t r d : ℕ) (s' : Snapshot)
    → delete_dv s t r d ≡ ok s'
    → (t' r' d' : ℕ)
    → has_dv s' t' r' d' ≡ not ((t' == t) && ((r' == r) && (d' == d))) && has_dv s t' r' d'
unfolding delete_dv
has_dv-delete_dv s t r d s' e t' r' d' = elim (Option-cases (lookup t s.dvs)) [
  | inl none_there ↦ ground (arith, rw none_there at e)
  | inr (table, found) ↦ elim (Option-cases (lookup r table)) [
    | inl none_there ↦ ground (arith, rw (found, none_there) at e)
    | inr (dvs, found_dvs) ↦
        let result = ok-injective (rw (found, found_dvs) at e) in
        subst
          (λ x.
            has_dv x t' r' d' ≡ not ((t' == t) && ((r' == r) && (d' == d))) && has_dv s t' r' d')
          result
          (rw (get_dvs_of-dvs_in _ t' r', get_dvs_of-dvs_in s t' r')
            (ap (λ l. contains d' (or_default (lookup r' l)))
                (lookup-put_or_remove t (put_or_remove r (remove_from d dvs) table) s.dvs t')
              ∙ choose_dv s.dvs t r d t' r' d' table dvs found found_dvs))
  ]
]
