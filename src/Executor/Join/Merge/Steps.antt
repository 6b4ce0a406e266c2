-- ===== src/Executor/Join/Merge/Steps.antt =====
-- How the rows of a join grow as a group comes in front of one side, or of both.
use mathlib.Core.List.{Perm}
use mathlib.Core.List.Perm
use risinglight.Prelude.{
  ◌≡◌, ◌≢◌, ◌∙◌, true, false, List, [], ◌∷◌, ◌++◌, map, map-append, append_assoc, inl, inr,
  Bool-cases, All-append,
}
use risinglight.Prelude.Ord.{Ord}
use risinglight.Prelude.Permutation.{Perm-front}
use risinglight.Executor.Join.Hash.Outer.{unmet-append}
use risinglight.Executor.Join.{JoinType, keeps_left, keeps_right}
use risinglight.Executor.Join.Merge.{MergeJoinExecutor, Group, cross_groups, left_only, right_only}
use risinglight.Executor.Join.Merge.Groups.{flat, Above, Ascending, Above-trans}
use risinglight.Executor.Join.Merge.Pairs.{
  Keyed, Missing, alone, pairs, alone-group, alone-met, alone-skip, pairs-skip_left,
  pairs-skip_right, pairs-cross_groups,
}

module _ {V : Type 0} (o : Ord (List V)) (key : List V → List V) where
  lt-differ : (k k' : List V) → o.lt k k' ≡ true → o.equality.eq k k' ≡ false
  lt-differ k k' h = elim (Bool-cases (o.equality.eq k k')) [
    | inl same ↦
        let e : k ≡ k' = (o.equality.eq_iff k k').0 same in
        let less : o.lt k' k' ≡ true = rw e at h in cc (less, o.lt_irrefl k')
    | inr differ ↦ differ
  ]

  Keyed-Missing :
      (k k' : List V) (c : List (List V))
      → o.lt k k' ≡ true
      → Keyed o.equality key k' c
      → Missing o.equality key k c
  Keyed-Missing k k' [] h keyed = tt
  Keyed-Missing k k' (row ∷ c) h keyed =
      (rw keyed.0 (lt-differ k k' h), Keyed-Missing k k' c h keyed.1)

  -- The groups above a key lack it.
  pub Above-Missing :
      (k : List V) (gs : List (Group V))
      → Above o key k gs
      → Ascending o key gs
      → Missing o.equality key k (flat gs)
  Above-Missing k [] above a = tt
  Above-Missing k ((k', c) ∷ gs) above a =
      All-append _ c (flat gs) (Keyed-Missing k k' c above.0 a.0) (Above-Missing k gs above.1 a.3)

  -- The groups that begin above a key lack it.
  pub head-Missing :
      (k k' : List V) (c : List (List V)) (gs : List (Group V))
      → o.lt k k' ≡ true
      → Ascending o key ((k', c) ∷ gs)
      → Missing o.equality key k (flat ((k', c) ∷ gs))
  head-Missing k k' c gs h a = Above-Missing k ((k', c) ∷ gs) (h, Above-trans o key k k' gs h a.2) a

module _ {E D V : Type 0} (null : V) (o : Ord (List V)) (t : JoinType)
    (self : MergeJoinExecutor E D V) where
  left_only-append :
      (xs ys : List (List V))
      → left_only null t self (xs ++ ys) ≡ left_only null t self xs ++ left_only null t self ys
  left_only-append xs ys = elim (Bool-cases (keeps_left t)) [
    | inl keeps ↦ rw keeps (map-append _ xs ys)
    | inr drops ↦ rw drops
  ]

  pub right_only-append :
      (xs ys : List (List V))
      → right_only null t self (xs ++ ys) ≡ right_only null t self xs ++ right_only null t self ys
  right_only-append xs ys = elim (Bool-cases (keeps_right t)) [
    | inl keeps ↦ rw keeps (map-append _ xs ys)
    | inr drops ↦ rw drops
  ]

  module _ (left_key right_key : List V → List V) where
    -- The rows of a join: the matching pairs, and the rows of the sides that it keeps without a match.
    abbrev pub join_rows : List (List V) → List (List V) → List (List V)
    join_rows left right =
        pairs o.equality left_key right_key left right
        ++ (left_only null t self (alone o.equality left_key right_key left right)
            ++ right_only null t self (alone o.equality right_key left_key right left))

    alone-both :
        (f g : List V → List V) (k : List V) (c xs c' ys : List (List V))
        → Keyed o.equality f k c
        → Keyed o.equality g k c'
        → c' ≢ []
        → Missing o.equality f k xs
        → alone o.equality f g (c ++ xs) (c' ++ ys) ≡ alone o.equality f g xs ys
    alone-both f g k c xs c' ys keyed keyed' some_ missing =
        unmet-append o.equality f (map g (c' ++ ys)) c xs
        ∙ rw (
          alone-met o.equality f g k c c' ys keyed keyed' some_,
          alone-skip o.equality g f k c' ys xs keyed' missing,
        )

    alone-front :
        (f g : List V → List V) (k : List V) (c xs ys : List (List V))
        → Keyed o.equality f k c
        → Missing o.equality g k ys
        → alone o.equality f g (c ++ xs) ys ≡ c ++ alone o.equality f g xs ys
    alone-front f g k c xs ys keyed missing =
        unmet-append o.equality f (map g ys) c xs
        ∙ rw (alone-group o.equality f g k c ys keyed missing)

    pub join_rows-both :
        (k : List V) (c left c' right : List (List V))
        → Keyed o.equality left_key k c
        → Keyed o.equality right_key k c'
        → c ≢ []
        → c' ≢ []
        → Missing o.equality left_key k left
        → Missing o.equality right_key k right
        → Perm (cross_groups c c' ++ join_rows left right) (join_rows (c ++ left) (c' ++ right))
    join_rows-both k c left c' right keyed keyed' some_ some' missing missing' =
        let ends : List (List V) =
          left_only null t self (alone o.equality left_key right_key left right)
          ++ right_only null t self (alone o.equality right_key left_key right left) in
        rw
          (
            alone-both left_key right_key k c left c' right keyed keyed' some' missing,
            alone-both right_key left_key k c' right c left keyed' keyed some_ missing',
            ← append_assoc (cross_groups c c') (pairs o.equality left_key right_key left right)
                ends,
          )
          (Perm.append_right ends (
            pairs-cross_groups o.equality left_key right_key k c left c' right keyed keyed' missing
              missing'))

    pub join_rows-left :
        (k : List V) (c left right : List (List V))
        → Keyed o.equality left_key k c
        → Missing o.equality right_key k right
        → Perm (left_only null t self c ++ join_rows left right) (join_rows (c ++ left) right)
    join_rows-left k c left right keyed missing =
        let mine = left_only null t self c in
        let others = left_only null t self (alone o.equality left_key right_key left right) in
        let ends = right_only null t self (alone o.equality right_key left_key right left) in
        rw
          (
            pairs-skip_left o.equality left_key right_key k c left right keyed missing,
            alone-front left_key right_key k c left right keyed missing,
            alone-skip o.equality left_key right_key k c left right keyed missing,
            left_only-append c (alone o.equality left_key right_key left right),
            append_assoc mine others ends,
          )
          (Perm-front mine (pairs o.equality left_key right_key left right) (others ++ ends))

    pub join_rows-right :
        (k : List V) (c left right : List (List V))
        → Keyed o.equality right_key k c
        → Missing o.equality left_key k left
        → Perm (right_only null t self c ++ join_rows left right) (join_rows left (c ++ right))
    join_rows-right k c left right keyed missing =
        let mine = right_only null t self c in
        let others = left_only null t self (alone o.equality left_key right_key left right) in
        let ends = right_only null t self (alone o.equality right_key left_key right left) in
        let pairs_ = pairs o.equality left_key right_key left right in
        rw
          (
            pairs-skip_right o.equality left_key right_key k left c right keyed missing,
            alone-front right_key left_key k c right left keyed missing,
            alone-skip o.equality right_key left_key k c right left keyed missing,
            right_only-append c (alone o.equality right_key left_key right left),
          )
          (Perm.trans (Perm-front mine pairs_ (others ++ ends))
            (Perm.append_left pairs_ (Perm-front mine others ends)))
