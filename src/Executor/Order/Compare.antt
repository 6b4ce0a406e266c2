-- ===== src/Executor/Order/Compare.antt =====
-- The comparison of rows by orders is transitive on rows that have a value for every order.
use risinglight.Prelude.{
  ◌≤◌, ◌≡◌, refl, sym, Bool, true, false, List, [], ◌∷◌, length, Ordering, if◌then◌else◌, inl, inr,
  Bool-cases, arith, ◌⊎◌, subst,
}
use risinglight.Prelude.Ord.{Ord, cmp, cmp-eq, cmp-lt, cmp-gt, cmp-cases}
use risinglight.Executor.Order.{is_le, ordered, cmp_rows, comparison, Le}

module _ {V : Type 0} (o : Ord V) where
  -- Strictly before, in ascending or descending order.
  abbrev pub before : Bool → V → V → Bool
  before false a b = o.lt a b
  before true a b = o.lt b a

  -- What an order by several values means: the first values that differ stand in the order of their
  -- column.
  abbrev pub NotAfter : List Bool → List V → List V → Type 0
  NotAfter [] x y = Unit {0}
  NotAfter (desc ∷ orders) (a ∷ x) (b ∷ y) =
      (before desc a b ≡ true) ⊎ ((a ≡ b) × NotAfter orders x y)
  NotAfter (desc ∷ orders) x y = Unit {0}

  before_trans :
      (desc : Bool) (a b c : V)
      → before desc a b ≡ true
      → before desc b c ≡ true
      → before desc a c ≡ true
  before_trans false a b c h h' = o.lt_trans a b c h h'
  before_trans true a b c h h' = o.lt_trans c b a h' h

  module _ (orders : List Bool) (a b : V) (x y : List V) where
    le-first :
        (desc : Bool)
        → before desc a b ≡ true
        → is_le (cmp_rows o (a ∷ x) (b ∷ y) (desc ∷ orders)) ≡ true
    unfolding cmp_rows
    le-first false h =
        subst (λ c. is_le (ordered false c (cmp_rows o x y orders)) ≡ true) (sym (cmp-lt o a b h))
          refl
    le-first true h =
        subst (λ c. is_le (ordered true c (cmp_rows o x y orders)) ≡ true) (sym (cmp-gt o a b h))
          refl

    le-cases :
        (desc : Bool)
        → is_le (cmp_rows o (a ∷ x) (b ∷ y) (desc ∷ orders)) ≡ true
        → (before desc a b ≡ true) ⊎ ((a ≡ b) × (is_le (cmp_rows o x y orders) ≡ true))
    unfolding cmp_rows
    le-cases desc h = elim (cmp-cases o a b) [
      | inl same ↦
          let same' : cmp o a b ≡ Ordering.eq =
            subst (λ v. cmp o a v ≡ Ordering.eq) same (cmp-eq o a) in
          inr (same, known desc Ordering.eq same' h)
      | inr (inl less) ↦ inl (first desc less (known desc Ordering.lt (cmp-lt o a b less) h))
      | inr (inr more) ↦ inl (last desc more (known desc Ordering.gt (cmp-gt o a b more) h))
    ]
      where
        known :
            (desc : Bool) (c : Ordering)
            → cmp o a b ≡ c
            → is_le (ordered desc (cmp o a b) (cmp_rows o x y orders)) ≡ true
            → is_le (ordered desc c (cmp_rows o x y orders)) ≡ true
        known desc c e h = subst (λ c. is_le (ordered desc c (cmp_rows o x y orders)) ≡ true) e h

        first :
            (desc : Bool)
            → o.lt a b ≡ true
            → is_le (if desc then Ordering.gt else Ordering.lt) ≡ true
            → before desc a b ≡ true
        first false less h = less
        first true less h = cc

        last :
            (desc : Bool)
            → o.lt b a ≡ true
            → is_le (if desc then Ordering.lt else Ordering.gt) ≡ true
            → before desc a b ≡ true
        last false less h = cc
        last true less h = less

  le-rest :
      (orders : List Bool) (a : V) (x y : List V) (desc : Bool)
      → is_le (cmp_rows o x y orders) ≡ true
      → is_le (cmp_rows o (a ∷ x) (a ∷ y) (desc ∷ orders)) ≡ true
  unfolding cmp_rows
  le-rest orders a x y desc h =
      subst (λ c. is_le (ordered desc c (cmp_rows o x y orders)) ≡ true) (sym (cmp-eq o a)) h

  le-nil : (x y : List V) → is_le (cmp_rows o x y []) ≡ true
  unfolding cmp_rows
  le-nil [] y = refl
  le-nil (a ∷ x) [] = refl
  le-nil (a ∷ x) (b ∷ y) = refl

  pub Le-NotAfter :
      (orders : List Bool) (x y : List V) → Le (comparison o orders) x y → NotAfter orders x y
  Le-NotAfter [] x y h = tt
  Le-NotAfter (desc ∷ orders) [] y h = tt
  Le-NotAfter (desc ∷ orders) (a ∷ x) [] h = tt
  Le-NotAfter (desc ∷ orders) (a ∷ x) (b ∷ y) h = elim (le-cases orders a b x y desc h) [
    | inl first ↦ inl first
    | inr (same, rest) ↦ inr (same, Le-NotAfter orders x y rest)
  ]

  pub Le_trans :
      (orders : List Bool) (x y z : List V)
      → length orders ≤ length x
      → length orders ≤ length y
      → length orders ≤ length z
      → Le (comparison o orders) x y
      → Le (comparison o orders) y z
      → Le (comparison o orders) x z
  unfolding cmp_rows
  Le_trans [] x y z hx hy hz h h' = le-nil x z
  Le_trans (desc ∷ orders) [] y z hx hy hz h h' = absurd (omega arith)
  Le_trans (desc ∷ orders) (a ∷ x) [] z hx hy hz h h' = absurd (omega arith)
  Le_trans (desc ∷ orders) (a ∷ x) (b ∷ y) [] hx hy hz h h' = absurd (omega arith)
  Le_trans (desc ∷ orders) (a ∷ x) (b ∷ y) (c ∷ z) hx hy hz h h' =
      elim (le-cases orders a b x y desc h) [
        | inl first ↦ elim (le-cases orders b c y z desc h') [
          | inl first' ↦ le-first orders a c x z desc (before_trans desc a b c first first')
          | inr (same', rest') ↦
              le-first orders a c x z desc (subst (λ v. before desc a v ≡ true) same' first)
        ]
        | inr (same, rest) ↦ elim (le-cases orders b c y z desc h') [
          | inl first' ↦
              let first : before desc a c ≡ true = rw same first' in
              le-first orders a c x z desc first
          | inr (same', rest') ↦
              rw (same, same')
                (le-rest orders c x z desc
                  (Le_trans orders x y z (omega arith) (omega arith) (omega arith) rest rest'))
        ]
      ]

  contradiction : {A : Type 0} {b : Bool} → b ≡ true → b ≡ false → A
  contradiction yes_ no_ = absurd (ground (arith, yes_, no_))

  after_rest :
      (orders : List Bool) (a : V) (x y : List V) (desc : Bool)
      → is_le (cmp_rows o (a ∷ x) (a ∷ y) (desc ∷ orders)) ≡ false
      → is_le (cmp_rows o x y orders) ≡ false
  after_rest orders a x y desc h = elim (Bool-cases (is_le (cmp_rows o x y orders))) [
    | inl le ↦ contradiction (le-rest orders a x y desc le) h
    | inr gt ↦ gt
  ]

  after_first :
      (orders : List Bool) (a b : V) (x y : List V) (desc : Bool)
      → (o.lt a b ≡ true) ⊎ (o.lt b a ≡ true)
      → is_le (cmp_rows o (a ∷ x) (b ∷ y) (desc ∷ orders)) ≡ false
      → is_le (cmp_rows o (b ∷ y) (a ∷ x) (desc ∷ orders)) ≡ true
  after_first orders a b x y false (inl less) h =
      contradiction (le-first orders a b x y false less) h
  after_first orders a b x y true (inl less) h = le-first orders b a y x true less
  after_first orders a b x y false (inr more) h = le-first orders b a y x false more
  after_first orders a b x y true (inr more) h = contradiction (le-first orders a b x y true more) h

  -- One of two rows does not come after the other.
  pub Le_total :
      (orders : List Bool) (x y : List V)
      → is_le (comparison o orders x y) ≡ false
      → Le (comparison o orders) y x
  unfolding cmp_rows
  Le_total [] x y h = le-nil y x
  Le_total (desc ∷ orders) [] [] h = refl
  Le_total (desc ∷ orders) [] (b ∷ y) h = refl
  Le_total (desc ∷ orders) (a ∷ x) [] h = refl
  Le_total (desc ∷ orders) (a ∷ x) (b ∷ y) h = elim (cmp-cases o a b) [
    | inl same ↦
        subst (λ v. is_le (cmp_rows o (b ∷ y) (v ∷ x) (desc ∷ orders)) ≡ true) (sym same)
          (le-rest orders b y x desc (
            Le_total orders x y (
              after_rest orders b x y desc
                (subst (λ v. is_le (cmp_rows o (v ∷ x) (b ∷ y) (desc ∷ orders)) ≡ false) same h))))
    | inr apart ↦ after_first orders a b x y desc apart h
  ]
