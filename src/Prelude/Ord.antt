-- ===== src/Prelude/Ord.antt =====
-- Lawful total orders, of numbers and of lists by that of their elements.
use risinglight.Prelude.{
  Ordering, if◌then◌else◌, ℕ, ◌≡◌, refl, Bool, true, false, ◌&&◌, ◌||◌, List, [], ◌∷◌, PartialEq,
  inl, inr, Bool-cases, arith, ltb, ◌⊎◌, subst,
}
use risinglight.Prelude.KeyMap.{eq_refl, eq_sym}
use risinglight.Prelude.Equality.{number_eq, list_eq}

-- `Ord`
pub record Ord (A : Type 0) : Type 0 where
  pub equality : PartialEq A
  pub lt : A → A → Bool
  pub lt_irrefl : (a : A) → lt a a ≡ false
  pub lt_trans : (a b c : A) → lt a b ≡ true → lt b c ≡ true → lt a c ≡ true
  pub lt_total : (a b : A) → equality.eq a b ≡ false → lt a b ≡ false → lt b a ≡ true

pub ltb_irrefl : (a : ℕ) → ltb a a ≡ false
ltb_irrefl a = ground arith

pub ltb_trans : (a b c : ℕ) → ltb a b ≡ true → ltb b c ≡ true → ltb a c ≡ true
ltb_trans a b c h h' = ground arith

pub ltb_total : (a b : ℕ) → number_eq.eq a b ≡ false → ltb a b ≡ false → ltb b a ≡ true
ltb_total a b h h' = ground arith

abbrev pub number_ord : Ord ℕ
number_ord = record {
  equality = number_eq;
  lt = ltb;
  lt_irrefl = ltb_irrefl;
  lt_trans = ltb_trans;
  lt_total = ltb_total;
}

module _ {A : Type 0} (o : Ord A) where
  abbrev lt_list : List A → List A → Bool
  lt_list [] [] = false
  lt_list [] (y ∷ ys) = true
  lt_list (x ∷ xs) [] = false
  lt_list (x ∷ xs) (y ∷ ys) = o.lt x y || (o.equality.eq x y && lt_list xs ys)

  pub lt_list_irrefl : (xs : List A) → lt_list xs xs ≡ false
  lt_list_irrefl [] = refl
  lt_list_irrefl (x ∷ xs) = rw (o.lt_irrefl x, (o.equality.eq_iff x x).1 refl, lt_list_irrefl xs)

  -- A smaller head, or the same head and a smaller tail.
  lt_list-cases :
      (x y : A) (xs ys : List A)
      → lt_list (x ∷ xs) (y ∷ ys) ≡ true
      → (o.lt x y ≡ true) ⊎ ((x ≡ y) × (lt_list xs ys ≡ true))
  lt_list-cases x y xs ys h = elim (Bool-cases (o.lt x y)) [
    | inl less ↦ inl less
    | inr more ↦ elim (Bool-cases (o.equality.eq x y)) [
      | inl same ↦ inr ((o.equality.eq_iff x y).0 same, ground (arith, more, same))
      | inr differ ↦ absurd (ground (arith, more, differ))
    ]
  ]

  pub lt_list_trans :
      (xs ys zs : List A) → lt_list xs ys ≡ true → lt_list ys zs ≡ true → lt_list xs zs ≡ true
  lt_list_trans [] [] zs h h' = cc
  lt_list_trans [] (y ∷ ys) [] h h' = cc
  lt_list_trans [] (y ∷ ys) (z ∷ zs) h h' = refl
  lt_list_trans (x ∷ xs) [] zs h h' = cc
  lt_list_trans (x ∷ xs) (y ∷ ys) [] h h' = cc
  lt_list_trans (x ∷ xs) (y ∷ ys) (z ∷ zs) h h' = elim (lt_list-cases x y xs ys h) [
    | inl less ↦ elim (lt_list-cases y z ys zs h') [
      | inl less' ↦ rw (o.lt_trans x y z less less') refl
      | inr (same', rest') ↦ rw (← same', less) refl
    ]
    | inr (same, rest) ↦ elim (lt_list-cases y z ys zs h') [
      | inl less' ↦ rw (same, less') refl
      | inr (same', rest') ↦
          let tails : lt_list xs zs ≡ true = lt_list_trans xs ys zs rest rest' in
          let heads : o.equality.eq z z ≡ true = (o.equality.eq_iff z z).1 refl in
          rw (same, same', o.lt_irrefl z, heads, tails) refl
    ]
  ]

  pub lt_list_total :
      (xs ys : List A)
      → (list_eq o.equality).eq xs ys ≡ false
      → lt_list xs ys ≡ false
      → lt_list ys xs ≡ true
  lt_list_total [] [] h h' = cc
  lt_list_total [] (y ∷ ys) h h' = cc
  lt_list_total (x ∷ xs) [] h h' = refl
  lt_list_total (x ∷ xs) (y ∷ ys) h h' = elim (Bool-cases (o.equality.eq x y)) [
    | inl same ↦
        let e : x ≡ y = (o.equality.eq_iff x y).0 same in
        let again : o.equality.eq y x ≡ true = (o.equality.eq_iff y x).1 (rw e) in
        rw (e, o.lt_irrefl y, (o.equality.eq_iff y y).1 refl)
          (lt_list_total xs ys (ground (arith, same, h)) (ground (arith, same, h')))
    | inr differ ↦ rw (o.lt_total x y differ (ground (arith, h'))) refl
  ]

  abbrev pub list_ord : Ord (List A)
  list_ord = record {
    equality = list_eq o.equality;
    lt = lt_list;
    lt_irrefl = lt_list_irrefl;
    lt_trans = lt_list_trans;
    lt_total = lt_list_total;
  }

-- `cmp`
unfoldable pub cmp : {A : Type 0} → Ord A → A → A → Ordering
cmp o a b = if o.equality.eq a b then Ordering.eq else if o.lt a b then Ordering.lt else Ordering.gt

module _ {A : Type 0} (o : Ord A) where
  lt-differ : (a b : A) → o.lt a b ≡ true → o.equality.eq a b ≡ false
  lt-differ a b h = elim (Bool-cases (o.equality.eq a b)) [
    | inl same ↦
        let e : a ≡ b = (o.equality.eq_iff a b).0 same in
        let less : o.lt b b ≡ true = subst (λ x. o.lt x b ≡ true) e h in
        absurd (ground (arith, less, o.lt_irrefl b))
    | inr differ ↦ differ
  ]

  lt_asym : (a b : A) → o.lt a b ≡ true → o.lt b a ≡ false
  lt_asym a b h = elim (Bool-cases (o.lt b a)) [
    | inl less ↦ absurd (ground (arith, o.lt_trans a b a h less, o.lt_irrefl a))
    | inr more ↦ more
  ]

  pub cmp-eq : (a : A) → cmp o a a ≡ Ordering.eq
  unfolding cmp
  cmp-eq a = rw (eq_refl o.equality a)

  pub cmp-lt : (a b : A) → o.lt a b ≡ true → cmp o a b ≡ Ordering.lt
  unfolding cmp
  cmp-lt a b h = rw (lt-differ a b h, h)

  pub cmp-gt : (a b : A) → o.lt b a ≡ true → cmp o a b ≡ Ordering.gt
  unfolding cmp
  cmp-gt a b h = rw (eq_sym o.equality a b, lt-differ b a h, lt_asym b a h)

  -- Equal, before or after.
  pub cmp-cases : (a b : A) → (a ≡ b) ⊎ ((o.lt a b ≡ true) ⊎ (o.lt b a ≡ true))
  cmp-cases a b = elim (Bool-cases (o.equality.eq a b)) [
    | inl same ↦ inl ((o.equality.eq_iff a b).0 same)
    | inr differ ↦ elim (Bool-cases (o.lt a b)) [
      | inl less ↦ inr (inl less)
      | inr more ↦ inr (inr (o.lt_total a b differ more))
    ]
  ]

-- `Ordering::reverse`
abbrev pub reverse : Ordering → Ordering
reverse Ordering.lt = Ordering.gt
reverse Ordering.eq = Ordering.eq
reverse Ordering.gt = Ordering.lt
