-- ===== src/Prelude/Equality.antt =====
-- Lawful equality of numbers, and of lists by that of their elements.
use risinglight.Prelude.{
  ℕ, ◌≡◌, ◌↔◌, ap, refl, Bool, true, false, ◌&&◌, List, [], ◌∷◌, ◌==◌, ==_iff, PartialEq, Option,
  none, some, some-injective, inl, inr, Bool-cases, arith,
}

abbrev pub number_eq : PartialEq ℕ
number_eq = record { eq = λ a b. a == b; eq_iff = ==_iff }

module _ {A : Type 0} (p : PartialEq A) where
  abbrev eq_list : List A → List A → Bool
  eq_list [] [] = true
  eq_list (x ∷ xs) (y ∷ ys) = p.eq x y && eq_list xs ys
  eq_list xs ys = false

  pub eq_list_refl : (xs : List A) → eq_list xs xs ≡ true
  eq_list_refl [] = refl
  eq_list_refl (x ∷ xs) = rw ((p.eq_iff x x).1 refl, eq_list_refl xs)

  pub eq_list-eq : (xs ys : List A) → eq_list xs ys ≡ true → xs ≡ ys
  eq_list-eq [] [] h = refl
  eq_list-eq [] (y ∷ ys) h = cc
  eq_list-eq (x ∷ xs) [] h = cc
  eq_list-eq (x ∷ xs) (y ∷ ys) h = elim (Bool-cases (p.eq x y)) [
    | inl same ↦ rw ((p.eq_iff x y).0 same, eq_list-eq xs ys (ground (arith, same)))
    | inr differ ↦ absurd (ground (arith, differ))
  ]

  abbrev pub list_eq : PartialEq (List A)
  list_eq = record {
    eq = eq_list;
    eq_iff = λ xs ys. (eq_list-eq xs ys, λ e. rw e (eq_list_refl ys));
  }

module _ {A : Type 0} (p : PartialEq A) where
  abbrev eq_option : Option A → Option A → Bool
  eq_option none none = true
  eq_option (some a) (some b) = p.eq a b
  eq_option a b = false

  pub eq_option_iff : (a b : Option A) → (eq_option a b ≡ true) ↔ (a ≡ b)
  eq_option_iff none none = (λ e. refl, λ e. refl)
  eq_option_iff none (some b) = (λ e. cc, λ e. cc)
  eq_option_iff (some a) none = (λ e. cc, λ e. cc)
  eq_option_iff (some a) (some b) =
      (λ e. ap some ((p.eq_iff a b).0 e), λ e. (p.eq_iff a b).1 (some-injective e))

  abbrev pub option_eq : PartialEq (Option A)
  option_eq = record { eq = eq_option; eq_iff = eq_option_iff }
