-- ===== src/Executor/Order/Reference.antt =====
-- A sort and a heap that have the laws: insertion sort, and a list that is sorted when it is read.
use mathlib.Core.List.{
  Mem, Perm, Pairwise, mem-cons_self, mem-cons_of_mem, eq-or-mem_of_mem-cons, not-mem-nil,
}
use mathlib.Core.List.Perm
use mathlib.Core.Logic.Or
use mathlib.Core.Bool.{Bool-set}
use risinglight.Prelude.{
  ℕ, ◌≤◌, ◌≡◌, ◌≢◌, refl, Bool, true, false, Option, none, some, List, [], ◌∷◌, length,
  if◌then◌else◌, inl, inr, Bool-cases, arith, leb, subst, sym,
}
use risinglight.Prelude.Ord.{Ord}
use risinglight.Executor.Order.{is_le, comparison, HasKeys, Le, Within, Sort, BinaryHeap}
use risinglight.Executor.Order.Compare.{Le_trans, Le_total}

module _ {A : Type 0} (le : A → A → Bool) where
  pub insert : A → List A → List A
  insert a [] = a ∷ []
  insert a (x ∷ xs) = let later = x ∷ insert a xs in if le a x then a ∷ x ∷ xs else later

  unfoldable pub insertion_sort : List A → List A
  unfolding insert
  insertion_sort [] = []
  insertion_sort (x ∷ xs) = insert x (insertion_sort xs)

  insert-perm : (a : A) (xs : List A) → Perm (insert a xs) (a ∷ xs)
  unfolding insert
  insert-perm a [] = Perm.rfl
  insert-perm a (x ∷ xs) = elim (Bool-cases (le a x)) [
    | inl first ↦ rw first Perm.rfl
    | inr later ↦ rw later (Perm.trans (Perm.cons x (insert-perm a xs)) (Perm.swap a x xs))
  ]

  pub insertion_sort-perm : (xs : List A) → Perm (insertion_sort xs) xs
  unfolding insertion_sort
  insertion_sort-perm [] = Perm.rfl
  insertion_sort-perm (x ∷ xs) =
      Perm.trans (insert-perm x (insertion_sort xs)) (Perm.cons x (insertion_sort-perm xs))

  module _ (Domain : A → Type 0) (total : (a b : A) → le a b ≡ false → le b a ≡ true)
      (trans : (a b c : A)
        → Domain a
        → Domain b
        → Domain c
        → le a b ≡ true
        → le b c ≡ true
        → le a c ≡ true) where
    insert-IsSorted :
        (a : A) (xs : List A)
        → Domain a
        → ((x : A) → Mem x xs → Domain x)
        → Pairwise (λ x y. le x y ≡ true) xs
        → Pairwise (λ x y. le x y ≡ true) (insert a xs)
    unfolding insert
    insert-IsSorted a [] da d p = Pairwise.cons (λ x m. absurd (not-mem-nil m)) Pairwise.nil
    insert-IsSorted a (x ∷ xs) da d (Pairwise.cons h p) = elim (Bool-cases (le a x)) [
      | inl first ↦ rw first (
          Pairwise.cons
            (λ y m.
              Or.elim (Bool-set _ _) (eq-or-mem_of_mem-cons m)
                (λ e. subst (λ z. le a z ≡ true) (sym e) first)
                (λ my.
                  trans a x y da (d x mem-cons_self) (d y (mem-cons_of_mem x my)) first (h y my)))
            (Pairwise.cons h p))
      | inr later ↦ rw later (
          Pairwise.cons
            (λ y m.
              Or.elim (Bool-set _ _) (eq-or-mem_of_mem-cons ((Perm.mem_iff (insert-perm a xs)).0 m))
                (λ e. subst (λ z. le x z ≡ true) (sym e) (total a x later)) (λ my. h y my))
            (insert-IsSorted a xs da (λ y m. d y (mem-cons_of_mem x m)) p))
    ]

    pub insertion_sort-IsSorted :
        (xs : List A)
        → ((x : A) → Mem x xs → Domain x)
        → Pairwise (λ x y. le x y ≡ true) (insertion_sort xs)
    unfolding insertion_sort
    insertion_sort-IsSorted [] d = Pairwise.nil
    insertion_sort-IsSorted (x ∷ xs) d =
        insert-IsSorted x (insertion_sort xs) (d x mem-cons_self)
          (λ y m. d y (mem-cons_of_mem x ((Perm.mem_iff (insertion_sort-perm xs)).0 m)))
          (insertion_sort-IsSorted xs (λ y m. d y (mem-cons_of_mem x m)))

module _ {V : Type 0} (o : Ord V) (orders : List Bool) where
  abbrev pub ascending : List V → List V → Bool
  ascending a b = is_le (comparison o orders a b)

  abbrev pub descending : List V → List V → Bool
  descending a b = ascending b a

  pub ascending_sorts :
      (l : List (List V))
      → Within (comparison o orders) (HasKeys orders) l
      → Pairwise (Le (comparison o orders)) (insertion_sort ascending l)
  ascending_sorts =
      insertion_sort-IsSorted ascending (HasKeys orders) (λ a b h. Le_total o orders a b h)
        (λ a b c ha hb hc h h'. Le_trans o orders a b c ha hb hc h h')

  descending_sorts :
      (l : List (List V))
      → Within (comparison o orders) (HasKeys orders) l
      → Pairwise (λ a b. descending a b ≡ true) (insertion_sort descending l)
  descending_sorts =
      insertion_sort-IsSorted descending (HasKeys orders) (λ a b h. Le_total o orders b a h)
        (λ a b c ha hb hc h h'. Le_trans o orders c b a hc hb ha h' h)

  abbrev pub reference_sort : Sort (comparison o orders) (HasKeys orders)
  reference_sort = record {
    sort_unstable_by = insertion_sort ascending;
    permutes = insertion_sort-perm ascending;
    sorts = ascending_sorts;
  }

  -- The first of a sorted list leaves.
  abbrev pub split_first : List (List V) → Option (List V) × List (List V)
  split_first [] = (none, [])
  split_first (x ∷ xs) = (some x, xs)

  abbrev pub pop_greatest : List (List V) → Option (List V) × List (List V)
  pop_greatest l = split_first (insertion_sort descending l)

  Le_refl : (a : List V) → Le (comparison o orders) a a
  Le_refl a = elim (Bool-cases (ascending a a)) [ inl le ↦ le | inr gt ↦ Le_total o orders a a gt ]

  pub pop_greatest_lem :
      (l : List (List V))
      → Within (comparison o orders) (HasKeys orders) l
      → l ≢ []
      → (a : List V) × (l' : List (List V)) × (pop_greatest l ≡ (some a, l'))
        × Perm l (a ∷ l')
        × ((x : List V) → Mem x l → Le (comparison o orders) x a)
  pop_greatest_lem l within some_ =
      first (insertion_sort descending l) (insertion_sort-perm descending l)
        (descending_sorts l within)
    where
      first :
          (s : List (List V))
          → Perm s l
          → Pairwise (λ a b. descending a b ≡ true) s
          → (a : List V) × (l' : List (List V)) × (split_first s ≡ (some a, l'))
            × Perm l (a ∷ l')
            × ((x : List V) → Mem x l → Le (comparison o orders) x a)
      first [] p Pairwise.nil = absurd (some_ (Perm.eq-nil (Perm.symm p)))
      first (a ∷ s) p (Pairwise.cons h sorted) = (
        a,
        s,
        refl,
        Perm.symm p,
        λ x m.
            Or.elim (Bool-set _ _) (eq-or-mem_of_mem-cons ((Perm.mem_iff p).1 m))
              (λ e. subst (λ z. Le (comparison o orders) z a) (sym e) (Le_refl a)) (h x),
      )

  pub made :
      (n : ℕ)
      → n ≤ 1000
      → (h : List (List V)) × ((if leb n 1000 then some [] else none) ≡ some h) × (h ≡ [])
  made n h = ([], ground (arith, h), refl)

  abbrev pub reference_heap : BinaryHeap (comparison o orders) (HasKeys orders)
  reference_heap = record {
    Heap = List (List V);
    max_capacity = 1000;
    with_capacity_by = λ n. if leb n 1000 then some [] else none;
    push = λ a h. a ∷ h;
    pop = pop_greatest;
    len = length;
    into_sorted_vec = insertion_sort ascending;
    elements = λ h. h;
    starts = made;
    pushed = λ a h. Perm.rfl;
    counted = λ h. refl;
    popped = pop_greatest_lem;
    drained = insertion_sort-perm ascending;
    drained_sorted = ascending_sorts;
  }
