-- ===== src/Executor/Order/Keys.antt =====
-- Rows that are sorted behind their order keys, and the same rows without them.
use mathlib.Core.List.{
  Mem, Perm, Pairwise, Pairwise-map, mem-cons_self, mem-cons_of_mem, eq-or-mem_of_mem-cons,
  not-mem-nil,
}
use mathlib.Core.List.Perm
use mathlib.Core.Logic.Or
use mathlib.Core.Bool.{Bool-set}
use risinglight.Prelude.{
  ◌≡◌, refl, sym, ap, ◌∙◌, true, List, [], ◌∷◌, ◌++◌, map, length, drop, drop-length-append, arith,
  subst, Bool,
}
use risinglight.Prelude.Ord.{Ord, cmp}
use risinglight.Executor.Stream.{rows}
use risinglight.Executor.Order.Compare.{NotAfter, Le-NotAfter}
use risinglight.Executor.Order.{is_le, Le, cmp_rows, ordered, comparison}
use risinglight.Executor.Order.Heap.{beside_key}

module _ {V : Type 0} (o : Ord V) (orders : List Bool) (key : List V → List V) where
  -- The keys of the one row do not come after those of the other, in the sense of the orders and not of
  -- the comparison that the code computes.
  abbrev pub InOrder : List V → List V → Type 0
  InOrder a b = NotAfter o orders (key a) (key b)

  abbrev KeysLe : List V → List V → Type 0
  KeysLe a b = Le (comparison o orders) (key a) (key b)

  Pairwise-InOrder : (l : List (List V)) → Pairwise KeysLe l → Pairwise InOrder l
  Pairwise-InOrder [] Pairwise.nil = Pairwise.nil
  Pairwise-InOrder (a ∷ l) (Pairwise.cons h p) =
      Pairwise.cons (λ b m. Le-NotAfter o orders (key a) (key b) (h b m)) (Pairwise-InOrder l p)

  -- All rows, in the order of their keys.
  pub record IsOrdering (input out : List (List V)) : Type 0 where
    pub permuted : Perm out input
    pub in_order : Pairwise InOrder out

  abbrev pub strip : List V → List V
  strip row = drop (length orders) row

  module _ (wide_key : (row : List V) → length (key row) ≡ length orders) where
    strip-beside_key : (row : List V) → strip (beside_key key row) ≡ row
    strip-beside_key row =
        subst (λ n. drop n (key row ++ row) ≡ row) (wide_key row) (drop-length-append (key row) row)

    map-strip : (rows : List (List V)) → map strip (map (beside_key key) rows) ≡ rows
    map-strip [] = refl
    map-strip (row ∷ rows) = rw (strip-beside_key row, map-strip rows)

    swap_left :
        (x y : List V) (rows : List (List V))
        → Le (comparison o orders) x y
        → Mem x (map (beside_key key) rows)
        → Le (comparison o orders) (beside_key key (strip x)) y
    swap_left x y [] h m = absurd (not-mem-nil m)
    swap_left x y (row ∷ rows) h m =
        Or.elim (Bool-set _ _) (eq-or-mem_of_mem-cons m)
          (λ e.
            subst (λ x'. Le (comparison o orders) (beside_key key x') y)
              (sym (ap strip e ∙ strip-beside_key row))
              (subst (λ x'. Le (comparison o orders) x' y) e h))
          (swap_left x y rows h)

    swap_right :
        (x y : List V) (rows : List (List V))
        → Le (comparison o orders) x y
        → Mem y (map (beside_key key) rows)
        → Le (comparison o orders) x (beside_key key (strip y))
    swap_right x y [] h m = absurd (not-mem-nil m)
    swap_right x y (row ∷ rows) h m =
        Or.elim (Bool-set _ _) (eq-or-mem_of_mem-cons m)
          (λ e.
            subst (λ y'. Le (comparison o orders) x (beside_key key y'))
              (sym (ap strip e ∙ strip-beside_key row))
              (subst (λ y'. Le (comparison o orders) x y') e h))
          (swap_right x y rows h)

  cmp_rows-append :
      (orders : List Bool) (k k' x y : List V)
      → length k ≡ length orders
      → length k' ≡ length orders
      → cmp_rows o (k ++ x) (k' ++ y) orders ≡ cmp_rows o k k' orders
  unfolding cmp_rows
  cmp_rows-append [] [] [] [] y h h' = refl
  cmp_rows-append [] [] [] (a ∷ x) [] h h' = refl
  cmp_rows-append [] [] [] (a ∷ x) (b ∷ y) h h' = refl
  cmp_rows-append [] [] (b ∷ k') x y h h' = absurd (omega (arith, h'))
  cmp_rows-append [] (a ∷ k) k' x y h h' = absurd (omega (arith, h))
  cmp_rows-append (desc ∷ orders) [] k' x y h h' = absurd (omega (arith, h))
  cmp_rows-append (desc ∷ orders) (a ∷ k) [] x y h h' = absurd (omega (arith, h'))
  cmp_rows-append (desc ∷ orders) (a ∷ k) (b ∷ k') x y h h' =
      ap (ordered desc (cmp o a b))
        (cmp_rows-append orders k k' x y (omega (arith, h)) (omega (arith, h')))

  module _ (wide_key : (row : List V) → length (key row) ≡ length orders) where
    keys-InOrder :
        (sorted : List (List V)) (rows : List (List V))
        → ((x : List V) → Mem x sorted → Mem x (map (beside_key key) rows))
        → Pairwise (Le (comparison o orders)) sorted
        → Pairwise InOrder (map strip sorted)
    keys-InOrder sorted rows inside p =
        Pairwise-InOrder (map strip sorted)
          ((Pairwise-map (λ a b. Bool-set _ _) strip).1 (pairwise_keys sorted inside p))
      where
        pairwise_keys :
            (sorted : List (List V))
            → ((x : List V) → Mem x sorted → Mem x (map (beside_key key) rows))
            → Pairwise (Le (comparison o orders)) sorted
            → Pairwise (λ a b. KeysLe (strip a) (strip b)) sorted
        pairwise_keys [] inside Pairwise.nil = Pairwise.nil
        pairwise_keys (a ∷ sorted) inside (Pairwise.cons h p) =
            Pairwise.cons
              (λ b m.
                subst (λ c. is_le c ≡ true)
                  (cmp_rows-append orders (key (strip a)) (key (strip b)) (strip a) (strip b)
                    (wide_key (strip a)) (wide_key (strip b)))
                  (swap_right wide_key (beside_key key (strip a)) b rows
                    (swap_left wide_key a b rows (h b m) (inside a mem-cons_self))
                    (inside b (mem-cons_of_mem a m))))
              (pairwise_keys sorted (λ x m. inside x (mem-cons_of_mem a m)) p)

    -- Sorted rows behind their keys, without the keys.
    pub strip-IsOrdering :
        (sorted : List (List V)) (rows : List (List V))
        → Perm sorted (map (beside_key key) rows)
        → Pairwise (Le (comparison o orders)) sorted
        → IsOrdering rows (map strip sorted)
    strip-IsOrdering sorted rows permuted p = record {
      permuted = rw (map-strip wide_key rows) at (Perm.map strip permuted);
      in_order = keys-InOrder sorted rows (λ x m. (Perm.mem_iff permuted).0 m) p;
    }
