-- ===== src/Executor/Order/Laws.antt =====
-- What an order and a top-n give: the rows in the order of their keys, and a window of them.
use mathlib.Core.List.{
  Perm, Pairwise, Pairwise-append, not-mem-nil, mem-append_left, mem-append_right,
}
use mathlib.Core.List.Perm
use mathlib.Core.Bool.{Bool-set}
use risinglight.Prelude.{
  ℕ, zero, suc, ◌+◌, ◌≤◌, ◌<◌, ◌^◌, ◌≡◌, refl, ap, ◌∙◌, Bool, List, [], ◌∷◌, ◌++◌, map, map-append,
  length, take, drop, append-nil, ok, arith, inl, inr, checked_add-fits, err≢ok, panic≢ok, subst,
  Result,
}
use risinglight.Prelude.Ord.{Ord}
use risinglight.Prelude.Permutation.{Perm-length}
use risinglight.Executor.Stream.{Stream, rows, ending}
use risinglight.Executor.Evaluate.{IsRowWise}
use risinglight.Executor.Builder.{new, processing_window_size}
use risinglight.Executor.Builder.Laws.{new-IsValid, rows-push_rows, rows-flush}
use risinglight.Executor.Order.{
  Le, Sort, BinaryHeap, comparison, HasKeys, OrderExecutor, TopNExecutor, gather, build,
  execute_order, execute_top_n,
}
use risinglight.Executor.Order.Heap.{
  beside_key, row_concat-keys, Keeps, heap_loop-Keeps, Wide, Wide-append, Wide-keyed,
}
use risinglight.Executor.Order.Keys.{IsOrdering, strip, strip-IsOrdering}

gather_lem :
    {E V : Type 0} (order_keys : List (List V) → Result E (List (List V))) (key : List V → List V)
    → IsRowWise order_keys key
    → (child : Stream E (List (List V))) → ending child ≡ ok tt
    → gather order_keys child ≡ ok (map (beside_key key) (rows child))
unfolding gather
gather_lem order_keys key row_wise Stream.done e = refl
gather_lem order_keys key row_wise (Stream.failed x) e = absurd (err≢ok e)
gather_lem order_keys key row_wise Stream.panicked e = absurd (panic≢ok e)
gather_lem {E} order_keys key row_wise (Stream.yielded chunk child) e = rw (
  row_wise chunk,
  gather_lem order_keys key row_wise child e,
  row_concat-keys E key chunk,
  map-append (beside_key key) chunk (rows child),
)

rows-build :
    (E : Type 0) {V : Type 0} (orders : List Bool) (rs : List (List V))
    → rows (build {E = E} orders rs) ≡ map (drop (length orders)) rs
unfolding new
rows-build E orders rs =
    rows-push_rows (map (drop (length orders)) rs) (new processing_window_size) _ []
      (new-IsValid processing_window_size (omega arith)) (λ b v. rows-flush E b v)
    ∙ append-nil (map (drop (length orders)) rs)

module _ {A B : Type 0} (f : A → B) where
  map-drop : (n : ℕ) (xs : List A) → map f (drop n xs) ≡ drop n (map f xs)
  map-drop zero xs = refl
  map-drop (suc n) [] = refl
  map-drop (suc n) (x ∷ xs) = map-drop n xs

  map-take : (n : ℕ) (xs : List A) → map f (take n xs) ≡ take n (map f xs)
  map-take zero xs = refl
  map-take (suc n) [] = refl
  map-take (suc n) (x ∷ xs) = ap (◌∷◌ (f x)) (map-take n xs)

module _ {A : Type 0} where
  take-append : (n : ℕ) (xs ys : List A) → length xs ≡ n → take n (xs ++ ys) ≡ take n xs
  take-append zero [] ys h = refl
  take-append zero (x ∷ xs) ys h = absurd (omega (arith, h))
  take-append (suc n) [] ys h = absurd (omega (arith, h))
  take-append (suc n) (x ∷ xs) ys h = ap (◌∷◌ x) (take-append n xs ys (omega (arith, h)))

  -- A window that ends with the first list.
  window-append :
      (offset limit : ℕ) (xs ys : List A)
      → length xs ≡ offset + limit
      → take limit (drop offset (xs ++ ys)) ≡ take limit (drop offset xs)
  window-append zero limit xs ys h = take-append limit xs ys (omega (arith, h))
  window-append (suc offset) limit [] ys h = absurd (omega (arith, h))
  window-append (suc offset) limit (x ∷ xs) ys h =
      window-append offset limit xs ys (omega (arith, h))

module _ {E V : Type 0} (o : Ord V) (key : List V → List V) where
  module _ (self : OrderExecutor E V)
      (sort : Sort (comparison o self.orders) (HasKeys self.orders)) where
    -- An order over a child that ends without an error gives all rows of the child, such that of two of
    -- them the first keys that differ stand in ascending order, or in descending order where the key
    -- is a descending one. It is stated for any sort of the standard library that permutes and sorts
    -- by the comparison it is given, and for order keys that can be evaluated.
    pub execute_order-IsOrdering :
        (child : Stream E (List (List V)))
        → ((row : List V) → length (key row) ≡ length self.orders)
        → IsRowWise self.order_keys key
        → ending child ≡ ok tt
        → IsOrdering o self.orders key (rows child) (rows (execute_order o self sort child))
    unfolding execute_order
    execute_order-IsOrdering child wide_key row_wise e =
        let keyed = map (beside_key key) (rows child) in
        rw
          (
            gather_lem self.order_keys key row_wise child e,
            rows-build E self.orders (sort.sort_unstable_by keyed),
          )
          (strip-IsOrdering o self.orders key wide_key (sort.sort_unstable_by keyed) (rows child)
            (sort.permutes keyed)
            (sort.sorts keyed (Wide-keyed self.orders key wide_key (rows child))))

  module _ (self : TopNExecutor E V)
      (heap : BinaryHeap (comparison o self.orders) (HasKeys self.orders))
      (sort : Sort (comparison o self.orders) (HasKeys self.orders)) where
    -- What the heap keeps, sorted, with what has left it behind.
    Keeps-sorted :
        (rs : List (List V)) (h : heap.Heap) (left : List (List V))
        → Wide self.orders rs
        → Keeps o self heap (self.offset + self.limit) rs h left
        → (sorted : List (List V)) × Perm sorted rs
          × Pairwise (Le (comparison o self.orders)) sorted
          × (take self.limit (drop self.offset sorted)
              ≡ take self.limit (drop self.offset (heap.into_sorted_vec h)))
    Keeps-sorted rs h left wide k =
        let kept = heap.into_sorted_vec h in
        let behind = sort.sort_unstable_by left in
        (
          kept ++ behind,
          Perm.trans (Perm.append (heap.drained h) (sort.permutes left)) k.all,
          (Pairwise-append (λ a b. Bool-set _ _)).1 (
            heap.drained_sorted h (λ x m. wide x ((Perm.mem_iff k.all).0 (mem-append_left left m))),
            sort.sorts left
                (λ x m. wide x ((Perm.mem_iff k.all).0 (mem-append_right (heap.elements h) m))),
            λ a ma b mb.
                k.front a b ((Perm.mem_iff (heap.drained h)).0 ma)
                  ((Perm.mem_iff (sort.permutes left)).0 mb),
          ),
          elim k.full [
            | inl nothing ↦
                let none_ : behind ≡ [] =
                  Perm.eq-nil (subst (λ l. Perm behind l) nothing (sort.permutes left)) in
                rw (none_, append-nil kept)
            | inr full ↦
                window-append self.offset self.limit kept behind
                  (Perm-length (heap.drained h) ∙ full)
          ],
        )

    -- A top-n over a child that ends without an error gives the rows that a limit with its offset
    -- takes of an ordering of all rows of the child, if offset and limit together are what the heap
    -- can be made for and fit in a usize.
    pub rows-execute_top_n :
        (child : Stream E (List (List V)))
        → ((row : List V) → length (key row) ≡ length self.orders)
        → IsRowWise self.order_keys key
        → ending child ≡ ok tt
        → self.offset + self.limit ≤ heap.max_capacity
        → self.offset + self.limit < 2 ^ 64
        → (out : List (List V)) × IsOrdering o self.orders key (rows child) out
          × (rows (execute_top_n o self heap child) ≡ take self.limit (drop self.offset out))
    unfolding execute_top_n
    rows-execute_top_n child wide_key row_wise e room small =
        let size = self.offset + self.limit in
        let keyed = map (beside_key key) (rows child) in
        let (start, made, empty) = heap.starts size room in
        let (h, left, looped, k) =
          heap_loop-Keeps o self heap size key wide_key row_wise child [] start [] e
            (λ x m. absurd (not-mem-nil m))
            (record {
              all = rw empty Perm.rfl;
              front = λ x y mx my. absurd (not-mem-nil my);
              bounded = rw empty (omega arith);
              full = inl refl;
            }) in
        let (sorted, permuted, in_order, window) =
          Keeps-sorted _ h left
            (Wide-append self.orders keyed [] (Wide-keyed self.orders key wide_key (rows child))
              (λ x m. absurd (not-mem-nil m)))
            k in
        let out = map (strip o self.orders key) sorted in
        (
          out,
          strip-IsOrdering o self.orders key wide_key sorted (rows child)
              (rw (append-nil keyed) at permuted) in_order,
          rw
              (
                checked_add-fits {E = E} 64 self.offset self.limit small,
                made,
                looped,
                rows-build E self.orders
                    (take self.limit (drop self.offset (heap.into_sorted_vec h))),
                ← window,
              )
              (map-take _ self.limit (drop self.offset sorted)
                ∙ ap (take self.limit) (map-drop _ self.offset sorted)),
        )
