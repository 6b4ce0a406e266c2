-- ===== src/Executor/Order/Heap.antt =====
-- The heap of a top-n keeps the first rows of those that it has seen.
use mathlib.Core.List.{
  Mem, Perm, perm_middle, mem-cons_self, mem-cons_of_mem, eq-or-mem_of_mem-cons, not-mem-nil,
  mem-append, mem-append_left, mem-append_right, perm_append_comm,
}
use mathlib.Core.List.Perm
use mathlib.Core.Logic.Or
use mathlib.Core.Bool.{Bool-set}
use risinglight.Prelude.{
  ℕ, ◌+◌, ◌≤◌, ◌<◌, ◌≡◌, ◌≢◌, refl, sym, ◌∙◌, ok, Bool, List, [], ◌∷◌, ◌++◌, length, length-append,
  if◌then◌else◌, inl, inr, Bool-cases, arith, ◌⊎◌, subst, append_assoc, ltb, map, map-append,
  err≢ok, panic≢ok,
}
use risinglight.Prelude.Ord.{Ord}
use risinglight.Prelude.Permutation.{Perm-length}
use risinglight.Executor.Order.{
  comparison, HasKeys, Le, BinaryHeap, TopNExecutor, push_heap, heap_loop,
}
use risinglight.Executor.Group.{row_concat}
use risinglight.Executor.Stream.{Stream, rows, ending}
use risinglight.Executor.Evaluate.{IsRowWise}
use native.Mathlib.Bridge.{le_prop}
use risinglight.Executor.Order.Compare.{Le_trans}

-- A row behind its order keys.
abbrev pub beside_key : {V : Type 0} → (List V → List V) → List V → List V
beside_key key row = key row ++ row

pub row_concat-keys :
    (E : Type 0) {V : Type 0} (key : List V → List V) (chunk : List (List V))
    → row_concat {E = E} (map key chunk) chunk ≡ ok (map (beside_key key) chunk)
row_concat-keys E key [] = refl
row_concat-keys E key (row ∷ chunk) = rw (row_concat-keys E key chunk)

module _ {V : Type 0} (orders : List Bool) where
  -- Each row has a value for every order.
  abbrev pub Wide : List (List V) → Type 0
  Wide rows = (row : List V) → Mem row rows → length orders ≤ length row

  pub Wide-append : (xs ys : List (List V)) → Wide xs → Wide ys → Wide (xs ++ ys)
  Wide-append xs ys wx wy row m = Or.elim le_prop (mem-append.0 m) (wx row) (wy row)

  pub Wide-keyed :
      (key : List V → List V)
      → ((row : List V) → length (key row) ≡ length orders)
      → (rows : List (List V)) → Wide (map (beside_key key) rows)
  Wide-keyed key h [] row m = absurd (not-mem-nil m)
  Wide-keyed key h (r ∷ rows) row m =
      Or.elim le_prop (eq-or-mem_of_mem-cons m)
        (λ e. rw e (omega (arith, h r, length-append (key r) r))) (Wide-keyed key h rows row)

module _ {E V : Type 0} (o : Ord V) (self : TopNExecutor E V)
    (heap : BinaryHeap (comparison o self.orders) (HasKeys self.orders)) where
  abbrev pub Before : List V → List V → Type 0
  Before = Le (comparison o self.orders)

  -- The heap and what has left it: together all that was seen, the heap in front, and full once
  -- something has left it.
  pub record Keeps (heap_size : ℕ) (seen : List (List V)) (h : heap.Heap) (left : List (List V))
      : Type 0 where
    pub all : Perm (heap.elements h ++ left) seen
    pub front : (x y : List V) → Mem x (heap.elements h) → Mem y left → Before x y
    pub bounded : length (heap.elements h) ≤ heap_size
    pub full : (left ≡ []) ⊎ (length (heap.elements h) ≡ heap_size)

  -- The greatest row leaves a heap of which one row is new.
  module _ (row g : List V) (h h' : heap.Heap) (left : List (List V))
      (wide : Wide self.orders (row ∷ heap.elements h ++ left))
      (front : (x y : List V) → Mem x (heap.elements h) → Mem y left → Before x y)
      (parts : Perm (row ∷ heap.elements h) (g ∷ heap.elements h'))
      (greatest : (x : List V) → Mem x (row ∷ heap.elements h) → Before x g) where
    inside : (x : List V) → Mem x (heap.elements h') → Mem x (row ∷ heap.elements h)
    inside x m = (Perm.mem_iff parts).1 (mem-cons_of_mem g m)

    old_front : (x y : List V) → Mem x (heap.elements h') → Mem y left → Before x y
    old_front x y mx my =
        Or.elim (Bool-set _ _) (eq-or-mem_of_mem-cons ((Perm.mem_iff parts).1 mem-cons_self))
          (λ e. front x y ((Perm.mem_iff (same e)).0 mx) my)
          (λ mg.
            Le_trans o self.orders x g y (wide x (mem-append_left left (inside x mx)))
              (wide g (mem-cons_of_mem row (mem-append_left left mg)))
              (wide y (mem-append_right (row ∷ heap.elements h) my)) (greatest x (inside x mx))
              (front g y mg my))
      where
        same : g ≡ row → Perm (heap.elements h') (heap.elements h)
        same e = Perm.cons_inv {a = g} (
            subst (λ r. Perm (g ∷ heap.elements h') (r ∷ heap.elements h)) (sym e)
              (Perm.symm parts))

    popped_front : (x y : List V) → Mem x (heap.elements h') → Mem y (g ∷ left) → Before x y
    popped_front x y mx my =
        Or.elim (Bool-set _ _) (eq-or-mem_of_mem-cons my) (λ e. rw e (greatest x (inside x mx)))
          (λ m. old_front x y mx m)

  module _ (heap_size : ℕ) where
    nonempty : {A : Type 0} (n : ℕ) {l : List A} → length l ≡ n + 1 → l ≢ []
    nonempty n {l = []} h = absurd (omega arith)
    nonempty n {l = x ∷ l} h = λ e. cc

    push_row :
        (row : List V) (seen : List (List V)) (h : heap.Heap) (left : List (List V))
        → Wide self.orders (row ∷ seen)
        → Keeps heap_size seen h left
        → (left' : List (List V)) × Keeps heap_size
            (row ∷ seen)
            (if ltb heap_size (heap.len (heap.push row h))
              then (heap.pop (heap.push row h)).1
              else heap.push row h)
            left'
    push_row row seen h left wide k =
        let size : length (heap.elements (heap.push row h)) ≡ length (heap.elements h) + 1 =
          Perm-length (heap.pushed row h) ∙ omega arith in
        let counted = heap.counted (heap.push row h) in
        elim (Bool-cases (ltb heap_size (heap.len (heap.push row h)))) [
          | inl over ↦
              let within : Wide self.orders (heap.elements (heap.push row h)) = λ x m. wide x (
                (Perm.mem_iff (Perm.cons row k.all)).0
                  (mem-append_left left ((Perm.mem_iff (heap.pushed row h)).0 m))) in
              let (g, h', gone, parts, greatest) =
                heap.popped (heap.push row h) within (nonempty (length (heap.elements h)) size) in
              let over' : heap_size < length (heap.elements h) + 1 =
                ground (arith, over, counted, size) in
              let smaller : length (heap.elements h) + 1 ≡ length (heap.elements h') + 1 =
                sym size ∙ Perm-length parts ∙ omega arith in
              let parts' : Perm (row ∷ heap.elements h) (g ∷ heap.elements h') =
                Perm.trans (Perm.symm (heap.pushed row h)) parts in
              rw (over, gone)
                (
                  g ∷ left,
                  record {
                    all = Perm.trans (perm_middle (heap.elements h') left) (
                        Perm.trans (Perm.append_right left (Perm.symm parts'))
                          (Perm.cons row k.all));
                    front =
                        popped_front row g h h' left
                          (λ x m. wide x ((Perm.mem_iff (Perm.cons row k.all)).0 m)) k.front parts'
                          (λ x m. greatest x ((Perm.mem_iff (heap.pushed row h)).1 m));
                    bounded = omega (arith, k.bounded, smaller);
                    full = inr (omega (arith, k.bounded, smaller, over'));
                  },
                )
          | inr under ↦
              let under' : length (heap.elements h) + 1 ≤ heap_size =
                ground (arith, under, counted, size) in
              let nothing : left ≡ [] = elim k.full [
                | inl e ↦ e
                | inr e ↦ absurd (omega (arith, e, under'))
              ] in
              rw under (
                left,
                record {
                  all =
                      Perm.trans (Perm.append_right left (heap.pushed row h)) (Perm.cons row k.all);
                  front = λ x y mx my. absurd (not-mem-nil (subst (λ l. Mem y l) nothing my));
                  bounded = omega (arith, size, under');
                  full = inl nothing;
                },
              )
        ]

    Keeps-perm :
        {seen seen' : List (List V)} {h : heap.Heap} {left : List (List V)}
        → Keeps heap_size seen h left
        → Perm seen seen'
        → Keeps heap_size seen' h left
    Keeps-perm k e = record {
      all = Perm.trans k.all e;
      front = k.front;
      bounded = k.bounded;
      full = k.full;
    }

    push_heap-Keeps :
        (rows seen : List (List V)) (h : heap.Heap) (left : List (List V))
        → Wide self.orders (rows ++ seen)
        → Keeps heap_size seen h left
        → (left' : List (List V)) × Keeps heap_size
            (rows ++ seen)
            (push_heap o self heap heap_size rows h)
            left'
    unfolding push_heap
    push_heap-Keeps [] seen h left wide k = (left, k)
    push_heap-Keeps (row ∷ rows) seen h left wide k =
        let wide' : Wide self.orders (rows ++ row ∷ seen) =
          λ x m. wide x ((Perm.mem_iff (perm_middle rows seen)).0 m) in
        let (left', k') = push_row row seen h left (λ x m. wide' x (mem-append_right rows m)) k in
        let (left'', k'') = push_heap-Keeps rows (row ∷ seen) _ left' wide' k' in
        (left'', Keeps-perm k'' (perm_middle rows seen))

    module _ (key : List V → List V)
        (wide_key : (row : List V) → length (key row) ≡ length self.orders)
        (row_wise : IsRowWise self.order_keys key) where
      pub heap_loop-Keeps :
          (child : Stream E (List (List V))) (seen : List (List V)) (h : heap.Heap)
          (left : List (List V))
          → ending child ≡ ok tt
          → Wide self.orders seen
          → Keeps heap_size seen h left
          → (h' : heap.Heap) × (left' : List (List V)) × (heap_loop o self heap heap_size child h
              ≡ ok h')
            × Keeps heap_size (map (beside_key key) (rows child) ++ seen) h' left'
      unfolding heap_loop
      heap_loop-Keeps Stream.done seen h left e wide k = (h, left, refl, k)
      heap_loop-Keeps (Stream.failed x) seen h left e wide k = absurd (err≢ok e)
      heap_loop-Keeps Stream.panicked seen h left e wide k = absurd (panic≢ok e)
      heap_loop-Keeps (Stream.yielded chunk child) seen h left e wide k =
          let now = map (beside_key key) chunk in
          let later = map (beside_key key) (rows child) in
          let wide' : Wide self.orders (now ++ seen) =
            Wide-append self.orders now seen (Wide-keyed self.orders key wide_key chunk) wide in
          let (left', k') = push_heap-Keeps now seen h left wide' k in
          let (h'', left'', looped, k'') = heap_loop-Keeps child (now ++ seen) _ left' e wide' k' in
          (
            h'',
            left'',
            rw (row_wise chunk, row_concat-keys E key chunk) looped,
            Keeps-perm k'' (
                rw (map-append (beside_key key) chunk (rows child), ← append_assoc later now seen)
                  (Perm.append_right seen (perm_append_comm later now))),
          )
