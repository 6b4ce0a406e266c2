-- ===== src/Executor/Order.antt =====
-- executor/order.rs and top_n.rs. The sort of the standard library and the binary heap of the crate
-- binary_heap_plus are parameters.
pub mod Compare
pub mod Heap
pub mod Keys
pub mod Laws
mod Reference
mod Tests
use mathlib.Core.List.{Mem, Perm, Pairwise}
use risinglight.Prelude.{
  ℕ, ◌+◌, ◌≤◌, ◌^◌, ◌%◌, ◌≡◌, ◌≢◌, Bool, true, false, Ordering, Option, none, some, List, [], ◌∷◌,
  ◌++◌, map, length, take, drop, Result, ok, err, panic, ◌>>=◌, if◌then◌else◌, ltb, checked_add,
  unwrap,
}
use risinglight.Prelude.Ord.{Ord, cmp, reverse}
use risinglight.Executor.Stream.{Stream, run}
use risinglight.Executor.Builder.{DataChunkBuilder, processing_window_size, push_rows, flush, new}
use risinglight.Executor.Group.{row_concat}

-- Not after, in an order.
abbrev pub is_le : Ordering → Bool
is_le Ordering.gt = false
is_le _ = true

module _ {A : Type 0} (compare : A → A → Ordering) where
  abbrev pub Le : A → A → Type 0
  Le a b = is_le (compare a b) ≡ true

-- The laws of the sort and of the heap hold on a domain where the comparison is an order.
module _ {A : Type 0} (compare : A → A → Ordering) (Domain : A → Type 0) where
  abbrev pub Within : List A → Type 0
  Within l = (a : A) → Mem a l → Domain a

  -- `sort_unstable_by`
  pub record Sort : Type 0 where
    pub sort_unstable_by : List A → List A
    pub permutes : (l : List A) → Perm (sort_unstable_by l) l
    pub sorts : (l : List A) → Within l → Pairwise (Le compare) (sort_unstable_by l)

  -- The binary heap. Room for more than `isize::MAX` bytes cannot be asked for.
  pub record BinaryHeap : Type 1 where
    pub Heap : Type 0
    pub max_capacity : ℕ
    pub with_capacity_by : ℕ → Option Heap
    pub push : A → Heap → Heap
    pub pop : Heap → Option A × Heap
    pub len : Heap → ℕ
    pub into_sorted_vec : Heap → List A
    pub elements : Heap → List A
    pub starts :
        (n : ℕ) → n ≤ max_capacity → (h : Heap) × (with_capacity_by n ≡ some h) × (elements h ≡ [])
    pub pushed : (a : A) (h : Heap) → Perm (elements (push a h)) (a ∷ elements h)
    pub counted : (h : Heap) → len h ≡ length (elements h)
    -- The greatest element leaves.
    pub popped :
        (h : Heap)
        → Within (elements h)
        → elements h ≢ []
        → (a : A) × (h' : Heap) × (pop h ≡ (some a, h'))
          × Perm (elements h) (a ∷ elements h')
          × ((x : A) → Mem x (elements h) → Le compare x a)
    pub drained : (h : Heap) → Perm (into_sorted_vec h) (elements h)
    pub drained_sorted :
        (h : Heap) → Within (elements h) → Pairwise (Le compare) (into_sorted_vec h)

-- One round of the loop: what a comparison of two values gives, with the `rest` to come.
abbrev pub ordered : Bool → Ordering → Ordering → Ordering
ordered desc Ordering.eq rest = rest
ordered desc Ordering.lt rest = if desc then reverse Ordering.lt else Ordering.lt
ordered desc Ordering.gt rest = if desc then reverse Ordering.gt else Ordering.gt

-- The comparison of two rows by orders.
pub cmp_rows : {V : Type 0} → Ord V → List V → List V → List Bool → Ordering
cmp_rows o (v1 ∷ row1) (v2 ∷ row2) (desc ∷ orders) =
    ordered desc (cmp o v1 v2) (cmp_rows o row1 row2 orders)
cmp_rows o row1 row2 orders = Ordering.eq

-- The expressions are what evaluating them on a chunk gives, and `orders` which of them are descending.
pub record OrderExecutor (E V : Type 0) : Type 0 where
  pub order_keys : List (List V) → Result E (List (List V))
  pub orders : List Bool

pub record TopNExecutor (E V : Type 0) : Type 0 where
  pub offset : ℕ
  pub limit : ℕ
  pub order_keys : List (List V) → Result E (List (List V))
  pub orders : List Bool

-- A row with a value for every order.
abbrev pub HasKeys : {V : Type 0} → List Bool → List V → Type 0
HasKeys orders row = length orders ≤ length row

module _ {V : Type 0} (o : Ord V) where
  abbrev pub comparison : List Bool → List V → List V → Ordering
  comparison orders row1 row2 = cmp_rows o row1 row2 orders

module _ {E V : Type 0} where
  -- All chunks of the child, the order keys in front of the rows.
  pub gather :
      (List (List V) → Result E (List (List V)))
      → Stream E (List (List V))
      → Result E (List (List V))
  gather order_keys Stream.done = ok []
  gather order_keys (Stream.failed e) = err e
  gather order_keys Stream.panicked = panic
  gather order_keys (Stream.yielded chunk child) = do
    order_key_chunk ← order_keys chunk
    rows ← row_concat order_key_chunk chunk
    rest ← gather order_keys child
    ok (rows ++ rest)

  -- The rows without their order keys, in chunks.
  abbrev pub build : List Bool → List (List V) → Stream E (List (List V))
  build orders rows = push_rows (map (drop (length orders)) rows) (new processing_window_size) flush

module _ {E V : Type 0} (o : Ord V) (self : OrderExecutor E V)
    (sort : Sort (comparison o self.orders) (HasKeys self.orders)) where
  unfoldable pub execute_order : Stream E (List (List V)) → Stream E (List (List V))
  unfolding gather push_rows flush new
  execute_order child =
      run (gather self.order_keys child) (λ rows. build self.orders (sort.sort_unstable_by rows))

module _ {E V : Type 0} (o : Ord V) (self : TopNExecutor E V)
    (heap : BinaryHeap (comparison o self.orders) (HasKeys self.orders)) where
  pub push_heap : ℕ → List (List V) → heap.Heap → heap.Heap
  push_heap heap_size [] h = h
  push_heap heap_size (row ∷ rows) h =
      let pushed = heap.push row h in
      push_heap heap_size rows
        (if ltb heap_size (heap.len pushed) then (heap.pop pushed).1 else pushed)

  pub heap_loop : ℕ → Stream E (List (List V)) → heap.Heap → Result E heap.Heap
  heap_loop heap_size Stream.done h = ok h
  heap_loop heap_size (Stream.failed e) h = err e
  heap_loop heap_size Stream.panicked h = panic
  heap_loop heap_size (Stream.yielded chunk child) h = do
    order_key_chunk ← self.order_keys chunk
    rows ← row_concat order_key_chunk chunk
    heap_loop heap_size child (push_heap heap_size rows h)

  unfoldable pub execute_top_n : Stream E (List (List V)) → Stream E (List (List V))
  unfolding heap_loop push_heap push_rows flush new
  execute_top_n child = run (checked_add 64 self.offset self.limit) (λ heap_size.
      run (unwrap (heap.with_capacity_by heap_size)) (λ h.
        run (heap_loop heap_size child h) (λ full.
          build self.orders (take self.limit (drop self.offset (heap.into_sorted_vec full))))))
