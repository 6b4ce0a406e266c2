-- ===== src/Block/Rle/Iterator/View.antt =====
-- What an `RleBlockIterator` has left to read, and the invariant that ties its fields together.
use risinglight.Prelude.{
  ℕ, suc, ◌+◌, ◌-◌, ◌≤◌, ◌<◌, min, ◌≡◌, refl, Bool, true, false, Option, none, some, List, [], ◌∷◌,
  ◌++◌, arith, ok, length, drop, replicate, unroll, get_elem?-drop,
}
use risinglight.Block.Interface.{BlockIterator, IsBlockIterator}
use risinglight.Block.Rle.Iterator.{RleBlockIterator, get_next_element, get_cur_rle_count}

module _ {ℓ} {X : Type ℓ} where
  -- The rows that are left when `k` rows of the first run are read.
  abbrev pub pending : ℕ → List X → List ℕ → List X
  pending k (x ∷ xs) (n ∷ ns) = replicate (n - k) x ++ unroll xs ns
  pending k xs ns = []

  pub pending-zero : (xs : List X) (ns : List ℕ) → pending 0 xs ns ≡ unroll xs ns
  pending-zero (x ∷ xs) (n ∷ ns) = let e : n - 0 ≡ n = omega arith in rw e
  pending-zero [] ns = refl
  pending-zero (x ∷ xs) [] = refl

  pub pending-suc :
      (k : ℕ) (x : X) (xs : List X) (n : ℕ) (ns : List ℕ)
      → k < n
      → pending k (x ∷ xs) (n ∷ ns) ≡ x ∷ pending (k + 1) (x ∷ xs) (n ∷ ns)
  pending-suc k x xs n ns h = let e : n - k ≡ suc (n - (k + 1)) = omega arith in rw e

  pub pending_done :
      (k : ℕ) (x : X) (xs : List X) (n : ℕ) (ns : List ℕ)
      → n ≤ k
      → pending k (x ∷ xs) (n ∷ ns) ≡ unroll xs ns
  pending_done k x xs n ns h = let e : n - k ≡ 0 = omega arith in rw e

  -- The items that the inner iterator has left: it is one item ahead once the first is fetched.
  abbrev pub ahead : Bool → List X → List X
  ahead true xs = xs
  ahead false [] = []
  ahead false (x ∷ xs) = xs

  abbrev pub IsCurrent : Bool → X → List X → Type ℓ
  IsCurrent false e (x ∷ xs) = e ≡ x
  IsCurrent unused e xs = Unit

abbrev pub InRun : ℕ → List ℕ → Type 0
InRun k [] = Unit
InRun k (n ∷ ns) = k ≤ n

module _ {A : Type 0} (I : BlockIterator A) (L : IsBlockIterator I) where
  -- `heads` and `counts` are the runs from the current one on.
  pub record Tracks (s : RleBlockIterator I.State A) (heads : List (Option A)) (counts : List ℕ)
      : Type 0 where
    pub runs : s.rle_row_count ≡ length s.rle_block
    pub at_row : drop s.cur_row s.rle_block ≡ counts
    pub inside : s.cur_row + length counts ≡ s.rle_row_count
    pub aligned : length heads ≡ length counts
    pub inner : L.Holds s.block_iter (ahead s.never_used heads)
    pub current : IsCurrent s.never_used s.cur_element heads
    pub scanned : InRun s.cur_scanned_count counts
    pub total :
        s.row_count ≡ s.row_scanned_count + length (pending s.cur_scanned_count heads counts)

  pub get_next_element-cons :
      (inner : I.State) (x : Option A) (xs : List (Option A))
      → L.Holds inner (x ∷ xs)
      → (inner' : I.State) × (get_next_element I inner ≡ ok (some x, inner')) × L.Holds inner' xs
  unfolding get_next_element
  get_next_element-cons inner x xs h =
      let (inner', read, h') = L.next_some 1 inner (x ∷ xs) (omega arith) h in
      let one : min 1 (suc (length xs)) ≡ 1 = omega arith in (inner', rw (read, one), h')

  pub get_next_element-nil :
      (inner : I.State)
      → L.Holds inner []
      → (inner' : I.State) × (get_next_element I inner ≡ ok (none, inner')) × L.Holds inner' []
  unfolding get_next_element
  get_next_element-nil inner h =
      let (inner', read, h') = L.next_some 1 inner [] (omega arith) h in (inner', rw read, h')

  module _ (s : RleBlockIterator I.State A) (n : ℕ) (ns : List ℕ)
      (e : drop s.cur_row s.rle_block ≡ n ∷ ns) where
    pub get_cur_rle_count_lem : get_cur_rle_count I s ≡ ok n
    unfolding get_cur_rle_count
    get_cur_rle_count_lem = rw (get_elem?-drop s.cur_row s.rle_block n ns e)
