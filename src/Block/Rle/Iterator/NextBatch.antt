-- ===== src/Block/Rle/Iterator/NextBatch.antt =====
-- `next_batch` reads the next rows, whatever runs they lie in.
use risinglight.Prelude.{
  ℕ, zero, suc, ◌+◌, ◌≤◌, ◌<◌, ◌≡◌, refl, sym, ap, ◌∙◌, inl, inr, true, false, Bool-cases, Option,
  List, [], ◌∷◌, ◌++◌, arith, ltb→lt, lt→ltb, get_elem?-drop, ok, length, drop, drop-suc, ltb, leb,
}
use risinglight.Block.Interface.{BlockIterator, IsBlockIterator}
use risinglight.Block.Rle.Iterator.{
  RleBlockIterator, next_loop, next_batch, next_batch_fuel, resume, is_full,
}
use risinglight.Block.Rle.Iterator.View.{
  pending, pending-zero, pending-suc, pending_done, Tracks, get_next_element-cons,
  get_cur_rle_count_lem,
}
use risinglight.Block.Rle.Iterator.Read.{
  quota, IsSize, is_full-cases, quota-suc, quota-zero, Reads, push-Tracks, end-Tracks, next-Tracks,
  Reads-none, Reads-push, next_loop-full, next_loop-push, next_loop-end, next_loop-next,
}

module _ {A : Type 0} (I : BlockIterator A) (L : IsBlockIterator I) where
  -- What the loop does from inside a run, with some fuel.
  abbrev LoopReads : Option ℕ → ℕ → Type 0
  LoopReads e fuel =
      (cnt : ℕ) (builder : List (Option A)) (s : RleBlockIterator I.State A) (x : Option A)
      (xs : List (Option A)) (n : ℕ) (ns : List ℕ)
      → s.never_used ≡ false
      → Tracks I L s (x ∷ xs) (n ∷ ns)
      → length (pending s.cur_scanned_count (x ∷ xs) (n ∷ ns)) + length ns < fuel
      → Reads I L (next_loop I fuel e cnt n builder s) cnt
          (quota e cnt (length (pending s.cur_scanned_count (x ∷ xs) (n ∷ ns)))) builder
          (pending s.cur_scanned_count (x ∷ xs) (n ∷ ns))

  module _ (e : Option ℕ) (p : IsSize e) (fuel : ℕ) (ih : LoopReads e fuel) where
    push_row :
        (cnt : ℕ) (builder : List (Option A)) (s : RleBlockIterator I.State A) (x : Option A)
        (xs : List (Option A)) (n : ℕ) (ns : List ℕ)
        → s.never_used ≡ false
        → Tracks I L s (x ∷ xs) (n ∷ ns)
        → length (pending s.cur_scanned_count (x ∷ xs) (n ∷ ns)) + length ns < suc fuel
        → is_full e cnt ≡ ok false
        → s.cur_scanned_count < n
        → Reads I L
            (next_loop I (suc fuel) e cnt n builder s)
            cnt
            (quota e cnt (length (pending s.cur_scanned_count (x ∷ xs) (n ∷ ns))))
            builder
            (pending s.cur_scanned_count (x ∷ xs) (n ∷ ns))
    push_row cnt builder s x xs n ns used t f more inside =
        let current : s.cur_element ≡ x = rw used at t.current in
        let run = record s {
          cur_scanned_count = s.cur_scanned_count + 1;
          row_scanned_count = s.row_scanned_count + 1;
        } in
        let step =
          next_loop-push I L fuel e cnt n builder s more (lt→ltb _ _ inside)
          ∙ ap (λ (z : Option A). next_loop I fuel e (cnt + 1) n (builder ++ z ∷ []) run) current in
        rw (step, pending-suc s.cur_scanned_count x xs n ns inside, quota-suc e cnt _ p more)
          (Reads-push I L _ cnt _ builder x _ (
            ih (cnt + 1) (builder ++ x ∷ []) run x xs n ns used
              (push-Tracks I L s used x xs n ns t inside)
              (omega (arith, ap length (pending-suc s.cur_scanned_count x xs n ns inside)))))

    pass_run :
        (cnt : ℕ) (builder : List (Option A)) (s : RleBlockIterator I.State A) (x : Option A)
        (xs : List (Option A)) (n : ℕ) (ns : List ℕ)
        → s.never_used ≡ false
        → Tracks I L s (x ∷ xs) (n ∷ ns)
        → length (pending s.cur_scanned_count (x ∷ xs) (n ∷ ns)) + length ns < suc fuel
        → is_full e cnt ≡ ok false
        → ltb s.cur_scanned_count n ≡ false
        → Reads I L
            (next_loop I (suc fuel) e cnt n builder s)
            cnt
            (quota e cnt (length (pending s.cur_scanned_count (x ∷ xs) (n ∷ ns))))
            builder
            (pending s.cur_scanned_count (x ∷ xs) (n ∷ ns))
    pass_run cnt builder s x [] n [] used t f more done =
        let over : n ≤ s.cur_scanned_count = ground arith in
        rw
          (
            next_loop-end I L fuel e cnt n builder s more done (ground (arith, t.inside)),
            pending_done s.cur_scanned_count x [] n [] over,
            quota-zero e cnt,
          )
          (Reads-none I L cnt builder [] [] [] _ (end-Tracks I L s used x n t over) refl)
    pass_run cnt builder s x [] n (m ∷ ms) used t f more done = absurd (omega (arith, t.aligned))
    pass_run cnt builder s x (y ∷ ys) n [] used t f more done = absurd (omega (arith, t.aligned))
    pass_run cnt builder s x (y ∷ ys) n (m ∷ ms) used t f more done =
        let over : n ≤ s.cur_scanned_count = ground arith in
        let holds : L.Holds s.block_iter (y ∷ ys) = rw used at t.inner in
        let (inner, found, holds') = get_next_element-cons I L s.block_iter y ys holds in
        let counts = drop-suc s.cur_row s.rle_block n (m ∷ ms) t.at_row in
        rw
          (
            next_loop-next I L fuel e cnt n builder s more y inner m done (ground (arith, t.inside))
                found (get_elem?-drop (s.cur_row + 1) s.rle_block m ms counts),
            pending_done s.cur_scanned_count x (y ∷ ys) n (m ∷ ms) over,
            sym (pending-zero (y ∷ ys) (m ∷ ms)),
          )
          (ih cnt builder _ y ys m ms used
            (next-Tracks I L s used x y ys n m ms inner t over holds')
            (omega (
              arith,
              ap length (pending_done s.cur_scanned_count x (y ∷ ys) n (m ∷ ms) over),
              ap length (pending-zero (y ∷ ys) (m ∷ ms)),
            )))

  next_loop-Reads : (e : Option ℕ) → IsSize e → (fuel : ℕ) → LoopReads e fuel
  next_loop-Reads e p zero cnt builder s x xs n ns used t f = absurd (omega arith)
  next_loop-Reads e p (suc fuel) cnt builder s x xs n ns used t f =
      elim (is_full-cases e cnt (length (pending s.cur_scanned_count (x ∷ xs) (n ∷ ns))) p) [
        | inl (full, q) ↦
            rw (q, next_loop-full I L fuel e cnt n builder s full)
              (Reads-none I L cnt builder _ (x ∷ xs) (n ∷ ns) s t refl)
        | inr more ↦ elim (Bool-cases (ltb s.cur_scanned_count n)) [
          | inl inside ↦
              push_row e p fuel (next_loop-Reads e p fuel) cnt builder s x xs n ns used t f more
                (ltb→lt _ _ inside)
          | inr done ↦
              pass_run e p fuel (next_loop-Reads e p fuel) cnt builder s x xs n ns used t f more
                done
        ]
      ]

  next_batch_fuel_lem :
      (s : RleBlockIterator I.State A) → next_batch_fuel I s ≡ s.row_count + s.rle_row_count + 1
  unfolding next_batch_fuel
  next_batch_fuel_lem s = refl

  resume_lem :
      (e : Option ℕ) (builder : List (Option A)) (s : RleBlockIterator I.State A) (n : ℕ)
      (ns : List ℕ)
      → drop s.cur_row s.rle_block ≡ n ∷ ns
      → resume I e builder s ≡ next_loop I (next_batch_fuel I s) e 0 n builder s
  unfolding resume
  resume_lem e builder s n ns at_row = rw (get_cur_rle_count_lem I L s n ns at_row)

  resume-Reads :
      (e : Option ℕ) (builder : List (Option A)) (s : RleBlockIterator I.State A) (x : Option A)
      (xs : List (Option A)) (n : ℕ) (ns : List ℕ)
      → IsSize e
      → s.never_used ≡ false
      → Tracks I L s (x ∷ xs) (n ∷ ns)
      → Reads I L
          (resume I e builder s)
          0
          (quota e 0 (length (pending s.cur_scanned_count (x ∷ xs) (n ∷ ns))))
          builder
          (pending s.cur_scanned_count (x ∷ xs) (n ∷ ns))
  resume-Reads e builder s x xs n ns p used t =
      rw (resume_lem e builder s n ns t.at_row)
        (next_loop-Reads e p (next_batch_fuel I s) 0 builder s x xs n ns used t enough)
    where
      fuel : next_batch_fuel I s ≡ s.row_count + s.rle_row_count + 1
      fuel = next_batch_fuel_lem s

      enough :
          length (pending s.cur_scanned_count (x ∷ xs) (n ∷ ns)) + length ns < next_batch_fuel I s
      enough = omega (arith, fuel, t.total, t.inside)

  start-Tracks :
      (s : RleBlockIterator I.State A) (x : Option A) (xs : List (Option A)) (counts : List ℕ)
      (inner : I.State)
      → Tracks I L s (x ∷ xs) counts
      → L.Holds inner xs
      → Tracks I L
          (record s { never_used = false; block_iter = inner; cur_element = x })
          (x ∷ xs)
          counts
  start-Tracks s x xs counts inner t holds = record {
    runs = t.runs;
    at_row = t.at_row;
    inside = t.inside;
    aligned = t.aligned;
    inner = holds;
    current = refl;
    scanned = t.scanned;
    total = t.total;
  }

  -- `next_batch` appends the next rows to the array builder, as many as are asked for or as there
  -- are, returns their number, and leaves the rows after them to read.
  pub next_batch-Reads :
      (e : Option ℕ) (builder : List (Option A)) (s : RleBlockIterator I.State A)
      (heads : List (Option A)) (counts : List ℕ)
      → IsSize e
      → Tracks I L s heads counts
      → Reads I L
          (next_batch I e builder s)
          0
          (quota e 0 (length (pending s.cur_scanned_count heads counts)))
          builder
          (pending s.cur_scanned_count heads counts)
  unfolding next_batch
  next_batch-Reads e builder s [] [] p t =
      let over : leb s.rle_row_count s.cur_row ≡ true = ground (arith, t.inside) in
      rw (over, quota-zero e 0) (Reads-none I L 0 builder [] [] [] s t refl)
  next_batch-Reads e builder s [] (n ∷ ns) p t = absurd (omega (arith, t.aligned))
  next_batch-Reads e builder s (x ∷ xs) [] p t = absurd (omega (arith, t.aligned))
  next_batch-Reads e builder s (x ∷ xs) (n ∷ ns) p t =
      let left : leb s.rle_row_count s.cur_row ≡ false = ground (arith, t.inside) in
      elim (Bool-cases s.never_used) [
        | inl unused ↦
            let (inner, found, holds) =
              get_next_element-cons I L s.block_iter x xs (rw unused at t.inner) in
            rw (left, unused, found)
              (resume-Reads e builder
                (record s { never_used = false; block_iter = inner; cur_element = x }) x xs n ns p
                refl (start-Tracks s x xs (n ∷ ns) inner t holds))
        | inr used ↦ simp (left, used) (resume-Reads e builder s x xs n ns p used t)
      ]
