-- ===== src/Block/Rle/Iterator/Read.antt =====
-- The steps of `next_batch`: what one round reads.
use native.Mathlib.Nat.{add-zero}
use risinglight.Prelude.{
  ℕ, suc, ◌+◌, ◌-◌, ◌≤◌, ◌<◌, min, ◌≡◌, refl, ap, ◌∙◌, ◌⊎◌, inr, true, false, Option, none, some,
  List, [], ◌∷◌, ◌++◌, append-nil, append_assoc, arith, Result, Never, ok, length, drop, take,
  get_elem?, drop-suc, ltb, leb,
}
use risinglight.Block.Interface.{BlockIterator, IsBlockIterator}
use risinglight.Block.Rle.Iterator.{
  RleBlockIterator, get_next_element, get_cur_rle_count, next_loop, is_full,
}
use risinglight.Block.Rle.Iterator.View.{pending, pending-zero, pending-suc, pending_done, Tracks}

-- How many rows are still wanted of `n`, after `cnt`.
abbrev pub quota : Option ℕ → ℕ → ℕ → ℕ
quota none cnt n = n
quota (some e) cnt n = min (e - cnt) n

abbrev pub IsSize : Option ℕ → Type 0
IsSize none = Unit
IsSize (some e) = 0 < e

pub is_full-cases :
    (e : Option ℕ) (cnt n : ℕ)
    → IsSize e
    → ((is_full e cnt ≡ ok true) × (quota e cnt n ≡ 0)) ⊎ (is_full e cnt ≡ ok false)
unfolding is_full
is_full-cases none cnt n p = inr refl
is_full-cases (some e) cnt n p = ground arith

pub quota-suc :
    (e : Option ℕ) (cnt n : ℕ)
    → IsSize e
    → is_full e cnt ≡ ok false
    → quota e cnt (suc n) ≡ suc (quota e (cnt + 1) n)
unfolding is_full
quota-suc none cnt n p h = refl
quota-suc (some e) cnt n p h = ground arith

pub quota-zero : (e : Option ℕ) (cnt : ℕ) → quota e cnt 0 ≡ 0
quota-zero none cnt = refl
quota-zero (some e) cnt = omega arith

module _ {A : Type 0} (I : BlockIterator A) (L : IsBlockIterator I) where
  -- The outcome of reading `m` of the rows, after `cnt` rows.
  pub record Reads (r : Result Never (ℕ × List (Option A) × RleBlockIterator I.State A)) (cnt m : ℕ)
      (builder rows : List (Option A)) : Type 0 where
    pub after : RleBlockIterator I.State A
    pub heads : List (Option A)
    pub counts : List ℕ
    pub outcome : r ≡ ok (cnt + m, builder ++ take m rows, after)
    pub tracks : Tracks I L after heads counts
    pub rest : pending after.cur_scanned_count heads counts ≡ drop m rows

  module _ (s : RleBlockIterator I.State A) (used : s.never_used ≡ false) where
    pub push-Tracks :
        (x : Option A) (xs : List (Option A)) (n : ℕ) (ns : List ℕ)
        → Tracks I L s (x ∷ xs) (n ∷ ns)
        → s.cur_scanned_count < n
        → Tracks I L
            (record s {
              cur_scanned_count = s.cur_scanned_count + 1;
              row_scanned_count = s.row_scanned_count + 1;
            })
            (x ∷ xs)
            (n ∷ ns)
    push-Tracks x xs n ns t h = record {
      runs = t.runs;
      at_row = t.at_row;
      inside = t.inside;
      aligned = t.aligned;
      inner = t.inner;
      current = t.current;
      scanned = omega arith;
      total = omega (arith, t.total, ap length (pending-suc s.cur_scanned_count x xs n ns h));
    }

    pub end-Tracks :
        (x : Option A) (n : ℕ)
        → Tracks I L s (x ∷ []) (n ∷ [])
        → n ≤ s.cur_scanned_count
        → Tracks I L (record s { cur_row = s.cur_row + 1; cur_scanned_count = 0 }) [] []
    end-Tracks x n t h = record {
      runs = t.runs;
      at_row = drop-suc s.cur_row s.rle_block n [] t.at_row;
      inside = omega (arith, t.inside);
      aligned = refl;
      inner = rw used (rw used at t.inner);
      current = rw used tt;
      scanned = tt;
      total = omega (arith, t.total, ap length (pending_done s.cur_scanned_count x [] n [] h));
    }

    pub next-Tracks :
        (x y : Option A) (ys : List (Option A)) (n m : ℕ) (ms : List ℕ) (inner : I.State)
        → Tracks I L s (x ∷ y ∷ ys) (n ∷ m ∷ ms)
        → n ≤ s.cur_scanned_count
        → L.Holds inner ys
        → Tracks I L
            (record s {
              cur_row = s.cur_row + 1;
              cur_scanned_count = 0;
              block_iter = inner;
              cur_element = y;
            })
            (y ∷ ys)
            (m ∷ ms)
    next-Tracks x y ys n m ms inner t h holds = record {
      runs = t.runs;
      at_row = drop-suc s.cur_row s.rle_block n (m ∷ ms) t.at_row;
      inside = omega (arith, t.inside);
      aligned = omega (arith, t.aligned);
      inner = rw used holds;
      current = rw used refl;
      scanned = omega arith;
      total = omega (
        arith,
        t.total,
        ap length (pending_done s.cur_scanned_count x (y ∷ ys) n (m ∷ ms) h),
        ap length (pending-zero (y ∷ ys) (m ∷ ms)),
      );
    }

  pub Reads-none :
      (cnt : ℕ) (builder rows heads : List (Option A)) (counts : List ℕ)
      (s : RleBlockIterator I.State A)
      → Tracks I L s heads counts
      → pending s.cur_scanned_count heads counts ≡ rows
      → Reads (ok (cnt, builder, s)) cnt 0 builder rows
  Reads-none cnt builder rows heads counts s t e = record {
    after = s;
    heads = heads;
    counts = counts;
    outcome = rw (add-zero, append-nil);
    tracks = t;
    rest = e;
  }

  pub Reads-push :
      (r : Result Never (ℕ × List (Option A) × RleBlockIterator I.State A)) (cnt m : ℕ)
      (builder : List (Option A)) (x : Option A) (rows : List (Option A))
      → Reads r (cnt + 1) m (builder ++ x ∷ []) rows
      → Reads r cnt (suc m) builder (x ∷ rows)
  Reads-push r cnt m builder x rows h = record {
    after = h.after;
    heads = h.heads;
    counts = h.counts;
    outcome = let e : cnt + suc m ≡ cnt + 1 + m = omega arith in h.outcome ∙ rw (e, append_assoc);
    tracks = h.tracks;
    rest = h.rest;
  }

  pub next_loop-full :
      (fuel : ℕ) (e : Option ℕ) (cnt cur : ℕ) (builder : List (Option A))
      (s : RleBlockIterator I.State A)
      → is_full e cnt ≡ ok true
      → next_loop I (suc fuel) e cnt cur builder s ≡ ok (cnt, builder, s)
  unfolding next_loop
  next_loop-full fuel e cnt cur builder s full = rw full

  module _ (fuel : ℕ) (e : Option ℕ) (cnt cur : ℕ) (builder : List (Option A))
      (s : RleBlockIterator I.State A) (more : is_full e cnt ≡ ok false) where
    pub next_loop-push :
        ltb s.cur_scanned_count cur ≡ true
        → next_loop I (suc fuel) e cnt cur builder s
          ≡ next_loop I fuel e (cnt + 1) cur (builder ++ s.cur_element ∷ []) (record s {
            cur_scanned_count = s.cur_scanned_count + 1;
            row_scanned_count = s.row_scanned_count + 1;
          })
    unfolding next_loop
    next_loop-push inside = rw (more, inside)

    pub next_loop-end :
        ltb s.cur_scanned_count cur ≡ false
        → leb s.rle_row_count (s.cur_row + 1) ≡ true
        → next_loop I (suc fuel) e cnt cur builder s
          ≡ ok (cnt, builder, record s { cur_row = s.cur_row + 1; cur_scanned_count = 0 })
    unfolding next_loop
    next_loop-end done last = rw (more, done, last)

    pub next_loop-next :
        (y : Option A) (inner : I.State) (m : ℕ)
        → ltb s.cur_scanned_count cur ≡ false
        → leb s.rle_row_count (s.cur_row + 1) ≡ false
        → get_next_element I s.block_iter ≡ ok (some y, inner)
        → get_elem? s.rle_block (s.cur_row + 1) ≡ some m
        → next_loop I (suc fuel) e cnt cur builder s
          ≡ next_loop I fuel e cnt m builder (record s {
            cur_row = s.cur_row + 1;
            cur_scanned_count = 0;
            block_iter = inner;
            cur_element = y;
          })
    unfolding next_loop get_cur_rle_count
    next_loop-next y inner m done left found count = rw (more, done, left, found, count)
