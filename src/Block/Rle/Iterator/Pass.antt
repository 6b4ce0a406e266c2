-- ===== src/Block/Rle/Iterator/Pass.antt =====
-- `skip_loop` passes over whole runs and stops inside one.
use native.Mathlib.Nat.{add-zero}
use risinglight.Prelude.{
  ℕ, zero, suc, ◌+◌, ◌-◌, ◌≤◌, ◌<◌, ◌≡◌, refl, sym, ap, ◌∙◌, Option, some, List, [], ◌∷◌, arith,
  Result, Never, ok, length, drop, get_elem?, replicate, unroll, drop-suc, length-drop,
  length-append, length-replicate, drop-replicate-append, drop_past-replicate, get_elem?-drop,
  dec_lt,
}
use risinglight.Block.Interface.{BlockIterator}
use risinglight.Block.Rle.Iterator.{RleBlockIterator, get_cur_rle_count, skip_loop}
use risinglight.Block.Rle.Iterator.View.{pending, pending-zero, InRun}

InRun-zero : (ns : List ℕ) → InRun 0 ns
InRun-zero [] = tt
InRun-zero (n ∷ ns) = omega arith

length-run :
    {X : Type 0} (k : ℕ) (x : X) (xs : List X) (n : ℕ) (ns : List ℕ)
    → length (pending k (x ∷ xs) (n ∷ ns)) ≡ n - k + length (unroll xs ns)
length-run k x xs n ns =
    omega (arith, length-append (replicate (n - k) x) (unroll xs ns), length-replicate (n - k) x)

module _ {S A : Type 0} where
  -- The part of the invariant that is about the counters.
  pub record Counted (s : RleBlockIterator S A) (heads : List (Option A)) (counts : List ℕ)
      : Type 0 where
    pub runs : s.rle_row_count ≡ length s.rle_block
    pub at_row : drop s.cur_row s.rle_block ≡ counts
    pub inside : s.cur_row + length counts ≡ s.rle_row_count
    pub aligned : length heads ≡ length counts
    pub scanned : InRun s.cur_scanned_count counts
    pub total :
        s.row_count ≡ s.row_scanned_count + length (pending s.cur_scanned_count heads counts)

  -- The loop ended with `d` runs passed; the inner iterator is where it was.
  pub record Passes (r : Result Never (ℕ × RleBlockIterator S A)) (s : RleBlockIterator S A)
      (k cnt : ℕ) (heads : List (Option A)) (rows : List (Option A)) : Type 0 where
    pub after : RleBlockIterator S A
    pub passed : ℕ
    pub counts : List ℕ
    pub outcome : r ≡ ok (k + passed, after)
    pub few : passed ≤ length heads
    pub counted : Counted after (drop passed heads) counts
    pub rest : pending after.cur_scanned_count (drop passed heads) counts ≡ drop cnt rows
    pub same_inner : after.block_iter ≡ s.block_iter
    pub same_use : after.never_used ≡ s.never_used
    pub same_element : after.cur_element ≡ s.cur_element

  module _ (s : RleBlockIterator S A) (x : Option A) (xs : List (Option A)) (n : ℕ) (ns : List ℕ)
      (t : Counted s (x ∷ xs) (n ∷ ns)) where
    within_run :
        (cnt : ℕ)
        → cnt < n - s.cur_scanned_count
        → Counted
            (record s {
              cur_scanned_count = s.cur_scanned_count + cnt;
              row_scanned_count = s.row_scanned_count + cnt;
            })
            (x ∷ xs)
            (n ∷ ns)
          × (pending (s.cur_scanned_count + cnt) (x ∷ xs) (n ∷ ns)
              ≡ drop cnt (pending s.cur_scanned_count (x ∷ xs) (n ∷ ns)))
    within_run cnt h = (
      record {
        runs = t.runs;
        at_row = t.at_row;
        inside = t.inside;
        aligned = t.aligned;
        scanned = omega arith;
        total = omega (
          arith,
          t.total,
          sizes,
          ap length rows,
          length-drop cnt (pending s.cur_scanned_count (x ∷ xs) (n ∷ ns)),
        );
      },
      rows,
    )
      where
        sizes :
            length (pending s.cur_scanned_count (x ∷ xs) (n ∷ ns))
            ≡ n - s.cur_scanned_count + length (unroll xs ns)
        sizes = length-run s.cur_scanned_count x xs n ns

        rows :
            pending (s.cur_scanned_count + cnt) (x ∷ xs) (n ∷ ns)
            ≡ drop cnt (pending s.cur_scanned_count (x ∷ xs) (n ∷ ns))
        rows =
            let e : n - (s.cur_scanned_count + cnt) ≡ n - s.cur_scanned_count - cnt = omega arith in
            rw e (
              sym (
                drop-replicate-append cnt (n - s.cur_scanned_count) x (unroll xs ns) (omega arith)))

    past_run :
        Counted
          (record s {
            row_scanned_count = s.row_scanned_count + (n - s.cur_scanned_count);
            cur_scanned_count = 0;
            cur_row = s.cur_row + 1;
          })
          xs
          ns
    past_run = record {
      runs = t.runs;
      at_row = drop-suc s.cur_row s.rle_block n ns t.at_row;
      inside = omega (arith, t.inside);
      aligned = omega (arith, t.aligned);
      scanned = InRun-zero ns;
      total = omega (
        arith,
        t.total,
        length-run s.cur_scanned_count x xs n ns,
        ap length (pending-zero xs ns),
      );
    }

module _ {A : Type 0} (I : BlockIterator A) where
  skip_loop_done :
      (fuel k : ℕ) (s : RleBlockIterator I.State A) → skip_loop I (suc fuel) 0 k s ≡ ok (k, s)
  unfolding skip_loop
  skip_loop_done fuel k s = refl

  module _ (fuel c k : ℕ) (s : RleBlockIterator I.State A) (n : ℕ)
      (count : get_elem? s.rle_block s.cur_row ≡ some n) (scanned : s.cur_scanned_count ≤ n) where
    skip_loop-within :
        suc c < n - s.cur_scanned_count
        → skip_loop I (suc fuel) (suc c) k s
          ≡ ok (
            k,
            record s {
              cur_scanned_count = s.cur_scanned_count + suc c;
              row_scanned_count = s.row_scanned_count + suc c;
            },
          )
    unfolding skip_loop get_cur_rle_count
    skip_loop-within h = ground arith

    skip_loop-end :
        n - s.cur_scanned_count ≤ suc c
        → s.rle_row_count ≤ s.cur_row + 1
        → skip_loop I (suc fuel) (suc c) k s
          ≡ ok (
            k + 1,
            record s {
              row_scanned_count = s.row_scanned_count + (n - s.cur_scanned_count);
              cur_scanned_count = 0;
              cur_row = s.cur_row + 1;
            },
          )
    unfolding skip_loop get_cur_rle_count
    skip_loop-end h last = ground arith

    skip_loop-next :
        n - s.cur_scanned_count ≤ suc c
        → s.cur_row + 1 < s.rle_row_count
        → skip_loop I (suc fuel) (suc c) k s
          ≡ skip_loop I fuel (suc c - (n - s.cur_scanned_count)) (k + 1) (record s {
            row_scanned_count = s.row_scanned_count + (n - s.cur_scanned_count);
            cur_scanned_count = 0;
            cur_row = s.cur_row + 1;
          })
    unfolding skip_loop get_cur_rle_count
    skip_loop-next h left = ground arith

  -- The loop goes on behind a run.
  pass_run :
      (s : RleBlockIterator I.State A) (x : Option A) (xs : List (Option A)) (n : ℕ) (ns : List ℕ)
      (k cnt : ℕ)
      → n - s.cur_scanned_count ≤ cnt
      → {r : Result Never (ℕ × RleBlockIterator I.State A)}
      → Passes r
          (record s {
            row_scanned_count = s.row_scanned_count + (n - s.cur_scanned_count);
            cur_scanned_count = 0;
            cur_row = s.cur_row + 1;
          })
          (k + 1)
          (cnt - (n - s.cur_scanned_count))
          xs
          (pending 0 xs ns)
      → Passes r s k cnt (x ∷ xs) (pending s.cur_scanned_count (x ∷ xs) (n ∷ ns))
  pass_run s x xs n ns k cnt past p = record {
    after = p.after;
    passed = suc p.passed;
    counts = p.counts;
    outcome = let e : k + suc p.passed ≡ k + 1 + p.passed = omega arith in rw e p.outcome;
    few = omega (arith, p.few);
    counted = p.counted;
    rest =
        p.rest
        ∙ ap (drop (cnt - (n - s.cur_scanned_count))) (pending-zero xs ns)
        ∙ sym (drop_past-replicate cnt (n - s.cur_scanned_count) x (unroll xs ns) past);
    same_inner = p.same_inner;
    same_use = p.same_use;
    same_element = p.same_element;
  }

  -- The block ends with a run.
  pass_end :
      (s : RleBlockIterator I.State A) (k : ℕ)
      → Counted s [] []
      → Passes (ok (k, s)) s k 0 [] (pending s.cur_scanned_count [] [])
  pass_end s k t = record {
    after = s;
    passed = 0;
    counts = [];
    outcome = rw add-zero;
    few = omega arith;
    counted = t;
    rest = refl;
    same_inner = refl;
    same_use = refl;
    same_element = refl;
  }

  last_run :
      (fuel c k : ℕ) (s : RleBlockIterator I.State A) (x : Option A) (xs : List (Option A)) (n : ℕ)
      (ns : List ℕ)
      → Counted s (x ∷ xs) (n ∷ ns)
      → suc c ≤ length (pending s.cur_scanned_count (x ∷ xs) (n ∷ ns))
      → n - s.cur_scanned_count ≤ suc c
      → s.rle_row_count ≤ s.cur_row + 1
      → Passes
          (skip_loop I (suc fuel) (suc c) k s)
          s
          k
          (suc c)
          (x ∷ xs)
          (pending s.cur_scanned_count (x ∷ xs) (n ∷ ns))
  last_run fuel c k s x [] n [] t enough past over =
      let left : suc c - (n - s.cur_scanned_count) ≡ 0 =
        omega (arith, length-run s.cur_scanned_count x [] n []) in
      rw
        (skip_loop-end fuel c k s n (get_elem?-drop s.cur_row s.rle_block n [] t.at_row) t.scanned
          past over)
        (pass_run s x [] n [] k (suc c) past
          (rw left (pass_end _ (k + 1) (past_run s x [] n [] t))))
  last_run fuel c k s x [] n (m ∷ ns) t enough past over = absurd (omega (arith, t.aligned))
  last_run fuel c k s x (y ∷ xs) n ns t enough past over =
      absurd (omega (arith, t.aligned, t.inside))

  pub skip_loop-Passes :
      (fuel cnt k : ℕ) (s : RleBlockIterator I.State A) (heads : List (Option A)) (counts : List ℕ)
      → Counted s heads counts
      → cnt ≤ length (pending s.cur_scanned_count heads counts)
      → length counts < fuel
      → Passes (skip_loop I fuel cnt k s) s k cnt heads (pending s.cur_scanned_count heads counts)
  skip_loop-Passes zero cnt k s heads counts t enough f = absurd (omega arith)
  skip_loop-Passes (suc fuel) zero k s heads counts t enough f = record {
    after = s;
    passed = 0;
    counts = counts;
    outcome = rw (add-zero, skip_loop_done);
    few = omega arith;
    counted = t;
    rest = refl;
    same_inner = refl;
    same_use = refl;
    same_element = refl;
  }
  skip_loop-Passes (suc fuel) (suc c) k s [] counts t enough f = absurd (omega arith)
  skip_loop-Passes (suc fuel) (suc c) k s (x ∷ xs) [] t enough f = absurd (omega arith)
  skip_loop-Passes (suc fuel) (suc c) k s (x ∷ xs) (n ∷ ns) t enough f =
      let count = get_elem?-drop s.cur_row s.rle_block n ns t.at_row in
      elim (dec_lt (suc c) (n - s.cur_scanned_count)) [
        | yes inside ↦
            let (counted, rest) = within_run s x xs n ns t (suc c) inside in
            record {
              after = record s {
                cur_scanned_count = s.cur_scanned_count + suc c;
                row_scanned_count = s.row_scanned_count + suc c;
              };
              passed = 0;
              counts = n ∷ ns;
              outcome = rw (add-zero) (skip_loop-within fuel c k s n count t.scanned inside);
              few = omega arith;
              counted = counted;
              rest = rest;
              same_inner = refl;
              same_use = refl;
              same_element = refl;
            }
        | no past ↦ elim (dec_lt (s.cur_row + 1) s.rle_row_count) [
          | yes more ↦
              let next = record s {
                row_scanned_count = s.row_scanned_count + (n - s.cur_scanned_count);
                cur_scanned_count = 0;
                cur_row = s.cur_row + 1;
              } in
              rw (skip_loop-next fuel c k s n count t.scanned (omega arith) more) (
                pass_run s x xs n ns k (suc c) (omega arith) (
                  skip_loop-Passes fuel (suc c - (n - s.cur_scanned_count)) (k + 1) next xs ns
                    (past_run s x xs n ns t)
                    (omega (
                      arith,
                      length-run s.cur_scanned_count x xs n ns,
                      ap length (pending-zero xs ns),
                    ))
                    (omega arith)))
          | no over ↦ last_run fuel c k s x xs n ns t enough (omega arith) (omega arith)
        ]
      ]
