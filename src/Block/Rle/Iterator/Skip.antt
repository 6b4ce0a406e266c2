-- ===== src/Block/Rle/Iterator/Skip.antt =====
-- `skip` passes over rows, and moves the inner iterator by whole runs.
use risinglight.Prelude.{
  ℕ, zero, suc, ◌+◌, ◌-◌, ◌≤◌, ◌≡◌, refl, sym, ap, subst, ◌∙◌, inl, inr, Bool-cases, Option, none,
  some, List, [], ◌∷◌, arith, Result, Never, ok, length, drop, ◌>>=◌, drop_step, List-cases, lt→ltb,
}
use risinglight.Block.Interface.{BlockIterator, IsBlockIterator}
use risinglight.Block.Rle.Iterator.{RleBlockIterator, get_next_element, skip_loop, skip}
use risinglight.Block.Rle.Iterator.View.{
  pending, ahead, IsCurrent, Tracks, get_next_element-cons, get_next_element-nil,
}
use risinglight.Block.Rle.Iterator.Pass.{Counted, Passes, skip_loop-Passes}

module _ {A : Type 0} (I : BlockIterator A) (L : IsBlockIterator I) where
  Tracks-Counted :
      (s : RleBlockIterator I.State A) (heads : List (Option A)) (counts : List ℕ)
      → Tracks I L s heads counts
      → Counted s heads counts
  Tracks-Counted s heads counts t = record {
    runs = t.runs;
    at_row = t.at_row;
    inside = t.inside;
    aligned = t.aligned;
    scanned = t.scanned;
    total = t.total;
  }

  -- After the loop: the inner iterator follows the runs that were passed.
  pub record Skipped (r : Result Never (RleBlockIterator I.State A)) (rows : List (Option A))
      : Type 0 where
    pub after : RleBlockIterator I.State A
    pub heads : List (Option A)
    pub counts : List ℕ
    pub outcome : r ≡ ok after
    pub tracks : Tracks I L after heads counts
    pub rest : pending after.cur_scanned_count heads counts ≡ rows

  module _ (s : RleBlockIterator I.State A) (heads : List (Option A)) (counts : List ℕ)
      (c : Counted s heads counts) where
    follow :
        (inner : I.State) (e : Option A)
        → L.Holds inner (ahead s.never_used heads)
        → IsCurrent s.never_used e heads
        → Tracks I L (record s { block_iter = inner; cur_element = e }) heads counts
    follow inner e holds current = record {
      runs = c.runs;
      at_row = c.at_row;
      inside = c.inside;
      aligned = c.aligned;
      inner = holds;
      current = current;
      scanned = c.scanned;
      total = c.total;
    }

  -- The end of `skip` once `d + 1` runs are passed.
  catch_up : (d : ℕ) (s : RleBlockIterator I.State A) → Result Never (RleBlockIterator I.State A)
  catch_up d s = do
    inner ← I.skip d s.block_iter
    (found, inner') ← get_next_element I inner
    elim found [
      | none ↦ ok (record s { block_iter = inner' })
      | some element ↦ ok (record s { block_iter = inner'; cur_element = element })
    ]

  skip-catch_up :
      (cnt d : ℕ) (s s1 : RleBlockIterator I.State A)
      → skip_loop I (s.rle_row_count + 1) cnt 0 s ≡ ok (suc d, s1)
      → skip I cnt s ≡ catch_up d s1
  unfolding skip catch_up
  skip-catch_up cnt d s s1 e =
      let pred : suc d - 1 ≡ d = omega arith in rw (e, lt→ltb 0 (suc d) (omega arith), pred)

  skip_none :
      (cnt : ℕ) (s s1 : RleBlockIterator I.State A)
      → skip_loop I (s.rle_row_count + 1) cnt 0 s ≡ ok (0, s1)
      → skip I cnt s ≡ ok s1
  unfolding skip
  skip_none cnt s s1 e = rw e

  catch_up-Skipped :
      (d : ℕ) (s : RleBlockIterator I.State A) (heads : List (Option A)) (counts : List ℕ)
      → Counted s (drop (suc d) heads) counts
      → suc d ≤ length heads
      → L.Holds s.block_iter (ahead s.never_used heads)
      → Skipped (catch_up d s) (pending s.cur_scanned_count (drop (suc d) heads) counts)
  unfolding catch_up
  catch_up-Skipped d s [] counts c few holds = absurd (omega arith)
  catch_up-Skipped d s (x ∷ xs) counts c few holds = elim (Bool-cases s.never_used) [
    | inl unused ↦
        let (z, one) = drop_step d (x ∷ xs) few in
        let (inner, skipped, at) =
          L.skip_rows d s.block_iter (x ∷ xs) (omega arith) (rw unused at holds) in
        let (inner', found, at') = get_next_element-cons I L inner z (drop d xs) (rw one at at) in
        rw (skipped, found)
          (record {
            after = record s { block_iter = inner'; cur_element = z };
            heads = drop d xs;
            counts = counts;
            outcome = refl;
            tracks = follow s (drop d xs) counts c inner' z (rw unused at') (rw unused tt);
            rest = refl;
          })
    | inr used ↦
        let (inner, skipped, at) = L.skip_rows d s.block_iter xs (omega arith) (rw used at holds) in
        rw skipped (elim (List-cases (drop d xs)) [
          | inl over ↦
              let (inner', found, at') = get_next_element-nil I L inner (rw over at at) in
              rw found (record {
                after = record s { block_iter = inner' };
                heads = drop d xs;
                counts = counts;
                outcome = refl;
                tracks =
                    follow s (drop d xs) counts c inner' s.cur_element (rw (used, over) at')
                      (rw (used, over) tt);
                rest = refl;
              })
          | inr (y, ys, more) ↦
              let (inner', found, at') = get_next_element-cons I L inner y ys (rw more at at) in
              rw found (record {
                after = record s { block_iter = inner'; cur_element = y };
                heads = drop d xs;
                counts = counts;
                outcome = refl;
                tracks =
                    follow s (drop d xs) counts c inner' y (rw (used, more) at')
                      (rw (used, more) refl);
                rest = refl;
              })
        ])
  ]

  finish :
      (cnt : ℕ) (s : RleBlockIterator I.State A) (heads rows : List (Option A)) {counts : List ℕ}
      → Tracks I L s heads counts
      → (p : Passes (skip_loop I (s.rle_row_count + 1) cnt 0 s) s 0 cnt heads rows) → (d : ℕ)
      → p.passed ≡ d
      → Skipped (skip I cnt s) (drop cnt rows)
  finish cnt s heads rows t p zero e =
      rw (skip_none cnt s p.after (p.outcome ∙ ap (λ (j : ℕ). ok (j, p.after)) (omega (arith, e))))
        (record {
          after = p.after;
          heads = heads;
          counts = p.counts;
          outcome = refl;
          tracks =
              follow p.after heads p.counts
                (subst (λ j. Counted p.after (drop j heads) p.counts) e p.counted)
                p.after.block_iter p.after.cur_element (rw (p.same_inner, p.same_use) t.inner)
                (rw (p.same_element, p.same_use) t.current);
          rest =
              subst (λ j. pending p.after.cur_scanned_count (drop j heads) p.counts ≡ drop cnt rows)
                e p.rest;
        })
  finish cnt s heads rows t p (suc d) e =
      rw
        (
          skip-catch_up cnt d s p.after
              (p.outcome ∙ ap (λ (j : ℕ). ok (j, p.after)) (omega (arith, e))),
          sym (
              subst (λ j. pending p.after.cur_scanned_count (drop j heads) p.counts ≡ drop cnt rows)
                e p.rest),
        )
        (catch_up-Skipped d p.after heads p.counts
          (subst (λ j. Counted p.after (drop j heads) p.counts) e p.counted)
          (omega (arith, p.few, e)) (rw (p.same_inner, p.same_use) t.inner))

  -- `skip` passes over as many rows as asked for, if there are that many, and leaves the rows
  -- after them to read; it neither panics nor runs out of bounds.
  pub skip-Skipped :
      (cnt : ℕ) (s : RleBlockIterator I.State A) (heads : List (Option A)) (counts : List ℕ)
      → Tracks I L s heads counts
      → cnt ≤ length (pending s.cur_scanned_count heads counts)
      → Skipped (skip I cnt s) (drop cnt (pending s.cur_scanned_count heads counts))
  skip-Skipped cnt s heads counts t enough =
      finish cnt s heads _ t
        (skip_loop-Passes I (s.rle_row_count + 1) cnt 0 s heads counts
          (Tracks-Counted s heads counts t) enough (omega (arith, t.inside)))
        _ refl
