-- ===== src/Block/Rle/Builder/Runs.antt =====
-- The runs that `RleBlockBuilder` builds from the items that are appended.
use native.Mathlib.Numerals.{add-one}
use risinglight.Prelude.{
  PartialEq, ℕ, ◌+◌, ◌-◌, ◌≤◌, ◌<◌, ◌≡◌, ◌≢◌, refl, sym, ap, ◌∙◌, ◌⊎◌, inl, inr, true, false, not,
  ◌||◌, Bool-cases, Option, none, some, List, [], ◌∷◌, ◌++◌, append_assoc, append-nil, arith, All,
  All-append, ◌==◌, length, length-append, replicate, replicate-snoc, unroll, unroll-snoc,
}
use risinglight.Block.Interface.{BlockBuilder}
use risinglight.Block.Varint.{u32_mod}
use risinglight.Block.Rle.Builder.{same_item, RleBlockBuilder, new, append, append_all}

abbrev pub IsCount : ℕ → Type 0
IsCount n = (1 ≤ n) × (n < u32_mod)

-- The items given to a builder one after the other.
unfoldable pub append_inner :
    {A : Type 0} (B : BlockBuilder A) → List (Option A) → B.State → B.State
append_inner B [] b = b
append_inner B (item ∷ items) b = append_inner B items (B.append item b)

append_inner-snoc :
    {A : Type 0} (B : BlockBuilder A) (items : List (Option A)) (item : Option A) (b : B.State)
    → append_inner B (items ++ item ∷ []) b ≡ B.append item (append_inner B items b)
unfolding append_inner
append_inner-snoc B [] item b = refl
append_inner-snoc B (i ∷ items) item b = append_inner-snoc B items item (B.append i b)

same_item_lem : {A : Type 0} (p : PartialEq A) (x y : Option A) → same_item p x y ≡ true → x ≡ y
unfolding same_item
same_item_lem p none none h = refl
same_item_lem p none (some b) h = cc
same_item_lem p (some a) none h = cc
same_item_lem p (some a) (some b) h = ap some ((p.eq_iff a b).0 h)

same_item_refl : {A : Type 0} (p : PartialEq A) (x : Option A) → same_item p x x ≡ true
unfolding same_item
same_item_refl p none = refl
same_item_refl p (some a) = (p.eq_iff a a).1 refl

-- A run ends only where the next item differs, or where its counter is full.
abbrev pub Breaks : {A : Type 0} → Option A → ℕ → Option A → Type 0
Breaks x n y = (x ≢ y) ⊎ (n ≡ u32_mod - 1)

abbrev pub Separated : {A : Type 0} → List (Option A) → List ℕ → Option A → Type 0
Separated (x ∷ []) (n ∷ ns) next = Breaks x n next
Separated (x ∷ y ∷ xs) (n ∷ ns) next = Breaks x n y × Separated (y ∷ xs) ns next
Separated xs ns next = Unit

Separated-snoc :
    {A : Type 0} (xs : List (Option A)) (ns : List ℕ) (x : Option A) (n : ℕ) (y : Option A)
    → length xs ≡ length ns
    → Separated xs ns x
    → Breaks x n y
    → Separated (xs ++ x ∷ []) (ns ++ n ∷ []) y
Separated-snoc [] [] x n y e h l = l
Separated-snoc [] (m ∷ ns) x n y e h l = absurd (omega arith)
Separated-snoc (a ∷ []) [] x n y e h l = absurd (omega arith)
Separated-snoc (a ∷ []) (m ∷ []) x n y e h l = (h, l)
Separated-snoc (a ∷ []) (m ∷ k ∷ ns) x n y e h l = absurd (omega arith)
Separated-snoc (a ∷ b ∷ xs) [] x n y e h l = absurd (omega arith)
Separated-snoc (a ∷ b ∷ xs) (m ∷ ns) x n y e h l =
    (h.0, Separated-snoc (b ∷ xs) ns x n y (omega arith) h.1 l)

breaks_lem :
    {A : Type 0} (p : PartialEq A) (item previous : Option A) (n : ℕ)
    → (not (same_item p item previous) || n == u32_mod - 1) ≡ true
    → Breaks previous n item
breaks_lem p item previous n h = elim (Bool-cases (same_item p item previous)) [
  | inl same ↦ inr (ground arith)
  | inr differ ↦ inl (λ e. cc (same_item_refl p item))
]

extends_lem :
    {A : Type 0} (p : PartialEq A) (item previous : Option A) (n : ℕ)
    → (not (same_item p item previous) || n == u32_mod - 1) ≡ false
    → (item ≡ previous) × (n ≢ u32_mod - 1)
extends_lem p item previous n h = (same_item_lem p item previous (ground arith), ground arith)

-- After `items`: the closed runs have the heads `closed`, and the open run repeats the previous
-- value.
pub record Encodes {A : Type 0} (B : BlockBuilder A) (b : B.State) (s : RleBlockBuilder B.State A)
    (items closed : List (Option A)) : Type 0 where
  pub inner : s.block_builder ≡ append_inner B (closed ++ s.previous_value ∷ []) b
  pub aligned : length closed ≡ length s.rle_counts
  pub rows : items ≡ unroll closed s.rle_counts ++ replicate s.cur_count s.previous_value
  pub open_run : IsCount s.cur_count
  pub closed_runs : All IsCount s.rle_counts
  pub maximal : Separated closed s.rle_counts s.previous_value

module _ {A : Type 0} (p : PartialEq A) (B : BlockBuilder A) (b : B.State) where
  first_append : (item : Option A) → Encodes B b (append p B item (new p B b)) (item ∷ []) []
  unfolding append new append_inner
  first_append item = record {
    inner = refl;
    aligned = refl;
    rows = refl;
    open_run = omega arith;
    closed_runs = tt;
    maximal = tt;
  }

  module _ (s : RleBlockBuilder B.State A) (items closed : List (Option A)) (item : Option A)
      (e : Encodes B b s items closed) where
    close_run :
        Breaks s.previous_value s.cur_count item
        → Encodes B b
            (record s {
              previous_value = item;
              block_builder = B.append item s.block_builder;
              rle_counts = s.rle_counts ++ s.cur_count ∷ [];
              cur_count = 1;
            })
            (items ++ item ∷ [])
            (closed ++ s.previous_value ∷ [])
    close_run breaks = record {
      inner = rw (append_inner-snoc, e.inner);
      aligned = omega (
        arith,
        length-append closed (s.previous_value ∷ []),
        length-append s.rle_counts (s.cur_count ∷ []),
        e.aligned,
      );
      rows =
          ap (λ (l : List (Option A)). l ++ item ∷ [])
            (e.rows ∙ sym (unroll-snoc closed s.rle_counts s.previous_value s.cur_count e.aligned));
      open_run = omega arith;
      closed_runs = All-append IsCount s.rle_counts _ e.closed_runs (e.open_run, tt);
      maximal = Separated-snoc closed s.rle_counts _ _ item e.aligned e.maximal breaks;
    }

    extend_run :
        item ≡ s.previous_value
        → s.cur_count ≢ u32_mod - 1
        → Encodes B b (record s { cur_count = s.cur_count + 1 }) (items ++ item ∷ []) closed
    extend_run same room = record {
      inner = e.inner;
      aligned = e.aligned;
      rows = rw (e.rows, same, append_assoc, replicate-snoc, add-one);
      open_run = omega (arith, e.open_run);
      closed_runs = e.closed_runs;
      maximal = e.maximal;
    }

    -- Appending an item either closes the open run or extends it.
    append-Encodes :
        (closed' : List (Option A)) × Encodes B b (append p B item s) (items ++ item ∷ []) closed'
    unfolding append
    append-Encodes =
        elim (Bool-cases (not (same_item p item s.previous_value) || s.cur_count == u32_mod - 1)) [
          | inl breaks ↦
              rw (started, breaks)
                (
                  closed ++ s.previous_value ∷ [],
                  close_run (breaks_lem p item s.previous_value s.cur_count breaks),
                )
          | inr extends ↦
              rw (started, extends)
                (
                  closed,
                  let (same, room) = extends_lem p item s.previous_value s.cur_count extends in
                      extend_run same room,
                )
        ]
      where
        started : (s.cur_count == 0) ≡ false
        started = ground (arith, e.open_run)

  append_all-from :
      (s : RleBlockBuilder B.State A) (before items closed : List (Option A))
      → Encodes B b s before closed
      → (closed' : List (Option A)) × Encodes B b (append_all p B items s) (before ++ items) closed'
  unfolding append_all
  append_all-from s before [] closed e = (closed, rw append-nil e)
  append_all-from s before (item ∷ items) closed e =
      let (closed', e') = append-Encodes s before closed item e in
      let (final, e'') =
        append_all-from (append p B item s) (before ++ item ∷ []) items closed' e' in
      (final, rw append_assoc at e'')

  -- Whatever items are appended to a fresh builder, if there is one: the run counts and the items
  -- that the inner builder was given, unrolled, are those items in their order; every count is
  -- positive and below 2 ^ 32; and a run ends only where the next item differs or its count is the
  -- largest `u32`.
  pub append_all-Encodes :
      (item : Option A) (items : List (Option A))
      → (closed : List (Option A)) × Encodes B b
          (append_all p B (item ∷ items) (new p B b))
          (item ∷ items)
          closed
  unfolding append_all
  append_all-Encodes item items = append_all-from _ (item ∷ []) items [] (first_append item)
