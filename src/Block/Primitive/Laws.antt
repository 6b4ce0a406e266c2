-- ===== src/Block/Primitive/Laws.antt =====
-- Plain blocks keep the contract of a block iterator, and read back what was appended.
use native.Mathlib.Nat.{add-zero, zero-add}
use risinglight.Prelude.{
  ℕ, zero, suc, ◌+◌, ◌-◌, ◌*◌, ◌≤◌, ◌<◌, min, ◌≡◌, ◌≢◌, ◌↔◌, refl, sym, ap, ◌∙◌, subst, inl, inr,
  true, false, Option, none, some, List, [], ◌∷◌, ◌++◌, append_assoc, append-nil, map, arith, ok,
  leb, length, length-append, length-map, drop, take, flat_map, drop-length-append, length-drop,
  le→leb, dec_lt, take-nil, drop_nil, drop-add, drop-min-length, map-drop, List-cases,
}
use risinglight.Block.Interface.{IsBlockIterator}
use risinglight.Block.Primitive.{
  PrimitiveFixedWidthEncode, IsFixedWidthEncode, PlainPrimitiveBlockBuilder,
  PlainPrimitiveBlockIterator, new_builder, append, finish, should_finish, new_iterator, read_loop,
  next_batch_non_null, skip, remaining_items, iterator_interface,
}

abbrev pub IsSize : Option ℕ → Type 0
IsSize none = Unit
IsSize (some e) = 0 < e

module _ {T : Type 0} (c : PrimitiveFixedWidthEncode T) where
  -- `values` are the rows from `next_row` on.
  pub record Rows (s : PlainPrimitiveBlockIterator) (values : List T) : Type 0 where
    pub in_block : s.next_row * c.width ≤ length s.block
    pub bytes : drop (s.next_row * c.width) s.block ≡ flat_map c.encode values
    pub count : s.next_row + length values ≡ s.row_count

  -- `rows` are values that are all present.
  pub record HoldsRows (s : PlainPrimitiveBlockIterator) (rows : List (Option T)) : Type 0 where
    pub values : List T
    pub here : Rows s values
    pub present : map some values ≡ rows

  -- The values that `append` writes: a missing item becomes the default value.
  abbrev pub written : Option T → T
  written none = c.default_value
  written (some x) = x

  unfoldable pub append_all :
      List (Option T) → PlainPrimitiveBlockBuilder → PlainPrimitiveBlockBuilder
  append_all [] s = s
  append_all (item ∷ items) s = append_all items (append c item s)

module _ {T : Type 0} (c : PrimitiveFixedWidthEncode T) (law : IsFixedWidthEncode c) where
  pub length-flat_map : (xs : List T) → length (flat_map c.encode xs) ≡ length xs * c.width
  length-flat_map [] = omega arith
  length-flat_map (x ∷ xs) = omega (
    arith,
    length-append (c.encode x) (flat_map c.encode xs),
    law.length-encode x,
    length-flat_map xs,
  )

  read_loop_done :
      (e : Option ℕ) (fuel cnt : ℕ) (builder : List (Option T)) (buffer : List ℕ)
      (s : PlainPrimitiveBlockIterator)
      → IsSize e
      → s.row_count ≤ s.next_row
      → read_loop c (suc fuel) e cnt builder buffer s ≡ ok (cnt, builder, s)
  unfolding read_loop
  read_loop_done none fuel cnt builder buffer s p over = ground arith
  read_loop_done (some e) fuel cnt builder buffer s p over = ground arith

  read_loop_full :
      (e fuel cnt : ℕ) (builder : List (Option T)) (buffer : List ℕ)
      (s : PlainPrimitiveBlockIterator)
      → 0 < e
      → e ≤ cnt
      → read_loop c (suc fuel) (some e) cnt builder buffer s ≡ ok (cnt, builder, s)
  unfolding read_loop
  read_loop_full e fuel cnt builder buffer s p full = ground arith

  read_loop-row :
      (e fuel cnt : ℕ) (builder : List (Option T)) (x : T) (values : List T)
      (s : PlainPrimitiveBlockIterator)
      → 0 < e
      → cnt < e
      → s.next_row < s.row_count
      → read_loop c (suc fuel) (some e) cnt builder (flat_map c.encode (x ∷ values)) s
        ≡ read_loop c fuel
            (some e)
            (cnt + 1)
            (builder ++ some x ∷ [])
            (flat_map c.encode values)
            (record s { next_row = s.next_row + 1 })
  unfolding read_loop
  read_loop-row e fuel cnt builder x values s p more left =
      ground (arith, law.decode-encode x (flat_map c.encode values))

  read_loop-some :
      (e fuel cnt : ℕ) (builder : List (Option T)) (values : List T)
      (s : PlainPrimitiveBlockIterator)
      → 0 < e
      → s.next_row + length values ≡ s.row_count
      → length values < fuel
      → read_loop c fuel (some e) cnt builder (flat_map c.encode values) s
        ≡ ok (
          cnt + min (e - cnt) (length values),
          builder ++ take (e - cnt) (map some values),
          record s { next_row = s.next_row + min (e - cnt) (length values) },
        )
  read_loop-some e zero cnt builder values s pos count f = absurd (omega arith)
  read_loop-some e (suc fuel) cnt builder [] s pos count f =
      let least : min (e - cnt) 0 ≡ 0 = omega arith in
      rw (take-nil (e - cnt), least, add-zero, append-nil, add-zero)
        (read_loop_done (some e) fuel cnt builder [] s pos (omega arith))
  read_loop-some e (suc fuel) cnt builder (x ∷ values) s pos count f = elim (dec_lt cnt e) [
    | yes more ↦
        let less : e - cnt ≡ suc (e - (cnt + 1)) = omega arith in
        let m = min (e - (cnt + 1)) (length values) in
        let least : min (suc (e - (cnt + 1))) (suc (length values)) ≡ suc m = omega arith in
        let counted : cnt + 1 + m ≡ cnt + suc m = omega arith in
        let moved : s.next_row + 1 + m ≡ s.next_row + suc m = omega arith in
        rw (read_loop-row e fuel cnt builder x values s pos more (omega arith), less, least)
          (read_loop-some e fuel (cnt + 1) (builder ++ some x ∷ []) values
              (record s { next_row = s.next_row + 1 }) pos (omega arith) (omega arith)
            ∙ rw (append_assoc, counted, moved))
    | no full ↦
        let none_left : e - cnt ≡ 0 = omega arith in
        let least : min 0 (suc (length values)) ≡ 0 = omega arith in
        rw (none_left, least, add-zero, append-nil, add-zero)
          (read_loop_full e fuel cnt builder (flat_map c.encode (x ∷ values)) s pos (omega arith))
  ]

  drop-flat_map :
      (k : ℕ) (values : List T)
      → k ≤ length values
      → drop (k * c.width) (flat_map c.encode values) ≡ flat_map c.encode (drop k values)
  drop-flat_map zero values h = let e : 0 * c.width ≡ 0 = omega arith in rw e
  drop-flat_map (suc k) [] h = absurd (omega arith)
  drop-flat_map (suc k) (x ∷ values) h =
      let e : suc k * c.width ≡ length (c.encode x) + k * c.width =
        omega (arith, law.length-encode x) in
      rw (e, drop-add, drop-length-append) (drop-flat_map k values (omega arith))

  advance :
      (k : ℕ) (s : PlainPrimitiveBlockIterator) (values : List T)
      → Rows c s values
      → k ≤ length values
      → Rows c (record s { next_row = s.next_row + k }) (drop k values)
  advance k s values r h = record {
    in_block =
        let small : k * c.width ≤ length values * c.width = grind arith in
        omega (
          arith,
          r.in_block,
          ap length r.bytes,
          length-drop (s.next_row * c.width) s.block,
          length-flat_map values,
        );
    bytes =
        let e : (s.next_row + k) * c.width ≡ s.next_row * c.width + k * c.width = omega arith in
        rw (e, drop-add, r.bytes) (drop-flat_map k values h);
    count = omega (arith, r.count, length-drop k values);
  }

  pub next_batch_non_null-some :
      (e : ℕ) (s : PlainPrimitiveBlockIterator) (values : List T)
      → 0 < e
      → Rows c s values
      → (s' : PlainPrimitiveBlockIterator) × (next_batch_non_null c (some e) [] s
          ≡ ok (min e (length values), take e (map some values), s'))
        × Rows c s' (drop e values)
  unfolding next_batch_non_null
  next_batch_non_null-some e s [] pos r =
      let over : leb s.row_count s.next_row ≡ true = ground (arith, r.count) in
      let least : min e 0 ≡ 0 = omega arith in (s, rw (over, least, take-nil e), rw (drop_nil e) r)
  next_batch_non_null-some e s (x ∷ values) pos r =
      let left : leb s.row_count s.next_row ≡ false = ground (arith, r.count) in
      let m = min e (suc (length values)) in
      let enough : length (x ∷ values) < s.row_count - s.next_row + 1 = omega (arith, r.count) in
      (
        record s { next_row = s.next_row + m },
        rw (left, le→leb _ _ r.in_block, r.bytes)
            (read_loop-some e (s.row_count - s.next_row + 1) 0 [] (x ∷ values) s pos r.count enough
              ∙ (let all : e - 0 ≡ e = omega arith in rw (all, zero-add))),
        subst (Rows c _) (drop-min-length e (x ∷ values))
            (advance m s (x ∷ values) r (omega arith)),
      )

  skip-Rows :
      (k : ℕ) (s : PlainPrimitiveBlockIterator) (values : List T)
      → k ≤ length values
      → Rows c s values
      → (s' : PlainPrimitiveBlockIterator) × (skip c k s ≡ ok s') × Rows c s' (drop k values)
  unfolding skip
  skip-Rows k s values h r = (record s { next_row = s.next_row + k }, refl, advance k s values r h)

  remaining-Rows :
      (s : PlainPrimitiveBlockIterator) (values : List T)
      → Rows c s values
      → remaining_items c s ≡ ok (length values)
  unfolding remaining_items
  remaining-Rows s values r = ground (arith, r.count)

  -- A batch reads the next rows: as many as are asked for, or all that are left, and the iterator
  -- stays on the rows behind them.
  pub next_batch-HoldsRows :
      (e : ℕ) (s : PlainPrimitiveBlockIterator) (rows : List (Option T))
      → 0 < e
      → HoldsRows c s rows
      → (s' : PlainPrimitiveBlockIterator) × (next_batch_non_null c (some e) [] s
          ≡ ok (min e (length rows), take e rows, s'))
        × HoldsRows c s' (drop e rows)
  next_batch-HoldsRows e s rows pos h = rw (← h.present) (
      let (s', read, r) = next_batch_non_null-some e s h.values pos h.here in
      (
        s',
        rw length-map read,
        record { values = drop e h.values; here = r; present = map-drop some e h.values },
      ))

  -- `skip` within the rows that are left passes over just that many.
  pub skip-HoldsRows :
      (k : ℕ) (s : PlainPrimitiveBlockIterator) (rows : List (Option T))
      → k ≤ length rows
      → HoldsRows c s rows
      → (s' : PlainPrimitiveBlockIterator) × (skip c k s ≡ ok s') × HoldsRows c s' (drop k rows)
  skip-HoldsRows k s rows few h =
      let fits : k ≤ length h.values =
        omega (arith, ap length h.present, length-map h.values some) in
      rw (← h.present) (
        let (s', passed, r) = skip-Rows k s h.values fits h.here in
        (
          s',
          passed,
          record { values = drop k h.values; here = r; present = map-drop some k h.values },
        ))

  pub remaining-HoldsRows :
      (s : PlainPrimitiveBlockIterator) (rows : List (Option T))
      → HoldsRows c s rows
      → remaining_items c s ≡ ok (length rows)
  remaining-HoldsRows s rows h = rw (← h.present, length-map) (remaining-Rows s h.values h.here)

  unfoldable pub plain_contract : IsBlockIterator (iterator_interface c)
  plain_contract = record {
    Holds = HoldsRows c;
    next_some = next_batch-HoldsRows;
    skip_rows = skip-HoldsRows;
    remaining = remaining-HoldsRows;
  }

  append_lem :
      (item : Option T) (s : PlainPrimitiveBlockBuilder)
      → (append c item s).contents ≡ s.contents ++ c.encode ((written c) item)
  unfolding append
  append_lem none s = refl
  append_lem (some x) s = refl

  append_all-contents :
      (items : List (Option T)) (s : PlainPrimitiveBlockBuilder)
      → (append_all c items s).contents ≡ s.contents ++ flat_map c.encode (map (written c) items)
  unfolding append_all
  append_all-contents [] s = sym (append-nil s.contents)
  append_all-contents (item ∷ items) s =
      append_all-contents items (append c item s) ∙ rw (append_lem item s, append_assoc)

  map-some-written :
      (items : List (Option T))
      → map some (map (written c) items) ≡ map (λ o. some ((written c) o)) items
  map-some-written [] = refl
  map-some-written (o ∷ items) = ap (◌∷◌ (some ((written c) o))) (map-some-written items)

  -- An iterator over a finished block holds the items that were appended, a default value for each
  -- missing one.
  pub finish-HoldsRows :
      (items : List (Option T)) (target_size : ℕ)
      → HoldsRows c
          (new_iterator c
            (finish c (append_all c items (new_builder c target_size)))
            (length items))
          (map (λ o. some ((written c) o)) items)
  unfolding new_iterator finish new_builder
  finish-HoldsRows items target_size = record {
    values = map (written c) items;
    here = record {
      in_block = omega arith;
      bytes =
          let e : 0 * c.width ≡ 0 = omega arith in
          rw e (append_all-contents items (record { contents = []; target_size = target_size }));
      count = omega (arith, length-map items (written c));
    };
    present = map-some-written items;
  }

  -- A builder that holds nothing never asks to be finished; any other asks exactly when the next
  -- value would pass the target size.
  pub should_finish_lem :
      (next : Option T) (s : PlainPrimitiveBlockBuilder)
      → (should_finish c next s ≡ true)
        ↔ ((s.contents ≢ []) × (s.target_size < length s.contents + c.width))
  unfolding should_finish
  should_finish_lem next s = elim (List-cases s.contents) [
    | inl empty ↦ rw empty (ground arith)
    | inr (x, r, e) ↦ rw e (ground arith)
  ]
