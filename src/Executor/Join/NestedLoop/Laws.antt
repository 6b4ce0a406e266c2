-- ===== src/Executor/Join/NestedLoop/Laws.antt =====
-- What a nested loop join gives, by the rows of its two sides.
use risinglight.Prelude.{
  ◌+◌, ◌≡◌, refl, sym, ap, ◌∙◌, Bool, true, List, [], ◌∷◌, ◌++◌, length, length-append,
  flat_map-append, ok, append_assoc, append-nil, inl, inr, arith, err≢ok, panic≢ok,
}
use risinglight.Executor.Stream.{Stream, rows, ending}
use risinglight.Executor.Evaluate.{IsCondition}
use risinglight.Executor.Builder.{DataChunkBuilder, new, processing_window_size, flush}
use risinglight.Executor.Builder.Laws.{IsValid, take-cases, new-IsValid, rows-flush}
use risinglight.Executor.Join.{JoinType}
use risinglight.Executor.Join.NestedLoop.{
  NestedLoopJoinExecutor, collect, rows_of, cross, push_unmatched, outer, finish, right_loop,
  is_supported, execute,
}
use risinglight.Executor.Join.NestedLoop.Cross.{
  bits, keep, keep-append, yield_filtered_lem, rows-cross_rows,
}
use risinglight.Executor.Join.NestedLoop.Matched.{alone, rows-push_unmatched}

pub collect_lem :
    {E A : Type 0} (s : Stream E (List A))
    → ending s ≡ ok tt
    → (chunks : List (List A)) × (collect s ≡ ok chunks) × (rows_of chunks ≡ rows s)
unfolding collect
collect_lem Stream.done e = ([], refl, refl)
collect_lem (Stream.failed x) e = absurd (err≢ok e)
collect_lem Stream.panicked e = absurd (panic≢ok e)
collect_lem (Stream.yielded chunk s) e =
    let (chunks, got, same) = collect_lem s e in (chunk ∷ chunks, rw got, rw same)

module _ {E D V : Type 0} (null : V) (self : NestedLoopJoinExecutor E D V) {holds : List V → Bool}
    (c : IsCondition self.condition holds) where
  -- What the join gives for the left side alone at the end.
  abbrev pub left_alone : List (List V) → List (List V) → List (List V)
  left_alone left right = elim self.op [
    | JoinType.left_outer ↦ alone null self c left right
    | _ ↦ []
  ]

  rows-outer_at :
      (op : JoinType) (left right : List (List V)) (b : DataChunkBuilder (List V))
      → IsValid b
      → b.buffer ≡ []
      → rows (elim op as (λ _. Stream E (List (List V))) [
        | JoinType.left_outer ↦
            push_unmatched null self 0 left
              (length left)
              (length right)
              (bits null self c (cross left right))
              b
        | _ ↦ flush b
      ])
        ≡ (elim op as (λ _. List (List V)) [
          | JoinType.left_outer ↦ alone null self c left right
          | _ ↦ []
        ])
  rows-outer_at JoinType.inner left right b v empty = rows-flush E b v ∙ rw empty
  rows-outer_at JoinType.left_outer left right b v empty =
      rows-push_unmatched null self c left [] right b v ∙ rw empty
  rows-outer_at JoinType.right_outer left right b v empty = rows-flush E b v ∙ rw empty
  rows-outer_at JoinType.full_outer left right b v empty = rows-flush E b v ∙ rw empty

  rows-outer :
      (left right : List (List V)) (b : DataChunkBuilder (List V))
      → IsValid b
      → b.buffer ≡ []
      → rows (outer null self left (length right) (bits null self c (cross left right)) b)
        ≡ left_alone left right
  unfolding outer
  rows-outer left right b v empty = rows-outer_at self.op left right b v empty

  rows-finish :
      (left right before : List (List V)) (b : DataChunkBuilder (List V))
      → IsValid b
      → before ++ b.buffer ≡ cross left right
      → rows (finish null self left (length right) b (bits null self c before))
        ≡ keep holds b.buffer ++ left_alone left right
  unfolding finish
  rows-finish left right before b v all =
      let drained : IsValid (record b { buffer = []; size = 0 }) = ground arith in
      elim (take-cases b v) [
        | inl (nothing, empty) ↦
            let before_all : before ≡ cross left right =
              sym (append-nil before) ∙ (rw empty at all) in
            rw (nothing, finish, nothing, empty, before_all) (rows-outer left right _ drained refl)
        | inr something ↦
            rw (something, finish, yield_filtered_lem null self c b.buffer before, something, all)
              (ap (λ (l : List (List V)). keep holds b.buffer ++ l)
                (rows-outer left right _ drained refl))
      ]

  rows-right_loop :
      (left : List (List V)) (right : Stream E (List (List V))) (seen before : List (List V))
      (b : DataChunkBuilder (List V))
      → IsValid b
      → before ++ b.buffer ≡ cross left seen
      → ending right ≡ ok tt
      → rows (right_loop null self left right (length seen) b (bits null self c before))
        ≡ keep holds b.buffer
          ++ (keep holds (cross left (rows right)) ++ left_alone left (seen ++ rows right))
  unfolding right_loop
  rows-right_loop left Stream.done seen before b v all e =
      rw (append-nil seen) (rows-finish left seen before b v all)
  rows-right_loop left (Stream.failed x) seen before b v all e = absurd (err≢ok e)
  rows-right_loop left Stream.panicked seen before b v all e = absurd (panic≢ok e)
  rows-right_loop left (Stream.yielded chunk right) seen before b v all e =
      let size : length seen + length chunk ≡ length (seen ++ chunk) =
        sym (length-append seen chunk) in
      let parts : cross left (chunk ++ rows right) ≡ cross left chunk ++ cross left (rows right) =
        flat_map-append _ chunk (rows right) in
      rw
        (
          parts,
          keep-append holds (cross left chunk) (cross left (rows right)),
          ← append_assoc seen chunk (rows right),
          append_assoc (keep holds (cross left chunk)),
          size,
        )
        (rows-cross_rows null self c (cross left chunk) before _ b _ v (λ b' before' v' all'.
          rows-right_loop left right (seen ++ chunk) before' b' v'
            (all'
              ∙ sym (append_assoc before b.buffer (cross left chunk))
              ∙ ap (λ (l : List (List V)). l ++ cross left chunk) all
              ∙ sym (flat_map-append _ seen chunk))
            e))

  pub rows-execute_nested_loop :
      (left right : Stream E (List (List V)))
      → is_supported self.op ≡ true
      → ending left ≡ ok tt
      → ending right ≡ ok tt
      → rows (execute null self left right)
        ≡ keep holds (cross (rows left) (rows right)) ++ left_alone (rows left) (rows right)
  unfolding execute new
  rows-execute_nested_loop left right supported el er =
      let (chunks, collected, same) = collect_lem left el in
      rw (supported, collected, same)
        (rows-right_loop (rows left) right [] [] (new processing_window_size)
          (new-IsValid processing_window_size (omega arith)) refl er)
