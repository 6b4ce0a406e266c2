-- ===== src/Executor/Join/Semi/Laws.antt =====
-- What semi joins and anti joins give, and that the two ways agree.
use risinglight.Prelude.{
  ◌≡◌, refl, ◌∙◌, Bool, true, false, not, ◌&&◌, ◌||◌, List, [], ◌∷◌, ◌++◌, map, map-append, Result,
  ok, if◌then◌else◌, PartialEq, inl, inr, Bool-cases, arith, append_assoc, append-nil, err≢ok,
  panic≢ok,
}
use risinglight.Prelude.KeyMap.{contains}
use risinglight.Executor.Stream.{Stream, rows, ending}
use risinglight.Executor.Evaluate.{IsRowWise, IsCondition, true_array, filter}
use risinglight.Executor.Builder.{DataChunkBuilder, push_row, new, processing_window_size}
use risinglight.Executor.Builder.Laws.{
  IsValid, rows-emit, push_row-IsValid, rows-flush, new-IsValid,
}
use risinglight.Executor.Join.NestedLoop.{rows_of}
use risinglight.Executor.Join.NestedLoop.Cross.{keep, keep-append}
use risinglight.Executor.Join.NestedLoop.Matched.{some_match}
use risinglight.Executor.Join.NestedLoop.Laws.{collect_lem}
use risinglight.Executor.Join.Semi.{
  xor, HashSemiJoinExecutor, insert_keys, build, probe, execute_hash, NestedLoopSemiJoinExecutor,
  any, is_pushed, select_rows, left_loop, execute_nested_loop,
}

or_rotate : (a b c : Bool) → (a || (b || c)) ≡ ((b || a) || c)
or_rotate a b c = ground arith

or_false : (a : Bool) → (a || false) ≡ a
or_false true = refl
or_false false = refl

-- A match found early decides as all of them would.
early :
    {E : Type 0} (exists now later anti : Bool)
    → ◌≡◌ {A = Result E Bool}
        (if (exists || now) && not anti then ok true else ok (xor ((exists || now) || later) anti))
        (ok (xor (exists || (now || later)) anti))
early {E} exists now later anti = ground arith

module _ {E V : Type 0} (p : PartialEq (List V)) (self : HashSemiJoinExecutor E V) where
  -- One of the rows has the key.
  abbrev pub has_key : (List V → List V) → List (List V) → List V → Bool
  has_key key_of rows_ key = contains p key (map key_of rows_)

  contains-insert :
      (k key : List V) (key_set : List (List V))
      → contains p key (if contains p k key_set then key_set else k ∷ key_set)
        ≡ (p.eq key k || contains p key key_set)
  contains-insert k key key_set = elim (Bool-cases (contains p k key_set)) [
    | inl old ↦ rw old (elim (Bool-cases (p.eq key k)) [
      | inl same ↦ let e : key ≡ k = (p.eq_iff key k).0 same in rw (same, e) old
      | inr differ ↦ rw differ
    ])
    | inr fresh ↦ rw fresh
  ]

  contains-append :
      (key : List V) (xs ys : List (List V))
      → contains p key (xs ++ ys) ≡ (contains p key xs || contains p key ys)
  contains-append key [] ys = refl
  contains-append key (x ∷ xs) ys = ground (arith, contains-append key xs ys)

  insert_keys-contains :
      (key : List V) (keys key_set : List (List V))
      → contains p key (insert_keys p self keys key_set)
        ≡ (contains p key keys || contains p key key_set)
  unfolding insert_keys
  insert_keys-contains key [] key_set = refl
  insert_keys-contains key (k ∷ keys) key_set =
      insert_keys-contains key keys (if contains p k key_set then key_set else k ∷ key_set)
      ∙ rw (contains-insert k key key_set)
          (or_rotate (contains p key keys) (p.eq key k) (contains p key key_set))

  build_lem :
      (right_key : List V → List V)
      → IsRowWise self.right_keys right_key
      → (right : Stream E (List (List V))) (key_set : List (List V)) → ending right ≡ ok tt
      → (built : List (List V)) × (build p self right key_set ≡ ok built)
        × ((key : List V)
            → contains p key built
              ≡ (contains p key (map right_key (rows right)) || contains p key key_set))
  unfolding build
  build_lem right_key wise Stream.done key_set e = (key_set, refl, λ key. refl)
  build_lem right_key wise (Stream.failed x) key_set e = absurd (err≢ok e)
  build_lem right_key wise Stream.panicked key_set e = absurd (panic≢ok e)
  build_lem right_key wise (Stream.yielded chunk right) key_set e =
      let (built, got, has) =
        build_lem right_key wise right (insert_keys p self (map right_key chunk) key_set) e in
      (
        built,
        rw (wise chunk) got,
        λ key.
            has key
            ∙ rw
                (
                  insert_keys-contains key (map right_key chunk) key_set,
                  map-append right_key chunk (rows right),
                  contains-append key (map right_key chunk) (map right_key (rows right)),
                )
                (or_rotate (contains p key (map right_key (rows right)))
                  (contains p key (map right_key chunk)) (contains p key key_set)),
      )

  filter-keys :
      (left_key : List V → List V) (key_set keys chunk : List (List V))
      → ((key : List V) → contains p key key_set ≡ contains p key keys)
      → filter (map (λ key. xor (contains p key key_set) self.anti) (map left_key chunk)) chunk
        ≡ keep (λ l. xor (contains p (left_key l) keys) self.anti) chunk
  filter-keys left_key key_set keys [] h = refl
  filter-keys left_key key_set keys (l ∷ chunk) h =
      rw (h (left_key l), filter-keys left_key key_set keys chunk h)

  rows-probe :
      (left_key : List V → List V) (key_set keys : List (List V))
      → IsRowWise self.left_keys left_key
      → ((key : List V) → contains p key key_set ≡ contains p key keys)
      → (left : Stream E (List (List V)))
      → rows (probe p self key_set left)
        ≡ keep (λ l. xor (contains p (left_key l) keys) self.anti) (rows left)
  unfolding probe
  rows-probe left_key key_set keys wise h Stream.done = refl
  rows-probe left_key key_set keys wise h (Stream.failed e) = refl
  rows-probe left_key key_set keys wise h Stream.panicked = refl
  rows-probe left_key key_set keys wise h (Stream.yielded chunk left) = rw (
    wise chunk,
    filter-keys left_key key_set keys chunk h,
    rows-probe left_key key_set keys wise h left,
    keep-append (λ l. xor (contains p (left_key l) keys) self.anti) chunk (rows left),
  )

  -- A hash semi join gives the rows of the left side whose key a row of the right side has, an anti
  -- join the others, in their order, if the right side ends without an error.
  pub rows-execute_hash_semi :
      (left_key right_key : List V → List V)
      → IsRowWise self.left_keys left_key
      → IsRowWise self.right_keys right_key
      → (left right : Stream E (List (List V))) → ending right ≡ ok tt
      → rows (execute_hash p self left right)
        ≡ keep
            (λ l. xor (contains p (left_key l) (map right_key (rows right))) self.anti)
            (rows left)
  unfolding execute_hash
  rows-execute_hash_semi left_key right_key left_wise right_wise left right e =
      let (built, got, has) = build_lem right_key right_wise right [] e in
      let keys = map right_key (rows right) in
      rw got (
        rows-probe left_key built keys left_wise (λ key. has key ∙ or_false (contains p key keys))
          left)

module _ {E V : Type 0} (self : NestedLoopSemiJoinExecutor E V) {holds : List V → Bool}
    (c : IsCondition self.condition holds) where
  any-some_match :
      (l : List V) (chunk : List (List V))
      → any (true_array (map c.value (map (λ r. l ++ r) chunk))) ≡ some_match holds chunk l
  any-some_match l [] = refl
  any-some_match l (r ∷ chunk) = rw (c.held (l ++ r), any-some_match l chunk)

  some_match-append :
      (l : List V) (xs ys : List (List V))
      → some_match holds (xs ++ ys) l ≡ (some_match holds xs l || some_match holds ys l)
  some_match-append l [] ys = refl
  some_match-append l (x ∷ xs) ys = ground (arith, some_match-append l xs ys)

  is_pushed_lem :
      (l : List V) (chunks : List (List (List V))) (exists : Bool)
      → is_pushed self l exists chunks
        ≡ ok (xor (exists || some_match holds (rows_of chunks) l) self.anti)
  unfolding is_pushed
  is_pushed_lem l [] exists = rw (or_false exists)
  is_pushed_lem l (chunk ∷ chunks) exists =
      let now = some_match holds chunk l in
      rw
        (
          c.evaluates (map (λ r. l ++ r) chunk),
          any-some_match l chunk,
          some_match-append l chunk (rows_of chunks),
          is_pushed_lem l chunks (exists || now),
        )
        (early exists now (some_match holds (rows_of chunks) l) self.anti)

  rows-select_rows :
      (chunks : List (List (List V))) (ls ys : List (List V)) (b : DataChunkBuilder (List V))
      (k : DataChunkBuilder (List V) → Stream E (List (List V)))
      → IsValid b
      → ((b' : DataChunkBuilder (List V)) → IsValid b' → rows (k b') ≡ b'.buffer ++ ys)
      → rows (select_rows self chunks ls b k)
        ≡ b.buffer ++ (keep (λ l. xor (some_match holds (rows_of chunks) l) self.anti) ls ++ ys)
  unfolding select_rows
  rows-select_rows chunks [] ys b k v h = h b v
  rows-select_rows chunks (l ∷ ls) ys b k v h =
      rw (is_pushed_lem l chunks false)
        (elim (Bool-cases (xor (some_match holds (rows_of chunks) l) self.anti)) [
          | inl pushed ↦ rw pushed (
              rows-emit l b _ _
                (rows-select_rows chunks ls ys (push_row l b).1 k (push_row-IsValid l b v) h))
          | inr left_out ↦ rw left_out (rows-select_rows chunks ls ys b k v h)
        ])

  rows-left_loop :
      (chunks : List (List (List V))) (left : Stream E (List (List V)))
      (b : DataChunkBuilder (List V))
      → IsValid b
      → ending left ≡ ok tt
      → rows (left_loop self chunks left b)
        ≡ b.buffer
          ++ (keep (λ l. xor (some_match holds (rows_of chunks) l) self.anti) (rows left) ++ [])
  unfolding left_loop
  rows-left_loop chunks Stream.done b v e = rows-flush E b v
  rows-left_loop chunks (Stream.failed x) b v e = absurd (err≢ok e)
  rows-left_loop chunks Stream.panicked b v e = absurd (panic≢ok e)
  rows-left_loop chunks (Stream.yielded chunk left) b v e =
      let f = λ (l : List V). xor (some_match holds (rows_of chunks) l) self.anti in
      rw (keep-append f chunk (rows left), append_assoc (keep f chunk) (keep f (rows left)) [])
        (rows-select_rows chunks chunk _ b _ v (λ b' v'. rows-left_loop chunks left b' v' e))

  -- A nested loop semi join gives the rows of the left side beside which the condition holds of some
  -- row of the right side, an anti join the others, in their order, if both sides end without an
  -- error.
  pub rows-execute_nested_loop_semi :
      (left right : Stream E (List (List V)))
      → ending left ≡ ok tt
      → ending right ≡ ok tt
      → rows (execute_nested_loop self left right)
        ≡ keep (λ l. xor (some_match holds (rows right) l) self.anti) (rows left)
  unfolding execute_nested_loop new
  rows-execute_nested_loop_semi left right el er =
      let (chunks, got, same) = collect_lem right er in
      rw (got, ← same)
        (rows-left_loop chunks left (new processing_window_size)
            (new-IsValid processing_window_size (omega arith)) el
          ∙ append-nil _)
