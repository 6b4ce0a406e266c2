-- ===== src/Executor/Join/NestedLoop/Cross.antt =====
-- The rows of the cross product that a nested loop join yields as the builder fills up.
use risinglight.Prelude.{
  ◌+◌, ◌≡◌, refl, ap, ◌∙◌, Bool, List, [], ◌∷◌, ◌++◌, map, map-append, if◌then◌else◌, append_assoc,
  append-nil, inl, inr, Bool-cases,
}
use risinglight.Executor.Stream.{Stream, rows}
use risinglight.Executor.Evaluate.{true_array, filter, IsCondition}
use risinglight.Executor.Builder.{DataChunkBuilder}
use risinglight.Executor.Builder.Laws.{IsValid, push_row-IsValid, push_row-cases}
use risinglight.Executor.Join.NestedLoop.{NestedLoopJoinExecutor, yield_filtered, cross_rows}

-- The rows that pass a test.
abbrev pub keep : {A : Type 0} → (A → Bool) → List A → List A
keep f [] = []
keep f (x ∷ xs) = if f x then x ∷ keep f xs else keep f xs

pub keep-append :
    {A : Type 0} (f : A → Bool) (xs ys : List A) → keep f (xs ++ ys) ≡ keep f xs ++ keep f ys
keep-append f [] ys = refl
keep-append f (x ∷ xs) ys = elim (Bool-cases (f x)) [
  | inl kept ↦ rw (kept, keep-append f xs ys)
  | inr dropped ↦ rw (dropped, keep-append f xs ys)
]

keep_split :
    {A : Type 0} (f : A → Bool) (xs : List A) (x : A) (ys zs : List A)
    → keep f (xs ++ x ∷ []) ++ (keep f ys ++ zs) ≡ keep f xs ++ (keep f (x ∷ ys) ++ zs)
keep_split f xs x ys zs = rw (
  ← append_assoc (keep f (xs ++ x ∷ [])) (keep f ys) zs,
  ← keep-append f (xs ++ x ∷ []) ys,
  append_assoc xs (x ∷ []) ys,
  keep-append f xs (x ∷ ys),
  append_assoc (keep f xs) (keep f (x ∷ ys)) zs,
)

pub filter-true_array :
    {A : Type 0} (f : A → Bool) (value : A → Bool × Bool) (xs : List A)
    → ((x : A) → (value x).0 ≡ f x)
    → filter (true_array (map value xs)) xs ≡ keep f xs
filter-true_array f value [] h = refl
filter-true_array f value (x ∷ xs) h = rw (h x, filter-true_array f value xs h)

module _ {E D V : Type 0} (null : V) (self : NestedLoopJoinExecutor E D V) {holds : List V → Bool}
    (c : IsCondition self.condition holds) where
  abbrev pub bits : List (List V) → List (Bool × Bool)
  bits chunk = map c.value chunk

  pub yield_filtered_lem :
      (chunk : List (List V)) (before : List (List V))
      (k : List (Bool × Bool) → Stream E (List (List V)))
      → yield_filtered null self chunk (bits before) k
        ≡ Stream.yielded (keep holds chunk) (k (bits (before ++ chunk)))
  unfolding yield_filtered
  yield_filtered_lem chunk before k = rw (
    c.evaluates chunk,
    filter-true_array holds c.value chunk c.held,
    map-append c.value before chunk,
  )

  -- What the builder holds, and then the rows of the loop, come out as far as the condition holds,
  -- before what comes next; the filter has the bits of all rows that have left the builder.
  pub rows-cross_rows :
      (rs before ys : List (List V)) (b : DataChunkBuilder (List V))
      (k : DataChunkBuilder (List V) → List (Bool × Bool) → Stream E (List (List V)))
      → IsValid b
      → ((b' : DataChunkBuilder (List V)) (before' : List (List V))
          → IsValid b'
          → before' ++ b'.buffer ≡ before ++ (b.buffer ++ rs)
          → rows (k b' (bits before')) ≡ keep holds b'.buffer ++ ys)
      → rows (cross_rows null self rs b (bits before) k)
        ≡ keep holds b.buffer ++ (keep holds rs ++ ys)
  unfolding cross_rows
  rows-cross_rows [] before ys b k v next = next b before v (rw (append-nil b.buffer))
  rows-cross_rows (row ∷ rs) before ys b k v next =
      let valid = push_row-IsValid row b v in
      let all : (b.buffer ++ row ∷ []) ++ rs ≡ b.buffer ++ row ∷ rs =
        append_assoc b.buffer (row ∷ []) rs in
      elim (push_row-cases row b) [
        | inl (full, _) ↦
            let empty : IsValid (record b { buffer = []; size = 0 }) = rw full at valid in
            let ih =
              rows-cross_rows rs (before ++ (b.buffer ++ row ∷ [])) ys _ k empty (λ b' before' v' e.
                next b' before' v' (
                  e
                  ∙ append_assoc before (b.buffer ++ row ∷ []) rs
                  ∙ ap (λ (l : List (List V)). before ++ l) all)) in
            rw (full, cross_rows, yield_filtered_lem (b.buffer ++ row ∷ []) before, full, ih)
              (keep_split holds b.buffer row rs ys)
        | inr (free, _) ↦
            let more : IsValid (record b { buffer = b.buffer ++ row ∷ []; size = b.size + 1 }) =
              rw free at valid in
            rw (free, cross_rows, free)
              (rows-cross_rows rs before ys _ k more (λ b' before' v' e.
                  next b' before' v' (e ∙ ap (λ (l : List (List V)). before ++ l) all))
                ∙ keep_split holds b.buffer row rs ys)
      ]
