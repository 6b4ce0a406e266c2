-- ===== src/Executor/Stream.antt =====
-- What an executor sees of its child and produces itself: the items of a `try_stream`, one after
-- the other, and how it ends. A chunk is the list of its rows.
use risinglight.Prelude.{List, [], ◌++◌, Result, ok, err, panic, ◌≡◌, refl, ◌>>=◌, ◌>>◌}

pub data Stream (E : Type 0) (B : Type 0) : Type 0 where
  done : Stream E B
  failed : E → Stream E B
  panicked : Stream E B
  yielded : B → Stream E B → Stream E B

module _ {E : Type 0} where
  -- The `?` operator and a panic inside the body of a stream.
  abbrev pub run : {B C : Type 0} → Result E B → (B → Stream E C) → Stream E C
  run (ok b) k = k b
  run (err e) k = Stream.failed e
  run panic k = Stream.panicked

  -- All rows that come before the end.
  abbrev pub rows : {A : Type 0} → Stream E (List A) → List A
  rows Stream.done = []
  rows (Stream.failed e) = []
  rows Stream.panicked = []
  rows (Stream.yielded batch rest) = batch ++ rows rest

  -- How the stream ends.
  abbrev pub ending : {B : Type 0} → Stream E B → Result E (Unit {0})
  ending Stream.done = ok tt
  ending (Stream.failed e) = err e
  ending Stream.panicked = panic
  ending (Stream.yielded batch rest) = ending rest

  pub ending-run :
      {B C : Type 0} (r : Result E B) (k : B → Stream E C) (end : Result E (Unit {0}))
      → ((b : B) → ending (k b) ≡ end)
      → ending (run r k) ≡ ((r >>= λ _. ok tt) >> end)
  ending-run (ok b) k end h = h b
  ending-run (err e) k end h = refl
  ending-run panic k end h = refl
