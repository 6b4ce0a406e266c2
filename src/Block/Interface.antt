-- ===== src/Block/Interface.antt =====
-- storage/secondary/block.rs: the traits `BlockBuilder` and `BlockIterator`, with the contract that
-- the users of a block iterator rely on. An item is `none` for a null. An array builder is the list
-- of the items pushed so far.
use risinglight.Prelude.{
  ℕ, ◌≤◌, ◌<◌, min, ◌≡◌, Bool, Option, some, List, [], ◌++◌, Result, Never, ok, length, take, drop,
}

pub record BlockBuilder (A : Type 0) : Type 1 where
  pub State : Type 0
  pub append : Option A → State → State
  pub estimated_size : State → ℕ
  pub should_finish : Option A → State → Bool
  pub finish : State → List ℕ

pub record BlockIterator (A : Type 0) : Type 1 where
  pub State : Type 0
  -- the number of items, the array builder that holds them, and the iterator afterwards
  pub next_batch : Option ℕ → List (Option A) → State → Result Never (ℕ × List (Option A) × State)
  pub skip : ℕ → State → Result Never State
  pub remaining_items : State → Result Never ℕ

-- `Holds s rows`: the iterator `s` has exactly `rows` left to read.
pub record IsBlockIterator {A : Type 0} (I : BlockIterator A) : Type 1 where
  pub Holds : I.State → List (Option A) → Type 0
  -- a batch into an array builder that is still empty
  pub next_some :
      (e : ℕ) (s : I.State) (rows : List (Option A))
      → 0 < e
      → Holds s rows
      → (s' : I.State) × (I.next_batch (some e) [] s ≡ ok (min e (length rows), take e rows, s'))
        × Holds s' (drop e rows)
  pub skip_rows :
      (k : ℕ) (s : I.State) (rows : List (Option A))
      → k ≤ length rows
      → Holds s rows
      → (s' : I.State) × (I.skip k s ≡ ok s') × Holds s' (drop k rows)
  pub remaining :
      (s : I.State) (rows : List (Option A)) → Holds s rows → I.remaining_items s ≡ ok (length rows)

-- What the code uses of the crate `bytes` for fixed-width integers, and what it relies on.
pub record FixedWidth : Type 0 where
  pub put_u32_le : ℕ → List ℕ
  pub get_u32_le : List ℕ → Result Never (ℕ × List ℕ)

pub record IsFixedWidth (c : FixedWidth) : Type 0 where
  pub length-put : (v : ℕ) → length (c.put_u32_le v) ≡ 4
  pub get-put :
      (v : ℕ) (rest : List ℕ)
      → v < 0x1_0000_0000
      → c.get_u32_le (c.put_u32_le v ++ rest) ≡ ok (v, rest)
