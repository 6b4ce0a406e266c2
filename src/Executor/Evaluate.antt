-- ===== src/Executor/Evaluate.antt =====
-- executor/evaluator.rs as the executors use it: what evaluating an expression on a chunk gives. A
-- chunk is the list of its rows, and a list of expressions gives a chunk with as many rows.
use risinglight.Prelude.{◌≡◌, Bool, ◌&&◌, List, [], ◌∷◌, map, Result, ok, panic, if◌then◌else◌}

-- `ArrayImpl`: a Boolean array has its data and its validity bitmap, here side by side.
pub data ArrayImpl (V : Type 0) : Type 0 where
  bool : List (Bool × Bool) → ArrayImpl V
  other : List V → ArrayImpl V

module _ {V : Type 0} where
  -- `let ArrayImpl::Bool(a) = … else { panic!(…) }`
  abbrev pub as_bool : {E : Type 0} → ArrayImpl V → Result E (List (Bool × Bool))
  as_bool (ArrayImpl.bool a) = ok a
  as_bool (ArrayImpl.other a) = panic

-- `a.true_array()`: the data, whatever the validity
abbrev pub true_array : List (Bool × Bool) → List Bool
true_array [] = []
true_array ((b, valid) ∷ a) = b ∷ true_array a

-- `a.get(i)` is `Some(true)`
abbrev pub is_true : Bool × Bool → Bool
is_true (b, valid) = b && valid

-- `chunk.filter(visibility)`
abbrev pub filter : {R : Type 0} → List Bool → List R → List R
filter (b ∷ visibility) (row ∷ rows) =
    let kept = filter visibility rows in if b then row ∷ kept else kept
filter visibility rows = []

-- `a.zip(b)`
abbrev pub zip : {A B : Type 0} → List A → List B → List (A × B)
zip (a ∷ as_) (b ∷ bs) = (a, b) ∷ zip as_ bs
zip as_ bs = []

-- An expression list that gives each row its own value.
module _ {E R S : Type 0} where
  abbrev pub IsRowWise : (List R → Result E (List S)) → (R → S) → Type 0
  IsRowWise eval_list f = (chunk : List R) → eval_list chunk ≡ ok (map f chunk)

-- A condition that gives each row its own value, which holds if `f` does: a null has `false` for its
-- data.
module _ {E R V : Type 0} where
  pub record IsCondition (eval : List R → Result E (ArrayImpl V)) (f : R → Bool) : Type 0 where
    pub value : R → Bool × Bool
    pub evaluates : (chunk : List R) → eval chunk ≡ ok (ArrayImpl.bool (map value chunk))
    pub held : (row : R) → (value row).0 ≡ f row
    pub cleared : (row : R) → is_true (value row) ≡ f row
