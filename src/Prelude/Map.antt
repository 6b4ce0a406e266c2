-- ===== src/Prelude/Map.antt =====
-- Maps and sets with numbers as keys: `HashMap` and `HashSet` as lists, with the laws of lookup.
use risinglight.Prelude.{
  ℕ, ◌≡◌, refl, Bool, true, false, not, ◌&&◌, ◌||◌, ◌==◌, if◌then◌else◌, Bool-cases, Option, none,
  some, List, [], ◌∷◌, arith, inl, inr,
}

module _ {V : Type 0} where
  abbrev pub lookup : ℕ → List (ℕ × V) → Option V
  lookup key [] = none
  lookup key ((k, v) ∷ m) = if key == k then some v else lookup key m

  abbrev pub insert : ℕ → V → List (ℕ × V) → List (ℕ × V)
  insert key v [] = (key, v) ∷ []
  insert key v ((k, w) ∷ m) = if key == k then (key, v) ∷ m else (k, w) ∷ insert key v m

  abbrev pub remove : ℕ → List (ℕ × V) → List (ℕ × V)
  remove key [] = []
  remove key ((k, v) ∷ m) = if key == k then remove key m else (k, v) ∷ remove key m

  pub lookup-insert :
      (key : ℕ) (v : V) (m : List (ℕ × V)) (key' : ℕ)
      → lookup key' (insert key v m) ≡ (if key' == key then some v else lookup key' m)
  lookup-insert key v [] key' = refl
  lookup-insert key v ((k, w) ∷ m) key' = ground (arith, lookup-insert key v m key')

  pub lookup-remove :
      (key : ℕ) (m : List (ℕ × V)) (key' : ℕ)
      → lookup key' (remove key m) ≡ (if key' == key then none else lookup key' m)
  lookup-remove key [] key' = ground arith
  lookup-remove key ((k, w) ∷ m) key' = ground (arith, lookup-remove key m key')

-- A set of numbers.
abbrev pub contains : ℕ → List ℕ → Bool
contains x [] = false
contains x (y ∷ s) = (x == y) || contains x s

abbrev pub add_to : ℕ → List ℕ → List ℕ
add_to x s = if contains x s then s else x ∷ s

abbrev pub remove_from : ℕ → List ℕ → List ℕ
remove_from x [] = []
remove_from x (y ∷ s) = if x == y then remove_from x s else y ∷ remove_from x s

abbrev pub is_empty {ℓ} : {A : Type ℓ} → List A → Bool
is_empty [] = true
is_empty (x ∷ s) = false

pub contains-add_to :
    (x : ℕ) (s : List ℕ) (y : ℕ) → contains y (add_to x s) ≡ (y == x) || contains y s
contains-add_to x s y = elim (Bool-cases (contains x s)) [
  | inl has ↦ elim (Bool-cases (y == x)) [
    | inl same ↦ let e : y ≡ x = ground arith in rw (has, same, e) has
    | inr other ↦ rw (has, other) refl
  ]
  | inr lacks ↦ rw lacks refl
]

pub contains-remove_from :
    (x : ℕ) (s : List ℕ) (y : ℕ) → contains y (remove_from x s) ≡ not (y == x) && contains y s
contains-remove_from x [] y = ground arith
contains-remove_from x (z ∷ s) y = ground (arith, contains-remove_from x s y)

pub contains-empty : (s : List ℕ) (y : ℕ) → is_empty s ≡ true → contains y s ≡ false
contains-empty [] y h = refl
contains-empty (x ∷ s) y h = ground arith
