-- ===== src/Prelude/Slices.antt =====
-- A slice of two lists in a row.
use Prim.Native.Nat.{ℕ, zero, suc, ◌-◌, ◌≤◌}
use mathlib.Core.Path.{◌≡◌, refl, ap}
use mathlib.Core.List.{List, [], ◌∷◌, ◌++◌}
use native.Mathlib.Omega.{arith}
use risinglight.Prelude.Lists.{length, take, drop, length-drop}

module _ {ℓ} {A : Type ℓ} where
  pub drop-append :
      (k : ℕ) (xs ys : List A) → drop k (xs ++ ys) ≡ drop k xs ++ drop (k - length xs) ys
  drop-append zero xs ys = let e : 0 - length xs ≡ 0 = omega arith in rw e
  drop-append (suc k) [] ys = let e : suc k - 0 ≡ suc k = omega arith in rw e
  drop-append (suc k) (x ∷ xs) ys =
      let e : suc k - suc (length xs) ≡ k - length xs = omega arith in rw e (drop-append k xs ys)

  pub take-append :
      (k : ℕ) (xs ys : List A) → take k (xs ++ ys) ≡ take k xs ++ take (k - length xs) ys
  take-append zero xs ys = let e : 0 - length xs ≡ 0 = omega arith in rw e
  take-append (suc k) [] ys = let e : suc k - 0 ≡ suc k = omega arith in rw e
  take-append (suc k) (x ∷ xs) ys =
      let e : suc k - suc (length xs) ≡ k - length xs = omega arith in
      rw e (ap (◌∷◌ x) (take-append k xs ys))

  pub drop-past : (k : ℕ) (xs : List A) → length xs ≤ k → drop k xs ≡ []
  drop-past zero [] h = refl
  drop-past zero (x ∷ xs) h = absurd (omega arith)
  drop-past (suc k) [] h = refl
  drop-past (suc k) (x ∷ xs) h = drop-past k xs (omega arith)

  pub take-past : (k : ℕ) (xs : List A) → length xs ≤ k → take k xs ≡ xs
  take-past zero [] h = refl
  take-past zero (x ∷ xs) h = absurd (omega arith)
  take-past (suc k) [] h = refl
  take-past (suc k) (x ∷ xs) h = ap (◌∷◌ x) (take-past k xs (omega arith))

  -- The slice of two lists in a row is a slice of each.
  pub slice-append :
      (m k : ℕ) (xs ys : List A)
      → take m (drop k (xs ++ ys))
        ≡ take m (drop k xs) ++ take (m - (length xs - k)) (drop (k - length xs) ys)
  slice-append m k xs ys =
      rw
        (drop-append k xs ys, take-append m (drop k xs) (drop (k - length xs) ys), length-drop k xs)
