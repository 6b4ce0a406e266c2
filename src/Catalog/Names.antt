-- ===== src/Catalog/Names.antt =====
-- Maps whose keys are texts: `HashMap<String, _>` as lists, with the laws of lookup.
use Prim.Native.String.{String}
use text.Mathlib.Text.{◌==◌}
use text.Mathlib.TextEquality.{eq_iff}
use risinglight.Prelude.{
  ◌≡◌, refl, Bool, false, Option, none, some, List, [], ◌∷◌, if◌then◌else◌, arith, inl, inr,
  Bool-cases, none≢some, sym, ap, ◌∙◌,
}

abbrev pub same_text : String → String → Bool
same_text a b = a == b

module _ {V : Type 0} where
  abbrev pub get : String → List (String × V) → Option V
  get key [] = none
  get key ((k, v) ∷ m) = if key == k then some v else get key m

  abbrev pub put : String → V → List (String × V) → List (String × V)
  put key v [] = (key, v) ∷ []
  put key v ((k, w) ∷ m) = if key == k then (key, v) ∷ m else (k, w) ∷ put key v m

  abbrev pub delete : String → List (String × V) → List (String × V)
  delete key [] = []
  delete key ((k, v) ∷ m) = if key == k then delete key m else (k, v) ∷ delete key m

  pub get-put :
      (key : String) (v : V) (m : List (String × V)) (key' : String)
      → get key' (put key v m) ≡ (if key' == key then some v else get key' m)
  get-put key v [] key' = refl
  get-put key v ((k, w) ∷ m) key' =
      ground (arith, eq_iff key k, eq_iff key' key, eq_iff key' k, get-put key v m key')

  pub get-delete :
      (key : String) (m : List (String × V)) (key' : String)
      → get key' (delete key m) ≡ (if key' == key then none else get key' m)
  get-delete key [] key' = ground arith
  get-delete key ((k, w) ∷ m) key' =
      ground (arith, eq_iff key k, eq_iff key' key, eq_iff key' k, get-delete key m key')

  -- A name that is taken is none that is free.
  pub get-differs :
      (free taken : String) (m : List (String × V)) {v : V}
      → get free m ≡ none
      → get taken m ≡ some v
      → same_text taken free ≡ false
  get-differs free taken m not_there there = elim (Bool-cases (same_text taken free)) [
    | inr other ↦ other
    | inl same ↦
        absurd
          (none≢some (sym not_there ∙ ap (λ n. get n m) (sym ((eq_iff taken free).0 same)) ∙ there))
  ]
