-- ===== src/Prelude/Lists.antt =====
-- Lists measured and indexed by native numbers, under the library's names.
use Prim.Native.Nat.{ℕ, zero, suc, ◌+◌, ◌-◌, ◌≤◌, ◌<◌, min}
use mathlib.Core.Path.{◌≡◌, refl, ap}
use mathlib.Core.Logic.{◌≢◌, ◌⊎◌, inl, inr}
use mathlib.Core.List.{List, [], ◌∷◌, ◌++◌, map, append-nil, append_assoc}
use mathlib.Core.Option.{Option, none, some}
use native.Mathlib.Nat.{suc-add}
use native.Mathlib.Omega.{arith}

module _ {ℓ} {A : Type ℓ} where
  abbrev pub length : List A → ℕ
  length [] = 0
  length (x ∷ xs) = suc (length xs)

  abbrev pub get_elem? : List A → ℕ → Option A
  get_elem? [] i = none
  get_elem? (x ∷ xs) zero = some x
  get_elem? (x ∷ xs) (suc i) = get_elem? xs i

  -- A write out of bounds changes nothing.
  abbrev pub set : List A → ℕ → A → List A
  set [] i v = []
  set (x ∷ xs) zero v = v ∷ xs
  set (x ∷ xs) (suc i) v = x ∷ set xs i v

  pub length-append : (xs ys : List A) → length (xs ++ ys) ≡ length xs + length ys
  length-append [] ys = omega arith
  length-append (x ∷ xs) ys = omega (arith, length-append xs ys)

module _ {ℓ} {A : Type ℓ} where
  pub length-set : (xs : List A) (i : ℕ) (v : A) → length (set xs i v) ≡ length xs
  length-set [] i v = refl
  length-set (x ∷ xs) zero v = refl
  length-set (x ∷ xs) (suc i) v = ap suc (length-set xs i v)

  pub get_elem?-set_self :
      (xs : List A) (i : ℕ) (v : A) → i < length xs → get_elem? (set xs i v) i ≡ some v
  get_elem?-set_self [] i v h = elim h [ ]
  get_elem?-set_self (x ∷ xs) zero v h = refl
  get_elem?-set_self (x ∷ xs) (suc i) v h = get_elem?-set_self xs i v (omega arith)

  pub get_elem?-set_ne :
      (xs : List A) {i j : ℕ} (v : A) → i ≢ j → get_elem? (set xs i v) j ≡ get_elem? xs j
  get_elem?-set_ne [] v h = refl
  get_elem?-set_ne (x ∷ xs) {i = zero} {j = zero} v h = absurd (h refl)
  get_elem?-set_ne (x ∷ xs) {i = zero} {j = suc j} v h = refl
  get_elem?-set_ne (x ∷ xs) {i = suc i} {j = zero} v h = refl
  get_elem?-set_ne (x ∷ xs) {i = suc i} {j = suc j} v h = get_elem?-set_ne xs v (λ e. h (ap suc e))

module _ {ℓ} {A : Type ℓ} where
  abbrev pub get_or : List A → ℕ → A → A
  get_or [] i d = d
  get_or (x ∷ xs) zero d = x
  get_or (x ∷ xs) (suc i) d = get_or xs i d

  abbrev pub take : ℕ → List A → List A
  take zero xs = []
  take (suc n) [] = []
  take (suc n) (x ∷ xs) = x ∷ take n xs

  abbrev pub drop : ℕ → List A → List A
  drop zero xs = xs
  drop (suc n) [] = []
  drop (suc n) (x ∷ xs) = drop n xs

  pub drop_nil : (n : ℕ) → drop n [] ≡ []
  drop_nil zero = refl
  drop_nil (suc n) = refl

  abbrev pub replicate : ℕ → A → List A
  replicate zero a = []
  replicate (suc n) a = a ∷ replicate n a

  pub take-append-drop : (n : ℕ) (xs : List A) → take n xs ++ drop n xs ≡ xs
  take-append-drop zero xs = refl
  take-append-drop (suc n) [] = refl
  take-append-drop (suc n) (x ∷ xs) = rw (take-append-drop n xs)

  pub length-take : (n : ℕ) (xs : List A) → length (take n xs) ≡ min n (length xs)
  length-take zero xs = omega arith
  length-take (suc n) [] = omega arith
  length-take (suc n) (x ∷ xs) = omega (arith, length-take n xs)

  pub length-drop : (n : ℕ) (xs : List A) → length (drop n xs) ≡ length xs - n
  length-drop zero xs = omega arith
  length-drop (suc n) [] = omega arith
  length-drop (suc n) (x ∷ xs) = omega (arith, length-drop n xs)

  pub length-replicate : (n : ℕ) (a : A) → length (replicate n a) ≡ n
  length-replicate zero a = refl
  length-replicate (suc n) a = ap suc (length-replicate n a)

  pub length-map {κ} : {B : Type κ} (xs : List A) (f : A → B) → length (map f xs) ≡ length xs
  length-map [] f = refl
  length-map (x ∷ xs) f = ap suc (length-map xs f)

  pub drop-length-append : (xs ys : List A) → drop (length xs) (xs ++ ys) ≡ ys
  drop-length-append [] ys = refl
  drop-length-append (x ∷ xs) ys = drop-length-append xs ys

  -- A predicate by recursion computes to tuples.
  abbrev pub All {κ} : (A → Type κ) → List A → Type κ
  All P [] = Unit {κ}
  All P (x ∷ xs) = P x × All P xs

  pub All-append {κ} : (P : A → Type κ) (xs ys : List A) → All P xs → All P ys → All P (xs ++ ys)
  All-append P [] ys hx hy = hy
  All-append P (x ∷ xs) ys hx hy = (hx.0, All-append P xs ys hx.1 hy)

  abbrev pub flat_map {κ} : {B : Type κ} → (A → List B) → List A → List B
  flat_map f [] = []
  flat_map f (x ∷ xs) = f x ++ flat_map f xs

  -- Runs written out: `n` copies of `x` for each element with its count.
  abbrev pub unroll : List A → List ℕ → List A
  unroll (x ∷ xs) (n ∷ ns) = replicate n x ++ unroll xs ns
  unroll xs ns = []

  pub unroll-snoc :
      (xs : List A) (ns : List ℕ) (x : A) (n : ℕ)
      → length xs ≡ length ns
      → unroll (xs ++ x ∷ []) (ns ++ n ∷ []) ≡ unroll xs ns ++ replicate n x
  unroll-snoc [] [] x n h = append-nil (replicate n x)
  unroll-snoc [] (m ∷ ns) x n h = absurd (omega arith)
  unroll-snoc (y ∷ xs) [] x n h = absurd (omega arith)
  unroll-snoc (y ∷ xs) (m ∷ ns) x n h = rw (unroll-snoc xs ns x n (omega arith), append_assoc)

  pub replicate-snoc : (n : ℕ) (x : A) → replicate n x ++ x ∷ [] ≡ replicate (suc n) x
  replicate-snoc zero x = refl
  replicate-snoc (suc n) x = ap (◌∷◌ x) (replicate-snoc n x)

  pub drop-suc : (k : ℕ) (l : List A) (x : A) (r : List A) → drop k l ≡ x ∷ r → drop (k + 1) l ≡ r
  drop-suc k [] x r h = ground (arith, drop_nil k)
  drop-suc zero (y ∷ l) x r h = ground arith
  drop-suc (suc k) (y ∷ l) x r h = rw suc-add (drop-suc k l x r h)

  pub get_elem?-drop :
      (k : ℕ) (l : List A) (x : A) (r : List A) → drop k l ≡ x ∷ r → get_elem? l k ≡ some x
  get_elem?-drop k [] x r h = ground (arith, drop_nil k)
  get_elem?-drop zero (y ∷ l) x r h = ground arith
  get_elem?-drop (suc k) (y ∷ l) x r h = get_elem?-drop k l x r h

  pub drop-replicate-append :
      (c a : ℕ) (x : A) (r : List A)
      → c ≤ a
      → drop c (replicate a x ++ r) ≡ replicate (a - c) x ++ r
  drop-replicate-append zero a x r h = let e : a - 0 ≡ a = omega arith in rw e
  drop-replicate-append (suc c) zero x r h = absurd (omega arith)
  drop-replicate-append (suc c) (suc a) x r h =
      let e : suc a - suc c ≡ a - c = omega arith in
      rw e (drop-replicate-append c a x r (omega arith))

  pub drop_past-replicate :
      (c a : ℕ) (x : A) (r : List A) → a ≤ c → drop c (replicate a x ++ r) ≡ drop (c - a) r
  drop_past-replicate c zero x r h = let e : c - 0 ≡ c = omega arith in rw e
  drop_past-replicate zero (suc a) x r h = absurd (omega arith)
  drop_past-replicate (suc c) (suc a) x r h =
      let e : suc c - suc a ≡ c - a = omega arith in
      rw e (drop_past-replicate c a x r (omega arith))

  pub drop_step : (d : ℕ) (l : List A) → d < length l → (x : A) × (drop d l ≡ x ∷ drop (suc d) l)
  drop_step d [] h = absurd (omega arith)
  drop_step zero (x ∷ l) h = (x, refl)
  drop_step (suc d) (x ∷ l) h = let (y, e) = drop_step d l (omega arith) in (y, e)

  pub List-cases : (l : List A) → (l ≡ []) ⊎ ((x : A) × (r : List A) × (l ≡ x ∷ r))
  List-cases [] = inl refl
  List-cases (x ∷ r) = inr (x, r, refl)

  pub take-nil : (n : ℕ) → take n [] ≡ []
  take-nil zero = refl
  take-nil (suc n) = refl

  pub drop-add : (a b : ℕ) (l : List A) → drop (a + b) l ≡ drop b (drop a l)
  drop-add zero b l = let e : 0 + b ≡ b = omega arith in rw e
  drop-add (suc a) b [] = let e : suc a + b ≡ suc (a + b) = omega arith in rw (e, drop_nil b)
  drop-add (suc a) b (x ∷ l) =
      let e : suc a + b ≡ suc (a + b) = omega arith in rw e (drop-add a b l)

  pub drop-min-length : (e : ℕ) (l : List A) → drop (min e (length l)) l ≡ drop e l
  drop-min-length zero l = let h : min 0 (length l) ≡ 0 = omega arith in rw h
  drop-min-length (suc e) [] = let h : min (suc e) 0 ≡ 0 = omega arith in rw h
  drop-min-length (suc e) (x ∷ l) =
      let h : min (suc e) (suc (length l)) ≡ suc (min e (length l)) = omega arith in
      rw h (drop-min-length e l)

pub map-drop {ℓ κ} :
    {A : Type ℓ} {B : Type κ} (f : A → B) (n : ℕ) (l : List A) → map f (drop n l) ≡ drop n (map f l)
map-drop f zero l = refl
map-drop f (suc n) [] = refl
map-drop f (suc n) (x ∷ l) = map-drop f n l

module _ {ℓ} {A : Type ℓ} where
  pub take-length-append : (xs ys : List A) → take (length xs) (xs ++ ys) ≡ xs
  take-length-append [] ys = refl
  take-length-append (x ∷ xs) ys = ap (◌∷◌ x) (take-length-append xs ys)

  pub take-length : (xs : List A) → take (length xs) xs ≡ xs
  take-length [] = refl
  take-length (x ∷ xs) = ap (◌∷◌ x) (take-length xs)

  pub All-mono {κ μ} :
      {P : A → Type κ} {Q : A → Type μ} (f : (a : A) → P a → Q a) (xs : List A)
      → All P xs
      → All Q xs
  All-mono f [] h = tt
  All-mono f (x ∷ xs) h = (f x h.0, All-mono f xs h.1)

  pub take-min-length : (e : ℕ) (l : List A) → take (min e (length l)) l ≡ take e l
  take-min-length zero l = let h : min 0 (length l) ≡ 0 = omega arith in rw h
  take-min-length (suc e) [] = let h : min (suc e) 0 ≡ 0 = omega arith in rw h
  take-min-length (suc e) (x ∷ l) =
      let h : min (suc e) (suc (length l)) ≡ suc (min e (length l)) = omega arith in
      rw h (ap (◌∷◌ x) (take-min-length e l))

pub flat_map-append {ℓ κ} :
    {A : Type ℓ} {B : Type κ} (f : A → List B) (xs ys : List A)
    → flat_map f (xs ++ ys) ≡ flat_map f xs ++ flat_map f ys
flat_map-append f [] ys = refl
flat_map-append f (x ∷ xs) ys =
    rw (flat_map-append f xs ys, append_assoc (f x) (flat_map f xs) (flat_map f ys))
