-- ===== src/Prelude/Outcome.antt =====
-- The outcome of fallible code: a value, an error that the code returns, or a panic (a failed
-- `assert!`, an `unwrap` of nothing, an index out of bounds).
use Prim.Native.Nat.{ℕ, ◌+◌, ◌-◌, ◌^◌, ◌≤◌, ◌<◌, compare, Ordering}
use mathlib.Core.Path.{◌≡◌, refl, ap, subst}
use native.Mathlib.Omega.{arith}
use mathlib.Core.Logic.{◌⊎◌, inl, inr}
use mathlib.Core.Bool.{Bool, true, false}
use mathlib.Core.Option.{Option, none, some}

pub data Result {ℓ κ} (E : Type κ) (A : Type ℓ) : Type (ℓ ⊔ κ) where
  ok : A → Result E A
  err : E → Result E A
  panic : Result E A

infixl 5 ◌>>=◌ ◌>>◌
abbrev pub ◌>>=◌ {ℓ κ μ} :
    {E : Type μ} {A : Type ℓ} {B : Type κ} → Result E A → (A → Result E B) → Result E B
ok a >>= f = f a
err e >>= f = err e
panic >>= f = panic

abbrev pub ◌>>◌ {κ μ} : {E : Type μ} {B : Type κ} → Result E (Unit {0}) → Result E B → Result E B
m >> k = m >>= λ _. k

-- `assert!(b)`
abbrev pub assert {μ} : {E : Type μ} → Bool → Result E (Unit {0})
assert true = ok tt
assert false = panic

-- `o.unwrap()`, and an index whose absence panics
abbrev pub unwrap {ℓ μ} : {E : Type μ} {A : Type ℓ} → Option A → Result E A
unwrap none = panic
unwrap (some a) = ok a

-- The error type of code that returns no error: it returns, or it panics.
pub data Never : Type 0 where

-- `a - b` on unsigned integers, where an underflow panics (as it does with overflow checks on).
abbrev pub checked_sub {μ} : {E : Type μ} → ℕ → ℕ → Result E ℕ
checked_sub a b = elim (compare a b) [ Ordering.lt ↦ panic | _ ↦ ok (a - b) ]

-- `a + b` on w-bit unsigned integers, where an overflow panics.
abbrev pub checked_add {μ} : {E : Type μ} → ℕ → ℕ → ℕ → Result E ℕ
checked_add w a b = elim (compare (a + b) (2 ^ w)) [ Ordering.lt ↦ ok (a + b) | _ ↦ panic ]

pub checked_add-fits {μ} :
    {E : Type μ} (w a b : ℕ) → a + b < 2 ^ w → checked_add {μ} {E = E} w a b ≡ ok (a + b)
checked_add-fits w a b h = ground arith

pub checked_sub-fits {μ} : {E : Type μ} (a b : ℕ) → b ≤ a → checked_sub {μ} {E = E} a b ≡ ok (a - b)
checked_sub-fits a b h = ground arith

abbrev pub ok_or {ℓ μ} : {E : Type μ} {A : Type ℓ} → A → Result E A → A
ok_or d (ok a) = a
ok_or d (err e) = d
ok_or d panic = d

pub ok-injective {ℓ μ} :
    {E : Type μ} {A : Type ℓ} {a b : A} → ◌≡◌ {A = Result E A} (ok a) (ok b) → a ≡ b
ok-injective {a} h = ap (ok_or a) h

-- `o.unwrap_or(d)`
abbrev pub unwrap_or {ℓ} : {A : Type ℓ} → A → Option A → A
unwrap_or d none = d
unwrap_or d (some a) = a

-- What code establishes if it returns.
abbrev pub Returns {ℓ} : {A : Type 0} → (A → Type ℓ) → Result Never A → Type ℓ
Returns P (ok a) = P a
Returns P (err e) = Unit
Returns P panic = Unit

pub Returns-bind {ℓ κ} :
    {A B : Type 0} (P : A → Type ℓ) (Q : B → Type κ) (m : Result Never A) (k : A → Result Never B)
    → Returns P m
    → ((a : A) → P a → Returns Q (k a))
    → Returns Q (m >>= k)
Returns-bind P Q (ok a) k h f = f a h
Returns-bind P Q (err e) k h f = tt
Returns-bind P Q panic k h f = tt

pub Returns-mono {ℓ κ} :
    {A : Type 0} (P : A → Type ℓ) (Q : A → Type κ) (m : Result Never A)
    → ((a : A) → P a → Q a)
    → Returns P m
    → Returns Q m
Returns-mono P Q (ok a) f h = f a h
Returns-mono P Q (err e) f h = tt
Returns-mono P Q panic f h = tt

pub Returns-ok {ℓ} :
    {A : Type 0} (P : A → Type ℓ) (m : Result Never A) (a : A) → m ≡ ok a → Returns P m → P a
Returns-ok P m a e h = subst (Returns P) e h

pub Returns-self : {A : Type 0} (m : Result Never A) → Returns (λ a. m ≡ ok a) m
Returns-self (ok a) = refl
Returns-self (err e) = tt
Returns-self panic = tt

pub Returns-any : {A : Type 0} (m : Result Never A) → Returns (λ a. Unit {0}) m
Returns-any (ok a) = tt
Returns-any (err e) = tt
Returns-any panic = tt

pub some-injective {ℓ} : {A : Type ℓ} {a b : A} → some a ≡ some b → a ≡ b
some-injective {a} h = ap (unwrap_or a) h

pub none≢some {ℓ} : {A : Type ℓ} {a : A} → ¬ (none ≡ some a)
none≢some h = ground (arith, h)

pub checked_add-over {μ} :
    {E : Type μ} (w a b : ℕ) → ¬ (a + b < 2 ^ w) → checked_add {μ} {E = E} w a b ≡ panic
checked_add-over w a b h = ground arith

pub panic≢ok {ℓ μ} : {E : Type μ} {A : Type ℓ} {a : A} → ¬ (◌≡◌ {A = Result E A} panic (ok a))
panic≢ok h = ground (arith, h)

pub err≢ok {ℓ μ} :
    {E : Type μ} {A : Type ℓ} {e : E} {a : A} → ¬ (◌≡◌ {A = Result E A} (err e) (ok a))
err≢ok h = ground (arith, h)

abbrev pub is_ok {ℓ μ} : {E : Type μ} {A : Type ℓ} → Result E A → Bool
is_ok (ok a) = true
is_ok (err e) = false
is_ok panic = false

pub Result-cases {ℓ μ} :
    {E : Type μ} {A : Type ℓ} (r : Result E A)
    → ((a : A) × (r ≡ ok a)) ⊎ ((e : E) × (r ≡ err e)) ⊎ (r ≡ panic)
Result-cases (ok a) = inl (a, refl)
Result-cases (err e) = inr (inl (e, refl))
Result-cases panic = inr (inr refl)
