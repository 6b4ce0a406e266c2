-- ===== src/Block/Varint/Encode.antt =====
-- The encoder: its unfolding, the shape of its output.
use mathlib.Core.Logic.{dif_pos, dif_neg}
use mathlib.Core.WellFounded.{Acc}
use mathlib.Core.WellFounded
use native.Mathlib.Bridge.{le_prop}
use risinglight.Prelude.{
  ℕ, ◌+◌, ◌/◌, ◌%◌, ◌^◌, ◌≤◌, ◌<◌, bit_or, ◌≡◌, refl, ap, sym, ◌∙◌, ◌⊎◌, zero, suc, true, List, [],
  ◌∷◌, arith, ◌==◌, ==_iff, passes, passes_at,
}
use risinglight.Prelude.Order.{lt_wf}
use risinglight.Block.Varint.{encode_loop, encode_32}

set_high_table : passes (λ x. bit_or x 0x80 % 256 == x + 128) 128 ≡ true
unfolding passes
set_high_table = refl

set_high : (x : ℕ) → x < 128 → bit_or x 0x80 % 256 ≡ x + 128
set_high x h = (==_iff _ _).0 (passes_at _ 128 set_high_table h)

encode_loop-encode_32 : (v : ℕ) (w : Acc ◌<◌ v) → encode_loop v w ≡ encode_32 v
unfolding encode_32
encode_loop-encode_32 v w = ap (encode_loop v) (WellFounded.Acc-prop w (lt_wf.apply v))

small_loop : (v : ℕ) (w : Acc ◌<◌ v) → v < 128 → encode_loop v w ≡ v ∷ []
unfolding encode_loop
small_loop v (Acc.intro _ smaller) h = rw (dif_pos _ le_prop h) (ap (λ b. b ∷ []) (omega arith))

large_loop :
    (v : ℕ) (w : Acc ◌<◌ v) → 128 ≤ v → encode_loop v w ≡ (v % 128 + 128) ∷ encode_32 (v / 128)
unfolding encode_loop
large_loop v (Acc.intro _ smaller) h =
    let large : ¬ (v < 0x80) = omega arith in
    rw (dif_neg _ large, encode_loop-encode_32, set_high (v % 128) (omega arith))

-- One byte if the value fits in seven bits; else its low seven bits, marked, and the rest.
pub encode_32-small : (v : ℕ) → v < 128 → encode_32 v ≡ v ∷ []
encode_32-small v h = sym (encode_loop-encode_32 v (lt_wf.apply v)) ∙ small_loop v (lt_wf.apply v) h

pub encode_32-large : (v : ℕ) → 128 ≤ v → encode_32 v ≡ (v % 128 + 128) ∷ encode_32 (v / 128)
encode_32-large v h = sym (encode_loop-encode_32 v (lt_wf.apply v)) ∙ large_loop v (lt_wf.apply v) h

-- The bytes of a value, spelled out for each length.
abbrev pub tail_bytes : ℕ → ℕ → List ℕ
tail_bytes zero v = v ∷ []
tail_bytes (suc n) v = (v % 128 + 128) ∷ tail_bytes n (v / 128)

pub encode_32-one : (v : ℕ) → v < 2 ^ 7 → encode_32 v ≡ tail_bytes 0 v
encode_32-one v h = encode_32-small v h

pub encode_32-two : (v : ℕ) → 2 ^ 7 ≤ v → v < 2 ^ 14 → encode_32 v ≡ tail_bytes 1 v
encode_32-two v l h = rw (encode_32-large v l, encode_32-one (v / 128) (omega arith))

pub encode_32-three : (v : ℕ) → 2 ^ 14 ≤ v → v < 2 ^ 21 → encode_32 v ≡ tail_bytes 2 v
encode_32-three v l h =
    rw (encode_32-large v (omega arith), encode_32-two (v / 128) (omega arith) (omega arith))

pub encode_32-four : (v : ℕ) → 2 ^ 21 ≤ v → v < 2 ^ 28 → encode_32 v ≡ tail_bytes 3 v
encode_32-four v l h =
    rw (encode_32-large v (omega arith), encode_32-three (v / 128) (omega arith) (omega arith))

pub encode_32-five : (v : ℕ) → 2 ^ 28 ≤ v → v < 2 ^ 35 → encode_32 v ≡ tail_bytes 4 v
encode_32-five v l h =
    rw (encode_32-large v (omega arith), encode_32-four (v / 128) (omega arith) (omega arith))

-- The length class of a value below 2 ^ 32.
pub size_cases :
    (v : ℕ)
    → (v < 2 ^ 7)
      ⊎ ((2 ^ 7 ≤ v) × (v < 2 ^ 14))
      ⊎ ((2 ^ 14 ≤ v) × (v < 2 ^ 21))
      ⊎ ((2 ^ 21 ≤ v) × (v < 2 ^ 28))
      ⊎ (2 ^ 28 ≤ v)
size_cases v = omega arith
