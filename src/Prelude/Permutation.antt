-- ===== src/Prelude/Permutation.antt =====
-- Permutations of concatenated lists.
use mathlib.Core.Logic.{∥∥₁_elim}
use mathlib.Core.List.{Perm, perm_append_comm, Perm-prop}
use mathlib.Core.List.Perm
use mathlib.Core.List.{Permᴰ}
use risinglight.Prelude.{List, ◌++◌, flat_map, append_assoc, length, ◌≡◌, refl, ap, suc, ◌∙◌}
use native.Mathlib.Nat.{ℕ_set}

module _ {ℓ κ} {A : Type ℓ} {B : Type κ} (f : A → List B) where
  Permᴰ-flat_map : {xs ys : List A} → Permᴰ xs ys → Perm (flat_map f xs) (flat_map f ys)
  Permᴰ-flat_map Permᴰ.nil = Perm.rfl
  Permᴰ-flat_map (Permᴰ.cons {a} e d) = rw (← e) (Perm.append_left (f a) (Permᴰ-flat_map d))
  Permᴰ-flat_map (Permᴰ.swap {a} {b} {l = l} e e') =
      rw
        (
          ← e,
          ← e',
          ← append_assoc (f a) (f b) (flat_map f l),
          ← append_assoc (f b) (f a) (flat_map f l),
        )
        (Perm.append_right (flat_map f l) (perm_append_comm (f a) (f b)))
  Permᴰ-flat_map (Permᴰ.trans d d') = Perm.trans (Permᴰ-flat_map d) (Permᴰ-flat_map d')

  pub Perm-flat_map : {xs ys : List A} → Perm xs ys → Perm (flat_map f xs) (flat_map f ys)
  Perm-flat_map h = ∥∥₁_elim h Perm-prop Permᴰ-flat_map

module _ {ℓ} {A : Type ℓ} where
  -- An element may go behind a list that follows it.
  pub Perm-move : (xs ys zs : List A) → Perm ((xs ++ ys) ++ zs) ((xs ++ zs) ++ ys)
  Perm-move xs ys zs =
      rw (append_assoc xs ys zs, append_assoc xs zs ys)
        (Perm.append_left xs (perm_append_comm ys zs))

  -- A list may go behind the one that follows it.
  pub Perm-front : (xs ys zs : List A) → Perm (xs ++ (ys ++ zs)) (ys ++ (xs ++ zs))
  Perm-front xs ys zs =
      rw (← append_assoc xs ys zs, ← append_assoc ys xs zs)
        (Perm.append_right zs (perm_append_comm xs ys))

  Permᴰ-length : {xs ys : List A} → Permᴰ xs ys → length xs ≡ length ys
  Permᴰ-length Permᴰ.nil = refl
  Permᴰ-length (Permᴰ.cons e d) = ap suc (Permᴰ-length d)
  Permᴰ-length (Permᴰ.swap e e') = refl
  Permᴰ-length (Permᴰ.trans d d') = Permᴰ-length d ∙ Permᴰ-length d'

  pub Perm-length : {xs ys : List A} → Perm xs ys → length xs ≡ length ys
  Perm-length h = ∥∥₁_elim h (ℕ_set _ _) Permᴰ-length
