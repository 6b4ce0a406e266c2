-- ===== src/Version/Manager/Counts.antt =====
-- The counts of references as a version is pinned or dropped, and the empty snapshot.
use mathlib.Core.Bool.{true≢false}
use risinglight.Prelude.{
  ℕ, zero, suc, ◌+◌, ◌≤◌, ◌<◌, min, ◌≡◌, refl, sym, ap, ◌∙◌, true, ◌==◌, Option, none, some, List,
  [], ◌∷◌, ◌++◌, All, All-mono, arith, inl, inr, Bool-cases, unwrap_or,
}
use risinglight.Prelude.Map.{lookup, insert, lookup-insert, lookup-remove}
use risinglight.Version.Snapshot.{default, get_rowsets_of, get_dvs_of}
use risinglight.Version.Snapshot.Laws.{has_rowset, has_dv}
use risinglight.Version.Manager.{Version, Commit, min_key}
use risinglight.Version.Manager.Vacuum.{min_key-least}
use risinglight.Version.Manager.System.{Removed, count, positive, pending_versions}
use risinglight.Version.Manager.Invariant.{count-Removed, dropped}

positive-suc : (n : ℕ) → positive (n + 1) ≡ some (n + 1)
positive-suc n = let e : n + 1 ≡ suc n = omega arith in rw e refl

unwrap_or-positive : (n : ℕ) → unwrap_or 0 (positive n) ≡ n
unwrap_or-positive zero = refl
unwrap_or-positive (suc n) = refl

pub counts-insert :
    (m : List (ℕ × ℕ)) (v : Version) (pins : List Version)
    → ((e : ℕ) → lookup e m ≡ positive (count e pins))
    → (e : ℕ)
    → lookup e (insert v.epoch (unwrap_or 0 (lookup v.epoch m) + 1) m)
      ≡ positive (count e (v ∷ pins))
counts-insert m v pins h e = lookup-insert v.epoch _ m e ∙ elim (Bool-cases (e == v.epoch)) [
  | inl same ↦
      let s : e ≡ v.epoch = ground arith in
      let c : unwrap_or 0 (lookup v.epoch m) ≡ count v.epoch pins =
        ap (unwrap_or 0) (h v.epoch) ∙ unwrap_or-positive _ in
      let n : count v.epoch pins + 1 ≡ suc (count v.epoch pins) = omega arith in
      rw (same, c, n) (ap (λ i. some (suc (count i pins))) (sym s))
  | inr other ↦ rw other (h e)
]

pub counts-dropped :
    (m : List (ℕ × ℕ)) (v : Version) (vs ws : List Version) (n : ℕ)
    → Removed v vs ws
    → count v.epoch ws ≡ n
    → ((e : ℕ) → lookup e m ≡ positive (count e vs))
    → (e : ℕ) → lookup e (dropped v.epoch n m) ≡ positive (count e ws)
counts-dropped m v vs ws zero r c h e =
    lookup-remove v.epoch m e ∙ elim (Bool-cases (e == v.epoch)) [
      | inl same ↦ let s : e ≡ v.epoch = ground arith in rw (same, s, c) refl
      | inr other ↦ rw other (h e ∙ ap positive (count-Removed e r) ∙ rw other refl)
    ]
counts-dropped m v vs ws (suc n) r c h e =
    lookup-insert v.epoch (suc n) m e ∙ elim (Bool-cases (e == v.epoch)) [
      | inl same ↦ let s : e ≡ v.epoch = ground arith in rw (same, s, c) refl
      | inr other ↦ rw other (h e ∙ ap positive (count-Removed e r) ∙ rw other refl)
    ]

-- The oldest epoch that is counted is no later than that of any version in hand.
pub pins_counted : (pins : List Version) → All (λ v. 0 < count v.epoch pins) pins
pins_counted [] = tt
pins_counted (v ∷ pins) = (
  (let self : (v.epoch == v.epoch) ≡ true = ground arith in rw self (omega arith)),
  All-mono
      (λ w h. elim (Bool-cases (w.epoch == v.epoch)) [
        | inl same ↦ rw same (omega arith)
        | inr other ↦ rw other h
      ])
      pins (pins_counted pins),
)

pub pinned_low :
    (m : List (ℕ × ℕ)) (epoch : ℕ) (v : Version) (n : ℕ)
    → lookup v.epoch m ≡ positive n
    → 0 < n
    → min (unwrap_or epoch (min_key m)) epoch ≤ v.epoch
pinned_low m epoch v zero h pos = absurd (omega arith)
pinned_low m epoch v (suc n) h pos =
    let (k, least, below) = min_key-least m v.epoch (suc n) h in rw least (omega arith)

pub pending_low :
    {Create Drop : Type 0} (epoch : ℕ) (pending : Option (Commit Create Drop)) (vacuum_epoch : ℕ)
    (vs : List Version)
    → All (λ v. min vacuum_epoch epoch ≤ v.epoch) vs
    → All (λ v. min vacuum_epoch epoch ≤ v.epoch) (pending_versions epoch pending ++ vs)
pending_low epoch none vacuum_epoch vs h = h
pending_low epoch (some c) vacuum_epoch vs h = (omega arith, h)

pub no_rowsets : (t r : ℕ) → ¬ (has_rowset default t r ≡ true)
unfolding get_rowsets_of
no_rowsets t r h = true≢false (sym h)

pub no_dvs : (t r d : ℕ) → ¬ (has_dv default t r d ≡ true)
unfolding get_dvs_of
no_dvs t r d h = true≢false (sym h)
