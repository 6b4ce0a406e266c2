-- ===== src/Version/Manager/Vacuum.antt =====
-- The vacuum removes no rowset that a snapshot in use names.
use mathlib.Core.Bool.{true≢false}
use risinglight.Prelude.{
  Returns, Returns-bind, Returns-mono, is_some, ℕ, ◌≤◌, min, ◌≡◌, refl, ap, Bool, true, false,
  Option, none, some, List, [], ◌∷◌, All, All-mono, All-append, panic, arith, sym, ◌∙◌, inl, inr,
  Bool-cases, Option-cases, ◌==◌, unwrap_or, tests, leb,
}
use risinglight.Prelude.Map.{lookup}
use risinglight.Version.Snapshot.{Snapshot}
use risinglight.Version.Snapshot.Laws.{has_rowset}
use risinglight.Version.Manager.{
  VersionManagerInner, Version, Pool, same_id, pool_remove, min_key, applied, retained,
  remove_rowsets, find_vacuum,
}
use risinglight.Version.Manager.Guarded.{Ids, Gone, IsEntry, Guarded}

pub All-swap :
    {A B : Type 0} (R : A → B → Type 0) (xs : List A) (ys : List B)
    → All (λ x. All (R x) ys) xs
    → All (λ y. All (λ x. R x y) xs) ys
All-swap R xs [] h = tt
All-swap R xs (y ∷ ys) h =
    (All-mono (λ x p. p.0) xs h, All-swap R xs ys (All-mono (λ x p. p.1) xs h))

All-zip :
    {A : Type 0} (P Q : A → Type 0) (xs : List A) → All P xs → All Q xs → All (λ x. P x × Q x) xs
All-zip P Q [] p q = tt
All-zip P Q (x ∷ xs) p q = ((p.0, q.0), All-zip P Q xs p.1 q.1)

pub min_key-least :
    {V : Type 0} (m : List (ℕ × V)) (k : ℕ) (x : V)
    → lookup k m ≡ some x
    → (n : ℕ) × (min_key m ≡ some n) × (n ≤ k)
min_key-least [] k x h = ground arith
min_key-least ((j, v) ∷ m) k x h = elim (Bool-cases (k == j)) [
  | inl same ↦ elim (Option-cases (min_key m)) [
    | inl empty ↦ (j, rw empty refl, ground arith)
    | inr (n, least) ↦ (min j n, rw least refl, ground arith)
  ]
  | inr other ↦
      let (n, least, below) = min_key-least m k x (rw other at h) in
      (min j n, rw least refl, omega arith)
]

module _ {Rowset : Type 0} (shared : ℕ → ℕ → Bool) (t r : ℕ) (ds : List (ℕ × ℕ))
    (pool : Pool Rowset) where
  pub remove_rowsets-logged :
      pool t r ≡ none → remove_rowsets shared ((t, r) ∷ ds) pool ≡ remove_rowsets shared ds pool
  unfolding remove_rowsets
  remove_rowsets-logged gone = ground arith

  remove_rowsets-held :
      {rowset : Rowset}
      → pool t r ≡ some rowset
      → shared t r ≡ true
      → remove_rowsets shared ((t, r) ∷ ds) pool ≡ panic
  unfolding remove_rowsets
  remove_rowsets-held there held = ground arith

  pub remove_rowsets-free :
      {rowset : Rowset}
      → pool t r ≡ some rowset
      → shared t r ≡ false
      → remove_rowsets shared ((t, r) ∷ ds) pool ≡ remove_rowsets shared ds (pool_remove t r pool)
  unfolding remove_rowsets
  remove_rowsets-free there free = ground arith

abbrev Keeps : {Rowset : Type 0} → List (ℕ × ℕ) → Pool Rowset → Pool Rowset → Type 0
Keeps ds pool pool' = (t r : ℕ) → All (λ d. same_id d.0 d.1 t r ≡ false) ds → pool' t r ≡ pool t r

nothing_removed :
    {Rowset : Type 0} (shared : ℕ → ℕ → Bool) (pool : Pool Rowset)
    → Returns (Keeps [] pool) (remove_rowsets shared [] pool)
unfolding remove_rowsets
nothing_removed shared pool t r h = refl

remove_rowsets-Keeps :
    {Rowset : Type 0} (shared : ℕ → ℕ → Bool) (ds : List (ℕ × ℕ)) (pool : Pool Rowset)
    → Returns (Keeps ds pool) (remove_rowsets shared ds pool)
remove_rowsets-Keeps shared [] pool = nothing_removed shared pool
remove_rowsets-Keeps shared ((t0, r0) ∷ ds) pool = elim (Option-cases (pool t0 r0)) [
  | inl gone ↦ rw (remove_rowsets-logged shared t0 r0 ds pool gone) (
      Returns-mono (Keeps ds pool) (Keeps ((t0, r0) ∷ ds) pool) _ (λ pool' f t r h. f t r h.1)
        (remove_rowsets-Keeps shared ds pool))
  | inr (rowset, there) ↦ elim (Bool-cases (shared t0 r0)) [
    | inl held ↦ rw (remove_rowsets-held shared t0 r0 ds pool there held) tt
    | inr free ↦ rw (remove_rowsets-free shared t0 r0 ds pool there free) (
        Returns-mono (Keeps ds (pool_remove t0 r0 pool)) (Keeps ((t0, r0) ∷ ds) pool) _
          (λ pool' f t r h. f t r h.1 ∙ rw h.0 refl)
          (remove_rowsets-Keeps shared ds (pool_remove t0 r0 pool)))
  ]
]

pub applied-Gone :
    (used : Ids) (versions : List Version) (epoch vacuum_epoch : ℕ) (m : List (ℕ × List (ℕ × ℕ)))
    → All (IsEntry used versions epoch) m
    → All
        (λ d. All (λ v. min vacuum_epoch epoch ≤ v.epoch → Gone v.snapshot d) versions)
        (applied vacuum_epoch m)
applied-Gone used versions epoch vacuum_epoch [] h = tt
applied-Gone used versions epoch vacuum_epoch ((k, ds) ∷ m) h =
    let rest = applied-Gone used versions epoch vacuum_epoch m h.1 in
    elim (Bool-cases (leb k vacuum_epoch)) [
      | inl now ↦
          let low : k ≤ min vacuum_epoch epoch = omega (tests, h.0.0) in
          rw now (
            All-append _ ds (applied vacuum_epoch m)
              (All-mono (λ d i. All-mono (λ v f below. f (omega arith)) versions i.1) ds h.0.1)
              rest)
      | inr later ↦ rw later rest
    ]

retained-All :
    (P : ℕ × List (ℕ × ℕ) → Type 0) (vacuum_epoch : ℕ) (m : List (ℕ × List (ℕ × ℕ)))
    → All P m
    → All P (retained vacuum_epoch m)
retained-All P vacuum_epoch [] h = tt
retained-All P vacuum_epoch ((k, ds) ∷ m) h = elim (Bool-cases (leb k vacuum_epoch)) [
  | inl now ↦ rw now (retained-All P vacuum_epoch m h.1)
  | inr later ↦ rw later (h.0, retained-All P vacuum_epoch m h.1)
]

same_id-Gone :
    (s : Snapshot) (d : ℕ × ℕ) (t r : ℕ)
    → has_rowset s t r ≡ true
    → Gone s d
    → same_id d.0 d.1 t r ≡ false
same_id-Gone s d t r there gone = elim (Bool-cases (same_id d.0 d.1 t r)) [
  | inr other ↦ other
  | inl same ↦
      let et : t ≡ d.0 = ground (arith, same) in
      let er : r ≡ d.1 = ground (arith, same) in
      absurd (true≢false (sym (rw (et, er) at there) ∙ gone))
]

kept : {V : Type 0} {o o' : Option V} → o' ≡ o → is_some o ≡ true → is_some o' ≡ true
kept e h = ap is_some e ∙ h

module _ {Rowset Dv : Type 0} where
  -- What the vacuum leaves.
  pub record Vacuumed (before after : VersionManagerInner Rowset Dv) (used : Ids)
      (versions : List Version) : Type 0 where
    pub guarded : Guarded after used versions
    pub same_epoch : after.epoch ≡ before.epoch
    pub same_status : after.status ≡ before.status
    pub same_ref_cnt : after.ref_cnt ≡ before.ref_cnt

  pub find_vacuum-Guarded :
      (shared : ℕ → ℕ → Bool) (inner : VersionManagerInner Rowset Dv) (used : Ids)
      (versions : List Version)
      → All
          (λ v. min (unwrap_or inner.epoch (min_key inner.ref_cnt)) inner.epoch ≤ v.epoch)
          versions
      → Guarded inner used versions
      → Returns (λ x. Vacuumed inner x.0 used versions) (find_vacuum shared inner)
  unfolding find_vacuum
  find_vacuum-Guarded shared inner used versions pinned g =
      let vacuum_epoch = unwrap_or inner.epoch (min_key inner.ref_cnt) in
      let ds = applied vacuum_epoch inner.rowset_deletion_to_apply in
      let by_version =
        All-swap (λ d v. min vacuum_epoch inner.epoch ≤ v.epoch → Gone v.snapshot d) ds versions
          (applied-Gone used versions inner.epoch vacuum_epoch inner.rowset_deletion_to_apply
            g.gone) in
      Returns-bind (Keeps ds inner.rowsets) (λ x. Vacuumed inner x.0 used versions) _ _
        (remove_rowsets-Keeps shared ds inner.rowsets)
        (λ pool keeps. record {
          guarded = record {
            live =
                All-mono
                  (λ v h. record {
                    live_rowset = λ t r p.
                        kept
                          (keeps t r
                            (All-mono (λ d f. same_id-Gone v.snapshot d t r p (f h.0.0)) ds h.0.1))
                          (h.1.live_rowset t r p);
                    live_dv = h.1.live_dv;
                  })
                  versions (All-zip _ _ versions (All-zip _ _ versions pinned by_version) g.live);
            known = g.known;
            bound = g.bound;
            gone = retained-All _ vacuum_epoch inner.rowset_deletion_to_apply g.gone;
          };
          same_epoch = refl;
          same_status = refl;
          same_ref_cnt = refl;
        })
