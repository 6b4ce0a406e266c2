-- ===== src/Version/Manager/Invariant.antt =====
-- Every step keeps the manager well formed.
use risinglight.Prelude.{
  if◌then◌else◌, Bool, ℕ, zero, suc, ◌+◌, ◌≡◌, refl, ap, ◌∙◌, true, false, ◌==◌, ◌&&◌, not, ◌-◌,
  checked_sub-fits, none, some, List, [], ◌∷◌, ◌++◌, All, All-mono, ok, panic, if◌then◌else◌, arith,
  inl, inr, Bool-cases, unwrap_or,
}
use risinglight.Prelude.Map.{lookup, insert, remove}
use risinglight.Version.Snapshot.{Snapshot}
use risinglight.Version.Manager.{
  VersionManagerInner, Version, Commit, end_commit, pin, unpin, notify,
}
use risinglight.Version.Manager.ApplyRowSet.{own}
use risinglight.Version.Manager.Guarded.{Ids, Guarded, AreDeletions}
use risinglight.Version.Manager.System.{Removed, count}

-- Snapshots are dropped from those in use, or are there twice.
abbrev pub IsSub : List Version → List Version → Type 1
IsSub vs ws = (P : Version → Type 0) → All P vs → All P ws

module _ {Rowset Dv : Type 0} where
  pub Guarded-IsSub :
      (inner : VersionManagerInner Rowset Dv) (used : Ids) (vs ws : List Version)
      → IsSub vs ws
      → Guarded inner used vs
      → Guarded inner used ws
  Guarded-IsSub inner used vs ws sub g = record {
    live = sub _ g.live;
    known = sub _ g.known;
    bound = sub _ g.bound;
    gone =
        All-mono (λ e h. (h.0, All-mono (λ d i. (i.0, sub _ i.1)) e.1 h.1))
          inner.rowset_deletion_to_apply g.gone;
  }

module _ {Rowset Dv : Type 0} where
  pub Guarded-ref_cnt :
      (inner : VersionManagerInner Rowset Dv) (used : Ids) (vs : List Version) (m : List (ℕ × ℕ))
      → Guarded inner used vs
      → Guarded (record inner { ref_cnt = m }) used vs
  Guarded-ref_cnt inner used vs m g = record {
    live = g.live;
    known = g.known;
    bound = g.bound;
    gone = g.gone;
  }

pub IsSub-append : (before vs ws : List Version) → IsSub vs ws → IsSub (before ++ vs) (before ++ ws)
IsSub-append [] vs ws sub P h = sub P h
IsSub-append (v ∷ before) vs ws sub P h = (h.0, IsSub-append before vs ws sub P h.1)

All-insert :
    {V : Type 0} (P : ℕ × V → Type 0) (k : ℕ) (v : V) (m : List (ℕ × V))
    → P (k, v)
    → All P m
    → All P (insert k v m)
All-insert P k v [] p h = (p, tt)
All-insert P k v ((j, w) ∷ m) p h = elim (Bool-cases (k == j)) [
  | inl same ↦ rw same (p, h.1)
  | inr other ↦ rw other (h.0, All-insert P k v m p h.1)
]

pub All-Removed :
    (P : Version → Type 0) {v : Version} {vs ws : List Version}
    → Removed v vs ws
    → All P vs
    → All P ws × P v
All-Removed P Removed.here h = (h.1, h.0)
All-Removed P (Removed.there r) h = let (rest, p) = All-Removed P r h.1 in ((h.0, rest), p)

pub count-Removed :
    {v : Version} {vs ws : List Version} (e : ℕ)
    → Removed v vs ws
    → count e vs ≡ (if e == v.epoch then suc (count e ws) else count e ws)
count-Removed e Removed.here = refl
count-Removed {v} e (Removed.there {w} {vs} {ws} r) =
    let rest = count-Removed e r in
    elim (Bool-cases (e == w.epoch)) [
      | inl this ↦ elim (Bool-cases (e == v.epoch)) [
        | inl that ↦ rw (this, that) (ap suc (rest ∙ rw that refl))
        | inr other ↦ rw (this, other) (ap suc (rest ∙ rw other refl))
      ]
      | inr not_this ↦ rw not_this rest
    ]

module _ {Create Drop Rowset Dv : Type 0} where
  -- The commit's second half, where the epoch is the one it began with.
  abbrev pub committed :
      Commit Create Drop → VersionManagerInner Rowset Dv → VersionManagerInner Rowset Dv
  committed c inner = record inner {
    epoch = inner.epoch + 1;
    status = insert (inner.epoch + 1) c.snapshot inner.status;
    rowset_deletion_to_apply = insert (inner.epoch + 1) c.deletions inner.rowset_deletion_to_apply;
  }

  pub end_commit-ok :
      (c : Commit Create Drop) (inner : VersionManagerInner Rowset Dv)
      → c.current_epoch ≡ inner.epoch
      → end_commit c inner ≡ ok (committed c inner, inner.epoch + 1)
  unfolding end_commit
  end_commit-ok c inner e =
      let same : (inner.epoch == c.current_epoch) ≡ true = ground arith in rw same refl

  pub committed-Guarded :
      (c : Commit Create Drop) (inner : VersionManagerInner Rowset Dv) (used : Ids) (cur : Snapshot)
      (pins : List Version)
      → AreDeletions used c
      → Guarded inner used (own inner.epoch c.snapshot ∷ own inner.epoch cur ∷ pins)
      → Guarded (committed c inner) used (own (inner.epoch + 1) c.snapshot ∷ pins)
  committed-Guarded c inner used cur pins dels g = record {
    live = (g.live.0, g.live.1.1);
    known = (g.known.0, g.known.1.1);
    bound = (omega arith, All-mono (λ v h. omega arith) pins g.bound.1.1);
    gone =
        All-insert _ (inner.epoch + 1) c.deletions inner.rowset_deletion_to_apply
          (
            omega arith,
            All-mono
                (λ d i. (
                  i.0,
                  ((λ below. i.1), All-mono (λ v h below. absurd (omega arith)) pins g.bound.1.1),
                ))
                c.deletions dels,
          )
          (All-mono
            (λ e h. (
              omega (arith, h.0),
              All-mono (λ d i. (i.0, ((λ below. i.1.0 h.0), i.1.1.1))) e.1 h.1,
            ))
            inner.rowset_deletion_to_apply g.gone);
  }

-- The reference counts after one version is dropped.
abbrev pub dropped : ℕ → ℕ → List (ℕ × ℕ) → List (ℕ × ℕ)
dropped epoch zero m = remove epoch m
dropped epoch (suc n) m = insert epoch (suc n) m

module _ {Rowset Dv : Type 0} where
  pub pin-ok :
      (inner : VersionManagerInner Rowset Dv) (snapshot : Snapshot)
      → lookup inner.epoch inner.status ≡ some snapshot
      → pin inner
        ≡ ok (
          record inner {
            ref_cnt =
                insert inner.epoch
                  (unwrap_or 0 (lookup inner.epoch inner.ref_cnt) + 1)
                  inner.ref_cnt;
          },
          own inner.epoch snapshot,
        )
  unfolding pin
  pin-ok inner snapshot e = rw e refl

  pub pin-none :
      (inner : VersionManagerInner Rowset Dv)
      → lookup inner.epoch inner.status ≡ none
      → pin inner ≡ panic
  unfolding pin
  pin-none inner e = rw e refl

  unpin-read :
      (listening : Bool) (v : Version) (inner : VersionManagerInner Rowset Dv) (n : ℕ)
      → lookup v.epoch inner.ref_cnt ≡ some (suc n)
      → unpin listening v inner
        ≡ ok (
            if n == 0
            then (
              record inner { ref_cnt = remove v.epoch inner.ref_cnt },
              if not (v.epoch == inner.epoch) then notify listening else ok false,
            )
            else (record inner { ref_cnt = insert v.epoch n inner.ref_cnt }, ok false))
  unfolding unpin
  unpin-read listening v inner n e =
      let left : suc n - 1 ≡ n = omega arith in
      rw (e, checked_sub-fits (suc n) 1 (omega arith), left) refl

  -- A version can always be dropped while its epoch is counted.
  pub unpin-ok :
      (listening : Bool) (v : Version) (inner : VersionManagerInner Rowset Dv) (n : ℕ)
      → lookup v.epoch inner.ref_cnt ≡ some (suc n)
      → unpin listening v inner
        ≡ ok (
          record inner { ref_cnt = dropped v.epoch n inner.ref_cnt },
          if (n == 0) && not (v.epoch == inner.epoch) then notify listening else ok false,
        )
  unpin-ok listening v inner zero e = unpin-read listening v inner zero e
  unpin-ok listening v inner (suc n) e =
      let more : (suc n == 0) ≡ false = ground arith in
      unpin-read listening v inner (suc n) e ∙ rw more refl
