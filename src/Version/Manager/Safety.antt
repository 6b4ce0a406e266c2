-- ===== src/Version/Manager/Safety.antt =====
-- What the clients of the manager can rely on in every reachable state.
use mathlib.Core.Bool.{true≢false}
use risinglight.Prelude.{
  not, ◌&&◌, if◌then◌else◌, Returns, Returns-bind, Returns-ok, Returns-any, is_some, ℕ, suc, ◌+◌,
  ◌≤◌, ◌<◌, min, ◌≡◌, refl, sym, ap, ◌∙◌, subst, Bool, true, false, ◌==◌, Option, none, some, List,
  [], ◌∷◌, All, All-mono, ok, arith, inl, inr, Bool-cases, Option-cases, unwrap_or,
}
use risinglight.Version.Snapshot.Laws.{has_rowset, has_dv}
use risinglight.Version.Manager.{
  VersionManagerInner, Version, Commit, Pool, current_snapshot, end_commit, unpin, find_vacuum,
  min_key, applied, retained, get_rowset, get_dv, notify, remove_rowsets, pool_remove,
}
use risinglight.Version.Manager.ApplyRowSet.{own}
use risinglight.Version.Manager.Guarded.{Gone}
use risinglight.Version.Manager.Vacuum.{
  applied-Gone, All-swap, remove_rowsets-logged, remove_rowsets-free,
}
use risinglight.Version.Manager.System.{System, Removed, Reachable, count, positive}
use risinglight.Version.Manager.Invariant.{
  All-Removed, count-Removed, committed, end_commit-ok, unpin-ok,
}
use risinglight.Version.Manager.Counts.{pins_counted, pinned_low}
use risinglight.Version.Manager.Steps.{Reachable-WellFormed, without_pending}

is_some-value : {V : Type 0} (o : Option V) → is_some o ≡ true → (v : V) × (o ≡ some v)
is_some-value none h = absurd (true≢false (sym h))
is_some-value (some v) h = (v, refl)

remove_rowsets-nil :
    {Rowset : Type 0} (shared : ℕ → ℕ → Bool) (pool : Pool Rowset)
    → remove_rowsets shared [] pool ≡ ok pool
unfolding remove_rowsets
remove_rowsets-nil shared pool = refl

-- A list has what every predicate on all its elements holds of.
All-each :
    {A : Type 0} (P : A → Type 0) (xs : List A)
    → ((x : A) → ((Q : A → Type 0) → All Q xs → Q x) → P x)
    → All P xs
All-each P [] f = tt
All-each P (x ∷ xs) f = (f x (λ Q h. h.0), All-each P xs (λ y inside. f y (λ Q h. inside Q h.1)))

module _ {Rowset Dv : Type 0} (inner : VersionManagerInner Rowset Dv) (t i : ℕ) where
  get_rowset-there :
      is_some (inner.rowsets t i) ≡ true → (rowset : Rowset) × (get_rowset inner t i ≡ ok rowset)
  unfolding get_rowset
  get_rowset-there h = let (rowset, e) = is_some-value (inner.rowsets t i) h in (rowset, rw e refl)

  get_dv-there : is_some (inner.dvs t i) ≡ true → (dv : Dv) × (get_dv inner t i ≡ ok dv)
  unfolding get_dv
  get_dv-there h = let (dv, e) = is_some-value (inner.dvs t i) h in (dv, rw e refl)

module _ {Rowset Dv : Type 0} (inner : VersionManagerInner Rowset Dv) where
  abbrev pub horizon : ℕ
  horizon = unwrap_or inner.epoch (min_key inner.ref_cnt)

  abbrev pub due : List (ℕ × ℕ)
  due = applied horizon inner.rowset_deletion_to_apply

  find_vacuum-ok :
      (shared : ℕ → ℕ → Bool) (pool : Pool Rowset)
      → remove_rowsets shared due inner.rowsets ≡ ok pool
      → find_vacuum shared inner
        ≡ ok (
          record inner {
            rowsets = pool;
            rowset_deletion_to_apply = retained horizon inner.rowset_deletion_to_apply;
          },
          due,
        )
  unfolding find_vacuum
  find_vacuum-ok shared pool e = rw e refl

  find_vacuum-due : (shared : ℕ → ℕ → Bool) → Returns (λ x. due ≡ x.1) (find_vacuum shared inner)
  unfolding find_vacuum
  find_vacuum-due shared =
      Returns-bind (λ pool. Unit {0}) (λ x. due ≡ x.1) (remove_rowsets shared due inner.rowsets) _
        (Returns-any (remove_rowsets shared due inner.rowsets)) (λ pool h. refl)

-- A vacuum never deletes what someone holds.
remove_rowsets-total :
    {Rowset : Type 0} (shared : ℕ → ℕ → Bool) (ds : List (ℕ × ℕ)) (pool : Pool Rowset)
    → All (λ d. shared d.0 d.1 ≡ false) ds
    → (pool' : Pool Rowset) × (remove_rowsets shared ds pool ≡ ok pool')
remove_rowsets-total shared [] pool h = (pool, remove_rowsets-nil shared pool)
remove_rowsets-total shared ((t, r) ∷ ds) pool h = elim (Option-cases (pool t r)) [
  | inl gone ↦
      let (pool', e) = remove_rowsets-total shared ds pool h.1 in
      (pool', remove_rowsets-logged shared t r ds pool gone ∙ e)
  | inr (rowset, there) ↦
      let (pool', e) = remove_rowsets-total shared ds (pool_remove t r pool) h.1 in
      (pool', remove_rowsets-free shared t r ds pool there h.0 ∙ e)
]

module _ {Create Drop Rowset Dv : Type 0} (s : System Create Drop Rowset Dv)
    (reached : Reachable s) where
  -- Every rowset that a client's version names is still there, whatever commits, ends of other
  -- versions and vacuums came since: `get_rowset` does not panic.
  pub get_rowset-pinned :
      (v : Version) (others : List Version) (t r : ℕ)
      → Removed v s.pins others
      → has_rowset v.snapshot t r ≡ true
      → (rowset : Rowset) × (get_rowset s.inner t r ≡ ok rowset)
  get_rowset-pinned v others t r held there =
      let g = without_pending s (Reachable-WellFormed s reached).guarded in
      get_rowset-there s.inner t r ((All-Removed _ held g.live.1).1.live_rowset t r there)

  -- Every delete vector that a client's version names is still there: `get_dv` does not panic.
  pub get_dv-pinned :
      (v : Version) (others : List Version) (t r d : ℕ)
      → Removed v s.pins others
      → has_dv v.snapshot t r d ≡ true
      → (dv : Dv) × (get_dv s.inner t d ≡ ok dv)
  get_dv-pinned v others t r d held there =
      let g = without_pending s (Reachable-WellFormed s reached).guarded in
      get_dv-there s.inner t d ((All-Removed _ held g.live.1).1.live_dv t r d there)

  -- The versions of the clients and the current one.
  abbrev in_use : List Version
  in_use = own s.inner.epoch (current_snapshot s.inner) ∷ s.pins

  abbrev DueGone : Version → Type 0
  DueGone v =
      All (λ d. min (horizon s.inner) s.inner.epoch ≤ v.epoch → Gone v.snapshot d) (due s.inner)

  due-DueGone : All DueGone in_use
  due-DueGone =
      All-swap
        (λ d (v : Version). min (horizon s.inner) s.inner.epoch ≤ v.epoch → Gone v.snapshot d)
        (due s.inner) in_use
        (applied-Gone s.used in_use s.inner.epoch (horizon s.inner) s.inner.rowset_deletion_to_apply
          (without_pending s (Reachable-WellFormed s reached).guarded).gone)

  late :
      (v : Version)
      → min (horizon s.inner) s.inner.epoch ≤ v.epoch
      → DueGone v
      → All (Gone v.snapshot) (due s.inner)
  late v low gone =
      All-mono (λ d (f : min (horizon s.inner) s.inner.epoch ≤ v.epoch → Gone v.snapshot d). f low)
        (due s.inner) gone

  -- No version of a client names a rowset that is due.
  pins-Gone : All (λ v. All (Gone v.snapshot) (due s.inner)) s.pins
  pins-Gone =
      All-each (λ v. All (Gone v.snapshot) (due s.inner)) s.pins
        (λ v inside.
          late v
            (pinned_low s.inner.ref_cnt s.inner.epoch v _
              ((Reachable-WellFormed s reached).counts v.epoch)
              (inside (λ v. 0 < count v.epoch s.pins) (pins_counted s.pins)))
            (inside DueGone due-DueGone.1))

  -- What the vacuum returns, and what `do_vacuum` then removes from disk, is neither in the current
  -- snapshot nor in any version that a client holds.
  pub vacuumed-Gone :
      (shared : ℕ → ℕ → Bool) (inner : VersionManagerInner Rowset Dv) (deletions : List (ℕ × ℕ))
      → find_vacuum shared s.inner ≡ ok (inner, deletions)
      → All (Gone (current_snapshot s.inner)) deletions
        × All (λ v. All (Gone v.snapshot) deletions) s.pins
  vacuumed-Gone shared inner deletions e =
      let same : due s.inner ≡ deletions =
        Returns-ok _ _ (inner, deletions) e (find_vacuum-due s.inner shared) in
      (
        subst (All (Gone (current_snapshot s.inner))) same
            (late (own s.inner.epoch (current_snapshot s.inner)) (omega arith) due-DueGone.0),
        subst (λ (ds : List (ℕ × ℕ)). All (λ v. All (Gone v.snapshot) ds) s.pins) same pins-Gone,
      )

  -- The vacuum does not panic where the objects that others hold are of rowsets in their versions.
  pub find_vacuum-total :
      (shared : ℕ → ℕ → Bool)
      → ((t r : ℕ)
          → shared t r ≡ true
          → (v : Version) × (others : List Version) × Removed v s.pins others
            × (has_rowset v.snapshot t r ≡ true))
      → (after : VersionManagerInner Rowset Dv) × (find_vacuum shared s.inner
          ≡ ok (after, due s.inner))
  find_vacuum-total shared owners =
      let unshared : All (λ d. shared d.0 d.1 ≡ false) (due s.inner) =
        All-each (λ d. shared d.0 d.1 ≡ false) (due s.inner)
          (λ d inside. elim (Bool-cases (shared d.0 d.1)) [
            | inr free ↦ free
            | inl held ↦
                let (v, others, pinned, there) = owners d.0 d.1 held in
                absurd (
                  true≢false (
                    sym there
                    ∙ inside (Gone v.snapshot)
                        (All-Removed (λ v. All (Gone v.snapshot) (due s.inner)) pinned
                          pins-Gone).1))
          ]) in
      let (pool, e) = remove_rowsets-total shared (due s.inner) s.inner.rowsets unshared in
      (_, find_vacuum-ok s.inner shared pool e)

  -- A version that a client holds is counted, so dropping it ends its count. It panics exactly if it is
  -- the last version of its epoch, the epoch is not the current one, and nobody receives the
  -- notifications for the vacuum any more.
  pub unpin-total :
      (listening : Bool) (v : Version) (others : List Version)
      → Removed v s.pins others
      → (after : VersionManagerInner Rowset Dv) × (unpin listening v s.inner
          ≡ ok (
            after,
            if (count v.epoch others == 0) && not (v.epoch == s.inner.epoch)
                then notify listening
                else ok false,
          ))
  unpin-total listening v others held =
      let one_more : count v.epoch s.pins ≡ suc (count v.epoch others) =
        count-Removed v.epoch held
        ∙ (let self : (v.epoch == v.epoch) ≡ true = ground arith in rw self refl) in
      (
        _,
        unpin-ok listening v s.inner (count v.epoch others)
            ((Reachable-WellFormed s reached).counts v.epoch ∙ ap positive one_more),
      )

  -- The second half of a commit does not fail its assertion that no other commit came between.
  pub end_commit-total :
      (c : Commit Create Drop)
      → s.pending ≡ some c
      → end_commit c s.inner ≡ ok (committed c s.inner, s.inner.epoch + 1)
  end_commit-total c busy =
      end_commit-ok c s.inner (rw busy at (Reachable-WellFormed s reached).committer).1
