-- ===== src/Version/Manager/System.antt =====
-- The version manager with its clients: the versions they hold, the commit under way, and the
-- steps by which they take turns.
use risinglight.Prelude.{
  ℕ, zero, suc, ◌≡◌, Bool, ◌==◌, Option, none, some, List, [], ◌∷◌, ◌++◌, ok, Result, Never,
  if◌then◌else◌,
}
use risinglight.Prelude.Map.{lookup}
use risinglight.Version.Manager.{
  VersionManagerInner, Version, Commit, EpochOp, current_snapshot, begin_commit, end_commit, pin,
  unpin, find_vacuum,
}
use risinglight.Version.Manager.ApplyRowSet.{own}
use risinglight.Version.Manager.Guarded.{Ids, Guarded, AreFresh, mark_all, AreDeletions}

module _ (Create Drop Rowset Dv : Type 0) where
  pub record System : Type 0 where
    pub inner : VersionManagerInner Rowset Dv
    pub pins : List Version
    -- The holder of the manifest's lock, between its two critical sections.
    pub pending : Option (Commit Create Drop)
    -- The ids of the rowsets that were ever added.
    pub used : Ids

-- Taking one version out of the list.
pub data Removed : Version → List Version → List Version → Type 0 where
  here : {v : Version} {vs : List Version} → Removed v (v ∷ vs) vs
  there : {v w : Version} {vs ws : List Version} → Removed v vs ws → Removed v (w ∷ vs) (w ∷ ws)

module _ {Create Drop Rowset Dv : Type 0} where
  -- One client at a time changes the inner state. A failed write of the manifest ends a commit
  -- after its first half, and a dropped version is gone also where its notification panics.
  pub data Step : System Create Drop Rowset Dv → System Create Drop Rowset Dv → Type 0 where
    begin :
        {s : System Create Drop Rowset Dv} {inner : VersionManagerInner Rowset Dv}
        {c : Commit Create Drop} (ops : List (EpochOp Create Drop Rowset Dv))
        → s.pending ≡ none
        → AreFresh s.used ops
        → begin_commit ops s.inner ≡ ok (inner, c)
        → Step s (record s { inner = inner; pending = some c; used = mark_all s.used ops })
    finish :
        {s : System Create Drop Rowset Dv} {inner : VersionManagerInner Rowset Dv}
        {c : Commit Create Drop} {epoch : ℕ}
        → s.pending ≡ some c
        → end_commit c s.inner ≡ ok (inner, epoch)
        → Step s (record s { inner = inner; pending = none })
    abort : {s : System Create Drop Rowset Dv} → Step s (record s { pending = none })
    take_pin :
        {s : System Create Drop Rowset Dv} {inner : VersionManagerInner Rowset Dv} {v : Version}
        → pin s.inner ≡ ok (inner, v)
        → Step s (record s { inner = inner; pins = v ∷ s.pins })
    drop_pin :
        {s : System Create Drop Rowset Dv} {inner : VersionManagerInner Rowset Dv} {v : Version}
        {pins : List Version} {sent : Result Never Bool} (listening : Bool)
        → Removed v s.pins pins
        → unpin listening v s.inner ≡ ok (inner, sent)
        → Step s (record s { inner = inner; pins = pins })
    vacuum :
        {s : System Create Drop Rowset Dv} {inner : VersionManagerInner Rowset Dv}
        {deletions : List (ℕ × ℕ)} (shared : ℕ → ℕ → Bool)
        → find_vacuum shared s.inner ≡ ok (inner, deletions)
        → Step s (record s { inner = inner })

  -- `VersionManager::new`
  abbrev pub initial : System Create Drop Rowset Dv
  initial = record {
    inner = record {
      status = [];
      rowsets = λ t r. none;
      dvs = λ t d. none;
      ref_cnt = [];
      rowset_deletion_to_apply = [];
      epoch = 0;
    };
    pins = [];
    pending = none;
    used = λ t r. Bool.false;
  }

  pub data Reachable : System Create Drop Rowset Dv → Type 0 where
    start : Reachable initial
    step : {s s' : System Create Drop Rowset Dv} → Reachable s → Step s s' → Reachable s'

-- How many hold a version of an epoch, and what the map of reference counts has for that.
abbrev pub count : ℕ → List Version → ℕ
count e [] = 0
count e (v ∷ vs) = if e == v.epoch then suc (count e vs) else count e vs

abbrev pub positive : ℕ → Option ℕ
positive zero = none
positive (suc n) = some (suc n)

-- What is known of the commit under way.
abbrev pub IsPending : {Create Drop : Type 0} → Ids → ℕ → Option (Commit Create Drop) → Type 0
IsPending used epoch none = Unit
IsPending used epoch (some c) = AreDeletions used c × (c.current_epoch ≡ epoch)

abbrev pub pending_versions :
    {Create Drop : Type 0} → ℕ → Option (Commit Create Drop) → List Version
pending_versions epoch none = []
pending_versions epoch (some c) = own epoch c.snapshot ∷ []

module _ {Create Drop Rowset Dv : Type 0} where
  -- The snapshots in use: the committer's, the current one, those that clients hold.
  abbrev pub versions : System Create Drop Rowset Dv → List Version
  versions s =
      pending_versions s.inner.epoch s.pending
      ++ own s.inner.epoch (current_snapshot s.inner) ∷ s.pins

  pub record WellFormed (s : System Create Drop Rowset Dv) : Type 0 where
    pub guarded : Guarded s.inner s.used (versions s)
    pub committer : IsPending s.used s.inner.epoch s.pending
    pub counts : (e : ℕ) → lookup e s.inner.ref_cnt ≡ positive (count e s.pins)
