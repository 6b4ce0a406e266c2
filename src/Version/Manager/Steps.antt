-- ===== src/Version/Manager/Steps.antt =====
-- Every reachable state of the manager is well formed.
use risinglight.Prelude.{
  Result, Never, Bool, Returns, Returns-ok, ℕ, suc, ◌+◌, ◌≤◌, min, ◌≡◌, refl, sym, ap, ◌∙◌, subst,
  Bool, true, ◌==◌, none, some, List, ◌∷◌, All, All-mono, ok, arith, inl, inr, Option-cases,
  unwrap_or, ok-injective,
}
use risinglight.Prelude.Map.{lookup, insert, lookup-insert}
use risinglight.Version.Snapshot.{default}
use risinglight.Version.Manager.{
  VersionManagerInner, Version, Commit, EpochOp, current_snapshot, begin_commit, end_commit, pin,
  unpin, find_vacuum, min_key,
}
use risinglight.Version.Manager.ApplyRowSet.{own, Reached}
use risinglight.Version.Manager.Apply.{apply_ops-Reached}
use risinglight.Version.Manager.Guarded.{Ids, Guarded, AreFresh, mark_all}
use risinglight.Version.Manager.Vacuum.{find_vacuum-Guarded}
use risinglight.Version.Manager.System.{
  System, Step, Removed, Reachable, count, positive, versions, pending_versions, IsPending,
  WellFormed,
}
use risinglight.Version.Manager.Invariant.{
  IsSub-append, Guarded-IsSub, Guarded-ref_cnt, All-Removed, count-Removed, committed,
  committed-Guarded, end_commit-ok, pin-ok, pin-none, unpin-ok,
}
use risinglight.Version.Manager.Counts.{
  counts-insert, counts-dropped, pins_counted, pinned_low, pending_low, no_rowsets, no_dvs,
}

module _ {Create Drop Rowset Dv : Type 0} where
  -- What a commit under way leaves out of sight.
  pub without_pending :
      (s : System Create Drop Rowset Dv)
      → Guarded s.inner s.used (versions s)
      → Guarded s.inner s.used (own s.inner.epoch (current_snapshot s.inner) ∷ s.pins)
  without_pending s g = elim (Option-cases s.pending) [
    | inl idle ↦ rw idle at g
    | inr (c, busy) ↦ Guarded-IsSub s.inner s.used _ _ (λ P h. h.1) (rw busy at g)
  ]

  begin_commit-Reached :
      (start : VersionManagerInner Rowset Dv) (used : Ids) (pins : List Version)
      (ops : List (EpochOp Create Drop Rowset Dv))
      → AreFresh used ops
      → Guarded start used (own start.epoch (current_snapshot start) ∷ pins)
      → Returns
          (λ x.
            Reached start x.0
              (mark_all used ops)
              (own start.epoch (current_snapshot start) ∷ pins)
              x.1)
          (begin_commit ops start)
  unfolding begin_commit
  begin_commit-Reached start used pins ops fresh g =
      apply_ops-Reached start _ ops start _ used fresh (record {
        guarded = Guarded-IsSub start used _ _ (λ P h. (h.0, h)) g;
        deletions = tt;
        same_epoch = refl;
        same_status = refl;
        same_ref_cnt = refl;
        same_base = refl;
      })

  begin-WellFormed :
      (s : System Create Drop Rowset Dv) (inner : VersionManagerInner Rowset Dv)
      (c : Commit Create Drop) (ops : List (EpochOp Create Drop Rowset Dv))
      → AreFresh s.used ops
      → begin_commit ops s.inner ≡ ok (inner, c)
      → WellFormed s
      → WellFormed (record s { inner = inner; pending = some c; used = mark_all s.used ops })
  begin-WellFormed s inner c ops fresh e w =
      let reached =
        Returns-ok _ _ (inner, c) e
          (begin_commit-Reached s.inner s.used s.pins ops fresh (without_pending s w.guarded)) in
      let cur : current_snapshot inner ≡ current_snapshot s.inner =
        rw (reached.same_epoch, reached.same_status) refl in
      record {
        guarded =
            subst (Guarded inner (mark_all s.used ops)) (rw (cur, reached.same_epoch) refl)
              reached.guarded;
        committer = (reached.deletions, reached.same_base ∙ sym reached.same_epoch);
        counts = λ n. rw reached.same_ref_cnt (w.counts n);
      }

  current-committed :
      (c : Commit Create Drop) (inner : VersionManagerInner Rowset Dv)
      → current_snapshot (committed c inner) ≡ c.snapshot
  current-committed c inner =
      let found : lookup (inner.epoch + 1) (insert (inner.epoch + 1) c.snapshot inner.status)
          ≡ some c.snapshot =
        lookup-insert (inner.epoch + 1) c.snapshot inner.status (inner.epoch + 1) ∙ ground arith in
      ap (unwrap_or default) found

  finish-WellFormed :
      (s : System Create Drop Rowset Dv) (inner : VersionManagerInner Rowset Dv)
      (c : Commit Create Drop) (epoch : ℕ)
      → s.pending ≡ some c
      → end_commit c s.inner ≡ ok (inner, epoch)
      → WellFormed s
      → WellFormed (record s { inner = inner; pending = none })
  finish-WellFormed s inner c epoch busy e w =
      let (dels, base) = rw busy at w.committer in
      let same : committed c s.inner ≡ inner =
        ap (λ x. x.0) (ok-injective (sym (end_commit-ok c s.inner base) ∙ e)) in
      subst (λ i. WellFormed (record s { inner = i; pending = none })) same
        (record {
          guarded =
              subst (Guarded (committed c s.inner) s.used)
                (ap (λ x. own (s.inner.epoch + 1) x ∷ s.pins) (sym (current-committed c s.inner)))
                (committed-Guarded c s.inner s.used (current_snapshot s.inner) s.pins dels
                  (rw busy at w.guarded));
          committer = tt;
          counts = w.counts;
        })

  pin-WellFormed :
      (s : System Create Drop Rowset Dv) (inner : VersionManagerInner Rowset Dv) (v : Version)
      → pin s.inner ≡ ok (inner, v)
      → WellFormed s
      → WellFormed (record s { inner = inner; pins = v ∷ s.pins })
  pin-WellFormed s inner v e w = elim (Option-cases (lookup s.inner.epoch s.inner.status)) [
    | inl missing ↦ ground (arith, sym (pin-none s.inner missing) ∙ e)
    | inr (snapshot, found) ↦
        let cur : current_snapshot s.inner ≡ snapshot = ap (unwrap_or default) found in
        subst (λ x. WellFormed (record s { inner = x.0; pins = x.1 ∷ s.pins }))
          (ok-injective (sym (pin-ok s.inner snapshot found) ∙ e))
          (record {
            guarded = Guarded-ref_cnt s.inner s.used _ _ (
                Guarded-IsSub s.inner s.used _ _
                  (IsSub-append (pending_versions s.inner.epoch s.pending) _ _
                    (λ P h. (h.0, (subst (λ x. P (own s.inner.epoch x)) cur h.0, h.1))))
                  w.guarded);
            committer = w.committer;
            counts = counts-insert s.inner.ref_cnt (own s.inner.epoch snapshot) s.pins w.counts;
          })
  ]

  unpin-WellFormed :
      (s : System Create Drop Rowset Dv) (inner : VersionManagerInner Rowset Dv) (v : Version)
      (pins : List Version) (listening : Bool) (sent : Result Never Bool)
      → Removed v s.pins pins
      → unpin listening v s.inner ≡ ok (inner, sent)
      → WellFormed s
      → WellFormed (record s { inner = inner; pins = pins })
  unpin-WellFormed s inner v pins listening sent r e w =
      let n = count v.epoch pins in
      let one_more : count v.epoch s.pins ≡ suc n =
        count-Removed v.epoch r
        ∙ (let self : (v.epoch == v.epoch) ≡ true = ground arith in rw self refl) in
      let counted : lookup v.epoch s.inner.ref_cnt ≡ some (suc n) =
        w.counts v.epoch ∙ ap positive one_more in
      subst (λ x. WellFormed (record s { inner = x.0; pins = pins }))
        (ok-injective (sym (unpin-ok listening v s.inner n counted) ∙ e))
        (record {
          guarded = Guarded-ref_cnt s.inner s.used _ _ (
              Guarded-IsSub s.inner s.used _ _
                (IsSub-append (pending_versions s.inner.epoch s.pending) _ _
                  (λ P h. (h.0, (All-Removed P r h.1).0)))
                w.guarded);
          committer = w.committer;
          counts = counts-dropped s.inner.ref_cnt v s.pins pins n r refl w.counts;
        })

  vacuum-WellFormed :
      (s : System Create Drop Rowset Dv) (inner : VersionManagerInner Rowset Dv)
      (deletions : List (ℕ × ℕ)) (shared : ℕ → ℕ → Bool)
      → find_vacuum shared s.inner ≡ ok (inner, deletions)
      → WellFormed s
      → WellFormed (record s { inner = inner })
  vacuum-WellFormed s inner deletions shared e w =
      let low : All
          (λ v. min (unwrap_or s.inner.epoch (min_key s.inner.ref_cnt)) s.inner.epoch ≤ v.epoch)
          (versions s) =
        pending_low s.inner.epoch s.pending _ _ (
          omega arith,
          All-mono (λ v h. pinned_low s.inner.ref_cnt s.inner.epoch v _ (w.counts v.epoch) h) s.pins
              (pins_counted s.pins),
        ) in
      let left =
        Returns-ok _ _ (inner, deletions) e
          (find_vacuum-Guarded shared s.inner s.used (versions s) low w.guarded) in
      let cur : current_snapshot inner ≡ current_snapshot s.inner =
        rw (left.same_epoch, left.same_status) refl in
      record {
        guarded = subst (Guarded inner s.used) (rw (cur, left.same_epoch) refl) left.guarded;
        committer = subst (λ n. IsPending s.used n s.pending) (sym left.same_epoch) w.committer;
        counts = λ n. rw left.same_ref_cnt (w.counts n);
      }

  step-WellFormed : (s s' : System Create Drop Rowset Dv) → Step s s' → WellFormed s → WellFormed s'
  step-WellFormed s s' (Step.begin {inner} {c} ops idle fresh e) w =
      begin-WellFormed s inner c ops fresh e w
  step-WellFormed s s' (Step.finish {inner} {c} {epoch} busy e) w =
      finish-WellFormed s inner c epoch busy e w
  step-WellFormed s s' Step.abort w = record {
    guarded = without_pending s w.guarded;
    committer = tt;
    counts = w.counts;
  }
  step-WellFormed s s' (Step.take_pin {inner} {v} e) w = pin-WellFormed s inner v e w
  step-WellFormed s s' (Step.drop_pin {inner} {v} {pins} {sent} listening r e) w =
      unpin-WellFormed s inner v pins listening sent r e w
  step-WellFormed s s' (Step.vacuum {inner} {deletions} shared e) w =
      vacuum-WellFormed s inner deletions shared e w

  -- Every state that the manager and its clients can reach is well formed.
  pub Reachable-WellFormed : (s : System Create Drop Rowset Dv) → Reachable s → WellFormed s
  Reachable-WellFormed s Reachable.start = record {
    guarded = record {
      live = (
        record {
          live_rowset = λ t r h. absurd (no_rowsets t r h);
          live_dv = λ t r d h. absurd (no_dvs t r d h);
        },
        tt,
      );
      known = ((λ t r h. absurd (no_rowsets t r h)), tt);
      bound = (omega arith, tt);
      gone = tt;
    };
    committer = tt;
    counts = λ e. refl;
  }
  Reachable-WellFormed s (Reachable.step {s = s1} before st) =
      step-WellFormed s1 s st (Reachable-WellFormed s1 before)
