-- ===== src/Version/Manager/ApplyRowSet.antt =====
-- Operations of a commit on row sets, and what the commit keeps.
use risinglight.Prelude.{
  Returns, is_some, ℕ, ◌≡◌, true, false, ◌||◌, List, [], ◌∷◌, ◌++◌, All-mono, All-append, ok, sym,
  ◌∙◌,
}
use risinglight.Version.Snapshot.{Snapshot, add_rowset, delete_rowset}
use risinglight.Version.Snapshot.Laws.{has_rowset, has_rowset-add_rowset}
use risinglight.Version.Manager.{
  VersionManagerInner, Version, Commit, Pool, EpochOp, same_id, pool_insert, ManifestOperation,
  AddRowSetEntry, apply_op,
}
use risinglight.Version.Manager.Guarded.{Ids, Known, Live, Guarded, mark, AreDeletions}
use risinglight.Version.Manager.Frames.{
  add_apart, remove_apart, remove_sub, pool_insert-is_some, or_right, or_mono, removed,
  add_rowset-has_dv, delete_rowset-has_dv,
}

-- The version that stands for the committer's snapshot.
abbrev pub own : ℕ → Snapshot → Version
own epoch s = record { epoch = epoch; snapshot = s }

module _ {Rowset Dv : Type 0} where
  -- A snapshot in use gives way to the next, over larger pools and more ids.
  pub replace_head :
      (inner : VersionManagerInner Rowset Dv) (epoch : ℕ) (rowsets : Pool Rowset) (dvs : Pool Dv)
      (used used' : Ids) (s s' : Snapshot) (versions : List Version)
      → ((t r : ℕ) → is_some (inner.rowsets t r) ≡ true → is_some (rowsets t r) ≡ true)
      → ((t d : ℕ) → is_some (inner.dvs t d) ≡ true → is_some (dvs t d) ≡ true)
      → ((t r : ℕ) → used t r ≡ true → used' t r ≡ true)
      → Live rowsets dvs s'
      → Known used' s'
      → ((t r : ℕ) → used t r ≡ true → has_rowset s t r ≡ false → has_rowset s' t r ≡ false)
      → Guarded inner used (own epoch s ∷ versions)
      → Guarded (record inner { rowsets = rowsets; dvs = dvs }) used' (own epoch s' ∷ versions)
  replace_head inner epoch rowsets dvs used used' s s' versions more_rowsets more_dvs more_used live
        known apart g =
      record {
        live = (
          live,
          All-mono
              (λ v h. record {
                live_rowset = λ t r p. more_rowsets t r (h.live_rowset t r p);
                live_dv = λ t r d p. more_dvs t d (h.live_dv t r d p);
              })
              versions g.live.1,
        );
        known = (known, All-mono (λ v h t r p. more_used t r (h t r p)) versions g.known.1);
        bound = g.bound;
        gone =
            All-mono
              (λ e h. (
                h.0,
                All-mono
                    (λ d i.
                      (more_used d.0 d.1 i.0, (λ below. apart d.0 d.1 i.0 (i.1.0 below), i.1.1)))
                    e.1 h.1,
              ))
              inner.rowset_deletion_to_apply g.gone;
      }

  -- Reaching the state after an operation, with all that the later ones rely on.
  pub record Reached {Create Drop : Type 0} (start inner : VersionManagerInner Rowset Dv)
      (used : Ids) (versions : List Version) (c : Commit Create Drop) : Type 0 where
    pub guarded : Guarded inner used (own start.epoch c.snapshot ∷ versions)
    pub deletions : AreDeletions used c
    pub same_epoch : inner.epoch ≡ start.epoch
    pub same_status : inner.status ≡ start.status
    pub same_ref_cnt : inner.ref_cnt ≡ start.ref_cnt
    pub same_base : c.current_epoch ≡ start.epoch

module _ {Create Drop Rowset Dv : Type 0} (start : VersionManagerInner Rowset Dv)
    (versions : List Version) where
  abbrev the_op : AddRowSetEntry → Rowset → EpochOp Create Drop Rowset Dv
  the_op entry rowset = EpochOp.add_row_set entry rowset

  pub add_row_set-Reached :
      (inner : VersionManagerInner Rowset Dv) (c : Commit Create Drop) (used : Ids)
      (entry : AddRowSetEntry) (rowset : Rowset)
      → used entry.table_id entry.rowset_id ≡ false
      → Reached start inner used versions c
      → Returns
          (λ x. Reached start x.0 (mark used (the_op entry rowset)) versions x.1)
          (apply_op (the_op entry rowset) (inner, c))
  unfolding apply_op
  add_row_set-Reached inner c used entry rowset fresh h =
      let t = entry.table_id in
      let r = entry.rowset_id in
      let more_used : (t' r' : ℕ) → used t' r' ≡ true → same_id t r t' r' || used t' r' ≡ true =
        λ t' r' p. or_right _ _ p in
      let more : (t' r' : ℕ)
          → is_some (inner.rowsets t' r') ≡ true
          → is_some (pool_insert t r rowset inner.rowsets t' r') ≡ true =
        λ t' r' p. pool_insert-is_some inner.rowsets t r rowset t' r' ∙ or_right _ _ p in
      record {
        guarded =
            replace_head inner start.epoch (pool_insert t r rowset inner.rowsets) inner.dvs used _
              c.snapshot (add_rowset c.snapshot t r) versions more (λ t' d p. p) more_used
              (record {
                live_rowset = λ t' r' p.
                    pool_insert-is_some inner.rowsets t r rowset t' r'
                    ∙ or_mono _ _ _ (h.guarded.live.0.live_rowset t' r')
                        (sym (has_rowset-add_rowset c.snapshot t r t' r') ∙ p);
                live_dv = λ t' r' d p.
                    h.guarded.live.0.live_dv t' r' d
                      (sym (add_rowset-has_dv c.snapshot t r t' r' d) ∙ p);
              })
              (λ t' r' p.
                or_mono _ _ _ (h.guarded.known.0 t' r')
                  (sym (has_rowset-add_rowset c.snapshot t r t' r') ∙ p))
              (add_apart used c.snapshot t r fresh) h.guarded;
        deletions =
            All-mono
              (λ d p. (more_used d.0 d.1 p.0, add_apart used c.snapshot t r fresh d.0 d.1 p.0 p.1))
              c.deletions h.deletions;
        same_epoch = h.same_epoch;
        same_status = h.same_status;
        same_ref_cnt = h.same_ref_cnt;
        same_base = h.same_base;
      }

  pub delete_row_set-Reached :
      (inner : VersionManagerInner Rowset Dv) (c : Commit Create Drop) (used : Ids) (t r : ℕ)
      (s' : Snapshot) (entries : List (ManifestOperation Create Drop))
      → used t r ≡ true
      → delete_rowset c.snapshot t r ≡ ok s'
      → Reached start inner used versions c
      → Reached start inner used versions
          (record c { snapshot = s'; entries = entries; deletions = c.deletions ++ (t, r) ∷ [] })
  delete_row_set-Reached inner c used t r s' entries old e h = record {
    guarded =
        replace_head inner start.epoch inner.rowsets inner.dvs used used c.snapshot s' versions
          (λ t' r' p. p) (λ t' d p. p) (λ t' r' p. p)
          (record {
            live_rowset = λ t' r' p.
                h.guarded.live.0.live_rowset t' r' (remove_sub c.snapshot t r s' e t' r' p);
            live_dv = λ t' r' d p.
                h.guarded.live.0.live_dv t' r' d
                  (sym (delete_rowset-has_dv c.snapshot t r s' e t' r' d) ∙ p);
          })
          (λ t' r' p. h.guarded.known.0 t' r' (remove_sub c.snapshot t r s' e t' r' p))
          (λ t' r' p. remove_apart c.snapshot t r s' e t' r') h.guarded;
    deletions =
        All-append _ c.deletions ((t, r) ∷ [])
          (All-mono (λ d p. (p.0, remove_apart c.snapshot t r s' e d.0 d.1 p.1)) c.deletions
            h.deletions)
          ((old, removed c.snapshot t r s' e), tt);
    same_epoch = h.same_epoch;
    same_status = h.same_status;
    same_ref_cnt = h.same_ref_cnt;
    same_base = h.same_base;
  }
