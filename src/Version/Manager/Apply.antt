-- ===== src/Version/Manager/Apply.antt =====
-- The operations of a commit keep the snapshots in use safe, the committer's own among them.
use risinglight.Prelude.{
  Returns, Returns-bind, Returns-self, ℕ, ◌≡◌, List, [], ◌∷◌, All-mono, ok, sym, ◌∙◌, ◌==◌,
}
use risinglight.Version.Snapshot.{
  Snapshot, delete_rowset, add_dv as add_dv_to, delete_dv as delete_dv_from,
}
use risinglight.Version.Snapshot.Laws.{has_dv-add_dv, has_dv-delete_dv}
use risinglight.Version.Manager.{
  VersionManagerInner, Version, Commit, EpochOp, pool_insert, ManifestOperation, apply_op,
  apply_ops,
}
use risinglight.Version.Manager.Guarded.{Ids, IsFresh, mark, AreFresh, mark_all}
use risinglight.Version.Manager.Frames.{
  and_true_right, pool_insert-is_some, or_right, dv_mono, add_dv-has_rowset, delete_dv-has_rowset,
}
use risinglight.Version.Manager.ApplyRowSet.{
  replace_head, Reached, add_row_set-Reached, delete_row_set-Reached,
}

module _ {Create Drop Rowset Dv : Type 0} (start : VersionManagerInner Rowset Dv)
    (versions : List Version) where
  add_dv-Reached :
      (inner : VersionManagerInner Rowset Dv) (c : Commit Create Drop) (used : Ids) (t r d : ℕ)
      (dv : Dv) (entries : List (ManifestOperation Create Drop))
      → Reached start inner used versions c
      → Reached start
          (record inner { dvs = pool_insert t d dv inner.dvs })
          used
          versions
          (record c { snapshot = add_dv_to c.snapshot t r d; entries = entries })
  add_dv-Reached inner c used t r d dv entries h = record {
    guarded =
        replace_head inner start.epoch inner.rowsets (pool_insert t d dv inner.dvs) used used
          c.snapshot (add_dv_to c.snapshot t r d) versions (λ t' r' p. p)
          (λ t' d' p. pool_insert-is_some inner.dvs t d dv t' d' ∙ or_right _ _ p) (λ t' r' p. p)
          (record {
            live_rowset = λ t' r' p.
                h.guarded.live.0.live_rowset t' r'
                  (sym (add_dv-has_rowset c.snapshot t r d t' r') ∙ p);
            live_dv = λ t' r' d' p.
                pool_insert-is_some inner.dvs t d dv t' d'
                ∙ dv_mono (t' == t) (r' == r) (d' == d) _ _ (h.guarded.live.0.live_dv t' r' d')
                    (sym (has_dv-add_dv c.snapshot t r d t' r' d') ∙ p);
          })
          (λ t' r' p. h.guarded.known.0 t' r' (sym (add_dv-has_rowset c.snapshot t r d t' r') ∙ p))
          (λ t' r' p q. add_dv-has_rowset c.snapshot t r d t' r' ∙ q) h.guarded;
    deletions =
        All-mono (λ i p. (p.0, add_dv-has_rowset c.snapshot t r d i.0 i.1 ∙ p.1)) c.deletions
          h.deletions;
    same_epoch = h.same_epoch;
    same_status = h.same_status;
    same_ref_cnt = h.same_ref_cnt;
    same_base = h.same_base;
  }

  delete_dv-Reached :
      (inner : VersionManagerInner Rowset Dv) (c : Commit Create Drop) (used : Ids) (t r d : ℕ)
      (s' : Snapshot) (entries : List (ManifestOperation Create Drop))
      → delete_dv_from c.snapshot t r d ≡ ok s'
      → Reached start inner used versions c
      → Reached start inner used versions (record c { snapshot = s'; entries = entries })
  delete_dv-Reached inner c used t r d s' entries e h =
      let same = delete_dv-has_rowset c.snapshot t r d s' e in
      record {
        guarded =
            replace_head inner start.epoch inner.rowsets inner.dvs used used c.snapshot s' versions
              (λ t' r' p. p) (λ t' d' p. p) (λ t' r' p. p)
              (record {
                live_rowset = λ t' r' p. h.guarded.live.0.live_rowset t' r' (sym (same t' r') ∙ p);
                live_dv = λ t' r' d' p. h.guarded.live.0.live_dv t' r' d' (
                    and_true_right _ _ (sym (has_dv-delete_dv c.snapshot t r d s' e t' r' d') ∙ p));
              })
              (λ t' r' p. h.guarded.known.0 t' r' (sym (same t' r') ∙ p))
              (λ t' r' p q. same t' r' ∙ q) h.guarded;
        deletions = All-mono (λ i p. (p.0, same i.0 i.1 ∙ p.1)) c.deletions h.deletions;
        same_epoch = h.same_epoch;
        same_status = h.same_status;
        same_ref_cnt = h.same_ref_cnt;
        same_base = h.same_base;
      }

  log_entry :
      (inner : VersionManagerInner Rowset Dv) (c : Commit Create Drop) (used : Ids)
      (entries : List (ManifestOperation Create Drop))
      → Reached start inner used versions c
      → Reached start inner used versions (record c { entries = entries })
  log_entry inner c used entries h = record {
    guarded = h.guarded;
    deletions = h.deletions;
    same_epoch = h.same_epoch;
    same_status = h.same_status;
    same_ref_cnt = h.same_ref_cnt;
    same_base = h.same_base;
  }

  -- One operation.
  apply_op-Reached :
      (op : EpochOp Create Drop Rowset Dv) (inner : VersionManagerInner Rowset Dv)
      (c : Commit Create Drop) (used : Ids)
      → IsFresh used op
      → Reached start inner used versions c
      → Returns (λ x. Reached start x.0 (mark used op) versions x.1) (apply_op op (inner, c))
  unfolding apply_op
  apply_op-Reached (EpochOp.create_table entry) inner c used fresh h = log_entry inner c used _ h
  apply_op-Reached (EpochOp.drop_table entry) inner c used fresh h = log_entry inner c used _ h
  apply_op-Reached (EpochOp.add_row_set entry rowset) inner c used fresh h =
      add_row_set-Reached start versions inner c used entry rowset fresh h
  apply_op-Reached (EpochOp.delete_row_set entry) inner c used fresh h =
      Returns-bind _ _ _ _ (Returns-self (delete_rowset c.snapshot entry.table_id entry.rowset_id))
        (λ s' e.
          delete_row_set-Reached start versions inner c used entry.table_id entry.rowset_id s' _
            fresh e h)
  apply_op-Reached (EpochOp.add_dv entry dv) inner c used fresh h =
      add_dv-Reached inner c used entry.table_id entry.rowset_id entry.dv_id dv _ h
  apply_op-Reached (EpochOp.delete_dv entry) inner c used fresh h =
      Returns-bind _ _ _ _
        (Returns-self (delete_dv_from c.snapshot entry.table_id entry.rowset_id entry.dv_id))
        (λ s' e. delete_dv-Reached inner c used entry.table_id entry.rowset_id entry.dv_id s' _ e h)

  pub apply_ops-Reached :
      (ops : List (EpochOp Create Drop Rowset Dv)) (inner : VersionManagerInner Rowset Dv)
      (c : Commit Create Drop) (used : Ids)
      → AreFresh used ops
      → Reached start inner used versions c
      → Returns (λ x. Reached start x.0 (mark_all used ops) versions x.1) (apply_ops ops (inner, c))
  unfolding apply_ops
  apply_ops-Reached [] inner c used fresh h = h
  apply_ops-Reached (op ∷ ops) inner c used fresh h =
      Returns-bind _ _ _ _ (apply_op-Reached op inner c used fresh.0 h)
        (λ (x : VersionManagerInner Rowset Dv × Commit Create Drop) reached.
          apply_ops-Reached ops x.0 x.1 (mark used op) fresh.1 reached)
