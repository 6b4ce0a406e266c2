-- ===== src/Version/Manager/Tests.antt =====
-- A run of the manager: a rowset is added, a client takes a version, the rowset is replaced, the
-- client ends, the vacuum comes.
use risinglight.Prelude.{
  ℕ, ◌≡◌, ◌==◌, ◌&&◌, refl, Bool, true, false, none, some, List, [], ◌∷◌, All, ok, ok_or, arith,
  Result, Never,
}
use risinglight.Version.Snapshot.{
  add_rowset, delete_rowset, add_dv, delete_dv, get_rowsets_of, get_dvs_of,
}
use risinglight.Version.Snapshot.Laws.{has_rowset}
use risinglight.Version.Manager.{
  VersionManagerInner, Version, Commit, EpochOp, current_snapshot, apply_op, apply_ops,
  begin_commit, end_commit, pin, unpin, find_vacuum, remove_rowsets, get_rowset, get_dv,
}
use risinglight.Version.Manager.Guarded.{Gone, mark_all}
use risinglight.Version.Manager.Invariant.{committed}
use risinglight.Version.Manager.System.{System, Step, Removed, Reachable}
use risinglight.Version.Manager.Safety.{
  get_rowset-pinned, get_dv-pinned, vacuumed-Gone, find_vacuum-total, unpin-total, end_commit-total,
  due,
}

abbrev Inner : Type 0
Inner = VersionManagerInner ℕ ℕ

abbrev S : Type 0
S = System ℕ ℕ ℕ ℕ

abbrev empty : Inner
empty = record {
  status = [];
  rowsets = λ t r. none;
  dvs = λ t d. none;
  ref_cnt = [];
  rowset_deletion_to_apply = [];
  epoch = 0;
}

abbrev no_commit : Commit ℕ ℕ
no_commit = record {
  current_epoch = 0;
  snapshot = record { rowsets = []; dvs = [] };
  entries = [];
  deletions = [];
}

abbrev first_ops : List (EpochOp ℕ ℕ ℕ ℕ)
first_ops =
    EpochOp.create_table 5
    ∷ EpochOp.add_row_set (record { table_id = 0; rowset_id = 7 }) 70
    ∷ EpochOp.add_dv (record { table_id = 0; dv_id = 3; rowset_id = 7 }) 30
    ∷ []

abbrev second_ops : List (EpochOp ℕ ℕ ℕ ℕ)
second_ops =
    EpochOp.delete_row_set (record { table_id = 0; rowset_id = 7 })
    ∷ EpochOp.delete_dv (record { table_id = 0; dv_id = 3; rowset_id = 7 })
    ∷ EpochOp.add_row_set (record { table_id = 0; rowset_id = 8 }) 80
    ∷ []

abbrev begun : List (EpochOp ℕ ℕ ℕ ℕ) → Inner → Inner × Commit ℕ ℕ
unfolding begin_commit apply_ops apply_op add_rowset delete_rowset add_dv delete_dv
begun ops inner = ok_or (inner, no_commit) (begin_commit ops inner)

-- The states of the run.
abbrev first : Inner × Commit ℕ ℕ
first = begun first_ops empty

abbrev first_done : Inner
first_done = committed first.1 first.0

abbrev held : Inner × Version
unfolding pin
held = ok_or (first_done, record { epoch = 0; snapshot = no_commit.snapshot }) (pin first_done)

abbrev second : Inner × Commit ℕ ℕ
second = begun second_ops held.0

abbrev second_done : Inner
second_done = committed second.1 second.0

abbrev released : Inner × Result Never Bool
unfolding unpin
released = ok_or (second_done, ok false) (unpin true held.1 second_done)

abbrev while_held : S
while_held = record {
  inner = second_done;
  pins = held.1 ∷ [];
  pending = none;
  used = mark_all (mark_all (λ t r. false) first_ops) second_ops;
}

abbrev first_pending : S
first_pending = record {
  inner = first.0;
  pins = [];
  pending = some first.1;
  used = mark_all (λ t r. false) first_ops;
}

first_pending-Reachable : Reachable first_pending
unfolding begin_commit apply_ops apply_op add_rowset delete_rowset add_dv delete_dv
first_pending-Reachable =
    Reachable.step Reachable.start (Step.begin first_ops refl (tt, (refl, (tt, tt))) refl)

while_held-Reachable : Reachable while_held
unfolding begin_commit apply_ops apply_op add_rowset delete_rowset add_dv delete_dv end_commit pin
while_held-Reachable =
    Reachable.step
      (Reachable.step
        (Reachable.step (Reachable.step first_pending-Reachable (Step.finish refl refl))
          (Step.take_pin refl))
        (Step.begin second_ops refl (refl, (tt, (refl, tt))) refl))
      (Step.finish refl refl)

abbrev after_release : S
after_release = record while_held { inner = released.0; pins = [] }

after_release-Reachable : Reachable after_release
unfolding unpin released begun held
after_release-Reachable = Reachable.step while_held-Reachable (Step.drop_pin true Removed.here refl)

abbrev vacuumed : Inner × List (ℕ × ℕ)
unfolding find_vacuum remove_rowsets
vacuumed = ok_or (released.0, []) (find_vacuum (λ t r. false) released.0)

vacuum_removes_replaced : vacuumed.1 ≡ (0, 7) ∷ []
unfolding find_vacuum remove_rowsets begin_commit apply_ops apply_op add_rowset delete_rowset add_dv
    delete_dv pin unpin
vacuum_removes_replaced = refl

get_rowset-pinned_example : (rowset : ℕ) × (get_rowset while_held.inner 0 7 ≡ ok rowset)
unfolding held begun pin get_rowsets_of
get_rowset-pinned_example =
    get_rowset-pinned while_held while_held-Reachable held.1 [] 0 7 Removed.here refl

get_dv-pinned_example : (dv : ℕ) × (get_dv while_held.inner 0 3 ≡ ok dv)
unfolding held begun pin get_dvs_of
get_dv-pinned_example =
    get_dv-pinned while_held while_held-Reachable held.1 [] 0 7 3 Removed.here refl

-- A client comes after the first has gone, and before the vacuum.
abbrev held_again : Inner × Version
unfolding pin released begun held
held_again = ok_or (released.0, held.1) (pin released.0)

abbrev second_held : S
second_held = record while_held { inner = held_again.0; pins = held_again.1 ∷ [] }

second_held-Reachable : Reachable second_held
unfolding unpin released begun held held_again pin
second_held-Reachable = Reachable.step after_release-Reachable (Step.take_pin refl)

abbrev vacuumed_again : Inner × List (ℕ × ℕ)
unfolding find_vacuum remove_rowsets
vacuumed_again = ok_or (held_again.0, []) (find_vacuum (λ t r. false) held_again.0)

second_vacuum : vacuumed_again.1 ≡ (0, 7) ∷ []
unfolding find_vacuum remove_rowsets released begun held held_again pin vacuumed_again
second_vacuum = refl

vacuumed-Gone_example :
    All (Gone (current_snapshot held_again.0)) vacuumed_again.1
    × All (λ (v : Version). All (Gone v.snapshot) vacuumed_again.1) (held_again.1 ∷ [])
unfolding find_vacuum remove_rowsets released begun held held_again vacuumed_again
vacuumed-Gone_example =
    vacuumed-Gone second_held second_held-Reachable (λ t r. false) vacuumed_again.0 vacuumed_again.1
      refl

owner_of_seven :
    (t r : ℕ)
    → (t == 0) && (r == 7) ≡ true
    → (v : Version) × (others : List Version) × Removed v while_held.pins others
      × (has_rowset v.snapshot t r ≡ true)
unfolding begin_commit apply_ops apply_op add_rowset delete_rowset add_dv delete_dv pin
    get_rowsets_of
owner_of_seven t r h =
    let et : t ≡ 0 = ground (arith, h) in
    let er : r ≡ 7 = ground (arith, h) in (held.1, [], Removed.here, rw (et, er) refl)

find_vacuum-total_example :
    (after : Inner) × (find_vacuum (λ t r. (t == 0) && (r == 7)) while_held.inner
      ≡ ok (after, due while_held.inner))
find_vacuum-total_example =
    find_vacuum-total while_held while_held-Reachable (λ t r. (t == 0) && (r == 7)) owner_of_seven

unpin-total_example : (after : Inner) × (unpin true held.1 while_held.inner ≡ ok (after, ok true))
unfolding held begun pin
unpin-total_example = unpin-total while_held while_held-Reachable true held.1 [] Removed.here

end_commit-total_example :
    end_commit first.1 first_pending.inner ≡ ok (committed first.1 first.0, 1)
unfolding begun
end_commit-total_example = end_commit-total first_pending first_pending-Reachable first.1 refl
