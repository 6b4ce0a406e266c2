-- ===== src/Version/Manager/Frames.antt =====
-- What the operations on a snapshot leave alone.
use mathlib.Core.Bool.{true≢false}
use risinglight.Prelude.{
  is_some, ℕ, ◌≡◌, refl, Bool, true, false, ◌&&◌, ◌||◌, ok, arith, sym, ◌∙◌, inl, inr, ◌⊎◌,
  Option-cases, subst, ok-injective, Bool-cases,
}
use risinglight.Prelude.Map.{lookup}
use risinglight.Version.Snapshot.{
  Snapshot, add_rowset, delete_rowset, add_dv as add_dv_to, delete_dv as delete_dv_from,
  get_rowsets_of, get_dvs_of,
}
use risinglight.Version.Snapshot.Laws.{
  has_rowset, has_dv, has_rowset-add_rowset, has_rowset-delete_rowset,
}
use risinglight.Version.Manager.{Pool, same_id, pool_insert}
use risinglight.Version.Manager.Guarded.{Ids}

pub same_id-new :
    (used : Ids) (t r t' r' : ℕ) → used t r ≡ false → used t' r' ≡ true → same_id t r t' r' ≡ false
same_id-new used t r t' r' new old = elim (Bool-cases (same_id t r t' r')) [
  | inr other ↦ other
  | inl same ↦
      let et : t' ≡ t = ground (arith, same) in
      let er : r' ≡ r = ground (arith, same) in absurd (true≢false (sym (rw (et, er) at old) ∙ new))
]

pub add_apart :
    (used : Ids) (s : Snapshot) (t r : ℕ)
    → used t r ≡ false
    → (t' r' : ℕ) → used t' r' ≡ true
    → has_rowset s t' r' ≡ false
    → has_rowset (add_rowset s t r) t' r' ≡ false
add_apart used s t r fresh t' r' old gone =
    has_rowset-add_rowset s t r t' r' ∙ rw (same_id-new used t r t' r' fresh old) gone

pub and_false : (b : Bool) → b && false ≡ false
and_false true = refl
and_false false = refl

pub remove_apart :
    (s : Snapshot) (t r : ℕ) (s' : Snapshot)
    → delete_rowset s t r ≡ ok s'
    → (t' r' : ℕ) → has_rowset s t' r' ≡ false
    → has_rowset s' t' r' ≡ false
remove_apart s t r s' e t' r' gone =
    has_rowset-delete_rowset s t r s' e t' r' ∙ rw gone (and_false _)

pub and_true_right : (a b : Bool) → a && b ≡ true → b ≡ true
and_true_right true b h = h
and_true_right false b h = ground arith

pub remove_sub :
    (s : Snapshot) (t r : ℕ) (s' : Snapshot)
    → delete_rowset s t r ≡ ok s'
    → (t' r' : ℕ) → has_rowset s' t' r' ≡ true
    → has_rowset s t' r' ≡ true
remove_sub s t r s' e t' r' there =
    and_true_right _ _ (sym (has_rowset-delete_rowset s t r s' e t' r') ∙ there)

pub or_cases : (a b : Bool) → a || b ≡ true → (a ≡ true) ⊎ (b ≡ true)
or_cases true b h = inl refl
or_cases false b h = inr h

pub pool_insert-is_some :
    {V : Type 0} (pool : Pool V) (t r : ℕ) (v : V) (t' r' : ℕ)
    → is_some (pool_insert t r v pool t' r') ≡ same_id t r t' r' || is_some (pool t' r')
pool_insert-is_some pool t r v t' r' = elim (Bool-cases (same_id t r t' r')) [
  | inl same ↦ rw same refl
  | inr other ↦ rw other refl
]

pub or_right : (a b : Bool) → b ≡ true → a || b ≡ true
or_right true b h = refl
or_right false b h = h

pub or_mono : (a b c : Bool) → (b ≡ true → c ≡ true) → a || b ≡ true → a || c ≡ true
or_mono true b c f h = refl
or_mono false b c f h = f h

pub removed :
    (s : Snapshot) (t r : ℕ) (s' : Snapshot)
    → delete_rowset s t r ≡ ok s'
    → has_rowset s' t r ≡ false
removed s t r s' e = has_rowset-delete_rowset s t r s' e t r ∙ ground arith

pub dv_mono :
    (a b c d e : Bool) → (d ≡ true → e ≡ true) → (a && (b && c)) || d ≡ true → (a && c) || e ≡ true
dv_mono a b c d e f h = ground (arith, h)

pub add_rowset-has_dv :
    (s : Snapshot) (t r t' r' d : ℕ) → has_dv (add_rowset s t r) t' r' d ≡ has_dv s t' r' d
unfolding add_rowset get_dvs_of
add_rowset-has_dv s t r t' r' d = refl

pub delete_rowset-has_dv :
    (s : Snapshot) (t r : ℕ) (s' : Snapshot)
    → delete_rowset s t r ≡ ok s'
    → (t' r' d : ℕ) → has_dv s' t' r' d ≡ has_dv s t' r' d
unfolding delete_rowset get_dvs_of
delete_rowset-has_dv s t r s' e t' r' d = elim (Option-cases (lookup t s.rowsets)) [
  | inl none_there ↦ ground (arith, rw none_there at e)
  | inr (table, found) ↦
      subst (λ x. has_dv x t' r' d ≡ has_dv s t' r' d) (ok-injective (rw found at e)) refl
]

pub add_dv-has_rowset :
    (s : Snapshot) (t r d t' r' : ℕ) → has_rowset (add_dv_to s t r d) t' r' ≡ has_rowset s t' r'
unfolding add_dv_to get_rowsets_of
add_dv-has_rowset s t r d t' r' = refl

pub delete_dv-has_rowset :
    (s : Snapshot) (t r d : ℕ) (s' : Snapshot)
    → delete_dv_from s t r d ≡ ok s'
    → (t' r' : ℕ) → has_rowset s' t' r' ≡ has_rowset s t' r'
unfolding delete_dv_from get_rowsets_of
delete_dv-has_rowset s t r d s' e t' r' = elim (Option-cases (lookup t s.dvs)) [
  | inl none_there ↦ ground (arith, rw none_there at e)
  | inr (table, found) ↦ elim (Option-cases (lookup r table)) [
    | inl none_there ↦ ground (arith, rw (found, none_there) at e)
    | inr (dvs, found_dvs) ↦
        subst (λ x. has_rowset x t' r' ≡ has_rowset s t' r')
          (ok-injective (rw (found, found_dvs) at e)) refl
  ]
]
