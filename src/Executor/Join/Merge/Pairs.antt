-- ===== src/Executor/Join/Merge/Pairs.antt =====
-- The matching pairs of two sides, and the rows of one side without a match, as groups come in front.
use mathlib.Core.List.{Perm, perm_append_comm}
use mathlib.Core.List.Perm
use risinglight.Prelude.{
  ◌≡◌, ◌≢◌, refl, ap, ◌∙◌, true, false, ◌||◌, List, [], ◌∷◌, ◌++◌, map, flat_map, All, PartialEq,
  append_assoc, append-nil, map-append, flat_map-append,
}
use risinglight.Prelude.KeyMap.{eq_refl, eq_sym}
use risinglight.Executor.Join.Hash.Probe.{matches, matches-append}
use risinglight.Executor.Join.Hash.Outer.{met, unmet}
use risinglight.Executor.Join.Merge.{cross_groups}

module _ {V : Type 0} (p : PartialEq (List V)) (key : List V → List V) where
  -- Every row has the key.
  abbrev pub Keyed : List V → List (List V) → Type 0
  Keyed k rs = All (λ row. key row ≡ k) rs

  -- No row has the key.
  abbrev pub Missing : List V → List (List V) → Type 0
  Missing k rs = All (λ row. p.eq k (key row) ≡ false) rs

  pub matches-Missing : (k : List V) (rs : List (List V)) → Missing k rs → matches p key k rs ≡ []
  matches-Missing k [] h = refl
  matches-Missing k (row ∷ rs) h = rw (h.0, matches-Missing k rs h.1)

  pub matches-Keyed : (k : List V) (rs : List (List V)) → Keyed k rs → matches p key k rs ≡ rs
  matches-Keyed k [] h = refl
  matches-Keyed k (row ∷ rs) h = rw (h.0, eq_refl p k, matches-Keyed k rs h.1)

  met-append :
      (ks ks' : List (List V)) (k : List V)
      → met p key (ks ++ ks') k ≡ (met p key ks k || met p key ks' k)
  met-append [] ks' k = refl
  met-append (k' ∷ ks) ks' k =
      elim (p.eq k' k)
        as (λ b. (b || met p key (ks ++ ks') k) ≡ ((b || met p key ks k) || met p key ks' k)) [
          | true ↦ refl
          | false ↦ met-append ks ks' k
        ]

module _ {V : Type 0} (p : PartialEq (List V)) (f g : List V → List V) where
  -- The rows of the one side whose key no row of the other has.
  abbrev pub alone : List (List V) → List (List V) → List (List V)
  alone rs others = unmet p f (map g others) rs

  met-Missing :
      (k : List V) (others : List (List V))
      → Missing p g k others
      → met p f (map g others) k ≡ false
  met-Missing k [] h = refl
  met-Missing k (other ∷ others) h = rw (eq_sym p (g other) k, h.0, met-Missing k others h.1)

  -- A group whose key the other side lacks is alone.
  pub alone-group :
      (k : List V) (c others : List (List V))
      → Keyed p f k c
      → Missing p g k others
      → alone c others ≡ c
  alone-group k [] others keyed missing = refl
  alone-group k (row ∷ c) others keyed missing =
      rw (keyed.0, met-Missing k others missing, alone-group k c others keyed.1 missing)

  -- A group whose key the other side has is not alone.
  pub alone-met :
      (k : List V) (c c' others : List (List V))
      → Keyed p f k c
      → Keyed p g k c'
      → c' ≢ []
      → alone c (c' ++ others) ≡ []
  alone-met k c [] others keyed keyed' some_ = absurd (some_ refl)
  alone-met k [] (row' ∷ c') others keyed keyed' some_ = refl
  alone-met k (row ∷ c) (row' ∷ c') others keyed keyed' some_ =
      rw (keyed.0, keyed'.0, eq_refl p k, alone-met k c (row' ∷ c') others keyed.1 keyed' some_)

module _ {V : Type 0} (p : PartialEq (List V)) (f g : List V → List V) where
  met-Keyed :
      (k k' : List V) (c : List (List V))
      → Keyed p f k c
      → p.eq k k' ≡ false
      → met p g (map f c) k' ≡ false
  met-Keyed k k' [] keyed h = refl
  met-Keyed k k' (row ∷ c) keyed h = rw (keyed.0, h, met-Keyed k k' c keyed.1 h)

  -- A group with a key that the rows lack changes nothing for them.
  pub alone-skip :
      (k : List V) (c others rs : List (List V))
      → Keyed p f k c
      → Missing p g k rs
      → alone p g f rs (c ++ others) ≡ alone p g f rs others
  alone-skip k c others [] keyed missing = refl
  alone-skip k c others (row ∷ rs) keyed missing =
      let rest = alone-skip k c others rs keyed missing.1 in
      let same : met p g (map f (c ++ others)) (g row) ≡ met p g (map f others) (g row) =
        rw (map-append f c others, met-append p g (map f c) (map f others) (g row))
          (ap (λ b. b || met p g (map f others) (g row)) (met-Keyed k (g row) c keyed missing.0)) in
      rw (same, rest)

module _ {V : Type 0} (p : PartialEq (List V)) (left_key right_key : List V → List V) where
  -- The rows of the left side that match a row of the right side, beside it.
  abbrev pub beside : List (List V) → List V → List (List V)
  beside left r = map (λ l. l ++ r) (matches p left_key (right_key r) left)

  abbrev pub pairs : List (List V) → List (List V) → List (List V)
  pairs left right = flat_map (beside left) right

  pub pairs-skip_left :
      (k : List V) (c left right : List (List V))
      → Keyed p left_key k c
      → Missing p right_key k right
      → pairs (c ++ left) right ≡ pairs left right
  pairs-skip_left k c left [] keyed missing = refl
  pairs-skip_left k c left (r ∷ right) keyed missing =
      let none_ : matches p left_key (right_key r) c ≡ [] =
        matches-Missing p left_key (right_key r) c (lacks c keyed) in
      rw (
        matches-append p left_key (right_key r) c left,
        none_,
        pairs-skip_left k c left right keyed missing.1,
      )
    where
      lacks : (c : List (List V)) → Keyed p left_key k c → Missing p left_key (right_key r) c
      lacks [] keyed = tt
      lacks (row ∷ c) keyed = (rw (keyed.0, eq_sym p (right_key r) k) missing.0, lacks c keyed.1)

  pairs-Missing :
      (k : List V) (left c : List (List V))
      → Keyed p right_key k c
      → Missing p left_key k left
      → pairs left c ≡ []
  pairs-Missing k left [] keyed missing = refl
  pairs-Missing k left (r ∷ c) keyed missing =
      rw
        (keyed.0, matches-Missing p left_key k left missing, pairs-Missing k left c keyed.1 missing)

  pub pairs-skip_right :
      (k : List V) (left c right : List (List V))
      → Keyed p right_key k c
      → Missing p left_key k left
      → pairs left (c ++ right) ≡ pairs left right
  pairs-skip_right k left c right keyed missing =
      flat_map-append (beside left) c right
      ∙ ap (λ (xs : List (List V)). xs ++ pairs left right) (pairs-Missing k left c keyed missing)

  -- Two groups with the same key, which the rest of the left side lacks.
  pairs-groups :
      (k : List V) (c left c' : List (List V))
      → Keyed p left_key k c
      → Keyed p right_key k c'
      → Missing p left_key k left
      → pairs (c ++ left) c' ≡ flat_map (λ r. map (λ l. l ++ r) c) c'
  pairs-groups k c left [] keyed keyed' missing = refl
  pairs-groups k c left (r ∷ c') keyed keyed' missing = rw (
    keyed'.0,
    matches-append p left_key k c left,
    matches-Keyed p left_key k c keyed,
    matches-Missing p left_key k left missing,
    append-nil c,
    pairs-groups k c left c' keyed keyed'.1 missing,
  )

  cross-cons :
      (l : List V) (c c' : List (List V))
      → Perm
          (map (λ r. l ++ r) c' ++ flat_map (λ r. map (λ l. l ++ r) c) c')
          (flat_map (λ r. map (λ l. l ++ r) (l ∷ c)) c')
  cross-cons l c [] = Perm.rfl
  cross-cons l c (r ∷ c') =
      let here : List (List V) = map (λ l. l ++ r) c in
      let there : List (List V) = flat_map (λ r. map (λ l. l ++ r) c) c' in
      let row : List (List V) = map (λ r. l ++ r) c' in
      Perm.cons (l ++ r) (
        Perm.trans {l₂ = here ++ (row ++ there)}
          (rw (← append_assoc row here there, ← append_assoc here row there)
            (Perm.append_right there (perm_append_comm row here)))
          (Perm.append_left here (cross-cons l c c')))

  cross_groups-perm :
      (c c' : List (List V)) → Perm (cross_groups c c') (flat_map (λ r. map (λ l. l ++ r) c) c')
  cross_groups-perm [] c' = rw (nothing c') Perm.rfl
    where
      nothing : (c' : List (List V)) → flat_map {B = List V} (λ (r : List V). []) c' ≡ []
      nothing [] = refl
      nothing (r ∷ c') = nothing c'
  cross_groups-perm (l ∷ c) c' =
      Perm.trans (Perm.append_left _ (cross_groups-perm c c')) (cross-cons l c c')

  -- Two groups with the same key in front of the sides, which the rest of both lacks.
  pub pairs-cross_groups :
      (k : List V) (c left c' right : List (List V))
      → Keyed p left_key k c
      → Keyed p right_key k c'
      → Missing p left_key k left
      → Missing p right_key k right
      → Perm (cross_groups c c' ++ pairs left right) (pairs (c ++ left) (c' ++ right))
  pairs-cross_groups k c left c' right keyed keyed' missing missing' =
      rw
        (
          flat_map-append (beside (c ++ left)) c' right,
          pairs-groups k c left c' keyed keyed' missing,
          pairs-skip_left k c left right keyed missing',
        )
        (Perm.append_right (pairs left right) (cross_groups-perm c c'))
