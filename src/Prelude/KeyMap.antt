-- ===== src/Prelude/KeyMap.antt =====
-- `HashMap` with keys of any type that has a lawful `PartialEq`, as a list of entries in the order of
-- insertion. Code that iterates over a map sees these in an order that is a parameter of the model.
use mathlib.Core.Option
use risinglight.Prelude.{
  ◌≡◌, refl, Bool, true, false, ◌||◌, Option, none, some, List, [], ◌∷◌, arith, inl, inr,
  if◌then◌else◌, map, Bool-cases, unwrap_or, sym, PartialEq,
}

module _ {K : Type 0} (p : PartialEq K) where
  pub eq_refl : (a : K) → p.eq a a ≡ true
  eq_refl a = (p.eq_iff a a).1 refl

  pub eq_sym : (a b : K) → p.eq a b ≡ p.eq b a
  eq_sym a b = elim (Bool-cases (p.eq a b)) [
    | inl same ↦ let e : a ≡ b = (p.eq_iff a b).0 same in rw (same, e) (sym (eq_refl b))
    | inr differ ↦ elim (Bool-cases (p.eq b a)) [
      | inl same ↦ let e : b ≡ a = (p.eq_iff b a).0 same in cc (eq_refl a, e)
      | inr differ' ↦ rw (differ, differ')
    ]
  ]

  -- `keys.contains(&key)`
  abbrev pub contains : K → List K → Bool
  contains key [] = false
  contains key (k ∷ keys) = p.eq key k || contains key keys

  module _ {V : Type 0} where
    -- `map.get(&key)`
    abbrev pub lookup : K → List (K × V) → Option V
    lookup key [] = none
    lookup key ((k, v) ∷ m) = if p.eq key k then some v else lookup key m

    -- `map.entry(key).or_insert(default)`, changed by `f`
    abbrev pub upsert : K → V → (V → V) → List (K × V) → List (K × V)
    upsert key default f [] = (key, f default) ∷ []
    upsert key default f ((k, v) ∷ m) =
        if p.eq key k then (k, f v) ∷ m else (k, v) ∷ upsert key default f m

    -- `map.get_mut(&key)`, changed by `f` if it is there
    abbrev pub alter : K → (V → V) → List (K × V) → List (K × V)
    alter key f m = map (λ (e : K × V). (e.0, if p.eq key e.0 then f e.1 else e.1)) m

    pub lookup-upsert :
        (k : K) (default : V) (f : V → V) (m : List (K × V)) (key : K)
        → lookup key (upsert k default f m)
          ≡ (if p.eq key k then some (f (unwrap_or default (lookup k m))) else lookup key m)
    lookup-upsert k default f [] key = refl
    lookup-upsert k default f ((k', v) ∷ m) key = elim (Bool-cases (p.eq k k')) [
      | inl same ↦ let e : k ≡ k' = (p.eq_iff k k').0 same in rw (same, e) (ground arith)
      | inr differ ↦ rw differ (elim (Bool-cases (p.eq key k')) [
        | inl at_key ↦
            let e : key ≡ k' = (p.eq_iff key k').0 at_key in
            let other : p.eq key k ≡ false = rw (e, eq_sym k' k) differ in rw (at_key, other)
        | inr past ↦ rw past (lookup-upsert k default f m key)
      ])
    ]

    pub lookup-alter :
        (k : K) (f : V → V) (m : List (K × V)) (key : K)
        → lookup key (alter k f m) ≡ Option.map (λ v. if p.eq k key then f v else v) (lookup key m)
    lookup-alter k f [] key = refl
    lookup-alter k f ((k', v) ∷ m) key = elim (Bool-cases (p.eq key k')) [
      | inl at_key ↦ let e : key ≡ k' = (p.eq_iff key k').0 at_key in rw (at_key, e)
      | inr past ↦ rw past (lookup-alter k f m key)
    ]
