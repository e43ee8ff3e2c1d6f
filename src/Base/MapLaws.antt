-- ===== src/Base/MapLaws.antt =====
-- What `get` observes after loops over a `Map`, and predicates on its entries.
use Prim.Native.String.{String}
use mathlib.Core.Path.{◌≡◌, refl, sym, ap, subst}
use mathlib.Core.Bool.{Bool, false}
use mathlib.Core.Logic.{inl, inr}
use mathlib.Core.List.{[], ◌∷◌}
use mathlib.Core.Option.{none, some}
use native.Mathlib.Omega.{arith}
use text.Mathlib.TextEquality.{eq_iff}
use kanhrd.Base.Tests.{str_eq, Bool-cases, some_inj, includes, is_some}
use kanhrd.Base.Maps.{Dict, lookup, insert, erase, erase_if, map_values, keys, AllValues}

module _ {ℓ} {V : Type ℓ} where
  -- A loop that deletes leaves what fails its test.
  pub lookup-erase_if_keep :
      (p : V → Bool) (k : String) (v : V) (m : Dict V)
      → lookup k m ≡ some v
      → p v ≡ false
      → lookup k (erase_if p m) ≡ some v
  unfolding lookup erase_if
  lookup-erase_if_keep p k v [] h f = absurd (ground arith)
  lookup-erase_if_keep p k v ((j, w) ∷ m) h f = elim (Bool-cases (str_eq j k)) [
    | inl e ↦
        let same : w ≡ v = some_inj (rw (e, lookup) at h) in
        let fails : p w ≡ false = subst (λ x. p x ≡ false) (sym same) f in
        rw (fails, erase_if, lookup, e) (ap some same)
    | inr e ↦
        let rest = lookup-erase_if_keep p k v m (rw (e, lookup) at h) f in
        elim (Bool-cases (p w)) [
          | inl t ↦ rw (t, erase_if) rest
          | inr t ↦ rw (t, erase_if, lookup, e) rest
        ]
  ]

  -- What is not there is not there after deleting.
  pub lookup-erase_if-none :
      (p : V → Bool) (k : String) (m : Dict V) → lookup k m ≡ none → lookup k (erase_if p m) ≡ none
  unfolding lookup erase_if
  lookup-erase_if-none p k [] h = refl
  lookup-erase_if-none p k ((j, w) ∷ m) h = elim (Bool-cases (str_eq j k)) [
    | inl e ↦ absurd (ground arith)
    | inr e ↦
        let rest = lookup-erase_if-none p k m (rw (e, lookup) at h) in
        elim (Bool-cases (p w)) [
          | inl t ↦ rw (t, erase_if) rest
          | inr t ↦ rw (t, erase_if, lookup, e) rest
        ]
  ]

  pub lookup-map_values :
      (f : V → V) (k : String) (m : Dict V)
      → lookup k (map_values f m) ≡ elim (lookup k m) [ none ↦ none | some v ↦ some (f v) ]
  unfolding lookup map_values
  lookup-map_values f k [] = refl
  lookup-map_values f k ((j, w) ∷ m) = elim (Bool-cases (str_eq j k)) [
    | inl e ↦ rw (e, lookup)
    | inr e ↦ rw (e, lookup) (lookup-map_values f k m)
  ]

  pub AllValues-erase_if-false :
      (p : V → Bool) (m : Dict V) → AllValues (λ v. p v ≡ false) (erase_if p m)
  unfolding erase_if
  AllValues-erase_if-false p [] = tt
  AllValues-erase_if-false p ((j, w) ∷ m) = elim (Bool-cases (p w)) [
    | inl e ↦ rw e (AllValues-erase_if-false p m)
    | inr e ↦ rw e (e, AllValues-erase_if-false p m)
  ]

-- A predicate on the entries.
module _ {ℓ κ} {V : Type ℓ} (P : String → V → Type κ) where
  abbrev pub AllEntries : Dict V → Type κ
  AllEntries [] = Unit
  AllEntries ((j, v) ∷ m) = P j v × AllEntries m

  pub AllEntries-insert :
      (k : String) (v : V) (m : Dict V) → P k v → AllEntries m → AllEntries (insert k v m)
  unfolding insert
  AllEntries-insert k v [] p h = (p, tt)
  AllEntries-insert k v ((j, w) ∷ m) p (q, h) = elim (Bool-cases (str_eq j k)) [
    | inl e ↦ rw e (subst (λ i. P i v) (sym ((eq_iff j k).0 e)) p, h)
    | inr e ↦ rw e (q, AllEntries-insert k v m p h)
  ]

  pub AllEntries-erase : (k : String) (m : Dict V) → AllEntries m → AllEntries (erase k m)
  unfolding erase
  AllEntries-erase k [] h = tt
  AllEntries-erase k ((j, w) ∷ m) (q, h) = elim (Bool-cases (str_eq j k)) [
    | inl e ↦ rw e (AllEntries-erase k m h)
    | inr e ↦ rw e (q, AllEntries-erase k m h)
  ]

  pub AllEntries-erase_if : (p : V → Bool) (m : Dict V) → AllEntries m → AllEntries (erase_if p m)
  unfolding erase_if
  AllEntries-erase_if p [] h = tt
  AllEntries-erase_if p ((j, w) ∷ m) (q, h) = elim (Bool-cases (p w)) [
    | inl e ↦ rw e (AllEntries-erase_if p m h)
    | inr e ↦ rw e (q, AllEntries-erase_if p m h)
  ]

  pub AllEntries-map_values :
      (f : V → V) (m : Dict V)
      → ((k : String) (v : V) → P k v → P k (f v))
      → AllEntries m
      → AllEntries (map_values f m)
  unfolding map_values
  AllEntries-map_values f [] keep h = tt
  AllEntries-map_values f ((j, w) ∷ m) keep (q, h) = (keep j w q, AllEntries-map_values f m keep h)

  pub AllEntries-lookup :
      (k : String) (m : Dict V) (v : V) → AllEntries m → lookup k m ≡ some v → P k v
  unfolding lookup
  AllEntries-lookup k [] v h found = absurd (ground arith)
  AllEntries-lookup k ((j, w) ∷ m) v (q, h) found = elim (Bool-cases (str_eq j k)) [
    | inl e ↦
        let same : w ≡ v = some_inj (rw (e, lookup) at found) in
        subst (P k) same (subst (λ i. P i w) ((eq_iff j k).0 e) q)
    | inr e ↦ AllEntries-lookup k m v h (rw (e, lookup) at found)
  ]

pub includes-keys {ℓ} :
    {V : Type ℓ} (id : String) (m : Dict V) → includes id (keys m) ≡ is_some (lookup id m)
unfolding keys lookup
includes-keys id [] = refl
includes-keys id ((k, v) ∷ m) = ground (arith, includes-keys id m)
