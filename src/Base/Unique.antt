-- ===== src/Base/Unique.antt =====
-- A `Map` has one entry for a key: kept by every operation, and what a deleting loop then observes.
use Prim.Native.String.{String}
use mathlib.Core.Path.{◌≡◌, refl, ap, subst, ◌∙◌}
use mathlib.Core.Bool.{Bool}
use mathlib.Core.Logic.{inl, inr}
use mathlib.Core.List.{[], ◌∷◌}
use mathlib.Core.Option.{Option, none, some}
use native.Mathlib.Omega.{arith}
use text.Mathlib.TextEquality.{eq_iff}
use kanhrd.Base.Tests.{str_eq, if◌then◌else◌, Bool-cases}
use kanhrd.Base.Maps.{
  Dict, lookup, insert, erase, erase_if, map_values, lookup-insert, lookup-erase,
}
use kanhrd.Base.MapLaws.{lookup-erase_if-none, lookup-map_values}

abbrev pub HasUniqueKeys {ℓ} : {V : Type ℓ} → Dict V → Type ℓ
HasUniqueKeys [] = Unit
HasUniqueKeys ((k, v) ∷ m) = (lookup k m ≡ none) × HasUniqueKeys m

-- What a deleting loop leaves of a value.
abbrev pub unless {ℓ} : {V : Type ℓ} → (V → Bool) → Option V → Option V
unless p none = none
unless p (some v) = if p v then none else some v

module _ {ℓ} {V : Type ℓ} where
  pub insert-HasUniqueKeys :
      (k : String) (v : V) (m : Dict V) → HasUniqueKeys m → HasUniqueKeys (insert k v m)
  unfolding insert lookup
  insert-HasUniqueKeys k v [] h = (refl, tt)
  insert-HasUniqueKeys k v ((j, w) ∷ m) (fresh, h) = elim (Bool-cases (str_eq j k)) [
    | inl e ↦ rw e (fresh, h)
    | inr e ↦ rw e (
      lookup-insert k j v m ∙ ground (arith, eq_iff j k, eq_iff k j),
      insert-HasUniqueKeys k v m h,
    )
  ]

  pub erase-HasUniqueKeys : (k : String) (m : Dict V) → HasUniqueKeys m → HasUniqueKeys (erase k m)
  unfolding erase
  erase-HasUniqueKeys k [] h = tt
  erase-HasUniqueKeys k ((j, w) ∷ m) (fresh, h) = elim (Bool-cases (str_eq j k)) [
    | inl e ↦ rw e (erase-HasUniqueKeys k m h)
    | inr e ↦
        rw e
          (lookup-erase k j m ∙ ground (arith, eq_iff j k, eq_iff k j), erase-HasUniqueKeys k m h)
  ]

  pub erase_if-HasUniqueKeys :
      (p : V → Bool) (m : Dict V) → HasUniqueKeys m → HasUniqueKeys (erase_if p m)
  unfolding erase_if
  erase_if-HasUniqueKeys p [] h = tt
  erase_if-HasUniqueKeys p ((j, w) ∷ m) (fresh, h) = elim (Bool-cases (p w)) [
    | inl e ↦ rw e (erase_if-HasUniqueKeys p m h)
    | inr e ↦ rw e (lookup-erase_if-none p j m fresh, erase_if-HasUniqueKeys p m h)
  ]

  pub map_values-HasUniqueKeys :
      (f : V → V) (m : Dict V) → HasUniqueKeys m → HasUniqueKeys (map_values f m)
  unfolding map_values
  map_values-HasUniqueKeys f [] h = tt
  map_values-HasUniqueKeys f ((j, w) ∷ m) (fresh, h) = (
    lookup-map_values f j m ∙ ap (λ o. elim o [ none ↦ none | some v ↦ some (f v) ]) fresh,
    map_values-HasUniqueKeys f m h,
  )

  -- With unique keys a deleting loop acts on each value alone.
  pub lookup-erase_if :
      (p : V → Bool) (k : String) (m : Dict V)
      → HasUniqueKeys m
      → lookup k (erase_if p m) ≡ unless p (lookup k m)
  unfolding lookup erase_if
  lookup-erase_if p k [] h = refl
  lookup-erase_if p k ((j, w) ∷ m) (fresh, h) = elim (Bool-cases (str_eq j k)) [
    | inl e ↦
        let gone : lookup k (erase_if p m) ≡ none =
          lookup-erase_if-none p k m (subst (λ i. lookup i m ≡ none) ((eq_iff j k).0 e) fresh) in
        elim (Bool-cases (p w)) [
          | inl t ↦ rw (t, erase_if, e, lookup, t) gone
          | inr t ↦ rw (t, erase_if, lookup, e, t)
        ]
    | inr e ↦ elim (Bool-cases (p w)) [
      | inl t ↦ rw (t, erase_if, lookup, e) (lookup-erase_if p k m h)
      | inr t ↦ rw (t, erase_if, lookup, e) (lookup-erase_if p k m h)
    ]
  ]
