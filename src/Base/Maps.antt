-- ===== src/Base/Maps.antt =====
-- A JavaScript `Map` keyed by strings, as its entries in insertion order: `set` replaces a value in
-- place or appends, `delete` removes. The laws are about what `get` observes.
use Prim.Native.String.{String}
use mathlib.Core.Path.{◌≡◌, refl, ap, subst}
use mathlib.Core.Bool.{Bool}
use mathlib.Core.Logic.{inl, inr}
use mathlib.Core.List.{List, [], ◌∷◌}
use mathlib.Core.Option.{Option, none, some}
use native.Mathlib.Omega.{arith}
use text.Mathlib.TextEquality.{eq_iff}
use kanhrd.Base.Tests.{str_eq, str_eq_refl, if◌then◌else◌, Bool-cases, some_inj}

abbrev pub Dict {ℓ} : Type ℓ → Type ℓ
Dict V = List (String × V)

module _ {ℓ} {V : Type ℓ} where
  unfoldable pub lookup : String → Dict V → Option V
  lookup k [] = none
  lookup k ((j, v) ∷ m) = if str_eq j k then some v else lookup k m

  unfoldable pub insert : String → V → Dict V → Dict V
  insert k v [] = (k, v) ∷ []
  insert k v ((j, w) ∷ m) = if str_eq j k then (j, v) ∷ m else (j, w) ∷ insert k v m

  -- `m.delete(k)`
  unfoldable pub erase : String → Dict V → Dict V
  erase k [] = []
  erase k ((j, w) ∷ m) = let rest = erase k m in if str_eq j k then rest else (j, w) ∷ rest

  -- A loop that deletes each entry whose value satisfies the test.
  unfoldable pub erase_if : (V → Bool) → Dict V → Dict V
  erase_if p [] = []
  erase_if p ((j, w) ∷ m) = let rest = erase_if p m in if p w then rest else (j, w) ∷ rest

  -- The entries whose value satisfies the test.
  unfoldable pub keep_values : (V → Bool) → Dict V → Dict V
  keep_values p [] = []
  keep_values p ((j, w) ∷ m) = let rest = keep_values p m in if p w then (j, w) ∷ rest else rest

  -- A loop that rewrites each value in place.
  unfoldable pub map_values : (V → V) → Dict V → Dict V
  map_values f [] = []
  map_values f ((j, w) ∷ m) = (j, f w) ∷ map_values f m

  -- `[...m.keys()]`
  unfoldable pub keys : Dict V → List String
  keys [] = []
  keys ((j, w) ∷ m) = j ∷ keys m

  -- `[...m.values()]`
  unfoldable pub values : Dict V → List V
  values [] = []
  values ((j, w) ∷ m) = w ∷ values m

module _ {ℓ} {V : Type ℓ} where
  -- What `get(read)` gives after `set(written, new)`.
  pub lookup-insert :
      (written read : String) (new : V) (old : Dict V)
      → lookup read (insert written new old)
        ≡ (if str_eq written read then some new else lookup read old)
  unfolding insert lookup
  lookup-insert written read new [] = refl
  lookup-insert written read new ((head, w) ∷ rest) = ground (
    arith,
    lookup-insert written read new rest,
    eq_iff head written,
    eq_iff head read,
    eq_iff written read,
  )

  pub lookup-erase :
      (k j : String) (m : Dict V) → lookup j (erase k m) ≡ (if str_eq k j then none else lookup j m)
  unfolding lookup erase
  lookup-erase k j [] = ground arith
  lookup-erase k j ((i, w) ∷ m) =
      ground (arith, eq_iff k j, eq_iff i k, eq_iff i j, lookup-erase k j m)

  pub lookup-insert_self : (k : String) (v : V) (m : Dict V) → lookup k (insert k v m) ≡ some v
  lookup-insert_self k v m = simp (lookup-insert, str_eq_refl)

  pub lookup-erase_self : (k : String) (m : Dict V) → lookup k (erase k m) ≡ none
  lookup-erase_self k m = simp (lookup-erase, str_eq_refl)

  pub insert-insert : (k : String) (v w : V) (m : Dict V) → insert k v (insert k w m) ≡ insert k v m
  unfolding insert
  insert-insert k v w [] = rw str_eq_refl
  insert-insert k v w ((j, u) ∷ m) = elim (Bool-cases (str_eq j k)) [
    | inl e ↦ rw (e, e)
    | inr e ↦ rw (e, e) (ap (λ l. (j, u) ∷ l) (insert-insert k v w m))
  ]

  pub erase-erase : (k : String) (m : Dict V) → erase k (erase k m) ≡ erase k m
  unfolding erase
  erase-erase k [] = refl
  erase-erase k ((j, u) ∷ m) = ground (arith, erase-erase k m)

  pub erase_if-erase_if : (p : V → Bool) (m : Dict V) → erase_if p (erase_if p m) ≡ erase_if p m
  unfolding erase_if
  erase_if-erase_if p [] = refl
  erase_if-erase_if p ((j, u) ∷ m) = ground (arith, erase_if-erase_if p m)

-- A predicate on all values, kept by the operations.
module _ {ℓ κ} {V : Type ℓ} (P : V → Type κ) where
  abbrev pub AllValues : Dict V → Type κ
  AllValues [] = Unit
  AllValues ((j, v) ∷ m) = P v × AllValues m

  pub AllValues-insert :
      (k : String) (v : V) (m : Dict V) → P v → AllValues m → AllValues (insert k v m)
  unfolding insert
  AllValues-insert k v [] p h = (p, tt)
  AllValues-insert k v ((j, w) ∷ m) p (q, h) = elim (Bool-cases (str_eq j k)) [
    | inl e ↦ rw e (p, h)
    | inr e ↦ rw e (q, AllValues-insert k v m p h)
  ]

  pub AllValues-erase : (k : String) (m : Dict V) → AllValues m → AllValues (erase k m)
  unfolding erase
  AllValues-erase k [] h = tt
  AllValues-erase k ((j, w) ∷ m) (q, h) = elim (Bool-cases (str_eq j k)) [
    | inl e ↦ rw e (AllValues-erase k m h)
    | inr e ↦ rw e (q, AllValues-erase k m h)
  ]

  pub AllValues-erase_if : (p : V → Bool) (m : Dict V) → AllValues m → AllValues (erase_if p m)
  unfolding erase_if
  AllValues-erase_if p [] h = tt
  AllValues-erase_if p ((j, w) ∷ m) (q, h) = elim (Bool-cases (p w)) [
    | inl e ↦ rw e (AllValues-erase_if p m h)
    | inr e ↦ rw e (q, AllValues-erase_if p m h)
  ]

  pub AllValues-lookup : (k : String) (m : Dict V) (v : V) → AllValues m → lookup k m ≡ some v → P v
  unfolding lookup
  AllValues-lookup k [] v h found = absurd (ground arith)
  AllValues-lookup k ((j, w) ∷ m) v (q, h) found = elim (Bool-cases (str_eq j k)) [
    | inl e ↦ subst P (some_inj (rw (e, lookup) at found)) q
    | inr e ↦ AllValues-lookup k m v h (rw (e, lookup) at found)
  ]
