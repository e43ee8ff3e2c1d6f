-- ===== src/Access/Entries.antt =====
-- `originKey(parseOrigin(entry))` over the entries of an allowlist of apps/bridge/src/config.ts.
use kanhrd.Base.{
  String, ◌≡◌, refl, sym, subst, true, false, ◌||◌, none, some, List, [], ◌∷◌, ◌++◌, str_eq,
  str_eq_refl, includes, arith, eq_iff, Bool-cases, Option-cases, inl, inr, some_inj,
}
use kanhrd.Access.Origin.{Platform, OriginTriple, parse_origin, origin_key, keys_of}

pub includes-append :
    (x : String) (xs ys : List String) → includes x (xs ++ ys) ≡ (includes x xs || includes x ys)
includes-append x [] ys = refl
includes-append x (y ∷ xs) ys = ground (arith, includes-append x xs ys)

-- An entry of the list that has the same origin as the text.
pub record Matches (js : Platform) (entries : List String) (key : String) : Type 0 where
  pub entry : String
  pub listed : includes entry entries ≡ true
  pub triple : OriginTriple
  pub parsed : parse_origin js entry ≡ some triple
  pub same : origin_key triple ≡ key

pub Matches-weaken :
    (js : Platform) (entries more : List String) (key : String)
    → ((e : String) → includes e entries ≡ true → includes e more ≡ true)
    → Matches js entries key
    → Matches js more key
Matches-weaken js entries more key f m = record {
  entry = m.entry;
  listed = f m.entry m.listed;
  triple = m.triple;
  parsed = m.parsed;
  same = m.same;
}

pub keys_of-Matches :
    (js : Platform) (entries keys : List String) (key : String)
    → keys_of js entries ≡ some keys
    → includes key keys ≡ true
    → Matches js entries key
unfolding keys_of
keys_of-Matches js [] keys key h i = absurd (nothing keys (some_inj h) i)
  where
    nothing : (ks : List String) → [] ≡ ks → includes key ks ≡ true → ⊥
    nothing [] e i = ground arith
    nothing (k ∷ ks) e i = ground arith
keys_of-Matches js (entry ∷ entries) keys key h i = elim (Option-cases (parse_origin js entry)) [
  | inl e ↦ absurd (none_some (rw (e, keys_of) at h))
  | inr (t, e) ↦ elim (Option-cases (keys_of js entries)) [
    | inl f ↦ absurd (none_some (rw (e, f, keys_of) at h))
    | inr (ks, f) ↦ elim (Bool-cases (str_eq (origin_key t) key)) [
      | inl same ↦ record {
        entry = entry;
        listed = rw str_eq_refl refl;
        triple = t;
        parsed = e;
        same = (eq_iff (origin_key t) key).0 same;
      }
      | inr other ↦
          Matches-weaken js entries (entry ∷ entries) key (λ x p. ground arith)
            (keys_of-Matches js entries ks key f (
              tail_of (origin_key t) ks other
                (subst (λ l. includes key l ≡ true) (sym (some_inj (rw (e, f, keys_of) at h))) i)))
    ]
  ]
]
  where
    none_some : none ≡ some keys → ⊥
    none_some z = ground arith

    tail_of :
        (k : String) (ks : List String)
        → str_eq k key ≡ false
        → includes key (k ∷ ks) ≡ true
        → includes key ks ≡ true
    tail_of k ks other p = ground arith

pub keys_of_complete :
    (js : Platform) (entries keys : List String) (entry : String)
    → keys_of js entries ≡ some keys
    → includes entry entries ≡ true
    → (t : OriginTriple) × (parse_origin js entry ≡ some t) × (includes (origin_key t) keys ≡ true)
unfolding keys_of
keys_of_complete js [] keys entry h i = absurd (ground arith)
keys_of_complete js (e ∷ entries) keys entry h i = elim (Option-cases (parse_origin js e)) [
  | inl p ↦ absurd (none_some (rw (p, keys_of) at h))
  | inr (t, p) ↦ elim (Option-cases (keys_of js entries)) [
    | inl f ↦ absurd (none_some (rw (p, f, keys_of) at h))
    | inr (ks, f) ↦ elim (Bool-cases (str_eq e entry)) [
      | inl same ↦ (
        t,
        subst (λ x. parse_origin js x ≡ some t) ((eq_iff e entry).0 same) p,
        subst (λ l. includes (origin_key t) l ≡ true) (some_inj (rw (p, f, keys_of) at h))
            (rw str_eq_refl refl),
      )
      | inr other ↦
          later t ks (some_inj (rw (p, f, keys_of) at h))
            (keys_of_complete js entries ks entry f (tail_of other))
    ]
  ]
]
  where
    none_some : none ≡ some keys → ⊥
    none_some z = ground arith

    tail_of : str_eq e entry ≡ false → includes entry entries ≡ true
    tail_of other = ground arith

    later :
        (t : OriginTriple) (ks : List String)
        → origin_key t ∷ ks ≡ keys
        → (u : OriginTriple) × (parse_origin js entry ≡ some u)
          × (includes (origin_key u) ks ≡ true)
        → (u : OriginTriple) × (parse_origin js entry ≡ some u)
          × (includes (origin_key u) keys ≡ true)
    later t ks z (u, p, q) = (u, p, subst (λ l. includes (origin_key u) l ≡ true) z (ground arith))
