-- ===== src/Access/Policy.antt =====
-- What the policy of apps/bridge/src/config.ts lets through in apps/bridge/src/http/origin.ts.
use kanhrd.Base.{
  String, ◌≡◌, refl, subst, Bool, true, false, not, ◌&&◌, ◌||◌, Option, none, some, List, ◌++◌,
  includes, arith, Bool-cases, Option-cases, inl, inr, some_inj,
}
use kanhrd.Access.Origin.{
  Platform, OriginTriple, parse_origin, origin_key, loopback_addresses, wildcard_addresses,
  derive_origins, Settings, OriginPolicy, keys_of, is_empty, policy_of, load_origins, allows,
  check_origin,
}
use kanhrd.Access.Keys.{parse_origin-IsWeb, origin_key_injective}
use kanhrd.Access.Entries.{
  includes-append, Matches, Matches-weaken, keys_of-Matches, keys_of_complete,
}

-- The origins that a policy is made of.
abbrev pub listed_origins : OriginPolicy → List String
listed_origins p = p.derived ++ p.configured

-- A policy that was loaded: its keys are those of its origins.
record IsLoaded (js : Platform) (s : Settings) (p : OriginPolicy) : Type 0 where
  allow_any : p.allow_any ≡ s.allow_any_origin
  derived_keys : List String
  configured_keys : List String
  derived_of : keys_of js p.derived ≡ some derived_keys
  configured_of : keys_of js p.configured ≡ some configured_keys
  allowed : p.allowed ≡ derived_keys ++ configured_keys

policy_of-IsLoaded :
    (js : Platform) (s : Settings) (derived : List String) (d c : Option (List String))
    (p : OriginPolicy)
    → keys_of js derived ≡ d
    → keys_of js s.allowed_origins ≡ c
    → policy_of s derived d c ≡ some p
    → IsLoaded js s p
policy_of-IsLoaded js s derived none c p dk ck h = absurd (ground arith)
policy_of-IsLoaded js s derived (some ds) none p dk ck h = absurd (ground arith)
policy_of-IsLoaded js s derived (some ds) (some cs) p dk ck h =
    subst (IsLoaded js s) (some_inj h) (record {
      allow_any = refl;
      derived_keys = ds;
      configured_keys = cs;
      derived_of = dk;
      configured_of = ck;
      allowed = refl;
    })

load_origins-IsLoaded :
    (js : Platform) (s : Settings) (p : OriginPolicy) → load_origins js s ≡ some p → IsLoaded js s p
unfolding load_origins
load_origins-IsLoaded js s p h =
    elim (Bool-cases (not (includes s.bind loopback_addresses) && not s.allow_non_loopback)) [
      | inl e ↦ absurd (none_some (rw (e, load_origins) at h))
      | inr e ↦
          elim (Bool-cases (
            includes s.bind wildcard_addresses
            && (is_empty s.allowed_origins && not s.allow_any_origin))) [
              | inl w ↦ absurd (none_some (rw (e, w, load_origins) at h))
              | inr w ↦
                  policy_of-IsLoaded js s (derive_origins js s.bind s.port) _ _ p refl refl
                    (rw (e, w, load_origins) at h)
            ]
    ]
  where
    none_some : none ≡ some p → ⊥
    none_some z = ground arith

-- A listed text that parses to the same scheme, host and port.
pub record IsListed (js : Platform) (entries : List String) (t : OriginTriple) : Type 0 where
  pub entry : String
  pub listed : includes entry entries ≡ true
  pub triple : OriginTriple
  pub parsed : parse_origin js entry ≡ some triple
  pub scheme : triple.scheme ≡ t.scheme
  pub host : triple.host ≡ t.host
  pub port : triple.port ≡ t.port

Matches-IsListed :
    (js : Platform) (entries : List String) (header : String) (t : OriginTriple)
    → parse_origin js header ≡ some t
    → Matches js entries (origin_key t)
    → IsListed js entries t
Matches-IsListed js entries header t e m =
    let (scheme, host, port) =
      origin_key_injective m.triple t (parse_origin-IsWeb js m.entry m.triple m.parsed)
        (parse_origin-IsWeb js header t e) m.same in
    record {
      entry = m.entry;
      listed = m.listed;
      triple = m.triple;
      parsed = m.parsed;
      scheme = scheme;
      host = host;
      port = port;
    }

-- Under a policy that was loaded without `--allow-any-origin`, a header that is let through parses, and
-- some derived or configured origin parses to the same scheme, the same host and the same port.
pub check_origin_sound :
    (js : Platform) (s : Settings) (p : OriginPolicy) (header : String) (strict : Bool)
    → load_origins js s ≡ some p
    → s.allow_any_origin ≡ false
    → check_origin js p (some header) strict ≡ true
    → (t : OriginTriple) × (parse_origin js header ≡ some t) × IsListed js (listed_origins p) t
unfolding check_origin
check_origin_sound js s p header strict h any ok = elim (Option-cases (parse_origin js header)) [
  | inl e ↦ absurd (refused e)
  | inr (t, e) ↦ (t, e, Matches-IsListed js (listed_origins p) header t e (matched t e))
]
  where
    loaded : IsLoaded js s p
    loaded = load_origins-IsLoaded js s p h

    passes : allows p (parse_origin js header) ≡ true
    passes = ground (arith, loaded.allow_any)

    refused : parse_origin js header ≡ none → ⊥
    refused e = ground (arith, passes)

    listed :
        (t : OriginTriple)
        → parse_origin js header ≡ some t
        → includes (origin_key t) (loaded.derived_keys ++ loaded.configured_keys) ≡ true
    listed t e = subst (λ l. includes (origin_key t) l ≡ true) loaded.allowed (rw e at passes)

    matched :
        (t : OriginTriple)
        → parse_origin js header ≡ some t
        → Matches js (listed_origins p) (origin_key t)
    matched t e = elim (Bool-cases (includes (origin_key t) loaded.derived_keys)) [
      | inl d ↦
          Matches-weaken js p.derived (listed_origins p) (origin_key t)
            (λ x i. ground (arith, includes-append x p.derived p.configured))
            (keys_of-Matches js p.derived loaded.derived_keys (origin_key t) loaded.derived_of d)
      | inr d ↦
          Matches-weaken js p.configured (listed_origins p) (origin_key t)
            (λ x i. ground (arith, includes-append x p.derived p.configured))
            (keys_of-Matches js p.configured loaded.configured_keys (origin_key t)
              loaded.configured_of
              (ground (
                arith,
                listed t e,
                includes-append (origin_key t) loaded.derived_keys loaded.configured_keys,
              )))
    ]

-- Under a policy that was loaded, each derived and each configured origin is let through, strict or not.
pub check_origin_complete :
    (js : Platform) (s : Settings) (p : OriginPolicy) (header : String) (strict : Bool)
    → load_origins js s ≡ some p
    → includes header (listed_origins p) ≡ true
    → check_origin js p (some header) strict ≡ true
unfolding check_origin
check_origin_complete js s p header strict h i = elim (Bool-cases (includes header p.derived)) [
  | inl d ↦
      by_derived (keys_of_complete js p.derived loaded.derived_keys header loaded.derived_of d)
  | inr d ↦ by_configured (
      keys_of_complete js p.configured loaded.configured_keys header loaded.configured_of
        (ground (arith, includes-append header p.derived p.configured)))
]
  where
    loaded : IsLoaded js s p
    loaded = load_origins-IsLoaded js s p h

    passes :
        (t : OriginTriple)
        → parse_origin js header ≡ some t
        → (includes (origin_key t) loaded.derived_keys
            || includes (origin_key t) loaded.configured_keys)
          ≡ true
        → (p.allow_any || allows p (parse_origin js header)) ≡ true
    passes t e q =
        rw (e, loaded.allowed)
          (ground
            (arith, includes-append (origin_key t) loaded.derived_keys loaded.configured_keys))

    by_derived :
        ((t : OriginTriple) × (parse_origin js header ≡ some t)
          × (includes (origin_key t) loaded.derived_keys ≡ true))
        → (p.allow_any || allows p (parse_origin js header)) ≡ true
    by_derived (t, e, q) = passes t e (ground arith)

    by_configured :
        ((t : OriginTriple) × (parse_origin js header ≡ some t)
          × (includes (origin_key t) loaded.configured_keys ≡ true))
        → (p.allow_any || allows p (parse_origin js header)) ≡ true
    by_configured (t, e, q) = passes t e (ground arith)
