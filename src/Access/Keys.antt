-- ===== src/Access/Keys.antt =====
-- `originKey` of apps/bridge/src/config.ts tells two parsed origins apart.
use Prim.Native.String
use text.Mathlib.TextLemmas.{append_inj, append_assoc, append-nil, append_cancel_left}
use kanhrd.Base.{
  ℕ, String, ◌≡◌, refl, sym, ap, ◌∙◌, subst, ◌⊎◌, inl, inr, Option, none, some, str_eq, decimal,
  arith, Bool-cases, eq_iff, some_inj,
}
use kanhrd.Base.Text.Decimal.{decimal_injective}
use kanhrd.Base.Text.Split.{HasNoColon, split_last, decimal-HasNoColon}
use kanhrd.Access.Origin.{
  Url, Platform, OriginTriple, scheme_of, is_origin, parse_origin, triple_of, origin_key,
}

-- A scheme that `parseOrigin` answers.
abbrev pub IsWeb : String → Type 0
IsWeb scheme = (scheme ≡ "http") ⊎ (scheme ≡ "https")

scheme_of-IsWeb : (u : Url) → IsWeb (scheme_of u)
scheme_of-IsWeb u = elim (Bool-cases (str_eq u.protocol "http:")) [
  | inl e ↦ rw e (inl refl)
  | inr e ↦ rw e (inr refl)
]

pub parse_origin-IsWeb :
    (js : Platform) (value : String) (t : OriginTriple)
    → parse_origin js value ≡ some t
    → IsWeb t.scheme
unfolding parse_origin
parse_origin-IsWeb js value t h = go (js.parse_url value) h
  where
    go : (o : Option Url) → triple_of js o ≡ some t → IsWeb t.scheme
    go none h = absurd (ground arith)
    go (some u) h = elim (Bool-cases (is_origin u)) [
      | inl e ↦
          let here : t.scheme ≡ scheme_of u = ap (λ x. x.scheme) (sym (some_inj (rw e at h))) in
          subst IsWeb (sym here) (scheme_of-IsWeb u)
      | inr e ↦ absurd (ground (arith, rw e at h))
    ]

diverges :
    (x y : String)
    → String.◌++◌ "http" (String.◌++◌ "://" x) ≡ String.◌++◌ "https" (String.◌++◌ "://" y)
    → ⊥
diverges x y p =
    let (same, rest) = append_inj (p ∙ append_assoc "http" "s" (String.◌++◌ "://" y)) refl in
    let (first, others) =
      append_inj {s₁ = ":"} {s₂ = "s"} (sym (append_assoc ":" "//" x) ∙ rest) refl in
    ground (arith, (eq_iff ":" "s").1 first)

scheme_split :
    (s r x y : String)
    → IsWeb s
    → IsWeb r
    → String.◌++◌ s (String.◌++◌ "://" x) ≡ String.◌++◌ r (String.◌++◌ "://" y)
    → (s ≡ r) × (x ≡ y)
scheme_split s r x y (inl a) (inl b) p =
    (a ∙ sym b, append_cancel_left "://" x y (append_cancel_left "http" _ _ (rw (a, b) at p)))
scheme_split s r x y (inr a) (inr b) p =
    (a ∙ sym b, append_cancel_left "://" x y (append_cancel_left "https" _ _ (rw (a, b) at p)))
scheme_split s r x y (inl a) (inr b) p = absurd (diverges x y (rw (a, b) at p))
scheme_split s r x y (inr a) (inl b) p = absurd (diverges y x (sym (rw (a, b) at p)))

-- Two origins of the web that have the same key have the same scheme, host and port.
pub origin_key_injective :
    (t u : OriginTriple)
    → IsWeb t.scheme
    → IsWeb u.scheme
    → origin_key t ≡ origin_key u
    → (t.scheme ≡ u.scheme) × (t.host ≡ u.host) × (t.port ≡ u.port)
unfolding origin_key
origin_key_injective t u w v h =
    let (scheme, rest) = scheme_split t.scheme u.scheme _ _ w v h in
    let (host, port) = split_last t.host u.host _ _ (padded t.port) (padded u.port) rest in
    (
      scheme,
      host,
      decimal_injective t.port u.port
          (sym (append-nil (decimal t.port)) ∙ port ∙ append-nil (decimal u.port)),
    )
  where
    padded : (n : ℕ) → HasNoColon (String.◌++◌ (decimal n) "")
    padded n = subst HasNoColon (sym (append-nil (decimal n))) (decimal-HasNoColon n)
