-- ===== src/Ws/Server/Fanout.antt =====
-- Which events reach a connection of apps/bridge/src/ws/server.ts.
use kanhrd.Base.{
  String, Bool, true, ◌&&◌, ◌||◌, ◌≡◌, refl, sym, ap, ◌∙◌, subst, Option, none, some, List, [], ◌∷◌,
  ◌++◌, lookup, includes, str_eq, arith, Bool-cases, inl, inr, eq_iff, lookup-insert, is_some,
  str_eq_refl, any,
}
use kanhrd.Ws.Server.{
  Connection, opened, add_kind, add_kinds, ensured, ensure_subscription, kinds_of, widened,
  on_subscribe, is_sent,
}

includes-append :
    (k : String) (xs ys : List String) → includes k (xs ++ ys) ≡ (includes k xs || includes k ys)
includes-append k [] ys = refl
includes-append k (x ∷ xs) ys = ground (arith, includes-append k xs ys)

includes-add_kind :
    (k j : String) (kinds : List String)
    → includes k (add_kind j kinds) ≡ (str_eq j k || includes k kinds)
includes-add_kind k j kinds = elim (Bool-cases (includes j kinds)) [
  | inl e ↦ rw e (elim (Bool-cases (str_eq j k)) [
    | inl f ↦ rw f (subst (λ x. includes x kinds ≡ true) ((eq_iff j k).0 f) e)
    | inr f ↦ rw f refl
  ])
  | inr e ↦ rw e (ground (arith, includes-append k kinds (j ∷ [])))
]

includes-add_kinds :
    (k : String) (ks kinds : List String)
    → includes k (add_kinds ks kinds) ≡ (includes k ks || includes k kinds)
includes-add_kinds k [] kinds = refl
includes-add_kinds k (j ∷ ks) kinds =
    ground (arith, includes-add_kinds k ks (add_kind j kinds), includes-add_kind k j kinds)

-- A listener is on exactly the hosts that have a subscription.
abbrev pub IsAttached : Connection → Type 0
IsAttached c = (host : String) → includes host c.listeners ≡ is_some (lookup host c.subscriptions)

ensure-IsAttached :
    (host : String) (c : Connection) → IsAttached c → IsAttached (ensure_subscription host c)
unfolding ensure_subscription
ensure-IsAttached host c h = go (lookup host c.subscriptions)
  where
    go : (o : Option (List String)) → IsAttached (ensured o host c)
    go (some kinds) = h
    go none = λ j. ground (arith, lookup-insert host j [] c.subscriptions, h j)

ensured-kinds :
    (host j : String) (c : Connection) (o : Option (List String))
    → lookup host c.subscriptions ≡ o
    → kinds_of (lookup j (ensured o host c).subscriptions) ≡ kinds_of (lookup j c.subscriptions)
ensured-kinds host j c (some kinds) e = refl
ensured-kinds host j c none e = elim (Bool-cases (str_eq host j)) [
  | inl f ↦
      rw (lookup-insert host j [] c.subscriptions, f)
        (ap (λ o. kinds_of o) (sym e)
          ∙ ap (λ x. kinds_of (lookup x c.subscriptions)) ((eq_iff host j).0 f))
  | inr f ↦ rw (lookup-insert host j [] c.subscriptions, f) refl
]

ensure-kinds :
    (host j : String) (c : Connection)
    → kinds_of (lookup j (ensure_subscription host c).subscriptions)
      ≡ kinds_of (lookup j c.subscriptions)
unfolding ensure_subscription
ensure-kinds host j c = ensured-kinds host j c (lookup host c.subscriptions) refl

ensured-present :
    (host : String) (c : Connection) (o : Option (List String))
    → lookup host c.subscriptions ≡ o
    → is_some (lookup host (ensured o host c).subscriptions) ≡ true
ensured-present host c none e =
    rw (lookup-insert host host [] c.subscriptions, str_eq_refl host) refl
ensured-present host c (some kinds) e = ap (λ o. is_some o) e

ensure-present :
    (host : String) (c : Connection)
    → is_some (lookup host (ensure_subscription host c).subscriptions) ≡ true
unfolding ensure_subscription
ensure-present host c = ensured-present host c (lookup host c.subscriptions) refl

widened-IsAttached :
    (host : String) (kinds : List String) (c : Connection)
    → is_some (lookup host c.subscriptions) ≡ true
    → IsAttached c
    → IsAttached (widened host kinds c)
widened-IsAttached host kinds c p h = λ j. elim (Bool-cases (str_eq host j)) [
  | inl f ↦
      rw (lookup-insert host j _ c.subscriptions, f)
        (ap (λ x. includes x c.listeners) (sym ((eq_iff host j).0 f)) ∙ h host ∙ p)
  | inr f ↦ rw (lookup-insert host j _ c.subscriptions, f) (h j)
]

-- The kinds that a widened connection takes from a host.
widened-kinds :
    (host j kind : String) (kinds : List String) (c : Connection)
    → includes kind (kinds_of (lookup j (widened host kinds c).subscriptions)) ≡ (
        str_eq host j && includes kind kinds || includes kind (kinds_of (lookup j c.subscriptions)))
widened-kinds host j kind kinds c = elim (Bool-cases (str_eq host j)) [
  | inl f ↦
      rw (lookup-insert host j _ c.subscriptions, f)
        (includes-add_kinds kind kinds _
          ∙ ap (λ x. includes kind kinds || includes kind (kinds_of (lookup x c.subscriptions)))
              ((eq_iff host j).0 f))
  | inr f ↦ rw (lookup-insert host j _ c.subscriptions, f) refl
]

pub on_subscribe-IsAttached :
    (has_host : String → Bool) (host : String) (kinds : List String) (c : Connection)
    → IsAttached c
    → IsAttached (on_subscribe has_host host kinds c)
unfolding on_subscribe
on_subscribe-IsAttached has_host host kinds c h = elim (Bool-cases (has_host host)) [
  | inl e ↦ rw e (
      widened-IsAttached host kinds (ensure_subscription host c) (ensure-present host c)
        (ensure-IsAttached host c h))
  | inr e ↦ rw e h
]

sent-kinds :
    (j kind : String) (c : Connection)
    → IsAttached c
    → is_sent true j kind c ≡ includes kind (kinds_of (lookup j c.subscriptions))
unfolding is_sent
sent-kinds j kind c h = rw (h j) (go (lookup j c.subscriptions))
  where
    go :
        (o : Option (List String))
        → (is_some o && (includes kind (kinds_of o) && true)) ≡ includes kind (kinds_of o)
    go none = refl
    go (some kinds) = ground arith

on_subscribe-kinds :
    (has_host : String → Bool) (host j kind : String) (kinds : List String) (c : Connection)
    → includes kind (kinds_of (lookup j (on_subscribe has_host host kinds c).subscriptions)) ≡ (
        has_host host && (str_eq host j && includes kind kinds)
        || includes kind (kinds_of (lookup j c.subscriptions)))
unfolding on_subscribe
on_subscribe-kinds has_host host j kind kinds c = elim (Bool-cases (has_host host)) [
  | inl e ↦ rw e (
      widened-kinds host j kind kinds (ensure_subscription host c)
      ∙ ap (λ l. str_eq host j && includes kind kinds || includes kind l) (ensure-kinds host j c))
  | inr e ↦ rw e refl
]

-- One `onSubscribe` of a connection.
pub record Subscribing : Type 0 where
  pub host : String
  pub kinds : List String

unfoldable pub subscribed_by : (String → Bool) → List Subscribing → Connection → Connection
subscribed_by has_host [] c = c
subscribed_by has_host (r ∷ rs) c =
    subscribed_by has_host rs (on_subscribe has_host r.host r.kinds c)

sent_after :
    (has_host : String → Bool) (j kind : String) (rs : List Subscribing) (c : Connection)
    → IsAttached c
    → is_sent true j kind (subscribed_by has_host rs c) ≡ (
        any (λ r. has_host r.host && (str_eq r.host j && includes kind r.kinds)) rs
        || is_sent true j kind c)
unfolding subscribed_by
sent_after has_host j kind [] c h = refl
sent_after has_host j kind (r ∷ rs) c h =
    let next = on_subscribe has_host r.host r.kinds c in
    ground (
      arith,
      sent_after has_host j kind rs next (on_subscribe-IsAttached has_host r.host r.kinds c h),
      sent-kinds j kind next (on_subscribe-IsAttached has_host r.host r.kinds c h),
      sent-kinds j kind c h,
      on_subscribe-kinds has_host r.host j kind r.kinds c,
    )

-- An open connection is sent an event of a host exactly if one of its subscriptions named the kind of
-- the event on that host, and the registry holds the host.
pub subscribed_by-is_sent :
    (has_host : String → Bool) (host kind : String) (rs : List Subscribing)
    → is_sent true host kind (subscribed_by has_host rs opened)
      ≡ any (λ r. has_host r.host && (str_eq r.host host && includes kind r.kinds)) rs
unfolding opened lookup is_sent
subscribed_by-is_sent has_host host kind rs =
    ground (arith, sent_after has_host host kind rs opened (λ j. refl))
