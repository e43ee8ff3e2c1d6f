-- ===== src/Herdr/Names/Purge.antt =====
-- What `purgeTab` and `purgeWorkspace` of apps/bridge/src/herdr/names.ts leave in the cache.
use kanhrd.Base.{
  String, ◌≡◌, refl, sym, ap, ◌∙◌, Bool, true, false, ◌||◌, none, some, List, [], ◌∷◌, ◌++◌,
  if◌then◌else◌, str_eq, str_eq_refl, Dict, lookup, erase, includes, arith, eq_iff, Bool-cases, inl,
  inr, lookup-erase, HasUniqueKeys, erase-HasUniqueKeys, unless, Option,
}
use kanhrd.Herdr.Names.{
  PanePlacement, NameCache, keys_where, erase_all, in_tab, purge_tab, purge_tabs, tabs_of,
  purge_workspace,
}

includes-append :
    (x : String) (xs ys : List String) → includes x (xs ++ ys) ≡ (includes x xs || includes x ys)
includes-append x [] ys = refl
includes-append x (y ∷ xs) ys = ground (arith, includes-append x xs ys)

includes_head : (k : String) (ks : List String) → includes k (k ∷ ks) ≡ true
includes_head k ks = rw str_eq_refl refl

includes_cons :
    (j k : String) (ks : List String) → includes j ks ≡ true → includes j (k ∷ ks) ≡ true
includes_cons j k ks h = ground arith

includes_tail :
    (j k : String) (ks : List String)
    → str_eq j k ≡ false
    → includes j (k ∷ ks) ≡ true
    → includes j ks ≡ true
includes_tail j k ks e h = ground (arith, eq_iff j k, eq_iff k j)

module _ {V : Type 0} where
  pub lookup-erase_all :
      (k : String) (ks : List String) (m : Dict V)
      → lookup k (erase_all ks m) ≡ (if includes k ks then none else lookup k m)
  lookup-erase_all k [] m = refl
  lookup-erase_all k (j ∷ ks) m =
      ground (arith, lookup-erase_all k ks (erase j m), lookup-erase j k m, eq_iff k j, eq_iff j k)

  erase_all-HasUniqueKeys :
      (ks : List String) (m : Dict V) → HasUniqueKeys m → HasUniqueKeys (erase_all ks m)
  erase_all-HasUniqueKeys [] m h = h
  erase_all-HasUniqueKeys (k ∷ ks) m h =
      erase_all-HasUniqueKeys ks (erase k m) (erase-HasUniqueKeys k m h)

  -- Whether a value is there and passes the test.
  abbrev pub holds : (V → Bool) → Option V → Bool
  holds p none = false
  holds p (some v) = p v

  keys_where-lookup :
      (p : V → Bool) (k : String) (m : Dict V)
      → HasUniqueKeys m
      → includes k (keys_where p m) ≡ holds p (lookup k m)
  unfolding lookup
  keys_where-lookup p k [] h = refl
  keys_where-lookup p k ((j, v) ∷ m) (fresh, h) = elim (Bool-cases (str_eq j k)) [
    | inl e ↦ rw e (at_key (keys_where-lookup p k m h) e)
    | inr e ↦ rw e (ground (arith, keys_where-lookup p k m h))
  ]
    where
      at_key :
          includes k (keys_where p m) ≡ holds p (lookup k m)
          → str_eq j k ≡ true
          → includes k (if p v then j ∷ keys_where p m else keys_where p m) ≡ p v
      at_key below e =
          let none_left : includes k (keys_where p m) ≡ false =
            below ∙ ap (λ x. holds p (lookup x m)) (sym ((eq_iff j k).0 e)) ∙ ap (holds p) fresh in
          ground arith

  -- Without the keys of the values that pass the test, a map has lost exactly those values.
  lookup-without :
      (p : V → Bool) (k : String) (m : Dict V)
      → HasUniqueKeys m
      → lookup k (erase_all (keys_where p m) m) ≡ unless p (lookup k m)
  lookup-without p k m h =
      lookup-erase_all k (keys_where p m) m ∙ rw (keys_where-lookup p k m h) (go (lookup k m))
    where
      go : (o : Option V) → (if holds p o then none else o) ≡ unless p o
      go none = refl
      go (some v) = refl

unless_both :
    (t : String) (ts : List String) (o : Option PanePlacement)
    → unless (λ p. includes p.tab_id ts) (unless (in_tab t) o)
      ≡ unless (λ p. includes p.tab_id (t ∷ ts)) o
unless_both t ts none = refl
unless_both t ts (some p) = ground (arith, eq_iff p.tab_id t, eq_iff t p.tab_id)

module _ {W : Type 0} where
  purge_tabs-panes :
      (ts : List String) (c : NameCache W) (pane : String)
      → lookup pane (purge_tabs ts c).0.pane_placements
        ≡ (if includes pane (purge_tabs ts c).1 then none else lookup pane c.pane_placements)
  unfolding purge_tabs purge_tab
  purge_tabs-panes [] c pane = refl
  purge_tabs-panes (t ∷ ts) c pane = ground (
    arith,
    purge_tabs-panes ts (purge_tab t c).0 pane,
    lookup-erase_all pane (keys_where (in_tab t) c.pane_placements) c.pane_placements,
    includes-append pane (purge_tab t c).1 (purge_tabs ts (purge_tab t c).0).1,
  )

  purge_tabs-workspaces :
      (ts : List String) (c : NameCache W) → (purge_tabs ts c).0.workspaces ≡ c.workspaces
  unfolding purge_tabs purge_tab
  purge_tabs-workspaces [] c = refl
  purge_tabs-workspaces (t ∷ ts) c = purge_tabs-workspaces ts (purge_tab t c).0

  purge_tabs-placements :
      (ts : List String) (c : NameCache W) (pane : String)
      → HasUniqueKeys c.pane_placements
      → lookup pane (purge_tabs ts c).0.pane_placements
        ≡ unless (λ p. includes p.tab_id ts) (lookup pane c.pane_placements)
  unfolding purge_tabs purge_tab
  purge_tabs-placements [] c pane h = nothing (lookup pane c.pane_placements)
    where
      nothing : (o : Option PanePlacement) → o ≡ unless (λ p. false) o
      nothing none = refl
      nothing (some p) = refl
  purge_tabs-placements (t ∷ ts) c pane h =
      purge_tabs-placements ts (purge_tab t c).0 pane
        (erase_all-HasUniqueKeys (keys_where (in_tab t) c.pane_placements) c.pane_placements h)
      ∙ ap (unless (λ p. includes p.tab_id ts)) (lookup-without (in_tab t) pane c.pane_placements h)
      ∙ unless_both t ts (lookup pane c.pane_placements)

  purge_tabs-tabs :
      (ts : List String) (c : NameCache W) (t : String)
      → lookup t (purge_tabs ts c).0.tabs ≡ (if includes t ts then none else lookup t c.tabs)
  unfolding purge_tabs purge_tab
  purge_tabs-tabs [] c t = refl
  purge_tabs-tabs (s ∷ ts) c t =
      ground (arith, purge_tabs-tabs ts (purge_tab s c).0 t, lookup-erase s t c.tabs, eq_iff s t)

  purge_tabs-parents :
      (ts : List String) (c : NameCache W) (t : String)
      → lookup t (purge_tabs ts c).0.tab_workspace
        ≡ (if includes t ts then none else lookup t c.tab_workspace)
  unfolding purge_tabs purge_tab
  purge_tabs-parents [] c t = refl
  purge_tabs-parents (s ∷ ts) c t = ground (
    arith,
    purge_tabs-parents ts (purge_tab s c).0 t,
    lookup-erase s t c.tab_workspace,
    eq_iff s t,
  )

  -- What is left after a workspace is purged, of each workspace, tab and pane, and what is reported.
  pub record IsPurged (id : String) (before : NameCache W)
      (after : NameCache W × List String × List String) : Type 0 where
    pub workspaces :
        (k : String)
        → lookup k after.0.workspaces ≡ (if str_eq id k then none else lookup k before.workspaces)
    pub reported :
        (t : String) → includes t after.1 ≡ holds (λ w. str_eq w id) (lookup t before.tab_workspace)
    pub tabs :
        (t : String)
        → lookup t after.0.tabs ≡ (if includes t after.1 then none else lookup t before.tabs)
    pub parents :
        (t : String)
        → lookup t after.0.tab_workspace
          ≡ (if includes t after.1 then none else lookup t before.tab_workspace)
    pub placements :
        (pane : String)
        → lookup pane after.0.pane_placements
          ≡ unless (λ p. includes p.tab_id after.1) (lookup pane before.pane_placements)
    pub panes :
        (pane : String)
        → lookup pane after.0.pane_placements
          ≡ (if includes pane after.2 then none else lookup pane before.pane_placements)

  pub purge_workspace-panes :
      (id : String) (c : NameCache W) (pane : String)
      → lookup pane (purge_workspace id c).0.pane_placements
        ≡ (if includes pane (purge_workspace id c).2 then none else lookup pane c.pane_placements)
  unfolding purge_workspace
  purge_workspace-panes id c pane =
      purge_tabs-panes (tabs_of id c) (record c { workspaces = erase id c.workspaces }) pane

  -- `purgeWorkspace` takes away exactly the entry of the workspace, and reports exactly the tabs whose
  -- workspace it was. Of tabs it takes away exactly the names and the workspaces of those; of panes
  -- exactly the placements in those, and these are the placements that it reports. A placement that
  -- names the workspace but a tab that the cache does not know stays.
  pub purge_workspace-IsPurged :
      (id : String) (c : NameCache W)
      → HasUniqueKeys c.tab_workspace
      → HasUniqueKeys c.pane_placements
      → IsPurged id c (purge_workspace id c)
  unfolding purge_workspace
  purge_workspace-IsPurged id c unique_tabs unique_panes = record {
    workspaces = λ k.
        ap (lookup k) (purge_tabs-workspaces (tabs_of id c) without)
        ∙ lookup-erase id k c.workspaces;
    reported = λ t. keys_where-lookup (λ w. str_eq w id) t c.tab_workspace unique_tabs;
    tabs = purge_tabs-tabs (tabs_of id c) without;
    parents = purge_tabs-parents (tabs_of id c) without;
    placements = λ pane. purge_tabs-placements (tabs_of id c) without pane unique_panes;
    panes = purge_workspace-panes id c;
  }
    where
      without : NameCache W
      without = record c { workspaces = erase id c.workspaces }
