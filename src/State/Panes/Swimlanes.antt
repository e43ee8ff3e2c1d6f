-- ===== src/State/Panes/Swimlanes.antt =====
-- apps/web/src/app/state/panes.store.ts: `groupIntoSwimlanes` and `bandOf`, the URL scope of the board
-- and the counts of its columns. The comparison of labels is a parameter.
pub mod Bands
use kanhrd.Base.{
  ℕ, suc, String, Bool, true, false, ◌&&◌, not, Option, none, some, List, [], ◌∷◌, ◌++◌,
  if◌then◌else◌, str_eq, Dict, lookup, insert, includes, keep_if, or_else,
}
use kanhrd.Wire.{AgentStatus, Project, Pane, status_text}
use kanhrd.State.Panes.Reducers.{pane_key}
use kanhrd.State.Panes.Columns.{
  Filters, parked_column_key, column_key_of, is_filtered_out, BoardColumns, group_into_columns,
}

-- `SwimlaneDimension`, without `none`.
pub data Dimension : Type 0 where
  by_host : Dimension
  by_repository : Dimension
  by_checkout : Dimension
  by_tab : Dimension

-- The key and the label of a band.
pub record BandName : Type 0 where
  pub key : String
  pub label : String

abbrev pub ungrouped_band_key : String
ungrouped_band_key = "ungrouped"

abbrev pub band_by : (Project → String) → Option Project → BandName
band_by text none = record { key = ungrouped_band_key; label = "" }
band_by text (some p) = record { key = text p; label = text p }

unfoldable pub band_of : Pane → Dimension → BandName
band_of pane by_host = record { key = pane.host; label = pane.host }
band_of pane by_repository = band_by (λ p. p.repo_name) pane.project
band_of pane by_checkout = band_by (λ p. p.checkout_path) pane.project
band_of pane by_tab = record { key = pane_key pane.host pane.tab.id; label = pane.tab.name }

pub record Band : Type 0 where
  pub label : String
  pub members : List Pane

abbrev pub joined_band : Option Band → BandName → Pane → Band
joined_band none name pane = record { label = name.label; members = pane ∷ [] }
joined_band (some band) name pane = record {
  label = band.label;
  members = band.members ++ pane ∷ [];
}

abbrev pub join_band : BandName → Pane → Dict Band → Dict Band
join_band name pane bands = insert name.key (joined_band (lookup name.key bands) name pane) bands

-- The loop that puts the panes into bands.
unfoldable pub bands_of :
    Filters → Dict String → List String → Dimension → List Pane → Dict Band → Dict Band
unfolding band_of is_filtered_out
bands_of filters membership live dimension [] bands = bands
bands_of filters membership live dimension (pane ∷ panes) bands =
    bands_of filters membership live dimension panes (
      if is_filtered_out pane filters membership live
      then bands
      else join_band (band_of pane dimension) pane bands)

pub record Swimlane : Type 0 where
  pub key : String
  pub label : String
  pub columns : BoardColumns

unfoldable pub lanes_of : Filters → Dict String → List String → Dict Band → List Swimlane
lanes_of filters membership ids [] = []
lanes_of filters membership ids ((key, band) ∷ bands) =
    record {
      key = key;
      label = band.label;
      columns = group_into_columns band.members filters membership ids;
    }
    ∷ lanes_of filters membership ids bands

-- Whether the comparison of the sort is not positive; `at_most` is that of the labels.
abbrev pub lane_at_most : (String → String → Bool) → Swimlane → Swimlane → Bool
lane_at_most at_most a b =
    if str_eq a.key ungrouped_band_key
    then str_eq b.key ungrouped_band_key
    else if str_eq b.key ungrouped_band_key
    then true
    else at_most a.label b.label

unfoldable pub insert_lane : (String → String → Bool) → Swimlane → List Swimlane → List Swimlane
insert_lane at_most a [] = a ∷ []
insert_lane at_most a (b ∷ bs) =
    let rest = insert_lane at_most a bs in if lane_at_most at_most a b then a ∷ b ∷ bs else b ∷ rest

unfoldable pub sort_lanes : (String → String → Bool) → List Swimlane → List Swimlane
unfolding insert_lane
sort_lanes at_most [] = []
sort_lanes at_most (a ∷ as_) = insert_lane at_most a (sort_lanes at_most as_)

-- None is the dimension `none`: one band for all cards.
unfoldable pub group_into_swimlanes :
    (String → String → Bool)
    → List Pane
    → Filters
    → Option Dimension
    → Dict String
    → List String
    → List Swimlane
unfolding bands_of lanes_of sort_lanes
group_into_swimlanes at_most panes filters none membership ids =
    record { key = "all"; label = ""; columns = group_into_columns panes filters membership ids }
    ∷ []
group_into_swimlanes at_most panes filters (some dimension) membership ids =
    sort_lanes at_most
      (lanes_of filters membership ids (bands_of filters membership ids dimension panes []))

-- `scopeSignal`
pub record Scope : Type 0 where
  pub host : String
  pub workspace_id : String
  pub tab_id : Option String

abbrev pub in_tab_scope : Option String → Pane → Bool
in_tab_scope none pane = true
in_tab_scope (some tab_id) pane = str_eq pane.tab.id tab_id

unfoldable pub in_scope : Option Scope → Pane → Bool
in_scope none pane = true
in_scope (some scope) pane =
    str_eq pane.host scope.host
    && (str_eq pane.workspace.id scope.workspace_id && in_tab_scope scope.tab_id pane)

-- `scopedPanesSignal`
unfoldable pub scoped_panes : Option Scope → List Pane → List Pane
unfolding in_scope
scoped_panes scope panes = keep_if (in_scope scope) panes

abbrev pub zero_counts : List String → Dict ℕ → Dict ℕ
zero_counts [] m = m
zero_counts (k ∷ ks) m = zero_counts ks (insert k 0 m)

abbrev pub parked_keys : List String → List String
parked_keys [] = []
parked_keys (id ∷ ids) = parked_column_key id ∷ parked_keys ids

abbrev pub status_keys : List String
status_keys =
    status_text AgentStatus.working
    ∷ status_text AgentStatus.blocked
    ∷ status_text AgentStatus.idle
    ∷ status_text AgentStatus.done
    ∷ status_text AgentStatus.unknown
    ∷ []

abbrev pub count_one : String → Dict ℕ → Dict ℕ
count_one key counts = insert key (suc (or_else (lookup key counts) 0)) counts

unfoldable pub count_panes :
    Option Scope → List String → Dict String → List String → List Pane → Dict ℕ → Dict ℕ
unfolding in_scope column_key_of
count_panes scope excluded membership live [] counts = counts
count_panes scope excluded membership live (pane ∷ panes) counts =
    count_panes scope excluded membership live panes (
      if not (includes pane.host excluded) && in_scope scope pane
      then count_one (column_key_of pane membership live) counts
      else counts)

-- `columnCountsSignal`
unfoldable pub column_counts :
    Option Scope → List String → Dict String → List String → List Pane → Dict ℕ
unfolding count_panes
column_counts scope excluded membership live panes =
    count_panes scope excluded membership live panes
      (zero_counts (parked_keys live) (zero_counts status_keys []))
