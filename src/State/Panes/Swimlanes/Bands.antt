-- ===== src/State/Panes/Swimlanes/Bands.antt =====
-- Which cards a swimlane of apps/web/src/app/state/panes.store.ts holds.
use kanhrd.Base.{
  String, ◌≡◌, refl, sym, ap, ◌∙◌, subst, Bool, true, false, ◌&&◌, not, Option, none, some, List,
  [], ◌∷◌, ◌++◌, if◌then◌else◌, str_eq, Dict, lookup, keep_if, find, arith, inl, inr, Bool-cases,
  eq_iff, lookup-insert, append_assoc, append-nil, HasUniqueKeys, insert-HasUniqueKeys,
}
use kanhrd.Wire.{AgentStatus, Pane}
use kanhrd.State.Panes.Columns.{Filters, is_filtered_out, column, group_into_columns}
use kanhrd.State.Panes.Placing.{shows_in_status}
use kanhrd.State.Panes.Partition.{group_into_columns-status}
use kanhrd.State.Panes.Swimlanes.{
  Dimension, BandName, band_of, Band, joined_band, join_band, bands_of, Swimlane, lanes_of,
  lane_at_most, insert_lane, sort_lanes, group_into_swimlanes,
}

abbrev members : Option Band → List Pane
members none = []
members (some band) = band.members

-- The cards of one band.
abbrev pub belongs : Filters → Dict String → List String → Dimension → String → Pane → Bool
belongs f m ids d key pane = not (is_filtered_out pane f m ids) && str_eq (band_of pane d).key key

members-joined_band :
    (o : Option Band) (name : BandName) (pane : Pane)
    → (joined_band o name pane).members ≡ members o ++ pane ∷ []
members-joined_band none name pane = refl
members-joined_band (some band) name pane = refl

members-join_band :
    (k : String) (name : BandName) (pane : Pane) (bands : Dict Band)
    → members (lookup k (join_band name pane bands)) ≡ (
        if str_eq name.key k
        then members (lookup k bands) ++ pane ∷ []
        else members (lookup k bands))
members-join_band k name pane bands = elim (Bool-cases (str_eq name.key k)) [
  | inl e ↦
      rw (lookup-insert, e)
        (subst
          (λ j.
            (joined_band (lookup j bands) name pane).members
            ≡ members (lookup k bands) ++ pane ∷ [])
          (sym ((eq_iff name.key k).0 e)) (members-joined_band (lookup k bands) name pane))
  | inr e ↦ rw (lookup-insert, e) refl
]

members-bands_of :
    (f : Filters) (m : Dict String) (ids : List String) (d : Dimension) (k : String)
    (panes : List Pane) (bands : Dict Band)
    → members (lookup k (bands_of f m ids d panes bands))
      ≡ members (lookup k bands) ++ keep_if (belongs f m ids d k) panes
unfolding bands_of
members-bands_of f m ids d k [] bands = sym (append-nil _)
members-bands_of f m ids d k (pane ∷ panes) bands =
    elim (Bool-cases (is_filtered_out pane f m ids)) [
      | inl e ↦ rw e (members-bands_of f m ids d k panes bands)
      | inr e ↦ elim (Bool-cases (str_eq (band_of pane d).key k)) [
        | inl t ↦
            rw (e, t)
              (members-bands_of f m ids d k panes (join_band (band_of pane d) pane bands)
                ∙ rw (members-join_band, t) (append_assoc (members (lookup k bands)) (pane ∷ []) _))
        | inr t ↦
            rw (e, t)
              (members-bands_of f m ids d k panes (join_band (band_of pane d) pane bands)
                ∙ rw (members-join_band, t) refl)
      ]
    ]

bands_of-HasUniqueKeys :
    (f : Filters) (m : Dict String) (ids : List String) (d : Dimension) (panes : List Pane)
    (bands : Dict Band)
    → HasUniqueKeys bands
    → HasUniqueKeys (bands_of f m ids d panes bands)
unfolding bands_of
bands_of-HasUniqueKeys f m ids d [] bands h = h
bands_of-HasUniqueKeys f m ids d (pane ∷ panes) bands h =
    elim (Bool-cases (is_filtered_out pane f m ids)) [
      | inl e ↦ rw e (bands_of-HasUniqueKeys f m ids d panes bands h)
      | inr e ↦ rw e (
          bands_of-HasUniqueKeys f m ids d panes _
            (insert-HasUniqueKeys (band_of pane d).key _ bands h))
    ]

-- `lanes.find((lane) => lane.key === key)`
abbrev pub lane_at : String → List Swimlane → Option Swimlane
lane_at key = find (λ l. str_eq l.key key)

abbrev lane_of : Filters → Dict String → List String → String → Option Band → Option Swimlane
lane_of f m ids key none = none
lane_of f m ids key (some band) =
    some
      (record { key = key; label = band.label; columns = group_into_columns band.members f m ids })

lane_at-lanes_of :
    (f : Filters) (m : Dict String) (ids : List String) (k : String) (bands : Dict Band)
    → lane_at k (lanes_of f m ids bands) ≡ lane_of f m ids k (lookup k bands)
unfolding lanes_of lookup
lane_at-lanes_of f m ids k [] = refl
lane_at-lanes_of f m ids k ((j, band) ∷ bands) = elim (Bool-cases (str_eq j k)) [
  | inl e ↦ rw (e, (eq_iff j k).0 e) refl
  | inr e ↦ rw e (lane_at-lanes_of f m ids k bands)
]

lane_at-insert_lane :
    (at_most : String → String → Bool) (k : String) (a : Swimlane) (bs : List Swimlane)
    → lane_at a.key bs ≡ none
    → lane_at k (insert_lane at_most a bs) ≡ lane_at k (a ∷ bs)
unfolding insert_lane
lane_at-insert_lane at_most k a [] h = refl
lane_at-insert_lane at_most k a (b ∷ bs) h = elim (Bool-cases (lane_at_most at_most a b)) [
  | inl e ↦ rw e refl
  | inr e ↦ rw e (
      ground (
        arith,
        lane_at-insert_lane at_most k a bs (ground arith),
        eq_iff a.key k,
        eq_iff b.key k,
        eq_iff b.key a.key,
      ))
]

-- The keys of a list of bands are all different.
abbrev HasUniqueLanes : List Swimlane → Type 0
HasUniqueLanes [] = Unit
HasUniqueLanes (a ∷ rest) = (lane_at a.key rest ≡ none) × HasUniqueLanes rest

lane_at-sort_lanes :
    (at_most : String → String → Bool) (k : String) (lanes : List Swimlane)
    → HasUniqueLanes lanes
    → lane_at k (sort_lanes at_most lanes) ≡ lane_at k lanes
unfolding sort_lanes
lane_at-sort_lanes at_most k [] h = refl
lane_at-sort_lanes at_most k (a ∷ rest) (new, h) =
    lane_at-insert_lane at_most k a (sort_lanes at_most rest)
      (lane_at-sort_lanes at_most a.key rest h ∙ new)
    ∙ ap (λ o. if str_eq a.key k then some a else o) (lane_at-sort_lanes at_most k rest h)

lanes_of-HasUniqueLanes :
    (f : Filters) (m : Dict String) (ids : List String) (bands : Dict Band)
    → HasUniqueKeys bands
    → HasUniqueLanes (lanes_of f m ids bands)
unfolding lanes_of
lanes_of-HasUniqueLanes f m ids [] h = tt
lanes_of-HasUniqueLanes f m ids ((k, band) ∷ bands) (new, h) = (
  lane_at-lanes_of f m ids k bands ∙ ap (lane_of f m ids k) new,
  lanes_of-HasUniqueLanes f m ids bands h,
)

-- The cards of a status in a band that may be absent.
abbrev pub cards : AgentStatus → Option Swimlane → List Pane
cards s none = []
cards s (some lane) = column s lane.columns.status

cards-lane_of :
    (f : Filters) (m : Dict String) (ids : List String) (k : String) (s : AgentStatus)
    (o : Option Band)
    → cards s (lane_of f m ids k o) ≡ keep_if (shows_in_status f m ids s) (members o)
cards-lane_of f m ids k s none = refl
cards-lane_of f m ids k s (some band) = group_into_columns-status band.members f m ids s

if_cons :
    (b : Bool) (pane : Pane) {xs ys : List Pane}
    → xs ≡ ys
    → (if b then pane ∷ xs else xs) ≡ (if b then pane ∷ ys else ys)
if_cons true pane h = ap (λ l. pane ∷ l) h
if_cons false pane h = h

keep_shown :
    (f : Filters) (m : Dict String) (ids : List String) (d : Dimension) (k : String)
    (s : AgentStatus) (panes : List Pane)
    → keep_if (shows_in_status f m ids s) (keep_if (belongs f m ids d k) panes)
      ≡ keep_if (λ p. str_eq (band_of p d).key k && shows_in_status f m ids s p) panes
keep_shown f m ids d k s [] = refl
keep_shown f m ids d k s (pane ∷ panes) =
    let rest = keep_shown f m ids d k s panes in
    elim (Bool-cases (is_filtered_out pane f m ids)) [
      | inl e ↦ elim (Bool-cases (str_eq (band_of pane d).key k)) [
        | inl t ↦ rw (e, t) rest
        | inr t ↦ rw (e, t) rest
      ]
      | inr e ↦ elim (Bool-cases (str_eq (band_of pane d).key k)) [
        | inl t ↦ rw (e, t) (rw e (if_cons _ pane rest))
        | inr t ↦ rw (e, t) rest
      ]
    ]

-- In every status column of every band stand, in the order in which the panes come, exactly the panes
-- that the ungrouped board shows in that column and whose band it is: bands group the cards of the
-- board, and none is lost, doubled or in another column.
pub group_into_swimlanes-column :
    (at_most : String → String → Bool) (panes : List Pane) (filters : Filters) (d : Dimension)
    (membership : Dict String) (ids : List String) (k : String) (s : AgentStatus)
    → cards s (lane_at k (group_into_swimlanes at_most panes filters (some d) membership ids))
      ≡ keep_if
          (λ p. str_eq (band_of p d).key k && shows_in_status filters membership ids s p)
          panes
unfolding group_into_swimlanes lookup
group_into_swimlanes-column at_most panes filters d membership ids k s =
    let bands = bands_of filters membership ids d panes [] in
    ap (cards s) (
      lane_at-sort_lanes at_most k (lanes_of filters membership ids bands) (
        lanes_of-HasUniqueLanes filters membership ids bands
          (bands_of-HasUniqueKeys filters membership ids d panes [] tt))
      ∙ lane_at-lanes_of filters membership ids k bands)
    ∙ cards-lane_of filters membership ids k s (lookup k bands)
    ∙ ap (keep_if (shows_in_status filters membership ids s))
        (members-bands_of filters membership ids d k panes [])
    ∙ keep_shown filters membership ids d k s panes
