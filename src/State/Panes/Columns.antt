-- ===== src/State/Panes/Columns.antt =====
-- The partition of apps/web/src/app/state/panes.store.ts into board columns: `columnKeyOf`,
-- `isFilteredOut`, `groupIntoColumns` and the toggles of the filters.
use kanhrd.Base.{
  String, Bool, ◌||◌, not, Option, none, some, List, [], ◌∷◌, ◌++◌, if◌then◌else◌, str_eq, Dict,
  lookup, insert, concat, includes, keep_if,
}
use kanhrd.Wire.{AgentStatus, Pane, status_text}
use kanhrd.State.Panes.Reducers.{pane_key}

-- A JavaScript `Set` of strings is a list without repetition.
pub record Filters : Type 0 where
  pub excluded_hosts : List String
  pub hidden_columns : List String

abbrev pub parked_column_key : String → String
parked_column_key id = concat ("parked:" ∷ id ∷ [])

-- The parked column of a pane, if the board has it.
abbrev pub live_column : Option String → List String → Option String
live_column none live = none
live_column (some id) live = if includes id live then some id else none

abbrev pub key_of_column : Option String → AgentStatus → String
key_of_column none status = status_text status
key_of_column (some id) status = parked_column_key id

unfoldable pub column_key_of : Pane → Dict String → List String → String
column_key_of pane membership live_parked =
    key_of_column (live_column (lookup (pane_key pane.host pane.id) membership) live_parked)
      pane.agent_status

unfoldable pub is_filtered_out : Pane → Filters → Dict String → List String → Bool
unfolding column_key_of
is_filtered_out pane filters membership live_parked =
    includes pane.host filters.excluded_hosts
    || includes (column_key_of pane membership live_parked) filters.hidden_columns

pub record StatusColumns : Type 0 where
  pub idle : List Pane
  pub working : List Pane
  pub blocked : List Pane
  pub done : List Pane
  pub unknown : List Pane

pub record BoardColumns : Type 0 where
  pub status : StatusColumns
  pub parked : Dict (List Pane)

-- `status[name]`
abbrev pub column : AgentStatus → StatusColumns → List Pane
column AgentStatus.idle c = c.idle
column AgentStatus.working c = c.working
column AgentStatus.blocked c = c.blocked
column AgentStatus.done c = c.done
column AgentStatus.unknown c = c.unknown

-- `status[name].push(pane)`
abbrev pub push_status : AgentStatus → Pane → StatusColumns → StatusColumns
push_status AgentStatus.idle p c = record c { idle = c.idle ++ p ∷ [] }
push_status AgentStatus.working p c = record c { working = c.working ++ p ∷ [] }
push_status AgentStatus.blocked p c = record c { blocked = c.blocked ++ p ∷ [] }
push_status AgentStatus.done p c = record c { done = c.done ++ p ∷ [] }
push_status AgentStatus.unknown p c = record c { unknown = c.unknown ++ p ∷ [] }

-- `new Map(parkedColumnIds.map((id) => [id, []]))`
abbrev pub empty_buckets : List String → Dict (List Pane) → Dict (List Pane)
empty_buckets [] m = m
empty_buckets (id ∷ ids) m = empty_buckets ids (insert id [] m)

-- `columnId === undefined ? undefined : parked.get(columnId)`
abbrev pub bucket_at : Option String → Dict (List Pane) → Option (String × List Pane)
bucket_at none parked = none
bucket_at (some id) parked = elim (lookup id parked) [ none ↦ none | some b ↦ some (id, b) ]

abbrev pub push_bucket : Option (String × List Pane) → Pane → BoardColumns → BoardColumns
push_bucket none pane c = record c { status = push_status pane.agent_status pane c.status }
push_bucket (some (id, b)) pane c = record c { parked = insert id (b ++ pane ∷ []) c.parked }

-- One turn of the loop that places the panes.
unfoldable pub place : Filters → Dict String → List String → Pane → BoardColumns → BoardColumns
unfolding is_filtered_out
place filters membership live pane c =
    if is_filtered_out pane filters membership live
    then c
    else push_bucket (bucket_at (lookup (pane_key pane.host pane.id) membership) c.parked) pane c

unfoldable pub place_all :
    Filters → Dict String → List String → List Pane → BoardColumns → BoardColumns
unfolding place
place_all filters membership live [] c = c
place_all filters membership live (pane ∷ panes) c =
    place_all filters membership live panes (place filters membership live pane c)

abbrev pub no_columns : List String → BoardColumns
no_columns ids = record {
  status = record { idle = []; working = []; blocked = []; done = []; unknown = [] };
  parked = empty_buckets ids [];
}

unfoldable pub group_into_columns : List Pane → Filters → Dict String → List String → BoardColumns
unfolding place_all
group_into_columns panes filters membership parked_column_ids =
    place_all filters membership parked_column_ids panes (no_columns parked_column_ids)

-- `delete` from a set of strings
abbrev pub without : String → List String → List String
without x xs = keep_if (λ y. not (str_eq y x)) xs

abbrev pub toggle : String → List String → List String
toggle x xs = if includes x xs then without x xs else xs ++ x ∷ []

unfoldable pub toggle_host : Filters → String → Filters
toggle_host filters host = record filters { excluded_hosts = toggle host filters.excluded_hosts }

unfoldable pub toggle_column : Filters → String → Filters
toggle_column filters key = record filters { hidden_columns = toggle key filters.hidden_columns }
