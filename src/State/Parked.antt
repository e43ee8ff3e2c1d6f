-- ===== src/State/Parked.antt =====
-- apps/web/src/app/state/parked.store.ts: the columns that the operator defines, and which pane sits
-- in which. Each method is a function on `ParkedState`; `order` is a natural number.
pub mod Fresh
pub mod Order
pub mod Counts
pub mod Membership
use kanhrd.Base.{
  ℕ, zero, suc, ◌+◌, ◌-◌, max, min, String, Bool, true, false, not, ◌&&◌, ◌||◌, Option, none, some,
  List, [], ◌∷◌, ◌++◌, map, if◌then◌else◌, str_eq, leb, ltb, ◌==◌, Dict, lookup, insert, erase,
  keep_values, concat, decimal, includes, keep_if, any, find, length, get_elem?, take, drop, length,
  is_some,
}
use kanhrd.Wire.{AgentStatus, status_eq}

pub data ExitRule : Type 0 where
  never agent_activity : ExitRule

pub record ParkedColumn : Type 0 where
  pub id : String
  pub name : String
  pub exit_rule : ExitRule
  pub order : ℕ

pub record ParkedState : Type 0 where
  pub columns : List ParkedColumn
  pub membership : Dict String

abbrev pub default_parked : ParkedState
default_parked = record { columns = []; membership = [] }

abbrev pub ids_of : List ParkedColumn → List String
ids_of [] = []
ids_of (c ∷ cs) = c.id ∷ ids_of cs

unfoldable pub should_exit : ExitRule → AgentStatus → AgentStatus → Bool
should_exit never previous next = false
should_exit agent_activity previous next =
    not (status_eq next previous)
    && (status_eq next AgentStatus.working || status_eq next AgentStatus.blocked)

abbrev pub column_name : ℕ → String
column_name n = concat ("p" ∷ decimal n ∷ [])

-- The loop of `nextColumnId`, on fuel.
unfoldable pub free_id : ℕ → ℕ → List String → Option String
free_id zero n taken = none
free_id (suc fuel) n taken =
    let rest = free_id fuel (suc n) taken in
    if includes (column_name n) taken then rest else some (column_name n)

unfoldable pub next_column_id : List ParkedColumn → Option String
unfolding free_id
next_column_id columns = free_id (suc (length columns)) 1 (ids_of columns)

-- `columns.reduce((max, c) => Math.max(max, c.order + 1), 0)`
abbrev pub next_order : ℕ → List ParkedColumn → ℕ
next_order m [] = m
next_order m (c ∷ cs) = next_order (max m (c.order + 1)) cs

abbrev pub append_column : String → ExitRule → ParkedState → Option String → ParkedState
append_column name rule s none = s
append_column name rule s (some id) = record s {
  columns =
      s.columns
      ++ record { id = id; name = name; exit_rule = rule; order = next_order 0 s.columns } ∷ [];
}

unfoldable pub create_column : String → ExitRule → ParkedState → ParkedState
unfolding next_column_id
create_column name rule s = append_column name rule s (next_column_id s.columns)

abbrev pub update_in :
    String → (ParkedColumn → ParkedColumn) → List ParkedColumn → List ParkedColumn
update_in id update [] = []
update_in id update (c ∷ cs) = (if str_eq c.id id then update c else c) ∷ update_in id update cs

unfoldable pub update_column : String → (ParkedColumn → ParkedColumn) → ParkedState → ParkedState
update_column id update s = record s { columns = update_in id update s.columns }

unfoldable pub rename_column : String → String → ParkedState → ParkedState
unfolding update_column
rename_column id name s = update_column id (λ c. record c { name = name }) s

unfoldable pub set_exit_rule : String → ExitRule → ParkedState → ParkedState
unfolding update_column
set_exit_rule id rule s = update_column id (λ c. record c { exit_rule = rule }) s

unfoldable pub remove_column : String → ParkedState → ParkedState
remove_column id s = record {
  columns = keep_if (λ c. not (str_eq c.id id)) s.columns;
  membership = keep_values (λ column_id. not (str_eq column_id id)) s.membership;
}

abbrev pub has_column : String → ParkedState → Bool
has_column id s = any (λ c. str_eq c.id id) s.columns

unfoldable pub park : String → String → ParkedState → ParkedState
park key column_id s =
    if has_column column_id s
    then record s { membership = insert key column_id s.membership }
    else s

-- `Object.entries(membership).filter(([key]) => !dropped.has(key))`
unfoldable pub drop_keys : List String → Dict String → Dict String
drop_keys dropped [] = []
drop_keys dropped ((k, c) ∷ m) =
    let rest = drop_keys dropped m in if includes k dropped then rest else (k, c) ∷ rest

unfoldable pub release_panes : List String → ParkedState → ParkedState
unfolding drop_keys
release_panes [] s = s
release_panes (k ∷ ks) s =
    let entries = drop_keys (k ∷ ks) s.membership in
    if length entries == length s.membership then s else record s { membership = entries }

unfoldable pub unpark : String → ParkedState → ParkedState
unfolding release_panes
unpark key s = release_panes (key ∷ []) s

-- The column in which a pane sits.
abbrev pub column_by_id : Option String → ParkedState → Option ParkedColumn
column_by_id none s = none
column_by_id (some id) s = if str_eq id "" then none else find (λ c. str_eq c.id id) s.columns

abbrev pub exit_from :
    Option ParkedColumn → String → AgentStatus → AgentStatus → ParkedState → ParkedState
exit_from none key previous next s = s
exit_from (some c) key previous next s =
    if should_exit c.exit_rule previous next then unpark key s else s

unfoldable pub apply_agent_status_changed :
    String → AgentStatus → AgentStatus → ParkedState → ParkedState
unfolding unpark should_exit
apply_agent_status_changed key previous next s =
    exit_from (column_by_id (lookup key s.membership) s) key previous next s

unfoldable pub clear : ParkedState → ParkedState
clear s = default_parked

-- The columns sorted by `order`; the sort is stable.
unfoldable pub insert_by_order : ParkedColumn → List ParkedColumn → List ParkedColumn
insert_by_order c [] = c ∷ []
insert_by_order c (d ∷ ds) =
    let rest = insert_by_order c ds in if ltb d.order c.order then d ∷ rest else c ∷ d ∷ ds

unfoldable pub sort_columns : List ParkedColumn → List ParkedColumn
unfolding insert_by_order
sort_columns [] = []
sort_columns (c ∷ cs) = insert_by_order c (sort_columns cs)

-- `findIndex`, none for -1.
abbrev pub index_of : String → List ParkedColumn → Option ℕ
index_of id [] = none
index_of id (c ∷ cs) =
    let rest = index_of id cs in
    if str_eq c.id id then some 0 else elim rest [ none ↦ none | some i ↦ some (suc i) ]

-- An integer offset: to the left or to the right.
pub data Delta : Type 0 where
  left right : ℕ → Delta

-- `Math.min(Math.max(from + delta, 0), length - 1)`
abbrev pub clamp_move : ℕ → Delta → ℕ → ℕ
clamp_move from (left d) n = min (from - d) (n - 1)
clamp_move from (right d) n = min (from + d) (n - 1)

-- `ordered.map((column, index) => ({ ...column, order: index }))`
abbrev pub renumber : ℕ → List ParkedColumn → List ParkedColumn
renumber i [] = []
renumber i (c ∷ cs) = record c { order = i } ∷ renumber (suc i) cs

abbrev pub insert_at : ℕ → ParkedColumn → List ParkedColumn → List ParkedColumn
insert_at i c cs = take i cs ++ c ∷ drop i cs

-- The two calls of `splice`.
abbrev pub shift : ℕ → ℕ → List ParkedColumn → List ParkedColumn
shift from to cs = elim (get_elem? cs from) [
  | none ↦ cs
  | some moved ↦ insert_at to moved (take from cs ++ drop (suc from) cs)
]

abbrev pub move_from : Option ℕ → Delta → ParkedState → ParkedState
move_from none delta s = s
move_from (some from) delta s =
    let ordered = sort_columns s.columns in
    let to = clamp_move from delta (length ordered) in
    if to == from then s else record s { columns = renumber 0 (shift from to ordered) }

abbrev pub is_zero : Delta → Bool
is_zero (left d) = d == 0
is_zero (right d) = d == 0

unfoldable pub move_column : String → Delta → ParkedState → ParkedState
unfolding sort_columns
move_column id delta s =
    if is_zero delta then s else move_from (index_of id (sort_columns s.columns)) delta s
