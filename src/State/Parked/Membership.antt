-- ===== src/State/Parked/Membership.antt =====
-- apps/web/src/app/state/parked.store.ts: what every sequence of calls keeps true of the columns and of
-- the membership.
use kanhrd.Base.{
  ℕ, some_inj, zero, suc, ◌≤◌, String, ◌≡◌, refl, sym, ◌∙◌, subst, true, false, not, Option, none,
  some, List, [], ◌∷◌, if◌then◌else◌, str_eq, ◌==◌, Dict, lookup, keep_values, includes, keep_if,
  any, arith, eq_iff, inl, inr, Bool-cases, AllValues, AllValues-insert, length,
}
use kanhrd.Wire.{AgentStatus}
use kanhrd.State.Parked.{
  ExitRule, ParkedColumn, ParkedState, default_parked, column_name, free_id, next_column_id,
  next_order, append_column, create_column, update_column, rename_column, set_exit_rule,
  remove_column, has_column, park, drop_keys, release_panes, unpark, column_by_id, exit_from,
  apply_agent_status_changed, clear, sort_columns, index_of, Delta, shift, move_from, move_column,
  ids_of, is_zero, clamp_move, should_exit,
}
use kanhrd.State.Parked.Counts.{
  count, IsConsistent, Action, act, run, AllValues-weaken, count-append, count-update_in,
  count-sort_columns, count-renumber, count-shift, create, rename, set_rule, move, remove, park_at,
  release, status_changed, clear_all,
}

-- Two states with the same membership and as many columns of each id.
record SameColumns (s t : ParkedState) : Type 0 where
  counts : (x : String) → count x s.columns ≡ count x t.columns
  membership : s.membership ≡ t.membership

SameColumns-IsConsistent : (s t : ParkedState) → SameColumns t s → IsConsistent s → IsConsistent t
SameColumns-IsConsistent s t same h = record {
  distinct = λ x. omega (arith, same.counts x, h.distinct x);
  known =
      AllValues-weaken t.membership (λ id p. omega (arith, same.counts id))
        (subst (AllValues (λ id. 1 ≤ count id s.columns)) (sym same.membership) h.known);
}

no_change : (s : ParkedState) → SameColumns s s
no_change s = record { counts = λ x. refl; membership = refl }

move_from-SameColumns :
    (o : Option ℕ) (delta : Delta) (s : ParkedState) → SameColumns (move_from o delta s) s
move_from-SameColumns none delta s = no_change s
move_from-SameColumns (some from) delta s =
    elim (Bool-cases (clamp_move from delta (length (sort_columns s.columns)) == from)) [
      | inl e ↦ rw e (no_change s)
      | inr e ↦ rw e (record {
        counts = λ x.
            count-renumber x 0 (
              shift from (clamp_move from delta (length (sort_columns s.columns)))
                (sort_columns s.columns))
            ∙ count-shift x from (clamp_move from delta (length (sort_columns s.columns)))
                (sort_columns s.columns)
            ∙ count-sort_columns x s.columns;
        membership = refl;
      })
    ]

move_column-SameColumns :
    (id : String) (delta : Delta) (s : ParkedState) → SameColumns (move_column id delta s) s
unfolding move_column
move_column-SameColumns id delta s = elim (Bool-cases (is_zero delta)) [
  | inl e ↦ rw e (no_change s)
  | inr e ↦ rw e (move_from-SameColumns (index_of id (sort_columns s.columns)) delta s)
]

update_column-SameColumns :
    (id : String) (f : ParkedColumn → ParkedColumn) (s : ParkedState)
    → ((c : ParkedColumn) → (f c).id ≡ c.id)
    → SameColumns (update_column id f s) s
unfolding update_column
update_column-SameColumns id f s h = record {
  counts = λ x. count-update_in x id f s.columns h;
  membership = refl;
}

count-includes :
    (x : String) (cs : List ParkedColumn) → includes x (ids_of cs) ≡ false → count x cs ≡ 0
count-includes x [] h = refl
count-includes x (c ∷ cs) h = ground (arith, eq_iff c.id x, eq_iff x c.id, count-includes x cs)

count-any :
    (x : String) (cs : List ParkedColumn) → any (λ c. str_eq c.id x) cs ≡ true → 1 ≤ count x cs
count-any x [] h = absurd (ground arith)
count-any x (c ∷ cs) h = ground (arith, count-any x cs)

-- The id that the search for a free one returns is not taken.
pub free_id-fresh :
    (fuel n : ℕ) (taken : List String) (id : String)
    → free_id fuel n taken ≡ some id
    → includes id taken ≡ false
unfolding free_id
free_id-fresh zero n taken id h = absurd (ground arith)
free_id-fresh (suc fuel) n taken id h = elim (Bool-cases (includes (column_name n) taken)) [
  | inl e ↦ free_id-fresh fuel (suc n) taken id (rw e at h)
  | inr e ↦ subst (λ i. includes i taken ≡ false) (some_inj (rw e at h)) e
]

abbrev new_column : String → String → ExitRule → ParkedState → ParkedColumn
new_column id name rule s = record {
  id = id;
  name = name;
  exit_rule = rule;
  order = next_order 0 s.columns;
}

append_column-IsConsistent :
    (name : String) (rule : ExitRule) (s : ParkedState) (o : Option String)
    → ((id : String) → o ≡ some id → count id s.columns ≡ 0)
    → IsConsistent s
    → IsConsistent (append_column name rule s o)
append_column-IsConsistent name rule s none fresh h = h
append_column-IsConsistent name rule s (some id) fresh h = record {
  distinct = λ x. ground (
    arith,
    count-append x s.columns (new_column id name rule s ∷ []),
    h.distinct x,
    fresh id refl,
    eq_iff id x,
  );
  known =
      AllValues-weaken s.membership
        (λ x p. omega (arith, count-append x s.columns (new_column id name rule s ∷ []))) h.known;
}

create_column-IsConsistent :
    (name : String) (rule : ExitRule) (s : ParkedState)
    → IsConsistent s
    → IsConsistent (create_column name rule s)
unfolding create_column next_column_id
create_column-IsConsistent name rule s h =
    append_column-IsConsistent name rule s (next_column_id s.columns)
      (λ id e.
        count-includes id s.columns
          (free_id-fresh (suc (length s.columns)) 1 (ids_of s.columns) id e))
      h

count-keep_if :
    (x id : String) (cs : List ParkedColumn)
    → count x (keep_if (λ c. not (str_eq c.id id)) cs) ≡ (if str_eq x id then 0 else count x cs)
count-keep_if x id [] = ground arith
count-keep_if x id (c ∷ cs) =
    ground (arith, count-keep_if x id cs, eq_iff c.id id, eq_iff c.id x, eq_iff x id)

removed-known :
    (id : String) (cs : List ParkedColumn) (m : Dict String)
    → AllValues (λ x. 1 ≤ count x cs) m
    → AllValues
        (λ x. 1 ≤ count x (keep_if (λ c. not (str_eq c.id id)) cs))
        (keep_values (λ x. not (str_eq x id)) m)
unfolding keep_values
removed-known id cs [] h = tt
removed-known id cs ((k, x) ∷ m) (p, h) = elim (Bool-cases (str_eq x id)) [
  | inl e ↦ rw e (removed-known id cs m h)
  | inr e ↦ rw e (omega (arith, kept), removed-known id cs m h)
]
  where
    kept : str_eq x id ≡ false → count x (keep_if (λ c. not (str_eq c.id id)) cs) ≡ count x cs
    kept e = count-keep_if x id cs ∙ rw e refl

remove_column-IsConsistent :
    (id : String) (s : ParkedState) → IsConsistent s → IsConsistent (remove_column id s)
unfolding remove_column
remove_column-IsConsistent id s h = record {
  distinct = λ x. ground (arith, count-keep_if x id s.columns, h.distinct x);
  known = removed-known id s.columns s.membership h.known;
}

park-IsConsistent :
    (key id : String) (s : ParkedState) → IsConsistent s → IsConsistent (park key id s)
unfolding park
park-IsConsistent key id s h = elim (Bool-cases (has_column id s)) [
  | inl e ↦ rw e (record {
    distinct = h.distinct;
    known =
        AllValues-insert (λ x. 1 ≤ count x s.columns) key id s.membership (count-any id s.columns e)
          h.known;
  })
  | inr e ↦ rw e h
]

drop_keys-known :
    (P : String → Type 0) (ks : List String) (m : Dict String)
    → AllValues P m
    → AllValues P (drop_keys ks m)
unfolding drop_keys
drop_keys-known P ks [] h = tt
drop_keys-known P ks ((k, x) ∷ m) (p, h) = elim (Bool-cases (includes k ks)) [
  | inl e ↦ rw e (drop_keys-known P ks m h)
  | inr e ↦ rw e (p, drop_keys-known P ks m h)
]

pub release_panes-IsConsistent :
    (ks : List String) (s : ParkedState) → IsConsistent s → IsConsistent (release_panes ks s)
unfolding release_panes
release_panes-IsConsistent [] s h = h
release_panes-IsConsistent (k ∷ ks) s h =
    elim (Bool-cases (length (drop_keys (k ∷ ks) s.membership) == length s.membership)) [
      | inl e ↦ rw e h
      | inr e ↦ rw e (record {
        distinct = h.distinct;
        known = drop_keys-known (λ x. 1 ≤ count x s.columns) (k ∷ ks) s.membership h.known;
      })
    ]

pub exit_from-IsConsistent :
    (o : Option ParkedColumn) (key : String) (previous next : AgentStatus) (s : ParkedState)
    → IsConsistent s
    → IsConsistent (exit_from o key previous next s)
unfolding unpark
exit_from-IsConsistent none key previous next s h = h
exit_from-IsConsistent (some c) key previous next s h =
    elim (Bool-cases (should_exit c.exit_rule previous next)) [
      | inl e ↦ rw e (release_panes-IsConsistent (key ∷ []) s h)
      | inr e ↦ rw e h
    ]

act-IsConsistent : (a : Action) (s : ParkedState) → IsConsistent s → IsConsistent (act a s)
unfolding act rename_column set_exit_rule apply_agent_status_changed clear
act-IsConsistent (create name rule) s h = create_column-IsConsistent name rule s h
act-IsConsistent (rename id name) s h =
    SameColumns-IsConsistent s _ (update_column-SameColumns id _ s (λ c. refl)) h
act-IsConsistent (set_rule id rule) s h =
    SameColumns-IsConsistent s _ (update_column-SameColumns id _ s (λ c. refl)) h
act-IsConsistent (move id delta) s h =
    SameColumns-IsConsistent s _ (move_column-SameColumns id delta s) h
act-IsConsistent (remove id) s h = remove_column-IsConsistent id s h
act-IsConsistent (park_at key id) s h = park-IsConsistent key id s h
act-IsConsistent (release ks) s h = release_panes-IsConsistent ks s h
act-IsConsistent (status_changed key previous next) s h =
    exit_from-IsConsistent (column_by_id (lookup key s.membership) s) key previous next s h
act-IsConsistent clear_all s h = record { distinct = λ x. omega arith; known = tt }

run-keeps :
    (actions : List Action) (s : ParkedState) → IsConsistent s → IsConsistent (run actions s)
unfolding run
run-keeps [] s h = h
run-keeps (a ∷ rest) s h = run-keeps rest (act a s) (act-IsConsistent a s h)

-- After any sequence of calls on an empty store, no two columns share an id, and every membership
-- entry names a column that exists.
pub run-IsConsistent : (actions : List Action) → IsConsistent (run actions default_parked)
run-IsConsistent actions =
    run-keeps actions default_parked (record { distinct = λ x. omega arith; known = tt })
