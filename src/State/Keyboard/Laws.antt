-- ===== src/State/Keyboard/Laws.antt =====
-- What handling a key keeps, whatever the key.
use kanhrd.Base.{
  ℕ, ◌≡◌, refl, sym, subst, ◌⊎◌, inl, inr, Bool, true, false, ◌&&◌, Option, none, some, str_eq,
  ◌==◌, length, get_elem?, find, arith, is_some, some_inj, Bool-cases,
}
use kanhrd.State.Keyboard.{
  KeyEvent, matches_prefix, Element, is_text_input_focused, TabRef, OrderedTab, Keyboard, Around,
  prefix, arm_chord, disarm_chord, tab_filter,
}
use kanhrd.State.Keyboard.Dispatch.{
  ChordKey, key_new, key_next, key_previous, key_last, key_rail, key_switcher, key_sibling,
  key_close_tab, key_close_pane, key_rename, key_help, key_theme, key_other, chord_key, Overlay,
  help_overlay, toast_overlay, plus_menu, theme_panel, rail_overlay, scope_pill, no_overlay,
  top_overlay, close_overlay, PlainKey, plain_help, plain_escape, plain_search, plain_theme,
  plain_other, plain_key, dispatch_plain_key, dispatch_chord_key, chord_or_digit,
  dispatch_chord_action, close_top_overlay, dispatch_non_chord_action, handle_chord, after_direct,
  handle_keydown,
}
use kanhrd.State.Keyboard.Tabs.{
  Turn, quiet, prevented_with, focus_card_switcher, try_direct_chord, set_current_tab, go_to,
  cycle_tab, jump_tab_by_index, scope_to, last_tab_from, last_tab, digits, digit_in, direct_if,
  is_tab, is_available, dispatch_action,
}

-- The chord stays as it was.
record SameChord (k l : Keyboard) : Type 0 where
  armed : l.chord_armed ≡ k.chord_armed
  timer : l.chord_timer ≡ k.chord_timer

unchanged : (k : Keyboard) → SameChord k k
unchanged k = record { armed = refl; timer = refl }

kept :
    (k l : Keyboard) → l.chord_armed ≡ k.chord_armed → l.chord_timer ≡ k.chord_timer → SameChord k l
kept k l a t = record { armed = a; timer = t }

go_to-SameChord : (o : Option OrderedTab) (k : Keyboard) → SameChord k (go_to o k)
unfolding set_current_tab
go_to-SameChord none k = unchanged k
go_to-SameChord (some t) k = kept k _ refl refl

scope_to-SameChord :
    (ref : TabRef) (o : Option OrderedTab) (k l : Keyboard)
    → SameChord k l
    → SameChord k (scope_to ref o l)
scope_to-SameChord ref none k l h = h
scope_to-SameChord ref (some t) k l h = elim (Bool-cases (str_eq t.workspace_id "")) [
  | inl e ↦ rw e h
  | inr e ↦ rw e (kept k _ h.armed h.timer)
]

last_tab-SameChord : (around : Around) (k : Keyboard) → SameChord k (last_tab around k)
unfolding last_tab tab_filter
last_tab-SameChord around k = go k.previous_tab
  where
    go : (o : Option TabRef) → SameChord k (last_tab_from around o k)
    go none = unchanged k
    go (some prev) =
        scope_to-SameChord prev (find (is_tab prev) around.tabs) k
          (record k { previous_tab = tab_filter k }) (kept k _ refl refl)

cycle_tab-SameChord :
    (around : Around) (forward : Bool) (k : Keyboard)
    → SameChord k (cycle_tab around forward k).keyboard
unfolding cycle_tab
cycle_tab-SameChord around forward k =
    elim (Bool-cases (is_available around.registered.tab_navigator)) [
      | inl e ↦ rw e (unchanged k)
      | inr e ↦ elim (Bool-cases (length around.tabs == 0)) [
        | inl z ↦ rw (e, z) (unchanged k)
        | inr z ↦ rw (e, z) (go_to-SameChord _ k)
      ]
    ]

dispatch_chord_key-SameChord :
    (around : Around) (key : ChordKey) (k : Keyboard)
    → SameChord k (dispatch_chord_key around key k).keyboard
unfolding dispatch_chord_key
dispatch_chord_key-SameChord around key_new k = unchanged k
dispatch_chord_key-SameChord around key_next k = cycle_tab-SameChord around true k
dispatch_chord_key-SameChord around key_previous k = cycle_tab-SameChord around false k
dispatch_chord_key-SameChord around key_last k = last_tab-SameChord around k
dispatch_chord_key-SameChord around key_rail k = kept k _ refl refl
dispatch_chord_key-SameChord around key_switcher k = unchanged k
dispatch_chord_key-SameChord around key_sibling k = unchanged k
dispatch_chord_key-SameChord around key_close_tab k = unchanged k
dispatch_chord_key-SameChord around key_close_pane k = unchanged k
dispatch_chord_key-SameChord around key_rename k = unchanged k
dispatch_chord_key-SameChord around key_help k = kept k _ refl refl
dispatch_chord_key-SameChord around key_theme k = unchanged k
dispatch_chord_key-SameChord around key_other k = unchanged k

dispatch_chord_action-SameChord :
    (around : Around) (event : KeyEvent) (k : Keyboard)
    → SameChord k (dispatch_chord_action around event k).keyboard
unfolding dispatch_chord_action jump_tab_by_index
dispatch_chord_action-SameChord around event k = go (digit_in event.key digits)
  where
    go : (o : Option ℕ) → SameChord k (chord_or_digit around o event.key k).keyboard
    go none = dispatch_chord_key-SameChord around (chord_key event.key) k
    go (some index) = go_to-SameChord (get_elem? around.tabs index) k

close_overlay-SameChord : (o : Overlay) (k : Keyboard) → SameChord k (close_overlay o k).keyboard
unfolding close_overlay
close_overlay-SameChord help_overlay k = kept k _ refl refl
close_overlay-SameChord toast_overlay k = unchanged k
close_overlay-SameChord plus_menu k = kept k _ refl refl
close_overlay-SameChord theme_panel k = kept k _ refl refl
close_overlay-SameChord rail_overlay k = kept k _ refl refl
close_overlay-SameChord scope_pill k = unchanged k
close_overlay-SameChord no_overlay k = unchanged k

dispatch_plain_key-SameChord :
    (key : PlainKey) (k : Keyboard) → SameChord k (dispatch_plain_key key k).keyboard
unfolding dispatch_plain_key close_top_overlay
dispatch_plain_key-SameChord plain_help k = kept k _ refl refl
dispatch_plain_key-SameChord plain_escape k = close_overlay-SameChord (top_overlay k) k
dispatch_plain_key-SameChord plain_search k = unchanged k
dispatch_plain_key-SameChord plain_theme k = unchanged k
dispatch_plain_key-SameChord plain_other k = unchanged k

-- The timer of the chord is set exactly while the chord is armed.
abbrev pub IsTimed : Keyboard → Type 0
IsTimed k = k.chord_timer ≡ k.chord_armed

-- After a key: a chord that was armed is not armed any more.
abbrev pub IsSpent : Keyboard → Keyboard → Type 0
IsSpent k l = (k.chord_armed && l.chord_armed) ≡ false

handle_chord_lem :
    (around : Around) (event : KeyEvent) (k : Keyboard)
    → IsTimed k
    → IsTimed (handle_chord around event k).keyboard
      × IsSpent k (handle_chord around event k).keyboard
unfolding arm_chord disarm_chord dispatch_non_chord_action matches_prefix prefix
handle_chord_lem around event k timed = elim (Bool-cases k.chord_armed) [
  | inl e ↦
      let c = dispatch_chord_action-SameChord around event (disarm_chord k) in
      rw e (ground (arith, c.armed, c.timer))
  | inr e ↦ elim (Bool-cases (matches_prefix around.js (prefix around k) event)) [
    | inl m ↦ rw (e, m) (refl, refl)
    | inr m ↦
        let c = dispatch_plain_key-SameChord (plain_key event.key) k in
        rw (e, m) (ground (arith, c.armed, c.timer))
  ]
]

direct_if-some :
    (skipped available : Bool) (t u : Turn) → direct_if skipped available t ≡ some u → u ≡ t
direct_if-some true available t u h = absurd (ground arith)
direct_if-some false true t u h = sym (some_inj h)
direct_if-some false false t u h = absurd (ground arith)

try_direct_chord-some :
    (around : Around) (event : KeyEvent) (k : Keyboard) (t : Turn)
    → try_direct_chord around event k ≡ some t
    → t ≡ prevented_with k (dispatch_action around focus_card_switcher)
unfolding try_direct_chord
try_direct_chord-some around event k t h = direct_if-some _ _ _ t h

-- A turn that asks for nothing and leaves the event alone, with the chord dropped.
abbrev pub IgnoredTyping : Keyboard → Turn → Type 0
IgnoredTyping k t = t ≡ quiet (disarm_chord k)

-- While the timer of the chord is set exactly as long as the chord is armed, every key keeps it so;
-- propagation is stopped exactly for a key whose default was prevented; a chord is good for one key,
-- unless the direct chord comes in between; and a key typed into a text field, be it a terminal, is
-- left alone and only drops the chord, unless it is the direct chord.
pub handle_keydown_lem :
    (around : Around) (event : KeyEvent) (focus : Option Element) (k : Keyboard)
    → IsTimed k
    → IsTimed (handle_keydown around event focus k).turn.keyboard
      × ((handle_keydown around event focus k).stopped
          ≡ (handle_keydown around event focus k).turn.prevented)
      × ((is_some (try_direct_chord around event k) ≡ true)
          ⊎ (IsSpent k (handle_keydown around event focus k).turn.keyboard
              × ((is_text_input_focused focus ≡ false)
                  ⊎ IgnoredTyping k (handle_keydown around event focus k).turn)))
unfolding handle_keydown disarm_chord
handle_keydown_lem around event focus k timed = go (try_direct_chord around event k) refl
  where
    go :
        (o : Option Turn)
        → try_direct_chord around event k ≡ o
        → IsTimed (after_direct around event focus k o).turn.keyboard
          × ((after_direct around event focus k o).stopped
              ≡ (after_direct around event focus k o).turn.prevented)
          × ((is_some o ≡ true)
              ⊎ (IsSpent k (after_direct around event focus k o).turn.keyboard
                  × ((is_text_input_focused focus ≡ false)
                      ⊎ IgnoredTyping k (after_direct around event focus k o).turn)))
    go (some t) e =
        let is_direct = try_direct_chord-some around event k t e in
        (
          subst (λ u. IsTimed u.keyboard) (sym is_direct) timed,
          subst (λ u. true ≡ u.prevented) (sym is_direct) refl,
          inl refl,
        )
    go none e = elim (Bool-cases (is_text_input_focused focus)) [
      | inl f ↦ rw f (refl, refl, inr (ground arith, inr refl))
      | inr f ↦
          let (time, spent) = handle_chord_lem around event k timed in
          rw f (time, refl, inr (spent, inl refl))
    ]
