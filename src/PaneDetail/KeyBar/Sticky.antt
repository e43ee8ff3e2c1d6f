-- ===== src/PaneDetail/KeyBar/Sticky.antt =====
-- What a sent key does to the sticky modifiers of apps/web/src/app/pane-detail/key-bar-cells.ts.
use kanhrd.Base.{◌≡◌, refl}
use kanhrd.Output.Delta.{Text}
use kanhrd.PaneDetail.KeyBar.{
  idle, armed, locked, ModifierState, KeyBarModifiers, released, consume,
}

states :
    (key : Text) (c a : ModifierState)
    → (consume key (record { ctrl_state = c; alt_state = a })).1
      ≡ record { ctrl_state = released c; alt_state = released a }
unfolding consume
states key idle idle = refl
states key idle armed = refl
states key idle locked = refl
states key armed idle = refl
states key armed armed = refl
states key armed locked = refl
states key locked idle = refl
states key locked armed = refl
states key locked locked = refl

-- A key that is sent releases the armed modifiers and no other, also when none is active.
pub consume-released :
    (key : Text) (s : KeyBarModifiers)
    → (consume key s).1
      ≡ record { ctrl_state = released s.ctrl_state; alt_state = released s.alt_state }
consume-released key s = states key s.ctrl_state s.alt_state
