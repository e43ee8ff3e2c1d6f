-- ===== src/PaneDetail/KeyBar/Fold.antt =====
-- The names that `foldModifiers` of apps/web/src/app/pane-detail/key-bar-cells.ts makes, read back.
use kanhrd.Base.{◌≡◌, true, ◌||◌, none, List, [], length}
use kanhrd.Output.Delta.{Text}
use kanhrd.PaneDetail.KeyBar.{Modifier, something_follows, known_prefix, has, Peeled, peel}
use kanhrd.PaneDetail.KeyBar.Ranks.{IsRanked}
use kanhrd.PaneDetail.KeyBar.Sets.{IsDistinct}

-- A peeled name: no prefix is left, something visible is, and no modifier stands twice.
record IsPeeled (p : Peeled) : Type 0 where
  distinct : IsDistinct p.carried
  visible : something_follows p.base ≡ true
  bare : known_prefix p.base ≡ none

-- The modifiers and the key that a name holds.
unfoldable pub parsed : Text → Peeled
parsed name = peel (length name) name []

-- What a folded name holds: the key without its prefixes, and each modifier that is active or was in
-- the key, once and in order.
pub record IsFolded (key : Text) (active : List Modifier) (name : Peeled) : Type 0 where
  pub same_key : name.base ≡ (parsed key).base
  pub holds : (m : Modifier) → has m name.carried ≡ (has m active || has m (parsed key).carried)
  pub distinct : IsDistinct name.carried
  pub ranked : IsRanked name.carried
