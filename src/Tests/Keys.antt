-- ===== src/Tests/Keys.antt =====
-- `ctrl+b`, sent while `ctrl` and `alt` are active.
use kanhrd.Base.{◌≡◌, refl, [], ◌∷◌}
use kanhrd.Output.Delta.{Text}
use kanhrd.PaneDetail.Input.{classify_input, named_key, ctrl_letter}
use kanhrd.PaneDetail.KeyBar.{ctrl, alt, shift, fold_modifiers, peel, known_prefix, behind, joined}
use kanhrd.PaneDetail.KeyBar.Fold.{parsed}

abbrev ctrl_b : Text
ctrl_b = 99 ∷ 116 ∷ 114 ∷ 108 ∷ 43 ∷ 98 ∷ []

ctrl_alt_b :
    fold_modifiers ctrl_b (ctrl ∷ alt ∷ [])
    ≡ 99 ∷ 116 ∷ 114 ∷ 108 ∷ 43 ∷ 97 ∷ 108 ∷ 116 ∷ 43 ∷ 98 ∷ []
unfolding fold_modifiers
ctrl_alt_b = refl

up_arrow : classify_input (27 ∷ 91 ∷ 65 ∷ []) ≡ named_key "Up"
unfolding classify_input
up_arrow = refl

ctrl_a : classify_input (1 ∷ []) ≡ ctrl_letter 97
unfolding classify_input
ctrl_a = refl

-- `Shift+ctrl+b`
abbrev shift_ctrl_b : Text
shift_ctrl_b = 83 ∷ 104 ∷ 105 ∷ 102 ∷ 116 ∷ 43 ∷ ctrl_b

-- `ctrl`, `alt`, `shift`
shift_kept : (parsed (fold_modifiers shift_ctrl_b (alt ∷ []))).carried ≡ ctrl ∷ alt ∷ shift ∷ []
unfolding parsed fold_modifiers peel known_prefix behind joined
shift_kept = refl
