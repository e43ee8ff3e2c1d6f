-- ===== src/State/BoardReturn/Visit.antt =====
-- A visit of a card in apps/web/src/app/state/board-return.service.ts: the calls from the click on the
-- card to the board that is mounted again, and where the focus goes.
use kanhrd.Base.{
  ℕ, ◌-◌, ◌<◌, ◌≡◌, refl, ap, ◌∙◌, String, true, false, Option, none, some, List, [], ◌∷◌, All,
  includes, arith, Bool-cases, ◌⊎◌, inl, inr, min, max, length, get_elem?, str_eq_refl, zero, suc,
  some_inj,
}
use kanhrd.Output.Delta.{Text}
use kanhrd.State.BoardReturn.Url.{is_board_url}
use kanhrd.State.BoardReturn.{
  ClickedCard, BoardGeometry, BoardReturnService, navigated, remember_card, finish_restore,
  record_of, remember_board, clamped, return_focus_target,
}

-- The router arrives at one URL after the other.
unfoldable pub navigates : List Text → BoardReturnService → BoardReturnService
navigates [] s = s
navigates (url ∷ urls) s = navigates urls (navigated url s)

-- The card is opened, the router may be at the pane before the board is torn down, and the user
-- moves on.
unfoldable pub departed :
    ClickedCard → List Text → BoardGeometry → List Text → BoardReturnService → BoardReturnService
unfolding navigates remember_card remember_board
departed card away geometry onwards s = navigates onwards (
    remember_board geometry (navigates away (remember_card card.pane_key card.status card.index s)))

navigates-clicked_card :
    (urls : List Text) (s : BoardReturnService) → (navigates urls s).clicked_card ≡ s.clicked_card
unfolding navigates navigated
navigates-clicked_card [] s = refl
navigates-clicked_card (url ∷ urls) s = navigates-clicked_card urls (navigated url s) ∙ ground arith

navigates-pending :
    (urls : List Text) (s : BoardReturnService) → (navigates urls s).pending ≡ s.pending
unfolding navigates navigated
navigates-pending [] s = refl
navigates-pending (url ∷ urls) s = navigates-pending urls (navigated url s) ∙ ground arith

navigates-last_board_url :
    (urls : List Text) (s : BoardReturnService)
    → All (λ url. is_board_url url ≡ false) urls
    → (navigates urls s).last_board_url ≡ s.last_board_url
unfolding navigates navigated
navigates-last_board_url [] s h = refl
navigates-last_board_url (url ∷ urls) s h =
    navigates-last_board_url urls (navigated url s) h.1 ∙ ground (arith, h.0)

-- The record of a visit names the board that the card was opened from.
pub departed-pending :
    (card : ClickedCard) (away onwards : List Text) (geometry : BoardGeometry)
    (s : BoardReturnService)
    → All (λ url. is_board_url url ≡ false) away
    → (departed card away geometry onwards s).pending
      ≡ some (record_of s.last_board_url geometry (some card))
unfolding departed remember_board remember_card finish_restore
departed-pending card away onwards geometry s h =
    navigates-pending onwards _
    ∙ rw
        (
          navigates-last_board_url away (remember_card card.pane_key card.status card.index s) h,
          navigates-clicked_card away (remember_card card.pane_key card.status card.index s),
        )
        refl

includes-get_elem? :
    (i : ℕ) (keys : List String) (key : String)
    → get_elem? keys i ≡ some key
    → includes key keys ≡ true
includes-get_elem? i [] key h = absurd (ground arith)
includes-get_elem? zero (k ∷ keys) key h = rw (some_inj h, str_eq_refl key) refl
includes-get_elem? (suc i) (k ∷ keys) key h = ground (arith, includes-get_elem? i keys key h)

get_elem?-inside :
    (i : ℕ) (keys : List String) → i < length keys → (key : String) × (get_elem? keys i ≡ some key)
get_elem?-inside i [] h = absurd (omega arith)
get_elem?-inside zero (k ∷ keys) h = (k, refl)
get_elem?-inside (suc i) (k ∷ keys) h = get_elem?-inside i keys (omega arith)

clamped-cases :
    (index : ℕ) (keys : List String)
    → (keys ≡ []) × (clamped index keys ≡ none)
      ⊎ ((key : String) × (clamped index keys ≡ some key)
          × (get_elem? keys (min index (length keys - 1)) ≡ some key)
          × (includes key keys ≡ true))
clamped-cases index [] = inl (refl, refl)
clamped-cases index (k ∷ keys) =
    let (key, e) = get_elem?-inside (min index (length (k ∷ keys) - 1)) (k ∷ keys) (omega arith) in
    inr (
      key,
      ap (λ i. get_elem? (k ∷ keys) (min i (length (k ∷ keys) - 1))) floor ∙ e,
      e,
      includes-get_elem? _ (k ∷ keys) key e,
    )
  where
    floor : max index 0 ≡ index
    floor = omega arith

-- A column that holds a card always has a target, which is one of its cards: the card that was
-- opened where it is there, and otherwise the card at its place, or the last one.
pub return_focus_target-cases :
    (pane_key : Option String) (index : ℕ) (keys : List String)
    → (keys ≡ []) × (return_focus_target pane_key index keys ≡ none)
      ⊎ ((target : String) × (return_focus_target pane_key index keys ≡ some target)
          × (includes target keys ≡ true)
          × ((pane_key ≡ some target)
              ⊎ (get_elem? keys (min index (length keys - 1)) ≡ some target)))
unfolding return_focus_target
return_focus_target-cases none index keys = elim (clamped-cases index keys) [
  | inl e ↦ inl e
  | inr (key, found, at, inside) ↦ inr (key, found, inside, inr at)
]
return_focus_target-cases (some k) index keys = elim (Bool-cases (includes k keys)) [
  | inl e ↦ rw e (inr (k, refl, e, inl refl))
  | inr e ↦ elim (clamped-cases index keys) [
    | inl none_left ↦ rw e (inl none_left)
    | inr (key, found, at, inside) ↦ rw e (inr (key, found, inside, inr at))
  ]
]
