-- ===== src/State/Toast.antt =====
-- apps/web/src/app/state/toast.service.ts: the notices that are shown, and the timers that end them.
pub mod Counts
pub mod Queue
use kanhrd.Base.{
  ℕ, suc, String, Bool, true, false, not, ◌&&◌, ◌||◌, Option, none, some, List, [], ◌∷◌, ◌++◌,
  if◌then◌else◌, str_eq, ◌==◌, keep_if, find, concat, or_else,
}

pub data ToastLevel : Type 0 where
  info warn error : ToastLevel

abbrev pub level_text : ToastLevel → String
level_text info = "info"
level_text warn = "warn"
level_text error = "error"

pub record Toast : Type 0 where
  pub id : ℕ
  pub key : String
  pub level : ToastLevel
  pub message : String
  pub persistent : Bool

pub record PushOptions : Type 0 where
  pub level : ToastLevel
  pub message : String
  pub persistent : Option Bool
  pub key : Option String

-- The ids of the running timers stand for the map of timers; how long each runs is left out.
pub record ToastState : Type 0 where
  pub next_id : ℕ
  pub timers : List ℕ
  pub toasts : List Toast

abbrev pub no_toasts : ToastState
no_toasts = record { next_id = 0; timers = []; toasts = [] }

unfoldable pub clear_timer : ℕ → List ℕ → List ℕ
clear_timer id timers = keep_if (λ t. not (t == id)) timers

abbrev pub key_of : PushOptions → String
key_of o = or_else o.key (concat (level_text o.level ∷ ":" ∷ o.message ∷ []))

abbrev pub toast_of : PushOptions → ℕ → Toast
toast_of o id = record {
  id = id;
  key = key_of o;
  level = o.level;
  message = o.message;
  persistent = or_else o.persistent false;
}

abbrev pub by_key : String → List Toast → Option Toast
by_key key toasts = find (λ t. str_eq t.key key) toasts

-- `list.map((item) => (item.key === key ? toast : item))`
abbrev pub replace_key : String → Toast → List Toast → List Toast
replace_key key toast [] = []
replace_key key toast (t ∷ ts) = (if str_eq t.key key then toast else t) ∷ replace_key key toast ts

-- The timer is cleared, and set anew unless the toast is persistent.
abbrev pub restart : Toast → List ℕ → List ℕ
restart t timers =
    if t.persistent then clear_timer t.id timers else clear_timer t.id timers ++ t.id ∷ []

unfoldable pub push_with : PushOptions → Option Toast → ToastState → ToastState
unfolding clear_timer
push_with o none s = record {
  next_id = suc s.next_id;
  timers = restart (toast_of o s.next_id) s.timers;
  toasts = s.toasts ++ toast_of o s.next_id ∷ [];
}
push_with o (some existing) s = record s {
  timers = restart (toast_of o existing.id) s.timers;
  toasts = replace_key (key_of o) (toast_of o existing.id) s.toasts;
}

unfoldable pub push : PushOptions → ToastState → ToastState
unfolding push_with
push o s = push_with o (by_key (key_of o) s.toasts) s

unfoldable pub dismiss : ℕ → ToastState → ToastState
unfolding clear_timer
dismiss id s = record s {
  timers = clear_timer id s.timers;
  toasts = keep_if (λ t. not (t.id == id)) s.toasts;
}

abbrev pub dismiss_found : Option Toast → ToastState → ToastState
dismiss_found none s = s
dismiss_found (some t) s = dismiss t.id s

unfoldable pub dismiss_by_key : String → ToastState → ToastState
unfolding dismiss
dismiss_by_key key s = dismiss_found (by_key key s.toasts) s

abbrev pub last : List Toast → Option Toast
last [] = none
last (t ∷ []) = some t
last (t ∷ u ∷ ts) = last (u ∷ ts)

unfoldable pub dismiss_top : ToastState → ToastState
unfolding dismiss
dismiss_top s = dismiss_found (last s.toasts) s

-- One long action's notice: `settled` and `shown` of `progress`, with its key and message.
pub record Progress : Type 0 where
  pub key : String
  pub message : String
  pub settled : Bool
  pub shown : Bool

-- The timer of `progress` after `PROGRESS_DELAY_MS`.
unfoldable pub progress_delay : Progress → ToastState → Progress × ToastState
unfolding push
progress_delay p s = if p.settled then (p, s) else (
  record p { shown = true },
  push (record { level = info; message = p.message; persistent = some true; key = some p.key }) s,
)

unfoldable pub progress_resolve : Progress → ToastState → Progress × ToastState
unfolding dismiss_by_key
progress_resolve p s =
    if p.settled
    then (p, s)
    else (record p { settled = true }, if p.shown then dismiss_by_key p.key s else s)

unfoldable pub progress_fail : String → Progress → ToastState → Progress × ToastState
unfolding push
progress_fail failure p s = if p.settled then (p, s) else (
  record p { settled = true },
  push (record { level = error; message = failure; persistent = none; key = some p.key }) s,
)
