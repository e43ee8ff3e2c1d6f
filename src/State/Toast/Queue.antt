-- ===== src/State/Toast/Queue.antt =====
-- What holds of the notices and the timers of apps/web/src/app/state/toast.service.ts at any time.
use kanhrd.Base.{
  ℕ, ◌≤◌, String, ◌≡◌, refl, ◌∙◌, not, Option, none, some, List, [], ◌∷◌, if◌then◌else◌, ◌==◌,
  keep_if, arith, eq_iff, Option-cases, inl, inr,
}
use kanhrd.State.Toast.{
  Toast, PushOptions, ToastState, no_toasts, key_of, toast_of, by_key, replace_key, push_with, push,
  dismiss, dismiss_found, dismiss_by_key, dismiss_top, last,
}
use kanhrd.State.Toast.Counts.{
  count_key, count_id, count_timed, IsQueue, count_timed-le, count_key-replace, by_key-absent,
  count_id-replace, count_timed-replace, count-clear_timer, count-restart, count_key-append,
  count_id-append, count_timed-append,
}

push-new :
    (o : PushOptions) (s : ToastState)
    → by_key (key_of o) s.toasts ≡ none
    → IsQueue s
    → IsQueue (push_with o none s)
unfolding push_with
push-new o s absent h = record {
  keys = λ k. ground (
    arith,
    count_key-append k s.toasts (toast_of o s.next_id ∷ []),
    h.keys k,
    by_key-absent (key_of o) s.toasts absent,
    eq_iff (key_of o) k,
  );
  ids = λ i.
      ground (arith, count_id-append i s.toasts (toast_of o s.next_id ∷ []), h.ids i, h.fresh i);
  fresh = λ i le. ground (arith, count_id-append i s.toasts (toast_of o s.next_id ∷ []), h.fresh i);
  timers = λ i. ground (
    arith,
    count-restart i (toast_of o s.next_id) s.timers,
    h.timers i,
    h.fresh i,
    count_timed-append i s.toasts (toast_of o s.next_id ∷ []),
    count_timed-le i s.toasts,
  );
}

push-replacing :
    (o : PushOptions) (e : Toast) (s : ToastState)
    → by_key (key_of o) s.toasts ≡ some e
    → IsQueue s
    → IsQueue (push_with o (some e) s)
unfolding push_with
push-replacing o e s found h = record {
  keys =
      λ k. ground (arith, count_key-replace k (key_of o) (toast_of o e.id) s.toasts refl, h.keys k);
  ids = λ i. ground (arith, same_ids i, h.ids i);
  fresh = λ i le. ground (arith, same_ids i, h.fresh i);
  timers = λ i.
      count-restart i (toast_of o e.id) s.timers
      ∙ ground (
        arith,
        h.timers i,
        count_timed-replace i (key_of o) (toast_of o e.id) s.toasts e (h.keys (key_of o))
            (h.ids e.id) found refl,
      );
}
  where
    same_ids :
        (i : ℕ)
        → count_id i (replace_key (key_of o) (toast_of o e.id) s.toasts) ≡ count_id i s.toasts
    same_ids i =
        count_id-replace i (key_of o) (toast_of o e.id) s.toasts e (h.keys (key_of o)) found refl

push-IsQueue : (o : PushOptions) (s : ToastState) → IsQueue s → IsQueue (push o s)
unfolding push
push-IsQueue o s h = elim (Option-cases (by_key (key_of o) s.toasts)) [
  | inl e ↦ rw e (push-new o s e h)
  | inr (t, e) ↦ rw e (push-replacing o t s e h)
]

count_key-dismiss :
    (k : String) (id : ℕ) (ts : List Toast)
    → count_key k (keep_if (λ t. not (t.id == id)) ts) ≤ count_key k ts
count_key-dismiss k id [] = omega arith
count_key-dismiss k id (t ∷ ts) = ground (arith, count_key-dismiss k id ts)

count_id-dismiss :
    (i id : ℕ) (ts : List Toast)
    → count_id i (keep_if (λ t. not (t.id == id)) ts) ≡ (if id == i then 0 else count_id i ts)
count_id-dismiss i id [] = ground arith
count_id-dismiss i id (t ∷ ts) = ground (arith, count_id-dismiss i id ts)

count_timed-dismiss :
    (i id : ℕ) (ts : List Toast)
    → count_timed i (keep_if (λ t. not (t.id == id)) ts) ≡ (if id == i then 0 else count_timed i ts)
count_timed-dismiss i id [] = ground arith
count_timed-dismiss i id (t ∷ ts) = ground (arith, count_timed-dismiss i id ts)

dismiss-IsQueue : (id : ℕ) (s : ToastState) → IsQueue s → IsQueue (dismiss id s)
unfolding dismiss
dismiss-IsQueue id s h = record {
  keys = λ k. omega (arith, count_key-dismiss k id s.toasts, h.keys k);
  ids = λ i. ground (arith, count_id-dismiss i id s.toasts, h.ids i);
  fresh = λ i le. ground (arith, count_id-dismiss i id s.toasts, h.fresh i);
  timers = λ i.
      ground
        (arith, count-clear_timer i id s.timers, count_timed-dismiss i id s.toasts, h.timers i);
}

dismiss_found-IsQueue :
    (o : Option Toast) (s : ToastState) → IsQueue s → IsQueue (dismiss_found o s)
dismiss_found-IsQueue none s h = h
dismiss_found-IsQueue (some t) s h = dismiss-IsQueue t.id s h

-- What happens to the notices: a call, or a timer that ends.
pub data Event : Type 0 where
  pushed : PushOptions → Event
  dismissed : ℕ → Event
  dismissed_by_key : String → Event
  dismissed_top : Event
  timed_out : ℕ → Event

unfoldable pub step : Event → ToastState → ToastState
unfolding push dismiss dismiss_by_key dismiss_top
step (pushed o) s = push o s
step (dismissed id) s = dismiss id s
step (dismissed_by_key key) s = dismiss_by_key key s
step dismissed_top s = dismiss_top s
step (timed_out id) s = dismiss id s

unfoldable pub steps : List Event → ToastState → ToastState
unfolding step
steps [] s = s
steps (e ∷ es) s = steps es (step e s)

step-IsQueue : (e : Event) (s : ToastState) → IsQueue s → IsQueue (step e s)
unfolding step dismiss_by_key dismiss_top
step-IsQueue (pushed o) s h = push-IsQueue o s h
step-IsQueue (dismissed id) s h = dismiss-IsQueue id s h
step-IsQueue (dismissed_by_key key) s h = dismiss_found-IsQueue (by_key key s.toasts) s h
step-IsQueue dismissed_top s h = dismiss_found-IsQueue (last s.toasts) s h
step-IsQueue (timed_out id) s h = dismiss-IsQueue id s h

steps-keeps : (es : List Event) (s : ToastState) → IsQueue s → IsQueue (steps es s)
unfolding steps
steps-keeps [] s h = h
steps-keeps (e ∷ es) s h = steps-keeps es (step e s) (step-IsQueue e s h)

-- After any sequence of calls and timeouts, no two notices share a key or an id, ids are below the
-- next one, and one timer runs for each notice that is not persistent, and no other.
pub steps-IsQueue : (es : List Event) → IsQueue (steps es no_toasts)
steps-IsQueue es = steps-keeps es no_toasts (record {
  keys = λ k. omega arith;
  ids = λ i. omega arith;
  fresh = λ i le. refl;
  timers = λ i. refl;
})
