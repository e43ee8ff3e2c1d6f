-- ===== src/State/Toast/Counts.antt =====
-- Counting notices and timers of apps/web/src/app/state/toast.service.ts by key and by id.
use kanhrd.Base.{
  ℕ, ◌+◌, ◌≤◌, String, ◌≡◌, refl, sym, ap, subst, not, ◌&&◌, none, some, List, [], ◌∷◌, ◌++◌,
  if◌then◌else◌, str_eq, ◌==◌, arith, eq_iff, Bool-cases, inl, inr, some_inj,
}
use kanhrd.State.Toast.{Toast, ToastState, clear_timer, by_key, replace_key, restart}

abbrev pub count_key : String → List Toast → ℕ
count_key k [] = 0
count_key k (t ∷ ts) = (if str_eq t.key k then 1 else 0) + count_key k ts

abbrev pub count_id : ℕ → List Toast → ℕ
count_id i [] = 0
count_id i (t ∷ ts) = (if t.id == i then 1 else 0) + count_id i ts

abbrev pub count_timers : ℕ → List ℕ → ℕ
count_timers i [] = 0
count_timers i (t ∷ ts) = (if t == i then 1 else 0) + count_timers i ts

-- How many notices with the id are shown that leave by themselves.
abbrev pub count_timed : ℕ → List Toast → ℕ
count_timed i [] = 0
count_timed i (t ∷ ts) = (if t.id == i && not t.persistent then 1 else 0) + count_timed i ts

-- No two notices share a key or an id, ids are below the next one, and one timer runs for each
-- notice that is not persistent, and no other.
pub record IsQueue (s : ToastState) : Type 0 where
  pub keys : (k : String) → count_key k s.toasts ≤ 1
  pub ids : (i : ℕ) → count_id i s.toasts ≤ 1
  pub fresh : (i : ℕ) → s.next_id ≤ i → count_id i s.toasts ≡ 0
  pub timers : (i : ℕ) → count_timers i s.timers ≡ count_timed i s.toasts

pub count_timed-le : (i : ℕ) (ts : List Toast) → count_timed i ts ≤ count_id i ts
count_timed-le i [] = omega arith
count_timed-le i (t ∷ ts) = ground (arith, count_timed-le i ts)

replace_key-none :
    (k : String) (t : Toast) (ts : List Toast) → count_key k ts ≡ 0 → replace_key k t ts ≡ ts
replace_key-none k t [] h = refl
replace_key-none k t (u ∷ ts) h = elim (Bool-cases (str_eq u.key k)) [
  | inl e ↦ absurd (ground arith)
  | inr e ↦ rw e (ap (λ l. u ∷ l) (replace_key-none k t ts (ground arith)))
]

pub count_key-replace :
    (j k : String) (t : Toast) (ts : List Toast)
    → t.key ≡ k
    → count_key j (replace_key k t ts) ≡ count_key j ts
count_key-replace j k t [] h = refl
count_key-replace j k t (u ∷ ts) h =
    ground (arith, count_key-replace j k t ts h, eq_iff u.key k, eq_iff u.key j, eq_iff t.key j, h)

pub by_key-absent : (k : String) (ts : List Toast) → by_key k ts ≡ none → count_key k ts ≡ 0
by_key-absent k [] h = refl
by_key-absent k (t ∷ ts) h = ground (arith, by_key-absent k ts)

-- The notice that is found is counted.
found-counted :
    (k : String) (ts : List Toast) (e : Toast) → by_key k ts ≡ some e → 1 ≤ count_id e.id ts
found-counted k [] e h = absurd (ground arith)
found-counted k (t ∷ ts) e h = elim (Bool-cases (str_eq t.key k)) [
  | inl s ↦ subst (λ u. 1 ≤ count_id u.id (t ∷ ts)) (some_inj (rw s at h)) (ground arith)
  | inr s ↦ ground (arith, found-counted k ts e)
]

pub count_id-replace :
    (i : ℕ) (k : String) (t : Toast) (ts : List Toast) (e : Toast)
    → count_key k ts ≤ 1
    → by_key k ts ≡ some e
    → t.id ≡ e.id
    → count_id i (replace_key k t ts) ≡ count_id i ts
count_id-replace i k t [] e once found same = refl
count_id-replace i k t (u ∷ ts) e once found same = elim (Bool-cases (str_eq u.key k)) [
  | inl s ↦
      rw (s, replace_key-none k t ts (ground arith), same, sym (some_inj (rw s at found))) refl
  | inr s ↦ rw s (omega (arith, count_id-replace i k t ts e (ground arith) (rw s at found) same))
]

pub count_timed-replace :
    (i : ℕ) (k : String) (t : Toast) (ts : List Toast) (e : Toast)
    → count_key k ts ≤ 1
    → count_id e.id ts ≤ 1
    → by_key k ts ≡ some e
    → t.id ≡ e.id
    → count_timed i (replace_key k t ts)
      ≡ (if t.id == i then (if t.persistent then 0 else 1) else count_timed i ts)
count_timed-replace i k t [] e once ids found same = absurd (ground arith)
count_timed-replace i k t (u ∷ ts) e once ids found same = elim (Bool-cases (str_eq u.key k)) [
  | inl s ↦
      rw (s, replace_key-none k t ts (ground arith))
        (ground
          (arith, count_timed-le i ts, same, ap (λ (v : Toast). v.id) (some_inj (rw s at found))))
  | inr s ↦ rw s (
      ground (
        arith,
        count_timed-replace i k t ts e (ground arith) (ground arith) (rw s at found) same,
        same,
        found-counted k ts e (rw s at found),
      ))
]

pub count-clear_timer :
    (i id : ℕ) (timers : List ℕ)
    → count_timers i (clear_timer id timers) ≡ (if id == i then 0 else count_timers i timers)
unfolding clear_timer
count-clear_timer i id [] = ground arith
count-clear_timer i id (t ∷ ts) = ground (arith, count-clear_timer i id ts)

count_timers-append :
    (i : ℕ) (xs ys : List ℕ) → count_timers i (xs ++ ys) ≡ count_timers i xs + count_timers i ys
count_timers-append i [] ys = omega arith
count_timers-append i (x ∷ xs) ys = omega (arith, count_timers-append i xs ys)

pub count-restart :
    (i : ℕ) (t : Toast) (timers : List ℕ)
    → count_timers i (restart t timers)
      ≡ (if t.id == i then (if t.persistent then 0 else 1) else count_timers i timers)
count-restart i t timers = ground (
  arith,
  count_timers-append i (clear_timer t.id timers) (t.id ∷ []),
  count-clear_timer i t.id timers,
)

pub count_key-append :
    (k : String) (xs ys : List Toast) → count_key k (xs ++ ys) ≡ count_key k xs + count_key k ys
count_key-append k [] ys = omega arith
count_key-append k (x ∷ xs) ys = omega (arith, count_key-append k xs ys)

pub count_id-append :
    (i : ℕ) (xs ys : List Toast) → count_id i (xs ++ ys) ≡ count_id i xs + count_id i ys
count_id-append i [] ys = omega arith
count_id-append i (x ∷ xs) ys = omega (arith, count_id-append i xs ys)

pub count_timed-append :
    (i : ℕ) (xs ys : List Toast) → count_timed i (xs ++ ys) ≡ count_timed i xs + count_timed i ys
count_timed-append i [] ys = omega arith
count_timed-append i (x ∷ xs) ys = omega (arith, count_timed-append i xs ys)
