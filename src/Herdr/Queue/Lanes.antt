-- ===== src/Herdr/Queue/Lanes.antt =====
-- One lane of a queue of apps/bridge/src/herdr/write-queue.ts: its jobs form a chain.
use kanhrd.Base.{
  ℕ, suc, ◌<◌, ◌≤◌, ◌≡◌, refl, sym, ap, ◌⊎◌, inl, inr, true, false, Option, none, some, List, [],
  ◌∷◌, ◌++◌, arith, if◌then◌else◌, any, Option-cases, ==_iff,
}
use kanhrd.Herdr.Queue.{Job, has_id, may_begin, start_job, drop_job, is_tail}

-- Jobs that wait, each for the one before it, with growing numbers below a bound.
unfoldable pub IsChain : ℕ → ℕ → List Job → Type 0
IsChain bound p [] = p < bound
IsChain bound p (j ∷ js) =
    (j.prior ≡ some p) × (j.running ≡ false) × (p < j.id) × IsChain bound j.id js

abbrev pub IsBefore : Option ℕ → ℕ → Type 0
IsBefore none n = Unit
IsBefore (some p) n = p < n

-- The last job of a lane is the one that `tails` has.
unfoldable pub last_from : ℕ → List Job → ℕ
last_from p [] = p
last_from p (j ∷ js) = last_from j.id js

unfoldable pub IsLane : ℕ → Option ℕ → List Job → Type 0
unfolding IsChain last_from
IsLane bound tail [] = tail ≡ none
IsLane bound tail (j ∷ js) =
    IsBefore j.prior j.id × IsChain bound j.id js × (tail ≡ some (last_from j.id js))

IsChain-not_any :
    (bound p q : ℕ) (js : List Job) → IsChain bound p js → q ≤ p → any (has_id q) js ≡ false
unfolding IsChain
IsChain-not_any bound p q [] h le = refl
IsChain-not_any bound p q (j ∷ js) (pr, idle, lt, h) le =
    ground (arith, IsChain-not_any bound j.id q js h (omega (arith, lt, le)))

IsChain-suc : (bound p : ℕ) (js : List Job) → IsChain bound p js → IsChain (suc bound) p js
unfolding IsChain
IsChain-suc bound p [] h = omega (arith, h)
IsChain-suc bound p (j ∷ js) (pr, idle, lt, h) = (pr, idle, lt, IsChain-suc bound j.id js h)

pub IsLane-suc :
    (bound : ℕ) (tail : Option ℕ) (js : List Job)
    → IsLane bound tail js
    → IsLane (suc bound) tail js
unfolding IsLane
IsLane-suc bound tail [] h = h
IsLane-suc bound tail (j ∷ js) (b, c, t) = (b, IsChain-suc bound j.id js c, t)

abbrev new_job : ℕ → Option ℕ → Job
new_job id prior = record { id = id; prior = prior; running = false }

IsChain-append :
    (bound p : ℕ) (js : List Job)
    → IsChain bound p js
    → IsChain (suc bound) p (js ++ new_job bound (some (last_from p js)) ∷ [])
      × (last_from p (js ++ new_job bound (some (last_from p js)) ∷ []) ≡ bound)
unfolding IsChain last_from
IsChain-append bound p [] h = ((refl, refl, h, omega arith), refl)
IsChain-append bound p (j ∷ js) (pr, idle, lt, h) =
    let (c, l) = IsChain-append bound j.id js h in ((pr, idle, lt, c), l)

-- The three operations on one lane.
pub IsLane-enqueue :
    (bound : ℕ) (tail : Option ℕ) (js : List Job)
    → IsLane bound tail js
    → IsLane (suc bound) (some bound) (js ++ new_job bound tail ∷ [])
unfolding IsLane
IsLane-enqueue bound tail [] h = ground (arith, h)
IsLane-enqueue bound tail (j ∷ js) (b, c, t) =
    let (chain, last) = IsChain-append bound j.id js c in rw t (b, chain, ap some (sym last))

pub IsLane-start :
    (bound : ℕ) (tail : Option ℕ) (j : Job) (js : List Job)
    → IsLane bound tail (j ∷ js)
    → IsLane bound tail (start_job j.id (j ∷ js))
unfolding IsLane start_job
IsLane-start bound tail j js h = rw ((==_iff j.id j.id).1 refl) h

last_from-le : (bound p : ℕ) (js : List Job) → IsChain bound p js → p ≤ last_from p js
unfolding IsChain last_from
last_from-le bound p [] h = omega arith
last_from-le bound p (j ∷ js) (pr, idle, lt, h) = omega (arith, lt, last_from-le bound j.id js h)

-- `tails` after the head of a lane has settled.
abbrev pub tail_after : Option ℕ → ℕ → Option ℕ
tail_after tail id = if is_tail tail id then none else tail

pub IsLane-settle :
    (bound : ℕ) (tail : Option ℕ) (j : Job) (js : List Job)
    → IsLane bound tail (j ∷ js)
    → IsLane bound (tail_after tail j.id) (drop_job j.id (j ∷ js))
unfolding IsLane drop_job last_from IsChain
IsLane-settle bound tail j [] (b, c, t) = ground (arith, t)
IsLane-settle bound tail j (k ∷ ks) (b, c, t) = go c
  where
    go :
        IsChain bound j.id (k ∷ ks)
        → IsLane bound (tail_after tail j.id) (drop_job j.id (j ∷ k ∷ ks))
    go (pr, idle, lt, chain) =
        let more : k.id ≤ last_from k.id ks = last_from-le bound k.id ks chain in
        let other : is_tail tail j.id ≡ false = rw t (ground (arith, more, lt)) in
        rw (other, (==_iff j.id j.id).1 refl) (rw pr lt, chain, t)

-- A job of a chain waits for one before it.
waits :
    (bound p : ℕ) (before after : List Job) (j : Job)
    → IsChain bound p (before ++ j ∷ after)
    → (j.running ≡ false)
      × (q : ℕ) × (j.prior ≡ some q)
      × ((q ≡ p) ⊎ (any (has_id q) before ≡ true))
unfolding IsChain
waits bound p [] after j (pr, idle, lt, h) = (idle, p, pr, inl refl)
waits bound p (b ∷ bs) after j (pr, idle, lt, h) =
    let (i, q, at, where_) = waits bound b.id bs after j h in
    (i, q, at, inr (elim where_ [ inl e ↦ ground (arith, e) | inr e ↦ ground (arith, e) ]))

any-append :
    (q : ℕ) (xs ys : List Job) → any (has_id q) xs ≡ true → any (has_id q) (xs ++ ys) ≡ true
any-append q [] ys h = absurd (ground arith)
any-append q (x ∷ xs) ys h = ground (arith, any-append q xs ys)

-- Only the head of a lane runs or may begin.
pub head_only :
    (bound : ℕ) (tail : Option ℕ) (before after : List Job) (j : Job)
    → IsLane bound tail (before ++ j ∷ after)
    → (may_begin (before ++ j ∷ after) j ≡ true) ⊎ (j.running ≡ true)
    → before ≡ []
unfolding IsLane
head_only bound tail [] after j h acts = refl
head_only bound tail (b ∷ bs) after j (low, chain, t) acts =
    let (idle, q, at, there) = waits bound b.id bs after j chain in
    let found : any (has_id q) (b ∷ (bs ++ j ∷ after)) ≡ true = elim there [
      | inl e ↦ ground (arith, e)
      | inr e ↦ ground (arith, any-append q bs (j ∷ after) e)
    ] in
    absurd (elim acts [ inl m ↦ ground (arith, rw (idle, at) at m, found) | inr r ↦ ground arith ])

-- The head of a lane runs or may begin.
pub head_acts :
    (bound : ℕ) (tail : Option ℕ) (js : List Job) (j : Job)
    → IsLane bound tail (j ∷ js)
    → (may_begin (j ∷ js) j ≡ true) ⊎ (j.running ≡ true)
unfolding IsLane
head_acts bound tail js j (low, chain, t) = elim (Option-cases j.prior) [
  | inl e ↦ ground arith
  | inr (p, e) ↦
      let below : p < j.id = rw e at low in
      ground (arith, IsChain-not_any bound j.id p js chain (omega (arith, below)), below)
]
