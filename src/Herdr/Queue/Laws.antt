-- ===== src/Herdr/Queue/Laws.antt =====
-- The lanes of a queue are first in, first out, and never stand still.
use kanhrd.Base.{
  ℕ, suc, ◌≡◌, refl, subst, ◌⊎◌, inl, inr, String, true, false, Option, none, List, [], ◌∷◌, ◌++◌,
  arith, if◌then◌else◌, str_eq, Dict, lookup, erase, Bool-cases, lookup-insert, lookup-erase,
  eq_iff, str_eq_refl,
}
use kanhrd.Herdr.Queue.{
  Job, Queue, with_lane, enqueue, may_begin, start_job, drop_job, begin, is_tail, settle, Step,
  enqueued, begun, settled, Reach, fresh, later,
}
use kanhrd.Herdr.Queue.Lanes.{
  IsLane, IsLane-suc, IsLane-enqueue, IsLane-start, tail_after, IsLane-settle, head_only, head_acts,
}

lane_idle : (bound : ℕ) (tail : Option ℕ) → IsLane bound tail [] → tail ≡ none
unfolding IsLane
lane_idle bound tail h = h

-- Every lane is in order.
abbrev pub IsQueue : Queue → Type 0
IsQueue q = (key : String) → IsLane q.next (lookup key q.tails) (q.lanes key)

-- A change of one lane and its tail, of a lane that was in order.
IsQueue-update :
    (q : Queue) (key : String) (tails : Dict ℕ) (jobs : List Job) (bound : ℕ)
    → ((k : String) → str_eq key k ≡ false → lookup k tails ≡ lookup k q.tails)
    → ((tail : Option ℕ) (js : List Job) → IsLane q.next tail js → IsLane bound tail js)
    → IsLane bound (lookup key tails) jobs
    → IsQueue q
    → IsQueue (record { tails = tails; lanes = with_lane q.lanes key jobs; next = bound })
IsQueue-update q key tails jobs bound others grows here h k = elim (Bool-cases (str_eq key k)) [
  | inl e ↦
      let same : key ≡ k = (eq_iff key k).0 e in
      rw e (subst (λ j. IsLane bound (lookup j tails) jobs) same here)
  | inr e ↦ rw (e, others k e) (grows (lookup k q.tails) (q.lanes k) (h k))
]

start-IsLane :
    (bound : ℕ) (tail : Option ℕ) (before after : List Job) (j : Job) (jobs : List Job)
    → jobs ≡ before ++ j ∷ after
    → IsLane bound tail jobs
    → may_begin jobs j ≡ true
    → IsLane bound tail (start_job j.id jobs)
start-IsLane bound tail before after j jobs same h acts =
    let lane : IsLane bound tail (before ++ j ∷ after) = subst (IsLane bound tail) same h in
    let first =
      head_only bound tail before after j lane
        (inl (subst (λ l. may_begin l j ≡ true) same acts)) in
    rw (same, first) (IsLane-start bound tail j after (rw first at lane))

settle-IsLane :
    (bound : ℕ) (tail : Option ℕ) (before after : List Job) (j : Job) (jobs : List Job)
    → jobs ≡ before ++ j ∷ after
    → IsLane bound tail jobs
    → j.running ≡ true
    → IsLane bound (tail_after tail j.id) (drop_job j.id jobs)
settle-IsLane bound tail before after j jobs same h acts =
    let lane : IsLane bound tail (before ++ j ∷ after) = subst (IsLane bound tail) same h in
    let first = head_only bound tail before after j lane (inr acts) in
    rw (same, first) (IsLane-settle bound tail j after (rw first at lane))

lookup-settled :
    (key k : String) (id : ℕ) (tails : Dict ℕ)
    → lookup k (if is_tail (lookup key tails) id then erase key tails else tails)
      ≡ (if str_eq key k then tail_after (lookup key tails) id else lookup k tails)
lookup-settled key k id tails = elim (Bool-cases (str_eq key k)) [
  | inl e ↦ rw⁻¹ ((eq_iff key k).0 e) (ground (arith, lookup-erase key key tails, str_eq_refl key))
  | inr e ↦ rw e (ground (arith, lookup-erase key k tails))
]

Step-IsQueue : {q r : Queue} → Step q r → IsQueue q → IsQueue r
unfolding enqueue begin settle
Step-IsQueue {q} (enqueued key) h =
    IsQueue-update q key _ _ (suc q.next)
      (λ k e. ground (arith, lookup-insert key k q.next q.tails))
      (λ tail js lane. IsLane-suc q.next tail js lane)
      (rw (lookup-insert, str_eq_refl)
        (IsLane-enqueue q.next (lookup key q.tails) (q.lanes key) (h key)))
      h
Step-IsQueue {q} (begun key before after j same acts) h =
    IsQueue-update q key _ _ q.next (λ k e. refl) (λ tail js lane. lane)
      (start-IsLane q.next (lookup key q.tails) before after j (q.lanes key) same (h key) acts) h
Step-IsQueue {q} (settled key before after j same acts) h =
    IsQueue-update q key _ _ q.next (λ k e. ground (arith, lookup-settled key k j.id q.tails))
      (λ tail js lane. lane)
      (rw (lookup-settled, str_eq_refl)
        (settle-IsLane q.next (lookup key q.tails) before after j (q.lanes key) same (h key) acts))
      h

pub Reach-IsQueue : {q : Queue} → Reach q → IsQueue q
unfolding IsLane lookup
Reach-IsQueue fresh = λ key. refl
Reach-IsQueue (later r s) = Step-IsQueue s (Reach-IsQueue r)

-- In every state that a write queue can reach, a task that runs, or whose turn has come, is the first
-- of the unsettled tasks of its key: the tasks of a key run one at a time, in the order in which they
-- were enqueued.
pub enqueue_fifo :
    {q : Queue}
    → Reach q
    → (key : String) (before after : List Job) (j : Job) → q.lanes key ≡ before ++ j ∷ after
    → (may_begin (q.lanes key) j ≡ true) ⊎ (j.running ≡ true)
    → before ≡ []
enqueue_fifo {q} r key before after j same acts =
    head_only q.next (lookup key q.tails) before after j
      (subst (IsLane q.next (lookup key q.tails)) same (Reach-IsQueue r key))
      (elim acts [ inl m ↦ inl (subst (λ l. may_begin l j ≡ true) same m) | inr m ↦ inr m ])

-- No key ever stands still: in every state that a write queue can reach, a key either has no
-- unsettled task, and then no entry of `tails` is left for it, or the first of its tasks runs or may
-- begin at once.
pub enqueue_progress :
    {q : Queue}
    → Reach q
    → (key : String)
    → ((q.lanes key ≡ []) × (lookup key q.tails ≡ none))
      ⊎ ((j : Job) × (js : List Job) × (q.lanes key ≡ j ∷ js)
          × ((may_begin (q.lanes key) j ≡ true) ⊎ (j.running ≡ true)))
enqueue_progress {q} r key = go (q.lanes key) refl
  where
    go :
        (jobs : List Job)
        → q.lanes key ≡ jobs
        → ((q.lanes key ≡ []) × (lookup key q.tails ≡ none))
          ⊎ ((j : Job) × (js : List Job) × (q.lanes key ≡ j ∷ js)
              × ((may_begin (q.lanes key) j ≡ true) ⊎ (j.running ≡ true)))
    go [] same = inl (
      same,
      lane_idle q.next _ (subst (IsLane q.next (lookup key q.tails)) same (Reach-IsQueue r key)),
    )
    go (j ∷ js) same =
        let lane : IsLane q.next (lookup key q.tails) (j ∷ js) =
          subst (IsLane q.next (lookup key q.tails)) same (Reach-IsQueue r key) in
        inr (j, js, same, rw same (head_acts q.next (lookup key q.tails) js j lane))
