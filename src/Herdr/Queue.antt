-- ===== src/Herdr/Queue.antt =====
-- apps/bridge/src/herdr/write-queue.ts: the FIFO queues of the requests that change something. A job
-- is a task that was enqueued and has not settled; `tails` is the program's own map, a settled
-- promise being named by the number of its job.
pub mod Lanes
pub mod Laws
use kanhrd.Base.{
  ℕ, zero, suc, String, Bool, true, false, Option, none, some, List, [], ◌∷◌, ◌++◌, ◌≡◌,
  if◌then◌else◌, ◌==◌, any, str_eq, Dict, lookup, insert, erase, concat, not,
}

pub record Job : Type 0 where
  pub id : ℕ
  pub prior : Option ℕ
  pub running : Bool

-- The jobs of a key stand in the order in which they were enqueued.
pub record Queue : Type 0 where
  pub tails : Dict ℕ
  pub lanes : String → List Job
  pub next : ℕ

abbrev pub empty_queue : Queue
empty_queue = record { tails = []; lanes = λ k. []; next = 0 }

-- `${host}::${paneId}`, the key of a `PaneWriteQueue`; a `HostMutationQueue` is keyed by its host.
abbrev pub write_key : String → String → String
write_key host pane_id = concat (host ∷ "::" ∷ pane_id ∷ [])

abbrev pub with_lane : (String → List Job) → String → List Job → String → List Job
with_lane lanes key jobs k = if str_eq key k then jobs else lanes k

-- `const prior = this.tails.get(key) ?? Promise.resolve()`, and the new tail.
unfoldable pub enqueue : String → Queue → Queue
enqueue key q = record {
  tails = insert key q.next q.tails;
  lanes =
      with_lane q.lanes key
        (q.lanes key ++ record { id = q.next; prior = lookup key q.tails; running = false } ∷ []);
  next = suc q.next;
}

abbrev pub has_id : ℕ → Job → Bool
has_id id j = j.id == id

-- Whether the promise that a job waits for has settled.
abbrev pub is_settled : Option ℕ → List Job → Bool
is_settled none jobs = true
is_settled (some p) jobs = not (any (has_id p) jobs)

abbrev pub may_begin : List Job → Job → Bool
may_begin jobs j = if j.running then false else is_settled j.prior jobs

unfoldable pub start_job : ℕ → List Job → List Job
start_job id [] = []
start_job id (j ∷ js) =
    let rest = start_job id js in
    if has_id id j then record { id = j.id; prior = j.prior; running = true } ∷ js else j ∷ rest

unfoldable pub drop_job : ℕ → List Job → List Job
drop_job id [] = []
drop_job id (j ∷ js) = let rest = drop_job id js in if has_id id j then js else j ∷ rest

unfoldable pub begin : String → ℕ → Queue → Queue
unfolding start_job
begin key id q = record {
  tails = q.tails;
  lanes = with_lane q.lanes key (start_job id (q.lanes key));
  next = q.next;
}

abbrev pub is_tail : Option ℕ → ℕ → Bool
is_tail none id = false
is_tail (some t) id = t == id

-- `if (this.tails.get(key) === settled) this.tails.delete(key)`
unfoldable pub settle : String → ℕ → Queue → Queue
unfolding drop_job
settle key id q = record {
  tails = if is_tail (lookup key q.tails) id then erase key q.tails else q.tails;
  lanes = with_lane q.lanes key (drop_job id (q.lanes key));
  next = q.next;
}

-- The steps, in any order: a promise callback runs once what it waits for has settled.
pub data Step (q : Queue) : Queue → Type 0 where
  enqueued : (key : String) → Step q (enqueue key q)
  begun :
      (key : String) (before after : List Job) (j : Job)
      → q.lanes key ≡ before ++ j ∷ after
      → may_begin (q.lanes key) j ≡ true
      → Step q (begin key j.id q)
  settled :
      (key : String) (before after : List Job) (j : Job)
      → q.lanes key ≡ before ++ j ∷ after
      → j.running ≡ true
      → Step q (settle key j.id q)

pub data Reach : Queue → Type 0 where
  fresh : Reach empty_queue
  later : {q r : Queue} → Reach q → Step q r → Reach r
