-- ===== src/Tests/Hosts.antt =====
-- Runs of the write queue, of the connection of a host, and of the calls that change a host.
use kanhrd.Base.{
  ◌≡◌, ◌⊎◌, inr, refl, true, false, none, some, List, [], ◌∷◌, lookup, insert, String,
}
use kanhrd.Herdr.Queue.{
  Job, Queue, empty_queue, enqueue, begin, may_begin, enqueued, begun, Reach, fresh, later,
}
use kanhrd.Herdr.Queue.Laws.{enqueue_fifo, enqueue_progress}
use kanhrd.Herdr.Host.Link
use kanhrd.Herdr.Host.Link.{Link, created, start, seeded, subscribed, disconnected}
use kanhrd.Herdr.Host.Calls.{tab_create, LifecycleCall, Reply, Outcome}
use kanhrd.Herdr.Host.Calls.Replies.{settle_call}
use kanhrd.Tests.Bridge.{config, one_pane}

abbrev key : String
key = "local::1"

abbrev one_job : Queue
one_job = enqueue key empty_queue

abbrev two_jobs : Queue
two_jobs = begin key 0 (enqueue key one_job)

abbrev waiting_job : Job
waiting_job = record { id = 1; prior = some 0; running = false }

abbrev first_job : Job
first_job = record { id = 0; prior = none; running = false }

abbrev running_job : Job
running_job = record { id = 0; prior = none; running = true }

two_jobs-Reach : Reach two_jobs
unfolding enqueue lookup begin insert
two_jobs-Reach =
    later (later (later fresh (enqueued key)) (enqueued key))
      (begun key [] (waiting_job ∷ []) first_job refl refl)

enqueue_fifo_example : ◌≡◌ {A = List Job} [] []
unfolding enqueue lookup begin insert
enqueue_fifo_example =
    enqueue_fifo two_jobs-Reach key [] (waiting_job ∷ []) running_job refl (inr refl)

enqueue_progress_example :
    ((two_jobs.lanes key ≡ []) × (lookup key two_jobs.tails ≡ none))
    ⊎ ((j : Job) × (js : List Job) × (two_jobs.lanes key ≡ j ∷ js)
        × ((may_begin (two_jobs.lanes key) j ≡ true) ⊎ (j.running ≡ true)))
enqueue_progress_example = enqueue_progress two_jobs-Reach key

-- Connected once, and then cut off.
abbrev cut_off : Link
cut_off = disconnected 1 "closed" (subscribed [] 1 (seeded [] (start created)))

-- herdr answers with the new tab and without its pane.
abbrev tab_only : Reply
tab_only = record {
  pane = none;
  move_result = none;
  tab = some (record { tab_id = "t2"; workspace_id = "w1"; label = "logs" });
  root_pane = none;
  tabs = none;
  workspace = none;
}

abbrev create : LifecycleCall
create =
    tab_create
      (record { parent_id = some "w1"; cwd = none; focus = none; label = none; env = none })

tab_only_rejected : (settle_call config 9 create (some tab_only) one_pane).1 ≡ Outcome.rejected
unfolding settle_call
tab_only_rejected = refl
