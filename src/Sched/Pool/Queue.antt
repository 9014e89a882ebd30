-- ===== src/Sched/Pool/Queue.antt =====
-- internal/daemon/intervalsched/workerpool.go: what happens to the jobs.
use mathlib.Core.List.{append-nil, append_assoc}
use surfbot_agent.Base.{
  ◌<◌, ◌≡◌, ◌≢◌, sym, ap, ◌∙◌, ◌↔◌, true, false, none, some, List, [], ◌∷◌, ◌++◌, arith, length,
  Option-cases, inl, inr, if◌then◌else◌,
}
use surfbot_agent.Sched.Pool.{
  Pool, Job, Event, receive, count_in, finish, retire, go_on, quit, exit, cancel, starts, stops,
  dispatches, resizes, step, steps, stop, dispatch, dispatch_allowed, dispatch_send, panicked,
}
use surfbot_agent.Sched.Pool.Staff.{IsSound}

pub dispatch-jobs :
    (job : Job) (p : Pool)
    → (dispatch job p).0.jobs ≡ (if (dispatch job p).1 then p.jobs ++ job ∷ [] else p.jobs)
unfolding dispatch
dispatch-jobs job p = ground arith

-- If `Stop` runs between the two halves of a `Dispatch` that has passed its check, the send panics.
pub dispatch-stop_race :
    (job : Job) (p : Pool) → dispatch_allowed p ≡ true → dispatch_send job (stop p) ≡ panicked
unfolding dispatch_allowed dispatch_send stop
dispatch-stop_race job p h = ground arith

-- `Dispatch`, run without interruption on a sound pool, never sends to a closed channel; it takes the
-- job exactly if the pool is not stopped and the buffer has room, and then the job is the last of
-- the queue; otherwise the queue stays as it was. But if
-- `Stop` runs between its check, when that passes, and its send, the send panics.
pub dispatch_lem :
    (job : Job) (p : Pool)
    → IsSound p
    → (dispatch_allowed p ≡ true → dispatch_send job p ≢ panicked)
      × (((dispatch job p).1 ≡ true) ↔ ((p.stopped ≡ false) × (length p.jobs < p.jobs_cap)))
      × ((dispatch job p).0.jobs ≡ (if (dispatch job p).1 then p.jobs ++ job ∷ [] else p.jobs))
      × (dispatch_allowed p ≡ true → dispatch_send job (stop p) ≡ panicked)
unfolding dispatch
dispatch_lem job p s = (
  λ h e. ground arith,
  (λ h. (ground arith, ground arith), λ h. ground arith),
  ground arith,
  dispatch-stop_race job p,
)

-- The jobs that a run takes in, and those that its workers receive, in order.
abbrev pub accepted_by : Event → Pool → List Job
accepted_by (dispatches job) p = if (dispatch job p).1 then job ∷ [] else []
accepted_by _ p = []

abbrev pub first_job : List Job → List Job
first_job [] = []
first_job (j ∷ js) = j ∷ []

abbrev pub received_by : Event → Pool → List Job
received_by receive p = first_job p.jobs
received_by _ p = []

unfoldable pub accepted : List Event → Pool → List Job
accepted [] p = []
accepted (e ∷ es) p = elim (step e p) [ some q ↦ accepted_by e p ++ accepted es q | none ↦ [] ]

unfoldable pub received : List Event → Pool → List Job
received [] p = []
received (e ∷ es) p = elim (step e p) [ some q ↦ received_by e p ++ received es q | none ↦ [] ]

pub step-jobs :
    (e : Event) (p q : Pool)
    → step e p ≡ some q
    → p.jobs ++ accepted_by e p ≡ received_by e p ++ q.jobs
unfolding step
step-jobs receive p q h = ground (arith, append-nil p.jobs)
step-jobs count_in p q h = ground (arith, append-nil p.jobs)
step-jobs finish p q h = ground (arith, append-nil p.jobs)
step-jobs retire p q h = ground (arith, append-nil p.jobs)
step-jobs go_on p q h = ground (arith, append-nil p.jobs)
step-jobs quit p q h = ground (arith, append-nil p.jobs)
step-jobs exit p q h = ground (arith, append-nil p.jobs)
step-jobs cancel p q h = ground (arith, append-nil p.jobs)
step-jobs starts p q h = ground (arith, append-nil p.jobs)
step-jobs stops p q h = ground (arith, append-nil p.jobs)
step-jobs (dispatches job) p q h = ground (arith, append-nil p.jobs)
step-jobs (resizes n) p q h = ground (arith, append-nil p.jobs)

-- No job is lost, made up or overtaken: what was queued and what a run takes in, in this order, is what
-- its workers receive followed by what is left in the queue.
pub steps-jobs :
    (es : List Event) (p q : Pool)
    → steps es p ≡ some q
    → p.jobs ++ accepted es p ≡ received es p ++ q.jobs
unfolding steps accepted received
steps-jobs [] p q h = ground (arith, append-nil p.jobs)
steps-jobs (e ∷ es) p q h = elim (Option-cases (step e p)) [
  | inl stuck ↦ ground arith
  | inr (r, k) ↦
      rw (k, accepted, received)
        (sym (append_assoc p.jobs (accepted_by e p) (accepted es r))
          ∙ ap (λ l. l ++ accepted es r) (step-jobs e p r k)
          ∙ append_assoc (received_by e p) r.jobs (accepted es r)
          ∙ ap (λ l. received_by e p ++ l) (steps-jobs es r q (rw (k, steps) at h))
          ∙ sym (append_assoc (received_by e p) (received es r) q.jobs))
]
