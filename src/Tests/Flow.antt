-- ===== src/Tests/Flow.antt =====
-- Witnesses: the worker pool, the rounds of the ticker, and the whole scheduler.
use surfbot_agent.Base.{
  ℕ, zero, suc, ◌+◌, ◌≤◌, ◌<◌, ◌≡◌, ◌≢◌, ◌↔◌, refl, Bool, true, false, Option, none, some, List, [],
  ◌∷◌, ◌++◌, String, arith, length, if◌then◌else◌,
}
use surfbot_agent.Base.Int.{pos}
use surfbot_agent.Base.Assoc.{lookup}
use surfbot_agent.Sched.Locks.{new_lock_index, release}
use surfbot_agent.Sched.Locks.Exclusion.{new_lock_index-Capped}
use surfbot_agent.Sched.Pool.{
  Pool, Job, Event, receive, count_in, dispatches, resizes, new_worker_pool, start, stop, free,
  step, steps, dispatch, dispatch_allowed, dispatch_send, panicked,
}
use surfbot_agent.Sched.Pool.Staff.{AllStay, staff, new_worker_pool-IsSound, pool_concurrency}
use surfbot_agent.Sched.Pool.Queue.{dispatch_lem}
use surfbot_agent.Sched.Ticker.{
  State, job_of, ad_hoc_job, dispatch_round, dispatch_ad_hoc, target_busy,
}
use surfbot_agent.Sched.Ticker.Threads.{
  Thread, Round, by_tick, ticks, asks, looks, answered, thread_step,
}
use surfbot_agent.Model.{AdHocScanRun}
use surfbot_agent.Sched.Ticker.Locking.{IsRound}
use surfbot_agent.Sched.Ticker.Rounds.{
  dispatch_round-IsRound, dispatch_ad_hoc-IsRound, was_accepted,
}
use surfbot_agent.Sched.Ticker.Exclusive.{
  System, IsExclusive, Reached, begun, next, ticked, asked, acted, Reached-IsExclusive,
}
use surfbot_agent.Tests.Samples.{nightly, services}

abbrev pool : Pool
pool = new_worker_pool (pos 2)

-- The pool grows; then a job is taken in, received and counted.
abbrev busy_run : List Event
busy_run = resizes (pos 3) ∷ dispatches (job_of nightly) ∷ receive ∷ count_in ∷ []

abbrev busy_pool : Pool
busy_pool = record (start pool) { size = 3; active = 1; workers = 3; idle = 2; running = 1 }

busy_steps : steps busy_run (start pool) ≡ some busy_pool
unfolding steps step new_worker_pool
busy_steps = refl

busy_stays : AllStay busy_run (start pool)
unfolding start new_worker_pool
busy_stays = (omega arith, λ r h. (tt, λ r h. (tt, λ r h. (tt, λ r h. tt))))

pool_concurrency_example :
    (staff busy_pool ≡ busy_pool.size + busy_pool.excess_quit)
    × (busy_pool.active ≤ busy_pool.size + busy_pool.excess_quit)
pool_concurrency_example = pool_concurrency (pos 2) busy_run busy_pool busy_stays busy_steps

dispatch_lem_example :
    (dispatch_allowed pool ≡ true → dispatch_send (job_of nightly) pool ≢ panicked)
    × (((dispatch (job_of nightly) pool).1 ≡ true)
        ↔ ((pool.stopped ≡ false) × (length pool.jobs < pool.jobs_cap)))
    × ((dispatch (job_of nightly) pool).0.jobs ≡ (
        if (dispatch (job_of nightly) pool).1 then pool.jobs ++ job_of nightly ∷ [] else pool.jobs))
    × (dispatch_allowed pool ≡ true → dispatch_send (job_of nightly) (stop pool) ≡ panicked)
dispatch_lem_example = dispatch_lem (job_of nightly) pool (new_worker_pool-IsSound (pos 2))

abbrev idle_state : State
idle_state = record { locks = new_lock_index; pool = start pool; effects = [] }

dispatch_round-IsRound_example :
    (new : List Job) × IsRound services 40
      (free idle_state.pool)
      idle_state
      (dispatch_round services 40 idle_state)
      new
dispatch_round-IsRound_example = dispatch_round-IsRound services 40 idle_state new_lock_index-Capped

abbrev request : AdHocScanRun
request = record { id = "r1"; target_id = "t1"; template_id = none; tool_config = none }

dispatch_ad_hoc-IsRound_example :
    (new : List Job) × IsRound services 40 1 idle_state
      (dispatch_ad_hoc services request "r2" 40 idle_state).0
      new
    × (length new
        ≡ (if was_accepted (dispatch_ad_hoc services request "r2" 40 idle_state).1 then 1 else 0))
dispatch_ad_hoc-IsRound_example =
    dispatch_ad_hoc-IsRound services request "r2" 40 idle_state new_lock_index-Capped

-- Of two due schedules of one target, one is queued.
one_queued : (dispatch_round services 40 idle_state).pool.jobs ≡ job_of nightly ∷ []
unfolding dispatch_round free start new_worker_pool surfbot_agent.Sched.Ticker.dispatch_due
    surfbot_agent.Sched.Locks.try_acquire lookup new_lock_index dispatch
    surfbot_agent.Base.Assoc.insert
one_queued = refl

-- A tick takes the lock of a target; before it dispatches, a request for the same target comes and finds it busy.
abbrev acts : List Thread → List Thread → Thread → System → System
acts before after th y = record y {
  state = (thread_step services 40 "new" th y.state).0;
  threads = before ++ (thread_step services 40 "new" th y.state).1 ∷ after;
}

abbrev begin : System
begin = record {
  state = record { locks = new_lock_index; pool = pool; effects = [] };
  threads = [];
  in_flight = [];
}

abbrev round : Round
round = record { due = nightly ∷ []; dispatched = 0; slots = 2; now = 40 }

abbrev begin_tick : System
begin_tick = record begin { threads = ticks 40 ∷ [] }

abbrev listed_due : System
listed_due = acts [] [] (ticks 40) begin_tick

abbrev first_due : Thread
first_due = (thread_step services 40 "new" (ticks 40) begin_tick.state).1

abbrev locked_due : System
locked_due = acts [] [] first_due listed_due

abbrev holder : Thread
holder = (thread_step services 40 "new" first_due listed_due.state).1

abbrev asked_too : System
asked_too = record locked_due { threads = locked_due.threads ++ asks request ∷ [] }

abbrev found_busy : System
found_busy = acts (holder ∷ []) [] (asks request) asked_too

interleaved : Reached (pos 2) found_busy
interleaved =
    next asked_too _
      (next locked_due _
        (next listed_due _
          (next begin_tick _ (next begin _ begun (ticked 40 begin))
            (acted services 40 "new" [] [] (ticks 40) begin_tick refl))
          (acted services 40 "new" [] [] first_due listed_due refl))
        (asked request locked_due))
      (acted services 40 "new" (holder ∷ []) [] (asks request) asked_too refl)

Reached-IsExclusive_example : IsExclusive found_busy
Reached-IsExclusive_example = Reached-IsExclusive (pos 2) found_busy interleaved

-- The tick holds the lock, with a second due schedule of the target to come; the request is refused.
busy : found_busy.threads ≡ looks (by_tick nightly round) ∷ answered target_busy ∷ []
unfolding thread_step free surfbot_agent.Sched.Locks.try_acquire new_worker_pool lookup
    new_lock_index surfbot_agent.Base.Assoc.insert
busy = refl
