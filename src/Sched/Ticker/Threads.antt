-- ===== src/Sched/Ticker/Threads.antt =====
-- internal/daemon/intervalsched/scheduler.go: `tick` and `DispatchAdHoc` as goroutines. Neither holds a mutex, so
-- others run between their calls of the locks (locks.go) and of the pool (workerpool.go): a step here is one such
-- call, or one write to a store. `Refresh` and the look at the jobs in flight, which touch neither, are left out.
use surfbot_agent.Base.{
  ℕ, suc, Bool, true, false, Option, none, some, List, [], ◌∷◌, String, leb, ◌==◌, ◌+◌, str_eq,
  if◌then◌else◌,
}
use surfbot_agent.Model.{Time, Schedule, AdHocScanRun, running, ad_hoc_failed}
use surfbot_agent.Sched.Locks.{LockIndex, try_acquire, release}
use surfbot_agent.Sched.Pool.{
  Job, Sent, sent, full, panicked, dispatch_allowed, dispatch_send, free,
}
use surfbot_agent.Sched.Ticker.{
  Services, State, Reply, target_required, target_busy, in_blackout, pool_full, accepted, job_of,
  ad_hoc_job, list_due_overhead, handle_blackout_skip, note_status,
}

-- What the loop of `tick` still has to do, and how many jobs it has dispatched of how many.
pub record Round : Type 0 where
  pub due : List Schedule
  pub dispatched : ℕ
  pub slots : ℕ
  pub now : Time

-- Who takes a lock.
pub data Caller : Type 0 where
  by_tick : Schedule → Round → Caller
  by_request : AdHocScanRun → Caller

abbrev pub caller_job : Caller → Job
caller_job (by_tick sched r) = job_of sched
caller_job (by_request run) = ad_hoc_job run

-- Where a goroutine is: what it does next.
pub data Thread : Type 0 where
  -- `Free` and `ListDue`; the head of the loop; the head of `DispatchAdHoc`.
  ticks : Time → Thread
  loops : Round → Thread
  asks : AdHocScanRun → Thread
  -- With the lock: `IsActive`, `Release` in a blackout, `UpdateStatus`, the test of `Dispatch`, its send, and
  -- `Release` when the job was not taken.
  looks : Caller → Thread
  leaves : Caller → Thread
  marks : Caller → Thread
  checks : Caller → Thread
  sends : Caller → Thread
  gives_up : Caller → Thread
  -- Without it: `handleBlackoutSkip`, and `UpdateStatus` after a refusal.
  skips : Schedule → Round → Thread
  notes : AdHocScanRun → Thread
  -- The loop has ended; the request has its answer, or waits for the result; the send has panicked.
  rests : Thread
  answered : Reply → Thread
  crashed : Caller → Thread

abbrev pub with_locks : State → LockIndex → State
with_locks s locks = record s { locks = locks }

abbrev pub after_try : State → LockIndex × Bool → Thread → Thread → State × Thread
after_try s (locks, true) won lost = (with_locks s locks, won)
after_try s (locks, false) won lost = (with_locks s locks, lost)

abbrev pub released : State → Caller → Thread → State × Thread
released s c next = (with_locks s (release s.locks (caller_job c).target_id), next)

-- The run has its identifier from here on.
abbrev pub with_new_id : String → Caller → Caller
with_new_id new_id (by_tick sched r) = by_tick sched r
with_new_id new_id (by_request run) =
    by_request (record run { id = if str_eq run.id "" then new_id else run.id })

abbrev pub after_send : State → Sent → Caller → State × Thread
after_send s (sent q) (by_tick sched r) =
    (record s { pool = q }, loops (record r { dispatched = suc r.dispatched }))
after_send s (sent q) (by_request run) = (record s { pool = q }, answered accepted)
after_send s full c = (s, gives_up c)
after_send s panicked c = (s, crashed c)

module _ (V : Services) where
  abbrev pub after_list : Time → ℕ → Option (List Schedule) → Thread
  after_list now slots none = rests
  after_list now slots (some due) =
      loops (record { due = due; dispatched = 0; slots = slots; now = now })

  abbrev pub loop_step : Round → List Schedule → State → State × Thread
  loop_step r [] s = (s, rests)
  loop_step r (sched ∷ due) s =
      let later = record r { due = due } in
      if leb r.slots r.dispatched
      then (s, rests)
      else after_try s (try_acquire s.locks sched.target_id) (looks (by_tick sched later))
          (loops later)

  -- The instant at which `IsActive` is asked; a request reads the clock.
  abbrev pub asked_at : Time → Caller → Time
  asked_at clock (by_tick sched r) = r.now
  asked_at clock (by_request run) = clock

  -- One step, with a reading of the clock and an identifier that the step may use.
  unfoldable pub thread_step : Time → String → Thread → State → State × Thread
  thread_step clock new_id (ticks now) s =
      let slots = free s.pool in
      (
        s,
        if slots == 0
            then rests
            else after_list now slots (V.list_due now (slots + list_due_overhead)),
      )
  thread_step clock new_id (loops r) s = loop_step r r.due s
  thread_step clock new_id (asks run) s =
      if str_eq run.target_id ""
      then (s, answered target_required)
      else after_try s (try_acquire s.locks run.target_id) (looks (by_request run))
          (answered target_busy)
  thread_step clock new_id (looks c) s = (
    s,
    if V.active (caller_job c).target_id (asked_at clock c)
        then leaves c
        else marks (with_new_id new_id c),
  )
  thread_step clock new_id (leaves (by_tick sched r)) s =
      released s (by_tick sched r) (skips sched r)
  thread_step clock new_id (leaves (by_request run)) s =
      released s (by_request run) (answered in_blackout)
  thread_step clock new_id (marks (by_tick sched r)) s = (s, checks (by_tick sched r))
  thread_step clock new_id (marks (by_request run)) s =
      (record s { effects = note_status V run.id running s.effects }, checks (by_request run))
  thread_step clock new_id (checks c) s =
      (s, if dispatch_allowed s.pool then sends c else gives_up c)
  thread_step clock new_id (sends c) s = after_send s (dispatch_send (caller_job c) s.pool) c
  thread_step clock new_id (gives_up (by_tick sched r)) s = released s (by_tick sched r) rests
  thread_step clock new_id (gives_up (by_request run)) s = released s (by_request run) (notes run)
  thread_step clock new_id (skips sched r) s = (handle_blackout_skip V sched r.now s, loops r)
  thread_step clock new_id (notes run) s =
      (record s { effects = note_status V run.id ad_hoc_failed s.effects }, answered pool_full)
  thread_step clock new_id rests s = (s, rests)
  thread_step clock new_id (answered reply) s = (s, answered reply)
  thread_step clock new_id (crashed c) s = (s, crashed c)
