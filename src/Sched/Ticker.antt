-- ===== src/Sched/Ticker.antt =====
-- internal/daemon/intervalsched/scheduler.go: the master ticker, ad-hoc dispatch and the job runner.
-- What a call asks of the stores, the blackout cache (refreshed at the start of a tick) and the expander
-- is a record of answers; a store's error on a write is only logged by the code. A write is an effect in a
-- list, the newest last.
pub mod Locking
pub mod Rounds
pub mod Threads
pub mod Exclusive
pub mod Runs
use Prim.Native.String.{◌++◌ as str_append}
use surfbot_agent.Base.{
  ℕ, suc, ◌+◌, Bool, true, false, not, ◌&&◌, Option, none, some, List, [], ◌∷◌, ◌++◌, String, ltb,
  leb, ◌==◌, str_eq, string_eq, if◌then◌else◌,
}
use surfbot_agent.Base.Assoc.{Assoc, lookup, insert}
use surfbot_agent.Model.{
  Time, Schedule, Template, ScheduleDefaults, AdHocScanRun, AdHocRunStatus, ScheduleRunStatus,
  success, failed, paused_blackout, skipped_blackout, running, completed, ad_hoc_failed, Failure,
  nil_map_write, Result, ok, err,
}
use surfbot_agent.Model.Cascade.{EffectiveConfig, resolve_effective_config}
use surfbot_agent.Sched.Locks.{LockIndex, try_acquire, release}
use surfbot_agent.Sched.Pool.{Pool, Job, Payload, scheduled, ad_hoc, other, dispatch, free}

abbrev pub list_due_overhead : ℕ
list_due_overhead = 5

unfoldable pub ad_hoc_job_key : String → String
ad_hoc_job_key id = str_append "adhoc:" id

-- `TmplStore.Get` and `ListDue`: `none` is an error.
pub record Services : Type 0 where
  pub active : String → Time → Bool
  pub next_run : Schedule → Option Template → Result (Option Time)
  pub get_template : String → Option Template
  pub list_due : Time → ℕ → Option (List Schedule)
  pub defaults : ScheduleDefaults
  pub has_ad_hoc_store : Bool

pub data Effect : Type 0 where
  record_run : String → ScheduleRunStatus → Option String → Time → Effect
  set_next_run_at : String → Option Time → Effect
  update_status : String → AdHocRunStatus → Effect
  attach_scan : String → String → Effect

pub record State : Type 0 where
  pub locks : LockIndex
  pub pool : Pool
  pub effects : List Effect

abbrev pub job_of : Schedule → Job
job_of sched = record {
  schedule_id = sched.id;
  target_id = sched.target_id;
  payload = scheduled sched;
}

pub data Reply : Type 0 where
  target_required target_busy in_blackout pool_full accepted : Reply

abbrev pub ad_hoc_job : AdHocScanRun → Job
ad_hoc_job run = record {
  schedule_id = ad_hoc_job_key run.id;
  target_id = run.target_id;
  payload = ad_hoc run;
}

module _ (V : Services) where
  unfoldable pub load_template : Option String → Option Template
  load_template none = none
  load_template (some id) = if str_eq id "" then none else V.get_template id

  -- The writes of `handleBlackoutSkip`.
  unfoldable pub skip_effects : Schedule → Time → List Effect
  skip_effects sched now =
      record_run sched.id skipped_blackout none now
      ∷ elim (V.next_run sched (load_template sched.template_id)) [
        | ok next ↦ set_next_run_at sched.id next ∷ []
        | err e ↦ []
      ]

  unfoldable pub handle_blackout_skip : Schedule → Time → State → State
  handle_blackout_skip sched now s = record s { effects = s.effects ++ skip_effects sched now }

  -- The loop of `tick` over the due schedules; `dispatched` counts, and `free` bounds it.
  unfoldable pub dispatch_due : List Schedule → ℕ → ℕ → Time → State → State
  dispatch_due [] dispatched free now s = s
  dispatch_due (sched ∷ due) dispatched free now s =
      if leb free dispatched
      then s
      else (let (locks, acquired) = try_acquire s.locks sched.target_id in
          let freed = record s { locks = release locks sched.target_id } in
          let (pool, taken) = dispatch (job_of sched) s.pool in
          let contended = dispatch_due due dispatched free now (record s { locks = locks }) in
          let skipped =
            dispatch_due due dispatched free now (handle_blackout_skip sched now freed) in
          let sent =
            dispatch_due due (suc dispatched) free now (record s { locks = locks; pool = pool }) in
          if not acquired
          then contended
          else if V.active sched.target_id now
          then skipped
          else if not taken
          then freed
          else sent)

  -- `tick` after the refresh and the look at the jobs in flight.
  unfoldable pub dispatch_round : Time → State → State
  dispatch_round now s =
      let slots = free s.pool in
      if slots == 0 then s else elim (V.list_due now (slots + list_due_overhead)) [
        | none ↦ s
        | some due ↦ dispatch_due due 0 slots now s
      ]

  abbrev pub note_status : String → AdHocRunStatus → List Effect → List Effect
  note_status id status es = if V.has_ad_hoc_store then es ++ update_status id status ∷ [] else es

  -- `DispatchAdHoc` up to the wait for the result; `new_id` is the identifier made for a run without one.
  unfoldable pub dispatch_ad_hoc : AdHocScanRun → String → Time → State → State × Reply
  dispatch_ad_hoc run new_id now s =
      let (locks, acquired) = try_acquire s.locks run.target_id in
      let freed = record s { locks = release locks run.target_id } in
      let id = if str_eq run.id "" then new_id else run.id in
      let marked = note_status id running s.effects in
      let (pool, taken) = dispatch (ad_hoc_job (record run { id = id })) s.pool in
      if str_eq run.target_id ""
      then (s, target_required)
      else if not acquired
      then (record s { locks = locks }, target_busy)
      else if V.active run.target_id now
      then (freed, in_blackout)
      else if not taken
      then (record freed { effects = note_status id ad_hoc_failed marked }, pool_full)
      else (record s { locks = locks; pool = pool; effects = marked }, accepted)
