-- ===== src/Sched/Ticker/Runs.antt =====
-- internal/daemon/intervalsched/scheduler.go: the job runner and the pause of jobs in flight.
-- A run is split at the call of the scanner, where ticks may come in between: `begin_run` is the part
-- before it, `finish_run` the part after it with the deferred calls. Of a job's context the cause of its
-- cancellation is kept; the first cause stays. The scanner's answer is an argument.
pub mod Endings
use surfbot_agent.Base.{
  Bool, true, false, not, ◌&&◌, Option, none, some, List, [], ◌∷◌, ◌++◌, String, str_eq, string_eq,
  if◌then◌else◌,
}
use surfbot_agent.Base.Assoc.{Assoc, lookup, insert, remove}
use surfbot_agent.Model.{
  Time, Schedule, Template, ScheduleDefaults, AdHocScanRun, AdHocRunStatus, ScheduleRunStatus,
  success, failed, paused_blackout, completed, ad_hoc_failed, Failure, Result, ok, err,
}
use surfbot_agent.Model.Cascade.{EffectiveConfig, resolve_effective_config}
use surfbot_agent.Sched.Locks.{release}
use surfbot_agent.Sched.Pool.{Job, Payload, scheduled, ad_hoc, other}
use surfbot_agent.Sched.Ticker.{
  Services, State, Effect, record_run, set_next_run_at, attach_scan, load_template, note_status,
  ad_hoc_job_key,
}

pub data Cause : Type 0 where
  blackout_pause other_cause : Cause

pub record InflightJob : Type 0 where
  pub schedule_id : String
  pub target_id : String
  pub acquired_at : Time
  pub cause : Option Cause

pub record Runs : Type 0 where
  pub state : State
  pub in_flight : Assoc String InflightJob

-- An error of the scanner: does it wrap `context.Canceled`?
pub data RunError : Type 0 where
  canceled_error other_error : RunError

-- What the scanner returns.
pub record ScanResult : Type 0 where
  pub scan_id : String
  pub failure : Option RunError

-- `job.cancel(ErrBlackoutPause)`.
abbrev pub pause : InflightJob → InflightJob
pause job = record job { cause = elim job.cause [ none ↦ some blackout_pause | some c ↦ some c ] }

abbrev pub pseudo_schedule : ScheduleDefaults → AdHocScanRun → Schedule
pseudo_schedule d run = record {
  id = "";
  target_id = run.target_id;
  rrule = d.default_rrule;
  dtstart = 0;
  timezone = d.default_timezone;
  template_id = run.template_id;
  tool_config = run.tool_config;
  overrides = [];
  maintenance_window = none;
}

abbrev pub inflight_job : String → String → Time → InflightJob
inflight_job id target now = record {
  schedule_id = id;
  target_id = target;
  acquired_at = now;
  cause = none;
}

-- The key of a job in the table, and whether its payload is of a known type.
abbrev pub key_of_job : Payload → Option String
key_of_job (scheduled sched) = some sched.id
key_of_job (ad_hoc run) = some (ad_hoc_job_key run.id)
key_of_job other = none

unfoldable pub run_status : Option RunError → Option Cause → ScheduleRunStatus
run_status none cause = success
run_status (some canceled_error) (some blackout_pause) = paused_blackout
run_status (some canceled_error) cause = failed
run_status (some other_error) cause = failed

abbrev pub ad_hoc_status : Option RunError → AdHocRunStatus
ad_hoc_status none = completed
ad_hoc_status (some e) = ad_hoc_failed

abbrev pub scan_id_ptr : String → Option String
scan_id_ptr id = if str_eq id "" then none else some id

abbrev pub cause_in : String → Assoc String InflightJob → Option Cause
cause_in key jobs = elim (lookup key jobs) [ some job ↦ job.cause | none ↦ none ]

module _ (V : Services) where
  -- One job of `evaluateInFlightBlackouts`.
  unfoldable pub evaluate_job : Time → InflightJob → InflightJob
  evaluate_job now job =
      if V.active job.target_id now && not (V.active job.target_id job.acquired_at)
      then pause job
      else job

  unfoldable pub evaluate_in_flight : Time → Assoc String InflightJob → Assoc String InflightJob
  evaluate_in_flight now [] = []
  evaluate_in_flight now ((key, job) ∷ jobs) =
      (key, evaluate_job now job) ∷ evaluate_in_flight now jobs

  -- The configuration of a job's run.
  unfoldable pub config_of : Payload → Result (Option EffectiveConfig)
  config_of (scheduled sched) =
      elim (resolve_effective_config sched (load_template V sched.template_id) V.defaults) [
        | ok c ↦ ok (some c)
        | err e ↦ err e
      ]
  config_of (ad_hoc run) =
      elim (resolve_effective_config (pseudo_schedule V.defaults run)
        (load_template V run.template_id) V.defaults) [ ok c ↦ ok (some c) | err e ↦ err e ]
  config_of other = ok none

  -- What is written when the configuration cannot be resolved.
  unfoldable pub note_unresolved : Payload → Time → List Effect → List Effect
  note_unresolved (scheduled sched) now es = es ++ record_run sched.id failed none now ∷ []
  note_unresolved (ad_hoc run) now es = note_status V run.id ad_hoc_failed es
  note_unresolved other now es = es

  abbrev pub entry_of : Payload → Time → InflightJob
  entry_of (scheduled sched) now = inflight_job sched.id sched.target_id now
  entry_of (ad_hoc run) now = inflight_job run.id run.target_id now
  entry_of other now = inflight_job "" "" now

  abbrev pub let_go : Job → Runs → Runs
  let_go job r = record r { state = record r.state { locks = release r.state.locks job.target_id } }

  -- Up to the call of the scanner; with `none` the run ended without it.
  unfoldable pub begin_run : Job → Time → Runs → Runs × Option EffectiveConfig
  begin_run job now r = elim (config_of job.payload) [
    | err e ↦ (
      let_go job (record r {
        state = record r.state { effects = note_unresolved job.payload now r.state.effects };
      }),
      none,
    )
    | ok none ↦ (let_go job r, none)
    | ok (some config) ↦ elim (key_of_job job.payload) [
      | none ↦ (let_go job r, none)
      | some key ↦
          (record r { in_flight = insert key (entry_of job.payload now) r.in_flight }, some config)
    ]
  ]

  -- The write of the next fire time, unless its computation fails.
  unfoldable pub next_effects : Schedule → Option Template → List Effect
  next_effects sched tmpl = elim (V.next_run sched tmpl) [
    | ok next ↦ set_next_run_at sched.id next ∷ []
    | err e ↦ []
  ]

  -- What is written after the scanner's return.
  unfoldable pub note_result :
      Payload → Option Template → ScanResult → Option Cause → Time → List Effect → List Effect
  note_result (scheduled sched) tmpl result cause now es =
      es
      ++ record_run sched.id (run_status result.failure cause) (scan_id_ptr result.scan_id) now
        ∷ next_effects sched tmpl
  note_result (ad_hoc run) tmpl result cause now es =
      note_status V run.id (ad_hoc_status result.failure) (
        if V.has_ad_hoc_store && not (str_eq result.scan_id "")
        then es ++ attach_scan run.id result.scan_id ∷ []
        else es)
  note_result other tmpl result cause now es = es

  -- `tmpl` is the template that the first part loaded.
  unfoldable pub finish_run : Job → Option Template → ScanResult → Time → Runs → Runs
  finish_run job tmpl result now r = elim (key_of_job job.payload) [
    | none ↦ let_go job r
    | some key ↦ let_go job (record {
      state = record r.state {
        effects =
            note_result job.payload tmpl result (cause_in key r.in_flight) now r.state.effects;
      };
      in_flight = remove key r.in_flight;
    })
  ]
