-- ===== src/Pipeline/Run.antt =====
-- internal/pipeline/pipeline.go: the run of a scan, tool after tool. What the run asks of the store and of the tools
-- is a list of events, the newest first. The answers of the store, of the tools and of the context are a
-- parameter, by the place of the tool in the run. Times, log lines, identifiers and typed tool parameters are left
-- out. The code does not look at the errors of its
-- writes, but for the first.
pub mod Tooling
pub mod Endings
pub mod Choice
pub mod Phases
pub mod Feeding
use surfbot_agent.Base.{
  ℕ, Bool, true, false, not, ◌&&◌, ◌||◌, ◌==◌, Option, none, some, List, [], ◌∷◌, ◌++◌, String,
  str_eq, if◌then◌else◌,
}
use surfbot_agent.Base.Text.{Bytes}
use surfbot_agent.Base.Assoc.{Assoc}
use surfbot_agent.Storage.Reap.{
  ScanStatus, scan_running, ToolRunStatus, tool_skipped, tool_failed, tool_timeout,
}
use surfbot_agent.Pipeline.Handoff.{
  Phase, discovery, resolution, port_scan, http_probe, assessment, Emitted,
}

-- A type that is not given is the full scan.
pub data ScanType : Type 0 where
  scan_full scan_quick scan_discovery : ScanType

pub record DetectionTool : Type 0 where
  pub name : String
  pub phase : Phase

pub record PipelineOptions : Type 0 where
  pub scan_type : ScanType
  pub tools : List String
  pub rate_limit : ℕ
  pub timeout : ℕ

abbrev pub is_listed : String → List String → Bool
is_listed name [] = false
is_listed name (n ∷ names) = str_eq n name || is_listed name names

abbrev pub chosen : List String → List DetectionTool → List DetectionTool
chosen names [] = []
chosen names (t ∷ ts) =
    let rest = chosen names ts in if is_listed t.name names then t ∷ rest else rest

unfoldable pub select_tools : List DetectionTool → List String → List DetectionTool
select_tools all [] = all
select_tools all (name ∷ names) = chosen (name ∷ names) all

abbrev pub is_phase : Phase → Phase → Bool
is_phase discovery p = elim p [ discovery ↦ true | _ ↦ false ]
is_phase resolution p = elim p [ resolution ↦ true | _ ↦ false ]
is_phase port_scan p = elim p [ port_scan ↦ true | _ ↦ false ]
is_phase http_probe p = elim p [ http_probe ↦ true | _ ↦ false ]
is_phase assessment p = elim p [ assessment ↦ true | _ ↦ false ]

unfoldable pub should_skip : ScanType → Phase → Bool
should_skip scan_discovery p = not (is_phase discovery p) && not (is_phase resolution p)
should_skip scan_quick p = is_phase port_scan p
should_skip scan_full p = false

unfoldable pub is_hard_failure : DetectionTool → Bool
is_hard_failure t = is_phase discovery t.phase

-- Seconds.
unfoldable pub phase_timeout : PipelineOptions → Phase → ℕ
phase_timeout opts p =
    if opts.timeout == 0 then (if is_phase assessment p then 600 else 300) else opts.timeout

-- What a tool is called with, less its typed parameters.
pub record RunOptions : Type 0 where
  pub rate_limit : ℕ
  pub timeout : ℕ
  pub deadline : ℕ
  pub fast_profile : Bool

abbrev pub is_quick : ScanType → Bool
is_quick scan_quick = true
is_quick _ = false

unfoldable pub run_options : PipelineOptions → Phase → RunOptions
unfolding phase_timeout
run_options opts p = record {
  rate_limit = opts.rate_limit;
  timeout = opts.timeout;
  deadline = phase_timeout opts p;
  fast_profile = is_phase assessment p && is_quick opts.scan_type;
}

pub record ToolFinding : Type 0 where
  pub id : String
  pub asset_hint : Bytes

-- What the tool itself reports of its run.
pub record ToolReport : Type 0 where
  pub status : ToolRunStatus
  pub message : String

pub record RunResult : Type 0 where
  pub assets : List Emitted
  pub findings : List ToolFinding
  pub report : ToolReport

pub data ToolOutcome : Type 0 where
  tool_done : RunResult → ToolOutcome
  tool_error : String → ToolOutcome

pub data PhaseStatus : Type 0 where
  phase_skipped phase_failed phase_completed : PhaseStatus

pub record PhaseResult : Type 0 where
  pub tool_name : String
  pub phase : Phase
  pub status : PhaseStatus
  pub input_count : ℕ
  pub output_count : ℕ
  pub error : String

pub data ScanPhase : Type 0 where
  initializing scan_cancelled_phase diffing done_phase : ScanPhase
  at_phase : Phase → ScanPhase

-- `progress` is a part of a whole; `finished` tells that the time of the end is set.
pub record Scan : Type 0 where
  pub status : ScanStatus
  pub phase : ScanPhase
  pub progress : ℕ × ℕ
  pub error : Option (String × String)
  pub finished : Bool

pub data Event : Type 0 where
  create_scan : Scan → Event
  -- The Boolean tells that the write failed.
  update_scan : Scan → Bool → Event
  call_tool : DetectionTool → List Bytes → RunOptions → Event
  create_tool_run : DetectionTool → ToolRunStatus → ℕ → ℕ → String → Event
  upsert_asset : Emitted → Event
  upsert_finding : ToolFinding → String → Event
  -- The writes of the diff and of the finalization, and of the target's last scan.
  write_changes : Event
  update_target_last_scan : Event

-- The writes of the scan, with the place of the tool. All but the one of a cancellation use the context of the run,
-- so they fail when it has ended.
pub data Moment : Type 0 where
  at_tool at_failure at_cancel : ℕ → Moment
  at_diff at_end : Moment

pub record World : Type 0 where
  pub scan_created : Bool
  pub target_value : Option Bytes
  pub context_done : ℕ → Bool
  pub status_before : ℕ → Option ScanStatus
  pub run : ℕ → List Bytes → RunOptions → ToolOutcome
  pub status_after : ℕ → Option ScanStatus
  pub asset_lookup : ℕ → Option (Assoc Bytes String)
  pub write_fails : Moment → Bool

-- The variables of `Run`. `dropped` is `none` for -1.
pub record Progress : Type 0 where
  pub scan : Scan
  pub inputs : List Bytes
  pub hostnames : List Bytes
  pub ip_to_hostname : Assoc Bytes Bytes
  pub dropped : Option ℕ
  pub phases : List PhaseResult
  pub events : List Event

pub data RunError : Type 0 where
  creating_scan getting_target context_ended scan_was_cancelled : RunError
  tool_broke : String → String → RunError
