-- ===== src/Model.antt =====
-- internal/model: the data that the scheduler's parts exchange, and failures as values.
-- A `time.Time` is its instant: nanoseconds since Go's zero time, so `IsZero` is a test with 0, and
-- `In` and `UTC` change nothing. A pointer is an `Option`. Names, descriptions and row timestamps,
-- which no modelled code reads, are left out.
pub mod Cascade
use surfbot_agent.Base.{ℕ, ◌*◌, ◌==◌, Bool, Option, List, String, ◌≡◌, refl, arith}
use surfbot_agent.Base.Assoc.{Assoc}
use surfbot_agent.Base.Int.{ℤ}

abbrev pub Time : Type 0
Time = ℕ

abbrev pub is_zero : Time → Bool
is_zero t = t == 0

abbrev pub second : ℕ
second = 1_000_000_000

-- What decoding a `json.RawMessage` into a `map[string]json.RawMessage` finds: an error, the nil map
-- (for `null`), or the object's entries, whose values stay raw text.
pub data Raw : Type 0 where
  not_object : String → Raw
  null : Raw
  object : Assoc String String → Raw

-- A map from tool names to parameters; `none` is the nil map.
abbrev pub ToolConfig : Type 0
ToolConfig = Option (Assoc String Raw)

pub record MaintenanceWindow : Type 0 where
  pub rrule : String
  pub duration_sec : ℤ
  pub timezone : String

pub data ScheduleRunStatus : Type 0 where
  success failed paused_blackout skipped_overlap skipped_blackout : ScheduleRunStatus

pub record Schedule : Type 0 where
  pub id : String
  pub target_id : String
  pub rrule : String
  pub dtstart : Time
  pub timezone : String
  pub template_id : Option String
  pub tool_config : ToolConfig
  pub overrides : List String
  pub maintenance_window : Option MaintenanceWindow

pub record Template : Type 0 where
  pub id : String
  pub rrule : String
  pub timezone : String
  pub tool_config : ToolConfig
  pub maintenance_window : Option MaintenanceWindow

pub data BlackoutScope : Type 0 where
  global target : BlackoutScope
  other_scope : String → BlackoutScope

pub record BlackoutWindow : Type 0 where
  pub id : String
  pub scope : BlackoutScope
  pub target_id : Option String
  pub rrule : String
  pub duration_sec : ℤ
  pub timezone : String
  pub enabled : Bool
  pub created_at : Time

pub record ScheduleDefaults : Type 0 where
  pub default_rrule : String
  pub default_timezone : String
  pub default_tool_config : ToolConfig
  pub default_maintenance_window : Option MaintenanceWindow
  pub max_concurrent_scans : ℤ
  pub jitter_seconds : ℤ

pub data AdHocRunStatus : Type 0 where
  pending running completed ad_hoc_failed canceled : AdHocRunStatus

pub record AdHocScanRun : Type 0 where
  pub id : String
  pub target_id : String
  pub template_id : Option String
  pub tool_config : ToolConfig

-- The errors of the modelled code; `nil_map_write` is Go's run-time panic.
pub data Failure : Type 0 where
  unresolved_rrule unresolved_timezone nil_map_write : Failure
  bad_timezone bad_rrule rule_not_built blackout_saturated : Failure

pub data Result {ℓ} (A : Type ℓ) : Type ℓ where
  ok : A → Result A
  err : Failure → Result A

infixl 5 ◌>>=◌
-- A Go call followed by `if err != nil { return err }`.
abbrev pub ◌>>=◌ {ℓ κ} : {X : Type ℓ} {Y : Type κ} → Result X → (X → Result Y) → Result Y
err failure >>= next = err failure
ok value >>= next = next value
