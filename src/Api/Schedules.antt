-- ===== src/Api/Schedules.antt =====
-- internal/api/v1/schedules.go: the handlers of /api/v1/schedules, on the rows of the stores. Parameters are the
-- validation of RRULEs and of tool configurations, the RRULE library with the present time for the overlap check,
-- and `next`, the expander's `ComputeNextRunAt`. All stores are there, and the errors of the database besides its
-- constraints are left out, as are the texts of the problems.
pub mod Requests
pub mod Given
pub mod Handlers
pub mod Responses
pub mod Resume
use Prim.Native.Nat.{◌^◌, ◌%◌}
use surfbot_agent.Base.{
  ℕ, ltb, ◌+◌, ◌*◌, Bool, true, false, not, ◌&&◌, ◌||◌, Option, none, some, List, [], ◌∷◌, ◌++◌,
  String, str_eq, string_eq, if◌then◌else◌, map, keep_if, length,
}
use surfbot_agent.Base.Int.{ℤ, pos, ltb_ℤ, pos_part}
use surfbot_agent.Base.Assoc.{Assoc, lookup, insert}
use surfbot_agent.Model.{
  Time, second, Schedule, Template, ScheduleDefaults, ToolConfig, MaintenanceWindow, Result, ok,
  err,
}
use surfbot_agent.Sched.Rules.{RuleLib}
use surfbot_agent.Sched.Overlap.{OverlapConflict, validate_no_overlap_at}
use surfbot_agent.Sched.Recompute.{Write, recompute_next_run_for_template}
use surfbot_agent.Storage.Schedules.{
  ScheduleRow, StoreError, already_exists, Stored, written, refused, blank, get, list_by_target,
  list_by_template, set_next_run_at, delete, create, update,
}
use surfbot_agent.Api.Paging.{Pagination, page}

pub record Db : Type 0 where
  pub schedules : List ScheduleRow
  pub targets : List String
  pub templates : Assoc String Template
  pub defaults : Option ScheduleDefaults

-- A response: a body with its status, or a problem with its status, its type and the fields it names.
pub data Response : Type 0 where
  schedule_body : ℕ → ScheduleRow → Response
  page_body : List ScheduleRow → ℕ → Pagination → Response
  no_content : Response
  problem : ℕ → String → List String → Response
  panicked : Response

abbrev pub not_found : Response
not_found = problem 404 "/problems/not-found" []

abbrev pub invalid_json : Response
invalid_json = problem 400 "/problems/invalid-json" []

abbrev pub validation : ℕ → List String → Response
validation status fields = problem status "/problems/validation" fields

-- The empty template of an unset pointer or an empty id.
abbrev pub given : Option String → Option String
given none = none
given (some id) = if str_eq id "" then none else some id

-- The template that a schedule names; `refused` when it names one that is not there.
pub data Found : Type 0 where
  no_template missing : Found
  found : Template → Found

abbrev pub looked_up : Option Template → Found
looked_up none = missing
looked_up (some t) = found t

unfoldable pub load_template : Db → Option String → Found
load_template db id = elim (given id) [
  | none ↦ no_template
  | some t ↦ looked_up (lookup t db.templates)
]

abbrev pub default_estimated_duration_seconds : ℕ
default_estimated_duration_seconds = 3600

-- Seven days.
abbrev pub overlap_horizon : ℕ
overlap_horizon = 7 * 24 * 3600 * second

-- `tmpls`: the templates of the other schedules that are there, each once.
unfoldable pub templates_of : Db → List ScheduleRow → Assoc String Template → Assoc String Template
templates_of db [] tmpls = tmpls
templates_of db (s ∷ rows) tmpls = templates_of db rows (elim (given s.core.template_id) [
  | none ↦ tmpls
  | some id ↦ elim (lookup id tmpls) [
    | some t ↦ tmpls
    | none ↦ elim (lookup id db.templates) [ none ↦ tmpls | some t ↦ insert id t tmpls ]
  ]
])

abbrev pub no_defaults : ScheduleDefaults
no_defaults = record {
  default_rrule = "";
  default_timezone = "";
  default_tool_config = none;
  default_maintenance_window = none;
  max_concurrent_scans = pos 0;
  jitter_seconds = pos 0;
}

-- A `time.Duration` of so many seconds, in 64 bits. No distance is less than a negative one, nor than 0.
abbrev pub seconds_long : ℕ → ℕ
seconds_long n = let m = n * second % 2 ^ 64 in if ltb m (2 ^ 63) then m else 0

abbrev pub estimated : ℤ → ℕ
estimated seconds =
    if ltb_ℤ (pos 0) seconds
    then seconds_long (pos_part seconds)
    else default_estimated_duration_seconds * second

abbrev pub defaults_of : Option ScheduleDefaults → ScheduleDefaults
defaults_of none = no_defaults
defaults_of (some d) = d

-- The answer of the check when it stops the handler: an error, or a conflict.
unfoldable pub overlap_problem : Result (List OverlapConflict) → Option Response
overlap_problem (err e) = some (problem 500 "/problems/store" [])
overlap_problem (ok []) = none
overlap_problem (ok (c ∷ cs)) = some (problem 422 "/problems/overlap" (map (λ _. "rrule") (c ∷ cs)))

module _ (R : RuleLib) (now : Time) where
  unfoldable pub overlap_check : Db → Schedule → Option Template → ℤ → Result (List OverlapConflict)
  overlap_check db candidate tmpl seconds =
      let existing = list_by_target candidate.target_id db.schedules in
      validate_no_overlap_at R candidate tmpl (map (λ s. s.core) existing)
        (templates_of db existing []) (defaults_of db.defaults) now overlap_horizon
        (estimated seconds)

abbrev pub refreshed :
    ScheduleRow → List ScheduleRow → Result (Option Time) → List ScheduleRow × ScheduleRow
refreshed s rows (err e) = (rows, s)
refreshed s rows (ok t) = ((set_next_run_at s.core.id t rows).0, record s { next_run_at = t })

module _ (next : Schedule → Option Template → Result (Option Time)) where
  -- `refreshNextRun`: the rows, and the schedule for the answer.
  unfoldable pub refresh_next_run :
      ScheduleRow → Option Template → List ScheduleRow → List ScheduleRow × ScheduleRow
  refresh_next_run s tmpl rows =
      if not s.enabled then (rows, s) else refreshed s rows (next s.core tmpl)

  unfoldable pub apply_writes : List Write → List ScheduleRow → List ScheduleRow
  apply_writes [] rows = rows
  apply_writes (w ∷ ws) rows = apply_writes ws (set_next_run_at w.schedule_id w.next_run_at rows).0

  abbrev pub writes_of : Option (ℕ × List Write) → List Write
  writes_of none = []
  writes_of (some (n, ws)) = ws

  -- Every listed schedule is there, so its write succeeds.
  abbrev pub cascaded : Db → Option String → List ScheduleRow → List ScheduleRow
  cascaded db none rows = rows
  cascaded db (some id) rows =
      apply_writes
        (writes_of (
          recompute_next_run_for_template next (λ _ _. true) (lookup id db.templates)
            (some (map (λ s. s.core) (list_by_template id rows)))))
        rows

  unfoldable pub cascade_for_template : Db → Option String → List ScheduleRow → List ScheduleRow
  cascade_for_template db template_id rows = cascaded db (given template_id) rows
