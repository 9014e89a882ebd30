-- ===== src/Storage/Schedules.antt =====
-- internal/storage/schedules.go: the table of schedules, as the list of its rows in the order of their creation.
-- A statement is one step; errors of the database other than its constraints are left out, as are the columns
-- `created_at` and `updated_at`. Whether an RRULE and a tool configuration are valid, and the id that
-- `uuid.New` makes, are parameters.
pub mod Counts
pub mod Due
pub mod Rows
use text.Mathlib.Text.{is_lt}
use Prim.Native.String.{compare}
use surfbot_agent.Base.{
  ℕ, ◌+◌, ◌≤◌, Bool, true, false, not, ◌&&◌, ◌||◌, Option, none, some, List, [], ◌∷◌, ◌++◌, String,
  str_eq, leb, ◌==◌, if◌then◌else◌, keep_if, take,
}
use surfbot_agent.Base.Text.{codes, is_empty, trim_space}
use surfbot_agent.Model.{Time, Schedule, ToolConfig, ScheduleRunStatus}
use surfbot_agent.Storage.Lock.{stored}

-- `core` has the columns that the scheduler reads of a schedule.
pub record ScheduleRow : Type 0 where
  pub core : Schedule
  pub name : String
  pub enabled : Bool
  pub next_run_at : Option Time
  pub last_run_at : Option Time
  pub last_run_status : Option ScheduleRunStatus
  pub last_scan_id : Option String

pub data StoreError : Type 0 where
  row_not_found already_exists constraint_failed : StoreError
  invalid_input : StoreError

pub data Stored {ℓ} (A : Type ℓ) : Type ℓ where
  written : A → Stored A
  refused : StoreError → Stored A

-- `strings.TrimSpace(s) == ""`.
abbrev pub blank : String → Bool
blank s = is_empty (trim_space (codes s))

-- `nullableString`, and reading it back.
abbrev pub non_empty : Option String → Option String
non_empty none = none
non_empty (some s) = if str_eq s "" then none else some s

-- `timePtrUTC`, and reading it back.
abbrev pub stored_time : Option Time → Option Time
stored_time none = none
stored_time (some t) = some (stored t)

-- A nil map of tools is written as an empty one.
abbrev pub no_nil_map : ToolConfig → ToolConfig
no_nil_map none = some []
no_nil_map (some tools) = some tools

-- What is read back of a row that was written.
unfoldable pub stored_row : ScheduleRow → ScheduleRow
stored_row s = record s {
  core = record s.core {
    dtstart = stored s.core.dtstart;
    template_id = non_empty s.core.template_id;
    tool_config = no_nil_map s.core.tool_config;
  };
  next_run_at = stored_time s.next_run_at;
  last_run_at = stored_time s.last_run_at;
  last_scan_id = non_empty s.last_scan_id;
}

abbrev pub has_id : String → ScheduleRow → Bool
has_id id s = str_eq s.core.id id

unfoldable pub get : String → List ScheduleRow → Option ScheduleRow
get id [] = none
get id (s ∷ rows) = let rest = get id rows in if has_id id s then some s else rest

-- The constraint UNIQUE(target_id, name), for a row among those with another id.
unfoldable pub name_taken : ScheduleRow → List ScheduleRow → Bool
name_taken s [] = false
name_taken s (r ∷ rows) =
    (not (has_id s.core.id r) && (str_eq r.core.target_id s.core.target_id && str_eq r.name s.name))
    || name_taken s rows

unfoldable pub update_rows :
    String → (ScheduleRow → ScheduleRow) → List ScheduleRow → List ScheduleRow
update_rows id f [] = []
update_rows id f (s ∷ rows) = (if has_id id s then f s else s) ∷ update_rows id f rows

abbrev pub is_some {ℓ} : {A : Type ℓ} → Option A → Bool
is_some none = false
is_some (some a) = true

abbrev pub with_id : String → ScheduleRow → ScheduleRow
with_id new_id s =
    if str_eq s.core.id "" then record s { core = record s.core { id = new_id } } else s

-- `ORDER BY name ASC`.
abbrev pub name_before : ScheduleRow → ScheduleRow → Bool
name_before s r = is_lt (compare s.name r.name)

-- `ORDER BY next_run_at ASC`; a row without one does not get here.
abbrev pub due_time : ScheduleRow → Time
due_time s = elim s.next_run_at [ none ↦ 0 | some t ↦ t ]

abbrev pub due_before : ScheduleRow → ScheduleRow → Bool
due_before s r = not (leb (due_time r) (due_time s))

-- Insertion behind the rows that are not larger.
unfoldable pub insert_row :
    (ScheduleRow → ScheduleRow → Bool) → ScheduleRow → List ScheduleRow → List ScheduleRow
insert_row before s [] = s ∷ []
insert_row before s (r ∷ rows) = if before s r then s ∷ r ∷ rows else r ∷ insert_row before s rows

unfoldable pub sort_rows :
    (ScheduleRow → ScheduleRow → Bool) → List ScheduleRow → List ScheduleRow → List ScheduleRow
sort_rows before [] sorted = sorted
sort_rows before (s ∷ rows) sorted = sort_rows before rows (insert_row before s sorted)

unfoldable pub list_by_target : String → List ScheduleRow → List ScheduleRow
list_by_target target_id rows =
    sort_rows name_before (keep_if (λ s. str_eq s.core.target_id target_id) rows) []

abbrev pub is_of_template : String → ScheduleRow → Bool
is_of_template template_id s = elim s.core.template_id [
  | none ↦ false
  | some t ↦ str_eq t template_id
]

abbrev pub list_by_template : String → List ScheduleRow → List ScheduleRow
list_by_template template_id rows = keep_if (is_of_template template_id) rows

abbrev pub is_due : Time → ScheduleRow → Bool
is_due now s = s.enabled && elim s.next_run_at [ none ↦ false | some t ↦ leb t (stored now) ]

unfoldable pub list_due : Time → ℕ → List ScheduleRow → List ScheduleRow
list_due now limit rows =
    take (if limit == 0 then 100 else limit) (sort_rows due_before (keep_if (is_due now) rows) [])

unfoldable pub set_next_run_at : String → Option Time → List ScheduleRow → List ScheduleRow × Bool
set_next_run_at id next rows =
    (update_rows id (λ s. record s { next_run_at = stored_time next }) rows, is_some (get id rows))

unfoldable pub record_run :
    String → ScheduleRunStatus → Option String → Time → List ScheduleRow → List ScheduleRow × Bool
record_run id status scan_id at_time rows = (
  update_rows id
      (λ s. record s {
        last_run_at = some (stored at_time);
        last_run_status = some status;
        last_scan_id = non_empty scan_id;
      })
      rows,
  is_some (get id rows),
)

unfoldable pub delete : String → List ScheduleRow → List ScheduleRow × Bool
delete id rows = (keep_if (λ s. not (has_id id s)) rows, is_some (get id rows))

unfoldable pub count_by_target : String → List ScheduleRow → ℕ
count_by_target target_id [] = 0
count_by_target target_id (s ∷ rows) =
    (if str_eq s.core.target_id target_id then 1 else 0) + count_by_target target_id rows

module _ (valid_rrule : String → Bool) (valid_tools : ToolConfig → Bool) where
  unfoldable pub valid_schedule_input : ScheduleRow → Bool
  valid_schedule_input s =
      not (blank s.core.target_id)
      && not (blank s.name)
      && not (blank s.core.timezone)
      && valid_rrule s.core.rrule
      && valid_tools s.core.tool_config

  unfoldable pub create :
      String → ScheduleRow → List ScheduleRow → List ScheduleRow × Stored ScheduleRow
  create new_id s rows =
      let s' = with_id new_id s in
      if not (valid_schedule_input s)
      then (rows, refused invalid_input)
      else if is_some (get s'.core.id rows) || name_taken s' rows
      then (rows, refused already_exists)
      else (
        rows ++ stored_row s' ∷ [],
        written
            (record s' { core = record s'.core { tool_config = no_nil_map s'.core.tool_config } }),
      )

  unfoldable pub update : ScheduleRow → List ScheduleRow → List ScheduleRow × Stored ScheduleRow
  update s rows =
      if not (valid_schedule_input s)
      then (rows, refused invalid_input)
      else if not (is_some (get s.core.id rows))
      then (rows, refused row_not_found)
      else if name_taken s rows
      then (rows, refused constraint_failed)
      else (
        update_rows s.core.id (λ _. stored_row s) rows,
        written (record s { core = record s.core { tool_config = no_nil_map s.core.tool_config } }),
      )
