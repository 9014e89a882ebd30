-- ===== src/Api/Schedules/Requests.antt =====
-- internal/api/v1/schedules.go: the bodies of requests, and the row that a request makes of the stored one.
use surfbot_agent.Base.{
  Bool, true, false, not, ◌||◌, Option, none, some, List, [], ◌∷◌, ◌++◌, String, str_eq,
  if◌then◌else◌,
}
use surfbot_agent.Base.Int.{ℤ}
use surfbot_agent.Model.{Time, ToolConfig, MaintenanceWindow}
use surfbot_agent.Storage.Schedules.{ScheduleRow, blank}

pub record CreateScheduleRequest : Type 0 where
  pub target_id : String
  pub name : String
  pub rrule : String
  pub dtstart : Time
  pub timezone : String
  pub template_id : Option String
  pub tool_config : ToolConfig
  pub overrides : List String
  pub maintenance_window : Option MaintenanceWindow
  pub enabled : Option Bool
  pub estimated_duration_seconds : ℤ

-- A nil list of overrides and an empty one differ here.
pub record UpdateScheduleRequest : Type 0 where
  pub name : Option String
  pub rrule : Option String
  pub dtstart : Option Time
  pub timezone : Option String
  pub template_id : Option String
  pub clear_template : Bool
  pub tool_config : ToolConfig
  pub overrides : Option (List String)
  pub maintenance_window : Option MaintenanceWindow
  pub clear_maintenance_window : Bool
  pub enabled : Option Bool
  pub estimated_duration_seconds : ℤ

abbrev pub required : String → String → List String
required field value = if blank value then field ∷ [] else []

unfoldable pub validate_create_schedule_request : CreateScheduleRequest → List String
validate_create_schedule_request req =
    required "target_id" req.target_id
    ++ required "rrule" req.rrule
    ++ required "timezone" req.timezone
    ++ required "name" req.name

unfoldable pub listed : List String → String → Bool
listed [] name = false
listed (o ∷ names) name = str_eq o name || listed names name

abbrev pub add_name : Bool → String → List String → List String
add_name false name names = names
add_name true name names = if listed names name then names else names ++ name ∷ []

-- The set of the given names; Go gives its elements in no particular order.
unfoldable pub name_set : List String → List String → List String
name_set [] set = set
name_set (o ∷ names) set = name_set names (add_name true o set)

unfoldable pub merge_overrides : List String → Bool → Bool → Bool → List String
merge_overrides explicit rrule timezone maintenance =
    add_name maintenance "maintenance_window"
      (add_name timezone "timezone" (add_name rrule "rrule" (name_set explicit [])))

abbrev pub is_given {ℓ} : {A : Type ℓ} → Option A → Bool
is_given none = false
is_given (some a) = true

abbrev pub value_or {ℓ} : {A : Type ℓ} → Option A → A → A
value_or none fallback = fallback
value_or (some a) fallback = a

-- A new schedule, without an id yet.
unfoldable pub new_schedule : CreateScheduleRequest → ScheduleRow
new_schedule req = record {
  core = record {
    id = "";
    target_id = req.target_id;
    rrule = req.rrule;
    dtstart = req.dtstart;
    timezone = req.timezone;
    template_id = req.template_id;
    tool_config = req.tool_config;
    overrides =
        merge_overrides req.overrides (not (str_eq req.rrule "")) (not (str_eq req.timezone ""))
          (is_given req.maintenance_window);
    maintenance_window = req.maintenance_window;
  };
  name = req.name;
  enabled = value_or req.enabled true;
  next_run_at = none;
  last_run_at = none;
  last_run_status = none;
  last_scan_id = none;
}

abbrev pub replaced {ℓ} : {A : Type ℓ} → Option A → Option A → Option A
replaced none old = old
replaced (some a) old = some a

-- The partial update.
unfoldable pub updated_schedule : UpdateScheduleRequest → ScheduleRow → ScheduleRow
updated_schedule req cur = record cur {
  name = value_or req.name cur.name;
  enabled = value_or req.enabled cur.enabled;
  core = record cur.core {
    rrule = value_or req.rrule cur.core.rrule;
    dtstart = value_or req.dtstart cur.core.dtstart;
    timezone = value_or req.timezone cur.core.timezone;
    template_id =
        if req.clear_template then none else replaced req.template_id cur.core.template_id;
    tool_config = replaced req.tool_config cur.core.tool_config;
    overrides = value_or req.overrides cur.core.overrides;
    maintenance_window =
        if req.clear_maintenance_window
        then none
        else replaced req.maintenance_window cur.core.maintenance_window;
  };
}
