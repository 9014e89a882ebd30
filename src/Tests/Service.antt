-- ===== src/Tests/Service.antt =====
-- The theorems on the HTTP interface at concrete inputs.
use Prim.Native.Nat.{◌^◌}
use surfbot_agent.Base.{
  ℕ, ◌+◌, ◌-◌, ◌*◌, ◌≤◌, ◌≡◌, ◌↔◌, ◌⊎◌, refl, Bool, true, false, Option, none, some, List, [], ◌∷◌,
  String, arith, All, In, ltb, take, drop, if◌then◌else◌,
}
use surfbot_agent.Base.Int.{pos}
use surfbot_agent.Base.Text.{codes, Bytes}
use surfbot_agent.Model.{Time, second, Schedule, Template, ToolConfig, Result, ok}
use surfbot_agent.Storage.Schedules.{
  ScheduleRow, has_id, list_due, get, valid_schedule_input, name_taken,
}
use surfbot_agent.Api.Paging.{Pagination, page, page_lem}
use surfbot_agent.Api.Schedules.{Db, Response, schedule_body, load_template, overlap_check}
use surfbot_agent.Api.Schedules.Requests.{
  CreateScheduleRequest, UpdateScheduleRequest, validate_create_schedule_request, listed,
  new_schedule,
}
use surfbot_agent.Api.Schedules.Given.{NonBlank}
use surfbot_agent.Api.Schedules.Handlers.{
  create_schedule, update_schedule, delete_schedule, set_schedule_enabled, template,
}
use surfbot_agent.Api.Schedules.Responses.{Sound, handlers-Sound, create_schedule-checked}
use surfbot_agent.Api.Schedules.Resume.{resume-not_due}
use surfbot_agent.Webui.Security.{Request, reached, server_handler}
use surfbot_agent.Webui.Security.Gate.{Permitted, server_handler-Permitted}
use surfbot_agent.Tests.Samples.{nightly, rules, defaults}

abbrev numbers : List ℕ
numbers = 10 ∷ 20 ∷ 30 ∷ []

abbrev far : Pagination
far = record { limit = 50; offset = 2 ^ 63 - 1 }

page_lem_example : page numbers far ≡ (
    if ltb (far.offset + far.limit) (2 ^ 63)
    then some (take far.limit (drop far.offset numbers))
    else none)
page_lem_example = page_lem numbers far

-- The greatest offset makes the handler panic.
page-far : page numbers far ≡ none
unfolding page surfbot_agent.Api.Paging.slice
page-far = refl

abbrev next : Schedule → Option Template → Result (Option Time)
next s tmpl = ok (some (40 * second))

abbrev any_rrule : String → Bool
any_rrule s = true

abbrev any_tools : ToolConfig → Bool
any_tools t = true

abbrev created_paused : ScheduleRow
created_paused = record {
  core = nightly;
  name = "weekly";
  enabled = false;
  next_run_at = none;
  last_run_at = none;
  last_run_status = none;
  last_scan_id = none;
}

abbrev db : Db
db = record {
  schedules = created_paused ∷ [];
  targets = "t1" ∷ "t2" ∷ [];
  templates = [];
  defaults = some defaults;
}

abbrev wanted : CreateScheduleRequest
wanted = record {
  target_id = "t2";
  name = "daily";
  rrule = "SCAN";
  dtstart = second;
  timezone = "UTC";
  template_id = none;
  tool_config = none;
  overrides = [];
  maintenance_window = none;
  enabled = none;
  estimated_duration_seconds = pos 2;
}

abbrev renamed : UpdateScheduleRequest
renamed = record {
  name = some "monthly";
  rrule = none;
  dtstart = none;
  timezone = none;
  template_id = none;
  clear_template = false;
  tool_config = none;
  overrides = none;
  maintenance_window = none;
  clear_maintenance_window = false;
  enabled = none;
  estimated_duration_seconds = pos 0;
}

handlers-Sound_example :
    Sound db (create_schedule rules second next any_rrule any_tools "s9" (some wanted) db)
    × Sound db (update_schedule rules second next any_rrule any_tools "s9" (some renamed) db)
    × Sound db (delete_schedule rules second next any_rrule any_tools "s9" db)
    × Sound db (set_schedule_enabled rules second next any_rrule any_tools "s9" true db)
handlers-Sound_example =
    handlers-Sound rules second next any_rrule any_tools "s9" (some wanted) (some renamed) true db
      (tt, tt)

abbrev made : ScheduleRow
made = record {
  core = record nightly {
    id = "s9";
    target_id = "t2";
    dtstart = second;
    tool_config = some [];
    overrides = "rrule" ∷ "timezone" ∷ [];
  };
  name = "daily";
  enabled = true;
  next_run_at = some (40 * second);
  last_run_at = none;
  last_run_status = none;
  last_scan_id = none;
}

create_run :
    (create_schedule rules second next any_rrule any_tools "s9" (some wanted) db).1
    ≡ schedule_body 201 made
unfolding create_schedule surfbot_agent.Api.Schedules.Handlers.create_checked
    surfbot_agent.Api.Schedules.Handlers.create_refusal validate_create_schedule_request listed
    new_schedule surfbot_agent.Api.Schedules.Requests.merge_overrides
    surfbot_agent.Api.Schedules.Requests.name_set load_template
    surfbot_agent.Api.Schedules.overlap_problem overlap_check
    surfbot_agent.Api.Schedules.templates_of surfbot_agent.Storage.Schedules.list_by_target
    surfbot_agent.Storage.Schedules.sort_rows surfbot_agent.Sched.Overlap.validate_no_overlap_at
    surfbot_agent.Sched.Overlap.check_all surfbot_agent.Sched.Overlap.expand_schedule
    surfbot_agent.Sched.Expander.rule_of surfbot_agent.Model.Cascade.resolve_effective_config
    surfbot_agent.Model.Cascade.pick_string surfbot_agent.Model.Cascade.override_set
    surfbot_agent.Model.Cascade.mark_all surfbot_agent.Model.Cascade.resolve_tool_config
    surfbot_agent.Model.Cascade.resolve_maintenance_window surfbot_agent.Base.Assoc.lookup
    surfbot_agent.Base.Text.trim_space surfbot_agent.Storage.Schedules.create valid_schedule_input
    get name_taken surfbot_agent.Storage.Schedules.stored_row surfbot_agent.Storage.Lock.stored
    surfbot_agent.Api.Schedules.refresh_next_run surfbot_agent.Storage.Schedules.set_next_run_at
    surfbot_agent.Storage.Schedules.update_rows surfbot_agent.Api.Schedules.cascade_for_template
    surfbot_agent.Base.Assoc.insert surfbot_agent.Model.Cascade.merge_layers
create_run = refl

create_schedule-checked_example :
    (NonBlank wanted.target_id
      × NonBlank wanted.rrule
      × NonBlank wanted.timezone
      × NonBlank wanted.name)
    × (any_rrule wanted.rrule ≡ true)
    × In wanted.target_id db.targets
    × (overlap_check rules second db
          (new_schedule wanted).core
          (template (load_template db wanted.template_id))
          wanted.estimated_duration_seconds
        ≡ ok [])
create_schedule-checked_example =
    create_schedule-checked rules second next any_rrule any_tools "s9" wanted db 201 made create_run

stored_there : get "s1" db.schedules ≡ some created_paused
unfolding get
stored_there = refl

valid_there : valid_schedule_input any_rrule any_tools created_paused ≡ true
unfolding valid_schedule_input surfbot_agent.Base.Text.trim_space
valid_there = refl

no_namesake : name_taken created_paused db.schedules ≡ false
unfolding name_taken
no_namesake = refl

resume-not_due_example :
    (r : ScheduleRow) × ((set_schedule_enabled rules second next any_rrule any_tools "s1" true db).1
      ≡ schedule_body 200 r)
    × (r.enabled ≡ true)
    × All
        (λ u. has_id "s1" u ≡ false)
        (list_due
          (90 * second)
          10
          (set_schedule_enabled rules second next any_rrule any_tools "s1" true db).0.schedules)
resume-not_due_example =
    resume-not_due rules second next any_rrule any_tools "s1" db created_paused (90 * second) 10
      stored_there refl refl refl valid_there no_namesake

abbrev post : Request
post = record {
  method = codes "POST";
  host = codes "localhost:8470";
  path = codes "/api/v1/schedules";
  origin = [];
  referer = codes "http://localhost:8470/index.html";
  authorization = codes "Bearer abc";
}

server_handler-Permitted_example :
    ((server_handler (codes "abc") 8470 post).outcome ≡ reached) ↔ Permitted (codes "abc") 8470 post
server_handler-Permitted_example = server_handler-Permitted (codes "abc") 8470 post

-- A page of another site does not get through.
foreign_post :
    (server_handler
      (codes "abc")
      8470
      (record post { origin = codes "http://localhost:84701" })).outcome
    ≡ surfbot_agent.Webui.Security.rejected 403
unfolding server_handler surfbot_agent.Webui.Security.security_headers
    surfbot_agent.Base.Text.has_prefix surfbot_agent.Webui.Security.validate_host
    surfbot_agent.Webui.Security.allowed_hosts surfbot_agent.Base.Text.bytes_eq
    surfbot_agent.Webui.Security.validate_origin surfbot_agent.Webui.Security.allowed_origins
foreign_post = refl
