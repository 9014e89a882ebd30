-- ===== src/Api/Schedules/Handlers.antt =====
-- internal/api/v1/schedules.go: the handlers. Each gives the new state of the stores and the response; the body
-- of a request is `none` when it cannot be decoded.
use surfbot_agent.Base.{
  ℕ, Bool, true, false, not, ◌&&◌, Option, none, some, List, [], ◌∷◌, String, str_eq, if◌then◌else◌,
  keep_if, length,
}
use surfbot_agent.Base.Text.{Bytes, codes, bytes_eq, is_empty}
use surfbot_agent.Model.{Time, Schedule, Template, ToolConfig, Result}
use surfbot_agent.Sched.Rules.{RuleLib}
use surfbot_agent.Storage.Schedules.{
  ScheduleRow, StoreError, row_not_found, already_exists, constraint_failed, invalid_input, Stored,
  written, refused, get, list_by_target, list_by_template, delete, create, update,
}
use surfbot_agent.Api.Paging.{Pagination, parse_pagination, max_limit, page}
use surfbot_agent.Api.Schedules.Requests.{
  CreateScheduleRequest, UpdateScheduleRequest, validate_create_schedule_request, listed,
  new_schedule, updated_schedule,
}
use surfbot_agent.Api.Schedules.{
  Db, Response, schedule_body, page_body, no_content, problem, panicked, not_found, invalid_json,
  validation, Found, no_template, missing, found, load_template, overlap_check, overlap_problem,
  refresh_next_run, cascade_for_template,
}

abbrev pub with_rows : Db → List ScheduleRow → Db
with_rows db rows = record db { schedules = rows }

-- The query of the list handler; a parameter that is not given is empty.
pub record ListQuery : Type 0 where
  pub template_id : String
  pub target_id : String
  pub status : Bytes
  pub limit : Bytes
  pub offset : Bytes

abbrev pub candidates : ListQuery → List ScheduleRow → List ScheduleRow
candidates q rows =
    if not (str_eq q.template_id "")
    then list_by_template q.template_id rows
    else if not (str_eq q.target_id "")
    then list_by_target q.target_id rows
    else rows

abbrev pub paged : List ScheduleRow → Pagination → Response
paged rows p = elim (page rows p) [ none ↦ panicked | some items ↦ page_body items (length rows) p ]

abbrev pub same_bool : Bool → Bool → Bool
same_bool true b = b
same_bool false b = not b

unfoldable pub list_schedules : ListQuery → Db → Response
list_schedules q db =
    let rows = candidates q db.schedules in
    let p = parse_pagination q.limit q.offset max_limit in
    let active = bytes_eq q.status (codes "active") in
    if is_empty q.status
    then paged rows p
    else if not active && not (bytes_eq q.status (codes "paused"))
    then problem 400 "/problems/invalid-query" []
    else paged (keep_if (λ s. same_bool s.enabled active) rows) p

abbrev pub answer_row : Option ScheduleRow → Response
answer_row none = not_found
answer_row (some s) = schedule_body 200 s

unfoldable pub get_schedule : String → Db → Response
get_schedule id db = answer_row (get id db.schedules)

-- A guard that answers at once.
abbrev pub unless : Option Response → Db → Db × Response → Db × Response
unless none db go = go
unless (some r) db go = (db, r)

abbrev pub first_of : List (Option Response) → Option Response
first_of [] = none
first_of (none ∷ guards) = first_of guards
first_of (some r ∷ guards) = some r

abbrev pub missing_fields : List String → Option Response
missing_fields [] = none
missing_fields (f ∷ fields) = some (validation 400 (f ∷ fields))

abbrev pub problem_if : Bool → Response → Option Response
problem_if true r = some r
problem_if false r = none

abbrev pub missing_template : Found → Option Response
missing_template no_template = none
missing_template (found t) = none
missing_template missing = some (validation 422 ("template_id" ∷ []))

abbrev pub template : Found → Option Template
template no_template = none
template (found t) = some t
template missing = none

abbrev pub create_problem : StoreError → Response
create_problem already_exists = problem 409 "/problems/already-exists" []
create_problem row_not_found = validation 422 []
create_problem constraint_failed = validation 422 []
create_problem invalid_input = validation 422 []

module _ (R : RuleLib) (now : Time) (next : Schedule → Option Template → Result (Option Time))
    (valid_rrule : String → Bool) (valid_tools : ToolConfig → Bool) where
  -- What follows a successful write of the store: the fire times, and the answer.
  abbrev pub saved : ℕ → Db → List ScheduleRow → ScheduleRow → Option Template → Db × Response
  saved status db rows s tmpl =
      let (rows', s') = refresh_next_run next s tmpl rows in
      (
        with_rows db (cascade_for_template next db s.core.template_id rows'),
        schedule_body status s',
      )

  abbrev pub after_create :
      Db → List ScheduleRow × Stored ScheduleRow → Option Template → Db × Response
  after_create db (rows, refused e) tmpl = (db, create_problem e)
  after_create db (rows, written s) tmpl = saved 201 db rows s tmpl

  abbrev pub after_update :
      Db → List ScheduleRow × Stored ScheduleRow → Option Template → Db × Response
  after_update db (rows, refused e) tmpl = (db, validation 422 [])
  after_update db (rows, written s) tmpl = saved 200 db rows s tmpl

  -- The checks before the write, in their order.
  unfoldable pub create_refusal : CreateScheduleRequest → Db → Option Response
  create_refusal req db =
      let tmpl = load_template db req.template_id in
      first_of (
        missing_fields (validate_create_schedule_request req)
        ∷ problem_if (not (valid_rrule req.rrule)) (validation 422 ("rrule" ∷ []))
        ∷ problem_if (not (listed db.targets req.target_id)) (validation 422 ("target_id" ∷ []))
        ∷ missing_template tmpl
        ∷ overlap_problem (
            overlap_check R now db (new_schedule req).core (template tmpl)
              req.estimated_duration_seconds)
        ∷ [])

  unfoldable pub create_checked : String → CreateScheduleRequest → Db → Db × Response
  create_checked new_id req db =
      let sched = new_schedule req in
      let tmpl = load_template db req.template_id in
      unless (create_refusal req db) db
        (after_create db (create valid_rrule valid_tools new_id sched db.schedules) (template tmpl))

  unfoldable pub create_schedule : String → Option CreateScheduleRequest → Db → Db × Response
  create_schedule new_id none db = (db, invalid_json)
  create_schedule new_id (some req) db = create_checked new_id req db

  unfoldable pub update_refusal : UpdateScheduleRequest → ScheduleRow → Db → Option Response
  update_refusal req cur db =
      let tmpl = load_template db cur.core.template_id in
      first_of (
        problem_if (not (valid_rrule cur.core.rrule)) (validation 422 ("rrule" ∷ []))
        ∷ missing_template tmpl
        ∷ overlap_problem
            (overlap_check R now db cur.core (template tmpl) req.estimated_duration_seconds)
        ∷ [])

  unfoldable pub update_row : UpdateScheduleRequest → Option ScheduleRow → Db → Db × Response
  update_row req none db = (db, not_found)
  update_row req (some stored) db =
      let cur = updated_schedule req stored in
      let tmpl = load_template db cur.core.template_id in
      unless (update_refusal req cur db) db
        (after_update db (update valid_rrule valid_tools cur db.schedules) (template tmpl))

  unfoldable pub update_schedule : String → Option UpdateScheduleRequest → Db → Db × Response
  update_schedule id none db = (db, invalid_json)
  update_schedule id (some req) db = update_row req (get id db.schedules) db

  abbrev pub delete_row : String → Option ScheduleRow → Db → Db × Response
  delete_row id none db = (db, not_found)
  delete_row id (some cur) db = (
    with_rows db (cascade_for_template next db cur.core.template_id (delete id db.schedules).0),
    no_content,
  )

  unfoldable pub delete_schedule : String → Db → Db × Response
  delete_schedule id db = delete_row id (get id db.schedules) db

  abbrev pub after_enable : Db → List ScheduleRow × Stored ScheduleRow → Db × Response
  after_enable db (rows, refused e) = (db, problem 500 "/problems/store" [])
  after_enable db (rows, written s) = (with_rows db rows, schedule_body 200 s)

  abbrev pub enable_row : Bool → Option ScheduleRow → Db → Db × Response
  enable_row enabled none db = (db, not_found)
  enable_row enabled (some cur) db =
      if same_bool cur.enabled enabled
      then (db, schedule_body 200 cur)
      else after_enable db
          (update valid_rrule valid_tools (record cur { enabled = enabled }) db.schedules)

  -- Pause and resume.
  unfoldable pub set_schedule_enabled : String → Bool → Db → Db × Response
  set_schedule_enabled id enabled db = enable_row enabled (get id db.schedules) db
