-- ===== src/Api/Schedules/Responses.antt =====
-- internal/api/v1/schedules.go: what the handlers leave in the store, and when they answer with success.
use surfbot_agent.Base.{
  ℕ, ◌≡◌, refl, sym, ◌∙◌, ap, ◌⊎◌, inl, inr, Bool, true, false, not, Option, none, some, List, [],
  ◌∷◌, String, Bool-cases, string_eq, All, In,
}
use surfbot_agent.Model.{Time, Schedule, Template, ToolConfig, Result, ok, err}
use surfbot_agent.Sched.Rules.{RuleLib}
use surfbot_agent.Sched.Overlap.{OverlapConflict}
use surfbot_agent.Sched.Recompute.{Write}
use surfbot_agent.Storage.Schedules.{
  ScheduleRow, Stored, written, refused, get, delete, create, update, set_next_run_at,
}
use surfbot_agent.Storage.Schedules.Rows.{Keyed, writes-Keyed, set_next_run_at-Keyed}
use surfbot_agent.Api.Schedules.{
  Db, Response, schedule_body, problem, not_found, invalid_json, validation, given, Found,
  no_template, missing, found, load_template, overlap_check, overlap_problem, refresh_next_run,
  apply_writes, cascade_for_template, cascaded, refreshed,
}
use surfbot_agent.Api.Schedules.Requests.{
  CreateScheduleRequest, UpdateScheduleRequest, validate_create_schedule_request, listed,
  new_schedule, updated_schedule,
}
use surfbot_agent.Api.Schedules.Given.{NonBlank, validate_create_schedule_request-given, listed-In}
use surfbot_agent.Api.Schedules.Handlers.{
  unless, missing_fields, problem_if, missing_template, template, create_problem, saved,
  after_create, after_update, create_checked, create_refusal, update_refusal, first_of,
  create_schedule, update_row, update_schedule, delete_row, delete_schedule, after_enable,
  enable_row, set_schedule_enabled, same_bool,
}

abbrev pub is_problem : Response → Bool
is_problem (problem status type fields) = true
is_problem _ = false

-- What holds of every handler: the keys stay distinct, and a problem leaves the stores as they were.
abbrev pub Sound : Db → Db × Response → Type 0
Sound db out = Keyed out.0.schedules × ((out.0 ≡ db) ⊎ (is_problem out.1 ≡ false))

unchanged : (db : Db) (r : Response) → Keyed db.schedules → Sound db (db, r)
unchanged db r k = (k, inl refl)

unless-Sound :
    (o : Option Response) (db : Db) (go : Db × Response)
    → Keyed db.schedules
    → Sound db go
    → Sound db (unless o db go)
unless-Sound none db go k s = s
unless-Sound (some r) db go k s = unchanged db r k

module _ (next : Schedule → Option Template → Result (Option Time)) where
  refresh_next_run-Keyed :
      (s : ScheduleRow) (tmpl : Option Template) (rows : List ScheduleRow)
      → Keyed rows
      → Keyed (refresh_next_run next s tmpl rows).0
  unfolding refresh_next_run
  refresh_next_run-Keyed s tmpl rows k = elim (Bool-cases (not s.enabled)) [
    | inl off ↦ rw off k
    | inr on ↦ rw on (stored (next s.core tmpl))
  ]
    where
      stored : (r : Result (Option Time)) → Keyed (refreshed s rows r).0
      stored (err e) = k
      stored (ok t) = set_next_run_at-Keyed s.core.id t rows k

  apply_writes-Keyed :
      (ws : List Write) (rows : List ScheduleRow) → Keyed rows → Keyed (apply_writes next ws rows)
  unfolding apply_writes
  apply_writes-Keyed [] rows k = k
  apply_writes-Keyed (w ∷ ws) rows k =
      apply_writes-Keyed ws (set_next_run_at w.schedule_id w.next_run_at rows).0
        (set_next_run_at-Keyed w.schedule_id w.next_run_at rows k)

  cascade_for_template-Keyed :
      (db : Db) (id : Option String) (rows : List ScheduleRow)
      → Keyed rows
      → Keyed (cascade_for_template next db id rows)
  unfolding cascade_for_template
  cascade_for_template-Keyed db id rows k = by_template (given id)
    where
      by_template : (g : Option String) → Keyed (cascaded next db g rows)
      by_template none = k
      by_template (some t) = apply_writes-Keyed _ rows k

module _ (R : RuleLib) (now : Time) (next : Schedule → Option Template → Result (Option Time))
    (valid_rrule : String → Bool) (valid_tools : ToolConfig → Bool) where
  saved-Sound :
      (status : ℕ) (db : Db) (rows : List ScheduleRow) (s : ScheduleRow) (tmpl : Option Template)
      → Keyed rows
      → Sound db (saved R now next valid_rrule valid_tools status db rows s tmpl)
  saved-Sound status db rows s tmpl k = (
    cascade_for_template-Keyed next db s.core.template_id (refresh_next_run next s tmpl rows).0
        (refresh_next_run-Keyed next s tmpl rows k),
    inr refl,
  )

  after_create-Sound :
      (db : Db) (out : List ScheduleRow × Stored ScheduleRow) (tmpl : Option Template)
      → Keyed db.schedules
      → Keyed out.0
      → Sound db (after_create R now next valid_rrule valid_tools db out tmpl)
  after_create-Sound db (rows, refused e) tmpl k k' = unchanged db (create_problem e) k
  after_create-Sound db (rows, written s) tmpl k k' = saved-Sound 201 db rows s tmpl k'

  after_update-Sound :
      (db : Db) (out : List ScheduleRow × Stored ScheduleRow) (tmpl : Option Template)
      → Keyed db.schedules
      → Keyed out.0
      → Sound db (after_update R now next valid_rrule valid_tools db out tmpl)
  after_update-Sound db (rows, refused e) tmpl k k' = unchanged db (validation 422 []) k
  after_update-Sound db (rows, written s) tmpl k k' = saved-Sound 200 db rows s tmpl k'

  after_enable-Sound :
      (db : Db) (out : List ScheduleRow × Stored ScheduleRow)
      → Keyed db.schedules
      → Keyed out.0
      → Sound db (after_enable R now next valid_rrule valid_tools db out)
  after_enable-Sound db (rows, refused e) k k' = unchanged db (problem 500 "/problems/store" []) k
  after_enable-Sound db (rows, written s) k k' = (k', inr refl)

  create_schedule-Sound :
      (new_id : String) (req : Option CreateScheduleRequest) (db : Db)
      → Keyed db.schedules
      → Sound db (create_schedule R now next valid_rrule valid_tools new_id req db)
  unfolding create_schedule create_checked
  create_schedule-Sound new_id none db k = unchanged db invalid_json k
  create_schedule-Sound new_id (some req) db k =
      let (kept, _, _) =
        writes-Keyed valid_rrule valid_tools new_id "" (new_schedule req) db.schedules k in
      unless-Sound (create_refusal R now next valid_rrule valid_tools req db) db _ k (
        after_create-Sound db
          (create valid_rrule valid_tools new_id (new_schedule req) db.schedules)
          (template (load_template db req.template_id)) k kept)

  update_schedule-Sound :
      (id : String) (req : Option UpdateScheduleRequest) (db : Db)
      → Keyed db.schedules
      → Sound db (update_schedule R now next valid_rrule valid_tools id req db)
  unfolding update_schedule
  update_schedule-Sound id none db k = unchanged db invalid_json k
  update_schedule-Sound id (some req) db k = row (get id db.schedules)
    where
      row :
          (o : Option ScheduleRow)
          → Sound db (update_row R now next valid_rrule valid_tools req o db)
      row none = unfold update_row in unchanged db not_found k
      row (some s) =
          unfold update_row in
          let cur = updated_schedule req s in
          let (_, kept, _) = writes-Keyed valid_rrule valid_tools "" "" cur db.schedules k in
          unless-Sound (update_refusal R now next valid_rrule valid_tools req cur db) db _ k (
            after_update-Sound db (update valid_rrule valid_tools cur db.schedules)
              (template (load_template db cur.core.template_id)) k kept)

  delete_schedule-Sound :
      (id : String) (db : Db)
      → Keyed db.schedules
      → Sound db (delete_schedule R now next valid_rrule valid_tools id db)
  unfolding delete_schedule
  delete_schedule-Sound id db k = row (get id db.schedules)
    where
      row :
          (o : Option ScheduleRow)
          → Sound db (delete_row R now next valid_rrule valid_tools id o db)
      row none = unchanged db not_found k
      row (some s) =
          let (_, _, kept) = writes-Keyed valid_rrule valid_tools "" id s db.schedules k in
          (
            cascade_for_template-Keyed next db s.core.template_id (delete id db.schedules).0 kept,
            inr refl,
          )

  set_schedule_enabled-Sound :
      (id : String) (enabled : Bool) (db : Db)
      → Keyed db.schedules
      → Sound db (set_schedule_enabled R now next valid_rrule valid_tools id enabled db)
  unfolding set_schedule_enabled
  set_schedule_enabled-Sound id enabled db k = row (get id db.schedules)
    where
      row :
          (o : Option ScheduleRow)
          → Sound db (enable_row R now next valid_rrule valid_tools enabled o db)
      row none = unchanged db not_found k
      row (some s) = elim (Bool-cases (same_bool s.enabled enabled)) [
        | inl same ↦ rw same (unchanged db (schedule_body 200 s) k)
        | inr other ↦
            let s' = record s { enabled = enabled } in
            let (_, kept, _) = writes-Keyed valid_rrule valid_tools "" "" s' db.schedules k in
            rw other (after_enable-Sound db (update valid_rrule valid_tools s' db.schedules) k kept)
      ]

  -- Every handler that writes keeps the ids distinct, and the names distinct among the schedules of a target; and
  -- when it answers with a problem, whichever, it leaves the stores as they were.
  pub handlers-Sound :
      (id : String) (req : Option CreateScheduleRequest) (change : Option UpdateScheduleRequest)
      (enabled : Bool) (db : Db)
      → Keyed db.schedules
      → Sound db (create_schedule R now next valid_rrule valid_tools id req db)
        × Sound db (update_schedule R now next valid_rrule valid_tools id change db)
        × Sound db (delete_schedule R now next valid_rrule valid_tools id db)
        × Sound db (set_schedule_enabled R now next valid_rrule valid_tools id enabled db)
  handlers-Sound id req change enabled db k = (
    create_schedule-Sound id req db k,
    update_schedule-Sound id change db k,
    delete_schedule-Sound id db k,
    set_schedule_enabled-Sound id enabled db k,
  )

OnProblem : Option Response → Type 0
OnProblem none = Unit {0}
OnProblem (some r) = is_problem r ≡ true

first_of-OnProblem :
    (guards : List (Option Response)) → All OnProblem guards → OnProblem (first_of guards)
unfolding OnProblem
first_of-OnProblem [] a = tt
first_of-OnProblem (none ∷ guards) (_, a) = first_of-OnProblem guards a
first_of-OnProblem (some r ∷ guards) (p, a) = p

missing_fields-OnProblem : (fields : List String) → OnProblem (missing_fields fields)
unfolding OnProblem
missing_fields-OnProblem [] = tt
missing_fields-OnProblem (f ∷ fields) = refl

problem_if-OnProblem :
    (b : Bool) (status : ℕ) (fields : List String)
    → OnProblem (problem_if b (validation status fields))
unfolding OnProblem
problem_if-OnProblem true status fields = refl
problem_if-OnProblem false status fields = tt

missing_template-OnProblem : (t : Found) → OnProblem (missing_template t)
unfolding OnProblem
missing_template-OnProblem no_template = tt
missing_template-OnProblem missing = refl
missing_template-OnProblem (found t) = tt

overlap_problem-OnProblem : (r : Result (List OverlapConflict)) → OnProblem (overlap_problem r)
unfolding OnProblem overlap_problem
overlap_problem-OnProblem (err e) = refl
overlap_problem-OnProblem (ok []) = tt
overlap_problem-OnProblem (ok (c ∷ cs)) = refl

-- The guards that let the handler go on.
no_missing_fields : (fields : List String) → missing_fields fields ≡ none → fields ≡ []
no_missing_fields [] h = refl
no_missing_fields (f ∷ fields) h = cc

no_overlap : (r : Result (List OverlapConflict)) → overlap_problem r ≡ none → r ≡ ok []
unfolding overlap_problem
no_overlap (err e) h = cc
no_overlap (ok []) h = refl
no_overlap (ok (c ∷ cs)) h = cc

first_of-none :
    (o : Option Response) (guards : List (Option Response))
    → first_of (o ∷ guards) ≡ none
    → (o ≡ none) × (first_of guards ≡ none)
first_of-none none guards h = (refl, h)
first_of-none (some r) guards h = cc

passed :
    (o : Option Response) (db : Db) (go : Db × Response) (status : ℕ) (s : ScheduleRow)
    → OnProblem o
    → (unless o db go).1 ≡ schedule_body status s
    → o ≡ none
unfolding OnProblem
passed none db go status s p h = refl
passed (some r) db go status s p h = absurd (let e : true ≡ false = sym p ∙ ap is_problem h in cc)

module _ (R : RuleLib) (now : Time) (next : Schedule → Option Template → Result (Option Time))
    (valid_rrule : String → Bool) (valid_tools : ToolConfig → Bool) where
  -- A schedule is created only if its target's id, RRULE, timezone and name have a character that is not a space, its
  -- RRULE is valid, its target exists, and the check against the target's other schedules finds no overlap.
  pub create_schedule-checked :
      (new_id : String) (req : CreateScheduleRequest) (db : Db) (status : ℕ) (s : ScheduleRow)
      → (create_schedule R now next valid_rrule valid_tools new_id (some req) db).1
        ≡ schedule_body status s
      → (NonBlank req.target_id × NonBlank req.rrule × NonBlank req.timezone × NonBlank req.name)
        × (valid_rrule req.rrule ≡ true)
        × In req.target_id db.targets
        × (overlap_check R now db
              (new_schedule req).core
              (template (load_template db req.template_id))
              req.estimated_duration_seconds
            ≡ ok [])
  unfolding create_schedule create_checked create_refusal
  create_schedule-checked new_id req db status s h =
      let tmpl = load_template db req.template_id in
      let overlap =
        overlap_check R now db (new_schedule req).core (template tmpl)
          req.estimated_duration_seconds in
      let last = overlap_problem overlap ∷ [] in
      let fourth = missing_template tmpl ∷ last in
      let third =
        problem_if (not (listed db.targets req.target_id)) (validation 422 ("target_id" ∷ []))
        ∷ fourth in
      let second =
        problem_if (not (valid_rrule req.rrule)) (validation 422 ("rrule" ∷ [])) ∷ third in
      let guards = missing_fields (validate_create_schedule_request req) ∷ second in
      let problems : OnProblem (first_of guards) = first_of-OnProblem guards (
        missing_fields-OnProblem (validate_create_schedule_request req),
        (
          problem_if-OnProblem (not (valid_rrule req.rrule)) 422 ("rrule" ∷ []),
          (
            problem_if-OnProblem (not (listed db.targets req.target_id)) 422 ("target_id" ∷ []),
            (missing_template-OnProblem tmpl, (overlap_problem-OnProblem overlap, tt)),
          ),
        ),
      ) in
      let none_first = passed (first_of guards) db _ status s problems h in
      let (fields, more) =
        first_of-none (missing_fields (validate_create_schedule_request req)) second none_first in
      let (rule, more') = first_of-none _ third more in
      let (target, more'') = first_of-none _ fourth more' in
      let (known, rest) = first_of-none (missing_template tmpl) last more'' in
      let (clear, _) = first_of-none (overlap_problem overlap) [] rest in
      (
        validate_create_schedule_request-given req (no_missing_fields _ fields),
        no_problem _ _ rule,
        listed-In db.targets req.target_id (no_problem _ _ target),
        no_overlap overlap clear,
      )
    where
      no_problem : (b : Bool) (r : Response) → problem_if (not b) r ≡ none → b ≡ true
      no_problem true r h = refl
      no_problem false r h = cc
