-- ===== src/Api/Schedules/Resume.antt =====
-- internal/api/v1/schedules.go with internal/storage/schedules.go: what resuming a schedule leaves for the ticker.
use surfbot_agent.Base.{
  ℕ, ◌≡◌, ◌≢◌, refl, sym, ◌∙◌, ap, subst, ◌⊎◌, inl, inr, Bool, true, false, ◌&&◌, Option, none,
  some, List, [], ◌∷◌, String, str_eq_refl, Bool-cases, All, In,
}
use surfbot_agent.Base.Members.{All-mem, All-tabulate}
use surfbot_agent.Model.{Time, Schedule, Template, ToolConfig, Result}
use surfbot_agent.Sched.Rules.{RuleLib}
use surfbot_agent.Storage.Schedules.{
  ScheduleRow, written, stored_row, has_id, get, update_rows, is_due, list_due, update,
  valid_schedule_input, name_taken, no_nil_map,
}
use surfbot_agent.Storage.Schedules.Due.{IsDue, IsDue-is_due, list_due_lem}
use surfbot_agent.Api.Schedules.{Db, schedule_body}
use surfbot_agent.Api.Schedules.Handlers.{with_rows, set_schedule_enabled}

-- After an update every row with the id is the one that was written.
mem-update_rows :
    (id : String) (u s : ScheduleRow) (rows : List ScheduleRow)
    → has_id id u ≡ true
    → In s (update_rows id (λ _. u) rows)
    → has_id id s ≡ true
    → u ≡ s
unfolding update_rows
mem-update_rows id u s [] e m h = absurd m
mem-update_rows id u s (r ∷ rows) e m h = elim (Bool-cases (has_id id r)) [
  | inl same ↦ elim (let k : (u ≡ s) ⊎ In s (update_rows id (λ _. u) rows) = rw same at m in k) [
    | inl f ↦ f
    | inr more ↦ mem-update_rows id u s rows e more h
  ]
  | inr other ↦ elim (let k : (r ≡ s) ⊎ In s (update_rows id (λ _. u) rows) = rw other at m in k) [
    | inl f ↦ absurd (let g : false ≡ true = sym other ∙ ap (has_id id) f ∙ h in cc)
    | inr more ↦ mem-update_rows id u s rows e more h
  ]
]

name_taken_enabled :
    (s : ScheduleRow) (enabled : Bool) (rows : List ScheduleRow)
    → name_taken (record s { enabled = enabled }) rows ≡ name_taken s rows
unfolding name_taken
name_taken_enabled s enabled [] = refl
name_taken_enabled s enabled (r ∷ rows) = rw (name_taken_enabled s enabled rows) refl

stored_row_id : (s : ScheduleRow) → has_id s.core.id (stored_row s) ≡ true
unfolding stored_row
stored_row_id s = str_eq_refl s.core.id

not_due : (now : Time) (s : ScheduleRow) → s.next_run_at ≡ none → is_due now (stored_row s) ≢ true
unfolding stored_row
not_due now s never h = absurd (no_time s.enabled (rw never at h))
  where
    no_time : (b : Bool) → (b && false) ≢ true
    no_time true e = cc
    no_time false e = cc

module _ (R : RuleLib) (clock : Time) (next : Schedule → Option Template → Result (Option Time))
    (valid_rrule : String → Bool) (valid_tools : ToolConfig → Bool) where
  -- Resuming a paused schedule that has no fire time, as one that was created paused, succeeds and enables it, but
  -- gives it no fire time: no query for due schedules, at any later time, returns it.
  pub resume-not_due :
      (id : String) (db : Db) (s : ScheduleRow) (now : Time) (limit : ℕ)
      → get id db.schedules ≡ some s
      → s.core.id ≡ id
      → s.enabled ≡ false
      → s.next_run_at ≡ none
      → valid_schedule_input valid_rrule valid_tools s ≡ true
      → name_taken s db.schedules ≡ false
      → let out = set_schedule_enabled R clock next valid_rrule valid_tools id true db in
        (r : ScheduleRow) × (out.1 ≡ schedule_body 200 r)
        × (r.enabled ≡ true)
        × All (λ u. has_id id u ≡ false) (list_due now limit out.0.schedules)
  unfolding set_schedule_enabled update valid_schedule_input
  resume-not_due id db s now limit there own paused never valid free =
      let s' = record s { enabled = true } in
      let r = record s' { core = record s.core { tool_config = no_nil_map s.core.tool_config } } in
      let rows = update_rows s.core.id (λ _. stored_row s') db.schedules in
      let present : get s.core.id db.schedules ≡ some s =
        ap (λ i. get i db.schedules) own ∙ there in
      let free' = name_taken_enabled s true db.schedules ∙ free in
      let result : update valid_rrule valid_tools s' db.schedules ≡ (rows, written r) =
        rw (valid, present, free') refl in
      let done : set_schedule_enabled R clock next valid_rrule valid_tools id true db
          ≡ (with_rows db rows, schedule_body 200 r) =
        rw (there, paused, result) refl in
      (
        r,
        ap (λ o. o.1) done,
        refl,
        subst (λ o. All (λ u. has_id id u ≡ false) (list_due now limit o.0.schedules)) (sym done)
            (All-tabulate (λ u. has_id id u ≡ false) (list_due now limit rows)
              (λ u m.
                let (there', due) : In u rows × IsDue now u =
                  All-mem (λ u. In u rows × IsDue now u) u (list_due now limit rows)
                    (list_due_lem now limit rows).0 m in
                elim (Bool-cases (has_id id u)) [
                  | inr other ↦ other
                  | inl same ↦
                      let same' : has_id s.core.id u ≡ true = ap (λ i. has_id i u) own ∙ same in
                      let e =
                        mem-update_rows s.core.id (stored_row s') u db.schedules (stored_row_id s')
                          there' same' in
                      absurd (not_due now s' never (ap (is_due now) e ∙ IsDue-is_due now u due))
                ])),
      )
