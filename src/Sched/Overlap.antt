-- ===== src/Sched/Overlap.antt =====
-- internal/daemon/intervalsched/overlap.go: schedules of one target whose runs would overlap.
-- Durations are natural numbers of nanoseconds; `now` is an argument, as in `validateNoOverlapAt`.
pub mod Pairs
pub mod Conflicts
use surfbot_agent.Base.{
  ℕ, ◌+◌, ◌-◌, Bool, true, false, not, ◌&&◌, ◌||◌, Option, none, some, List, [], ◌∷◌, ◌++◌, String,
  ltb, str_eq, string_eq, if◌then◌else◌,
}
use surfbot_agent.Base.Assoc.{Assoc, lookup}
use surfbot_agent.Model.{Time, Schedule, Template, ScheduleDefaults, Result, ok, err, ◌>>=◌}
use surfbot_agent.Sched.Rules.{RuleLib}
use surfbot_agent.Sched.Expander.{rule_of}

pub record OverlapConflict : Type 0 where
  pub schedule_id : String
  pub occurrence_a : Time
  pub occurrence_b : Time

-- `diff`, made positive.
abbrev pub distance : Time → Time → ℕ
distance a b = if ltb a b then b - a else a - b

-- The inner loops, over the occurrences of one other schedule.
unfoldable pub conflicts_of : String → ℕ → Time → List Time → List OverlapConflict
conflicts_of id dur a [] = []
conflicts_of id dur a (b ∷ bs) =
    let rest = conflicts_of id dur a bs in
    if ltb (distance a b) dur
    then record { schedule_id = id; occurrence_a = a; occurrence_b = b } ∷ rest
    else rest

unfoldable pub conflicts_between : String → ℕ → List Time → List Time → List OverlapConflict
conflicts_between id dur [] bs = []
conflicts_between id dur (a ∷ cands) bs =
    conflicts_of id dur a bs ++ conflicts_between id dur cands bs

-- The template of another schedule; a nil map has no entries.
abbrev pub tmpl_of : Assoc String Template → Schedule → Option Template
tmpl_of tmpls s = elim s.template_id [ none ↦ none | some id ↦ lookup id tmpls ]

-- The two `continue`s.
abbrev pub passed_over : Schedule → Schedule → Bool
passed_over candidate ex =
    str_eq ex.id candidate.id || not (str_eq ex.target_id candidate.target_id)

module _ (R : RuleLib) where
  unfoldable pub expand_schedule :
      Schedule → Option Template → ScheduleDefaults → Time → ℕ → Result (List Time)
  expand_schedule s tmpl d now horizon = elim (rule_of R s tmpl d now) [
    | err e ↦ err e
    | ok rule ↦ ok (R.between rule now (now + horizon) true)
  ]

  -- The loop over the other schedules.
  unfoldable pub check_all :
      Schedule
      → List Time
      → Assoc String Template
      → ScheduleDefaults
      → Time
      → ℕ
      → ℕ
      → List Schedule
      → Result (List OverlapConflict)
  check_all candidate cands tmpls d now horizon dur [] = ok []
  check_all candidate cands tmpls d now horizon dur (ex ∷ existing) =
      let rest = check_all candidate cands tmpls d now horizon dur existing in
      if passed_over candidate ex
      then rest
      else elim (expand_schedule ex (tmpl_of tmpls ex) d now horizon) [
        | err e ↦ err e
        | ok bs ↦ elim rest [
          | err e ↦ err e
          | ok cs ↦ ok (conflicts_between ex.id dur cands bs ++ cs)
        ]
      ]

  unfoldable pub validate_no_overlap_at :
      Schedule
      → Option Template
      → List Schedule
      → Assoc String Template
      → ScheduleDefaults
      → Time
      → ℕ
      → ℕ
      → Result (List OverlapConflict)
  validate_no_overlap_at candidate tmpl existing tmpls d now horizon dur =
      elim (expand_schedule candidate tmpl d now horizon) [
        | err e ↦ err e
        | ok [] ↦ ok []
        | ok (a ∷ cands) ↦ check_all candidate (a ∷ cands) tmpls d now horizon dur existing
      ]
