-- ===== src/Sched/Recompute.antt =====
-- internal/daemon/intervalsched/cascade_recompute.go: the fire times of a template's schedules, once more.
-- The stores and the expander, which is not nil, are arguments: `next` is `ComputeNextRunAt`, and `set` tells whether
-- `SetNextRunAt` succeeds; its successful calls are collected in order.
pub mod Writes
use surfbot_agent.Base.{
  ℕ, suc, Bool, true, false, ◌||◌, Option, none, some, List, [], ◌∷◌, String, str_eq, if◌then◌else◌,
}
use surfbot_agent.Model.{Time, Schedule, Template, Result, ok, err}

unfoldable pub override_contains : List String → String → Bool
override_contains [] name = false
override_contains (o ∷ overrides) name = str_eq o name || override_contains overrides name

-- The schedules that the loop passes over.
abbrev pub has_override : Schedule → Bool
has_override s = override_contains s.overrides "rrule" || override_contains s.overrides "timezone"

pub record Write : Type 0 where
  pub schedule_id : String
  pub next_run_at : Option Time

module _ (next : Schedule → Option Template → Result (Option Time))
    (set : String → Option Time → Bool) where
  -- The number of schedules updated, and the writes.
  unfoldable pub recompute_all : List Schedule → Template → ℕ × List Write
  recompute_all [] tmpl = (0, [])
  recompute_all (s ∷ schedules) tmpl =
      let (affected, writes) = recompute_all schedules tmpl in
      if has_override s then (affected, writes) else elim (next s (some tmpl)) [
        | err e ↦ (affected, writes)
        | ok t ↦
            if set s.id t
            then (suc affected, record { schedule_id = s.id; next_run_at = t } ∷ writes)
            else (affected, writes)
      ]

  -- `none` is an error of one of the two queries.
  unfoldable pub recompute_next_run_for_template :
      Option Template → Option (List Schedule) → Option (ℕ × List Write)
  recompute_next_run_for_template none schedules = none
  recompute_next_run_for_template (some tmpl) none = none
  recompute_next_run_for_template (some tmpl) (some schedules) = some (recompute_all schedules tmpl)
