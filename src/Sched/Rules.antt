-- ===== src/Sched/Rules.antt =====
-- What the scheduler uses of the RRULE library (github.com/teambition/rrule-go) and of the system's
-- timezone database: an interface, with the documented behaviour of a rule's queries as laws.
pub mod Finite
use surfbot_agent.Base.{◌≤◌, ◌<◌, ◌≡◌, ◌↔◌, Bool, true, false, Option, none, some, List, String, In}
use surfbot_agent.Model.{Time}

pub record RuleLib : Type 1 where
  pub Location : Type 0
  pub ROption : Type 0
  pub Rule : Type 0
  -- `time.LoadLocation`, `StrToROption`, `NewRRule`: `none` is an error.
  pub load_location : String → Option Location
  pub str_to_roption : String → Option ROption
  pub new_rrule : ROption → Option Rule
  -- The field `Dtstart`, 0 if it is not set, and `opt.Dtstart = t.In(loc)`.
  pub dtstart : ROption → Time
  pub set_dtstart : ROption → Time → Location → ROption
  -- `Between(lo, hi, inc)` and `After(t, inc)`, where `none` is the zero time.
  pub between : Rule → Time → Time → Bool → List Time
  pub after : Rule → Time → Bool → Option Time

-- `Between` with `inc` lists the occurrences from `lo` to `hi`, both included; `After` without `inc`
-- is the first occurrence that is strictly later.
pub record RuleLaws (R : RuleLib) : Type 1 where
  pub Occurs : R.Rule → Time → Type 0
  pub between_iff :
      (r : R.Rule) (lo hi t : Time)
      → In t (R.between r lo hi true) ↔ (Occurs r t × (lo ≤ t) × (t ≤ hi))
  pub after_some :
      (r : R.Rule) (t n : Time)
      → R.after r t false ≡ some n
      → Occurs r n × (t < n) × ((u : Time) → Occurs r u → t < u → n ≤ u)
  pub after_none :
      (r : R.Rule) (t : Time) → R.after r t false ≡ none → (u : Time) → Occurs r u → u ≤ t
