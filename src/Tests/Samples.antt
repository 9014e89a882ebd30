-- ===== src/Tests/Samples.antt =====
-- Sample data: a schedule, a blackout of ten seconds and a rule library with finitely many occurrences.
use surfbot_agent.Base.{◌*◌, Bool, true, none, some, List, [], ◌∷◌, String, str_eq, if◌then◌else◌}
use surfbot_agent.Base.Int.{pos}
use surfbot_agent.Model.{
  Time, second, object, Schedule, Template, ScheduleDefaults, AdHocScanRun, BlackoutWindow, global,
  ok,
}
use surfbot_agent.Sched.Rules.{RuleLib, RuleLaws}
use surfbot_agent.Sched.Rules.Finite.{finite_rules, finite_laws}
use surfbot_agent.Sched.Blackout.{CachedWindow, Evaluator}
use surfbot_agent.Sched.Expander.{Random}
use surfbot_agent.Sched.Ticker.{Services}

-- The scan rule fires at 5, 12, 20 and 30 seconds, every other rule at 10 seconds.
abbrev pub occurrences : String → List Time
occurrences text =
    if str_eq text "SCAN"
    then 5 * second ∷ 12 * second ∷ 20 * second ∷ 30 * second ∷ []
    else 10 * second ∷ []

abbrev pub rules : RuleLib
rules = finite_rules occurrences

abbrev pub laws : RuleLaws rules
laws = finite_laws occurrences

abbrev pub nightly : Schedule
nightly = record {
  id = "s1";
  target_id = "t1";
  rrule = "SCAN";
  dtstart = 1;
  timezone = "UTC";
  template_id = none;
  tool_config = none;
  overrides = "rrule" ∷ [];
  maintenance_window = none;
}

abbrev pub defaults : ScheduleDefaults
defaults = record {
  default_rrule = "DAILY";
  default_timezone = "Europe/Madrid";
  default_tool_config = none;
  default_maintenance_window = none;
  max_concurrent_scans = pos 2;
  jitter_seconds = pos 0;
}

abbrev pub deep : Template
deep = record {
  id = "p1";
  rrule = "";
  timezone = "";
  tool_config = some (("nuclei", object (("rate", "10") ∷ [])) ∷ []);
  maintenance_window = none;
}

abbrev pub dark_hours : BlackoutWindow
dark_hours = record {
  id = "b1";
  scope = global;
  target_id = none;
  rrule = "DARK";
  duration_sec = pos 10;
  timezone = "UTC";
  enabled = true;
  created_at = 1;
}

abbrev pub cached : CachedWindow rules
cached = record { window = dark_hours; rule = 10 * second ∷ []; loc = tt }

abbrev pub evaluator : Evaluator rules
evaluator = record {
  globals = cached ∷ [];
  per_target = [];
  last_refresh = 1;
  refresh_err = true;
  populated_ok = true;
}

abbrev pub no_random : Random
no_random = record { State = Unit {0}; intn = λ s n. (0, s) }

abbrev pub request : AdHocScanRun
request = record { id = "r1"; target_id = "t2"; template_id = none; tool_config = none }

-- Two due schedules of one target, no blackout.
abbrev pub services : Services
services = record {
  active = λ t at. Bool.false;
  next_run = λ s tmpl. ok none;
  get_template = λ id. none;
  list_due = λ now limit. some (nightly ∷ nightly ∷ []);
  defaults = defaults;
  has_ad_hoc_store = true;
}
