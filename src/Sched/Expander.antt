-- ===== src/Sched/Expander.antt =====
-- internal/daemon/intervalsched/rrule_expand.go: the next fire time of a schedule.
-- The blackout evaluator is an interface: its answers for a target and a moment, which
-- Sched/Expander/Snapshot.antt fills from the evaluator's cache; during one computation the cache does not
-- go stale. A nil evaluator is one that is never active. The jitter's random source is a state of its own.
pub mod Snapshot
pub mod Slots
pub mod Boundary
use surfbot_agent.Base.{
  ℕ, zero, suc, ◌+◌, ◌*◌, ◌<◌, ◌≤◌, ◌≡◌, ◌≢◌, Bool, true, false, Option, none, some, List, String,
  ltb, if◌then◌else◌,
}
use surfbot_agent.Base.Int.{ℤ, pos_part}
use surfbot_agent.Model.{
  Time, second, is_zero, Schedule, Template, ScheduleDefaults, Result, ok, err, ◌>>=◌, bad_timezone,
  bad_rrule, rule_not_built, blackout_saturated,
}
use surfbot_agent.Model.Cascade.{EffectiveConfig, resolve_effective_config}
use surfbot_agent.Sched.Rules.{RuleLib}
use surfbot_agent.Sched.Blackout.{or_err}

-- What the expander asks of the blackout evaluator.
pub record Blackouts : Type 0 where
  pub active : String → Time → Bool
  pub window_end : String → Time → Option Time

-- The evaluator's promises: an end lies ahead, and the target stays inside a blackout before it.
pub record BlackoutLaws (B : Blackouts) : Type 0 where
  pub end_ahead : (t : String) (at end : Time) → B.window_end t at ≡ some end → at < end
  pub active_until :
      (t : String) (at end u : Time)
      → B.window_end t at ≡ some end
      → at ≤ u
      → u < end
      → B.active t u ≡ true
  pub end_given : (t : String) (at : Time) → B.active t at ≡ true → B.window_end t at ≢ none

-- The jitter's source, `rand.Rand`: `intn s n` is the number drawn below `n`, and the next state.
pub record Random : Type 1 where
  pub State : Type 0
  pub intn : State → ℕ → ℕ × State

abbrev pub max_blackout_skip_iterations : ℕ
max_blackout_skip_iterations = 100

module _ (G : Random) where
  unfoldable pub next_jitter : ScheduleDefaults → G.State → ℕ × G.State
  next_jitter d s =
      if ltb 0 (pos_part d.jitter_seconds)
      then (let (n, s') = G.intn s (pos_part d.jitter_seconds + 1) in (n * second, s'))
      else (0, s)

module _ (R : RuleLib) where
  open R use {Rule, load_location, str_to_roption, new_rrule, dtstart, set_dtstart}

  -- The start of the recurrence: the schedule's, else the rule's own, else now.
  abbrev pub start_of : Time → Time → Time → Time
  start_of own given now = if is_zero own then (if is_zero given then now else given) else own

  -- The resolution of the schedule to a rule.
  unfoldable pub rule_of : Schedule → Option Template → ScheduleDefaults → Time → Result Rule
  rule_of s tmpl d now = do
    eff ← resolve_effective_config s tmpl d
    loc ← or_err (load_location eff.timezone) bad_timezone
    opt ← or_err (str_to_roption eff.rrule) bad_rrule
    or_err (new_rrule (set_dtstart opt (start_of s.dtstart (dtstart opt) now) loc)) rule_not_built

module _ (R : RuleLib) (G : Random) (B : Blackouts) where
  open R use {Rule, after}

  -- The loop that skips blackouts; the first argument is the number of rounds left.
  unfoldable pub skip_loop :
      ℕ → Rule → ScheduleDefaults → String → Time → G.State → Result (Option Time) × G.State
  skip_loop zero rule d t candidate g = (err blackout_saturated, g)
  skip_loop (suc n) rule d t candidate g = elim (B.active t candidate) [
    | false ↦ (ok (some candidate), g)
    | true ↦ elim (B.window_end t candidate) [
      | none ↦ skip_loop n rule d t (candidate + second) g
      | some end ↦ elim (after rule end false) [
        | none ↦ (ok none, g)
        | some next ↦
            let (jitter, g') = next_jitter G d g in skip_loop n rule d t (next + jitter) g'
      ]
    ]
  ]

  unfoldable pub first_candidate :
      Rule → ScheduleDefaults → String → Time → G.State → Result (Option Time) × G.State
  first_candidate rule d t now g = elim (after rule now false) [
    | none ↦ (ok none, g)
    | some first ↦
        let (jitter, g') = next_jitter G d g in
        skip_loop max_blackout_skip_iterations rule d t (first + jitter) g'
  ]

  -- `none` is the nil time: the schedule never fires again. The clock is read twice, once for a
  -- missing start and once for the present.
  unfoldable pub compute_next_run_at :
      Schedule
      → Option Template
      → ScheduleDefaults
      → Time
      → Time
      → G.State
      → Result (Option Time) × G.State
  compute_next_run_at s tmpl d start now g = elim (rule_of R s tmpl d start) [
    | err e ↦ (err e, g)
    | ok rule ↦ first_candidate rule d s.target_id now g
  ]
