-- ===== src/Tests/Plain.antt =====
-- Witnesses: the lock index, the breaker, the score and the configuration cascade.
use surfbot_agent.Base.{
  ℕ, zero, suc, ◌≤◌, ◌+◌, ◌*◌, ◌≡◌, ◌≢◌, refl, not, ◌&&◌, ◌||◌, ◌⊎◌, inl, inr, true, false, Option,
  none, some, List, [], ◌∷◌, String, arith, length, str_eq,
}
use surfbot_agent.Base.Int.{pos, ◌≤ℤ◌}
use surfbot_agent.Base.Assoc.{Assoc, lookup}
use surfbot_agent.Model.{
  second, Raw, object, null, Schedule, Result, ok, err, nil_map_write, unresolved_rrule,
  unresolved_timezone,
}
use surfbot_agent.Model.Cascade.{
  EffectiveConfig, resolve_effective_config, resolve_tool_config, or_else, tmpl_tools, tmpl_rrule,
  tmpl_timezone,
}
use surfbot_agent.Model.Cascade.Tools.{param, param_of, resolve_tool_config_layers}
use surfbot_agent.Model.Cascade.Fields.{Chosen, resolve_effective_config_fields}
use surfbot_agent.Sched.Locks.{LockIndex, new_lock_index, try_acquire}
use surfbot_agent.Detection.Breaker.{Entry, Breaker, inflight_cap, new_breaker, after}
use surfbot_agent.Detection.Breaker.Window.{cap_after, inflight_cap-cap_after}
use surfbot_agent.Scoring.{Severity, critical, high, medium, low, info, compute_security_score}
use surfbot_agent.Scoring.Range.{compute_security_score-of_counts}
use surfbot_agent.Tests.Samples.{nightly, deep, defaults}

abbrev one_lock : LockIndex
one_lock = (try_acquire new_lock_index "t1").0

abbrev lost : Entry
lost = record { success = false; timed_out = true }

abbrev fresh : Breaker
fresh = after (pos 40) (lost ∷ lost ∷ [])

abbrev lost_many : ℕ → List Entry
lost_many zero = []
lost_many (suc n) = lost ∷ lost_many n

inflight_cap-cap_after_example :
    inflight_cap (after (pos 40) (lost_many 52))
    ≡ cap_after (new_breaker (pos 40)).original (lost_many 52)
inflight_cap-cap_after_example = inflight_cap-cap_after (pos 40) (lost_many 52)

abbrev few : Severity → ℕ
few critical = 1
few high = 2
few medium = 0
few low = 3
few info = 9

abbrev many : Severity → ℕ
many critical = 1
many high = 2
many medium = 4
many low = 3
many info = 9

few-many : (s : Severity) → few s ≤ many s
few-many critical = omega arith
few-many high = omega arith
few-many medium = omega arith
few-many low = omega arith
few-many info = omega arith

few-natural : (s : Severity) → pos 0 ≤ℤ pos (few s)
few-natural s = ground arith

compute_security_score-of_counts_example : (compute_security_score (λ s. pos (few s))).0 ≡ pos 52
compute_security_score-of_counts_example = compute_security_score-of_counts few (omega arith)

-- The schedule sets one parameter of a tool that the template sets too.
abbrev tuned : Schedule
tuned = record nightly { tool_config = some (("nuclei", object (("rate", "50") ∷ [])) ∷ []) }

resolve_tool_config_layers_example :
    (out : Assoc String Raw) × (resolve_tool_config tuned (some deep) defaults ≡ ok out)
    × ((t k : String)
        → param out t k
          ≡ or_else (param_of tuned.tool_config t k) (
              or_else
                (param_of (tmpl_tools (some deep)) t k)
                (param_of defaults.default_tool_config t k)))
unfolding lookup
resolve_tool_config_layers_example =
    resolve_tool_config_layers tuned (some deep) defaults tt (ground arith) (ground arith)

abbrev resolved : EffectiveConfig
resolved = record {
  rrule = "SCAN";
  timezone = "Europe/Madrid";
  tool_config = [];
  maintenance_window = none;
}

resolve_effective_config_fields_example :
    Chosen "rrule" nightly.overrides nightly.rrule "" defaults.default_rrule resolved.rrule
    × Chosen "timezone" nightly.overrides nightly.timezone "" defaults.default_timezone
        resolved.timezone
unfolding resolve_effective_config surfbot_agent.Model.Cascade.pick_string lookup
    surfbot_agent.Model.Cascade.override_set surfbot_agent.Model.Cascade.mark_all
    surfbot_agent.Base.Assoc.insert resolve_tool_config surfbot_agent.Model.Cascade.merge_layers
    surfbot_agent.Model.Cascade.resolve_maintenance_window
resolve_effective_config_fields_example =
    resolve_effective_config_fields nightly none defaults resolved refl
