-- ===== src/Tests/Timing.antt =====
-- Witnesses: blackouts and fire times.
use surfbot_agent.Base.{
  ℕ, zero, suc, ◌*◌, ◌≤◌, ◌<◌, ◌≡◌, ◌≢◌, ◌↔◌, refl, Bool, true, false, none, some, List, [], ◌∷◌,
  String, arith, In, inl, inr, subst,
}
use surfbot_agent.Base.Assoc.{lookup}
use surfbot_agent.Model.{Time, second, BlackoutWindow, Result, ok, err}
use surfbot_agent.Sched.Rules.{RuleLib, RuleLaws}
use surfbot_agent.Model.{Schedule}
use surfbot_agent.Sched.Overlap.{
  OverlapConflict, distance, tmpl_of, passed_over, validate_no_overlap_at,
}
use surfbot_agent.Sched.Overlap.Conflicts.{Builds, Fires, validate_no_overlap_at_iff}
use surfbot_agent.Sched.Blackout.{
  CachedWindow, active_window, window_end, occurrence_covers, refresh, windows_of,
}
use surfbot_agent.Sched.Blackout.Coverage.{Covers}
use surfbot_agent.Sched.Blackout.Windows.{AllShort, applicable, active_window_lem}
use surfbot_agent.Sched.Blackout.Ends.{window_end_lem}
use surfbot_agent.Sched.Expander.{Blackouts, BlackoutLaws, rule_of, compute_next_run_at}
use surfbot_agent.Sched.Expander.Snapshot.{snapshot, snapshot-BlackoutLaws}
use surfbot_agent.Sched.Expander.Slots.{Passed, compute_next_run_at_free, compute_next_run_at_exact}
use surfbot_agent.Sched.Expander.Boundary.{compute_next_run_at-past_end}
use surfbot_agent.Tests.Samples.{
  dark_hours, cached, rules, laws, evaluator, nightly, defaults, no_random, occurrences,
}

all_short : (t : String) → AllShort rules (applicable rules evaluator t)
unfolding lookup
all_short t = (omega arith, tt)

active_window_lem_example :
    ((w : BlackoutWindow)
      → active_window rules evaluator "t1" (12 * second) ≡ some w
      → (c : CachedWindow rules) × In c (applicable rules evaluator "t1")
        × (c.window ≡ w)
        × Covers rules laws c (12 * second))
    × (active_window rules evaluator "t1" (12 * second) ≡ none
        → (c : CachedWindow rules) → In c (applicable rules evaluator "t1")
        → ¬ Covers rules laws c (12 * second))
active_window_lem_example =
    active_window_lem rules laws evaluator "t1" (12 * second) (all_short "t1")

window_end_lem_example :
    ((end : Time)
      → window_end rules evaluator "t1" (12 * second) ≡ some end
      → (12 * second < end)
        × ((u : Time) → 12 * second ≤ u → u < end → active_window rules evaluator "t1" u ≢ none))
    × (window_end rules evaluator "t1" (12 * second) ≡ none
        → active_window rules evaluator "t1" (12 * second) ≡ none)
window_end_lem_example = window_end_lem rules laws evaluator "t1" (12 * second) (all_short "t1")

abbrev blackouts : Blackouts
blackouts = snapshot rules evaluator

promises : BlackoutLaws blackouts
promises = snapshot-BlackoutLaws rules laws evaluator all_short

nightly_rule : rule_of rules nightly none defaults 1 ≡ ok (occurrences "SCAN")
unfolding rule_of surfbot_agent.Model.Cascade.resolve_effective_config
    surfbot_agent.Model.Cascade.pick_string lookup surfbot_agent.Model.Cascade.override_set
    surfbot_agent.Model.Cascade.mark_all surfbot_agent.Base.Assoc.insert
    surfbot_agent.Model.Cascade.resolve_tool_config surfbot_agent.Model.Cascade.merge_layers
nightly_rule = refl

-- The slot at 12 seconds is inside the blackout from 10 to 20 seconds, the slot at 20 seconds at its end.
nightly_slot :
    (compute_next_run_at rules no_random blackouts nightly none defaults 1 (6 * second) tt).0
    ≡ ok (some (30 * second))
unfolding surfbot_agent.Sched.Rules.Finite.least_after active_window
    surfbot_agent.Sched.Blackout.first_active occurrence_covers
    surfbot_agent.Sched.Blackout.covering_start surfbot_agent.Sched.Blackout.covering window_end
    surfbot_agent.Sched.Blackout.find_active_end surfbot_agent.Sched.Blackout.first_end
    surfbot_agent.Sched.Blackout.with_id surfbot_agent.Sched.Blackout.active_occurrence_end lookup
nightly_slot =
    compute_next_run_at-past_end rules no_random blackouts nightly none defaults 1 (6 * second) tt
      (occurrences "SCAN") (12 * second) (20 * second) (30 * second) refl nightly_rule refl refl
      refl refl refl

compute_next_run_at_free_example :
    (6 * second < 30 * second) × (blackouts.active "t1" (30 * second) ≡ false)
compute_next_run_at_free_example =
    compute_next_run_at_free rules laws no_random blackouts promises nightly none defaults 1
      (6 * second) tt (30 * second) nightly_slot

compute_next_run_at_exact_example :
    ((x : Time)
      → (compute_next_run_at rules no_random blackouts nightly none defaults 1 (6 * second) tt).0
        ≡ ok (some x)
      → laws.Occurs (occurrences "SCAN") x
        × ((o : Time)
            → laws.Occurs (occurrences "SCAN") o
            → 6 * second < o
            → o < x
            → Passed rules laws no_random blackouts promises "t1" o))
    × ((compute_next_run_at rules no_random blackouts nightly none defaults 1 (6 * second) tt).0
          ≡ ok none
        → (o : Time) → laws.Occurs (occurrences "SCAN") o
        → 6 * second < o
        → Passed rules laws no_random blackouts promises "t1" o)
compute_next_run_at_exact_example =
    compute_next_run_at_exact rules laws no_random blackouts promises nightly none defaults 1
      (6 * second) tt (occurrences "SCAN") refl nightly_rule

abbrev evening : Schedule
evening = record nightly { id = "s2"; rrule = "LATE" }

builds : (ex : Schedule) → In ex (evening ∷ []) → Builds rules laws ex (tmpl_of [] ex) defaults 1
unfolding rule_of surfbot_agent.Model.Cascade.resolve_effective_config
    surfbot_agent.Model.Cascade.pick_string lookup surfbot_agent.Model.Cascade.override_set
    surfbot_agent.Model.Cascade.mark_all surfbot_agent.Base.Assoc.insert
    surfbot_agent.Model.Cascade.resolve_tool_config surfbot_agent.Model.Cascade.merge_layers
builds ex (inl same) =
    subst (λ y. Builds rules laws y (tmpl_of [] y) defaults 1) same (occurrences "LATE", refl)
builds ex (inr m) = absurd m

-- The other schedule fires at 10 seconds, the candidate at 5, 12, 20 and 30: two pairs are closer than
-- six seconds.
validate_no_overlap_at_iff_example :
    (cs : List OverlapConflict) × (validate_no_overlap_at rules nightly none
        (evening ∷ [])
        []
        defaults
        1
        (60 * second)
        (6 * second)
      ≡ ok cs)
    × ((c : OverlapConflict)
        → In c cs ↔ (
            (ex : Schedule) × In ex (evening ∷ [])
            × (passed_over nightly ex ≡ false)
            × (c.schedule_id ≡ ex.id)
            × Fires rules laws nightly none defaults 1 (60 * second) c.occurrence_a
            × Fires rules laws ex (tmpl_of [] ex) defaults 1 (60 * second) c.occurrence_b
            × (distance c.occurrence_a c.occurrence_b < 6 * second)))
validate_no_overlap_at_iff_example =
    validate_no_overlap_at_iff rules laws nightly none (evening ∷ []) [] defaults 1 (60 * second)
      (6 * second) (occurrences "SCAN", nightly_rule) (λ ex m p. builds ex m)

-- The listing with a blackout for all targets.
abbrev listing : List BlackoutWindow
listing = dark_hours ∷ []

abbrev cached_of : Result (CachedWindow rules) → CachedWindow rules
cached_of (ok c) = c
cached_of (err e) = cached
