-- ===== src/Sched/Expander/Snapshot.antt =====
-- The blackout evaluator's cache (internal/daemon/intervalsched/blackout.go) as what the expander
-- (rrule_expand.go) asks of it.
use surfbot_agent.Base.{◌≡◌, ◌≢◌, refl, Bool, true, false, Option, none, some, String, arith}
use surfbot_agent.Sched.Rules.{RuleLib, RuleLaws}
use surfbot_agent.Sched.Blackout.{Evaluator, active_window, window_end}
use surfbot_agent.Sched.Blackout.Windows.{applicable, AllShort}
use surfbot_agent.Sched.Blackout.Ends.{window_end_lem}
use surfbot_agent.Sched.Expander.{Blackouts, BlackoutLaws}

abbrev pub is_found {ℓ} : {A : Type ℓ} → Option A → Bool
is_found (some a) = true
is_found none = false

abbrev pub snapshot : (R : RuleLib) → Evaluator R → Blackouts
snapshot R e = record {
  active = λ t at. is_found (active_window R e t at);
  window_end = λ t at. window_end R e t at;
}

found_of_some : {A : Type 0} (o : Option A) → o ≢ none → is_found o ≡ true
found_of_some none h = absurd (h refl)
found_of_some (some a) h = refl

-- The evaluator keeps the promises that the expander relies on, if no window of any target lasts
-- longer than seven days.
pub snapshot-BlackoutLaws :
    (R : RuleLib) (L : RuleLaws R) (e : Evaluator R)
    → ((t : String) → AllShort R (applicable R e t))
    → BlackoutLaws (snapshot R e)
snapshot-BlackoutLaws R L e short = record {
  end_ahead = λ t at end h. ((window_end_lem R L e t at (short t)).0 end h).0;
  active_until = λ t at end u h a b.
      found_of_some (active_window R e t u)
        (((window_end_lem R L e t at (short t)).0 end h).1 u a b);
  end_given = λ t at h n. ground (arith, (window_end_lem R L e t at (short t)).1 n);
}
