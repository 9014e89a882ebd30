-- ===== src/Sched/Blackout/Fresh.antt =====
-- internal/daemon/intervalsched/blackout.go: what `IsActive` answers, in terms of the store's listing.
use surfbot_agent.Base.{◌≤◌, ◌≡◌, Bool, true, ◌||◌, Option, none, some, List, String, In}
use surfbot_agent.Model.{Time, BlackoutWindow, BlackoutScope, ok}
use surfbot_agent.Sched.Rules.{RuleLib, RuleLaws}
use surfbot_agent.Sched.Blackout.{
  CachedWindow, Evaluator, build_cached_window, windows_of, duration, blackout_horizon_past,
}
use surfbot_agent.Sched.Blackout.Coverage.{Covers}
use surfbot_agent.Sched.Blackout.Cache.{is_global, is_for, built}

module _ (R : RuleLib) where
  -- A window of a listing that is enabled, passes a test and can be built.
  abbrev Lists :
      (BlackoutScope → Option String → Bool) → List BlackoutWindow → CachedWindow R → Type 0
  Lists p ws c =
      (b : BlackoutWindow) × In b ws
      × (b.enabled ≡ true)
      × (p b.scope b.target_id ≡ true)
      × (build_cached_window R b ≡ ok c)

  -- It applies to a target: globally, or by its name.
  abbrev pub applies : String → BlackoutScope → Option String → Bool
  applies t s u = is_global s || is_for t s u

  abbrev pub Listed : List BlackoutWindow → String → CachedWindow R → Type 0
  Listed ws t c = Lists (applies t) ws c

  -- The evaluator holds what a listing says.
  abbrev Holds : List BlackoutWindow → Evaluator R → Type 0
  Holds ws e =
      (e.globals ≡ built R (λ s u. is_global s) ws)
      × ((t : String) → windows_of R t e.per_target ≡ built R (is_for t) ws)

  -- No window of the listing that can be built lasts longer than seven days.
  abbrev pub AllListedShort : List BlackoutWindow → String → Type 0
  AllListedShort ws t = (c : CachedWindow R) → Listed ws t c → duration R c ≤ blackout_horizon_past

module _ (R : RuleLib) (L : RuleLaws R) where
  -- An answer of `IsActive` that agrees with a listing: a window that applies to the target and has an occurrence
  -- lasting then, or that there is none.
  abbrev pub Agrees : List BlackoutWindow → String → Time → Option BlackoutWindow → Type 0
  Agrees ws t at answer =
      ((w : BlackoutWindow)
        → answer ≡ some w
        → (c : CachedWindow R) × Listed R ws t c × (c.window ≡ w) × Covers R L c at)
      × (answer ≡ none → (c : CachedWindow R) → Listed R ws t c → ¬ Covers R L c at)
