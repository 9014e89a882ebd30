-- ===== src/Sched/Blackout/Windows.antt =====
-- internal/daemon/intervalsched/blackout.go: `IsActive` and `NextWindowEnd` against the windows that
-- apply to a target.
use surfbot_agent.Base.{
  ◌≤◌, ◌≡◌, refl, sym, subst, ◌∙◌, true, false, none, some, List, [], ◌∷◌, ◌++◌, String, arith,
  Bool-cases, inl, inr, In, All,
}
use surfbot_agent.Base.Members.{All-mem}
use surfbot_agent.Model.{Time, BlackoutWindow}
use surfbot_agent.Sched.Rules.{RuleLib, RuleLaws}
use surfbot_agent.Sched.Blackout.{
  CachedWindow, Evaluator, duration, occurrence_covers, blackout_horizon_past, first_active,
  active_window, windows_of,
}
use surfbot_agent.Sched.Blackout.Coverage.{Covers, occurrence_covers_iff}

module _ (R : RuleLib) where
  -- The cached windows that apply to a target: the global ones, then its own.
  abbrev pub applicable : Evaluator R → String → List (CachedWindow R)
  applicable e t = e.globals ++ windows_of R t e.per_target

  -- No window lasts longer than the seven days that the evaluator looks back (the API's cap).
  abbrev pub AllShort : List (CachedWindow R) → Type 0
  AllShort = All (λ c. duration R c ≤ blackout_horizon_past)

  first_active-append :
      (cs ds : List (CachedWindow R)) (at : Time)
      → first_active R (cs ++ ds) at
        ≡ elim (first_active R cs at) [ some w ↦ some w | none ↦ first_active R ds at ]
  unfolding first_active
  first_active-append [] ds at = refl
  first_active-append (c ∷ cs) ds at = ground (arith, first_active-append cs ds at)

  pub active_window-applicable :
      (e : Evaluator R) (t : String) (at : Time)
      → active_window R e t at ≡ first_active R (applicable e t) at
  unfolding active_window
  active_window-applicable e t at =
      sym (first_active-append e.globals (windows_of R t e.per_target) at)

  pub first_active-some :
      (cs : List (CachedWindow R)) (at : Time) (w : BlackoutWindow)
      → first_active R cs at ≡ some w
      → (c : CachedWindow R) × In c cs × (c.window ≡ w) × (occurrence_covers R c at ≡ true)
  unfolding first_active
  first_active-some [] at w h = cc
  first_active-some (c ∷ cs) at w h = elim (Bool-cases (occurrence_covers R c at)) [
    | inl hit ↦ (c, inl refl, ground arith, hit)
    | inr miss ↦ let (d, m, e, k) = first_active-some cs at w (ground arith) in (d, inr m, e, k)
  ]

  first_active-none :
      (cs : List (CachedWindow R)) (at : Time)
      → first_active R cs at ≡ none
      → (c : CachedWindow R) → In c cs
      → occurrence_covers R c at ≡ false
  unfolding first_active
  first_active-none [] at h c m = absurd m
  first_active-none (x ∷ cs) at h c (inl e) =
      subst (λ y. occurrence_covers R y at ≡ false) e (ground arith)
  first_active-none (x ∷ cs) at h c (inr m) = first_active-none cs at (ground arith) c m

module _ (R : RuleLib) (L : RuleLaws R) where
  -- Where no window that applies to the target lasts longer than seven days, the target is reported inside a blackout, with a
  -- window that applies to it and has an occurrence lasting then, exactly if there is such a window.
  pub active_window_lem :
      (e : Evaluator R) (t : String) (at : Time)
      → AllShort R (applicable R e t)
      → ((w : BlackoutWindow)
          → active_window R e t at ≡ some w
          → (c : CachedWindow R) × In c (applicable R e t) × (c.window ≡ w) × Covers R L c at)
        × (active_window R e t at ≡ none
            → (c : CachedWindow R) → In c (applicable R e t)
            → ¬ Covers R L c at)
  active_window_lem e t at short = (
    λ w h.
        let (c, m, k, hit) =
          first_active-some R (applicable R e t) at w
            (sym (active_window-applicable R e t at) ∙ h) in
        (c, m, k, (occurrence_covers_iff R L c at (All-mem _ c (applicable R e t) short m)).0 hit),
    λ h c m k.
        let idle =
          first_active-none R (applicable R e t) at (sym (active_window-applicable R e t at) ∙ h) c
            m in
        let busy = (occurrence_covers_iff R L c at (All-mem _ c (applicable R e t) short m)).1 k in
        ground arith,
  )
