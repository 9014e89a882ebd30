-- ===== src/Sched/Blackout/Ends.antt =====
-- internal/daemon/intervalsched/blackout.go: `NextWindowEnd`.
use surfbot_agent.Base.{
  ◌≤◌, ◌<◌, ◌≡◌, ◌≢◌, refl, sym, subst, ◌∙◌, true, none, some, List, [], ◌∷◌, ◌++◌, String, arith,
  str_eq, str_eq_iff, Bool-cases, Option-cases, inl, inr, ◌⊎◌, In,
}
use surfbot_agent.Base.Members.{mem-append_left, mem-append_right, mem-append}
use surfbot_agent.Model.{Time, BlackoutWindow}
use surfbot_agent.Sched.Rules.{RuleLib, RuleLaws}
use surfbot_agent.Sched.Blackout.{
  CachedWindow, Evaluator, active_occurrence_end, active_window, windows_of, with_id, first_end,
  find_active_end, window_end,
}
use surfbot_agent.Sched.Blackout.Coverage.{active_occurrence_end-some, active_occurrence_end-none}
use surfbot_agent.Sched.Blackout.Windows.{
  applicable, AllShort, active_window_lem, active_window-applicable, first_active-some,
}

module _ (R : RuleLib) where
  mem-with_id :
      (id : String) (c : CachedWindow R) (cs : List (CachedWindow R))
      → c.window.id ≡ id
      → In c cs
      → In c (with_id R id cs)
  unfolding with_id
  mem-with_id id c [] e m = absurd m
  mem-with_id id c (x ∷ cs) e (inl same) =
      let hit : str_eq x.window.id id ≡ true =
        (str_eq_iff x.window.id id).1 (subst (λ y. y.window.id ≡ id) (sym same) e) in
      rw hit (inl same)
  mem-with_id id c (x ∷ cs) e (inr m) = elim (Bool-cases (str_eq x.window.id id)) [
    | inl hit ↦ rw hit (inr (mem-with_id id c cs e m))
    | inr miss ↦ rw miss (mem-with_id id c cs e m)
  ]

  with_id-cons :
      (id : String) (c x : CachedWindow R) (cs : List (CachedWindow R))
      → In c (with_id R id (x ∷ cs))
      → (x ≡ c) ⊎ In c (with_id R id cs)
  unfolding with_id
  with_id-cons id c x cs m = elim (Bool-cases (str_eq x.window.id id)) [
    | inl hit ↦ rw hit at m
    | inr miss ↦ inr (rw miss at m)
  ]

  mem_of_with_id :
      (id : String) (c : CachedWindow R) (cs : List (CachedWindow R))
      → In c (with_id R id cs)
      → In c cs
  unfolding with_id
  mem_of_with_id id c [] m = m
  mem_of_with_id id c (x ∷ cs) m = keep (mem_of_with_id id c cs) (with_id-cons id c x cs m)
    where
      keep : (In c (with_id R id cs) → In c cs) → (x ≡ c) ⊎ In c (with_id R id cs) → In c (x ∷ cs)
      keep ih (inl e) = inl e
      keep ih (inr h) = inr (ih h)

  first_end-some :
      (cs : List (CachedWindow R)) (at end : Time)
      → first_end R cs at ≡ some end
      → (c : CachedWindow R) × In c cs × (active_occurrence_end R c at ≡ some end)
  unfolding first_end
  first_end-some [] at end h = cc
  first_end-some (x ∷ cs) at end h = elim (Option-cases (active_occurrence_end R x at)) [
    | inl e ↦ let (c, m, k) = first_end-some cs at end (ground arith) in (c, inr m, k)
    | inr (y, e) ↦ (x, inl refl, ground arith)
  ]

  first_end-none :
      (cs : List (CachedWindow R)) (at : Time)
      → first_end R cs at ≡ none
      → (c : CachedWindow R) → In c cs
      → active_occurrence_end R c at ≡ none
  unfolding first_end
  first_end-none [] at h c m = absurd m
  first_end-none (x ∷ cs) at h c (inl e) =
      subst (λ y. active_occurrence_end R y at ≡ none) e (ground arith)
  first_end-none (x ∷ cs) at h c (inr m) = first_end-none cs at (ground arith) c m

  abbrev candidates : Evaluator R → String → BlackoutWindow → List (CachedWindow R)
  candidates e t w = with_id R w.id e.globals ++ with_id R w.id (windows_of R t e.per_target)

  candidates-applicable :
      (e : Evaluator R) (t : String) (w : BlackoutWindow) (c : CachedWindow R)
      → In c (candidates e t w)
      → In c (applicable R e t)
  candidates-applicable e t w c m = elim (mem-append c (with_id R w.id e.globals) _ m) [
    | inl l ↦ mem-append_left c e.globals _ (mem_of_with_id w.id c e.globals l)
    | inr r ↦ mem-append_right c e.globals _ (mem_of_with_id w.id c (windows_of R t e.per_target) r)
  ]

  applicable-candidates :
      (e : Evaluator R) (t : String) (w : BlackoutWindow) (c : CachedWindow R)
      → c.window.id ≡ w.id
      → In c (applicable R e t)
      → In c (candidates e t w)
  applicable-candidates e t w c k m = elim (mem-append c e.globals _ m) [
    | inl l ↦ mem-append_left c (with_id R w.id e.globals) _ (mem-with_id w.id c e.globals k l)
    | inr r ↦
        mem-append_right c (with_id R w.id e.globals) _
          (mem-with_id w.id c (windows_of R t e.per_target) k r)
  ]

  -- The fallback of one second is never taken: the active window itself is a candidate.
  window_end-candidate :
      (e : Evaluator R) (t : String) (at end : Time)
      → window_end R e t at ≡ some end
      → (c : CachedWindow R) × In c (applicable R e t) × (active_occurrence_end R c at ≡ some end)
  unfolding window_end find_active_end
  window_end-candidate e t at end h = elim (Option-cases (active_window R e t at)) [
    | inl idle ↦ absurd (ground arith)
    | inr (w, busy) ↦ elim (Option-cases (first_end R (candidates e t w) at)) [
      | inr (y, found) ↦
          let (c, m, k) = first_end-some (candidates e t w) at y found in
          let same : y ≡ end = ground arith in (c, candidates-applicable e t w c m, k ∙ rw same)
      | inl missing ↦
          let (c, m, k, hit) =
            first_active-some R (applicable R e t) at w
              (sym (active_window-applicable R e t at) ∙ busy) in
          let gone =
            first_end-none (candidates e t w) at missing c
              (applicable-candidates e t w c (rw k) m) in
          absurd (ground (arith, active_occurrence_end-none R c at gone))
    ]
  ]

module _ (R : RuleLib) (L : RuleLaws R) where
  -- Where no window that applies to the target lasts longer than seven days, the end that is reported lies ahead, the target stays
  -- inside a blackout at every moment before it, and there is an end whenever a window is active.
  pub window_end_lem :
      (e : Evaluator R) (t : String) (at : Time)
      → AllShort R (applicable R e t)
      → ((end : Time)
          → window_end R e t at ≡ some end
          → (at < end) × ((u : Time) → at ≤ u → u < end → active_window R e t u ≢ none))
        × (window_end R e t at ≡ none → active_window R e t at ≡ none)
  unfolding window_end
  window_end_lem e t at short = (
    λ end h.
        let (c, m, k) = window_end-candidate R e t at end h in
        let (o, occ, a, b, length_eq) = active_occurrence_end-some R L c at end k in
        (
          b,
          λ u le lt idle.
              (active_window_lem R L e t u short).1 idle c m
                (o, occ, omega arith, subst (λ x. u < x) length_eq lt),
        ),
    λ h. ground arith,
  )
