-- ===== src/Sched/Blackout/Coverage.antt =====
-- internal/daemon/intervalsched/blackout.go: one window at one moment, against its occurrences.
use surfbot_agent.Base.{
  ℕ, ◌+◌, ◌-◌, ◌≤◌, ◌<◌, ◌≡◌, ◌↔◌, Bool, true, false, ◌&&◌, none, some, List, [], ◌∷◌, arith, ltb,
  leb, Bool-cases, Option-cases, inl, inr, In, subst, sym,
}
use surfbot_agent.Model.{Time}
use surfbot_agent.Sched.Rules.{RuleLib, RuleLaws}
use surfbot_agent.Sched.Blackout.{
  CachedWindow, duration, covering, covering_start, occurrence_covers, active_occurrence_end,
  blackout_horizon_past,
}

abbrev covers : ℕ → Time → Time → Bool
covers dur at t = leb t at && ltb at (t + dur)

covering-some :
    (dur : ℕ) (at : Time) (ts : List Time) (t : Time)
    → covering dur at ts ≡ some t
    → In t ts × (t ≤ at) × (at < t + dur)
unfolding covering
covering-some dur at [] t h = cc
covering-some dur at (x ∷ ts) t h = elim (Bool-cases (covers dur at x)) [
  | inl hit ↦ let e : x ≡ t = ground arith in (inl e, ground arith, ground arith)
  | inr miss ↦ let (m, a, b) = covering-some dur at ts t (ground arith) in (inr m, a, b)
]

covering-none :
    (dur : ℕ) (at : Time) (ts : List Time)
    → covering dur at ts ≡ none
    → (t : Time) → In t ts
    → t ≤ at
    → at < t + dur
    → ⊥
unfolding covering
covering-none dur at [] h t m a b = absurd m
covering-none dur at (x ∷ ts) h t (inl e) a b = ground arith
covering-none dur at (x ∷ ts) h t (inr m) a b = covering-none dur at ts (ground arith) t m a b

module _ (R : RuleLib) where
  pub active_occurrence_end-none :
      (c : CachedWindow R) (at : Time)
      → active_occurrence_end R c at ≡ none
      → occurrence_covers R c at ≡ false
  unfolding active_occurrence_end occurrence_covers
  active_occurrence_end-none c at h = ground arith

module _ (R : RuleLib) (L : RuleLaws R) where
  open L use {Occurs, between_iff}

  -- An occurrence of the window, [start, start + duration), contains the moment.
  abbrev pub Covers : CachedWindow R → Time → Type 0
  Covers c at = (o : Time) × Occurs c.rule o × (o ≤ at) × (at < o + duration R c)

  covering_start-Covers :
      (c : CachedWindow R) (at o : Time)
      → covering_start R c at ≡ some o
      → Occurs c.rule o × (o ≤ at) × (at < o + duration R c)
  unfolding covering_start
  covering_start-Covers c at o h =
      let lo = at - blackout_horizon_past in
      let e : covering (duration R c) at (R.between c.rule lo (at + 1) true) ≡ some o =
        ground arith in
      let (m, a, b) = covering-some (duration R c) at _ o e in
      (((between_iff c.rule lo (at + 1) o).0 m).0, a, b)

  -- Within the cap of seven days the scan back misses no occurrence.
  covering_start-none :
      (c : CachedWindow R) (at : Time)
      → duration R c ≤ blackout_horizon_past
      → covering_start R c at ≡ none
      → ¬ Covers c at
  unfolding covering_start
  covering_start-none c at short h (o, occ, a, b) =
      let lo = at - blackout_horizon_past in
      let e : covering (duration R c) at (R.between c.rule lo (at + 1) true) ≡ none =
        ground arith in
      covering-none (duration R c) at _ e o
        ((between_iff c.rule lo (at + 1) o).1 (occ, omega arith, omega arith)) a b

  -- A window that lasts at most seven days is found active exactly while one of its occurrences
  -- lasts, the first instant included and the last excluded.
  pub occurrence_covers_iff :
      (c : CachedWindow R) (at : Time)
      → duration R c ≤ blackout_horizon_past
      → (occurrence_covers R c at ≡ true) ↔ Covers c at
  unfolding occurrence_covers
  occurrence_covers_iff c at short = elim (Option-cases (covering_start R c at)) [
    | inl e ↦ (λ h. cc, λ k. absurd (covering_start-none c at short e k))
    | inr (o, e) ↦ (
      λ h. let (occ, a, b) = covering_start-Covers c at o e in (o, occ, a, b),
      λ k. rw (e, occurrence_covers),
    )
  ]

  -- The end that is reported lies ahead, and belongs to an occurrence that covers the moment.
  pub active_occurrence_end-some :
      (c : CachedWindow R) (at end : Time)
      → active_occurrence_end R c at ≡ some end
      → (o : Time) × Occurs c.rule o × (o ≤ at) × (at < end) × (end ≡ o + duration R c)
  unfolding active_occurrence_end
  active_occurrence_end-some c at end h = elim (Option-cases (covering_start R c at)) [
    | inl e ↦ absurd (ground arith)
    | inr (o, e) ↦
        let (occ, a, b) = covering_start-Covers c at o e in
        let e' : end ≡ o + duration R c = ground arith in
        (o, occ, a, subst (λ x. at < x) (sym e') b, e')
  ]
