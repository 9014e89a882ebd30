-- ===== src/Sched/Expander/Slots.antt =====
-- internal/daemon/intervalsched/rrule_expand.go: which slot is chosen, and which are passed over.
use native.Mathlib.Nat.{add-zero}
use surfbot_agent.Base.{
  ℕ, zero, suc, ◌+◌, ◌≤◌, ◌<◌, ◌≡◌, refl, sym, subst, ◌∙◌, ◌⊎◌, inl, inr, true, false, Option, none,
  some, String, arith, ltb, Bool-cases, Option-cases,
}
use surfbot_agent.Base.Int.{pos_part}
use surfbot_agent.Model.{Time, second, Schedule, Template, ScheduleDefaults, Result, ok, err}
use surfbot_agent.Sched.Rules.{RuleLib, RuleLaws}
use surfbot_agent.Sched.Expander.{
  Blackouts, BlackoutLaws, Random, next_jitter, rule_of, skip_loop, first_candidate,
  compute_next_run_at, max_blackout_skip_iterations,
}

module _ (R : RuleLib) (L : RuleLaws R) (G : Random) (B : Blackouts) (K : BlackoutLaws B) where
  open K use {end_ahead, active_until, end_given}
  open L use {Occurs, after_some, after_none}

  -- What is asked of a slot: outside every blackout, and not before the candidate.
  Free : String → Time → Result (Option Time) → Type 0
  Free t c (ok (some x)) = (B.active t x ≡ false) × (c ≤ x)
  Free t c (ok none) = Unit {0}
  Free t c (err e) = Unit {0}

  Free-earlier :
      (t : String) (c c' : Time) (r : Result (Option Time)) → c ≤ c' → Free t c' r → Free t c r
  unfolding Free
  Free-earlier t c c' (ok (some x)) h (f, l) = (f, omega arith)
  Free-earlier t c c' (ok none) h f = tt
  Free-earlier t c c' (err e) h f = tt

  skip_loop-Free :
      (n : ℕ) (rule : R.Rule) (d : ScheduleDefaults) (t : String) (c : Time) (g : G.State)
      → Free t c (skip_loop R G B n rule d t c g).0
  unfolding skip_loop Free
  skip_loop-Free zero rule d t c g = tt
  skip_loop-Free (suc n) rule d t c g = elim (Bool-cases (B.active t c)) [
    | inr free ↦ rw (free, skip_loop) (free, omega arith)
    | inl busy ↦ elim (Option-cases (B.window_end t c)) [
      | inl none_given ↦
          rw (busy, none_given, skip_loop)
            (Free-earlier t c (c + second) _ (omega arith)
              (skip_loop-Free n rule d t (c + second) g))
      | inr (end, e) ↦ elim (Option-cases (R.after rule end false)) [
        | inl exhausted ↦ rw (busy, e, exhausted, skip_loop) tt
        | inr (next, f) ↦
            let later = (after_some rule end next f).1 in
            let ahead = end_ahead t c end e in
            let (jitter, g') = next_jitter G d g in
            rw (busy, e, f, skip_loop)
              (Free-earlier t c (next + jitter) _ (omega arith)
                (skip_loop-Free n rule d t (next + jitter) g'))
      ]
    ]
  ]

  first_candidate-Free :
      (rule : R.Rule) (d : ScheduleDefaults) (t : String) (now : Time) (g : G.State)
      → Free t (now + 1) (first_candidate R G B rule d t now g).0
  unfolding first_candidate Free
  first_candidate-Free rule d t now g = elim (Option-cases (R.after rule now false)) [
    | inl never ↦ rw (never, first_candidate) tt
    | inr (first, e) ↦
        let later = (after_some rule now first e).1 in
        let (jitter, g') = next_jitter G d g in
        rw (e, first_candidate)
          (Free-earlier t (now + 1) (first + jitter) _ (omega arith)
            (skip_loop-Free max_blackout_skip_iterations rule d t (first + jitter) g'))
  ]

  -- Under the laws of the rule library and the promises of the blackout evaluator, a fire time that is
  -- computed lies in the future and outside every blackout of its target, jitter included.
  pub compute_next_run_at_free :
      (s : Schedule) (tmpl : Option Template) (d : ScheduleDefaults) (start now : Time)
      (g : G.State) (x : Time)
      → (compute_next_run_at R G B s tmpl d start now g).0 ≡ ok (some x)
      → (now < x) × (B.active s.target_id x ≡ false)
  unfolding compute_next_run_at Free
  compute_next_run_at_free s tmpl d start now g x h = read (rule_of R s tmpl d start) h
    where
      taken :
          (r : Result (Option Time))
          → Free s.target_id (now + 1) r
          → r ≡ ok (some x)
          → (now < x) × (B.active s.target_id x ≡ false)
      taken (ok (some y)) f e =
          let same : y ≡ x = ground arith in
          (
            subst (λ z. now < z) same (omega (arith, f.1)),
            subst (λ z. B.active s.target_id z ≡ false) same f.0,
          )
      taken (ok none) f e = ground arith
      taken (err i) f e = ground arith

      read :
          (r : Result R.Rule)
          → (elim r as (λ x. Result (Option Time) × G.State) [
            | err e ↦ (err e, g)
            | ok rule ↦ first_candidate R G B rule d s.target_id now g
          ]).0
            ≡ ok (some x)
          → (now < x) × (B.active s.target_id x ≡ false)
      read (ok rule) e = taken _ (first_candidate-Free rule d s.target_id now g) e
      read (err i) e = ground arith

  -- An occurrence that may be passed over: inside a blackout, or at the very end of one.
  abbrev pub Passed : String → Time → Type 0
  Passed t o = (B.active t o ≡ true) ⊎ ((c : Time) × (B.window_end t c ≡ some o))

  -- Without jitter: the slot is an occurrence, and every earlier one that is still to come may be
  -- passed over; with no slot at all, every one may.
  Exact : R.Rule → String → Time → Result (Option Time) → Type 0
  Exact rule t now (ok (some x)) =
      Occurs rule x × ((o : Time) → Occurs rule o → now < o → o < x → Passed t o)
  Exact rule t now (ok none) = (o : Time) → Occurs rule o → now < o → Passed t o
  Exact rule t now (err e) = Unit {0}

  no_jitter :
      (d : ScheduleDefaults) (g : G.State)
      → pos_part d.jitter_seconds ≡ 0
      → next_jitter G d g ≡ (0, g)
  unfolding next_jitter
  no_jitter d g h = rw h refl

  -- Past the end of the window that holds the candidate, up to the next occurrence.
  Passed-on :
      (rule : R.Rule) (t : String) (now c end : Time)
      → B.active t c ≡ true
      → B.window_end t c ≡ some end
      → ((o : Time) → Occurs rule o → now < o → o < c → Passed t o)
      → (o : Time) → Occurs rule o
      → now < o
      → (end < o → ⊥)
      → Passed t o
  Passed-on rule t now c end busy e before o occ future early = elim (Bool-cases (ltb o c)) [
    | inl earlier ↦ before o occ future (ground arith)
    | inr from_here ↦ elim (Bool-cases (ltb o end)) [
      | inl inside ↦ inl (active_until t c end o e (ground arith) (ground arith))
      | inr at_end ↦
          let same : end ≡ o = ground arith in
          inr (c, subst (λ z. B.window_end t c ≡ some z) same e)
    ]
  ]

  skip_loop-Exact :
      (n : ℕ) (rule : R.Rule) (d : ScheduleDefaults) (t : String) (now c : Time) (g : G.State)
      → pos_part d.jitter_seconds ≡ 0
      → Occurs rule c
      → ((o : Time) → Occurs rule o → now < o → o < c → Passed t o)
      → Exact rule t now (skip_loop R G B n rule d t c g).0
  unfolding skip_loop Exact
  skip_loop-Exact zero rule d t now c g j occ before = tt
  skip_loop-Exact (suc n) rule d t now c g j occ before = elim (Bool-cases (B.active t c)) [
    | inr free ↦ rw (free, skip_loop) (occ, before)
    | inl busy ↦ elim (Option-cases (B.window_end t c)) [
      | inl none_given ↦ absurd (end_given t c busy none_given)
      | inr (end, e) ↦ elim (Option-cases (R.after rule end false)) [
        | inl exhausted ↦
            rw (busy, e, exhausted, skip_loop)
              λ o occ' future.
                Passed-on rule t now c end busy e before o occ' future
                  (λ l. omega (arith, after_none rule end exhausted o occ'))
        | inr (next, f) ↦
            let (occ', later, first) = after_some rule end next f in
            rw (busy, e, f, no_jitter d g j, skip_loop)
              (subst (λ z. Exact rule t now (skip_loop R G B n rule d t z g).0)
                (sym (add-zero next))
                (skip_loop-Exact n rule d t now next g j occ' (λ o oc future l.
                  Passed-on rule t now c end busy e before o oc future
                    (λ k. omega (arith, first o oc k)))))
      ]
    ]
  ]

  first_candidate-Exact :
      (rule : R.Rule) (d : ScheduleDefaults) (t : String) (now : Time) (g : G.State)
      → pos_part d.jitter_seconds ≡ 0
      → Exact rule t now (first_candidate R G B rule d t now g).0
  unfolding first_candidate Exact
  first_candidate-Exact rule d t now g j = elim (Option-cases (R.after rule now false)) [
    | inl never ↦
        rw (never, first_candidate)
          λ o occ future. absurd (omega (arith, after_none rule now never o occ))
    | inr (first, e) ↦
        let (occ, later, least) = after_some rule now first e in
        rw (e, no_jitter d g j, first_candidate)
          (subst
            (λ z. Exact rule t now (skip_loop R G B max_blackout_skip_iterations rule d t z g).0)
            (sym (add-zero first))
            (skip_loop-Exact max_blackout_skip_iterations rule d t now first g j occ
              (λ o oc future l. absurd (omega (arith, least o oc future)))))
  ]

  -- Under the laws of the rule library and the promises of the blackout evaluator, without jitter and for
  -- a schedule whose rule is built: the fire time is an occurrence of the rule, and each occurrence between
  -- now and it, or each still to come if there is no fire time, is inside a blackout or at the end of one.
  pub compute_next_run_at_exact :
      (s : Schedule) (tmpl : Option Template) (d : ScheduleDefaults) (start now : Time)
      (g : G.State) (rule : R.Rule)
      → pos_part d.jitter_seconds ≡ 0
      → rule_of R s tmpl d start ≡ ok rule
      → ((x : Time)
          → (compute_next_run_at R G B s tmpl d start now g).0 ≡ ok (some x)
          → Occurs rule x × ((o : Time) → Occurs rule o → now < o → o < x → Passed s.target_id o))
        × ((compute_next_run_at R G B s tmpl d start now g).0 ≡ ok none
            → (o : Time) → Occurs rule o
            → now < o
            → Passed s.target_id o)
  unfolding compute_next_run_at Exact
  compute_next_run_at_exact s tmpl d start now g rule j built =
      let computed : (compute_next_run_at R G B s tmpl d start now g).0
          ≡ (first_candidate R G B rule d s.target_id now g).0 =
        rw (built, compute_next_run_at) refl in
      let exact = first_candidate-Exact rule d s.target_id now g j in
      (
        λ x h. subst (Exact rule s.target_id now) (sym computed ∙ h) exact,
        λ h. subst (Exact rule s.target_id now) (sym computed ∙ h) exact,
      )
