-- ===== src/Sched/Expander/Boundary.antt =====
-- internal/daemon/intervalsched/rrule_expand.go: an occurrence at the very end of a blackout.
use native.Mathlib.Nat.{add-zero}
use surfbot_agent.Base.{ℕ, suc, ◌≡◌, refl, ap, ◌∙◌, String, true, false, Option, some}
use surfbot_agent.Base.Int.{pos_part}
use surfbot_agent.Model.{Time, Schedule, Template, ScheduleDefaults, ok}
use surfbot_agent.Sched.Rules.{RuleLib}
use surfbot_agent.Sched.Expander.{
  Blackouts, Random, next_jitter, rule_of, skip_loop, first_candidate, compute_next_run_at,
  max_blackout_skip_iterations,
}

module _ (R : RuleLib) (G : Random) (B : Blackouts) where
  no_jitter :
      (d : ScheduleDefaults) (g : G.State)
      → pos_part d.jitter_seconds ≡ 0
      → next_jitter G d g ≡ (0, g)
  unfolding next_jitter
  no_jitter d g h = rw h refl

  stop_at :
      (k : ℕ) (rule : R.Rule) (d : ScheduleDefaults) (t : String) (c : Time) (g : G.State)
      → B.active t c ≡ false
      → (skip_loop R G B (suc k) rule d t c g).0 ≡ ok (some c)
  unfolding skip_loop
  stop_at k rule d t c g free = rw (free, skip_loop) refl

  skip_once :
      (k : ℕ) (rule : R.Rule) (d : ScheduleDefaults) (t : String) (c end n : Time) (g : G.State)
      → pos_part d.jitter_seconds ≡ 0
      → B.active t c ≡ true
      → B.window_end t c ≡ some end
      → R.after rule end false ≡ some n
      → (skip_loop R G B (suc k) rule d t c g) ≡ skip_loop R G B k rule d t n g
  unfolding skip_loop
  skip_once k rule d t c end n g j busy e next =
      rw (busy, e, next, no_jitter d g j, skip_loop)
        (ap (λ z. skip_loop R G B k rule d t z g) (add-zero n))

  start_at :
      (rule : R.Rule) (d : ScheduleDefaults) (t : String) (now c : Time) (g : G.State)
      → pos_part d.jitter_seconds ≡ 0
      → R.after rule now false ≡ some c
      → first_candidate R G B rule d t now g
        ≡ skip_loop R G B max_blackout_skip_iterations rule d t c g
  unfolding first_candidate
  start_at rule d t now c g j first =
      rw (first, no_jitter d g j, first_candidate)
        (ap (λ z. skip_loop R G B max_blackout_skip_iterations rule d t z g) (add-zero c))

  -- Where the first slot falls into a blackout, the search goes on strictly after the blackout's end:
  -- without jitter the result is the occurrence `n` that follows the end, where the target is free.
  pub compute_next_run_at-past_end :
      (s : Schedule) (tmpl : Option Template) (d : ScheduleDefaults) (start now : Time)
      (g : G.State) (rule : R.Rule) (c end n : Time)
      → pos_part d.jitter_seconds ≡ 0
      → rule_of R s tmpl d start ≡ ok rule
      → R.after rule now false ≡ some c
      → B.active s.target_id c ≡ true
      → B.window_end s.target_id c ≡ some end
      → R.after rule end false ≡ some n
      → B.active s.target_id n ≡ false
      → (compute_next_run_at R G B s tmpl d start now g).0 ≡ ok (some n)
  unfolding compute_next_run_at
  compute_next_run_at-past_end s tmpl d start now g rule c end n j built first busy e next free =
      rw (built, compute_next_run_at)
        (ap (λ r. r.0) (start_at rule d s.target_id now c g j first)
          ∙ ap (λ r. r.0) (skip_once 99 rule d s.target_id c end n g j busy e next)
          ∙ stop_at 98 rule d s.target_id n g free)
