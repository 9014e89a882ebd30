-- ===== src/Scoring.antt =====
-- internal/scoring/score.go: the security score from the counts by severity.
-- Counts are Go ints: products and differences wrap around.
pub mod Range
use surfbot_agent.Base.{ℕ, Bool, List, [], ◌∷◌, if◌then◌else◌}
use surfbot_agent.Base.Int.{ℤ, pos, ◌-ℤ◌, ◌*ℤ◌, ltb_ℤ, wrap_int}

-- internal/model/finding.go
pub data Severity : Type 0 where
  critical high medium low info : Severity

pub record Component : Type 0 where
  pub severity : Severity
  pub count : ℤ
  pub weight : ℤ
  pub penalty : ℤ

abbrev pub weights : List (Severity × ℤ)
weights = (critical, pos 25) ∷ (high, pos 10) ∷ (medium, pos 3) ∷ (low, pos 1) ∷ []

-- The loop over the weights, from the score so far.
unfoldable pub score_loop : (Severity → ℤ) → List (Severity × ℤ) → ℤ → ℤ × List Component
score_loop counts [] score = (score, [])
score_loop counts ((sev, weight) ∷ ws) score =
    let count = counts sev in
    let penalty = wrap_int (count *ℤ weight) in
    let (final, breakdown) = score_loop counts ws (wrap_int (score -ℤ penalty)) in
    (
      final,
      if ltb_ℤ (pos 0) count
          then record { severity = sev; count = count; weight = weight; penalty = penalty }
            ∷ breakdown
          else breakdown,
    )

unfoldable pub clamp : ℤ → ℤ
clamp score =
    let raised : ℤ = if ltb_ℤ score (pos 0) then pos 0 else score in
    if ltb_ℤ (pos 100) raised then pos 100 else raised

unfoldable pub compute_security_score : (Severity → ℤ) → ℤ × List Component
unfolding score_loop clamp
compute_security_score counts =
    let (score, breakdown) = score_loop counts weights (pos 100) in (clamp score, breakdown)
