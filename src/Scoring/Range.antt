-- ===== src/Scoring/Range.antt =====
-- internal/scoring/score.go: the range and the value of the score.
use Prim.Native.Nat.{◌^◌, ◌%◌, ◌<◌}
use surfbot_agent.Base.{ℕ, leb, Bool-cases, inl, inr, ◌+◌, ◌*◌, ◌-◌, ◌≡◌, ◌≤◌, ◌∙◌, ap, arith}
use surfbot_agent.Base.Int.{ℤ, pos, negsuc, sub_ℕ, ◌-ℤ◌, ◌*ℤ◌, ◌≤ℤ◌, wrap_int}
use surfbot_agent.Scoring.{Severity, critical, high, medium, low, compute_security_score, clamp}

-- For any counts the score lies between 0 and 100.
pub compute_security_score_range :
    (counts : Severity → ℤ)
    → (pos 0 ≤ℤ (compute_security_score counts).0) × ((compute_security_score counts).0 ≤ℤ pos 100)
unfolding compute_security_score
compute_security_score_range counts = ground arith

times_pos : (a b : ℕ) → pos a *ℤ pos b ≡ pos (a * b)
unfolding ◌*ℤ◌
times_pos a b = ground arith

wrap_small : (n : ℕ) → n < 2 ^ 63 → wrap_int (pos n) ≡ pos n
unfolding wrap_int
wrap_small n h = let same : n % 2 ^ 64 ≡ n = omega arith in ground arith

wrap_small_neg : (n : ℕ) → n < 2 ^ 63 → wrap_int (negsuc n) ≡ negsuc n
unfolding wrap_int
wrap_small_neg n h = let same : n % 2 ^ 64 ≡ n = omega arith in ground arith

-- 100 less a penalty.
abbrev left : ℕ → ℤ
left k = sub_ℕ 100 k

wrap_left : (k : ℕ) → k < 2 ^ 63 → wrap_int (left k) ≡ left k
wrap_left k h = elim (Bool-cases (leb k 100)) [
  | inl low_enough ↦ rw low_enough (wrap_small (100 - k) (omega arith))
  | inr past ↦ rw past (wrap_small_neg (k - 100 - 1) (omega arith))
]

left_less : (k p : ℕ) → left k -ℤ pos p ≡ left (k + p)
unfolding ◌-ℤ◌
left_less k p = ground arith

-- A round of the loop whose values fit.
round_left :
    (k c w : ℕ)
    → k + c * w < 2 ^ 63
    → wrap_int (left k -ℤ wrap_int (pos c *ℤ pos w)) ≡ left (k + c * w)
round_left k c w h =
    let fits : c * w < 2 ^ 63 = omega arith in
    ap (λ p. wrap_int (left k -ℤ p)) (ap wrap_int (times_pos c w) ∙ wrap_small (c * w) fits)
    ∙ ap wrap_int (left_less k (c * w))
    ∙ wrap_left (k + c * w) h

clamp-left : (k : ℕ) → clamp (left k) ≡ pos (100 - k)
unfolding clamp
clamp-left k = ground arith

abbrev pub penalties : (Severity → ℕ) → ℕ
penalties counts = counts critical * 25 + counts high * 10 + counts medium * 3 + counts low

-- For natural counts whose weighted sum fits an int, the score is 100 less that sum, and 0 where the sum passes 100.
pub compute_security_score-of_counts :
    (counts : Severity → ℕ)
    → penalties counts < 2 ^ 63
    → (compute_security_score (λ s. pos (counts s))).0 ≡ pos (100 - penalties counts)
unfolding compute_security_score
compute_security_score-of_counts counts h =
    let c = counts critical in
    let h' = counts high in
    let m = counts medium in
    let l = counts low in
    let with_low = λ (z : ℤ). wrap_int (z -ℤ wrap_int (pos l *ℤ pos 1)) in
    let with_medium = λ (z : ℤ). with_low (wrap_int (z -ℤ wrap_int (pos m *ℤ pos 3))) in
    let with_high = λ (z : ℤ). with_medium (wrap_int (z -ℤ wrap_int (pos h' *ℤ pos 10))) in
    ap clamp (
      ap with_high (round_left 0 c 25 (omega (arith, h)))
      ∙ ap with_medium (round_left (0 + c * 25) h' 10 (omega (arith, h)))
      ∙ ap with_low (round_left (0 + c * 25 + h' * 10) m 3 (omega (arith, h)))
      ∙ round_left (0 + c * 25 + h' * 10 + m * 3) l 1 (omega (arith, h)))
    ∙ clamp-left (0 + c * 25 + h' * 10 + m * 3 + l * 1)
    ∙ ap (λ k. pos (100 - k)) (omega arith)

-- More findings never raise the score, as long as the weighted sum fits an int.
pub compute_security_score_antitone :
    (c d : Severity → ℕ)
    → ((s : Severity) → c s ≤ d s)
    → penalties d < 2 ^ 63
    → (compute_security_score (λ s. pos (d s))).0 ≤ℤ (compute_security_score (λ s. pos (c s))).0
compute_security_score_antitone c d h fits =
    rw
      (compute_security_score-of_counts c
        (omega (arith, fits, h critical, h high, h medium, h low)))
      (rw (compute_security_score-of_counts d fits)
        (omega (arith, h critical, h high, h medium, h low)))
