-- ===== src/Detection/Breaker/Bounds.antt =====
-- internal/detection/breaker.go: the range of the concurrency cap.
use surfbot_agent.Base.{ℕ, ◌+◌, ◌*◌, ◌≤◌, ◌<◌, ◌≡◌, ◌⊎◌, List, [], ◌∷◌, arith, length, length-set}
use surfbot_agent.Base.Int.{ℤ}
use surfbot_agent.Detection.Breaker.{
  Breaker, Entry, Outcome, no_event, halved, restored, breaker_window, new_breaker, record_entry,
  record_result, react, adjust, after, inflight_cap, count_timeouts,
}

pub record IsSound (b : Breaker) : Type 0 where
  pub ring_length : length b.ring ≡ breaker_window
  pub pos_in_ring : b.pos < breaker_window
  pub filled_in_ring : b.filled ≤ breaker_window
  pub baseline : 1 ≤ b.original
  pub cap_above : b.cap ≤ b.original
  pub cap_below : (b.cap ≡ b.original) ⊎ (5 ≤ b.cap)

new_breaker-IsSound : (original : ℤ) → IsSound (new_breaker original)
unfolding new_breaker
new_breaker-IsSound original = ground arith

pub record_entry-IsSound : (b : Breaker) (x : Entry) → IsSound b → IsSound (record_entry b x)
unfolding record_entry
record_entry-IsSound b x s = ground (arith, length-set b.ring b.pos x)

adjust-IsSound : (b : Breaker) (t : ℕ) → IsSound b → IsSound (adjust b t).0
unfolding adjust
adjust-IsSound b t s = ground arith

react-IsSound : (b : Breaker) → IsSound b → IsSound (react b).0
unfolding react
react-IsSound b s = ground (arith, adjust-IsSound b (count_timeouts b) s)

-- Every recorded outcome keeps the ring at its size, the write position inside it, and the cap
-- at most the baseline and either the baseline or at least 5.
pub record_result-IsSound : (b : Breaker) (x : Entry) → IsSound b → IsSound (record_result b x).0
unfolding record_result
record_result-IsSound b x s = react-IsSound (record_entry b x) (record_entry-IsSound b x s)

pub after-IsSound : (original : ℤ) (h : List Entry) → IsSound (after original h)
unfolding after
after-IsSound original [] = new_breaker-IsSound original
after-IsSound original (x ∷ h) =
    record_result-IsSound (after original h) x (after-IsSound original h)

-- What a caller may conclude from the event that `recordResult` returns, for a breaker `b` that was
-- asked with `c`, its cap before the call.
abbrev pub Reported : ℕ → Breaker → Outcome → Type 0
Reported c b o =
    (o.old_cap ≡ c)
    × (o.new_cap ≡ inflight_cap b)
    × (o.event ≡ no_event → inflight_cap b ≡ c)
    × (o.event ≡ halved
        → (inflight_cap b < c) × (c ≤ 2 * inflight_cap b + 1) × (o.samples < 2 * o.timeouts))
    × (o.event ≡ restored
        → (c < inflight_cap b) × (inflight_cap b ≡ b.original) × (4 * o.timeouts < o.samples))

adjust-Reported : (b : Breaker) (t : ℕ) → Reported b.cap (adjust b t).0 (adjust b t).1
unfolding adjust inflight_cap
adjust-Reported b t = (
  ground arith,
  ground arith,
  ground arith,
  λ e. (ground arith, ground arith, ground arith),
  λ e. (ground arith, ground arith, ground arith),
)

react-Reported : (b : Breaker) → Reported b.cap (react b).0 (react b).1
unfolding react inflight_cap
react-Reported b = ground (arith, adjust-Reported b (count_timeouts b))

-- The caps returned are the ones before and after the call; without an event the cap stays, after
-- "halved" it is smaller and at least about half, with more than half of the window timed out, and
-- after "restored" it is back at the baseline, with less than a quarter timed out.
pub record_result-Reported :
    (b : Breaker) (x : Entry) → Reported b.cap (record_result b x).0 (record_result b x).1
unfolding record_result record_entry
record_result-Reported b x = react-Reported (record_entry b x)
