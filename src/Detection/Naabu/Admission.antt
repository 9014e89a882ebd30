-- ===== src/Detection/Naabu/Admission.antt =====
-- internal/detection/naabu.go, runScan: how the goroutines are admitted under the breaker's cap. `tryAdmit` adds
-- one to an atomic counter and takes it off again when the sum exceeds the cap, so a goroutine that is not
-- admitted is counted for a moment. The cap is read before the counter is changed.
use surfbot_agent.Base.{
  ℕ, ◌+◌, ◌-◌, ◌≤◌, ◌≡◌, refl, Bool, true, false, List, [], ◌∷◌, arith, if◌then◌else◌, leb, leb→le,
  Bool-cases, ◌∙◌, inl, inr,
}
use surfbot_agent.Base.Int.{ℤ}
use surfbot_agent.Detection.Breaker.{
  Breaker, Entry, new_breaker, inflight_cap, after, adjust, react, record_result, record_entry,
  count_timeouts,
}
use surfbot_agent.Detection.Breaker.Bounds.{after-IsSound}

-- The counter, and how many goroutines stand where: past `tryAdmit` and before `release`, and between the two
-- atomic operations of a `tryAdmit` that fails.
pub record Admission : Type 0 where
  pub inflight : ℕ
  pub admitted : ℕ
  pub backing_out : ℕ

abbrev pub idle : Admission
idle = record { inflight = 0; admitted = 0; backing_out = 0 }

-- The first atomic operation of `tryAdmit`, and its answer.
unfoldable pub try_admit : ℕ → Admission → Admission × Bool
try_admit cap s =
    if leb (s.inflight + 1) cap
    then (record s { inflight = s.inflight + 1; admitted = s.admitted + 1 }, true)
    else (record s { inflight = s.inflight + 1; backing_out = s.backing_out + 1 }, false)

-- The second, when the answer is false.
unfoldable pub back_out : Admission → Admission
back_out s = record s { inflight = s.inflight - 1; backing_out = s.backing_out - 1 }

unfoldable pub release : Admission → Admission
release s = record s { inflight = s.inflight - 1; admitted = s.admitted - 1 }

-- The states of a scan whose limit is `concurrency`: atomic operations of any goroutines in any order, each cap
-- that of the breaker after some results.
pub data Reached (concurrency : ℤ) : Admission → Type 0 where
  starts : Reached concurrency idle
  tries :
      {s : Admission} (h : List Entry)
      → Reached concurrency s
      → Reached concurrency (try_admit (inflight_cap (after concurrency h)) s).0
  backs_out :
      {s : Admission} → Reached concurrency s → 1 ≤ s.backing_out → Reached concurrency (back_out s)
  releases :
      {s : Admission} → Reached concurrency s → 1 ≤ s.admitted → Reached concurrency (release s)

le→leb : (a b : ℕ) → a ≤ b → leb a b ≡ true
le→leb a b h = ground arith

-- The limit that the breaker starts from.
abbrev pub limit : ℤ → ℕ
limit concurrency = (new_breaker concurrency).original

adjust_original : (b : Breaker) (t : ℕ) → (adjust b t).0.original ≡ b.original
unfolding adjust
adjust_original b t = ground arith

react_original : (b : Breaker) → (react b).0.original ≡ b.original
unfolding react
react_original b = ground (arith, adjust_original b (count_timeouts b))

after_original :
    (concurrency : ℤ) (h : List Entry) → (after concurrency h).original ≡ limit concurrency
unfolding after record_result record_entry
after_original concurrency [] = refl
after_original concurrency (x ∷ h) =
    react_original (record_entry (after concurrency h) x) ∙ after_original concurrency h

cap_bounds :
    (concurrency : ℤ) (h : List Entry)
    → (1 ≤ inflight_cap (after concurrency h))
      × (inflight_cap (after concurrency h) ≤ limit concurrency)
unfolding inflight_cap
cap_bounds concurrency h =
    let sound = after-IsSound concurrency h in
    ground (arith, after_original concurrency h, sound.baseline, sound.cap_above, sound.cap_below)

Counted : ℤ → Admission → Type 0
Counted concurrency s = (s.inflight ≡ s.admitted + s.backing_out) × (s.admitted ≤ limit concurrency)

try_admit-Counted :
    (concurrency : ℤ) (cap : ℕ) (s : Admission)
    → cap ≤ limit concurrency
    → Counted concurrency s
    → Counted concurrency (try_admit cap s).0
unfolding try_admit Counted
try_admit-Counted concurrency cap s low (count, bound) =
    elim (Bool-cases (leb (s.inflight + 1) cap)) [
      | inl fits ↦
          let room = leb→le (s.inflight + 1) cap fits in
          rw fits (omega (arith, count), omega (arith, room, low, count))
      | inr full ↦ rw full (omega (arith, count), bound)
    ]

Reached-Counted : (concurrency : ℤ) {s : Admission} → Reached concurrency s → Counted concurrency s
unfolding Counted back_out release
Reached-Counted concurrency Reached.starts = (refl, omega arith)
Reached-Counted concurrency (Reached.tries {s} h r) =
    let (low, high) = cap_bounds concurrency h in
    try_admit-Counted concurrency (inflight_cap (after concurrency h)) s high
      (Reached-Counted concurrency r)
Reached-Counted concurrency (Reached.backs_out {s} r some_back) =
    let (count, bound) = Reached-Counted concurrency r in (omega (arith, count), bound)
Reached-Counted concurrency (Reached.releases {s} r some_in) =
    let (count, bound) = Reached-Counted concurrency r in
    (omega (arith, count), omega (arith, bound))

-- Whatever order the goroutines' atomic operations have, and however the breaker moves its cap, no more than the
-- configured number of probes (at least 1) is ever past the admission, although the counter itself may exceed
-- it for a moment; and when no goroutine is past it or backing out, the next to try is admitted, so a
-- clamped scan goes on.
pub Reached-bounded :
    (concurrency : ℤ) (s : Admission)
    → Reached concurrency s
    → (s.admitted ≤ limit concurrency)
      × ((h : List Entry)
          → s.admitted ≡ 0
          → s.backing_out ≡ 0
          → (try_admit (inflight_cap (after concurrency h)) s).1 ≡ true)
unfolding Counted try_admit
Reached-bounded concurrency s r =
    let (count, bound) = Reached-Counted concurrency r in
    (
      bound,
      λ h out none_back.
          let (low, high) = cap_bounds concurrency h in
          let room : leb (s.inflight + 1) (inflight_cap (after concurrency h)) ≡ true =
            le→leb (s.inflight + 1) (inflight_cap (after concurrency h))
              (omega (arith, count, low)) in
          rw room refl,
    )
