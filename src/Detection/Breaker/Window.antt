-- ===== src/Detection/Breaker/Window.antt =====
-- internal/detection/breaker.go: the ring buffer against the list of the last outcomes.
use mathlib.Core.List.{reverse, reverse-cons, reverse-append}
use surfbot_agent.Base.{
  ℕ, suc, ◌+◌, ◌*◌, ◌%◌, ◌≤◌, ◌≡◌, refl, sym, ap, ◌∙◌, ◌&&◌, Bool, length-set, List, [], ◌∷◌, ◌++◌,
  arith, length, take, drop, set, replicate, count_if, if◌then◌else◌, ltb, length-append,
  Bool-cases, inl, inr,
}
use surfbot_agent.Base.Rotate.{
  rot, drop-cons, rot-set, rot_all, take_snoc, take_all, count_if-take_padded, count_if-reverse,
  count_rot,
}
use surfbot_agent.Base.Int.{ℤ}
use surfbot_agent.Detection.Breaker.{
  Breaker, Entry, breaker_window, no_entry, new_breaker, record_entry, record_result, react, adjust,
  after, count_timeouts, halve, inflight_cap,
}
use surfbot_agent.Detection.Breaker.Bounds.{IsSound, after-IsSound, record_entry-IsSound}

-- The last outcomes, oldest first, with empty slots for those not seen yet.
abbrev recent : List Entry → List Entry
recent h = take breaker_window (h ++ replicate breaker_window no_entry)

-- The reference: the cap as a function of the whole history, newest first.
unfoldable pub timeouts_of_last : List Entry → ℕ
timeouts_of_last h = count_if (λ x. x.timed_out) (take breaker_window h)

unfoldable pub cap_after : ℕ → List Entry → ℕ
cap_after base [] = base
cap_after base (x ∷ h) =
    let c = cap_after base h in
    if ltb (length (x ∷ h)) breaker_window
    then c
    else if ltb breaker_window (2 * timeouts_of_last (x ∷ h)) && ltb 5 c
    then halve c
    else if ltb (4 * timeouts_of_last (x ∷ h)) breaker_window && ltb c base
    then base
    else c

-- The ring read from the write position is the window, oldest first.
record Shows (b : Breaker) (h : List Entry) : Type 0 where
  shown : rot b.pos b.ring ≡ reverse (recent h)
  seen : b.filled ≡ (if ltb (length h) breaker_window then length h else breaker_window)

recent_step :
    (h : List Entry) (x : Entry)
    → (y : Entry) × (recent h ≡ take 49 (h ++ replicate breaker_window no_entry) ++ y ∷ [])
recent_step h x =
    take_snoc (h ++ replicate breaker_window no_entry) 49
      (omega (arith, length-append h (replicate breaker_window no_entry)))

abbrev tail_or_nil : List Entry → List Entry
tail_or_nil [] = []
tail_or_nil (x ∷ xs) = xs

-- What stays in the ring when the oldest outcome is overwritten.
kept :
    (b : Breaker) (h : List Entry) (x : Entry)
    → IsSound b
    → Shows b h
    → drop (suc b.pos) b.ring ++ take b.pos b.ring
      ≡ reverse (take 49 (h ++ replicate breaker_window no_entry))
kept b h x s w =
    let (y, e) = recent_step h x in
    let (z, d) = drop-cons b.ring b.pos (omega (arith, s.pos_in_ring, s.ring_length)) in
    let w' = rw e at w.shown in
    let w'' =
      rw (reverse-append (take 49 (h ++ replicate breaker_window no_entry)) (y ∷ [])) at w' in
    ap tail_or_nil (rw d at w'')

rot_written :
    (b : Breaker) (x : Entry)
    → IsSound b
    → rot ((b.pos + 1) % breaker_window) (set b.ring b.pos x) ≡ rot (suc b.pos) (set b.ring b.pos x)
rot_written b x s = elim (Bool-cases (ltb (b.pos + 1) breaker_window)) [
  | inl inside ↦
      let onward : (b.pos + 1) % breaker_window ≡ suc b.pos = ground arith in
      ap (λ k. rot k (set b.ring b.pos x)) onward
  | inr wraps ↦
      let at_start : (b.pos + 1) % breaker_window ≡ 0 = ground arith in
      rw at_start
        (sym (rot_all (set b.ring b.pos x) (suc b.pos) (ground (arith, length-set b.ring b.pos x))))
]

record_entry-Shows :
    (b : Breaker) (h : List Entry) (x : Entry)
    → IsSound b
    → Shows b h
    → Shows (record_entry b x) (x ∷ h)
unfolding record_entry
record_entry-Shows b h x s w = record {
  shown =
      rot_written b x s
      ∙ rot-set b.ring b.pos x (omega (arith, s.pos_in_ring, s.ring_length))
      ∙ ap (λ l. l ++ x ∷ []) (kept b h x s w)
      ∙ sym (reverse-cons x (take 49 (h ++ replicate breaker_window no_entry)));
  seen = ground arith;
}

count_timeouts-Shows :
    (b : Breaker) (h : List Entry)
    → IsSound b
    → Shows b h
    → b.filled ≡ breaker_window
    → count_timeouts b ≡ timeouts_of_last h
unfolding count_timeouts timeouts_of_last
count_timeouts-Shows b h s w full =
    let timed_out : Entry → Bool = λ x. x.timed_out in
    ap (count_if timed_out) (take_all b.ring b.filled (omega (arith, s.ring_length)))
    ∙ sym (count_rot timed_out b.pos b.ring)
    ∙ ap (count_if timed_out) w.shown
    ∙ count_if-reverse timed_out (recent h)
    ∙ count_if-take_padded timed_out no_entry refl breaker_window breaker_window h

react_frame :
    (b : Breaker)
    → ((react b).0.ring ≡ b.ring)
      × ((react b).0.pos ≡ b.pos)
      × ((react b).0.filled ≡ b.filled)
      × ((react b).0.original ≡ b.original)
unfolding react adjust
react_frame b = (ground arith, ground arith, ground arith, ground arith)

after-Shows : (original : ℤ) (h : List Entry) → Shows (after original h) h
unfolding after new_breaker record_result
after-Shows original [] = record { shown = refl; seen = refl }
after-Shows original (x ∷ h) =
    let f = react_frame (record_entry (after original h) x) in
    let w =
      record_entry-Shows (after original h) h x (after-IsSound original h)
        (after-Shows original h) in
    record { shown = rw (f.0, f.1) w.shown; seen = rw (f.2) w.seen }

record_entry_frame :
    (b : Breaker) (x : Entry)
    → ((record_entry b x).cap ≡ b.cap) × ((record_entry b x).original ≡ b.original)
unfolding record_entry
record_entry_frame b x = (refl, refl)

after_baseline :
    (original : ℤ) (h : List Entry) → (after original h).original ≡ (new_breaker original).original
unfolding after record_result
after_baseline original [] = refl
after_baseline original (x ∷ h) =
    (react_frame (record_entry (after original h) x)).3
    ∙ (record_entry_frame (after original h) x).1
    ∙ after_baseline original h

-- The cap that `react` leaves, in terms of the window's timeouts.
react_cap :
    (b : Breaker) (t : ℕ)
    → b.filled ≤ breaker_window
    → (b.filled ≡ breaker_window → count_timeouts b ≡ t)
    → (react b).0.cap ≡ (
        if ltb b.filled breaker_window
        then b.cap
        else if ltb breaker_window (2 * t) && ltb 5 b.cap
        then halve b.cap
        else if ltb (4 * t) breaker_window && ltb b.cap b.original
        then b.original
        else b.cap)
unfolding react adjust
react_cap b t full h = ground arith

-- After any history of outcomes the concurrency cap is the one that the reference computes from the
-- last 50 outcomes of the history, step by step from the baseline; until 50 outcomes are in, it is
-- the baseline.
pub inflight_cap-cap_after :
    (original : ℤ) (h : List Entry)
    → inflight_cap (after original h) ≡ cap_after (new_breaker original).original h
unfolding inflight_cap cap_after after record_result
inflight_cap-cap_after original [] = unfold new_breaker in refl
inflight_cap-cap_after original (x ∷ h) =
    let s = after-IsSound original h in
    let b = record_entry (after original h) x in
    let s' = record_entry-IsSound (after original h) x s in
    let w = record_entry-Shows (after original h) h x s (after-Shows original h) in
    ground (
      arith,
      w.seen,
      s'.filled_in_ring,
      react_cap b (timeouts_of_last (x ∷ h)) s'.filled_in_ring
          (count_timeouts-Shows b (x ∷ h) s' w),
      record_entry_frame (after original h) x,
      after_baseline original h,
      inflight_cap-cap_after original h,
    )
