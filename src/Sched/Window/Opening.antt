-- ===== src/Sched/Window/Opening.antt =====
-- internal/daemon/intervalsched/window.go, NextOpen: the first time at which the window is closed.
use surfbot_agent.Base.{
  ℕ, ◌≤◌, ◌<◌, ◌≡◌, ◌⊎◌, true, false, not, ◌||◌, ltb, ltb→lt, arith, Bool-cases, inl, inr,
}
use surfbot_agent.Model.{Time}
use surfbot_agent.Sched.Window.{TimeOfDay, Zone, Window, minutes, contains, next_open}
use surfbot_agent.Sched.Window.Clock.{IsTimeOfDay}

-- A location whose clocks are not changed between a time and the day after it, as the source uses it: `date`
-- gives a time at which the clock shows the hour and minute asked for; a time of today that the clock has not
-- reached lies ahead, and until then the clock runs up to it; tomorrow's lies ahead, and until then the clock
-- runs on past the present minute or, past midnight, up to it.
pub record IsRegular (z : Zone) : Type 0 where
  pub in_day : (t : Time) → z.minute_of_day t < 1440
  pub shows :
      (t : Time) (d : ℕ) (c : TimeOfDay)
      → IsTimeOfDay c
      → z.minute_of_day (z.date t d c) ≡ minutes c
  pub today_ahead :
      (t : Time) (c : TimeOfDay) → IsTimeOfDay c → z.minute_of_day t < minutes c → t < z.date t 0 c
  pub runs_today :
      (t u : Time) (c : TimeOfDay)
      → IsTimeOfDay c
      → z.minute_of_day t < minutes c
      → t ≤ u
      → u < z.date t 0 c
      → (z.minute_of_day t ≤ z.minute_of_day u) × (z.minute_of_day u < minutes c)
  pub tomorrow_ahead : (t : Time) (c : TimeOfDay) → t < z.date t 1 c
  pub runs_on :
      (t u : Time) (c : TimeOfDay)
      → IsTimeOfDay c
      → t ≤ u
      → u < z.date t 1 c
      → (z.minute_of_day t ≤ z.minute_of_day u) ⊎ (z.minute_of_day u < minutes c)

-- What the answer has to be.
Opens : Window → Time → Time → Type 0
Opens w t next =
    (t ≤ next) × (contains w next ≡ false) × ((u : Time) → t ≤ u → u < next → contains w u ≡ true)

module _ (w : Window) (t : Time) (on : w.enabled ≡ true) (r : IsRegular w.zone)
    (e : IsTimeOfDay w.end) where
  closed_at_end :
      (next : Time) → w.zone.minute_of_day next ≡ minutes w.end → contains w next ≡ false
  unfolding contains
  closed_at_end next h = ground arith

  Opens-today :
      w.zone.minute_of_day t < minutes w.end
      → ((u : Time)
          → w.zone.minute_of_day t ≤ w.zone.minute_of_day u
          → w.zone.minute_of_day u < minutes w.end
          → contains w u ≡ true)
      → Opens w t (w.zone.date t 0 w.end)
  unfolding Opens
  Opens-today before inside =
      let ahead = r.today_ahead t w.end e before in
      (
        omega (arith, ahead),
        closed_at_end (w.zone.date t 0 w.end) (r.shows t 0 w.end e),
        λ u from upto.
            let (low, high) = r.runs_today t u w.end e before from upto in inside u low high,
      )

  Opens-tomorrow :
      ((u : Time)
        → (w.zone.minute_of_day t ≤ w.zone.minute_of_day u)
          ⊎ (w.zone.minute_of_day u < minutes w.end)
        → contains w u ≡ true)
      → Opens w t (w.zone.date t 1 w.end)
  unfolding Opens
  Opens-tomorrow inside =
      let ahead = r.tomorrow_ahead t w.end in
      (
        omega (arith, ahead),
        closed_at_end (w.zone.date t 1 w.end) (r.shows t 1 w.end e),
        λ u from upto. inside u (r.runs_on t u w.end e from upto),
      )

  inside_same_day :
      ltb (minutes w.start) (minutes w.end) ≡ true
      → contains w t ≡ true
      → (w.zone.minute_of_day t < minutes w.end)
        × ((u : Time)
            → w.zone.minute_of_day t ≤ w.zone.minute_of_day u
            → w.zone.minute_of_day u < minutes w.end
            → contains w u ≡ true)
  unfolding contains
  inside_same_day order c = (ground arith, λ u low high. ground arith)

  inside_tail :
      ltb (minutes w.start) (minutes w.end) ≡ false
      → contains w t ≡ true
      → (u : Time) → w.zone.minute_of_day u < minutes w.end
      → contains w u ≡ true
  unfolding contains
  inside_tail order c u high = ground arith

  inside_evening :
      ltb (minutes w.start) (minutes w.end) ≡ false
      → ltb (w.zone.minute_of_day t) (minutes w.end) ≡ false
      → contains w t ≡ true
      → (u : Time) → w.zone.minute_of_day t ≤ w.zone.minute_of_day u
      → contains w u ≡ true
  unfolding contains
  inside_evening order late c u low = ground arith

closed_now :
    (w : Window) (t : Time) → (not w.enabled || not (contains w t)) ≡ true → contains w t ≡ false
unfolding contains
closed_now w t h = ground arith

-- In a regular location the answer is not before the time asked about, the window is closed there, and it is
-- open at every time from the one asked about up to the answer: so the answer is the earliest.
pub next_open_lem :
    (w : Window) (t : Time)
    → IsRegular w.zone
    → IsTimeOfDay w.start
    → IsTimeOfDay w.end
    → (t ≤ next_open w t)
      × (contains w (next_open w t) ≡ false)
      × ((u : Time) → t ≤ u → u < next_open w t → contains w u ≡ true)
unfolding next_open
next_open_lem w t r s e = elim (Bool-cases (not w.enabled || not (contains w t))) [
  | inl now ↦
      rw now (omega arith, closed_now w t now, λ u from upto. absurd (omega (arith, from, upto)))
  | inr inside ↦
      let (on, c) : (w.enabled ≡ true) × (contains w t ≡ true) = ground arith in
      rw inside (elim (Bool-cases (ltb (minutes w.start) (minutes w.end))) [
        | inl order ↦
            let (before, all) = inside_same_day w t on r e order c in
            rw order (unfold Opens in Opens-today w t on r e before all)
        | inr crossing ↦
            rw crossing (elim (Bool-cases (ltb (w.zone.minute_of_day t) (minutes w.end))) [
              | inl tail ↦ rw tail (
                  unfold Opens in
                  Opens-today w t on r e (ltb→lt _ _ tail)
                    (λ u low high. inside_tail w t on r e crossing c u high))
              | inr evening ↦ rw evening (
                  unfold Opens in
                  Opens-tomorrow w t on r e (λ u either. elim either [
                    | inl low ↦ inside_evening w t on r e crossing evening c u low
                    | inr high ↦ inside_tail w t on r e crossing c u high
                  ]))
            ])
      ])
]
