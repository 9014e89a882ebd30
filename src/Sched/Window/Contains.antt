-- ===== src/Sched/Window/Contains.antt =====
-- internal/daemon/intervalsched/window.go, Contains: the window as an interval on the circle of a day.
use surfbot_agent.Base.{ℕ, ◌+◌, ◌-◌, ◌%◌, ◌<◌, ◌≡◌, ◌&&◌, ltb, arith}
use surfbot_agent.Model.{Time}
use surfbot_agent.Sched.Window.{Window, minutes, contains}
use surfbot_agent.Sched.Window.Clock.{IsTimeOfDay}

-- How many minutes later the second is than the first, going round the day.
abbrev pub minutes_from : ℕ → ℕ → ℕ
minutes_from a b = (b + 1440 - a) % 1440

-- An enabled window contains a time exactly if the minutes from its start to the clock's are fewer than those
-- from its start to its end, going round the day: so a window past midnight is one interval, and one that
-- ends where it starts is empty.
pub contains_lem :
    (w : Window) (t : Time)
    → IsTimeOfDay w.start
    → IsTimeOfDay w.end
    → w.zone.minute_of_day t < 1440
    → contains w t ≡ (
        w.enabled
        && ltb
            (minutes_from (minutes w.start) (w.zone.minute_of_day t))
            (minutes_from (minutes w.start) (minutes w.end)))
unfolding contains
contains_lem w t s e d = ground arith
