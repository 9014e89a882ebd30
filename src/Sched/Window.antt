-- ===== src/Sched/Window.antt =====
-- internal/daemon/intervalsched/window.go: the daily maintenance window.
-- What Go's `time` knows of a location is a parameter: the minute of the day that its clocks show at a time, and
-- `time.Date` with the year, month and day of a time, some days later, and an hour and a minute.
pub mod Clock
pub mod Contains
pub mod Opening
use surfbot_agent.Base.{
  ℕ, ◌+◌, ◌*◌, Bool, true, false, not, ◌&&◌, ◌||◌, Option, none, some, List, [], ◌∷◌, ◌++◌,
  if◌then◌else◌, ltb, leb, ◌==◌,
}
use surfbot_agent.Base.Int.{ℤ, pos, ltb_ℤ, pos_part}
use surfbot_agent.Base.Text.{Bytes, trim_space, split_on, atoi, itoa}
use surfbot_agent.Model.{Time}

pub record TimeOfDay : Type 0 where
  pub hour : ℕ
  pub minute : ℕ

-- `none` for the error, which an error of `strconv.Atoi` is too.
abbrev pub within : ℤ → Option ℤ → Option ℕ
within last none = none
within last (some n) = if ltb_ℤ n (pos 0) || ltb_ℤ last n then none else some (pos_part n)

abbrev pub time_of : Option ℕ → Option ℕ → Option TimeOfDay
time_of none m = none
time_of (some h) none = none
time_of (some h) (some m) = some (record { hour = h; minute = m })

abbrev pub of_parts : List Bytes → Option TimeOfDay
of_parts (h ∷ m ∷ []) = time_of (within (pos 23) (atoi h)) (within (pos 59) (atoi m))
of_parts _ = none

unfoldable pub parse_time_of_day : Bytes → Option TimeOfDay
parse_time_of_day s = of_parts (split_on b':' (trim_space s))

-- `%02d`.
abbrev pub two_digits : ℕ → Bytes
two_digits n = if ltb n 10 then b'0' ∷ itoa n else itoa n

-- `TimeOfDay.String`.
unfoldable pub to_string : TimeOfDay → Bytes
to_string t = two_digits t.hour ++ b':' ∷ two_digits t.minute

pub record Zone : Type 0 where
  pub minute_of_day : Time → ℕ
  pub date : Time → ℕ → TimeOfDay → Time

pub record Window : Type 0 where
  pub enabled : Bool
  pub start : TimeOfDay
  pub end : TimeOfDay
  pub zone : Zone

abbrev pub minutes : TimeOfDay → ℕ
minutes t = t.hour * 60 + t.minute

unfoldable pub contains : Window → Time → Bool
contains w t =
    let mins = w.zone.minute_of_day t in
    let start = minutes w.start in
    let end = minutes w.end in
    if not w.enabled
    then false
    else if start == end
    then false
    else if ltb start end
    then leb start mins && ltb mins end
    else leb start mins || ltb mins end

unfoldable pub next_open : Window → Time → Time
next_open w after =
    let end_today = w.zone.date after 0 w.end in
    if not w.enabled || not (contains w after)
    then after
    else if ltb (minutes w.start) (minutes w.end)
    then end_today
    else if ltb (w.zone.minute_of_day after) (minutes w.end)
    then end_today
    else w.zone.date after 1 w.end
