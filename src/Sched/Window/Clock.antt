-- ===== src/Sched/Window/Clock.antt =====
-- internal/daemon/intervalsched/window.go: times of day as text.
use surfbot_agent.Base.{
  ℕ, ◌≤◌, ◌≡◌, refl, subst, false, ◌||◌, Option, none, some, List, [], ◌∷◌, ◌++◌, ltb, arith, All,
  Bool-cases, inl, inr,
}
use surfbot_agent.Base.Int.{ℤ, pos, ltb_ℤ}
use surfbot_agent.Base.Text.{Bytes, trim_space, split_on, atoi}
use surfbot_agent.Base.Text.Decimal.{IsDigit, itoa-IsDigit, atoi-itoa, atoi_padded}
use surfbot_agent.Base.Text.Parts.{
  Lacks, NoSpace, trim_space_none, join, split_on-join, digits-NoSpace,
}
use surfbot_agent.Sched.Window.{
  TimeOfDay, within, time_of, of_parts, parse_time_of_day, two_digits, to_string,
}

abbrev pub IsTimeOfDay : TimeOfDay → Type 0
IsTimeOfDay t = (t.hour ≤ 23) × (t.minute ≤ 59)

two_digits-IsDigit : (n : ℕ) → All IsDigit (two_digits n)
two_digits-IsDigit n = elim (Bool-cases (ltb n 10)) [
  | inl small ↦ rw small ((omega arith, omega arith), itoa-IsDigit n)
  | inr large ↦ rw large (itoa-IsDigit n)
]

atoi-two_digits : (n : ℕ) → n ≤ 99 → atoi (two_digits n) ≡ some (pos n)
atoi-two_digits n h = elim (Bool-cases (ltb n 10)) [
  | inl small ↦ rw small (atoi_padded n (omega arith))
  | inr large ↦ rw large (atoi-itoa n (omega arith))
]

Read : Option TimeOfDay → Type 0
Read none = Unit {0}
Read (some t) = IsTimeOfDay t

Below : ℕ → Option ℕ → Type 0
Below last none = Unit {0}
Below last (some n) = n ≤ last

within-Below : (last : ℕ) (n : Option ℤ) → Below last (within (pos last) n)
unfolding Below
within-Below last none = tt
within-Below last (some n) = elim (Bool-cases (ltb_ℤ n (pos 0) || ltb_ℤ (pos last) n)) [
  | inl bad ↦ rw bad tt
  | inr good ↦ rw good (ground arith)
]

time_of-Read : (h m : Option ℕ) → Below 23 h → Below 59 m → Read (time_of h m)
unfolding Below Read
time_of-Read none m a b = tt
time_of-Read (some h) none a b = tt
time_of-Read (some h) (some m) a b = (a, b)

of_parts-Read : (parts : List Bytes) → Read (of_parts parts)
unfolding Read
of_parts-Read [] = tt
of_parts-Read (h ∷ []) = tt
of_parts-Read (h ∷ m ∷ []) =
    time_of-Read (within (pos 23) (atoi h)) (within (pos 59) (atoi m)) (within-Below 23 (atoi h))
      (within-Below 59 (atoi m))
of_parts-Read (h ∷ m ∷ p ∷ parts) = tt

-- Whatever is read is a time of day.
pub parse_time_of_day-IsTimeOfDay :
    (s : Bytes) (t : TimeOfDay) → parse_time_of_day s ≡ some t → IsTimeOfDay t
unfolding parse_time_of_day Read
parse_time_of_day-IsTimeOfDay s t h = subst Read h (of_parts-Read (split_on b':' (trim_space s)))

two_digits-Lacks : (n : ℕ) → Lacks b':' (two_digits n)
two_digits-Lacks n = not_digit (two_digits n) (two_digits-IsDigit n)
  where
    not_digit : (s : Bytes) → All IsDigit s → Lacks b':' s
    not_digit [] a = tt
    not_digit (c ∷ s) ((low, high), a) = (ground arith, not_digit s a)

to_string-NoSpace : (t : TimeOfDay) → NoSpace (to_string t)
unfolding to_string
to_string-NoSpace t =
    around (two_digits t.hour) (two_digits t.minute) (two_digits-IsDigit t.hour)
      (two_digits-IsDigit t.minute)
  where
    around : (s r : Bytes) → All IsDigit s → All IsDigit r → NoSpace (s ++ b':' ∷ r)
    around [] r a b = (refl, digits-NoSpace r b)
    around (c ∷ s) r ((low, high), a) b = (ground arith, around s r a b)

-- Every time of day is read back from its text.
pub parse_time_of_day-to_string :
    (t : TimeOfDay) → IsTimeOfDay t → parse_time_of_day (to_string t) ≡ some t
unfolding parse_time_of_day to_string
parse_time_of_day-to_string t (h, m) =
    let two = two_digits t.hour ∷ two_digits t.minute ∷ [] in
    let trimmed = trim_space_none (to_string t) (to_string-NoSpace t) in
    let parts : split_on b':' (to_string t) ≡ two =
      unfold join in
      split_on-join b':' two (cc) (two_digits-Lacks t.hour, (two_digits-Lacks t.minute, tt)) in
    let hour_read = atoi-two_digits t.hour (omega arith) in
    let minute_read = atoi-two_digits t.minute (omega arith) in
    let hour_fits : (ltb_ℤ (pos t.hour) (pos 0) || ltb_ℤ (pos 23) (pos t.hour)) ≡ false =
      ground arith in
    let minute_fits : (ltb_ℤ (pos t.minute) (pos 0) || ltb_ℤ (pos 59) (pos t.minute)) ≡ false =
      ground arith in
    rw (trimmed, parts, hour_read, minute_read, hour_fits, minute_fits) refl
