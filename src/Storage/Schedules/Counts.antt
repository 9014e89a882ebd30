-- ===== src/Storage/Schedules/Counts.antt =====
-- internal/storage/schedules.go: sorting, filtering and cutting rows repeats none of them.
use surfbot_agent.Base.{
  ℕ, zero, suc, refl, ◌+◌, ◌≤◌, ◌≡◌, inl, inr, Bool, List, [], ◌∷◌, keep_if, take, count_if, arith,
  Bool-cases,
}
use surfbot_agent.Storage.Schedules.{ScheduleRow, insert_row, sort_rows}

module _ (p : ScheduleRow → Bool) where
  insert_row-count_if :
      (before : ScheduleRow → ScheduleRow → Bool) (s : ScheduleRow) (rows : List ScheduleRow)
      → count_if p (insert_row before s rows) ≡ count_if p (s ∷ rows)
  unfolding insert_row
  insert_row-count_if before s [] = refl
  insert_row-count_if before s (r ∷ rows) = elim (Bool-cases (before s r)) [
    | inl first ↦ rw first refl
    | inr later ↦ rw later (omega (arith, insert_row-count_if before s rows))
  ]

  pub sort_rows-count_if :
      (before : ScheduleRow → ScheduleRow → Bool) (rows acc : List ScheduleRow)
      → count_if p (sort_rows before rows acc) ≡ count_if p rows + count_if p acc
  unfolding sort_rows
  sort_rows-count_if before [] acc = omega arith
  sort_rows-count_if before (s ∷ rows) acc = omega (
    arith,
    sort_rows-count_if before rows (insert_row before s acc),
    insert_row-count_if before s acc,
  )

  pub keep_if-count_if :
      (q : ScheduleRow → Bool) (rows : List ScheduleRow)
      → count_if p (keep_if q rows) ≤ count_if p rows
  keep_if-count_if q [] = omega arith
  keep_if-count_if q (r ∷ rows) = elim (Bool-cases (q r)) [
    | inl kept ↦ rw kept (omega (arith, keep_if-count_if q rows))
    | inr dropped ↦ rw dropped (omega (arith, keep_if-count_if q rows))
  ]

  pub take-count_if : (n : ℕ) (rows : List ScheduleRow) → count_if p (take n rows) ≤ count_if p rows
  take-count_if zero rows = omega arith
  take-count_if (suc n) [] = omega arith
  take-count_if (suc n) (r ∷ rows) = omega (arith, take-count_if n rows)
