-- ===== src/Storage/Schedules/Rows.antt =====
-- internal/storage/schedules.go: the keys of the table, and reading back what was written.
use surfbot_agent.Base.{
  ◌≡◌, refl, Bool, true, false, not, ◌&&◌, ◌||◌, Option, none, some, List, [], ◌∷◌, ◌++◌, String,
  str_eq, str_eq_iff, keep_if, All, arith, Bool-cases, inl, inr,
}
use surfbot_agent.Model.{Time, ToolConfig}
use surfbot_agent.Storage.Schedules.{
  ScheduleRow, stored_row, has_id, get, name_taken, update_rows, with_id, is_some, create, update,
  delete, set_next_run_at, valid_schedule_input,
}

-- Two rows that may stand in the table together.
abbrev pub Apart : ScheduleRow → ScheduleRow → Type 0
Apart s r =
    (str_eq s.core.id r.core.id ≡ false)
    × ((str_eq s.core.target_id r.core.target_id && str_eq s.name r.name) ≡ false)

-- No two rows have the same id, or the same target and name.
abbrev pub Keyed : List ScheduleRow → Type 0
Keyed [] = Unit {0}
Keyed (s ∷ rows) = All (Apart s) rows × Keyed rows

-- The new row `s` against a row with another id that does not have its name.
free_of :
    (s r : ScheduleRow)
    → has_id s.core.id r ≡ false
    → (not (has_id s.core.id r)
        && (str_eq r.core.target_id s.core.target_id && str_eq r.name s.name))
      ≡ false
    → Apart (stored_row s) r × Apart r (stored_row s)
unfolding stored_row
free_of s r other name = (
  (
    ground (arith, str_eq_iff s.core.id r.core.id, str_eq_iff r.core.id s.core.id),
    ground (
      arith,
      str_eq_iff s.core.target_id r.core.target_id,
      str_eq_iff r.core.target_id s.core.target_id,
      str_eq_iff s.name r.name,
      str_eq_iff r.name s.name,
    ),
  ),
  (other, ground arith),
)

append-Keyed :
    (s : ScheduleRow) (rows : List ScheduleRow)
    → get s.core.id rows ≡ none
    → name_taken s rows ≡ false
    → Keyed rows
    → Keyed (rows ++ stored_row s ∷ [])
unfolding get name_taken
append-Keyed s [] absent free k = (tt, tt)
append-Keyed s (r ∷ rows) absent free (a, k) = elim (Bool-cases (has_id s.core.id r)) [
  | inl same ↦ absurd (let e : some r ≡ none = rw same at absent in cc)
  | inr other ↦
      let (apart, back) = free_of s r other (ground arith) in
      (
        behind r (stored_row s) rows a back,
        append-Keyed s rows (rw other at absent) (ground arith) k,
      )
]
  where
    behind :
        (r u : ScheduleRow) (rows : List ScheduleRow)
        → All (Apart r) rows
        → Apart r u
        → All (Apart r) (rows ++ u ∷ [])
    behind r u [] a b = (b, tt)
    behind r u (s ∷ rows) (c, a) b = (c, behind r u rows a b)

-- The rows besides the one that is written.
others-All :
    (s r : ScheduleRow) (rows : List ScheduleRow)
    → Apart r (stored_row s)
    → All (Apart r) rows
    → All (Apart r) (update_rows s.core.id (λ _. stored_row s) rows)
unfolding update_rows
others-All s r [] b a = tt
others-All s r (q ∷ rows) b (c, a) = elim (Bool-cases (has_id s.core.id q)) [
  | inl same ↦ rw same (b, others-All s r rows b a)
  | inr other ↦ rw other (c, others-All s r rows b a)
]

unwritten :
    (s r : ScheduleRow) (rows : List ScheduleRow)
    → has_id s.core.id r ≡ true
    → All (Apart r) rows
    → name_taken s rows ≡ false
    → All (Apart (stored_row s)) (update_rows s.core.id (λ _. stored_row s) rows)
unfolding update_rows name_taken
unwritten s r [] same a free = tt
unwritten s r (q ∷ rows) same ((id, name), a) free =
    let other : has_id s.core.id q ≡ false = ground (
      arith,
      str_eq_iff r.core.id s.core.id,
      str_eq_iff q.core.id s.core.id,
      str_eq_iff r.core.id q.core.id,
    ) in
    let (apart, back) = free_of s q other (ground arith) in
    rw other (apart, unwritten s r rows same a (ground arith))

update-Keyed :
    (s : ScheduleRow) (rows : List ScheduleRow)
    → name_taken s rows ≡ false
    → Keyed rows
    → Keyed (update_rows s.core.id (λ _. stored_row s) rows)
unfolding update_rows name_taken
update-Keyed s [] free k = tt
update-Keyed s (r ∷ rows) free (a, k) = elim (Bool-cases (has_id s.core.id r)) [
  | inl same ↦
      rw same (unwritten s r rows same a (ground arith), update-Keyed s rows (ground arith) k)
  | inr other ↦
      let (apart, back) = free_of s r other (ground arith) in
      rw other (others-All s r rows back a, update-Keyed s rows (ground arith) k)
]

-- A new fire time touches no key.
set_next_run_at-All :
    (id : String) (t : Option Time) (r : ScheduleRow) (rows : List ScheduleRow)
    → All (Apart r) rows
    → All (Apart r) (set_next_run_at id t rows).0
unfolding set_next_run_at update_rows
set_next_run_at-All id t r [] a = tt
set_next_run_at-All id t r (q ∷ rows) (b, a) = elim (Bool-cases (has_id id q)) [
  | inl same ↦ rw same (b, set_next_run_at-All id t r rows a)
  | inr other ↦ rw other (b, set_next_run_at-All id t r rows a)
]

pub set_next_run_at-Keyed :
    (id : String) (t : Option Time) (rows : List ScheduleRow)
    → Keyed rows
    → Keyed (set_next_run_at id t rows).0
unfolding set_next_run_at update_rows
set_next_run_at-Keyed id t [] k = tt
set_next_run_at-Keyed id t (r ∷ rows) (a, k) = elim (Bool-cases (has_id id r)) [
  | inl same ↦ rw same (set_next_run_at-All id t r rows a, set_next_run_at-Keyed id t rows k)
  | inr other ↦ rw other (set_next_run_at-All id t r rows a, set_next_run_at-Keyed id t rows k)
]

keep_if-All :
    (p : ScheduleRow → Bool) (P : ScheduleRow → Type 0) (rows : List ScheduleRow)
    → All P rows
    → All P (keep_if p rows)
keep_if-All p P [] a = tt
keep_if-All p P (r ∷ rows) (b, a) = elim (Bool-cases (p r)) [
  | inl kept ↦ rw kept (b, keep_if-All p P rows a)
  | inr gone ↦ rw gone (keep_if-All p P rows a)
]

keep_if-Keyed :
    (p : ScheduleRow → Bool) (rows : List ScheduleRow) → Keyed rows → Keyed (keep_if p rows)
keep_if-Keyed p [] k = tt
keep_if-Keyed p (r ∷ rows) (a, k) = elim (Bool-cases (p r)) [
  | inl kept ↦ rw kept (keep_if-All p (Apart r) rows a, keep_if-Keyed p rows k)
  | inr gone ↦ rw gone (keep_if-Keyed p rows k)
]

is_some→none : {A : Type 0} (o : Option A) → is_some o ≡ false → o ≡ none
is_some→none none h = refl
is_some→none (some a) h = cc

module _ (valid_rrule : String → Bool) (valid_tools : ToolConfig → Bool) where
  -- Creating, updating and deleting, whether they succeed or not, keep the ids distinct, and the names distinct
  -- among the schedules of a target.
  pub writes-Keyed :
      (new_id id : String) (s : ScheduleRow) (rows : List ScheduleRow)
      → Keyed rows
      → Keyed (create valid_rrule valid_tools new_id s rows).0
        × Keyed (update valid_rrule valid_tools s rows).0
        × Keyed (delete id rows).0
  unfolding create update delete
  writes-Keyed new_id id s rows k =
      (created, updated, keep_if-Keyed (λ r. not (has_id id r)) rows k)
    where
      created : Keyed (create valid_rrule valid_tools new_id s rows).0
      created =
          let s' = with_id new_id s in
          elim (Bool-cases (not (valid_schedule_input valid_rrule valid_tools s))) [
            | inl bad ↦ rw bad k
            | inr good ↦
                rw good (elim (Bool-cases (is_some (get s'.core.id rows) || name_taken s' rows)) [
                  | inl taken ↦ rw taken k
                  | inr free ↦ rw free (
                      append-Keyed s' rows (is_some→none (get s'.core.id rows) (ground arith))
                        (ground arith) k)
                ])
          ]

      updated : Keyed (update valid_rrule valid_tools s rows).0
      updated = elim (Bool-cases (not (valid_schedule_input valid_rrule valid_tools s))) [
        | inl bad ↦ rw bad k
        | inr good ↦ rw good (elim (Bool-cases (not (is_some (get s.core.id rows)))) [
          | inl absent ↦ rw absent k
          | inr present ↦ rw present (elim (Bool-cases (name_taken s rows)) [
            | inl taken ↦ rw taken k
            | inr free ↦ rw free (update-Keyed s rows free k)
          ])
        ])
      ]
