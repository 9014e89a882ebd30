-- ===== src/Storage/Schedules/Due.antt =====
-- internal/storage/schedules.go, ListDue: which schedules the master ticker gets.
use surfbot_agent.Base.{
  ℕ, zero, suc, refl, ap, ◌&&◌, ◌*◌, ◌/◌, some, Bool, Option-cases, ◌≤◌, ◌≡◌, ◌⊎◌, inl, inr, true,
  false, not, List, [], ◌∷◌, leb, ◌==◌, if◌then◌else◌, keep_if, take, count_if, length, All, In,
  arith, Bool-cases,
}
use surfbot_agent.Base.Members.{mem_of_keep_if, mem-keep_if, All-mem, All-tabulate}
use surfbot_agent.Model.{Time, second}
use surfbot_agent.Storage.Lock.{stored}
use surfbot_agent.Storage.Schedules.Counts.{take-count_if, sort_rows-count_if, keep_if-count_if}
use surfbot_agent.Storage.Schedules.{
  ScheduleRow, due_time, due_before, insert_row, sort_rows, is_due, list_due,
}

mem-insert_row :
    (a s : ScheduleRow) (rows : List ScheduleRow)
    → In a (insert_row due_before s rows)
    → (s ≡ a) ⊎ In a rows
unfolding insert_row
mem-insert_row a s [] (inl e) = inl e
mem-insert_row a s [] (inr h) = absurd h
mem-insert_row a s (r ∷ rows) h = elim (Bool-cases (due_before s r)) [
  | inl first ↦ (rw first at h)
  | inr later ↦ elim (let k : (r ≡ a) ⊎ In a (insert_row due_before s rows) = rw later at h in k) [
    | inl e ↦ inr (inl e)
    | inr m ↦ elim (mem-insert_row a s rows m) [ inl e ↦ inl e | inr k ↦ inr (inr k) ]
  ]
]

insert_row-mem :
    (a s : ScheduleRow) (rows : List ScheduleRow)
    → (s ≡ a) ⊎ In a rows
    → In a (insert_row due_before s rows)
unfolding insert_row
insert_row-mem a s [] h = h
insert_row-mem a s (r ∷ rows) h = elim (Bool-cases (due_before s r)) [
  | inl first ↦ rw first h
  | inr later ↦ rw later (elim h [
    | inl e ↦ inr (insert_row-mem a s rows (inl e))
    | inr m ↦ elim m [ inl e ↦ inl e | inr k ↦ inr (insert_row-mem a s rows (inr k)) ]
  ])
]

mem-sort_rows :
    (a : ScheduleRow) (rows acc : List ScheduleRow)
    → In a (sort_rows due_before rows acc)
    → In a rows ⊎ In a acc
unfolding sort_rows
mem-sort_rows a [] acc h = inr h
mem-sort_rows a (s ∷ rows) acc h = elim (mem-sort_rows a rows (insert_row due_before s acc) h) [
  | inl m ↦ inl (inr m)
  | inr m ↦ elim (mem-insert_row a s acc m) [ inl e ↦ inl (inl e) | inr k ↦ inr k ]
]

sort_rows-mem :
    (a : ScheduleRow) (rows acc : List ScheduleRow)
    → In a rows ⊎ In a acc
    → In a (sort_rows due_before rows acc)
unfolding sort_rows
sort_rows-mem a [] acc h = elim h [ inl m ↦ absurd m | inr m ↦ m ]
sort_rows-mem a (s ∷ rows) acc h = sort_rows-mem a rows (insert_row due_before s acc) (elim h [
  | inl m ↦ elim m [ inl e ↦ inr (insert_row-mem a s acc (inl e)) | inr k ↦ inl k ]
  | inr m ↦ inr (insert_row-mem a s acc (inr m))
])

abbrev pub Sorted : List ScheduleRow → Type 0
Sorted [] = Unit {0}
Sorted (s ∷ rows) = All (λ r. due_time s ≤ due_time r) rows × Sorted rows

insert_row-All :
    (n : ℕ) (s : ScheduleRow) (rows : List ScheduleRow)
    → n ≤ due_time s
    → All (λ r. n ≤ due_time r) rows
    → All (λ r. n ≤ due_time r) (insert_row due_before s rows)
unfolding insert_row
insert_row-All n s [] h a = (h, tt)
insert_row-All n s (r ∷ rows) h (b, a) = elim (Bool-cases (due_before s r)) [
  | inl first ↦ rw first (h, (b, a))
  | inr later ↦ rw later (b, insert_row-All n s rows h a)
]

All-le :
    (n m : ℕ) (rows : List ScheduleRow)
    → n ≤ m
    → All (λ r. m ≤ due_time r) rows
    → All (λ r. n ≤ due_time r) rows
All-le n m [] h a = tt
All-le n m (r ∷ rows) h (b, a) = (omega arith, All-le n m rows h a)

insert_row-Sorted :
    (s : ScheduleRow) (rows : List ScheduleRow)
    → Sorted rows
    → Sorted (insert_row due_before s rows)
unfolding insert_row
insert_row-Sorted s [] h = (tt, tt)
insert_row-Sorted s (r ∷ rows) (a, h) = elim (Bool-cases (due_before s r)) [
  | inl first ↦
      let low : due_time s ≤ due_time r = before_le s r first in
      rw first ((low, All-le (due_time s) (due_time r) rows low a), (a, h))
  | inr later ↦
      rw later
        (insert_row-All (due_time r) s rows (not_before_le s r later) a, insert_row-Sorted s rows h)
]
  where
    before_le : (s r : ScheduleRow) → due_before s r ≡ true → due_time s ≤ due_time r
    before_le s r h = order (due_time s) (due_time r) h
      where
        order : (m n : ℕ) → not (leb n m) ≡ true → m ≤ n
        order m n h = ground arith

    not_before_le : (s r : ScheduleRow) → due_before s r ≡ false → due_time r ≤ due_time s
    not_before_le s r h = order (due_time s) (due_time r) h
      where
        order : (m n : ℕ) → not (leb n m) ≡ false → n ≤ m
        order m n h = ground arith

sort_rows-Sorted :
    (rows acc : List ScheduleRow) → Sorted acc → Sorted (sort_rows due_before rows acc)
unfolding sort_rows
sort_rows-Sorted [] acc h = h
sort_rows-Sorted (s ∷ rows) acc h =
    sort_rows-Sorted rows (insert_row due_before s acc) (insert_row-Sorted s acc h)

mem-take : (n : ℕ) (a : ScheduleRow) (rows : List ScheduleRow) → In a (take n rows) → In a rows
mem-take zero a rows h = absurd h
mem-take (suc n) a [] h = absurd h
mem-take (suc n) a (r ∷ rows) (inl e) = inl e
mem-take (suc n) a (r ∷ rows) (inr m) = inr (mem-take n a rows m)

All-take :
    (P : ScheduleRow → Type 0) (n : ℕ) (rows : List ScheduleRow) → All P rows → All P (take n rows)
All-take P zero rows a = tt
All-take P (suc n) [] a = tt
All-take P (suc n) (r ∷ rows) (b, a) = (b, All-take P n rows a)

take-Sorted : (n : ℕ) (rows : List ScheduleRow) → Sorted rows → Sorted (take n rows)
take-Sorted zero rows h = tt
take-Sorted (suc n) [] h = tt
take-Sorted (suc n) (r ∷ rows) (a, h) =
    (All-take (λ s. due_time r ≤ due_time s) n rows a, take-Sorted n rows h)

-- A row of a sorted list is among the first `n`, or these are `n` rows and none is later.
first_or_later :
    (n : ℕ) (a : ScheduleRow) (rows : List ScheduleRow)
    → Sorted rows
    → In a rows
    → In a (take n rows)
      ⊎ ((length (take n rows) ≡ n) × All (λ r. due_time r ≤ due_time a) (take n rows))
first_or_later zero a rows h m = inr (refl, tt)
first_or_later (suc n) a [] h m = absurd m
first_or_later (suc n) a (r ∷ rows) h (inl e) = inl (inl e)
first_or_later (suc n) a (r ∷ rows) (b, h) (inr m) = elim (first_or_later n a rows h m) [
  | inl k ↦ inl (inr k)
  | inr l ↦ inr (ap suc l.0, (All-mem (λ s. due_time r ≤ due_time s) a rows b m, l.1))
]

length-take-le : (n : ℕ) (rows : List ScheduleRow) → length (take n rows) ≤ n
length-take-le zero rows = omega arith
length-take-le (suc n) [] = omega arith
length-take-le (suc n) (r ∷ rows) = omega (arith, length-take-le n rows)

-- An enabled schedule whose fire time is set and has come, in whole seconds.
abbrev pub IsDue : Time → ScheduleRow → Type 0
IsDue now s =
    (s.enabled ≡ true) × (t : Time) × (s.next_run_at ≡ some t) × (t ≤ now / second * second)

is_due-IsDue : (now : Time) (s : ScheduleRow) → is_due now s ≡ true → IsDue now s
unfolding stored
is_due-IsDue now s h = elim (Option-cases s.next_run_at) [
  | inl e ↦ absurd (never s.enabled (let k : (s.enabled && false) ≡ true = rw e at h in k))
  | inr (t, e) ↦
      let k : (s.enabled && leb t (now / second * second)) ≡ true = rw e at h in
      (ground arith, t, e, ground arith)
]
  where
    never : (b : Bool) → (b && false) ≡ true → ⊥
    never b h = ground arith

pub IsDue-is_due : (now : Time) (s : ScheduleRow) → IsDue now s → is_due now s ≡ true
unfolding stored
IsDue-is_due now s (a, t, e, le) = rw a (rw e (ground arith))

-- `ListDue` returns rows of the table that are enabled and due, none more often than the table has it, the
-- longest overdue first, at most as many as asked for (100 if the limit is 0). It leaves out a row that is enabled and due only when it returns as many as
-- asked for, none of which is due later than that row.
pub list_due_lem :
    (now : Time) (limit : ℕ) (rows : List ScheduleRow)
    → All (λ s. In s rows × IsDue now s) (list_due now limit rows)
      × ((p : ScheduleRow → Bool) → count_if p (list_due now limit rows) ≤ count_if p rows)
      × Sorted (list_due now limit rows)
      × (length (list_due now limit rows) ≤ (if limit == 0 then 100 else limit))
      × ((s : ScheduleRow)
          → In s rows
          → IsDue now s
          → In s (list_due now limit rows)
            ⊎ ((length (list_due now limit rows) ≡ (if limit == 0 then 100 else limit))
                × All (λ r. due_time r ≤ due_time s) (list_due now limit rows)))
unfolding list_due
list_due_lem now limit rows =
    let n : ℕ = if limit == 0 then 100 else limit in
    let due = keep_if (is_due now) rows in
    let sorted = sort_rows due_before due [] in
    let order = sort_rows-Sorted due [] tt in
    (
      All-tabulate (λ s. In s rows × IsDue now s) (take n sorted)
          (λ s m. elim (mem-sort_rows s due [] (mem-take n s sorted m)) [
            | inl k ↦ let (i, d) = mem_of_keep_if (is_due now) s rows k in (i, is_due-IsDue now s d)
            | inr k ↦ absurd k
          ]),
      λ p. omega (
        arith,
        take-count_if p n sorted,
        sort_rows-count_if p due_before due [],
        keep_if-count_if p (is_due now) rows,
      ),
      take-Sorted n sorted order,
      length-take-le n sorted,
      λ s m h.
          first_or_later n s sorted order (
            sort_rows-mem s due []
              (inl (mem-keep_if (is_due now) s rows m (IsDue-is_due now s h)))),
    )
