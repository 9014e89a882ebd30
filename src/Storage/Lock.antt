-- ===== src/Storage/Lock.antt =====
-- internal/storage/scheduler_lock.go: the single row that tells which process runs the scheduler, and
-- internal/cli/scheduler_lock.go, which takes it. The row is an `Option`; each operation is a transaction, so it
-- is one step. The store writes times in RFC 3339, whose fraction of a second is lost. Errors of the database
-- are left out.
pub mod Holding
use surfbot_agent.Base.{
  ℕ, ◌-◌, ◌*◌, ◌/◌, Bool, true, false, not, ◌&&◌, ◌||◌, Option, none, some, String, leb, ◌==◌,
  str_eq, if◌then◌else◌,
}
use surfbot_agent.Model.{Time, second, is_zero}

pub record SchedulerLock : Type 0 where
  pub pid : ℕ
  pub hostname : String
  pub acquired_at : Time
  pub heartbeat_at : Time

-- A process, as the store knows it.
abbrev pub Owner : Type 0
Owner = ℕ × String

abbrev pub Row : Type 0
Row = Option SchedulerLock

abbrev pub owns : Owner → SchedulerLock → Bool
owns o l = l.pid == o.0 && str_eq l.hostname o.1

-- What parsing gives back of a time that was formatted.
unfoldable pub stored : Time → Time
stored t = t / second * second

abbrev pub lock_at : Owner → Time → SchedulerLock
lock_at o t = record { pid = o.0; hostname = o.1; acquired_at = t; heartbeat_at = t }

-- The row that `INSERT` and `UPDATE` leave.
abbrev pub row_at : Owner → Time → SchedulerLock
row_at o now = lock_at o (stored now)

pub data Acquired : Type 0 where
  acquired : SchedulerLock → Acquired
  lock_held : SchedulerLock → Acquired

unfoldable pub is_fresh : ℕ → Time → SchedulerLock → Bool
is_fresh stale_after now l = not (is_zero l.heartbeat_at) && leb (now - l.heartbeat_at) stale_after

unfoldable pub acquire_scheduler_lock : Owner → ℕ → Time → Row → Row × Acquired
acquire_scheduler_lock o stale_after now none = (some (row_at o now), acquired (lock_at o now))
acquire_scheduler_lock o stale_after now (some l) =
    if is_fresh stale_after now l
    then (some l, lock_held l)
    else (some (row_at o now), acquired (lock_at o now))

-- The Boolean is false for the error "no longer owned".
unfoldable pub refresh_scheduler_lock : Owner → Time → Row → Row × Bool
refresh_scheduler_lock o now none = (none, false)
refresh_scheduler_lock o now (some l) =
    if owns o l then (some (record l { heartbeat_at = stored now }), true) else (some l, false)

unfoldable pub release_scheduler_lock : Owner → Row → Row
release_scheduler_lock o none = none
release_scheduler_lock o (some l) = if owns o l then none else some l

-- 60 seconds.
abbrev pub scheduler_lock_stale_after : ℕ
scheduler_lock_stale_after = 60_000_000_000

-- `acquireSchedulerLock`, first half: take the lock, or learn that the holder is a dead process of this host.
pub data FirstTry : Type 0 where
  taken : FirstTry
  held_by : SchedulerLock → FirstTry
  dead_holder : FirstTry

abbrev is_taken : (ℕ → Bool) → Owner → Acquired → FirstTry
is_taken pid_alive o (acquired l) = taken
is_taken pid_alive o (lock_held l) =
    if str_eq l.hostname o.1 && not (pid_alive l.pid) then dead_holder else held_by l

unfoldable pub first_try : (ℕ → Bool) → Owner → Time → Row → Row × FirstTry
first_try pid_alive o now row =
    let (row', answer) = acquire_scheduler_lock o scheduler_lock_stale_after now row in
    (row', is_taken pid_alive o answer)

-- Second half, after `dead_holder`; other processes may act in between.
unfoldable pub force_take : Owner → Time → Row → Row × Acquired
force_take o now row = acquire_scheduler_lock o 0 now row
