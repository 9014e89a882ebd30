-- ===== src/Tests/Stores.antt =====
-- The theorems on the scheduler's lock, the reaping of scans and the table of schedules at concrete inputs.
use surfbot_agent.Base.{
  ◌≤◌, ◌<◌, ◌-◌, ◌*◌, ◌≡◌, refl, Bool, count_if, true, false, none, some, List, [], ◌∷◌, String,
  arith, All, length, In, ◌⊎◌,
}
use surfbot_agent.Model.{second, running}
use surfbot_agent.Storage.Lock.{
  Owner, lock_at, row_at, acquired, acquire_scheduler_lock, refresh_scheduler_lock,
  release_scheduler_lock, force_take, stored, scheduler_lock_stale_after, Row, SchedulerLock,
}
use surfbot_agent.Storage.Lock.Holding.{
  Op, acquires, refreshes, releases, Alive, HeldBy, Kept, keeps_lock, takeover,
}
use surfbot_agent.Storage.Reap.{
  chunk_ids, Faults, Readings, ReapReport, Tables, ScanRow, AdHocRow, ToolRow, scan_running,
  scan_completed, tool_running, reap_orphaned_scans, list_orphaned_scan_ids,
}
use surfbot_agent.Storage.Reap.Chunks.{concat, chunk_ids-concat}
use surfbot_agent.Storage.Reap.Atomic.{Healthy, reaped, report_of, reap_orphaned_scans_lem}
use surfbot_agent.Storage.Schedules.{ScheduleRow, due_time, list_due}
use surfbot_agent.Storage.Schedules.Due.{IsDue, Sorted, list_due_lem}
use surfbot_agent.Tests.Samples.{nightly}

abbrev daemon : Owner
daemon = (100, "host")

abbrev ui : Owner
ui = (200, "host")

abbrev held : SchedulerLock
held = row_at daemon (50 * second)

-- The other process tries, the holder refreshes, and the other tries again and gives up.
abbrev course : List Op
course =
    acquires ui scheduler_lock_stale_after (60 * second)
    ∷ refreshes daemon (65 * second)
    ∷ acquires ui scheduler_lock_stale_after (120 * second)
    ∷ releases ui
    ∷ []

alive : Alive daemon (50 * second) course
unfolding surfbot_agent.Storage.Lock.Holding.same_owner stored
alive = (omega arith, (omega arith, (omega arith, (refl, tt))))

held_by : HeldBy daemon (50 * second) held
unfolding stored
held_by = record { owned = refl; last_beat = refl; not_zero = omega arith }

keeps_lock_example : Kept daemon course held
keeps_lock_example = keeps_lock daemon (50 * second) held course held_by alive

abbrev taken_over : Row
taken_over = (acquire_scheduler_lock ui scheduler_lock_stale_after (200 * second) (some held)).0

late : scheduler_lock_stale_after < 200 * second - held.heartbeat_at
unfolding stored
late = omega arith

other_process : surfbot_agent.Storage.Lock.Holding.same_owner daemon ui ≡ false
unfolding surfbot_agent.Storage.Lock.Holding.same_owner
other_process = refl

takeover_example :
    ((acquire_scheduler_lock ui scheduler_lock_stale_after (200 * second) (some held)).1
      ≡ acquired (lock_at ui (200 * second)))
    × (refresh_scheduler_lock daemon (201 * second) taken_over ≡ (taken_over, false))
    × (release_scheduler_lock daemon taken_over ≡ taken_over)
takeover_example =
    takeover ui daemon scheduler_lock_stale_after (200 * second) (201 * second) held late
      other_process

abbrev three_ids : List String
three_ids = "a" ∷ "b" ∷ "c" ∷ []

chunk_ids-concat_example :
    (concat (chunk_ids three_ids 2) ≡ three_ids) × All (λ c. length c ≤ 2) (chunk_ids three_ids 2)
chunk_ids-concat_example = chunk_ids-concat three_ids 2 (omega arith)

abbrev crashed : Tables
crashed = record {
  scans =
      record { id = "x1"; status = scan_running; error = ""; finished_at = none; updated_at = 0 }
      ∷ record {
        id = "x2";
        status = scan_completed;
        error = "";
        finished_at = some second;
        updated_at = second;
      }
      ∷ [];
  ad_hoc_runs =
      record { id = "a1"; scan_id = some "x1"; status = running; completed_at = none } ∷ [];
  tool_runs =
      record {
        id = "r1";
        scan_id = "x1";
        status = tool_running;
        finished_at = none;
        error_message = "";
        updated_at = 0;
      }
      ∷ [];
}

abbrev healthy : Faults
healthy = record {
  begin_fails = false;
  list_fails = false;
  scans_fail = λ _. false;
  ad_hoc_fail = λ _. false;
  tools_fail = λ _. false;
  commit_fails = false;
}

abbrev disk_full : Faults
disk_full = record healthy { tools_fail = λ _. true }

healthy-Healthy : Healthy healthy
healthy-Healthy = record {
  begins = refl;
  lists = refl;
  scans = λ _. refl;
  ad_hoc = λ _. refl;
  tools = λ _. refl;
  commits = refl;
}

abbrev clocks : Readings
clocks = record {
  start = 10 * second;
  finished_at = 11 * second;
  scans_now = 12 * second;
  tools_now = 13 * second;
  end = 14 * second;
}

reap_orphaned_scans_lem_example :
    ((reap_orphaned_scans disk_full clocks crashed ≡ (crashed, none))
      ⊎ (reap_orphaned_scans disk_full clocks crashed
          ≡ (reaped clocks crashed, some (report_of clocks crashed))))
    × (Healthy disk_full
        → reap_orphaned_scans disk_full clocks crashed
          ≡ (reaped clocks crashed, some (report_of clocks crashed)))
reap_orphaned_scans_lem_example = reap_orphaned_scans_lem disk_full clocks crashed

-- One row of each table was changed.
reap_run :
    (reap_orphaned_scans healthy clocks crashed).1
    ≡ some (record {
      scans_reaped = 1;
      ad_hoc_runs_reaped = 1;
      tool_runs_reaped = 1;
      duration = 4 * second;
    })
unfolding reap_orphaned_scans list_orphaned_scan_ids surfbot_agent.Storage.Reap.reap_writes
    surfbot_agent.Storage.Reap.mark_scans_failed surfbot_agent.Storage.Reap.mark_rows
    surfbot_agent.Storage.Reap.mark_chunks chunk_ids
    surfbot_agent.Storage.Reap.mark_ad_hoc_runs_failed
    surfbot_agent.Storage.Reap.mark_tool_runs_failed surfbot_agent.Storage.Reap.update_where
    surfbot_agent.Storage.Reap.is_in
reap_run = refl

abbrev weekly : ScheduleRow
weekly = record {
  core = nightly;
  name = "weekly";
  enabled = true;
  next_run_at = some (20 * second);
  last_run_at = none;
  last_run_status = none;
  last_scan_id = none;
}

abbrev rows : List ScheduleRow
rows =
    weekly
    ∷ record weekly { name = "first"; next_run_at = some (10 * second) }
    ∷ record weekly { enabled = false }
    ∷ []

list_due_lem_example :
    All (λ s. In s rows × IsDue (30 * second) s) (list_due (30 * second) 5 rows)
    × ((p : ScheduleRow → Bool) → count_if p (list_due (30 * second) 5 rows) ≤ count_if p rows)
    × Sorted (list_due (30 * second) 5 rows)
    × (length (list_due (30 * second) 5 rows) ≤ 5)
    × ((s : ScheduleRow)
        → In s rows
        → IsDue (30 * second) s
        → In s (list_due (30 * second) 5 rows)
          ⊎ ((length (list_due (30 * second) 5 rows) ≡ 5)
              × All (λ r. due_time r ≤ due_time s) (list_due (30 * second) 5 rows)))
list_due_lem_example = list_due_lem (30 * second) 5 rows
