-- ===== src/Storage/Reap.antt =====
-- internal/storage/zombie_reap.go and internal/daemon/intervalsched/zombie_reap.go: at its start the scheduler
-- marks the scans that a crash left running as failed. A table is the list of its rows, of which the columns
-- that these statements read or write are kept. Whether a call of the database fails is a parameter, for a
-- statement by the ids that are bound to it. Every write stands in one transaction.
pub mod Chunks
pub mod Statements
pub mod Atomic
use surfbot_agent.Base.{
  ℕ, zero, suc, ◌+◌, ◌-◌, ◌≤◌, Bool, true, false, ◌&&◌, ◌||◌, Option, none, some, List, [], ◌∷◌,
  String, ltb, leb, str_eq, if◌then◌else◌, length, take, drop,
}
use surfbot_agent.Model.{Time, AdHocRunStatus, pending, running, completed, ad_hoc_failed, canceled}
use surfbot_agent.Storage.Lock.{stored}

-- `chunkIDs`.
unfoldable pub slice {ℓ} : {A : Type ℓ} → ℕ → ℕ → List A → List A
slice i end xs = take (end - i) (drop i xs)

abbrev pub chunk_end : ℕ → ℕ → ℕ
chunk_end end len = if ltb len end then len else end

unfoldable pub chunks_from {ℓ} : {A : Type ℓ} → ℕ → ℕ → List A → ℕ → List (List A)
chunks_from zero size ids i = []
chunks_from (suc fuel) size ids i =
    let rest = chunks_from fuel size ids (i + size) in
    if ltb i (length ids) then slice i (chunk_end (i + size) (length ids)) ids ∷ rest else []

-- No more rounds than ids, since `i` grows in each.
unfoldable pub chunk_ids {ℓ} : {A : Type ℓ} → List A → ℕ → List (List A)
chunk_ids ids size =
    if leb size 0 || leb (length ids) size then ids ∷ [] else chunks_from (length ids) size ids 0

abbrev pub reap_batch_size : ℕ
reap_batch_size = 500

-- `id IN (?, ?, ...)`.
unfoldable pub is_in : List String → String → Bool
is_in [] id = false
is_in (j ∷ ids) id = str_eq j id || is_in ids id

-- `UPDATE ... SET f WHERE p`, with the number of rows affected.
unfoldable pub update_where {ℓ} : {A : Type ℓ} → (A → Bool) → (A → A) → List A → List A × ℕ
update_where p f [] = ([], 0)
update_where p f (row ∷ rows) =
    let (rows', n) = update_where p f rows in
    if p row then (f row ∷ rows', n + 1) else (row ∷ rows', n)

-- The loops of the `mark...` functions; `none` when a statement fails, with what the transaction holds by then.
unfoldable pub mark_chunks {ℓ} :
    {A : Type ℓ}
    → (List String → Bool)
    → (List String → A → Bool)
    → (A → A)
    → List (List String)
    → ℕ
    → List A
    → List A × Option ℕ
mark_chunks fails hit f [] total rows = (rows, some total)
mark_chunks fails hit f (chunk ∷ chunks) total rows =
    let (rows', n) = update_where (hit chunk) f rows in
    let rest = mark_chunks fails hit f chunks (total + n) rows' in
    if fails chunk then (rows, none) else rest

unfoldable pub mark_rows {ℓ} :
    {A : Type ℓ}
    → (List String → Bool)
    → (List String → A → Bool)
    → (A → A)
    → List String
    → List A
    → List A × Option ℕ
mark_rows fails hit f [] rows = (rows, some 0)
mark_rows fails hit f (id ∷ ids) rows =
    mark_chunks fails hit f (chunk_ids (id ∷ ids) reap_batch_size) 0 rows

pub data ScanStatus : Type 0 where
  scan_queued scan_running scan_completed scan_failed scan_cancelled : ScanStatus

pub record ScanRow : Type 0 where
  pub id : String
  pub status : ScanStatus
  pub error : String
  pub finished_at : Option Time
  pub updated_at : Time

pub record AdHocRow : Type 0 where
  pub id : String
  pub scan_id : Option String
  pub status : AdHocRunStatus
  pub completed_at : Option Time

pub data ToolRunStatus : Type 0 where
  tool_running tool_completed tool_failed tool_skipped tool_timeout : ToolRunStatus

pub record ToolRow : Type 0 where
  pub id : String
  pub scan_id : String
  pub status : ToolRunStatus
  pub finished_at : Option Time
  pub error_message : String
  pub updated_at : Time

pub record Tables : Type 0 where
  pub scans : List ScanRow
  pub ad_hoc_runs : List AdHocRow
  pub tool_runs : List ToolRow

abbrev pub is_running : ScanStatus → Bool
is_running scan_running = true
is_running _ = false

abbrev pub is_open : AdHocRunStatus → Bool
is_open pending = true
is_open running = true
is_open completed = false
is_open ad_hoc_failed = false
is_open canceled = false

abbrev pub tool_runs_on : ToolRunStatus → Bool
tool_runs_on tool_running = true
tool_runs_on _ = false

-- A comparison with NULL is not true.
abbrev pub is_in_nullable : List String → Option String → Bool
is_in_nullable ids none = false
is_in_nullable ids (some id) = is_in ids id

unfoldable pub list_orphaned_scan_ids : List ScanRow → List String
list_orphaned_scan_ids [] = []
list_orphaned_scan_ids (s ∷ scans) =
    let rest = list_orphaned_scan_ids scans in if is_running s.status then s.id ∷ rest else rest

abbrev pub orphaned_scan_error : String
orphaned_scan_error = "orphaned on scheduler restart"

abbrev pub scan_hit : List String → ScanRow → Bool
scan_hit ids s = is_running s.status && is_in ids s.id

abbrev pub failed_scan : String → Time → Time → ScanRow → ScanRow
failed_scan message finished_at now s = record s {
  status = scan_failed;
  error = message;
  finished_at = some (stored finished_at);
  updated_at = stored now;
}

unfoldable pub mark_scans_failed :
    (List String → Bool)
    → List String
    → String
    → Time
    → Time
    → List ScanRow
    → List ScanRow × Option ℕ
mark_scans_failed fails ids message finished_at now scans =
    mark_rows fails scan_hit (failed_scan message finished_at now) ids scans

abbrev pub ad_hoc_hit : List String → AdHocRow → Bool
ad_hoc_hit ids a = is_open a.status && is_in_nullable ids a.scan_id

abbrev pub failed_ad_hoc : Time → AdHocRow → AdHocRow
failed_ad_hoc finished_at a = record a {
  status = ad_hoc_failed;
  completed_at = some (stored finished_at);
}

unfoldable pub mark_ad_hoc_runs_failed :
    (List String → Bool) → List String → Time → List AdHocRow → List AdHocRow × Option ℕ
mark_ad_hoc_runs_failed fails scan_ids finished_at runs =
    mark_rows fails ad_hoc_hit (failed_ad_hoc finished_at) scan_ids runs

abbrev pub tool_hit : List String → ToolRow → Bool
tool_hit ids t = tool_runs_on t.status && is_in ids t.scan_id

abbrev pub failed_tool : Time → Time → ToolRow → ToolRow
failed_tool finished_at now t = record t {
  status = tool_failed;
  finished_at = some (stored finished_at);
  error_message = orphaned_scan_error;
  updated_at = stored now;
}

unfoldable pub mark_tool_runs_failed :
    (List String → Bool) → List String → Time → Time → List ToolRow → List ToolRow × Option ℕ
mark_tool_runs_failed fails scan_ids finished_at now runs =
    mark_rows fails tool_hit (failed_tool finished_at now) scan_ids runs

-- Which calls of the database fail.
pub record Faults : Type 0 where
  pub begin_fails : Bool
  pub list_fails : Bool
  pub scans_fail : List String → Bool
  pub ad_hoc_fail : List String → Bool
  pub tools_fail : List String → Bool
  pub commit_fails : Bool

-- The readings of the clocks, in their order.
pub record Readings : Type 0 where
  pub start : Time
  pub finished_at : Time
  pub scans_now : Time
  pub tools_now : Time
  pub end : Time

pub record ReapReport : Type 0 where
  pub scans_reaped : ℕ
  pub ad_hoc_runs_reaped : ℕ
  pub tool_runs_reaped : ℕ
  pub duration : ℕ

-- Each statement is sent after the success of the one before; `none` for the early return on an error.
abbrev pub counted : Option ℕ → Option ℕ → Option ℕ → Tables → Option (Tables × ℕ × ℕ × ℕ)
counted none _ _ t = none
counted (some n) none _ t = none
counted (some n) (some m) none t = none
counted (some n) (some m) (some k) t = some (t, n, m, k)

-- The statements of the transaction in their order, on the tables that the transaction sees.
unfoldable pub reap_writes : Faults → Readings → List String → Tables → Option (Tables × ℕ × ℕ × ℕ)
reap_writes faults r ids t =
    let (scans, n) =
      mark_scans_failed faults.scans_fail ids orphaned_scan_error r.finished_at r.scans_now
        t.scans in
    let (ad_hoc, m) = mark_ad_hoc_runs_failed faults.ad_hoc_fail ids r.finished_at t.ad_hoc_runs in
    let (tools, k) =
      mark_tool_runs_failed faults.tools_fail ids r.finished_at r.tools_now t.tool_runs in
    counted n m k (record { scans = scans; ad_hoc_runs = ad_hoc; tool_runs = tools })

-- What the database holds after `Commit`, or after the deferred `Rollback`.
abbrev pub settle : Bool → Tables → Option (Tables × ReapReport) → Tables × Option ReapReport
settle commit_fails before none = (before, none)
settle true before (some (after, report)) = (before, none)
settle false before (some (after, report)) = (after, some report)

abbrev pub reported : ℕ → Option (Tables × ℕ × ℕ × ℕ) → Option (Tables × ReapReport)
reported duration none = none
reported duration (some (t, n, m, k)) = some (
  t,
  record { scans_reaped = n; ad_hoc_runs_reaped = m; tool_runs_reaped = k; duration = duration },
)

abbrev pub reap_orphans : Faults → Readings → Tables → List String → Option (Tables × ReapReport)
reap_orphans faults r t [] = some (
  t,
  record {
    scans_reaped = 0;
    ad_hoc_runs_reaped = 0;
    tool_runs_reaped = 0;
    duration = r.end - r.start;
  },
)
reap_orphans faults r t (id ∷ ids) = reported (r.end - r.start) (reap_writes faults r (id ∷ ids) t)

unfoldable pub reap_orphaned_scans : Faults → Readings → Tables → Tables × Option ReapReport
reap_orphaned_scans faults r t =
    if faults.begin_fails || faults.list_fails
    then (t, none)
    else settle faults.commit_fails t (reap_orphans faults r t (list_orphaned_scan_ids t.scans))
