-- ===== src/Lib.antt =====
-- A model of the core of surfbot-agent, the agent that schedules security scans of targets, runs the
-- detection tools and scores what they find.
--
-- The parts and how they interact. One process at a time holds the scheduler's lock, and at its start it
-- reaps the scans that a crash left running. The scheduler's master ticker asks the store for due schedules,
-- takes a target's lock, asks the blackout evaluator whether the target may be scanned now, and queues a job
-- with the worker pool; ad-hoc requests take the same way. A worker runs the job under the configuration
-- that the cascade resolves, and then the expander computes the next fire time of the schedule, skipping
-- blackouts; a tick also pauses running scans whose target enters a blackout. A scan runs its tools
-- in order and hands on what each finds. The pipeline compares the
-- assets and findings before and after a scan. The port scanner reads a list of ports and probes them, and
-- its breaker bounds the probes in flight; the score summarises findings. Schedules are edited through the
-- HTTP handlers, which check a request, write the store, and recompute fire times; the web interface's
-- checks stand in front of them.
--
-- - Base: the shared vocabulary. Base/Tests (Boolean tests and equality), Lists, Rotate, Members, Assoc
--   (association lists, for Go maps), Int (integers over the native numbers) and Text (texts as bytes,
--   with the functions of Go's strings and strconv that the source uses; Text/Decimal, Text/Parts).
-- - Model (internal/model/schedule.go): the data exchanged, with errors as values. Model/Cascade
--   (internal/model/cascade.go): `resolve_effective_config` and its parts, ResolveEffectiveConfig;
--   Cascade/Fields and Cascade/Tools hold what concerns the scalar fields and the tools' parameters.
-- - Detection/Breaker (internal/detection/breaker.go): `record_result` is recordResult; Breaker/Bounds and
--   Breaker/Window.
-- - Detection/Naabu (internal/detection/naabu.go): `parse_ports` is ParsePorts, `resolve_naabu_params`
--   resolveNaabuParams. Naabu/Banner has `grab_banner` and `sanitize_banner`; Naabu/Probe `probe_port`,
--   `probe_twice` (a goroutine's attempts) and `collect` (what it leaves under the mutex); Naabu/Admission
--   `try_admit`, tryAdmit; Naabu/Ports, and Probe/Collected.
-- - Scoring (internal/scoring/score.go): `compute_security_score`, on machine integers; Scoring/Range.
-- - Sched (internal/daemon/intervalsched):
--   - Locks (locks.go): `try_acquire`, `release`, `is_held`; Locks/Exclusion.
--   - Rules: the interface to the RRULE library and the timezone database, with an instance in
--     Rules/Finite whose rules are lists of occurrences.
--   - Blackout (blackout.go): `refresh` is Refresh, `is_active` IsActive, `window_end` NextWindowEnd;
--     Blackout/Coverage, Windows, Ends, Cache and Fresh.
--   - Expander (rrule_expand.go): `compute_next_run_at`; Expander/Slots, Boundary, and Snapshot, which
--     fills the expander's interface to the evaluator.
--   - Pool (workerpool.go): the worker pool as a step system; Pool/Staff and Pool/Queue.
--   - Ticker (scheduler.go): `dispatch_round` is tick, `dispatch_ad_hoc` is DispatchAdHoc, each run without
--     interruption; Ticker/Locking and Rounds. Ticker/Threads has the same two methods as goroutines,
--     `thread_step` being one call of the locks, the pool or a store, and Ticker/Exclusive interleaves the
--     steps of any number of them with workers and ends of runs.
--     Ticker/Runs has scanJobRunner's Run and runAdHoc as `begin_run` and `finish_run`, and
--     `evaluate_in_flight`; Runs/Endings.
--   - Window (window.go): `parse_time_of_day`, `contains`, `next_open`; Window/Clock, Contains, Opening.
--   - Overlap (overlap.go): `validate_no_overlap_at`; Overlap/Pairs and Conflicts.
--   - Recompute (cascade_recompute.go): `recompute_next_run_for_template`; Recompute/Writes.
-- - Pipeline/Run (internal/pipeline/pipeline.go): `run` is Run, on the answers of the store and of the tools;
--   Run/Tooling has the round for one tool and the loop; Run/Endings, Choice (which tools a run is asked for,
--   said without the code's functions), Phases and Feeding. Every update of the scan may fail: `World.write_fails`
--   answers for it. Pipeline/Handoff has
--   what one tool hands to the next.
-- - Pipeline/Diff (internal/pipeline/diff.go): `compute_changes` is ComputeChanges; Diff/Changes.
-- - Pipeline/Findings (internal/pipeline/diff_findings.go and finalize.go): `compute_finding_changes` is
--   ComputeFindingChanges, `finalize_scan_delta` FinalizeScanDelta; Findings/Deltas.
-- - Storage (internal/storage): the statements, as functions on the rows of a table.
--   - Lock (scheduler_lock.go, and internal/cli/scheduler_lock.go): `acquire_scheduler_lock` and so on;
--     `first_try` and `force_take` are the halves of acquireSchedulerLock. Lock/Holding.
--   - Reap (zombie_reap.go, and internal/daemon/intervalsched/zombie_reap.go): `reap_orphaned_scans` is
--     ReapOrphanedScans; Reap/Chunks, Statements, Atomic.
--   - Schedules (schedules.go): `create`, `update`, `list_due` and the others; Schedules/Rows, Counts and Due.
-- - Api (internal/api/v1): Paging (types.go, and the slice of the list handlers); Schedules (schedules.go)
--   with Schedules/Requests, Handlers (`create_schedule` is createSchedule, and so on), Given, Responses, Resume.
-- - Webui/Security (internal/webui/security.go): `server_handler` is the chain of NewServer; Security/Gate.
-- - Tests: concrete runs and instances of the theorems.
--
-- Time is an instant, nanoseconds as a natural number since Go's zero time. The clock, the store's answers
-- and the random source are arguments. A method that holds a mutex throughout is one function on the
-- state; `tick`, `DispatchAdHoc`, the pool's workers and `Dispatch` are split into the steps between which
-- others may run. The
-- search for a fire time has the bound of the source, 100 rounds, and fails with the source's error when
-- it is spent. The loop over chunks of ids has as many rounds as there are ids, and the printing of a number n
-- has n + 1, which the theorems show to be enough; every other loop is structural recursion. Durations and
-- counts are taken to be small enough for their int64, except where a request or a count sets no bound: the
-- sum of an offset and a limit, the seconds of an estimated duration and the arithmetic of the score wrap
-- around.
-- The store keeps times in whole seconds. A call of the database that can fail is a parameter where the
-- source reacts to it in more than an error response.
--
-- Not modelled: the SQL of internal/storage besides the tables named above, the other HTTP handlers of
-- internal/api and internal/webui, the command line, the third-party scanners and the process management of
-- internal/daemon, which are input and output; the texts that describe a change; of the scheduler, the
-- goroutine of the ticker, the wait of `DispatchAdHoc` and `Stop`, and migrate_legacy.go and
-- schedule_state.go; of the pipeline, log lines, reports and typed parameters; the parameters of the tools
-- other than naabu (internal/model/tool_params.go) and the validation of rules (internal/rrule), which are parameters.
pub mod Api
pub mod Base
pub mod Detection
pub mod Model
pub mod Pipeline
pub mod Sched
pub mod Scoring
pub mod Storage
pub mod Tests
pub mod Webui
