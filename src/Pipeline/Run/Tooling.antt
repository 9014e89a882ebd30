-- ===== src/Pipeline/Run/Tooling.antt =====
-- internal/pipeline/pipeline.go: what the loop does for one tool.
use surfbot_agent.Base.{
  ℕ, suc, ◌+◌, Bool, true, false, not, ◌&&◌, ◌||◌, Option, none, some, List, [], ◌∷◌, ◌++◌, String,
  str_eq, length, if◌then◌else◌,
}
use surfbot_agent.Base.Text.{Bytes, codes, is_empty, contains, has_prefix, bytes_key}
use surfbot_agent.Base.Assoc.{Assoc, lookup}
use surfbot_agent.Storage.Reap.{
  ScanStatus, scan_running, scan_completed, scan_failed, scan_cancelled, ToolRunStatus,
  tool_skipped, tool_failed, tool_timeout, tool_completed,
}
use surfbot_agent.Pipeline.Handoff.{
  Phase, discovery, resolution, port_scan, http_probe, assessment, Emitted,
  extract_inputs_for_next_phase, narrow_hostnames_by_resolution, merge_hostnames, name_ips,
  enrich_hostports,
}
use surfbot_agent.Pipeline.Run.{
  DetectionTool, PipelineOptions, should_skip, is_hard_failure, run_options, ToolFinding,
  ToolReport, RunResult, ToolOutcome, tool_done, tool_error, PhaseStatus, phase_skipped,
  phase_failed, phase_completed, PhaseResult, scan_cancelled_phase, at_phase, Scan, Event,
  update_scan, call_tool, create_tool_run, upsert_asset, upsert_finding, World, at_tool, at_failure,
  at_cancel, at_diff, at_end, Progress, RunError, context_ended, scan_was_cancelled, tool_broke,
  create_scan, initializing, diffing, done_phase, write_changes, update_target_last_scan,
  creating_scan, getting_target, select_tools,
}

pub data StepEnd : Type 0 where
  next : Progress → StepEnd
  no_urls : Progress → StepEnd
  stop : RunError → Progress → StepEnd

abbrev pub is_cancelled : Option ScanStatus → Bool
is_cancelled (some scan_cancelled) = true
is_cancelled _ = false

abbrev pub emit : Event → Progress → Progress
emit e st = record st { events = e ∷ st.events }

-- Set the scan and write it; the write may fail.
abbrev pub save_scan : Bool → Scan → Progress → Progress
save_scan fails scan st = record st { scan = scan; events = update_scan scan fails ∷ st.events }

unfoldable pub cancel : Bool → Progress → Progress
cancel fails st =
    save_scan fails
      (record st.scan { status = scan_cancelled; phase = scan_cancelled_phase; finished = true }) st

abbrev pub phase_result : DetectionTool → PhaseStatus → ℕ → ℕ → String → PhaseResult
phase_result t status inputs outputs error = record {
  tool_name = t.name;
  phase = t.phase;
  status = status;
  input_count = inputs;
  output_count = outputs;
  error = error;
}

abbrev pub add_phase : PhaseResult → Progress → Progress
add_phase r st = record st { phases = st.phases ++ r ∷ [] }

-- `recordToolRunWithID` with a report: a status of the tool that is no success wins.
unfoldable pub merged_status : ToolRunStatus → ToolReport → ToolRunStatus
merged_status outer report = elim report.status [
  | tool_skipped ↦ tool_skipped
  | tool_failed ↦ tool_failed
  | tool_timeout ↦ tool_timeout
  | _ ↦ outer
]

unfoldable pub merged_message : String → ToolReport → String
merged_message outer report =
    if str_eq outer "" && not (str_eq report.message "") then report.message else outer

-- A range over a map is a walk of its entries.
abbrev pub find_value : (Bytes → Bool) → Assoc Bytes String → Option String
find_value p [] = none
find_value p ((value, id) ∷ m) = if p value then some id else find_value p m

abbrev pub or_next : Option String → String → String
or_next none s = s
or_next (some id) s = id

unfoldable pub resolve_asset_id : Bytes → Assoc Bytes String → String
unfolding lookup contains has_prefix
resolve_asset_id hint assets =
    let any = or_next (find_value (λ v. true) assets) "" in
    let fallback = or_next (find_value (λ v. has_prefix v (codes "http")) assets) any in
    let near = find_value (λ v. contains hint v || contains v hint) assets in
    if is_empty hint then fallback else or_next (lookup hint assets) (or_next near fallback)

abbrev pub persist_finding : Assoc Bytes String → ToolFinding → Progress → Progress
persist_finding assets f st =
    let hinted = resolve_asset_id f.asset_hint assets in
    let resolved = if str_eq hinted "" then resolve_asset_id [] assets else hinted in
    if str_eq resolved "" then st else emit (upsert_finding f resolved) st

unfoldable pub persist_findings :
    Option (Assoc Bytes String) → List ToolFinding → Progress → Progress
persist_findings assets [] st = st
persist_findings none (f ∷ fs) st = persist_findings none fs (persist_finding [] f st)
persist_findings (some m) (f ∷ fs) st = persist_findings (some m) fs (persist_finding m f st)

unfoldable pub persist_assets : List Emitted → Progress → Progress
persist_assets [] st = st
persist_assets (a ∷ assets) st = persist_assets assets (emit (upsert_asset a) st)

abbrev pub or_target : Bytes → List Bytes → List Bytes
or_target target [] = target ∷ []
or_target target (n ∷ names) = n ∷ names

abbrev pub or_kept : List Bytes → Option (List Bytes) → List Bytes
or_kept hostnames none = hostnames
or_kept hostnames (some kept) = kept

abbrev pub go_on : Phase → Progress → StepEnd
go_on http_probe st = elim st.inputs [ [] ↦ no_urls st | u ∷ us ↦ next st ]
go_on _ st = next st

unfoldable pub completed_phase : DetectionTool → RunResult → Progress → Progress
unfolding merged_status merged_message
completed_phase t r st =
    let outputs = length r.assets + length r.findings in
    emit
      (create_tool_run t (merged_status tool_completed r.report) (length st.inputs)
        (length r.findings) (merged_message "" r.report))
      (add_phase (phase_result t phase_completed (length st.inputs) outputs "") st)

abbrev pub failed_phase : DetectionTool → String → Progress → Progress
failed_phase t e st =
    emit (create_tool_run t tool_failed (length st.inputs) 0 e)
      (add_phase (phase_result t phase_failed (length st.inputs) 0 e) st)

abbrev pub give_up : Bool → DetectionTool → String → Progress → Progress
give_up fails t e st =
    save_scan fails
      (record st.scan { status = scan_failed; error = some (t.name, e); finished = true }) st

abbrev pub skipped_tool : DetectionTool → ℕ → String → Progress → Progress
skipped_tool t inputs why st =
    emit (create_tool_run t tool_skipped inputs 0 why)
      (add_phase (phase_result t phase_skipped 0 0 "") st)

abbrev pub after_step :
    (Progress → Progress × Option RunError)
    → (Progress → Progress)
    → StepEnd
    → Progress × Option RunError
after_step loop rest (next st) = loop st
after_step loop rest (no_urls st) = (rest st, none)
after_step loop rest (stop e st) = (st, some e)

module _ (parses_as_ip : Bytes → Bool) (w : World) (opts : PipelineOptions) (target : Bytes) where
  -- The inputs of the next tool. Only the assessment leaves a nil slice that keeps the inputs.
  unfoldable pub hand_over : Phase → List Emitted → Progress → Progress
  hand_over discovery assets st =
      let names = or_target target (extract_inputs_for_next_phase parses_as_ip discovery assets) in
      record st { inputs = names; hostnames = names }
  hand_over resolution assets st =
      let (kept, dropped) = narrow_hostnames_by_resolution st.hostnames assets in
      let hostnames = or_kept st.hostnames kept in
      record st {
        inputs =
            merge_hostnames (extract_inputs_for_next_phase parses_as_ip resolution assets)
              hostnames;
        hostnames = hostnames;
        ip_to_hostname = name_ips assets st.ip_to_hostname;
        dropped = some dropped;
      }
  hand_over port_scan assets st = record st {
    inputs =
        merge_hostnames
          (enrich_hostports (extract_inputs_for_next_phase parses_as_ip port_scan assets)
            st.ip_to_hostname)
          st.hostnames;
  }
  hand_over http_probe assets st = record st {
    inputs = extract_inputs_for_next_phase parses_as_ip http_probe assets;
  }
  hand_over assessment assets st = st

  unfoldable pub after_success : ℕ → DetectionTool → RunResult → Progress → StepEnd
  unfolding persist_assets persist_findings hand_over completed_phase
  after_success i t r st =
      let stored = persist_findings (w.asset_lookup i) r.findings (persist_assets r.assets st) in
      go_on t.phase (hand_over t.phase r.assets (completed_phase t r stored))

  unfoldable pub after_failure : ℕ → DetectionTool → String → Progress → StepEnd
  unfolding cancel is_hard_failure
  after_failure i t e st =
      if is_cancelled (w.status_after i)
      then stop scan_was_cancelled (
          cancel (w.write_fails (at_cancel i))
            (emit (create_tool_run t tool_failed (length st.inputs) 0 "canceled") st))
      else if is_hard_failure t
      then stop (tool_broke t.name e)
          (give_up (w.write_fails (at_failure i)) t e (failed_phase t e st))
      else next (failed_phase t e st)

  abbrev pub called : ℕ → ℕ → DetectionTool → Progress → Progress
  called i total t st = emit (call_tool t st.inputs (run_options opts t.phase)) (
      save_scan (w.write_fails (at_tool i))
        (record st.scan { phase = at_phase t.phase; progress = (i, total) }) st)

  abbrev pub after_call : ℕ → DetectionTool → ToolOutcome → Progress → StepEnd
  after_call i t (tool_done r) st = after_success i t r st
  after_call i t (tool_error e) st = after_failure i t e st

  unfoldable pub one_tool : ℕ → ℕ → DetectionTool → Progress → StepEnd
  unfolding cancel should_skip after_success after_failure run_options
  one_tool i total t st =
      if w.context_done i
      then stop context_ended (cancel (w.write_fails (at_cancel i)) st)
      else if is_cancelled (w.status_before i)
      then stop scan_was_cancelled (cancel (w.write_fails (at_cancel i)) st)
      else if should_skip opts.scan_type t.phase
      then next (skipped_tool t (length st.inputs) "" st)
      else after_call i t (w.run i st.inputs (run_options opts t.phase)) (called i total t st)

  -- The tools behind a probe that found no URL.
  unfoldable pub skip_rest : List DetectionTool → Progress → Progress
  unfolding should_skip
  skip_rest [] st = st
  skip_rest (t ∷ ts) st = skip_rest ts (
      if should_skip opts.scan_type t.phase
      then st
      else skipped_tool t 0 "no live URLs to assess" st)

  unfoldable pub run_tools : ℕ → ℕ → List DetectionTool → Progress → Progress × Option RunError
  unfolding one_tool skip_rest
  run_tools i total [] st = (st, none)
  run_tools i total (t ∷ ts) st =
      after_step (λ st'. run_tools (suc i) total ts st') (skip_rest ts) (one_tool i total t st)

pub data Outcome : Type 0 where
  returned : List PhaseResult → Outcome
  failed_with : RunError → Outcome

abbrev pub first_scan : Scan
first_scan = record {
  status = scan_running;
  phase = initializing;
  progress = (0, 1);
  error = none;
  finished = false;
}

abbrev pub start : Bytes → Progress
start target = record {
  scan = first_scan;
  inputs = target ∷ [];
  hostnames = target ∷ [];
  ip_to_hostname = [];
  dropped = none;
  phases = [];
  events = create_scan first_scan ∷ [];
}

-- Behind the loop.
unfoldable pub conclude : World → Progress → Progress
conclude w st =
    let changed =
      emit write_changes
        (save_scan (w.write_fails at_diff) (record st.scan { phase = diffing }) st) in
    emit update_target_last_scan (
      save_scan (w.write_fails at_end)
        (record changed.scan {
          status = scan_completed;
          phase = done_phase;
          progress = (1, 1);
          finished = true;
        })
        changed)

abbrev pub ended : World → Progress × Option RunError → List Event × Outcome
ended w (st, some e) = (st.events, failed_with e)
ended w (st, none) = ((conclude w st).events, returned (conclude w st).phases)

-- The events, the newest first, and what the caller gets.
unfoldable pub run :
    (Bytes → Bool) → World → PipelineOptions → List DetectionTool → List Event × Outcome
unfolding run_tools select_tools conclude
run parses_as_ip w opts registry =
    if not w.scan_created then ([], failed_with creating_scan) else elim w.target_value [
      | none ↦ (create_scan first_scan ∷ [], failed_with getting_target)
      | some target ↦
          let tools = select_tools registry opts.tools in
          ended w (run_tools parses_as_ip w opts target 0 (length tools) tools (start target))
    ]
