-- ===== src/Pipeline/Run/Endings.antt =====
-- internal/pipeline/pipeline.go: how a scan ends.
use surfbot_agent.Base.{
  ℕ, suc, inl, inr, ◌⊎◌, ◌≡◌, refl, Bool, true, false, Option, none, some, List, [], ◌∷◌, String,
  Bool-cases, arith,
}
use surfbot_agent.Base.Text.{Bytes}
use surfbot_agent.Base.Assoc.{Assoc}
use surfbot_agent.Storage.Reap.{
  ScanStatus, scan_running, scan_completed, scan_failed, scan_cancelled,
}
use surfbot_agent.Pipeline.Handoff.{
  Phase, discovery, resolution, port_scan, http_probe, assessment, Emitted,
}
use surfbot_agent.Pipeline.Run.{
  DetectionTool, PipelineOptions, should_skip, is_hard_failure, ToolOutcome, tool_done, tool_error,
  ToolFinding, Scan, Event, create_scan, update_scan, World, at_diff, at_tool, Progress, RunError,
  creating_scan, getting_target, context_ended, scan_was_cancelled, tool_broke,
}
use surfbot_agent.Pipeline.Run.Tooling.{
  StepEnd, next, no_urls, stop, is_cancelled, cancel, one_tool, run_tools, skip_rest, conclude,
  Outcome, returned, failed_with, ended, after_call, after_failure, after_success, called, go_on,
  after_step, hand_over, persist_assets, persist_finding, persist_findings, completed_phase,
}

-- The scan as this run has left it in the store: the newest write that did not fail.
abbrev pub stored_scan : List Event → Option Scan
stored_scan [] = none
stored_scan (create_scan s ∷ es) = some s
stored_scan (update_scan s false ∷ es) = some s
stored_scan (update_scan s true ∷ es) = stored_scan es
stored_scan (_ ∷ es) = stored_scan es

-- The newest write of the scan, and did it fail?
abbrev pub last_write : List Event → Option (Scan × Bool)
last_write [] = none
last_write (create_scan s ∷ es) = some (s, false)
last_write (update_scan s fails ∷ es) = some (s, fails)
last_write (_ ∷ es) = last_write es

-- Running, without an end.
abbrev pub IsOpen : Scan → Type 0
IsOpen s = (s.status ≡ scan_running) × (s.finished ≡ false)

abbrev pub LeftOpen : List Event → Type 0
LeftOpen es = (s : Scan) × (stored_scan es ≡ some s) × IsOpen s

-- The newest write has a property, and is what the store has; or that write has failed, and the store has the scan
-- open.
abbrev pub Closed : (Scan → Type 0) → List Event → Type 0
Closed P es =
    (s : Scan) × P s
    × (((last_write es ≡ some (s, false)) × (stored_scan es ≡ some s))
        ⊎ ((last_write es ≡ some (s, true)) × LeftOpen es))

abbrev pub Ends : ScanStatus → Scan → Type 0
Ends status s = (s.status ≡ status) × (s.finished ≡ true)

-- What the store says for an answer of the run.
abbrev pub Told : Outcome → List Event → Type 0
Told (returned phases) es = Closed (Ends scan_completed) es
Told (failed_with creating_scan) es = stored_scan es ≡ none
Told (failed_with getting_target) es = LeftOpen es
Told (failed_with context_ended) es = Closed (Ends scan_cancelled) es
Told (failed_with scan_was_cancelled) es = Closed (Ends scan_cancelled) es
Told (failed_with (tool_broke name e)) es =
    Closed (λ s. Ends scan_failed s × (s.error ≡ some (name, e))) es

-- While the run goes on.
abbrev Going : Progress → Type 0
Going st = IsOpen st.scan × LeftOpen st.events

-- A write that closes the scan.
closing :
    (P : Scan → Type 0) (s : Scan) (fails : Bool) (es : List Event)
    → P s
    → LeftOpen es
    → Closed P (update_scan s fails ∷ es)
closing P s false es p o = (s, p, inl (refl, refl))
closing P s true es p o = (s, p, inr (refl, o))

-- A write that does not.
keeping :
    (s : Scan) (fails : Bool) (es : List Event)
    → IsOpen s
    → LeftOpen es
    → LeftOpen (update_scan s fails ∷ es)
keeping s false es p o = (s, refl, p)
keeping s true es p o = o

persist_assets-Going :
    (assets : List Emitted) (st : Progress) → Going st → Going (persist_assets assets st)
unfolding persist_assets
persist_assets-Going [] st h = h
persist_assets-Going (a ∷ assets) st h = persist_assets-Going assets _ h

persist_finding-Going :
    (m : Assoc Bytes String) (f : ToolFinding) (st : Progress)
    → Going st
    → Going (persist_finding m f st)
persist_finding-Going m f st h = ground arith

persist_findings-Going :
    (o : Option (Assoc Bytes String)) (fs : List ToolFinding) (st : Progress)
    → Going st
    → Going (persist_findings o fs st)
unfolding persist_findings
persist_findings-Going o [] st h = h
persist_findings-Going none (f ∷ fs) st h =
    persist_findings-Going none fs _ (persist_finding-Going [] f st h)
persist_findings-Going (some m) (f ∷ fs) st h =
    persist_findings-Going (some m) fs _ (persist_finding-Going m f st h)

module _ (parses_as_ip : Bytes → Bool) (w : World) (opts : PipelineOptions) (target : Bytes) where
  abbrev Tells : Progress × Option RunError → Type 0
  Tells out = Told (ended w out).1 (ended w out).0

  -- A step goes on with the scan open, or has told why it stops.
  abbrev Steps : StepEnd → Type 0
  Steps (next st) = Going st
  Steps (no_urls st) = Going st
  Steps (stop e st) = Told (failed_with e) st.events

  hand_over-Going :
      (p : Phase) (assets : List Emitted) (st : Progress)
      → Going st
      → Going (hand_over parses_as_ip w opts target p assets st)
  unfolding hand_over
  hand_over-Going discovery assets st h = h
  hand_over-Going resolution assets st h = h
  hand_over-Going port_scan assets st h = h
  hand_over-Going http_probe assets st h = h
  hand_over-Going assessment assets st h = h

  cancel-Closed :
      (fails : Bool) (st : Progress)
      → LeftOpen st.events
      → Closed (Ends scan_cancelled) (cancel fails st).events
  unfolding cancel
  cancel-Closed fails st o = closing (Ends scan_cancelled) _ fails st.events (refl, refl) o

  after_failure-Steps :
      (i : ℕ) (t : DetectionTool) (e : String) (st : Progress)
      → Going st
      → Steps (after_failure parses_as_ip w opts target i t e st)
  unfolding after_failure cancel
  after_failure-Steps i t e st (p, o) = elim (Bool-cases (is_cancelled (w.status_after i))) [
    | inl c ↦ rw c (closing (Ends scan_cancelled) _ _ _ (refl, refl) o)
    | inr c ↦ elim (Bool-cases (is_hard_failure t)) [
      | inl hard ↦ rw c (rw hard (closing _ _ _ _ ((refl, refl), refl) o))
      | inr soft ↦ rw c (rw soft (p, o))
    ]
  ]

  go_on-Steps : (p : Phase) (st : Progress) → Going st → Steps (go_on p st)
  go_on-Steps discovery st h = h
  go_on-Steps resolution st h = h
  go_on-Steps port_scan st h = h
  go_on-Steps http_probe st h = by_urls st.inputs
    where
      by_urls : (us : List Bytes) → Steps (elim us [ [] ↦ no_urls st | u ∷ us ↦ next st ])
      by_urls [] = h
      by_urls (u ∷ us) = h
  go_on-Steps assessment st h = h

  after_call-Steps :
      (i : ℕ) (t : DetectionTool) (o : ToolOutcome) (st : Progress)
      → Going st
      → Steps (after_call parses_as_ip w opts target i t o st)
  unfolding after_success completed_phase
  after_call-Steps i t (tool_error e) st h = after_failure-Steps i t e st h
  after_call-Steps i t (tool_done r) st h =
      let saved = persist_assets r.assets st in
      let stored = persist_findings (w.asset_lookup i) r.findings saved in
      go_on-Steps t.phase _ (
        hand_over-Going t.phase r.assets (completed_phase t r stored) (
          persist_findings-Going (w.asset_lookup i) r.findings saved
            (persist_assets-Going r.assets st h)))

  one_tool-Steps :
      (i total : ℕ) (t : DetectionTool) (st : Progress)
      → Going st
      → Steps (one_tool parses_as_ip w opts target i total t st)
  unfolding one_tool
  one_tool-Steps i total t st (p, o) = elim (Bool-cases (w.context_done i)) [
    | inl c ↦ rw c (cancel-Closed _ st o)
    | inr c ↦ elim (Bool-cases (is_cancelled (w.status_before i))) [
      | inl b ↦ rw c (rw b (cancel-Closed _ st o))
      | inr b ↦ elim (Bool-cases (should_skip opts.scan_type t.phase)) [
        | inl s ↦ rw c (rw b (rw s (p, o)))
        | inr s ↦ rw c (
            rw b (
              rw s (
                after_call-Steps i t _ (called parses_as_ip w opts target i total t st)
                  (p, keeping _ (w.write_fails (at_tool i)) st.events p o))))
      ]
    ]
  ]

  skip_rest-Going :
      (ts : List DetectionTool) (st : Progress)
      → Going st
      → Going (skip_rest parses_as_ip w opts target ts st)
  unfolding skip_rest
  skip_rest-Going [] st h = h
  skip_rest-Going (t ∷ ts) st h = elim (Bool-cases (should_skip opts.scan_type t.phase)) [
    | inl s ↦ skip_rest-Going ts _ (rw s h)
    | inr s ↦ skip_rest-Going ts _ (rw s h)
  ]

  concluded : (st : Progress) → Going st → Tells (st, none)
  unfolding conclude
  concluded st (p, o) =
      closing (Ends scan_completed) _ _ _ (refl, refl) (keeping _ (w.write_fails at_diff) _ p o)

  after_step-Told :
      (loop : Progress → Progress × Option RunError) (rest : Progress → Progress) (s : StepEnd)
      → Steps s
      → ((st : Progress) → Going st → Tells (loop st))
      → ((st : Progress) → Going st → Going (rest st))
      → Tells (after_step loop rest s)
  after_step-Told loop rest (next st) h k g = k st h
  after_step-Told loop rest (no_urls st) h k g = concluded (rest st) (g st h)
  after_step-Told loop rest (stop e st) h k g = h

  pub run_tools-Told :
      (i total : ℕ) (ts : List DetectionTool) (st : Progress)
      → Going st
      → Tells (run_tools parses_as_ip w opts target i total ts st)
  unfolding run_tools
  run_tools-Told i total [] st h = concluded st h
  run_tools-Told i total (t ∷ ts) st h =
      after_step-Told (λ st'. run_tools parses_as_ip w opts target (suc i) total ts st')
        (λ st'. skip_rest parses_as_ip w opts target ts st')
        (one_tool parses_as_ip w opts target i total t st) (one_tool-Steps i total t st h)
        (λ st' h'. run_tools-Told (suc i) total ts st' h') (λ st' h'. skip_rest-Going ts st' h')
