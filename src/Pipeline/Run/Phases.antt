-- ===== src/Pipeline/Run/Phases.antt =====
-- internal/pipeline/pipeline.go: which phases a finished scan reports.
use mathlib.Core.List.{append_assoc, append-nil}
use surfbot_agent.Base.{
  ℕ, suc, ◌≡◌, refl, sym, ◌∙◌, ap, Bool, not, Option, none, some, List, [], ◌∷◌, ◌++◌, String,
  Bool-cases, Option-cases, inl, inr, keep_if, map, arith, subst, length, ◌+◌,
}
use surfbot_agent.Base.Text.{Bytes}
use surfbot_agent.Base.Assoc.{Assoc}
use surfbot_agent.Pipeline.Handoff.{
  Phase, discovery, resolution, port_scan, http_probe, assessment, Emitted,
}
use surfbot_agent.Pipeline.Run.{
  DetectionTool, PipelineOptions, select_tools, should_skip, is_hard_failure, run_options,
  ToolFinding, ToolOutcome, tool_done, tool_error, World, Progress, RunError, PhaseResult,
  phase_completed,
}
use surfbot_agent.Pipeline.Run.Choice.{
  Label, tool_labels, wants, is_asked, should_skip-wants, keep_if-same, select_tools-is_named,
  labels_asked,
}
use surfbot_agent.Pipeline.Run.Tooling.{
  StepEnd, next, no_urls, stop, is_cancelled, one_tool, run_tools, conclude, Outcome, returned,
  failed_with, run, ended, after_call, after_failure, after_success, called, go_on, after_step,
  skip_rest, skipped_tool, phase_result, start, hand_over, persist_findings, persist_finding,
  persist_assets, completed_phase,
}

-- The phases that the type of the scan asks for.
abbrev pub wanted : PipelineOptions → List Label → List Label
wanted opts ls = keep_if (λ l. not (should_skip opts.scan_type l.1)) ls

abbrev pub phase_labels : List PhaseResult → List Label
phase_labels ps = map (λ p. (p.tool_name, p.phase)) ps

phase_labels-append :
    (ps qs : List PhaseResult) → phase_labels (ps ++ qs) ≡ phase_labels ps ++ phase_labels qs
phase_labels-append [] qs = refl
phase_labels-append (p ∷ ps) qs = rw (phase_labels-append ps qs) refl

wanted-append :
    (opts : PipelineOptions) (ls ms : List Label)
    → wanted opts (ls ++ ms) ≡ wanted opts ls ++ wanted opts ms
wanted-append opts [] ms = refl
wanted-append opts (l ∷ ls) ms = elim (Bool-cases (should_skip opts.scan_type l.1)) [
  | inl s ↦ rw s (wanted-append opts ls ms)
  | inr s ↦ rw s (ap (λ r. l ∷ r) (wanted-append opts ls ms))
]

hand_over-phases :
    (parses_as_ip : Bytes → Bool) (w : World) (opts : PipelineOptions) (target : Bytes) (p : Phase)
    (assets : List Emitted) (st : Progress)
    → (hand_over parses_as_ip w opts target p assets st).phases ≡ st.phases
unfolding hand_over
hand_over-phases parses_as_ip w opts target discovery assets st = refl
hand_over-phases parses_as_ip w opts target resolution assets st = refl
hand_over-phases parses_as_ip w opts target port_scan assets st = refl
hand_over-phases parses_as_ip w opts target http_probe assets st = refl
hand_over-phases parses_as_ip w opts target assessment assets st = refl

persist_assets-phases :
    (assets : List Emitted) (st : Progress) → (persist_assets assets st).phases ≡ st.phases
unfolding persist_assets
persist_assets-phases [] st = refl
persist_assets-phases (a ∷ assets) st = persist_assets-phases assets _

persist_finding-phases :
    (f : ToolFinding) (m : Assoc Bytes String) (st : Progress)
    → (persist_finding m f st).phases ≡ st.phases
persist_finding-phases f m st = ground arith

persist_findings-phases :
    (o : Option (Assoc Bytes String)) (fs : List ToolFinding) (st : Progress)
    → (persist_findings o fs st).phases ≡ st.phases
unfolding persist_findings
persist_findings-phases o [] st = refl
persist_findings-phases none (f ∷ fs) st =
    persist_findings-phases none fs _ ∙ persist_finding-phases f [] st
persist_findings-phases (some m) (f ∷ fs) st =
    persist_findings-phases (some m) fs _ ∙ persist_finding-phases f m st

abbrev reported : PipelineOptions → Progress → List Label
reported opts st = wanted opts (phase_labels st.phases)

-- A finished run reports a tool for a tool.
abbrev Reports : PipelineOptions → List Label → Progress × Option RunError → Type 0
Reports opts ls (st, some e) = Unit {0}
Reports opts ls (st, none) = reported opts st ≡ ls

module _ (parses_as_ip : Bytes → Bool) (w : World) (opts : PipelineOptions) (target : Bytes) where
  reported-append :
      (st : Progress) (r : PhaseResult) (ps : List PhaseResult)
      → ps ≡ st.phases ++ r ∷ []
      → wanted opts (phase_labels ps)
        ≡ reported opts st ++ wanted opts ((r.tool_name, r.phase) ∷ [])
  reported-append st r ps h =
      rw h (
        rw (phase_labels-append st.phases (r ∷ [])) (wanted-append opts (phase_labels st.phases) _))

  -- What a step for a tool adds to the report.
  abbrev Adds : DetectionTool → List Label → StepEnd → Type 0
  Adds t before (next st) = reported opts st ≡ before ++ wanted opts (tool_labels (t ∷ []))
  Adds t before (no_urls st) = reported opts st ≡ before ++ wanted opts (tool_labels (t ∷ []))
  Adds t before (stop e st) = Unit {0}

  go_on-Adds :
      (t : DetectionTool) (ls : List Label) (p : Phase) (st : Progress)
      → Adds t ls (next st)
      → Adds t ls (go_on p st)
  go_on-Adds t ls discovery st h = h
  go_on-Adds t ls resolution st h = h
  go_on-Adds t ls port_scan st h = h
  go_on-Adds t ls http_probe st h = by_urls st.inputs
    where
      by_urls : (us : List Bytes) → Adds t ls (elim us [ [] ↦ no_urls st | u ∷ us ↦ next st ])
      by_urls [] = h
      by_urls (u ∷ us) = h
  go_on-Adds t ls assessment st h = h

  after_failure-Adds :
      (i : ℕ) (t : DetectionTool) (e : String) (st : Progress)
      → Adds t (reported opts st) (after_failure parses_as_ip w opts target i t e st)
  unfolding after_failure
  after_failure-Adds i t e st = elim (Bool-cases (is_cancelled (w.status_after i))) [
    | inl c ↦ rw c tt
    | inr c ↦ elim (Bool-cases (is_hard_failure t)) [
      | inl hard ↦ rw c (rw hard tt)
      | inr soft ↦ rw c (rw soft (reported-append st _ _ refl))
    ]
  ]

  after_call-Adds :
      (i : ℕ) (t : DetectionTool) (o : ToolOutcome) (st : Progress)
      → Adds t (reported opts st) (after_call parses_as_ip w opts target i t o st)
  unfolding after_success completed_phase
  after_call-Adds i t (tool_error e) st = after_failure-Adds i t e st
  after_call-Adds i t (tool_done r) st =
      let stored = persist_findings (w.asset_lookup i) r.findings (persist_assets r.assets st) in
      let p : PhaseResult =
        phase_result t phase_completed (length stored.inputs) (length r.assets + length r.findings)
          "" in
      let kept =
        persist_findings-phases (w.asset_lookup i) r.findings (persist_assets r.assets st)
        ∙ persist_assets-phases r.assets st in
      go_on-Adds t (reported opts st) t.phase _ (
        reported-append st p _ (
          hand_over-phases parses_as_ip w opts target t.phase r.assets (completed_phase t r stored)
          ∙ ap (λ ps. ps ++ p ∷ []) kept))

  one_tool-Adds :
      (i total : ℕ) (t : DetectionTool) (st : Progress)
      → Adds t (reported opts st) (one_tool parses_as_ip w opts target i total t st)
  unfolding one_tool
  one_tool-Adds i total t st = elim (Bool-cases (w.context_done i)) [
    | inl c ↦ rw c tt
    | inr c ↦ elim (Bool-cases (is_cancelled (w.status_before i))) [
      | inl b ↦ rw c (rw b tt)
      | inr b ↦ elim (Bool-cases (should_skip opts.scan_type t.phase)) [
        | inl s ↦
            let skipped = skipped_tool t (length st.inputs) "" st in
            let e : one_tool parses_as_ip w opts target i total t st ≡ next skipped =
              rw c (rw b (rw s refl)) in
            subst (Adds t (reported opts st)) (sym e) (reported-append st _ _ refl)
        | inr s ↦
            let o = w.run i st.inputs (run_options opts t.phase) in
            let before = called parses_as_ip w opts target i total t st in
            let e : one_tool parses_as_ip w opts target i total t st
                ≡ after_call parses_as_ip w opts target i t o before =
              rw c (rw b (rw s refl)) in
            subst (Adds t (reported opts st)) (sym e) (after_call-Adds i t o before)
      ]
    ]
  ]

  one_more :
      (t : DetectionTool) (ts : List DetectionTool) (ls : List Label)
      → (ls ++ wanted opts (tool_labels (t ∷ []))) ++ wanted opts (tool_labels ts)
        ≡ ls ++ wanted opts (tool_labels (t ∷ ts))
  one_more t ts ls =
      append_assoc ls (wanted opts (tool_labels (t ∷ []))) (wanted opts (tool_labels ts))
      ∙ ap (λ ms. ls ++ ms) (sym (wanted-append opts (tool_labels (t ∷ [])) (tool_labels ts)))

  skip_rest-reported :
      (ts : List DetectionTool) (st : Progress)
      → reported opts (skip_rest parses_as_ip w opts target ts st)
        ≡ reported opts st ++ wanted opts (tool_labels ts)
  unfolding skip_rest
  skip_rest-reported [] st = sym (append-nil _)
  skip_rest-reported (t ∷ ts) st = elim (Bool-cases (should_skip opts.scan_type t.phase)) [
    | inl s ↦
        let e : skip_rest parses_as_ip w opts target (t ∷ ts) st
            ≡ skip_rest parses_as_ip w opts target ts st =
          rw s refl in
        let f : wanted opts (tool_labels (t ∷ ts)) ≡ wanted opts (tool_labels ts) = rw s refl in
        ap (reported opts) e ∙ skip_rest-reported ts st ∙ ap (λ ls. reported opts st ++ ls) (sym f)
    | inr s ↦
        let q = skipped_tool t 0 "no live URLs to assess" st in
        let e : skip_rest parses_as_ip w opts target (t ∷ ts) st
            ≡ skip_rest parses_as_ip w opts target ts q =
          rw s refl in
        ap (reported opts) e
        ∙ skip_rest-reported ts q
        ∙ ap (λ ls. ls ++ wanted opts (tool_labels ts)) (reported-append st _ _ refl)
        ∙ one_more t ts (reported opts st)
  ]

  after_step-Reports :
      (loop : Progress → Progress × Option RunError) (rest : Progress → Progress)
      (t : DetectionTool) (ls ms : List Label) (s : StepEnd)
      → Adds t ls s
      → ((st : Progress) → Reports opts (reported opts st ++ ms) (loop st))
      → ((st : Progress) → reported opts (rest st) ≡ reported opts st ++ ms)
      → Reports opts ((ls ++ wanted opts (tool_labels (t ∷ []))) ++ ms) (after_step loop rest s)
  after_step-Reports loop rest t ls ms (next st) h ih k =
      subst (λ x. Reports opts (x ++ ms) (loop st)) h (ih st)
  after_step-Reports loop rest t ls ms (no_urls st) h ih k = k st ∙ ap (λ x. x ++ ms) h
  after_step-Reports loop rest t ls ms (stop e st) h ih k = tt

  run_tools-Reports :
      (i total : ℕ) (ts : List DetectionTool) (st : Progress)
      → Reports opts
          (reported opts st ++ wanted opts (tool_labels ts))
          (run_tools parses_as_ip w opts target i total ts st)
  unfolding run_tools
  run_tools-Reports i total [] st = sym (append-nil _)
  run_tools-Reports i total (t ∷ ts) st =
      subst (λ ls. Reports opts ls (run_tools parses_as_ip w opts target i total (t ∷ ts) st))
        (one_more t ts (reported opts st))
        (after_step-Reports _ _ t (reported opts st) _ _ (one_tool-Adds i total t st)
          (λ st'. run_tools-Reports (suc i) total ts st') (λ st'. skip_rest-reported ts st'))

abbrev Answers : PipelineOptions → List Label → Outcome → Type 0
Answers opts ls (returned phases) = wanted opts (phase_labels phases) ≡ ls
Answers opts ls (failed_with e) = Unit {0}

ended-Answers :
    (w : World) (opts : PipelineOptions) (ls : List Label) (out : Progress × Option RunError)
    → Reports opts ls out
    → Answers opts ls (ended w out).1
unfolding conclude
ended-Answers w opts ls (st, none) h = h
ended-Answers w opts ls (st, some e) h = tt

run-Answers :
    (parses_as_ip : Bytes → Bool) (w : World) (opts : PipelineOptions)
    (registry : List DetectionTool)
    → Answers opts
        (wanted opts (tool_labels (select_tools registry opts.tools)))
        (run parses_as_ip w opts registry).1
unfolding run
run-Answers parses_as_ip w opts registry = elim (Bool-cases w.scan_created) [
  | inl c ↦ elim (Option-cases w.target_value) [
    | inl n ↦ rw c (rw n tt)
    | inr (target, e) ↦
        let tools = select_tools registry opts.tools in
        let n = length tools in
        let out = run_tools parses_as_ip w opts target 0 n tools (start target) in
        rw c (
          rw e (
            ended-Answers w opts _ out
              (run_tools-Reports parses_as_ip w opts target 0 n tools (start target))))
  ]
  | inr c ↦ rw c tt
]

-- Whatever the store, the context and the tools answer: a run that returns its phases reports, among the phases that
-- the type of the scan has, each tool of the registry once and in the order of the registry, that is of such a phase
-- and is named by the options, where they name any; and no other tool.
pub run-phases :
    (parses_as_ip : Bytes → Bool) (w : World) (opts : PipelineOptions)
    (registry : List DetectionTool) (phases : List PhaseResult)
    → (run parses_as_ip w opts registry).1 ≡ returned phases
    → keep_if (λ l. wants opts.scan_type l.1) (phase_labels phases)
      ≡ tool_labels (keep_if (is_asked opts) registry)
run-phases parses_as_ip w opts registry phases h =
    let same = λ (l : Label). should_skip-wants opts.scan_type l.1 in
    let tools = select_tools registry opts.tools in
    sym (keep_if-same _ _ (phase_labels phases) same)
    ∙ subst (Answers opts (wanted opts (tool_labels tools))) h
        (run-Answers parses_as_ip w opts registry)
    ∙ keep_if-same _ _ (tool_labels tools) same
    ∙ ap (λ ts. keep_if (λ l. wants opts.scan_type l.1) (tool_labels ts))
        (select_tools-is_named registry opts.tools)
    ∙ labels_asked opts registry
