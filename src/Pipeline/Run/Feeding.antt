-- ===== src/Pipeline/Run/Feeding.antt =====
-- internal/pipeline/pipeline.go: a scan in the order of the registry never starts a tool on nothing.
use surfbot_agent.Base.{
  ℕ, suc, ◌≤◌, ◌≡◌, refl, sym, ◌∙◌, subst, Bool, true, Option, none, some, List, [], ◌∷◌, ◌++◌,
  String, Bool-cases, Option-cases, inl, inr, In, All, length, keep_if, arith,
}
use surfbot_agent.Base.Text.{Bytes, bytes_eq_iff}
use surfbot_agent.Base.Assoc.{Assoc}
use surfbot_agent.Pipeline.Handoff.{
  Phase, discovery, resolution, port_scan, http_probe, assessment, Emitted, evidence,
  extract_inputs_for_next_phase, narrow_hostnames_by_resolution, narrow_by, merge_hostnames, dedup,
  is_seen,
}
use surfbot_agent.Pipeline.Run.{
  DetectionTool, PipelineOptions, RunOptions, select_tools, should_skip, is_hard_failure,
  ToolFinding, RunResult, ToolOutcome, tool_done, tool_error, World, Progress, RunError, Event,
  call_tool,
}
use surfbot_agent.Pipeline.Run.Tooling.{
  StepEnd, next, no_urls, stop, is_cancelled, cancel, one_tool, run_tools, conclude, run, ended,
  after_call, after_failure, after_success, go_on, after_step, skip_rest, start, hand_over,
  persist_findings, persist_finding, persist_assets, completed_phase, or_kept, or_target,
}

abbrev pub NonEmpty : List Bytes → Type 0
NonEmpty [] = ⊥
NonEmpty (x ∷ xs) = Unit {0}

-- The place of a phase in the registry.
abbrev pub rank : Phase → ℕ
rank discovery = 0
rank resolution = 1
rank port_scan = 2
rank http_probe = 3
rank assessment = 4

-- The tools stand in the order of their phases, from a phase on, and no phase twice.
abbrev pub IsOrdered : ℕ → List DetectionTool → Type 0
IsOrdered n [] = Unit {0}
IsOrdered n (t ∷ ts) = (n ≤ rank t.phase) × IsOrdered (suc (rank t.phase)) ts

-- Every call of a tool has an input.
abbrev pub Fed : List Event → Type 0
Fed [] = Unit {0}
Fed (call_tool t inputs o ∷ es) = NonEmpty inputs × Fed es
Fed (_ ∷ es) = Fed es

-- The resolution names only hosts that it was given.
abbrev pub NamesInputs : World → Type 0
NamesInputs w =
    (i : ℕ) (inputs : List Bytes) (o : RunOptions) (r : RunResult)
    → w.run i inputs o ≡ tool_done r
    → All (λ h. In h inputs) (evidence r.assets)

NonEmpty-append : (xs ys : List Bytes) → NonEmpty ys → NonEmpty (xs ++ ys)
NonEmpty-append [] ys h = h
NonEmpty-append (x ∷ xs) ys h = tt

-- Among the names, a name of the evidence is kept.
In-keep_if :
    (p : Bytes → Bool) (h : Bytes) (ns : List Bytes)
    → p h ≡ true
    → In h ns
    → NonEmpty (keep_if p ns)
In-keep_if p h [] e m = absurd m
In-keep_if p h (n ∷ ns) e m = elim (Bool-cases (p n)) [
  | inl k ↦ rw k tt
  | inr k ↦ elim m [ inl same ↦ cc | inr later ↦ rw k (In-keep_if p h ns e later) ]
]

dedup-NonEmpty :
    (inputs hostnames : List Bytes)
    → NonEmpty hostnames
    → NonEmpty (merge_hostnames inputs hostnames)
unfolding merge_hostnames dedup is_seen
dedup-NonEmpty [] [] n = n
dedup-NonEmpty [] (h ∷ hs) n = tt
dedup-NonEmpty (x ∷ xs) hs n = tt

narrow_by-NonEmpty :
    (hostnames hs : List Bytes)
    → NonEmpty hostnames
    → All (λ h. In h hostnames) hs
    → NonEmpty (or_kept hostnames (narrow_by hostnames hs).0)
unfolding narrow_by is_seen
narrow_by-NonEmpty hostnames [] n a = n
narrow_by-NonEmpty hostnames (h ∷ hs) n (m, a) =
    In-keep_if (λ n. is_seen n (h ∷ hs)) h hostnames (rw ((bytes_eq_iff h h).1 refl) refl) m

or_target-NonEmpty : (target : Bytes) (ns : List Bytes) → NonEmpty (or_target target ns)
or_target-NonEmpty target [] = tt
or_target-NonEmpty target (n ∷ ns) = tt

-- What holds before each tool, with the least rank of those to come.
abbrev IsReady : ℕ → Progress → Type 0
IsReady n st =
    NonEmpty st.inputs × NonEmpty st.hostnames × (n ≤ 1 → st.inputs ≡ st.hostnames) × Fed st.events

module _ (parses_as_ip : Bytes → Bool) (w : World) (opts : PipelineOptions) (target : Bytes) where
  abbrev Going : ℕ → StepEnd → Type 0
  Going n (next st) = IsReady n st
  Going n (no_urls st) = Fed st.events
  Going n (stop e st) = Fed st.events

  persist_assets-same :
      (n : ℕ) (assets : List Emitted) (st : Progress)
      → IsReady n st
      → IsReady n (persist_assets assets st)
  unfolding persist_assets
  persist_assets-same n [] st h = h
  persist_assets-same n (a ∷ assets) st h = persist_assets-same n assets _ h

  persist_finding-same :
      (n : ℕ) (m : Assoc Bytes String) (f : ToolFinding) (st : Progress)
      → IsReady n st
      → IsReady n (persist_finding m f st)
  persist_finding-same n m f st h = ground arith

  persist_findings-same :
      (n : ℕ) (o : Option (Assoc Bytes String)) (fs : List ToolFinding) (st : Progress)
      → IsReady n st
      → IsReady n (persist_findings o fs st)
  unfolding persist_findings
  persist_findings-same n o [] st h = h
  persist_findings-same n none (f ∷ fs) st h =
      persist_findings-same n none fs _ (persist_finding-same n [] f st h)
  persist_findings-same n (some m) (f ∷ fs) st h =
      persist_findings-same n (some m) fs _ (persist_finding-same n m f st h)

  persist_assets-inputs :
      (assets : List Emitted) (st : Progress) → (persist_assets assets st).inputs ≡ st.inputs
  unfolding persist_assets
  persist_assets-inputs [] st = refl
  persist_assets-inputs (a ∷ assets) st = persist_assets-inputs assets _

  persist_finding-inputs :
      (m : Assoc Bytes String) (f : ToolFinding) (st : Progress)
      → (persist_finding m f st).inputs ≡ st.inputs
  persist_finding-inputs m f st = ground arith

  persist_findings-inputs :
      (o : Option (Assoc Bytes String)) (fs : List ToolFinding) (st : Progress)
      → (persist_findings o fs st).inputs ≡ st.inputs
  unfolding persist_findings
  persist_findings-inputs o [] st = refl
  persist_findings-inputs none (f ∷ fs) st =
      persist_findings-inputs none fs _ ∙ persist_finding-inputs [] f st
  persist_findings-inputs (some m) (f ∷ fs) st =
      persist_findings-inputs (some m) fs _ ∙ persist_finding-inputs m f st

  -- The hand-over, but for a probe without URLs.
  hand_over-ready :
      (p : Phase) (assets : List Emitted) (st : Progress)
      → IsReady (rank p) st
      → All (λ h. In h st.inputs) (evidence assets)
      → Going (suc (rank p)) (go_on p (hand_over parses_as_ip w opts target p assets st))
  unfolding hand_over narrow_hostnames_by_resolution
  hand_over-ready discovery assets st (i, h, e, f) a =
      let n =
        or_target-NonEmpty target (extract_inputs_for_next_phase parses_as_ip discovery assets) in
      (n, n, λ b. refl, f)
  hand_over-ready resolution assets st (i, h, e, f) a =
      let n =
        narrow_by-NonEmpty st.hostnames (evidence assets) h
          (subst (λ ns. All (λ h. In h ns) (evidence assets)) (e (omega arith)) a) in
      (dedup-NonEmpty _ _ n, n, λ b. absurd (omega arith), f)
  hand_over-ready port_scan assets st (i, h, e, f) a =
      (dedup-NonEmpty _ st.hostnames h, h, λ b. absurd (omega arith), f)
  hand_over-ready assessment assets st (i, h, e, f) a = (i, h, λ b. absurd (omega arith), f)
  hand_over-ready http_probe assets st (i, h, e, f) a =
      by_urls (extract_inputs_for_next_phase parses_as_ip http_probe assets)
    where
      by_urls : (us : List Bytes) → Going 4 (go_on http_probe (record st { inputs = us }))
      by_urls [] = f
      by_urls (u ∷ us) = (tt, h, λ b. absurd (omega arith), f)

  later : (n m : ℕ) (st : Progress) → n ≤ m → IsReady n st → IsReady m st
  later n m st le (i, h, e, f) = (i, h, λ b. e (omega arith), f)

  after_failure-Going :
      (i n : ℕ) (t : DetectionTool) (e : String) (st : Progress)
      → IsReady n st
      → Going n (after_failure parses_as_ip w opts target i t e st)
  unfolding after_failure cancel
  after_failure-Going i n t e st h = elim (Bool-cases (is_cancelled (w.status_after i))) [
    | inl c ↦ rw c h.3
    | inr c ↦ elim (Bool-cases (is_hard_failure t)) [
      | inl hard ↦ rw c (rw hard h.3)
      | inr soft ↦ rw c (rw soft h)
    ]
  ]

  after_call-Going :
      (i : ℕ) (t : DetectionTool) (o : ToolOutcome) (st : Progress)
      → ((r : RunResult) → o ≡ tool_done r → All (λ h. In h st.inputs) (evidence r.assets))
      → IsReady (rank t.phase) st
      → Going (suc (rank t.phase)) (after_call parses_as_ip w opts target i t o st)
  unfolding after_success completed_phase
  after_call-Going i t (tool_error e) st c h =
      after_failure-Going i _ t e st (later (rank t.phase) _ st (omega arith) h)
  after_call-Going i t (tool_done r) st c h =
      let saved = persist_assets r.assets st in
      let stored = persist_findings (w.asset_lookup i) r.findings saved in
      let same =
        persist_findings-inputs (w.asset_lookup i) r.findings saved
        ∙ persist_assets-inputs r.assets st in
      let ready =
        persist_findings-same (rank t.phase) (w.asset_lookup i) r.findings saved
          (persist_assets-same (rank t.phase) r.assets st h) in
      hand_over-ready t.phase r.assets (completed_phase t r stored) ready
        (subst (λ ns. All (λ h. In h ns) (evidence r.assets)) (sym same) (c r refl))

  one_tool-Going :
      (i total n : ℕ) (t : DetectionTool) (st : Progress)
      → NamesInputs w
      → n ≤ rank t.phase
      → IsReady n st
      → Going (suc (rank t.phase)) (one_tool parses_as_ip w opts target i total t st)
  unfolding one_tool cancel
  one_tool-Going i total n t st names le h = elim (Bool-cases (w.context_done i)) [
    | inl c ↦ rw c h.3
    | inr c ↦ elim (Bool-cases (is_cancelled (w.status_before i))) [
      | inl b ↦ rw c (rw b h.3)
      | inr b ↦ elim (Bool-cases (should_skip opts.scan_type t.phase)) [
        | inl s ↦ rw c (rw b (rw s (later n _ st (omega arith) h)))
        | inr s ↦
            let k = later n (rank t.phase) st le h in
            rw c (
              rw b
                (rw s (after_call-Going i t _ _ (names i st.inputs _) (k.0, k.1, k.2, (k.0, k.3)))))
      ]
    ]
  ]

  skip_rest-Fed :
      (ts : List DetectionTool) (st : Progress)
      → Fed st.events
      → Fed (skip_rest parses_as_ip w opts target ts st).events
  unfolding skip_rest
  skip_rest-Fed [] st h = h
  skip_rest-Fed (t ∷ ts) st h = elim (Bool-cases (should_skip opts.scan_type t.phase)) [
    | inl s ↦ skip_rest-Fed ts _ (rw s h)
    | inr s ↦ skip_rest-Fed ts _ (rw s h)
  ]

  after_step-Fed :
      (loop : Progress → Progress × Option RunError) (rest : Progress → Progress) (n : ℕ)
      (s : StepEnd)
      → Going n s
      → ((st : Progress) → IsReady n st → Fed (loop st).0.events)
      → ((st : Progress) → Fed st.events → Fed (rest st).events)
      → Fed (after_step loop rest s).0.events
  after_step-Fed loop rest n (next st) g h k = h st g
  after_step-Fed loop rest n (no_urls st) g h k = k st g
  after_step-Fed loop rest n (stop e st) g h k = g

  run_tools-Fed :
      (i total n : ℕ) (ts : List DetectionTool) (st : Progress)
      → NamesInputs w
      → IsOrdered n ts
      → IsReady n st
      → Fed (run_tools parses_as_ip w opts target i total ts st).0.events
  unfolding run_tools
  run_tools-Fed i total n [] st names o h = h.3
  run_tools-Fed i total n (t ∷ ts) st names (le, o) h =
      after_step-Fed (λ st'. run_tools parses_as_ip w opts target (suc i) total ts st')
        (λ st'. skip_rest parses_as_ip w opts target ts st') (suc (rank t.phase))
        (one_tool parses_as_ip w opts target i total t st)
        (one_tool-Going i total n t st names le h)
        (λ st' h'. run_tools-Fed (suc i) total _ ts st' names o h')
        (λ st' h'. skip_rest-Fed ts st' h')

ended-Fed : (w : World) (out : Progress × Option RunError) → Fed out.0.events → Fed (ended w out).0
unfolding conclude
ended-Fed w (st, none) h = h
ended-Fed w (st, some e) h = h

-- The selected tools stand in the order of the registry's phases, and an address is only said to be resolved from a
-- name that the tool was given: then each tool that a scan calls has at least one input, whichever tools
-- fail or are skipped, and whatever they find.
pub run-Fed :
    (parses_as_ip : Bytes → Bool) (w : World) (opts : PipelineOptions)
    (registry : List DetectionTool)
    → NamesInputs w
    → IsOrdered 0 (select_tools registry opts.tools)
    → Fed (run parses_as_ip w opts registry).0
unfolding run
run-Fed parses_as_ip w opts registry names o = elim (Bool-cases w.scan_created) [
  | inl c ↦ elim (Option-cases w.target_value) [
    | inl n ↦ rw c (rw n tt)
    | inr (target, e) ↦
        let tools = select_tools registry opts.tools in
        let n = length tools in
        let out = run_tools parses_as_ip w opts target 0 n tools (start target) in
        rw c (
          rw e (
            ended-Fed w out (
              run_tools-Fed parses_as_ip w opts target 0 n 0 tools (start target) names o
                (tt, tt, λ b. refl, tt))))
  ]
  | inr c ↦ rw c tt
]
