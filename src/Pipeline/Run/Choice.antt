-- ===== src/Pipeline/Run/Choice.antt =====
-- internal/pipeline/pipeline.go: which tools a scan has, against a table.
use surfbot_agent.Base.{
  ◌≡◌, refl, sym, ap, Bool, true, false, not, ◌&&◌, List, [], ◌∷◌, String, arith, ltb, str_eq,
  count_if, keep_if, map, Bool-cases, inl, inr,
}
use surfbot_agent.Pipeline.Handoff.{Phase, discovery, resolution, port_scan, http_probe, assessment}
use surfbot_agent.Pipeline.Run.{
  DetectionTool, PipelineOptions, ScanType, scan_full, scan_quick, scan_discovery, select_tools,
  chosen, is_listed, should_skip,
}

-- What a phase result names.
abbrev pub Label : Type 0
Label = String × Phase

abbrev pub tool_labels : List DetectionTool → List Label
tool_labels ts = map (λ t. (t.name, t.phase)) ts

-- The reference: which phases a type of scan has.
abbrev pub wants : ScanType → Phase → Bool
wants scan_full p = true
wants scan_quick discovery = true
wants scan_quick resolution = true
wants scan_quick port_scan = false
wants scan_quick http_probe = true
wants scan_quick assessment = true
wants scan_discovery discovery = true
wants scan_discovery resolution = true
wants scan_discovery port_scan = false
wants scan_discovery http_probe = false
wants scan_discovery assessment = false

-- Is the tool one of those that the options name, where they name any?
abbrev pub is_named : List String → DetectionTool → Bool
is_named [] t = true
is_named (n ∷ names) t = ltb 0 (count_if (λ m. str_eq m t.name) (n ∷ names))

abbrev pub is_asked : PipelineOptions → DetectionTool → Bool
is_asked opts t = wants opts.scan_type t.phase && is_named opts.tools t

pub should_skip-wants : (ty : ScanType) (p : Phase) → not (should_skip ty p) ≡ wants ty p
unfolding should_skip
should_skip-wants scan_full p = refl
should_skip-wants scan_quick discovery = refl
should_skip-wants scan_quick resolution = refl
should_skip-wants scan_quick port_scan = refl
should_skip-wants scan_quick http_probe = refl
should_skip-wants scan_quick assessment = refl
should_skip-wants scan_discovery discovery = refl
should_skip-wants scan_discovery resolution = refl
should_skip-wants scan_discovery port_scan = refl
should_skip-wants scan_discovery http_probe = refl
should_skip-wants scan_discovery assessment = refl

pub keep_if-same :
    {A : Type 0} (p q : A → Bool) (xs : List A)
    → ((a : A) → p a ≡ q a)
    → keep_if p xs ≡ keep_if q xs
keep_if-same p q [] h = refl
keep_if-same p q (x ∷ xs) h = rw (h x) (rw (keep_if-same p q xs h) refl)

is_listed-count_if :
    (name : String) (names : List String)
    → is_listed name names ≡ ltb 0 (count_if (λ m. str_eq m name) names)
is_listed-count_if name [] = refl
is_listed-count_if name (n ∷ names) = ground (arith, is_listed-count_if name names)

chosen-keep_if :
    (names : List String) (ts : List DetectionTool)
    → chosen names ts ≡ keep_if (λ t. ltb 0 (count_if (λ m. str_eq m t.name) names)) ts
chosen-keep_if names [] = refl
chosen-keep_if names (t ∷ ts) =
    rw (is_listed-count_if t.name names) (rw (chosen-keep_if names ts) refl)

pub select_tools-is_named :
    (registry : List DetectionTool) (names : List String)
    → select_tools registry names ≡ keep_if (is_named names) registry
unfolding select_tools
select_tools-is_named registry [] = sym (keep_all registry)
  where
    keep_all : (ts : List DetectionTool) → keep_if (λ t. true) ts ≡ ts
    keep_all [] = refl
    keep_all (t ∷ ts) = ap (λ r. t ∷ r) (keep_all ts)
select_tools-is_named registry (n ∷ names) = chosen-keep_if (n ∷ names) registry

-- The labels of the tools that pass both tests.
pub labels_asked :
    (opts : PipelineOptions) (ts : List DetectionTool)
    → keep_if (λ l. wants opts.scan_type l.1) (tool_labels (keep_if (is_named opts.tools) ts))
      ≡ tool_labels (keep_if (is_asked opts) ts)
labels_asked opts [] = refl
labels_asked opts (t ∷ ts) = elim (Bool-cases (is_named opts.tools t)) [
  | inl named ↦ elim (Bool-cases (wants opts.scan_type t.phase)) [
    | inl wanted ↦ rw named (rw wanted (ap (λ ls. (t.name, t.phase) ∷ ls) (labels_asked opts ts)))
    | inr other ↦ rw named (rw other (labels_asked opts ts))
  ]
  | inr unnamed ↦ elim (Bool-cases (wants opts.scan_type t.phase)) [
    | inl wanted ↦ rw unnamed (rw wanted (labels_asked opts ts))
    | inr other ↦ rw unnamed (rw other (labels_asked opts ts))
  ]
]
