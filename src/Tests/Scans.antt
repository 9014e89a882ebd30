-- ===== src/Tests/Scans.antt =====
-- Witnesses: a run of the scan.
use surfbot_agent.Base.{
  keep_if, ℕ, zero, suc, ◌≡◌, refl, Bool, true, false, none, some, List, [], ◌∷◌, inl, All, In,
  subst, ap, arith,
}
use surfbot_agent.Base.Text.{Bytes, codes}
use surfbot_agent.Pipeline.Handoff.{
  evidence, discovery, resolution, port_scan, http_probe, assessment, Emitted, subdomain, ipv4,
  port_service, url,
}
use surfbot_agent.Storage.Reap.{tool_completed}
use surfbot_agent.Pipeline.Run.{
  DetectionTool, PipelineOptions, scan_full, ToolOutcome, tool_done, tool_error, World, RunOptions,
  select_tools, PhaseResult,
}
use surfbot_agent.Pipeline.Run.Tooling.{run, returned, failed_with, Outcome}
use surfbot_agent.Pipeline.Run.Choice.{wants, is_asked, tool_labels}
use surfbot_agent.Pipeline.Run.Phases.{phase_labels, run-phases}
use surfbot_agent.Pipeline.Run.Feeding.{Fed, NamesInputs, IsOrdered, run-Fed}

abbrev registry : List DetectionTool
registry =
    record { name = "subfinder"; phase = discovery }
    ∷ record { name = "dnsx"; phase = resolution }
    ∷ record { name = "naabu"; phase = port_scan }
    ∷ record { name = "httpx"; phase = http_probe }
    ∷ record { name = "nuclei"; phase = assessment }
    ∷ []

abbrev options : PipelineOptions
options = record { scan_type = scan_full; tools = []; rate_limit = 0; timeout = 0 }

abbrev found_assets : List Emitted → ToolOutcome
found_assets assets = tool_done (record {
  assets = assets;
  findings = [];
  report = record { status = tool_completed; message = "" };
})

abbrev subdomains : List Emitted
subdomains =
    record { asset_type = subdomain; value = codes "a.x"; resolved_from = none; status = none }
    ∷ record { asset_type = subdomain; value = codes "b.x"; resolved_from = none; status = none }
    ∷ []

-- The resolution finds the first host that it is given.
abbrev address_of : List Bytes → List Emitted
address_of [] = []
address_of (h ∷ hs) =
    record { asset_type = ipv4; value = codes "10.0.0.1"; resolved_from = some h; status = none }
    ∷ []

-- The subdomains, the address, a failure, a page, no findings.
abbrev answers : ℕ → List Bytes → RunOptions → ToolOutcome
answers zero inputs o = found_assets subdomains
answers (suc zero) inputs o = found_assets (address_of inputs)
answers (suc (suc zero)) inputs o = tool_error "timeout"
answers (suc (suc (suc zero))) inputs o = found_assets (
    record { asset_type = url; value = codes "http://a.x"; resolved_from = none; status = none }
    ∷ [])
answers (suc (suc (suc (suc i)))) inputs o = found_assets []

abbrev world : World
world = record {
  scan_created = true;
  target_value = some (codes "x");
  context_done = λ i. false;
  status_before = λ i. none;
  run = answers;
  status_after = λ i. none;
  asset_lookup = λ i. none;
  write_fails = λ m. false;
}

abbrev no_address : Bytes → Bool
no_address s = false

abbrev assets_of : ToolOutcome → List Emitted
assets_of (tool_done r) = r.assets
assets_of (tool_error e) = []

answers_named :
    (i : ℕ) (inputs : List Bytes) (o : RunOptions)
    → All (λ h. In h inputs) (evidence (assets_of (answers i inputs o)))
unfolding evidence
answers_named zero inputs o = tt
answers_named (suc zero) [] o = tt
answers_named (suc zero) ([] ∷ hs) o = tt
answers_named (suc zero) ((c ∷ s) ∷ hs) o = (inl refl, tt)
answers_named (suc (suc zero)) inputs o = tt
answers_named (suc (suc (suc zero))) inputs o = tt
answers_named (suc (suc (suc (suc i)))) inputs o = tt

world-NamesInputs : NamesInputs world
world-NamesInputs i inputs o r h =
    subst (λ assets. All (λ h. In h inputs) (evidence assets)) (ap assets_of h)
      (answers_named i inputs o)

registry-IsOrdered : IsOrdered 0 (select_tools registry options.tools)
unfolding select_tools
registry-IsOrdered = (omega arith, (omega arith, (omega arith, (omega arith, (omega arith, tt)))))

run-Fed_example : Fed (run no_address world options registry).0
run-Fed_example = run-Fed no_address world options registry world-NamesInputs registry-IsOrdered

abbrev phases_of : Outcome → List PhaseResult
phases_of (returned phases) = phases
phases_of (failed_with e) = []

finished :
    (run no_address world options registry).1
    ≡ returned (phases_of (run no_address world options registry).1)
unfolding run surfbot_agent.Pipeline.Handoff.extract_inputs_for_next_phase
finished = refl

run-phases_example :
    keep_if
      (λ l. wants options.scan_type l.1)
      (phase_labels (phases_of (run no_address world options registry).1))
    ≡ tool_labels (keep_if (is_asked options) registry)
run-phases_example = run-phases no_address world options registry _ finished
