-- ===== src/Tests/Later.antt =====
-- Witnesses: the runs of jobs, the diff of assets and the findings of a scan.
use surfbot_agent.Base.{
  Option, List, ◌≡◌, ◌≤◌, count_if, ◌≢◌, refl, false, none, some, [], ◌∷◌, ◌++◌, String, str_eq,
  leb, if◌then◌else◌, string_eq, ◌↔◌, In, ℕ, Bool, true, length,
}
use surfbot_agent.Base.Assoc.{lookup}
use surfbot_agent.Model.{Time, Schedule, Template, Result, ok, paused_blackout}
use surfbot_agent.Sched.Locks.{new_lock_index, try_acquire}
use surfbot_agent.Sched.Locks.Exclusion.{Capped, try_acquire-Capped, new_lock_index-Capped}
use surfbot_agent.Sched.Pool.{new_worker_pool}
use surfbot_agent.Sched.Ticker.{Services, record_run, job_of}
use surfbot_agent.Sched.Ticker.Runs.{
  Runs, InflightJob, ScanResult, canceled_error, evaluate_in_flight, finish_run, inflight_job,
  next_effects,
}
use surfbot_agent.Sched.Ticker.Runs.Endings.{finish_run-paused}
use surfbot_agent.Base.Int.{pos}
use surfbot_agent.Pipeline.Diff.{Asset, compute_changes}
use surfbot_agent.Pipeline.Diff.Changes.{
  changes_for, expected_changes, latest, compute_changes-expected,
}
use surfbot_agent.Pipeline.Findings.{
  Finding, FindingListOptions, finding_key, compute_finding_changes,
}
use surfbot_agent.Pipeline.Findings.Deltas.{compute_finding_changes_iff}
use surfbot_agent.Sched.Recompute.{Write, recompute_next_run_for_template}
use surfbot_agent.Sched.Recompute.Writes.{Updated, writes_to, recompute_next_run_for_template_iff}
use surfbot_agent.Tests.Samples.{deep, nightly, services}

-- The target is inside a blackout from the tenth instant on.
abbrev dark_later : Services
dark_later = record services { active = λ t at. leb 10 at }

abbrev running_job : InflightJob
running_job = inflight_job "s1" "t1" 5

abbrev runs : Runs
runs = record {
  state = record {
    locks = (try_acquire new_lock_index "t1").0;
    pool = new_worker_pool (pos 2);
    effects = [];
  };
  in_flight = ("s1", running_job) ∷ [];
}

runs-Capped : Capped runs.state.locks
runs-Capped = try_acquire-Capped new_lock_index "t1" new_lock_index-Capped

abbrev stopped : ScanResult
stopped = record { scan_id = "scan"; failure = some canceled_error }

-- The run began at 5, the look finds the blackout at 20.
finish_run-paused_example :
    (finish_run dark_later
      (job_of nightly)
      none
      stopped
      40
      (record runs { in_flight = evaluate_in_flight dark_later 20 runs.in_flight })).state.effects
    ≡ [] ++ record_run "s1" paused_blackout (some "scan") 40 ∷ next_effects dark_later nightly none
unfolding lookup
finish_run-paused_example =
    finish_run-paused dark_later nightly none "scan" 20 40 runs running_job refl refl

abbrev web : Asset
web = record { id = "a1"; asset_type = "url"; value = "https://x"; metadata = none; last_seen = 9 }

abbrev old_port : Asset
old_port = record {
  id = "a2";
  asset_type = "port_service";
  value = "x:443";
  metadata = some (("server", "nginx/1.0") ∷ []);
  last_seen = 3;
}

abbrev new_port : Asset
new_port = record old_port { metadata = some (("server", "nginx/1.2") ∷ []); last_seen = 9 }

-- A port whose server changed: one change, and it is critical.
compute_changes-expected_example :
    changes_for
      ("port_service", "x:443")
      (compute_changes "t1" "n1" (old_port ∷ []) (web ∷ new_port ∷ []) false)
    ≡ expected_changes "t1" "n1"
        (latest ("port_service", "x:443") (old_port ∷ []))
        (latest ("port_service", "x:443") (web ∷ new_port ∷ []))
compute_changes-expected_example =
    compute_changes-expected "t1" "n1" (old_port ∷ []) (web ∷ new_port ∷ [])
      ("port_service", "x:443")

abbrev leak : Finding
leak = record {
  id = "f1";
  asset_id = "a1";
  template_id = "leak";
  source_tool = "nuclei";
  severity = "high";
  first_seen = 9;
  last_seen = 9;
}

abbrev old_leak : Finding
old_leak = record leak { id = "f2"; asset_id = "a9"; first_seen = 2; last_seen = 4 }

-- The scan saw one finding; another one is open.
abbrev queries : FindingListOptions → Option (List Finding)
queries options =
    if str_eq options.scan_id "n1" then some (leak ∷ []) else some (leak ∷ old_leak ∷ [])

compute_finding_changes_iff_example :
    (fresh resolved : List Finding) × (compute_finding_changes queries "t1" "n1"
      ≡ some (fresh, resolved))
    × ((f : Finding) → In f fresh ↔ (In f (leak ∷ []) × (f.first_seen ≡ f.last_seen)))
    × ((f : Finding)
        → In f resolved ↔ (
            In f (leak ∷ old_leak ∷ [])
            × ((g : Finding) → In g (leak ∷ []) → finding_key g ≢ finding_key f)))
compute_finding_changes_iff_example =
    compute_finding_changes_iff queries "t1" "n1" (leak ∷ []) (leak ∷ old_leak ∷ []) refl refl

abbrev later_run : Schedule → Option Template → Result (Option Time)
later_run s tmpl = ok (some 77)

abbrev accepts : String → Option Time → Bool
accepts id t = true

-- Of two schedules, one overrides the rule.
recompute_next_run_for_template_iff_example :
    (affected : ℕ) × (writes : List Write) × (recompute_next_run_for_template later_run accepts
        (some deep)
        (some (nightly ∷ record nightly { id = "s3"; overrides = [] } ∷ []))
      ≡ some (affected, writes))
    × (affected ≡ length writes)
    × ((id : String)
        → writes_to id writes
          ≤ count_if
              (λ s. str_eq s.id id)
              (nightly ∷ record nightly { id = "s3"; overrides = [] } ∷ []))
    × ((w : Write)
        → In w writes ↔ (
            (s : Schedule) × In s (nightly ∷ record nightly { id = "s3"; overrides = [] } ∷ [])
            × Updated later_run accepts deep s w))
recompute_next_run_for_template_iff_example =
    recompute_next_run_for_template_iff later_run accepts deep
      (nightly ∷ record nightly { id = "s3"; overrides = [] } ∷ [])
