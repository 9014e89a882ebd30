-- ===== src/Pipeline/Findings.antt =====
-- internal/pipeline/diff_findings.go and finalize.go: which findings are new or resolved after a scan, and
-- the delta of the scan. The store's queries are arguments, where `none` is an error.
pub mod Deltas
use surfbot_agent.Base.{
  ℕ, ◌+◌, Bool, true, false, not, Option, none, some, List, [], ◌∷◌, String, string_eq, pair_eq,
  ◌==◌, if◌then◌else◌, keep_if,
}
use surfbot_agent.Base.Assoc.{Assoc, lookup, insert}
use surfbot_agent.Model.{Time}

pub record Finding : Type 0 where
  pub id : String
  pub asset_id : String
  pub template_id : String
  pub source_tool : String
  pub severity : String
  pub first_seen : Time
  pub last_seen : Time

-- The options of `ListFindings` that are set; the empty string sets no filter.
pub record FindingListOptions : Type 0 where
  pub target_id : String
  pub scan_id : String
  pub status : String
  pub limit : ℕ

abbrev pub FindingKey : Type 0
FindingKey = String × (String × String)

abbrev pub finding_key : Finding → FindingKey
finding_key f = (f.asset_id, (f.template_id, f.source_tool))

unfoldable pub mark_current : List Finding → Assoc FindingKey Bool → Assoc FindingKey Bool
mark_current [] keys = keys
mark_current (f ∷ fs) keys = mark_current fs (insert (finding_key f) true keys)

-- A read of the set: a missing key is false.
abbrev pub in_current : Assoc FindingKey Bool → Finding → Bool
in_current keys f = elim (lookup (finding_key f) keys) [ some b ↦ b | none ↦ false ]

abbrev pub seen_once : Finding → Bool
seen_once f = f.first_seen == f.last_seen

abbrev pub scan_options : String → FindingListOptions
scan_options scan_id = record { target_id = ""; scan_id = scan_id; status = ""; limit = 10_000 }

abbrev pub open_options : FindingListOptions
open_options = record { target_id = ""; scan_id = ""; status = "open"; limit = 10_000 }

-- The target is not used by the code.
unfoldable pub compute_finding_changes :
    (FindingListOptions → Option (List Finding))
    → String
    → String
    → Option (List Finding × List Finding)
compute_finding_changes list_findings target_id scan_id =
    elim (list_findings (scan_options scan_id)) [
      | none ↦ none
      | some current ↦ elim (list_findings open_options) [
        | none ↦ none
        | some all_open ↦ some (
          keep_if seen_once current,
          keep_if (λ f. not (in_current (mark_current current []) f)) all_open,
        )
      ]
    ]

abbrev pub Counts : Type 0
Counts = Assoc String ℕ

-- A read of a map of numbers: a missing key is 0.
abbrev pub count_at : String → Counts → ℕ
count_at s m = elim (lookup s m) [ some n ↦ n | none ↦ 0 ]

-- The loops `delta[f.Severity]++`.
unfoldable pub tally : List Finding → Counts → Counts
tally [] m = m
tally (f ∷ fs) m = tally fs (insert f.severity (count_at f.severity m + 1) m)

pub record ScanDelta : Type 0 where
  pub is_baseline : Bool
  pub new_assets : Counts
  pub disappeared_assets : Counts
  pub modified_assets : Counts
  pub new_findings : Counts
  pub resolved_findings : Counts
  pub returned_findings : Counts

-- The counts of one kind of change; a missing or nil map stays empty.
abbrev pub bucket : String → Assoc String (Option Counts) → Counts
bucket change counts = elim (lookup change counts) [
  | none ↦ []
  | some none ↦ []
  | some (some m) ↦ m
]

abbrev pub empty_delta : Bool → ScanDelta
empty_delta b = record {
  is_baseline = b;
  new_assets = [];
  disappeared_assets = [];
  modified_assets = [];
  new_findings = [];
  resolved_findings = [];
  returned_findings = [];
}

-- The store's answers come first: is it a baseline scan, and the counts of asset changes.
unfoldable pub finalize_scan_delta :
    Option Bool
    → Option (Assoc String (Option Counts))
    → List Finding
    → List Finding
    → Option ScanDelta
finalize_scan_delta none counts new_findings resolved = none
finalize_scan_delta (some true) counts new_findings resolved = some (empty_delta true)
finalize_scan_delta (some false) none new_findings resolved = none
finalize_scan_delta (some false) (some counts) new_findings resolved = some (record {
  is_baseline = false;
  new_assets = bucket "appeared" counts;
  disappeared_assets = bucket "disappeared" counts;
  modified_assets = bucket "modified" counts;
  new_findings = tally new_findings [];
  resolved_findings = tally resolved [];
  returned_findings = [];
})
