-- ===== src/Pipeline/Findings/Deltas.antt =====
-- internal/pipeline/diff_findings.go and finalize.go: the findings reported, and how they are counted.
use surfbot_agent.Base.{
  ◌+◌, ◌≡◌, ◌≢◌, refl, ◌∙◌, ap, ◌↔◌, inl, inr, Bool, true, false, not, ◌||◌, Option, some, List, [],
  ◌∷◌, String, arith, str_eq, str_eq_iff, string_eq, pair_eq, pair_beq, pair_beq_iff, keep_if, In,
  count_if, Bool-cases,
}
use surfbot_agent.Base.Assoc.{Assoc, lookup, insert, lookup-insert}
use surfbot_agent.Base.Members.{mem_of_keep_if, mem-keep_if}
use surfbot_agent.Pipeline.Findings.{
  Finding, FindingListOptions, FindingKey, finding_key, mark_current, in_current, seen_once,
  scan_options, open_options, compute_finding_changes, Counts, count_at, tally, ScanDelta,
  finalize_scan_delta,
}

-- Does a finding of the list have the key?
unfoldable has_key : FindingKey → List Finding → Bool
has_key k [] = false
has_key k (f ∷ fs) = pair_beq (finding_key f) k || has_key k fs

in_current-mark_current :
    (f : Finding) (fs : List Finding) (keys : Assoc FindingKey Bool)
    → in_current (mark_current fs keys) f ≡ (has_key (finding_key f) fs || in_current keys f)
unfolding mark_current has_key
in_current-mark_current f [] keys = refl
in_current-mark_current f (g ∷ fs) keys = ground (
  arith,
  in_current-mark_current f fs (insert (finding_key g) true keys),
  lookup-insert (finding_key g) (finding_key f) true keys,
)

has_key_of :
    (k : FindingKey) (g : Finding) (fs : List Finding)
    → In g fs
    → finding_key g ≡ k
    → has_key k fs ≡ true
unfolding has_key
has_key_of k g [] m e = absurd m
has_key_of k g (f ∷ fs) (inl same) e =
    let hit : pair_beq (finding_key f) k ≡ true =
      (pair_beq_iff (finding_key f) k).1 (ap finding_key same ∙ e) in
    rw (hit, has_key) refl
has_key_of k g (f ∷ fs) (inr m) e = ground (arith, has_key_of k g fs m e)

of_has_key :
    (k : FindingKey) (fs : List Finding)
    → has_key k fs ≡ true
    → (g : Finding) × In g fs × (finding_key g ≡ k)
unfolding has_key
of_has_key k [] h = ground arith
of_has_key k (f ∷ fs) h = elim (Bool-cases (pair_beq (finding_key f) k)) [
  | inl hit ↦ (f, inl refl, (pair_beq_iff (finding_key f) k).0 hit)
  | inr miss ↦ let (g, m, e) = of_has_key k fs (ground arith) in (g, inr m, e)
]

not_current :
    (f : Finding) (current : List Finding)
    → ((g : Finding) → In g current → finding_key g ≢ finding_key f)
    → not (in_current (mark_current current []) f) ≡ true
unfolding lookup
not_current f current none_has = elim (Bool-cases (has_key (finding_key f) current)) [
  | inl has ↦ let (g, m, e) = of_has_key (finding_key f) current has in absurd (none_has g m e)
  | inr lacks ↦ ground (arith, lacks, in_current-mark_current f current [])
]

-- If both queries answer, the comparison succeeds. New are exactly the findings of the scan whose first and
-- last sighting are the same; resolved are exactly those of the answer to the query for open findings
-- whose asset, template and tool no finding of the scan has.
pub compute_finding_changes_iff :
    (list_findings : FindingListOptions → Option (List Finding)) (target_id scan_id : String)
    (current all_open : List Finding)
    → list_findings (scan_options scan_id) ≡ some current
    → list_findings open_options ≡ some all_open
    → (fresh resolved : List Finding) × (compute_finding_changes list_findings target_id scan_id
        ≡ some (fresh, resolved))
      × ((f : Finding) → In f fresh ↔ (In f current × (f.first_seen ≡ f.last_seen)))
      × ((f : Finding)
          → In f resolved
            ↔ (In f all_open × ((g : Finding) → In g current → finding_key g ≢ finding_key f)))
unfolding compute_finding_changes lookup
compute_finding_changes_iff list_findings target_id scan_id current all_open a b = (
  keep_if seen_once current,
  keep_if (λ f. not (in_current (mark_current current []) f)) all_open,
  rw (a, b, compute_finding_changes) refl,
  λ f. (
    λ h. let (m, e) = mem_of_keep_if seen_once f current h in (m, ground arith),
    λ (m, e). mem-keep_if seen_once f current m (ground arith),
  ),
  λ f. (
    λ h.
        let (m, e) =
          mem_of_keep_if (λ x. not (in_current (mark_current current []) x)) f all_open h in
        (
          m,
          λ g k same. ground (
            arith,
            e,
            has_key_of (finding_key f) g current k same,
            in_current-mark_current f current [],
          ),
        ),
    λ (m, none_has).
        mem-keep_if (λ x. not (in_current (mark_current current []) x)) f all_open m
          (not_current f current none_has),
  ),
)

count_at-tally :
    (s : String) (fs : List Finding) (m : Counts)
    → count_at s (tally fs m) ≡ count_if (λ f. str_eq f.severity s) fs + count_at s m
unfolding tally
count_at-tally s [] m = omega arith
count_at-tally s (f ∷ fs) m = ground (
  arith,
  count_at-tally s fs (insert f.severity (count_at f.severity m + 1) m),
  lookup-insert f.severity s (count_at f.severity m + 1) m,
  str_eq_iff f.severity s,
)

-- The delta of a scan that is not a baseline, once the store has answered, exists, and at each severity its
-- counts of new and of resolved findings are the numbers of such findings in the lists given.
pub finalize_scan_delta-counts :
    (counts : Assoc String (Option Counts)) (fresh resolved : List Finding)
    → (delta : ScanDelta) × (finalize_scan_delta (some false) (some counts) fresh resolved
        ≡ some delta)
      × ((s : String)
          → (count_at s delta.new_findings ≡ count_if (λ f. str_eq f.severity s) fresh)
            × (count_at s delta.resolved_findings ≡ count_if (λ f. str_eq f.severity s) resolved))
unfolding finalize_scan_delta lookup
finalize_scan_delta-counts counts fresh resolved = (
  _,
  refl,
  λ s. (ground (arith, count_at-tally s fresh []), ground (arith, count_at-tally s resolved [])),
)
