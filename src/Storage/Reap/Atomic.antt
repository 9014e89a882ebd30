-- ===== src/Storage/Reap/Atomic.antt =====
-- internal/daemon/intervalsched/zombie_reap.go: what a reap leaves in the database.
use surfbot_agent.Base.{
  ℕ, ◌-◌, ◌≡◌, refl, sym, ◌∙◌, ap, subst, true, false, ◌||◌, none, some, List, [], ◌∷◌, String, map,
  arith, str_eq_refl, Bool-cases, inl, inr, count_if, length, ◌⊎◌,
}
use surfbot_agent.Model.{Time}
use surfbot_agent.Storage.Reap.{
  is_in, ScanRow, Tables, Faults, Readings, ReapReport, list_orphaned_scan_ids, is_running,
  scan_hit, ad_hoc_hit, tool_hit, failed_scan, failed_ad_hoc, failed_tool, orphaned_scan_error,
  reap_orphaned_scans, reap_writes, reap_orphans, mark_scans_failed, mark_ad_hoc_runs_failed,
  mark_tool_runs_failed,
}
use surfbot_agent.Storage.Reap.Statements.{
  touch, HitLaws, scan-HitLaws, ad_hoc-HitLaws, tool-HitLaws, mark_rows_lem, touch_none,
}

-- What the reap is for: every scan that runs has failed, and with it the open runs that belong to such a scan.
unfoldable pub reaped : Readings → Tables → Tables
reaped r t =
    let ids = list_orphaned_scan_ids t.scans in
    record {
      scans =
          map
            (touch (λ s. is_running s.status)
              (failed_scan orphaned_scan_error r.finished_at r.scans_now))
            t.scans;
      ad_hoc_runs = map (touch (ad_hoc_hit ids) (failed_ad_hoc r.finished_at)) t.ad_hoc_runs;
      tool_runs = map (touch (tool_hit ids) (failed_tool r.finished_at r.tools_now)) t.tool_runs;
    }

unfoldable pub report_of : Readings → Tables → ReapReport
report_of r t =
    let ids = list_orphaned_scan_ids t.scans in
    record {
      scans_reaped = length ids;
      ad_hoc_runs_reaped = count_if (ad_hoc_hit ids) t.ad_hoc_runs;
      tool_runs_reaped = count_if (tool_hit ids) t.tool_runs;
      duration = r.end - r.start;
    }

-- No call of the database fails.
pub record Healthy (faults : Faults) : Type 0 where
  pub begins : faults.begin_fails ≡ false
  pub lists : faults.list_fails ≡ false
  pub scans : (ids : List String) → faults.scans_fail ids ≡ false
  pub ad_hoc : (ids : List String) → faults.ad_hoc_fail ids ≡ false
  pub tools : (ids : List String) → faults.tools_fail ids ≡ false
  pub commits : faults.commit_fails ≡ false

-- The rows that the statement for the scans finds are the running ones.
Listed : List String → List ScanRow → Type 0
Listed ids [] = Unit {0}
Listed ids (s ∷ scans) = (is_running s.status ≡ true → is_in ids s.id ≡ true) × Listed ids scans

Listed-more :
    (id : String) (ids : List String) (scans : List ScanRow)
    → Listed ids scans
    → Listed (id ∷ ids) scans
unfolding Listed is_in
Listed-more id ids [] h = tt
Listed-more id ids (s ∷ scans) (h, hs) = (λ e. ground (arith, h e), Listed-more id ids scans hs)

list-Listed : (scans : List ScanRow) → Listed (list_orphaned_scan_ids scans) scans
unfolding Listed list_orphaned_scan_ids is_in
list-Listed [] = tt
list-Listed (s ∷ scans) = elim (Bool-cases (is_running s.status)) [
  | inl on ↦
      let ids = list_orphaned_scan_ids scans in
      let e : list_orphaned_scan_ids (s ∷ scans) ≡ s.id ∷ ids = rw on refl in
      subst (λ l. Listed l (s ∷ scans)) (sym e)
        (λ _. rw (str_eq_refl s.id) refl, Listed-more s.id ids scans (list-Listed scans))
  | inr off ↦
      let e : list_orphaned_scan_ids (s ∷ scans) ≡ list_orphaned_scan_ids scans = rw off refl in
      subst (λ l. Listed l (s ∷ scans)) (sym e)
        (λ on. absurd (let n : true ≡ false = sym on ∙ off in cc), list-Listed scans)
]

scans_hit :
    (ids : List String) (f : ScanRow → ScanRow) (scans : List ScanRow)
    → Listed ids scans
    → (map (touch (scan_hit ids) f) scans ≡ map (touch (λ s. is_running s.status) f) scans)
      × (count_if (scan_hit ids) scans ≡ length (list_orphaned_scan_ids scans))
unfolding Listed list_orphaned_scan_ids
scans_hit ids f [] h = (refl, refl)
scans_hit ids f (s ∷ scans) (h, hs) =
    let (m, c) = scans_hit ids f scans hs in
    elim (Bool-cases (is_running s.status)) [
      | inl on ↦ rw (on, h on, m) (refl, omega (arith, c))
      | inr off ↦ rw (off, m) (refl, omega (arith, c))
    ]

none_running :
    (f : ScanRow → ScanRow) (scans : List ScanRow)
    → list_orphaned_scan_ids scans ≡ []
    → map (touch (λ s. is_running s.status) f) scans ≡ scans
unfolding list_orphaned_scan_ids
none_running f [] h = refl
none_running f (s ∷ scans) h = elim (Bool-cases (is_running s.status)) [
  | inl on ↦ absurd (let e : s.id ∷ list_orphaned_scan_ids scans ≡ [] = rw on at h in cc)
  | inr off ↦ rw off (ap (λ l. s ∷ l) (none_running f scans (rw off at h)))
]

none_left :
    (message : String) (finished now : Time) (scans : List ScanRow)
    → list_orphaned_scan_ids
        (map (touch (λ s. is_running s.status) (failed_scan message finished now)) scans)
      ≡ []
unfolding list_orphaned_scan_ids
none_left message finished now [] = refl
none_left message finished now (s ∷ scans) = elim (Bool-cases (is_running s.status)) [
  | inl on ↦ rw on (none_left message finished now scans)
  | inr off ↦ rw (off, off) (none_left message finished now scans)
]

-- What the three statements write for the given ids.
abbrev written : Readings → List String → Tables → Tables × ℕ × ℕ × ℕ
written r ids t = (
  record {
    scans =
        map (touch (scan_hit ids) (failed_scan orphaned_scan_error r.finished_at r.scans_now))
          t.scans;
    ad_hoc_runs = map (touch (ad_hoc_hit ids) (failed_ad_hoc r.finished_at)) t.ad_hoc_runs;
    tool_runs = map (touch (tool_hit ids) (failed_tool r.finished_at r.tools_now)) t.tool_runs;
  },
  count_if (scan_hit ids) t.scans,
  count_if (ad_hoc_hit ids) t.ad_hoc_runs,
  count_if (tool_hit ids) t.tool_runs,
)

module _ (faults : Faults) (r : Readings) (t : Tables) where
  Written : List String → Type 0
  Written ids =
      (reap_writes faults r ids t ≡ none) ⊎ (reap_writes faults r ids t ≡ some (written r ids t))

  reap_writes_lem :
      (ids : List String)
      → Written ids × (Healthy faults → reap_writes faults r ids t ≡ some (written r ids t))
  unfolding Written reap_writes mark_scans_failed mark_ad_hoc_runs_failed mark_tool_runs_failed
  reap_writes_lem ids =
      let (scans, scans_run) =
        mark_rows_lem (scan-HitLaws orphaned_scan_error r.finished_at r.scans_now) faults.scans_fail
          ids t.scans in
      let (ad_hoc, ad_hoc_run) =
        mark_rows_lem (ad_hoc-HitLaws r.finished_at) faults.ad_hoc_fail ids t.ad_hoc_runs in
      let (tools, tools_run) =
        mark_rows_lem (tool-HitLaws r.finished_at r.tools_now) faults.tools_fail ids t.tool_runs in
      elim scans [
        | inl e ↦ (inl (rw e refl), λ h. absurd (let (n, f) = scans_run h.scans in cc))
        | inr e ↦ elim ad_hoc [
          | inl e' ↦ (inl (rw (e, e') refl), λ h. absurd (let (n, f) = ad_hoc_run h.ad_hoc in cc))
          | inr e' ↦ elim tools [
            | inl e'' ↦
                (inl (rw (e, e', e'') refl), λ h. absurd (let (n, f) = tools_run h.tools in cc))
            | inr e'' ↦ (inr (rw (e, e', e'') refl), λ h. rw (e, e', e'') refl)
          ]
        ]
      ]

  reap_orphans_lem :
      (ids : List String)
      → list_orphaned_scan_ids t.scans ≡ ids
      → ((reap_orphans faults r t ids ≡ none)
          ⊎ (reap_orphans faults r t ids ≡ some (reaped r t, report_of r t)))
        × (Healthy faults → reap_orphans faults r t ids ≡ some (reaped r t, report_of r t))
  unfolding reaped report_of Written
  reap_orphans_lem [] e =
      let scans =
        none_running (failed_scan orphaned_scan_error r.finished_at r.scans_now) t.scans e in
      let (ad_hoc, n) =
        touch_none (ad_hoc_hit []) (failed_ad_hoc r.finished_at) t.ad_hoc_runs
          (HitLaws.hit_none (ad_hoc-HitLaws r.finished_at)) in
      let (tools, k) =
        touch_none (tool_hit []) (failed_tool r.finished_at r.tools_now) t.tool_runs
          (HitLaws.hit_none (tool-HitLaws r.finished_at r.tools_now)) in
      let same : some (reaped r t, report_of r t) ≡ reap_orphans faults r t [] =
        rw (e, scans, ad_hoc, n, tools, k) refl in
      (inr (sym same), λ h. sym same)
  reap_orphans_lem (id ∷ ids) e =
      let (m, c) =
        scans_hit (id ∷ ids) (failed_scan orphaned_scan_error r.finished_at r.scans_now) t.scans
          (subst (λ l. Listed l t.scans) e (list-Listed t.scans)) in
      let (or, good) = reap_writes_lem (id ∷ ids) in
      (
        elim or [ inl f ↦ inl (rw f refl) | inr f ↦ inr (rw (f, m, c, e) refl) ],
        λ h. rw (good h, m, c, e) refl,
      )

  -- A reap either reports an error and leaves the database as it was, whichever call fails, or fails every
  -- running scan, with the open ad-hoc runs and the running tool runs of these scans, changes no other row and
  -- reports how many rows it changed. When no call fails, it is the second.
  pub reap_orphaned_scans_lem :
      ((reap_orphaned_scans faults r t ≡ (t, none))
        ⊎ (reap_orphaned_scans faults r t ≡ (reaped r t, some (report_of r t))))
      × (Healthy faults → reap_orphaned_scans faults r t ≡ (reaped r t, some (report_of r t)))
  unfolding reap_orphaned_scans
  reap_orphaned_scans_lem =
      let (or, good) = reap_orphans_lem (list_orphaned_scan_ids t.scans) refl in
      (
        elim (Bool-cases (faults.begin_fails || faults.list_fails)) [
          | inl early ↦ inl (rw early refl)
          | inr later ↦ rw later (elim or [
            | inl e ↦ inl (rw e refl)
            | inr e ↦ rw e (elim (Bool-cases faults.commit_fails) [
              | inl failed ↦ inl (rw failed refl)
              | inr done ↦ inr (rw done refl)
            ])
          ])
        ],
        λ h. rw (good h, h.begins, h.lists, h.commits) refl,
      )

-- A reap in which no call fails leaves no scan running, so the next one finds nothing: it reports zeros and
-- changes no row.
pub reap_orphaned_scans_again :
    (faults faults' : Faults) (r r' : Readings) (t : Tables)
    → Healthy faults
    → Healthy faults'
    → let after = (reap_orphaned_scans faults r t).0 in
      (list_orphaned_scan_ids after.scans ≡ [])
      × (reap_orphaned_scans faults' r' after ≡ (
        after,
        some (record {
          scans_reaped = 0;
          ad_hoc_runs_reaped = 0;
          tool_runs_reaped = 0;
          duration = r'.end - r'.start;
        }),
      ))
unfolding reap_orphaned_scans reaped
reap_orphaned_scans_again faults faults' r r' t h h' =
    let e : reap_orphaned_scans faults r t ≡ (reaped r t, some (report_of r t)) =
      (reap_orphaned_scans_lem faults r t).1 h in
    let empty = none_left orphaned_scan_error r.finished_at r.scans_now t.scans in
    subst
      (λ p.
        (list_orphaned_scan_ids p.0.scans ≡ [])
        × (reap_orphaned_scans faults' r' p.0 ≡ (
          p.0,
          some (record {
            scans_reaped = 0;
            ad_hoc_runs_reaped = 0;
            tool_runs_reaped = 0;
            duration = r'.end - r'.start;
          }),
        )))
      (sym e) (empty, rw (empty, h'.begins, h'.lists, h'.commits) refl)
