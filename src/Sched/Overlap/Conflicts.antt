-- ===== src/Sched/Overlap/Conflicts.antt =====
-- internal/daemon/intervalsched/overlap.go: the conflicts that are reported, and no others.
use surfbot_agent.Base.{
  ℕ, ◌+◌, ◌≤◌, ◌<◌, ◌≡◌, refl, sym, ap, ◌∙◌, subst, ◌↔◌, ◌⊎◌, inl, inr, true, false, Option, List,
  [], ◌∷◌, ◌++◌, String, arith, In, Bool-cases,
}
use surfbot_agent.Base.Members.{mem-append, mem-append_left, mem-append_right}
use surfbot_agent.Base.Assoc.{Assoc}
use surfbot_agent.Model.{Time, Schedule, Template, ScheduleDefaults, ok}
use surfbot_agent.Sched.Rules.{RuleLib, RuleLaws}
use surfbot_agent.Sched.Expander.{rule_of}
use surfbot_agent.Sched.Overlap.{
  OverlapConflict, distance, conflicts_between, tmpl_of, passed_over, expand_schedule, check_all,
  validate_no_overlap_at,
}
use surfbot_agent.Sched.Overlap.Pairs.{conflicts_between_iff}

module _ (R : RuleLib) (L : RuleLaws R) where
  -- The schedule's rule can be built and fires at `t`, from `now` to the horizon, both included.
  abbrev pub Fires : Schedule → Option Template → ScheduleDefaults → Time → ℕ → Time → Type 0
  Fires s tmpl d now horizon t =
      (rule : R.Rule) × (rule_of R s tmpl d now ≡ ok rule)
      × L.Occurs rule t
      × (now ≤ t)
      × (t ≤ now + horizon)

  -- The schedule's rule can be built.
  abbrev pub Builds : Schedule → Option Template → ScheduleDefaults → Time → Type 0
  Builds s tmpl d now = (rule : R.Rule) × (rule_of R s tmpl d now ≡ ok rule)

  expand_schedule-Fires :
      (s : Schedule) (tmpl : Option Template) (d : ScheduleDefaults) (now : Time) (horizon : ℕ)
      → Builds s tmpl d now
      → (ts : List Time) × (expand_schedule R s tmpl d now horizon ≡ ok ts)
        × ((t : Time) → In t ts ↔ Fires s tmpl d now horizon t)
  unfolding expand_schedule
  expand_schedule-Fires s tmpl d now horizon (rule, e) = (
    R.between rule now (now + horizon) true,
    rw (e, expand_schedule) refl,
    λ t.
        let (to, from) = L.between_iff rule now (now + horizon) t in
        (
          λ h. let (occ, a, b) = to h in (rule, e, occ, a, b),
          λ (rule', e', occ, a, b).
              let same : rule' ≡ rule = ground (arith, e, e') in
              from (subst (λ q. L.Occurs q t) same occ, a, b),
        ),
  )

  -- The conflict is one with some schedule of the list that is not passed over.
  abbrev pub WithSome :
      Schedule
      → List Time
      → Assoc String Template
      → ScheduleDefaults
      → Time
      → ℕ
      → ℕ
      → List Schedule
      → OverlapConflict
      → Type 0
  WithSome candidate cands tmpls d now horizon dur existing c =
      (ex : Schedule) × In ex existing
      × (passed_over candidate ex ≡ false)
      × (c.schedule_id ≡ ex.id)
      × In c.occurrence_a cands
      × Fires ex (tmpl_of tmpls ex) d now horizon c.occurrence_b
      × (distance c.occurrence_a c.occurrence_b < dur)

  check_all-WithSome :
      (candidate : Schedule) (cands : List Time) (tmpls : Assoc String Template)
      (d : ScheduleDefaults) (now : Time) (horizon dur : ℕ) (existing : List Schedule)
      → ((ex : Schedule)
          → In ex existing
          → passed_over candidate ex ≡ false
          → Builds ex (tmpl_of tmpls ex) d now)
      → (cs : List OverlapConflict) × (check_all R candidate cands tmpls d now horizon dur existing
          ≡ ok cs)
        × ((c : OverlapConflict)
            → In c cs ↔ WithSome candidate cands tmpls d now horizon dur existing c)
  unfolding check_all
  check_all-WithSome candidate cands tmpls d now horizon dur [] build =
      ([], refl, λ c. (λ h. absurd h, λ w. absurd w.1))
  check_all-WithSome candidate cands tmpls d now horizon dur (ex ∷ existing) build =
      let (cs, e, iff) =
        check_all-WithSome candidate cands tmpls d now horizon dur existing
          (λ x m p. build x (inr m) p) in
      elim (Bool-cases (passed_over candidate ex)) [
        | inl passed ↦
            rw (passed, check_all)
              (
                cs,
                e,
                λ c. (
                  λ h. let (x, m, p, i, a, b, z) = (iff c).0 h in (x, inr m, p, i, a, b, z),
                  λ (x, m, p, i, a, b, z). (iff c).1 (x, not_head x passed m p, p, i, a, b, z),
                ),
              )
        | inr considered ↦
            let (bs, f, fires) =
              expand_schedule-Fires ex (tmpl_of tmpls ex) d now horizon
                (build ex (inl refl) considered) in
            (
              conflicts_between ex.id dur cands bs ++ cs,
              rw (considered, f, e, check_all) refl,
              λ c.
                  let (to, from) = conflicts_between_iff ex.id dur cands bs c in
                  (
                    λ h. elim (mem-append c (conflicts_between ex.id dur cands bs) cs h) [
                      | inl m ↦
                          let (i, x, y, z) = to m in
                          (ex, inl refl, considered, i, x, (fires c.occurrence_b).0 y, z)
                      | inr m ↦ let (x, k, p, i, a, b, z) = (iff c).0 m in (x, inr k, p, i, a, b, z)
                    ],
                    λ (x, m, p, i, a, b, z). elim m [
                      | inl same ↦ mem-append_left c (conflicts_between ex.id dur cands bs) cs (
                          from (
                            subst (λ y. c.schedule_id ≡ y.id) (sym same) i,
                            a,
                            (fires c.occurrence_b).1 (
                                subst (λ y. Fires y (tmpl_of tmpls y) d now horizon c.occurrence_b)
                                  (sym same) b),
                            z,
                          ))
                      | inr k ↦
                          mem-append_right c (conflicts_between ex.id dur cands bs) cs
                            ((iff c).1 (x, k, p, i, a, b, z))
                    ],
                  ),
            )
      ]
    where
      not_head :
          (x : Schedule)
          → passed_over candidate ex ≡ true
          → (ex ≡ x) ⊎ In x existing
          → passed_over candidate x ≡ false
          → In x existing
      not_head x passed (inl same) p =
          let clash : true ≡ false =
            sym passed ∙ subst (λ y. passed_over candidate y ≡ false) (sym same) p in
          cc
      not_head x passed (inr m) p = m

  validate-check :
      (candidate : Schedule) (tmpl : Option Template) (existing : List Schedule)
      (tmpls : Assoc String Template) (d : ScheduleDefaults) (now : Time) (horizon dur : ℕ)
      (t : Time) (ts : List Time)
      → expand_schedule R candidate tmpl d now horizon ≡ ok (t ∷ ts)
      → validate_no_overlap_at R candidate tmpl existing tmpls d now horizon dur
        ≡ check_all R candidate (t ∷ ts) tmpls d now horizon dur existing
  unfolding validate_no_overlap_at
  validate-check candidate tmpl existing tmpls d now horizon dur t ts e =
      rw (e, validate_no_overlap_at) refl

  -- If the rules of the candidate and of every schedule compared with it can be built, the validation
  -- succeeds, and it reports exactly the pairs of an occurrence of the candidate and one of another
  -- schedule of the same target, both from now to the horizon, that are closer than the duration.
  pub validate_no_overlap_at_iff :
      (candidate : Schedule) (tmpl : Option Template) (existing : List Schedule)
      (tmpls : Assoc String Template) (d : ScheduleDefaults) (now : Time) (horizon dur : ℕ)
      → Builds candidate tmpl d now
      → ((ex : Schedule)
          → In ex existing
          → passed_over candidate ex ≡ false
          → Builds ex (tmpl_of tmpls ex) d now)
      → (cs : List OverlapConflict) × (validate_no_overlap_at R candidate tmpl existing tmpls d now
            horizon dur
          ≡ ok cs)
        × ((c : OverlapConflict)
            → In c cs ↔ (
                (ex : Schedule) × In ex existing
                × (passed_over candidate ex ≡ false)
                × (c.schedule_id ≡ ex.id)
                × Fires candidate tmpl d now horizon c.occurrence_a
                × Fires ex (tmpl_of tmpls ex) d now horizon c.occurrence_b
                × (distance c.occurrence_a c.occurrence_b < dur)))
  unfolding validate_no_overlap_at
  validate_no_overlap_at_iff candidate tmpl existing tmpls d now horizon dur own build =
      let (cands, e, fires) = expand_schedule-Fires candidate tmpl d now horizon own in
      let (cs, f, iff) =
        check_all-WithSome candidate cands tmpls d now horizon dur existing build in
      elim (nil_or_not cands) [
        | inl none_fires ↦ (
          [],
          rw (e, none_fires, validate_no_overlap_at) refl,
          λ c. (
            λ h. absurd h,
            λ (x, m, p, i, a, b, z).
                absurd (subst (λ ts. In c.occurrence_a ts) none_fires ((fires c.occurrence_a).1 a)),
          ),
        )
        | inr (t, ts, some_fire) ↦ (
          cs,
          subst
                (λ l.
                  validate_no_overlap_at R candidate tmpl existing tmpls d now horizon dur
                  ≡ check_all R candidate l tmpls d now horizon dur existing)
                (sym some_fire)
                (validate-check candidate tmpl existing tmpls d now horizon dur t ts
                  (e ∙ ap ok some_fire))
              ∙ f,
          λ c. (
            λ h.
                let (x, m, p, i, a, b, z) = (iff c).0 h in
                (x, m, p, i, (fires c.occurrence_a).0 a, b, z),
            λ (x, m, p, i, a, b, z). (iff c).1 (x, m, p, i, (fires c.occurrence_a).1 a, b, z),
          ),
        )
      ]
    where
      nil_or_not : (l : List Time) → (l ≡ []) ⊎ ((t : Time) × (ts : List Time) × (l ≡ t ∷ ts))
      nil_or_not [] = inl refl
      nil_or_not (t ∷ ts) = inr (t, ts, refl)
