-- ===== src/Sched/Recompute/Writes.antt =====
-- internal/daemon/intervalsched/cascade_recompute.go: which schedules get a new fire time.
use surfbot_agent.Base.{
  ℕ, ◌≡◌, refl, sym, ap, subst, ◌↔◌, ◌⊎◌, inl, inr, Bool, true, false, Option, none, some, List, [],
  ◌∷◌, String, arith, length, In, if◌then◌else◌, ◌||◌, str_eq, str_eq_iff, Bool-cases, Option-cases,
  count_if, ◌≤◌, ◌+◌,
}
use surfbot_agent.Model.{Time, Schedule, Template, Result, ok, err}
use surfbot_agent.Sched.Recompute.{
  override_contains, has_override, Write, recompute_all, recompute_next_run_for_template,
}

override_contains-In :
    (xs : List String) (name : String) → (override_contains xs name ≡ true) ↔ In name xs
unfolding override_contains
override_contains-In [] name = (λ h. absurd (ground arith), λ m. absurd m)
override_contains-In (o ∷ xs) name =
    let (to, from) = override_contains-In xs name in
    let (same, equal) = str_eq_iff o name in
    (
      λ h. elim (Bool-cases (str_eq o name)) [
        | inl e ↦ inl (same e)
        | inr other ↦
            inr (to (let k : (false || override_contains xs name) ≡ true = rw other at h in k))
      ],
      λ m. elim m [ inl e ↦ rw (equal e) refl | inr i ↦ let t = from i in ground arith ],
    )

-- The schedule's own list names neither field.
abbrev FollowsTemplate : Schedule → Type 0
FollowsTemplate s = (¬ In "rrule" s.overrides) × (¬ In "timezone" s.overrides)

has_override-FollowsTemplate : (s : Schedule) → (has_override s ≡ false) ↔ FollowsTemplate s
has_override-FollowsTemplate s =
    let (r_to, r_from) = override_contains-In s.overrides "rrule" in
    let (t_to, t_from) = override_contains-In s.overrides "timezone" in
    (
      λ h. (
        λ m. let k = r_from m in absurd (ground arith),
        λ m. let k = t_from m in absurd (ground arith),
      ),
      λ (a, b). elim (Bool-cases (override_contains s.overrides "rrule")) [
        | inl e ↦ absurd (a (r_to e))
        | inr e ↦ elim (Bool-cases (override_contains s.overrides "timezone")) [
          | inl g ↦ absurd (b (t_to g))
          | inr g ↦ ground arith
        ]
      ],
    )

-- The writes to one schedule, of all.
abbrev pub writes_to : String → List Write → ℕ
writes_to id ws = count_if (λ w. str_eq w.schedule_id id) ws

module _ (next : Schedule → Option Template → Result (Option Time))
    (set : String → Option Time → Bool) where
  -- The schedule overrides neither field, and its fire time is computed and written.
  abbrev pub Updated : Template → Schedule → Write → Type 0
  Updated tmpl s w =
      FollowsTemplate s
      × (next s (some tmpl) ≡ ok w.next_run_at)
      × (set s.id w.next_run_at ≡ true)
      × (w.schedule_id ≡ s.id)

  recompute_all-length :
      (schedules : List Schedule) (tmpl : Template)
      → (recompute_all next set schedules tmpl).0 ≡ length (recompute_all next set schedules tmpl).1
  unfolding recompute_all
  recompute_all-length [] tmpl = refl
  recompute_all-length (s ∷ schedules) tmpl = ground (arith, recompute_all-length schedules tmpl)

  -- The write of one round of the loop, if it makes one.
  abbrev write_of : Schedule → Template → Option Write
  write_of s tmpl = if has_override s then none else elim (next s (some tmpl)) [
    | err e ↦ none
    | ok t ↦ if set s.id t then some (record { schedule_id = s.id; next_run_at = t }) else none
  ]

  abbrev prepend : Option Write → List Write → List Write
  prepend none ws = ws
  prepend (some w) ws = w ∷ ws

  round-prepend :
      (s : Schedule) (schedules : List Schedule) (tmpl : Template)
      → (recompute_all next set (s ∷ schedules) tmpl).1
        ≡ prepend (write_of s tmpl) (recompute_all next set schedules tmpl).1
  unfolding recompute_all
  round-prepend s schedules tmpl = ground arith

  write_of-Updated :
      (s : Schedule) (tmpl : Template) (w : Write) → write_of s tmpl ≡ some w → Updated tmpl s w
  write_of-Updated s tmpl w h =
      let kept : has_override s ≡ false = ground arith in
      ((has_override-FollowsTemplate s).0 kept, ground arith, ground arith, ground arith)

  Updated-write_of :
      (s : Schedule) (tmpl : Template) (w : Write) → Updated tmpl s w → write_of s tmpl ≡ some w
  Updated-write_of s tmpl w (a, b, c, d) =
      rw ((has_override-FollowsTemplate s).1 a, b, c) (ground arith)

  In-prepend :
      (o : Option Write) (ws : List Write) (w : Write)
      → In w (prepend o ws) ↔ ((o ≡ some w) ⊎ In w ws)
  In-prepend none ws w = (λ m. inr m, λ c. elim c [ inl e ↦ absurd (ground arith) | inr m ↦ m ])
  In-prepend (some v) ws w = (
    λ c. elim c [ inl e ↦ inl (ap some e) | inr m ↦ inr m ],
    λ c. elim c [ inl e ↦ inl (ground arith) | inr m ↦ inr m ],
  )

  writes-Updated :
      (schedules : List Schedule) (tmpl : Template) (w : Write)
      → In w (recompute_all next set schedules tmpl).1
        ↔ ((s : Schedule) × In s schedules × Updated tmpl s w)
  unfolding recompute_all
  writes-Updated [] tmpl w = (λ m. absurd m, λ (s, m, u). absurd m)
  writes-Updated (s ∷ schedules) tmpl w =
      let rest = (recompute_all next set schedules tmpl).1 in
      let (to, from) = writes-Updated schedules tmpl w in
      let (split, place) = In-prepend (write_of s tmpl) rest w in
      let same = round-prepend s schedules tmpl in
      (
        λ m. elim (split (subst (λ ws. In w ws) same m)) [
          | inl e ↦ (s, inl refl, write_of-Updated s tmpl w e)
          | inr k ↦ let (x, i, u) = to k in (x, inr i, u)
        ],
        λ (x, m, v).
            subst (λ ws. In w ws) (sym same)
              (place (elim m [
                | inl e ↦ inl (Updated-write_of s tmpl w (subst (λ y. Updated tmpl y w) (sym e) v))
                | inr i ↦ inr (from (x, i, v))
              ])),
      )

  prepend-writes_to :
      (s : Schedule) (tmpl : Template) (ws : List Write) (id : String)
      → writes_to id (prepend (write_of s tmpl) ws)
        ≤ (if str_eq s.id id then 1 else 0) + writes_to id ws
  prepend-writes_to s tmpl ws id = elim (Option-cases (write_of s tmpl)) [
    | inl e ↦ rw e (omega arith)
    | inr (w, e) ↦ let (_, _, _, same) = write_of-Updated s tmpl w e in rw e (rw same (omega arith))
  ]

  recompute_all-writes_to :
      (schedules : List Schedule) (tmpl : Template) (id : String)
      → writes_to id (recompute_all next set schedules tmpl).1
        ≤ count_if (λ s. str_eq s.id id) schedules
  recompute_all-writes_to [] tmpl id = unfold recompute_all in omega arith
  recompute_all-writes_to (s ∷ schedules) tmpl id =
      let rest = (recompute_all next set schedules tmpl).1 in
      rw (round-prepend s schedules tmpl)
        (omega (arith, prepend-writes_to s tmpl rest id, recompute_all-writes_to schedules tmpl id))

  -- Once both queries have answered, the recomputation succeeds whatever fails for single schedules: it writes
  -- at most once to each schedule, and exactly the fire times of the schedules that list neither "rrule" nor "timezone" as overridden, where the
  -- computation and the write succeed, and it returns the number of writes.
  pub recompute_next_run_for_template_iff :
      (tmpl : Template) (schedules : List Schedule)
      → (affected : ℕ) × (writes : List Write) × (recompute_next_run_for_template next set
            (some tmpl)
            (some schedules)
          ≡ some (affected, writes))
        × (affected ≡ length writes)
        × ((id : String) → writes_to id writes ≤ count_if (λ s. str_eq s.id id) schedules)
        × ((w : Write) → In w writes ↔ ((s : Schedule) × In s schedules × Updated tmpl s w))
  unfolding recompute_next_run_for_template
  recompute_next_run_for_template_iff tmpl schedules = (
    (recompute_all next set schedules tmpl).0,
    (recompute_all next set schedules tmpl).1,
    refl,
    recompute_all-length schedules tmpl,
    (λ id. recompute_all-writes_to schedules tmpl id),
    writes-Updated schedules tmpl,
  )
