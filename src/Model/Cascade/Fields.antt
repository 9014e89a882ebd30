-- ===== src/Model/Cascade/Fields.antt =====
-- internal/model/cascade.go: the scalar fields, layer over layer, and the errors of the resolution.
use surfbot_agent.Base.{
  ◌≡◌, refl, sym, subst, ◌↔◌, ◌≢◌, ◌⊎◌, inl, inr, Bool, true, false, Option, List, [], ◌∷◌, ◌||◌,
  String, arith, str_eq, str_eq_iff, string_eq, if◌then◌else◌, Bool-cases,
}
use surfbot_agent.Base.Assoc.{Assoc, lookup, insert, lookup-insert}
use surfbot_agent.Model.{
  Schedule, Template, ScheduleDefaults, MaintenanceWindow, Raw, Result, ok, err, ◌>>=◌,
  unresolved_rrule, unresolved_timezone,
}
use surfbot_agent.Model.Cascade.{
  EffectiveConfig, override_set, mark_all, in_set, is_empty, pick_string, tmpl_rrule, tmpl_timezone,
  resolve_effective_config, resolve_tool_config, resolve_maintenance_window,
}

-- Membership in the list of overrides.
unfoldable pub listed : String → List String → Bool
listed name [] = false
listed name (o ∷ os) = str_eq o name || listed name os

in_set-mark_all :
    (name : String) (os : List String) (set : Assoc String Bool)
    → in_set name (mark_all os set) ≡ (listed name os || in_set name set)
unfolding mark_all listed
in_set-mark_all name [] set = refl
in_set-mark_all name (o ∷ os) set =
    ground (arith, in_set-mark_all name os (insert o true set), lookup-insert o name true set)

-- The set holds exactly the names listed.
in_set-override_set :
    (name : String) (os : List String) → in_set name (override_set os) ≡ listed name os
unfolding override_set lookup
in_set-override_set name os = ground (arith, in_set-mark_all name os [])

pick_string-eq_empty :
    (field s t d : String) (o : Assoc String Bool)
    → (is_empty (pick_string field o s t d) ≡ true) ↔ ((s ≡ "") × (t ≡ "") × (d ≡ ""))
unfolding pick_string
pick_string-eq_empty field s t d o = (
  λ h. (
    ground (arith, str_eq_iff s "", str_eq_iff t "", str_eq_iff d ""),
    ground (arith, str_eq_iff s "", str_eq_iff t "", str_eq_iff d ""),
    ground (arith, str_eq_iff s "", str_eq_iff t "", str_eq_iff d ""),
  ),
  λ h. ground (arith, str_eq_iff s "", str_eq_iff t "", str_eq_iff d ""),
)

-- The value that one scalar field takes: never empty; the schedule's, if that is given and listed
-- among the overrides; else the template's if given, else the default if given, else the schedule's.
abbrev pub Chosen : String → List String → String → String → String → String → Type 0
Chosen field overrides s t d v =
    (v ≢ "")
    × (listed field overrides ≡ true → s ≢ "" → v ≡ s)
    × ((listed field overrides ≡ false) ⊎ (s ≡ "") → t ≢ "" → v ≡ t)
    × ((listed field overrides ≡ false) ⊎ (s ≡ "") → t ≡ "" → d ≢ "" → v ≡ d)
    × (t ≡ "" → d ≡ "" → v ≡ s)

pick_string-Chosen :
    (field s t d : String) (os : List String)
    → is_empty (pick_string field (override_set os) s t d) ≡ false
    → Chosen field os s t d (pick_string field (override_set os) s t d)
unfolding pick_string
pick_string-Chosen field s t d os h = (
  λ e.
      ground
        (arith, str_eq_iff s "", str_eq_iff t "", str_eq_iff d "", in_set-override_set field os),
  λ l n. ground (arith, str_eq_iff s "", in_set-override_set field os),
  λ l n. ground (arith, str_eq_iff s "", str_eq_iff t "", in_set-override_set field os),
  λ l e n.
      ground
        (arith, str_eq_iff s "", str_eq_iff t "", str_eq_iff d "", in_set-override_set field os),
  λ e e'.
      ground
        (arith, str_eq_iff s "", str_eq_iff t "", str_eq_iff d "", in_set-override_set field os),
)

-- The end of the resolution, with the two strings picked.
finish_cases :
    (r z : String) (w : Option MaintenanceWindow) (tools : Result (Assoc String Raw))
    (c : EffectiveConfig)
    → (if is_empty r
        then err unresolved_rrule
        else if is_empty z
        then err unresolved_timezone
        else (tools >>= λ t.
            ok (record { rrule = r; timezone = z; tool_config = t; maintenance_window = w })))
      ≡ ok c
    → (is_empty r ≡ false) × (is_empty z ≡ false) × (c.rrule ≡ r) × (c.timezone ≡ z)
finish_cases r z w (ok t) c h = (ground arith, ground arith, ground arith, ground arith)
finish_cases r z w (err e) c h = ground arith

-- A successful resolution has a recurrence rule and a timezone that are not empty, each chosen from
-- the three layers: the schedule's if listed among its overrides and given, else the template's if
-- given, else the default if given, else the schedule's.
pub resolve_effective_config_fields :
    (s : Schedule) (tmpl : Option Template) (d : ScheduleDefaults) (c : EffectiveConfig)
    → resolve_effective_config s tmpl d ≡ ok c
    → Chosen "rrule" s.overrides s.rrule (tmpl_rrule tmpl) d.default_rrule c.rrule
      × Chosen "timezone" s.overrides s.timezone (tmpl_timezone tmpl) d.default_timezone c.timezone
unfolding resolve_effective_config
resolve_effective_config_fields s tmpl d c h =
    let r =
      pick_string "rrule" (override_set s.overrides) s.rrule (tmpl_rrule tmpl) d.default_rrule in
    let z =
      pick_string "timezone" (override_set s.overrides) s.timezone (tmpl_timezone tmpl)
        d.default_timezone in
    let w = resolve_maintenance_window (override_set s.overrides) s tmpl d in
    let (r_given, z_given, r_eq, z_eq) = finish_cases r z w (resolve_tool_config s tmpl d) c h in
    (
      subst (Chosen "rrule" s.overrides s.rrule (tmpl_rrule tmpl) d.default_rrule) (sym r_eq) (
          pick_string-Chosen "rrule" s.rrule (tmpl_rrule tmpl) d.default_rrule s.overrides r_given),
      subst (Chosen "timezone" s.overrides s.timezone (tmpl_timezone tmpl) d.default_timezone)
          (sym z_eq)
          (pick_string-Chosen "timezone" s.timezone (tmpl_timezone tmpl) d.default_timezone
            s.overrides z_given),
    )

-- The resolution reports an unresolved rule if no layer gives one, and an unresolved timezone if some
-- layer gives a rule and none a timezone.
pub resolve_effective_config-unresolved :
    (s : Schedule) (tmpl : Option Template) (d : ScheduleDefaults)
    → ((s.rrule ≡ "") × (tmpl_rrule tmpl ≡ "") × (d.default_rrule ≡ "")
        → resolve_effective_config s tmpl d ≡ err unresolved_rrule)
      × ((s.rrule ≢ "") ⊎ (tmpl_rrule tmpl ≢ "") ⊎ (d.default_rrule ≢ "")
          → (s.timezone ≡ "") × (tmpl_timezone tmpl ≡ "") × (d.default_timezone ≡ "")
          → resolve_effective_config s tmpl d ≡ err unresolved_timezone)
unfolding resolve_effective_config
resolve_effective_config-unresolved s tmpl d =
    let o = override_set s.overrides in
    let rule_empty = pick_string-eq_empty "rrule" s.rrule (tmpl_rrule tmpl) d.default_rrule o in
    let zone_empty =
      pick_string-eq_empty "timezone" s.timezone (tmpl_timezone tmpl) d.default_timezone o in
    (
      λ none_given. rw (rule_empty.1 none_given),
      λ given zones.
          elim (Bool-cases
            (is_empty (pick_string "rrule" o s.rrule (tmpl_rrule tmpl) d.default_rrule))) [
              | inl empty ↦ ground (arith, rule_empty.0 empty)
              | inr there ↦ rw (there, zone_empty.1 zones)
            ],
    )
