-- ===== src/Model/Cascade.antt =====
-- internal/model/cascade.go: schedule, template and defaults resolved to one configuration.
-- A range over a Go map is a walk of its entries; the theorems do not depend on the order.
pub mod Fields
pub mod Tools
use surfbot_agent.Base.{
  Bool, true, false, ◌&&◌, not, Option, none, some, List, [], ◌∷◌, ◌++◌, String, str_eq, string_eq,
  if◌then◌else◌,
}
use surfbot_agent.Base.Assoc.{Assoc, lookup, insert}
use surfbot_agent.Model.{
  Schedule, Template, ScheduleDefaults, MaintenanceWindow, ToolConfig, Raw, not_object, null,
  object, Result, ok, err, ◌>>=◌, unresolved_rrule, unresolved_timezone, nil_map_write,
}

pub record EffectiveConfig : Type 0 where
  pub rrule : String
  pub timezone : String
  pub tool_config : Assoc String Raw
  pub maintenance_window : Option MaintenanceWindow

unfoldable pub mark_all : List String → Assoc String Bool → Assoc String Bool
mark_all [] set = set
mark_all (name ∷ names) set = mark_all names (insert name true set)

unfoldable pub override_set : List String → Assoc String Bool
override_set overrides = mark_all overrides []

-- A read of the set: a missing name is false.
abbrev pub in_set : String → Assoc String Bool → Bool
in_set name set = elim (lookup name set) [ some b ↦ b | none ↦ false ]

abbrev pub is_empty : String → Bool
is_empty s = str_eq s ""

unfoldable pub pick_string : String → Assoc String Bool → String → String → String → String
pick_string field overridden sched tmpl def =
    if in_set field overridden && not (is_empty sched)
    then sched
    else if not (is_empty tmpl)
    then tmpl
    else if not (is_empty def)
    then def
    else if not (is_empty sched)
    then sched
    else ""

abbrev pub tmpl_rrule : Option Template → String
tmpl_rrule none = ""
tmpl_rrule (some t) = t.rrule

abbrev pub tmpl_timezone : Option Template → String
tmpl_timezone none = ""
tmpl_timezone (some t) = t.timezone

abbrev pub tmpl_window : Option Template → Option MaintenanceWindow
tmpl_window none = none
tmpl_window (some t) = t.maintenance_window

abbrev pub tmpl_tools : Option Template → ToolConfig
tmpl_tools none = none
tmpl_tools (some t) = t.tool_config

-- The first pointer that is not nil.
abbrev pub or_else {ℓ} : {A : Type ℓ} → Option A → Option A → Option A
or_else (some a) b = some a
or_else none b = b

unfoldable pub resolve_maintenance_window :
    Assoc String Bool → Schedule → Option Template → ScheduleDefaults → Option MaintenanceWindow
resolve_maintenance_window overridden s tmpl defaults =
    let inherited =
      or_else (tmpl_window tmpl)
        (or_else defaults.default_maintenance_window s.maintenance_window) in
    if in_set "maintenance_window" overridden
    then or_else s.maintenance_window inherited
    else inherited

-- The loop that writes every entry of the overlay into the base.
unfoldable pub write_all : Assoc String String → Assoc String String → Assoc String String
write_all [] base = base
write_all ((k, v) ∷ overlay) base = write_all overlay (insert k v base)

-- The same loop over a base that decoded to the nil map: the first write panics.
unfoldable pub merge_into_nil : Assoc String String → Result Raw
merge_into_nil [] = ok null
merge_into_nil (kv ∷ overlay) = err nil_map_write

unfoldable pub shallow_merge : Raw → Raw → Result Raw
unfolding write_all merge_into_nil
shallow_merge (not_object t) overlay = ok overlay
shallow_merge null (not_object t) = ok (not_object t)
shallow_merge null null = merge_into_nil []
shallow_merge null (object o) = merge_into_nil o
shallow_merge (object b) (not_object t) = ok (not_object t)
shallow_merge (object b) null = ok (object b)
shallow_merge (object b) (object o) = ok (object (write_all o b))

-- One entry of a layer merged into the result so far.
unfoldable pub merge_entry : String → Raw → Assoc String Raw → Result (Assoc String Raw)
unfolding shallow_merge
merge_entry name raw out = elim (lookup name out) [
  | none ↦ ok (insert name raw out)
  | some existing ↦ (shallow_merge existing raw >>= λ merged. ok (insert name merged out))
]

unfoldable pub merge_layer : Assoc String Raw → Assoc String Raw → Result (Assoc String Raw)
merge_layer [] out = ok out
merge_layer ((name, raw) ∷ layer) out = merge_entry name raw out >>= merge_layer layer

unfoldable pub merge_layers : List (Assoc String Raw) → Assoc String Raw → Result (Assoc String Raw)
merge_layers [] out = ok out
merge_layers (layer ∷ layers) out = merge_layer layer out >>= merge_layers layers

abbrev pub layer_of : ToolConfig → List (Assoc String Raw)
layer_of none = []
layer_of (some layer) = layer ∷ []

unfoldable pub resolve_tool_config :
    Schedule → Option Template → ScheduleDefaults → Result (Assoc String Raw)
resolve_tool_config s tmpl defaults =
    merge_layers
      (layer_of defaults.default_tool_config
        ++ (layer_of (tmpl_tools tmpl) ++ layer_of s.tool_config))
      []

unfoldable pub resolve_effective_config :
    Schedule → Option Template → ScheduleDefaults → Result EffectiveConfig
resolve_effective_config s tmpl defaults =
    let overridden = override_set s.overrides in
    let rrule = pick_string "rrule" overridden s.rrule (tmpl_rrule tmpl) defaults.default_rrule in
    let tz =
      pick_string "timezone" overridden s.timezone (tmpl_timezone tmpl) defaults.default_timezone in
    let window = resolve_maintenance_window overridden s tmpl defaults in
    if is_empty rrule
    then err unresolved_rrule
    else if is_empty tz
    then err unresolved_timezone
    else (resolve_tool_config s tmpl defaults >>= λ tools.
        ok (record {
          rrule = rrule;
          timezone = tz;
          tool_config = tools;
          maintenance_window = window;
        }))
