-- ===== src/Model/Cascade/Tools.antt =====
-- internal/model/cascade.go: the tool parameters, layer over layer.
use mathlib.Core.List.{append-nil}
use surfbot_agent.Base.{
  ◌≡◌, refl, subst, sym, ap, ◌∙◌, Option, none, some, List, [], ◌∷◌, ◌++◌, String, arith, str_eq,
  str_eq_iff, string_eq, if◌then◌else◌, Bool-cases, Option-cases, inl, inr,
}
use surfbot_agent.Base.Assoc.{Assoc, lookup, insert, lookup-insert, Distinct}
use surfbot_agent.Model.{
  Schedule, Template, ScheduleDefaults, ToolConfig, Raw, not_object, null, object, ok,
}
use surfbot_agent.Model.Cascade.{
  or_else, write_all, merge_entry, merge_layer, merge_layers, layer_of, tmpl_tools,
  resolve_tool_config,
}

-- One parameter of one tool.
abbrev pub param_in : Option Raw → String → Option String
param_in (some (object fields)) k = lookup k fields
param_in _ k = none

abbrev pub param : Assoc String Raw → String → String → Option String
param tools t k = param_in (lookup t tools) k

abbrev pub param_of : ToolConfig → String → String → Option String
param_of none t k = none
param_of (some tools) t k = param tools t k

abbrev pub IsObject : Raw → Type 0
IsObject (object fields) = Distinct fields
IsObject _ = ⊥

-- Every tool of the layer has an object for its parameters, and no key occurs twice.
abbrev pub AllObjects : Assoc String Raw → Type 0
AllObjects [] = Unit {0}
AllObjects ((t, raw) ∷ layer) = IsObject raw × (lookup t layer ≡ none) × AllObjects layer

abbrev pub ToolsAreObjects : ToolConfig → Type 0
ToolsAreObjects none = Unit {0}
ToolsAreObjects (some layer) = AllObjects layer

lookup-write_all :
    (k : String) (o b : Assoc String String)
    → Distinct o
    → lookup k (write_all o b) ≡ or_else (lookup k o) (lookup k b)
unfolding write_all lookup
lookup-write_all k [] b d = refl
lookup-write_all k ((j, v) ∷ o) b d = elim (Bool-cases (str_eq j k)) [
  | inl same ↦
      let absent : lookup k o ≡ none =
        subst (λ x. lookup x o ≡ none) ((str_eq_iff j k).0 same) d.0 in
      ground (arith, lookup-write_all k o (insert j v b) d.1, lookup-insert j k v b, absent)
  | inr other ↦ ground (arith, lookup-write_all k o (insert j v b) d.1, lookup-insert j k v b)
]

-- Every value present is an object.
abbrev Objects : Assoc String Raw → Type 0
Objects out =
    (t : String) (r : Raw) → lookup t out ≡ some r → (f : Assoc String String) × (r ≡ object f)

Objects-nil : Objects []
unfolding lookup
Objects-nil t r e = cc

Objects-insert :
    (t : String) (f : Assoc String String) (out : Assoc String Raw)
    → Objects out
    → Objects (insert t (object f) out)
Objects-insert t f out h u r e = elim (Bool-cases (str_eq t u)) [
  | inl same ↦ (f, ground (arith, lookup-insert t u (object f) out))
  | inr other ↦ h u r (ground (arith, lookup-insert t u (object f) out))
]

-- What merging one entry does, if all values are objects.
abbrev Merged : String → Assoc String String → Assoc String Raw → Assoc String Raw → Type 0
Merged name f out out' =
    Objects out'
    × ((t k : String)
        → param out' t k
          ≡ (if str_eq name t then or_else (lookup k f) (param out t k) else param out t k))

param-insert :
    (name : String) (g : Assoc String String) (out : Assoc String Raw) (t k : String)
    → param (insert name (object g) out) t k ≡ (if str_eq name t then lookup k g else param out t k)
param-insert name g out t k = elim (Bool-cases (str_eq name t)) [
  | inl same ↦ rw (lookup-insert name t (object g) out, same)
  | inr other ↦ rw (lookup-insert name t (object g) out, other)
]

-- The tool's parameters afterwards, from those before under the entry's own name.
param-merged :
    (name : String) (f g : Assoc String String) (out : Assoc String Raw)
    → ((k : String) → lookup k g ≡ or_else (lookup k f) (param out name k))
    → (t k : String)
    → param (insert name (object g) out) t k
      ≡ (if str_eq name t then or_else (lookup k f) (param out t k) else param out t k)
param-merged name f g out h t k = elim (Bool-cases (str_eq name t)) [
  | inl same ↦
      let here : name ≡ t = (str_eq_iff name t).0 same in
      rw (param-insert name g out t k, same)
        (subst (λ x. lookup k g ≡ or_else (lookup k f) (param out x k)) here (h k))
  | inr other ↦ rw (param-insert name g out t k, other)
]

or_else-none : {A : Type 0} (o : Option A) → o ≡ or_else o none
or_else-none none = refl
or_else-none (some a) = refl

merge_entry-Merged :
    (name : String) (f : Assoc String String) (out : Assoc String Raw)
    → Distinct f
    → Objects out
    → (out' : Assoc String Raw) × (merge_entry name (object f) out ≡ ok out')
      × Merged name f out out'
unfolding merge_entry
merge_entry-Merged name f out d h = elim (Option-cases (lookup name out)) [
  | inl fresh ↦ (
    insert name (object f) out,
    rw (fresh, merge_entry),
    (
      Objects-insert name f out h,
      param-merged name f f out (λ k. rw fresh (or_else-none (lookup k f))),
    ),
  )
  | inr (r, e) ↦
      let (g, o) = h name r e in
      let present : lookup name out ≡ some (object g) = e ∙ ap (λ x. some x) o in
      (
        insert name (object (write_all f g)) out,
        rw (present, merge_entry),
        (
          Objects-insert name (write_all f g) out h,
          param-merged name f (write_all f g) out (λ k. rw present (lookup-write_all k f g d)),
        ),
      )
]

-- A whole layer over the result so far.
abbrev Layered : Assoc String Raw → Assoc String Raw → Assoc String Raw → Type 0
Layered layer out out' =
    Objects out' × ((t k : String) → param out' t k ≡ or_else (param layer t k) (param out t k))

param-entry :
    (name : String) (f : Assoc String String) (layer : Assoc String Raw) (t k : String)
    (x y z : Option String)
    → lookup name layer ≡ none
    → x ≡ or_else (param layer t k) y
    → y ≡ (if str_eq name t then or_else (lookup k f) z else z)
    → x ≡ or_else (param ((name, object f) ∷ layer) t k) z
unfolding lookup
param-entry name f layer t k x y z absent p q = elim (Bool-cases (str_eq name t)) [
  | inl same ↦
      let gone : lookup t layer ≡ none =
        subst (λ u. lookup u layer ≡ none) ((str_eq_iff name t).0 same) absent in
      rw same (rw gone at p ∙ (rw same at q))
  | inr other ↦ rw other (p ∙ ap (or_else (param layer t k)) (rw other at q))
]

merge_layer-Layered :
    (layer out : Assoc String Raw)
    → AllObjects layer
    → Objects out
    → (out' : Assoc String Raw) × (merge_layer layer out ≡ ok out') × Layered layer out out'
unfolding merge_layer lookup
merge_layer-Layered [] out a h = (out, refl, (h, λ t k. refl))
merge_layer-Layered ((name, not_object x) ∷ layer) out a h = absurd a.0
merge_layer-Layered ((name, null) ∷ layer) out a h = absurd a.0
merge_layer-Layered ((name, object f) ∷ layer) out a h =
    let (out₁, e₁, (h₁, p₁)) = merge_entry-Merged name f out a.0 h in
    let (out₂, e₂, (h₂, p₂)) = merge_layer-Layered layer out₁ a.2 h₁ in
    (
      out₂,
      rw e₁ e₂,
      (h₂, λ t k. param-entry name f layer t k _ _ (param out t k) a.1 (p₂ t k) (p₁ t k)),
    )

-- One layer of the stack, which may be nil.
config-Layered :
    (c : ToolConfig) (out : Assoc String Raw)
    → ToolsAreObjects c
    → Objects out
    → (out' : Assoc String Raw) × ((rest : List (Assoc String Raw))
        → merge_layers (layer_of c ++ rest) out ≡ merge_layers rest out')
      × Objects out'
      × ((t k : String) → param out' t k ≡ or_else (param_of c t k) (param out t k))
unfolding merge_layers
config-Layered none out a h = (out, λ rest. refl, h, λ t k. refl)
config-Layered (some layer) out a h =
    let (out', e, (h', p)) = merge_layer-Layered layer out a h in (out', λ rest. rw e, h', p)

-- If in every layer each tool occurs once and has an object for its parameters, the resolution succeeds, and each parameter of
-- each tool is the schedule's where the schedule gives it, else the template's, else the defaults'.
pub resolve_tool_config_layers :
    (s : Schedule) (tmpl : Option Template) (defaults : ScheduleDefaults)
    → ToolsAreObjects defaults.default_tool_config
    → ToolsAreObjects (tmpl_tools tmpl)
    → ToolsAreObjects s.tool_config
    → (out : Assoc String Raw) × (resolve_tool_config s tmpl defaults ≡ ok out)
      × ((t k : String)
          → param out t k
            ≡ or_else (param_of s.tool_config t k) (
                or_else
                  (param_of (tmpl_tools tmpl) t k)
                  (param_of defaults.default_tool_config t k)))
unfolding resolve_tool_config merge_layers lookup
resolve_tool_config_layers s tmpl defaults a b c =
    let (o₁, e₁, h₁, p₁) = config-Layered defaults.default_tool_config [] a Objects-nil in
    let (o₂, e₂, h₂, p₂) = config-Layered (tmpl_tools tmpl) o₁ b h₁ in
    let (o₃, e₃, h₃, p₃) = config-Layered s.tool_config o₂ c h₂ in
    (
      o₃,
      e₁ (layer_of (tmpl_tools tmpl) ++ layer_of s.tool_config)
          ∙ e₂ (layer_of s.tool_config)
          ∙ ap (λ l. merge_layers l o₂) (sym (append-nil (layer_of s.tool_config)))
          ∙ e₃ [],
      λ t k.
          p₃ t k
          ∙ ap (or_else (param_of s.tool_config t k)) (
              p₂ t k
              ∙ ap (or_else (param_of (tmpl_tools tmpl) t k))
                  (p₁ t k ∙ sym (or_else-none (param_of defaults.default_tool_config t k)))),
    )
