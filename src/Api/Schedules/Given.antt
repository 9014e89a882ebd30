-- ===== src/Api/Schedules/Given.antt =====
-- internal/api/v1/schedules.go: the required fields of a request, as characters.
use surfbot_agent.Base.{
  ◌≡◌, refl, inl, inr, true, false, ◌||◌, List, [], ◌∷◌, ◌++◌, String, str_eq, str_eq_iff,
  Bool-cases, Any, In, arith,
}
use surfbot_agent.Base.Text.{Bytes, codes, is_empty, is_space, trim_left, trim_right, trim_space}
use surfbot_agent.Storage.Schedules.{blank}
use surfbot_agent.Api.Schedules.Requests.{
  CreateScheduleRequest, required, validate_create_schedule_request, listed,
}

-- Some byte of the text is not a space.
abbrev pub NonBlank : String → Type 0
NonBlank s = Any (λ c. is_space c ≡ false) (codes s)

trim_right_non_empty :
    (s : Bytes) → is_empty (trim_right s) ≡ false → Any (λ c. is_space c ≡ false) s
unfolding trim_right
trim_right_non_empty [] h = absurd (ground arith)
trim_right_non_empty (c ∷ s) h = elim (Bool-cases (is_space c)) [
  | inr text ↦ inl text
  | inl space ↦ elim (Bool-cases (is_empty (trim_right s))) [
    | inr more ↦ inr (trim_right_non_empty s more)
    | inl none_left ↦ absurd (ground arith)
  ]
]

trim_left_keeps :
    (s : Bytes) → Any (λ c. is_space c ≡ false) (trim_left s) → Any (λ c. is_space c ≡ false) s
unfolding trim_left
trim_left_keeps [] h = h
trim_left_keeps (c ∷ s) h = elim (Bool-cases (is_space c)) [
  | inl space ↦ inr (trim_left_keeps s (rw space at h))
  | inr text ↦ inl text
]

blank-NonBlank : (s : String) → blank s ≡ false → NonBlank s
unfolding trim_space
blank-NonBlank s h = trim_left_keeps (codes s) (trim_right_non_empty (trim_left (codes s)) h)

nil_parts : {A : Type 0} (xs ys : List A) → xs ++ ys ≡ [] → (xs ≡ []) × (ys ≡ [])
nil_parts [] ys h = (refl, h)
nil_parts (x ∷ xs) ys h = cc

required_none : (field value : String) → required field value ≡ [] → NonBlank value
required_none field value h = elim (Bool-cases (blank value)) [
  | inl empty ↦ absurd (let k : field ∷ [] ≡ [] = rw empty at h in cc)
  | inr there ↦ blank-NonBlank value there
]

-- Nothing is missing: all four fields are there.
pub validate_create_schedule_request-given :
    (req : CreateScheduleRequest)
    → validate_create_schedule_request req ≡ []
    → NonBlank req.target_id × NonBlank req.rrule × NonBlank req.timezone × NonBlank req.name
unfolding validate_create_schedule_request
validate_create_schedule_request-given req h =
    let (most, name) = nil_parts _ (required "name" req.name) h in
    let (more, timezone) = nil_parts _ (required "timezone" req.timezone) most in
    let (target, rrule) =
      nil_parts (required "target_id" req.target_id) (required "rrule" req.rrule) more in
    (
      required_none "target_id" req.target_id target,
      required_none "rrule" req.rrule rrule,
      required_none "timezone" req.timezone timezone,
      required_none "name" req.name name,
    )

pub listed-In : (names : List String) (name : String) → listed names name ≡ true → In name names
unfolding listed
listed-In [] name h = absurd (ground arith)
listed-In (o ∷ names) name h = elim (Bool-cases (str_eq o name)) [
  | inl same ↦ inl ((str_eq_iff o name).0 same)
  | inr other ↦
      inr (listed-In names name (let k : (false || listed names name) ≡ true = rw other at h in k))
]
