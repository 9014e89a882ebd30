-- ===== src/Sched/Rules/Finite.antt =====
-- An instance of the interface: a rule is the list of its occurrences. It shows that the laws hold
-- of something, and serves the concrete runs.
use surfbot_agent.Base.{
  ◌≤◌, ◌<◌, ◌≡◌, ◌⊎◌, inl, inr, ◌↔◌, Bool, ◌&&◌, Option, none, some, List, [], ◌∷◌, String, arith,
  ltb, leb, if◌then◌else◌, In, keep_if, Bool-cases, Option-cases, subst, sym,
}
use surfbot_agent.Base.Members.{mem_of_keep_if, mem-keep_if}
use surfbot_agent.Model.{Time}
use surfbot_agent.Sched.Rules.{RuleLib, RuleLaws}

abbrev in_range : Time → Time → Time → Bool
in_range lo hi t = leb lo t && leb t hi

unfoldable pub least_after : List Time → Time → Option Time
least_after [] t = none
least_after (x ∷ xs) t =
    let rest = least_after xs t in
    if ltb t x
    then elim rest [ none ↦ some x | some y ↦ if ltb x y then some x else some y ]
    else rest

-- Every text parses, and the rule is the list that the environment assigns to the text.
abbrev pub finite_rules : (String → List Time) → RuleLib
finite_rules occurrences = record {
  Location = Unit {0};
  ROption = String × Time;
  Rule = List Time;
  load_location = λ name. some tt;
  str_to_roption = λ text. some (text, 0);
  new_rrule = λ opt. some (occurrences opt.0);
  dtstart = λ opt. opt.1;
  set_dtstart = λ opt t loc. (opt.0, t);
  between = λ r lo hi inc. keep_if (in_range lo hi) r;
  after = λ r t inc. least_after r t;
}

finite-between :
    (lo hi t : Time) (r : List Time)
    → In t (keep_if (in_range lo hi) r) ↔ (In t r × (lo ≤ t) × (t ≤ hi))
finite-between lo hi t r = (
  λ h. let (m, e) = mem_of_keep_if (in_range lo hi) t r h in (m, ground arith, ground arith),
  λ (m, a, b). mem-keep_if (in_range lo hi) t r m (ground arith),
)

least_after-none : (r : List Time) (t : Time) → least_after r t ≡ none → (u : Time) → In u r → u ≤ t
unfolding least_after
least_after-none [] t h u m = absurd m
least_after-none (x ∷ r) t h u (inl e) = ground (arith)
least_after-none (x ∷ r) t h u (inr m) = least_after-none r t (ground arith) u m

-- The least occurrence after `t`, with its two properties.
abbrev IsLeast : List Time → Time → Time → Type 0
IsLeast r t n = In n r × (t < n) × ((u : Time) → In u r → t < u → n ≤ u)

IsLeast-head :
    (x t n : Time) (r : List Time)
    → (n ≡ x) ⊎ In n r
    → t < n
    → ((u : Time) → In u r → t < u → n ≤ u)
    → (t < x → n ≤ x)
    → IsLeast (x ∷ r) t n
IsLeast-head x t n r m l h k = (place m, l, smallest)
  where
    place : (n ≡ x) ⊎ In n r → In n (x ∷ r)
    place (inl e) = inl (sym e)
    place (inr i) = inr i

    smallest : (u : Time) → In u (x ∷ r) → t < u → n ≤ u
    smallest u (inl e) later = subst (λ v. n ≤ v) e (k (subst (λ v. t < v) (sym e) later))
    smallest u (inr i) later = h u i later

least_after-IsLeast : (r : List Time) (t n : Time) → least_after r t ≡ some n → IsLeast r t n
unfolding least_after
least_after-IsLeast [] t n h = cc
least_after-IsLeast (x ∷ r) t n h = elim (Option-cases (least_after r t)) [
  | inl empty ↦
      let e : (n ≡ x) × (t < x) = (ground arith, ground arith) in
      IsLeast-head x t n r (inl e.0) (omega arith)
        (λ u m later. absurd (omega (arith, least_after-none r t empty u m))) (λ l. omega arith)
  | inr (y, e) ↦
      let (m, l, k) = least_after-IsLeast r t y e in
      elim (Bool-cases (ltb t x && ltb x y)) [
        | inl first ↦
            let e' : n ≡ x = ground arith in
            IsLeast-head x t n r (inl e') (ground arith) (λ u i later. ground (arith, k u i later))
              (λ p. omega arith)
        | inr second ↦
            let e' : y ≡ n = ground arith in
            IsLeast-head x t n r (inr (subst (λ v. In v r) e' m)) (omega arith)
              (λ u i later. omega (arith, k u i later)) (λ p. ground arith)
      ]
]

-- The laws hold of finite rules.
pub finite_laws : (occurrences : String → List Time) → RuleLaws (finite_rules occurrences)
unfolding least_after
finite_laws occurrences = record {
  Occurs = λ r t. In t r;
  between_iff = λ r lo hi t. finite-between lo hi t r;
  after_some = λ r t n h. least_after-IsLeast r t n h;
  after_none = λ r t h. least_after-none r t h;
}
