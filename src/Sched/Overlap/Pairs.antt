-- ===== src/Sched/Overlap/Pairs.antt =====
-- internal/daemon/intervalsched/overlap.go: the pair loops over the occurrences of two schedules.
use surfbot_agent.Base.{
  ℕ, ◌<◌, ◌≡◌, refl, subst, ◌↔◌, ◌⊎◌, inl, inr, true, List, [], ◌∷◌, ◌++◌, String, arith, ltb, In,
  Bool-cases,
}
use surfbot_agent.Base.Members.{mem-append, mem-append_left, mem-append_right}
use surfbot_agent.Model.{Time}
use surfbot_agent.Sched.Overlap.{OverlapConflict, distance, conflicts_of, conflicts_between}

abbrev pub IsConflict : String → ℕ → List Time → List Time → OverlapConflict → Type 0
IsConflict id dur cands bs c =
    (c.schedule_id ≡ id)
    × In c.occurrence_a cands
    × In c.occurrence_b bs
    × (distance c.occurrence_a c.occurrence_b < dur)

of_conflicts_of :
    (id : String) (dur : ℕ) (a : Time) (bs : List Time) (c : OverlapConflict)
    → In c (conflicts_of id dur a bs)
    → IsConflict id dur (a ∷ []) bs c
unfolding conflicts_of
of_conflicts_of id dur a [] c h = absurd h
of_conflicts_of id dur a (b ∷ bs) c h = elim (Bool-cases (ltb (distance a b) dur)) [
  | inr far ↦
      let (i, x, y, z) = of_conflicts_of id dur a bs c (rw (far, conflicts_of) at h) in
      (i, x, inr y, z)
  | inl close ↦ found close (rw (close, conflicts_of) at h) (of_conflicts_of id dur a bs c)
]
  where
    found :
        ltb (distance a b) dur ≡ true
        → (record { schedule_id = id; occurrence_a = a; occurrence_b = b } ≡ c)
          ⊎ In c (conflicts_of id dur a bs)
        → (In c (conflicts_of id dur a bs) → IsConflict id dur (a ∷ []) bs c)
        → IsConflict id dur (a ∷ []) (b ∷ bs) c
    found close (inl same) later =
        subst (IsConflict id dur (a ∷ []) (b ∷ bs)) same (refl, inl refl, inl refl, ground arith)
    found close (inr m) later = let (i, x, y, z) = later m in (i, x, inr y, z)

conflicts_of-In :
    (id : String) (dur : ℕ) (a : Time) (bs : List Time) (c : OverlapConflict)
    → IsConflict id dur (a ∷ []) bs c
    → In c (conflicts_of id dur a bs)
unfolding conflicts_of
conflicts_of-In id dur a [] c (i, x, y, z) = absurd y
conflicts_of-In id dur a (b ∷ bs) c (i, inr x, y, z) = absurd x
conflicts_of-In id dur a (b ∷ bs) c (i, inl x, inl y, z) =
    let close : ltb (distance a b) dur ≡ true = ground arith in
    rw (close, conflicts_of) (inl (ground arith))
conflicts_of-In id dur a (b ∷ bs) c (i, inl x, inr y, z) =
    let later = conflicts_of-In id dur a bs c (i, inl x, y, z) in
    elim (Bool-cases (ltb (distance a b) dur)) [
      | inl close ↦ rw (close, conflicts_of) (inr later)
      | inr far ↦ rw (far, conflicts_of) later
    ]

-- The pairs of occurrences of two schedules that are closer than the duration, and no others.
pub conflicts_between_iff :
    (id : String) (dur : ℕ) (cands bs : List Time) (c : OverlapConflict)
    → In c (conflicts_between id dur cands bs) ↔ IsConflict id dur cands bs c
unfolding conflicts_between
conflicts_between_iff id dur [] bs c = (λ h. absurd h, λ (i, x, y, z). absurd x)
conflicts_between_iff id dur (a ∷ cands) bs c =
    let (to, from) = conflicts_between_iff id dur cands bs c in
    (
      λ h. elim (mem-append c (conflicts_of id dur a bs) (conflicts_between id dur cands bs) h) [
        | inl m ↦ let (i, x, y, z) = of_conflicts_of id dur a bs c m in (i, first x, y, z)
        | inr m ↦ let (i, x, y, z) = to m in (i, inr x, y, z)
      ],
      λ (i, x, y, z). place from i y z x,
    )
  where
    first : {t : Time} → In t (a ∷ []) → In t (a ∷ cands)
    first (inl e) = inl e
    first (inr m) = absurd m

    place :
        (IsConflict id dur cands bs c → In c (conflicts_between id dur cands bs))
        → c.schedule_id ≡ id
        → In c.occurrence_b bs
        → distance c.occurrence_a c.occurrence_b < dur
        → In c.occurrence_a (a ∷ cands)
        → In c (conflicts_of id dur a bs ++ conflicts_between id dur cands bs)
    place from i y z (inl e) =
        mem-append_left c (conflicts_of id dur a bs) (conflicts_between id dur cands bs)
          (conflicts_of-In id dur a bs c (i, inl e, y, z))
    place from i y z (inr m) =
        mem-append_right c (conflicts_of id dur a bs) (conflicts_between id dur cands bs)
          (from (i, m, y, z))
