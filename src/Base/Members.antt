-- ===== src/Base/Members.antt =====
-- Membership in lists: in a filtered list, an appended list, and under `All`.
use mathlib.Core.Path.{◌≡◌, refl, sym, subst}
use mathlib.Core.Logic.{◌⊎◌, inl, inr}
use mathlib.Core.Bool.{Bool, true}
use mathlib.Core.List.{List, [], ◌∷◌, ◌++◌}
use surfbot_agent.Base.Tests.{Bool-cases}
use surfbot_agent.Base.Lists.{In, All, keep_if}

module _ {A : Type 0} where
  In-head :
      (p : A → Bool) (x a : A) (xs : List A)
      → (In a (keep_if p xs) → In a xs × (p a ≡ true))
      → In a (keep_if p (x ∷ xs))
      → In a (x ∷ xs) × (p a ≡ true)
  In-head p x a xs ih h = elim (Bool-cases (p x)) [
    | inl kept ↦ go kept (rw kept at h)
    | inr dropped ↦ let (m, e) = ih (rw dropped at h) in (inr m, e)
  ]
    where
      go : p x ≡ true → (x ≡ a) ⊎ In a (keep_if p xs) → In a (x ∷ xs) × (p a ≡ true)
      go kept (inl e) = (inl e, subst (λ y. p y ≡ true) e kept)
      go kept (inr m) = let (m', e) = ih m in (inr m', e)

  pub mem_of_keep_if :
      (p : A → Bool) (a : A) (xs : List A) → In a (keep_if p xs) → In a xs × (p a ≡ true)
  mem_of_keep_if p a [] h = absurd h
  mem_of_keep_if p a (x ∷ xs) h = In-head p x a xs (mem_of_keep_if p a xs) h

  pub mem-keep_if :
      (p : A → Bool) (a : A) (xs : List A) → In a xs → p a ≡ true → In a (keep_if p xs)
  mem-keep_if p a [] h e = absurd h
  mem-keep_if p a (x ∷ xs) (inl h) e = rw (subst (λ y. p y ≡ true) (sym h) e) (inl h)
  mem-keep_if p a (x ∷ xs) (inr h) e = elim (Bool-cases (p x)) [
    | inl kept ↦ rw kept (inr (mem-keep_if p a xs h e))
    | inr dropped ↦ rw dropped (mem-keep_if p a xs h e)
  ]

  pub mem-append_left : (a : A) (xs ys : List A) → In a xs → In a (xs ++ ys)
  mem-append_left a [] ys h = absurd h
  mem-append_left a (x ∷ xs) ys (inl e) = inl e
  mem-append_left a (x ∷ xs) ys (inr h) = inr (mem-append_left a xs ys h)

  pub mem-append_right : (a : A) (xs ys : List A) → In a ys → In a (xs ++ ys)
  mem-append_right a [] ys h = h
  mem-append_right a (x ∷ xs) ys h = inr (mem-append_right a xs ys h)

  pub mem-append : (a : A) (xs ys : List A) → In a (xs ++ ys) → In a xs ⊎ In a ys
  mem-append a [] ys h = inr h
  mem-append a (x ∷ xs) ys (inl e) = inl (inl e)
  mem-append a (x ∷ xs) ys (inr h) = elim (mem-append a xs ys h) [
    | inl l ↦ inl (inr l)
    | inr r ↦ inr r
  ]

  pub All-mem : (P : A → Type 0) (a : A) (xs : List A) → All P xs → In a xs → P a
  All-mem P a [] ps h = absurd h
  All-mem P a (x ∷ xs) ps (inl e) = subst P e ps.0
  All-mem P a (x ∷ xs) ps (inr h) = All-mem P a xs ps.1 h

  pub All-tabulate : (P : A → Type 0) (xs : List A) → ((a : A) → In a xs → P a) → All P xs
  All-tabulate P [] f = tt
  All-tabulate P (x ∷ xs) f = (f x (inl refl), All-tabulate P xs (λ a m. f a (inr m)))
