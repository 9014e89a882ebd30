-- ===== src/Base/Rotate.antt =====
-- A ring buffer seen as a list: `rot p r` is the ring `r` read from the slot `p` onwards.
use Prim.Native.Nat.{ℕ, zero, suc, ◌+◌, ◌≤◌, ◌<◌}
use mathlib.Core.Path.{◌≡◌, refl, sym, ap}
use mathlib.Core.Bool.{Bool, false}
use mathlib.Core.List.{List, [], ◌∷◌, ◌++◌, append-nil, append_assoc, reverse, reverse-cons}
use native.Mathlib.Omega.{arith}
use surfbot_agent.Base.Tests.{if◌then◌else◌}
use surfbot_agent.Base.Lists.{length, set, take, drop, replicate, count_if, count_if-append}

module _ {ℓ} {A : Type ℓ} where
  abbrev pub rot : ℕ → List A → List A
  rot p r = drop p r ++ take p r

  pub drop-set : (r : List A) (p : ℕ) (x : A) → drop (suc p) (set r p x) ≡ drop (suc p) r
  drop-set [] p x = refl
  drop-set (y ∷ r) zero x = refl
  drop-set (y ∷ r) (suc p) x = drop-set r p x

  pub take-set :
      (r : List A) (p : ℕ) (x : A) → p < length r → take (suc p) (set r p x) ≡ take p r ++ x ∷ []
  take-set [] p x h = absurd (omega arith)
  take-set (y ∷ r) zero x h = refl
  take-set (y ∷ r) (suc p) x h = ap (λ l. y ∷ l) (take-set r p x (omega arith))

  pub drop-cons : (r : List A) (p : ℕ) → p < length r → (y : A) × (drop p r ≡ y ∷ drop (suc p) r)
  drop-cons [] p h = absurd (omega arith)
  drop-cons (y ∷ r) zero h = (y, refl)
  drop-cons (y ∷ r) (suc p) h = drop-cons r p (omega arith)

  pub take_all : (r : List A) (n : ℕ) → n ≡ length r → take n r ≡ r
  take_all [] zero h = refl
  take_all [] (suc n) h = refl
  take_all (y ∷ r) zero h = absurd (omega arith)
  take_all (y ∷ r) (suc n) h = ap (λ l. y ∷ l) (take_all r n (omega arith))

  pub drop_all : (r : List A) (n : ℕ) → n ≡ length r → drop n r ≡ []
  drop_all [] zero h = refl
  drop_all [] (suc n) h = refl
  drop_all (y ∷ r) zero h = absurd (omega arith)
  drop_all (y ∷ r) (suc n) h = drop_all r n (omega arith)

  -- A write at the read position, and a step past it: the oldest leaves, the new one is last.
  pub rot-set :
      (r : List A) (p : ℕ) (x : A)
      → p < length r
      → rot (suc p) (set r p x) ≡ (drop (suc p) r ++ take p r) ++ x ∷ []
  rot-set r p x h =
      rw (drop-set r p x, take-set r p x h)
        (sym (append_assoc (drop (suc p) r) (take p r) (x ∷ [])))

  pub rot_all : (r : List A) (n : ℕ) → n ≡ length r → rot n r ≡ rot 0 r
  rot_all r n h = rw (drop_all r n h, take_all r n h) (sym (append-nil r))

  pub take_snoc :
      (l : List A) (n : ℕ) → n < length l → (y : A) × (take (suc n) l ≡ take n l ++ y ∷ [])
  take_snoc [] n h = absurd (omega arith)
  take_snoc (y ∷ l) zero h = (y, refl)
  take_snoc (z ∷ l) (suc n) h = let (y, e) = take_snoc l n (omega arith) in (y, ap (λ k. z ∷ k) e)

  pub length-take_le : (n : ℕ) (l : List A) → n ≤ length l → length (take n l) ≡ n
  length-take_le zero l h = refl
  length-take_le (suc n) [] h = absurd (omega arith)
  length-take_le (suc n) (x ∷ l) h = ap suc (length-take_le n l (omega arith))

  pub count_if-take_padded :
      (p : A → Bool) (z : A)
      → p z ≡ false
      → (n m : ℕ) (l : List A) → count_if p (take n (l ++ replicate m z)) ≡ count_if p (take n l)
  count_if-take_padded p z e zero m l = refl
  count_if-take_padded p z e (suc n) zero [] = refl
  count_if-take_padded p z e (suc n) (suc m) [] = rw e (none_counted n m)
    where
      none_counted : (n m : ℕ) → 0 + count_if p (take n (replicate m z)) ≡ 0
      none_counted zero m = omega arith
      none_counted (suc n) zero = omega arith
      none_counted (suc n) (suc m) = rw e (omega (arith, none_counted n m))
  count_if-take_padded p z e (suc n) m (x ∷ l) =
      ap (λ (k : ℕ). (if p x then 1 else 0) + k) (count_if-take_padded p z e n m l)

  pub count_if-reverse : (p : A → Bool) (l : List A) → count_if p (reverse l) ≡ count_if p l
  count_if-reverse p [] = refl
  count_if-reverse p (x ∷ l) =
      rw (reverse-cons x l, count_if-append p (reverse l) (x ∷ []))
        (omega (arith, count_if-reverse p l))

  pub count_rot : (p : A → Bool) (n : ℕ) (r : List A) → count_if p (rot n r) ≡ count_if p r
  count_rot p zero r = rw (append-nil r)
  count_rot p (suc n) [] = refl
  count_rot p (suc n) (x ∷ r) = omega (
    arith,
    count_if-append p (drop n r) (x ∷ take n r),
    count_if-append p (drop n r) (take n r),
    count_rot p n r,
  )
