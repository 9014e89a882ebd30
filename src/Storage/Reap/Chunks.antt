-- ===== src/Storage/Reap/Chunks.antt =====
-- internal/storage/zombie_reap.go, chunkIDs: the chunks partition the list.
use surfbot_agent.Base.{
  ℕ, zero, suc, ◌+◌, ◌-◌, ◌≤◌, ◌≡◌, refl, sym, ◌∙◌, ap, ◌||◌, List, [], ◌∷◌, ◌++◌, arith, ltb, leb,
  length, take, drop, Bool-cases, inl, inr, All,
}
use mathlib.Core.List.{append-nil}
use surfbot_agent.Storage.Reap.{slice, chunk_end, chunks_from, chunk_ids}

unfoldable pub concat {ℓ} : {A : Type ℓ} → List (List A) → List A
concat [] = []
concat (c ∷ cs) = c ++ concat cs

module _ {A : Type 0} where
  take-drop : (n : ℕ) (xs : List A) → take n xs ++ drop n xs ≡ xs
  take-drop zero xs = refl
  take-drop (suc n) [] = refl
  take-drop (suc n) (x ∷ xs) = ap (λ l. x ∷ l) (take-drop n xs)

  length-take-le : (n : ℕ) (xs : List A) → length (take n xs) ≤ n
  length-take-le zero xs = omega arith
  length-take-le (suc n) [] = omega arith
  length-take-le (suc n) (x ∷ xs) = omega (arith, length-take-le n xs)

  drop_nil : (n : ℕ) → drop n (let e : List A = [] in e) ≡ []
  drop_nil zero = refl
  drop_nil (suc n) = refl

  drop-drop : (n i : ℕ) (xs : List A) → drop (i + n) xs ≡ drop n (drop i xs)
  drop-drop n zero xs = ap (λ k. drop k xs) (omega arith)
  drop-drop n (suc i) [] = drop_nil (suc i + n) ∙ sym (drop_nil n)
  drop-drop n (suc i) (x ∷ xs) =
      ap (λ k. drop k (x ∷ xs)) (let e : suc i + n ≡ suc (i + n) = omega arith in e)
      ∙ drop-drop n i xs

  drop_past : (n : ℕ) (xs : List A) → length xs ≤ n → drop n xs ≡ []
  drop_past zero [] h = refl
  drop_past zero (x ∷ xs) h = absurd (omega arith)
  drop_past (suc n) [] h = refl
  drop_past (suc n) (x ∷ xs) h = drop_past n xs (omega arith)

  length-drop : (n : ℕ) (xs : List A) → length (drop n xs) ≡ length xs - n
  length-drop zero xs = omega arith
  length-drop (suc n) [] = omega arith
  length-drop (suc n) (x ∷ xs) = omega (arith, length-drop n xs)

  take-drop_past :
      (m n : ℕ) (xs : List A) → length xs ≤ m → length xs ≤ n → take m xs ++ drop n xs ≡ xs
  take-drop_past zero zero [] h k = refl
  take-drop_past zero (suc n) [] h k = refl
  take-drop_past (suc m) zero [] h k = refl
  take-drop_past (suc m) (suc n) [] h k = refl
  take-drop_past zero n (x ∷ xs) h k = absurd (omega arith)
  take-drop_past (suc m) zero (x ∷ xs) h k = absurd (omega arith)
  take-drop_past (suc m) (suc n) (x ∷ xs) h k =
      ap (λ l. x ∷ l) (take-drop_past m n xs (omega arith) (omega arith))

  slice_lem :
      (i size : ℕ) (xs : List A)
      → (slice i (chunk_end (i + size) (length xs)) xs ++ drop (i + size) xs ≡ drop i xs)
        × (length (slice i (chunk_end (i + size) (length xs)) xs) ≤ size)
  unfolding slice
  slice_lem i size xs = elim (Bool-cases (ltb (length xs) (i + size))) [
    | inl last ↦
        let (late, whole) : (length xs - i ≤ size) × (length (drop i xs) ≤ length xs - i) =
          ground (arith, length-drop i xs) in
        rw (last, drop-drop size i xs)
          (
            take-drop_past (length xs - i) size (drop i xs) whole (omega (arith, late, whole)),
            omega (arith, length-take-le (length xs - i) (drop i xs)),
          )
    | inr more ↦
        let e : i + size - i ≡ size = omega arith in
        rw (more, drop-drop size i xs, e)
          (take-drop size (drop i xs), length-take-le size (drop i xs))
  ]

  chunks_from-concat :
      (fuel size : ℕ) (ids : List A) (i : ℕ)
      → 1 ≤ size
      → length ids ≤ fuel + i
      → (concat (chunks_from fuel size ids i) ≡ drop i ids)
        × All (λ c. length c ≤ size) (chunks_from fuel size ids i)
  unfolding chunks_from concat
  chunks_from-concat zero size ids i pos enough = (sym (drop_past i ids (omega arith)), tt)
  chunks_from-concat (suc fuel) size ids i pos enough = elim (Bool-cases (ltb i (length ids))) [
    | inl more ↦
        let (e, short) = chunks_from-concat fuel size ids (i + size) pos (omega arith) in
        let (cut, small) = slice_lem i size ids in rw (more, e) (cut, (small, short))
    | inr over ↦ rw over (sym (drop_past i ids (ground arith)), tt)
  ]

-- With a positive size the chunks are the list cut up, in order and without loss, and none is larger than the
-- size: the loop ends, and no statement binds more ids than allowed.
pub chunk_ids-concat :
    {A : Type 0} (ids : List A) (size : ℕ)
    → 1 ≤ size
    → (concat (chunk_ids ids size) ≡ ids) × All (λ c. length c ≤ size) (chunk_ids ids size)
unfolding chunk_ids concat
chunk_ids-concat ids size pos = elim (Bool-cases (leb size 0 || leb (length ids) size)) [
  | inl one ↦ rw (one, append-nil ids) (refl, (ground arith, tt))
  | inr many ↦ rw many (chunks_from-concat (length ids) size ids 0 pos (omega arith))
]
