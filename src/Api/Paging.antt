-- ===== src/Api/Paging.antt =====
-- internal/api/v1/types.go, ParsePagination, and the slice that the list handlers take with it.
use Prim.Native.Nat.{◌^◌}
use surfbot_agent.Base.{
  ℕ, zero, suc, ◌+◌, ◌-◌, ◌≤◌, ◌<◌, ◌≡◌, refl, sym, ap, true, false, ◌||◌, Option, none, some, List,
  [], ◌∷◌, ltb, ltb→lt, if◌then◌else◌, length, take, drop, arith, Bool-cases, inl, inr,
}
use surfbot_agent.Base.Int.{ℤ, pos, negsuc, ltb_ℤ, pos_part}
use surfbot_agent.Base.Text.{Bytes, is_empty, atoi}

abbrev pub default_limit : ℕ
default_limit = 50

abbrev pub max_limit : ℕ
max_limit = 500

pub record Pagination : Type 0 where
  pub limit : ℕ
  pub offset : ℕ

abbrev pub limit_from : ℕ → Option ℤ → ℕ
limit_from max none = default_limit
limit_from max (some n) =
    if ltb_ℤ (pos 0) n then (if ltb max (pos_part n) then max else pos_part n) else default_limit

abbrev pub offset_from : Option ℤ → ℕ
offset_from none = 0
offset_from (some n) = if ltb_ℤ n (pos 0) then 0 else pos_part n

-- From the two query parameters, which are empty when they are not given; `max` is positive.
unfoldable pub parse_pagination : Bytes → Bytes → ℕ → Pagination
unfolding atoi
parse_pagination limit offset max = record {
  limit = if is_empty limit then default_limit else limit_from max (atoi limit);
  offset = if is_empty offset then 0 else offset_from (atoi offset);
}

-- A sum of two ints of 64 bits.
abbrev pub add_int : ℕ → ℕ → ℤ
add_int a b = if ltb (a + b) (2 ^ 63) then pos (a + b) else negsuc (2 ^ 64 - (a + b) - 1)

-- `schedules[lo:hi]`; `none` is the run-time panic of a slice out of bounds.
unfoldable pub slice {ℓ} : {A : Type ℓ} → List A → ℕ → ℤ → Option (List A)
slice xs lo hi =
    if ltb_ℤ hi (pos lo) || ltb_ℤ (pos (length xs)) hi
    then none
    else some (take (pos_part hi - lo) (drop lo xs))

abbrev pub at_most_int : ℤ → ℕ → ℤ
at_most_int n most = if ltb_ℤ (pos most) n then pos most else n

unfoldable pub page {ℓ} : {A : Type ℓ} → List A → Pagination → Option (List A)
page xs p =
    let lo : ℕ = if ltb (length xs) p.offset then length xs else p.offset in
    slice xs lo (at_most_int (add_int p.offset p.limit) (length xs))

-- The page's size is between 1 and the maximum, whatever the query says.
pub parse_pagination_bounds :
    (limit offset : Bytes) (max : ℕ)
    → default_limit ≤ max
    → (1 ≤ (parse_pagination limit offset max).limit)
      × ((parse_pagination limit offset max).limit ≤ max)
unfolding parse_pagination
parse_pagination_bounds limit offset max h = elim (Bool-cases (is_empty limit)) [
  | inl empty ↦ rw empty (omega arith, h)
  | inr given ↦ rw given (from (atoi limit))
]
  where
    from : (n : Option ℤ) → (1 ≤ limit_from max n) × (limit_from max n ≤ max)
    from none = (omega arith, h)
    from (some n) = ground arith

at_most_pos : (n most : ℕ) → at_most_int (pos n) most ≡ pos (if ltb most n then most else n)
at_most_pos n most = ground arith

at_most_neg : (n most : ℕ) → at_most_int (negsuc n) most ≡ negsuc n
at_most_neg n most = ground arith

module _ {A : Type 0} where
  length-drop : (n : ℕ) (xs : List A) → length (drop n xs) ≡ length xs - n
  length-drop zero xs = omega arith
  length-drop (suc n) [] = omega arith
  length-drop (suc n) (x ∷ xs) = omega (arith, length-drop n xs)

  take_past : (n m : ℕ) (xs : List A) → length xs ≤ n → length xs ≤ m → take n xs ≡ take m xs
  take_past zero zero xs h k = refl
  take_past zero (suc m) [] h k = refl
  take_past (suc n) zero [] h k = refl
  take_past (suc n) (suc m) [] h k = refl
  take_past zero (suc m) (x ∷ xs) h k = absurd (omega arith)
  take_past (suc n) zero (x ∷ xs) h k = absurd (omega arith)
  take_past (suc n) (suc m) (x ∷ xs) h k =
      ap (λ l. x ∷ l) (take_past n m xs (omega arith) (omega arith))

  drop_past : (n : ℕ) (xs : List A) → length xs ≤ n → drop n xs ≡ []
  drop_past zero [] h = refl
  drop_past zero (x ∷ xs) h = absurd (omega arith)
  drop_past (suc n) [] h = refl
  drop_past (suc n) (x ∷ xs) h = drop_past n xs (omega arith)

  take_nil : (n : ℕ) → take n (let e : List A = [] in e) ≡ []
  take_nil zero = refl
  take_nil (suc n) = refl

  slice_within :
      (xs : List A) (lo hi : ℕ)
      → lo ≤ hi
      → hi ≤ length xs
      → slice xs lo (pos hi) ≡ some (take (hi - lo) (drop lo xs))
  unfolding slice
  slice_within xs lo hi h k =
      let bounds : (ltb_ℤ (pos hi) (pos lo) || ltb_ℤ (pos (length xs)) (pos hi)) ≡ false =
        ground arith in
      rw bounds refl

  slice_negative : (xs : List A) (lo n : ℕ) → slice xs lo (negsuc n) ≡ none
  unfolding slice
  slice_negative xs lo n =
      let bounds : (ltb_ℤ (negsuc n) (pos lo) || ltb_ℤ (pos (length xs)) (negsuc n)) ≡ true =
        ground arith in
      rw bounds refl

  page_within :
      (xs : List A) (offset limit : ℕ)
      → offset ≤ length xs
      → slice xs offset
          (pos (if ltb (length xs) (offset + limit) then length xs else offset + limit))
        ≡ some (take limit (drop offset xs))
  page_within xs offset limit h = elim (Bool-cases (ltb (length xs) (offset + limit))) [
    | inl cut ↦
        let over = ltb→lt (length xs) (offset + limit) cut in
        let rest = length-drop offset xs in
        rw (cut, slice_within xs offset (length xs) h (omega arith))
          (ap some (
            take_past (length xs - offset) limit (drop offset xs) (omega (arith, rest))
              (omega (arith, rest, over))))
    | inr whole ↦
        let n : offset + limit - offset ≡ limit = omega arith in
        rw (whole, slice_within xs offset (offset + limit) (omega arith) (ground arith), n) refl
  ]

  page_past :
      (xs : List A) (offset limit : ℕ)
      → length xs < offset
      → slice xs
          (length xs)
          (pos (if ltb (length xs) (offset + limit) then length xs else offset + limit))
        ≡ some (take limit (drop offset xs))
  page_past xs offset limit h =
      let cut : ltb (length xs) (offset + limit) ≡ true = ground arith in
      let zero_left : length xs - length xs ≡ 0 = omega arith in
      rw
        (
          cut,
          slice_within xs (length xs) (length xs) (omega arith) (omega arith),
          zero_left,
          drop_past offset xs (omega arith),
        )
        (ap some (sym (take_nil limit)))

  -- A page is the part of the list that the offset and the limit say, empty behind its end; but if the sum of the
  -- two exceeds an int of 64 bits, the slice is out of bounds and the handler panics.
  pub page_lem :
      (xs : List A) (p : Pagination)
      → page xs p ≡ (
          if ltb (p.offset + p.limit) (2 ^ 63)
          then some (take p.limit (drop p.offset xs))
          else none)
  unfolding page
  page_lem xs p = elim (Bool-cases (ltb (p.offset + p.limit) (2 ^ 63))) [
    | inl fits ↦
        rw (fits, at_most_pos (p.offset + p.limit) (length xs))
          (elim (Bool-cases (ltb (length xs) p.offset)) [
            | inl past ↦ rw past (page_past xs p.offset p.limit (ltb→lt _ _ past))
            | inr within ↦ rw within (page_within xs p.offset p.limit (ground arith))
          ])
    | inr wraps ↦
        rw (wraps, at_most_neg (2 ^ 64 - (p.offset + p.limit) - 1) (length xs))
          (slice_negative xs (if ltb (length xs) p.offset then length xs else p.offset)
            (2 ^ 64 - (p.offset + p.limit) - 1))
  ]
