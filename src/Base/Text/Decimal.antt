-- ===== src/Base/Text/Decimal.antt =====
-- Reading back what was printed: `strconv.Itoa` and `strconv.Atoi`.
use Prim.Native.Nat.{ℕ, zero, suc, ◌+◌, ◌/◌, ◌%◌, ◌^◌, ◌≤◌, ◌<◌}
use mathlib.Core.Path.{◌≡◌, refl, sym, ap, subst, ◌∙◌}
use mathlib.Core.Logic.{inl, inr}
use mathlib.Core.Bool.{true, false}
use mathlib.Core.Option.{some}
use mathlib.Core.List.{[], ◌∷◌}
use native.Mathlib.Omega.{arith}
use surfbot_agent.Base.Tests.{Bool-cases, ltb, ◌==◌}
use surfbot_agent.Base.Lists.{All}
use surfbot_agent.Base.Int.{pos}
use surfbot_agent.Base.Text.{Bytes, scan_digits, atoi, digits, itoa}

abbrev pub IsDigit : ℕ → Type 0
IsDigit c = (b'0' ≤ c) × (c ≤ b'9')

digits-IsDigit :
    (fuel n : ℕ) (out : Bytes) → n < fuel → All IsDigit out → All IsDigit (digits fuel n out)
unfolding digits
digits-IsDigit zero n out h a = absurd (omega arith)
digits-IsDigit (suc fuel) n out h a =
    ground (arith, digits-IsDigit fuel (n / 10) ((b'0' + n % 10) ∷ out))

scan-digits :
    (fuel n : ℕ) (out : Bytes) → n < fuel → scan_digits (digits fuel n out) 0 ≡ scan_digits out n
unfolding scan_digits digits
scan-digits zero n out h = absurd (omega arith)
scan-digits (suc fuel) n out h = ground (arith, scan-digits fuel (n / 10) ((b'0' + n % 10) ∷ out))

-- A text that is not empty, with its first byte.
digits-cons :
    (fuel n : ℕ) (out : Bytes) → n < fuel → (c : ℕ) × (s : Bytes) × (digits fuel n out ≡ c ∷ s)
unfolding digits
digits-cons zero n out h = absurd (omega arith)
digits-cons (suc fuel) n out h = elim (Bool-cases (ltb n 10)) [
  | inl done ↦ (b'0' + n, out, rw done refl)
  | inr more ↦ rw more (digits-cons fuel (n / 10) ((b'0' + n % 10) ∷ out) (ground arith))
]

pub itoa-IsDigit : (n : ℕ) → All IsDigit (itoa n)
unfolding itoa
itoa-IsDigit n = digits-IsDigit (n + 1) n [] (omega arith) tt

pub itoa-cons : (n : ℕ) → (c : ℕ) × (s : Bytes) × (itoa n ≡ c ∷ s)
unfolding itoa
itoa-cons n = digits-cons (n + 1) n [] (omega arith)

scan-itoa : (n : ℕ) → scan_digits (itoa n) 0 ≡ some n
unfolding itoa scan_digits
scan-itoa n = scan-digits (n + 1) n [] (omega arith)

-- Every number that an int holds is read back from its print.
pub atoi-itoa : (n : ℕ) → n < 2 ^ 63 → atoi (itoa n) ≡ some (pos n)
unfolding atoi
atoi-itoa n h =
    let (c, s, e) = itoa-cons n in
    let (low, high) : IsDigit c = (subst (λ t. All IsDigit t) e (itoa-IsDigit n)).0 in
    let read : scan_digits (c ∷ s) 0 ≡ some n = sym (ap (λ t. scan_digits t 0) e) ∙ scan-itoa n in
    let minus : (c == b'-') ≡ false = ground arith in
    let plus : (c == b'+') ≡ false = ground arith in
    let fits : ltb n (2 ^ 63) ≡ true = ground arith in rw (e, minus, plus, read, fits) refl

-- A zero in front changes nothing.
pub atoi_padded : (n : ℕ) → n < 2 ^ 63 → atoi (b'0' ∷ itoa n) ≡ some (pos n)
unfolding atoi scan_digits
atoi_padded n h = let fits : ltb n (2 ^ 63) ≡ true = ground arith in rw (scan-itoa n, fits) refl
