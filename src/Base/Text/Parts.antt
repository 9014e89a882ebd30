-- ===== src/Base/Text/Parts.antt =====
-- Trimming and splitting texts whose parts hold no space and no separator.
use Prim.Native.Nat.{ℕ, ◌<◌}
use mathlib.Core.Path.{◌≡◌, refl, ap, ◌∙◌}
use mathlib.Core.Logic.{◌≢◌}
use mathlib.Core.Bool.{true, false, ◌&&◌}
use mathlib.Core.List.{List, [], ◌∷◌, ◌++◌}
use native.Mathlib.Omega.{arith}
use surfbot_agent.Base.Tests.{◌==◌, if◌then◌else◌}
use surfbot_agent.Base.Lists.{All}
use surfbot_agent.Base.Text.Decimal.{IsDigit}
use surfbot_agent.Base.Text.{
  Bytes, is_empty, is_space, trim_left, trim_right, trim_space, split_on, cut_at, has_byte,
}

-- The byte stands nowhere in the text.
abbrev pub Lacks : ℕ → Bytes → Type 0
Lacks sep s = All (λ c. (c == sep) ≡ false) s

abbrev pub NoSpace : Bytes → Type 0
NoSpace s = All (λ c. is_space c ≡ false) s

trim_left_none : (s : Bytes) → NoSpace s → trim_left s ≡ s
unfolding trim_left
trim_left_none [] h = refl
trim_left_none (c ∷ s) (h, hs) = rw h refl

trim_right_none : (s : Bytes) → NoSpace s → trim_right s ≡ s
unfolding trim_right
trim_right_none [] h = refl
trim_right_none (c ∷ s) (h, hs) = rw (trim_right_none s hs) (last s c h)
  where
    last :
        (s : Bytes) (c : ℕ)
        → is_space c ≡ false
        → (if is_empty s && is_space c then [] else c ∷ s) ≡ c ∷ s
    last [] c h = rw h refl
    last (d ∷ s) c h = refl

pub trim_space_none : (s : Bytes) → NoSpace s → trim_space s ≡ s
unfolding trim_space
trim_space_none s h = rw (trim_left_none s h, trim_right_none s h) refl

-- Parts written one behind the other with the separator between them.
unfoldable pub join : ℕ → List Bytes → Bytes
join sep [] = []
join sep (p ∷ []) = p
join sep (p ∷ q ∷ ps) = p ++ sep ∷ join sep (q ∷ ps)

split_on-last : (sep : ℕ) (p : Bytes) → Lacks sep p → split_on sep p ≡ p ∷ []
unfolding split_on
split_on-last sep [] h = refl
split_on-last sep (c ∷ p) (h, hp) = rw (h, split_on-last sep p hp) refl

split_on-append :
    (sep : ℕ) (p rest : Bytes)
    → Lacks sep p
    → split_on sep (p ++ sep ∷ rest) ≡ p ∷ split_on sep rest
unfolding split_on
split_on-append sep [] rest h = ground arith
split_on-append sep (c ∷ p) rest (h, hp) = rw (h, split_on-append sep p rest hp) refl

pub split_on-join :
    (sep : ℕ) (ps : List Bytes) → ps ≢ [] → All (Lacks sep) ps → split_on sep (join sep ps) ≡ ps
unfolding join
split_on-join sep [] h a = absurd (h refl)
split_on-join sep (p ∷ []) h (a, _) = split_on-last sep p a
split_on-join sep (p ∷ q ∷ ps) h (a, more) =
    split_on-append sep p (join sep (q ∷ ps)) a
    ∙ ap (λ l. p ∷ l) (split_on-join sep (q ∷ ps) (cc) more)

pub cut_at-append :
    (sep : ℕ) (p rest : Bytes) → Lacks sep p → cut_at sep (p ++ sep ∷ rest) ≡ (p, rest, true)
unfolding cut_at
cut_at-append sep [] rest h = ground arith
cut_at-append sep (c ∷ p) rest (h, hp) = rw (h, cut_at-append sep p rest hp) refl

pub has_byte-Lacks : (sep : ℕ) (s : Bytes) → Lacks sep s → has_byte sep s ≡ false
unfolding has_byte
has_byte-Lacks sep [] h = refl
has_byte-Lacks sep (c ∷ s) (h, hs) = rw (h, has_byte-Lacks sep s hs) refl

pub has_byte-append : (sep : ℕ) (p rest : Bytes) → has_byte sep (p ++ sep ∷ rest) ≡ true
unfolding has_byte
has_byte-append sep [] rest = ground arith
has_byte-append sep (c ∷ p) rest = ground (arith, has_byte-append sep p rest)

-- What digits are not.
pub digits_lack : (sep : ℕ) (s : Bytes) → sep < b'0' → All IsDigit s → Lacks sep s
digits_lack sep [] h a = tt
digits_lack sep (c ∷ s) h ((low, high), a) = (ground arith, digits_lack sep s h a)

pub digits-NoSpace : (s : Bytes) → All IsDigit s → NoSpace s
digits-NoSpace [] a = tt
digits-NoSpace (c ∷ s) ((low, high), a) = (ground arith, digits-NoSpace s a)
