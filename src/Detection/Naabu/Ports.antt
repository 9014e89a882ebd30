-- ===== src/Detection/Naabu/Ports.antt =====
-- internal/detection/naabu.go, ParsePorts: the ports that a specification names.
use surfbot_agent.Base.{
  ℕ, zero, suc, ◌+◌, ◌-◌, ◌≤◌, ◌≡◌, refl, sym, ◌∙◌, ap, subst, false, ◌||◌, Option, none, some,
  List, [], ◌∷◌, ◌++◌, map, arith, ◌==◌, All, Bool-cases, inl, inr,
}
use mathlib.Core.List.{append_assoc, append-nil}
use surfbot_agent.Base.Int.{ℤ, pos, ltb_ℤ, pos_part}
use surfbot_agent.Base.Text.{
  Bytes, codes, bytes_eq, is_empty, is_space, trim_space, split_on, cut_at, has_byte, atoi, itoa,
}
use surfbot_agent.Base.Text.Decimal.{IsDigit, itoa-IsDigit, itoa-cons, atoi-itoa}
use surfbot_agent.Base.Text.Parts.{
  Lacks, NoSpace, trim_space_none, join, split_on-join, cut_at-append, has_byte-Lacks,
  has_byte-append, digits_lack, digits-NoSpace,
}
use surfbot_agent.Detection.Naabu.{
  top100_ports, ports_from, max_port, port_range, one_port, parse_part, appended, parse_parts,
  parse_ports,
}

abbrev pub IsPort : ℕ → Type 0
IsPort p = (1 ≤ p) × (p ≤ 65535)

All-append : (P : ℕ → Type 0) (xs ys : List ℕ) → All P xs → All P ys → All P (xs ++ ys)
All-append P [] ys a b = b
All-append P (x ∷ xs) ys (a, as') b = (a, All-append P xs ys as' b)

ports_from-IsPort : (p n : ℕ) → 1 ≤ p → p + n ≤ 65536 → All IsPort (ports_from p n)
unfolding ports_from
ports_from-IsPort p zero low high = tt
ports_from-IsPort p (suc n) low high =
    ((low, omega arith), ports_from-IsPort (p + 1) n (omega arith) (omega arith))

-- What holds of a result if there is one.
abbrev pub Ports : Option (List ℕ) → Type 0
Ports none = Unit {0}
Ports (some ps) = All IsPort ps

port_range-Ports : (start end : Option ℤ) → Ports (port_range start end)
port_range-Ports none end = tt
port_range-Ports (some start) none = tt
port_range-Ports (some start) (some end) =
    elim (Bool-cases (ltb_ℤ end start || ltb_ℤ start (pos 1) || ltb_ℤ max_port end)) [
      | inl bad ↦ rw bad tt
      | inr good ↦ rw good (
          ports_from-IsPort (pos_part start) (pos_part end + 1 - pos_part start) (ground arith)
            (ground arith))
    ]

one_port-Ports : (p : Option ℤ) → Ports (one_port p)
one_port-Ports none = tt
one_port-Ports (some p) = elim (Bool-cases (ltb_ℤ p (pos 1) || ltb_ℤ max_port p)) [
  | inl bad ↦ rw bad tt
  | inr good ↦ rw good ((ground arith, ground arith), tt)
]

parse_part-Ports : (text : Bytes) → Ports (parse_part text)
unfolding parse_part
parse_part-Ports text =
    let part = trim_space text in
    let (start, end, found) = cut_at b'-' part in
    elim (Bool-cases (has_byte b'-' part)) [
      | inl range ↦ rw range (port_range-Ports (atoi (trim_space start)) (atoi (trim_space end)))
      | inr single ↦ rw single (one_port-Ports (atoi part))
    ]

appended-Ports :
    (more : Option (List ℕ)) (next : List ℕ → Option (List ℕ))
    → Ports more
    → ((ps : List ℕ) → All IsPort ps → Ports (next ps))
    → Ports (appended more next)
appended-Ports none next a f = tt
appended-Ports (some ps) next a f = f ps a

parse_parts-Ports :
    (parts : List Bytes) (ports : List ℕ) → All IsPort ports → Ports (parse_parts parts ports)
unfolding parse_parts
parse_parts-Ports [] ports a = a
parse_parts-Ports (part ∷ parts) ports a =
    appended-Ports (parse_part part) _ (parse_part-Ports part)
      (λ ps b. parse_parts-Ports parts (ports ++ ps) (All-append IsPort ports ps a b))

-- An accepted specification, of whatever text, names only ports from 1 to 65535.
pub parse_ports-Ports : (text : Bytes) → Ports (parse_ports text)
unfolding parse_ports
parse_ports-Ports text =
    let spec = trim_space text in
    let named : All IsPort top100_ports = omega arith in
    elim (Bool-cases (is_empty spec || bytes_eq spec (codes "top100"))) [
      | inl default ↦ rw default named
      | inr other ↦ rw other (elim (Bool-cases (bytes_eq spec (codes "top1000"))) [
        | inl large ↦ rw large named
        | inr list ↦ rw list (parse_parts-Ports (split_on b',' spec) [] tt)
      ])
    ]

-- A specification as an operator writes it: ports and ranges of ports.
pub data Item : Type 0 where
  single : ℕ → Item
  range : ℕ → ℕ → Item

unfoldable pub print : Item → Bytes
print (single p) = itoa p
print (range p q) = itoa p ++ b'-' ∷ itoa q

abbrev pub IsItem : Item → Type 0
IsItem (single p) = IsPort p
IsItem (range p q) = (1 ≤ p) × (p ≤ q) × (q ≤ 65535)

-- The ports that it names, in their order.
unfoldable pub ports_of : Item → List ℕ
ports_of (single p) = p ∷ []
ports_of (range p q) = ports_from p (q + 1 - p)

unfoldable pub ports_of_all : List Item → List ℕ
ports_of_all [] = []
ports_of_all (i ∷ items) = ports_of i ++ ports_of_all items

All-bytes-append :
    (P : ℕ → Type 0) (s : Bytes) (c : ℕ) (t : Bytes) → All P s → P c → All P t → All P (s ++ c ∷ t)
All-bytes-append P s c t a b d = All-append P s (c ∷ t) a (b, d)

print-NoSpace : (i : Item) → NoSpace (print i)
unfolding print
print-NoSpace (single p) = digits-NoSpace (itoa p) (itoa-IsDigit p)
print-NoSpace (range p q) =
    All-bytes-append (λ c. is_space c ≡ false) (itoa p) b'-' (itoa q)
      (digits-NoSpace (itoa p) (itoa-IsDigit p)) refl (digits-NoSpace (itoa q) (itoa-IsDigit q))

print-Lacks : (i : Item) → Lacks b',' (print i)
unfolding print
print-Lacks (single p) = digits_lack b',' (itoa p) (omega arith) (itoa-IsDigit p)
print-Lacks (range p q) =
    All-bytes-append (λ c. (c == b',') ≡ false) (itoa p) b'-' (itoa q)
      (digits_lack b',' (itoa p) (omega arith) (itoa-IsDigit p)) refl
      (digits_lack b',' (itoa q) (omega arith) (itoa-IsDigit q))

read_back : (p : ℕ) → p ≤ 65535 → atoi (trim_space (itoa p)) ≡ some (pos p)
read_back p h =
    rw (trim_space_none (itoa p) (digits-NoSpace (itoa p) (itoa-IsDigit p)))
      (atoi-itoa p (omega arith))

parse_part-print : (i : Item) → IsItem i → parse_part (print i) ≡ some (ports_of i)
unfolding parse_part print ports_of
parse_part-print (single p) (low, high) =
    let dash =
      has_byte-Lacks b'-' (itoa p) (digits_lack b'-' (itoa p) (omega arith) (itoa-IsDigit p)) in
    let trimmed = trim_space_none (itoa p) (digits-NoSpace (itoa p) (itoa-IsDigit p)) in
    let read = atoi-itoa p (omega arith) in
    let fits : (ltb_ℤ (pos p) (pos 1) || ltb_ℤ max_port (pos p)) ≡ false = ground arith in
    rw (trimmed, dash, read, fits) refl
parse_part-print (range p q) (low, order, high) =
    let trimmed = trim_space_none (print (range p q)) (print-NoSpace (range p q)) in
    let dash = has_byte-append b'-' (itoa p) (itoa q) in
    let halves =
      cut_at-append b'-' (itoa p) (itoa q)
        (digits_lack b'-' (itoa p) (omega arith) (itoa-IsDigit p)) in
    let fits : (ltb_ℤ (pos q) (pos p) || ltb_ℤ (pos p) (pos 1) || ltb_ℤ max_port (pos q)) ≡ false =
      ground arith in
    rw (trimmed, dash, halves, read_back p (omega arith), read_back q high, fits) refl

parse_parts-print :
    (items : List Item) (ports : List ℕ)
    → All IsItem items
    → parse_parts (map print items) ports ≡ some (ports ++ ports_of_all items)
unfolding parse_parts ports_of_all
parse_parts-print [] ports a = ap some (sym (append-nil ports))
parse_parts-print (i ∷ items) ports (a, more) = rw (parse_part-print i a) (
    parse_parts-print items (ports ++ ports_of i) more
    ∙ ap some (append_assoc ports (ports_of i) (ports_of_all items)))

print-cons : (i : Item) → (c : ℕ) × (s : Bytes) × IsDigit c × (print i ≡ c ∷ s)
unfolding print
print-cons (single p) =
    let (c, s, e) = itoa-cons p in (c, s, (subst (λ t. All IsDigit t) e (itoa-IsDigit p)).0, e)
print-cons (range p q) =
    let (c, s, e) = itoa-cons p in
    (
      c,
      s ++ b'-' ∷ itoa q,
      (subst (λ t. All IsDigit t) e (itoa-IsDigit p)).0,
      ap (λ t. t ++ b'-' ∷ itoa q) e,
    )

-- The whole specification.
unfoldable pub print_all : List Item → Bytes
print_all items = join b',' (map print items)

print_all-cons :
    (i : Item) (items : List Item)
    → (c : ℕ) × (s : Bytes) × IsDigit c × (print_all (i ∷ items) ≡ c ∷ s)
unfolding print_all join
print_all-cons i [] = print-cons i
print_all-cons i (j ∷ items) =
    let (c, s, d, e) = print-cons i in
    (c, s ++ b',' ∷ print_all (j ∷ items), d, ap (λ t. t ++ b',' ∷ print_all (j ∷ items)) e)

print_all-NoSpace : (items : List Item) → NoSpace (print_all items)
unfolding print_all join
print_all-NoSpace [] = tt
print_all-NoSpace (i ∷ []) = print-NoSpace i
print_all-NoSpace (i ∷ j ∷ items) =
    All-bytes-append (λ c. is_space c ≡ false) (print i) b',' (print_all (j ∷ items))
      (print-NoSpace i) refl (print_all-NoSpace (j ∷ items))

parts-Lacks : (items : List Item) → All (Lacks b',') (map print items)
parts-Lacks [] = tt
parts-Lacks (i ∷ items) = (print-Lacks i, parts-Lacks items)

not_named :
    (c : ℕ) (s : Bytes)
    → IsDigit c
    → (bytes_eq (c ∷ s) (codes "top100") ≡ false) × (bytes_eq (c ∷ s) (codes "top1000") ≡ false)
unfolding bytes_eq
not_named c s (low, high) = ground arith

-- A list of ports and ranges within 1 and 65535, written with commas and dashes, is read as the ports that it
-- names, in their order and with their repetitions.
pub parse_ports-print :
    (i : Item) (items : List Item)
    → All IsItem (i ∷ items)
    → parse_ports (print_all (i ∷ items)) ≡ some (ports_of_all (i ∷ items))
unfolding parse_ports
parse_ports-print i items a =
    let trimmed = trim_space_none (print_all (i ∷ items)) (print_all-NoSpace (i ∷ items)) in
    let (c, s, d, e) = print_all-cons i items in
    let (small, large) = not_named c s d in
    let parts : split_on b',' (c ∷ s) ≡ map print (i ∷ items) =
      unfold print_all in
      sym (ap (split_on b',') e)
      ∙ split_on-join b',' (map print (i ∷ items)) (cc) (parts-Lacks (i ∷ items)) in
    rw (trimmed, e, small, large, parts) (parse_parts-print (i ∷ items) [] a)
