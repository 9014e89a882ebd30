-- ===== src/Detection/Naabu/Probe/Collected.antt =====
-- internal/detection/naabu.go, runScan: what has been collected when all goroutines are done.
use surfbot_agent.Base.{
  ℕ, ◌+◌, ◌≡◌, refl, sym, ◌∙◌, ap, Bool, true, false, not, ◌&&◌, ◌||◌, Option, List, [], ◌∷◌, ◌++◌,
  String, if◌then◌else◌, str_eq, str_eq_iff, arith, count_if, count_if-append, Bool-cases, inl, inr,
}
use mathlib.Core.List.{append_assoc, append-nil}
use surfbot_agent.Detection.Naabu.Probe.{
  DialError, ErrorClass, classify_err, is_refused, PortProbeResult, Probed, DialErrorClass,
  Collection, nothing, no_error, no_such_host, network_unreachable, no_route, timeout_error,
  refused_error, other_error, class_eq, seen, record_dial_err, has_error, collect, collect_all,
}

-- A finished goroutine: its address, its port and what it found.
abbrev pub Probe : Type 0
Probe = String × ℕ × Probed

-- The probes that found a port, in their order, and how many timed out.
unfoldable pub results_of : List Probe → List PortProbeResult
results_of [] = []
results_of ((ip, port, p) ∷ probes) =
    let rest = results_of probes in if p.success then p.result ∷ rest else rest

abbrev pub timed_out_probe : Probe → Bool
timed_out_probe (ip, port, p) = not p.success && p.timed_out

-- The probe ended in an error worth a line, of this class and for this address.
abbrev pub reports : String → ErrorClass → Probe → Bool
reports ip c (ip', port, p) =
    not p.success
    && not p.timed_out
    && not (is_refused p.error)
    && has_error p.error
    && (str_eq ip' ip && class_eq (classify_err p.error) c)

unfoldable pub reported_in : List Probe → String → ErrorClass → Bool
reported_in [] ip c = false
reported_in (p ∷ probes) ip c = reports ip c p || reported_in probes ip c

abbrev pub line_for : String → ErrorClass → DialErrorClass → Bool
line_for ip c d = str_eq d.ip ip && class_eq d.class c

abbrev pub one_if : Bool → ℕ
one_if b = if b then 1 else 0

class_eq→eq : (c d : ErrorClass) → class_eq c d ≡ true → c ≡ d
class_eq→eq no_error no_error h = refl
class_eq→eq no_such_host no_such_host h = refl
class_eq→eq network_unreachable network_unreachable h = refl
class_eq→eq no_route no_route h = refl
class_eq→eq timeout_error timeout_error h = refl
class_eq→eq refused_error refused_error h = refl
class_eq→eq other_error other_error h = refl
class_eq→eq _ _ h = cc

same_key :
    (keys : List (String × ErrorClass)) (ip ip' : String) (c c' : ErrorClass)
    → (str_eq ip ip' && class_eq c c') ≡ true
    → seen keys ip c ≡ seen keys ip' c'
same_key keys ip ip' c c' h =
    let address : str_eq ip ip' ≡ true = ground arith in
    let class : class_eq c c' ≡ true = ground arith in
    ap (λ i. seen keys i c) ((str_eq_iff ip ip').0 address)
    ∙ ap (λ d. seen keys ip' d) (class_eq→eq c c' class)

-- The set of keys and the list of lines go together.
Matched : Collection → String → ErrorClass → Type 0
Matched s ip c = count_if (line_for ip c) s.dial_errs ≡ one_if (seen s.err_seen ip c)

record_dial_err-Matched :
    (ip : String) (port : ℕ) (e : Option DialError) (s : Collection) (ip' : String)
    (c' : ErrorClass)
    → Matched s ip' c'
    → Matched (record_dial_err ip port e s) ip' c'
      × (seen (record_dial_err ip port e s).err_seen ip' c'
          ≡ ((str_eq ip ip' && class_eq (classify_err e) c') || seen s.err_seen ip' c'))
unfolding record_dial_err seen Matched
record_dial_err-Matched ip port e s ip' c' h =
    let class = classify_err e in
    let line : DialErrorClass = record { ip = ip; port = port; class = class } in
    let key = str_eq ip ip' && class_eq class c' in
    let together = count_if-append (line_for ip' c') s.dial_errs (line ∷ []) in
    elim (Bool-cases (seen s.err_seen ip class)) [
      | inl known ↦ rw known (
        h,
        elim (Bool-cases key) [
          | inl same ↦ rw same (sym (same_key s.err_seen ip ip' class c' same) ∙ known)
          | inr apart ↦ rw apart refl
        ],
      )
      | inr new ↦ rw new (
        together ∙ (elim (Bool-cases key) [
          | inl same ↦
              let none_yet = sym (same_key s.err_seen ip ip' class c' same) ∙ new in
              let empty : count_if (line_for ip' c') s.dial_errs ≡ 0 = rw none_yet at h in
              rw (same, empty) (omega arith)
          | inr apart ↦ rw (apart, h) (omega arith)
        ]),
        refl,
      )
    ]

collect-Matched :
    (ip : String) (port : ℕ) (p : Probed) (s : Collection) (ip' : String) (c : ErrorClass)
    → Matched s ip' c
    → Matched (collect ip port p s) ip' c
      × (seen (collect ip port p s).err_seen ip' c
          ≡ (reports ip' c (ip, port, p) || seen s.err_seen ip' c))
unfolding collect Matched
collect-Matched ip port p s ip' c h = elim (Bool-cases p.success) [
  | inl found ↦ rw found (h, refl)
  | inr missed ↦ elim (Bool-cases p.timed_out) [
    | inl late ↦ rw (missed, late) (h, refl)
    | inr early ↦ elim (Bool-cases (is_refused p.error)) [
      | inl closed ↦ rw (missed, early, closed) (h, refl)
      | inr odd ↦ elim (Bool-cases (has_error p.error)) [
        | inl some_error ↦
            rw (missed, early, odd, some_error) (record_dial_err-Matched ip port p.error s ip' c h)
        | inr quiet ↦ rw (missed, early, odd, quiet) (h, refl)
      ]
    ]
  ]
]

or_swap : (a b c : Bool) → (a || (b || c)) ≡ ((b || a) || c)
or_swap a b c = ground arith

collect_all-Matched :
    (probes : List Probe) (s : Collection) (ip : String) (c : ErrorClass)
    → Matched s ip c
    → count_if (line_for ip c) (collect_all probes s).dial_errs
      ≡ one_if (reported_in probes ip c || seen s.err_seen ip c)
unfolding collect_all reported_in Matched
collect_all-Matched [] s ip c h = h
collect_all-Matched ((ip', port, p) ∷ probes) s ip c h =
    let (next, keys) = collect-Matched ip' port p s ip c h in
    collect_all-Matched probes (collect ip' port p s) ip c next
    ∙ ap one_if (
        rw keys
          (or_swap (reported_in probes ip c) (reports ip c (ip', port, p)) (seen s.err_seen ip c)))

collect_results :
    (ip : String) (port : ℕ) (p : Probed) (s : Collection)
    → ((collect ip port p s).results ≡ s.results ++ results_of ((ip, port, p) ∷ []))
      × ((collect ip port p s).failures ≡ s.failures + one_if (timed_out_probe (ip, port, p)))
unfolding collect results_of record_dial_err
collect_results ip port p s = ground (arith, append-nil s.results)

collect_all_results :
    (probes : List Probe) (s : Collection)
    → ((collect_all probes s).results ≡ s.results ++ results_of probes)
      × ((collect_all probes s).failures ≡ s.failures + count_if timed_out_probe probes)
unfolding collect_all results_of
collect_all_results [] s = (sym (append-nil s.results), omega arith)
collect_all_results ((ip, port, p) ∷ probes) s =
    let (r, f) = collect_results ip port p s in
    let (rs, fs) = collect_all_results probes (collect ip port p s) in
    let joined : results_of ((ip, port, p) ∷ []) ++ results_of probes
        ≡ results_of ((ip, port, p) ∷ probes) =
      elim (Bool-cases p.success) [ inl found ↦ rw found refl | inr missed ↦ rw missed refl ] in
    (
      rs
          ∙ ap (λ l. l ++ results_of probes) r
          ∙ append_assoc s.results (results_of ((ip, port, p) ∷ [])) (results_of probes)
          ∙ ap (λ l. s.results ++ l) joined,
      omega (arith, f, fs),
    )

-- In whatever order the goroutines end, the results are those of the probes that found a port, and the failures
-- are counted once for each probe that timed out. The log has one line for each address and class of error
-- that some failed probe met which neither timed out nor was refused, however many ports of that address met it.
-- It has no other line.
pub collect_all_lem :
    (probes : List Probe)
    → ((collect_all probes nothing).results ≡ results_of probes)
      × ((collect_all probes nothing).failures ≡ count_if timed_out_probe probes)
      × ((ip : String) (c : ErrorClass)
          → count_if (line_for ip c) (collect_all probes nothing).dial_errs
            ≡ one_if (reported_in probes ip c))
unfolding seen
collect_all_lem probes =
    let (results, failures) = collect_all_results probes nothing in
    (
      results,
      omega (arith, failures),
      λ ip c.
          collect_all-Matched probes nothing ip c (unfold Matched in refl)
          ∙ ap one_if (or_false (reported_in probes ip c)),
    )
  where
    or_false : (b : Bool) → (b || false) ≡ b
    or_false b = ground arith
