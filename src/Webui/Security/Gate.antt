-- ===== src/Webui/Security/Gate.antt =====
-- internal/webui/security.go: who gets through the chain.
use surfbot_agent.Base.{
  ℕ, ◌≡◌, ◌≢◌, refl, sym, ◌∙◌, ap, ◌⊎◌, inl, inr, ◌↔◌, true, false, not, ◌||◌, List, [], ◌∷◌, ◌++◌,
  if◌then◌else◌, Bool-cases, In, arith,
}
use mathlib.Core.List.{append_assoc}
use surfbot_agent.Base.Text.{Bytes, codes, bytes_eq, bytes_eq_iff, is_empty, has_prefix}
use surfbot_agent.Webui.Security.{
  Request, reached, rejected, Handler, mux, allowed_hosts, allowed_origins, security_headers,
  origin_allowed, referer_allowed, validate_host, is_safe, validate_origin, require_token,
  server_handler,
}

-- A request that is allowed in: it names a loopback host; it only reads, or says that it comes from a page of
-- this interface; and under /api/ it carries the token, if one is set.
pub record Permitted (token : Bytes) (port : ℕ) (r : Request) : Type 0 where
  pub to_loopback : In r.host (allowed_hosts port)
  pub from_here :
      (is_safe r.method ≡ true)
      ⊎ (In r.origin (allowed_origins port)
          ⊎ ((r.origin ≡ [])
              × ((a : Bytes) × In a (allowed_origins port)
                  × ((r.referer ≡ a) ⊎ ((rest : Bytes) × (r.referer ≡ a ++ b'/' ∷ rest))))))
  pub with_token :
      (token ≡ [])
      ⊎ ((has_prefix r.path (codes "/api/") ≡ false) ⊎ (r.authorization ≡ codes "Bearer " ++ token))

origin_allowed-In :
    (o : Bytes) (allowed : List Bytes) → origin_allowed o allowed ≡ true → In o allowed
unfolding origin_allowed
origin_allowed-In o [] h = cc
origin_allowed-In o (a ∷ allowed) h = elim (Bool-cases (bytes_eq o a)) [
  | inl same ↦ inl (sym ((bytes_eq_iff o a).0 same))
  | inr other ↦ inr (origin_allowed-In o allowed (rw other at h))
]

In-origin_allowed :
    (o : Bytes) (allowed : List Bytes) → In o allowed → origin_allowed o allowed ≡ true
unfolding origin_allowed
In-origin_allowed o [] h = absurd h
In-origin_allowed o (a ∷ allowed) (inl e) = rw ((bytes_eq_iff o a).1 (sym e)) refl
In-origin_allowed o (a ∷ allowed) (inr m) = ground (arith, In-origin_allowed o allowed m)

prefix_rest : (s t : Bytes) → has_prefix s t ≡ true → (rest : Bytes) × (s ≡ t ++ rest)
unfolding has_prefix
prefix_rest s [] h = (s, refl)
prefix_rest [] (d ∷ t) h = absurd (let e : false ≡ true = h in cc)
prefix_rest (c ∷ s) (d ∷ t) h =
    let (rest, e) = prefix_rest s t (ground arith) in
    let same : c ≡ d = ground arith in (rest, rw (same, e) refl)

rest-has_prefix : (t rest : Bytes) → has_prefix (t ++ rest) t ≡ true
unfolding has_prefix
rest-has_prefix [] [] = refl
rest-has_prefix [] (c ∷ rest) = refl
rest-has_prefix (d ∷ t) rest = ground (arith, rest-has_prefix t rest)

-- Referers that the test lets pass.
abbrev pub From : Bytes → List Bytes → Type 0
From referer allowed =
    (a : Bytes) × In a allowed × ((referer ≡ a) ⊎ ((rest : Bytes) × (referer ≡ a ++ b'/' ∷ rest)))

referer_allowed-From :
    (referer : Bytes) (allowed : List Bytes)
    → referer_allowed referer allowed ≡ true
    → From referer allowed
unfolding referer_allowed
referer_allowed-From referer [] h = cc
referer_allowed-From referer (a ∷ allowed) h = elim (Bool-cases (bytes_eq referer a)) [
  | inl same ↦ (a, inl refl, inl ((bytes_eq_iff referer a).0 same))
  | inr other ↦ elim (Bool-cases (has_prefix referer (a ++ b'/' ∷ []))) [
    | inl behind ↦
        let (rest, e) = prefix_rest referer (a ++ b'/' ∷ []) behind in
        (a, inl refl, inr (rest, e ∙ append_assoc a (b'/' ∷ []) rest))
    | inr apart ↦
        let (b, m, f) = referer_allowed-From referer allowed (rw (other, apart) at h) in
        (b, inr m, f)
  ]
]

From-referer_allowed :
    (referer : Bytes) (allowed : List Bytes)
    → From referer allowed
    → referer_allowed referer allowed ≡ true
unfolding referer_allowed
From-referer_allowed referer [] (a, m, f) = absurd m
From-referer_allowed referer (b ∷ allowed) (a, inl e, inl f) =
    rw ((bytes_eq_iff referer b).1 (f ∙ sym e)) refl
From-referer_allowed referer (b ∷ allowed) (a, inl e, inr (rest, f)) =
    let behind : referer ≡ (b ++ b'/' ∷ []) ++ rest =
      f ∙ ap (λ t. t ++ b'/' ∷ rest) (sym e) ∙ sym (append_assoc b (b'/' ∷ []) rest) in
    let found : has_prefix referer (b ++ b'/' ∷ []) ≡ true =
      ap (λ t. has_prefix t (b ++ b'/' ∷ [])) behind ∙ rest-has_prefix (b ++ b'/' ∷ []) rest in
    ground (arith, found)
From-referer_allowed referer (b ∷ allowed) (a, inr m, f) =
    ground (arith, From-referer_allowed referer allowed (a, m, f))

security_headers-outcome :
    (next : Handler) (r : Request) → (security_headers next r).outcome ≡ (next r).outcome
unfolding security_headers
security_headers-outcome next r = elim (Bool-cases (has_prefix r.path (codes "/api/"))) [
  | inl api ↦ rw api refl
  | inr shell ↦ rw shell refl
]

origin_not_empty : (port : ℕ) (a : Bytes) → In a (allowed_origins port) → is_empty a ≡ false
unfolding allowed_origins
origin_not_empty port a (inl e) = ap is_empty (sym e)
origin_not_empty port a (inr m) = elim m [ inl e ↦ ap is_empty (sym e) | inr n ↦ absurd n ]

empty_eq : (s : Bytes) → is_empty s ≡ true → s ≡ []
empty_eq [] h = refl
empty_eq (c ∷ s) h = absurd (let e : false ≡ true = h in cc)

referer_not_empty :
    (port : ℕ) (referer : Bytes) → From referer (allowed_origins port) → is_empty referer ≡ false
referer_not_empty port referer (a, m, inl e) = ap is_empty e ∙ origin_not_empty port a m
referer_not_empty port referer (a, m, inr (rest, e)) =
    ap is_empty e ∙ behind a (origin_not_empty port a m)
  where
    behind : (a : Bytes) → is_empty a ≡ false → is_empty (a ++ b'/' ∷ rest) ≡ false
    behind [] h = refl
    behind (c ∷ a) h = refl

-- Through `validateOrigin`.
abbrev FromHere : ℕ → Request → Type 0
FromHere port r =
    (is_safe r.method ≡ true)
    ⊎ (In r.origin (allowed_origins port)
        ⊎ ((r.origin ≡ []) × From r.referer (allowed_origins port)))

refused_code : (n : ℕ) → rejected n ≢ reached
refused_code n e = cc

validate_origin_lem :
    (port : ℕ) (next : Handler) (r : Request)
    → ((validate_origin (allowed_origins port) next r).outcome ≡ reached)
      ↔ (FromHere port r × ((next r).outcome ≡ reached))
unfolding validate_origin
validate_origin_lem port next r = (through, back)
  where
    through :
        (validate_origin (allowed_origins port) next r).outcome ≡ reached
        → FromHere port r × ((next r).outcome ≡ reached)
    through h = elim (Bool-cases (is_safe r.method)) [
      | inl safe ↦ (inl safe, rw safe at h)
      | inr writes ↦ elim (Bool-cases (is_empty r.origin)) [
        | inr sent ↦ elim (Bool-cases (origin_allowed r.origin (allowed_origins port))) [
          | inl good ↦ (
            inr (inl (origin_allowed-In r.origin (allowed_origins port) good)),
            rw (writes, sent, good) at h,
          )
          | inr bad ↦ absurd (refused_code 403 (rw (writes, sent, bad) at h))
        ]
        | inl unsent ↦ elim (Bool-cases (is_empty r.referer)) [
          | inl none_given ↦ absurd (refused_code 403 (rw (writes, unsent, none_given) at h))
          | inr given ↦ elim (Bool-cases (referer_allowed r.referer (allowed_origins port))) [
            | inl good ↦ (
              inr (
                  inr (
                    empty_eq r.origin unsent,
                    referer_allowed-From r.referer (allowed_origins port) good,
                  )),
              rw (writes, unsent, given, good) at h,
            )
            | inr bad ↦ absurd (refused_code 403 (rw (writes, unsent, given, bad) at h))
          ]
        ]
      ]
    ]

    by_origin :
        In r.origin (allowed_origins port)
        → (next r).outcome ≡ reached
        → (validate_origin (allowed_origins port) next r).outcome ≡ reached
    by_origin m h =
        let sent = origin_not_empty port r.origin m in
        let good = In-origin_allowed r.origin (allowed_origins port) m in
        elim (Bool-cases (is_safe r.method)) [
          | inl safe ↦ rw safe h
          | inr writes ↦ rw (writes, sent, good) h
        ]

    by_referer :
        r.origin ≡ []
        → From r.referer (allowed_origins port)
        → (next r).outcome ≡ reached
        → (validate_origin (allowed_origins port) next r).outcome ≡ reached
    by_referer e f h =
        let unsent : is_empty r.origin ≡ true = ap is_empty e in
        let given = referer_not_empty port r.referer f in
        let good = From-referer_allowed r.referer (allowed_origins port) f in
        elim (Bool-cases (is_safe r.method)) [
          | inl safe ↦ rw safe h
          | inr writes ↦ rw (writes, unsent, given, good) h
        ]

    back :
        FromHere port r × ((next r).outcome ≡ reached)
        → (validate_origin (allowed_origins port) next r).outcome ≡ reached
    back (inl safe, h) = rw safe h
    back (inr (inl m), h) = by_origin m h
    back (inr (inr (e, f)), h) = by_referer e f h

abbrev WithToken : Bytes → Request → Type 0
WithToken token r =
    (token ≡ [])
    ⊎ ((has_prefix r.path (codes "/api/") ≡ false) ⊎ (r.authorization ≡ codes "Bearer " ++ token))

abbrev inner : Bytes → Handler
inner token = if not (is_empty token) then require_token token mux else mux

require_token_lem :
    (token : Bytes) (r : Request) → ((inner token r).outcome ≡ reached) ↔ WithToken token r
unfolding require_token
require_token_lem token r = (through, back)
  where
    through : (inner token r).outcome ≡ reached → WithToken token r
    through h = elim (Bool-cases (is_empty token)) [
      | inl unset ↦ inl (empty_eq token unset)
      | inr set_ ↦ elim (Bool-cases (has_prefix r.path (codes "/api/"))) [
        | inr shell ↦ inr (inl shell)
        | inl api ↦
            elim (Bool-cases (
              is_empty r.authorization
              || not (bytes_eq r.authorization (codes "Bearer " ++ token)))) [
                | inl bad ↦ absurd (refused_code 401 (rw (set_, api, bad) at h))
                | inr good ↦ inr (
                    inr
                      ((bytes_eq_iff r.authorization (codes "Bearer " ++ token)).0 (ground arith)))
              ]
      ]
    ]

    back : WithToken token r → (inner token r).outcome ≡ reached
    back (inl e) = rw e refl
    back (inr (inl shell)) = elim (Bool-cases (is_empty token)) [
      | inl unset ↦ rw unset refl
      | inr set_ ↦ rw (set_, shell) refl
    ]
    back (inr (inr e)) =
        let same = (bytes_eq_iff r.authorization (codes "Bearer " ++ token)).1 e in
        let sent : is_empty r.authorization ≡ false = ap is_empty e in
        elim (Bool-cases (is_empty token)) [
          | inl unset ↦ rw unset refl
          | inr set_ ↦ elim (Bool-cases (has_prefix r.path (codes "/api/"))) [
            | inl api ↦ rw (set_, api, sent, same) refl
            | inr shell ↦ rw (set_, shell) refl
          ]
        ]

-- A request reaches the routes exactly if it is permitted: it names a loopback host with the port; it only reads,
-- or its Origin is the interface's, or it has no Origin and its Referer is the interface's or one of its pages;
-- and under /api/ it carries the token, if one is set.
pub server_handler-Permitted :
    (token : Bytes) (port : ℕ) (r : Request)
    → ((server_handler token port r).outcome ≡ reached) ↔ Permitted token port r
unfolding server_handler validate_host
server_handler-Permitted token port r = (through, back)
  where
    through : (server_handler token port r).outcome ≡ reached → Permitted token port r
    through h =
        let h' =
          sym (
            security_headers-outcome
              (validate_host (allowed_hosts port)
                (validate_origin (allowed_origins port) (inner token)))
              r)
          ∙ h in
        elim (Bool-cases (origin_allowed r.host (allowed_hosts port))) [
          | inl local ↦
              let (here, rest) = (validate_origin_lem port (inner token) r).0 (rw local at h') in
              record {
                to_loopback = origin_allowed-In r.host (allowed_hosts port) local;
                from_here = here;
                with_token = (require_token_lem token r).0 rest;
              }
          | inr foreign ↦ absurd (refused_code 421 (rw foreign at h'))
        ]

    back : Permitted token port r → (server_handler token port r).outcome ≡ reached
    back p =
        let local = In-origin_allowed r.host (allowed_hosts port) p.to_loopback in
        let rest =
          (validate_origin_lem port (inner token) r).1
            (p.from_here, (require_token_lem token r).1 p.with_token) in
        security_headers-outcome
          (validate_host (allowed_hosts port)
            (validate_origin (allowed_origins port) (inner token)))
          r
        ∙ rw local rest
