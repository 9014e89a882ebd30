-- ===== src/Webui/Security.antt =====
-- internal/webui/security.go, and the chain of internal/webui/server.go: which requests reach the routes. A header
-- that is not sent is empty. The constant-time comparison is an equality test.
pub mod Gate
use surfbot_agent.Base.{
  ℕ, Bool, true, false, not, ◌&&◌, ◌||◌, List, [], ◌∷◌, ◌++◌, String, if◌then◌else◌,
}
use surfbot_agent.Base.Text.{Bytes, codes, bytes_eq, is_empty, has_prefix, itoa}

pub record Request : Type 0 where
  pub method : Bytes
  pub host : Bytes
  pub path : Bytes
  pub origin : Bytes
  pub referer : Bytes
  pub authorization : Bytes

-- The outcome, with the headers that the response gets on the way.
pub data Outcome : Type 0 where
  reached : Outcome
  rejected : ℕ → Outcome

pub record Reply : Type 0 where
  pub headers : List (String × String)
  pub outcome : Outcome

abbrev pub Handler : Type 0
Handler = Request → Reply

abbrev pub reply : Outcome → Reply
reply o = record { headers = []; outcome = o }

-- The routes.
abbrev pub mux : Handler
mux r = reply reached

unfoldable pub allowed_hosts : ℕ → List Bytes
unfolding itoa
allowed_hosts port = (codes "127.0.0.1:" ++ itoa port) ∷ (codes "localhost:" ++ itoa port) ∷ []

unfoldable pub allowed_origins : ℕ → List Bytes
unfolding itoa
allowed_origins port =
    (codes "http://127.0.0.1:" ++ itoa port) ∷ (codes "http://localhost:" ++ itoa port) ∷ []

-- The value of `Content-Security-Policy` is left out.
unfoldable pub security_headers : Handler → Handler
security_headers next r =
    let inner = next r in
    let common =
      ("X-Content-Type-Options", "nosniff")
      ∷ ("X-Frame-Options", "DENY")
      ∷ ("Referrer-Policy", "no-referrer")
      ∷ inner.headers in
    if has_prefix r.path (codes "/api/")
    then record inner { headers = ("Cache-Control", "no-store") ∷ common }
    else record inner { headers = common }

unfoldable pub origin_allowed : Bytes → List Bytes → Bool
origin_allowed origin [] = false
origin_allowed origin (a ∷ allowed) = bytes_eq origin a || origin_allowed origin allowed

unfoldable pub referer_allowed : Bytes → List Bytes → Bool
referer_allowed referer [] = false
referer_allowed referer (a ∷ allowed) =
    (bytes_eq referer a || has_prefix referer (a ++ b'/' ∷ [])) || referer_allowed referer allowed

-- The set of the allowed hosts is read by a membership test.
unfoldable pub validate_host : List Bytes → Handler → Handler
unfolding origin_allowed
validate_host allowed next r =
    if origin_allowed r.host allowed then next r else reply (rejected 421)

abbrev pub is_safe : Bytes → Bool
is_safe method =
    bytes_eq method (codes "GET")
    || (bytes_eq method (codes "HEAD") || bytes_eq method (codes "OPTIONS"))

unfoldable pub validate_origin : List Bytes → Handler → Handler
unfolding origin_allowed referer_allowed
validate_origin allowed next r =
    if is_safe r.method
    then next r
    else if not (is_empty r.origin)
    then (if origin_allowed r.origin allowed then next r else reply (rejected 403))
    else if not (is_empty r.referer)
    then (if referer_allowed r.referer allowed then next r else reply (rejected 403))
    else reply (rejected 403)

unfoldable pub require_token : Bytes → Handler → Handler
require_token token next r =
    if not (has_prefix r.path (codes "/api/"))
    then next r
    else if is_empty r.authorization || not (bytes_eq r.authorization (codes "Bearer " ++ token))
    then reply (rejected 401)
    else next r

-- `NewServer`: the chain around the routes, without the log.
unfoldable pub server_handler : Bytes → ℕ → Handler
server_handler token port =
    let inner : Handler = if not (is_empty token) then require_token token mux else mux in
    security_headers
      (validate_host (allowed_hosts port) (validate_origin (allowed_origins port) inner))
