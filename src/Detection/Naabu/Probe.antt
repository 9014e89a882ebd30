-- ===== src/Detection/Naabu/Probe.antt =====
-- internal/detection/naabu.go: one probe of a port, and what the goroutines of `runScan` collect under their
-- mutex. The network is a parameter: what a dial answers, and what a connection reads.
pub mod Collected
use surfbot_agent.Base.{
  ℕ, ◌+◌, ◌≤◌, Bool, true, false, not, ◌&&◌, ◌||◌, Option, none, some, List, [], ◌∷◌, ◌++◌, String,
  if◌then◌else◌, str_eq,
}
use surfbot_agent.Base.Text.{Bytes, codes, bytes_eq, contains, is_empty}
use surfbot_agent.Detection.Breaker.{Entry}
use surfbot_agent.Detection.Naabu.Banner.{Conn, grab_banner, sanitize_banner}

-- What the source asks of an error: its text, whether it is `os.ErrDeadlineExceeded`, and, if it is a
-- `net.Error`, its `Timeout()`.
pub record DialError : Type 0 where
  pub text : Bytes
  pub deadline_exceeded : Bool
  pub timeout : Option Bool

abbrev pub net_timeout : Option Bool → Bool
net_timeout none = false
net_timeout (some b) = b

unfoldable pub is_timeout : Option DialError → Bool
is_timeout none = false
is_timeout (some e) = if e.deadline_exceeded then true else net_timeout e.timeout

unfoldable pub is_refused : Option DialError → Bool
is_refused none = false
is_refused (some e) =
    contains e.text (codes "connection refused") || contains e.text (codes "refused")

-- The labels.
pub data ErrorClass : Type 0 where
  no_error no_such_host network_unreachable no_route timeout_error refused_error other_error :
      ErrorClass

unfoldable pub classify_err : Option DialError → ErrorClass
classify_err none = no_error
classify_err (some e) =
    if contains e.text (codes "no such host")
    then no_such_host
    else if contains e.text (codes "network is unreachable")
    then network_unreachable
    else if contains e.text (codes "no route to host")
    then no_route
    else if is_timeout (some e)
    then timeout_error
    else if is_refused (some e)
    then refused_error
    else other_error

pub data PortStatus : Type 0 where
  no_status open_port filtered : PortStatus

pub record PortProbeResult : Type 0 where
  pub ip : String
  pub port : ℕ
  pub status : PortStatus
  pub banner_preview : Bytes

abbrev pub no_result : PortProbeResult
no_result = record { ip = ""; port = 0; status = no_status; banner_preview = [] }

-- The four results of `probePort`.
pub record Probed : Type 0 where
  pub result : PortProbeResult
  pub success : Bool
  pub timed_out : Bool
  pub error : Option DialError

abbrev pub failed_probe : Bool → DialError → Probed
failed_probe timed_out e = record {
  result = no_result;
  success = false;
  timed_out = timed_out;
  error = some e;
}

abbrev pub open_probe : PortProbeResult → Probed
open_probe r = record { result = r; success = true; timed_out = false; error = none }

pub data Dialed : Type 0 where
  connected : Conn → Dialed
  dial_failed : DialError → Dialed

-- An open port that says nothing counts as filtered.
abbrev pub with_banner : String → ℕ → Bytes → PortProbeResult
with_banner ip port [] = record { ip = ip; port = port; status = filtered; banner_preview = [] }
with_banner ip port (c ∷ s) = record {
  ip = ip;
  port = port;
  status = open_port;
  banner_preview = sanitize_banner (c ∷ s);
}

abbrev pub probe_dialed : String → ℕ → Bool → Dialed → Probed
probe_dialed ip port no_banner (dial_failed e) = failed_probe (is_timeout (some e)) e
probe_dialed ip port no_banner (connected conn) =
    if no_banner
    then open_probe (record { ip = ip; port = port; status = open_port; banner_preview = [] })
    else open_probe (with_banner ip port (grab_banner conn port))

-- The first argument is the error of the context, if it is done.
unfoldable pub probe_port : Option DialError → String → ℕ → Bool → Dialed → Probed
probe_port (some e) ip port no_banner dialed = failed_probe false e
probe_port none ip port no_banner dialed = probe_dialed ip port no_banner dialed

-- What the network and the context do for one port: at the first attempt, in the wait before the second, and at
-- the second.
pub record Attempts : Type 0 where
  pub first_ctx : Option DialError
  pub first : Dialed
  pub wait_ctx : Option DialError
  pub second_ctx : Option DialError
  pub second : Dialed

unfoldable pub retry_probe :
    Option DialError → Option DialError → String → ℕ → Bool → Dialed → Probed
retry_probe (some e) ctx ip port no_banner dialed = failed_probe false e
retry_probe none ctx ip port no_banner dialed = probe_port ctx ip port no_banner dialed

-- A goroutine once it is admitted: a timeout is tried once more.
unfoldable pub probe_twice : String → ℕ → Bool → Attempts → Probed
probe_twice ip port no_banner a =
    let first = probe_port a.first_ctx ip port no_banner a.first in
    if not first.success && first.timed_out
    then retry_probe a.wait_ctx a.second_ctx ip port no_banner a.second
    else first

-- What it tells the breaker.
abbrev pub breaker_entry : Probed → Entry
breaker_entry p = record { success = p.success; timed_out = p.timed_out }

pub record DialErrorClass : Type 0 where
  pub ip : String
  pub port : ℕ
  pub class : ErrorClass

-- What the goroutines share under the mutex; the keys of the set `errSeen` are kept as pairs.
pub record Collection : Type 0 where
  pub results : List PortProbeResult
  pub dial_errs : List DialErrorClass
  pub err_seen : List (String × ErrorClass)
  pub failures : ℕ

abbrev pub nothing : Collection
nothing = record { results = []; dial_errs = []; err_seen = []; failures = 0 }

abbrev pub class_eq : ErrorClass → ErrorClass → Bool
class_eq no_error no_error = true
class_eq no_such_host no_such_host = true
class_eq network_unreachable network_unreachable = true
class_eq no_route no_route = true
class_eq timeout_error timeout_error = true
class_eq refused_error refused_error = true
class_eq other_error other_error = true
class_eq _ _ = false

unfoldable pub seen : List (String × ErrorClass) → String → ErrorClass → Bool
seen [] ip c = false
seen ((ip', c') ∷ keys) ip c = (str_eq ip' ip && class_eq c' c) || seen keys ip c

unfoldable pub record_dial_err : String → ℕ → Option DialError → Collection → Collection
record_dial_err ip port err s =
    let class = classify_err err in
    if seen s.err_seen ip class then s else record s {
      err_seen = (ip, class) ∷ s.err_seen;
      dial_errs = s.dial_errs ++ record { ip = ip; port = port; class = class } ∷ [];
    }

abbrev pub has_error : Option DialError → Bool
has_error none = false
has_error (some e) = true

-- The end of a goroutine.
unfoldable pub collect : String → ℕ → Probed → Collection → Collection
collect ip port p s =
    if p.success
    then record s { results = s.results ++ p.result ∷ [] }
    else if p.timed_out
    then record s { failures = s.failures + 1 }
    else if is_refused p.error
    then s
    else if has_error p.error
    then record_dial_err ip port p.error s
    else s

-- The goroutines in the order in which they get there.
unfoldable pub collect_all : List (String × ℕ × Probed) → Collection → Collection
collect_all [] s = s
collect_all ((ip, port, p) ∷ probes) s = collect_all probes (collect ip port p s)
