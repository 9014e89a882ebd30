-- ===== src/Detection/Naabu.antt =====
-- internal/detection/naabu.go: the parameters of the port scanner, its list of ports, and the banners.
pub mod Ports
pub mod Banner
pub mod Probe
pub mod Admission
use surfbot_agent.Base.{
  ℕ, zero, suc, ◌+◌, ◌-◌, Bool, true, false, ◌&&◌, ◌||◌, Option, none, some, List, [], ◌∷◌, ◌++◌,
  String, map, if◌then◌else◌, ltb, leb, ◌==◌, take, string_eq,
}
use surfbot_agent.Base.Int.{ℤ, pos, ltb_ℤ, pos_part}
use surfbot_agent.Base.Assoc.{Assoc, lookup}
use surfbot_agent.Base.Text.{
  Bytes, codes, bytes_eq, is_empty, trim_space, split_on, cut_at, has_byte, atoi,
}

abbrev pub top100_ports : List ℕ
top100_ports =
    21 ∷ 22 ∷ 23 ∷ 25 ∷ 53 ∷ 80 ∷ 81 ∷ 110 ∷ 111 ∷ 113 ∷ 135 ∷ 139 ∷ 143 ∷ 179 ∷ 199 ∷ 443 ∷ 445
    ∷ 465 ∷ 514 ∷ 515 ∷ 548 ∷ 554 ∷ 587 ∷ 646 ∷ 993 ∷ 995 ∷ 1025 ∷ 1026 ∷ 1027 ∷ 1433 ∷ 1720 ∷ 1723
    ∷ 2000 ∷ 2001 ∷ 3000 ∷ 3001 ∷ 3128 ∷ 3306 ∷ 3389 ∷ 4443 ∷ 4567 ∷ 5000 ∷ 5060 ∷ 5222 ∷ 5432
    ∷ 5555 ∷ 5601 ∷ 5900 ∷ 5984 ∷ 5985 ∷ 6000 ∷ 6001 ∷ 6379 ∷ 6443 ∷ 7001 ∷ 7002 ∷ 7443 ∷ 8000
    ∷ 8008 ∷ 8009 ∷ 8010 ∷ 8020 ∷ 8080 ∷ 8081 ∷ 8082 ∷ 8083 ∷ 8084 ∷ 8085 ∷ 8086 ∷ 8087 ∷ 8088
    ∷ 8089 ∷ 8090 ∷ 8091 ∷ 8181 ∷ 8443 ∷ 8880 ∷ 8888 ∷ 9000 ∷ 9001 ∷ 9090 ∷ 9091 ∷ 9200 ∷ 9300
    ∷ 9443 ∷ 9999 ∷ 10000 ∷ 10443 ∷ 27017 ∷ 27018 ∷ 28017 ∷ 50000 ∷ 50070 ∷ []

-- `for p := start; p <= end; p++`, with the number of rounds.
unfoldable pub ports_from : ℕ → ℕ → List ℕ
ports_from p zero = []
ports_from p (suc rounds) = p ∷ ports_from (p + 1) rounds

abbrev pub max_port : ℤ
max_port = pos 65535

abbrev pub port_range : Option ℤ → Option ℤ → Option (List ℕ)
port_range none end = none
port_range (some start) none = none
port_range (some start) (some end) =
    if ltb_ℤ end start || ltb_ℤ start (pos 1) || ltb_ℤ max_port end
    then none
    else some (ports_from (pos_part start) (pos_part end + 1 - pos_part start))

abbrev pub one_port : Option ℤ → Option (List ℕ)
one_port none = none
one_port (some p) = if ltb_ℤ p (pos 1) || ltb_ℤ max_port p then none else some (pos_part p ∷ [])

-- A part of the list, `none` for an error.
unfoldable pub parse_part : Bytes → Option (List ℕ)
parse_part text =
    let part = trim_space text in
    let (start, end, found) = cut_at b'-' part in
    if has_byte b'-' part
    then port_range (atoi (trim_space start)) (atoi (trim_space end))
    else one_port (atoi part)

abbrev pub appended : Option (List ℕ) → (List ℕ → Option (List ℕ)) → Option (List ℕ)
appended none next = none
appended (some more) next = next more

unfoldable pub parse_parts : List Bytes → List ℕ → Option (List ℕ)
parse_parts [] ports = some ports
parse_parts (part ∷ parts) ports =
    appended (parse_part part) λ more. parse_parts parts (ports ++ more)

unfoldable pub parse_ports : Bytes → Option (List ℕ)
parse_ports text =
    let spec = trim_space text in
    if is_empty spec || bytes_eq spec (codes "top100")
    then some top100_ports
    else if bytes_eq spec (codes "top1000")
    then some top100_ports
    else parse_parts (split_on b',' spec) []

pub record NaabuParams : Type 0 where
  pub ports : Bytes
  pub rate : ℤ
  pub retries : ℤ
  pub scan_type : Bytes
  pub banner_grab : Bool

abbrev pub default_naabu_params : NaabuParams
default_naabu_params = record {
  ports = codes "top100";
  rate = pos 20;
  retries = pos 1;
  scan_type = codes "connect";
  banner_grab = true;
}

-- The options that the port scanner reads.
pub record RunOptions : Type 0 where
  pub rate_limit : ℤ
  pub extra_args : Assoc String Bytes
  pub naabu_params : Option NaabuParams

abbrev pub legacy_ports : Option Bytes → Bytes → Bytes
legacy_ports none fallback = fallback
legacy_ports (some v) fallback = if is_empty v then fallback else v

abbrev pub legacy_banner : Option Bytes → Bool → Bool
legacy_banner none fallback = fallback
legacy_banner (some v) fallback =
    if bytes_eq v (codes "true") || bytes_eq v (codes "1") then false else fallback

abbrev pub legacy_params : RunOptions → NaabuParams → NaabuParams
legacy_params opts defaults = record defaults {
  ports = legacy_ports (lookup "ports" opts.extra_args) defaults.ports;
  rate = if ltb_ℤ (pos 0) opts.rate_limit then opts.rate_limit else defaults.rate;
  banner_grab = legacy_banner (lookup "no-banner" opts.extra_args) defaults.banner_grab;
}

abbrev pub filled_params : NaabuParams → NaabuParams → NaabuParams
filled_params given defaults = record given {
  ports = if is_empty given.ports then defaults.ports else given.ports;
  rate = if ltb_ℤ (pos 0) given.rate then given.rate else defaults.rate;
  retries = if ltb_ℤ (pos 0) given.retries then given.retries else defaults.retries;
  scan_type = if is_empty given.scan_type then defaults.scan_type else given.scan_type;
}

abbrev pub params_from : Option NaabuParams → RunOptions → NaabuParams
params_from none opts = legacy_params opts default_naabu_params
params_from (some given) opts = filled_params given default_naabu_params

unfoldable pub resolve_naabu_params : RunOptions → NaabuParams
unfolding lookup
resolve_naabu_params opts = params_from opts.naabu_params opts
