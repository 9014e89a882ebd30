-- ===== src/Pipeline/Handoff.antt =====
-- internal/pipeline/pipeline.go: what one tool hands to the next. A nil slice is the empty list, and a map that is
-- used as a set is the list of its keys. `net.ParseIP` is a parameter that tells whether it succeeds.
use surfbot_agent.Base.{
  ℕ, Bool, true, false, not, ◌&&◌, ◌||◌, Option, none, some, List, [], ◌∷◌, ◌++◌, ◌==◌,
  if◌then◌else◌, keep_if, drop, length, map,
}
use surfbot_agent.Base.Assoc.{Assoc, lookup, insert}
use surfbot_agent.Base.Text.{Bytes, codes, bytes_eq, bytes_key, is_empty, has_prefix, cut_at}

-- The phases of the registered tools; no constant names any other.
pub data Phase : Type 0 where
  discovery resolution port_scan http_probe assessment : Phase

pub data AssetType : Type 0 where
  domain subdomain ipv4 ipv6 port_service url technology service : AssetType

-- An asset that a tool emits. Of the metadata, the two entries that are read; `none` when the entry is missing or
-- is not a string.
pub record Emitted : Type 0 where
  pub asset_type : AssetType
  pub value : Bytes
  pub resolved_from : Option Bytes
  pub status : Option Bytes

abbrev pub is_ip_asset : Emitted → Bool
is_ip_asset a = elim a.asset_type [ ipv4 ↦ true | ipv6 ↦ true | _ ↦ false ]

abbrev pub is_subdomain : Emitted → Bool
is_subdomain a = elim a.asset_type [ subdomain ↦ true | _ ↦ false ]

abbrev pub is_port : Emitted → Bool
is_port a = elim a.asset_type [ port_service ↦ true | _ ↦ false ]

abbrev pub is_url : Emitted → Bool
is_url a = elim a.asset_type [ url ↦ true | _ ↦ false ]

-- A read of a set.
unfoldable pub is_seen : Bytes → List Bytes → Bool
is_seen s [] = false
is_seen s (t ∷ seen) = bytes_eq t s || is_seen s seen

-- `dedup`. A second write of a key changes nothing.
unfoldable pub dedup : List Bytes → List Bytes → List Bytes
unfolding is_seen
dedup seen [] = []
dedup seen (s ∷ ss) = let rest = dedup (s ∷ seen) ss in if is_seen s seen then rest else s ∷ rest

-- What stands behind the first occurrence of a text of `n` bytes.
unfoldable pub behind : Bytes → ℕ → Bytes → Option Bytes
unfolding has_prefix
behind sep n [] = none
behind sep n (c ∷ s) =
    let rest = behind sep n s in if has_prefix (c ∷ s) sep then some (drop n (c ∷ s)) else rest

-- What stands before the last occurrence of a byte.
unfoldable pub before_last : ℕ → Bytes → Option Bytes
before_last sep [] = none
before_last sep (c ∷ s) = elim (before_last sep s) [
  | some b ↦ some (c ∷ b)
  | none ↦ if c == sep then some [] else none
]

-- `strings.TrimSuffix` with a suffix that is not empty.
unfoldable pub trim_suffix : Bytes → Bytes → Bytes
trim_suffix suffix [] = []
trim_suffix suffix (c ∷ s) =
    let rest = trim_suffix suffix s in if bytes_eq (c ∷ s) suffix then [] else c ∷ rest

-- "" for a text that does not parse.
abbrev pub or_empty : Option Bytes → Bytes
or_empty none = []
or_empty (some s) = s

abbrev pub host_part : Bytes → Bytes
host_part [] = []
host_part (c ∷ s) = or_empty (if c == b'[' then before_last b']' s else before_last b':' (c ∷ s))

unfoldable pub ip_from_hostport : Bytes → Bytes
unfolding trim_suffix before_last
ip_from_hostport hp = host_part (trim_suffix (codes "/tcp") hp)

abbrev pub enriched : Assoc Bytes Bytes → Bytes → Bytes
enriched names hp =
    let ip = ip_from_hostport hp in
    if is_empty ip
    then hp
    else elim (lookup ip names) [ none ↦ hp | some h ↦ if is_empty h then hp else h ++ b'|' ∷ hp ]

abbrev enrich_each : Assoc Bytes Bytes → List Bytes → List Bytes
enrich_each names [] = []
enrich_each names (hp ∷ hps) = enriched names hp ∷ enrich_each names hps

unfoldable pub enrich_hostports : List Bytes → Assoc Bytes Bytes → List Bytes
enrich_hostports hostports [] = hostports
enrich_hostports hostports (e ∷ names) = enrich_each (e ∷ names) hostports

-- The names of the metadata of a resolution, which its addresses carry.
unfoldable pub evidence : List Emitted → List Bytes
evidence [] = []
evidence (a ∷ assets) =
    let rest = evidence assets in
    if is_ip_asset a
    then elim a.resolved_from [ none ↦ rest | some h ↦ if is_empty h then rest else h ∷ rest ]
    else rest

-- The first answer is `none` for nil: keep the names.
unfoldable pub narrow_by : List Bytes → List Bytes → Option (List Bytes) × ℕ
unfolding is_seen
narrow_by hostnames [] = (none, 0)
narrow_by hostnames (h ∷ hs) = (
  some (keep_if (λ n. is_seen n (h ∷ hs)) hostnames),
  length (keep_if (λ n. not (is_seen n (h ∷ hs))) hostnames),
)

unfoldable pub narrow_hostnames_by_resolution : List Bytes → List Emitted → Option (List Bytes) × ℕ
unfolding evidence narrow_by
narrow_hostnames_by_resolution hostnames assets = narrow_by hostnames (evidence assets)

unfoldable pub merge_hostnames : List Bytes → List Bytes → List Bytes
unfolding dedup
merge_hostnames inputs hostnames = inputs ++ dedup inputs hostnames

-- The map from an address to the first name that it was resolved from.
unfoldable pub name_ips : List Emitted → Assoc Bytes Bytes → Assoc Bytes Bytes
unfolding lookup insert
name_ips [] names = names
name_ips (a ∷ assets) names = name_ips assets (
    if not (is_ip_asset a) then names else elim (lookup a.value names) [
      | some h ↦ names
      | none ↦ elim a.resolved_from [
        | none ↦ names
        | some h ↦ if is_empty h then names else insert a.value h names
      ]
    ])

abbrev pub values : List Emitted → List Bytes
values assets = map (λ a. a.value) assets

abbrev pub is_filtered : Emitted → Bool
is_filtered a = elim a.status [ none ↦ false | some s ↦ bytes_eq s (codes "filtered") ]

module _ (parses_as_ip : Bytes → Bool) where
  -- `isIPBasedURL`: without the protocol, the port and the path.
  abbrev pub or_else : Bytes → Option Bytes → Bytes
  or_else s none = s
  or_else s (some t) = t

  unfoldable pub is_ip_based_url : Bytes → Bool
  unfolding behind before_last cut_at
  is_ip_based_url u =
      let after = or_else u (behind (codes "://") 3 u) in
      let host = or_else after (before_last b':' after) in parses_as_ip (cut_at b'/' host).0

  abbrev pub prefer_names : List Bytes → List Bytes → List Bytes
  prefer_names [] ips = dedup [] ips
  prefer_names (u ∷ us) ips = u ∷ us

  unfoldable pub extract_inputs_for_next_phase : Phase → List Emitted → List Bytes
  unfolding is_ip_based_url dedup
  extract_inputs_for_next_phase discovery assets = values (keep_if is_subdomain assets)
  extract_inputs_for_next_phase resolution assets = dedup [] (values (keep_if is_ip_asset assets))
  extract_inputs_for_next_phase port_scan assets =
      values (keep_if (λ a. is_port a && not (is_filtered a)) assets)
  extract_inputs_for_next_phase http_probe assets =
      let urls = dedup [] (values (keep_if is_url assets)) in
      prefer_names (keep_if (λ u. not (is_ip_based_url u)) urls) (keep_if is_ip_based_url urls)
  extract_inputs_for_next_phase assessment assets = []
