-- ===== src/Pipeline/Diff.antt =====
-- internal/pipeline/diff.go: the changes between two snapshots of a target's assets.
-- A metadata value is its text as `fmt.Sprint` prints it, which is all that the code compares. The random
-- identifier and the display text of a change are left out. A range over a Go map is a walk of its entries;
-- the theorems do not depend on the order.
pub mod Changes
use surfbot_agent.Base.{
  Bool, true, false, not, ◌&&◌, ◌||◌, Option, none, some, List, [], ◌∷◌, ◌++◌, String, str_eq,
  string_eq, pair_eq, ◌==◌, if◌then◌else◌,
}
use surfbot_agent.Base.Assoc.{Assoc, lookup, insert}
use surfbot_agent.Model.{Time}

-- The fields of `model.Asset` that are read; the type is a string, as in the source.
pub record Asset : Type 0 where
  pub id : String
  pub asset_type : String
  pub value : String
  pub metadata : Option (Assoc String String)
  pub last_seen : Time

pub data ChangeType : Type 0 where
  appeared disappeared modified : ChangeType

pub data Significance : Type 0 where
  critical high medium low info : Significance

pub record AssetChange : Type 0 where
  pub target_id : String
  pub scan_id : String
  pub asset_id : String
  pub change_type : ChangeType
  pub significance : Significance
  pub asset_type : String
  pub asset_value : String
  pub previous_meta : Option (Assoc String String)
  pub current_meta : Option (Assoc String String)
  pub baseline : Bool

abbrev pub AssetKey : Type 0
AssetKey = String × String

abbrev pub key_of : Asset → AssetKey
key_of a = (a.asset_type, a.value)

abbrev pub AssetMap : Type 0
AssetMap = Assoc AssetKey Asset

unfoldable pub put_all : List Asset → AssetMap → AssetMap
put_all [] m = m
put_all (a ∷ assets) m = put_all assets (insert (key_of a) a m)

unfoldable pub build_asset_map : List Asset → AssetMap
build_asset_map assets = put_all assets []

abbrev is_one_of : String → String → String → Bool
is_one_of t a b = str_eq t a || str_eq t b

unfoldable pub classify_significance : ChangeType → String → Significance
classify_significance appeared t =
    if is_one_of t "domain" "subdomain"
    then critical
    else if is_one_of t "ipv4" "ipv6"
    then high
    else if str_eq t "port_service"
    then critical
    else if str_eq t "url"
    then medium
    else if str_eq t "technology"
    then low
    else info
classify_significance disappeared t =
    if is_one_of t "domain" "subdomain"
    then high
    else if is_one_of t "ipv4" "ipv6"
    then medium
    else if str_eq t "port_service"
    then high
    else low
classify_significance modified t = info

-- Is the entry in both maps, with different texts?
unfoldable pub differs : String → Assoc String String → Assoc String String → Bool
differs name prev curr = elim (lookup name prev) [
  | none ↦ false
  | some p ↦ elim (lookup name curr) [ none ↦ false | some c ↦ not (str_eq p c) ]
]

-- The fields of the change that the caller of `classifyMetadataChange` fills are arguments.
abbrev pub metadata_change :
    String → String → Asset → Significance → Assoc String String → Assoc String String → AssetChange
metadata_change target_id scan_id curr significance prev_meta curr_meta = record {
  target_id = target_id;
  scan_id = scan_id;
  asset_id = curr.id;
  change_type = modified;
  significance = significance;
  asset_type = curr.asset_type;
  asset_value = curr.value;
  previous_meta = some prev_meta;
  current_meta = some curr_meta;
  baseline = false;
}

-- The first of the watched entries that differs.
unfoldable pub metadata_significance :
    Assoc String String → Assoc String String → Option Significance
metadata_significance prev curr =
    if differs "server" prev curr
    then some critical
    else if differs "cname" prev curr
    then some critical
    else if differs "status_code" prev curr
    then some medium
    else if differs "tls_valid" prev curr
    then some high
    else if differs "title" prev curr
    then some info
    else none

-- `none` is the answer false.
unfoldable pub classify_metadata_change : String → String → Asset → Asset → Option AssetChange
classify_metadata_change target_id scan_id prev curr = elim prev.metadata [
  | none ↦ none
  | some p ↦ elim curr.metadata [
    | none ↦ none
    | some c ↦ elim (metadata_significance p c) [
      | none ↦ none
      | some sig ↦ some (metadata_change target_id scan_id curr sig p c)
    ]
  ]
]

abbrev pub appeared_change : String → String → Asset → AssetChange
appeared_change target_id scan_id curr = record {
  target_id = target_id;
  scan_id = scan_id;
  asset_id = curr.id;
  change_type = appeared;
  significance = classify_significance appeared curr.asset_type;
  asset_type = curr.asset_type;
  asset_value = curr.value;
  previous_meta = none;
  current_meta = curr.metadata;
  baseline = false;
}

abbrev pub disappeared_change : String → String → Asset → AssetChange
disappeared_change target_id scan_id prev = record {
  target_id = target_id;
  scan_id = scan_id;
  asset_id = prev.id;
  change_type = disappeared;
  significance = classify_significance disappeared prev.asset_type;
  asset_type = prev.asset_type;
  asset_value = prev.value;
  previous_meta = prev.metadata;
  current_meta = none;
  baseline = false;
}

-- A loop over a map that appends at most one change for an entry.
unfoldable pub collect : (AssetKey → Asset → Option AssetChange) → AssetMap → List AssetChange
collect body [] = []
collect body ((k, a) ∷ m) =
    let rest = collect body m in elim (body k a) [ none ↦ rest | some c ↦ c ∷ rest ]

-- The bodies of the three loops.
unfoldable pub appeared_in : String → String → AssetMap → AssetKey → Asset → Option AssetChange
appeared_in target_id scan_id pre_map k curr = elim (lookup k pre_map) [
  | none ↦ some (appeared_change target_id scan_id curr)
  | some pre ↦ none
]

unfoldable pub disappeared_in : String → String → AssetMap → AssetKey → Asset → Option AssetChange
disappeared_in target_id scan_id post_map k prev = elim (lookup k post_map) [
  | none ↦ some (disappeared_change target_id scan_id prev)
  | some post ↦
      if post.last_seen == prev.last_seen
      then some (disappeared_change target_id scan_id prev)
      else none
]

unfoldable pub modified_in : String → String → AssetMap → AssetKey → Asset → Option AssetChange
modified_in target_id scan_id pre_map k post = elim (lookup k pre_map) [
  | none ↦ none
  | some pre ↦
      if post.last_seen == pre.last_seen
      then none
      else classify_metadata_change target_id scan_id pre post
]

unfoldable pub compute_baseline_changes : String → String → List Asset → List AssetChange
compute_baseline_changes target_id scan_id [] = []
compute_baseline_changes target_id scan_id (a ∷ assets) =
    record (appeared_change target_id scan_id a) { significance = info; baseline = true }
    ∷ compute_baseline_changes target_id scan_id assets

unfoldable pub compute_changes : String → String → List Asset → List Asset → Bool → List AssetChange
compute_changes target_id scan_id pre_assets post_assets is_first_scan =
    let pre_map = build_asset_map pre_assets in
    let post_map = build_asset_map post_assets in
    if is_first_scan
    then compute_baseline_changes target_id scan_id post_assets
    else collect (appeared_in target_id scan_id pre_map) post_map
      ++ (collect (disappeared_in target_id scan_id post_map) pre_map
          ++ collect (modified_in target_id scan_id pre_map) post_map)
