-- ===== src/Pipeline/Diff/Changes.antt =====
-- internal/pipeline/diff.go: which change `ComputeChanges` reports for a key.
use surfbot_agent.Base.{
  ◌≡◌, refl, sym, ap, ◌∙◌, subst, true, false, Option, none, some, List, [], ◌∷◌, ◌++◌, String,
  string_eq, pair_eq, pair_beq, pair_beq_iff, arith, ◌==◌, if◌then◌else◌, Bool-cases, Option-cases,
  inl, inr,
}
use surfbot_agent.Base.Assoc.{lookup, insert, lookup-insert}
use surfbot_agent.Pipeline.Diff.{
  Asset, AssetChange, AssetKey, key_of, AssetMap, put_all, build_asset_map, appeared_change,
  disappeared_change, collect, appeared_in, disappeared_in, modified_in, compute_changes,
  classify_metadata_change,
}

abbrev pub change_key : AssetChange → AssetKey
change_key c = (c.asset_type, c.asset_value)

-- The changes of a list that are about a key.
unfoldable pub changes_for : AssetKey → List AssetChange → List AssetChange
changes_for k [] = []
changes_for k (c ∷ cs) =
    let rest = changes_for k cs in if pair_beq (change_key c) k then c ∷ rest else rest

changes_for-append :
    (k : AssetKey) (xs ys : List AssetChange)
    → changes_for k (xs ++ ys) ≡ changes_for k xs ++ changes_for k ys
unfolding changes_for
changes_for-append k [] ys = refl
changes_for-append k (x ∷ xs) ys = ground (arith, changes_for-append k xs ys)

abbrev pub to_list : Option AssetChange → List AssetChange
to_list none = []
to_list (some c) = c ∷ []

-- Every entry stands under its own key, and no key has two entries.
abbrev IsMap : AssetMap → Type 0
IsMap [] = Unit {0}
IsMap ((k, a) ∷ m) = (key_of a ≡ k) × (lookup k m ≡ none) × IsMap m

insert-IsMap : (a : Asset) (m : AssetMap) → IsMap m → IsMap (insert (key_of a) a m)
unfolding insert lookup
insert-IsMap a [] w = (refl, refl, tt)
insert-IsMap a ((j, b) ∷ m) (own, fresh, w) = elim (Bool-cases (pair_beq j (key_of a))) [
  | inl same ↦
      rw (same, insert)
        (refl, subst (λ k. lookup k m ≡ none) ((pair_beq_iff j (key_of a)).0 same) fresh, w)
  | inr apart ↦
      rw (apart, insert)
        (
          own,
          lookup-insert (key_of a) j a m
              ∙ ground (arith, pair_beq_iff (key_of a) j, pair_beq_iff j (key_of a)),
          insert-IsMap a m w,
        )
]

-- The last asset of a list with the key.
unfoldable pub latest : AssetKey → List Asset → Option Asset
latest k [] = none
latest k (a ∷ assets) = elim (latest k assets) [
  | some b ↦ some b
  | none ↦ if pair_beq (key_of a) k then some a else none
]

put_all-IsMap : (assets : List Asset) (m : AssetMap) → IsMap m → IsMap (put_all assets m)
unfolding put_all
put_all-IsMap [] m w = w
put_all-IsMap (a ∷ assets) m w = put_all-IsMap assets (insert (key_of a) a m) (insert-IsMap a m w)

lookup-put_all :
    (k : AssetKey) (assets : List Asset) (m : AssetMap)
    → lookup k (put_all assets m) ≡ elim (latest k assets) [ some b ↦ some b | none ↦ lookup k m ]
unfolding put_all latest
lookup-put_all k [] m = refl
lookup-put_all k (a ∷ assets) m =
    ground (arith, lookup-put_all k assets (insert (key_of a) a m), lookup-insert (key_of a) k a m)

lookup-build_asset_map :
    (k : AssetKey) (assets : List Asset) → lookup k (build_asset_map assets) ≡ latest k assets
unfolding build_asset_map lookup
lookup-build_asset_map k assets = ground (arith, lookup-put_all k assets [])

-- What a loop appends for the entry of a key, if there is one.
abbrev entry_changes :
    (AssetKey → Asset → Option AssetChange) → AssetKey → Option Asset → List AssetChange
entry_changes body k none = []
entry_changes body k (some a) = to_list (body k a)

abbrev KeepsKey : (AssetKey → Asset → Option AssetChange) → Type 0
KeepsKey body =
    (j : AssetKey) (a : Asset) (c : AssetChange)
    → key_of a ≡ j
    → body j a ≡ some c
    → change_key c ≡ j

collect-entry :
    (body : AssetKey → Asset → Option AssetChange) (k : AssetKey) (m : AssetMap)
    → KeepsKey body
    → IsMap m
    → changes_for k (collect body m) ≡ entry_changes body k (lookup k m)
unfolding collect changes_for lookup
collect-entry body k [] keeps w = refl
collect-entry body k ((j, a) ∷ m) keeps (own, fresh, w) =
    let rest = collect-entry body k m keeps w in
    elim (Option-cases (body j a)) [
      | inl quiet ↦ elim (Bool-cases (pair_beq j k)) [
        | inl same ↦
            let at_k : j ≡ k = (pair_beq_iff j k).0 same in
            rw (same, quiet, collect, lookup)
              (rest
                ∙ ap (entry_changes body k) (subst (λ i. lookup i m ≡ none) at_k fresh)
                ∙ ap to_list (sym (subst (λ i. body i a ≡ none) at_k quiet)))
        | inr apart ↦ rw (quiet, apart, collect, lookup) rest
      ]
      | inr (c, e) ↦
          let key = keeps j a c own e in
          elim (Bool-cases (pair_beq j k)) [
            | inl same ↦
                let at_k : j ≡ k = (pair_beq_iff j k).0 same in
                let hit : pair_beq (change_key c) k ≡ true =
                  (pair_beq_iff (change_key c) k).1 (key ∙ at_k) in
                rw (same, e, collect, lookup, changes_for, hit)
                  (ap (λ cs. c ∷ cs)
                      (rest ∙ ap (entry_changes body k) (subst (λ i. lookup i m ≡ none) at_k fresh))
                    ∙ ap to_list (sym (subst (λ i. body i a ≡ some c) at_k e)))
            | inr apart ↦
                let miss : pair_beq (change_key c) k ≡ false =
                  subst (λ i. pair_beq i k ≡ false) (sym key) apart in
                rw (apart, e, collect, lookup, changes_for, miss) rest
          ]
    ]

appeared_in-KeepsKey : (t s : String) (m : AssetMap) → KeepsKey (appeared_in t s m)
unfolding appeared_in
appeared_in-KeepsKey t s m j a c own h = ground arith

disappeared_in-KeepsKey : (t s : String) (m : AssetMap) → KeepsKey (disappeared_in t s m)
unfolding disappeared_in
disappeared_in-KeepsKey t s m j a c own h = ground arith

modified_in-KeepsKey : (t s : String) (m : AssetMap) → KeepsKey (modified_in t s m)
unfolding modified_in classify_metadata_change
modified_in-KeepsKey t s m j a c own h = ground arith

-- The changes that a key deserves, given the last asset with it before and after the scan.
abbrev pub expected_changes : String → String → Option Asset → Option Asset → List AssetChange
expected_changes t s none none = []
expected_changes t s none (some post) = appeared_change t s post ∷ []
expected_changes t s (some pre) none = disappeared_change t s pre ∷ []
expected_changes t s (some pre) (some post) =
    if post.last_seen == pre.last_seen
    then disappeared_change t s pre ∷ []
    else to_list (classify_metadata_change t s pre post)

build_asset_map-IsMap : (assets : List Asset) → IsMap (build_asset_map assets)
unfolding build_asset_map
build_asset_map-IsMap assets = put_all-IsMap assets [] tt

join :
    {a b c a' b' c' : List AssetChange}
    → a ≡ a'
    → b ≡ b'
    → c ≡ c'
    → (a ++ (b ++ c)) ≡ (a' ++ (b' ++ c'))
join x y z = rw (x, y, z) refl

-- The three loops together.
entry-expected :
    (t s : String) (pre post : List Asset) (k : AssetKey)
    → entry_changes (appeared_in t s (build_asset_map pre)) k (lookup k (build_asset_map post))
        ++ (entry_changes
              (disappeared_in t s (build_asset_map post))
              k
              (lookup k (build_asset_map pre))
            ++ entry_changes
                (modified_in t s (build_asset_map pre))
                k
                (lookup k (build_asset_map post)))
      ≡ expected_changes t s (latest k pre) (latest k post)
unfolding appeared_in disappeared_in modified_in
entry-expected t s pre post k =
    ground (arith, lookup-build_asset_map k pre, lookup-build_asset_map k post)

-- Of a scan that is not the first, each key has at most one change: "appeared" if only the later snapshot
-- has it, "disappeared" if only the earlier has it or the scan did not see it again, and else what the
-- comparison of the metadata says.
pub compute_changes-expected :
    (t s : String) (pre post : List Asset) (k : AssetKey)
    → changes_for k (compute_changes t s pre post false)
      ≡ expected_changes t s (latest k pre) (latest k post)
unfolding compute_changes
compute_changes-expected t s pre post k =
    let before = build_asset_map pre in
    let after = build_asset_map post in
    let w = build_asset_map-IsMap pre in
    let v = build_asset_map-IsMap post in
    changes_for-append k (collect (appeared_in t s before) after)
      (collect (disappeared_in t s after) before ++ collect (modified_in t s before) after)
    ∙ ap (λ cs. changes_for k (collect (appeared_in t s before) after) ++ cs)
        (changes_for-append k (collect (disappeared_in t s after) before)
          (collect (modified_in t s before) after))
    ∙ join (collect-entry (appeared_in t s before) k after (appeared_in-KeepsKey t s before) v)
        (collect-entry (disappeared_in t s after) k before (disappeared_in-KeepsKey t s after) w)
        (collect-entry (modified_in t s before) k after (modified_in-KeepsKey t s before) v)
    ∙ entry-expected t s pre post k
