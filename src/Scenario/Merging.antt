-- ===== src/Scenario/Merging.antt =====
-- The merge of old versions of a map with keys of two parts.
use vsdb.Prelude.{◌≡◌, refl, none, some, [], ◌∷◌}
use vsdb.Exec.{ok}
use vsdb.Mapx
use vsdb.MultiKey
use vsdb.MultiKeyVs
use vsdb.MultiKeyVs.{MapxRawMkVs}
use vsdb.MultiKeyVs.Data.{get_by_branch, insert_by_branch, remove_by_branch}
use vsdb.MultiKeyVs.Prune.{prune}
use vsdb.MultiKeyVs.Version.{version_create_by_branch}
use vsdb.Scenario.MultiKeys.{part, whole, second}

-- The second version writes over the key; the third is empty.
abbrev written : MapxRawMkVs
written = (version_create_by_branch (3 ∷ []) 0 (insert_by_branch whole (9 ∷ []) 0 second).1).1

abbrev merged : MapxRawMkVs
merged = (prune (some 1) written).1

-- The merge of the first two versions keeps the value, in the change set of the first one too, and
-- leaves the layer of the merged version.
merged-written :
    ((prune (some 1) written).0 ≡ ok tt)
    × (get_by_branch merged whole 0 ≡ some (9 ∷ []))
    × (Mapx.keys merged.ver_to_change_set ≡ 0 ∷ 2 ∷ [])
    × (merged.layered_kv ≡ (whole, (0, 9 ∷ []) ∷ (1, 9 ∷ []) ∷ []) ∷ [])
unfolding prune version_create_by_branch Mapx.get insert_by_branch MultiKeyVs.new Mapx.insert
    Mapx.last MultiKey.insert get_by_branch Mapx.find_rev Mapx.range_to Mapx.remove
merged-written = (refl, refl, refl, refl)

-- The second version removes the keys below a part; the third is empty.
abbrev removed : MapxRawMkVs
removed = (version_create_by_branch (3 ∷ []) 0 (remove_by_branch part 0 second).1).1

-- The merge of the first two versions brings the removed key back.
merged-removed :
    ((prune (some 1) removed).0 ≡ ok tt)
    × (get_by_branch removed whole 0 ≡ none)
    × (get_by_branch (prune (some 1) removed).1 whole 0 ≡ some (7 ∷ []))
unfolding prune version_create_by_branch Mapx.get remove_by_branch insert_by_branch MultiKeyVs.new
    Mapx.insert Mapx.last MultiKey.insert get_by_branch Mapx.find_rev Mapx.range_to Mapx.remove
merged-removed = (refl, refl, refl)
