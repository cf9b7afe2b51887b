-- ===== src/Api/Manage.antt =====
-- core/src/versioned/mapx_raw/mod.rs: `impl VsMgmt for MapxRawVs`, the operations on versions and
-- branches by name. Where a method only passes its arguments on, the version manager's function
-- stands for it.
use vsdb.Prelude.{Bool, true, false, not, Option, none, some, List, [], ◌∷◌, ◌>>=?◌}
use vsdb.Common.{RawKey, RawValue, RawBytes, BranchId, VersionId}
use vsdb.Exec.{
  missing, branch_not_found, base_branch_not_found, target_branch_not_found, version_not_found,
  base_version_not_found, panicked, Exec, pure, gets, refuse_if, ◌>>=◌, ◌>>◌,
}
use vsdb.Mapx
use vsdb.Mapx.{Mapx, nat_ord}
use vsdb.Backend.{MapxRawVs}
use vsdb.Backend.Version
use vsdb.Backend.Version.{version_get_id_by_name}
use vsdb.Backend.Branch
use vsdb.Backend.Branch.{branch_get_id_by_name}
use vsdb.Backend.Merge
use vsdb.Backend.Prune.{Locks}
use vsdb.Api.{resolve_branch, resolve_version}

-- `unwrap_or(false)`
abbrev or_false : Option Bool → Bool
or_false none = false
or_false (some b) = b

unfoldable pub version_create_by_branch : RawBytes → RawBytes → Exec MapxRawVs Unit
unfolding resolve_branch
version_create_by_branch ver_name br_name = do
  br_id ← resolve_branch br_name branch_not_found
  Version.version_create_by_branch ver_name br_id

unfoldable pub version_exists_globally : MapxRawVs → RawBytes → Bool
version_exists_globally s ver_name =
    or_false (
      version_get_id_by_name s ver_name >>=? λ verid.
      some (Version.version_exists_globally s verid))

unfoldable pub version_exists : MapxRawVs → RawBytes → Bool
version_exists s ver_name =
    or_false (version_get_id_by_name s ver_name >>=? λ id. some (Version.version_exists s id))

unfoldable pub version_exists_on_branch : MapxRawVs → RawBytes → RawBytes → Bool
version_exists_on_branch s ver_name br_name = or_false (
    branch_get_id_by_name s br_name >>=? λ br_id. version_get_id_by_name s ver_name >>=? λ ver_id.
    some (Version.version_exists_on_branch s ver_id br_id))

unfoldable pub version_pop_by_branch : RawBytes → Exec MapxRawVs Unit
unfolding resolve_branch
version_pop_by_branch br_name = do
  br_id ← resolve_branch br_name branch_not_found
  Version.version_pop_by_branch br_id

unfoldable pub version_rebase : RawBytes → Exec MapxRawVs Unit
unfolding resolve_version
version_rebase base_version = do
  bv ← resolve_version base_version missing
  Version.version_rebase bv

unfoldable pub version_rebase_by_branch : RawBytes → RawBytes → Exec MapxRawVs Unit
unfolding resolve_version resolve_branch
version_rebase_by_branch base_version br_name = do
  bv ← resolve_version base_version missing
  brid ← resolve_branch br_name missing
  Version.version_rebase_by_branch bv brid

unfoldable pub version_list_by_branch : RawBytes → Exec MapxRawVs (List RawBytes)
unfolding resolve_branch
version_list_by_branch br_name = do
  brid ← resolve_branch br_name branch_not_found
  Version.version_list_by_branch brid

unfoldable pub version_has_change_set : RawBytes → Exec MapxRawVs Bool
unfolding resolve_version
version_has_change_set ver_name = do
  verid ← resolve_version ver_name version_not_found
  Version.version_has_change_set verid

unfoldable pub version_revert_globally : RawBytes → Exec MapxRawVs Unit
unfolding resolve_version
version_revert_globally ver_name = do
  verid ← resolve_version ver_name version_not_found
  Version.version_revert_globally verid

abbrev pub resolve_optional_branch : Option RawBytes → Exec MapxRawVs (Option BranchId)
unfolding resolve_branch
resolve_optional_branch none = pure none
resolve_optional_branch (some bn) = do brid ← resolve_branch bn version_not_found; pure (some brid)

abbrev pub resolve_optional_version : Option RawBytes → Exec MapxRawVs (Option VersionId)
unfolding resolve_version
resolve_optional_version none = pure none
resolve_optional_version (some vn) = do
  verid ← resolve_version vn version_not_found
  pure (some verid)

unfoldable pub version_chgset_trie_root :
    (List (RawKey × RawValue) → RawBytes)
    → Option RawBytes
    → Option RawBytes
    → Exec MapxRawVs RawBytes
version_chgset_trie_root trie_root br_name ver_name = do
  brid ← resolve_optional_branch br_name
  verid ← resolve_optional_version ver_name
  Version.version_chgset_trie_root trie_root brid verid

unfoldable pub branch_create_by_base_branch :
    RawBytes → RawBytes → RawBytes → Bool → Exec MapxRawVs Unit
unfolding resolve_branch
branch_create_by_base_branch br_name ver_name base_br_name force = do
  base_br_id ← resolve_branch base_br_name base_branch_not_found
  Branch.branch_create_by_base_branch br_name ver_name base_br_id force

unfoldable pub branch_create_by_base_branch_version :
    RawBytes → RawBytes → RawBytes → RawBytes → Bool → Exec MapxRawVs Unit
unfolding resolve_branch resolve_version
branch_create_by_base_branch_version br_name ver_name base_br_name base_ver_name force = do
  base_br_id ← resolve_branch base_br_name base_branch_not_found
  base_ver_id ← resolve_version base_ver_name base_version_not_found
  Branch.branch_create_by_base_branch_version br_name ver_name base_br_id base_ver_id force

unfoldable pub branch_create_by_base_branch_without_new_version :
    RawBytes → RawBytes → Bool → Exec MapxRawVs Unit
unfolding resolve_branch
branch_create_by_base_branch_without_new_version br_name base_br_name force = do
  base_br_id ← resolve_branch base_br_name base_branch_not_found
  Branch.branch_create_by_base_branch_without_new_version br_name base_br_id force

unfoldable pub branch_create_by_base_branch_version_without_new_version :
    RawBytes → RawBytes → RawBytes → Bool → Exec MapxRawVs Unit
unfolding resolve_branch resolve_version
branch_create_by_base_branch_version_without_new_version br_name base_br_name base_ver_name force =
    do
      base_br_id ← resolve_branch base_br_name base_branch_not_found
      base_ver_id ← resolve_version base_ver_name base_version_not_found
      Branch.branch_create_by_base_branch_version_without_new_version br_name base_br_id base_ver_id
          force

-- The `assert!` panics if the identifier of the name has no name.
abbrev pub assert_branch_exists : Option BranchId → Exec MapxRawVs Bool
assert_branch_exists none = pure false
assert_branch_exists (some id) = do
  known ← gets (λ s. Branch.branch_exists s id)
  refuse_if (not known) panicked
  pure true

unfoldable pub branch_exists : RawBytes → Exec MapxRawVs Bool
branch_exists br_name = do
  found ← gets (λ s. branch_get_id_by_name s br_name)
  assert_branch_exists found

unfoldable pub branch_has_versions : MapxRawVs → RawBytes → Bool
branch_has_versions s br_name =
    or_false (branch_get_id_by_name s br_name >>=? λ id. some (Branch.branch_has_versions s id))

unfoldable pub branch_remove : RawBytes → Exec MapxRawVs Unit
unfolding resolve_branch
branch_remove br_name = do
  br_id ← resolve_branch br_name branch_not_found
  Branch.branch_remove br_id

-- `collect::<Result<BTreeSet<_>>>()`
unfoldable pub resolve_branches : List RawBytes → Exec MapxRawVs (Mapx BranchId (Unit {0}))
unfolding resolve_branch
resolve_branches [] = pure []
resolve_branches (br_name ∷ br_names) = do
  br_id ← resolve_branch br_name version_not_found
  br_ids ← resolve_branches br_names
  pure (Mapx.insert br_ids br_id tt)

unfoldable pub branch_keep_only : Locks → List RawBytes → Exec MapxRawVs Unit
unfolding resolve_branches
branch_keep_only locks br_names = do
  br_ids ← resolve_branches br_names
  Branch.branch_keep_only locks (Mapx.keys br_ids)

unfoldable pub branch_truncate : RawBytes → Exec MapxRawVs Unit
unfolding resolve_branch
branch_truncate br_name = do
  br_id ← resolve_branch br_name branch_not_found
  Branch.branch_truncate br_id

unfoldable pub branch_truncate_to : RawBytes → RawBytes → Exec MapxRawVs Unit
unfolding resolve_branch resolve_version
branch_truncate_to br_name last_ver_name = do
  br_id ← resolve_branch br_name branch_not_found
  last_ver_id ← resolve_version last_ver_name version_not_found
  Branch.branch_truncate_to br_id last_ver_id

unfoldable pub branch_pop_version : RawBytes → Exec MapxRawVs Unit
unfolding resolve_branch
branch_pop_version br_name = do
  id ← resolve_branch br_name branch_not_found
  Branch.branch_pop_version id

unfoldable pub branch_merge_to : RawBytes → RawBytes → Exec MapxRawVs Unit
unfolding resolve_branch
branch_merge_to br_name target_br_name = do
  brid ← resolve_branch br_name branch_not_found
  target_brid ← resolve_branch target_br_name target_branch_not_found
  Merge.branch_merge_to brid target_brid

unfoldable pub branch_merge_to_force : RawBytes → RawBytes → Exec MapxRawVs Unit
unfolding resolve_branch
branch_merge_to_force br_name target_br_name = do
  brid ← resolve_branch br_name branch_not_found
  target_brid ← resolve_branch target_br_name target_branch_not_found
  Merge.branch_merge_to_force brid target_brid

unfoldable pub branch_set_default : RawBytes → Exec MapxRawVs Unit
unfolding resolve_branch
branch_set_default br_name = do
  brid ← resolve_branch br_name branch_not_found
  Branch.branch_set_default brid

unfoldable pub branch_is_empty : RawBytes → Exec MapxRawVs Bool
unfolding resolve_branch
branch_is_empty br_name = do
  brid ← resolve_branch br_name branch_not_found
  Branch.branch_is_empty brid
