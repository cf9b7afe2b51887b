-- ===== src/MultiKeyVs/Branch.antt =====
-- wrappers/src/versioned_multi_key/mapx_raw/backend.rs: the operations on branches.
use vsdb.Prelude.{
  ◌+◌, ◌%◌, Bool, true, false, not, ◌&&◌, Option, none, some, List, [], ◌∷◌, is_empty, all, filter,
  ◌==◌, if◌then◌else◌,
}
use mathlib.Core.List.{reverse}
use mathlib.Core.Option
use vsdb.Common.{RawValue, RawBytes, BranchId, VersionId, alloc_br_id, u64_mod}
use vsdb.Exec.{
  missing, branch_not_found, base_branch_not_found, branch_already_exists, version_already_exists,
  version_not_on_base_branch, target_branch_not_found, unable_to_merge, panicked, Exec, pure, raise,
  require, gets, modify, refuse_if, for_each, ◌>>=◌, ◌>>◌,
}
use vsdb.Mapx
use vsdb.Mapx.{Mapx, nat_ord, bytes_ord}
use vsdb.Backend.{VerMap}
use vsdb.Backend.Merge.{merged, has_diverged}
use vsdb.MultiKey
use vsdb.MultiKeyVs.{MapxRawMkVs}
use vsdb.MultiKeyVs.Field.{
  insert_in, get_in, remove_in, remove_nested, br_name_to_br_id, br_to_its_vers, br_id_to_br_name,
}
use vsdb.MultiKeyVs.Version.{
  versions_of, version_create_by_branch, version_pop_by_branch, version_clean_up_globally,
}

unfoldable pub branch_truncate : BranchId → Exec MapxRawMkVs Unit
unfolding versions_of
branch_truncate br_id = do versions_of br_id; insert_in br_to_its_vers br_id []

-- The job for `TRASH_CLEANER` clears the nested instance, which `branch_truncate` has cleared.
unfoldable pub branch_remove : BranchId → Exec MapxRawMkVs Unit
unfolding branch_truncate
branch_remove br_id = do
  branch_truncate br_id
  brname ← remove_in br_id_to_br_name br_id
  remove_in br_name_to_br_id brname
  remove_in br_to_its_vers br_id
  pure tt

-- `VSDB.alloc_br_id()`
unfoldable pub new_branch_id : Exec MapxRawMkVs BranchId
unfolding alloc_br_id
new_branch_id = do
  br_id ← gets (λ s. (alloc_br_id s.db).0)
  modify (λ s. record s { db = (alloc_br_id s.db).1 })
  pure br_id

abbrev pub remove_named : Option BranchId → Exec MapxRawMkVs Unit
remove_named none = pure tt
remove_named (some brid) = branch_remove brid

-- The versions of the base branch up to the base version.
abbrev pub copy_versions : VerMap → Option VersionId → Exec MapxRawMkVs VerMap
copy_versions vers none = pure []
copy_versions vers (some bv) =
    if Mapx.contains_key vers bv
    then pure (Mapx.range_to vers bv)
    else raise version_not_on_base_branch

abbrev pub create_first_version : Option RawBytes → BranchId → Exec MapxRawMkVs Unit
create_first_version none br_id = pure tt
create_first_version (some vername) br_id = version_create_by_branch vername br_id

-- `if force { .. }`: a branch of that name is removed first.
unfoldable pub remove_if_forced : Bool → RawBytes → Exec MapxRawMkVs Unit
unfolding branch_remove
remove_if_forced false br_name = pure tt
remove_if_forced true br_name = do
  found ← gets (λ s. Mapx.get s.br_name_to_br_id br_name)
  remove_named found

unfoldable pub do_branch_create_by_base_branch_version :
    RawBytes → Option RawBytes → BranchId → Option VersionId → Bool → Exec MapxRawMkVs Unit
unfolding remove_if_forced new_branch_id version_create_by_branch
do_branch_create_by_base_branch_version br_name ver_name base_br_id base_ver_id force = do
  remove_if_forced force br_name
  known ← gets (λ s. Mapx.contains_key s.br_name_to_br_id br_name)
  refuse_if known branch_already_exists
  found ← gets (λ s. Mapx.get s.br_to_its_vers base_br_id)
  vers ← require found base_branch_not_found
  vers_copied ← copy_versions vers base_ver_id
  br_id ← new_branch_id
  insert_in br_name_to_br_id br_name br_id
  insert_in br_id_to_br_name br_id br_name
  insert_in br_to_its_vers br_id vers_copied
  create_first_version ver_name br_id

-- The latest version of the base branch, if it has one.
abbrev latest_of : Option (VersionId × RawValue) → Option VersionId
latest_of none = none
latest_of (some e) = some e.0

unfoldable pub base_version_of : BranchId → Exec MapxRawMkVs (Option VersionId)
base_version_of base_br_id = do
  found ← gets (λ s. Mapx.get s.br_to_its_vers base_br_id)
  vers ← require found base_branch_not_found
  pure (latest_of (Mapx.last vers))

unfoldable pub branch_create_by_base_branch :
    RawBytes → RawBytes → BranchId → Bool → Exec MapxRawMkVs Unit
unfolding base_version_of do_branch_create_by_base_branch_version
branch_create_by_base_branch br_name ver_name base_br_id force = do
  known ← gets (λ s. Mapx.contains_key s.ver_name_to_ver_id ver_name)
  refuse_if known version_already_exists
  base_ver_id ← base_version_of base_br_id
  do_branch_create_by_base_branch_version br_name (some ver_name) base_br_id base_ver_id force

unfoldable pub branch_create : RawBytes → RawBytes → Bool → Exec MapxRawMkVs Unit
unfolding branch_create_by_base_branch
branch_create br_name ver_name force = do
  br_id ← gets (λ s. s.default_branch)
  branch_create_by_base_branch br_name ver_name br_id force

unfoldable pub branch_create_by_base_branch_version :
    RawBytes → RawBytes → BranchId → VersionId → Bool → Exec MapxRawMkVs Unit
unfolding do_branch_create_by_base_branch_version
branch_create_by_base_branch_version br_name ver_name base_br_id base_ver_id force = do
  known ← gets (λ s. Mapx.contains_key s.ver_name_to_ver_id ver_name)
  refuse_if known version_already_exists
  do_branch_create_by_base_branch_version br_name (some ver_name) base_br_id (some base_ver_id)
      force

unfoldable pub branch_create_by_base_branch_without_new_version :
    RawBytes → BranchId → Bool → Exec MapxRawMkVs Unit
unfolding base_version_of do_branch_create_by_base_branch_version
branch_create_by_base_branch_without_new_version br_name base_br_id force = do
  base_ver_id ← base_version_of base_br_id
  do_branch_create_by_base_branch_version br_name none base_br_id base_ver_id force

unfoldable pub branch_create_without_new_version : RawBytes → Bool → Exec MapxRawMkVs Unit
unfolding branch_create_by_base_branch_without_new_version
branch_create_without_new_version br_name force = do
  br_id ← gets (λ s. s.default_branch)
  branch_create_by_base_branch_without_new_version br_name br_id force

unfoldable pub branch_create_by_base_branch_version_without_new_version :
    RawBytes → BranchId → VersionId → Bool → Exec MapxRawMkVs Unit
unfolding do_branch_create_by_base_branch_version
branch_create_by_base_branch_version_without_new_version br_name base_br_id base_ver_id force =
    do_branch_create_by_base_branch_version br_name none base_br_id (some base_ver_id) force

-- It panics where only one of the two tables has the branch.
unfoldable pub branch_exists : BranchId → Exec MapxRawMkVs Bool
branch_exists br_id = do
  condition_1 ← gets (λ s. Mapx.contains_key s.br_id_to_br_name br_id)
  condition_2 ← gets (λ s. Mapx.contains_key s.br_to_its_vers br_id)
  refuse_if (if condition_1 then not condition_2 else condition_2) panicked
  pure condition_1

unfoldable pub branch_has_versions : BranchId → Exec MapxRawMkVs Bool
unfolding branch_exists
branch_has_versions br_id = do
  known ← branch_exists br_id
  if not known
      then pure false
      else gets (λ s. elim (Mapx.get s.br_to_its_vers br_id) [
        | some vers ↦ not (is_empty vers)
        | none ↦ false
      ])

abbrev pub contains : List BranchId → BranchId → Bool
contains br_ids brid = not (all (λ b. not (b == brid)) br_ids)

unfoldable pub branch_keep_only : List BranchId → Exec MapxRawMkVs Unit
unfolding branch_remove version_clean_up_globally
branch_keep_only br_ids = do
  brs ← gets (λ s. filter (λ b. not (contains br_ids b)) (Mapx.keys s.br_id_to_br_name))
  for_each brs branch_remove
  version_clean_up_globally

abbrev pub truncate_version : BranchId → VersionId → Exec MapxRawMkVs Unit
truncate_version br_id ver_id = do remove_nested br_to_its_vers br_id ver_id; pure tt

unfoldable pub branch_truncate_to : BranchId → VersionId → Exec MapxRawMkVs Unit
unfolding versions_of
branch_truncate_to br_id last_ver_id = do
  vers ← versions_of br_id
  for_each (reverse (Mapx.keys (Mapx.range_from vers ((last_ver_id + 1) % u64_mod))))
      (truncate_version br_id)

unfoldable pub branch_pop_version : BranchId → Exec MapxRawMkVs Unit
unfolding version_pop_by_branch
branch_pop_version br_id = version_pop_by_branch br_id

unfoldable pub branch_set_default : BranchId → Exec MapxRawMkVs Unit
unfolding branch_exists
branch_set_default br_id = do
  known ← branch_exists br_id
  refuse_if (not known) branch_not_found
  modify (λ s. record s { default_branch = br_id })

unfoldable pub branch_get_default_name : Exec MapxRawMkVs RawBytes
branch_get_default_name = do
  found ← gets (λ s. Mapx.get s.br_id_to_br_name s.default_branch)
  require found panicked

-- `unwrap` of an error panics.
abbrev unwrap_change_set : MapxRawMkVs → VersionId → Option Bool
unwrap_change_set s ver =
    Option.map (λ c. not (MultiKey.is_empty c)) (Mapx.get s.ver_to_change_set ver)

-- `.all(|(ver, _)| !self.version_has_change_set(ver).unwrap())`
unfoldable pub all_unchanged : List VersionId → Exec MapxRawMkVs Bool
all_unchanged [] = pure true
all_unchanged (ver ∷ vers) = do
  found ← gets (λ s. unwrap_change_set s ver)
  changed ← require found panicked
  if changed then pure false else all_unchanged vers

unfoldable pub branch_is_empty : BranchId → Exec MapxRawMkVs Bool
unfolding all_unchanged
branch_is_empty br_id = do vers ← get_in br_to_its_vers br_id; all_unchanged (Mapx.keys vers)

unfoldable pub branch_list : MapxRawMkVs → List RawBytes
branch_list s = Mapx.keys s.br_name_to_br_id

abbrev pub swap_default : BranchId → BranchId → BranchId → BranchId
swap_default brid_1 brid_2 br = if br == brid_1 then brid_2 else if br == brid_2 then brid_1 else br

unfoldable pub branch_swap : RawBytes → RawBytes → Exec MapxRawMkVs Unit
branch_swap branch_1 branch_2 = do
  brid_1 ← get_in br_name_to_br_id branch_1
  brid_2 ← get_in br_name_to_br_id branch_2
  insert_in br_name_to_br_id branch_1 brid_2
  insert_in br_name_to_br_id branch_2 brid_1
  old_1 ← gets (λ s. Mapx.get s.br_id_to_br_name brid_1)
  insert_in br_id_to_br_name brid_1 branch_2
  require old_1 missing
  old_2 ← gets (λ s. Mapx.get s.br_id_to_br_name brid_2)
  insert_in br_id_to_br_name brid_2 branch_1
  require old_2 missing
  modify (λ s. record s { default_branch = swap_default brid_1 brid_2 s.default_branch })

abbrev pub branch_get_id_by_name : MapxRawMkVs → RawBytes → Option BranchId
branch_get_id_by_name s br_name = Mapx.get s.br_name_to_br_id br_name

unfoldable pub do_branch_merge_to : BranchId → BranchId → Bool → Exec MapxRawMkVs Unit
unfolding versions_of
do_branch_merge_to br_id target_br_id force = do
  vers ← versions_of br_id
  found ← gets (λ s. Mapx.get s.br_to_its_vers target_br_id)
  target_vers ← require found target_branch_not_found
  refuse_if (not force && has_diverged vers (Mapx.last target_vers)) unable_to_merge
  insert_in br_to_its_vers target_br_id (merged vers target_vers)

unfoldable pub branch_merge_to : BranchId → BranchId → Exec MapxRawMkVs Unit
unfolding do_branch_merge_to
branch_merge_to br_id target_br_id = do_branch_merge_to br_id target_br_id false

unfoldable pub branch_merge_to_force : BranchId → BranchId → Exec MapxRawMkVs Unit
unfolding do_branch_merge_to
branch_merge_to_force br_id target_br_id = do_branch_merge_to br_id target_br_id true
