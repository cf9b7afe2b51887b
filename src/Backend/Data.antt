-- ===== src/Backend/Data.antt =====
-- core/src/versioned/mapx_raw/backend.rs: reads and writes of data. A `MapxRaw` that is decoded
-- from its prefix is a handle: what it changes is written back here into the map that holds it.
pub mod Keeps
use vsdb.Prelude.{not, ◌&&◌, Option, none, some, [], is_some, is_empty, ◌>>=?◌, if◌then◌else◌}
use vsdb.Common.{RawKey, RawValue, BranchId, VersionId, null_value}
use vsdb.Exec.{
  missing, branch_not_found, no_version, Exec, pure, require, gets, modify, ◌>>=◌, ◌>>◌,
}
use vsdb.Mapx
use vsdb.Mapx.{Mapx, nat_ord, bytes_ord}
use vsdb.Backend.{MapxRawVs, VerMap, ChangeSet}

-- `alt!(value.is_empty(), None, Some(value))`
abbrev pub non_empty : RawValue → Option RawValue
non_empty v = if is_empty v then none else some v

unfoldable pub get_by_branch_version : MapxRawVs → RawKey → BranchId → VersionId → Option RawValue
get_by_branch_version s key br_id ver_id = Mapx.get s.br_to_its_vers br_id >>=? λ vers.
    Mapx.get s.layered_kv key >>=? λ kvers.
    Mapx.find_rev (Mapx.contains_key vers) (Mapx.range_to kvers ver_id) >>=? λ e. non_empty e.1

unfoldable pub get_by_branch : MapxRawVs → RawKey → BranchId → Option RawValue
unfolding get_by_branch_version
get_by_branch s key br_id = Mapx.get s.br_to_its_vers br_id >>=? λ vers.
    Mapx.last vers >>=? λ e. get_by_branch_version s key br_id e.0

unfoldable pub get : MapxRawVs → RawKey → Option RawValue
unfolding get_by_branch
get s key = get_by_branch s key s.default_branch

abbrev unwrap_or_null : Option RawValue → RawValue
unwrap_or_null none = null_value
unwrap_or_null (some v) = v

-- The layered map after the write of one value at one version: `entry(key).or_insert(..)` is the
-- nested map of the key, new and empty if the key has none.
abbrev pub put_layered : MapxRawVs → RawKey → VersionId → RawValue → MapxRawVs
put_layered s key ver_id value = record s {
  layered_kv = Mapx.insert s.layered_kv key (Mapx.insert (Mapx.at s.layered_kv key) ver_id value);
}

abbrev pub put_change : MapxRawVs → VersionId → ChangeSet → RawKey → MapxRawVs
put_change s ver_id chgset key = record s {
  ver_to_change_set = Mapx.insert s.ver_to_change_set ver_id (Mapx.insert chgset key tt);
}

unfoldable pub write_by_branch_version :
    RawKey → Option RawValue → BranchId → VersionId → Exec MapxRawVs (Option RawValue)
unfolding get_by_branch_version
write_by_branch_version key value br_id ver_id = do
  ret ← gets (λ s. get_by_branch_version s key br_id ver_id)
  if not (is_some value) && not (is_some ret) then pure none else do
    modify (λ s. put_layered s key ver_id (unwrap_or_null value))
    found ← gets (λ s. Mapx.get s.ver_to_change_set ver_id)
    chgset ← require found missing
    modify (λ s. put_change s ver_id chgset key)
    pure ret

unfoldable pub insert_by_branch_version :
    RawKey → RawValue → BranchId → VersionId → Exec MapxRawVs (Option RawValue)
unfolding write_by_branch_version
insert_by_branch_version key value br_id ver_id =
    write_by_branch_version key (some value) br_id ver_id

unfoldable pub remove_by_branch_version :
    RawKey → BranchId → VersionId → Exec MapxRawVs (Option RawValue)
unfolding write_by_branch_version
remove_by_branch_version key br_id ver_id = write_by_branch_version key none br_id ver_id

-- The latest version of a branch, or the error of the two look-ups of the writers.
unfoldable pub latest_version : BranchId → Exec MapxRawVs VersionId
latest_version br_id = do
  found ← gets (λ s. Mapx.get s.br_to_its_vers br_id)
  vers ← require found branch_not_found
  e ← require (Mapx.last vers) no_version
  pure e.0

unfoldable pub insert_by_branch : RawKey → RawValue → BranchId → Exec MapxRawVs (Option RawValue)
unfolding latest_version insert_by_branch_version
insert_by_branch key value br_id = do
  ver_id ← latest_version br_id
  insert_by_branch_version key value br_id ver_id

unfoldable pub insert : RawKey → RawValue → Exec MapxRawVs (Option RawValue)
unfolding insert_by_branch
insert key value = do br_id ← gets (λ s. s.default_branch); insert_by_branch key value br_id

unfoldable pub remove_by_branch : RawKey → BranchId → Exec MapxRawVs (Option RawValue)
unfolding latest_version remove_by_branch_version
remove_by_branch key br_id = do
  ver_id ← latest_version br_id
  remove_by_branch_version key br_id ver_id

unfoldable pub remove : RawKey → Exec MapxRawVs (Option RawValue)
unfolding remove_by_branch
remove key = do br_id ← gets (λ s. s.default_branch); remove_by_branch key br_id
