-- ===== src/Api.antt =====
-- core/src/versioned/mapx_raw/mod.rs: the data operations of `struct MapxRawVs`, which resolve the
-- names of branches and versions and call the version manager. The struct has one field, the
-- version manager, and is that here.
pub mod Manage
pub mod Mutable
pub mod Reads
pub mod Versions
use vsdb.Prelude.{ℕ, Bool, true, false, not, Option, none, some, is_some, ◌>>=?◌, if◌then◌else◌}
use vsdb.Common.{RawKey, RawValue, RawBytes, BranchId, VersionId, null_id}
use vsdb.Exec.{missing, Error, Exec, require, gets, ◌>>=◌}
use vsdb.Mapx.{Bound}
use vsdb.Backend.{MapxRawVs}
use vsdb.Backend.Data
use vsdb.Backend.Iter
use vsdb.Backend.Iter.{MapxRawVsIter}
use vsdb.Backend.Version.{version_get_id_by_name}
use vsdb.Backend.Branch.{branch_get_id_by_name}

-- `branch_get_id_by_name(br_name).c(d!(..))?`
unfoldable pub resolve_branch : RawBytes → Error → Exec MapxRawVs BranchId
resolve_branch br_name e = do found ← gets (λ s. branch_get_id_by_name s br_name); require found e

-- `version_get_id_by_name(ver_name).c(d!(..))?`
unfoldable pub resolve_version : RawBytes → Error → Exec MapxRawVs VersionId
resolve_version ver_name e = do
  found ← gets (λ s. version_get_id_by_name s ver_name)
  require found e

-- `unwrap_or(NULL_ID)`
abbrev or_null_id : Option ℕ → ℕ
or_null_id none = null_id
or_null_id (some n) = n

-- `unwrap_or(0)`
abbrev or_zero : Option ℕ → ℕ
or_zero none = 0
or_zero (some n) = n

unfoldable pub insert_by_branch : RawKey → RawValue → RawBytes → Exec MapxRawVs (Option RawValue)
unfolding resolve_branch
insert_by_branch key value br_name = do
  br_id ← resolve_branch br_name missing
  Data.insert_by_branch key value br_id

unfoldable pub remove_by_branch : RawKey → RawBytes → Exec MapxRawVs (Option RawValue)
unfolding resolve_branch
remove_by_branch key br_name = do
  br_id ← resolve_branch br_name missing
  Data.remove_by_branch key br_id

unfoldable pub get_by_branch : MapxRawVs → RawKey → RawBytes → Option RawValue
get_by_branch s key br_name =
    branch_get_id_by_name s br_name >>=? λ br_id. Data.get_by_branch s key br_id

unfoldable pub get_by_branch_version : MapxRawVs → RawKey → RawBytes → RawBytes → Option RawValue
get_by_branch_version s key br_name ver_name = branch_get_id_by_name s br_name >>=? λ br_id.
    version_get_id_by_name s ver_name >>=? λ ver_id. Data.get_by_branch_version s key br_id ver_id

unfoldable pub get_ge_by_branch : MapxRawVs → RawKey → RawBytes → Option (RawKey × RawValue)
get_ge_by_branch s key br_name =
    branch_get_id_by_name s br_name >>=? λ br_id. Iter.get_ge_by_branch s key br_id

unfoldable pub get_ge_by_branch_version :
    MapxRawVs → RawKey → RawBytes → RawBytes → Option (RawKey × RawValue)
get_ge_by_branch_version s key br_name ver_name = branch_get_id_by_name s br_name >>=? λ br_id.
    version_get_id_by_name s ver_name >>=? λ ver_id.
    Iter.get_ge_by_branch_version s key br_id ver_id

unfoldable pub get_le_by_branch : MapxRawVs → RawKey → RawBytes → Option (RawKey × RawValue)
get_le_by_branch s key br_name =
    branch_get_id_by_name s br_name >>=? λ br_id. Iter.get_le_by_branch s key br_id

unfoldable pub get_le_by_branch_version :
    MapxRawVs → RawKey → RawBytes → RawBytes → Option (RawKey × RawValue)
get_le_by_branch_version s key br_name ver_name = branch_get_id_by_name s br_name >>=? λ br_id.
    version_get_id_by_name s ver_name >>=? λ ver_id.
    Iter.get_le_by_branch_version s key br_id ver_id

unfoldable pub iter_by_branch : MapxRawVs → RawBytes → MapxRawVsIter
iter_by_branch s br_name = Iter.iter_by_branch s (or_null_id (branch_get_id_by_name s br_name))

unfoldable pub iter_by_branch_version : MapxRawVs → RawBytes → RawBytes → MapxRawVsIter
iter_by_branch_version s br_name ver_name =
    Iter.iter_by_branch_version s (or_null_id (branch_get_id_by_name s br_name))
      (or_null_id (version_get_id_by_name s ver_name))

unfoldable pub range_by_branch : MapxRawVs → RawBytes → Bound RawKey → Bound RawKey → MapxRawVsIter
range_by_branch s br_name l h =
    Iter.range_by_branch s (or_null_id (branch_get_id_by_name s br_name)) l h

unfoldable pub range_by_branch_version :
    MapxRawVs → RawBytes → RawBytes → Bound RawKey → Bound RawKey → MapxRawVsIter
range_by_branch_version s br_name ver_name l h =
    Iter.range_by_branch_version s (or_null_id (branch_get_id_by_name s br_name))
      (or_null_id (version_get_id_by_name s ver_name)) l h

unfoldable pub contains_key : MapxRawVs → RawKey → Bool
contains_key s key = is_some (Data.get s key)

unfoldable pub contains_key_by_branch : MapxRawVs → RawKey → RawBytes → Bool
unfolding get_by_branch
contains_key_by_branch s key br_name = is_some (get_by_branch s key br_name)

unfoldable pub contains_key_by_branch_version : MapxRawVs → RawKey → RawBytes → RawBytes → Bool
unfolding get_by_branch_version
contains_key_by_branch_version s key br_name ver_name =
    is_some (get_by_branch_version s key br_name ver_name)

unfoldable pub len_by_branch : MapxRawVs → RawBytes → ℕ
len_by_branch s br_name =
    or_zero (branch_get_id_by_name s br_name >>=? λ id. some (Iter.len_by_branch s id))

unfoldable pub len_by_branch_version : MapxRawVs → RawBytes → RawBytes → ℕ
len_by_branch_version s br_name ver_name = or_zero (
    branch_get_id_by_name s br_name >>=? λ br_id. version_get_id_by_name s ver_name >>=? λ ver_id.
    some (Iter.len_by_branch_version s br_id ver_id))

unfoldable pub is_empty : MapxRawVs → Bool
is_empty s = not (is_some (Iter.next (Iter.iter s)).0)

unfoldable pub is_empty_by_branch : MapxRawVs → RawBytes → Bool
unfolding iter_by_branch
is_empty_by_branch s br_name = not (is_some (Iter.next (iter_by_branch s br_name)).0)

unfoldable pub is_empty_by_branch_version : MapxRawVs → RawBytes → RawBytes → Bool
unfolding iter_by_branch_version
is_empty_by_branch_version s br_name ver_name =
    not (is_some (Iter.next (iter_by_branch_version s br_name ver_name)).0)
