-- ===== src/MultiKeyVs/Data.antt =====
-- wrappers/src/versioned_multi_key/mapx_raw/backend.rs: reads and writes of data.
use vsdb.Prelude.{
  Bool, not, ◌&&◌, Option, none, some, [], ◌∷◌, filter, length, is_some, is_empty, ltb, ◌>>=?◌,
  if◌then◌else◌,
}
use vsdb.Common.{RawValue, BranchId, VersionId, null_value}
use vsdb.Exec.{
  missing, branch_not_found, no_version, no_versions_found, Exec, pure, raise, require, gets,
  modify, for_each, ◌>>=◌, ◌>>◌,
}
use vsdb.Mapx
use vsdb.Mapx.{Mapx, Bound, included, unbounded, nat_ord, bytes_ord, reaches_start}
use vsdb.MultiKey
use vsdb.MultiKey.{MapxRawMk, iter_op_with_key_prefix}
use vsdb.MultiKey.Keys.{RawKeys, keys_ord, starts_with}
use vsdb.Backend.{VerMap}
use vsdb.Backend.Data.{non_empty}
use vsdb.MultiKeyVs.{MapxRawMkVs, Layers, put_layer}

unfoldable pub get_by_branch_version :
    MapxRawMkVs → RawKeys → BranchId → VersionId → Option RawValue
get_by_branch_version s key br_id ver_id = Mapx.get s.br_to_its_vers br_id >>=? λ vers.
    Mapx.get s.layered_kv key >>=? λ kvers.
    Mapx.find_rev (Mapx.contains_key vers) (Mapx.range_to kvers ver_id) >>=? λ e. non_empty e.1

unfoldable pub get_by_branch : MapxRawMkVs → RawKeys → BranchId → Option RawValue
unfolding get_by_branch_version
get_by_branch s key br_id = Mapx.get s.br_to_its_vers br_id >>=? λ vers.
    Mapx.last vers >>=? λ e. get_by_branch_version s key br_id e.0

unfoldable pub get : MapxRawMkVs → RawKeys → Option RawValue
unfolding get_by_branch
get s key = get_by_branch s key s.default_branch

abbrev pub unwrap_or_null : Option RawValue → RawValue
unwrap_or_null none = null_value
unwrap_or_null (some v) = v

abbrev pub set_change_set : MapxRawMkVs → VersionId → MapxRawMk → MapxRawMkVs
set_change_set s ver_id chgset = record s {
  ver_to_change_set = Mapx.insert s.ver_to_change_set ver_id chgset;
}

-- An operation on the change set of a version, through its decoded handle.
module _ {A : Type 0} where
  abbrev pub in_change_set : VersionId → Exec MapxRawMk A → Exec MapxRawMkVs A
  in_change_set ver_id act s = elim (Mapx.get s.ver_to_change_set ver_id) [
    | none ↦ raise missing s
    | some chgset ↦ ((act chgset).0, set_change_set s ver_id (act chgset).1)
  ]

-- `insert(k, &[])` on the change set
unfoldable pub erase_change : VersionId → RawKeys → RawValue → Exec MapxRawMkVs Unit
erase_change ver_id k v = do in_change_set ver_id (MultiKey.insert k []); pure tt

-- `range_mut(key..)`, the keys that start with `key`, and a removal at one version for each.
unfoldable pub erase_layers : RawKeys → VersionId → Layers → Layers
erase_layers key ver_id [] = []
erase_layers key ver_id ((k, vers) ∷ m) =
    if reaches_start (included key) k && starts_with key k
    then (k, Mapx.insert vers ver_id []) ∷ erase_layers key ver_id m
    else (k, vers) ∷ erase_layers key ver_id m

unfoldable pub batch_remove_by_branch_version :
    RawKeys → VersionId → Exec MapxRawMkVs (Option RawValue)
unfolding erase_change erase_layers iter_op_with_key_prefix
batch_remove_by_branch_version key ver_id = do
  found ← gets (λ s. Mapx.get s.ver_to_change_set ver_id)
  hdr_shadow ← require found missing
  iter_op_with_key_prefix hdr_shadow (erase_change ver_id) key
  modify (λ s. record s { layered_kv = erase_layers key ver_id s.layered_kv })
  pure none

unfoldable pub write_by_branch_version :
    RawKeys → Option RawValue → BranchId → VersionId → Exec MapxRawMkVs (Option RawValue)
unfolding get_by_branch_version batch_remove_by_branch_version
write_by_branch_version key value br_id ver_id = do
  short ← gets (λ s. ltb (length key) s.key_size)
  if short then batch_remove_by_branch_version key ver_id else do
    ret ← gets (λ s. get_by_branch_version s key br_id ver_id)
    if not (is_some value) && not (is_some ret) then pure none else do
      in_change_set ver_id (MultiKey.insert key (unwrap_or_null value))
      modify
          (λ s. record s { layered_kv = put_layer key ver_id (unwrap_or_null value) s.layered_kv })
      pure ret

unfoldable pub insert_by_branch_version :
    RawKeys → RawValue → BranchId → VersionId → Exec MapxRawMkVs (Option RawValue)
unfolding write_by_branch_version
insert_by_branch_version key value br_id ver_id =
    write_by_branch_version key (some value) br_id ver_id

unfoldable pub remove_by_branch_version :
    RawKeys → BranchId → VersionId → Exec MapxRawMkVs (Option RawValue)
unfolding write_by_branch_version
remove_by_branch_version key br_id ver_id = write_by_branch_version key none br_id ver_id

-- The latest version of a branch, or the error of the two look-ups of the writers.
unfoldable pub latest_version : BranchId → Exec MapxRawMkVs VersionId
latest_version br_id = do
  found ← gets (λ s. Mapx.get s.br_to_its_vers br_id)
  vers ← require found branch_not_found
  e ← require (Mapx.last vers) no_version
  pure e.0

unfoldable pub insert_by_branch : RawKeys → RawValue → BranchId → Exec MapxRawMkVs (Option RawValue)
unfolding latest_version insert_by_branch_version
insert_by_branch key value br_id = do
  ver_id ← latest_version br_id
  insert_by_branch_version key value br_id ver_id

unfoldable pub insert : RawKeys → RawValue → Exec MapxRawMkVs (Option RawValue)
unfolding insert_by_branch
insert key value = do br_id ← gets (λ s. s.default_branch); insert_by_branch key value br_id

unfoldable pub remove_by_branch : RawKeys → BranchId → Exec MapxRawMkVs (Option RawValue)
unfolding latest_version remove_by_branch_version
remove_by_branch key br_id = do
  ver_id ← latest_version br_id
  remove_by_branch_version key br_id ver_id

unfoldable pub remove : RawKeys → Exec MapxRawMkVs (Option RawValue)
unfolding remove_by_branch
remove key = do br_id ← gets (λ s. s.default_branch); remove_by_branch key br_id

-- `.rev().find(..)` with a test on the version and the value.
unfoldable pub find_rev_entry :
    (VersionId × RawValue → Bool) → VerMap → Option (VersionId × RawValue)
find_rev_entry p [] = none
find_rev_entry p (e ∷ m) = elim (find_rev_entry p m) [
  | some f ↦ some f
  | none ↦ if p e then some e else none
]

-- The value that an iteration finds for a key.
abbrev pub iter_value : VerMap → VersionId → VerMap → Option (VersionId × RawValue)
iter_value vers ver_id kvers =
    find_rev_entry (λ e. not (is_empty e.1) && Mapx.contains_key vers e.0)
      (Mapx.range_to kvers ver_id)

module _ {S : Type 0} where
  abbrev pub visit :
      VerMap → VersionId → (RawKeys → RawValue → Exec S Unit) → RawKeys × VerMap → Exec S Unit
  visit vers ver_id op e = elim (iter_value vers ver_id e.1) [
    | some f ↦ op e.0 f.1
    | none ↦ pure tt
  ]

  unfoldable pub iter_op_with_key_prefix_by_branch_version :
      MapxRawMkVs
      → BranchId
      → VersionId
      → (RawKeys → RawValue → Exec S Unit)
      → RawKeys
      → Exec S Unit
  unfolding find_rev_entry
  iter_op_with_key_prefix_by_branch_version s br_id ver_id op key_prefix = do
    vers ← require (Mapx.get s.br_to_its_vers br_id) missing
    for_each
        (filter (λ e. starts_with key_prefix e.0)
          (Mapx.range s.layered_kv (included key_prefix) unbounded))
        (visit vers ver_id op)

  unfoldable pub iter_op_with_key_prefix_by_branch :
      MapxRawMkVs → BranchId → (RawKeys → RawValue → Exec S Unit) → RawKeys → Exec S Unit
  unfolding iter_op_with_key_prefix_by_branch_version
  iter_op_with_key_prefix_by_branch s br_id op key_prefix = do
    e ← require (Mapx.get s.br_to_its_vers br_id >>=? λ vers. Mapx.last vers) no_versions_found
    iter_op_with_key_prefix_by_branch_version s br_id e.0 op key_prefix

  unfoldable pub iter_op_by_branch :
      MapxRawMkVs → BranchId → (RawKeys → RawValue → Exec S Unit) → Exec S Unit
  unfolding iter_op_with_key_prefix_by_branch
  iter_op_by_branch s br_id op = iter_op_with_key_prefix_by_branch s br_id op []
