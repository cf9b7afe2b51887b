-- ===== src/MultiKeyVs/Prune.antt =====
-- wrappers/src/versioned_multi_key/mapx_raw/backend.rs: the merge of old versions into the initial
-- one. Hash sets are in the order of their keys.
use vsdb.Prelude.{
  ℕ, suc, ◌+◌, ◌-◌, ◌%◌, not, Option, none, some, List, [], ◌∷◌, length, take, all, leb, ◌==◌,
  if◌then◌else◌,
}
use vsdb.Common.{RawValue, BranchId, VersionId, u64_mod, ver_id_max}
use vsdb.Exec.{
  missing, reserved_zero, panicked, Exec, pure, raise, require, gets, modify, refuse_if, for_each,
  ◌>>=◌, ◌>>◌,
}
use vsdb.Mapx
use vsdb.Mapx.{Mapx, nat_ord}
use vsdb.MultiKey
use vsdb.MultiKey.{MapxRawMk, iter_op}
use vsdb.MultiKey.Keys.{RawKeys, keys_ord}
use vsdb.Backend.{VerMap}
use vsdb.Backend.Prune.{non_empty_branches, common_prefix, shared_versions, unwrap_or_default}
use vsdb.MultiKeyVs.{MapxRawMkVs}
use vsdb.MultiKeyVs.Field.{
  insert_in, get_in, remove_in, remove_nested, br_to_its_vers, layered_kv, ver_to_change_set,
}
use vsdb.MultiKeyVs.Data.{in_change_set}
use vsdb.MultiKeyVs.Version.{same_bytes, version_clean_up_globally}

-- `HashSet<Vec<RawKey>>`
abbrev pub KeySet : Type 0
KeySet = Mapx RawKeys (Unit {0})

unfoldable pub drop_merged_version : List VersionId → BranchId → Exec MapxRawMkVs Unit
drop_merged_version vers br = for_each vers (λ ver. do remove_nested br_to_its_vers br ver; pure tt)

-- The value of a key at a merged version is written over the one of the version that is kept; it
-- stays at the merged version too.
unfoldable pub merge_key : VersionId → VersionId → RawKeys → RawValue → Exec MapxRawMkVs Unit
merge_key rewrite_ver ver k v = do
  kvers ← get_in layered_kv k
  vv ← require (Mapx.get kvers ver) missing
  if same_bytes vv v then pure tt else raise panicked
  insert_in layered_kv k (Mapx.insert kvers rewrite_ver vv)
  in_change_set rewrite_ver (MultiKey.insert k v)
  pure tt

-- The keys of a change set, put into a set.
unfoldable pub add_changed : KeySet → MapxRawMk → KeySet
unfolding iter_op
add_changed chgkeys chgset = (iter_op chgset (λ k v. modify (λ m. Mapx.insert m k tt)) chgkeys).1

-- It returns the keys that the merged versions changed.
unfoldable pub merge_versions : VersionId → List VersionId → KeySet → Exec MapxRawMkVs KeySet
unfolding merge_key add_changed iter_op
merge_versions rewrite_ver [] chgkeys = pure chgkeys
merge_versions rewrite_ver (ver ∷ vers) chgkeys = do
  chgset ← remove_in ver_to_change_set ver
  iter_op chgset (merge_key rewrite_ver ver)
  merge_versions rewrite_ver vers (add_changed chgkeys chgset)

-- A lowest-level value that says 'deleted' is dropped.
abbrev pub drop_deleted_value : VersionId → RawKeys → VerMap → RawValue → Exec MapxRawMkVs Unit
drop_deleted_value rewrite_ver k vers [] = do
  insert_in layered_kv k (Mapx.remove vers rewrite_ver)
  in_change_set rewrite_ver (MultiKey.remove k)
  pure tt
drop_deleted_value rewrite_ver k vers (b ∷ bs) = pure tt

abbrev pub drop_key_if_empty : RawKeys → VerMap → Exec MapxRawMkVs Unit
drop_key_if_empty k [] = do remove_in layered_kv k; pure tt
drop_key_if_empty k (e ∷ vers) = pure tt

abbrev pub drop_deleted : VersionId → RawKeys → Option VerMap → Exec MapxRawMkVs Unit
drop_deleted rewrite_ver k none = pure tt
drop_deleted rewrite_ver k (some vers) = do
  v ← require (Mapx.get vers rewrite_ver) missing
  drop_deleted_value rewrite_ver k vers v
  left ← get_in layered_kv k
  drop_key_if_empty k left

unfoldable pub drop_deleted_key : VersionId → RawKeys → Exec MapxRawMkVs Unit
drop_deleted_key rewrite_ver k = do
  found ← gets (λ s. Mapx.get s.layered_kv k)
  drop_deleted rewrite_ver k found

-- The versions `vers_to_be_merged` are merged into `rewrite_ver` and leave every branch.
unfoldable pub merge_into : VersionId → List VersionId → Exec MapxRawMkVs Unit
unfolding non_empty_branches drop_merged_version merge_versions drop_deleted_key
merge_into rewrite_ver vers_to_be_merged = do
  get_in ver_to_change_set rewrite_ver
  brs ← gets (λ s. Mapx.keys (non_empty_branches s.br_to_its_vers))
  for_each brs (drop_merged_version vers_to_be_merged)
  chgkeys ← merge_versions rewrite_ver vers_to_be_merged []
  for_each (Mapx.keys chgkeys) (drop_deleted_key rewrite_ver)

-- The first shared version is kept and written over; the last `reserved` of them are kept, but one.
abbrev pub merge_shared : ℕ → List VersionId → Exec MapxRawMkVs Unit
merge_shared reserved [] = pure tt
merge_shared reserved (rewrite_ver ∷ vers) =
    let l = suc (length vers) in
    if leb l reserved then pure tt else merge_into rewrite_ver (take (l - reserved) vers)

unfoldable pub do_prune : Option ℕ → Exec MapxRawMkVs Unit
unfolding non_empty_branches common_prefix merge_into
do_prune reserved_ver_num = do
  let reserved = (1 + unwrap_or_default reserved_ver_num) % u64_mod
  refuse_if (reserved == 0) reserved_zero
  shared ← gets (λ s. shared_versions (non_empty_branches s.br_to_its_vers))
  refuse_if (not (all (λ ver. not (ver == ver_id_max)) shared)) panicked
  merge_shared reserved shared

unfoldable pub prune : Option ℕ → Exec MapxRawMkVs Unit
unfolding version_clean_up_globally do_prune
prune reserved_ver_num = do version_clean_up_globally; do_prune reserved_ver_num
