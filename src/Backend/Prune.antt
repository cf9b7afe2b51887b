-- ===== src/Backend/Prune.antt =====
-- core/src/versioned/mapx_raw/backend.rs: `do_prune`, the removal of orphan versions and the
-- merge of old versions into the initial one. The state of the two locks and the coin that
-- decides whether to wait for them are parameters. Hash sets are in the order of their keys.
pub mod Drop
pub mod Forget
pub mod Orphans
pub mod Clean
use vsdb.Prelude.{
  ℕ, suc, ◌+◌, ◌-◌, ◌%◌, Bool, true, false, not, ◌&&◌, Option, none, some, List, [], ◌∷◌, ◌++◌,
  is_empty, map, foldl, length, take, tail, all, filter, leb, ◌==◌, if◌then◌else◌,
}
use vsdb.Common.{
  RawKey, RawValue, BranchId, VersionId, reserved_version_num_default, u64_mod, ver_id_max,
}
use vsdb.Exec.{
  missing, lock_busy, reserved_zero, require, panicked, Exec, pure, gets, refuse_if, for_each,
  ◌>>=◌, ◌>>◌,
}
use vsdb.Mapx
use vsdb.Mapx.{Mapx, nat_ord, bytes_ord}
use vsdb.Backend.{MapxRawVs, VerMap, ChangeSet}
use vsdb.Backend.Field.{
  insert_in, get_in, remove_in, remove_nested, ver_name_to_ver_id, br_to_its_vers, layered_kv,
  ver_id_to_ver_name, ver_to_change_set,
}

-- `HashSet` of the versions of a list of branches
unfoldable pub valid_vers : Mapx BranchId VerMap → Mapx VersionId (Unit {0})
valid_vers [] = []
valid_vers ((br, vers) ∷ m) =
    foldl (λ acc ver. Mapx.insert acc ver tt) (valid_vers m) (Mapx.keys vers)

-- The change sets of the versions that are on no branch.
unfoldable pub orphan_change_sets :
    Mapx VersionId (Unit {0}) → Mapx VersionId ChangeSet → Mapx VersionId ChangeSet
orphan_change_sets valid m = filter (λ e. not (Mapx.contains_key valid e.0)) m

unfoldable pub drop_if_empty : RawKey → Exec MapxRawVs Unit
drop_if_empty k = do
  lkv ← get_in layered_kv k
  if is_empty lkv then (do remove_in layered_kv k; pure tt) else pure tt

unfoldable pub drop_orphan_key : VersionId → RawKey → Exec MapxRawVs Unit
unfolding drop_if_empty
drop_orphan_key ver k = do remove_nested layered_kv k ver; drop_if_empty k

unfoldable pub drop_orphan_keys : VersionId × ChangeSet → Exec MapxRawVs Unit
unfolding drop_orphan_key
drop_orphan_keys e = for_each (Mapx.keys e.1) (drop_orphan_key e.0)

unfoldable pub drop_orphan_version : VersionId → Exec MapxRawVs Unit
drop_orphan_version ver = do
  remove_in ver_to_change_set ver
  vername ← remove_in ver_id_to_ver_name ver
  remove_in ver_name_to_ver_id vername
  pure tt

unfoldable pub clean_orphans : Exec MapxRawVs Unit
unfolding valid_vers orphan_change_sets drop_orphan_keys drop_orphan_version
clean_orphans = do
  orphans ← gets (λ s. orphan_change_sets (valid_vers s.br_to_its_vers) s.ver_to_change_set)
  for_each orphans drop_orphan_keys
  for_each (Mapx.keys orphans) drop_orphan_version

-- One round of the loop `'x` on the branches behind the first: each yields `guard`.
abbrev head_is : VersionId → List VersionId → Bool
head_is guard [] = false
head_is guard (ver ∷ vers) = ver == guard

-- The longest common prefix of a branch and the other branches.
unfoldable pub common_prefix : List VersionId → List (List VersionId) → List VersionId
common_prefix [] others = []
common_prefix (guard ∷ first) others =
    if all (head_is guard) others then guard ∷ common_prefix first (map tail others) else []

-- The branches that have versions.
unfoldable pub non_empty_branches : Mapx BranchId VerMap → Mapx BranchId VerMap
non_empty_branches m = filter (λ e. not (is_empty e.1)) m

abbrev pub shared_versions : Mapx BranchId VerMap → List VersionId
shared_versions [] = []
shared_versions ((br, vers) ∷ m) = common_prefix (Mapx.keys vers) (map (λ e. Mapx.keys e.1) m)

unfoldable pub drop_merged_version : List VersionId → BranchId → Exec MapxRawVs Unit
drop_merged_version vers br = for_each vers (λ ver. do remove_nested br_to_its_vers br ver; pure tt)

-- The value of a key moves from a merged version to the version that is written over.
unfoldable pub move_value : VersionId → VersionId → RawKey → Exec MapxRawVs Unit
move_value rewrite_ver ver k = do
  v ← remove_nested layered_kv k ver
  kvers ← get_in layered_kv k
  insert_in layered_kv k (Mapx.insert kvers rewrite_ver v)

abbrev add_keys : ChangeSet → List RawKey → ChangeSet
add_keys chgs ks = foldl (λ acc k. Mapx.insert acc k tt) chgs ks

-- It returns the keys that the merged versions changed.
unfoldable pub merge_versions : VersionId → List VersionId → ChangeSet → Exec MapxRawVs ChangeSet
unfolding move_value
merge_versions rewrite_ver [] kvchgs = pure kvchgs
merge_versions rewrite_ver (ver ∷ vers) kvchgs = do
  chgset ← remove_in ver_to_change_set ver
  for_each (Mapx.keys chgset) (move_value rewrite_ver ver)
  merge_versions rewrite_ver vers (add_keys kvchgs (Mapx.keys chgset))

-- A lowest-level value that says 'deleted' is dropped. It returns what is left of the key's values.
abbrev pub drop_deleted_value : VersionId → RawKey → VerMap → RawValue → Exec MapxRawVs VerMap
drop_deleted_value rewrite_ver k vers [] = do
  insert_in layered_kv k (Mapx.remove vers rewrite_ver)
  chgset ← get_in ver_to_change_set rewrite_ver
  insert_in ver_to_change_set rewrite_ver (Mapx.remove chgset k)
  pure (Mapx.remove vers rewrite_ver)
drop_deleted_value rewrite_ver k vers (b ∷ bs) = pure vers

-- The keys with no value left, of those that the merge changed.
abbrev pub drop_deleted : VersionId → RawKey → Option VerMap → Exec MapxRawVs (List RawKey)
drop_deleted rewrite_ver k none = pure []
drop_deleted rewrite_ver k (some vers) = do
  v ← require (Mapx.get vers rewrite_ver) missing
  left ← drop_deleted_value rewrite_ver k vers v
  pure (if is_empty left then k ∷ [] else [])

unfoldable pub drop_deleted_keys : VersionId → List RawKey → Exec MapxRawVs (List RawKey)
drop_deleted_keys rewrite_ver [] = pure []
drop_deleted_keys rewrite_ver (k ∷ ks) = do
  found ← gets (λ s. Mapx.get s.layered_kv k)
  empty ← drop_deleted rewrite_ver k found
  rest ← drop_deleted_keys rewrite_ver ks
  pure (empty ++ rest)

abbrev pub remove_key : RawKey → Exec MapxRawVs Unit
remove_key k = do remove_in layered_kv k; pure tt

-- The versions `vers_to_be_merged` are merged into `rewrite_ver` and leave every branch.
unfoldable pub merge_into : VersionId → List VersionId → Exec MapxRawVs Unit
unfolding non_empty_branches drop_merged_version merge_versions drop_deleted_keys
merge_into rewrite_ver vers_to_be_merged = do
  brs ← gets (λ s. Mapx.keys (non_empty_branches s.br_to_its_vers))
  for_each brs (drop_merged_version vers_to_be_merged)
  kvchgs ← merge_versions rewrite_ver vers_to_be_merged []
  rewrite_chgset ← get_in ver_to_change_set rewrite_ver
  insert_in ver_to_change_set rewrite_ver (add_keys rewrite_chgset (Mapx.keys kvchgs))
  empty_keys ← drop_deleted_keys rewrite_ver (Mapx.keys kvchgs)
  for_each empty_keys remove_key

-- The first shared version is kept and written over; the last `reserved` of them are kept, but one.
abbrev pub merge_shared : ℕ → List VersionId → Exec MapxRawVs Unit
merge_shared reserved [] = pure tt
merge_shared reserved (rewrite_ver ∷ vers) =
    let l = suc (length vers) in
    if leb l reserved then pure tt else merge_into rewrite_ver (take (l - reserved) vers)

unfoldable pub prune_shared : ℕ → Exec MapxRawVs Unit
unfolding non_empty_branches common_prefix merge_into
prune_shared reserved = do
  shared ← gets (λ s. shared_versions (non_empty_branches s.br_to_its_vers))
  refuse_if (not (all (λ ver. not (ver == ver_id_max)) shared)) panicked
  merge_shared reserved shared

abbrev pub unwrap_or_default : Option ℕ → ℕ
unwrap_or_default none = reserved_version_num_default
unwrap_or_default (some n) = n

-- What the environment of a call decides: the coin `0 == rand::random::<u32>() % 16` that makes it
-- wait for the locks, and whether another thread holds one of them.
pub record Locks : Type 0 where
  pub waits : Bool
  pub busy : Bool

unfoldable pub do_prune : Locks → Option ℕ → Bool → Exec MapxRawVs Unit
unfolding clean_orphans prune_shared
do_prune locks reserved_ver_num clean_only = do
  refuse_if (not locks.waits && locks.busy) lock_busy
  clean_orphans
  let reserved = (1 + unwrap_or_default reserved_ver_num) % u64_mod
  if clean_only then pure tt else do refuse_if (reserved == 0) reserved_zero; prune_shared reserved

unfoldable pub prune : Locks → Option ℕ → Exec MapxRawVs Unit
unfolding do_prune
prune locks reserved_ver_num = do_prune locks reserved_ver_num false

unfoldable pub version_clean_up_globally : Locks → Exec MapxRawVs Unit
unfolding do_prune
version_clean_up_globally locks = do_prune locks none true
