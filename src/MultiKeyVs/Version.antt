-- ===== src/MultiKeyVs/Version.antt =====
-- wrappers/src/versioned_multi_key/mapx_raw/backend.rs: the operations on versions.
pub mod Keeps
use vsdb.Prelude.{
  Bool, true, false, not, Option, none, some, List, [], ◌∷◌, ◌++◌, filter, foldl, ◌==◌,
  if◌then◌else◌,
}
use vsdb.Common.{RawKey, RawValue, RawBytes, BranchId, VersionId, alloc_ver_id}
use vsdb.Exec.{
  branch_not_found, version_not_found, version_already_exists, version_not_on_branch,
  base_version_not_on_branch, panicked, Exec, pure, raise, require, gets, modify, refuse_if,
  for_each, ◌>>=◌, ◌>>◌,
}
use Prim.Native.Nat.Ordering.{eq}
use vsdb.Mapx
use vsdb.Mapx.{Mapx, nat_ord, bytes_ord, cmp_bytes}
use vsdb.MultiKey
use vsdb.MultiKey.{MapxRawMk, is_empty, iter_op}
use vsdb.MultiKey.Keys.{RawKeys, keys_ord}
use vsdb.Backend.{VerMap}
use vsdb.Backend.Version.{remove_from_branches}
use vsdb.MultiKeyVs.{MapxRawMkVs}
use vsdb.MultiKeyVs.Field.{
  insert_in, get_in, remove_in, remove_nested, ver_name_to_ver_id, br_to_its_vers, layered_kv,
  ver_id_to_ver_name, ver_to_change_set,
}
use vsdb.MultiKeyVs.Data.{in_change_set}

abbrev no_layers : VerMap → Bool
no_layers [] = true
no_layers (e ∷ m) = false

-- `assert_eq!(&vv, v)`
abbrev pub same_bytes : RawValue → RawValue → Bool
same_bytes vv v = elim (cmp_bytes vv v) [ eq ↦ true | _ ↦ false ]

-- `k.iter().flat_map(|k| k.iter())`
abbrev pub concat : RawKeys → RawKey
concat [] = []
concat (k ∷ ks) = k ++ concat ks

-- The versions of a branch, or the error "branch not found".
unfoldable pub versions_of : BranchId → Exec MapxRawMkVs VerMap
versions_of br_id = do
  found ← gets (λ s. Mapx.get s.br_to_its_vers br_id)
  require found branch_not_found

-- `VSDB.alloc_ver_id()`
unfoldable pub new_version_id : Exec MapxRawMkVs VersionId
unfolding alloc_ver_id
new_version_id = do
  ver_id ← gets (λ s. (alloc_ver_id s.db).0)
  modify (λ s. record s { db = (alloc_ver_id s.db).1 })
  pure ver_id

unfoldable pub version_create_by_branch : RawBytes → BranchId → Exec MapxRawMkVs Unit
unfolding versions_of new_version_id MultiKey.new
version_create_by_branch ver_name br_id = do
  known ← gets (λ s. Mapx.contains_key s.ver_name_to_ver_id ver_name)
  refuse_if known version_already_exists
  vers ← versions_of br_id
  ver_id ← new_version_id
  insert_in br_to_its_vers br_id (Mapx.insert vers ver_id [])
  insert_in ver_name_to_ver_id ver_name ver_id
  insert_in ver_id_to_ver_name ver_id ver_name
  size ← gets (λ s. s.key_size)
  chgset ← (λ s. (MultiKey.new size, s))
  insert_in ver_to_change_set ver_id chgset

unfoldable pub version_create : RawBytes → Exec MapxRawMkVs Unit
unfolding version_create_by_branch
version_create ver_name = do
  br_id ← gets (λ s. s.default_branch)
  version_create_by_branch ver_name br_id

unfoldable pub version_exists_on_branch : MapxRawMkVs → VersionId → BranchId → Bool
version_exists_on_branch s ver_id br_id = elim (Mapx.get s.br_to_its_vers br_id) [
  | some vers ↦ Mapx.contains_key vers ver_id
  | none ↦ false
]

unfoldable pub version_exists : MapxRawMkVs → VersionId → Bool
unfolding version_exists_on_branch
version_exists s ver_id = version_exists_on_branch s ver_id s.default_branch

unfoldable pub version_exists_globally : MapxRawMkVs → VersionId → Bool
version_exists_globally s ver_id = Mapx.contains_key s.ver_to_change_set ver_id

-- The body of `if let Some((ver_id, _)) = vers.last()`.
abbrev pub pop_last : BranchId → VerMap → Option (VersionId × RawValue) → Exec MapxRawMkVs Unit
pop_last br_id vers none = pure tt
pop_last br_id vers (some e) = do
  require (Mapx.get vers e.0) version_not_on_branch
  insert_in br_to_its_vers br_id (Mapx.remove vers e.0)

unfoldable pub version_pop_by_branch : BranchId → Exec MapxRawMkVs Unit
unfolding versions_of
version_pop_by_branch br_id = do vers ← versions_of br_id; pop_last br_id vers (Mapx.last vers)

unfoldable pub version_pop : Exec MapxRawMkVs Unit
unfolding version_pop_by_branch
version_pop = do br_id ← gets (λ s. s.default_branch); version_pop_by_branch br_id

-- The value of one key moves from a merged version to the base version, which records it.
unfoldable pub rebase_key : VersionId → VersionId → RawKeys → RawValue → Exec MapxRawMkVs Unit
rebase_key base_version verid k v = do
  vv ← remove_nested layered_kv k verid
  if same_bytes vv v then pure tt else raise panicked
  kvers ← get_in layered_kv k
  insert_in layered_kv k (Mapx.insert kvers base_version vv)
  in_change_set base_version (MultiKey.insert k v)
  pure tt

unfoldable pub rebase_version : BranchId → VersionId → VersionId → Exec MapxRawMkVs Unit
unfolding rebase_key iter_op
rebase_version br_id base_version verid = do
  chgset ← remove_in ver_to_change_set verid
  iter_op chgset (rebase_key base_version verid)
  remove_nested br_to_its_vers br_id verid
  vername ← remove_in ver_id_to_ver_name verid
  remove_in ver_name_to_ver_id vername
  pure tt

-- `brvers` holds the versions of the branch from the base version on.
abbrev pub rebase_onto : BranchId → VersionId → List VersionId → Exec MapxRawMkVs Unit
rebase_onto br_id base_version [] = raise base_version_not_on_branch
rebase_onto br_id base_version (ver ∷ vers_to_be_merged) =
    if base_version == ver
    then get_in ver_to_change_set base_version
      >> for_each vers_to_be_merged (rebase_version br_id base_version)
    else raise base_version_not_on_branch

unfoldable pub version_rebase_by_branch : VersionId → BranchId → Exec MapxRawMkVs Unit
unfolding versions_of rebase_version
version_rebase_by_branch base_version br_id = do
  vers ← versions_of br_id
  rebase_onto br_id base_version (Mapx.keys (Mapx.range_from vers base_version))

unfoldable pub version_rebase : VersionId → Exec MapxRawMkVs Unit
unfolding version_rebase_by_branch
version_rebase base_version = do
  br_id ← gets (λ s. s.default_branch)
  version_rebase_by_branch base_version br_id

abbrev pub version_get_id_by_name : MapxRawMkVs → RawBytes → Option VersionId
version_get_id_by_name s ver_name = Mapx.get s.ver_name_to_ver_id ver_name

-- The names of versions; the `unwrap` panics at one with no name.
unfoldable pub version_names : List VersionId → Exec MapxRawMkVs (List RawBytes)
version_names [] = pure []
version_names (ver ∷ vers) = do
  found ← gets (λ s. Mapx.get s.ver_id_to_ver_name ver)
  name ← require found panicked
  rest ← version_names vers
  pure (name ∷ rest)

unfoldable pub version_list_by_branch : BranchId → Exec MapxRawMkVs (List RawBytes)
unfolding version_names
version_list_by_branch br_id = do vers ← get_in br_to_its_vers br_id; version_names (Mapx.keys vers)

unfoldable pub version_list : Exec MapxRawMkVs (List RawBytes)
unfolding version_list_by_branch
version_list = do br_id ← gets (λ s. s.default_branch); version_list_by_branch br_id

unfoldable pub version_list_globally : Exec MapxRawMkVs (List RawBytes)
unfolding version_names
version_list_globally = do vers ← gets (λ s. Mapx.keys s.ver_to_change_set); version_names vers

unfoldable pub version_has_change_set : VersionId → Exec MapxRawMkVs Bool
unfolding is_empty
version_has_change_set ver_id = do
  chgset ← get_in ver_to_change_set ver_id
  pure (not (is_empty chgset))

-- `HashSet` of the versions of all branches
unfoldable pub valid_vers : Mapx BranchId VerMap → Mapx VersionId (Unit {0})
valid_vers [] = []
valid_vers ((br, vers) ∷ m) =
    foldl (λ acc ver. Mapx.insert acc ver tt) (valid_vers m) (Mapx.keys vers)

unfoldable pub drop_orphan_key : VersionId → RawKeys → RawValue → Exec MapxRawMkVs Unit
drop_orphan_key ver k v = do
  remove_nested layered_kv k ver
  lkv ← get_in layered_kv k
  if no_layers lkv then (do remove_in layered_kv k; pure tt) else pure tt

unfoldable pub drop_orphan_version : VersionId × MapxRawMk → Exec MapxRawMkVs Unit
unfolding drop_orphan_key iter_op
drop_orphan_version e = do
  iter_op e.1 (drop_orphan_key e.0)
  remove_in ver_to_change_set e.0
  vername ← remove_in ver_id_to_ver_name e.0
  remove_in ver_name_to_ver_id vername
  pure tt

unfoldable pub version_clean_up_globally : Exec MapxRawMkVs Unit
unfolding valid_vers drop_orphan_version
version_clean_up_globally = do
  valid ← gets (λ s. valid_vers s.br_to_its_vers)
  orphans ← gets (λ s. filter (λ e. not (Mapx.contains_key valid e.0)) s.ver_to_change_set)
  for_each orphans drop_orphan_version

abbrev pub revert_key : VersionId → RawKeys → RawValue → Exec MapxRawMkVs Unit
revert_key ver_id key v = do remove_nested layered_kv key ver_id; pure tt

unfoldable pub version_revert_globally : VersionId → Exec MapxRawMkVs Unit
unfolding iter_op
version_revert_globally ver_id = do
  chgset ← remove_in ver_to_change_set ver_id
  iter_op chgset (revert_key ver_id)
  modify (λ s. record s { br_to_its_vers = remove_from_branches ver_id s.br_to_its_vers })
  vername ← remove_in ver_id_to_ver_name ver_id
  remove_in ver_name_to_ver_id vername
  pure tt

abbrev pub trie_root_version : Option BranchId → Option VersionId → Exec MapxRawMkVs VersionId
trie_root_version br_id (some v) = pure v
trie_root_version (some br) none = do
  vers ← versions_of br
  e ← require (Mapx.last vers) version_not_found
  pure e.0
trie_root_version none none = do
  br ← gets (λ s. s.default_branch)
  vers ← versions_of br
  e ← require (Mapx.last vers) version_not_found
  pure e.0

-- The entries that `trie_root` of the `ruc` crate digests: the parts of a key are put together.
unfoldable pub version_chgset_trie_root :
    (List (RawKey × RawValue) → RawBytes)
    → Option BranchId
    → Option VersionId
    → Exec MapxRawMkVs RawBytes
unfolding versions_of iter_op
version_chgset_trie_root trie_root br_id ver_id = do
  ver ← trie_root_version br_id ver_id
  chgset ← get_in ver_to_change_set ver
  pure (trie_root (iter_op chgset (λ k v. modify (λ es. es ++ ((concat k, v) ∷ []))) []).1)
