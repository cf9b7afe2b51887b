-- ===== src/Backend/Version.antt =====
-- core/src/versioned/mapx_raw/backend.rs: the operations on versions.
pub mod Create
pub mod Pop
use vsdb.Prelude.{
  Bool, false, not, Option, none, some, List, [], ◌∷◌, is_empty, ◌==◌, if◌then◌else◌,
}
use vsdb.Common.{RawKey, RawValue, RawBytes, BranchId, VersionId, alloc_ver_id}
use vsdb.Exec.{
  branch_not_found, version_not_found, version_already_exists, version_not_on_branch,
  base_version_not_on_branch, panicked, Exec, pure, raise, require, gets, modify, refuse_if,
  for_each, ◌>>=◌, ◌>>◌,
}
use vsdb.Mapx
use vsdb.Mapx.{Mapx, nat_ord, bytes_ord}
use vsdb.Backend.{MapxRawVs, VerMap}
use vsdb.Backend.Field.{
  insert_in, get_in, remove_in, remove_nested, ver_name_to_ver_id, br_to_its_vers, layered_kv,
  ver_id_to_ver_name, ver_to_change_set,
}

-- The versions of a branch, or the error "branch not found".
unfoldable pub versions_of : BranchId → Exec MapxRawVs VerMap
versions_of br_id = do
  found ← gets (λ s. Mapx.get s.br_to_its_vers br_id)
  require found branch_not_found

-- `VSDB.alloc_ver_id()`
unfoldable new_version_id : Exec MapxRawVs VersionId
unfolding alloc_ver_id
new_version_id = do
  ver_id ← gets (λ s. (alloc_ver_id s.db).0)
  modify (λ s. record s { db = (alloc_ver_id s.db).1 })
  pure ver_id

unfoldable pub version_create_by_branch : RawBytes → BranchId → Exec MapxRawVs Unit
unfolding versions_of new_version_id
version_create_by_branch ver_name br_id = do
  known ← gets (λ s. Mapx.contains_key s.ver_name_to_ver_id ver_name)
  refuse_if known version_already_exists
  vers ← versions_of br_id
  ver_id ← new_version_id
  insert_in br_to_its_vers br_id (Mapx.insert vers ver_id [])
  insert_in ver_name_to_ver_id ver_name ver_id
  insert_in ver_id_to_ver_name ver_id ver_name
  insert_in ver_to_change_set ver_id []

unfoldable pub version_create : RawBytes → Exec MapxRawVs Unit
unfolding version_create_by_branch
version_create ver_name = do
  br_id ← gets (λ s. s.default_branch)
  version_create_by_branch ver_name br_id

unfoldable pub version_exists_on_branch : MapxRawVs → VersionId → BranchId → Bool
version_exists_on_branch s ver_id br_id = elim (Mapx.get s.br_to_its_vers br_id) [
  | some vers ↦ Mapx.contains_key vers ver_id
  | none ↦ false
]

unfoldable pub version_exists : MapxRawVs → VersionId → Bool
unfolding version_exists_on_branch
version_exists s ver_id = version_exists_on_branch s ver_id s.default_branch

unfoldable pub version_exists_globally : MapxRawVs → VersionId → Bool
version_exists_globally s ver_id = Mapx.contains_key s.ver_to_change_set ver_id

-- The body of `if let Some((ver_id, _)) = vers.last()`.
abbrev pub pop_last : BranchId → VerMap → Option (VersionId × RawValue) → Exec MapxRawVs Unit
pop_last br_id vers none = pure tt
pop_last br_id vers (some e) = do
  require (Mapx.get vers e.0) version_not_on_branch
  insert_in br_to_its_vers br_id (Mapx.remove vers e.0)

unfoldable pub version_pop_by_branch : BranchId → Exec MapxRawVs Unit
unfolding versions_of
version_pop_by_branch br_id = do vers ← versions_of br_id; pop_last br_id vers (Mapx.last vers)

unfoldable pub version_pop : Exec MapxRawVs Unit
unfolding version_pop_by_branch
version_pop = do br_id ← gets (λ s. s.default_branch); version_pop_by_branch br_id

-- The value of one key moves from a merged version to the base version, which records the change.
unfoldable pub rebase_key : VersionId → VersionId → RawKey → Exec MapxRawVs Unit
rebase_key base_version verid k = do
  base_chgset ← get_in ver_to_change_set base_version
  insert_in ver_to_change_set base_version (Mapx.insert base_chgset k tt)
  v ← remove_nested layered_kv k verid
  kvers ← get_in layered_kv k
  insert_in layered_kv k (Mapx.insert kvers base_version v)

unfoldable pub rebase_version : BranchId → VersionId → VersionId → Exec MapxRawVs Unit
unfolding rebase_key
rebase_version br_id base_version verid = do
  chgset ← remove_in ver_to_change_set verid
  for_each (Mapx.keys chgset) (rebase_key base_version verid)
  remove_nested br_to_its_vers br_id verid
  vername ← remove_in ver_id_to_ver_name verid
  remove_in ver_name_to_ver_id vername
  pure tt

-- `brvers` holds the versions of the branch from the base version on.
abbrev pub rebase_onto : BranchId → VersionId → List VersionId → Exec MapxRawVs Unit
rebase_onto br_id base_version [] = raise base_version_not_on_branch
rebase_onto br_id base_version (ver ∷ vers_to_be_merged) =
    if base_version == ver
    then for_each vers_to_be_merged (rebase_version br_id base_version)
    else raise base_version_not_on_branch

unfoldable pub version_rebase_by_branch : VersionId → BranchId → Exec MapxRawVs Unit
unfolding versions_of rebase_version
version_rebase_by_branch base_version br_id = do
  vers ← versions_of br_id
  rebase_onto br_id base_version (Mapx.keys (Mapx.range_from vers base_version))

unfoldable pub version_rebase : VersionId → Exec MapxRawVs Unit
unfolding version_rebase_by_branch
version_rebase base_version = do
  br_id ← gets (λ s. s.default_branch)
  version_rebase_by_branch base_version br_id

abbrev pub version_get_id_by_name : MapxRawVs → RawBytes → Option VersionId
version_get_id_by_name s ver_name = Mapx.get s.ver_name_to_ver_id ver_name

-- The names of versions; the `unwrap` panics at one with no name.
unfoldable pub version_names : List VersionId → Exec MapxRawVs (List RawBytes)
version_names [] = pure []
version_names (ver ∷ vers) = do
  found ← gets (λ s. Mapx.get s.ver_id_to_ver_name ver)
  name ← require found panicked
  rest ← version_names vers
  pure (name ∷ rest)

unfoldable pub version_list_by_branch : BranchId → Exec MapxRawVs (List RawBytes)
unfolding version_names
version_list_by_branch br_id = do vers ← get_in br_to_its_vers br_id; version_names (Mapx.keys vers)

unfoldable pub version_list : Exec MapxRawVs (List RawBytes)
unfolding version_list_by_branch
version_list = do br_id ← gets (λ s. s.default_branch); version_list_by_branch br_id

unfoldable pub version_list_globally : Exec MapxRawVs (List RawBytes)
unfolding version_names
version_list_globally = do vers ← gets (λ s. Mapx.keys s.ver_to_change_set); version_names vers

unfoldable pub version_has_change_set : VersionId → Exec MapxRawVs Bool
version_has_change_set ver_id = do
  chgset ← get_in ver_to_change_set ver_id
  pure (not (is_empty chgset))

-- `decode_map(vers).remove(ver_id)` on every branch
abbrev pub remove_from_branches : VersionId → Mapx BranchId VerMap → Mapx BranchId VerMap
remove_from_branches ver_id [] = []
remove_from_branches ver_id ((br_id, vers) ∷ m) =
    (br_id, Mapx.remove vers ver_id) ∷ remove_from_branches ver_id m

abbrev pub revert_key : VersionId → RawKey → Exec MapxRawVs Unit
revert_key ver_id key = do remove_nested layered_kv key ver_id; pure tt

unfoldable pub version_revert_globally : VersionId → Exec MapxRawVs Unit
version_revert_globally ver_id = do
  chgset ← remove_in ver_to_change_set ver_id
  for_each (Mapx.keys chgset) (revert_key ver_id)
  modify (λ s. record s { br_to_its_vers = remove_from_branches ver_id s.br_to_its_vers })
  vername ← remove_in ver_id_to_ver_name ver_id
  remove_in ver_name_to_ver_id vername
  pure tt

-- The entries that `trie_root` of the `ruc` crate digests.
unfoldable pub chgset_entries : VersionId → List RawKey → Exec MapxRawVs (List (RawKey × RawValue))
chgset_entries ver [] = pure []
chgset_entries ver (k ∷ ks) = do
  found ← gets (λ s. Mapx.get s.layered_kv k)
  kvers ← require found panicked
  v ← require (Mapx.get kvers ver) panicked
  rest ← chgset_entries ver ks
  pure ((k, v) ∷ rest)

abbrev pub trie_root_version : Option BranchId → Option VersionId → Exec MapxRawVs VersionId
trie_root_version br_id (some v) = pure v
trie_root_version (some br) none = do
  vers ← versions_of br
  e ← require (Mapx.last vers) version_not_found
  pure e.0
trie_root_version none none = do
  br ← gets (λ s. s.default_branch)
  vers ← versions_of br
  e ← require (Mapx.last vers) version_not_found
  pure e.0

unfoldable pub version_chgset_trie_root :
    (List (RawKey × RawValue) → RawBytes)
    → Option BranchId
    → Option VersionId
    → Exec MapxRawVs RawBytes
unfolding versions_of chgset_entries
version_chgset_trie_root trie_root br_id ver_id = do
  ver ← trie_root_version br_id ver_id
  chgset ← get_in ver_to_change_set ver
  entries ← chgset_entries ver (Mapx.keys chgset)
  pure (trie_root entries)
