-- ===== src/MultiKeyVs/View.antt =====
-- What can be read of a version manager of maps with keys of several parts, and what its states hold.
use vsdb.Prelude.{◌≤◌, ◌<◌, ◌≡◌, true, Option, none, some, ◌>>=?◌, if◌then◌else◌, length, arith}
use vsdb.Common.{RawValue, BranchId, VersionId}
use vsdb.Mapx
use vsdb.Mapx.{Mapx, at, or_empty, nat_ord, bytes_ord}
use vsdb.Mapx.Sorted.{newest, IsSorted, get-last, get_above-last}
use vsdb.MultiKey
use vsdb.MultiKey.{MapxRawMk}
use vsdb.MultiKey.Keys.{RawKeys, keys_ord}
use vsdb.MultiKey.Prefix.{IsTree}
use vsdb.Backend.{VerMap}
use vsdb.Backend.Data.{non_empty}
use vsdb.Backend.View.{read-eq-newest}
use vsdb.MultiKeyVs.{MapxRawMkVs}
use vsdb.MultiKeyVs.Data.{get_by_branch_version, get_by_branch, latest_version}
use vsdb.Exec.{ok}

-- The value that one version of a branch holds for a key, over any versions and layers.
abbrev pub visible : VerMap → VerMap → VersionId → Option RawValue
visible vers kvers n = if Mapx.contains_key vers n then Mapx.get kvers n else none

abbrev pub view : MapxRawMkVs → RawKeys → BranchId → VersionId → Option RawValue
view s key br ver =
    newest (visible (at s.br_to_its_vers br) (at s.layered_kv key)) ver >>=? non_empty

pub record IsValid (s : MapxRawMkVs) : Type 0 where
  pub sized : 0 < s.key_size
  pub vers_sorted : (br : BranchId) → IsSorted (at s.br_to_its_vers br)
  pub kv_sorted : (key : RawKeys) → IsSorted (at s.layered_kv key)
  pub versions_sorted : IsSorted s.ver_to_change_set
  -- the versions of a branch have change sets
  pub recorded :
      (br : BranchId) (n : VersionId)
      → Mapx.contains_key (at s.br_to_its_vers br) n ≡ true
      → Mapx.contains_key s.ver_to_change_set n ≡ true
  -- a change set is a map with keys of the same number of parts
  pub change_sized :
      (n : VersionId) (cs : MapxRawMk)
      → Mapx.get s.ver_to_change_set n ≡ some cs
      → cs.key_size ≡ s.key_size
  pub change_tree :
      (n : VersionId) (cs : MapxRawMk)
      → Mapx.get s.ver_to_change_set n ≡ some cs
      → IsTree cs.key_size cs.inner
  -- no identifier is in use that the allocator has not given out
  pub allocated : (n : VersionId) → s.db.ver_id ≤ n → Mapx.get s.ver_to_change_set n ≡ none

-- The layers hold what the change sets hold.
abbrev pub IsCoherent : MapxRawMkVs → Type 0
IsCoherent s =
    (n : VersionId) (key : RawKeys)
    → length key ≡ s.key_size
    → Mapx.get (at s.layered_kv key) n
      ≡ (Mapx.get s.ver_to_change_set n >>=? λ cs. MultiKey.get cs key)

pub read-eq-view :
    (s : MapxRawMkVs) (key : RawKeys) (br : BranchId) (ver : VersionId)
    → IsSorted (at s.layered_kv key)
    → get_by_branch_version s key br ver ≡ view s key br ver
unfolding get_by_branch_version
read-eq-view s key br ver sorted =
    read-eq-newest (Mapx.get s.br_to_its_vers br) (Mapx.get s.layered_kv key) ver sorted

-- A branch that is there with its latest version.
pub record IsLatest (s : MapxRawMkVs) (br : BranchId) (n : VersionId) : Type 0 where
  pub vers : VerMap
  pub mark : RawValue
  pub found : Mapx.get s.br_to_its_vers br ≡ some vers
  pub is_last : Mapx.last vers ≡ some (n, mark)

module _ (s : MapxRawMkVs) (br : BranchId) (n : VersionId) (valid : IsValid s)
    (l : IsLatest s br n) where
  in_order : IsSorted l.vers
  in_order = rw l.found at (valid.vers_sorted br)

  pub latest_on : Mapx.contains_key (at s.br_to_its_vers br) n ≡ true
  latest_on = rw l.found (rw (get-last 0 l.vers n l.mark in_order l.is_last))

  above_latest : (m : VersionId) → n < m → Mapx.get (at s.br_to_its_vers br) m ≡ none
  above_latest m lt = rw l.found (get_above-last 0 l.vers n l.mark m in_order l.is_last lt)

  pub latest_recorded : Mapx.contains_key s.ver_to_change_set n ≡ true
  latest_recorded = valid.recorded br n latest_on

pub latest_version-latest :
    (s : MapxRawMkVs) (br : BranchId) (n : VersionId)
    → IsLatest s br n
    → latest_version br s ≡ (ok n, s)
unfolding latest_version
latest_version-latest s br n l = ground (arith, l.found, l.is_last)

pub get_by_branch-latest :
    (s : MapxRawMkVs) (key : RawKeys) (br : BranchId) (n : VersionId)
    → IsLatest s br n
    → get_by_branch s key br ≡ get_by_branch_version s key br n
unfolding get_by_branch
get_by_branch-latest s key br n l = rw l.found (rw l.is_last)
