-- ===== src/Backend/Invariant.antt =====
-- What holds of every state that the operations of backend.rs reach.
pub mod SetVersions
pub mod New
use vsdb.Prelude.{ℕ, ◌≤◌, ◌<◌, ◌≡◌, ◌↔◌, Bool, true, none, some, is_some}
use vsdb.Common.{RawBytes, RawKey, BranchId, VersionId, u64_mod}
use vsdb.Exec.{Exec}
use vsdb.Mapx
use vsdb.Mapx.{at, nat_ord, bytes_ord}
use vsdb.Mapx.Sorted.{IsSorted}
use vsdb.Mapx.Ascending.{IsAscending}
use vsdb.Backend.{MapxRawVs}

-- The versions, the values and the change sets agree.
pub record IsConsistent (s : MapxRawVs) : Type 0 where
  pub vers_sorted : (br : BranchId) → IsSorted (at s.br_to_its_vers br)
  pub kv_sorted : (key : RawKey) → IsSorted (at s.layered_kv key)
  pub keys_sorted : IsAscending s.layered_kv
  pub changes_sorted : (n : VersionId) → IsAscending (at s.ver_to_change_set n)
  pub versions_sorted : IsSorted s.ver_to_change_set
  -- the versions of a branch have change sets
  pub recorded :
      (br : BranchId) (n : VersionId)
      → Mapx.contains_key (at s.br_to_its_vers br) n ≡ true
      → Mapx.contains_key s.ver_to_change_set n ≡ true
  -- no identifier is in use that the allocator has not given out
  pub allocated : (n : VersionId) → s.db.ver_id ≤ n → Mapx.get s.ver_to_change_set n ≡ none
  -- the counter is a u64
  pub in_range : s.db.ver_id < u64_mod
  -- a change set holds the keys that have a value at its version
  pub changes :
      (n : VersionId) (key : RawKey)
      → Mapx.contains_key (at s.ver_to_change_set n) key ≡ Mapx.contains_key (at s.layered_kv key) n

-- The tables of names invert one another.
pub record IsNamed (s : MapxRawVs) : Type 0 where
  pub ver_names :
      (name : RawBytes) (n : VersionId)
      → (Mapx.get s.ver_name_to_ver_id name ≡ some n)
        ↔ (Mapx.get s.ver_id_to_ver_name n ≡ some name)
  pub ver_named :
      (n : VersionId)
      → Mapx.contains_key s.ver_id_to_ver_name n ≡ Mapx.contains_key s.ver_to_change_set n
  pub br_names :
      (name : RawBytes) (br : BranchId)
      → (Mapx.get s.br_name_to_br_id name ≡ some br) ↔ (Mapx.get s.br_id_to_br_name br ≡ some name)
  pub br_named :
      (br : BranchId)
      → Mapx.contains_key s.br_id_to_br_name br ≡ Mapx.contains_key s.br_to_its_vers br
  pub br_allocated : (br : BranchId) → s.db.br_id ≤ br → Mapx.get s.br_to_its_vers br ≡ none

pub record IsValid (s : MapxRawVs) : Type 0 where
  pub consistent : IsConsistent s
  pub open consistent use *
  pub named : IsNamed s
  pub open named use *
