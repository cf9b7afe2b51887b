-- ===== src/Backend/Merge.antt =====
-- core/src/versioned/mapx_raw/backend.rs: the merge of a branch into another.
pub mod Union
pub mod Reads
use Prim.Native.Nat.{compare}
use Prim.Native.Nat.Ordering.{lt, eq, gt}
use vsdb.Prelude.{
  ◌+◌, ◌%◌, Bool, true, false, not, ◌&&◌, Option, none, some, [], ◌∷◌, ◌==◌, if◌then◌else◌,
}
use vsdb.Common.{RawValue, BranchId, VersionId, u64_mod}
use vsdb.Exec.{
  target_branch_not_found, unable_to_merge, Exec, require, gets, refuse_if, ◌>>=◌, ◌>>◌,
}
use vsdb.Mapx
use vsdb.Mapx.{Mapx, nat_ord}
use vsdb.Backend.{MapxRawVs, VerMap}
use vsdb.Backend.Field.{insert_in, br_to_its_vers}
use vsdb.Backend.Version.{versions_of}

-- `target_vers.insert(&ver, [])` for each version of a range
unfoldable pub insert_all : VerMap → VerMap → VerMap
insert_all target [] = target
insert_all target ((ver, v) ∷ vers) = insert_all (Mapx.insert target ver []) vers

-- The first version of the branch that the target does not have at the same place:
-- `vers.iter().zip(target_vers.iter()).find(|(a, b)| a.0 != b.0)`.
unfoldable pub fork_point : VerMap → VerMap → Option VersionId
fork_point [] target = none
fork_point ((a, v) ∷ vers) [] = none
fork_point ((a, v) ∷ vers) ((b, w) ∷ target) = if a == b then fork_point vers target else some a

-- Without a fork point one list is a prefix of the other.
abbrev pub merge_prefix :
    VerMap → VerMap → Option (VersionId × RawValue) → Option (VersionId × RawValue) → VerMap
merge_prefix vers target none target_last = target
merge_prefix vers target (some latest) none = insert_all target vers
merge_prefix vers target (some latest) (some target_latest) =
    elim (compare latest.0 target_latest.0) [
      | eq ↦ target
      | gt ↦ insert_all target (Mapx.range_from vers ((target_latest.0 + 1) % u64_mod))
      | lt ↦ target
    ]

abbrev pub merge_at : VerMap → VerMap → Option VersionId → VerMap
merge_at vers target (some fork) = insert_all target (Mapx.range_from vers fork)
merge_at vers target none = merge_prefix vers target (Mapx.last vers) (Mapx.last target)

-- The versions of the target after the merge.
unfoldable pub merged : VerMap → VerMap → VerMap
unfolding insert_all fork_point
merged vers target = merge_at vers target (fork_point vers target)

-- New versions have been generated on the target branch.
abbrev pub has_diverged : VerMap → Option (VersionId × RawValue) → Bool
has_diverged vers none = false
has_diverged vers (some e) = not (Mapx.contains_key vers e.0)

unfoldable pub do_branch_merge_to : BranchId → BranchId → Bool → Exec MapxRawVs Unit
unfolding versions_of
do_branch_merge_to br_id target_br_id force = do
  vers ← versions_of br_id
  found ← gets (λ s. Mapx.get s.br_to_its_vers target_br_id)
  target_vers ← require found target_branch_not_found
  refuse_if (not force && has_diverged vers (Mapx.last target_vers)) unable_to_merge
  insert_in br_to_its_vers target_br_id (merged vers target_vers)

unfoldable pub branch_merge_to : BranchId → BranchId → Exec MapxRawVs Unit
unfolding do_branch_merge_to
branch_merge_to br_id target_br_id = do_branch_merge_to br_id target_br_id false

unfoldable pub branch_merge_to_force : BranchId → BranchId → Exec MapxRawVs Unit
unfolding do_branch_merge_to
branch_merge_to_force br_id target_br_id = do_branch_merge_to br_id target_br_id true
