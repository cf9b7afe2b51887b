-- ===== src/Backend/Reach.antt =====
-- The states that a run of the version manager passes through: a new one, and then any sequence of
-- operations with any arguments, those that fail included.
use vsdb.Prelude.{◌+◌, ◌<◌, Bool, Option, List}
use vsdb.Common.{RawBytes, RawKey, RawValue, BranchId, VersionId, Allocator, u64_mod}
use vsdb.Backend.{MapxRawVs, new}
use vsdb.Backend.Data.{insert_by_branch, remove_by_branch}
use vsdb.Backend.Data.Keeps.{insert_by_branch-IsValid, remove_by_branch-IsValid}
use vsdb.Backend.Version.{version_create_by_branch, version_pop_by_branch}
use vsdb.Backend.Version.Create.{version_create_by_branch-IsValid}
use vsdb.Backend.Version.Pop.{version_pop_by_branch-IsValid}
use vsdb.Backend.Branch.{
  do_branch_create_by_base_branch_version, branch_remove, branch_truncate, branch_truncate_to,
  branch_set_default, branch_swap, branch_keep_only,
}
use vsdb.Backend.Branch.Fork.{do_branch_create_by_base_branch_version-IsValid}
use vsdb.Backend.Branch.Remove.{branch_remove-IsValid}
use vsdb.Backend.Branch.Truncate.{branch_truncate-IsValid}
use vsdb.Backend.Branch.Truncate.To.{branch_truncate_to-IsValid}
use vsdb.Backend.Branch.Default.{branch_set_default-IsValid}
use vsdb.Backend.Branch.Swap.{branch_swap-IsValid}
use vsdb.Backend.Branch.Keep.{branch_keep_only-IsValid}
use vsdb.Backend.Prune.{Locks, version_clean_up_globally}
use vsdb.Backend.Prune.Clean.{version_clean_up_globally-IsValid}
use vsdb.Backend.Merge.{do_branch_merge_to}
use vsdb.Backend.Merge.Reads.{do_branch_merge_to-IsValid}
use vsdb.Backend.Invariant.{IsValid}
use vsdb.Backend.Invariant.New.{new-IsValid}

-- One operation. What takes an identifier from the engine needs that one is left.
pub data Step : MapxRawVs → MapxRawVs → Type 0 where
  insert :
      (s : MapxRawVs) (key : RawKey) (value : RawValue) (br : BranchId)
      → Step s (insert_by_branch key value br s).1
  remove : (s : MapxRawVs) (key : RawKey) (br : BranchId) → Step s (remove_by_branch key br s).1
  create_version :
      (s : MapxRawVs) (name : RawBytes) (br : BranchId)
      → 1 + s.db.ver_id < u64_mod
      → Step s (version_create_by_branch name br s).1
  pop_version : (s : MapxRawVs) (br : BranchId) → Step s (version_pop_by_branch br s).1
  create_branch :
      (s : MapxRawVs) (name : RawBytes) (ver_name : Option RawBytes) (base : BranchId)
      (base_ver : Option VersionId) (force : Bool)
      → 1 + s.db.br_id < u64_mod
      → 1 + s.db.ver_id < u64_mod
      → Step s (do_branch_create_by_base_branch_version name ver_name base base_ver force s).1
  remove_branch : (s : MapxRawVs) (br : BranchId) → Step s (branch_remove br s).1
  truncate : (s : MapxRawVs) (br : BranchId) → Step s (branch_truncate br s).1
  truncate_to :
      (s : MapxRawVs) (br : BranchId) (last_ver : VersionId)
      → last_ver + 1 < u64_mod
      → Step s (branch_truncate_to br last_ver s).1
  merge :
      (s : MapxRawVs) (br target : BranchId) (force : Bool)
      → Step s (do_branch_merge_to br target force s).1
  set_default : (s : MapxRawVs) (br : BranchId) → Step s (branch_set_default br s).1
  swap : (s : MapxRawVs) (branch_1 branch_2 : RawBytes) → Step s (branch_swap branch_1 branch_2 s).1
  clean_up : (s : MapxRawVs) (locks : Locks) → Step s (version_clean_up_globally locks s).1
  keep_only :
      (s : MapxRawVs) (locks : Locks) (br_ids : List BranchId)
      → Step s (branch_keep_only locks br_ids s).1

pub data Reach (db : Allocator) : MapxRawVs → Type 0 where
  started : Reach db (new db)
  then_step : {s t : MapxRawVs} → Reach db s → Step s t → Reach db t

Step-IsValid : {s t : MapxRawVs} → Step s t → IsValid s → IsValid t
Step-IsValid (insert s key value br) valid = insert_by_branch-IsValid s key value br valid
Step-IsValid (remove s key br) valid = remove_by_branch-IsValid s key br valid
Step-IsValid (create_version s name br room) valid =
    version_create_by_branch-IsValid s name br room valid
Step-IsValid (pop_version s br) valid = version_pop_by_branch-IsValid s br valid
Step-IsValid (create_branch s name ver_name base base_ver force br_room ver_room) valid =
    do_branch_create_by_base_branch_version-IsValid s name ver_name base base_ver force br_room
      ver_room valid
Step-IsValid (remove_branch s br) valid = branch_remove-IsValid s br valid
Step-IsValid (truncate s br) valid = branch_truncate-IsValid s br valid
Step-IsValid (truncate_to s br last_ver small) valid =
    branch_truncate_to-IsValid s br last_ver small valid
Step-IsValid (merge s br target force) valid = do_branch_merge_to-IsValid s br target force valid
Step-IsValid (set_default s br) valid = branch_set_default-IsValid s br valid
Step-IsValid (swap s branch_1 branch_2) valid = branch_swap-IsValid s branch_1 branch_2 valid
Step-IsValid (clean_up s locks) valid = version_clean_up_globally-IsValid s locks valid
Step-IsValid (keep_only s locks br_ids) valid = branch_keep_only-IsValid s locks br_ids valid

-- Every state of a run is valid, if the engine's counters start in their ranges, the engine has
-- identifiers left at each creation of a version or branch, and no truncation is to the greatest
-- identifier.
pub Reach-IsValid :
    (db : Allocator) (s : MapxRawVs) → 0 < db.br_id → db.ver_id < u64_mod → Reach db s → IsValid s
Reach-IsValid db s br ver started = new-IsValid db br ver
Reach-IsValid db t br ver (then_step {s} reach step) =
    Step-IsValid step (Reach-IsValid db s br ver reach)
