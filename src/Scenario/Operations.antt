-- ===== src/Scenario/Operations.antt =====
-- The theorems on the operations of the version manager, at the states of the run.
use vsdb.Prelude.{◌≡◌, ◌||◌, some, [], ◌∷◌, false, arith, inl, inr}
use vsdb.Common.{RawBytes}
use vsdb.Exec.{ok}
use vsdb.Mapx
use vsdb.Mapx.{at, nat_ord, bytes_ord}
use vsdb.Backend.Data.{get_by_branch, get_by_branch_version, insert_by_branch}
use vsdb.Backend.View.{view, get_by_branch_version-eq-view}
use vsdb.Backend.Branch.{branch_remove}
use vsdb.Backend.Branch.Fork.{get_by_branch_version-branch_create}
use vsdb.Backend.Branch.Remove.Reads.{branch_remove-forgets}
use vsdb.Backend.Branch.{branch_exists, branch_get_id_by_name}
use vsdb.Exec.{err, branch_not_found}
use vsdb.Common.{RawBytes, RawKey, BranchId, VersionId}
use vsdb.Prelude.{if◌then◌else◌, none, ◌>>=?◌, ◌==◌}
use vsdb.Backend.Invariant.{IsValid}
use vsdb.Backend.Merge.{do_branch_merge_to}
use vsdb.Backend.Merge.Reads.{versions-do_branch_merge_to, get_by_branch_version-do_branch_merge_to}
use vsdb.Backend.ReadWrite.{get_by_branch-insert_by_branch, get_by_branch_version-insert_by_branch}
use vsdb.Scenario.{
  k, master, branched, changed, master-IsValid, br_room_master, changed-IsValid, latest-master,
  master_vers, branch_vers, found_master, found_branch, found_base, base_on, unused_name,
  not_diverged, all_merged,
}

get_by_branch_version-eq-view_example : get_by_branch_version changed k 1 2 ≡ view changed k 1 2
get_by_branch_version-eq-view_example =
    get_by_branch_version-eq-view changed k 1 2 (changed-IsValid.kv_sorted k)

get_by_branch-insert_by_branch_example :
    get_by_branch (insert_by_branch k (5 ∷ []) 0 master).1 k 0 ≡ some (5 ∷ [])
get_by_branch-insert_by_branch_example =
    get_by_branch-insert_by_branch master k (5 ∷ []) 0 1 master-IsValid latest-master

get_by_branch_version-insert_by_branch_example :
    get_by_branch_version (insert_by_branch k (5 ∷ []) 0 master).1 k 0 0
    ≡ get_by_branch_version master k 0 0
get_by_branch_version-insert_by_branch_example =
    get_by_branch_version-insert_by_branch master k (5 ∷ []) 0 1 k 0 0 master-IsValid latest-master
      (inr (inl (omega arith)))

get_by_branch_version-branch_create_example :
    get_by_branch_version branched k master.db.br_id 1 ≡ get_by_branch_version master k 0 1
get_by_branch_version-branch_create_example =
    get_by_branch_version-branch_create master (b'f' ∷ []) (some (b'c' ∷ [])) 0 1 master_vers false
      k 1 master-IsValid br_room_master unused_name found_base base_on (omega arith)

branch_remove-forgets_example :
    let t = branch_remove 1 changed in
    (t.0 ≡ (if branch_exists changed 1 then ok tt else err branch_not_found))
    × IsValid t.1
    × ((b : BranchId)
        → Mapx.get t.1.br_to_its_vers b
          ≡ (if b == 1 then none else Mapx.get changed.br_to_its_vers b))
    × ((b : BranchId)
        → Mapx.get t.1.br_id_to_br_name b
          ≡ (if b == 1 then none else Mapx.get changed.br_id_to_br_name b))
    × ((name : RawBytes)
        → branch_get_id_by_name t.1 name
          ≡ (branch_get_id_by_name changed name >>=? λ b. if b == 1 then none else some b))
    × ((key : RawKey) (b : BranchId) (ver : VersionId)
        → get_by_branch_version t.1 key b ver
          ≡ (if b == 1 then none else get_by_branch_version changed key b ver))
branch_remove-forgets_example = branch_remove-forgets changed 1 changed-IsValid

versions-do_branch_merge_to_example :
    Mapx.contains_key (at (do_branch_merge_to 1 0 false changed).1.br_to_its_vers 0) 2
    ≡ (Mapx.contains_key master_vers 2 || Mapx.contains_key branch_vers 2)
versions-do_branch_merge_to_example =
    versions-do_branch_merge_to changed 1 0 false branch_vers master_vers 2 changed-IsValid
      found_branch found_master not_diverged

get_by_branch_version-do_branch_merge_to_example :
    get_by_branch_version (do_branch_merge_to 1 0 false changed).1 k 0 2
    ≡ get_by_branch_version changed k 1 2
get_by_branch_version-do_branch_merge_to_example =
    get_by_branch_version-do_branch_merge_to changed 1 0 false branch_vers master_vers k 2
      changed-IsValid found_branch found_master not_diverged all_merged
