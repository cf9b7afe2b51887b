-- ===== src/Scenario/Clean.antt =====
-- The clean-up of versions, at the states of the run.
use vsdb.Prelude.{◌≡◌, refl, if◌then◌else◌, none, false}
use vsdb.Common.{RawKey, BranchId, VersionId}
use vsdb.Exec.{ok}
use vsdb.Mapx
use vsdb.Mapx.{nat_ord}
use vsdb.Backend.{MapxRawVs}
use vsdb.Backend.Data.{get_by_branch_version}
use vsdb.Backend.Branch.{branch_remove}
use vsdb.Backend.Branch.Remove.{branch_remove-IsValid}
use vsdb.Backend.Invariant.{IsValid}
use vsdb.Backend.Prune.{Locks, version_clean_up_globally}
use vsdb.Backend.Prune.Clean.{on_some_branch, version_clean_up_globally-keeps_reads}
use vsdb.Scenario.{changed, changed-IsValid}

-- Version 2 of the run is on branch 1 only.
abbrev orphaned : MapxRawVs
orphaned = (branch_remove 1 changed).1

orphaned-IsValid : IsValid orphaned
orphaned-IsValid = branch_remove-IsValid changed 1 changed-IsValid

abbrev free : Locks
free = record { waits = false; busy = false }

version_clean_up_globally-keeps_reads_example :
    (t : MapxRawVs) × (version_clean_up_globally free orphaned ≡ (ok tt, t))
    × IsValid t
    × ((key : RawKey) (br : BranchId) (ver : VersionId)
        → get_by_branch_version t key br ver ≡ get_by_branch_version orphaned key br ver)
    × ((n : VersionId)
        → Mapx.get t.ver_to_change_set n ≡ (
            if on_some_branch orphaned.br_to_its_vers n
            then Mapx.get orphaned.ver_to_change_set n
            else none))
version_clean_up_globally-keeps_reads_example =
    version_clean_up_globally-keeps_reads orphaned free orphaned-IsValid refl
