-- ===== src/Scenario.antt =====
-- A run of the version manager: two versions on `master`, a branch
-- that starts at the second one, and writes on both.
pub mod Named
pub mod Clean
pub mod Encoding
pub mod Store
pub mod Instances
pub mod Vectors
pub mod Merging
pub mod MultiKeys
pub mod Operations
use vsdb.Prelude.{
  ◌≡◌, ◌≢◌, ◌||◌, ◌&&◌, not, if◌then◌else◌, ◌<◌, ◌+◌, refl, none, some, [], ◌∷◌, true, false, arith,
  inl, inr, is_some,
}
use vsdb.Common.{new_allocator, RawBytes, RawKey, VersionId, u64_mod}
use vsdb.Exec.{ok, err, no_version, branch_not_found}
use vsdb.Mapx
use vsdb.Mapx.{at, nat_ord, bytes_ord}
use vsdb.Backend.{MapxRawVs, VerMap, new}
use vsdb.Backend.Data.{get_by_branch, get_by_branch_version, insert_by_branch, remove_by_branch}
use vsdb.Backend.Data.Keeps.{insert_by_branch-IsValid}
use vsdb.Backend.View.{view, get_by_branch_version-eq-view}
use vsdb.Backend.Version.{version_create_by_branch, version_pop_by_branch}
use vsdb.Backend.Version.Create.{
  get_by_branch-eq-view_next, version_create_by_branch-IsValid,
  get_by_branch_version-version_create_by_branch, get_by_branch-version_create_by_branch,
}
use vsdb.Backend.Version.Pop.{
  get_by_branch_version-version_pop_by_branch, get_by_branch-version_pop_by_branch,
}
use vsdb.Backend.Branch.{do_branch_create_by_base_branch_version, branch_remove}
use vsdb.Backend.Branch.Fork.{
  do_branch_create_by_base_branch_version-IsValid, get_by_branch_version-branch_create,
  get_by_branch_version-branch_create_ne,
}
use vsdb.Backend.Merge.{do_branch_merge_to, has_diverged}
use vsdb.Backend.Merge.Reads.{
  versions-do_branch_merge_to, get_by_branch_version-do_branch_merge_to,
  get_by_branch_version-do_branch_merge_to_ne,
}
use vsdb.Backend.Invariant.{IsValid}
use vsdb.Backend.Invariant.New.{new-IsValid}
use vsdb.Backend.Write.{written}
use vsdb.Backend.ReadWrite.{
  latest, insert_by_branch-latest, remove_by_branch-latest, writers_fail,
  get_by_branch-insert_by_branch, get_by_branch-remove_by_branch,
  get_by_branch_version-insert_by_branch, get_by_branch_version-remove_by_branch,
}

abbrev pub k : RawKey
k = b'k' ∷ []

abbrev pub start : MapxRawVs
start = new new_allocator

abbrev pub created_a : MapxRawVs
created_a = (version_create_by_branch (b'a' ∷ []) 0 start).1

abbrev pub inserted_a : MapxRawVs
inserted_a = (insert_by_branch k (7 ∷ []) 0 created_a).1

abbrev created_b : MapxRawVs
created_b = (version_create_by_branch (b'b' ∷ []) 0 inserted_a).1

-- `master` has the versions 0 and 1, with the values 7 and 8.
abbrev pub master : MapxRawVs
master = (insert_by_branch k (8 ∷ []) 0 created_b).1

-- Branch 1 starts at version 1 and has version 2 of its own.
abbrev pub branched : MapxRawVs
branched =
    (do_branch_create_by_base_branch_version (b'f' ∷ []) (some (b'c' ∷ [])) 0 (some 1) false
      master).1

abbrev pub changed : MapxRawVs
changed = (insert_by_branch k (9 ∷ []) 1 branched).1

-- What the branches read at the end.
changed_reads :
    (get_by_branch changed k 0 ≡ some (8 ∷ []))
    × (get_by_branch changed k 1 ≡ some (9 ∷ []))
    × (get_by_branch_version changed k 1 0 ≡ some (7 ∷ []))
unfolding new version_create_by_branch insert_by_branch do_branch_create_by_base_branch_version
    get_by_branch Mapx.get Mapx.insert Mapx.last Mapx.range_to Mapx.find_rev
changed_reads = (refl, refl, refl)

start-IsValid : IsValid start
start-IsValid = new-IsValid new_allocator (omega arith) (omega arith)

pub room_start : 1 + start.db.ver_id < u64_mod
unfolding new
room_start = omega arith

created_a-IsValid : IsValid created_a
created_a-IsValid = version_create_by_branch-IsValid start (b'a' ∷ []) 0 room_start start-IsValid

inserted_a-IsValid : IsValid inserted_a
inserted_a-IsValid = insert_by_branch-IsValid created_a k (7 ∷ []) 0 created_a-IsValid

room_inserted_a : 1 + inserted_a.db.ver_id < u64_mod
unfolding new version_create_by_branch insert_by_branch Mapx.get Mapx.insert Mapx.last Mapx.range_to
    Mapx.find_rev
room_inserted_a = omega arith

created_b-IsValid : IsValid created_b
created_b-IsValid =
    version_create_by_branch-IsValid inserted_a (b'b' ∷ []) 0 room_inserted_a inserted_a-IsValid

pub master-IsValid : IsValid master
master-IsValid = insert_by_branch-IsValid created_b k (8 ∷ []) 0 created_b-IsValid

ver_room_master : 1 + master.db.ver_id < u64_mod
unfolding new version_create_by_branch insert_by_branch Mapx.get Mapx.insert Mapx.last Mapx.range_to
    Mapx.find_rev
ver_room_master = omega arith

pub br_room_master : 1 + master.db.br_id < u64_mod
unfolding new version_create_by_branch insert_by_branch Mapx.get Mapx.insert Mapx.last Mapx.range_to
    Mapx.find_rev
br_room_master = omega arith

branched-IsValid : IsValid branched
branched-IsValid =
    do_branch_create_by_base_branch_version-IsValid master (b'f' ∷ []) (some (b'c' ∷ [])) 0 (some 1)
      false br_room_master ver_room_master master-IsValid

pub changed-IsValid : IsValid changed
changed-IsValid = insert_by_branch-IsValid branched k (9 ∷ []) 1 branched-IsValid

pub latest-master : latest master 0 ≡ some 1
unfolding new version_create_by_branch insert_by_branch latest Mapx.get Mapx.insert Mapx.last
    Mapx.range_to Mapx.find_rev
latest-master = refl

latest-changed : latest changed 1 ≡ some 2
unfolding new version_create_by_branch insert_by_branch do_branch_create_by_base_branch_version
    latest Mapx.get Mapx.insert Mapx.last Mapx.range_to Mapx.find_rev
latest-changed = refl

latest_popped : latest (version_pop_by_branch 1 changed).1 1 ≡ some 1
unfolding new version_create_by_branch insert_by_branch do_branch_create_by_base_branch_version
    version_pop_by_branch latest Mapx.get Mapx.insert Mapx.last Mapx.range_to Mapx.remove
latest_popped = refl

absent_branch : latest start 5 ≡ none
unfolding new latest Mapx.get Mapx.insert
absent_branch = refl

pub other_key : (b'j' ∷ []) ≢ k
other_key = ground arith

room_changed : 1 + changed.db.ver_id < u64_mod
unfolding new version_create_by_branch insert_by_branch do_branch_create_by_base_branch_version
    Mapx.get Mapx.insert Mapx.last Mapx.range_to
room_changed = omega arith

abbrev pub master_vers : VerMap
master_vers = (0, []) ∷ (1, []) ∷ []

abbrev pub branch_vers : VerMap
branch_vers = (0, []) ∷ (1, []) ∷ (2, []) ∷ []

pub found_master : Mapx.get changed.br_to_its_vers 0 ≡ some master_vers
unfolding new version_create_by_branch insert_by_branch do_branch_create_by_base_branch_version
    Mapx.get Mapx.insert Mapx.last Mapx.range_to
found_master = refl

pub found_branch : Mapx.get changed.br_to_its_vers 1 ≡ some branch_vers
unfolding new version_create_by_branch insert_by_branch do_branch_create_by_base_branch_version
    Mapx.get Mapx.insert Mapx.last Mapx.range_to
found_branch = refl

pub found_base : Mapx.get master.br_to_its_vers 0 ≡ some master_vers
unfolding new version_create_by_branch insert_by_branch Mapx.get Mapx.insert Mapx.last
found_base = refl

pub base_on : Mapx.contains_key master_vers 1 ≡ true
unfolding Mapx.get
base_on = refl

pub unused_name : Mapx.get master.br_name_to_br_id (b'f' ∷ []) ≡ none
unfolding new version_create_by_branch insert_by_branch Mapx.get Mapx.insert Mapx.last
unused_name = refl

pub not_diverged : (not false && has_diverged branch_vers (Mapx.last master_vers)) ≡ false
unfolding Mapx.get Mapx.last
not_diverged = refl

pub all_merged :
    (n : VersionId)
    → Mapx.contains_key master_vers n ≡ true
    → Mapx.contains_key branch_vers n ≡ true
unfolding Mapx.get
all_merged n on = ground arith

pub new_branch_id : master.db.br_id ≡ 1
unfolding new version_create_by_branch insert_by_branch Mapx.get Mapx.insert Mapx.last
new_branch_id = refl

pub found_changed : is_some (Mapx.get changed.br_to_its_vers 1) ≡ true
found_changed = rw found_branch
