-- ===== src/Scenario/Named.antt =====
-- The theorems on iteration, on truncation, on whole runs and on the operations by name, at the
-- states of the run.
use vsdb.Prelude.{◌≡◌, ◌<◌, leb, if◌then◌else◌, refl, none, some, [], ◌∷◌, true, length, arith, inr}
use vsdb.Common.{new_allocator, initial_branch_name}
use vsdb.Exec.{ok, err, panicked}
use vsdb.Mapx
use vsdb.Mapx.{at, nat_ord, bytes_ord}
use vsdb.Backend.{new}
use vsdb.Backend.Data
use vsdb.Backend.Data.{get_by_branch_version, insert_by_branch, non_empty}
use vsdb.Backend.Iter.{collect, iter_by_branch_version}
use vsdb.Backend.Iter.Reads.{get-iter_by_branch_version}
use vsdb.Backend.Version.{version_create_by_branch}
use vsdb.Backend.Branch.{
  do_branch_create_by_base_branch_version, branch_truncate_to, branch_get_id_by_name, branch_swap,
  branch_get_default_name,
}
use vsdb.Backend.Branch.Truncate.To.{
  versions-branch_truncate_to, get_by_branch_version-branch_truncate_to,
}
use vsdb.Backend.Branch.Swap.{branch_swap-exchanges}
use vsdb.Common.{RawBytes, RawKey, BranchId, VersionId}
use vsdb.Prelude.{◌==◌}
use Prim.Native.Nat.Ordering.{eq}
use vsdb.Backend.Invariant.{IsValid}
use vsdb.Backend.Reach.{started, then_step, create_version, insert, Reach-IsValid}
use vsdb.Backend.ReadWrite.{latest}
use vsdb.Api.Mutable.{or_insert}
use vsdb.Api.Reads.{or_insert_result, or_insert-latest}
use vsdb.Api.Manage
use vsdb.Api.Versions.{version_exists_on_branch-version_create_by_branch}
use vsdb.Backend.Version.{version_get_id_by_name}
use vsdb.Backend.Iter.{len_by_branch_version}
use vsdb.Backend.Iter.Reads.{len_by_branch_version-count}
use vsdb.Prelude.{filter, is_some, false}
use vsdb.Exec.{version_already_exists}
use vsdb.Backend.Iter.{get_ge_by_branch_version}
use vsdb.Backend.Iter.Closest.{IsClosest, get_ge_by_branch_version-IsClosest}
use vsdb.Scenario.{
  k, start, created_a, inserted_a, master, changed, changed-IsValid, master-IsValid, room_start,
  found_master, master_vers,
}

few_keys : length changed.layered_kv < 5
unfolding new version_create_by_branch insert_by_branch do_branch_create_by_base_branch_version
    Mapx.get Mapx.insert Mapx.last Mapx.range_to
few_keys = omega arith

master_named : branch_get_id_by_name master initial_branch_name ≡ some 0
unfolding new version_create_by_branch insert_by_branch Mapx.get Mapx.insert Mapx.last
master_named = refl

branch_named : branch_get_id_by_name changed (b'f' ∷ []) ≡ some 1
unfolding new version_create_by_branch insert_by_branch do_branch_create_by_base_branch_version
    Mapx.get Mapx.insert Mapx.last Mapx.range_to
branch_named = refl

master_named_changed : branch_get_id_by_name changed initial_branch_name ≡ some 0
unfolding new version_create_by_branch insert_by_branch do_branch_create_by_base_branch_version
    Mapx.get Mapx.insert Mapx.last Mapx.range_to
master_named_changed = refl

no_such_branch : branch_get_id_by_name start (b'z' ∷ []) ≡ none
unfolding new Mapx.get Mapx.insert
no_such_branch = refl

latest_default : latest master master.default_branch ≡ some 1
unfolding new version_create_by_branch insert_by_branch latest Mapx.get Mapx.insert Mapx.last
    Mapx.range_to Mapx.find_rev
latest_default = refl

default_reads : Data.get master k ≡ some (8 ∷ [])
unfolding new version_create_by_branch insert_by_branch Data.get Mapx.get Mapx.insert Mapx.last
    Mapx.range_to Mapx.find_rev
default_reads = refl

get-iter_by_branch_version_example :
    (Mapx.keys (collect 5 (iter_by_branch_version changed 1 2))
      ≡ filter
          (λ key. is_some (get_by_branch_version changed key 1 2))
          (Mapx.keys changed.layered_kv))
    × (Mapx.get (collect 5 (iter_by_branch_version changed 1 2)) k
        ≡ get_by_branch_version changed k 1 2)
get-iter_by_branch_version_example = get-iter_by_branch_version changed 1 2 5 k refl few_keys

get_ge_by_branch_version-IsClosest_example :
    IsClosest changed 1 2 (b'a' ∷ []) (get_ge_by_branch_version changed (b'a' ∷ []) 1 2)
get_ge_by_branch_version-IsClosest_example =
    get_ge_by_branch_version-IsClosest changed (b'a' ∷ []) 1 2 changed-IsValid refl

versions-branch_truncate_to_example :
    ((branch_truncate_to 0 0 changed).0 ≡ ok tt)
    × (Mapx.get (at (branch_truncate_to 0 0 changed).1.br_to_its_vers 0) 1
        ≡ (if leb 1 0 then Mapx.get master_vers 1 else none))
versions-branch_truncate_to_example =
    versions-branch_truncate_to changed 0 0 master_vers 1 changed-IsValid found_master (omega arith)

get_by_branch_version-branch_truncate_to_example :
    get_by_branch_version (branch_truncate_to 1 1 changed).1 k 1 1
    ≡ get_by_branch_version changed k 1 1
get_by_branch_version-branch_truncate_to_example =
    get_by_branch_version-branch_truncate_to changed 1 1 k 1 1 changed-IsValid (omega arith)
      (inr (omega arith))

branch_swap-exchanges_example :
    let t = branch_swap initial_branch_name (b'f' ∷ []) changed in
    (t.0 ≡ ok tt)
    × IsValid t.1
    × ((name : RawBytes)
        → branch_get_id_by_name t.1 name ≡ elim (Mapx.cmp_bytes name (b'f' ∷ [])) [
          | eq ↦ some 0
          | _ ↦ elim (Mapx.cmp_bytes name initial_branch_name) [
            | eq ↦ some 1
            | _ ↦ branch_get_id_by_name changed name
          ]
        ])
    × ((b : BranchId)
        → Mapx.get t.1.br_id_to_br_name b ≡ (
            if b == 1
            then some initial_branch_name
            else if b == 0
            then some (b'f' ∷ [])
            else Mapx.get changed.br_id_to_br_name b))
    × (t.1.default_branch ≡ (
        if changed.default_branch == 0
        then 1
        else if changed.default_branch == 1
        then 0
        else changed.default_branch))
    × ((branch_get_default_name t.1).0 ≡ (branch_get_default_name changed).0)
    × ((key : RawKey) (b : BranchId) (ver : VersionId)
        → get_by_branch_version t.1 key b ver ≡ get_by_branch_version changed key b ver)
branch_swap-exchanges_example =
    branch_swap-exchanges changed initial_branch_name (b'f' ∷ []) 0 1 changed-IsValid
      master_named_changed branch_named

Reach-IsValid_example : IsValid inserted_a
Reach-IsValid_example = Reach-IsValid new_allocator inserted_a (omega arith) (omega arith) (
    then_step (then_step started (create_version start (b'a' ∷ []) 0 room_start))
      (insert created_a k (7 ∷ []) 0))

or_insert-latest_example :
    or_insert (b'n' ∷ []) [] master
    ≡ or_insert_result master (b'n' ∷ []) [] 1 (Data.get master (b'n' ∷ [])) (non_empty [])
or_insert-latest_example = or_insert-latest master (b'n' ∷ []) [] 1 master-IsValid latest_default

-- The empty default panics.
empty_default_panics : (or_insert (b'n' ∷ []) [] master).0 ≡ err panicked
unfolding new version_create_by_branch insert_by_branch or_insert Data.get Data.insert Mapx.get
    Mapx.insert Mapx.last Mapx.range_to Mapx.find_rev
empty_default_panics = refl

len_by_branch_version-count_example :
    len_by_branch_version changed 1 2
    ≡ length (filter (λ e. is_some (get_by_branch_version changed e.0 1 2)) changed.layered_kv)
len_by_branch_version-count_example = len_by_branch_version-count changed 1 2 refl

unused_version : version_get_id_by_name changed (b'd' ∷ []) ≡ none
unfolding new version_create_by_branch insert_by_branch do_branch_create_by_base_branch_version
    Mapx.get Mapx.insert Mapx.last Mapx.range_to
unused_version = refl

version_exists_on_branch-version_create_by_branch_example :
    let t = (Manage.version_create_by_branch (b'd' ∷ []) initial_branch_name changed).1 in
    ((Manage.version_create_by_branch (b'd' ∷ []) initial_branch_name changed).0 ≡ ok tt)
    × (Manage.version_exists_on_branch t (b'd' ∷ []) initial_branch_name ≡ true)
    × (Manage.version_has_change_set (b'd' ∷ []) t ≡ (ok false, t))
    × (Manage.version_create_by_branch (b'd' ∷ []) initial_branch_name t
        ≡ (err version_already_exists, t))
version_exists_on_branch-version_create_by_branch_example =
    version_exists_on_branch-version_create_by_branch changed (b'd' ∷ []) initial_branch_name 0
      master_vers master_named_changed found_master unused_version
