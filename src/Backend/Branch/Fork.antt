-- ===== src/Backend/Branch/Fork.antt =====
-- What the creation of a branch keeps, and what the new branch and the others read.
use vsdb.Prelude.{
  ◌+◌, ◌≤◌, ◌<◌, ◌≡◌, ◌≢◌, refl, sym, ap, ◌∙◌, Bool, true, false, Option, none, some, ◌>>=?◌, arith,
}
use vsdb.Common.{RawBytes, RawKey, BranchId, VersionId, u64_mod}
use vsdb.Exec.{Result, ok, err, resume}
use vsdb.Mapx
use vsdb.Mapx.{at, nat_ord, bytes_ord}
use vsdb.Mapx.Laws.{get-insert}
use vsdb.Mapx.Sorted.{newest_ext, get-range_to}
use vsdb.Backend.{MapxRawVs, VerMap}
use vsdb.Backend.Data.{non_empty, get_by_branch_version}
use vsdb.Backend.View.{visible, view, get_by_branch_version-eq-view}
use vsdb.Backend.Version.Create.{get_by_branch_version-version_create_by_branch}
use vsdb.Backend.Branch.{
  do_branch_create_by_base_branch_version, create_first_version, remove_if_forced, branch_remove,
}
use vsdb.Backend.Branch.Remove.{branch_remove_cases, removed-IsValid}
use vsdb.Backend.Branch.Create.{
  forked, copied, create_cases, create-IsValid, create-forced, remove_if_forced_keeps,
  forked_base-IsValid,
}
use vsdb.Backend.Invariant.{IsValid}

-- A valid state with identifiers left for a branch and a version.
record HasRoom (s : MapxRawVs) : Type 0 where
  valid : IsValid s
  br_room : 1 + s.db.br_id < u64_mod
  ver_room : 1 + s.db.ver_id < u64_mod

branch_remove-HasRoom : (s : MapxRawVs) (br : BranchId) → HasRoom s → HasRoom (branch_remove br s).1
branch_remove-HasRoom s br h = branch_remove_cases HasRoom s br h.valid h (λ name named. record {
  valid = removed-IsValid s br name h.valid named;
  br_room = h.br_room;
  ver_room = h.ver_room;
})

create_after :
    (r : Result Unit) (t : MapxRawVs) (name : RawBytes) (ver_name : Option RawBytes)
    (base : BranchId) (bv : Option VersionId)
    → HasRoom t
    → IsValid
        (resume r (λ _. do_branch_create_by_base_branch_version name ver_name base bv false) t).1
create_after (ok x) t name ver_name base bv h =
    create-IsValid t name ver_name base bv h.br_room h.ver_room h.valid
create_after (err e) t name ver_name base bv h = h.valid

-- The creation of a branch keeps the invariant, forced or not, with or without a first version, and
-- whatever its result, while identifiers are left.
pub do_branch_create_by_base_branch_version-IsValid :
    (s : MapxRawVs) (name : RawBytes) (ver_name : Option RawBytes) (base : BranchId)
    (bv : Option VersionId) (force : Bool)
    → 1 + s.db.br_id < u64_mod
    → 1 + s.db.ver_id < u64_mod
    → IsValid s
    → IsValid (do_branch_create_by_base_branch_version name ver_name base bv force s).1
do_branch_create_by_base_branch_version-IsValid s name ver_name base bv false br_room ver_room
      valid =
    create-IsValid s name ver_name base bv br_room ver_room valid
do_branch_create_by_base_branch_version-IsValid s name ver_name base bv true br_room ver_room
      valid =
    let h : HasRoom s = record { valid = valid; br_room = br_room; ver_room = ver_room } in
    rw (create-forced s name ver_name base bv) (
      create_after (remove_if_forced true name s).0 (remove_if_forced true name s).1 name ver_name
        base bv (remove_if_forced_keeps HasRoom s name h (λ br. branch_remove-HasRoom s br h)))

-- With an unused name, a base branch and a version of it, the creation enters the branch, forced or
-- not.
create-found :
    (s : MapxRawVs) (name : RawBytes) (ver_name : Option RawBytes) (base : BranchId)
    (bv : VersionId) (vers : VerMap) (force : Bool)
    → Mapx.get s.br_name_to_br_id name ≡ none
    → Mapx.get s.br_to_its_vers base ≡ some vers
    → Mapx.contains_key vers bv ≡ true
    → do_branch_create_by_base_branch_version name ver_name base (some bv) force s
      ≡ create_first_version ver_name s.db.br_id (forked s name (Mapx.range_to vers bv))
unfolding do_branch_create_by_base_branch_version
create-found s name ver_name base bv vers false unused found on = rw (unused, found, on)
create-found s name ver_name base bv vers true unused found on = rw (unused, unused, found, on)

read-create_first_version :
    (s : MapxRawVs) (ver_name : Option RawBytes) (br : BranchId) (key : RawKey) (b : BranchId)
    (ver : VersionId)
    → IsValid s
    → get_by_branch_version (create_first_version ver_name br s).1 key b ver
      ≡ get_by_branch_version s key b ver
read-create_first_version s none br key b ver valid = refl
read-create_first_version s (some name) br key b ver valid =
    get_by_branch_version-version_create_by_branch s name br key b ver valid

visible-forked :
    (s : MapxRawVs) (name : RawBytes) (base : BranchId) (bv : VersionId) (vers : VerMap)
    (key : RawKey) (n : VersionId)
    → Mapx.get s.br_to_its_vers base ≡ some vers
    → n ≤ bv
    → visible (forked s name (Mapx.range_to vers bv)) key s.db.br_id n ≡ visible s key base n
visible-forked s name base bv vers key n found le = rw found (
    ground (
      arith,
      get-insert s.br_to_its_vers s.db.br_id (Mapx.range_to vers bv) s.db.br_id,
      get-range_to vers bv n,
    ))

visible-forked_ne :
    (s : MapxRawVs) (name : RawBytes) (vers : VerMap) (key : RawKey) (b : BranchId) (n : VersionId)
    → b ≢ s.db.br_id
    → visible (forked s name vers) key b n ≡ visible s key b n
visible-forked_ne s name vers key b n other =
    ground (arith, get-insert s.br_to_its_vers s.db.br_id vers b)

-- In a valid state with a branch identifier left: a branch created under an unused name, forced or
-- not, with or without a first version of its own, from a version that is on a base branch that is
-- there, reads at every version up to that one what the base branch reads.
pub get_by_branch_version-branch_create :
    (s : MapxRawVs) (name : RawBytes) (ver_name : Option RawBytes) (base : BranchId)
    (bv : VersionId) (vers : VerMap) (force : Bool) (key : RawKey) (ver : VersionId)
    → IsValid s
    → 1 + s.db.br_id < u64_mod
    → Mapx.get s.br_name_to_br_id name ≡ none
    → Mapx.get s.br_to_its_vers base ≡ some vers
    → Mapx.contains_key vers bv ≡ true
    → ver ≤ bv
    → get_by_branch_version
        (do_branch_create_by_base_branch_version name ver_name base (some bv) force s).1
        key
        s.db.br_id
        ver
      ≡ get_by_branch_version s key base ver
unfolding view
get_by_branch_version-branch_create s name ver_name base bv vers force key ver valid room unused
      found on le =
    let s' = forked s name (Mapx.range_to vers bv) in
    rw (create-found s name ver_name base bv vers force unused found on) (
      read-create_first_version s' ver_name s.db.br_id key s.db.br_id ver
        (forked_base-IsValid s name base (some bv) vers valid unused found room)
      ∙ get_by_branch_version-eq-view s' key s.db.br_id ver (valid.kv_sorted key)
      ∙ ap (λ o. o >>=? non_empty)
          (newest_ext _ _ ver
            (λ n below. visible-forked s name base bv vers key n found (omega arith)))
      ∙ sym (get_by_branch_version-eq-view s key base ver (valid.kv_sorted key)))

-- A creation that is not forced changes no read of the branches that were there.
pub get_by_branch_version-branch_create_ne :
    (s : MapxRawVs) (name : RawBytes) (ver_name : Option RawBytes) (base : BranchId)
    (bv : Option VersionId) (key : RawKey) (b : BranchId) (ver : VersionId)
    → IsValid s
    → 1 + s.db.br_id < u64_mod
    → b ≢ s.db.br_id
    → get_by_branch_version
        (do_branch_create_by_base_branch_version name ver_name base bv false s).1
        key
        b
        ver
      ≡ get_by_branch_version s key b ver
unfolding view
get_by_branch_version-branch_create_ne s name ver_name base bv key b ver valid room other =
    create_cases (λ t. get_by_branch_version t key b ver ≡ get_by_branch_version s key b ver) s name
      ver_name base bv refl
      (λ vers unused found.
        let s' = forked s name (copied vers bv) in
        read-create_first_version s' ver_name s.db.br_id key b ver
          (forked_base-IsValid s name base bv vers valid unused found room)
        ∙ get_by_branch_version-eq-view s' key b ver (valid.kv_sorted key)
        ∙ ap (λ o. o >>=? non_empty)
            (newest_ext _ _ ver
              (λ n below. visible-forked_ne s name (copied vers bv) key b n other))
        ∙ sym (get_by_branch_version-eq-view s key b ver (valid.kv_sorted key)))
