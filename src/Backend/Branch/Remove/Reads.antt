-- ===== src/Backend/Branch/Remove/Reads.antt =====
-- What a branch reads after `branch_remove`, and what the state holds.
use vsdb.Prelude.{
  ◌≡◌, ◌≢◌, refl, sym, ap, ◌∙◌, none, some, ◌>>=?◌, arith, Option-cases, inl, inr, is_some_of, ◌==◌,
  if◌then◌else◌,
}
use vsdb.Common.{RawBytes, RawKey, BranchId, VersionId}
use vsdb.Exec.{ok, err, branch_not_found}
use vsdb.Mapx
use vsdb.Mapx.{at, nat_ord, bytes_ord}
use vsdb.Mapx.Sorted.{newest_ext}
use vsdb.Backend.{MapxRawVs}
use vsdb.Backend.Data.{non_empty, get_by_branch_version}
use vsdb.Backend.View.{visible, view, get_by_branch_version-eq-view}
use vsdb.Backend.Branch.{branch_exists, branch_get_id_by_name, branch_remove}
use vsdb.Backend.Invariant.{IsValid}
use vsdb.Backend.Branch.Remove.{
  removed, branch_remove-found, branch_remove-none, branch_remove_cases, removed-IsValid,
  vers-removed, ids-removed, names-removed,
}

visible-removed :
    (s : MapxRawVs) (br : BranchId) (name : RawBytes) (key : RawKey) (b : BranchId) (n : VersionId)
    → IsValid s
    → Mapx.get s.br_id_to_br_name br ≡ some name
    → b ≢ br
    → visible (removed s br name) key b n ≡ visible s key b n
visible-removed s br name key b n valid named other =
    ground (arith, vers-removed s br name valid named b)

read-gone :
    (s : MapxRawVs) (key : RawKey) (br : BranchId) (ver : VersionId)
    → Mapx.get s.br_to_its_vers br ≡ none
    → get_by_branch_version s key br ver ≡ none
unfolding get_by_branch_version
read-gone s key br ver absent = ground (arith, absent)

read-removed_ne :
    (s : MapxRawVs) (br : BranchId) (name : RawBytes) (key : RawKey) (b : BranchId)
    (ver : VersionId)
    → IsValid s
    → Mapx.get s.br_id_to_br_name br ≡ some name
    → b ≢ br
    → get_by_branch_version (removed s br name) key b ver ≡ get_by_branch_version s key b ver
unfolding view
read-removed_ne s br name key b ver valid named other =
    get_by_branch_version-eq-view (removed s br name) key b ver (valid.kv_sorted key)
    ∙ ap (λ o. o >>=? non_empty)
        (newest_ext _ _ ver (λ n le. visible-removed s br name key b n valid named other))
    ∙ sym (get_by_branch_version-eq-view s key b ver (valid.kv_sorted key))

read-removed :
    (s : MapxRawVs) (br : BranchId) (name : RawBytes) (key : RawKey) (b : BranchId)
    (ver : VersionId)
    → IsValid s
    → Mapx.get s.br_id_to_br_name br ≡ some name
    → get_by_branch_version (removed s br name) key b ver
      ≡ (if b == br then none else get_by_branch_version s key b ver)
read-removed s br name key b ver valid named = ground (
  arith,
  read-gone (removed s br name) key b ver,
  vers-removed s br name valid named b,
  read-removed_ne s br name key b ver valid named,
)

-- The removal of a branch changes no read of another branch.
pub get_by_branch_version-branch_remove :
    (s : MapxRawVs) (br : BranchId) (key : RawKey) (b : BranchId) (ver : VersionId)
    → IsValid s
    → b ≢ br
    → get_by_branch_version (branch_remove br s).1 key b ver ≡ get_by_branch_version s key b ver
get_by_branch_version-branch_remove s br key b ver valid other =
    branch_remove_cases (λ t. get_by_branch_version t key b ver ≡ get_by_branch_version s key b ver)
      s br valid refl (λ name named. read-removed_ne s br name key b ver valid named other)

-- In a valid state, removing a branch succeeds if it is there and fails if not. Either way the state
-- is valid afterwards, the branch has no versions and no name, no name leads to it, it reads nothing,
-- and all of that is as before for every other branch.
pub branch_remove-forgets :
    (s : MapxRawVs) (br : BranchId)
    → IsValid s
    → let t = branch_remove br s in
      (t.0 ≡ (if branch_exists s br then ok tt else err branch_not_found))
      × IsValid t.1
      × ((b : BranchId)
          → Mapx.get t.1.br_to_its_vers b ≡ (if b == br then none else Mapx.get s.br_to_its_vers b))
      × ((b : BranchId)
          → Mapx.get t.1.br_id_to_br_name b
            ≡ (if b == br then none else Mapx.get s.br_id_to_br_name b))
      × ((name : RawBytes)
          → branch_get_id_by_name t.1 name
            ≡ (branch_get_id_by_name s name >>=? λ b. if b == br then none else some b))
      × ((key : RawKey) (b : BranchId) (ver : VersionId)
          → get_by_branch_version t.1 key b ver
            ≡ (if b == br then none else get_by_branch_version s key b ver))
unfolding branch_exists
branch_remove-forgets s br valid = elim (Option-cases (Mapx.get s.br_to_its_vers br)) [
  | inl absent ↦
      let unnamed : Mapx.get s.br_id_to_br_name br ≡ none =
        ground (arith, absent, valid.br_named br) in
      rw (branch_remove-none s br absent) (
        ground (arith, unnamed),
        valid,
        λ b. ground (arith, absent),
        λ b. ground (arith, unnamed),
        λ name. ground (arith, unnamed, valid.br_names name br),
        λ key b ver. ground (arith, read-gone s key br ver absent),
      )
  | inr (vers, found) ↦
      let (name, named, e) = branch_remove-found s br valid (is_some_of _ found) in
      rw e (
        ground (arith, named),
        removed-IsValid s br name valid named,
        vers-removed s br name valid named,
        ids-removed s br name valid named,
        λ other. ground (
          arith,
          names-removed s br name valid named other,
          valid.br_names other br,
          valid.br_names name br,
          named,
          Mapx.eq_of_cmp_bytes other name,
          Mapx.cmp_bytes_refl other,
        ),
        λ key b ver. read-removed s br name key b ver valid named,
      )
]
