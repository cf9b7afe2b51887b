-- ===== src/Backend/Version/Pop.antt =====
-- `version_pop_by_branch`: the branch goes back to its previous version.
use native.Mathlib.Decide.{ℕ_discrete}
use vsdb.Prelude.{◌<◌, ◌≡◌, ◌≢◌, ◌⊎◌, ◌∙◌, none, some, arith, Option-cases, inl, inr, is_some_of}
use vsdb.Common.{RawKey, BranchId, VersionId}
use vsdb.Exec.{ok}
use vsdb.Mapx
use vsdb.Mapx.{at, nat_ord, bytes_ord}
use vsdb.Mapx.Laws.{get-insert, get-remove}
use vsdb.Mapx.Sorted.{IsSorted, remove-IsAbove, get-last}
use vsdb.Backend.{MapxRawVs}
use vsdb.Backend.Data.{get_by_branch, get_by_branch_version}
use vsdb.Backend.Version.{version_pop_by_branch}
use vsdb.Backend.Invariant.{IsValid}
use vsdb.Backend.Invariant.SetVersions.{
  set_versions, set_versions-IsValid, get_by_branch_version-set_versions_ne,
  get_by_branch_version-set_versions,
}
use vsdb.Backend.ReadWrite.{latest, latest_found, latest-IsLatest, get_by_branch-latest}

-- The state after the latest version `n` of a branch is popped.
abbrev popped : MapxRawVs → BranchId → VersionId → MapxRawVs
popped s br n = set_versions s br (Mapx.remove (at s.br_to_its_vers br) n)

version_pop_by_branch-latest :
    (s : MapxRawVs) (br : BranchId) (n : VersionId)
    → IsValid s
    → latest s br ≡ some n
    → version_pop_by_branch br s ≡ (ok tt, popped s br n)
unfolding version_pop_by_branch
version_pop_by_branch-latest s br n valid h =
    let (vs, v, found, is_last) = latest_found s br n h in
    let in_order : IsSorted vs = rw found at (valid.vers_sorted br) in
    rw found (rw is_last (rw (get-last 0 vs n v in_order is_last)))

-- Without a latest version nothing changes: an error if the branch is not there.
version_pop_by_branch-none :
    (s : MapxRawVs) (br : BranchId) → latest s br ≡ none → (version_pop_by_branch br s).1 ≡ s
unfolding version_pop_by_branch latest
version_pop_by_branch-none s br h = ground arith

popped-IsValid :
    (s : MapxRawVs) (br : BranchId) (n : VersionId)
    → IsValid s
    → latest s br ≡ some n
    → IsValid (popped s br n)
popped-IsValid s br n valid h =
    let (vs, v, found, is_last) = latest_found s br n h in
    set_versions-IsValid s br (Mapx.remove (at s.br_to_its_vers br) n) valid (is_some_of _ found)
      (remove-IsAbove 0 (at s.br_to_its_vers br) n (valid.vers_sorted br))
      (λ m on. ground (arith, get-remove (at s.br_to_its_vers br) n m, valid.recorded br m))

-- A pop keeps the invariant.
pub version_pop_by_branch-IsValid :
    (s : MapxRawVs) (br : BranchId) → IsValid s → IsValid (version_pop_by_branch br s).1
version_pop_by_branch-IsValid s br valid = elim (Option-cases (latest s br)) [
  | inl absent ↦ rw (version_pop_by_branch-none s br absent) valid
  | inr (n, h) ↦ rw (version_pop_by_branch-latest s br n valid h) (popped-IsValid s br n valid h)
]

read-popped :
    (s : MapxRawVs) (br : BranchId) (n : VersionId) (key : RawKey) (ver : VersionId)
    → IsValid s
    → ver < n
    → get_by_branch_version (popped s br n) key br ver ≡ get_by_branch_version s key br ver
read-popped s br n key ver valid lt =
    get_by_branch_version-set_versions s br (Mapx.remove (at s.br_to_its_vers br) n) key br ver
      valid (λ m le. ground (arith, get-remove (at s.br_to_its_vers br) n m))

-- A pop of version `n` changes no read of a version before `n` and none of another branch.
pub get_by_branch_version-version_pop_by_branch :
    (s : MapxRawVs) (br : BranchId) (n : VersionId) (key : RawKey) (b : BranchId) (ver : VersionId)
    → IsValid s
    → latest s br ≡ some n
    → (b ≢ br) ⊎ (ver < n)
    → get_by_branch_version (version_pop_by_branch br s).1 key b ver
      ≡ get_by_branch_version s key b ver
get_by_branch_version-version_pop_by_branch s br n key b ver valid h (inl other) =
    rw (version_pop_by_branch-latest s br n valid h)
      (get_by_branch_version-set_versions_ne s br _ key b ver valid other)
get_by_branch_version-version_pop_by_branch s br n key b ver valid h (inr lt) =
    elim (ℕ_discrete b br) [
      | no other ↦
          rw (version_pop_by_branch-latest s br n valid h)
            (get_by_branch_version-set_versions_ne s br _ key b ver valid other)
      | yes same ↦
          rw (version_pop_by_branch-latest s br n valid h)
            (rw same (read-popped s br n key ver valid lt))
    ]

latest-popped :
    (s : MapxRawVs) (br : BranchId) (n m : VersionId)
    → IsValid s
    → latest s br ≡ some n
    → latest (popped s br n) br ≡ some m
    → m < n
latest-popped s br n m valid h next =
    let l = latest-IsLatest s br n valid h in
    let l' = latest-IsLatest (popped s br n) br m (popped-IsValid s br n valid h) next in
    ground (
      arith,
      l'.on,
      get-insert s.br_to_its_vers br (Mapx.remove (at s.br_to_its_vers br) n) br,
      get-remove (at s.br_to_its_vers br) n m,
      l.above m,
    )

-- After a pop that leaves version `m` the latest, the branch reads what it had at `m` before.
pub get_by_branch-version_pop_by_branch :
    (s : MapxRawVs) (br : BranchId) (n m : VersionId) (key : RawKey)
    → IsValid s
    → latest s br ≡ some n
    → latest (version_pop_by_branch br s).1 br ≡ some m
    → get_by_branch (version_pop_by_branch br s).1 key br ≡ get_by_branch_version s key br m
get_by_branch-version_pop_by_branch s br n m key valid h next =
    let after = version_pop_by_branch-latest s br n valid h in
    let next' : latest (popped s br n) br ≡ some m = rw after at next in
    rw after (
      get_by_branch-latest (popped s br n) key br m next'
      ∙ read-popped s br n key m valid (latest-popped s br n m valid h next'))
