-- ===== src/Backend/Merge/Reads.antt =====
-- What a merge does to the state, and what the branches read afterwards.
use vsdb.Prelude.{
  ◌+◌, ◌<◌, ◌≡◌, ◌≢◌, refl, Bool, true, false, not, ◌&&◌, ◌||◌, some, arith, Option-cases,
  Bool-cases, inl, inr, is_some_of, if◌then◌else◌,
}
use vsdb.Common.{RawKey, RawValue, BranchId, VersionId, u64_mod}
use vsdb.Exec.{ok, err, unable_to_merge}
use vsdb.Mapx
use vsdb.Mapx.{at, nat_ord, bytes_ord}
use vsdb.Mapx.Laws.{get-insert}
use vsdb.Mapx.Sorted.{IsSorted, get-last}
use vsdb.Backend.{MapxRawVs, VerMap}
use vsdb.Backend.Data.{get_by_branch_version}
use vsdb.Backend.Merge.{merged, has_diverged, do_branch_merge_to}
use vsdb.Backend.Merge.Union.{contains-merged, merged-IsSorted}
use vsdb.Backend.Invariant.{IsValid}
use vsdb.Backend.Invariant.SetVersions.{
  set_versions, set_versions-IsValid, get_by_branch_version-set_versions_ne,
  get_by_branch_version-set_versions,
}

-- The merge on two branches that are there: it is refused only without `force`, when the latest
-- version of the target is not on the branch.
do_branch_merge_to_lem :
    (s : MapxRawVs) (br target_br : BranchId) (force : Bool) (vers target : VerMap)
    → Mapx.get s.br_to_its_vers br ≡ some vers
    → Mapx.get s.br_to_its_vers target_br ≡ some target
    → do_branch_merge_to br target_br force s ≡ (
        if not force && has_diverged vers (Mapx.last target)
        then (err unable_to_merge, s)
        else (ok tt, set_versions s target_br (merged vers target)))
unfolding do_branch_merge_to
do_branch_merge_to_lem s br target_br force vers target found found_target =
    rw found (rw found_target (ground arith))

module _ (s : MapxRawVs) (br target_br : BranchId) (vers target : VerMap) (valid : IsValid s)
    (found : Mapx.get s.br_to_its_vers br ≡ some vers)
    (found_target : Mapx.get s.br_to_its_vers target_br ≡ some target) where
  source-IsSorted : IsSorted vers
  source-IsSorted = rw found at (valid.vers_sorted br)

  target-IsSorted : IsSorted target
  target-IsSorted = rw found_target at (valid.vers_sorted target_br)

  room : (k : VersionId) (x : RawValue) → Mapx.last target ≡ some (k, x) → k + 1 < u64_mod
  room k x is_last =
      let on : Mapx.contains_key target k ≡ true =
        rw (get-last 0 target k x target-IsSorted is_last) in
      let known : Mapx.contains_key s.ver_to_change_set k ≡ true =
        valid.recorded target_br k (rw found_target on) in
      ground (arith, valid.in_range, valid.allocated k)

  -- After a merge the target has the versions of both.
  contains-merge :
      (n : VersionId)
      → Mapx.contains_key (merged vers target) n
        ≡ (Mapx.contains_key target n || Mapx.contains_key vers n)
  contains-merge n = contains-merged vers target n source-IsSorted room

  merged_state-IsValid : IsValid (set_versions s target_br (merged vers target))
  merged_state-IsValid =
      set_versions-IsValid s target_br (merged vers target) valid (is_some_of _ found_target)
        (merged-IsSorted vers target target-IsSorted)
        (λ n on. ground (
          arith,
          contains-merge n,
          λ (source_on : Mapx.contains_key vers n ≡ true). valid.recorded br n (rw found source_on),
          λ (target_on : Mapx.contains_key target n ≡ true).
              valid.recorded target_br n (rw found_target target_on),
        ))

-- In a valid state, a merge that is accepted, of a branch that is there into a target that is there,
-- leaves the target with exactly the versions of both branches.
pub versions-do_branch_merge_to :
    (s : MapxRawVs) (br target_br : BranchId) (force : Bool) (vers target : VerMap) (n : VersionId)
    → IsValid s
    → Mapx.get s.br_to_its_vers br ≡ some vers
    → Mapx.get s.br_to_its_vers target_br ≡ some target
    → (not force && has_diverged vers (Mapx.last target)) ≡ false
    → Mapx.contains_key (at (do_branch_merge_to br target_br force s).1.br_to_its_vers target_br) n
      ≡ (Mapx.contains_key target n || Mapx.contains_key vers n)
versions-do_branch_merge_to s br target_br force vers target n valid found found_target accepted =
    rw (do_branch_merge_to_lem s br target_br force vers target found found_target) (
      rw accepted (
        ground (
          arith,
          get-insert s.br_to_its_vers target_br (merged vers target) target_br,
          contains-merge s br target_br vers target valid found found_target n,
        )))

-- In a valid state, after an accepted merge of a branch that is there into a target that is there and
-- whose versions are all on the branch, the target reads at every version what the branch reads.
pub get_by_branch_version-do_branch_merge_to :
    (s : MapxRawVs) (br target_br : BranchId) (force : Bool) (vers target : VerMap) (key : RawKey)
    (ver : VersionId)
    → IsValid s
    → Mapx.get s.br_to_its_vers br ≡ some vers
    → Mapx.get s.br_to_its_vers target_br ≡ some target
    → (not force && has_diverged vers (Mapx.last target)) ≡ false
    → ((n : VersionId) → Mapx.contains_key target n ≡ true → Mapx.contains_key vers n ≡ true)
    → get_by_branch_version (do_branch_merge_to br target_br force s).1 key target_br ver
      ≡ get_by_branch_version s key br ver
get_by_branch_version-do_branch_merge_to s br target_br force vers target key ver valid found
      found_target accepted sub =
    rw (do_branch_merge_to_lem s br target_br force vers target found found_target) (
      rw accepted (
        get_by_branch_version-set_versions s target_br (merged vers target) key br ver valid
          (λ n le. rw found (
            ground (
              arith,
              contains-merge s br target_br vers target valid found found_target n,
              sub n,
            )))))

do_branch_merge_to_cases :
    (P : MapxRawVs → Type 0) (s : MapxRawVs) (br target_br : BranchId) (force : Bool)
    → P s
    → ((vers target : VerMap)
        → Mapx.get s.br_to_its_vers br ≡ some vers
        → Mapx.get s.br_to_its_vers target_br ≡ some target
        → P (set_versions s target_br (merged vers target)))
    → P (do_branch_merge_to br target_br force s).1
unfolding do_branch_merge_to
do_branch_merge_to_cases P s br target_br force same new =
    elim (Option-cases (Mapx.get s.br_to_its_vers br)) [
      | inl absent ↦ rw absent same
      | inr (vers, found) ↦ elim (Option-cases (Mapx.get s.br_to_its_vers target_br)) [
        | inl absent ↦ rw (found, absent) same
        | inr (target, found_target) ↦
            elim (Bool-cases (not force && has_diverged vers (Mapx.last target))) [
              | inl refused ↦ rw (found, found_target, refused) same
              | inr accepted ↦
                  rw (found, found_target, accepted) (new vers target found found_target)
            ]
      ]
    ]

-- A merge keeps the invariant, forced or not, on all branch identifiers.
pub do_branch_merge_to-IsValid :
    (s : MapxRawVs) (br target_br : BranchId) (force : Bool)
    → IsValid s
    → IsValid (do_branch_merge_to br target_br force s).1
do_branch_merge_to-IsValid s br target_br force valid =
    do_branch_merge_to_cases IsValid s br target_br force valid (λ vers target found found_target.
      merged_state-IsValid s br target_br vers target valid found found_target)

-- A merge changes no read of a branch that is not the target.
pub get_by_branch_version-do_branch_merge_to_ne :
    (s : MapxRawVs) (br target_br : BranchId) (force : Bool) (key : RawKey) (b : BranchId)
    (ver : VersionId)
    → IsValid s
    → b ≢ target_br
    → get_by_branch_version (do_branch_merge_to br target_br force s).1 key b ver
      ≡ get_by_branch_version s key b ver
get_by_branch_version-do_branch_merge_to_ne s br target_br force key b ver valid other =
    do_branch_merge_to_cases
      (λ t. get_by_branch_version t key b ver ≡ get_by_branch_version s key b ver) s br target_br
      force refl
      (λ vers target found found_target.
        get_by_branch_version-set_versions_ne s target_br (merged vers target) key b ver valid
          other)
