-- ===== src/Backend/Branch/Truncate/To.antt =====
-- `branch_truncate_to`: the versions of a branch after a given one are taken away.
use mathlib.Core.List.{reverse}
use vsdb.Prelude.{
  ℕ, ◌≤◌, leb, if◌then◌else◌, ◌<◌, ◌+◌, ◌%◌, ◌≡◌, ◌≢◌, ◌∙◌, refl, sym, none, some, List, [], ◌∷◌,
  arith, Option-cases, ◌⊎◌, ap, ◌>>=?◌, inl, inr, is_some_of,
}
use vsdb.Common.{RawKey, BranchId, VersionId, u64_mod}
use vsdb.Exec.{ok, err, branch_not_found}
use vsdb.Mapx
use vsdb.Mapx.{Mapx, at, nat_ord, bytes_ord}
use vsdb.Mapx.Sorted.{
  mem-keys, IsSorted, remove-IsAbove, range_from-IsAbove, get-range_from, newest_ext,
}
use vsdb.Backend.{MapxRawVs, VerMap}
use vsdb.Backend.Data.{non_empty, get_by_branch_version}
use vsdb.Backend.View.{visible, view, get_by_branch_version-eq-view}
use vsdb.Backend.Branch.{branch_truncate_to}
use vsdb.Backend.Invariant.{IsValid}
use vsdb.Backend.Branch.Truncate.{
  mem-reverse_aux, mem-keys, IsBelow, IsBelow-reverse, remove_all, get-remove_all, Truncated,
  truncate_all, Truncated-IsValid,
}

-- The loop runs over the versions after the given one, from the latest down.
abbrev later : VerMap → VersionId → List VersionId
later vers last_ver = reverse (Mapx.keys (Mapx.range_from vers (last_ver + 1)))

wrap_small : (n : ℕ) → n < u64_mod → n % u64_mod ≡ n
wrap_small n h = omega arith

run-branch_truncate_to :
    (s : MapxRawVs) (br : BranchId) (last_ver : VersionId) (vers : VerMap)
    → IsValid s
    → Mapx.get s.br_to_its_vers br ≡ some vers
    → last_ver + 1 < u64_mod
    → (t : MapxRawVs) × (branch_truncate_to br last_ver s ≡ (ok tt, t))
      × Truncated s t br (remove_all (later vers last_ver) vers)
unfolding branch_truncate_to
run-branch_truncate_to s br last_ver vers valid found small =
    let part = Mapx.range_from vers (last_ver + 1) in
    let in_order : IsSorted vers = rw found at (valid.vers_sorted br) in
    let below : IsBelow s.db.ver_id vers (later vers last_ver) =
      IsBelow-reverse 0 vers part [] s.db.ver_id (range_from-IsAbove 0 vers (last_ver + 1) in_order)
        (λ n on.
          ground
            (arith, get-range_from vers (last_ver + 1) n, valid.recorded br n, valid.allocated n))
        (omega arith) tt in
    rw (found, wrap_small (last_ver + 1) small)
      (truncate_all (later vers last_ver) s.db.ver_id s br vers found below)

get-remove_all-later :
    (vers : VerMap) (last_ver n : VersionId)
    → Mapx.get (remove_all (later vers last_ver) vers) n
      ≡ (if leb n last_ver then Mapx.get vers n else none)
get-remove_all-later vers last_ver n = ground (
  arith,
  get-remove_all (later vers last_ver) vers n,
  mem-reverse_aux n (Mapx.keys (Mapx.range_from vers (last_ver + 1))) [],
  mem-keys (Mapx.range_from vers (last_ver + 1)) n,
  get-range_from vers (last_ver + 1) n,
)

-- From a valid state, the truncation of a branch that is there to a version below the greatest
-- identifier succeeds, and leaves exactly the versions up to that version.
pub versions-branch_truncate_to :
    (s : MapxRawVs) (br : BranchId) (last_ver : VersionId) (vers : VerMap) (n : VersionId)
    → IsValid s
    → Mapx.get s.br_to_its_vers br ≡ some vers
    → last_ver + 1 < u64_mod
    → ((branch_truncate_to br last_ver s).0 ≡ ok tt)
      × (Mapx.get (at (branch_truncate_to br last_ver s).1.br_to_its_vers br) n
          ≡ (if leb n last_ver then Mapx.get vers n else none))
versions-branch_truncate_to s br last_ver vers n valid found small =
    let (t, run, h) = run-branch_truncate_to s br last_ver vers valid found small in
    (rw run refl, rw (run, h.at_branch) (get-remove_all-later vers last_ver n))

remove_all-IsSorted :
    (ks : List VersionId) (vers : VerMap) → IsSorted vers → IsSorted (remove_all ks vers)
unfolding remove_all
remove_all-IsSorted [] vers h = h
remove_all-IsSorted (k ∷ ks) vers h =
    remove_all-IsSorted ks (Mapx.remove vers k) (remove-IsAbove 0 vers k h)

branch_truncate_to-none :
    (s : MapxRawVs) (br : BranchId) (last_ver : VersionId)
    → Mapx.get s.br_to_its_vers br ≡ none
    → branch_truncate_to br last_ver s ≡ (err branch_not_found, s)
unfolding branch_truncate_to
branch_truncate_to-none s br last_ver absent = rw absent refl

-- The truncation to a version keeps the invariant.
pub branch_truncate_to-IsValid :
    (s : MapxRawVs) (br : BranchId) (last_ver : VersionId)
    → last_ver + 1 < u64_mod
    → IsValid s
    → IsValid (branch_truncate_to br last_ver s).1
branch_truncate_to-IsValid s br last_ver small valid =
    elim (Option-cases (Mapx.get s.br_to_its_vers br)) [
      | inl absent ↦ rw (branch_truncate_to-none s br last_ver absent) valid
      | inr (vers, found) ↦
          let (t, run, h) = run-branch_truncate_to s br last_ver vers valid found small in
          rw run (
            Truncated-IsValid s t br (remove_all (later vers last_ver) vers) valid h
              (is_some_of _ found)
              (remove_all-IsSorted (later vers last_ver) vers (rw found at (valid.vers_sorted br)))
              (λ n on. ground (arith, get-remove_all-later vers last_ver n, valid.recorded br n)))
    ]

visible-Truncated :
    (s t : MapxRawVs) (key : RawKey) (b : BranchId) (n : VersionId)
    → t ≡ record s { br_to_its_vers = t.br_to_its_vers }
    → Mapx.contains_key (at t.br_to_its_vers b) n ≡ Mapx.contains_key (at s.br_to_its_vers b) n
    → visible t key b n ≡ visible s key b n
visible-Truncated s t key b n same on = ap (λ u. visible u key b n) same ∙ rw on

-- From a valid state, the truncation of a branch to a version below the greatest identifier changes no
-- read of that or an earlier version, and none of another branch.
pub get_by_branch_version-branch_truncate_to :
    (s : MapxRawVs) (br : BranchId) (last_ver : VersionId) (key : RawKey) (b : BranchId)
    (ver : VersionId)
    → IsValid s
    → last_ver + 1 < u64_mod
    → (b ≢ br) ⊎ (ver ≤ last_ver)
    → get_by_branch_version (branch_truncate_to br last_ver s).1 key b ver
      ≡ get_by_branch_version s key b ver
unfolding view
get_by_branch_version-branch_truncate_to s br last_ver key b ver valid small apart =
    elim (Option-cases (Mapx.get s.br_to_its_vers br)) [
      | inl absent ↦ rw (branch_truncate_to-none s br last_ver absent) refl
      | inr (vers, found) ↦
          let (t, run, h) = run-branch_truncate_to s br last_ver vers valid found small in
          let valid' : IsValid t =
            rw run at (branch_truncate_to-IsValid s br last_ver small valid) in
          rw run (
            get_by_branch_version-eq-view t key b ver (valid'.kv_sorted key)
            ∙ ap (λ o. o >>=? non_empty)
                (newest_ext _ _ ver (λ n le. visible-Truncated s t key b n h.same_but_vers (
                  ground (
                    arith,
                    apart,
                    h.elsewhere b,
                    h.at_branch,
                    get-remove_all-later vers last_ver n,
                  ))))
            ∙ sym (get_by_branch_version-eq-view s key b ver (valid.kv_sorted key)))
    ]
