-- ===== src/Backend/ReadWrite.antt =====
-- What the writers of backend.rs promise to a reader of any branch and version.
use vsdb.Prelude.{
  ◌<◌, ◌≡◌, ◌≢◌, ◌⊎◌, refl, sym, ◌∙◌, true, Option, none, some, [], ◌>>=?◌, if◌then◌else◌, arith,
  Option-cases, inl, inr, is_some,
}
use vsdb.Common.{RawKey, RawValue, BranchId, VersionId}
use vsdb.Exec.{ok, err, no_version, branch_not_found}
use vsdb.Mapx
use vsdb.Mapx.{Mapx, at, or_empty, nat_ord, bytes_ord}
use vsdb.Mapx.Laws.{get-insert}
use vsdb.Mapx.Sorted.{IsSorted, insert-IsAbove, get-last, get_above-last}
use vsdb.Backend.{MapxRawVs, VerMap}
use vsdb.Backend.Data.{
  non_empty, get_by_branch, get_by_branch_version, insert_by_branch, remove_by_branch,
  latest_version,
}
use vsdb.Backend.View.{get_by_branch_version-eq-view}
use vsdb.Backend.Invariant.{IsValid}
use vsdb.Backend.Write.{
  written, view-written, view-written_frame, write_by_branch_version-some,
  write_by_branch_version-none,
}

-- The latest version of a branch.
unfoldable pub latest : MapxRawVs → BranchId → Option VersionId
latest s br = Mapx.get s.br_to_its_vers br >>=? λ vers. Mapx.last vers >>=? λ e. some e.0

-- The facts about the latest version that the proofs use.
pub record IsLatest (s : MapxRawVs) (br : BranchId) (n : VersionId) : Type 0 where
  pub on : Mapx.contains_key (at s.br_to_its_vers br) n ≡ true
  pub above : (m : VersionId) → n < m → Mapx.get (at s.br_to_its_vers br) m ≡ none
  pub recorded : Mapx.contains_key s.ver_to_change_set n ≡ true

latest-of :
    (s : MapxRawVs) (br : BranchId) (n : VersionId) (vers : Option VerMap)
    → Mapx.get s.br_to_its_vers br ≡ vers
    → (vers >>=? λ vs. Mapx.last vs >>=? λ e. some e.0) ≡ some n
    → (vs : VerMap) × (v : RawValue) × (Mapx.get s.br_to_its_vers br ≡ some vs)
      × (Mapx.last vs ≡ some (n, v))
latest-of s br n none found h = ground arith
latest-of s br n (some vs) found h = elim (Option-cases (Mapx.last vs)) [
  | inl empty ↦ ground arith
  | inr ((m, v), is_last) ↦ (vs, v, found, ground arith)
]

-- A latest version is the last entry of the versions of a branch that is there.
pub latest_found :
    (s : MapxRawVs) (br : BranchId) (n : VersionId)
    → latest s br ≡ some n
    → (vs : VerMap) × (v : RawValue) × (Mapx.get s.br_to_its_vers br ≡ some vs)
      × (Mapx.last vs ≡ some (n, v))
unfolding latest
latest_found s br n h = latest-of s br n (Mapx.get s.br_to_its_vers br) refl h

pub latest-IsLatest :
    (s : MapxRawVs) (br : BranchId) (n : VersionId)
    → IsValid s
    → latest s br ≡ some n
    → IsLatest s br n
unfolding latest
latest-IsLatest s br n valid h =
    let (vs, v, found, is_last) = latest_found s br n h in
    let in_order : IsSorted vs = rw found at (valid.vers_sorted br) in
    let here : Mapx.contains_key (at s.br_to_its_vers br) n ≡ true =
      rw found (rw (get-last 0 vs n v in_order is_last)) in
    record {
      on = here;
      above = λ m lt. rw found (get_above-last 0 vs n v m in_order is_last lt);
      recorded = valid.recorded br n here;
    }

latest_version-latest :
    (s : MapxRawVs) (br : BranchId) (n : VersionId)
    → latest s br ≡ some n
    → latest_version br s ≡ (ok n, s)
unfolding latest latest_version
latest_version-latest s br n h = ground arith

pub get_by_branch-latest :
    (s : MapxRawVs) (key : RawKey) (br : BranchId) (n : VersionId)
    → latest s br ≡ some n
    → get_by_branch s key br ≡ get_by_branch_version s key br n
unfolding latest get_by_branch
get_by_branch-latest s key br n h =
    let (vs, v, found, is_last) = latest_found s br n h in rw found (rw is_last)

-- An insertion on a branch that has a version returns the value that the branch read before.
pub insert_by_branch-latest :
    (s : MapxRawVs) (key : RawKey) (value : RawValue) (br : BranchId) (n : VersionId)
    → IsValid s
    → latest s br ≡ some n
    → insert_by_branch key value br s ≡ (ok (get_by_branch s key br), written s key n value)
unfolding insert_by_branch
insert_by_branch-latest s key value br n valid h = rw (latest_version-latest s br n h) (
    rw (get_by_branch-latest s key br n h)
      (write_by_branch_version-some s key value br n (latest-IsLatest s br n valid h).recorded))

-- A removal returns the value that the branch read before, and writes only where there was one.
pub remove_by_branch-latest :
    (s : MapxRawVs) (key : RawKey) (br : BranchId) (n : VersionId)
    → IsValid s
    → latest s br ≡ some n
    → remove_by_branch key br s ≡ (
      ok (get_by_branch s key br),
      if is_some (get_by_branch s key br) then written s key n [] else s,
    )
unfolding remove_by_branch
remove_by_branch-latest s key br n valid h = rw (latest_version-latest s br n h) (
    rw (get_by_branch-latest s key br n h)
      (write_by_branch_version-none s key br n (latest-IsLatest s br n valid h).recorded))

latest_version-none :
    (s : MapxRawVs) (br : BranchId)
    → latest s br ≡ none
    → latest_version br s
      ≡ (err (if is_some (Mapx.get s.br_to_its_vers br) then no_version else branch_not_found), s)
unfolding latest latest_version
latest_version-none s br h = ground arith

-- On a branch with no version, or that is not there, both writers fail and change nothing.
pub writers_fail :
    (s : MapxRawVs) (key : RawKey) (value : RawValue) (br : BranchId)
    → latest s br ≡ none
    → let e = if is_some (Mapx.get s.br_to_its_vers br) then no_version else branch_not_found in
      (insert_by_branch key value br s ≡ (err e, s)) × (remove_by_branch key br s ≡ (err e, s))
unfolding latest insert_by_branch remove_by_branch
writers_fail s key value br h = rw (latest_version-none s br h) (refl, refl)

latest-written :
    (s : MapxRawVs) (key : RawKey) (n : VersionId) (value : RawValue) (br : BranchId)
    → latest (written s key n value) br ≡ latest s br
unfolding latest
latest-written s key n value br = refl

pub kv-IsSorted-written :
    (s : MapxRawVs) (key : RawKey) (n : VersionId) (value : RawValue) (j : RawKey)
    → IsSorted (at s.layered_kv key)
    → IsSorted (at s.layered_kv j)
    → IsSorted (at (written s key n value).layered_kv j)
kv-IsSorted-written s key n value j sk sj = ground (
  arith,
  get-insert s.layered_kv key (Mapx.insert (at s.layered_kv key) n value) j,
  insert-IsAbove 0 (at s.layered_kv key) n value,
)

-- Every read after a write, by version: what the write does not touch reads as before.
get_by_branch_version-written :
    (s : MapxRawVs) (key : RawKey) (n : VersionId) (value : RawValue) (j : RawKey) (br : BranchId)
    (ver : VersionId)
    → IsValid s
    → (j ≢ key) ⊎ (ver < n) ⊎ (Mapx.get (at s.br_to_its_vers br) n ≡ none)
    → get_by_branch_version (written s key n value) j br ver ≡ get_by_branch_version s j br ver
get_by_branch_version-written s key n value j br ver valid h =
    get_by_branch_version-eq-view (written s key n value) j br ver
      (kv-IsSorted-written s key n value j (valid.kv_sorted key) (valid.kv_sorted j))
    ∙ view-written_frame s key n value j br ver h
    ∙ sym (get_by_branch_version-eq-view s j br ver (valid.kv_sorted j))

pub get_by_branch-written :
    (s : MapxRawVs) (key : RawKey) (n : VersionId) (value : RawValue) (br : BranchId)
    → IsValid s
    → latest s br ≡ some n
    → get_by_branch (written s key n value) key br ≡ non_empty value
unfolding latest
get_by_branch-written s key n value br valid h =
    let l = latest-IsLatest s br n valid h in
    get_by_branch-latest (written s key n value) key br n h
    ∙ get_by_branch_version-eq-view (written s key n value) key br n
        (kv-IsSorted-written s key n value key (valid.kv_sorted key) (valid.kv_sorted key))
    ∙ view-written s key n value br n l.on (omega arith) l.above

-- In a valid state, after an insertion on a branch that has a version, the branch reads the inserted
-- value; the empty value reads as none.
pub get_by_branch-insert_by_branch :
    (s : MapxRawVs) (key : RawKey) (value : RawValue) (br : BranchId) (n : VersionId)
    → IsValid s
    → latest s br ≡ some n
    → get_by_branch (insert_by_branch key value br s).1 key br ≡ non_empty value
get_by_branch-insert_by_branch s key value br n valid h =
    rw (insert_by_branch-latest s key value br n valid h)
      (get_by_branch-written s key n value br valid h)

-- After a removal on a branch that has a version, the branch reads nothing under the key.
pub get_by_branch-remove_by_branch :
    (s : MapxRawVs) (key : RawKey) (br : BranchId) (n : VersionId)
    → IsValid s
    → latest s br ≡ some n
    → get_by_branch (remove_by_branch key br s).1 key br ≡ none
get_by_branch-remove_by_branch s key br n valid h =
    rw (remove_by_branch-latest s key br n valid h) (elim (Option-cases (get_by_branch s key br)) [
      | inl gone ↦ rw gone gone
      | inr (v, there) ↦ rw there (get_by_branch-written s key n [] br valid h)
    ])

-- In a valid state, an insertion on a branch with latest version `n` changes no read under another
-- key, none of a version before `n`, and none of a branch that does not have `n`.
pub get_by_branch_version-insert_by_branch :
    (s : MapxRawVs) (key : RawKey) (value : RawValue) (br : BranchId) (n : VersionId) (j : RawKey)
    (other : BranchId) (ver : VersionId)
    → IsValid s
    → latest s br ≡ some n
    → (j ≢ key) ⊎ (ver < n) ⊎ (Mapx.get (at s.br_to_its_vers other) n ≡ none)
    → get_by_branch_version (insert_by_branch key value br s).1 j other ver
      ≡ get_by_branch_version s j other ver
get_by_branch_version-insert_by_branch s key value br n j other ver valid h apart =
    rw (insert_by_branch-latest s key value br n valid h)
      (get_by_branch_version-written s key n value j other ver valid apart)

-- The same of a removal.
pub get_by_branch_version-remove_by_branch :
    (s : MapxRawVs) (key : RawKey) (br : BranchId) (n : VersionId) (j : RawKey) (other : BranchId)
    (ver : VersionId)
    → IsValid s
    → latest s br ≡ some n
    → (j ≢ key) ⊎ (ver < n) ⊎ (Mapx.get (at s.br_to_its_vers other) n ≡ none)
    → get_by_branch_version (remove_by_branch key br s).1 j other ver
      ≡ get_by_branch_version s j other ver
get_by_branch_version-remove_by_branch s key br n j other ver valid h apart =
    rw (remove_by_branch-latest s key br n valid h) (elim (Option-cases (get_by_branch s key br)) [
      | inl gone ↦ rw gone
      | inr (v, there) ↦ rw there (get_by_branch_version-written s key n [] j other ver valid apart)
    ])
