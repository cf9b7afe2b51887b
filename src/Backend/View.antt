-- ===== src/Backend/View.antt =====
-- What a client can see of the version manager: for each key, branch and version the value that
-- was written last, at that version or before it, among the versions of the branch.
use vsdb.Prelude.{
  ◌≤◌, ◌<◌, ◌≡◌, refl, sym, ap, ◌∙◌, Option, none, some, ◌>>=?◌, if◌then◌else◌, arith, Option-cases,
  inl, inr,
}
use native.Mathlib.Decide.{dec_le}
use vsdb.Common.{RawKey, RawValue, BranchId, VersionId}
use vsdb.Mapx
use vsdb.Mapx.{Mapx, or_empty, at, nat_ord, bytes_ord}
use vsdb.Mapx.Sorted.{
  newest, newest_skip, newest-none, find_rev-range_to, IsSorted, snd?, get-last, get-last-none,
  get_above-last,
}
use vsdb.Backend.{MapxRawVs, VerMap}
use vsdb.Backend.Data.{non_empty, get_by_branch_version, get_by_branch}

-- The value that one version of a branch holds for a key.
abbrev pub visible : MapxRawVs → RawKey → BranchId → VersionId → Option RawValue
visible s key br n =
    if Mapx.contains_key (at s.br_to_its_vers br) n then Mapx.get (at s.layered_kv key) n else none

unfoldable pub view : MapxRawVs → RawKey → BranchId → VersionId → Option RawValue
view s key br ver = newest (visible s key br) ver >>=? non_empty

then_non_empty :
    (e : Option (VersionId × RawValue)) → (e >>=? λ x. non_empty x.1) ≡ (snd? e >>=? non_empty)
then_non_empty none = refl
then_non_empty (some (n, v)) = refl

-- The three look-ups of a read, over the two nested maps that it finds or misses.
pub read-eq-newest :
    (vers kvers : Option VerMap) (ver : VersionId)
    → IsSorted (or_empty kvers)
    → (vers >>=? λ vs. kvers >>=? λ kvs.
        Mapx.find_rev (Mapx.contains_key vs) (Mapx.range_to kvs ver) >>=? λ e. non_empty e.1)
      ≡ (newest
            (λ n. if Mapx.contains_key (or_empty vers) n then Mapx.get (or_empty kvers) n else none)
            ver
          >>=? non_empty)
unfolding Mapx.get
read-eq-newest none kvers ver sorted =
    ap (λ o. o >>=? non_empty) (sym (newest-none _ ver (λ n le. refl)))
read-eq-newest (some vs) none ver sorted =
    ap (λ o. o >>=? non_empty) (sym (newest-none _ ver (λ n le. ground arith)))
read-eq-newest (some vs) (some kvs) ver sorted =
    then_non_empty _
    ∙ ap (λ o. o >>=? non_empty) (find_rev-range_to 0 kvs (Mapx.contains_key vs) ver sorted)

-- The read of the source is the view, when the values of each key are in the order of versions.
pub get_by_branch_version-eq-view :
    (s : MapxRawVs) (key : RawKey) (br : BranchId) (ver : VersionId)
    → IsSorted (at s.layered_kv key)
    → get_by_branch_version s key br ver ≡ view s key br ver
unfolding get_by_branch_version view
get_by_branch_version-eq-view s key br ver sorted =
    read-eq-newest (Mapx.get s.br_to_its_vers br) (Mapx.get s.layered_kv key) ver sorted

-- A version that is not on the branch is not visible.
pub visible-none :
    (s : MapxRawVs) (key : RawKey) (br : BranchId) (n : VersionId)
    → Mapx.get (at s.br_to_its_vers br) n ≡ none
    → visible s key br n ≡ none
visible-none s key br n h = rw h

view-skip :
    (s : MapxRawVs) (key : RawKey) (br : BranchId) (low high : VersionId)
    → low ≤ high
    → ((n : VersionId) → low < n → Mapx.get (at s.br_to_its_vers br) n ≡ none)
    → view s key br high ≡ view s key br low
unfolding view
view-skip s key br low high le above =
    ap (λ o. o >>=? non_empty)
      (newest_skip _ low high le (λ n lt _. visible-none s key br n (above n lt)))

view-none :
    (s : MapxRawVs) (key : RawKey) (br : BranchId) (ver : VersionId)
    → ((n : VersionId) → visible s key br n ≡ none)
    → view s key br ver ≡ none
unfolding view
view-none s key br ver h = ap (λ o. o >>=? non_empty) (newest-none _ ver (λ n le. h n))

key-le :
    (vs : VerMap) (n : VersionId) (v : RawValue) (bound : VersionId)
    → Mapx.get vs n ≡ some v
    → ((m : VersionId) → bound ≤ m → Mapx.get vs m ≡ none)
    → n ≤ bound
key-le vs n v bound found under = elim (dec_le n bound) [
  | yes le ↦ le
  | no gt ↦ ground (arith, under n (omega arith))
]

-- The read at the latest version of a branch, over the versions that it finds.
latest-eq-view :
    (s : MapxRawVs) (key : RawKey) (br : BranchId) (bound : VersionId) (vers : Option VerMap)
    → Mapx.get s.br_to_its_vers br ≡ vers
    → IsSorted (at s.br_to_its_vers br)
    → IsSorted (at s.layered_kv key)
    → ((n : VersionId) → bound ≤ n → Mapx.get (at s.br_to_its_vers br) n ≡ none)
    → (vers >>=? λ vs. Mapx.last vs >>=? λ e. get_by_branch_version s key br e.0)
      ≡ view s key br bound
unfolding Mapx.get
latest-eq-view s key br bound none found sorted_vers sorted under =
    sym (view-none s key br bound (λ n. visible-none s key br n (rw found)))
latest-eq-view s key br bound (some vs) found sorted_vers sorted under =
    elim (Option-cases (Mapx.last vs)) [
      | inl empty ↦ rw empty (
          sym (
            view-none s key br bound
              (λ n. visible-none s key br n (rw found (get-last-none vs n empty)))))
      | inr ((n, v), is_last) ↦
          let in_order : IsSorted vs = rw found at sorted_vers in
          rw is_last (
            get_by_branch_version-eq-view s key br n sorted
            ∙ sym (
                view-skip s key br n bound
                  (key-le vs n v bound (get-last 0 vs n v in_order is_last)
                    (λ m le. rw found at (under m le)))
                  (λ m lt. rw found (get_above-last 0 vs n v m in_order is_last lt))))
    ]

-- A read of the latest version of a branch is the view at any bound on the versions of the branch.
pub get_by_branch-eq-view :
    (s : MapxRawVs) (key : RawKey) (br : BranchId) (bound : VersionId)
    → IsSorted (at s.br_to_its_vers br)
    → IsSorted (at s.layered_kv key)
    → ((n : VersionId) → bound ≤ n → Mapx.get (at s.br_to_its_vers br) n ≡ none)
    → get_by_branch s key br ≡ view s key br bound
unfolding get_by_branch
get_by_branch-eq-view s key br bound =
    latest-eq-view s key br bound (Mapx.get s.br_to_its_vers br) refl
