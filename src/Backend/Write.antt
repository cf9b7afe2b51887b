-- ===== src/Backend/Write.antt =====
-- What a write of one value at one version changes in the view.
use Prim.Native.Nat.Ordering.{eq}
use native.Mathlib.Decide.{ℕ_discrete}
use vsdb.Prelude.{
  ◌≤◌, ◌<◌, ◌≡◌, ◌≢◌, ◌⊎◌, ap, ◌∙◌, true, none, some, [], ◌>>=?◌, if◌then◌else◌, arith, inl, inr,
  is_some, ◌==◌,
}
use vsdb.Common.{RawKey, RawValue, BranchId, VersionId}
use vsdb.Exec.{ok}
use vsdb.Mapx
use vsdb.Mapx.{Mapx, at, or_empty, nat_ord, bytes_ord}
use vsdb.Mapx.Laws.{get-insert}
use vsdb.Mapx.Sorted.{newest_ext, newest_skip, newest_here}
use vsdb.Backend.{MapxRawVs}
use vsdb.Backend.Data.{
  non_empty, put_layered, put_change, write_by_branch_version, get_by_branch_version,
}
use vsdb.Backend.View.{visible, view, visible-none}

-- The state after a write that succeeds.
abbrev pub written : MapxRawVs → RawKey → VersionId → RawValue → MapxRawVs
written s key n value = put_change (put_layered s key n value) n (at s.ver_to_change_set n) key

pub at-written :
    (s : MapxRawVs) (key : RawKey) (n : VersionId) (value : RawValue) (j : RawKey) (m : VersionId)
    → Mapx.get (at (written s key n value).layered_kv j) m ≡ elim (Mapx.cmp_bytes j key) [
      | eq ↦ if m == n then some value else Mapx.get (at s.layered_kv j) m
      | _ ↦ Mapx.get (at s.layered_kv j) m
    ]
at-written s key n value j m = ground (
  arith,
  get-insert s.layered_kv key (Mapx.insert (at s.layered_kv key) n value) j,
  get-insert (at s.layered_kv key) n value m,
  Mapx.eq_of_cmp_bytes j key,
)

-- A write under a version of the branch changes what is visible there, and nothing else.
visible-written :
    (s : MapxRawVs) (key : RawKey) (n : VersionId) (value : RawValue) (j : RawKey) (br : BranchId)
    (m : VersionId)
    → (j ≢ key) ⊎ (m ≢ n) ⊎ (Mapx.get (at s.br_to_its_vers br) m ≡ none)
    → visible (written s key n value) j br m ≡ visible s j br m
visible-written s key n value j br m h =
    ground (arith, at-written s key n value j m, Mapx.eq_of_cmp_bytes j key)

-- What keeps a whole read apart from a write keeps each version apart that the read may use.
unaffected_below :
    (s : MapxRawVs) (key j : RawKey) (br : BranchId) (n ver m : VersionId)
    → m ≤ ver
    → (j ≢ key) ⊎ (ver < n) ⊎ (Mapx.get (at s.br_to_its_vers br) n ≡ none)
    → (j ≢ key) ⊎ (m ≢ n) ⊎ (Mapx.get (at s.br_to_its_vers br) m ≡ none)
unaffected_below s key j br n ver m le (inl other_key) = inl other_key
unaffected_below s key j br n ver m le (inr (inl earlier)) = inr (inl (omega arith))
unaffected_below s key j br n ver m le (inr (inr absent)) = elim (ℕ_discrete m n) [
  | yes same ↦ inr (inr (rw same absent))
  | no other ↦ inr (inl other)
]

visible-written_self :
    (s : MapxRawVs) (key : RawKey) (n : VersionId) (value : RawValue) (br : BranchId)
    → Mapx.contains_key (at s.br_to_its_vers br) n ≡ true
    → visible (written s key n value) key br n ≡ some value
visible-written_self s key n value br on =
    ground (arith, at-written s key n value key n, Mapx.cmp_bytes_refl key)

-- A write is not seen at earlier versions, by branches without its version, or under other keys.
pub view-written_frame :
    (s : MapxRawVs) (key : RawKey) (n : VersionId) (value : RawValue) (j : RawKey) (br : BranchId)
    (ver : VersionId)
    → (j ≢ key) ⊎ (ver < n) ⊎ (Mapx.get (at s.br_to_its_vers br) n ≡ none)
    → view (written s key n value) j br ver ≡ view s j br ver
unfolding view
view-written_frame s key n value j br ver h =
    ap (λ o. o >>=? non_empty)
      (newest_ext _ _ ver
        (λ m le. visible-written s key n value j br m (unaffected_below s key j br n ver m le h)))

-- A write at the latest version of a branch is what the branch reads.
pub view-written :
    (s : MapxRawVs) (key : RawKey) (n : VersionId) (value : RawValue) (br : BranchId)
    (ver : VersionId)
    → Mapx.contains_key (at s.br_to_its_vers br) n ≡ true
    → n ≤ ver
    → ((m : VersionId) → n < m → Mapx.get (at s.br_to_its_vers br) m ≡ none)
    → view (written s key n value) key br ver ≡ non_empty value
unfolding view
view-written s key n value br ver on le above =
    ap (λ o. o >>=? non_empty)
      (newest_skip _ n ver le (λ m lt _. visible-none (written s key n value) key br m (above m lt))
        ∙ newest_here _ n value (visible-written_self s key n value br on))

-- The write returns the earlier value, and ends in that state.
pub write_by_branch_version-some :
    (s : MapxRawVs) (key : RawKey) (value : RawValue) (br : BranchId) (n : VersionId)
    → Mapx.contains_key s.ver_to_change_set n ≡ true
    → write_by_branch_version key (some value) br n s
      ≡ (ok (get_by_branch_version s key br n), written s key n value)
unfolding write_by_branch_version
write_by_branch_version-some s key value br n h = ground arith

pub write_by_branch_version-none :
    (s : MapxRawVs) (key : RawKey) (br : BranchId) (n : VersionId)
    → Mapx.contains_key s.ver_to_change_set n ≡ true
    → write_by_branch_version key none br n s ≡ (
      ok (get_by_branch_version s key br n),
      if is_some (get_by_branch_version s key br n) then written s key n [] else s,
    )
unfolding write_by_branch_version
write_by_branch_version-none s key br n h = ground arith
