-- ===== src/Backend/Prune/Clean.antt =====
-- `version_clean_up_globally`: it succeeds whenever the locks are free, and no read changes.
use vsdb.Prelude.{
  ◌≡◌, refl, sym, ap, ◌∙◌, Bool, true, false, not, ◌&&◌, ◌||◌, Option, none, [], ◌∷◌, arith,
  if◌then◌else◌, Bool-cases, inl, inr, ◌>>=?◌,
}
use vsdb.Common.{RawKey, RawValue, BranchId, VersionId}
use vsdb.Exec.{Result, ok}
use vsdb.Mapx
use vsdb.Mapx.{Mapx, at, nat_ord, bytes_ord}
use vsdb.Mapx.Sorted.{mem-keys, newest_ext}
use vsdb.Backend.{MapxRawVs, VerMap}
use vsdb.Backend.Data.{non_empty, get_by_branch_version}
use vsdb.Backend.View.{visible, view, get_by_branch_version-eq-view}
use vsdb.Backend.Invariant.{IsValid}
use vsdb.Backend.Prune.{Locks, valid_vers, do_prune, version_clean_up_globally}
use vsdb.Backend.Prune.Orphans.{
  contains-foldl, get-orphans, is_orphan, on_branch-is_orphan, run-clean_orphans, Cleaned,
  cleaned_values, cleaned_state, cleaned_change_sets, cleaned-IsValid,
}

-- Some branch has the version.
abbrev pub on_some_branch : Mapx BranchId VerMap → VersionId → Bool
on_some_branch [] n = false
on_some_branch ((br, vers) ∷ m) n = Mapx.contains_key vers n || on_some_branch m n

valid-eq-on_some_branch :
    (m : Mapx BranchId VerMap) (n : VersionId)
    → Mapx.contains_key (valid_vers m) n ≡ on_some_branch m n
unfolding valid_vers Mapx.get
valid-eq-on_some_branch [] n = refl
valid-eq-on_some_branch ((br, vers) ∷ m) n = ground (
  arith,
  contains-foldl (Mapx.keys vers) (valid_vers m) n,
  mem-keys vers n,
  valid-eq-on_some_branch m n,
)

module _ (s u t : MapxRawVs) (valid : IsValid s) (h : Cleaned s valid u t) where
  kept_value :
      (on orphan changed : Bool) (v : Option RawValue)
      → (on ≡ true → orphan ≡ false)
      → (if on then (if orphan && changed then none else v) else none) ≡ (if on then v else none)
  kept_value on orphan changed v off = ground (arith, off)

  same_visible :
      (key : RawKey) (br : BranchId) (n : VersionId) → visible t key br n ≡ visible s key br n
  same_visible key br n =
      rw (cleaned_state s valid u t h, cleaned_values s valid u t h n key)
        (kept_value (Mapx.contains_key (at s.br_to_its_vers br) n) (is_orphan s valid n) _ _
          (on_branch-is_orphan s valid br n))

  same_view :
      (key : RawKey) (br : BranchId) (ver : VersionId) → view t key br ver ≡ view s key br ver
  unfolding view
  same_view key br ver =
      ap (λ o. o >>=? non_empty)
        (newest_ext (visible t key br) (visible s key br) ver (λ n le. same_visible key br n))

  same_read :
      (key : RawKey) (br : BranchId) (ver : VersionId)
      → get_by_branch_version t key br ver ≡ get_by_branch_version s key br ver
  same_read key br ver =
      let after = cleaned-IsValid s valid u t h in
      get_by_branch_version-eq-view t key br ver (after.kv_sorted key)
      ∙ same_view key br ver
      ∙ sym (get_by_branch_version-eq-view s key br ver (valid.kv_sorted key))

  without_orphans :
      (n : VersionId)
      → Mapx.get t.ver_to_change_set n
        ≡ (if on_some_branch s.br_to_its_vers n then Mapx.get s.ver_to_change_set n else none)
  unfolding is_orphan
  without_orphans n = ground (
    arith,
    cleaned_change_sets s valid u t h n,
    get-orphans s valid n,
    valid-eq-on_some_branch s.br_to_its_vers n,
  )

-- In a valid state, and when the call does not find a lock taken by another thread, the clean-up
-- succeeds; the state is valid again, every read of a key at a branch and version gives what it gave
-- before, and the versions that have a change set are those of before that are on some branch.
pub version_clean_up_globally-keeps_reads :
    (s : MapxRawVs) (locks : Locks)
    → IsValid s
    → (not locks.waits && locks.busy) ≡ false
    → (t : MapxRawVs) × (version_clean_up_globally locks s ≡ (ok tt, t))
      × IsValid t
      × ((key : RawKey) (br : BranchId) (ver : VersionId)
          → get_by_branch_version t key br ver ≡ get_by_branch_version s key br ver)
      × ((n : VersionId)
          → Mapx.get t.ver_to_change_set n
            ≡ (if on_some_branch s.br_to_its_vers n then Mapx.get s.ver_to_change_set n else none))
unfolding version_clean_up_globally do_prune
version_clean_up_globally-keeps_reads s locks valid free =
    let (u, t, run, h) = run-clean_orphans s valid in
    (
      t,
      rw (free, run) refl,
      cleaned-IsValid s valid u t h,
      same_read s u t valid h,
      without_orphans s u t valid h,
    )

-- Free or not, it keeps the state valid.
pub version_clean_up_globally-IsValid :
    (s : MapxRawVs) (locks : Locks) → IsValid s → IsValid (version_clean_up_globally locks s).1
unfolding version_clean_up_globally do_prune
version_clean_up_globally-IsValid s locks valid =
    elim (Bool-cases (not locks.waits && locks.busy)) [
      | inl taken ↦ rw taken valid
      | inr free ↦
          let (t, run, after, same, gone) =
            version_clean_up_globally-keeps_reads s locks valid free in
          rw (ap (λ (x : Result Unit × MapxRawVs). x.1) run) after
    ]
