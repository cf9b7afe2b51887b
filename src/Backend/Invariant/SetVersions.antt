-- ===== src/Backend/Invariant/SetVersions.antt =====
-- The versions of one branch as a set, replaced as a whole: what keeps the invariant.
use vsdb.Prelude.{◌≤◌, ◌≡◌, ◌≢◌, sym, ap, ◌∙◌, true, none, ◌>>=?◌, arith, is_some, if◌then◌else◌}
use vsdb.Common.{RawKey, BranchId, VersionId}
use vsdb.Mapx
use vsdb.Mapx.{Mapx, at, or_empty, nat_ord, bytes_ord}
use vsdb.Mapx.Laws.{get-insert}
use vsdb.Mapx.Sorted.{IsSorted, newest_ext}
use vsdb.Backend.{MapxRawVs, VerMap}
use vsdb.Backend.Data.{non_empty, get_by_branch_version}
use vsdb.Backend.View.{visible, view, get_by_branch_version-eq-view}
use vsdb.Backend.Invariant.{IsValid}

-- The state after the versions of a branch are replaced.
abbrev pub set_versions : MapxRawVs → BranchId → VerMap → MapxRawVs
set_versions s br vers = record s { br_to_its_vers = Mapx.insert s.br_to_its_vers br vers }

module _ (s : MapxRawVs) (br : BranchId) (vers : VerMap) (valid : IsValid s)
    (found : is_some (Mapx.get s.br_to_its_vers br) ≡ true) (in_order : IsSorted vers)
    (known : (n : VersionId)
      → Mapx.contains_key vers n ≡ true
      → Mapx.contains_key s.ver_to_change_set n ≡ true) where
  pub set_versions-IsValid : IsValid (set_versions s br vers)
  set_versions-IsValid = record {
    consistent = record {
      vers_sorted = λ b. ground (arith, get-insert s.br_to_its_vers br vers b, valid.vers_sorted b);
      kv_sorted = valid.kv_sorted;
      keys_sorted = valid.keys_sorted;
      changes_sorted = valid.changes_sorted;
      versions_sorted = valid.versions_sorted;
      recorded = λ b n on.
          ground (arith, get-insert s.br_to_its_vers br vers b, valid.recorded b n, known n);
      allocated = valid.allocated;
      in_range = valid.in_range;
      changes = valid.changes;
    };
    named = record {
      ver_names = valid.ver_names;
      ver_named = valid.ver_named;
      br_names = valid.br_names;
      br_named = λ b. ground (arith, get-insert s.br_to_its_vers br vers b, valid.br_named b);
      br_allocated =
          λ b le. ground (arith, get-insert s.br_to_its_vers br vers b, valid.br_allocated b);
    };
  }

-- What is visible on a branch depends on its own versions alone.
visible-set_versions_ne :
    (s : MapxRawVs) (br : BranchId) (vers : VerMap) (key : RawKey) (b : BranchId) (n : VersionId)
    → b ≢ br
    → visible (set_versions s br vers) key b n ≡ visible s key b n
visible-set_versions_ne s br vers key b n other =
    ground (arith, get-insert s.br_to_its_vers br vers b)

visible-set_versions :
    (s : MapxRawVs) (br : BranchId) (vers : VerMap) (key : RawKey) (n : VersionId)
    → visible (set_versions s br vers) key br n
      ≡ (if Mapx.contains_key vers n then Mapx.get (at s.layered_kv key) n else none)
visible-set_versions s br vers key n = ground (arith, get-insert s.br_to_its_vers br vers br)

-- A change of the versions of one branch changes no read of the others.
pub get_by_branch_version-set_versions_ne :
    (s : MapxRawVs) (br : BranchId) (vers : VerMap) (key : RawKey) (b : BranchId) (ver : VersionId)
    → IsValid s
    → b ≢ br
    → get_by_branch_version (set_versions s br vers) key b ver ≡ get_by_branch_version s key b ver
unfolding view
get_by_branch_version-set_versions_ne s br vers key b ver valid other =
    get_by_branch_version-eq-view (set_versions s br vers) key b ver (valid.kv_sorted key)
    ∙ ap (λ o. o >>=? non_empty)
        (newest_ext _ _ ver (λ n le. visible-set_versions_ne s br vers key b n other))
    ∙ sym (get_by_branch_version-eq-view s key b ver (valid.kv_sorted key))

-- Two branches, of two states that hold the same values, read alike down from a version where they
-- have the same versions.
pub get_by_branch_version-set_versions :
    (s : MapxRawVs) (br : BranchId) (vers : VerMap) (key : RawKey) (b : BranchId) (ver : VersionId)
    → IsValid s
    → ((n : VersionId)
        → n ≤ ver
        → Mapx.contains_key vers n ≡ Mapx.contains_key (at s.br_to_its_vers b) n)
    → get_by_branch_version (set_versions s br vers) key br ver ≡ get_by_branch_version s key b ver
unfolding view
get_by_branch_version-set_versions s br vers key b ver valid same =
    get_by_branch_version-eq-view (set_versions s br vers) key br ver (valid.kv_sorted key)
    ∙ ap (λ o. o >>=? non_empty)
        (newest_ext _ _ ver (λ n le. rw (visible-set_versions s br vers key n, same n le)))
    ∙ sym (get_by_branch_version-eq-view s key b ver (valid.kv_sorted key))
