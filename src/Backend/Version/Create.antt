-- ===== src/Backend/Version/Create.antt =====
-- The operations on versions keep the invariant.
use Prim.Native.Nat.Ordering.{eq}
use vsdb.Prelude.{
  ◌+◌, ◌%◌, ◌≤◌, ◌<◌, ◌≡◌, refl, sym, ap, ◌∙◌, true, none, some, [], ◌>>=?◌, arith, is_some, ◌==◌,
  if◌then◌else◌, if_elim, eq_none_of,
}
use vsdb.Common.{RawKey, RawBytes, BranchId, VersionId, u64_mod}
use vsdb.Exec.{Result, ok, err, version_already_exists, branch_not_found}
use vsdb.Mapx
use vsdb.Mapx.{Mapx, at, or_empty, nat_ord, bytes_ord}
use vsdb.Mapx.Laws.{get-empty, get-insert}
use vsdb.Mapx.Sorted.{IsSorted, newest_ext, insert-IsAbove}
use vsdb.Backend.{MapxRawVs}
use vsdb.Backend.Version.{version_create_by_branch}
use vsdb.Backend.Data.{non_empty, get_by_branch_version, get_by_branch}
use vsdb.Backend.View.{visible, view, get_by_branch_version-eq-view, get_by_branch-eq-view}
use vsdb.Backend.Invariant.{IsValid, IsConsistent, IsNamed}

-- The state after a version is created on a branch.
abbrev pub created : MapxRawVs → RawBytes → BranchId → MapxRawVs
created s name br = record s {
  br_to_its_vers =
      Mapx.insert s.br_to_its_vers br (Mapx.insert (at s.br_to_its_vers br) s.db.ver_id []);
  ver_name_to_ver_id = Mapx.insert s.ver_name_to_ver_id name s.db.ver_id;
  ver_id_to_ver_name = Mapx.insert s.ver_id_to_ver_name s.db.ver_id name;
  ver_to_change_set = Mapx.insert s.ver_to_change_set s.db.ver_id [];
  db = record s.db { ver_id = (1 + s.db.ver_id) % u64_mod };
}

-- A new version under an unused name, on a branch that is there; otherwise an error and no change.
pub version_create_by_branch_lem :
    (s : MapxRawVs) (name : RawBytes) (br : BranchId)
    → version_create_by_branch name br s ≡ (
        if is_some (Mapx.get s.ver_name_to_ver_id name)
        then (err version_already_exists, s)
        else if is_some (Mapx.get s.br_to_its_vers br)
        then (ok tt, created s name br)
        else (err branch_not_found, s))
unfolding version_create_by_branch
version_create_by_branch_lem s name br = ground arith

module _ (s : MapxRawVs) (name : RawBytes) (br : BranchId) (valid : IsValid s)
    (unused : Mapx.get s.ver_name_to_ver_id name ≡ none)
    (found : is_some (Mapx.get s.br_to_its_vers br) ≡ true) (room : 1 + s.db.ver_id < u64_mod) where
  fresh : Mapx.get s.ver_to_change_set s.db.ver_id ≡ none
  fresh = valid.allocated s.db.ver_id (omega arith)

  at-created :
      (b : BranchId) (n : VersionId)
      → Mapx.get (at (created s name br).br_to_its_vers b) n ≡ (
          if b == br
          then (if n == s.db.ver_id then some [] else Mapx.get (at s.br_to_its_vers b) n)
          else Mapx.get (at s.br_to_its_vers b) n)
  at-created b n = ground (
    arith,
    get-insert s.br_to_its_vers br (Mapx.insert (at s.br_to_its_vers br) s.db.ver_id []) b,
    get-insert (at s.br_to_its_vers br) s.db.ver_id [] n,
  )

  change_set-created :
      (n : VersionId)
      → Mapx.get (created s name br).ver_to_change_set n
        ≡ (if n == s.db.ver_id then some [] else Mapx.get s.ver_to_change_set n)
  change_set-created n = ground (arith, get-insert s.ver_to_change_set s.db.ver_id [] n)

  vers-IsSorted-created : (b : BranchId) → IsSorted (at (created s name br).br_to_its_vers b)
  vers-IsSorted-created b = ground (
    arith,
    get-insert s.br_to_its_vers br (Mapx.insert (at s.br_to_its_vers br) s.db.ver_id []) b,
    insert-IsAbove 0 (at s.br_to_its_vers br) s.db.ver_id [] (omega arith) (valid.vers_sorted br),
    valid.vers_sorted b,
  )

  created-IsConsistent : IsConsistent (created s name br)
  created-IsConsistent = record {
    vers_sorted = vers-IsSorted-created;
    kv_sorted = valid.kv_sorted;
    keys_sorted = valid.keys_sorted;
    changes_sorted = λ n.
        ground (arith, get-insert s.ver_to_change_set s.db.ver_id [] n, valid.changes_sorted n);
    versions_sorted =
        insert-IsAbove 0 s.ver_to_change_set s.db.ver_id [] (omega arith) valid.versions_sorted;
    recorded = λ b n on. ground (arith, at-created b n, change_set-created n, valid.recorded b n);
    allocated = λ n le. ground (arith, change_set-created n, valid.allocated n);
    in_range = omega arith;
    changes = λ n key.
        ground
          (arith, change_set-created n, valid.changes n key, fresh, get-empty {V = Unit {0}} key);
  }

  unnamed : Mapx.get s.ver_id_to_ver_name s.db.ver_id ≡ none
  unnamed = ground (arith, valid.ver_named s.db.ver_id, fresh)

  names-created :
      (other : RawBytes)
      → Mapx.get (created s name br).ver_name_to_ver_id other ≡ elim (Mapx.cmp_bytes other name) [
        | eq ↦ some s.db.ver_id
        | _ ↦ Mapx.get s.ver_name_to_ver_id other
      ]
  names-created other = get-insert s.ver_name_to_ver_id name s.db.ver_id other

  ids-created :
      (n : VersionId)
      → Mapx.get (created s name br).ver_id_to_ver_name n
        ≡ (if n == s.db.ver_id then some name else Mapx.get s.ver_id_to_ver_name n)
  ids-created n = ground (arith, get-insert s.ver_id_to_ver_name s.db.ver_id name n)

  branches-created :
      (b : BranchId)
      → Mapx.contains_key (created s name br).br_to_its_vers b
        ≡ Mapx.contains_key s.br_to_its_vers b
  branches-created b = ground (
    arith,
    get-insert s.br_to_its_vers br (Mapx.insert (at s.br_to_its_vers br) s.db.ver_id []) b,
  )

  created-IsNamed : IsNamed (created s name br)
  created-IsNamed = record {
    ver_names = λ other n. (
      ground (
        arith,
        names-created other,
        ids-created n,
        unnamed,
        valid.ver_names other n,
        Mapx.eq_of_cmp_bytes other name,
        Mapx.cmp_bytes_refl other,
      ),
      ground (
        arith,
        names-created other,
        ids-created n,
        unnamed,
        valid.ver_names other n,
        Mapx.eq_of_cmp_bytes other name,
        Mapx.cmp_bytes_refl other,
      ),
    );
    ver_named = λ n. ground (arith, ids-created n, change_set-created n, valid.ver_named n);
    br_names = valid.br_names;
    br_named = λ b. ground (arith, branches-created b, valid.br_named b);
    br_allocated = λ b le. ground (arith, branches-created b, valid.br_allocated b);
  }

  created-IsValid : IsValid (created s name br)
  created-IsValid = record { consistent = created-IsConsistent; named = created-IsNamed }

-- A fact about the state after the call holds if it holds of both outcomes.
version_create_by_branch_cases :
    (P : MapxRawVs → Type 0) (s : MapxRawVs) (name : RawBytes) (br : BranchId)
    → P s
    → (Mapx.get s.ver_name_to_ver_id name ≡ none
        → is_some (Mapx.get s.br_to_its_vers br) ≡ true
        → P (created s name br))
    → P (version_create_by_branch name br s).1
version_create_by_branch_cases P s name br same new =
    let Q = λ (r : Result Unit × MapxRawVs). P r.1 in
    rw (version_create_by_branch_lem s name br) (
      if_elim Q (is_some (Mapx.get s.ver_name_to_ver_id name)) _ _ (λ used. same)
        (λ unused.
          if_elim Q (is_some (Mapx.get s.br_to_its_vers br)) _ _
            (λ found. new (eq_none_of _ unused) found) (λ missing. same)))

-- The creation of a version keeps the invariant, whatever its result, while identifiers are left.
pub version_create_by_branch-IsValid :
    (s : MapxRawVs) (name : RawBytes) (br : BranchId)
    → 1 + s.db.ver_id < u64_mod
    → IsValid s
    → IsValid (version_create_by_branch name br s).1
version_create_by_branch-IsValid s name br room valid =
    version_create_by_branch_cases IsValid s name br valid
      (λ unused found. created-IsValid s name br valid unused found room)

at-version :
    (s : MapxRawVs) (name : RawBytes) (br : BranchId) (b : BranchId) (n : VersionId)
    → Mapx.get (at (created s name br).br_to_its_vers b) n ≡ (
        if b == br
        then (if n == s.db.ver_id then some [] else Mapx.get (at s.br_to_its_vers b) n)
        else Mapx.get (at s.br_to_its_vers b) n)
at-version s name br b n = ground (
  arith,
  get-insert s.br_to_its_vers br (Mapx.insert (at s.br_to_its_vers br) s.db.ver_id []) b,
  get-insert (at s.br_to_its_vers br) s.db.ver_id [] n,
)

-- The new version holds no value, so nothing else becomes visible.
visible-created :
    (s : MapxRawVs) (name : RawBytes) (br : BranchId) (key : RawKey) (b : BranchId) (n : VersionId)
    → IsValid s
    → visible (created s name br) key b n ≡ visible s key b n
visible-created s name br key b n valid = ground (
  arith,
  at-version s name br b n,
  valid.changes n key,
  valid.allocated n,
  get-empty {V = Unit {0}} key,
)

-- The creation of a version changes no read of any key, branch and version.
pub get_by_branch_version-version_create_by_branch :
    (s : MapxRawVs) (name : RawBytes) (br : BranchId) (key : RawKey) (b : BranchId)
    (ver : VersionId)
    → IsValid s
    → get_by_branch_version (version_create_by_branch name br s).1 key b ver
      ≡ get_by_branch_version s key b ver
unfolding view
get_by_branch_version-version_create_by_branch s name br key b ver valid =
    version_create_by_branch_cases
      (λ t. get_by_branch_version t key b ver ≡ get_by_branch_version s key b ver) s name br refl
      (λ unused found.
        get_by_branch_version-eq-view (created s name br) key b ver (valid.kv_sorted key)
        ∙ ap (λ o. o >>=? non_empty)
            (newest_ext _ _ ver (λ n le. visible-created s name br key b n valid))
        ∙ sym (get_by_branch_version-eq-view s key b ver (valid.kv_sorted key)))

under-valid :
    (s : MapxRawVs) (b : BranchId) (n : VersionId)
    → IsValid s
    → s.db.ver_id ≤ n
    → Mapx.get (at s.br_to_its_vers b) n ≡ none
under-valid s b n valid le = ground (arith, valid.recorded b n, valid.allocated n)

-- A read of the latest version is the view at the next free version identifier.
pub get_by_branch-eq-view_next :
    (s : MapxRawVs) (key : RawKey) (br : BranchId)
    → IsValid s
    → get_by_branch s key br ≡ view s key br s.db.ver_id
get_by_branch-eq-view_next s key br valid =
    get_by_branch-eq-view s key br s.db.ver_id (valid.vers_sorted br) (valid.kv_sorted key)
      (λ n le. under-valid s br n valid le)

-- Nor does it change what any branch reads at its latest version, which may be the new one.
pub get_by_branch-version_create_by_branch :
    (s : MapxRawVs) (name : RawBytes) (br : BranchId) (key : RawKey) (b : BranchId)
    → 1 + s.db.ver_id < u64_mod
    → IsValid s
    → get_by_branch (version_create_by_branch name br s).1 key b ≡ get_by_branch s key b
unfolding view
get_by_branch-version_create_by_branch s name br key b room valid =
    version_create_by_branch_cases (λ t. get_by_branch t key b ≡ get_by_branch s key b) s name br
      refl
      (λ unused found.
        let next = created-IsValid s name br valid unused found room in
        get_by_branch-eq-view (created s name br) key b (1 + s.db.ver_id) (next.vers_sorted b)
          (valid.kv_sorted key) (λ n le. under-valid (created s name br) b n next (omega arith))
        ∙ ap (λ o. o >>=? non_empty)
            (newest_ext _ _ (1 + s.db.ver_id) (λ n le. visible-created s name br key b n valid))
        ∙ sym (
            get_by_branch-eq-view s key b (1 + s.db.ver_id) (valid.vers_sorted b)
              (valid.kv_sorted key) (λ n le. under-valid s b n valid (omega arith))))
