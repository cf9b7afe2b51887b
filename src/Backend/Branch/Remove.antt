-- ===== src/Backend/Branch/Remove.antt =====
-- `branch_remove`: the branch and its name are gone, and the other branches stay as they are.
pub mod Reads
use Prim.Native.Nat.Ordering.{eq}
use vsdb.Prelude.{
  ◌≡◌, ◌≢◌, refl, sym, ap, ◌∙◌, true, none, some, [], ◌>>=?◌, arith, Option-cases, inl, inr,
  is_some, is_some_of, ◌==◌, if◌then◌else◌,
}
use vsdb.Common.{RawBytes, RawKey, RawValue, BranchId, VersionId}
use vsdb.Exec.{ok, err, branch_not_found}
use vsdb.Mapx
use vsdb.Mapx.{at, nat_ord, bytes_ord}
use vsdb.Mapx.Laws.{get-insert, get-remove, get-empty}
use vsdb.Mapx.Sorted.{newest_ext}
use vsdb.Backend.{MapxRawVs}
use vsdb.Backend.Data.{non_empty, get_by_branch_version}
use vsdb.Backend.View.{visible, view, get_by_branch_version-eq-view}
use vsdb.Backend.Branch.{branch_exists, branch_get_id_by_name, branch_remove}
use vsdb.Backend.Invariant.{IsValid}

-- The state after a branch with its name is removed.
abbrev pub removed : MapxRawVs → BranchId → RawBytes → MapxRawVs
removed s br name = record s {
  br_to_its_vers = Mapx.remove (Mapx.insert s.br_to_its_vers br []) br;
  br_id_to_br_name = Mapx.remove s.br_id_to_br_name br;
  br_name_to_br_id = Mapx.remove s.br_name_to_br_id name;
}

-- A branch that is there has a name, and is removed with it; no step of the removal fails.
pub branch_remove-found :
    (s : MapxRawVs) (br : BranchId)
    → IsValid s
    → is_some (Mapx.get s.br_to_its_vers br) ≡ true
    → (name : RawBytes) × (Mapx.get s.br_id_to_br_name br ≡ some name)
      × (branch_remove br s ≡ (ok tt, removed s br name))
unfolding branch_remove
branch_remove-found s br valid found = elim (Option-cases (Mapx.get s.br_id_to_br_name br)) [
  | inl absent ↦ ground (arith, valid.br_named br)
  | inr (name, named) ↦
      let known : Mapx.get s.br_name_to_br_id name ≡ some br = (valid.br_names name br).1 named in
      (name, named, ground (arith, named, known, get-insert s.br_to_its_vers br [] br))
]

pub branch_remove-none :
    (s : MapxRawVs) (br : BranchId)
    → Mapx.get s.br_to_its_vers br ≡ none
    → branch_remove br s ≡ (err branch_not_found, s)
unfolding branch_remove
branch_remove-none s br absent = rw absent

module _ (s : MapxRawVs) (br : BranchId) (name : RawBytes) (valid : IsValid s)
    (named : Mapx.get s.br_id_to_br_name br ≡ some name) where
  pub vers-removed :
      (b : BranchId)
      → Mapx.get (removed s br name).br_to_its_vers b
        ≡ (if b == br then none else Mapx.get s.br_to_its_vers b)
  vers-removed b = ground (
    arith,
    get-remove (Mapx.insert s.br_to_its_vers br []) br b,
    get-insert s.br_to_its_vers br [] b,
  )

  pub ids-removed :
      (b : BranchId)
      → Mapx.get (removed s br name).br_id_to_br_name b
        ≡ (if b == br then none else Mapx.get s.br_id_to_br_name b)
  ids-removed b = ground (arith, get-remove s.br_id_to_br_name br b)

  pub names-removed :
      (other : RawBytes)
      → Mapx.get (removed s br name).br_name_to_br_id other
        ≡ elim (Mapx.cmp_bytes other name) [ eq ↦ none | _ ↦ Mapx.get s.br_name_to_br_id other ]
  names-removed other = get-remove s.br_name_to_br_id name other

  pub removed-IsValid : IsValid (removed s br name)
  removed-IsValid = record {
    consistent = record {
      vers_sorted = λ b. ground (arith, vers-removed b, valid.vers_sorted b);
      kv_sorted = valid.kv_sorted;
      keys_sorted = valid.keys_sorted;
      changes_sorted = valid.changes_sorted;
      versions_sorted = valid.versions_sorted;
      recorded =
          λ b n on. ground (arith, vers-removed b, get-empty {V = RawValue} n, valid.recorded b n);
      allocated = valid.allocated;
      in_range = valid.in_range;
      changes = valid.changes;
    };
    named = record {
      ver_names = valid.ver_names;
      ver_named = valid.ver_named;
      br_names = λ other b. (
        ground (
          arith,
          names-removed other,
          ids-removed b,
          valid.br_names other b,
          valid.br_names other br,
          Mapx.eq_of_cmp_bytes other name,
          Mapx.cmp_bytes_refl other,
        ),
        ground (
          arith,
          names-removed other,
          ids-removed b,
          valid.br_names other b,
          valid.br_names name br,
          valid.br_names name b,
          Mapx.eq_of_cmp_bytes other name,
        ),
      );
      br_named = λ b. ground (arith, vers-removed b, ids-removed b, valid.br_named b);
      br_allocated = λ b le. ground (arith, vers-removed b, valid.br_allocated b);
    };
  }

-- What holds of the state before and of every removal from it holds afterwards.
pub branch_remove_cases :
    (P : MapxRawVs → Type 0) (s : MapxRawVs) (br : BranchId)
    → IsValid s
    → P s
    → ((name : RawBytes) → Mapx.get s.br_id_to_br_name br ≡ some name → P (removed s br name))
    → P (branch_remove br s).1
branch_remove_cases P s br valid same new = elim (Option-cases (Mapx.get s.br_to_its_vers br)) [
  | inl absent ↦ rw (branch_remove-none s br absent) same
  | inr (vers, found) ↦
      let (name, named, e) = branch_remove-found s br valid (is_some_of _ found) in
      rw e (new name named)
]

-- The removal of a branch keeps the invariant, whether the branch is there or not.
pub branch_remove-IsValid :
    (s : MapxRawVs) (br : BranchId) → IsValid s → IsValid (branch_remove br s).1
branch_remove-IsValid s br valid =
    branch_remove_cases IsValid s br valid valid
      (λ name named. removed-IsValid s br name valid named)
