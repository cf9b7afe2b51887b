-- ===== src/Backend/Branch/Create.antt =====
-- The creation of a branch from a version of a base branch.
use Prim.Native.Nat.Ordering.{eq}
use vsdb.Prelude.{
  ◌+◌, ◌%◌, ◌<◌, ◌≡◌, refl, true, false, Option, none, some, [], arith, Option-cases, Bool-cases,
  inl, inr, ◌==◌, if◌then◌else◌,
}
use vsdb.Common.{RawBytes, RawValue, BranchId, VersionId, u64_mod}
use vsdb.Exec.{resume}
use vsdb.Mapx
use vsdb.Mapx.{at, nat_ord, bytes_ord}
use vsdb.Mapx.Laws.{get-insert, get-empty}
use vsdb.Mapx.Sorted.{IsSorted, range_to-IsAbove, get-range_to}
use vsdb.Backend.{MapxRawVs, VerMap}
use vsdb.Backend.Version.Create.{version_create_by_branch-IsValid}
use vsdb.Backend.Branch.{
  do_branch_create_by_base_branch_version, create_first_version, remove_if_forced, branch_remove,
}
use vsdb.Backend.Invariant.{IsValid}

-- The state after a branch with the versions `vers` is entered under a name.
abbrev pub forked : MapxRawVs → RawBytes → VerMap → MapxRawVs
forked s name vers = record s {
  br_name_to_br_id = Mapx.insert s.br_name_to_br_id name s.db.br_id;
  br_id_to_br_name = Mapx.insert s.br_id_to_br_name s.db.br_id name;
  br_to_its_vers = Mapx.insert s.br_to_its_vers s.db.br_id vers;
  db = record s.db { br_id = (1 + s.db.br_id) % u64_mod };
}

-- The versions that a new branch copies from its base.
abbrev pub copied : VerMap → Option VersionId → VerMap
copied vers none = []
copied vers (some bv) = Mapx.range_to vers bv

copied-IsSorted :
    (vers : VerMap) (bv : Option VersionId) → IsSorted vers → IsSorted (copied vers bv)
copied-IsSorted vers none s = tt
copied-IsSorted vers (some bv) s = range_to-IsAbove 0 vers bv s

contains-copied :
    (vers : VerMap) (bv : Option VersionId) (n : VersionId)
    → Mapx.contains_key (copied vers bv) n ≡ true
    → Mapx.contains_key vers n ≡ true
contains-copied vers none n on = ground (arith, get-empty {V = RawValue} n)
contains-copied vers (some bv) n on = ground (arith, get-range_to vers bv n)

module _ (s : MapxRawVs) (name : RawBytes) (vers : VerMap) (valid : IsValid s)
    (unused : Mapx.get s.br_name_to_br_id name ≡ none) (in_order : IsSorted vers)
    (known : (n : VersionId)
      → Mapx.contains_key vers n ≡ true
      → Mapx.contains_key s.ver_to_change_set n ≡ true)
    (room : 1 + s.db.br_id < u64_mod) where
  fresh : Mapx.get s.br_to_its_vers s.db.br_id ≡ none
  fresh = valid.br_allocated s.db.br_id (omega arith)

  unnamed : Mapx.get s.br_id_to_br_name s.db.br_id ≡ none
  unnamed = ground (arith, fresh, valid.br_named s.db.br_id)

  ids-forked :
      (b : BranchId)
      → Mapx.get (forked s name vers).br_id_to_br_name b
        ≡ (if b == s.db.br_id then some name else Mapx.get s.br_id_to_br_name b)
  ids-forked b = ground (arith, get-insert s.br_id_to_br_name s.db.br_id name b)

  vers-forked :
      (b : BranchId)
      → Mapx.get (forked s name vers).br_to_its_vers b
        ≡ (if b == s.db.br_id then some vers else Mapx.get s.br_to_its_vers b)
  vers-forked b = ground (arith, get-insert s.br_to_its_vers s.db.br_id vers b)

  names-forked :
      (other : RawBytes)
      → Mapx.get (forked s name vers).br_name_to_br_id other ≡ elim (Mapx.cmp_bytes other name) [
        | eq ↦ some s.db.br_id
        | _ ↦ Mapx.get s.br_name_to_br_id other
      ]
  names-forked other = get-insert s.br_name_to_br_id name s.db.br_id other

  forked-IsValid : IsValid (forked s name vers)
  forked-IsValid = record {
    consistent = record {
      vers_sorted = λ b. ground (arith, vers-forked b, valid.vers_sorted b);
      kv_sorted = valid.kv_sorted;
      keys_sorted = valid.keys_sorted;
      changes_sorted = valid.changes_sorted;
      versions_sorted = valid.versions_sorted;
      recorded = λ b n on. ground (arith, vers-forked b, known n, valid.recorded b n);
      allocated = valid.allocated;
      in_range = valid.in_range;
      changes = valid.changes;
    };
    named = record {
      ver_names = valid.ver_names;
      ver_named = valid.ver_named;
      br_names = λ other b. (
        ground (
          arith,
          names-forked other,
          ids-forked b,
          unnamed,
          valid.br_names other b,
          Mapx.eq_of_cmp_bytes other name,
          Mapx.cmp_bytes_refl other,
        ),
        ground (
          arith,
          names-forked other,
          ids-forked b,
          unnamed,
          valid.br_names other b,
          Mapx.eq_of_cmp_bytes other name,
          Mapx.cmp_bytes_refl other,
        ),
      );
      br_named = λ b. ground (arith, vers-forked b, ids-forked b, valid.br_named b);
      br_allocated = λ b le. ground (arith, vers-forked b, valid.br_allocated b);
    };
  }

-- What holds of the unchanged state, and of the state after the last step, holds of the result of a
-- creation that is not forced.
pub create_cases :
    (P : MapxRawVs → Type 0) (s : MapxRawVs) (name : RawBytes) (ver_name : Option RawBytes)
    (base : BranchId) (bv : Option VersionId)
    → P s
    → ((vers : VerMap)
        → Mapx.get s.br_name_to_br_id name ≡ none
        → Mapx.get s.br_to_its_vers base ≡ some vers
        → P (create_first_version ver_name s.db.br_id (forked s name (copied vers bv))).1)
    → P (do_branch_create_by_base_branch_version name ver_name base bv false s).1
unfolding do_branch_create_by_base_branch_version
create_cases P s name ver_name base none same new =
    elim (Option-cases (Mapx.get s.br_name_to_br_id name)) [
      | inr (id, used) ↦ rw used same
      | inl unused ↦ elim (Option-cases (Mapx.get s.br_to_its_vers base)) [
        | inl absent ↦ rw (unused, absent) same
        | inr (vers, found) ↦ rw (unused, found) (new vers unused found)
      ]
    ]
create_cases P s name ver_name base (some v) same new =
    elim (Option-cases (Mapx.get s.br_name_to_br_id name)) [
      | inr (id, used) ↦ rw used same
      | inl unused ↦ elim (Option-cases (Mapx.get s.br_to_its_vers base)) [
        | inl absent ↦ rw (unused, absent) same
        | inr (vers, found) ↦ elim (Bool-cases (Mapx.contains_key vers v)) [
          | inl on ↦ rw (unused, found, on) (new vers unused found)
          | inr off ↦ rw (unused, found, off) same
        ]
      ]
    ]

create_first_version-IsValid :
    (s : MapxRawVs) (ver_name : Option RawBytes) (br : BranchId)
    → 1 + s.db.ver_id < u64_mod
    → IsValid s
    → IsValid (create_first_version ver_name br s).1
create_first_version-IsValid s none br room valid = valid
create_first_version-IsValid s (some name) br room valid =
    version_create_by_branch-IsValid s name br room valid

pub forked_base-IsValid :
    (s : MapxRawVs) (name : RawBytes) (base : BranchId) (bv : Option VersionId) (vers : VerMap)
    → IsValid s
    → Mapx.get s.br_name_to_br_id name ≡ none
    → Mapx.get s.br_to_its_vers base ≡ some vers
    → 1 + s.db.br_id < u64_mod
    → IsValid (forked s name (copied vers bv))
forked_base-IsValid s name base bv vers valid unused found room =
    forked-IsValid s name (copied vers bv) valid unused
      (copied-IsSorted vers bv (rw found at (valid.vers_sorted base)))
      (λ n on. valid.recorded base n (rw found (contains-copied vers bv n on))) room

pub create-IsValid :
    (s : MapxRawVs) (name : RawBytes) (ver_name : Option RawBytes) (base : BranchId)
    (bv : Option VersionId)
    → 1 + s.db.br_id < u64_mod
    → 1 + s.db.ver_id < u64_mod
    → IsValid s
    → IsValid (do_branch_create_by_base_branch_version name ver_name base bv false s).1
create-IsValid s name ver_name base bv br_room ver_room valid =
    create_cases IsValid s name ver_name base bv valid (λ vers unused found.
      create_first_version-IsValid (forked s name (copied vers bv)) ver_name s.db.br_id ver_room
        (forked_base-IsValid s name base bv vers valid unused found br_room))

pub remove_if_forced_keeps :
    (P : MapxRawVs → Type 0) (s : MapxRawVs) (name : RawBytes)
    → P s
    → ((br : BranchId) → P (branch_remove br s).1)
    → P (remove_if_forced true name s).1
unfolding remove_if_forced
remove_if_forced_keeps P s name same gone = elim (Option-cases (Mapx.get s.br_name_to_br_id name)) [
  | inl unused ↦ rw unused same
  | inr (br, used) ↦ rw used (gone br)
]

-- A forced creation is the removal of the named branch, then a creation that is not forced.
pub create-forced :
    (s : MapxRawVs) (name : RawBytes) (ver_name : Option RawBytes) (base : BranchId)
    (bv : Option VersionId)
    → do_branch_create_by_base_branch_version name ver_name base bv true s ≡ (
        let (r, t) = remove_if_forced true name s in
        resume r (λ _. do_branch_create_by_base_branch_version name ver_name base bv false) t)
unfolding do_branch_create_by_base_branch_version
create-forced s name ver_name base bv = refl
