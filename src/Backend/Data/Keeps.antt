-- ===== src/Backend/Data/Keeps.antt =====
-- Writes of data keep the invariant.
use Prim.Native.Nat.Ordering.{eq}
use vsdb.Prelude.{◌≡◌, sym, ◌∙◌, true, some, [], arith, Option-cases, inl, inr, ◌==◌, if◌then◌else◌}
use vsdb.Common.{RawKey, RawValue, BranchId, VersionId}
use vsdb.Mapx
use vsdb.Mapx.{Mapx, at, or_empty, nat_ord, bytes_ord}
use vsdb.Mapx.Laws.{get-insert}
use vsdb.Mapx.Ascending.{insert-IsAscending, IsAscending}
use vsdb.Mapx.Sorted.{insert-IsAbove}
use vsdb.Backend.{MapxRawVs}
use vsdb.Backend.Data.{get_by_branch, insert_by_branch, remove_by_branch}
use vsdb.Backend.Invariant.{IsValid, IsConsistent, IsNamed}
use vsdb.Backend.Write.{written, at-written}
use vsdb.Backend.ReadWrite.{
  latest, latest-IsLatest, kv-IsSorted-written, insert_by_branch-latest, remove_by_branch-latest,
  writers_fail,
}

at-change :
    (s : MapxRawVs) (key : RawKey) (n : VersionId) (value : RawValue) (m : VersionId) (j : RawKey)
    → Mapx.get (at (written s key n value).ver_to_change_set m) j ≡ elim (Mapx.cmp_bytes j key) [
      | eq ↦ if m == n then some tt else Mapx.get (at s.ver_to_change_set m) j
      | _ ↦ Mapx.get (at s.ver_to_change_set m) j
    ]
at-change s key n value m j = ground (
  arith,
  get-insert s.ver_to_change_set n (Mapx.insert (at s.ver_to_change_set n) key tt) m,
  get-insert (at s.ver_to_change_set n) key tt j,
  Mapx.eq_of_cmp_bytes j key,
)

module _ (s : MapxRawVs) (key : RawKey) (n : VersionId) (value : RawValue) (valid : IsValid s)
    (recorded : Mapx.contains_key s.ver_to_change_set n ≡ true) where
  contains-written :
      (m : VersionId)
      → Mapx.contains_key (written s key n value).ver_to_change_set m
        ≡ Mapx.contains_key s.ver_to_change_set m
  contains-written m =
      ground
        (arith, get-insert s.ver_to_change_set n (Mapx.insert (at s.ver_to_change_set n) key tt) m)

  changes_sorted-written :
      (m : VersionId) → IsAscending (at (written s key n value).ver_to_change_set m)
  changes_sorted-written m = ground (
    arith,
    get-insert s.ver_to_change_set n (Mapx.insert (at s.ver_to_change_set n) key tt) m,
    insert-IsAscending (at s.ver_to_change_set n) key tt (valid.changes_sorted n),
    valid.changes_sorted m,
  )

  written-IsConsistent : IsConsistent (written s key n value)
  written-IsConsistent = record {
    vers_sorted = valid.vers_sorted;
    kv_sorted = λ j. kv-IsSorted-written s key n value j (valid.kv_sorted key) (valid.kv_sorted j);
    keys_sorted = insert-IsAscending s.layered_kv key _ valid.keys_sorted;
    changes_sorted = changes_sorted-written;
    versions_sorted = insert-IsAbove 0 s.ver_to_change_set n _ (omega arith) valid.versions_sorted;
    recorded = λ br m on. contains-written m ∙ valid.recorded br m on;
    allocated = λ m le. ground (arith, contains-written m, valid.allocated m le);
    in_range = valid.in_range;
    changes = λ m j.
        ground
          (arith, at-change s key n value m j, at-written s key n value j m, valid.changes m j);
  }

  written-IsNamed : IsNamed (written s key n value)
  written-IsNamed = record {
    ver_names = valid.ver_names;
    ver_named = λ m. valid.ver_named m ∙ sym (contains-written m);
    br_names = valid.br_names;
    br_named = valid.br_named;
    br_allocated = valid.br_allocated;
  }

  written-IsValid : IsValid (written s key n value)
  written-IsValid = record { consistent = written-IsConsistent; named = written-IsNamed }

-- An insertion keeps the invariant, on every branch identifier and whatever its result.
pub insert_by_branch-IsValid :
    (s : MapxRawVs) (key : RawKey) (value : RawValue) (br : BranchId)
    → IsValid s
    → IsValid (insert_by_branch key value br s).1
insert_by_branch-IsValid s key value br valid = elim (Option-cases (latest s br)) [
  | inl absent ↦ rw (writers_fail s key value br absent).0 valid
  | inr (n, h) ↦
      rw (insert_by_branch-latest s key value br n valid h)
        (written-IsValid s key n value valid (latest-IsLatest s br n valid h).recorded)
]

-- So does a removal.
pub remove_by_branch-IsValid :
    (s : MapxRawVs) (key : RawKey) (br : BranchId)
    → IsValid s
    → IsValid (remove_by_branch key br s).1
remove_by_branch-IsValid s key br valid = elim (Option-cases (latest s br)) [
  | inl absent ↦ rw (writers_fail s key [] br absent).1 valid
  | inr (n, h) ↦
      rw (remove_by_branch-latest s key br n valid h)
        (elim (Option-cases (get_by_branch s key br)) [
          | inl gone ↦ rw gone valid
          | inr (v, there) ↦
              rw there (written-IsValid s key n [] valid (latest-IsLatest s br n valid h).recorded)
        ])
]
