-- ===== src/Api/Reads.antt =====
-- What the data operations by name promise to their callers, and the mutable borrows of values.
use vsdb.Prelude.{◌≡◌, refl, true, Option, none, some, inl, inr, Option-cases}
use vsdb.Common.{RawKey, RawValue, RawBytes, BranchId, VersionId, null_id}
use vsdb.Exec.{Result, ok, err, missing, panicked}
use vsdb.Mapx.{nat_ord, bytes_ord}
use vsdb.Backend.{MapxRawVs}
use vsdb.Backend.Data
use vsdb.Backend.Data.{non_empty}
use vsdb.Backend.Iter
use vsdb.Backend.Iter.{MapxRawVsIter}
use vsdb.Backend.Branch.{branch_get_id_by_name}
use vsdb.Backend.Invariant.{IsValid}
use vsdb.Backend.Write.{written}
use vsdb.Backend.ReadWrite.{latest, insert_by_branch-latest, get_by_branch-written}
use vsdb.Api
use vsdb.Api.Mutable.{ValueMut, or_insert, update}

-- What is inserted under the name of a branch that has a version is read under that name.
get_by_branch-insert_by_branch_named :
    (s : MapxRawVs) (key : RawKey) (value : RawValue) (br_name : RawBytes) (br : BranchId)
    (n : VersionId)
    → IsValid s
    → branch_get_id_by_name s br_name ≡ some br
    → latest s br ≡ some n
    → Api.get_by_branch (Api.insert_by_branch key value br_name s).1 key br_name ≡ non_empty value
unfolding Api.get_by_branch Api.insert_by_branch
get_by_branch-insert_by_branch_named s key value br_name br n valid named h =
    rw (named, insert_by_branch-latest s key value br n valid h, named)
      (get_by_branch-written s key n value br valid h)

-- An iterator of a reserved identifier is at its end.
next-null : (it : MapxRawVsIter) → Iter.is_null it ≡ true → Iter.next it ≡ (none, it)
unfolding Iter.next
next-null it h = rw h

null_branch-is_null : (s : MapxRawVs) → Iter.is_null (Iter.iter_by_branch s null_id) ≡ true
unfolding Iter.iter_by_branch
null_branch-is_null s = elim (Option-cases (Iter.last_version s null_id)) [
  | inl absent ↦ rw (absent, Iter.iter_by_branch) refl
  | inr (ver, there) ↦ rw (there, Iter.iter_by_branch) refl
]

-- Under a name that no branch has, the writers fail and change nothing, the reads give nothing, and
-- there is nothing to count or to iterate over.
unknown_branch :
    (s : MapxRawVs) (key : RawKey) (value : RawValue) (br_name : RawBytes)
    → branch_get_id_by_name s br_name ≡ none
    → (Api.insert_by_branch key value br_name s ≡ (err missing, s))
      × (Api.remove_by_branch key br_name s ≡ (err missing, s))
      × (Api.get_by_branch s key br_name ≡ none)
      × (Api.len_by_branch s br_name ≡ 0)
      × (Api.is_empty_by_branch s br_name ≡ true)
unfolding Api.insert_by_branch Api.remove_by_branch Api.get_by_branch Api.len_by_branch
    Api.is_empty_by_branch
unknown_branch s key value br_name h = (
  rw h refl,
  rw h refl,
  rw h refl,
  rw h refl,
  rw h (rw (next-null (Iter.iter_by_branch s null_id) (null_branch-is_null s)) refl),
)

-- What `or_insert` returns: the value of the key, else the default; the empty default cannot be
-- read back, and panics.
abbrev pub or_insert_result :
    MapxRawVs
    → RawKey
    → RawValue
    → VersionId
    → Option RawValue
    → Option RawValue
    → Result ValueMut × MapxRawVs
or_insert_result s key default n (some v) d = (ok (record { key = key; value = v }), s)
or_insert_result s key default n none (some v) =
    (ok (record { key = key; value = v }), written s key n default)
or_insert_result s key default n none none = (err panicked, written s key n default)

get-written :
    (s : MapxRawVs) (key : RawKey) (value : RawValue) (n : VersionId)
    → IsValid s
    → latest s s.default_branch ≡ some n
    → Data.get (written s key n value) key ≡ non_empty value
unfolding Data.get
get-written s key value n valid h = get_by_branch-written s key n value s.default_branch valid h

insert-latest :
    (s : MapxRawVs) (key : RawKey) (value : RawValue) (n : VersionId)
    → IsValid s
    → latest s s.default_branch ≡ some n
    → Data.insert key value s ≡ (ok (Data.get s key), written s key n value)
unfolding Data.get Data.insert
insert-latest s key value n valid h = insert_by_branch-latest s key value s.default_branch n valid h

-- In a valid state with a version on the default branch, `or_insert` gives the value that is there and changes
-- nothing; with no value it inserts the default and gives that. With no value and an empty default
-- it panics, after it has written the empty value.
pub or_insert-latest :
    (s : MapxRawVs) (key : RawKey) (default : RawValue) (n : VersionId)
    → IsValid s
    → latest s s.default_branch ≡ some n
    → or_insert key default s
      ≡ or_insert_result s key default n (Data.get s key) (non_empty default)
unfolding or_insert
or_insert-latest s key default n valid h = elim (Option-cases (Data.get s key)) [
  | inl absent ↦
      rw (absent, insert-latest s key default n valid h, get-written s key default n valid h)
        (elim (Option-cases (non_empty default)) [ inl e ↦ rw e refl | inr (v, e) ↦ rw e refl ])
  | inr (v, there) ↦ rw there (rw there refl)
]

-- The end of a mutable borrow writes the changed value to the latest version of the default branch,
-- where it is read from then on; no value is borrowed where there is none.
update-latest :
    (s : MapxRawVs) (key : RawKey) (f : RawValue → RawValue) (n : VersionId) (v : RawValue)
    → IsValid s
    → latest s s.default_branch ≡ some n
    → Data.get s key ≡ some v
    → (update key f s ≡ (ok (some v), written s key n (f v)))
      × (Data.get (update key f s).1 key ≡ non_empty (f v))
unfolding update
update-latest s key f n v valid h there = (
  rw there (rw (insert-latest s key (f v) n valid h) refl),
  rw there (rw (insert-latest s key (f v) n valid h) (get-written s key (f v) n valid h)),
)
