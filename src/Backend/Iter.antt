-- ===== src/Backend/Iter.antt =====
-- core/src/versioned/mapx_raw/backend.rs: iteration over the keys that a branch can read at a
-- version, `struct MapxRawVsIter`, and the reads that are made of it.
pub mod Reads
pub mod Closest
use mathlib.Core.List.{reverse}
use vsdb.Prelude.{
  ℕ, zero, suc, Bool, true, false, ◌&&◌, ◌||◌, Option, none, some, List, [], ◌∷◌, length, ◌==◌,
  if◌then◌else◌,
}
use vsdb.Common.{RawKey, RawValue, BranchId, VersionId, null_id}
use vsdb.Mapx
use vsdb.Mapx.{Mapx, Bound, included, unbounded, nat_ord, bytes_ord}
use vsdb.Backend.{MapxRawVs, VerMap}
use vsdb.Backend.Data.{get_by_branch_version}

-- `iter` is what `next` has left and `iter_rev` what `next_back` has left: the two iterators of a
-- `RocksIter`, each of which goes through the whole range.
pub record MapxRawVsIter : Type 0 where
  pub hdr : MapxRawVs
  pub iter : Mapx RawKey VerMap
  pub iter_rev : Mapx RawKey VerMap
  pub br_id : BranchId
  pub ver_id : VersionId

-- The `loop` of `next`: keys that cannot be read are passed over.
unfoldable pub next_readable :
    MapxRawVs
    → BranchId
    → VersionId
    → Mapx RawKey VerMap
    → Option (RawKey × RawValue) × Mapx RawKey VerMap
next_readable s br_id ver_id [] = (none, [])
next_readable s br_id ver_id ((k, kvers) ∷ m) = elim (get_by_branch_version s k br_id ver_id) [
  | some v ↦ (some (k, v), m)
  | none ↦ next_readable s br_id ver_id m
]

abbrev pub is_null : MapxRawVsIter → Bool
is_null it = it.br_id == null_id || it.ver_id == null_id

unfoldable pub next : MapxRawVsIter → Option (RawKey × RawValue) × MapxRawVsIter
unfolding next_readable
next it =
    if is_null it
    then (none, it)
    else let (e, rest) = next_readable it.hdr it.br_id it.ver_id it.iter in
      (e, record it { iter = rest })

unfoldable pub next_back : MapxRawVsIter → Option (RawKey × RawValue) × MapxRawVsIter
unfolding next_readable
next_back it =
    if is_null it
    then (none, it)
    else let (e, rest) = next_readable it.hdr it.br_id it.ver_id it.iter_rev in
      (e, record it { iter_rev = rest })

unfoldable pub iter_by_branch_version : MapxRawVs → BranchId → VersionId → MapxRawVsIter
iter_by_branch_version s br_id ver_id = record {
  hdr = s;
  iter = s.layered_kv;
  iter_rev = reverse s.layered_kv;
  br_id = br_id;
  ver_id = ver_id;
}

-- The latest version of a branch, as the iterators look it up.
abbrev pub last_version : MapxRawVs → BranchId → Option VersionId
last_version s br_id = elim (Mapx.get s.br_to_its_vers br_id) [
  | none ↦ none
  | some vers ↦ elim (Mapx.last vers) [ none ↦ none | some e ↦ some e.0 ]
]

unfoldable pub iter_by_branch : MapxRawVs → BranchId → MapxRawVsIter
unfolding iter_by_branch_version
iter_by_branch s br_id = elim (last_version s br_id) [
  | some ver_id ↦ iter_by_branch_version s br_id ver_id
  | none ↦ iter_by_branch_version s null_id null_id
]

unfoldable pub iter : MapxRawVs → MapxRawVsIter
unfolding iter_by_branch
iter s = iter_by_branch s s.default_branch

unfoldable pub range_by_branch_version :
    MapxRawVs → BranchId → VersionId → Bound RawKey → Bound RawKey → MapxRawVsIter
range_by_branch_version s br_id ver_id l h = record {
  hdr = s;
  iter = Mapx.range s.layered_kv l h;
  iter_rev = reverse (Mapx.range s.layered_kv l h);
  br_id = br_id;
  ver_id = ver_id;
}

unfoldable pub range_by_branch : MapxRawVs → BranchId → Bound RawKey → Bound RawKey → MapxRawVsIter
unfolding range_by_branch_version
range_by_branch s br_id l h = elim (last_version s br_id) [
  | some ver_id ↦ range_by_branch_version s br_id ver_id l h
  | none ↦ record {
    hdr = s;
    iter = s.layered_kv;
    iter_rev = reverse s.layered_kv;
    br_id = br_id;
    ver_id = null_id;
  }
]

unfoldable pub range : MapxRawVs → Bound RawKey → Bound RawKey → MapxRawVsIter
unfolding range_by_branch
range s l h = range_by_branch s s.default_branch l h

unfoldable pub get_ge_by_branch_version :
    MapxRawVs → RawKey → BranchId → VersionId → Option (RawKey × RawValue)
unfolding range_by_branch_version next
get_ge_by_branch_version s key br_id ver_id =
    (next (range_by_branch_version s br_id ver_id (included key) unbounded)).0

unfoldable pub get_ge_by_branch : MapxRawVs → RawKey → BranchId → Option (RawKey × RawValue)
unfolding range_by_branch next
get_ge_by_branch s key br_id = (next (range_by_branch s br_id (included key) unbounded)).0

unfoldable pub get_ge : MapxRawVs → RawKey → Option (RawKey × RawValue)
unfolding range next
get_ge s key = (next (range s (included key) unbounded)).0

unfoldable pub get_le_by_branch_version :
    MapxRawVs → RawKey → BranchId → VersionId → Option (RawKey × RawValue)
unfolding range_by_branch_version next_back
get_le_by_branch_version s key br_id ver_id =
    (next_back (range_by_branch_version s br_id ver_id unbounded (included key))).0

unfoldable pub get_le_by_branch : MapxRawVs → RawKey → BranchId → Option (RawKey × RawValue)
unfolding range_by_branch next_back
get_le_by_branch s key br_id = (next_back (range_by_branch s br_id unbounded (included key))).0

unfoldable pub get_le : MapxRawVs → RawKey → Option (RawKey × RawValue)
unfolding range next_back
get_le s key = (next_back (range s unbounded (included key))).0

abbrev pub collect_step :
    Option (RawKey × RawValue) × MapxRawVsIter
    → (MapxRawVsIter → List (RawKey × RawValue))
    → List (RawKey × RawValue)
collect_step (none, it) rest = []
collect_step (some e, it) rest = e ∷ rest it

-- The items of an iterator: `next` until it returns none, with fuel.
unfoldable pub collect : ℕ → MapxRawVsIter → List (RawKey × RawValue)
unfolding next
collect zero it = []
collect (suc fuel) it = collect_step (next it) (λ it'. collect fuel it')

-- `count` of an iterator; each call of `next` uses up an entry, so their number is fuel enough.
unfoldable pub count : MapxRawVsIter → ℕ
unfolding collect
count it = length (collect (suc (length it.iter)) it)

unfoldable pub len : MapxRawVs → ℕ
unfolding iter count
len s = count (iter s)

unfoldable pub len_by_branch : MapxRawVs → BranchId → ℕ
unfolding iter_by_branch count
len_by_branch s br_id = count (iter_by_branch s br_id)

unfoldable pub len_by_branch_version : MapxRawVs → BranchId → VersionId → ℕ
unfolding iter_by_branch_version count
len_by_branch_version s br_id ver_id = count (iter_by_branch_version s br_id ver_id)
