-- ===== src/Backend/Iter/Closest.antt =====
-- `get_ge_by_branch_version`: the closest readable key from a given one upwards.
use mathlib.Core.List.{reverse}
use Prim.Native.Nat.Ordering.{lt}
use vsdb.Prelude.{
  ◌≡◌, ◌≢◌, ◌||◌, ◌==◌, subst, refl, sym, ap, ◌∙◌, false, Option, none, some, [], ◌∷◌, arith,
  Option-cases, inl, inr,
}
use vsdb.Common.{RawKey, RawValue, BranchId, VersionId, null_id}
use vsdb.Mapx
use vsdb.Mapx.{Mapx, included, unbounded, nat_ord, bytes_ord}
use vsdb.Mapx.Ascending.{
  IsOver, IsOver-weaken, IsAscending, lt_of_get, get-range_up, range-IsAscending, cmp_bytes_trans,
}
use vsdb.Backend.{MapxRawVs, VerMap}
use vsdb.Backend.Data.{get_by_branch_version}
use vsdb.Backend.Invariant.{IsValid}
use vsdb.Backend.Iter.{next_readable, next, get_ge_by_branch_version}
use vsdb.Backend.Iter.Reads.{
  iterating, readable, get-readable, read-missing, Yields, next_readable-Yields,
}

module _ (s : MapxRawVs) (br : BranchId) (ver : VersionId) where
  IsOver-readable :
      (m : Mapx RawKey VerMap) (k : RawKey)
      → IsOver k m
      → IsAscending m
      → IsOver k (readable s br ver m)
  unfolding readable
  IsOver-readable [] k over h = tt
  IsOver-readable ((j, kvers) ∷ m) k over h =
      elim (Option-cases (get_by_branch_version s j br ver)) [
        | inl absent ↦ rw absent (IsOver-readable m k (IsOver-weaken m k j over h.0) h.1)
        | inr (v, there) ↦ rw there over
      ]

  readable-IsAscending :
      (m : Mapx RawKey VerMap) → IsAscending m → IsAscending (readable s br ver m)
  unfolding readable
  readable-IsAscending [] h = tt
  readable-IsAscending ((j, kvers) ∷ m) h = elim (Option-cases (get_by_branch_version s j br ver)) [
    | inl absent ↦ rw absent (readable-IsAscending m h.1)
    | inr (v, there) ↦ rw there (IsOver-readable m j h.0 h.1, readable-IsAscending m h.1)
  ]

  -- No key from the given one up can be read, or the key has the value and is the least of those.
  abbrev pub IsClosest : RawKey → Option (RawKey × RawValue) → Type 0
  IsClosest key none =
      (j : RawKey) → Mapx.cmp_bytes j key ≢ lt → get_by_branch_version s j br ver ≡ none
  IsClosest key (some (k, v)) =
      (Mapx.cmp_bytes k key ≢ lt)
      × (get_by_branch_version s k br ver ≡ some v)
      × ((j : RawKey)
          → Mapx.cmp_bytes j key ≢ lt
          → Mapx.cmp_bytes j k ≡ lt
          → get_by_branch_version s j br ver ≡ none)

  -- The readable part of the range holds the reads from the key up.
  get-readable-range :
      (key j : RawKey)
      → Mapx.get (readable s br ver (Mapx.range s.layered_kv (included key) unbounded)) j
        ≡ elim (Mapx.cmp_bytes j key) [ lt ↦ none | _ ↦ get_by_branch_version s j br ver ]
  get-readable-range key j = ground (
    arith,
    get-readable s br ver (Mapx.range s.layered_kv (included key) unbounded) j,
    get-range_up s.layered_kv key j,
    read-missing s j br ver,
  )

  Yields-IsClosest :
      (key : RawKey) (e : Option (RawKey × RawValue)) (rest m : Mapx RawKey VerMap)
      → IsAscending m
      → ((j : RawKey)
          → Mapx.get (readable s br ver m) j
            ≡ elim (Mapx.cmp_bytes j key) [ lt ↦ none | _ ↦ get_by_branch_version s j br ver ])
      → Yields s br ver (e, rest) m
      → IsClosest key e
  unfolding Mapx.get
  Yields-IsClosest key none rest m asc reads y = λ j ge.
      let r : none
          ≡ elim (Mapx.cmp_bytes j key) [ lt ↦ none | _ ↦ get_by_branch_version s j br ver ] =
        ap (λ l. Mapx.get l j) (sym y) ∙ reads j in
      ground arith
  Yields-IsClosest key (some (k, v)) rest m asc reads y =
      let found : (j : RawKey)
          → Mapx.get ((k, v) ∷ readable s br ver rest) j
            ≡ elim (Mapx.cmp_bytes j key) [ lt ↦ none | _ ↦ get_by_branch_version s j br ver ] =
        λ j. ap (λ l. Mapx.get l j) (sym y.0) ∙ reads j in
      let order : IsAscending ((k, v) ∷ readable s br ver rest) =
        subst IsAscending y.0 (readable-IsAscending m asc) in
      (
        ground (arith, found k, Mapx.cmp_bytes_refl k),
        ground (arith, found k, Mapx.cmp_bytes_refl k),
        λ j ge below. elim (Option-cases (Mapx.get (readable s br ver rest) j)) [
          | inl absent ↦ ground (arith, found j)
          | inr (w, there) ↦ ground (
            arith,
            lt_of_get (readable s br ver rest) k j w order.0 order.1 there,
            cmp_bytes_trans j k j,
            Mapx.cmp_bytes_refl j,
          )
        ],
      )

next-readable :
    (s : MapxRawVs) (br : BranchId) (ver : VersionId) (back m : Mapx RawKey VerMap)
    → (br == null_id || ver == null_id) ≡ false
    → (next (iterating s br ver back m)).0 ≡ (next_readable s br ver m).0
unfolding next
next-readable s br ver back m not_null = rw not_null refl

-- In a valid state, the answer at a branch and version, neither of them the reserved
-- identifier, is the least key from the given one up that can be read, with its value; there is no
-- answer exactly if no such key can be read.
pub get_ge_by_branch_version-IsClosest :
    (s : MapxRawVs) (key : RawKey) (br : BranchId) (ver : VersionId)
    → IsValid s
    → (br == null_id || ver == null_id) ≡ false
    → IsClosest s br ver key (get_ge_by_branch_version s key br ver)
unfolding get_ge_by_branch_version
get_ge_by_branch_version-IsClosest s key br ver valid not_null =
    let m = Mapx.range s.layered_kv (included key) unbounded in
    rw (next-readable s br ver (reverse m) m not_null) (
      Yields-IsClosest s br ver key (next_readable s br ver m).0 (next_readable s br ver m).1 m
        (range-IsAscending s.layered_kv (included key) unbounded valid.keys_sorted)
        (get-readable-range s br ver key) (next_readable-Yields s br ver m))
