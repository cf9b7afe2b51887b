-- ===== src/Backend/Iter/Reads.antt =====
-- Iteration and reading agree: an iterator yields the keys that can be read, with their values.
use mathlib.Core.List.{reverse}
use vsdb.Prelude.{
  filter, is_some, ℕ, zero, suc, ◌<◌, ◌≡◌, refl, sym, ap, ◌∙◌, false, ◌||◌, Option, none, some, [],
  ◌∷◌, length, arith, Option-cases, inl, inr, ◌==◌, if◌then◌else◌,
}
use vsdb.Common.{RawKey, RawValue, BranchId, VersionId, null_id}
use vsdb.Mapx
use vsdb.Mapx.{Mapx, bytes_ord, nat_ord}
use vsdb.Backend.{MapxRawVs, VerMap}
use vsdb.Backend.Data.{get_by_branch_version}
use vsdb.Backend.Iter.{
  MapxRawVsIter, next_readable, collect, collect_step, iter_by_branch_version,
  len_by_branch_version,
}

abbrev pub keep : Option RawValue → RawKey → Mapx RawKey RawValue → Mapx RawKey RawValue
keep (some v) k rest = (k, v) ∷ rest
keep none k rest = rest

module _ (s : MapxRawVs) (br : BranchId) (ver : VersionId) where
  -- An iterator with a list of entries left, and another for the way back.
  abbrev pub iterating : Mapx RawKey VerMap → Mapx RawKey VerMap → MapxRawVsIter
  iterating back m = record { hdr = s; iter = m; iter_rev = back; br_id = br; ver_id = ver }

  -- The keys of a list that can be read, with their values.
  unfoldable pub readable : Mapx RawKey VerMap → Mapx RawKey RawValue
  readable [] = []
  readable ((k, kvers) ∷ m) = keep (get_by_branch_version s k br ver) k (readable m)

  abbrev pub Yields : Option (RawKey × RawValue) × Mapx RawKey VerMap → Mapx RawKey VerMap → Type 0
  Yields (none, rest) m = readable m ≡ []
  Yields (some e, rest) m = (readable m ≡ e ∷ readable rest) × (length rest < length m)

  Yields-skip :
      (r : Option (RawKey × RawValue) × Mapx RawKey VerMap) (k : RawKey) (kvers : VerMap)
      (m : Mapx RawKey VerMap)
      → get_by_branch_version s k br ver ≡ none
      → Yields r m
      → Yields r ((k, kvers) ∷ m)
  unfolding readable
  Yields-skip (none, rest) k kvers m h y = rw (h, readable) y
  Yields-skip (some e, rest) k kvers m h y = (rw (h, readable) y.0, omega (arith, y.1))

  next_readable-none :
      (k : RawKey) (kvers : VerMap) (m : Mapx RawKey VerMap)
      → get_by_branch_version s k br ver ≡ none
      → next_readable s br ver ((k, kvers) ∷ m) ≡ next_readable s br ver m
  unfolding next_readable
  next_readable-none k kvers m h = ground arith

  next_readable-some :
      (k : RawKey) (v : RawValue) (kvers : VerMap) (m : Mapx RawKey VerMap)
      → get_by_branch_version s k br ver ≡ some v
      → next_readable s br ver ((k, kvers) ∷ m) ≡ (some (k, v), m)
  unfolding next_readable
  next_readable-some k v kvers m h = ground arith

  next_readable-empty : next_readable s br ver [] ≡ (none, [])
  unfolding next_readable
  next_readable-empty = refl

  -- One call of the loop yields the first of them, and leaves a shorter list with the others.
  pub next_readable-Yields : (m : Mapx RawKey VerMap) → Yields (next_readable s br ver m) m
  unfolding readable
  next_readable-Yields [] = rw next_readable-empty refl
  next_readable-Yields ((k, kvers) ∷ m) = elim (Option-cases (get_by_branch_version s k br ver)) [
    | inl absent ↦
        rw (next_readable-none k kvers m absent)
          (Yields-skip (next_readable s br ver m) k kvers m absent (next_readable-Yields m))
    | inr (v, there) ↦ rw (next_readable-some k v kvers m there) (rw there refl, omega arith)
  ]

  -- What the list of readable keys holds for a key.
  pub get-readable :
      (m : Mapx RawKey VerMap) (key : RawKey)
      → Mapx.get (readable m) key
        ≡ (if Mapx.contains_key m key then get_by_branch_version s key br ver else none)
  unfolding readable Mapx.get
  get-readable [] key = refl
  get-readable ((k, kvers) ∷ m) key = ground (arith, get-readable m key, Mapx.eq_of_cmp_bytes key k)

  collect_step-readable :
      (fuel : ℕ) (e : Option (RawKey × RawValue)) (back rest m : Mapx RawKey VerMap)
      → Yields (e, rest) m
      → length m < suc fuel
      → ((m' : Mapx RawKey VerMap)
          → length m' < fuel
          → collect fuel (iterating back m') ≡ readable m')
      → collect_step (e, iterating back rest) (λ it. collect fuel it) ≡ readable m
  collect_step-readable fuel none back rest m y short next_items = sym y
  collect_step-readable fuel (some e) back rest m y short next_items =
      ap (λ r. e ∷ r) (next_items rest (omega (arith, y.1))) ∙ sym y.0

module _ (s : MapxRawVs) (br : BranchId) (ver : VersionId)
    (not_null : (br == null_id || ver == null_id) ≡ false) where
  -- With more fuel than entries the items are the readable keys: the iterator has come to its end.
  collect-readable :
      (fuel : ℕ) (back m : Mapx RawKey VerMap)
      → length m < fuel
      → collect fuel (iterating s br ver back m) ≡ readable s br ver m
  unfolding collect
  collect-readable zero back m short = absurd (omega arith)
  collect-readable (suc fuel) back m short = rw not_null (
      collect_step-readable s br ver fuel (next_readable s br ver m).0 back
        (next_readable s br ver m).1 m (next_readable-Yields s br ver m) short
        (λ m' le. collect-readable fuel back m' le))

pub read-missing :
    (s : MapxRawVs) (key : RawKey) (br : BranchId) (ver : VersionId)
    → Mapx.get s.layered_kv key ≡ none
    → get_by_branch_version s key br ver ≡ none
unfolding get_by_branch_version
read-missing s key br ver h = ground arith

keys-keep :
    (o : Option RawValue) (k : RawKey) (rest : Mapx RawKey RawValue)
    → Mapx.keys (keep o k rest) ≡ (if is_some o then k ∷ Mapx.keys rest else Mapx.keys rest)
keys-keep none k rest = refl
keys-keep (some v) k rest = refl

keys-readable :
    (s : MapxRawVs) (br : BranchId) (ver : VersionId) (m : Mapx RawKey VerMap)
    → Mapx.keys (readable s br ver m)
      ≡ filter (λ k. is_some (get_by_branch_version s k br ver)) (Mapx.keys m)
unfolding readable
keys-readable s br ver [] = refl
keys-readable s br ver ((k, kvers) ∷ m) = ground (
  arith,
  keys-keep (get_by_branch_version s k br ver) k (readable s br ver m),
  keys-readable s br ver m,
)

-- Called more often than there are keys, the iterator over a branch and version, neither of them the
-- reserved identifier, yields each key that a read finds, once and in the order of the keys, and
-- nothing else, and under each of them exactly what a read gives.
pub get-iter_by_branch_version :
    (s : MapxRawVs) (br : BranchId) (ver : VersionId) (fuel : ℕ) (key : RawKey)
    → (br == null_id || ver == null_id) ≡ false
    → length s.layered_kv < fuel
    → (Mapx.keys (collect fuel (iter_by_branch_version s br ver))
        ≡ filter (λ k. is_some (get_by_branch_version s k br ver)) (Mapx.keys s.layered_kv))
      × (Mapx.get (collect fuel (iter_by_branch_version s br ver)) key
          ≡ get_by_branch_version s key br ver)
unfolding iter_by_branch_version
get-iter_by_branch_version s br ver fuel key not_null enough =
    rw (collect-readable s br ver not_null fuel (reverse s.layered_kv) s.layered_kv enough) (
      keys-readable s br ver s.layered_kv,
      rw (get-readable s br ver s.layered_kv key) (elim (Option-cases (Mapx.get s.layered_kv key)) [
        | inl absent ↦ rw absent (sym (read-missing s key br ver absent))
        | inr (kvers, found) ↦ rw found
      ]),
    )

length-readable :
    (s : MapxRawVs) (br : BranchId) (ver : VersionId) (m : Mapx RawKey VerMap)
    → length (readable s br ver m)
      ≡ length (filter (λ e. is_some (get_by_branch_version s e.0 br ver)) m)
unfolding readable
length-readable s br ver [] = refl
length-readable s br ver ((k, kvers) ∷ m) = ground (arith, length-readable s br ver m)

-- The length at a branch and version, neither of them the reserved identifier, is the number of keys
-- that a read finds.
pub len_by_branch_version-count :
    (s : MapxRawVs) (br : BranchId) (ver : VersionId)
    → (br == null_id || ver == null_id) ≡ false
    → len_by_branch_version s br ver
      ≡ length (filter (λ e. is_some (get_by_branch_version s e.0 br ver)) s.layered_kv)
unfolding len_by_branch_version
len_by_branch_version-count s br ver not_null =
    rw
      (collect-readable s br ver not_null (suc (length s.layered_kv)) (reverse s.layered_kv)
        s.layered_kv (omega arith))
      (length-readable s br ver s.layered_kv)
