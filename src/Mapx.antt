-- ===== src/Mapx.antt =====
-- An ordered map instance, as `core/src/basic/mapx_raw` gives it to the version manager: the
-- entries in the order of their keys. `BTreeMap` and `BTreeSet` are the same map in memory. A
-- nested map is stored by value: the source stores its prefix, and each nested map has one owner.
pub mod Laws
pub mod Sorted
pub mod Ascending
pub mod Count
use Prim.Native.Nat.{Ordering, compare}
use Prim.Native.Nat.Ordering.{lt, eq, gt}
use vsdb.Prelude.{
  true, false, ◌&&◌, ℕ, ◌≡◌, Bool, Option, none, some, List, [], ◌∷◌, is_some, arith, if◌then◌else◌,
}

-- The bound `K: Ord`: `cmp`, with the laws that make its `Equal` the equality.
pub record Ord {ℓ} (K : Type ℓ) : Type ℓ where
  pub cmp : K → K → Ordering
  pub cmp_refl : (a : K) → cmp a a ≡ eq
  pub eq_of_cmp : (a b : K) → cmp a b ≡ eq → a ≡ b

pub compare_refl : (a : ℕ) → compare a a ≡ eq
compare_refl a = ground arith

pub eq_of_compare : (a b : ℕ) → compare a b ≡ eq → a ≡ b
eq_of_compare a b h = ground arith

instance abbrev pub nat_ord : Ord ℕ
nat_ord = record { cmp = compare; cmp_refl = compare_refl; eq_of_cmp = eq_of_compare }

-- The byte order on slices.
abbrev pub cmp_bytes : List ℕ → List ℕ → Ordering
cmp_bytes [] [] = eq
cmp_bytes [] (b ∷ bs) = lt
cmp_bytes (a ∷ as') [] = gt
cmp_bytes (a ∷ as') (b ∷ bs) =
    let rest = cmp_bytes as' bs in elim (compare a b) [ eq ↦ rest | lt ↦ lt | gt ↦ gt ]

pub cmp_bytes_refl : (a : List ℕ) → cmp_bytes a a ≡ eq
cmp_bytes_refl [] = ground arith
cmp_bytes_refl (x ∷ xs) = ground (arith, cmp_bytes_refl xs)

pub eq_of_cmp_bytes : (a b : List ℕ) → cmp_bytes a b ≡ eq → a ≡ b
eq_of_cmp_bytes [] [] h = ground arith
eq_of_cmp_bytes [] (b ∷ bs) h = ground arith
eq_of_cmp_bytes (a ∷ as') [] h = ground arith
eq_of_cmp_bytes (a ∷ as') (b ∷ bs) h = ground (arith, eq_of_cmp_bytes as' bs)

instance abbrev pub bytes_ord : Ord (List ℕ)
bytes_ord = record { cmp = cmp_bytes; cmp_refl = cmp_bytes_refl; eq_of_cmp = eq_of_cmp_bytes }

-- `std::ops::Bound`
pub data Bound {ℓ} (K : Type ℓ) : Type ℓ where
  included excluded : K → Bound K
  unbounded : Bound K

abbrev pub Mapx {ℓ κ} : Type ℓ → Type κ → Type (ℓ ⊔ κ)
Mapx K V = List (K × V)

module _ {ℓ κ} {K : Type ℓ} {V : Type κ} where
  abbrev pub keys : Mapx K V → List K
  keys [] = []
  keys ((k, v) ∷ m) = k ∷ keys m

  -- `last`: the entry with the greatest key, `next_back` of the iterator.
  unfoldable pub last : Mapx K V → Option (K × V)
  last [] = none
  last (e ∷ []) = some e
  last (e ∷ f ∷ m) = last (f ∷ m)

  -- `.rev().find(..)`: the last entry that passes the test.
  unfoldable pub find_rev : (K → Bool) → Mapx K V → Option (K × V)
  find_rev p [] = none
  find_rev p ((k, v) ∷ m) = elim (find_rev p m) [
    | some e ↦ some e
    | none ↦ if p k then some (k, v) else none
  ]

module _ {ℓ κ} {K : Type ℓ} {V : Type κ} ⦃o : Ord K⦄ where
  unfoldable pub get : Mapx K V → K → Option V
  get [] k = none
  get ((j, v) ∷ m) k = elim (o.cmp k j) [ eq ↦ some v | _ ↦ get m k ]

  unfoldable pub insert : Mapx K V → K → V → Mapx K V
  insert [] k v = (k, v) ∷ []
  insert ((j, w) ∷ m) k v = elim (o.cmp k j) [
    | lt ↦ (k, v) ∷ (j, w) ∷ m
    | eq ↦ (k, v) ∷ m
    | gt ↦ (j, w) ∷ insert m k v
  ]

  unfoldable pub remove : Mapx K V → K → Mapx K V
  remove [] k = []
  remove ((j, w) ∷ m) k = elim (o.cmp k j) [ eq ↦ remove m k | _ ↦ (j, w) ∷ remove m k ]

  abbrev pub contains_key : Mapx K V → K → Bool
  contains_key m k = is_some (get m k)

  -- `range(..=k)`
  unfoldable pub range_to : Mapx K V → K → Mapx K V
  range_to [] k = []
  range_to ((j, w) ∷ m) k = elim (o.cmp j k) [ gt ↦ range_to m k | _ ↦ (j, w) ∷ range_to m k ]

  -- `range(k..)`
  unfoldable pub range_from : Mapx K V → K → Mapx K V
  range_from [] k = []
  range_from ((j, w) ∷ m) k = elim (o.cmp j k) [ lt ↦ range_from m k | _ ↦ (j, w) ∷ range_from m k ]

module _ {ℓ} {K : Type ℓ} ⦃o : Ord K⦄ where
  abbrev pub reaches_start : Bound K → K → Bool
  reaches_start (included lo) k = elim (o.cmp k lo) [ lt ↦ false | _ ↦ true ]
  reaches_start (excluded lo) k = elim (o.cmp k lo) [ gt ↦ true | _ ↦ false ]
  reaches_start unbounded k = true

  abbrev pub within_end : Bound K → K → Bool
  within_end (included hi) k = elim (o.cmp k hi) [ gt ↦ false | _ ↦ true ]
  within_end (excluded hi) k = elim (o.cmp k hi) [ lt ↦ true | _ ↦ false ]
  within_end unbounded k = true

module _ {ℓ κ} {K : Type ℓ} {V : Type κ} ⦃o : Ord K⦄ where
  -- `range(bounds)`
  unfoldable pub range : Mapx K V → Bound K → Bound K → Mapx K V
  range [] l h = []
  range ((k, v) ∷ m) l h =
      if reaches_start l k && within_end h k then (k, v) ∷ range m l h else range m l h

module _ {W V : Type 0} where
  abbrev pub or_empty : Option (Mapx W V) → Mapx W V
  or_empty none = []
  or_empty (some n) = n

module _ {K W V : Type 0} ⦃o : Ord K⦄ where
  -- The nested map at a key, empty where there is none.
  abbrev pub at : Mapx K (Mapx W V) → K → Mapx W V
  at m k = or_empty (get m k)
