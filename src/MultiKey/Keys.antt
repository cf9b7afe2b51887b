-- ===== src/MultiKey/Keys.antt =====
-- Keys of several parts, `&[&[u8]]` and `Vec<RawKey>`: their order and `starts_with`.
use Prim.Native.Nat.{Ordering}
use Prim.Native.Nat.Ordering.{lt, eq, gt}
use vsdb.Prelude.{◌≡◌, Bool, true, false, List, [], ◌∷◌, arith}
use vsdb.Common.{RawKey}
use vsdb.Mapx.{Ord, cmp_bytes, cmp_bytes_refl, eq_of_cmp_bytes}

abbrev pub RawKeys : Type 0
RawKeys = List RawKey

-- The order of `Vec<RawKey>`.
abbrev pub cmp_keys : RawKeys → RawKeys → Ordering
cmp_keys [] [] = eq
cmp_keys [] (j ∷ js) = lt
cmp_keys (k ∷ ks) [] = gt
cmp_keys (k ∷ ks) (j ∷ js) =
    let rest = cmp_keys ks js in elim (cmp_bytes k j) [ eq ↦ rest | lt ↦ lt | gt ↦ gt ]

pub cmp_keys_refl : (ks : RawKeys) → cmp_keys ks ks ≡ eq
cmp_keys_refl [] = ground arith
cmp_keys_refl (k ∷ ks) = ground (arith, cmp_keys_refl ks, cmp_bytes_refl k)

pub eq_of_cmp_keys : (ks js : RawKeys) → cmp_keys ks js ≡ eq → ks ≡ js
eq_of_cmp_keys [] [] h = ground arith
eq_of_cmp_keys [] (j ∷ js) h = ground arith
eq_of_cmp_keys (k ∷ ks) [] h = ground arith
eq_of_cmp_keys (k ∷ ks) (j ∷ js) h = ground (arith, eq_of_cmp_keys ks js, eq_of_cmp_bytes k j)

instance abbrev pub keys_ord : Ord RawKeys
keys_ord = record { cmp = cmp_keys; cmp_refl = cmp_keys_refl; eq_of_cmp = eq_of_cmp_keys }

-- Whether the second key starts with the first.
abbrev pub starts_with : RawKeys → RawKeys → Bool
starts_with [] js = true
starts_with (k ∷ ks) [] = false
starts_with (k ∷ ks) (j ∷ js) =
    let rest = starts_with ks js in elim (cmp_bytes j k) [ eq ↦ rest | _ ↦ false ]
