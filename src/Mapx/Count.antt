-- ===== src/Mapx/Count.antt =====
-- The number of entries of a map keyed by bytes, after an insertion and after a removal.
use Prim.Native.Nat.Ordering.{lt, gt}
use vsdb.Prelude.{
  ◌+◌, suc, ◌≡◌, refl, ap, ◌∙◌, none, Option-cases, inl, inr, [], ◌∷◌, length, is_some,
  if◌then◌else◌, arith,
}
use vsdb.Common.{RawBytes}
use vsdb.Mapx
use vsdb.Mapx.{Mapx, bytes_ord, cmp_bytes, eq_of_cmp_bytes}
use vsdb.Mapx.Ascending.{IsAscending, IsOver, lt_of_get, cmp_bytes_flip_lt}

module _ {V : Type 0} where
  missing_of_over :
      (m : Mapx RawBytes V) (j : RawBytes) → IsOver j m → IsAscending m → Mapx.get m j ≡ none
  missing_of_over m j over asc = elim (Option-cases (Mapx.get m j)) [
    | inl absent ↦ absent
    | inr (v, there) ↦
        let e : cmp_bytes j j ≡ lt = lt_of_get m j j v over asc there in
        ground (arith, e, Mapx.cmp_bytes_refl j)
  ]

  missing_before :
      (m : Mapx RawBytes V) (k j : RawBytes)
      → IsOver j m
      → IsAscending m
      → cmp_bytes k j ≡ lt
      → Mapx.get m k ≡ none
  missing_before m k j over asc before = elim (Option-cases (Mapx.get m k)) [
    | inl absent ↦ absent
    | inr (v, there) ↦
        let e : cmp_bytes k j ≡ gt = cmp_bytes_flip_lt j k (lt_of_get m j k v over asc there) in
        ground (arith, e, before)
  ]

  insert_step :
      (m : Mapx RawBytes V) (j k : RawBytes) (w v : V)
      → (cmp_bytes k j ≡ lt → Mapx.get m k ≡ none)
      → length (Mapx.insert m k v) ≡ (if is_some (Mapx.get m k) then length m else length m + 1)
      → length (Mapx.insert ((j, w) ∷ m) k v)
        ≡ (if is_some (Mapx.get ((j, w) ∷ m) k) then suc (length m) else suc (length m) + 1)
  unfolding Mapx.insert Mapx.get
  insert_step m j k w v before ih = ground (arith, before, ih)

  pub length-insert :
      (m : Mapx RawBytes V) (k : RawBytes) (v : V)
      → IsAscending m
      → length (Mapx.insert m k v) ≡ (if is_some (Mapx.get m k) then length m else length m + 1)
  unfolding Mapx.insert Mapx.get
  length-insert [] k v asc = refl
  length-insert ((j, w) ∷ m) k v asc =
      insert_step m j k w v (missing_before m k j asc.0 asc.1) (length-insert m k v asc.1)

  remove_step :
      (m : Mapx RawBytes V) (j k : RawBytes) (w : V)
      → (k ≡ j → Mapx.get m k ≡ none)
      → length (Mapx.remove m k) + (if is_some (Mapx.get m k) then 1 else 0) ≡ length m
      → length (Mapx.remove ((j, w) ∷ m) k) + (if is_some (Mapx.get ((j, w) ∷ m) k) then 1 else 0)
        ≡ suc (length m)
  unfolding Mapx.remove Mapx.get
  remove_step m j k w same ih = ground (arith, same, ih, eq_of_cmp_bytes k j)

  pub length-remove :
      (m : Mapx RawBytes V) (k : RawBytes)
      → IsAscending m
      → length (Mapx.remove m k) + (if is_some (Mapx.get m k) then 1 else 0) ≡ length m
  unfolding Mapx.remove Mapx.get
  length-remove [] k asc = refl
  length-remove ((j, w) ∷ m) k asc =
      remove_step m j k w (λ e. ap (Mapx.get m) e ∙ missing_of_over m j asc.0 asc.1)
        (length-remove m k asc.1)
