-- ===== src/Mapx/Laws.antt =====
-- What a map reads after each change. The laws need no order of the entries.
use Prim.Native.Nat.Ordering.{eq}
use vsdb.Prelude.{◌≡◌, refl, none, some, [], ◌∷◌, arith}
use vsdb.Mapx.{Mapx, Ord, get, insert, remove}

module _ {ℓ κ} {K : Type ℓ} {V : Type κ} ⦃o : Ord K⦄ where
  pub get-empty : (k : K) → get {V = V} [] k ≡ none
  unfolding get
  get-empty k = refl

  pub get-insert :
      (m : Mapx K V) (k : K) (v : V) (j : K)
      → get (insert m k v) j ≡ elim (o.cmp j k) [ eq ↦ some v | _ ↦ get m j ]
  unfolding get insert
  get-insert [] k v j = refl
  get-insert ((i, w) ∷ m) k v j =
      ground (arith, get-insert m k v j, o.eq_of_cmp j k, o.eq_of_cmp k i, o.eq_of_cmp j i)

  pub get-remove :
      (m : Mapx K V) (k j : K) → get (remove m k) j ≡ elim (o.cmp j k) [ eq ↦ none | _ ↦ get m j ]
  unfolding get remove
  get-remove [] k j = ground arith
  get-remove ((i, w) ∷ m) k j = ground (
    arith,
    get-remove m k j,
    o.eq_of_cmp j k,
    o.eq_of_cmp k i,
    o.eq_of_cmp j i,
    o.cmp_refl i,
    o.cmp_refl j,
  )
