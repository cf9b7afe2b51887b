-- ===== src/Mapx/Ascending.antt =====
-- Maps keyed by bytes in ascending order of the keys: each key stands once, and the first entry is
-- the least.
use Prim.Native.Nat.Ordering.{lt, gt}
use vsdb.Prelude.{ℕ, ◌≡◌, none, some, List, [], ◌∷◌, arith}
use vsdb.Mapx.{
  Mapx, Bound, included, unbounded, bytes_ord, cmp_bytes, eq_of_cmp_bytes, get, insert, remove,
  range,
}

cmp_bytes_flip : (a b : List ℕ) → cmp_bytes a b ≡ gt → cmp_bytes b a ≡ lt
cmp_bytes_flip [] [] h = ground arith
cmp_bytes_flip [] (b ∷ bs) h = ground arith
cmp_bytes_flip (a ∷ as') [] h = ground arith
cmp_bytes_flip (a ∷ as') (b ∷ bs) h = ground (arith, cmp_bytes_flip as' bs)

pub cmp_bytes_flip_lt : (a b : List ℕ) → cmp_bytes a b ≡ lt → cmp_bytes b a ≡ gt
cmp_bytes_flip_lt [] [] h = ground arith
cmp_bytes_flip_lt [] (b ∷ bs) h = ground arith
cmp_bytes_flip_lt (a ∷ as') [] h = ground arith
cmp_bytes_flip_lt (a ∷ as') (b ∷ bs) h = ground (arith, cmp_bytes_flip_lt as' bs)

pub cmp_bytes_trans :
    (a b c : List ℕ) → cmp_bytes a b ≡ lt → cmp_bytes b c ≡ lt → cmp_bytes a c ≡ lt
cmp_bytes_trans [] [] c h h' = ground arith
cmp_bytes_trans [] (b ∷ bs) [] h h' = ground arith
cmp_bytes_trans [] (b ∷ bs) (c ∷ cs) h h' = ground arith
cmp_bytes_trans (a ∷ as') [] c h h' = ground arith
cmp_bytes_trans (a ∷ as') (b ∷ bs) [] h h' = ground arith
cmp_bytes_trans (a ∷ as') (b ∷ bs) (c ∷ cs) h h' = ground (arith, cmp_bytes_trans as' bs cs)

module _ {V : Type 0} where
  abbrev pub IsOver : List ℕ → Mapx (List ℕ) V → Type 0
  IsOver k [] = Unit
  IsOver k ((j, v) ∷ m) = cmp_bytes k j ≡ lt

  abbrev pub IsAscending : Mapx (List ℕ) V → Type 0
  IsAscending [] = Unit
  IsAscending ((k, v) ∷ m) = IsOver k m × IsAscending m

  IsOver-insert :
      (m : Mapx (List ℕ) V) (j k : List ℕ) (v : V)
      → IsOver j m
      → cmp_bytes j k ≡ lt
      → IsOver j (insert m k v)
  unfolding insert
  IsOver-insert [] j k v over h = h
  IsOver-insert ((i, w) ∷ m) j k v over h = ground arith

  -- An insertion keeps the order.
  pub insert-IsAscending :
      (m : Mapx (List ℕ) V) (k : List ℕ) (v : V) → IsAscending m → IsAscending (insert m k v)
  unfolding insert
  insert-IsAscending [] k v h = (tt, tt)
  insert-IsAscending ((j, w) ∷ m) k v h = ground (
    arith,
    insert-IsAscending m k v h.1,
    IsOver-insert m j k v h.0,
    cmp_bytes_flip k j,
    eq_of_cmp_bytes k j,
  )

  pub IsOver-weaken :
      (m : Mapx (List ℕ) V) (i j : List ℕ) → cmp_bytes i j ≡ lt → IsOver j m → IsOver i m
  IsOver-weaken [] i j h over = tt
  IsOver-weaken ((k, v) ∷ m) i j h over = cmp_bytes_trans i j k h over

  IsOver-remove :
      (m : Mapx (List ℕ) V) (j k : List ℕ) → IsOver j m → IsAscending m → IsOver j (remove m k)
  unfolding remove
  IsOver-remove [] j k over h = tt
  IsOver-remove ((i, w) ∷ m) j k over h =
      ground (arith, IsOver-remove m j k (IsOver-weaken m j i over h.0) h.1)

  -- A removal keeps the order.
  pub remove-IsAscending :
      (m : Mapx (List ℕ) V) (k : List ℕ) → IsAscending m → IsAscending (remove m k)
  unfolding remove
  remove-IsAscending [] k h = tt
  remove-IsAscending ((i, w) ∷ m) k h =
      ground (arith, remove-IsAscending m k h.1, IsOver-remove m i k h.0 h.1)

  -- What is in the rest of a map is above its first key.
  pub lt_of_get :
      (m : Mapx (List ℕ) V) (k j : List ℕ) (v : V)
      → IsOver k m
      → IsAscending m
      → get m j ≡ some v
      → cmp_bytes k j ≡ lt
  unfolding get
  lt_of_get [] k j v over h there = ground arith
  lt_of_get ((i, w) ∷ m) k j v over h there =
      ground (arith, lt_of_get m k j v (IsOver-weaken m k i over h.0) h.1, eq_of_cmp_bytes j i)

  -- What a range from a key up reads.
  pub get-range_up :
      (m : Mapx (List ℕ) V) (lo j : List ℕ)
      → get (range m (included lo) unbounded) j ≡ elim (cmp_bytes j lo) [ lt ↦ none | _ ↦ get m j ]
  unfolding get range
  get-range_up [] lo j = ground arith
  get-range_up ((k, v) ∷ m) lo j = ground (arith, get-range_up m lo j, eq_of_cmp_bytes j k)

  IsOver-range :
      (m : Mapx (List ℕ) V) (l h : Bound (List ℕ)) (k : List ℕ)
      → IsOver k m
      → IsAscending m
      → IsOver k (range m l h)
  unfolding range
  IsOver-range [] l h k over asc = tt
  IsOver-range ((j, v) ∷ m) l h k over asc =
      ground (arith, IsOver-range m l h k (IsOver-weaken m k j over asc.0) asc.1)

  pub range-IsAscending :
      (m : Mapx (List ℕ) V) (l h : Bound (List ℕ)) → IsAscending m → IsAscending (range m l h)
  unfolding range
  range-IsAscending [] l h asc = tt
  range-IsAscending ((j, v) ∷ m) l h asc =
      ground (arith, range-IsAscending m l h asc.1, IsOver-range m l h j asc.0 asc.1)
