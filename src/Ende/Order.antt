-- ===== src/Ende/Order.antt =====
-- The byte order on the big-endian forms of unsigned integers is the order of the numbers.
use Prim.Native.Nat.{compare}
use Prim.Native.Nat.Ordering.{lt, eq, gt}
use vsdb.Prelude.{ℕ, zero, suc, ◌/◌, ◌%◌, ◌≡◌, sym, ◌∙◌, List, [], ◌∷◌, ◌++◌, length, arith}
use vsdb.Mapx.{cmp_bytes}
use vsdb.Ende.Bytes.{IsUint, to_be_bytes, length-to_be_bytes, pow_suc}

cmp_bytes-snoc :
    (xs ys : List ℕ) (x y : ℕ)
    → length xs ≡ length ys
    → cmp_bytes (xs ++ (x ∷ [])) (ys ++ (y ∷ []))
      ≡ elim (cmp_bytes xs ys) [ eq ↦ compare x y | lt ↦ lt | gt ↦ gt ]
cmp_bytes-snoc [] [] x y h = ground arith
cmp_bytes-snoc [] (b ∷ bs) x y h = absurd (omega arith)
cmp_bytes-snoc (a ∷ as') [] x y h = absurd (omega arith)
cmp_bytes-snoc (a ∷ as') (b ∷ bs) x y h = ground (arith, cmp_bytes-snoc as' bs x y)

compare-div :
    (a b : ℕ)
    → elim (compare (a / 256) (b / 256)) [ eq ↦ compare (a % 256) (b % 256) | lt ↦ lt | gt ↦ gt ]
      ≡ compare a b
compare-div a b = ground arith

pub cmp_bytes-to_be_bytes :
    (w a b : ℕ)
    → IsUint w a
    → IsUint w b
    → cmp_bytes (to_be_bytes w a) (to_be_bytes w b) ≡ compare a b
unfolding to_be_bytes
cmp_bytes-to_be_bytes zero a b ha hb = ground arith
cmp_bytes-to_be_bytes (suc w) a b ha hb =
    cmp_bytes-snoc (to_be_bytes w (a / 256)) (to_be_bytes w (b / 256)) (a % 256) (b % 256)
      (length-to_be_bytes w (a / 256) ∙ sym (length-to_be_bytes w (b / 256)))
    ∙ rw
        (cmp_bytes-to_be_bytes w (a / 256) (b / 256) (omega (arith, pow_suc w))
          (omega (arith, pow_suc w)))
        (compare-div a b)
