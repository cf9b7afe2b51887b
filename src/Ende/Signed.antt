-- ===== src/Ende/Signed.antt =====
-- The integer types of the macros: the unsigned ones, and the signed ones in two's complement.
use Prim.Native.Nat.{Ordering, compare}
use Prim.Native.Nat.Ordering.{lt, gt}
use vsdb.Prelude.{
  ℕ, zero, suc, ◌+◌, ◌-◌, ◌*◌, ◌^◌, ◌<◌, ◌≡◌, refl, ap, ◌∙◌, Bool, true, List, length, arith, ltb,
  if◌then◌else◌,
}
use vsdb.Mapx.{cmp_bytes}
use vsdb.Ende.{FixedInt, int_key}
use vsdb.Ende.Bytes.{
  IsUint, to_be_bytes, from_be_bytes, length-to_be_bytes, from_be_bytes-to_be_bytes, pow_suc,
}
use vsdb.Ende.Order.{cmp_bytes-to_be_bytes}

-- `negsuc n` is -(n + 1).
pub data ℤ : Type 0 where
  pos negsuc : ℕ → ℤ

pub fits-IsUint : (w n : ℕ) → ltb n (256 ^ w) ≡ true → IsUint w n
fits-IsUint w n h = ground arith

pub from_to_uint : (w n : ℕ) → ltb n (256 ^ w) ≡ true → from_be_bytes (to_be_bytes w n) ≡ n
from_to_uint w n h = from_be_bytes-to_be_bytes w n (fits-IsUint w n h)

-- `u8`, `u16`, .. are of 1, 2, .. bytes.
abbrev pub uint : (w : ℕ) → 0 < w → FixedInt ℕ
uint w one = record {
  size_of = w;
  to_be = to_be_bytes w;
  from_be = from_be_bytes;
  fits = λ n. ltb n (256 ^ w);
  size_pos = one;
  length_to_be = length-to_be_bytes w;
  from_to = from_to_uint w;
}

-- The number of values that are not negative.
abbrev pub half : ℕ → ℕ
half w = 128 * 256 ^ (w - 1)

abbrev pub fits_int : ℕ → ℤ → Bool
fits_int w (pos n) = ltb n (half w)
fits_int w (negsuc n) = ltb n (half w)

-- The unsigned number of the same bytes, and back.
unfoldable pub to_unsigned : ℕ → ℤ → ℕ
to_unsigned w (pos n) = n
to_unsigned w (negsuc n) = 256 ^ w - suc n

unfoldable pub of_unsigned : ℕ → ℕ → ℤ
of_unsigned w n = if ltb n (half w) then pos n else negsuc (256 ^ w - suc n)

unfoldable pub int_to_be_bytes : ℕ → ℤ → List ℕ
unfolding to_unsigned
int_to_be_bytes w z = to_be_bytes w (to_unsigned w z)

unfoldable pub int_from_be_bytes : ℕ → List ℕ → ℤ
unfolding of_unsigned
int_from_be_bytes w b = of_unsigned w (from_be_bytes b)

half_of : (w : ℕ) → 0 < w → 256 ^ w ≡ half w + half w
half_of zero one = absurd (omega arith)
half_of (suc w) one =
    let e : suc w - 1 ≡ w = omega arith in omega (arith, pow_suc w, ap (λ (k : ℕ). 256 ^ k) e)

to_unsigned-IsUint : (w : ℕ) (z : ℤ) → 0 < w → fits_int w z ≡ true → IsUint w (to_unsigned w z)
unfolding to_unsigned
to_unsigned-IsUint w (pos n) one h = ground (arith, half_of w one)
to_unsigned-IsUint w (negsuc n) one h = ground (arith, half_of w one)

of_unsigned-to_unsigned :
    (w : ℕ) (z : ℤ) → 0 < w → fits_int w z ≡ true → of_unsigned w (to_unsigned w z) ≡ z
unfolding of_unsigned to_unsigned
of_unsigned-to_unsigned w (pos n) one h = ground arith
of_unsigned-to_unsigned w (negsuc n) one h = ground (arith, half_of w one)

pub int_from_to :
    (w : ℕ) (z : ℤ) → 0 < w → fits_int w z ≡ true → int_from_be_bytes w (int_to_be_bytes w z) ≡ z
unfolding int_from_be_bytes int_to_be_bytes
int_from_to w z one h =
    ap (of_unsigned w)
      (from_be_bytes-to_be_bytes w (to_unsigned w z) (to_unsigned-IsUint w z one h))
    ∙ of_unsigned-to_unsigned w z one h

pub length-int_to_be_bytes : (w : ℕ) (z : ℤ) → length (int_to_be_bytes w z) ≡ w
unfolding int_to_be_bytes
length-int_to_be_bytes w z = length-to_be_bytes w (to_unsigned w z)

-- `i8`, `i16`, .. are of 1, 2, .. bytes.
abbrev pub int : (w : ℕ) → 0 < w → FixedInt ℤ
int w one = record {
  size_of = w;
  to_be = int_to_be_bytes w;
  from_be = int_from_be_bytes w;
  fits = fits_int w;
  size_pos = one;
  length_to_be = length-int_to_be_bytes w;
  from_to = λ z h. int_from_to w z one h;
}

-- `Ord` of the signed integers
abbrev pub cmp_int : ℤ → ℤ → Ordering
cmp_int (pos a) (pos b) = compare a b
cmp_int (pos a) (negsuc b) = gt
cmp_int (negsuc a) (pos b) = lt
cmp_int (negsuc a) (negsuc b) = compare b a

-- The order in which the store has the keys.
abbrev pub cmp_stored : ℤ → ℤ → Ordering
cmp_stored (pos a) (pos b) = compare a b
cmp_stored (pos a) (negsuc b) = lt
cmp_stored (negsuc a) (pos b) = gt
cmp_stored (negsuc a) (negsuc b) = compare b a

compare-to_unsigned :
    (w : ℕ) (a b : ℤ)
    → 0 < w
    → fits_int w a ≡ true
    → fits_int w b ≡ true
    → compare (to_unsigned w a) (to_unsigned w b) ≡ cmp_stored a b
unfolding to_unsigned
compare-to_unsigned w (pos a) (pos b) one ha hb = refl
compare-to_unsigned w (pos a) (negsuc b) one ha hb = ground (arith, half_of w one)
compare-to_unsigned w (negsuc a) (pos b) one ha hb = ground (arith, half_of w one)
compare-to_unsigned w (negsuc a) (negsuc b) one ha hb = ground (arith, half_of w one)

-- For signed integers `a` and `b` of `w` bytes, with `w` at least 1, the byte order on the encoded
-- keys is the order of the numbers among numbers of one sign, and puts each negative number after
-- every number that is not negative.
pub int_key-order :
    (w : ℕ) (one : 0 < w) (a b : ℤ)
    → fits_int w a ≡ true
    → fits_int w b ≡ true
    → cmp_bytes ((int_key (int w one)).to_bytes a) ((int_key (int w one)).to_bytes b)
      ≡ cmp_stored a b
unfolding int_key int_to_be_bytes
int_key-order w one a b ha hb =
    cmp_bytes-to_be_bytes w (to_unsigned w a) (to_unsigned w b) (to_unsigned-IsUint w a one ha)
      (to_unsigned-IsUint w b one hb)
    ∙ compare-to_unsigned w a b one ha hb

-- For unsigned integers `a` and `b` of `w` bytes, the byte order on the encoded keys is the order of
-- the numbers.
pub uint_key-order :
    (w : ℕ) (one : 0 < w) (a b : ℕ)
    → IsUint w a
    → IsUint w b
    → cmp_bytes ((int_key (uint w one)).to_bytes a) ((int_key (uint w one)).to_bytes b)
      ≡ compare a b
unfolding int_key
uint_key-order w one a b ha hb = cmp_bytes-to_be_bytes w a b ha hb
