-- ===== src/Ende/Integer.antt =====
-- Single integers as keys: the round trips, and the bounds on the bytes.
use vsdb.Prelude.{ℕ, ◌*◌, ◌<◌, ◌≡◌, true, List, [], ◌∷◌, length, arith}
use vsdb.Common.{RawBytes}
use vsdb.Exec.{ok}
use vsdb.Ende.{FixedInt, int_key, int_from_slice, vec_key, vec_to_bytes}
use vsdb.Ende.Bytes.{
  IsUint, AreBytes, to_be_bytes, to_be_bytes-AreBytes, append-AreBytes, to_be_bytes-from_be_bytes,
}
use vsdb.Ende.Signed.{uint}
use vsdb.Ende.Vector.{length-vec_to_bytes}

-- For any of the integer types, a number in the range of its type comes back from its bytes.
pub int_key-roundtrip :
    {I : Type 0} (i : FixedInt I) (n : I)
    → i.fits n ≡ true
    → (int_key i).from_slice ((int_key i).to_bytes n) ≡ ok n
unfolding int_key int_from_slice
int_key-roundtrip i n h = ground (arith, i.length_to_be n, i.from_to n h)

accepted :
    {I : Type 0} (i : FixedInt I) (b : RawBytes) (n : I)
    → int_from_slice i b ≡ ok n
    → (length b ≡ i.size_of) × (i.from_be b ≡ n)
unfolding int_from_slice
accepted i b n h = ground arith

-- Each slice of bytes from which an unsigned integer of `w` bytes is decoded is the encoding of that
-- integer, which is in its range.
pub uint_key-exact :
    (w : ℕ) (one : 0 < w) (b : RawBytes) (n : ℕ)
    → AreBytes b
    → (int_key (uint w one)).from_slice b ≡ ok n
    → ((int_key (uint w one)).to_bytes n ≡ b) × IsUint w n
unfolding int_key
uint_key-exact w one b n bytes h =
    let (len, e) = accepted (uint w one) b n h in
    let (back, small) = to_be_bytes-from_be_bytes w b len bytes in (rw e at back, rw e at small)

vec_to_bytes-AreBytes :
    (w : ℕ) (one : 0 < w) (ns : List ℕ) → AreBytes (vec_to_bytes (uint w one) ns)
unfolding vec_to_bytes
vec_to_bytes-AreBytes w one [] = tt
vec_to_bytes-AreBytes w one (n ∷ ns) =
    append-AreBytes (to_be_bytes w n) _ (to_be_bytes-AreBytes w n) (vec_to_bytes-AreBytes w one ns)

-- A vector of unsigned integers of `w` bytes is encoded as `w` bytes for each element, and every one
-- of them is below 256.
vec_key-bounds :
    (w : ℕ) (one : 0 < w) (ns : List ℕ)
    → (length ((vec_key (uint w one)).to_bytes ns) ≡ length ns * w)
      × AreBytes ((vec_key (uint w one)).to_bytes ns)
unfolding vec_key
vec_key-bounds w one ns = (length-vec_to_bytes (uint w one) ns, vec_to_bytes-AreBytes w one ns)
