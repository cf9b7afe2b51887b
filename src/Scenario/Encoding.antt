-- ===== src/Scenario/Encoding.antt =====
-- The encoding of keys, at concrete numbers.
use Prim.Native.Nat.{compare}
use vsdb.Prelude.{ℕ, ◌<◌, ◌≡◌, ◌≢◌, refl, List, [], ◌∷◌, arith}
use vsdb.Exec.{ok}
use vsdb.Mapx.{cmp_bytes}
use vsdb.Ende.{FixedInt, int_key, int_from_slice, vec_key}
use vsdb.Ende.Bytes.{IsUint, to_be_bytes, from_be_bytes}
use vsdb.Ende.Signed.{ℤ, pos, negsuc, uint, int, cmp_stored, int_key-order, uint_key-order}
use vsdb.Ende.Integer.{uint_key-exact}
use vsdb.Ende.Vector.{vec_key-roundtrip, vec_key-into_bytes-loses}

abbrev one_of_2 : 0 < 2
one_of_2 = omega arith

abbrev u16 : FixedInt ℕ
u16 = uint 2 one_of_2

abbrev i16 : FixedInt ℤ
i16 = int 2 one_of_2

abbrev numbers : List ℕ
numbers = 258 ∷ 7 ∷ []

encoded : (int_key u16).to_bytes 258 ≡ 1 ∷ 2 ∷ []
unfolding int_key to_be_bytes
encoded = refl

decoded : (int_key u16).from_slice (1 ∷ 2 ∷ []) ≡ ok 258
unfolding int_key int_from_slice from_be_bytes
decoded = refl

uint_key-exact_example : ((int_key (uint 2 one_of_2)).to_bytes 258 ≡ 1 ∷ 2 ∷ []) × IsUint 2 258
uint_key-exact_example = uint_key-exact 2 one_of_2 (1 ∷ 2 ∷ []) 258 (omega arith) decoded

int_key-order_example :
    cmp_bytes
      ((int_key (int 2 one_of_2)).to_bytes (negsuc 0))
      ((int_key (int 2 one_of_2)).to_bytes (pos 5))
    ≡ cmp_stored (negsuc 0) (pos 5)
int_key-order_example = int_key-order 2 one_of_2 (negsuc 0) (pos 5) refl refl

uint_key-order_example :
    cmp_bytes ((int_key (uint 2 one_of_2)).to_bytes 258) ((int_key (uint 2 one_of_2)).to_bytes 7)
    ≡ compare 258 7
uint_key-order_example = uint_key-order 2 one_of_2 258 7 (omega arith) (omega arith)

vec_key-roundtrip_example :
    ((vec_key u16).from_slice ((vec_key u16).to_bytes numbers) ≡ ok numbers)
    × ((vec_key u16).from_bytes ((vec_key u16).to_bytes numbers) ≡ ok numbers)
vec_key-roundtrip_example = vec_key-roundtrip u16 numbers refl

vec_key-into_bytes-loses_example :
    (vec_key u16).from_slice ((vec_key u16).into_bytes (258 ∷ 7 ∷ [])) ≢ ok (258 ∷ 7 ∷ [])
vec_key-into_bytes-loses_example = vec_key-into_bytes-loses u16 258 (7 ∷ []) (omega arith)
