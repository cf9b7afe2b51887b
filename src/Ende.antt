-- ===== src/Ende.antt =====
-- wrappers/src/common/ende.rs: keys to bytes and back, for the keys whose byte order is to follow
-- the order of the keys. The macro `impl_type!` makes an instance for each integer type; here it is
-- one definition over the integer type. `transmute` of a vector keeps its three words: the length
-- stays the number that it was, of elements of another size.
pub mod Bytes
pub mod Order
pub mod Signed
pub mod Vector
pub mod Array
pub mod Integer
use vsdb.Prelude.{
  ℕ, zero, suc, ◌*◌, ◌/◌, ◌%◌, ◌<◌, ◌≡◌, Bool, true, false, not, List, [], ◌∷◌, ◌++◌, length, take,
  map, ◌==◌, if◌then◌else◌,
}
use vsdb.Common.{RawBytes}
use vsdb.Exec.{Result, ok, err, missing, invalid_bytes, length_mismatch, panicked}

-- `KeyEnDeOrdered`
pub record KeyEnDeOrdered (K : Type 0) : Type 0 where
  pub to_bytes : K → RawBytes
  pub into_bytes : K → RawBytes
  pub from_slice : RawBytes → Result K
  pub from_bytes : RawBytes → Result K

-- `impl KeyEnDeOrdered for RawBytes`, and for `Box<[u8]>`
unfoldable pub raw_bytes_key : KeyEnDeOrdered RawBytes
raw_bytes_key = record {
  to_bytes = λ b. b;
  into_bytes = λ b. b;
  from_slice = λ b. ok b;
  from_bytes = λ b. ok b;
}

-- What the macro uses of an integer type: `size_of`, `to_be_bytes` and `from_be_bytes`; and what is
-- known of them.
pub record FixedInt (I : Type 0) : Type 0 where
  pub size_of : ℕ
  pub to_be : I → RawBytes
  pub from_be : RawBytes → I
  pub fits : I → Bool
  pub size_pos : 0 < size_of
  pub length_to_be : (n : I) → length (to_be n) ≡ size_of
  pub from_to : (n : I) → fits n ≡ true → from_be (to_be n) ≡ n

module _ {A : Type 0} where
  abbrev pub drop : ℕ → List A → List A
  drop zero xs = xs
  drop (suc n) [] = []
  drop (suc n) (x ∷ xs) = drop n xs

  -- The fuel is the length: each chunk takes an element at least.
  unfoldable pub chunks_loop : ℕ → ℕ → List A → List (List A)
  chunks_loop fuel w [] = []
  chunks_loop zero w (x ∷ xs) = []
  chunks_loop (suc fuel) w (x ∷ xs) = take w (x ∷ xs) ∷ chunks_loop fuel w (drop w (x ∷ xs))

  -- `chunks` of a slice
  unfoldable pub chunks : ℕ → List A → List (List A)
  unfolding chunks_loop
  chunks w xs = chunks_loop (length xs) w xs

module _ {A B : Type 0} where
  -- `.map(f).collect()` into a `Result`
  abbrev pub collect : (A → Result B) → List A → Result (List B)
  collect f [] = ok []
  collect f (x ∷ xs) =
      let rest = collect f xs in
      elim (f x) [ err e ↦ err e | ok b ↦ elim rest [ err e ↦ err e | ok bs ↦ ok (b ∷ bs) ] ]

module _ {I : Type 0} (i : FixedInt I) where
  -- `impl KeyEnDeOrdered for $int`
  unfoldable pub int_from_slice : RawBytes → Result I
  int_from_slice b = if length b == i.size_of then ok (i.from_be b) else err missing

  unfoldable pub int_key : KeyEnDeOrdered I
  unfolding int_from_slice
  int_key = record {
    to_bytes = i.to_be;
    into_bytes = i.to_be;
    from_slice = int_from_slice;
    from_bytes = int_from_slice;
  }

  -- `impl KeyEnDeOrdered for Vec<$int>`
  unfoldable pub vec_to_bytes : List I → RawBytes
  vec_to_bytes [] = []
  vec_to_bytes (n ∷ ns) = i.to_be n ++ vec_to_bytes ns

  -- Each element is put in big-endian order in its place, and the vector is taken for one of bytes.
  unfoldable pub vec_into_bytes : List I → RawBytes
  unfolding vec_to_bytes
  vec_into_bytes ns = take (length ns) (vec_to_bytes ns)

  unfoldable pub vec_from_slice : RawBytes → Result (List I)
  unfolding int_from_slice chunks
  vec_from_slice b =
      if not (length b % i.size_of == 0)
      then err invalid_bytes
      else collect int_from_slice (chunks i.size_of b)

  -- The elements of a vector that lies in these bytes of memory.
  unfoldable pub read_ints : ℕ → RawBytes → List I
  read_ints zero b = []
  read_ints (suc n) b = i.from_be (take i.size_of b) ∷ read_ints n (drop i.size_of b)

  unfoldable pub vec_from_bytes : RawBytes → Result (List I)
  unfolding read_ints
  vec_from_bytes b =
      if not (length b % i.size_of == 0)
      then err invalid_bytes
      else ok (read_ints (length b / i.size_of) b)

  -- The same for `Box<[$int]>`, which goes by way of `Vec<$int>`.
  unfoldable pub vec_key : KeyEnDeOrdered (List I)
  unfolding vec_to_bytes vec_into_bytes vec_from_slice vec_from_bytes
  vec_key = record {
    to_bytes = vec_to_bytes;
    into_bytes = vec_into_bytes;
    from_slice = vec_from_slice;
    from_bytes = vec_from_bytes;
  }

  -- `impl KeyEnDeOrdered for [$int; $siz]`: the chunks overwrite an array of zeros.
  unfoldable pub fill : List I → List RawBytes → Result (List I)
  fill res [] = ok res
  fill [] (c ∷ cs) = err panicked
  fill (r ∷ res) (c ∷ cs) =
      let rest = fill res cs in
      elim (int_from_slice c) [
        | err e ↦ err panicked
        | ok n ↦ elim rest [ err e ↦ err e | ok ns ↦ ok (n ∷ ns) ]
      ]

  unfoldable pub array_from_slice : List I → RawBytes → Result (List I)
  unfolding fill chunks
  array_from_slice zeros b =
      if not (length b % i.size_of == 0)
      then err invalid_bytes
      else if not (length zeros == length b / i.size_of)
      then err invalid_bytes
      else fill zeros (chunks i.size_of b)

  unfoldable pub array_key : List I → KeyEnDeOrdered (List I)
  unfolding vec_to_bytes array_from_slice
  array_key zeros = record {
    to_bytes = vec_to_bytes;
    into_bytes = vec_to_bytes;
    from_slice = array_from_slice zeros;
    from_bytes = array_from_slice zeros;
  }

-- `impl KeyEn for T`, `impl KeyDe for T` and `impl KeyEnDe for T` of a key type with an order.
module _ {K : Type 0} (key : KeyEnDeOrdered K) where
  unfoldable pub encode_key : K → RawBytes
  encode_key k = key.to_bytes k

  unfoldable pub try_encode_key : K → Result RawBytes
  unfolding encode_key
  try_encode_key k = ok (encode_key k)

  unfoldable pub decode_key : RawBytes → Result K
  decode_key bytes = key.from_slice bytes
