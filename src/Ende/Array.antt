-- ===== src/Ende/Array.antt =====
-- Arrays of integers as keys, and the byte order on vectors of unsigned integers.
use Prim.Native.Nat.Ordering.{lt, eq, gt}
use native.Mathlib.Nat.{mul-div_cancel, mod-add-div'}
use vsdb.Prelude.{
  ℕ, zero, suc, ◌*◌, ◌/◌, ◌%◌, ◌≤◌, ◌<◌, ◌≡◌, refl, sym, ap, ◌∙◌, Bool, true, false, not, List, [],
  ◌∷◌, ◌++◌, length, arith, ◌==◌, if◌then◌else◌, ◌&&◌, ltb, ◌^◌,
}
use vsdb.Common.{RawBytes}
use vsdb.Exec.{Result, ok, err, invalid_bytes}
use vsdb.Mapx.{cmp_bytes}
use vsdb.Ende.{
  FixedInt, int_from_slice, vec_to_bytes, vec_from_bytes, vec_from_slice, vec_key, read_ints,
  chunks, chunks_loop, drop, fill, array_from_slice, array_key,
}
use vsdb.Ende.Bytes.{to_be_bytes, length-to_be_bytes}
use vsdb.Ende.Order.{cmp_bytes-to_be_bytes}
use vsdb.Ende.Signed.{uint, fits-IsUint}
use vsdb.Ende.Vector.{
  all_fit, and_left, and_right, vec_key-roundtrip, chunk-ok, length-drop, suc_mul, no_bytes,
  eq_of_test, divides-mul, length-vec_to_bytes, vec_from_slice-eq-vec_from_bytes,
}

both_tests :
    {A : Type 0} (a b : Bool) (x e : A)
    → (if not a then e else if not b then e else x) ≡ (if a && b then x else e)
both_tests a b x e = ground arith

if_then :
    {A : Type 0} (t : Bool) (x y e : A)
    → (t ≡ true → x ≡ y)
    → (if t then x else e) ≡ (if t then y else e)
if_then true x y e h = h refl
if_then false x y e h = refl

module _ {I : Type 0} (i : FixedInt I) where
  fill-cons :
      (r : I) (res : List I) (c : RawBytes) (cs : List RawBytes) (n : I) (ns : List I)
      → int_from_slice i c ≡ ok n
      → fill i res cs ≡ ok ns
      → fill i (r ∷ res) (c ∷ cs) ≡ ok (n ∷ ns)
  unfolding fill
  fill-cons r res c cs n ns h k = ground arith

  -- As many chunks as the array has elements overwrite it whole.
  fill-chunks :
      (zeros : List I) (fuel : ℕ) (b : RawBytes)
      → length b ≡ length zeros * i.size_of
      → length b ≤ fuel
      → fill i zeros (chunks_loop fuel i.size_of b) ≡ ok (read_ints i (length zeros) b)
  unfolding chunks_loop read_ints fill
  fill-chunks [] fuel [] h enough = refl
  fill-chunks [] fuel (x ∷ xs) h enough = absurd (omega arith)
  fill-chunks (r ∷ res) fuel [] h enough = absurd (no_bytes (length res) i.size_of h i.size_pos)
  fill-chunks (r ∷ res) zero (x ∷ xs) h enough = absurd (omega arith)
  fill-chunks (r ∷ res) (suc fuel) (x ∷ xs) h enough =
      let rest : length (drop i.size_of (x ∷ xs)) ≡ length res * i.size_of =
        omega (arith, length-drop i.size_of (x ∷ xs), suc_mul (length res) i.size_of, h) in
      let less : length (drop i.size_of (x ∷ xs)) ≤ fuel =
        omega (arith, length-drop i.size_of (x ∷ xs), i.size_pos, enough) in
      fill-cons r res _ _ _ _
        (chunk-ok i (x ∷ xs) (omega (arith, suc_mul (length res) i.size_of, h)))
        (fill-chunks res fuel (drop i.size_of (x ∷ xs)) rest less)

  exact_size : (n l : ℕ) → l % i.size_of ≡ 0 → n ≡ l / i.size_of → l ≡ n * i.size_of
  exact_size n l h k = omega (arith, mod-add-div' l i.size_of, ap (λ (m : ℕ). m * i.size_of) k)

  of_exact_size : (n l : ℕ) → l ≡ n * i.size_of → (l % i.size_of ≡ 0) × (n ≡ l / i.size_of)
  of_exact_size n l h = (rw h (divides-mul i n), rw h (sym (mul-div_cancel n i.size_pos)))

  -- The two tests of `from_slice`.
  fits_exactly : (n l : ℕ) → (l % i.size_of == 0 && n == l / i.size_of) ≡ (l == n * i.size_of)
  fits_exactly n l = ground (arith, exact_size n l, of_exact_size n l)

  -- A vector of that many elements.
  vec_of_size :
      (n : ℕ) (b : RawBytes) → length b ≡ n * i.size_of → vec_from_slice i b ≡ ok (read_ints i n b)
  unfolding vec_from_bytes
  vec_of_size n b h =
      let (whole, count) = of_exact_size n (length b) h in
      vec_from_slice-eq-vec_from_bytes i b ∙ ground (arith, whole, count)

  -- A slice is accepted for an array of `length zeros` elements if it has that many elements, whole,
  -- and then as a vector is; any other slice is refused with "invalid bytes".
  array_key-from_slice :
      (zeros : List I) (b : RawBytes)
      → (array_key i zeros).from_slice b ≡ (
          if length b == length zeros * i.size_of
          then (vec_key i).from_slice b
          else err invalid_bytes)
  unfolding array_key array_from_slice vec_key chunks
  array_key-from_slice zeros b =
      both_tests (length b % i.size_of == 0) (length zeros == length b / i.size_of)
        (fill i zeros (chunks i.size_of b)) (err invalid_bytes)
      ∙ ap (λ t. if t then fill i zeros (chunks i.size_of b) else err invalid_bytes)
          (fits_exactly (length zeros) (length b))
      ∙ if_then _ _ _ _ (λ exact.
        let e = eq_of_test (length b) (length zeros * i.size_of) exact in
        fill-chunks zeros (length b) b e (omega arith) ∙ sym (vec_of_size (length zeros) b e))

  when_exact :
      (b : RawBytes) (n : ℕ) {r : Result (List I)}
      → length b ≡ n
      → (vec_key i).from_slice b ≡ r
      → (if length b == n then (vec_key i).from_slice b else err invalid_bytes) ≡ r
  when_exact b n e h = ground arith

  -- Each array whose elements are in the range of their type comes back from its bytes.
  array_key-roundtrip :
      (zeros ns : List I)
      → length ns ≡ length zeros
      → all_fit i ns ≡ true
      → (array_key i zeros).from_slice ((array_key i zeros).to_bytes ns) ≡ ok ns
  unfolding array_key vec_key
  array_key-roundtrip zeros ns len h =
      let e : length (vec_to_bytes i ns) ≡ length zeros * i.size_of =
        length-vec_to_bytes i ns ∙ ap (λ (n : ℕ). n * i.size_of) len in
      array_key-from_slice zeros (vec_to_bytes i ns) ∙ when_exact _ _ e (vec_key-roundtrip i ns h).0

cmp_bytes-append :
    (xs ys as' bs : RawBytes)
    → length xs ≡ length ys
    → cmp_bytes (xs ++ as') (ys ++ bs)
      ≡ elim (cmp_bytes xs ys) [ eq ↦ cmp_bytes as' bs | lt ↦ lt | gt ↦ gt ]
cmp_bytes-append [] [] as' bs h = refl
cmp_bytes-append [] (y ∷ ys) as' bs h = absurd (omega arith)
cmp_bytes-append (x ∷ xs) [] as' bs h = absurd (omega arith)
cmp_bytes-append (x ∷ xs) (y ∷ ys) as' bs h = ground (arith, cmp_bytes-append xs ys as' bs)

cmp_empty :
    (xs ys : RawBytes)
    → 0 < length xs
    → (cmp_bytes [] (xs ++ ys) ≡ lt) × (cmp_bytes (xs ++ ys) [] ≡ gt)
cmp_empty [] ys h = absurd (omega arith)
cmp_empty (x ∷ xs) ys h = (refl, refl)

-- For vectors of unsigned integers of `w` bytes, in their range, the byte order on the encoded keys
-- is the order of the vectors: by the first element in which they differ, and a prefix first.
vec_key-order :
    (w : ℕ) (one : 0 < w) (ms ns : List ℕ)
    → all_fit (uint w one) ms ≡ true
    → all_fit (uint w one) ns ≡ true
    → cmp_bytes ((vec_key (uint w one)).to_bytes ms) ((vec_key (uint w one)).to_bytes ns)
      ≡ cmp_bytes ms ns
unfolding vec_key vec_to_bytes
vec_key-order w one [] [] hm hn = refl
vec_key-order w one [] (n ∷ ns) hm hn =
    (cmp_empty (to_be_bytes w n) _ (omega (arith, length-to_be_bytes w n))).0
vec_key-order w one (m ∷ ms) [] hm hn =
    (cmp_empty (to_be_bytes w m) _ (omega (arith, length-to_be_bytes w m))).1
vec_key-order w one (m ∷ ms) (n ∷ ns) hm hn =
    cmp_bytes-append (to_be_bytes w m) (to_be_bytes w n) _ _
      (length-to_be_bytes w m ∙ sym (length-to_be_bytes w n))
    ∙ ground (
      arith,
      cmp_bytes-to_be_bytes w m n (fits-IsUint w m (and_left _ (all_fit (uint w one) ms) hm))
          (fits-IsUint w n (and_left _ (all_fit (uint w one) ns) hn)),
      vec_key-order w one ms ns (and_right (ltb m (256 ^ w)) _ hm)
          (and_right (ltb n (256 ^ w)) _ hn),
    )
