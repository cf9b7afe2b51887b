-- ===== src/Ende/Vector.antt =====
-- Vectors and arrays of integers as keys: round trips, the order, and what `into_bytes` loses.
use vsdb.Prelude.{
  ℕ, zero, suc, ◌+◌, ◌-◌, ◌*◌, ◌/◌, ◌%◌, ◌≤◌, ◌<◌, ◌≡◌, ◌≢◌, refl, sym, ap, ◌∙◌, Bool, true, ◌&&◌,
  List, [], ◌∷◌, ◌++◌, length, take, arith, ◌==◌, all, Bool-cases, inl, inr,
}
use native.Mathlib.Nat.{
  mod-add-div', mul-div_cancel, zero-mod, add-mod_right, le-mul_of_pos_right, div-lt_self,
}
use vsdb.Common.{RawBytes}
use vsdb.Exec.{Result, ok}
use vsdb.Ende.{
  FixedInt, int_from_slice, vec_to_bytes, vec_into_bytes, vec_from_slice, vec_from_bytes, vec_key,
  read_ints, chunks, chunks_loop, collect, drop,
}
use vsdb.Ende.Bytes.{length-append}

take-append : (xs ys : RawBytes) → take (length xs) (xs ++ ys) ≡ xs
take-append [] ys = refl
take-append (x ∷ xs) ys = ap (λ zs. x ∷ zs) (take-append xs ys)

drop-append : (xs ys : RawBytes) → drop (length xs) (xs ++ ys) ≡ ys
drop-append [] ys = refl
drop-append (x ∷ xs) ys = drop-append xs ys

length-take : (n : ℕ) (xs : RawBytes) → n ≤ length xs → length (take n xs) ≡ n
length-take zero xs h = refl
length-take (suc n) [] h = absurd (omega arith)
length-take (suc n) (x ∷ xs) h = ap suc (length-take n xs (omega arith))

pub length-drop : (n : ℕ) (xs : RawBytes) → length (drop n xs) ≡ length xs - n
length-drop zero xs = omega arith
length-drop (suc n) [] = omega arith
length-drop (suc n) (x ∷ xs) = omega (arith, length-drop n xs)

mul-le : (n w : ℕ) → 0 < w → n ≤ n * w
mul-le n w h = le-mul_of_pos_right n h

fewer : (n w : ℕ) → 0 < n → 1 < w → n / w < n
fewer n w h k = div-lt_self h k

pub suc_mul : (n w : ℕ) → suc n * w ≡ n * w + w
suc_mul n w = omega arith

pub no_bytes : (n w : ℕ) → 0 ≡ suc n * w → 0 < w → ⊥
no_bytes n w h one = omega (arith, suc_mul n w)

pub and_left : (a b : Bool) → (a && b) ≡ true → a ≡ true
and_left a b h = ground arith

pub and_right : (a b : Bool) → (a && b) ≡ true → b ≡ true
and_right a b h = ground arith

pub eq_of_test : (a b : ℕ) → (a == b) ≡ true → a ≡ b
eq_of_test a b h = ground arith

collect-cons :
    {A B : Type 0} (f : A → Result B) (x : A) (xs : List A) (b : B) (bs : List B)
    → f x ≡ ok b
    → collect f xs ≡ ok bs
    → collect f (x ∷ xs) ≡ ok (b ∷ bs)
collect-cons f x xs b bs h k = ground arith

module _ {I : Type 0} (i : FixedInt I) where
  pub chunk-ok :
      (b : RawBytes)
      → i.size_of ≤ length b
      → int_from_slice i (take i.size_of b) ≡ ok (i.from_be (take i.size_of b))
  unfolding int_from_slice
  chunk-ok b h = ground (arith, length-take i.size_of b h)

  -- A slice of `n` chunks is read whole, chunk by chunk.
  collect-chunks :
      (n fuel : ℕ) (b : RawBytes)
      → length b ≡ n * i.size_of
      → length b ≤ fuel
      → collect (int_from_slice i) (chunks_loop fuel i.size_of b) ≡ ok (read_ints i n b)
  unfolding chunks_loop read_ints
  collect-chunks zero fuel [] h enough = refl
  collect-chunks zero fuel (x ∷ xs) h enough = absurd (omega arith)
  collect-chunks (suc n) fuel [] h enough = absurd (no_bytes n i.size_of h i.size_pos)
  collect-chunks (suc n) zero (x ∷ xs) h enough = absurd (omega arith)
  collect-chunks (suc n) (suc fuel) (x ∷ xs) h enough =
      let rest : length (drop i.size_of (x ∷ xs)) ≡ n * i.size_of =
        omega (arith, length-drop i.size_of (x ∷ xs), suc_mul n i.size_of, h) in
      let less : length (drop i.size_of (x ∷ xs)) ≤ fuel =
        omega (arith, length-drop i.size_of (x ∷ xs), i.size_pos, enough) in
      collect-cons (int_from_slice i) _ _ _ _
        (chunk-ok (x ∷ xs) (omega (arith, suc_mul n i.size_of, h)))
        (collect-chunks n fuel (drop i.size_of (x ∷ xs)) rest less)

  pub length-vec_to_bytes : (ns : List I) → length (vec_to_bytes i ns) ≡ length ns * i.size_of
  unfolding vec_to_bytes
  length-vec_to_bytes [] = omega arith
  length-vec_to_bytes (n ∷ ns) = omega (
    arith,
    length-append (i.to_be n) (vec_to_bytes i ns),
    i.length_to_be n,
    length-vec_to_bytes ns,
    suc_mul (length ns) i.size_of,
  )

  first_chunk : (n : I) (rest : RawBytes) → take i.size_of (i.to_be n ++ rest) ≡ i.to_be n
  first_chunk n rest =
      ap (λ k. take k (i.to_be n ++ rest)) (sym (i.length_to_be n)) ∙ take-append (i.to_be n) rest

  after_chunk : (n : I) (rest : RawBytes) → drop i.size_of (i.to_be n ++ rest) ≡ rest
  after_chunk n rest =
      ap (λ k. drop k (i.to_be n ++ rest)) (sym (i.length_to_be n)) ∙ drop-append (i.to_be n) rest

  abbrev pub all_fit : List I → Bool
  all_fit ns = all i.fits ns

  read_ints-vec_to_bytes :
      (ns : List I) → all_fit ns ≡ true → read_ints i (length ns) (vec_to_bytes i ns) ≡ ns
  unfolding read_ints vec_to_bytes
  read_ints-vec_to_bytes [] h = refl
  read_ints-vec_to_bytes (n ∷ ns) h =
      rw
        (
          first_chunk n (vec_to_bytes i ns),
          after_chunk n (vec_to_bytes i ns),
          i.from_to n (and_left (i.fits n) (all_fit ns) h),
        )
        (ap (λ ms. n ∷ ms) (read_ints-vec_to_bytes ns (and_right (i.fits n) (all_fit ns) h)))

  pub divides-mul : (n : ℕ) → n * i.size_of % i.size_of ≡ 0
  divides-mul zero =
      let none_left : 0 * i.size_of ≡ 0 = omega arith in rw none_left (zero-mod i.size_of)
  divides-mul (suc n) =
      rw (suc_mul n i.size_of) (add-mod_right (n * i.size_of) i.size_of ∙ divides-mul n)

  -- A slice of whole elements.
  whole_elements :
      (b : RawBytes) → length b % i.size_of ≡ 0 → length b ≡ length b / i.size_of * i.size_of
  whole_elements b h = omega (arith, mod-add-div' (length b) i.size_of)

  -- Element by element or as a piece of memory: the same vector, or the same refusal.
  pub vec_from_slice-eq-vec_from_bytes : (b : RawBytes) → vec_from_slice i b ≡ vec_from_bytes i b
  unfolding vec_from_slice vec_from_bytes chunks
  vec_from_slice-eq-vec_from_bytes b = elim (Bool-cases (length b % i.size_of == 0)) [
    | inl whole ↦ rw whole (
        collect-chunks (length b / i.size_of) (length b) b (whole_elements b (eq_of_test _ _ whole))
          (omega arith))
    | inr broken ↦ rw broken refl
  ]

  vec_from_bytes-vec_to_bytes :
      (ns : List I) → all_fit ns ≡ true → vec_from_bytes i (vec_to_bytes i ns) ≡ ok ns
  unfolding vec_from_bytes
  vec_from_bytes-vec_to_bytes ns h =
      rw (length-vec_to_bytes ns, divides-mul (length ns), mul-div_cancel (length ns) i.size_pos)
        (ap ok (read_ints-vec_to_bytes ns h))

  -- Each vector whose elements are in the range of their type comes back from its bytes, by
  -- `from_slice` and by `from_bytes`.
  pub vec_key-roundtrip :
      (ns : List I)
      → all_fit ns ≡ true
      → ((vec_key i).from_slice ((vec_key i).to_bytes ns) ≡ ok ns)
        × ((vec_key i).from_bytes ((vec_key i).to_bytes ns) ≡ ok ns)
  unfolding vec_key
  vec_key-roundtrip ns h =
      let back = vec_from_bytes-vec_to_bytes ns h in
      (vec_from_slice-eq-vec_from_bytes (vec_to_bytes i ns) ∙ back, back)

  -- What is left of a vector when it is taken for bytes: one byte for each element.
  length-vec_into_bytes : (ns : List I) → length (vec_into_bytes i ns) ≡ length ns
  unfolding vec_into_bytes
  length-vec_into_bytes ns =
      length-take (length ns) (vec_to_bytes i ns)
        (omega (arith, length-vec_to_bytes ns, mul-le (length ns) i.size_of i.size_pos))

  read_length : (n : ℕ) (b : RawBytes) → length (read_ints i n b) ≡ n
  unfolding read_ints
  read_length zero b = refl
  read_length (suc n) b = ap suc (read_length n (drop i.size_of b))

  read_as :
      (b : RawBytes) (ns : List I) → vec_from_bytes i b ≡ ok ns → length ns ≡ length b / i.size_of
  unfolding vec_from_bytes
  read_as b ns h = ground (arith, read_length (length b / i.size_of) b)

  pub vec_key-into_bytes-loses :
      (n : I) (ns : List I)
      → 1 < i.size_of
      → (vec_key i).from_slice ((vec_key i).into_bytes (n ∷ ns)) ≢ ok (n ∷ ns)
  unfolding vec_key
  vec_key-into_bytes-loses n ns wide h =
      let e =
        read_as (vec_into_bytes i (n ∷ ns)) (n ∷ ns)
          (sym (vec_from_slice-eq-vec_from_bytes (vec_into_bytes i (n ∷ ns))) ∙ h) in
      omega (
        arith,
        e,
        length-vec_into_bytes (n ∷ ns),
        ap (λ (l : ℕ). l / i.size_of) (length-vec_into_bytes (n ∷ ns)),
        fewer (length (n ∷ ns)) i.size_of (omega arith) wide,
      )
