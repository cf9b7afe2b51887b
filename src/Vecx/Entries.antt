-- ===== src/Vecx/Entries.antt =====
-- The map of a vector: the values under the keys of consecutive indices.
use Prim.Native.Nat.{compare}
use Prim.Native.Nat.Ordering.{eq, gt}
use vsdb.Prelude.{
  ℕ, zero, suc, ◌+◌, ◌≤◌, ◌<◌, ◌≡◌, refl, ap, ◌∙◌, Bool, true, false, ◌&&◌, Option, none, some,
  List, [], ◌∷◌, ◌++◌, length, tail, arith, leb, ltb, if◌then◌else◌,
}
use vsdb.Common.{RawKey, RawValue, u64_mod}
use vsdb.Mapx
use vsdb.Mapx.{Mapx, Bound, included, excluded, unbounded, bytes_ord, cmp_bytes, cmp_bytes_refl}
use vsdb.Ende.Bytes.{to_be_bytes}
use vsdb.Ende.Order.{cmp_bytes-to_be_bytes}
use vsdb.Vecx.{RawMap}

abbrev pub index : ℕ → RawKey
index n = to_be_bytes 8 n

unfoldable pub entries : ℕ → List RawValue → RawMap
entries i [] = []
entries i (x ∷ xs) = (index i, x) ∷ entries (suc i) xs

abbrev pub nth : List RawValue → ℕ → Option RawValue
nth [] n = none
nth (x ∷ xs) zero = some x
nth (x ∷ xs) (suc n) = nth xs n

pub cmp-index : (n m : ℕ) → n < u64_mod → m < u64_mod → cmp_bytes (index n) (index m) ≡ compare n m
cmp-index n m hn hm = cmp_bytes-to_be_bytes 8 n m (omega arith) (omega arith)

pub length-entries : (i : ℕ) (xs : List RawValue) → length (entries i xs) ≡ length xs
unfolding entries
length-entries i [] = refl
length-entries i (x ∷ xs) = ap suc (length-entries (suc i) xs)

test_both :
    {A : Type 0} (a b : Bool) (x y : A) → a ≡ true → b ≡ true → (if a && b then x else y) ≡ x
test_both a b x y h k = ground arith

test_not : {A : Type 0} (a b : Bool) (x y : A) → a ≡ false → (if a && b then x else y) ≡ y
test_not a b x y h = ground arith

pub compare-gt : (n i : ℕ) → i < n → compare n i ≡ gt
compare-gt n i h = ground arith

pub compare-eq : (n i : ℕ) → n ≡ i → compare n i ≡ eq
compare-eq n i h = ground arith

-- A value written at an index replaces the one there, or comes behind the last.
pub insert-entries :
    (i n : ℕ) (xs ys : List RawValue) (x : RawValue)
    → n ≡ i + length xs
    → n < u64_mod
    → Mapx.insert (entries i (xs ++ ys)) (index n) x ≡ entries i (xs ++ (x ∷ tail ys))
unfolding entries Mapx.insert
insert-entries i n [] [] x e small = ap (λ k. (index k, x) ∷ []) (omega arith)
insert-entries i n [] (y ∷ ys) x e small =
    let same : n ≡ i = omega arith in
    rw (cmp-index n i small (omega arith), compare-eq n i same, Mapx.insert)
      (ap (λ k. (index k, x) ∷ entries (suc i) ys) same)
insert-entries i n (y ∷ xs) ys x e small =
    rw (cmp-index n i small (omega arith), compare-gt n i (omega arith), Mapx.insert)
      (ap (λ m. (index i, y) ∷ m) (insert-entries (suc i) n xs ys x (omega arith) small))

pub get-entries :
    (i m n : ℕ) (xs : List RawValue)
    → m ≡ i + n
    → m < u64_mod
    → i + length xs ≤ u64_mod
    → Mapx.get (entries i xs) (index m) ≡ nth xs n
unfolding entries Mapx.get
get-entries i m n [] e small room = refl
get-entries i m zero (x ∷ xs) e small room =
    rw (cmp-index m i small (omega arith), compare-eq m i (omega arith), Mapx.get) refl
get-entries i m (suc n) (x ∷ xs) e small room =
    rw (cmp-index m i small (omega arith), compare-gt m i (omega arith), Mapx.get)
      (get-entries (suc i) m n xs (omega arith) small (omega arith))

-- Where the vector ends, there is nothing under the next index to take out.
pub remove-nothing :
    (i n : ℕ) (xs : List RawValue)
    → i + length xs ≤ n
    → n < u64_mod
    → Mapx.remove (entries i xs) (index n) ≡ entries i xs
unfolding entries Mapx.remove
remove-nothing i n [] e small = refl
remove-nothing i n (x ∷ xs) e small =
    rw (cmp-index n i small (omega arith), compare-gt n i (omega arith), Mapx.remove)
      (ap (λ m. (index i, x) ∷ m) (remove-nothing (suc i) n xs (omega arith) small))

pub remove_last-entries :
    (i n : ℕ) (xs : List RawValue) (x : RawValue)
    → n ≡ i + length xs
    → n < u64_mod
    → Mapx.remove (entries i (xs ++ (x ∷ []))) (index n) ≡ entries i xs
unfolding entries Mapx.remove
remove_last-entries i n [] x e small =
    rw (cmp-index n i small (omega arith), compare-eq n i (omega arith), Mapx.remove) refl
remove_last-entries i n (y ∷ xs) x e small =
    rw (cmp-index n i small (omega arith), compare-gt n i (omega arith), Mapx.remove)
      (ap (λ m. (index i, y) ∷ m) (remove_last-entries (suc i) n xs x (omega arith) small))

range_step :
    (i n l : ℕ) (x : RawValue) (m : RawMap)
    → i < u64_mod
    → n < u64_mod
    → l < u64_mod
    → Mapx.range ((index i, x) ∷ m) (included (index n)) (excluded (index l)) ≡ (
        if leb n i && ltb i l
        then (index i, x) ∷ Mapx.range m (included (index n)) (excluded (index l))
        else Mapx.range m (included (index n)) (excluded (index l)))
unfolding Mapx.range
range_step i n l x m hi hn hl = ground (arith, cmp-index i n hi hn, cmp-index i l hi hl)

range_whole :
    (i n l : ℕ) (xs : List RawValue)
    → n ≤ i
    → l ≡ i + length xs
    → l < u64_mod
    → Mapx.range (entries i xs) (included (index n)) (excluded (index l)) ≡ entries i xs
unfolding entries Mapx.range
range_whole i n l [] le e small = refl
range_whole i n l (x ∷ xs) le e small =
    range_step i n l x (entries (suc i) xs) (omega arith) (omega arith) small
    ∙ test_both (leb n i) (ltb i l) _ _ (ground arith) (ground arith)
    ∙ ap (λ m. (index i, x) ∷ m) (range_whole (suc i) n l xs (omega arith) (omega arith) small)

-- The items from an index to the end.
pub range-entries :
    (i n l : ℕ) (xs ys : List RawValue)
    → n ≡ i + length xs
    → l ≡ n + length ys
    → l < u64_mod
    → Mapx.range (entries i (xs ++ ys)) (included (index n)) (excluded (index l)) ≡ entries n ys
unfolding entries
range-entries i n l [] ys e f small =
    let same : i ≡ n = omega arith in
    ap (λ k. Mapx.range (entries k ys) (included (index n)) (excluded (index l))) same
    ∙ range_whole n n l ys (omega arith) f small
range-entries i n l (x ∷ xs) ys e f small =
    range_step i n l x (entries (suc i) (xs ++ ys)) (omega arith) (omega arith) small
    ∙ test_not (leb n i) (ltb i l) _ _ (ground arith)
    ∙ range-entries (suc i) n l xs ys (omega arith) f small
