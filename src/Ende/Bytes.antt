-- ===== src/Ende/Bytes.antt =====
-- The big-endian form of the fixed-size integers: `to_be_bytes` and `from_be_bytes` of `$int`, of
-- `w` bytes. The signed ones are in two's complement.
use vsdb.Prelude.{
  ℕ, zero, suc, ◌+◌, ◌*◌, ◌/◌, ◌%◌, ◌^◌, ◌<◌, ◌≡◌, refl, sym, ap, ◌∙◌, List, [], ◌∷◌, ◌++◌, length,
  foldl, arith,
}

-- `u8`, `u16`, .. `u128` and `usize`: the numbers below `256 ^ w`
abbrev pub IsUint : ℕ → ℕ → Type 0
IsUint w n = n < 256 ^ w

unfoldable pub to_be_bytes : ℕ → ℕ → List ℕ
to_be_bytes zero n = []
to_be_bytes (suc w) n = to_be_bytes w (n / 256) ++ (n % 256 ∷ [])

unfoldable pub from_be_bytes : List ℕ → ℕ
from_be_bytes bytes = foldl (λ n b. n * 256 + b) 0 bytes

abbrev pub AreBytes : List ℕ → Type 0
AreBytes [] = Unit
AreBytes (b ∷ bs) = b < 256 × AreBytes bs

pub length-append : (xs ys : List ℕ) → length (xs ++ ys) ≡ length xs + length ys
length-append [] ys = omega arith
length-append (x ∷ xs) ys = omega (arith, length-append xs ys)

pub append-AreBytes : (xs ys : List ℕ) → AreBytes xs → AreBytes ys → AreBytes (xs ++ ys)
append-AreBytes [] ys h k = k
append-AreBytes (x ∷ xs) ys h k = (h.0, append-AreBytes xs ys h.1 k)

pub pow_suc : (w : ℕ) → 256 ^ suc w ≡ 256 * 256 ^ w
pow_suc w = omega arith

pub length-to_be_bytes : (w n : ℕ) → length (to_be_bytes w n) ≡ w
unfolding to_be_bytes
length-to_be_bytes zero n = refl
length-to_be_bytes (suc w) n =
    omega (
      arith,
      length-append (to_be_bytes w (n / 256)) (n % 256 ∷ []),
      length-to_be_bytes w (n / 256),
    )

pub to_be_bytes-AreBytes : (w n : ℕ) → AreBytes (to_be_bytes w n)
unfolding to_be_bytes
to_be_bytes-AreBytes zero n = tt
to_be_bytes-AreBytes (suc w) n =
    append-AreBytes (to_be_bytes w (n / 256)) (n % 256 ∷ []) (to_be_bytes-AreBytes w (n / 256))
      (omega arith, tt)

foldl-snoc :
    (xs : List ℕ) (x acc : ℕ)
    → foldl (λ n b. n * 256 + b) acc (xs ++ (x ∷ [])) ≡ foldl (λ n b. n * 256 + b) acc xs * 256 + x
foldl-snoc [] x acc = refl
foldl-snoc (y ∷ ys) x acc = foldl-snoc ys x (acc * 256 + y)

from_be_bytes-snoc :
    (xs : List ℕ) (x : ℕ) → from_be_bytes (xs ++ (x ∷ [])) ≡ from_be_bytes xs * 256 + x
unfolding from_be_bytes
from_be_bytes-snoc xs x = foldl-snoc xs x 0

IsUint-shrinks : (w n : ℕ) → IsUint (suc w) n → IsUint w (n / 256)
IsUint-shrinks w n h = omega (arith, pow_suc w)

pub from_be_bytes-to_be_bytes : (w n : ℕ) → IsUint w n → from_be_bytes (to_be_bytes w n) ≡ n
unfolding to_be_bytes
from_be_bytes-to_be_bytes zero n h = unfold from_be_bytes in omega arith
from_be_bytes-to_be_bytes (suc w) n h = omega (
  arith,
  from_be_bytes-snoc (to_be_bytes w (n / 256)) (n % 256),
  from_be_bytes-to_be_bytes w (n / 256) (IsUint-shrinks w n h),
)

-- A list that is not empty, by its last element.
abbrev init : ℕ → List ℕ → List ℕ
init x [] = []
init x (y ∷ ys) = x ∷ init y ys

abbrev last : ℕ → List ℕ → ℕ
last x [] = x
last x (y ∷ ys) = last y ys

init-last : (x : ℕ) (xs : List ℕ) → (x ∷ xs) ≡ init x xs ++ (last x xs ∷ [])
init-last x [] = refl
init-last x (y ∷ ys) = ap (λ zs. x ∷ zs) (init-last y ys)

length-init : (x : ℕ) (xs : List ℕ) → length (init x xs) ≡ length xs
length-init x [] = refl
length-init x (y ∷ ys) = ap suc (length-init y ys)

AreBytes-init : (x : ℕ) (xs : List ℕ) → AreBytes (x ∷ xs) → AreBytes (init x xs) × (last x xs < 256)
AreBytes-init x [] h = (tt, h.0)
AreBytes-init x (y ∷ ys) h = let (i, l) = AreBytes-init y ys h.1 in ((h.0, i), l)

-- Each list of `w` bytes is the form of one number.
pub to_be_bytes-from_be_bytes :
    (w : ℕ) (bytes : List ℕ)
    → length bytes ≡ w
    → AreBytes bytes
    → (to_be_bytes w (from_be_bytes bytes) ≡ bytes) × IsUint w (from_be_bytes bytes)
unfolding to_be_bytes
to_be_bytes-from_be_bytes zero [] len h = (refl, unfold from_be_bytes in omega arith)
to_be_bytes-from_be_bytes zero (x ∷ xs) len h = absurd (omega arith)
to_be_bytes-from_be_bytes (suc w) [] len h = absurd (omega arith)
to_be_bytes-from_be_bytes (suc w) (x ∷ xs) len h =
    let (ib, lb) = AreBytes-init x xs h in
    let n = from_be_bytes (init x xs) in
    let (back, small) =
      to_be_bytes-from_be_bytes w (init x xs) (omega (arith, length-init x xs)) ib in
    let value : from_be_bytes (x ∷ xs) ≡ n * 256 + last x xs =
      ap from_be_bytes (init-last x xs) ∙ from_be_bytes-snoc (init x xs) (last x xs) in
    let high : (n * 256 + last x xs) / 256 ≡ n = omega arith in
    let low : (n * 256 + last x xs) % 256 ≡ last x xs = omega arith in
    (rw (value, high, low, back) (sym (init-last x xs)), rw value (omega (arith, pow_suc w)))
