-- ===== src/Vecx/Steps.antt =====
-- Facts on lists, on their first steps and ends, and on steps that succeed, for the proofs about vectors.
use Prim.Native.Nat.{Ordering, compare}
use Prim.Native.Nat.Ordering.{lt, eq, gt}
use mathlib.Core.List.{append_assoc}
use vsdb.Prelude.{
  ℕ, zero, suc, ◌+◌, ◌-◌, ◌%◌, ◌^◌, ◌≤◌, ◌<◌, ◌≡◌, refl, ap, Bool, true, false, some, List, [], ◌∷◌,
  ◌++◌, length, take, tail, arith, leb, ltb, if◌then◌else◌,
}
use vsdb.Common.{RawKey, RawValue, u64_mod}
use vsdb.Exec.{Result, ok, Exec, resume, ◌>>◌}
use vsdb.Mapx.{bytes_ord}
use vsdb.Ende.{KeyEnDeOrdered, int_key, drop}
use vsdb.Ende.Signed.{uint}
use vsdb.Ende.Integer.{int_key-roundtrip}
use vsdb.Vecx.{RawMap, one_of_8, index_key, decoded}
use vsdb.Vecx.Entries.{index, nth}

pub resume_ok :
    {T A B : Type 0} (r : Result A) (f : A → Exec T B) (s : T) {a : A}
    → r ≡ ok a
    → resume r f s ≡ f a s
resume_ok r f s h = rw h refl

pub then_ok :
    {T A B : Type 0} (m : Exec T A) (n : Exec T B) {s w : T} {a : A}
    → m s ≡ (ok a, w)
    → (m >> n) s ≡ n w
then_ok m n h = rw h refl

decoded_ok :
    {K : Type 0} (key : KeyEnDeOrdered K) (e : RawKey × RawValue) {k : K}
    → key.from_bytes e.0 ≡ ok k
    → decoded key e ≡ ok (k, e.1)
decoded_ok key e h = ground arith

index_fits : (n : ℕ) → n < u64_mod → ltb n (256 ^ 8) ≡ true
index_fits n small = ground arith

pub decoded-index :
    (n : ℕ) (x : RawValue) → n < u64_mod → decoded index_key (index n, x) ≡ ok (n, x)
unfolding int_key
decoded-index n x small =
    decoded_ok index_key (index n, x) (int_key-roundtrip (uint 8 one_of_8) n (index_fits n small))

pub no_wrap : (n : ℕ) → n + 1 < u64_mod → (n + 1) % u64_mod ≡ n + 1
no_wrap n h = omega arith

pub snoc_append : (xs ys : List RawValue) (x : RawValue) → (xs ++ (x ∷ [])) ++ ys ≡ xs ++ (x ∷ ys)
snoc_append xs ys x = append_assoc xs (x ∷ []) ys

pub length-snoc : (xs : List RawValue) (x : RawValue) → length (xs ++ (x ∷ [])) ≡ suc (length xs)
length-snoc [] x = refl
length-snoc (y ∷ xs) x = ap suc (length-snoc xs x)

pub nth-snoc : (xs : List RawValue) (x : RawValue) → nth (xs ++ (x ∷ [])) (length xs) ≡ some x
nth-snoc [] x = refl
nth-snoc (y ∷ xs) x = nth-snoc xs x

pub take-drop : (n : ℕ) (xs : List RawValue) → xs ≡ take n xs ++ drop n xs
take-drop zero xs = refl
take-drop (suc n) [] = refl
take-drop (suc n) (x ∷ xs) = ap (λ zs. x ∷ zs) (take-drop n xs)

pub length-take : (n : ℕ) (xs : List RawValue) → n ≤ length xs → length (take n xs) ≡ n
length-take zero xs h = refl
length-take (suc n) [] h = absurd (omega arith)
length-take (suc n) (x ∷ xs) h = ap suc (length-take n xs (omega arith))

pub length-drop : (n : ℕ) (xs : List RawValue) → length (drop n xs) ≡ length xs - n
length-drop zero xs = omega arith
length-drop (suc n) [] = omega arith
length-drop (suc n) (x ∷ xs) = omega (arith, length-drop n xs)

pub length-cat : (xs ys : List RawValue) → length (xs ++ ys) ≡ length xs + length ys
length-cat [] ys = omega arith
length-cat (x ∷ xs) ys = omega (arith, length-cat xs ys)

-- The list with an element put in before an index.
abbrev pub insert_at : ℕ → RawValue → List RawValue → List RawValue
insert_at idx x xs = take idx xs ++ (x ∷ drop idx xs)

abbrev pub by_cmp : {A : Type 0} → Ordering → A → A → A → A
by_cmp o less same more = elim o [ lt ↦ less | eq ↦ same | gt ↦ more ]

pub by_order :
    {R : Type 0} (l idx : ℕ) (below at above : RawMap → R) (m : RawMap) (done : R)
    → (idx < l → below m ≡ done)
    → (idx ≡ l → at m ≡ done)
    → by_cmp (compare l idx) above at below m ≡ (if leb idx l then done else above m)
by_order l idx below at above m done h k = ground (arith, h, k)

pub insert_at-end :
    (xs : List RawValue) (x : RawValue) → insert_at (length xs) x xs ≡ xs ++ (x ∷ [])
insert_at-end [] x = refl
insert_at-end (y ∷ xs) x = ap (λ zs. y ∷ zs) (insert_at-end xs x)

pub by_test :
    {R : Type 0} (b : Bool) (f g : RawMap → R) (m : RawMap) (done : R)
    → (b ≡ true → f m ≡ done)
    → (if b then f else g) m ≡ (if b then done else g m)
by_test true f g m done h = h refl
by_test false f g m done h = refl

pub tail-drop : (n : ℕ) (xs : List RawValue) → tail (drop n xs) ≡ drop (suc n) xs
tail-drop zero [] = refl
tail-drop zero (x ∷ xs) = refl
tail-drop (suc n) [] = refl
tail-drop (suc n) (x ∷ xs) = tail-drop n xs

-- The list with another element at an index.
abbrev pub set_at : ℕ → RawValue → List RawValue → List RawValue
set_at idx x xs = take idx xs ++ (x ∷ drop (suc idx) xs)
