-- ===== src/Vecx/Swap.antt =====
-- `swap_remove` takes an element out of the list and puts the last one in its place.
use Prim.Native.Nat.{compare}
use Prim.Native.Nat.Ordering.{lt}
use mathlib.Core.List.{append-nil}
use vsdb.Prelude.{
  ℕ, zero, suc, ◌+◌, ◌-◌, ◌≤◌, ◌<◌, ◌≡◌, refl, sym, ap, ◌∙◌, Option, none, some, List, [], ◌∷◌,
  ◌++◌, length, arith, take, tail, ltb, ◌==◌, ◌&&◌, not, if◌then◌else◌,
}
use vsdb.Common.{RawValue, u64_mod}
use vsdb.Exec.{Exec, ok, err, raise, panicked, pure, require, ◌>>=◌, ◌>>◌}
use vsdb.Mapx
use vsdb.Mapx.{Mapx, bytes_ord}
use vsdb.Ende.{int_key, drop}
use vsdb.Vecx
use vsdb.Vecx.{RawMap, index_key, map_insert, map_remove, put_back, swap_remove_below}
use vsdb.Vecx.Entries.{
  index, entries, nth, cmp-index, compare-gt, length-entries, get-entries, remove-nothing,
  remove_last-entries,
}
use vsdb.Vecx.Steps.{
  length-cat, length-snoc, nth-snoc, by_test, take-drop, length-take, length-drop, tail-drop,
}
use vsdb.Vecx.Gap.{remove-gap}
use vsdb.Vecx.Remove.{nth-cat, nth-drop, not_empty, found}

-- Behind the entries of a list, the operations of the map work on the rest.
get_behind :
    (i n : ℕ) (xs : List RawValue) (m : RawMap)
    → i + length xs ≤ n
    → n < u64_mod
    → Mapx.get (entries i xs ++ m) (index n) ≡ Mapx.get m (index n)
unfolding entries Mapx.get
get_behind i n [] m h small = refl
get_behind i n (x ∷ xs) m h small =
    rw (cmp-index n i small (omega arith), compare-gt n i (omega arith), Mapx.get)
      (get_behind (suc i) n xs m (omega arith) small)

remove_behind :
    (i n : ℕ) (xs : List RawValue) (m : RawMap)
    → i + length xs ≤ n
    → n < u64_mod
    → Mapx.remove (entries i xs ++ m) (index n) ≡ entries i xs ++ Mapx.remove m (index n)
unfolding entries Mapx.remove
remove_behind i n [] m h small = refl
remove_behind i n (x ∷ xs) m h small =
    rw (cmp-index n i small (omega arith), compare-gt n i (omega arith), Mapx.remove)
      (ap (λ t. (index i, x) ∷ t) (remove_behind (suc i) n xs m (omega arith) small))

-- A value written into the gap closes it.
fill_gap :
    (i n : ℕ) (xs : List RawValue) (y : RawValue) (ys : List RawValue)
    → n ≡ i + length xs
    → n + suc (length ys) ≤ u64_mod
    → Mapx.insert (entries i xs ++ entries (suc n) ys) (index n) y ≡ entries i (xs ++ (y ∷ ys))
unfolding entries Mapx.insert
fill_gap i n [] y [] e room = ap (λ k. (index k, y) ∷ []) (omega arith)
fill_gap i n [] y (z ∷ ys) e room =
    let same : n ≡ i = omega arith in
    let less : compare n (suc n) ≡ lt = ground arith in
    rw (cmp-index n (suc n) (omega arith) (omega arith), less, Mapx.insert)
      (ap (λ k. (index k, y) ∷ (index (suc k), z) ∷ entries (suc (suc k)) ys) same)
fill_gap i n (x ∷ xs) y ys e room =
    rw (cmp-index n i (omega arith) (omega arith), compare-gt n i (omega arith), Mapx.insert)
      (ap (λ m. (index i, x) ∷ m) (fill_gap (suc i) n xs y ys (omega arith) room))

-- What `swap_remove` does once the element is out.
abbrev after : ℕ → ℕ → Option RawValue → Exec RawMap RawValue
after n last old = do
  ret ← require old panicked
  moved ← map_remove index_key last
  put_back n moved
  pure ret

-- The element goes out; the rest of the call starts with the gap.
swap_start :
    (n : ℕ) (xs : List RawValue) (x : RawValue) (ys : List RawValue)
    → n ≡ length xs
    → n + suc (length ys) < u64_mod
    → swap_remove_below n (entries 0 (xs ++ (x ∷ ys)))
      ≡ after n (n + length ys) (some x) (entries 0 xs ++ entries (suc n) ys)
unfolding swap_remove_below map_remove map_insert int_key
swap_start n xs x ys e room =
    let m = entries 0 (xs ++ (x ∷ ys)) in
    let there : Mapx.get m (index n) ≡ some x =
      get-entries 0 n n (xs ++ (x ∷ ys)) (omega arith) (omega arith)
        (omega (arith, length-cat xs (x ∷ ys), e, room))
      ∙ ap (nth (xs ++ (x ∷ ys))) e
      ∙ nth-cat xs x ys in
    let last : length m - 1 ≡ n + length ys =
      omega (arith, length-entries 0 (xs ++ (x ∷ ys)), length-cat xs (x ∷ ys), e) in
    ap (λ o. after n (length m - 1) o (Mapx.remove m (index n))) there
    ∙ ap (after n (length m - 1) (some x)) (remove-gap 0 n xs x ys (omega (arith, e)) (omega arith))
    ∙ ap (λ l. after n l (some x) (entries 0 xs ++ entries (suc n) ys)) last

-- The last entry goes into the gap.
swap_end :
    (n last : ℕ) (x z : RawValue) (m t u : RawMap)
    → Mapx.get m (index last) ≡ some z
    → Mapx.remove m (index last) ≡ t
    → Mapx.insert t (index n) z ≡ u
    → after n last (some x) m ≡ (ok x, u)
unfolding map_remove map_insert int_key
swap_end n last x z m t u h k p = rw h (ap (λ (w : RawMap). (ok x, w)) (rw k p))

swap_nothing :
    (n last : ℕ) (x : RawValue) (m t : RawMap)
    → Mapx.get m (index last) ≡ none
    → Mapx.remove m (index last) ≡ t
    → after n last (some x) m ≡ (ok x, t)
unfolding map_remove map_insert int_key
swap_nothing n last x m t h k = rw h (ap (λ (w : RawMap). (ok x, w)) k)

nth_past : (n : ℕ) (xs : List RawValue) → length xs ≤ n → nth xs n ≡ none
nth_past n [] h = refl
nth_past zero (x ∷ xs) h = absurd (omega arith)
nth_past (suc n) (x ∷ xs) h = nth_past n xs (omega arith)

-- The last element goes, and nothing takes its place.
swap_remove-last :
    (xs : List RawValue) (x : RawValue)
    → length xs + 1 < u64_mod
    → swap_remove_below (length xs) (entries 0 (xs ++ (x ∷ []))) ≡ (ok x, entries 0 xs)
unfolding entries
swap_remove-last xs x room =
    let n = length xs in
    swap_start n xs x [] refl (omega arith)
    ∙ ap (after n (n + 0) (some x)) (append-nil (entries 0 xs))
    ∙ swap_nothing n (n + 0) x (entries 0 xs) (entries 0 xs)
        (get-entries 0 (n + 0) (n + 0) xs (omega arith) (omega arith) (omega arith)
          ∙ nth_past (n + 0) xs (omega arith))
        (remove-nothing 0 (n + 0) xs (omega arith) (omega arith))

-- The last element takes the place of the one that goes.
swap_remove-inside :
    (xs : List RawValue) (x : RawValue) (ys : List RawValue) (z : RawValue)
    → length xs + suc (suc (length ys)) < u64_mod
    → swap_remove_below (length xs) (entries 0 (xs ++ (x ∷ (ys ++ (z ∷ [])))))
      ≡ (ok x, entries 0 (xs ++ (z ∷ ys)))
swap_remove-inside xs x ys z room =
    let n = length xs in
    let zs = ys ++ (z ∷ []) in
    let last = n + length zs in
    let size : length zs ≡ suc (length ys) = length-snoc ys z in
    let place : last ≡ suc n + length ys = omega (arith, size) in
    let small : last < u64_mod = omega (arith, size, room) in
    let fits : suc n + length zs ≤ u64_mod = omega (arith, size, room) in
    let past : 0 + length xs ≤ last = omega arith in
    swap_start n xs x zs refl (omega (arith, size, room))
    ∙ swap_end n last x z (entries 0 xs ++ entries (suc n) zs) (entries 0 xs ++ entries (suc n) ys)
        (entries 0 (xs ++ (z ∷ ys)))
        (get_behind 0 last xs (entries (suc n) zs) past small
          ∙ get-entries (suc n) last (length ys) zs place small fits
          ∙ nth-snoc ys z)
        (remove_behind 0 last xs (entries (suc n) zs) past small
          ∙ ap (λ m. entries 0 xs ++ m) (remove_last-entries (suc n) last ys z place small))
        (fill_gap 0 n xs z ys (omega arith) (omega arith))

-- The list with its last element in front.
abbrev last_of : RawValue → List RawValue → RawValue
last_of z [] = z
last_of z (y ∷ ys) = last_of y ys

abbrev all_but_last : RawValue → List RawValue → List RawValue
all_but_last z [] = []
all_but_last z (y ∷ ys) = z ∷ all_but_last y ys

abbrev last_first : List RawValue → List RawValue
last_first [] = []
last_first (z ∷ zs) = last_of z zs ∷ all_but_last z zs

last_parts : (z : RawValue) (zs : List RawValue) → z ∷ zs ≡ all_but_last z zs ++ (last_of z zs ∷ [])
last_parts z [] = refl
last_parts z (y ∷ zs) = ap (λ ys. z ∷ ys) (last_parts y zs)

-- The list with its last element in the place of the one at an index.
abbrev pub swap_remove_at : ℕ → List RawValue → List RawValue
swap_remove_at idx xs = take idx xs ++ last_first (drop (suc idx) xs)

swap_remove-cons :
    (xs : List RawValue) (x : RawValue) (ys : List RawValue)
    → length xs + suc (length ys) < u64_mod
    → swap_remove_below (length xs) (entries 0 (xs ++ (x ∷ ys)))
      ≡ (ok x, entries 0 (xs ++ last_first ys))
swap_remove-cons xs x [] room =
    swap_remove-last xs x (omega arith)
    ∙ ap (λ (zs : List RawValue). (ok x, entries 0 zs)) (sym (append-nil xs))
swap_remove-cons xs x (y ∷ ys) room =
    let parts = last_parts y ys in
    let size : suc (length ys) ≡ suc (length (all_but_last y ys)) =
      ap length parts ∙ length-snoc (all_but_last y ys) (last_of y ys) in
    ap (λ zs. swap_remove_below (length xs) (entries 0 (xs ++ (x ∷ zs)))) parts
    ∙ swap_remove-inside xs x (all_but_last y ys) (last_of y ys) (omega (arith, size, room))

swap_remove-below :
    (idx : ℕ) (xs ys : List RawValue)
    → length xs ≡ idx
    → 0 < length ys
    → idx + length ys < u64_mod
    → swap_remove_below idx (entries 0 (xs ++ ys))
      ≡ (found (nth ys 0), entries 0 (xs ++ last_first (tail ys)))
swap_remove-below idx xs [] e some_left room = absurd (omega arith)
swap_remove-below idx xs (y ∷ ys) e some_left room =
    ap (λ k. swap_remove_below k (entries 0 (xs ++ (y ∷ ys)))) (sym e)
    ∙ swap_remove-cons xs y ys (omega (arith, e, room))

-- In a vector whose length is a u64, a swap_remove at an index below the length returns the element
-- there and takes it out; the last element of the vector, if it is another one, takes its place; at any
-- other index it panics and changes nothing.
pub swap_remove-at :
    (idx : ℕ) (xs : List RawValue)
    → length xs < u64_mod
    → Vecx.swap_remove idx (entries 0 xs) ≡ (
        if ltb idx (length xs)
        then (found (nth xs idx), entries 0 (swap_remove_at idx xs))
        else (err panicked, entries 0 xs))
unfolding Vecx.swap_remove
swap_remove-at idx xs room =
    ap
      (λ l.
        (if not (l == 0) && ltb idx l then swap_remove_below idx else raise panicked)
          (entries 0 xs))
      (length-entries 0 xs)
    ∙ ap (λ b. (if b then swap_remove_below idx else raise panicked) (entries 0 xs))
        (not_empty idx (length xs))
    ∙ by_test (ltb idx (length xs)) (swap_remove_below idx) (raise panicked) (entries 0 xs)
        (found (nth xs idx), entries 0 (swap_remove_at idx xs))
        (λ h.
          let below : idx < length xs = ground arith in
          ap (λ zs. swap_remove_below idx (entries 0 zs)) (take-drop idx xs)
          ∙ swap_remove-below idx (take idx xs) (drop idx xs) (length-take idx xs (omega arith))
              (omega (arith, length-drop idx xs, below))
              (omega (arith, length-drop idx xs, below, room))
          ∙ ap
              (λ (zs : List RawValue).
                (found (nth (drop idx xs) 0), entries 0 (take idx xs ++ last_first zs)))
              (tail-drop idx xs)
          ∙ ap (λ (o : Option RawValue). (found o, entries 0 (swap_remove_at idx xs)))
              (nth-drop idx xs))
