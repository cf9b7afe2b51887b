-- ===== src/Vecx/Remove.antt =====
-- `remove` takes an element out of the list: the ones behind it go one place down.
use vsdb.Prelude.{
  ℕ, zero, suc, ◌+◌, ◌-◌, ◌%◌, ◌<◌, ◌≡◌, refl, sym, ap, ◌∙◌, not, ◌&&◌, Option, none, some, List,
  [], ◌∷◌, ◌++◌, length, take, tail, arith, ltb, ◌==◌, if◌then◌else◌,
}
use vsdb.Common.{RawValue, u64_mod}
use vsdb.Exec.{Result, ok, err, Exec, for_each, panicked, raise, pure, require, gets, ◌>>◌, ◌>>=◌}
use vsdb.Mapx
use vsdb.Mapx.{Mapx, Bound, included, excluded, unbounded, bytes_ord}
use vsdb.Ende.{int_key, drop}
use vsdb.Vecx
use vsdb.Vecx.{
  shift_down, remove_below, RawMap, one_of_8, index_key, decoded, shift_up, map_get, map_insert,
  map_range, map_remove, insert_below,
}
use vsdb.Vecx.Entries.{index, entries, nth, length-entries, get-entries}
use vsdb.Vecx.Steps.{take-drop, length-take, length-drop, length-cat, by_test, tail-drop}
use vsdb.Vecx.Gap.{remove-gap, close_gap, range_gap}

-- What `remove` does once the element is out.
abbrev after : ℕ → ℕ → Option RawValue → Exec RawMap RawValue
after l k old = do
  ret ← require old panicked
  items ← gets (λ m. map_range index_key m (included k) unbounded)
  for_each items shift_down
  map_remove index_key l
  pure ret

pub nth-cat :
    (xs : List RawValue) (x : RawValue) (ys : List RawValue)
    → nth (xs ++ (x ∷ ys)) (length xs) ≡ some x
nth-cat [] x ys = refl
nth-cat (y ∷ xs) x ys = nth-cat xs x ys

-- An element that is there is taken out.
remove_below-cons :
    (n : ℕ) (xs : List RawValue) (x : RawValue) (ys : List RawValue)
    → n ≡ length xs
    → n + suc (length ys) < u64_mod
    → remove_below n (entries 0 (xs ++ (x ∷ ys))) ≡ (ok x, entries 0 (xs ++ ys))
unfolding remove_below map_range map_remove int_key
remove_below-cons n xs x ys e room =
    let m = entries 0 (xs ++ (x ∷ ys)) in
    let there : Mapx.get m (index n) ≡ some x =
      get-entries 0 n n (xs ++ (x ∷ ys)) (omega arith) (omega arith)
        (omega (arith, length-cat xs (x ∷ ys), e, room))
      ∙ ap (nth (xs ++ (x ∷ ys))) e
      ∙ nth-cat xs x ys in
    let left : Mapx.remove m (index n) ≡ entries 0 xs ++ entries (suc n) ys =
      remove-gap 0 n xs x ys (omega (arith, e)) (omega arith) in
    let next : (1 + n) % u64_mod ≡ suc n = omega arith in
    let last : length m - 1 ≡ n + length ys =
      omega (arith, length-entries 0 (xs ++ (x ∷ ys)), length-cat xs (x ∷ ys), e) in
    let items : map_range index_key (entries 0 xs ++ entries (suc n) ys) (included (suc n))
          unbounded
        ≡ entries (suc n) ys =
      range_gap 0 n xs ys (omega (arith, e)) room in
    ap (λ o. after (length m - 1) ((1 + n) % u64_mod) o (Mapx.remove m (index n))) there
    ∙ ap (after (length m - 1) ((1 + n) % u64_mod) (some x)) left
    ∙ ap (λ k. after (length m - 1) k (some x) (entries 0 xs ++ entries (suc n) ys)) next
    ∙ ap (λ l. after l (suc n) (some x) (entries 0 xs ++ entries (suc n) ys)) last
    ∙ ap
        (λ es.
          (for_each es shift_down >> (map_remove index_key (n + length ys) >> pure x))
            (entries 0 xs ++ entries (suc n) ys))
        items
    ∙ close_gap n xs ys x e room

-- The list without the element at an index.
abbrev pub remove_at : ℕ → List RawValue → List RawValue
remove_at idx xs = take idx xs ++ drop (suc idx) xs

-- An element, where one must be.
abbrev pub found : Option RawValue → Result RawValue
found none = err panicked
found (some x) = ok x

pub nth-drop : (n : ℕ) (xs : List RawValue) → nth (drop n xs) 0 ≡ nth xs n
nth-drop zero xs = refl
nth-drop (suc n) [] = refl
nth-drop (suc n) (x ∷ xs) = nth-drop n xs

pub not_empty : (idx l : ℕ) → (not (l == 0) && ltb idx l) ≡ ltb idx l
not_empty idx l = ground arith

remove-below :
    (idx : ℕ) (xs ys : List RawValue)
    → length xs ≡ idx
    → 0 < length ys
    → idx + length ys < u64_mod
    → remove_below idx (entries 0 (xs ++ ys)) ≡ (found (nth ys 0), entries 0 (xs ++ tail ys))
remove-below idx xs [] e some_left room = absurd (omega arith)
remove-below idx xs (y ∷ ys) e some_left room = remove_below-cons idx xs y ys (sym e) room

-- In a vector whose length is a u64, a removal at an index below the length returns the element there,
-- takes it out and moves the rest one place down; at any other index it panics and changes nothing.
pub remove-at :
    (idx : ℕ) (xs : List RawValue)
    → length xs < u64_mod
    → Vecx.remove idx (entries 0 xs) ≡ (
        if ltb idx (length xs)
        then (found (nth xs idx), entries 0 (remove_at idx xs))
        else (err panicked, entries 0 xs))
unfolding Vecx.remove
remove-at idx xs room =
    ap
      (λ l. (if not (l == 0) && ltb idx l then remove_below idx else raise panicked) (entries 0 xs))
      (length-entries 0 xs)
    ∙ ap (λ b. (if b then remove_below idx else raise panicked) (entries 0 xs))
        (not_empty idx (length xs))
    ∙ by_test (ltb idx (length xs)) (remove_below idx) (raise panicked) (entries 0 xs)
        (found (nth xs idx), entries 0 (remove_at idx xs))
        (λ h.
          let below : idx < length xs = ground arith in
          ap (λ zs. remove_below idx (entries 0 zs)) (take-drop idx xs)
          ∙ remove-below idx (take idx xs) (drop idx xs) (length-take idx xs (omega arith))
              (omega (arith, length-drop idx xs, below))
              (omega (arith, length-drop idx xs, below, room))
          ∙ ap
              (λ (zs : List RawValue). (found (nth (drop idx xs) 0), entries 0 (take idx xs ++ zs)))
              (tail-drop idx xs)
          ∙ ap (λ (o : Option RawValue). (found o, entries 0 (remove_at idx xs))) (nth-drop idx xs))
