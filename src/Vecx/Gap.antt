-- ===== src/Vecx/Gap.antt =====
-- A vector with nothing at one index: how `remove` makes the gap and closes it again.
use Prim.Native.Nat.{compare}
use Prim.Native.Nat.Ordering.{lt}
use mathlib.Core.List.{append-nil}
use vsdb.Prelude.{
  ℕ, suc, ◌+◌, ◌-◌, ◌≤◌, ◌<◌, ◌≡◌, refl, sym, ap, ◌∙◌, true, false, ◌&&◌, List, [], ◌∷◌, ◌++◌,
  length, arith, leb, if◌then◌else◌,
}
use vsdb.Common.{RawValue, u64_mod}
use vsdb.Exec.{ok, for_each, pure, ◌>>◌}
use vsdb.Mapx
use vsdb.Mapx.{Mapx, Bound, included, excluded, unbounded, bytes_ord}
use vsdb.Ende.{int_key}
use vsdb.Vecx.{shift_down, RawMap, index_key, decoded, map_insert, map_remove}
use vsdb.Vecx.Entries.{
  index, entries, cmp-index, compare-gt, compare-eq, remove-nothing, insert-entries,
  remove_last-entries,
}
use vsdb.Vecx.Steps.{resume_ok, then_ok, decoded-index, snoc_append, length-snoc, length-cat}

compare-lt : (n i : ℕ) → n < i → compare n i ≡ lt
compare-lt n i h = ground arith

remove_before :
    (i n : ℕ) (ys : List RawValue)
    → n < i
    → i + length ys ≤ u64_mod
    → Mapx.remove (entries i ys) (index n) ≡ entries i ys
unfolding entries Mapx.remove
remove_before i n [] less room = refl
remove_before i n (y ∷ ys) less room =
    rw (cmp-index n i (omega arith) (omega arith), compare-lt n i less, Mapx.remove)
      (ap (λ m. (index i, y) ∷ m) (remove_before (suc i) n ys (omega arith) (omega arith)))

-- An element is taken out.
pub remove-gap :
    (i n : ℕ) (xs : List RawValue) (y : RawValue) (ys : List RawValue)
    → n ≡ i + length xs
    → n + suc (length ys) ≤ u64_mod
    → Mapx.remove (entries i (xs ++ (y ∷ ys))) (index n) ≡ entries i xs ++ entries (suc n) ys
unfolding entries Mapx.remove
remove-gap i n [] y ys e room =
    let same : n ≡ i = omega arith in
    rw (cmp-index n i (omega arith) (omega arith), compare-eq n i same, Mapx.remove)
      (remove_before (suc i) n ys (omega arith) (omega arith)
        ∙ ap (λ k. entries (suc k) ys) (sym same))
remove-gap i n (x ∷ xs) y ys e room =
    rw (cmp-index n i (omega arith) (omega arith), compare-gt n i (omega arith), Mapx.remove)
      (ap (λ m. (index i, x) ∷ m) (remove-gap (suc i) n xs y ys (omega arith) room))

-- The next element is copied into the gap.
insert-gap :
    (i n : ℕ) (xs : List RawValue) (y : RawValue) (ys : List RawValue)
    → n ≡ i + length xs
    → n + suc (length ys) < u64_mod
    → Mapx.insert (entries i xs ++ entries (suc n) (y ∷ ys)) (index n) y
      ≡ entries i (xs ++ (y ∷ y ∷ ys))
unfolding entries Mapx.insert
insert-gap i n [] y ys e room =
    let same : n ≡ i = omega arith in
    rw
      (
        cmp-index n (suc n) (omega arith) (omega arith),
        compare-lt n (suc n) (omega arith),
        Mapx.insert,
      )
      (ap (λ k. (index k, y) ∷ (index (suc k), y) ∷ entries (suc (suc k)) ys) same)
insert-gap i n (x ∷ xs) y ys e room =
    rw (cmp-index n i (omega arith) (omega arith), compare-gt n i (omega arith), Mapx.insert)
      (ap (λ m. (index i, x) ∷ m) (insert-gap (suc i) n xs y ys (omega arith) room))

shift_down_lem :
    (n : ℕ) (x : RawValue) (m : RawMap)
    → suc n < u64_mod
    → shift_down (index (suc n), x) m ≡ (ok tt, Mapx.insert m (index n) x)
unfolding map_insert int_key
shift_down_lem n x m small =
    let e : suc n - 1 ≡ n = omega arith in
    resume_ok (decoded index_key (index (suc n), x)) _ m (decoded-index (suc n) x small)
    ∙ ap (λ (k : ℕ). (ok tt, Mapx.insert m (index k) x)) e

-- The elements go one place down; the last is there twice then.
shift_rest :
    (n : ℕ) (xs : List RawValue) (w : RawValue) (ys : List RawValue)
    → n ≡ length xs
    → n + suc (length ys) < u64_mod
    → (z : RawValue) × (for_each (entries (suc n) ys) shift_down (entries 0 (xs ++ (w ∷ ys)))
        ≡ (ok tt, entries 0 ((xs ++ ys) ++ (z ∷ []))))
unfolding entries
shift_rest n xs w [] e room =
    (w, ap (λ (zs : List RawValue). (ok tt, entries 0 (zs ++ (w ∷ [])))) (sym (append-nil xs)))
shift_rest n xs w (y ∷ ys) e room =
    let moved =
      shift_down_lem n y (entries 0 (xs ++ (w ∷ y ∷ ys))) (omega arith)
      ∙ ap (λ (m : RawMap). (ok tt, m))
          (insert-entries 0 n xs (w ∷ y ∷ ys) y (omega arith) (omega arith)
            ∙ ap (entries 0) (sym (snoc_append xs (y ∷ ys) y))) in
    let (z, rest) =
      shift_rest (suc n) (xs ++ (y ∷ [])) y ys (omega (arith, length-snoc xs y)) (omega arith) in
    (
      z,
      then_ok (shift_down (index (suc n), y)) (for_each (entries (suc (suc n)) ys) shift_down) moved
          ∙ rest
          ∙ ap (λ (zs : List RawValue). (ok tt, entries 0 (zs ++ (z ∷ [])))) (snoc_append xs ys y),
    )

map_remove_lem :
    (n : ℕ) (m : RawMap)
    → map_remove index_key n m ≡ (ok (Mapx.get m (index n)), Mapx.remove m (index n))
unfolding map_remove int_key
map_remove_lem n m = refl

-- The last entry goes, and the call returns.
drop_last :
    (n : ℕ) (ret : RawValue) (m t : RawMap)
    → Mapx.remove m (index n) ≡ t
    → (map_remove index_key n >> pure ret) m ≡ (ok ret, t)
drop_last n ret m t h =
    then_ok (map_remove index_key n) (pure ret) (map_remove_lem n m)
    ∙ ap (λ (w : RawMap). (ok ret, w)) h

append_empty : (i : ℕ) (xs : List RawValue) → entries i xs ++ [] ≡ entries i xs
append_empty i xs = append-nil (entries i xs)

pub close_gap :
    (n : ℕ) (xs ys : List RawValue) (ret : RawValue)
    → n ≡ length xs
    → n + suc (length ys) < u64_mod
    → (for_each (entries (suc n) ys) shift_down
          >> (map_remove index_key (n + length ys) >> pure ret))
        (entries 0 xs ++ entries (suc n) ys)
      ≡ (ok ret, entries 0 (xs ++ ys))
unfolding entries
close_gap n xs [] ret e room = drop_last (n + 0) ret (entries 0 xs ++ []) (entries 0 (xs ++ [])) (
    ap (λ m. Mapx.remove m (index (n + 0))) (append_empty 0 xs)
    ∙ remove-nothing 0 (n + 0) xs (omega arith) (omega arith)
    ∙ ap (entries 0) (sym (append-nil xs)))
close_gap n xs (y ∷ ys) ret e room =
    let filled =
      shift_down_lem n y (entries 0 xs ++ entries (suc n) (y ∷ ys)) (omega arith)
      ∙ ap (λ (m : RawMap). (ok tt, m))
          (insert-gap 0 n xs y ys (omega arith) (omega arith)
            ∙ ap (entries 0) (sym (snoc_append xs (y ∷ ys) y))) in
    let (z, rest) =
      shift_rest (suc n) (xs ++ (y ∷ [])) y ys (omega (arith, length-snoc xs y)) (omega arith) in
    let last = n + suc (length ys) in
    let front = (xs ++ (y ∷ [])) ++ ys in
    let all_moved =
      then_ok (shift_down (index (suc n), y)) (for_each (entries (suc (suc n)) ys) shift_down)
        filled
      ∙ rest in
    then_ok (for_each (entries (suc n) (y ∷ ys)) shift_down) (map_remove index_key last >> pure ret)
      all_moved
    ∙ drop_last last ret (entries 0 (front ++ (z ∷ []))) (entries 0 (xs ++ (y ∷ ys))) (
        remove_last-entries 0 last front z
          (omega (arith, length-cat (xs ++ (y ∷ [])) ys, length-snoc xs y)) (omega arith)
        ∙ ap (entries 0) (snoc_append xs ys y))

from_step :
    (i n : ℕ) (x : RawValue) (m : RawMap)
    → i < u64_mod
    → n < u64_mod
    → Mapx.range ((index i, x) ∷ m) (included (index n)) unbounded ≡ (
        if leb n i && true
        then (index i, x) ∷ Mapx.range m (included (index n)) unbounded
        else Mapx.range m (included (index n)) unbounded)
unfolding Mapx.range
from_step i n x m hi hn = ground (arith, cmp-index i n hi hn)

leb-true : (n i : ℕ) → n ≤ i → leb n i ≡ true
leb-true n i h = ground arith

leb-false : (n i : ℕ) → i < n → leb n i ≡ false
leb-false n i h = ground arith

range_tail :
    (i n : ℕ) (ys : List RawValue)
    → n ≤ i
    → i + length ys ≤ u64_mod
    → n < u64_mod
    → Mapx.range (entries i ys) (included (index n)) unbounded ≡ entries i ys
unfolding entries Mapx.range
range_tail i n [] le room small = refl
range_tail i n (y ∷ ys) le room small =
    from_step i n y (entries (suc i) ys) (omega arith) small
    ∙ ap
        (λ b.
          if b && true
          then (index i, y) ∷ Mapx.range (entries (suc i) ys) (included (index n)) unbounded
          else Mapx.range (entries (suc i) ys) (included (index n)) unbounded)
        (leb-true n i le)
    ∙ ap (λ m. (index i, y) ∷ m) (range_tail (suc i) n ys (omega arith) (omega arith) small)

pub range_gap :
    (i n : ℕ) (xs ys : List RawValue)
    → n ≡ i + length xs
    → n + suc (length ys) < u64_mod
    → Mapx.range (entries i xs ++ entries (suc n) ys) (included (index (suc n))) unbounded
      ≡ entries (suc n) ys
unfolding entries Mapx.range
range_gap i n [] ys e room = range_tail (suc n) (suc n) ys (omega arith) (omega arith) (omega arith)
range_gap i n (x ∷ xs) ys e room =
    from_step i (suc n) x (entries (suc i) xs ++ entries (suc n) ys) (omega arith) (omega arith)
    ∙ ap
        (λ b.
          if b && true
          then (index i, x)
            ∷ Mapx.range (entries (suc i) xs ++ entries (suc n) ys) (included (index (suc n)))
                unbounded
          else Mapx.range (entries (suc i) xs ++ entries (suc n) ys) (included (index (suc n)))
              unbounded)
        (leb-false (suc n) i (omega arith))
    ∙ range_gap (suc i) n xs ys (omega arith) room
