-- ===== src/Vecx/Refines.antt =====
-- A vector in the store behaves as a list: each operation returns what the list operation returns,
-- and leaves the entries of the changed list.
use Prim.Native.Nat.{compare}
use mathlib.Core.List.{append-nil}
use vsdb.Prelude.{
  ℕ, suc, ◌+◌, ◌-◌, ◌≤◌, ◌<◌, ◌≡◌, sym, ap, ◌∙◌, Option, none, some, List, [], ◌∷◌, ◌++◌, length,
  take, tail, arith, leb, ltb, ◌==◌, if◌then◌else◌,
}
use vsdb.Common.{RawValue, u64_mod}
use vsdb.Exec.{Result, ok, err, for_each, panicked, raise, pure, ◌>>◌}
use vsdb.Mapx
use vsdb.Mapx.{Mapx, Bound, included, excluded, unbounded, bytes_ord}
use vsdb.Ende.{int_key, drop}
use vsdb.Vecx
use vsdb.Vecx.{
  RawMap, one_of_8, index_key, decoded, shift_up, map_get, map_insert, map_range, map_remove,
  insert_below,
}
use vsdb.Vecx.Entries.{
  index, entries, nth, length-entries, insert-entries, get-entries, remove_last-entries,
  range-entries,
}
use vsdb.Vecx.Steps.{
  resume_ok, then_ok, decoded-index, no_wrap, snoc_append, length-snoc, nth-snoc, take-drop,
  length-take, length-drop, length-cat, insert_at, by_cmp, by_order, insert_at-end, by_test,
  tail-drop, set_at,
}

shift_up_lem :
    (n : ℕ) (x : RawValue) (m : RawMap)
    → n + 1 < u64_mod
    → shift_up (index n, x) m ≡ (ok tt, Mapx.insert m (index (n + 1)) x)
unfolding map_insert int_key
shift_up_lem n x m small =
    resume_ok (decoded index_key (index n, x)) _ m (decoded-index n x (omega arith))
    ∙ ap (λ (k : ℕ). (ok tt, Mapx.insert m (index k) x)) (no_wrap n small)

-- One round: the place above gets the value.
shift_one :
    (n : ℕ) (xs : List RawValue) (x y : RawValue) (ys : List RawValue)
    → n ≡ length xs
    → n + 1 < u64_mod
    → shift_up (index n, y) (entries 0 (xs ++ (x ∷ ys)))
      ≡ (ok tt, entries 0 ((xs ++ (x ∷ [])) ++ (y ∷ tail ys)))
shift_one n xs x y ys e small =
    shift_up_lem n y (entries 0 (xs ++ (x ∷ ys))) small
    ∙ ap (λ (m : RawMap). (ok tt, m))
        (ap (λ zs. Mapx.insert (entries 0 zs) (index (n + 1)) y) (sym (snoc_append xs ys x))
          ∙ insert-entries 0 (n + 1) (xs ++ (x ∷ [])) ys y (omega (arith, length-snoc xs x)) small)

-- The values from an index on go one place up; what is at the index is there twice then.
shift_all :
    (n : ℕ) (xs : List RawValue) (x y : RawValue) (ys : List RawValue)
    → n ≡ length xs
    → n + suc (length ys) < u64_mod
    → for_each (entries n (y ∷ ys)) shift_up (entries 0 (xs ++ (x ∷ ys)))
      ≡ (ok tt, entries 0 (xs ++ (x ∷ y ∷ ys)))
unfolding entries
shift_all n xs x y [] e small =
    then_ok (shift_up (index n, y)) (for_each [] shift_up) (shift_one n xs x y [] e (omega arith))
    ∙ ap (λ (zs : List RawValue). (ok tt, entries 0 zs)) (snoc_append xs (y ∷ []) x)
shift_all n xs x y (z ∷ ys) e small =
    then_ok (shift_up (index n, y)) (for_each (entries (suc n) (z ∷ ys)) shift_up)
      (shift_one n xs x y (z ∷ ys) e (omega arith))
    ∙ shift_all (suc n) (xs ++ (x ∷ [])) y z ys (omega (arith, length-snoc xs x)) (omega arith)
    ∙ ap (λ (zs : List RawValue). (ok tt, entries 0 zs)) (snoc_append xs (y ∷ z ∷ ys) x)

-- A push appends, in a vector with room for one more index.
push-append :
    (xs : List RawValue) (x : RawValue)
    → length xs < u64_mod
    → Vecx.push x (entries 0 xs) ≡ (ok tt, entries 0 (xs ++ (x ∷ [])))
unfolding Vecx.push int_key
push-append xs x room =
    ap (λ (m : RawMap). (ok tt, m))
      (ap (λ n. Mapx.insert (entries 0 xs) (index n) x) (length-entries 0 xs)
        ∙ ap (λ zs. Mapx.insert (entries 0 zs) (index (length xs)) x) (sym (append-nil xs))
        ∙ insert-entries 0 (length xs) xs [] x (omega arith) room)

-- A read at an index is the element of the list there, and nothing where the list has none.
get-nth :
    (xs : List RawValue) (idx : ℕ)
    → idx < u64_mod
    → length xs ≤ u64_mod
    → Vecx.get (entries 0 xs) idx ≡ nth xs idx
unfolding Vecx.get map_get int_key
get-nth xs idx small room = get-entries 0 idx idx xs (omega arith) small (omega arith)

pop_step :
    (n : ℕ) (m : RawMap)
    → (if suc n == 0 then pure none else map_remove index_key (suc n - 1)) m
      ≡ (ok (Mapx.get m (index n)), Mapx.remove m (index n))
unfolding map_remove int_key
pop_step n m = let e : suc n - 1 ≡ n = omega arith in rw e (ground arith)

-- A pop takes the last element, and gives nothing from an empty vector.
pop-append :
    (xs : List RawValue) (x : RawValue)
    → length xs < u64_mod
    → Vecx.pop (entries 0 (xs ++ (x ∷ []))) ≡ (ok (some x), entries 0 xs)
unfolding Vecx.pop map_remove int_key
pop-append xs x room =
    ap
      (λ (l : ℕ).
        (if l == 0 then pure none else map_remove index_key (l - 1)) (entries 0 (xs ++ (x ∷ []))))
      (length-entries 0 (xs ++ (x ∷ [])) ∙ length-snoc xs x)
    ∙ pop_step (length xs) (entries 0 (xs ++ (x ∷ [])))
    ∙ ap
        (λ (o : Option RawValue).
          (ok o, Mapx.remove (entries 0 (xs ++ (x ∷ []))) (index (length xs))))
        (get-entries 0 (length xs) (length xs) (xs ++ (x ∷ [])) (omega arith) room
            (omega (arith, length-snoc xs x))
          ∙ nth-snoc xs x)
    ∙ ap (λ (m : RawMap). (ok (some x), m))
        (remove_last-entries 0 (length xs) xs x (omega arith) room)

-- The insertion below the end, where something is at the index.
insert_below-cons :
    (n : ℕ) (xs : List RawValue) (x y : RawValue) (ys : List RawValue)
    → n ≡ length xs
    → n + suc (length ys) < u64_mod
    → insert_below n x (entries 0 (xs ++ (y ∷ ys))) ≡ (ok tt, entries 0 (xs ++ (x ∷ y ∷ ys)))
unfolding insert_below map_range map_insert int_key
insert_below-cons n xs x y ys e small =
    let m = entries 0 (xs ++ (y ∷ ys)) in
    let size : length m ≡ n + suc (length ys) =
      length-entries 0 (xs ++ (y ∷ ys))
      ∙ length-cat xs (y ∷ ys)
      ∙ ap (λ (k : ℕ). k + suc (length ys)) (sym e) in
    let items : map_range index_key m (included n) (excluded (length m)) ≡ entries n (y ∷ ys) =
      range-entries 0 n (length m) xs (y ∷ ys) (omega (arith, e)) size
        (omega (arith, size, small)) in
    ap (λ es. (for_each es shift_up >> (map_insert index_key n x >> pure tt)) m) items
    ∙ then_ok (for_each (entries n (y ∷ ys)) shift_up) (map_insert index_key n x >> pure tt)
        (shift_all n xs y y ys e small)
    ∙ ap (λ (t : RawMap). (ok tt, t))
        (insert-entries 0 n xs (y ∷ y ∷ ys) x (omega (arith, e)) (omega arith))

insert-below :
    (idx : ℕ) (x : RawValue) (xs ys : List RawValue)
    → length xs ≡ idx
    → 0 < length ys
    → idx + length ys < u64_mod
    → insert_below idx x (entries 0 (xs ++ ys)) ≡ (ok tt, entries 0 (xs ++ (x ∷ ys)))
insert-below idx x xs [] e some_left room = absurd (omega arith)
insert-below idx x xs (y ∷ ys) e some_left room = insert_below-cons idx xs x y ys (sym e) room

-- In a vector with room for one more index, an insertion at an index up to the length puts the value
-- there and moves the rest one place up; at an index above the length it panics and changes nothing.
pub insert-at :
    (idx : ℕ) (x : RawValue) (xs : List RawValue)
    → length xs < u64_mod
    → Vecx.insert idx x (entries 0 xs) ≡ (
        if leb idx (length xs)
        then (ok tt, entries 0 (insert_at idx x xs))
        else (err panicked, entries 0 xs))
unfolding Vecx.insert
insert-at idx x xs room =
    let m = entries 0 xs in
    let done : Result Unit × RawMap = (ok tt, entries 0 (insert_at idx x xs)) in
    ap (λ l. by_cmp (compare l idx) (raise panicked) (Vecx.push x) (insert_below idx x) m)
      (length-entries 0 xs)
    ∙ by_order (length xs) idx (insert_below idx x) (Vecx.push x) (raise panicked) m done
        (λ below.
          ap (λ zs. insert_below idx x (entries 0 zs)) (take-drop idx xs)
          ∙ insert-below idx x (take idx xs) (drop idx xs) (length-take idx xs (omega arith))
              (omega (arith, length-drop idx xs, below))
              (omega (arith, length-drop idx xs, below, room)))
        (λ at_end.
          push-append xs x room
          ∙ ap (λ (zs : List RawValue). (ok tt, entries 0 zs)) (sym (insert_at-end xs x))
          ∙ ap (λ (k : ℕ). (ok tt, entries 0 (insert_at k x xs))) (sym at_end))

-- In a vector whose length is a u64, an update at an index below the length returns the value there
-- and puts the new one in its place; at any other index it panics and changes nothing.
update-at :
    (idx : ℕ) (x : RawValue) (xs : List RawValue)
    → length xs < u64_mod
    → Vecx.update idx x (entries 0 xs) ≡ (
        if ltb idx (length xs)
        then (ok (nth xs idx), entries 0 (set_at idx x xs))
        else (err panicked, entries 0 xs))
unfolding Vecx.update map_insert int_key
update-at idx x xs room =
    let m = entries 0 xs in
    ap (λ l. (if ltb idx l then map_insert index_key idx x else raise panicked) m)
      (length-entries 0 xs)
    ∙ by_test (ltb idx (length xs)) (map_insert index_key idx x) (raise panicked) m
        (ok (nth xs idx), entries 0 (set_at idx x xs))
        (λ h.
          let below : idx < length xs = ground arith in
          ap (λ (o : Option RawValue). (ok o, Mapx.insert m (index idx) x))
            (get-entries 0 idx idx xs (omega arith) (omega arith) (omega arith))
          ∙ ap (λ (t : RawMap). (ok (nth xs idx), t))
              (ap (λ zs. Mapx.insert (entries 0 zs) (index idx) x) (take-drop idx xs)
                ∙ insert-entries 0 idx (take idx xs) (drop idx xs) x
                    (omega (arith, length-take idx xs)) (omega arith)
                ∙ ap (λ zs. entries 0 (take idx xs ++ (x ∷ zs))) (tail-drop idx xs)))
