-- ===== src/Scenario/Vectors.antt =====
-- A vector of two elements.
use vsdb.Prelude.{◌≡◌, refl, List, [], ◌∷◌, length, arith, leb, ltb, if◌then◌else◌}
use vsdb.Common.{RawValue}
use vsdb.Exec.{ok, err, panicked}
use vsdb.Vecx
use vsdb.Vecx.Entries.{entries, nth}
use vsdb.Vecx.Steps.{insert_at}
use vsdb.Vecx.Refines.{insert-at}
use vsdb.Vecx.Remove.{remove_at, remove-at, found}
use vsdb.Vecx.Swap.{swap_remove_at, swap_remove-at}

abbrev two : List RawValue
two = (7 ∷ []) ∷ (8 ∷ []) ∷ []

insert-at_example : Vecx.insert 1 (9 ∷ []) (entries 0 two) ≡ (
    if leb 1 (length two)
    then (ok tt, entries 0 (insert_at 1 (9 ∷ []) two))
    else (err panicked, entries 0 two))
insert-at_example = insert-at 1 (9 ∷ []) two (omega arith)

inserted : insert_at 1 (9 ∷ []) two ≡ (7 ∷ []) ∷ (9 ∷ []) ∷ (8 ∷ []) ∷ []
inserted = refl

swap_remove-at_example : Vecx.swap_remove 0 (entries 0 two) ≡ (
    if ltb 0 (length two)
    then (found (nth two 0), entries 0 (swap_remove_at 0 two))
    else (err panicked, entries 0 two))
swap_remove-at_example = swap_remove-at 0 two (omega arith)

swapped : swap_remove_at 0 ((7 ∷ []) ∷ (8 ∷ []) ∷ (9 ∷ []) ∷ []) ≡ (9 ∷ []) ∷ (8 ∷ []) ∷ []
swapped = refl

remove-at_example : Vecx.remove 0 (entries 0 two) ≡ (
    if ltb 0 (length two)
    then (found (nth two 0), entries 0 (remove_at 0 two))
    else (err panicked, entries 0 two))
remove-at_example = remove-at 0 two (omega arith)
