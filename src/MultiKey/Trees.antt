-- ===== src/MultiKey/Trees.antt =====
-- The changes of a map with keys of several parts keep all its maps in order.
use Prim.Native.Nat.{Ordering}
use Prim.Native.Nat.Ordering.{lt, eq, gt}
use vsdb.Prelude.{
  ℕ, zero, suc, ◌≡◌, refl, Option, none, some, List, [], ◌∷◌, Option-cases, inl, inr,
}
use vsdb.Common.{RawKey, RawValue}
use vsdb.Mapx
use vsdb.Mapx.{Mapx, bytes_ord, cmp_bytes}
use vsdb.Mapx.Ascending.{insert-IsAscending, remove-IsAscending}
use vsdb.MultiKey.{Node, empty_node, or_new, insert_into, remove_from}
use vsdb.MultiKey.Keys.{RawKeys}
use vsdb.MultiKey.Prefix.{All, IsTree, IsTree-at}

-- A property of one of three lists.
by_place :
    {A : Type 0} (P : A → Type 0) (o : Ordering) (x y z : List A)
    → All P x
    → All P y
    → All P z
    → All P (elim o [ lt ↦ x | eq ↦ y | gt ↦ z ])
by_place P lt x y z a b c = a
by_place P eq x y z a b c = b
by_place P gt x y z a b c = c

module _ {V : Type 0} (P : V → Type 0) where
  All-insert :
      (m : Mapx RawKey V) (k : RawKey) (v : V)
      → All (λ e. P e.1) m
      → P v
      → All (λ e. P e.1) (Mapx.insert m k v)
  unfolding Mapx.insert
  All-insert [] k v all p = (p, tt)
  All-insert ((j, w) ∷ m) k v all p =
      by_place (λ (e : RawKey × V). P e.1) (cmp_bytes k j) ((k, v) ∷ (j, w) ∷ m) ((k, v) ∷ m)
        ((j, w) ∷ Mapx.insert m k v) (p, all) (p, all.1) (all.0, All-insert m k v all.1 p)

  All-remove :
      (m : Mapx RawKey V) (k : RawKey) → All (λ e. P e.1) m → All (λ e. P e.1) (Mapx.remove m k)
  unfolding Mapx.remove
  All-remove [] k all = tt
  All-remove ((j, w) ∷ m) k all =
      let kept : P w × All (λ (e : RawKey × V). P e.1) (Mapx.remove m k) =
        (all.0, All-remove m k all.1) in
      by_place (λ (e : RawKey × V). P e.1) (cmp_bytes k j) ((j, w) ∷ Mapx.remove m k)
        (Mapx.remove m k) ((j, w) ∷ Mapx.remove m k) kept kept.1 kept

pub empty-IsTree : (n : ℕ) → IsTree n (empty_node n)
empty-IsTree zero = tt
empty-IsTree (suc n) = (tt, tt)

or_new-IsTree :
    (n : ℕ) (o : Option (Node n)) → ((c : Node n) → o ≡ some c → IsTree n c) → IsTree n (or_new n o)
or_new-IsTree n none h = empty-IsTree n
or_new-IsTree n (some c) h = h c refl

-- An insertion keeps all the maps in order.
pub insert_into-IsTree :
    (n : ℕ) (key : RawKeys) (value : RawValue) (hdr : Node n)
    → IsTree n hdr
    → IsTree n (insert_into n key value hdr).1
unfolding insert_into
insert_into-IsTree zero key value hdr tree = tt
insert_into-IsTree (suc n) [] value hdr tree = tree
insert_into-IsTree (suc zero) (k ∷ key) value hdr tree =
    (insert-IsAscending hdr k value tree.0, All-insert (λ v. Unit) hdr k value tree.1 tt)
insert_into-IsTree (suc (suc n)) (k ∷ key) value hdr tree =
    let below = or_new (suc n) (Mapx.get hdr k) in
    let h = (insert_into (suc n) key value below).1 in
    let kept = insert_into-IsTree (suc n) key value below (
      or_new-IsTree (suc n) (Mapx.get hdr k) (λ c there. IsTree-at (suc n) hdr k c tree.1 there)) in
    (insert-IsAscending hdr k h tree.0, All-insert (λ c. IsTree (suc n) c) hdr k h tree.1 kept)

-- A removal keeps all the maps in order.
remove_from-IsTree :
    (n : ℕ) (key : RawKeys) (hdr : Node n) → IsTree n hdr → IsTree n (remove_from n key hdr).1
unfolding remove_from
remove_from-IsTree zero key hdr tree = tt
remove_from-IsTree (suc n) [] hdr tree = tree
remove_from-IsTree (suc n) (k ∷ []) hdr tree = elim (Option-cases (Mapx.get hdr k)) [
  | inl gone ↦ rw (gone, remove_from) tree
  | inr (c, there) ↦
      rw (there, remove_from)
        (remove-IsAscending hdr k tree.0, All-remove (λ c. IsTree n c) hdr k tree.1)
]
remove_from-IsTree (suc n) (k ∷ l ∷ key) hdr tree = elim (Option-cases (Mapx.get hdr k)) [
  | inl gone ↦ rw (gone, remove_from) tree
  | inr (c, there) ↦
      let rest = (remove_from n (l ∷ key) c).1 in
      let kept = remove_from-IsTree n (l ∷ key) c (IsTree-at n hdr k c tree.1 there) in
      rw (there, remove_from)
        (insert-IsAscending hdr k rest tree.0, All-insert (λ c. IsTree n c) hdr k rest tree.1 kept)
]
