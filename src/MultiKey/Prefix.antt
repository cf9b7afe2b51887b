-- ===== src/MultiKey/Prefix.antt =====
-- The walk over the entries whose keys start with a prefix, and what the entries have to do with
-- the reads.
use Prim.Native.Nat.{Ordering}
use Prim.Native.Nat.Ordering.{lt, eq, gt}
use mathlib.Core.List.{append-nil}
use vsdb.Prelude.{
  ℕ, zero, suc, ◌≤◌, ◌≡◌, refl, sym, ap, subst, ◌∙◌, Bool, Option, none, some, List, [], ◌∷◌, ◌++◌,
  filter, length, arith, ◌>>=?◌, Option-cases, inl, inr, or_else,
}
use vsdb.Common.{RawKey, RawValue}
use vsdb.Exec.{Exec, pure, for_each}
use vsdb.Mapx
use vsdb.Mapx.{Mapx, bytes_ord, cmp_bytes, eq_of_cmp_bytes, cmp_bytes_refl}
use vsdb.Mapx.Ascending.{IsAscending, IsOver, lt_of_get}
use vsdb.MultiKey.{Node, get_from, walk_prefix}
use vsdb.MultiKey.Keys.{RawKeys, keys_ord, starts_with}
use vsdb.MultiKey.Walk.{
  Entries, under, flat_map, entries, at_path, for_each-under, recursive_walk-entries,
}

module _ {A : Type 0} where
  abbrev pub All : (A → Type 0) → List A → Type 0
  All P [] = Unit
  All P (x ∷ xs) = P x × All P xs

-- All the maps are in the order of their keys.
abbrev pub IsTree : (n : ℕ) → Node n → Type 0
IsTree zero v = Unit
IsTree (suc n) hdr = IsAscending hdr × All (λ e. IsTree n e.1) hdr

abbrev pub with_prefix : RawKeys → Entries → Entries
with_prefix p es = filter (λ e. starts_with p e.0) es

filter-cat :
    {A : Type 0} (p : A → Bool) (xs ys : List A) → filter p (xs ++ ys) ≡ filter p xs ++ filter p ys
filter-cat p [] ys = refl
filter-cat p (x ∷ xs) ys = ground (arith, filter-cat p xs ys)

with_prefix-empty : (es : Entries) → with_prefix [] es ≡ es
with_prefix-empty [] = refl
with_prefix-empty (e ∷ es) = ap (λ xs. e ∷ xs) (with_prefix-empty es)

with_prefix-under :
    (k : RawKey) (p : RawKeys) (j : RawKey) (es : Entries)
    → with_prefix (k ∷ p) (under j es)
      ≡ elim (cmp_bytes j k) [ eq ↦ under j (with_prefix p es) | _ ↦ [] ]
with_prefix-under k p j [] = ground arith
with_prefix-under k p j (e ∷ es) = ground (arith, with_prefix-under k p j es)

-- Below a key there is nothing in what is over it.
get-IsOver :
    {V : Type 0} (m : Mapx RawKey V) (k : RawKey) → IsOver k m → IsAscending m → Mapx.get m k ≡ none
get-IsOver m k over asc = elim (Option-cases (Mapx.get m k)) [
  | inl gone ↦ gone
  | inr (v, there) ↦ ground (arith, lt_of_get m k k v over asc there, cmp_bytes_refl k)
]

abbrev pub blocks : (n : ℕ) → Mapx RawKey (Node n) → Entries
blocks n hdr = flat_map (λ e. under e.0 (entries n e.1)) hdr

abbrev block_at : (n : ℕ) → RawKey → RawKeys → Option (Node n) → Entries
block_at n k p none = []
block_at n k p (some c) = under k (with_prefix p (entries n c))

-- One block is the one asked for, or the search goes on.
joined :
    {V : Type 0} (k j : RawKey) (xs : Entries) (found : Option V → Entries) (c : V) (o : Option V)
    → found none ≡ []
    → (k ≡ j → xs ≡ found (some c))
    → (k ≡ j → o ≡ none)
    → elim (cmp_bytes j k) [ eq ↦ xs | _ ↦ [] ] ++ found o
      ≡ found (elim (cmp_bytes k j) [ eq ↦ some c | _ ↦ o ])
joined k j xs found c o e here last = ground (
  arith,
  e,
  here,
  last,
  append-nil xs,
  eq_of_cmp_bytes k j,
  eq_of_cmp_bytes j k,
  cmp_bytes_refl j,
)

with_prefix-blocks :
    (n : ℕ) (hdr : Mapx RawKey (Node n)) (k : RawKey) (p : RawKeys)
    → IsAscending hdr
    → with_prefix (k ∷ p) (blocks n hdr) ≡ block_at n k p (Mapx.get hdr k)
unfolding Mapx.get
with_prefix-blocks n [] k p asc = refl
with_prefix-blocks n ((j, c) ∷ hdr) k p asc =
    filter-cat (λ e. starts_with (k ∷ p) e.0) (under j (entries n c)) (blocks n hdr)
    ∙ ap (λ xs. xs ++ with_prefix (k ∷ p) (blocks n hdr)) (with_prefix-under k p j (entries n c))
    ∙ ap (λ ys. elim (cmp_bytes j k) [ eq ↦ under j (with_prefix p (entries n c)) | _ ↦ [] ] ++ ys)
        (with_prefix-blocks n hdr k p asc.1)
    ∙ joined k j (under j (with_prefix p (entries n c))) (block_at n k p) c (Mapx.get hdr k) refl
        (λ e. ap (λ i. under i (with_prefix p (entries n c))) (sym e))
        (λ e. get-IsOver hdr k (rw e asc.0) asc.1)

abbrev pub value_or : {V : Type 0} → V → Option V → V
value_or d none = d
value_or d (some c) = c

by_order :
    {V : Type 0} (w : Ordering) (d c : V) (o : Option V) (P : V → Type 0)
    → P d
    → (o ≡ some c → P c)
    → elim w [ eq ↦ some d | _ ↦ o ] ≡ some c
    → P c
by_order lt d c o P here later there = later there
by_order gt d c o P here later there = later there
by_order eq d c o P here later there = subst P (ap (value_or d) there) here

found_tree :
    {V : Type 0} (k j : RawKey) (d c : V) (o : Option V) (P : V → Type 0)
    → P d
    → (o ≡ some c → P c)
    → elim (cmp_bytes k j) [ eq ↦ some d | _ ↦ o ] ≡ some c
    → P c
found_tree k j d c o P here later there = by_order (cmp_bytes k j) d c o P here later there

pub IsTree-at :
    (n : ℕ) (hdr : Mapx RawKey (Node n)) (k : RawKey) (c : Node n)
    → All (λ e. IsTree n e.1) hdr
    → Mapx.get hdr k ≡ some c
    → IsTree n c
unfolding Mapx.get
IsTree-at n [] k c trees there = ground arith
IsTree-at n ((j, d) ∷ hdr) k c trees there =
    found_tree k j d c (Mapx.get hdr k) (λ x. IsTree n x) trees.0
      (λ h. IsTree-at n hdr k c trees.1 h) there

module _ {S : Type 0} where
  for_each-block :
      (n : ℕ) (k : RawKey) (p path : RawKeys) (op : RawKeys → RawValue → Exec S Unit)
      (o : Option (Node n)) (walked : Option (Node n) → Exec S Unit) (s : S)
      → walked none s ≡ pure tt s
      → ((c : Node n)
          → o ≡ some c
          → walked (some c) s
            ≡ for_each (with_prefix p (entries n c)) (at_path (path ++ (k ∷ [])) op) s)
      → walked o s ≡ for_each (block_at n k p o) (at_path path op) s
  for_each-block n k p path op none walked s nothing down = nothing
  for_each-block n k p path op (some c) walked s nothing down =
      down c refl ∙ sym (for_each-under k path op (with_prefix p (entries n c)) s)

  pub walk_prefix-entries :
      (n : ℕ) (hdr : Node (suc n)) (path p : RawKeys) (op : RawKeys → RawValue → Exec S Unit)
      (s : S)
      → IsTree (suc n) hdr
      → length p ≤ suc n
      → walk_prefix (suc n) hdr path p op s
        ≡ for_each (with_prefix p (entries (suc n) hdr)) (at_path path op) s
  unfolding walk_prefix entries
  walk_prefix-entries n hdr path [] op s tree le =
      recursive_walk-entries n hdr path op s
      ∙ ap (λ es. for_each es (at_path path op) s) (sym (with_prefix-empty (entries (suc n) hdr)))
  walk_prefix-entries zero hdr path (k ∷ []) op s tree le =
      for_each-block zero k [] path op (Mapx.get hdr k)
        (λ o. elim o [ none ↦ pure tt | some v ↦ op (path ++ (k ∷ [])) v ]) s refl
        (λ v there. ground (arith, append-nil (path ++ (k ∷ []))))
      ∙ ap (λ es. for_each es (at_path path op) s) (sym (with_prefix-blocks zero hdr k [] tree.0))
  walk_prefix-entries zero hdr path (k ∷ j ∷ p) op s tree le = absurd (omega arith)
  walk_prefix-entries (suc n) hdr path (k ∷ p) op s tree le =
      for_each-block (suc n) k p path op (Mapx.get hdr k)
        (λ o. elim o [ none ↦ pure tt | some h ↦ walk_prefix (suc n) h (path ++ (k ∷ [])) p op ]) s
        refl
        (λ c there.
          walk_prefix-entries n c (path ++ (k ∷ [])) p op s (IsTree-at (suc n) hdr k c tree.1 there)
            (omega arith))
      ∙ ap (λ es. for_each es (at_path path op) s) (sym (with_prefix-blocks (suc n) hdr k p tree.0))

-- What a whole key finds among the entries is what the reads find.
get-cat :
    (xs ys : Entries) (key : RawKeys)
    → Mapx.get (xs ++ ys) key ≡ or_else (Mapx.get xs key) (Mapx.get ys key)
unfolding Mapx.get
get-cat [] ys key = refl
get-cat (e ∷ xs) ys key = ground (arith, get-cat xs ys key)

get-under :
    (j k : RawKey) (key : RawKeys) (es : Entries)
    → Mapx.get (under j es) (k ∷ key) ≡ elim (cmp_bytes k j) [ eq ↦ Mapx.get es key | _ ↦ none ]
unfolding Mapx.get
get-under j k key [] = ground arith
get-under j k key (e ∷ es) = ground (arith, get-under j k key es)

first_block :
    {V : Type 0} (k j : RawKey) (o : Option V) (f : V → Option RawValue) (c : V)
    → (k ≡ j → o ≡ none)
    → or_else (elim (cmp_bytes k j) [ eq ↦ f c | _ ↦ none ]) (o >>=? f)
      ≡ (elim (cmp_bytes k j) [ eq ↦ some c | _ ↦ o ] >>=? f)
first_block k j o f c last = ground (arith, last, eq_of_cmp_bytes k j)

then_ext :
    {V : Type 0} (o : Option V) (f g : V → Option RawValue)
    → ((c : V) → o ≡ some c → f c ≡ g c)
    → (o >>=? f) ≡ (o >>=? g)
then_ext none f g h = refl
then_ext (some c) f g h = h c refl

get-blocks :
    (n : ℕ) (hdr : Mapx RawKey (Node n)) (k : RawKey) (key : RawKeys)
    → IsAscending hdr
    → Mapx.get (blocks n hdr) (k ∷ key) ≡ (Mapx.get hdr k >>=? λ c. Mapx.get (entries n c) key)
unfolding Mapx.get
get-blocks n [] k key asc = refl
get-blocks n ((j, c) ∷ hdr) k key asc =
    get-cat (under j (entries n c)) (blocks n hdr) (k ∷ key)
    ∙ ap (λ o. or_else o (Mapx.get (blocks n hdr) (k ∷ key))) (get-under j k key (entries n c))
    ∙ ap (or_else (elim (cmp_bytes k j) [ eq ↦ Mapx.get (entries n c) key | _ ↦ none ]))
        (get-blocks n hdr k key asc.1)
    ∙ first_block k j (Mapx.get hdr k) (λ c. Mapx.get (entries n c) key) c
        (λ e. get-IsOver hdr k (rw e asc.0) asc.1)

pub get-entries :
    (n : ℕ) (hdr : Node n) (key : RawKeys)
    → IsTree n hdr
    → length key ≡ n
    → Mapx.get (entries n hdr) key ≡ get_from n hdr key
unfolding entries get_from Mapx.get
get-entries zero v [] tree h = refl
get-entries zero v (k ∷ key) tree h = absurd (omega arith)
get-entries (suc n) hdr [] tree h = absurd (omega arith)
get-entries (suc n) hdr (k ∷ key) tree h =
    get-blocks n hdr k key tree.0
    ∙ then_ext (Mapx.get hdr k) _ _
        (λ c there. get-entries n c key (IsTree-at n hdr k c tree.1 there) (omega arith))
