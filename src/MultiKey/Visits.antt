-- ===== src/MultiKey/Visits.antt =====
-- The order of the visits of a walk, and the contract of `iter_op_with_key_prefix`.
use Prim.Native.Nat.Ordering.{lt}
use vsdb.Prelude.{
  ℕ, zero, suc, ◌≤◌, ◌<◌, ◌≡◌, ◌∙◌, Bool, true, false, none, List, [], ◌∷◌, ◌++◌, filter, length,
  arith, ltb, if◌then◌else◌,
}
use vsdb.Common.{RawKey, RawValue}
use vsdb.Exec.{Exec, for_each}
use vsdb.Mapx
use vsdb.Mapx.{Mapx, bytes_ord, cmp_bytes, cmp_bytes_refl}
use vsdb.Mapx.Ascending.{IsAscending, IsOver, IsOver-weaken}
use vsdb.MultiKey
use vsdb.MultiKey.{MapxRawMk, Node, get_from, walk_prefix, iter_op_with_key_prefix}
use vsdb.MultiKey.Keys.{RawKeys, keys_ord, cmp_keys, starts_with, eq_of_cmp_keys}
use vsdb.MultiKey.Walk.{Entries, under, entries}
use vsdb.MultiKey.Prefix.{All, IsTree, with_prefix, blocks, walk_prefix-entries, get-entries}

-- Each key comes before all that follow.
abbrev pub IsOrdered : Entries → Type 0
IsOrdered [] = Unit
IsOrdered (e ∷ es) = All (λ f. cmp_keys e.0 f.0 ≡ lt) es × IsOrdered es

module _ {A : Type 0} where
  kept :
      (P : A → Type 0) (b : Bool) (x : A) (xs : List A)
      → P x
      → All P xs
      → All P (if b then x ∷ xs else xs)
  kept P true x xs p all = (p, all)
  kept P false x xs p all = all

  All-always : (P : A → Type 0) (xs : List A) → ((x : A) → P x) → All P xs
  All-always P [] h = tt
  All-always P (x ∷ xs) h = (h x, All-always P xs h)

  All-cat : (P : A → Type 0) (xs ys : List A) → All P xs → All P ys → All P (xs ++ ys)
  All-cat P [] ys all more = more
  All-cat P (x ∷ xs) ys all more = (all.0, All-cat P xs ys all.1 more)

  All-map : (P Q : A → Type 0) (xs : List A) → ((x : A) → P x → Q x) → All P xs → All Q xs
  All-map P Q [] h all = tt
  All-map P Q (x ∷ xs) h all = (h x all.0, All-map P Q xs h all.1)

  pub All-filter : (P : A → Type 0) (p : A → Bool) (xs : List A) → All P xs → All P (filter p xs)
  All-filter P p [] all = tt
  All-filter P p (x ∷ xs) all = kept P (p x) x (filter p xs) all.0 (All-filter P p xs all.1)

cat-IsOrdered :
    (xs ys : Entries)
    → IsOrdered xs
    → IsOrdered ys
    → All (λ e. All (λ f. cmp_keys e.0 f.0 ≡ lt) ys) xs
    → IsOrdered (xs ++ ys)
cat-IsOrdered [] ys ox oy apart = oy
cat-IsOrdered (x ∷ xs) ys ox oy apart =
    (All-cat _ xs ys ox.0 apart.0, cat-IsOrdered xs ys ox.1 oy apart.1)

kept-IsOrdered :
    (b : Bool) (e : RawKeys × RawValue) (es : Entries)
    → All (λ f. cmp_keys e.0 f.0 ≡ lt) es
    → IsOrdered es
    → IsOrdered (if b then e ∷ es else es)
kept-IsOrdered true e es all o = (all, o)
kept-IsOrdered false e es all o = o

filter-IsOrdered :
    (p : RawKeys × RawValue → Bool) (es : Entries) → IsOrdered es → IsOrdered (filter p es)
filter-IsOrdered p [] o = tt
filter-IsOrdered p (e ∷ es) o =
    kept-IsOrdered (p e) e (filter p es) (All-filter _ p es o.0) (filter-IsOrdered p es o.1)

All-under :
    (P : RawKeys × RawValue → Type 0) (k : RawKey) (es : Entries)
    → All (λ e. P (k ∷ e.0, e.1)) es
    → All P (under k es)
All-under P k [] all = tt
All-under P k (e ∷ es) all = (all.0, All-under P k es all.1)

under-IsOrdered : (k : RawKey) (es : Entries) → IsOrdered es → IsOrdered (under k es)
under-IsOrdered k [] o = tt
under-IsOrdered k (e ∷ es) o = (
  All-under _ k es (
      All-map (λ f. cmp_keys e.0 f.0 ≡ lt) (λ f. cmp_keys (k ∷ e.0) (k ∷ f.0) ≡ lt) es
        (λ f h. ground (arith, h, cmp_bytes_refl k)) o.0),
  under-IsOrdered k es o.1,
)

-- All blocks of a map over a key come after that key.
blocks_after :
    (n : ℕ) (j : RawKey) (key : RawKeys) (hdr : Mapx RawKey (Node n))
    → IsOver j hdr
    → IsAscending hdr
    → All (λ f. cmp_keys (j ∷ key) f.0 ≡ lt) (blocks n hdr)
blocks_after n j key [] over asc = tt
blocks_after n j key ((k, c) ∷ hdr) over asc =
    All-cat _ (under k (entries n c)) (blocks n hdr)
      (All-under _ k (entries n c) (All-always _ (entries n c) (λ f. ground (arith, over))))
      (blocks_after n j key hdr (IsOver-weaken hdr j k over asc.0) asc.1)

blocks-IsOrdered :
    (n : ℕ) (hdr : Mapx RawKey (Node n))
    → IsAscending hdr
    → All (λ e. IsOrdered (entries n e.1)) hdr
    → IsOrdered (blocks n hdr)
blocks-IsOrdered n [] asc all = tt
blocks-IsOrdered n ((j, c) ∷ hdr) asc all =
    cat-IsOrdered (under j (entries n c)) (blocks n hdr) (under-IsOrdered j (entries n c) all.0)
      (blocks-IsOrdered n hdr asc.1 all.1)
      (All-under _ j (entries n c)
        (All-always _ (entries n c) (λ e. blocks_after n j e.0 hdr asc.0 asc.1)))

entries-IsOrdered : (n : ℕ) (hdr : Node n) → IsTree n hdr → IsOrdered (entries n hdr)
unfolding entries
entries-IsOrdered zero v tree = (tt, tt)
entries-IsOrdered (suc n) hdr tree = blocks-IsOrdered n hdr tree.0 (
    All-map (λ e. IsTree n e.1) (λ e. IsOrdered (entries n e.1)) hdr (λ e. entries-IsOrdered n e.1)
      tree.1)

-- The keys under a prefix with their values.
abbrev pub visited : MapxRawMk → RawKeys → Entries
visited m p = with_prefix p (entries m.key_size m.inner)

get-with_prefix :
    (p : RawKeys) (es : Entries) (key : RawKeys)
    → Mapx.get (with_prefix p es) key ≡ (if starts_with p key then Mapx.get es key else none)
unfolding Mapx.get
get-with_prefix p [] key = ground arith
get-with_prefix p (e ∷ es) key = ground (arith, get-with_prefix p es key, eq_of_cmp_keys key e.0)

walk_prefix_positive :
    {S : Type 0} (n : ℕ) (hdr : Node n) (p : RawKeys) (op : RawKeys → RawValue → Exec S Unit)
    (s : S)
    → 0 < n
    → IsTree n hdr
    → length p ≤ n
    → walk_prefix n hdr [] p op s ≡ for_each (with_prefix p (entries n hdr)) (λ e. op e.0 e.1) s
walk_prefix_positive zero hdr p op s pos tree le = absurd (omega arith)
walk_prefix_positive (suc n) hdr p op s pos tree le = walk_prefix-entries n hdr [] p op s tree le

not_longer :
    {S : Type 0} (n : ℕ) (p : RawKeys) (walk refused : Exec S Unit) (s : S)
    → length p ≤ n
    → (if ltb n (length p) then refused else walk) s ≡ walk s
not_longer n p walk refused s le = ground arith

-- In a map with keys of at least one part and its maps in order, iter_op_with_key_prefix with a
-- prefix of at most that many parts calls the operation on a list of entries, one after the other
-- up to the first error: on each whole key with the prefix that get finds, with the value that get
-- gives, and in the order of the keys.
pub iter_op_with_key_prefix-visits :
    {S : Type 0} (m : MapxRawMk) (op : RawKeys → RawValue → Exec S Unit) (p : RawKeys) (s : S)
    → 0 < m.key_size
    → IsTree m.key_size m.inner
    → length p ≤ m.key_size
    → (iter_op_with_key_prefix m op p s ≡ for_each (visited m p) (λ e. op e.0 e.1) s)
      × IsOrdered (visited m p)
      × ((key : RawKeys)
          → length key ≡ m.key_size
          → Mapx.get (visited m p) key ≡ (if starts_with p key then MultiKey.get m key else none))
unfolding iter_op_with_key_prefix MultiKey.get
iter_op_with_key_prefix-visits m op p s pos tree le = (
  not_longer m.key_size p _ _ s le ∙ walk_prefix_positive m.key_size m.inner p op s pos tree le,
  filter-IsOrdered (λ e. starts_with p e.0) (entries m.key_size m.inner)
      (entries-IsOrdered m.key_size m.inner tree),
  λ key h.
      get-with_prefix p (entries m.key_size m.inner) key
      ∙ ground (arith, get-entries m.key_size m.inner key tree h),
)
