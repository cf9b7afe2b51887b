-- ===== src/Vecx.antt =====
-- wrappers/src/basic/vecx_raw/mod.rs: a vector of raw values, and what it uses of
-- wrappers/src/basic/mapx_ord_rawvalue/mod.rs, an ordered map with encoded keys. The state is the
-- ordered map of one instance, which the engine keeps with its length. An iterator reads the map of
-- the time when it was made, as the iterators of the database do, so a loop takes its items first.
pub mod Entries
pub mod Steps
pub mod Refines
pub mod Gap
pub mod Remove
pub mod Swap
use vsdb.Prelude.{
  ℕ, ◌+◌, ◌-◌, ◌%◌, ◌<◌, Bool, true, false, not, ◌&&◌, Option, none, some, List, [], ◌∷◌, length,
  map, ltb, ◌==◌, if◌then◌else◌, is_empty, arith, head?,
}
use Prim.Native.Nat.{Ordering, compare}
use Prim.Native.Nat.Ordering.{lt, eq, gt}
use vsdb.Common.{RawBytes, RawKey, RawValue, u64_mod}
use vsdb.Exec.{
  Result, ok, err, Exec, pure, raise, gets, modify, require, for_each, panicked, ◌>>=◌, ◌>>◌,
}
use vsdb.Mapx
use vsdb.Mapx.{Mapx, Bound, included, excluded, unbounded, bytes_ord}
use vsdb.Ende.{KeyEnDeOrdered, FixedInt, int_key}
use vsdb.Ende.Signed.{uint}

abbrev pub RawMap : Type 0
RawMap = Mapx RawKey RawValue

-- `pnk!` of the decoded key
abbrev pub decoded : {K : Type 0} → KeyEnDeOrdered K → RawKey × RawValue → Result (K × RawValue)
decoded key e = elim (key.from_bytes e.0) [ ok k ↦ ok (k, e.1) | err x ↦ err panicked ]

-- `MapxOrdRawValue<K>`
module _ {K : Type 0} (key : KeyEnDeOrdered K) where
  unfoldable pub map_get : RawMap → K → Option RawValue
  map_get m k = Mapx.get m (key.to_bytes k)

  unfoldable pub map_insert : K → RawValue → Exec RawMap (Option RawValue)
  map_insert k v = do
    old ← gets (λ m. Mapx.get m (key.to_bytes k))
    modify (λ m. Mapx.insert m (key.to_bytes k) v)
    pure old

  unfoldable pub map_remove : K → Exec RawMap (Option RawValue)
  map_remove k = do
    old ← gets (λ m. Mapx.get m (key.to_bytes k))
    modify (λ m. Mapx.remove m (key.to_bytes k))
    pure old

  abbrev pub encoded_bound : Bound K → Bound RawKey
  encoded_bound (included lo) = included (key.to_bytes lo)
  encoded_bound (excluded lo) = excluded (key.to_bytes lo)
  encoded_bound unbounded = unbounded

  -- The items that the iterator of a range yields, before their keys are decoded.
  unfoldable pub map_range : RawMap → Bound K → Bound K → RawMap
  map_range m l h = Mapx.range m (encoded_bound l) (encoded_bound h)

pub one_of_8 : 0 < 8
one_of_8 = omega arith

-- The indices, as keys.
abbrev pub index_key : KeyEnDeOrdered ℕ
unfolding int_key
index_key = int_key (uint 8 one_of_8)

unfoldable pub get : RawMap → ℕ → Option RawValue
unfolding map_get
get v idx = map_get index_key v idx

abbrev pub len : RawMap → ℕ
len v = length v

abbrev pub unwrapped : Option RawValue → Result (Option RawValue)
unwrapped none = err panicked
unwrapped (some x) = ok (some x)

unfoldable pub last : RawMap → Result (Option RawValue)
unfolding map_get
last v = if len v == 0 then ok none else unwrapped (map_get index_key v (len v - 1))

unfoldable pub push : RawValue → Exec RawMap Unit
unfolding map_insert
push x = do l ← gets len; map_insert index_key l x; pure tt

-- One round of the loop in `insert`: an item of the range goes one place up.
abbrev pub shift_up : RawKey × RawValue → Exec RawMap Unit
shift_up e = do
  i ← (λ m. (decoded index_key e, m))
  map_insert index_key ((i.0 + 1) % u64_mod) i.1
  pure tt

unfoldable pub insert_below : ℕ → RawValue → Exec RawMap Unit
unfolding map_range map_insert
insert_below idx x = do
  items ← gets (λ m. map_range index_key m (included idx) (excluded (len m)))
  for_each items shift_up
  map_insert index_key idx x
  pure tt

unfoldable pub insert : ℕ → RawValue → Exec RawMap Unit
unfolding insert_below push
insert idx x = do
  l ← gets len
  elim (compare l idx) [ gt ↦ insert_below idx x | eq ↦ push x | lt ↦ raise panicked ]

unfoldable pub pop : Exec RawMap (Option RawValue)
unfolding map_remove
pop = do l ← gets len; if l == 0 then pure none else map_remove index_key (l - 1)

abbrev pub shift_down : RawKey × RawValue → Exec RawMap Unit
shift_down e = do i ← (λ m. (decoded index_key e, m)); map_insert index_key (i.0 - 1) i.1; pure tt

unfoldable pub remove_below : ℕ → Exec RawMap RawValue
unfolding map_range map_remove map_insert
remove_below idx = do
  l ← gets len
  old ← map_remove index_key idx
  ret ← require old panicked
  items ← gets (λ m. map_range index_key m (included ((1 + idx) % u64_mod)) unbounded)
  for_each items shift_down
  map_remove index_key (l - 1)
  pure ret

unfoldable pub remove : ℕ → Exec RawMap RawValue
unfolding remove_below
remove idx = do l ← gets len; if not (l == 0) && ltb idx l then remove_below idx else raise panicked

abbrev pub put_back : ℕ → Option RawValue → Exec RawMap Unit
put_back idx none = pure tt
put_back idx (some x) = do map_insert index_key idx x; pure tt

unfoldable pub swap_remove_below : ℕ → Exec RawMap RawValue
unfolding map_remove map_insert
swap_remove_below idx = do
  l ← gets len
  old ← map_remove index_key idx
  ret ← require old panicked
  moved ← map_remove index_key (l - 1)
  put_back idx moved
  pure ret

unfoldable pub swap_remove : ℕ → Exec RawMap RawValue
unfolding swap_remove_below
swap_remove idx = do
  l ← gets len
  if not (l == 0) && ltb idx l then swap_remove_below idx else raise panicked

unfoldable pub update : ℕ → RawValue → Exec RawMap (Option RawValue)
unfolding map_insert
update idx x = do l ← gets len; if ltb idx l then map_insert index_key idx x else raise panicked

unfoldable pub clear : Exec RawMap Unit
clear = modify (λ m. [])

-- The items of the iterator
unfoldable pub iter : RawMap → List RawValue
iter v = map (λ e. e.1) v
