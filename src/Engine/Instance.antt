-- ===== src/Engine/Instance.antt =====
-- core/src/common/engines/mod.rs: `Mapx`, an ordered map in the engine. An instance is its prefix;
-- the engine holds its entries and its length. core/src/basic/mapx_raw/mod.rs gives the same
-- operations under the same names.
use vsdb.Prelude.{
  ℕ, Bool, true, not, ◌&&◌, Option, none, some, [], ◌∷◌, is_empty, is_some, head?, ◌==◌,
  if◌then◌else◌,
}
use vsdb.Common.{RawKey, RawValue}
use vsdb.Exec.{pure, gets, require, refuse_if, for_each, panicked, ◌>>=◌, ◌>>◌}
use vsdb.Mapx
use vsdb.Mapx.{Mapx, Bound, included, excluded, unbounded}
use vsdb.Ende.Bytes.{to_be_bytes}
use vsdb.Engine.{
  RocksDb, RocksEngine, PreBytes, Op, alloc_prefix, engine_get, engine_insert, engine_remove,
  get_instance_len, set_instance_len, increase_instance_len, decrease_instance_len, iter_next,
  iter_back, range_next, range_back, same_bytes,
}

abbrev pub same_entries : Mapx RawKey RawValue → Mapx RawKey RawValue → Bool
same_entries [] es = true
same_entries ((k, v) ∷ m) [] = true
same_entries ((k, v) ∷ m) ((ko, vo) ∷ es) =
    (same_bytes k ko && same_bytes v vo) && same_entries m es

module _ {S : Type 0} (db : RocksDb S) where
  unfoldable pub new : Op db PreBytes
  unfolding alloc_prefix iter_next set_instance_len
  new = do
    prefix ← alloc_prefix db
    let prefix_bytes = to_be_bytes 8 prefix
    found ← gets (λ s. iter_next db s prefix_bytes)
    refuse_if (not (is_empty found)) panicked
    set_instance_len db prefix_bytes 0
    pure prefix_bytes

  unfoldable pub get : RocksEngine S → PreBytes → RawKey → Option RawValue
  unfolding engine_get
  get s prefix key = engine_get db s prefix key

  unfoldable pub contains_key : RocksEngine S → PreBytes → RawKey → Bool
  unfolding get
  contains_key s prefix key = is_some (get s prefix key)

  unfoldable pub len : PreBytes → Op db ℕ
  unfolding get_instance_len
  len prefix = get_instance_len db prefix

  unfoldable pub is_empty_map : PreBytes → Op db Bool
  unfolding len
  is_empty_map prefix = do l ← len prefix; pure (l == 0)

  unfoldable pub insert : PreBytes → RawKey → RawValue → Op db (Option RawValue)
  unfolding engine_insert increase_instance_len
  insert prefix key value = do
    ret ← engine_insert db prefix key value
    if not (is_some ret) then increase_instance_len db prefix else pure tt
    pure ret

  unfoldable pub remove : PreBytes → RawKey → Op db (Option RawValue)
  unfolding engine_remove decrease_instance_len
  remove prefix key = do
    ret ← engine_remove db prefix key
    if is_some ret then decrease_instance_len db prefix else pure tt
    pure ret

  abbrev pub remove_entry : PreBytes → RawKey → Op db Unit
  remove_entry prefix key = do engine_remove db prefix key; pure tt

  -- The iterator reads a snapshot, which the removals do not change.
  unfoldable pub clear : PreBytes → Op db Unit
  unfolding iter_next engine_remove set_instance_len
  clear prefix = do
    found ← gets (λ s. iter_next db s prefix)
    for_each (Mapx.keys found) (remove_entry prefix)
    set_instance_len db prefix 0

  abbrev pub copy_entry : PreBytes → RawKey × RawValue → Op db Unit
  copy_entry prefix e = do insert prefix e.0 e.1; pure tt

  unfoldable pub clone : PreBytes → Op db PreBytes
  unfolding new iter_next insert
  clone prefix = do
    new_instance ← new
    found ← gets (λ s. iter_next db s prefix)
    for_each found (copy_entry new_instance)
    pure new_instance

  -- `PartialEq`: the lengths, then the entries in pairs.
  unfoldable pub equal : PreBytes → PreBytes → Op db Bool
  unfolding len iter_next
  equal prefix other = do
    l ← len prefix
    lo ← len other
    es ← gets (λ s. iter_next db s prefix)
    eso ← gets (λ s. iter_next db s other)
    pure (l == lo && same_entries es eso)

  -- A `ValueMut` holds the key and a copy of the value; its `drop` writes the value back.
  unfoldable pub get_mut : RocksEngine S → PreBytes → RawKey → Option (RawKey × RawValue)
  unfolding get
  get_mut s prefix key = elim (get s prefix key) [ none ↦ none | some v ↦ some (key, v) ]

  unfoldable pub drop_value_mut : PreBytes → RawKey × RawValue → Op db Unit
  unfolding insert
  drop_value_mut prefix e = do insert prefix e.0 e.1; pure tt

  unfoldable pub get_le : RocksEngine S → PreBytes → RawKey → Option (RawKey × RawValue)
  unfolding range_back
  get_le s prefix key = head? (range_back db s prefix unbounded (included key))

  unfoldable pub get_ge : RocksEngine S → PreBytes → RawKey → Option (RawKey × RawValue)
  unfolding range_next
  get_ge s prefix key = head? (range_next db s prefix (included key) unbounded)

  unfoldable pub last : RocksEngine S → PreBytes → Option (RawKey × RawValue)
  unfolding iter_back
  last s prefix = head? (iter_back db s prefix)

  -- `entry(key).or_insert(default)`, with the `ValueMut` that it gives.
  unfoldable pub or_insert : PreBytes → RawKey → RawValue → Op db (RawKey × RawValue)
  unfolding contains_key insert get_mut
  or_insert prefix key default = do
    known ← gets (λ s. contains_key s prefix key)
    if not known then (do insert prefix key default; pure tt) else pure tt
    found ← gets (λ s. get_mut s prefix key)
    require found panicked
