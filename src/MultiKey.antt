-- ===== src/MultiKey.antt =====
-- wrappers/src/basic_multi_key/mapx_raw/mod.rs: maps with keys of several parts, as nested maps:
-- a map of the first part gives a map of the second, and so on; the last one gives the value. A
-- nested map is stored by value where the source stores its prefix.
pub mod Keys
pub mod Laws
pub mod Walk
pub mod Prefix
pub mod Trees
pub mod Visits
use vsdb.Prelude.{
  Bool, true, false, ℕ, zero, suc, ◌<◌, Option, none, some, List, [], ◌∷◌, ◌++◌, length, ltb, ◌==◌,
  not, is_some, if◌then◌else◌, ◌>>=?◌,
}
use vsdb.Common.{RawKey, RawValue}
use vsdb.Exec.{
  Result, ok, err, Exec, pure, raise, gets, modify, require, for_each, panicked, missing,
  incorrect_key_size, invalid_key_size, ◌>>=◌, ◌>>◌,
}
use vsdb.Mapx
use vsdb.Mapx.{Mapx, bytes_ord}
use vsdb.MultiKey.Keys.{RawKeys}

-- The maps that have a number of parts of the key left.
abbrev pub Node : ℕ → Type 0
Node zero = RawValue
Node (suc n) = Mapx RawKey (Node n)

pub record MapxRawMk : Type 0 where
  pub key_size : ℕ
  pub inner : Node key_size

abbrev pub empty_node : (n : ℕ) → Node n
empty_node zero = []
empty_node (suc n) = []

unfoldable pub new : ℕ → Result MapxRawMk
new key_size =
    if ltb 0 key_size
    then ok (record { key_size = key_size; inner = empty_node key_size })
    else err panicked

-- The loop of `get`.
unfoldable pub get_from : (n : ℕ) → Node n → RawKeys → Option RawValue
get_from zero v key = some v
get_from (suc n) hdr [] = none
get_from (suc n) hdr (k ∷ key) = Mapx.get hdr k >>=? λ h. get_from n h key

unfoldable pub get : MapxRawMk → RawKeys → Option RawValue
unfolding get_from
get m key = if length key == m.key_size then get_from m.key_size m.inner key else none

unfoldable pub contains_key : MapxRawMk → RawKeys → Bool
unfolding get
contains_key m key = is_some (get m key)

-- `or_insert_with` of a new map
abbrev pub or_new : (n : ℕ) → Option (Node n) → Node n
or_new n none = empty_node n
or_new n (some h) = h

-- The loop of `insert`: the value that was there, and the maps after it.
unfoldable pub insert_into : (n : ℕ) → RawKeys → RawValue → Node n → Option RawValue × Node n
insert_into zero key value hdr = (none, hdr)
insert_into (suc n) [] value hdr = (none, hdr)
insert_into (suc zero) (k ∷ key) value hdr = (Mapx.get hdr k, Mapx.insert hdr k value)
insert_into (suc (suc n)) (k ∷ key) value hdr =
    let (ret, h) = insert_into (suc n) key value (or_new (suc n) (Mapx.get hdr k)) in
    (ret, Mapx.insert hdr k h)

-- The map after a loop, and its `Ok(ret)`.
abbrev pub stored :
    (m : MapxRawMk) → Option RawValue × Node m.key_size → Result (Option RawValue) × MapxRawMk
stored m done = (ok done.0, record { key_size = m.key_size; inner = done.1 })

unfoldable pub insert : RawKeys → RawValue → Exec MapxRawMk (Option RawValue)
unfolding insert_into
insert key value m =
    if length key == m.key_size
    then stored m (insert_into m.key_size key value m.inner)
    else (err incorrect_key_size, m)

-- `remove` returns a value only from the last level.
abbrev pub removed_value : (n : ℕ) → Node n → Option RawValue
removed_value zero v = some v
removed_value (suc n) hdr = none

-- The loop of `remove`.
unfoldable pub remove_from : (n : ℕ) → RawKeys → Node n → Option RawValue × Node n
remove_from zero key v = (none, v)
remove_from (suc n) [] hdr = (none, hdr)
remove_from (suc n) (k ∷ []) hdr = elim (Mapx.get hdr k) [
  | none ↦ (none, hdr)
  | some h ↦ (removed_value n h, Mapx.remove hdr k)
]
remove_from (suc n) (k ∷ j ∷ key) hdr = elim (Mapx.get hdr k) [
  | none ↦ (none, hdr)
  | some h ↦ let (ret, rest) = remove_from n (j ∷ key) h in (ret, Mapx.insert hdr k rest)
]

unfoldable pub remove : RawKeys → Exec MapxRawMk (Option RawValue)
unfolding remove_from
remove key m =
    if ltb m.key_size (length key)
    then (err incorrect_key_size, m)
    else stored m (remove_from m.key_size key m.inner)

unfoldable pub clear : Exec MapxRawMk Unit
clear = modify (λ m. record { key_size = m.key_size; inner = empty_node m.key_size })

abbrev no_entry : (n : ℕ) → Node n → Bool
no_entry zero v = true
no_entry (suc n) [] = true
no_entry (suc n) (e ∷ hdr) = false

unfoldable pub is_empty : MapxRawMk → Bool
is_empty m = no_entry m.key_size m.inner

-- `Entry::or_insert`: the value that a mutable reference starts with.
unfoldable pub or_insert : RawKeys → RawValue → Exec MapxRawMk RawValue
unfolding contains_key insert get
or_insert key default = do
  there ← gets (λ m. contains_key m key)
  if there then pure none else insert key default
  found ← gets (λ m. get m key)
  require found missing

module _ {S : Type 0} where
  -- `recursive_walk`; the path is the part of `key_buf` that is filled.
  unfoldable pub recursive_walk :
      (n : ℕ) → Node n → RawKeys → (RawKeys → RawValue → Exec S Unit) → Exec S Unit
  recursive_walk zero v path op = pure tt
  recursive_walk (suc zero) hdr path op = for_each hdr (λ e. op (path ++ (e.0 ∷ [])) e.1)
  recursive_walk (suc (suc n)) hdr path op =
      for_each hdr (λ e. recursive_walk (suc n) e.1 (path ++ (e.0 ∷ [])) op)

  -- The loop over the parts of the prefix, and the walk from where it ends.
  unfoldable pub walk_prefix :
      (n : ℕ) → Node n → RawKeys → RawKeys → (RawKeys → RawValue → Exec S Unit) → Exec S Unit
  unfolding recursive_walk
  walk_prefix n hdr path [] op = recursive_walk n hdr path op
  walk_prefix zero v path (k ∷ key) op = pure tt
  walk_prefix (suc zero) hdr path (k ∷ key) op = elim (Mapx.get hdr k) [
    | none ↦ pure tt
    | some v ↦ op (path ++ (k ∷ [])) v
  ]
  walk_prefix (suc (suc n)) hdr path (k ∷ key) op = elim (Mapx.get hdr k) [
    | none ↦ pure tt
    | some h ↦ walk_prefix (suc n) h (path ++ (k ∷ [])) key op
  ]

  unfoldable pub iter_op_with_key_prefix :
      MapxRawMk → (RawKeys → RawValue → Exec S Unit) → RawKeys → Exec S Unit
  unfolding walk_prefix
  iter_op_with_key_prefix m op key_prefix =
      if ltb m.key_size (length key_prefix)
      then raise invalid_key_size
      else walk_prefix m.key_size m.inner [] key_prefix op

  unfoldable pub iter_op : MapxRawMk → (RawKeys → RawValue → Exec S Unit) → Exec S Unit
  unfolding iter_op_with_key_prefix
  iter_op m op = iter_op_with_key_prefix m op []
