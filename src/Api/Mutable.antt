-- ===== src/Api/Mutable.antt =====
-- core/src/versioned/mapx_raw/mod.rs: `ValueMut`, `Entry` and the values of a mutable iterator.
-- The borrow of a `ValueMut` ends with its drop, which writes the value back.
use vsdb.Prelude.{Option, none, some, if◌then◌else◌}
use vsdb.Common.{RawKey, RawValue}
use vsdb.Exec.{Result, ok, err, panicked, Exec, pure, require, gets, ◌>>=◌, ◌>>◌}
use vsdb.Backend.{MapxRawVs}
use vsdb.Backend.Data
use vsdb.Backend.Iter
use vsdb.Backend.Iter.{MapxRawVsIter}
use vsdb.Api.{contains_key}

pub record ValueMut : Type 0 where
  pub key : RawKey
  pub value : RawValue

abbrev value_mut : RawKey → Option RawValue → Option ValueMut
value_mut key none = none
value_mut key (some v) = some (record { key = key; value = v })

unfoldable pub get_mut : RawKey → Exec MapxRawVs (Option ValueMut)
get_mut key = gets (λ s. value_mut key (Data.get s key))

-- `pnk!(e)`: the value of `e`; any error of `e` panics.
abbrev pnk_result : {A : Type 0} → Result A × MapxRawVs → Result A × MapxRawVs
pnk_result (ok a, s) = (ok a, s)
pnk_result (err e, s) = (err panicked, s)

abbrev pub pnk : {A : Type 0} → Exec MapxRawVs A → Exec MapxRawVs A
pnk m s = pnk_result (m s)

-- `drop` of a `ValueMut`, and of a `ValueIterMut`
unfoldable pub drop : ValueMut → Exec MapxRawVs Unit
drop v = do pnk (Data.insert v.key v.value); pure tt

-- `or_insert` of the entry of a key
unfoldable pub or_insert : RawKey → RawValue → Exec MapxRawVs ValueMut
unfolding contains_key get_mut
or_insert key default = do
  known ← gets (λ s. contains_key s key)
  if known then pure none else pnk (Data.insert key default)
  found ← get_mut key
  require found panicked

-- A borrow for the update `f` of the value, and its end.
unfoldable pub update : RawKey → (RawValue → RawValue) → Exec MapxRawVs (Option RawValue)
unfolding get_mut drop
update key f = do
  found ← get_mut key
  elim found [
    | none ↦ pure none
    | some v ↦ do drop (record v { value = f v.value }); pure (some v.value)
  ]

-- `next` of a mutable iterator: the item of the iterator as a value to write to.
unfoldable pub next : MapxRawVsIter → Option ValueMut × MapxRawVsIter
next it =
    let (e, it') = Iter.next it in
    (elim e [ none ↦ none | some (k, v) ↦ some (record { key = k; value = v }) ], it')

unfoldable pub next_back : MapxRawVsIter → Option ValueMut × MapxRawVsIter
next_back it =
    let (e, it') = Iter.next_back it in
    (elim e [ none ↦ none | some (k, v) ↦ some (record { key = k; value = v }) ], it')
