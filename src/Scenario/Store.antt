-- ===== src/Scenario/Store.antt =====
-- A database in memory: what the engine relies on can hold.
use mathlib.Core.List.{reverse}
use vsdb.Prelude.{
  ℕ, ◌≡◌, refl, Bool, true, false, some, [], take, filter, ◌&&◌, ◌==◌, if◌then◌else◌, arith,
}
use vsdb.Common.{RawBytes}
use vsdb.Mapx
use vsdb.Mapx.{Mapx, bytes_ord, cmp_bytes, eq_of_cmp_bytes}
use vsdb.Mapx.Laws.{get-insert}
use vsdb.Mapx.Ascending.{IsAscending, insert-IsAscending, remove-IsAscending}
use vsdb.Engine.{RocksDb, is_prefix, at_least, at_most, within, prefix_size, same_bytes}

pub record Store : Type 0 where
  pub default_family : Mapx RawBytes RawBytes
  pub families : ℕ → Mapx RawBytes RawBytes
  pub ascending : (cf : ℕ) → IsAscending (families cf)

abbrev pub update :
    (ℕ → Mapx RawBytes RawBytes) → ℕ → Mapx RawBytes RawBytes → ℕ → Mapx RawBytes RawBytes
update f cf m cf' = if cf' == cf then m else f cf'

pub update-IsAscending :
    (f : ℕ → Mapx RawBytes RawBytes) (cf : ℕ) (m : Mapx RawBytes RawBytes)
    → ((cf' : ℕ) → IsAscending (f cf'))
    → IsAscending m
    → (cf' : ℕ) → IsAscending (update f cf m cf')
update-IsAscending f cf m h k cf' = if_asc (cf' == cf) m (f cf') k (h cf')
  where
    if_asc :
        (b : Bool) (x y : Mapx RawBytes RawBytes)
        → IsAscending x
        → IsAscending y
        → IsAscending (if b then x else y)
    if_asc true x y hx hy = hx
    if_asc false x y hx hy = hy

abbrev pub store_put_cf : Store → ℕ → RawBytes → RawBytes → Store
store_put_cf s cf k v = record s {
  families = update s.families cf (Mapx.insert (s.families cf) k v);
  ascending =
      update-IsAscending s.families cf _ s.ascending
        (insert-IsAscending (s.families cf) k v (s.ascending cf));
}

abbrev pub store_delete_cf : Store → ℕ → RawBytes → Store
store_delete_cf s cf k = record s {
  families = update s.families cf (Mapx.remove (s.families cf) k);
  ascending =
      update-IsAscending s.families cf _ s.ascending
        (remove-IsAscending (s.families cf) k (s.ascending cf));
}

pub put_law_of :
    (m : Mapx RawBytes RawBytes) (k v j : RawBytes)
    → Mapx.get (Mapx.insert m k v) j ≡ (if same_bytes j k then some v else Mapx.get m j)
put_law_of m k v j = ground (arith, get-insert m k v j)

pub family_law :
    (f : ℕ → Mapx RawBytes RawBytes) (cf cf' : ℕ)
    (g : Mapx RawBytes RawBytes → Mapx RawBytes RawBytes)
    → update f cf (g (f cf)) cf' ≡ (if cf' == cf then g (f cf') else f cf')
family_law f cf cf' g = ground arith

abbrev pub store_db : RocksDb Store
store_db = record {
  get = λ s k. Mapx.get s.default_family k;
  put = λ s k v. record s { default_family = Mapx.insert s.default_family k v };
  get_cf = λ s cf k. Mapx.get (s.families cf) k;
  put_cf = store_put_cf;
  delete_cf = store_delete_cf;
  forward = λ s cf opt start.
      filter (λ e. is_prefix (take prefix_size start) e.0 && (at_least start e.0 && within opt e.0))
        (s.families cf);
  backward = λ s cf opt start. reverse (
      filter (λ e. is_prefix (take prefix_size start) e.0 && (at_most start e.0 && within opt e.0))
        (s.families cf));
  entries = λ s cf. s.families cf;
  entries_asc = λ s. s.ascending;
  get_cf_law = λ s cf k. refl;
  put_cf_law = λ s cf k v cf'. family_law s.families cf cf' (λ m. Mapx.insert m k v);
  delete_cf_law = λ s cf k cf'. family_law s.families cf cf' (λ m. Mapx.remove m k);
  put_law = λ s k v j. put_law_of s.default_family k v j;
  put_entries = λ s k v cf. refl;
  put_cf_get = λ s cf k v j. refl;
  delete_cf_get = λ s cf k j. refl;
  forward_law = λ s cf opt start. refl;
  backward_law = λ s cf opt start. refl;
}

abbrev pub no_store : Store
no_store = record { default_family = []; families = λ cf. []; ascending = λ cf. tt }
