-- ===== src/Engine.antt =====
-- core/src/common/engines/mod.rs and rocks_db.rs: the engine over RocksDB. The database itself is a
-- parameter: what it does with keys and values is stated as laws. A single thread uses the engine,
-- so the locks are always free.
pub mod Instance
pub mod Strip
pub mod Content
pub mod Counter
pub mod Insert
pub mod Remove
pub mod Create
pub mod Clone
pub mod Range
use vsdb.Prelude.{
  ℕ, zero, suc, ◌+◌, ◌-◌, ◌*◌, ◌%◌, ◌≡◌, Bool, true, false, not, ◌&&◌, Option, none, some, List, [],
  ◌∷◌, ◌++◌, length, take, map, filter, ltb, ◌==◌, if◌then◌else◌, head?,
}
use mathlib.Core.List.{reverse}
use Prim.Native.Nat.Ordering.{lt, eq, gt}
use vsdb.Common.{
  RawBytes, RawKey, RawValue, BranchId, VersionId, u64_mod, initial_branch_id, reserved_id_cnt,
}
use vsdb.Exec.{Result, ok, err, Exec, pure, gets, modify, require, panicked, ◌>>=◌, ◌>>◌}
use vsdb.Mapx
use vsdb.Mapx.{Mapx, Bound, included, excluded, unbounded, bytes_ord, cmp_bytes}
use vsdb.Mapx.Ascending.{IsAscending}
use vsdb.Ende.{drop}
use vsdb.Ende.Bytes.{to_be_bytes, from_be_bytes}

-- `PreBytes`
abbrev pub PreBytes : Type 0
PreBytes = RawBytes

abbrev pub prefix_size : ℕ
prefix_size = 8

abbrev pub same_bytes : RawBytes → RawBytes → Bool
same_bytes a b = elim (cmp_bytes a b) [ eq ↦ true | _ ↦ false ]

abbrev pub is_prefix : RawBytes → RawBytes → Bool
is_prefix [] k = true
is_prefix (a ∷ p) [] = false
is_prefix (a ∷ p) (b ∷ k) = a == b && is_prefix p k

abbrev pub at_least : RawBytes → RawBytes → Bool
at_least lo k = elim (cmp_bytes k lo) [ lt ↦ false | _ ↦ true ]

abbrev pub at_most : RawBytes → RawBytes → Bool
at_most hi k = elim (cmp_bytes k hi) [ gt ↦ false | _ ↦ true ]

abbrev pub below : RawBytes → RawBytes → Bool
below hi k = elim (cmp_bytes k hi) [ lt ↦ true | _ ↦ false ]

-- `iterate_lower_bound` and `iterate_upper_bound` of `ReadOptions`
pub record ReadOptions : Type 0 where
  pub lower : Option RawBytes
  upper : Option RawBytes

abbrev no_options : ReadOptions
no_options = record { lower = none; upper = none }

abbrev pub within : ReadOptions → RawBytes → Bool
within opt k =
    elim opt.lower [ none ↦ true | some l ↦ at_least l k ]
    && elim opt.upper [ none ↦ true | some h ↦ below h k ]

-- A RocksDB database with a default column family, `get` and `put`, and numbered others. An
-- iterator is what it will yield, in its order; the prefix extractor takes `prefix_size` bytes, and
-- `prefix_same_as_start` is set.
pub record RocksDb (S : Type 0) : Type 0 where
  pub get : S → RawBytes → Option RawBytes
  pub put : S → RawBytes → RawBytes → S
  pub get_cf : S → ℕ → RawBytes → Option RawBytes
  pub put_cf : S → ℕ → RawBytes → RawBytes → S
  pub delete_cf : S → ℕ → RawBytes → S
  pub forward : S → ℕ → ReadOptions → RawBytes → Mapx RawBytes RawBytes
  pub backward : S → ℕ → ReadOptions → RawBytes → Mapx RawBytes RawBytes
  -- the content of a column family: an ordered map
  pub entries : S → ℕ → Mapx RawBytes RawBytes
  pub entries_asc : (s : S) (cf : ℕ) → IsAscending (entries s cf)
  pub get_cf_law : (s : S) (cf : ℕ) (k : RawBytes) → get_cf s cf k ≡ Mapx.get (entries s cf) k
  pub put_cf_law :
      (s : S) (cf : ℕ) (k v : RawBytes) (cf' : ℕ)
      → entries (put_cf s cf k v) cf'
        ≡ (if cf' == cf then Mapx.insert (entries s cf') k v else entries s cf')
  pub delete_cf_law :
      (s : S) (cf : ℕ) (k : RawBytes) (cf' : ℕ)
      → entries (delete_cf s cf k) cf'
        ≡ (if cf' == cf then Mapx.remove (entries s cf') k else entries s cf')
  pub put_law :
      (s : S) (k v j : RawBytes) → get (put s k v) j ≡ (if same_bytes j k then some v else get s j)
  -- the default column family and the others are apart
  pub put_entries : (s : S) (k v : RawBytes) (cf : ℕ) → entries (put s k v) cf ≡ entries s cf
  pub put_cf_get : (s : S) (cf : ℕ) (k v j : RawBytes) → get (put_cf s cf k v) j ≡ get s j
  pub delete_cf_get : (s : S) (cf : ℕ) (k j : RawBytes) → get (delete_cf s cf k) j ≡ get s j
  -- the iterators
  pub forward_law :
      (s : S) (cf : ℕ) (opt : ReadOptions) (start : RawBytes)
      → forward s cf opt start
        ≡ filter
            (λ e. is_prefix (take prefix_size start) e.0 && (at_least start e.0 && within opt e.0))
            (entries s cf)
  pub backward_law :
      (s : S) (cf : ℕ) (opt : ReadOptions) (start : RawBytes)
      → backward s cf opt start
        ≡ reverse (
            filter
              (λ e. is_prefix (take prefix_size start) e.0 && (at_most start e.0 && within opt e.0))
              (entries s cf))

-- `self.meta`, and the field `max_keylen`
pub record RocksEngine (S : Type 0) : Type 0 where
  pub meta : S
  pub max_keylen : ℕ

abbrev pub data_set_num : ℕ
data_set_num = 2

abbrev pub meta_key_max_keylen : RawBytes
meta_key_max_keylen = 255 ∷ []

abbrev pub meta_key_branch_id : RawBytes
meta_key_branch_id = 254 ∷ []

abbrev pub meta_key_version_id : RawBytes
meta_key_version_id = 253 ∷ []

abbrev pub meta_key_prefix_allocator : RawBytes
meta_key_prefix_allocator = 0 ∷ []

-- `parse_int!` of a u64, and of a usize
abbrev pub parse_int : RawBytes → Option ℕ
parse_int bytes = if length bytes == 8 then some (from_be_bytes bytes) else none

-- `Bytes::repeat`
abbrev repeat : ℕ → ℕ → RawBytes
repeat zero b = []
repeat (suc n) b = b ∷ repeat n b

abbrev pub area_idx : PreBytes → ℕ
area_idx [] = 0
area_idx (b ∷ bs) = b % data_set_num

-- The iterators cut the prefix off.
abbrev pub cut_prefix : Mapx RawBytes RawBytes → Mapx RawKey RawValue
cut_prefix m = map (λ e. (drop prefix_size e.0, e.1)) m

-- `b_lo` and `b_hi` of `range`
abbrev pub lower_bound : PreBytes → Bound RawKey → Option RawBytes
lower_bound meta_prefix (included lo) = some (meta_prefix ++ lo)
lower_bound meta_prefix (excluded lo) = some ((meta_prefix ++ lo) ++ (0 ∷ []))
lower_bound meta_prefix unbounded = none

abbrev pub upper_bound : PreBytes → Bound RawKey → Option RawBytes
upper_bound meta_prefix (included hi) = some ((meta_prefix ++ hi) ++ (0 ∷ []))
upper_bound meta_prefix (excluded hi) = some (meta_prefix ++ hi)
upper_bound meta_prefix unbounded = none

abbrev pub range_options : PreBytes → Bound RawKey → Bound RawKey → ReadOptions
range_options meta_prefix l h = record {
  lower = lower_bound meta_prefix l;
  upper = upper_bound meta_prefix h;
}

abbrev pub or_else_bytes : Option RawBytes → RawBytes → RawBytes
or_else_bytes none b = b
or_else_bytes (some a) b = a

module _ {S : Type 0} (db : RocksDb S) where
  abbrev pub Op : Type 0 → Type 0
  Op A = Exec (RocksEngine S) A

  abbrev put_meta : RawBytes → RawBytes → Op Unit
  put_meta k v = modify (λ s. record s { meta = db.put s.meta k v })

  -- `parse_int!(self.meta.get(key).unwrap().unwrap(), u64)`
  unfoldable pub read_int : RawBytes → Op ℕ
  read_int key = do
    bytes ← gets (λ s. db.get s.meta key)
    found ← require bytes panicked
    require (parse_int found) panicked

  abbrev pub init_key : RawBytes → ℕ → RocksEngine S → RocksEngine S
  init_key key n s = elim (db.get s.meta key) [
    | some v ↦ s
    | none ↦ record s { meta = db.put s.meta key (to_be_bytes 8 n) }
  ]

  -- `RocksEngine::new`
  unfoldable pub engine_new : S → Result (RocksEngine S)
  unfolding read_int
  engine_new hdr =
      let s0 : RocksEngine S = record { meta = hdr; max_keylen = 0 } in
      let s1 = init_key meta_key_max_keylen 0 s0 in
      let s2 = init_key meta_key_branch_id (1 + initial_branch_id) s1 in
      let s3 = init_key meta_key_version_id 0 s2 in
      let s4 = init_key meta_key_prefix_allocator reserved_id_cnt s3 in
      let (r, s5) = read_int meta_key_max_keylen s4 in
      elim r [ ok n ↦ ok (record s4 { max_keylen = n }) | err e ↦ err e ]

  -- Step 1 reads the counter and step 2 writes the next value.
  abbrev pub alloc : RawBytes → Op ℕ
  alloc key = do ret ← read_int key; put_meta key (to_be_bytes 8 ((1 + ret) % u64_mod)); pure ret

  unfoldable pub alloc_prefix : Op ℕ
  unfolding read_int
  alloc_prefix = alloc meta_key_prefix_allocator

  unfoldable pub engine_alloc_br_id : Op BranchId
  unfolding read_int
  engine_alloc_br_id = alloc meta_key_branch_id

  unfoldable pub engine_alloc_ver_id : Op VersionId
  unfolding read_int
  engine_alloc_ver_id = alloc meta_key_version_id

  unfoldable pub set_max_key_len : ℕ → Op Unit
  set_max_key_len len = do
    modify (λ s. record s { max_keylen = len })
    put_meta meta_key_max_keylen (to_be_bytes 8 len)

  -- The buffer of 512 bytes only saves an allocation.
  unfoldable pub get_upper_bound_value : RocksEngine S → PreBytes → RawBytes
  get_upper_bound_value s meta_prefix =
      let buf = repeat 512 255 in
      meta_prefix
      ++ (if ltb s.max_keylen 513 then take s.max_keylen buf else repeat s.max_keylen 255)

  unfoldable pub engine_get : RocksEngine S → PreBytes → RawKey → Option RawValue
  engine_get s meta_prefix key = db.get_cf s.meta (area_idx meta_prefix) (meta_prefix ++ key)

  unfoldable pub engine_insert : PreBytes → RawKey → RawValue → Op (Option RawValue)
  unfolding set_max_key_len
  engine_insert meta_prefix key value = do
    longest ← gets (λ s. s.max_keylen)
    if ltb longest (length key) then set_max_key_len (length key) else pure tt
    old_v ← gets (λ s. db.get_cf s.meta (area_idx meta_prefix) (meta_prefix ++ key))
    modify (λ s. record s {
      meta = db.put_cf s.meta (area_idx meta_prefix) (meta_prefix ++ key) value;
    })
    pure old_v

  unfoldable pub engine_remove : PreBytes → RawKey → Op (Option RawValue)
  engine_remove meta_prefix key = do
    old_v ← gets (λ s. db.get_cf s.meta (area_idx meta_prefix) (meta_prefix ++ key))
    modify
        (λ s. record s { meta = db.delete_cf s.meta (area_idx meta_prefix) (meta_prefix ++ key) })
    pure old_v

  unfoldable pub get_instance_len : PreBytes → Op ℕ
  unfolding read_int
  get_instance_len instance_prefix = read_int instance_prefix

  unfoldable pub set_instance_len : PreBytes → ℕ → Op Unit
  set_instance_len instance_prefix new_len = put_meta instance_prefix (to_be_bytes 8 new_len)

  unfoldable pub increase_instance_len : PreBytes → Op Unit
  unfolding get_instance_len set_instance_len
  increase_instance_len instance_prefix = do
    l ← get_instance_len instance_prefix
    set_instance_len instance_prefix ((l + 1) % u64_mod)

  unfoldable pub decrease_instance_len : PreBytes → Op Unit
  unfolding get_instance_len set_instance_len
  decrease_instance_len instance_prefix = do
    l ← get_instance_len instance_prefix
    set_instance_len instance_prefix ((l + (u64_mod - 1)) % u64_mod)

  -- `RocksIter`: `next` takes from the one iterator and `next_back` from the other.
  unfoldable pub iter_next : RocksEngine S → PreBytes → Mapx RawKey RawValue
  iter_next s meta_prefix =
      cut_prefix (db.forward s.meta (area_idx meta_prefix) no_options meta_prefix)

  unfoldable pub iter_back : RocksEngine S → PreBytes → Mapx RawKey RawValue
  unfolding get_upper_bound_value
  iter_back s meta_prefix =
      cut_prefix
        (db.backward s.meta (area_idx meta_prefix) no_options (get_upper_bound_value s meta_prefix))

  unfoldable pub range_next :
      RocksEngine S → PreBytes → Bound RawKey → Bound RawKey → Mapx RawKey RawValue
  range_next s meta_prefix l h = cut_prefix (
      db.forward s.meta (area_idx meta_prefix) (range_options meta_prefix l h)
        (or_else_bytes (lower_bound meta_prefix l) meta_prefix))

  unfoldable pub range_back :
      RocksEngine S → PreBytes → Bound RawKey → Bound RawKey → Mapx RawKey RawValue
  unfolding get_upper_bound_value
  range_back s meta_prefix l h = cut_prefix (
      db.backward s.meta (area_idx meta_prefix) (range_options meta_prefix l h)
        (or_else_bytes (upper_bound meta_prefix h) (get_upper_bound_value s meta_prefix)))
