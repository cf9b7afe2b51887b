-- ===== src/Scenario/Instances.antt =====
-- A run of the engine in memory: an instance with an entry, and its copy.
use vsdb.Prelude.{◌+◌, ◌<◌, ◌≡◌, ◌≢◌, refl, sym, ap, ◌∙◌, some, [], ◌∷◌, length, arith}
use vsdb.Common.{RawKey, RawValue, alloc_ver_id, new_allocator, u64_mod, reserved_id_cnt}
use vsdb.Exec.{ok}
use vsdb.Mapx
use vsdb.Mapx.{Mapx, Bound, included, excluded, unbounded, bytes_ord}
use vsdb.Ende.Bytes.{to_be_bytes, from_be_bytes, from_be_bytes-to_be_bytes, length-to_be_bytes}
use vsdb.Engine.{
  RocksEngine, PreBytes, meta_key_prefix_allocator, meta_key_branch_id, meta_key_version_id,
  engine_alloc_ver_id, range_next,
}
use vsdb.Engine.Strip.{strip}
use vsdb.Engine.Content.{content, IsInstance}
use vsdb.Engine.Insert.{insert-content, insert-content_other}
use vsdb.Engine.Remove.{remove-content}
use vsdb.Engine.Range.{range_next-content}
use vsdb.Engine.Create.{IsAllocator, engine_alloc_ver_id-refines, new-content}
use vsdb.Engine.Clone.{clone-content}
use vsdb.Engine.Instance
use vsdb.Scenario.Store.{Store, store_db, no_store}

abbrev first : PreBytes
first = to_be_bytes 8 reserved_id_cnt

abbrev second : PreBytes
second = to_be_bytes 8 (reserved_id_cnt + 1)

-- A new engine, with its counters.
abbrev started : RocksEngine Store
started = record {
  meta = record no_store {
    default_family =
        (meta_key_prefix_allocator, first)
        ∷ (meta_key_version_id, to_be_bytes 8 0)
        ∷ (meta_key_branch_id, to_be_bytes 8 1)
        ∷ [];
  };
  max_keylen = 0;
}

started-IsAllocator : IsAllocator store_db started new_allocator
unfolding Mapx.get
started-IsAllocator = record {
  br_id_kept = refl;
  ver_id_kept = refl;
  br_id_small = omega arith;
  ver_id_small = omega arith;
}

engine_alloc_ver_id-refines_example :
    ((engine_alloc_ver_id store_db started).0 ≡ ok (alloc_ver_id new_allocator).0)
    × IsAllocator store_db (engine_alloc_ver_id store_db started).1 (alloc_ver_id new_allocator).1
engine_alloc_ver_id-refines_example =
    engine_alloc_ver_id-refines store_db started new_allocator started-IsAllocator

first_next : store_db.get started.meta meta_key_prefix_allocator ≡ some first
unfolding Mapx.get
first_next = refl

first_fresh : content store_db started first ≡ []
unfolding content strip
first_fresh = refl

abbrev created : RocksEngine Store
created = (Instance.new store_db started).1

created-IsInstance : IsInstance store_db created first
created-IsInstance =
    (new-content store_db started reserved_id_cnt first_next (omega arith) first_fresh).2

created_empty : content store_db created first ≡ []
created_empty =
    (new-content store_db started reserved_id_cnt first_next (omega arith) first_fresh).1

created_room : length (content store_db created first) + 1 < u64_mod
created_room = omega (arith, ap length created_empty)

abbrev key : RawKey
key = b'k' ∷ []

insert-content_example :
    ((Instance.insert store_db first key (7 ∷ []) created).0
      ≡ ok (Mapx.get (content store_db created first) key))
    × (content store_db (Instance.insert store_db first key (7 ∷ []) created).1 first
        ≡ Mapx.insert (content store_db created first) key (7 ∷ []))
    × IsInstance store_db (Instance.insert store_db first key (7 ∷ []) created).1 first
insert-content_example =
    insert-content store_db created first key (7 ∷ []) created-IsInstance created_room

abbrev filled : RocksEngine Store
filled = (Instance.insert store_db first key (7 ∷ []) created).1

filled-IsInstance : IsInstance store_db filled first
filled-IsInstance =
    (insert-content store_db created first key (7 ∷ []) created-IsInstance created_room).2

remove-content_example :
    ((Instance.remove store_db first key filled).0
      ≡ ok (Mapx.get (content store_db filled first) key))
    × (content store_db (Instance.remove store_db first key filled).1 first
        ≡ Mapx.remove (content store_db filled first) key)
    × IsInstance store_db (Instance.remove store_db first key filled).1 first
remove-content_example = remove-content store_db filled first key filled-IsInstance

range_next-content_example :
    range_next store_db filled first (excluded []) (included key)
    ≡ Mapx.range (content store_db filled first) (excluded []) (included key)
range_next-content_example =
    range_next-content store_db filled first (excluded []) (included key)
      (length-to_be_bytes 8 reserved_id_cnt)

second_next : store_db.get filled.meta meta_key_prefix_allocator ≡ some second
unfolding Instance.new Instance.insert to_be_bytes from_be_bytes Mapx.get Mapx.insert
second_next = refl

second_fresh : content store_db filled second ≡ []
unfolding Instance.new Instance.insert to_be_bytes from_be_bytes Mapx.get Mapx.insert content strip
second_fresh = refl

second_differs : second ≢ first
second_differs same =
    let number : reserved_id_cnt + 1 ≡ reserved_id_cnt =
      sym (from_be_bytes-to_be_bytes 8 (reserved_id_cnt + 1) (omega arith))
      ∙ ap from_be_bytes same
      ∙ from_be_bytes-to_be_bytes 8 reserved_id_cnt (omega arith) in
    omega (arith, number)

clone-content_example :
    (t : RocksEngine Store) × (Instance.clone store_db first filled
      ≡ (ok (to_be_bytes 8 (reserved_id_cnt + 1)), t))
    × (content store_db t (to_be_bytes 8 (reserved_id_cnt + 1)) ≡ content store_db filled first)
    × IsInstance store_db t (to_be_bytes 8 (reserved_id_cnt + 1))
    × (content store_db t first ≡ content store_db filled first)
    × IsInstance store_db t first
clone-content_example =
    clone-content store_db filled first (reserved_id_cnt + 1) filled-IsInstance second_next
      (omega arith) second_fresh second_differs

copied :
    (t : RocksEngine Store) × (content store_db t second ≡ content store_db filled first)
    × IsInstance store_db t second
    × IsInstance store_db t first
copied =
    let (t, run, same, is, kept, is') =
      clone-content store_db filled first (reserved_id_cnt + 1) filled-IsInstance second_next
        (omega arith) second_fresh second_differs in
    (t, same, is, is')

now_filled : content store_db filled first ≡ Mapx.insert [] key (7 ∷ [])
now_filled =
    (insert-content store_db created first key (7 ∷ []) created-IsInstance created_room).1
    ∙ ap (λ (m : Mapx RawKey RawValue). Mapx.insert m key (7 ∷ [])) created_empty

one_entry : length (Mapx.insert {K = RawKey} {V = RawValue} [] key (7 ∷ [])) ≡ 1
unfolding Mapx.insert
one_entry = refl

copied_room : length (content store_db copied.0 second) + 1 < u64_mod
copied_room = omega (arith, ap length (copied.1 ∙ now_filled), one_entry)

insert-content_other_example :
    (content store_db (Instance.insert store_db second key (8 ∷ []) copied.0).1 first
      ≡ content store_db copied.0 first)
    × IsInstance store_db (Instance.insert store_db second key (8 ∷ []) copied.0).1 first
insert-content_other_example =
    insert-content_other store_db copied.0 second first key (8 ∷ []) copied.2 copied_room copied.3
      second_differs
