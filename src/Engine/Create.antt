-- ===== src/Engine/Create.antt =====
-- The counters of the engine: identifiers of branches and versions, and prefixes of new instances.
use vsdb.Prelude.{
  ℕ, ◌+◌, ◌%◌, ◌<◌, ◌≡◌, ◌≢◌, refl, ap, ◌∙◌, true, false, not, some, [], ◌∷◌, length, arith,
  is_empty,
}
use vsdb.Common.{Allocator, alloc_br_id, alloc_ver_id, u64_mod, RawBytes, RawKey, RawValue}
use vsdb.Exec.{Exec, ok, refuse_if, panicked, pure, ◌>>◌}
use vsdb.Mapx
use vsdb.Mapx.{bytes_ord}
use vsdb.Ende.Bytes.{to_be_bytes, length-to_be_bytes}
use vsdb.Engine.{
  RocksDb, RocksEngine, PreBytes, same_bytes, alloc_prefix, engine_alloc_br_id, engine_alloc_ver_id,
  meta_key_branch_id, meta_key_version_id, meta_key_prefix_allocator, iter_next, set_instance_len,
  alloc,
}
use vsdb.Engine.Content.{content, IsInstance, read_int_lem}
use vsdb.Engine.Counter.{
  counted_as, content-counted_as, counted_as-IsInstance, counted_as_other, counted_known,
}
use vsdb.Engine.Range.{iter_next-content}
use vsdb.Engine.Instance

-- The assertion that no entry is there.
pass_empty :
    {T A : Type 0} (es : Mapx.Mapx RawKey RawValue) (m : Exec T A) (w : T)
    → es ≡ []
    → (refuse_if (not (is_empty es)) panicked >> m) w ≡ m w
pass_empty es m w h = rw h refl

module _ {S : Type 0} (db : RocksDb S) where
  -- The engine keeps the counters of an allocator.
  pub record IsAllocator (s : RocksEngine S) (a : Allocator) : Type 0 where
    pub br_id_kept : db.get s.meta meta_key_branch_id ≡ some (to_be_bytes 8 a.br_id)
    pub ver_id_kept : db.get s.meta meta_key_version_id ≡ some (to_be_bytes 8 a.ver_id)
    pub br_id_small : a.br_id < u64_mod
    pub ver_id_small : a.ver_id < u64_mod

  alloc_lem :
      (s : RocksEngine S) (key : RawBytes) (n : ℕ)
      → db.get s.meta key ≡ some (to_be_bytes 8 n)
      → n < u64_mod
      → alloc db key s ≡ (ok n, counted_as db s key ((1 + n) % u64_mod))
  unfolding counted_as
  alloc_lem s key n found small = rw (read_int_lem db s key n found small) refl

  -- The other counter stays where it was.
  counter_apart :
      (s : RocksEngine S) (key other : RawBytes) (n : ℕ)
      → same_bytes other key ≡ false
      → db.get (counted_as db s key n).meta other ≡ db.get s.meta other
  unfolding counted_as
  counter_apart s key other n apart =
      ground (arith, db.put_law s.meta key (to_be_bytes 8 n) other, apart)

  counter_set :
      (s : RocksEngine S) (key : RawBytes) (n : ℕ)
      → same_bytes key key ≡ true
      → db.get (counted_as db s key n).meta key ≡ some (to_be_bytes 8 n)
  unfolding counted_as
  counter_set s key n same = ground (arith, db.put_law s.meta key (to_be_bytes 8 n) key, same)

  wraps : (n : ℕ) → (1 + n) % u64_mod < u64_mod
  wraps n = omega arith

  -- Where the engine keeps the counters of an allocator, the next branch identifier that it gives is
  -- the allocator's, and it keeps the counters of the allocator after that.
  engine_alloc_br_id-refines :
      (s : RocksEngine S) (a : Allocator)
      → IsAllocator s a
      → ((engine_alloc_br_id db s).0 ≡ ok (alloc_br_id a).0)
        × IsAllocator (engine_alloc_br_id db s).1 (alloc_br_id a).1
  unfolding engine_alloc_br_id alloc_br_id
  engine_alloc_br_id-refines s a h =
      rw (alloc_lem s meta_key_branch_id a.br_id h.br_id_kept h.br_id_small) (
        refl,
        record {
          br_id_kept = counter_set s meta_key_branch_id _ refl;
          ver_id_kept =
              counter_apart s meta_key_branch_id meta_key_version_id _ refl ∙ h.ver_id_kept;
          br_id_small = wraps a.br_id;
          ver_id_small = h.ver_id_small;
        },
      )

  -- The same of version identifiers.
  pub engine_alloc_ver_id-refines :
      (s : RocksEngine S) (a : Allocator)
      → IsAllocator s a
      → ((engine_alloc_ver_id db s).0 ≡ ok (alloc_ver_id a).0)
        × IsAllocator (engine_alloc_ver_id db s).1 (alloc_ver_id a).1
  unfolding engine_alloc_ver_id alloc_ver_id
  engine_alloc_ver_id-refines s a h =
      rw (alloc_lem s meta_key_version_id a.ver_id h.ver_id_kept h.ver_id_small) (
        refl,
        record {
          br_id_kept = counter_apart s meta_key_version_id meta_key_branch_id _ refl ∙ h.br_id_kept;
          ver_id_kept = counter_set s meta_key_version_id _ refl;
          br_id_small = h.br_id_small;
          ver_id_small = wraps a.ver_id;
        },
      )

  not_allocator : (p : PreBytes) → length p ≡ 8 → same_bytes p meta_key_prefix_allocator ≡ false
  not_allocator [] h = absurd (omega arith)
  not_allocator (a ∷ []) h = absurd (omega arith)
  not_allocator (a ∷ b ∷ p) h = ground arith

  finish :
      (s : RocksEngine S) (p : PreBytes)
      → (set_instance_len db p 0 >> pure p) s ≡ (ok p, counted_as db s p 0)
  unfolding set_instance_len counted_as
  finish s p = refl

  -- The engine after a new instance: the counter is ahead, and the instance has length 0.
  unfoldable pub created : RocksEngine S → ℕ → RocksEngine S
  created s n =
      counted_as db (counted_as db s meta_key_prefix_allocator ((1 + n) % u64_mod))
        (to_be_bytes 8 n) 0

  pub new_lem :
      (s : RocksEngine S) (n : ℕ)
      → db.get s.meta meta_key_prefix_allocator ≡ some (to_be_bytes 8 n)
      → n < u64_mod
      → content db s (to_be_bytes 8 n) ≡ []
      → Instance.new db s ≡ (ok (to_be_bytes 8 n), created s n)
  unfolding Instance.new created alloc_prefix
  new_lem s n found small fresh =
      let s1 = counted_as db s meta_key_prefix_allocator ((1 + n) % u64_mod) in
      let none_there : iter_next db s1 (to_be_bytes 8 n) ≡ [] =
        iter_next-content db s1 (to_be_bytes 8 n) (length-to_be_bytes 8 n)
        ∙ content-counted_as db s meta_key_prefix_allocator _ (to_be_bytes 8 n)
        ∙ fresh in
      rw (alloc_lem s meta_key_prefix_allocator n found small)
        (pass_empty _ _ s1 none_there ∙ finish s1 (to_be_bytes 8 n))

  -- If no entry of the engine has the next prefix, a new instance has that prefix, no entries, and
  -- a length of 0.
  pub new-content :
      (s : RocksEngine S) (n : ℕ)
      → db.get s.meta meta_key_prefix_allocator ≡ some (to_be_bytes 8 n)
      → n < u64_mod
      → content db s (to_be_bytes 8 n) ≡ []
      → ((Instance.new db s).0 ≡ ok (to_be_bytes 8 n))
        × (content db (Instance.new db s).1 (to_be_bytes 8 n) ≡ [])
        × IsInstance db (Instance.new db s).1 (to_be_bytes 8 n)
  unfolding created
  new-content s n found small fresh =
      let s1 = counted_as db s meta_key_prefix_allocator ((1 + n) % u64_mod) in
      let none_there : content db s1 (to_be_bytes 8 n) ≡ [] =
        content-counted_as db s meta_key_prefix_allocator _ (to_be_bytes 8 n) ∙ fresh in
      rw (new_lem s n found small fresh) (
        refl,
        content-counted_as db s1 (to_be_bytes 8 n) 0 (to_be_bytes 8 n) ∙ none_there,
        counted_as-IsInstance db s1 (to_be_bytes 8 n) 0 (length-to_be_bytes 8 n)
            (ap length none_there) (omega arith),
      )

  -- The other instances are as before.
  pub created-content_other :
      (s : RocksEngine S) (n : ℕ) (q : PreBytes)
      → IsInstance db s q
      → to_be_bytes 8 n ≢ q
      → (content db (created s n) q ≡ content db s q) × IsInstance db (created s n) q
  unfolding created
  created-content_other s n q is ne =
      let s1 = counted_as db s meta_key_prefix_allocator ((1 + n) % u64_mod) in
      let same = content-counted_as db s meta_key_prefix_allocator ((1 + n) % u64_mod) q in
      (
        content-counted_as db s1 (to_be_bytes 8 n) 0 q ∙ same,
        counted_as_other db s1 (to_be_bytes 8 n) 0 q ne (
            counted_known db s s1 q
              (counter_apart s meta_key_prefix_allocator q _ (not_allocator q is.eight))
              (ap length same) is),
      )
